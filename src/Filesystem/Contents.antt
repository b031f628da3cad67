-- ===== src/Filesystem/Contents.antt =====
-- `fileFS` and `file` of filesystem/virtual.go, with the flags of filesystem/fs.go. The contents of all
-- files are one store, since open files share them; times and names of files are left out. Offsets
-- are natural numbers below 2 ^ 63 except where a 64-bit sum may be negative.
pub mod Write
pub mod Shared
mod Tests
use Prim.Native.Nat.{bit_and}
use microdbg.Base.{
  ℕ, ◌+◌, ◌-◌, min, Bool, true, false, ◌||◌, ◌&&◌, not, List, [], ◌∷◌, ◌++◌, length, take, drop,
  ltb, leb, ◌==◌, if◌then◌else◌,
}
use microdbg.Word.{add64}
use microdbg.Errors.{Error, Result, ok, err, panic, invalid, exist, eof}
use microdbg.Bytes.{overwrite}

abbrev pub o_rdonly : ℕ
o_rdonly = 0

abbrev pub o_wronly : ℕ
o_wronly = 1

abbrev pub o_rdwr : ℕ
o_rdwr = 2

abbrev pub o_create : ℕ
o_create = 0x40

abbrev pub o_excl : ℕ
o_excl = 0x80

abbrev pub o_trunc : ℕ
o_trunc = 0x200

abbrev pub o_append : ℕ
o_append = 0x400

-- Does the flag have one of these bits?
abbrev pub has : ℕ → ℕ → Bool
has flag bits = not (bit_and flag bits == 0)

-- The bytes of each file.
abbrev pub Store : Type 0
Store = ℕ → List ℕ

abbrev pub set_data : ℕ → List ℕ → Store → Store
set_data f bytes store g = if g == f then bytes else store g

-- An open file.
pub record File : Type 0 where
  pub fs : ℕ
  pub flag : ℕ
  pub off : ℕ

-- Opening the file `f` itself, which no name leads below.
unfoldable pub open_file : Store → ℕ → List ℕ → ℕ → Result File × Store
open_file store f (c ∷ name) flag = (err invalid, store)
open_file store f [] flag =
    if has flag o_excl
    then (err exist, store)
    else if bit_and flag (o_append + o_trunc) == o_append
    then (ok (record { fs = f; flag = flag; off = length (store f) }), store)
    else if bit_and flag (o_append + o_trunc) == o_trunc
    then (ok (record { fs = f; flag = flag; off = 0 }), set_data f [] store)
    else (ok (record { fs = f; flag = flag; off = 0 }), store)

pub data Whence : Type 0 where
  seek_start seek_current seek_end seek_other : Whence

abbrev pub moved : ℕ → File → ℕ → Result ℕ × File
moved size h off =
    if leb 0x8000000000000000 off || leb size off
    then (err invalid, h)
    else (ok off, record h { off = off })

unfoldable pub seek : Store → File → ℕ → Whence → Result ℕ × File
seek store h offset seek_start = moved (length (store h.fs)) h offset
seek store h offset seek_current = moved (length (store h.fs)) h (add64 h.off offset)
seek store h offset seek_end = moved (length (store h.fs)) h (add64 (length (store h.fs)) offset)
seek store h offset seek_other = (err invalid, h)

-- The bytes read into a slice of length `n`. A slice expression from beyond the end panics.
unfoldable pub read : Store → File → ℕ → Result (List ℕ) × File
read store h n =
    if has h.flag o_wronly
    then (err invalid, h)
    else if ltb (length (store h.fs)) h.off
    then (panic, h)
    else if length (store h.fs) - h.off == 0
    then (err eof, h)
    else (
      ok (take n (drop h.off (store h.fs))),
      record h { off = h.off + min n (length (store h.fs) - h.off) },
    )

unfoldable pub write : Store → File → List ℕ → Result ℕ × File × Store
write store h b =
    if not (has h.flag (o_wronly + o_rdwr))
    then (err invalid, h, store)
    else if ltb (length (store h.fs)) h.off
    then (panic, h, store)
    else (
      ok (length b),
      record h { off = h.off + length b },
      set_data h.fs
          (if leb (length b) (length (store h.fs) - h.off)
            then overwrite (store h.fs) h.off b
            else take h.off (store h.fs) ++ b)
          store,
    )
