-- ===== src/Streams/Pointers.antt =====
-- `pointerStream` of internal/debugger/stream.go: a stream over the memory from a pointer on. What it
-- allocates behind a pointer comes from `alloc`, which also may change the state.
use microdbg.Base.{ℕ, ◌+◌, Option, none, some, List, [], ◌∷◌, ◌++◌, length, take}
use microdbg.Word.Little.{le_bytes, from_bytes}
use microdbg.Errors.{Error, Result, ok, err, panic}
use microdbg.Emulator.{Machine}
use microdbg.Pointers
use microdbg.Pointers.{mem_read_string, mem_read_pointer, read_at, write_at}

pub record PointerStream : Type 0 where
  pub ptr : ℕ
  pub size : ℕ

abbrev pub block_size : PointerStream → ℕ
block_size ps = ps.size

abbrev pub offset : PointerStream → ℕ
offset ps = ps.ptr

abbrev pub skip : ℕ → PointerStream → PointerStream
skip n ps = record ps { ptr = Pointers.add ps.ptr n }

module _ (m : Machine) where
  abbrev pub after_read : PointerStream → ℕ × Result (List ℕ) → Result (List ℕ) × PointerStream
  after_read ps (n, ok bytes) = (ok bytes, skip n ps)
  after_read ps (n, err e) = (err e, ps)
  after_read ps (n, panic) = (panic, ps)

  unfoldable pub read : ℕ → PointerStream → m.State → Result (List ℕ) × PointerStream
  unfolding read_at
  read len ps st = after_read ps (read_at m ps.ptr len 0 st)

  -- A number that is read into its bytes.
  abbrev pub number : Result (List ℕ) × PointerStream → Result ℕ × PointerStream
  number (ok bytes, ps) = (ok (from_bytes bytes), ps)
  number (err e, ps) = (err e, ps)
  number (panic, ps) = (panic, ps)

  -- A float is its bit pattern.
  unfoldable pub read_float : PointerStream → m.State → Result ℕ × PointerStream
  unfolding read from_bytes
  read_float ps st = number (read 4 ps st)

  unfoldable pub read_double : PointerStream → m.State → Result ℕ × PointerStream
  unfolding read from_bytes
  read_double ps st = number (read 8 ps st)

  abbrev pub after_text :
      PointerStream → Option (Result (List ℕ)) → Option (Result (List ℕ) × PointerStream)
  after_text ps none = none
  after_text ps (some (ok str)) = some (ok str, skip (length str + 1) ps)
  after_text ps (some (err e)) = some (err e, ps)
  after_text ps (some panic) = some (panic, ps)

  -- The fuel is that of `mem_read_string`.
  unfoldable pub read_string :
      ℕ → PointerStream → m.State → Option (Result (List ℕ) × PointerStream)
  unfolding mem_read_string
  read_string fuel ps st = after_text ps (mem_read_string m fuel ps.ptr st)

  abbrev pub after_pointer : PointerStream → Result ℕ → Result PointerStream × PointerStream
  after_pointer ps (ok p) = (ok (record { ptr = p; size = ps.size }), skip ps.size ps)
  after_pointer ps (err e) = (err e, ps)
  after_pointer ps panic = (panic, ps)

  unfoldable pub read_stream : PointerStream → m.State → Result PointerStream × PointerStream
  unfolding mem_read_pointer
  read_stream ps st = after_pointer ps (mem_read_pointer m ps.ptr st)

  -- The error, if any, beside the stream and the state.
  abbrev pub after_write :
      PointerStream → ℕ × Option Error × m.State → Option Error × PointerStream × m.State
  after_write ps (n, none, st) = (none, skip n ps, st)
  after_write ps (n, some e, st) = (some e, ps, st)

  unfoldable pub write : List ℕ → PointerStream → m.State → Option Error × PointerStream × m.State
  unfolding write_at
  write b ps st = after_write ps (write_at m ps.ptr b 0 st)

  unfoldable pub write_float : ℕ → PointerStream → m.State → Option Error × PointerStream × m.State
  unfolding write le_bytes
  write_float f ps st = write (le_bytes 4 f) ps st

  unfoldable pub write_double : ℕ → PointerStream → m.State → Option Error × PointerStream × m.State
  unfolding write le_bytes
  write_double d ps st = write (le_bytes 8 d) ps st

  unfoldable pub write_string :
      List ℕ → PointerStream → m.State → Option Error × PointerStream × m.State
  unfolding write
  write_string str ps st = write (str ++ (0 ∷ [])) ps st

  -- Where the address of a new block is written, an error of the write is dropped.
  abbrev pub pointing :
      PointerStream
      → ℕ
      → Option Error × PointerStream × m.State
      → Result PointerStream × PointerStream × m.State
  pointing ps ptr (e, ps', st) = (ok (record { ptr = ptr; size = ps.size }), ps', st)

  abbrev pub after_alloc :
      PointerStream → Result ℕ × m.State → Result PointerStream × PointerStream × m.State
  after_alloc ps (ok ptr, st) = pointing ps ptr (write (take ps.size (le_bytes 8 ptr)) ps st)
  after_alloc ps (err e, st) = (err e, ps, st)
  after_alloc ps (panic, st) = (panic, ps, st)

  unfoldable pub write_stream :
      (ℕ → m.State → Result ℕ × m.State)
      → ℕ
      → PointerStream
      → m.State
      → Result PointerStream × PointerStream × m.State
  unfolding write le_bytes
  write_stream alloc size ps st = after_alloc ps (alloc size st)
