-- ===== src/Filesystem/Contents/Tests.antt =====
-- Open files of filesystem/virtual.go on a concrete store.
use Prim.Native.Nat.{bit_and}
use microdbg.Base.{ℕ, ◌+◌, max, ◌≡◌, ◌≢◌, refl, false, true, [], ◌∷◌, ◌++◌, length, arith}
use microdbg.Errors.{ok, panic}
use microdbg.Bytes.{byte_at, written, overwrite}
use microdbg.Filesystem.Contents.{
  o_wronly, o_rdwr, o_append, o_trunc, has, Store, File, open_file, seek, seek_start, read, write,
}
use microdbg.Filesystem.Contents.Write.{write_lem, read-write}
use microdbg.Filesystem.Contents.Shared.{Leaves, write-open_file, open_file-panics}

-- Every file holds three bytes.
abbrev three_bytes : Store
three_bytes f = 1 ∷ 2 ∷ 3 ∷ []

abbrev at_two : File
at_two = record { fs = 5; flag = o_rdwr; off = 2 }

write_lem_example :
    let o = write three_bytes at_two (7 ∷ 8 ∷ []) in
    (o.0 ≡ ok 2)
    × (o.1 ≡ record at_two { off = 4 })
    × (length (o.2 5) ≡ max 3 4)
    × ((i : ℕ) → byte_at (o.2 5) i ≡ written (1 ∷ 2 ∷ 3 ∷ []) 2 (7 ∷ 8 ∷ []) i)
    × ((g : ℕ) → g ≢ 5 → o.2 g ≡ three_bytes g)
write_lem_example = write_lem three_bytes at_two (7 ∷ 8 ∷ []) refl (omega arith)

read-write_example :
    let o = write three_bytes at_two (7 ∷ 8 ∷ []) in
    let s = seek o.2 o.1 2 seek_start in (s.0 ≡ ok 2) × ((read o.2 s.1 2).0 ≡ ok (7 ∷ 8 ∷ []))
read-write_example =
    read-write three_bytes at_two (7 ∷ 8 ∷ []) refl (omega arith) refl (omega arith) (omega arith)

-- Opened to append and write.
write-open_file_example :
    (bit_and 0x401 (o_append + o_trunc) ≡ o_append
      → Leaves three_bytes 5 0x401 (7 ∷ []) (three_bytes 5 ++ (7 ∷ [])))
    × (bit_and 0x401 (o_append + o_trunc) ≡ o_trunc → Leaves three_bytes 5 0x401 (7 ∷ []) (7 ∷ []))
    × (bit_and 0x401 (o_append + o_trunc) ≢ o_append
        → bit_and 0x401 (o_append + o_trunc) ≢ o_trunc
        → Leaves three_bytes 5 0x401 (7 ∷ []) (overwrite (three_bytes 5) 0 (7 ∷ [])))
write-open_file_example = write-open_file three_bytes 5 0x401 (7 ∷ []) refl refl

open_file-panics_example :
    let store' = (open_file three_bytes 5 [] 0x201).1 in
    (has o_rdwr o_wronly ≡ false → (read store' at_two 1).0 ≡ panic)
    × (has o_rdwr (o_wronly + o_rdwr) ≡ true → (write store' at_two (7 ∷ [])).0 ≡ panic)
open_file-panics_example =
    open_file-panics three_bytes at_two 0x201 1 (7 ∷ []) refl refl (omega arith)
