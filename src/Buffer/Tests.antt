-- ===== src/Buffer/Tests.antt =====
-- The `Buffer` of internal/debugger/buffer.go on concrete bytes.
use microdbg.Base.{ℕ, max, ◌≡◌, [], ◌∷◌, length, arith}
use microdbg.Errors.{ok}
use microdbg.Bytes.{byte_at, written}
use microdbg.Buffer.{read_at, write_at}
use microdbg.Buffer.Correct.{write_at_lem, read_at-write_at}

-- Two bytes are written beyond the end of a buffer of one byte.
write_at_lem_example :
    ((write_at (1 ∷ []) (7 ∷ 8 ∷ []) 3).0 ≡ ok 2)
    × (length (write_at (1 ∷ []) (7 ∷ 8 ∷ []) 3).1 ≡ max 1 5)
    × ((i : ℕ) → byte_at (write_at (1 ∷ []) (7 ∷ 8 ∷ []) 3).1 i ≡ written (1 ∷ []) 3 (7 ∷ 8 ∷ []) i)
write_at_lem_example = write_at_lem (1 ∷ []) (7 ∷ 8 ∷ []) 3 (omega arith)

read_at-write_at_example : read_at (write_at (1 ∷ []) (7 ∷ 8 ∷ []) 3).1 2 3 ≡ ok (7 ∷ 8 ∷ [])
read_at-write_at_example = read_at-write_at (1 ∷ []) (7 ∷ 8 ∷ []) 3 (omega arith) (omega arith)
