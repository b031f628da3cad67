-- ===== src/Buffer.antt =====
-- `Buffer` of internal/debugger/buffer.go: bytes that are read and written at offsets. Offsets are the
-- bit patterns of an int64.
pub mod Correct
mod Tests
use microdbg.Base.{
  ℕ, ◌+◌, ◌-◌, min, Bool, ◌||◌, List, ◌++◌, length, take, drop, replicate, ltb, leb, if◌then◌else◌,
}
use microdbg.Word.{add64}
use microdbg.Errors.{Result, ok, err, panic, eof}
use microdbg.Bytes.{overwrite}

abbrev pub negative : ℕ → Bool
negative i = leb 0x8000000000000000 i

-- The bytes read into a slice of length `len`. A slice expression with a negative offset panics.
unfoldable pub read_at : List ℕ → ℕ → ℕ → Result (List ℕ)
read_at buf len off =
    if negative off
    then panic
    else if leb (length buf) off
    then err eof
    else ok (take len (drop off buf))

-- `append` of the zero bytes up to `end`.
pub grow : List ℕ → ℕ → List ℕ
grow buf end =
    if negative end
    then buf
    else if ltb (length buf) end
    then buf ++ replicate (end - length buf) 0
    else buf

-- `copy((*buf)[off:], b)`: the number of bytes copied, and the buffer.
abbrev pub copied : List ℕ → List ℕ → ℕ → Result ℕ × List ℕ
copied buf b off =
    if negative off || ltb (length buf) off
    then (panic, buf)
    else (ok (min (length b) (length buf - off)), overwrite buf off (take (length buf - off) b))

unfoldable pub write_at : List ℕ → List ℕ → ℕ → Result ℕ × List ℕ
unfolding grow
write_at buf b off = copied (grow buf (add64 (length b) off)) b off
