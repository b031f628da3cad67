-- ===== src/Buffer/Correct.antt =====
-- What writing to the `Buffer` of internal/debugger/buffer.go does, and reading from it.
use microdbg.Base.{
  ℕ, zero, suc, [], ◌∷◌, ◌+◌, ◌-◌, ◌≤◌, ◌<◌, min, max, ◌≡◌, refl, ap, ◌∙◌, sym, ◌||◌, false, List,
  ◌++◌, length, take, replicate, length-append, length-replicate, ltb, leb, arith,
}
use microdbg.Word.{add64}
use microdbg.Errors.{ok}
use microdbg.Bytes.{
  byte_at, overwrite, written, byte_at-overwrite, length-overwrite, take-overwrite,
  byte_at-append_front, byte_at-append_back, byte_at-beyond, byte_at-zeros,
}
use microdbg.Buffer.{negative, read_at, grow, write_at}

module _ (buf : List ℕ) (end : ℕ) (small : end < 9223372036854775808) where
  length-grow : length (grow buf end) ≡ max (length buf) end
  unfolding grow
  length-grow = ground (
    arith,
    length-append buf (replicate (end - length buf) 0),
    length-replicate {A = ℕ} (end - length buf) 0,
  )

  byte_at-grow : (i : ℕ) → byte_at (grow buf end) i ≡ byte_at buf i
  unfolding grow
  byte_at-grow i = ground (arith, front, back)
    where
      front : i < length buf → byte_at (buf ++ replicate (end - length buf) 0) i ≡ byte_at buf i
      front l = byte_at-append_front buf _ i l

      back : length buf ≤ i → byte_at (buf ++ replicate (end - length buf) 0) i ≡ byte_at buf i
      back l =
          byte_at-append_back buf _ (i - length buf) i (omega arith)
          ∙ byte_at-zeros (end - length buf) (i - length buf)
          ∙ sym (byte_at-beyond i buf l)

take-all : (n : ℕ) (xs : List ℕ) → length xs ≤ n → take n xs ≡ xs
take-all zero [] h = refl
take-all zero (x ∷ xs) h = absurd (omega arith)
take-all (suc n) [] h = refl
take-all (suc n) (x ∷ xs) h = ap (λ l. x ∷ l) (take-all n xs (omega arith))

module _ (buf b : List ℕ) (off : ℕ) (small : off + length b < 9223372036854775808) where
  abbrev wide : List ℕ
  wide = grow buf (off + length b)

  wide_lem : length wide ≡ max (length buf) (off + length b)
  wide_lem = length-grow buf (off + length b) small

  write_at-eq : write_at buf b off ≡ (ok (length b), overwrite wide off b)
  unfolding write_at
  write_at-eq =
      rw (end, inside, take-all (length wide - off) b (omega (arith, wide_lem)), count) refl
    where
      end : add64 (length b) off ≡ off + length b
      end = omega arith

      inside : negative off || ltb (length wide) off ≡ false
      inside = ground (arith, wide_lem)

      count : min (length b) (length wide - off) ≡ length b
      count = omega (arith, wide_lem)

  -- Writing at an offset, below or beyond the end: all bytes are written and their number is returned;
  -- the buffer grows just as far as they reach; the bytes stand at the offset, every other byte is as
  -- it was, and what lies between the old end and the offset is zero. The condition is that the end
  -- is an int64.
  pub write_at_lem :
      ((write_at buf b off).0 ≡ ok (length b))
      × (length (write_at buf b off).1 ≡ max (length buf) (off + length b))
      × ((i : ℕ) → byte_at (write_at buf b off).1 i ≡ written buf off b i)
  write_at_lem = rw write_at-eq (
    refl,
    omega (arith, length-overwrite wide off b (omega (arith, wide_lem)), wide_lem),
    λ i. byte_at-overwrite wide off b (omega (arith, wide_lem)) i ∙ same i,
  )
    where
      same : (i : ℕ) → written wide off b i ≡ written buf off b i
      same i = rw (byte_at-grow buf (off + length b) small i) refl

  -- Reading at an offset as many bytes as were written there, and at least one, gives the bytes back.
  pub read_at-write_at : 0 < length b → read_at (write_at buf b off).1 (length b) off ≡ ok b
  unfolding read_at
  read_at-write_at pos =
      rw (write_at-eq, inside, before_end, take-overwrite wide off b (omega (arith, wide_lem))) refl
    where
      inside : negative off ≡ false
      inside = ground arith

      before_end : leb (length (overwrite wide off b)) off ≡ false
      before_end = ground (arith, length-overwrite wide off b (omega (arith, wide_lem)))
