-- ===== src/Encoding/Advance/Values.antt =====
-- `Encode` of encoding/encode.go moves a stream by `EncodeSize`.
use microdbg.Base.{
  ℕ, ◌≡◌, ap, sym, subst, ◌∙◌, Option, none, some, leb, ◌==◌, if◌then◌else◌, replicate,
  length-replicate, Bool-cases, inl, inr, arith,
}
use microdbg.Errors.{ok}
use microdbg.Streams.Interface.{StreamOps}
use microdbg.Encoding.{GoType, size_of}
use microdbg.Encoding.Memory.{Memory}
use microdbg.Encoding.Encode as Encode
use microdbg.Encoding.Encode.{encode}
use microdbg.Encoding.Sizes.{encode_size, sizes, total, encode-Agree}
use microdbg.Encoding.Values.{encode_value, encode_with, encode_data, with_word, in_word}
use microdbg.Encoding.Advance.{Moving, NoText, Moves, CoderAdvances}
use microdbg.Encoding.Advance.Types.{encode-Good}

-- A nil pointer counts as a nil interface.
abbrev pub present : GoType → ℕ → Option GoType
present t p = if p == 0 then none else some t

module _ {W : Type 0} (ops : StreamOps W) (bs : ℕ) (laws : Moving ops bs) where
  open ops use {Str, block_size}

  -- The sizes do not depend on the memory.
  sizes-same :
      (mem mem' : Memory) (w : W) (t : GoType)
      → sizes (encode ops mem bs t) ≡ sizes (encode ops mem' bs t)
  sizes-same mem mem' w t = encode-Agree ops mem w bs t ∙ sym (encode-Agree ops mem' w bs t)

  coder-Moves :
      (mem mem' : Memory) (c : Encode.Coder ops mem') (s s' : Str) (p n : ℕ) (w w' : W)
      → CoderAdvances ops mem' bs laws c
      → block_size s ≡ bs
      → total (sizes c) ≡ some n
      → encode_with ops 0 mem' c s p w ≡ (ok tt, s', w')
      → Moves ops mem bs laws s s' n
  coder-Moves mem mem' none s s' p n w w' good b e r = ground arith
  coder-Moves mem mem' (some (h, size)) s s' p n w w' good b e r =
      let q : size_of size ≡ n = ground arith in
      subst (λ k. Moves ops mem bs laws s s' k) q (good s s' p w w' b r)

  null-Moves :
      (mem : Memory) (s s' : Str) (w w' : W)
      → block_size s ≡ bs
      → Encode.write_null ops mem (block_size s) s w ≡ (ok tt, s', w')
      → Moves ops mem bs laws s s' bs
  null-Moves mem s s' w w' b e = elim (Bool-cases (leb (block_size s) 8)) [
    | inl fits ↦
        let q : ops.write (replicate (block_size s) 0) s w ≡ (ok tt, s', w') = ground arith in
        omega (
          arith,
          laws.moved_by_write (replicate (block_size s) 0) s s' w w' b q,
          length-replicate {A = ℕ} (block_size s) 0,
          b,
        )
    | inr not' ↦ absurd (ground arith)
  ]

  data-Moves :
      (scratch : ℕ) (mem : Memory) (t : GoType) (p n : ℕ) (s s' : Str) (w w' : W)
      → NoText t
      → block_size s ≡ bs
      → total (sizes (encode ops mem bs t)) ≡ some n
      → encode_data ops scratch mem t p s w ≡ (ok tt, s', w')
      → Moves ops mem bs laws s s' n
  data-Moves scratch mem t p n s s' w w' plain b e r = elim (Bool-cases (in_word t)) [
    | inl direct ↦
        let mem' : Memory = with_word ops scratch mem p in
        let r' : encode_with ops 0 mem' (encode ops mem' bs t) s scratch w ≡ (ok tt, s', w') =
          rw (direct, b) at r in
        coder-Moves mem mem' (encode ops mem' bs t) s s' scratch n w w'
          (encode-Good ops mem' bs laws t plain) b (ap total (sizes-same mem' mem w t) ∙ e) r'
    | inr indirect ↦
        let r' : encode_with ops 0 mem (encode ops mem bs t) s p w ≡ (ok tt, s', w') =
          rw (indirect, b) at r in
        coder-Moves mem mem (encode ops mem bs t) s s' p n w w'
          (encode-Good ops mem bs laws t plain) b e r'
  ]

  -- Encoding a value moves the stream by the size that `EncodeSize` gives for it, paddings included,
  -- modulo the size of the address space, and leaves its block size, if encoding gives no error and
  -- does not panic. The
  -- conditions: no string stands in the value's own block (a string counts for two blocks and writes
  -- one), and the stream moves on by what is skipped and written, and by a block where a stream behind
  -- a pointer is made.
  pub encode_value-Moves :
      (scratch : ℕ) (mem : Memory) (t : GoType) (p n : ℕ) (s s' : Str) (w w' : W)
      → NoText t
      → block_size s ≡ bs
      → encode_size ops mem bs (present t p) ≡ some n
      → encode_value ops scratch mem (t, p) s w ≡ (ok tt, s', w')
      → Moves ops mem bs laws s s' n
  unfolding encode_size encode_value
  encode_value-Moves scratch mem t p n s s' w w' plain b e r = elim (Bool-cases (p == 0)) [
    | inl nil ↦
        let q : bs ≡ n = ground arith in
        subst (λ k. Moves ops mem bs laws s s' k) q (null-Moves mem s s' w w' b (rw nil at r))
    | inr there ↦ data-Moves scratch mem t p n s s' w w' plain b (rw there at e) (rw there at r)
  ]
