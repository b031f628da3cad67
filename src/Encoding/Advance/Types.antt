-- ===== src/Encoding/Advance/Types.antt =====
-- The encoder of encoding/encode.go moves a stream by the size that it computes for the type.
use microdbg.Base.{
  ℕ, zero, suc, ◌+◌, ◌-◌, ◌*◌, ◌≡◌, refl, ap, subst, true, false, Option, none, some, List, [], ◌∷◌,
  ◌++◌, ◌==◌, replicate, Bool-cases, inl, inr, arith,
}
use microdbg.Word.{sub64, align}
use microdbg.Word.Little.{from_bytes}
use microdbg.Streams.Interface.{StreamOps}
use microdbg.Encoding.{
  GoType, fixed, float32, float64, word, array, pointer, slice, string, struct, other, Fields, end,
  field, go_size, check_custom, size_of, raw_fields, repeat_size, end_pad, with_pad, positive,
}
use microdbg.Encoding.Memory.{Memory, load}
use microdbg.Encoding.Encode as Encode
use microdbg.Encoding.Encode.{encode, encode_fields, repeat}
use microdbg.Encoding.Advance.{
  Moving, NoText, NoTexts, Moves, Advances, CoderAdvances, FieldsAdvance, andthen-eq-ok,
  loaded-eq-ok, in_block-Moves, raw-Advances, padded-Advances, repeat-Advances, size_of-append,
}

size_of-repeat_size : (n : ℕ) (size : List ℕ) → size_of (repeat_size n size) ≡ n * size_of size
unfolding size_of repeat_size
size_of-repeat_size zero size = omega arith
size_of-repeat_size (suc n) size =
    grind (arith, size_of-append size (repeat_size n size), size_of-repeat_size n size)

size_of-one : (n : ℕ) → size_of (n ∷ []) ≡ n
unfolding size_of
size_of-one n = omega arith

module _ {W : Type 0} (ops : StreamOps W) (mem : Memory) (bs : ℕ) (laws : Moving ops bs) where
  open ops use {Str, block_size}
  open laws use {position}

  abbrev Moves' : Str → Str → ℕ → Type 0
  Moves' = Moves ops mem bs laws

  abbrev Advances' : Encode.Handler ops mem → ℕ → Type 0
  Advances' = Advances ops mem bs laws

  float-Advances :
      Advances'
        (λ s p w. Encode.loaded ops mem s w (load mem p 4) λ f. ops.write_float (from_bytes f) s w)
        4
  float-Advances s s' p w w' b e =
      let (f, some', q) = loaded-eq-ok ops mem bs laws s w (load mem p 4) _ s' w' e in
      omega (arith, laws.moved_by_float (from_bytes f) s s' w w' b q)

  double-Advances :
      Advances'
        (λ s p w. Encode.loaded ops mem s w (load mem p 8) λ f. ops.write_double (from_bytes f) s w)
        8
  double-Advances s s' p w w' b e =
      let (f, some', q) = loaded-eq-ok ops mem bs laws s w (load mem p 8) _ s' w' e in
      omega (arith, laws.moved_by_double (from_bytes f) s s' w w' b q)

  sliced-Advances :
      (n : ℕ) (elements : ℕ → Encode.Handler ops mem)
      → Advances' (Encode.sliced ops mem n elements) bs
  sliced-Advances n elements s s' p w w' b e =
      let (d, some', q) = loaded-eq-ok ops mem bs laws s w (load mem p 8) _ s' w' e in
      let (k, some'', r) = loaded-eq-ok ops mem bs laws s w (load mem (p + 8) 8) _ s' w' q in
      in_block-Moves ops mem bs laws (n * from_bytes k) s w _ s' w' b r

  pointer_handler-Advances :
      (n : ℕ) (h : Encode.Handler ops mem) → Advances' (Encode.pointer_handler ops mem bs n h) bs
  pointer_handler-Advances n h s s' p w w' b e = elim (Bool-cases (p == 0)) [
    | inl nil ↦
        let q : ops.skip bs s ≡ s' = ground arith in
        omega (arith, laws.moved_by_skip bs s b, ap position q, ap block_size q)
    | inr there ↦
        in_block-Moves ops mem bs laws n s w
          (λ sub v. Encode.loaded ops mem sub v (load mem p 8) (λ q. h sub (from_bytes q) v)) s' w'
          b (ground arith)
  ]

  abbrev Good : Encode.Coder ops mem → Type 0
  Good = CoderAdvances ops mem bs laws

  abbrev GoodFields : ℕ → Encode.Coder ops mem → Type 0
  GoodFields = FieldsAdvance ops mem bs laws

  array_of-Good : (n : ℕ) (c : Encode.Coder ops mem) → Good c → Good (Encode.array_of ops mem n c)
  array_of-Good n none g = tt
  array_of-Good n (some (h, size)) g = λ s s' p w w' b e. omega (
    arith,
    repeat-Advances ops mem bs laws n (size_of size) (size_of size) h g s s' p w w' b e,
    size_of-repeat_size n size,
  )

  slice_of-Good : (c : Encode.Coder ops mem) → Good (Encode.slice_of ops mem bs c)
  slice_of-Good none = tt
  slice_of-Good (some (h, size)) = λ s s' p w w' b e. omega (
    arith,
    sliced-Advances (size_of size) (λ x. repeat ops mem x (size_of size) h) s s' p w w' b e,
    size_of-one bs,
  )

  pointer_to-Good : (c : Encode.Coder ops mem) → Good (Encode.pointer_to ops mem bs c)
  pointer_to-Good none = tt
  pointer_to-Good (some (h, size)) = λ s s' p w w' b e.
      omega (arith, pointer_handler-Advances (size_of size) h s s' p w w' b e, size_of-one bs)

  size_of-padded : (pad k : ℕ) (ks : List ℕ) → size_of (pad ∷ k ∷ ks) ≡ pad + size_of (k ∷ ks)
  unfolding size_of
  size_of-padded pad k ks = refl

  field_align-Good :
      (off : ℕ) (c : Encode.Coder ops mem) → Good c → Good (Encode.field_align ops mem off c)
  field_align-Good off none g = tt
  field_align-Good off (some (h, [])) g = tt
  field_align-Good off (some (h, k ∷ ks)) g = elim (Bool-cases (align off k == off)) [
    | inl same ↦ rw same g
    | inr moved ↦ rw moved (λ s s' p w w' b e. omega (
      arith,
      g (ops.skip (sub64 (align off k) off) s) s' p w w'
          (laws.moved_by_skip (sub64 (align off k) off) s b).1 e,
      laws.moved_by_skip (sub64 (align off k) off) s b,
      size_of-padded (sub64 (align off k) off) k ks,
    ))
  ]

  before-Good :
      (from off k : ℕ) (h : Encode.Handler ops mem) (c : Encode.Coder ops mem)
      → Advances' h k
      → GoodFields (from + k) c
      → GoodFields from (Encode.before ops mem off h c)
  before-Good from off k h none a g = tt
  before-Good from off k h (some (rest, size)) a (d, e, c) =
      (k + d, omega (arith, e), λ s s' p w w' b q. moved s s' p w w' b q)
    where
      moved :
          Advances'
            (λ s p w. Encode.andthen ops mem (h s (p + off) w) (λ s' w'. rest s' p w'))
            (k + d)
      moved s s' p w w' b q =
          let (t, v, first, then') = andthen-eq-ok ops mem bs laws (h s (p + off) w) _ s' w' q in
          let near : Moves' s t k = a s t (p + off) w v b first in
          omega (arith, near, c t s' p v w' near.1 then')

  field_then-Good :
      (off : ℕ) (size : List ℕ) (c : Encode.Coder ops mem) (more : List ℕ → Encode.Coder ops mem)
      → Good c
      → ((size' : List ℕ) → GoodFields (size_of size') (more size'))
      → GoodFields (size_of size) (Encode.field_then ops mem off size c more)
  field_then-Good off size none more g rest = tt
  field_then-Good off size (some (h, field_size)) more g rest =
      before-Good (size_of size) off (size_of field_size) h (more (size ++ field_size)) g (
        subst (λ n. GoodFields n (more (size ++ field_size))) (size_of-append size field_size)
          (rest (size ++ field_size)))

  skip_pad-Moves :
      (pad : ℕ) (size : List ℕ) (s s' t : Str)
      → Moves' s t (size_of size)
      → Encode.skip_pad ops mem pad t ≡ s'
      → Moves' s s' (size_of (with_pad pad size))
  skip_pad-Moves pad size s s' t far e = elim (Bool-cases (positive pad)) [
    | inl more ↦
        let q : ops.skip pad t ≡ s' = rw more at e in
        rw more (
          omega (
            arith,
            far,
            laws.moved_by_skip pad t far.1,
            ap position q,
            ap block_size q,
            size_of-append size (pad ∷ []),
            size_of-one pad,
          ))
    | inr none' ↦
        let q : t ≡ s' = rw none' at e in
        rw none' (omega (arith, far, ap position q, ap block_size q))
  ]

  struct_end-Good : (c : Encode.Coder ops mem) → GoodFields 0 c → Good (Encode.struct_end ops mem c)
  struct_end-Good none g = tt
  struct_end-Good (some (h, size)) (d, e, a) = λ s s' p w w' b q.
      let (t, v, first, then') = andthen-eq-ok ops mem bs laws (h s p w) _ s' w' q in
      let same : Encode.skip_pad ops mem (end_pad size) t ≡ s' =
        ap (λ (u : Encode.Did ops mem). u.1) then' in
      let far : Moves' s t (size_of size) = omega (arith, a s t p w v b first, e) in
      skip_pad-Moves (end_pad size) size s s' t far same

  struct_of-Good :
      (n : ℕ) (r : Option (List ℕ × ℕ)) (c : Encode.Coder ops mem)
      → GoodFields 0 c
      → Good (Encode.struct_of ops mem n r c)
  struct_of-Good n none c g = struct_end-Good c g
  struct_of-Good n (some (size, off)) c g =
      raw-Advances ops mem bs laws (size_of (size ++ ((n - off) ∷ [])))

  from_none : (c : Encode.Coder ops mem) → GoodFields (size_of []) c → GoodFields 0 c
  unfolding size_of
  from_none c g = g

  raw-Good : (n : ℕ) (size : List ℕ) → size_of size ≡ n → Good (some (Encode.raw ops mem n, size))
  raw-Good n size e s s' p w w' b q =
      omega (arith, raw-Advances ops mem bs laws n s s' p w w' b q, e)

  mutual
    unfolding encode

    pub encode-Good : (t : GoType) → NoText t → Good (encode ops mem bs t)
    encode-Good (fixed n) plain = raw-Good n (n ∷ []) (size_of-one n)
    encode-Good float32 plain =
        λ s s' p w w' b e. omega (arith, float-Advances s s' p w w' b e, size_of-one 4)
    encode-Good float64 plain =
        λ s s' p w w' b e. omega (arith, double-Advances s s' p w w' b e, size_of-one 8)
    encode-Good word plain = λ s s' p w w' b e.
        omega (arith, padded-Advances ops mem bs laws s s' p w w' b e, size_of-one bs)
    encode-Good (array n t) plain = elim (Bool-cases (check_custom bs t)) [
      | inl custom ↦ rw custom (array_of-Good n _ (encode-Good t plain))
      | inr flat ↦
          rw flat (raw-Good (size_of (replicate n (go_size t))) (replicate n (go_size t)) refl)
    ]
    encode-Good (pointer t) plain = pointer_to-Good (encode ops mem bs t)
    encode-Good (slice t) plain = elim (Bool-cases (check_custom bs t)) [
      | inl custom ↦ rw custom (slice_of-Good (encode ops mem bs t))
      | inr flat ↦ rw flat (λ s s' p w w' b e. omega (
        arith,
        sliced-Advances (go_size t) (λ k. Encode.raw ops mem (go_size t * k)) s s' p w w' b e,
        size_of-one bs,
      ))
    ]
    encode-Good string plain = absurd plain
    encode-Good (struct size fs) plain =
        struct_of-Good size (raw_fields bs fs [] 0) _
          (from_none (encode_fields ops mem bs fs []) (encode_fields-Good fs [] plain))
    encode-Good other plain = tt

    encode_fields-Good :
        (fs : Fields) (size : List ℕ)
        → NoTexts fs
        → GoodFields (size_of size) (encode_fields ops mem bs fs size)
    encode_fields-Good end size plain = (
      0,
      omega arith,
      λ s s' p w w' b e.
          let q : s ≡ s' = ap (λ (u : Encode.Did ops mem). u.1) e in
          omega (arith, ap position q, ap block_size q),
    )
    encode_fields-Good (field true off t fs) size plain = encode_fields-Good fs size plain.1
    encode_fields-Good (field false off t fs) size plain =
        field_then-Good off size _ _ (field_align-Good (size_of size) _ (encode-Good t plain.0))
          (λ size'. encode_fields-Good fs size' plain.1)
