-- ===== src/Encoding/Sizes.antt =====
-- `EncodeSize` and `DecodeSize` of the package encoding, and the sizes that the two directions compute.
use microdbg.Base.{
  ℕ, ◌≡◌, refl, ap, ◌∙◌, true, false, Option, none, some, List, [], ◌∷◌, ◌++◌, Bool-cases, inl, inr,
  arith,
}
use microdbg.Streams.Interface.{StreamOps}
use microdbg.Encoding.{
  GoType, fixed, float32, float64, word, array, pointer, slice, string, struct, other, Fields, end,
  field, check_custom, size_of,
}
use microdbg.Encoding.Memory.{Memory}
use microdbg.Encoding.Encode as Encode
use microdbg.Encoding.Encode.{encode, encode_fields}
use microdbg.Encoding.Decode as Decode
use microdbg.Encoding.Decode.{decode, decode_fields}

abbrev pub sizes {ℓ} : {A : Type ℓ} → Option (A × List ℕ) → Option (List ℕ)
sizes none = none
sizes (some (h, size)) = some size

abbrev pub total : Option (List ℕ) → Option ℕ
total none = none
total (some size) = some (size_of size)

-- A nil interface has the size of a block. `none` is the panic for a type without encoding.
module _ {W : Type 0} (ops : StreamOps W) where
  unfoldable pub encode_size : Memory → ℕ → Option GoType → Option ℕ
  unfolding encode size_of
  encode_size mem bs none = some bs
  encode_size mem bs (some t) = total (sizes (encode ops mem bs t))

  -- For a pointer it is the size of what it points at.
  abbrev pub pointed_at : GoType → GoType
  pointed_at (pointer t) = t
  pointed_at t = t

  unfoldable pub decode_size : W → ℕ → Option GoType → Option ℕ
  unfolding decode size_of
  decode_size w bs none = some bs
  decode_size w bs (some t) = total (sizes (decode ops w bs (pointed_at t)))

  -- Both directions compute the sizes from those of the parts in the same way.
  module _ (mem : Memory) (w : W) (bs : ℕ) where
    abbrev pub Agree : Encode.Coder ops mem → Decode.Decoder ops w → Type 0
    Agree c d = sizes c ≡ sizes d

    array_of-Agree :
        (n : ℕ) (c : Encode.Coder ops mem) (d : Decode.Decoder ops w)
        → Agree c d
        → Agree (Encode.array_of ops mem n c) (Decode.array_of ops w n d)
    array_of-Agree n none none e = refl
    array_of-Agree n none (some d) e = ground arith
    array_of-Agree n (some c) none e = ground arith
    array_of-Agree n (some (h, a)) (some (k, b)) e = ground arith

    slice_of-Agree :
        (c : Encode.Coder ops mem) (d : Decode.Decoder ops w)
        → Agree c d
        → Agree (Encode.slice_of ops mem bs c) (Decode.slice_of ops w bs d)
    slice_of-Agree none none e = refl
    slice_of-Agree none (some d) e = ground arith
    slice_of-Agree (some c) none e = ground arith
    slice_of-Agree (some (h, a)) (some (k, b)) e = refl

    pointer_to-Agree :
        (n : ℕ) (c : Encode.Coder ops mem) (d : Decode.Decoder ops w)
        → Agree c d
        → Agree (Encode.pointer_to ops mem bs c) (Decode.pointer_to ops w bs n d)
    pointer_to-Agree n none none e = refl
    pointer_to-Agree n none (some d) e = ground arith
    pointer_to-Agree n (some c) none e = ground arith
    pointer_to-Agree n (some (h, a)) (some (k, b)) e = refl

    field_align-Agree :
        (off : ℕ) (c : Encode.Coder ops mem) (d : Decode.Decoder ops w)
        → Agree c d
        → Agree (Encode.field_align ops mem off c) (Decode.field_align ops w off d)
    field_align-Agree off none none e = refl
    field_align-Agree off none (some d) e = ground arith
    field_align-Agree off (some c) none e = ground arith
    field_align-Agree off (some (h, [])) (some (k, [])) e = refl
    field_align-Agree off (some (h, [])) (some (k, b ∷ bs)) e = ground arith
    field_align-Agree off (some (h, a ∷ as')) (some (k, [])) e = ground arith
    field_align-Agree off (some (h, a ∷ as')) (some (k, b ∷ bs)) e = ground arith

    struct_end-Agree :
        (c : Encode.Coder ops mem) (d : Decode.Decoder ops w)
        → Agree c d
        → Agree (Encode.struct_end ops mem c) (Decode.struct_end ops w d)
    struct_end-Agree none none e = refl
    struct_end-Agree none (some d) e = ground arith
    struct_end-Agree (some c) none e = ground arith
    struct_end-Agree (some (h, a)) (some (k, b)) e = ground arith

    before-Agree :
        (off : ℕ) (h : Encode.Handler ops mem) (k : Decode.Handler ops w) (c : Encode.Coder ops mem)
        (d : Decode.Decoder ops w)
        → Agree c d
        → Agree (Encode.before ops mem off h c) (Decode.before ops w off k d)
    before-Agree off h k none none e = refl
    before-Agree off h k none (some d) e = ground arith
    before-Agree off h k (some c) none e = ground arith
    before-Agree off h k (some (h', a)) (some (k', b)) e = ground arith

    field_then-Agree :
        (off : ℕ) (size : List ℕ) (c : Encode.Coder ops mem) (d : Decode.Decoder ops w)
        (more : List ℕ → Encode.Coder ops mem) (more' : List ℕ → Decode.Decoder ops w)
        → Agree c d
        → ((size' : List ℕ) → Agree (more size') (more' size'))
        → Agree
            (Encode.field_then ops mem off size c more)
            (Decode.field_then ops w off size d more')
    field_then-Agree off size none none more more' e rest = refl
    field_then-Agree off size none (some d) more more' e rest = ground arith
    field_then-Agree off size (some c) none more more' e rest = ground arith
    field_then-Agree off size (some (h, a)) (some (k, b)) more more' e rest =
        let q : a ≡ b = ground arith in
        before-Agree off h k (more (size ++ a)) (more' (size ++ b))
          (rest (size ++ a) ∙ ap (λ l. sizes (more' (size ++ l))) q)

    struct_of-Agree :
        (n : ℕ) (r : Option (List ℕ × ℕ)) (c : Encode.Coder ops mem) (d : Decode.Decoder ops w)
        → Agree c d
        → Agree (Encode.struct_of ops mem n r c) (Decode.struct_of ops w n r d)
    struct_of-Agree n none c d e = struct_end-Agree c d e
    struct_of-Agree n (some (size, off)) c d e = refl

    mutual
      unfolding encode decode

      pub encode-Agree : (t : GoType) → Agree (encode ops mem bs t) (decode ops w bs t)
      encode-Agree (fixed n) = refl
      encode-Agree float32 = refl
      encode-Agree float64 = refl
      encode-Agree word = refl
      encode-Agree (array n t) = elim (Bool-cases (check_custom bs t)) [
        | inl custom ↦ rw custom (array_of-Agree n _ _ (encode-Agree t))
        | inr flat ↦ rw flat refl
      ]
      encode-Agree (pointer t) = pointer_to-Agree _ _ _ (encode-Agree t)
      encode-Agree (slice t) = elim (Bool-cases (check_custom bs t)) [
        | inl custom ↦ rw custom (slice_of-Agree _ _ (encode-Agree t))
        | inr flat ↦ rw flat refl
      ]
      encode-Agree string = refl
      encode-Agree (struct size fs) = struct_of-Agree size _ _ _ (encode_fields-Agree fs [])
      encode-Agree other = refl

      encode_fields-Agree :
          (fs : Fields) (size : List ℕ)
          → Agree (encode_fields ops mem bs fs size) (decode_fields ops w bs fs size)
      encode_fields-Agree end size = refl
      encode_fields-Agree (field true off t fs) size = encode_fields-Agree fs size
      encode_fields-Agree (field false off t fs) size =
          field_then-Agree off size _ _ _ _ (field_align-Agree (size_of size) _ _ (encode-Agree t))
            (λ size'. encode_fields-Agree fs size')

    -- What a type takes on a stream is the same in both directions, and both panic for the same types:
    -- the size to encode a value with is the size to decode it with, through a pointer to the value.
    pub encode_size-eq-decode_size :
        (t : GoType) → encode_size mem bs (some t) ≡ decode_size w bs (some (pointer t))
    unfolding encode_size decode_size
    encode_size-eq-decode_size t = ap total (encode-Agree t)
