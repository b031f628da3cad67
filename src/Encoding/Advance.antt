-- ===== src/Encoding/Advance.antt =====
-- How far the encoder of encoding/encode.go moves a stream.
pub mod Types
pub mod Pointers
pub mod Values
use microdbg.Base.{
  ℕ, zero, suc, ◌+◌, ◌-◌, ◌*◌, ◌%◌, ◌≤◌, ◌≡◌, refl, ap, sym, ◌∙◌, min, Bool, true, false, Option,
  none, some, List, [], ◌∷◌, ◌++◌, ltb, leb, ◌==◌, if◌then◌else◌, length, replicate,
  length-replicate, Bool-cases, inl, inr, arith,
}
use microdbg.Word.{add64, sub64, align, u64_mod}
use microdbg.Word.Little.{from_bytes}
use microdbg.Errors.{Error, Result, ok, err, panic}
use microdbg.Streams.Interface.{StreamOps}
use microdbg.Encoding.{
  GoType, fixed, float32, float64, word, array, pointer, slice, string, struct, other, Fields, end,
  field, go_size, check_custom, size_of, raw_fields, repeat_size, end_pad, with_pad, positive,
}
use microdbg.Encoding.Memory.{Memory, load, byte_then}
use microdbg.Encoding.Encode as Encode
use microdbg.Encoding.Encode.{encode, encode_fields, repeat}

-- A position on the stream, which each operation that succeeds moves on as far as it says. The stream
-- keeps its block size.
pub record Moving {W : Type 0} (ops : StreamOps W) (bs : ℕ) : Type 0 where
  pub position : ops.Str → ℕ
  pub moved_by_skip :
      (n : ℕ) (s : ops.Str)
      → ops.block_size s ≡ bs
      → (position (ops.skip n s) ≡ add64 (position s) n) × (ops.block_size (ops.skip n s) ≡ bs)
  pub moved_by_write :
      (b : List ℕ) (s s' : ops.Str) (w w' : W)
      → ops.block_size s ≡ bs
      → ops.write b s w ≡ (ok tt, s', w')
      → (position s' ≡ add64 (position s) (length b)) × (ops.block_size s' ≡ bs)
  pub moved_by_float :
      (f : ℕ) (s s' : ops.Str) (w w' : W)
      → ops.block_size s ≡ bs
      → ops.write_float f s w ≡ (ok tt, s', w')
      → (position s' ≡ add64 (position s) 4) × (ops.block_size s' ≡ bs)
  pub moved_by_double :
      (d : ℕ) (s s' : ops.Str) (w w' : W)
      → ops.block_size s ≡ bs
      → ops.write_double d s w ≡ (ok tt, s', w')
      → (position s' ≡ add64 (position s) 8) × (ops.block_size s' ≡ bs)
  pub moved_by_stream :
      (n : ℕ) (s s' sub : ops.Str) (w w' : W)
      → ops.block_size s ≡ bs
      → ops.write_stream n s w ≡ (ok sub, s', w')
      → (position s' ≡ add64 (position s) bs) × (ops.block_size s' ≡ bs)

-- No string stands in the block of the value itself; behind a pointer or in a slice it may.
abbrev mutual
  pub NoText : GoType → Type 0
  NoText string = ⊥
  NoText (array n t) = NoText t
  NoText (struct size fs) = NoTexts fs
  NoText (fixed n) = Unit {0}
  NoText float32 = Unit {0}
  NoText float64 = Unit {0}
  NoText word = Unit {0}
  NoText (pointer t) = Unit {0}
  NoText (slice t) = Unit {0}
  NoText other = Unit {0}

  pub NoTexts : Fields → Type 0
  NoTexts end = Unit {0}
  NoTexts (field ignored off t fs) = NoText t × NoTexts fs

byte_then-some :
    (b : Option ℕ) (rest : Option (List ℕ)) (n : ℕ) (bytes : List ℕ)
    → ((bs : List ℕ) → rest ≡ some bs → length bs ≡ n)
    → byte_then b rest ≡ some bytes
    → length bytes ≡ suc n
byte_then-some none rest n bytes ih e = ground arith
byte_then-some (some b) none n bytes ih e = ground arith
byte_then-some (some b) (some bs) n bytes ih e = ground (arith, ih bs refl)

pub length-load :
    (mem : Memory) (n p : ℕ) (bytes : List ℕ) → load mem p n ≡ some bytes → length bytes ≡ n
unfolding load
length-load mem zero p bytes e = ground arith
length-load mem (suc n) p bytes e =
    byte_then-some (mem p) (load mem (suc p) n) n bytes (length-load mem n (suc p)) e

pub size_of-append : (xs ys : List ℕ) → size_of (xs ++ ys) ≡ size_of xs + size_of ys
unfolding size_of
size_of-append [] ys = omega arith
size_of-append (x ∷ xs) ys = omega (arith, size_of-append xs ys)

module _ {W : Type 0} (ops : StreamOps W) (mem : Memory) (bs : ℕ) (laws : Moving ops bs) where
  open ops use {Str, block_size}
  open laws use {position}

  -- From one stream to the next, modulo the size of the address space.
  abbrev pub Moves : Str → Str → ℕ → Type 0
  Moves s s' n =
      (position s' % 18446744073709551616 ≡ (position s + n) % 18446744073709551616)
      × (block_size s' ≡ bs)

  abbrev pub Advances : Encode.Handler ops mem → ℕ → Type 0
  Advances h n =
      (s s' : Str) (p : ℕ) (w w' : W) → block_size s ≡ bs → h s p w ≡ (ok tt, s', w') → Moves s s' n

  abbrev pub CoderAdvances : Encode.Coder ops mem → Type 0
  CoderAdvances none = Unit {0}
  CoderAdvances (some (h, size)) = Advances h (size_of size)

  -- Beside the size that was there before.
  abbrev pub FieldsAdvance : ℕ → Encode.Coder ops mem → Type 0
  FieldsAdvance from none = Unit {0}
  FieldsAdvance from (some (h, size)) = (d : ℕ) × (size_of size ≡ from + d) × Advances h d

  pub andthen-eq-ok :
      (d : Encode.Did ops mem) (k : Str → W → Encode.Did ops mem) (s' : Str) (w' : W)
      → Encode.andthen ops mem d k ≡ (ok tt, s', w')
      → (s1 : Str) × (w1 : W) × (d ≡ (ok tt, s1, w1)) × (k s1 w1 ≡ (ok tt, s', w'))
  andthen-eq-ok (ok u, s, w) k s' w' e = (s, w, refl, e)
  andthen-eq-ok (err x, s, w) k s' w' e = ground arith
  andthen-eq-ok (panic, s, w) k s' w' e = ground arith

  pub loaded-eq-ok :
      (s : Str) (w : W) (o : Option (List ℕ)) (k : List ℕ → Encode.Did ops mem) (s' : Str) (w' : W)
      → Encode.loaded ops mem s w o k ≡ (ok tt, s', w')
      → (bytes : List ℕ) × (o ≡ some bytes) × (k bytes ≡ (ok tt, s', w'))
  loaded-eq-ok s w none k s' w' e = ground arith
  loaded-eq-ok s w (some bytes) k s' w' e = (bytes, refl, e)

  pub in_block-Moves :
      (n : ℕ) (s : Str) (w : W) (k : Str → W → Encode.Did ops mem) (s' : Str) (w' : W)
      → block_size s ≡ bs
      → Encode.in_block ops mem (ops.write_stream n s w) k ≡ (ok tt, s', w')
      → Moves s s' bs
  in_block-Moves n s w k s' w' b e = opened (ops.write_stream n s w) refl e
    where
      opened :
          (r : Result Str × Str × W)
          → r ≡ ops.write_stream n s w
          → Encode.in_block ops mem r k ≡ (ok tt, s', w')
          → Moves s s' bs
      opened (ok sub, t, v) r q = ended (k sub v) q
        where
          ended :
              (d : Encode.Did ops mem)
              → Encode.back_to ops mem t d ≡ (ok tt, s', w')
              → Moves s s' bs
          ended (x, y, z) p =
              let same : t ≡ s' = ap (λ (u : Encode.Did ops mem). u.1) p in
              omega (
                arith,
                laws.moved_by_stream n s t sub w v b (sym r),
                ap position same,
                ap block_size same,
              )
      opened (err x, t, v) r q = ground arith
      opened (panic, t, v) r q = ground arith

  pub raw-Advances : (n : ℕ) → Advances (Encode.raw ops mem n) n
  raw-Advances n s s' p w w' b e =
      let (bytes, some', e') = loaded-eq-ok s w (load mem p n) _ s' w' e in
      omega (arith, laws.moved_by_write bytes s s' w w' b e', length-load mem n p bytes some')

  pub zeros-Moves :
      (t s' : Str) (v w' : W)
      → ltb 8 bs ≡ true
      → block_size t ≡ bs
      → Encode.write_null ops mem (bs - 8) t v ≡ (ok tt, s', w')
      → Moves t s' (bs - 8)
  zeros-Moves t s' v w' more b e = elim (Bool-cases (leb (bs - 8) 8)) [
    | inl fits ↦
        let q : ops.write (replicate (bs - 8) 0) t v ≡ (ok tt, s', w') = ground arith in
        omega (
          arith,
          laws.moved_by_write (replicate (bs - 8) 0) t s' v w' b q,
          length-replicate {A = ℕ} (bs - 8) 0,
        )
    | inr not' ↦ absurd (ground arith)
  ]

  pub padded-Advances : Advances (Encode.padded ops mem bs) bs
  padded-Advances s s' p w w' b e =
      let (t, v, first, then') = andthen-eq-ok (Encode.raw ops mem (min 8 bs) s p w) _ s' w' e in
      let far : Moves s t (min 8 bs) = raw-Advances (min 8 bs) s t p w v b first in
      elim (Bool-cases (ltb 8 bs)) [
        | inl more ↦
            let q : Encode.write_null ops mem (bs - 8) t v ≡ (ok tt, s', w') = ground arith in
            ground (arith, zeros-Moves t s' v w' more far.1 q)
        | inr all ↦ let q : t ≡ s' = ground arith in ground (arith, ap position q, ap block_size q)
      ]

  pub repeat-Advances :
      (n stride k : ℕ) (h : Encode.Handler ops mem)
      → Advances h k
      → Advances (repeat ops mem n stride h) (n * k)
  unfolding repeat
  repeat-Advances zero stride k h a s s' p w w' b e =
      let q : s ≡ s' = ground arith in omega (arith, ap position q, ap block_size q)
  repeat-Advances (suc n) stride k h a s s' p w w' b e =
      let (t, v, first, then') = andthen-eq-ok (h s p w) _ s' w' e in
      let near : Moves s t k = a s t p w v b first in
      let far : Moves t s' (n * k) =
        repeat-Advances n stride k h a t s' (p + stride) v w' near.1 then' in
      (grind (arith, near.0, far.0), far.1)
