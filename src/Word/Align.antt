-- ===== src/Word/Align.antt =====
-- What `Align` of debugger/align.go computes when its second argument is a power of two.
use native.Mathlib.Nat.{mod-lt, div-add-mod, mul-mod_left}
use microdbg.Base.{ℕ, ◌+◌, ◌-◌, ◌*◌, ◌/◌, ◌%◌, ◌^◌, ◌≤◌, ◌<◌, ◌≡◌, arith}
use microdbg.Word.{u64_mod, add64, sub64, and_not, align}
use microdbg.Word.Bits.{clear_bits-mask, two_pow_pos}

pred_sum : (a b : ℕ) → 0 < b → a + b ≤ u64_mod → sub64 (add64 a b) 1 ≡ a + b - 1
pred_sum a b pos fits = omega arith

pred_mask : (b : ℕ) → 0 < b → b ≤ u64_mod → sub64 b 1 ≡ b - 1
pred_mask b pos fits = omega arith

and_not-mask : (a k : ℕ) → a < u64_mod → and_not a (2 ^ k - 1) ≡ a / 2 ^ k * 2 ^ k
unfolding and_not
and_not-mask a k h = clear_bits-mask 64 k a h

-- With no overflow the mask rounds down to a multiple of the power.
pub align-eq : (a k : ℕ) → a + 2 ^ k ≤ u64_mod → align a (2 ^ k) ≡ (a + 2 ^ k - 1) / 2 ^ k * 2 ^ k
unfolding align
align-eq a k fits =
    rw (pred_sum a (2 ^ k) (two_pow_pos k) fits, pred_mask (2 ^ k) (two_pow_pos k) (omega arith))
      (and_not-mask (a + 2 ^ k - 1) k (omega (arith, two_pow_pos k)))

-- Rounded up to a power of two with no overflow, a number becomes the least multiple of the power
-- that is not below it: a multiple, at least the number, and less than one power above it.
pub align_rounds_up :
    (a k : ℕ)
    → a + 2 ^ k ≤ u64_mod
    → (align a (2 ^ k) % 2 ^ k ≡ 0) × (a ≤ align a (2 ^ k)) × (align a (2 ^ k) < a + 2 ^ k)
align_rounds_up a k fits =
    let e = align-eq a k fits in
    let pos = two_pow_pos k in
    let whole = div-add-mod (a + 2 ^ k - 1) (2 ^ k) in
    let small = mod-lt (a + 2 ^ k - 1) pos in
    (
      rw e (mul-mod_left ((a + 2 ^ k - 1) / 2 ^ k) (2 ^ k)),
      omega (arith, e, whole, small),
      omega (arith, e, whole, small),
    )
