-- ===== src/Word/Bits.antt =====
-- A mask of ones clears the remainder by a power of two. It models no code by itself; `Align` rests
-- on it.
use native.Mathlib.Nat.{div-div-eq-div-mul, div-eq_of_lt, pow-succ'}
use microdbg.Base.{ℕ, zero, suc, ◌-◌, ◌*◌, ◌/◌, ◌%◌, ◌^◌, ◌<◌, ap, ◌≡◌, false, ◌==◌, arith}
use microdbg.Word.{clear_bits}

double_pow : (k : ℕ) → 2 ^ suc k ≡ 2 * 2 ^ k
double_pow k = pow-succ' 2 k

pub two_pow_pos : (k : ℕ) → 0 < 2 ^ k
two_pow_pos zero = omega arith
two_pow_pos (suc k) = omega (arith, double_pow k, two_pow_pos k)

clear_bits-zero : (w a : ℕ) → a < 2 ^ w → clear_bits w a 0 ≡ a
unfolding clear_bits
clear_bits-zero zero a h = omega arith
clear_bits-zero (suc w) a h = omega (arith, clear_bits-zero w (a / 2) (omega (arith, double_pow w)))

-- The word without its lowest `k` bits, from its half without one bit less.
halve : (a k : ℕ) → 2 * (a / 2 / 2 ^ k * 2 ^ k) ≡ a / 2 ^ suc k * 2 ^ suc k
halve a k = rw (double_pow k) (omega (arith, ap (λ n. n * 2 ^ k) (div-div-eq-div-mul a 2 (2 ^ k))))

pub clear_bits-mask : (w k a : ℕ) → a < 2 ^ w → clear_bits w a (2 ^ k - 1) ≡ a / 2 ^ k * 2 ^ k
unfolding clear_bits
clear_bits-mask zero k a h = rw small (omega arith)
  where
    small : a / 2 ^ k ≡ 0
    small = div-eq_of_lt (omega (arith, two_pow_pos k))
clear_bits-mask (suc w) zero a h =
    omega (arith, clear_bits-zero w (a / 2) (omega (arith, double_pow w)))
clear_bits-mask (suc w) (suc k) a h =
    rw (odd, half, clear_bits-mask w k (a / 2) (omega (arith, double_pow w)))
      (omega (arith, halve a k))
  where
    odd : ((2 ^ suc k - 1) % 2 == 0) ≡ false
    odd = ground (arith, double_pow k, two_pow_pos k)

    half : (2 ^ suc k - 1) / 2 ≡ 2 ^ k - 1
    half = omega (arith, double_pow k, two_pow_pos k)
