-- ===== src/Word.antt =====
-- uint64 arithmetic as the Go code writes it, and `Align` of debugger/align.go.
mod Bits
pub mod Align
pub mod Little
use microdbg.Base.{ℕ, zero, suc, ◌+◌, ◌-◌, ◌*◌, ◌/◌, ◌%◌, ◌^◌, ◌==◌, if◌then◌else◌}

abbrev pub u64_mod : ℕ
u64_mod = 2 ^ 64

-- uint64 a + b and a - b. `-` on ℕ is truncated, so the modulus is added first.
abbrev pub add64 : ℕ → ℕ → ℕ
add64 a b = (a + b) % u64_mod

abbrev pub sub64 : ℕ → ℕ → ℕ
sub64 a b = (a + u64_mod - b) % u64_mod

-- a &^ b on words of `w` bits, from the lowest bit on: a bit of `a` stays where `b` has none.
pub clear_bits : ℕ → ℕ → ℕ → ℕ
clear_bits zero a b = 0
clear_bits (suc w) a b = (if b % 2 == 0 then a % 2 else 0) + 2 * clear_bits w (a / 2) (b / 2)

pub and_not : ℕ → ℕ → ℕ
unfolding clear_bits
and_not a b = clear_bits 64 a b

unfoldable pub align : ℕ → ℕ → ℕ
unfolding and_not
align a b = and_not (sub64 (add64 a b) 1) (sub64 b 1)
