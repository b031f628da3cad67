-- ===== src/Word/Little.antt =====
-- The bytes of an unsigned integer in memory, the lowest first, as `ToPtrRaw` of
-- internal/debugger/pointer.go shows them.
use native.Mathlib.Nat.{mod-lt, div-add-mod, add-mul-mod_self_left, mod-eq_of_lt, pow-succ'}
use microdbg.Base.{
  ℕ, zero, suc, ◌+◌, ◌*◌, ◌/◌, ◌%◌, ◌^◌, ◌<◌, ◌≤◌, ◌≡◌, refl, ap, ◌∙◌, List, [], ◌∷◌, ◌++◌, length,
  take, arith,
}

unfoldable pub le_bytes : ℕ → ℕ → List ℕ
le_bytes zero v = []
le_bytes (suc n) v = v % 256 ∷ le_bytes n (v / 256)

unfoldable pub from_bytes : List ℕ → ℕ
from_bytes [] = 0
from_bytes (b ∷ bs) = b + 256 * from_bytes bs

-- Every number is a byte.
abbrev pub AllBytes : List ℕ → Type 0
AllBytes [] = Unit {0}
AllBytes (b ∷ bs) = (b < 256) × AllBytes bs

pub length-le_bytes : (n v : ℕ) → length (le_bytes n v) ≡ n
unfolding le_bytes
length-le_bytes zero v = refl
length-le_bytes (suc n) v = ap suc (length-le_bytes n (v / 256))

-- A word that holds some bytes from its start on shows them.
pub le_bytes-from_bytes : (bs : List ℕ) → AllBytes bs → le_bytes (length bs) (from_bytes bs) ≡ bs
unfolding le_bytes from_bytes
le_bytes-from_bytes [] h = refl
le_bytes-from_bytes (b ∷ bs) h = rw (low, high, le_bytes-from_bytes bs h.1) refl
  where
    low : (b + 256 * from_bytes bs) % 256 ≡ b
    low = omega arith

    high : (b + 256 * from_bytes bs) / 256 ≡ from_bytes bs
    high = omega arith

pub AllBytes-le_bytes : (n v : ℕ) → AllBytes (le_bytes n v)
unfolding le_bytes
AllBytes-le_bytes zero v = tt
AllBytes-le_bytes (suc n) v = (omega arith, AllBytes-le_bytes n (v / 256))

pub AllBytes-append : (xs ys : List ℕ) → AllBytes xs → AllBytes ys → AllBytes (xs ++ ys)
AllBytes-append [] ys hx hy = hy
AllBytes-append (x ∷ xs) ys hx hy = (hx.0, AllBytes-append xs ys hx.1 hy)

mod_split : (x f m : ℕ) → x < 256 → 0 < m → (x + 256 * f) % (256 * m) ≡ x + 256 * (f % m)
mod_split x f m small pos =
    ap (λ n. n % (256 * m)) whole
    ∙ add-mul-mod_self_left (x + 256 * (f % m)) (256 * m) (f / m)
    ∙ mod-eq_of_lt (omega (arith, mod-lt f pos))
  where
    whole : x + 256 * f ≡ x + 256 * (f % m) + 256 * m * (f / m)
    whole = grind (arith, div-add-mod f m)

pow_pos : (q : ℕ) → 0 < 256 ^ q
pow_pos zero = omega arith
pow_pos (suc q) = omega (arith, pow_pos q, pow-succ' 256 q)

-- The low bytes of a word keep the bytes that were stored from its start on, if its register has room
-- for them.
pub take-le_bytes :
    (w q : ℕ) (b r : List ℕ)
    → AllBytes b
    → length b ≤ w
    → length b ≤ q
    → take (length b) (le_bytes w (from_bytes (b ++ r) % 256 ^ q)) ≡ b
unfolding le_bytes from_bytes
take-le_bytes w q [] r h fits room = refl
take-le_bytes zero q (x ∷ b) r h fits room = absurd (omega arith)
take-le_bytes (suc w) zero (x ∷ b) r h fits room = absurd (omega arith)
take-le_bytes (suc w) (suc q) (x ∷ b) r h fits room =
    let e = mod_split x (from_bytes (b ++ r)) (256 ^ q) h.0 (pow_pos q) in
    let low : (x + 256 * (from_bytes (b ++ r) % 256 ^ q)) % 256 ≡ x = omega (arith, h.0) in
    let high : (x + 256 * (from_bytes (b ++ r) % 256 ^ q)) / 256 ≡ from_bytes (b ++ r) % 256 ^ q =
      omega (arith, h.0) in
    rw (pow-succ' 256 q, e, low, high)
      (ap (λ l. x ∷ l) (take-le_bytes w q b r h.1 (omega arith) (omega arith)))
