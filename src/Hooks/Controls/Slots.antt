-- ===== src/Hooks/Controls/Slots.antt =====
-- The slots of one region of control addresses of internal/debugger/hook.go.
use microdbg.Base.{
  ℕ, zero, suc, ◌+◌, ◌*◌, ◌≤◌, ◌<◌, ◌≡◌, refl, ap, ◌∙◌, Bool, true, ◌&&◌, List, [], ◌∷◌, ◌++◌, ltb,
  ◌==◌, if◌then◌else◌, length, arith,
}
use native.Mathlib.Nat.{mul-suc}
use microdbg.Word.{add64}
use microdbg.Hooks.Controls.{Slot, slots}

-- The number of times a slot stands in a list.
abbrev pub same : Slot → Slot → Bool
same (a, b) (c, d) = a == c && b == d

abbrev pub times : Slot → List Slot → ℕ
times s [] = 0
times s (x ∷ xs) = (if same x s then 1 else 0) + times s xs

pub times-append : (s : Slot) (xs ys : List Slot) → times s (xs ++ ys) ≡ times s xs + times s ys
times-append s [] ys = omega arith
times-append s (x ∷ xs) ys = omega (arith, times-append s xs ys)

-- The slots of size `size` in a row.
abbrev pub Row : ℕ → ℕ → ℕ → List Slot → Type 0
Row zero addr size [] = Unit {0}
Row zero addr size (s ∷ ss) = ⊥
Row (suc count) addr size [] = ⊥
Row (suc count) addr size (s ∷ ss) =
    (s.0 ≡ addr) × (s.1 ≡ addr + size) × Row count (addr + size) size ss

module _ (size : ℕ) (pos : 0 < size) where
  split_lem :
      (count addr end : ℕ) → end ≡ addr + size * suc count → end ≡ addr + size + size * count
  split_lem count addr end e = e ∙ omega (arith, mul-suc size count)

  -- The loop fills the region: slots without gap or overlap from the start on, as many as fit.
  pub slots-Row :
      (count addr end : ℕ)
      → end ≡ addr + size * count
      → end < 18446744073709551616
      → Row count addr size (slots count addr end size)
  unfolding slots
  slots-Row zero addr end e fits = tt
  slots-Row (suc count) addr end e fits =
      let e' = split_lem count addr end e in
      let more : ltb addr end ≡ true = ground arith in
      let up : add64 addr size ≡ addr + size = omega arith in
      rw (more, up) (refl, refl, slots-Row count (addr + size) end e' fits)

  pub Row-length : (count addr : ℕ) (ss : List Slot) → Row count addr size ss → length ss ≡ count
  Row-length zero addr [] r = refl
  Row-length zero addr (s ∷ ss) r = absurd r
  Row-length (suc count) addr [] r = absurd r
  Row-length (suc count) addr (s ∷ ss) r = ap suc (Row-length count (addr + size) ss r.2)

  -- No slot starts below the first, and different slots start at different addresses.
  pub Row-above :
      (count addr : ℕ) (ss : List Slot) (x : Slot)
      → Row count addr size ss
      → x.0 < addr
      → times x ss ≡ 0
  Row-above zero addr [] x r h = refl
  Row-above zero addr (s ∷ ss) x r h = absurd r
  Row-above (suc count) addr [] x r h = refl
  Row-above (suc count) addr (s ∷ ss) x r h =
      ground (arith, r.0, Row-above count (addr + size) ss x r.2)

  pub Row-once :
      (count addr : ℕ) (ss : List Slot) (x : Slot) → Row count addr size ss → times x ss ≤ 1
  Row-once zero addr [] x r = omega arith
  Row-once zero addr (s ∷ ss) x r = absurd r
  Row-once (suc count) addr [] x r = omega arith
  Row-once (suc count) addr (s ∷ ss) x r =
      ground
        (arith, r.0, Row-once count (addr + size) ss x r.2, Row-above count (addr + size) ss x r.2)

  -- No slot starts at the end of the row or above it.
  pub Row-beyond :
      (count addr end : ℕ) (ss : List Slot) (x : Slot)
      → Row count addr size ss
      → end ≡ addr + size * count
      → end ≤ x.0
      → times x ss ≡ 0
  Row-beyond zero addr end [] x r e h = refl
  Row-beyond zero addr end (s ∷ ss) x r e h = absurd r
  Row-beyond (suc count) addr end [] x r e h = refl
  Row-beyond (suc count) addr end (s ∷ ss) x r e h =
      let e' = split_lem count addr end e in
      ground (arith, r.0, e', Row-beyond count (addr + size) end ss x r.2 e' h)

  -- A slot of the row ends where the next one starts.
  pub Row-width :
      (count addr : ℕ) (ss : List Slot) (x : Slot)
      → Row count addr size ss
      → 0 < times x ss
      → x.1 ≡ x.0 + size
  Row-width zero addr [] x r h = absurd (omega arith)
  Row-width zero addr (s ∷ ss) x r h = absurd r
  Row-width (suc count) addr [] x r h = absurd r
  Row-width (suc count) addr (s ∷ ss) x r h =
      ground (arith, r.0, r.1, Row-width count (addr + size) ss x r.2)
