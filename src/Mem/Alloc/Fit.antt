-- ===== src/Mem/Alloc/Fit.antt =====
-- First fit in the free list of internal/debugger/mem.go: what it takes and what it leaves.
use microdbg.Base.{
  ℕ, ◌+◌, ◌-◌, ◌≤◌, ◌<◌, ◌≡◌, refl, ◌&&◌, ◌||◌, not, Bool, false, Option, none, some, List, [], ◌∷◌,
  arith, leb, leb→le, inl, inr, Bool-cases, ◌==◌, if◌then◌else◌,
}
use microdbg.Mem.RegionMap.{within}
use microdbg.Mem.Blocks.Chain.{Item, whole}
use microdbg.Mem.Alloc.Scan.{IsFalling, first_fit}

-- Does a block of the list hold the address?
abbrev pub holds : List Item → ℕ → Bool
holds [] x = false
holds ((p, a, s) ∷ r) x = within a s x || holds r x

-- The blocks before a position, from the nearest up: not empty, apart, and between `lo` and `hi`.
abbrev pub IsRising : ℕ → ℕ → List Item → Type 0
IsRising lo hi [] = lo ≤ hi
IsRising lo hi ((p, a, s) ∷ r) = (lo ≤ a) × (0 < s) × IsRising (a + s) hi r

pub IsRising-mono :
    (l lo hi : ℕ) (back : List Item) → l ≤ lo → IsRising lo hi back → IsRising l hi back
IsRising-mono l lo hi [] h r = omega arith
IsRising-mono l lo hi ((p, a, s) ∷ back) h r = (omega arith, r.1, r.2)

pub IsFalling-mono :
    (hi top : ℕ) (post : List Item) → hi ≤ top → IsFalling hi post → IsFalling top post
IsFalling-mono hi top [] h f = tt
IsFalling-mono hi top ((p, a, s) ∷ post) h f = (omega arith, f.1, f.2)

pub IsRising-le : (lo hi : ℕ) (back : List Item) → IsRising lo hi back → lo ≤ hi
IsRising-le lo hi [] r = r
IsRising-le lo hi ((p, a, s) ∷ back) r = omega (arith, IsRising-le (a + s) hi back r.2)

pub whole-IsFalling :
    (lo hi : ℕ) (back post : List Item)
    → IsRising lo hi back
    → IsFalling lo post
    → IsFalling hi (whole back post)
whole-IsFalling lo hi [] post r f = IsFalling-mono lo hi post r f
whole-IsFalling lo hi ((p, a, s) ∷ back) post r f =
    whole-IsFalling (a + s) hi back ((p, a, s) ∷ post) r.2
      (omega arith, r.1, IsFalling-mono lo a post r.0 f)

pub holds-whole :
    (x : ℕ) (back post : List Item) → holds (whole back post) x ≡ holds back x || holds post x
holds-whole x [] post = refl
holds-whole x ((p, a, s) ∷ back) post = ground (arith, holds-whole x back ((p, a, s) ∷ post))

-- An address below the blocks before a position, or above those after it, is in none of them.
pub holds_low :
    (x lo hi : ℕ) (back : List Item) → IsRising lo hi back → x < lo → holds back x ≡ false
holds_low x lo hi [] r h = refl
holds_low x lo hi ((p, a, s) ∷ back) r h = ground (arith, holds_low x (a + s) hi back r.2)

pub holds_high : (x hi : ℕ) (post : List Item) → IsFalling hi post → hi ≤ x → holds post x ≡ false
holds_high x hi [] f h = refl
holds_high x hi ((p, a, s) ∷ post) f h = ground (arith, holds_high x a post f.2)

abbrev pub AllSmaller : ℕ → List Item → Type 0
AllSmaller size [] = Unit {0}
AllSmaller size ((p, a, s) ∷ r) = (s < size) × AllSmaller size r

-- With no fit every block is too small; else the region that is taken was free, and is the whole
-- difference.
abbrev pub Fits : ℕ → ℕ → List Item → List Item → ℕ → Option (ℕ × List Item) → Type 0
Fits size hi back post x none = AllSmaller size post
Fits size hi back post x (some (addr, items)) =
    (addr + size ≤ hi)
    × IsFalling hi items
    × (holds items x ≡ (holds back x || holds post x) && not (within addr size x))
    × (within addr size x && not (holds post x) ≡ false)

module _ (size hi mid x p a s : ℕ) (back post : List Item) where
  Fits-shift :
      (r : Option (ℕ × List Item))
      → s < size
      → a + s ≤ hi
      → Fits size hi ((p, a, s) ∷ back) post x r
      → Fits size hi back ((p, a, s) ∷ post) x r
  Fits-shift none h le f = (h, f)
  Fits-shift (some (addr, items)) h le f = (f.0, f.1, ground (arith, f.2), ground (arith, f.3))

  -- The block is used up, or keeps its end.
  Fits-here :
      0 < size
      → size ≤ s
      → IsRising mid hi back
      → IsFalling mid ((p, a, s) ∷ post)
      → Fits size hi back ((p, a, s) ∷ post) x (
          some
            (a, if s == size then whole back post else whole back ((p, a + size, s - size) ∷ post)))
  Fits-here pos fits r f = elim (Bool-cases (s == size)) [
    | inl e ↦ rw e (
      omega (arith, IsRising-le mid hi back r),
      whole-IsFalling mid hi back post r (IsFalling-mono a mid post (omega arith) f.2),
      ground (arith, low, high, holds-whole x back post),
      ground arith,
    )
    | inr ne ↦ rw ne (
      omega (arith, IsRising-le mid hi back r),
      whole-IsFalling mid hi back ((p, a + size, s - size) ∷ post) r
          (omega arith, ground arith, IsFalling-mono a (a + size) post (omega arith) f.2),
      ground (arith, low, high, holds-whole x back ((p, a + size, s - size) ∷ post)),
      ground arith,
    )
  ]
    where
      low : x < mid → holds back x ≡ false
      low h = holds_low x mid hi back r h

      high : a ≤ x → holds post x ≡ false
      high h = holds_high x a post f.2 h

pub first_fit-Fits :
    (size hi mid x : ℕ) (back post : List Item)
    → 0 < size
    → IsRising mid hi back
    → IsFalling mid post
    → Fits size hi back post x (first_fit size back post)
unfolding first_fit
first_fit-Fits size hi mid x back [] pos r f = tt
first_fit-Fits size hi mid x back ((p, a, s) ∷ post) pos r f = elim (Bool-cases (leb size s)) [
  | inl fits ↦ rw fits (Fits-here size hi mid x p a s back post pos (leb→le size s fits) r f)
  | inr short ↦ rw short (
      Fits-shift size hi mid x p a s back post _ (ground arith)
        (omega (arith, IsRising-le mid hi back r))
        (first_fit-Fits size hi a x ((p, a, s) ∷ back) post pos
          (omega arith, f.1, IsRising-mono (a + s) mid hi back f.0 r) f.2))
]
