-- ===== src/Mem/RegionMap.antt =====
-- A Go `map[uint64]uint64` from addresses to sizes, kept as a list sorted by address, so that the
-- sorted keys which internal/debugger/mem.go asks for are the keys of the list in order.
use microdbg.Base.{
  ℕ, ◌+◌, ◌≤◌, ◌<◌, max, ◌≡◌, refl, ◌⊎◌, inl, inr, Bool, true, false, ◌&&◌, ◌||◌, not, Option, none,
  some, List, [], ◌∷◌, arith, ltb, leb, ◌==◌, if◌then◌else◌, Bool-cases,
}

abbrev pub RegionMap : Type 0
RegionMap = List (ℕ × ℕ)

unfoldable pub lookup : ℕ → RegionMap → Option ℕ
lookup k [] = none
lookup k ((s, n) ∷ m) = if s == k then some n else lookup k m

-- A missing key reads as 0.
unfoldable pub load : ℕ → RegionMap → ℕ
unfolding lookup
load k m = elim (lookup k m) [ none ↦ 0 | some n ↦ n ]

unfoldable pub store : ℕ → ℕ → RegionMap → RegionMap
store k v [] = (k, v) ∷ []
store k v ((s, n) ∷ m) =
    if ltb k s then (k, v) ∷ (s, n) ∷ m else if s == k then (k, v) ∷ m else (s, n) ∷ store k v m

unfoldable pub delete : ℕ → RegionMap → RegionMap
delete k [] = []
delete k ((s, n) ∷ m) = if s == k then m else (s, n) ∷ delete k m

unfoldable pub keys : RegionMap → List ℕ
keys [] = []
keys ((s, n) ∷ m) = s ∷ keys m

abbrev pub within : ℕ → ℕ → ℕ → Bool
within s n x = leb s x && ltb x (s + n)

-- Does a region of the map hold the address?
unfoldable pub covers : RegionMap → ℕ → Bool
covers [] x = false
covers ((s, n) ∷ m) x = within s n x || covers m x

-- The regions are not empty, stand in order without overlap from `lo` on, and end below 2 ^ 64.
abbrev pub IsSorted : ℕ → RegionMap → Type 0
IsSorted lo [] = Unit {0}
IsSorted lo ((s, n) ∷ m) = (lo ≤ s) × (0 < n) × (s + n < 18446744073709551616) × IsSorted (s + n) m

pub IsSorted-mono : {k lo : ℕ} (m : RegionMap) → k ≤ lo → IsSorted lo m → IsSorted k m
IsSorted-mono [] h w = tt
IsSorted-mono ((s, n) ∷ m) h w = (omega arith, w.1, w.2, w.3)

-- Nothing below the bound is covered, or a key.
pub covers_below : (x lo : ℕ) (m : RegionMap) → IsSorted lo m → x < lo → covers m x ≡ false
unfolding covers
covers_below x lo [] w h = refl
covers_below x lo ((s, n) ∷ m) w h = ground (arith, covers_below x (s + n) m w.3)

pub lookup_below : (x lo : ℕ) (m : RegionMap) → IsSorted lo m → x < lo → lookup x m ≡ none
unfolding lookup
lookup_below x lo [] w h = refl
lookup_below x lo ((s, n) ∷ m) w h = ground (arith, lookup_below x (s + n) m w.3)

pub delete-IsSorted : (k lo : ℕ) (m : RegionMap) → IsSorted lo m → IsSorted lo (delete k m)
unfolding delete
delete-IsSorted k lo [] w = tt
delete-IsSorted k lo ((s, n) ∷ m) w =
    ground (arith, delete-IsSorted k (s + n) m w.3, IsSorted-mono {k = lo} {lo = s + n} m)

pub covers_of_lookup :
    (x k v : ℕ) (m : RegionMap) → lookup k m ≡ some v → within k v x ≡ true → covers m x ≡ true
unfolding covers lookup
covers_of_lookup x k v [] e h = absurd (cc)
covers_of_lookup x k v ((s, n) ∷ m) e h = ground (arith, covers_of_lookup x k v m)

-- A deleted region is no longer covered, and nothing else changes.
pub covers-delete :
    (x k v lo : ℕ) (m : RegionMap)
    → IsSorted lo m
    → lookup k m ≡ some v
    → covers (delete k m) x ≡ covers m x && not (within k v x)
unfolding covers delete lookup
covers-delete x k v lo [] w e = refl
covers-delete x k v lo ((s, n) ∷ m) w e = elim (Bool-cases (s == k)) [
  | inl hit ↦ rw hit (ground (arith, covers_below x (s + n) m w.3))
  | inr miss ↦
      rw miss (ground (arith, covers-delete x k v (s + n) m w.3, lookup_below k (s + n) m w.3))
]

-- The region from `k` of size `v` meets no region of the map.
abbrev pub IsApart : ℕ → ℕ → RegionMap → Type 0
IsApart k v [] = Unit {0}
IsApart k v ((s, n) ∷ m) = ((k + v ≤ s) ⊎ (s + n ≤ k)) × IsApart k v m

IsApart-above : (k v lo : ℕ) (m : RegionMap) → IsSorted lo m → k + v ≤ lo → IsApart k v m
IsApart-above k v lo [] w h = tt
IsApart-above k v lo ((s, n) ∷ m) w h =
    (inl (omega arith), IsApart-above k v (s + n) m w.3 (omega arith))

pub store-IsSorted :
    (k v lo : ℕ) (m : RegionMap)
    → IsSorted lo m
    → IsApart k v m
    → lo ≤ k
    → 0 < v
    → k + v < 18446744073709551616
    → IsSorted lo (store k v m)
unfolding store
store-IsSorted k v lo [] w a h p q = (h, p, q, tt)
store-IsSorted k v lo ((s, n) ∷ m) w a h p q = ground (arith, store-IsSorted k v (s + n) m w.3 a.1)

-- A stored region is covered, and nothing else changes.
pub covers-store :
    (x k v lo : ℕ) (m : RegionMap)
    → IsSorted lo m
    → IsApart k v m
    → 0 < v
    → covers (store k v m) x ≡ covers m x || within k v x
unfolding covers store
covers-store x k v lo [] w a p = ground arith
covers-store x k v lo ((s, n) ∷ m) w a p = ground (arith, covers-store x k v (s + n) m w.3 a.1)

-- A region of the map keeps apart from what is left when it is deleted.
pub delete-IsApart :
    (k v lo : ℕ) (m : RegionMap)
    → IsSorted lo m
    → lookup k m ≡ some v
    → (a b : ℕ) → k ≤ a
    → a + b ≤ k + v
    → IsApart a b (delete k m)
unfolding delete lookup
delete-IsApart k v lo [] w e a b h h' = cc
delete-IsApart k v lo ((s, n) ∷ m) w e a b h h' = elim (Bool-cases (s == k)) [
  | inl hit ↦ rw hit (IsApart-above a b (s + n) m w.3 (ground arith))
  | inr miss ↦ rw miss (
    inr (ground (arith, lookup_below k (s + n) m w.3)),
    delete-IsApart k v (s + n) m w.3 (ground arith) a b h h',
  )
]

-- A region of which the map covers no address keeps apart from the map's regions.
pub IsApart-of_uncovered :
    (k v lo : ℕ) (m : RegionMap)
    → IsSorted lo m
    → 0 < v
    → ((x : ℕ) → within k v x && covers m x ≡ false)
    → IsApart k v m
unfolding covers
IsApart-of_uncovered k v lo [] w p free = tt
IsApart-of_uncovered k v lo ((s, n) ∷ m) w p free = (
  ground (arith, free (max s k)),
  IsApart-of_uncovered k v (s + n) m w.3 p (λ x. ground (arith, free x)),
)

pub load-store : (k v : ℕ) (m : RegionMap) → load k (store k v m) ≡ v
unfolding load store
load-store k v [] = ground arith
load-store k v ((s, n) ∷ m) = ground (arith, load-store k v m)
