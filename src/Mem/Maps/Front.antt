-- ===== src/Mem/Maps/Front.antt =====
-- The first loop of `mapDelete` in internal/debugger/mem.go.
use microdbg.Base.{
  ℕ, zero, suc, ◌+◌, ◌-◌, ◌≤◌, ◌<◌, ◌≡◌, refl, ap, inl, inr, ◌&&◌, not, Option, none, some, [], ◌∷◌,
  arith, ltb, length, Bool-cases, ltb→lt, Option-cases, ◌==◌, if◌then◌else◌,
}
use microdbg.Word.{add64, sub64}
use microdbg.Mem.RegionMap.{
  RegionMap, lookup, store, delete, within, covers, IsSorted, delete-IsSorted, covers-delete,
  covers_of_lookup, store-IsSorted, covers-store, delete-IsApart,
}
use microdbg.Mem.Maps.{Exit, returned, broken, drop_front}

pub length-delete :
    (k v : ℕ) (m : RegionMap) → lookup k m ≡ some v → suc (length (delete k m)) ≡ length m
unfolding lookup delete
length-delete k v [] e = absurd (cc)
length-delete k v ((s, n) ∷ m) e = elim (Bool-cases (s == k)) [
  | inl hit ↦ rw hit refl
  | inr miss ↦ rw miss (ap suc (length-delete k v m (ground arith)))
]

pub lookup_bound :
    (k v lo : ℕ) (m : RegionMap)
    → IsSorted lo m
    → lookup k m ≡ some v
    → (lo ≤ k) × (0 < v) × (k + v < 18446744073709551616)
unfolding lookup
lookup_bound k v lo [] w e = absurd (cc)
lookup_bound k v lo ((s, n) ∷ m) w e = ground (arith, lookup_bound k v (s + n) m w.3)

-- What the first loop leaves: a sorted map, from which what is left of the range is still to go.
abbrev pub Leaves : RegionMap → ℕ → ℕ → ℕ → Option Exit → Type 0
Leaves m a s x none = ⊥
Leaves m a s x (some (returned m')) =
    IsSorted 0 m' × (covers m' x ≡ covers m x && not (within a s x))
Leaves m a s x (some (broken m' a' s')) =
    IsSorted 0 m'
    × (covers m' x && not (within a' s' x) ≡ covers m x && not (within a s x))
    × (a' + s' ≡ a + s)

Leaves-delete :
    (m : RegionMap) (a s v x : ℕ)
    → IsSorted 0 m
    → lookup a m ≡ some v
    → (0 ≤ a) × (0 < v) × (a + v < 18446744073709551616)
    → a + s < 18446744073709551616
    → v < s
    → (r : Option Exit) → Leaves (delete a m) (add64 a v) (sub64 s v) x r
    → Leaves m a s x r
Leaves-delete m a s v x w e b fits h none l = l
Leaves-delete m a s v x w e b fits h (some (returned m')) l =
    (l.0, ground (arith, covers-delete x a v 0 m w e, l.1))
Leaves-delete m a s v x w e b fits h (some (broken m' a' s')) l =
    (l.0, ground (arith, covers-delete x a v 0 m w e, l.1), omega arith)

keep_tail :
    (m : RegionMap) (a s v x : ℕ)
    → IsSorted 0 m
    → a + s < 18446744073709551616
    → lookup a m ≡ some v
    → (0 ≤ a) × (0 < v) × (a + v < 18446744073709551616)
    → s < v
    → IsSorted 0 (store (add64 a s) (sub64 v s) (delete a m))
      × (covers (store (add64 a s) (sub64 v s) (delete a m)) x ≡ covers m x && not (within a s x))
keep_tail m a s v x w fits e b h =
    let start : add64 a s ≡ a + s = omega arith in
    let rest : sub64 v s ≡ v - s = omega arith in
    let apart = delete-IsApart a v 0 m w e (a + s) (v - s) (omega arith) (omega arith) in
    let w' = delete-IsSorted a 0 m w in
    rw (start, rest)
      (
        store-IsSorted (a + s) (v - s) 0 (delete a m) w' apart (omega arith) (omega arith)
            (omega arith),
        ground (
          arith,
          covers-store x (a + s) (v - s) 0 (delete a m) w' apart (omega arith),
          covers-delete x a v 0 m w e,
          covers_of_lookup x a v m e,
        ),
      )

-- One round, at a region that starts at the address.
found :
    (fuel : ℕ) (m : RegionMap) (a s v x : ℕ)
    → IsSorted 0 m
    → a + s < 18446744073709551616
    → lookup a m ≡ some v
    → (0 ≤ a) × (0 < v) × (a + v < 18446744073709551616)
    → (v < s
        → Leaves
            (delete a m)
            (add64 a v)
            (sub64 s v)
            x
            (drop_front fuel (delete a m) (add64 a v) (sub64 s v)))
    → Leaves m a s x (
        let rest = drop_front fuel (delete a m) (add64 a v) (sub64 s v) in
        if ltb s v
        then some (returned (store (add64 a s) (sub64 v s) (delete a m)))
        else if ltb v s
        then rest
        else some (returned (delete a m)))
found fuel m a s v x w fits e b ih = elim (Bool-cases (ltb s v)) [
  | inl less ↦ rw less (keep_tail m a s v x w fits e b (ltb→lt s v less))
  | inr enough ↦ elim (Bool-cases (ltb v s)) [
    | inl over ↦
        rw (enough, over)
          (Leaves-delete m a s v x w e b fits (ltb→lt v s over) _ (ih (ltb→lt v s over)))
    | inr level ↦
        rw (enough, level) (delete-IsSorted a 0 m w, ground (arith, covers-delete x a v 0 m w e))
  ]
]

pub drop_front-Leaves :
    (fuel : ℕ) (m : RegionMap) (a s x : ℕ)
    → length m < fuel
    → IsSorted 0 m
    → a + s < 18446744073709551616
    → Leaves m a s x (drop_front fuel m a s)
unfolding drop_front
drop_front-Leaves zero m a s x enough w fits = absurd (omega arith)
drop_front-Leaves (suc fuel) m a s x enough w fits = elim (Option-cases (lookup a m)) [
  | inl e ↦ rw (e, drop_front, Leaves) (w, refl, refl)
  | inr (v, e) ↦
      rw (e, drop_front, Leaves)
        (found fuel m a s v x w fits e (lookup_bound a v 0 m w e) (λ over.
          drop_front-Leaves fuel (delete a m) (add64 a v) (sub64 s v) x
            (omega (arith, length-delete a v m e)) (delete-IsSorted a 0 m w) (omega arith)))
]
