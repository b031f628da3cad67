-- ===== src/Mem/Maps/Trim.antt =====
-- The second loop of `mapDelete` in internal/debugger/mem.go. The loop changes the map by key while
-- it walks over the sorted keys; `cut` is the same work on the list, region by region.
use mathlib.Core.List.{append_assoc}
use microdbg.Base.{
  ℕ, ◌+◌, ◌-◌, ◌≤◌, ◌<◌, ◌≡◌, ◌⊎◌, refl, inl, inr, ◌&&◌, ◌||◌, not, Option, none, some, [], ◌∷◌,
  ◌++◌, arith, ltb, leb, ltb→lt, min, max, Bool-cases, Option-cases, if◌then◌else◌,
}
use microdbg.Word.{add64, sub64}
use microdbg.Mem.RegionMap.{
  RegionMap, lookup, load, store, delete, keys, within, covers, IsSorted, IsSorted-mono,
  covers_below,
}
use microdbg.Mem.Maps.{calc_overlap, trim_block, resume, trim}

abbrev pub AllBelow : ℕ → RegionMap → Type 0
AllBelow k [] = Unit {0}
AllBelow k ((s, n) ∷ m) = (s < k) × AllBelow k m

AllBelow-mono : (k j : ℕ) (m : RegionMap) → k ≤ j → AllBelow k m → AllBelow j m
AllBelow-mono k j [] h b = tt
AllBelow-mono k j ((s, n) ∷ m) h b = (omega arith, AllBelow-mono k j m h b.1)

AllBelow-append : (k : ℕ) (m l : RegionMap) → AllBelow k m → AllBelow k l → AllBelow k (m ++ l)
AllBelow-append k [] l b c = c
AllBelow-append k ((s, n) ∷ m) l b c = (b.0, AllBelow-append k m l b.1 c)

-- Keys below leave an operation at a key to the rest of the list.
load-append : (k : ℕ) (p m : RegionMap) → AllBelow k p → load k (p ++ m) ≡ load k m
unfolding load
load-append k [] m b = refl
load-append k ((s, n) ∷ p) m b = ground (arith, load-append k p m b.1)

store-append : (k v : ℕ) (p m : RegionMap) → AllBelow k p → store k v (p ++ m) ≡ p ++ store k v m
unfolding store
store-append k v [] m b = refl
store-append k v ((s, n) ∷ p) m b = ground (arith, store-append k v p m b.1)

delete-append : (k : ℕ) (p m : RegionMap) → AllBelow k p → delete k (p ++ m) ≡ p ++ delete k m
unfolding delete
delete-append k [] m b = refl
delete-append k ((s, n) ∷ p) m b = ground (arith, delete-append k p m b.1)

store_first : (k v lo : ℕ) (m : RegionMap) → IsSorted lo m → k < lo → store k v m ≡ (k, v) ∷ m
unfolding store
store_first k v lo [] w h = refl
store_first k v lo ((s, n) ∷ m) w h = ground arith

-- What one round makes of a region, and the address to go on with.
cut_head : ℕ → ℕ → ℕ → ℕ → RegionMap × Option ℕ
cut_head s n a e = elim (calc_overlap s (s + n) a e) [
  | none ↦ ((s, n) ∷ [], some a)
  | some (o, p) ↦
      let left = if ltb s o then (s, o - s) ∷ [] else [] in
      if ltb p (s + n)
      then (left ++ (p, s + n - p) ∷ [], none)
      else (left, if ltb p e then some p else none)
]

load_head : (s n : ℕ) (m : RegionMap) → load s ((s, n) ∷ m) ≡ n
unfolding load lookup
load_head s n m = ground arith

store_head : (s n v : ℕ) (m : RegionMap) → store s v ((s, n) ∷ m) ≡ (s, v) ∷ m
unfolding store
store_head s n v m = ground arith

delete_head : (s n : ℕ) (m : RegionMap) → delete s ((s, n) ∷ m) ≡ m
unfolding delete
delete_head s n m = ground arith

calc_overlap-some :
    (s b a e o q : ℕ)
    → calc_overlap s b a e ≡ some (o, q)
    → (o ≡ max s a) × (q ≡ min b e) × (a ≤ b) × (s ≤ e)
unfolding calc_overlap
calc_overlap-some s b a e o q h = ground arith

calc_overlap-none : (s b a e : ℕ) → calc_overlap s b a e ≡ none → (b < a) ⊎ (e < s)
unfolding calc_overlap
calc_overlap-none s b a e h = ground arith

abbrev left_of : ℕ → ℕ → RegionMap
left_of s o = if ltb s o then (s, o - s) ∷ [] else []

-- The part of the region before the range stays under its key, or the key goes.
left-append :
    (p m : RegionMap) (s n o : ℕ)
    → AllBelow s p
    → o < 18446744073709551616
    → (if ltb s o then store s (sub64 o s) (p ++ (s, n) ∷ m) else delete s (p ++ (s, n) ∷ m))
      ≡ p ++ (left_of s o ++ m)
left-append p m s n o b h = elim (Bool-cases (ltb s o)) [
  | inl c ↦
      let rest : sub64 o s ≡ o - s = omega (arith, ltb→lt s o c) in
      rw (c, rest, store-append s (o - s) p _ b, store_head s n (o - s) m)
  | inr c ↦ rw (c, delete-append s p _ b, delete_head s n m)
]

-- The part after the range goes under a key of its own.
right-append :
    (p m : RegionMap) (s n o q : ℕ)
    → AllBelow s p
    → s + n < 18446744073709551616
    → IsSorted (s + n) m
    → s ≤ q
    → (s < o → s < q)
    → q < s + n
    → store q (sub64 (s + n) q) (p ++ (left_of s o ++ m))
      ≡ p ++ ((left_of s o ++ (q, s + n - q) ∷ []) ++ m)
right-append p m s n o q b fits w le lt h =
    let rest : sub64 (s + n) q ≡ s + n - q = omega arith in
    let first = store_first q (s + n - q) (s + n) m w h in
    let below = AllBelow-mono s q p le b in
    elim (Bool-cases (ltb s o)) [
      | inl c ↦ rw (
        c,
        rest,
        store-append q (s + n - q) p _ below,
        store-append q (s + n - q) ((s, o - s) ∷ []) m (lt (ltb→lt s o c), tt),
        first,
      )
      | inr c ↦ rw (c, rest, store-append q (s + n - q) p _ below, first)
    ]

-- One round of the loop does to the map what `cut_head` does to its region.
trim_block-append :
    (p m : RegionMap) (s n a e : ℕ)
    → AllBelow s p
    → (s + n < 18446744073709551616)
    → IsSorted (s + n) m
    → a ≤ e
    → trim_block (p ++ (s, n) ∷ m) s (s + n) a e
      ≡ (p ++ ((cut_head s n a e).0 ++ m), (cut_head s n a e).1)
unfolding trim_block cut_head
trim_block-append p m s n a e b fits w h = elim (Option-cases (calc_overlap s (s + n) a e)) [
  | inl c ↦ rw (c, trim_block, cut_head)
  | inr ((o, q), c) ↦
      let facts = calc_overlap-some s (s + n) a e o q c in
      rw (c, left-append p m s n o b (omega arith), trim_block, cut_head)
        (elim (Bool-cases (ltb q (s + n))) [
          | inl d ↦ rw (
            d,
            right-append p m s n o q b fits w (omega arith) (λ k. omega arith) (ltb→lt q (s + n) d),
          )
          | inr d ↦ rw d
        ])
]

pub cut : RegionMap → ℕ → ℕ → RegionMap
cut [] a e = []
cut ((s, n) ∷ m) a e =
    let (left, next) = cut_head s n a e in left ++ elim next [ none ↦ m | some a' ↦ cut m a' e ]

-- What a round leaves of a region, and where it goes on.
record IsCut (s n a e : ℕ) : Type 0 where
  below : AllBelow (s + n) (cut_head s n a e).0
  sorted : (m : RegionMap) → IsSorted (s + n) m → IsSorted s ((cut_head s n a e).0 ++ m)
  covered :
      (m : RegionMap) (x : ℕ)
      → covers ((cut_head s n a e).0 ++ m) x
        ≡ (within s n x && not (leb a x && ltb x e)) || covers m x
  onward :
      (a' : ℕ) → (cut_head s n a e).1 ≡ some a' → (a' ≤ e) × ((a' ≡ a) ⊎ ((a' ≡ s + n) × (a ≤ a')))
  stops : (cut_head s n a e).1 ≡ none → e ≤ s + n

IsCut-head : (s n a e : ℕ) → 0 < n → s + n < 18446744073709551616 → a ≤ e → IsCut s n a e
unfolding cut_head calc_overlap covers
IsCut-head s n a e pos fits h = record {
  below = ground arith;
  sorted = λ m w. ground (
    arith,
    IsSorted-mono {k = s} {lo = s + n} m (omega arith) w,
    IsSorted-mono {k = s + (max s a - s)} {lo = s + n} m,
  );
  covered = λ m x. ground arith;
  onward = λ a' k. ground arith;
  stops = λ k. ground arith;
}

pub cut-IsSorted : (m : RegionMap) (lo a e : ℕ) → IsSorted lo m → a ≤ e → IsSorted lo (cut m a e)
unfolding cut
cut-IsSorted [] lo a e w h = tt
cut-IsSorted ((s, n) ∷ m) lo a e w h = elim (Option-cases (cut_head s n a e).1) [
  | inl c ↦ rw (c, cut) (IsSorted-mono _ w.0 (part.sorted m w.3))
  | inr (a', c) ↦
      rw (c, cut)
        (IsSorted-mono _ w.0 (part.sorted _ (cut-IsSorted m (s + n) a' e w.3 (part.onward a' c).0)))
]
  where
    part : IsCut s n a e
    part = IsCut-head s n a e w.1 w.2 h

-- The cut takes the range away from what the map covers.
pub covers-cut :
    (m : RegionMap) (lo a e x : ℕ)
    → IsSorted lo m
    → a ≤ e
    → covers (cut m a e) x ≡ covers m x && not (leb a x && ltb x e)
unfolding cut covers
covers-cut [] lo a e x w h = refl
covers-cut ((s, n) ∷ m) lo a e x w h = elim (Option-cases (cut_head s n a e).1) [
  | inl c ↦
      rw (c, cut) (ground (arith, part.covered m x, part.stops c, covers_below x (s + n) m w.3))
  | inr (a', c) ↦
      rw (c, cut)
        (ground (
          arith,
          part.covered (cut m a' e) x,
          part.onward a' c,
          covers-cut m (s + n) a' e x w.3 (part.onward a' c).0,
          covers_below x (s + n) m w.3,
        ))
]
  where
    part : IsCut s n a e
    part = IsCut-head s n a e w.1 w.2 h

-- The loop is the cut.
pub trim-eq-cut :
    (m p : RegionMap) (lo a e : ℕ)
    → AllBelow lo p
    → IsSorted lo m
    → a ≤ e
    → trim (keys m) (p ++ m) a e ≡ p ++ cut m a e
unfolding trim cut keys
trim-eq-cut [] p lo a e b w h = refl
trim-eq-cut ((s, n) ∷ m) p lo a e b w h =
    rw (size, step)
      (elim (Option-cases (cut_head s n a e).1) [
        | inl c ↦ rw (c, resume)
        | inr (a', c) ↦
            rw (c, resume)
              (rw
                (
                  ← append_assoc p (cut_head s n a e).0 m,
                  ← append_assoc p (cut_head s n a e).0 (cut m a' e),
                )
                (trim-eq-cut m (p ++ (cut_head s n a e).0) (s + n) a' e below w.3
                  (part.onward a' c).0))
      ])
  where
    part : IsCut s n a e
    part = IsCut-head s n a e w.1 w.2 h

    low : AllBelow s p
    low = AllBelow-mono lo s p w.0 b

    size : add64 s (load s (p ++ (s, n) ∷ m)) ≡ s + n
    size = rw (load-append s p ((s, n) ∷ m) low, load_head s n m) (omega arith)

    step :
        trim_block (p ++ (s, n) ∷ m) s (s + n) a e
        ≡ (p ++ ((cut_head s n a e).0 ++ m), (cut_head s n a e).1)
    step = trim_block-append p m s n a e low w.2 w.3 h

    below : AllBelow (s + n) (p ++ (cut_head s n a e).0)
    below =
        AllBelow-append (s + n) p (cut_head s n a e).0 (AllBelow-mono s (s + n) p (omega arith) low)
          part.below
