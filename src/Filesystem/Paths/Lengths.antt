-- ===== src/Filesystem/Paths/Lengths.antt =====
-- What filesystem/virtual.go leaves of a path gets shorter.
use microdbg.Base.{
  ℕ, suc, ◌+◌, ◌≤◌, ◌<◌, ◌≡◌, ◌≢◌, ◌⊎◌, refl, ap, ◌∙◌, Bool, true, false, List, [], ◌∷◌, ◌++◌,
  length, length-append, ◌==◌, if◌then◌else◌, Bool-cases, inl, inr, arith,
}
use microdbg.Filesystem.Paths.{
  Text, slash, dot, same, put_first, split_first, put_part, parts, dot_dot, up, reduce, join,
  is_rooted, or_dot, clean, trim_slash, split,
}

-- The length of parts with a slash behind each.
weight : List Text → ℕ
weight [] = 0
weight (p ∷ ps) = suc (length p) + weight ps

weight-put_part :
    (c : ℕ) (ps : List Text) → 0 < weight ps → weight (put_part c ps) ≡ suc (weight ps)
unfolding weight
weight-put_part c [] h = absurd (omega arith)
weight-put_part c (p ∷ ps) h = omega arith

weight-parts : (path : Text) → weight (parts path) ≡ suc (length path)
unfolding weight parts
weight-parts [] = refl
weight-parts (c ∷ cs) =
    ground (arith, weight-parts cs, weight-put_part c (parts cs) (omega (arith, weight-parts cs)))

same-length : (p q : Text) → same p q ≡ true → length p ≡ length q
same-length [] [] e = refl
same-length [] (b ∷ bs) e = ground arith
same-length (a ∷ as') [] e = ground arith
same-length (a ∷ as') (b ∷ bs) e = ground (arith, same-length as' bs)

weight-up : (rooted : Bool) (kept : List Text) → weight (up rooted kept) ≤ 3 + weight kept
unfolding weight
weight-up true [] = omega arith
weight-up false [] = omega arith
weight-up rooted (p ∷ ps) = ground arith

weight-reduce :
    (rooted : Bool) (kept ps : List Text) → weight (reduce rooted kept ps) ≤ weight kept + weight ps
unfolding weight reduce
weight-reduce rooted kept [] = omega arith
weight-reduce rooted kept (p ∷ ps) = ground (
  arith,
  same-length p dot_dot,
  weight-up rooted kept,
  weight-reduce rooted kept ps,
  weight-reduce rooted (up rooted kept) ps,
  weight-reduce rooted (p ∷ kept) ps,
)

length-join :
    (p : Text) (ps : List Text) (rest : Text)
    → suc (length (join (p ∷ ps) rest)) ≡ weight (p ∷ ps) + length rest
unfolding weight join
length-join p [] rest = omega (arith, length-append p rest)
length-join p (q ∷ ps) rest =
    omega (arith, length-join q ps (slash ∷ p ++ rest), length-append p rest)

-- Cleaning shortens, but for the empty path.
bounded_join : (ps : List Text) (n : ℕ) → weight ps ≤ suc n → length (join ps []) ≤ n
unfolding weight join
bounded_join [] n h = omega arith
bounded_join (p ∷ ps) n h = omega (arith, length-join p ps [])

length-split_first :
    (path : Text) → (split_first path).1 ≢ [] → length (split_first path).1 < length path
unfolding split_first
length-split_first [] h = absurd (h refl)
length-split_first (c ∷ cs) h = elim (Bool-cases (c == slash)) [
  | inl yes' ↦ rw yes' (omega arith)
  | inr no' ↦ rw no' (longer (split_first cs) (length-split_first cs) (rw no' at h))
]
  where
    longer :
        (r : Text × Text)
        → (r.1 ≢ [] → length r.1 < length cs)
        → (put_first c r).1 ≢ []
        → length (put_first c r).1 < suc (length cs)
    longer (a, b) ih g = omega (arith, ih g)

length-trim : (path : Text) → length (trim_slash path) ≤ length path
length-trim [] = omega arith
length-trim (c ∷ cs) = ground arith

length-reduce :
    (c : ℕ) (cs : Text)
    → (c == slash) ≡ true
    → weight (reduce true [] (parts (c ∷ cs))) ≤ suc (length cs)
unfolding parts reduce weight
length-reduce c cs e = rw e (omega (arith, weight-reduce true [] (parts cs), weight-parts cs))

clean_lem :
    (path : Text)
    → clean path ≡ (
        if is_rooted path
        then slash ∷ join (reduce true [] (parts path)) []
        else or_dot (join (reduce false [] (parts path)) []))
unfolding clean
clean_lem path = refl

or_dot-bound :
    (n : ℕ) (t : Text)
    → length t ≤ n
    → (length (trim_slash (or_dot t)) ≤ n) ⊎ (trim_slash (or_dot t) ≡ dot ∷ [])
or_dot-bound n [] h = inr refl
or_dot-bound n (c ∷ cs) h = inl (omega (arith, length-trim (c ∷ cs)))

relative_bound : (path : Text) → length (join (reduce false [] (parts path)) []) ≤ length path
unfolding weight
relative_bound path =
    bounded_join (reduce false [] (parts path)) (length path)
      (omega (arith, weight-reduce false [] (parts path), weight-parts path))

clean-bound :
    (path : Text)
    → (length (trim_slash (clean path)) ≤ length path) ⊎ (trim_slash (clean path) ≡ dot ∷ [])
clean-bound [] = rw (clean_lem []) (or_dot-bound 0 _ (relative_bound []))
clean-bound (c ∷ cs) = elim (Bool-cases (c == slash)) [
  | inl root ↦
      rw (clean_lem (c ∷ cs), root)
        (inl (
          omega (
            arith,
            bounded_join (reduce true [] (parts (c ∷ cs))) (length cs) (length-reduce c cs root),
          )))
  | inr relative ↦
      rw (clean_lem (c ∷ cs), relative) (or_dot-bound (length (c ∷ cs)) _ (relative_bound (c ∷ cs)))
]

split_lem : (path : Text) → split path ≡ split_first (trim_slash (clean path))
unfolding split
split_lem path = refl

dot_alone : (split_first (dot ∷ [])).1 ≡ []
unfolding split_first
dot_alone = refl

-- What is left of a path behind its first part is shorter than the path.
pub length-split : (path : Text) → (split path).1 ≢ [] → length (split path).1 < length path
length-split path h = rw (split_lem path) (shorter (clean-bound path))
  where
    left : (split_first (trim_slash (clean path))).1 ≢ []
    left e = h (ap (λ (r : Text × Text). r.1) (split_lem path) ∙ e)

    shorter :
        (length (trim_slash (clean path)) ≤ length path) ⊎ (trim_slash (clean path) ≡ dot ∷ [])
        → length (split_first (trim_slash (clean path))).1 < length path
    shorter (inl fits) = omega (arith, length-split_first (trim_slash (clean path)) left)
    shorter (inr e) = absurd (left (ap (λ (t : Text). (split_first t).1) e ∙ dot_alone))
