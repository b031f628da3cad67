-- ===== src/Modules/Loaded.antt =====
-- Loading and unloading of internal/debugger/module.go.
use microdbg.Base.{
  ℕ, ◌≡◌, refl, ap, ◌∙◌, sym, true, false, ◌&&◌, ◌||◌, not, List, [], ◌∷◌, ◌++◌, ◌==◌, ==_iff,
  Bool-cases, inl, inr, arith,
}
use microdbg.Modules.{contains, without, load, unload}

-- No module stands in the list twice.
abbrev pub IsDistinct : List ℕ → Type 0
IsDistinct [] = Unit {0}
IsDistinct (k ∷ ks) = (contains ks k ≡ false) × IsDistinct ks

contains-append : (ks : List ℕ) (m x : ℕ) → contains (ks ++ (m ∷ [])) x ≡ contains ks x || (m == x)
unfolding contains
contains-append [] m x = ground arith
contains-append (k ∷ ks) m x = ground (arith, contains-append ks m x)

contains-without :
    (ks : List ℕ) (m x : ℕ) → contains (without ks m) x ≡ contains ks x && not (m == x)
unfolding contains without
contains-without [] m x = refl
contains-without (k ∷ ks) m x = ground (arith, contains-without ks m x)

IsDistinct-append :
    (ks : List ℕ) (m : ℕ) → contains ks m ≡ false → IsDistinct ks → IsDistinct (ks ++ (m ∷ []))
unfolding contains
IsDistinct-append [] m a d = (refl, tt)
IsDistinct-append (k ∷ ks) m a d =
    (ground (arith, contains-append ks m k, d.0), IsDistinct-append ks m (ground arith) d.1)

IsDistinct-without : (ks : List ℕ) (m : ℕ) → IsDistinct ks → IsDistinct (without ks m)
unfolding without
IsDistinct-without [] m d = tt
IsDistinct-without (k ∷ ks) m d = elim (Bool-cases (k == m)) [
  | inl hit ↦ rw hit (IsDistinct-without ks m d.1)
  | inr miss ↦ rw miss (ground (arith, contains-without ks m k, d.0), IsDistinct-without ks m d.1)
]

loaded_already :
    (ks : List ℕ) (m x : ℕ) → contains ks m ≡ true → contains ks x ≡ contains ks x || (m == x)
loaded_already ks m x there = elim (Bool-cases (m == x)) [
  | inl e ↦
      let there' : contains ks x ≡ true = sym (ap (contains ks) ((==_iff m x).0 e)) ∙ there in
      rw (e, there') refl
  | inr ne ↦ rw ne (ground arith)
]

-- Loading a module makes just this one loaded in addition, unloading it just this one not loaded, and
-- no module ever stands in the list twice.
pub load-IsDistinct :
    (loaded : List ℕ) (m : ℕ)
    → IsDistinct loaded
    → IsDistinct (load loaded m)
      × ((x : ℕ) → contains (load loaded m) x ≡ contains loaded x || (m == x))
      × IsDistinct (unload loaded m)
      × ((x : ℕ) → contains (unload loaded m) x ≡ contains loaded x && not (m == x))
unfolding load unload
load-IsDistinct loaded m d = elim (Bool-cases (contains loaded m)) [
  | inl there ↦ rw there (
    d,
    λ x. loaded_already loaded m x there,
    IsDistinct-without loaded m d,
    λ x. contains-without loaded m x,
  )
  | inr absent ↦ rw absent (
    IsDistinct-append loaded m absent d,
    λ x. contains-append loaded m x,
    IsDistinct-without loaded m d,
    λ x. contains-without loaded m x,
  )
]
