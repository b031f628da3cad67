-- ===== src/Modules/Lookup.antt =====
-- The lookups of internal/debugger/module.go.
use microdbg.Base.{
  ℕ, ◌+◌, ◌-◌, ◌<◌, ◌≡◌, refl, ap, Bool, true, Option, none, some, List, [], ◌∷◌, ◌++◌, ◌==◌,
  Bool-cases, inl, inr, arith,
}
use microdbg.Errors.{Result, ok, err, panic, module_not_found, symbol_not_found}
use microdbg.Modules.{
  ModuleMethods, same_name, first_such, holds, found, find_module, find_module_by_addr, get_module,
  or_rest, find_symbol,
}

abbrev pub NoneHas : (ℕ → Type 0) → List ℕ → Type 0
NoneHas P [] = Unit {0}
NoneHas P (m ∷ ms) = (¬ P m) × NoneHas P ms

-- The first module of the list with the property, and none if no module has it.
abbrev pub IsFirst : (ℕ → Type 0) → List ℕ → Option ℕ → Type 0
IsFirst P ms none = NoneHas P ms
IsFirst P ms (some m) =
    (before : List ℕ) × (after : List ℕ) × (ms ≡ before ++ (m ∷ after)) × NoneHas P before × P m

skip-IsFirst :
    (P : ℕ → Type 0) (m : ℕ) (ms : List ℕ) (r : Option ℕ)
    → ¬ P m
    → IsFirst P ms r
    → IsFirst P (m ∷ ms) r
skip-IsFirst P m ms none e f = (e, f)
skip-IsFirst P m ms (some k) e (b, a, s, n, h) = (m ∷ b, a, ap (λ l. m ∷ l) s, (e, n), h)

-- The test of the loop decides a property of each module in the list.
abbrev Decides : (ℕ → Bool) → (ℕ → Type 0) → List ℕ → Type 0
Decides p P [] = Unit {0}
Decides p P (m ∷ ms) = (p m ≡ true → P m) × (P m → p m ≡ true) × Decides p P ms

first_such-IsFirst :
    (p : ℕ → Bool) (P : ℕ → Type 0) (ms : List ℕ) → Decides p P ms → IsFirst P ms (first_such p ms)
unfolding first_such
first_such-IsFirst p P [] d = tt
first_such-IsFirst p P (m ∷ ms) (yes', no', d) = elim (Bool-cases (p m)) [
  | inl hit ↦ rw hit ([], ms, refl, tt, yes' hit)
  | inr miss ↦
      rw miss
        (skip-IsFirst P m ms _ (λ h. let e = no' h in ground arith) (first_such-IsFirst p P ms d))
]

abbrev pub Finds : (ℕ → Type 0) → List ℕ → Result ℕ → Type 0
Finds P ms (ok m) = IsFirst P ms (some m)
Finds P ms (err x) = NoneHas P ms × (x ≡ module_not_found)
Finds P ms panic = ⊥

found-Finds :
    (i : ModuleMethods) (P : ℕ → Type 0) (ms : List ℕ) (r : Option ℕ)
    → IsFirst P ms r
    → Finds P ms (found i r)
found-Finds i P ms none f = (f, refl)
found-Finds i P ms (some m) f = f

same_name-eq : (a b : List ℕ) → same_name a b ≡ true → a ≡ b
same_name-eq [] [] e = refl
same_name-eq [] (y ∷ ys) e = ground arith
same_name-eq (x ∷ xs) [] e = ground arith
same_name-eq (x ∷ xs) (y ∷ ys) e = ground (arith, same_name-eq xs ys)

same_name_refl : (a : List ℕ) → same_name a a ≡ true
same_name_refl [] = refl
same_name_refl (x ∷ xs) = ground (arith, same_name_refl xs)

abbrev pub HasName : ModuleMethods → List ℕ → ℕ → Type 0
HasName i name m = i.name m ≡ name

-- The address is one of the bytes of the module's region.
abbrev pub Covers : ModuleMethods → ℕ → ℕ → Type 0
Covers i addr m = (n : ℕ) × (n < (i.region m).1) × (addr ≡ (i.region m).0 + n)

-- Regions end within the address space.
abbrev pub AreRegions : ModuleMethods → List ℕ → Type 0
AreRegions i [] = Unit {0}
AreRegions i (m ∷ ms) = ((i.region m).0 + (i.region m).1 < 18446744073709551616) × AreRegions i ms

name-Decides :
    (i : ModuleMethods) (name ms : List ℕ)
    → Decides (λ m. same_name (i.name m) name) (HasName i name) ms
name-Decides i name [] = tt
name-Decides i name (m ∷ ms) =
    (same_name-eq (i.name m) name, λ e. rw e (same_name_refl name), name-Decides i name ms)

region-Decides :
    (i : ModuleMethods) (addr : ℕ) (ms : List ℕ)
    → AreRegions i ms
    → Decides (holds i addr) (Covers i addr) ms
region-Decides i addr [] r = tt
region-Decides i addr (m ∷ ms) (fits, r) = (
  λ e. (addr - (i.region m).0, ground arith, ground arith),
  λ c. there c,
  region-Decides i addr ms r,
)
  where
    there : Covers i addr m → holds i addr m ≡ true
    there (n, less, e) = ground arith

base-Decides :
    (i : ModuleMethods) (addr : ℕ) (ms : List ℕ)
    → Decides (λ m. i.base_addr m == addr) (λ m. i.base_addr m ≡ addr) ms
base-Decides i addr [] = tt
base-Decides i addr (m ∷ ms) = (λ e. ground arith, λ e. ground arith, base-Decides i addr ms)

-- Among the loaded modules, in the order of loading, the lookups return: the first whose name is the
-- given one; the first whose region has the given address as one of its bytes; and the first whose
-- base address is the given one. Only if no loaded module is such do they return the error, or nil.
-- The condition is that the regions of the loaded modules end within the address space.
pub lookups-Find :
    (i : ModuleMethods) (loaded name : List ℕ) (addr : ℕ)
    → AreRegions i loaded
    → Finds (HasName i name) loaded (find_module i loaded name)
      × Finds (Covers i addr) loaded (find_module_by_addr i loaded addr)
      × IsFirst (λ m. i.base_addr m ≡ addr) loaded (get_module i loaded addr)
unfolding find_module find_module_by_addr get_module
lookups-Find i loaded name addr fits = (
  found-Finds i _ loaded _
      (first_such-IsFirst _ (HasName i name) loaded (name-Decides i name loaded)),
  found-Finds i _ loaded _ (
      first_such-IsFirst (holds i addr) (Covers i addr) loaded (region-Decides i addr loaded fits)),
  first_such-IsFirst _ (λ m. i.base_addr m ≡ addr) loaded (base-Decides i addr loaded),
)

abbrev pub Lacks : ModuleMethods → List ℕ → List ℕ → Type 0
Lacks i [] name = Unit {0}
Lacks i (m ∷ ms) name = (i.find_symbol m name ≡ none) × Lacks i ms name

-- The outcome of looking up a symbol.
abbrev pub FindsSymbol : ModuleMethods → List ℕ → List ℕ → Result (ℕ × ℕ) → Type 0
FindsSymbol i ms name (ok (m, addr)) =
    (before : List ℕ) × (after : List ℕ) × (ms ≡ before ++ (m ∷ after))
    × Lacks i before name
    × (i.find_symbol m name ≡ some addr)
FindsSymbol i ms name (err x) = Lacks i ms name × (x ≡ symbol_not_found)
FindsSymbol i ms name panic = ⊥

skip-FindsSymbol :
    (i : ModuleMethods) (m : ℕ) (ms name : List ℕ) (r : Result (ℕ × ℕ))
    → i.find_symbol m name ≡ none
    → FindsSymbol i ms name r
    → FindsSymbol i (m ∷ ms) name r
skip-FindsSymbol i m ms name (ok (k, addr)) e (b, a, s, n, h) =
    (m ∷ b, a, ap (λ l. m ∷ l) s, (e, n), h)
skip-FindsSymbol i m ms name (err x) e (n, h) = ((e, n), h)
skip-FindsSymbol i m ms name panic e f = f

or_rest-FindsSymbol :
    (i : ModuleMethods) (m : ℕ) (ms name : List ℕ) (o : Option ℕ) (rest : Result (ℕ × ℕ))
    → i.find_symbol m name ≡ o
    → FindsSymbol i ms name rest
    → FindsSymbol i (m ∷ ms) name (or_rest i m o rest)
or_rest-FindsSymbol i m ms name none rest e f = skip-FindsSymbol i m ms name rest e f
or_rest-FindsSymbol i m ms name (some addr) rest e f = ([], ms, refl, tt, e)

-- A symbol is found in the first module, in the order of loading, that has it, with the address that
-- this module gives; if no loaded module has it the error is returned.
pub find_symbol-FindsSymbol :
    (i : ModuleMethods) (loaded name : List ℕ)
    → FindsSymbol i loaded name (find_symbol i loaded name)
unfolding find_symbol
find_symbol-FindsSymbol i [] name = (tt, refl)
find_symbol-FindsSymbol i (m ∷ ms) name =
    or_rest-FindsSymbol i m ms name (i.find_symbol m name) _ refl
      (find_symbol-FindsSymbol i ms name)
