-- ===== src/Modules.antt =====
-- `moduleManager` of internal/debugger/module.go. A module is an interface value, here a number; what
-- its methods return is a parameter.
pub mod Loaded
pub mod Lookup
mod Tests
use microdbg.Base.{
  ℕ, Bool, true, false, ◌&&◌, Option, none, some, List, [], ◌∷◌, ◌++◌, ltb, leb, ◌==◌,
  if◌then◌else◌,
}
use microdbg.Word.{add64}
use microdbg.Errors.{Result, ok, err, module_not_found, symbol_not_found}

-- `slices.Contains`
pub contains : List ℕ → ℕ → Bool
contains [] m = false
contains (k ∷ ks) m = if k == m then true else contains ks m

-- `slices.DeleteFunc` with the comparison to a module.
pub without : List ℕ → ℕ → List ℕ
without [] m = []
without (k ∷ ks) m = if k == m then without ks m else k ∷ without ks m

unfoldable pub load : List ℕ → ℕ → List ℕ
unfolding contains
load loaded m = if contains loaded m then loaded else loaded ++ (m ∷ [])

unfoldable pub unload : List ℕ → ℕ → List ℕ
unfolding without
unload loaded m = without loaded m

-- The methods of `Module` that the manager calls. Names are lists of bytes, compared by `same_name`.
pub record ModuleMethods : Type 0 where
  pub name : ℕ → List ℕ
  pub region : ℕ → ℕ × ℕ
  pub base_addr : ℕ → ℕ
  -- `none` for any error
  pub find_symbol : ℕ → List ℕ → Option ℕ

abbrev pub same_name : List ℕ → List ℕ → Bool
same_name [] [] = true
same_name [] (b ∷ bs) = false
same_name (a ∷ as') [] = false
same_name (a ∷ as') (b ∷ bs) = (a == b) && same_name as' bs

-- The loop that returns the first module with a property.
pub first_such : (ℕ → Bool) → List ℕ → Option ℕ
first_such p [] = none
first_such p (m ∷ ms) = let rest = first_such p ms in if p m then some m else rest

module _ (i : ModuleMethods) where
  abbrev pub holds : ℕ → ℕ → Bool
  holds addr m = leb (i.region m).0 addr && ltb addr (add64 (i.region m).0 (i.region m).1)

  abbrev pub found : Option ℕ → Result ℕ
  found none = err module_not_found
  found (some m) = ok m

  unfoldable pub find_module : List ℕ → List ℕ → Result ℕ
  unfolding first_such
  find_module loaded name = found (first_such (λ m. same_name (i.name m) name) loaded)

  unfoldable pub find_module_by_addr : List ℕ → ℕ → Result ℕ
  unfolding first_such
  find_module_by_addr loaded addr = found (first_such (holds addr) loaded)

  -- nil is `none`
  unfoldable pub get_module : List ℕ → ℕ → Option ℕ
  unfolding first_such
  get_module loaded addr = first_such (λ m. i.base_addr m == addr) loaded

  abbrev pub or_rest : ℕ → Option ℕ → Result (ℕ × ℕ) → Result (ℕ × ℕ)
  or_rest m (some addr) rest = ok (m, addr)
  or_rest m none rest = rest

  unfoldable pub find_symbol : List ℕ → List ℕ → Result (ℕ × ℕ)
  find_symbol [] name = err symbol_not_found
  find_symbol (m ∷ ms) name = or_rest m (i.find_symbol m name) (find_symbol ms name)
