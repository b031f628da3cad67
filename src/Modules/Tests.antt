-- ===== src/Modules/Tests.antt =====
-- The module manager of internal/debugger/module.go on concrete modules.
use microdbg.Base.{
  ℕ, ◌*◌, arith, ◌≡◌, refl, none, some, [], ◌∷◌, ◌&&◌, ◌||◌, not, ◌==◌, if◌then◌else◌,
}
use microdbg.Modules.{
  ModuleMethods, contains, load, unload, find_module, find_module_by_addr, get_module, find_symbol,
}
use microdbg.Modules.Loaded.{IsDistinct, load-IsDistinct}
use microdbg.Modules.Lookup.{
  Finds, HasName, Covers, IsFirst, lookups-Find, FindsSymbol, find_symbol-FindsSymbol,
}

two-IsDistinct : IsDistinct (1 ∷ 2 ∷ [])
unfolding contains
two-IsDistinct = (refl, (refl, tt))

load-IsDistinct_example :
    IsDistinct (load (1 ∷ 2 ∷ []) 3)
    × ((x : ℕ) → contains (load (1 ∷ 2 ∷ []) 3) x ≡ contains (1 ∷ 2 ∷ []) x || (3 == x))
    × IsDistinct (unload (1 ∷ 2 ∷ []) 3)
    × ((x : ℕ) → contains (unload (1 ∷ 2 ∷ []) 3) x ≡ contains (1 ∷ 2 ∷ []) x && not (3 == x))
load-IsDistinct_example = load-IsDistinct (1 ∷ 2 ∷ []) 3 two-IsDistinct

-- Module m covers the page at m * 4096.
abbrev pages : ModuleMethods
pages = record {
  name = λ m. m ∷ [];
  region = λ m. (m * 4096, 4096);
  base_addr = λ m. m * 4096;
  find_symbol = λ m name. if m == 2 then some 8200 else none;
}

lookups-Find_example :
    Finds (HasName pages (2 ∷ [])) (1 ∷ 2 ∷ []) (find_module pages (1 ∷ 2 ∷ []) (2 ∷ []))
    × Finds (Covers pages 8200) (1 ∷ 2 ∷ []) (find_module_by_addr pages (1 ∷ 2 ∷ []) 8200)
    × IsFirst (λ m. m * 4096 ≡ 8200) (1 ∷ 2 ∷ []) (get_module pages (1 ∷ 2 ∷ []) 8200)
lookups-Find_example =
    lookups-Find pages (1 ∷ 2 ∷ []) (2 ∷ []) 8200 (omega arith, (omega arith, tt))

find_symbol-FindsSymbol_example :
    FindsSymbol pages (1 ∷ 2 ∷ []) (109 ∷ []) (find_symbol pages (1 ∷ 2 ∷ []) (109 ∷ []))
find_symbol-FindsSymbol_example = find_symbol-FindsSymbol pages (1 ∷ 2 ∷ []) (109 ∷ [])
