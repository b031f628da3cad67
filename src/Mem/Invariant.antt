-- ===== src/Mem/Invariant.antt =====
-- What holds of the heap of internal/debugger/mem.go between two calls.
use microdbg.Base.{ℕ, ◌<◌, ◌≡◌, ◌&&◌, false, leb, List}
use microdbg.Mem.RegionMap.{covers, IsSorted}
use microdbg.Mem.Blocks.Chain.{Item}
use microdbg.Mem.Manager.{MemoryManager}
use microdbg.Mem.Alloc.Scan.{Represents, IsFalling}
use microdbg.Mem.Alloc.Fit.{holds}

-- The free list is the list `items`, with its blocks in falling order, apart and below the address
-- counter; the allocations are apart, below the counter too, and no address is both free and used.
pub record Inv (mm : MemoryManager) (items : List Item) : Type 0 where
  pub represents : Represents mm items
  pub falls : IsFalling mm.map_addr items
  pub sorted : IsSorted 0 mm.used
  pub apart : (x : ℕ) → holds items x && covers mm.used x ≡ false
  pub below : (x : ℕ) → covers mm.used x && leb mm.map_addr x ≡ false
  pub counter : mm.map_addr < 18446744073709551616
