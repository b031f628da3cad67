-- ===== src/Mem/Tests.antt =====
-- The memory manager of internal/debugger/mem.go on concrete heaps.
use microdbg.Base.{
  ℕ, ◌+◌, ◌<◌, ◌≡◌, refl, inl, ◌&&◌, not, false, none, some, List, [], ◌∷◌, arith, leb, ◌%◌, ◌^◌,
  ◌≤◌,
}
use microdbg.Word.{align}
use microdbg.Word.Align.{align_rounds_up}
use microdbg.Emulator.{Emulator}
use microdbg.Mem.RegionMap.{RegionMap, within, covers, lookup, IsSorted, IsApart}
use microdbg.Mem.Maps.{map_delete}
use microdbg.Mem.Maps.Delete.{map_delete-covers}
use microdbg.Mem.Blocks.{zero_block, update}
use microdbg.Mem.Blocks.Chain.{Item}
use microdbg.Mem.Manager.{MemoryManager, Outcome, mem_map, mem_unmap, map_alloc, map_free}
use microdbg.Mem.Alloc.{mem_alloc}
use microdbg.Mem.Alloc.Correct.{Allocates, mem_alloc-Allocates}
use microdbg.Mem.Invariant.{Inv}
use microdbg.Mem.Pages.{
  Records, Forgets, mem_map-Records, mem_unmap-Forgets, map_alloc-Records, map_free-map_alloc,
}
use microdbg.Mem.Free.{mem_free}
use microdbg.Mem.Free.Correct.{Frees, mem_free-Freed}

-- An emulator with pages of 4096 bytes that counts its calls and refuses nothing.
abbrev counting : Emulator
counting = record {
  State = ℕ;
  page_size = 4096;
  mem_map = λ addr size prot n. (none, n + 1);
  mem_unmap = λ addr size n. (none, n + 1);
  mem_protect = λ addr size prot n. (none, n + 1);
}

-- The heap after 16 bytes were allocated: the rest of the page is the only free block.
abbrev rest_of_page : List Item
rest_of_page = (0, 0x400010, 4080) ∷ []

abbrev one_used : MemoryManager
one_used = record {
  map_addr = 0x401000;
  maps = (0x400000, 4096) ∷ [];
  used = (0x400000, 16) ∷ [];
  free = some 0;
  blocks = record {
    cell =
        update (λ _. zero_block) 0
          (record { addr = 0x400010; size = 4080; prev = none; next = none });
    pool = [];
    fresh = 1;
  };
}

one_used-Inv : Inv one_used rest_of_page
unfolding covers
one_used-Inv = record {
  represents = record {
    head = refl;
    zipper = record {
      before = tt;
      after = (refl, tt);
      distinct_back = tt;
      distinct_post = (tt, tt);
      cross = tt;
      made_back = tt;
      made_post = (omega arith, tt);
      pooled = tt;
      idle = tt;
    };
  };
  falls = (omega arith, omega arith, tt);
  sorted = (omega arith, omega arith, omega arith, tt);
  apart = λ x. ground arith;
  below = λ x. ground arith;
  counter = omega arith;
}

-- 32 bytes are cut off the free block.
mem_alloc-Allocates_example :
    (o : Outcome counting ℕ) × (mem_alloc counting 2 one_used 0 32 ≡ some o)
    × Allocates one_used rest_of_page 32 o.0 o.1
mem_alloc-Allocates_example =
    mem_alloc-Allocates counting one_used rest_of_page 0 12 32 2 one_used-Inv refl (omega arith)
      (omega arith) (omega arith)

-- The only allocation joins the free block above it.
mem_free-Freed_example : Frees one_used rest_of_page 0x400000 16 (mem_free 2 one_used 0x400000)
unfolding lookup
mem_free-Freed_example =
    mem_free-Freed one_used rest_of_page 0x400000 16 2 one_used-Inv first_used (omega arith)
      (omega arith)
  where
    first_used : lookup 0x400000 one_used.used ≡ some 16
    first_used = refl

-- Two regions of two and three pages.
abbrev two_regions : RegionMap
two_regions = (0x1000, 0x2000) ∷ (0x3000, 0x3000) ∷ []

two_regions-IsSorted : IsSorted 0 two_regions
two_regions-IsSorted =
    (omega arith, omega arith, omega arith, (omega arith, omega arith, omega arith, tt))

-- The range takes the end of the first region and the start of the second.
map_delete-covers_example :
    IsSorted 0 (map_delete two_regions 0x2000 0x2000)
    × (covers (map_delete two_regions 0x2000 0x2000) 0x3000
        ≡ covers two_regions 0x3000 && not (within 0x2000 0x2000 0x3000))
map_delete-covers_example =
    map_delete-covers two_regions 0x2000 0x2000 0x3000 two_regions-IsSorted (omega arith)

align_rounds_up_example :
    (align 5000 (2 ^ 12) % 2 ^ 12 ≡ 0)
    × (5000 ≤ align 5000 (2 ^ 12))
    × (align 5000 (2 ^ 12) < 5000 + 2 ^ 12)
align_rounds_up_example = align_rounds_up 5000 12 (omega arith)

one_used-Mapped : IsSorted 0 one_used.maps
one_used-Mapped = (omega arith, omega arith, omega arith, tt)

mem_map-Records_example :
    Records counting one_used.maps
      (align 0x7fff (2 ^ 12))
      (align 100 (2 ^ 12))
      none
      (mem_map counting one_used 0 0x7fff 100 3)
mem_map-Records_example =
    mem_map-Records counting one_used 0 12 0x7fff 100 3 refl one_used-Mapped far (omega arith)
      (omega arith)
  where
    far : IsApart (align 0x7fff (2 ^ 12)) (align 100 (2 ^ 12)) one_used.maps
    far = (
      inl (
          omega
            (arith, align_rounds_up 0x7fff 12 (omega arith), align_rounds_up 100 12 (omega arith))),
      tt,
    )

mem_unmap-Forgets_example :
    Forgets counting one_used.maps
      (align 0x400000 (2 ^ 12))
      (align 100 (2 ^ 12))
      none
      (mem_unmap counting one_used 0 0x400000 100)
mem_unmap-Forgets_example =
    mem_unmap-Forgets counting one_used 0 12 0x400000 100 refl one_used-Mapped (omega arith)

one_used-IsBelow : (x : ℕ) → covers one_used.maps x && leb one_used.map_addr x ≡ false
unfolding covers
one_used-IsBelow x = ground arith

map_alloc-Records_example :
    ((map_alloc counting one_used 0 5000 3).1.map_addr ≡ 0x401000 + align 5000 (2 ^ 12))
    × Records counting one_used.maps 0x401000
        (align 5000 (2 ^ 12))
        none
        (map_alloc counting one_used 0 5000 3)
map_alloc-Records_example =
    map_alloc-Records counting one_used 0 12 5000 3 refl one_used-Mapped one_used-IsBelow
      (omega arith) (omega arith)

map_free-map_alloc_example :
    let o = map_alloc counting one_used 0 5000 3 in
    covers (map_free counting o.1 1 0x401000 5000).1.maps 0x400fff ≡ covers one_used.maps 0x400fff
map_free-map_alloc_example =
    map_free-map_alloc counting one_used 0 12 5000 3 refl one_used-Mapped one_used-IsBelow
      (omega arith) (omega arith) 1 2 refl refl 0x400fff
