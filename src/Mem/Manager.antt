-- ===== src/Mem/Manager.antt =====
-- `memoryManager` of internal/debugger/mem.go: its state, and the calls that map whole pages. The
-- mutexes are left out: a call is one step. `mainThreadRun` runs its function before it returns.
use microdbg.Base.{ℕ, Option, none, some, []}
use microdbg.Word.{add64, sub64, align}
use microdbg.Errors.{Error, Result, ok, err}
use microdbg.Emulator.{Emulator, MemRegion}
use microdbg.Mem.RegionMap.{RegionMap}
use microdbg.Mem.Maps.{map_store, map_delete}
use microdbg.Mem.Blocks.{Blocks, zero_block}

pub record MemoryManager : Type 0 where
  pub map_addr : ℕ
  pub maps : RegionMap
  pub used : RegionMap
  pub free : Option ℕ
  -- what the pointers of the free list point to
  pub blocks : Blocks

unfoldable pub ctor : MemoryManager
ctor = record {
  map_addr = 0x400000;
  maps = [];
  used = [];
  free = none;
  blocks = record { cell = λ _. zero_block; pool = []; fresh = 0 };
}

module _ (e : Emulator) where
  -- A call's result, with the manager and the emulator after it.
  abbrev pub Outcome : Type 0 → Type 0
  Outcome A = Result A × MemoryManager × e.State

  -- The region is recorded if the emulator mapped it.
  abbrev pub mapped : ℕ → ℕ → ℕ → MemoryManager → Option Error × e.State → Outcome MemRegion
  mapped addr size prot mm (none, st) = (
    ok (record { addr = addr; size = size; prot = prot }),
    record mm { maps = map_store addr size mm.maps },
    st,
  )
  mapped addr size prot mm (some x, st) = (err x, mm, st)

  abbrev pub unmapped : ℕ → ℕ → MemoryManager → Option Error × e.State → Outcome (Unit {0})
  unmapped addr size mm (none, st) = (ok tt, record mm { maps = map_delete mm.maps addr size }, st)
  unmapped addr size mm (some x, st) = (err x, mm, st)

  unfoldable pub mem_map : MemoryManager → e.State → ℕ → ℕ → ℕ → Outcome MemRegion
  mem_map mm st addr size prot =
      let page_addr = align addr e.page_size in
      let page_size = align size e.page_size in
      mapped page_addr page_size prot mm (e.mem_map page_addr page_size prot st)

  unfoldable pub mem_unmap : MemoryManager → e.State → ℕ → ℕ → Outcome (Unit {0})
  mem_unmap mm st addr size =
      let page_addr = align addr e.page_size in
      let page_size = align size e.page_size in
      unmapped page_addr page_size mm (e.mem_unmap page_addr page_size st)

  abbrev pub protected : MemoryManager → Option Error × e.State → Outcome (Unit {0})
  protected mm (none, st) = (ok tt, mm, st)
  protected mm (some x, st) = (err x, mm, st)

  unfoldable pub mem_protect : MemoryManager → e.State → ℕ → ℕ → ℕ → Outcome (Unit {0})
  mem_protect mm st addr size prot =
      protected mm (e.mem_protect addr (align size e.page_size) prot st)

  -- The address counter moves on even if the emulator refuses.
  unfoldable pub map_alloc : MemoryManager → e.State → ℕ → ℕ → Outcome MemRegion
  map_alloc mm st size prot =
      let page_size = align size e.page_size in
      let next = add64 mm.map_addr page_size in
      let addr = sub64 next page_size in
      mapped addr page_size prot (record mm { map_addr = next }) (e.mem_map addr page_size prot st)

  unfoldable pub map_free : MemoryManager → e.State → ℕ → ℕ → Outcome (Unit {0})
  map_free mm st addr size =
      let page_size = align size e.page_size in
      unmapped addr page_size mm (e.mem_unmap addr page_size st)
