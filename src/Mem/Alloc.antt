-- ===== src/Mem/Alloc.antt =====
-- `memAlloc` of internal/debugger/mem.go. The loop over the free list takes fuel, and `none` means
-- that it ran out; a fuel above the length of the list is enough.
pub mod Scan
pub mod Fit
pub mod Correct
use microdbg.Base.{
  ℕ, zero, suc, ◌+◌, Bool, false, Option, none, some, ltb, leb, ◌==◌, if◌then◌else◌,
}
use microdbg.Word.{add64, sub64}
use microdbg.Errors.{Result, ok, err, panic, argument_invalid}
use microdbg.Emulator.{Emulator, MemRegion, mem_prot_read, mem_prot_write}
use microdbg.Mem.RegionMap.{store, lookup, load}
use microdbg.Mem.Blocks.{Blocks, put, insert_after, remove}
use microdbg.Mem.Manager.{MemoryManager, Outcome, map_alloc}

-- The pointer comparison `mm.free == b`.
abbrev pub points_to : Option ℕ → ℕ → Bool
points_to none b = false
points_to (some p) b = p == b

-- Nothing is left of the block `b`, which `smaller` holds with its new size.
pub take_whole : MemoryManager → ℕ → ℕ → ℕ → Blocks → MemoryManager
take_whole mm b addr size smaller = record mm {
  free = if points_to mm.free b then (smaller.cell b).next else mm.free;
  blocks = remove b smaller;
  used = store addr size mm.used;
}

-- The block keeps its end.
pub take_part : MemoryManager → ℕ → ℕ → ℕ → Blocks → MemoryManager
take_part mm b addr size smaller = record mm {
  blocks = put b (record (smaller.cell b) { addr = add64 addr size }) smaller;
  used = store addr size mm.used;
}

-- The body of the loop at a block `b` that is large enough: the address, and the manager after it.
pub carve : MemoryManager → ℕ → ℕ → ℕ × MemoryManager
carve mm b size =
    let addr = (mm.blocks.cell b).addr in
    let left = sub64 (mm.blocks.cell b).size size in
    let smaller = put b (record (mm.blocks.cell b) { size = left }) mm.blocks in
    (
      addr,
      if left == 0 then take_whole mm b addr size smaller else take_part mm b addr size smaller,
    )

-- The loop: `some none` if no block is large enough.
pub scan : ℕ → MemoryManager → Option ℕ → ℕ → Option (Option (ℕ × MemoryManager))
scan zero mm b size = none
scan (suc fuel) mm none size = some none
scan (suc fuel) mm (some b) size =
    let rest = scan fuel mm (mm.blocks.cell b).next size in
    if leb size (mm.blocks.cell b).size then some (some (carve mm b size)) else rest

module _ (e : Emulator) where
  -- What becomes of a newly mapped region: what it has beyond the size goes to the free list.
  abbrev pub grown : ℕ → Outcome e MemRegion → Outcome e ℕ
  grown size (ok region, mm, st) =
      let rest = insert_after mm.free (add64 region.addr size) (sub64 region.size size) mm.blocks in
      (
        ok region.addr,
        if ltb size region.size
            then record mm {
              free = some rest.0;
              blocks = rest.1;
              used = store region.addr size mm.used;
            }
            else record mm { used = store region.addr size mm.used },
        st,
      )
  grown size (err x, mm, st) = (err x, mm, st)
  grown size (panic, mm, st) = (panic, mm, st)

  abbrev pub scanned :
      MemoryManager → e.State → ℕ → Option (Option (ℕ × MemoryManager)) → Option (Outcome e ℕ)
  scanned mm st size none = none
  scanned mm st size (some (some (addr, mm'))) = some (ok addr, mm', st)
  scanned mm st size (some none) =
      some (grown size (map_alloc e mm st size (mem_prot_read + mem_prot_write)))

  unfoldable pub mem_alloc : ℕ → MemoryManager → e.State → ℕ → Option (Outcome e ℕ)
  unfolding scan carve take_whole take_part map_alloc insert_after remove store
  mem_alloc fuel mm st size =
      if size == 0
      then some (err argument_invalid, mm, st)
      else scanned mm st size (scan fuel mm mm.free size)

-- The size of a live allocation, and 0 for any other address.
unfoldable pub mem_size : MemoryManager → ℕ → ℕ
mem_size mm addr = load addr mm.used
