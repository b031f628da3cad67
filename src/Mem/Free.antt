-- ===== src/Mem/Free.antt =====
-- `memFree` of internal/debugger/mem.go. The loop over the free list takes fuel, as in `Alloc`.
mod Branches
pub mod Walk
mod Loop
pub mod Correct
use microdbg.Base.{ℕ, zero, suc, Option, none, some, ltb, ◌==◌, if◌then◌else◌}
use microdbg.Word.{add64}
use microdbg.Errors.{Result, ok, err, panic, address_invalid}
use microdbg.Mem.RegionMap.{lookup, delete}
use microdbg.Mem.Blocks.{Blocks, put, insert_after, insert_before, remove, end_of}
use microdbg.Mem.Manager.{MemoryManager}
use microdbg.Mem.Alloc.{points_to}

pub grow : Blocks → ℕ → ℕ → Blocks
grow h b size = put b (record (h.cell b) { size = add64 (h.cell b).size size }) h

-- The block `q` above takes over the block `b` and the region between them.
pub absorb : Blocks → ℕ → ℕ → ℕ → Blocks
absorb h q b size =
    let lowered = put q (record (h.cell q) { addr = (h.cell b).addr }) h in
    let total = add64 (lowered.cell q).size (add64 (lowered.cell b).size size) in
    remove b (put q (record (lowered.cell q) { size = total }) lowered)

-- The region joins the block `b` that ends where it begins, and the block above if that begins
-- where the region ends.
pub merge : Blocks → Option ℕ → ℕ → ℕ → ℕ → Blocks
merge h none b end size = grow h b size
merge h (some q) b end size = if (h.cell q).addr == end then absorb h q b size else grow h b size

-- The body of the loop where a block `b` lies below the region.
pub insert_above : MemoryManager → ℕ → ℕ → ℕ → MemoryManager
insert_above mm b addr size =
    let (nb, blocks) = insert_after (some b) addr size mm.blocks in
    record mm { blocks = blocks; free = if points_to mm.free b then some nb else mm.free }

-- What follows the loop: `b` is the last block, and nil if there was none.
pub after_last : MemoryManager → Option ℕ → ℕ → ℕ → Result (Unit {0}) × MemoryManager
after_last mm none addr size = (panic, mm)
after_last mm (some b) addr size =
    let block = mm.blocks.cell b in
    (
      ok tt,
      record mm {
        blocks =
            if block.addr == add64 addr size
            then put b (record block { addr = addr; size = add64 block.size size }) mm.blocks
            else (insert_before (some b) addr size mm.blocks).1;
      },
    )

pub walk :
    ℕ → MemoryManager → Option ℕ → Option ℕ → ℕ → ℕ → Option (Result (Unit {0}) × MemoryManager)
walk zero mm last b addr size = none
walk (suc fuel) mm last none addr size = some (after_last mm last addr size)
walk (suc fuel) mm last (some b) addr size =
    let block = mm.blocks.cell b in
    let end = add64 addr size in
    let rest = walk fuel mm (some b) block.next addr size in
    if end_of block == addr
    then some (ok tt, record mm { blocks = merge mm.blocks block.prev b end size })
    else if ltb block.addr end
    then some (ok tt, insert_above mm b addr size)
    else rest

abbrev pub freed : ℕ → MemoryManager → ℕ → Option ℕ → Option (Result (Unit {0}) × MemoryManager)
freed fuel mm addr none = some (err address_invalid, mm)
freed fuel mm addr (some size) =
    let mm' = record mm { used = delete addr mm.used } in walk fuel mm' none mm'.free addr size

unfoldable pub mem_free : ℕ → MemoryManager → ℕ → Option (Result (Unit {0}) × MemoryManager)
unfolding walk after_last insert_above merge absorb grow insert_after insert_before remove end_of
    lookup delete
mem_free fuel mm addr =
    if addr == 0 then some (err address_invalid, mm) else freed fuel mm addr (lookup addr mm.used)
