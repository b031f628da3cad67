-- ===== src/Mem/Free/Correct.antt =====
-- `memFree` of internal/debugger/mem.go as a whole.
use microdbg.Base.{
  ℕ, zero, suc, ◌+◌, ◌-◌, ◌≤◌, ◌<◌, ◌≡◌, refl, sym, subst, ◌⊎◌, inl, inr, ◌≢◌, ◌&&◌, ◌||◌, not,
  true, false, Option, none, some, List, [], ◌∷◌, arith, length, ◌==◌,
}
use microdbg.Errors.{Result, ok, panic}
use microdbg.Mem.RegionMap.{
  within, covers, lookup, delete, delete-IsSorted, covers-delete, covers_of_lookup,
}
use microdbg.Mem.Maps.Front.{lookup_bound}
use microdbg.Mem.Blocks.Chain.{Item, first}
use microdbg.Mem.Manager.{MemoryManager}
use microdbg.Mem.Alloc.Fit.{holds}
use microdbg.Mem.Invariant.{Inv}
use microdbg.Mem.Free.{walk, after_last, mem_free}
use microdbg.Mem.Free.Walk.{Joined, Position}
use microdbg.Mem.Free.Loop.{walk-Joins}

-- The allocation of `size` bytes at `addr` went back to the free list.
pub record Freed (mm mm' : MemoryManager) (items items' : List Item) (addr size : ℕ) : Type 0 where
  pub inv : Inv mm' items'
  pub loses : (x : ℕ) → covers mm'.used x ≡ covers mm.used x && not (within addr size x)
  pub gains : (x : ℕ) → holds items' x ≡ holds items x || within addr size x
  pub maps : mm'.maps ≡ mm.maps

module _ (mm : MemoryManager) (items : List Item) (v : Inv mm items) (addr size : ℕ)
    (e : lookup addr mm.used ≡ some size) where
  abbrev dropped : MemoryManager
  dropped = record mm { used = delete addr mm.used }

  bounds : (0 ≤ addr) × (0 < size) × (addr + size < 18446744073709551616)
  bounds = lookup_bound addr size 0 mm.used v.sorted e

  was_used : (x : ℕ) → within addr size x ≡ true → covers mm.used x ≡ true
  was_used x h = covers_of_lookup x addr size mm.used e h

  below_counter : addr + size ≤ mm.map_addr
  below_counter = ground (arith, bounds, was_used (addr + size - 1), v.below (addr + size - 1))

  start : Position dropped mm.map_addr mm.map_addr addr size [] items
  start = record {
    zipper = v.represents.zipper;
    head = v.represents.head;
    above = below_counter;
    rises = omega arith;
    falls = v.falls;
    clear = λ x. ground (arith, was_used x, v.apart x);
    positive = bounds.1;
    fits = below_counter;
    top = v.counter;
  }

  Joined-Freed :
      (mm' : MemoryManager) (items' : List Item)
      → Joined dropped mm' mm.map_addr addr size items items'
      → Freed mm mm' items items' addr size
  Joined-Freed mm' items' j = record {
    inv = record {
      represents = j.represents;
      falls = rw j.map_addr j.falls;
      sorted = rw j.used (delete-IsSorted addr 0 mm.used v.sorted);
      apart = λ x. rw j.used (ground (arith, less x, j.gains x, v.apart x));
      below = λ x. rw (j.used, j.map_addr) (ground (arith, less x, v.below x));
      counter = rw j.map_addr v.counter;
    };
    loses = λ x. rw j.used (less x);
    gains = j.gains;
    maps = j.maps;
  }
    where
      less : (x : ℕ) → covers (delete addr mm.used) x ≡ covers mm.used x && not (within addr size x)
      less x = covers-delete x addr size 0 mm.used v.sorted e

-- How the loop may end, given the free list before it.
abbrev pub Frees :
    MemoryManager → List Item → ℕ → ℕ → Option (Result (Unit {0}) × MemoryManager) → Type 0
Frees mm items addr size r =
    ((items ≡ []) × (r ≡ some (panic, record mm { used = delete addr mm.used })))
    ⊎ ((items ≢ [])
        × ((mm' : MemoryManager) × (items' : List Item) × (r ≡ some (ok tt, mm'))
            × Freed mm mm' items items' addr size))

walk-Frees :
    (mm : MemoryManager) (items : List Item) (addr size fuel : ℕ) (v : Inv mm items)
    → (e : lookup addr mm.used ≡ some size) → length items < fuel
    → Frees mm items addr size
        (walk fuel (dropped mm items v addr size e) none (first items) addr size)
unfolding walk after_last
walk-Frees mm [] addr size zero v e enough = absurd (omega arith)
walk-Frees mm [] addr size (suc fuel) v e enough = inl (refl, refl)
walk-Frees mm (i ∷ items) addr size fuel v e enough =
    elim (walk-Joins (dropped mm (i ∷ items) v addr size e) mm.map_addr addr size fuel mm.map_addr
      [] (i ∷ items) (start mm (i ∷ items) v addr size e) enough) [
        | inl p ↦ absurd (∷≢[] p.1)
        | inr (mm', items', g, j) ↦
            inr (∷≢[], (mm', items', g, Joined-Freed mm (i ∷ items) v addr size e mm' items' j))
      ]
  where
    ∷≢[] : i ∷ items ≢ []
    ∷≢[] h = absurd (cc)

-- Freeing an allocation of a sound heap, with fuel above the length of the free list, terminates. It
-- panics exactly if there is no free block. Otherwise it returns no error, takes exactly the
-- allocation's addresses out of use, adds exactly these to the free space, and leaves a sound heap.
-- The allocation is not at address 0.
pub mem_free-Freed :
    (mm : MemoryManager) (items : List Item) (addr size fuel : ℕ)
    → Inv mm items
    → lookup addr mm.used ≡ some size
    → 0 < addr
    → length items < fuel
    → Frees mm items addr size (mem_free fuel mm addr)
unfolding mem_free
mem_free-Freed mm items addr size fuel v e pos enough =
    rw (nonzero, e)
      (subst
        (λ b.
          Frees mm items addr size
            (walk fuel (record mm { used = delete addr mm.used }) none b addr size))
        (sym v.represents.head) (walk-Frees mm items addr size fuel v e enough))
  where
    nonzero : (addr == 0) ≡ false
    nonzero = ground arith
