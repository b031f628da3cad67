-- ===== src/Mem/Alloc/Correct.antt =====
-- `memAlloc` of internal/debugger/mem.go as a whole.
use microdbg.Base.{
  ℕ, ◌+◌, ◌-◌, ◌^◌, ◌≤◌, ◌<◌, ◌≡◌, refl, sym, ap, subst, ◌∙◌, inl, inr, ◌&&◌, ◌||◌, false, Option,
  none, some, List, [], ◌∷◌, arith, ltb, leb, leb→le, ltb→lt, ◌%◌, Bool-cases, length, ◌==◌,
}
use microdbg.Word.{add64, sub64, align}
use microdbg.Word.Align.{align_rounds_up}
use microdbg.Errors.{Error, Result, ok, err, panic}
use microdbg.Emulator.{Emulator, mem_prot_read, mem_prot_write}
use microdbg.Mem.RegionMap.{
  within, covers, store, IsSorted, IsApart, IsApart-of_uncovered, store-IsSorted, covers-store,
  load-store,
}
use microdbg.Mem.Blocks.Chain.{Item, Zipper}
use microdbg.Mem.Blocks.Links.{insert_first-Zipper}
use microdbg.Mem.Blocks.{Blocks, insert_after}
use microdbg.Mem.Manager.{MemoryManager, Outcome, mapped, map_alloc}
use microdbg.Mem.Alloc.{scan, grown, scanned, mem_alloc, mem_size}
use microdbg.Mem.Alloc.Scan.{first_fit, Carved, Finds, scan-Finds}
use microdbg.Mem.Alloc.Fit.{holds, Fits, first_fit-Fits, IsFalling-mono, holds_high}
use microdbg.Mem.Invariant.{Inv}

-- A successful allocation of `size` bytes at `addr`.
pub record Allocated (mm mm' : MemoryManager) (size addr : ℕ) (items' : List Item) : Type 0 where
  pub inv : Inv mm' items'
  pub gains : (x : ℕ) → covers mm'.used x ≡ covers mm.used x || within addr size x
  pub unused : (x : ℕ) → within addr size x && covers mm.used x ≡ false
  pub sized : mem_size mm' addr ≡ size

-- The allocation takes free addresses, or addresses from the counter on.
module _ (mm : MemoryManager) (items : List Item) (v : Inv mm items) (size addr : ℕ)
    (pos : 0 < size) where
  Carved-Allocated :
      (mm' : MemoryManager) (items' : List Item)
      → Carved mm mm' size addr items'
      → ((x : ℕ) → Fits size mm.map_addr [] items x (some (addr, items')))
      → Allocated mm mm' size addr items'
  unfolding mem_size
  Carved-Allocated mm' items' c f = record {
    inv = record {
      represents = c.represents;
      falls = rw c.map_addr (f 0).1;
      sorted = rw c.used (
          store-IsSorted addr size 0 mm.used v.sorted room (omega arith) pos
            (omega (arith, v.counter, (f 0).0)));
      apart = λ x. rw c.used (ground (arith, new x, f x, v.apart x));
      below = λ x. rw (c.used, c.map_addr) (ground (arith, new x, f x, v.below x));
      counter = rw c.map_addr v.counter;
    };
    gains = λ x. rw c.used (new x);
    unused = free;
    sized = rw c.used (load-store addr size mm.used);
  }
    where
      free : (x : ℕ) → within addr size x && covers mm.used x ≡ false
      free x = ground (arith, f x, v.apart x)

      room : IsApart addr size mm.used
      room = IsApart-of_uncovered addr size 0 mm.used v.sorted pos free

      new : (x : ℕ) → covers (store addr size mm.used) x ≡ covers mm.used x || within addr size x
      new x = covers-store x addr size 0 mm.used v.sorted room pos

-- The manager after a new region was mapped from the counter on, and what it has beyond the size was
-- put in front of the free list.
module _ (mm : MemoryManager) (items : List Item) (v : Inv mm items) (size page : ℕ)
    (pos : 0 < size) (fits : size ≤ page) (bound : mm.map_addr + page < 18446744073709551616) where
  abbrev base : ℕ
  base = mm.map_addr

  free_above : (x : ℕ) → within base size x && covers mm.used x ≡ false
  free_above x = ground (arith, v.below x)

  room_above : IsApart base size mm.used
  room_above = IsApart-of_uncovered base size 0 mm.used v.sorted pos free_above

  used_above : (x : ℕ) → covers (store base size mm.used) x ≡ covers mm.used x || within base size x
  used_above x = covers-store x base size 0 mm.used v.sorted room_above pos

  IsSorted-above : IsSorted 0 (store base size mm.used)
  IsSorted-above =
      store-IsSorted base size 0 mm.used v.sorted room_above (omega arith) pos (omega arith)

  unfree_above : (x : ℕ) → leb base x && holds items x ≡ false
  unfree_above x = elim (Bool-cases (leb base x)) [
    | inl high ↦ rw high (holds_high x base items v.falls (leb→le base x high))
    | inr low ↦ rw low refl
  ]

  filled-Allocated :
      (m : MemoryManager)
      → m.free ≡ mm.free
      → m.blocks ≡ mm.blocks
      → m.map_addr ≡ base + page
      → m.used ≡ store base size mm.used
      → Allocated mm m size base items
  unfolding mem_size
  filled-Allocated m free blocks map_addr used = record {
    inv = record {
      represents = record {
        head = free ∙ v.represents.head;
        zipper = subst (λ h. Zipper h [] items) (sym blocks) v.represents.zipper;
      };
      falls = rw map_addr (IsFalling-mono base (base + page) items (omega arith) v.falls);
      sorted = rw used IsSorted-above;
      apart = λ x. rw used (ground (arith, used_above x, unfree_above x, v.apart x));
      below = λ x. rw (used, map_addr) (ground (arith, used_above x, v.below x));
      counter = rw map_addr bound;
    };
    gains = λ x. rw used (used_above x);
    unused = free_above;
    sized = rw used (load-store base size mm.used);
  }

  abbrev rest : ℕ × Blocks
  rest = insert_after mm.free (base + size) (page - size) mm.blocks

  rest-Zipper : Zipper rest.1 [] ((rest.0, base + size, page - size) ∷ items)
  rest-Zipper =
      rw v.represents.head
        (insert_first-Zipper mm.blocks items (base + size) (page - size) v.represents.zipper)

  rest-Allocated :
      (m : MemoryManager)
      → size < page
      → m.free ≡ some rest.0
      → m.blocks ≡ rest.1
      → m.map_addr ≡ base + page
      → m.used ≡ store base size mm.used
      → Allocated mm m size base ((rest.0, base + size, page - size) ∷ items)
  unfolding mem_size
  rest-Allocated m more free blocks map_addr used = record {
    inv = record {
      represents = record {
        head = free;
        zipper =
            subst (λ h. Zipper h [] ((rest.0, base + size, page - size) ∷ items)) (sym blocks)
              rest-Zipper;
      };
      falls =
          rw map_addr (
            omega arith,
            omega arith,
            IsFalling-mono base (base + size) items (omega arith) v.falls,
          );
      sorted = rw used IsSorted-above;
      apart = λ x. rw used (ground (arith, used_above x, unfree_above x, v.apart x, v.below x));
      below = λ x. rw (used, map_addr) (ground (arith, used_above x, v.below x));
      counter = rw map_addr bound;
    };
    gains = λ x. rw used (used_above x);
    unused = free_above;
    sized = rw used (load-store base size mm.used);
  }

-- How a call of `memAlloc` ends: with an allocation, or with the emulator's error and the heap as it
-- was.
abbrev pub Allocates : MemoryManager → List Item → ℕ → Result ℕ → MemoryManager → Type 0
Allocates mm items size (ok addr) mm' = (items' : List Item) × Allocated mm mm' size addr items'
Allocates mm items size (err x) mm' = Inv mm' items × (mm'.used ≡ mm.used)
Allocates mm items size panic mm' = ⊥

-- Whatever the emulator answers to the request for `page` bytes from the counter on.
answered-Allocates :
    (e : Emulator) (mm : MemoryManager) (items : List Item) (size page prot : ℕ)
    → Inv mm items
    → 0 < size
    → size ≤ page
    → mm.map_addr + page < 18446744073709551616
    → (r : Option Error × e.State)
    → let o =
        grown e size
          (mapped e mm.map_addr page prot (record mm { map_addr = mm.map_addr + page }) r) in
      Allocates mm items size o.0 o.1
answered-Allocates e mm items size page prot v pos fits bound (some x, st) = (
  record {
    represents = record { head = v.represents.head; zipper = v.represents.zipper };
    falls = IsFalling-mono mm.map_addr (mm.map_addr + page) items (omega arith) v.falls;
    sorted = v.sorted;
    apart = v.apart;
    below = λ x. ground (arith, v.below x);
    counter = bound;
  },
  refl,
)
answered-Allocates e mm items size page prot v pos fits bound (none, st) =
    elim (Bool-cases (ltb size page)) [
      | inl more ↦
          rw (more, start, left)
            (
              _,
              rest-Allocated mm items v size page pos fits bound _ (ltb→lt size page more) refl refl
                  refl refl,
            )
      | inr all ↦
          rw all (items, filled-Allocated mm items v size page pos fits bound _ refl refl refl refl)
    ]
  where
    start : add64 mm.map_addr size ≡ mm.map_addr + size
    start = omega arith

    left : sub64 page size ≡ page - size
    left = omega arith

module _ (e : Emulator) (mm : MemoryManager) (items : List Item) (v : Inv mm items) (st : e.State)
    (k size : ℕ) (paged : e.page_size ≡ 2 ^ k) (pos : 0 < size)
    (bound : mm.map_addr + size + 2 ^ k < 18446744073709551616) where
  grown-Allocates :
      let o = grown e size (map_alloc e mm st size (mem_prot_read + mem_prot_write)) in
      Allocates mm items size o.0 o.1
  unfolding map_alloc
  grown-Allocates =
      rw (ap (align size) paged, next, start)
        (answered-Allocates e mm items size (align size (2 ^ k)) (mem_prot_read + mem_prot_write) v
          pos up.1 (omega (arith, up)) _)
    where
      up :
          (align size (2 ^ k) % 2 ^ k ≡ 0)
          × (size ≤ align size (2 ^ k))
          × (align size (2 ^ k) < size + 2 ^ k)
      up = align_rounds_up size k (omega arith)

      next : add64 mm.map_addr (align size (2 ^ k)) ≡ mm.map_addr + align size (2 ^ k)
      next = omega (arith, up)

      start : sub64 (mm.map_addr + align size (2 ^ k)) (align size (2 ^ k)) ≡ mm.map_addr
      start = omega (arith, up)

  -- What `memAlloc` does after its loop, whether that found a block or not.
  scanned-Allocates :
      (fit : Option (ℕ × List Item)) (r : Option (Option (ℕ × MemoryManager)))
      → ((x : ℕ) → Fits size mm.map_addr [] items x fit)
      → Finds mm size fit r
      → (o : Outcome e ℕ) × (scanned e mm st size r ≡ some o) × Allocates mm items size o.0 o.1
  scanned-Allocates none r fits found = (_, ap (scanned e mm st size) found, grown-Allocates)
  scanned-Allocates (some (addr, items')) r fits found = (
    (ok addr, found.0, st),
    ap (scanned e mm st size) found.1,
    (items', Carved-Allocated mm items v size addr pos found.0 items' found.2 fits),
  )

-- Whatever the emulator answers, `memAlloc` of a positive size on a sound heap terminates without a
-- panic. If it succeeds, the new allocation was neither used nor free space of another one: no address
-- of it was in use before, exactly its addresses are in use in addition afterwards, its size is
-- recorded, and the heap is sound again. If it fails, the allocations are as before and the heap is
-- sound. The conditions: the page size is a power of two, the address counter does not overflow, and
-- the fuel is above the length of the free list.
pub mem_alloc-Allocates :
    (e : Emulator) (mm : MemoryManager) (items : List Item) (st : e.State) (k size fuel : ℕ)
    → Inv mm items
    → e.page_size ≡ 2 ^ k
    → 0 < size
    → mm.map_addr + size + 2 ^ k < 18446744073709551616
    → length items < fuel
    → (o : Outcome e ℕ) × (mem_alloc e fuel mm st size ≡ some o) × Allocates mm items size o.0 o.1
unfolding mem_alloc
mem_alloc-Allocates e mm items st k size fuel v paged pos bound enough = rw positive (
    scanned-Allocates e mm items v st k size paged pos bound (first_fit size [] items) _
      (λ x. first_fit-Fits size mm.map_addr mm.map_addr x [] items pos (omega arith) v.falls)
      (subst (λ b. Finds mm size (first_fit size [] items) (scan fuel mm b size))
        (sym v.represents.head)
        (scan-Finds fuel mm size mm.map_addr [] items v.represents.zipper v.represents.head enough
          pos v.falls v.counter)))
  where
    positive : (size == 0) ≡ false
    positive = ground arith
