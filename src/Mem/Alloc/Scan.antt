-- ===== src/Mem/Alloc/Scan.antt =====
-- The loop of `memAlloc` in internal/debugger/mem.go on the list that the free blocks represent.
use microdbg.Base.{
  ℕ, zero, suc, ◌+◌, ◌-◌, ◌≤◌, ◌<◌, ◌≡◌, ◌≢◌, refl, sym, ap, subst, ◌∙◌, inl, inr, true, false,
  Option, none, some, List, [], ◌∷◌, arith, leb, leb→le, Bool-cases, length, ◌==◌, if◌then◌else◌,
}
use microdbg.Word.{add64, sub64}
use microdbg.Mem.RegionMap.{store}
use microdbg.Mem.Blocks.{Blocks, put}
use microdbg.Mem.Blocks.Chain.{Item, first, Off, Cross-Off, Zipper, shift, rewind, whole}
use microdbg.Mem.Blocks.Unlink.{resize-Zipper, remove-Zipper}
use microdbg.Mem.Manager.{MemoryManager}
use microdbg.Mem.Alloc.{points_to, take_whole, take_part, carve, scan}

-- The free regions from the highest to the lowest, not empty, apart, and all below `hi`.
abbrev pub IsFalling : ℕ → List Item → Type 0
IsFalling hi [] = Unit {0}
IsFalling hi ((p, a, s) ∷ r) = (a + s ≤ hi) × (0 < s) × IsFalling a r

-- First fit: the address, and the list without the region that was taken.
unfoldable pub first_fit : ℕ → List Item → List Item → Option (ℕ × List Item)
first_fit size back [] = none
first_fit size back ((p, a, s) ∷ post) =
    if leb size s
    then some
        (a, if s == size then whole back post else whole back ((p, a + size, s - size) ∷ post))
    else first_fit size ((p, a, s) ∷ back) post

-- The manager's free list is the list.
pub record Represents (mm : MemoryManager) (items : List Item) : Type 0 where
  pub head : mm.free ≡ first items
  pub zipper : Zipper mm.blocks [] items

-- What comes after a block does not change which block the list begins with.
pub first-whole :
    (back post post' : List Item) (p a s : ℕ)
    → first (whole ((p, a, s) ∷ back) post) ≡ first (whole ((p, a, s) ∷ back) post')
first-whole [] post post' p a s = refl
first-whole ((q, b, t) ∷ back) post post' p a s =
    first-whole back ((p, a, s) ∷ post) ((p, a, s) ∷ post') q b t

pub first-whole_at :
    (back post post' : List Item) (p a s a' s' : ℕ)
    → first (whole back ((p, a, s) ∷ post)) ≡ first (whole back ((p, a', s') ∷ post'))
first-whole_at [] post post' p a s a' s' = refl
first-whole_at ((q, b, t) ∷ back) post post' p a s a' s' = first-whole back _ _ q b t

-- A block off what stands before is not the first of the list.
pub first-whole_ne :
    (back post : List Item) (p q b t : ℕ)
    → Off p ((q, b, t) ∷ back)
    → points_to (first (whole ((q, b, t) ∷ back) post)) p ≡ false
first-whole_ne [] post p q b t o = ground arith
first-whole_ne ((r, c, u) ∷ back) post p q b t o =
    first-whole_ne back ((q, b, t) ∷ post) p r c u o.1

-- The rest of the manager after a carving.
pub record Carved (mm mm' : MemoryManager) (size addr : ℕ) (items : List Item) : Type 0 where
  pub represents : Represents mm' items
  pub used : mm'.used ≡ store addr size mm.used
  pub maps : mm'.maps ≡ mm.maps
  pub map_addr : mm'.map_addr ≡ mm.map_addr

take_whole-Carved :
    (mm : MemoryManager) (size : ℕ) (back post : List Item) (p a s : ℕ) (h : Blocks)
    → Zipper h back ((p, a, s) ∷ post)
    → mm.free ≡ first (whole back ((p, a, s) ∷ post))
    → Carved mm (take_whole mm p a size h) size a (whole back post)
unfolding take_whole
take_whole-Carved mm size [] post p a s h z head = record {
  represents = record {
    head = ground (arith, head, z.after.0);
    zipper = remove-Zipper h [] post p a s z;
  };
  used = refl;
  maps = refl;
  map_addr = refl;
}
take_whole-Carved mm size ((q, b, t) ∷ back) post p a s h z head = record {
  represents = record {
    head =
        rw (head, first-whole_ne back ((p, a, s) ∷ post) p q b t off)
          (first-whole back ((p, a, s) ∷ post) post q b t);
    zipper = rewind _ ((q, b, t) ∷ back) post (remove-Zipper h _ post p a s z);
  };
  used = refl;
  maps = refl;
  map_addr = refl;
}
  where
    off : Off p ((q, b, t) ∷ back)
    off = (Cross-Off ((q, b, t) ∷ back) post p a s z.cross).0

take_part-Carved :
    (mm : MemoryManager) (size : ℕ) (back post : List Item) (p a s l : ℕ) (h : Blocks)
    → Zipper h back ((p, a, l) ∷ post)
    → mm.free ≡ first (whole back ((p, a, s) ∷ post))
    → a + size < 18446744073709551616
    → Carved mm (take_part mm p a size h) size a (whole back ((p, a + size, l) ∷ post))
unfolding take_part
take_part-Carved mm size back post p a s l h z head bound = record {
  represents = record {
    head = head ∙ first-whole_at back post post p a s (a + size) l;
    zipper = rewind _ back ((p, a + size, l) ∷ post) (
        subst
          (λ (n : ℕ × ℕ).
            Zipper (put p (record (h.cell p) { addr = n.0 }) h) back ((p, a + size, n.1) ∷ post))
          (λ i. (sym sum i, same i))
          (resize-Zipper h back post p a l (a + size) (h.cell p).size z));
  };
  used = refl;
  maps = refl;
  map_addr = refl;
}
  where
    sum : add64 a size ≡ a + size
    sum = omega arith

    same : (h.cell p).size ≡ l
    same = ground (arith, z.after.0)

carve-Carved :
    (mm : MemoryManager) (size : ℕ) (back post : List Item) (p a s : ℕ)
    → Zipper mm.blocks back ((p, a, s) ∷ post)
    → mm.free ≡ first (whole back ((p, a, s) ∷ post))
    → size ≤ s
    → 0 < size
    → a + s < 18446744073709551616
    → ((carve mm p size).0 ≡ a)
      × Carved mm
          (carve mm p size).1
          size
          a
          (if s == size then whole back post else whole back ((p, a + size, s - size) ∷ post))
unfolding carve
carve-Carved mm size back post p a s z head fits pos bound = (
  ap (λ b. b.addr) z.after.0,
  elim (Bool-cases (s == size)) [
    | inl e ↦
        rw (addr, left, e, all (ground arith))
          (take_whole-Carved mm size back post p a (s - size) _ smaller
            (head ∙ first-whole_at back post post p a s a (s - size)))
    | inr ne ↦
        rw (addr, left, ne, some_left (ground arith))
          (take_part-Carved mm size back post p a s (s - size) _ smaller head (omega arith))
  ],
)
  where
    addr : (mm.blocks.cell p).addr ≡ a
    addr = ap (λ b. b.addr) z.after.0

    left : sub64 (mm.blocks.cell p).size size ≡ s - size
    left = rw z.after.0 (omega arith)

    smaller :
        Zipper
          (put p (record (mm.blocks.cell p) { addr = a; size = s - size }) mm.blocks)
          back
          ((p, a, s - size) ∷ post)
    smaller = resize-Zipper mm.blocks back post p a s a (s - size) z

    all : s ≡ size → (s - size == 0) ≡ true
    all e = ground arith

    some_left : s ≢ size → (s - size == 0) ≡ false
    some_left e = ground arith

-- What the loop finds is the first fit.
abbrev pub Finds :
    MemoryManager → ℕ → Option (ℕ × List Item) → Option (Option (ℕ × MemoryManager)) → Type 0
Finds mm size none r = r ≡ some none
Finds mm size (some (addr, items)) r =
    (mm' : MemoryManager) × (r ≡ some (some (addr, mm'))) × Carved mm mm' size addr items

pub scan-Finds :
    (fuel : ℕ) (mm : MemoryManager) (size hi : ℕ) (back post : List Item)
    → Zipper mm.blocks back post
    → mm.free ≡ first (whole back post)
    → length post < fuel
    → 0 < size
    → IsFalling hi post
    → hi < 18446744073709551616
    → Finds mm size (first_fit size back post) (scan fuel mm (first post) size)
unfolding scan first_fit
scan-Finds zero mm size hi back post z head enough pos falls bound = absurd (omega arith)
scan-Finds (suc fuel) mm size hi back [] z head enough pos falls bound = refl
scan-Finds (suc fuel) mm size hi back ((p, a, s) ∷ post) z head enough pos falls bound =
    rw z.after.0 (elim (Bool-cases (leb size s)) [
      | inl fits ↦
          let found =
            carve-Carved mm size back post p a s z head (leb→le size s fits) pos (omega arith) in
          rw fits
            ((carve mm p size).1, ap (λ n. some (some (n, (carve mm p size).1))) found.0, found.1)
      | inr short ↦ rw short (
          scan-Finds fuel mm size a ((p, a, s) ∷ back) post (shift mm.blocks back post p a s z) head
            (omega arith) pos falls.2 (omega arith))
    ])
