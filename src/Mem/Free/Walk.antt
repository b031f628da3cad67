-- ===== src/Mem/Free/Walk.antt =====
-- The loop of `memFree` in internal/debugger/mem.go, and what follows it.
use microdbg.Base.{
  ℕ, ◌+◌, ◌≤◌, ◌<◌, max, ◌≡◌, refl, ◌∙◌, inl, inr, ◌&&◌, ◌||◌, Bool, false, Option, none, some,
  List, [], ◌∷◌, arith, Bool-cases, ◌==◌, ==_iff,
}
use microdbg.Word.{add64}
use microdbg.Errors.{Result, ok}
use microdbg.Mem.RegionMap.{within}
use microdbg.Mem.Blocks.{put, insert_after, insert_before}
use microdbg.Mem.Blocks.Chain.{Item, first, block, Zipper, unshift, rewind, whole}
use microdbg.Mem.Blocks.Links.{insert_before-Zipper}
use microdbg.Mem.Blocks.Unlink.{write-Zipper}
use microdbg.Mem.Manager.{MemoryManager}
use microdbg.Mem.Alloc.Scan.{Represents, IsFalling, first-whole, first-whole_at}
use microdbg.Mem.Alloc.Fit.{holds, IsRising, IsRising-le, whole-IsFalling, holds-whole}
use microdbg.Mem.Free.{grow, absorb, insert_above, after_last}
use microdbg.Mem.Free.Branches.{grow-Zipper, absorb-Zipper, insert_above-Zipper}

-- The free list took the region in, and nothing else changed.
pub record Joined (mm mm' : MemoryManager) (hi addr size : ℕ) (old items : List Item) : Type 0 where
  pub represents : Represents mm' items
  pub falls : IsFalling hi items
  pub gains : (x : ℕ) → holds items x ≡ holds old x || within addr size x
  pub used : mm'.used ≡ mm.used
  pub maps : mm'.maps ≡ mm.maps
  pub map_addr : mm'.map_addr ≡ mm.map_addr

abbrev pub Joins :
    MemoryManager → ℕ → ℕ → ℕ → List Item → Option (Result (Unit {0}) × MemoryManager) → Type 0
Joins mm hi addr size old r =
    (mm' : MemoryManager) × (items : List Item) × (r ≡ some (ok tt, mm'))
    × Joined mm mm' hi addr size old items

-- A position of the loop: the blocks passed lie above the region, and no free block meets it.
pub record Position (mm : MemoryManager) (hi mid addr size : ℕ) (back post : List Item)
    : Type 0 where
  pub zipper : Zipper mm.blocks back post
  pub head : mm.free ≡ first (whole back post)
  pub above : IsRising (addr + size) hi back
  pub rises : IsRising mid hi back
  pub falls : IsFalling mid post
  pub clear : (x : ℕ) → (holds back x || holds post x) && within addr size x ≡ false
  pub positive : 0 < size
  pub fits : addr + size ≤ hi
  pub top : hi < 18446744073709551616

-- Three regions in a row are one.
within_joined :
    (a s b t addr size x : ℕ)
    → a + s ≡ addr
    → b ≡ addr + size
    → within a (t + (s + size)) x ≡ (within b t x || within a s x) || within addr size x
within_joined a s b t addr size x e f = ground arith

regroup :
    (before high low new after : Bool)
    → before || (((high || low) || new) || after) ≡ (before || (high || (low || after))) || new
regroup before high low new after = ground arith

module _ (mm : MemoryManager) (hi mid addr size : ℕ) where
  -- The region joins the block below it.
  pub grow-Joined :
      (back post : List Item) (p a s : ℕ)
      → Position mm hi mid addr size back ((p, a, s) ∷ post)
      → a + s ≡ addr
      → Joined mm
          (record mm { blocks = grow mm.blocks p size })
          hi
          addr
          size
          (whole back ((p, a, s) ∷ post))
          (whole back ((p, a, s + size) ∷ post))
  grow-Joined back post p a s c e = record {
    represents = record {
      head = c.head ∙ first-whole_at back post post p a s a (s + size);
      zipper = rewind _ back _ (grow-Zipper mm.blocks back post p a s size c.zipper (omega arith));
    };
    falls =
        whole-IsFalling (addr + size) hi back ((p, a, s + size) ∷ post) c.above
          (omega arith, omega arith, c.falls.2);
    gains = λ x. ground (
      arith,
      holds-whole x back ((p, a, s) ∷ post),
      holds-whole x back ((p, a, s + size) ∷ post),
    );
    used = refl;
    maps = refl;
    map_addr = refl;
  }

  -- The region joins the blocks on both sides of it.
  pub absorb-Joined :
      (back post : List Item) (q b t p a s : ℕ)
      → Position mm hi mid addr size ((q, b, t) ∷ back) ((p, a, s) ∷ post)
      → a + s ≡ addr
      → b ≡ addr + size
      → Joined mm
          (record mm { blocks = absorb mm.blocks q p size })
          hi
          addr
          size
          (whole ((q, b, t) ∷ back) ((p, a, s) ∷ post))
          (whole back ((q, a, t + (s + size)) ∷ post))
  absorb-Joined back post q b t p a s c e f = record {
    represents = record {
      head = c.head ∙ first-whole_at back _ post q b t a (t + (s + size));
      zipper = rewind _ ((q, a, t + (s + size)) ∷ back) post (
          absorb-Zipper mm.blocks back post q b t p a s size c.zipper
            (omega (arith, IsRising-le (b + t) hi back c.above.2)));
    };
    falls =
        whole-IsFalling (b + t) hi back ((q, a, t + (s + size)) ∷ post) c.above.2
          (omega arith, omega arith, c.falls.2);
    gains = λ x.
        rw
          (
            holds-whole x back ((q, b, t) ∷ (p, a, s) ∷ post),
            holds-whole x back ((q, a, t + (s + size)) ∷ post),
            within_joined a s b t addr size x e f,
          )
          (regroup (holds back x) (within b t x) (within a s x) (within addr size x)
            (holds post x));
    used = refl;
    maps = refl;
    map_addr = refl;
  }

  -- The region becomes a block of its own, above one that it does not touch.
  pub insert-Joined :
      (back post : List Item) (p a s : ℕ)
      → Position mm hi mid addr size back ((p, a, s) ∷ post)
      → a < addr + size
      → Joined mm (insert_above mm p addr size) hi addr size (whole back ((p, a, s) ∷ post)) (
          whole back
            (((insert_after (some p) addr size mm.blocks).0, addr, size) ∷ (p, a, s) ∷ post))
  unfolding insert_above
  insert-Joined back post p a s c h = record {
    represents = record { head = made.0; zipper = rewind _ back _ made.1 };
    falls =
        whole-IsFalling (addr + size) hi back (_ ∷ (p, a, s) ∷ post) c.above
          (omega arith, c.positive, (ground (arith, c.clear (max a addr)), c.falls.1, c.falls.2));
    gains = λ x. ground (
      arith,
      holds-whole x back ((p, a, s) ∷ post),
      holds-whole x back
          (((insert_after (some p) addr size mm.blocks).0, addr, size) ∷ (p, a, s) ∷ post),
    );
    used = refl;
    maps = refl;
    map_addr = refl;
  }
    where
      made :
          ((insert_above mm p addr size).free
            ≡ first (
                whole back
                  (((insert_after (some p) addr size mm.blocks).0, addr, size) ∷ (p, a, s) ∷ post)))
          × Zipper
              (insert_above mm p addr size).blocks
              back
              (((insert_after (some p) addr size mm.blocks).0, addr, size) ∷ (p, a, s) ∷ post)
      made = insert_above-Zipper mm back post p a s addr size c.zipper c.head

  -- After the loop the region lies below the last block, which it may touch.
  lower-Joined :
      (back : List Item) (p a s : ℕ)
      → Position mm hi mid addr size ((p, a, s) ∷ back) []
      → a ≡ addr + size
      → Joined mm
          (record mm { blocks = put p (block addr (s + size) (first back) none) mm.blocks })
          hi
          addr
          size
          (whole ((p, a, s) ∷ back) [])
          (whole back ((p, addr, s + size) ∷ []))
  lower-Joined back p a s c e = record {
    represents = record {
      head = c.head ∙ first-whole_at back [] [] p a s addr (s + size);
      zipper = rewind _ back ((p, addr, s + size) ∷ []) (
          write-Zipper mm.blocks back [] p a s addr (s + size) _
            (unshift mm.blocks back [] p a s c.zipper) refl);
    };
    falls =
        whole-IsFalling (a + s) hi back ((p, addr, s + size) ∷ []) c.rises.2
          (omega arith, omega arith, tt);
    gains = λ x.
        ground (
          arith,
          holds-whole x back ((p, a, s) ∷ []),
          holds-whole x back ((p, addr, s + size) ∷ []),
        );
    used = refl;
    maps = refl;
    map_addr = refl;
  }

  below-Joined :
      (back : List Item) (p a s : ℕ)
      → Position mm hi mid addr size ((p, a, s) ∷ back) []
      → Joined mm
          (record mm { blocks = (insert_before (some p) addr size mm.blocks).1 })
          hi
          addr
          size
          (whole ((p, a, s) ∷ back) [])
          (whole
            ((p, a, s) ∷ back)
            (((insert_before (some p) addr size mm.blocks).0, addr, size) ∷ []))
  below-Joined back p a s c = record {
    represents = record {
      head = c.head ∙ first-whole back [] _ p a s;
      zipper =
          rewind _ ((_, addr, size) ∷ (p, a, s) ∷ back) []
            (insert_before-Zipper mm.blocks back p a s addr size c.zipper);
    };
    falls =
        whole-IsFalling (addr + size) hi ((p, a, s) ∷ back) ((_, addr, size) ∷ []) c.above
          (omega arith, c.positive, tt);
    gains = λ x. ground (
      arith,
      holds-whole x back ((p, a, s) ∷ []),
      holds-whole x back
          ((p, a, s) ∷ ((insert_before (some p) addr size mm.blocks).0, addr, size) ∷ []),
    );
    used = refl;
    maps = refl;
    map_addr = refl;
  }

  pub end_lem : addr + size ≤ hi → hi < 18446744073709551616 → add64 addr size ≡ addr + size
  end_lem fits top = omega arith

  pub last-Joins :
      (back : List Item) (p a s : ℕ)
      → Position mm hi mid addr size ((p, a, s) ∷ back) []
      → Joins mm hi addr size
          (whole ((p, a, s) ∷ back) [])
          (some (after_last mm (some p) addr size))
  unfolding after_last
  last-Joins back p a s c = elim (Bool-cases (a == addr + size)) [
    | inl e ↦ (
      _,
      _,
      rw (c.zipper.before.0, end_lem c.fits c.top, sum, e) refl,
      lower-Joined back p a s c ((==_iff a (addr + size)).0 e),
    )
    | inr ne ↦
        (_, _, rw (c.zipper.before.0, end_lem c.fits c.top, ne) refl, below-Joined back p a s c)
  ]
    where
      sum : add64 s size ≡ s + size
      sum = omega (arith, c.fits, c.top, IsRising-le (a + s) hi back c.rises.2, c.above.0)
