-- ===== src/Mem/Free/Loop.antt =====
-- The whole loop of `memFree` in internal/debugger/mem.go.
use microdbg.Base.{
  ℕ, zero, suc, ◌+◌, ◌≤◌, ◌<◌, ◌≡◌, refl, ◌⊎◌, inl, inr, some, List, [], ◌∷◌, arith, ltb, ltb→lt,
  ltb_false→le, Bool-cases, length, ◌==◌, ==_iff,
}
use microdbg.Word.{add64}
use microdbg.Errors.{ok, panic}
use microdbg.Mem.Blocks.{end_of}
use microdbg.Mem.Blocks.Chain.{Item, first, shift, whole}
use microdbg.Mem.Manager.{MemoryManager}
use microdbg.Mem.Alloc.Fit.{IsRising, IsRising-mono, IsRising-le}
use microdbg.Mem.Free.{merge, after_last, walk}
use microdbg.Mem.Free.Walk.{
  Joins, Position, grow-Joined, absorb-Joined, insert-Joined, last-Joins, end_lem,
}

module _ (mm : MemoryManager) (hi addr size : ℕ) where
  -- The branch at a block that ends where the region begins.
  merge-Joins :
      (mid : ℕ) (back post : List Item) (p a s : ℕ)
      → Position mm hi mid addr size back ((p, a, s) ∷ post)
      → a + s ≡ addr
      → Joins mm hi addr size
          (whole back ((p, a, s) ∷ post))
          (some (ok tt, record mm { blocks = merge mm.blocks (first back) p (addr + size) size }))
  unfolding merge
  merge-Joins mid [] post p a s c e =
      (_, _, refl, grow-Joined mm hi mid addr size [] post p a s c e)
  merge-Joins mid ((q, b, t) ∷ back) post p a s c e = elim (Bool-cases (b == addr + size)) [
    | inl f ↦ (
      _,
      _,
      rw (c.zipper.before.0, f) refl,
      absorb-Joined mm hi mid addr size back post q b t p a s c e ((==_iff b (addr + size)).0 f),
    )
    | inr ne ↦ (
      _,
      _,
      rw (c.zipper.before.0, ne) refl,
      grow-Joined mm hi mid addr size ((q, b, t) ∷ back) post p a s c e,
    )
  ]

  -- The next position: the block lies above the region.
  next-Position :
      (mid : ℕ) (back post : List Item) (p a s : ℕ)
      → Position mm hi mid addr size back ((p, a, s) ∷ post)
      → addr + size ≤ a
      → Position mm hi a addr size ((p, a, s) ∷ back) post
  next-Position mid back post p a s c h = record {
    zipper = shift mm.blocks back post p a s c.zipper;
    head = c.head;
    above = (h, c.falls.1, up);
    rises = (omega arith, c.falls.1, up);
    falls = c.falls.2;
    clear = λ x. ground (arith, c.clear x);
    positive = c.positive;
    fits = c.fits;
    top = c.top;
  }
    where
      up : IsRising (a + s) hi back
      up = IsRising-mono (a + s) mid hi back c.falls.0 c.rises

  -- The loop in front of a block, from what it does behind it.
  step-Joins :
      (fuel mid : ℕ) (back post : List Item) (p a s : ℕ)
      → Position mm hi mid addr size back ((p, a, s) ∷ post)
      → (addr + size ≤ a
          → Joins mm hi addr size
              (whole back ((p, a, s) ∷ post))
              (walk fuel mm (some p) (first post) addr size))
      → Joins mm hi addr size
          (whole back ((p, a, s) ∷ post))
          (walk (suc fuel) mm (first back) (some p) addr size)
  unfolding walk end_of
  step-Joins fuel mid back post p a s c go = elim (Bool-cases (a + s == addr)) [
    | inl e ↦
        rw (c.zipper.after.0, ends, stop, e)
          (merge-Joins mid back post p a s c ((==_iff (a + s) addr).0 e))
    | inr ne ↦ elim (Bool-cases (ltb a (addr + size))) [
      | inl lower ↦
          rw (c.zipper.after.0, ends, stop, ne, lower)
            (_, _, refl, insert-Joined mm hi mid addr size back post p a s c (ltb→lt a _ lower))
      | inr upper ↦ rw (c.zipper.after.0, ends, stop, ne, upper) (go (ltb_false→le a _ upper))
    ]
  ]
    where
      ends : add64 a s ≡ a + s
      ends = omega (arith, c.falls.0, IsRising-le mid hi back c.rises, c.top)

      stop : add64 addr size ≡ addr + size
      stop = end_lem mm hi mid addr size c.fits c.top

  -- With enough fuel the loop ends: by a panic if there is no free block at all, and else with the
  -- region in the free list.
  pub walk-Joins :
      (fuel mid : ℕ) (back post : List Item)
      → Position mm hi mid addr size back post
      → length post < fuel
      → ((back ≡ [])
          × (post ≡ [])
          × (walk fuel mm (first back) (first post) addr size ≡ some (panic, mm)))
        ⊎ Joins mm hi addr size (whole back post) (walk fuel mm (first back) (first post) addr size)
  unfolding walk after_last
  walk-Joins zero mid back post c enough = absurd (omega arith)
  walk-Joins (suc fuel) mid [] [] c enough = inl (refl, refl, refl)
  walk-Joins (suc fuel) mid ((p, a, s) ∷ back) [] c enough =
      inr (last-Joins mm hi mid addr size back p a s c)
  walk-Joins (suc fuel) mid back ((p, a, s) ∷ post) c enough = inr (
      step-Joins fuel mid back post p a s c λ h. later (
        walk-Joins fuel a ((p, a, s) ∷ back) post (next-Position mid back post p a s c h)
          (omega arith)))
    where
      later :
          (((p, a, s) ∷ back ≡ [])
              × (post ≡ [])
              × (walk fuel mm (some p) (first post) addr size ≡ some (panic, mm)))
            ⊎ Joins mm hi addr size
                (whole back ((p, a, s) ∷ post))
                (walk fuel mm (some p) (first post) addr size)
          → Joins mm hi addr size
              (whole back ((p, a, s) ∷ post))
              (walk fuel mm (some p) (first post) addr size)
      later (inl (e, _, _)) = absurd (cc)
      later (inr j) = j
