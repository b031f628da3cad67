-- ===== src/Mem/Blocks/Links.antt =====
-- What `InsertAfter` and `InsertBefore` of internal/debugger/mem.go do to the list that a store
-- represents.
use microdbg.Base.{ℕ, ◌≡◌, none, some, List, [], ◌∷◌, arith}
use microdbg.Mem.Blocks.{
  Blocks, update, put, link_after, link_before, get, insert_after, insert_before,
}
use microdbg.Mem.Blocks.Chain.{
  first, Item, Off, Chain-update, Back-update, Cross, Cross-cons, Cross-Off, NotIn, Idle-update,
  Zipper,
}
use microdbg.Mem.Blocks.Loose.{
  Loose, get-Loose, NotIn-of_Off, NotIn-of_Off_back, PoolOff-cons, PoolOff-cons_back,
}

-- `InsertAfter` puts the new block before the one it is given.
linked_after :
    (h : Blocks) (back post : List Item) (b p a s addr size : ℕ)
    → Loose h b back ((p, a, s) ∷ post)
    → Zipper
        (link_after
          (some p)
          b
          (put b (record (h.cell b) { addr = addr; size = size; next = some p }) h))
        back
        ((b, addr, size) ∷ (p, a, s) ∷ post)
linked_after h [] post b p a s addr size l = rw (at_p) record {
  before = tt;
  after = (
    ground arith,
    (
      ground arith,
      Chain-update _ p _ _ post z.distinct_post.0 (
          Chain-update _ b _ _ post l.off_post.1
            (Chain-update _ b _ _ post l.off_post.1 z.after.1)),
    ),
  );
  distinct_back = tt;
  distinct_post = (l.off_post, z.distinct_post);
  cross = tt;
  made_back = tt;
  made_post = (l.made, z.made_post);
  pooled = PoolOff-cons _ h.pool b addr size [] _ l.taken z.pooled;
  idle =
      Idle-update _ p _ h.pool taken_p
        (Idle-update _ b _ h.pool l.taken (Idle-update _ b _ h.pool l.taken z.idle));
}
  where
    open l use {zipper as z}

    taken_p : NotIn p h.pool
    taken_p = NotIn-of_Off h.fresh h.pool p a s [] post z.pooled

    at_p :
        (update h.cell b (record (h.cell b) { addr = addr; size = size; next = some p }) p).prev
        ≡ none
    at_p = ground arith
linked_after h ((q, c, t) ∷ back) post b p a s addr size l = rw (at_p) record {
  before = (
    ground arith,
    Back-update _ p _ _ back off.0.1 (
        Back-update _ q _ _ back z.distinct_back.0 (
          Back-update _ b _ _ back l.off_back.1
            (Back-update _ b _ _ back l.off_back.1 z.before.1))),
  );
  after = (
    ground arith,
    (
      ground arith,
      Chain-update _ p _ _ post z.distinct_post.0 (
          Chain-update _ q _ _ post z.cross.0.1 (
            Chain-update _ b _ _ post l.off_post.1
              (Chain-update _ b _ _ post l.off_post.1 z.after.1))),
    ),
  );
  distinct_back = z.distinct_back;
  distinct_post = (l.off_post, z.distinct_post);
  cross = Cross-cons ((q, c, t) ∷ back) _ b addr size l.off_back z.cross;
  made_back = z.made_back;
  made_post = (l.made, z.made_post);
  pooled = PoolOff-cons _ h.pool b addr size _ _ l.taken z.pooled;
  idle = Idle-update _ p _ h.pool taken_p (
      Idle-update _ q _ h.pool taken_q
        (Idle-update _ b _ h.pool l.taken (Idle-update _ b _ h.pool l.taken z.idle)));
}
  where
    open l use {zipper as z}

    off : Off p ((q, c, t) ∷ back) × Cross ((q, c, t) ∷ back) post
    off = Cross-Off ((q, c, t) ∷ back) post p a s z.cross

    taken_p : NotIn p h.pool
    taken_p = NotIn-of_Off h.fresh h.pool p a s _ post z.pooled

    taken_q : NotIn q h.pool
    taken_q = NotIn-of_Off_back h.fresh h.pool q c t back _ z.pooled

    at_p :
        (update h.cell b (record (h.cell b) { addr = addr; size = size; next = some p }) p).prev
        ≡ some q
    at_p = ground arith

pub insert_after-Zipper :
    (h : Blocks) (back post : List Item) (p a s addr size : ℕ)
    → Zipper h back ((p, a, s) ∷ post)
    → Zipper
        (insert_after (some p) addr size h).1
        back
        (((insert_after (some p) addr size h).0, addr, size) ∷ (p, a, s) ∷ post)
unfolding insert_after
insert_after-Zipper h back post p a s addr size z =
    linked_after (get h).1 back post (get h).0 p a s addr size (get-Loose h back _ z)

-- In front of an empty list the new block is the list.
pub insert_after_nil-Zipper :
    (h : Blocks) (addr size : ℕ)
    → Zipper h [] []
    → Zipper
        (insert_after none addr size h).1
        []
        (((insert_after none addr size h).0, addr, size) ∷ [])
unfolding insert_after
insert_after_nil-Zipper h addr size z = record {
  before = tt;
  after = (ground (arith, l.no_prev), tt);
  distinct_back = tt;
  distinct_post = (tt, tt);
  cross = tt;
  made_back = tt;
  made_post = (l.made, tt);
  pooled = PoolOff-cons _ _ (get h).0 addr size [] [] l.taken l.zipper.pooled;
  idle = Idle-update _ _ _ _ l.taken l.zipper.idle;
}
  where
    l : Loose (get h).1 (get h).0 [] []
    l = get-Loose h [] [] z

-- `InsertBefore` at the last block puts the new one behind it.
linked_before :
    (h : Blocks) (back : List Item) (b p a s addr size : ℕ)
    → Loose h b ((p, a, s) ∷ back) []
    → Zipper
        (link_before
          (some p)
          b
          (put b (record (h.cell b) { addr = addr; size = size; prev = some p }) h))
        ((b, addr, size) ∷ (p, a, s) ∷ back)
        []
linked_before h back b p a s addr size l = rw at_p record {
  before = (
    ground arith,
    (
      ground arith,
      Back-update _ p _ _ back z.distinct_back.0 (
          Back-update _ b _ _ back l.off_back.1 (Back-update _ b _ _ back l.off_back.1 z.before.1)),
    ),
  );
  after = tt;
  distinct_back = (l.off_back, z.distinct_back);
  distinct_post = tt;
  cross = (tt, z.cross);
  made_back = (l.made, z.made_back);
  made_post = tt;
  pooled = PoolOff-cons_back _ h.pool b addr size _ _ l.taken z.pooled;
  idle =
      Idle-update _ p _ h.pool (NotIn-of_Off_back h.fresh h.pool p a s back [] z.pooled)
        (Idle-update _ b _ h.pool l.taken (Idle-update _ b _ h.pool l.taken z.idle));
}
  where
    open l use {zipper as z}

    at_p :
        (update h.cell b (record (h.cell b) { addr = addr; size = size; prev = some p }) p).next
        ≡ none
    at_p = ground arith

pub insert_before-Zipper :
    (h : Blocks) (back : List Item) (p a s addr size : ℕ)
    → Zipper h ((p, a, s) ∷ back) []
    → Zipper
        (insert_before (some p) addr size h).1
        (((insert_before (some p) addr size h).0, addr, size) ∷ (p, a, s) ∷ back)
        []
unfolding insert_before
insert_before-Zipper h back p a s addr size z =
    linked_before (get h).1 back (get h).0 p a s addr size (get-Loose h _ [] z)

-- The call that `memAlloc` makes: the new block goes to the front, of an empty list too.
pub insert_first-Zipper :
    (h : Blocks) (items : List Item) (addr size : ℕ)
    → Zipper h [] items
    → Zipper
        (insert_after (first items) addr size h).1
        []
        (((insert_after (first items) addr size h).0, addr, size) ∷ items)
insert_first-Zipper h [] addr size z = insert_after_nil-Zipper h addr size z
insert_first-Zipper h ((p, a, s) ∷ items) addr size z =
    insert_after-Zipper h [] items p a s addr size z
