-- ===== src/Mem/Blocks/Unlink.antt =====
-- What `Remove`, and a new address or size, do to the list that a store of internal/debugger/mem.go
-- represents.
use microdbg.Base.{ℕ, ◌≡◌, refl, sym, ap, ◌∙◌, subst, Option, none, some, List, [], ◌∷◌, arith}
use microdbg.Mem.Blocks.{Block, Blocks, put, put_next, put_prev, unlink, remove}
use microdbg.Mem.Blocks.Chain.{
  block, Item, first, Chain, Back, Off, Chain-update, Back-update, Cross, Cross-cons, Cross-Off,
  PoolOff, Idle, Idle-update, Zipper,
}
use microdbg.Mem.Blocks.Loose.{NotIn-of_Off, NotIn-of_Off_back, PoolOff-cons}

PoolOff-drop :
    (fresh : ℕ) (ps : List ℕ) (p a s : ℕ) (back post : List Item)
    → PoolOff fresh ps back ((p, a, s) ∷ post)
    → PoolOff fresh ps back post
PoolOff-drop fresh [] p a s back post o = tt
PoolOff-drop fresh (q ∷ ps) p a s back post o =
    (o.0, o.1, o.2.1, o.3, PoolOff-drop fresh ps p a s back post o.4)

-- A block in the list gets another address and size.
pub resize-Zipper :
    (h : Blocks) (back post : List Item) (p a s addr size : ℕ)
    → Zipper h back ((p, a, s) ∷ post)
    → Zipper
        (put p (record (h.cell p) { addr = addr; size = size }) h)
        back
        ((p, addr, size) ∷ post)
resize-Zipper h back post p a s addr size z = record {
  before = Back-update _ p _ _ back (Cross-Off back post p a s z.cross).0 z.before;
  after = (ground (arith, z.after.0), Chain-update _ p _ _ post z.distinct_post.0 z.after.1);
  distinct_back = z.distinct_back;
  distinct_post = z.distinct_post;
  cross =
      Cross-cons back post p addr size (Cross-Off back post p a s z.cross).0
        (Cross-Off back post p a s z.cross).1;
  made_back = z.made_back;
  made_post = z.made_post;
  pooled =
      PoolOff-cons h.fresh h.pool p addr size back post
        (NotIn-of_Off h.fresh h.pool p a s back post z.pooled)
        (PoolOff-drop h.fresh h.pool p a s back post z.pooled);
  idle = Idle-update _ p _ h.pool (NotIn-of_Off h.fresh h.pool p a s back post z.pooled) z.idle;
}

-- What is left when the links of a block are taken away.
record Left (h : Blocks) (back post : List Item) : Type 0 where
  before : Back h.cell (first post) back
  after : Chain h.cell (first back) post
  idle : Idle h.cell h.pool

-- Each neighbour of the block, if it has one, is written once.
unlink-Left :
    (h : Blocks) (back post : List Item) (p a s : ℕ)
    → Zipper h back ((p, a, s) ∷ post)
    → Left (unlink (first back) (first post) p h) back post
unlink-Left h [] [] p a s z = record {
  before = tt;
  after = tt;
  idle = (
    ground arith,
    ground arith,
    Idle-update _ p _ h.pool (NotIn-of_Off h.fresh h.pool p a s [] [] z.pooled) z.idle,
  );
}
unlink-Left h [] ((r, u, v) ∷ post) p a s z = record {
  before = tt;
  after = (
    ground arith,
    Chain-update _ p _ _ post z.distinct_post.0.1
        (Chain-update _ r _ _ post z.distinct_post.1.0 z.after.1.1),
  );
  idle = (
    ground arith,
    ground arith,
    Idle-update _ p _ h.pool (NotIn-of_Off h.fresh h.pool p a s [] _ z.pooled) (
        Idle-update _ r _ h.pool
          (NotIn-of_Off h.fresh h.pool r u v [] post
            (PoolOff-drop h.fresh h.pool p a s [] _ z.pooled))
          z.idle),
  );
}
unlink-Left h ((q, c, t) ∷ back) [] p a s z = record {
  before = (
    ground arith,
    Back-update _ p _ _ back (Cross-Off back [] p a s z.cross.1).0
        (Back-update _ q _ _ back z.distinct_back.0 z.before.1),
  );
  after = tt;
  idle = (
    ground arith,
    ground arith,
    Idle-update _ p _ h.pool (NotIn-of_Off h.fresh h.pool p a s _ [] z.pooled)
        (Idle-update _ q _ h.pool (NotIn-of_Off_back h.fresh h.pool q c t back _ z.pooled) z.idle),
  );
}
unlink-Left h ((q, c, t) ∷ back) ((r, u, v) ∷ post) p a s z = record {
  before = (
    ground arith,
    Back-update _ p _ _ back off_p.0
        (Back-update _ r _ _ back off_r.0 (Back-update _ q _ _ back z.distinct_back.0 z.before.1)),
  );
  after = (
    ground arith,
    Chain-update _ p _ _ post z.distinct_post.0.1 (
        Chain-update _ r _ _ post z.distinct_post.1.0
          (Chain-update _ q _ _ post z.cross.0.1.1 z.after.1.1)),
  );
  idle = (
    ground arith,
    ground arith,
    Idle-update _ p _ h.pool (NotIn-of_Off h.fresh h.pool p a s _ _ z.pooled) (
        Idle-update _ r _ h.pool
          (NotIn-of_Off h.fresh h.pool r u v _ post
            (PoolOff-drop h.fresh h.pool p a s _ _ z.pooled))
          (Idle-update _ q _ h.pool (NotIn-of_Off_back h.fresh h.pool q c t back _ z.pooled)
            z.idle)),
  );
}
  where
    off_p : Off p back × Cross back ((r, u, v) ∷ post)
    off_p = Cross-Off back ((r, u, v) ∷ post) p a s z.cross.1

    off_r : Off r back × Cross back post
    off_r = Cross-Off back post r u v off_p.1

-- Writing links makes no block, and leaves the pool.
kept :
    (prev next : Option ℕ) (h : Blocks)
    → ((put_prev next prev (put_next prev next h)).fresh ≡ h.fresh)
      × ((put_prev next prev (put_next prev next h)).pool ≡ h.pool)
kept none none h = (refl, refl)
kept none (some r) h = (refl, refl)
kept (some q) none h = (refl, refl)
kept (some q) (some r) h = (refl, refl)

-- `Remove` takes the block out of the list and puts it into the pool.
pub remove-Zipper :
    (h : Blocks) (back post : List Item) (p a s : ℕ)
    → Zipper h back ((p, a, s) ∷ post)
    → Zipper (remove p h) back post
unfolding remove
remove-Zipper h back post p a s z = rw z.after.0 record {
  before = left.before;
  after = left.after;
  distinct_back = z.distinct_back;
  distinct_post = z.distinct_post.1;
  cross = off.1;
  made_back = rw same.0 z.made_back;
  made_post = rw same.0 z.made_post.1;
  pooled =
      subst (λ n. PoolOff n (p ∷ linked.pool) back post) (sym same.0)
        (subst (λ ps. PoolOff h.fresh (p ∷ ps) back post) (sym same.1)
          (
            z.made_post.0,
            off.0,
            z.distinct_post.0,
            NotIn-of_Off h.fresh h.pool p a s back post z.pooled,
            PoolOff-drop h.fresh h.pool p a s back post z.pooled,
          ));
  idle = left.idle;
}
  where
    left : Left (unlink (first back) (first post) p h) back post
    left = unlink-Left h back post p a s z

    off : Off p back × Cross back post
    off = Cross-Off back post p a s z.cross

    linked : Blocks
    linked = put_prev (first post) (first back) (put_next (first back) (first post) h)

    same : (linked.fresh ≡ h.fresh) × (linked.pool ≡ h.pool)
    same = kept (first back) (first post) h

-- A block in the list is written with its own links.
pub write-Zipper :
    (h : Blocks) (back post : List Item) (p a s addr size : ℕ) (c : Block)
    → Zipper h back ((p, a, s) ∷ post)
    → c ≡ block addr size (first back) (first post)
    → Zipper (put p c h) back ((p, addr, size) ∷ post)
write-Zipper h back post p a s addr size c z e =
    subst (λ b. Zipper (put p b h) back ((p, addr, size) ∷ post))
      (ap (λ (b : Block). record b { addr = addr; size = size }) z.after.0 ∙ sym e)
      (resize-Zipper h back post p a s addr size z)
