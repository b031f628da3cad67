-- ===== src/Mem/Blocks/Loose.antt =====
-- A block that `blockPool` of internal/debugger/mem.go hands out.
use microdbg.Base.{ℕ, ◌<◌, ◌≡◌, refl, sym, none, List, [], ◌∷◌, arith}
use microdbg.Mem.Blocks.{Blocks, zero_block, get_from, get}
use microdbg.Mem.Blocks.Chain.{
  Item, Off, Chain-update, Back-update, NotIn, PoolOff, AllMade, Zipper,
}

pub AllMade-mono : (n m : ℕ) (r : List Item) → n < m → AllMade n r → AllMade m r
AllMade-mono n m [] h a = tt
AllMade-mono n m ((p, a, s) ∷ r) h m1 = (omega arith, AllMade-mono n m r h m1.1)

pub AllMade-Off : (n : ℕ) (r : List Item) → AllMade n r → Off n r
AllMade-Off n [] a = tt
AllMade-Off n ((p, a, s) ∷ r) m = (omega arith, AllMade-Off n r m.1)

-- A block that is out of the pool and not yet in the list.
pub record Loose (h : Blocks) (b : ℕ) (back post : List Item) : Type 0 where
  pub zipper : Zipper h back post
  pub off_back : Off b back
  pub off_post : Off b post
  pub made : b < h.fresh
  pub taken : NotIn b h.pool
  pub no_prev : (h.cell b).prev ≡ none
  pub no_next : (h.cell b).next ≡ none

get_from-Loose :
    (h : Blocks) (back post : List Item) (ps : List ℕ)
    → h.pool ≡ ps
    → Zipper h back post
    → Loose (get_from ps h).1 (get_from ps h).0 back post
get_from-Loose h back post [] e z = record {
  zipper = record {
    before = Back-update h.cell h.fresh zero_block _ back (AllMade-Off _ back z.made_back) z.before;
    after = Chain-update h.cell h.fresh zero_block _ post (AllMade-Off _ post z.made_post) z.after;
    distinct_back = z.distinct_back;
    distinct_post = z.distinct_post;
    cross = z.cross;
    made_back = AllMade-mono _ _ back (omega arith) z.made_back;
    made_post = AllMade-mono _ _ post (omega arith) z.made_post;
    pooled = rw e tt;
    idle = rw e tt;
  };
  off_back = AllMade-Off _ back z.made_back;
  off_post = AllMade-Off _ post z.made_post;
  made = omega arith;
  taken = rw e tt;
  no_prev = ground arith;
  no_next = ground arith;
}
get_from-Loose h back post (q ∷ ps) e z =
    let pooled = rw e at z.pooled in
    let idle = rw e at z.idle in
    record {
      zipper = record {
        before = z.before;
        after = z.after;
        distinct_back = z.distinct_back;
        distinct_post = z.distinct_post;
        cross = z.cross;
        made_back = z.made_back;
        made_post = z.made_post;
        pooled = pooled.4;
        idle = idle.2;
      };
      off_back = pooled.1;
      off_post = pooled.2;
      made = pooled.0;
      taken = pooled.3;
      no_prev = idle.0;
      no_next = idle.1;
    }

pub get-Loose :
    (h : Blocks) (back post : List Item) → Zipper h back post → Loose (get h).1 (get h).0 back post
unfolding get
get-Loose h back post z = get_from-Loose h back post h.pool refl z

pub NotIn-of_Off :
    (fresh : ℕ) (ps : List ℕ) (p a s : ℕ) (back post : List Item)
    → PoolOff fresh ps back ((p, a, s) ∷ post)
    → NotIn p ps
NotIn-of_Off fresh [] p a s back post o = tt
NotIn-of_Off fresh (q ∷ ps) p a s back post o =
    ((λ e. o.2.0 (sym e)), NotIn-of_Off fresh ps p a s back post o.4)

pub NotIn-of_Off_back :
    (fresh : ℕ) (ps : List ℕ) (p a s : ℕ) (back post : List Item)
    → PoolOff fresh ps ((p, a, s) ∷ back) post
    → NotIn p ps
NotIn-of_Off_back fresh [] p a s back post o = tt
NotIn-of_Off_back fresh (q ∷ ps) p a s back post o =
    ((λ e. o.1.0 (sym e)), NotIn-of_Off_back fresh ps p a s back post o.4)

pub PoolOff-cons :
    (fresh : ℕ) (ps : List ℕ) (b a s : ℕ) (back post : List Item)
    → NotIn b ps
    → PoolOff fresh ps back post
    → PoolOff fresh ps back ((b, a, s) ∷ post)
PoolOff-cons fresh [] b a s back post n o = tt
PoolOff-cons fresh (q ∷ ps) b a s back post n o =
    (o.0, o.1, ((λ e. n.0 (sym e)), o.2), o.3, PoolOff-cons fresh ps b a s back post n.1 o.4)

pub PoolOff-cons_back :
    (fresh : ℕ) (ps : List ℕ) (b a s : ℕ) (back post : List Item)
    → NotIn b ps
    → PoolOff fresh ps back post
    → PoolOff fresh ps ((b, a, s) ∷ back) post
PoolOff-cons_back fresh [] b a s back post n o = tt
PoolOff-cons_back fresh (q ∷ ps) b a s back post n o =
    (o.0, ((λ e. n.0 (sym e)), o.1), o.2, o.3, PoolOff-cons_back fresh ps b a s back post n.1 o.4)
