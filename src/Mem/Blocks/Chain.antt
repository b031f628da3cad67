-- ===== src/Mem/Blocks/Chain.antt =====
-- The list that a store of blocks of internal/debugger/mem.go represents.
use microdbg.Base.{ℕ, ◌<◌, ◌≡◌, ◌≢◌, sym, Option, none, some, List, [], ◌∷◌, arith}
use microdbg.Mem.Blocks.{Block, Blocks, update}

-- A block in the list: its pointer, address and size.
abbrev pub Item : Type 0
Item = ℕ × ℕ × ℕ

abbrev pub first : List Item → Option ℕ
first [] = none
first ((p, a, s) ∷ r) = some p

abbrev pub block : ℕ → ℕ → Option ℕ → Option ℕ → Block
block a s prev next = record { addr = a; size = s; prev = prev; next = next }

-- The blocks from a position on, and those before it from the nearest backwards.
abbrev pub Chain : (ℕ → Block) → Option ℕ → List Item → Type 0
Chain cell prev [] = Unit {0}
Chain cell prev ((p, a, s) ∷ r) = (cell p ≡ block a s prev (first r)) × Chain cell (some p) r

abbrev pub Back : (ℕ → Block) → Option ℕ → List Item → Type 0
Back cell next [] = Unit {0}
Back cell next ((p, a, s) ∷ r) = (cell p ≡ block a s (first r) next) × Back cell (some p) r

-- A pointer that is none of the list's.
abbrev pub Off : ℕ → List Item → Type 0
Off q [] = Unit {0}
Off q ((p, a, s) ∷ r) = (q ≢ p) × Off q r

-- Each block stands in the list once.
abbrev pub Distinct : List Item → Type 0
Distinct [] = Unit {0}
Distinct ((p, a, s) ∷ r) = Off p r × Distinct r

-- Writing to a block off the list leaves the list.
pub Chain-update :
    (cell : ℕ → Block) (q : ℕ) (b : Block) (prev : Option ℕ) (r : List Item)
    → Off q r
    → Chain cell prev r
    → Chain (update cell q b) prev r
Chain-update cell q b prev [] o c = tt
Chain-update cell q b prev ((p, a, s) ∷ r) o c =
    (ground arith, Chain-update cell q b (some p) r o.1 c.1)

pub Back-update :
    (cell : ℕ → Block) (q : ℕ) (b : Block) (next : Option ℕ) (r : List Item)
    → Off q r
    → Back cell next r
    → Back (update cell q b) next r
Back-update cell q b next [] o c = tt
Back-update cell q b next ((p, a, s) ∷ r) o c =
    (ground arith, Back-update cell q b (some p) r o.1 c.1)

-- No block of the first list stands in the second.
abbrev pub Cross : List Item → List Item → Type 0
Cross [] post = Unit {0}
Cross ((p, a, s) ∷ back) post = Off p post × Cross back post

pub Cross-cons :
    (back post : List Item) (p a s : ℕ)
    → Off p back
    → Cross back post
    → Cross back ((p, a, s) ∷ post)
Cross-cons [] post p a s o c = tt
Cross-cons ((q, b, t) ∷ back) post p a s o c =
    ((λ e. o.0 (sym e), c.0), Cross-cons back post p a s o.1 c.1)

pub Cross-Off :
    (back post : List Item) (p a s : ℕ)
    → Cross back ((p, a, s) ∷ post)
    → Off p back × Cross back post
Cross-Off [] post p a s c = (tt, tt)
Cross-Off ((q, b, t) ∷ back) post p a s c =
    let rest = Cross-Off back post p a s c.1 in ((λ e. c.0.0 (sym e), rest.0), (c.0.1, rest.1))

-- The pointers of the pool: made before, free, and each there once.
abbrev pub NotIn : ℕ → List ℕ → Type 0
NotIn q [] = Unit {0}
NotIn q (p ∷ ps) = (q ≢ p) × NotIn q ps

abbrev pub PoolOff : ℕ → List ℕ → List Item → List Item → Type 0
PoolOff fresh [] back post = Unit {0}
PoolOff fresh (q ∷ ps) back post =
    (q < fresh) × Off q back × Off q post × NotIn q ps × PoolOff fresh ps back post

abbrev pub AllMade : ℕ → List Item → Type 0
AllMade fresh [] = Unit {0}
AllMade fresh ((p, a, s) ∷ r) = (p < fresh) × AllMade fresh r

-- A block that was put back has no links.
abbrev pub Idle : (ℕ → Block) → List ℕ → Type 0
Idle cell [] = Unit {0}
Idle cell (q ∷ ps) = ((cell q).prev ≡ none) × ((cell q).next ≡ none) × Idle cell ps

pub Idle-update :
    (cell : ℕ → Block) (p : ℕ) (b : Block) (ps : List ℕ)
    → NotIn p ps
    → Idle cell ps
    → Idle (update cell p b) ps
Idle-update cell p b [] o i = tt
Idle-update cell p b (q ∷ ps) o i = (ground arith, ground arith, Idle-update cell p b ps o.1 i.2)

-- The store represents the list at a position: `back` before it, nearest first, and `post` from it on.
pub record Zipper (h : Blocks) (back post : List Item) : Type 0 where
  pub before : Back h.cell (first post) back
  pub after : Chain h.cell (first back) post
  pub distinct_back : Distinct back
  pub distinct_post : Distinct post
  pub cross : Cross back post
  pub made_back : AllMade h.fresh back
  pub made_post : AllMade h.fresh post
  pub pooled : PoolOff h.fresh h.pool back post
  pub idle : Idle h.cell h.pool

PoolOff-shift :
    (fresh : ℕ) (ps : List ℕ) (p a s : ℕ) (back post : List Item)
    → PoolOff fresh ps back ((p, a, s) ∷ post)
    → PoolOff fresh ps ((p, a, s) ∷ back) post
PoolOff-shift fresh [] p a s back post o = tt
PoolOff-shift fresh (q ∷ ps) p a s back post o =
    (o.0, (o.2.0, o.1), o.2.1, o.3, PoolOff-shift fresh ps p a s back post o.4)

PoolOff-unshift :
    (fresh : ℕ) (ps : List ℕ) (p a s : ℕ) (back post : List Item)
    → PoolOff fresh ps ((p, a, s) ∷ back) post
    → PoolOff fresh ps back ((p, a, s) ∷ post)
PoolOff-unshift fresh [] p a s back post o = tt
PoolOff-unshift fresh (q ∷ ps) p a s back post o =
    (o.0, o.1.1, (o.1.0, o.2), o.3, PoolOff-unshift fresh ps p a s back post o.4)

-- A step along the list and one back.
pub shift :
    (h : Blocks) (back post : List Item) (p a s : ℕ)
    → Zipper h back ((p, a, s) ∷ post)
    → Zipper h ((p, a, s) ∷ back) post
shift h back post p a s z =
    let c = Cross-Off back post p a s z.cross in
    record {
      before = (z.after.0, z.before);
      after = z.after.1;
      distinct_back = (c.0, z.distinct_back);
      distinct_post = z.distinct_post.1;
      cross = (z.distinct_post.0, c.1);
      made_back = (z.made_post.0, z.made_back);
      made_post = z.made_post.1;
      pooled = PoolOff-shift h.fresh h.pool p a s back post z.pooled;
      idle = z.idle;
    }

pub unshift :
    (h : Blocks) (back post : List Item) (p a s : ℕ)
    → Zipper h ((p, a, s) ∷ back) post
    → Zipper h back ((p, a, s) ∷ post)
unshift h back post p a s z = record {
  before = z.before.1;
  after = (z.before.0, z.after);
  distinct_back = z.distinct_back.1;
  distinct_post = (z.cross.0, z.distinct_post);
  cross = Cross-cons back post p a s z.distinct_back.0 z.cross.1;
  made_back = z.made_back.1;
  made_post = (z.made_back.0, z.made_post);
  pooled = PoolOff-unshift h.fresh h.pool p a s back post z.pooled;
  idle = z.idle;
}

-- The whole list of a position.
abbrev pub whole : List Item → List Item → List Item
whole [] post = post
whole ((p, a, s) ∷ back) post = whole back ((p, a, s) ∷ post)

pub rewind :
    (h : Blocks) (back post : List Item) → Zipper h back post → Zipper h [] (whole back post)
rewind h [] post z = z
rewind h ((p, a, s) ∷ back) post z = rewind h back ((p, a, s) ∷ post) (unshift h back post p a s z)
