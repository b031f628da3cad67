-- ===== src/Mem/Blocks.antt =====
-- The free list of internal/debugger/mem.go: `memBlock`, a doubly linked list, on an explicit store.
-- A pointer is a number, nil is `none`, and `blockPool` is the list of the blocks put back; `Get`
-- takes the last of them, and makes a new block when there is none.
pub mod Chain
mod Loose
pub mod Links
pub mod Unlink
use microdbg.Base.{ℕ, suc, ◌+◌, Option, none, some, List, [], ◌∷◌, ◌==◌, if◌then◌else◌}
use microdbg.Word.{add64}

pub record Block : Type 0 where
  pub addr : ℕ
  pub size : ℕ
  pub prev : Option ℕ
  pub next : Option ℕ

pub record Blocks : Type 0 where
  pub cell : ℕ → Block
  pub pool : List ℕ
  pub fresh : ℕ

abbrev pub zero_block : Block
zero_block = record { addr = 0; size = 0; prev = none; next = none }

abbrev pub update : (ℕ → Block) → ℕ → Block → ℕ → Block
update cell p b q = if q == p then b else cell q

-- `p.field = …` through a pointer
abbrev pub put : ℕ → Block → Blocks → Blocks
put p b h = record h { cell = update h.cell p b }

abbrev pub put_next : Option ℕ → Option ℕ → Blocks → Blocks
put_next none next h = h
put_next (some p) next h = put p (record (h.cell p) { next = next }) h

abbrev pub put_prev : Option ℕ → Option ℕ → Blocks → Blocks
put_prev none prev h = h
put_prev (some p) prev h = put p (record (h.cell p) { prev = prev }) h

-- `blockPool.Get()`
abbrev pub get_from : List ℕ → Blocks → ℕ × Blocks
get_from (p ∷ pool) h = (p, record h { pool = pool })
get_from [] h = (h.fresh, record h { cell = update h.cell h.fresh zero_block; fresh = suc h.fresh })

unfoldable pub get : Blocks → ℕ × Blocks
get h = get_from h.pool h

-- The links that `InsertAfter` makes for the new block `b`: the list runs downwards, and the block
-- after a block in the order of addresses stands before it in the list.
abbrev pub link_above : Option ℕ → ℕ → ℕ → Blocks → Blocks
link_above before m b h =
    let h1 = put b (record (h.cell b) { prev = before }) h in
    let h2 = put_next before (some b) h1 in put m (record (h2.cell m) { prev = some b }) h2

abbrev pub link_after : Option ℕ → ℕ → Blocks → Blocks
link_after none b h = h
link_after (some m) b h = link_above (h.cell m).prev m b h

unfoldable pub insert_after : Option ℕ → ℕ → ℕ → Blocks → ℕ × Blocks
unfolding get
insert_after mb addr size h =
    let (b, h1) = get h in
    (b, link_after mb b (put b (record (h1.cell b) { addr = addr; size = size; next = mb }) h1))

-- The links that `InsertBefore` makes.
abbrev pub link_below : Option ℕ → ℕ → ℕ → Blocks → Blocks
link_below after m b h =
    let h1 = put b (record (h.cell b) { next = after }) h in
    let h2 = put_prev after (some b) h1 in put m (record (h2.cell m) { next = some b }) h2

abbrev pub link_before : Option ℕ → ℕ → Blocks → Blocks
link_before none b h = h
link_before (some m) b h = link_below (h.cell m).next m b h

unfoldable pub insert_before : Option ℕ → ℕ → ℕ → Blocks → ℕ × Blocks
unfolding get
insert_before mb addr size h =
    let (b, h1) = get h in
    (b, link_before mb b (put b (record (h1.cell b) { addr = addr; size = size; prev = mb }) h1))

-- The links that `Remove` takes away: the two conditions read the block's links again, which the
-- first of them has not changed.
abbrev pub unlink : Option ℕ → Option ℕ → ℕ → Blocks → Blocks
unlink prev next p h =
    let h2 = put_prev next prev (put_next prev next h) in
    let h3 = put p (record (h2.cell p) { prev = none; next = none }) h2 in
    record h3 { pool = p ∷ h3.pool }

unfoldable pub remove : ℕ → Blocks → Blocks
remove p h = unlink (h.cell p).prev (h.cell p).next p h

unfoldable pub end_of : Block → ℕ
end_of b = add64 b.addr b.size
