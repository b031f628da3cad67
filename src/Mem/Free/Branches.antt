-- ===== src/Mem/Free/Branches.antt =====
-- The branches of `memFree` in internal/debugger/mem.go on the list that the free blocks represent.
use microdbg.Base.{ℕ, ◌+◌, ◌<◌, ◌≡◌, refl, ap, some, List, [], ◌∷◌, arith}
use microdbg.Word.{add64}
use microdbg.Mem.Blocks.{Blocks, put, insert_after}
use microdbg.Mem.Blocks.Chain.{Cross-Off, whole, Item, first, block, Zipper, shift, unshift}
use microdbg.Mem.Blocks.Unlink.{write-Zipper, remove-Zipper}
use microdbg.Mem.Blocks.Links.{insert_after-Zipper}
use microdbg.Mem.Manager.{MemoryManager}
use microdbg.Mem.Alloc.Scan.{first-whole, first-whole_ne}
use microdbg.Mem.Free.{insert_above, grow, absorb}

pub grow-Zipper :
    (h : Blocks) (back post : List Item) (p a s size : ℕ)
    → Zipper h back ((p, a, s) ∷ post)
    → s + size < 18446744073709551616
    → Zipper (grow h p size) back ((p, a, s + size) ∷ post)
unfolding grow
grow-Zipper h back post p a s size z bound =
    write-Zipper h back post p a s a (s + size) _ z
      (rw z.after.0 (ap (λ n. block a n (first back) (first post)) sum))
  where
    sum : add64 s size ≡ s + size
    sum = omega arith

pub absorb-Zipper :
    (h : Blocks) (back post : List Item) (q b t p a s size : ℕ)
    → Zipper h ((q, b, t) ∷ back) ((p, a, s) ∷ post)
    → t + (s + size) < 18446744073709551616
    → Zipper (absorb h q p size) ((q, a, t + (s + size)) ∷ back) post
unfolding absorb
absorb-Zipper h back post q b t p a s size z bound = remove-Zipper _ _ post p a s (
    shift _ back ((p, a, s) ∷ post) q a (t + (s + size)) (
      write-Zipper lowered back ((p, a, s) ∷ post) q a t a (t + (s + size)) _ low
        (ground (arith, z.after.0, z.before.0, z.cross.0.0))))
  where
    lowered : Blocks
    lowered = put q (record (h.cell q) { addr = (h.cell p).addr }) h

    low : Zipper lowered back ((q, a, t) ∷ (p, a, s) ∷ post)
    low =
        write-Zipper h back ((p, a, s) ∷ post) q b t a t _ (unshift h back _ q b t z)
          (rw (z.after.0, z.before.0) refl)

-- The walk came to a block below the region, and puts a new block in front of it.
pub insert_above-Zipper :
    (mm : MemoryManager) (back post : List Item) (p a s addr size : ℕ)
    → Zipper mm.blocks back ((p, a, s) ∷ post)
    → mm.free ≡ first (whole back ((p, a, s) ∷ post))
    → let nb = (insert_after (some p) addr size mm.blocks).0 in
      ((insert_above mm p addr size).free
        ≡ first (whole back ((nb, addr, size) ∷ (p, a, s) ∷ post)))
      × Zipper (insert_above mm p addr size).blocks back ((nb, addr, size) ∷ (p, a, s) ∷ post)
unfolding insert_above
insert_above-Zipper mm [] post p a s addr size z head =
    (ground (arith, head), insert_after-Zipper mm.blocks [] post p a s addr size z)
insert_above-Zipper mm ((q, b, t) ∷ back) post p a s addr size z head = (
  rw
      (
        head,
        first-whole_ne back ((p, a, s) ∷ post) p q b t
            (Cross-Off ((q, b, t) ∷ back) post p a s z.cross).0,
      )
      (first-whole back ((p, a, s) ∷ post) _ q b t),
  insert_after-Zipper mm.blocks ((q, b, t) ∷ back) post p a s addr size z,
)
