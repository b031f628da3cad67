-- ===== src/Filesystem/Tree/Outcome.antt =====
-- `Mkdir` of filesystem/virtual.go ends, and what it leaves of the tree, also where it fails.
use microdbg.Base.{
  ℕ, zero, suc, ◌+◌, ◌*◌, ◌≤◌, ◌<◌, ◌≡◌, ◌≢◌, ◌⊎◌, refl, subst, none, some, [], length, Bool-cases,
  Option-cases, inl, inr, arith,
}
use microdbg.Errors.{Error, ok, err, panic}
use microdbg.Filesystem.Paths.{Text, is_empty, split}
use microdbg.Filesystem.Paths.Lengths.{length-split}
use microdbg.Filesystem.Tree.{Node, file_fs, dir_fs, link_fs, Entries, Tree, lookup, sub, is_dir}
use microdbg.Filesystem.Tree.Changes.{Changed, make_dir, go_on, mkdir_in, mkdir_at, mkdir}
use microdbg.Filesystem.Tree.Resolution.{IsNode, IsTree, lookup-AreBelow, not_empty, measure_below}
use microdbg.Filesystem.Tree.Growth.{Grows, Grows-refl, Grows-trans, make_dir-Grows, make_dir-entry}
use microdbg.Filesystem.Tree.Made.{mkdir-Made, sub-Grows}

-- A node or an error, never a panic, and a tree that grew.
abbrev Ended : Tree → Changed ℕ → Type 0
Ended t none = ⊥
Ended t (some (ok d, t')) = Grows t t'
Ended t (some (err e, t')) = Grows t t'
Ended t (some (panic, t')) = ⊥

Ended-trans : (t u : Tree) (o : Changed ℕ) → Grows t u → Ended u o → Ended t o
Ended-trans t u none g h = h
Ended-trans t u (some (ok d, t')) g h = Grows-trans t u t' g h
Ended-trans t u (some (err e, t')) g h = Grows-trans t u t' g h
Ended-trans t u (some (panic, t')) g h = h

-- One node more for each part of the path that is left.
abbrev Suffices : ℕ → ℕ → Tree → ℕ → Text → Type 0
Suffices bound fuel t r path =
    (r < t.next) × (t.next + length path ≤ bound) × (length path * bound + r < fuel)

module _ (bound fuel perm : ℕ)
    (ih : (t : Tree) (r : ℕ) (path : Text)
      → IsTree t
      → Suffices bound fuel t r path
      → Ended t (mkdir fuel t r path perm)) where
  abbrev below : ℕ → Text → Tree → Changed ℕ
  below q other t = mkdir fuel t q other perm

  go_on-Ended :
      (t u : Tree) (v : ℕ) (other : Text)
      → Grows t u
      → (other ≢ [] → Suffices bound fuel u v other)
      → Ended t (go_on other below (v, u))
  go_on-Ended t u v other g enough = elim (Bool-cases (is_empty other)) [
    | inl last ↦ rw last g
    | inr more ↦ rw more (
        Ended-trans t u (mkdir fuel u v other perm) g
          (ih u v other g.tree (enough (not_empty other more))))
  ]

  -- The rest of the path is shorter, and at most one node is new.
  Suffices-below :
      (t u : Tree) (r v : ℕ) (path : Text)
      → Suffices bound (suc fuel) t r path
      → v < u.next
      → u.next ≤ suc t.next
      → (split path).1 ≢ []
      → Suffices bound fuel u v (split path).1
  Suffices-below t u r v path (here, room, enough) exists one more =
      let short = length-split path more in
      (
        exists,
        omega (arith, room, short, one),
        measure_below bound r v fuel (length path) (length (split path).1)
            (omega (arith, room, here)) (omega (arith, room, one, exists, short)) short enough,
      )

  in_dir-Ended :
      (t : Tree) (r : ℕ) (n path : Text) (m : ℕ) (subs : Entries)
      → IsTree t
      → Suffices bound (suc fuel) t r path
      → t.node r ≡ dir_fs n m subs
      → Ended t (mkdir_in r subs (split path) perm t below)
  in_dir-Ended t r n path m subs tree enough at_dir = elim (Bool-cases (is_empty (split path).0)) [
    | inl none' ↦ rw none' (Grows-refl t tree)
    | inr some' ↦ elim (Option-cases (lookup (split path).0 subs)) [
      | inl fresh ↦
          let g = make_dir-Grows t r n (split path).0 m perm subs tree enough.0 at_dir fresh in
          let (at_new, less) =
            make_dir-entry t r n (split path).0 m perm subs tree enough.0 at_dir fresh in
          rw (some', fresh)
            (go_on-Ended t (make_dir r (split path).0 perm t).1 t.next (split path).1 g (
              Suffices-below t (make_dir r (split path).0 perm t).1 r t.next path enough less
                (rw at_dir (omega arith))))
      | inr (v, there) ↦
          let exists : v < t.next =
            lookup-AreBelow t.next (split path).0 subs v
              (subst (λ x. IsNode t.next r x) at_dir (tree r enough.0)) there in
          elim (Bool-cases (is_dir (t.node v))) [
            | inl directory ↦
                rw (some', there, directory)
                  (go_on-Ended t t v (split path).1 (Grows-refl t tree)
                    (Suffices-below t t r v path enough exists (omega arith)))
            | inr other ↦ rw (some', there, other) (Grows-refl t tree)
          ]
    ]
  ]

  step-Ended :
      (t : Tree) (r : ℕ) (path : Text) (x : Node)
      → IsTree t
      → Suffices bound (suc fuel) t r path
      → t.node r ≡ x
      → Ended t (mkdir_at r x path perm t below)
  step-Ended t r path (file_fs n m) tree enough at_r = Grows-refl t tree
  step-Ended t r path (dir_fs n m subs) tree enough at_r =
      in_dir-Ended t r n path m subs tree enough at_r
  step-Ended t r path (link_fs n none) tree enough at_r = Grows-refl t tree
  step-Ended t r path (link_fs n (some q)) tree (here, room, enough) at_r =
      elim (Bool-cases (is_dir (t.node q))) [
        | inl directory ↦
            let older : q < r = subst (λ x. IsNode t.next r x) at_r (tree r here) in
            rw directory
              (ih t q path tree (omega (arith, here, older), room, omega (arith, enough, older)))
        | inr other ↦ rw other (Grows-refl t tree)
      ]

mkdir-Ended :
    (bound fuel perm : ℕ) (t : Tree) (r : ℕ) (path : Text)
    → IsTree t
    → Suffices bound fuel t r path
    → Ended t (mkdir fuel t r path perm)
unfolding mkdir
mkdir-Ended bound zero perm t r path tree (here, room, enough) = absurd (omega (arith, enough))
mkdir-Ended bound (suc fuel) perm t r path tree enough =
    step-Ended bound fuel perm (mkdir-Ended bound fuel perm) t r path (t.node r) tree enough refl

-- Every path that led somewhere leads there still, from every node and with whatever fuel it was found.
abbrev pub KeepsPaths : Tree → Tree → Type 0
KeepsPaths t t' =
    (fuel q v : ℕ) (p : Text)
    → q < t.next
    → sub fuel t q p ≡ some (ok v)
    → sub fuel t' q p ≡ some (ok v)

-- In a tree whose entries exist and whose links lead to older nodes, `Mkdir` with enough fuel ends,
-- without a panic: either it gives a directory, and `Sub` of the same path from the same node finds it
-- in the new tree, or it gives an error. In both cases every path that led somewhere before leads there
-- still, and in the new tree entries exist and links lead to older nodes.
pub mkdir-sub :
    (fuel perm : ℕ) (t : Tree) (r : ℕ) (path : Text)
    → IsTree t
    → r < t.next
    → length path * (t.next + length path) + r < fuel
    → ((d : ℕ) × (t' : Tree) × (mkdir fuel t r path perm ≡ some (ok d, t'))
        × (sub fuel t' r path ≡ some (ok d))
        × KeepsPaths t t'
        × IsTree t')
      ⊎ ((e : Error) × (t' : Tree) × (mkdir fuel t r path perm ≡ some (err e, t'))
          × KeepsPaths t t'
          × IsTree t')
mkdir-sub fuel perm t r path tree here enough =
    outcome (mkdir fuel t r path perm) refl
      (mkdir-Ended (t.next + length path) fuel perm t r path tree (here, omega arith, enough))
  where
    keeps : (t' : Tree) → Grows t t' → KeepsPaths t t'
    keeps t' g given q v p less h = sub-Grows t t' given q v p tree g less h

    outcome :
        (o : Changed ℕ)
        → mkdir fuel t r path perm ≡ o
        → Ended t o
        → ((d : ℕ) × (t' : Tree) × (mkdir fuel t r path perm ≡ some (ok d, t'))
            × (sub fuel t' r path ≡ some (ok d))
            × KeepsPaths t t'
            × IsTree t')
          ⊎ ((e : Error) × (t' : Tree) × (mkdir fuel t r path perm ≡ some (err e, t'))
              × KeepsPaths t t'
              × IsTree t')
    outcome none q h = absurd h
    outcome (some (panic, t')) q h = absurd h
    outcome (some (err e, t')) q g = inr (e, t', q, keeps t' g, g.tree)
    outcome (some (ok d, t')) q g =
        inl (d, t', q, (mkdir-Made fuel perm t t' r d path tree here q).found, keeps t' g, g.tree)
