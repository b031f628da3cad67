-- ===== src/Filesystem/Tree/Made.antt =====
-- What `Mkdir` of filesystem/virtual.go makes is found, and what was found before is found after.
use microdbg.Base.{
  ℕ, zero, suc, ◌<◌, ◌≡◌, refl, ap, sym, subst, ◌∙◌, false, Option, none, some, ◌∷◌, if◌then◌else◌,
  Bool-cases, Option-cases, inl, inr, arith,
}
use microdbg.Errors.{Error, Result, ok, err, panic, invalid, not_exist}
use microdbg.Filesystem.Paths.{Text, is_empty, split}
use microdbg.Filesystem.Tree.{
  Node, file_fs, dir_fs, link_fs, Entries, Tree, lookup, sub_in, sub_at, sub, is_dir,
}
use microdbg.Filesystem.Tree.Changes.{Changed, make_dir, go_on, mkdir_in, mkdir_at, mkdir}
use microdbg.Filesystem.Tree.Resolution.{AreBelow, IsNode, IsTree, lookup-AreBelow}
use microdbg.Filesystem.Tree.Growth.{
  Keeps, Extends, Grows, Grows-refl, Grows-trans, make_dir-Grows, make_dir-entry, lookup-first,
}

-- Directories were made: the tree grew, and the last of them is where the path leads.
pub record Made (t : Tree) (fuel r : ℕ) (path : Text) (d : ℕ) (t' : Tree) : Type 0 where
  pub grown : Grows t t'
  pub found : sub fuel t' r path ≡ some (ok d)

refused :
    (t t' : Tree) (d : ℕ) (o : Changed ℕ) → o ≡ some (err invalid, t) → o ≡ some (ok d, t') → ⊥
refused t t' d o p q = ground arith

abbrev node_or : ℕ → Changed ℕ → ℕ
node_or d none = d
node_or d (some (ok v, t)) = v
node_or d (some (err e, t)) = d
node_or d (some (panic, t)) = d

abbrev tree_or : Tree → Changed ℕ → Tree
tree_or t none = t
tree_or t (some (r, u)) = u

-- One outcome has one node and one tree.
same_outcome :
    (t t' : Tree) (v d : ℕ) (o : Changed ℕ)
    → o ≡ some (ok v, t)
    → o ≡ some (ok d, t')
    → (v ≡ d) × (t ≡ t')
same_outcome t t' v d o p q =
    let e : ◌≡◌ {A = Changed ℕ} (some (ok v, t)) (some (ok d, t')) = sym p ∙ q in
    (ap (node_or d) e, ap (tree_or t) e)

-- Through an entry of a directory, a path leads where the rest of it does.
through :
    (u : Tree) (fuel r v : ℕ) (n path : Text) (m : ℕ) (subs : Entries) (o : Option (Result ℕ))
    → u.node r ≡ dir_fs n m subs
    → lookup (split path).0 subs ≡ some v
    → is_empty (split path).0 ≡ false
    → (if is_empty (split path).1 then some (ok v) else sub fuel u v (split path).1) ≡ o
    → sub (suc fuel) u r path ≡ o
unfolding sub
through u fuel r v n path m subs o e l some' rest = rw (e, some', l) rest

module _ (fuel perm : ℕ)
    (ih : (t t' : Tree) (r d : ℕ) (path : Text)
      → IsTree t
      → r < t.next
      → mkdir fuel t r path perm ≡ some (ok d, t')
      → Made t fuel r path d t') where
  -- From an entry on, which is there in `u`.
  entered :
      (t u t' : Tree) (r v d : ℕ) (n path : Text) (m : ℕ) (subs : Entries)
      → Grows t u
      → r < u.next
      → v < u.next
      → u.node r ≡ dir_fs n m subs
      → lookup (split path).0 subs ≡ some v
      → is_empty (split path).0 ≡ false
      → go_on (split path).1 (λ q other w. mkdir fuel w q other perm) (v, u) ≡ some (ok d, t')
      → Made t (suc fuel) r path d t'
  entered t u t' r v d n path m subs g here exists at_dir l some' e =
      elim (Bool-cases (is_empty (split path).1)) [
        | inl last ↦
            let (p, s) = same_outcome u t' v d _ (rw last refl) e in
            record {
              grown = subst (λ (w : Tree). Grows t w) s g;
              found =
                  subst (λ (w : Tree). sub (suc fuel) w r path ≡ some (ok d)) s
                    (through u fuel r v n path m subs (some (ok d)) at_dir l some'
                      (rw (last, p) refl));
            }
        | inr more ↦
            let q : mkdir fuel u v (split path).1 perm ≡ some (ok d, t') = rw more at e in
            let below = ih u t' v d (split path).1 g.tree exists q in
            let (subs', e', keep) : Extends (dir_fs n m subs) (t'.node r) =
              subst (λ x. Extends x (t'.node r)) at_dir (below.grown.keeps r here) in
            record {
              grown = Grows-trans t u t' g below.grown;
              found =
                  through t' fuel r v n path m subs' (some (ok d)) e' (keep (split path).0 v l)
                    some' (rw more below.found);
            }
      ]

  in_dir :
      (t t' : Tree) (r d : ℕ) (n path : Text) (m : ℕ) (subs : Entries)
      → IsTree t
      → r < t.next
      → t.node r ≡ dir_fs n m subs
      → mkdir_in r subs (split path) perm t (λ q other w. mkdir fuel w q other perm)
        ≡ some (ok d, t')
      → Made t (suc fuel) r path d t'
  in_dir t t' r d n path m subs tree here at_dir e = elim (Bool-cases (is_empty (split path).0)) [
    | inl none' ↦ absurd (refused t t' d _ (rw none' refl) e)
    | inr some' ↦ elim (Option-cases (lookup (split path).0 subs)) [
      | inl fresh ↦
          let q : go_on (split path).1 (λ q other w. mkdir fuel w q other perm)
                (make_dir r (split path).0 perm t)
              ≡ some (ok d, t') =
            rw (some', fresh) at e in
          let g = make_dir-Grows t r n (split path).0 m perm subs tree here at_dir fresh in
          let (at_new, less) =
            make_dir-entry t r n (split path).0 m perm subs tree here at_dir fresh in
          entered t (make_dir r (split path).0 perm t).1 t' r t.next d n path m
            (((split path).0, t.next) ∷ subs) g (omega (arith, g.more)) less at_new
            (lookup-first (split path).0 t.next subs) some' q
      | inr (v, there) ↦ elim (Bool-cases (is_dir (t.node v))) [
        | inl directory ↦
            let q : go_on (split path).1 (λ q other w. mkdir fuel w q other perm) (v, t)
                ≡ some (ok d, t') =
              rw (some', there, directory) at e in
            entered t t t' r v d n path m subs (Grows-refl t tree) here
              (lookup-AreBelow t.next (split path).0 subs v
                (subst (λ x. IsNode t.next r x) at_dir (tree r here)) there)
              at_dir there some' q
        | inr other ↦ absurd (refused t t' d _ (rw (some', there, other) refl) e)
      ]
    ]
  ]

  through_link :
      (t t' : Tree) (r q d : ℕ) (n path : Text)
      → IsTree t
      → r < t.next
      → t.node r ≡ link_fs n (some q)
      → (if is_dir (t.node q) then mkdir fuel t q path perm else some (err invalid, t))
        ≡ some (ok d, t')
      → Made t (suc fuel) r path d t'
  unfolding sub
  through_link t t' r q d n path tree here at_link e = elim (Bool-cases (is_dir (t.node q))) [
    | inl directory ↦
        let older : q < r = subst (λ x. IsNode t.next r x) at_link (tree r here) in
        let below = ih t t' q d path tree (omega arith) (rw directory at e) in
        let same' : t'.node r ≡ link_fs n (some q) =
          subst (λ x. Extends x (t'.node r)) at_link (below.grown.keeps r here) in
        record { grown = below.grown; found = rw same' below.found }
    | inr other ↦ absurd (refused t t' d _ (rw other refl) e)
  ]

  -- One step, from the node that stands at `r`.
  step-Made :
      (t t' : Tree) (r d : ℕ) (path : Text) (x : Node)
      → IsTree t
      → r < t.next
      → t.node r ≡ x
      → mkdir_at r x path perm t (λ q other w. mkdir fuel w q other perm) ≡ some (ok d, t')
      → Made t (suc fuel) r path d t'
  step-Made t t' r d path (file_fs n m) tree here at_r e = absurd (refused t t' d _ refl e)
  step-Made t t' r d path (dir_fs n m subs) tree here at_r e =
      in_dir t t' r d n path m subs tree here at_r e
  step-Made t t' r d path (link_fs n none) tree here at_r e = absurd (refused t t' d _ refl e)
  step-Made t t' r d path (link_fs n (some q)) tree here at_r e =
      through_link t t' r q d n path tree here at_r e

pub mkdir-Made :
    (fuel perm : ℕ) (t t' : Tree) (r d : ℕ) (path : Text)
    → IsTree t
    → r < t.next
    → mkdir fuel t r path perm ≡ some (ok d, t')
    → Made t fuel r path d t'
unfolding mkdir
mkdir-Made zero perm t t' r d path tree here e = absurd (ground arith)
mkdir-Made (suc fuel) perm t t' r d path tree here e =
    step-Made fuel perm (mkdir-Made fuel perm) t t' r d path (t.node r) tree here refl e

-- What an entry leads to, it leads to after the tree grew.
module _ (t t' : Tree) (fuel : ℕ) (tree : IsTree t)
    (ih : (r v : ℕ) (path : Text)
      → r < t.next
      → sub fuel t r path ≡ some (ok v)
      → sub fuel t' r path ≡ some (ok v)) where
  kept_in :
      (r v : ℕ) (n path : Text) (m : ℕ) (subs subs' : Entries)
      → AreBelow t.next subs
      → Keeps subs subs'
      → t'.node r ≡ dir_fs n m subs'
      → sub_in subs (split path) (λ q rest. sub fuel t q rest) ≡ some (ok v)
      → sub (suc fuel) t' r path ≡ some (ok v)
  kept_in r v n path m subs subs' below keep at_dir e =
      elim (Bool-cases (is_empty (split path).0)) [
        | inl none' ↦ absurd (nothing v _ invalid (rw none' refl) e)
        | inr some' ↦ elim (Option-cases (lookup (split path).0 subs)) [
          | inl missing ↦ absurd (nothing v _ not_exist (rw (some', missing) refl) e)
          | inr (q, there) ↦
              through t' fuel r q n path m subs' (some (ok v)) at_dir (keep (split path).0 q there)
                some'
                (elim (Bool-cases (is_empty (split path).1)) [
                  | inl last ↦ rw last (rw (some', there, last) at e)
                  | inr more ↦ rw more (
                      ih q v (split path).1
                        (lookup-AreBelow t.next (split path).0 subs q below there)
                        (rw (some', there, more) at e))
                ])
        ]
      ]
    where
      nothing : (w : ℕ) (o : Option (Result ℕ)) (x : Error) → o ≡ some (err x) → o ≡ some (ok w) → ⊥
      nothing w o x p q = ground arith

  kept_at :
      (r v : ℕ) (path : Text) (x : Node)
      → IsNode t.next r x
      → r < t.next
      → Extends x (t'.node r)
      → sub_at x path (λ q name. sub fuel t q name) ≡ some (ok v)
      → sub (suc fuel) t' r path ≡ some (ok v)
  unfolding sub
  kept_at r v path (file_fs n m) h here ext e = absurd (ground arith)
  kept_at r v path (dir_fs n m subs) h here (subs', at_dir, keep) e =
      kept_in r v n path m subs subs' h keep at_dir e
  kept_at r v path (link_fs n none) h here ext e = absurd (ground arith)
  kept_at r v path (link_fs n (some q)) h here ext e = rw ext (ih q v path (omega arith) e)

pub sub-Grows :
    (t t' : Tree) (fuel r v : ℕ) (path : Text)
    → IsTree t
    → Grows t t'
    → r < t.next
    → sub fuel t r path ≡ some (ok v)
    → sub fuel t' r path ≡ some (ok v)
unfolding sub
sub-Grows t t' zero r v path tree g here e = absurd (ground arith)
sub-Grows t t' (suc fuel) r v path tree g here e =
    kept_at t t' fuel tree (λ q w p less h. sub-Grows t t' fuel q w p tree g less h) r v path
      (t.node r) (tree r here) here (g.keeps r here) e
