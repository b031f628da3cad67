-- ===== src/Filesystem/Tree/Growth.antt =====
-- How the tree of filesystem/virtual.go grows: what was there stays, and the tree stays well-formed.
use Prim.Native.Nat.{bit_or}
use microdbg.Base.{
  ℕ, suc, ◌≤◌, ◌<◌, ◌≡◌, refl, sym, subst, true, false, none, some, [], ◌∷◌, ◌==◌, Bool-cases, inl,
  inr, arith,
}
use microdbg.Filesystem.Paths.{Text, same}
use microdbg.Filesystem.Tree.{
  Node, file_fs, dir_fs, link_fs, Entries, Tree, lookup, set_node, mode_dir,
}
use microdbg.Filesystem.Tree.Changes.{make_dir}
use microdbg.Filesystem.Tree.Resolution.{AreBelow, IsNode, IsTree}

-- Entries that were there are there.
abbrev pub Keeps : Entries → Entries → Type 0
Keeps es es' = (k : Text) (v : ℕ) → lookup k es ≡ some v → lookup k es' ≡ some v

-- A directory may have more entries; all else is as it was.
abbrev pub Extends : Node → Node → Type 0
Extends (file_fs n m) x = x ≡ file_fs n m
Extends (dir_fs n m subs) x = (subs' : Entries) × (x ≡ dir_fs n m subs') × Keeps subs subs'
Extends (link_fs n q) x = x ≡ link_fs n q

pub record Grows (t t' : Tree) : Type 0 where
  pub more : t.next ≤ t'.next
  pub tree : IsTree t'
  pub keeps : (r : ℕ) → r < t.next → Extends (t.node r) (t'.node r)

Extends-refl : (x : Node) → Extends x x
Extends-refl (file_fs n m) = refl
Extends-refl (dir_fs n m subs) = (subs, refl, λ k v e. e)
Extends-refl (link_fs n q) = refl

Extends-trans : (x y z : Node) → Extends x y → Extends y z → Extends x z
Extends-trans (file_fs n m) y z p q = subst (λ w. Extends w z) p q
Extends-trans (link_fs n o) y z p q = subst (λ w. Extends w z) p q
Extends-trans (dir_fs n m subs) y z (subs', e, keep) q =
    let (subs'', e', keep') : Extends (dir_fs n m subs') z = subst (λ w. Extends w z) e q in
    (subs'', e', λ k v h. keep' k v (keep k v h))

pub Grows-refl : (t : Tree) → IsTree t → Grows t t
Grows-refl t tree = record {
  more = omega arith;
  tree = tree;
  keeps = λ r less. Extends-refl (t.node r);
}

pub Grows-trans : (t u w : Tree) → Grows t u → Grows u w → Grows t w
Grows-trans t u w g h = record {
  more = omega (arith, g.more, h.more);
  tree = h.tree;
  keeps = λ r less.
      Extends-trans (t.node r) (u.node r) (w.node r) (g.keeps r less)
        (h.keeps r (omega (arith, g.more)));
}

pub AreBelow-more : (n n' : ℕ) (es : Entries) → n ≤ n' → AreBelow n es → AreBelow n' es
AreBelow-more n n' [] le h = tt
AreBelow-more n n' ((k, v) ∷ es) le (below, h) = (omega arith, AreBelow-more n n' es le h)

IsNode-more : (n n' r : ℕ) (x : Node) → n ≤ n' → IsNode n r x → IsNode n' r x
IsNode-more n n' r (file_fs a m) le h = tt
IsNode-more n n' r (dir_fs a m subs) le h = AreBelow-more n n' subs le h
IsNode-more n n' r (link_fs a none) le h = tt
IsNode-more n n' r (link_fs a (some q)) le h = h

same-eq : (p q : Text) → same p q ≡ true → p ≡ q
same-eq [] [] e = refl
same-eq [] (b ∷ bs) e = ground arith
same-eq (a ∷ as') [] e = ground arith
same-eq (a ∷ as') (b ∷ bs) e = ground (arith, same-eq as' bs)

same_refl : (p : Text) → same p p ≡ true
same_refl [] = refl
same_refl (a ∷ as') = ground (arith, same_refl as')

pub lookup-first : (k : Text) (v : ℕ) (es : Entries) → lookup k ((k, v) ∷ es) ≡ some v
unfolding lookup
lookup-first k v es = rw (same_refl k) refl

-- A name that was not there hides nothing.
new-Keeps : (k : Text) (v : ℕ) (es : Entries) → lookup k es ≡ none → Keeps es ((k, v) ∷ es)
unfolding lookup
new-Keeps k v es fresh j w e = elim (Bool-cases (same k j)) [
  | inl found ↦
      let p : k ≡ j = same-eq k j found in
      let q : lookup j es ≡ none = subst (λ x. lookup x es ≡ none) p fresh in absurd (ground arith)
  | inr other ↦ rw other e
]

-- A directory with a new entry, for a node that is new.
module _ (t : Tree) (r : ℕ) (name first : Text) (mode perm : ℕ) (subs : Entries) (tree : IsTree t)
    (here : r < t.next) (is_dir_fs : t.node r ≡ dir_fs name mode subs)
    (fresh : lookup first subs ≡ none) where
  abbrev made : Tree
  made = (make_dir r first perm t).1

  abbrev entry : Node
  entry = dir_fs name mode ((first, t.next) ∷ subs)

  abbrev fresh_dir : Node
  fresh_dir = dir_fs first (bit_or perm mode_dir) []

  abbrev entered : Tree
  entered = set_node r entry (record (set_node t.next fresh_dir t) { next = suc t.next })

  made-eq : made ≡ entered
  made-eq = rw is_dir_fs refl

  subs_below : AreBelow t.next subs
  subs_below = subst (λ x. IsNode t.next r x) is_dir_fs (tree r here)

  entered-IsTree : IsTree entered
  entered-IsTree q less = elim (Bool-cases (q == r)) [
    | inl at_r ↦
        rw at_r (omega arith, AreBelow-more t.next (suc t.next) subs (omega arith) subs_below)
    | inr off_r ↦ rw off_r (elim (Bool-cases (q == t.next)) [
      | inl new' ↦ rw new' tt
      | inr old ↦
          let l : q < t.next = ground arith in
          rw old (IsNode-more t.next (suc t.next) q (t.node q) (omega arith) (tree q l))
    ])
  ]

  entered-Extends : (q : ℕ) → q < t.next → Extends (t.node q) (entered.node q)
  entered-Extends q less = elim (Bool-cases (q == r)) [
    | inl at_r ↦
        let p : r ≡ q = ground arith in
        rw at_r (
          subst (λ (x : ℕ). Extends (t.node x) entry) p
            (subst (λ x. Extends x entry) (sym is_dir_fs)
              ((first, t.next) ∷ subs, refl, new-Keeps first t.next subs fresh)))
    | inr off_r ↦
        let old : (q == t.next) ≡ false = ground arith in rw (off_r, old) (Extends-refl (t.node q))
  ]

  pub make_dir-Grows : Grows t (make_dir r first perm t).1
  make_dir-Grows =
      subst (λ (u : Tree). Grows t u) (sym made-eq)
        (record { more = omega arith; tree = entered-IsTree; keeps = entered-Extends })

  pub make_dir-entry :
      ((make_dir r first perm t).1.node r ≡ dir_fs name mode ((first, t.next) ∷ subs))
      × (t.next < (make_dir r first perm t).1.next)
  make_dir-entry =
      subst (λ (u : Tree). (u.node r ≡ entry) × (t.next < u.next)) (sym made-eq)
        (rw at_r refl, omega arith)
    where
      at_r : (r == r) ≡ true
      at_r = ground arith
