-- ===== src/Filesystem/Tree/Resolution.antt =====
-- Looking a path up in the tree of filesystem/virtual.go ends, through directories and links.
use microdbg.Base.{
  ℕ, zero, suc, ◌+◌, ◌-◌, ◌*◌, ◌<◌, ◌≡◌, ◌≢◌, refl, false, Option, none, some, [], ◌∷◌, length,
  if◌then◌else◌, Bool-cases, inl, inr, arith,
}
use microdbg.Errors.{Result, ok, err, panic, not_exist}
use microdbg.Filesystem.Paths.{Text, same, is_empty, split}
use microdbg.Filesystem.Paths.Lengths.{length-split}
use microdbg.Filesystem.Tree.{
  Node, file_fs, dir_fs, link_fs, Entries, Tree, lookup, at_entry, sub_in, sub_at, sub,
}

-- Every entry leads to one of the first `n` nodes.
abbrev pub AreBelow : ℕ → Entries → Type 0
AreBelow n [] = Unit {0}
AreBelow n ((k, v) ∷ es) = (v < n) × AreBelow n es

-- The entries of a directory exist, and a link leads to a node that is older than itself.
abbrev pub IsNode : ℕ → ℕ → Node → Type 0
IsNode n r (file_fs name mode) = Unit {0}
IsNode n r (dir_fs name mode subs) = AreBelow n subs
IsNode n r (link_fs name none) = Unit {0}
IsNode n r (link_fs name (some q)) = q < r

abbrev pub IsTree : Tree → Type 0
IsTree t = (r : ℕ) → r < t.next → IsNode t.next r (t.node r)

pub lookup-AreBelow :
    (n : ℕ) (k : Text) (es : Entries) (v : ℕ) → AreBelow n es → lookup k es ≡ some v → v < n
unfolding lookup
lookup-AreBelow n k [] v h e = ground arith
lookup-AreBelow n k ((j, q) ∷ es) v (below, h) e = elim (Bool-cases (same j k)) [
  | inl found ↦ let p : some q ≡ some v = rw found at e in ground arith
  | inr other ↦ lookup-AreBelow n k es v h (rw other at e)
]

-- The outcome of a look-up that ended: a node that exists, or an error.
abbrev pub Ended : ℕ → Option (Result ℕ) → Type 0
Ended n none = ⊥
Ended n (some (ok v)) = v < n
Ended n (some (err e)) = Unit {0}
Ended n (some panic) = ⊥

pub not_empty : (name : Text) → is_empty name ≡ false → name ≢ []
not_empty [] e q = cc
not_empty (c ∷ cs) e q = ground arith

sub_entry-Ended :
    (n : ℕ) (dir other : Text) (below : ℕ → Text → Option (Result ℕ)) (o : Option ℕ)
    → ((v : ℕ) → o ≡ some v → v < n)
    → ((v : ℕ) → v < n → other ≢ [] → Ended n (below v other))
    → Ended n (
        at_entry o
          (some (err not_exist))
          (λ v. if is_empty other then some (ok v) else below v other))
sub_entry-Ended n dir other below none there ih = tt
sub_entry-Ended n dir other below (some v) there ih = elim (Bool-cases (is_empty other)) [
  | inl last ↦ rw last (there v refl)
  | inr more ↦ rw more (ih v (there v refl) (not_empty other more))
]

sub_in-Ended :
    (n : ℕ) (subs : Entries) (parts : Text × Text) (below : ℕ → Text → Option (Result ℕ))
    → AreBelow n subs
    → ((v : ℕ) → v < n → parts.1 ≢ [] → Ended n (below v parts.1))
    → Ended n (sub_in subs parts below)
sub_in-Ended n subs (first, other) below h ih = elim (Bool-cases (is_empty first)) [
  | inl none' ↦ rw none' tt
  | inr some' ↦ rw some' (
      sub_entry-Ended n first other below (lookup first subs)
        (λ v e. lookup-AreBelow n first subs v h e) ih)
]

pub measure_below :
    (n r v fuel long short : ℕ)
    → r < n
    → v < n
    → short < long
    → long * n + r < suc fuel
    → short * n + v < fuel
measure_below n r v fuel long short hr hv less h =
    let k : long ≡ suc short + (long - suc short) = omega arith in grind (arith, k)

-- Looking a path up ends, in a node that exists or with an error, and never panics, in any tree whose
-- entries exist and whose links lead to older nodes, also where directories hold links that lead back
-- to them. Fuel for every byte of the path at every node, and for the nodes below the first, is enough.
pub sub-Ended :
    (t : Tree) (fuel r : ℕ) (path : Text)
    → IsTree t
    → r < t.next
    → length path * t.next + r < fuel
    → Ended t.next (sub fuel t r path)
unfolding sub
sub-Ended t zero r path tree here enough = absurd (omega arith)
sub-Ended t (suc fuel) r path tree here enough =
    at_it (t.node r) (tree r here) (λ q name h k. sub-Ended t fuel q name tree h k)
  where
    at_it :
        (node : Node)
        → IsNode t.next r node
        → ((q : ℕ) (name : Text)
            → q < t.next
            → length name * t.next + q < fuel
            → Ended t.next (sub fuel t q name))
        → Ended t.next (sub_at node path (λ q name. sub fuel t q name))
    at_it (file_fs name mode) h ih = tt
    at_it (dir_fs name mode subs) h ih =
        sub_in-Ended t.next subs (split path) (λ q rest. sub fuel t q rest) h
          λ v less some'. ih v (split path).1 less (
            measure_below t.next r v fuel (length path) (length (split path).1) here less
              (length-split path some') enough)
    at_it (link_fs name none) h ih = tt
    at_it (link_fs name (some q)) h ih = ih q path (omega arith) (omega arith)
