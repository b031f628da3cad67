-- ===== src/Filesystem/Tree/Tests.antt =====
-- Runs of the tree of filesystem/virtual.go.
use microdbg.Base.{
  ℕ, ◌≡◌, ◌⊎◌, refl, Option, none, some, [], ◌∷◌, ◌==◌, if◌then◌else◌, Bool-cases, inl, inr, arith,
}
use microdbg.Errors.{Error, Result, ok, err, not_exist}
use microdbg.Filesystem.Paths.{Text, clean, split}
use microdbg.Filesystem.Contents.{o_create}
use microdbg.Filesystem.Tree.{Node, file_fs, dir_fs, link_fs, Tree, sub, mode_dir}
use microdbg.Filesystem.Tree.Changes.{Changed, Opened, mkdir, open_file}
use microdbg.Filesystem.Tree.Resolution.{Ended, IsTree, sub-Ended}
use microdbg.Filesystem.Tree.Outcome.{KeepsPaths, mkdir-sub}

abbrev a : ℕ
a = 97

abbrev b : ℕ
b = 98

abbrev sl : ℕ
sl = 47

-- The root with the directory `a`, which holds a link `b` to the root, and a file `ab`.
abbrev node_of : ℕ → Node
node_of r =
    if r == 0
    then dir_fs [] mode_dir ((a ∷ [], 1) ∷ (a ∷ b ∷ [], 3) ∷ [])
    else if r == 1
    then dir_fs (a ∷ []) mode_dir ((b ∷ [], 2) ∷ [])
    else if r == 2
    then link_fs (sl ∷ []) (some 0)
    else file_fs (a ∷ b ∷ []) 420

abbrev four : Tree
four = record { node = node_of; next = 4; contents = λ r. 1 ∷ 2 ∷ 3 ∷ [] }

four-IsTree : IsTree four
four-IsTree r less = elim (Bool-cases (r == 0)) [
  | inl zeroth ↦ rw zeroth (omega arith, (omega arith, tt))
  | inr more ↦ rw more (elim (Bool-cases (r == 1)) [
    | inl first ↦ rw first (omega arith, tt)
    | inr more' ↦ rw more' (elim (Bool-cases (r == 2)) [
      | inl second ↦ rw second (ground arith)
      | inr third ↦ rw third tt
    ])
  ])
]

-- `/a/./b/../a` is `/a/a`.
clean_example :
    clean (sl ∷ a ∷ sl ∷ 46 ∷ sl ∷ b ∷ sl ∷ 46 ∷ 46 ∷ sl ∷ a ∷ []) ≡ sl ∷ a ∷ sl ∷ a ∷ []
unfolding clean
clean_example = refl

split_example : split (a ∷ sl ∷ b ∷ sl ∷ a ∷ []) ≡ (a ∷ [], b ∷ sl ∷ a ∷ [])
unfolding split clean
split_example = refl

-- `a/b/a`, through the link.
abbrev aba : Text
aba = a ∷ sl ∷ b ∷ sl ∷ a ∷ []

sub-Ended_example : Ended 4 (sub 30 four 0 aba)
sub-Ended_example = sub-Ended four 30 0 aba four-IsTree (omega arith) (omega arith)

sub_test : sub 30 four 0 aba ≡ some (ok 1)
unfolding sub
sub_test = refl

-- `a/b/b/a`: a directory `b` is made in the root, behind the link, and `a` in it.
abbrev abba : Text
abba = a ∷ sl ∷ b ∷ sl ∷ b ∷ sl ∷ a ∷ []

mkdir-sub_example :
    ((d : ℕ) × (t' : Tree) × (mkdir 100 four 0 abba 493 ≡ some (ok d, t'))
      × (sub 100 t' 0 abba ≡ some (ok d))
      × KeepsPaths four t'
      × IsTree t')
    ⊎ ((e : Error) × (t' : Tree) × (mkdir 100 four 0 abba 493 ≡ some (err e, t'))
        × KeepsPaths four t'
        × IsTree t')
mkdir-sub_example = mkdir-sub 100 493 four 0 abba four-IsTree (omega arith) (omega arith)

abbrev found_in : Text → Changed ℕ → Option (Result ℕ)
found_in p none = none
found_in p (some (r, t)) = sub 100 t 0 p

mkdir_test : found_in (b ∷ sl ∷ a ∷ []) (mkdir 100 four 0 abba 493) ≡ some (ok 5)
unfolding mkdir sub
mkdir_test = refl

abbrev found_after : Text → Changed Opened → Option (Result ℕ)
found_after p none = none
found_after p (some (r, t)) = sub 100 t 0 p

-- A file that opening creates is in no directory.
created_test :
    found_after (b ∷ b ∷ []) (open_file 30 four 0 (b ∷ b ∷ []) o_create 420) ≡ some (err not_exist)
unfolding open_file sub
created_test = refl
