-- ===== src/Filesystem/Tree/Handles.antt =====
-- `dir` of filesystem/virtual.go, an open directory: the directory and the nodes that it has shown.
use Prim.Native.Nat.{bit_or}
use microdbg.Base.{
  ℕ, Bool, true, false, Option, none, some, List, [], ◌∷◌, ◌++◌, ◌==◌, if◌then◌else◌,
}
use microdbg.Errors.{Result, ok, err, panic, invalid}
use microdbg.Filesystem.Paths.{Text, same, is_empty, split_last}
use microdbg.Filesystem.Tree.{
  Node, file_fs, dir_fs, link_fs, Entries, Tree, FileInfo, set_node, add_node, mode_dir, stat,
}

pub record DirHandle : Type 0 where
  pub fs : ℕ
  pub read : List ℕ

unfoldable pub shown : List ℕ → ℕ → Bool
shown [] v = false
shown (q ∷ qs) v = if q == v then true else shown qs v

abbrev pub Listed : Type 0
Listed = Option (Result (List FileInfo) × List ℕ)

abbrev pub with_info : ℕ → List ℕ → Option (Result FileInfo) → (List ℕ → Listed) → Listed
with_info v read none more = none
with_info v read (some (err e)) more = some (err e, read)
with_info v read (some panic) more = some (panic, read)
with_info v read (some (ok i)) more = and_more i (more (read ++ (v ∷ [])))
  where
    and_more : FileInfo → Listed → Listed
    and_more i none = none
    and_more i (some (ok is, r)) = some (ok (i ∷ is), r)
    and_more i (some (err e, r)) = some (err e, r)
    and_more i (some (panic, r)) = some (panic, r)

-- The loop over the entries that were not shown before. It runs through all of them, whatever `n`.
pub list_entries : ℕ → Tree → Entries → List ℕ → Listed
unfolding shown stat
list_entries fuel t [] read = some (ok [], read)
list_entries fuel t ((k, v) ∷ es) read = elim (shown read v) [
  | true ↦ list_entries fuel t es read
  | false ↦ with_info v read (stat fuel t v []) (λ r. list_entries fuel t es r)
]

abbrev pub entries_of : Node → Entries
entries_of (dir_fs n m subs) = subs
entries_of (file_fs n m) = []
entries_of (link_fs n q) = []

abbrev pub with_read : DirHandle → Listed → Option (Result (List FileInfo) × DirHandle)
with_read d none = none
with_read d (some (r, read)) = some (r, record d { read = read })

unfoldable pub read_dir : ℕ → Tree → DirHandle → ℕ → Option (Result (List FileInfo) × DirHandle)
unfolding list_entries
read_dir fuel t d n =
    if n == 0
    then some (ok [], d)
    else with_read d (list_entries fuel t (entries_of (t.node d.fs)) d.read)

-- `subs.Store`: an entry of that name is replaced.
unfoldable pub replace : Text → ℕ → Entries → Entries
replace k v [] = (k, v) ∷ []
replace k v ((j, q) ∷ es) = if same j k then (k, v) ∷ es else (j, q) ∷ replace k v es

abbrev pub replace_in : ℕ → Text → ℕ → Node → Tree → Tree
replace_in r k v (dir_fs n m subs) t = set_node r (dir_fs n m (replace k v subs)) t
replace_in r k v (file_fs n m) t = t
replace_in r k v (link_fs n q) t = t

abbrev pub made_in : ℕ → Text × Text → ℕ → Tree → Result (Unit {0}) × Tree
made_in r (dn, fn) perm t =
    if is_empty dn
    then (let (v, t') = add_node (dir_fs fn (bit_or perm mode_dir) []) t in
        (ok tt, replace_in r fn v (t.node r) t'))
    else (err invalid, t)

unfoldable pub handle_mkdir : Tree → DirHandle → Text → ℕ → Result (Unit {0}) × Tree
unfolding replace split_last
handle_mkdir t d name perm = made_in d.fs (split_last name) perm t
