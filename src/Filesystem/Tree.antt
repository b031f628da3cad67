-- ===== src/Filesystem/Tree.antt =====
-- `fileFS`, `dirFS` and `linkFS` of filesystem/virtual.go as nodes on a store, with the operations that
-- look names up. A file system from elsewhere that is linked into the tree is left out, and so are
-- times. A dispatch from one node to the next takes fuel; `none` means that it ran out.
pub mod Changes
pub mod Handles
pub mod Resolution
pub mod Growth
pub mod Made
pub mod Outcome
mod Tests
use microdbg.Base.{
  ℕ, zero, suc, ◌+◌, Bool, true, false, Option, none, some, List, [], ◌∷◌, ◌++◌, length, ◌==◌,
  if◌then◌else◌, not,
}
use microdbg.Errors.{Error, Result, ok, err, panic, invalid, not_exist}
use microdbg.Filesystem.Paths.{Text, same, is_empty, split, split_last}
use microdbg.Filesystem.Contents.{Store, File, has, o_create, open_file}

-- The entries of a directory, by name.
abbrev pub Entries : Type 0
Entries = List (Text × ℕ)

pub data Node : Type 0 where
  file_fs : Text → ℕ → Node
  dir_fs : Text → ℕ → Entries → Node
  -- what a link leads to may be nil
  link_fs : Text → Option ℕ → Node

-- The nodes, of which those below `next` exist, and the bytes of the files, by node.
pub record Tree : Type 0 where
  pub node : ℕ → Node
  pub next : ℕ
  pub contents : Store

pub record FileInfo : Type 0 where
  pub name : Text
  pub size : ℕ
  pub mode : ℕ

-- `fs.ModeDir`
abbrev pub mode_dir : ℕ
mode_dir = 0x80000000

-- `subs.Load`
unfoldable pub lookup : Text → Entries → Option ℕ
lookup k [] = none
lookup k ((j, v) ∷ es) = if same j k then some v else lookup k es

abbrev pub set_node : ℕ → Node → Tree → Tree
set_node r n t = record t { node = λ q. if q == r then n else t.node q }

-- `NewVirtualFS` and `SoftLink`: a new node.
abbrev pub add_node : Node → Tree → ℕ × Tree
add_node n t = (t.next, record (set_node t.next n t) { next = suc t.next })

unfoldable pub new_virtual_fs : Tree → ℕ × Tree
new_virtual_fs t = add_node (dir_fs [] mode_dir []) t

unfoldable pub soft_link : Text → Option ℕ → Tree → ℕ × Tree
soft_link name target t = add_node (link_fs name target) t

-- A node behind a name, if there is one.
abbrev pub at_entry {ℓ} : {A : Type ℓ} → Option ℕ → A → (ℕ → A) → A
at_entry none missing found = missing
at_entry (some v) missing found = found v

-- `Sub` of a directory and of a link. A file has no such method, which its callers answer with
-- `ErrInvalid`.
abbrev pub sub_in : Entries → Text × Text → (ℕ → Text → Option (Result ℕ)) → Option (Result ℕ)
sub_in subs (first, other) below =
    if is_empty first
    then some (err invalid)
    else at_entry (lookup first subs) (some (err not_exist))
        (λ v. if is_empty other then some (ok v) else below v other)

abbrev pub sub_at : Node → Text → (ℕ → Text → Option (Result ℕ)) → Option (Result ℕ)
sub_at (file_fs n m) dir below = some (err invalid)
sub_at (dir_fs n m subs) dir below = sub_in subs (split dir) below
sub_at (link_fs n none) dir below = some (err invalid)
sub_at (link_fs n (some q)) dir below = below q dir

unfoldable pub sub : ℕ → Tree → ℕ → Text → Option (Result ℕ)
unfolding lookup split
sub zero t r dir = none
sub (suc fuel) t r dir = sub_at (t.node r) dir (λ q name. sub fuel t q name)

-- The next step, from the node that was found.
abbrev pub at_node {ℓ} :
    {A : Type ℓ} → Option (Result ℕ) → (ℕ → Option (Result A)) → Option (Result A)
at_node none k = none
at_node (some (ok v)) k = k v
at_node (some (err e)) k = some (err e)
at_node (some panic) k = some panic

abbrev pub Stat : Type 0
Stat = Option (Result FileInfo)

abbrev pub stat_in :
    Text → ℕ → Entries → Text × Text → (Text → Option (Result ℕ)) → (ℕ → Text → Stat) → Stat
stat_in name mode subs (dn, fn) find below =
    if is_empty fn
    then some (ok (record { name = name; size = 0; mode = mode }))
    else if not (is_empty dn)
    then at_node (find dn) (λ v. below v fn)
    else at_entry (lookup fn subs) (some (err not_exist)) (λ v. below v [])

abbrev pub stat_at : Tree → ℕ → Node → Text → (Text → Option (Result ℕ)) → (ℕ → Text → Stat) → Stat
stat_at t r (file_fs n m) name find below =
    if is_empty name
    then some (ok (record { name = n; size = length (t.contents r); mode = m }))
    else some (err invalid)
stat_at t r (dir_fs n m subs) name find below = stat_in n m subs (split_last name) find below
stat_at t r (link_fs n none) name find below = some (err invalid)
stat_at t r (link_fs n (some q)) name find below = below q name

unfoldable pub stat : ℕ → Tree → ℕ → Text → Stat
unfolding sub split_last
stat zero t r name = none
stat (suc fuel) t r name =
    stat_at t r (t.node r) name (λ dir. sub fuel t r dir) (λ q name'. stat fuel t q name')

-- The information on every entry, or the first error.
abbrev pub and_info : Stat → Option (Result (List FileInfo)) → Option (Result (List FileInfo))
and_info none rest = none
and_info (some (err e)) rest = some (err e)
and_info (some panic) rest = some panic
and_info (some (ok i)) none = none
and_info (some (ok i)) (some (err e)) = some (err e)
and_info (some (ok i)) (some panic) = some panic
and_info (some (ok i)) (some (ok is)) = some (ok (i ∷ is))

pub infos : ℕ → Tree → Entries → Option (Result (List FileInfo))
unfolding stat
infos fuel t [] = some (ok [])
infos fuel t ((k, v) ∷ es) = and_info (stat fuel t v []) (infos fuel t es)

-- A link has the methods of a directory whatever it leads to; a file has not, and the type assertion
-- in `ReadDir` panics.
abbrev pub is_dir : Node → Bool
is_dir (file_fs n m) = false
is_dir (dir_fs n m subs) = true
is_dir (link_fs n q) = true

abbrev pub read_dir_at :
    ℕ
    → Tree
    → Node
    → Text
    → (Text → Option (Result ℕ))
    → (ℕ → Text → Option (Result (List FileInfo)))
    → Option (Result (List FileInfo))
read_dir_at fuel t (file_fs n m) name find below = some (err invalid)
read_dir_at fuel t (dir_fs n m subs) name find below =
    if is_empty name
    then infos fuel t subs
    else at_node (find name) (λ v. if is_dir (t.node v) then below v [] else some panic)
read_dir_at fuel t (link_fs n none) name find below = some (err invalid)
read_dir_at fuel t (link_fs n (some q)) name find below =
    if is_dir (t.node q) then below q name else some (err invalid)

unfoldable pub read_dir : ℕ → Tree → ℕ → Text → Option (Result (List FileInfo))
unfolding infos sub
read_dir zero t r name = none
read_dir (suc fuel) t r name =
    read_dir_at fuel t (t.node r) name (λ dir. sub fuel t r dir)
      (λ q name'. read_dir fuel t q name')

abbrev pub readlink_to : Node → Result Text
readlink_to (link_fs n q) = ok n
readlink_to (file_fs n m) = err invalid
readlink_to (dir_fs n m subs) = err invalid

abbrev pub readlink_in :
    Tree
    → Entries
    → Text × Text
    → (Text → Option (Result ℕ))
    → (ℕ → Text → Option (Result Text))
    → Option (Result Text)
readlink_in t subs (dn, fn) find below =
    if is_empty fn
    then some (err not_exist)
    else if is_empty dn
    then at_entry (lookup fn subs) (some (err not_exist)) (λ v. some (readlink_to (t.node v)))
    else at_node (find dn) (λ v. if is_dir (t.node v) then below v fn else some (err invalid))

abbrev pub readlink_at :
    Tree
    → Node
    → Text
    → (Text → Option (Result ℕ))
    → (ℕ → Text → Option (Result Text))
    → Option (Result Text)
readlink_at t (file_fs n m) name find below = some (err invalid)
readlink_at t (dir_fs n m subs) name find below = readlink_in t subs (split_last name) find below
readlink_at t (link_fs n none) name find below = some (err invalid)
readlink_at t (link_fs n (some q)) name find below =
    if is_dir (t.node q) then below q name else some (err invalid)

unfoldable pub readlink : ℕ → Tree → ℕ → Text → Option (Result Text)
unfolding sub split_last lookup
readlink zero t r name = none
readlink (suc fuel) t r name =
    readlink_at t (t.node r) name (λ dir. sub fuel t r dir) (λ q name'. readlink fuel t q name')
