-- ===== src/Filesystem/Tree/Changes.antt =====
-- The operations of filesystem/virtual.go that may change the tree: `Mkdir`, `Link` and `OpenFile` of
-- directories and links.
use Prim.Native.Nat.{bit_or}
use microdbg.Base.{ℕ, zero, suc, Option, none, some, List, [], ◌∷◌, ◌==◌, if◌then◌else◌}
use microdbg.Errors.{Result, ok, err, panic, invalid, not_exist, exist}
use microdbg.Filesystem.Paths.{Text, is_empty, split, split_last}
use microdbg.Filesystem.Contents as Contents
use microdbg.Filesystem.Contents.{Store, File, has, o_create}
use microdbg.Filesystem.Tree.{
  Node, file_fs, dir_fs, link_fs, Entries, Tree, lookup, set_node, add_node, mode_dir, is_dir, sub,
}

abbrev pub Changed : Type 0 → Type 0
Changed A = Option (Result A × Tree)

-- `subs.Store` of a name that is not there: a directory takes the new entry.
abbrev pub add_entry : ℕ → Text → ℕ → Node → Tree → Tree
add_entry r name v (file_fs n m) t = t
add_entry r name v (dir_fs n m subs) t = set_node r (dir_fs n m ((name, v) ∷ subs)) t
add_entry r name v (link_fs n q) t = t

-- A new directory under a name of the directory `r`.
abbrev pub make_dir : ℕ → Text → ℕ → Tree → ℕ × Tree
make_dir r name perm t =
    let (v, t') = add_node (dir_fs name (bit_or perm mode_dir) []) t in
    (v, add_entry r name v (t.node r) t')

-- The directory of the first part of a path, and then the rest.
abbrev pub go_on : Text → (ℕ → Text → Tree → Changed ℕ) → ℕ × Tree → Changed ℕ
go_on other below (v, t) = if is_empty other then some (ok v, t) else below v other t

abbrev pub mkdir_entry :
    ℕ → Text → Text → ℕ → Tree → (ℕ → Text → Tree → Changed ℕ) → Option ℕ → Changed ℕ
mkdir_entry r first other perm t below none = go_on other below (make_dir r first perm t)
mkdir_entry r first other perm t below (some v) =
    if is_dir (t.node v) then go_on other below (v, t) else some (err invalid, t)

abbrev pub mkdir_in :
    ℕ → Entries → Text × Text → ℕ → Tree → (ℕ → Text → Tree → Changed ℕ) → Changed ℕ
mkdir_in r subs (first, other) perm t below =
    if is_empty first
    then some (err invalid, t)
    else mkdir_entry r first other perm t below (lookup first subs)

abbrev pub mkdir_at : ℕ → Node → Text → ℕ → Tree → (ℕ → Text → Tree → Changed ℕ) → Changed ℕ
mkdir_at r (file_fs n m) name perm t below = some (err invalid, t)
mkdir_at r (dir_fs n m subs) name perm t below = mkdir_in r subs (split name) perm t below
mkdir_at r (link_fs n none) name perm t below = some (err invalid, t)
mkdir_at r (link_fs n (some q)) name perm t below =
    if is_dir (t.node q) then below q name t else some (err invalid, t)

unfoldable pub mkdir : ℕ → Tree → ℕ → Text → ℕ → Changed ℕ
unfolding split lookup
mkdir zero t r name perm = none
mkdir (suc fuel) t r name perm =
    mkdir_at r (t.node r) name perm t (λ q other t'. mkdir fuel t' q other perm)

-- `fs.ModePerm`
abbrev pub mode_perm : ℕ
mode_perm = 511

-- `subs.LoadOrStore`
abbrev pub link_entry : ℕ → Text → ℕ → Tree → Node → Option ℕ → Changed (Unit {0})
link_entry r file handle t n none = some (ok tt, add_entry r file handle n t)
link_entry r file handle t n (some v) = some (err exist, t)

abbrev pub link_below :
    Text → Changed ℕ → (ℕ → Text → Tree → Changed (Unit {0})) → Changed (Unit {0})
link_below file none below = none
link_below file (some (ok v, t)) below =
    if is_dir (t.node v) then below v file t else some (err invalid, t)
link_below file (some (err e, t)) below = some (err e, t)
link_below file (some (panic, t)) below = some (panic, t)

abbrev pub link_in :
    ℕ
    → Text
    → ℕ
    → Entries
    → Text × Text
    → ℕ
    → Tree
    → (Text → Changed ℕ)
    → (ℕ → Text → Tree → Changed (Unit {0}))
    → Changed (Unit {0})
link_in r n m subs (dn, file) handle t make below =
    if is_empty dn
    then link_entry r file handle t (dir_fs n m subs) (lookup file subs)
    else link_below file (make dn) below

abbrev pub link_at :
    ℕ
    → Node
    → Text
    → ℕ
    → Tree
    → (Text → Changed ℕ)
    → (ℕ → Text → Tree → Changed (Unit {0}))
    → Changed (Unit {0})
link_at r (file_fs n m) name handle t make below = some (err invalid, t)
link_at r (dir_fs n m subs) name handle t make below =
    link_in r n m subs (split_last name) handle t make below
link_at r (link_fs n none) name handle t make below = some (err invalid, t)
link_at r (link_fs n (some q)) name handle t make below =
    if is_dir (t.node q) then below q name t else some (err invalid, t)

unfoldable pub link : ℕ → Tree → ℕ → Text → ℕ → Changed (Unit {0})
unfolding mkdir split_last
link zero t r name handle = none
link (suc fuel) t r name handle =
    link_at r (t.node r) name handle t (λ dir. mkdir fuel t r dir mode_perm)
      (λ q file t'. link fuel t' q file handle)

-- What opening gives: a file, or a directory with what was read of it.
pub data Opened : Type 0 where
  file : File → Opened
  dir : ℕ → List ℕ → Opened

abbrev pub opened_file : Tree → Result File × Store → Changed Opened
opened_file t (ok f, store) = some (ok (file f), record t { contents = store })
opened_file t (err e, store) = some (err e, record t { contents = store })
opened_file t (panic, store) = some (panic, record t { contents = store })

-- A file that is created is a new node; no entry leads to it.
abbrev pub created : Text → ℕ → Tree → ℕ × Tree
created name perm t =
    let (v, t') = add_node (file_fs name perm) t in
    (v, record t' { contents = Contents.set_data v [] t'.contents })

abbrev pub open_new : (ℕ → Text → Tree → Changed Opened) → ℕ × Tree → Changed Opened
open_new below (v, t) = below v [] t

abbrev pub open_entry :
    Text → ℕ → ℕ → Tree → (ℕ → Text → Tree → Changed Opened) → Option ℕ → Changed Opened
open_entry fn flag perm t below none =
    if has flag o_create then open_new below (created fn perm t) else some (err not_exist, t)
open_entry fn flag perm t below (some v) = below v [] t

abbrev pub open_below :
    Text → Tree → Option (Result ℕ) → (ℕ → Text → Tree → Changed Opened) → Changed Opened
open_below fn t none below = none
open_below fn t (some (ok v)) below = below v fn t
open_below fn t (some (err e)) below = some (err e, t)
open_below fn t (some panic) below = some (panic, t)

abbrev pub open_in :
    ℕ
    → Entries
    → Text × Text
    → ℕ
    → ℕ
    → Tree
    → (Text → Option (Result ℕ))
    → (ℕ → Text → Tree → Changed Opened)
    → Changed Opened
open_in r subs (dn, fn) flag perm t find below =
    if is_empty fn
    then (if flag == 0 then some (ok (dir r []), t) else some (err invalid, t))
    else if is_empty dn
    then open_entry fn flag perm t below (lookup fn subs)
    else open_below fn t (find dn) below

abbrev pub open_at :
    ℕ
    → Node
    → Text
    → ℕ
    → ℕ
    → Tree
    → (Text → Option (Result ℕ))
    → (ℕ → Text → Tree → Changed Opened)
    → Changed Opened
open_at r (file_fs n m) name flag perm t find below =
    opened_file t (Contents.open_file t.contents r name flag)
open_at r (dir_fs n m subs) name flag perm t find below =
    open_in r subs (split_last name) flag perm t find below
open_at r (link_fs n none) name flag perm t find below = some (err not_exist, t)
open_at r (link_fs n (some q)) name flag perm t find below = below q name t

unfoldable pub open_file : ℕ → Tree → ℕ → Text → ℕ → ℕ → Changed Opened
unfolding sub split_last lookup Contents.open_file
open_file zero t r name flag perm = none
open_file (suc fuel) t r name flag perm =
    open_at r (t.node r) name flag perm t (λ dn. sub fuel t r dn)
      (λ q fn t'. open_file fuel t' q fn flag perm)
