-- ===== src/Files.antt =====
-- `fileManager` and `fileRef` of internal/debugger/file.go: the table of file descriptors. The locks
-- are left out: a call is one step. Integers are kept as the bit patterns of int64 and int.
pub mod Table
pub mod Count
pub mod Share
pub mod Dup
pub mod Close
pub mod Dup2
pub mod Handlers
mod Tests
use microdbg.Base.{
  ℕ, suc, ◌+◌, ◌&&◌, ◌||◌, not, Bool, Option, none, some, List, [], ◌∷◌, ltb, leb, ◌==◌,
  if◌then◌else◌,
}
use microdbg.Word.{add64}
use microdbg.Errors.{Error, Result, ok, err, not_exist, closed}
use microdbg.Files.Table.{File, plain, ref, FileMap, find, insert, erase}

-- The files of the host and the emulated program, which the repository does not implement, by number.
pub record Host : Type 1 where
  pub State : Type 0
  pub close_file : ℕ → State → Option Error × State

-- The value -1 of an int64 and of an int.
abbrev pub minus_one : ℕ
minus_one = 0xffffffffffffffff

abbrev pub positive : ℕ → Bool
positive i = not (i == 0) && ltb i 0x8000000000000000

abbrev pub below_three : ℕ → Bool
below_three fd = ltb fd 3 || leb 0x8000000000000000 fd

pub record FileRef : Type 0 where
  pub file : ℕ
  pub count : ℕ

-- What the pointers to a `fileRef` point to. Those at `fresh` and above are not used yet.
pub record Refs : Type 0 where
  pub cell : ℕ → FileRef
  pub fresh : ℕ

abbrev pub set_count : ℕ → ℕ → Refs → Refs
set_count r n refs = record refs {
  cell = λ q. if q == r then record (refs.cell r) { count = n } else refs.cell q;
}

abbrev pub new_ref : ℕ → ℕ → Refs → Refs
new_ref file n refs = record refs {
  cell = λ q. if q == refs.fresh then record { file = file; count = n } else refs.cell q;
  fresh = suc refs.fresh;
}

pub record FileManager : Type 0 where
  -- the handlers, by number
  pub handlers : List ℕ
  pub fd : ℕ
  pub file_map : FileMap
  pub refs : Refs

-- Standard input, output and error are the host's files 0, 1 and 2.
unfoldable pub ctor : FileManager
ctor = record {
  handlers = [];
  fd = 3;
  file_map = (0, ref 0) ∷ (1, ref 1) ∷ (2, ref 2) ∷ [];
  refs = record { cell = λ q. record { file = q; count = 0 }; fresh = 3 };
}

unfoldable pub create_file_descriptor : FileManager → File → ℕ × FileManager
create_file_descriptor fm file =
    let fd = add64 fm.fd 1 in (fd, record fm { fd = fd; file_map = insert fd file fm.file_map })

abbrev pub taken : FileManager → ℕ → Option File → Result File × FileManager
taken fm fd (some file) = (ok file, record fm { file_map = erase fd fm.file_map })
taken fm fd none = (err not_exist, fm)

unfoldable pub close_file_descriptor : FileManager → ℕ → Result File × FileManager
close_file_descriptor fm fd = taken fm fd (find fd fm.file_map)

abbrev pub got : Option File → Result File
got (some file) = ok file
got none = err not_exist

unfoldable pub get_file : FileManager → ℕ → Result File
get_file fm fd = got (find fd fm.file_map)

-- The file of descriptor `fd` as a shared reference with one more user: its pointer, and the manager
-- in which it is counted.
unfoldable pub share : FileManager → ℕ → File → ℕ × FileManager
share fm fd (ref r) = (r, record fm { refs = set_count r (add64 (fm.refs.cell r).count 1) fm.refs })
share fm fd (plain file) = (
  fm.refs.fresh,
  record fm { file_map = insert fd (ref fm.refs.fresh) fm.file_map; refs = new_ref file 2 fm.refs },
)

abbrev pub duplicated : FileManager → ℕ → Option File → Result ℕ × FileManager
duplicated fm fd none = (err not_exist, fm)
duplicated fm fd (some file) =
    let (r, fm') = share fm fd file in
    let newfd = add64 fm'.fd 1 in
    (ok newfd, record fm' { fd = newfd; file_map = insert newfd (ref r) fm'.file_map })

unfoldable pub dup_file : FileManager → ℕ → Result ℕ × FileManager
dup_file fm fd = duplicated fm fd (find fd fm.file_map)

module _ (h : Host) where
  -- `Close` of a `fileRef`, once its count is `i`.
  abbrev pub ref_closed : ℕ → ℕ → h.State → Option Error × h.State
  ref_closed i file st =
      if positive i then (none, st) else if i == 0 then h.close_file file st else (some closed, st)

  -- `Close` of a file in the table.
  unfoldable pub close : File → Refs → h.State → Option Error × Refs × h.State
  close (plain file) refs st = let (e, st') = h.close_file file st in (e, refs, st')
  close (ref r) refs st =
      let i = add64 (refs.cell r).count minus_one in
      let (e, st') = ref_closed i (refs.cell r).file st in (e, set_count r i refs, st')

  -- The file that `newfd` had is closed, and its error dropped.
  unfoldable pub displace : FileManager → Option File → h.State → FileManager × h.State
  unfolding close
  displace fm none st = (fm, st)
  displace fm (some old) st =
      let (e, refs, st') = close old fm.refs st in (record fm { refs = refs }, st')

  -- `file` is the file that `oldfd` had at the start.
  abbrev pub replaced :
      FileManager → ℕ → ℕ → Option File → h.State → Option Error × FileManager × h.State
  replaced fm oldfd newfd none st = (some not_exist, fm, st)
  replaced fm oldfd newfd (some file) st =
      let (fm1, st') = displace fm (find newfd fm.file_map) st in
      let (r, fm2) = share fm1 oldfd file in
      (none, record fm2 { file_map = insert newfd (ref r) fm2.file_map }, st')

  unfoldable pub dup2_file : FileManager → ℕ → ℕ → h.State → Option Error × FileManager × h.State
  unfolding displace share
  dup2_file fm oldfd newfd st =
      if oldfd == newfd
      then (none, fm, st)
      else if below_three newfd
      then (none, fm, st)
      else replaced fm oldfd newfd (find oldfd fm.file_map) st
