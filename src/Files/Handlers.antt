-- ===== src/Files/Handlers.antt =====
-- The file handlers of internal/debugger/file.go: they are asked in turn until one answers.
pub mod Turns
use microdbg.Base.{ℕ, ◌==◌, if◌then◌else◌, List, [], ◌∷◌, ◌++◌}
use microdbg.Errors.{Error, Result, ok, err, panic, not_exist, invalid}
use microdbg.Files.{FileManager}

-- `FileHandler` of debugger/file.go: the state `S` is all that handlers can change. Names are lists of
-- bytes; files, information, entries and sockets are numbers.
pub record FileHandler (S : Type 0) : Type 0 where
  pub open_file : List ℕ → ℕ → ℕ → S → Result ℕ × S
  pub stat : List ℕ → S → Result ℕ × S
  pub read_dir : List ℕ → S → Result (List ℕ) × S
  pub mkdir : List ℕ → ℕ → S → Result ℕ × S
  pub readlink : List ℕ → S → Result (List ℕ) × S
  pub new_socket : ℕ → S → Result ℕ × S

abbrev pub or_next : {S A : Type 0} → Result A × S → (S → Result A × S) → Result A × S
or_next (ok a, st) next = (ok a, st)
or_next (err x, st) next = next st
or_next (panic, st) next = (panic, st)

-- The loop over the handlers, and what is returned after it.
pub ask_all :
    {S A : Type 0} → List ℕ → (ℕ → S → Result A × S) → (S → Result A × S) → S → Result A × S
ask_all [] call otherwise st = otherwise st
ask_all (h ∷ hs) call otherwise st = or_next (call h st) (ask_all hs call otherwise)

pub without : ℕ → List ℕ → List ℕ
without h [] = []
without h (k ∷ ks) = if k == h then without h ks else k ∷ without h ks

unfoldable pub add_file_handler : FileManager → ℕ → FileManager
add_file_handler fm h = record fm { handlers = fm.handlers ++ (h ∷ []) }

unfoldable pub remove_file_handler : FileManager → ℕ → FileManager
unfolding without
remove_file_handler fm h = record fm { handlers = without h fm.handlers }

-- `clean` is `filepath.ToSlash(filepath.Join("/", name))`, `new_default` is `socket.New`.
module _ {S : Type 0} (handler : ℕ → FileHandler S) (clean : List ℕ → List ℕ)
    (new_default : ℕ → S → ℕ × S) where
  unfoldable pub open_file : FileManager → List ℕ → ℕ → ℕ → S → Result ℕ × S
  unfolding ask_all
  open_file fm name flag perm =
      ask_all fm.handlers (λ h. (handler h).open_file (clean name) flag perm)
        (λ st. (err not_exist, st))

  unfoldable pub stat : FileManager → List ℕ → S → Result ℕ × S
  unfolding ask_all
  stat fm name =
      ask_all fm.handlers (λ h. (handler h).stat (clean name)) (λ st. (err not_exist, st))

  unfoldable pub read_dir : FileManager → List ℕ → S → Result (List ℕ) × S
  unfolding ask_all
  read_dir fm name =
      ask_all fm.handlers (λ h. (handler h).read_dir (clean name)) (λ st. (err not_exist, st))

  unfoldable pub mkdir : FileManager → List ℕ → ℕ → S → Result ℕ × S
  unfolding ask_all
  mkdir fm name perm =
      ask_all fm.handlers (λ h. (handler h).mkdir (clean name) perm) (λ st. (err invalid, st))

  unfoldable pub readlink : FileManager → List ℕ → S → Result (List ℕ) × S
  unfolding ask_all
  readlink fm name =
      ask_all fm.handlers (λ h. (handler h).readlink (clean name)) (λ st. (err invalid, st))

  unfoldable pub new_socket : FileManager → ℕ → S → Result ℕ × S
  unfolding ask_all
  new_socket fm network =
      ask_all fm.handlers (λ h. (handler h).new_socket network)
        (λ st. let (s, st') = new_default network st in (ok s, st'))
