-- ===== src/Files/Tests.antt =====
-- The file manager of internal/debugger/file.go on concrete tables.
use microdbg.Base.{ℕ, zero, suc, ◌+◌, ◌≡◌, refl, none, some, List, [], ◌∷◌, arith}
use microdbg.Errors.{ok, err, not_exist, invalid}
use microdbg.Files.Table.{ref, find, erase, users}
use microdbg.Files.{Host, FileManager, ctor, dup_file, close_file_descriptor, close, dup2_file}
use microdbg.Files.Count.{ctor-Counted}
use microdbg.Files.Dup.{Duplicates, dup_file-Duplicates}
use microdbg.Files.Dup2.{Replaces, dup2_file-Replaces}
use microdbg.Files.Close.{Closes, close-Closes}
use microdbg.Files.Handlers.{FileHandler, open_file}
use microdbg.Files.Handlers.Turns.{IsFirst, operations-IsFirst}

-- A host that notes the files it closes.
abbrev noting : Host
noting = record { State = List ℕ; close_file = λ file st. (none, file ∷ st) }

-- Standard input is duplicated.
dup_file-Duplicates_example : Duplicates ctor 0 (some (ref 0)) (dup_file ctor 0)
unfolding ctor find
dup_file-Duplicates_example = dup_file-Duplicates ctor 0 ctor-Counted (omega arith) refl

-- Standard output becomes descriptor 5 as well.
dup2_file-Replaces_example :
    Replaces noting ctor 1 5 (some (ref 1)) [] (dup2_file noting ctor 1 5 [])
unfolding ctor find
dup2_file-Replaces_example =
    dup2_file-Replaces noting ctor 1 5 [] (ground arith) (omega arith) (omega arith) ctor-Counted
      (omega arith)

-- The only descriptor of standard error.
close-Closes_example :
    let fm' = record ctor { file_map = erase 2 ctor.file_map } in
    (close_file_descriptor ctor 2 ≡ (ok (ref 2), fm'))
    × Closes noting fm' 2 (users 2 (erase 2 ctor.file_map)) [] (close noting (ref 2) ctor.refs [])
unfolding ctor find
close-Closes_example = close-Closes noting ctor 2 2 [] ctor-Counted (omega arith) refl

-- Handlers that count their calls: number 1 refuses, the others answer with the count.
abbrev answering : ℕ → FileHandler ℕ
answering (suc zero) = record {
  open_file = λ name flag perm n. (err invalid, n + 1);
  stat = λ name n. (err invalid, n + 1);
  read_dir = λ name n. (err invalid, n + 1);
  mkdir = λ name perm n. (err invalid, n + 1);
  readlink = λ name n. (err invalid, n + 1);
  new_socket = λ network n. (err invalid, n + 1);
}
answering h = record {
  open_file = λ name flag perm n. (ok n, n + 1);
  stat = λ name n. (ok n, n + 1);
  read_dir = λ name n. (ok (n ∷ []), n + 1);
  mkdir = λ name perm n. (ok n, n + 1);
  readlink = λ name n. (ok name, n + 1);
  new_socket = λ network n. (ok n, n + 1);
}

abbrev two_handlers : FileManager
two_handlers = record ctor { handlers = 1 ∷ 2 ∷ [] }

operations-IsFirst_example :
    IsFirst
      (1 ∷ 2 ∷ [])
      (λ h. (answering h).open_file (47 ∷ 97 ∷ []) 0 0)
      (λ last. (err not_exist, last))
      0
      (open_file answering
        (λ name. 47 ∷ name)
        (λ network n. (n, n + 1))
        two_handlers
        (97 ∷ [])
        0
        0
        0)
operations-IsFirst_example =
    (operations-IsFirst answering (λ name. 47 ∷ name) (λ network n. (n, n + 1)) two_handlers
      (97 ∷ []) 0 0 0 0).0
