-- ===== src/Files/Dup.antt =====
-- `DupFile` of internal/debugger/file.go.
use microdbg.Base.{ℕ, ◌<◌, ◌≡◌, ◌≢◌, refl, sym, ap, ◌∙◌, Option, none, some, length, arith}
use microdbg.Word.{add64}
use microdbg.Errors.{Result, ok, err, not_exist}
use microdbg.Files.Table.{File, find, is_ref}
use microdbg.Files.{FileManager, duplicated, dup_file}
use microdbg.Files.Count.{Counted, share-fd}
use microdbg.Files.Share.{Shares, share-Shares}

-- The outcome of `DupFile` on a descriptor that holds `file`, if any.
abbrev pub Duplicates : FileManager → ℕ → Option File → Result ℕ × FileManager → Type 0
Duplicates fm fd none o = (o.0 ≡ err not_exist) × (o.1 ≡ fm)
Duplicates fm fd (some file) o = (o.0 ≡ ok (add64 fm.fd 1)) × Shares fm fd (add64 fm.fd 1) file o.1

some≢none : {f : File} → some f ≢ none
some≢none h = absurd (cc)

duplicated-Duplicates :
    (fm : FileManager) (fd : ℕ) (file : Option File)
    → Counted fm
    → length fm.file_map < 4611686018427387904
    → find (add64 fm.fd 1) fm.file_map ≡ none
    → find fd fm.file_map ≡ file
    → Duplicates fm fd file (duplicated fm fd file)
duplicated-Duplicates fm fd none c small free e = (refl, refl)
duplicated-Duplicates fm fd (some f) c small free e = rw (share-fd fm fd f) (
  refl,
  share-Shares fm fd newfd c.start c.unused c.word small apart
      (λ q. omega (arith, c.balanced q, ap (is_ref q) free)) newfd f e,
)
  where
    newfd : ℕ
    newfd = add64 fm.fd 1

    apart : fd ≢ newfd
    apart h = absurd (some≢none (sym e ∙ ap (λ n. find n fm.file_map) h ∙ free))

-- Duplicating a descriptor, when the next descriptor is free, the counts are right, and the table has
-- fewer than 2 ^ 62 descriptors: for a
-- descriptor that is not in use the result is the error and nothing changes. Else the next descriptor
-- is returned, both hold the same reference to the file that the first one held, the other descriptors
-- hold what they held, and the counts are right again.
pub dup_file-Duplicates :
    (fm : FileManager) (fd : ℕ)
    → Counted fm
    → length fm.file_map < 4611686018427387904
    → find (add64 fm.fd 1) fm.file_map ≡ none
    → Duplicates fm fd (find fd fm.file_map) (dup_file fm fd)
unfolding dup_file
dup_file-Duplicates fm fd c small free =
    duplicated-Duplicates fm fd (find fd fm.file_map) c small free refl
