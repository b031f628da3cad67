-- ===== src/Files/Table.antt =====
-- The Go map of internal/debugger/file.go from descriptors to files, as an association list.
use microdbg.Base.{
  ℕ, ◌+◌, ◌≡◌, ◌≢◌, ◌≤◌, length, Option, none, some, List, [], ◌∷◌, ◌==◌, if◌then◌else◌, arith,
  Bool-cases, inl, inr,
}

-- A file as an interface value: a `*fileRef` by its pointer, or any other file by its number.
pub data File : Type 0 where
  plain ref : ℕ → File

abbrev pub FileMap : Type 0
FileMap = List (ℕ × File)

unfoldable pub find : ℕ → FileMap → Option File
find k [] = none
find k ((fd, f) ∷ t) = if fd == k then some f else find k t

unfoldable pub insert : ℕ → File → FileMap → FileMap
insert k g [] = (k, g) ∷ []
insert k g ((fd, f) ∷ t) = if fd == k then (k, g) ∷ t else (fd, f) ∷ insert k g t

unfoldable pub erase : ℕ → FileMap → FileMap
erase k [] = []
erase k ((fd, f) ∷ t) = if fd == k then t else (fd, f) ∷ erase k t

-- 1 if the file is the reference `r`, and 0 if not.
abbrev pub is_ref : ℕ → Option File → ℕ
is_ref r none = 0
is_ref r (some (plain n)) = 0
is_ref r (some (ref q)) = if q == r then 1 else 0

-- The number of descriptors that hold the reference `r`.
unfoldable pub users : ℕ → FileMap → ℕ
users r [] = 0
users r ((fd, f) ∷ t) = is_ref r (some f) + users r t

pub users-insert :
    (r k : ℕ) (g : File) (t : FileMap)
    → users r (insert k g t) + is_ref r (find k t) ≡ users r t + is_ref r (some g)
unfolding users insert find
users-insert r k g [] = omega arith
users-insert r k g ((fd, f) ∷ t) = elim (Bool-cases (fd == k)) [
  | inl hit ↦ rw hit (omega arith)
  | inr miss ↦ rw miss (omega (arith, users-insert r k g t))
]

pub users-erase : (r k : ℕ) (t : FileMap) → users r (erase k t) + is_ref r (find k t) ≡ users r t
unfolding users erase find
users-erase r k [] = omega arith
users-erase r k ((fd, f) ∷ t) = elim (Bool-cases (fd == k)) [
  | inl hit ↦ rw hit (omega arith)
  | inr miss ↦ rw miss (omega (arith, users-erase r k t))
]

pub find-insert : (k : ℕ) (g : File) (t : FileMap) → find k (insert k g t) ≡ some g
unfolding find insert
find-insert k g [] = ground arith
find-insert k g ((fd, f) ∷ t) = elim (Bool-cases (fd == k)) [
  | inl hit ↦ rw hit (ground arith)
  | inr miss ↦ rw (miss, miss) (find-insert k g t)
]

pub find-insert_other :
    (j k : ℕ) (g : File) (t : FileMap) → k ≢ j → find j (insert k g t) ≡ find j t
unfolding find insert
find-insert_other j k g [] ne = ground arith
find-insert_other j k g ((fd, f) ∷ t) ne = elim (Bool-cases (fd == k)) [
  | inl hit ↦ rw hit (ground arith)
  | inr miss ↦ rw miss (ground (arith, find-insert_other j k g t ne))
]

pub users-find : (r k : ℕ) (t : FileMap) → is_ref r (find k t) ≤ users r t
unfolding users find
users-find r k [] = omega arith
users-find r k ((fd, f) ∷ t) = elim (Bool-cases (fd == k)) [
  | inl hit ↦ rw hit (omega arith)
  | inr miss ↦ rw miss (omega (arith, users-find r k t))
]

pub is_ref_le : (r : ℕ) (f : Option File) → is_ref r f ≤ 1
is_ref_le r none = omega arith
is_ref_le r (some (plain n)) = omega arith
is_ref_le r (some (ref q)) = ground arith

pub users_le : (r : ℕ) (t : FileMap) → users r t ≤ length t
unfolding users
users_le r [] = omega arith
users_le r ((fd, f) ∷ t) = omega (arith, is_ref_le r (some f), users_le r t)
