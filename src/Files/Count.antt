-- ===== src/Files/Count.antt =====
-- The counts of the shared files of internal/debugger/file.go against the descriptors that hold them.
use microdbg.Base.{ℕ, ◌+◌, ◌≤◌, ◌<◌, ◌≡◌, ◌≢◌, refl, some, ltb, if◌then◌else◌, length, arith}
use microdbg.Word.{add64}
use microdbg.Files.Table.{
  File, plain, ref, find, insert, is_ref, users, users-insert, users-find, users_le, find-insert,
  find-insert_other,
}
use microdbg.Files.{Refs, FileManager, ctor, share}

-- The reference of a standard stream starts with count 0, one below the descriptors that hold it.
abbrev pub standard : ℕ → ℕ
standard r = if ltb r 3 then 1 else 0

-- What the counts are off by: `debit` above the descriptors, `credit` below them.
abbrev pub IsBalanced : (ℕ → ℕ) → (ℕ → ℕ) → FileManager → Type 0
IsBalanced debit credit fm =
    (q : ℕ) → add64 (fm.refs.cell q).count (standard q) + debit q ≡ users q fm.file_map + credit q

-- Every count is the number of descriptors that hold the reference, less one for a standard stream.
pub record Counted (fm : FileManager) : Type 0 where
  pub start : 3 ≤ fm.refs.fresh
  pub unused : (q : ℕ) → fm.refs.fresh ≤ q → users q fm.file_map ≡ 0
  pub word : (q : ℕ) → (fm.refs.cell q).count < 18446744073709551616
  pub balanced : (q : ℕ) → add64 (fm.refs.cell q).count (standard q) ≡ users q fm.file_map

pub ctor-Counted : Counted ctor
unfolding ctor users
ctor-Counted = record {
  start = omega arith;
  unused = λ q h. ground arith;
  word = λ q. omega arith;
  balanced = λ q. ground arith;
}

module _ (fm : FileManager) (fd : ℕ) (debit : ℕ → ℕ) (start : 3 ≤ fm.refs.fresh)
    (unused : (q : ℕ) → fm.refs.fresh ≤ q → users q fm.file_map ≡ 0)
    (small : length fm.file_map < 4611686018427387904)
    (owed : (q : ℕ) → debit q ≤ users q fm.file_map) (b : IsBalanced debit (λ q. 0) fm) where
  -- Sharing a file counts one user more than there are.
  pub share-IsBalanced :
      (f : File)
      → find fd fm.file_map ≡ some f
      → IsBalanced debit (λ q. is_ref q (some (ref (share fm fd f).0))) (share fm fd f).1
  unfolding share
  share-IsBalanced (ref r) e q = ground (arith, b q, users_le q fm.file_map, owed q)
  share-IsBalanced (plain n) e q = ground (
    arith,
    b q,
    unused q,
    owed q,
    users_le q fm.file_map,
    users-insert q fd (ref fm.refs.fresh) fm.file_map,
  )

-- The file itself, behind a reference or not.
abbrev pub behind : Refs → File → ℕ
behind refs (plain n) = n
behind refs (ref r) = (refs.cell r).file

-- What sharing leaves alone: the descriptor counter, the other descriptors, and the file itself.
pub share-fd : (fm : FileManager) (fd : ℕ) (f : File) → (share fm fd f).1.fd ≡ fm.fd
unfolding share
share-fd fm fd (ref r) = refl
share-fd fm fd (plain n) = refl

pub share-find :
    (fm : FileManager) (fd : ℕ) (f : File)
    → find fd fm.file_map ≡ some f
    → find fd (share fm fd f).1.file_map ≡ some (ref (share fm fd f).0)
unfolding share
share-find fm fd (ref r) e = e
share-find fm fd (plain n) e = find-insert fd (ref fm.refs.fresh) fm.file_map

pub share-find_other :
    (fm : FileManager) (fd j : ℕ) (f : File)
    → fd ≢ j
    → find j (share fm fd f).1.file_map ≡ find j fm.file_map
unfolding share
share-find_other fm fd j (ref r) ne = refl
share-find_other fm fd j (plain n) ne = find-insert_other j fd (ref fm.refs.fresh) fm.file_map ne

pub share-behind :
    (fm : FileManager) (fd : ℕ) (f : File)
    → ((share fm fd f).1.refs.cell (share fm fd f).0).file ≡ behind fm.refs f
unfolding share
share-behind fm fd (ref r) = ground arith
share-behind fm fd (plain n) = ground arith

-- References in use stay below the fresh ones.
pub share-unused :
    (fm : FileManager) (fd : ℕ) (f : File)
    → find fd fm.file_map ≡ some f
    → ((q : ℕ) → fm.refs.fresh ≤ q → users q fm.file_map ≡ 0)
    → (fm.refs.fresh ≤ (share fm fd f).1.refs.fresh)
      × ((share fm fd f).0 < (share fm fd f).1.refs.fresh)
      × ((q : ℕ) → (share fm fd f).1.refs.fresh ≤ q → users q (share fm fd f).1.file_map ≡ 0)
unfolding share
share-unused fm fd (ref r) e u = (omega arith, held, u)
  where
    one : is_ref r (find fd fm.file_map) ≡ 1
    one = rw e (ground arith)

    held : r < fm.refs.fresh
    held = ground (arith, one, u r, users-find r fd fm.file_map)
share-unused fm fd (plain n) e u = (
  omega arith,
  omega arith,
  λ q h. ground (arith, u q, users-insert q fd (ref fm.refs.fresh) fm.file_map),
)

pub share-word :
    (fm : FileManager) (fd : ℕ) (f : File)
    → ((q : ℕ) → (fm.refs.cell q).count < 18446744073709551616)
    → (q : ℕ) → ((share fm fd f).1.refs.cell q).count < 18446744073709551616
unfolding share
share-word fm fd (ref r) w q = ground (arith, w q)
share-word fm fd (plain n) w q = ground (arith, w q)

-- The descriptor `k` takes the reference that is counted already, and gives back what it held.
pub insert-Counted :
    (fm : FileManager) (n k r : ℕ)
    → 3 ≤ fm.refs.fresh
    → r < fm.refs.fresh
    → ((q : ℕ) → fm.refs.fresh ≤ q → users q fm.file_map ≡ 0)
    → ((q : ℕ) → (fm.refs.cell q).count < 18446744073709551616)
    → IsBalanced (λ q. is_ref q (find k fm.file_map)) (λ q. is_ref q (some (ref r))) fm
    → Counted (record fm { fd = n; file_map = insert k (ref r) fm.file_map })
insert-Counted fm n k r start used unused word b = record {
  start = start;
  unused = λ q h. ground (arith, unused q, users-insert q k (ref r) fm.file_map);
  word = word;
  balanced = λ q. omega (arith, b q, users-insert q k (ref r) fm.file_map);
}
