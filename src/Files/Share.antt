-- ===== src/Files/Share.antt =====
-- How `DupFile` and `Dup2File` of internal/debugger/file.go end: a second descriptor takes a file.
use microdbg.Base.{ℕ, ◌≤◌, ◌<◌, ◌≡◌, ◌≢◌, sym, ap, ◌∙◌, some, length, arith}
use microdbg.Files.Table.{
  File, ref, find, insert, is_ref, users, users-find, find-insert, find-insert_other,
}
use microdbg.Files.{FileManager, share}
use microdbg.Files.Count.{
  IsBalanced, Counted, share-IsBalanced, behind, share-find, share-find_other, share-behind,
  share-unused, share-word, insert-Counted,
}

-- Both descriptors hold the same reference to the file, and the others hold what they held.
abbrev pub Shares : FileManager → ℕ → ℕ → File → FileManager → Type 0
Shares fm fd newfd file fm' =
    Counted fm'
    × ((r : ℕ) × (find fd fm'.file_map ≡ some (ref r))
        × (find newfd fm'.file_map ≡ some (ref r))
        × ((fm'.refs.cell r).file ≡ behind fm.refs file))
    × ((j : ℕ) → fd ≢ j → newfd ≢ j → find j fm'.file_map ≡ find j fm.file_map)

module _ (fm : FileManager) (fd newfd : ℕ) (start : 3 ≤ fm.refs.fresh)
    (unused : (q : ℕ) → fm.refs.fresh ≤ q → users q fm.file_map ≡ 0)
    (word : (q : ℕ) → (fm.refs.cell q).count < 18446744073709551616)
    (small : length fm.file_map < 4611686018427387904) (apart : fd ≢ newfd)
    (b : IsBalanced (λ q. is_ref q (find newfd fm.file_map)) (λ q. 0) fm) where
  pub share-Shares :
      (n : ℕ) (f : File)
      → find fd fm.file_map ≡ some f
      → Shares fm fd newfd f (record (share fm fd f).1 {
        fd = n;
        file_map = insert newfd (ref (share fm fd f).0) (share fm fd f).1.file_map;
      })
  share-Shares n f e = (
    insert-Counted m n newfd r (omega (arith, start, kept.0)) kept.1 kept.2
        (share-word fm fd f word) balance,
    (
      r,
      find-insert_other fd newfd (ref r) m.file_map (λ h. apart (sym h)) ∙ share-find fm fd f e,
      find-insert newfd (ref r) m.file_map,
      share-behind fm fd f,
    ),
    λ j ne ne'. find-insert_other j newfd (ref r) m.file_map ne' ∙ share-find_other fm fd j f ne,
  )
    where
      r : ℕ
      r = (share fm fd f).0

      m : FileManager
      m = (share fm fd f).1

      kept :
          (fm.refs.fresh ≤ m.refs.fresh)
          × (r < m.refs.fresh)
          × ((q : ℕ) → m.refs.fresh ≤ q → users q m.file_map ≡ 0)
      kept = share-unused fm fd f e unused

      balance : IsBalanced (λ q. is_ref q (find newfd m.file_map)) (λ q. is_ref q (some (ref r))) m
      balance q = omega (
        arith,
        share-IsBalanced fm fd (λ q. is_ref q (find newfd fm.file_map)) start unused small
            (λ q. users-find q newfd fm.file_map) b f e q,
        ap (is_ref q) (share-find_other fm fd newfd f apart),
      )
