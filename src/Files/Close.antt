-- ===== src/Files/Close.antt =====
-- Closing descriptors of internal/debugger/file.go: `Close` of a `fileRef`, `CloseFileDescriptor` and
-- `Dup2File`.
use microdbg.Base.{ℕ, ◌≤◌, ◌<◌, ◌≡◌, refl, ap, true, false, Option, none, some, ◌==◌, length, arith}
use microdbg.Word.{add64}
use microdbg.Errors.{Error, ok, closed}
use microdbg.Files.Table.{
  File, plain, ref, find, erase, is_ref, users, users-erase, users-find, users_le,
}
use microdbg.Files.{
  Host, Refs, FileManager, close_file_descriptor, close, ref_closed, positive, minus_one,
}
use microdbg.Files.Count.{standard, IsBalanced, Counted}

module _ (h : Host) where
  -- What closing a file of the table does to the counts.
  pub close-IsBalanced :
      (fm : FileManager) (k : ℕ) (f : File) (st : h.State)
      → find k fm.file_map ≡ some f
      → length fm.file_map < 4611686018427387904
      → Counted fm
      → IsBalanced (λ q. is_ref q (some f)) (λ q. 0) (record fm { refs = (close h f fm.refs st).1 })
  unfolding close
  close-IsBalanced fm k (plain n) st e small c q = omega (arith, c.balanced q)
  close-IsBalanced fm k (ref r) st e small c q =
      ground (arith, c.balanced q, held q, users-find q k fm.file_map, users_le q fm.file_map)
    where
      held : (q : ℕ) → is_ref q (find k fm.file_map) ≡ is_ref q (some (ref r))
      held q = ap (is_ref q) e

  -- The three outcomes of closing a reference, by the descriptors that are left.
  closed-cases :
      (left std i file : ℕ) (st : h.State)
      → add64 i std ≡ left
      → left < 4611686018427387904
      → std ≤ 1
      → i < 18446744073709551616
      → (std < left → ref_closed h i file st ≡ (none, st))
        × (left ≡ std → ref_closed h i file st ≡ h.close_file file st)
        × (left < std → ref_closed h i file st ≡ (some closed, st))
  closed-cases left std i file st e small one word = (
    λ l. rw (more l) refl,
    λ l. rw (none_left l, zero_left l) refl,
    λ l. rw (fewer l, nonzero l) refl,
  )
    where
      more : std < left → positive i ≡ true
      more l = ground arith

      none_left : left ≡ std → positive i ≡ false
      none_left l = ground arith

      zero_left : left ≡ std → (i == 0) ≡ true
      zero_left l = ground arith

      fewer : left < std → positive i ≡ false
      fewer l = ground arith

      nonzero : left < std → (i == 0) ≡ false
      nonzero l = ground arith

  pub close-word :
      (refs : Refs) (f : File) (st : h.State)
      → ((q : ℕ) → (refs.cell q).count < 18446744073709551616)
      → (q : ℕ) → ((close h f refs st).1.cell q).count < 18446744073709551616
  unfolding close
  close-word refs (plain n) st w q = w q
  close-word refs (ref r) st w q = ground (arith, w q)

  pub close-fresh :
      (refs : Refs) (f : File) (st : h.State) → (close h f refs st).1.fresh ≡ refs.fresh
  unfolding close
  close-fresh refs (plain n) st = refl
  close-fresh refs (ref r) st = refl

-- The outcome of closing a shared file whose descriptor was taken out of the table, where `left`
-- descriptors still hold it.
abbrev pub Closes :
    (h : Host) → FileManager → ℕ → ℕ → h.State → Option Error × Refs × h.State → Type 0
Closes h fm r left st o =
    Counted (record fm { refs = o.1 })
    × (standard r < left → (o.0 ≡ none) × (o.2 ≡ st))
    × (left ≡ standard r → (o.0, o.2) ≡ h.close_file (fm.refs.cell r).file st)
    × (left < standard r → (o.0 ≡ some closed) × (o.2 ≡ st))

-- Taking a descriptor of a shared file out of the table and closing the file, when the counts are
-- right and the table has fewer than 2 ^ 62 descriptors: the counts are right again; while other
-- descriptors hold the file, it stays open, and with the last of them it is closed. The exception are
-- the standard streams: a descriptor fewer counts, so the stream is closed while one descriptor still
-- holds it, and closing that one fails.
pub close-Closes :
    (h : Host) (fm : FileManager) (fd r : ℕ) (st : h.State)
    → Counted fm
    → length fm.file_map < 4611686018427387904
    → find fd fm.file_map ≡ some (ref r)
    → let fm' = record fm { file_map = erase fd fm.file_map } in
      (close_file_descriptor fm fd ≡ (ok (ref r), fm'))
      × Closes h fm' r (users r (erase fd fm.file_map)) st (close h (ref r) fm.refs st)
unfolding close_file_descriptor close
close-Closes h fm fd r st c small e = (
  rw e refl,
  (
    record {
      start = c.start;
      unused = λ q f. omega (arith, c.unused q, users-erase q fd fm.file_map);
      word = close-word h fm.refs (ref r) st c.word;
      balanced = λ q. omega (
        arith,
        close-IsBalanced h fm fd (ref r) st e small c q,
        users-erase q fd fm.file_map,
        ap (is_ref q) e,
      );
    },
    λ l. (ap (λ o. o.0) (ends.0 l), ap (λ o. o.1) (ends.0 l)),
    λ l. ends.1 l,
    λ l. (ap (λ o. o.0) (ends.2 l), ap (λ o. o.1) (ends.2 l)),
  ),
)
  where
    left : ℕ
    left = users r (erase fd fm.file_map)

    i : ℕ
    i = add64 (fm.refs.cell r).count minus_one

    file : ℕ
    file = (fm.refs.cell r).file

    one : is_ref r (find fd fm.file_map) ≡ 1
    one = rw e (ground arith)

    total : add64 i (standard r) ≡ left
    total = omega (arith, c.balanced r, one, users-erase r fd fm.file_map, users_le r fm.file_map)

    ends :
        (standard r < left → ref_closed h i file st ≡ (none, st))
        × (left ≡ standard r → ref_closed h i file st ≡ h.close_file file st)
        × (left < standard r → ref_closed h i file st ≡ (some closed, st))
    ends =
        closed-cases h left (standard r) i file st total
          (omega (arith, users-erase r fd fm.file_map, users_le r fm.file_map)) (ground arith)
          (omega arith)
