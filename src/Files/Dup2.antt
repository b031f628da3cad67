-- ===== src/Files/Dup2.antt =====
-- `Dup2File` of internal/debugger/file.go.
use microdbg.Base.{
  ℕ, ◌≤◌, ◌<◌, ◌≡◌, ◌≢◌, refl, ap, ◌∙◌, false, Option, none, some, ◌==◌, length, arith,
}
use microdbg.Errors.{Error, not_exist}
use microdbg.Files.Table.{File, plain, ref, find, insert, is_ref}
use microdbg.Files.{
  Host, Refs, FileManager, share, close, displace, dup2_file, replaced, below_three,
}
use microdbg.Files.Count.{IsBalanced, Counted, behind}
use microdbg.Files.Share.{Shares, share-Shares}
use microdbg.Files.Close.{close-IsBalanced, close-word, close-fresh}

module _ (h : Host) where
  close-file :
      (refs : Refs) (f : File) (st : h.State) (q : ℕ)
      → ((close h f refs st).1.cell q).file ≡ (refs.cell q).file
  unfolding close
  close-file refs (plain n) st q = refl
  close-file refs (ref r) st q = ground arith

-- What closing the displaced file leaves as it was, and what it does to the counts.
record Displaced (fm : FileManager) (refs : Refs) (old : Option File) : Type 0 where
  pub fresh : refs.fresh ≡ fm.refs.fresh
  pub word : (q : ℕ) → (refs.cell q).count < 18446744073709551616
  pub file : (q : ℕ) → (refs.cell q).file ≡ (fm.refs.cell q).file
  pub balanced : IsBalanced (λ q. is_ref q old) (λ q. 0) (record fm { refs = refs })

-- The outcome of `Dup2File` on two descriptors, where the old one holds `file`, if any.
abbrev pub Replaces :
    (h : Host)
    → FileManager
    → ℕ
    → ℕ
    → Option File
    → h.State
    → Option Error × FileManager × h.State
    → Type 0
Replaces h fm oldfd newfd none st o = (o.0 ≡ some not_exist) × (o.1 ≡ fm) × (o.2 ≡ st)
Replaces h fm oldfd newfd (some file) st o = (o.0 ≡ none) × Shares fm oldfd newfd file o.1

module _ (h : Host) (fm : FileManager) (oldfd newfd : ℕ) (apart : oldfd ≢ newfd) (c : Counted fm)
    (small : length fm.file_map < 4611686018427387904) where
  behind-Displaced :
      (f : File) (refs : Refs)
      → Displaced fm refs (find newfd fm.file_map)
      → behind refs f ≡ behind fm.refs f
  behind-Displaced (plain n) refs d = refl
  behind-Displaced (ref r) refs d = d.file r

  shared-Replaces :
      (f : File) (refs : Refs) (st st' : h.State)
      → find oldfd fm.file_map ≡ some f
      → Displaced fm refs (find newfd fm.file_map)
      → Replaces h fm oldfd newfd (some f) st (
          let (r, fm2) = share (record fm { refs = refs }) oldfd f in
          (none, record fm2 { file_map = insert newfd (ref r) fm2.file_map }, st'))
  shared-Replaces f refs st st' e d =
      let (counted, (r, old, new, file), others) =
        share-Shares (record fm { refs = refs }) oldfd newfd (rw d.fresh c.start)
          (λ q l. c.unused q (omega (arith, l, d.fresh))) d.word small apart d.balanced _ f e in
      (refl, (counted, (r, old, new, file ∙ behind-Displaced f refs d), others))

  displaced-Replaces :
      (f : File) (old : Option File) (st : h.State)
      → find oldfd fm.file_map ≡ some f
      → find newfd fm.file_map ≡ old
      → Replaces h fm oldfd newfd (some f) st (
          let (fm1, st') = displace h fm old st in
          let (r, fm2) = share fm1 oldfd f in
          (none, record fm2 { file_map = insert newfd (ref r) fm2.file_map }, st'))
  unfolding displace
  displaced-Replaces f none st e g = shared-Replaces f fm.refs st st e (record {
    fresh = refl;
    word = c.word;
    file = λ q. refl;
    balanced = λ q. omega (arith, c.balanced q, ap (is_ref q) g);
  })
  displaced-Replaces f (some old) st e g =
      shared-Replaces f (close h old fm.refs st).1 st (close h old fm.refs st).2 e (record {
        fresh = close-fresh h fm.refs old st;
        word = close-word h fm.refs old st c.word;
        file = close-file h fm.refs old st;
        balanced =
            λ q. omega (arith, close-IsBalanced h fm newfd old st g small c q, ap (is_ref q) g);
      })

  replaced-Replaces :
      (file : Option File) (st : h.State)
      → find oldfd fm.file_map ≡ file
      → Replaces h fm oldfd newfd file st (replaced h fm oldfd newfd file st)
  replaced-Replaces none st e = (refl, refl, refl)
  replaced-Replaces (some f) st e = displaced-Replaces f (find newfd fm.file_map) st e refl

-- Making the descriptor `newfd`, not a standard stream's, a second one for the file of another
-- descriptor `oldfd`, when the counts are right and the table has fewer than 2 ^ 62 of them: if `oldfd` is not in use the result is the error and
-- nothing changes. Else there is no error, both hold the same reference to the file that `oldfd` held,
-- the other descriptors hold what they held, and the counts are right again, those of the file that
-- `newfd` held included.
pub dup2_file-Replaces :
    (h : Host) (fm : FileManager) (oldfd newfd : ℕ) (st : h.State)
    → oldfd ≢ newfd
    → 3 ≤ newfd
    → newfd < 9223372036854775808
    → Counted fm
    → length fm.file_map < 4611686018427387904
    → Replaces h fm oldfd newfd (find oldfd fm.file_map) st (dup2_file h fm oldfd newfd st)
unfolding dup2_file
dup2_file-Replaces h fm oldfd newfd st apart low high c small =
    rw (differ, other)
      (replaced-Replaces h fm oldfd newfd apart c small (find oldfd fm.file_map) st refl)
  where
    differ : (oldfd == newfd) ≡ false
    differ = ground arith

    other : below_three newfd ≡ false
    other = ground arith
