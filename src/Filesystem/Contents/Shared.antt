-- ===== src/Filesystem/Contents/Shared.antt =====
-- Opening a file of filesystem/virtual.go that other open files share.
use Prim.Native.Nat.{bit_and}
use microdbg.Base.{
  ℕ, ◌+◌, ◌<◌, ◌≡◌, ◌≢◌, refl, ap, ◌∙◌, true, false, List, [], ◌∷◌, ◌++◌, length, take, ltb, ◌==◌,
  arith,
}
use microdbg.Errors.{ok, panic}
use microdbg.Bytes.{overwrite, overwrite-to_end}
use microdbg.Filesystem.Contents.{
  o_wronly, o_rdwr, o_excl, o_trunc, o_append, has, Store, set_data, File, open_file, read, write,
}
use microdbg.Filesystem.Contents.Write.{write-eq}

-- What opening and then writing leaves in the file.
abbrev pub Leaves : Store → ℕ → ℕ → List ℕ → List ℕ → Type 0
Leaves store f flag b expected =
    (h : File) × (store' : Store) × (open_file store f [] flag ≡ (ok h, store'))
    × ((write store' h b).0 ≡ ok (length b))
    × ((write store' h b).2 f ≡ expected)

module _ (store : Store) (f flag : ℕ) (b : List ℕ) (writable : has flag (o_wronly + o_rdwr) ≡ true)
    (not_excl : has flag o_excl ≡ false) where
  own : (f == f) ≡ true
  own = ground arith

  take-length : (xs : List ℕ) → take (length xs) xs ≡ xs
  take-length [] = refl
  take-length (x ∷ xs) = ap (λ l. x ∷ l) (take-length xs)

  -- The bytes written right after the file was opened for writing stand at its end if it was opened to
  -- append, are all that it holds if it was opened to truncate, and stand over its start if neither
  -- or both were asked for. The condition is that it was not to be created anew.
  pub write-open_file :
      (bit_and flag (o_append + o_trunc) ≡ o_append → Leaves store f flag b (store f ++ b))
      × (bit_and flag (o_append + o_trunc) ≡ o_trunc → Leaves store f flag b b)
      × (bit_and flag (o_append + o_trunc) ≢ o_append
          → bit_and flag (o_append + o_trunc) ≢ o_trunc
          → Leaves store f flag b (overwrite (store f) 0 b))
  unfolding open_file
  write-open_file = (appended, truncated, plain)
    where
      at_end : File
      at_end = record { fs = f; flag = flag; off = length (store f) }

      at_start : File
      at_start = record { fs = f; flag = flag; off = 0 }

      appended : bit_and flag (o_append + o_trunc) ≡ o_append → Leaves store f flag b (store f ++ b)
      appended e = (
        at_end,
        store,
        rw (not_excl, e) refl,
        rw (write-eq store at_end b writable (omega arith)) refl,
        rw (write-eq store at_end b writable (omega arith), own)
            (overwrite-to_end (store f) (length (store f)) b (omega arith)
              ∙ ap (λ l. l ++ b) (take-length (store f))),
      )

      truncated : bit_and flag (o_append + o_trunc) ≡ o_trunc → Leaves store f flag b b
      truncated e = (
        at_start,
        set_data f [] store,
        rw (not_excl, e) refl,
        rw (write-eq (set_data f [] store) at_start b writable (omega arith)) refl,
        rw (write-eq (set_data f [] store) at_start b writable (omega arith), own)
            (overwrite-to_end [] 0 b (omega arith)),
      )

      plain :
          bit_and flag (o_append + o_trunc) ≢ o_append
          → bit_and flag (o_append + o_trunc) ≢ o_trunc
          → Leaves store f flag b (overwrite (store f) 0 b)
      plain na nt = (
        at_start,
        store,
        rw (not_excl, no_append, no_trunc) refl,
        rw (write-eq store at_start b writable (omega arith)) refl,
        rw (write-eq store at_start b writable (omega arith), own) refl,
      )
        where
          no_append : (bit_and flag (o_append + o_trunc) == o_append) ≡ false
          no_append = ground arith

          no_trunc : (bit_and flag (o_append + o_trunc) == o_trunc) ≡ false
          no_trunc = ground arith

-- After a file was opened again to truncate it, reading panics on an open file whose offset is behind
-- its start, and so does writing.
pub open_file-panics :
    (store : Store) (h : File) (flag n : ℕ) (b : List ℕ)
    → has flag o_excl ≡ false
    → bit_and flag (o_append + o_trunc) ≡ o_trunc
    → 0 < h.off
    → let store' = (open_file store h.fs [] flag).1 in
      (has h.flag o_wronly ≡ false → (read store' h n).0 ≡ panic)
      × (has h.flag (o_wronly + o_rdwr) ≡ true → (write store' h b).0 ≡ panic)
unfolding open_file read write
open_file-panics store h flag n b not_excl trunc pos =
    rw (not_excl, trunc, own) ((λ r. rw (r, behind) refl), (λ w. rw (w, behind) refl))
  where
    own : (h.fs == h.fs) ≡ true
    own = ground arith

    behind : ltb 0 h.off ≡ true
    behind = ground arith
