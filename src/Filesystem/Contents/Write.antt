-- ===== src/Filesystem/Contents/Write.antt =====
-- Writing to an open file of filesystem/virtual.go, and reading back.
use microdbg.Base.{
  ℕ, ◌+◌, ◌-◌, ◌≤◌, ◌<◌, max, ◌≡◌, ◌≢◌, refl, ap, sym, ◌||◌, true, false, List, ◌++◌, length, take,
  ltb, leb, ◌==◌, if◌then◌else◌, Bool-cases, inl, inr, arith,
}
use microdbg.Errors.{ok}
use microdbg.Bytes.{
  byte_at, overwrite, written, byte_at-overwrite, length-overwrite, take-overwrite,
  overwrite-to_end,
}
use microdbg.Filesystem.Contents.{
  o_wronly, o_rdwr, has, Store, set_data, File, seek, seek_start, read, write,
}

module _ (store : Store) (h : File) (b : List ℕ) (writable : has h.flag (o_wronly + o_rdwr) ≡ true)
    (inside : h.off ≤ length (store h.fs)) where
  -- Both branches leave the same bytes.
  pub write-eq : write store h b ≡ (
    ok (length b),
    record h { off = h.off + length b },
    set_data h.fs (overwrite (store h.fs) h.off b) store,
  )
  unfolding write
  write-eq =
      rw (writable, within)
        (ap (λ l. (ok (length b), record h { off = h.off + length b }, set_data h.fs l store)) same)
    where
      within : ltb (length (store h.fs)) h.off ≡ false
      within = ground arith

      same :
          (if leb (length b) (length (store h.fs) - h.off)
            then overwrite (store h.fs) h.off b
            else take h.off (store h.fs) ++ b)
          ≡ overwrite (store h.fs) h.off b
      same = elim (Bool-cases (leb (length b) (length (store h.fs) - h.off))) [
        | inl fits ↦ rw fits refl
        | inr longer ↦ rw longer (sym (overwrite-to_end (store h.fs) h.off b (ground arith)))
      ]

  -- Writing to a file that is open for writing, at an offset that is not beyond the end: all bytes are
  -- written and their number is returned; they stand at the offset and every other byte is as it was;
  -- the file grows just as far as they reach, the offset moves past them, and the other files are as
  -- they were.
  pub write_lem :
      let o = write store h b in
      (o.0 ≡ ok (length b))
      × (o.1 ≡ record h { off = h.off + length b })
      × (length (o.2 h.fs) ≡ max (length (store h.fs)) (h.off + length b))
      × ((i : ℕ) → byte_at (o.2 h.fs) i ≡ written (store h.fs) h.off b i)
      × ((g : ℕ) → g ≢ h.fs → o.2 g ≡ store g)
  write_lem = rw write-eq (
    refl,
    refl,
    rw own (length-overwrite (store h.fs) h.off b inside),
    λ i. rw own (byte_at-overwrite (store h.fs) h.off b inside i),
    λ g ne. ground arith,
  )
    where
      own : (h.fs == h.fs) ≡ true
      own = ground arith

  -- Bytes that were written, one at least, are read back after the file was rewound to where they were
  -- written, if it is open for reading as well. The condition is that the offset is an int64.
  pub read-write :
      has h.flag o_wronly ≡ false
      → h.off < 9223372036854775808
      → 0 < length b
      → let o = write store h b in
        let s = seek o.2 o.1 h.off seek_start in
        (s.0 ≡ ok h.off) × ((read o.2 s.1 (length b)).0 ≡ ok b)
  unfolding seek read
  read-write readable word pos =
      rw (write-eq, own, found)
        (refl, rw (readable, own, within, more, take-overwrite (store h.fs) h.off b inside) refl)
    where
      own : (h.fs == h.fs) ≡ true
      own = ground arith

      size : length (overwrite (store h.fs) h.off b) ≡ max (length (store h.fs)) (h.off + length b)
      size = length-overwrite (store h.fs) h.off b inside

      found :
          leb 0x8000000000000000 h.off || leb (length (overwrite (store h.fs) h.off b)) h.off
          ≡ false
      found = ground (arith, size)

      within : ltb (length (overwrite (store h.fs) h.off b)) h.off ≡ false
      within = ground (arith, size)

      more : (length (overwrite (store h.fs) h.off b) - h.off == 0) ≡ false
      more = ground (arith, size)
