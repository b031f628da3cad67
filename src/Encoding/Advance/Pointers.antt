-- ===== src/Encoding/Advance/Pointers.antt =====
-- The stream of internal/debugger/stream.go moves on as the encoder expects.
use microdbg.Base.{
  ℕ, ◌≤◌, ◌≡◌, refl, ap, subst, Option, none, some, List, length, take, length-take, arith,
}
use microdbg.Word.{add64}
use microdbg.Word.Little.{le_bytes, length-le_bytes}
use microdbg.Errors.{Error, Result, ok, err, panic}
use microdbg.Emulator.{Machine}
use microdbg.Streams.Pointers.{
  PointerStream, skip, write, write_float, write_double, write_stream, after_write, after_alloc,
}
use microdbg.Streams.Instances.{wrote, pointer_streams}
use microdbg.Encoding.Advance.{Moving}

-- A write to the memory gives no error.
abbrev pub Writes : Machine → Type 0
Writes m = (p : ℕ) (b : List ℕ) (st : m.State) → (m.mem_write p b st).0 ≡ none

module _ (m : Machine) (fuel : ℕ) (alloc : ℕ → m.State → Result ℕ × m.State) (bs : ℕ) where
  abbrev pub Goes : PointerStream → PointerStream → ℕ → Type 0
  Goes s s' n = (s'.ptr ≡ add64 s.ptr n) × (s'.size ≡ bs)

  written-Goes :
      (n : ℕ) (s s' : PointerStream) (r : Option Error × m.State) (st' : m.State)
      → s.size ≡ bs
      → wrote m fuel alloc (after_write m s (n, r.0, r.1)) ≡ (ok tt, s', st')
      → Goes s s' n
  written-Goes n s s' (none, st) st' b e =
      let q : skip n s ≡ s' = ap (λ (u : Result (Unit {0}) × PointerStream × m.State). u.1) e in
      ground (arith, ap (λ (u : PointerStream). u.ptr) q, ap (λ (u : PointerStream). u.size) q)
  written-Goes n s s' (some x, st) st' b e = ground arith

  pub write-Goes :
      (bytes : List ℕ) (s s' : PointerStream) (st st' : m.State)
      → s.size ≡ bs
      → wrote m fuel alloc (write m bytes s st) ≡ (ok tt, s', st')
      → Goes s s' (length bytes)
  unfolding write
  write-Goes bytes s s' st st' b e =
      written-Goes (length bytes) s s' (m.mem_write (add64 s.ptr 0) bytes st) st' b e

  pub float-Goes :
      (f : ℕ) (s s' : PointerStream) (st st' : m.State)
      → s.size ≡ bs
      → wrote m fuel alloc (write_float m f s st) ≡ (ok tt, s', st')
      → Goes s s' 4
  unfolding write_float
  float-Goes f s s' st st' b e =
      omega (arith, write-Goes (le_bytes 4 f) s s' st st' b e, length-le_bytes 4 f)

  pub double-Goes :
      (d : ℕ) (s s' : PointerStream) (st st' : m.State)
      → s.size ≡ bs
      → wrote m fuel alloc (write_double m d s st) ≡ (ok tt, s', st')
      → Goes s s' 8
  unfolding write_double
  double-Goes d s s' st st' b e =
      omega (arith, write-Goes (le_bytes 8 d) s s' st st' b e, length-le_bytes 8 d)

  -- The address is written whole, where writes succeed.
  address-Goes :
      (s : PointerStream) (p : ℕ) (r : Option Error × m.State)
      → r.0 ≡ none
      → s.size ≡ bs
      → bs ≤ 8
      → Goes s (after_write m s (length (take s.size (le_bytes 8 p)), r.0, r.1)).1 bs
  address-Goes s p (none, st) e b small =
      (ap (add64 s.ptr) (omega (arith, length-take s.size (le_bytes 8 p), length-le_bytes 8 p)), b)
  address-Goes s p (some x, st) e b small = ground arith

  alloc-Goes :
      Writes m
      → (s s' sub : PointerStream) (r : Result ℕ × m.State) (st' : m.State) → s.size ≡ bs
      → bs ≤ 8
      → after_alloc m s r ≡ (ok sub, s', st')
      → Goes s s' bs
  unfolding write
  alloc-Goes writes s s' sub (ok p, st) st' b small e =
      let q : (write m (take s.size (le_bytes 8 p)) s st).1 ≡ s' =
        ap (λ (u : Result PointerStream × PointerStream × m.State). u.1) e in
      let far : Goes s (write m (take s.size (le_bytes 8 p)) s st).1 bs =
        address-Goes s p (m.mem_write (add64 s.ptr 0) (take s.size (le_bytes 8 p)) st)
          (writes (add64 s.ptr 0) (take s.size (le_bytes 8 p)) st) b small in
      subst (λ (u : PointerStream). Goes s u bs) q far
  alloc-Goes writes s s' sub (err x, st) st' b small e = ground arith
  alloc-Goes writes s s' sub (panic, st) st' b small e = ground arith

  pub stream-Goes :
      Writes m
      → bs ≤ 8
      → (n : ℕ) (s s' sub : PointerStream) (st st' : m.State) → s.size ≡ bs
      → write_stream m alloc n s st ≡ (ok sub, s', st')
      → Goes s s' bs
  unfolding write_stream
  stream-Goes writes small n s s' sub st st' b e =
      alloc-Goes writes s s' sub (alloc n st) st' b small e

  abbrev pub pointer_moving : Writes m → bs ≤ 8 → Moving (pointer_streams m fuel alloc) bs
  pointer_moving writes small = record {
    position = λ ps. ps.ptr;
    moved_by_skip = λ n s b. (refl, b);
    moved_by_write = write-Goes;
    moved_by_float = float-Goes;
    moved_by_double = double-Goes;
    moved_by_stream = stream-Goes writes small;
  }
