-- ===== src/Calls/RoundTrip/Written.antt =====
-- What writing arguments with `ArgWrite` of internal/debugger/arm64/arm64.go leaves in the registers
-- and in the buffer that stands for the stack.
use microdbg.Base.{
  ℕ, zero, suc, ◌+◌, ◌-◌, ◌*◌, ◌%◌, ◌^◌, ◌≤◌, ◌<◌, ◌≡◌, ◌≢◌, refl, subst, inl, inr, ◌∙◌, max, true,
  List, [], ◌∷◌, ◌&&◌, length, ltb, leb, arith,
}
use microdbg.Word.{align}
use microdbg.Bytes.{byte_at, written}
use microdbg.Errors.{ok}
use microdbg.Emulator.{Machine}
use microdbg.Buffer.{write_at}
use microdbg.Buffer.Correct.{write_at_lem}
use microdbg.Streams.Registers as Reg
use microdbg.Streams.Registers.{RegStream, buffer, align_offsets}
use microdbg.Streams.Instances.{CallStream}
use microdbg.Encoding.Memory.{Memory}
use microdbg.Calls.{Cpu, write_args}
use microdbg.Calls.Words.{IsWordSize, value_of, take-value_of}
use microdbg.Calls.RoundTrip.{Behaves, IsUsed, Arg, values, AreSources, Holds, slice_lem}
use microdbg.Calls.RoundTrip.Placed as Placed
use microdbg.Calls.RoundTrip.Placed.{pair-eq, align-bounds}

module _ (m : Machine) (cpu : Cpu) (fuel scratch : ℕ) (size : IsWordSize cpu.abi.pointer_size)
    (low top : ℕ) (laws : Behaves m cpu low top) (go : Memory) where
  abbrev at_word : ℕ → ℕ → ℕ → Reg.Stack → CallStream
  at_word = Placed.at_word m cpu fuel scratch size go

  -- The outcome of writing arguments, from a place on.
  pub record Written (as' : List Arg) (l k s old : ℕ) (buf : List ℕ) (st : m.State) : Type 0 where
    pub k' : ℕ
    pub s' : ℕ
    pub old' : ℕ
    pub buf' : List ℕ
    pub st' : m.State
    pub wrote :
        write_args m cpu fuel scratch go (values as') (at_word k s old (buffer buf)) st
        ≡ (ok tt, at_word k' s' old' (buffer buf'), st')
    pub within : length buf' ≤ s'
    pub bounded : s' ≤ s + 12 * length as'
    pub longer : length buf ≤ length buf'
    pub kept : (i : ℕ) → i < length buf → byte_at buf' i ≡ byte_at buf i
    pub below :
        (j : ℕ)
        → j < k
        → m.reg_read (cpu.abi.first_gr + j) st' ≡ m.reg_read (cpu.abi.first_gr + j) st
    pub sp_kept : m.reg_read cpu.sp st' ≡ m.reg_read cpu.sp st
    pub ready' : laws.ready st'
    pub holds : Holds m cpu as' l k s st' buf'

  arg-IsUsed : (j : ℕ) → j < cpu.abi.arg_reg_count → IsUsed cpu (cpu.abi.first_gr + j)
  arg-IsUsed j less = inl (j, less, refl)

  module _ (few : cpu.abi.arg_reg_count < 1000) (narrow : cpu.abi.pointer_size ≤ 8)
      (apart : (j : ℕ) → j < cpu.abi.arg_reg_count → cpu.sp ≢ cpu.abi.first_gr + j) where
    put_first :
        (a : Arg) (as' : List Arg) (l k s old : ℕ) (buf : List ℕ) (st : m.State)
        → k + suc l ≡ cpu.abi.arg_reg_count
        → align s 4 ≡ s
        → AreSources go cpu.abi.pointer_size (a ∷ as')
        → laws.ready st
        → Written as' l
            (suc k)
            s
            (value_of m cpu.abi size old a.bytes)
            buf
            (m.reg_write (cpu.abi.first_gr + k) (value_of m cpu.abi size old a.bytes) st).1
        → Written (a ∷ as') (suc l) k s old buf st
    unfolding write_args
    put_first a as' l k s old buf st total flat (pos, some', fits, there, bytes, more) up w =
        record {
          k' = w.k';
          s' = w.s';
          old' = w.old';
          buf' = w.buf';
          st' = w.st';
          wrote =
              Placed.in_register m cpu fuel scratch size go k s old (buffer buf) st _ a.source
                a.bytes (omega arith) (omega arith) flat pos some' fits there
                (pair-eq (m.reg_write (cpu.abi.first_gr + k) v st)
                  (laws.writes (cpu.abi.first_gr + k) v st used up).0)
                (write_args m cpu fuel scratch go (values as'))
              ∙ w.wrote;
          within = w.within;
          bounded = omega (arith, w.bounded);
          longer = w.longer;
          kept = w.kept;
          below = λ j less.
              w.below j (omega arith)
              ∙ laws.others (cpu.abi.first_gr + k) (cpu.abi.first_gr + j) v st used
                  (arg-IsUsed j (omega arith)) up (omega arith);
          sp_kept =
              w.sp_kept
              ∙ laws.others (cpu.abi.first_gr + k) cpu.sp v st used (inr refl) up
                  (apart k (omega arith));
          ready' = w.ready';
          holds = (
            (
              v % 256 ^ cpu.abi.pointer_size,
              w.below k (omega arith) ∙ laws.same (cpu.abi.first_gr + k) v st used up,
              take-value_of m cpu.abi size old a.bytes bytes fits,
            ),
            w.holds,
          );
        }
      where
        v : ℕ
        v = value_of m cpu.abi size old a.bytes

        used : IsUsed cpu (cpu.abi.first_gr + k)
        used = arg-IsUsed k (omega arith)

    put_next :
        (a : Arg) (as' : List Arg) (s old : ℕ) (buf : List ℕ) (st : m.State)
        → length buf ≤ s
        → s + length a.bytes < 9223372036854775000
        → AreSources go cpu.abi.pointer_size (a ∷ as')
        → Written as' 0 cpu.abi.arg_reg_count
            (align (s + length a.bytes) 4)
            old
            (write_at buf a.bytes s).1
            st
        → Written (a ∷ as') 0 cpu.abi.arg_reg_count s old buf st
    unfolding write_args
    put_next a as' s old buf st within room (pos, some', fits, there, bytes, more) w = record {
      k' = w.k';
      s' = w.s';
      old' = w.old';
      buf' = w.buf';
      st' = w.st';
      wrote =
          Placed.onto_stack m cpu fuel scratch size go s old buf a.bytes st a.source few pos there
            (omega arith) (write_args m cpu fuel scratch go (values as'))
          ∙ w.wrote;
      within = w.within;
      bounded =
          omega (arith, w.bounded, align-bounds (s + length a.bytes) (omega arith), fits, narrow);
      longer = omega (arith, w.longer, grown);
      kept = λ i less.
          w.kept i (omega (arith, grown))
          ∙ (write_at_lem buf a.bytes s (omega arith)).2 i
          ∙ ground arith;
      below = w.below;
      sp_kept = w.sp_kept;
      ready' = w.ready';
      holds = (
        (
          omega (arith, w.longer, grown),
          slice_lem s w.buf' a.bytes (omega (arith, w.longer, grown)) there',
        ),
        w.holds,
      );
    }
      where
        grown : length (write_at buf a.bytes s).1 ≡ max (length buf) (s + length a.bytes)
        grown = (write_at_lem buf a.bytes s (omega arith)).1

        inside : (i : ℕ) → i < length a.bytes → written buf s a.bytes (s + i) ≡ byte_at a.bytes i
        inside i less =
            let q : s + i - s ≡ i = omega arith in
            let t : leb s (s + i) && ltb (s + i) (s + length a.bytes) ≡ true = ground arith in
            rw (t, q) refl

        there' : (i : ℕ) → i < length a.bytes → byte_at w.buf' (s + i) ≡ byte_at a.bytes i
        there' i less =
            w.kept (s + i) (omega (arith, grown))
            ∙ (write_at_lem buf a.bytes s (omega arith)).2 (s + i)
            ∙ inside i less

    pub put_all :
        (as' : List Arg) (l k s old : ℕ) (buf : List ℕ) (st : m.State)
        → k + l ≡ cpu.abi.arg_reg_count
        → align s 4 ≡ s
        → length buf ≤ s
        → s + 12 * length as' < 9223372036854775000
        → AreSources go cpu.abi.pointer_size as'
        → laws.ready st
        → Written as' l k s old buf st
    unfolding write_args
    put_all [] l k s old buf st total flat within room sources up = record {
      k' = k;
      s' = s;
      old' = old;
      buf' = buf;
      st' = st;
      wrote = refl;
      within = within;
      bounded = omega arith;
      longer = omega arith;
      kept = λ i less. refl;
      below = λ j less. refl;
      sp_kept = refl;
      ready' = up;
      holds = tt;
    }
    put_all (a ∷ as') (suc l) k s old buf st total flat within room sources up =
        put_first a as' l k s old buf st total flat sources up (
          put_all as' l (suc k) s _ buf _ (omega arith) flat within (omega arith) sources.5
            (laws.writes (cpu.abi.first_gr + k) (value_of m cpu.abi size old a.bytes) st
              (arg-IsUsed k (omega arith)) up).1)
    put_all (a ∷ as') zero k s old buf st total flat within room sources up =
        let q : cpu.abi.arg_reg_count ≡ k = omega arith in
        let low : s + length a.bytes < 9223372036854775000 = omega (arith, sources, narrow) in
        let bounds = align-bounds (s + length a.bytes) (omega arith) in
        let grown = (write_at_lem buf a.bytes s (omega arith)).1 in
        subst (λ (j : ℕ). Written (a ∷ as') 0 j s old buf st) q
          (put_next a as' s old buf st within low sources (
            put_all as' 0 cpu.abi.arg_reg_count (align (s + length a.bytes) 4) old _ st
              (omega arith) bounds.2 (omega (arith, bounds, grown))
              (omega (arith, bounds, sources, narrow)) sources.5 up))
