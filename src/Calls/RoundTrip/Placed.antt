-- ===== src/Calls/RoundTrip/Placed.antt =====
-- Writing one argument with `ArgWrite` of internal/debugger/arm64/arm64.go.
use microdbg.Base.{
  ℕ, suc, ◌+◌, ◌*◌, ◌≤◌, ◌<◌, ◌≡◌, inl, inr, refl, sym, subst, false, Option, none, some, List, [],
  ◌∷◌, length, ◌==◌, arith,
}
use microdbg.Word.{align}
use microdbg.Word.Align.{align_rounds_up}
use microdbg.Errors.{Error, Result, ok}
use microdbg.Emulator.{Machine}
use microdbg.Buffer.{write_at}
use microdbg.Buffer.Correct.{write_at_lem}
use microdbg.Streams.Registers as Reg
use microdbg.Streams.Registers.{RegStream, buffer, align_offsets}
use microdbg.Streams.Registers.Write as Write
use microdbg.Streams.Instances.{CallStream, regs, call_streams}
use microdbg.Encoding.{fixed}
use microdbg.Encoding.Memory.{Memory, load}
use microdbg.Encoding.Encode.{encode}
use microdbg.Encoding.Values.{encode_value}
use microdbg.Calls.{Cpu, after_arg, alloc}
use microdbg.Calls.Words.{IsWordSize, placed, part_placed, value_of, write_in_register, next_word}
use microdbg.Calls.Words.Others.{write_on_stack}

pub pair-eq : {S : Type 0} (p : Option Error × S) → p.0 ≡ none → p ≡ (none, p.1)
pair-eq (none, s) e = refl
pair-eq (some x, s) e = ground arith

pub whole_words : (p k : ℕ) → IsWordSize p → k < 1000 → align (k * p) p ≡ k * p
whole_words p k (inl e) small =
    subst (λ q. align (k * q) q ≡ k * q) (sym e)
      (omega (arith, align_rounds_up (k * 4) 2 (omega arith)))
whole_words p k (inr e) small =
    subst (λ q. align (k * q) q ≡ k * q) (sym e)
      (omega (arith, align_rounds_up (k * 8) 3 (omega arith)))

pub align-bounds :
    (s : ℕ)
    → s < 9223372036854775808
    → (s ≤ align s 4) × (align s 4 ≤ s + 3) × (align (align s 4) 4 ≡ align s 4)
align-bounds s small =
    let a = align_rounds_up s 2 (omega arith) in
    let b = align_rounds_up (align s 4) 2 (omega (arith, a)) in omega (arith, a, b)

module _ (m : Machine) (cpu : Cpu) (fuel scratch : ℕ) (size : IsWordSize cpu.abi.pointer_size)
    (go : Memory) where
  abbrev pub Gone : Type 0
  Gone = Result (Unit {0}) × CallStream × m.State

  abbrev pub at_word : ℕ → ℕ → ℕ → Reg.Stack → CallStream
  at_word k s old stack = regs (placed m cpu.abi size k s 0 old stack)

  -- A value of a fixed size is written as it stands in memory.
  pub encode-fixed :
      (n p : ℕ) (b : List ℕ) (s : CallStream) (st : m.State)
      → 0 < p
      → load go p n ≡ some b
      → encode_value
          (call_streams m cpu.abi fuel (alloc m cpu fuel scratch))
          scratch
          go
          (fixed n, p)
          s
          st
        ≡ (call_streams m cpu.abi fuel (alloc m cpu fuel scratch)).write b s st
  unfolding encode_value encode
  encode-fixed n p b s st pos e = rw (there, e) refl
    where
      there : (p == 0) ≡ false
      there = ground arith

  pub nonempty_write :
      (k s old : ℕ) (stack : Reg.Stack) (st st' : m.State) (b : List ℕ)
      → k < cpu.abi.arg_reg_count
      → 0 < length b
      → length b ≤ cpu.abi.pointer_size
      → m.reg_write (cpu.abi.first_gr + k) (value_of m cpu.abi size old b) st ≡ (none, st')
      → Write.write m cpu.abi b (placed m cpu.abi size k s 0 old stack) st ≡ (
        ok (length b),
        part_placed m cpu.abi size k (length b) s 0 (value_of m cpu.abi size old b) stack,
        st',
      )
  nonempty_write k s old stack st st' [] inside pos fits e = absurd (omega arith)
  nonempty_write k s old stack st st' (x ∷ xs) inside pos fits e =
      write_in_register m cpu.abi size k s 0 old stack st st' x xs inside fits e

  -- One argument into a register, with the stream aligned after it.
  pub in_register :
      (k s old : ℕ) (stack : Reg.Stack) (st st' : m.State) (p : ℕ) (b : List ℕ)
      → k < cpu.abi.arg_reg_count
      → k < 1000
      → align s 4 ≡ s
      → 0 < p
      → 0 < length b
      → length b ≤ cpu.abi.pointer_size
      → load go p (length b) ≡ some b
      → m.reg_write (cpu.abi.first_gr + k) (value_of m cpu.abi size old b) st ≡ (none, st')
      → (more : CallStream → m.State → Gone)
      → after_arg m cpu fuel scratch
          (encode_value
            (call_streams m cpu.abi fuel (alloc m cpu fuel scratch))
            scratch
            go
            (fixed (length b), p)
            (at_word k s old stack)
            st)
          more
        ≡ more (at_word (suc k) s (value_of m cpu.abi size old b) stack) st'
  unfolding align_offsets
  in_register k s old stack st st' p b inside small flat pos some' fits there e more =
      rw
        (
          encode-fixed (length b) p b (at_word k s old stack) st pos there,
          nonempty_write k s old stack st st' b inside some' fits e,
          flat,
          next_word cpu.abi.pointer_size k (length b) size some' fits small,
        )
        refl

  -- One argument onto the stack.
  pub onto_stack :
      (s old : ℕ) (buf b : List ℕ) (st : m.State) (p : ℕ)
      → cpu.abi.arg_reg_count < 1000
      → 0 < p
      → load go p (length b) ≡ some b
      → s + length b < 9223372036854775808
      → (more : CallStream → m.State → Gone)
      → after_arg m cpu fuel scratch
          (encode_value
            (call_streams m cpu.abi fuel (alloc m cpu fuel scratch))
            scratch
            go
            (fixed (length b), p)
            (at_word cpu.abi.arg_reg_count s old (buffer buf))
            st)
          more
        ≡ more
            (at_word cpu.abi.arg_reg_count
              (align (s + length b) 4)
              old
              (buffer (write_at buf b s).1))
            st
  unfolding align_offsets
  onto_stack s old buf b st p small pos there room more =
      rw
        (
          encode-fixed (length b) p b (at_word cpu.abi.arg_reg_count s old (buffer buf)) st pos
              there,
          write_on_stack m cpu.abi size (length b) s 0 old buf b st (write_at_lem buf b s room).0,
          whole_words cpu.abi.pointer_size cpu.abi.arg_reg_count size small,
        )
        refl
