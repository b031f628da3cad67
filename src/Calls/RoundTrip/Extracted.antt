-- ===== src/Calls/RoundTrip/Extracted.antt =====
-- What `Args` of internal/debugger/arm64/arm64.go extracts from registers and a stack that hold
-- arguments.
use microdbg.Base.{
  ℕ, zero, suc, ◌+◌, ◌≤◌, ◌<◌, ◌≡◌, refl, ap, sym, subst, ◌∙◌, false, Option, none, some, List, [],
  ◌∷◌, length, take, drop, ◌==◌, arith,
}
use microdbg.Word.{add64, align}
use microdbg.Word.Little.{le_bytes}
use microdbg.Errors.{Result, ok}
use microdbg.Emulator.{Machine}
use microdbg.Streams.Registers as Reg
use microdbg.Streams.Registers.{RegStream, align_offsets}
use microdbg.Streams.Registers.Read as Read
use microdbg.Streams.Instances.{CallStream, regs, call_streams}
use microdbg.Encoding.{fixed, pointer}
use microdbg.Encoding.Memory.{Heap, store}
use microdbg.Encoding.Decode.{decode}
use microdbg.Encoding.Values.{decode_value}
use microdbg.Calls.{Cpu, extract, next_arg, alloc}
use microdbg.Calls.Words.{IsWordSize, placed, part_placed, next_word}
use microdbg.Calls.Words.Others.{read_in_register, read_on_stack}
use microdbg.Calls.RoundTrip.{Arg, targets, fill, IsMapped, AreTargets, Holds, store-AreTargets}
use microdbg.Calls.RoundTrip.Placed.{whole_words, align-bounds}

module _ (m : Machine) (cpu : Cpu) (fuel scratch : ℕ) (size : IsWordSize cpu.abi.pointer_size)
    (few : cpu.abi.arg_reg_count < 1000) (narrow : cpu.abi.pointer_size ≤ 8) (st : m.State) where
  abbrev Got : Type 0
  Got = Option (Result (Unit {0}) × CallStream × Heap)

  -- A stream over the stack from `p` on.
  abbrev at_word : ℕ → ℕ → ℕ → ℕ → CallStream
  at_word p k s old = regs (placed m cpu.abi size k s 0 old (Reg.pointer p))

  abbrev stored : Heap → ℕ → List ℕ → Heap
  stored h q b = record h { mem = store h.mem q b }

  decode-fixed :
      (n q : ℕ) (b : List ℕ) (s s' : CallStream) (h : Heap)
      → 0 < q
      → IsMapped h.mem q n
      → (call_streams m cpu.abi fuel (alloc m cpu fuel scratch)).read n s st ≡ (ok b, s')
      → decode_value
          (call_streams m cpu.abi fuel (alloc m cpu fuel scratch))
          scratch
          (pointer (fixed n), q)
          s
          st
          h
        ≡ some (ok tt, s', stored h q b)
  unfolding decode_value decode
  decode-fixed n q b s s' h pos (old, e) r = rw (there, e, r) refl
    where
      there : (q == 0) ≡ false
      there = ground arith

  nonempty_read :
      (p k s old n w : ℕ)
      → k < cpu.abi.arg_reg_count
      → 0 < n
      → n ≤ 8
      → m.reg_read (cpu.abi.first_gr + k) st ≡ (none, w)
      → Read.read m cpu.abi n (placed m cpu.abi size k s 0 old (Reg.pointer p)) st
        ≡ (ok (take n (le_bytes 8 w)), part_placed m cpu.abi size k n s 0 w (Reg.pointer p))
  nonempty_read p k s old zero w inside pos short e = absurd (omega arith)
  nonempty_read p k s old (suc j) w inside pos short e =
      read_in_register m cpu.abi size k s 0 old (Reg.pointer p) st j w inside short e

  arg-from_register :
      (p k s old n w q : ℕ) (b : List ℕ) (h : Heap)
      → k < cpu.abi.arg_reg_count
      → k < 1000
      → align s 4 ≡ s
      → 0 < n
      → n ≤ 8
      → n ≤ cpu.abi.pointer_size
      → 0 < q
      → IsMapped h.mem q n
      → m.reg_read (cpu.abi.first_gr + k) st ≡ (none, w)
      → take n (le_bytes 8 w) ≡ b
      → (more : CallStream → Heap → Got)
      → next_arg m cpu fuel scratch
          (decode_value
            (call_streams m cpu.abi fuel (alloc m cpu fuel scratch))
            scratch
            (pointer (fixed n), q)
            (at_word p k s old)
            st
            h)
          more
        ≡ more (at_word p (suc k) s w) (stored h q b)
  unfolding align_offsets
  arg-from_register p k s old n w q b h inside small flat some' short fits pos mapped e same more =
      rw
        (
          decode-fixed n q (take n (le_bytes 8 w)) (at_word p k s old)
              (regs (part_placed m cpu.abi size k n s 0 w (Reg.pointer p))) h pos mapped
              (rw (nonempty_read p k s old n w inside some' short e) refl),
          same,
          flat,
          next_word cpu.abi.pointer_size k n size some' fits small,
        )
        refl

  arg-from_stack :
      (p s old n q : ℕ) (b : List ℕ) (h : Heap)
      → 0 < q
      → IsMapped h.mem q n
      → m.mem_read (add64 p s) n st ≡ (none, b)
      → (more : CallStream → Heap → Got)
      → next_arg m cpu fuel scratch
          (decode_value
            (call_streams m cpu.abi fuel (alloc m cpu fuel scratch))
            scratch
            (pointer (fixed n), q)
            (at_word p cpu.abi.arg_reg_count s old)
            st
            h)
          more
        ≡ more (at_word p cpu.abi.arg_reg_count (align (s + n) 4) old) (stored h q b)
  unfolding align_offsets
  arg-from_stack p s old n q b h pos mapped e more =
      rw
        (
          decode-fixed n q b (at_word p cpu.abi.arg_reg_count s old)
              (at_word p cpu.abi.arg_reg_count (s + n) old) h pos mapped
              (rw (read_on_stack m cpu.abi size n s 0 old p b st e) refl),
          whole_words cpu.abi.pointer_size cpu.abi.arg_reg_count size few,
        )
        refl

  -- Every argument has at least one byte and fits in a word.
  abbrev pub Fit : List Arg → Type 0
  Fit [] = Unit {0}
  Fit (a ∷ as') = (0 < length a.bytes) × (length a.bytes ≤ cpu.abi.pointer_size) × Fit as'

  module _ (p : ℕ) (stack : List ℕ) (low : length stack < 9223372036854775808)
      (shown : (off n : ℕ)
        → 0 < n
        → off + n ≤ length stack
        → m.mem_read (add64 p off) n st ≡ (none, take n (drop off stack))) where
    pub extract_all :
        (as' : List Arg) (l k s old : ℕ) (h : Heap)
        → k + l ≡ cpu.abi.arg_reg_count
        → align s 4 ≡ s
        → Fit as'
        → AreTargets h.mem as'
        → Holds m cpu as' l k s st stack
        → (end : CallStream) × (extract m cpu fuel scratch (targets as') (at_word p k s old) st h
            ≡ some (ok tt, end, fill h as'))
    unfolding extract
    extract_all [] l k s old h total flat fit targets' holds = (at_word p k s old, refl)
    extract_all (a ∷ as') (suc l) k s old h total flat (some', fits, fit) (pos, mapped, others)
          ((w, e, same), holds) =
        let (end, rest) =
          extract_all as' l (suc k) s w (stored h a.target a.bytes) (omega arith) flat fit
            (store-AreTargets h.mem a.target a.bytes as' others) holds in
        (
          end,
          arg-from_register p k s old (length a.bytes) w a.target a.bytes h (omega arith)
                (omega arith) flat some' (omega arith) fits pos mapped e same
                (λ s' h'. extract m cpu fuel scratch (targets as') s' st h')
              ∙ rest,
        )
    extract_all (a ∷ as') zero k s old h total flat (some', fits, fit) (pos, mapped, others)
          ((inside, same), holds) =
        let q : cpu.abi.arg_reg_count ≡ k = omega arith in
        let there = shown s (length a.bytes) some' inside ∙ ap (λ b. (none, b)) same in
        let (end, rest) =
          extract_all as' 0 cpu.abi.arg_reg_count (align (s + length a.bytes) 4) old
            (stored h a.target a.bytes) (omega arith)
            (align-bounds (s + length a.bytes) (omega arith)).2 fit
            (store-AreTargets h.mem a.target a.bytes as' others)
            (subst (λ (j : ℕ). Holds m cpu as' 0 j (align (s + length a.bytes) 4) st stack) (sym q)
              holds) in
        (
          end,
          subst
              (λ (j : ℕ).
                extract m cpu fuel scratch (targets (a ∷ as')) (at_word p j s old) st h
                ≡ some (ok tt, end, fill h (a ∷ as')))
              q
              (arg-from_stack p s old (length a.bytes) a.target a.bytes h pos mapped there
                  (λ s' h'. extract m cpu fuel scratch (targets as') s' st h')
                ∙ rest),
        )
