-- ===== src/Calls/RoundTrip/Whole.antt =====
-- The arguments that `ArgWrite` of internal/debugger/arm64/arm64.go writes are those that `Args`
-- extracts.
use native.Mathlib.Nat.{mod-eq_of_lt}
use microdbg.Base.{
  ℕ, zero, suc, ◌+◌, ◌-◌, ◌*◌, ◌^◌, ◌≤◌, ◌<◌, ◌≡◌, ◌≢◌, inl, inr, refl, ap, sym, subst, ◌∙◌, true,
  false, none, some, List, [], ◌∷◌, length, take, drop, ◌==◌, Bool-cases, arith,
}
use microdbg.Word.{add64, sub64, align}
use microdbg.Word.Align.{align_rounds_up}
use microdbg.Errors.{ok}
use microdbg.Emulator.{Machine}
use microdbg.Pointers.{mem_write}
use microdbg.Streams.Registers as Reg
use microdbg.Streams.Registers.{RegStream, buffer}
use microdbg.Streams.Instances.{CallStream, regs}
use microdbg.Encoding.Memory.{Memory, Heap}
use microdbg.Calls.{
  Cpu, Calling, supported, fresh, alloc, args, arg_write, write_args, extract, copied_to,
}
use microdbg.Calls.Words.{IsWordSize, placed}
use microdbg.Calls.RoundTrip.{Behaves, Arg, values, targets, fill, AreSources, AreTargets, Holds}
use microdbg.Calls.RoundTrip.Written as Written
use microdbg.Calls.RoundTrip.Written.{put_all}
use microdbg.Calls.RoundTrip.Placed.{pair-eq}
use microdbg.Calls.RoundTrip.Extracted.{extract_all, Fit}

-- The arguments are found again in a state: extracting them stores each at its target, in order.
abbrev pub Found : (m : Machine) → Cpu → ℕ → ℕ → Calling → Heap → List Arg → m.State → Type 0
Found m cpu fuel scratch calling h as' st =
    (rs : RegStream) × (end : CallStream) × (args m cpu fuel scratch calling st ≡ ok rs)
    × (extract m cpu fuel scratch (targets as') (regs rs) st h ≡ some (ok tt, end, fill h as'))

-- Registers that read the same hold the same arguments.
Holds-same :
    (m : Machine) (cpu : Cpu) (st st' : m.State) (stack : List ℕ)
    → ((j : ℕ)
        → j < cpu.abi.arg_reg_count
        → m.reg_read (cpu.abi.first_gr + j) st' ≡ m.reg_read (cpu.abi.first_gr + j) st)
    → (as' : List Arg) (l k s : ℕ) → k + l ≡ cpu.abi.arg_reg_count
    → Holds m cpu as' l k s st stack
    → Holds m cpu as' l k s st' stack
Holds-same m cpu st st' stack same [] l k s total h = tt
Holds-same m cpu st st' stack same (a ∷ as') (suc l) k s total ((w, e, b), h) = (
  (w, same k (omega arith) ∙ e, b),
  Holds-same m cpu st st' stack same as' l (suc k) s (omega arith) h,
)
Holds-same m cpu st st' stack same (a ∷ as') zero k s total (b, h) =
    (b, Holds-same m cpu st st' stack same as' zero k (align (s + length a.bytes) 4) total h)

Fit-AreSources :
    (m : Machine) (cpu : Cpu) (fuel scratch : ℕ) (size : IsWordSize cpu.abi.pointer_size)
    (few : cpu.abi.arg_reg_count < 1000) (narrow : cpu.abi.pointer_size ≤ 8) (st : m.State)
    (go : Memory) (as' : List Arg)
    → AreSources go cpu.abi.pointer_size as'
    → Fit m cpu fuel scratch size few narrow st as'
Fit-AreSources m cpu fuel scratch size few narrow st go [] h = tt
Fit-AreSources m cpu fuel scratch size few narrow st go (a ∷ as') (p, q, r, e, b, h) =
    (q, r, Fit-AreSources m cpu fuel scratch size few narrow st go as' h)

module _ (m : Machine) (cpu : Cpu) (fuel scratch : ℕ) (size : IsWordSize cpu.abi.pointer_size)
    (low top : ℕ) (laws : Behaves m cpu low top) where
  -- What allocating on the stack and copying to it does.
  abbrev pub pushed_at : ℕ → ℕ
  pushed_at s = top - align s cpu.stack_align

  push_lem :
      (j s : ℕ) (buf : List ℕ) (st : m.State)
      → cpu.stack_align ≡ 2 ^ j
      → low + s + 2 ^ j ≤ top
      → top < 18446744073709551616
      → length buf ≤ s
      → laws.ready st
      → m.reg_read cpu.sp st ≡ (none, top)
      → copied_to m cpu fuel scratch buf (alloc m cpu fuel scratch s st)
        ≡ (ok tt, (m.mem_write (pushed_at s) buf (m.reg_write cpu.sp (pushed_at s) st).1).1)
  unfolding alloc mem_write
  push_lem j s buf st power room word short up e =
      rw
        (
          e,
          down,
          pair-eq (m.reg_write cpu.sp (pushed_at s) st)
              (laws.writes cpu.sp (pushed_at s) st (inr refl) up).0,
          pair-eq (m.mem_write (pushed_at s) buf (m.reg_write cpu.sp (pushed_at s) st).1) (
              laws.stores (pushed_at s) buf (m.reg_write cpu.sp (pushed_at s) st).1
                (laws.writes cpu.sp (pushed_at s) st (inr refl) up).1 (omega (arith, below))
                (omega (arith, below, short))),
        )
        refl
    where
      below : (s ≤ align s cpu.stack_align) × (low + align s cpu.stack_align ≤ top)
      below =
          subst (λ a. (s ≤ align s a) × (low + align s a ≤ top)) (sym power)
            (omega (arith, align_rounds_up s j (omega arith)))

      down : sub64 top (align s cpu.stack_align) ≡ pushed_at s
      down = omega (arith, below)

  fresh_lem : (stack : Reg.Stack) → placed m cpu.abi size 0 0 0 0 stack ≡ fresh stack
  fresh_lem stack =
      let q : 0 * cpu.abi.pointer_size ≡ 0 = omega arith in
      ap (λ (g : ℕ). record { stoff = 0; groff = g; vroff = 0; value = 0; stack = stack }) q

  module _ (few : cpu.abi.arg_reg_count < 1000) (narrow : cpu.abi.pointer_size ≤ 8) (go : Memory)
      (calling : Calling) (known : supported calling ≡ true) (h : Heap) (as' : List Arg)
      (sources : AreSources go cpu.abi.pointer_size as') (room : AreTargets h.mem as') where
    finish :
        (st : m.State) (p : ℕ) (stack : List ℕ)
        → m.reg_read cpu.sp st ≡ (none, p)
        → length stack < 9223372036854775808
        → ((off n : ℕ)
            → 0 < n
            → off + n ≤ length stack
            → m.mem_read (add64 p off) n st ≡ (none, take n (drop off stack)))
        → Holds m cpu as' cpu.abi.arg_reg_count 0 0 st stack
        → Found m cpu fuel scratch calling h as' st
    unfolding args
    finish st p stack e low shown holds =
        let (end, q) =
          extract_all m cpu fuel scratch size few narrow st p stack low shown as'
            cpu.abi.arg_reg_count 0 0 0 h (omega arith) flat
            (Fit-AreSources m cpu fuel scratch size few narrow st go as' sources) room holds in
        (
          fresh (Reg.pointer p),
          end,
          rw (known, e) refl,
          subst
              (λ (rs : RegStream).
                extract m cpu fuel scratch (targets as') (regs rs) st h
                ≡ some (ok tt, end, fill h as'))
              (fresh_lem (Reg.pointer p)) q,
        )
      where
        flat : align 0 4 ≡ 0
        flat = omega (arith, align_rounds_up 0 2 (omega arith))

    module _ (apart : (j : ℕ) → j < cpu.abi.arg_reg_count → cpu.sp ≢ cpu.abi.first_gr + j) (j : ℕ)
        (st : m.State) (up : laws.ready st) (power : cpu.stack_align ≡ 2 ^ j)
        (word : top < 18446744073709551616) (wide : top < 256 ^ cpu.abi.pointer_size)
        (deep : low + 12 * length as' + 2 ^ j ≤ top) (small : 12 * length as' < 9223372036854775000)
        (sp_is : m.reg_read cpu.sp st ≡ (none, top)) where
      written :
          Written.Written m cpu fuel scratch size low top laws go as' cpu.abi.arg_reg_count 0 0 0 []
            st
      written =
          put_all m cpu fuel scratch size low top laws go few narrow apart as' cpu.abi.arg_reg_count
            0 0 0 [] st (omega arith) (omega (arith, align_rounds_up 0 2 (omega arith)))
            (omega arith) (omega arith) sources up

      wrote_all : write_args m cpu fuel scratch go (values as') (regs (fresh (buffer []))) st ≡ (
        ok tt,
        regs (placed m cpu.abi size written.k' written.s' 0 written.old' (buffer written.buf')),
        written.st',
      )
      wrote_all =
          subst
            (λ (rs : RegStream). write_args m cpu fuel scratch go (values as') (regs rs) st ≡ (
              ok tt,
              regs (
                  placed m cpu.abi size written.k' written.s' 0 written.old' (buffer written.buf')),
              written.st',
            ))
            (fresh_lem (buffer [])) written.wrote

      without_stack :
          written.s' ≡ 0
          → (st' : m.State) × (arg_write m cpu fuel scratch go calling (values as') st
              ≡ (ok tt, st'))
            × Found m cpu fuel scratch calling h as' st'
      unfolding arg_write
      without_stack none' = (
        written.st',
        rw (known, wrote_all, none') refl,
        finish written.st' top written.buf' (written.sp_kept ∙ sp_is)
            (omega (arith, written.within))
            (λ off n pos inside. absurd (omega (arith, written.within))) written.holds,
      )

      bottom : ℕ
      bottom = pushed_at written.s'

      st1 : m.State
      st1 = (m.reg_write cpu.sp bottom written.st').1

      st2 : m.State
      st2 = (m.mem_write bottom written.buf' st1).1

      up1 : laws.ready st1
      unfolding st1
      up1 = (laws.writes cpu.sp bottom written.st' (inr refl) written.ready').1

      aligned_up : (written.s' ≤ align written.s' (2 ^ j)) × (low + align written.s' (2 ^ j) ≤ top)
      aligned_up =
          omega
            (arith, align_rounds_up written.s' j (omega (arith, written.bounded)), written.bounded)

      fits :
          (written.s' ≤ align written.s' cpu.stack_align)
          × (low + align written.s' cpu.stack_align ≤ top)
      fits =
          subst (λ a. (written.s' ≤ align written.s' a) × (low + align written.s' a ≤ top))
            (sym power) aligned_up

      above_low : low ≤ bottom
      unfolding bottom
      above_low = omega (arith, fits)

      below_top : bottom + length written.buf' ≤ top
      unfolding bottom
      below_top = omega (arith, fits, written.within)

      sp_after : m.reg_read cpu.sp st2 ≡ (none, bottom)
      unfolding bottom st2 st1
      sp_after =
          laws.untouched cpu.sp bottom written.buf' st1 (inr refl) up1 above_low below_top
          ∙ laws.same cpu.sp bottom written.st' (inr refl) written.ready'
          ∙ ap (λ (v : ℕ). (none, v)) (mod-eq_of_lt (omega arith))

      args_after :
          (i : ℕ)
          → i < cpu.abi.arg_reg_count
          → m.reg_read (cpu.abi.first_gr + i) st2 ≡ m.reg_read (cpu.abi.first_gr + i) written.st'
      unfolding st2 st1
      args_after i less =
          laws.untouched (cpu.abi.first_gr + i) bottom written.buf' st1 (inl (i, less, refl)) up1
            above_low below_top
          ∙ laws.others cpu.sp (cpu.abi.first_gr + i) bottom written.st' (inr refl)
              (inl (i, less, refl)) written.ready' (λ e. apart i less (sym e))

      shown_after :
          (off n : ℕ)
          → 0 < n
          → off + n ≤ length written.buf'
          → m.mem_read (add64 bottom off) n st2 ≡ (none, take n (drop off written.buf'))
      unfolding st2 bottom
      shown_after off n pos inside =
          ap (λ (a : ℕ). m.mem_read a n st2) plain
          ∙ laws.shows bottom written.buf' off n st1 up1 above_low below_top inside
        where
          plain : add64 bottom off ≡ bottom + off
          plain = omega (arith, fits, written.within)

      with_stack :
          (written.s' == 0) ≡ false
          → (st' : m.State) × (arg_write m cpu fuel scratch go calling (values as') st
              ≡ (ok tt, st'))
            × Found m cpu fuel scratch calling h as' st'
      unfolding arg_write st2 st1 bottom
      with_stack some' = (
        st2,
        rw (known, wrote_all, some')
            (push_lem j written.s' written.buf' written.st' power (omega (arith, written.bounded))
              word written.within written.ready' (written.sp_kept ∙ sp_is)),
        finish st2 bottom written.buf' sp_after (omega (arith, written.within, written.bounded))
            shown_after
            (Holds-same m cpu written.st' st2 written.buf' args_after as' cpu.abi.arg_reg_count 0 0
              (omega arith) written.holds),
      )

      -- Arguments that were written are extracted again: writing succeeds, extracting from the registers
      -- and the stack that it left succeeds, and stores the bytes of each argument at its target, one
      -- argument after the other, whatever their number. The conditions: the convention is supported; each
      -- argument has a fixed size of at most one register, from readable memory to mapped memory; the
      -- argument registers and the stack pointer can be written, keep what is written and are apart from
      -- each other; the stack is mapped below the stack pointer and keeps what is written, with room for
      -- the arguments, 12 bytes each, and one alignment, which is a power of two.
      pub extract-arg_write :
          (st' : m.State) × (arg_write m cpu fuel scratch go calling (values as') st ≡ (ok tt, st'))
          × Found m cpu fuel scratch calling h as' st'
      extract-arg_write = elim (Bool-cases (written.s' == 0)) [
        | inl none' ↦ without_stack (ground arith)
        | inr some' ↦ with_stack some'
      ]
