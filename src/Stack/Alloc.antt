-- ===== src/Stack/Alloc.antt =====
-- Allocating on the stack of internal/debugger/context.go and freeing.
use microdbg.Base.{ℕ, ◌+◌, ◌-◌, ◌%◌, ◌^◌, ◌≤◌, ◌<◌, ◌≡◌, refl, ap, ◌∙◌, none, arith}
use microdbg.Word.{add64, sub64, align}
use microdbg.Word.Align.{align_rounds_up}
use microdbg.Stack.{Registers, stack_alloc, released, stack_free}

-- What a successful write is read back as.
abbrev pub ReadsBack : Registers → Type 0
ReadsBack r = (v : ℕ) (st st' : r.State) → r.write_sp v st ≡ (none, st') → r.read_sp st' ≡ (none, v)

-- Allocating on the stack takes the stack pointer down by the size rounded up to the alignment, and
-- returns the new stack pointer; freeing the same size writes the stack pointer that was there before.
-- The conditions: the alignment is a power of two, the stack has room, what is written to the stack
-- pointer is read back, and the registers give no error.
pub stack_free-stack_alloc :
    (r : Registers) (k size sp : ℕ) (st st1 st2 : r.State)
    → ReadsBack r
    → size + 2 ^ k ≤ sp
    → sp < 18446744073709551616
    → r.read_sp st ≡ (none, sp)
    → r.write_sp (sp - align size (2 ^ k)) st ≡ (none, st1)
    → r.write_sp sp st1 ≡ (none, st2)
    → (stack_alloc r (2 ^ k) st size ≡ (none, sp - align size (2 ^ k), st1))
      × (stack_free r (2 ^ k) st1 size ≡ (none, st2))
unfolding stack_alloc stack_free
stack_free-stack_alloc r k size sp st st1 st2 back room word a b c = (
  rw (a, down, b) refl,
  ap (released r st1 (align size (2 ^ k))) (back _ st st1 b) ∙ ap (λ v. r.write_sp v st1) up ∙ c,
)
  where
    rounds :
        (align size (2 ^ k) % 2 ^ k ≡ 0)
        × (size ≤ align size (2 ^ k))
        × (align size (2 ^ k) < size + 2 ^ k)
    rounds = align_rounds_up size k (omega arith)

    down : sub64 sp (align size (2 ^ k)) ≡ sp - align size (2 ^ k)
    down = omega (arith, rounds)

    up : add64 (sp - align size (2 ^ k)) (align size (2 ^ k)) ≡ sp
    up = omega (arith, rounds)
