-- ===== src/Stack.antt =====
-- `StackAlloc` and `StackFree` of internal/debugger/context.go. The registers of a context are a
-- parameter: reading and writing the stack pointer may fail.
pub mod Alloc
mod Tests
use microdbg.Base.{ℕ, Option, none, some}
use microdbg.Word.{add64, sub64, align}
use microdbg.Errors.{Error, Result, ok, err, panic}

-- `RegRead(SP())` and `RegWrite(SP(), value)`; `none` is no error.
pub record Registers : Type 1 where
  pub State : Type 0
  pub read_sp : State → Option Error × ℕ
  pub write_sp : ℕ → State → Option Error × State

module _ (r : Registers) where
  abbrev pub allocated : r.State → ℕ → Option Error × ℕ → Option Error × ℕ × r.State
  allocated st size (some x, sp) = (some x, 0, st)
  allocated st size (none, sp) =
      let (e, st') = r.write_sp (sub64 sp size) st in (e, sub64 sp size, st')

  -- The error, if any, and the address of the pointer.
  unfoldable pub stack_alloc : ℕ → r.State → ℕ → Option Error × ℕ × r.State
  stack_alloc stack_align st size = allocated st (align size stack_align) (r.read_sp st)

  abbrev pub released : r.State → ℕ → Option Error × ℕ → Option Error × r.State
  released st size (some x, sp) = (some x, st)
  released st size (none, sp) = r.write_sp (add64 sp size) st

  unfoldable pub stack_free : ℕ → r.State → ℕ → Option Error × r.State
  stack_free stack_align st size = released st (align size stack_align) (r.read_sp st)
