-- ===== src/Stack/Tests.antt =====
-- The stack of internal/debugger/context.go with one register.
use microdbg.Base.{ℕ, ◌-◌, ◌^◌, ◌≡◌, refl, sym, none, arith}
use microdbg.Word.{align}
use microdbg.Stack.{Registers, stack_alloc, stack_free}
use microdbg.Stack.Alloc.{ReadsBack, stack_free-stack_alloc}

abbrev one_register : Registers
one_register = record { State = ℕ; read_sp = λ sp. (none, sp); write_sp = λ v sp. (none, v) }

one_register-ReadsBack : ReadsBack one_register
one_register-ReadsBack v st st' e = sym e

stack_free-stack_alloc_example :
    (stack_alloc one_register (2 ^ 4) 0x2000 20
      ≡ (none, 0x2000 - align 20 (2 ^ 4), 0x2000 - align 20 (2 ^ 4)))
    × (stack_free one_register (2 ^ 4) (0x2000 - align 20 (2 ^ 4)) 20 ≡ (none, 0x2000))
stack_free-stack_alloc_example =
    stack_free-stack_alloc one_register 4 20 0x2000 0x2000 (0x2000 - align 20 (2 ^ 4)) 0x2000
      one_register-ReadsBack (omega arith) (omega arith) refl refl refl
