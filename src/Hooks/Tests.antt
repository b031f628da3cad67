-- ===== src/Hooks/Tests.antt =====
-- The hook manager of internal/debugger/hook.go on a concrete pool and concrete hooks.
use microdbg.Base.{ℕ, ◌+◌, ◌≡◌, refl, true, false, List, [], ◌∷◌, ◌==◌, arith}
use microdbg.Errors.{Result, ok, unhandled_exception}
use microdbg.Emulator.{MemRegion}
use microdbg.Hooks.Controls.{Slot, Controls, arm, ctrl_addr_alloc, ctrl_addr_free, is_control}
use microdbg.Hooks.Controls.Pool.{Sound, free_times, one_if, drop_slot, ctrl_addr_free-Sound}
use microdbg.Hooks.Controls.Slots.{same}
use microdbg.Hooks.Controls.Handout.{Hands, ctrl_addr_alloc-Hands}
use microdbg.Hooks.Dispatch.{
  HookHandler, valid, control_hook, hook_type_intr, hook_type_insn_invalid, hook_result_done,
  handle_interrupt, handle_invalid, handle_memory,
}
use microdbg.Hooks.Dispatch.Order.{Handles, handlers-Handles, valid-control_hook}

-- One slot is free and one is handed out.
abbrev one_free : Controls
one_free = record {
  ctrl_addrs = record { capacity = 2; items = (0x1000, 0x1004) ∷ [] } ∷ [];
  ctrl_range = (0x1000, 0x100c) ∷ [];
  releases = (0x1000, 8) ∷ [];
}

one_free-Sound : Sound one_free ((0x1004, 0x1008) ∷ [])
unfolding is_control
one_free-Sound = record {
  within = (omega arith, tt);
  handed_out = refl;
  once = λ x. ground arith;
  marked = λ x h. ground arith;
}

-- Pages from 0x2000 on.
abbrev next_page : ℕ → Result MemRegion × ℕ
next_page n = (ok (record { addr = 0x2000; size = 0x1000; prot = 4 }), n + 1)

ctrl_addr_alloc-Hands_example :
    Hands one_free
      (next_page 0).0
      ((0x1004, 0x1008) ∷ [])
      (ctrl_addr_alloc next_page (λ addr bytes n. n) arm 2 one_free 0)
ctrl_addr_alloc-Hands_example =
    ctrl_addr_alloc-Hands next_page (λ addr bytes n. n) arm 0 one_free ((0x1004, 0x1008) ∷ []) 0
      refl one_free-Sound (omega arith, omega arith, λ x l h. ground arith)

ctrl_addr_free-Sound_example :
    Sound
      (ctrl_addr_free one_free (0x1004, 0x1008))
      (drop_slot (0x1004, 0x1008) ((0x1004, 0x1008) ∷ []))
    × ((x : Slot)
        → free_times x (ctrl_addr_free one_free (0x1004, 0x1008)).ctrl_addrs
          ≡ one_if (same (0x1004, 0x1008) x) + free_times x one_free.ctrl_addrs)
ctrl_addr_free-Sound_example =
    ctrl_addr_free-Sound one_free ((0x1004, 0x1008) ∷ []) (0x1004, 0x1008) one_free-Sound
      (omega arith)

-- The state counts the calls; callback 7 takes every event.
abbrev counting_call : ℕ → ℕ → ℕ × ℕ
counting_call callback n = (hook_result_done, n + 1)

abbrev two_hooks : List HookHandler
two_hooks = control_hook (0x1004, 0x1008) 7 ∷ control_hook (0x1000, 0x1004) 8 ∷ []

handlers-Handles_example :
    Handles
      (λ x n. n + 100)
      counting_call
      (λ pc h. valid h hook_type_intr pc (is_control one_free pc))
      unhandled_exception
      two_hooks
      (ok 0x1004, 0)
      (handle_interrupt
        (λ n. (ok 0x1004, n))
        (λ x n. n + 100)
        one_free
        two_hooks
        counting_call
        unhandled_exception
        0)
    × Handles
        (λ x n. n + 100)
        counting_call
        (λ pc h. valid h hook_type_insn_invalid pc false)
        unhandled_exception
        two_hooks
        (ok 0x1004, 0)
        (handle_invalid
          (λ n. (ok 0x1004, n))
          (λ x n. n + 100)
          two_hooks
          counting_call
          unhandled_exception
          0)
    × Handles
        (λ x n. n + 100)
        counting_call
        (λ pc h. valid h 16 pc false)
        unhandled_exception
        two_hooks
        (ok 0x1004, 0)
        (handle_memory
          (λ n. (ok 0x1004, n))
          (λ x n. n + 100)
          two_hooks
          16
          counting_call
          unhandled_exception
          0)
handlers-Handles_example =
    handlers-Handles (λ n. (ok 0x1004, n)) (λ x n. n + 100) counting_call one_free two_hooks 16
      unhandled_exception 0

valid-control_hook_example :
    valid (control_hook (0x1004, 0x1008) 7) hook_type_intr 0x1008 true ≡ (0x1008 == 0x1008)
valid-control_hook_example = valid-control_hook (0x1004, 0x1008) 7 0x1008 true (omega arith)
