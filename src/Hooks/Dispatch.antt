-- ===== src/Hooks/Dispatch.antt =====
-- How internal/debugger/hook.go passes an event of the emulator to the hooks: `handleInterrupt`,
-- `handleInvalid` and `handleMemory`, as the function that they give the current task. A `sync.Map`
-- is visited in some order, here that of a list.
pub mod Order
use Prim.Native.Nat.{bit_and}
use microdbg.Base.{
  ℕ, Bool, true, false, ◌&&◌, not, Option, none, some, List, [], ◌∷◌, ltb, leb, ◌==◌, if◌then◌else◌,
}
use microdbg.Errors.{Error, Result, ok, err, panic, panic_exception}
use microdbg.Word.{add64}
use microdbg.Hooks.Controls.{Slot, Controls, is_control}

abbrev pub hook_type_intr : ℕ
hook_type_intr = 1

abbrev pub hook_type_insn_invalid : ℕ
hook_type_insn_invalid = 2

-- The values of `HookResult`, as the bit patterns of an int.
abbrev pub hook_result_done : ℕ
hook_result_done = 0xffffffffffffffff

abbrev pub hook_result_next : ℕ
hook_result_next = 0

-- The callback, with its data, by number.
pub record HookHandler : Type 0 where
  pub typ : ℕ
  pub callback : ℕ
  pub begin : ℕ
  pub end : ℕ

unfoldable pub valid : HookHandler → ℕ → ℕ → Bool → Bool
valid h typ pc is_ctrl =
    if bit_and h.typ typ == 0
    then false
    else if not is_ctrl && ltb h.end h.begin
    then true
    else leb h.begin pc && ltb pc h.end

-- The hook that `addControl` makes for a slot: it covers the address after the slot's instruction.
abbrev pub control_hook : Slot → ℕ → HookHandler
control_hook s callback = record {
  typ = hook_type_intr;
  callback = callback;
  begin = s.1;
  end = add64 s.1 1;
}

module _ {S : Type 0} where
  -- What a callback's result leads to: the end of the loop, or its rest.
  abbrev pub after_call : ℕ × S → (ℕ → S → ℕ × S) → ℕ × S
  after_call (result, st) go = if result == hook_result_done then (result, st) else go result st

  -- The loop over the hooks: the last result, and the state.
  pub run : (ℕ → S → ℕ × S) → (HookHandler → Bool) → List HookHandler → ℕ → S → ℕ × S
  run call applies [] result st = (result, st)
  run call applies (h ∷ hs) result st =
      let rest = run call applies hs in
      if applies h then after_call (call h.callback st) rest else rest result st

  -- The task is cancelled with `exception` if the last result was `Next`.
  abbrev pub settle : (Error → S → S) → Error → ℕ × S → S
  settle cancel exception (result, st) =
      if result == hook_result_next then cancel exception st else st

-- `S` is all that callbacks can change, the task included: `read_pc` reads its program counter,
-- `cancel` cancels it with an error.
module _ {S : Type 0} (read_pc : S → Result ℕ × S) (cancel : Error → S → S) where
  -- A panic reaches the task's `handle`, which cancels the task.
  abbrev pub with_pc : Result ℕ × S → (ℕ → S → S) → S
  with_pc (ok pc, st) go = go pc st
  with_pc (err x, st) go = cancel x st
  with_pc (panic, st) go = cancel panic_exception st

  -- `call` runs a callback with the event's arguments.
  unfoldable pub handle_interrupt : Controls → List HookHandler → (ℕ → S → ℕ × S) → Error → S → S
  unfolding run
  handle_interrupt c hooks call exception st = with_pc (read_pc st) (λ pc st'.
      settle cancel exception
        (run call (λ h. valid h hook_type_intr pc (is_control c pc)) hooks hook_result_next st'))

  unfoldable pub handle_invalid : List HookHandler → (ℕ → S → ℕ × S) → Error → S → S
  unfolding run
  handle_invalid hooks call exception st = with_pc (read_pc st) (λ pc st'.
      settle cancel exception
        (run call (λ h. valid h hook_type_insn_invalid pc false) hooks hook_result_next st'))

  unfoldable pub handle_memory : List HookHandler → ℕ → (ℕ → S → ℕ × S) → Error → S → S
  unfolding run
  handle_memory hooks typ call exception st = with_pc (read_pc st) (λ pc st'.
      settle cancel exception (run call (λ h. valid h typ pc false) hooks hook_result_next st'))
