-- ===== src/Hooks/Dispatch/Order.antt =====
-- Which hooks of internal/debugger/hook.go see an event, and what becomes of it.
use microdbg.Base.{
  ℕ, ◌+◌, ◌<◌, ◌≡◌, refl, ap, ◌∙◌, ◌⊎◌, inl, inr, Bool, true, false, List, [], ◌∷◌, ◌++◌, ◌==◌,
  ==_iff, Bool-cases, arith,
}
use microdbg.Errors.{Error, Result, ok, err, panic, panic_exception}
use microdbg.Word.{add64}
use microdbg.Hooks.Controls.{Slot, Controls, is_control}
use microdbg.Hooks.Dispatch.{
  HookHandler, valid, control_hook, hook_type_intr, hook_type_insn_invalid, hook_result_done,
  hook_result_next, run, settle, with_pc, handle_interrupt, handle_invalid, handle_memory,
}

-- The hooks that the loop got past: those that do not apply, and those whose callback ran with another
-- result than `Done`. The last result and the state go along.
pub data Passed {S : Type 0} (call : ℕ → S → ℕ × S) (applies : HookHandler → Bool)
    : List HookHandler → ℕ × S → ℕ × S → Type 0 where
  done : {o : ℕ × S} → Passed call applies [] o o
  skip :
      {h : HookHandler} {hs : List HookHandler} {o last : ℕ × S}
      → applies h ≡ false
      → Passed call applies hs o last
      → Passed call applies (h ∷ hs) o last
  next :
      {h : HookHandler} {hs : List HookHandler} {o last : ℕ × S}
      → applies h ≡ true
      → ((call h.callback o.1).0 == hook_result_done) ≡ false
      → Passed call applies hs (call h.callback o.1) last
      → Passed call applies (h ∷ hs) o last

-- The event is taken by the first hook, in order, that applies and returns `Done`; if there is none, it
-- passes all hooks, and `settle` decides by the last result.
abbrev pub IsDispatched :
    {S : Type 0}
    → (Error → S → S)
    → (ℕ → S → ℕ × S)
    → (HookHandler → Bool)
    → Error
    → List HookHandler
    → S
    → S
    → Type 0
IsDispatched {S = S} cancel call applies exception hooks st out =
    ((last : ℕ × S) × Passed call applies hooks (hook_result_next, st) last
      × (last.0 ≡ hook_result_next → out ≡ cancel exception last.1)
      × (0 < last.0 → out ≡ last.1))
    ⊎ ((before : List HookHandler) × (h : HookHandler) × (after : List HookHandler) × (last : ℕ × S)
        × (hooks ≡ before ++ (h ∷ after))
        × Passed call applies before (hook_result_next, st) last
        × (applies h ≡ true)
        × (call h.callback last.1 ≡ (hook_result_done, out)))

-- How the loop ends from a result on.
abbrev Ends :
    {S : Type 0}
    → (ℕ → S → ℕ × S)
    → (HookHandler → Bool)
    → List HookHandler
    → ℕ × S
    → ℕ × S
    → Type 0
Ends {S = S} call applies hooks o r =
    Passed call applies hooks o r
    ⊎ ((before : List HookHandler) × (h : HookHandler) × (after : List HookHandler) × (last : ℕ × S)
        × (hooks ≡ before ++ (h ∷ after))
        × Passed call applies before o last
        × (applies h ≡ true)
        × (call h.callback last.1 ≡ r)
        × (r.0 ≡ hook_result_done))

module _ {S : Type 0} (call : ℕ → S → ℕ × S) (applies : HookHandler → Bool) where
  skip-Ends :
      (h : HookHandler) (hs : List HookHandler) (o r : ℕ × S)
      → applies h ≡ false
      → Ends call applies hs o r
      → Ends call applies (h ∷ hs) o r
  skip-Ends h hs o r miss (inl p) = inl (skip miss p)
  skip-Ends h hs o r miss (inr (b, k, a, last, s, p, hit, c, d)) =
      inr (h ∷ b, k, a, last, ap (λ l. h ∷ l) s, skip miss p, hit, c, d)

  next-Ends :
      (h : HookHandler) (hs : List HookHandler) (o r : ℕ × S)
      → applies h ≡ true
      → ((call h.callback o.1).0 == hook_result_done) ≡ false
      → Ends call applies hs (call h.callback o.1) r
      → Ends call applies (h ∷ hs) o r
  next-Ends h hs o r hit more (inl p) = inl (next hit more p)
  next-Ends h hs o r hit more (inr (b, k, a, last, s, p, hit', c, d)) =
      inr (h ∷ b, k, a, last, ap (λ l. h ∷ l) s, next hit more p, hit', c, d)

  pub run-Ends :
      (hs : List HookHandler) (o : ℕ × S) → Ends call applies hs o (run call applies hs o.0 o.1)
  unfolding run
  run-Ends [] o = inl done
  run-Ends (h ∷ hs) o = elim (Bool-cases (applies h)) [
    | inr miss ↦ rw miss (skip-Ends h hs o _ miss (run-Ends hs o))
    | inl hit ↦ elim (Bool-cases ((call h.callback o.1).0 == hook_result_done)) [
      | inl stop ↦
          rw (hit, stop)
            (inr ([], h, hs, o, refl, done, hit, refl, (==_iff _ hook_result_done).0 stop))
      | inr more ↦ rw (hit, more) (next-Ends h hs o _ hit more (run-Ends hs (call h.callback o.1)))
    ]
  ]

  settle-IsDispatched :
      (cancel : Error → S → S) (exception : Error) (hs : List HookHandler) (st : S) (r : ℕ × S)
      → Ends call applies hs (hook_result_next, st) r
      → IsDispatched cancel call applies exception hs st (settle cancel exception r)
  settle-IsDispatched cancel exception hs st r (inl p) =
      inl (r, p, λ e. rw e refl, λ l. rw (positive r.0 l) refl)
    where
      positive : (n : ℕ) → 0 < n → (n == hook_result_next) ≡ false
      positive n l = ground arith
  settle-IsDispatched cancel exception hs st r (inr (b, k, a, last, s, p, hit, c, d)) =
      inr (b, k, a, last, s, p, hit, rw d (c ∙ ap (λ n. (n, r.1)) d))

-- What a handler of the debugger does with an event.
abbrev pub Handles :
    {S : Type 0}
    → (Error → S → S)
    → (ℕ → S → ℕ × S)
    → (ℕ → HookHandler → Bool)
    → Error
    → List HookHandler
    → Result ℕ × S
    → S
    → Type 0
Handles cancel call applies exception hooks (ok pc, st) out =
    IsDispatched cancel call (applies pc) exception hooks st out
Handles cancel call applies exception hooks (err x, st) out = out ≡ cancel x st
Handles cancel call applies exception hooks (panic, st) out = out ≡ cancel panic_exception st

with_pc-Handles :
    {S : Type 0} (read_pc : S → Result ℕ × S) (cancel : Error → S → S) (call : ℕ → S → ℕ × S)
    (applies : ℕ → HookHandler → Bool) (exception : Error) (hooks : List HookHandler)
    (o : Result ℕ × S)
    → Handles cancel call applies exception hooks o (
        with_pc read_pc cancel o
          (λ pc st. settle cancel exception (run call (applies pc) hooks hook_result_next st)))
with_pc-Handles read_pc cancel call applies exception hooks (ok pc, st) =
    settle-IsDispatched call (applies pc) cancel exception hooks st _
      (run-Ends call (applies pc) hooks (hook_result_next, st))
with_pc-Handles read_pc cancel call applies exception hooks (err x, st) = refl
with_pc-Handles read_pc cancel call applies exception hooks (panic, st) = refl

-- Interrupts, invalid instructions and invalid memory accesses reach the hooks in order: only those
-- that apply at the program counter are called, and the first that returns `Done` takes the event. If
-- none does, the task is cancelled with the exception just if the last result was `Next`, which it is
-- too when no hook applied. If the program counter cannot be read, the task is cancelled with that
-- error, or with the exception of a panic, and no hook is called.
pub handlers-Handles :
    {S : Type 0} (read_pc : S → Result ℕ × S) (cancel : Error → S → S) (call : ℕ → S → ℕ × S)
    (c : Controls) (hooks : List HookHandler) (typ : ℕ) (exception : Error) (st : S)
    → Handles cancel call
        (λ pc h. valid h hook_type_intr pc (is_control c pc))
        exception
        hooks
        (read_pc st)
        (handle_interrupt read_pc cancel c hooks call exception st)
      × Handles cancel call
          (λ pc h. valid h hook_type_insn_invalid pc false)
          exception
          hooks
          (read_pc st)
          (handle_invalid read_pc cancel hooks call exception st)
      × Handles cancel call
          (λ pc h. valid h typ pc false)
          exception
          hooks
          (read_pc st)
          (handle_memory read_pc cancel hooks typ call exception st)
unfolding handle_interrupt handle_invalid handle_memory
handlers-Handles read_pc cancel call c hooks typ exception st = (
  with_pc-Handles read_pc cancel call (λ pc h. valid h hook_type_intr pc (is_control c pc))
      exception hooks (read_pc st),
  with_pc-Handles read_pc cancel call (λ pc h. valid h hook_type_insn_invalid pc false) exception
      hooks (read_pc st),
  with_pc-Handles read_pc cancel call (λ pc h. valid h typ pc false) exception hooks (read_pc st),
)

-- The hook of a control applies to an interrupt just at the address after the control's instruction,
-- whether that counts as a control address or not, if the address is not the last one.
pub valid-control_hook :
    (s : Slot) (callback pc : ℕ) (is_ctrl : Bool)
    → s.1 + 1 < 18446744073709551616
    → valid (control_hook s callback) hook_type_intr pc is_ctrl ≡ (pc == s.1)
unfolding valid
valid-control_hook s callback pc is_ctrl fits = ground (arith, up)
  where
    up : add64 s.1 1 ≡ s.1 + 1
    up = omega arith
