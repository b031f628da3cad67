-- ===== src/Tasks/Handover/Tests.antt =====
-- A run of the hand-over in internal/debugger/task.go with the main task and another.
use microdbg.Base.{ℕ, suc, ◌+◌, ◌≡◌, ◌≢◌, ◌==◌, if◌then◌else◌, refl, true, List, [], ◌∷◌, arith}
use microdbg.Tasks.Handover.{
  System, unmade, on_emulator, Effect, computes, writes, nothing, code_runs, async_called, suspends,
  gives, resumes, dispatches, creates, runs, written, Reaches, here, next, AreOrderly, IsGone, init,
}
use microdbg.Tasks.Handover.Isolation.{registers_of, alone}
use microdbg.Tasks.Handover.Isolation.Alone.{reached-alone}

-- The registers are one number.
abbrev start : System ℕ
start = init 5 (λ t. 9)

-- Another task is made and run, and the main task counts and calls a function.
abbrev first_effects : List (Effect ℕ)
first_effects = nothing ∷ nothing ∷ computes 0 (λ n. suc n) ∷ nothing ∷ writes 1 10 ∷ []

abbrev first_half : (s : System ℕ) × Reaches start first_effects s
first_half = (
  _,
  next nothing
      (next nothing
        (next (computes 0 (λ n. suc n))
          (next nothing (next (writes 1 10) here (creates 1 8 10 _ _ _ refl)) (runs 1 _ _ _ refl))
          (code_runs (λ n. suc n) _ _))
        (async_called true _ _))
      (suspends true _),
)

-- It gets its function, the other task runs meanwhile, and the function writes.
abbrev all_effects : List (Effect ℕ)
all_effects = writes 0 7 ∷ computes 1 (λ n. n + 2) ∷ nothing ∷ nothing ∷ nothing ∷ first_effects

abbrev whole : (s : System ℕ) × Reaches start all_effects s
whole = (
  _,
  next (writes 0 7)
      (next (computes 1 (λ n. n + 2))
        (next nothing
          (next nothing (next nothing first_half.1 (gives 0 _ _ refl)) (dispatches 1 true _ _ refl))
          (resumes _))
        (code_runs (λ n. n + 2) _ _))
      (written 0 7 _ _ _),
)

made_orderly : (q : ℕ) → ◌≡◌ {A = ℕ} 0 8 → IsGone (if q == 0 then on_emulator else unmade) × (q ≢ 0)
made_orderly q e = absurd (ground arith)

first_orderly : AreOrderly first_half.1
first_orderly = (((((tt, made_orderly), refl), tt), tt), tt)

whole_orderly : AreOrderly whole.1
whole_orderly = (((((first_orderly, tt), tt), tt), tt), tt)

reached-alone_example : registers_of whole.0 1 ≡ alone 1 all_effects (registers_of start 1)
reached-alone_example =
    reached-alone 5 (λ t. 9) all_effects whole.0 1 whole.1 whole_orderly refl refl

registers_test : (registers_of whole.0 1 ≡ 12) × (registers_of whole.0 0 ≡ 7)
registers_test = (refl, refl)
