-- ===== src/Tasks/Tests.antt =====
-- Tasks of internal/debugger/runner.go, and the contexts they use, at concrete states.
use microdbg.Base.{ℕ, suc, ◌+◌, ◌≤◌, ◌≡◌, ◌⊎◌, refl, true, false, Option, none, some, [], ◌∷◌, ◌==◌}
use microdbg.Errors.{ok, err, emulator_stop}
use microdbg.Tasks.{
  Runner, Collection, done_status, pending, finished, alloc_task_context, free_task_context, close,
  cancel_cause,
}
use microdbg.Tasks.Contexts.{
  kept, times, total, drawn, one_if, IsFilled, HandsOut, alloc_task_context-HandsOut, close-close,
}
use microdbg.Tasks.Status.{
  saved, closed_one, cancelled, happen, IsLater, TakenAgain, happen-IsLater,
}

abbrev two_kept : Collection
two_kept = record { current = some 4; contexts = 6 ∷ [] }

alloc_task_context-HandsOut_example :
    ((o : Option ℕ) × ((alloc_task_context false two_kept).0 ≡ ok o)
      × IsFilled (alloc_task_context false two_kept).1
      × HandsOut two_kept o (alloc_task_context false two_kept).1)
    × IsFilled (free_task_context false false two_kept 5)
    × ((x : ℕ)
        → kept x (free_task_context false false two_kept 5) ≡ one_if (5 == x) + kept x two_kept)
    × (alloc_task_context true two_kept ≡ (err emulator_stop, two_kept))
    × (free_task_context true false two_kept 5 ≡ two_kept)
alloc_task_context-HandsOut_example = alloc_task_context-HandsOut two_kept 5 false tt

abbrev fresh_task : Runner
fresh_task = record { status = pending; cause = none; task_ctx = 5; forked = false }

close-close_example :
    let twice =
      (close false (close false fresh_task two_kept).0 (close false fresh_task two_kept).1).1 in
    times 5 (drawn (total twice) twice) ≡ suc (suc (times 5 (drawn (total two_kept) two_kept)))
close-close_example = close-close fresh_task two_kept refl tt

happen-IsLater_example :
    (IsLater fresh_task (happen fresh_task (saved ∷ closed_one ∷ []))
      ⊎ TakenAgain fresh_task (saved ∷ closed_one ∷ []))
    × (fresh_task.cause ≡ none
        → (((happen fresh_task (cancelled done_status ∷ saved ∷ closed_one ∷ [])).cause
              ≡ some done_status)
            × (finished
                ≤ (happen fresh_task (cancelled done_status ∷ saved ∷ closed_one ∷ [])).status))
          ⊎ TakenAgain (cancel_cause fresh_task done_status) (saved ∷ closed_one ∷ []))
happen-IsLater_example = happen-IsLater fresh_task done_status (saved ∷ closed_one ∷ [])
