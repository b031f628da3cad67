-- ===== src/Tasks/Handover/Invariant/Closed.antt =====
-- The task manager of internal/debugger/task.go is closed for good.
use microdbg.Base.{true, Bool, false, ◌&&◌, not, ◌==◌, ◌≡◌, refl, sym, ◌∙◌, if◌then◌else◌, arith}
use microdbg.Tasks.Handover.{
  System, Effect, Step, code_runs, async_called, sync_called, sync_writes, sync_returns,
  sync_panics, suspends, not_suspended, gives, gives_up, resumes, dispatches, leaves, ends, stops,
  runs, written, creates, shuts, function_ends, function_panics, not_dispatched,
  not_dispatched_closed, main_again, cancels, expires, closes,
}
use microdbg.Tasks.Handover.Invariant.Thread.{either_way}
use microdbg.Tasks.Handover.Invariant.Steps.{closed_of}

closed_either :
    {R : Type 0} (b c : Bool) (x y : System R)
    → closed_of x ≡ c
    → closed_of y ≡ c
    → closed_of (if b then x else y) ≡ c
closed_either b c x y p q = either_way (λ s. closed_of s ≡ c) b x y (λ e. p) (λ e. q)

-- The manager is not opened again.
pub step-closed_of :
    {R : Type 0} {s s' : System R} {x : Effect R}
    → Step s x s'
    → closed_of s' ≡ false
    → closed_of s ≡ false
step-closed_of (code_runs f l d) o = o
step-closed_of (async_called saves l d) o =
    sym (
      closed_either (d.tasks d.current).done d.closed _ _ refl
        (closed_either saves d.closed _ _ refl refl))
    ∙ o
step-closed_of (sync_called saves l d) o =
    sym (
      closed_either (d.tasks d.current).done d.closed _ _ refl
        (closed_either saves d.closed _ _ refl refl))
    ∙ o
step-closed_of (sync_writes v l d) o = o
step-closed_of (sync_returns restores l d) o =
    sym (
      closed_either (d.tasks d.current).done d.closed _ _ refl (
        closed_either (not (d.tasks d.current).change) d.closed _ _ refl
          (closed_either restores d.closed _ _ refl refl)))
    ∙ o
step-closed_of (sync_panics l d) o = o
step-closed_of (suspends true d) o = o
step-closed_of (suspends false d) o = o
step-closed_of (not_suspended call l d c) o = o
step-closed_of (gives t l d p) o = o
step-closed_of (gives_up t l d g) o = o
step-closed_of (resumes d) o = o
step-closed_of (dispatches t restores e d p) o =
    sym (
      closed_either ((t == d.current) && not (d.tasks t).change) d.closed _ _ refl
        (closed_either restores d.closed _ _ refl refl))
    ∙ o
step-closed_of (leaves e d c) o = o
step-closed_of (ends e d c) o = o
step-closed_of (stops d) o = o
step-closed_of (runs t e l d p) o = o
step-closed_of (written t v e l d) o = o
step-closed_of (creates t c v e l d p) o = o
step-closed_of (shuts t e l d) o = o
step-closed_of (function_ends t e l d p) o = o
step-closed_of (function_panics t e l d p) o = o
step-closed_of (not_dispatched t e l d p g) o = o
step-closed_of (not_dispatched_closed t e l d p c) o = o
step-closed_of (main_again v e l d p) o = o
step-closed_of (cancels t e l d) o = o
step-closed_of (expires t e l d) o = o
step-closed_of (closes e l d) o = ground arith
