-- ===== src/Tasks/Handover/Invariant/Steps.antt =====
-- Every step of the hand-over in internal/debugger/task.go keeps the invariant.
use microdbg.Base.{ℕ, Bool, true, false, ◌≡◌, refl, if◌then◌else◌, arith}
use microdbg.Tasks.Handover.{
  Task, unmade, fresh, dispatching, handling, over, Emu, new_task, creates, shuts, IsOrderly, Loop,
  Shared, System, sys, cancel, handled, reset, Effect, Step, code_runs, async_called, sync_called,
  sync_writes, sync_returns, sync_panics, suspends, not_suspended, gives, gives_up, resumes,
  dispatches, leaves, ends, stops, runs, written, function_ends, function_panics, not_dispatched,
  not_dispatched_closed, main_again, cancels, expires, closes,
}
use microdbg.Tasks.Handover.Invariant.{
  Sound, set_task-Sound, phase-Mild, written-Mild, cancel-Mild, shut-Mild, gone-Mild, off_emulator,
  is_on, off-IsOwn, off-IsResting, OnEmulator,
}
use microdbg.Tasks.Handover.Invariant.Thread.{
  at_itself, given-Sound, async_task-Sound, sync_task-Sound, sync_end-Sound, dispatched-Sound,
  suspended-Sound, handled-Mild,
}

abbrev pub closed_of : {R : Type 0} → System R → Bool
closed_of (sys e l d) = d.closed

handling_still :
    {R : Type 0} (t : ℕ) (d : Shared R)
    → (d.tasks t).phase ≡ handling
    → ((cancel t d).tasks t).phase ≡ handling
handling_still t d p = rw (at_itself t) p

function_panics-Sound :
    {R : Type 0} (t : ℕ) (e : Emu) (l : Loop) (d : Shared R)
    → (d.tasks t).phase ≡ handling
    → Sound (sys e l d)
    → Sound (sys e l (handled t (cancel t d)))
function_panics-Sound t e l d p h =
    set_task-Sound e l t
      (record ((cancel t d).tasks t) {
        phase = if ((cancel t d).tasks t).done then over else dispatching;
      })
      (cancel t d)
      (handled-Mild ((cancel t d).tasks t)
        (if ((cancel t d).tasks t).done then over else dispatching) (handling_still t d p))
      (set_task-Sound e l t (record (d.tasks t) { pending = false; done = true; gone = true }) d
        (cancel-Mild (d.tasks t)) h)

is_off : {R : Type 0} (x : Task R) → is_on x.phase ≡ false → ¬ OnEmulator x
is_off x e on = off_emulator x x.phase refl e on

pub step-Sound :
    {R : Type 0} {s s' : System R} {x : Effect R}
    → closed_of s' ≡ false
    → (st : Step s x s') → IsOrderly st
    → Sound s
    → Sound s'
step-Sound o (code_runs f l d) w h = h
step-Sound o (async_called saves l d) w h = async_task-Sound saves l d h
step-Sound o (sync_called saves l d) w h = sync_task-Sound saves l d h
step-Sound o (sync_writes v l d) w (i, on, m) =
    rw (at_itself d.current) (i, on, λ p q. ground arith)
step-Sound o (sync_returns restores l d) w h = sync_end-Sound restores l d h
step-Sound o (sync_panics l d) w (i, on, m) = rw (at_itself d.current) (i, on)
step-Sound o (suspends call d) w h = suspended-Sound call d h
step-Sound o (not_suspended call l d c) w h = absurd (ground arith)
step-Sound o (gives t l d p) w h = given-Sound t l handling d h
step-Sound o (gives_up t l d g) w h = given-Sound t l over d h
step-Sound o (resumes d) w h = (tt, h.0)
step-Sound o (dispatches t restores e d p) w h = dispatched-Sound t restores e d p h
step-Sound o (leaves e d c) w h = absurd (ground arith)
step-Sound o (ends e d c) w h = absurd (ground arith)
step-Sound o (stops d) w h = absurd h.0
step-Sound o (creates t c v e l d p) w h =
    set_task-Sound e l t (new_task c v) d
      (written-Mild (d.tasks t) (new_task c v) (off_emulator (d.tasks t) unmade p refl) refl) h
step-Sound o (runs t e l d p) w h =
    set_task-Sound e l t (record (d.tasks t) { phase = dispatching }) d
      (phase-Mild (d.tasks t) dispatching (off_emulator (d.tasks t) fresh w refl)) h
step-Sound o (written t v e l d) w h =
    set_task-Sound e l t (record (d.tasks t) { ctx = v; change = true }) d
      (written-Mild (d.tasks t) (record (d.tasks t) { ctx = v; change = true })
        (is_off (d.tasks t) (off-IsOwn (d.tasks t).phase w)) refl)
      h
step-Sound o (function_ends t e l d p) w h =
    set_task-Sound e l t
      (record (d.tasks t) { phase = if (d.tasks t).done then over else dispatching }) d
      (handled-Mild (d.tasks t) (if (d.tasks t).done then over else dispatching) p) h
step-Sound o (function_panics t e l d p) w h = function_panics-Sound t e l d p h
step-Sound o (not_dispatched t e l d p g) w h =
    set_task-Sound e l t (record (d.tasks t) { phase = over }) d
      (phase-Mild (d.tasks t) over (off_emulator (d.tasks t) dispatching p refl)) h
step-Sound o (not_dispatched_closed t e l d p c) w h = absurd (ground arith)
step-Sound o (main_again v e l d p) w h =
    set_task-Sound e l 0 (reset v (d.tasks 0)) d
      (written-Mild (d.tasks 0) (reset v (d.tasks 0))
        (is_off (d.tasks 0) (off-IsResting (d.tasks 0).phase w)) refl)
      h
step-Sound o (shuts t e l d) w h =
    set_task-Sound e l t
      (record (d.tasks t) { pending = false; shut = true; done = true; gone = true }) d
      (shut-Mild (d.tasks t)) h
step-Sound o (cancels t e l d) w h =
    set_task-Sound e l t (record (d.tasks t) { pending = false; done = true; gone = true }) d
      (cancel-Mild (d.tasks t)) h
step-Sound o (expires t e l d) w h =
    set_task-Sound e l t (record (d.tasks t) { gone = true }) d (gone-Mild (d.tasks t)) h
step-Sound o (closes e l d) w h = absurd (ground arith)
