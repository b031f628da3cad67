-- ===== src/Tasks/Handover/Isolation/Steps.antt =====
-- In every step of the hand-over in internal/debugger/task.go a task has the registers that it would
-- have alone.
use microdbg.Base.{ℕ, true, false, ◌==◌, ◌≡◌, refl, ap, if◌then◌else◌, Bool-cases, inl, inr, arith}
use microdbg.Tasks.Handover.{
  Phase, unmade, dispatching, new_task, creates, shuts, shut_down, IsOrderly, on_emulator, handling,
  over, Emu, guest, in_sync, giving, resuming, Loop, idle, leaving, Shared, System, sys, set_phase,
  cancel, reg_write, handled, reset, Effect, computes, writes, nothing, Step, code_runs,
  async_called, sync_called, sync_writes, sync_returns, sync_panics, suspends, not_suspended, gives,
  gives_up, resumes, dispatches, leaves, ends, stops, runs, written, function_ends, function_panics,
  not_dispatched, not_dispatched_closed, main_again, cancels, expires, closes,
}
use microdbg.Tasks.Handover.Invariant.{
  OnEmulator, Sound, is_on, off_emulator, off-IsOwn, off-IsResting,
}
use microdbg.Tasks.Handover.Invariant.Thread.{apart}
use microdbg.Tasks.Handover.Invariant.Steps.{closed_of}
use microdbg.Tasks.Handover.Isolation.{
  seen, registers_of, done_of, Follows, set_task-Follows, write-Follows,
}
use microdbg.Tasks.Handover.Isolation.Thread.{
  into_guest, between, kept, cancelled_done, suspends-Follows, async_task-Follows,
  sync_task-Follows, sync_end-Follows, dispatched-Follows,
}

handled-Follows :
    {R : Type 0} (q : ℕ) (e : Emu) (l : Loop) (d : Shared R) (t : ℕ)
    → Follows (sys e l d) nothing t (sys e l (handled q d))
handled-Follows q e l d t =
    set_task-Follows e l q
      (record (d.tasks q) { phase = if (d.tasks q).done then over else dispatching }) d t refl
      (λ x. x)

cancel-Follows :
    {R : Type 0} (q : ℕ) (e : Emu) (l : Loop) (d : Shared R) (t : ℕ)
    → Follows (sys e l d) nothing t (sys e l (cancel q d))
cancel-Follows q e l d t =
    set_task-Follows e l q (record (d.tasks q) { pending = false; done = true; gone = true }) d t
      refl (λ x. ground arith)

-- The code of the current task runs.
computed-Follows :
    {R : Type 0} (f : R → R) (l : Loop) (d : Shared R) (t : ℕ)
    → Follows (sys guest l d) (computes d.current f) t (sys guest l (record d { regs = f d.regs }))
computed-Follows f l d t a done h = elim (Bool-cases (t == d.current)) [
  | inl same ↦ let r : d.regs ≡ a = rw (same, seen) at (h done) in rw (same, seen) (ap f r)
  | inr other ↦ let r : (d.tasks t).ctx ≡ a = rw (other, seen) at (h done) in rw (other, seen) r
]

sync_writes-Follows :
    {R : Type 0} (v : R) (l : Loop) (d : Shared R) (t : ℕ)
    → Follows (sys in_sync l d) (writes d.current v) t (sys in_sync l (reg_write d.current v d))
sync_writes-Follows v l d t a done h = elim (Bool-cases (t == d.current)) [
  | inl same ↦ rw (same, registers_of, seen) refl
  | inr other ↦
      let u : (d.tasks t).done ≡ false = rw (other, done_of) at done in
      rw (other, registers_of, seen) (h u)
]

apart_from :
    {R : Type 0} (d : Shared R) (q : ℕ) (p : Phase)
    → (d.tasks q).phase ≡ p
    → ¬ (p ≡ on_emulator)
    → (c : ℕ) → OnEmulator (d.tasks c)
    → (c == q) ≡ false
apart_from d q p e off c on = apart d c q p on e off

shut-Follows :
    {R : Type 0} (q : ℕ) (e : Emu) (l : Loop) (d : Shared R) (t : ℕ)
    → Follows (sys e l d) nothing t (sys e l (shut_down q d))
shut-Follows q e l d t =
    set_task-Follows e l q
      (record (d.tasks q) { pending = false; shut = true; done = true; gone = true }) d t refl
      (λ x. ground arith)

-- A task that the emulator has not is not the current one of its code.
off_apart :
    {R : Type 0} (d : Shared R) (q : ℕ)
    → is_on (d.tasks q).phase ≡ false
    → (c : ℕ) → OnEmulator (d.tasks c)
    → (c == q) ≡ false
off_apart d q e =
    apart_from d q (d.tasks q).phase refl (λ p. off_emulator (d.tasks q) (d.tasks q).phase refl e p)

pub step-Follows :
    {R : Type 0} {s s' : System R} {x : Effect R} (t : ℕ)
    → closed_of s' ≡ false
    → (st : Step s x s') → IsOrderly st
    → Sound s
    → Follows s x t s'
step-Follows t o (code_runs f l d) w s = computed-Follows f l d t
step-Follows t o (async_called saves l d) w s = async_task-Follows saves l d t
step-Follows t o (sync_called saves l d) w s = sync_task-Follows saves l d t
step-Follows t o (sync_writes v l d) w s = sync_writes-Follows v l d t
step-Follows t o (sync_returns restores l d) w s = sync_end-Follows restores l d t s
step-Follows t o (sync_panics l d) w s =
    into_guest in_sync l l d (cancel d.current d) (λ q. refl) refl
      (λ done. absurd (cancelled_done d.current d done)) (λ q e. rw e refl) t
step-Follows t o (suspends call d) w s = suspends-Follows call d t
step-Follows t o (not_suspended call l d c) w s = absurd (ground arith)
step-Follows t o (gives q l d p) w s =
    between (giving q) resuming l l d (set_phase q handling d) t refl refl
      (kept q (record (d.tasks q) { phase = handling }) d t refl (λ e. e))
step-Follows t o (gives_up q l d g) w s =
    between (giving q) resuming l l d (set_phase q over d) t refl refl
      (kept q (record (d.tasks q) { phase = over }) d t refl (λ e. e))
step-Follows t o (resumes d) w (on, m) =
    into_guest resuming leaving idle d d (λ q. refl) refl (λ done. (done, m done)) (λ q e. refl) t
step-Follows t o (dispatches q restores e d p) w s = dispatched-Follows q restores e d t s
step-Follows t o (leaves e d c) w s = absurd (ground arith)
step-Follows t o (ends e d c) w s = absurd (ground arith)
step-Follows t o (stops d) w s = absurd s.0
step-Follows t o (creates q c v e l d p) w s =
    write-Follows e l q (new_task c v) d t (apart_from d q unmade p (λ x. ground arith)) s
step-Follows t o (runs q e l d p) w s =
    set_task-Follows e l q (record (d.tasks q) { phase = dispatching }) d t refl (λ x. x)
step-Follows t o (written q v e l d) w s =
    write-Follows e l q (record (d.tasks q) { ctx = v; change = true }) d t
      (off_apart d q (off-IsOwn (d.tasks q).phase w)) s
step-Follows t o (function_ends q e l d p) w s = handled-Follows q e l d t
step-Follows t o (function_panics q e l d p) w s =
    λ a done h. handled-Follows q e l (cancel q d) t a done (λ u. cancel-Follows q e l d t a u h)
step-Follows t o (not_dispatched q e l d p g) w s =
    set_task-Follows e l q (record (d.tasks q) { phase = over }) d t refl (λ x. x)
step-Follows t o (not_dispatched_closed q e l d p c) w s = absurd (ground arith)
step-Follows t o (main_again v e l d p) w s =
    write-Follows e l 0 (reset v (d.tasks 0)) d t
      (off_apart d 0 (off-IsResting (d.tasks 0).phase w)) s
step-Follows t o (shuts q e l d) w s = shut-Follows q e l d t
step-Follows t o (cancels q e l d) w s = cancel-Follows q e l d t
step-Follows t o (expires q e l d) w s =
    set_task-Follows e l q (record (d.tasks q) { gone = true }) d t refl (λ x. x)
step-Follows t o (closes e l d) w s = absurd (ground arith)
