-- ===== src/Tasks/Handover/Progress.antt =====
-- A task that waits for the emulator of internal/debugger/task.go can get it.
use microdbg.Base.{ℕ, Bool, true, ◌≡◌}
use microdbg.Tasks.Handover.{
  dispatching, on_emulator, handling, Emu, guest, in_sync, suspending, giving, resuming, stopped,
  Loop, idle, waiting, leaving, ended, Shared, System, sys, set_phase, dispatched, nothing, Step,
  after_suspend, left_behind,
}

-- The steps of handing over: `suspendTask`, `task.async` to a goroutine that receives, `loop` with a task
-- that is restored, and the return of `resumeTask`.
pub data HandsOver {R : Type 0} : System R → System R → Type 0 where
  suspending_over :
      (call : Bool) (d : Shared R)
      → HandsOver
          (sys (suspending call) idle d)
          (sys (after_suspend call d.current) waiting (left_behind call d))
  giving_over :
      (t : ℕ) (l : Loop) (d : Shared R)
      → (d.tasks t).phase ≡ on_emulator
      → HandsOver (sys (giving t) l d) (sys resuming l (set_phase t handling d))
  dispatching_over :
      (t : ℕ) (e : Emu) (d : Shared R)
      → (d.tasks t).phase ≡ dispatching
      → HandsOver (sys e waiting d) (dispatched t true e d)
  resuming_over : (d : Shared R) → HandsOver (sys resuming leaving d) (sys guest idle d)

pub data Leads {R : Type 0} (s : System R) : System R → Type 0 where
  stays : Leads s s
  then' : {u w : System R} → Leads s u → Step u nothing w → HandsOver u w → Leads s w

-- The emulator's thread waits for `loop`.
abbrev pub IsWaiting : Emu → Type 0
IsWaiting guest = ⊥
IsWaiting in_sync = ⊥
IsWaiting (suspending call) = Unit {0}
IsWaiting (giving q) = Unit {0}
IsWaiting resuming = Unit {0}
IsWaiting stopped = ⊥

-- The task that `loop` has taken, or else the one that it is given.
abbrev pub next_task : Loop → ℕ → ℕ → ℕ
next_task leaving c t = c
next_task idle c t = t
next_task waiting c t = t
next_task ended c t = t

-- The code of a task runs, and nobody is handed over.
abbrev pub RunsTask : {R : Type 0} → ℕ → System R → Type 0
RunsTask t (sys guest idle d) = d.current ≡ t
RunsTask t (sys guest waiting d) = ⊥
RunsTask t (sys guest leaving d) = ⊥
RunsTask t (sys guest ended d) = ⊥
RunsTask t (sys in_sync l d) = ⊥
RunsTask t (sys (suspending call) l d) = ⊥
RunsTask t (sys (giving q) l d) = ⊥
RunsTask t (sys resuming l d) = ⊥
RunsTask t (sys stopped l d) = ⊥

abbrev pub GetsTo : {R : Type 0} → ℕ → System R → Type 0
GetsTo {R} t s = (s' : System R) × Leads s s' × RunsTask t s'
