-- ===== src/Tasks/Handover/Isolation/Alone.antt =====
-- Tasks of internal/debugger/task.go do not see each other's registers.
use microdbg.Base.{ℕ, false, ◌≡◌, refl, List}
use microdbg.Tasks.Handover.{System, Effect, init, Reaches, here, next, AreOrderly}
use microdbg.Tasks.Handover.Invariant.{Sound}
use microdbg.Tasks.Handover.Invariant.Steps.{step-Sound, closed_of}
use microdbg.Tasks.Handover.Invariant.Closed.{step-closed_of}
use microdbg.Tasks.Handover.Isolation.{registers_of, done_of, alone}
use microdbg.Tasks.Handover.Isolation.Steps.{step-Follows}

init-Sound : {R : Type 0} (regs : R) (contexts : ℕ → R) → Sound (init regs contexts)
init-Sound regs contexts = (tt, refl)

pub reached :
    {R : Type 0} (regs : R) (contexts : ℕ → R) {es : List (Effect R)} {s : System R}
    → (run : Reaches (init regs contexts) es s) → AreOrderly run
    → closed_of s ≡ false
    → Sound s
      × ((t : ℕ)
          → done_of s t ≡ false
          → registers_of s t ≡ alone t es (registers_of (init regs contexts) t))
reached regs contexts here w o = (init-Sound regs contexts, λ t done. refl)
reached regs contexts (next x before st) (w, last) o =
    let (sound, same) = reached regs contexts before w (step-closed_of st o) in
    (step-Sound o st last sound, λ t done. step-Follows t o st last sound _ done (same t))

-- Whatever order the emulator's thread, `loop` and the goroutines of the tasks take their steps in, and
-- whether or not the emulator saves and restores: while the task manager was not closed, a task that is
-- not done has the registers that it would have with an emulator of its own, which its own code and the
-- writes to its registers alone have changed, its making and the taking of the main task included. The
-- condition is that the steps are orderly: a task is made with a context that neither the main task has
-- nor one whose goroutines may still run; `Run` is called once; the registers of a task are not written
-- by others while the emulator has it, or after its end; and the main task is taken again only when its
-- goroutines have ended and the emulator has left it, while the code asks for no more than its status.
pub reached-alone :
    {R : Type 0} (regs : R) (contexts : ℕ → R) (es : List (Effect R)) (s : System R) (t : ℕ)
    (run : Reaches (init regs contexts) es s)
    → AreOrderly run
    → closed_of s ≡ false
    → done_of s t ≡ false
    → registers_of s t ≡ alone t es (registers_of (init regs contexts) t)
reached-alone regs contexts es s t run w o done = (reached regs contexts run w o).1 t done
