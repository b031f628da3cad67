-- ===== src/Tasks/Handover.antt =====
-- How tasks are handed to the emulator's thread: `taskManager` of internal/debugger/task.go with the
-- goroutines of internal/debugger/runner.go. The emulator's thread, `loop`, and the goroutines of each
-- task run side by side; a rendezvous on a channel is one step of both. Tasks are numbers, the main task
-- is 0, and `R` is what the emulator's registers hold.
pub mod Invariant
pub mod Isolation
pub mod Progress
mod Tests
use microdbg.Base.{ℕ, Bool, true, false, ◌&&◌, not, ◌==◌, ◌≡◌, ◌≢◌, List, [], ◌∷◌, if◌then◌else◌}

-- What the goroutines of a task do.
pub data Phase : Type 0 where
  -- the task was not made
  unmade : Phase
  -- `Run` was not called
  fresh : Phase
  -- `runTask` waits to hand the task over
  dispatching : Phase
  -- the emulator has the task, and `loop` of the task waits for a function
  on_emulator : Phase
  -- `handle` runs a function
  handling : Phase
  -- the goroutines have ended
  over : Phase

-- The status: `pending` and `shut` are `TaskStatus_Pending` and `TaskStatus_Close`, `done` is
-- `TaskStatus_Done` or above. `gone` says that the Go context has ended, which the context it was made
-- from may also cause. `task_ctx` is the saved context of the task, which it may have from a task before
-- it, and `ctx` what that holds.
pub record Task (R : Type 0) : Type 0 where
  pub phase : Phase
  pub task_ctx : ℕ
  pub ctx : R
  pub pending : Bool
  pub shut : Bool
  pub change : Bool
  pub done : Bool
  pub gone : Bool

-- What the emulator's thread does.
pub data Emu : Type 0 where
  -- the code of the current task runs
  guest : Emu
  -- the function of `syncTask`
  in_sync : Emu
  -- `suspendTask`, for a task whose function is to be called, or only to be left
  suspending : Bool → Emu
  -- `task.async`
  giving : ℕ → Emu
  -- `resumeTask`
  resuming : Emu
  stopped : Emu

-- What `loop` of the task manager does.
pub data Loop : Type 0 where
  idle waiting leaving ended : Loop

pub record Shared (R : Type 0) : Type 0 where
  pub closed : Bool
  pub current : ℕ
  pub regs : R
  pub tasks : ℕ → Task R

pub data System (R : Type 0) : Type 0 where
  sys : Emu → Loop → Shared R → System R

abbrev pub set_task : {R : Type 0} → ℕ → Task R → Shared R → Shared R
set_task t x d = record d { tasks = λ q. if q == t then x else d.tasks q }

abbrev pub set_phase : {R : Type 0} → ℕ → Phase → Shared R → Shared R
set_phase t p d = set_task t (record (d.tasks t) { phase = p }) d

-- `CancelCause`
abbrev pub cancel : {R : Type 0} → ℕ → Shared R → Shared R
cancel t d = set_task t (record (d.tasks t) { pending = false; done = true; gone = true }) d

-- `Close`
abbrev pub shut_down : {R : Type 0} → ℕ → Shared R → Shared R
shut_down t d =
    set_task t (record (d.tasks t) { pending = false; shut = true; done = true; gone = true }) d

-- `RegWrite`, with all that the registers hold after it.
abbrev pub reg_write : {R : Type 0} → ℕ → R → Shared R → Shared R
reg_write t v d = set_task t (record (d.tasks t) { ctx = v; change = true }) d

-- `contextSave` and `contextRestore`, where the emulator does not refuse.
abbrev pub save : {R : Type 0} → Shared R → Shared R
save d = set_task d.current (record (d.tasks d.current) { ctx = d.regs; pending = false }) d

abbrev pub restore : {R : Type 0} → ℕ → Shared R → Shared R
restore t d =
    set_task t (record (d.tasks t) { change = false }) (record d { regs = (d.tasks t).ctx })

abbrev pub not_restored : {R : Type 0} → ℕ → Shared R → Shared R
not_restored t d = cancel t (set_task t (record (d.tasks t) { change = false }) d)

-- `asyncTask` and `syncTask` up to where they wait. The flag says whether the emulator saves.
abbrev pub async_task : {R : Type 0} → Bool → Loop → Shared R → System R
async_task saves l d =
    if (d.tasks d.current).done
    then sys (suspending false) l d
    else if saves
    then sys (suspending true) l (save d)
    else sys (suspending false) l (cancel d.current d)

abbrev pub sync_task : {R : Type 0} → Bool → Loop → Shared R → System R
sync_task saves l d =
    if (d.tasks d.current).done
    then sys (suspending false) l d
    else if saves
    then sys in_sync l (save d)
    else sys (suspending false) l (cancel d.current d)

-- `syncTask` behind its function.
abbrev pub sync_end : {R : Type 0} → Bool → Loop → Shared R → System R
sync_end restores l d =
    if (d.tasks d.current).done
    then sys (suspending false) l d
    else if not (d.tasks d.current).change
    then sys guest l d
    else if restores
    then sys guest l (restore d.current d)
    else sys (suspending false) l (not_restored d.current d)

-- `asyncTask` behind `suspendTask`.
abbrev pub after_suspend : Bool → ℕ → Emu
after_suspend call t = if call then giving t else resuming

-- A task that is only left is done, and its goroutines end.
abbrev pub left_behind : {R : Type 0} → Bool → Shared R → Shared R
left_behind call d = if call then d else set_phase d.current over d

-- `loop` of the task manager, with the task it received. A task that is not restored is cancelled, and
-- `loop` waits for the next.
abbrev pub dispatched : {R : Type 0} → ℕ → Bool → Emu → Shared R → System R
dispatched t restores e d =
    if (t == d.current) && not (d.tasks t).change
    then sys e leaving (set_phase t on_emulator d)
    else if restores
    then sys e leaving (restore t (set_phase t on_emulator (record d { current = t })))
    else sys e waiting (not_restored t (set_phase t over (record d { current = t })))

-- `handle` behind its function: `runTask` follows unless the task is done.
abbrev pub handled : {R : Type 0} → ℕ → Shared R → Shared R
handled t d = set_phase t (if (d.tasks t).done then over else dispatching) d

-- `getMainTask` makes the status pending, and `reset` writes the stack pointer and makes a new Go context.
abbrev pub reset : {R : Type 0} → R → Task R → Task R
reset v x = record x {
  phase = fresh;
  ctx = v;
  change = true;
  pending = true;
  shut = false;
  done = false;
  gone = false;
}

-- `newTask` and `newRunner`, with a saved context and what it holds.
abbrev pub new_task : {R : Type 0} → ℕ → R → Task R
new_task c v = record {
  phase = fresh;
  task_ctx = c;
  ctx = v;
  change = true;
  pending = true;
  shut = false;
  done = false;
  gone = false;
}

-- What a step does to the registers of the tasks, as seen from outside: the code of the current task
-- computes, someone writes the registers of a task, or nothing.
pub data Effect (R : Type 0) : Type 0 where
  computes : ℕ → (R → R) → Effect R
  writes : ℕ → R → Effect R
  nothing : Effect R

-- `mainThreadRun` leaves tasks alone. Where a step is not orderly, in the sense of `IsOrderly` below, a
-- task gets more goroutines than its phase tells or shares its context, and the steps after it are not
-- followed truly.
pub data Step {R : Type 0} : System R → Effect R → System R → Type 0 where
  -- the emulator's thread
  code_runs :
      (f : R → R) (l : Loop) (d : Shared R)
      → Step (sys guest l d) (computes d.current f) (sys guest l (record d { regs = f d.regs }))
  async_called :
      (saves : Bool) (l : Loop) (d : Shared R) → Step (sys guest l d) nothing (async_task saves l d)
  sync_called :
      (saves : Bool) (l : Loop) (d : Shared R) → Step (sys guest l d) nothing (sync_task saves l d)
  sync_writes :
      (v : R) (l : Loop) (d : Shared R)
      → Step (sys in_sync l d) (writes d.current v) (sys in_sync l (reg_write d.current v d))
  sync_returns :
      (restores : Bool) (l : Loop) (d : Shared R)
      → Step (sys in_sync l d) nothing (sync_end restores l d)
  -- `recover` cancels the task, and `syncTask` returns
  sync_panics :
      (l : Loop) (d : Shared R) → Step (sys in_sync l d) nothing (sys guest l (cancel d.current d))
  suspends :
      (call : Bool) (d : Shared R)
      → Step
          (sys (suspending call) idle d)
          nothing
          (sys (after_suspend call d.current) waiting (left_behind call d))
  not_suspended :
      (call : Bool) (l : Loop) (d : Shared R)
      → d.closed ≡ true
      → Step (sys (suspending call) l d) nothing (sys guest l d)
  gives :
      (t : ℕ) (l : Loop) (d : Shared R)
      → (d.tasks t).phase ≡ on_emulator
      → Step (sys (giving t) l d) nothing (sys resuming l (set_phase t handling d))
  gives_up :
      (t : ℕ) (l : Loop) (d : Shared R)
      → (d.tasks t).gone ≡ true
      → Step (sys (giving t) l d) nothing (sys resuming l (set_phase t over d))
  resumes : (d : Shared R) → Step (sys resuming leaving d) nothing (sys guest idle d)
  -- `loop` of the task manager
  dispatches :
      (t : ℕ) (restores : Bool) (e : Emu) (d : Shared R)
      → (d.tasks t).phase ≡ dispatching
      → Step (sys e waiting d) nothing (dispatched t restores e d)
  leaves :
      (e : Emu) (d : Shared R) → d.closed ≡ true → Step (sys e waiting d) nothing (sys e leaving d)
  ends : (e : Emu) (d : Shared R) → d.closed ≡ true → Step (sys e idle d) nothing (sys e ended d)
  -- `emu.Stop`, and then `CancelCause` of the current task
  stops : (d : Shared R) → Step (sys guest ended d) nothing (sys stopped ended (cancel d.current d))
  -- the goroutines of the tasks
  -- `createTask`
  creates :
      (t c : ℕ) (v : R) (e : Emu) (l : Loop) (d : Shared R)
      → (d.tasks t).phase ≡ unmade
      → Step (sys e l d) (writes t v) (sys e l (set_task t (new_task c v) d))
  runs :
      (t : ℕ) (e : Emu) (l : Loop) (d : Shared R)
      → (d.tasks t).pending ≡ true
      → Step (sys e l d) nothing (sys e l (set_phase t dispatching d))
  -- `RegWrite` of any goroutine
  written :
      (t : ℕ) (v : R) (e : Emu) (l : Loop) (d : Shared R)
      → Step (sys e l d) (writes t v) (sys e l (reg_write t v d))
  function_ends :
      (t : ℕ) (e : Emu) (l : Loop) (d : Shared R)
      → (d.tasks t).phase ≡ handling
      → Step (sys e l d) nothing (sys e l (handled t d))
  function_panics :
      (t : ℕ) (e : Emu) (l : Loop) (d : Shared R)
      → (d.tasks t).phase ≡ handling
      → Step (sys e l d) nothing (sys e l (handled t (cancel t d)))
  not_dispatched :
      (t : ℕ) (e : Emu) (l : Loop) (d : Shared R)
      → (d.tasks t).phase ≡ dispatching
      → (d.tasks t).gone ≡ true
      → Step (sys e l d) nothing (sys e l (set_phase t over d))
  not_dispatched_closed :
      (t : ℕ) (e : Emu) (l : Loop) (d : Shared R)
      → (d.tasks t).phase ≡ dispatching
      → d.closed ≡ true
      → Step (sys e l d) nothing (sys e l (set_phase t over d))
  -- `getMainTask`, which asks for no more than the status
  main_again :
      (v : R) (e : Emu) (l : Loop) (d : Shared R)
      → (d.tasks 0).shut ≡ true
      → Step (sys e l d) (writes 0 v) (sys e l (set_task 0 (reset v (d.tasks 0)) d))
  -- anyone
  cancels :
      (t : ℕ) (e : Emu) (l : Loop) (d : Shared R) → Step (sys e l d) nothing (sys e l (cancel t d))
  shuts :
      (t : ℕ) (e : Emu) (l : Loop) (d : Shared R)
      → Step (sys e l d) nothing (sys e l (shut_down t d))
  expires :
      (t : ℕ) (e : Emu) (l : Loop) (d : Shared R)
      → Step (sys e l d) nothing (sys e l (set_task t (record (d.tasks t) { gone = true }) d))
  closes :
      (e : Emu) (l : Loop) (d : Shared R)
      → Step (sys e l d) nothing (sys e l (record d { closed = true }))

-- `start`: the main task is current, and the others were not made.
abbrev pub init_task : {R : Type 0} → (ℕ → R) → ℕ → Task R
init_task contexts t = record {
  phase = if t == 0 then on_emulator else unmade;
  task_ctx = 0;
  ctx = contexts t;
  pending = true;
  shut = false;
  change = true;
  done = false;
  gone = false;
}

abbrev pub init : {R : Type 0} → R → (ℕ → R) → System R
init regs contexts =
    sys guest idle (record { closed = false; current = 0; regs = regs; tasks = init_task contexts })

-- None of the task's goroutines runs any more, or it was not made.
abbrev pub IsGone : Phase → Type 0
IsGone unmade = Unit {0}
IsGone over = Unit {0}
IsGone fresh = ⊥
IsGone dispatching = ⊥
IsGone on_emulator = ⊥
IsGone handling = ⊥

-- The task is not on the emulator, and none of its goroutines runs.
abbrev pub IsResting : Phase → Type 0
IsResting unmade = Unit {0}
IsResting fresh = Unit {0}
IsResting over = Unit {0}
IsResting dispatching = ⊥
IsResting on_emulator = ⊥
IsResting handling = ⊥

-- The task is neither on the emulator nor over.
abbrev pub IsOwn : Phase → Type 0
IsOwn unmade = ⊥
IsOwn fresh = Unit {0}
IsOwn dispatching = Unit {0}
IsOwn handling = Unit {0}
IsOwn on_emulator = ⊥
IsOwn over = ⊥

-- A task gets a context that neither the main task has nor one whose goroutines may still run; `Run` is called once,
-- although its guard lets it be called again until the task is first saved; registers are not written
-- from outside while the emulator has the task, or after its end; and the main task is taken again when
-- its goroutines have ended and the emulator has left it.
abbrev pub IsOrderly : {R : Type 0} {s s' : System R} {x : Effect R} → Step s x s' → Type 0
IsOrderly (creates t c v e l d p) =
    (q : ℕ) → (d.tasks q).task_ctx ≡ c → IsGone (d.tasks q).phase × (q ≢ 0)
IsOrderly (runs t e l d p) = (d.tasks t).phase ≡ fresh
IsOrderly (written t v e l d) = IsOwn (d.tasks t).phase
IsOrderly (main_again v e l d p) = IsResting (d.tasks 0).phase
IsOrderly (code_runs f l d) = Unit {0}
IsOrderly (async_called saves l d) = Unit {0}
IsOrderly (sync_called saves l d) = Unit {0}
IsOrderly (sync_writes v l d) = Unit {0}
IsOrderly (sync_returns restores l d) = Unit {0}
IsOrderly (sync_panics l d) = Unit {0}
IsOrderly (suspends call d) = Unit {0}
IsOrderly (not_suspended call l d c) = Unit {0}
IsOrderly (gives t l d p) = Unit {0}
IsOrderly (gives_up t l d g) = Unit {0}
IsOrderly (resumes d) = Unit {0}
IsOrderly (dispatches t restores e d p) = Unit {0}
IsOrderly (leaves e d c) = Unit {0}
IsOrderly (ends e d c) = Unit {0}
IsOrderly (stops d) = Unit {0}
IsOrderly (function_ends t e l d p) = Unit {0}
IsOrderly (function_panics t e l d p) = Unit {0}
IsOrderly (not_dispatched t e l d p g) = Unit {0}
IsOrderly (not_dispatched_closed t e l d p c) = Unit {0}
IsOrderly (cancels t e l d) = Unit {0}
IsOrderly (shuts t e l d) = Unit {0}
IsOrderly (expires t e l d) = Unit {0}
IsOrderly (closes e l d) = Unit {0}

-- The effects of the steps, the last one first.
pub data Reaches {R : Type 0} (s : System R) : List (Effect R) → System R → Type 0 where
  here : Reaches s [] s
  next :
      {es : List (Effect R)} {u w : System R} (e : Effect R)
      → Reaches s es u
      → Step u e w
      → Reaches s (e ∷ es) w

abbrev pub AreOrderly :
    {R : Type 0} {s u : System R} {es : List (Effect R)} → Reaches s es u → Type 0
AreOrderly here = Unit {0}
AreOrderly (next e before st) = AreOrderly before × IsOrderly st
