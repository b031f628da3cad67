-- ===== src/Tasks.antt =====
-- The life of a task: `runner` of internal/debugger/runner.go, and the task contexts that
-- internal/debugger/task.go keeps for reuse. The select on a channel is one step of `collection`.
pub mod Contexts
pub mod Handover
pub mod Status
mod Tests
use microdbg.Base.{
  ℕ, Bool, true, false, Option, none, some, List, [], ◌∷◌, ltb, ◌==◌, if◌then◌else◌,
}
use microdbg.Errors.{Error, Result, ok, err, emulator_stop}

-- The values of `TaskStatus`.
abbrev pub pending : ℕ
pending = 0

abbrev pub running : ℕ
running = 1

abbrev pub finished : ℕ
finished = 2

abbrev pub shut : ℕ
shut = 3

-- The variables of `collection`: contexts are numbers, the end of the slice comes first.
pub record Collection : Type 0 where
  pub current : Option ℕ
  pub contexts : List ℕ

abbrev pub next_current : List ℕ → Collection
next_current [] = record { current = none; contexts = [] }
next_current (c ∷ cs) = record { current = some c; contexts = cs }

-- `tm.contexts <- current`
unfoldable pub send : Collection → Option ℕ × Collection
send col = (col.current, next_current col.contexts)

abbrev pub received_by : Option ℕ → List ℕ → ℕ → Collection
received_by none cs c = record { current = some c; contexts = cs }
received_by (some d) cs c = record { current = some d; contexts = c ∷ cs }

-- `ctx := <-tm.contexts`
unfoldable pub receive : Collection → ℕ → Collection
receive col c = received_by col.current col.contexts c

-- A nil context makes the caller allocate a new one.
unfoldable pub alloc_task_context : Bool → Collection → Result (Option ℕ) × Collection
unfolding send
alloc_task_context closed col =
    if closed then (err emulator_stop, col) else (ok (send col).0, (send col).1)

-- The context of a fork has one release only and is not kept.
unfoldable pub free_task_context : Bool → Bool → Collection → ℕ → Collection
unfolding receive
free_task_context closed forked col c =
    if forked then col else if closed then col else receive col c

-- Why a task ended, as the cause of its Go context: the error or status it was cancelled with, and
-- `canceled` for nil.
pub data Cause : Type 0 where
  canceled done_status : Cause
  failed : Error → Cause

pub record Runner : Type 0 where
  pub status : ℕ
  pub cause : Option Cause
  pub task_ctx : ℕ
  pub forked : Bool

unfoldable pub update_status : Runner → ℕ → Runner
update_status r status = if ltb r.status status then record r { status = status } else r

-- The first cause of a Go context stays.
abbrev pub first_cause : Option Cause → Cause → Option Cause
first_cause none cause = some cause
first_cause (some old) cause = some old

unfoldable pub cancel_cause : Runner → Cause → Runner
unfolding update_status
cancel_cause r cause =
    let r' = update_status r finished in record r' { cause = first_cause r'.cause cause }

unfoldable pub context_save : Runner → Runner
unfolding update_status
context_save r = update_status r running

-- `getMainTask` and `reset`: the main task is taken again only when it is closed, and then has a new Go
-- context. Otherwise the error is the status `running`.
unfoldable pub get_main_task : Runner → Option ℕ × Runner
get_main_task r =
    if r.status == shut
    then (none, record r { status = pending; cause = none })
    else (some running, r)

-- `Close` of a task that is not the main task, which keeps its context, without the releases of the caller's hooks.
unfoldable pub close : Bool → Runner → Collection → Runner × Collection
unfolding cancel_cause update_status free_task_context
close closed r col =
    (update_status (cancel_cause r canceled) shut, free_task_context closed r.forked col r.task_ctx)

-- `Err`: no error for a task that came to its end.
abbrev pub error_of : Option Cause → Option Cause
error_of none = none
error_of (some done_status) = none
error_of (some canceled) = some canceled
error_of (some (failed x)) = some (failed x)

-- `Run` starts a task that is pending, and returns the status of any other.
unfoldable pub run : Runner → Option ℕ
run r = if ltb pending r.status then some r.status else none
