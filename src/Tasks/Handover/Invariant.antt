-- ===== src/Tasks/Handover/Invariant.antt =====
-- The invariant of the hand-over of tasks in internal/debugger/task.go, while the manager runs.
pub mod Thread
pub mod Steps
pub mod Closed
use microdbg.Base.{
  ℕ, Bool, true, false, ◌&&◌, not, ◌==◌, ◌≡◌, ◌≢◌, ◌⊎◌, refl, ap, sym, subst, ◌∙◌, if◌then◌else◌,
  Bool-cases, inl, inr, List, [], ◌∷◌, arith,
}
use microdbg.Tasks.Handover.{
  Phase, unmade, fresh, dispatching, on_emulator, handling, over, Task, Emu, guest, in_sync,
  suspending, giving, resuming, stopped, Loop, idle, waiting, leaving, ended, Shared, System, sys,
  set_task, IsOwn, IsResting,
}

abbrev pub OnEmulator : {R : Type 0} → Task R → Type 0
OnEmulator x = x.phase ≡ on_emulator

-- A task that was not written since has in its context what the emulator holds.
abbrev pub Matches : {R : Type 0} → Task R → R → Type 0
Matches x r = x.done ≡ false → x.change ≡ false → r ≡ x.ctx

abbrev pub IsReady : {R : Type 0} → Task R → R → Type 0
IsReady x r = OnEmulator x × (x.done ≡ false → r ≡ x.ctx)

abbrev pub IsIdle : Loop → Type 0
IsIdle idle = Unit {0}
IsIdle waiting = ⊥
IsIdle leaving = ⊥
IsIdle ended = ⊥

-- The current task while the emulator's thread waits for `loop`.
abbrev pub Holds : {R : Type 0} → Loop → Task R → R → Type 0
Holds idle x r = ⊥
Holds waiting x r = Matches x r
Holds leaving x r = IsReady x r
Holds ended x r = ⊥

abbrev pub Differs : Loop → ℕ → ℕ → Type 0
Differs leaving t c = (t == c) ≡ false
Differs idle t c = Unit {0}
Differs waiting t c = Unit {0}
Differs ended t c = Unit {0}

abbrev pub Sound : {R : Type 0} → System R → Type 0
Sound (sys guest l d) = IsIdle l × OnEmulator (d.tasks d.current)
Sound (sys in_sync l d) =
    IsIdle l × OnEmulator (d.tasks d.current) × Matches (d.tasks d.current) d.regs
Sound (sys (suspending call) l d) =
    IsIdle l × OnEmulator (d.tasks d.current) × Matches (d.tasks d.current) d.regs
Sound (sys (giving t) l d) =
    OnEmulator (d.tasks t) × Differs l t d.current × Holds l (d.tasks d.current) d.regs
Sound (sys resuming l d) = Holds l (d.tasks d.current) d.regs
Sound (sys stopped l d) = ⊥

-- What a goroutine may do to a task without the emulator's thread.
abbrev pub Mild : {R : Type 0} → Task R → Task R → Type 0
Mild x y =
    (x.phase ≡ on_emulator → (y.phase ≡ on_emulator) × (x.ctx ≡ y.ctx))
    × (y.done ≡ false → y.change ≡ false → (x.done ≡ false) × (x.change ≡ false) × (x.ctx ≡ y.ctx))
    × (y.done ≡ false → x.phase ≡ on_emulator → x.done ≡ false)

pub Matches-Mild : {R : Type 0} (x y : Task R) (r : R) → Mild x y → Matches x r → Matches y r
Matches-Mild x y r (a, b, c) m done change = let (p, q, e) = b done change in m p q ∙ e

IsReady-Mild : {R : Type 0} (x y : Task R) (r : R) → Mild x y → IsReady x r → IsReady y r
IsReady-Mild x y r (a, b, c) (on, m) = ((a on).0, λ done. m (c done on) ∙ (a on).1)

pub Holds-Mild :
    {R : Type 0} (l : Loop) (x y : Task R) (r : R) → Mild x y → Holds l x r → Holds l y r
Holds-Mild idle x y r m h = h
Holds-Mild waiting x y r m h = Matches-Mild x y r m h
Holds-Mild leaving x y r m h = IsReady-Mild x y r m h
Holds-Mild ended x y r m h = h

Mild-refl : {R : Type 0} (x : Task R) → Mild x x
Mild-refl x = ((λ e. (e, refl)), (λ p q. (p, q, refl)), λ p q. p)

-- One task is changed.
pub set_task-Mild :
    {R : Type 0} (t : ℕ) (x : Task R) (d : Shared R)
    → Mild (d.tasks t) x
    → (q : ℕ) → Mild (d.tasks q) ((set_task t x d).tasks q)
set_task-Mild t x d m q = elim (Bool-cases (q == t)) [
  | inl same ↦
      let e : q ≡ t = ground arith in rw same (subst (λ (n : ℕ). Mild (d.tasks n) x) (sym e) m)
  | inr other ↦ rw other (Mild-refl (d.tasks q))
]

pub Sound-Mild :
    {R : Type 0} (e : Emu) (l : Loop) (d d' : Shared R)
    → d'.current ≡ d.current
    → d'.regs ≡ d.regs
    → ((q : ℕ) → Mild (d.tasks q) (d'.tasks q))
    → Sound (sys e l d)
    → Sound (sys e l d')
Sound-Mild guest l d d' c r m (i, on) = (i, rw c ((m d.current).0 on).0)
Sound-Mild in_sync l d d' c r m (i, on, h) = (
  i,
  rw c ((m d.current).0 on).0,
  rw (c, r) (Matches-Mild (d.tasks d.current) (d'.tasks d.current) d.regs (m d.current) h),
)
Sound-Mild (suspending call) l d d' c r m (i, on, h) = (
  i,
  rw c ((m d.current).0 on).0,
  rw (c, r) (Matches-Mild (d.tasks d.current) (d'.tasks d.current) d.regs (m d.current) h),
)
Sound-Mild (giving t) l d d' c r m (on, differs, h) = (
  ((m t).0 on).0,
  rw c differs,
  rw (c, r) (Holds-Mild l (d.tasks d.current) (d'.tasks d.current) d.regs (m d.current) h),
)
Sound-Mild resuming l d d' c r m h =
    rw (c, r) (Holds-Mild l (d.tasks d.current) (d'.tasks d.current) d.regs (m d.current) h)
Sound-Mild stopped l d d' c r m h = h

pub set_task-Sound :
    {R : Type 0} (e : Emu) (l : Loop) (t : ℕ) (x : Task R) (d : Shared R)
    → Mild (d.tasks t) x
    → Sound (sys e l d)
    → Sound (sys e l (set_task t x d))
set_task-Sound e l t x d m h = Sound-Mild e l d (set_task t x d) refl refl (set_task-Mild t x d m) h

-- A task in another phase than the emulator's.
pub phase-Mild :
    {R : Type 0} (x : Task R) (p : Phase) → ¬ OnEmulator x → Mild x (record x { phase = p })
phase-Mild x p off = ((λ e. absurd (off e)), (λ d c. (d, c, refl)), λ d e. d)

-- A task that the emulator has not is written.
pub written-Mild : {R : Type 0} (x y : Task R) → ¬ OnEmulator x → y.change ≡ true → Mild x y
written-Mild x y off changed =
    ((λ e. absurd (off e)), (λ d c. ground arith), λ d on. absurd (off on))

pub cancel-Mild :
    {R : Type 0} (x : Task R) → Mild x (record x { pending = false; done = true; gone = true })
cancel-Mild x = ((λ e. (e, refl)), (λ d c. ground arith), λ d e. ground arith)

pub shut-Mild :
    {R : Type 0} (x : Task R)
    → Mild x (record x { pending = false; shut = true; done = true; gone = true })
shut-Mild x = ((λ e. (e, refl)), (λ d c. ground arith), λ d e. ground arith)

pub gone-Mild : {R : Type 0} (x : Task R) → Mild x (record x { gone = true })
gone-Mild x = ((λ e. (e, refl)), (λ d c. (d, c, refl)), λ d e. d)

abbrev pub is_on : Phase → Bool
is_on on_emulator = true
is_on fresh = false
is_on dispatching = false
is_on handling = false
is_on over = false
is_on unmade = false

pub off-IsOwn : (p : Phase) → IsOwn p → is_on p ≡ false
off-IsOwn fresh h = refl
off-IsOwn dispatching h = refl
off-IsOwn handling h = refl
off-IsOwn unmade h = absurd h
off-IsOwn on_emulator h = absurd h
off-IsOwn over h = absurd h

pub off-IsResting : (p : Phase) → IsResting p → is_on p ≡ false
off-IsResting unmade h = refl
off-IsResting fresh h = refl
off-IsResting over h = refl
off-IsResting dispatching h = absurd h
off-IsResting on_emulator h = absurd h
off-IsResting handling h = absurd h

pub off_emulator :
    {R : Type 0} (x : Task R) (p : Phase) → x.phase ≡ p → is_on p ≡ false → ¬ OnEmulator x
off_emulator x p e off on = let q : true ≡ false = ap is_on (sym on ∙ e) ∙ off in ground arith
