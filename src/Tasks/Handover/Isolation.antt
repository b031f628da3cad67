-- ===== src/Tasks/Handover/Isolation.antt =====
-- The registers of the tasks of internal/debugger/task.go, which share one emulator, as each task has
-- them: those that the emulator holds while the task's code runs, and those of its context otherwise.
pub mod Thread
pub mod Steps
pub mod Alone
use microdbg.Base.{
  ℕ, Bool, true, false, ◌==◌, ◌≡◌, refl, sym, subst, ◌∙◌, if◌then◌else◌, Bool-cases, inl, inr, List,
  [], ◌∷◌, arith,
}
use microdbg.Tasks.Handover.{
  on_emulator, Task, Emu, guest, in_sync, suspending, giving, resuming, stopped, Loop, Shared,
  System, sys, set_task, reg_write, Effect, computes, writes, nothing,
}
use microdbg.Tasks.Handover.Invariant.{OnEmulator, Sound}
use microdbg.Tasks.Handover.Invariant.Thread.{at_itself}

abbrev pub seen : {R : Type 0} → Emu → Shared R → ℕ → R
seen guest d t = if t == d.current then d.regs else (d.tasks t).ctx
seen in_sync d t = (d.tasks t).ctx
seen (suspending call) d t = (d.tasks t).ctx
seen (giving q) d t = (d.tasks t).ctx
seen resuming d t = (d.tasks t).ctx
seen stopped d t = (d.tasks t).ctx

abbrev pub registers_of : {R : Type 0} → System R → ℕ → R
registers_of (sys e l d) t = seen e d t

abbrev pub done_of : {R : Type 0} → System R → ℕ → Bool
done_of (sys e l d) t = (d.tasks t).done

-- A task that has the emulator for itself: only its own code and what is written to it count.
abbrev pub apply : {R : Type 0} → ℕ → Effect R → R → R
apply t (computes q f) v = if t == q then f v else v
apply t (writes q w) v = if t == q then w else v
apply t nothing v = v

abbrev pub alone : {R : Type 0} → ℕ → List (Effect R) → R → R
alone t [] v = v
alone t (x ∷ es) v = apply t x (alone t es v)

-- A task that is not done after a step has what it would have alone.
abbrev pub Follows : {R : Type 0} → System R → Effect R → ℕ → System R → Type 0
Follows {R} s x t s' =
    (a : R)
    → done_of s' t ≡ false
    → (done_of s t ≡ false → registers_of s t ≡ a)
    → registers_of s' t ≡ apply t x a

-- The current task and the others.
pub each_task :
    {R : Type 0} (d : Shared R) (P : ℕ → Type 0)
    → P d.current
    → ((t : ℕ) → (t == d.current) ≡ false → P t)
    → (t : ℕ) → P t
each_task d P at_current others t = elim (Bool-cases (t == d.current)) [
  | inl same ↦ let e : d.current ≡ t = ground arith in subst P e at_current
  | inr other ↦ others t other
]

pub seen-set_task :
    {R : Type 0} (e : Emu) (q : ℕ) (x : Task R) (d : Shared R) (t : ℕ)
    → x.ctx ≡ (d.tasks q).ctx
    → seen e (set_task q x d) t ≡ seen e d t
seen-set_task {R} e q x d t same = go e
  where
    context : ((set_task q x d).tasks t).ctx ≡ (d.tasks t).ctx
    context = elim (Bool-cases (t == q)) [
      | inl at_q ↦
          let p : q ≡ t = ground arith in
          rw at_q (same ∙ subst (λ (n : ℕ). (d.tasks q).ctx ≡ (d.tasks n).ctx) p refl)
      | inr other ↦ rw other refl
    ]

    go : (e : Emu) → seen e (set_task q x d) t ≡ seen e d t
    go guest = rw context refl
    go in_sync = context
    go (suspending call) = context
    go (giving p) = context
    go resuming = context
    go stopped = context

pub done-set_task :
    {R : Type 0} (q : ℕ) (x : Task R) (d : Shared R) (t : ℕ)
    → (x.done ≡ false → (d.tasks q).done ≡ false)
    → ((set_task q x d).tasks t).done ≡ false
    → (d.tasks t).done ≡ false
done-set_task q x d t keeps h = elim (Bool-cases (t == q)) [
  | inl at_q ↦
      let p : q ≡ t = ground arith in
      subst (λ (n : ℕ). (d.tasks n).done ≡ false) p (keeps (rw at_q at h))
  | inr other ↦ rw other at h
]

-- A step that leaves the registers of all tasks.
pub set_task-Follows :
    {R : Type 0} (e : Emu) (l : Loop) (q : ℕ) (x : Task R) (d : Shared R) (t : ℕ)
    → x.ctx ≡ (d.tasks q).ctx
    → (x.done ≡ false → (d.tasks q).done ≡ false)
    → Follows (sys e l d) nothing t (sys e l (set_task q x d))
set_task-Follows e l q x d t same keeps a done h =
    seen-set_task e q x d t same ∙ h (done-set_task q x d t keeps done)

-- Writing to a task that the emulator has not.
pub write-Follows :
    {R : Type 0} (e : Emu) (l : Loop) (q : ℕ) (x : Task R) (d : Shared R) (t : ℕ)
    → ((c : ℕ) → OnEmulator (d.tasks c) → (c == q) ≡ false)
    → Sound (sys e l d)
    → Follows (sys e l d) (writes q x.ctx) t (sys e l (set_task q x d))
write-Follows {R} e l q x d t apart sound a done h = elim (Bool-cases (t == q)) [
  | inl at_q ↦ rw at_q (there at_q e sound)
  | inr other ↦
      let u : (d.tasks t).done ≡ false = rw (other, done_of) at done in
      rw other (same other e ∙ h u)
]
  where
    written : (t == q) ≡ true → ((set_task q x d).tasks t).ctx ≡ x.ctx
    written e' = rw e' refl

    kept : (t == q) ≡ false → ((set_task q x d).tasks t).ctx ≡ (d.tasks t).ctx
    kept e' = rw e' refl

    there : (t == q) ≡ true → (e : Emu) → Sound (sys e l d) → seen e (set_task q x d) t ≡ x.ctx
    there e' guest (i, on) =
        let o : (d.current == q) ≡ false = apart d.current on in
        let p : (t == d.current) ≡ false = ground arith in rw (p, e') refl
    there e' in_sync s = written e'
    there e' (suspending call) s = written e'
    there e' (giving p) s = written e'
    there e' resuming s = written e'
    there e' stopped s = written e'

    same : (t == q) ≡ false → (e : Emu) → seen e (set_task q x d) t ≡ seen e d t
    same e' guest = rw e' refl
    same e' in_sync = kept e'
    same e' (suspending call) = kept e'
    same e' (giving p) = kept e'
    same e' resuming = kept e'
    same e' stopped = kept e'
