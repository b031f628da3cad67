-- ===== src/Tasks/Handover/Invariant/Thread.antt =====
-- What the parts of `asyncTask`, `syncTask` and `loop` of internal/debugger/task.go do to the invariant.
use microdbg.Base.{
  ℕ, Bool, true, false, ◌&&◌, not, ◌==◌, ◌≡◌, refl, sym, subst, ◌∙◌, if◌then◌else◌, Bool-cases, inl,
  inr, arith,
}
use microdbg.Tasks.Handover.{
  Phase, dispatching, on_emulator, handling, over, Task, Emu, guest, in_sync, suspending, giving,
  resuming, stopped, Loop, idle, waiting, leaving, ended, Shared, sys, set_phase, cancel, save,
  restore, not_restored, async_task, sync_task, sync_end, after_suspend, left_behind, dispatched,
}
use microdbg.Tasks.Handover.Invariant.{
  OnEmulator, Matches, IsIdle, Holds, Differs, Sound, Mild, phase-Mild, off_emulator,
}

pub at_itself : (t : ℕ) → (t == t) ≡ true
at_itself t = ground arith

-- What holds of both branches.
pub either_way :
    {A : Type 0} (P : A → Type 0) (b : Bool) (x y : A)
    → (b ≡ true → P x)
    → (b ≡ false → P y)
    → P (if b then x else y)
either_way P true x y f g = f refl
either_way P false x y f g = g refl

-- The current task while the emulator's thread has it.
abbrev Loaded : {R : Type 0} → Loop → Shared R → Type 0
Loaded l d = IsIdle l × OnEmulator (d.tasks d.current) × Matches (d.tasks d.current) d.regs

saved-Loaded :
    {R : Type 0} (l : Loop) (d : Shared R)
    → IsIdle l
    → OnEmulator (d.tasks d.current)
    → Loaded l (save d)
saved-Loaded l d i on = rw (at_itself d.current) (i, on, λ p q. refl)

done-Loaded :
    {R : Type 0} (l : Loop) (d : Shared R)
    → IsIdle l
    → OnEmulator (d.tasks d.current)
    → (d.tasks d.current).done ≡ true
    → Loaded l d
done-Loaded l d i on e = (i, on, λ p q. ground arith)

cancelled-Loaded :
    {R : Type 0} (l : Loop) (d : Shared R)
    → IsIdle l
    → OnEmulator (d.tasks d.current)
    → Loaded l (cancel d.current d)
cancelled-Loaded l d i on = rw (at_itself d.current) (i, on, λ p q. ground arith)

pub async_task-Sound :
    {R : Type 0} (saves : Bool) (l : Loop) (d : Shared R)
    → Sound (sys guest l d)
    → Sound (async_task saves l d)
async_task-Sound saves l d (i, on) =
    either_way Sound (d.tasks d.current).done (sys (suspending false) l d)
      (if saves
        then sys (suspending true) l (save d)
        else sys (suspending false) l (cancel d.current d))
      (λ done. done-Loaded l d i on done)
      λ more.
        either_way Sound saves (sys (suspending true) l (save d))
          (sys (suspending false) l (cancel d.current d)) (λ yes'. saved-Loaded l d i on)
          (λ no'. cancelled-Loaded l d i on)

pub sync_task-Sound :
    {R : Type 0} (saves : Bool) (l : Loop) (d : Shared R)
    → Sound (sys guest l d)
    → Sound (sync_task saves l d)
sync_task-Sound saves l d (i, on) =
    either_way Sound (d.tasks d.current).done (sys (suspending false) l d)
      (if saves then sys in_sync l (save d) else sys (suspending false) l (cancel d.current d))
      (λ done. done-Loaded l d i on done)
      λ more.
        either_way Sound saves (sys in_sync l (save d))
          (sys (suspending false) l (cancel d.current d)) (λ yes'. saved-Loaded l d i on)
          (λ no'. cancelled-Loaded l d i on)

pub sync_end-Sound :
    {R : Type 0} (restores : Bool) (l : Loop) (d : Shared R)
    → Sound (sys in_sync l d)
    → Sound (sync_end restores l d)
sync_end-Sound restores l d (i, on, m) = elim (Bool-cases (d.tasks d.current).done) [
  | inl done ↦ rw done (i, on, m)
  | inr more ↦ elim (Bool-cases (d.tasks d.current).change) [
    | inr same ↦ rw (more, same) (i, on)
    | inl changed ↦ elim (Bool-cases restores) [
      | inl yes' ↦ rw (more, changed, yes', at_itself d.current) (i, on)
      | inr no' ↦ rw (more, changed, no', at_itself d.current) (i, on, λ p q. ground arith)
    ]
  ]
]

-- Two tasks in different phases are two.
pub apart :
    {R : Type 0} (d : Shared R) (q t : ℕ) (p : Phase)
    → OnEmulator (d.tasks q)
    → (d.tasks t).phase ≡ p
    → ¬ (p ≡ on_emulator)
    → (q == t) ≡ false
apart d q t p on e off = elim (Bool-cases (q == t)) [
  | inr other ↦ other
  | inl same ↦
      let s : q ≡ t = ground arith in
      absurd (off (sym e ∙ subst (λ (n : ℕ). OnEmulator (d.tasks n)) s on))
]

not_on : ¬ (dispatching ≡ on_emulator)
not_on e = ground arith

-- The task that the emulator's thread gives its function is not the one that `loop` takes.
taken :
    {R : Type 0} (e : Emu) (l : Loop) (d d' : Shared R) (t : ℕ)
    → Sound (sys e waiting d)
    → (d.tasks t).phase ≡ dispatching
    → d'.current ≡ t
    → ((q : ℕ) → (q == t) ≡ false → d'.tasks q ≡ d.tasks q)
    → Holds l (d'.tasks d'.current) d'.regs
    → Sound (sys e l d')
taken guest l d d' t (i, on) p c same h = absurd i
taken in_sync l d d' t (i, on, m) p c same h = absurd i
taken (suspending call) l d d' t (i, on, m) p c same h = absurd i
taken (giving q) l d d' t (on, differs, m) p c same h =
    let other = apart d q t dispatching on p not_on in
    (rw (same q other) on, rw c (differs_at l q other), h)
  where
    differs_at : (k : Loop) (q : ℕ) → (q == t) ≡ false → Differs k q t
    differs_at idle q e = tt
    differs_at waiting q e = tt
    differs_at leaving q e = e
    differs_at ended q e = tt
taken resuming l d d' t m p c same h = h
taken stopped l d d' t m p c same h = absurd m

pub waiting-Matches :
    {R : Type 0} (e : Emu) (d : Shared R)
    → Sound (sys e waiting d)
    → Matches (d.tasks d.current) d.regs
waiting-Matches guest d (i, on) = absurd i
waiting-Matches in_sync d (i, on, m) = absurd i
waiting-Matches (suspending call) d (i, on, m) = absurd i
waiting-Matches (giving q) d (on, differs, m) = m
waiting-Matches resuming d m = m
waiting-Matches stopped d m = absurd m

pub dispatched-Sound :
    {R : Type 0} (t : ℕ) (restores : Bool) (e : Emu) (d : Shared R)
    → (d.tasks t).phase ≡ dispatching
    → Sound (sys e waiting d)
    → Sound (dispatched t restores e d)
dispatched-Sound t restores e d p h =
    elim (Bool-cases ((t == d.current) && not (d.tasks t).change)) [
      | inl same ↦
          let at_current : d.current ≡ t = ground arith in
          let unchanged : (d.tasks t).change ≡ false = ground arith in
          let m : Matches (d.tasks t) d.regs =
            subst (λ (n : ℕ). Matches (d.tasks n) d.regs) at_current (waiting-Matches e d h) in
          rw same (
            taken e leaving d (set_phase t on_emulator d) t h p at_current (λ q o. rw o refl)
              (rw (at_current, at_itself t) (refl, λ done. m done unchanged)))
      | inr other ↦ elim (Bool-cases restores) [
        | inl yes' ↦
            rw (other, yes')
              (taken e leaving d (restore t (set_phase t on_emulator (record d { current = t }))) t
                h p refl (λ q o. rw o refl) (rw (at_itself t) (refl, λ done. refl)))
        | inr no' ↦
            rw (other, no')
              (taken e waiting d (not_restored t (set_phase t over (record d { current = t }))) t h
                p refl (λ q o. rw o refl) (rw (at_itself t) (λ done. ground arith)))
      ]
    ]

-- The task that was given its function is not the one that `loop` has taken.
pub given-Sound :
    {R : Type 0} (t : ℕ) (l : Loop) (p : Phase) (d : Shared R)
    → Sound (sys (giving t) l d)
    → Sound (sys resuming l (set_phase t p d))
given-Sound t idle p d (on, differs, h) = h
given-Sound t ended p d (on, differs, h) = h
given-Sound t leaving p d (on, differs, h) =
    let o : (d.current == t) ≡ false = ground arith in rw o h
given-Sound t waiting p d (on, differs, h) = elim (Bool-cases (d.current == t)) [
  | inl same ↦
      let e : d.current ≡ t = ground arith in
      rw same (subst (λ (n : ℕ). Matches (d.tasks n) d.regs) e h)
  | inr other ↦ rw other h
]

pub suspended-Sound :
    {R : Type 0} (call : Bool) (d : Shared R)
    → Sound (sys (suspending call) idle d)
    → Sound (sys (after_suspend call d.current) waiting (left_behind call d))
suspended-Sound true d (i, on, m) = (on, tt, m)
suspended-Sound false d (i, on, m) = rw (at_itself d.current) m

pub handled-Mild :
    {R : Type 0} (x : Task R) (p : Phase) → x.phase ≡ handling → Mild x (record x { phase = p })
handled-Mild x p e = phase-Mild x p (off_emulator x handling e refl)
