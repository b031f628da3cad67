-- ===== src/Tasks/Handover/Isolation/Thread.antt =====
-- What the parts of `asyncTask`, `syncTask` and `loop` of internal/debugger/task.go leave of the registers
-- of the tasks.
use microdbg.Base.{
  ℕ, Bool, true, false, ◌&&◌, not, ◌==◌, ◌≡◌, refl, ap, sym, subst, ◌∙◌, if◌then◌else◌, arith,
}
use microdbg.Tasks.Handover.{
  Phase, on_emulator, over, Task, Emu, guest, in_sync, suspending, giving, resuming, stopped, Loop,
  waiting, leaving, Shared, System, sys, set_task, set_phase, cancel, save, restore, not_restored,
  async_task, sync_task, sync_end, after_suspend, left_behind, idle, set_phase, over, dispatched,
  nothing,
}
use microdbg.Tasks.Handover.Invariant.{Sound}
use microdbg.Tasks.Handover.Invariant.Thread.{at_itself, either_way}
use microdbg.Tasks.Handover.Isolation.{seen, Follows, each_task, seen-set_task, done-set_task}

at_current : {R : Type 0} (d : Shared R) → seen guest d d.current ≡ d.regs
at_current d = rw (at_itself d.current, seen) refl

off_current :
    {R : Type 0} (d : Shared R) (t : ℕ)
    → (t == d.current) ≡ false
    → seen guest d t ≡ (d.tasks t).ctx
off_current d t o = rw (o, seen) refl

-- The emulator's thread leaves the code of the current task.
out_of_guest :
    {R : Type 0} (e' : Emu) (l l' : Loop) (d d' : Shared R)
    → ((t : ℕ) → seen e' d' t ≡ (d'.tasks t).ctx)
    → ((d'.tasks d.current).done ≡ false
        → ((d.tasks d.current).done ≡ false) × (d.regs ≡ (d'.tasks d.current).ctx))
    → ((t : ℕ) → (t == d.current) ≡ false → d'.tasks t ≡ d.tasks t)
    → (t : ℕ) → Follows (sys guest l d) nothing t (sys e' l' d')
out_of_guest {R} e' l l' d d' opens cur others =
    each_task d (λ t. Follows (sys guest l d) nothing t (sys e' l' d')) first rest
  where
    first : Follows (sys guest l d) nothing d.current (sys e' l' d')
    first a done h = let (u, r) = cur done in opens d.current ∙ sym r ∙ sym (at_current d) ∙ h u

    rest : (t : ℕ) → (t == d.current) ≡ false → Follows (sys guest l d) nothing t (sys e' l' d')
    rest t o a done h =
        let u : (d.tasks t).done ≡ false = sym (ap (λ (x : Task R). x.done) (others t o)) ∙ done in
        opens t ∙ ap (λ (x : Task R). x.ctx) (others t o) ∙ sym (off_current d t o) ∙ h u

-- And goes back to it.
pub into_guest :
    {R : Type 0} (e : Emu) (l l' : Loop) (d d' : Shared R)
    → ((t : ℕ) → seen e d t ≡ (d.tasks t).ctx)
    → d'.current ≡ d.current
    → ((d'.tasks d.current).done ≡ false
        → ((d.tasks d.current).done ≡ false) × (d'.regs ≡ (d.tasks d.current).ctx))
    → ((t : ℕ) → (t == d.current) ≡ false → d'.tasks t ≡ d.tasks t)
    → (t : ℕ) → Follows (sys e l d) nothing t (sys guest l' d')
into_guest {R} e l l' d d' opens c cur others =
    each_task d (λ t. Follows (sys e l d) nothing t (sys guest l' d')) first rest
  where
    first : Follows (sys e l d) nothing d.current (sys guest l' d')
    first a done h =
        let (u, r) = cur done in
        let s : seen guest d' d.current ≡ d'.regs =
          subst (λ (n : ℕ). seen guest d' n ≡ d'.regs) c (at_current d') in
        s ∙ r ∙ sym (opens d.current) ∙ h u

    rest : (t : ℕ) → (t == d.current) ≡ false → Follows (sys e l d) nothing t (sys guest l' d')
    rest t o a done h =
        let u : (d.tasks t).done ≡ false = sym (ap (λ (x : Task R). x.done) (others t o)) ∙ done in
        let o' : (t == d'.current) ≡ false = rw c o in
        off_current d' t o' ∙ ap (λ (x : Task R). x.ctx) (others t o) ∙ sym (opens t) ∙ h u

set_task_off :
    {R : Type 0} (t : ℕ) (x : Task R) (d : Shared R) (q : ℕ)
    → (q == t) ≡ false
    → (set_task t x d).tasks q ≡ d.tasks q
set_task_off t x d q o = rw o refl

set_task_at : {R : Type 0} (t : ℕ) (x : Task R) (d : Shared R) → (set_task t x d).tasks t ≡ x
set_task_at t x d = rw (at_itself t) refl

saved-Follows :
    {R : Type 0} (e' : Emu) (l : Loop) (d : Shared R)
    → ((d' : Shared R) (t : ℕ) → seen e' d' t ≡ (d'.tasks t).ctx)
    → (t : ℕ) → Follows (sys guest l d) nothing t (sys e' l (save d))
saved-Follows {R} e' l d opens =
    let at' : (save d).tasks d.current
        ≡ record (d.tasks d.current) { ctx = d.regs; pending = false } =
      set_task_at d.current (record (d.tasks d.current) { ctx = d.regs; pending = false }) d in
    out_of_guest e' l l d (save d) (opens (save d))
      (λ done. (sym (ap (λ (x : Task R). x.done) at') ∙ done, sym (ap (λ (x : Task R). x.ctx) at')))
      (λ t o. rw o refl)

done-Follows :
    {R : Type 0} (l : Loop) (d : Shared R)
    → (d.tasks d.current).done ≡ true
    → (t : ℕ) → Follows (sys guest l d) nothing t (sys (suspending false) l d)
done-Follows l d e =
    out_of_guest (suspending false) l l d d (λ t. refl) (λ done. ground arith) (λ t o. refl)

pub cancelled_done : {R : Type 0} (t : ℕ) (d : Shared R) → ¬ (((cancel t d).tasks t).done ≡ false)
cancelled_done {R} t d e =
    let q : true ≡ false =
      sym (
        ap (λ (x : Task R). x.done)
          (set_task_at t (record (d.tasks t) { pending = false; done = true; gone = true }) d))
      ∙ e in
    ground arith

cancelled-Follows :
    {R : Type 0} (l : Loop) (d : Shared R) (t : ℕ)
    → Follows (sys guest l d) nothing t (sys (suspending false) l (cancel d.current d))
cancelled-Follows l d =
    out_of_guest (suspending false) l l d (cancel d.current d) (λ t. refl)
      (λ done. absurd (cancelled_done d.current d done)) (λ t o. rw o refl)

pub async_task-Follows :
    {R : Type 0} (saves : Bool) (l : Loop) (d : Shared R) (t : ℕ)
    → Follows (sys guest l d) nothing t (async_task saves l d)
async_task-Follows saves l d t =
    either_way (Follows (sys guest l d) nothing t) (d.tasks d.current).done
      (sys (suspending false) l d)
      (if saves
        then sys (suspending true) l (save d)
        else sys (suspending false) l (cancel d.current d))
      (λ done. done-Follows l d done t)
      λ more.
        either_way (Follows (sys guest l d) nothing t) saves (sys (suspending true) l (save d))
          (sys (suspending false) l (cancel d.current d))
          (λ yes'. saved-Follows (suspending true) l d (λ d' q. refl) t)
          (λ no'. cancelled-Follows l d t)

pub sync_task-Follows :
    {R : Type 0} (saves : Bool) (l : Loop) (d : Shared R) (t : ℕ)
    → Follows (sys guest l d) nothing t (sync_task saves l d)
sync_task-Follows saves l d t =
    either_way (Follows (sys guest l d) nothing t) (d.tasks d.current).done
      (sys (suspending false) l d)
      (if saves then sys in_sync l (save d) else sys (suspending false) l (cancel d.current d))
      (λ done. done-Follows l d done t)
      λ more.
        either_way (Follows (sys guest l d) nothing t) saves (sys in_sync l (save d))
          (sys (suspending false) l (cancel d.current d))
          (λ yes'. saved-Follows in_sync l d (λ d' q. refl) t) (λ no'. cancelled-Follows l d t)

-- The emulator's thread runs no code before and after.
pub between :
    {R : Type 0} (e e' : Emu) (l l' : Loop) (d d' : Shared R) (t : ℕ)
    → seen e d t ≡ (d.tasks t).ctx
    → seen e' d' t ≡ (d'.tasks t).ctx
    → ((d'.tasks t).done ≡ false
        → ((d.tasks t).done ≡ false) × ((d'.tasks t).ctx ≡ (d.tasks t).ctx))
    → Follows (sys e l d) nothing t (sys e' l' d')
between e e' l l' d d' t opens opens' same a done h =
    let (u, c) = same done in opens' ∙ c ∙ sym opens ∙ h u

-- One task is changed, and keeps its registers.
pub kept :
    {R : Type 0} (q : ℕ) (x : Task R) (d : Shared R) (t : ℕ)
    → x.ctx ≡ (d.tasks q).ctx
    → (x.done ≡ false → (d.tasks q).done ≡ false)
    → ((set_task q x d).tasks t).done ≡ false
    → ((d.tasks t).done ≡ false) × (((set_task q x d).tasks t).ctx ≡ (d.tasks t).ctx)
kept q x d t same keeps done =
    (done-set_task q x d t keeps done, seen-set_task resuming q x d t same)

not_restored_keeps :
    {R : Type 0} (q : ℕ) (d : Shared R) (t : ℕ)
    → ((not_restored q d).tasks t).done ≡ false
    → ((d.tasks t).done ≡ false) × (((not_restored q d).tasks t).ctx ≡ (d.tasks t).ctx)
not_restored_keeps {R} q d t done =
    let unchanged : Task R = record (d.tasks q) { change = false } in
    let mid : Shared R = set_task q unchanged d in
    let last =
      kept q (record (mid.tasks q) { pending = false; done = true; gone = true }) mid t refl
        (λ e. ground arith) done in
    let first = kept q unchanged d t refl (λ e. e) last.0 in (first.0, last.1 ∙ first.1)

pub sync_end-Follows :
    {R : Type 0} (restores : Bool) (l : Loop) (d : Shared R) (t : ℕ)
    → Sound (sys in_sync l d)
    → Follows (sys in_sync l d) nothing t (sync_end restores l d)
sync_end-Follows {R} restores l d t (i, on, m) =
    either_way (Follows (sys in_sync l d) nothing t) (d.tasks d.current).done
      (sys (suspending false) l d)
      (if not (d.tasks d.current).change then sys guest l d else restored) (λ done a g h. h g)
      λ more.
        either_way (Follows (sys in_sync l d) nothing t) (not (d.tasks d.current).change)
          (sys guest l d) restored
          (λ same.
            into_guest in_sync l l d d (λ q. refl) refl (λ done. (done, m done (ground arith)))
              (λ q o. refl) t)
          λ changed.
            either_way (Follows (sys in_sync l d) nothing t) restores
              (sys guest l (restore d.current d))
              (sys (suspending false) l (not_restored d.current d))
              (λ yes'.
                into_guest in_sync l l d (restore d.current d) (λ q. refl) refl
                  (λ done. (more, refl)) (λ q o. rw o refl) t)
              λ no'.
                between in_sync (suspending false) l l d (not_restored d.current d) t refl refl
                  (not_restored_keeps d.current d t)
  where
    restored : System R
    restored =
        if restores
        then sys guest l (restore d.current d)
        else sys (suspending false) l (not_restored d.current d)

waiting_opens :
    {R : Type 0} (e : Emu) (d : Shared R)
    → Sound (sys e waiting d)
    → (d' : Shared R) (t : ℕ) → seen e d' t ≡ (d'.tasks t).ctx
waiting_opens guest d (i, on) d' t = absurd i
waiting_opens in_sync d h d' t = refl
waiting_opens (suspending call) d h d' t = refl
waiting_opens (giving q) d h d' t = refl
waiting_opens resuming d h d' t = refl
waiting_opens stopped d h d' t = refl

pub suspends-Follows :
    {R : Type 0} (call : Bool) (d : Shared R) (t : ℕ)
    → Follows
        (sys (suspending call) idle d)
        nothing
        t
        (sys (after_suspend call d.current) waiting (left_behind call d))
suspends-Follows true d t =
    between (suspending true) (giving d.current) idle waiting d d t refl refl (λ done. (done, refl))
suspends-Follows false d t =
    between (suspending false) resuming idle waiting d (set_phase d.current over d) t refl refl
      (kept d.current (record (d.tasks d.current) { phase = over }) d t refl (λ e. e))

restore_keeps :
    {R : Type 0} (q : ℕ) (d : Shared R) (t : ℕ)
    → ((restore q d).tasks t).done ≡ false
    → ((d.tasks t).done ≡ false) × (((restore q d).tasks t).ctx ≡ (d.tasks t).ctx)
restore_keeps q d t done =
    kept q (record (d.tasks q) { change = false }) (record d { regs = (d.tasks q).ctx }) t refl
      (λ e. e) done

pub dispatched-Follows :
    {R : Type 0} (q : ℕ) (restores : Bool) (e : Emu) (d : Shared R) (t : ℕ)
    → Sound (sys e waiting d)
    → Follows (sys e waiting d) nothing t (dispatched q restores e d)
dispatched-Follows {R} q restores e d t h =
    either_way (Follows (sys e waiting d) nothing t) ((q == d.current) && not (d.tasks q).change)
      (sys e leaving (set_phase q on_emulator d))
      (if restores then sys e leaving (restore q on) else sys e waiting (not_restored q off))
      (λ same.
        between e e waiting leaving d (set_phase q on_emulator d) t (opens d t)
          (opens (set_phase q on_emulator d) t) (phase_keeps on_emulator d))
      λ other.
        either_way (Follows (sys e waiting d) nothing t) restores (sys e leaving (restore q on))
          (sys e waiting (not_restored q off))
          (λ yes'.
            between e e waiting leaving d (restore q on) t (opens d t) (opens (restore q on) t)
              (λ done.
                let last = restore_keeps q on t done in
                let first = phase_keeps on_emulator (record d { current = q }) last.0 in
                (first.0, last.1 ∙ first.1)))
          λ no'.
            between e e waiting waiting d (not_restored q off) t (opens d t)
              (opens (not_restored q off) t)
              λ done.
                let last = not_restored_keeps q off t done in
                let first = phase_keeps over (record d { current = q }) last.0 in
                (first.0, last.1 ∙ first.1)
  where
    opens : (d' : Shared R) (t : ℕ) → seen e d' t ≡ (d'.tasks t).ctx
    opens = waiting_opens e d h

    on : Shared R
    on = set_phase q on_emulator (record d { current = q })

    off : Shared R
    off = set_phase q over (record d { current = q })

    phase_keeps :
        (p : Phase) (d : Shared R)
        → ((set_phase q p d).tasks t).done ≡ false
        → ((d.tasks t).done ≡ false) × (((set_phase q p d).tasks t).ctx ≡ (d.tasks t).ctx)
    phase_keeps p d = kept q (record (d.tasks q) { phase = p }) d t refl (λ e. e)
