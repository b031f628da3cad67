-- ===== src/Tasks/Status.antt =====
-- The status of a task of internal/debugger/runner.go over any sequence of its operations.
use microdbg.Base.{
  ℕ, ◌≤◌, ◌≡◌, ◌⊎◌, refl, ap, false, Option, none, some, List, [], ◌∷◌, ◌++◌, ltb, ◌==◌, Bool-cases,
  inl, inr, arith,
}
use microdbg.Tasks.{
  Runner, Cause, first_cause, update_status, cancel_cause, context_save, close, get_main_task,
  canceled, running, finished, shut,
}

-- What happens to a task after it was made: its context is saved, it is cancelled, it is closed, or, if it
-- is the main task, `getMainTask` is called. Closing the main task does the same to status and cause.
pub data Event : Type 0 where
  saved closed_one taken : Event
  cancelled : Cause → Event

abbrev pub happens : Runner → Event → Runner
happens r saved = context_save r
happens r (cancelled cause) = cancel_cause r cause
happens r taken = (get_main_task r).1
happens r closed_one = (close false r (record { current = none; contexts = [] })).0

abbrev pub happen : Runner → List Event → Runner
happen r [] = r
happen r (e ∷ es) = happen (happens r e) es

-- A later state of a task: its status is no lower, and a cause stays.
abbrev pub IsLater : Runner → Runner → Type 0
IsLater r r' = (r.status ≤ r'.status) × ((c : Cause) → r.cause ≡ some c → r'.cause ≡ some c)

IsLater-trans : (a b c : Runner) → IsLater a b → IsLater b c → IsLater a c
IsLater-trans a b c p q = (omega (arith, p.0, q.0), λ x e. q.1 x (p.1 x e))

update_status-IsLater :
    (r : Runner) (n : ℕ) → IsLater r (update_status r n) × (n ≤ (update_status r n).status)
unfolding update_status
update_status-IsLater r n = elim (Bool-cases (ltb r.status n)) [
  | inl up ↦ rw up ((ground arith, λ c e. e), omega arith)
  | inr same ↦ rw same ((omega arith, λ c e. e), ground arith)
]

first_cause-keeps : (o : Option Cause) (x c : Cause) → o ≡ some c → first_cause o x ≡ some c
first_cause-keeps o x c e = rw e refl

cancel_cause-IsLater :
    (r : Runner) (x : Cause) → IsLater r (cancel_cause r x) × (finished ≤ (cancel_cause r x).status)
unfolding cancel_cause
cancel_cause-IsLater r x =
    let u = update_status-IsLater r finished in
    ((u.0.0, λ c e. first_cause-keeps _ x c (u.0.1 c e)), u.1)

-- `getMainTask` took the task again in the course of events, when it was closed.
abbrev pub TakenAgain : Runner → List Event → Type 0
TakenAgain r es =
    (before : List Event) × (after : List Event) × (es ≡ before ++ (taken ∷ after))
    × ((happen r before).status ≡ shut)

happens-IsLater :
    (r : Runner) (e : Event) → IsLater r (happens r e) ⊎ ((e ≡ taken) × (r.status ≡ shut))
unfolding context_save close get_main_task
happens-IsLater r saved = inl (update_status-IsLater r running).0
happens-IsLater r (cancelled x) = inl (cancel_cause-IsLater r x).0
happens-IsLater r closed_one = inl (
    IsLater-trans r (cancel_cause r canceled) (update_status (cancel_cause r canceled) shut)
      (cancel_cause-IsLater r canceled).0 (update_status-IsLater (cancel_cause r canceled) shut).0)
happens-IsLater r taken = elim (Bool-cases (r.status == shut)) [
  | inl closed' ↦ inr (refl, ground arith)
  | inr other ↦ inl (rw (other, happens) (omega arith, λ c e. e))
]

happen_lem : (r : Runner) (es : List Event) → IsLater r (happen r es) ⊎ TakenAgain r es
happen_lem r [] = inl (omega arith, λ c e. e)
happen_lem r (e ∷ es) = go (happens-IsLater r e) (happen_lem (happens r e) es)
  where
    go :
        IsLater r (happens r e) ⊎ ((e ≡ taken) × (r.status ≡ shut))
        → IsLater (happens r e) (happen (happens r e) es) ⊎ TakenAgain (happens r e) es
        → IsLater r (happen r (e ∷ es)) ⊎ TakenAgain r (e ∷ es)
    go (inr (p, q)) rest = inr ([], es, ap (λ x. x ∷ es) p, q)
    go (inl p) (inl q) = inl (IsLater-trans r (happens r e) (happen (happens r e) es) p q)
    go (inl p) (inr (before, after, q, s)) = inr (e ∷ before, after, ap (λ l. e ∷ l) q, s)

cancel_cause-first : (r : Runner) (x : Cause) → r.cause ≡ none → (cancel_cause r x).cause ≡ some x
unfolding cancel_cause update_status
cancel_cause-first r x e = elim (Bool-cases (ltb r.status finished)) [
  | inl up ↦ rw (up, e) refl
  | inr same ↦ rw (same, e) refl
]

-- Whatever happens to a task, in whatever order: its status does not go down and the cause of its end
-- does not change, unless `getMainTask` took it again in the course, which it does only to a task whose
-- status is closed. In particular the first cancellation of a task, if it was not cancelled before,
-- gives the cause for as long as the task is not taken again, and so long the task is done.
pub happen-IsLater :
    (r : Runner) (x : Cause) (es : List Event)
    → (IsLater r (happen r es) ⊎ TakenAgain r es)
      × (r.cause ≡ none
          → (((happen r (cancelled x ∷ es)).cause ≡ some x)
              × (finished ≤ (happen r (cancelled x ∷ es)).status))
            ⊎ TakenAgain (cancel_cause r x) es)
happen-IsLater r x es = (happen_lem r es, λ e. go e (happen_lem (cancel_cause r x) es))
  where
    go :
        r.cause ≡ none
        → IsLater (cancel_cause r x) (happen (cancel_cause r x) es)
          ⊎ TakenAgain (cancel_cause r x) es
        → (((happen r (cancelled x ∷ es)).cause ≡ some x)
            × (finished ≤ (happen r (cancelled x ∷ es)).status))
          ⊎ TakenAgain (cancel_cause r x) es
    go e (inl later) =
        inl (
          later.1 x (cancel_cause-first r x e),
          omega (arith, later.0, (cancel_cause-IsLater r x).1),
        )
    go e (inr again) = inr again
