-- ===== src/Tasks/Contexts.antt =====
-- Which contexts internal/debugger/task.go keeps.
use microdbg.Base.{
  ℕ, zero, suc, ◌+◌, length, ◌≡◌, refl, ap, ◌∙◌, Bool, true, false, Option, none, some, List, [],
  ◌∷◌, ◌==◌, if◌then◌else◌, ltb, Bool-cases, inl, inr, arith,
}
use microdbg.Errors.{Result, ok, err, panic, emulator_stop}
use microdbg.Tasks.{
  Collection, next_current, send, receive, alloc_task_context, free_task_context, Runner, close,
  update_status, cancel_cause, finished, shut, canceled,
}

abbrev pub one_if : Bool → ℕ
one_if b = if b then 1 else 0

abbrev pub times : ℕ → List ℕ → ℕ
times x [] = 0
times x (c ∷ cs) = one_if (c == x) + times x cs

-- How often a context is kept.
abbrev pub kept_in : ℕ → Option ℕ → List ℕ → ℕ
kept_in x none cs = times x cs
kept_in x (some c) cs = one_if (c == x) + times x cs

abbrev pub kept : ℕ → Collection → ℕ
kept x col = kept_in x col.current col.contexts

-- There is a current context whenever others are kept.
abbrev pub HasCurrent : Option ℕ → List ℕ → Type 0
HasCurrent none [] = Unit {0}
HasCurrent none (c ∷ cs) = ⊥
HasCurrent (some c) cs = Unit {0}

abbrev pub IsFilled : Collection → Type 0
IsFilled col = HasCurrent col.current col.contexts

-- What handing out does to what is kept.
abbrev pub HandsOut : Collection → Option ℕ → Collection → Type 0
HandsOut col none col' = (x : ℕ) → kept x col ≡ 0
HandsOut col (some c) col' = (x : ℕ) → one_if (c == x) + kept x col' ≡ kept x col

next_current-IsFilled : (cs : List ℕ) → IsFilled (next_current cs)
next_current-IsFilled [] = tt
next_current-IsFilled (c ∷ cs) = tt

next_current-kept : (x : ℕ) (cs : List ℕ) → kept x (next_current cs) ≡ times x cs
next_current-kept x [] = refl
next_current-kept x (c ∷ cs) = refl

send-HandsOut :
    (cur : Option ℕ) (cs : List ℕ)
    → HasCurrent cur cs
    → let col : Collection = record { current = cur; contexts = cs } in
      IsFilled (send col).1 × HandsOut col (send col).0 (send col).1
unfolding send
send-HandsOut none [] f = (tt, λ x. refl)
send-HandsOut none (c ∷ cs) f = absurd f
send-HandsOut (some c) cs f = (next_current-IsFilled cs, λ x. omega (arith, next_current-kept x cs))

receive-kept :
    (cur : Option ℕ) (cs : List ℕ) (c : ℕ)
    → HasCurrent cur cs
    → let col : Collection = record { current = cur; contexts = cs } in
      IsFilled (receive col c) × ((x : ℕ) → kept x (receive col c) ≡ one_if (c == x) + kept x col)
unfolding receive
receive-kept none cs c f = (tt, λ x. refl)
receive-kept (some d) cs c f = (tt, λ x. omega arith)

-- While the manager runs, a context that is given back, and is not a fork's, is kept once more; a
-- context that is handed out is kept once less; and none is handed out only if none is kept. After the
-- end nothing is kept in addition and nothing is handed out.
pub alloc_task_context-HandsOut :
    (col : Collection) (c : ℕ) (forked : Bool)
    → IsFilled col
    → ((o : Option ℕ) × ((alloc_task_context false col).0 ≡ ok o)
        × IsFilled (alloc_task_context false col).1
        × HandsOut col o (alloc_task_context false col).1)
      × IsFilled (free_task_context false forked col c)
      × ((x : ℕ)
          → kept x (free_task_context false forked col c)
            ≡ (if forked then 0 else one_if (c == x)) + kept x col)
      × (alloc_task_context true col ≡ (err emulator_stop, col))
      × (free_task_context true forked col c ≡ col)
unfolding alloc_task_context free_task_context
alloc_task_context-HandsOut col c forked f = go forked
  where
    sent : IsFilled (send col).1 × HandsOut col (send col).0 (send col).1
    sent = send-HandsOut col.current col.contexts f

    back :
        IsFilled (receive col c) × ((x : ℕ) → kept x (receive col c) ≡ one_if (c == x) + kept x col)
    back = receive-kept col.current col.contexts c f

    go :
        (b : Bool)
        → ((o : Option ℕ) × ((alloc_task_context false col).0 ≡ ok o)
            × IsFilled (alloc_task_context false col).1
            × HandsOut col o (alloc_task_context false col).1)
          × IsFilled (free_task_context false b col c)
          × ((x : ℕ)
              → kept x (free_task_context false b col c)
                ≡ (if b then 0 else one_if (c == x)) + kept x col)
          × (alloc_task_context true col ≡ (err emulator_stop, col))
          × (free_task_context true b col c ≡ col)
    go true = (((send col).0, refl, sent.0, sent.1), f, (λ x. omega arith), refl, refl)
    go false = (((send col).0, refl, sent.0, sent.1), back.0, back.1, refl, refl)

-- Changing the status leaves the rest of a task.
update_status-same :
    (r : Runner) (n : ℕ)
    → ((update_status r n).task_ctx ≡ r.task_ctx) × ((update_status r n).forked ≡ r.forked)
unfolding update_status
update_status-same r n = elim (Bool-cases (ltb r.status n)) [
  | inl up ↦ rw up (refl, refl)
  | inr same ↦ rw same (refl, refl)
]

close-same :
    (r : Runner) (col : Collection)
    → ((close false r col).0.task_ctx ≡ r.task_ctx) × ((close false r col).0.forked ≡ r.forked)
unfolding close cancel_cause
close-same r col =
    let done = update_status-same r finished in
    let last = update_status-same (cancel_cause r canceled) shut in
    (last.0 ∙ done.0, last.1 ∙ done.1)

close-kept :
    (r : Runner) (col : Collection)
    → r.forked ≡ false
    → IsFilled col
    → IsFilled (close false r col).1
      × ((x : ℕ) → kept x (close false r col).1 ≡ one_if (r.task_ctx == x) + kept x col)
unfolding close free_task_context
close-kept r col owned f = rw owned (receive-kept col.current col.contexts r.task_ctx f)

-- How many contexts are kept, and the contexts that as many tasks made one after the other are given.
abbrev pub total : Collection → ℕ
total col = size col.current col.contexts
  where
    size : Option ℕ → List ℕ → ℕ
    size none cs = length cs
    size (some c) cs = suc (length cs)

abbrev pub and_drawn : Result (Option ℕ) × Collection → (Collection → List ℕ) → List ℕ
and_drawn (ok (some c), col) more = c ∷ more col
and_drawn (ok none, col) more = more col
and_drawn (err x, col) more = []
and_drawn (panic, col) more = []

pub drawn : ℕ → Collection → List ℕ
unfolding alloc_task_context
drawn zero col = []
drawn (suc n) col = and_drawn (alloc_task_context false col) (λ col'. drawn n col')

drawn_all :
    (c : ℕ) (cs : List ℕ)
    → drawn (suc (length cs)) (record { current = some c; contexts = cs }) ≡ c ∷ cs
unfolding drawn alloc_task_context send
drawn_all c [] = refl
drawn_all c (d ∷ cs) = ap (λ l. c ∷ l) (drawn_all d cs)

-- All that is kept is given.
drawn-kept :
    (cur : Option ℕ) (cs : List ℕ) (x : ℕ)
    → HasCurrent cur cs
    → let col : Collection = record { current = cur; contexts = cs } in
      times x (drawn (total col) col) ≡ kept x col
unfolding drawn
drawn-kept none [] x f = refl
drawn-kept none (c ∷ cs) x f = absurd f
drawn-kept (some c) cs x f = ap (times x) (drawn_all c cs)

-- A task that is not the main task, no fork, and closed twice while the manager runs gives its context
-- back twice: of the tasks that are made from the kept contexts afterwards, two more are given the
-- context of the closed task than without closing it.
pub close-close :
    (r : Runner) (col : Collection)
    → r.forked ≡ false
    → IsFilled col
    → let twice = (close false (close false r col).0 (close false r col).1).1 in
      times r.task_ctx (drawn (total twice) twice)
      ≡ suc (suc (times r.task_ctx (drawn (total col) col)))
close-close r col owned f =
    let first = close-kept r col owned f in
    let same = close-same r col in
    let second = close-kept (close false r col).0 (close false r col).1 (same.1 ∙ owned) first.0 in
    let twice : Collection = (close false (close false r col).0 (close false r col).1).1 in
    let after = drawn-kept twice.current twice.contexts r.task_ctx second.0 in
    let before = drawn-kept col.current col.contexts r.task_ctx f in
    let itself : one_if (r.task_ctx == r.task_ctx) ≡ 1 = ground arith in
    omega (
      arith,
      second.1 r.task_ctx,
      first.1 r.task_ctx,
      ap (λ c. one_if (c == r.task_ctx)) same.0,
      after,
      before,
      itself,
    )
