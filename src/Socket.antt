-- ===== src/Socket.antt =====
-- `socket` of socket/socket.go. The Go package net is a parameter: listeners and connections are
-- numbers, addresses and network names lists of bytes.
pub mod Roles
mod Tests
use microdbg.Base.{ℕ, Bool, true, false, Option, none, some, List, [], ◌∷◌, if◌then◌else◌}
use microdbg.Errors.{
  Error, already_bind, already_listen, already_connect, not_bind, not_listen, not_connect,
}

-- What a call of the package net returns.
pub data Answer {ℓ} (A : Type ℓ) : Type ℓ where
  opened : A → Answer A
  failed : Error → Answer A

pub record Net : Type 1 where
  pub State : Type 0
  pub listen_on : List ℕ → List ℕ → State → Answer ℕ × State
  pub accept_from : ℕ → State → Answer ℕ × State
  pub dial : List ℕ → List ℕ → State → Answer ℕ × State
  pub close_listener : ℕ → State → Option Error × State
  pub close_conn : ℕ → State → Option Error × State
  pub read_conn : ℕ → ℕ → State → Answer (List ℕ) × State
  pub write_conn : ℕ → List ℕ → State → Answer ℕ × State

pub record Socket : Type 0 where
  pub t : List ℕ
  pub a : List ℕ
  pub l : Option ℕ
  pub c : Option ℕ

unfoldable pub new : List ℕ → Socket
new network = record { t = network; a = []; l = none; c = none }

-- The tests `s.a != ""`, and `s.l != nil` or `s.c != nil`.
abbrev pub is_set : List ℕ → Bool
is_set [] = false
is_set (b ∷ bs) = true

abbrev pub is_there : Option ℕ → Bool
is_there none = false
is_there (some n) = true

unfoldable pub bind : Socket → List ℕ → Option Error × Socket
bind s addr =
    if is_set s.a
    then (some already_bind, s)
    else if is_there s.c
    then (some already_connect, s)
    else (none, record s { a = addr })

module _ (n : Net) where
  -- An error leaves nil in the field.
  abbrev pub listening : Socket → Answer ℕ × n.State → Option Error × Socket × n.State
  listening s (opened l, st) = (none, record s { l = some l }, st)
  listening s (failed x, st) = (some x, record s { l = none }, st)

  unfoldable pub listen : Socket → n.State → Option Error × Socket × n.State
  listen s st =
      if is_set s.a
      then (if is_there s.l
          then (some already_listen, s, st)
          else if is_there s.c
          then (some already_connect, s, st)
          else listening s (n.listen_on s.t s.a st))
      else (some not_bind, s, st)

  abbrev pub accepted : Socket → Answer ℕ × n.State → Answer Socket × n.State
  accepted s (opened c, st) = (opened (record { t = s.t; a = []; l = none; c = some c }), st)
  accepted s (failed x, st) = (failed x, st)

  abbrev pub accept_on : Option ℕ → Socket → n.State → Answer Socket × n.State
  accept_on none s st = (failed not_listen, st)
  accept_on (some l) s st =
      if is_there s.c then (failed already_connect, st) else accepted s (n.accept_from l st)

  unfoldable pub accept : Socket → n.State → Answer Socket × n.State
  accept s st = accept_on s.l s st

  abbrev pub connected : Socket → Answer ℕ × n.State → Option Error × Socket × n.State
  connected s (opened c, st) = (none, record s { c = some c }, st)
  connected s (failed x, st) = (some x, record s { c = none }, st)

  unfoldable pub connect : Socket → List ℕ → n.State → Option Error × Socket × n.State
  connect s addr st =
      if is_set s.a
      then (some already_bind, s, st)
      else if is_there s.l
      then (some already_listen, s, st)
      else if is_there s.c
      then (some already_connect, s, st)
      else connected s (n.dial s.t addr st)

  abbrev pub close_either : Option ℕ → Option ℕ → n.State → Option Error × n.State
  close_either (some l) c st = n.close_listener l st
  close_either none (some c) st = n.close_conn c st
  close_either none none st = (none, st)

  unfoldable pub close : Socket → n.State → Option Error × n.State
  close s st = close_either s.l s.c st

  abbrev pub read_from : Option ℕ → ℕ → n.State → Answer (List ℕ) × n.State
  read_from none len st = (failed not_connect, st)
  read_from (some c) len st = n.read_conn c len st

  unfoldable pub read : Socket → ℕ → n.State → Answer (List ℕ) × n.State
  read s len st = read_from s.c len st

  abbrev pub write_to : Option ℕ → List ℕ → n.State → Answer ℕ × n.State
  write_to none b st = (failed not_connect, st)
  write_to (some c) b st = n.write_conn c b st

  unfoldable pub write : Socket → List ℕ → n.State → Answer ℕ × n.State
  write s b st = write_to s.c b st
