-- ===== src/Socket/Roles.antt =====
-- A socket of socket/socket.go as an automaton of four roles.
use microdbg.Base.{ℕ, ◌≡◌, refl, subst, Option, none, some, List, [], ◌∷◌}
use microdbg.Errors.{Error, already_bind, already_listen, already_connect, not_bind, not_listen}
use microdbg.Socket.{
  Answer, opened, failed, Net, Socket, new, bind, listening, listen, accepted, accept, connected,
  connect,
}

pub data Role : Type 0 where
  idle bound server client : Role

-- The fields of a socket in each role.
pub data Plays : Socket → Role → Type 0 where
  plays_idle : (t : List ℕ) → Plays (record { t = t; a = []; l = none; c = none }) idle
  plays_bound :
      (t : List ℕ) (b : ℕ) (a : List ℕ)
      → Plays (record { t = t; a = b ∷ a; l = none; c = none }) bound
  plays_server :
      (t : List ℕ) (b : ℕ) (a : List ℕ) (l : ℕ)
      → Plays (record { t = t; a = b ∷ a; l = some l; c = none }) server
  plays_client :
      (t : List ℕ) (c : ℕ) → Plays (record { t = t; a = []; l = none; c = some c }) client

-- The automaton: the error, if any, and the next role. What the package net answers is an argument.
abbrev pub after_bind : Role → List ℕ → Option Error × Role
after_bind idle [] = (none, idle)
after_bind idle (b ∷ addr) = (none, bound)
after_bind bound addr = (some already_bind, bound)
after_bind server addr = (some already_bind, server)
after_bind client addr = (some already_connect, client)

abbrev pub after_listen : Role → Answer ℕ → Option Error × Role
after_listen idle r = (some not_bind, idle)
after_listen bound (opened l) = (none, server)
after_listen bound (failed x) = (some x, bound)
after_listen server r = (some already_listen, server)
after_listen client r = (some not_bind, client)

abbrev pub after_connect : Role → Answer ℕ → Option Error × Role
after_connect idle (opened c) = (none, client)
after_connect idle (failed x) = (some x, idle)
after_connect bound r = (some already_bind, bound)
after_connect server r = (some already_bind, server)
after_connect client r = (some already_connect, client)

-- The outcome of an operation agrees with the automaton's.
abbrev pub Agrees : Option Error → Socket → Option Error × Role → Type 0
Agrees e s o = (e ≡ o.0) × Plays s o.1

bind-Agrees :
    {s : Socket} {r : Role} (addr : List ℕ)
    → Plays s r
    → Agrees (bind s addr).0 (bind s addr).1 (after_bind r addr)
unfolding bind
bind-Agrees [] (plays_idle t) = (refl, plays_idle t)
bind-Agrees (b ∷ addr) (plays_idle t) = (refl, plays_bound t b addr)
bind-Agrees addr (plays_bound t b a) = (refl, plays_bound t b a)
bind-Agrees addr (plays_server t b a l) = (refl, plays_server t b a l)
bind-Agrees addr (plays_client t c) = (refl, plays_client t c)

module _ (n : Net) where
  listening-Agrees :
      (t : List ℕ) (b : ℕ) (a : List ℕ) (o : Answer ℕ × n.State)
      → let s : Socket = record { t = t; a = b ∷ a; l = none; c = none } in
        Agrees (listening n s o).0 (listening n s o).1 (after_listen bound o.0)
  listening-Agrees t b a (opened l, st) = (refl, plays_server t b a l)
  listening-Agrees t b a (failed x, st) = (refl, plays_bound t b a)

  listen-Agrees :
      {s : Socket} {r : Role} (st : n.State)
      → Plays s r
      → Agrees (listen n s st).0 (listen n s st).1 (after_listen r (n.listen_on s.t s.a st).0)
  unfolding listen
  listen-Agrees st (plays_idle t) = (refl, plays_idle t)
  listen-Agrees st (plays_bound t b a) = listening-Agrees t b a (n.listen_on t (b ∷ a) st)
  listen-Agrees st (plays_server t b a l) = (refl, plays_server t b a l)
  listen-Agrees st (plays_client t c) = (refl, plays_client t c)

  connected-Agrees :
      (t : List ℕ) (o : Answer ℕ × n.State)
      → let s : Socket = record { t = t; a = []; l = none; c = none } in
        Agrees (connected n s o).0 (connected n s o).1 (after_connect idle o.0)
  connected-Agrees t (opened c, st) = (refl, plays_client t c)
  connected-Agrees t (failed x, st) = (refl, plays_idle t)

  connect-Agrees :
      {s : Socket} {r : Role} (addr : List ℕ) (st : n.State)
      → Plays s r
      → Agrees
          (connect n s addr st).0
          (connect n s addr st).1
          (after_connect r (n.dial s.t addr st).0)
  unfolding connect
  connect-Agrees addr st (plays_idle t) = connected-Agrees t (n.dial t addr st)
  connect-Agrees addr st (plays_bound t b a) = (refl, plays_bound t b a)
  connect-Agrees addr st (plays_server t b a l) = (refl, plays_server t b a l)
  connect-Agrees addr st (plays_client t c) = (refl, plays_client t c)

-- What the listener of a socket offers.
abbrev pub offered : (n : Net) → Option ℕ → n.State → Answer ℕ
offered n none st = failed not_listen
offered n (some l) st = (n.accept_from l st).0

-- What accepting leads to, by what the listener offers: for a server a client on the connection that is
-- offered, or the error of the listener, and an error for any other role.
abbrev pub Accepts : Role → Answer ℕ → Answer Socket → Type 0
Accepts server (opened c) (opened s) = Plays s client × (s.c ≡ some c)
Accepts server (opened c) (failed x) = ⊥
Accepts server (failed x) r = r ≡ failed x
Accepts idle o r = r ≡ failed not_listen
Accepts bound o r = r ≡ failed not_listen
Accepts client o r = r ≡ failed not_listen

accepted-Accepts :
    (n : Net) (s : Socket) (o : Answer ℕ × n.State) → Accepts server o.0 (accepted n s o).0
accepted-Accepts n s (opened c, st) = (plays_client s.t c, refl)
accepted-Accepts n s (failed x, st) = refl

accept-Accepts :
    (n : Net) {s : Socket} {r : Role} (st : n.State)
    → Plays s r
    → Accepts r (offered n s.l st) (accept n s st).0
unfolding accept
accept-Accepts n st (plays_idle t) = refl
accept-Accepts n st (plays_bound t b a) = refl
accept-Accepts n st (plays_server t b a l) =
    accepted-Accepts n (record { t = t; a = b ∷ a; l = some l; c = none }) (n.accept_from l st)
accept-Accepts n st (plays_client t c) = refl

-- A socket in a role acts as the automaton: binding, listening and connecting return the automaton's
-- error and lead to its next role, whatever the package net answers. Accepting on a server gives a
-- client on the connection that its listener offers, or the listener's error; in any other role it gives
-- the error for a socket that does not listen.
pub operations-Agree :
    (n : Net) (s : Socket) (r : Role) (addr : List ℕ) (st : n.State)
    → Plays s r
    → Agrees (bind s addr).0 (bind s addr).1 (after_bind r addr)
      × Agrees (listen n s st).0 (listen n s st).1 (after_listen r (n.listen_on s.t s.a st).0)
      × Agrees
          (connect n s addr st).0
          (connect n s addr st).1
          (after_connect r (n.dial s.t addr st).0)
      × Accepts r (offered n s.l st) (accept n s st).0
operations-Agree n s r addr st p =
    (bind-Agrees addr p, listen-Agrees n st p, connect-Agrees n addr st p, accept-Accepts n st p)

-- The sockets that calls lead to.
pub data Reached (n : Net) : Socket → Type 0 where
  made : (network : List ℕ) → Reached n (new network)
  binds : {s : Socket} (addr : List ℕ) → Reached n s → Reached n (bind s addr).1
  listens : {s : Socket} (st : n.State) → Reached n s → Reached n (listen n s st).1
  connects :
      {s : Socket} (addr : List ℕ) (st : n.State) → Reached n s → Reached n (connect n s addr st).1
  accepts :
      {s s' : Socket} (st : n.State) → Reached n s → (accept n s st).0 ≡ opened s' → Reached n s'

accepted-Plays :
    (r : Role) (a : Answer ℕ) (o : Answer Socket) (s : Socket)
    → Accepts r a o
    → o ≡ opened s
    → Plays s client
accepted-Plays server (opened c) (opened x) s (p, q) e =
    (subst (Accepts server (opened c)) e (p, q)).0
accepted-Plays server (opened c) (failed x) s p e = absurd p
accepted-Plays server (failed x) o s p e = absurd (cc)
accepted-Plays idle a o s p e = absurd (cc)
accepted-Plays bound a o s p e = absurd (cc)
accepted-Plays client a o s p e = absurd (cc)

-- Every socket that is made, bound, made to listen or connected, or accepted from another one, however
-- the calls follow each other and whether they fail or not, is in one of the four roles: never bound
-- or listening and connected at once, and never listening without being bound.
pub Reached-Plays : (n : Net) (s : Socket) → Reached n s → (r : Role) × Plays s r
unfolding new
Reached-Plays n s (made network) = (idle, plays_idle network)
Reached-Plays n s (binds addr h) = let (r, p) = Reached-Plays n _ h in (_, (bind-Agrees addr p).1)
Reached-Plays n s (listens st h) = let (r, p) = Reached-Plays n _ h in (_, (listen-Agrees n st p).1)
Reached-Plays n s (connects addr st h) =
    let (r, p) = Reached-Plays n _ h in (_, (connect-Agrees n addr st p).1)
Reached-Plays n s (accepts st h e) =
    let (r, p) = Reached-Plays n _ h in (client, accepted-Plays r _ _ s (accept-Accepts n st p) e)
