-- ===== src/Socket/Tests.antt =====
-- A socket of socket/socket.go on a concrete network.
use microdbg.Base.{ℕ, ◌+◌, none, [], ◌∷◌}
use microdbg.Errors.{not_listen}
use microdbg.Socket.{failed, opened, Net, Socket, new, bind, listen, accept, connect}
use microdbg.Socket.Roles.{
  Role, bound, Plays, plays_bound, Agrees, Accepts, after_bind, after_listen, after_connect,
  operations-Agree, made, binds, listens, Reached-Plays,
}

-- A network that numbers what it opens.
abbrev numbering : Net
numbering = record {
  State = ℕ;
  listen_on = λ t a n. (opened n, n + 1);
  accept_from = λ l n. (opened n, n + 1);
  dial = λ t a n. (opened n, n + 1);
  close_listener = λ l n. (none, n);
  close_conn = λ c n. (none, n);
  read_conn = λ c len n. (opened [], n);
  write_conn = λ c b n. (opened 0, n);
}

abbrev at_port : Socket
at_port = record { t = 116 ∷ []; a = 58 ∷ 56 ∷ []; l = none; c = none }

operations-Agree_example :
    Agrees (bind at_port (57 ∷ [])).0 (bind at_port (57 ∷ [])).1 (after_bind bound (57 ∷ []))
    × Agrees
        (listen numbering at_port 3).0
        (listen numbering at_port 3).1
        (after_listen bound (opened 3))
    × Agrees
        (connect numbering at_port (57 ∷ []) 3).0
        (connect numbering at_port (57 ∷ []) 3).1
        (after_connect bound (opened 3))
    × Accepts bound (failed not_listen) (accept numbering at_port 3).0
operations-Agree_example =
    operations-Agree numbering at_port bound (57 ∷ []) 3 (plays_bound (116 ∷ []) 58 (56 ∷ []))

Reached-Plays_example :
    (r : Role) × Plays (listen numbering (bind (new (116 ∷ [])) (58 ∷ [])).1 0).1 r
Reached-Plays_example =
    Reached-Plays numbering (listen numbering (bind (new (116 ∷ [])) (58 ∷ [])).1 0).1
      (listens 0 (binds (58 ∷ []) (made (116 ∷ []))))
