-- ===== src/Client/Tests.antt =====
-- A put over a network that loses packets, and the theorems there.
use cs537_sp23_operating_sys.Common.{List, Option, [], arith, none, refl, some, ◌∷◌, ◌≡◌, ◌≢◌}
use cs537_sp23_operating_sys.Server.{
  Served, search, handle, put, Feedback, Server, blank, ended, execute, serve,
}
use cs537_sp23_operating_sys.Server.Table.{find, Packed}
use cs537_sp23_operating_sys.Server.Retry.{Others, here, next, served}
use cs537_sp23_operating_sys.Client.{
  Rpc, Fate, Turn, rpc_init, lost_reply, delivered, rpc_put, converse, send_req_with_retry,
}
use cs537_sp23_operating_sys.Client.Rounds.{Ended, send_req_with_retry-Ended}
use cs537_sp23_operating_sys.Client.Exchange.{IsForeign, repeats, converse-once}

abbrev rpc : Rpc
rpc = record { client_id = 7; seq_number = 0 }

abbrev reply : Feedback
reply = record { client_id = 7; seq_number = 0; ack = 0; return_val = 3 }

abbrev rounds : List (Option Feedback)
rounds = none ∷ none ∷ some (record reply { client_id = 8 }) ∷ some reply ∷ none ∷ []

send_req_with_retry-Ended_example : Ended (send_req_with_retry rpc rounds)
send_req_with_retry-Ended_example =
    send_req_with_retry-Ended rpc rounds (omega arith)
      (tt, (tt, ((λ e. refl), ((λ e. refl), (tt, tt)))))

-- One unused entry and one value.
abbrev small : Server
small = record { table = blank ∷ []; datastore = 5 ∷ [] }

-- What the server does for client 8, which puts 4 at 0.
abbrev served_other : Server → Server
served_other s = elim (serve (rpc_put (rpc_init 8) 0 4) s) [ none ↦ s | some (t, r, thread) ↦ t ]

abbrev losses : List Turn
losses = (lost_reply, served_other) ∷ (delivered, served_other) ∷ []

small-Packed : Packed (blank ∷ [])
small-Packed = ((λ e. (refl, tt)), tt)

abbrev put_done : Server
put_done = record {
  table = record { client_id = 7; seq_num = 0; done = 1; result = 0 } ∷ [];
  datastore = 9 ∷ [];
}

first_served : serve (rpc_put rpc 0 9) small ≡ some (put_done, none, ended)
unfolding serve search handle execute put
first_served = refl

serves : serve (rpc_put rpc 0 9) small ≢ none
serves e = cc (first_served, e)

unknown : find (blank ∷ []) 7 ≡ none
unfolding find
unknown = refl

puts : execute (rpc_put rpc 0 9) (5 ∷ []) ≡ some (0, 9 ∷ [])
unfolding execute put
puts = refl

served_other-IsForeign : (fate : Fate) → IsForeign 7 (fate, served_other)
served_other-IsForeign fate s = go (serve (rpc_put (rpc_init 8) 0 4) s) refl
  where
    go :
        (o : Option Served)
        → serve (rpc_put (rpc_init 8) 0 4) s ≡ o
        → Others 7 s (elim o [ none ↦ s | some (t, r, thread) ↦ t ])
    go none e = here
    go (some (t, r, thread)) e =
        next here (served (rpc_put (rpc_init 8) 0 4) r thread (omega arith) (omega arith) e)

converse-once_example :
    (s1 : Server) × (serve (rpc_put rpc 0 9) small ≡ some (s1, none, ended))
    × (s1.datastore ≡ 9 ∷ [])
    × (converse 1 rpc (rpc_put rpc 0 9) ((lost_reply, served_other) ∷ losses) small
        ≡ some (repeats 2 rpc 0 losses (served_other s1)))
converse-once_example =
    converse-once rpc (rpc_put rpc 0 9) small 0 (9 ∷ []) 1 lost_reply served_other losses refl refl
      (omega arith) small-Packed serves (ground (arith, unknown)) (omega arith) puts (omega arith)
      (λ e. cc)
      (
        served_other-IsForeign lost_reply,
        (served_other-IsForeign lost_reply, (served_other-IsForeign delivered, tt)),
      )
