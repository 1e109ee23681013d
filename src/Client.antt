-- ===== src/Client.antt =====
-- The client of the request server: P8_Distributed_Systems/client.c. What the network does in each round
-- of the loop is an argument; time, sockets and the random client id are not modelled.
pub mod Rounds
pub mod Exchange
mod Tests
use cs537_sp23_operating_sys.Common.{
  ℕ, Bool, List, Option, [], false, if◌then◌else◌, minus_one, none, some, true, ◌%◌, ◌&&◌, ◌+◌,
  ◌==◌, ◌^◌, ◌∷◌,
}
use cs537_sp23_operating_sys.Server.{Request, Feedback, Server, serve}

-- `struct rpc_connection`, without its sockets.
pub record Rpc : Type 0 where
  pub client_id : ℕ
  pub seq_number : ℕ

-- `RPC_init` with the number that `rand` gives.
abbrev pub rpc_init : ℕ → Rpc
rpc_init random = record { client_id = random; seq_number = 0 }

-- What the loop comes to: the return value with the connection, the end of the client, or a further round.
pub data Sent : Type 0 where
  answered : ℕ → Rpc → Sent
  died : Sent
  waiting : ℕ → Sent

abbrev pub is_mine : Rpc → Feedback → Bool
is_mine rpc fb = (rpc.client_id == fb.client_id) && (rpc.seq_number == fb.seq_number)

-- A round of `send_req_with_retry` behind its test of `retry`: a reply came, or none in time.
abbrev pub receive : ℕ → Rpc → Option Feedback → Sent
receive retry rpc none = waiting (retry + 1)
receive retry rpc (some fb) =
    if is_mine rpc fb
    then if fb.ack == 0
      then answered fb.return_val (record rpc { seq_number = (rpc.seq_number + 1) % 2 ^ 32 })
      else waiting 0
    else waiting (retry + 1)

-- `send_req_with_retry` from a round on, by the replies of the rounds: the client dies when `retry` is 5.
pub send_from : ℕ → Rpc → List (Option Feedback) → Sent
send_from retry rpc [] = if retry == 5 then died else waiting retry
send_from retry rpc (reply ∷ replies) = elim (retry == 5) [
  | true ↦ died
  | false ↦ elim (receive retry rpc reply) [
    | answered v rpc' ↦ answered v rpc'
    | died ↦ died
    | waiting n ↦ send_from n rpc replies
  ]
]

abbrev pub send_req_with_retry : Rpc → List (Option Feedback) → Sent
send_req_with_retry rpc replies = send_from 0 rpc replies

-- The requests of RPC_idle, RPC_get and RPC_put.
abbrev pub rpc_idle : Rpc → ℕ → Request
rpc_idle rpc time = record {
  opcode = 0;
  client_id = rpc.client_id;
  seq_number = rpc.seq_number;
  time = time;
  key = minus_one;
  value = minus_one;
}

abbrev pub rpc_get : Rpc → ℕ → Request
rpc_get rpc key = record {
  opcode = 1;
  client_id = rpc.client_id;
  seq_number = rpc.seq_number;
  time = minus_one;
  key = key;
  value = minus_one;
}

abbrev pub rpc_put : Rpc → ℕ → ℕ → Request
rpc_put rpc key value = record {
  opcode = 2;
  client_id = rpc.client_id;
  seq_number = rpc.seq_number;
  time = minus_one;
  key = key;
  value = value;
}

-- What happens to a packet and to the reply to it.
pub data Fate : Type 0 where
  lost_request lost_reply delivered : Fate

abbrev pub is_lost : Fate → Bool
is_lost lost_request = true
is_lost _ = false

abbrev pub got_through : Fate → Option Feedback → Option Feedback
got_through delivered r = r
got_through lost_reply r = none
got_through lost_request r = none

-- A round of the loop: the fate of its packet, and what the server does for other clients until the next one.
abbrev pub Turn : Type 0
Turn = Fate × (Server → Server)

-- The loop against the server: what it comes to and the server, or none where the server steps outside an
-- array.
pub converse : ℕ → Rpc → Request → List Turn → Server → Option (Sent × Server)
converse retry rpc req [] s = some (send_from retry rpc [], s)
converse retry rpc req (turn ∷ turns) s = elim (retry == 5) [
  | true ↦ some (died, s)
  | false ↦ elim (is_lost turn.0) [
    | true ↦ converse (retry + 1) rpc req turns (turn.1 s)
    | false ↦ elim (serve req s) [
      | none ↦ none
      | some (s1, reply, thread) ↦ elim (receive retry rpc (got_through turn.0 reply)) [
        | answered v rpc' ↦ some (answered v rpc', s1)
        | died ↦ some (died, s1)
        | waiting n ↦ converse n rpc req turns (turn.1 s1)
      ]
    ]
  ]
]
