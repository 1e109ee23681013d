-- ===== src/Client/Exchange.antt =====
-- Client and server together over a network that loses packets, with other clients in between.
use cs537_sp23_operating_sys.Common.{
  ℕ, List, All, Bool-cases, [], inl, inr, ap, eq→==, false, if◌then◌else◌, minus_one, ne→==, none,
  rank, refl, some, true, ◌%◌, ◌+◌, ◌<◌, ◌==◌, ◌^◌, ◌∙◌, ◌∷◌, ◌≡◌, ◌≢◌,
}
use cs537_sp23_operating_sys.Server.{Request, Feedback, Server, ended, execute, serve}
use cs537_sp23_operating_sys.Server.Table.{find, Packed}
use cs537_sp23_operating_sys.Server.Retry.{stored_seq, retry-answer, here, next, Others}
use cs537_sp23_operating_sys.Client.{
  Rpc, Sent, answered, died, waiting, Fate, lost_request, lost_reply, delivered, Turn, send_from,
  converse,
}

abbrev pub final_reply : Rpc → ℕ → Feedback
final_reply rpc v = record {
  client_id = rpc.client_id;
  seq_number = rpc.seq_number;
  ack = 0;
  return_val = v;
}

-- A call whose request is never executed again: its packets do not change the server, and the first answer
-- that gets through is `v`; without one the client dies when `retry` is 5.
pub repeats : ℕ → Rpc → ℕ → List Turn → Server → Sent × Server
repeats retry rpc v [] s = (if retry == 5 then died else waiting retry, s)
repeats retry rpc v (turn ∷ turns) s = elim (retry == 5) [
  | true ↦ (died, s)
  | false ↦ elim (turn.0) [
    | delivered ↦ (answered v (record rpc { seq_number = (rpc.seq_number + 1) % 2 ^ 32 }), s)
    | lost_reply ↦ repeats (retry + 1) rpc v turns (turn.1 s)
    | lost_request ↦ repeats (retry + 1) rpc v turns (turn.1 s)
  ]
]

-- Until the next packet the server works only for clients other than `id`.
abbrev pub IsForeign : ℕ → Turn → Type 0
IsForeign id turn = (s : Server) → Others id s (turn.1 s)

Others-trans : {id : ℕ} {a b c : Server} → Others id a b → Others id b c → Others id a c
Others-trans first here = first
Others-trans first (next steps step) = next (Others-trans first steps) step

send_from_end :
    (retry : ℕ) (rpc : Rpc) → send_from retry rpc [] ≡ (if retry == 5 then died else waiting retry)
unfolding send_from
send_from_end retry rpc = refl

module _ (rpc : Rpc) (req : Request) (v : ℕ) (s1 : Server)
    (again : (s2 : Server)
      → Others req.client_id s1 s2
      → serve req s2 ≡ some (s2, some (final_reply rpc v), ended)) where
  converse-repeats :
      (turns : List Turn) (retry : ℕ) (s : Server)
      → Others req.client_id s1 s
      → All (IsForeign req.client_id) turns
      → converse retry rpc req turns s ≡ some (repeats retry rpc v turns s)
  unfolding converse repeats
  converse-repeats [] retry s since foreign = ap (λ x. some (x, s)) (send_from_end retry rpc)
  converse-repeats ((lost_request, others) ∷ turns) retry s since (now, foreign) =
      elim (Bool-cases (retry == 5)) [
        | inl last ↦ rw (last, converse, repeats) refl
        | inr more ↦
            rw (more, converse, repeats)
              (converse-repeats turns (retry + 1) (others s) (Others-trans since (now s)) foreign)
      ]
  converse-repeats ((lost_reply, others) ∷ turns) retry s since (now, foreign) =
      elim (Bool-cases (retry == 5)) [
        | inl last ↦ rw (last, converse, repeats) refl
        | inr more ↦
            let answer = again s since in
            rw (more, answer, converse, repeats)
              (converse-repeats turns (retry + 1) (others s) (Others-trans since (now s)) foreign)
      ]
  converse-repeats ((delivered, others) ∷ turns) retry s since (now, foreign) =
      elim (Bool-cases (retry == 5)) [
        | inl last ↦ rw (last, converse, repeats) refl
        | inr more ↦
            let answer = again s since in
            let id_mine = eq→== rpc.client_id rpc.client_id refl in
            let seq_mine = eq→== rpc.seq_number rpc.seq_number refl in
            rw (more, answer, id_mine, seq_mine, converse, repeats) refl
      ]

  -- The round whose packet is the first to arrive.
  converse-first :
      (s : Server) (retry : ℕ) (fate : Fate) (others : Server → Server) (turns : List Turn)
      → serve req s ≡ some (s1, none, ended)
      → retry ≢ 5
      → fate ≢ lost_request
      → All (IsForeign req.client_id) ((fate, others) ∷ turns)
      → converse retry rpc req ((fate, others) ∷ turns) s
        ≡ some (repeats (retry + 1) rpc v turns (others s1))
  unfolding converse
  converse-first s retry lost_request others turns first early arrives (now, foreign) =
      absurd (arrives refl)
  converse-first s retry lost_reply others turns first early arrives (now, foreign) =
      let more : (retry == 5) ≡ false = ne→== retry 5 early in
      rw (more, first, converse) (converse-repeats turns (retry + 1) (others s1) (now s1) foreign)
  converse-first s retry delivered others turns first early arrives (now, foreign) =
      let more : (retry == 5) ≡ false = ne→== retry 5 early in
      rw (more, first, converse) (converse-repeats turns (retry + 1) (others s1) (now s1) foreign)

-- A `get` or `put` of a client other than -1 that is newer than the client's entry in a packed table, finds
-- a place there and stays inside the data, and whose packet arrives in a round before the client gives up,
-- is executed in that round and gets no answer. From then on, whatever packets and replies are lost and
-- whatever the server does for other clients between the rounds, the server executes it no more: it never
-- fails, repetitions of the packet leave it as it is, and the call returns `v`, the result of the one
-- execution, with the first reply that gets through before the client gives up, with the number of the next
-- request.
pub converse-once :
    (rpc : Rpc) (req : Request) (s : Server) (v : ℕ) (store : List ℕ) (retry : ℕ) (fate : Fate)
    (others : Server → Server) (turns : List Turn)
    → req.client_id ≡ rpc.client_id
    → req.seq_number ≡ rpc.seq_number
    → req.client_id ≢ minus_one
    → Packed s.table
    → serve req s ≢ none
    → rank (stored_seq (find s.table req.client_id)) < rank req.seq_number
    → req.opcode ≢ 0
    → execute req s.datastore ≡ some (v, store)
    → retry ≢ 5
    → fate ≢ lost_request
    → All (IsForeign req.client_id) ((fate, others) ∷ turns)
    → (s1 : Server) × (serve req s ≡ some (s1, none, ended))
      × (s1.datastore ≡ store)
      × (converse retry rpc req ((fate, others) ∷ turns) s
          ≡ some (repeats (retry + 1) rpc v turns (others s1)))
converse-once rpc req s v store retry fate others turns id seq h p works new op run early arrives
      foreign =
    let (s1, first, stored, again) = retry-answer req s v store h p works new op run in
    let repeated : (s2 : Server)
        → Others req.client_id s1 s2
        → serve req s2 ≡ some (s2, some (final_reply rpc v), ended) =
      λ s2 steps. again s2 steps ∙ rw (id, seq) refl in
    (
      s1,
      first,
      stored,
      converse-first rpc req v s1 repeated s retry fate others turns first early arrives foreign,
    )
