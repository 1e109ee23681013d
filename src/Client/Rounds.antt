-- ===== src/Client/Rounds.antt =====
-- The loop of `send_req_with_retry` against any sequence of replies.
use cs537_sp23_operating_sys.Common.{
  ℕ, List, Option, All, Bool-cases, [], arith, inl, inr, length, none, some, true, ◌+◌, ◌==◌, ◌∷◌,
  ◌≡◌, ◌≤◌,
}
use cs537_sp23_operating_sys.Server.{Feedback}
use cs537_sp23_operating_sys.Client.{
  Rpc, Sent, answered, died, waiting, is_mine, send_from, send_req_with_retry,
}

-- No acknowledgement of the client's own request.
abbrev pub NoAck : Rpc → Option Feedback → Type 0
NoAck rpc none = Unit
NoAck rpc (some fb) = (is_mine rpc fb ≡ true) → fb.ack ≡ 0

abbrev pub Ended : Sent → Type 0
Ended (answered v rpc') = Unit
Ended died = Unit
Ended (waiting n) = ⊥

Ended-send_from :
    (retry : ℕ) (rpc : Rpc) (replies : List (Option Feedback))
    → retry ≤ 5
    → 5 ≤ retry + length replies
    → All (NoAck rpc) replies
    → Ended (send_from retry rpc replies)
unfolding send_from
Ended-send_from retry rpc [] low enough quiet =
    let e : (retry == 5) ≡ true = ground arith in rw e tt
Ended-send_from retry rpc (none ∷ replies) low enough (q, quiet) = elim (Bool-cases (retry == 5)) [
  | inl last ↦ rw (last, send_from) tt
  | inr more ↦
      rw (more, send_from)
        (Ended-send_from (retry + 1) rpc replies (ground arith) (omega arith) quiet)
]
Ended-send_from retry rpc (some fb ∷ replies) low enough (q, quiet) =
    elim (Bool-cases (retry == 5)) [
      | inl last ↦ rw (last, send_from) tt
      | inr more ↦ elim (Bool-cases (is_mine rpc fb)) [
        | inl mine ↦
            let final : (fb.ack == 0) ≡ true = ground (arith, q mine) in
            rw (more, mine, final, send_from) tt
        | inr other ↦
            rw (more, other, send_from)
              (Ended-send_from (retry + 1) rpc replies (ground arith) (omega arith) quiet)
      ]
    ]

-- After five rounds without an acknowledgement of its request `send_req_with_retry` has come to an end: it
-- has returned, or the client has died.
pub send_req_with_retry-Ended :
    (rpc : Rpc) (replies : List (Option Feedback))
    → 5 ≤ length replies
    → All (NoAck rpc) replies
    → Ended (send_req_with_retry rpc replies)
send_req_with_retry-Ended rpc replies enough quiet =
    Ended-send_from 0 rpc replies (omega arith) (omega arith) quiet
