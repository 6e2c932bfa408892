-- ===== src/Transitions/History.antt =====
-- Any sequence of calls of the methods in `Transitions`, each of them failing or not. Every method
-- runs one statement that writes, so a call that raises has written nothing.
use codex_feishu.Prelude.{ℕ, String, Option, List, [], ◌∷◌}
use codex_feishu.Exec.{Result, Done}
use codex_feishu.Models.{OwnershipState, DispatchState, TurnState, DeliveryState, ApprovalState}
use codex_feishu.Transitions.{
  Bridge, create_thread, transition_ownership, create_turn, transition_turn, transition_delivery,
  create_dispatch_attempt, transition_dispatch, create_approval, transition_approval,
  transition_outbox,
}

pub data Call : Type 0 where
  thread : String → OwnershipState → Call
  ownership : String → OwnershipState → OwnershipState → Call
  turn : String → String → Call
  turn_state : String → TurnState → TurnState → Call
  delivery : String → DeliveryState → DeliveryState → Call
  attempt : String → Call
  dispatch : String → DispatchState → DispatchState → Call
  approval : String → String → Call
  approval_state : String → ApprovalState → ApprovalState → Option String → Call
  outbox : ℕ → String → String → Call

unfoldable pub call : Call → Bridge → Result Done × Bridge
call (thread t o) = create_thread t o
call (ownership t a b) = transition_ownership t a b
call (turn u t) = create_turn u t
call (turn_state u a b) = transition_turn u a b
call (delivery u a b) = transition_delivery u a b
call (attempt d) = create_dispatch_attempt d
call (dispatch d a b) = transition_dispatch d a b
call (approval p h) = create_approval p h
call (approval_state p a b h) = transition_approval p a b h
call (outbox n a b) = transition_outbox n a b

unfoldable pub run : Bridge → List Call → Bridge
run db [] = db
run db (c ∷ cs) = run (call c db).1 cs

-- What every call keeps, every history keeps.
module _ {ℓ} (P : Bridge → Type ℓ) (kept : (c : Call) (db : Bridge) → P db → P (call c db).1) where
  pub run_induction : (db : Bridge) (cs : List Call) → P db → P (run db cs)
  unfolding run
  run_induction db [] h = h
  run_induction db (c ∷ cs) h = run_induction (call c db).1 cs (kept c db h)
