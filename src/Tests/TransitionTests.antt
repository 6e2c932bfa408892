-- ===== src/Tests/TransitionTests.antt =====
-- The methods of `BridgeStorage` on a small database.
use codex_feishu.Prelude.{
  ◌≤◌, ◌≡◌, ◌↔◌, refl, true, none, some, List, [], ◌∷◌, put, inl, inr, put_cases, subst,
}
use codex_feishu.Models.{OwnershipState, DispatchState, TurnState, DeliveryState, ApprovalState}
use codex_feishu.Transitions.{Bridge, Turn, Approval, allowed_outbox, allowed_delivery}
use codex_feishu.Transitions.History.{Call, run, turn_state, delivery, dispatch, approval_state}
use codex_feishu.Transitions.Lifecycle.{
  delivery_text, turn_state_of, delivery_state_of, progress, run-final_turn, run-final_delivery,
  run-dispatch_progress, allowed_outbox-allowed_delivery,
}
use codex_feishu.Transitions.Responses.{AllSealed, IsSealed, run-AllSealed, run-response_hash}

abbrev turn : Turn
turn = record {
  thread_id = "task";
  turn_state = TurnState.completed;
  delivery_state = DeliveryState.confirmed;
}

abbrev sending : Approval
sending = record {
  state = ApprovalState.response_sending;
  request_hash = "request";
  response_hash = some "response";
}

abbrev bridge : Bridge
bridge = record {
  thread_bindings = put "task" OwnershipState.bridge_idle (λ _. none);
  turns = put "turn" turn (λ _. none);
  dispatch_attempts = put "attempt" DispatchState.outcome_unknown (λ _. none);
  approval_requests = put "approval" sending (λ _. none);
  outbox = λ _. none;
}

abbrev calls : List Call
calls =
    turn_state "turn" TurnState.completed TurnState.running
    ∷ delivery "turn" DeliveryState.unknown DeliveryState.confirmed
    ∷ dispatch "attempt" DispatchState.outcome_unknown DispatchState.completed
    ∷ approval_state "approval" ApprovalState.response_sending ApprovalState.resolved none
    ∷ []

run-final_turn_example : turn_state_of (run bridge calls) "turn" ≡ some TurnState.completed
run-final_turn_example = run-final_turn bridge calls "turn" TurnState.completed refl refl

run-final_delivery_example :
    delivery_state_of (run bridge calls) "turn" ≡ some DeliveryState.confirmed
run-final_delivery_example =
    run-final_delivery bridge calls "turn" DeliveryState.confirmed refl refl

run-dispatch_progress_example :
    (t : DispatchState) × ((run bridge calls).dispatch_attempts "attempt" ≡ some t)
    × (progress DispatchState.outcome_unknown ≤ progress t)
run-dispatch_progress_example =
    run-dispatch_progress bridge calls "attempt" DispatchState.outcome_unknown refl

allowed_outbox_example : (allowed_outbox "unknown" "confirmed" ≡ true) ↔ (
    (a : DeliveryState) × (b : DeliveryState) × ("unknown" ≡ delivery_text a)
    × ("confirmed" ≡ delivery_text b)
    × (allowed_delivery a b ≡ true))
allowed_outbox_example = allowed_outbox-allowed_delivery "unknown" "confirmed"

bridge-AllSealed : AllSealed bridge
bridge-AllSealed p a e = elim (put_cases "approval" p sending a (λ _. none) e) [
  | inl (_, same) ↦ subst IsSealed same (record { present = λ _. refl; absent = λ h. cc })
  | inr (_, h) ↦ cc
]

run-AllSealed_example : AllSealed (run bridge calls)
run-AllSealed_example = run-AllSealed bridge calls bridge-AllSealed

run-response_hash_example :
    (b : Approval) × ((run bridge calls).approval_requests "approval" ≡ some b)
    × (b.response_hash ≡ some "response")
run-response_hash_example = run-response_hash bridge calls "approval" "response" sending refl refl
