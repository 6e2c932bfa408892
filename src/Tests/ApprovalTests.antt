-- ===== src/Tests/ApprovalTests.antt =====
-- One approval, from its card to its answer, and an emergency stop.
use codex_feishu.Prelude.{
  ℕ, ◌+◌, String, ◌≡◌, refl, none, some, [], ◌∷◌, find, update_where, row_count,
}
use codex_feishu.Exec.{Error, ok, err, token_invalid, lost_compare_and_swap}
use codex_feishu.Models.{ApprovalState, approval_eq}
use codex_feishu.Json.{Json, Fields, pos, text, null, object, no_fields, field, lookup}
use codex_feishu.Approvals.{Context, Action, Request, ServiceState, Db}
use codex_feishu.Approvals.Broker.{
  Broker, issue, register, reuse_or_insert, insert_approval, find_existing, is_taken, record_issue,
  record_event, record_commit, positive, is_empty, commit_card_action, commit_action,
  refuse_expired, is_same_context, offered, set_consumed, set_request, commit_exact_response,
}
use codex_feishu.Approvals.Emergency.{hard_stop}
use codex_feishu.Approvals.Steps.{run, stopped, exact_response}
use codex_feishu.Approvals.SingleUse.{commit_card_action-single_use}
use codex_feishu.Approvals.Outcome.{Outcome, commit_card_action-Outcome}
use codex_feishu.Approvals.Fence.{IsFenced, IsStopped, hard_stop-fences, hard_stop-refuses}

abbrev context : Context
context = record {
  server_request_id = "7";
  server_method = "exec";
  thread_id = "task";
  turn_id = none;
  tenant_key = "tenant";
  app_id = "app";
  chat_id = "chat";
  card_message_id = "card";
  operator_open_id = "owner";
  binding_epoch = 1;
  identity_binding_epoch = 1;
  kill_generation = 0;
  server_epoch = "s";
  connection_epoch = "c";
  session_id = "session";
  service_fencing_token = 3;
}

abbrev accept : Fields
accept = field "decision" (text "accept") no_fields

abbrev decisions : Fields
decisions = field "accept" (object accept) no_fields

abbrev broker : Broker
broker = record {
  token_hash = λ t. some t;
  digest = λ _. "hash";
  canonicalize = λ _. "map";
  loads = λ _. some decisions;
  audit = none;
}

abbrev service : ServiceState
service = record { kill_generation = 0; process_state = "running" }

abbrev empty : Db
empty = record {
  approval_requests = [];
  approval_actions = [];
  audit_chain = [];
  service_state = some service;
  active_grants = "grant" ∷ [];
  remote_task_grants = [];
  circuit_breakers = λ _. none;
}

abbrev action : Action
action = record {
  token_hash = "token";
  approval_id = "approval";
  context = context;
  decision_map_json = "map";
  expires_at = 400;
  consumed_decision = none;
  consumed_at = none;
}

abbrev request : Request
request = record {
  approval_id = "approval";
  state = ApprovalState.issued;
  request_hash = "hash";
  response_hash = none;
}

abbrev one_issued : Db
one_issued = record empty { approval_requests = request ∷ []; approval_actions = action ∷ [] }

issue_inserts :
    (issue broker "approval" context null decisions (pos 300) "token" 100 "10:00" empty).1
    ≡ one_issued
unfolding issue register reuse_or_insert insert_approval find_existing is_taken record_issue
    record_event positive is_empty find
issue_inserts = refl

accepted :
    (commit_card_action broker "token" "accept" context 200 "10:01" one_issued).0
    ≡ ok ("approval", accept)
unfolding commit_card_action commit_action refuse_expired is_same_context offered lookup find
    row_count set_consumed set_request update_where record_commit record_event approval_eq
accepted = refl

single_use_example :
    commit_card_action broker "token" "accept" context 201 "10:02" (
      run broker
        (commit_card_action broker "token" "accept" context 200 "10:01" one_issued).1
        (exact_response "approval" null "10:01" ∷ stopped "stop" 201 none ∷ []))
    ≡ (
      err token_invalid,
      run broker
          (commit_card_action broker "token" "accept" context 200 "10:01" one_issued).1
          (exact_response "approval" null "10:01" ∷ stopped "stop" 201 none ∷ []),
    )
single_use_example =
    commit_card_action-single_use broker "token" "accept" "accept" context context 200 201 "10:01"
      "10:02" one_issued ("approval", accept)
      (exact_response "approval" null "10:01" ∷ stopped "stop" 201 none ∷ []) accepted

commit_card_action_example :
    Outcome broker "token" "accept" context 200 one_issued
      (commit_card_action broker "token" "accept" context 200 "10:01" one_issued)
commit_card_action_example =
    commit_card_action-Outcome broker "token" "accept" context 200 "10:01" one_issued

hard_stop_example :
    IsFenced (hard_stop "stop" 200 none one_issued).1
    × IsStopped (0 + 1) "stop" (hard_stop "stop" 200 none one_issued).1
hard_stop_example = hard_stop-fences "stop" 200 none one_issued service refl

hard_stop_refuses_example :
    ((token d : String) (c : Context) (at : ℕ) (stamp : String)
      → (e : Error) × (commit_card_action broker token d c at stamp
            (hard_stop "stop" 200 none one_issued).1
          ≡ (err e, (hard_stop "stop" 200 none one_issued).1)))
    × ((id : String) (response : Json) (stamp : String)
        → commit_exact_response broker id response stamp (hard_stop "stop" 200 none one_issued).1
          ≡ (err lost_compare_and_swap, (hard_stop "stop" 200 none one_issued).1))
hard_stop_refuses_example = hard_stop-refuses broker "stop" 200 none one_issued service refl
