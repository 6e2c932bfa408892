-- ===== src/Tests/ReconciliationTests.antt =====
-- A message of unknown outcome, and a provider whose history has two pages with one match.
use codex_feishu.Prelude.{
  String, ◌≡◌, refl, true, false, none, some, [], put_row, arith, str_eq, if◌then◌else◌, ◌==◌,
}
use codex_feishu.Exec.{Result, ok}
use codex_feishu.Json.{
  Json, Fields, text, boolean, array, object, no_items, item, no_fields, field, lookup,
}
use codex_feishu.Outbox.{OutboxState, Row, Db}
use codex_feishu.Outbox.Queue.{confirm_match}
use codex_feishu.Reconciliation.{
  Provider, ProviderResult, Reconciled, reconcile, page_of, read_page,
}
use codex_feishu.Reconciliation.Termination.{EndsAt, is_last, reconcile-returns}

abbrev lost : Row
lost = record {
  logical_message_id = "a";
  thread_id = some "task";
  turn_id = none;
  item_id = none;
  operation = "final";
  message_type = "text";
  endpoint_name = "send_message";
  target_message_id = none;
  reply_in_thread = false;
  stable_uuid = "u";
  marker = "m";
  body_json = "{}";
  body_hash = "hello";
  priority = 1;
  state = OutboxState.unknown;
  attempt_count = 1;
  next_attempt_at = 0;
  lease_owner = none;
  lease_expires_at = none;
  provider_message_id = none;
  first_attempt_at = some 0;
  last_error_code = none;
  created_at = 0;
}

abbrev bridge : Db
bridge = record {
  sink_mode = none;
  rows = put_row 1 lost (λ _. none);
  next_id = 2;
  images = λ _. none;
  files = λ _. none;
  rich_images = λ _. [];
  task_bindings = λ k.
      if str_eq k "task"
      then some (record {
        chat_id = some "chat";
        anchor_title_hash = none;
        anchor_marker = none;
        pending_title_hash = none;
        blocked_title_hash = none;
        title_sync_error = none;
      })
      else none;
}

abbrev app : String → Json
app id = object (field "sender_type" (text "app") (field "id" (text id) no_fields))

abbrev sent : String → String → String → Json
sent id sender content = object (
    field "message_id" (text id) (
      field "sender" (app sender) (
        field "msg_type" (text "text")
          (field "body" (object (field "content" (text content) no_fields)) no_fields))))

abbrev first_page : Fields
first_page =
    field "items" (array (item (sent "x" "other" "hello") (item (sent "y" "bot" "bye") no_items)))
      (field "has_more" (boolean true) (field "page_token" (text "next") no_fields))

abbrev second_page : Fields
second_page = field "items" (array (item (sent "z" "bot" "hello") no_items)) no_fields

abbrev respond : Fields → ProviderResult
respond data_fields = record {
  is_confirmed = true;
  response = some (field "data" (object data_fields) no_fields);
}

abbrev provider : Provider
provider = record {
  endpoints = λ _. some (record { enabled = true; uuid_window_seconds = none });
  list_messages = λ _ i _. if i == 0 then respond first_page else respond second_page;
  app_id = "bot";
  is_within = λ _ _. false;
  loads = λ _. none;
  sha256 = λ s. s;
}

abbrev confirmed : Result Reconciled × Db
confirmed = (
  ok (record { state = "confirmed"; message_id = some "z"; matches = 1 }),
  confirm_match 1 "z" bridge,
)

second_page_is_last : EndsAt provider 1
unfolding is_last read_page page_of lookup
second_page_is_last chat token = refl

reconcile-returns_example :
    (y : Result Reconciled × Db) × (reconcile provider 2 1 9 bridge ≡ some y)
reconcile-returns_example =
    reconcile-returns provider 1 2 1 9 bridge second_page_is_last (omega arith)
