-- ===== src/Tests/WorkerTests.antt =====
-- A run of the worker that sends a text and hears that it was delivered.
use codex_feishu.Prelude.{refl, true, false, none, some, [], put_row}
use codex_feishu.Json.{object, no_fields}
use codex_feishu.Inbound
use codex_feishu.Inbound.{SelectionState}
use codex_feishu.Outbox
use codex_feishu.Outbox.{Row, OutboxState}
use codex_feishu.Outbox.Uploads.{Serializer}
use codex_feishu.Worker.{Tools, Provider, ProviderResult, ProviderOutcome, Db}
use codex_feishu.Worker.Outcome.{RunOutcome, run_once-RunOutcome}

abbrev serializer : Serializer
serializer = record {
  sha256 = λ t. t;
  dump_image_body = λ t. t;
  dump_file_body = λ t. t;
  dump_file_key = λ t. t;
}

abbrev tools : Tools
tools = record {
  serializer = serializer;
  loads = λ _. some (object no_fields);
  dumps = λ _. "{}";
  int = λ _. none;
  str = λ _. "1";
  stable_uuid = λ s _ _. s;
  invisible_marker = λ s. s;
  owner_display_name = "owner";
  instance_id = "worker";
  clock = record { now = 5; lease_until = 35; after = λ d. d };
}

abbrev delivered_result : ProviderResult
delivered_result = record {
  outcome = ProviderOutcome.confirmed;
  code = "ok";
  message_id = some "message";
  thread_id = none;
  image_key = none;
  file_key = none;
  retry_after_seconds = none;
}

abbrev provider : Provider
provider = record {
  upload_image = λ _. none;
  upload_file = λ _. none;
  call = λ _. some delivered_result;
  user_message_sender = none;
}

abbrev status : Row
status = record {
  logical_message_id = "status";
  thread_id = some "task";
  turn_id = none;
  item_id = none;
  operation = "status";
  message_type = "text";
  endpoint_name = "send_message";
  target_message_id = none;
  reply_in_thread = false;
  stable_uuid = "uuid";
  marker = "marker";
  body_json = "{}";
  body_hash = "hash";
  priority = 10;
  state = OutboxState.pending;
  attempt_count = 0;
  next_attempt_at = 0;
  lease_owner = none;
  lease_expires_at = none;
  provider_message_id = none;
  first_attempt_at = none;
  last_error_code = none;
  created_at = 0;
}

abbrev outbox : Outbox.Db
outbox = record {
  sink_mode = some "outbound";
  rows = put_row 1 status (λ _. none);
  next_id = 2;
  images = λ _. none;
  files = λ _. none;
  rich_images = λ _. [];
  task_bindings = λ _. some (record {
    chat_id = some "chat";
    anchor_title_hash = none;
    anchor_marker = none;
    pending_title_hash = none;
    blocked_title_hash = none;
    title_sync_error = none;
  });
}

abbrev selection : Inbound.Db
selection = record {
  ingress_messages = [];
  ingress_payloads = [];
  ingress_attachments = [];
  sequence = none;
  message_ancestry = [];
  task_bindings = λ _. none;
  project_groups = [];
  identity = none;
  provider_outbox = [];
  selection_confirmations = [];
  circuit_breakers = λ _. none;
}

abbrev start : Db
start = record {
  outbox = outbox;
  task_columns = λ _. some (record {
    conversation_mode = "p2p";
    provider_thread_id = none;
    opted_in = true;
    anchor_state = "confirmed";
    anchor_message_id = none;
  });
  owner = none;
  message_ancestry = [];
  dead_letters = [];
  circuit_breakers = λ _. none;
  transient_messages = [];
  approval_actions = [];
  selection = selection;
  user_cli_last_fallback = none;
}

run_once-RunOutcome_example : RunOutcome tools provider start
run_once-RunOutcome_example = run_once-RunOutcome tools provider start ("outbound", refl, refl)
