-- ===== src/Tests/ReceiptTests.antt =====
-- The receipt of one message, queued twice.
use codex_feishu.Prelude.{ℕ, ◌≡◌, refl, false, none, some, Option, [], ◌==◌, ltb}
use codex_feishu.Exec.{Result, ok}
use codex_feishu.Outbox.{Db, exists_below}
use codex_feishu.Outbox.Queue.{
  new_row, is_queued, enqueue_provider_message, ensure_writable_sink, is_message_type,
}
use codex_feishu.Inbound.{Binding}
use codex_feishu.Inbound.Selection.{Writer, first_chars, stable_uuid}
use codex_feishu.Receipts.{is_status, enqueue_once, queue_ingress_status}
use codex_feishu.Receipts.Once.{queue_ingress_status-once}

abbrev writer : Writer
writer = record {
  tools = record {
    sha256 = λ s. s;
    raw_hash = λ _. none;
    loads = λ _. none;
    dump_text = λ s. s;
    unicode = record { nfc = λ s. s; is_control = λ c. ltb c 32; is_space = λ c. c == 32 };
  };
  str = λ _. "1";
  uuid5 = λ s. s;
}

abbrev chat : Binding
chat = record {
  tenant_key = "t";
  app_id = "a";
  target_chat_type = "p2p";
  target_chat_id = "chat";
  is_topic_group = false;
}

abbrev empty : Db
empty = record {
  sink_mode = some "live";
  rows = λ _. none;
  next_id = 1;
  images = λ _. none;
  files = λ _. none;
  rich_images = λ _. [];
  task_bindings = λ _. none;
}

abbrev first : Result (Option ℕ) × Db
first = queue_ingress_status writer chat (λ _. none) "m1" none "pending" "later" 5 9 empty

queue_ingress_status-once_example :
    queue_ingress_status writer chat (λ _. none) "m1" (some "task") "pending" "again" 5 10 first.1
    ≡ (ok none, first.1)
unfolding queue_ingress_status is_status enqueue_once enqueue_provider_message ensure_writable_sink
    is_message_type is_queued exists_below new_row first_chars stable_uuid
queue_ingress_status-once_example =
    queue_ingress_status-once writer chat (λ _. none) "m1" none "pending" "later" 5 9 empty first.1
      1 writer chat (λ _. none) (some "task") "again" 5 10 refl
