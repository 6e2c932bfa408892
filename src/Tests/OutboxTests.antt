-- ===== src/Tests/OutboxTests.antt =====
-- The outbox with two messages of one turn.
use codex_feishu.Prelude.{
  ℕ, String, ◌≡◌, refl, true, none, some, List, [], ◌∷◌, put, put_row, arith,
}
use codex_feishu.Outbox.{
  OutboxState, Row, Attachment, TitleBinding, Db, is_closed, exists_below, is_waiting, is_leased,
}
use codex_feishu.Outbox.Queue.{
  Message, new_row, lease_outbox, leased_row, best_ready, consider, prefer, is_ready, is_blocked,
  expire, is_overdue, enqueue_provider_message, ensure_writable_sink, is_queued, is_message_type,
  take_lease,
}
use codex_feishu.Outbox.Uploads.{Serializer}
use codex_feishu.Outbox.Steps.{Step, step, run, enqueue, lease}
use codex_feishu.Outbox.Lease.{LeasesFirst, lease_outbox-LeasesFirst}
use codex_feishu.Outbox.Order.{InOrderDb, run-InOrder}
use codex_feishu.Outbox.Closed.{run-closed}

abbrev message : String → ℕ → Message
message id priority = record {
  logical_message_id = id;
  operation = "final";
  message_type = "text";
  endpoint_name = "reply_message";
  stable_uuid = id;
  marker = id;
  body_json = "{}";
  body_hash = "hash";
  priority = priority;
  thread_id = some "task";
  turn_id = some "turn";
  item_id = some "item";
  target_message_id = some "root";
  reply_in_thread = true;
}

abbrev empty : Db
empty = record {
  sink_mode = some "outbound";
  rows = λ _. none;
  next_id = 1;
  images = λ _. none;
  files = λ _. none;
  rich_images = λ _. [];
  task_bindings = λ _. none;
}

abbrev serializer : Serializer
serializer = record {
  sha256 = λ t. t;
  dump_image_body = λ t. t;
  dump_file_body = λ t. t;
  dump_file_key = λ t. t;
}

abbrev history : List Step
history =
    enqueue (message "first" 10) 0 ∷ enqueue (message "second" 90) 0 ∷ lease "worker" 30 5 ∷ []

-- The older message is leased first, though the newer one has the higher priority.
leased_first :
    (r : Row) × ((run serializer empty history).rows 1 ≡ some r) × (r.lease_owner ≡ some "worker")
unfolding run step enqueue_provider_message ensure_writable_sink is_queued is_message_type
    exists_below lease_outbox best_ready consider prefer is_ready is_blocked is_waiting is_closed
    expire is_overdue is_leased new_row leased_row take_lease
leased_first = (leased_row "worker" 30 5 (new_row (message "first" 10) 0), refl, refl)

empty-InOrder : InOrderDb empty
empty-InOrder = record { fresh = λ i h. refl; ordered = λ i j a b lt e f s n. cc }

abbrev queued : Db
queued = run serializer empty (enqueue (message "first" 10) 0 ∷ [])

lease_outbox_example : LeasesFirst "worker" 30 5 queued (lease_outbox "worker" 30 5 queued)
unfolding run step enqueue_provider_message ensure_writable_sink is_queued is_message_type
    exists_below
lease_outbox_example = lease_outbox-LeasesFirst "worker" 30 5 queued ("outbound", refl, refl)

run-InOrder_example : InOrderDb (run serializer empty history)
run-InOrder_example = run-InOrder serializer empty history empty-InOrder

abbrev sent : Row
sent = record {
  logical_message_id = "sent";
  thread_id = some "task";
  turn_id = some "turn";
  item_id = some "item";
  operation = "final";
  message_type = "text";
  endpoint_name = "reply_message";
  target_message_id = some "root";
  reply_in_thread = true;
  stable_uuid = "uuid";
  marker = "marker";
  body_json = "{}";
  body_hash = "hash";
  priority = 10;
  state = OutboxState.confirmed;
  attempt_count = 1;
  next_attempt_at = 0;
  lease_owner = none;
  lease_expires_at = none;
  provider_message_id = some "provider";
  first_attempt_at = some 0;
  last_error_code = none;
  created_at = 0;
}

abbrev one_sent : Db
one_sent = record empty { rows = put_row 1 sent (λ _. none); next_id = 2 }

one_sent-InOrder : InOrderDb one_sent
one_sent-InOrder = record {
  fresh = λ i h. ground arith;
  ordered = λ i j a b lt e f s n. ground (arith);
}

run-closed_example : (run serializer one_sent (lease "worker" 30 5 ∷ [])).rows 1 ≡ some sent
unfolding is_closed
run-closed_example =
    run-closed serializer one_sent (lease "worker" 30 5 ∷ []) 1 sent one_sent-InOrder refl refl

-- The second message, held by a worker.
abbrev held : Row
held = record sent {
  state = OutboxState.leased;
  operation = "anchor_title";
  message_type = "image";
  lease_owner = some "worker";
  lease_expires_at = some 30;
}

abbrev picture : Attachment
picture = record {
  source_path = "a.png";
  file_name = "a.png";
  mime_type = "image/png";
  provider_file_type = none;
  content = 1 ∷ [];
  content_hash = "hash";
  key = none;
  upload_attempt_count = 0;
}

abbrev title : TitleBinding
title = record {
  chat_id = some "chat";
  anchor_title_hash = none;
  anchor_marker = none;
  pending_title_hash = some "item";
  blocked_title_hash = none;
  title_sync_error = none;
}

abbrev one_held : Db
one_held = record empty {
  rows = put_row 1 held (λ _. none);
  next_id = 2;
  images = put_row 1 picture (λ _. none);
  task_bindings = put "task" title (λ _. none);
}
