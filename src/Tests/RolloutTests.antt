-- ===== src/Tests/RolloutTests.antt =====
-- One rollout file, read in two batches.
use codex_feishu.Prelude.{ℕ, String, ◌≡◌, refl, none, some, [], ◌∷◌}
use codex_feishu.Exec.{ok, err, cursor_backwards}
use codex_feishu.Models.{EventKind}
use codex_feishu.Rollout.{
  NormalizedEvent, SourceCursor, RolloutBatch, Digests, Db, insert_item, insert_or_compare,
  store_event, store_events, cursor_refusal, has_record_hash, set_cursor, cursor_for, store_batch,
  store_rollout_batch,
}
use codex_feishu.Rollout.Outcome.{BatchOutcome, store_rollout_batch-BatchOutcome}
use codex_feishu.Rollout.Progress.{Advanced, store_all, store_all-Advanced}
use codex_feishu.Rollout.Replay.{store_rollout_batch-replay}

-- The item's identifier is its key, and the text is its own hash.
abbrev digests : Digests
digests = record { of_identity = λ _ _ item_id _ _. item_id; of_content = λ text _. text }

abbrev event : String → NormalizedEvent
event item_id = record {
  thread_id = "task";
  turn_id = "turn";
  item_id = item_id;
  kind = EventKind.final_answer;
  revision = 0;
  text = "done";
  source_type = "rollout";
  images = [];
}

abbrev cursor : ℕ → SourceCursor
cursor offset = record {
  source_path = "file";
  file_id = "1";
  committed_offset = offset;
  last_record_hash = some "h";
  schema_version = "1";
}

abbrev batch : ℕ → RolloutBatch
batch offset = record { events = event "a" ∷ event "b" ∷ []; cursor = cursor offset }

abbrev empty : Db
empty = record { items = λ _. none; source_cursors = λ _. none }

two_items_are_stored : (store_rollout_batch digests (batch 40) empty).0 ≡ ok 2
unfolding store_rollout_batch store_batch store_events store_event insert_or_compare insert_item
    cursor_refusal has_record_hash cursor_for set_cursor
two_items_are_stored = refl

earlier_cursor_is_refused :
    (store_rollout_batch digests (batch 20) (store_rollout_batch digests (batch 40) empty).1).0
    ≡ err cursor_backwards
unfolding store_rollout_batch store_batch store_events store_event insert_or_compare insert_item
    cursor_refusal has_record_hash cursor_for set_cursor
earlier_cursor_is_refused = refl

store_rollout_batch_example :
    BatchOutcome digests (batch 40) empty (store_rollout_batch digests (batch 40) empty)
store_rollout_batch_example = store_rollout_batch-BatchOutcome digests (batch 40) empty

store_all_example : Advanced empty (store_all digests empty (batch 40 ∷ batch 20 ∷ batch 60 ∷ []))
store_all_example = store_all-Advanced digests empty (batch 40 ∷ batch 20 ∷ batch 60 ∷ [])

replay_example :
    store_rollout_batch digests (batch 40) (store_rollout_batch digests (batch 40) empty).1
    ≡ (ok 0, (store_rollout_batch digests (batch 40) empty).1)
replay_example = store_rollout_batch-replay digests (batch 40) empty 2 two_items_are_stored
