-- ===== src/Outbox.antt =====
-- codex_feishu_bridge/runtime_storage.py: the tables behind the provider outbox, and the queries
-- that its methods share. `Outbox.Queue`, `Outbox.Uploads` and `Outbox.Titles` hold the methods.
-- A time is the rank of its stored text in the order in which SQLite compares texts. The columns
-- `updated_at` are not modelled: no query here reads them.
pub mod Queue
pub mod Uploads
pub mod Titles
pub mod Steps
pub mod Cases
mod Evolution
pub mod Selection
pub mod Leasing
pub mod Lease
pub mod Order
pub mod Closed
pub mod Atomicity
use codex_feishu.Prelude.{
  ℕ, zero, suc, ◌+◌, String, ◌≡◌, Bool, true, false, not, ◌&&◌, ◌||◌, Option, none, some, List, [],
  ◌∷◌, Dict, Rows, put_row, str_eq, opt_str_eq, holds_str, ltb, leb, ◌==◌, if◌then◌else◌, is_some,
}

pub data OutboxState : Type 0 where
  pending leased confirmed retryable permanent unknown : OutboxState
  delivery_indeterminate retention_policy_blocked final_undelivered : OutboxState

-- The states that `lease_outbox` lists as those of an earlier row that no longer blocks its turn.
unfoldable pub is_closed : OutboxState → Bool
is_closed OutboxState.confirmed = true
is_closed OutboxState.permanent = true
is_closed OutboxState.delivery_indeterminate = true
is_closed OutboxState.retention_policy_blocked = true
is_closed OutboxState.final_undelivered = true
is_closed _ = false

-- `state IN ('pending','retryable')`
unfoldable pub is_waiting : OutboxState → Bool
is_waiting OutboxState.pending = true
is_waiting OutboxState.retryable = true
is_waiting _ = false

unfoldable pub is_pending : OutboxState → Bool
is_pending OutboxState.pending = true
is_pending _ = false

unfoldable pub is_leased : OutboxState → Bool
is_leased OutboxState.leased = true
is_leased _ = false

unfoldable pub is_unknown : OutboxState → Bool
is_unknown OutboxState.unknown = true
is_unknown _ = false

-- A row of `provider_outbox` without its key `outbox_id`.
pub record Row : Type 0 where
  pub logical_message_id : String
  pub thread_id : Option String
  pub turn_id : Option String
  pub item_id : Option String
  pub operation : String
  pub message_type : String
  pub endpoint_name : String
  pub target_message_id : Option String
  pub reply_in_thread : Bool
  pub stable_uuid : String
  pub marker : String
  pub body_json : String
  pub body_hash : String
  pub priority : ℕ
  pub state : OutboxState
  pub attempt_count : ℕ
  pub next_attempt_at : ℕ
  pub lease_owner : Option String
  pub lease_expires_at : Option ℕ
  pub provider_message_id : Option String
  pub first_attempt_at : Option ℕ
  pub last_error_code : Option String
  pub created_at : ℕ

-- Rows of `outbound_images`, `outbound_rich_images` and `outbound_files`; `key` is what the
-- provider returned for the upload.
pub record Attachment : Type 0 where
  pub source_path : String
  pub file_name : String
  pub mime_type : String
  pub provider_file_type : Option String
  pub content : List ℕ
  pub content_hash : String
  pub key : Option String
  pub upload_attempt_count : ℕ

pub record RichImage : Type 0 where
  pub ordinal : ℕ
  pub image : Attachment

-- The columns of `task_bindings` that the title methods and the reconciliation use.
pub record TitleBinding : Type 0 where
  pub chat_id : Option String
  pub anchor_title_hash : Option String
  pub anchor_marker : Option String
  pub pending_title_hash : Option String
  pub blocked_title_hash : Option String
  pub title_sync_error : Option String

pub record Db : Type 0 where
  pub sink_mode : Option String
  pub rows : Rows Row
  pub next_id : ℕ
  pub images : Rows Attachment
  pub files : Rows Attachment
  pub rich_images : ℕ → List RichImage
  pub task_bindings : Dict TitleBinding

-- Whether a row with an identifier below `n` passes the test.
unfoldable pub exists_below : (ℕ → Row → Bool) → Rows Row → ℕ → Bool
exists_below test rows zero = false
exists_below test rows (suc n) =
    (elim (rows n) [ none ↦ false | some r ↦ test n r ]) || exists_below test rows n

-- `state='leased' AND lease_owner=?`
abbrev pub is_leased_by : String → Row → Bool
is_leased_by instance_id r = is_leased r.state && holds_str r.lease_owner instance_id

-- `lease_owner=NULL, lease_expires_at=NULL`
abbrev pub release : Row → Row
release r = record r { lease_owner = none; lease_expires_at = none }
