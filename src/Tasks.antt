-- ===== src/Tasks.antt =====
-- feishu/tasks.py: the bindings of tasks to chats, and the titles of their topics.
pub mod Titles
pub mod Display
pub mod Anchors
pub mod History
pub mod Surface
pub mod Carried
use codex_feishu.Prelude.{ℕ, String, Bool, Option, List, Codes, str_eq}
use codex_feishu.Outbox.{Row}
use codex_feishu.Inbound.{Identity, Ancestry}

-- A row of `task_bindings`. `opt_in`, the only INSERT, sets `chat_id` and `anchor_uuid`.
pub record Binding : Type 0 where
  pub thread_id : String
  pub project_root : String
  pub chat_id : String
  pub anchor_message_id : Option String
  pub anchor_state : String
  pub anchor_uuid : String
  pub anchor_marker : String
  pub identity_binding_epoch : ℕ
  pub conversation_mode : String
  pub task_title : Option Codes
  pub project_name : Option Codes
  pub anchor_title_hash : Option String
  pub pending_title_hash : Option String
  pub blocked_title_hash : Option String
  pub title_sync_error : Option String
  pub title_revision : ℕ
  pub lifecycle_state : String
  pub opted_in : Bool

-- The columns of `remote_task_grants` that are used here.
pub record Grant : Type 0 where
  pub thread_id : String
  pub state : String

pub record Db : Type 0 where
  pub task_bindings : List Binding
  pub provider_outbox : List Row
  pub remote_task_grants : List Grant
  pub message_ancestry : List Ancestry
  pub identity : Option Identity

-- `WHERE thread_id=?`
abbrev pub is_binding : String → Binding → Bool
is_binding thread_id b = str_eq b.thread_id thread_id
