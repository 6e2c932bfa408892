-- ===== src/Inbound.antt =====
-- The tables behind inbound messages (codex_feishu_bridge/runtime_storage.py) and the queries on
-- them. Inbound.Events reads a provider event, Inbound.Ingest is the router of feishu/inbound.py and
-- Inbound.Selection its choice of the current task.
pub mod Events
pub mod Ingest
pub mod Selection
pub mod Machine
mod Cases
mod Outcome
pub mod Routing
pub mod Duplicates
pub mod Numbers
use codex_feishu.Prelude.{
  ℕ, String, Bool, true, false, ◌&&◌, Option, none, some, List, Dict, str_eq, holds_str,
}
use codex_feishu.Outbox.{Row}

-- A row of `ingress_messages`. The columns `received_at` and `dispatch_not_before` are times for the
-- dispatcher; of the latter the model keeps whether it is set.
pub record IngressMessage : Type 0 where
  pub tenant_key : String
  pub app_id : String
  pub message_id : String
  pub event_id : String
  pub chat_id : String
  pub sender_open_id : String
  pub chat_type : String
  pub root_id : Option String
  pub parent_id : Option String
  pub provider_thread_id : Option String
  pub message_type : String
  pub content_hash : String
  pub raw_hash : String
  pub ingest_seq : ℕ
  pub routing_state : String
  pub target_thread_id : Option String
  pub binding_epoch : ℕ
  pub identity_binding_epoch : ℕ
  pub is_delayed : Bool

-- A row of `ingress_payloads`, without its times.
pub record Payload : Type 0 where
  pub message_id : String
  pub text : String

-- A new row of `ingress_attachments`: its other columns have their defaults.
pub record PendingAttachment : Type 0 where
  pub message_id : String
  pub resource_key : String
  pub resource_type : String
  pub original_file_name : Option String

pub data SelectionState : Type 0 where
  active selection_pending selection_indeterminate : SelectionState

-- The row of `chat_sequences` with the key `owner`.
pub record Sequence : Type 0 where
  pub next_ingest_seq : ℕ
  pub current_task_id : Option String
  pub active_binding_epoch : ℕ
  pub pending_task_id : Option String
  pub pending_binding_epoch : Option ℕ
  pub selection_state : SelectionState

-- A row of `message_ancestry`.
pub record Ancestry : Type 0 where
  pub message_id : String
  pub root_id : Option String
  pub parent_id : Option String
  pub thread_id : String
  pub chat_id : String
  pub provider_thread_id : Option String
  pub source : String

-- The columns of `task_bindings` that the router and the selection read or write.
pub record Task : Type 0 where
  pub opted_in : Bool
  pub anchor_state : String
  pub conversation_mode : String
  pub current_binding_epoch : ℕ
  pub chat_id : Option String
  pub provider_thread_id : Option String

pub record ProjectGroup : Type 0 where
  pub chat_id : Option String
  pub state : String

-- The row of `identity_bindings` with the key `owner`.
pub record Identity : Type 0 where
  pub binding_epoch : ℕ
  pub state : String

-- A row of `selection_confirmations`.
pub record Confirmation : Type 0 where
  pub logical_message_id : String
  pub target_thread_id : String
  pub binding_epoch : ℕ
  pub state : String

pub record Db : Type 0 where
  pub ingress_messages : List IngressMessage
  pub ingress_payloads : List Payload
  pub ingress_attachments : List PendingAttachment
  pub sequence : Option Sequence
  pub message_ancestry : List Ancestry
  pub task_bindings : Dict Task
  pub project_groups : List ProjectGroup
  pub identity : Option Identity
  pub provider_outbox : List Row
  pub selection_confirmations : List Confirmation
  pub circuit_breakers : Dict (String × String)

-- `state='active'` of a selection.
unfoldable pub is_active : SelectionState → Bool
is_active SelectionState.active = true
is_active _ = false

unfoldable pub is_pending : SelectionState → Bool
is_pending SelectionState.selection_pending = true
is_pending _ = false

-- `WHERE message_id=?`
abbrev pub is_ancestry : String → Ancestry → Bool
is_ancestry id a = str_eq a.message_id id

-- `WHERE tenant_key=? AND app_id=? AND message_id=?`
abbrev pub is_message : String → String → String → IngressMessage → Bool
is_message tenant app id m =
    str_eq m.tenant_key tenant && str_eq m.app_id app && str_eq m.message_id id

-- `FeishuBinding`: what the router reads of the configuration; `is_topic_group` is the conversation
-- mode, `p2p` otherwise.
pub record Binding : Type 0 where
  pub tenant_key : String
  pub app_id : String
  pub target_chat_type : String
  pub target_chat_id : String
  pub is_topic_group : Bool

-- `RemoteCapabilities`
pub record Capabilities : Type 0 where
  pub controls : Bool
  pub text : Bool
  pub images : Bool
  pub files : Bool
