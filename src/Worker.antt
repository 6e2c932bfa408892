-- ===== src/Worker.antt =====
-- The worker that sends queued messages: `OutboxWorker` of codex_feishu_bridge/feishu/outbound.py.
-- Its tables beside those of `Outbox`, what the provider answers, and the tools that it calls.

pub mod Reply
pub mod Payload
pub mod Upload
pub mod Send
pub mod Confirm
pub mod Anchor
pub mod Follow
pub mod Run
pub mod Reasons
pub mod Fate
pub mod Uploading
pub mod Sending
pub mod Following
pub mod Settling
pub mod Outcome
use codex_feishu.Prelude.{
  ℕ, ◌^◌, min, String, Bool, true, false, ◌&&◌, ◌||◌, Option, none, some, List, Dict, put, str_eq,
  if◌then◌else◌, ◌==◌,
}
use codex_feishu.Exec.{Exec, Done, Result, write, ok, err}
use codex_feishu.Json.{Json}
use codex_feishu.Outbox
use codex_feishu.Outbox.{Row, Attachment, OutboxState}
use codex_feishu.Outbox.Uploads.{Serializer}
use codex_feishu.Inbound

pub data ProviderOutcome : Type 0 where
  confirmed retryable permanent unknown : ProviderOutcome

pub record ProviderResult : Type 0 where
  pub outcome : ProviderOutcome
  pub code : String
  pub message_id : Option String
  pub thread_id : Option String
  pub image_key : Option String
  pub file_key : Option String
  pub retry_after_seconds : Option ℕ

-- The arguments of `client.call`; `send_message` has the chat as its receiver, the other endpoints
-- have the message in their path, and `update_message` has no uuid.
pub record Request : Type 0 where
  pub endpoint_name : String
  pub target_message_id : Option String
  pub chat_id : Option String
  pub content : String
  pub msg_type : String
  pub reply_in_thread : Option Bool
  pub uuid : Option String

-- The arguments of `user_message_sender.reply_text`.
pub record UserReply : Type 0 where
  pub message_id : String
  pub text : String
  pub reply_in_thread : Bool
  pub idempotency_key : String

-- The answers of the client, none where it raises, and the sender of the user's messages, if the
-- worker has one.
pub record Provider : Type 0 where
  pub upload_image : Attachment → Option ProviderResult
  pub upload_file : Attachment → Option ProviderResult
  pub call : Request → Option ProviderResult
  pub user_message_sender : Option (UserReply → Option ProviderResult)

-- Now, the end of a new lease, and the time that lies some seconds ahead.
pub record Clock : Type 0 where
  pub now : ℕ
  pub lease_until : ℕ
  pub after : ℕ → ℕ

-- `json.loads`, none for a text that is no JSON; `json.dumps`; `int`, none where it raises; the
-- decimal notation; `stable_uuid` and `invisible_marker`; `owner_display_name`.
pub record Tools : Type 0 where
  pub serializer : Serializer
  pub loads : String → Option Json
  pub dumps : Json → String
  pub int : Json → Option ℕ
  pub str : ℕ → String
  pub stable_uuid : String → String → String → String
  pub invisible_marker : String → String
  pub owner_display_name : String
  pub instance_id : String
  pub clock : Clock

-- The columns of `task_bindings` that `Outbox` does not have.
pub record TaskColumns : Type 0 where
  pub conversation_mode : String
  pub provider_thread_id : Option String
  pub opted_in : Bool
  pub anchor_state : String
  pub anchor_message_id : Option String

-- The active row of `identity_bindings`: `COALESCE(active_chat_id,p2p_chat_id)` and the mode.
pub record Owner : Type 0 where
  pub chat_id : Option String
  pub conversation_mode : String

pub record Ancestry : Type 0 where
  pub message_id : Option String
  pub root_id : Option String
  pub parent_id : Option String
  pub thread_id : String
  pub chat_id : String
  pub provider_thread_id : Option String
  pub source : String

pub record DeadLetter : Type 0 where
  pub category : String
  pub record_hash : String
  pub reason : String

pub record Breaker : Type 0 where
  pub state : String
  pub reason : String

pub record TransientMessage : Type 0 where
  pub message_id : String
  pub turn_id : String
  pub message_type : String
  pub lifecycle_state : String

-- The columns of `approval_actions` that the worker uses.
pub record Card : Type 0 where
  pub approval_id : String
  pub card_message_id : String

-- A row of `task_bindings` stands under one key in `outbox.task_bindings` and in `task_columns`.
-- `selection` holds the tables of the choice of the current task.
pub record Db : Type 0 where
  pub outbox : Outbox.Db
  pub task_columns : Dict TaskColumns
  pub owner : Option Owner
  pub message_ancestry : List Ancestry
  pub dead_letters : List DeadLetter
  pub circuit_breakers : Dict Breaker
  pub transient_messages : List TransientMessage
  pub approval_actions : List Card
  pub selection : Inbound.Db
  pub user_cli_last_fallback : Option String

-- A method of the outbox, and one of the choice, on the whole database.
abbrev pub with_outbox {ℓ} : {A : Type ℓ} → Db → Result A × Outbox.Db → Result A × Db
with_outbox db (ok a, o) = (ok a, record db { outbox = o })
with_outbox db (err e, o) = (err e, record db { outbox = o })

abbrev pub on_outbox {ℓ} : {A : Type ℓ} → Exec Outbox.Db A → Exec Db A
on_outbox m db = with_outbox db (m db.outbox)

abbrev pub with_selection {ℓ} : {A : Type ℓ} → Db → Result A × Inbound.Db → Result A × Db
with_selection db (ok a, s) = (ok a, record db { selection = s })
with_selection db (err e, s) = (err e, record db { selection = s })

abbrev pub on_selection {ℓ} : {A : Type ℓ} → Exec Inbound.Db A → Exec Db A
on_selection m db = with_selection db (m db.selection)

-- Python's truth of an optional text: none and the empty text are false.
unfoldable pub truthy : Option String → Option String
truthy none = none
truthy (some s) = if str_eq s "" then none else some s

-- `seconds or min(300.0, 2 ** min(attempts, 8))`
unfoldable pub backoff : Option ℕ → ℕ → ℕ
backoff none attempts = min 300 (2 ^ min attempts 8)
backoff (some seconds) attempts = if seconds == 0 then min 300 (2 ^ min attempts 8) else seconds

-- `"final_undelivered" if row["operation"] == "final" else "permanent"`
unfoldable pub terminal_state : Row → OutboxState
terminal_state r =
    if str_eq r.operation "final" then OutboxState.final_undelivered else OutboxState.permanent

-- `INSERT INTO circuit_breakers … ON CONFLICT … DO UPDATE`
unfoldable pub trip : String → String → Exec Db Done
trip name reason = write (λ s. record s {
  circuit_breakers = put name (record { state = "open"; reason = reason }) s.circuit_breakers;
})
