-- ===== src/Worker/Reply.antt =====
-- feishu/outbound.py, `OutboxWorker.run_once`: where a message goes, and the test that a reply goes
-- to a message of its own task.
use Prim.Native.String.{◌++◌ as join}
use codex_feishu.Prelude.{
  ℕ, String, Bool, true, not, ◌&&◌, ◌||◌, Option, none, some, [], ◌∷◌, ◌++◌, str_eq, holds_str,
  opt_str_eq, if◌then◌else◌, find,
}
use codex_feishu.Exec.{Exec, Done, pure, write, ◌>>◌}
use codex_feishu.Outbox.{Row, TitleBinding}
use codex_feishu.Outbox.Queue.{finish_outbox}
use codex_feishu.Worker.{
  Tools, TaskColumns, Owner, Ancestry, Db, on_outbox, truthy, terminal_state, trip,
}

-- The columns of `binding` that are used: of the task's row, or of the owner's.
pub record Target : Type 0 where
  pub chat_id : Option String
  pub conversation_mode : String
  pub provider_thread_id : Option String

unfoldable pub opted_target : String → Option TitleBinding → Option TaskColumns → Option Target
opted_target operation none c = none
opted_target operation (some b) none = none
opted_target operation (some b) (some c) =
    if not c.opted_in && not (str_eq operation "anchor_title")
    then none
    else some (record {
      chat_id = b.chat_id;
      conversation_mode = c.conversation_mode;
      provider_thread_id = c.provider_thread_id;
    })

-- The row of `task_bindings` of the message, unless the task is not opted in.
unfoldable pub task_target : Row → Db → Option Target
task_target r db = elim r.thread_id [
  | none ↦ none
  | some t ↦ opted_target r.operation (db.outbox.task_bindings t) (db.task_columns t)
]

unfoldable pub owner_target : Option Owner → Option Target
owner_target none = none
owner_target (some o) = some (record {
  chat_id = o.chat_id;
  conversation_mode = o.conversation_mode;
  provider_thread_id = none;
})

unfoldable pub or_owner : Row → Db → Option Target → Option Target
or_owner r db (some t) = some t
or_owner r db none =
    if str_eq r.operation "control" || str_eq r.operation "selection"
    then owner_target db.owner
    else none

unfoldable pub binding_of : Row → Db → Option Target
binding_of r db = or_owner r db (task_target r db)

-- The row of a message that the worker replies to.
pub record ReplyParent : Type 0 where
  pub root_id : Option String
  pub thread_id : String
  pub chat_id : Option String
  pub provider_thread_id : Option String

abbrev pub is_message : String → Ancestry → Bool
is_message id a = holds_str a.message_id id

unfoldable pub confirmed_anchor :
    String → String → Option TitleBinding → Option TaskColumns → Option ReplyParent
confirmed_anchor thread_id id none c = none
confirmed_anchor thread_id id (some b) none = none
confirmed_anchor thread_id id (some b) (some c) =
    if str_eq c.anchor_state "confirmed" && holds_str c.anchor_message_id id
    then some (record {
      root_id = none;
      thread_id = thread_id;
      chat_id = b.chat_id;
      provider_thread_id = c.provider_thread_id;
    })
    else none

unfoldable pub anchor_parent : Row → String → Db → Option ReplyParent
anchor_parent r id db = elim r.thread_id [
  | none ↦ none
  | some t ↦ confirmed_anchor t id (db.outbox.task_bindings t) (db.task_columns t)
]

unfoldable pub known_parent : Row → String → Db → Option Ancestry → Option ReplyParent
known_parent r id db none = anchor_parent r id db
known_parent r id db (some a) = some (record {
  root_id = a.root_id;
  thread_id = a.thread_id;
  chat_id = some a.chat_id;
  provider_thread_id = a.provider_thread_id;
})

unfoldable pub parent_of : Row → Option String → Db → Option ReplyParent
parent_of r none db = none
parent_of r (some id) db = known_parent r id db (find (is_message id) db.message_ancestry)

-- `reply_parent`, of a reply.
unfoldable pub reply_parent : Row → Db → Option ReplyParent
reply_parent r db =
    if str_eq r.endpoint_name "reply_message"
    then parent_of r (truthy r.target_message_id) db
    else none

-- The parent is missing, or of another task or chat.
unfoldable pub is_conflict : Row → Target → Option ReplyParent → Bool
is_conflict r target none = true
is_conflict r target (some p) =
    not (holds_str r.thread_id p.thread_id) || not (opt_str_eq p.chat_id target.chat_id)

unfoldable pub is_refused : Row → Target → Db → Bool
is_refused r target db =
    str_eq r.endpoint_name "reply_message" && is_conflict r target (reply_parent r db)

-- The text of an optional column inside an f-string.
unfoldable pub text_or_none : Option String → String
text_or_none none = "None"
text_or_none (some s) = s

abbrev pub reply_record : Tools → ℕ → Row → String
reply_record z id r = z.serializer.sha256 (
    join (z.str id)
      (join ":" (join (text_or_none r.thread_id) (join ":" (text_or_none r.target_message_id)))))

-- Only an undelivered final message opens the breaker of its turn.
unfoldable pub trip_final : Row → Exec Db Done
trip_final r =
    if str_eq r.operation "final"
    then trip "final_delivery" (join "turn:" (text_or_none r.turn_id))
    else pure tt

unfoldable pub refuse_reply : Tools → ℕ → Row → Exec Db Done
refuse_reply z id r = do
  on_outbox
      (finish_outbox id z.instance_id (terminal_state r) none (some "reply_ancestry_conflict") none)
  write (λ s. record s {
    dead_letters =
        s.dead_letters
        ++ (record {
          category = "reply_ancestry";
          record_hash = reply_record z id r;
          reason = "reply target ancestry is missing or conflicts";
        }
            ∷ []);
  })
  trip_final r
