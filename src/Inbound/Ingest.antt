-- ===== src/Inbound/Ingest.antt =====
-- feishu/inbound.py: `ingest` from the transaction on, `_route`, and `suppress_if_outbound_echo`.
use codex_feishu.Prelude.{
  ℕ, ◌+◌, String, Bool, true, false, not, ◌&&◌, ◌||◌, Option, none, some, List, [], ◌∷◌, ◌++◌,
  str_eq, holds_str, if◌then◌else◌, is_some, coalesce, put, find, update_where, codes, codes_eq,
}
use codex_feishu.Exec.{
  ok, err, Exec, pure, raise, require, write, get_state, or_raise, transaction, ◌>>=◌, ◌>>◌,
  ingress_rejected, integrity_error,
}
use codex_feishu.Json.{Fields}
use codex_feishu.Commands.{ControlCommand}
use codex_feishu.Outbox.{Row, is_waiting, is_leased, is_unknown}
use codex_feishu.Inbound.{
  IngressMessage, PendingAttachment, SelectionState, Sequence, Ancestry, Task, Identity, Db,
  Binding, Capabilities, is_active, is_ancestry, is_message,
}
use codex_feishu.Inbound.Events.{Tools, Message, read_event}

-- `IngressDecision`
pub record Decision : Type 0 where
  pub duplicate : Bool
  pub routing_state : String
  pub target_thread_id : Option String
  pub ingest_seq : Option ℕ
  pub command : Option ControlCommand

-- `_chat_is_authorized`
unfoldable pub chat_is_authorized : Binding → String → Db → Bool
chat_is_authorized b chat_id db =
    if b.is_topic_group
    then is_some
        (find (λ g. holds_str g.chat_id chat_id && str_eq g.state "active") db.project_groups)
    else str_eq chat_id b.target_chat_id

-- `_identity_epoch`
unfoldable pub identity_epoch : Option Identity → Option ℕ
identity_epoch none = none
identity_epoch (some i) = if str_eq i.state "active" then some i.binding_epoch else none

-- `(None, "routing_indeterminate")`
abbrev pub indeterminate : Option String × String
indeterminate = (none, "routing_indeterminate")

-- `not value` of a column that may be NULL.
abbrev pub is_unset : Option String → Bool
is_unset none = true
is_unset (some s) = str_eq s ""

-- A known thread of the provider differs from the message's.
abbrev pub is_other_thread : String → Option String → Bool
is_other_thread provider_thread_id known =
    not (is_unset known) && not (holds_str known provider_thread_id)

unfoldable pub is_task_of : String → String → Task → Bool
is_task_of chat_id provider_thread_id t =
    t.opted_in
    && str_eq t.conversation_mode "topic_group"
    && holds_str t.chat_id chat_id
    && (is_unset t.provider_thread_id || holds_str t.provider_thread_id provider_thread_id)

-- The tests on the rows of the root and the parent. `parent["root_id"] or parent_id` is the root that
-- the parent belongs to.
abbrev pub or_parent : Option String → String → String
or_parent none parent_id = parent_id
or_parent (some r) parent_id = if str_eq r "" then parent_id else r

unfoldable pub is_reply_to : String → String → String → Ancestry → Ancestry → Bool
is_reply_to chat_id root_id parent_id root parent =
    str_eq root.chat_id chat_id
    && str_eq parent.chat_id chat_id
    && str_eq root.thread_id parent.thread_id
    && str_eq (or_parent parent.root_id parent_id) root_id

-- `COALESCE(provider_thread_id, ?)` in both tables.
unfoldable pub adopt_thread : String → String → String → String → Db → Db
adopt_thread provider_thread_id thread_id root_id parent_id db = record db {
  task_bindings = λ k. elim (db.task_bindings k) [
    | none ↦ none
    | some t ↦ some (
        if str_eq k thread_id
        then record t {
          provider_thread_id = coalesce t.provider_thread_id (some provider_thread_id);
        }
        else t)
  ];
  message_ancestry =
      update_where (λ a. str_eq a.message_id root_id || str_eq a.message_id parent_id)
        (λ a. record a {
          provider_thread_id = coalesce a.provider_thread_id (some provider_thread_id);
        })
        db.message_ancestry;
}

-- The tests of `_route` in a topic group: the message's thread must be the task's.
unfoldable pub is_topic_reply : String → String → Ancestry → Ancestry → Option Task → Bool
is_topic_reply chat_id thread root parent none = false
is_topic_reply chat_id thread root parent (some t) =
    not (str_eq thread "")
    && not (is_other_thread thread root.provider_thread_id)
    && not (is_other_thread thread parent.provider_thread_id)
    && is_task_of chat_id thread t

unfoldable pub route_topic :
    String
    → String
    → String
    → Option String
    → Ancestry
    → Ancestry
    → Exec Db (Option String × String)
route_topic chat_id root_id parent_id none root parent db = (ok indeterminate, db)
route_topic chat_id root_id parent_id (some thread) root parent db =
    if is_topic_reply chat_id thread root parent (db.task_bindings root.thread_id)
    then (
      ok (some root.thread_id, "routed_reply"),
      adopt_thread thread root.thread_id root_id parent_id db,
    )
    else (ok indeterminate, db)

unfoldable pub route_reply :
    Binding
    → String
    → String
    → String
    → Option String
    → Ancestry
    → Ancestry
    → Exec Db (Option String × String)
route_reply b chat_id root_id parent_id thread root parent =
    if not (is_reply_to chat_id root_id parent_id root parent)
    then pure indeterminate
    else if b.is_topic_group
    then route_topic chat_id root_id parent_id thread root parent
    else pure (some root.thread_id, "routed_reply")

-- A message that replies to nothing goes to the current task of a private chat.
unfoldable pub route_current : Binding → Sequence → Option String × String
route_current b s =
    if b.is_topic_group || not (is_active s.selection_state) || is_unset s.current_task_id
    then indeterminate
    else (s.current_task_id, "routed_current")

-- Both rows of the ancestry, if they are there.
unfoldable pub pair_rows : Option Ancestry → Option Ancestry → Option (Ancestry × Ancestry)
pair_rows none parent = none
pair_rows (some root) none = none
pair_rows (some root) (some parent) = some (root, parent)

unfoldable pub find_both : String → String → Db → Option (Ancestry × Ancestry)
find_both root_id parent_id db =
    pair_rows (find (is_ancestry root_id) db.message_ancestry)
      (find (is_ancestry parent_id) db.message_ancestry)

unfoldable pub route_found :
    Binding
    → String
    → String
    → String
    → Option String
    → Option (Ancestry × Ancestry)
    → Exec Db (Option String × String)
route_found b chat_id root_id parent_id thread none = pure indeterminate
route_found b chat_id root_id parent_id thread (some (root, parent)) =
    route_reply b chat_id root_id parent_id thread root parent

unfoldable pub route :
    Binding
    → String
    → Option String
    → Option String
    → Option String
    → Sequence
    → Exec Db (Option String × String)
route b chat_id none none thread s = pure (route_current b s)
route b chat_id none (some p) thread s = pure indeterminate
route b chat_id (some r) none thread s = pure indeterminate
route b chat_id (some r) (some p) thread s = do
  db ← get_state
  route_found b chat_id r p thread (find_both r p db)

-- A command in a private chat acts on the current task while that is settled; `hard-stop` and
-- `status` always do.
unfoldable pub is_global : Sequence → ControlCommand → Bool
is_global s c =
    is_active s.selection_state
    || codes_eq c.name (codes "hard-stop")
    || codes_eq c.name (codes "status")

unfoldable pub control_route :
    Binding → Sequence → ControlCommand → Option String × String → Option String × String
control_route b s c (target, state) =
    if not b.is_topic_group && is_global s c
    then (s.current_task_id, "control")
    else (target, if is_some target then "control" else state)

unfoldable pub settle_route :
    Binding → Sequence → Option ControlCommand → Option String × String → Option String × String
settle_route b s none r = r
settle_route b s (some c) r = control_route b s c r

-- The SELECT that finds the bridge's own text on its way to this place; `is_recent` is the test that
-- a row was created in the last two minutes.
unfoldable pub is_echo_of : (ℕ → Bool) → String → String → String → String → Row → Bool
is_echo_of is_recent target root_id parent_id body r =
    (str_eq r.operation "user_message" || str_eq r.operation "subscription")
    && str_eq r.message_type "text"
    && (is_waiting r.state || is_leased r.state || is_unknown r.state)
    && holds_str r.thread_id target
    && (holds_str r.target_message_id root_id || holds_str r.target_message_id parent_id)
    && str_eq r.body_json body
    && is_recent r.created_at

unfoldable pub find_echo : Tools → (ℕ → Bool) → Message → Option String → Db → Option Row
find_echo z is_recent m (some target) db = elim m.root_id [
  | none ↦ none
  | some r ↦ elim m.parent_id [
    | none ↦ none
    | some p ↦
        find (is_echo_of is_recent target r p (z.dump_text m.content.text)) db.provider_outbox
  ]
]
find_echo z is_recent m none db = none

abbrev pub has_operation : String → Option Row → Bool
has_operation operation none = false
has_operation operation (some r) = str_eq r.operation operation

-- What the transaction of `ingest` finds out about a message: it is refused and the conflict is
-- recorded, or the decision.
pub data Verdict : Type 0 where
  conflict : Verdict
  decided : Decision → Verdict

-- `_open_conflict`
unfoldable pub open_conflict : String → Db → Db
open_conflict message_id db = record db {
  circuit_breakers = put "ingress_conflict" ("open", message_id) db.circuit_breakers;
}

abbrev pub first_sequence : Sequence
first_sequence = record {
  next_ingest_seq = 1;
  current_task_id = none;
  active_binding_epoch = 0;
  pending_task_id = none;
  pending_binding_epoch = none;
  selection_state = SelectionState.active;
}

-- The row of `chat_sequences`, which is inserted if it is not there.
unfoldable pub sequence_of : Option Sequence → Sequence
sequence_of none = first_sequence
sequence_of (some s) = s

abbrev pub new_message : Message → Sequence → ℕ → Option String → String → Bool → IngressMessage
new_message m s epoch target state is_delayed = record {
  tenant_key = m.envelope.tenant;
  app_id = m.envelope.app_id;
  message_id = m.envelope.message_id;
  event_id = m.envelope.event_id;
  chat_id = m.envelope.chat_id;
  sender_open_id = m.envelope.open_id;
  chat_type = m.envelope.chat_type;
  root_id = m.root_id;
  parent_id = m.parent_id;
  provider_thread_id = m.provider_thread_id;
  message_type = m.envelope.message_type;
  content_hash = m.content_hash;
  raw_hash = m.raw_hash;
  ingest_seq = s.next_ingest_seq;
  routing_state = state;
  target_thread_id = target;
  binding_epoch = s.active_binding_epoch;
  identity_binding_epoch = epoch;
  is_delayed = is_delayed;
}

abbrev pub new_attachments : Message → List PendingAttachment
new_attachments m = elim m.content.resource [
  | none ↦ []
  | some (key, name) ↦
      record {
        message_id = m.envelope.message_id;
        resource_key = key;
        resource_type = m.envelope.message_type;
        original_file_name = name;
      }
      ∷ []
]

-- The row of `message_ancestry` for a message that was routed as a reply.
unfoldable pub new_ancestry : Message → Option String → String → List Ancestry
new_ancestry m none state = []
new_ancestry m (some target) state =
    if is_some m.root_id
      && is_some m.parent_id
      && (str_eq state "routed_reply" || str_eq state "control")
    then record {
      message_id = m.envelope.message_id;
      root_id = m.root_id;
      parent_id = m.parent_id;
      thread_id = target;
      chat_id = m.envelope.chat_id;
      provider_thread_id = m.provider_thread_id;
      source = "inbound";
    }
      ∷ []
    else []

-- The primary keys of `ingress_payloads` and, where a row is inserted, of `message_ancestry`.
unfoldable pub is_stale : Message → List Ancestry → Db → Bool
is_stale m ancestry db =
    is_some (find (λ p. str_eq p.message_id m.envelope.message_id) db.ingress_payloads)
    || (elim ancestry [
      | [] ↦ false
      | a ∷ rest ↦ is_some (find (is_ancestry m.envelope.message_id) db.message_ancestry)
    ])

-- All rows that a message adds, and the next number.
unfoldable pub insert_message : Message → IngressMessage → List Ancestry → Sequence → Db → Db
insert_message m row ancestry s db = record db {
  ingress_messages = db.ingress_messages ++ (row ∷ []);
  ingress_payloads =
      db.ingress_payloads
      ++ (record { message_id = m.envelope.message_id; text = m.content.text } ∷ []);
  ingress_attachments = db.ingress_attachments ++ new_attachments m;
  message_ancestry = db.message_ancestry ++ ancestry;
  sequence = some (record s { next_ingest_seq = s.next_ingest_seq + 1 });
}

-- The state under which a message is recorded.
abbrev pub final_state : Option Row → String → String
final_state echo state = if has_operation "subscription" echo then "outbound_echo" else state

-- The rows for a routed message, given what was found on its way.
unfoldable pub record_routed :
    Message → Sequence → Option String × String → Option Row → Exec Db Verdict
record_routed m s (target, state) echo = do
  db ← get_state
  epoch ← or_raise (identity_epoch db.identity) ingress_rejected
  require (not (is_stale m (new_ancestry m target (final_state echo state)) db)) integrity_error
  write (
      insert_message m
        (new_message m s epoch target (final_state echo state) (has_operation "user_message" echo))
        (new_ancestry m target (final_state echo state)) s)
  pure (
      decided (record {
        duplicate = has_operation "subscription" echo;
        routing_state = final_state echo state;
        target_thread_id = target;
        ingest_seq = some s.next_ingest_seq;
        command = m.content.command;
      }))

unfoldable pub record_message : Tools → Binding → (ℕ → Bool) → Message → Sequence → Exec Db Verdict
record_message z b is_recent m s = do
  found ← route b m.envelope.chat_id m.root_id m.parent_id m.provider_thread_id s
  db ← get_state
  record_routed m s (settle_route b s m.content.command found)
      (find_echo z is_recent m (settle_route b s m.content.command found).0 db)

abbrev pub seen : String → Verdict
seen state = decided (record {
  duplicate = true;
  routing_state = state;
  target_thread_id = none;
  ingest_seq = none;
  command = none;
})

-- The body of the transaction: the tests for an echo and for a message that is recorded already.
unfoldable pub is_outbound : String → Db → Bool
is_outbound message_id db = elim (find (is_ancestry message_id) db.message_ancestry) [
  | none ↦ false
  | some a ↦ str_eq a.source "outbound"
]

abbrev pub find_message : Message → Db → Option IngressMessage
find_message m db =
    find (is_message m.envelope.tenant m.envelope.app_id m.envelope.message_id) db.ingress_messages

unfoldable pub is_same : Message → IngressMessage → Bool
is_same m r = str_eq r.chat_id m.envelope.chat_id && str_eq r.content_hash m.content_hash

unfoldable pub repeat : Message → IngressMessage → Exec Db Verdict
repeat m r db =
    if is_same m r
    then (ok (seen "duplicate"), db)
    else (ok conflict, open_conflict m.envelope.message_id db)

unfoldable pub receive : Tools → Binding → (ℕ → Bool) → Message → Exec Db Verdict
receive z b is_recent m db =
    if not (chat_is_authorized b m.envelope.chat_id db)
    then (err ingress_rejected, db)
    else if is_outbound m.envelope.message_id db
    then (ok (seen "outbound_echo"), db)
    else elim (find_message m db) [
      | some r ↦ repeat m r db
      | none ↦ record_message z b is_recent m (sequence_of db.sequence) db
    ]

-- A conflict was committed, and then it is an exception.
unfoldable pub answer : Verdict → Exec Db Decision
answer conflict = raise ingress_rejected
answer (decided d) = pure d

unfoldable pub ingest : Tools → Binding → Capabilities → (ℕ → Bool) → Fields → Exec Db Decision
ingest z b c is_recent event = do
  m ← or_raise (read_event z b c event) ingress_rejected
  verdict ← transaction (receive z b is_recent m)
  answer verdict

-- `suppress_if_outbound_echo`; the column `last_dispatch_error` is not modelled.
unfoldable pub suppress_if_outbound_echo : String → Exec Db Bool
suppress_if_outbound_echo message_id db =
    if is_outbound message_id db
    then (
      ok true,
      record db {
        ingress_messages =
            update_where (λ r. str_eq r.message_id message_id)
              (λ r. record r { routing_state = "outbound_echo" }) db.ingress_messages;
      },
    )
    else (ok false, db)
