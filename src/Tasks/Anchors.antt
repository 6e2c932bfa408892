-- ===== src/Tasks/Anchors.antt =====
-- feishu/tasks.py: `TaskAnchorManager`, and `invisible_marker` of feishu/formatter.py.
use Prim.Native.String.{◌++◌ as join}
use codex_feishu.Prelude.{
  ℕ, ◌+◌, String, Bool, true, false, not, ◌&&◌, ◌||◌, Option, none, some, List, [], ◌∷◌, ◌++◌,
  str_eq, holds_str, ◌==◌, if◌then◌else◌, is_none, is_some, find, update_where, row_count,
  delete_where, Codes, codes,
}
use codex_feishu.Exec.{
  type_error, Exec, Done, ok, pure, require, write, get_state, or_raise, transaction, ◌>>=◌, ◌>>◌,
  value_error, integrity_error, bound_elsewhere, lost_compare_and_swap,
}
use codex_feishu.Outbox.{OutboxState, Row}
use codex_feishu.Inbound.{is_ancestry}
use codex_feishu.Inbound.Ingest.{identity_epoch, is_unset}
use codex_feishu.Inbound.Selection.{first_chars}
use codex_feishu.Tasks.{Binding, Db, is_binding}
use codex_feishu.Tasks.Titles.{Display, normalize_task_title, normalize_project_name, topic_title}

-- What the module takes from elsewhere: a resolved path with its last part; `str(uuid.uuid5(…))` in
-- the module's namespace; SHA-256 of a text, and of the visible title behind its version;
-- `json.dumps({"text": …})`; the text with given code points; the decimal notation of a number.
pub record Tools : Type 0 where
  pub display : Display
  pub root_name : String → Codes
  pub uuid5 : String → String
  pub sha256 : String → String
  pub title_hash : Codes → String
  pub dump_text : Codes → String
  pub from_codes : Codes → String
  pub str : ℕ → String

abbrev add_tags : Codes → Codes
add_tags [] = 917631 ∷ []
add_tags (c ∷ rest) = (917504 + c) ∷ add_tags rest

unfoldable pub invisible_marker : Tools → String → String
invisible_marker w value = w.from_codes (8291 ∷ add_tags (codes value))

unfoldable pub marker_of : Tools → String → String
marker_of w uuid = invisible_marker w (join "task:" (first_chars 24 (w.sha256 uuid)))

unfoldable pub uuid_of : Tools → String → String → String → String → String
uuid_of w root thread_id mode chat_id =
    w.uuid5 (
      join root
        (join "\u{1f}" (join thread_id (join "\u{1f}" (join mode (join "\u{1f}" chat_id))))))

abbrev pub anchor_id : String → String
anchor_id uuid = join "anchor:" uuid

abbrev pub title_id : Tools → String → ℕ → String → String
title_id w thread_id revision hash =
    join "anchor-title:"
      (join thread_id (join ":" (join (w.str revision) (join ":" (first_chars 16 hash)))))

abbrev pub is_row : String → Row → Bool
is_row id r = str_eq r.logical_message_id id

-- The columns of a queued text that the two kinds of rows share.
unfoldable pub text_row : Tools → String → String → Codes → ℕ → Row
text_row w id thread_id text now = record {
  logical_message_id = id;
  thread_id = some thread_id;
  turn_id = none;
  item_id = none;
  operation = "anchor";
  message_type = "text";
  endpoint_name = "send_message";
  target_message_id = none;
  reply_in_thread = false;
  stable_uuid = "";
  marker = "";
  body_json = w.dump_text text;
  body_hash = w.sha256 (w.dump_text text);
  priority = 100;
  state = OutboxState.pending;
  attempt_count = 0;
  next_attempt_at = now;
  lease_owner = none;
  lease_expires_at = none;
  provider_message_id = none;
  first_attempt_at = none;
  last_error_code = none;
  created_at = now;
}

-- The visible title of a task.
abbrev pub shown_title : Tools → Option Codes → Option Codes → String → String → Codes
shown_title w title name thread_id root =
    topic_title (normalize_task_title w.display title thread_id)
      (normalize_project_name w.display name (w.root_name root))

abbrev pub epoch_or_zero : Option ℕ → ℕ
epoch_or_zero none = 0
epoch_or_zero (some n) = n

abbrev pub new_binding :
    Tools → String → String → String → String → Option Codes → Option Codes → ℕ → Binding
new_binding w thread_id root chat_id mode title name epoch = record {
  thread_id = thread_id;
  project_root = root;
  chat_id = chat_id;
  anchor_message_id = none;
  anchor_state = "pending";
  anchor_uuid = uuid_of w root thread_id mode chat_id;
  anchor_marker = marker_of w (uuid_of w root thread_id mode chat_id);
  identity_binding_epoch = epoch;
  conversation_mode = mode;
  task_title = some (normalize_task_title w.display title thread_id);
  project_name = some (normalize_project_name w.display name (w.root_name root));
  anchor_title_hash = none;
  pending_title_hash = some (w.title_hash (shown_title w title name thread_id root));
  blocked_title_hash = none;
  title_sync_error = none;
  title_revision = 1;
  lifecycle_state = "active";
  opted_in = true;
}

abbrev pub activate : Binding → Binding
activate b = record b { opted_in = true; lifecycle_state = "active" }

-- The UNIQUE columns that a new row sets.
abbrev pub is_taken : Binding → Binding → Bool
is_taken n b = str_eq b.anchor_uuid n.anchor_uuid || str_eq b.anchor_marker n.anchor_marker

-- `INSERT INTO task_bindings … ON CONFLICT(thread_id) DO UPDATE`
unfoldable pub insert_binding : Binding → Option Binding → Exec Db Done
insert_binding n none = do
  db ← get_state
  require (is_none (find (is_taken n) db.task_bindings)) integrity_error
  write (λ s. record s { task_bindings = s.task_bindings ++ (n ∷ []) })
insert_binding n (some b) = do
  require (str_eq b.chat_id n.chat_id && str_eq b.conversation_mode n.conversation_mode)
      bound_elsewhere
  write (λ s. record s {
    task_bindings = update_where (is_binding n.thread_id) activate s.task_bindings;
  })

-- `INSERT OR IGNORE INTO provider_outbox`
unfoldable pub insert_or_ignore : Row → List Row → List Row
insert_or_ignore r rows =
    if is_some (find (is_row r.logical_message_id) rows) then rows else rows ++ (r ∷ [])

abbrev pub anchor_row : Tools → Binding → Codes → ℕ → Row
anchor_row w n text now = record (text_row w (anchor_id n.anchor_uuid) n.thread_id text now) {
  stable_uuid = n.anchor_uuid;
  marker = n.anchor_marker;
}

unfoldable pub opt_in :
    Tools → String → String → String → String → Option Codes → Option Codes → ℕ → Exec Db String
opt_in w thread_id root chat_id mode title name now = do
  require (str_eq mode "p2p" || str_eq mode "topic_group") value_error
  transaction (do
    db ← get_state
    insert_binding
        (new_binding w thread_id root chat_id mode title name
          (epoch_or_zero (identity_epoch db.identity)))
        (find (is_binding thread_id) db.task_bindings)
    write (λ s. record s {
      provider_outbox =
          insert_or_ignore
            (anchor_row w
              (new_binding w thread_id root chat_id mode title name
                (epoch_or_zero (identity_epoch db.identity)))
              (shown_title w title name thread_id root) now)
            s.provider_outbox;
    })
    pure (uuid_of w root thread_id mode chat_id))

abbrev pub title_row : Tools → Binding → Codes → ℕ → Row
title_row w b text now =
    record (text_row w (title_id w b.thread_id (b.title_revision + 1) (w.title_hash text))
      b.thread_id text now) {
        item_id = some (w.title_hash text);
        operation = "anchor_title";
        endpoint_name = "update_message";
        target_message_id = b.anchor_message_id;
        stable_uuid = w.uuid5 (
            join "title\u{1f}" (
              join b.thread_id (
                join "\u{1f}"
                  (join (w.str (b.title_revision + 1)) (join "\u{1f}" (w.title_hash text))))));
        marker = marker_of w b.anchor_uuid;
        priority = 95;
      }

-- `WHERE thread_id=? AND pending_title_hash IS NULL AND title_revision=?`
abbrev pub awaits_title : Binding → Binding → Bool
awaits_title b x =
    str_eq x.thread_id b.thread_id
    && is_none x.pending_title_hash
    && (x.title_revision == b.title_revision)

-- What both UPDATEs of a title set.
abbrev pub set_pending : String → ℕ → Binding → Binding
set_pending hash revision x = record x {
  pending_title_hash = some hash;
  blocked_title_hash = none;
  title_sync_error = none;
  title_revision = revision;
}

-- The row for a new title and the UPDATE of the binding, which also does `more`.
unfoldable pub queue_title : Tools → Binding → Codes → (Binding → Binding) → ℕ → Exec Db Done
queue_title w b text more now = do
  db ← get_state
  require
      (is_none (
        find (is_row (title_id w b.thread_id (b.title_revision + 1) (w.title_hash text)))
          db.provider_outbox))
      integrity_error
  require (row_count (awaits_title b) db.task_bindings == 1) lost_compare_and_swap
  write (λ s. record s {
    provider_outbox = s.provider_outbox ++ (title_row w b text now ∷ []);
    task_bindings =
        update_where (awaits_title b)
          (λ x. set_pending (w.title_hash text) (b.title_revision + 1) (more x)) s.task_bindings;
  })

-- The topic is there.
abbrev pub has_topic : Binding → Bool
has_topic b = str_eq b.anchor_state "confirmed" && not (is_unset b.anchor_message_id)

-- The title is shown already, or the provider refused it.
abbrev pub is_settled : Binding → String → Bool
is_settled b hash = holds_str b.anchor_title_hash hash || holds_str b.blocked_title_hash hash

unfoldable pub sync_found : Tools → Codes → Option Codes → ℕ → Option Binding → Exec Db Bool
sync_found w title name now none = pure false
sync_found w title name now (some b) =
    if not (has_topic b)
      || is_settled b (w.title_hash (shown_title w (some title) name b.thread_id b.project_root))
      || is_some b.pending_title_hash
    then pure false
    else (do
      queue_title w b (shown_title w (some title) name b.thread_id b.project_root)
          (λ x. record x {
            task_title = some (normalize_task_title w.display (some title) b.thread_id);
            project_name =
                some (normalize_project_name w.display name (w.root_name b.project_root));
          })
          now
      pure true)

-- `WHERE thread_id=? AND opted_in=1`
abbrev pub is_opted_in : String → Binding → Bool
is_opted_in thread_id b = str_eq b.thread_id thread_id && b.opted_in

unfoldable pub sync_title : Tools → String → Codes → Option Codes → ℕ → Exec Db Bool
sync_title w thread_id title name now =
    transaction (do
      db ← get_state
      sync_found w title name now (find (is_opted_in thread_id) db.task_bindings))

-- The title of a topic whose task is archived.
abbrev pub archived_title : Tools → Binding → Codes
archived_title w b =
    topic_title
      (normalize_task_title w.display
        (some (codes "【已归档】" ++ normalize_task_title w.display b.task_title b.thread_id))
        b.thread_id)
      (normalize_project_name w.display b.project_name (w.root_name b.project_root))

-- The first two UPDATEs of `archive`.
unfoldable pub deactivate : Binding → Db → Db
deactivate b db = record db {
  task_bindings =
      if b.opted_in || not (str_eq b.lifecycle_state "archived")
      then update_where (is_binding b.thread_id)
          (λ x. record x { opted_in = false; lifecycle_state = "archived" }) db.task_bindings
      else db.task_bindings;
  remote_task_grants =
      update_where (λ g. str_eq g.thread_id b.thread_id && not (str_eq g.state "revoked"))
        (λ g. record g { state = "revoked" }) db.remote_task_grants;
}

-- The rest of `archive`: the topic's title, if there is a topic.
unfoldable pub show_archived : Tools → ℕ → Binding → Exec Db Bool
show_archived w now b =
    if not (has_topic b)
      || is_some b.pending_title_hash
      || is_settled b (w.title_hash (archived_title w b))
    then pure (b.opted_in || not (str_eq b.lifecycle_state "archived"))
    else (do queue_title w b (archived_title w b) (λ x. x) now; pure true)

unfoldable pub archive_found : Tools → ℕ → Option Binding → Exec Db Bool
archive_found w now none = pure false
archive_found w now (some b) = do write (deactivate b); show_archived w now b

unfoldable pub archive : Tools → String → ℕ → Exec Db Bool
archive w thread_id now =
    transaction
      (do db ← get_state; archive_found w now (find (is_binding thread_id) db.task_bindings))

abbrev pub is_inactive : String → Binding → Bool
is_inactive thread_id b =
    str_eq b.thread_id thread_id && (not b.opted_in || not (str_eq b.lifecycle_state "active"))

unfoldable pub reactivate : String → Exec Db Bool
reactivate thread_id db = (
  ok (row_count (is_inactive thread_id) db.task_bindings == 1),
  record db { task_bindings = update_where (is_inactive thread_id) activate db.task_bindings },
)

abbrev pub is_unconfirmed : String → Binding → Bool
is_unconfirmed thread_id b = str_eq b.thread_id thread_id && str_eq b.anchor_state "pending"

abbrev pub set_anchor : String → Binding → Binding
set_anchor message_id b = record b {
  anchor_message_id = some message_id;
  anchor_state = "confirmed";
  anchor_title_hash = b.pending_title_hash;
  pending_title_hash = none;
}

-- `INSERT OR REPLACE INTO message_ancestry`
unfoldable pub add_anchor : String → Binding → Db → Db
add_anchor message_id b db = record db {
  message_ancestry =
      delete_where (is_ancestry message_id) db.message_ancestry
      ++ (record {
        message_id = message_id;
        root_id = none;
        parent_id = none;
        thread_id = b.thread_id;
        chat_id = b.chat_id;
        provider_thread_id = none;
        source = "anchor";
      }
          ∷ []);
}

-- The first test is the UNIQUE column `anchor_message_id`.
unfoldable pub confirm : String → String → Exec Db Done
confirm thread_id message_id = do
  db ← get_state
  require
      (is_none (
          find (λ x. holds_str x.anchor_message_id message_id && not (str_eq x.thread_id thread_id))
            db.task_bindings)
        || (row_count (is_unconfirmed thread_id) db.task_bindings == 0))
      integrity_error
  require (row_count (is_unconfirmed thread_id) db.task_bindings == 1) lost_compare_and_swap
  write (λ s. record s {
    task_bindings = update_where (is_unconfirmed thread_id) (set_anchor message_id) s.task_bindings;
  })
  b ← or_raise (find (is_binding thread_id) db.task_bindings) type_error
  write (add_anchor message_id b)
