-- ===== src/Rollout.antt =====
-- codex_feishu_bridge/storage.py: `store_rollout_batch` and `cursor_for`, which keep the items read
-- from a rollout file together with the place up to which the file was read.
pub mod Events
pub mod Outcome
pub mod Progress
pub mod Replay
use codex_feishu.Prelude.{
  ℕ, ◌+◌, String, Bool, true, false, not, ◌&&◌, ◌||◌, Option, none, some, List, [], ◌∷◌, Dict, put,
  str_eq, opt_str_eq, ltb, ◌==◌, if◌then◌else◌,
}
use codex_feishu.Exec.{
  Error, Exec, Done, pure, raise_if, require, write, get_state, transaction, ◌>>=◌, ◌>>◌,
  file_identity_changed, cursor_backwards, schema_version_changed, conflicting_record_hash,
  missing_record_hash, conflicting_item,
}
use codex_feishu.Models.{EventKind, event_kind_eq}

-- `NormalizedEvent`; of an embedded image only what its hash reads.
pub record EmbeddedImage : Type 0 where
  pub mime_type : String
  pub content_hash : String

pub record NormalizedEvent : Type 0 where
  pub thread_id : String
  pub turn_id : String
  pub item_id : String
  pub kind : EventKind
  pub revision : ℕ
  pub text : String
  pub source_type : String
  pub images : List EmbeddedImage

pub record SourceCursor : Type 0 where
  pub source_path : String
  pub file_id : String
  pub committed_offset : ℕ
  pub last_record_hash : Option String
  pub schema_version : String

pub record RolloutBatch : Type 0 where
  pub events : List NormalizedEvent
  pub cursor : SourceCursor

-- SHA-256 as the two properties of `NormalizedEvent` use it: of the five parts of the identity
-- joined by a unit separator, and of the text with the images.
pub record Digests : Type 0 where
  pub of_identity : String → String → String → EventKind → ℕ → String
  pub of_content : String → List EmbeddedImage → String

abbrev pub logical_key : Digests → NormalizedEvent → String
logical_key z e = z.of_identity e.thread_id e.turn_id e.item_id e.kind e.revision

abbrev pub content_hash : Digests → NormalizedEvent → String
content_hash z e = z.of_content e.text e.images

-- A row of `items` without its key.
pub record Item : Type 0 where
  pub thread_id : String
  pub turn_id : String
  pub item_id : String
  pub event_kind : EventKind
  pub revision : ℕ
  pub content_hash : String
  pub text : String
  pub source_type : String

pub record Db : Type 0 where
  pub items : Dict Item
  pub source_cursors : Dict SourceCursor

abbrev pub new_item : Digests → NormalizedEvent → Item
new_item z e = record {
  thread_id = e.thread_id;
  turn_id = e.turn_id;
  item_id = e.item_id;
  event_kind = e.kind;
  revision = e.revision;
  content_hash = content_hash z e;
  text = e.text;
  source_type = e.source_type;
}

-- `actual == expected`
unfoldable pub is_same_item : Digests → NormalizedEvent → Item → Bool
is_same_item z e i =
    str_eq i.thread_id e.thread_id
    && str_eq i.turn_id e.turn_id
    && str_eq i.item_id e.item_id
    && event_kind_eq i.event_kind e.kind
    && (i.revision == e.revision)
    && str_eq i.content_hash (content_hash z e)

unfoldable pub insert_item : Digests → NormalizedEvent → Db → Db
insert_item z e db = record db { items = put (logical_key z e) (new_item z e) db.items }

-- One round of the loop: INSERT OR IGNORE, and the comparison when the key was there. The result is
-- what it adds to the count.
unfoldable pub insert_or_compare : Digests → NormalizedEvent → Option Item → Exec Db ℕ
insert_or_compare z e none = do write (insert_item z e); pure 1
insert_or_compare z e (some i) = do require (is_same_item z e i) conflicting_item; pure 0

unfoldable pub store_event : Digests → NormalizedEvent → Exec Db ℕ
store_event z e db = insert_or_compare z e (db.items (logical_key z e)) db

unfoldable pub store_events : Digests → List NormalizedEvent → Exec Db ℕ
store_events z [] = pure 0
store_events z (e ∷ rest) = do n ← store_event z e; m ← store_events z rest; pure (n + m)

-- The four tests against the stored cursor, in their order.
unfoldable pub cursor_refusal : SourceCursor → Option SourceCursor → Option Error
cursor_refusal c none = none
cursor_refusal c (some old) =
    if not (str_eq old.file_id c.file_id)
    then some file_identity_changed
    else if ltb c.committed_offset old.committed_offset
    then some cursor_backwards
    else if not (str_eq c.schema_version old.schema_version)
    then some schema_version_changed
    else if (c.committed_offset == old.committed_offset)
        && not (opt_str_eq c.last_record_hash old.last_record_hash)
    then some conflicting_record_hash
    else none

-- `committed_offset > 0 and not last_record_hash` is false.
unfoldable pub has_record_hash : SourceCursor → Bool
has_record_hash c =
    not (ltb 0 c.committed_offset)
    || (elim c.last_record_hash [ none ↦ false | some h ↦ not (str_eq h "") ])

unfoldable pub set_cursor : SourceCursor → Db → Db
set_cursor c db = record db { source_cursors = put c.source_path c db.source_cursors }

unfoldable pub cursor_for : String → Db → Option SourceCursor
cursor_for source_path db = db.source_cursors source_path

-- The loop and the write of the cursor.
unfoldable pub store_batch : Digests → RolloutBatch → Exec Db ℕ
store_batch z b = do inserted ← store_events z b.events; write (set_cursor b.cursor); pure inserted

unfoldable pub store_rollout_batch : Digests → RolloutBatch → Exec Db ℕ
store_rollout_batch z b = transaction (do
  db ← get_state
  raise_if (cursor_refusal b.cursor (cursor_for b.cursor.source_path db))
  require (has_record_hash b.cursor) missing_record_hash
  store_batch z b)
