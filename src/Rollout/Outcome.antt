-- ===== src/Rollout/Outcome.antt =====
-- What a batch leaves in the tables of items and cursors.
use codex_feishu.Prelude.{
  ℕ, ◌<◌, String, ◌≡◌, sym, ap, ◌∙◌, subst, ◌⊎◌, inl, inr, true, some, List, [], ◌∷◌, All, put_self,
  eq_iff, ==_iff, arith, Option-cases,
}
use codex_feishu.Exec.{Error, Result, ok, err}
use codex_feishu.Models.{EventKind, event_kind_eq}
use codex_feishu.Rollout.{
  NormalizedEvent, SourceCursor, RolloutBatch, Digests, Item, Db, content_hash, is_same_item,
  has_record_hash, cursor_refusal, set_cursor, cursor_for, store_rollout_batch,
}
use codex_feishu.Rollout.Events.{Added, IsStored, BatchStored, store_rollout_batch-outcome}
use codex_feishu.Rollout.Progress.{IsAhead, cursor_refusal-IsAhead}

-- The item under the event's identity has the event's columns and the hash of its content.
abbrev pub IsRecorded : Digests → Db → NormalizedEvent → Type 0
IsRecorded z db e =
    (i : Item) × (db.items (z.of_identity e.thread_id e.turn_id e.item_id e.kind e.revision)
      ≡ some i)
    × (i.thread_id ≡ e.thread_id)
    × (i.turn_id ≡ e.turn_id)
    × (i.item_id ≡ e.item_id)
    × (i.event_kind ≡ e.kind)
    × (i.revision ≡ e.revision)
    × (i.content_hash ≡ z.of_content e.text e.images)

event_kind_eq_sound : (a b : EventKind) → event_kind_eq a b ≡ true → a ≡ b
unfolding event_kind_eq
event_kind_eq_sound a b h = ground arith

IsStored-IsRecorded :
    (z : Digests) (db : Db) (e : NormalizedEvent) → IsStored z db e → IsRecorded z db e
unfolding is_same_item
IsStored-IsRecorded z db e (i, f, s) = (
  i,
  f,
  ground (arith, s, eq_iff i.thread_id e.thread_id),
  ground (arith, s, eq_iff i.turn_id e.turn_id),
  ground (arith, s, eq_iff i.item_id e.item_id),
  ground (arith, s, event_kind_eq_sound i.event_kind e.kind),
  ground (arith, s, ==_iff i.revision e.revision),
  ground (arith, s, eq_iff i.content_hash (content_hash z e)),
)

All-IsRecorded :
    (z : Digests) (c : SourceCursor) (db : Db) (es : List NormalizedEvent)
    → All (IsStored z db) es
    → All (IsRecorded z (set_cursor c db)) es
unfolding set_cursor
All-IsRecorded z c db [] h = tt
All-IsRecorded z c db (e ∷ es) (h, hs) = (IsStored-IsRecorded z db e h, All-IsRecorded z c db es hs)

-- A file that was read beyond its start has the hash of the last record.
abbrev pub IsHashed : SourceCursor → Type 0
IsHashed c = 0 < c.committed_offset → (h : String) × (c.last_record_hash ≡ some h) × ¬ (h ≡ "")

has_record_hash-IsHashed : (c : SourceCursor) → has_record_hash c ≡ true → IsHashed c
unfolding has_record_hash
has_record_hash-IsHashed c k positive = elim (Option-cases c.last_record_hash) [
  | inl e ↦ absurd (ground (arith, k, e, positive))
  | inr (h, e) ↦ (h, e, λ same. ground (arith, k, e, positive, (eq_iff h "").1 same))
]

-- The tables after a batch that was stored.
abbrev pub Recorded : Digests → RolloutBatch → Db → Db → Type 0
Recorded z b db after =
    ((k : String) (i : Item) → db.items k ≡ some i → after.items k ≡ some i)
    × ((k : String) (i : Item)
        → after.items k ≡ some i
        → (db.items k ≡ some i) ⊎ Added z b.events k i)
    × All (IsRecorded z after) b.events
    × (after.source_cursors b.cursor.source_path ≡ some b.cursor)
    × ((p : String) → ¬ (p ≡ b.cursor.source_path) → after.source_cursors p ≡ db.source_cursors p)
    × ((old : SourceCursor)
        → db.source_cursors b.cursor.source_path ≡ some old
        → IsAhead old b.cursor)
    × IsHashed b.cursor

abbrev pub BatchOutcome : Digests → RolloutBatch → Db → Result ℕ × Db → Type 0
BatchOutcome z b db x =
    ((e : Error) × (x ≡ (err e, db))) ⊎ ((n : ℕ) × (x.0 ≡ ok n) × Recorded z b db x.1)

other_cursor :
    (c : SourceCursor) (db : Db) (p : String)
    → ¬ (p ≡ c.source_path)
    → (set_cursor c db).source_cursors p ≡ db.source_cursors p
unfolding set_cursor
other_cursor c db p differs = ground (arith, differs, eq_iff c.source_path p)

BatchStored-BatchOutcome :
    (z : Digests) (b : RolloutBatch) (db : Db) (x : Result ℕ × Db)
    → BatchStored z b db x
    → BatchOutcome z b db x
unfolding set_cursor cursor_for
BatchStored-BatchOutcome z b db x (n, middle, e, (kept, cursors), all, origin, fits, hashed) =
    let other = λ (p : String) (differs : ¬ (p ≡ b.cursor.source_path)).
      other_cursor b.cursor middle p differs ∙ ap (λ t. t p) cursors in
    inr (
      n,
      ap (λ y. y.0) e,
      subst (λ y. Recorded z b db y.1) (sym e)
          (
            kept,
            origin,
            All-IsRecorded z b.cursor middle b.events all,
            put_self b.cursor.source_path b.cursor middle.source_cursors,
            other,
            (λ old f.
                cursor_refusal-IsAhead b.cursor old (ap (cursor_refusal b.cursor) (sym f) ∙ fits)),
            has_record_hash-IsHashed b.cursor hashed,
          ),
    )

-- `store_rollout_batch` raises and leaves the database as it was. Or it returns, and then: items that
-- were there are unchanged; every other item is that of an event of the batch, in all its columns;
-- every event has an item under its identity, with its identity and the hash of its content; the
-- batch's cursor is stored for its file and all other cursors are unchanged; it is not behind the
-- cursor that was stored, and has a record hash if it is beyond the start of the file.
pub store_rollout_batch-BatchOutcome :
    (z : Digests) (b : RolloutBatch) (db : Db) → BatchOutcome z b db (store_rollout_batch z b db)
store_rollout_batch-BatchOutcome z b db = elim (store_rollout_batch-outcome z b db) [
  | inl (e, f) ↦ inl (e, f)
  | inr s ↦ BatchStored-BatchOutcome z b db (store_rollout_batch z b db) s
]
