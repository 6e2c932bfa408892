-- ===== src/Rollout/Progress.antt =====
-- What any sequence of batches keeps: the items, the identity of each file, and the direction in
-- which its cursor moves.
use codex_feishu.Prelude.{
  ℕ, ◌≤◌, String, ◌≡◌, refl, sym, ap, subst, ◌∙◌, inl, inr, none, some, List, [], ◌∷◌, str_eq,
  eq_iff, opt_str_eq_iff, Bool-cases, arith,
}
use codex_feishu.Exec.{Result}
use codex_feishu.Rollout.{
  SourceCursor, RolloutBatch, Digests, Item, Db, cursor_refusal, set_cursor, cursor_for,
  store_rollout_batch,
}
use codex_feishu.Rollout.Events.{BatchStored, store_rollout_batch-outcome}

-- The file and the schema are the same, and the offset is not smaller; where it is the same offset,
-- it is the same record.
abbrev pub IsAhead : SourceCursor → SourceCursor → Type 0
IsAhead old c =
    (c.file_id ≡ old.file_id)
    × (c.schema_version ≡ old.schema_version)
    × (old.committed_offset ≤ c.committed_offset)
    × (old.committed_offset ≡ c.committed_offset → c.last_record_hash ≡ old.last_record_hash)

-- Every item stays, and every cursor stays or moves ahead.
abbrev pub Advanced : Db → Db → Type 0
Advanced db after =
    ((k : String) (i : Item) → db.items k ≡ some i → after.items k ≡ some i)
    × ((path : String) (c : SourceCursor)
        → db.source_cursors path ≡ some c
        → (d : SourceCursor) × (after.source_cursors path ≡ some d) × IsAhead c d)

IsAhead-refl : (c : SourceCursor) → IsAhead c c
IsAhead-refl c = (refl, refl, omega arith, λ _. refl)

IsAhead-trans : (a b c : SourceCursor) → IsAhead a b → IsAhead b c → IsAhead a c
IsAhead-trans a b c (f, s, o, h) (f', s', o', h') = (
  f' ∙ f,
  s' ∙ s,
  omega (arith, o, o'),
  λ e. h' (omega (arith, o, o', e)) ∙ h (omega (arith, o, o', e)),
)

Advanced-refl : (db : Db) → Advanced db db
Advanced-refl db = ((λ k i f. f), λ p c f. (c, f, IsAhead-refl c))

Advanced-trans : (x y z : Db) → Advanced x y → Advanced y z → Advanced x z
Advanced-trans x y z (i, c) (i', c') = (
  (λ k r f. i' k r (i k r f)),
  λ p a f.
      let (b, g, ab) = c p a f in let (d, h, bd) = c' p b g in (d, h, IsAhead-trans a b d ab bd),
)

pub cursor_refusal-IsAhead :
    (c old : SourceCursor) → cursor_refusal c (some old) ≡ none → IsAhead old c
unfolding cursor_refusal
cursor_refusal-IsAhead c old h = (
  ground (arith, h, eq_iff old.file_id c.file_id),
  ground (arith, h, eq_iff c.schema_version old.schema_version),
  ground (arith, h),
  λ e. ground (arith, h, e, opt_str_eq_iff c.last_record_hash old.last_record_hash),
)

set_cursor-IsAhead :
    (c : SourceCursor) (db : Db)
    → cursor_refusal c (cursor_for c.source_path db) ≡ none
    → (path : String) (old : SourceCursor) → db.source_cursors path ≡ some old
    → (d : SourceCursor) × ((set_cursor c db).source_cursors path ≡ some d) × IsAhead old d
unfolding set_cursor cursor_for
set_cursor-IsAhead c db h path old f = elim (Bool-cases (str_eq c.source_path path)) [
  | inr e ↦ (old, rw e f, IsAhead-refl old)
  | inl e ↦
      let here = ap db.source_cursors ((eq_iff c.source_path path).0 e) ∙ f in
      (c, rw e refl, cursor_refusal-IsAhead c old (ap (cursor_refusal c) (sym here) ∙ h))
]

stored-Advanced :
    (z : Digests) (b : RolloutBatch) (db : Db) (x : Result ℕ × Db)
    → BatchStored z b db x
    → Advanced db x.1
unfolding set_cursor cursor_for
stored-Advanced z b db x (n, middle, e, (items, cursors), all, _, fits, _) =
    subst (λ y. Advanced db y.1) (sym e)
      (
        items,
        λ path old f.
            set_cursor-IsAhead b.cursor middle
              (ap (λ t. cursor_refusal b.cursor (t b.cursor.source_path)) cursors ∙ fits) path old
              (ap (λ t. t path) cursors ∙ f),
      )

-- One batch, stored or refused.
pub store_rollout_batch-Advanced :
    (z : Digests) (b : RolloutBatch) (db : Db) → Advanced db (store_rollout_batch z b db).1
store_rollout_batch-Advanced z b db = elim (store_rollout_batch-outcome z b db) [
  | inl (e, f) ↦ subst (λ x. Advanced db x.1) (sym f) (Advanced-refl db)
  | inr s ↦ stored-Advanced z b db (store_rollout_batch z b db) s
]

unfoldable pub store_all : Digests → Db → List RolloutBatch → Db
store_all z db [] = db
store_all z db (b ∷ rest) = store_all z (store_rollout_batch z b db).1 rest

-- Whatever batches are stored or refused, an item that was stored is never changed or removed, and
-- the cursor of a file keeps the file's identity and schema version, never moves backwards, and
-- keeps its record hash while it stays at its offset.
pub store_all-Advanced :
    (z : Digests) (db : Db) (batches : List RolloutBatch) → Advanced db (store_all z db batches)
unfolding store_all
store_all-Advanced z db [] = Advanced-refl db
store_all-Advanced z db (b ∷ rest) =
    Advanced-trans db (store_rollout_batch z b db).1
      (store_all z (store_rollout_batch z b db).1 rest) (store_rollout_batch-Advanced z b db)
      (store_all-Advanced z (store_rollout_batch z b db).1 rest)
