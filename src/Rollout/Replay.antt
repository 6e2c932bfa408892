-- ===== src/Rollout/Replay.antt =====
-- A batch that is stored a second time.
use codex_feishu.Prelude.{
  ℕ, String, ◌≡◌, refl, sym, ap, subst, ◌∙◌, inl, inr, true, none, some, List, [], ◌∷◌, All, put,
  put_self, opt_str_eq_iff, arith, str_eq_refl, fun_ext, Dict,
}
use codex_feishu.Exec.{Error, ok, err}
use codex_feishu.Rollout.{
  NormalizedEvent, SourceCursor, RolloutBatch, Digests, Db, insert_or_compare, store_event,
  store_events, cursor_refusal, has_record_hash, set_cursor, cursor_for, store_batch,
  store_rollout_batch,
}
use codex_feishu.Rollout.Events.{IsStored, store_rollout_batch-outcome}

-- The loop over events whose items are all there writes nothing.
stored_again :
    (z : Digests) (es : List NormalizedEvent) (db : Db)
    → All (IsStored z db) es
    → store_events z es db ≡ (ok 0, db)
unfolding store_events store_event insert_or_compare
stored_again z [] db h = refl
stored_again z (e ∷ rest) db ((i, f, s), h) = rw (f, s, stored_again z rest db h) refl

put_twice :
    (k : String) (c : SourceCursor) (d : Dict SourceCursor) → put k c (put k c d) ≡ put k c d
put_twice k c d = fun_ext λ j. ground arith

set_cursor-twice : (c : SourceCursor) (db : Db) → set_cursor c (set_cursor c db) ≡ set_cursor c db
unfolding set_cursor
set_cursor-twice c db =
    ap (λ t. record db { source_cursors = t }) (put_twice c.source_path c db.source_cursors)

cursor_refusal-same : (c : SourceCursor) → cursor_refusal c (some c) ≡ none
unfolding cursor_refusal
cursor_refusal-same c = ground (
  arith,
  str_eq_refl c.file_id,
  str_eq_refl c.schema_version,
  opt_str_eq_iff c.last_record_hash c.last_record_hash,
)

cursor_is_set :
    (c : SourceCursor) (db : Db) → (set_cursor c db).source_cursors c.source_path ≡ some c
unfolding set_cursor
cursor_is_set c db = put_self c.source_path c db.source_cursors

set_cursor-IsStored :
    (z : Digests) (c : SourceCursor) (db : Db) (es : List NormalizedEvent)
    → All (IsStored z db) es
    → All (IsStored z (set_cursor c db)) es
unfolding set_cursor
set_cursor-IsStored z c db [] h = tt
set_cursor-IsStored z c db (e ∷ es) h = (h.0, set_cursor-IsStored z c db es h.1)

err-ok : (e : Error) (n : ℕ) → err e ≡ ok n → ⊥
err-ok e n p = ground (arith, p)

replay :
    (z : Digests) (b : RolloutBatch) (middle : Db)
    → All (IsStored z middle) b.events
    → has_record_hash b.cursor ≡ true
    → store_rollout_batch z b (set_cursor b.cursor middle) ≡ (ok 0, set_cursor b.cursor middle)
unfolding store_rollout_batch store_batch cursor_for
replay z b middle all k =
    let after = set_cursor b.cursor middle in
    let fits =
      ap (cursor_refusal b.cursor) (cursor_is_set b.cursor middle) ∙ cursor_refusal-same b.cursor in
    rw (fits, k, stored_again z b.events after (set_cursor-IsStored z b.cursor middle b.events all))
      (ap (λ s. (ok 0, s)) (set_cursor-twice b.cursor middle))

-- A batch that `store_rollout_batch` has stored can be stored again: it adds no item, returns 0 and
-- leaves the database exactly as it is.
pub store_rollout_batch-replay :
    (z : Digests) (b : RolloutBatch) (db : Db) (n : ℕ)
    → (store_rollout_batch z b db).0 ≡ ok n
    → store_rollout_batch z b (store_rollout_batch z b db).1
      ≡ (ok 0, (store_rollout_batch z b db).1)
store_rollout_batch-replay z b db n h = elim (store_rollout_batch-outcome z b db) [
  | inl (e, f) ↦ absurd (err-ok e n (sym (ap (λ x. x.0) f) ∙ h))
  | inr (m, middle, e, _, all, _, _, k) ↦
      subst (λ s. store_rollout_batch z b s ≡ (ok 0, s)) (sym (ap (λ x. x.1) e))
        (replay z b middle all k)
]
