-- ===== src/Outbox/Evolution.antt =====
-- How a row of the outbox can change in the operations that neither add a row nor lease one.
use mathlib.Core.Bool.{false≢true}
use codex_feishu.Prelude.{
  ℕ, ◌≡◌, refl, sym, subst, ◌∙◌, String, Bool, true, false, ◌&&◌, Option, none, some, List, Rows,
  put_row, arith, inl, inr, ◌==◌, Bool-cases, Option-cases, ==_iff, and_left, and_right,
}
use codex_feishu.Outbox.{
  OutboxState, Row, Db, is_closed, is_waiting, is_leased, is_unknown, is_leased_by,
}
use codex_feishu.Outbox.Queue.{
  expire, expire_all, is_overdue, finish_outbox, suppress_waiting, settle_unknown,
  mark_indeterminate, retry_with_same_uuid, confirm_match,
}
use codex_feishu.Outbox.Uploads.{
  Serializer, attach_outbound_image, image_payload_for_lease, file_payload_for_lease,
  stage_uploaded_image, stage_uploaded_file, rich_image_payload_for_lease,
  stage_uploaded_rich_image,
}
use codex_feishu.Outbox.Titles.{is_title_lease, confirm_task_title_update, fail_task_title_update}
use codex_feishu.Outbox.Cases.{
  finish_outbox_cases, attach_outbound_image_cases, image_payload_for_lease_cases,
  file_payload_for_lease_cases, stage_uploaded_image_cases, stage_uploaded_file_cases,
  stage_uploaded_rich_image_cases, confirm_task_title_update_cases, fail_task_title_update_cases,
}

-- The row keeps its turn and its number of attempts, and if it is closed, all of its columns.
pub record Evolves (a b : Row) : Type 0 where
  pub turn : b.turn_id ≡ a.turn_id
  pub attempts : b.attempt_count ≡ a.attempt_count
  pub frozen : is_closed a.state ≡ true → b ≡ a

abbrev pub Evolves? : Option Row → Option Row → Type 0
Evolves? none none = Unit
Evolves? (some a) (some b) = Evolves a b
Evolves? _ _ = ⊥

-- Every row evolves, and none is added.
pub record Quiet (before after : Db) : Type 0 where
  pub rows : (i : ℕ) → Evolves? (before.rows i) (after.rows i)
  pub next_id : after.next_id ≡ before.next_id

Evolves?-refl : (o : Option Row) → Evolves? o o
Evolves?-refl none = tt
Evolves?-refl (some a) = record { turn = refl; attempts = refl; frozen = λ _. refl }

pub Quiet-refl : (db : Db) → Quiet db db
Quiet-refl db = record { rows = λ i. Evolves?-refl (db.rows i); next_id = refl }

put_row-Evolves :
    (rows : Rows Row) (k : ℕ) (r q : Row)
    → rows k ≡ some r
    → Evolves r q
    → (i : ℕ) → Evolves? (rows i) (put_row k q rows i)
put_row-Evolves rows k r q e v i = elim (Bool-cases (k == i)) [
  | inl same ↦ rw (same, ← (==_iff k i).0 same, e) v
  | inr other ↦ rw other (Evolves?-refl (rows i))
]

leased-open : (s : OutboxState) → is_leased s ≡ true → is_closed s ≡ false
unfolding is_leased is_closed
leased-open s h = ground arith

title_lease_held :
    (w t h : String) (r : Row) → is_title_lease w t h r ≡ true → is_leased_by w r ≡ true
title_lease_held w t h r l = ground arith

-- A row that somebody holds may be rewritten: it is not closed.
held-Evolves :
    (w : String) (r q : Row)
    → is_leased_by w r ≡ true
    → q.turn_id ≡ r.turn_id
    → q.attempt_count ≡ r.attempt_count
    → Evolves r q
held-Evolves w r q held t n = record {
  turn = t;
  attempts = n;
  frozen = λ c. absurd (false≢true (sym (leased-open r.state (and_left _ _ held)) ∙ c));
}

-- A row that somebody holds is rewritten; other tables may be written too.
held-Quiet :
    (w : String) (id : ℕ) (r q : Row) (db after : Db)
    → db.rows id ≡ some r
    → is_leased_by w r ≡ true
    → q.turn_id ≡ r.turn_id
    → q.attempt_count ≡ r.attempt_count
    → after.rows ≡ put_row id q db.rows
    → after.next_id ≡ db.next_id
    → Quiet db after
held-Quiet w id r q db after e held t n rows next = record {
  rows =
      subst (λ x. (i : ℕ) → Evolves? (db.rows i) (x i)) (sym rows)
        (put_row-Evolves db.rows id r q e (held-Evolves w r q held t n));
  next_id = next;
}

-- Only other tables are written.
aside-Quiet : (db after : Db) → after.rows ≡ db.rows → after.next_id ≡ db.next_id → Quiet db after
aside-Quiet db after rows next = record {
  rows = subst (λ x. (i : ℕ) → Evolves? (db.rows i) (x i)) (sym rows) (Quiet-refl db).rows;
  next_id = next;
}

pub finish-Quiet :
    (id : ℕ) (w : String) (s : OutboxState) (p e : Option String) (t : Option ℕ) (db : Db)
    → Quiet db (finish_outbox id w s p e t db).1
finish-Quiet id w s p e t db =
    finish_outbox_cases (λ x. Quiet db x.1) id w s p e t db (λ _. Quiet-refl db)
      λ r _ f h. held-Quiet w id r _ db _ f h refl refl refl refl

pub attach-Quiet :
    (id : ℕ) (p n m : String) (c : List ℕ) (h : String) (db : Db)
    → Quiet db (attach_outbound_image id p n m c h db).1
attach-Quiet id p n m c h db =
    attach_outbound_image_cases (λ x. Quiet db x.1) id p n m c h db (λ _. Quiet-refl db)
      λ r _ _ _ _. aside-Quiet db _ refl refl

pub read_image-Quiet :
    (id : ℕ) (w : String) (db : Db) → Quiet db (image_payload_for_lease id w db).1
read_image-Quiet id w db =
    image_payload_for_lease_cases (λ x. Quiet db x.1) id w db (λ _. Quiet-refl db)
      λ a r _ _ _. aside-Quiet db _ (ground arith) (ground arith)

pub read_file-Quiet : (id : ℕ) (w : String) (db : Db) → Quiet db (file_payload_for_lease id w db).1
read_file-Quiet id w db =
    file_payload_for_lease_cases (λ x. Quiet db x.1) id w db (λ _. Quiet-refl db)
      λ a r _ _ _. aside-Quiet db _ (ground arith) (ground arith)

pub read_rich-Quiet :
    (id : ℕ) (w : String) (db : Db) → Quiet db (rich_image_payload_for_lease id w db).1
unfolding rich_image_payload_for_lease
read_rich-Quiet id w db = aside-Quiet db _ (ground arith) (ground arith)

pub stage_image-Quiet :
    (z : Serializer) (id : ℕ) (w k : String) (now : ℕ) (db : Db)
    → Quiet db (stage_uploaded_image z id w k now db).1
stage_image-Quiet z id w k now db =
    stage_uploaded_image_cases (λ x. Quiet db x.1) z id w k now db (λ _. Quiet-refl db)
      λ a r _ _ _ f h. held-Quiet w id r _ db _ f (and_left _ _ h) refl refl refl refl

pub stage_file-Quiet :
    (z : Serializer) (id : ℕ) (w k : String) (now : ℕ) (db : Db)
    → Quiet db (stage_uploaded_file z id w k now db).1
stage_file-Quiet z id w k now db =
    stage_uploaded_file_cases (λ x. Quiet db x.1) z id w k now db (λ _. Quiet-refl db)
      λ a r _ _ _ f h. held-Quiet w id r _ db _ f h refl refl refl refl

pub stage_rich-Quiet :
    (id : ℕ) (w : String) (n : ℕ) (k : String) (now : ℕ) (db : Db)
    → Quiet db (stage_uploaded_rich_image id w n k now db).1
stage_rich-Quiet id w n k now db =
    stage_uploaded_rich_image_cases (λ x. Quiet db x.1) id w n k now db (λ _. Quiet-refl db)
      λ r _ _ f h. held-Quiet w id r _ db _ f h refl refl refl refl

pub confirm_title-Quiet :
    (id : ℕ) (w t h : String) (db : Db) → Quiet db (confirm_task_title_update id w t h db).1
confirm_title-Quiet id w t h db =
    confirm_task_title_update_cases (λ x. Quiet db x.1) id w t h db (λ _. Quiet-refl db)
      λ r b f l _ _. held-Quiet w id r _ db _ f (title_lease_held w t h r l) refl refl refl refl

pub fail_title-Quiet :
    (id : ℕ) (w t h : String) (s : OutboxState) (e : String) (db : Db)
    → Quiet db (fail_task_title_update id w t h s e db).1
fail_title-Quiet id w t h s e db =
    fail_task_title_update_cases (λ x. Quiet db x.1) id w t h s e db (λ _. Quiet-refl db)
      λ r b _ f l _ _. held-Quiet w id r _ db _ f (title_lease_held w t h r l) refl refl refl refl

-- A row that is rewritten only in a state that is not closed.
open-Evolves :
    (r q : Row)
    → is_closed r.state ≡ false
    → q.turn_id ≡ r.turn_id
    → q.attempt_count ≡ r.attempt_count
    → Evolves r q
open-Evolves r q o t n = record {
  turn = t;
  attempts = n;
  frozen = λ c. absurd (false≢true (sym o ∙ c));
}

unknown-open : (s : OutboxState) → is_unknown s ≡ true → is_closed s ≡ false
unfolding is_unknown is_closed
unknown-open s h = ground arith

pub waiting-open : (s : OutboxState) → is_waiting s ≡ true → is_closed s ≡ false
unfolding is_waiting is_closed
waiting-open s h = ground arith

settle-Quiet :
    (id : ℕ) (f : Row → Row) (db : Db)
    → ((r : Row) → ((f r).turn_id ≡ r.turn_id) × ((f r).attempt_count ≡ r.attempt_count))
    → Quiet db (settle_unknown id f db)
settle-Quiet id f db same = elim (Option-cases (db.rows id)) [
  | inl e ↦ rw (e, settle_unknown) (Quiet-refl db)
  | inr (r, e) ↦ elim (Bool-cases (is_unknown r.state)) [
    | inr other ↦ rw (e, other, settle_unknown) (Quiet-refl db)
    | inl u ↦
        rw (e, u, settle_unknown)
          (record {
            rows =
                put_row-Evolves db.rows id r (f r) e
                  (open-Evolves r (f r) (unknown-open r.state u) (same r).0 (same r).1);
            next_id = refl;
          })
  ]
]

pub indeterminate-Quiet : (id : ℕ) (c : String) (db : Db) → Quiet db (mark_indeterminate id c db)
unfolding mark_indeterminate
indeterminate-Quiet id c db = settle-Quiet id _ db λ r. (refl, refl)

pub retry_uuid-Quiet : (id now : ℕ) (db : Db) → Quiet db (retry_with_same_uuid id now db)
unfolding retry_with_same_uuid
retry_uuid-Quiet id now db = settle-Quiet id _ db λ r. (refl, refl)

pub matched-Quiet : (id : ℕ) (m : String) (db : Db) → Quiet db (confirm_match id m db)
unfolding confirm_match
matched-Quiet id m db = settle-Quiet id _ db λ r. (refl, refl)

suppress-Evolves :
    (picked : ℕ → Row → Bool) (c : String) (db : Db) (i : ℕ) (o : Option Row)
    → db.rows i ≡ o
    → Evolves? o ((suppress_waiting picked c db).rows i)
unfolding suppress_waiting
suppress-Evolves picked c db i none e = rw e tt
suppress-Evolves picked c db i (some r) e = elim (Bool-cases (picked i r && is_waiting r.state)) [
  | inl h ↦
      rw (e, h, suppress_waiting)
        (open-Evolves r _ (waiting-open r.state (and_right _ _ h)) refl refl)
  | inr h ↦ rw (e, h, suppress_waiting) (Evolves?-refl (some r))
]

pub suppress-Quiet :
    (picked : ℕ → Row → Bool) (c : String) (db : Db) → Quiet db (suppress_waiting picked c db)
suppress-Quiet picked c db = record {
  rows = λ i. suppress-Evolves picked c db i (db.rows i) refl;
  next_id = unfold suppress_waiting in refl;
}

pub expire-Evolves : (now : ℕ) (r : Row) → Evolves r (expire now r)
unfolding expire
expire-Evolves now r = elim (Bool-cases (is_leased r.state && is_overdue r now)) [
  | inl h ↦ rw (h, expire) (open-Evolves r _ (leased-open r.state (and_left _ _ h)) refl refl)
  | inr h ↦ rw (h, expire) (record { turn = refl; attempts = refl; frozen = λ _. refl })
]

pub expire_all-Evolves :
    (now : ℕ) (rows : Rows Row) (i : ℕ) → Evolves? (rows i) (expire_all now rows i)
expire_all-Evolves now rows i = on (rows i)
  where
    on : (o : Option Row) → Evolves? o (elim o [ none ↦ none | some r ↦ some (expire now r) ])
    on none = tt
    on (some r) = expire-Evolves now r
