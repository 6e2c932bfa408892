-- ===== src/Outbox/Order.antt =====
-- The messages of one turn reach the provider in the order in which they were queued.
use mathlib.Core.Bool.{false≢true}
use codex_feishu.Prelude.{
  ℕ, suc, ◌≤◌, ◌<◌, String, ◌≡◌, ◌≢◌, refl, sym, ap, subst, ◌∙◌, true, Option, none, some, List,
  Rows, put_row, put_row_cases, arith, ◌⊎◌, inl, inr,
}
use codex_feishu.Outbox.{Row, Db, is_closed}
use codex_feishu.Outbox.Queue.{
  Message, new_row, same_turn, expire_all, leased_row, lease_outbox, enqueue_provider_message,
}
use codex_feishu.Outbox.Uploads.{Serializer}
use codex_feishu.Outbox.Selection.{IsBest}
use codex_feishu.Outbox.Leasing.{
  LeaseOutcome, ready_waiting, lease_outbox_cases, enqueue_cases, unblocked,
}
use codex_feishu.Outbox.Evolution.{
  waiting-open, Evolves, Evolves?, Quiet, expire_all-Evolves, finish-Quiet, suppress-Quiet,
  indeterminate-Quiet, retry_uuid-Quiet, matched-Quiet, attach-Quiet, read_image-Quiet,
  read_file-Quiet, read_rich-Quiet, stage_image-Quiet, stage_file-Quiet, stage_rich-Quiet,
  confirm_title-Quiet, fail_title-Quiet,
}
use codex_feishu.Outbox.Steps.{
  Step, enqueue, lease, finish, suppress, indeterminate, retry_uuid, matched, attach_image,
  read_image, read_file, read_rich, stage_image, stage_file, stage_rich, confirm_title, fail_title,
  step, run, run_induction,
}

-- Identifiers are given out in order, and a row that was ever leased comes after closed rows only,
-- among those of its turn.
pub record InOrder (rows : Rows Row) (next_id : ℕ) : Type 0 where
  pub fresh : (i : ℕ) → next_id ≤ i → rows i ≡ none
  pub ordered :
      (i j : ℕ) (a b : Row)
      → i < j
      → rows i ≡ some a
      → rows j ≡ some b
      → same_turn a b ≡ true
      → 0 < b.attempt_count
      → is_closed a.state ≡ true

before : (o : Option Row) (q : Row) → Evolves? o (some q) → (p : Row) × (o ≡ some p) × Evolves p q
before none q h = absurd h
before (some p) q h = (p, refl, h)

vanishes : (o p : Option Row) → Evolves? o p → o ≡ none → p ≡ none
vanishes none none h e = refl
vanishes none (some q) h e = absurd h
vanishes (some r) p h e = cc

evolve-InOrder :
    (rows after : Rows Row) (next_id : ℕ)
    → ((i : ℕ) → Evolves? (rows i) (after i))
    → InOrder rows next_id
    → InOrder after next_id
evolve-InOrder rows after next_id v h = record {
  fresh = λ i le. vanishes (rows i) (after i) (v i) (h.fresh i le);
  ordered = λ i j a b lt e f s n.
      let (p, ep, vp) = before (rows i) a (subst (Evolves? (rows i)) e (v i)) in
      let (q, eq, vq) = before (rows j) b (subst (Evolves? (rows j)) f (v j)) in
      let c : is_closed p.state ≡ true =
        h.ordered i j p q lt ep eq (rw (← vp.turn, ← vq.turn) s) (rw (← vq.attempts) n) in
      rw (vp.frozen c) c;
}

-- The row that `lease_outbox` chooses is leased.
lease_row-InOrder :
    (rows : Rows Row) (next_id now k : ℕ) (b : Row) (w : String) (until : ℕ)
    → IsBest rows now next_id k b
    → InOrder rows next_id
    → InOrder (put_row k (leased_row w until now b) rows) next_id
unfolding leased_row
lease_row-InOrder rows next_id now k b w until best h = record {
  fresh = λ i le. ground (arith, best.in_range, h.fresh i le);
  ordered = λ i j a c lt e f s n.
      order i j a c lt (put_row_cases k i _ a rows e) (put_row_cases k j _ c rows f) s n;
}
  where
    order :
        (i j : ℕ) (a c : Row)
        → i < j
        → ((k ≡ i) × (leased_row w until now b ≡ a)) ⊎ ((k ≢ i) × (rows i ≡ some a))
        → ((k ≡ j) × (leased_row w until now b ≡ c)) ⊎ ((k ≢ j) × (rows j ≡ some c))
        → same_turn a c ≡ true
        → 0 < c.attempt_count
        → is_closed a.state ≡ true
    order i j a c lt (inl (p, x)) (inl (q, y)) s n = absurd (omega arith)
    order i j a c lt (inl (p, x)) (inr (q, y)) s n = absurd (
        false≢true (
          sym (waiting-open b.state (ready_waiting rows now k b best.ready))
          ∙ h.ordered k j b c (rw p lt) best.stored y (subst (λ z. same_turn z c ≡ true) (sym x) s)
              n))
    order i j a c lt (inr (p, x)) (inl (q, y)) s n =
        unblocked rows now k b best.ready i a (rw q lt) x
          (subst (λ z. same_turn a z ≡ true) (sym y) s)
    order i j a c lt (inr (p, x)) (inr (q, y)) s n = h.ordered i j a c lt x y s n

enqueue-InOrder :
    (m : Message) (now : ℕ) (db : Db)
    → InOrder db.rows db.next_id
    → InOrder (put_row db.next_id (new_row m now) db.rows) (suc db.next_id)
unfolding new_row
enqueue-InOrder m now db h = record {
  fresh = λ i le. ground (arith, h.fresh i);
  ordered = λ i j a c lt e f s n.
      order i j a c lt (put_row_cases db.next_id i _ a db.rows e)
        (put_row_cases db.next_id j _ c db.rows f) s n;
}
  where
    order :
        (i j : ℕ) (a c : Row)
        → i < j
        → ((db.next_id ≡ i) × (new_row m now ≡ a)) ⊎ ((db.next_id ≢ i) × (db.rows i ≡ some a))
        → ((db.next_id ≡ j) × (new_row m now ≡ c)) ⊎ ((db.next_id ≢ j) × (db.rows j ≡ some c))
        → same_turn a c ≡ true
        → 0 < c.attempt_count
        → is_closed a.state ≡ true
    order i j a c lt u (inl (q, y)) s n =
        absurd (omega (arith, ap (λ (r : Row). r.attempt_count) y))
    order i j a c lt (inl (p, x)) (inr (q, y)) s n = cc (h.fresh j (omega arith))
    order i j a c lt (inr (p, x)) (inr (q, y)) s n = h.ordered i j a c lt x y s n

abbrev pub InOrderDb : Db → Type 0
InOrderDb db = InOrder db.rows db.next_id

Quiet-InOrder : (db after : Db) → Quiet db after → InOrderDb db → InOrderDb after
Quiet-InOrder db after q h = rw q.next_id (evolve-InOrder db.rows after.rows db.next_id q.rows h)

outcome-InOrder :
    (w : String) (until now : ℕ) (db : Db)
    → InOrderDb db
    → LeaseOutcome w until now db
    → InOrderDb (lease_outbox w until now db).1
outcome-InOrder w until now db h (inl (_, e)) =
    rw e (evolve-InOrder db.rows _ db.next_id (expire_all-Evolves now db.rows) h)
outcome-InOrder w until now db h (inr (k, b, best, e)) = rw e (
    lease_row-InOrder (expire_all now db.rows) db.next_id now k b w until best
      (evolve-InOrder db.rows _ db.next_id (expire_all-Evolves now db.rows) h))

lease-InOrder :
    (w : String) (until now : ℕ) (db : Db)
    → InOrderDb db
    → InOrderDb (lease_outbox w until now db).1
lease-InOrder w until now db h = elim (lease_outbox_cases w until now db) [
  | inl o ↦ outcome-InOrder w until now db h o
  | inr same ↦ rw same h
]

enqueue_message-InOrder :
    (m : Message) (now : ℕ) (db : Db)
    → InOrderDb db
    → InOrderDb (enqueue_provider_message m now db).1
enqueue_message-InOrder m now db h =
    enqueue_cases InOrderDb m now db h λ _ _ _. enqueue-InOrder m now db h

module _ (z : Serializer) where
  pub step-InOrder : (s : Step) (db : Db) → InOrderDb db → InOrderDb (step z s db)
  unfolding step
  step-InOrder (enqueue m now) db h = enqueue_message-InOrder m now db h
  step-InOrder (lease w until now) db h = lease-InOrder w until now db h
  step-InOrder (finish id w s p e t) db h = Quiet-InOrder db _ (finish-Quiet id w s p e t db) h
  step-InOrder (suppress picked c) db h = Quiet-InOrder db _ (suppress-Quiet picked c db) h
  step-InOrder (indeterminate id c) db h = Quiet-InOrder db _ (indeterminate-Quiet id c db) h
  step-InOrder (retry_uuid id now) db h = Quiet-InOrder db _ (retry_uuid-Quiet id now db) h
  step-InOrder (matched id m) db h = Quiet-InOrder db _ (matched-Quiet id m db) h
  step-InOrder (attach_image id p n t c k) db h =
      Quiet-InOrder db _ (attach-Quiet id p n t c k db) h
  step-InOrder (read_image id w) db h = Quiet-InOrder db _ (read_image-Quiet id w db) h
  step-InOrder (read_file id w) db h = Quiet-InOrder db _ (read_file-Quiet id w db) h
  step-InOrder (read_rich id w) db h = Quiet-InOrder db _ (read_rich-Quiet id w db) h
  step-InOrder (stage_image id w k now) db h =
      Quiet-InOrder db _ (stage_image-Quiet z id w k now db) h
  step-InOrder (stage_file id w k now) db h =
      Quiet-InOrder db _ (stage_file-Quiet z id w k now db) h
  step-InOrder (stage_rich id w n k now) db h =
      Quiet-InOrder db _ (stage_rich-Quiet id w n k now db) h
  step-InOrder (confirm_title id w t k) db h =
      Quiet-InOrder db _ (confirm_title-Quiet id w t k db) h
  step-InOrder (fail_title id w t k s e) db h =
      Quiet-InOrder db _ (fail_title-Quiet id w t k s e db) h

  -- From a database in which it holds, whatever the workers do: a row of the outbox that was ever
  -- leased comes after closed rows only, among those of its turn. So no message of a turn is handed
  -- to the provider while an earlier one of that turn can still be sent.
  pub run-InOrder : (db : Db) (ss : List Step) → InOrderDb db → InOrderDb (run z db ss)
  run-InOrder = run_induction z InOrderDb step-InOrder
