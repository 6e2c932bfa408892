-- ===== src/Outbox/Closed.antt =====
-- A row of the outbox that is closed stays as it is.
use mathlib.Core.Bool.{false≢true}
use codex_feishu.Prelude.{
  ℕ, String, ◌≡◌, sym, ap, ◌∙◌, true, Option, none, some, List, arith, inl, inr, ◌==◌, Bool-cases,
  ==_iff,
}
use codex_feishu.Outbox.{Row, Db, is_closed}
use codex_feishu.Outbox.Queue.{Message, expire_all, lease_outbox, enqueue_provider_message}
use codex_feishu.Outbox.Uploads.{Serializer}
use codex_feishu.Outbox.Leasing.{ready_waiting, lease_outbox_cases, enqueue_cases}
use codex_feishu.Outbox.Order.{InOrderDb, step-InOrder}
use codex_feishu.Outbox.Evolution.{
  waiting-open, Evolves?, Quiet, expire_all-Evolves, finish-Quiet, suppress-Quiet,
  indeterminate-Quiet, retry_uuid-Quiet, matched-Quiet, attach-Quiet, read_image-Quiet,
  read_file-Quiet, read_rich-Quiet, stage_image-Quiet, stage_file-Quiet, stage_rich-Quiet,
  confirm_title-Quiet, fail_title-Quiet,
}
use codex_feishu.Outbox.Steps.{
  Step, enqueue, lease, finish, suppress, indeterminate, retry_uuid, matched, attach_image,
  read_image, read_file, read_rich, stage_image, stage_file, stage_rich, confirm_title, fail_title,
  step, run, run_induction,
}

evolve-closed :
    (o p : Option Row) (r : Row) → Evolves? o p → is_closed r.state ≡ true → o ≡ some r → p ≡ some r
evolve-closed none p r v c e = cc
evolve-closed (some a) none r v c e = absurd v
evolve-closed (some a) (some b) r v c e = let q : a ≡ r = cc in ap some (v.frozen (rw q c) ∙ q)

module _ (id : ℕ) (r : Row) (closed : is_closed r.state ≡ true) where
  Quiet-closed : (db after : Db) → Quiet db after → db.rows id ≡ some r → after.rows id ≡ some r
  Quiet-closed db after q e = evolve-closed (db.rows id) (after.rows id) r (q.rows id) closed e

  lease-closed :
      (w : String) (until now : ℕ) (db : Db)
      → db.rows id ≡ some r
      → (lease_outbox w until now db).1.rows id ≡ some r
  lease-closed w until now db e = elim (lease_outbox_cases w until now db) [
    | inr same ↦ rw same e
    | inl (inl (_, f)) ↦ rw f (expired)
    | inl (inr (k, b, best, f)) ↦ rw f (elim (Bool-cases (k == id)) [
      | inr other ↦ rw other expired
      | inl same ↦
          let stored : some b ≡ some r = sym best.stored ∙ rw ((==_iff k id).0 same) expired in
          absurd (
            false≢true (
              sym (waiting-open b.state (ready_waiting _ now k b best.ready))
              ∙ rw (the_row b stored) closed))
    ])
  ]
    where
      expired : expire_all now db.rows id ≡ some r
      expired = evolve-closed (db.rows id) _ r (expire_all-Evolves now db.rows id) closed e

      the_row : (b : Row) → some b ≡ some r → b ≡ r
      the_row b s = cc

  enqueue-closed :
      (m : Message) (now : ℕ) (db : Db)
      → InOrderDb db
      → db.rows id ≡ some r
      → (enqueue_provider_message m now db).1.rows id ≡ some r
  enqueue-closed m now db h e =
      enqueue_cases (λ x. x.rows id ≡ some r) m now db e
        λ _ _ _. elim (Bool-cases (db.next_id == id)) [
          | inr other ↦ rw other e
          | inl same ↦ cc (e, h.fresh id (ground arith))
        ]

  module _ (z : Serializer) where
    step-closed :
        (s : Step) (db : Db)
        → InOrderDb db × (db.rows id ≡ some r)
        → InOrderDb (step z s db) × ((step z s db).rows id ≡ some r)
    unfolding step
    step-closed s db (h, e) = (step-InOrder z s db h, kept s)
      where
        kept : (s : Step) → (step z s db).rows id ≡ some r
        kept (enqueue m now) = enqueue-closed m now db h e
        kept (lease w until now) = lease-closed w until now db e
        kept (finish i w s p x t) = Quiet-closed db _ (finish-Quiet i w s p x t db) e
        kept (suppress picked c) = Quiet-closed db _ (suppress-Quiet picked c db) e
        kept (indeterminate i c) = Quiet-closed db _ (indeterminate-Quiet i c db) e
        kept (retry_uuid i now) = Quiet-closed db _ (retry_uuid-Quiet i now db) e
        kept (matched i m) = Quiet-closed db _ (matched-Quiet i m db) e
        kept (attach_image i p n t c k) = Quiet-closed db _ (attach-Quiet i p n t c k db) e
        kept (read_image i w) = Quiet-closed db _ (read_image-Quiet i w db) e
        kept (read_file i w) = Quiet-closed db _ (read_file-Quiet i w db) e
        kept (read_rich i w) = Quiet-closed db _ (read_rich-Quiet i w db) e
        kept (stage_image i w k now) = Quiet-closed db _ (stage_image-Quiet z i w k now db) e
        kept (stage_file i w k now) = Quiet-closed db _ (stage_file-Quiet z i w k now db) e
        kept (stage_rich i w n k now) = Quiet-closed db _ (stage_rich-Quiet i w n k now db) e
        kept (confirm_title i w t k) = Quiet-closed db _ (confirm_title-Quiet i w t k db) e
        kept (fail_title i w t k s x) = Quiet-closed db _ (fail_title-Quiet i w t k s x db) e

-- From a database in the order of `InOrderDb`, whatever the workers do: a row of the outbox that is
-- confirmed, permanent, indeterminate, blocked by policy or undelivered keeps all of its columns.
-- So a confirmed message is never sent again, and keeps the identifier that the provider gave it.
pub run-closed :
    (z : Serializer) (db : Db) (ss : List Step) (id : ℕ) (r : Row)
    → InOrderDb db
    → db.rows id ≡ some r
    → is_closed r.state ≡ true
    → (run z db ss).rows id ≡ some r
run-closed z db ss id r h e closed =
    (run_induction z (λ x. InOrderDb x × (x.rows id ≡ some r)) (step-closed id r closed z) db ss
      (h, e)).1
