-- ===== src/Outbox/Steps.antt =====
-- Any sequence of the operations on the outbox, by any workers, each of them failing or not. The
-- writing statements of an operation stand in one transaction, so operations of different threads
-- are sequences of these steps.
use codex_feishu.Prelude.{ℕ, String, Bool, Option, List, [], ◌∷◌}
use codex_feishu.Outbox.{OutboxState, Row, Db}
use codex_feishu.Outbox.Queue.{
  Message, enqueue_provider_message, lease_outbox, finish_outbox, suppress_waiting,
  mark_indeterminate, retry_with_same_uuid, confirm_match,
}
use codex_feishu.Outbox.Uploads.{
  Serializer, attach_outbound_image, image_payload_for_lease, file_payload_for_lease,
  stage_uploaded_image, stage_uploaded_file, rich_image_payload_for_lease,
  stage_uploaded_rich_image,
}
use codex_feishu.Outbox.Titles.{confirm_task_title_update, fail_task_title_update}

pub data Step : Type 0 where
  enqueue : Message → ℕ → Step
  lease : String → ℕ → ℕ → Step
  finish : ℕ → String → OutboxState → Option String → Option String → Option ℕ → Step
  suppress : (ℕ → Row → Bool) → String → Step
  indeterminate : ℕ → String → Step
  retry_uuid : ℕ → ℕ → Step
  matched : ℕ → String → Step
  attach_image : ℕ → String → String → String → List ℕ → String → Step
  read_image read_file read_rich : ℕ → String → Step
  stage_image stage_file : ℕ → String → String → ℕ → Step
  stage_rich : ℕ → String → ℕ → String → ℕ → Step
  confirm_title : ℕ → String → String → String → Step
  fail_title : ℕ → String → String → String → OutboxState → String → Step

module _ (z : Serializer) where
  unfoldable pub step : Step → Db → Db
  step (enqueue m now) db = (enqueue_provider_message m now db).1
  step (lease w until now) db = (lease_outbox w until now db).1
  step (finish id w s p e t) db = (finish_outbox id w s p e t db).1
  step (suppress picked code) db = suppress_waiting picked code db
  step (indeterminate id reason) db = mark_indeterminate id reason db
  step (retry_uuid id now) db = retry_with_same_uuid id now db
  step (matched id message) db = confirm_match id message db
  step (attach_image id p n t c h) db = (attach_outbound_image id p n t c h db).1
  step (read_image id w) db = (image_payload_for_lease id w db).1
  step (read_file id w) db = (file_payload_for_lease id w db).1
  step (read_rich id w) db = (rich_image_payload_for_lease id w db).1
  step (stage_image id w k now) db = (stage_uploaded_image z id w k now db).1
  step (stage_file id w k now) db = (stage_uploaded_file z id w k now db).1
  step (stage_rich id w n k now) db = (stage_uploaded_rich_image id w n k now db).1
  step (confirm_title id w t h) db = (confirm_task_title_update id w t h db).1
  step (fail_title id w t h s e) db = (fail_task_title_update id w t h s e db).1

  unfoldable pub run : Db → List Step → Db
  run db [] = db
  run db (s ∷ ss) = run (step s db) ss

  -- What every step keeps, every sequence of steps keeps.
  pub run_induction {ℓ} :
      (P : Db → Type ℓ)
      → ((s : Step) (db : Db) → P db → P (step s db))
      → (db : Db) (ss : List Step) → P db
      → P (run db ss)
  unfolding run
  run_induction P kept db [] h = h
  run_induction P kept db (s ∷ ss) h = run_induction P kept (step s db) ss (kept s db h)
