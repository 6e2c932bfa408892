-- ===== src/Outbox/Atomicity.antt =====
-- A method that raises has written nothing, and one that returns has made all of its writes.
use codex_feishu.Prelude.{
  ℕ, String, ◌≡◌, refl, true, Option, some, put, put_row, holds_str, is_none, inl, inr, ◌⊎◌,
  and_left,
}
use codex_feishu.Exec.{Error, Result, Done, ok, err}
use codex_feishu.Outbox.{OutboxState, Row, Attachment, TitleBinding, Db, is_leased_by}
use codex_feishu.Outbox.Queue.{is_outcome, finished_row, finish_outbox}
use codex_feishu.Outbox.Uploads.{Serializer, with_key, next_phase, with_body, stage_uploaded_image}
use codex_feishu.Outbox.Titles.{
  is_title_lease, confirmed_title, confirmed_binding, confirm_task_title_update,
}
use codex_feishu.Outbox.Cases.{
  finish_outbox_cases, stage_uploaded_image_cases, confirm_task_title_update_cases,
}

-- Nothing was written, and the method raised.
abbrev pub Raised : Db → Result Done × Db → Type 0
Raised db r = (e : Error) × (r ≡ (err e, db))

-- `finish_outbox` either raises and writes nothing, or the row was leased to the caller and has the
-- outcome now, without lease.
pub finish_outbox-owner :
    (id : ℕ) (w : String) (s : OutboxState) (p e : Option String) (t : Option ℕ) (db : Db)
    → Raised db (finish_outbox id w s p e t db)
      ⊎ ((r : Row) × (db.rows id ≡ some r)
          × (is_leased_by w r ≡ true)
          × (is_outcome s ≡ true)
          × (finish_outbox id w s p e t db
              ≡ (ok tt, record db { rows = put_row id (finished_row s p e t r) db.rows })))
finish_outbox-owner id w s p e t db =
    finish_outbox_cases
      (λ x.
        Raised db x
        ⊎ ((r : Row) × (db.rows id ≡ some r)
            × (is_leased_by w r ≡ true)
            × (is_outcome s ≡ true)
            × (x ≡ (ok tt, record db { rows = put_row id (finished_row s p e t r) db.rows }))))
      id w s p e t db (λ x. inl (x, refl)) λ r o f h. inr (r, f, h, o, refl)

-- Both writes of a title's confirmation, from the rows as they were.
abbrev pub TitleConfirmed : ℕ → String → String → String → Db → Result Done × Db → Type 0
TitleConfirmed id w t h db x =
    (r : Row) × (b : TitleBinding) × (db.rows id ≡ some r)
    × (is_title_lease w t h r ≡ true)
    × (db.task_bindings t ≡ some b)
    × (holds_str b.pending_title_hash h ≡ true)
    × (x ≡ (
      ok tt,
      record db {
        rows = put_row id (confirmed_title r) db.rows;
        task_bindings = put t (confirmed_binding h r.marker b) db.task_bindings;
      },
    ))

-- `confirm_task_title_update` is atomic: it raises and leaves the database as it was, or the row
-- was leased to the caller for this title, the title was pending, and both the row and the binding
-- are confirmed.
pub confirm_task_title_update-atomic :
    (id : ℕ) (w t h : String) (db : Db)
    → Raised db (confirm_task_title_update id w t h db)
      ⊎ TitleConfirmed id w t h db (confirm_task_title_update id w t h db)
confirm_task_title_update-atomic id w t h db =
    confirm_task_title_update_cases (λ x. Raised db x ⊎ TitleConfirmed id w t h db x) id w t h db
      (λ e. inl (e, refl)) λ r b f l g p. inr (r, b, f, l, g, p, refl)

-- Both writes of the staging of an image.
abbrev pub ImageStaged : Serializer → ℕ → String → String → ℕ → Db → Result Done × Db → Type 0
ImageStaged z id w k now db x =
    (a : Attachment) × (r : Row) × (db.images id ≡ some a)
    × (is_none a.key ≡ true)
    × (db.rows id ≡ some r)
    × (is_leased_by w r ≡ true)
    × (x ≡ (
      ok tt,
      record db {
        images = put_row id (with_key k a) db.images;
        rows =
            put_row id
              (next_phase now (with_body (z.dump_image_body k) (z.sha256 (z.dump_image_body k)) r))
              db.rows;
      },
    ))

-- `stage_uploaded_image` is atomic: it raises and leaves the database as it was, or no key was
-- recorded, the row was leased to the caller, and the key, the new body with its digest and the
-- release of the row are all written.
pub stage_uploaded_image-atomic :
    (z : Serializer) (id : ℕ) (w k : String) (now : ℕ) (db : Db)
    → Raised db (stage_uploaded_image z id w k now db)
      ⊎ ImageStaged z id w k now db (stage_uploaded_image z id w k now db)
stage_uploaded_image-atomic z id w k now db =
    stage_uploaded_image_cases (λ x. Raised db x ⊎ ImageStaged z id w k now db x) z id w k now db
      (λ e. inl (e, refl)) λ a r _ f n g h. inr (a, r, f, n, g, and_left _ _ h, refl)
