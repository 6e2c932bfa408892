-- ===== src/Outbox/Cases.antt =====
-- The two outcomes of each method: nothing is written, or all of its statements found their row.
use codex_feishu.Prelude.{
  ℕ, String, ◌≡◌, true, not, ◌&&◌, Option, some, List, put, put_row, str_eq, holds_str, is_none,
  ltb, leb, length, inl, inr, Bool-cases, Option-cases, if◌then◌else◌,
}
use codex_feishu.Exec.{Error, Result, Done, ok, err}
use codex_feishu.Outbox.{OutboxState, Row, Attachment, TitleBinding, Db, is_pending, is_leased_by}
use codex_feishu.Outbox.Queue.{is_outcome, finished_row, finish_outbox}
use codex_feishu.Outbox.Uploads.{
  Serializer, max_image_bytes, new_image, count_upload, next_phase, with_body, with_key, awaits_key,
  update_rich, put_rich, attach_outbound_image, image_payload_for_lease, file_payload_for_lease,
  stage_uploaded_image, stage_uploaded_file, stage_uploaded_rich_image,
}
use codex_feishu.Outbox.Titles.{
  is_title_lease, is_title_failure, confirmed_title, confirmed_binding, failed_title,
  failed_binding, confirm_task_title_update, fail_task_title_update,
}

pub finish_outbox_cases {ℓ} :
    (P : Result Done × Db → Type ℓ) (id : ℕ) (w : String) (s : OutboxState) (p e : Option String)
    (t : Option ℕ) (db : Db)
    → ((e : Error) → P (err e, db))
    → ((r : Row)
        → is_outcome s ≡ true
        → db.rows id ≡ some r
        → is_leased_by w r ≡ true
        → P (ok tt, record db { rows = put_row id (finished_row s p e t r) db.rows }))
    → P (finish_outbox id w s p e t db)
unfolding finish_outbox
finish_outbox_cases P id w s p e t db failed moved = elim (Bool-cases (is_outcome s)) [
  | inr x0 ↦ rw (x0, finish_outbox) (failed _)
  | inl h0 ↦ elim (Option-cases (db.rows id)) [
    | inl x1 ↦ rw (h0, x1, finish_outbox) (failed _)
    | inr (r, h1) ↦ elim (Bool-cases (is_leased_by w r)) [
      | inr x2 ↦ rw (h0, h1, x2, finish_outbox) (failed _)
      | inl h2 ↦ rw (h0, h1, h2, finish_outbox) (moved r h0 h1 h2)
    ]
  ]
]

pub attach_outbound_image_cases {ℓ} :
    (P : Result Done × Db → Type ℓ) (id : ℕ) (p n m : String) (c : List ℕ) (h : String) (db : Db)
    → ((e : Error) → P (err e, db))
    → ((r : Row)
        → ltb 0 (length c) && leb (length c) max_image_bytes ≡ true
        → db.rows id ≡ some r
        → str_eq r.message_type "image" && is_pending r.state ≡ true
        → is_none (db.images id) ≡ true
        → P (ok tt, record db { images = put_row id (new_image p n m c h) db.images }))
    → P (attach_outbound_image id p n m c h db)
unfolding attach_outbound_image
attach_outbound_image_cases P id p n m c h db failed moved =
    elim (Bool-cases (ltb 0 (length c) && leb (length c) max_image_bytes)) [
      | inr x0 ↦ rw (x0, attach_outbound_image) (failed _)
      | inl h0 ↦ elim (Option-cases (db.rows id)) [
        | inl x1 ↦ rw (h0, x1, attach_outbound_image) (failed _)
        | inr (r, h1) ↦ elim (Bool-cases (str_eq r.message_type "image" && is_pending r.state)) [
          | inr x2 ↦ rw (h0, h1, x2, attach_outbound_image) (failed _)
          | inl h2 ↦ elim (Bool-cases (is_none (db.images id))) [
            | inr x3 ↦ rw (h0, h1, h2, x3, attach_outbound_image) (failed _)
            | inl h3 ↦ rw (h0, h1, h2, h3, attach_outbound_image) (moved r h0 h1 h2 h3)
          ]
        ]
      ]
    ]

pub image_payload_for_lease_cases {ℓ} :
    (P : Result Attachment × Db → Type ℓ) (id : ℕ) (w : String) (db : Db)
    → ((e : Error) → P (err e, db))
    → ((a : Attachment)
        → (r : Row) → db.images id ≡ some a
        → db.rows id ≡ some r
        → is_leased_by w r && str_eq r.message_type "image" ≡ true
        → P (
          ok a,
          if is_none a.key
              then record db { images = put_row id (count_upload a) db.images }
              else db,
        ))
    → P (image_payload_for_lease id w db)
unfolding image_payload_for_lease
image_payload_for_lease_cases P id w db failed moved = elim (Option-cases (db.images id)) [
  | inl x0 ↦ rw (x0, image_payload_for_lease) (failed _)
  | inr (a, h0) ↦ elim (Option-cases (db.rows id)) [
    | inl x1 ↦ rw (h0, x1, image_payload_for_lease) (failed _)
    | inr (r, h1) ↦ elim (Bool-cases (is_leased_by w r && str_eq r.message_type "image")) [
      | inr x2 ↦ rw (h0, h1, x2, image_payload_for_lease) (failed _)
      | inl h2 ↦ rw (h0, h1, h2, image_payload_for_lease) (moved a r h0 h1 h2)
    ]
  ]
]

pub file_payload_for_lease_cases {ℓ} :
    (P : Result Attachment × Db → Type ℓ) (id : ℕ) (w : String) (db : Db)
    → ((e : Error) → P (err e, db))
    → ((a : Attachment)
        → (r : Row) → db.files id ≡ some a
        → db.rows id ≡ some r
        → is_leased_by w r ≡ true
        → P (
          ok a,
          if is_none a.key then record db { files = put_row id (count_upload a) db.files } else db,
        ))
    → P (file_payload_for_lease id w db)
unfolding file_payload_for_lease
file_payload_for_lease_cases P id w db failed moved = elim (Option-cases (db.files id)) [
  | inl x0 ↦ rw (x0, file_payload_for_lease) (failed _)
  | inr (a, h0) ↦ elim (Option-cases (db.rows id)) [
    | inl x1 ↦ rw (h0, x1, file_payload_for_lease) (failed _)
    | inr (r, h1) ↦ elim (Bool-cases (is_leased_by w r)) [
      | inr x2 ↦ rw (h0, h1, x2, file_payload_for_lease) (failed _)
      | inl h2 ↦ rw (h0, h1, h2, file_payload_for_lease) (moved a r h0 h1 h2)
    ]
  ]
]

pub stage_uploaded_image_cases {ℓ} :
    (P : Result Done × Db → Type ℓ) (z : Serializer) (id : ℕ) (w k : String) (now : ℕ) (db : Db)
    → ((e : Error) → P (err e, db))
    → ((a : Attachment)
        → (r : Row) → not (str_eq k "") ≡ true
        → db.images id ≡ some a
        → is_none a.key ≡ true
        → db.rows id ≡ some r
        → is_leased_by w r && str_eq r.message_type "image" ≡ true
        → P (
          ok tt,
          record db {
            images = put_row id (with_key k a) db.images;
            rows =
                put_row id
                  (next_phase now
                    (with_body (z.dump_image_body k) (z.sha256 (z.dump_image_body k)) r))
                  db.rows;
          },
        ))
    → P (stage_uploaded_image z id w k now db)
unfolding stage_uploaded_image
stage_uploaded_image_cases P z id w k now db failed moved = elim (Bool-cases (not (str_eq k ""))) [
  | inr x0 ↦ rw (x0, stage_uploaded_image) (failed _)
  | inl h0 ↦ elim (Option-cases (db.images id)) [
    | inl x1 ↦ rw (h0, x1, stage_uploaded_image) (failed _)
    | inr (a, h1) ↦ elim (Bool-cases (is_none a.key)) [
      | inr x2 ↦ rw (h0, h1, x2, stage_uploaded_image) (failed _)
      | inl h2 ↦ elim (Option-cases (db.rows id)) [
        | inl x3 ↦ rw (h0, h1, h2, x3, stage_uploaded_image) (failed _)
        | inr (r, h3) ↦ elim (Bool-cases (is_leased_by w r && str_eq r.message_type "image")) [
          | inr x4 ↦ rw (h0, h1, h2, h3, x4, stage_uploaded_image) (failed _)
          | inl h4 ↦ rw (h0, h1, h2, h3, h4, stage_uploaded_image) (moved a r h0 h1 h2 h3 h4)
        ]
      ]
    ]
  ]
]

pub stage_uploaded_file_cases {ℓ} :
    (P : Result Done × Db → Type ℓ) (z : Serializer) (id : ℕ) (w k : String) (now : ℕ) (db : Db)
    → ((e : Error) → P (err e, db))
    → ((a : Attachment)
        → (r : Row) → not (str_eq k "") ≡ true
        → db.files id ≡ some a
        → is_none a.key ≡ true
        → db.rows id ≡ some r
        → is_leased_by w r ≡ true
        → P (
          ok tt,
          record db {
            files = put_row id (with_key k a) db.files;
            rows =
                put_row id
                  (next_phase now (with_body (z.dump_file_body k) (z.sha256 (z.dump_file_key k)) r))
                  db.rows;
          },
        ))
    → P (stage_uploaded_file z id w k now db)
unfolding stage_uploaded_file
stage_uploaded_file_cases P z id w k now db failed moved = elim (Bool-cases (not (str_eq k ""))) [
  | inr x0 ↦ rw (x0, stage_uploaded_file) (failed _)
  | inl h0 ↦ elim (Option-cases (db.files id)) [
    | inl x1 ↦ rw (h0, x1, stage_uploaded_file) (failed _)
    | inr (a, h1) ↦ elim (Bool-cases (is_none a.key)) [
      | inr x2 ↦ rw (h0, h1, x2, stage_uploaded_file) (failed _)
      | inl h2 ↦ elim (Option-cases (db.rows id)) [
        | inl x3 ↦ rw (h0, h1, h2, x3, stage_uploaded_file) (failed _)
        | inr (r, h3) ↦ elim (Bool-cases (is_leased_by w r)) [
          | inr x4 ↦ rw (h0, h1, h2, h3, x4, stage_uploaded_file) (failed _)
          | inl h4 ↦ rw (h0, h1, h2, h3, h4, stage_uploaded_file) (moved a r h0 h1 h2 h3 h4)
        ]
      ]
    ]
  ]
]

pub stage_uploaded_rich_image_cases {ℓ} :
    (P : Result Done × Db → Type ℓ) (id : ℕ) (w : String) (n : ℕ) (k : String) (now : ℕ) (db : Db)
    → ((e : Error) → P (err e, db))
    → ((r : Row)
        → not (str_eq k "") ≡ true
        → awaits_key n (db.rich_images id) ≡ true
        → db.rows id ≡ some r
        → is_leased_by w r ≡ true
        → P (
          ok tt,
          put_rich id
              (update_rich n (with_key k) (db.rich_images id))
              (record db { rows = put_row id (next_phase now r) db.rows }),
        ))
    → P (stage_uploaded_rich_image id w n k now db)
unfolding stage_uploaded_rich_image
stage_uploaded_rich_image_cases P id w n k now db failed moved =
    elim (Bool-cases (not (str_eq k ""))) [
      | inr x0 ↦ rw (x0, stage_uploaded_rich_image) (failed _)
      | inl h0 ↦ elim (Bool-cases (awaits_key n (db.rich_images id))) [
        | inr x1 ↦ rw (h0, x1, stage_uploaded_rich_image) (failed _)
        | inl h1 ↦ elim (Option-cases (db.rows id)) [
          | inl x2 ↦ rw (h0, h1, x2, stage_uploaded_rich_image) (failed _)
          | inr (r, h2) ↦ elim (Bool-cases (is_leased_by w r)) [
            | inr x3 ↦ rw (h0, h1, h2, x3, stage_uploaded_rich_image) (failed _)
            | inl h3 ↦ rw (h0, h1, h2, h3, stage_uploaded_rich_image) (moved r h0 h1 h2 h3)
          ]
        ]
      ]
    ]

pub confirm_task_title_update_cases {ℓ} :
    (P : Result Done × Db → Type ℓ) (id : ℕ) (w t h : String) (db : Db)
    → ((e : Error) → P (err e, db))
    → ((r : Row)
        → (b : TitleBinding) → db.rows id ≡ some r
        → is_title_lease w t h r ≡ true
        → db.task_bindings t ≡ some b
        → holds_str b.pending_title_hash h ≡ true
        → P (
          ok tt,
          record db {
            rows = put_row id (confirmed_title r) db.rows;
            task_bindings = put t (confirmed_binding h r.marker b) db.task_bindings;
          },
        ))
    → P (confirm_task_title_update id w t h db)
unfolding confirm_task_title_update
confirm_task_title_update_cases P id w t h db failed moved = elim (Option-cases (db.rows id)) [
  | inl x0 ↦ rw (x0, confirm_task_title_update) (failed _)
  | inr (r, h0) ↦ elim (Bool-cases (is_title_lease w t h r)) [
    | inr x1 ↦ rw (h0, x1, confirm_task_title_update) (failed _)
    | inl h1 ↦ elim (Option-cases (db.task_bindings t)) [
      | inl x2 ↦ rw (h0, h1, x2, confirm_task_title_update) (failed _)
      | inr (b, h2) ↦ elim (Bool-cases (holds_str b.pending_title_hash h)) [
        | inr x3 ↦ rw (h0, h1, h2, x3, confirm_task_title_update) (failed _)
        | inl h3 ↦ rw (h0, h1, h2, h3, confirm_task_title_update) (moved r b h0 h1 h2 h3)
      ]
    ]
  ]
]

pub fail_task_title_update_cases {ℓ} :
    (P : Result Done × Db → Type ℓ) (id : ℕ) (w t h : String) (s : OutboxState) (e : String)
    (db : Db)
    → ((e : Error) → P (err e, db))
    → ((r : Row)
        → (b : TitleBinding) → is_title_failure s ≡ true
        → db.rows id ≡ some r
        → is_title_lease w t h r ≡ true
        → db.task_bindings t ≡ some b
        → holds_str b.pending_title_hash h ≡ true
        → P (
          ok tt,
          record db {
            rows = put_row id (failed_title s e r) db.rows;
            task_bindings = put t (failed_binding h e b) db.task_bindings;
          },
        ))
    → P (fail_task_title_update id w t h s e db)
unfolding fail_task_title_update
fail_task_title_update_cases P id w t h s e db failed moved =
    elim (Bool-cases (is_title_failure s)) [
      | inr x0 ↦ rw (x0, fail_task_title_update) (failed _)
      | inl h0 ↦ elim (Option-cases (db.rows id)) [
        | inl x1 ↦ rw (h0, x1, fail_task_title_update) (failed _)
        | inr (r, h1) ↦ elim (Bool-cases (is_title_lease w t h r)) [
          | inr x2 ↦ rw (h0, h1, x2, fail_task_title_update) (failed _)
          | inl h2 ↦ elim (Option-cases (db.task_bindings t)) [
            | inl x3 ↦ rw (h0, h1, h2, x3, fail_task_title_update) (failed _)
            | inr (b, h3) ↦ elim (Bool-cases (holds_str b.pending_title_hash h)) [
              | inr x4 ↦ rw (h0, h1, h2, h3, x4, fail_task_title_update) (failed _)
              | inl h4 ↦ rw (h0, h1, h2, h3, h4, fail_task_title_update) (moved r b h0 h1 h2 h3 h4)
            ]
          ]
        ]
      ]
    ]
