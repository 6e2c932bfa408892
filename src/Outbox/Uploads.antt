-- ===== src/Outbox/Uploads.antt =====
-- runtime_storage.py: attachments of an outbox row, and the staging of their provider keys. The
-- serialised bodies and their digests come from `json.dumps` and `sha256`, as parameters.
use codex_feishu.Prelude.{
  ℕ, ◌+◌, ◌*◌, String, Bool, false, not, ◌&&◌, ◌||◌, Option, none, some, List, [], ◌∷◌, put_row,
  length, str_eq, leb, ltb, ◌==◌, if◌then◌else◌, is_none,
}
use codex_feishu.Exec.{
  Exec, Done, ok, pure, require, write, get_state, or_raise, transaction, ◌>>=◌, ◌>>◌, value_error,
  integrity_error, lost_compare_and_swap,
}
use codex_feishu.Outbox.{
  OutboxState, Row, Attachment, RichImage, Db, is_pending, is_leased_by, release,
}

-- `json.dumps` of the two bodies that are staged, and of the object that the file digest is over.
pub record Serializer : Type 0 where
  pub sha256 : String → String
  pub dump_image_body : String → String
  pub dump_file_body : String → String
  pub dump_file_key : String → String

abbrev pub max_image_bytes : ℕ
max_image_bytes = 10 * 1024 * 1024

abbrev pub new_image : String → String → String → List ℕ → String → Attachment
new_image source_path file_name mime_type content content_hash = record {
  source_path = source_path;
  file_name = file_name;
  mime_type = mime_type;
  provider_file_type = none;
  content = content;
  content_hash = content_hash;
  key = none;
  upload_attempt_count = 0;
}

unfoldable pub attach_outbound_image : ℕ → String → String → String → List ℕ → String → Exec Db Done
attach_outbound_image outbox_id source_path file_name mime_type content content_hash = do
  require (ltb 0 (length content) && leb (length content) max_image_bytes) value_error
  db ← get_state
  r ← or_raise (db.rows outbox_id) lost_compare_and_swap
  require (str_eq r.message_type "image" && is_pending r.state) lost_compare_and_swap
  require (is_none (db.images outbox_id)) integrity_error
  write (λ s. record s {
    images =
        put_row outbox_id (new_image source_path file_name mime_type content content_hash) s.images;
  })

abbrev pub count_upload : Attachment → Attachment
count_upload a = record a { upload_attempt_count = a.upload_attempt_count + 1 }

-- The attachment is returned as it was read, before the attempt is counted.
unfoldable pub image_payload_for_lease : ℕ → String → Exec Db Attachment
image_payload_for_lease outbox_id instance_id = do
  db ← get_state
  image ← or_raise (db.images outbox_id) lost_compare_and_swap
  r ← or_raise (db.rows outbox_id) lost_compare_and_swap
  require (is_leased_by instance_id r && str_eq r.message_type "image") lost_compare_and_swap
  write (λ s.
      if is_none image.key
      then record s { images = put_row outbox_id (count_upload image) s.images }
      else s)
  pure image

unfoldable pub file_payload_for_lease : ℕ → String → Exec Db Attachment
file_payload_for_lease outbox_id instance_id = do
  db ← get_state
  file ← or_raise (db.files outbox_id) lost_compare_and_swap
  r ← or_raise (db.rows outbox_id) lost_compare_and_swap
  require (is_leased_by instance_id r) lost_compare_and_swap
  write (λ s.
      if is_none file.key
      then record s { files = put_row outbox_id (count_upload file) s.files }
      else s)
  pure file

-- The row of the next phase: due at once, without lease and without error.
abbrev pub next_phase : ℕ → Row → Row
next_phase now r =
    release
      (record r { state = OutboxState.retryable; next_attempt_at = now; last_error_code = none })

abbrev pub with_body : String → String → Row → Row
with_body body_json body_hash r = record r { body_json = body_json; body_hash = body_hash }

abbrev pub with_key : String → Attachment → Attachment
with_key key a = record a { key = some key }

module _ (serializer : Serializer) where
  unfoldable pub stage_uploaded_image : ℕ → String → String → ℕ → Exec Db Done
  stage_uploaded_image outbox_id instance_id image_key now = do
    require (not (str_eq image_key "")) value_error
    transaction (do
      db ← get_state
      image ← or_raise (db.images outbox_id) lost_compare_and_swap
      require (is_none image.key) lost_compare_and_swap
      write (λ s. record s { images = put_row outbox_id (with_key image_key image) s.images })
      r ← or_raise (db.rows outbox_id) lost_compare_and_swap
      require (is_leased_by instance_id r && str_eq r.message_type "image") lost_compare_and_swap
      write (λ s. record s {
        rows =
            put_row outbox_id
              (next_phase now (
                with_body (serializer.dump_image_body image_key)
                  (serializer.sha256 (serializer.dump_image_body image_key)) r))
              s.rows;
      }))

  unfoldable pub stage_uploaded_file : ℕ → String → String → ℕ → Exec Db Done
  stage_uploaded_file outbox_id instance_id file_key now = do
    require (not (str_eq file_key "")) value_error
    transaction (do
      db ← get_state
      file ← or_raise (db.files outbox_id) lost_compare_and_swap
      require (is_none file.key) lost_compare_and_swap
      write (λ s. record s { files = put_row outbox_id (with_key file_key file) s.files })
      r ← or_raise (db.rows outbox_id) lost_compare_and_swap
      require (is_leased_by instance_id r) lost_compare_and_swap
      write (λ s. record s {
        rows =
            put_row outbox_id
              (next_phase now (
                with_body (serializer.dump_file_body file_key)
                  (serializer.sha256 (serializer.dump_file_key file_key)) r))
              s.rows;
      }))

-- `image_key IS NULL … ORDER BY image.ordinal LIMIT 1`, the images of one row in that order.
unfoldable pub next_rich_image : List RichImage → Option RichImage
next_rich_image [] = none
next_rich_image (i ∷ is) = if is_none i.image.key then some i else next_rich_image is

-- `UPDATE outbound_rich_images … WHERE ordinal=? AND image_key IS NULL`
unfoldable pub update_rich : ℕ → (Attachment → Attachment) → List RichImage → List RichImage
update_rich ordinal f [] = []
update_rich ordinal f (i ∷ is) =
    let rest = update_rich ordinal f is in
    if (i.ordinal == ordinal) && is_none i.image.key
    then record i { image = f i.image } ∷ rest
    else i ∷ rest

-- Whether that UPDATE finds a row.
unfoldable pub awaits_key : ℕ → List RichImage → Bool
awaits_key ordinal [] = false
awaits_key ordinal (i ∷ is) =
    ((i.ordinal == ordinal) && is_none i.image.key) || awaits_key ordinal is

abbrev pub put_rich : ℕ → List RichImage → Db → Db
put_rich outbox_id images s = record s {
  rich_images = λ j. if outbox_id == j then images else s.rich_images j;
}

unfoldable pub rich_image_payload_for_lease : ℕ → String → Exec Db (Option RichImage)
rich_image_payload_for_lease outbox_id instance_id db = elim (db.rows outbox_id) [
  | none ↦ (ok none, db)
  | some r ↦
      if is_leased_by instance_id r
      then (elim (next_rich_image (db.rich_images outbox_id)) [
        | none ↦ (ok none, db)
        | some i ↦ (
          ok (some i),
          put_rich outbox_id (update_rich i.ordinal count_upload (db.rich_images outbox_id)) db,
        )
      ])
      else (ok none, db)
]

unfoldable pub stage_uploaded_rich_image : ℕ → String → ℕ → String → ℕ → Exec Db Done
stage_uploaded_rich_image outbox_id instance_id ordinal image_key now = do
  require (not (str_eq image_key "")) value_error
  transaction (do
    db ← get_state
    require (awaits_key ordinal (db.rich_images outbox_id)) lost_compare_and_swap
    write (put_rich outbox_id (update_rich ordinal (with_key image_key) (db.rich_images outbox_id)))
    r ← or_raise (db.rows outbox_id) lost_compare_and_swap
    require (is_leased_by instance_id r) lost_compare_and_swap
    write (λ s. record s { rows = put_row outbox_id (next_phase now r) s.rows }))
