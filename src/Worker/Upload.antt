-- ===== src/Worker/Upload.antt =====
-- feishu/outbound.py, `OutboxWorker.run_once`: the attachments of a message are uploaded in runs of
-- their own, before the message is sent.
use Prim.Native.String.{◌++◌ as join}
use codex_feishu.Prelude.{
  ℕ, ◌+◌, String, Bool, true, false, Option, none, some, if◌then◌else◌, holds_str,
}
use codex_feishu.Exec.{
  Exec, Done, pure, or_raise, get_state, ◌>>=◌, ◌>>◌, provider_error, type_error,
}
use codex_feishu.Json.{Json, text, object, Fields, no_fields, field}
use codex_feishu.Outbox.{Row, OutboxState, Attachment, RichImage}
use codex_feishu.Outbox.Queue.{finish_outbox}
use codex_feishu.Outbox.Uploads.{
  image_payload_for_lease, file_payload_for_lease, rich_image_payload_for_lease,
  stage_uploaded_image, stage_uploaded_file, stage_uploaded_rich_image,
}
use codex_feishu.Worker.{
  Tools, Provider, ProviderResult, ProviderOutcome, Db, on_outbox, truthy, backoff, terminal_state,
}
use codex_feishu.Worker.Reply.{trip_final}
use codex_feishu.Worker.Payload.{
  Kind, Filling, filled, key_missing, malformed, remove_field, fill_body,
}

-- `next_attempt_at` is the end of the pause.
unfoldable pub retry_later : Tools → ℕ → String → Option ℕ → ℕ → Exec Db Done
retry_later z id code retry_after attempts = on_outbox (
    finish_outbox id z.instance_id OutboxState.retryable none (some code)
      (some (z.clock.after (backoff retry_after attempts))))

-- A refused upload ends the message. `trips` is whether the branch opens the breaker.
unfoldable pub fail_upload : Tools → ℕ → Row → String → Bool → Exec Db Done
fail_upload z id r code trips = do
  on_outbox (finish_outbox id z.instance_id (terminal_state r) none (some code) none)
  if trips then trip_final r else pure tt

-- What the three branches do with the answer to an upload, by its outcome and its key.
unfoldable pub settle_outcome :
    Tools
    → ℕ
    → Row
    → String
    → Bool
    → ℕ
    → (String → Exec Db Done)
    → Option ℕ
    → ProviderOutcome
    → Option String
    → Exec Db Done
settle_outcome z id r code trips attempts stage pause ProviderOutcome.confirmed (some k) = stage k
settle_outcome z id r code trips attempts stage pause ProviderOutcome.confirmed none =
    fail_upload z id r code trips
settle_outcome z id r code trips attempts stage pause ProviderOutcome.retryable key =
    retry_later z id code pause (attempts + 1)
settle_outcome z id r code trips attempts stage pause ProviderOutcome.unknown key =
    retry_later z id code pause (attempts + 1)
settle_outcome z id r code trips attempts stage pause ProviderOutcome.permanent key =
    fail_upload z id r code trips

unfoldable pub settle_upload :
    Tools
    → ℕ
    → Row
    → String
    → Bool
    → ℕ
    → (String → Exec Db Done)
    → Option String
    → ProviderResult
    → Exec Db Done
settle_upload z id r code trips attempts stage key a =
    settle_outcome z id r (join code a.code) trips attempts stage a.retry_after_seconds a.outcome
      (truthy key)

-- The body that is ready to be sent, or none where the run ends with the upload.
abbrev pub ready_body : String → String → Option Json
ready_body name key = some (object (field name (text key) no_fields))

unfoldable pub upload_image : Tools → Provider → ℕ → Row → Attachment → Exec Db Done
upload_image z p id r image = do
  a ← or_raise (p.upload_image image) provider_error
  settle_upload z id r "image_upload:" true image.upload_attempt_count
      (λ k. on_outbox (stage_uploaded_image z.serializer id z.instance_id k z.clock.now))
      a.image_key a

unfoldable pub image_body :
    Tools → Provider → ℕ → Row → Attachment → Option String → Exec Db (Option Json)
image_body z p id r image (some k) = pure (ready_body "image_key" k)
image_body z p id r image none = upload_image z p id r image >> pure none

unfoldable pub upload_file : Tools → Provider → ℕ → Row → Attachment → Exec Db Done
upload_file z p id r file = do
  a ← or_raise (p.upload_file file) provider_error
  settle_upload z id r "file_upload:" false file.upload_attempt_count
      (λ k. on_outbox (stage_uploaded_file z.serializer id z.instance_id k z.clock.now)) a.file_key
      a

unfoldable pub file_body :
    Tools → Provider → ℕ → Row → Attachment → Option String → Exec Db (Option Json)
file_body z p id r file (some k) = pure (ready_body "file_key" k)
file_body z p id r file none = upload_file z p id r file >> pure none

unfoldable pub upload_rich_image : Tools → Provider → ℕ → Row → RichImage → Exec Db Done
upload_rich_image z p id r i = do
  a ← or_raise (p.upload_image i.image) provider_error
  settle_upload z id r "rich_image_upload:" false i.image.upload_attempt_count
      (λ k. on_outbox (stage_uploaded_rich_image id z.instance_id i.ordinal k z.clock.now))
      a.image_key a

unfoldable pub filled_body : Tools → ℕ → Filling Fields → Exec Db (Option Json)
filled_body z id (filled body) = pure (some (object body))
filled_body z id key_missing =
    on_outbox (
      finish_outbox id z.instance_id OutboxState.permanent none (some "rich_image_key_missing")
        none)
    >> pure none
filled_body z id malformed = or_raise none type_error

-- The first image without a key is uploaded; when there is none, the body is filled.
unfoldable pub rich_body :
    Tools → Provider → ℕ → Row → Option String → Fields → Option RichImage → Exec Db (Option Json)
rich_body z p id r internal body (some i) = upload_rich_image z p id r i >> pure none
rich_body z p id r internal body none = do
  db ← get_state
  filled_body z id (
      fill_body z.int (holds_str internal "post") (db.outbox.rich_images id)
        (remove_field "_cfb_message_type" body))

unfoldable pub prepare :
    Tools → Provider → ℕ → Row → Option String → Fields → Kind → Exec Db (Option Json)
prepare z p id r internal body Kind.plain = pure (some (object body))
prepare z p id r internal body Kind.image = do
  image ← on_outbox (image_payload_for_lease id z.instance_id)
  image_body z p id r image (truthy image.key)
prepare z p id r internal body Kind.file = do
  file ← on_outbox (file_payload_for_lease id z.instance_id)
  file_body z p id r file (truthy file.key)
prepare z p id r internal body Kind.rich = do
  image ← on_outbox (rich_image_payload_for_lease id z.instance_id)
  rich_body z p id r internal body image
