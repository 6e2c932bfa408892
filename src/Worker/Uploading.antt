-- ===== src/Worker/Uploading.antt =====
-- The preparation of a body settles the row, or leaves it leased with a body to send.
use codex_feishu.Prelude.{
  str_eq, holds_str, ap, ℕ, ◌+◌, ◌<◌, String, Bool, true, false, ◌≡◌, refl, sym, inl, inr, Option,
  none, some, Bool-cases, Option-cases, if◌then◌else◌,
}
use codex_feishu.Exec.{Result, Done, Exec, pure, continue_with, provider_error}
use codex_feishu.Exec.Ensures.{Ensures, continue-Ensures, or_raise-Ensures}
use codex_feishu.Json.{Json, Fields, object}
use codex_feishu.Outbox
use codex_feishu.Outbox.{Row, OutboxState, Attachment, RichImage, is_leased_by}
use codex_feishu.Outbox.Uploads.{rich_image_payload_for_lease, next_rich_image}
use codex_feishu.Outbox.Cases.{image_payload_for_lease_cases, file_payload_for_lease_cases}
use codex_feishu.Worker.{
  Tools, Provider, ProviderResult, ProviderOutcome, Db, with_outbox, on_outbox, truthy,
  terminal_state, trip,
}
use codex_feishu.Worker.Reply.{trip_final}
use codex_feishu.Worker.Payload.{
  Kind, Filling, filled, key_missing, malformed, fill_body, remove_field, internal_message_type,
}
use codex_feishu.Worker.Upload.{
  retry_later, fail_upload, settle_outcome, settle_upload, upload_image, image_body, upload_file,
  file_body, upload_rich_image, filled_body, rich_body, prepare,
}
use Prim.Native.String.{◌++◌ as join}
use codex_feishu.Worker.Reasons.{Uploaded, truthy-HasKey, truthy-none, terminal_state-GivenUp}
use codex_feishu.Worker.Fate.{
  Run, Verdict, HasBody, Held, Settled, Left, Ends, Holds, uploaded, upload_again, keyless,
  no_upload, finish_outbox-Ends, stage_uploaded_image-Ends, stage_uploaded_file-Ends,
  stage_uploaded_rich_image-Ends,
}

pub Outcome-cases :
    (P : ProviderOutcome → Type 0) (o : ProviderOutcome)
    → (o ≡ ProviderOutcome.confirmed → P ProviderOutcome.confirmed)
    → (o ≡ ProviderOutcome.retryable → P ProviderOutcome.retryable)
    → (o ≡ ProviderOutcome.permanent → P ProviderOutcome.permanent)
    → (o ≡ ProviderOutcome.unknown → P ProviderOutcome.unknown)
    → P o
Outcome-cases P ProviderOutcome.confirmed a b c d = a refl
Outcome-cases P ProviderOutcome.retryable a b c d = b refl
Outcome-cases P ProviderOutcome.permanent a b c d = c refl
Outcome-cases P ProviderOutcome.unknown a b c d = d refl

-- Where the run goes on with a body the row is leased still.
abbrev pub Ready : Run → Option Json → Db → Type 0
Ready c none s = Settled c s.outbox
Ready c (some body) s = Held c s.outbox

abbrev pub Readies : Run → Result (Option Json) × Db → Type 0
Readies c x = Ensures (Left c) (Ready c) x

pub trip_final-Ends : (c : Run) (r : Row) (s : Db) → Settled c s.outbox → Ends c (trip_final r s)
unfolding trip_final trip
trip_final-Ends c r s h = elim (Bool-cases (str_eq r.operation "final")) [
  | inl e ↦ rw (trip_final, e) h
  | inr e ↦ rw (trip_final, e) h
]

trips-Ends :
    (c : Run) (r : Row) (trips : Bool) (s : Db)
    → Settled c s.outbox
    → Ends c ((if trips then trip_final r else pure tt) s)
trips-Ends c r true s h = trip_final-Ends c r s h
trips-Ends c r false s h = h

-- The counting of an upload changes no row.
either_Held :
    (c : Run) (b : Bool) (o q : Outbox.Db) → Held c o → Held c q → Held c (if b then o else q)
either_Held c true o q h k = h
either_Held c false o q h k = k

-- A lease without an image to upload changes nothing.
rich_image_payload_for_lease-Ensures :
    (c : Run) (id : ℕ) (w : String) (s : Db)
    → Held c s.outbox
    → Ensures
        (Left c)
        (λ i t. Held c t.outbox × (i ≡ none → t ≡ s))
        (on_outbox (rich_image_payload_for_lease id w) s)
unfolding rich_image_payload_for_lease
rich_image_payload_for_lease-Ensures c id w s h = elim (Option-cases (s.outbox.rows id)) [
  | inl e ↦ rw (rich_image_payload_for_lease, e) (h, λ _. refl)
  | inr (r, e) ↦ elim (Bool-cases (is_leased_by w r)) [
    | inr b ↦ rw (rich_image_payload_for_lease, e, b) (h, λ _. refl)
    | inl b ↦ elim (Option-cases (next_rich_image (s.outbox.rich_images id))) [
      | inl g ↦ rw (rich_image_payload_for_lease, e, b, g) (h, λ _. refl)
      | inr (i, g) ↦ rw (rich_image_payload_for_lease, e, b, g) (h, λ f. cc f)
    ]
  ]
]

module _ (z : Tools) (p : Provider) (start : Db) (n id : ℕ) (r : Row) (lt : id < n) where
  abbrev pub run : Run
  run = record { tools = z; provider = p; start = start; bound = n; id = id; row = r; below = lt }

  pub retry_later-Ends :
      (code : String) (pause : Option ℕ) (attempts : ℕ) (s : Db)
      → Verdict run OutboxState.retryable (some code)
      → Held run s.outbox
      → Ends run (retry_later z id code pause attempts s)
  unfolding retry_later
  retry_later-Ends code pause attempts s v h =
      finish_outbox-Ends run s h OutboxState.retryable none (some code) _ v

  fail_upload-Ends :
      (code : String) (trips : Bool) (s : Db)
      → Verdict run (terminal_state r) (some code)
      → Held run s.outbox
      → Ends run (fail_upload z id r code trips s)
  unfolding fail_upload
  fail_upload-Ends code trips s v h =
      continue-Ensures (Left run) _ _ _ _
        (finish_outbox-Ends run s h (terminal_state r) none (some code) none v)
        (λ a t g. trips-Ends run r trips t g)

  module _ (prefix : String) (key : Option String) (a : ProviderResult)
      (sent : Uploaded p prefix key a) (stage : String → Exec Db Done)
      (staged : (k : String) (s : Db)
        → Verdict run OutboxState.retryable none
        → Held run s.outbox
        → Ends run (stage k s)) where
    abbrev code : String
    code = join prefix a.code

    module _ (trips : Bool) (attempts : ℕ) (s : Db) (h : Held run s.outbox) where
      settle_outcome-Ends :
          (o : ProviderOutcome) (found : Option String)
          → a.outcome ≡ o
          → truthy key ≡ found
          → Ends run
              (settle_outcome z id r code trips attempts stage a.retry_after_seconds o found s)
      unfolding settle_outcome
      settle_outcome-Ends ProviderOutcome.confirmed (some k) e f =
          staged k s (uploaded prefix key a sent e (truthy-HasKey key k f)) h
      settle_outcome-Ends ProviderOutcome.confirmed none e f =
          fail_upload-Ends code trips s
            (no_upload prefix key a sent (inr (e, truthy-none key f)) (terminal_state-GivenUp r)) h
      settle_outcome-Ends ProviderOutcome.retryable found e f =
          retry_later-Ends code a.retry_after_seconds (attempts + 1) s
            (upload_again prefix key a sent (inl e)) h
      settle_outcome-Ends ProviderOutcome.unknown found e f =
          retry_later-Ends code a.retry_after_seconds (attempts + 1) s
            (upload_again prefix key a sent (inr e)) h
      settle_outcome-Ends ProviderOutcome.permanent found e f =
          fail_upload-Ends code trips s
            (no_upload prefix key a sent (inl e) (terminal_state-GivenUp r)) h

  upload_image-Ends :
      (image : Attachment) (s : Db) → Held run s.outbox → Ends run (upload_image z p id r image s)
  unfolding upload_image settle_upload
  upload_image-Ends image s h =
      or_raise-Ensures (Left run) _ (p.upload_image image) provider_error _ s (inl h) (λ a e.
        settle_outcome-Ends "image_upload:" a.image_key a (image, inl (e, refl, inl refl)) _
          (λ k t v g. stage_uploaded_image-Ends run t g z.serializer k z.clock.now v) true _ s h
          a.outcome (truthy a.image_key) refl refl)

  upload_file-Ends :
      (file : Attachment) (s : Db) → Held run s.outbox → Ends run (upload_file z p id r file s)
  unfolding upload_file settle_upload
  upload_file-Ends file s h =
      or_raise-Ensures (Left run) _ (p.upload_file file) provider_error _ s (inl h) (λ a e.
        settle_outcome-Ends "file_upload:" a.file_key a (file, inr (e, refl, refl)) _
          (λ k t v g. stage_uploaded_file-Ends run t g z.serializer k z.clock.now v) false _ s h
          a.outcome (truthy a.file_key) refl refl)

  upload_rich_image-Ends :
      (i : RichImage) (s : Db) → Held run s.outbox → Ends run (upload_rich_image z p id r i s)
  unfolding upload_rich_image settle_upload
  upload_rich_image-Ends i s h =
      or_raise-Ensures (Left run) _ (p.upload_image i.image) provider_error _ s (inl h) (λ a e.
        settle_outcome-Ends "rich_image_upload:" a.image_key a (i.image, inl (e, refl, inr refl)) _
          (λ k t v g. stage_uploaded_rich_image-Ends run t g i.ordinal k z.clock.now v) false _ s h
          a.outcome (truthy a.image_key) refl refl)

  -- The run ends with an upload.
  no_body : (x : Result Done × Db) → Ends run x → Readies run (continue_with (λ _. pure none) x)
  no_body x h =
      continue-Ensures (Left run) (λ _ s. Settled run s.outbox) (Ready run) _ x h (λ a s g. g)

  image_body-Readies :
      (image : Attachment) (key : Option String) (s : Db)
      → Held run s.outbox
      → Readies run (image_body z p id r image key s)
  unfolding image_body
  image_body-Readies image (some k) s h = h
  image_body-Readies image none s h = no_body _ (upload_image-Ends image s h)

  file_body-Readies :
      (file : Attachment) (key : Option String) (s : Db)
      → Held run s.outbox
      → Readies run (file_body z p id r file key s)
  unfolding file_body
  file_body-Readies file (some k) s h = h
  file_body-Readies file none s h = no_body _ (upload_file-Ends file s h)

  module _ (body : Fields) (read : HasBody run (object body)) where
    abbrev internal : Option String
    internal = internal_message_type body

    -- The body with the keys of its images.
    abbrev filling : Db → Filling Fields
    filling s =
        fill_body z.int (holds_str internal "post") (s.outbox.rich_images id)
          (remove_field "_cfb_message_type" body)

    filled_body-Readies :
        (f : Filling Fields) (s : Db)
        → filling start ≡ f
        → Held run s.outbox
        → Readies run (filled_body z id f s)
    unfolding filled_body
    filled_body-Readies (filled b) s e h = h
    filled_body-Readies key_missing s e h =
        no_body _
          (finish_outbox-Ends run s h OutboxState.permanent none _ none (keyless body read e))
    filled_body-Readies malformed s e h = inl h

    rich_body-Readies :
        (i : Option RichImage) (s : Db)
        → (i ≡ none → s ≡ start)
        → Held run s.outbox
        → Readies run (rich_body z p id r internal body i s)
    unfolding rich_body
    rich_body-Readies (some i) s e h = no_body _ (upload_rich_image-Ends i s h)
    rich_body-Readies none s e h = filled_body-Readies (filling s) s (ap filling (sym (e refl))) h

    pub prepare-Readies :
        (k : Kind) → Held run start.outbox → Readies run (prepare z p id r internal body k start)
    unfolding prepare
    prepare-Readies Kind.plain h = h
    prepare-Readies Kind.image h =
        continue-Ensures (Left run) (λ _ t. Held run t.outbox) (Ready run) _ _
          (image_payload_for_lease_cases (λ x. Holds run (with_outbox start x)) id z.instance_id
            start.outbox (λ e. inl h) (λ a q _ _ _. either_Held run _ _ _ h h))
          (λ a t g. image_body-Readies a (truthy a.key) t g)
    prepare-Readies Kind.file h =
        continue-Ensures (Left run) (λ _ t. Held run t.outbox) (Ready run) _ _
          (file_payload_for_lease_cases (λ x. Holds run (with_outbox start x)) id z.instance_id
            start.outbox (λ e. inl h) (λ a q _ _ _. either_Held run _ _ _ h h))
          (λ a t g. file_body-Readies a (truthy a.key) t g)
    prepare-Readies Kind.rich h =
        continue-Ensures (Left run) (λ i t. Held run t.outbox × (i ≡ none → t ≡ start)) (Ready run)
          _ _ (rich_image_payload_for_lease-Ensures run id z.instance_id start h)
          (λ i t g. rich_body-Readies i t g.1 g.0)
