-- ===== src/Worker/Reasons.antt =====
-- Why a run may settle its row: the tests of the worker, written as conditions on the row, on the
-- database after the lease, and on the provider's answers.
use codex_feishu.Prelude.{
  String, true, false, ◌≡◌, ◌⊎◌, refl, inl, inr, Option, none, some, str_eq, holds_str, eq_iff,
  opt_str_eq_iff, Bool-cases, Option-cases, arith,
}
use codex_feishu.Outbox.{Row, Attachment, OutboxState}
use codex_feishu.Worker.{Provider, ProviderResult, Request, UserReply, Db, truthy, terminal_state}
use codex_feishu.Worker.Reply.{
  Target, ReplyParent, binding_of, reply_parent, is_conflict, is_refused,
}

-- The provider gave this answer to a request that carries the row's uuid, or is an update of a
-- message; or the sender of the user's messages gave it to a reply under that uuid.
abbrev pub Answered : Provider → Row → ProviderResult → Type 0
Answered p r a =
    ((q : Request) × (p.call q ≡ some a)
      × ((q.uuid ≡ some r.stable_uuid) ⊎ (r.endpoint_name ≡ "update_message")))
    ⊎ ((sender : UserReply → Option ProviderResult) × (u : UserReply) × (p.user_message_sender
          ≡ some sender)
        × (u.idempotency_key ≡ r.stable_uuid)
        × (sender u ≡ some a))

-- The provider gave this answer to the upload of an attachment, with this key in it; an error code of
-- such an upload has this prefix.
abbrev pub Uploaded : Provider → String → Option String → ProviderResult → Type 0
Uploaded p prefix key a =
    (i : Attachment) × (((p.upload_image i ≡ some a)
        × (key ≡ a.image_key)
        × ((prefix ≡ "image_upload:") ⊎ (prefix ≡ "rich_image_upload:")))
      ⊎ ((p.upload_file i ≡ some a) × (key ≡ a.file_key) × (prefix ≡ "file_upload:")))

-- A reply to a message that is not known, or that is of another task or chat.
abbrev pub Misdirected : Row → Db → Target → Type 0
Misdirected r s target =
    (r.endpoint_name ≡ "reply_message")
    × ((reply_parent r s ≡ none)
        ⊎ ((q : ReplyParent) × (reply_parent r s ≡ some q)
            × (¬ (r.thread_id ≡ some q.thread_id) ⊎ ¬ (q.chat_id ≡ target.chat_id))))

-- The message has a place to go to, and is no misdirected reply.
abbrev pub Directed : Row → Db → Type 0
Directed r s = (t : Target) × (binding_of r s ≡ some t) × ¬ Misdirected r s t

-- The state of a message that was given up: only a final one can still be found undelivered.
abbrev pub GivenUp : Row → OutboxState → Type 0
GivenUp r state =
    ((r.operation ≡ "final") × (state ≡ OutboxState.final_undelivered))
    ⊎ (¬ (r.operation ≡ "final") × (state ≡ OutboxState.permanent))

-- The answer has a key that is not empty.
abbrev pub HasKey : Option String → Type 0
HasKey key = (k : String) × (key ≡ some k) × ¬ (k ≡ "")

pub terminal_state-GivenUp : (r : Row) → GivenUp r (terminal_state r)
unfolding terminal_state
terminal_state-GivenUp r = elim (Bool-cases (str_eq r.operation "final")) [
  | inl e ↦ inl ((eq_iff r.operation "final").0 e, rw (e, terminal_state) refl)
  | inr e ↦ inr (
    (λ same. ground (arith, e, (eq_iff r.operation "final").1 same)),
    rw (e, terminal_state) refl,
  )
]

pub truthy-HasKey : (key : Option String) (k : String) → truthy key ≡ some k → HasKey key
unfolding truthy
truthy-HasKey none k e = cc e
truthy-HasKey (some x) k e = (x, refl, λ same. ground (arith, e, (eq_iff x "").1 same))

pub truthy-none : (key : Option String) → truthy key ≡ none → ¬ HasKey key
unfolding truthy
truthy-none none e (k, f, _) = cc f
truthy-none (some x) e (k, f, full) = ground (arith, e, full, f, eq_iff x "", eq_iff k "")

thread_differs : (o : Option String) (t : String) → holds_str o t ≡ false → ¬ (o ≡ some t)
thread_differs none t h e = cc e
thread_differs (some s) t h e = ground (arith, h, e, eq_iff s t)

thread_agrees : (o : Option String) (t : String) → holds_str o t ≡ true → o ≡ some t
thread_agrees none t h = absurd (ground (arith, h))
thread_agrees (some s) t h = ground (arith, h, eq_iff s t)

pub is_refused-Misdirected :
    (r : Row) (s : Db) (target : Target) → is_refused r target s ≡ true → Misdirected r s target
unfolding is_refused is_conflict
is_refused-Misdirected r s target h = (
  ground (arith, h, eq_iff r.endpoint_name "reply_message"),
  elim (Option-cases (reply_parent r s)) [
    | inl e ↦ inl e
    | inr (q, e) ↦ inr (
      q,
      e,
      elim (Bool-cases (holds_str r.thread_id q.thread_id)) [
        | inr f ↦ inl (thread_differs r.thread_id q.thread_id f)
        | inl f ↦
            inr (λ same. ground (arith, h, e, f, (opt_str_eq_iff q.chat_id target.chat_id).1 same))
      ],
    )
  ],
)

pub not_refused :
    (r : Row) (s : Db) (target : Target) → is_refused r target s ≡ false → ¬ Misdirected r s target
unfolding is_refused is_conflict
not_refused r s target h (a, inl e) =
    ground (arith, h, (eq_iff r.endpoint_name "reply_message").1 a, e)
not_refused r s target h (a, inr (q, e, d)) = elim d [
  | inl f ↦ f (
      thread_agrees r.thread_id q.thread_id
        (ground (arith, h, e, (eq_iff r.endpoint_name "reply_message").1 a)))
  | inr f ↦ f (
      (opt_str_eq_iff q.chat_id target.chat_id).0
        (ground (arith, h, e, (eq_iff r.endpoint_name "reply_message").1 a)))
]
