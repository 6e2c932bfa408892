-- ===== src/Worker/Following.antt =====
-- What follows a confirmed message leaves its row settled.
use codex_feishu.Prelude.{
  find, is_some, String, ◌||◌, ◌&&◌, inl, inr, Option, none, some, str_eq, Bool-cases, arith,
}
use codex_feishu.Exec.{Result, Done, ok, err, assertion_error, integrity_error, type_error}
use codex_feishu.Exec.Ensures.{continue-Ensures, or_raise-Ensures, require-Ensures}
use codex_feishu.Inbound
use codex_feishu.Outbox
use codex_feishu.Outbox.{Row, OutboxState, TitleBinding}
use codex_feishu.Outbox.Queue.{is_queued}
use codex_feishu.Worker.{
  Tools, Provider, ProviderResult, TaskColumns, Db, with_selection, truthy, trip,
}
use codex_feishu.Worker.Reply.{Target, ReplyParent}
use codex_feishu.Worker.Confirm.{
  record_reply, extend_ancestry, queue_cleanup, keep_transient, has_final, add_transient,
  is_transient,
}
use codex_feishu.Worker.Anchor.{
  put_anchor, subscription_row, confirm_anchor, insert_new, subscribe, follow_anchor, bind_card,
}
use codex_feishu.Worker.Follow.{follow}
use codex_feishu.Worker.Run.{trip_auth}
use codex_feishu.Worker.Fate.{Run, Settled, Left, Ends, put_row_other}

-- A new row has an identifier of its own.
insert_new-Settled : (c : Run) (r : Row) (o : Outbox.Db) → Settled c o → Settled c (insert_new r o)
unfolding insert_new
insert_new-Settled c r o ((b, h), (r0, e, l, v)) =
    elim (Bool-cases (is_queued r.logical_message_id o)) [
      | inl q ↦ rw (insert_new, q) ((b, h), (r0, e, l, v))
      | inr q ↦
          let lt = c.below in
          rw (insert_new, q)
            (
              (
                omega arith,
                λ j less ne.
                    rw (put_row_other o.next_id j r o.rows (λ g. absurd (omega (arith, g))))
                      (h j less ne),
              ),
              (
                r0,
                rw (put_row_other o.next_id c.id r o.rows (λ g. absurd (omega (arith, g)))) e,
                l,
                v,
              ),
            )
    ]

module _ (c : Run) (s : Db) (h : Settled c s.outbox) where
  pub record_reply-Ends :
      (r : Row) (target : Target) (parent : Option ReplyParent) (a : ProviderResult) (m t : String)
      → Ends c (record_reply r target parent a m t s)
  unfolding record_reply
  record_reply-Ends r target parent a m t =
      or_raise-Ensures (Left c) _ parent assertion_error _ s (inr h) (λ p e.
        or_raise-Ensures (Left c) _ r.thread_id integrity_error _ s (inr h) (λ x f.
          or_raise-Ensures (Left c) _ target.chat_id integrity_error _ s (inr h) (λ y g. h)))

  pub extend_ancestry-Ends :
      (r : Row) (target : Target) (parent : Option ReplyParent) (a : ProviderResult)
      (m t : Option String)
      → Ends c (extend_ancestry r target parent a m t s)
  unfolding extend_ancestry
  extend_ancestry-Ends r target parent a none t = h
  extend_ancestry-Ends r target parent a (some m) none = h
  extend_ancestry-Ends r target parent a (some m) (some t) =
      elim (Bool-cases (str_eq r.endpoint_name "reply_message")) [
        | inl e ↦ rw (extend_ancestry, e) (record_reply-Ends r target parent a m t)
        | inr e ↦ rw (extend_ancestry, e) h
      ]

  add_transient-Settled :
      (m t : String) (turn : Option String) → Settled c (add_transient m t turn s).outbox
  unfolding add_transient
  add_transient-Settled m t none = h
  add_transient-Settled m t (some turn) =
      elim (Bool-cases (is_some (find (is_transient m) s.transient_messages))) [
        | inl e ↦ rw (add_transient, e) h
        | inr e ↦ rw (add_transient, e) h
      ]

  put_anchor-Settled :
      (t : String) (a : ProviderResult) (b : Option TitleBinding) (d : Option TaskColumns)
      → Settled c (put_anchor t a b d s).outbox
  unfolding put_anchor
  put_anchor-Settled t a none d = h
  put_anchor-Settled t a (some b) none = h
  put_anchor-Settled t a (some b) (some d) = elim (Bool-cases (str_eq d.anchor_state "pending")) [
    | inl e ↦ rw (put_anchor, e) h
    | inr e ↦ rw (put_anchor, e) h
  ]

  with_selection-Ends : (x : Result Done × Inbound.Db) → Ends c (with_selection s x)
  with_selection-Ends (ok a, i) = h
  with_selection-Ends (err e, i) = inr h

keep_transient-Ends :
    (c : Run) (r : Row) (t : String) (m : Option String) (s : Db)
    → Settled c s.outbox
    → Ends c (keep_transient r t m s)
unfolding keep_transient
keep_transient-Ends c r t none s h = h
keep_transient-Ends c r t (some m) s h = elim (Bool-cases (has_final r s.outbox)) [
  | inl e ↦ rw (keep_transient, e) h
  | inr e ↦ rw (keep_transient, e) (add_transient-Settled c s h m t r.turn_id)
]

confirm_anchor-Ends :
    (c : Run) (t : String) (a : ProviderResult) (s : Db)
    → Settled c s.outbox
    → Ends c (confirm_anchor t a s)
unfolding confirm_anchor
confirm_anchor-Ends c t a s h =
    let u : Db = put_anchor t a (s.outbox.task_bindings t) (s.task_columns t) s in
    let g : Settled c u.outbox = put_anchor-Settled c s h t a _ _ in
    or_raise-Ensures (Left c) _ (u.outbox.task_bindings t) type_error _ u (inr g) (λ b e.
      or_raise-Ensures (Left c) _ (u.task_columns t) type_error _ u (inr g)
        (λ d f. or_raise-Ensures (Left c) _ b.chat_id integrity_error _ u (inr g) (λ y k. g)))

subscribe-Ends :
    (c : Run) (z : Tools) (p : Provider) (t : String) (target : Target) (m : Option String) (s : Db)
    → Settled c s.outbox
    → Ends c (subscribe z p t target m s)
unfolding subscribe
subscribe-Ends c z p t target m s h =
    elim (Bool-cases
      (is_some p.user_message_sender && str_eq target.conversation_mode "topic_group")) [
        | inl e ↦
            rw (subscribe, e) (insert_new-Settled c (subscription_row z t target m) s.outbox h)
        | inr e ↦ rw (subscribe, e) h
      ]

follow_anchor-Ends :
    (c : Run) (z : Tools) (p : Provider) (r : Row) (target : Target) (a : ProviderResult) (s : Db)
    → Settled c s.outbox
    → Ends c (follow_anchor z p r target a s)
unfolding follow_anchor
follow_anchor-Ends c z p r target a s h =
    or_raise-Ensures (Left c) _ r.thread_id type_error _ s (inr h) (λ t e.
      continue-Ensures (Left c) (λ _ u. Settled c u.outbox) (λ _ u. Settled c u.outbox) _ _
        (confirm_anchor-Ends c t a s h) (λ x u g. subscribe-Ends c z p t target a.message_id u g))

bind_card-Ends :
    (c : Run) (r : Row) (m : Option String) (s : Db) → Settled c s.outbox → Ends c (bind_card r m s)
unfolding bind_card
bind_card-Ends c r (some m) s h = h
bind_card-Ends c r none s h =
    require-Ensures (Left c) (λ _ u. Settled c u.outbox) _ integrity_error s (inr h) h

pub follow-Ends :
    (c : Run) (z : Tools) (p : Provider) (r : Row) (target : Target) (t : String)
    (a : ProviderResult) (s : Db)
    → Settled c s.outbox
    → Ends c (follow z p r target t a s)
unfolding follow queue_cleanup
follow-Ends c z p r target t a s h = elim (Bool-cases (str_eq r.operation "final")) [
  | inl e ↦ rw (follow, e) h
  | inr e ↦ elim (Bool-cases (str_eq r.operation "commentary")) [
    | inl f ↦ rw (follow, e, f) (keep_transient-Ends c r t (truthy a.message_id) s h)
    | inr f ↦ elim (Bool-cases (str_eq r.operation "anchor")) [
      | inl g ↦ rw (follow, e, f, g) (follow_anchor-Ends c z p r target a s h)
      | inr g ↦ elim (Bool-cases (str_eq r.operation "approval")) [
        | inl k ↦ rw (follow, e, f, g, k) (bind_card-Ends c r a.message_id s h)
        | inr k ↦ elim (Bool-cases (str_eq r.operation "selection")) [
          | inl l ↦ rw (follow, e, f, g, k, l) (with_selection-Ends c s h _)
          | inr l ↦ rw (follow, e, f, g, k, l) h
        ]
      ]
    ]
  ]
]

pub trip_auth-Ends :
    (c : Run) (code : String) (s : Db) → Settled c s.outbox → Ends c (trip_auth code s)
unfolding trip_auth trip
trip_auth-Ends c code s h = elim (Bool-cases (str_eq code "http_401" || str_eq code "http_403")) [
  | inl e ↦ rw (trip_auth, e) h
  | inr e ↦ rw (trip_auth, e) h
]
