-- ===== src/Receipts/Once.antt =====
-- A receipt is queued once.
use codex_feishu.Prelude.{
  ℕ, suc, String, ◌≡◌, refl, sym, ap, subst, ◌⊎◌, ==_refl, str_eq_refl, inl, inr, Bool, true, false,
  not, Option, none, some, Dict, str_eq, put_row, arith, Bool-cases, false-true,
}
use codex_feishu.Exec.{
  Error, Exec, Result, ok, err, continue_with, value_error, permission_error, integrity_error,
}
use codex_feishu.Exec.Keeps.{require_cases, or_raise_cases}
use codex_feishu.Outbox.{Db, exists_below}
use codex_feishu.Outbox.Queue.{
  Message, new_row, is_queued, enqueue_provider_message, ensure_writable_sink, is_message_type,
}
use codex_feishu.Inbound.{Task, Binding}
use codex_feishu.Inbound.Selection.{Writer}
use codex_feishu.Receipts.{
  is_status, receipt_id, receipt, place_of, find_task, enqueue_once, queue_ingress_status,
}

-- The database with the message's row.
abbrev inserted : Message → ℕ → Db → Db
inserted m now db = record db {
  rows = put_row db.next_id (new_row m now) db.rows;
  next_id = suc db.next_id;
}

abbrev Stays : Db → Result (Unit {0}) × Db → Type 0
Stays db x = ((e : Error) × (x ≡ (err e, db))) ⊎ (x ≡ (ok tt, db))

ensure_writable_sink-Stays : (db : Db) → Stays db (ensure_writable_sink db)
unfolding ensure_writable_sink
ensure_writable_sink-Stays db =
    or_raise_cases (Stays db) db.sink_mode value_error _ db (λ _. inl (value_error, refl))
      λ mode _. elim (Bool-cases (not (str_eq mode "shadow_only"))) [
        | inl e ↦ rw e (inr refl)
        | inr e ↦ rw e (inl (permission_error, refl))
      ]

-- `enqueue_provider_message` and a continuation, by cases.
enqueue_cases :
    {B : Type 0} (P : Result B × Db → Type 0) (m : Message) (now : ℕ) (f : ℕ → Exec Db B) (db : Db)
    → ((e : Error) → P (err e, db))
    → P (f db.next_id (inserted m now db))
    → P (continue_with f (enqueue_provider_message m now db))
unfolding enqueue_provider_message
enqueue_cases P m now f db raised done = elim (ensure_writable_sink-Stays db) [
  | inl (e, k) ↦ rw k (raised e)
  | inr k ↦ elim (Bool-cases (is_message_type m.message_type)) [
    | inr t ↦ rw (k, t) (raised value_error)
    | inl t ↦ elim (Bool-cases (not (is_queued m.logical_message_id db))) [
      | inr q ↦ rw (k, t, q) (raised integrity_error)
      | inl q ↦ rw (k, t, q) done
    ]
  ]
]

err-ok : {A : Type 0} (e : Error) (a : A) → err e ≡ ok a → ⊥
err-ok e a p = ground (arith, p)

unqueued : Option ℕ → Bool
unqueued none = true
unqueued (some id) = false

value : Result (Option ℕ) → Option ℕ
value (ok o) = o
value (err e) = none

-- What was enqueued is queued.
is_queued-inserted :
    (m : Message) (now : ℕ) (db : Db) → is_queued m.logical_message_id (inserted m now db) ≡ true
unfolding is_queued exists_below new_row
is_queued-inserted m now db = rw (==_refl, str_eq_refl) refl

once_enqueued :
    (m : Message) (now : ℕ) (b : Bool) (db after : Db) (id : ℕ)
    → enqueue_once m now b db ≡ (ok (some id), after)
    → is_queued m.logical_message_id after ≡ true
unfolding enqueue_once value unqueued
once_enqueued m now true db next id e = absurd (false-true (sym (ap (λ x. unqueued (value x.0)) e)))
once_enqueued m now false db next id e =
    enqueue_cases (λ x. x ≡ (ok (some id), next) → is_queued m.logical_message_id next ≡ true) m now
      _ db (λ x h. absurd (err-ok x (some id) (ap (λ y. y.0) h)))
      (λ h.
        subst (λ d. is_queued m.logical_message_id d ≡ true) (ap (λ y. y.1) h)
          (is_queued-inserted m now db))
      e

-- Once a call of `queue_ingress_status` has queued the receipt of a status for a message, every later
-- call for that status and message, in the database that it left, whatever its other arguments,
-- returns none and changes nothing.
pub queue_ingress_status-once :
    (w : Writer) (b : Binding) (tasks : Dict Task) (message_id : String) (target : Option String)
    (status text : String) (priority now : ℕ) (db after : Db) (id : ℕ) (v : Writer) (c : Binding)
    (others : Dict Task) (place : Option String) (body : String) (rank at : ℕ)
    → queue_ingress_status w b tasks message_id target status text priority now db
      ≡ (ok (some id), after)
    → queue_ingress_status v c others message_id place status body rank at after ≡ (ok none, after)
unfolding queue_ingress_status enqueue_once
queue_ingress_status-once w b tasks message_id target status text priority now db next id v c others
      place body rank at =
    require_cases
      (λ x.
        x ≡ (ok (some id), next)
        → queue_ingress_status v c others message_id place status body rank at next
          ≡ (ok none, next))
      (is_status status) value_error _ db
      (λ _ h. absurd (err-ok value_error (some id) (ap (λ x. x.0) h)))
      λ s h.
        let queued : is_queued (receipt_id status message_id) next ≡ true =
          once_enqueued
            (receipt w (place_of b (find_task tasks target)) message_id target status text priority)
            now (is_queued (receipt_id status message_id) db) db next id h in
        rw (s, queued) refl
