-- ===== src/Worker/Outcome.antt =====
-- One run of the worker, from the lease of a row to its outcome.
use codex_feishu.Prelude.{
  ℕ, ◌<◌, String, true, false, not, ◌≡◌, ◌⊎◌, refl, inl, inr, Option, none, some, Rows, put_row,
  put_row_self, str_eq_refl, Bool-cases, arith,
}
use codex_feishu.Exec.{ok, value_error}
use codex_feishu.Exec.Ensures.{Ensures, continue-Ensures, or_raise-Ensures}
use codex_feishu.Json.{Json, null, boolean, integer, text, array, object, Fields}
use codex_feishu.Outbox.{Row, OutboxState, is_leased}
use codex_feishu.Outbox.Leasing.{IsWritable}
use codex_feishu.Outbox.Lease.{Expires, NoneMayLease, IsFirst, with_lease, lease_outbox-LeasesFirst}
use codex_feishu.Worker.{Tools, Provider, Db, terminal_state}
use codex_feishu.Worker.Reply.{
  Target, ReplyParent, binding_of, reply_parent, is_refused, refuse_reply,
}
use codex_feishu.Worker.Payload.{internal_message_type, is_untyped, kind_of, msg_type}
use codex_feishu.Worker.Run.{
  end_row, deliver, process_reply, process, address, run_row, run_leased, run_once,
}
use codex_feishu.Worker.Fate.{
  Run, HasBody, Held, Settled, Left, Ends, misdirected, bodiless, unbound, finish_outbox-Ends,
}
use codex_feishu.Worker.Reasons.{
  Misdirected, Directed, terminal_state-GivenUp, is_refused-Misdirected, not_refused,
}
use codex_feishu.Worker.Uploading.{run, Ready, trip_final-Ends, prepare-Readies}
use codex_feishu.Worker.Sending.{Awaited, send-Answers}
use codex_feishu.Worker.Settling.{settle_answer-Ends}

module _ (z : Tools) (p : Provider) (start : Db) (n id : ℕ) (r : Row) (lt : id < n) where
  abbrev c : Run
  c = run z p start n id r lt

  deliver-Ends :
      (target : Target) (parent : Option ReplyParent) (internal : Option String)
      (ready : Option Json) (s : Db)
      → Directed r start
      → Ready c ready s
      → Ends c (deliver z p id r target parent internal ready s)
  unfolding deliver
  deliver-Ends target parent internal none s d h = h
  deliver-Ends target parent internal (some body) s d h =
      continue-Ensures (Left c) (Awaited c) (λ _ u. Settled c u.outbox) _ _
        (send-Answers z p start n id r lt target (msg_type r internal) _ body s h)
        (λ a u g.
          settle_answer-Ends z p start n id r lt u g.0 target parent (msg_type r internal) a
            (g.1, d))

  module _ (h : Held c start.outbox) where
    refuse_reply-Ends :
        (target : Target)
        → binding_of r start ≡ some target
        → Misdirected r start target
        → Ends c (refuse_reply z id r start)
    unfolding refuse_reply
    refuse_reply-Ends target bound m =
        continue-Ensures (Left c) (λ _ u. Settled c u.outbox) (λ _ u. Settled c u.outbox) _ _
          (finish_outbox-Ends c start h (terminal_state r) none _ none
            (misdirected target bound m (terminal_state-GivenUp r)))
          (λ a u g. trip_final-Ends c r _ g)

    bodiless-Ends :
        (body : Json)
        → HasBody c body
        → ((fields : Fields) → ¬ (body ≡ object fields))
        → Ends c (end_row z id OutboxState.permanent "invalid_body" start)
    unfolding end_row
    bodiless-Ends body read other =
        finish_outbox-Ends c start h OutboxState.permanent none _ none (bodiless body read other)

    module _ (body : Fields) (read : HasBody c (object body)) where
      process_reply-Ends :
          (target : Target) (parent : Option ReplyParent)
          → Directed r start
          → Ends c (process_reply z p id r target parent (internal_message_type body) body start)
      unfolding process_reply
      process_reply-Ends target parent d = elim (Bool-cases (not (is_untyped r body))) [
        | inr e ↦ rw (process_reply, e) (inl h)
        | inl e ↦
            rw (process_reply, e)
              (continue-Ensures (Left c) (Ready c) (λ _ u. Settled c u.outbox) _ _
                (prepare-Readies z p start n id r lt body read
                  (kind_of r (internal_message_type body)) h)
                (λ ready u g. deliver-Ends target parent (internal_message_type body) ready u d g))
      ]

      process-Ends :
          (target : Target)
          → binding_of r start ≡ some target
          → Ends c (process z p id r target body start)
      unfolding process
      process-Ends target bound = elim (Bool-cases (is_refused r target start)) [
        | inl e ↦
            rw (process, e)
              (refuse_reply-Ends target bound (is_refused-Misdirected r start target e))
        | inr e ↦
            rw (process, e)
              (process_reply-Ends target (reply_parent r start)
                (target, bound, not_refused r start target e))
      ]

      address-Ends :
          (t : Option Target) → binding_of r start ≡ t → Ends c (address z p id r body t start)
      unfolding address end_row
      address-Ends none e =
          finish_outbox-Ends c start h OutboxState.permanent none _ none (unbound e)
      address-Ends (some target) e = process-Ends target e

    run_row-Ends : (body : Json) → HasBody c body → Ends c (run_row z p id r body start)
    unfolding run_row
    run_row-Ends (object body) e = address-Ends body e (binding_of r start) refl
    run_row-Ends null e = bodiless-Ends null e (λ f q. ground (arith, q))
    run_row-Ends (boolean b) e = bodiless-Ends (boolean b) e (λ f q. ground (arith, q))
    run_row-Ends (integer k) e = bodiless-Ends (integer k) e (λ f q. ground (arith, q))
    run_row-Ends (text t) e = bodiless-Ends (text t) e (λ f q. ground (arith, q))
    run_row-Ends (array items) e = bodiless-Ends (array items) e (λ f q. ground (arith, q))

    run_leased-Ends :
        Ensures
          (Left c)
          (λ more u. (more ≡ true) × Settled c u.outbox)
          (run_leased z p (some (id, r)) start)
    unfolding run_leased
    run_leased-Ends =
        or_raise-Ensures (Left c) _ (z.loads r.body_json) value_error _ start (inl h) (λ body e.
          continue-Ensures (Left c) (λ _ u. Settled c u.outbox) _ _ _ (run_row-Ends body e)
            (λ a u g. (refl, g)))

abbrev pub with_rows : Rows Row → Db → Db
with_rows rows db = record db { outbox = record db.outbox { rows = rows } }

-- The row with the lease of this worker.
abbrev pub own : Tools → Row → Row
own z b = with_lease z.instance_id z.clock.lease_until z.clock.now b

-- The run of the worker on row `k`, where `rows` are the rows without expired leases.
abbrev pub run_of :
    (z : Tools) (p : Provider) (db : Db) → Rows Row → (k : ℕ) → Row → k < db.outbox.next_id → Run
run_of z p db rows k b lt = record {
  tools = z;
  provider = p;
  start = with_rows (put_row k (own z b) rows) db;
  bound = db.outbox.next_id;
  id = k;
  row = own z b;
  below = lt;
}

abbrev pub RunOutcome : Tools → Provider → Db → Type 0
RunOutcome z p db =
    (rows : Rows Row) × Expires z.clock.now db.outbox.rows rows
    × ((NoneMayLease rows z.clock.now db.outbox.next_id
          × (run_once z p db ≡ (ok false, with_rows rows db)))
        ⊎ ((k : ℕ) × (b : Row) × (lt : k < db.outbox.next_id) × IsFirst rows z.clock.now
              db.outbox.next_id k b
            × Ensures (Left (run_of z p db rows k b lt))
                (λ more s. (more ≡ true) × Settled (run_of z p db rows k b lt) s.outbox)
                (run_once z p db)))

run_leased_of :
    (z : Tools) (p : Provider) (db : Db) (rows : Rows Row) (k : ℕ) (b : Row)
    (lt : k < db.outbox.next_id)
    → Ensures
        (Left (run_of z p db rows k b lt))
        (λ more s. (more ≡ true) × Settled (run_of z p db rows k b lt) s.outbox)
        (run_leased z p (some (k, own z b)) (with_rows (put_row k (own z b) rows) db))
unfolding is_leased
run_leased_of z p db rows k b lt =
    run_leased-Ends z p (with_rows (put_row k (own z b) rows) db) db.outbox.next_id k (own z b) lt (
      (omega arith, λ j less ne. refl),
      (own z b, put_row_self k _ rows, str_eq_refl z.instance_id),
    )

-- One run on storage that may hold provider work. First every lease that has run out is given up, with
-- an unknown outcome. If then no message may be leased, the run returns false and changes no more.
-- Otherwise it leases one of highest priority, the oldest of these, and changes no other row that was
-- there. If it returns, it returns true and the message is released, in a state and with an error
-- code for this reason: confirmed, unknown (for a title indeterminate), to be tried again or given up
-- with the code of an answer, since the provider or the sender of the user's messages answered so to
-- a request under the message's uuid (or to an update), and the message has a place to go to and is
-- no misdirected reply; to be tried again since an upload was confirmed with a key, or, with its
-- code, was to be tried again or unknown; given up with the code of an upload that was refused or
-- confirmed without a key; given up as a reply to an unknown message or one of another task or chat;
-- permanent since the body is no object, the message has no place to go to, or an image has no key. A
-- message that is given up is permanent, or final undelivered if it is a final one. If the run raises,
-- the message is settled in this way or is leased to this worker still.
pub run_once-RunOutcome :
    (z : Tools) (p : Provider) (db : Db) → IsWritable db.outbox → RunOutcome z p db
unfolding run_once run_leased
run_once-RunOutcome z p db w =
    let (rows, expires, result) =
      lease_outbox-LeasesFirst z.instance_id z.clock.lease_until z.clock.now db.outbox w in
    (
      rows,
      expires,
      elim result [
        | inl (idle, e) ↦ inl (idle, rw (run_once, e) refl)
        | inr (k, b, first, e) ↦
            inr (k, b, first.0, first, rw (run_once, e) (run_leased_of z p db rows k b first.0))
      ],
    )
