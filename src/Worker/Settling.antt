-- ===== src/Worker/Settling.antt =====
-- What the worker does with an answer settles the row.
use codex_feishu.Prelude.{ℕ, ◌<◌, String, ◌≡◌, refl, inl, inr, Option, none, some, Bool-cases}
use codex_feishu.Exec.{runtime_error, lost_compare_and_swap}
use codex_feishu.Exec.Ensures.{continue-Ensures, or_raise-Ensures}
use codex_feishu.Outbox.{Row, OutboxState}
use codex_feishu.Worker.{
  Tools, Provider, ProviderResult, ProviderOutcome, Db, truthy, terminal_state,
}
use codex_feishu.Worker.Reply.{Target, ReplyParent}
use codex_feishu.Worker.Confirm.{is_title, confirm_title, confirm_row}
use codex_feishu.Worker.Follow.{confirm}
use codex_feishu.Worker.Run.{
  end_row, fail_title, give_up_row, give_up, leave_unknown, settle_by, settle_answer,
}
use codex_feishu.Worker.Fate.{
  Run, Verdict, Sent, Held, Settled, Left, Ends, delivered, again, lost, lost_title, refused,
  refused_title, finish_outbox-Ends, confirm_task_title_update-Ends, fail_task_title_update-Ends,
}
use codex_feishu.Worker.Reasons.{terminal_state-GivenUp}
use codex_feishu.Worker.Uploading.{run, trip_final-Ends, retry_later-Ends}
use codex_feishu.Worker.Following.{extend_ancestry-Ends, follow-Ends, trip_auth-Ends}

module _ (z : Tools) (p : Provider) (start : Db) (n id : ℕ) (r : Row) (lt : id < n) where
  abbrev c : Run
  c = run z p start n id r lt

  module _ (s : Db) (h : Held c s.outbox) where
    confirm_row-Ends :
        (m : Option String) → Verdict c OutboxState.confirmed none → Ends c (confirm_row z id r m s)
    unfolding confirm_row confirm_title
    confirm_row-Ends m v = elim (Bool-cases (is_title r)) [
      | inl e ↦
          rw (confirm_row, e)
            (or_raise-Ensures (Left c) _ (truthy r.item_id) runtime_error _ s (inl h) (λ g _.
              or_raise-Ensures (Left c) _ r.thread_id lost_compare_and_swap _ s (inl h)
                (λ t _. confirm_task_title_update-Ends c s h t g v)))
      | inr e ↦ rw (confirm_row, e) (finish_outbox-Ends c s h OutboxState.confirmed m none none v)
    ]

    fail_title-Ends :
        (state : OutboxState) (code : String)
        → Verdict c state (some code)
        → Ends c (fail_title z id r state code s)
    unfolding fail_title
    fail_title-Ends state code v =
        or_raise-Ensures (Left c) _ r.thread_id lost_compare_and_swap _ s (inl h) (λ t _.
          or_raise-Ensures (Left c) _ r.item_id lost_compare_and_swap _ s (inl h)
            (λ g _. fail_task_title_update-Ends c s h t g state code v))

    end_row-Ends :
        (state : OutboxState) (code : String)
        → Verdict c state (some code)
        → Ends c (end_row z id state code s)
    unfolding end_row
    end_row-Ends state code v = finish_outbox-Ends c s h state none (some code) none v

    give_up_row-Ends :
        (a : ProviderResult)
        → Sent c a
        → a.outcome ≡ ProviderOutcome.permanent
        → Ends c (give_up_row z id r a.code s)
    unfolding give_up_row
    give_up_row-Ends a sent o = elim (Bool-cases (is_title r)) [
      | inl e ↦
          rw (give_up_row, e)
            (fail_title-Ends OutboxState.permanent a.code (refused_title a sent o e))
      | inr e ↦
          rw (give_up_row, e)
            (end_row-Ends (terminal_state r) a.code (refused a sent o (terminal_state-GivenUp r)))
    ]

    give_up-Ends :
        (a : ProviderResult)
        → Sent c a
        → a.outcome ≡ ProviderOutcome.permanent
        → Ends c (give_up z id r a.code s)
    unfolding give_up
    give_up-Ends a sent o =
        continue-Ensures (Left c) (λ _ u. Settled c u.outbox) (λ _ u. Settled c u.outbox) _ _
          (give_up_row-Ends a sent o)
          (λ x t g.
            continue-Ensures (Left c) (λ _ u. Settled c u.outbox) (λ _ u. Settled c u.outbox) _ _
              (trip_final-Ends c r t g) (λ y u k. trip_auth-Ends c a.code u k))

    leave_unknown-Ends :
        (a : ProviderResult)
        → Sent c a
        → a.outcome ≡ ProviderOutcome.unknown
        → Ends c (leave_unknown z id r a.code s)
    unfolding leave_unknown
    leave_unknown-Ends a sent o = elim (Bool-cases (is_title r)) [
      | inl e ↦
          rw (leave_unknown, e)
            (fail_title-Ends OutboxState.delivery_indeterminate a.code (lost_title a sent o e))
      | inr e ↦ rw (leave_unknown, e) (end_row-Ends OutboxState.unknown a.code (lost a sent o e))
    ]

    module _ (target : Target) (parent : Option ReplyParent) (t : String) (a : ProviderResult)
        (sent : Sent c a) where
      confirm-Ends :
          a.outcome ≡ ProviderOutcome.confirmed → Ends c (confirm z p id r target parent t a s)
      unfolding confirm
      confirm-Ends o =
          continue-Ensures (Left c) (λ _ u. Settled c u.outbox) (λ _ u. Settled c u.outbox) _ _
            (confirm_row-Ends a.message_id (delivered a sent o))
            (λ x u g.
              continue-Ensures (Left c) (λ _ w. Settled c w.outbox) (λ _ w. Settled c w.outbox) _ _
                (extend_ancestry-Ends c u g r target parent a (truthy a.message_id)
                  (truthy r.target_message_id))
                (λ y w k. follow-Ends c z p r target t a w k))

      settle_by-Ends :
          (o : ProviderOutcome) → a.outcome ≡ o → Ends c (settle_by z p id r target parent t a o s)
      unfolding settle_by
      settle_by-Ends ProviderOutcome.confirmed e = confirm-Ends e
      settle_by-Ends ProviderOutcome.retryable e =
          retry_later-Ends z p start n id r lt a.code a.retry_after_seconds r.attempt_count s
            (again a sent e) h
      settle_by-Ends ProviderOutcome.unknown e = leave_unknown-Ends a sent e
      settle_by-Ends ProviderOutcome.permanent e = give_up-Ends a sent e

      pub settle_answer-Ends : Ends c (settle_answer z p id r target parent t a s)
      unfolding settle_answer
      settle_answer-Ends = settle_by-Ends a.outcome refl
