-- ===== src/Inbound/Machine/Steps.antt =====
-- Each call that writes the tables of inbound messages is a step of the choice's state machine.
use mathlib.Core.Option.{some-injective}
use codex_feishu.Prelude.{
  is_none, find, false-true, ℕ, suc, ◌+◌, String, ◌≡◌, refl, sym, ap, subst, inl, inr, true, arith,
  Option, none, some, holds_str, eq_iff, Bool-cases,
}
use codex_feishu.Exec.{Result, lost_compare_and_swap, ingress_rejected, integrity_error}
use codex_feishu.Exec.Keeps.{settle_state, or_raise_state, require_state}
use codex_feishu.Json.{Fields}
use codex_feishu.Inbound.{
  SelectionState, Sequence, Db, Binding, Capabilities, Confirmation, is_active, is_pending,
}
use codex_feishu.Inbound.Events.{Tools}
use codex_feishu.Inbound.Ingest.{
  Decision, sequence_of, ingest, suppress_if_outbound_echo, open_conflict, is_outbound,
  insert_message,
}
use codex_feishu.Inbound.Outcome.{IngestOutcome, ingest-outcome}
use codex_feishu.Inbound.Selection.{
  is_row, Writer, choose, is_selectable, begin_selection, queue_selection_confirmation, holds_epoch,
  awaits, promote, confirm_selection, promote_selection, apply_selection, is_open, lose, has_id,
  selection_id, lose_row, apply_found, mark_selection_indeterminate,
}
use codex_feishu.Inbound.Machine.{Move, choice_of, choice, IsConsistent, Call, after}

-- What a call may do to the row of `chat_sequences`.
pub record Steps (before next : Sequence) : Type 0 where
  pub moves : Move (choice before) (choice next)
  pub stays_consistent : IsConsistent before → IsConsistent next

active_state : (x : SelectionState) → is_active x ≡ true → x ≡ SelectionState.active
unfolding is_active
active_state SelectionState.active h = refl
active_state SelectionState.selection_pending h = absurd (false-true h)
active_state SelectionState.selection_indeterminate h = absurd (false-true h)

pending_state : (x : SelectionState) → is_pending x ≡ true → x ≡ SelectionState.selection_pending
unfolding is_pending
pending_state SelectionState.active h = absurd (false-true h)
pending_state SelectionState.selection_pending h = refl
pending_state SelectionState.selection_indeterminate h = absurd (false-true h)

holds_str_lem : (o : Option String) (x : String) → holds_str o x ≡ true → o ≡ some x
holds_str_lem none x e = absurd (false-true e)
holds_str_lem (some y) x e = ap some (ground (arith, e, eq_iff y x))

-- The epoch that a confirmation names is the pending one.
holds_epoch_lem :
    (o : Option ℕ) (epoch active : ℕ)
    → o ≡ some (suc active)
    → holds_epoch o epoch ≡ true
    → epoch ≡ suc active
unfolding holds_epoch
holds_epoch_lem none epoch active e h = absurd (false-true h)
holds_epoch_lem (some n) epoch active e h =
    let same : n ≡ suc active = some-injective n (suc active) e in ground (arith, h, same)

stay-Steps : (s : Sequence) → Steps s s
stay-Steps s = record { moves = Move.stay (choice s); stays_consistent = λ h. h }

-- Only the number of the next message changes.
number-Steps : (s : Sequence) (n : ℕ) → Steps s (record s { next_ingest_seq = n })
unfolding choice IsConsistent
number-Steps s n = record { moves = Move.stay (choice s); stays_consistent = λ h. h }

choose-Steps :
    (target : String) (s : Sequence)
    → is_active s.selection_state ≡ true
    → Steps s (choose target s)
unfolding choice choice_of IsConsistent
choose-Steps target s active = record {
  moves =
      rw (active_state s.selection_state active)
        (Move.start s.current_task_id s.active_binding_epoch target);
  stays_consistent = λ h k. ((target, refl), ap some (omega arith));
}

promote-Steps :
    (target : String) (epoch : ℕ) (s : Sequence)
    → IsConsistent s
    → awaits s target epoch ≡ true
    → Steps s (promote target epoch s)
unfolding choice choice_of IsConsistent awaits is_pending
promote-Steps target epoch s h w =
    let pending : is_pending s.selection_state ≡ true = ground (arith, w) in
    let same : s.pending_task_id ≡ some target =
      holds_str_lem s.pending_task_id target (ground (arith, w)) in
    let next : epoch ≡ suc s.active_binding_epoch =
      holds_epoch_lem s.pending_binding_epoch epoch s.active_binding_epoch (h pending).1
        (ground (arith, w)) in
    record {
      moves =
          rw (pending_state s.selection_state pending, same, next)
            (Move.finish s.current_task_id s.active_binding_epoch target);
      stays_consistent = λ c k. absurd (false-true k);
    }

lose-Steps : (s : Sequence) → IsConsistent s → Steps s (lose s)
unfolding choice choice_of IsConsistent is_pending
lose-Steps s h = elim (Bool-cases (is_pending s.selection_state)) [
  | inr e ↦ rw e (stay-Steps s)
  | inl e ↦ rw e record {
    moves =
        rw (pending_state s.selection_state e, (h e).0.1)
          (Move.give_up s.current_task_id s.active_binding_epoch (h e).0.0);
    stays_consistent = λ c k. absurd (false-true k);
  }
]

lose_row-Steps :
    (o : Option Sequence)
    → IsConsistent (sequence_of o)
    → Steps (sequence_of o) (sequence_of (lose_row o))
unfolding lose_row sequence_of
lose_row-Steps none h = stay-Steps (sequence_of none)
lose_row-Steps (some s) h = lose-Steps s h

module _ (db : Db) (consistent : IsConsistent (sequence_of db.sequence)) where
  abbrev pub Allowed : Db → Type 0
  Allowed next = Steps (sequence_of db.sequence) (sequence_of next.sequence)

  -- A call that raises, or that leaves the row alone.
  unchanged : (next : Db) → next.sequence ≡ db.sequence → Allowed next
  unchanged next e = rw e (stay-Steps (sequence_of db.sequence))

  -- The row is there, and is replaced.
  replaced :
      (s next : Sequence)
      → db.sequence ≡ some s
      → Steps s next
      → Steps (sequence_of db.sequence) (sequence_of (some next))
  unfolding sequence_of
  replaced s next e h = subst (λ o. Steps (sequence_of o) next) (sym e) h

  IsConsistent-row : (s : Sequence) → db.sequence ≡ some s → IsConsistent s
  unfolding sequence_of
  IsConsistent-row s e = subst (λ o. IsConsistent (sequence_of o)) e consistent

  begin-Allowed : (target : String) → Allowed (begin_selection target db).1
  unfolding begin_selection
  begin-Allowed target = settle_state Allowed db _ (unchanged db refl) (
      or_raise_state Allowed db.sequence ingress_rejected _ db (unchanged db refl) λ s e.
        require_state Allowed (is_active s.selection_state) ingress_rejected _ db
          (unchanged db refl)
          λ a.
            require_state Allowed (is_selectable (db.task_bindings target)) ingress_rejected _ db
              (unchanged db refl) λ t. replaced s (choose target s) e (choose-Steps target s a))

  queue-Allowed :
      (w : Writer) (b : Binding) (target : String) (epoch now : ℕ)
      → Allowed (queue_selection_confirmation w b target epoch now db).1
  unfolding queue_selection_confirmation
  queue-Allowed w b target epoch now = settle_state Allowed db _ (unchanged db refl) (
      require_state Allowed
        (is_none (find (has_id (selection_id w target epoch)) db.selection_confirmations))
        integrity_error _ db (unchanged db refl)
        λ _.
          require_state Allowed
            (is_none (find (is_row (selection_id w target epoch)) db.provider_outbox))
            integrity_error _ db (unchanged db refl) λ _. stay-Steps (sequence_of db.sequence))

  confirm-Allowed : (target : String) (epoch : ℕ) → Allowed (confirm_selection target epoch db).1
  unfolding confirm_selection
  confirm-Allowed target epoch =
      or_raise_state Allowed db.sequence ingress_rejected _ db (unchanged db refl) λ s e.
        require_state Allowed (awaits s target epoch) ingress_rejected _ db (unchanged db refl) λ w.
          replaced s (promote target epoch s) e
            (promote-Steps target epoch s (IsConsistent-row s e) w)

  promote-Allowed : (id : String) (c : Confirmation) → Allowed (promote_selection id c db).1
  unfolding promote_selection
  promote-Allowed id c = settle_state Allowed db _ (unchanged db refl) (
      or_raise_state Allowed db.sequence lost_compare_and_swap _ db (unchanged db refl) λ s e.
        require_state Allowed (awaits s c.target_thread_id c.binding_epoch) lost_compare_and_swap _
          db (unchanged db refl)
          λ w.
            replaced s (promote c.target_thread_id c.binding_epoch s) e
              (promote-Steps c.target_thread_id c.binding_epoch s (IsConsistent-row s e) w))

  apply_found-Allowed : (id : String) (o : Option Confirmation) → Allowed (apply_found id o db).1
  unfolding apply_found
  apply_found-Allowed id none = unchanged db refl
  apply_found-Allowed id (some c) = promote-Allowed id c

  suppress-Allowed : (id : String) → Allowed (suppress_if_outbound_echo id db).1
  unfolding suppress_if_outbound_echo
  suppress-Allowed id = elim (Bool-cases (is_outbound id db)) [
    | inl e ↦ rw e (stay-Steps (sequence_of db.sequence))
    | inr e ↦ rw e (stay-Steps (sequence_of db.sequence))
  ]

  outcome-Allowed :
      (z : Tools) (b : Binding) (c : Capabilities) (event : Fields) (x : Result Decision × Db)
      → IngestOutcome z b c event db x
      → Allowed x.1
  unfolding open_conflict insert_message sequence_of
  outcome-Allowed z b c event _ (IngestOutcome.refused e) = stay-Steps (sequence_of db.sequence)
  outcome-Allowed z b c event _ (IngestOutcome.conflicting m r _ _ _ _) =
      stay-Steps (sequence_of db.sequence)
  outcome-Allowed z b c event _ (IngestOutcome.repeated d _ _ _) =
      stay-Steps (sequence_of db.sequence)
  outcome-Allowed z b c event _
        (IngestOutcome.inserted m d next _ _ _ _ (_, _, _, _, _, _, _, _, _, _, _, e)) =
      let s = sequence_of db.sequence in
      let row : next.sequence ≡ some (record s { next_ingest_seq = s.next_ingest_seq + 1 }) =
        ap (λ x. x.sequence) e in
      subst (λ o. Steps s (sequence_of o)) (sym row) (number-Steps s (s.next_ingest_seq + 1))

  pub call-Allowed : (call : Call) → Allowed (after call db)
  unfolding after apply_selection mark_selection_indeterminate
  call-Allowed (Call.ingest_event z b c is_recent event) =
      outcome-Allowed z b c event (ingest z b c is_recent event db)
        (ingest-outcome z b c event db is_recent)
  call-Allowed (Call.suppress id) = suppress-Allowed id
  call-Allowed (Call.begin target) = begin-Allowed target
  call-Allowed (Call.queue w b target epoch now) = queue-Allowed w b target epoch now
  call-Allowed (Call.confirm target epoch) = confirm-Allowed target epoch
  call-Allowed (Call.apply id) =
      apply_found-Allowed id (find (is_open id) db.selection_confirmations)
  call-Allowed Call.mark = lose_row-Steps db.sequence consistent
