-- ===== src/Inbound/Numbers/Calls.antt =====
-- Each call keeps the messages in the order of their numbers.
use codex_feishu.Prelude.{
  is_none, ℕ, ◌+◌, ◌<◌, String, ◌≡◌, refl, sym, subst, ap, inl, inr, Option, none, some, List, [],
  ◌∷◌, ◌++◌, find, update_where-All, str_eq, Bool-cases,
}
use codex_feishu.Exec.{Result, lost_compare_and_swap, ingress_rejected, integrity_error}
use codex_feishu.Exec.Keeps.{settle_state, or_raise_state, require_state}
use codex_feishu.Json.{Fields}
use codex_feishu.Inbound.{Sequence, Db, Binding, Capabilities, Confirmation, is_active, is_pending}
use codex_feishu.Inbound.Events.{Tools}
use codex_feishu.Inbound.Ingest.{
  new_message, adopt_thread, Decision, sequence_of, ingest, suppress_if_outbound_echo,
  open_conflict, is_outbound, adopt_thread, insert_message,
}
use codex_feishu.Inbound.Cases.{Grounds}
use codex_feishu.Inbound.Outcome.{IngestOutcome, ingest-outcome}
use codex_feishu.Inbound.Selection.{
  is_row, Writer, choose, is_selectable, begin_selection, queue_selection_confirmation, awaits,
  promote, confirm_selection, promote_selection, apply_selection, is_open, has_id, selection_id,
  lose_row, apply_found, mark_selection_indeterminate,
}
use codex_feishu.Inbound.Machine.{Call, after, after_all}
use codex_feishu.Inbound.Numbers.{
  IsNumbered, IsWellNumbered, set_state-IsOrdered, insert-IsNumbered,
}

module _ (db : Db) (numbered : IsWellNumbered db) where
  -- The calls that do not touch the messages leave the number alone too.
  replaced :
      (s next : Sequence)
      → db.sequence ≡ some s
      → next.next_ingest_seq ≡ s.next_ingest_seq
      → IsNumbered next.next_ingest_seq db.ingress_messages
  unfolding sequence_of
  replaced s next e f =
      subst (λ n. IsNumbered n db.ingress_messages) (sym f)
        (subst (λ o. IsNumbered (sequence_of o).next_ingest_seq db.ingress_messages) e numbered)

  begin-IsWellNumbered : (target : String) → IsWellNumbered (begin_selection target db).1
  unfolding begin_selection sequence_of
  begin-IsWellNumbered target = settle_state IsWellNumbered db _ numbered (
      or_raise_state IsWellNumbered db.sequence ingress_rejected _ db numbered λ s e.
        require_state IsWellNumbered (is_active s.selection_state) ingress_rejected _ db numbered
          λ _.
            require_state IsWellNumbered (is_selectable (db.task_bindings target)) ingress_rejected
              _ db numbered λ _. replaced s (choose target s) e refl)

  queue-IsWellNumbered :
      (w : Writer) (b : Binding) (target : String) (epoch now : ℕ)
      → IsWellNumbered (queue_selection_confirmation w b target epoch now db).1
  unfolding queue_selection_confirmation
  queue-IsWellNumbered w b target epoch now = settle_state IsWellNumbered db _ numbered (
      require_state IsWellNumbered
        (is_none (find (has_id (selection_id w target epoch)) db.selection_confirmations))
        integrity_error _ db numbered
        λ _.
          require_state IsWellNumbered
            (is_none (find (is_row (selection_id w target epoch)) db.provider_outbox))
            integrity_error _ db numbered λ _. numbered)

  confirm-IsWellNumbered :
      (target : String) (epoch : ℕ) → IsWellNumbered (confirm_selection target epoch db).1
  unfolding confirm_selection sequence_of
  confirm-IsWellNumbered target epoch =
      or_raise_state IsWellNumbered db.sequence ingress_rejected _ db numbered λ s e.
        require_state IsWellNumbered (awaits s target epoch) ingress_rejected _ db numbered
          λ _. replaced s (promote target epoch s) e refl

  apply-IsWellNumbered :
      (id : String) (o : Option Confirmation) → IsWellNumbered (apply_found id o db).1
  unfolding apply_found promote_selection sequence_of
  apply-IsWellNumbered id none = numbered
  apply-IsWellNumbered id (some c) = settle_state IsWellNumbered db _ numbered (
      or_raise_state IsWellNumbered db.sequence lost_compare_and_swap _ db numbered λ s e.
        require_state IsWellNumbered (awaits s c.target_thread_id c.binding_epoch)
          lost_compare_and_swap _ db numbered
          λ _. replaced s (promote c.target_thread_id c.binding_epoch s) e refl)

  mark-IsNumbered :
      (o : Option Sequence)
      → IsNumbered (sequence_of o).next_ingest_seq db.ingress_messages
      → IsNumbered (sequence_of (lose_row o)).next_ingest_seq db.ingress_messages
  unfolding lose_row sequence_of
  mark-IsNumbered none h = h
  mark-IsNumbered (some s) h = elim (Bool-cases (is_pending s.selection_state)) [
    | inl e ↦ rw e h
    | inr e ↦ rw e h
  ]

  suppress-IsWellNumbered : (id : String) → IsWellNumbered (suppress_if_outbound_echo id db).1
  unfolding suppress_if_outbound_echo IsNumbered
  suppress-IsWellNumbered id = elim (Bool-cases (is_outbound id db)) [
    | inr e ↦ rw e numbered
    | inl e ↦ rw e (
      set_state-IsOrdered (λ r. str_eq r.message_id id) "outbound_echo" db.ingress_messages
          numbered.0,
      update_where-All (λ r. r.ingest_seq < (sequence_of db.sequence).next_ingest_seq)
          (λ r. str_eq r.message_id id) (λ r. record r { routing_state = "outbound_echo" })
          db.ingress_messages (λ x k. k) numbered.1,
    )
  ]

  -- The routing of a message leaves the recorded messages alone.
  Grounds-messages :
      (b : Binding) (chat_id : String) (r p thread : Option String) (s : Sequence)
      (found : Option String) (next : Db)
      → Grounds b chat_id r p thread s db found next
      → next.ingress_messages ≡ db.ingress_messages
  unfolding adopt_thread
  Grounds-messages b chat_id r p thread s found next (inl (_, e)) = ap (λ d. d.ingress_messages) e
  Grounds-messages b chat_id r p thread s found next (inr (inl (_, _, _, _, _, e))) =
      ap (λ d. d.ingress_messages) e
  Grounds-messages b chat_id r p thread s found next
        (inr (inr (_, _, _, _, _, _, _, _, inl (_, e)))) =
      ap (λ d. d.ingress_messages) e
  Grounds-messages b chat_id r p thread s found next
        (inr (inr (_, _, _, _, _, _, _, _, inr (_, _, _, _, e)))) =
      ap (λ d. d.ingress_messages) e

  ingest-IsWellNumbered :
      (z : Tools) (b : Binding) (c : Capabilities) (event : Fields) (x : Result Decision × Db)
      → IngestOutcome z b c event db x
      → IsWellNumbered x.1
  unfolding open_conflict insert_message sequence_of
  ingest-IsWellNumbered z b c event _ (IngestOutcome.refused e) = numbered
  ingest-IsWellNumbered z b c event _ (IngestOutcome.conflicting m r _ _ _ _) = numbered
  ingest-IsWellNumbered z b c event _ (IngestOutcome.repeated d _ _ _) = numbered
  ingest-IsWellNumbered z b c event _
        (IngestOutcome.inserted m d next _ _ _ first
          (found, mid, target, state, is_delayed, epoch, g, _, _, _, _, e)) =
      let s = sequence_of db.sequence in
      let row = new_message m s epoch target state is_delayed in
      subst IsWellNumbered (sym e) (
        subst (λ rows. IsNumbered (s.next_ingest_seq + 1) (rows ++ (row ∷ [])))
          (sym (
            Grounds-messages b m.envelope.chat_id m.root_id m.parent_id m.provider_thread_id s found
              mid g))
          (insert-IsNumbered row s.next_ingest_seq db.ingress_messages refl first numbered))

  call-IsWellNumbered : (call : Call) → IsWellNumbered (after call db)
  unfolding after apply_selection mark_selection_indeterminate
  call-IsWellNumbered (Call.ingest_event z b c is_recent event) =
      ingest-IsWellNumbered z b c event (ingest z b c is_recent event db)
        (ingest-outcome z b c event db is_recent)
  call-IsWellNumbered (Call.suppress id) = suppress-IsWellNumbered id
  call-IsWellNumbered (Call.begin target) = begin-IsWellNumbered target
  call-IsWellNumbered (Call.queue w b target epoch now) = queue-IsWellNumbered w b target epoch now
  call-IsWellNumbered (Call.confirm target epoch) = confirm-IsWellNumbered target epoch
  call-IsWellNumbered (Call.apply id) =
      apply-IsWellNumbered id (find (is_open id) db.selection_confirmations)
  call-IsWellNumbered Call.mark = mark-IsNumbered db.sequence numbered

-- After any history of calls, whichever raise, from a database in which the messages stand in the
-- order of their numbers with different identities, all below the next number, this is so again.
pub after_all-IsWellNumbered :
    (calls : List Call) (db : Db) → IsWellNumbered db → IsWellNumbered (after_all calls db)
unfolding after_all
after_all-IsWellNumbered [] db h = h
after_all-IsWellNumbered (call ∷ calls) db h =
    after_all-IsWellNumbered calls (after call db) (call-IsWellNumbered db h call)
