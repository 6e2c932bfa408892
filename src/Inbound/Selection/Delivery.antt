-- ===== src/Inbound/Selection/Delivery.antt =====
-- A selection that is begun, queued and delivered.
use mathlib.Core.Option.{none-ne-some, some-injective}
use codex_feishu.Prelude.{
  ℕ, ◌+◌, String, ◌≡◌, refl, sym, subst, ap, ◌∙◌, true, false, arith, none, some, is_none,
  is_none_lem, List, [], ◌∷◌, ◌++◌, All-weaken, find, find-none, find-after, str_eq, eq_iff,
  false-true,
}
use codex_feishu.Exec.{
  Error, Result, ok, err, settle, Done, ingress_rejected, integrity_error, lost_compare_and_swap,
}
use codex_feishu.Exec.Keeps.{or_raise_cases, require_cases}
use codex_feishu.Inbound.{
  SelectionState, Sequence, Confirmation, Db, Binding, is_active, is_pending,
}
use codex_feishu.Inbound.Selection.{
  Writer, choose, is_selectable, begin_selection, selection_id, selection_row, new_confirmation,
  has_id, is_row, queue_selection_confirmation, holds_epoch, awaits, promote, is_open,
  promote_selection, apply_found, apply_selection,
}

-- `begin_selection` returns only from a settled choice, and leaves a pending one.
begin_cases :
    (P : Result ℕ × Db → Type 0) (target : String) (db : Db)
    → ((e : Error) → P (err e, db))
    → ((s : Sequence)
        → P (ok (s.active_binding_epoch + 1), record db { sequence = some (choose target s) }))
    → P (begin_selection target db)
unfolding begin_selection
begin_cases P target db raised chosen =
    or_raise_cases (λ x. P (settle db x)) db.sequence ingress_rejected _ db
      (λ _. raised ingress_rejected)
      λ s e.
        require_cases (λ x. P (settle db x)) (is_active s.selection_state) ingress_rejected _ db
          (λ _. raised ingress_rejected)
          λ _.
            require_cases (λ x. P (settle db x)) (is_selectable (db.task_bindings target))
              ingress_rejected _ db (λ _. raised ingress_rejected) λ _. chosen s

abbrev queued : Writer → Binding → String → ℕ → ℕ → Db → Db
queued w b target epoch now db = record db {
  selection_confirmations = db.selection_confirmations ++ (new_confirmation w target epoch ∷ []);
  provider_outbox = db.provider_outbox ++ (selection_row w b target epoch now ∷ []);
}

queue_cases :
    (P : Result String × Db → Type 0) (w : Writer) (b : Binding) (target : String) (epoch now : ℕ)
    (db : Db)
    → ((e : Error) → P (err e, db))
    → (find (has_id (selection_id w target epoch)) db.selection_confirmations ≡ none
        → P (ok (selection_id w target epoch), queued w b target epoch now db))
    → P (queue_selection_confirmation w b target epoch now db)
unfolding queue_selection_confirmation
queue_cases P w b target epoch now db raised done =
    require_cases (λ x. P (settle db x))
      (is_none (find (has_id (selection_id w target epoch)) db.selection_confirmations))
      integrity_error _ db (λ _. raised integrity_error)
      λ e.
        require_cases (λ x. P (settle db x))
          (is_none (find (is_row (selection_id w target epoch)) db.provider_outbox)) integrity_error
          _ db (λ _. raised integrity_error)
          λ _.
            done (
              is_none_lem (find (has_id (selection_id w target epoch)) db.selection_confirmations)
                e)

err-ok : {A : Type 0} (e : Error) (a : A) → err e ≡ ok a → ⊥
err-ok e a p = ground (arith, p)

abbrev value : {A : Type 0} → A → Result A → A
value a (ok b) = b
value a (err e) = a

begin-returns :
    (target : String) (db after : Db) (epoch : ℕ)
    → begin_selection target db ≡ (ok epoch, after)
    → (s : Sequence) × (epoch ≡ s.active_binding_epoch + 1)
      × (after ≡ record db { sequence = some (choose target s) })
begin-returns target db next epoch =
    begin_cases
      (λ x.
        x ≡ (ok epoch, next)
        → (s : Sequence) × (epoch ≡ s.active_binding_epoch + 1)
          × (next ≡ record db { sequence = some (choose target s) }))
      target db (λ e h. absurd (err-ok e epoch (ap (λ x. x.0) h)))
      λ s h. (s, sym (ap (λ x. value 0 x.0) h), sym (ap (λ x. x.1) h))

queue-returns :
    (w : Writer) (b : Binding) (target : String) (epoch now : ℕ) (db after : Db) (id : String)
    → queue_selection_confirmation w b target epoch now db ≡ (ok id, after)
    → (find (has_id (selection_id w target epoch)) db.selection_confirmations ≡ none)
      × (id ≡ selection_id w target epoch)
      × (after ≡ queued w b target epoch now db)
queue-returns w b target epoch now db next id =
    queue_cases
      (λ x.
        x ≡ (ok id, next)
        → (find (has_id (selection_id w target epoch)) db.selection_confirmations ≡ none)
          × (id ≡ selection_id w target epoch)
          × (next ≡ queued w b target epoch now db))
      w b target epoch now db (λ e h. absurd (err-ok e id (ap (λ x. x.0) h)))
      λ f h. (f, sym (ap (λ x. value "" x.0) h), sym (ap (λ x. x.1) h))

str_eq_refl : (s : String) → str_eq s s ≡ true
str_eq_refl s = ground (arith, eq_iff s s)

find-queued :
    (c : Confirmation) (rows : List Confirmation)
    → c.state ≡ "pending"
    → find (has_id c.logical_message_id) rows ≡ none
    → find (is_open c.logical_message_id) (rows ++ (c ∷ [])) ≡ some c
unfolding find
find-queued c rows e f =
    find-after (is_open c.logical_message_id) rows (c ∷ []) (
      All-weaken (λ x. has_id c.logical_message_id x ≡ false)
        (λ x. is_open c.logical_message_id x ≡ false) rows (λ x k. ground (arith, k))
        (find-none (has_id c.logical_message_id) rows f))
    ∙ rw (str_eq_refl c.logical_message_id, e) refl

-- The pending row awaits the very confirmation that was queued for it.
awaits-choose :
    (target : String) (s : Sequence)
    → awaits (choose target s) target (s.active_binding_epoch + 1) ≡ true
unfolding awaits is_pending holds_epoch
awaits-choose target s = ground (arith, eq_iff target target)

-- The row is settled on the task.
abbrev pub IsSettledOn : String → ℕ → Result Done × Db → Type 0
IsSettledOn target epoch x =
    (x.0 ≡ ok tt)
    × ((s : Sequence) × (x.1.sequence ≡ some s)
        × (s.current_task_id ≡ some target)
        × (s.active_binding_epoch ≡ epoch)
        × (s.selection_state ≡ SelectionState.active))

promote-settles :
    (id : String) (c : Confirmation) (s : Sequence) (db : Db)
    → db.sequence ≡ some s
    → awaits s c.target_thread_id c.binding_epoch ≡ true
    → IsSettledOn c.target_thread_id c.binding_epoch (promote_selection id c db)
unfolding promote_selection
promote-settles id c s db e f =
    let P : Result Done × Db → Type 0 =
      λ x. IsSettledOn c.target_thread_id c.binding_epoch (settle db x) in
    or_raise_cases P db.sequence lost_compare_and_swap _ db
      (λ k. absurd (none-ne-some s (sym k ∙ e)))
      λ t k.
        require_cases P (awaits t c.target_thread_id c.binding_epoch) lost_compare_and_swap _ db
          (λ n. absurd (
            false-true (
              sym n
              ∙ subst (λ y. awaits y c.target_thread_id c.binding_epoch ≡ true)
                  (some-injective s t (sym e ∙ k)) f)))
          λ _. (refl, (promote c.target_thread_id c.binding_epoch t, refl, refl, refl, refl))

-- A selection whose calls of `begin_selection` and of `queue_selection_confirmation`, with the
-- returned epoch, both return takes effect when its message is delivered: the worker's transaction
-- succeeds, and then the task is the current one under that epoch and no choice is pending.
pub select-apply :
    (w : Writer) (b : Binding) (target : String) (now : ℕ) (db chosen sent : Db) (epoch : ℕ)
    (id : String)
    → begin_selection target db ≡ (ok epoch, chosen)
    → queue_selection_confirmation w b target epoch now chosen ≡ (ok id, sent)
    → IsSettledOn target epoch (apply_selection id sent)
unfolding apply_selection apply_found
select-apply w b target now db chosen sent epoch id h k =
    let (s, e, f) = begin-returns target db chosen epoch h in
    let (fresh, i, g) = queue-returns w b target epoch now chosen sent id k in
    let c = new_confirmation w target epoch in
    let found : find (is_open id) sent.selection_confirmations ≡ some c =
      subst (λ y. find (is_open y) sent.selection_confirmations ≡ some c) (sym i)
        (subst (λ d. find (is_open c.logical_message_id) d.selection_confirmations ≡ some c) (sym g)
          (find-queued c chosen.selection_confirmations refl fresh)) in
    let row : sent.sequence ≡ some (choose target s) =
      ap (λ d. d.sequence) g ∙ ap (λ d. d.sequence) f in
    let ready : awaits (choose target s) target epoch ≡ true =
      subst (λ n. awaits (choose target s) target n ≡ true) (sym e) (awaits-choose target s) in
    subst (λ o. IsSettledOn target epoch (apply_found id o sent)) (sym found)
      (promote-settles id c (choose target s) sent row ready)
