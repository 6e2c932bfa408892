-- ===== src/Inbound/Machine/Refinement.antt =====
-- The histories of the calls refine the state machine, and what that says of the columns.
use codex_feishu.Prelude.{
  ℕ, ◌≤◌, String, ◌≡◌, ◌∙◌, refl, sym, arith, Option, none, some, List, [], ◌∷◌,
}
use codex_feishu.Inbound.{SelectionState, Sequence, Db}
use codex_feishu.Inbound.Ingest.{sequence_of}
use codex_feishu.Inbound.Machine.{
  Choice, Move, Moves, epoch_of, task_of, choice_of, choice, view, IsConsistent, Call, after,
  after_all,
}
use codex_feishu.Inbound.Machine.Steps.{call-Allowed}

-- From a consistent row of `chat_sequences` (none counts as the row that `ingest` inserts), every
-- history of calls, whichever raise, is a history of the machine of choices, and the row is
-- consistent after it.
pub after_all-refines :
    (calls : List Call) (db : Db)
    → IsConsistent (sequence_of db.sequence)
    → Moves (view db) (view (after_all calls db))
      × IsConsistent (sequence_of (after_all calls db).sequence)
unfolding after_all view
after_all-refines [] db h = (Moves.done (view db), h)
after_all-refines (call ∷ calls) db h =
    let step = call-Allowed db h call in
    let rest = after_all-refines calls (after call db) (step.stays_consistent h) in
    (
      Moves.move (view db) (view (after call db)) (view (after_all calls (after call db)))
          step.moves rest.0,
      rest.1,
    )

-- Along a history of the machine the epoch does not fall, and the task changes only with it.
abbrev IsLater : Choice → Choice → Type 0
IsLater c d = (epoch_of c ≤ epoch_of d) × (epoch_of c ≡ epoch_of d → task_of c ≡ task_of d)

Move-IsLater : (c d : Choice) → Move c d → IsLater c d
unfolding epoch_of task_of
Move-IsLater c _ (Move.stay _) = (omega arith, λ _. refl)
Move-IsLater _ _ (Move.start t e x) = (omega arith, λ _. refl)
Move-IsLater _ _ (Move.finish t e x) = (omega arith, λ k. absurd (omega (arith, k)))
Move-IsLater _ _ (Move.give_up t e x) = (omega arith, λ _. refl)

Moves-IsLater : (c d : Choice) → Moves c d → IsLater c d
Moves-IsLater c _ (Moves.done _) = (omega arith, λ _. refl)
Moves-IsLater a d (Moves.move _ b _ m rest) =
    let first = Move-IsLater a b m in
    let later = Moves-IsLater b d rest in
    (
      omega (arith, first.0, later.0),
      λ k.
          first.1 (omega (arith, first.0, later.0, k))
          ∙ later.1 (omega (arith, first.0, later.0, k)),
    )

epoch_of-choice_of :
    (x : SelectionState) (t : Option String) (e : ℕ) (p : Option String)
    → (epoch_of (choice_of x t e p) ≡ e) × (task_of (choice_of x t e p) ≡ t)
unfolding epoch_of task_of choice_of
epoch_of-choice_of SelectionState.active t e p = (refl, refl)
epoch_of-choice_of SelectionState.selection_pending t e none = (refl, refl)
epoch_of-choice_of SelectionState.selection_pending t e (some x) = (refl, refl)
epoch_of-choice_of SelectionState.selection_indeterminate t e p = (refl, refl)

columns :
    (s : Sequence)
    → (epoch_of (choice s) ≡ s.active_binding_epoch) × (task_of (choice s) ≡ s.current_task_id)
unfolding choice
columns s =
    epoch_of-choice_of s.selection_state s.current_task_id s.active_binding_epoch s.pending_task_id

-- From a consistent row of `chat_sequences`, no history of calls, whichever raise, lowers
-- `active_binding_epoch`, and a history that leaves the epoch as it is leaves the current task as it
-- is.
pub after_all-epoch :
    (calls : List Call) (db : Db)
    → IsConsistent (sequence_of db.sequence)
    → ((sequence_of db.sequence).active_binding_epoch
        ≤ (sequence_of (after_all calls db).sequence).active_binding_epoch)
      × ((sequence_of db.sequence).active_binding_epoch
            ≡ (sequence_of (after_all calls db).sequence).active_binding_epoch
          → (sequence_of db.sequence).current_task_id
            ≡ (sequence_of (after_all calls db).sequence).current_task_id)
unfolding view
after_all-epoch calls db h =
    let s = sequence_of db.sequence in
    let t = sequence_of (after_all calls db).sequence in
    let later = Moves-IsLater (choice s) (choice t) (after_all-refines calls db h).0 in
    let old = columns s in
    let new = columns t in
    (
      omega (arith, later.0, old.0, new.0),
      λ k. sym old.1 ∙ (later.1 (omega (arith, old.0, new.0, k)) ∙ new.1),
    )
