-- ===== src/Inbound/Machine.antt =====
-- The choice of the current task as a state machine: what `chat_sequences` means, apart from how its
-- row spells it, and the histories of the calls that write it.
mod Steps
pub mod Refinement
use codex_feishu.Prelude.{ℕ, suc, String, ◌≡◌, Bool, true, Option, none, some, List, [], ◌∷◌}
use codex_feishu.Json.{Fields}
use codex_feishu.Inbound.{SelectionState, Sequence, Db, Binding, Capabilities, is_pending}
use codex_feishu.Inbound.Events.{Tools}
use codex_feishu.Inbound.Ingest.{sequence_of, ingest, suppress_if_outbound_echo}
use codex_feishu.Inbound.Selection.{
  Writer, begin_selection, queue_selection_confirmation, confirm_selection, apply_selection,
  mark_selection_indeterminate,
}

-- What the owner has chosen: a task with the epoch of its choice, another task that awaits its
-- confirmation, or a choice whose confirmation is lost.
pub data Choice : Type 0 where
  settled : Option String → ℕ → Choice
  choosing : Option String → ℕ → String → Choice
  lost : Option String → ℕ → Choice

unfoldable pub epoch_of : Choice → ℕ
epoch_of (Choice.settled t e) = e
epoch_of (Choice.choosing t e x) = e
epoch_of (Choice.lost t e) = e

unfoldable pub task_of : Choice → Option String
task_of (Choice.settled t e) = t
task_of (Choice.choosing t e x) = t
task_of (Choice.lost t e) = t

-- The steps of a choice. A choice that is lost stays so.
pub data Move : Choice → Choice → Type 0 where
  stay : (c : Choice) → Move c c
  start :
      (t : Option String) (e : ℕ) (x : String) → Move (Choice.settled t e) (Choice.choosing t e x)
  finish :
      (t : Option String) (e : ℕ) (x : String)
      → Move (Choice.choosing t e x) (Choice.settled (some x) (suc e))
  give_up :
      (t : Option String) (e : ℕ) (x : String) → Move (Choice.choosing t e x) (Choice.lost t e)

pub data Moves : Choice → Choice → Type 0 where
  done : (c : Choice) → Moves c c
  move : (a b c : Choice) → Move a b → Moves b c → Moves a c

-- The choice that a row of `chat_sequences` stands for.
unfoldable pub choice_of : SelectionState → Option String → ℕ → Option String → Choice
choice_of SelectionState.active t e x = Choice.settled t e
choice_of SelectionState.selection_pending t e none = Choice.lost t e
choice_of SelectionState.selection_pending t e (some x) = Choice.choosing t e x
choice_of SelectionState.selection_indeterminate t e x = Choice.lost t e

unfoldable pub choice : Sequence → Choice
choice s = choice_of s.selection_state s.current_task_id s.active_binding_epoch s.pending_task_id

unfoldable pub view : Db → Choice
view db = choice (sequence_of db.sequence)

-- A pending choice has a task, and its epoch is the next one.
unfoldable pub IsConsistent : Sequence → Type 0
IsConsistent s =
    is_pending s.selection_state ≡ true
    → ((x : String) × (s.pending_task_id ≡ some x))
      × (s.pending_binding_epoch ≡ some (suc s.active_binding_epoch))

-- The calls that write the tables of inbound messages.
pub data Call : Type 0 where
  ingest_event :
      (z : Tools) (b : Binding) (c : Capabilities) (is_recent : ℕ → Bool) (event : Fields) → Call
  suppress : (message_id : String) → Call
  begin : (target : String) → Call
  queue : (w : Writer) (b : Binding) (target : String) (epoch now : ℕ) → Call
  confirm : (target : String) (epoch : ℕ) → Call
  apply : (logical_message_id : String) → Call
  mark : Call

-- The database after a call, whether it returns or raises.
unfoldable pub after : Call → Db → Db
after (Call.ingest_event z b c is_recent event) db = (ingest z b c is_recent event db).1
after (Call.suppress id) db = (suppress_if_outbound_echo id db).1
after (Call.begin target) db = (begin_selection target db).1
after (Call.queue w b target epoch now) db =
    (queue_selection_confirmation w b target epoch now db).1
after (Call.confirm target epoch) db = (confirm_selection target epoch db).1
after (Call.apply id) db = (apply_selection id db).1
after Call.mark db = (mark_selection_indeterminate db).1

unfoldable pub after_all : List Call → Db → Db
after_all [] db = db
after_all (call ∷ calls) db = after_all calls (after call db)
