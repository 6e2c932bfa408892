-- ===== src/Tests/InboundTests.antt =====
-- A private chat with a current task, a message in it, and a choice of another task.
use codex_feishu.Prelude.{
  false-true, ℕ, String, ◌≡◌, ◌≤◌, refl, ◌⊎◌, true, false, none, some, List, [], ◌∷◌, ltb, ◌==◌,
  find, str_eq, if◌then◌else◌, every, any, codes_eq,
}
use codex_feishu.Exec.{Result, ok}
use codex_feishu.Json.{is_falsy, lookup, Fields, text, object, no_fields, field}
use codex_feishu.Commands.{
  is_no_argument, is_identifier, one_token, is_remainder, ends_in_space, is_padded, is_plain,
  split_name, read_argument, read_command, admits_argument, is_admitted, admit, parse_command,
}
use codex_feishu.Inbound.{
  SelectionState, Task, IngressMessage, Db, Binding, Capabilities, is_active, is_pending,
}
use codex_feishu.Inbound.Events.{
  read_envelope, is_bound, read_text, is_resource_key, is_file_name, read_file_name,
  read_attachment, read_content, read_reference, Tools, Message, read_event,
}
use codex_feishu.Inbound.Ingest.{
  new_message, identity_epoch, is_task_of, is_reply_to, adopt_thread, is_topic_reply, route_topic,
  route_reply, route_current, pair_rows, find_both, route_found, route, is_global, control_route,
  settle_route, is_echo_of, find_echo, open_conflict, new_ancestry, is_stale, insert_message,
  record_routed, record_message, is_outbound, is_same, repeat, receive, answer,
  suppress_if_outbound_echo, Decision, ingest, sequence_of, chat_is_authorized,
}
use codex_feishu.Inbound.Selection.{
  is_selectable, first_chars, selection_row, stable_uuid, Writer, begin_selection,
  queue_selection_confirmation, apply_selection,
}
use codex_feishu.Inbound.Selection.Delivery.{IsSettledOn, select-apply}
use codex_feishu.Inbound.Machine.{Call, Moves, view, IsConsistent, after_all}
use codex_feishu.Inbound.Machine.Refinement.{after_all-refines, after_all-epoch}
use codex_feishu.Inbound.Numbers.{IsWellNumbered, IsNumbered}
use codex_feishu.Inbound.Numbers.Calls.{after_all-IsWellNumbered}
use codex_feishu.Inbound.Routing.{IsCurrent, IsReplyIn, ingest-target}
use codex_feishu.Inbound.Duplicates.{Known, ingest-Known}

abbrev tools : Tools
tools = record {
  sha256 = λ s. s;
  raw_hash = λ v. some "raw";
  loads = λ s. some (object (field "text" (text s) no_fields));
  dump_text = λ s. s;
  unicode = record { nfc = λ s. s; is_control = λ c. ltb c 32; is_space = λ c. c == 32 };
}

abbrev writer : Writer
writer = record { tools = tools; str = λ n. if n == 2 then "2" else "?"; uuid5 = λ s. s }

abbrev private_chat : Binding
private_chat = record {
  tenant_key = "t";
  app_id = "a";
  target_chat_type = "p2p";
  target_chat_id = "chat";
  is_topic_group = false;
}

abbrev all_enabled : Capabilities
all_enabled = record { controls = true; text = true; images = true; files = true }

abbrev message_fields : String → Fields
message_fields content = field "message_id" (text "m1") (
    field "chat_id" (text "chat") (
      field "chat_type" (text "p2p")
        (field "message_type" (text "text") (field "content" (text content) no_fields))))

abbrev message_event : String → Fields
message_event content =
    field "header"
      (object (
        field "tenant_key" (text "t")
          (field "app_id" (text "a") (field "event_id" (text "e1") no_fields))))
      (field "event"
        (object (
          field "sender"
            (object (
              field "sender_type" (text "user") (
                field "tenant_key" (text "t")
                  (field "sender_id" (object (field "open_id" (text "o") no_fields)) no_fields))))
            (field "message" (object (message_fields content)) no_fields)))
        no_fields)

abbrev message : String → Message
message content = record {
  envelope = record {
    tenant = "t";
    app_id = "a";
    event_id = "e1";
    open_id = "o";
    sender_type = "user";
    sender_tenant = "t";
    message_id = "m1";
    chat_id = "chat";
    chat_type = "p2p";
    message_type = "text";
    message = message_fields content;
  };
  content = record { text = content; command = none; resource = none };
  content_hash = content;
  raw_hash = "raw";
  root_id = none;
  parent_id = none;
  provider_thread_id = none;
}

abbrev task : Task
task = record {
  opted_in = true;
  anchor_state = "confirmed";
  conversation_mode = "p2p";
  current_binding_epoch = 0;
  chat_id = some "chat";
  provider_thread_id = none;
}

abbrev start : Db
start = record {
  ingress_messages = [];
  ingress_payloads = [];
  ingress_attachments = [];
  sequence = some (record {
    next_ingest_seq = 1;
    current_task_id = some "first";
    active_binding_epoch = 1;
    pending_task_id = none;
    pending_binding_epoch = none;
    selection_state = SelectionState.active;
  });
  message_ancestry = [];
  task_bindings = λ k. if str_eq k "second" then some task else none;
  project_groups = [];
  identity = some (record { binding_epoch = 1; state = "active" });
  provider_outbox = [];
  selection_confirmations = [];
  circuit_breakers = λ k. none;
}

abbrev received : Result Decision × Db
received = ingest tools private_chat all_enabled (λ n. true) (message_event "hi") start

abbrev to_first : Decision
to_first = record {
  duplicate = false;
  routing_state = "routed_current";
  target_thread_id = some "first";
  ingest_seq = some 1;
  command = none;
}

received_goes_to_first : received.0 ≡ ok to_first
unfolding find any every codes_eq is_no_argument is_identifier one_token is_remainder ends_in_space
    is_padded is_plain split_name read_argument read_command admits_argument is_admitted admit
    parse_command read_envelope is_bound read_text is_resource_key is_file_name read_file_name
    read_attachment read_content is_falsy read_reference read_event chat_is_authorized
    identity_epoch is_task_of is_reply_to adopt_thread is_topic_reply route_topic route_reply
    route_current pair_rows find_both route_found route is_global control_route settle_route
    is_echo_of find_echo open_conflict sequence_of new_ancestry is_stale insert_message
    record_routed record_message is_outbound is_same repeat receive answer ingest
    suppress_if_outbound_echo is_active is_pending lookup
received_goes_to_first = refl

abbrev recorded : IngressMessage
recorded =
    new_message (message "hi") (sequence_of start.sequence) 1 (some "first") "routed_current" false

ingest-target_example :
    (m : Message) × (read_event tools private_chat all_enabled (message_event "hi") ≡ some m)
    × (chat_is_authorized private_chat m.envelope.chat_id start ≡ true)
    × (IsCurrent private_chat start "first" ⊎ IsReplyIn private_chat m start "first")
unfolding find any every codes_eq is_no_argument is_identifier one_token is_remainder ends_in_space
    is_padded is_plain split_name read_argument read_command admits_argument is_admitted admit
    parse_command read_envelope is_bound read_text is_resource_key is_file_name read_file_name
    read_attachment read_content is_falsy read_reference read_event chat_is_authorized
    identity_epoch is_task_of is_reply_to adopt_thread is_topic_reply route_topic route_reply
    route_current pair_rows find_both route_found route is_global control_route settle_route
    is_echo_of find_echo open_conflict sequence_of new_ancestry is_stale insert_message
    record_routed record_message is_outbound is_same repeat receive answer ingest
    suppress_if_outbound_echo is_active is_pending lookup
ingest-target_example =
    ingest-target tools private_chat all_enabled (λ n. true) (message_event "hi") start received.1
      to_first "first" refl refl

ingest-Known_example :
    Known
      (message "hello")
      recorded
      (chat_is_authorized private_chat "chat" received.1)
      (is_outbound "m1" received.1)
      received.1
      (ingest tools private_chat all_enabled (λ n. true) (message_event "hello") received.1)
unfolding find any every codes_eq is_no_argument is_identifier one_token is_remainder ends_in_space
    is_padded is_plain split_name read_argument read_command admits_argument is_admitted admit
    parse_command read_envelope is_bound read_text is_resource_key is_file_name read_file_name
    read_attachment read_content is_falsy read_reference read_event chat_is_authorized
    identity_epoch is_task_of is_reply_to adopt_thread is_topic_reply route_topic route_reply
    route_current pair_rows find_both route_found route is_global control_route settle_route
    is_echo_of find_echo open_conflict sequence_of new_ancestry is_stale insert_message
    record_routed record_message is_outbound is_same repeat receive answer ingest
    suppress_if_outbound_echo is_active is_pending lookup
ingest-Known_example =
    ingest-Known tools private_chat all_enabled (λ n. true) (message_event "hello") received.1
      (message "hello") recorded refl refl

abbrev calls : List Call
calls =
    Call.ingest_event tools private_chat all_enabled (λ n. true) (message_event "hi")
    ∷ Call.begin "second"
    ∷ Call.queue writer private_chat "second" 2 7
    ∷ Call.apply "selection:2:second"
    ∷ Call.confirm "second" 2
    ∷ Call.mark
    ∷ Call.suppress "m1"
    ∷ []

start-IsConsistent : IsConsistent (sequence_of start.sequence)
unfolding IsConsistent is_pending sequence_of
start-IsConsistent h = absurd (false-true h)

after_all-refines_example :
    Moves (view start) (view (after_all calls start))
    × IsConsistent (sequence_of (after_all calls start).sequence)
after_all-refines_example = after_all-refines calls start start-IsConsistent

after_all-epoch_example :
    ((sequence_of start.sequence).active_binding_epoch
      ≤ (sequence_of (after_all calls start).sequence).active_binding_epoch)
    × ((sequence_of start.sequence).active_binding_epoch
          ≡ (sequence_of (after_all calls start).sequence).active_binding_epoch
        → (sequence_of start.sequence).current_task_id
          ≡ (sequence_of (after_all calls start).sequence).current_task_id)
after_all-epoch_example = after_all-epoch calls start start-IsConsistent

start-IsWellNumbered : IsWellNumbered start
unfolding IsNumbered
start-IsWellNumbered = (tt, tt)

after_all-IsWellNumbered_example : IsWellNumbered (after_all calls start)
after_all-IsWellNumbered_example = after_all-IsWellNumbered calls start start-IsWellNumbered

abbrev chosen : Result ℕ × Db
chosen = begin_selection "second" start

abbrev sent : Result String × Db
sent = queue_selection_confirmation writer private_chat "second" 2 7 chosen.1

select-apply_example : IsSettledOn "second" 2 (apply_selection "selection:2:second" sent.1)
unfolding begin_selection queue_selection_confirmation is_selectable first_chars selection_row
    stable_uuid is_active find sequence_of
select-apply_example =
    select-apply writer private_chat "second" 7 start chosen.1 sent.1 2 "selection:2:second" refl
      refl
