-- ===== src/Lib.antt =====
-- Verification of the Codex Feishu / Lark bridge (codex_feishu_bridge/).
--
-- The bridge mirrors the tasks of a local Codex agent into Feishu chats and lets the owner answer
-- from there. All of its state is in one SQLite database. Readers of rollout files store new items
-- and queue messages; the outbox worker leases queued messages, sends them to the provider and
-- records the outcome; messages of unknown outcome are reconciled; approval requests of the agent
-- become cards with a single-use token, and the answer to a card is committed and sent back; the
-- emergency stop fences all of that; an audit chain records the approvals.
--
-- Files, and what they model:
--
-- - Prelude: shared names, Boolean tests, tables by key (Prelude.Tables), tables as the lists of
--   their rows with SELECT, UPDATE and row counts (Prelude.Sql).
-- - Exec: a method is a function from the database to a result or an exception, and the database as
--   the method leaves it. `transaction` is `BridgeStorage.transaction` of storage.py, also
--   `RuntimeStorage.immediate`: an exception rolls back. An UPDATE outside a transaction is one
--   step. Exec.Keeps carries a relation between databases through a method.
-- - Models: the enumerations of models.py.
-- - Transitions: the transition tables of storage.py and the methods of `BridgeStorage` that create
--   rows and move their states by compare-and-swap; Transitions.History runs any sequence of calls.
-- - Outbox: the tables behind `provider_outbox` of runtime_storage.py. Outbox.Queue has
--   `enqueue_provider_message`, `lease_outbox`, `finish_outbox`, the suppression of
--   feishu/outbound.py and the settling statements of feishu/reconciliation.py; Outbox.Uploads the
--   attachments; Outbox.Titles the updates of task titles; Outbox.Steps runs any sequence of them.
--   Outbox.Lease describes, apart from the SELECT, the rows that may be leased.
-- - Json: the values that the audit chain and the approvals sign. Jcs: security/jcs.py on texts as
--   lists of code points. Jcs.Normal sorts the objects of a value, Jcs.Reader is a reader of JSON
--   texts, Jcs.Order and Jcs.Injective compare canonical texts, Jcs.Domain says which values have
--   one, Jcs.Utf16 is about the sort keys. Floats, with the branch of `_number` for them,
--   are left out: a value here is a value without floats.
-- - Worker: `OutboxWorker.run_once` of feishu/outbound.py over the methods of Outbox: Worker.Reply
--   finds the place of a message, Worker.Payload and Worker.Upload its body and attachments,
--   Worker.Send calls the provider, Worker.Confirm, Worker.Anchor and Worker.Follow act on a
--   confirmation, Worker.Run is the run; Worker.Reasons and Worker.Fate describe the
--   outcomes of a message with their reasons. The provider's answers and JSON are parameters.
-- - Audit: security/audit.py. Audit.Chain says what `append` and `verify` do, Audit.Binding what the
--   last HMAC binds, Audit.BodyFree which events are accepted.
-- - Approvals: Approvals.Broker has `ApprovalBroker` of security/approvals.py, which records in the
--   chain of Audit, and `bind_delivered_card` of codex/approval_gateway.py; Approvals.Emergency has
--   security/emergency.py; Approvals.Steps runs any sequence of their calls; Approvals.Outcome
--   describes the rows before and after an accepted card.
-- - Commands: commands.py.
-- - Inbound: the router of feishu/inbound.py. Inbound.Events reads a provider event, Inbound.Ingest
--   has `ingest` with `_route`, Inbound.Selection the choice of the current task up to the branch of
--   feishu/outbound.py that acts on the delivered selection message, and Inbound.Machine the machine
--   of choices that they implement, with the histories of all these calls. Where a SELECT with
--   LIMIT 1 leaves the row open (the search for an echo), the model takes the first. The breaker
--   `ingress_conflict` keeps the message's identifier without the prefix of its text.
-- - Reconciliation: feishu/reconciliation.py. The provider's answers are a function of the number of
--   the call; the loop over its pages is on fuel, and Reconciliation.Termination says how much is
--   enough.
-- - Tasks: feishu/tasks.py. Tasks.Titles has the titles, Tasks.Anchors `TaskAnchorManager`, and
--   Tasks.History runs any sequence of its calls.
-- - Receipts: feishu/receipts.py.
-- - Rollout: `store_rollout_batch` and `cursor_for` of storage.py; Rollout.Outcome describes the
--   tables after a batch.
-- - Recovery: operations/recovery.py. Chunks: `_utf8_chunks` of feishu/formatter.py. Markdown:
--   `_markdown_target_end` of the same file.
-- - Tests: concrete data for each component.
--
-- Correspondence. Definitions keep the names of functions, tables and columns. A table read by its
-- primary key is a function from keys to optional rows (or the list of its rows where a statement
-- goes over all of them); the identifiers of `provider_outbox` are below `next_id`, as
-- AUTOINCREMENT gives them out. A query that looks over the rows recurses on that bound or on the
-- list, so only the loop of Reconciliation needs fuel. Times in Outbox are ranks of the stored
-- texts, which is the order in which SQLite compares them; in Approvals, where the code parses
-- them, they are seconds. Integers are natural numbers: the columns are counters, offsets, epochs
-- and priorities that the code never makes negative; a TTL is an integer. The columns `updated_at`
-- are left out, since no modelled query reads them. A CHECK or UNIQUE constraint that a modelled
-- statement can violate is a test that raises.
--
-- Parameters: SHA-256, HMAC, `str.lower`, `json.loads`, `json.dumps`, the size of a character in
-- UTF-8 (none for a surrogate, which cannot be encoded), the random token, the clock, and the callback that terminates the workers. In Audit
-- and Approvals the digest and the signature of a value are functions of the value.
--
-- Not modelled: the provider's client and its contracts, the connection to the agent's app server,
-- the service loop and its configuration, the download of attachments, the rest of the text
-- formatting, the Windows shell, and the creation and migration of the schema.
--
pub mod Prelude
pub mod Exec
pub mod Models
pub mod Transitions
pub mod Outbox
pub mod Jcs
pub mod Json
pub mod Audit
pub mod Approvals
pub mod Rollout
pub mod Chunks
pub mod Markdown
pub mod Recovery
pub mod Commands
pub mod Inbound
pub mod Reconciliation
pub mod Tasks
pub mod Receipts
pub mod Worker
mod Tests
