-- ===== src/Tests.antt =====
-- Tests: each module applies the theorems of a component to concrete data.
mod TransitionTests
mod OutboxTests
mod AuditTests
mod ApprovalTests
mod RolloutTests
mod RecoveryTests
mod MarkdownTests
mod InboundTests
mod JcsTests
mod WorkerTests
mod CommandTests
mod ReconciliationTests
mod TaskTests
mod ReceiptTests
