-- ===== src/Tests/RecoveryTests.antt =====
-- A restored database without uncertain work, and a text of five characters.
use codex_feishu.Prelude.{ℕ, ◌≡◌, refl, true, some, List, [], ◌∷◌, row_count, str_eq, arith}
use codex_feishu.Exec.{ok, err, unresolved_work}
use codex_feishu.Models.{DispatchState, ApprovalState, dispatch_eq, approval_eq}
use codex_feishu.Outbox.{OutboxState}
use codex_feishu.Recovery.{
  RecoveryProof, Db, is_complete, is_uncertain, uncertain, select_restore_mode, promote_from,
  promote_recovered_database, PromoteOutcome, promote_recovered_database-PromoteOutcome,
}
use codex_feishu.Chunks.{finish, cut, utf8_chunks, Cuts, utf8_chunks-Cuts}

abbrev proof : RecoveryProof
proof = record {
  provider_history_reconciled = true;
  codex_history_reconciled = true;
  tombstones_verified = true;
  identity_binding_verified = true;
}

abbrev restored : Db
restored = record {
  restore_mode = some "reconciliation_only";
  provider_outbox = OutboxState.confirmed ∷ OutboxState.pending ∷ [];
  dispatch_records = DispatchState.completed ∷ [];
  approval_requests = ApprovalState.resolved ∷ [];
  service_state =
      some (record { fencing_token = 4; kill_generation = 2; process_state = "running" });
  identity_bindings = record { binding_key = "b"; binding_epoch = 1; state = "drifted" } ∷ [];
  chat_sequences = [];
}

restored_is_promoted :
    (promote_recovered_database (str_eq "reconciliation_only") proof restored).0 ≡ ok 5
unfolding promote_recovered_database is_complete select_restore_mode uncertain row_count
    is_uncertain dispatch_eq approval_eq promote_from
restored_is_promoted = refl

unknown_work_is_refused :
    (promote_recovered_database
      (str_eq "reconciliation_only")
      proof
      (record restored { provider_outbox = OutboxState.unknown ∷ [] })).0
    ≡ err unresolved_work
unfolding promote_recovered_database is_complete select_restore_mode uncertain row_count
    is_uncertain dispatch_eq approval_eq promote_from
unknown_work_is_refused = refl

promote_example :
    PromoteOutcome
      (str_eq "reconciliation_only")
      proof
      restored
      (promote_recovered_database (str_eq "reconciliation_only") proof restored)
promote_example =
    promote_recovered_database-PromoteOutcome (str_eq "reconciliation_only") proof restored

-- Characters given by their sizes.
abbrev sizes : List ℕ
sizes = 1 ∷ 3 ∷ 2 ∷ 2 ∷ 1 ∷ []

three_pieces : utf8_chunks (λ n. some n) sizes 4 ≡ ok ((1 ∷ 3 ∷ []) ∷ (2 ∷ 2 ∷ []) ∷ (1 ∷ []) ∷ [])
unfolding utf8_chunks cut finish
three_pieces = refl

utf8_chunks_example : Cuts (λ n. some n) 4 sizes (utf8_chunks (λ n. some n) sizes 4)
utf8_chunks_example = utf8_chunks-Cuts (λ n. some n) sizes 4 (omega arith)
