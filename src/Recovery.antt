-- ===== src/Recovery.antt =====
-- codex_feishu_bridge/operations/recovery.py: the promotion of a restored database.
use codex_feishu.Prelude.{
  ℕ, ◌+◌, String, ◌≡◌, refl, ◌⊎◌, inl, inr, Bool, true, false, ◌&&◌, Option, none, some, List, [],
  ◌∷◌, ◌==◌, All, map, row_count, Bool-cases, Option-cases, arith,
}
use codex_feishu.Exec.{
  Error, Result, Exec, ok, err, pure, require, write, get_state, or_raise, transaction, ◌>>=◌, ◌>>◌,
  recovery_incomplete, not_restoring, unresolved_work, value_error,
}
use codex_feishu.Models.{DispatchState, ApprovalState, dispatch_eq, approval_eq}
use codex_feishu.Outbox.{OutboxState}

pub record RecoveryProof : Type 0 where
  pub provider_history_reconciled : Bool
  pub codex_history_reconciled : Bool
  pub tombstones_verified : Bool
  pub identity_binding_verified : Bool

pub record ServiceState : Type 0 where
  pub fencing_token : ℕ
  pub kill_generation : ℕ
  pub process_state : String

-- The columns of `identity_bindings` and of `chat_sequences` that the promotion writes.
pub record IdentityBinding : Type 0 where
  pub binding_key : String
  pub binding_epoch : ℕ
  pub state : String

pub record ChatSequence : Type 0 where
  pub binding_key : String
  pub active_binding_epoch : ℕ
  pub selection_state : String

-- The tables, and of the three tables of work the column `state` of every row.
pub record Db : Type 0 where
  pub restore_mode : Option String
  pub provider_outbox : List OutboxState
  pub dispatch_records : List DispatchState
  pub approval_requests : List ApprovalState
  pub service_state : Option ServiceState
  pub identity_bindings : List IdentityBinding
  pub chat_sequences : List ChatSequence

-- `SELECT value FROM runtime_metadata WHERE key='restore_mode'`
unfoldable pub select_restore_mode : Db → Option String
select_restore_mode db = db.restore_mode

unfoldable pub is_complete : RecoveryProof → Bool
is_complete p =
    p.provider_history_reconciled && p.codex_history_reconciled && p.tombstones_verified
    && p.identity_binding_verified

-- `state IN ('leased','unknown','delivery_indeterminate')`
unfoldable pub is_uncertain : OutboxState → Bool
is_uncertain OutboxState.leased = true
is_uncertain OutboxState.unknown = true
is_uncertain OutboxState.delivery_indeterminate = true
is_uncertain _ = false

unfoldable pub uncertain : Db → ℕ
uncertain db =
    row_count is_uncertain db.provider_outbox
    + row_count (λ s. dispatch_eq s DispatchState.outcome_unknown) db.dispatch_records
    + row_count (λ s. approval_eq s ApprovalState.outcome_unknown) db.approval_requests

abbrev pub new_service : ServiceState → ServiceState
new_service s = record {
  fencing_token = s.fencing_token + 1;
  kill_generation = s.kill_generation + 1;
  process_state = "stopped";
}

abbrev pub new_binding : IdentityBinding → IdentityBinding
new_binding b = record b { binding_epoch = b.binding_epoch + 1; state = "active" }

abbrev pub new_sequence : ChatSequence → ChatSequence
new_sequence c = record c {
  active_binding_epoch = c.active_binding_epoch + 1;
  selection_state = "selection_indeterminate";
}

-- The four UPDATE statements.
unfoldable pub promote : ServiceState → Db → Db
promote s db = record db {
  restore_mode = some "\"promoted\"";
  service_state = some (new_service s);
  identity_bindings = map new_binding db.identity_bindings;
  chat_sequences = map new_sequence db.chat_sequences;
}

-- The transaction after the tests; without a service state the last SELECT has no row and raises.
unfoldable pub promote_from : Option ServiceState → Exec Db ℕ
promote_from state =
    transaction (do s ← or_raise state value_error; write (promote s); pure (s.fencing_token + 1))

-- `is_restoring` is the test that `reconciliation_only` occurs in a text.
unfoldable pub promote_recovered_database : (String → Bool) → RecoveryProof → Exec Db ℕ
promote_recovered_database is_restoring proof = do
  require (is_complete proof) recovery_incomplete
  db ← get_state
  mode ← or_raise (select_restore_mode db) not_restoring
  require (is_restoring mode) not_restoring
  require (uncertain db == 0) unresolved_work
  promote_from db.service_state

module _ {A : Type 0} where
  row_count-All :
      (test : A → Bool) (xs : List A) → row_count test xs ≡ 0 → All (λ x. test x ≡ false) xs
  unfolding row_count
  row_count-All test [] h = tt
  row_count-All test (x ∷ xs) h = elim (Bool-cases (test x)) [
    | inl e ↦ absurd (omega (arith, rw e at h))
    | inr e ↦ (e, row_count-All test xs (omega (arith, rw e at h)))
  ]

-- No row of work has an unknown outcome.
abbrev pub IsCertain : Db → Type 0
IsCertain db =
    All (λ s. is_uncertain s ≡ false) db.provider_outbox
    × All (λ s. dispatch_eq s DispatchState.outcome_unknown ≡ false) db.dispatch_records
    × All (λ s. approval_eq s ApprovalState.outcome_unknown ≡ false) db.approval_requests

uncertain-IsCertain : (db : Db) → (uncertain db == 0) ≡ true → IsCertain db
unfolding uncertain
uncertain-IsCertain db h =
    let o = row_count is_uncertain db.provider_outbox in
    (
      row_count-All is_uncertain db.provider_outbox (ground (arith, h)),
      row_count-All _ db.dispatch_records (ground (arith, h)),
      row_count-All _ db.approval_requests (ground (arith, h)),
    )

-- What a promotion leaves: the fencing token, the kill generation, and every epoch of an identity and
-- of a chat are one higher, the service is stopped, and every selection has to be made again.
abbrev pub promoted : ServiceState → Db → Db
promoted s db = record {
  restore_mode = some "\"promoted\"";
  provider_outbox = db.provider_outbox;
  dispatch_records = db.dispatch_records;
  approval_requests = db.approval_requests;
  service_state = some (record {
    fencing_token = s.fencing_token + 1;
    kill_generation = s.kill_generation + 1;
    process_state = "stopped";
  });
  identity_bindings =
      map
        (λ b. record {
          binding_key = b.binding_key;
          binding_epoch = b.binding_epoch + 1;
          state = "active";
        })
        db.identity_bindings;
  chat_sequences =
      map
        (λ c. record {
          binding_key = c.binding_key;
          active_binding_epoch = c.active_binding_epoch + 1;
          selection_state = "selection_indeterminate";
        })
        db.chat_sequences;
}

promote_from-outcome :
    (o : Option ServiceState) (db : Db)
    → ((e : Error) × (promote_from o db ≡ (err e, db)))
      ⊎ ((s : ServiceState) × (o ≡ some s)
          × (promote_from o db ≡ (ok (s.fencing_token + 1), promoted s db)))
unfolding promote_from promote
promote_from-outcome none db = inl (value_error, refl)
promote_from-outcome (some s) db = inr (s, refl, refl)

-- Refused with nothing written, or promoted.
abbrev pub PromoteOutcome : (String → Bool) → RecoveryProof → Db → Result ℕ × Db → Type 0
PromoteOutcome is_restoring proof db x =
    ((e : Error) × (x ≡ (err e, db)))
    ⊎ ((mode : String) × (s : ServiceState) × (is_complete proof ≡ true)
        × (select_restore_mode db ≡ some mode)
        × (is_restoring mode ≡ true)
        × IsCertain db
        × (db.service_state ≡ some s)
        × (x ≡ (ok (s.fencing_token + 1), promoted s db)))

-- `promote_recovered_database` raises and leaves the database as it was; or the proof is complete, the
-- database was in restore mode, no queued message, dispatch or approval has an unknown outcome, and
-- then the fencing token and the kill generation are one higher, the service is stopped, every binding
-- epoch is one higher, the rows of work are as they were, and the new fencing token is returned.
pub promote_recovered_database-PromoteOutcome :
    (is_restoring : String → Bool) (proof : RecoveryProof) (db : Db)
    → PromoteOutcome is_restoring proof db (promote_recovered_database is_restoring proof db)
unfolding promote_recovered_database
promote_recovered_database-PromoteOutcome is_restoring proof db =
    elim (Bool-cases (is_complete proof)) [
      | inr e ↦ inl (recovery_incomplete, rw e refl)
      | inl p ↦ elim (Option-cases (select_restore_mode db)) [
        | inl e ↦ inl (not_restoring, rw (p, e) refl)
        | inr (mode, m) ↦ elim (Bool-cases (is_restoring mode)) [
          | inr e ↦ inl (not_restoring, rw (p, m, e) refl)
          | inl r ↦ elim (Bool-cases (uncertain db == 0)) [
            | inr e ↦ inl (unresolved_work, rw (p, m, r, e) refl)
            | inl u ↦ elim (promote_from-outcome db.service_state db) [
              | inl (e, f) ↦ inl (e, rw (p, m, r, u) f)
              | inr (s, o, f) ↦
                  inr (mode, s, p, m, r, uncertain-IsCertain db u, o, rw (p, m, r, u) f)
            ]
          ]
        ]
      ]
    ]
