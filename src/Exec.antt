-- ===== src/Exec.antt =====
-- Methods of the storage classes: a database goes in; a result or an exception comes out, beside
-- the database as the method leaves it. `transaction` is `BridgeStorage.transaction`
-- (codex_feishu_bridge/storage.py): COMMIT on a normal exit, ROLLBACK on an exception.
pub mod Keeps
pub mod Ensures
use codex_feishu.Prelude.{Bool, true, false, Option, none, some}

-- The exceptions that the modelled code raises, one for each place that raises it.
pub data Error : Type 0 where
  forbidden_transition lost_compare_and_swap hash_not_committed hash_changed : Error
  integrity_error value_error permission_error : Error
  file_identity_changed cursor_backwards schema_version_changed : Error
  conflicting_record_hash missing_record_hash conflicting_item : Error
  token_invalid token_expired context_mismatch decision_not_offered : Error
  request_reused empty_request forbidden_audit_field : Error
  chain_mismatch hmac_mismatch ingress_rejected type_error : Error
  bound_elsewhere assertion_error runtime_error provider_error : Error
  recovery_incomplete not_restoring unresolved_work : Error

pub data Result {ℓ} (A : Type ℓ) : Type ℓ where
  ok : A → Result A
  err : Error → Result A

-- The result of a method that returns None.
abbrev pub Done : Type 0
Done = Unit {0}

abbrev pub Exec {ℓ κ} : Type κ → Type ℓ → Type (ℓ ⊔ κ)
Exec S A = S → Result A × S

module _ {ℓ κ} {S : Type κ} {A : Type ℓ} where
  abbrev pub pure : A → Exec S A
  pure a s = (ok a, s)

  abbrev pub raise : Error → Exec S A
  raise e s = (err e, s)

  abbrev pub settle : S → Result A × S → Result A × S
  settle before (ok a, after) = (ok a, after)
  settle before (err e, after) = (err e, before)

  abbrev pub transaction : Exec S A → Exec S A
  transaction m s = settle s (m s)

module _ {ℓ μ κ} {S : Type κ} {A : Type ℓ} {B : Type μ} where
  infixl 5 ◌>>=◌
  abbrev pub continue_with : (A → Exec S B) → Result A × S → Result B × S
  continue_with f (ok a, s) = f a s
  continue_with f (err e, s) = (err e, s)

  abbrev pub ◌>>=◌ : Exec S A → (A → Exec S B) → Exec S B
  ◌>>=◌ m f s = continue_with f (m s)

infixl 5 ◌>>◌
abbrev pub ◌>>◌ {μ κ} : {S : Type κ} {B : Type μ} → Exec S (Unit {0}) → Exec S B → Exec S B
m >> n = m >>= λ _. n

module _ {κ} {S : Type κ} where
  -- `if not test: raise error`
  abbrev pub require : Bool → Error → Exec S (Unit {0})
  require true e s = (ok tt, s)
  require false e s = (err e, s)

  abbrev pub write : (S → S) → Exec S (Unit {0})
  write f s = (ok tt, f s)

  abbrev pub get_state : Exec S S
  get_state s = (ok s, s)

  abbrev pub or_raise {ℓ} : {A : Type ℓ} → Option A → Error → Exec S A
  or_raise none e s = (err e, s)
  or_raise (some a) e s = (ok a, s)

  abbrev pub raise_if : Option Error → Exec S (Unit {0})
  raise_if none s = (ok tt, s)
  raise_if (some e) s = (err e, s)
