-- ===== src/Core/Error.antt =====
-- The core error (crates/msgriver-core/src/lib.rs): a scaffold gap, or a stable rejection.
use msgriver.Common.{Bool, true, false, Option, none, some}

pub data Frontier : Type 0 where
  validate_bounded_grammar checked_arithmetic canonical_encode mac_domain_separate : Frontier
  compute_backoff state_transition terminal_precedence fence_arbitrate : Frontier
  safe_time_high_water generation_arithmetic incarnation_alloc key_ring_state : Frontier
  readiness_reason : Frontier

pub data RejectClass : Type 0 where
  invalid_identifier invalid_topic too_many_tags invalid_tag invalid_utf8 empty_text : RejectClass
  invalid_text_control invalid_title_control title_too_long text_too_long : RejectClass
  expiry_in_past arithmetic_overflow control_capacity invalid_transition : RejectClass
  lease_config_invalid retry_delay_input_invalid state_generation_exhausted : RejectClass
  incarnation_exhausted downtime_ceiling_invalid safe_time_authority_empty : RejectClass
  safe_time_regression mac_key_serial_exhausted incarnation_serial_zero : RejectClass
  incarnation_hex_width incarnation_hex_case incarnation_hex_character : RejectClass

pub data CoreError : Type 0 where
  scaffold : Frontier → CoreError
  reject : RejectClass → CoreError

-- `CoreError::scaffold_frontier` and `CoreError::reject_class`.
abbrev pub scaffold_frontier : CoreError → Option Frontier
scaffold_frontier (scaffold f) = some f
scaffold_frontier (reject c) = none

abbrev pub reject_class : CoreError → Option RejectClass
reject_class (scaffold f) = none
reject_class (reject c) = some c

-- `Result<T, CoreError>`, with `?` as bind.
pub data Result {ℓ} (A : Type ℓ) : Type ℓ where
  ok : A → Result A
  err : CoreError → Result A

infixl 5 ◌>>=◌ ◌>>◌
abbrev pub ◌>>=◌ {ℓ κ} : {X : Type ℓ} {Y : Type κ} → Result X → (X → Result Y) → Result Y
ok x >>= next = next x
err e >>= next = err e

abbrev pub ◌>>◌ {ℓ} : {Y : Type ℓ} → Result (Unit {0}) → Result Y → Result Y
test >> next = test >>= λ _. next

-- `ok_or_else`.
abbrev pub ok_or {ℓ} : {A : Type ℓ} → Option A → CoreError → Result A
ok_or none e = err e
ok_or (some a) e = ok a

-- The early returns of a guard: `if !test { return Err(e) }`.
abbrev pub guard : Bool → CoreError → Result (Unit {0})
guard true e = ok tt
guard false e = err e

-- The result is the value `a`.
abbrev pub IsOk {ℓ} : {A : Type ℓ} → Result A → Type 0
IsOk (ok a) = Unit {0}
IsOk (err e) = ⊥
