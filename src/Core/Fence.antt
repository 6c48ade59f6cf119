-- ===== src/Core/Fence.antt =====
-- Fence and lease arbitration (crates/msgriver-core/src/fence.rs).
use msgriver.Common.{
  ℕ, ◌+◌, ◌^◌, ◌≤◌, ◌<◌, ◌≡◌, ◌↔◌, Bool, true, false, ◌&&◌, Option, none, some, arith, leb, ltb,
  ◌==◌, if◌then◌else◌,
}
use msgriver.Core.Error.{
  Result, ok, err, ◌>>=◌, ok_or, scaffold, reject, fence_arbitrate, lease_config_invalid,
}

pub data FenceOutcome : Type 0 where
  accepted transient permanent ambiguous : FenceOutcome

pub data ProviderResponseEvidence : Type 0 where
  accepted transient rate_limited permanent_validation : ProviderResponseEvidence
  authentication_configuration ambiguous : ProviderResponseEvidence

pub data NormalizedProviderOutcome : Type 0 where
  accepted transient rate_limited permanent : NormalizedProviderOutcome
  authentication_configuration ambiguous : NormalizedProviderOutcome

abbrev classified : ProviderResponseEvidence → NormalizedProviderOutcome
classified ProviderResponseEvidence.accepted = NormalizedProviderOutcome.accepted
classified ProviderResponseEvidence.transient = NormalizedProviderOutcome.transient
classified ProviderResponseEvidence.rate_limited = NormalizedProviderOutcome.rate_limited
classified ProviderResponseEvidence.permanent_validation = NormalizedProviderOutcome.permanent
classified ProviderResponseEvidence.authentication_configuration =
    NormalizedProviderOutcome.authentication_configuration
classified ProviderResponseEvidence.ambiguous = NormalizedProviderOutcome.ambiguous

unfoldable pub classify_provider_response :
    ProviderResponseEvidence → Result NormalizedProviderOutcome
classify_provider_response evidence = ok (classified evidence)

pub data FenceArbitration : Type 0 where
  applied : FenceOutcome → FenceArbitration
  -- `ambiguity_orred` and `attempt_delta`.
  stale : Bool → ℕ → FenceArbitration

abbrev arbitrate_stale : FenceOutcome → Result FenceArbitration
arbitrate_stale FenceOutcome.transient = ok (stale false 0)
arbitrate_stale FenceOutcome.permanent = ok (stale false 0)
arbitrate_stale FenceOutcome.ambiguous = ok (stale true 0)
arbitrate_stale FenceOutcome.accepted = err (scaffold fence_arbitrate)

-- Lease generations are `u64` and fence tokens `u128`; they are only compared.
unfoldable pub arbitrate_outcome : ℕ → ℕ → ℕ → ℕ → FenceOutcome → Result FenceArbitration
arbitrate_outcome current_generation current_token update_generation update_token outcome =
    if (current_generation == update_generation) && (current_token == update_token)
    then ok (applied outcome)
    else arbitrate_stale outcome

-- `checked_add` of `u64`.
abbrev pub checked_add_u64 : ℕ → ℕ → Option ℕ
checked_add_u64 a b = if ltb (a + b) (2 ^ 64) then some (a + b) else none

unfoldable pub validate_lease_config : ℕ → ℕ → ℕ → Result (Unit {0})
validate_lease_config lease_ttl_millis timeout_millis margin_millis = do
  required ← ok_or (checked_add_u64 timeout_millis margin_millis) (reject lease_config_invalid)
  if leb 5000 margin_millis && ltb required lease_ttl_millis
      then ok tt
      else err (reject lease_config_invalid)

-- An outcome is applied exactly when both the lease generation and the fence token are the current
-- ones; under any other pair it never is, and no stale result changes an attempt count.
pub arbitrate_outcome_fenced :
    (g t g' t' : ℕ) (o p : FenceOutcome)
    → ((arbitrate_outcome g t g' t' o ≡ ok (applied p)) ↔ ((g ≡ g') × (t ≡ t') × (o ≡ p)))
      × ((flag : Bool) (delta : ℕ)
          → arbitrate_outcome g t g' t' o ≡ ok (stale flag delta)
          → (delta ≡ 0) × ((flag ≡ true) ↔ (o ≡ FenceOutcome.ambiguous)))
unfolding arbitrate_outcome
arbitrate_outcome_fenced g t g' t' o p =
    ((λ h. ground arith, λ h. ground arith), λ flag delta h. ground arith)

-- A lease configuration is accepted exactly when the margin is at least five seconds and the lease
-- outlives timeout and margin together; for `u64` values an overflowing sum is thus refused.
pub validate_lease_config_iff :
    (ttl timeout margin : ℕ)
    → ttl < 2 ^ 64
    → (validate_lease_config ttl timeout margin ≡ ok tt)
      ↔ ((5000 ≤ margin) × (timeout + margin < ttl))
unfolding validate_lease_config
validate_lease_config_iff ttl timeout margin h = (λ e. ground arith, λ e. ground arith)
