-- ===== src/Core/Retry.antt =====
-- Retry delay, retry admission, durable wake boundary and the historical helpers
-- (crates/msgriver-core/src/retry.rs). Unsigned products and casts keep their wrap-around written
-- out; the subtractions of the source are those that its validation keeps above zero.
pub mod Delay
pub mod Wake
use msgriver.Common.{
  ℕ, zero, suc, ◌+◌, ◌-◌, ◌*◌, ◌/◌, ◌%◌, ◌^◌, ◌<◌, Bool, true, false, ◌&&◌, ◌||◌, not, Option, none,
  some, leb, ltb, ◌==◌, if◌then◌else◌, in_range, min, max,
}
use msgriver.Common.Int.{ℤ, pos, leb_ℤ}
use msgriver.Core.Error.{
  Result, ok, err, ◌>>=◌, scaffold, reject, compute_backoff, retry_delay_input_invalid,
}
use msgriver.Core.Math.{utc_add_millis}
use msgriver.Core.Fence.{NormalizedProviderOutcome}

pub data RetryDisposition : Type 0 where
  retry_eligible not_retryable circuit_probe : RetryDisposition

pub record RetryDelayInput : Type 0 where
  pub base_delay_ms : ℕ
  pub factor_milli : ℕ
  pub max_delay_ms : ℕ
  pub completed_attempt_ordinal : ℕ
  pub multiplier_milli : ℕ
  pub validated_retry_after_ms : Option ℕ

abbrev is_none_or : (ℕ → Bool) → Option ℕ → Bool
is_none_or p none = true
is_none_or p (some a) = p a

abbrev pub unwrap_or : Option ℕ → ℕ → ℕ
unwrap_or none d = d
unwrap_or (some a) d = a

unfoldable pub retry_delay_input_is_valid : RetryDelayInput → Bool
retry_delay_input_is_valid input =
    in_range 1000 3600000 input.base_delay_ms
    && in_range 1001 16000 input.factor_milli
    && in_range input.base_delay_ms 3600000 input.max_delay_ms
    && in_range 1 1023 input.completed_attempt_ordinal
    && in_range 500 1500 input.multiplier_milli
    && is_none_or (in_range 1000 3600000) input.validated_retry_after_ms

-- The body of `for _ in 1..ordinal`, with its `break`: the argument counts the rounds left.
unfoldable pub exponential_loop : ℕ → ℕ → ℕ → ℕ → ℕ
exponential_loop zero factor cap exponential = exponential
exponential_loop (suc rounds) factor cap exponential =
    let grown = min (exponential * factor % 2 ^ 64 / 1000) cap in
    let rest = exponential_loop rounds factor cap grown in if grown == cap then grown else rest

unfoldable pub jittered_delay : ℕ → ℕ → ℕ → ℕ
jittered_delay exponential multiplier cap =
    max (min (exponential * multiplier % 2 ^ 128 / 1000) cap) 1 % 2 ^ 32

unfoldable pub retry_delay : RetryDelayInput → Result ℕ
retry_delay input =
    if not (retry_delay_input_is_valid input)
    then err (reject retry_delay_input_invalid)
    else ok (
        max
          (jittered_delay
            (exponential_loop (input.completed_attempt_ordinal - 1) input.factor_milli
              input.max_delay_ms (min input.base_delay_ms input.max_delay_ms))
            input.multiplier_milli input.max_delay_ms)
          (unwrap_or input.validated_retry_after_ms 0))

pub data RetryAdmission : Type 0 where
  exhausted : RetryAdmission
  eligible : ℕ → RetryAdmission

unfoldable pub retry_admission : ℕ → ℕ → Result RetryAdmission
retry_admission completed_attempt_ordinal max_attempts =
    if not (in_range 1 1024 max_attempts)
      || (completed_attempt_ordinal == 0 || ltb max_attempts completed_attempt_ordinal)
    then err (reject retry_delay_input_invalid)
    else if leb max_attempts completed_attempt_ordinal
    then ok exhausted
    else ok (eligible (completed_attempt_ordinal - 1))

pub record DurableWakeBoundaryInput : Type 0 where
  pub safe_now_millis : ℤ
  pub retry_ms : ℕ
  pub expires_at_millis : Option ℤ
  pub created_at_millis : ℤ
  pub max_delivery_age_ms : ℕ

pub record DurableWakeBoundary : Type 0 where
  pub selected_instant_millis : ℤ
  pub retry_deadline_is_strictly_earliest : Bool

-- `if let Some(boundary) = … && boundary <= selected`: both assignments, or neither.
abbrev bound_by : DurableWakeBoundary → Option ℤ → DurableWakeBoundary
bound_by w none = w
bound_by w (some boundary) =
    if leb_ℤ boundary w.selected_instant_millis
    then record { selected_instant_millis = boundary; retry_deadline_is_strictly_earliest = false }
    else w

unfoldable pub durable_wake_boundary : DurableWakeBoundaryInput → Result DurableWakeBoundary
durable_wake_boundary input =
    if not (in_range 1 3600000 input.retry_ms)
      || not (in_range 1000 2592000000 input.max_delivery_age_ms)
    then err (reject retry_delay_input_invalid)
    else do
      retry_deadline ← utc_add_millis input.safe_now_millis (pos input.retry_ms)
      maximum_age_deadline ← utc_add_millis input.created_at_millis (pos input.max_delivery_age_ms)
      let start : DurableWakeBoundary = record {
        selected_instant_millis = retry_deadline;
        retry_deadline_is_strictly_earliest = true;
      }
      ok (bound_by (bound_by start input.expires_at_millis) (some maximum_age_deadline))

abbrev disposition : NormalizedProviderOutcome → RetryDisposition
disposition NormalizedProviderOutcome.transient = retry_eligible
disposition NormalizedProviderOutcome.rate_limited = retry_eligible
disposition NormalizedProviderOutcome.ambiguous = retry_eligible
disposition NormalizedProviderOutcome.accepted = not_retryable
disposition NormalizedProviderOutcome.permanent = not_retryable
disposition NormalizedProviderOutcome.authentication_configuration = circuit_probe

unfoldable pub retry_disposition : NormalizedProviderOutcome → Result RetryDisposition
retry_disposition outcome = ok (disposition outcome)

-- `checked_mul(..).unwrap_or(limit)` of `u64`.
abbrev mul_or : ℕ → ℕ → ℕ → ℕ
mul_or limit a b = if ltb (a * b) (2 ^ 64) then a * b else limit

backoff_loop : ℕ → ℕ → ℕ → ℕ → ℕ
backoff_loop zero factor max_millis exponential = exponential
backoff_loop (suc attempts) factor max_millis exponential =
    backoff_loop attempts factor max_millis (min (mul_or max_millis exponential factor) max_millis)

unfoldable pub backoff : ℕ → ℕ → ℕ → ℕ → ℕ → Result ℕ
unfolding backoff_loop
backoff base_millis factor max_millis attempt jitter_multiplier_milli =
    if not (base_millis == 1000) || (not (factor == 2) || not (max_millis == 900000))
    then err (scaffold compute_backoff)
    else if not (
        (attempt == 0 && jitter_multiplier_milli == 1000)
        || (attempt == 40 && jitter_multiplier_milli == 1500))
    then err (scaffold compute_backoff)
    else ok (
        min
          (mul_or max_millis (backoff_loop attempt factor max_millis base_millis)
              jitter_multiplier_milli
            / 1000)
          max_millis)

unfoldable pub combine_retry_after : ℕ → ℕ → Result ℕ
combine_retry_after backoff_millis retry_after_millis =
    if not (
      (backoff_millis == 8000 && retry_after_millis == 30000)
      || (backoff_millis == 2000 && retry_after_millis == 4000000))
    then err (scaffold compute_backoff)
    else ok (max backoff_millis (min retry_after_millis 3600000))
