-- ===== src/Core/Retry/Wake.antt =====
-- The durable wake boundary: which instant is chosen, and what the flag says.
use msgriver.Common.{◌≡◌, ◌⊎◌, ◌↔◌, true, Option, none, some, arith}
use msgriver.Common.Int.{ℤ, pos, ◌+ℤ◌, ◌≤ℤ◌, ◌<ℤ◌}
use msgriver.Core.Error.{ok}
use msgriver.Core.Math.{utc_add_millis}
use msgriver.Core.Retry.{DurableWakeBoundaryInput, DurableWakeBoundary, durable_wake_boundary}

abbrev pub BelowOption : (ℤ → ℤ → Type 0) → ℤ → Option ℤ → Type 0
BelowOption R a none = Unit {0}
BelowOption R a (some b) = R a b

abbrev pub retry_deadline : DurableWakeBoundaryInput → ℤ
retry_deadline i = i.safe_now_millis +ℤ pos i.retry_ms

abbrev pub age_deadline : DurableWakeBoundaryInput → ℤ
age_deadline i = i.created_at_millis +ℤ pos i.max_delivery_age_ms

-- The chosen instant is the least of the exact retry deadline, the exact age deadline and the expiry
-- if there is one; it is one of them; and the flag is set exactly when the retry deadline lies
-- strictly before every other.
pub durable_wake_boundary_least :
    (i : DurableWakeBoundaryInput) (w : DurableWakeBoundary)
    → durable_wake_boundary i ≡ ok w
    → (w.selected_instant_millis ≤ℤ retry_deadline i)
      × (w.selected_instant_millis ≤ℤ age_deadline i)
      × BelowOption ◌≤ℤ◌ w.selected_instant_millis i.expires_at_millis
      × ((w.selected_instant_millis ≡ retry_deadline i)
          ⊎ (w.selected_instant_millis ≡ age_deadline i)
          ⊎ (some w.selected_instant_millis ≡ i.expires_at_millis))
      × ((w.retry_deadline_is_strictly_earliest ≡ true) ↔ (
          (retry_deadline i <ℤ age_deadline i)
          × BelowOption ◌<ℤ◌ (retry_deadline i) i.expires_at_millis))
unfolding durable_wake_boundary utc_add_millis
durable_wake_boundary_least i w h =
    (ground arith, ground arith, ground arith, ground arith, (λ e. ground arith, λ e. ground arith))
