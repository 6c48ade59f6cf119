-- ===== src/Core/SafeTime.antt =====
-- Safe-time high-water arithmetic and clock checkpoints (crates/msgriver-core/src/safetime.rs and
-- crates/msgriver-core/src/clock_checkpoint.rs).
pub mod Laws
use msgriver.Common.{
  ℕ, suc, ◌+◌, ◌^◌, ◌≤◌, ◌<◌, ◌≡◌, refl, ◌⊎◌, inl, inr, ◌↔◌, Bool, true, false, ◌&&◌, Option, none,
  some, List, [], ◌∷◌, arith, leb, ltb, if◌then◌else◌, All, Bool-cases,
}
use msgriver.Common.Int.{
  ℤ, pos, negsuc, ◌+ℤ◌, ◌-ℤ◌, ◌<ℤ◌, ◌≤ℤ◌, ltb_ℤ, leb_ℤ, max_ℤ, checked_sub, IsI64, pos_part,
  neg_part, is_i64,
}
use msgriver.Core.Error.{
  Result, ok, err, ok_or, scaffold, reject, safe_time_authority_empty, safe_time_regression,
}

abbrev pub clock_step_threshold_millis : ℕ
clock_step_threshold_millis = 30000

abbrev map_or : ℤ → (ℤ → ℤ) → Option ℤ → ℤ
map_or d f none = d
map_or d f (some a) = f a

unfoldable pub effective_high_water : ℤ → Option ℤ → Result ℤ
effective_high_water fixed_root_millis selected_millis =
    ok (map_or fixed_root_millis (λ selected. max_ℤ fixed_root_millis selected) selected_millis)

-- `Iterator::max`: a fold from the first marker.
pub fold_max : ℤ → List ℤ → ℤ
fold_max m [] = m
fold_max m (x ∷ xs) = fold_max (max_ℤ m x) xs

abbrev iter_max : List ℤ → Option ℤ
iter_max [] = none
iter_max (x ∷ xs) = some (fold_max x xs)

unfoldable pub carry_forward_high_water : List ℤ → Result ℤ
carry_forward_high_water markers = ok_or (iter_max markers) (reject safe_time_authority_empty)

unfoldable pub advance_high_water : ℤ → ℤ → Result ℤ
advance_high_water current candidate = ok (max_ℤ current candidate)

unfoldable pub proven_expired : ℤ → ℤ → Result Bool
proven_expired boundary_millis high_water_millis = ok (leb_ℤ boundary_millis high_water_millis)

-- `i64::checked_abs`: the absolute value of -2^63 is no `i64`.
abbrev pub checked_abs : ℤ → Option ℕ
checked_abs (pos n) = some n
checked_abs (negsuc n) = if ltb (suc n) (2 ^ 63) then some (suc n) else none

abbrev is_none_or : (ℕ → Bool) → Option ℕ → Bool
is_none_or p none = true
is_none_or p (some a) = p a

unfoldable pub clock_step_holds : ℤ → ℤ → Result Bool
clock_step_holds wall_delta_millis monotonic_delta_millis =
    elim (checked_sub wall_delta_millis monotonic_delta_millis) [
      | none ↦ ok true
      | some delta ↦
          ok (is_none_or (λ absolute. ltb clock_step_threshold_millis absolute) (checked_abs delta))
    ]

pub data CheckpointReason : Type 0 where
  periodic automatic_settlement clean_shutdown expiry_proof : CheckpointReason

pub record CheckpointTransition : Type 0 where
  pub prior_safe_time : ℤ
  pub new_safe_time : ℤ
  pub reason : CheckpointReason

unfoldable pub validate_transition : ℤ → ℤ → CheckpointReason → Result CheckpointTransition
validate_transition prior_safe_time new_safe_time reason =
    if ltb_ℤ new_safe_time prior_safe_time
    then err (reject safe_time_regression)
    else ok (record {
      prior_safe_time = prior_safe_time;
      new_safe_time = new_safe_time;
      reason = reason;
    })
