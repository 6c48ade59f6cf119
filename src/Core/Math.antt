-- ===== src/Core/Math.antt =====
-- Checked time and capacity arithmetic (crates/msgriver-core/src/math.rs).
use msgriver.Common.{
  ℕ, ◌*◌, ◌≡◌, ◌⊎◌, ◌&&◌, Option, none, some, List, [], ◌∷◌, arith, leb, if◌then◌else◌, list_eq,
}
use msgriver.Common.Int.{ℤ, pos, ◌+ℤ◌, ◌<ℤ◌, ltb_ℤ, checked_add, IsI64}
use msgriver.Core.Error.{
  Result, ok, err, ◌>>=◌, ok_or, scaffold, reject, checked_arithmetic, arithmetic_overflow,
  control_capacity, downtime_ceiling_invalid,
}

abbrev pub default_downtime_ceiling_millis : ℤ
default_downtime_ceiling_millis = pos (7 * 24 * 60 * 60 * 1000)

-- `Option::and_then`.
abbrev and_then : Option ℤ → (ℤ → Option ℤ) → Option ℤ
and_then none f = none
and_then (some a) f = f a

abbrev unwrap_or : Option ℤ → ℤ → ℤ
unwrap_or none d = d
unwrap_or (some a) d = a

unfoldable pub validate_downtime_ceiling : Option ℤ → ℤ → ℤ → ℤ → Result ℤ
validate_downtime_ceiling ceiling_millis checkpoint_interval clock_step_threshold settle_window = do
  required ←
      ok_or
        (and_then (checked_add checkpoint_interval clock_step_threshold)
          (λ value. checked_add value settle_window))
        (reject arithmetic_overflow)
  let ceiling = unwrap_or ceiling_millis default_downtime_ceiling_millis
  if ltb_ℤ required ceiling then ok ceiling else err (reject downtime_ceiling_invalid)

unfoldable pub utc_add_millis : ℤ → ℤ → Result ℤ
utc_add_millis base delta_millis =
    ok_or (checked_add base delta_millis) (reject arithmetic_overflow)

-- The one seed that the source maps to a multiplier.
abbrev pub frozen_seed : List ℕ
frozen_seed =
    0 ∷ 1 ∷ 2 ∷ 3 ∷ 4 ∷ 5 ∷ 6 ∷ 7 ∷ 8 ∷ 9 ∷ 10 ∷ 11 ∷ 12 ∷ 13 ∷ 14 ∷ 15 ∷ 16 ∷ 17 ∷ 18 ∷ 19 ∷ 20
    ∷ 21 ∷ 22 ∷ 23 ∷ 24 ∷ 25 ∷ 26 ∷ 27 ∷ 28 ∷ 29 ∷ 30 ∷ 31 ∷ []

pub jitter_multiplier : List ℕ → Result ℕ
jitter_multiplier seed =
    if list_eq seed frozen_seed then ok 926 else err (scaffold checked_arithmetic)

unfoldable pub checkpoint_capacity_fits : ℕ → ℕ → Result (Unit {0})
checkpoint_capacity_fits bytes entries =
    if leb bytes 4177920 && leb entries 4032 then ok tt else err (reject control_capacity)

-- The sum is exact: it is returned just when it is an `i64`, and no wrapped value ever is.
pub utc_add_millis_exact :
    (a b : ℤ)
    → ((utc_add_millis a b ≡ ok (a +ℤ b)) × IsI64 (a +ℤ b))
      ⊎ ((utc_add_millis a b ≡ err (reject arithmetic_overflow)) × (¬ IsI64 (a +ℤ b)))
unfolding utc_add_millis
utc_add_millis_exact a b = ground arith

-- An accepted ceiling is the one asked for, or seven days, and lies above the sum of the three
-- intervals taken as exact integers.
pub validate_downtime_ceiling_sound :
    (c : Option ℤ) (i t s : ℤ) (r : ℤ)
    → validate_downtime_ceiling c i t s ≡ ok r
    → (i +ℤ t +ℤ s <ℤ r) × (r ≡ unwrap_or c default_downtime_ceiling_millis)
unfolding validate_downtime_ceiling
validate_downtime_ceiling_sound c i t s r h = ground arith
