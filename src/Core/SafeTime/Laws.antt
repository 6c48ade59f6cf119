-- ===== src/Core/SafeTime/Laws.antt =====
-- What the safe-time operations of Core/SafeTime.antt promise.
use msgriver.Common.{◌≡◌, refl, ◌∙◌, ◌⊎◌, inl, inr, ◌↔◌, true, List, [], ◌∷◌, arith, All}
use msgriver.Common.Int.{ℤ, pos, ◌+ℤ◌, ◌-ℤ◌, ◌<ℤ◌, ◌≤ℤ◌, max_ℤ}
use msgriver.Core.Error.{ok, err, reject, safe_time_authority_empty}
use mathlib.Core.List.{Memᴰ}
use msgriver.Core.SafeTime.{
  fold_max, carry_forward_high_water, advance_high_water, proven_expired, clock_step_holds,
  CheckpointReason, CheckpointTransition, validate_transition,
}

abbrev pub BelowAll : ℤ → List ℤ → Type 0
BelowAll m xs = All (λ x. x ≤ℤ m) xs

BelowAll-mono : (m n : ℤ) (xs : List ℤ) → m ≤ℤ n → BelowAll m xs → BelowAll n xs
BelowAll-mono m n [] h b = tt
BelowAll-mono m n (x ∷ xs) h b = (omega arith, BelowAll-mono m n xs h b.1)

max_ℤ_le : (m x : ℤ) → (m ≤ℤ max_ℤ m x) × (x ≤ℤ max_ℤ m x)
max_ℤ_le m x = ground arith

max_ℤ_cases : (m x : ℤ) → (max_ℤ m x ≡ m) ⊎ (max_ℤ m x ≡ x)
max_ℤ_cases m x = ground arith

fold_max-BelowAll : (m : ℤ) (xs : List ℤ) → (m ≤ℤ fold_max m xs) × BelowAll (fold_max m xs) xs
unfolding fold_max
fold_max-BelowAll m [] = (omega arith, tt)
fold_max-BelowAll m (x ∷ xs) =
    let ih = fold_max-BelowAll (max_ℤ m x) xs in
    (omega (arith, max_ℤ_le m x, ih.0), (omega (arith, max_ℤ_le m x, ih.0), ih.1))

one_of_two : {y z m x : ℤ} {xs : List ℤ} → (z ≡ m) ⊎ (z ≡ x) → Memᴰ y (z ∷ xs) → Memᴰ y (m ∷ x ∷ xs)
one_of_two (inl e) (Memᴰ.head p) = Memᴰ.head (p ∙ e)
one_of_two (inr e) (Memᴰ.head p) = Memᴰ.tail (Memᴰ.head (p ∙ e))
one_of_two c (Memᴰ.tail t) = Memᴰ.tail (Memᴰ.tail t)

fold_max-mem : (m : ℤ) (xs : List ℤ) → Memᴰ (fold_max m xs) (m ∷ xs)
unfolding fold_max
fold_max-mem m [] = Memᴰ.head refl
fold_max-mem m (x ∷ xs) = one_of_two (max_ℤ_cases m x) (fold_max-mem (max_ℤ m x) xs)

-- Carrying markers forward gives the greatest of them, and is refused exactly when there is none.
pub carry_forward_high_water_lem :
    (xs : List ℤ)
    → ((m : ℤ) × (carry_forward_high_water xs ≡ ok m) × Memᴰ m xs × BelowAll m xs)
      ⊎ ((xs ≡ []) × (carry_forward_high_water xs ≡ err (reject safe_time_authority_empty)))
unfolding carry_forward_high_water
carry_forward_high_water_lem [] = inr (refl, refl)
carry_forward_high_water_lem (x ∷ xs) =
    inl (fold_max x xs, refl, fold_max-mem x xs, fold_max-BelowAll x xs)

-- A boundary proven expired under one high-water stays so under every later one, whatever the
-- candidates by which the high-water advances.
pub proven_expired-advance_high_water :
    (boundary current candidate next : ℤ)
    → proven_expired boundary current ≡ ok true
    → advance_high_water current candidate ≡ ok next
    → (proven_expired boundary next ≡ ok true) × (current ≤ℤ next) × (candidate ≤ℤ next)
unfolding proven_expired advance_high_water
proven_expired-advance_high_water boundary current candidate next e a = ground arith

-- The clock hold is entered exactly when the two deltas, taken as exact integers, differ by more
-- than thirty seconds; an overflowing difference is such a case.
pub clock_step_holds_iff :
    (w m : ℤ) → (clock_step_holds w m ≡ ok true) ↔ ((m +ℤ pos 30000 <ℤ w) ⊎ (w +ℤ pos 30000 <ℤ m))
unfolding clock_step_holds ◌+ℤ◌ ◌-ℤ◌
clock_step_holds_iff w m = (λ h. ground arith, λ h. ground arith)

-- A checkpoint is admitted exactly when safe time does not go back, and it carries what it was given.
pub validate_transition_iff :
    (p n : ℤ) (r : CheckpointReason) (t : CheckpointTransition)
    → (validate_transition p n r ≡ ok t)
      ↔ ((p ≤ℤ n) × (t ≡ record { prior_safe_time = p; new_safe_time = n; reason = r }))
unfolding validate_transition
validate_transition_iff p n r t = (λ h. ground arith, λ h. ground arith)
