-- ===== src/StateKeys/Manifest/Actives.antt =====
-- What a validated list of keys promises.
use msgriver.Common.{
  ℕ, zero, suc, ◌+◌, ◌-◌, ◌<◌, ◌≡◌, refl, sym, ap, ◌∙◌, Bool, true, false, not, ◌&&◌, Option, none,
  some, Bool-cases, inl, inr, List, [], ◌∷◌, ltb, ◌==◌, if◌then◌else◌, take, list_eq, list_eq_sound,
  All, arith,
}
use msgriver.Core.Mac.{MacKeyRef, code}
use msgriver.Journal.Wire.{ok, not-false, bind_ok, else_ok, then_ok, ok_injective}
use msgriver.StateKeys.Rows.{StateMacKeyManifestRow, StateMacKeyManifestStatus, active, retained}
use msgriver.StateKeys.HighWater.{put}
use msgriver.StateKeys.Manifest.{
  out_of_order_or_duplicate, too_many_rows_for_purpose, missing_active_purpose,
  multiple_active_rows_for_purpose, active_origin_mismatch, not_after, expected_origin, all_one,
  check_status, check_rows, validate_state_mac_key_manifest,
}

abbrev pub is_active : StateMacKeyManifestStatus → Bool
is_active active = true
is_active retained = false

-- How many active rows a purpose has; its index is one below its code.
abbrev pub active_rows : ℕ → List StateMacKeyManifestRow → ℕ
active_rows i [] = 0
active_rows i (row ∷ rows) =
    (if is_active row.status then (if i == code row.reference.purpose - 1 then 1 else 0) else 0)
    + active_rows i rows

-- Each row stands behind the one before it in the order of purposes and key ids.
abbrev pub IsAscending : Option MacKeyRef → List StateMacKeyManifestRow → Type 0
IsAscending previous [] = Unit
IsAscending previous (row ∷ rows) =
    (not_after previous row.reference ≡ false) × IsAscending (some row.reference) rows

same_index : (i j : ℕ) → (i == j) ≡ true → i ≡ j
same_index i j h = ground arith

below : (i n : ℕ) → i < suc n → (i == n) ≡ false → i < n
below i n h k = ground arith

and_true : (a b : Bool) → (a && b) ≡ true → (a ≡ true) × (b ≡ true)
and_true true b h = (refl, h)
and_true false b h = absurd (ground arith)

put_step :
    (b : Bool) (counts : ℕ → ℕ) (i at : ℕ)
    → (b ≡ true → i ≡ at)
    → (if b then counts at + 1 else counts i) ≡ counts i + (if b then 1 else 0)
put_step true counts i at h = ap (λ k. counts k + 1) (sym (h refl))
put_step false counts i at h = omega arith

module _ (selected prebootstrap : List ℕ) where
  -- An active key has the origin that its purpose asks for.
  abbrev pub IsPlaced : StateMacKeyManifestRow → Type 0
  IsPlaced row =
      is_active row.status ≡ true
      → take 32 row.reference.key_id.bytes
        ≡ expected_origin selected prebootstrap (code row.reference.purpose)

  status_ok :
      (status : StateMacKeyManifestStatus) (reference : MacKeyRef) (counts now : ℕ → ℕ) (i : ℕ)
      → check_status selected prebootstrap status reference counts ≡ ok now
      → (now i
          ≡ counts i
            + (if is_active status then (if i == code reference.purpose - 1 then 1 else 0) else 0))
        × (is_active status ≡ true
            → take 32 reference.key_id.bytes
              ≡ expected_origin selected prebootstrap (code reference.purpose))
  status_ok retained reference counts now i h =
      let same : counts ≡ now = ok_injective h in
      (ap (λ f. f i) (sym same) ∙ omega arith, λ e. absurd (ground arith))
  status_ok active reference counts now i h =
      let at = code reference.purpose - 1 in
      let wanted = expected_origin selected prebootstrap (code reference.purpose) in
      let (few, h1) = else_ok (ltb 1 (counts at + 1)) multiple_active_rows_for_purpose _ now h in
      let (origin, h2) =
        else_ok (not (list_eq (take 32 reference.key_id.bytes) wanted)) active_origin_mismatch
          (ok (put at (counts at + 1) counts)) now h1 in
      let same : put at (counts at + 1) counts ≡ now = ok_injective h2 in
      (
        ap (λ f. f i) (sym same) ∙ put_step (i == at) counts i at (same_index i at),
        λ e. list_eq_sound (take 32 reference.key_id.bytes) wanted (not-false _ origin),
      )

  all_one_ok :
      (n : ℕ) (counts : ℕ → ℕ)
      → all_one selected prebootstrap n counts ≡ true
      → (i : ℕ) → i < n
      → counts i ≡ 1
  all_one_ok zero counts h i under = absurd (omega arith)
  all_one_ok (suc n) counts h i under =
      let (here, rest) = and_true (counts n == 1) _ h in
      elim (Bool-cases (i == n)) [
        | inl same ↦ ap counts (same_index i n same) ∙ same_index (counts n) 1 here
        | inr apart ↦ all_one_ok n counts rest i (below i n under apart)
      ]

  check_rows_ok :
      (previous : Option MacKeyRef) (here counts : ℕ → ℕ) (rows : List StateMacKeyManifestRow)
      → check_rows selected prebootstrap previous here counts rows ≡ ok tt
      → ((i : ℕ) → i < 11 → counts i + active_rows i rows ≡ 1)
        × IsAscending previous rows
        × All IsPlaced rows
  unfolding check_rows
  check_rows_ok previous here counts [] h =
      let (ones, h1) =
        then_ok (all_one selected prebootstrap 11 counts) missing_active_purpose (ok tt) tt h in
      (λ i under. let one = all_one_ok 11 counts ones i under in omega arith, tt, tt)
  check_rows_ok previous here counts (row ∷ rows) h =
      let at = code row.reference.purpose - 1 in
      let counted = put at (here at + 1) here in
      let (order, h1) =
        else_ok (not_after previous row.reference) out_of_order_or_duplicate _ tt h in
      let (few, h2) = else_ok (ltb 16 (counted at)) too_many_rows_for_purpose _ tt h1 in
      let (now, e, h3) =
        bind_ok (check_status selected prebootstrap row.status row.reference counts)
          (λ f. check_rows selected prebootstrap (some row.reference) counted f rows) tt h2 in
      let (ones, rises, placed) = check_rows_ok (some row.reference) counted now rows h3 in
      (
        λ i under.
            let (count, origin) = status_ok row.status row.reference counts now i e in
            let one = ones i under in omega arith,
        (order, rises),
        ((status_ok row.status row.reference counts now 0 e).1, placed),
      )

  -- If the validation passes, then each of the eleven purposes has exactly one active key, the rows
  -- ascend strictly in the order of purposes and key ids, and each active key has the origin that its
  -- purpose asks for.
  pub validate_state_mac_key_manifest_ok :
      (rows : List StateMacKeyManifestRow)
      → validate_state_mac_key_manifest selected prebootstrap rows ≡ ok tt
      → ((i : ℕ) → i < 11 → active_rows i rows ≡ 1) × IsAscending none rows × All IsPlaced rows
  unfolding validate_state_mac_key_manifest
  validate_state_mac_key_manifest_ok rows h =
      let (ones, rises, placed) = check_rows_ok none (λ _. 0) (λ _. 0) rows h in
      (λ i under. let one = ones i under in omega arith, rises, placed)
