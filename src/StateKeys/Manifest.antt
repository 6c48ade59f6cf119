-- ===== src/StateKeys/Manifest.antt =====
-- The validation of the rows that list the keys (state_mac_key_manifest.rs). An array of one count
-- for each purpose is a function.
pub mod Actives
use msgriver.Common.{
  ℕ, zero, suc, ◌+◌, ◌-◌, ◌*◌, ◌^◌, Bool, true, false, not, ◌&&◌, ◌||◌, Option, none, some, List,
  [], ◌∷◌, ◌++◌, ltb, ◌==◌, if◌then◌else◌, length, take, drop, list_eq,
}
use msgriver.Common.Int.{ℤ, pos, negsuc}
use msgriver.Common.Bytes.{be_bytes, from_be_bytes}
use msgriver.Core.Mac.{
  MacPurpose, api_key_verify, idempotency_lookup, idempotency_fingerprint, replay_lookup,
  replay_fingerprint, command_lookup, command_semantic_fingerprint, command_phase_fingerprint,
  retry_jitter, artifact_internal_auth, portable_reservation, MacKeyRef, code,
}
use msgriver.Journal.Wire.{Result, ok, err, ◌>>=◌, ◌>>◌}
use msgriver.StateKeys.Rows.{
  StateMacKeyManifestRow, StateMacKeyManifestStatus, active, retained, StateMacKeyHighWater,
}
use msgriver.StateKeys.HighWater.{put}

pub data StateMacKeyManifestError : Type 0 where
  missing_state_mac_key_manifest_validator out_of_order_or_duplicate : StateMacKeyManifestError
  too_many_rows_for_purpose missing_active_purpose : StateMacKeyManifestError
  multiple_active_rows_for_purpose active_origin_mismatch : StateMacKeyManifestError

-- The order of byte arrays of one width.
abbrev pub bytes_leb : List ℕ → List ℕ → Bool
bytes_leb [] ys = true
bytes_leb (x ∷ xs) [] = false
bytes_leb (x ∷ xs) (y ∷ ys) = ltb x y || ((x == y) && bytes_leb xs ys)

-- `order <= prior`, of the purpose and the key id.
abbrev pub order_leb : MacKeyRef → MacKeyRef → Bool
order_leb a b =
    ltb (code a.purpose) (code b.purpose)
    || ((code a.purpose == code b.purpose) && bytes_leb a.key_id.bytes b.key_id.bytes)

abbrev pub not_after : Option MacKeyRef → MacKeyRef → Bool
not_after none reference = false
not_after (some prior) reference = order_leb reference prior

-- The loop over the rows, with its three variables, and the test behind it.
module _ (selected_origin prebootstrap_origin : List ℕ) where
  abbrev pub expected_origin : ℕ → List ℕ
  expected_origin purpose = if purpose == 11 then prebootstrap_origin else selected_origin

  -- The test behind the loop: each of the eleven counts is one.
  abbrev pub all_one : ℕ → (ℕ → ℕ) → Bool
  all_one zero counts = true
  all_one (suc n) counts = (counts n == 1) && all_one n counts

  -- The branch of an active row, in front of the rest of the loop.
  abbrev pub check_status :
      StateMacKeyManifestStatus → MacKeyRef → (ℕ → ℕ) → Result StateMacKeyManifestError (ℕ → ℕ)
  check_status retained reference actives = ok actives
  check_status active reference actives =
      let purpose = code reference.purpose in
      let actives_here = actives (purpose - 1) + 1 in
      if ltb 1 actives_here
      then err multiple_active_rows_for_purpose
      else if not (list_eq (take 32 reference.key_id.bytes) (expected_origin purpose))
      then err active_origin_mismatch
      else ok (put (purpose - 1) actives_here actives)

  unfoldable pub check_rows :
      Option MacKeyRef
      → (ℕ → ℕ)
      → (ℕ → ℕ)
      → List StateMacKeyManifestRow
      → Result StateMacKeyManifestError (Unit {0})
  check_rows previous rows_here actives [] =
      if all_one 11 actives then ok tt else err missing_active_purpose
  check_rows previous rows_here actives (row ∷ rows) =
      let reference = row.reference in
      let index = code reference.purpose - 1 in
      let counted = put index (rows_here index + 1) rows_here in
      if not_after previous reference
      then err out_of_order_or_duplicate
      else if ltb 16 (counted index)
      then err too_many_rows_for_purpose
      else check_status row.status reference actives >>= λ now.
          check_rows (some reference) counted now rows

  unfoldable pub validate_state_mac_key_manifest :
      List StateMacKeyManifestRow → Result StateMacKeyManifestError (Unit {0})
  validate_state_mac_key_manifest rows = check_rows none (λ _. 0) (λ _. 0) rows
