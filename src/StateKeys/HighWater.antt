-- ===== src/StateKeys/HighWater.antt =====
-- The validation of the high waters (state_mac_key_high_water.rs). An array of one cell for each
-- purpose is a function.
pub mod Bounds
use msgriver.Common.{
  ℕ, zero, suc, ◌+◌, ◌-◌, ◌*◌, ◌^◌, Bool, true, false, not, ◌&&◌, ◌||◌, Option, none, some, List,
  [], ◌∷◌, ◌++◌, ltb, ◌==◌, if◌then◌else◌, length, take, drop, list_eq,
}
use msgriver.Common.Int.{ℤ, pos, negsuc}
use msgriver.Common.Bytes.{be_bytes, from_be_bytes}
use msgriver.Core.Mac.{
  MacPurpose, api_key_verify, idempotency_lookup, idempotency_fingerprint, replay_lookup,
  replay_fingerprint, command_lookup, command_semantic_fingerprint, command_phase_fingerprint,
  retry_jitter, artifact_internal_auth, portable_reservation, MacKeyRef, code,
}
use msgriver.Journal.Wire.{Result, ok, err, ◌>>=◌, ◌>>◌}
use msgriver.StateKeys.Rows.{
  StateMacKeyManifestRow, StateMacKeyManifestStatus, active, retained, StateMacKeyHighWater,
}

pub data StateMacKeyHighWaterError : Type 0 where
  missing_state_mac_key_high_water_validator duplicate_high_water_purpose :
      StateMacKeyHighWaterError
  missing_high_water_purpose : StateMacKeyHighWaterError
  selected_origin_serial_above_high_water : StateMacKeyHighWaterError

-- One cell is written.
abbrev pub put : {A : Type 0} → ℕ → A → (ℕ → A) → ℕ → A
put index value cells i = if i == index then value else cells i

-- `u64::from(hi) << 32 | u64::from(lo)`, of two `u32` words.
abbrev pub high_water_value : StateMacKeyHighWater → ℕ
high_water_value high_water = high_water.serial_hi * 2 ^ 32 + high_water.serial_lo

abbrev pub is_some : {A : Type 0} → Option A → Bool
is_some none = false
is_some (some a) = true

unfoldable pub by_purpose :
    (ℕ → Option ℕ) → List StateMacKeyHighWater → Result StateMacKeyHighWaterError (ℕ → Option ℕ)
by_purpose cells [] = ok cells
by_purpose cells (high_water ∷ more) =
    let index = code high_water.purpose - 1 in
    let rest = by_purpose (put index (some (high_water_value high_water)) cells) more in
    if is_some (cells index) then err duplicate_high_water_purpose else rest

abbrev pub unwrapped : Option ℕ → ℕ
unwrapped none = 0
unwrapped (some value) = value

-- The loop over the eleven cells, from `index` on, of which `n` are left; it fills `resolved`.
unfoldable pub all_present : ℕ → ℕ → (ℕ → Option ℕ) → Result StateMacKeyHighWaterError (Unit {0})
all_present zero index cells = ok tt
all_present (suc n) index cells =
    let rest = all_present n (suc index) cells in
    if is_some (cells index) then rest else err missing_high_water_purpose

abbrev pub serial_of : StateMacKeyManifestRow → ℕ
serial_of row = from_be_bytes (drop 32 row.reference.key_id.bytes)

unfoldable pub serials_below :
    List ℕ
    → (ℕ → Option ℕ)
    → List StateMacKeyManifestRow
    → Result StateMacKeyHighWaterError (Unit {0})
serials_below selected_origin cells [] = ok tt
serials_below selected_origin cells (row ∷ rows) =
    let rest = serials_below selected_origin cells rows in
    if not (list_eq (take 32 row.reference.key_id.bytes) selected_origin)
    then rest
    else if ltb (unwrapped (cells (code row.reference.purpose - 1))) (serial_of row)
    then err selected_origin_serial_above_high_water
    else rest

unfoldable pub validate_state_mac_key_high_water :
    List StateMacKeyManifestRow
    → List ℕ
    → List StateMacKeyHighWater
    → Result StateMacKeyHighWaterError (Unit {0})
validate_state_mac_key_high_water rows selected_origin high_waters = do
  cells ← by_purpose (λ _. none) high_waters
  all_present 11 0 cells
  serials_below selected_origin cells rows
