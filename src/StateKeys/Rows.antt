-- ===== src/StateKeys/Rows.antt =====
-- The rows that list the state keys, as they are decoded (state_mac_key_manifest_row.rs and
-- state_mac_key_meta_row.rs).
use msgriver.Common.{ℕ, ◌^◌, not, ◌&&◌, List, [], ◌∷◌, ◌++◌, ltb, ◌==◌, if◌then◌else◌, length}
use msgriver.Common.Int.{ℤ, pos, negsuc}
use msgriver.Common.Bytes.{be_bytes}
use msgriver.Core.Mac.{
  MacPurpose, api_key_verify, idempotency_lookup, idempotency_fingerprint, replay_lookup,
  replay_fingerprint, command_lookup, command_semantic_fingerprint, command_phase_fingerprint,
  retry_jitter, artifact_internal_auth, portable_reservation, MacKeyRef,
}
use msgriver.Journal.Wire.{Result, ok, err, ◌>>=◌}

pub record RawStateMacKeyManifestRow : Type 0 where
  pub purpose : ℤ
  pub origin : List ℕ
  pub serial_hi : ℤ
  pub serial_lo : ℤ
  pub status : ℤ
  pub created_at : ℤ

pub data StateMacKeyManifestStatus : Type 0 where
  active retained : StateMacKeyManifestStatus

pub record StateMacKeyManifestRow : Type 0 where
  pub reference : MacKeyRef
  pub status : StateMacKeyManifestStatus
  pub created_at : ℤ

pub data StateMacKeyManifestRowError : Type 0 where
  missing_state_mac_key_manifest_row_decoder invalid_purpose : StateMacKeyManifestRowError
  invalid_status invalid_origin_length limb_out_of_range zero_serial : StateMacKeyManifestRowError

-- `purpose_from_i64`, with the error of the decoder that calls it.
abbrev pub purpose_of : {E : Type 0} → E → ℕ → Result E MacPurpose
purpose_of e value =
    if value == 1
    then ok api_key_verify
    else if value == 2
    then ok idempotency_lookup
    else if value == 3
    then ok idempotency_fingerprint
    else if value == 4
    then ok replay_lookup
    else if value == 5
    then ok replay_fingerprint
    else if value == 6
    then ok command_lookup
    else if value == 7
    then ok command_semantic_fingerprint
    else if value == 8
    then ok command_phase_fingerprint
    else if value == 9
    then ok retry_jitter
    else if value == 10
    then ok artifact_internal_auth
    else if value == 11
    then ok portable_reservation
    else err e

abbrev pub purpose_from_i64 : {E : Type 0} → E → ℤ → Result E MacPurpose
purpose_from_i64 e (pos value) = purpose_of e value
purpose_from_i64 e (negsuc value) = err e

abbrev pub status_from_i64 : ℤ → Result StateMacKeyManifestRowError StateMacKeyManifestStatus
status_from_i64 (pos value) =
    if value == 1 then ok active else if value == 2 then ok retained else err invalid_status
status_from_i64 (negsuc value) = err invalid_status

-- `u32::try_from`.
abbrev pub limb_from_i64 : {E : Type 0} → E → ℤ → Result E ℕ
limb_from_i64 e (pos value) = if ltb value (2 ^ 32) then ok value else err e
limb_from_i64 e (negsuc value) = err e

unfoldable pub decode_state_mac_key_manifest_row :
    RawStateMacKeyManifestRow → Result StateMacKeyManifestRowError StateMacKeyManifestRow
decode_state_mac_key_manifest_row raw = do
  purpose ← purpose_from_i64 invalid_purpose raw.purpose
  status ← status_from_i64 raw.status
  origin ← if length raw.origin == 32 then ok raw.origin else err invalid_origin_length
  serial_hi ← limb_from_i64 limb_out_of_range raw.serial_hi
  serial_lo ← limb_from_i64 limb_out_of_range raw.serial_lo
  if (serial_hi == 0) && (serial_lo == 0)
      then err zero_serial
      else ok (record {
        reference = record {
          purpose = purpose;
          key_id = record { bytes = origin ++ (be_bytes 4 serial_hi ++ be_bytes 4 serial_lo) };
        };
        status = status;
        created_at = raw.created_at;
      })

pub record StateMacKeyHighWater : Type 0 where
  pub purpose : MacPurpose
  pub serial_hi : ℕ
  pub serial_lo : ℕ

pub record RawStateMacKeyHighWater : Type 0 where
  pub purpose : ℤ
  pub serial_hi : ℤ
  pub serial_lo : ℤ

pub record StateMacKeyMetaFacts : Type 0 where
  pub selected_origin : List ℕ
  pub high_waters : List StateMacKeyHighWater

-- `InvalidPurpose` and `LimbOutOfRange` of this decoder have the names of the other one's in the
-- source.
pub data StateMacKeyMetaRowError : Type 0 where
  missing_state_mac_key_meta_row_decoder invalid_selected_origin_length : StateMacKeyMetaRowError
  invalid_meta_purpose meta_limb_out_of_range : StateMacKeyMetaRowError

-- `map` with a fallible function, and `collect`: the first error, if any.
abbrev pub collect : {E A B : Type 0} → (A → Result E B) → List A → Result E (List B)
collect f [] = ok []
collect f (x ∷ xs) = f x >>= λ y. collect f xs >>= λ ys. ok (y ∷ ys)

abbrev pub decode_high_water :
    RawStateMacKeyHighWater → Result StateMacKeyMetaRowError StateMacKeyHighWater
decode_high_water row = do
  purpose ← purpose_from_i64 invalid_meta_purpose row.purpose
  serial_hi ← limb_from_i64 meta_limb_out_of_range row.serial_hi
  serial_lo ← limb_from_i64 meta_limb_out_of_range row.serial_lo
  ok (record { purpose = purpose; serial_hi = serial_hi; serial_lo = serial_lo })

unfoldable pub decode_state_mac_key_meta_rows :
    List ℕ → List RawStateMacKeyHighWater → Result StateMacKeyMetaRowError StateMacKeyMetaFacts
decode_state_mac_key_meta_rows selected_origin high_waters =
    if not (length selected_origin == 32) then err invalid_selected_origin_length else (do
      decoded ← collect decode_high_water high_waters
      ok (record { selected_origin = selected_origin; high_waters = decoded }))
