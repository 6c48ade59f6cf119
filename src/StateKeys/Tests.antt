-- ===== src/StateKeys/Tests.antt =====
-- Each theorem on the state keys at concrete values.
use msgriver.Common.{ℕ, ◌%◌, ◌≡◌, refl, ◌↔◌, List, [], ◌∷◌, ◌++◌, replicate, length}
use msgriver.Common.Int.{pos}
use msgriver.Common.Bytes.{IsBytes, all-IsBytes}
use msgriver.Core.Mac.{
  MacPurpose, api_key_verify, idempotency_lookup, idempotency_fingerprint, replay_lookup,
  replay_fingerprint, command_lookup, command_semantic_fingerprint, command_phase_fingerprint,
  retry_jitter, artifact_internal_auth, portable_reservation, MacKeyRef,
}
use msgriver.Journal.Wire.{ok, join}
use msgriver.StateKeys.File.{
  StateMacKeySecret, preceding_parts, state_mac_key_file_tag, encode_state_mac_key_file,
  decode_state_mac_key_file,
}
use msgriver.StateKeys.File.RoundTrip.{decode_state_mac_key_file_iff}
use msgriver.StateKeys.Path.Injective.{state_mac_key_relative_path_injective}
use msgriver.StateKeys.Rows.{
  RawStateMacKeyManifestRow, StateMacKeyManifestRow, active, RawStateMacKeyHighWater,
  StateMacKeyHighWater,
}
use msgriver.StateKeys.Snapshot.{SelectedKeySnapshotRaw, StateMacKeySnapshotFacts}

-- A stand-in for the hash function: 32 bytes that tell the length.
abbrev sum_of : List ℕ → List ℕ
sum_of input = replicate 32 (length input % 256)

wide_sum : (x : List ℕ) → length (sum_of x) ≡ 32
wide_sum x = refl

abbrev origin : List ℕ
origin = replicate 32 7

abbrev reference : MacPurpose → MacKeyRef
reference purpose = record {
  purpose = purpose;
  key_id = record { bytes = origin ++ (0 ∷ 0 ∷ 0 ∷ 0 ∷ 0 ∷ 0 ∷ 0 ∷ 3 ∷ []) };
}

abbrev secret : StateMacKeySecret
secret = record { bytes = replicate 32 5 }

abbrev file : List ℕ
file =
    join (preceding_parts (reference retry_jitter) secret)
    ++ state_mac_key_file_tag sum_of (join (preceding_parts (reference retry_jitter) secret))

decode_state_mac_key_file_iff_example :
    (decode_state_mac_key_file sum_of (reference retry_jitter) file ≡ ok secret) ↔ (
      (length secret.bytes ≡ 32)
      × (encode_state_mac_key_file sum_of (reference retry_jitter) secret ≡ ok file))
decode_state_mac_key_file_iff_example =
    decode_state_mac_key_file_iff sum_of wide_sum (reference retry_jitter) file secret refl

id-IsBytes : IsBytes (reference retry_jitter).key_id.bytes
id-IsBytes = all-IsBytes (reference retry_jitter).key_id.bytes refl

state_mac_key_relative_path_injective_example : reference retry_jitter ≡ reference retry_jitter
state_mac_key_relative_path_injective_example =
    state_mac_key_relative_path_injective (reference retry_jitter) (reference retry_jitter)
      id-IsBytes id-IsBytes refl

abbrev raw_row : ℕ → RawStateMacKeyManifestRow
raw_row purpose = record {
  purpose = pos purpose;
  origin = origin;
  serial_hi = pos 0;
  serial_lo = pos 3;
  status = pos 1;
  created_at = pos 0;
}

abbrev raw_high_water : ℕ → RawStateMacKeyHighWater
raw_high_water purpose = record { purpose = pos purpose; serial_hi = pos 0; serial_lo = pos 4 }

abbrev raw : SelectedKeySnapshotRaw
raw = record {
  selected_origin = origin;
  high_waters =
      raw_high_water 1
      ∷ raw_high_water 2
      ∷ raw_high_water 3
      ∷ raw_high_water 4
      ∷ raw_high_water 5
      ∷ raw_high_water 6
      ∷ raw_high_water 7
      ∷ raw_high_water 8
      ∷ raw_high_water 9
      ∷ raw_high_water 10
      ∷ raw_high_water 11
      ∷ [];
  manifest_rows =
      raw_row 1
      ∷ raw_row 2
      ∷ raw_row 3
      ∷ raw_row 4
      ∷ raw_row 5
      ∷ raw_row 6
      ∷ raw_row 7
      ∷ raw_row 8
      ∷ raw_row 9
      ∷ raw_row 10
      ∷ raw_row 11
      ∷ [];
}

abbrev row : MacPurpose → StateMacKeyManifestRow
row purpose = record { reference = reference purpose; status = active; created_at = pos 0 }

abbrev high_water : MacPurpose → StateMacKeyHighWater
high_water purpose = record { purpose = purpose; serial_hi = 0; serial_lo = 4 }

abbrev facts : StateMacKeySnapshotFacts
facts = record {
  selected_origin = origin;
  high_waters =
      high_water api_key_verify
      ∷ high_water idempotency_lookup
      ∷ high_water idempotency_fingerprint
      ∷ high_water replay_lookup
      ∷ high_water replay_fingerprint
      ∷ high_water command_lookup
      ∷ high_water command_semantic_fingerprint
      ∷ high_water command_phase_fingerprint
      ∷ high_water retry_jitter
      ∷ high_water artifact_internal_auth
      ∷ high_water portable_reservation
      ∷ [];
  manifest_rows =
      row api_key_verify
      ∷ row idempotency_lookup
      ∷ row idempotency_fingerprint
      ∷ row replay_lookup
      ∷ row replay_fingerprint
      ∷ row command_lookup
      ∷ row command_semantic_fingerprint
      ∷ row command_phase_fingerprint
      ∷ row retry_jitter
      ∷ row artifact_internal_auth
      ∷ row portable_reservation
      ∷ [];
}
