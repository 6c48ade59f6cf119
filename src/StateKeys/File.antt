-- ===== src/StateKeys/File.antt =====
-- The file of a state key (state_mac_key_file.rs): a version, the reference of the key, the key, and
-- the tag. HMAC-SHA-256 under the journal key is a function of another crate: `mac` is a parameter.
pub mod RoundTrip
use msgriver.Common.{
  ℕ, Bool, true, false, not, List, [], ◌∷◌, ◌++◌, ◌==◌, if◌then◌else◌, length, drop, list_eq,
}
use msgriver.Core.Mac.{
  MacPurpose, api_key_verify, idempotency_lookup, idempotency_fingerprint, replay_lookup,
  replay_fingerprint, command_lookup, command_semantic_fingerprint, command_phase_fingerprint,
  retry_jitter, artifact_internal_auth, portable_reservation, MacKeyId, MacKeyRef, code, same_ref,
}
use msgriver.Journal.Wire.{Result, ok, err, ◌>>=◌, ◌>>◌, join, slice, byte}
use msgriver.Journal.Words.{read_array, digest_is_zero}
use msgriver.Journal.Labels.{state_mac_key_domain}

abbrev pub version : ℕ
version = 1

abbrev pub preceding_bytes : ℕ
preceding_bytes = 74

abbrev pub wire_bytes : ℕ
wire_bytes = 106

pub record StateMacKeySecret : Type 0 where
  pub bytes : List ℕ

pub data StateMacKeyFileError : Type 0 where
  missing_state_mac_key_file invalid_state_mac_key_file : StateMacKeyFileError

-- All of the serial, which is what follows the origin, is zero.
unfoldable pub validate_reference : MacKeyRef → Result StateMacKeyFileError (Unit {0})
validate_reference reference =
    if digest_is_zero (drop 32 reference.key_id.bytes)
    then err invalid_state_mac_key_file
    else ok tt

abbrev pub purpose_from_byte : ℕ → Result StateMacKeyFileError MacPurpose
purpose_from_byte byte =
    if byte == 0x01
    then ok api_key_verify
    else if byte == 0x02
    then ok idempotency_lookup
    else if byte == 0x03
    then ok idempotency_fingerprint
    else if byte == 0x04
    then ok replay_lookup
    else if byte == 0x05
    then ok replay_fingerprint
    else if byte == 0x06
    then ok command_lookup
    else if byte == 0x07
    then ok command_semantic_fingerprint
    else if byte == 0x08
    then ok command_phase_fingerprint
    else if byte == 0x09
    then ok retry_jitter
    else if byte == 0x0a
    then ok artifact_internal_auth
    else if byte == 0x0b
    then ok portable_reservation
    else err invalid_state_mac_key_file

abbrev pub preceding_parts : MacKeyRef → StateMacKeySecret → List (List ℕ)
preceding_parts expected secret =
    (version ∷ code expected.purpose ∷ []) ∷ expected.key_id.bytes ∷ secret.bytes ∷ []

-- What follows the checks of the length, of the tag and of the version.
unfoldable pub decode_secret : MacKeyRef → List ℕ → Result StateMacKeyFileError StateMacKeySecret
decode_secret expected wire = do
  purpose ← purpose_from_byte (byte 1 wire)
  key_id ← read_array invalid_state_mac_key_file 40 (slice 2 42 wire)
  validate_reference (record { purpose = purpose; key_id = record { bytes = key_id } })
  if not (same_ref (record { purpose = purpose; key_id = record { bytes = key_id } }) expected)
      then err invalid_state_mac_key_file
      else (do
        raw ← read_array invalid_state_mac_key_file 32 (slice 42 preceding_bytes wire)
        if digest_is_zero raw then err invalid_state_mac_key_file else ok (record { bytes = raw }))

module _ (mac : List ℕ → List ℕ) where
  abbrev pub state_mac_key_file_tag : List ℕ → List ℕ
  state_mac_key_file_tag preceding = mac (state_mac_key_domain ++ preceding)

  unfoldable pub encode_state_mac_key_file :
      MacKeyRef → StateMacKeySecret → Result StateMacKeyFileError (List ℕ)
  encode_state_mac_key_file expected secret =
      let preceding = join (preceding_parts expected secret) in
      validate_reference expected
      >> (if digest_is_zero secret.bytes
          then err invalid_state_mac_key_file
          else ok (preceding ++ state_mac_key_file_tag preceding))

  abbrev pub verify_state_mac_key_file_tag : List ℕ → List ℕ → Bool
  verify_state_mac_key_file_tag preceding tag = list_eq tag (state_mac_key_file_tag preceding)

  unfoldable pub decode_state_mac_key_file :
      MacKeyRef → List ℕ → Result StateMacKeyFileError StateMacKeySecret
  decode_state_mac_key_file expected wire =
      validate_reference expected
      >> (if not (length wire == wire_bytes)
          then err invalid_state_mac_key_file
          else if not (
              verify_state_mac_key_file_tag (slice 0 preceding_bytes wire)
                (slice preceding_bytes wire_bytes wire))
          then err invalid_state_mac_key_file
          else if not (byte 0 wire == version)
          then err invalid_state_mac_key_file
          else decode_secret expected wire)
