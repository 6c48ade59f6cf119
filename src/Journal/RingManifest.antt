-- ===== src/Journal/RingManifest.antt =====
-- The manifest of the recovery ring (recovery_ring_manifest.rs): a version, a count, nine bytes for
-- each entry, and the tag. HMAC-SHA-256 under the journal key is a function of another crate: `mac` is
-- a parameter.
pub mod Validation
pub mod RoundTrip
use msgriver.Common.{
  ℕ, zero, suc, ◌+◌, ◌-◌, ◌*◌, ◌%◌, ◌^◌, ◌<◌, ◌≡◌, Bool, true, false, not, ◌||◌, Option, none, some,
  List, [], ◌∷◌, ◌++◌, ltb, leb, ◌==◌, if◌then◌else◌, length, list_eq,
}
use msgriver.Common.Bytes.{be_bytes}
use msgriver.Journal.Wire.{Result, ok, err, ◌>>=◌, ◌>>◌, slice, byte}
use msgriver.Journal.Words.{read_word}
use msgriver.Journal.Labels.{recovery_ring_domain}

abbrev pub version : ℕ
version = 1

abbrev pub maximum_entries : ℕ
maximum_entries = 16

pub data RecoveryRingPhase : Type 0 where
  retained active pending_escrow : RecoveryRingPhase

pub record RecoveryRingEntry : Type 0 where
  pub generation : ℕ
  pub phase : RecoveryRingPhase

pub record RecoveryRingManifest : Type 0 where
  pub entries : List RecoveryRingEntry

pub data RecoveryRingManifestError : Type 0 where
  missing_recovery_ring_manifest invalid_recovery_ring_manifest : RecoveryRingManifestError

abbrev pub phase_code : RecoveryRingPhase → ℕ
phase_code retained = 1
phase_code active = 2
phase_code pending_escrow = 3

abbrev pub phase_from_code : ℕ → Result RecoveryRingManifestError RecoveryRingPhase
phase_from_code code =
    if code == 1
    then ok retained
    else if code == 2
    then ok active
    else if code == 3
    then ok pending_escrow
    else err invalid_recovery_ring_manifest

abbrev pub expected_length : ℕ → Result RecoveryRingManifestError ℕ
expected_length entry_count =
    if ltb maximum_entries entry_count
    then err invalid_recovery_ring_manifest
    else ok (34 + 9 * entry_count)

-- `previous_generation.is_some_and(|previous| previous >= entry.generation)`.
abbrev pub not_above : Option ℕ → ℕ → Bool
not_above none generation = false
not_above (some previous) generation = leb generation previous

abbrev pub count_active : RecoveryRingPhase → ℕ → ℕ
count_active active n = n + 1
count_active _ n = n

abbrev pub count_pending : RecoveryRingPhase → ℕ → ℕ
count_pending pending_escrow n = n + 1
count_pending _ n = n

-- The loop over the entries, with its three variables, and the test behind it.
unfoldable pub validate_entries :
    Option ℕ → ℕ → ℕ → List RecoveryRingEntry → Result RecoveryRingManifestError (Unit {0})
validate_entries previous actives pendings [] =
    if ltb 1 actives || ltb 1 pendings then err invalid_recovery_ring_manifest else ok tt
validate_entries previous actives pendings (entry ∷ entries) =
    let rest =
      validate_entries (some entry.generation) (count_active entry.phase actives)
        (count_pending entry.phase pendings) entries in
    if entry.generation == 0 || not_above previous entry.generation
    then err invalid_recovery_ring_manifest
    else rest

unfoldable pub validate_manifest :
    RecoveryRingManifest → Result RecoveryRingManifestError (Unit {0})
validate_manifest manifest =
    expected_length (length manifest.entries) >>= λ _. validate_entries none 0 0 manifest.entries

abbrev pub entries_wire : List RecoveryRingEntry → List ℕ
entries_wire [] = []
entries_wire (entry ∷ entries) =
    be_bytes 8 entry.generation ++ (phase_code entry.phase ∷ entries_wire entries)

-- What is authenticated: all but the tag. `as u8` keeps the low byte of the count.
abbrev pub untagged_wire : List RecoveryRingEntry → List ℕ
untagged_wire entries = version ∷ length entries % 256 ∷ entries_wire entries

-- The loop over the indices; `offset` is `2 + index * 9`.
unfoldable pub read_entries :
    ℕ → ℕ → List ℕ → Result RecoveryRingManifestError (List RecoveryRingEntry)
read_entries zero offset wire = ok []
read_entries (suc count) offset wire = do
  generation ← read_word invalid_recovery_ring_manifest 8 (slice offset (offset + 8) wire)
  phase ← phase_from_code (byte (offset + 8) wire)
  entries ← read_entries count (offset + 9) wire
  ok (record { generation = generation; phase = phase } ∷ entries)

module _ (mac : List ℕ → List ℕ) where
  abbrev pub recovery_ring_manifest_tag : List ℕ → List ℕ
  recovery_ring_manifest_tag manifest_without_tag =
      mac (recovery_ring_domain ++ manifest_without_tag)

  unfoldable pub encode_recovery_ring_manifest :
      RecoveryRingManifest → Result RecoveryRingManifestError (List ℕ)
  encode_recovery_ring_manifest manifest =
      let wire = untagged_wire manifest.entries in
      validate_manifest manifest >> ok (wire ++ recovery_ring_manifest_tag wire)

  abbrev pub verify_recovery_ring_manifest_tag : List ℕ → List ℕ → Bool
  verify_recovery_ring_manifest_tag manifest_without_tag tag =
      list_eq tag (recovery_ring_manifest_tag manifest_without_tag)

  unfoldable pub decode_recovery_ring_manifest :
      List ℕ → Result RecoveryRingManifestError RecoveryRingManifest
  decode_recovery_ring_manifest wire =
      if ltb (length wire) 2 then err invalid_recovery_ring_manifest else (do
        total_length ← expected_length (byte 1 wire)
        if not (length wire == total_length)
            then err invalid_recovery_ring_manifest
            else if not (
                verify_recovery_ring_manifest_tag (slice 0 (total_length - 32) wire)
                  (slice (total_length - 32) total_length wire))
            then err invalid_recovery_ring_manifest
            else if not (byte 0 wire == version)
            then err invalid_recovery_ring_manifest
            else (do
              entries ← read_entries (byte 1 wire) 2 wire
              validate_manifest (record { entries = entries })
                  >> ok (record { entries = entries })))
