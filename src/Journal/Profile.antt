-- ===== src/Journal/Profile.antt =====
-- The body of a command that generates a recovery key (recovery_key_generate_profile.rs): three bytes,
-- and 33 more for each of two digests that may be present, in the order of their kinds.
pub mod Reading
pub mod RoundTrip
use msgriver.Common.{
  ℕ, zero, suc, ◌+◌, ◌*◌, ◌≡◌, Bool, true, false, not, ◌||◌, Option, none, some, List, [], ◌∷◌,
  ◌++◌, ltb, leb, ◌==◌, if◌then◌else◌, length, drop,
}
use msgriver.Journal.Wire.{Result, ok, err, ◌>>=◌, join, slice, byte}
use msgriver.Journal.Words.{flag_byte, read_array}

abbrev pub format : ℕ
format = 1

abbrev pub issuance : ℕ
issuance = 1

abbrev pub confirmation : ℕ
confirmation = 2

abbrev pub entry_bytes : ℕ
entry_bytes = 33

pub data RecoveryKeyGenerateVariant : Type 0 where
  generate acknowledge : RecoveryKeyGenerateVariant

pub record RecoveryKeyGenerateProfile : Type 0 where
  pub variant : RecoveryKeyGenerateVariant
  pub issuance_digest : Option (List ℕ)
  pub confirmation_digest : Option (List ℕ)

pub data RecoveryKeyGenerateProfileError : Type 0 where
  invalid_profile : RecoveryKeyGenerateProfileError

abbrev pub variant_code : RecoveryKeyGenerateVariant → ℕ
variant_code generate = 1
variant_code acknowledge = 2

abbrev pub variant_decode : ℕ → Result RecoveryKeyGenerateProfileError RecoveryKeyGenerateVariant
variant_decode code =
    if code == 1 then ok generate else if code == 2 then ok acknowledge else err invalid_profile

abbrev pub is_some : {A : Type 0} → Option A → Bool
is_some none = false
is_some (some a) = true

abbrev pub count_of : RecoveryKeyGenerateProfile → ℕ
count_of profile =
    flag_byte (is_some profile.issuance_digest) + flag_byte (is_some profile.confirmation_digest)

abbrev pub entry_wire : ℕ → Option (List ℕ) → List ℕ
entry_wire kind none = []
entry_wire kind (some digest) = kind ∷ digest

unfoldable pub encode_recovery_key_generate_profile : RecoveryKeyGenerateProfile → List ℕ
encode_recovery_key_generate_profile profile = join (
    (format ∷ variant_code profile.variant ∷ count_of profile ∷ [])
    ∷ entry_wire issuance profile.issuance_digest
    ∷ entry_wire confirmation profile.confirmation_digest
    ∷ [])

-- The two digests that the loop has found.
pub record Digests : Type 0 where
  pub issued : Option (List ℕ)
  pub confirmed : Option (List ℕ)

abbrev pub keep_digest : ℕ → List ℕ → Digests → Result RecoveryKeyGenerateProfileError Digests
keep_digest kind digest found =
    if kind == issuance
    then ok (record { issued = some digest; confirmed = found.confirmed })
    else if kind == confirmation
    then ok (record { issued = found.issued; confirmed = some digest })
    else err invalid_profile

-- The loop over the `chunks_exact` of `rest`, of which there are `chunks`.
unfoldable pub read_digests :
    ℕ → List ℕ → ℕ → Digests → Result RecoveryKeyGenerateProfileError Digests
read_digests zero rest previous_kind found = ok found
read_digests (suc chunks) rest previous_kind found =
    if leb (byte 0 rest) previous_kind then err invalid_profile else (do
      digest ← read_array invalid_profile 32 (slice 1 entry_bytes rest)
      kept ← keep_digest (byte 0 rest) digest found
      read_digests chunks (drop entry_bytes rest) (byte 0 rest) kept)

unfoldable pub decode_recovery_key_generate_profile :
    List ℕ → Result RecoveryKeyGenerateProfileError RecoveryKeyGenerateProfile
decode_recovery_key_generate_profile wire =
    if ltb (length wire) 3 || not (byte 0 wire == format) then err invalid_profile else (do
      variant ← variant_decode (byte 1 wire)
      if ltb 2 (byte 2 wire) || not (length wire == 3 + entry_bytes * byte 2 wire)
          then err invalid_profile
          else (do
            found ←
                read_digests (byte 2 wire) (drop 3 wire) 0
                  (record { issued = none; confirmed = none })
            ok (record {
              variant = variant;
              issuance_digest = found.issued;
              confirmation_digest = found.confirmed;
            })))
