-- ===== src/Journal/Pointer.antt =====
-- The certificate of the active state (active_state_pointer.rs): two identifiers behind their
-- lengths among fixed fields, and the tag. A `String` is its bytes. HMAC-SHA-256 under the journal
-- key and the UTF-8 test of the standard library are parameters: `mac` and `is_utf8`.
pub mod Fields
pub mod RoundTrip
use msgriver.Common.{
  ℕ, ◌+◌, ◌-◌, ◌%◌, ◌^◌, ◌<◌, ◌≡◌, Bool, true, false, not, ◌||◌, List, [], ◌∷◌, ◌++◌, ltb, in_range,
  ◌==◌, if◌then◌else◌, length, any, list_eq,
}
use msgriver.Common.Bytes.{be_bytes}
use msgriver.Journal.Wire.{Result, ok, err, ◌>>=◌, ◌>>◌, join, slice, byte}
use msgriver.Journal.Words.{read_array, read_word, digest_is_zero}
use msgriver.Journal.Labels.{active_state_pointer_domain}

abbrev pub version : ℕ
version = 1

abbrev pub tag_bytes : ℕ
tag_bytes = 32

abbrev pub minimum_bytes : ℕ
minimum_bytes = 116

abbrev pub maximum_bytes : ℕ
maximum_bytes = 624

pub data PointerOrigin : Type 0 where
  bootstrap restore rollback : PointerOrigin

pub record ActiveStatePointer : Type 0 where
  pub protocol_version : ℕ
  pub transition_id : List ℕ
  pub final_generation : ℕ
  pub lineage_id : List ℕ
  pub target_history_epoch : List ℕ
  pub origin : PointerOrigin
  pub database_certificate_digest : List ℕ

pub data ActiveStatePointerError : Type 0 where
  missing_active_state_pointer invalid_active_state_pointer : ActiveStatePointerError

abbrev pub origin_code : PointerOrigin → ℕ
origin_code bootstrap = 1
origin_code restore = 2
origin_code rollback = 3

abbrev pub origin_from_code : ℕ → Result ActiveStatePointerError PointerOrigin
origin_from_code code =
    if code == 1
    then ok bootstrap
    else if code == 2
    then ok restore
    else if code == 3
    then ok rollback
    else err invalid_active_state_pointer

abbrev pub read_length : List ℕ → Result ActiveStatePointerError ℕ
read_length bytes = do
  size ← read_word invalid_active_state_pointer 2 bytes
  if not (in_range 1 255 size) then err invalid_active_state_pointer else ok size

abbrev pub expected_length : ℕ → ℕ → Result ActiveStatePointerError ℕ
expected_length transition_length lineage_length =
    if not (in_range 1 255 transition_length) || not (in_range 1 255 lineage_length)
    then err invalid_active_state_pointer
    else ok (114 + transition_length + lineage_length)

-- `contains('\0')`: in UTF-8, the zero byte stands for that character only.
abbrev pub contains_nul : List ℕ → Bool
contains_nul text = any (λ b. b == 0) text

unfoldable pub validate_pointer : ActiveStatePointer → Result ActiveStatePointerError (Unit {0})
validate_pointer pointer = do
  total ← expected_length (length pointer.transition_id) (length pointer.lineage_id)
  if contains_nul pointer.transition_id
        || (contains_nul pointer.lineage_id
            || (pointer.final_generation == 0
                || digest_is_zero pointer.database_certificate_digest))
      then err invalid_active_state_pointer
      else ok tt

-- What the encoder appends before the tag, in order. `as u16` keeps the low bits of a length.
abbrev pub pointer_parts : ActiveStatePointer → List (List ℕ)
pointer_parts pointer =
    (version ∷ [])
    ∷ be_bytes 4 pointer.protocol_version
    ∷ be_bytes 2 (length pointer.transition_id % 2 ^ 16)
    ∷ pointer.transition_id
    ∷ be_bytes 8 pointer.final_generation
    ∷ be_bytes 2 (length pointer.lineage_id % 2 ^ 16)
    ∷ pointer.lineage_id
    ∷ pointer.target_history_epoch
    ∷ (origin_code pointer.origin ∷ [])
    ∷ pointer.database_certificate_digest
    ∷ []

module _ (is_utf8 : List ℕ → Bool) where
  abbrev pub validated_identifier : List ℕ → Result ActiveStatePointerError (List ℕ)
  validated_identifier bytes =
      if not (is_utf8 bytes)
      then err invalid_active_state_pointer
      else if contains_nul bytes
      then err invalid_active_state_pointer
      else ok bytes

  -- The fields of an authenticated wire, by the lengths of the two identifiers.
  unfoldable pub read_pointer : ℕ → ℕ → List ℕ → Result ActiveStatePointerError ActiveStatePointer
  read_pointer transition_length lineage_length wire =
      let generation_start = 7 + transition_length in
      let lineage_length_start = 15 + transition_length in
      let lineage_start = lineage_length_start + 2 in
      let epoch_start = lineage_start + lineage_length in
      let origin_start = epoch_start + 32 in
      let digest_start = origin_start + 1 in
      let tag_start = length wire - tag_bytes in
      (do
        protocol_version ← read_word invalid_active_state_pointer 4 (slice 1 5 wire)
        transition_id ← validated_identifier (slice 7 generation_start wire)
        final_generation ←
            read_word invalid_active_state_pointer 8
              (slice generation_start lineage_length_start wire)
        lineage_id ← validated_identifier (slice lineage_start epoch_start wire)
        target_history_epoch ←
            read_array invalid_active_state_pointer 32 (slice epoch_start origin_start wire)
        origin ← origin_from_code (byte origin_start wire)
        database_certificate_digest ←
            read_array invalid_active_state_pointer 32 (slice digest_start tag_start wire)
        ok (record {
          protocol_version = protocol_version;
          transition_id = transition_id;
          final_generation = final_generation;
          lineage_id = lineage_id;
          target_history_epoch = target_history_epoch;
          origin = origin;
          database_certificate_digest = database_certificate_digest;
        }))

module _ (mac : List ℕ → List ℕ) where
  abbrev pub active_state_pointer_tag : List ℕ → List ℕ
  active_state_pointer_tag pointer_without_tag =
      mac (active_state_pointer_domain ++ pointer_without_tag)

  unfoldable pub encode_active_state_pointer :
      ActiveStatePointer → Result ActiveStatePointerError (List ℕ)
  encode_active_state_pointer pointer =
      let wire = join (pointer_parts pointer) in
      validate_pointer pointer >> ok (wire ++ active_state_pointer_tag wire)

  abbrev pub verify_active_state_pointer_tag : List ℕ → List ℕ → Bool
  verify_active_state_pointer_tag pointer_without_tag tag =
      list_eq tag (active_state_pointer_tag pointer_without_tag)

  unfoldable pub decode_active_state_pointer :
      (List ℕ → Bool) → List ℕ → Result ActiveStatePointerError ActiveStatePointer
  decode_active_state_pointer is_utf8 wire =
      let tag_start = length wire - tag_bytes in
      if not (in_range minimum_bytes maximum_bytes (length wire)) || ltb (length wire) 7
      then err invalid_active_state_pointer
      else (do
        transition_length ← read_length (slice 5 7 wire)
        if ltb (length wire) (17 + transition_length) then err invalid_active_state_pointer else (do
          lineage_length ←
              read_length (slice (15 + transition_length) (15 + transition_length + 2) wire)
          total_length ← expected_length transition_length lineage_length
          if not (length wire == total_length)
              then err invalid_active_state_pointer
              else if not (
                  verify_active_state_pointer_tag (slice 0 tag_start wire)
                    (slice tag_start (length wire) wire))
              then err invalid_active_state_pointer
              else if not (byte 0 wire == version)
              then err invalid_active_state_pointer
              else (do
                pointer ← read_pointer is_utf8 transition_length lineage_length wire
                validate_pointer pointer >> ok pointer)))
