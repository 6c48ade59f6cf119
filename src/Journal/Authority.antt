-- ===== src/Journal/Authority.antt =====
-- The clock authority that a control checkpoint carries (clock_authority_projection.rs): the safe
-- time, then a hold and the last shutdown observation where they are present.
pub mod Reading
pub mod RoundTrip
use msgriver.Common.{
  ℕ, ◌+◌, ◌*◌, ◌^◌, ◌<◌, ◌≡◌, Bool, true, false, not, ◌||◌, Option, none, some, List, [], ◌∷◌, ◌++◌,
  ltb, ◌==◌, if◌then◌else◌, length,
}
use msgriver.Common.Int.{ℤ, IsI64}
use msgriver.Common.Bytes.{be_bytes}
use msgriver.Journal.Wire.{Result, ok, err, ◌>>=◌, ◌>>◌, join, slice, byte}
use msgriver.Journal.Words.{
  flag_byte, read_flag, read_array, read_word, i64_bytes, read_i64, digest_is_zero,
}

pub record ClockAuthorityHold : Type 0 where
  pub generation : ℕ
  pub observation_digest : List ℕ

pub record ClockAuthorityProjection : Type 0 where
  pub safe_time : ℤ
  pub hold : Option ClockAuthorityHold
  pub last_shutdown_observation : Option ℤ

pub data ClockAuthorityProjectionError : Type 0 where
  missing_clock_authority_projection : ClockAuthorityProjectionError
  invalid_clock_authority_projection : ClockAuthorityProjectionError

abbrev pub is_some : {A : Type 0} → Option A → Bool
is_some none = false
is_some (some a) = true

abbrev pub hold_invalid : Option ClockAuthorityHold → Bool
hold_invalid none = false
hold_invalid (some hold) = hold.generation == 0 || digest_is_zero hold.observation_digest

unfoldable pub validate_projection :
    ClockAuthorityProjection → Result ClockAuthorityProjectionError (Unit {0})
validate_projection projection =
    if hold_invalid projection.hold then err invalid_clock_authority_projection else ok tt

abbrev pub expected_length : Bool → Bool → ℕ
expected_length hold_present shutdown_present =
    11 + flag_byte hold_present * 40 + flag_byte shutdown_present * 8

abbrev pub presence_tag : ℕ → Result ClockAuthorityProjectionError Bool
presence_tag tag = read_flag invalid_clock_authority_projection tag

-- The presence byte, and what it announces.
abbrev pub hold_wire : Option ClockAuthorityHold → List ℕ
hold_wire none = 0 ∷ []
hold_wire (some hold) = 1 ∷ be_bytes 8 hold.generation ++ hold.observation_digest

abbrev pub shutdown_wire : Option ℤ → List ℕ
shutdown_wire none = 0 ∷ []
shutdown_wire (some observation) = 1 ∷ i64_bytes observation

abbrev pub projection_parts : ClockAuthorityProjection → List (List ℕ)
projection_parts projection =
    (1 ∷ [])
    ∷ i64_bytes projection.safe_time
    ∷ hold_wire projection.hold
    ∷ shutdown_wire projection.last_shutdown_observation
    ∷ []

unfoldable pub encode_clock_authority_projection :
    ClockAuthorityProjection → Result ClockAuthorityProjectionError (List ℕ)
encode_clock_authority_projection projection =
    validate_projection projection >> ok (join (projection_parts projection))

-- `wire[50]` is read of wires of 51 bytes or more only.
abbrev pub shutdown_tag_offset : Bool → List ℕ → Result ClockAuthorityProjectionError ℕ
shutdown_tag_offset true wire =
    if ltb (length wire) 51 then err invalid_clock_authority_projection else ok 50
shutdown_tag_offset false wire = ok 10

abbrev pub read_hold :
    Bool → List ℕ → Result ClockAuthorityProjectionError (Option ClockAuthorityHold)
read_hold false wire = ok none
read_hold true wire = do
  generation ← read_word invalid_clock_authority_projection 8 (slice 10 18 wire)
  observation_digest ← read_array invalid_clock_authority_projection 32 (slice 18 50 wire)
  ok (some (record { generation = generation; observation_digest = observation_digest }))

abbrev pub read_shutdown : Bool → ℕ → List ℕ → Result ClockAuthorityProjectionError (Option ℤ)
read_shutdown false offset wire = ok none
read_shutdown true offset wire = do
  observation ← read_i64 invalid_clock_authority_projection (slice (offset + 1) (offset + 9) wire)
  ok (some observation)

unfoldable pub decode_clock_authority_projection :
    List ℕ → Result ClockAuthorityProjectionError ClockAuthorityProjection
decode_clock_authority_projection wire =
    if ltb (length wire) 11 || not (byte 0 wire == 1)
    then err invalid_clock_authority_projection
    else (do
      hold_present ← presence_tag (byte 9 wire)
      offset ← shutdown_tag_offset hold_present wire
      shutdown_present ← presence_tag (byte offset wire)
      if not (length wire == expected_length hold_present shutdown_present)
          then err invalid_clock_authority_projection
          else (do
            safe_time ← read_i64 invalid_clock_authority_projection (slice 1 9 wire)
            hold ← read_hold hold_present wire
            last_shutdown_observation ← read_shutdown shutdown_present offset wire
            let projection : ClockAuthorityProjection = record {
              safe_time = safe_time;
              hold = hold;
              last_shutdown_observation = last_shutdown_observation;
            } in
                (validate_projection projection >> ok projection)))
