-- ===== src/Journal/ClockBody.antt =====
-- The body of a clock checkpoint (clock_checkpoint_body.rs): 53 fixed bytes, then a named hold and a
-- mirror witness where they are present.
pub mod Reading
pub mod Writing
pub mod RoundTrip
use msgriver.Common.{
  ℕ, ◌+◌, ◌*◌, ◌^◌, ◌<◌, ◌≡◌, Bool, true, false, not, ◌||◌, Option, none, some, List, [], ◌∷◌, ◌++◌,
  ltb, ◌==◌, if◌then◌else◌, length, drop, replicate, list_eq,
}
use msgriver.Common.Int.{ℤ, pos, ltb_ℤ, eqb_ℤ, max_ℤ, IsI64}
use msgriver.Common.Bytes.{be_bytes}
use msgriver.Journal.Wire.{Result, ok, err, ◌>>=◌, ◌>>◌, join, slice, byte}
use msgriver.Journal.Words.{flag_byte, read_flag, read_array, read_word, i64_bytes, read_i64}

pub data RuntimeMode : Type 0 where
  normal maintenance : RuntimeMode

pub data CheckpointReason : Type 0 where
  periodic automatic_settlement clean_shutdown expiry_proof : CheckpointReason

pub record NamedHold : Type 0 where
  pub generation : ℕ
  pub observation_digest : List ℕ

pub record PreMirrorWitness : Type 0 where
  pub selected_origin : List ℕ
  pub transaction_sequence : ℕ
  pub transaction_digest : List ℕ

pub record ClockCheckpointBody : Type 0 where
  pub runtime_mode : RuntimeMode
  pub process_instance : List ℕ
  pub accepted_wall_time : ℤ
  pub accepted_monotonic_tick : ℤ
  pub prior_safe_time : ℤ
  pub new_safe_time : ℤ
  pub reason : CheckpointReason
  pub hold : Option NamedHold
  pub pre_mirror : Option PreMirrorWitness

pub data ClockCheckpointBodyError : Type 0 where
  missing_clock_checkpoint_body invalid_body : ClockCheckpointBodyError

abbrev pub fixed_body_bytes : ℕ
fixed_body_bytes = 53

abbrev pub hold_bytes : ℕ
hold_bytes = 40

abbrev pub mirror_bytes : ℕ
mirror_bytes = 72

abbrev pub mode_code : RuntimeMode → ℕ
mode_code normal = 1
mode_code maintenance = 2

abbrev pub mode_from_code : ℕ → Result ClockCheckpointBodyError RuntimeMode
mode_from_code code =
    if code == 1 then ok normal else if code == 2 then ok maintenance else err invalid_body

abbrev pub reason_code : CheckpointReason → ℕ
reason_code periodic = 1
reason_code automatic_settlement = 2
reason_code clean_shutdown = 3
reason_code expiry_proof = 4

abbrev pub reason_from_code : ℕ → Result ClockCheckpointBodyError CheckpointReason
reason_from_code code =
    if code == 1
    then ok periodic
    else if code == 2
    then ok automatic_settlement
    else if code == 3
    then ok clean_shutdown
    else if code == 4
    then ok expiry_proof
    else err invalid_body

-- The arrays and words of the structs have the widths of their Rust types.
abbrev pub HoldFits : Option NamedHold → Type 0
HoldFits none = Unit
HoldFits (some hold) = (hold.generation < 2 ^ 64) × (length hold.observation_digest ≡ 32)

abbrev pub MirrorFits : Option PreMirrorWitness → Type 0
MirrorFits none = Unit
MirrorFits (some mirror) =
    (length mirror.selected_origin ≡ 32)
    × (mirror.transaction_sequence < 2 ^ 64)
    × (length mirror.transaction_digest ≡ 32)

abbrev pub Fits : ClockCheckpointBody → Type 0
Fits body =
    (length body.process_instance ≡ 16)
    × IsI64 body.accepted_wall_time
    × IsI64 body.accepted_monotonic_tick
    × IsI64 body.prior_safe_time
    × IsI64 body.new_safe_time
    × HoldFits body.hold
    × MirrorFits body.pre_mirror

-- The match on the reason and the hold.
abbrev pub hold_valid : CheckpointReason → Option NamedHold → Bool
hold_valid automatic_settlement (some hold) =
    not (hold.generation == 0 || list_eq hold.observation_digest (replicate 32 0))
hold_valid automatic_settlement none = false
hold_valid _ (some hold) = false
hold_valid _ none = true

abbrev pub mirror_valid : Option PreMirrorWitness → Bool
mirror_valid none = true
mirror_valid (some mirror) = not (
    list_eq (drop 24 mirror.selected_origin) (be_bytes 8 0)
    || list_eq mirror.transaction_digest (replicate 32 0))

unfoldable pub validate_body : ClockCheckpointBody → Result ClockCheckpointBodyError (Unit {0})
validate_body body =
    if list_eq body.process_instance (replicate 16 0)
      || (ltb_ℤ body.accepted_monotonic_tick (pos 0)
          || not (eqb_ℤ body.new_safe_time (max_ℤ body.prior_safe_time body.accepted_wall_time)))
    then err invalid_body
    else if not (hold_valid body.reason body.hold)
    then err invalid_body
    else if not (mirror_valid body.pre_mirror)
    then err invalid_body
    else ok tt

abbrev pub is_some : {A : Type 0} → Option A → Bool
is_some none = false
is_some (some a) = true

abbrev pub hold_wire : Option NamedHold → List ℕ
hold_wire none = []
hold_wire (some hold) = be_bytes 8 hold.generation ++ hold.observation_digest

abbrev pub mirror_wire : Option PreMirrorWitness → List ℕ
mirror_wire none = []
mirror_wire (some mirror) =
    mirror.selected_origin ++ (be_bytes 8 mirror.transaction_sequence ++ mirror.transaction_digest)

-- What the encoder appends, in order.
abbrev pub body_parts : ClockCheckpointBody → List (List ℕ)
body_parts body =
    (1 ∷ mode_code body.runtime_mode ∷ [])
    ∷ body.process_instance
    ∷ i64_bytes body.accepted_wall_time
    ∷ i64_bytes body.accepted_monotonic_tick
    ∷ i64_bytes body.prior_safe_time
    ∷ i64_bytes body.new_safe_time
    ∷ (reason_code body.reason ∷ [])
    ∷ (flag_byte (is_some body.hold) ∷ [])
    ∷ (flag_byte (is_some body.pre_mirror) ∷ [])
    ∷ hold_wire body.hold
    ∷ mirror_wire body.pre_mirror
    ∷ []

unfoldable pub encode_clock_checkpoint_body :
    ClockCheckpointBody → Result ClockCheckpointBodyError (List ℕ)
encode_clock_checkpoint_body body = validate_body body >> ok (join (body_parts body))

abbrev pub expected_length : Bool → Bool → ℕ
expected_length hold_present mirror_present =
    fixed_body_bytes + flag_byte hold_present * hold_bytes + flag_byte mirror_present * mirror_bytes

abbrev pub presence_tag : ℕ → Result ClockCheckpointBodyError Bool
presence_tag tag = read_flag invalid_body tag

-- The offset behind the hold.
abbrev pub hold_end : Bool → ℕ → ℕ
hold_end true offset = offset + hold_bytes
hold_end false offset = offset

unfoldable pub read_hold : Bool → ℕ → List ℕ → Result ClockCheckpointBodyError (Option NamedHold)
read_hold false offset wire = ok none
read_hold true offset wire = do
  generation ← read_word invalid_body 8 (slice offset (offset + 8) wire)
  observation_digest ← read_array invalid_body 32 (slice (offset + 8) (offset + hold_bytes) wire)
  ok (some (record { generation = generation; observation_digest = observation_digest }))

unfoldable pub read_mirror :
    Bool → ℕ → List ℕ → Result ClockCheckpointBodyError (Option PreMirrorWitness)
read_mirror false offset wire = ok none
read_mirror true offset wire = do
  selected_origin ← read_array invalid_body 32 (slice offset (offset + 32) wire)
  transaction_sequence ← read_word invalid_body 8 (slice (offset + 32) (offset + 40) wire)
  transaction_digest ← read_array invalid_body 32 (slice (offset + 40) (offset + mirror_bytes) wire)
  ok (
      some (record {
        selected_origin = selected_origin;
        transaction_sequence = transaction_sequence;
        transaction_digest = transaction_digest;
      }))

unfoldable pub read_body :
    Bool → Bool → List ℕ → Result ClockCheckpointBodyError ClockCheckpointBody
read_body hold_present mirror_present wire = do
  runtime_mode ← mode_from_code (byte 1 wire)
  process_instance ← read_array invalid_body 16 (slice 2 18 wire)
  accepted_wall_time ← read_i64 invalid_body (slice 18 26 wire)
  accepted_monotonic_tick ← read_i64 invalid_body (slice 26 34 wire)
  prior_safe_time ← read_i64 invalid_body (slice 34 42 wire)
  new_safe_time ← read_i64 invalid_body (slice 42 50 wire)
  reason ← reason_from_code (byte 50 wire)
  hold ← read_hold hold_present fixed_body_bytes wire
  pre_mirror ← read_mirror mirror_present (hold_end hold_present fixed_body_bytes) wire
  ok (record {
    runtime_mode = runtime_mode;
    process_instance = process_instance;
    accepted_wall_time = accepted_wall_time;
    accepted_monotonic_tick = accepted_monotonic_tick;
    prior_safe_time = prior_safe_time;
    new_safe_time = new_safe_time;
    reason = reason;
    hold = hold;
    pre_mirror = pre_mirror;
  })

unfoldable pub decode_clock_checkpoint_body :
    List ℕ → Result ClockCheckpointBodyError ClockCheckpointBody
decode_clock_checkpoint_body wire =
    if ltb (length wire) fixed_body_bytes || not (byte 0 wire == 1) then err invalid_body else (do
      hold_present ← presence_tag (byte 51 wire)
      mirror_present ← presence_tag (byte 52 wire)
      if not (length wire == expected_length hold_present mirror_present)
          then err invalid_body
          else (do
            body ← read_body hold_present mirror_present wire
            validate_body body >> ok body))
