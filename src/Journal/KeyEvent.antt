-- ===== src/Journal/KeyEvent.antt =====
-- The body of a recovery-key event (recovery_key_event.rs): 141 fixed bytes with a presence byte, the
-- key confirmation digest where it is present, and the retention.
pub mod Reading
pub mod Writing
pub mod RoundTrip
use msgriver.Common.{
  ℕ, ◌+◌, ◌*◌, ◌^◌, ◌<◌, ◌≡◌, Bool, true, false, not, ◌&&◌, ◌||◌, Option, none, some, List, [], ◌∷◌,
  ltb, leb, ◌==◌, if◌then◌else◌, length,
}
use msgriver.Common.Int.{ℤ, IsI64}
use msgriver.Common.Bytes.{be_bytes}
use msgriver.Journal.Wire.{Result, ok, err, ◌>>=◌, ◌>>◌, join, slice, byte}
use msgriver.Journal.Words.{flag_byte, read_array, read_word, i64_bytes, read_i64, digest_is_zero}

abbrev pub version : ℕ
version = 1

abbrev pub recovery_key_generate_operation : ℕ
recovery_key_generate_operation = 1

abbrev pub fixed_state_owner_actor : ℕ
fixed_state_owner_actor = 1

pub data RecoveryKeyEventPhase : Type 0 where
  intent_generate key_durable secret_consumed pending_escrow activated : RecoveryKeyEventPhase
  terminal_failed : RecoveryKeyEventPhase

pub data RecoveryKeyEventRetention : Type 0 where
  null : RecoveryKeyEventRetention
  terminal : ℤ → RecoveryKeyEventRetention

pub record RecoveryKeyEvent : Type 0 where
  pub generation : ℕ
  pub command_digest : List ℕ
  pub semantic_fingerprint : List ℕ
  pub phase_fingerprint : List ℕ
  pub portable_reservation_digest : List ℕ
  pub key_confirmation_digest : Option (List ℕ)
  pub phase : RecoveryKeyEventPhase
  pub retention : RecoveryKeyEventRetention

pub data RecoveryKeyEventError : Type 0 where
  missing_recovery_key_event invalid_recovery_key_event : RecoveryKeyEventError

abbrev pub phase_code : RecoveryKeyEventPhase → ℕ
phase_code intent_generate = 1
phase_code key_durable = 2
phase_code secret_consumed = 3
phase_code pending_escrow = 4
phase_code activated = 5
phase_code terminal_failed = 6

abbrev pub phase_from_code : ℕ → Result RecoveryKeyEventError RecoveryKeyEventPhase
phase_from_code code =
    if code == 1
    then ok intent_generate
    else if code == 2
    then ok key_durable
    else if code == 3
    then ok secret_consumed
    else if code == 4
    then ok pending_escrow
    else if code == 5
    then ok activated
    else if code == 6
    then ok terminal_failed
    else err invalid_recovery_key_event

abbrev pub is_some : {A : Type 0} → Option A → Bool
is_some none = false
is_some (some a) = true

abbrev pub is_terminal : RecoveryKeyEventRetention → Bool
is_terminal null = false
is_terminal (terminal expires_at) = true

-- The match on the phase.
abbrev pub phase_valid : RecoveryKeyEventPhase → Option (List ℕ) → RecoveryKeyEventRetention → Bool
phase_valid intent_generate digest retention = not (is_some digest) && not (is_terminal retention)
phase_valid terminal_failed digest retention = not (is_some digest) && is_terminal retention
phase_valid _ digest retention = is_some digest && not (is_terminal retention)

abbrev pub some_zero : Option (List ℕ) → Bool
some_zero none = false
some_zero (some digest) = digest_is_zero digest

unfoldable pub validate_event : RecoveryKeyEvent → Result RecoveryKeyEventError (Unit {0})
validate_event event =
    if event.generation == 0
      || (digest_is_zero event.command_digest
          || (digest_is_zero event.semantic_fingerprint
              || (digest_is_zero event.phase_fingerprint
                  || (digest_is_zero event.portable_reservation_digest
                      || some_zero event.key_confirmation_digest))))
    then err invalid_recovery_key_event
    else if phase_valid event.phase event.key_confirmation_digest event.retention
    then ok tt
    else err invalid_recovery_key_event

-- The presence byte with the digest, and with the time of expiry.
abbrev pub confirmation_wire : Option (List ℕ) → List ℕ
confirmation_wire none = 0 ∷ []
confirmation_wire (some digest) = 1 ∷ digest

abbrev pub retention_wire : RecoveryKeyEventRetention → List ℕ
retention_wire null = 0 ∷ []
retention_wire (terminal expires_at) = 1 ∷ i64_bytes expires_at

abbrev pub event_parts : RecoveryKeyEvent → List (List ℕ)
event_parts event =
    (version
      ∷ recovery_key_generate_operation
      ∷ fixed_state_owner_actor
      ∷ phase_code event.phase
      ∷ [])
    ∷ be_bytes 8 event.generation
    ∷ event.command_digest
    ∷ event.semantic_fingerprint
    ∷ event.phase_fingerprint
    ∷ event.portable_reservation_digest
    ∷ confirmation_wire event.key_confirmation_digest
    ∷ retention_wire event.retention
    ∷ []

unfoldable pub encode_recovery_key_event : RecoveryKeyEvent → Result RecoveryKeyEventError (List ℕ)
encode_recovery_key_event event = validate_event event >> ok (join (event_parts event))

abbrev pub encoded_length : RecoveryKeyEvent → ℕ
encoded_length event =
    142
    + flag_byte (is_some event.key_confirmation_digest) * 32
    + flag_byte (is_terminal event.retention) * 8

-- `wire.get(lo..hi)` is none where the wire ends before `hi`.
abbrev pub get_slice : ℕ → ℕ → List ℕ → Result RecoveryKeyEventError (List ℕ)
get_slice lo hi wire =
    if leb hi (length wire) then ok (slice lo hi wire) else err invalid_recovery_key_event

abbrev pub digest_at : ℕ → List ℕ → Result RecoveryKeyEventError (List ℕ)
digest_at offset wire =
    get_slice offset (offset + 32) wire >>= λ bytes. read_array invalid_recovery_key_event 32 bytes

abbrev pub confirmation_present : ℕ → Result RecoveryKeyEventError Bool
confirmation_present tag =
    if tag == 0 then ok false else if tag == 1 then ok true else err invalid_recovery_key_event

abbrev pub read_retention : ℕ → List ℕ → Result RecoveryKeyEventError RecoveryKeyEventRetention
read_retention offset wire =
    if byte offset wire == 0
    then ok null
    else if byte offset wire == 1
    then (do
      bytes ← get_slice (offset + 1) (offset + 9) wire
      expires_at ← read_i64 invalid_recovery_key_event bytes
      ok (terminal expires_at))
    else err invalid_recovery_key_event

abbrev pub expected_length : Bool → RecoveryKeyEventRetention → ℕ
expected_length false null = 142
expected_length false (terminal expires_at) = 150
expected_length true null = 174
expected_length true (terminal expires_at) = 182

abbrev pub read_confirmation : Bool → List ℕ → Result RecoveryKeyEventError (Option (List ℕ))
read_confirmation false wire = ok none
read_confirmation true wire = digest_at 141 wire >>= λ digest. ok (some digest)

unfoldable pub read_event :
    Bool → RecoveryKeyEventRetention → List ℕ → Result RecoveryKeyEventError RecoveryKeyEvent
read_event present retention wire = do
  bytes ← get_slice 4 12 wire
  generation ← read_word invalid_recovery_key_event 8 bytes
  command_digest ← digest_at 12 wire
  semantic_fingerprint ← digest_at 44 wire
  phase_fingerprint ← digest_at 76 wire
  portable_reservation_digest ← digest_at 108 wire
  key_confirmation_digest ← read_confirmation present wire
  phase ← phase_from_code (byte 3 wire)
  ok (record {
    generation = generation;
    command_digest = command_digest;
    semantic_fingerprint = semantic_fingerprint;
    phase_fingerprint = phase_fingerprint;
    portable_reservation_digest = portable_reservation_digest;
    key_confirmation_digest = key_confirmation_digest;
    phase = phase;
    retention = retention;
  })

abbrev pub retention_offset : Bool → ℕ
retention_offset present = 141 + flag_byte present * 32

unfoldable pub decode_recovery_key_event : List ℕ → Result RecoveryKeyEventError RecoveryKeyEvent
decode_recovery_key_event wire =
    if ltb (length wire) 141 then err invalid_recovery_key_event else (do
      present ← confirmation_present (byte 140 wire)
      if leb (length wire) (retention_offset present) then err invalid_recovery_key_event else (do
        retention ← read_retention (retention_offset present) wire
        if not (length wire == expected_length present retention)
            then err invalid_recovery_key_event
            else (do
              event ← read_event present retention wire
              if not (byte 0 wire == version)
                    || (not (byte 1 wire == recovery_key_generate_operation)
                        || not (byte 2 wire == fixed_state_owner_actor))
                  then err invalid_recovery_key_event
                  else (validate_event event >> ok event))))
