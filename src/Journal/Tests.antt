-- ===== src/Journal/Tests.antt =====
-- Each theorem on the formats of the control journal at concrete values.
use msgriver.Common.{
  ℕ, ◌%◌, ◌^◌, ◌<◌, ◌≡◌, refl, ◌↔◌, ◌⊎◌, Bool, all, ltb, some, none, List, [], ◌∷◌, ◌++◌, replicate,
  length, arith,
}
use msgriver.Common.Int.{pos, negsuc}
use msgriver.Common.Bytes.{IsBytes, all-IsBytes, be_bytes, from_be_bytes}
use msgriver.Journal.Wire.{ok, join, slice, byte}
use msgriver.Journal.ClockBody as Body
use msgriver.Journal.ClockBody.RoundTrip as BodyLaws
use msgriver.Journal.Authority as Authority
use msgriver.Journal.Authority.Reading as AuthorityReading
use msgriver.Journal.Authority.RoundTrip as AuthorityLaws
use msgriver.Journal.KeyEvent as Event
use msgriver.Journal.KeyEvent.Reading as EventReading
use msgriver.Journal.KeyEvent.RoundTrip as EventLaws
use msgriver.Journal.Profile as Profile
use msgriver.Journal.Profile.Reading as ProfileReading
use msgriver.Journal.Profile.RoundTrip as ProfileLaws
use msgriver.Journal.RingManifest as Ring
use msgriver.Journal.RingManifest.RoundTrip as RingLaws
use msgriver.Journal.RingManifest.Validation as RingValid
use msgriver.Journal.Command as Command
use msgriver.Journal.Command.Separate as CommandLaws
use msgriver.Journal.Header as Header
use msgriver.Journal.Header.RoundTrip as HeaderLaws
use msgriver.Journal.Pointer as Pointer
use msgriver.Journal.Pointer.Fields as PointerFields
use msgriver.Journal.Pointer.RoundTrip as PointerLaws
use msgriver.Journal.Record as Record
use msgriver.Journal.Record.Prefix as RecordPrefix
use msgriver.Journal.Record.RoundTrip as RecordLaws
use msgriver.Journal.Record.History as RecordHistory

-- A stand-in for the hash functions: 32 bytes that tell the length.
abbrev sum_of : List ℕ → List ℕ
sum_of input = replicate 32 (length input % 256)

wide_sum : (x : List ℕ) → length (sum_of x) ≡ 32
wide_sum x = refl

abbrev digest_of : ℕ → List ℕ
digest_of b = replicate 32 b

abbrev settled : Body.ClockCheckpointBody
settled = record {
  runtime_mode = Body.normal;
  process_instance = replicate 16 7;
  accepted_wall_time = pos 1700000000000;
  accepted_monotonic_tick = pos 12;
  prior_safe_time = negsuc 4;
  new_safe_time = pos 1700000000000;
  reason = Body.automatic_settlement;
  hold = some (record { generation = 3; observation_digest = digest_of 9 });
  pre_mirror = none;
}

abbrev settled_wire : List ℕ
settled_wire = join (Body.body_parts settled)

settled-IsBytes : IsBytes settled_wire
unfolding be_bytes
settled-IsBytes = all-IsBytes settled_wire refl

decode_settled : Body.decode_clock_checkpoint_body settled_wire ≡ ok settled
unfolding be_bytes from_be_bytes slice byte Body.decode_clock_checkpoint_body Body.read_body
    Body.read_hold Body.read_mirror Body.validate_body
decode_settled = refl

decode_clock_checkpoint_body_iff_example :
    (Body.decode_clock_checkpoint_body settled_wire ≡ ok settled)
    ↔ (Body.Fits settled × (Body.encode_clock_checkpoint_body settled ≡ ok settled_wire))
decode_clock_checkpoint_body_iff_example =
    BodyLaws.decode_clock_checkpoint_body_iff settled_wire settled settled-IsBytes

abbrev held : Authority.ClockAuthorityProjection
held = record {
  safe_time = pos 1700000000000;
  hold = some (record { generation = 5; observation_digest = digest_of 1 });
  last_shutdown_observation = some (pos 1600000000000);
}

abbrev held_wire : List ℕ
held_wire = join (Authority.projection_parts held)

held-IsBytes : IsBytes held_wire
unfolding be_bytes
held-IsBytes = all-IsBytes held_wire refl

decode_clock_authority_projection_iff_example :
    (Authority.decode_clock_authority_projection held_wire ≡ ok held) ↔ (
      AuthorityReading.ProjectionFits held
      × (Authority.encode_clock_authority_projection held ≡ ok held_wire))
decode_clock_authority_projection_iff_example =
    AuthorityLaws.decode_clock_authority_projection_iff held_wire held held-IsBytes

abbrev escrow : Event.RecoveryKeyEvent
escrow = record {
  generation = 2;
  command_digest = digest_of 1;
  semantic_fingerprint = digest_of 2;
  phase_fingerprint = digest_of 3;
  portable_reservation_digest = digest_of 4;
  key_confirmation_digest = some (digest_of 5);
  phase = Event.pending_escrow;
  retention = Event.null;
}

abbrev escrow_wire : List ℕ
escrow_wire = join (Event.event_parts escrow)

escrow-IsBytes : IsBytes escrow_wire
unfolding be_bytes
escrow-IsBytes = all-IsBytes escrow_wire refl

decode_recovery_key_event_iff_example :
    (Event.decode_recovery_key_event escrow_wire ≡ ok escrow)
    ↔ (EventReading.EventFits escrow × (Event.encode_recovery_key_event escrow ≡ ok escrow_wire))
decode_recovery_key_event_iff_example =
    EventLaws.decode_recovery_key_event_iff escrow_wire escrow escrow-IsBytes

abbrev ring : Ring.RecoveryRingManifest
ring = record {
  entries =
      record { generation = 1; phase = Ring.retained }
      ∷ record { generation = 4; phase = Ring.active }
      ∷ record { generation = 6; phase = Ring.pending_escrow }
      ∷ [];
}

abbrev ring_wire : List ℕ
ring_wire =
    Ring.untagged_wire ring.entries
    ++ Ring.recovery_ring_manifest_tag sum_of (Ring.untagged_wire ring.entries)

ring-IsBytes : IsBytes ring_wire
unfolding be_bytes
ring-IsBytes = all-IsBytes ring_wire refl

decode_recovery_ring_manifest_iff_example :
    (Ring.decode_recovery_ring_manifest sum_of ring_wire ≡ ok ring) ↔ (
      RingLaws.EntriesFit ring.entries
      × (Ring.encode_recovery_ring_manifest sum_of ring ≡ ok ring_wire))
decode_recovery_ring_manifest_iff_example =
    RingLaws.decode_recovery_ring_manifest_iff sum_of wide_sum ring_wire ring ring-IsBytes

validate_manifest_iff_example :
    (Ring.validate_manifest ring ≡ ok tt) ↔ RingValid.IsRing ring.entries
validate_manifest_iff_example = RingValid.validate_manifest_iff ring

abbrev header : Header.ControlJournalHeader
header = Header.control_journal_header_with_branch_high_water sum_of 77

abbrev header_wire : List ℕ
header_wire =
    join (Header.prefix_parts header)
    ++ Header.header_tag sum_of (join (Header.prefix_parts header))

header-IsBytes : IsBytes header_wire
unfolding be_bytes
header-IsBytes = all-IsBytes header_wire refl

decode_control_journal_header_iff_example :
    (Header.decode_control_journal_header sum_of header_wire ≡ ok header) ↔ (
      (header.branch_serial_high_water < 2 ^ 64)
      × (Header.encode_control_journal_header sum_of header ≡ ok header_wire))
decode_control_journal_header_iff_example =
    HeaderLaws.decode_control_journal_header_iff sum_of wide_sum header_wire header header-IsBytes

abbrev ascii : List ℕ → Bool
ascii text = all (λ b. ltb b 128) text

abbrev pointer : Pointer.ActiveStatePointer
pointer = record {
  protocol_version = 1;
  transition_id = b't' ∷ b'1' ∷ [];
  final_generation = 8;
  lineage_id = b'l' ∷ [];
  target_history_epoch = digest_of 2;
  origin = Pointer.restore;
  database_certificate_digest = digest_of 6;
}

abbrev pointer_wire : List ℕ
pointer_wire =
    join (Pointer.pointer_parts pointer)
    ++ Pointer.active_state_pointer_tag sum_of (join (Pointer.pointer_parts pointer))

pointer-IsBytes : IsBytes pointer_wire
unfolding be_bytes
pointer-IsBytes = all-IsBytes pointer_wire refl

decode_active_state_pointer_iff_example :
    (Pointer.decode_active_state_pointer sum_of ascii pointer_wire ≡ ok pointer) ↔ (
      PointerFields.PointerFits ascii pointer
      × (Pointer.encode_active_state_pointer sum_of pointer ≡ ok pointer_wire))
decode_active_state_pointer_iff_example =
    PointerLaws.decode_active_state_pointer_iff sum_of ascii wide_sum pointer_wire pointer
      pointer-IsBytes

-- The first frame of a journal, of a checkpoint with two bytes of body.
abbrev body : List ℕ
body = 1 ∷ 2 ∷ []

abbrev start : List ℕ
start = join (Record.prefix_parts Record.clock_checkpoint body Record.genesis 1)

abbrev sealed : List ℕ
sealed = start ++ Record.record_digest sum_of start

abbrev frame : List ℕ
frame = sealed ++ Record.record_tag sum_of sum_of sealed

frame-IsBytes : IsBytes frame
unfolding be_bytes
frame-IsBytes = all-IsBytes frame refl

abbrev first : Record.ControlJournalRecord
first = record {
  kind = Record.clock_checkpoint;
  sequence = 1;
  record_digest = Record.record_digest sum_of start;
  body = body;
}

first_decoded : Record.decode_control_journal_record sum_of sum_of frame Record.genesis ≡ ok first
unfolding Record.decode_control_journal_record Record.decode_fields be_bytes from_be_bytes slice
first_decoded = refl

genesis_fits : RecordPrefix.HeadFits Record.genesis
genesis_fits = (omega arith, refl)

decode_control_journal_record_iff_example :
    (Record.decode_control_journal_record sum_of sum_of frame Record.genesis ≡ ok first)
    ↔ RecordLaws.IsSealed sum_of sum_of frame Record.genesis first
decode_control_journal_record_iff_example =
    RecordLaws.decode_control_journal_record_iff sum_of sum_of wide_sum wide_sum frame
      Record.genesis first frame-IsBytes genesis_fits

one_record : RecordHistory.IsChain sum_of sum_of (first ∷ []) (RecordHistory.head_after first)
one_record =
    RecordHistory.more frame Record.genesis first [] RecordHistory.empty frame-IsBytes first_decoded

IsChain-same_history_example : (first ∷ [] ≡ first ∷ []) ⊎ RecordHistory.HasCollision sum_of
IsChain-same_history_example =
    RecordHistory.IsChain-same_history sum_of sum_of wide_sum (first ∷ []) (first ∷ [])
      (RecordHistory.head_after first) (RecordHistory.head_after first) one_record one_record refl

control_journal_clock_checkpoint_head-decode_example :
    Record.control_journal_clock_checkpoint_head sum_of body Record.genesis
    ≡ ok (RecordHistory.head_after first)
control_journal_clock_checkpoint_head-decode_example =
    RecordHistory.control_journal_clock_checkpoint_head-decode sum_of sum_of frame Record.genesis
      first genesis_fits frame-IsBytes first_decoded refl

abbrev acknowledged : Profile.RecoveryKeyGenerateProfile
acknowledged = record {
  variant = Profile.acknowledge;
  issuance_digest = some (digest_of 1);
  confirmation_digest = some (digest_of 2);
}

abbrev acknowledged_wire : List ℕ
acknowledged_wire = 1 ∷ 2 ∷ 2 ∷ 1 ∷ digest_of 1 ++ (2 ∷ digest_of 2)

decode_recovery_key_generate_profile_iff_example :
    (Profile.decode_recovery_key_generate_profile acknowledged_wire ≡ ok acknowledged) ↔ (
      ProfileReading.ProfileFits acknowledged
      × (Profile.encode_recovery_key_generate_profile acknowledged ≡ acknowledged_wire))
decode_recovery_key_generate_profile_iff_example =
    ProfileLaws.decode_recovery_key_generate_profile_iff acknowledged_wire acknowledged

abbrev command_start : List ℕ
command_start = Command.command_prefix sum_of sum_of body Command.genesis 1

abbrev command_frame : List ℕ
command_frame =
    Command.with_tag sum_of sum_of
      (command_start ++ Command.fixed_root_command_record_digest sum_of sum_of command_start)

abbrev command : Command.FixedRootCommandRecord
command = record {
  sequence = 1;
  record_digest = Command.fixed_root_command_record_digest sum_of sum_of command_start;
  body = body;
}

command_encoded :
    Command.encode_fixed_root_command_record sum_of sum_of body Command.genesis ≡ ok command_frame
unfolding Command.encode_fixed_root_command_record
command_encoded = refl

command_decoded :
    Command.decode_fixed_root_command_record sum_of sum_of command_frame Command.genesis
    ≡ ok command
unfolding Command.decode_fixed_root_command_record Command.decode_command_fields be_bytes
    from_be_bytes slice
command_decoded = refl

decode_fixed_root_command_record_separate_example :
    ¬ (Record.decode_control_journal_record sum_of sum_of command_frame Record.genesis ≡ ok first)
decode_fixed_root_command_record_separate_example =
    CommandLaws.decode_fixed_root_command_record_separate sum_of sum_of command_frame
      Command.genesis Record.genesis command first command_decoded
