-- ===== src/Journal/Record.antt =====
-- The frames of the control journal (control_journal_record.rs): a prefix with the length, the kind,
-- the sequence, the digest of the prior record and the body, then the digest of the prefix and the
-- tag. HMAC-SHA-256 under the journal key and SHA-256 are functions of other crates: `mac` and
-- `digest` are parameters. A key of 32 bytes is never refused by the HMAC constructor.
pub mod Prefix
pub mod RoundTrip
pub mod History
use msgriver.Common.{
  ℕ, suc, ◌+◌, ◌-◌, ◌^◌, ◌<◌, ◌≡◌, Bool, true, false, not, ◌||◌, List, [], ◌∷◌, ◌++◌, ltb, in_range,
  ◌==◌, if◌then◌else◌, length, drop, replicate, list_eq,
}
use msgriver.Common.Bytes.{be_bytes}
use msgriver.Journal.Wire.{Result, ok, err, ◌>>=◌, join, slice}
use msgriver.Journal.Words.{read_word}
use msgriver.Journal.Labels.{record_label, auth_label}

abbrev pub min_frame_bytes : ℕ
min_frame_bytes = 110

abbrev pub max_frame_bytes : ℕ
max_frame_bytes = 16384

abbrev pub max_body_bytes : ℕ
max_body_bytes = max_frame_bytes - min_frame_bytes

pub data ControlJournalRecordKind : Type 0 where
  clock_checkpoint clock_acknowledge system_shutdown : ControlJournalRecordKind

pub data ControlJournalRecordError : Type 0 where
  missing_control_journal_record invalid_record sequence_exhausted : ControlJournalRecordError

abbrev pub kind_code : ControlJournalRecordKind → ℕ
kind_code clock_checkpoint = 1
kind_code clock_acknowledge = 2
kind_code system_shutdown = 3

abbrev pub kind_from_code : ℕ → Result ControlJournalRecordError ControlJournalRecordKind
kind_from_code code =
    if code == 1
    then ok clock_checkpoint
    else if code == 2
    then ok clock_acknowledge
    else if code == 3
    then ok system_shutdown
    else err invalid_record

pub record JournalHead : Type 0 where
  pub sequence : ℕ
  pub record_digest : List ℕ

abbrev pub genesis : JournalHead
genesis = record { sequence = 0; record_digest = replicate 32 0 }

pub record ControlJournalRecord : Type 0 where
  pub kind : ControlJournalRecordKind
  pub sequence : ℕ
  pub record_digest : List ℕ
  pub body : List ℕ

-- `checked_add(1)`.
abbrev pub next_sequence : ℕ → Result ControlJournalRecordError ℕ
next_sequence n = if n == 2 ^ 64 - 1 then err sequence_exhausted else ok (n + 1)

abbrev pub prefix_parts : ControlJournalRecordKind → List ℕ → JournalHead → ℕ → List (List ℕ)
prefix_parts kind body prior sequence =
    be_bytes 4 (min_frame_bytes + length body)
    ∷ be_bytes 2 (kind_code kind)
    ∷ be_bytes 8 sequence
    ∷ prior.record_digest
    ∷ body
    ∷ []

-- `u32::try_from` does not fail below the largest body.
unfoldable pub record_prefix :
    ControlJournalRecordKind → List ℕ → JournalHead → Result ControlJournalRecordError (List ℕ)
record_prefix kind body prior = if ltb max_body_bytes (length body) then err invalid_record else (do
  sequence ← next_sequence prior.sequence
  if ltb (2 ^ 32 - 1) (min_frame_bytes + length body)
      then err invalid_record
      else ok (join (prefix_parts kind body prior sequence)))

module _ (digest : List ℕ → List ℕ) where
  abbrev pub record_digest : List ℕ → List ℕ
  record_digest frame_prefix = digest (record_label ++ drop 4 frame_prefix)

  unfoldable pub control_journal_clock_checkpoint_head :
      List ℕ → JournalHead → Result ControlJournalRecordError JournalHead
  control_journal_clock_checkpoint_head body prior = do
    prefix ← record_prefix clock_checkpoint body prior
    sequence ← next_sequence prior.sequence
    ok (record { sequence = sequence; record_digest = record_digest prefix })

module _ (mac digest : List ℕ → List ℕ) where
  abbrev pub record_tag : List ℕ → List ℕ
  record_tag frame_without_tag = mac (auth_label ++ frame_without_tag)

  abbrev pub with_tag : List ℕ → List ℕ
  with_tag frame = frame ++ record_tag frame

  unfoldable pub encode_control_journal_record :
      ControlJournalRecordKind → List ℕ → JournalHead → Result ControlJournalRecordError (List ℕ)
  encode_control_journal_record kind body prior =
      record_prefix kind body prior >>= λ frame. ok (with_tag (frame ++ record_digest digest frame))

  -- `verify_slice`: the whole tag, and no other.
  abbrev pub record_tag_valid : List ℕ → List ℕ → Bool
  record_tag_valid frame_without_tag tag = list_eq tag (record_tag frame_without_tag)

  -- What follows the checks of the length and of the tag.
  unfoldable pub decode_fields :
      List ℕ → JournalHead → ℕ → ℕ → Result ControlJournalRecordError ControlJournalRecord
  decode_fields frame prior digest_start tag_start =
      let expected_digest = record_digest digest (slice 0 digest_start frame) in
      if not (list_eq (slice digest_start tag_start frame) expected_digest)
      then err invalid_record
      else (do
        code ← read_word invalid_record 2 (slice 4 6 frame)
        kind ← kind_from_code code
        sequence ← read_word invalid_record 8 (slice 6 14 frame)
        expected_sequence ← next_sequence prior.sequence
        if not (sequence == expected_sequence)
              || not (list_eq (slice 14 46 frame) prior.record_digest)
            then err invalid_record
            else ok (record {
              kind = kind;
              sequence = sequence;
              record_digest = expected_digest;
              body = slice 46 digest_start frame;
            }))

  unfoldable pub decode_control_journal_record :
      List ℕ → JournalHead → Result ControlJournalRecordError ControlJournalRecord
  decode_control_journal_record frame prior =
      if ltb (length frame) 4 then err invalid_record else (do
        size ← read_word invalid_record 4 (slice 0 4 frame)
        if not (in_range min_frame_bytes max_frame_bytes size) || not (length frame == size)
            then err invalid_record
            else if not
                (record_tag_valid (slice 0 (size - 32) frame) (slice (size - 32) size frame))
            then err invalid_record
            else decode_fields frame prior (size - 64) (size - 32))
