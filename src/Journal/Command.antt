-- ===== src/Journal/Command.antt =====
-- The frames of fixed-root commands (fixed_root_command_record.rs): the layout and the labels are those
-- of Journal/Record.antt, with one kind of its own. `mac` and `digest` are the hash functions.
pub mod Separate
use msgriver.Common.{
  ℕ, ◌+◌, ◌-◌, ◌^◌, Bool, true, false, not, ◌||◌, List, [], ◌∷◌, ◌++◌, ltb, in_range, ◌==◌,
  if◌then◌else◌, length, drop, replicate, list_eq,
}
use msgriver.Common.Bytes.{be_bytes}
use msgriver.Journal.Wire.{Result, ok, err, ◌>>=◌, join, slice}
use msgriver.Journal.Words.{read_word}
use msgriver.Journal.Labels.{record_label, auth_label}

abbrev pub fixed_root_command_kind : ℕ
fixed_root_command_kind = 0x0020

pub record FixedRootCommandJournalHead : Type 0 where
  pub sequence : ℕ
  pub record_digest : List ℕ

abbrev pub genesis : FixedRootCommandJournalHead
genesis = record { sequence = 0; record_digest = replicate 32 0 }

pub record FixedRootCommandRecord : Type 0 where
  pub sequence : ℕ
  pub record_digest : List ℕ
  pub body : List ℕ

pub data FixedRootCommandRecordError : Type 0 where
  invalid_command sequence_exhausted : FixedRootCommandRecordError

-- `checked_add(1)`.
abbrev pub next_sequence : ℕ → Result FixedRootCommandRecordError ℕ
next_sequence n = if n == 2 ^ 64 - 1 then err sequence_exhausted else ok (n + 1)

module _ (mac digest : List ℕ → List ℕ) where
  abbrev pub fixed_root_command_record_digest : List ℕ → List ℕ
  fixed_root_command_record_digest frame_prefix = digest (record_label ++ drop 4 frame_prefix)

  abbrev pub fixed_root_command_record_tag : List ℕ → List ℕ
  fixed_root_command_record_tag frame_without_tag = mac (auth_label ++ frame_without_tag)

  abbrev pub command_prefix : List ℕ → FixedRootCommandJournalHead → ℕ → List ℕ
  command_prefix body prior sequence = join (
      be_bytes 4 (110 + length body)
      ∷ be_bytes 2 fixed_root_command_kind
      ∷ be_bytes 8 sequence
      ∷ prior.record_digest
      ∷ body
      ∷ [])

  abbrev pub with_tag : List ℕ → List ℕ
  with_tag frame = frame ++ fixed_root_command_record_tag frame

  -- `u32::try_from` does not fail below the largest body.
  unfoldable pub encode_fixed_root_command_record :
      List ℕ → FixedRootCommandJournalHead → Result FixedRootCommandRecordError (List ℕ)
  encode_fixed_root_command_record body prior =
      if ltb (16384 - 110) (length body) then err invalid_command else (do
        sequence ← next_sequence prior.sequence
        if ltb (2 ^ 32 - 1) (110 + length body)
            then err invalid_command
            else ok (
                with_tag (
                  command_prefix body prior sequence
                  ++ fixed_root_command_record_digest (command_prefix body prior sequence))))

  -- `verify_slice`: the whole tag, and no other.
  abbrev pub command_tag_valid : List ℕ → List ℕ → Bool
  command_tag_valid frame_without_tag tag =
      list_eq tag (fixed_root_command_record_tag frame_without_tag)

  -- What follows the checks of the length and of the tag.
  unfoldable pub decode_command_fields :
      List ℕ
      → FixedRootCommandJournalHead
      → ℕ
      → ℕ
      → Result FixedRootCommandRecordError FixedRootCommandRecord
  decode_command_fields frame prior digest_start tag_start =
      let expected_digest = fixed_root_command_record_digest (slice 0 digest_start frame) in
      if not (list_eq (slice digest_start tag_start frame) expected_digest)
      then err invalid_command
      else (do
        kind ← read_word invalid_command 2 (slice 4 6 frame)
        if not (kind == fixed_root_command_kind) then err invalid_command else (do
          sequence ← read_word invalid_command 8 (slice 6 14 frame)
          expected_sequence ← next_sequence prior.sequence
          if not (sequence == expected_sequence)
                || not (list_eq (slice 14 46 frame) prior.record_digest)
              then err invalid_command
              else ok (record {
                sequence = sequence;
                record_digest = expected_digest;
                body = slice 46 digest_start frame;
              })))

  unfoldable pub decode_fixed_root_command_record :
      List ℕ
      → FixedRootCommandJournalHead
      → Result FixedRootCommandRecordError FixedRootCommandRecord
  decode_fixed_root_command_record frame prior =
      if ltb (length frame) 4 then err invalid_command else (do
        size ← read_word invalid_command 4 (slice 0 4 frame)
        if not (in_range 110 16384 size) || not (length frame == size)
            then err invalid_command
            else if not
                (command_tag_valid (slice 0 (size - 32) frame) (slice (size - 32) size frame))
            then err invalid_command
            else decode_command_fields frame prior (size - 64) (size - 32))
