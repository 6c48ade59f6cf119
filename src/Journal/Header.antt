-- ===== src/Journal/Header.antt =====
-- The header of the control journal (control_journal_header.rs): 88 fixed bytes and a tag. The
-- namespace is derived from the journal key (initialization_key_pair.rs). HMAC-SHA-256 under that key
-- is a function of another crate: `mac` is a parameter. A key of 32 bytes is never refused by the HMAC
-- constructor, so that the derivation does not fail.
pub mod Layout
pub mod RoundTrip
use msgriver.Common.{
  ℕ, ◌+◌, ◌-◌, ◌*◌, Bool, true, false, not, ◌&&◌, ◌||◌, List, [], ◌∷◌, ◌++◌, ◌==◌, if◌then◌else◌,
  length, take, list_eq,
}
use msgriver.Common.Bytes.{be_bytes, from_be_bytes}
use msgriver.Core.Generation.{OwnerNamespace}
use msgriver.Journal.Wire.{Result, ok, err, ◌>>=◌, ◌>>◌, join, slice}
use msgriver.Journal.Labels.{header_auth_label, resource_incarnation_namespace_label}

abbrev pub magic : List ℕ
magic =
    b'M' ∷ b'S' ∷ b'G' ∷ b'R' ∷ b'I' ∷ b'V' ∷ b'E' ∷ b'R' ∷ b'-' ∷ b'C' ∷ b'J' ∷ b'H' ∷ 0 ∷ 0 ∷ 0
    ∷ 0 ∷ []

abbrev pub format_version : ℕ
format_version = 1

abbrev pub key_format_version : ℕ
key_format_version = 1

abbrev pub max_control_header_bytes : ℕ
max_control_header_bytes = 16 * 1024

-- The limits of the image, of the header, of the checkpoint (all, ordinary, reconciliation, entries),
-- of the tail (bytes, records) and of a record.
abbrev pub expected_layout : List ℕ
expected_layout =
    8 * 1024 * 1024
    ∷ max_control_header_bytes
    ∷ (6 * 1024 * 1024 - max_control_header_bytes)
    ∷ (4 * 1024 * 1024 - max_control_header_bytes)
    ∷ 2 * 1024 * 1024
    ∷ 4096
    ∷ 2 * 1024 * 1024
    ∷ 128
    ∷ 16 * 1024
    ∷ []

abbrev pub prefix_bytes : ℕ
prefix_bytes = 88

abbrev pub wire_bytes : ℕ
wire_bytes = 120

pub record ControlJournalHeader : Type 0 where
  pub owner_namespace : OwnerNamespace
  pub branch_serial_high_water : ℕ

pub data ControlJournalHeaderError : Type 0 where
  missing_control_journal_header invalid_header : ControlJournalHeaderError

abbrev pub layout_wire : List ℕ → List ℕ
layout_wire [] = []
layout_wire (value ∷ values) = be_bytes 4 value ++ layout_wire values

abbrev pub prefix_parts : ControlJournalHeader → List (List ℕ)
prefix_parts header =
    magic
    ∷ be_bytes 2 format_version
    ∷ be_bytes 2 key_format_version
    ∷ layout_wire expected_layout
    ∷ header.owner_namespace.bytes
    ∷ be_bytes 8 header.branch_serial_high_water
    ∷ []

unfoldable pub encode_prefix : ControlJournalHeader → List ℕ
encode_prefix header = join (prefix_parts header)

-- The loop over the layout; `offset` is `20 + index * 4`.
unfoldable pub layout_matches : List ℕ → ℕ → List ℕ → Bool
layout_matches [] offset prefix = true
layout_matches (expected ∷ more) offset prefix =
    (from_be_bytes (slice offset (offset + 4) prefix) == expected)
    && layout_matches more (offset + 4) prefix

abbrev pub same_namespace : OwnerNamespace → OwnerNamespace → Bool
same_namespace a b = list_eq a.bytes b.bytes

module _ (mac : List ℕ → List ℕ) where
  abbrev pub derive_resource_incarnation_namespace_v1 : OwnerNamespace
  derive_resource_incarnation_namespace_v1 = record {
    bytes = take 24 (mac resource_incarnation_namespace_label);
  }

  abbrev pub fresh_control_journal_header : ControlJournalHeader
  fresh_control_journal_header = record {
    owner_namespace = derive_resource_incarnation_namespace_v1;
    branch_serial_high_water = 0;
  }

  abbrev pub control_journal_header_with_branch_high_water : ℕ → ControlJournalHeader
  control_journal_header_with_branch_high_water branch_serial_high_water = record {
    owner_namespace = fresh_control_journal_header.owner_namespace;
    branch_serial_high_water = branch_serial_high_water;
  }

  abbrev pub header_tag : List ℕ → List ℕ
  header_tag prefix = mac (header_auth_label ++ prefix)

  unfoldable pub encode_control_journal_header :
      ControlJournalHeader → Result ControlJournalHeaderError (List ℕ)
  encode_control_journal_header header =
      let prefix = encode_prefix header in
      if not (same_namespace header.owner_namespace fresh_control_journal_header.owner_namespace)
      then err invalid_header
      else ok (prefix ++ header_tag prefix)

  abbrev pub header_tag_valid : List ℕ → List ℕ → Bool
  header_tag_valid prefix tag = list_eq tag (header_tag prefix)

  -- What follows the check of the tag.
  unfoldable pub decode_prefix : List ℕ → Result ControlJournalHeaderError ControlJournalHeader
  decode_prefix prefix =
      let owner_namespace : OwnerNamespace = record { bytes = slice 56 80 prefix } in
      if not (list_eq (slice 0 16 prefix) magic)
        || (not (from_be_bytes (slice 16 18 prefix) == format_version)
            || not (from_be_bytes (slice 18 20 prefix) == key_format_version))
      then err invalid_header
      else if not (layout_matches expected_layout 20 prefix)
      then err invalid_header
      else if not (same_namespace owner_namespace fresh_control_journal_header.owner_namespace)
      then err invalid_header
      else ok (record {
        owner_namespace = owner_namespace;
        branch_serial_high_water = from_be_bytes (slice 80 88 prefix);
      })

  unfoldable pub decode_control_journal_header :
      List ℕ → Result ControlJournalHeaderError ControlJournalHeader
  decode_control_journal_header wire =
      let prefix = slice 0 prefix_bytes wire in
      if not (length wire == wire_bytes)
      then err invalid_header
      else if not (header_tag_valid prefix (slice prefix_bytes wire_bytes wire))
      then err invalid_header
      else decode_prefix prefix
