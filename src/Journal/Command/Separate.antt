-- ===== src/Journal/Command/Separate.antt =====
-- The two kinds of frame are kept apart by the kind that they carry.
use msgriver.Common.{
  ℕ, ◌-◌, ◌≡◌, sym, ap, ◌∙◌, not, ◌||◌, List, ltb, in_range, ◌==◌, length, list_eq, arith,
}
use msgriver.Common.Bytes.{from_be_bytes}
use msgriver.Journal.Wire.{ok, bind_ok, else_ok, ok_injective, slice}
use msgriver.Journal.Words.{read_word, read_array_ok}
use msgriver.Journal.Record.{
  ControlJournalRecordKind, ControlJournalRecord, JournalHead, invalid_record, kind_from_code,
  record_digest, record_tag_valid, decode_fields, decode_control_journal_record,
}
use msgriver.Journal.Command.{
  FixedRootCommandJournalHead, FixedRootCommandRecord, invalid_command, command_tag_valid,
  fixed_root_command_record_digest, decode_command_fields, decode_fixed_root_command_record,
}

-- A word that was read is the value of the bytes, whichever format reads it.
word_value :
    {E : Type 0} (e : E) (n : ℕ) (s : List ℕ) (v : ℕ) → read_word e n s ≡ ok v → from_be_bytes s ≡ v
word_value {E} e n s v h =
    let (a, array, k) = bind_ok _ _ v h in
    let (same, width) = read_array_ok e n s a array in
    ap from_be_bytes same ∙ ok_injective {E = E} k

not_a_kind : (k : ControlJournalRecordKind) → kind_from_code 0x0020 ≡ ok k → ⊥
not_a_kind k h = ground arith

module _ (mac digest : List ℕ → List ℕ) where
  record_kind :
      (f : List ℕ) (prior : JournalHead) (r : ControlJournalRecord)
      → decode_control_journal_record mac digest f prior ≡ ok r
      → (k : ControlJournalRecordKind) × (kind_from_code (from_be_bytes (slice 4 6 f)) ≡ ok k)
  unfolding decode_control_journal_record decode_fields
  record_kind f prior r h =
      let (four, h1) = else_ok (ltb (length f) 4) invalid_record _ r h in
      let (n, e1, h2) = bind_ok (read_word invalid_record 4 (slice 0 4 f)) _ r h1 in
      let (size, h3) =
        else_ok (not (in_range 110 16384 n) || not (length f == n)) invalid_record _ r h2 in
      let (auth, h4) =
        else_ok (not (record_tag_valid mac digest (slice 0 (n - 32) f) (slice (n - 32) n f)))
          invalid_record (decode_fields mac digest f prior (n - 64) (n - 32)) r h3 in
      let (same, h5) =
        else_ok
          (not (list_eq (slice (n - 64) (n - 32) f) (record_digest digest (slice 0 (n - 64) f))))
          invalid_record _ r h4 in
      let (code, e2, h6) = bind_ok (read_word invalid_record 2 (slice 4 6 f)) _ r h5 in
      let (kind, e3, h7) = bind_ok (kind_from_code code) _ r h6 in
      (kind, ap kind_from_code (word_value invalid_record 2 (slice 4 6 f) code e2) ∙ e3)

  command_kind :
      (f : List ℕ) (prior : FixedRootCommandJournalHead) (r : FixedRootCommandRecord)
      → decode_fixed_root_command_record mac digest f prior ≡ ok r
      → from_be_bytes (slice 4 6 f) ≡ 0x0020
  unfolding decode_fixed_root_command_record decode_command_fields
  command_kind f prior r h =
      let (four, h1) = else_ok (ltb (length f) 4) invalid_command _ r h in
      let (n, e1, h2) = bind_ok (read_word invalid_command 4 (slice 0 4 f)) _ r h1 in
      let (size, h3) =
        else_ok (not (in_range 110 16384 n) || not (length f == n)) invalid_command _ r h2 in
      let (auth, h4) =
        else_ok (not (command_tag_valid mac digest (slice 0 (n - 32) f) (slice (n - 32) n f)))
          invalid_command (decode_command_fields mac digest f prior (n - 64) (n - 32)) r h3 in
      let (same, h5) =
        else_ok
          (not (
            list_eq (slice (n - 64) (n - 32) f)
              (fixed_root_command_record_digest mac digest (slice 0 (n - 64) f))))
          invalid_command _ r h4 in
      let (code, e2, h6) = bind_ok (read_word invalid_command 2 (slice 4 6 f)) _ r h5 in
      let (kind, h7) = else_ok (not (code == 0x0020)) invalid_command _ r h6 in
      let command : code ≡ 0x0020 = ground arith in
      word_value invalid_command 2 (slice 4 6 f) code e2 ∙ command

  -- No frame is accepted both as a fixed-root command and as a lifecycle record, at whatever heads,
  -- although the two have one layout and are authenticated under the same labels.
  pub decode_fixed_root_command_record_separate :
      (f : List ℕ) (prior : FixedRootCommandJournalHead) (head : JournalHead)
      (r : FixedRootCommandRecord) (s : ControlJournalRecord)
      → decode_fixed_root_command_record mac digest f prior ≡ ok r
      → ¬ (decode_control_journal_record mac digest f head ≡ ok s)
  decode_fixed_root_command_record_separate f prior head r s h k =
      let (kind, e) = record_kind f head s k in
      not_a_kind kind (ap kind_from_code (sym (command_kind f prior r h)) ∙ e)
