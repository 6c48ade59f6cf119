-- ===== src/Journal/Record/RoundTrip.antt =====
-- The decoder of frames accepts what the encoder writes at the same head, and nothing else.
use mathlib.Core.List.{append_assoc}
use mathlib.Core.Path.{ap₂}
use msgriver.Common.{
  ℕ, ◌+◌, ◌-◌, ◌^◌, ◌<◌, ◌≡◌, refl, sym, ap, ◌∙◌, ◌↔◌, not, ◌||◌, List, ◌++◌, ltb, in_range, ◌==◌,
  length, length-append, list_eq, list_eq_sound, list_eq_refl, arith,
}
use msgriver.Common.Bytes.{IsBytes, be_bytes, length-be_bytes}
use msgriver.Journal.Wire.{
  not-false, ok, bind_ok, bind_of, else_ok, else_of, ok_injective, slice, slice-IsBytes, slice_step,
  drop-slice, slice_split, slice_last, slice_end, length-slice, join-weave,
}
use msgriver.Journal.Words.{read_word_ok, read_word_of, read_word}
use msgriver.Journal.Record.{
  ControlJournalRecordKind, JournalHead, ControlJournalRecord, invalid_record, kind_code,
  kind_from_code, next_sequence, prefix_parts, record_prefix, record_digest, record_tag, with_tag,
  record_tag_valid, decode_fields, encode_control_journal_record, decode_control_journal_record,
}
use msgriver.Journal.Record.Prefix.{
  HeadFits, kind_from_code_ok, kind_from_code_of, next_sequence_ok, not_or_not, record_prefix_ok,
  record_prefix_of, length-prefix, prefix_cut, prefix_same, record_same, frame_size,
}

-- The frame is what the encoder writes at the head, and the record has the next sequence and the
-- digest of the prefix.
abbrev pub IsSealed :
    (List ℕ → List ℕ) → (List ℕ → List ℕ) → List ℕ → JournalHead → ControlJournalRecord → Type 0
IsSealed mac digest frame prior r =
    (start : List ℕ) × (record_prefix r.kind r.body prior ≡ ok start)
    × (encode_control_journal_record mac digest r.kind r.body prior ≡ ok frame)
    × (r.sequence ≡ prior.sequence + 1)
    × (r.record_digest ≡ record_digest digest start)

module _ (mac digest : List ℕ → List ℕ) where
  encode_of :
      (kind : ControlJournalRecordKind) (body : List ℕ) (prior : JournalHead) (p : List ℕ)
      → record_prefix kind body prior ≡ ok p
      → encode_control_journal_record mac digest kind body prior
        ≡ ok (with_tag mac digest (p ++ record_digest digest p))
  unfolding encode_control_journal_record
  encode_of kind body prior p e = bind_of _ e refl

  -- The fields are read from the prefix, at the head.
  fields_ok :
      (f : List ℕ) (prior : JournalHead) (d t : ℕ) (r : ControlJournalRecord)
      → IsBytes f
      → HeadFits prior
      → decode_fields mac digest f prior d t ≡ ok r
      → (slice d t f ≡ record_digest digest (slice 0 d f))
        × (slice 4 6 f ≡ be_bytes 2 (kind_code r.kind))
        × (slice 6 14 f ≡ be_bytes 8 (prior.sequence + 1))
        × (slice 14 46 f ≡ prior.record_digest)
        × (slice 46 d f ≡ r.body)
        × (next_sequence prior.sequence ≡ ok (prior.sequence + 1))
        × (r.sequence ≡ prior.sequence + 1)
        × (r.record_digest ≡ record_digest digest (slice 0 d f))
  unfolding decode_fields
  fields_ok f prior d t r small fits h =
      let dig = record_digest digest (slice 0 d f) in
      let (same, h1) = else_ok (not (list_eq (slice d t f) dig)) invalid_record _ r h in
      let (code, e1, h2) = bind_ok (read_word invalid_record 2 (slice 4 6 f)) _ r h1 in
      let (kind, e2, h3) = bind_ok (kind_from_code code) _ r h2 in
      let (seq, e3, h4) = bind_ok (read_word invalid_record 8 (slice 6 14 f)) _ r h3 in
      let (next, e4, h5) = bind_ok (next_sequence prior.sequence) _ r h4 in
      let (tests, h6) =
        else_ok (not (seq == next) || not (list_eq (slice 14 46 f) prior.record_digest))
          invalid_record _ r h5 in
      let read : record { kind = kind; sequence = seq; record_digest = dig; body = slice 46 d f }
          ≡ r =
        ok_injective h6 in
      let (w1, b1) = read_word_ok invalid_record 2 _ code (slice-IsBytes 4 6 f small) e1 in
      let (w2, b2) = read_word_ok invalid_record 8 _ seq (slice-IsBytes 6 14 f small) e3 in
      let (up, room) = next_sequence_ok prior.sequence next fits.0 e4 in
      let (s1, s2) = not_or_not (seq == next) (list_eq (slice 14 46 f) prior.record_digest) tests in
      let number : seq ≡ prior.sequence + 1 = ground arith in
      rw (sym read) (
        list_eq_sound (slice d t f) dig (not-false _ same),
        w1 ∙ ap (be_bytes 2) (kind_from_code_ok code kind e2),
        w2 ∙ ap (be_bytes 8) number,
        list_eq_sound (slice 14 46 f) prior.record_digest s2,
        refl,
        e4 ∙ ap ok up,
        number,
        refl,
      )

  pub decode_sound :
      (f : List ℕ) (prior : JournalHead) (r : ControlJournalRecord)
      → IsBytes f
      → HeadFits prior
      → decode_control_journal_record mac digest f prior ≡ ok r
      → IsSealed mac digest f prior r
  unfolding decode_control_journal_record
  decode_sound f prior r small fits h =
      let (four, h1) = else_ok (ltb (length f) 4) invalid_record _ r h in
      let (n, e1, h2) = bind_ok (read_word invalid_record 4 (slice 0 4 f)) _ r h1 in
      let (size, h3) =
        else_ok (not (in_range 110 16384 n) || not (length f == n)) invalid_record _ r h2 in
      let tag = slice (n - 32) n f in
      let sealed = slice 0 (n - 32) f in
      let (auth, h4) =
        else_ok (not (record_tag_valid mac digest sealed tag)) invalid_record
          (decode_fields mac digest f prior (n - 64) (n - 32)) r h3 in
      let (ranged, whole) = not_or_not (in_range 110 16384 n) (length f == n) size in
      let len : length f ≡ n = ground arith in
      let (low, high) = frame_size n ranged in
      let (dig, kind, seq, before, body, next, number, digested) =
        fields_ok f prior (n - 64) (n - 32) r small fits h4 in
      let (size_word, bound) = read_word_ok invalid_record 4 _ n (slice-IsBytes 0 4 f small) e1 in
      let body_length =
        ap length (sym body) ∙ length-slice 46 (n - 64) f (omega arith) (omega arith) in
      let sum : n ≡ 110 + length r.body = omega arith in
      let start =
        prefix_cut f (n - 64) (omega arith) (omega arith)
        ∙ prefix_same f (n - 64) r.kind r.body prior (size_word ∙ ap (be_bytes 4) sum) kind seq
            before body in
      let built = record_prefix_of r.kind r.body prior (omega arith) next ∙ ap ok (sym start) in
      let tagged = list_eq_sound tag _ (not-false (record_tag_valid mac digest sealed tag) auth) in
      let halves =
        slice_split 0 (n - 64) (n - 32) f (omega arith) (omega arith) (omega arith)
        ∙ ap (λ t. slice 0 (n - 64) f ++ t) dig in
      let frame =
        drop-slice 0 (n - 32) f (omega arith)
        ∙ (ap (λ t. sealed ++ t) (slice_end (n - 32) n f (omega arith) len ∙ tagged)
            ∙ ap (with_tag mac digest) halves) in
      (
        slice 0 (n - 64) f,
        built,
        encode_of r.kind r.body prior (slice 0 (n - 64) f) built ∙ ap ok (sym frame),
        number,
        digested,
      )

  fields_of :
      (f : List ℕ) (prior : JournalHead) (d t : ℕ) (r : ControlJournalRecord) (start : List ℕ)
      → slice 0 d f ≡ start
      → slice d t f ≡ record_digest digest start
      → slice 4 6 f ≡ be_bytes 2 (kind_code r.kind)
      → slice 6 14 f ≡ be_bytes 8 (prior.sequence + 1)
      → slice 14 46 f ≡ prior.record_digest
      → slice 46 d f ≡ r.body
      → next_sequence prior.sequence ≡ ok (prior.sequence + 1)
      → prior.sequence + 1 < 2 ^ 64
      → r.sequence ≡ prior.sequence + 1
      → r.record_digest ≡ record_digest digest start
      → decode_fields mac digest f prior d t ≡ ok r
  unfolding decode_fields
  fields_of f prior d t r start s0 dig k seq before body next room number digested =
      let prefixed = ap (record_digest digest) s0 in
      let (code, small) = kind_from_code_of r.kind in
      let same =
        ap₂ (λ x y. not (list_eq x y)) dig prefixed
        ∙ ap not (list_eq_refl (record_digest digest start)) in
      let there =
        ap (λ x. list_eq x prior.record_digest) before ∙ list_eq_refl prior.record_digest in
      else_of _ _ same (
        bind_of _ (read_word_of invalid_record 2 (kind_code r.kind) k small) (
          bind_of _ code (
            bind_of _ (read_word_of invalid_record 8 (prior.sequence + 1) seq room) (
              bind_of _ next (
                else_of _ _ (ground arith) (
                  record_same r (prior.sequence + 1) _ _ (sym number) (prefixed ∙ sym digested)
                    body))))))

  module _ (wide_mac : (x : List ℕ) → length (mac x) ≡ 32)
      (wide_digest : (x : List ℕ) → length (digest x) ≡ 32) where
    decode_complete :
        (f : List ℕ) (prior : JournalHead) (r : ControlJournalRecord)
        → HeadFits prior
        → IsSealed mac digest f prior r
        → decode_control_journal_record mac digest f prior ≡ ok r
    unfolding decode_control_journal_record
    decode_complete f prior r fits (start, built, encoded, number, digested) =
        let (short, next, room, parts) = record_prefix_ok r.kind r.body prior start fits.0 built in
        let n = 110 + length r.body in
        let dig = record_digest digest start in
        let tag = record_tag mac digest (start ++ dig) in
        let same : (start ++ dig) ++ tag ≡ f =
          ok_injective (sym (encode_of r.kind r.body prior start built) ∙ encoded) in
        let apart : f ≡ start ++ (dig ++ tag) = sym same ∙ append_assoc start dig tag in
        let woven =
          apart
          ∙ (ap (λ t. t ++ (dig ++ tag)) parts
              ∙ join-weave (prefix_parts r.kind r.body prior (prior.sequence + 1)) (dig ++ tag)) in
        let long =
          ap length parts ∙ length-prefix r.kind r.body prior (prior.sequence + 1) fits.1 in
        let len_dig : length dig ≡ 32 = wide_digest _ in
        let len_tag : length tag ≡ 32 = wide_mac _ in
        let len : length f ≡ n =
          ap length apart
          ∙ omega (arith, length-append start (dig ++ tag), length-append dig tag) in
        let (s1, e1) = slice_step 0 4 f _ _ woven (ap (λ k. 0 + k) (length-be_bytes 4 n)) in
        let (s2, e2) =
          slice_step 4 6 f _ _ e1 (ap (λ k. 4 + k) (length-be_bytes 2 (kind_code r.kind))) in
        let (s3, e3) =
          slice_step 6 14 f _ _ e2 (ap (λ k. 6 + k) (length-be_bytes 8 (prior.sequence + 1))) in
        let (s4, e4) = slice_step 14 46 f _ _ e3 (ap (λ k. 14 + k) fits.1) in
        let (s5, e5) = slice_step 46 (n - 64) f r.body _ e4 (omega arith) in
        let (s6, e6) = slice_step (n - 64) (n - 32) f dig tag e5 (omega (arith, len_dig)) in
        let s7 = slice_last (n - 32) n f tag e6 (omega (arith, len_tag)) in
        let s0 = (slice_step 0 (n - 64) f start _ apart (omega (arith, long))).0 in
        let sealed =
          (slice_step 0 (n - 32) f (start ++ dig) tag (sym same)
            (omega (arith, long, len_dig, length-append start dig))).0 in
        let valid =
          ap₂ (λ a b. not (record_tag_valid mac digest a b)) sealed s7
          ∙ ap not (list_eq_refl tag) in
        else_of _ _ (ground arith) (
          bind_of _ (read_word_of invalid_record 4 n s1 (omega arith)) (
            else_of _ _ (ground arith) (
              else_of _ _ valid (
                fields_of f prior (n - 64) (n - 32) r start s0 s6 s2 s3 s4 s5 next room number
                  digested))))

    -- Under a MAC and a digest of 32 bytes, and at a head of the widths of its types, the decoder
    -- answers a record for a frame of bytes exactly where the encoder writes that frame for the kind
    -- and the body of the record at that head, and the record has the next sequence and the digest of
    -- the prefix.
    pub decode_control_journal_record_iff :
        (f : List ℕ) (prior : JournalHead) (r : ControlJournalRecord)
        → IsBytes f
        → HeadFits prior
        → (decode_control_journal_record mac digest f prior ≡ ok r) ↔ IsSealed mac digest f prior r
    decode_control_journal_record_iff f prior r small fits =
        (decode_sound f prior r small fits, decode_complete f prior r fits)
