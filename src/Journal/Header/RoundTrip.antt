-- ===== src/Journal/Header/RoundTrip.antt =====
-- The decoder of headers accepts what the encoder writes, and nothing else.
use mathlib.Core.Path.{ap₂}
use msgriver.Common.{
  ℕ, ◌+◌, ◌^◌, ◌<◌, ◌≡◌, refl, sym, ap, ◌∙◌, ◌↔◌, true, not, ◌||◌, List, [], ◌∷◌, ◌++◌, ◌==◌,
  length, length-append, list_eq, list_eq_sound, list_eq_refl, arith,
}
use msgriver.Common.Bytes.{
  IsBytes, be_bytes, from_be_bytes, length-be_bytes, from_be_bytes-be_bytes,
}
use msgriver.Core.Generation.{OwnerNamespace}
use msgriver.Journal.Wire.{
  not-false, Result, ok, else_ok, else_of, ok_injective, join, slice, slice-IsBytes, length-slice,
  slice_step, slice_last, slice_end, at_field, chain, drop_all, length-join,
}
use msgriver.Journal.Labels.{header_auth_label, resource_incarnation_namespace_label}
use msgriver.Journal.Header.{
  magic, expected_layout, ControlJournalHeader, ControlJournalHeaderError, invalid_header,
  layout_wire, prefix_parts, encode_prefix, layout_matches, same_namespace,
  fresh_control_journal_header, header_tag, header_tag_valid, encode_control_journal_header,
  decode_prefix, decode_control_journal_header,
}
use msgriver.Journal.Header.Layout.{
  word_at, layout_matches_ok, layout_matches_of, length-layout_wire, layout_small, or_false,
  length-take24, heading,
}

same_header :
    (header : ControlJournalHeader) (bytes : List ℕ) (branch : ℕ)
    → bytes ≡ header.owner_namespace.bytes
    → branch ≡ header.branch_serial_high_water
    → Path
        (Result ControlJournalHeaderError ControlJournalHeader)
        (ok (record {
          owner_namespace = record { bytes = bytes };
          branch_serial_high_water = branch;
        }))
        (ok header)
same_header header bytes branch e h = cc

module _ (mac : List ℕ → List ℕ) where
  abbrev namespace_bytes : List ℕ
  namespace_bytes = (fresh_control_journal_header mac).owner_namespace.bytes

  -- A decoded prefix is the encoded one.
  prefix_ok :
      (p : List ℕ) (header : ControlJournalHeader)
      → IsBytes p
      → length p ≡ 88
      → decode_prefix mac p ≡ ok header
      → (header.branch_serial_high_water < 2 ^ 64)
        × (same_namespace header.owner_namespace (fresh_control_journal_header mac).owner_namespace
            ≡ true)
        × (p ≡ encode_prefix header)
  unfolding decode_prefix encode_prefix
  prefix_ok p header small len h =
      let fixed =
        not (from_be_bytes (slice 16 18 p) == 1) || not (from_be_bytes (slice 18 20 p) == 1) in
      let owner : OwnerNamespace = record { bytes = slice 56 80 p } in
      let fresh = (fresh_control_journal_header mac).owner_namespace in
      let (head, h1) =
        else_ok (not (list_eq (slice 0 16 p) magic) || fixed) invalid_header _ header h in
      let (layout, h2) =
        else_ok (not (layout_matches expected_layout 20 p)) invalid_header _ header h1 in
      let (named, h3) = else_ok (not (same_namespace owner fresh)) invalid_header _ header h2 in
      let (letters, versions) = or_false (list_eq (slice 0 16 p) magic) fixed head in
      let (format, key) = or_false (from_be_bytes (slice 16 18 p) == 1) _ versions in
      let (s1, b1) = word_at 2 16 18 1 p small (omega arith) (omega arith) refl (ground arith) in
      let (s2, b2) = word_at 2 18 20 1 p small (omega arith) (omega arith) refl (ground arith) in
      let (s3, b3) =
        word_at 8 80 88 (from_be_bytes (slice 80 88 p)) p small (omega arith) (omega arith) refl
          refl in
      let body = chain magic (at_field 0 16 p refl (list_eq_sound (slice 0 16 p) magic letters)) (
        chain (be_bytes 2 1) (at_field 16 18 p refl s1) (
          chain (be_bytes 2 1) (at_field 18 20 p refl s2) (
            chain (layout_wire expected_layout)
              (layout_matches_ok expected_layout 20 p small (omega arith) (not-false _ layout))
              (chain (slice 56 80 p) (at_field 56 80 p refl refl) (
                chain (be_bytes 8 (from_be_bytes (slice 80 88 p))) (at_field 80 88 p refl s3)
                  (drop_all 88 p (omega arith))))))) in
      rw (sym (ok_injective h3)) (b3, not-false _ named, body)

  module _ (wide : (x : List ℕ) → length (mac x) ≡ 32) where
    length-namespace : length namespace_bytes ≡ 24
    length-namespace = length-take24 (mac resource_incarnation_namespace_label) (wide _)

    length-encode_prefix :
        (header : ControlJournalHeader)
        → length header.owner_namespace.bytes ≡ 24
        → length (encode_prefix header) ≡ 88
    unfolding encode_prefix
    length-encode_prefix header named =
        length-join (prefix_parts header) (16 ∷ 2 ∷ 2 ∷ 36 ∷ 24 ∷ 8 ∷ []) (
          refl,
          (
            length-be_bytes 2 1,
            (
              length-be_bytes 2 1,
              (
                length-layout_wire expected_layout,
                (named, (length-be_bytes 8 header.branch_serial_high_water, tt)),
              ),
            ),
          ),
        )

    prefix_of :
        (header : ControlJournalHeader)
        → header.branch_serial_high_water < 2 ^ 64
        → same_namespace header.owner_namespace (fresh_control_journal_header mac).owner_namespace
          ≡ true
        → decode_prefix mac (encode_prefix header) ≡ ok header
    unfolding decode_prefix encode_prefix
    prefix_of header bound named =
        let p = join (prefix_parts header) in
        let owner = header.owner_namespace.bytes in
        let same = list_eq_sound owner namespace_bytes named in
        let (s0, e0) = slice_step 0 16 p magic _ refl refl in
        let (s1, e1) =
          slice_step 16 18 p (be_bytes 2 1) _ e0 (ap (λ n. 16 + n) (length-be_bytes 2 1)) in
        let (s2, e2) =
          slice_step 18 20 p (be_bytes 2 1) _ e1 (ap (λ n. 18 + n) (length-be_bytes 2 1)) in
        let (s3, e3) =
          slice_step 20 56 p (layout_wire expected_layout) _ e2
            (ap (λ n. 20 + n) (length-layout_wire expected_layout)) in
        let (s4, e4) =
          slice_step 56 80 p owner _ e3 (ap (λ n. 56 + n) (ap length same ∙ length-namespace)) in
        let (s5, e5) =
          slice_step 80 88 p (be_bytes 8 header.branch_serial_high_water) [] e4
            (ap (λ n. 80 + n) (length-be_bytes 8 header.branch_serial_high_water)) in
        let letters = ap (λ x. list_eq x magic) s0 ∙ list_eq_refl magic in
        let format : from_be_bytes (slice 16 18 p) ≡ 1 =
          ap from_be_bytes s1 ∙ from_be_bytes-be_bytes 2 1 (omega arith) in
        let key : from_be_bytes (slice 18 20 p) ≡ 1 =
          ap from_be_bytes s2 ∙ from_be_bytes-be_bytes 2 1 (omega arith) in
        let branch : from_be_bytes (slice 80 88 p) ≡ header.branch_serial_high_water =
          ap from_be_bytes s5 ∙ from_be_bytes-be_bytes 8 header.branch_serial_high_water bound in
        let layout = layout_matches_of expected_layout 20 p _ layout_small e2 in
        let names = ap (λ x. list_eq x namespace_bytes) s4 ∙ named in
        else_of _ _ (heading _ _ _ letters format key) (
          else_of _ _ (ap not layout)
            (else_of _ _ (ap not names) (same_header header _ _ s4 branch)))

    -- With tags of 32 bytes, the decoder answers a header for a wire of bytes exactly where its high
    -- water is a `u64` word and the encoder of the same key writes that wire: what was encoded is read
    -- back, and no other wire is accepted.
    pub decode_control_journal_header_iff :
        (w : List ℕ) (header : ControlJournalHeader)
        → IsBytes w
        → (decode_control_journal_header mac w ≡ ok header) ↔ (
            (header.branch_serial_high_water < 2 ^ 64)
            × (encode_control_journal_header mac header ≡ ok w))
    unfolding decode_control_journal_header encode_control_journal_header
    decode_control_journal_header_iff w header small = (sound, complete)
      where
        sound :
            decode_control_journal_header mac w ≡ ok header
            → (header.branch_serial_high_water < 2 ^ 64)
              × (encode_control_journal_header mac header ≡ ok w)
        sound h =
            let p = slice 0 88 w in
            let tag = slice 88 120 w in
            let (size, h1) = else_ok (not (length w == 120)) invalid_header _ header h in
            let (auth, h2) =
              else_ok (not (header_tag_valid mac p tag)) invalid_header _ header h1 in
            let len : length w ≡ 120 = ground arith in
            let wide_p = length-slice 0 88 w (omega arith) (omega arith) in
            let (bound, named, same) = prefix_ok p header (slice-IsBytes 0 88 w small) wide_p h2 in
            let tagged = list_eq_sound tag (header_tag mac p) (not-false _ auth) in
            let whole =
              at_field 0 88 w refl refl
              ∙ ap (λ t. p ++ t) (slice_end 88 120 w (omega arith) len ∙ tagged) in
            let code = ap (λ x. x ++ header_tag mac x) (sym same) ∙ sym whole in
            (bound, else_of _ _ (ap not named) (ap ok code))

        complete :
            (header.branch_serial_high_water < 2 ^ 64)
              × (encode_control_journal_header mac header ≡ ok w)
            → decode_control_journal_header mac w ≡ ok header
        complete (bound, h) =
            let p = encode_prefix header in
            let (other, h1) =
              else_ok
                (not (
                  same_namespace header.owner_namespace
                    (fresh_control_journal_header mac).owner_namespace))
                invalid_header _ w h in
            let named = not-false _ other in
            let same : p ++ header_tag mac p ≡ w = ok_injective h1 in
            let owner = list_eq_sound header.owner_namespace.bytes namespace_bytes named in
            let size = length-encode_prefix header (ap length owner ∙ length-namespace) in
            let tag_size = wide (header_auth_label ++ p) in
            let len : length w ≡ 120 =
              ap length (sym same)
              ∙ omega (arith, size, tag_size, length-append p (header_tag mac p)) in
            let (front, rest) =
              slice_step 0 88 w p (header_tag mac p) (sym same) (omega (arith, size)) in
            let back = slice_last 88 120 w (header_tag mac p) rest (omega (arith, tag_size)) in
            let valid =
              ap₂ (λ a b. not (header_tag_valid mac a b)) front back
              ∙ ap not (list_eq_refl (header_tag mac p)) in
            else_of _ _ (ground arith)
              (else_of _ _ valid (ap (decode_prefix mac) front ∙ prefix_of header bound named))
