-- ===== src/StateKeys/File/RoundTrip.antt =====
-- The decoder of key files accepts what the encoder writes for the expected reference, and nothing
-- else.
use mathlib.Core.Path.{ap₂}
use msgriver.Common.{
  ℕ, ◌+◌, ◌≤◌, ◌≡◌, refl, sym, ap, ◌∙◌, ◌↔◌, Bool, true, false, not, List, [], ◌∷◌, ◌++◌, ◌==◌,
  length, drop, length-append, list_eq, list_eq_sound, list_eq_refl, ◌&&◌, arith,
}
use msgriver.Core.Mac.{MacPurpose, MacKeyRef, code, same_ref}
use msgriver.Journal.Wire.{
  ok, not-false, bind_ok, bind_of, guard_ok, guard_of, else_ok, else_of, ok_injective, join, slice,
  byte, slice_step, slice_last, slice_end, byte_next, at_byte, at_field, within, chain, weave,
  join-weave, length-join,
}
use msgriver.Journal.Words.{read_array, read_array_ok, read_array_of, digest_is_zero}
use msgriver.Journal.Labels.{state_mac_key_domain}
use msgriver.StateKeys.File.{
  StateMacKeySecret, invalid_state_mac_key_file, validate_reference, purpose_from_byte,
  preceding_parts, state_mac_key_file_tag, encode_state_mac_key_file, verify_state_mac_key_file_tag,
  decode_secret, decode_state_mac_key_file,
}

purpose_from_byte_ok : (c : ℕ) (p : MacPurpose) → purpose_from_byte c ≡ ok p → c ≡ code p
purpose_from_byte_ok c p h = ground arith

purpose_from_byte_of : (p : MacPurpose) → purpose_from_byte (code p) ≡ ok p
purpose_from_byte_of p = ground arith

and_true : (a b : Bool) → (a && b) ≡ true → (a ≡ true) × (b ≡ true)
and_true true b h = (refl, h)
and_true false b h = absurd (ground arith)

same_ref_refl : (r : MacKeyRef) → same_ref r r ≡ true
same_ref_refl r = let ids = list_eq_refl r.key_id.bytes in ground arith

secret_width :
    (expected : MacKeyRef) (raw : List ℕ)
    → length expected.key_id.bytes ≡ 40
    → length raw ≡ 32
    → 0 + length (join (preceding_parts expected (record { bytes = raw }))) ≡ 74
secret_width expected raw width wide =
    let parts = preceding_parts expected (record { bytes = raw }) in
    let total = length-join parts (2 ∷ 40 ∷ 32 ∷ []) (refl, (width, (wide, tt))) in omega arith

-- The secret that was read, and the parts in front of it.
secret_ok :
    (expected : MacKeyRef) (w : List ℕ) (s : StateMacKeySecret)
    → 74 ≤ length w
    → byte 0 w ≡ 1
    → decode_secret expected w ≡ ok s
    → (length s.bytes ≡ 32)
      × (digest_is_zero s.bytes ≡ false)
      × (slice 0 74 w ≡ join (preceding_parts expected s))
unfolding decode_secret
secret_ok expected w s long b0 h =
    let (purpose, e1, h1) = bind_ok (purpose_from_byte (byte 1 w)) _ s h in
    let (id, e2, h2) = bind_ok (read_array invalid_state_mac_key_file 40 (slice 2 42 w)) _ s h1 in
    let actual : MacKeyRef = record { purpose = purpose; key_id = record { bytes = id } } in
    let (valid, h3) = guard_ok (validate_reference actual) _ s h2 in
    let (same, h4) = else_ok (not (same_ref actual expected)) invalid_state_mac_key_file _ s h3 in
    let (raw, e3, h5) = bind_ok (read_array invalid_state_mac_key_file 32 (slice 42 74 w)) _ s h4 in
    let (zero, h6) =
      else_ok (digest_is_zero raw) invalid_state_mac_key_file (ok (record { bytes = raw })) s h5 in
    let read : Path StateMacKeySecret (record { bytes = raw }) s = ok_injective h6 in
    let (purposes, ids) =
      and_true (code purpose == code expected.purpose) (list_eq id expected.key_id.bytes)
        (not-false (same_ref actual expected) same) in
    let codes : byte 1 w ≡ code expected.purpose =
      purpose_from_byte_ok (byte 1 w) purpose e1 ∙ (ground arith) in
    let (s1, width) = read_array_ok invalid_state_mac_key_file 40 (slice 2 42 w) id e2 in
    let (s2, wide) = read_array_ok invalid_state_mac_key_file 32 (slice 42 74 w) raw e3 in
    let named = s1 ∙ list_eq_sound id expected.key_id.bytes ids in
    let first = chain (1 ∷ []) (at_byte 0 w (within 0 74 w long refl) b0) (
      chain (code expected.purpose ∷ []) (at_byte 1 w (within 1 74 w long refl) codes) (
        chain expected.key_id.bytes (at_field 2 42 w refl named)
          (chain raw (at_field 42 74 w refl s2) refl))) in
    let secret : StateMacKeySecret = record { bytes = raw } in
    let whole =
      slice_step 0 74 w (join (preceding_parts expected secret)) (drop 74 w)
        (first ∙ sym (join-weave (preceding_parts expected secret) (drop 74 w)))
        (secret_width expected raw
          (ap length (sym (list_eq_sound id expected.key_id.bytes ids)) ∙ width) wide) in
    rw (sym read) (wide, zero, whole.0)

secret_of :
    (expected : MacKeyRef) (w t : List ℕ) (s : StateMacKeySecret)
    → length expected.key_id.bytes ≡ 40
    → length s.bytes ≡ 32
    → digest_is_zero s.bytes ≡ false
    → validate_reference expected ≡ ok tt
    → w ≡ weave (preceding_parts expected s) t
    → (byte 0 w ≡ 1) × (decode_secret expected w ≡ ok s)
unfolding decode_secret
secret_of expected w t s width wide zero valid e =
    let (b0, e0) = byte_next 0 w e in
    let (b1, e1) = byte_next 1 w e0 in
    let (s1, e2) = slice_step 2 42 w expected.key_id.bytes _ e1 (ap (λ n. 2 + n) width) in
    let (s2, e3) = slice_step 42 74 w s.bytes t e2 (ap (λ n. 42 + n) wide) in
    (
      b0,
      bind_of _ (ap purpose_from_byte b1 ∙ purpose_from_byte_of expected.purpose) (
          bind_of _ (read_array_of invalid_state_mac_key_file 40 s1 width) (
            guard_of _ valid (
              else_of _ _ (ap not (same_ref_refl expected)) (
                bind_of _ (read_array_of invalid_state_mac_key_file 32 s2 wide)
                  (else_of _ _ zero refl))))),
    )

module _ (mac : List ℕ → List ℕ) where
  sound :
      (expected : MacKeyRef) (w : List ℕ) (s : StateMacKeySecret)
      → decode_state_mac_key_file mac expected w ≡ ok s
      → (length s.bytes ≡ 32) × (encode_state_mac_key_file mac expected s ≡ ok w)
  unfolding decode_state_mac_key_file encode_state_mac_key_file
  sound expected w s h =
      let plain = slice 0 74 w in
      let tag = slice 74 106 w in
      let (valid, h1) = guard_ok (validate_reference expected) _ s h in
      let (size, h2) = else_ok (not (length w == 106)) invalid_state_mac_key_file _ s h1 in
      let (auth, h3) =
        else_ok (not (verify_state_mac_key_file_tag mac plain tag)) invalid_state_mac_key_file _ s
          h2 in
      let (version, h4) =
        else_ok (not (byte 0 w == 1)) invalid_state_mac_key_file (decode_secret expected w) s h3 in
      let len : length w ≡ 106 = ground arith in
      let (wide, zero, parts) = secret_ok expected w s (omega arith) (ground arith) h4 in
      let tagged = list_eq_sound tag (state_mac_key_file_tag mac plain) (not-false _ auth) in
      let whole =
        at_field 0 74 w refl refl
        ∙ ap (λ t. plain ++ t) (slice_end 74 106 w (omega arith) len ∙ tagged) in
      let code_of = ap (λ x. x ++ state_mac_key_file_tag mac x) (sym parts) ∙ sym whole in
      (wide, guard_of _ valid (else_of _ _ zero (ap ok code_of)))

  -- With tags of 32 bytes and a reference of 40, the decoder answers a secret for the expected
  -- reference exactly where the secret has 32 bytes and the encoder writes that file for this
  -- reference and secret: the file of another key, an altered one and a zero secret are refused.
  pub decode_state_mac_key_file_iff :
      ((x : List ℕ) → length (mac x) ≡ 32)
      → (expected : MacKeyRef) (w : List ℕ) (s : StateMacKeySecret)
      → length expected.key_id.bytes ≡ 40
      → (decode_state_mac_key_file mac expected w ≡ ok s)
        ↔ ((length s.bytes ≡ 32) × (encode_state_mac_key_file mac expected s ≡ ok w))
  unfolding decode_state_mac_key_file encode_state_mac_key_file
  decode_state_mac_key_file_iff wide_mac expected w s width = (sound expected w s, complete)
    where
      complete :
          (length s.bytes ≡ 32) × (encode_state_mac_key_file mac expected s ≡ ok w)
          → decode_state_mac_key_file mac expected w ≡ ok s
      complete (wide, h) =
          let plain = join (preceding_parts expected s) in
          let tag = state_mac_key_file_tag mac plain in
          let (valid, h1) = guard_ok (validate_reference expected) _ w h in
          let (zero, h2) =
            else_ok (digest_is_zero s.bytes) invalid_state_mac_key_file (ok (plain ++ tag)) w h1 in
          let same : plain ++ tag ≡ w = ok_injective h2 in
          let tag_size = wide_mac (state_mac_key_domain ++ plain) in
          let size = secret_width expected s.bytes width wide in
          let len : length w ≡ 106 =
            ap length (sym same) ∙ omega (arith, length-append plain tag, tag_size, size) in
          let (b0, reads) =
            secret_of expected w tag s width wide zero valid
              (sym same ∙ join-weave (preceding_parts expected s) tag) in
          let (front, rest) = slice_step 0 74 w plain tag (sym same) size in
          let back = slice_last 74 106 w tag rest (ap (λ n. 74 + n) tag_size) in
          let valid_tag =
            ap₂ (λ a b. not (verify_state_mac_key_file_tag mac a b)) front back
            ∙ ap not (list_eq_refl tag) in
          guard_of _ valid
            (else_of _ _ (ground arith) (else_of _ _ valid_tag (else_of _ _ (ground arith) reads)))
