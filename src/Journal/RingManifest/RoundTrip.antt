-- ===== src/Journal/RingManifest/RoundTrip.antt =====
-- The decoder of ring manifests accepts what the encoder writes, and nothing else.
use mathlib.Core.List.{append_assoc}
use mathlib.Core.Path.{ap₂}
use msgriver.Common.{
  ℕ, zero, suc, ◌+◌, ◌-◌, ◌*◌, ◌%◌, ◌^◌, ◌<◌, ◌≤◌, ◌≡◌, refl, sym, ap, ◌∙◌, ◌↔◌, not, List, [], ◌∷◌,
  ◌++◌, ltb, ◌==◌, length, length-append, drop, All, list_eq_sound, list_eq_refl, arith,
}
use msgriver.Common.Bytes.{IsBytes, be_bytes, length-be_bytes}
use msgriver.Journal.Wire.{
  ok, bind_ok, bind_of, guard_ok, guard_of, else_ok, else_of, ok_injective, slice, byte,
  slice-IsBytes, slice_step, slice_last, slice_end, byte_next, at_byte, at_slice, chain,
}
use msgriver.Journal.Words.{read_word, read_word_ok, read_word_of}
use msgriver.Journal.Labels.{recovery_ring_domain}
use msgriver.Journal.RingManifest.{
  RecoveryRingPhase, RecoveryRingEntry, RecoveryRingManifest, invalid_recovery_ring_manifest,
  phase_code, phase_from_code, expected_length, validate_manifest, entries_wire, untagged_wire,
  read_entries, recovery_ring_manifest_tag, verify_recovery_ring_manifest_tag,
  encode_recovery_ring_manifest, decode_recovery_ring_manifest,
}
use msgriver.Journal.RingManifest.Validation.{validate_manifest_iff}

-- The generations are `u64` words.
abbrev pub EntriesFit : List RecoveryRingEntry → Type 0
EntriesFit entries = All (λ e. e.generation < 2 ^ 64) entries

phase_from_code_ok : (c : ℕ) (p : RecoveryRingPhase) → phase_from_code c ≡ ok p → c ≡ phase_code p
phase_from_code_ok c p h = ground arith

phase_from_code_of : (p : RecoveryRingPhase) → phase_from_code (phase_code p) ≡ ok p
phase_from_code_of p = ground arith

expected_length_ok : (n m : ℕ) → expected_length n ≡ ok m → (m ≡ 34 + 9 * n) × (n ≤ 16)
expected_length_ok n m h = (ground arith, ground arith)

length-entries_wire : (es : List RecoveryRingEntry) → length (entries_wire es) ≡ 9 * length es
length-entries_wire [] = refl
length-entries_wire (e ∷ es) = omega (
  arith,
  length-entries_wire es,
  length-be_bytes 8 e.generation,
  length-append (be_bytes 8 e.generation) (phase_code e.phase ∷ entries_wire es),
)

read_entries_ok :
    (n at : ℕ) (w : List ℕ) (es : List RecoveryRingEntry)
    → IsBytes w
    → at + 9 * n ≤ length w
    → read_entries n at w ≡ ok es
    → (length es ≡ n) × EntriesFit es × (drop at w ≡ entries_wire es ++ drop (at + 9 * n) w)
unfolding read_entries
read_entries_ok zero at w es small long h =
    let same : Path (List RecoveryRingEntry) [] es = ok_injective h in
    let here : at ≡ at + 9 * 0 = omega arith in rw (sym same) (refl, tt, ap (λ k. drop k w) here)
read_entries_ok (suc n) at w es small long h =
    let bytes = slice at (at + 8) w in
    let (g, e1, h1) = bind_ok (read_word invalid_recovery_ring_manifest 8 bytes) _ es h in
    let (p, e2, h2) = bind_ok (phase_from_code (byte (at + 8) w)) _ es h1 in
    let (rest, e3, h3) = bind_ok (read_entries n (at + 9) w) _ es h2 in
    let same : Path (List RecoveryRingEntry) (record { generation = g; phase = p } ∷ rest) es =
      ok_injective h3 in
    let (count, fits, stands) = read_entries_ok n (at + 9) w rest small (omega arith) e3 in
    let (word, bound) =
      read_word_ok invalid_recovery_ring_manifest 8 bytes g (slice-IsBytes at (at + 8) w small)
        e1 in
    let code = phase_from_code_ok (byte (at + 8) w) p e2 in
    let next : suc (at + 8) ≡ at + 9 = omega arith in
    let end : at + 9 + 9 * n ≡ at + 9 * suc n = omega arith in
    let front = chain (be_bytes 8 g) (at_slice at (at + 8) w (omega arith) word) (
      chain (phase_code p ∷ []) (at_byte (at + 8) w (omega arith) code)
        (ap (λ k. drop k w) next ∙ (stands ∙ ap (λ k. entries_wire rest ++ drop k w) end))) in
    rw (sym same) (
      ap suc count,
      (bound, fits),
      front
          ∙ sym (
              append_assoc (be_bytes 8 g) (phase_code p ∷ entries_wire rest)
                (drop (at + 9 * suc n) w)),
    )

read_entries_of :
    (at : ℕ) (w t : List ℕ) (es : List RecoveryRingEntry)
    → EntriesFit es
    → drop at w ≡ entries_wire es ++ t
    → read_entries (length es) at w ≡ ok es
unfolding read_entries
read_entries_of at w t [] fits e = refl
read_entries_of at w t (x ∷ es) fits e =
    let g = be_bytes 8 x.generation in
    let (s1, e1) =
      slice_step at (at + 8) w g (phase_code x.phase ∷ entries_wire es ++ t)
        (e ∙ append_assoc g (phase_code x.phase ∷ entries_wire es) t)
        (omega (arith, length-be_bytes 8 x.generation)) in
    let (b, e2) = byte_next (at + 8) w e1 in
    let next : at + 9 ≡ suc (at + 8) = omega arith in
    bind_of _ (read_word_of invalid_recovery_ring_manifest 8 x.generation s1 fits.0) (
      bind_of _ (ap phase_from_code b ∙ phase_from_code_of x.phase)
        (bind_of _ (read_entries_of (at + 9) w t es fits.1 (ap (λ k. drop k w) next ∙ e2)) refl))

module _ (mac : List ℕ → List ℕ) where
  sound :
      (w : List ℕ) (m : RecoveryRingManifest)
      → IsBytes w
      → decode_recovery_ring_manifest mac w ≡ ok m
      → EntriesFit m.entries × (encode_recovery_ring_manifest mac m ≡ ok w)
  unfolding decode_recovery_ring_manifest encode_recovery_ring_manifest
  sound w m small h =
      let (two, h1) = else_ok (ltb (length w) 2) invalid_recovery_ring_manifest _ m h in
      let (n, e1, h2) = bind_ok (expected_length (byte 1 w)) _ m h1 in
      let (len, h3) = else_ok (not (length w == n)) invalid_recovery_ring_manifest _ m h2 in
      let plain = slice 0 (n - 32) w in
      let tag = slice (n - 32) n w in
      let (auth, h4) =
        else_ok (not (verify_recovery_ring_manifest_tag mac plain tag))
          invalid_recovery_ring_manifest _ m h3 in
      let (version, h5) = else_ok (not (byte 0 w == 1)) invalid_recovery_ring_manifest _ m h4 in
      let (es, e2, h6) = bind_ok (read_entries (byte 1 w) 2 w) _ m h5 in
      let read : RecoveryRingManifest = record { entries = es } in
      let (valid, h7) = guard_ok (validate_manifest read) (ok read) m h6 in
      let same : read ≡ m = ok_injective h7 in
      let (total, few) = expected_length_ok (byte 1 w) n e1 in
      let whole : length w ≡ n = ground arith in
      let first : byte 0 w ≡ 1 = ground arith in
      let (count, fits, stands) = read_entries_ok (byte 1 w) 2 w es small (omega arith) e2 in
      let low : byte 1 w ≡ length es % 256 = omega arith in
      let last : 2 + 9 * byte 1 w ≡ n - 32 = omega arith in
      let body = chain (1 ∷ []) (at_byte 0 w (omega arith) first) (
        chain (length es % 256 ∷ []) (at_byte 1 w (omega arith) low)
          (stands ∙ ap (λ k. entries_wire es ++ drop k w) last)) in
      let (front, back) =
        slice_step 0 (n - 32) w (untagged_wire es) (drop (n - 32) w) body
          (omega (arith, length-entries_wire es)) in
      let tagged : tag ≡ recovery_ring_manifest_tag mac plain =
        list_eq_sound tag _ (ground arith) in
      let rest =
        slice_end (n - 32) n w (omega arith) whole
        ∙ (tagged ∙ ap (recovery_ring_manifest_tag mac) front) in
      rw (sym same)
        (fits, guard_of _ valid (ap ok (sym (body ∙ ap (λ t. untagged_wire es ++ t) rest))))

  -- With tags of 32 bytes, the decoder answers a manifest for a wire of bytes exactly where its
  -- generations are `u64` words and the encoder writes that wire under the same key: what was encoded
  -- is read back, no other wire is accepted, and what is read has passed the validation.
  pub decode_recovery_ring_manifest_iff :
      ((x : List ℕ) → length (mac x) ≡ 32)
      → (w : List ℕ) (m : RecoveryRingManifest) → IsBytes w
      → (decode_recovery_ring_manifest mac w ≡ ok m)
        ↔ (EntriesFit m.entries × (encode_recovery_ring_manifest mac m ≡ ok w))
  unfolding decode_recovery_ring_manifest encode_recovery_ring_manifest
  decode_recovery_ring_manifest_iff wide w m small = (sound w m small, complete)
    where
      complete :
          EntriesFit m.entries × (encode_recovery_ring_manifest mac m ≡ ok w)
          → decode_recovery_ring_manifest mac w ≡ ok m
      complete (fits, h) =
          let es = m.entries in
          let plain = untagged_wire es in
          let tag = recovery_ring_manifest_tag mac plain in
          let n = 34 + 9 * length es in
          let (valid, h1) = guard_ok (validate_manifest m) (ok (plain ++ tag)) w h in
          let same : plain ++ tag ≡ w = ok_injective h1 in
          let few : length es ≤ 16 = ((validate_manifest_iff m).0 valid).0 in
          let size : length plain ≡ n - 32 = omega (arith, length-entries_wire es) in
          let len : length w ≡ n =
            ap length (sym same)
            ∙ omega (arith, length-append plain tag, wide (recovery_ring_domain ++ plain)) in
          let (b0, e0) = byte_next 0 w (sym same) in
          let (b1, e1) = byte_next 1 w e0 in
          let count : byte 1 w ≡ length es = b1 ∙ omega arith in
          let (front, back) = slice_step 0 (n - 32) w plain tag (sym same) (omega arith) in
          let end =
            slice_last (n - 32) n w tag back
              (omega (arith, wide (recovery_ring_domain ++ plain))) in
          let valid_tag =
            ap₂ (λ a b. not (verify_recovery_ring_manifest_tag mac a b)) front end
            ∙ ap not (list_eq_refl tag) in
          let total : expected_length (length es) ≡ ok n = ground arith in
          let read = ap (λ k. read_entries k 2 w) count ∙ read_entries_of 2 w tag es fits e1 in
          else_of _ _ (ground arith) (
            bind_of _ (ap expected_length count ∙ total) (
              else_of _ _ (ground arith) (
                else_of _ _ valid_tag
                  (else_of _ _ (ground arith) (bind_of _ read (guard_of _ valid refl))))))
