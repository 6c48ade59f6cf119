-- ===== src/Journal/KeyEvent/Writing.antt =====
-- Each part of an encoded recovery-key event is read back.
use msgriver.Common.{
  ℕ, suc, ◌+◌, ◌*◌, ◌≤◌, ◌≡◌, refl, sym, ap, ◌∙◌, Bool, true, false, not, ◌||◌, Option, none, some,
  List, [], ◌∷◌, ◌++◌, leb, ◌==◌, if◌then◌else◌, length, drop, arith,
}
use msgriver.Common.Bytes.{be_bytes, length-be_bytes}
use msgriver.Journal.Wire.{ok, err, bind_of, join, byte, slice_step, byte_next, length-join}
use msgriver.Journal.Words.{flag_byte, read_word_of, read_i64_of, i64_bytes, length-i64_bytes}
use msgriver.Journal.KeyEvent.{
  RecoveryKeyEventRetention, null, terminal, RecoveryKeyEvent, invalid_recovery_key_event,
  phase_from_code, is_some, is_terminal, confirmation_wire, retention_wire, event_parts,
  confirmation_present, read_retention, expected_length, read_confirmation, read_event,
  retention_offset, encoded_length,
}
use msgriver.Journal.KeyEvent.Reading.{
  ConfirmationFits, RetentionFits, EventFits, phase_from_code_of, get_slice_of, digest_at_of,
  read_terminal,
}

length-confirmation_wire :
    (c : Option (List ℕ))
    → ConfirmationFits c
    → length (confirmation_wire c) ≡ 1 + flag_byte (is_some c) * 32
length-confirmation_wire none fits = refl
length-confirmation_wire (some digest) fits = omega arith

length-retention_wire :
    (r : RecoveryKeyEventRetention) → length (retention_wire r) ≡ 1 + flag_byte (is_terminal r) * 8
length-retention_wire null = refl
length-retention_wire (terminal z) = omega (arith, length-i64_bytes z)

pub length-event_parts :
    (event : RecoveryKeyEvent)
    → EventFits event
    → length (join (event_parts event)) ≡ encoded_length event
length-event_parts event (bound, l2, l3, l4, l5, l6, fits) =
    length-join (event_parts event)
      (4
        ∷ 8
        ∷ 32
        ∷ 32
        ∷ 32
        ∷ 32
        ∷ (1 + flag_byte (is_some event.key_confirmation_digest) * 32)
        ∷ (1 + flag_byte (is_terminal event.retention) * 8)
        ∷ [])
      (
        refl,
        (
          length-be_bytes 8 event.generation,
          (
            l2,
            (
              l3,
              (
                l4,
                (
                  l5,
                  (
                    length-confirmation_wire event.key_confirmation_digest l6,
                    (length-retention_wire event.retention, tt),
                  ),
                ),
              ),
            ),
          ),
        ),
      )
    ∙ omega arith

pub expected-encoded_length :
    (event : RecoveryKeyEvent)
    → expected_length (is_some event.key_confirmation_digest) event.retention ≡ encoded_length event
expected-encoded_length event = split event.key_confirmation_digest event.retention
  where
    split :
        (c : Option (List ℕ)) (r : RecoveryKeyEventRetention)
        → expected_length (is_some c) r
          ≡ 142 + flag_byte (is_some c) * 32 + flag_byte (is_terminal r) * 8
    split none null = refl
    split none (terminal z) = refl
    split (some d) null = refl
    split (some d) (terminal z) = refl

read_confirmation_of :
    (w t : List ℕ) (c : Option (List ℕ))
    → 141 + flag_byte (is_some c) * 32 ≤ length w
    → ConfirmationFits c
    → drop 140 w ≡ confirmation_wire c ++ t
    → (byte 140 w ≡ flag_byte (is_some c))
      × (read_confirmation (is_some c) w ≡ ok c)
      × (drop (retention_offset (is_some c)) w ≡ t)
read_confirmation_of w t none long fits e = let (b, e1) = byte_next 140 w e in (b, refl, e1)
read_confirmation_of w t (some d) long fits e =
    let (b, e1) = byte_next 140 w e in
    let (s, e2) = slice_step 141 173 w d t e1 (ap (λ n. 141 + n) fits) in
    (b, bind_of _ (digest_at_of 141 w d long s fits) refl, e2)

read_retention_of :
    (at : ℕ) (w : List ℕ) (r : RecoveryKeyEventRetention)
    → at + length (retention_wire r) ≤ length w
    → RetentionFits r
    → drop at w ≡ retention_wire r ++ []
    → read_retention at w ≡ ok r
read_retention_of at w null long fits e = let (b, e1) = byte_next at w e in ground arith
read_retention_of at w (terminal z) long fits e =
    let (b, e1) = byte_next at w e in
    let next : suc at ≡ at + 1 = omega arith in
    let width : at + 1 + length (i64_bytes z) ≡ at + 9 = omega (arith, length-i64_bytes z) in
    let (s, e2) =
      slice_step (at + 1) (at + 9) w (i64_bytes z) [] (ap (λ n. drop n w) (sym next) ∙ e1) width in
    let room : at + 9 ≤ length w = omega (arith, length-i64_bytes z) in
    let read : read_terminal at w ≡ ok (terminal z) =
      bind_of _ (get_slice_of (at + 1) (at + 9) w (i64_bytes z) room s)
        (bind_of _ (read_i64_of invalid_recovery_key_event z refl fits) refl) in
    ap
      (λ x.
        if x == 0
        then ok null
        else if x == 1
        then read_terminal at w
        else err invalid_recovery_key_event)
      b
    ∙ read

pub confirmation_present_of : (b : Bool) → confirmation_present (flag_byte b) ≡ ok b
confirmation_present_of b = ground arith

far : (n : ℕ) (w : List ℕ) → 141 ≤ length w → leb n 141 ≡ true → n ≤ length w
far n w long h = ground arith

pub header_bytes :
    (a b c : ℕ)
    → (not (a == 1) || (not (b == 1) || not (c == 1))) ≡ false
    → (a ≡ 1) × (b ≡ 1) × (c ≡ 1)
header_bytes a b c h = (ground arith, ground arith, ground arith)

-- An encoded event has room for all its parts.
pub event_room :
    (event : RecoveryKeyEvent) (w : List ℕ)
    → length w ≡ encoded_length event
    → (141 ≤ length w)
      × (141 + flag_byte (is_some event.key_confirmation_digest) * 32 ≤ length w)
      × (retention_offset (is_some event.key_confirmation_digest)
            + length (retention_wire event.retention)
          ≤ length w)
event_room event w len =
    (omega arith, omega arith, omega (arith, length-retention_wire event.retention))

pub retention_room :
    (event : RecoveryKeyEvent) (w : List ℕ)
    → length w ≡ encoded_length event
    → leb (length w) (retention_offset (is_some event.key_confirmation_digest)) ≡ false
retention_room event w len = ground arith

-- Each part of an encoded event is read back where the decoder looks for it.
pub read_event_of :
    (w : List ℕ) (event : RecoveryKeyEvent)
    → EventFits event
    → length w ≡ encoded_length event
    → w ≡ join (event_parts event)
    → (byte 0 w ≡ 1)
      × (byte 1 w ≡ 1)
      × (byte 2 w ≡ 1)
      × (byte 140 w ≡ flag_byte (is_some event.key_confirmation_digest))
      × (read_retention (retention_offset (is_some event.key_confirmation_digest)) w
          ≡ ok event.retention)
      × (read_event (is_some event.key_confirmation_digest) event.retention w ≡ ok event)
unfolding read_event
read_event_of w event (bound, l2, l3, l4, l5, l6, fits) len e =
    let c = event.key_confirmation_digest in
    let (b0, e0) = byte_next 0 w e in
    let (b1, e1) = byte_next 1 w e0 in
    let (b2, e2) = byte_next 2 w e1 in
    let (b3, e3) = byte_next 3 w e2 in
    let (s4, e4) =
      slice_step 4 12 w (be_bytes 8 event.generation) _ e3
        (ap (λ n. 4 + n) (length-be_bytes 8 event.generation)) in
    let (s5, e5) = slice_step 12 44 w event.command_digest _ e4 (ap (λ n. 12 + n) l2) in
    let (s6, e6) = slice_step 44 76 w event.semantic_fingerprint _ e5 (ap (λ n. 44 + n) l3) in
    let (s7, e7) = slice_step 76 108 w event.phase_fingerprint _ e6 (ap (λ n. 76 + n) l4) in
    let (s8, e8) =
      slice_step 108 140 w event.portable_reservation_digest _ e7 (ap (λ n. 108 + n) l5) in
    let (long, room, rest) = event_room event w len in
    let (b140, confirmation, e9) = read_confirmation_of w _ c room l6 e8 in
    let retention =
      read_retention_of (retention_offset (is_some c)) w event.retention rest fits e9 in
    let reads =
      bind_of _ (get_slice_of 4 12 w (be_bytes 8 event.generation) (far 12 w long refl) s4) (
        bind_of _ (read_word_of invalid_recovery_key_event 8 event.generation refl bound) (
          bind_of _ (digest_at_of 12 w event.command_digest (far 44 w long refl) s5 l2) (
            bind_of _ (digest_at_of 44 w event.semantic_fingerprint (far 76 w long refl) s6 l3) (
              bind_of _ (digest_at_of 76 w event.phase_fingerprint (far 108 w long refl) s7 l4) (
                bind_of _
                  (digest_at_of 108 w event.portable_reservation_digest (far 140 w long refl) s8 l5)
                  (bind_of _ confirmation (
                    bind_of _ (ap phase_from_code b3 ∙ phase_from_code_of event.phase)
                      refl))))))) in
    (b0, b1, b2, b140, retention, reads)
