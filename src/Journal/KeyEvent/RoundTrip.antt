-- ===== src/Journal/KeyEvent/RoundTrip.antt =====
-- The decoder of recovery-key events accepts what the encoder writes, and nothing else.
use msgriver.Common.{
  ℕ, ◌<◌, ◌≡◌, refl, sym, ap, ◌∙◌, ◌↔◌, not, ◌||◌, List, ltb, leb, ◌==◌, length, arith,
}
use msgriver.Common.Bytes.{IsBytes}
use msgriver.Journal.Wire.{
  ok, bind_ok, bind_of, guard_ok, guard_of, else_ok, else_of, ok_injective, join, byte,
}
use msgriver.Journal.KeyEvent.{
  RecoveryKeyEvent, invalid_recovery_key_event, is_some, validate_event, event_parts,
  encode_recovery_key_event, confirmation_present, read_retention, expected_length, read_event,
  retention_offset, decode_recovery_key_event,
}
use msgriver.Journal.KeyEvent.Reading.{
  EventFits, confirmation_present_ok, read_retention_ok, read_event_ok,
}
use msgriver.Journal.KeyEvent.Writing.{
  length-event_parts, expected-encoded_length, confirmation_present_of, header_bytes, event_room,
  retention_room, read_event_of,
}

-- On bytes, the decoder answers an event exactly where the event has the widths of its types and the
-- encoder writes that wire: what was encoded is read back, no other wire is accepted, and what is
-- read has passed the validation.
pub decode_recovery_key_event_iff :
    (w : List ℕ) (event : RecoveryKeyEvent)
    → IsBytes w
    → (decode_recovery_key_event w ≡ ok event)
      ↔ (EventFits event × (encode_recovery_key_event event ≡ ok w))
unfolding decode_recovery_key_event encode_recovery_key_event
decode_recovery_key_event_iff w event small = (sound, complete)
  where
    sound :
        decode_recovery_key_event w ≡ ok event
        → EventFits event × (encode_recovery_key_event event ≡ ok w)
    sound h =
        let (first, h1) = else_ok (ltb (length w) 141) invalid_recovery_key_event _ event h in
        let (present, e1, h2) = bind_ok (confirmation_present (byte 140 w)) _ event h1 in
        let (second, h3) =
          else_ok (leb (length w) (retention_offset present)) invalid_recovery_key_event _ event
            h2 in
        let (r, e2, h4) = bind_ok (read_retention (retention_offset present) w) _ event h3 in
        let (third, h5) =
          else_ok (not (length w == expected_length present r)) invalid_recovery_key_event _ event
            h4 in
        let (read, e3, h6) = bind_ok (read_event present r w) _ event h5 in
        let (fourth, h7) =
          else_ok (not (byte 0 w == 1) || (not (byte 1 w == 1) || not (byte 2 w == 1)))
            invalid_recovery_key_event _ event h6 in
        let (valid, h8) = guard_ok (validate_event read) (ok read) event h7 in
        let same : read ≡ event = ok_injective h8 in
        let room : retention_offset present < length w = ground arith in
        let (b0, b1, b2) = header_bytes (byte 0 w) (byte 1 w) (byte 2 w) fourth in
        let (fits, whole) =
          read_event_ok present r w read small (ground arith) (ground arith) b0 b1 b2
            (confirmation_present_ok (byte 140 w) present e1)
            (read_retention_ok (retention_offset present) w r small room e2) e3 in
        rw (sym same) (fits, guard_of _ valid (ap ok (sym whole)))

    complete :
        EventFits event × (encode_recovery_key_event event ≡ ok w)
        → decode_recovery_key_event w ≡ ok event
    complete (fits, h) =
        let (valid, h1) = guard_ok (validate_event event) (ok (join (event_parts event))) w h in
        let same : join (event_parts event) ≡ w = ok_injective h1 in
        let len = ap length (sym same) ∙ length-event_parts event fits in
        let (b0, b1, b2, b140, retention, reads) = read_event_of w event fits len (sym same) in
        let (long, room, rest) = event_room event w len in
        let present = is_some event.key_confirmation_digest in
        let expected : length w ≡ expected_length present event.retention =
          len ∙ sym (expected-encoded_length event) in
        else_of _ _ (ground arith) (
          bind_of _ (ap confirmation_present b140 ∙ confirmation_present_of present) (
            else_of _ _ (retention_room event w len) (
              bind_of _ retention (
                else_of _ _ (ground arith)
                  (bind_of _ reads (else_of _ _ (ground arith) (guard_of _ valid refl)))))))
