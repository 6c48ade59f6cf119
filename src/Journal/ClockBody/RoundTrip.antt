-- ===== src/Journal/ClockBody/RoundTrip.antt =====
-- The decoder of clock checkpoint bodies accepts what the encoder writes, and nothing else.
use msgriver.Common.{ℕ, ◌≡◌, refl, sym, ap, ◌∙◌, ◌↔◌, not, ◌||◌, List, ltb, ◌==◌, length, arith}
use msgriver.Common.Bytes.{IsBytes}
use msgriver.Journal.Wire.{
  ok, bind_ok, bind_of, guard_ok, guard_of, else_ok, else_of, ok_injective, join, byte,
}
use msgriver.Journal.Words.{read_flag_ok, read_flag_of}
use msgriver.Journal.ClockBody.{
  ClockCheckpointBody, invalid_body, Fits, validate_body, is_some, body_parts,
  encode_clock_checkpoint_body, expected_length, presence_tag, decode_clock_checkpoint_body,
}
use msgriver.Journal.ClockBody.Reading.{read_body_ok}
use msgriver.Journal.ClockBody.Writing.{read_body_of, length-body_parts}

-- On bytes, the decoder answers a body exactly where the body has the widths of its types and the
-- encoder writes that wire: what was encoded is read back, no other wire is accepted, and what is
-- read has passed the validation.
pub decode_clock_checkpoint_body_iff :
    (w : List ℕ) (body : ClockCheckpointBody)
    → IsBytes w
    → (decode_clock_checkpoint_body w ≡ ok body)
      ↔ (Fits body × (encode_clock_checkpoint_body body ≡ ok w))
unfolding decode_clock_checkpoint_body encode_clock_checkpoint_body
decode_clock_checkpoint_body_iff w body small = (sound, complete)
  where
    sound :
        decode_clock_checkpoint_body w ≡ ok body
        → Fits body × (encode_clock_checkpoint_body body ≡ ok w)
    sound h =
        let (first, h1) =
          else_ok (ltb (length w) 53 || not (byte 0 w == 1)) invalid_body _ body h in
        let (hp, e1, h2) = bind_ok _ _ body h1 in
        let (mp, e2, h3) = bind_ok _ _ body h2 in
        let (len, h4) = else_ok (not (length w == expected_length hp mp)) invalid_body _ body h3 in
        let (read, e3, h5) = bind_ok _ _ body h4 in
        let (valid, h6) = guard_ok (validate_body read) (ok read) body h5 in
        let (fits, whole) =
          read_body_ok hp mp w read small (ground arith) (ground arith) (ground arith)
            (read_flag_ok invalid_body _ hp e1) (read_flag_ok invalid_body _ mp e2) e3 in
        let same : read ≡ body = ok_injective h6 in
        rw (sym same) (fits, guard_of _ valid (ap ok (sym whole)))

    complete :
        Fits body × (encode_clock_checkpoint_body body ≡ ok w)
        → decode_clock_checkpoint_body w ≡ ok body
    complete (fits, h) =
        let (valid, h1) = guard_ok (validate_body body) (ok (join (body_parts body))) w h in
        let same : join (body_parts body) ≡ w = ok_injective h1 in
        let (b0, b51, b52, reads) = read_body_of w body fits (sym same) in
        let len = ap length (sym same) ∙ length-body_parts body fits in
        else_of _ _ (ground arith) (
          bind_of _ (ap (λ b. presence_tag b) b51 ∙ read_flag_of invalid_body (is_some body.hold)) (
            bind_of _
              (ap (λ b. presence_tag b) b52 ∙ read_flag_of invalid_body (is_some body.pre_mirror))
              (else_of _ _ (ground arith) (bind_of _ reads (guard_of _ valid refl)))))
