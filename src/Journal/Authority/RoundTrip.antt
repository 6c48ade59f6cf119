-- ===== src/Journal/Authority/RoundTrip.antt =====
-- The decoder of clock authorities accepts what the encoder writes, and nothing else.
use mathlib.Core.List.{append_assoc}
use msgriver.Common.{
  ℕ, suc, ◌+◌, ◌*◌, ◌<◌, ◌≤◌, ◌≡◌, refl, sym, ap, ◌∙◌, ◌↔◌, Bool, true, false, not, ◌||◌, Option,
  none, some, List, [], ◌∷◌, ◌++◌, ltb, ◌==◌, length, length-append, drop, arith,
}
use msgriver.Common.Int.{ℤ}
use msgriver.Common.Bytes.{IsBytes, be_bytes, length-be_bytes}
use msgriver.Journal.Wire.{
  ok, bind_ok, bind_of, guard_ok, guard_of, else_ok, else_of, ok_injective, join, slice, byte,
  slice-IsBytes, slice_step, byte_next, at_byte, at_field, within, chain, length-join,
}
use msgriver.Journal.Words.{
  flag_byte, read_flag_ok, read_flag_of, read_array_of, read_word_of, read_i64, read_i64_ok,
  read_i64_of, i64_bytes, length-i64_bytes,
}
use msgriver.Journal.Authority.{
  ClockAuthorityHold, ClockAuthorityProjection, invalid_clock_authority_projection, is_some,
  validate_projection, expected_length, presence_tag, hold_wire, shutdown_wire, projection_parts,
  encode_clock_authority_projection, shutdown_tag_offset, read_hold, read_shutdown,
  decode_clock_authority_projection,
}
use msgriver.Journal.Authority.Reading.{
  HoldFits, TimeFits, ProjectionFits, tag_at, end_at, shutdown_tag_offset_ok,
  shutdown_tag_offset_of, read_hold_ok, read_shutdown_ok, end_of_projection,
}

read_hold_of :
    (w t : List ℕ) (hold : Option ClockAuthorityHold)
    → HoldFits hold
    → drop 9 w ≡ hold_wire hold ++ t
    → (byte 9 w ≡ flag_byte (is_some hold))
      × (read_hold (is_some hold) w ≡ ok hold)
      × (drop (tag_at (is_some hold)) w ≡ t)
read_hold_of w t none fits e = let (b, e1) = byte_next 9 w e in (b, refl, e1)
read_hold_of w t (some hold) fits e =
    let g = be_bytes 8 hold.generation in
    let d = hold.observation_digest in
    let (b, e1) = byte_next 9 w e in
    let (s1, e2) =
      slice_step 10 18 w g (d ++ t) (e1 ∙ append_assoc g d t)
        (ap (λ n. 10 + n) (length-be_bytes 8 hold.generation)) in
    let (s2, e3) = slice_step 18 50 w d t e2 (ap (λ n. 18 + n) fits.1) in
    (
      b,
      bind_of _ (read_word_of invalid_clock_authority_projection 8 hold.generation s1 fits.0)
          (bind_of _ (read_array_of invalid_clock_authority_projection 32 s2 fits.1) refl),
      e3,
    )

read_shutdown_of :
    (at : ℕ) (w : List ℕ) (z : Option ℤ)
    → TimeFits z
    → drop at w ≡ shutdown_wire z ++ []
    → (byte at w ≡ flag_byte (is_some z)) × (read_shutdown (is_some z) at w ≡ ok z)
read_shutdown_of at w none fits e = let (b, e1) = byte_next at w e in (b, refl)
read_shutdown_of at w (some z) fits e =
    let (b, e1) = byte_next at w e in
    let next : suc at ≡ at + 1 = omega arith in
    let width : at + 1 + length (i64_bytes z) ≡ at + 9 = omega (arith, length-i64_bytes z) in
    let (s, e2) =
      slice_step (at + 1) (at + 9) w (i64_bytes z) [] (ap (λ n. drop n w) (sym next) ∙ e1) width in
    (b, bind_of _ (read_i64_of invalid_clock_authority_projection z s fits) refl)

length-hold_wire :
    (hold : Option ClockAuthorityHold)
    → HoldFits hold
    → length (hold_wire hold) ≡ 1 + flag_byte (is_some hold) * 40
length-hold_wire none fits = refl
length-hold_wire (some hold) fits =
    let g = be_bytes 8 hold.generation in
    omega
      (arith, fits.1, length-be_bytes 8 hold.generation, length-append g hold.observation_digest)

length-shutdown_wire : (z : Option ℤ) → length (shutdown_wire z) ≡ 1 + flag_byte (is_some z) * 8
length-shutdown_wire none = refl
length-shutdown_wire (some z) = omega (arith, length-i64_bytes z)

length-projection_parts :
    (p : ClockAuthorityProjection)
    → ProjectionFits p
    → length (join (projection_parts p))
      ≡ expected_length (is_some p.hold) (is_some p.last_shutdown_observation)
length-projection_parts p (i, fits, times) =
    length-join (projection_parts p)
      (1
        ∷ 8
        ∷ (1 + flag_byte (is_some p.hold) * 40)
        ∷ (1 + flag_byte (is_some p.last_shutdown_observation) * 8)
        ∷ [])
      (
        refl,
        (
          length-i64_bytes p.safe_time,
          (length-hold_wire p.hold fits, (length-shutdown_wire p.last_shutdown_observation, tt)),
        ),
      )
    ∙ omega arith

tag_room : (hp sp : Bool) (w : List ℕ) → length w ≡ expected_length hp sp → tag_at hp < length w
tag_room true sp w h = omega arith
tag_room false sp w h = omega arith

-- On bytes, the decoder answers a projection exactly where the projection has the widths of its types
-- and the encoder writes that wire: what was encoded is read back, no other wire is accepted, and
-- what is read has passed the validation.
pub decode_clock_authority_projection_iff :
    (w : List ℕ) (p : ClockAuthorityProjection)
    → IsBytes w
    → (decode_clock_authority_projection w ≡ ok p)
      ↔ (ProjectionFits p × (encode_clock_authority_projection p ≡ ok w))
unfolding decode_clock_authority_projection encode_clock_authority_projection
decode_clock_authority_projection_iff w p small = (sound, complete)
  where
    sound :
        decode_clock_authority_projection w ≡ ok p
        → ProjectionFits p × (encode_clock_authority_projection p ≡ ok w)
    sound h =
        let (first, h1) =
          else_ok (ltb (length w) 11 || not (byte 0 w == 1)) invalid_clock_authority_projection _ p
            h in
        let (hp, e1, h2) = bind_ok (presence_tag (byte 9 w)) _ p h1 in
        let (at, e2, h3) = bind_ok (shutdown_tag_offset hp w) _ p h2 in
        let (sp, e3, h4) = bind_ok (presence_tag (byte at w)) _ p h3 in
        let (len, h5) =
          else_ok (not (length w == expected_length hp sp)) invalid_clock_authority_projection _ p
            h4 in
        let (safe, e5, h6) =
          bind_ok (read_i64 invalid_clock_authority_projection (slice 1 9 w)) _ p h5 in
        let (hold, e6, h7) = bind_ok (read_hold hp w) _ p h6 in
        let (shutdown, e7, h8) = bind_ok (read_shutdown sp at w) _ p h7 in
        let read : ClockAuthorityProjection = record {
          safe_time = safe;
          hold = hold;
          last_shutdown_observation = shutdown;
        } in
        let (valid, h9) = guard_ok (validate_projection read) (ok read) p h8 in
        let same : read ≡ p = ok_injective h9 in
        let long : 11 ≤ length w = ground arith in
        let first_byte : byte 0 w ≡ 1 = ground arith in
        let whole_length : length w ≡ expected_length hp sp = ground arith in
        let (place, room) = shutdown_tag_offset_ok hp w at long e2 in
        let (s5, i5) =
          read_i64_ok invalid_clock_authority_projection (slice 1 9 w) safe
            (slice-IsBytes 1 9 w small) e5 in
        let (fits6, s6) =
          read_hold_ok hp w hold small long
            (read_flag_ok invalid_clock_authority_projection _ hp e1) e6 in
        let (fits7, s7) =
          read_shutdown_ok sp at w shutdown small (rw (sym place) room)
            (read_flag_ok invalid_clock_authority_projection _ sp e3) e7 in
        let end =
          ap (λ n. drop (end_at sp n) w) (sym place) ∙ end_of_projection hp sp w whole_length in
        let tail = chain (shutdown_wire shutdown) s7 end in
        let whole = chain (1 ∷ []) (at_byte 0 w (within 0 11 w long refl) first_byte) (
          chain (i64_bytes safe) (at_field 1 9 w refl s5)
            (chain (hold_wire hold) s6 (ap (λ n. drop n w) place ∙ tail))) in
        rw (sym same) ((i5, fits6, fits7), guard_of _ valid (ap ok (sym whole)))

    complete :
        ProjectionFits p × (encode_clock_authority_projection p ≡ ok w)
        → decode_clock_authority_projection w ≡ ok p
    complete (fits, h) =
        let (valid, h1) = guard_ok (validate_projection p) (ok (join (projection_parts p))) w h in
        let same : join (projection_parts p) ≡ w = ok_injective h1 in
        let len = ap length (sym same) ∙ length-projection_parts p fits in
        let hp = is_some p.hold in
        let sp = is_some p.last_shutdown_observation in
        let (b0, e0) = byte_next 0 w (sym same) in
        let (s1, e1) =
          slice_step 1 9 w (i64_bytes p.safe_time) _ e0
            (ap (λ n. 1 + n) (length-i64_bytes p.safe_time)) in
        let (b9, hold, e2) = read_hold_of w _ p.hold fits.1 e1 in
        let (b, shutdown) = read_shutdown_of (tag_at hp) w p.last_shutdown_observation fits.2 e2 in
        else_of _ _ (ground arith) (
          bind_of _ (ap presence_tag b9 ∙ read_flag_of invalid_clock_authority_projection hp) (
            bind_of _ (shutdown_tag_offset_of hp w (tag_room hp sp w len)) (
              bind_of _ (ap presence_tag b ∙ read_flag_of invalid_clock_authority_projection sp) (
                else_of _ _ (ground arith) (
                  bind_of _ (read_i64_of invalid_clock_authority_projection p.safe_time s1 fits.0)
                    (bind_of _ hold (bind_of _ shutdown (guard_of _ valid refl))))))))
