-- ===== src/Journal/ClockBody/Writing.antt =====
-- Each part of an encoded clock checkpoint body is read back.
use mathlib.Core.List.{append_assoc}
use msgriver.Common.{
  ℕ, ◌+◌, ◌*◌, ◌≡◌, refl, ap, ◌∙◌, Option, none, some, List, [], ◌∷◌, ◌++◌, length, length-append,
  drop, arith,
}
use msgriver.Common.Bytes.{be_bytes, length-be_bytes}
use msgriver.Journal.Wire.{ok, bind_of, join, byte, slice_step, byte_next, length-join}
use msgriver.Journal.Words.{flag_byte, read_array_of, read_word_of, read_i64_of, length-i64_bytes}
use msgriver.Journal.ClockBody.{
  NamedHold, PreMirrorWitness, ClockCheckpointBody, invalid_body, mode_from_code, reason_from_code,
  HoldFits, MirrorFits, Fits, is_some, hold_wire, mirror_wire, body_parts, expected_length,
  hold_end, read_hold, read_mirror, read_body,
}
use msgriver.Journal.ClockBody.Reading.{mode_from_code_of, reason_from_code_of}

read_hold_of :
    (at : ℕ) (w t : List ℕ) (hold : Option NamedHold)
    → HoldFits hold
    → drop at w ≡ hold_wire hold ++ t
    → (read_hold (is_some hold) at w ≡ ok hold) × (drop (hold_end (is_some hold) at) w ≡ t)
unfolding read_hold
read_hold_of at w t none fits e = (refl, e)
read_hold_of at w t (some hold) fits e =
    let g = be_bytes 8 hold.generation in
    let d = hold.observation_digest in
    let eight = length-be_bytes 8 hold.generation in
    let (s1, e1) =
      slice_step at (at + 8) w g (d ++ t) (e ∙ append_assoc g d t) (omega (arith, eight)) in
    let (s2, e2) = slice_step (at + 8) (at + 40) w d t e1 (omega (arith, fits.1)) in
    (
      bind_of _ (read_word_of invalid_body 8 hold.generation s1 fits.0)
          (bind_of _ (read_array_of invalid_body 32 s2 fits.1) refl),
      e2,
    )

read_mirror_of :
    (at : ℕ) (w t : List ℕ) (mirror : Option PreMirrorWitness)
    → MirrorFits mirror
    → drop at w ≡ mirror_wire mirror ++ t
    → read_mirror (is_some mirror) at w ≡ ok mirror
unfolding read_mirror
read_mirror_of at w t none fits e = refl
read_mirror_of at w t (some mirror) fits e =
    let o = mirror.selected_origin in
    let n = be_bytes 8 mirror.transaction_sequence in
    let d = mirror.transaction_digest in
    let eight = length-be_bytes 8 mirror.transaction_sequence in
    let apart = append_assoc o (n ++ d) t ∙ ap (λ r. o ++ r) (append_assoc n d t) in
    let (s1, e1) =
      slice_step at (at + 32) w o (n ++ (d ++ t)) (e ∙ apart) (omega (arith, fits.0)) in
    let (s2, e2) = slice_step (at + 32) (at + 40) w n (d ++ t) e1 (omega (arith, eight)) in
    let (s3, e3) = slice_step (at + 40) (at + 72) w d t e2 (omega (arith, fits.2)) in
    bind_of _ (read_array_of invalid_body 32 s1 fits.0) (
      bind_of _ (read_word_of invalid_body 8 mirror.transaction_sequence s2 fits.1)
        (bind_of _ (read_array_of invalid_body 32 s3 fits.2) refl))

-- Each part of an encoded body is read back where the decoder looks for it.
pub read_body_of :
    (w : List ℕ) (body : ClockCheckpointBody)
    → Fits body
    → w ≡ join (body_parts body)
    → (byte 0 w ≡ 1)
      × (byte 51 w ≡ flag_byte (is_some body.hold))
      × (byte 52 w ≡ flag_byte (is_some body.pre_mirror))
      × (read_body (is_some body.hold) (is_some body.pre_mirror) w ≡ ok body)
unfolding read_body
read_body_of w body (width, i3, i4, i5, i6, fits8, fits9) e =
    let (b0, e0) = byte_next 0 w e in
    let (b1, e1) = byte_next 1 w e0 in
    let (s2, e2) = slice_step 2 18 w body.process_instance _ e1 (ap (λ n. 2 + n) width) in
    let (s3, e3) =
      slice_step 18 26 w _ _ e2 (ap (λ n. 18 + n) (length-i64_bytes body.accepted_wall_time)) in
    let (s4, e4) =
      slice_step 26 34 w _ _ e3
        (ap (λ n. 26 + n) (length-i64_bytes body.accepted_monotonic_tick)) in
    let (s5, e5) =
      slice_step 34 42 w _ _ e4 (ap (λ n. 34 + n) (length-i64_bytes body.prior_safe_time)) in
    let (s6, e6) =
      slice_step 42 50 w _ _ e5 (ap (λ n. 42 + n) (length-i64_bytes body.new_safe_time)) in
    let (b50, e7) = byte_next 50 w e6 in
    let (b51, e8) = byte_next 51 w e7 in
    let (b52, e9) = byte_next 52 w e8 in
    let (hold, e10) = read_hold_of 53 w _ body.hold fits8 e9 in
    let mirror = read_mirror_of (hold_end (is_some body.hold) 53) w [] body.pre_mirror fits9 e10 in
    let reads = bind_of _ (ap mode_from_code b1 ∙ mode_from_code_of body.runtime_mode) (
      bind_of _ (read_array_of invalid_body 16 s2 width) (
        bind_of _ (read_i64_of invalid_body body.accepted_wall_time s3 i3) (
          bind_of _ (read_i64_of invalid_body body.accepted_monotonic_tick s4 i4) (
            bind_of _ (read_i64_of invalid_body body.prior_safe_time s5 i5) (
              bind_of _ (read_i64_of invalid_body body.new_safe_time s6 i6) (
                bind_of _ (ap reason_from_code b50 ∙ reason_from_code_of body.reason)
                  (bind_of _ hold (bind_of _ mirror refl)))))))) in
    (b0, b51, b52, reads)

length-hold_wire :
    (hold : Option NamedHold)
    → HoldFits hold
    → length (hold_wire hold) ≡ flag_byte (is_some hold) * 40
length-hold_wire none fits = refl
length-hold_wire (some hold) fits =
    let g = be_bytes 8 hold.generation in
    omega
      (arith, fits.1, length-be_bytes 8 hold.generation, length-append g hold.observation_digest)

length-mirror_wire :
    (mirror : Option PreMirrorWitness)
    → MirrorFits mirror
    → length (mirror_wire mirror) ≡ flag_byte (is_some mirror) * 72
length-mirror_wire none fits = refl
length-mirror_wire (some mirror) fits =
    let n = be_bytes 8 mirror.transaction_sequence in
    let d = mirror.transaction_digest in
    omega (
      arith,
      fits.0,
      fits.2,
      length-be_bytes 8 mirror.transaction_sequence,
      length-append n d,
      length-append mirror.selected_origin (n ++ d),
    )

pub length-body_parts :
    (body : ClockCheckpointBody)
    → Fits body
    → length (join (body_parts body))
      ≡ expected_length (is_some body.hold) (is_some body.pre_mirror)
length-body_parts body (width, i3, i4, i5, i6, fits8, fits9) =
    length-join (body_parts body)
      (2
        ∷ 16
        ∷ 8
        ∷ 8
        ∷ 8
        ∷ 8
        ∷ 1
        ∷ 1
        ∷ 1
        ∷ flag_byte (is_some body.hold) * 40
        ∷ flag_byte (is_some body.pre_mirror) * 72
        ∷ [])
      (
        refl,
        (
          width,
          (
            length-i64_bytes body.accepted_wall_time,
            (
              length-i64_bytes body.accepted_monotonic_tick,
              (
                length-i64_bytes body.prior_safe_time,
                (
                  length-i64_bytes body.new_safe_time,
                  (
                    refl,
                    (
                      refl,
                      (
                        refl,
                        (
                          length-hold_wire body.hold fits8,
                          (length-mirror_wire body.pre_mirror fits9, tt),
                        ),
                      ),
                    ),
                  ),
                ),
              ),
            ),
          ),
        ),
      )
    ∙ omega arith
