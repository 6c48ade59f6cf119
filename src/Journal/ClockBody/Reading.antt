-- ===== src/Journal/ClockBody/Reading.antt =====
-- What the decoder of clock checkpoint bodies has read stands in the wire.
use mathlib.Core.List.{append_assoc}
use msgriver.Common.{
  ℕ, ◌+◌, ◌≤◌, ◌≡◌, refl, sym, ap, ◌∙◌, Bool, true, false, Option, none, some, List, [], ◌∷◌, ◌++◌,
  length, drop, arith,
}
use msgriver.Common.Bytes.{IsBytes, be_bytes}
use msgriver.Journal.Wire.{
  ok, bind_ok, ok_injective, join, byte, slice-IsBytes, at_byte, at_slice, at_field, within, chain,
  drop_all,
}
use msgriver.Journal.Words.{flag_byte, read_array_ok, read_word_ok, read_i64_ok}
use msgriver.Journal.ClockBody.{
  RuntimeMode, normal, maintenance, CheckpointReason, periodic, automatic_settlement,
  clean_shutdown, expiry_proof, NamedHold, PreMirrorWitness, ClockCheckpointBody, invalid_body,
  mode_code, mode_from_code, reason_code, reason_from_code, HoldFits, MirrorFits, Fits, is_some,
  hold_wire, mirror_wire, body_parts, expected_length, hold_end, read_hold, read_mirror, read_body,
}

mode_from_code_ok : (c : ℕ) (m : RuntimeMode) → mode_from_code c ≡ ok m → c ≡ mode_code m
mode_from_code_ok c normal h = ground arith
mode_from_code_ok c maintenance h = ground arith

pub mode_from_code_of : (m : RuntimeMode) → mode_from_code (mode_code m) ≡ ok m
mode_from_code_of normal = refl
mode_from_code_of maintenance = refl

reason_from_code_ok : (c : ℕ) (r : CheckpointReason) → reason_from_code c ≡ ok r → c ≡ reason_code r
reason_from_code_ok c periodic h = ground arith
reason_from_code_ok c automatic_settlement h = ground arith
reason_from_code_ok c clean_shutdown h = ground arith
reason_from_code_ok c expiry_proof h = ground arith

pub reason_from_code_of : (r : CheckpointReason) → reason_from_code (reason_code r) ≡ ok r
reason_from_code_of periodic = refl
reason_from_code_of automatic_settlement = refl
reason_from_code_of clean_shutdown = refl
reason_from_code_of expiry_proof = refl

abbrev mirror_end : Bool → ℕ → ℕ
mirror_end true offset = offset + 72
mirror_end false offset = offset

length-ends : (hp mp : Bool) → expected_length hp mp ≡ mirror_end mp (hold_end hp 53)
length-ends true true = refl
length-ends true false = refl
length-ends false true = refl
length-ends false false = refl

read_hold_ok :
    (hp : Bool) (at : ℕ) (w : List ℕ) (hold : Option NamedHold)
    → IsBytes w
    → read_hold hp at w ≡ ok hold
    → (hp ≡ is_some hold) × HoldFits hold × (drop at w ≡ hold_wire hold ++ drop (hold_end hp at) w)
unfolding read_hold
read_hold_ok false at w none small h = (refl, tt, refl)
read_hold_ok false at w (some hold) small h = absurd (ground arith)
read_hold_ok true at w hold small h =
    let (g, e1, h1) = bind_ok _ _ hold h in
    let (d, e2, h2) = bind_ok _ _ hold h1 in
    let (s1, small_g) = read_word_ok invalid_body 8 _ g (slice-IsBytes at (at + 8) w small) e1 in
    let (s2, width) = read_array_ok invalid_body 32 _ d e2 in
    let stands =
      chain (be_bytes 8 g) (at_slice at (at + 8) w (omega arith) s1)
        (at_slice (at + 8) (at + 40) w (omega arith) s2) in
    rw (sym (ok_injective h2))
      (refl, (small_g, width), stands ∙ sym (append_assoc (be_bytes 8 g) d (drop (at + 40) w)))

read_mirror_ok :
    (mp : Bool) (at : ℕ) (w : List ℕ) (mirror : Option PreMirrorWitness)
    → IsBytes w
    → read_mirror mp at w ≡ ok mirror
    → (mp ≡ is_some mirror)
      × MirrorFits mirror
      × (drop at w ≡ mirror_wire mirror ++ drop (mirror_end mp at) w)
unfolding read_mirror
read_mirror_ok false at w none small h = (refl, tt, refl)
read_mirror_ok false at w (some mirror) small h = absurd (ground arith)
read_mirror_ok true at w mirror small h =
    let (o, e1, h1) = bind_ok _ _ mirror h in
    let (n, e2, h2) = bind_ok _ _ mirror h1 in
    let (d, e3, h3) = bind_ok _ _ mirror h2 in
    let (s1, width_o) = read_array_ok invalid_body 32 _ o e1 in
    let (s2, small_n) =
      read_word_ok invalid_body 8 _ n (slice-IsBytes (at + 32) (at + 40) w small) e2 in
    let (s3, width_d) = read_array_ok invalid_body 32 _ d e3 in
    let stands = chain o (at_slice at (at + 32) w (omega arith) s1) (
      chain (be_bytes 8 n) (at_slice (at + 32) (at + 40) w (omega arith) s2)
        (at_slice (at + 40) (at + 72) w (omega arith) s3)) in
    let whole = sym (
      append_assoc o (be_bytes 8 n ++ d) (drop (at + 72) w)
      ∙ ap (λ t. o ++ t) (append_assoc (be_bytes 8 n) d (drop (at + 72) w))) in
    rw (sym (ok_injective h3)) (refl, (width_o, small_n, width_d), stands ∙ whole)

body_end :
    (hp mp : Bool) (w : List ℕ)
    → length w ≡ expected_length hp mp
    → drop (mirror_end mp (hold_end hp 53)) w ≡ []
body_end hp mp w len =
    drop_all (mirror_end mp (hold_end hp 53)) w (omega (arith, length-ends hp mp))

-- The values that were read stand in the wire, in the order of the encoder.
pub read_body_ok :
    (hp mp : Bool) (w : List ℕ) (body : ClockCheckpointBody)
    → IsBytes w
    → 53 ≤ length w
    → length w ≡ expected_length hp mp
    → byte 0 w ≡ 1
    → byte 51 w ≡ flag_byte hp
    → byte 52 w ≡ flag_byte mp
    → read_body hp mp w ≡ ok body
    → Fits body × (w ≡ join (body_parts body))
unfolding read_body
read_body_ok hp mp w body small long len b0 b51 b52 h =
    let (mode, e1, h1) = bind_ok _ _ body h in
    let (instance_, e2, h2) = bind_ok _ _ body h1 in
    let (wall, e3, h3) = bind_ok _ _ body h2 in
    let (tick, e4, h4) = bind_ok _ _ body h3 in
    let (prior, e5, h5) = bind_ok _ _ body h4 in
    let (new, e6, h6) = bind_ok _ _ body h5 in
    let (reason, e7, h7) = bind_ok _ _ body h6 in
    let (hold, e8, h8) = bind_ok _ _ body h7 in
    let (mirror, e9, h9) = bind_ok _ _ body h8 in
    let (s2, width) = read_array_ok invalid_body 16 _ instance_ e2 in
    let (s3, i3) = read_i64_ok invalid_body _ wall (slice-IsBytes 18 26 w small) e3 in
    let (s4, i4) = read_i64_ok invalid_body _ tick (slice-IsBytes 26 34 w small) e4 in
    let (s5, i5) = read_i64_ok invalid_body _ prior (slice-IsBytes 34 42 w small) e5 in
    let (s6, i6) = read_i64_ok invalid_body _ new (slice-IsBytes 42 50 w small) e6 in
    let (f8, fits8, d8) = read_hold_ok hp 53 w hold small e8 in
    let (f9, fits9, d9) = read_mirror_ok mp (hold_end hp 53) w mirror small e9 in
    let end = body_end hp mp w len in
    let tags =
      chain (flag_byte (is_some hold) ∷ [])
        (at_byte 51 w (within 51 53 w long refl) (b51 ∙ ap flag_byte f8))
        (chain (flag_byte (is_some mirror) ∷ [])
          (at_byte 52 w (within 52 53 w long refl) (b52 ∙ ap flag_byte f9))
          (chain (hold_wire hold) d8 (chain (mirror_wire mirror) d9 end))) in
    let times = chain _ (at_field 18 26 w refl s3) (
      chain _ (at_field 26 34 w refl s4) (
        chain _ (at_field 34 42 w refl s5) (
          chain _ (at_field 42 50 w refl s6) (
            chain (reason_code reason ∷ [])
              (at_byte 50 w (within 50 53 w long refl) (reason_from_code_ok _ reason e7))
              tags)))) in
    let whole = chain (1 ∷ []) (at_byte 0 w (within 0 53 w long refl) b0) (
      chain (mode_code mode ∷ [])
        (at_byte 1 w (within 1 53 w long refl) (mode_from_code_ok _ mode e1))
        (chain instance_ (at_field 2 18 w refl s2) times)) in
    rw (sym (ok_injective h9)) ((width, i3, i4, i5, i6, fits8, fits9), whole)
