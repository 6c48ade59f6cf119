-- ===== src/Journal/Authority/Reading.antt =====
-- What the decoder of clock authorities has read stands in the wire.
use mathlib.Core.List.{append_assoc}
use msgriver.Common.{
  ℕ, suc, ◌+◌, ◌^◌, ◌<◌, ◌≤◌, ◌≡◌, refl, sym, ap, ◌∙◌, Bool, true, false, Option, none, some, List,
  [], ◌∷◌, ◌++◌, ltb, length, drop, arith,
}
use msgriver.Common.Int.{ℤ, IsI64}
use msgriver.Common.Bytes.{IsBytes, be_bytes}
use msgriver.Journal.Wire.{
  ok, bind_ok, else_ok, ok_injective, slice, byte, slice-IsBytes, at_byte, at_field, at_slice,
  within, chain, drop_all,
}
use msgriver.Journal.Words.{
  flag_byte, read_array, read_array_ok, read_word, read_word_ok, read_i64, read_i64_ok,
}
use msgriver.Journal.Authority.{
  ClockAuthorityHold, ClockAuthorityProjection, invalid_clock_authority_projection, expected_length,
  hold_wire, shutdown_wire, shutdown_tag_offset, read_hold, read_shutdown,
}

abbrev pub HoldFits : Option ClockAuthorityHold → Type 0
HoldFits none = Unit
HoldFits (some hold) = (hold.generation < 2 ^ 64) × (length hold.observation_digest ≡ 32)

abbrev pub TimeFits : Option ℤ → Type 0
TimeFits none = Unit
TimeFits (some z) = IsI64 z

-- The words of a projection have the widths of their Rust types.
abbrev pub ProjectionFits : ClockAuthorityProjection → Type 0
ProjectionFits projection =
    IsI64 projection.safe_time
    × HoldFits projection.hold
    × TimeFits projection.last_shutdown_observation

-- Where the second presence byte stands, and where the wire ends.
abbrev pub tag_at : Bool → ℕ
tag_at true = 50
tag_at false = 10

abbrev pub end_at : Bool → ℕ → ℕ
end_at true at = at + 9
end_at false at = at + 1

pub shutdown_tag_offset_ok :
    (hp : Bool) (w : List ℕ) (o : ℕ)
    → 11 ≤ length w
    → shutdown_tag_offset hp w ≡ ok o
    → (tag_at hp ≡ o) × (tag_at hp < length w)
shutdown_tag_offset_ok true w o long h =
    let (room, k) = else_ok (ltb (length w) 51) invalid_clock_authority_projection (ok 50) o h in
    (ok_injective k, ground arith)
shutdown_tag_offset_ok false w o long h = (ok_injective h, omega arith)

pub shutdown_tag_offset_of :
    (hp : Bool) (w : List ℕ) → tag_at hp < length w → shutdown_tag_offset hp w ≡ ok (tag_at hp)
shutdown_tag_offset_of true w h = ground arith
shutdown_tag_offset_of false w h = refl

pub read_hold_ok :
    (hp : Bool) (w : List ℕ) (hold : Option ClockAuthorityHold)
    → IsBytes w
    → 11 ≤ length w
    → byte 9 w ≡ flag_byte hp
    → read_hold hp w ≡ ok hold
    → HoldFits hold × (drop 9 w ≡ hold_wire hold ++ drop (tag_at hp) w)
read_hold_ok false w none small long b h = (tt, at_byte 9 w (within 9 11 w long refl) b)
read_hold_ok false w (some x) small long b h = absurd (ground arith)
read_hold_ok true w hold small long b h =
    let (g, e1, h1) =
      bind_ok (read_word invalid_clock_authority_projection 8 (slice 10 18 w)) _ hold h in
    let (d, e2, h2) =
      bind_ok (read_array invalid_clock_authority_projection 32 (slice 18 50 w)) _ hold h1 in
    let (s1, bound) =
      read_word_ok invalid_clock_authority_projection 8 (slice 10 18 w) g
        (slice-IsBytes 10 18 w small) e1 in
    let (s2, width) = read_array_ok invalid_clock_authority_projection 32 (slice 18 50 w) d e2 in
    let same : Path (Option ClockAuthorityHold)
        (some (record { generation = g; observation_digest = d })) hold =
      ok_injective h2 in
    let stands = chain (be_bytes 8 g) (at_field 10 18 w refl s1) (at_field 18 50 w refl s2) in
    rw (sym same) (
      (bound, width),
      chain (1 ∷ []) (at_byte 9 w (within 9 11 w long refl) b)
          (stands ∙ sym (append_assoc (be_bytes 8 g) d (drop 50 w))),
    )

pub read_shutdown_ok :
    (sp : Bool) (at : ℕ) (w : List ℕ) (z : Option ℤ)
    → IsBytes w
    → at < length w
    → byte at w ≡ flag_byte sp
    → read_shutdown sp at w ≡ ok z
    → TimeFits z × (drop at w ≡ shutdown_wire z ++ drop (end_at sp at) w)
read_shutdown_ok false at w none small room b h =
    let next : suc at ≡ at + 1 = omega arith in
    (tt, at_byte at w room b ∙ ap (λ n. 0 ∷ drop n w) next)
read_shutdown_ok false at w (some x) small room b h = absurd (ground arith)
read_shutdown_ok true at w z small room b h =
    let bytes = slice (at + 1) (at + 9) w in
    let (x, e, h1) = bind_ok (read_i64 invalid_clock_authority_projection bytes) _ z h in
    let (word, fits) =
      read_i64_ok invalid_clock_authority_projection bytes x
        (slice-IsBytes (at + 1) (at + 9) w small) e in
    let same : Path (Option ℤ) (some x) z = ok_injective h1 in
    let next : suc at ≡ at + 1 = omega arith in
    rw (sym same) (
      fits,
      chain (1 ∷ []) (at_byte at w room b ∙ ap (λ n. 1 ∷ drop n w) next)
          (at_slice (at + 1) (at + 9) w (omega arith) word),
    )

pub end_of_projection :
    (hp sp : Bool) (w : List ℕ)
    → length w ≡ expected_length hp sp
    → drop (end_at sp (tag_at hp)) w ≡ []
end_of_projection true true w h = drop_all 59 w (omega arith)
end_of_projection true false w h = drop_all 51 w (omega arith)
end_of_projection false true w h = drop_all 19 w (omega arith)
end_of_projection false false w h = drop_all 11 w (omega arith)
