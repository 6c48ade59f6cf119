-- ===== src/Journal/KeyEvent/Reading.antt =====
-- What the decoder of recovery-key events has read stands in the wire.
use msgriver.Common.{
  ℕ, suc, ◌+◌, ◌^◌, ◌<◌, ◌≤◌, ◌≡◌, refl, sym, ap, ◌∙◌, Bool, true, false, Option, none, some, List,
  [], ◌∷◌, ◌++◌, leb, ◌==◌, if◌then◌else◌, length, drop, arith,
}
use msgriver.Common.Int.{ℤ, IsI64}
use msgriver.Common.Bytes.{IsBytes, be_bytes}
use msgriver.Journal.Wire.{
  Result, ok, err, ◌>>=◌, bind_ok, bind_of, then_ok, ok_injective, join, slice, byte, slice-IsBytes,
  at_byte, at_field, at_slice, within, chain, drop_all,
}
use msgriver.Journal.Words.{
  flag_byte, read_array_ok, read_array_of, read_word, read_word_ok, read_i64, read_i64_ok,
}
use msgriver.Journal.KeyEvent.{
  RecoveryKeyEventPhase, RecoveryKeyEventRetention, null, terminal, RecoveryKeyEvent,
  RecoveryKeyEventError, invalid_recovery_key_event, phase_code, phase_from_code, is_some,
  confirmation_wire, retention_wire, event_parts, get_slice, digest_at, confirmation_present,
  read_retention, expected_length, read_confirmation, read_event, retention_offset,
}

abbrev pub ConfirmationFits : Option (List ℕ) → Type 0
ConfirmationFits none = Unit
ConfirmationFits (some digest) = length digest ≡ 32

abbrev pub RetentionFits : RecoveryKeyEventRetention → Type 0
RetentionFits null = Unit
RetentionFits (terminal expires_at) = IsI64 expires_at

-- The arrays and words of an event have the widths of their Rust types.
abbrev pub EventFits : RecoveryKeyEvent → Type 0
EventFits event =
    (event.generation < 2 ^ 64)
    × (length event.command_digest ≡ 32)
    × (length event.semantic_fingerprint ≡ 32)
    × (length event.phase_fingerprint ≡ 32)
    × (length event.portable_reservation_digest ≡ 32)
    × ConfirmationFits event.key_confirmation_digest
    × RetentionFits event.retention

phase_from_code_ok :
    (c : ℕ) (p : RecoveryKeyEventPhase) → phase_from_code c ≡ ok p → c ≡ phase_code p
phase_from_code_ok c p h = ground arith

pub phase_from_code_of : (p : RecoveryKeyEventPhase) → phase_from_code (phase_code p) ≡ ok p
phase_from_code_of p = ground arith

pub confirmation_present_ok : (t : ℕ) (b : Bool) → confirmation_present t ≡ ok b → t ≡ flag_byte b
confirmation_present_ok t b h = ground arith

get_slice_ok :
    (lo hi : ℕ) (w s : List ℕ) → get_slice lo hi w ≡ ok s → (hi ≤ length w) × (slice lo hi w ≡ s)
get_slice_ok lo hi w s h =
    let (fits, k) =
      then_ok (leb hi (length w)) invalid_recovery_key_event (ok (slice lo hi w)) s h in
    (ground arith, ok_injective k)

pub get_slice_of :
    (lo hi : ℕ) (w s : List ℕ) → hi ≤ length w → slice lo hi w ≡ s → get_slice lo hi w ≡ ok s
get_slice_of lo hi w s h e =
    let whole : get_slice lo hi w ≡ ok (slice lo hi w) = ground arith in whole ∙ ap ok e

digest_at_ok :
    (at : ℕ) (w d : List ℕ) → digest_at at w ≡ ok d → (slice at (at + 32) w ≡ d) × (length d ≡ 32)
digest_at_ok at w d h =
    let (s, e1, h1) = bind_ok (get_slice at (at + 32) w) _ d h in
    let (fits, there) = get_slice_ok at (at + 32) w s e1 in
    let (same, width) = read_array_ok invalid_recovery_key_event 32 s d h1 in (there ∙ same, width)

pub digest_at_of :
    (at : ℕ) (w d : List ℕ)
    → at + 32 ≤ length w
    → slice at (at + 32) w ≡ d
    → length d ≡ 32
    → digest_at at w ≡ ok d
digest_at_of at w d h e l =
    bind_of _ (get_slice_of at (at + 32) w d h e)
      (read_array_of invalid_recovery_key_event 32 refl l)

-- The confirmation that was read stands behind its presence byte.
read_confirmation_ok :
    (present : Bool) (w : List ℕ) (c : Option (List ℕ))
    → 141 ≤ length w
    → byte 140 w ≡ flag_byte present
    → read_confirmation present w ≡ ok c
    → (is_some c ≡ present)
      × ConfirmationFits c
      × (drop 140 w ≡ confirmation_wire c ++ drop (retention_offset present) w)
read_confirmation_ok false w none long b h =
    (refl, tt, at_byte 140 w (within 140 141 w long refl) b)
read_confirmation_ok false w (some d) long b h = absurd (ground arith)
read_confirmation_ok true w c long b h =
    let (d, e, h1) = bind_ok (digest_at 141 w) _ c h in
    let (there, width) = digest_at_ok 141 w d e in
    let same : Path (Option (List ℕ)) (some d) c = ok_injective h1 in
    rw (sym same) (
      refl,
      width,
      chain (1 ∷ []) (at_byte 140 w (within 140 141 w long refl) b) (at_field 141 173 w refl there),
    )

abbrev retention_end : ℕ → RecoveryKeyEventRetention → ℕ
retention_end at null = at + 1
retention_end at (terminal expires_at) = at + 9

terminal_injective : (x z : ℤ) → terminal x ≡ terminal z → x ≡ z
terminal_injective x z h = ap (λ r. elim r [ null ↦ z | terminal y ↦ y ]) h

-- The branch of the terminal retention.
abbrev pub read_terminal : ℕ → List ℕ → Result RecoveryKeyEventError RecoveryKeyEventRetention
read_terminal at w = do
  bytes ← get_slice (at + 1) (at + 9) w
  expires_at ← read_i64 invalid_recovery_key_event bytes
  ok (terminal expires_at)

terminal_ok :
    (at : ℕ) (w : List ℕ) (z : ℤ)
    → read_retention at w ≡ ok (terminal z)
    → (byte at w ≡ 1) × (read_terminal at w ≡ ok (terminal z))
terminal_ok at w z h = split (byte at w) h
  where
    split :
        (b : ℕ)
        → (if b == 0
            then ok null
            else if b == 1
            then read_terminal at w
            else err invalid_recovery_key_event)
          ≡ ok (terminal z)
        → (b ≡ 1) × (read_terminal at w ≡ ok (terminal z))
    split b k = (ground arith, ground arith)

pub read_retention_ok :
    (at : ℕ) (w : List ℕ) (r : RecoveryKeyEventRetention)
    → IsBytes w
    → at < length w
    → read_retention at w ≡ ok r
    → RetentionFits r × (drop at w ≡ retention_wire r ++ drop (retention_end at r) w)
read_retention_ok at w null small room h =
    let zero_byte : byte at w ≡ 0 = ground arith in
    let same : suc at ≡ at + 1 = omega arith in
    (tt, at_byte at w room zero_byte ∙ ap (λ n. 0 ∷ drop n w) same)
read_retention_ok at w (terminal z) small room h =
    let (one_byte, h1) = terminal_ok at w z h in
    let (s, e1, h2) = bind_ok (get_slice (at + 1) (at + 9) w) _ (terminal z) h1 in
    let (x, e2, h3) = bind_ok (read_i64 invalid_recovery_key_event s) _ (terminal z) h2 in
    let (fits, there) = get_slice_ok (at + 1) (at + 9) w s e1 in
    let (word, bounds) =
      read_i64_ok invalid_recovery_key_event (slice (at + 1) (at + 9) w) x
        (slice-IsBytes (at + 1) (at + 9) w small)
        (ap (read_i64 invalid_recovery_key_event) there ∙ e2) in
    let next : suc at ≡ at + 1 = omega arith in
    let same : terminal x ≡ terminal z = ok_injective h3 in
    rw (sym (terminal_injective x z same)) (
      bounds,
      chain (1 ∷ []) (at_byte at w room one_byte ∙ ap (λ n. 1 ∷ drop n w) next)
          (at_slice (at + 1) (at + 9) w (omega arith) word),
    )

-- The confirmation and the retention have the lengths that the decoder expects.
end_of_event :
    (present : Bool) (r : RecoveryKeyEventRetention) (w : List ℕ)
    → length w ≡ expected_length present r
    → drop (retention_end (retention_offset present) r) w ≡ []
end_of_event true null w h = drop_all 174 w (omega arith)
end_of_event true (terminal z) w h = drop_all 182 w (omega arith)
end_of_event false null w h = drop_all 142 w (omega arith)
end_of_event false (terminal z) w h = drop_all 150 w (omega arith)

-- The values that were read stand in the wire, in the order of the encoder.
pub read_event_ok :
    (present : Bool) (r : RecoveryKeyEventRetention) (w : List ℕ) (event : RecoveryKeyEvent)
    → IsBytes w
    → 141 ≤ length w
    → length w ≡ expected_length present r
    → byte 0 w ≡ 1
    → byte 1 w ≡ 1
    → byte 2 w ≡ 1
    → byte 140 w ≡ flag_byte present
    → RetentionFits r
      × (drop (retention_offset present) w
          ≡ retention_wire r ++ drop (retention_end (retention_offset present) r) w)
    → read_event present r w ≡ ok event
    → EventFits event × (w ≡ join (event_parts event))
unfolding read_event
read_event_ok present r w event small long len b0 b1 b2 b140 (fits_r, stands_r) h =
    let (s, e0, h0) = bind_ok _ _ event h in
    let (g, e1, h1) = bind_ok _ _ event h0 in
    let (command, e2, h2) = bind_ok _ _ event h1 in
    let (semantic, e3, h3) = bind_ok _ _ event h2 in
    let (phases, e4, h4) = bind_ok _ _ event h3 in
    let (portable, e5, h5) = bind_ok _ _ event h4 in
    let (confirmation, e6, h6) = bind_ok _ _ event h5 in
    let (phase, e7, h7) = bind_ok _ _ event h6 in
    let (room, there) = get_slice_ok 4 12 w s e0 in
    let (word, bound) =
      read_word_ok invalid_recovery_key_event 8 (slice 4 12 w) g (slice-IsBytes 4 12 w small)
        (ap (read_word invalid_recovery_key_event 8) there ∙ e1) in
    let (s2, l2) = digest_at_ok 12 w command e2 in
    let (s3, l3) = digest_at_ok 44 w semantic e3 in
    let (s4, l4) = digest_at_ok 76 w phases e4 in
    let (s5, l5) = digest_at_ok 108 w portable e5 in
    let (flag, l6, s6) = read_confirmation_ok present w confirmation long b140 e6 in
    let code = phase_from_code_ok (byte 3 w) phase e7 in
    let tail =
      chain (confirmation_wire confirmation) s6
        (chain (retention_wire r) stands_r (end_of_event present r w len)) in
    let digests = chain command (at_field 12 44 w refl s2) (
      chain semantic (at_field 44 76 w refl s3) (
        chain phases (at_field 76 108 w refl s4)
          (chain portable (at_field 108 140 w refl s5) tail))) in
    let whole = chain (1 ∷ []) (at_byte 0 w (within 0 141 w long refl) b0) (
      chain (1 ∷ []) (at_byte 1 w (within 1 141 w long refl) b1) (
        chain (1 ∷ []) (at_byte 2 w (within 2 141 w long refl) b2) (
          chain (phase_code phase ∷ []) (at_byte 3 w (within 3 141 w long refl) code)
            (chain (be_bytes 8 g) (at_field 4 12 w refl word) digests)))) in
    rw (sym (ok_injective h7)) ((bound, l2, l3, l4, l5, l6, fits_r), whole)
