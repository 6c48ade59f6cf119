-- ===== src/Journal/Profile/Reading.antt =====
-- What the decoder of profiles has read stands in the wire.
use mathlib.Core.Path.{ap₂}
use msgriver.Common.{
  ℕ, zero, suc, ◌+◌, ◌*◌, ◌<◌, ◌≤◌, ◌≡◌, refl, sym, ap, ◌∙◌, ◌⊎◌, inl, inr, Option, none, some,
  List, [], ◌∷◌, ◌++◌, leb, length, drop, arith,
}
use msgriver.Journal.Wire.{
  ok, bind_ok, else_ok, ok_injective, slice, byte, at_byte, at_field, within, chain, length-drop,
}
use msgriver.Journal.Words.{flag_byte, read_array, read_array_ok}
use msgriver.Journal.Profile.{
  RecoveryKeyGenerateVariant, RecoveryKeyGenerateProfile, invalid_profile, variant_code,
  variant_decode, is_some, entry_wire, Digests, keep_digest, read_digests,
}

abbrev pub DigestFits : Option (List ℕ) → Type 0
DigestFits none = Unit
DigestFits (some digest) = length digest ≡ 32

-- The digests are arrays of 32 bytes.
abbrev pub ProfileFits : RecoveryKeyGenerateProfile → Type 0
ProfileFits profile = DigestFits profile.issuance_digest × DigestFits profile.confirmation_digest

pub variant_decode_ok :
    (c : ℕ) (v : RecoveryKeyGenerateVariant) → variant_decode c ≡ ok v → c ≡ variant_code v
variant_decode_ok c v h = ground arith

pub variant_decode_of : (v : RecoveryKeyGenerateVariant) → variant_decode (variant_code v) ≡ ok v
variant_decode_of v = ground arith

abbrev pub entries : Digests → List ℕ
entries found = entry_wire 1 found.issued ++ (entry_wire 2 found.confirmed ++ [])

-- What one round of the loop has found: the first entry, behind a kind that is above the last one.
abbrev FirstEntry : ℕ → List ℕ → ℕ → Digests → Digests → Type 0
FirstEntry chunks rest previous found result =
    (kind : ℕ) × (digest : List ℕ) × (kept : Digests) × (length digest ≡ 32)
    × (previous < kind)
    × (drop 0 rest ≡ kind ∷ digest ++ drop 33 rest)
    × (keep_digest kind digest found ≡ ok kept)
    × (read_digests chunks (drop 33 rest) kind kept ≡ ok result)

round_ok :
    (chunks : ℕ) (rest : List ℕ) (previous : ℕ) (found result : Digests)
    → 33 ≤ length rest
    → read_digests (suc chunks) rest previous found ≡ ok result
    → FirstEntry chunks rest previous found result
unfolding read_digests
round_ok chunks rest previous found result long h =
    let (up, h1) = else_ok (leb (byte 0 rest) previous) invalid_profile _ result h in
    let (digest, e1, h2) = bind_ok (read_array invalid_profile 32 (slice 1 33 rest)) _ result h1 in
    let (kept, e2, h3) = bind_ok (keep_digest (byte 0 rest) digest found) _ result h2 in
    let (stands, width) = read_array_ok invalid_profile 32 (slice 1 33 rest) digest e1 in
    (
      byte 0 rest,
      digest,
      kept,
      width,
      ground arith,
      chain (byte 0 rest ∷ []) (at_byte 0 rest (within 0 33 rest long refl) refl)
          (at_field 1 33 rest refl stands),
      e2,
      h3,
    )

-- Which of the two kinds it was.
keep_digest_ok :
    (kind : ℕ) (d : List ℕ) (found kept : Digests)
    → keep_digest kind d found ≡ ok kept
    → ((kind ≡ 1) × (record { issued = some d; confirmed = found.confirmed } ≡ kept))
      ⊎ ((kind ≡ 2) × (record { issued = found.issued; confirmed = some d } ≡ kept))
keep_digest_ok kind d found kept h = ground arith

abbrev pub pair : Option (List ℕ) → Option (List ℕ) → Digests
pair i c = record { issued = i; confirmed = c }

empty_rest : (rest : List ℕ) → length rest ≡ 0 → rest ≡ []
empty_rest [] h = refl
empty_rest (x ∷ xs) h = absurd (omega arith)

-- What the loop answers: digests of 32 bytes, as many as there were entries, in the order of the
-- encoder.
abbrev pub EntriesFound : ℕ → List ℕ → Digests → Type 0
EntriesFound chunks rest result =
    DigestFits result.issued
    × DigestFits result.confirmed
    × (flag_byte (is_some result.issued) + flag_byte (is_some result.confirmed) ≡ chunks)
    × (rest ≡ entries result)

-- Behind a confirmation nothing follows.
after_confirmation :
    (chunks : ℕ) (rest : List ℕ) (found result : Digests)
    → length rest ≡ 33 * chunks
    → read_digests chunks rest 2 found ≡ ok result
    → (chunks ≡ 0) × (found ≡ result)
unfolding read_digests
after_confirmation zero rest found result len h = (refl, ok_injective h)
after_confirmation (suc n) rest found result len h =
    let (kind, d, kept, width, above, stands, e, more) =
      round_ok n rest 2 found result (omega arith) h in
    elim (keep_digest_ok kind d found kept e) [
      | inl (k, _) ↦ absurd (omega arith)
      | inr (k, _) ↦ absurd (omega arith)
    ]

-- Behind an issuance, a confirmation may follow.
after_issuance :
    (chunks : ℕ) (rest d : List ℕ) (result : Digests)
    → length rest ≡ 33 * chunks
    → read_digests chunks rest 1 (pair (some d) none) ≡ ok result
    → ((chunks ≡ 0) × (pair (some d) none ≡ result))
      ⊎ ((c : List ℕ) × (chunks ≡ 1)
          × (length c ≡ 32)
          × (pair (some d) (some c) ≡ result)
          × (rest ≡ 2 ∷ c ++ []))
unfolding read_digests
after_issuance zero rest d result len h = inl (refl, ok_injective h)
after_issuance (suc n) rest d result len h =
    let found = pair (some d) none in
    let (kind, c, kept, width, above, stands, e, more) =
      round_ok n rest 1 found result (omega arith) h in
    let size : length (drop 33 rest) ≡ 33 * n = omega (arith, length-drop 33 rest) in
    elim (keep_digest_ok kind c found kept e) [
      | inl (k, _) ↦ absurd (omega arith)
      | inr (k, same) ↦
          let next = ap (λ q. read_digests n (drop 33 rest) q kept) (sym k) ∙ more in
          let (none_left, end) = after_confirmation n (drop 33 rest) kept result size next in
          let gone = empty_rest (drop 33 rest) (omega arith) in
          inr (c, ap suc none_left, width, same ∙ end, stands ∙ ap₂ (λ q t. q ∷ c ++ t) k gone)
    ]

pub digests_ok :
    (chunks : ℕ) (rest : List ℕ) (result : Digests)
    → length rest ≡ 33 * chunks
    → read_digests chunks rest 0 (pair none none) ≡ ok result
    → EntriesFound chunks rest result
unfolding read_digests
digests_ok zero rest result len h =
    let same : pair none none ≡ result = ok_injective h in
    rw (sym same) (tt, tt, refl, empty_rest rest len)
digests_ok (suc n) rest result len h =
    let found = pair none none in
    let (kind, d, kept, width, above, stands, e, more) =
      round_ok n rest 0 found result (omega arith) h in
    let size : length (drop 33 rest) ≡ 33 * n = omega (arith, length-drop 33 rest) in
    elim (keep_digest_ok kind d found kept e) [
      | inl (k, same) ↦
          let next = ap₂ (λ q f. read_digests n (drop 33 rest) q f) (sym k) same ∙ more in
          elim (after_issuance n (drop 33 rest) d result size next) [
            | inl (none_left, end) ↦
                let gone = empty_rest (drop 33 rest) (omega arith) in
                rw (sym end)
                  (width, tt, ap suc (sym none_left), stands ∙ ap₂ (λ q t. q ∷ d ++ t) k gone)
            | inr (c, one, wide, end, tail) ↦
                rw (sym end)
                  (width, wide, ap suc (sym one), stands ∙ ap₂ (λ q t. q ∷ d ++ t) k tail)
          ]
      | inr (k, same) ↦
          let next = ap₂ (λ q f. read_digests n (drop 33 rest) q f) (sym k) same ∙ more in
          let (none_left, end) =
            after_confirmation n (drop 33 rest) (pair none (some d)) result size next in
          let gone = empty_rest (drop 33 rest) (omega arith) in
          rw (sym end) (tt, width, ap suc (sym none_left), stands ∙ ap₂ (λ q t. q ∷ d ++ t) k gone)
    ]
