-- ===== src/Journal/Profile/RoundTrip.antt =====
-- The decoder of profiles accepts what the encoder writes, and nothing else.
use mathlib.Core.Path.{ap₂}
use msgriver.Common.{
  ℕ, suc, ◌+◌, ◌*◌, ◌<◌, ◌≤◌, ◌≡◌, refl, sym, ap, ◌∙◌, ◌↔◌, not, ◌||◌, Option, none, some, List, [],
  ◌∷◌, ◌++◌, ltb, ◌==◌, length, length-append, drop, arith,
}
use msgriver.Journal.Wire.{
  ok, bind_ok, bind_of, else_ok, else_of, ok_injective, byte, slice_step, byte_next, at_byte,
  within, chain, length-drop,
}
use msgriver.Journal.Words.{flag_byte, read_array_of}
use msgriver.Journal.Profile.{
  RecoveryKeyGenerateProfile, invalid_profile, variant_code, variant_decode, is_some, count_of,
  encode_recovery_key_generate_profile, Digests, keep_digest, read_digests,
  decode_recovery_key_generate_profile,
}
use msgriver.Journal.Profile.Reading.{
  DigestFits, ProfileFits, variant_decode_ok, variant_decode_of, entries, pair, digests_ok,
}

round_of :
    (chunks kind previous : ℕ) (d t : List ℕ) (found kept result : Digests)
    → previous < kind
    → length d ≡ 32
    → keep_digest kind d found ≡ ok kept
    → read_digests chunks t kind kept ≡ ok result
    → read_digests (suc chunks) (kind ∷ d ++ t) previous found ≡ ok result
unfolding read_digests
round_of chunks kind previous d t found kept result above width e more =
    let rest : List ℕ = kind ∷ d ++ t in
    let (b, e0) = byte_next 0 rest refl in
    let (s, e1) = slice_step 1 33 rest d t e0 (ap (λ n. 1 + n) width) in
    else_of _ _ (ground arith) (
      bind_of _ (read_array_of invalid_profile 32 s width) (
        bind_of _ (ap (λ q. keep_digest q d found) b ∙ e)
          (ap₂ (λ r q. read_digests chunks r q kept) e1 b ∙ more)))

digests_of :
    (i c : Option (List ℕ))
    → DigestFits i
    → DigestFits c
    → read_digests
        (flag_byte (is_some i) + flag_byte (is_some c))
        (entries (pair i c))
        0
        (pair none none)
      ≡ ok (pair i c)
unfolding read_digests
digests_of none none fi fc = refl
digests_of (some d) none fi fc = round_of 0 1 0 d [] _ _ _ (omega arith) fi refl refl
digests_of none (some d) fi fc = round_of 0 2 0 d [] _ _ _ (omega arith) fc refl refl
digests_of (some d) (some c) fi fc =
    round_of 1 1 0 d (2 ∷ c ++ []) _ (pair (some d) none) _ (omega arith) fi refl
      (round_of 0 2 1 c [] (pair (some d) none) _ _ (omega arith) fc refl refl)

length-entries :
    (i c : Option (List ℕ))
    → DigestFits i
    → DigestFits c
    → length (entries (pair i c)) ≡ 33 * (flag_byte (is_some i) + flag_byte (is_some c))
length-entries none none fi fc = refl
length-entries (some d) none fi fc = omega (arith, length-append d [])
length-entries none (some d) fi fc = omega (arith, length-append d [])
length-entries (some d) (some c) fi fc =
    omega (arith, length-append d (2 ∷ c ++ []), length-append c [])

few : (p : RecoveryKeyGenerateProfile) → count_of p ≤ 2
few p = ground arith

-- The decoder answers a profile exactly where its digests have 32 bytes and the encoder writes that
-- wire: what was encoded is read back, and no other wire is accepted, neither one in another order of
-- the digests nor one with a digest twice.
pub decode_recovery_key_generate_profile_iff :
    (w : List ℕ) (p : RecoveryKeyGenerateProfile)
    → (decode_recovery_key_generate_profile w ≡ ok p)
      ↔ (ProfileFits p × (encode_recovery_key_generate_profile p ≡ w))
unfolding decode_recovery_key_generate_profile encode_recovery_key_generate_profile
decode_recovery_key_generate_profile_iff w p = (sound, complete)
  where
    sound :
        decode_recovery_key_generate_profile w ≡ ok p
        → ProfileFits p × (encode_recovery_key_generate_profile p ≡ w)
    sound h =
        let (first, h1) = else_ok (ltb (length w) 3 || not (byte 0 w == 1)) invalid_profile _ p h in
        let (variant, e1, h2) = bind_ok (variant_decode (byte 1 w)) _ p h1 in
        let (size, h3) =
          else_ok (ltb 2 (byte 2 w) || not (length w == 3 + 33 * byte 2 w)) invalid_profile _ p
            h2 in
        let (found, e2, h4) =
          bind_ok (read_digests (byte 2 w) (drop 3 w) 0 (pair none none)) _ p h3 in
        let read : RecoveryKeyGenerateProfile = record {
          variant = variant;
          issuance_digest = found.issued;
          confirmation_digest = found.confirmed;
        } in
        let same : read ≡ p = ok_injective h4 in
        let len : length w ≡ 3 + 33 * byte 2 w = ground arith in
        let head : byte 0 w ≡ 1 = ground arith in
        let rest_size : length (drop 3 w) ≡ 33 * byte 2 w = omega (arith, length-drop 3 w) in
        let (fi, fc, count, rest) = digests_ok (byte 2 w) (drop 3 w) found rest_size e2 in
        let long : 3 ≤ length w = omega arith in
        let whole = chain (1 ∷ []) (at_byte 0 w (within 0 3 w long refl) head) (
          chain (variant_code variant ∷ [])
            (at_byte 1 w (within 1 3 w long refl) (variant_decode_ok (byte 1 w) variant e1))
            (chain (count_of read ∷ []) (at_byte 2 w (within 2 3 w long refl) (sym count)) rest)) in
        rw (sym same) ((fi, fc), sym whole)

    complete :
        ProfileFits p × (encode_recovery_key_generate_profile p ≡ w)
        → decode_recovery_key_generate_profile w ≡ ok p
    complete ((fi, fc), e) =
        let i = p.issuance_digest in
        let c = p.confirmation_digest in
        let (b0, e0) = byte_next 0 w (sym e) in
        let (b1, e1) = byte_next 1 w e0 in
        let (b2, e2) = byte_next 2 w e1 in
        let total = length-entries i c fi fc in
        let long : length w ≡ 3 + 33 * count_of p = ap length (sym e) ∙ omega arith in
        let small = few p in
        let reads = ap₂ (λ n r. read_digests n r 0 (pair none none)) b2 e2 ∙ digests_of i c fi fc in
        else_of _ _ (ground arith) (
          bind_of _ (ap variant_decode b1 ∙ variant_decode_of p.variant)
            (else_of _ _ (ground arith) (bind_of _ reads refl)))
