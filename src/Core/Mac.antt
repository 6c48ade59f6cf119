-- ===== src/Core/Mac.antt =====
-- The key-isolating MAC boundary (the types and `authenticate_idempotency` of
-- crates/msgriver-core/src/canon.rs). The provider holds the keys and is outside the core: it is a
-- parameter.
pub mod Framing
use msgriver.Common.{
  ℕ, ◌≡◌, ◌^◌, Bool, true, false, not, List, [], ◌∷◌, ◌++◌, ltb, ◌==◌, ◌&&◌, if◌then◌else◌, length,
  list_eq,
}
use msgriver.Common.Bytes.{be_bytes, IsBytes}

pub data MacPurpose : Type 0 where
  api_key_verify idempotency_lookup idempotency_fingerprint replay_lookup : MacPurpose
  replay_fingerprint command_lookup command_semantic_fingerprint : MacPurpose
  command_phase_fingerprint retry_jitter artifact_internal_auth portable_reservation : MacPurpose

-- The wire values.
abbrev pub code : MacPurpose → ℕ
code api_key_verify = 0x01
code idempotency_lookup = 0x02
code idempotency_fingerprint = 0x03
code replay_lookup = 0x04
code replay_fingerprint = 0x05
code command_lookup = 0x06
code command_semantic_fingerprint = 0x07
code command_phase_fingerprint = 0x08
code retry_jitter = 0x09
code artifact_internal_auth = 0x0a
code portable_reservation = 0x0b

-- Forty bytes.
pub record MacKeyId : Type 0 where
  pub bytes : List ℕ

pub record MacKeyRef : Type 0 where
  pub purpose : MacPurpose
  pub key_id : MacKeyId

-- Thirty-two bytes.
pub record MacTag : Type 0 where
  pub bytes : List ℕ
  pub sized : (length bytes ≡ 32) × IsBytes bytes

pub record VersionedTag : Type 0 where
  pub key : MacKeyRef
  pub tag : MacTag

pub data MacProviderError : Type 0 where
  purpose_mismatch input_too_long returned_mismatched_key unavailable : MacProviderError

pub data MacResult (A : Type 0) : Type 0 where
  ok : A → MacResult A
  err : MacProviderError → MacResult A

infixl 5 ◌>>=◌
abbrev pub ◌>>=◌ : {A B : Type 0} → MacResult A → (A → MacResult B) → MacResult B
ok x >>= next = next x
err e >>= next = err e

abbrev pub same_purpose : MacPurpose → MacPurpose → Bool
same_purpose a b = code a == code b

abbrev pub same_ref : MacKeyRef → MacKeyRef → Bool
same_ref a b = same_purpose a.purpose b.purpose && list_eq a.key_id.bytes b.key_id.bytes

abbrev pub fingerprint_domain : List ℕ
fingerprint_domain =
    b'm' ∷ b's' ∷ b'g' ∷ b'r' ∷ b'i' ∷ b'v' ∷ b'e' ∷ b'r' ∷ b'-' ∷ b'i' ∷ b'd' ∷ b'e' ∷ b'm' ∷ b'p'
    ∷ b'o' ∷ b't' ∷ b'e' ∷ b'n' ∷ b'c' ∷ b'y' ∷ b'-' ∷ b'f' ∷ b'i' ∷ b'n' ∷ b'g' ∷ b'e' ∷ b'r'
    ∷ b'p' ∷ b'r' ∷ b'i' ∷ b'n' ∷ b't' ∷ b'-' ∷ b'v' ∷ b'1' ∷ 0 ∷ []

abbrev pub lookup_domain : List ℕ
lookup_domain =
    b'm' ∷ b's' ∷ b'g' ∷ b'r' ∷ b'i' ∷ b'v' ∷ b'e' ∷ b'r' ∷ b'-' ∷ b'i' ∷ b'd' ∷ b'e' ∷ b'm' ∷ b'p'
    ∷ b'o' ∷ b't' ∷ b'e' ∷ b'n' ∷ b'c' ∷ b'y' ∷ b'-' ∷ b'l' ∷ b'o' ∷ b'o' ∷ b'k' ∷ b'u' ∷ b'p'
    ∷ b'-' ∷ b'v' ∷ b'1' ∷ 0 ∷ []

abbrev pub behind_length : List ℕ → MacResult (List ℕ) → MacResult (List ℕ)
behind_length part later = later >>= λ rest. ok (be_bytes 4 (length part) ++ (part ++ rest))

-- The loop over the parts: each behind its length as four bytes.
unfoldable pub framed_parts : List (List ℕ) → MacResult (List ℕ)
framed_parts [] = ok []
framed_parts (part ∷ parts) =
    let later = framed_parts parts in
    if ltb (length part) (2 ^ 32) then behind_length part later else err input_too_long

-- What the provider is given.
unfoldable pub mac_input : List ℕ → MacKeyRef → List (List ℕ) → MacResult (List ℕ)
mac_input domain key parts =
    framed_parts parts >>= λ framed. ok (domain ++ (key.key_id.bytes ++ framed))

module _ (provider : MacKeyRef → List ℕ → MacResult VersionedTag) where
  unfoldable pub authenticate_idempotency :
      MacKeyRef → MacPurpose → List ℕ → List (List ℕ) → MacResult VersionedTag
  authenticate_idempotency key expected_purpose domain parts =
      if not (same_purpose key.purpose expected_purpose) then err purpose_mismatch else (do
        input ← mac_input domain key parts
        result ← provider key input
        if not (same_ref result.key key) then err returned_mismatched_key else ok result)

  unfoldable pub semantic_fingerprint : MacKeyRef → List ℕ → MacResult VersionedTag
  semantic_fingerprint key canonical =
      authenticate_idempotency key idempotency_fingerprint fingerprint_domain (canonical ∷ [])

  unfoldable pub lookup_digest : MacKeyRef → List ℕ → List ℕ → MacResult VersionedTag
  lookup_digest key principal idempotency_key =
      authenticate_idempotency key idempotency_lookup lookup_domain
        (principal ∷ idempotency_key ∷ [])
