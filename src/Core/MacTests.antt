-- ===== src/Core/MacTests.antt =====
-- Each theorem on the MAC boundary and the key ring at concrete values.
use msgriver.Common.{ℕ, ◌≡◌, ◌⊎◌, refl, true, false, List, [], ◌∷◌, ◌++◌, replicate}
use msgriver.Common.Bytes.{be_bytes, all-IsBytes}
use msgriver.Core.Mac.{
  MacKeyRef, VersionedTag, MacResult, framed_parts, mac_input, idempotency_lookup, lookup_domain,
  authenticate_idempotency, lookup_digest,
}
use msgriver.Core.Mac.Framing.{lookup, mac_input_separates, Collision, lookup_digest-same}
use msgriver.Core.Ring.{RotationOrder}

abbrev key : MacKeyRef
key = record { purpose = idempotency_lookup; key_id = record { bytes = replicate 40 0x11 } }

abbrev parts : List (List ℕ)
parts = (1 ∷ []) ∷ (2 ∷ 3 ∷ []) ∷ []

abbrev whole : List ℕ
whole = lookup_domain ++ (replicate 40 0x11 ++ (be_bytes 4 1 ++ (1 ∷ be_bytes 4 2 ++ (2 ∷ 3 ∷ []))))

mac_input_separates_example :
    (lookup ≡ lookup) × (key.key_id.bytes ≡ key.key_id.bytes) × (parts ≡ parts)
unfolding mac_input framed_parts
mac_input_separates_example =
    mac_input_separates lookup lookup key key parts parts whole refl refl refl refl

abbrev constant_tag : VersionedTag
constant_tag = record {
  key = key;
  tag = record { bytes = replicate 32 0xab; sized = (refl, all-IsBytes (replicate 32 0xab) refl) };
}

-- A provider that answers everything with one tag.
abbrev constant : MacKeyRef → List ℕ → MacResult VersionedTag
constant k input = MacResult.ok constant_tag

abbrev principal : List ℕ
principal = 1 ∷ []

abbrev idempotency_key : List ℕ
idempotency_key = 2 ∷ 3 ∷ []

abbrev other_key : List ℕ
other_key = 2 ∷ 4 ∷ []

lookup_digest-same_example :
    ((principal ≡ principal) × (idempotency_key ≡ other_key))
    ⊎ ((x : List ℕ) × (y : List ℕ) × (mac_input lookup_domain key (principal ∷ idempotency_key ∷ [])
          ≡ MacResult.ok x)
        × (mac_input lookup_domain key (principal ∷ other_key ∷ []) ≡ MacResult.ok y)
        × Collision constant key x y constant_tag)
unfolding lookup_digest authenticate_idempotency mac_input framed_parts
lookup_digest-same_example =
    lookup_digest-same constant key principal principal idempotency_key other_key constant_tag refl
      refl

abbrev order : RotationOrder
order = record {
  selected_origin_valid = true;
  serial_available = true;
  retained_capacity_available = false;
  checked_allocation_available = false;
  entropy_available = true;
}
