-- ===== src/Core/AllocatorTests.antt =====
-- Each theorem on generations, incarnations and the wake boundary at concrete values.
use msgriver.Common.{
  ℕ, ◌≡◌, ◌≤◌, ◌+◌, refl, ◌⊎◌, ◌↔◌, true, false, some, List, [], ◌∷◌, replicate, length,
}
use msgriver.Common.Int.{pos, ◌+ℤ◌, ◌<ℤ◌, ◌≤ℤ◌}
use msgriver.Common.Bytes.{IsBytes, be_bytes, length-be_bytes, be_bytes-IsBytes}
use msgriver.Core.Error.{ok}
use msgriver.Core.Math.{utc_add_millis}
use msgriver.Core.Retry.{DurableWakeBoundaryInput, durable_wake_boundary}
use msgriver.Core.Retry.Wake.{
  BelowOption, retry_deadline, age_deadline, durable_wake_boundary_least,
}
use msgriver.Core.Generation.{
  OwnerNamespace, BranchSerial, ResourceIncarnation, GuardedWriterSnapshot, encode_hex,
  encode_incarnation_hex, decode_incarnation_hex, decode_pairs, hex_nibble, next_branch_serial,
  u64_max,
}
use msgriver.Core.Generation.Hex.{decode_incarnation_hex-encode, encode-decode_incarnation_hex}
use msgriver.Core.Incarnation.{
  AllocatorSnapshot, burn_next_serial, AllocationIntent, AllocatorEvaluation,
}
use msgriver.Core.Incarnation.Burning.{high, Burns, descending, here, next, Burns-descending}

abbrev wake : DurableWakeBoundaryInput
wake = record {
  safe_now_millis = pos 10000;
  retry_ms = 500;
  expires_at_millis = some (pos 20000);
  created_at_millis = pos 0;
  max_delivery_age_ms = 86400000;
}

durable_wake_boundary_least_example :
    (pos 10500 ≤ℤ retry_deadline wake)
    × (pos 10500 ≤ℤ age_deadline wake)
    × BelowOption ◌≤ℤ◌ (pos 10500) wake.expires_at_millis
    × ((pos 10500 ≡ retry_deadline wake)
        ⊎ (pos 10500 ≡ age_deadline wake)
        ⊎ (some (pos 10500) ≡ wake.expires_at_millis))
    × ((true ≡ true) ↔ (
        (retry_deadline wake <ℤ age_deadline wake)
        × BelowOption ◌<ℤ◌ (retry_deadline wake) wake.expires_at_millis))
unfolding durable_wake_boundary utc_add_millis ◌+ℤ◌
durable_wake_boundary_least_example =
    durable_wake_boundary_least wake
      (record { selected_instant_millis = pos 10500; retry_deadline_is_strictly_earliest = true })
      refl

abbrev incarnation : ResourceIncarnation
incarnation = record { bytes = be_bytes 32 0x5a5b }

-- The text of `incarnation`.
abbrev wire : List ℕ
wire = encode_hex incarnation.bytes

decode_incarnation_hex-encode_example :
    decode_incarnation_hex (encode_incarnation_hex incarnation) ≡ ok incarnation
decode_incarnation_hex-encode_example =
    decode_incarnation_hex-encode incarnation (length-be_bytes 32 0x5a5b)
      (be_bytes-IsBytes 32 0x5a5b)

encode-decode_incarnation_hex_example :
    (encode_incarnation_hex incarnation ≡ wire)
    × (length incarnation.bytes ≡ 32)
    × IsBytes incarnation.bytes
unfolding decode_incarnation_hex decode_pairs hex_nibble encode_hex be_bytes
encode-decode_incarnation_hex_example = encode-decode_incarnation_hex wire incarnation refl

abbrev namespace : OwnerNamespace
namespace = record { bytes = replicate 24 0xaa }

abbrev serial : BranchSerial
serial = record { value = 6 }

abbrev snapshot : GuardedWriterSnapshot
snapshot = record { generation = 41; resource_digest = 1 ∷ []; command_digest = 2 ∷ [] }

abbrev start : AllocatorSnapshot
start = record {
  header = record { owner_namespace = namespace; branch_serial_high_water = 5 };
  selected_incarnation = incarnation;
  image_digest = [];
}

abbrev burnt : AllocatorSnapshot
burnt = record start {
  header = record { owner_namespace = namespace; branch_serial_high_water = 6 };
}

abbrev serials : List ℕ
serials = 6 ∷ []

burning : Burns start serials burnt
unfolding burn_next_serial next_branch_serial
burning = next burnt here refl

Burns-descending_example :
    (serials ≡ descending (high start) (length serials))
    × (high burnt ≡ high start + length serials)
    × ((high burnt ≡ high start) ⊎ (high burnt ≤ u64_max))
    × (burnt.header.owner_namespace ≡ start.header.owner_namespace)
    × (burnt.selected_incarnation ≡ start.selected_incarnation)
    × (burnt.image_digest ≡ start.image_digest)
Burns-descending_example = Burns-descending burning

abbrev intent : AllocationIntent
intent = record { command_digest = 9 ∷ []; serial = serial; target = incarnation }

abbrev evaluation : AllocatorEvaluation
evaluation = record {
  exact_same_command_recovery = false;
  forbidding_restore_or_upgrade_hold = false;
  serial_exhausted = false;
  clock_hold = true;
  capacity_available = false;
  admission_or_drain_or_coordinator_conflict = true;
}
