-- ===== src/Core/Ring.antt =====
-- The retained MAC key ring (crates/msgriver-core/src/ring.rs): the observations on it and the next
-- serial.
use msgriver.Common.{
  ℕ, ◌≡◌, ◌↔◌, Bool, true, false, not, ◌&&◌, ◌||◌, Option, none, some, List, [], ◌∷◌, All, arith,
  if◌then◌else◌, list_eq,
}
use msgriver.Core.Error.{Result, ok, ok_or, reject, mac_key_serial_exhausted}
use msgriver.Core.Fence.{checked_add_u64}
use msgriver.Core.Mac.{MacPurpose, MacKeyId, MacKeyRef, same_purpose}

pub data RingTransition : Type 0 where
  retire_dependency_free covering_window_elapsed branch_copy rotate other : RingTransition

pub data RotationStage : Type 0 where
  selected_origin_integrity serial_exhaustion retained_capacity : RotationStage
  checked_allocation entropy : RotationStage

pub data OriginClassification : Type 0 where
  selected_origin imported_key_origin : OriginClassification

pub data RingIntegrity : Type 0 where
  valid corruption : RingIntegrity

pub record RotationOrder : Type 0 where
  pub selected_origin_valid : Bool
  pub serial_available : Bool
  pub retained_capacity_available : Bool
  pub checked_allocation_available : Bool
  pub entropy_available : Bool

-- The fields of a variant in the source's order.
pub data RingObservation : Type 0 where
  capacity_recovery : MacPurpose → RingTransition → RingObservation
  branch_slots : List ℕ → List ℕ → RingObservation
  rotation_order : RotationOrder → RingObservation
  purpose_registration : MacKeyRef → MacKeyRef → RingObservation
  origin : MacKeyId → Bool → RingObservation
  imported_authority : OriginClassification → RingObservation
  journal_integrity : Bool → Bool → List ℕ → RingObservation
  load_evidence : Bool → Bool → RingObservation
  allocator_evidence : Bool → Bool → Bool → Bool → RingObservation

pub data RingObservationResult : Type 0 where
  capacity_recovered : Bool → RingObservationResult
  slot_digest : List ℕ → RingObservationResult
  rotation_failure : Option RotationStage → RingObservationResult
  -- `valid` and `paths_distinct`.
  registered : Bool → Bool → RingObservationResult
  classified : OriginClassification → RingObservationResult
  authority : Bool → Bool → Bool → RingObservationResult
  journal : Bool → Bool → List ℕ → RingObservationResult
  integrity : RingIntegrity → RingObservationResult

abbrev recovers : RingTransition → Bool
recovers retire_dependency_free = true
recovers covering_window_elapsed = true
recovers _ = false

unfoldable pub first_failure : RotationOrder → Option RotationStage
first_failure o =
    if not o.selected_origin_valid
    then some selected_origin_integrity
    else if not o.serial_available
    then some serial_exhaustion
    else if not o.retained_capacity_available
    then some retained_capacity
    else if not o.checked_allocation_available
    then some checked_allocation
    else if not o.entropy_available
    then some entropy
    else none

abbrev is_imported : OriginClassification → Bool
is_imported imported_key_origin = true
is_imported selected_origin = false

unfoldable pub observe : RingObservation → Result RingObservationResult
unfolding first_failure
observe (capacity_recovery purpose transition) = ok (capacity_recovered (recovers transition))
observe (branch_slots prior post) = ok (slot_digest post)
observe (rotation_order o) = ok (rotation_failure (first_failure o))
observe (purpose_registration first second) =
    let qualified = not (same_purpose first.purpose second.purpose) in
    ok (registered (qualified && list_eq first.key_id.bytes second.key_id.bytes) qualified)
observe (origin key_id foreign) =
    ok (classified (if foreign then imported_key_origin else selected_origin))
observe (imported_authority c) = ok (authority (not (is_imported c)) (not (is_imported c)) false)
observe (journal_integrity contains has digest) = ok (journal contains has digest)
observe (load_evidence above duplicated) =
    ok (integrity (if above || duplicated then corruption else valid))
observe (allocator_evidence missing lower duplicate foreign) =
    ok (integrity (if missing || (lower || (duplicate || foreign)) then corruption else valid))

unfoldable pub serial_next : ℕ → Result ℕ
serial_next high_water = ok_or (checked_add_u64 high_water 1) (reject mac_key_serial_exhausted)

-- The condition of a stage, and the stages in their order.
abbrev pub passes : RotationOrder → RotationStage → Bool
passes o selected_origin_integrity = o.selected_origin_valid
passes o serial_exhaustion = o.serial_available
passes o retained_capacity = o.retained_capacity_available
passes o checked_allocation = o.checked_allocation_available
passes o entropy = o.entropy_available

abbrev pub before : RotationStage → List RotationStage
before selected_origin_integrity = []
before serial_exhaustion = selected_origin_integrity ∷ []
before retained_capacity = selected_origin_integrity ∷ serial_exhaustion ∷ []
before checked_allocation = selected_origin_integrity ∷ serial_exhaustion ∷ retained_capacity ∷ []
before entropy =
    selected_origin_integrity ∷ serial_exhaustion ∷ retained_capacity ∷ checked_allocation ∷ []

-- A rotation is observed to fail at a stage exactly when that stage does not pass and every stage
-- before it does, in the order origin, serial, capacity, allocation, entropy.
pub observe_first_failure :
    (o : RotationOrder) (s : RotationStage)
    → (observe (rotation_order o) ≡ ok (rotation_failure (some s)))
      ↔ ((passes o s ≡ false) × All (λ t. passes o t ≡ true) (before s))
unfolding observe first_failure
observe_first_failure o selected_origin_integrity = (λ h. ground arith, λ h. ground arith)
observe_first_failure o s = (λ h. ground arith, λ h. ground arith)
