-- ===== src/Core/Incarnation.antt =====
-- Pure decisions of the incarnation allocator (crates/msgriver-core/src/incarnation.rs).
pub mod Burning
pub mod Decisions
use msgriver.Common.{
  ℕ, ◌<◌, Bool, true, false, ◌&&◌, ◌||◌, not, Option, none, some, List, [], ◌∷◌, leb, ◌==◌,
  if◌then◌else◌, list_eq, any,
}
use msgriver.Core.Error.{Result, ok, err, ◌>>=◌, scaffold, readiness_reason as readiness_frontier}
use msgriver.Core.Generation.{
  OwnerNamespace, BranchSerial, ResourceIncarnation, JournalNamespaceProvider,
  derive_owner_namespace, next_branch_serial, compose_incarnation, one, u64_max,
}

pub data OperationId : Type 0 where
  bootstrap_create restore_create upgrade_rollback configuration_activate : OperationId
  state_key_rotate state_key_retire upgrade_migrate upgrade_activate forward_repair : OperationId
  other : OperationId

pub data TransitionClass : Type 0 where
  allocating continuation non_allocator : TransitionClass

unfoldable pub classify_transition : OperationId → TransitionClass
classify_transition bootstrap_create = allocating
classify_transition restore_create = allocating
classify_transition upgrade_rollback = allocating
classify_transition other = non_allocator
classify_transition _ = continuation

pub data LocalWitnessKind : Type 0 where
  selected_pointer current_guarded_resource allocating_intent_target : LocalWitnessKind
  locally_staged_target history_or_provenance_epoch : LocalWitnessKind

pub data WitnessSource : Type 0 where
  local : LocalWitnessKind → WitnessSource
  foreign_authenticated_ancestry imported_key_origin unknown : WitnessSource

pub record AllocatorWitness : Type 0 where
  pub source : WitnessSource
  pub namespace : OwnerNamespace
  pub serial : ℕ

pub data WitnessClassification : Type 0 where
  local_witness foreign_ancestry corrupt : WitnessClassification

classify_source : WitnessSource → AllocatorWitness → OwnerNamespace → ℕ → WitnessClassification
classify_source foreign_authenticated_ancestry witness recomputed high_water = foreign_ancestry
classify_source imported_key_origin witness recomputed high_water = foreign_ancestry
classify_source (local kind) witness recomputed high_water =
    if list_eq witness.namespace.bytes recomputed.bytes
      && (not (witness.serial == 0) && leb witness.serial high_water)
    then local_witness
    else corrupt
classify_source unknown witness recomputed high_water = corrupt

unfoldable pub classify_witness : AllocatorWitness → OwnerNamespace → ℕ → WitnessClassification
unfolding classify_source
classify_witness witness recomputed_namespace high_water =
    classify_source witness.source witness recomputed_namespace high_water

pub record TargetWitnessSet : Type 0 where
  pub collision : Bool
  pub source_matches : Bool
  pub target_serial_matches : Bool

pub data TargetValidation : Type 0 where
  valid collides source_mismatch target_serial_mismatch : TargetValidation

unfoldable pub validate_target : TargetWitnessSet → TargetValidation
validate_target witnesses =
    if witnesses.collision
    then collides
    else if not witnesses.source_matches
    then source_mismatch
    else if not witnesses.target_serial_matches
    then target_serial_mismatch
    else valid

unfoldable pub derive_nonreused_serial : ℕ → Result BranchSerial
derive_nonreused_serial high_water = next_branch_serial high_water

pub record AllocatorEvaluation : Type 0 where
  pub exact_same_command_recovery : Bool
  pub forbidding_restore_or_upgrade_hold : Bool
  pub serial_exhausted : Bool
  pub clock_hold : Bool
  pub capacity_available : Bool
  pub admission_or_drain_or_coordinator_conflict : Bool

pub data AllocatorDecision : Type 0 where
  exact_recovery forbidden_hold incarnation_unavailable clock_held : AllocatorDecision
  control_capacity_full conflict publish_and_burn_authorized : AllocatorDecision

unfoldable pub allocator_hold_precedence : AllocatorEvaluation → AllocatorDecision
allocator_hold_precedence input =
    if input.exact_same_command_recovery
    then exact_recovery
    else if input.forbidding_restore_or_upgrade_hold
    then forbidden_hold
    else if input.serial_exhausted
    then incarnation_unavailable
    else if input.clock_hold
    then clock_held
    else if not input.capacity_available
    then control_capacity_full
    else if input.admission_or_drain_or_coordinator_conflict
    then conflict
    else publish_and_burn_authorized

pub record AllocatorHeader : Type 0 where
  pub owner_namespace : OwnerNamespace
  pub branch_serial_high_water : ℕ

unfoldable pub initialize_allocator_header : JournalNamespaceProvider → AllocatorHeader
initialize_allocator_header provider = record {
  owner_namespace = derive_owner_namespace provider;
  branch_serial_high_water = 0;
}

pub record AllocationIntent : Type 0 where
  pub command_digest : List ℕ
  pub serial : BranchSerial
  pub target : ResourceIncarnation

pub data ReplayDecision : Type 0 where
  reuse : AllocationIntent → ReplayDecision
  command_collision : ReplayDecision
  fresh : BranchSerial → ReplayDecision

unfoldable pub replay_allocation : Option AllocationIntent → List ℕ → ℕ → Result ReplayDecision
replay_allocation none command_digest high_water = do
  serial ← next_branch_serial high_water
  ok (fresh serial)
replay_allocation (some intent) command_digest high_water =
    if list_eq intent.command_digest command_digest then ok (reuse intent) else ok command_collision

pub record AllocatorSnapshot : Type 0 where
  pub header : AllocatorHeader
  pub selected_incarnation : ResourceIncarnation
  pub image_digest : List ℕ

unfoldable pub burn_next_serial : AllocatorSnapshot → Result AllocatorSnapshot
burn_next_serial snapshot = do
  serial ← next_branch_serial snapshot.header.branch_serial_high_water
  ok (record snapshot {
    header = record (snapshot.header) { branch_serial_high_water = serial.value };
  })

unfoldable pub preserve_continuation : AllocatorSnapshot → AllocatorSnapshot
preserve_continuation snapshot = snapshot

pub record PreStagingViews : Type 0 where
  pub active_pointer_collision : Bool
  pub retained_history_collision : Bool
  pub retained_provenance_collision : Bool
  pub nonterminal_intent_collision : Bool
  pub staged_metadata_collision : Bool

unfoldable pub pre_staging_collision : PreStagingViews → Bool
pre_staging_collision views =
    views.active_pointer_collision
    || (views.retained_history_collision
        || (views.retained_provenance_collision
            || (views.nonterminal_intent_collision || views.staged_metadata_collision)))

pub record ExhaustionRecovery : Type 0 where
  pub independently_keyed_blank_root : Bool
  pub authenticated_disaster_artifact : Bool
  pub rekeys_exhausted_root_in_place : Bool

pub data ExhaustionRecoveryDecision : Type 0 where
  supported unsupported : ExhaustionRecoveryDecision

unfoldable pub exhaustion_recovery_admissibility : ExhaustionRecovery → ExhaustionRecoveryDecision
exhaustion_recovery_admissibility recovery =
    if recovery.independently_keyed_blank_root
      && (recovery.authenticated_disaster_artifact && not recovery.rekeys_exhausted_root_in_place)
    then supported
    else unsupported

unfoldable pub restore_serial_one : OwnerNamespace → ResourceIncarnation
restore_serial_one namespace = compose_incarnation namespace one

abbrev is_allocating : TransitionClass → Bool
is_allocating allocating = true
is_allocating continuation = false
is_allocating non_allocator = false

unfoldable pub operation_admissible_under_exhaustion : OperationId → Bool
operation_admissible_under_exhaustion operation =
    not (is_allocating (classify_transition operation))

pub data ReadinessReason : Type 0 where
  generation_exhausted incarnation_exhausted : ReadinessReason

unfoldable pub readiness_reason : ℕ → List ℕ → Option ReadinessReason
readiness_reason high_water guarded_generations =
    if high_water == u64_max
    then some incarnation_exhausted
    else if any (λ g. g == u64_max) guarded_generations
    then some generation_exhausted
    else none

unfoldable pub readiness_exhaustion_both : ℕ → List ℕ → Result (ReadinessReason × ReadinessReason)
readiness_exhaustion_both high_water guarded_generations =
    if (high_water == u64_max) && any (λ g. g == u64_max) guarded_generations
    then ok (incarnation_exhausted, generation_exhausted)
    else err (scaffold readiness_frontier)
