-- ===== src/Core/Incarnation/Decisions.antt =====
-- Decisions of the allocator against independent descriptions.
use msgriver.Common.{ℕ, ◌≡◌, ◌↔◌, ◌≢◌, Bool, true, false, some, List, [], ◌∷◌, arith}
use msgriver.Core.Error.{ok}
use msgriver.Core.Generation.{u64_max}
use msgriver.Core.Incarnation.{
  AllocatorEvaluation, AllocatorDecision, allocator_hold_precedence, validate_target,
  pre_staging_collision, PreStagingViews, ReadinessReason, readiness_reason,
  readiness_exhaustion_both, valid,
}

-- What must hold of the facts for a decision, and what stands before it in the order.
abbrev pub Facts : AllocatorEvaluation → AllocatorDecision → Type 0
Facts i AllocatorDecision.exact_recovery = i.exact_same_command_recovery ≡ true
Facts i AllocatorDecision.forbidden_hold = i.forbidding_restore_or_upgrade_hold ≡ true
Facts i AllocatorDecision.incarnation_unavailable = i.serial_exhausted ≡ true
Facts i AllocatorDecision.clock_held = i.clock_hold ≡ true
Facts i AllocatorDecision.control_capacity_full = i.capacity_available ≡ false
Facts i AllocatorDecision.conflict = i.admission_or_drain_or_coordinator_conflict ≡ true
Facts i AllocatorDecision.publish_and_burn_authorized = Unit {0}

abbrev pub before : AllocatorDecision → List AllocatorDecision
before AllocatorDecision.exact_recovery = []
before AllocatorDecision.forbidden_hold = AllocatorDecision.exact_recovery ∷ []
before AllocatorDecision.incarnation_unavailable =
    AllocatorDecision.forbidden_hold ∷ AllocatorDecision.exact_recovery ∷ []
before AllocatorDecision.clock_held =
    AllocatorDecision.incarnation_unavailable ∷ AllocatorDecision.forbidden_hold
    ∷ AllocatorDecision.exact_recovery ∷ []
before AllocatorDecision.control_capacity_full =
    AllocatorDecision.clock_held ∷ AllocatorDecision.incarnation_unavailable
    ∷ AllocatorDecision.forbidden_hold ∷ AllocatorDecision.exact_recovery ∷ []
before AllocatorDecision.conflict =
    AllocatorDecision.control_capacity_full ∷ AllocatorDecision.clock_held
    ∷ AllocatorDecision.incarnation_unavailable ∷ AllocatorDecision.forbidden_hold
    ∷ AllocatorDecision.exact_recovery ∷ []
before AllocatorDecision.publish_and_burn_authorized =
    AllocatorDecision.conflict ∷ AllocatorDecision.control_capacity_full
    ∷ AllocatorDecision.clock_held ∷ AllocatorDecision.incarnation_unavailable
    ∷ AllocatorDecision.forbidden_hold ∷ AllocatorDecision.exact_recovery ∷ []

abbrev pub NoneOf : AllocatorEvaluation → List AllocatorDecision → Type 0
NoneOf i [] = Unit {0}
NoneOf i (d ∷ ds) = (¬ Facts i d) × NoneOf i ds

-- A decision is taken exactly when its facts hold and those of no decision before it do, in the
-- order exact recovery, hold, exhaustion, clock, capacity, conflict; publishing comes last.
pub allocator_hold_precedence_iff :
    (i : AllocatorEvaluation) (d : AllocatorDecision)
    → (allocator_hold_precedence i ≡ d) ↔ (Facts i d × NoneOf i (before d))
unfolding allocator_hold_precedence
allocator_hold_precedence_iff i AllocatorDecision.exact_recovery =
    (λ h. ground arith, λ h. ground arith)
allocator_hold_precedence_iff i d = (λ h. ground arith, λ h. ground arith)

-- Both reasons are reported together exactly when readiness at this high-water names the exhausted
-- incarnation, and at any lower high-water it would name the exhausted generation.
pub readiness_exhaustion_both_iff :
    (h lower : ℕ) (gs : List ℕ)
    → lower ≢ u64_max
    → (readiness_exhaustion_both h gs
        ≡ ok (ReadinessReason.incarnation_exhausted, ReadinessReason.generation_exhausted))
      ↔ ((readiness_reason h gs ≡ some ReadinessReason.incarnation_exhausted)
          × (readiness_reason lower gs ≡ some ReadinessReason.generation_exhausted))
unfolding readiness_exhaustion_both readiness_reason
readiness_exhaustion_both_iff h lower gs ne = (λ e. ground arith, λ e. ground arith)

-- A target is validated exactly when the source and the serial match and no collision is known; with
-- the collision taken from the views collected before staging, no view may name the target.
pub validate_target-pre_staging :
    (v : PreStagingViews) (source serial : Bool)
    → (validate_target (record {
      collision = pre_staging_collision v;
      source_matches = source;
      target_serial_matches = serial;
    })
        ≡ valid)
      ↔ ((v.active_pointer_collision ≡ false)
          × (v.retained_history_collision ≡ false)
          × (v.retained_provenance_collision ≡ false)
          × (v.nonterminal_intent_collision ≡ false)
          × (v.staged_metadata_collision ≡ false)
          × (source ≡ true)
          × (serial ≡ true))
unfolding validate_target pre_staging_collision
validate_target-pre_staging v source serial = (λ e. ground arith, λ e. ground arith)
