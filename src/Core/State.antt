-- ===== src/Core/State.antt =====
-- The message state machine, sticky uncertainty and terminal precedence
-- (crates/msgriver-core/src/state.rs).
pub mod Sticky
pub mod Precedence
use msgriver.Common.{ℕ, Bool, true, false, ◌||◌, List, [], ◌∷◌, if◌then◌else◌}
use msgriver.Core.Error.{
  Result, ok, err, ◌>>=◌, scaffold, reject, state_transition, invalid_transition,
  terminal_precedence as precedence_frontier,
}

pub data MessageState : Type 0 where
  queued held delivering retry_scheduled provider_accepted failed cancelled expired : MessageState

pub record StickyFlags : Type 0 where
  pub cancel_requested : Bool
  pub effect_may_have_occurred : Bool
  pub duplicate_effect_possible : Bool

pub data TransitionEvent : Type 0 where
  fair_claim dispatch_mark transient_outcome ambiguous_outcome cancel : TransitionEvent

pub record TransitionResult : Type 0 where
  pub state : MessageState
  pub flags : StickyFlags

abbrev pub flags_of : Bool → Bool → Bool → StickyFlags
flags_of c e d = record {
  cancel_requested = c;
  effect_may_have_occurred = e;
  duplicate_effect_possible = d;
}

abbrev to : MessageState → StickyFlags → Result TransitionResult
to s f = ok (record { state = s; flags = f })

-- The match of `transition`: the state, the three flags one by one, the event, the flags whole.
match_transition :
    MessageState → Bool → Bool → Bool → TransitionEvent → StickyFlags → Result TransitionResult
match_transition queued false false false fair_claim f = to delivering f
match_transition retry_scheduled false true d fair_claim f = to delivering f
match_transition delivering false false false dispatch_mark f =
    to delivering (flags_of false true false)
match_transition provider_accepted false true false fair_claim f = err (reject invalid_transition)
match_transition delivering false true false transient_outcome f = to retry_scheduled f
match_transition delivering false true true transient_outcome f =
    to retry_scheduled (flags_of false true true)
match_transition delivering false true false ambiguous_outcome f =
    to retry_scheduled (flags_of false true true)
match_transition delivering false true true ambiguous_outcome f =
    to retry_scheduled (flags_of false true true)
match_transition delivering false true false cancel f = to delivering (flags_of true true false)
match_transition delivering false true true cancel f = to delivering (flags_of true true true)
match_transition delivering true true true cancel f = to delivering (flags_of true true true)
match_transition delivering false false false cancel f =
    to delivering (record f { cancel_requested = true })
match_transition _ _ _ _ _ _ = err (scaffold state_transition)

unfoldable pub transition : MessageState → StickyFlags → TransitionEvent → Result TransitionResult
unfolding match_transition
transition from current_flags event =
    match_transition from current_flags.cancel_requested current_flags.effect_may_have_occurred
      current_flags.duplicate_effect_possible event current_flags

pub record TerminalGuards : Type 0 where
  pub known_provider_acceptance : Bool
  pub cancel_committed : Bool
  pub expiry_eligible : Bool
  pub attempt_exhausted : Bool
  pub late_verifiable_ack : Bool

pub data TerminalWinner : Type 0 where
  provider_accepted cancelled expired failed no_terminal : TerminalWinner

pub record LateAckRow : Type 0 where
  pub prior : MessageState
  pub late_verifiable_ack : Bool
  pub attempt_history_digest : List ℕ

pub record LateAckResolution : Type 0 where
  pub winner : TerminalWinner
  pub attempt_history_digest : List ℕ

unfoldable pub resolve_late_ack : LateAckRow → Result LateAckResolution
resolve_late_ack row =
    if row.late_verifiable_ack
    then ok (record {
      winner = TerminalWinner.provider_accepted;
      attempt_history_digest = row.attempt_history_digest;
    })
    else err (scaffold precedence_frontier)

unfoldable pub terminal_precedence : TerminalGuards → Result TerminalWinner
terminal_precedence guards =
    if guards.known_provider_acceptance || guards.late_verifiable_ack
    then ok TerminalWinner.provider_accepted
    else if guards.cancel_committed
    then ok TerminalWinner.cancelled
    else if guards.expiry_eligible
    then ok TerminalWinner.expired
    else if guards.attempt_exhausted
    then ok TerminalWinner.failed
    else ok TerminalWinner.no_terminal
