-- ===== src/Core/Tests.antt =====
-- Each theorem on the core at concrete values.
use msgriver.Common.{ℕ, ◌≡◌, ◌≤◌, refl, ◌⊎◌, ◌↔◌, true, false, some, List, [], ◌∷◌, arith}
use mathlib.Core.List.{Memᴰ}
use msgriver.Core.Error.{ok, err, reject, retry_delay_input_invalid, IsOk}
use msgriver.Core.State.{
  MessageState, TransitionEvent, TransitionResult, flags_of, transition, TerminalGuards,
  TerminalWinner, terminal_precedence,
}
use msgriver.Core.State.Sticky.{
  Reach, here, next, fresh, Sound, Reach-Sound, duplicate_needs_ambiguous,
}
use msgriver.Core.State.Precedence.{IsFirst, terminal_precedence-IsFirst}
use msgriver.Core.Retry.{
  RetryDelayInput, retry_delay_input_is_valid, retry_delay, exponential_loop, jittered_delay,
}
use msgriver.Core.Retry.Delay.{
  reference_delay, retry_delay-reference, retry_delay_bounds, retry_delay_mono,
}

abbrev input : RetryDelayInput
input = record {
  base_delay_ms = 1000;
  factor_milli = 2000;
  max_delay_ms = 900000;
  completed_attempt_ordinal = 3;
  multiplier_milli = 926;
  validated_retry_after_ms = some 2000;
}

retry_delay-reference_example :
    ((retry_delay_input_is_valid input ≡ true) × (retry_delay input ≡ ok (reference_delay input)))
    ⊎ ((retry_delay_input_is_valid input ≡ false)
        × (retry_delay input ≡ err (reject retry_delay_input_invalid)))
retry_delay-reference_example = retry_delay-reference input

retry_delay_bounds_example : (1 ≤ 3704) × (3704 ≤ 3600000) × (2000 ≤ 3704)
unfolding retry_delay retry_delay_input_is_valid exponential_loop jittered_delay
retry_delay_bounds_example = retry_delay_bounds input 3704 refl

retry_delay_mono_example : 3704 ≤ 7408
unfolding retry_delay retry_delay_input_is_valid exponential_loop jittered_delay
retry_delay_mono_example = retry_delay_mono input 4 3704 7408 (omega arith) refl refl

abbrev sent : TransitionResult
sent = record { state = MessageState.delivering; flags = flags_of false true false }

abbrev doubtful : TransitionResult
doubtful = record { state = MessageState.retry_scheduled; flags = flags_of false true true }

abbrev path : List TransitionEvent
path =
    TransitionEvent.ambiguous_outcome ∷ TransitionEvent.dispatch_mark ∷ TransitionEvent.fair_claim
    ∷ []

travelled : Reach fresh path doubtful
unfolding transition
travelled =
    next TransitionEvent.ambiguous_outcome doubtful
      (next TransitionEvent.dispatch_mark sent
        (next TransitionEvent.fair_claim
          (record { state = MessageState.delivering; flags = flags_of false false false }) here
          refl)
        refl)
      refl

Reach-Sound_example : Sound path doubtful
Reach-Sound_example = Reach-Sound travelled

duplicate_needs_ambiguous_example : Memᴰ TransitionEvent.ambiguous_outcome path
duplicate_needs_ambiguous_example = duplicate_needs_ambiguous travelled refl

abbrev guards : TerminalGuards
guards = record {
  known_provider_acceptance = false;
  cancel_committed = true;
  expiry_eligible = true;
  attempt_exhausted = false;
  late_verifiable_ack = false;
}

terminal_precedence-IsFirst_example :
    IsOk (terminal_precedence guards)
    × ((w : TerminalWinner) → (terminal_precedence guards ≡ ok w) ↔ IsFirst guards w)
terminal_precedence-IsFirst_example = terminal_precedence-IsFirst guards

abbrev attempts : List ℕ
attempts = 7 ∷ []

abbrev generation : ℕ
generation = 3

abbrev token : ℕ
token = 9
