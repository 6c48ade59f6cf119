-- ===== src/Core/State/Sticky.antt =====
-- Sticky uncertainty: what a message's flags can do along any sequence of events.
use msgriver.Common.{◌≡◌, sym, ◌⊎◌, inl, inr, true, false, List, [], ◌∷◌, arith}
use mathlib.Core.List.{Memᴰ}
use msgriver.Core.Error.{ok}
use msgriver.Core.State.{
  MessageState, StickyFlags, TransitionEvent, TransitionResult, flags_of, transition,
}

-- Every flag that is true stays true.
pub record Sticks (f g : StickyFlags) : Type 0 where
  pub cancel : f.cancel_requested ≡ true → g.cancel_requested ≡ true
  pub effect : f.effect_may_have_occurred ≡ true → g.effect_may_have_occurred ≡ true
  pub duplicate : f.duplicate_effect_possible ≡ true → g.duplicate_effect_possible ≡ true

-- No accepted event clears a sticky flag, in any state.
pub transition-Sticks :
    (s : MessageState) (f : StickyFlags) (e : TransitionEvent) (r : TransitionResult)
    → transition s f e ≡ ok r
    → Sticks f r.flags
unfolding transition
transition-Sticks s f e r h = ground arith

-- A message accepted into the queue: no flag is set.
abbrev pub fresh : TransitionResult
fresh = record { state = MessageState.queued; flags = flags_of false false false }

-- The messages that some sequence of accepted events leads to, with that sequence, latest first.
pub data Reach (a : TransitionResult) : List TransitionEvent → TransitionResult → Type 0 where
  here : Reach a [] a
  next :
      {es : List TransitionEvent} {b : TransitionResult} (e : TransitionEvent)
      (c : TransitionResult)
      → Reach a es b
      → transition b.state b.flags e ≡ ok c
      → Reach a (e ∷ es) c

-- A sticky flag that is true stays true along any sequence of accepted events.
pub Reach-Sticks :
    {a b : TransitionResult} {es : List TransitionEvent} → Reach a es b → Sticks a.flags b.flags
Reach-Sticks here = record { cancel = λ h. h; effect = λ h. h; duplicate = λ h. h }
Reach-Sticks (next {b = b} e c r h) =
    let s = Reach-Sticks r in
    let t = transition-Sticks b.state b.flags e c h in
    record {
      cancel = λ p. t.cancel (s.cancel p);
      effect = λ p. t.effect (s.effect p);
      duplicate = λ p. t.duplicate (s.duplicate p);
    }

-- What holds of every message that the events `es` lead to from a fresh one.
pub record Sound (es : List TransitionEvent) (b : TransitionResult) : Type 0 where
  pub retried :
      b.state ≡ MessageState.retry_scheduled
      → b.flags ≡ flags_of false true b.flags.duplicate_effect_possible
  pub doubted : b.flags.duplicate_effect_possible ≡ true → b.flags.effect_may_have_occurred ≡ true
  pub dispatched : b.flags.effect_may_have_occurred ≡ true → Memᴰ TransitionEvent.dispatch_mark es
  pub asked : b.flags.cancel_requested ≡ true → Memᴰ TransitionEvent.cancel es

-- One accepted event keeps the flags in step with the state.
step-retried :
    (b c : TransitionResult) (e : TransitionEvent)
    → transition b.state b.flags e ≡ ok c
    → c.state ≡ MessageState.retry_scheduled
    → c.flags ≡ flags_of false true c.flags.duplicate_effect_possible
unfolding transition
step-retried b c e h q = ground arith

step-doubted :
    (b c : TransitionResult) (e : TransitionEvent)
    → transition b.state b.flags e ≡ ok c
    → c.flags.duplicate_effect_possible ≡ true
    → c.flags.effect_may_have_occurred ≡ true
unfolding transition
step-doubted b c e h q = ground arith

step_effect :
    (b c : TransitionResult) (e : TransitionEvent)
    → transition b.state b.flags e ≡ ok c
    → c.flags.effect_may_have_occurred ≡ true
    → (b.flags.effect_may_have_occurred ≡ true) ⊎ (e ≡ TransitionEvent.dispatch_mark)
unfolding transition
step_effect b c e h q = ground arith

step_cancel :
    (b c : TransitionResult) (e : TransitionEvent)
    → transition b.state b.flags e ≡ ok c
    → c.flags.cancel_requested ≡ true
    → e ≡ TransitionEvent.cancel
unfolding transition
step_cancel b c e h q = ground arith

step-Sound :
    (es : List TransitionEvent) (b c : TransitionResult) (e : TransitionEvent)
    → Sound es b
    → transition b.state b.flags e ≡ ok c
    → Sound (e ∷ es) c
step-Sound es b c e s h = record {
  retried = step-retried b c e h;
  doubted = step-doubted b c e h;
  dispatched = λ f. elim (step_effect b c e h f) [
    | inl old ↦ Memᴰ.tail (s.dispatched old)
    | inr new ↦ Memᴰ.head (sym new)
  ];
  asked = λ f. Memᴰ.head (sym (step_cancel b c e h f));
}

-- Of every message that accepted events lead to from a fresh one: while it is scheduled for a retry
-- the effect flag is set and no cancellation is requested; a possible duplicate is a possible
-- effect; the effect flag is set only if a dispatch mark was among the events, and the cancellation
-- flag only if a cancellation was.
pub Reach-Sound : {b : TransitionResult} {es : List TransitionEvent} → Reach fresh es b → Sound es b
Reach-Sound here = record {
  retried = λ h. cc;
  doubted = λ h. cc;
  dispatched = λ h. cc;
  asked = λ h. cc;
}
Reach-Sound (next {es = es} {b = b} e c r h) = step-Sound es b c e (Reach-Sound r) h

step_duplicate :
    (b c : TransitionResult) (e : TransitionEvent)
    → transition b.state b.flags e ≡ ok c
    → c.flags.duplicate_effect_possible ≡ true
    → (b.flags.duplicate_effect_possible ≡ true) ⊎ (e ≡ TransitionEvent.ambiguous_outcome)
unfolding transition
step_duplicate b c e h d = ground arith

-- The flag for a possible duplicate is earned: some ambiguous outcome is among the events.
pub duplicate_needs_ambiguous :
    {b : TransitionResult} {es : List TransitionEvent}
    → Reach fresh es b
    → b.flags.duplicate_effect_possible ≡ true
    → Memᴰ TransitionEvent.ambiguous_outcome es
duplicate_needs_ambiguous here d = cc
duplicate_needs_ambiguous (next {b = b} e c r h) d = elim (step_duplicate b c e h d) [
  | inl old ↦ Memᴰ.tail (duplicate_needs_ambiguous r old)
  | inr new ↦ Memᴰ.head (sym new)
]
