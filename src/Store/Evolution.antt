-- ===== src/Store/Evolution.antt =====
-- How one row of the queue may change, and what a change of the table means for one row.
use msgriver.Common.{
  suc, ◌&&◌, ◌≤◌, ◌≡◌, refl, ◌∙◌, sym, ap, inl, inr, ◌≢◌, Bool, true, false, ◌||◌, not, Option,
  none, some, List, [], ◌∷◌, arith, all, list_eq, list_eq_sound, Bool-cases, if◌then◌else◌,
}
use msgriver.Store.Validation.{Text}
use msgriver.Store.Schema.{
  Message, DeliveryState, queued, sending, retry_scheduled, provider_accepted, ambiguous, failed,
  find, find_key, update_where, row_checks, is_due_state, is_sending,
}

-- The states that one operation may lead to.
abbrev pub may_follow : DeliveryState → DeliveryState → Bool
may_follow queued queued = true
may_follow queued sending = true
may_follow retry_scheduled retry_scheduled = true
may_follow retry_scheduled sending = true
may_follow sending sending = true
may_follow sending provider_accepted = true
may_follow sending failed = true
may_follow sending ambiguous = true
may_follow sending retry_scheduled = true
may_follow failed failed = true
may_follow failed queued = true
may_follow provider_accepted provider_accepted = true
may_follow ambiguous ambiguous = true
may_follow _ _ = false

abbrev pub is_final : DeliveryState → Bool
is_final provider_accepted = true
is_final ambiguous = true
is_final _ = false

-- What was admitted stays as it was, attempts are never taken back, and a row whose effect is known
-- or in doubt no longer changes at all.
pub record Evolves (a b : Message) : Type 0 where
  pub id : b.message_id ≡ a.message_id
  pub key : b.idempotency_key ≡ a.idempotency_key
  pub driver : b.driver ≡ a.driver
  pub destination : b.destination ≡ a.destination
  pub payload : b.payload ≡ a.payload
  pub topic : b.topic ≡ a.topic
  pub title : b.title ≡ a.title
  pub body : b.body ≡ a.body
  pub created : b.created_at ≡ a.created_at
  pub attempts : a.attempts ≤ b.attempts
  pub counted :
      b.attempts
      ≡ (if is_due_state a.state && is_sending b.state then suc a.attempts else a.attempts)
  pub state : may_follow a.state b.state ≡ true
  pub final : is_final a.state ≡ true → b ≡ a

follows_itself : (s : DeliveryState) → may_follow s s ≡ true
follows_itself queued = refl
follows_itself _ = refl

not_at_once : (s : DeliveryState) → (is_due_state s && is_sending s) ≡ false
not_at_once queued = refl
not_at_once sending = refl
not_at_once retry_scheduled = refl
not_at_once provider_accepted = refl
not_at_once ambiguous = refl
not_at_once failed = refl

pub Evolves-refl : (a : Message) → Evolves a a
Evolves-refl a = record {
  id = refl;
  key = refl;
  driver = refl;
  destination = refl;
  payload = refl;
  topic = refl;
  title = refl;
  body = refl;
  created = refl;
  attempts = omega arith;
  counted = rw (not_at_once a.state) refl;
  state = follows_itself a.state;
  final = λ _. refl;
}

-- One operation's effect on the table of messages.
pub data Effect (before after : List Message) : Type 0 where
  unchanged : after ≡ before → Effect before after
  added :
      (m : Message)
      → row_checks m ≡ true
      → m.state ≡ queued
      → m.attempts ≡ 0
      → find m.message_id before ≡ none
      → find_key m.idempotency_key before ≡ none
      → after ≡ m ∷ before
      → Effect before after
  changed :
      (p : Message → Bool) (f : Message → Message)
      → ((m : Message) → p m ≡ true → Evolves m (f m))
      → all (λ m. not (p m) || row_checks (f m)) before ≡ true
      → after ≡ update_where p f before
      → Effect before after

-- What an update does to one row.
abbrev pub row_step : (Message → Bool) → (Message → Message) → Message → Message
row_step p f m = if p m then f m else m

abbrev pub map_row : (Message → Message) → Option Message → Option Message
map_row g none = none
map_row g (some m) = some (g m)

module _ (p : Message → Bool) (f : Message → Message)
    (ev : (m : Message) → p m ≡ true → Evolves m (f m)) where
  pub row_step-Evolves : (m : Message) → Evolves m (row_step p f m)
  row_step-Evolves m = elim (Bool-cases (p m)) [
    | inl e ↦ rw e (ev m e)
    | inr e ↦ rw e (Evolves-refl m)
  ]

  -- Looking a row up after an update is looking it up before, and updating what is found.
  pub find-update_where :
      (x : Text) (ms : List Message)
      → find x (update_where p f ms) ≡ map_row (row_step p f) (find x ms)
  unfolding find update_where
  find-update_where x [] = refl
  find-update_where x (m ∷ ms) =
      rw ((row_step-Evolves m).id, find-update_where x ms)
        (elim (Bool-cases (list_eq m.message_id x)) [ inl e ↦ rw e refl | inr e ↦ rw e refl ])

  pub find_key-update_where :
      (x : Text) (ms : List Message)
      → find_key x (update_where p f ms) ≡ map_row (row_step p f) (find_key x ms)
  unfolding find_key update_where
  find_key-update_where x [] = refl
  find_key-update_where x (m ∷ ms) =
      rw ((row_step-Evolves m).key, find_key-update_where x ms)
        (elim (Bool-cases (list_eq m.idempotency_key x)) [ inl e ↦ rw e refl | inr e ↦ rw e refl ])

find-head :
    (x : Text) (m : Message) (ms : List Message) → (x ≢ m.message_id) → find x (m ∷ ms) ≡ find x ms
unfolding find
find-head x m ms ne = elim (Bool-cases (list_eq m.message_id x)) [
  | inl e ↦ absurd (ne (sym (list_eq_sound m.message_id x e)))
  | inr e ↦ rw e
]

-- No effect loses a row, and every row that was there evolves.
pub find-Effect :
    (x : Text) (a : Message) {before after : List Message}
    → Effect before after
    → find x before ≡ some a
    → (b : Message) × (find x after ≡ some b) × Evolves a b
find-Effect x a (unchanged e) h = (a, rw e h, Evolves-refl a)
find-Effect x a {before} (added m checks st att fresh key e) h = (
  a,
  rw e (find-head x m before (λ same. cc (ap (λ (t : Text). find t before) same, fresh, h)) ∙ h),
  Evolves-refl a,
)
find-Effect x a {before} (changed p f ev checks e) h = (
  row_step p f a,
  rw e (find-update_where p f ev x before ∙ ap (map_row (row_step p f)) h),
  row_step-Evolves p f ev a,
)
