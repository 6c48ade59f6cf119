-- ===== src/Store/Queue.antt =====
-- The operations of the durable queue (`Store` in crates/msgriver-store/src/lib.rs). SHA-256 is a
-- crate of its own, so `digest` is a parameter. `now` is the caller's clock, an `i64`.
pub mod Effects
pub mod Order
pub mod Claiming
pub mod Recovery
use msgriver.Common.{
  ℕ, zero, suc, ◌+◌, ◌≤◌, Bool, true, false, ◌&&◌, ◌||◌, not, Option, none, some, List, [], ◌∷◌,
  ◌++◌, leb, ltb, ◌==◌, if◌then◌else◌, in_range, length, all, any, list_eq,
}
use msgriver.Common.Int.{ℤ, pos, leb_ℤ, ltb_ℤ, eqb_ℤ, checked_add}
use msgriver.Common.Bytes.{be_bytes}
use msgriver.Core.Generation.{encode_hex}
use msgriver.Store.Validation.{
  Text, valid_text, valid_idempotency_key, valid_topic, valid_title, valid_message_id, is_none_or,
  unwrap_or, opt_eq, text_lt,
}
use msgriver.Store.Schema.{
  Result, ok, err, delivery, DeliveryState, queued, sending, retry_scheduled, provider_accepted,
  ambiguous, failed, Message, Db, Engine, Tx, ◌>>=◌, ◌>>◌, give, fail, require, select,
  some_or_fail, transact, autocommit, admit_if, find, find_key, first_where, count_where, update,
  insert, is_due_state, is_sending, is_accepted, is_failed, has_error, ntfy, known_driver,
}

pub record M2Submission : Type 0 where
  pub idempotency_key : Text
  pub topic : Text
  pub title : Option Text
  pub body : Text

pub record M3Submission : Type 0 where
  pub idempotency_key : Text
  pub driver : Text
  pub destination : Text
  pub payload : Text

pub data M2Accepted : Type 0 where
  new : Text → M2Accepted
  existing : Text → M2Accepted

pub record M2Delivery : Type 0 where
  pub message_id : Text
  pub driver : Text
  pub destination : Text
  pub payload : Text
  pub topic : Text
  pub title : Option Text
  pub body : Text
  pub attempt : ℕ

-- The digest's input: each field behind its length, eight bytes big-endian.
abbrev framed : List Text → List ℕ
framed [] = []
framed (f ∷ fs) = be_bytes 8 (length f) ++ (f ++ framed fs)

-- `digest_to_hex`.
abbrev pub digest_to_hex : List ℕ → Text
digest_to_hex = encode_hex

unfoldable pub valid_m2_submission : M2Submission → Bool
valid_m2_submission s =
    valid_idempotency_key s.idempotency_key
    && (valid_topic s.topic && (valid_text s.body 4096 && is_none_or valid_title s.title))

unfoldable pub valid_m3_submission : M3Submission → Bool
valid_m3_submission s =
    valid_idempotency_key s.idempotency_key
    && (known_driver s.driver && (valid_text s.destination 256 && valid_text s.payload 4096))

module _ (digest : List ℕ → List ℕ) where
  unfoldable pub m2_message_id : M2Submission → Text
  m2_message_id s =
      digest_to_hex
        (digest (framed (s.idempotency_key ∷ s.topic ∷ unwrap_or s.title [] ∷ s.body ∷ [])))

  unfoldable pub m3_message_id : M3Submission → Text
  m3_message_id s =
      digest_to_hex
        (digest (framed (s.idempotency_key ∷ s.driver ∷ s.destination ∷ s.payload ∷ [])))

  -- The row that `m2_submit` inserts.
  abbrev pub m2_row : M2Submission → ℤ → Message
  m2_row s now = record {
    message_id = m2_message_id s;
    idempotency_key = s.idempotency_key;
    driver = ntfy;
    destination = s.topic;
    payload = [];
    topic = s.topic;
    title = s.title;
    body = s.body;
    state = queued;
    attempts = 0;
    next_attempt_at = some now;
    provider_ack = none;
    last_error = none;
    created_at = now;
    updated_at = now;
  }

  unfoldable pub m2_admit : Engine → M2Submission → ℤ → Option Message → Tx M2Accepted
  m2_admit e s now (some m) =
      if list_eq m.topic s.topic && (opt_eq m.title s.title && list_eq m.body s.body)
      then give (existing m.message_id)
      else fail
  m2_admit e s now none = do insert e (m2_row s now); give (new (m2_message_id s))

  unfoldable pub m2_submit : Engine → M2Submission → ℤ → Db → Result M2Accepted × Db
  unfolding m2_admit
  m2_submit e s now db =
      admit_if (valid_m2_submission s)
        (transact e (do
          found ← select e (λ db. find_key s.idempotency_key db.messages)
          m2_admit e s now found))
        db

  -- The row of `m3_submit`, with its driver in the `topic` column and its payload in `body`.
  abbrev pub m3_row : M3Submission → Text → ℤ → Message
  m3_row s topic now = record {
    message_id = m3_message_id s;
    idempotency_key = s.idempotency_key;
    driver = s.driver;
    destination = s.destination;
    payload = s.payload;
    topic = topic;
    title = none;
    body = s.payload;
    state = queued;
    attempts = 0;
    next_attempt_at = some now;
    provider_ack = none;
    last_error = none;
    created_at = now;
    updated_at = now;
  }

  unfoldable pub m3_admit : Engine → M3Submission → ℤ → Option Message → Tx M2Accepted
  m3_admit e s now (some m) =
      if list_eq m.driver s.driver
        && (list_eq m.destination s.destination && list_eq m.payload s.payload)
      then give (existing m.message_id)
      else fail
  m3_admit e s now none = do insert e (m3_row s s.driver now); give (new (m3_message_id s))

  unfoldable pub m3_submit : Engine → M3Submission → ℤ → Db → Result M2Accepted × Db
  unfolding m3_admit
  m3_submit e s now db =
      admit_if (valid_m3_submission s)
        (transact e (do
          found ← select e (λ db. find_key s.idempotency_key db.messages)
          m3_admit e s now found))
        db

-- `state IN ('queued', 'retry_scheduled') AND next_attempt_at_unix_ms <= ?1`; NULL is never due.
abbrev pub arrived : Option ℤ → ℤ → Bool
arrived none now = false
arrived (some t) now = leb_ℤ t now

abbrev pub is_due : ℤ → Message → Bool
is_due now m = is_due_state m.state && arrived m.next_attempt_at now

-- `ORDER BY created_at_unix_ms, message_id`.
abbrev pub earlier : Message → Message → Bool
earlier a b =
    ltb_ℤ a.created_at b.created_at
    || (eqb_ℤ a.created_at b.created_at && text_lt a.message_id b.message_id)

abbrev pub first_of_two : Message → Option Message → Message
first_of_two m none = m
first_of_two m (some b) = if earlier b m then b else m

unfoldable pub candidate : ℤ → List Message → Option Message
candidate now [] = none
candidate now (m ∷ ms) =
    let rest = candidate now ms in if is_due now m then some (first_of_two m rest) else rest

abbrev pub delivered : Message → M2Delivery
delivered m = record {
  message_id = m.message_id;
  driver = m.driver;
  destination = m.destination;
  payload = m.payload;
  topic = m.topic;
  title = m.title;
  body = m.body;
  attempt = m.attempts + 1;
}

abbrev pub claimed : ℤ → Message → Message
claimed now m = record m {
  state = sending;
  attempts = m.attempts + 1;
  next_attempt_at = none;
  updated_at = now;
}

unfoldable pub claim : Engine → ℤ → Option Message → Tx (Option M2Delivery)
claim e now none = give none
claim e now (some m) = do
  changed ← update e (λ r. list_eq r.message_id m.message_id && is_due_state r.state) (claimed now)
  require (changed == 1)
  require (ltb (m.attempts + 1) 256)
  give (some (delivered m))

unfoldable pub m2_claim_due : Engine → ℤ → Db → Result (Option M2Delivery) × Db
unfolding claim
m2_claim_due e now db =
    transact e (do found ← select e (λ db. candidate now db.messages); claim e now found) db

-- `… WHERE message_id = ?1 AND state = 'sending'`.
abbrev pub sending_with : Text → Message → Bool
sending_with id m = list_eq m.message_id id && is_sending m.state

-- The UPDATE has committed by itself when its count is tested.
unfoldable pub changed_one : Result ℕ × Db → Result (Unit {0}) × Db
changed_one (ok changed, db) = if changed == 1 then (ok tt, db) else (err delivery, db)
changed_one (err x, db) = (err x, db)

unfoldable pub m2_transition_sending :
    Engine → Text → (Message → Message) → Db → Result (Unit {0}) × Db
m2_transition_sending e id f db = changed_one (autocommit (update e (sending_with id) f) db)

abbrev pub accepted : Text → ℤ → Message → Message
accepted ack now m = record m {
  state = provider_accepted;
  provider_ack = some ack;
  updated_at = now;
}

unfoldable pub m2_mark_accepted : Engine → Text → Text → ℤ → Db → Result (Unit {0}) × Db
unfolding m2_transition_sending
m2_mark_accepted e id ack now db =
    admit_if (valid_text ack 256) (m2_transition_sending e id (accepted ack now)) db

abbrev pub given_up : Text → ℤ → Message → Message
given_up reason now m = record m { state = failed; last_error = some reason; updated_at = now }

abbrev pub rescheduled : ℤ → ℤ → Message → Message
rescheduled next now m = record m {
  state = retry_scheduled;
  next_attempt_at = some next;
  last_error = none;
  updated_at = now;
}

-- The branch below the fifth attempt: `checked_add`, then the UPDATE.
unfoldable pub reschedule : Engine → Text → ℤ → Option ℤ → Tx (Unit {0})
reschedule e id now none = fail
reschedule e id now (some next) = do
  changed ← update e (sending_with id) (rescheduled next now)
  require (changed == 1)

-- `query_row` fails where no row is sending under this id.
unfoldable pub retry_body : Engine → Text → Text → ℕ → ℤ → Option Message → Tx (Unit {0})
unfolding reschedule
retry_body e id reason delay_ms now none = fail
retry_body e id reason delay_ms now (some row) =
    if leb 5 row.attempts
    then (do changed ← update e (sending_with id) (given_up reason now); require (changed == 1))
    else reschedule e id now (checked_add now (pos delay_ms))

unfoldable pub m2_mark_retry : Engine → Text → Text → ℕ → ℤ → Db → Result (Unit {0}) × Db
unfolding retry_body
m2_mark_retry e id reason delay_ms now db =
    admit_if (valid_text reason 256 && in_range 1000 3600000 delay_ms)
      (transact e (do
        found ← select e (λ db. first_where (sending_with id) db.messages)
        retry_body e id reason delay_ms now found))
      db

unfoldable pub m2_mark_failed : Engine → Text → Text → ℤ → Db → Result (Unit {0}) × Db
unfolding m2_transition_sending
m2_mark_failed e id reason now db =
    admit_if (valid_text reason 256) (m2_transition_sending e id (given_up reason now)) db

abbrev pub doubted : Text → ℤ → Message → Message
doubted reason now m = record m { state = ambiguous; last_error = some reason; updated_at = now }

unfoldable pub m2_mark_ambiguous : Engine → Text → Text → ℤ → Db → Result (Unit {0}) × Db
unfolding m2_transition_sending
m2_mark_ambiguous e id reason now db =
    admit_if (valid_text reason 256) (m2_transition_sending e id (doubted reason now)) db

-- 'interrupted external delivery may have occurred'.
abbrev pub interrupted : Text
interrupted =
    0x69 ∷ 0x6e ∷ 0x74 ∷ 0x65 ∷ 0x72 ∷ 0x72 ∷ 0x75 ∷ 0x70 ∷ 0x74 ∷ 0x65 ∷ 0x64 ∷ 0x20 ∷ 0x65 ∷ 0x78
    ∷ 0x74 ∷ 0x65 ∷ 0x72 ∷ 0x6e ∷ 0x61 ∷ 0x6c ∷ 0x20 ∷ 0x64 ∷ 0x65 ∷ 0x6c ∷ 0x69 ∷ 0x76 ∷ 0x65
    ∷ 0x72 ∷ 0x79 ∷ 0x20 ∷ 0x6d ∷ 0x61 ∷ 0x79 ∷ 0x20 ∷ 0x68 ∷ 0x61 ∷ 0x76 ∷ 0x65 ∷ 0x20 ∷ 0x6f
    ∷ 0x63 ∷ 0x63 ∷ 0x75 ∷ 0x72 ∷ 0x72 ∷ 0x65 ∷ 0x64 ∷ []

unfoldable pub m2_recover_interrupted : Engine → ℤ → Db → Result ℕ × Db
m2_recover_interrupted e now db =
    autocommit (update e (λ m. is_sending m.state) (doubted interrupted now)) db

abbrev state_of : Option Message → Option DeliveryState
state_of none = none
state_of (some m) = some m.state

unfoldable pub m2_state : Engine → Text → Db → Result (Option DeliveryState)
m2_state e id db = if e.reads then ok (state_of (find id db.messages)) else err delivery

abbrev pub requeued : ℤ → Message → Message
requeued now m = record m {
  state = queued;
  next_attempt_at = some now;
  last_error = none;
  updated_at = now;
}

unfoldable pub requeue : Engine → Text → ℤ → Option Message → Tx (Option Bool)
requeue e id now none = give none
requeue e id now (some m) = if not (is_failed m.state) then give (some false) else do
  changed ← update e (λ r. list_eq r.message_id id && is_failed r.state) (requeued now)
  require (changed == 1)
  give (some true)

unfoldable pub m6_requeue_failed : Engine → Text → ℤ → Db → Result (Option Bool) × Db
unfolding requeue
m6_requeue_failed e id now db =
    admit_if (valid_message_id id)
      (transact e (do found ← select e (λ db. find id db.messages); requeue e id now found)) db

pub record M6QueueSummary : Type 0 where
  pub queued_count : ℕ
  pub retry_scheduled_count : ℕ
  pub sending_count : ℕ
  pub provider_accepted_count : ℕ
  pub failed_count : ℕ
  pub ambiguous_count : ℕ

abbrev is_queued : DeliveryState → Bool
is_queued queued = true
is_queued _ = false

abbrev is_scheduled : DeliveryState → Bool
is_scheduled retry_scheduled = true
is_scheduled _ = false

abbrev pub is_ambiguous : DeliveryState → Bool
is_ambiguous ambiguous = true
is_ambiguous _ = false

-- `m6_state_count`; a count of rows fits `u64`.
abbrev state_count : (DeliveryState → Bool) → Db → ℕ
state_count is_state db = count_where (λ (m : Message). is_state m.state) db.messages

unfoldable pub m6_queue_summary : Engine → Db → Result M6QueueSummary
m6_queue_summary e db =
    if e.reads
    then ok (record {
      queued_count = state_count is_queued db;
      retry_scheduled_count = state_count is_scheduled db;
      sending_count = state_count is_sending db;
      provider_accepted_count = state_count is_accepted db;
      failed_count = state_count is_failed db;
      ambiguous_count = state_count is_ambiguous db;
    })
    else err delivery

pub record M6MessageStatus : Type 0 where
  pub state : DeliveryState
  pub attempts : ℕ

abbrev status_of : Option Message → Option M6MessageStatus
status_of none = none
status_of (some m) = some (record { state = m.state; attempts = m.attempts })

unfoldable pub m6_message_status : Engine → Text → Db → Result (Option M6MessageStatus)
m6_message_status e id db =
    if valid_message_id id
    then if e.reads then ok (status_of (find id db.messages)) else err delivery
    else err delivery
