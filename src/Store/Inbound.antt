-- ===== src/Store/Inbound.antt =====
-- The inbound control plane: `m4_set_inbound_enabled` and `m4_submit_inbound`
-- (crates/msgriver-store/src/lib.rs).
pub mod Outcome
pub mod Calm
use msgriver.Common.{
  ℕ, ◌+◌, Bool, true, false, ◌&&◌, ◌||◌, not, Option, none, some, List, [], ◌∷◌, ◌++◌, leb, ltb,
  ◌==◌, if◌then◌else◌, any, list_eq,
}
use msgriver.Common.Int.{ℤ, pos, ltb_ℤ, checked_sub}
use msgriver.Store.Validation.{Text, valid_text, valid_idempotency_key, valid_phone_sender}
use msgriver.Store.Schema.{
  Result, ok, err, delivery, Message, Receipt, RateEvent, Db, Engine, Tx, ◌>>=◌, ◌>>◌, give, fail,
  require, select, some_or_fail, transact, autocommit, admit_if, count_where, insert, known_driver,
}
use msgriver.Store.Queue.{M3Submission, m3_row}

pub record M4InboundSubmission : Type 0 where
  pub provider_message_id : Text
  pub sender : Text
  pub verb : Text
  pub driver : Text
  pub destination : Text
  pub payload : Text

pub data M4InboundDisposition : Type 0 where
  accepted disabled replayed rate_limited : M4InboundDisposition

-- 'notify' and 'status'.
abbrev pub notify : Text
notify = 0x6e ∷ 0x6f ∷ 0x74 ∷ 0x69 ∷ 0x66 ∷ 0x79 ∷ []

abbrev pub status : Text
status = 0x73 ∷ 0x74 ∷ 0x61 ∷ 0x74 ∷ 0x75 ∷ 0x73 ∷ []

abbrev pub known_verb : Text → Bool
known_verb v = list_eq v notify || list_eq v status

unfoldable pub set_enabled : Engine → Bool → Tx (Unit {0})
set_enabled e enabled db =
    if e.writes then ok (tt, record db { inbound_enabled = enabled }) else err delivery

-- The UPDATE always changes the one control row.
unfoldable pub m4_set_inbound_enabled : Engine → Bool → Db → Result (Unit {0}) × Db
unfolding set_enabled
m4_set_inbound_enabled e enabled db = autocommit (set_enabled e enabled) db

unfoldable pub valid_inbound : M4InboundSubmission → Bool
valid_inbound s =
    valid_idempotency_key s.provider_message_id
    && (valid_phone_sender s.sender
        && (known_verb s.verb
            && (known_driver s.driver
                && (valid_text s.destination 256 && valid_text s.payload 4096))))

abbrev pub has_receipt : Text → List Receipt → Bool
has_receipt id = any (λ r. list_eq r.provider_message_id id)

-- `WHERE sender = ?1 AND accepted_at_unix_ms > ?2`.
abbrev pub recent : Text → ℤ → RateEvent → Bool
recent sender start v = list_eq v.sender sender && ltb_ℤ start v.accepted_at

unfoldable pub over_rate : Engine → M4InboundSubmission → ℤ → Tx Bool
over_rate e s now =
    if list_eq s.verb notify
    then (do
      start ← some_or_fail (checked_sub now (pos 600000))
      count ← select e (λ db. count_where (recent s.sender start) db.rate_events)
      give (leb 4 count))
    else give false

-- A receipt's id is a primary key, and its verb is checked.
unfoldable pub insert_receipt : Engine → Receipt → Tx (Unit {0})
insert_receipt e r db =
    if e.writes && (known_verb r.verb && not (has_receipt r.provider_message_id db.receipts))
    then ok (tt, record db { receipts = r ∷ db.receipts })
    else err delivery

unfoldable pub insert_event : Engine → RateEvent → Tx (Unit {0})
insert_event e v db =
    if e.writes then ok (tt, record db { rate_events = v ∷ db.rate_events }) else err delivery

abbrev pub receipt_of : M4InboundSubmission → ℤ → Receipt
receipt_of s now = record {
  provider_message_id = s.provider_message_id;
  sender = s.sender;
  verb = s.verb;
  accepted_at = now;
}

unfoldable pub note_event : Engine → M4InboundSubmission → ℤ → Bool → Tx (Unit {0})
note_event e s now true = insert_event e (record { sender = s.sender; accepted_at = now })
note_event e s now false = give tt

-- `format!("m4-{}", provider_message_id)`.
abbrev pub m4_key : Text → Text
m4_key id = b'm' ∷ b'4' ∷ b'-' ∷ id

module _ (digest : List ℕ → List ℕ) where
  abbrev pub m4_intent : M4InboundSubmission → M3Submission
  m4_intent s = record {
    idempotency_key = m4_key s.provider_message_id;
    driver = s.driver;
    destination = s.destination;
    payload = s.payload;
  }

  unfoldable pub record_inbound : Engine → M4InboundSubmission → ℤ → Tx M4InboundDisposition
  unfolding note_event
  record_inbound e s now = do
    require (valid_idempotency_key (m4_key s.provider_message_id))
    insert e (m3_row digest (m4_intent s) s.destination now)
    insert_receipt e (receipt_of s now)
    note_event e s now (list_eq s.verb notify)
    give accepted

  -- The three early returns, each on what was read.
  unfoldable pub unless_limited : Engine → M4InboundSubmission → ℤ → Bool → Tx M4InboundDisposition
  unless_limited e s now true = give rate_limited
  unless_limited e s now false = record_inbound e s now

  unfoldable pub unless_seen : Engine → M4InboundSubmission → ℤ → Bool → Tx M4InboundDisposition
  unless_seen e s now true = give replayed
  unless_seen e s now false = do limited ← over_rate e s now; unless_limited e s now limited

  unfoldable pub if_enabled : Engine → M4InboundSubmission → ℤ → Bool → Tx M4InboundDisposition
  if_enabled e s now false = give disabled
  if_enabled e s now true = do
    seen ← select e (λ db. has_receipt s.provider_message_id db.receipts)
    unless_seen e s now seen

  unfoldable pub m4_submit_inbound :
      Engine → M4InboundSubmission → ℤ → Db → Result M4InboundDisposition × Db
  m4_submit_inbound e s now db =
      admit_if (valid_inbound s)
        (transact e (do enabled ← select e (λ db. db.inbound_enabled); if_enabled e s now enabled))
        db
