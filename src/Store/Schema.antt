-- ===== src/Store/Schema.antt =====
-- The tables of migrations 3 to 5 and the engine's part in an operation
-- (crates/msgriver-store/src/migration_v3_m2_delivery.sql, migration_v4_driver_queue.sql and
-- migration_v5_whatsapp_inbound.sql). A table is the list of its rows, latest first. A statement
-- that would break a CHECK, a PRIMARY KEY or a UNIQUE constraint fails. Besides, the engine may fail
-- to begin, read, write or commit; a transaction that does not commit is rolled back.
use msgriver.Common.{
  ℕ, suc, Bool, true, false, ◌&&◌, ◌||◌, not, Option, none, some, List, [], ◌∷◌, leb, ◌==◌,
  if◌then◌else◌, in_range, all, list_eq,
}
use msgriver.Common.Int.{ℤ}
use msgriver.Store.Validation.{Text, char_length}

pub data StoreError : Type 0 where
  scaffold invalid_profile runtime_version open_failed profile integrity migration : StoreError
  selected_key_snapshot delivery : StoreError

pub data Result {ℓ} (A : Type ℓ) : Type ℓ where
  ok : A → Result A
  err : StoreError → Result A

pub data DeliveryState : Type 0 where
  queued sending retry_scheduled provider_accepted ambiguous failed : DeliveryState

-- A row of `m3_messages`. Times are `i64`; `attempts` is never negative, by its CHECK.
pub record Message : Type 0 where
  pub message_id : Text
  pub idempotency_key : Text
  pub driver : Text
  pub destination : Text
  pub payload : Text
  pub topic : Text
  pub title : Option Text
  pub body : Text
  pub state : DeliveryState
  pub attempts : ℕ
  pub next_attempt_at : Option ℤ
  pub provider_ack : Option Text
  pub last_error : Option Text
  pub created_at : ℤ
  pub updated_at : ℤ

-- Rows of `m4_inbound_receipts` and `m4_notify_rate_events`.
pub record Receipt : Type 0 where
  pub provider_message_id : Text
  pub sender : Text
  pub verb : Text
  pub accepted_at : ℤ

pub record RateEvent : Type 0 where
  pub sender : Text
  pub accepted_at : ℤ

-- `inbound_enabled` is the one row of `m4_inbound_control`, which migration 5 inserts.
pub record Db : Type 0 where
  pub messages : List Message
  pub inbound_enabled : Bool
  pub receipts : List Receipt
  pub rate_events : List RateEvent

abbrev pub ntfy : Text
ntfy = 0x6e ∷ 0x74 ∷ 0x66 ∷ 0x79 ∷ []

abbrev pub whatsapp : Text
whatsapp = 0x77 ∷ 0x68 ∷ 0x61 ∷ 0x74 ∷ 0x73 ∷ 0x61 ∷ 0x70 ∷ 0x70 ∷ []

abbrev pub known_driver : Text → Bool
known_driver d = list_eq d ntfy || list_eq d whatsapp

abbrev pub is_due_state : DeliveryState → Bool
is_due_state queued = true
is_due_state retry_scheduled = true
is_due_state _ = false

abbrev pub is_sending : DeliveryState → Bool
is_sending sending = true
is_sending _ = false

abbrev pub is_accepted : DeliveryState → Bool
is_accepted provider_accepted = true
is_accepted _ = false

abbrev pub is_failed : DeliveryState → Bool
is_failed failed = true
is_failed _ = false

abbrev pub has_error : DeliveryState → Bool
has_error ambiguous = true
has_error failed = true
has_error _ = false

abbrev pub is_some {ℓ} : {A : Type ℓ} → Option A → Bool
is_some none = false
is_some (some a) = true

abbrev pub same : Bool → Bool → Bool
same true b = b
same false b = not b

-- The CHECK constraints of the columns that hold text.
unfoldable pub text_checks : Message → Bool
text_checks m =
    char_length m.message_id == 64
    && (in_range 1 128 (char_length m.idempotency_key)
        && (in_range 1 64 (char_length m.topic)
            && (in_range 1 4096 (char_length m.body) && known_driver m.driver)))

-- The CHECK constraints of the delivery state.
unfoldable pub state_checks : Message → Bool
state_checks m =
    leb m.attempts 5
    && (same (is_due_state m.state) (is_some m.next_attempt_at)
        && (same (is_accepted m.state) (is_some m.provider_ack)
            && same (has_error m.state) (is_some m.last_error)))

abbrev pub row_checks : Message → Bool
row_checks m = text_checks m && state_checks m

-- What the engine manages to do in one operation.
pub record Engine : Type 0 where
  pub begins : Bool
  pub reads : Bool
  pub writes : Bool
  pub commits : Bool

-- A statement sequence inside a transaction.
abbrev pub Tx : Type 0 → Type 0
Tx A = Db → Result (A × Db)

infixl 5 ◌>>=◌ ◌>>◌
unfoldable pub ◌>>=◌ : {A B : Type 0} → Tx A → (A → Tx B) → Tx B
◌>>=◌ m f db = elim (m db) [ ok (a, db') ↦ f a db' | err e ↦ err e ]

unfoldable pub ◌>>◌ : {B : Type 0} → Tx (Unit {0}) → Tx B → Tx B
◌>>◌ m k db = elim (m db) [ ok (a, db') ↦ k db' | err e ↦ err e ]

unfoldable pub give : {A : Type 0} → A → Tx A
give a db = ok (a, db)

unfoldable pub fail : {A : Type 0} → Tx A
fail db = err delivery

unfoldable pub require : Bool → Tx (Unit {0})
require true db = ok (tt, db)
require false db = err delivery

-- A query, and `ok_or(StoreError::Delivery)?`.
unfoldable pub select : {A : Type 0} → Engine → (Db → A) → Tx A
select e q db = if e.reads then ok (q db, db) else err delivery

unfoldable pub some_or_fail : {A : Type 0} → Option A → Tx A
some_or_fail none db = err delivery
some_or_fail (some a) db = ok (a, db)

-- Rust's transaction: an error on the way, or at the commit, leaves the database as it was.
unfoldable pub finish : {A : Type 0} → Engine → Db → Result (A × Db) → Result A × Db
finish e db (ok (a, db')) = if e.commits then (ok a, db') else (err delivery, db)
finish e db (err x) = (err x, db)

unfoldable pub transact : {A : Type 0} → Engine → Tx A → Db → Result A × Db
unfolding finish
transact e body db = if e.begins then finish e db (body db) else (err delivery, db)

-- A single statement outside a transaction commits by itself.
unfoldable pub settle : {A : Type 0} → Db → Result (A × Db) → Result A × Db
settle db (ok (a, db')) = (ok a, db')
settle db (err x) = (err x, db)

unfoldable pub autocommit : {A : Type 0} → Tx A → Db → Result A × Db
unfolding settle
autocommit body db = settle db (body db)

-- `if !valid { return Err(StoreError::Delivery) }` in front of an operation.
unfoldable pub admit_if : {A : Type 0} → Bool → (Db → Result A × Db) → Db → Result A × Db
admit_if true op db = op db
admit_if false op db = (err delivery, db)

-- To unfold this is to unfold all the above.
unfoldable pub steps : Unit {0}
unfolding ◌>>=◌ ◌>>◌ give fail require select some_or_fail transact autocommit admit_if
steps = tt

-- `SELECT … WHERE message_id = ?1` and `… WHERE idempotency_key = ?1`.
unfoldable pub find : Text → List Message → Option Message
find id [] = none
find id (m ∷ ms) = if list_eq m.message_id id then some m else find id ms

unfoldable pub find_key : Text → List Message → Option Message
find_key key [] = none
find_key key (m ∷ ms) = if list_eq m.idempotency_key key then some m else find_key key ms

-- The first row that a WHERE clause admits.
unfoldable pub first_where : (Message → Bool) → List Message → Option Message
first_where p [] = none
first_where p (m ∷ ms) = if p m then some m else first_where p ms

-- `SELECT COUNT(*) … WHERE p`, and `UPDATE … SET f WHERE p`.
unfoldable pub count_where {ℓ} : {A : Type ℓ} → (A → Bool) → List A → ℕ
count_where p [] = 0
count_where p (m ∷ ms) = let rest = count_where p ms in if p m then suc rest else rest

unfoldable pub update_where : (Message → Bool) → (Message → Message) → List Message → List Message
update_where p f [] = []
update_where p f (m ∷ ms) = (if p m then f m else m) ∷ update_where p f ms

-- The number of rows changed, or failure where a changed row would break a CHECK.
unfoldable pub update : Engine → (Message → Bool) → (Message → Message) → Tx ℕ
update e p f db =
    if e.writes && all (λ m. not (p m) || row_checks (f m)) db.messages
    then ok (count_where p db.messages, record db { messages = update_where p f db.messages })
    else err delivery

unfoldable pub insert : Engine → Message → Tx (Unit {0})
insert e m db =
    if e.writes
      && (row_checks m
          && (not (is_some (find m.message_id db.messages))
              && not (is_some (find_key m.idempotency_key db.messages))))
    then ok (tt, record db { messages = m ∷ db.messages })
    else err delivery
