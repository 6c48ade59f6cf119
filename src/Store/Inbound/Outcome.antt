-- ===== src/Store/Inbound/Outcome.antt =====
-- What each answer of `m4_submit_inbound` means (crates/msgriver-store/src/lib.rs).
use msgriver.Common.{
  ℕ, ◌≡◌, ◌∙◌, sym, ap, Bool, true, false, ◌&&◌, not, any, Option, none, some, List, ◌∷◌, arith,
  leb, if◌then◌else◌, list_eq,
}
use msgriver.Common.Int.{ℤ, pos, ltb_ℤ, checked_sub}
use msgriver.Store.Schema.{
  ok, Message, queued, Receipt, RateEvent, Db, Engine, give, require, select, insert, count_where,
  steps,
}
use msgriver.Store.Queue.{m3_row, m3_message_id}
use msgriver.Store.Inbound.{
  M4InboundSubmission, M4InboundDisposition, accepted, disabled, replayed, rate_limited,
  m4_submit_inbound, valid_inbound, if_enabled, unless_seen, unless_limited, record_inbound,
  over_rate, has_receipt, receipt_of, notify, m4_intent, insert_receipt, insert_event, note_event,
}
use msgriver.Store.Inversion.{
  admit_if-ok, admit_if-admits, transact-ok, bind-ok, seq-ok, select-ok, require-ok, insert-ok,
}

module _ (digest : List ℕ → List ℕ) (s : M4InboundSubmission) (now : ℤ) where
  abbrev pub seen : Db → Bool
  seen db = any (λ (r : Receipt). list_eq r.provider_message_id s.provider_message_id) db.receipts

  -- An accepted notification of the sender, later than `start`.
  abbrev pub in_window : ℤ → RateEvent → Bool
  in_window start v = list_eq v.sender s.sender && ltb_ℤ start v.accepted_at

  -- Less than four notifications of the sender in the ten minutes before.
  abbrev pub within_rate : Option ℤ → Db → Bool
  within_rate none db = false
  within_rate (some start) db = not (leb 4 (count_where (in_window start) db.rate_events))

  -- Four or more of them.
  abbrev pub beyond_rate : Option ℤ → Db → Bool
  beyond_rate none db = false
  beyond_rate (some start) db = leb 4 (count_where (in_window start) db.rate_events)

  -- The message that is put in the queue, under the key `m4-` with the submission's id.
  abbrev pub queued_message : Message
  queued_message = record {
    message_id = m3_message_id digest (record {
      idempotency_key = b'm' ∷ b'4' ∷ b'-' ∷ s.provider_message_id;
      driver = s.driver;
      destination = s.destination;
      payload = s.payload;
    });
    idempotency_key = b'm' ∷ b'4' ∷ b'-' ∷ s.provider_message_id;
    driver = s.driver;
    destination = s.destination;
    payload = s.payload;
    topic = s.destination;
    title = none;
    body = s.payload;
    state = queued;
    attempts = 0;
    next_attempt_at = some now;
    provider_ack = none;
    last_error = none;
    created_at = now;
    updated_at = now;
  }

  -- The database once the submission is taken.
  abbrev pub taken : Db → Db
  taken db = record {
    messages = queued_message ∷ db.messages;
    inbound_enabled = db.inbound_enabled;
    receipts =
        record {
          provider_message_id = s.provider_message_id;
          sender = s.sender;
          verb = s.verb;
          accepted_at = now;
        }
        ∷ db.receipts;
    rate_events =
        if list_eq s.verb notify
        then record { sender = s.sender; accepted_at = now } ∷ db.rate_events
        else db.rate_events;
  }

  pub data Outcome (db : Db) : M4InboundDisposition → Db → Type 0 where
    was_disabled : db.inbound_enabled ≡ false → Outcome db disabled db
    was_seen : db.inbound_enabled ≡ true → seen db ≡ true → Outcome db replayed db
    was_limited :
        db.inbound_enabled ≡ true
        → seen db ≡ false
        → list_eq s.verb notify ≡ true
        → beyond_rate (checked_sub now (pos 600000)) db ≡ true
        → Outcome db rate_limited db
    was_taken :
        db.inbound_enabled ≡ true
        → seen db ≡ false
        → (list_eq s.verb notify ≡ true → within_rate (checked_sub now (pos 600000)) db ≡ true)
        → Outcome db accepted (taken db)

  over_rate-ok :
      (e : Engine) (db db' : Db) (b : Bool)
      → over_rate e s now db ≡ ok (b, db')
      → (db' ≡ db)
        × (b ≡ (list_eq s.verb notify && beyond_rate (checked_sub now (pos 600000)) db))
        × (b ≡ (list_eq s.verb notify && not (within_rate (checked_sub now (pos 600000)) db)))
  unfolding over_rate steps
  over_rate-ok e db db' b h = ground arith

  insert_receipt-ok :
      (e : Engine) (r : Receipt) (db db' : Db)
      → insert_receipt e r db ≡ ok (tt, db')
      → db' ≡ record db { receipts = r ∷ db.receipts }
  unfolding insert_receipt
  insert_receipt-ok e r db db' h = ground arith

  abbrev noted : Bool → Db → Db
  noted b db = record db {
    rate_events =
        if b
        then record { sender = s.sender; accepted_at = now } ∷ db.rate_events
        else db.rate_events;
  }

  note_event-ok :
      (e : Engine) (b : Bool) (db db' : Db)
      → note_event e s now b db ≡ ok (tt, db')
      → db' ≡ noted b db
  unfolding note_event insert_event give
  note_event-ok e true db db' h = ground arith
  note_event-ok e false db db' h = ground arith

  give-ok :
      (a r : M4InboundDisposition) (db db' : Db) → give a db ≡ ok (r, db') → (r ≡ a) × (db' ≡ db)
  unfolding give
  give-ok a r db db' h = ground arith

  record_inbound-ok :
      (e : Engine) (db db' : Db) (r : M4InboundDisposition)
      → record_inbound digest e s now db ≡ ok (r, db')
      → (r ≡ accepted) × (db' ≡ taken db)
  unfolding record_inbound
  record_inbound-ok e db db' r h =
      let row = m3_row digest (m4_intent digest s) s.destination now in
      let (d1, q1, h1) = seq-ok (require _) _ db db' r h in
      let (d2, q2, h2) = seq-ok (insert e row) _ d1 db' r h1 in
      let (d3, q3, h3) = seq-ok (insert_receipt e (receipt_of s now)) _ d2 db' r h2 in
      let (d4, q4, h4) = seq-ok (note_event e s now (list_eq s.verb notify)) _ d3 db' r h3 in
      let e1 = (require-ok _ tt db d1 q1).1 in
      let e2 = insert-ok e row d1 d2 q2 in
      let e3 = insert_receipt-ok e (receipt_of s now) d2 d3 q3 in
      let e4 = note_event-ok e (list_eq s.verb notify) d3 d4 q4 in
      let (a, e5) = give-ok accepted r d4 db' h4 in
      (
        a,
        e5
            ∙ (e4
                ∙ ap (noted (list_eq s.verb notify)) (
                    e3
                    ∙ ap (λ (d : Db). record d { receipts = receipt_of s now ∷ d.receipts })
                        (e2 ∙ ap (λ (d : Db). record d { messages = row ∷ d.messages }) e1))),
      )

  limited-Outcome :
      (e : Engine) (b : Bool) (r : M4InboundDisposition) (db db' : Db)
      → db.inbound_enabled ≡ true
      → seen db ≡ false
      → b ≡ (list_eq s.verb notify && beyond_rate (checked_sub now (pos 600000)) db)
      → b ≡ (list_eq s.verb notify && not (within_rate (checked_sub now (pos 600000)) db))
      → unless_limited digest e s now b db ≡ ok (r, db')
      → Outcome db r db'
  unfolding unless_limited
  limited-Outcome e true r db db' on fresh m l h =
      let (a, d) = give-ok rate_limited r db db' h in
      rw (a, d) (was_limited on fresh (ground arith) (ground arith))
  limited-Outcome e false r db db' on fresh m l h =
      let (a, d) = record_inbound-ok e db db' r h in
      rw (a, d) (was_taken on fresh (λ v. ground arith))

  seen-Outcome :
      (e : Engine) (b : Bool) (r : M4InboundDisposition) (db db' : Db)
      → db.inbound_enabled ≡ true
      → seen db ≡ b
      → unless_seen digest e s now b db ≡ ok (r, db')
      → Outcome db r db'
  unfolding unless_seen
  seen-Outcome e true r db db' on was h =
      let (a, d) = give-ok replayed r db db' h in rw (a, d) (was_seen on was)
  seen-Outcome e false r db db' on fresh h =
      let (b, mid, q, k) = bind-ok (over_rate e s now) _ db db' r h in
      let (same, more, limit) = over_rate-ok e db mid b q in
      limited-Outcome e b r db db' on fresh more limit
        (sym (ap (unless_limited digest e s now b) same) ∙ k)

  enabled-Outcome :
      (e : Engine) (b : Bool) (r : M4InboundDisposition) (db db' : Db)
      → db.inbound_enabled ≡ b
      → if_enabled digest e s now b db ≡ ok (r, db')
      → Outcome db r db'
  unfolding if_enabled
  enabled-Outcome e false r db db' off h =
      let (a, d) = give-ok disabled r db db' h in rw (a, d) (was_disabled off)
  enabled-Outcome e true r db db' on h =
      let (b, mid, q, k) =
        bind-ok (select e (λ db. has_receipt s.provider_message_id db.receipts)) _ db db' r h in
      let (qb, same) =
        select-ok e (λ db. has_receipt s.provider_message_id db.receipts) db mid b q in
      seen-Outcome e b r db db' on (sym qb) (sym (ap (unless_seen digest e s now b) same) ∙ k)

  -- If an inbound submission is answered, it is valid, and the answer is `disabled` with the switch
  -- off, `replayed` with a receipt of the same id, `rate_limited` for a notification with four of
  -- the sender in the ten minutes before, each with the database as it was; or `accepted` with none
  -- of these, and the database has the message, the receipt and, for a notification, its event.
  pub m4_submit_inbound-Outcome :
      (e : Engine) (r : M4InboundDisposition) (db db' : Db)
      → m4_submit_inbound digest e s now db ≡ (ok r, db')
      → (valid_inbound s ≡ true) × Outcome db r db'
  unfolding m4_submit_inbound
  m4_submit_inbound-Outcome e r db db' h =
      let (b, mid, q, k) =
        bind-ok (select e (λ (db : Db). db.inbound_enabled)) _ db db' r
          (transact-ok e _ db db' r (admit_if-ok (valid_inbound s) _ db db' r h)) in
      let (qb, same) = select-ok e (λ (db : Db). db.inbound_enabled) db mid b q in
      (
        admit_if-admits (valid_inbound s) _ db db' r h,
        enabled-Outcome e b r db db' (sym qb) (sym (ap (if_enabled digest e s now b) same) ∙ k),
      )
