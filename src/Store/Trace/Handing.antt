-- ===== src/Store/Trace/Handing.antt =====
-- A message handed out by `m2_claim_due`, and one taken back by `m2_mark_retry`, read off the table
-- (crates/msgriver-store/src/lib.rs).
use msgriver.Common.{
  ℕ, ◌+◌, ◌≤◌, ◌≡◌, refl, ◌∙◌, sym, ap, ◌⊎◌, inl, inr, Bool, true, false, ◌&&◌, ◌||◌, not, Option,
  none, some, List, arith, if◌then◌else◌, leb, in_range, Bool-cases,
}
use mathlib.Core.Path.{subst}
use msgriver.Common.Int.{ℤ, pos, ◌+ℤ◌, ◌≤ℤ◌, ◌<ℤ◌, is_i64, eq_of_parts, ltb_ℤ, eqb_ℤ}
use msgriver.Store.Validation.{Text, valid_text, text_lt}
use msgriver.Store.Schema.{
  Message, Db, Engine, Result, ok, DeliveryState, queued, sending, retry_scheduled, failed, find,
  is_due_state, is_sending, update_where,
}
use msgriver.Store.Queue.{
  M2Delivery, m2_claim_due, m2_mark_retry, candidate, claimed, given_up, rescheduled, is_due,
  earlier, arrived,
}
use msgriver.Store.Queue.Order.{is_first}
use msgriver.Store.Queue.Effects.{claimed-Evolves, given_up-Evolves, rescheduled-Evolves}
use msgriver.Store.Queue.Claiming.{m2_claim_due-Claims, m2_claim_due-stuck, candidate-due, and_left}
use msgriver.Store.Inversion.{able, is_ok}
use msgriver.Store.Evolution.{Evolves}
use msgriver.Store.Trace.Once.{find-candidate}
use msgriver.Store.Trace.Sound.{is_sound}
use msgriver.Store.Trace.Unique.{at_id}
use msgriver.Store.Trace.Progress.{m2_claim_due-run, m2_mark_retry-run, retried, find-all}
use msgriver.Store.Trace.Replaced.{Replaces, update_where-Replaces}

-- Waiting to be sent, with a deadline that has come.
pub record Waits (now : ℤ) (m : Message) : Type 0 where
  pub state : (m.state ≡ queued) ⊎ (m.state ≡ retry_scheduled)
  pub deadline : ℤ
  pub timed : m.next_attempt_at ≡ some deadline
  pub arrived : deadline ≤ℤ now

-- `a` comes no later than `b`.
abbrev pub Precedes : Message → Message → Type 0
Precedes a b =
    (a.created_at <ℤ b.created_at)
    ⊎ ((a.created_at ≡ b.created_at) × (text_lt b.message_id a.message_id ≡ false))

-- The delivery of a row, and the row while it is being delivered.
abbrev pub delivery_of : Message → M2Delivery
delivery_of m = record {
  message_id = m.message_id;
  driver = m.driver;
  destination = m.destination;
  payload = m.payload;
  topic = m.topic;
  title = m.title;
  body = m.body;
  attempt = m.attempts + 1;
}

abbrev pub in_flight : ℤ → Message → Message
in_flight now m = record m {
  state = sending;
  attempts = m.attempts + 1;
  next_attempt_at = none;
  updated_at = now;
}

pub record HandsOut (now : ℤ) (db : Db) (d : M2Delivery) (db' : Db) : Type 0 where
  pub row : Message
  pub stored : find row.message_id db.messages ≡ some row
  pub waits : Waits now row
  pub first : (x : Text) (r : Message) → find x db.messages ≡ some r → Waits now r → Precedes row r
  pub spare : row.attempts ≤ 4
  pub delivery : d ≡ delivery_of row
  pub replaced : Replaces row (in_flight now row) db db'

waiting_state : (s : DeliveryState) → is_due_state s ≡ true → (s ≡ queued) ⊎ (s ≡ retry_scheduled)
waiting_state queued h = inl refl
waiting_state retry_scheduled h = inr refl
waiting_state sending h = absurd (ground arith)
waiting_state DeliveryState.provider_accepted h = absurd (ground arith)
waiting_state DeliveryState.ambiguous h = absurd (ground arith)
waiting_state failed h = absurd (ground arith)

and_right : (x y : Bool) → (x && y) ≡ true → y ≡ true
and_right x y h = ground arith

timed_Waits :
    (now : ℤ) (m : Message) (o : Option ℤ)
    → m.next_attempt_at ≡ o
    → is_due_state m.state ≡ true
    → arrived o now ≡ true
    → Waits now m
timed_Waits now m none e s h = absurd (ground arith)
timed_Waits now m (some t) e s h = record {
  state = waiting_state m.state s;
  deadline = t;
  timed = e;
  arrived = ground arith;
}

is_due-Waits : (now : ℤ) (m : Message) → is_due now m ≡ true → Waits now m
is_due-Waits now m h = timed_Waits now m m.next_attempt_at refl (and_left _ _ h) (and_right _ _ h)

due_state : (s : DeliveryState) → (s ≡ queued) ⊎ (s ≡ retry_scheduled) → is_due_state s ≡ true
due_state s (inl e) = ap is_due_state e
due_state s (inr e) = ap is_due_state e

both : (x y : Bool) → x ≡ true → y ≡ true → (x && y) ≡ true
both x y h k = ground arith

has_arrived : (t now : ℤ) → t ≤ℤ now → arrived (some t) now ≡ true
has_arrived t now h = ground arith

Waits-is_due : (now : ℤ) (m : Message) → Waits now m → is_due now m ≡ true
Waits-is_due now m w =
    both _ _ (due_state m.state w.state)
      (ap (λ o. arrived o now) w.timed ∙ has_arrived w.deadline now w.arrived)

ordered :
    (x y : ℤ) (less : Bool)
    → (ltb_ℤ y x || (eqb_ℤ y x && less)) ≡ false
    → (x <ℤ y) ⊎ ((x ≡ y) × (less ≡ false))
ordered x y less h = elim (Bool-cases (ltb_ℤ x y)) [
  | inl k ↦ inl (ground arith)
  | inr k ↦ inr (eq_of_parts x y (ground arith), ground arith)
]

not_earlier : (a b : Message) → earlier b a ≡ false → Precedes a b
not_earlier a b h = ordered a.created_at b.created_at (text_lt b.message_id a.message_id) h

not_both : (d e : Bool) → not (d && e) ≡ true → d ≡ true → e ≡ false
not_both d e h k = ground arith

is_first-Precedes :
    (now : ℤ) (m r : Message) (x : Text) (ms : List Message)
    → is_first now m ms ≡ true
    → find x ms ≡ some r
    → Waits now r
    → Precedes m r
is_first-Precedes now m r x ms h f w = not_earlier m r (
    not_both (is_due now r) (earlier r m)
      (find-all (λ (z : Message). not (is_due now z && earlier z m)) x ms r f h)
      (Waits-is_due now r w))

at_id-state :
    (id : Text) (q : Message → Bool) (f : Message → Message) (m : Message)
    → at_id id q f m ≡ true
    → q m ≡ true
at_id-state id q f m h = and_right _ _ h

few_attempts :
    (e : Engine) (now : ℤ) (db db' : Db) (d : M2Delivery) (m : Message)
    → candidate now db.messages ≡ some m
    → m2_claim_due e now db ≡ (ok (some d), db')
    → m.attempts ≤ 4
few_attempts e now db db' d m c h = elim (Bool-cases (leb m.attempts 4)) [
  | inl k ↦ ground arith
  | inr k ↦ absurd (
      clash (ap (λ (r : Result (Option M2Delivery) × Db). is_ok r.0) h)
        (m2_claim_due-stuck e now db m c (ground arith)).0)
]
  where
    clash : is_ok (m2_claim_due e now db).0 ≡ true → is_ok (m2_claim_due e now db).0 ≡ false → ⊥
    clash p q = ground arith

-- If the table of messages satisfies the schema's constraints and a claim returns a delivery, with
-- whatever the engine does, then the delivery is that of a stored row that is queued or scheduled
-- again with a deadline that has come; no other such row was created earlier, or at the same time
-- with a smaller id; the row had at most four attempts, and the delivery has its content and the
-- number of the next attempt; and the database afterwards is the same but for this row, which is
-- sending, with that number of attempts, no deadline and the clock's time of change.
pub m2_claim_due-HandsOut :
    (e : Engine) (now : ℤ) (db db' : Db) (d : M2Delivery)
    → is_sound db.messages ≡ true
    → m2_claim_due e now db ≡ (ok (some d), db')
    → HandsOut now db d db'
m2_claim_due-HandsOut e now db db' d s h =
    let c = m2_claim_due-Claims e now db db' d h in
    let stored = find-candidate now db.messages c.row s c.found in
    let due = candidate-due now db.messages c.row c.found in
    record {
      row = c.row;
      stored = stored;
      waits = is_due-Waits now c.row due;
      first = λ x r f w. is_first-Precedes now c.row r x db.messages (and_right _ _ c.due) f w;
      spare = few_attempts e now db db' d c.row c.found h;
      delivery = c.delivery;
      replaced = subst (Replaces c.row (in_flight now c.row) db) (sym c.update) (
          update_where-Replaces c.row.message_id (λ r. is_due_state r.state) (claimed now)
            (λ r k.
              claimed-Evolves now r
                (at_id-state c.row.message_id (λ z. is_due_state z.state) (claimed now) r k))
            db c.row stored (and_left _ _ due));
    }

-- If the table satisfies the schema's constraints and the row to be claimed first has at most four
-- attempts, a claim on an engine that does not fail returns a delivery with this row's content and
-- the number of its next attempt, and the database afterwards is the same but for this row, which
-- is sending, with that number of attempts, no deadline and the clock's time of change.
pub m2_claim_due-able :
    (now : ℤ) (db : Db) (m : Message)
    → is_sound db.messages ≡ true
    → candidate now db.messages ≡ some m
    → m.attempts ≤ 4
    → (db' : Db) × (m2_claim_due able now db ≡ (ok (some (delivery_of m)), db'))
      × Replaces m (in_flight now m) db db'
m2_claim_due-able now db m s c a = (
  _,
  m2_claim_due-run now db m s c a,
  update_where-Replaces m.message_id (λ r. is_due_state r.state) (claimed now)
      (λ r k.
        claimed-Evolves now r
          (at_id-state m.message_id (λ z. is_due_state z.state) (claimed now) r k))
      db m (find-candidate now db.messages m s c)
      (and_left _ _ (candidate-due now db.messages m c)),
)

-- The row that `m2_mark_retry` leaves: failed with the reason at the fifth attempt, and before that
-- scheduled again for `due`.
abbrev pub taken_back : Text → ℤ → ℤ → Message → Message
taken_back reason due now m =
    if leb 5 m.attempts
    then record m { state = failed; last_error = some reason; updated_at = now }
    else record m {
      state = retry_scheduled;
      next_attempt_at = some due;
      last_error = none;
      updated_at = now;
    }

retried-Evolves :
    (reason : Text) (next now : ℤ) (m : Message)
    → is_sending m.state ≡ true
    → (b : Bool) → Evolves m ((if b then given_up reason now else rescheduled next now) m)
retried-Evolves reason next now m h true = given_up-Evolves reason now m h
retried-Evolves reason next now m h false = rescheduled-Evolves next now m h

taken_back-retried :
    (reason : Text) (next now : ℤ) (m : Message)
    → retried reason next now m.attempts m ≡ taken_back reason next now m
taken_back-retried reason next now m = elim (Bool-cases (leb 5 m.attempts)) [
  | inl e ↦ rw e refl
  | inr e ↦ rw e refl
]

-- If the table satisfies the schema's constraints, the message is sending, the reason is a text of
-- at most 256 bytes, the delay is from a second to an hour and the clock's time plus the delay fits
-- an `i64`, then `m2_mark_retry` on an engine that does not fail succeeds, and the database
-- afterwards is the same but for this row: with five attempts or more it is failed with the reason,
-- and otherwise it is scheduled again at the clock's time plus the delay, with no error; either way
-- the clock's time is its time of change.
pub m2_mark_retry-able :
    (id reason : Text) (delay_ms : ℕ) (now : ℤ) (db : Db) (m : Message)
    → is_sound db.messages ≡ true
    → find id db.messages ≡ some m
    → is_sending m.state ≡ true
    → valid_text reason 256 ≡ true
    → in_range 1000 3600000 delay_ms ≡ true
    → is_i64 (now +ℤ pos delay_ms) ≡ true
    → (db' : Db) × (m2_mark_retry able id reason delay_ms now db ≡ (ok tt, db'))
      × Replaces m (taken_back reason (now +ℤ pos delay_ms) now m) db db'
m2_mark_retry-able id reason delay_ms now db m s f d v r t =
    let due = now +ℤ pos delay_ms in
    let change = retried reason due now m.attempts in
    (
      _,
      m2_mark_retry-run id reason delay_ms now due db m s f d v r (rw t refl),
      subst
          (λ (b : Message). Replaces m b db (record db {
            messages = update_where (at_id id (λ z. is_sending z.state) change) change db.messages;
          }))
          (taken_back-retried reason due now m)
          (update_where-Replaces id (λ z. is_sending z.state) change
            (λ z k.
              retried-Evolves reason due now z (at_id-state id (λ z. is_sending z.state) change z k)
                (leb 5 m.attempts))
            db m f d),
    )
