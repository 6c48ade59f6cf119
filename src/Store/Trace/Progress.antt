-- ===== src/Store/Trace/Progress.antt =====
-- On an engine that does not fail, the operations on a row of a sound table succeed
-- (crates/msgriver-store/src/lib.rs).
use msgriver.Common.{
  ℕ, ◌≡◌, ◌≤◌, ◌+◌, refl, ◌∙◌, sym, ap, inl, inr, Bool, true, false, some, List, [], ◌∷◌, arith,
  if◌then◌else◌, list_eq, Bool-cases, all, leb, ltb, in_range,
}
use msgriver.Common.Int.{ℤ, pos, checked_add}
use msgriver.Store.Validation.{Text, valid_text}
use msgriver.Store.Schema.{
  Message, Db, Result, ok, err, find, first_where, row_checks, text_checks, state_checks, update,
  update_where, steps, Tx, ◌>>=◌, is_sending, is_due_state,
}
use msgriver.Store.Queue.{
  candidate, claim, claimed, delivered, m2_claim_due, is_due, sending_with, retry_body,
  m2_mark_retry, given_up, rescheduled, reschedule,
}
use msgriver.Store.Queue.Claiming.{all-candidate, candidate-due, claims, and_left}
use msgriver.Store.Inversion.{able}
use msgriver.Store.Trace.Once.{find-candidate}
use msgriver.Store.Trace.Sound.{is_sound}
use msgriver.Store.Trace.Unique.{unique, IsSingle, at_id, head, if_true}

is_sound-all : (ms : List Message) → is_sound ms ≡ true → all row_checks ms ≡ true
unfolding is_sound
is_sound-all [] h = refl
is_sound-all (m ∷ ms) h = let rest = is_sound-all ms in ground arith

-- An UPDATE of a single row.
updated :
    (id : Text) (q : Message → Bool) (f : Message → Message) (db : Db)
    → IsSingle id q f db.messages
    → update able (at_id id q f) f db
      ≡ ok (1, record db { messages = update_where (at_id id q f) f db.messages })
unfolding update
updated id q f db (one, good) = rw (one, good) refl

claimed-checks :
    (now : ℤ) (m : Message)
    → row_checks m ≡ true
    → is_due now m ≡ true
    → m.attempts ≤ 4
    → row_checks (claimed now m) ≡ true
unfolding text_checks state_checks
claimed-checks now m h d a = ground arith

few : (a : ℕ) → a ≤ 4 → ltb (a + 1) 256 ≡ true
few a h = ground arith

bind-to :
    {A B : Type 0} (m : Tx A) (k : A → Tx B) (db mid : Db) (a : A)
    → m db ≡ ok (a, mid)
    → (m >>= k) db ≡ k a mid
unfolding ◌>>=◌
bind-to {A} {B} m k db mid a h =
    ap
      (λ (r : Result (A × Db)). elim r as (λ o. Result (B × Db)) [
        | ok (x, d) ↦ k x d
        | err x ↦ err x
      ])
      h

claim-able :
    (now : ℤ) (db : Db) (m : Message)
    → IsSingle m.message_id (λ r. is_due_state r.state) (claimed now) db.messages
    → m.attempts ≤ 4
    → claim able now (some m) db ≡ ok (some (delivered m), claims now m db)
unfolding claim steps
claim-able now db m single a =
    bind-to
      (update able (at_id m.message_id (λ r. is_due_state r.state) (claimed now)) (claimed now)) _
      db _ 1 (updated m.message_id (λ r. is_due_state r.state) (claimed now) db single)
    ∙ rw (few m.attempts a) refl

-- A claim whose candidate has attempts left runs to its end.
pub m2_claim_due-run :
    (now : ℤ) (db : Db) (m : Message)
    → is_sound db.messages ≡ true
    → candidate now db.messages ≡ some m
    → m.attempts ≤ 4
    → m2_claim_due able now db ≡ (ok (some (delivered m)), claims now m db)
unfolding m2_claim_due steps
m2_claim_due-run now db m s c a =
    let due = candidate-due now db.messages m c in
    let checks = all-candidate row_checks now db.messages m c (is_sound-all db.messages s) in
    let single =
      unique m.message_id (λ r. is_due_state r.state) (claimed now) db.messages m s
        (find-candidate now db.messages m s c) (and_left _ _ due)
        (claimed-checks now m checks due a) in
    rw (c, claim-able now db m single a) refl

first_where-find :
    (id : Text) (ms : List Message) (m : Message)
    → is_sound ms ≡ true
    → find id ms ≡ some m
    → is_sending m.state ≡ true
    → first_where (sending_with id) ms ≡ some m
unfolding first_where find is_sound
first_where-find id [] m s h d = absurd (ground arith)
first_where-find id (r ∷ ms) m s h d = elim (Bool-cases (list_eq r.message_id id)) [
  | inl e ↦
      let rm = head r m (if_true _ _ _ e h) in
      rw (e, ap (λ (x : Message). is_sending x.state) rm ∙ d) (ap some rm)
  | inr e ↦ rw e (first_where-find id ms m (ground arith) (ground arith) d)
]

pub find-all :
    (p : Message → Bool) (id : Text) (ms : List Message) (m : Message)
    → find id ms ≡ some m
    → all p ms ≡ true
    → p m ≡ true
unfolding find
find-all p id [] m h k = absurd (ground arith)
find-all p id (r ∷ ms) m h k = elim (Bool-cases (list_eq r.message_id id)) [
  | inl e ↦ sym (ap p (head r m (if_true _ _ _ e h))) ∙ and_left _ _ k
  | inr e ↦ find-all p id ms m (ground arith) (ground arith)
]

-- What `m2_mark_retry` does to the row, by the attempts it has.
abbrev pub retried : Text → ℤ → ℤ → ℕ → Message → Message
retried reason next now attempts =
    if leb 5 attempts then given_up reason now else rescheduled next now

retried-checks :
    (reason : Text) (next now : ℤ) (m : Message)
    → row_checks m ≡ true
    → is_sending m.state ≡ true
    → (b : Bool) → row_checks ((if b then given_up reason now else rescheduled next now) m) ≡ true
unfolding text_checks state_checks
retried-checks reason next now m h d true = ground arith
retried-checks reason next now m h d false = ground arith

retry_body-able :
    (id reason : Text) (delay_ms : ℕ) (now next : ℤ) (db : Db) (m : Message) (b : Bool)
    → leb 5 m.attempts ≡ b
    → checked_add now (pos delay_ms) ≡ some next
    → IsSingle id
        (λ r. is_sending r.state)
        (if b then given_up reason now else rescheduled next now)
        db.messages
    → retry_body able id reason delay_ms now (some m) db
      ≡ ok (
        tt,
        record db {
          messages =
              update_where
                (sending_with id)
                (if b then given_up reason now else rescheduled next now)
                db.messages;
        },
      )
unfolding retry_body reschedule steps
retry_body-able id reason delay_ms now next db m true e t single = rw e (
    bind-to
      (update able (at_id id (λ r. is_sending r.state) (given_up reason now)) (given_up reason now))
      _ db _ 1 (updated id (λ r. is_sending r.state) (given_up reason now) db single))
retry_body-able id reason delay_ms now next db m false e t single =
    rw (e, t)
      (bind-to
        (update able (at_id id (λ r. is_sending r.state) (rescheduled next now))
          (rescheduled next now))
        _ db _ 1 (updated id (λ r. is_sending r.state) (rescheduled next now) db single))

-- A retry of a row that is sending runs to its end.
pub m2_mark_retry-run :
    (id reason : Text) (delay_ms : ℕ) (now next : ℤ) (db : Db) (m : Message)
    → is_sound db.messages ≡ true
    → find id db.messages ≡ some m
    → is_sending m.state ≡ true
    → valid_text reason 256 ≡ true
    → in_range 1000 3600000 delay_ms ≡ true
    → checked_add now (pos delay_ms) ≡ some next
    → m2_mark_retry able id reason delay_ms now db ≡ (
      ok tt,
      record db {
        messages = update_where (sending_with id) (retried reason next now m.attempts) db.messages;
      },
    )
unfolding m2_mark_retry steps
m2_mark_retry-run id reason delay_ms now next db m s f d v r t =
    let checks = find-all row_checks id db.messages m f (is_sound-all db.messages s) in
    let single =
      unique id (λ r. is_sending r.state) (retried reason next now m.attempts) db.messages m s f d
        (retried-checks reason next now m checks d (leb 5 m.attempts)) in
    rw
      (
        v,
        r,
        first_where-find id db.messages m s f d,
        retry_body-able id reason delay_ms now next db m (leb 5 m.attempts) refl t single,
      )
      refl
