-- ===== src/Store/Queue/Effects.antt =====
-- The effect of every operation of the queue on the table of messages, on all its branches.
use msgriver.Common.{
  refl, inl, inr, Bool-cases, ℕ, ◌≡◌, Bool, true, false, ◌&&◌, not, Option, none, some, List, arith,
  list_eq, leb, ◌==◌,
}
use msgriver.Common.Int.{ℤ, pos, checked_add}
use msgriver.Store.Validation.{Text}
use msgriver.Store.Schema.{
  Result, ok, err, Message, Db, Engine, ◌>>=◌, require, find, find_key, first_where, update,
  is_due_state, is_sending, is_failed, give, fail,
}
use msgriver.Store.Queue.{
  changed_one, M2Submission, M3Submission, M2Accepted, existing, m2_admit, m3_admit, m2_submit,
  m3_submit, m2_row, m3_row, candidate, claim, claimed, m2_claim_due, sending_with,
  m2_transition_sending, accepted, given_up, doubted, rescheduled, m2_mark_accepted, m2_mark_retry,
  m2_mark_failed, m2_mark_ambiguous, reschedule, retry_body, m2_recover_interrupted, interrupted,
  requeue, requeued, m6_requeue_failed,
}
use msgriver.Store.Evolution.{Evolves}
use msgriver.Store.Calculus.{
  Affects, AffectsBy, transact-Effect, autocommit-Effect, admit_if-Effect, give-Affects,
  fail-Affects, update-Affects, give-IsQuiet, require-IsQuiet, >>-IsQuiet, then-Affects,
  seq-Affects, insert-Affects, select-Affects, guarded-Affects,
}

module _ (digest : List ℕ → List ℕ) (e : Engine) (now : ℤ) (db : Db) where
  m2_admit-Affects :
      (s : M2Submission) (o : Option Message) → Affects db (m2_admit digest e s now o db)
  unfolding m2_admit
  m2_admit-Affects s (some m) =
      guarded-Affects _ db (give (existing m.message_id)) fail (give-Affects _ db)
        (fail-Affects M2Accepted db)
  m2_admit-Affects s none =
      seq-Affects db _ _ (insert-Affects e (m2_row digest s now) db refl refl) (give-IsQuiet _)

  pub m2_submit-Effect : (s : M2Submission) → AffectsBy db (m2_submit digest e s now db)
  unfolding m2_submit
  m2_submit-Effect s = admit_if-Effect _ _ db (
      transact-Effect e _ db
        (select-Affects e _ _ db (m2_admit-Affects s (find_key s.idempotency_key db.messages))))

  m3_admit-Affects :
      (s : M3Submission) (o : Option Message) → Affects db (m3_admit digest e s now o db)
  unfolding m3_admit
  m3_admit-Affects s (some m) =
      guarded-Affects _ db (give (existing m.message_id)) fail (give-Affects _ db)
        (fail-Affects M2Accepted db)
  m3_admit-Affects s none =
      seq-Affects db _ _ (insert-Affects e (m3_row digest s s.driver now) db refl refl)
        (give-IsQuiet _)

  pub m3_submit-Effect : (s : M3Submission) → AffectsBy db (m3_submit digest e s now db)
  unfolding m3_submit
  m3_submit-Effect s = admit_if-Effect _ _ db (
      transact-Effect e _ db
        (select-Affects e _ _ db (m3_admit-Affects s (find_key s.idempotency_key db.messages))))

pub claimed-Evolves :
    (now : ℤ) (m : Message) → is_due_state m.state ≡ true → Evolves m (claimed now m)
claimed-Evolves now m h = ground arith

pub given_up-Evolves :
    (reason : Text) (now : ℤ) (m : Message)
    → is_sending m.state ≡ true
    → Evolves m (given_up reason now m)
given_up-Evolves reason now m h = ground arith

doubted-Evolves :
    (reason : Text) (now : ℤ) (m : Message)
    → is_sending m.state ≡ true
    → Evolves m (doubted reason now m)
doubted-Evolves reason now m h = ground arith

accepted-Evolves :
    (ack : Text) (now : ℤ) (m : Message)
    → is_sending m.state ≡ true
    → Evolves m (accepted ack now m)
accepted-Evolves ack now m h = ground arith

pub rescheduled-Evolves :
    (next now : ℤ) (m : Message) → is_sending m.state ≡ true → Evolves m (rescheduled next now m)
rescheduled-Evolves next now m h = ground arith

requeued-Evolves : (now : ℤ) (m : Message) → is_failed m.state ≡ true → Evolves m (requeued now m)
requeued-Evolves now m h = ground arith

both : (a b : Bool) → (a && b) ≡ true → b ≡ true
both a b h = ground arith

module _ (e : Engine) (now : ℤ) (db : Db) where
  claim-Affects : (o : Option Message) → Affects db (claim e now o db)
  unfolding claim
  claim-Affects none = give-Affects _ db
  claim-Affects (some m) =
      then-Affects db _ _
        (update-Affects e _ (claimed now) db (λ r h. claimed-Evolves now r (both _ _ h)))
        (λ n.
          >>-IsQuiet _ _ (require-IsQuiet _) (>>-IsQuiet _ _ (require-IsQuiet _) (give-IsQuiet _)))

  pub m2_claim_due-Effect : AffectsBy db (m2_claim_due e now db)
  unfolding m2_claim_due
  m2_claim_due-Effect =
      transact-Effect e _ db (select-Affects e _ _ db (claim-Affects (candidate now db.messages)))

  changed_one-Effect : (r : Result ℕ × Db) → AffectsBy db r → AffectsBy db (changed_one r)
  unfolding changed_one AffectsBy
  changed_one-Effect (ok n, after) h = elim (Bool-cases (n == 1)) [
    | inl c ↦ rw c h
    | inr c ↦ rw c h
  ]
  changed_one-Effect (err x, after) h = h

  transition-Effect :
      (id : Text) (f : Message → Message)
      → ((m : Message) → is_sending m.state ≡ true → Evolves m (f m))
      → AffectsBy db (m2_transition_sending e id f db)
  unfolding m2_transition_sending
  transition-Effect id f ev =
      changed_one-Effect _
        (autocommit-Effect _ db (update-Affects e _ f db (λ r h. ev r (both _ _ h))))

  pub m2_mark_accepted-Effect : (id ack : Text) → AffectsBy db (m2_mark_accepted e id ack now db)
  unfolding m2_mark_accepted
  m2_mark_accepted-Effect id ack =
      admit_if-Effect _ _ db (transition-Effect id _ (accepted-Evolves ack now))

  pub m2_mark_failed-Effect : (id reason : Text) → AffectsBy db (m2_mark_failed e id reason now db)
  unfolding m2_mark_failed
  m2_mark_failed-Effect id reason =
      admit_if-Effect _ _ db (transition-Effect id _ (given_up-Evolves reason now))

  pub m2_mark_ambiguous-Effect :
      (id reason : Text) → AffectsBy db (m2_mark_ambiguous e id reason now db)
  unfolding m2_mark_ambiguous
  m2_mark_ambiguous-Effect id reason =
      admit_if-Effect _ _ db (transition-Effect id _ (doubted-Evolves reason now))

  pub m2_recover_interrupted-Effect : AffectsBy db (m2_recover_interrupted e now db)
  unfolding m2_recover_interrupted
  m2_recover_interrupted-Effect =
      autocommit-Effect _ db (update-Affects e _ _ db (doubted-Evolves interrupted now))

  requeue-Affects : (id : Text) (o : Option Message) → Affects db (requeue e id now o db)
  unfolding requeue
  requeue-Affects id none = give-Affects _ db
  requeue-Affects id (some m) =
      guarded-Affects (not (is_failed m.state)) db (give (some false)) _ (give-Affects _ db) (
        then-Affects db _ _
          (update-Affects e _ (requeued now) db (λ r h. requeued-Evolves now r (both _ _ h)))
          (λ n. >>-IsQuiet _ _ (require-IsQuiet _) (give-IsQuiet _)))

  pub m6_requeue_failed-Effect : (id : Text) → AffectsBy db (m6_requeue_failed e id now db)
  unfolding m6_requeue_failed
  m6_requeue_failed-Effect id =
      admit_if-Effect _ _ db (
        transact-Effect e _ db (select-Affects e _ _ db (requeue-Affects id (find id db.messages))))

reschedule-Affects :
    (e : Engine) (now : ℤ) (db : Db) (id : Text) (d : Option ℤ)
    → Affects db (reschedule e id now d db)
unfolding reschedule
reschedule-Affects e now db id none = fail-Affects (Unit {0}) db
reschedule-Affects e now db id (some next) =
    then-Affects db (update e (sending_with id) (rescheduled next now)) _
      (update-Affects e (sending_with id) (rescheduled next now) db
        (λ r h. rescheduled-Evolves next now r (both (list_eq r.message_id id) _ h)))
      (λ n. require-IsQuiet _)

retry_body-Affects :
    (e : Engine) (now : ℤ) (db : Db) (id reason : Text) (delay_ms : ℕ) (o : Option Message)
    → Affects db (retry_body e id reason delay_ms now o db)
unfolding retry_body
retry_body-Affects e now db id reason delay_ms none = fail-Affects (Unit {0}) db
retry_body-Affects e now db id reason delay_ms (some row) =
    guarded-Affects (leb 5 row.attempts) db
      (update e (sending_with id) (given_up reason now) >>= λ changed. require (changed == 1))
      (reschedule e id now (checked_add now (pos delay_ms)))
      (then-Affects db (update e (sending_with id) (given_up reason now)) _
        (update-Affects e (sending_with id) (given_up reason now) db
          (λ r h. given_up-Evolves reason now r (both (list_eq r.message_id id) _ h)))
        (λ n. require-IsQuiet _))
      (reschedule-Affects e now db id (checked_add now (pos delay_ms)))

pub m2_mark_retry-Effect :
    (e : Engine) (now : ℤ) (db : Db) (id reason : Text) (delay_ms : ℕ)
    → AffectsBy db (m2_mark_retry e id reason delay_ms now db)
unfolding m2_mark_retry
m2_mark_retry-Effect e now db id reason delay_ms = admit_if-Effect _ _ db (
    transact-Effect e _ db (
      select-Affects e _ _ db (
        retry_body-Affects e now db id reason delay_ms
          (first_where (sending_with id) db.messages))))
