-- ===== src/Store/Trace/Steady.antt =====
-- No operation of the queue touches the rate events of the inbound control plane
-- (crates/msgriver-store/src/lib.rs).
use msgriver.Common.{
  ℕ, inl, inr, Bool, false, not, Option, none, some, List, arith, leb, Bool-cases, ◌==◌,
}
use msgriver.Common.Int.{ℤ, pos, checked_add}
use msgriver.Store.Validation.{Text}
use msgriver.Store.Schema.{
  Result, ok, err, Message, Db, Engine, ◌>>=◌, give, fail, require, update, is_failed,
}
use msgriver.Store.Queue.{
  M2Submission, M3Submission, M2Accepted, existing, m2_admit, m3_admit, claim, claimed, changed_one,
  m2_transition_sending, retry_body, reschedule, rescheduled, given_up, sending_with, requeue,
  requeued,
}
use msgriver.Store.Inbound.{set_enabled}
use msgriver.Store.Inbound.Calm.{
  Calm, IsCalm, CalmBy, autocommit-CalmBy, bind-IsCalm, seq-IsCalm, if-IsCalm, give-IsCalm,
  fail-IsCalm, require-IsCalm, update-IsCalm, insert-IsCalm,
}

pub changed_one-CalmBy : (db : Db) (r : Result ℕ × Db) → CalmBy db r → CalmBy db (changed_one r)
unfolding changed_one CalmBy
changed_one-CalmBy db (ok n, after) h = elim (Bool-cases (n == 1)) [
  | inl c ↦ rw c h
  | inr c ↦ rw c h
]
changed_one-CalmBy db (err x, after) h = h

pub transition-CalmBy :
    (e : Engine) (id : Text) (f : Message → Message) (db : Db)
    → CalmBy db (m2_transition_sending e id f db)
unfolding m2_transition_sending
transition-CalmBy e id f db =
    changed_one-CalmBy db _ (autocommit-CalmBy _ db (update-IsCalm e (sending_with id) f))

pub claim-IsCalm : (e : Engine) (now : ℤ) (o : Option Message) → IsCalm (claim e now o)
unfolding claim
claim-IsCalm e now none = give-IsCalm _
claim-IsCalm e now (some m) =
    bind-IsCalm _ _ (update-IsCalm e _ (claimed now))
      (λ n. seq-IsCalm _ _ (require-IsCalm _) (seq-IsCalm _ _ (require-IsCalm _) (give-IsCalm _)))

pub reschedule-IsCalm :
    (e : Engine) (id : Text) (now : ℤ) (o : Option ℤ) → IsCalm (reschedule e id now o)
unfolding reschedule
reschedule-IsCalm e id now none = fail-IsCalm (Unit {0})
reschedule-IsCalm e id now (some next) =
    bind-IsCalm _ _ (update-IsCalm e (sending_with id) (rescheduled next now))
      (λ n. require-IsCalm _)

pub retry_body-IsCalm :
    (e : Engine) (id reason : Text) (delay_ms : ℕ) (now : ℤ) (o : Option Message)
    → IsCalm (retry_body e id reason delay_ms now o)
unfolding retry_body
retry_body-IsCalm e id reason delay_ms now none = fail-IsCalm (Unit {0})
retry_body-IsCalm e id reason delay_ms now (some m) =
    if-IsCalm (leb 5 m.attempts)
      (update e (sending_with id) (given_up reason now) >>= λ changed. require (changed == 1))
      (reschedule e id now (checked_add now (pos delay_ms)))
      (bind-IsCalm _ _ (update-IsCalm e (sending_with id) (given_up reason now))
        (λ n. require-IsCalm _))
      (reschedule-IsCalm e id now _)

pub requeue-IsCalm :
    (e : Engine) (id : Text) (now : ℤ) (o : Option Message) → IsCalm (requeue e id now o)
unfolding requeue
requeue-IsCalm e id now none = give-IsCalm _
requeue-IsCalm e id now (some m) =
    if-IsCalm (not (is_failed m.state)) (give (some false)) _ (give-IsCalm _) (
      bind-IsCalm _ _ (update-IsCalm e _ (requeued now))
        (λ n. seq-IsCalm _ _ (require-IsCalm _) (give-IsCalm _)))

pub set_enabled-IsCalm : (e : Engine) (on : Bool) → IsCalm (set_enabled e on)
unfolding set_enabled IsCalm Calm
set_enabled-IsCalm e on db = ground arith

module _ (digest : List ℕ → List ℕ) where
  pub m2_admit-IsCalm :
      (e : Engine) (s : M2Submission) (now : ℤ) (o : Option Message)
      → IsCalm (m2_admit digest e s now o)
  unfolding m2_admit
  m2_admit-IsCalm e s now (some m) =
      if-IsCalm _ (give (existing m.message_id)) fail (give-IsCalm _) (fail-IsCalm M2Accepted)
  m2_admit-IsCalm e s now none = seq-IsCalm _ _ (insert-IsCalm e _) (give-IsCalm _)

  pub m3_admit-IsCalm :
      (e : Engine) (s : M3Submission) (now : ℤ) (o : Option Message)
      → IsCalm (m3_admit digest e s now o)
  unfolding m3_admit
  m3_admit-IsCalm e s now (some m) =
      if-IsCalm _ (give (existing m.message_id)) fail (give-IsCalm _) (fail-IsCalm M2Accepted)
  m3_admit-IsCalm e s now none = seq-IsCalm _ _ (insert-IsCalm e _) (give-IsCalm _)
