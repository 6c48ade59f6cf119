-- ===== src/Store/Trace.antt =====
-- Any history of the store: every operation, in any order, with any failure of the engine.
pub mod Kept
pub mod Sound
pub mod Once
pub mod Again
pub mod Failed
pub mod Unique
pub mod Progress
pub mod Replaced
pub mod Counted
pub mod Steady
pub mod Limited
pub mod Handing
use msgriver.Common.{
  ℕ, ◌+◌, ◌≤◌, ◌≡◌, refl, ◌∙◌, sym, ap, ◌⊎◌, inl, inr, ◌≢◌, Bool, true, false, ◌&&◌, not, Option,
  none, some, List, [], ◌∷◌, arith, Bool-cases, if◌then◌else◌, list_eq,
}
use msgriver.Common.Int.{ℤ}
use msgriver.Store.Validation.{Text}
use msgriver.Store.Schema.{
  Result, ok, err, Message, Db, Engine, Tx, ◌>>=◌, ◌>>◌, transact, require, give, select, find,
  Receipt, steps,
}
use msgriver.Store.Queue.{
  M2Submission, M3Submission, m2_submit, m3_submit, m2_claim_due, m2_mark_accepted, m2_mark_retry,
  m2_mark_failed, m2_mark_ambiguous, m2_recover_interrupted, m6_requeue_failed, m3_row,
}
use msgriver.Store.Inbound.{
  M4InboundSubmission, m4_submit_inbound, m4_set_inbound_enabled, set_enabled, record_inbound,
  insert_receipt, insert_event, over_rate, has_receipt, receipt_of, note_event, notify,
  unless_limited, unless_seen, if_enabled, m4_intent,
}
use msgriver.Store.Evolution.{Evolves, Effect, unchanged, find-Effect, Evolves-refl, is_final}
use msgriver.Store.Calculus.{
  Affects, AffectsBy, AffectsBy-Effect, transact-Effect, autocommit-Effect, admit_if-Effect,
  give-Affects, IsQuiet, give-IsQuiet, require-IsQuiet, >>-IsQuiet, then-Affects, require-Affects,
  peek-Affects, seq-Affects, insert-Affects, select-Affects, guarded-Affects,
}
use msgriver.Store.Queue.Effects.{
  m2_submit-Effect, m3_submit-Effect, m2_claim_due-Effect, m2_mark_accepted-Effect,
  m2_mark_failed-Effect, m2_mark_ambiguous-Effect, m2_recover_interrupted-Effect,
  m6_requeue_failed-Effect, m2_mark_retry-Effect,
}

-- The calls of the store that may change it, each with the clock's reading.
pub data Call : Type 0 where
  submit : M2Submission → Call
  submit_driver : M3Submission → Call
  submit_inbound : M4InboundSubmission → Call
  set_inbound : Bool → Call
  claim_due : Call
  mark_accepted : Text → Text → Call
  mark_retry : Text → Text → ℕ → Call
  mark_failed : Text → Text → Call
  mark_ambiguous : Text → Text → Call
  recover_interrupted : Call
  requeue_failed : Text → Call

set_enabled-Affects : (e : Engine) (on : Bool) (db : Db) → Affects db (set_enabled e on db)
unfolding set_enabled Affects
set_enabled-Affects e on db = elim (Bool-cases e.writes) [
  | inl c ↦ rw c (unchanged refl)
  | inr c ↦ rw c tt
]

set_enabled-Effect :
    (e : Engine) (on : Bool) (db : Db) → AffectsBy db (m4_set_inbound_enabled e on db)
unfolding m4_set_inbound_enabled
set_enabled-Effect e on db = autocommit-Effect _ db (set_enabled-Affects e on db)

insert_receipt-IsQuiet : (e : Engine) (r : Receipt) → IsQuiet (insert_receipt e r)
unfolding IsQuiet insert_receipt
insert_receipt-IsQuiet e r db b db' h = ground arith

note_event-IsQuiet :
    (e : Engine) (s : M4InboundSubmission) (now : ℤ) (b : Bool) → IsQuiet (note_event e s now b)
unfolding IsQuiet note_event insert_event
note_event-IsQuiet e s now true db b db' h = ground arith
note_event-IsQuiet e s now false db b db' h = give-IsQuiet tt db b db' h

pub over_rate-peeks :
    (e : Engine) (s : M4InboundSubmission) (now : ℤ) (db : Db) (b : Bool) (db' : Db)
    → over_rate e s now db ≡ ok (b, db')
    → db' ≡ db
unfolding over_rate steps
over_rate-peeks e s now db b db' h = ground arith

module _ (digest : List ℕ → List ℕ) where
  -- The database after a call.
  unfoldable pub apply : Engine → ℤ → Call → Db → Db
  apply e now (submit s) db = (m2_submit digest e s now db).1
  apply e now (submit_driver s) db = (m3_submit digest e s now db).1
  apply e now (submit_inbound s) db = (m4_submit_inbound digest e s now db).1
  apply e now (set_inbound on) db = (m4_set_inbound_enabled e on db).1
  apply e now claim_due db = (m2_claim_due e now db).1
  apply e now (mark_accepted id ack) db = (m2_mark_accepted e id ack now db).1
  apply e now (mark_retry id reason delay) db = (m2_mark_retry e id reason delay now db).1
  apply e now (mark_failed id reason) db = (m2_mark_failed e id reason now db).1
  apply e now (mark_ambiguous id reason) db = (m2_mark_ambiguous e id reason now db).1
  apply e now recover_interrupted db = (m2_recover_interrupted e now db).1
  apply e now (requeue_failed id) db = (m6_requeue_failed e id now db).1

  -- A history: calls in order, each with what the engine manages and the clock's reading.
  unfoldable pub history : List (Engine × ℤ × Call) → Db → Db
  history [] db = db
  history ((e, now, c) ∷ cs) db = history cs (apply e now c db)

  record_inbound-Affects :
      (e : Engine) (now : ℤ) (s : M4InboundSubmission) (db : Db)
      → Affects db (record_inbound digest e s now db)
  unfolding record_inbound
  record_inbound-Affects e now s db = require-Affects _ _ db (
      seq-Affects db _ _
        (insert-Affects e (m3_row digest (m4_intent digest s) s.destination now) db refl refl)
        (>>-IsQuiet _ _ (insert_receipt-IsQuiet e (receipt_of s now))
          (>>-IsQuiet _ _ (note_event-IsQuiet e s now (list_eq s.verb notify)) (give-IsQuiet _))))

  unless_limited-Affects :
      (e : Engine) (now : ℤ) (s : M4InboundSubmission) (b : Bool) (db : Db)
      → Affects db (unless_limited digest e s now b db)
  unfolding unless_limited
  unless_limited-Affects e now s true db = give-Affects _ db
  unless_limited-Affects e now s false db = record_inbound-Affects e now s db

  unless_seen-Affects :
      (e : Engine) (now : ℤ) (s : M4InboundSubmission) (b : Bool) (db : Db)
      → Affects db (unless_seen digest e s now b db)
  unfolding unless_seen
  unless_seen-Affects e now s true db = give-Affects _ db
  unless_seen-Affects e now s false db =
      peek-Affects db _ _ (over_rate-peeks e s now db) (λ b. unless_limited-Affects e now s b db)

  if_enabled-Affects :
      (e : Engine) (now : ℤ) (s : M4InboundSubmission) (b : Bool) (db : Db)
      → Affects db (if_enabled digest e s now b db)
  unfolding if_enabled
  if_enabled-Affects e now s false db = give-Affects _ db
  if_enabled-Affects e now s true db =
      select-Affects e _ _ db
        (unless_seen-Affects e now s (has_receipt s.provider_message_id db.receipts) db)

  inbound-Effect :
      (e : Engine) (now : ℤ) (s : M4InboundSubmission) (db : Db)
      → AffectsBy db (m4_submit_inbound digest e s now db)
  unfolding m4_submit_inbound
  inbound-Effect e now s db = admit_if-Effect _ _ db (
      transact-Effect e _ db
        (select-Affects e _ _ db (if_enabled-Affects e now s db.inbound_enabled db)))

  pub apply-Effect :
      (e : Engine) (now : ℤ) (c : Call) (db : Db) → Effect db.messages (apply e now c db).messages
  unfolding apply
  apply-Effect e now (submit s) db = AffectsBy-Effect db _ (m2_submit-Effect digest e now db s)
  apply-Effect e now (submit_driver s) db =
      AffectsBy-Effect db _ (m3_submit-Effect digest e now db s)
  apply-Effect e now (submit_inbound s) db = AffectsBy-Effect db _ (inbound-Effect e now s db)
  apply-Effect e now (set_inbound on) db = AffectsBy-Effect db _ (set_enabled-Effect e on db)
  apply-Effect e now claim_due db = AffectsBy-Effect db _ (m2_claim_due-Effect e now db)
  apply-Effect e now (mark_accepted id ack) db =
      AffectsBy-Effect db _ (m2_mark_accepted-Effect e now db id ack)
  apply-Effect e now (mark_retry id reason delay) db =
      AffectsBy-Effect db _ (m2_mark_retry-Effect e now db id reason delay)
  apply-Effect e now (mark_failed id reason) db =
      AffectsBy-Effect db _ (m2_mark_failed-Effect e now db id reason)
  apply-Effect e now (mark_ambiguous id reason) db =
      AffectsBy-Effect db _ (m2_mark_ambiguous-Effect e now db id reason)
  apply-Effect e now recover_interrupted db =
      AffectsBy-Effect db _ (m2_recover_interrupted-Effect e now db)
  apply-Effect e now (requeue_failed id) db =
      AffectsBy-Effect db _ (m6_requeue_failed-Effect e now db id)
