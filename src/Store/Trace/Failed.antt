-- ===== src/Store/Trace/Failed.antt =====
-- A call that returns an error changes nothing (crates/msgriver-store/src/lib.rs).
use msgriver.Common.{
  refl, true, ◌≤◌, ◌==◌, sym, ap, ◌∙◌, inl, inr, Bool-cases, arith, ℕ, ◌≡◌, Bool, false, List,
}
use msgriver.Common.Int.{ℤ}
use msgriver.Store.Trace.Sound.{is_sound}
use msgriver.Store.Trace.Unique.{at_most_one, none_changed}
use msgriver.Store.Validation.{Text}
use msgriver.Store.Schema.{Message, Result, ok, err, autocommit, update, is_sending, Db, Engine}
use msgriver.Store.Queue.{
  changed_one, sending_with, m2_submit, m3_submit, m2_claim_due, m2_transition_sending,
  m2_mark_accepted, m2_mark_retry, m2_mark_failed, m2_mark_ambiguous, m2_recover_interrupted,
  m6_requeue_failed,
}
use msgriver.Store.Inbound.{m4_submit_inbound, m4_set_inbound_enabled}
use msgriver.Store.Inversion.{
  is_ok, transact-err, autocommit-err, autocommit-ok, update-ok, admit_if-err,
}
use msgriver.Store.Trace.{
  Call, apply, submit, submit_driver, submit_inbound, set_inbound, claim_due, mark_accepted,
  mark_retry, mark_failed, mark_ambiguous, recover_interrupted, requeue_failed,
}

transition-err :
    (e : Engine) (id : Text) (f : Message → Message) (db : Db)
    → is_sound db.messages ≡ true
    → is_ok (m2_transition_sending e id f db).0 ≡ false
    → (m2_transition_sending e id f db).1 ≡ db
unfolding m2_transition_sending changed_one
transition-err e id f db sound h = split (autocommit (update e (sending_with id) f) db) refl h
  where
    none_left : (n : ℕ) → n ≤ 1 → (n == 1) ≡ false → n ≡ 0
    none_left n l k = ground arith

    split :
        (r : Result ℕ × Db)
        → autocommit (update e (sending_with id) f) db ≡ r
        → is_ok (changed_one r).0 ≡ false
        → (changed_one r).1 ≡ db
    split (err x, after) q k =
        ap (λ (z : Result ℕ × Db). z.1) (sym q)
        ∙ autocommit-err (update e (sending_with id) f) db (ap (λ (z : Result ℕ × Db). is_ok z.0) q)
    split (ok n, after) q k =
        let (count, done, _) =
          update-ok e (sending_with id) f db after n
            (autocommit-ok (update e (sending_with id) f) db after n q) in
        elim (Bool-cases (n == 1)) [
          | inl c ↦ absurd (ground arith)
          | inr c ↦ rw c (
              done
              ∙ ap (λ ms. record db { messages = ms })
                  (none_changed (sending_with id) f db.messages (
                    sym count
                    ∙ none_left n
                        (rw count (at_most_one id (λ m. is_sending m.state) f db.messages sound))
                        c)))
        ]

module _ (digest : List ℕ → List ℕ) where
  -- Whether a call returns `Ok`.
  unfoldable pub succeeds : Engine → ℤ → Call → Db → Bool
  succeeds e now (submit s) db = is_ok (m2_submit digest e s now db).0
  succeeds e now (submit_driver s) db = is_ok (m3_submit digest e s now db).0
  succeeds e now (submit_inbound s) db = is_ok (m4_submit_inbound digest e s now db).0
  succeeds e now (set_inbound on) db = is_ok (m4_set_inbound_enabled e on db).0
  succeeds e now claim_due db = is_ok (m2_claim_due e now db).0
  succeeds e now (mark_accepted id ack) db = is_ok (m2_mark_accepted e id ack now db).0
  succeeds e now (mark_retry id reason delay) db = is_ok (m2_mark_retry e id reason delay now db).0
  succeeds e now (mark_failed id reason) db = is_ok (m2_mark_failed e id reason now db).0
  succeeds e now (mark_ambiguous id reason) db = is_ok (m2_mark_ambiguous e id reason now db).0
  succeeds e now recover_interrupted db = is_ok (m2_recover_interrupted e now db).0
  succeeds e now (requeue_failed id) db = is_ok (m6_requeue_failed e id now db).0

  -- If a call on a store that satisfies the schema's constraints returns an error, for whatever
  -- reason, the database is as it was before the call.
  pub apply-failed :
      (e : Engine) (now : ℤ) (c : Call) (db : Db)
      → is_sound db.messages ≡ true
      → succeeds e now c db ≡ false
      → apply digest e now c db ≡ db
  unfolding apply succeeds m2_submit m3_submit m4_submit_inbound m4_set_inbound_enabled m2_claim_due
      m2_transition_sending m2_mark_accepted m2_mark_retry m2_mark_failed m2_mark_ambiguous
      m2_recover_interrupted m6_requeue_failed
  apply-failed e now (submit s) db sound = admit_if-err _ _ db (transact-err e _ db)
  apply-failed e now (submit_driver s) db sound = admit_if-err _ _ db (transact-err e _ db)
  apply-failed e now (submit_inbound s) db sound = admit_if-err _ _ db (transact-err e _ db)
  apply-failed e now (set_inbound on) db sound = autocommit-err _ db
  apply-failed e now claim_due db sound = transact-err e _ db
  apply-failed e now (mark_accepted id ack) db sound =
      admit_if-err _ _ db (transition-err e _ _ db sound)
  apply-failed e now (mark_retry id reason delay) db sound =
      admit_if-err _ _ db (transact-err e _ db)
  apply-failed e now (mark_failed id reason) db sound =
      admit_if-err _ _ db (transition-err e _ _ db sound)
  apply-failed e now (mark_ambiguous id reason) db sound =
      admit_if-err _ _ db (transition-err e _ _ db sound)
  apply-failed e now recover_interrupted db sound = autocommit-err _ db
  apply-failed e now (requeue_failed id) db sound = admit_if-err _ _ db (transact-err e _ db)
