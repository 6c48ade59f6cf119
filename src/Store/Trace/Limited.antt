-- ===== src/Store/Trace/Limited.antt =====
-- The notifications of a sender along any history (`m4_notify_rate_events` in
-- crates/msgriver-store/src/lib.rs).
use msgriver.Common.{
  ℕ, ◌≡◌, refl, ◌∙◌, sym, ap, inl, inr, Bool, true, false, ◌&&◌, not, Option, none, some, List, [],
  ◌∷◌, arith, if◌then◌else◌, leb, list_eq, Bool-cases,
}
use mathlib.Core.Path.{subst}
use msgriver.Common.Int.{ℤ, pos, ◌-ℤ◌, ltb_ℤ, checked_sub, is_i64}
use msgriver.Store.Schema.{Result, ok, err, Db, Engine, RateEvent, count_where}
use msgriver.Store.Queue.{
  m2_submit, m3_submit, m2_claim_due, m2_mark_accepted, m2_mark_retry, m2_mark_failed,
  m2_mark_ambiguous, m2_recover_interrupted, m6_requeue_failed,
}
use msgriver.Store.Inbound.{
  M4InboundSubmission, M4InboundDisposition, m4_submit_inbound, m4_set_inbound_enabled, notify,
}
use msgriver.Store.Inbound.Outcome.{
  Outcome, was_disabled, was_seen, was_limited, was_taken, within_rate, m4_submit_inbound-Outcome,
}
use msgriver.Store.Inbound.Calm.{
  CalmBy, transact-CalmBy, autocommit-CalmBy, admit_if-CalmBy, bind-IsCalm, select-IsCalm,
  update-IsCalm,
}
use msgriver.Store.Inversion.{is_ok, transact-err, admit_if-err}
use msgriver.Store.Trace.{
  Call, apply, history, submit, submit_driver, submit_inbound, set_inbound, claim_due,
  mark_accepted, mark_retry, mark_failed, mark_ambiguous, recover_interrupted, requeue_failed,
}
use msgriver.Store.Trace.Steady.{
  transition-CalmBy, claim-IsCalm, retry_body-IsCalm, requeue-IsCalm, set_enabled-IsCalm,
  m2_admit-IsCalm, m3_admit-IsCalm,
}

-- The window of ten minutes before a notification.
abbrev pub before : RateEvent → RateEvent → Bool
before v w = list_eq w.sender v.sender && ltb_ℤ (v.accepted_at -ℤ pos 600000) w.accepted_at

-- No notification came when four of its sender were on record from the ten minutes before it.
unfoldable pub is_limited : List RateEvent → Bool
is_limited [] = true
is_limited (v ∷ vs) = not (leb 4 (count_where (before v) vs)) && is_limited vs

module _ (digest : List ℕ → List ℕ) where
  inbound-err :
      (e : Engine) (now : ℤ) (s : M4InboundSubmission) (db : Db)
      → is_ok (m4_submit_inbound digest e s now db).0 ≡ false
      → (m4_submit_inbound digest e s now db).1 ≡ db
  unfolding m4_submit_inbound
  inbound-err e now s db = admit_if-err _ _ db (transact-err e _ db)

  start_of : (a b c : ℤ) → checked_sub a b ≡ some c → c ≡ a -ℤ b
  start_of a b c h = split (is_i64 (a -ℤ b)) h
    where
      split : (i : Bool) → (if i then some (a -ℤ b) else none) ≡ some c → c ≡ a -ℤ b
      split true k = ground arith
      split false k = absurd (ground arith)

  fits :
      (now : ℤ) (s : M4InboundSubmission) (db : Db) (o : Option ℤ)
      → checked_sub now (pos 600000) ≡ o
      → within_rate digest s now o db ≡ true
      → not (
          leb 4
            (count_where (before (record { sender = s.sender; accepted_at = now })) db.rate_events))
        ≡ true
  fits now s db none e h = absurd (ground arith)
  fits now s db (some start) e h =
      subst
        (λ (z : ℤ).
          not (
            leb 4 (
              count_where (λ (w : RateEvent). list_eq w.sender s.sender && ltb_ℤ z w.accepted_at)
                db.rate_events))
          ≡ true)
        (start_of now (pos 600000) start e) h

  Outcome-is_limited :
      (s : M4InboundSubmission) (now : ℤ) (db : Db) {r : M4InboundDisposition} {db' : Db}
      → Outcome digest s now db r db'
      → is_limited db.rate_events ≡ true
      → is_limited db'.rate_events ≡ true
  unfolding is_limited
  Outcome-is_limited s now db (was_disabled _) h = h
  Outcome-is_limited s now db (was_seen _ _) h = h
  Outcome-is_limited s now db (was_limited _ _ _ _) h = h
  Outcome-is_limited s now db (was_taken on fresh room) h =
      elim (Bool-cases (list_eq s.verb notify)) [
        | inl v ↦ rw (v, fits now s db (checked_sub now (pos 600000)) refl (room v), h) refl
        | inr v ↦ rw v h
      ]

  inbound-is_limited :
      (e : Engine) (now : ℤ) (s : M4InboundSubmission) (db : Db)
      → is_limited db.rate_events ≡ true
      → is_limited (m4_submit_inbound digest e s now db).1.rate_events ≡ true
  inbound-is_limited e now s db h = split (m4_submit_inbound digest e s now db) refl
    where
      split :
          (r : Result M4InboundDisposition × Db)
          → m4_submit_inbound digest e s now db ≡ r
          → is_limited r.1.rate_events ≡ true
      split (ok a, db') q =
          Outcome-is_limited s now db (m4_submit_inbound-Outcome digest s now e a db db' q).1 h
      split (err x, db') q =
          ap (λ (z : Result M4InboundDisposition × Db). is_limited z.1.rate_events) (sym q)
          ∙ (ap (λ (d : Db). is_limited d.rate_events)
                (inbound-err e now s db
                  (ap (λ (z : Result M4InboundDisposition × Db). is_ok z.0) q))
              ∙ h)

  same_events :
      {A : Type 0} (db : Db) (r : Result A × Db)
      → CalmBy db r
      → is_limited db.rate_events ≡ true
      → is_limited r.1.rate_events ≡ true
  unfolding CalmBy
  same_events db r c h = ap is_limited c ∙ h

  apply-is_limited :
      (e : Engine) (now : ℤ) (c : Call) (db : Db)
      → is_limited db.rate_events ≡ true
      → is_limited (apply digest e now c db).rate_events ≡ true
  unfolding apply m2_submit m3_submit m4_set_inbound_enabled m2_claim_due m2_mark_accepted
      m2_mark_retry m2_mark_failed m2_mark_ambiguous m2_recover_interrupted m6_requeue_failed
  apply-is_limited e now (submit s) db = same_events db _ (
      admit_if-CalmBy _ _ db (
        transact-CalmBy e _ db
          (bind-IsCalm _ _ (select-IsCalm e _) (m2_admit-IsCalm digest e s now))))
  apply-is_limited e now (submit_driver s) db = same_events db _ (
      admit_if-CalmBy _ _ db (
        transact-CalmBy e _ db
          (bind-IsCalm _ _ (select-IsCalm e _) (m3_admit-IsCalm digest e s now))))
  apply-is_limited e now (submit_inbound s) db = inbound-is_limited e now s db
  apply-is_limited e now (set_inbound on) db =
      same_events db _ (autocommit-CalmBy _ db (set_enabled-IsCalm e on))
  apply-is_limited e now claim_due db =
      same_events db _
        (transact-CalmBy e _ db (bind-IsCalm _ _ (select-IsCalm e _) (claim-IsCalm e now)))
  apply-is_limited e now (mark_accepted id ack) db =
      same_events db _ (admit_if-CalmBy _ _ db (transition-CalmBy e id _ db))
  apply-is_limited e now (mark_retry id reason delay) db = same_events db _ (
      admit_if-CalmBy _ _ db (
        transact-CalmBy e _ db
          (bind-IsCalm _ _ (select-IsCalm e _) (retry_body-IsCalm e id reason delay now))))
  apply-is_limited e now (mark_failed id reason) db =
      same_events db _ (admit_if-CalmBy _ _ db (transition-CalmBy e id _ db))
  apply-is_limited e now (mark_ambiguous id reason) db =
      same_events db _ (admit_if-CalmBy _ _ db (transition-CalmBy e id _ db))
  apply-is_limited e now recover_interrupted db =
      same_events db _ (autocommit-CalmBy _ db (update-IsCalm e _ _))
  apply-is_limited e now (requeue_failed id) db = same_events db _ (
      admit_if-CalmBy _ _ db
        (transact-CalmBy e _ db (bind-IsCalm _ _ (select-IsCalm e _) (requeue-IsCalm e id now))))

  -- If no notification on record came when four others of its sender were on record from the ten
  -- minutes before it, the same holds after any sequence of calls, at whatever times of the clock
  -- and with any failures of the engine.
  pub history-is_limited :
      (cs : List (Engine × ℤ × Call)) (db : Db)
      → is_limited db.rate_events ≡ true
      → is_limited (history digest cs db).rate_events ≡ true
  unfolding history
  history-is_limited [] db h = h
  history-is_limited ((e, now, c) ∷ cs) db h =
      history-is_limited cs (apply digest e now c db) (apply-is_limited e now c db h)
