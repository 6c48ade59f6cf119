-- ===== src/Store/Tests.antt =====
-- Each theorem on the store at a concrete database.
use msgriver.Common.{
  ℕ, ◌≡◌, ◌+◌, ◌≤◌, refl, ◌≢◌, inr, leb, length, true, false, none, some, List, [], ◌∷◌, replicate,
  arith,
}
use msgriver.Common.Int.{ℤ, pos, ◌+ℤ◌, ◌-ℤ◌}
use msgriver.Core.Generation.{encode_hex}
use msgriver.Store.Validation.{
  Text, valid_text, valid_idempotency_key, valid_topic, valid_title, valid_phone_sender,
}
use msgriver.Store.Schema.{
  ok, Message, Db, Engine, queued, sending, provider_accepted, ntfy, steps, find, find_key,
  count_where, update_where, update, insert, text_checks, state_checks,
}
use msgriver.Store.Queue.{
  M2Submission, M3Submission, new, existing, m2_submit, m3_submit, m2_admit, m3_admit, m2_row,
  m3_row, valid_m2_submission, valid_m3_submission, m2_message_id, m3_message_id, candidate, claim,
  delivered, m2_claim_due, m2_mark_retry, m2_recover_interrupted, doubted, interrupted,
}
use msgriver.Store.Queue.Claiming.{claims, m2_claim_due-stuck}
use msgriver.Store.Queue.Recovery.{sending_count, ambiguous_count, m2_recover_interrupted-counts}
use msgriver.Store.Inbound.{
  M4InboundSubmission, accepted, notify, m4_submit_inbound, valid_inbound, if_enabled, unless_seen,
  unless_limited, over_rate, record_inbound, insert_receipt, insert_event, note_event,
}
use msgriver.Store.Inbound.Outcome.{Outcome, taken, m4_submit_inbound-Outcome}
use msgriver.Store.Inversion.{able, is_ok}
use msgriver.Store.Trace.{Call, apply, history, submit_inbound, recover_interrupted, claim_due}
use msgriver.Store.Trace.Kept.{Continues, history-find}
use msgriver.Store.Trace.Sound.{is_sound}
use msgriver.Store.Trace.Limited.{is_limited, history-is_limited}
use msgriver.Store.Trace.Progress.{find-all}
use msgriver.Store.Trace.Counted.{IsTried, attempts_of, history-attempts}
use msgriver.Store.Trace.Once.{final-never_claimed}
use msgriver.Store.Trace.Again.{m2_submit-again, m3_submit-again}
use msgriver.Store.Trace.Failed.{succeeds, apply-failed}
use msgriver.Store.Trace.Replaced.{Replaces}
use msgriver.Store.Trace.Handing.{
  HandsOut, m2_claim_due-HandsOut, delivery_of, in_flight, m2_claim_due-able, taken_back,
  m2_mark_retry-able,
}

abbrev constant_digest : List ℕ → List ℕ
constant_digest bs = replicate 32 0xab

abbrev old_id : Text
old_id = replicate 64 b'a'

abbrev new_id : Text
new_id = replicate 64 b'b'

-- A message that waits, and one that the provider has accepted.
abbrev waiting : Message
waiting = record {
  message_id = new_id;
  idempotency_key = b'k' ∷ [];
  driver = ntfy;
  destination = b't' ∷ [];
  payload = [];
  topic = b't' ∷ [];
  title = none;
  body = b'x' ∷ [];
  state = queued;
  attempts = 2;
  next_attempt_at = some (pos 5);
  provider_ack = none;
  last_error = none;
  created_at = pos 5;
  updated_at = pos 5;
}

abbrev settled : Message
settled = record waiting {
  message_id = old_id;
  idempotency_key = b'j' ∷ [];
  state = provider_accepted;
  next_attempt_at = none;
  provider_ack = some (b'a' ∷ []);
}

abbrev two_rows : Db
two_rows = record {
  messages = waiting ∷ settled ∷ [];
  inbound_enabled = true;
  receipts = [];
  rate_events = [];
}

abbrev dead : Engine
dead = record { begins = false; reads = true; writes = true; commits = true }

abbrev restart : List (Engine × ℤ × Call)
restart = (able, pos 6, recover_interrupted) ∷ (dead, pos 7, claim_due) ∷ []

final-never_claimed_example : new_id ≢ old_id
unfolding history apply m2_recover_interrupted m2_claim_due steps claim candidate find update
    update_where count_where is_sound text_checks state_checks find_key
final-never_claimed_example =
    final-never_claimed constant_digest restart able (pos 8) old_id settled two_rows
      (claims (pos 8) waiting two_rows) (delivered waiting) refl refl refl refl

history-find_example :
    (b : Message) × (find old_id (history constant_digest restart two_rows).messages ≡ some b)
    × Continues settled b
unfolding find
history-find_example = history-find constant_digest restart old_id settled two_rows refl

two_rows-IsTried : (y : Text) (a : Message) → find y two_rows.messages ≡ some a → IsTried a
two_rows-IsTried y a h =
    inr (tried (find-all (λ (m : Message). leb 2 m.attempts) y two_rows.messages a h refl))
  where
    tried : leb 2 a.attempts ≡ true → 1 ≤ a.attempts
    tried e = ground arith

abbrev two_claims : List (Engine × ℤ × Call)
two_claims = (dead, pos 7, claim_due) ∷ (able, pos 8, claim_due) ∷ []

history-attempts_example :
    IsTried (in_flight (pos 8) waiting)
    × (3 ≤ attempts_of (find new_id two_rows.messages) + length two_claims)
unfolding history apply m2_claim_due steps claim candidate find update update_where count_where
    text_checks state_checks
history-attempts_example =
    history-attempts constant_digest two_claims two_rows new_id (in_flight (pos 8) waiting)
      two_rows-IsTried refl

abbrev empty : Db
empty = record { messages = []; inbound_enabled = true; receipts = []; rate_events = [] }

abbrev submission : M2Submission
submission = record {
  idempotency_key = b'k' ∷ [];
  topic = b't' ∷ [];
  title = none;
  body = b'x' ∷ [];
}

abbrev driver_submission : M3Submission
driver_submission = record {
  idempotency_key = b'k' ∷ [];
  driver = ntfy;
  destination = b'd' ∷ [];
  payload = b'x' ∷ [];
}

abbrev stored : Db
stored = record empty { messages = m2_row constant_digest submission (pos 3) ∷ [] }

m2_submit-again_example :
    m2_submit constant_digest able submission (pos 9) (history constant_digest restart stored) ≡ (
      ok (existing (m2_message_id constant_digest submission)),
      history constant_digest restart stored,
    )
unfolding m2_submit m2_admit steps insert find find_key text_checks state_checks m2_message_id
    valid_m2_submission valid_idempotency_key valid_topic valid_title valid_text encode_hex
m2_submit-again_example =
    m2_submit-again constant_digest able submission (pos 3) (pos 9)
      (new (m2_message_id constant_digest submission)) empty stored restart refl

abbrev stored_driver : Db
stored_driver = record empty {
  messages = m3_row constant_digest driver_submission ntfy (pos 3) ∷ [];
}

m3_submit-again_example :
    m3_submit constant_digest able driver_submission
      (pos 9)
      (history constant_digest restart stored_driver)
    ≡ (
      ok (existing (m3_message_id constant_digest driver_submission)),
      history constant_digest restart stored_driver,
    )
unfolding m3_submit m3_admit steps insert find find_key text_checks state_checks m3_message_id
    valid_m3_submission valid_idempotency_key valid_text encode_hex
m3_submit-again_example =
    m3_submit-again constant_digest able driver_submission (pos 3) (pos 9)
      (new (m3_message_id constant_digest driver_submission)) empty stored_driver restart refl

m2_claim_due-HandsOut_example :
    HandsOut (pos 8) two_rows (delivered waiting) (claims (pos 8) waiting two_rows)
unfolding m2_claim_due steps claim candidate update update_where count_where text_checks
    state_checks is_sound find find_key
m2_claim_due-HandsOut_example =
    m2_claim_due-HandsOut able (pos 8) two_rows (claims (pos 8) waiting two_rows)
      (delivered waiting) refl refl

m2_claim_due-able_example :
    (db' : Db) × (m2_claim_due able (pos 8) two_rows ≡ (ok (some (delivery_of waiting)), db'))
    × Replaces waiting (in_flight (pos 8) waiting) two_rows db'
unfolding candidate is_sound text_checks state_checks find find_key
m2_claim_due-able_example = m2_claim_due-able (pos 8) two_rows waiting refl refl (omega arith)

-- A message that failed at its fifth attempt and was requeued.
abbrev worn : Message
worn = record waiting { attempts = 5 }

abbrev worn_rows : Db
worn_rows = record two_rows { messages = worn ∷ settled ∷ [] }

m2_claim_due-stuck_example :
    (is_ok (m2_claim_due able (pos 8) worn_rows).0 ≡ false)
    × ((m2_claim_due able (pos 8) worn_rows).1 ≡ worn_rows)
unfolding candidate
m2_claim_due-stuck_example = m2_claim_due-stuck able (pos 8) worn_rows worn refl (omega arith)

abbrev flying : Message
flying = record waiting { state = sending; next_attempt_at = none }

abbrev flying_rows : Db
flying_rows = record two_rows { messages = flying ∷ settled ∷ [] }

m2_mark_retry-able_example :
    (db' : Db) × (m2_mark_retry able new_id (b'r' ∷ []) 2000 (pos 9) flying_rows ≡ (ok tt, db'))
    × Replaces flying (taken_back (b'r' ∷ []) (pos 9 +ℤ pos 2000) (pos 9) flying) flying_rows db'
unfolding is_sound text_checks state_checks find find_key valid_text ◌+ℤ◌
m2_mark_retry-able_example =
    m2_mark_retry-able new_id (b'r' ∷ []) 2000 (pos 9) flying_rows flying refl refl refl refl refl
      refl

abbrev recovered : Db
recovered = record flying_rows { messages = doubted interrupted (pos 9) flying ∷ settled ∷ [] }

m2_recover_interrupted-counts_example :
    (1 ≡ sending_count flying_rows.messages)
    × (sending_count recovered.messages ≡ 0)
    × (ambiguous_count recovered.messages ≡ ambiguous_count flying_rows.messages + 1)
unfolding m2_recover_interrupted steps update update_where count_where text_checks state_checks
m2_recover_interrupted-counts_example =
    m2_recover_interrupted-counts able (pos 9) flying_rows recovered 1 refl

apply-failed_example : apply constant_digest dead (pos 9) claim_due two_rows ≡ two_rows
unfolding succeeds m2_claim_due steps is_sound text_checks state_checks find find_key
apply-failed_example = apply-failed constant_digest dead (pos 9) claim_due two_rows refl refl

abbrev inbound : M4InboundSubmission
inbound = record {
  provider_message_id = b'p' ∷ [];
  sender = replicate 9 b'7';
  verb = notify;
  driver = ntfy;
  destination = b'd' ∷ [];
  payload = b'x' ∷ [];
}

m4_submit_inbound-Outcome_example :
    (valid_inbound inbound ≡ true)
    × Outcome constant_digest inbound
        (pos 700000)
        empty
        accepted
        (taken constant_digest inbound (pos 700000) empty)
unfolding m4_submit_inbound steps if_enabled unless_seen unless_limited over_rate record_inbound
    insert insert_receipt insert_event note_event valid_inbound valid_idempotency_key
    valid_phone_sender valid_text find find_key text_checks state_checks count_where m3_message_id
    encode_hex ◌-ℤ◌
m4_submit_inbound-Outcome_example =
    m4_submit_inbound-Outcome constant_digest inbound (pos 700000) able accepted empty
      (taken constant_digest inbound (pos 700000) empty) refl

-- Two notifications of one sender, and a third that comes.
abbrev two_events : Db
two_events = record empty {
  rate_events =
      record { sender = replicate 9 b'7'; accepted_at = pos 650000 }
      ∷ record { sender = replicate 9 b'7'; accepted_at = pos 640000 }
      ∷ [];
}

abbrev third : List (Engine × ℤ × Call)
third = (able, pos 700000, submit_inbound inbound) ∷ []

history-is_limited_example :
    is_limited (history constant_digest third two_events).rate_events ≡ true
unfolding is_limited count_where ◌-ℤ◌
history-is_limited_example = history-is_limited constant_digest third two_events refl
