-- ===== src/Store/Trace/Again.antt =====
-- A submission that was admitted and comes again is answered with the same message
-- (`m2_submit` and `m3_submit` in crates/msgriver-store/src/lib.rs).
use msgriver.Common.{
  ℕ, ◌≡◌, refl, ◌∙◌, sym, ap, Bool, true, false, ◌&&◌, Option, none, some, List, ◌∷◌, arith,
  if◌then◌else◌, list_eq, list_eq_refl,
}
use msgriver.Common.Int.{ℤ}
use msgriver.Store.Validation.{Text, opt_eq}
use msgriver.Store.Schema.{
  Result, ok, err, Message, Db, Engine, steps, select, insert, find_key, give, fail,
}
use msgriver.Store.Queue.{
  M2Submission, M3Submission, M2Accepted, new, existing, m2_submit, m3_submit, m2_admit, m3_admit,
  m2_row, m3_row, valid_m2_submission, valid_m3_submission,
}
use msgriver.Store.Inversion.{
  able, admit_if-ok, admit_if-admits, transact-ok, bind-ok, seq-ok, select-ok, insert-ok,
}
use msgriver.Store.Trace.{Call, history}
use msgriver.Store.Trace.Kept.{Continues, history-find_key}

abbrev pub id_of : M2Accepted → Text
id_of (new id) = id
id_of (existing id) = id

-- The fields that a submission is compared by.
abbrev same_m2 : M2Submission → Message → Bool
same_m2 s m = list_eq m.topic s.topic && (opt_eq m.title s.title && list_eq m.body s.body)

abbrev same_m3 : M3Submission → Message → Bool
same_m3 s m =
    list_eq m.driver s.driver
    && (list_eq m.destination s.destination && list_eq m.payload s.payload)

opt_eq_refl : (o : Option Text) → opt_eq o o ≡ true
opt_eq_refl none = refl
opt_eq_refl (some t) = list_eq_refl t

-- The row that answers a submission.
record Answers (key : Text) (fits : Message → Bool) (id : Text) (ms : List Message) : Type 0 where
  row : Message
  found : find_key key ms ≡ some row
  fitting : fits row ≡ true
  named : row.message_id ≡ id

find_key-head : (m : Message) (ms : List Message) → find_key m.idempotency_key (m ∷ ms) ≡ some m
unfolding find_key
find_key-head m ms = rw (list_eq_refl m.idempotency_key) refl

abbrev db_of : Db → Result (M2Accepted × Db) → Db
db_of db (ok (r, db')) = db'
db_of db (err x) = db

-- The comparison with the row that has the key.
compared :
    (b : Bool) (m : Message) (r : M2Accepted) (db db' : Db)
    → (if b then give (existing m.message_id) else fail) db ≡ ok (r, db')
    → (b ≡ true) × (m.message_id ≡ id_of r) × (db' ≡ db)
unfolding give fail
compared true m r db db' h = (
  refl,
  ap (λ (z : Result (M2Accepted × Db)). elim z [ ok p ↦ id_of p.0 | err x ↦ m.message_id ]) h,
  sym (ap (db_of db) h),
)
compared false m r db db' h = absurd (ground arith)

-- A row inserted and its id returned.
inserted :
    (m : Message) (r : M2Accepted) (fits : Message → Bool) (db mid db' : Db)
    → fits m ≡ true
    → mid ≡ record db { messages = m ∷ db.messages }
    → give (new m.message_id) mid ≡ ok (r, db')
    → Answers m.idempotency_key fits (id_of r) db'.messages
unfolding give
inserted m r fits db mid db' f done h = record {
  row = m;
  found =
      ap (λ z. find_key m.idempotency_key (db_of mid z).messages) (sym h)
      ∙ (ap (λ (d : Db). find_key m.idempotency_key d.messages) done ∙ find_key-head m db.messages);
  fitting = f;
  named =
      ap (λ (z : Result (M2Accepted × Db)). elim z [ ok p ↦ id_of p.0 | err x ↦ m.message_id ]) h;
}

module _ (digest : List ℕ → List ℕ) where
  m2_admit-Answers :
      (e : Engine) (s : M2Submission) (now : ℤ) (r : M2Accepted) (db db' : Db) (o : Option Message)
      → find_key s.idempotency_key db.messages ≡ o
      → m2_admit digest e s now o db ≡ ok (r, db')
      → Answers s.idempotency_key (same_m2 s) (id_of r) db'.messages
  unfolding m2_admit
  m2_admit-Answers e s now r db db' (some m) f h =
      let (fits, id, keep) = compared (same_m2 s m) m r db db' h in
      record {
        row = m;
        found = ap (λ (d : Db). find_key s.idempotency_key d.messages) keep ∙ f;
        fitting = fits;
        named = id;
      }
  m2_admit-Answers e s now r db db' none f h =
      let (mid, i, g) = seq-ok (insert e (m2_row digest s now)) _ db db' r h in
      inserted (m2_row digest s now) r (same_m2 s) db mid db'
        (rw (list_eq_refl s.topic, opt_eq_refl s.title) (list_eq_refl s.body))
        (insert-ok e (m2_row digest s now) db mid i) g

  m2_submit-Answers :
      (e : Engine) (s : M2Submission) (now : ℤ) (r : M2Accepted) (db db' : Db)
      → m2_submit digest e s now db ≡ (ok r, db')
      → (valid_m2_submission s ≡ true)
        × Answers s.idempotency_key (same_m2 s) (id_of r) db'.messages
  unfolding m2_submit
  m2_submit-Answers e s now r db db' h =
      let (o, mid, q, k) =
        bind-ok (select e (λ db. find_key s.idempotency_key db.messages)) _ db db' r
          (transact-ok e _ db db' r (admit_if-ok (valid_m2_submission s) _ db db' r h)) in
      let (qo, qm) = select-ok e (λ db. find_key s.idempotency_key db.messages) db mid o q in
      (
        admit_if-admits (valid_m2_submission s) _ db db' r h,
        m2_admit-Answers e s now r mid db' o
            (ap (λ (d : Db). find_key s.idempotency_key d.messages) qm ∙ sym qo) k,
      )

  -- What answered a submission still does, whatever has happened.
  Answers-history :
      (key id : Text) (fits : Message → Bool) (cs : List (Engine × ℤ × Call)) (db : Db)
      → ((a b : Message) → Continues a b → fits a ≡ true → fits b ≡ true)
      → Answers key fits id db.messages
      → Answers key fits id (history digest cs db).messages
  Answers-history key id fits cs db keeps a =
      let (b, g, k) = history-find_key digest cs key a.row db a.found in
      record { row = b; found = g; fitting = keeps a.row b k a.fitting; named = k.id ∙ a.named }

  m2_answered :
      (s : M2Submission) (now : ℤ) (id : Text) (db : Db)
      → valid_m2_submission s ≡ true
      → Answers s.idempotency_key (same_m2 s) id db.messages
      → m2_submit digest able s now db ≡ (ok (existing id), db)
  unfolding m2_submit steps m2_admit
  m2_answered s now id db v a = rw (v, a.found, a.fitting, a.named) refl

  -- If a submission was answered with a message's id, whether as new or as existing, then after any
  -- sequence of calls, with any failures of the engine, the same submission on an engine that does
  -- not fail is answered with this id as existing, and changes nothing.
  pub m2_submit-again :
      (e : Engine) (s : M2Submission) (now later : ℤ) (r : M2Accepted) (db db' : Db)
      (cs : List (Engine × ℤ × Call))
      → m2_submit digest e s now db ≡ (ok r, db')
      → m2_submit digest able s later (history digest cs db')
        ≡ (ok (existing (id_of r)), history digest cs db')
  m2_submit-again e s now later r db db' cs h =
      let (v, a) = m2_submit-Answers e s now r db db' h in
      m2_answered s later (id_of r) (history digest cs db') v (
        Answers-history s.idempotency_key (id_of r) (same_m2 s) cs db'
          (λ a b k f. rw (k.topic, k.title, k.body) f) a)

  m3_admit-Answers :
      (e : Engine) (s : M3Submission) (now : ℤ) (r : M2Accepted) (db db' : Db) (o : Option Message)
      → find_key s.idempotency_key db.messages ≡ o
      → m3_admit digest e s now o db ≡ ok (r, db')
      → Answers s.idempotency_key (same_m3 s) (id_of r) db'.messages
  unfolding m3_admit
  m3_admit-Answers e s now r db db' (some m) f h =
      let (fits, id, keep) = compared (same_m3 s m) m r db db' h in
      record {
        row = m;
        found = ap (λ (d : Db). find_key s.idempotency_key d.messages) keep ∙ f;
        fitting = fits;
        named = id;
      }
  m3_admit-Answers e s now r db db' none f h =
      let (mid, i, g) = seq-ok (insert e (m3_row digest s s.driver now)) _ db db' r h in
      inserted (m3_row digest s s.driver now) r (same_m3 s) db mid db'
        (rw (list_eq_refl s.driver, list_eq_refl s.destination) (list_eq_refl s.payload))
        (insert-ok e (m3_row digest s s.driver now) db mid i) g

  m3_submit-Answers :
      (e : Engine) (s : M3Submission) (now : ℤ) (r : M2Accepted) (db db' : Db)
      → m3_submit digest e s now db ≡ (ok r, db')
      → (valid_m3_submission s ≡ true)
        × Answers s.idempotency_key (same_m3 s) (id_of r) db'.messages
  unfolding m3_submit
  m3_submit-Answers e s now r db db' h =
      let (o, mid, q, k) =
        bind-ok (select e (λ db. find_key s.idempotency_key db.messages)) _ db db' r
          (transact-ok e _ db db' r (admit_if-ok (valid_m3_submission s) _ db db' r h)) in
      let (qo, qm) = select-ok e (λ db. find_key s.idempotency_key db.messages) db mid o q in
      (
        admit_if-admits (valid_m3_submission s) _ db db' r h,
        m3_admit-Answers e s now r mid db' o
            (ap (λ (d : Db). find_key s.idempotency_key d.messages) qm ∙ sym qo) k,
      )

  m3_answered :
      (s : M3Submission) (now : ℤ) (id : Text) (db : Db)
      → valid_m3_submission s ≡ true
      → Answers s.idempotency_key (same_m3 s) id db.messages
      → m3_submit digest able s now db ≡ (ok (existing id), db)
  unfolding m3_submit steps m3_admit
  m3_answered s now id db v a = rw (v, a.found, a.fitting, a.named) refl

  -- If a submission for a driver was answered with a message's id, whether as new or as existing, then after any
  -- sequence of calls, with any failures of the engine, the same submission on an engine that does
  -- not fail is answered with this id as existing, and changes nothing.
  pub m3_submit-again :
      (e : Engine) (s : M3Submission) (now later : ℤ) (r : M2Accepted) (db db' : Db)
      (cs : List (Engine × ℤ × Call))
      → m3_submit digest e s now db ≡ (ok r, db')
      → m3_submit digest able s later (history digest cs db')
        ≡ (ok (existing (id_of r)), history digest cs db')
  m3_submit-again e s now later r db db' cs h =
      let (v, a) = m3_submit-Answers e s now r db db' h in
      m3_answered s later (id_of r) (history digest cs db') v (
        Answers-history s.idempotency_key (id_of r) (same_m3 s) cs db'
          (λ a b k f. rw (k.driver, k.destination, k.payload) f) a)
