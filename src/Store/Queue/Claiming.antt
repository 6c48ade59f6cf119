-- ===== src/Store/Queue/Claiming.antt =====
-- What `m2_claim_due` returns and leaves behind (crates/msgriver-store/src/lib.rs).
use msgriver.Common.{
  ◌+◌, ◌≤◌, ◌≡◌, refl, ◌∙◌, sym, ap, inl, inr, Bool, true, false, ◌&&◌, ◌||◌, not, Option, none,
  some, List, [], ◌∷◌, arith, all, list_eq, list_eq_refl, Bool-cases, ltb, ◌==◌, if◌then◌else◌,
}
use msgriver.Common.Int.{ℤ}
use msgriver.Store.Schema.{
  Message, Db, Engine, Result, ok, err, select, require, give, update, update_where, count_where,
  row_checks, is_due_state, text_checks, state_checks,
}
use msgriver.Store.Queue.{
  candidate, claim, claimed, delivered, M2Delivery, m2_claim_due, is_due, first_of_two, earlier,
}
use msgriver.Store.Inversion.{
  is_ok, transact-ok, transact-err, bind-ok, seq-ok, require-ok, select-ok, update-ok,
}
use msgriver.Store.Queue.Order.{is_answer, candidate-is_answer}

-- The row that the UPDATE of a claim is about.
abbrev pub the_row : Message → Message → Bool
the_row m r = list_eq r.message_id m.message_id && is_due_state r.state

abbrev pub claims : ℤ → Message → Db → Db
claims now m db = record db { messages = update_where (the_row m) (claimed now) db.messages }

-- What a claim promises on the database before, the delivery and the database after.
pub record Claims (now : ℤ) (db : Db) (d : M2Delivery) (db' : Db) : Type 0 where
  pub row : Message
  pub found : candidate now db.messages ≡ some row
  pub due : is_answer now db.messages (some row) ≡ true
  pub delivery : d ≡ delivered row
  pub single : count_where (the_row row) db.messages ≡ 1
  pub update : db' ≡ claims now row db
  pub allowed : all (λ r. not (the_row row r) || row_checks (claimed now r)) db.messages ≡ true

claim-ok :
    (e : Engine) (now : ℤ) (db db' : Db) (d : M2Delivery) (m : Message)
    → candidate now db.messages ≡ some m
    → claim e now (some m) db ≡ ok (some d, db')
    → Claims now db d db'
unfolding claim give
claim-ok e now db db' d m c h =
    let (n, mid, u, h1) = bind-ok (update e (the_row m) (claimed now)) _ db db' (some d) h in
    let (mid1, q, h2) = seq-ok (require (n == 1)) _ mid db' (some d) h1 in
    let (mid2, w, h3) = seq-ok (require (ltb (m.attempts + 1) 256)) _ mid1 db' (some d) h2 in
    let (un, ud, ua) = update-ok e (the_row m) (claimed now) db mid n u in
    let (q1, q2) = require-ok (n == 1) tt mid mid1 q in
    let (w1, w2) = require-ok (ltb (m.attempts + 1) 256) tt mid1 mid2 w in
    record {
      row = m;
      found = c;
      due = sym (ap (is_answer now db.messages) c) ∙ candidate-is_answer now db.messages;
      delivery = sym (ap (λ (r : Result (Option M2Delivery × Db)). the_delivery r) h3);
      single = ground arith;
      update = sym (ap (λ (r : Result (Option M2Delivery × Db)). after r) h3) ∙ w2 ∙ q2 ∙ ud;
      allowed = ua;
    }
  where
    the_delivery : Result (Option M2Delivery × Db) → M2Delivery
    the_delivery (ok (some x, y)) = x
    the_delivery _ = d

    after : Result (Option M2Delivery × Db) → Db
    after (ok (x, y)) = y
    after (err x) = db'

-- A claim that returns a delivery has gone through all its steps.
pub m2_claim_due-Claims :
    (e : Engine) (now : ℤ) (db db' : Db) (d : M2Delivery)
    → m2_claim_due e now db ≡ (ok (some d), db')
    → Claims now db d db'
unfolding m2_claim_due claim give
m2_claim_due-Claims e now db db' d h =
    let (o, mid, s, k) =
      bind-ok (select e (λ db. candidate now db.messages)) _ db db' (some d)
        (transact-ok e _ db db' (some d) h) in
    let (so, sm) = select-ok e (λ db. candidate now db.messages) db mid o s in cases o mid so sm k
  where
    cases :
        (o : Option Message) (mid : Db)
        → o ≡ candidate now db.messages
        → mid ≡ db
        → claim e now o mid ≡ ok (some d, db')
        → Claims now db d db'
    cases none mid so sm k = absurd (ground arith)
    cases (some m) mid so sm k =
        claim-ok e now db db' d m (sym so) (sym (ap (claim e now (some m)) sm) ∙ k)

pub some_injective : {a b : Message} → some a ≡ some b → a ≡ b
some_injective h = ground arith

pub and_left : (x y : Bool) → (x && y) ≡ true → x ≡ true
and_left x y h = ground arith

-- What holds of every row holds of the candidate.
pub all-candidate :
    (p : Message → Bool) (now : ℤ) (ms : List Message) (m : Message)
    → candidate now ms ≡ some m
    → all p ms ≡ true
    → p m ≡ true
unfolding candidate
all-candidate p now [] m h k = absurd (ground arith)
all-candidate p now (r ∷ ms) m h k =
    chosen (is_due now r) (candidate now ms) (λ b e. all-candidate p now ms b e (ground arith)) h
  where
    chosen :
        (d : Bool) (o : Option Message)
        → ((b : Message) → o ≡ some b → p b ≡ true)
        → (if d then some (first_of_two r o) else o) ≡ some m
        → p m ≡ true
    chosen false o f e = f m e
    chosen true none f e = sym (ap p (some_injective e)) ∙ and_left _ _ k
    chosen true (some b) f e = sym (ap p (some_injective e)) ∙ elim (Bool-cases (earlier b r)) [
      | inl q ↦ rw q (f b refl)
      | inr q ↦ rw q (and_left _ _ k)
    ]

the_row_refl : (now : ℤ) (m : Message) → is_due now m ≡ true → the_row m m ≡ true
the_row_refl now m h = rw (list_eq_refl m.message_id) (and_left _ _ h)

-- A row with five attempts has no claimed form that the schema takes.
claimed-refused :
    (now : ℤ) (m : Message)
    → 5 ≤ m.attempts
    → is_due now m ≡ true
    → (not (the_row m m) || row_checks (claimed now m)) ≡ false
unfolding state_checks text_checks
claimed-refused now m h d = rw (the_row_refl now m d) (last (text_checks m) _ (ground arith))
  where
    last : (a b : Bool) → b ≡ false → (a && b) ≡ false
    last a b e = ground arith

pub candidate-due :
    (now : ℤ) (ms : List Message) (m : Message) → candidate now ms ≡ some m → is_due now m ≡ true
candidate-due now ms m c = and_left _ _ (sym (ap (is_answer now ms) c) ∙ candidate-is_answer now ms)

claim-refused :
    (e : Engine) (now : ℤ) (db db' : Db) (m : Message) (o : Option M2Delivery)
    → candidate now db.messages ≡ some m
    → 5 ≤ m.attempts
    → claim e now (some m) db ≡ ok (o, db')
    → true ≡ false
unfolding claim
claim-refused e now db db' m o c h k =
    let (n, mid, u, rest) = bind-ok (update e (the_row m) (claimed now)) _ db db' o k in
    let (un, ud, ua) = update-ok e (the_row m) (claimed now) db mid n u in
    sym
      (all-candidate (λ r. not (the_row m r) || row_checks (claimed now r)) now db.messages m c ua)
    ∙ claimed-refused now m h (candidate-due now db.messages m c)

-- If the row that would be claimed first has five attempts already, then a claim fails, whatever
-- the engine does, and the database is as it was.
pub m2_claim_due-stuck :
    (e : Engine) (now : ℤ) (db : Db) (m : Message)
    → candidate now db.messages ≡ some m
    → 5 ≤ m.attempts
    → (is_ok (m2_claim_due e now db).0 ≡ false) × ((m2_claim_due e now db).1 ≡ db)
unfolding m2_claim_due
m2_claim_due-stuck e now db m c h =
    let fails = refused (m2_claim_due e now db) refl in (fails, transact-err e _ db fails)
  where
    refused : (r : Result (Option M2Delivery) × Db) → m2_claim_due e now db ≡ r → is_ok r.0 ≡ false
    refused (err x, db') eq = refl
    refused (ok o, db') eq =
        let (found, mid, s, k) =
          bind-ok (select e (λ db. candidate now db.messages)) _ db db' o
            (transact-ok e _ db db' o eq) in
        let (so, sm) = select-ok e (λ db. candidate now db.messages) db mid found s in
        claim-refused e now db db' m o c h
          (sym (ap (λ f. claim e now f db) (so ∙ c)) ∙ (sym (ap (claim e now found) sm) ∙ k))
