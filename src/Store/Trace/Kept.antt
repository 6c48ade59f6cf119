-- ===== src/Store/Trace/Kept.antt =====
-- What no history of the store can take back: a row, what was admitted in it, an effect that is
-- known or in doubt (crates/msgriver-store/src/lib.rs).
use msgriver.Common.{
  ℕ, ◌≤◌, ◌≡◌, refl, ◌∙◌, sym, ap, inl, inr, ◌≢◌, true, some, List, [], ◌∷◌, arith, list_eq,
  list_eq_sound, Bool-cases,
}
use msgriver.Common.Int.{ℤ}
use msgriver.Store.Validation.{Text}
use msgriver.Store.Schema.{Message, Db, Engine, find, find_key}
use msgriver.Store.Evolution.{
  Evolves, Effect, unchanged, added, changed, find-Effect, find_key-update_where, row_step, map_row,
  row_step-Evolves, Evolves-refl, is_final,
}
use msgriver.Store.Trace.{Call, apply, history, apply-Effect}

-- What stays of a row, whatever happens.
pub record Continues (a b : Message) : Type 0 where
  pub id : b.message_id ≡ a.message_id
  pub key : b.idempotency_key ≡ a.idempotency_key
  pub driver : b.driver ≡ a.driver
  pub destination : b.destination ≡ a.destination
  pub payload : b.payload ≡ a.payload
  pub topic : b.topic ≡ a.topic
  pub title : b.title ≡ a.title
  pub body : b.body ≡ a.body
  pub created : b.created_at ≡ a.created_at
  pub attempts : a.attempts ≤ b.attempts
  pub final : is_final a.state ≡ true → b ≡ a

pub Continues-refl : (a : Message) → Continues a a
Continues-refl a = record {
  id = refl;
  key = refl;
  driver = refl;
  destination = refl;
  payload = refl;
  topic = refl;
  title = refl;
  body = refl;
  created = refl;
  attempts = omega arith;
  final = λ _. refl;
}

pub Continues-step : {a b c : Message} → Evolves a b → Continues b c → Continues a c
Continues-step {a} {b} {c} h k = record {
  id = k.id ∙ h.id;
  key = k.key ∙ h.key;
  driver = k.driver ∙ h.driver;
  destination = k.destination ∙ h.destination;
  payload = k.payload ∙ h.payload;
  topic = k.topic ∙ h.topic;
  title = k.title ∙ h.title;
  body = k.body ∙ h.body;
  created = k.created ∙ h.created;
  attempts = le_trans h.attempts k.attempts;
  final = λ f. k.final (ap (λ (m : Message). is_final m.state) (h.final f) ∙ f) ∙ h.final f;
}
  where
    le_trans : {x y z : ℕ} → x ≤ y → y ≤ z → x ≤ z
    le_trans p q = omega arith

find_key-head :
    (x : Text) (m : Message) (ms : List Message)
    → (x ≢ m.idempotency_key)
    → find_key x (m ∷ ms) ≡ find_key x ms
unfolding find_key
find_key-head x m ms ne = elim (Bool-cases (list_eq m.idempotency_key x)) [
  | inl e ↦ absurd (ne (sym (list_eq_sound m.idempotency_key x e)))
  | inr e ↦ rw e
]

-- The same of the lookup by idempotency key.
pub find_key-Effect :
    (x : Text) (a : Message) {before after : List Message}
    → Effect before after
    → find_key x before ≡ some a
    → (b : Message) × (find_key x after ≡ some b) × Evolves a b
find_key-Effect x a (unchanged e) h = (a, rw e h, Evolves-refl a)
find_key-Effect x a {before} (added m checks st att fresh key e) h = (
  a,
  rw e (
      find_key-head x m before (λ same. cc (ap (λ (t : Text). find_key t before) same, key, h))
      ∙ h),
  Evolves-refl a,
)
find_key-Effect x a {before} (changed p f ev checks e) h = (
  row_step p f a,
  rw e (find_key-update_where p f ev x before ∙ ap (map_row (row_step p f)) h),
  row_step-Evolves p f ev a,
)

module _ (digest : List ℕ → List ℕ) where
  -- Whatever calls are made on the store, in whatever order, and whatever the engine fails to do in
  -- them, a message that is found by its id is found by it afterwards, with its key, driver,
  -- destination, payload, topic, title, body and time of admission as they were and no fewer
  -- attempts; and if it was provider_accepted or ambiguous its whole row is as it was.
  pub history-find :
      (cs : List (Engine × ℤ × Call)) (x : Text) (a : Message) (db : Db)
      → find x db.messages ≡ some a
      → (b : Message) × (find x (history digest cs db).messages ≡ some b) × Continues a b
  unfolding history
  history-find [] x a db h = (a, h, Continues-refl a)
  history-find ((e, now, c) ∷ cs) x a db h =
      let (b, f, ev) = find-Effect x a (apply-Effect digest e now c db) h in
      let (z, g, k) = history-find cs x b (apply digest e now c db) f in (z, g, Continues-step ev k)

  -- The same of the lookup by idempotency key.
  pub history-find_key :
      (cs : List (Engine × ℤ × Call)) (x : Text) (a : Message) (db : Db)
      → find_key x db.messages ≡ some a
      → (b : Message) × (find_key x (history digest cs db).messages ≡ some b) × Continues a b
  unfolding history
  history-find_key [] x a db h = (a, h, Continues-refl a)
  history-find_key ((e, now, c) ∷ cs) x a db h =
      let (b, f, ev) = find_key-Effect x a (apply-Effect digest e now c db) h in
      let (z, g, k) = history-find_key cs x b (apply digest e now c db) f in
      (z, g, Continues-step ev k)
