-- ===== src/Store/Calculus.antt =====
-- How the effect of an operation on the table of messages follows from that of its statements.
use msgriver.Common.{
  ◌≡◌, refl, ◌∙◌, inl, inr, Bool, true, false, ◌&&◌, ◌||◌, not, arith, all, Bool-cases,
  if◌then◌else◌,
}
use msgriver.Store.Schema.{
  Result, ok, err, Message, Db, Engine, Tx, ◌>>=◌, ◌>>◌, transact, autocommit, admit_if, finish,
  settle, give, fail, require, select, find, find_key, update, insert, row_checks, is_some, queued,
}
use msgriver.Store.Evolution.{Evolves, Effect, unchanged, added, changed}

-- The effect of a body, if it comes to an end.
unfoldable pub Affects : {A : Type 0} → Db → Result (A × Db) → Type 0
Affects db (ok (a, db')) = Effect db.messages db'.messages
Affects db (err x) = Unit {0}

unfoldable pub AffectsBy : {A : Type 0} → Db → Result A × Db → Type 0
AffectsBy db r = Effect db.messages r.1.messages

pub transact-Effect :
    {A : Type 0} (e : Engine) (body : Tx A) (db : Db)
    → Affects db (body db)
    → AffectsBy db (transact e body db)
unfolding transact Affects AffectsBy
transact-Effect {A} e body db h = elim (Bool-cases e.begins) [
  | inl b ↦ rw b (split (body db) h)
  | inr b ↦ rw b (unchanged refl)
]
  where
    split : (r : Result (A × Db)) → Affects db r → AffectsBy db (finish e db r)
    split (ok (a, db')) k = elim (Bool-cases e.commits) [
      | inl c ↦ rw c k
      | inr c ↦ rw c (unchanged refl)
    ]
    split (err x) k = unchanged refl

pub autocommit-Effect :
    {A : Type 0} (body : Tx A) (db : Db) → Affects db (body db) → AffectsBy db (autocommit body db)
unfolding autocommit Affects AffectsBy
autocommit-Effect {A} body db h = split (body db) h
  where
    split : (r : Result (A × Db)) → Affects db r → AffectsBy db (settle db r)
    split (ok (a, db')) k = k
    split (err x) k = unchanged refl

pub admit_if-Effect :
    {A : Type 0} (b : Bool) (op : Db → Result A × Db) (db : Db)
    → AffectsBy db (op db)
    → AffectsBy db (admit_if b op db)
unfolding admit_if AffectsBy
admit_if-Effect true op db h = h
admit_if-Effect false op db h = unchanged refl

-- Both ends, as they are used.
pub AffectsBy-Effect :
    {A : Type 0} (db : Db) (r : Result A × Db) → AffectsBy db r → Effect db.messages r.1.messages
unfolding AffectsBy
AffectsBy-Effect db r h = h

pub give-Affects : {A : Type 0} (a : A) (db : Db) → Affects db (give a db)
unfolding Affects give
give-Affects a db = unchanged refl

pub fail-Affects : (A : Type 0) (db : Db) → Affects {A = A} db (fail db)
unfolding Affects fail
fail-Affects A db = tt

-- An UPDATE, and what is done with its count.
pub update-Affects :
    (e : Engine) (p : Message → Bool) (f : Message → Message) (db : Db)
    → ((m : Message) → p m ≡ true → Evolves m (f m))
    → Affects db (update e p f db)
unfolding update Affects
update-Affects e p f db ev =
    elim (Bool-cases (e.writes && all (λ m. not (p m) || row_checks (f m)) db.messages)) [
      | inl c ↦ rw c (changed p f ev (ground arith) refl)
      | inr c ↦ rw c tt
    ]

-- A body that keeps the table of messages, or fails.
unfoldable pub IsQuiet : {B : Type 0} → Tx B → Type 0
IsQuiet {B} m = (db : Db) (b : B) (db' : Db) → m db ≡ ok (b, db') → db'.messages ≡ db.messages

pub give-IsQuiet : {B : Type 0} (b : B) → IsQuiet (give b)
unfolding IsQuiet give
give-IsQuiet b db c db' h = ground arith

pub require-IsQuiet : (b : Bool) → IsQuiet (require b)
unfolding IsQuiet require
require-IsQuiet true db c db' h = ground arith
require-IsQuiet false db c db' h = absurd (ground arith)

pub >>-IsQuiet :
    {B : Type 0} (m : Tx (Unit {0})) (k : Tx B) → IsQuiet m → IsQuiet k → IsQuiet (m >> k)
unfolding IsQuiet ◌>>◌
>>-IsQuiet {B} m k q r db c db' h = go (m db) refl h
  where
    go :
        (o : Result (Unit {0} × Db))
        → m db ≡ o
        → elim o [ ok (a, db1) ↦ k db1 | err x ↦ err x ] ≡ ok (c, db')
        → db'.messages ≡ db.messages
    go (ok (a, db1)) e g = r db1 c db' g ∙ q db a db1 e
    go (err x) e g = absurd (ground arith)

pub require-Affects :
    {B : Type 0} (b : Bool) (k : Tx B) (db : Db)
    → Affects db (k db)
    → Affects db ((require b >> k) db)
unfolding ◌>>◌ require Affects
require-Affects true k db h = h
require-Affects false k db h = tt

-- A query, however it is put together.
pub peek-Affects :
    {A B : Type 0} (db : Db) (m : Tx A) (k : A → Tx B)
    → ((a : A) (db' : Db) → m db ≡ ok (a, db') → db' ≡ db)
    → ((a : A) → Affects db (k a db))
    → Affects db ((m >>= k) db)
unfolding ◌>>=◌ Affects
peek-Affects {A} {B} db m k q h = go (m db) refl
  where
    go :
        (o : Result (A × Db))
        → m db ≡ o
        → Affects db (elim o [ ok (a, db') ↦ k a db' | err x ↦ err x ])
    go (ok (a, db')) e = rw (q a db' e) (h a)
    go (err x) e = tt

pub then-Affects :
    {A B : Type 0} (db : Db) (m : Tx A) (k : A → Tx B)
    → Affects db (m db)
    → ((a : A) → IsQuiet (k a))
    → Affects db ((m >>= k) db)
unfolding ◌>>=◌ Affects IsQuiet
then-Affects {A} {B} db m k h q = go (m db) h
  where
    after :
        (a : A) (db' : Db) (r : Result (B × Db))
        → k a db' ≡ r
        → Effect db.messages db'.messages
        → Affects db r
    after a db' (ok (b, db2)) e h = rw (q a db' b db2 e) h
    after a db' (err x) e h = tt

    go :
        (r : Result (A × Db))
        → Affects db r
        → Affects db (elim r [ ok (a, db') ↦ k a db' | err x ↦ err x ])
    go (ok (a, db')) h = after a db' (k a db') refl h
    go (err x) h = tt

pub seq-Affects :
    {B : Type 0} (db : Db) (m : Tx (Unit {0})) (k : Tx B)
    → Affects db (m db)
    → IsQuiet k
    → Affects db ((m >> k) db)
unfolding ◌>>◌ Affects IsQuiet
seq-Affects {B} db m k h q = go (m db) h
  where
    after :
        (db' : Db) (r : Result (B × Db))
        → k db' ≡ r
        → Effect db.messages db'.messages
        → Affects db r
    after db' (ok (b, db2)) e h = rw (q db' b db2 e) h
    after db' (err x) e h = tt

    go :
        (r : Result (Unit {0} × Db))
        → Affects db r
        → Affects db (elim r [ ok (a, db') ↦ k db' | err x ↦ err x ])
    go (ok (a, db')) h = after db' (k db') refl h
    go (err x) h = tt

pub insert-Affects :
    (e : Engine) (m : Message) (db : Db)
    → m.state ≡ queued
    → m.attempts ≡ 0
    → Affects db (insert e m db)
unfolding insert Affects
insert-Affects e m db st att =
    elim (Bool-cases (
      e.writes
      && (row_checks m
          && (not (is_some (find m.message_id db.messages))
              && not (is_some (find_key m.idempotency_key db.messages)))))) [
                | inl c ↦ rw c (added m (ground arith) st att (ground arith) (ground arith) refl)
                | inr c ↦ rw c tt
              ]

pub select-Affects :
    {A B : Type 0} (e : Engine) (q : Db → A) (k : A → Tx B) (db : Db)
    → Affects db (k (q db) db)
    → Affects db ((select e q >>= k) db)
unfolding select ◌>>=◌ Affects
select-Affects e q k db h = elim (Bool-cases e.reads) [ inl c ↦ rw c h | inr c ↦ rw c tt ]

pub guarded-Affects :
    {A : Type 0} (b : Bool) (db : Db) (m k : Tx A)
    → Affects db (m db)
    → Affects db (k db)
    → Affects db ((if b then m else k) db)
guarded-Affects true db m k h g = h
guarded-Affects false db m k h g = g
