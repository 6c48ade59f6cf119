-- ===== src/Store/Inversion.antt =====
-- What a transaction that succeeded did, statement by statement, and that one that failed did
-- nothing.
use msgriver.Common.{
  ℕ, ◌≡◌, refl, sym, ap, Bool, true, false, ◌&&◌, ◌||◌, not, ◌∷◌, arith, all, if◌then◌else◌,
}
use msgriver.Store.Schema.{
  Result, ok, err, delivery, Message, Db, Engine, Tx, ◌>>=◌, ◌>>◌, transact, autocommit, admit_if,
  finish, settle, require, select, update, insert, update_where, count_where, row_checks, find,
  find_key, is_some,
}

-- An engine that fails in nothing.
abbrev pub able : Engine
able = record { begins = true; reads = true; writes = true; commits = true }

abbrev pub is_ok : {A : Type 0} → Result A → Bool
is_ok (ok a) = true
is_ok (err x) = false

pub ok_injective : {A : Type 0} {a b : A} → ok a ≡ ok b → a ≡ b
ok_injective {A} {a} h = ap (λ r. elim r [ ok c ↦ c | err x ↦ a ]) h

pub admit_if-ok :
    {A : Type 0} (b : Bool) (op : Db → Result A × Db) (db db' : Db) (a : A)
    → admit_if b op db ≡ (ok a, db')
    → op db ≡ (ok a, db')
unfolding admit_if
admit_if-ok true op db db' a h = h
admit_if-ok false op db db' a h = absurd (ground arith)

pub admit_if-admits :
    {A : Type 0} (b : Bool) (op : Db → Result A × Db) (db db' : Db) (a : A)
    → admit_if b op db ≡ (ok a, db')
    → b ≡ true
unfolding admit_if
admit_if-admits true op db db' a h = refl
admit_if-admits false op db db' a h = absurd (ground arith)

pub transact-ok :
    {A : Type 0} (e : Engine) (body : Tx A) (db db' : Db) (a : A)
    → transact e body db ≡ (ok a, db')
    → body db ≡ ok (a, db')
unfolding transact finish
transact-ok {A} e body db db' a h = begun e.begins h
  where
    committed :
        (c : Bool) (b : A) (d : Db)
        → Path (Result A × Db) (if c then (ok b, d) else (err delivery, db)) (ok a, db')
        → Path (Result (A × Db)) (ok (b, d)) (ok (a, db'))
    committed true b d k = ground arith
    committed false b d k = absurd (ground arith)

    finished : (r : Result (A × Db)) → finish e db r ≡ (ok a, db') → r ≡ ok (a, db')
    finished (ok (b, d)) k = committed e.commits b d k
    finished (err x) k = absurd (ground arith)

    begun :
        (c : Bool)
        → Path (Result A × Db) (if c then finish e db (body db) else (err delivery, db)) (ok a, db')
        → body db ≡ ok (a, db')
    begun true k = finished (body db) k
    begun false k = absurd (ground arith)

pub autocommit-ok :
    {A : Type 0} (body : Tx A) (db db' : Db) (a : A)
    → autocommit body db ≡ (ok a, db')
    → body db ≡ ok (a, db')
unfolding autocommit settle
autocommit-ok {A} body db db' a h = go (body db) h
  where
    go : (r : Result (A × Db)) → settle db r ≡ (ok a, db') → r ≡ ok (a, db')
    go (ok (b, d)) k = ap ok (ground arith)
    go (err x) k = absurd (ground arith)

pub bind-ok :
    {A B : Type 0} (m : Tx A) (k : A → Tx B) (db db' : Db) (b : B)
    → (m >>= k) db ≡ ok (b, db')
    → (a : A) × (mid : Db) × (m db ≡ ok (a, mid)) × (k a mid ≡ ok (b, db'))
unfolding ◌>>=◌
bind-ok {A} {B} m k db db' b h = go (m db) refl h
  where
    go :
        (r : Result (A × Db))
        → m db ≡ r
        → elim r [ ok (a, d) ↦ k a d | err x ↦ err x ] ≡ ok (b, db')
        → (a : A) × (mid : Db) × (m db ≡ ok (a, mid)) × (k a mid ≡ ok (b, db'))
    go (ok (a, d)) e q = (a, d, e, q)
    go (err x) e q = absurd (ground arith)

pub seq-ok :
    {B : Type 0} (m : Tx (Unit {0})) (k : Tx B) (db db' : Db) (b : B)
    → (m >> k) db ≡ ok (b, db')
    → (mid : Db) × (m db ≡ ok (tt, mid)) × (k mid ≡ ok (b, db'))
unfolding ◌>>◌
seq-ok {B} m k db db' b h = go (m db) refl h
  where
    go :
        (r : Result (Unit {0} × Db))
        → m db ≡ r
        → elim r [ ok (a, d) ↦ k d | err x ↦ err x ] ≡ ok (b, db')
        → (mid : Db) × (m db ≡ ok (tt, mid)) × (k mid ≡ ok (b, db'))
    go (ok (tt, d)) e q = (d, e, q)
    go (err x) e q = absurd (ground arith)

pub require-ok :
    (b : Bool) (u : Unit {0}) (db db' : Db) → require b db ≡ ok (u, db') → (b ≡ true) × (db' ≡ db)
unfolding require
require-ok true u db db' h = (refl, ground arith)
require-ok false u db db' h = absurd (ground arith)

pub select-ok :
    {A : Type 0} (e : Engine) (q : Db → A) (db db' : Db) (a : A)
    → select e q db ≡ ok (a, db')
    → (a ≡ q db) × (db' ≡ db)
unfolding select
select-ok e q db db' a h = ground arith

pub update-ok :
    (e : Engine) (p : Message → Bool) (f : Message → Message) (db db' : Db) (n : ℕ)
    → update e p f db ≡ ok (n, db')
    → (n ≡ count_where p db.messages)
      × (db' ≡ record db { messages = update_where p f db.messages })
      × (all (λ m. not (p m) || row_checks (f m)) db.messages ≡ true)
unfolding update
update-ok e p f db db' n h =
    written (e.writes && all (λ m. not (p m) || row_checks (f m)) db.messages) refl h
  where
    written :
        (c : Bool)
        → (e.writes && all (λ m. not (p m) || row_checks (f m)) db.messages) ≡ c
        → Path
            (Result (ℕ × Db))
            (if c
              then ok
                  (count_where p db.messages, record db { messages = update_where p f db.messages })
              else err delivery)
            (ok (n, db'))
        → (n ≡ count_where p db.messages)
          × (db' ≡ record db { messages = update_where p f db.messages })
          × (all (λ m. not (p m) || row_checks (f m)) db.messages ≡ true)
    written true q k = (
      sym (ap (λ r. elim r [ ok z ↦ z.0 | err x ↦ n ]) k),
      sym (ap (λ r. elim r [ ok z ↦ z.1 | err x ↦ db' ]) k),
      ground arith,
    )
    written false q k = absurd (ground arith)

pub insert-ok :
    (e : Engine) (m : Message) (db db' : Db)
    → insert e m db ≡ ok (tt, db')
    → db' ≡ record db { messages = m ∷ db.messages }
unfolding insert
insert-ok e m db db' h =
    written
      (e.writes
        && (row_checks m
            && (not (is_some (find m.message_id db.messages))
                && not (is_some (find_key m.idempotency_key db.messages)))))
      h
  where
    written :
        (c : Bool)
        → Path
            (Result (Unit {0} × Db))
            (if c then ok (tt, record db { messages = m ∷ db.messages }) else err delivery)
            (ok (tt, db'))
        → db' ≡ record db { messages = m ∷ db.messages }
    written true k = sym (ap (λ r. elim r [ ok z ↦ z.1 | err x ↦ db' ]) k)
    written false k = absurd (ground arith)

-- A transaction that fails leaves everything as it was.
pub transact-err :
    {A : Type 0} (e : Engine) (body : Tx A) (db : Db)
    → is_ok (transact e body db).0 ≡ false
    → (transact e body db).1 ≡ db
unfolding transact finish
transact-err {A} e body db h = ground arith

pub autocommit-err :
    {A : Type 0} (body : Tx A) (db : Db)
    → is_ok (autocommit body db).0 ≡ false
    → (autocommit body db).1 ≡ db
unfolding autocommit settle
autocommit-err body db h = ground arith

pub admit_if-err :
    {A : Type 0} (b : Bool) (op : Db → Result A × Db) (db : Db)
    → (is_ok (op db).0 ≡ false → (op db).1 ≡ db)
    → is_ok (admit_if b op db).0 ≡ false
    → (admit_if b op db).1 ≡ db
unfolding admit_if
admit_if-err true op db h k = h k
admit_if-err false op db h k = refl
