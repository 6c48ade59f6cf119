-- ===== src/Store/Inbound/Calm.antt =====
-- The operations of the queue leave the rate events of the inbound control plane alone
-- (crates/msgriver-store/src/lib.rs).
use msgriver.Common.{◌≡◌, refl, ◌∙◌, inl, inr, Bool, true, false, Bool-cases, arith, if◌then◌else◌}
use msgriver.Store.Schema.{
  Result, ok, err, Message, Db, Engine, Tx, ◌>>=◌, ◌>>◌, transact, autocommit, admit_if, finish,
  settle, give, fail, require, select, update, insert,
}

-- A body that leaves the rate events alone, if it comes to an end.
unfoldable pub Calm : {A : Type 0} → Db → Result (A × Db) → Type 0
Calm db (ok (a, db')) = db'.rate_events ≡ db.rate_events
Calm db (err x) = Unit {0}

unfoldable pub IsCalm : {A : Type 0} → Tx A → Type 0
IsCalm m = (db : Db) → Calm db (m db)

unfoldable pub CalmBy : {A : Type 0} → Db → Result A × Db → Type 0
CalmBy db r = r.1.rate_events ≡ db.rate_events

pub transact-CalmBy :
    {A : Type 0} (e : Engine) (body : Tx A) (db : Db) → IsCalm body → CalmBy db (transact e body db)
unfolding transact finish CalmBy IsCalm Calm
transact-CalmBy {A} e body db h = elim (Bool-cases e.begins) [
  | inl b ↦ rw b (ended (body db) (h db))
  | inr b ↦ rw b refl
]
  where
    ended : (r : Result (A × Db)) → Calm db r → (finish e db r).1.rate_events ≡ db.rate_events
    ended (ok (a, db')) k = elim (Bool-cases e.commits) [ inl c ↦ rw c k | inr c ↦ rw c refl ]
    ended (err x) k = refl

pub autocommit-CalmBy :
    {A : Type 0} (body : Tx A) (db : Db) → IsCalm body → CalmBy db (autocommit body db)
unfolding autocommit settle CalmBy IsCalm Calm
autocommit-CalmBy {A} body db h = ended (body db) (h db)
  where
    ended : (r : Result (A × Db)) → Calm db r → (settle db r).1.rate_events ≡ db.rate_events
    ended (ok (a, db')) k = k
    ended (err x) k = refl

pub admit_if-CalmBy :
    {A : Type 0} (b : Bool) (op : Db → Result A × Db) (db : Db)
    → CalmBy db (op db)
    → CalmBy db (admit_if b op db)
unfolding admit_if CalmBy
admit_if-CalmBy true op db h = h
admit_if-CalmBy false op db h = refl

pub bind-IsCalm :
    {A B : Type 0} (m : Tx A) (k : A → Tx B)
    → IsCalm m
    → ((a : A) → IsCalm (k a))
    → IsCalm (m >>= k)
unfolding ◌>>=◌ IsCalm Calm
bind-IsCalm {A} {B} m k h g db = next (m db) (h db)
  where
    after : Result (A × Db) → Result (B × Db)
    after (ok (a, db')) = k a db'
    after (err x) = err x

    later :
        (r : Result (B × Db)) (db' : Db) → db'.rate_events ≡ db.rate_events → Calm db' r → Calm db r
    later (ok (b, db2)) db' e c = c ∙ e
    later (err x) db' e c = tt

    next :
        (r : Result (A × Db))
        → Calm db r
        → Calm db (elim r [ ok (a, db') ↦ k a db' | err x ↦ err x ])
    next (ok (a, db')) c = later (k a db') db' c (g a db')
    next (err x) c = tt

pub seq-IsCalm : {B : Type 0} (m : Tx (Unit {0})) (k : Tx B) → IsCalm m → IsCalm k → IsCalm (m >> k)
unfolding ◌>>◌ IsCalm Calm
seq-IsCalm {B} m k h g db = next (m db) (h db)
  where
    later :
        (r : Result (B × Db)) (db' : Db) → db'.rate_events ≡ db.rate_events → Calm db' r → Calm db r
    later (ok (b, db2)) db' e c = c ∙ e
    later (err x) db' e c = tt

    next :
        (r : Result (Unit {0} × Db))
        → Calm db r
        → Calm db (elim r [ ok (a, db') ↦ k db' | err x ↦ err x ])
    next (ok (a, db')) c = later (k db') db' c (g db')
    next (err x) c = tt

pub if-IsCalm :
    {A : Type 0} (b : Bool) (m k : Tx A) → IsCalm m → IsCalm k → IsCalm (if b then m else k)
if-IsCalm true m k h g = h
if-IsCalm false m k h g = g

pub give-IsCalm : {A : Type 0} (a : A) → IsCalm (give a)
unfolding give IsCalm Calm
give-IsCalm a db = refl

pub fail-IsCalm : (A : Type 0) → IsCalm (fail {A = A})
unfolding fail IsCalm Calm
fail-IsCalm A db = tt

pub require-IsCalm : (b : Bool) → IsCalm (require b)
unfolding require IsCalm Calm
require-IsCalm true db = refl
require-IsCalm false db = tt

pub select-IsCalm : {A : Type 0} (e : Engine) (q : Db → A) → IsCalm (select e q)
unfolding select IsCalm Calm
select-IsCalm e q db = elim (Bool-cases e.reads) [ inl c ↦ rw c refl | inr c ↦ rw c tt ]

pub update-IsCalm :
    (e : Engine) (p : Message → Bool) (f : Message → Message) → IsCalm (update e p f)
unfolding update IsCalm Calm
update-IsCalm e p f db = ground arith

pub insert-IsCalm : (e : Engine) (m : Message) → IsCalm (insert e m)
unfolding insert IsCalm Calm
insert-IsCalm e m db = ground arith
