-- ===== src/Store/Trace/Sound.antt =====
-- The constraints of the schema hold after every history of the store
-- (crates/msgriver-store/src/migration_v3_m2_delivery.sql, migration_v4_driver_queue.sql).
use msgriver.Common.{
  ℕ, ◌≡◌, refl, inl, inr, Bool, true, ◌&&◌, ◌||◌, not, Option, none, some, List, [], ◌∷◌, arith,
  Bool-cases, all,
}
use msgriver.Common.Int.{ℤ}
use msgriver.Store.Schema.{Message, Db, Engine, find, find_key, update_where, row_checks, is_some}
use msgriver.Store.Evolution.{
  Evolves, Effect, unchanged, added, changed, find-update_where, find_key-update_where, row_step,
  map_row, row_step-Evolves,
}
use msgriver.Store.Trace.{Call, apply, history, apply-Effect}

-- The PRIMARY KEY, the UNIQUE key and the CHECKs of `m3_messages`.
unfoldable pub is_sound : List Message → Bool
is_sound [] = true
is_sound (m ∷ ms) =
    row_checks m
    && (not (is_some (find m.message_id ms))
        && (not (is_some (find_key m.idempotency_key ms)) && is_sound ms))

map_row-is_some : (g : Message → Message) (o : Option Message) → is_some (map_row g o) ≡ is_some o
map_row-is_some g none = refl
map_row-is_some g (some m) = refl

step_checks :
    (p : Message → Bool) (f : Message → Message) (m : Message)
    → row_checks m ≡ true
    → (not (p m) || row_checks (f m)) ≡ true
    → row_checks (row_step p f m) ≡ true
step_checks p f m h k = elim (Bool-cases (p m)) [ inl e ↦ rw e (ground arith) | inr e ↦ rw e h ]

update_where-is_sound :
    (p : Message → Bool) (f : Message → Message)
    → ((m : Message) → p m ≡ true → Evolves m (f m))
    → (ms : List Message) → all (λ m. not (p m) || row_checks (f m)) ms ≡ true
    → is_sound ms ≡ true
    → is_sound (update_where p f ms) ≡ true
unfolding is_sound update_where
update_where-is_sound p f ev [] h k = refl
update_where-is_sound p f ev (m ∷ ms) h k =
    rw
      (
        step_checks p f m (ground arith) (ground arith),
        (row_step-Evolves p f ev m).id,
        (row_step-Evolves p f ev m).key,
        find-update_where p f ev m.message_id ms,
        find_key-update_where p f ev m.idempotency_key ms,
        map_row-is_some (row_step p f) (find m.message_id ms),
        map_row-is_some (row_step p f) (find_key m.idempotency_key ms),
        update_where-is_sound p f ev ms (ground arith) (ground arith),
      )
      (ground arith)

pub Effect-is_sound :
    {before after : List Message}
    → Effect before after
    → is_sound before ≡ true
    → is_sound after ≡ true
unfolding is_sound
Effect-is_sound (unchanged e) h = rw e h
Effect-is_sound (added m checks st att fresh key e) h = rw (e, checks, fresh, key, h) refl
Effect-is_sound {before} (changed p f ev checks e) h =
    rw e (update_where-is_sound p f ev before checks h)

-- If the table of messages satisfies the schema's constraints (ids and idempotency keys unique,
-- lengths, the driver, at most five attempts, and the columns that each state requires), it does
-- so after every sequence of calls, whatever the engine fails to do in them.
pub history-is_sound :
    (digest : List ℕ → List ℕ) (cs : List (Engine × ℤ × Call)) (db : Db)
    → is_sound db.messages ≡ true
    → is_sound (history digest cs db).messages ≡ true
unfolding history
history-is_sound digest [] db h = h
history-is_sound digest ((e, now, c) ∷ cs) db h =
    history-is_sound digest cs (apply digest e now c db)
      (Effect-is_sound (apply-Effect digest e now c db) h)
