-- ===== src/Store/Trace/Replaced.antt =====
-- What a statement about one row leaves of the table of messages
-- (crates/msgriver-store/src/lib.rs).
use msgriver.Common.{
  ◌≡◌, refl, ◌∙◌, sym, ap, inl, inr, Bool, true, false, Option, none, some, List, [], ◌∷◌, arith,
  if◌then◌else◌, list_eq, list_eq_sound, Bool-cases,
}
use msgriver.Store.Validation.{Text}
use msgriver.Store.Schema.{Message, Db, find, update_where}
use msgriver.Store.Evolution.{Evolves, row_step, map_row, row_step-Evolves, find-update_where}
use msgriver.Store.Trace.Unique.{at_id, head, if_true}

abbrev pub ids : List Message → List Text
ids [] = []
ids (m ∷ ms) = m.message_id ∷ ids ms

-- The database `db'` is `db` with the row `b` where `a` was.
pub record Replaces (a b : Message) (db db' : Db) : Type 0 where
  pub found :
      (x : Text)
      → find x db'.messages ≡ (if list_eq x a.message_id then some b else find x db.messages)
  pub rows : ids db'.messages ≡ ids db.messages
  pub others : db' ≡ record db { messages = db'.messages }

find-named :
    (x : Text) (ms : List Message) (r : Message)
    → find x ms ≡ some r
    → list_eq r.message_id x ≡ true
unfolding find
find-named x [] r h = absurd (ground arith)
find-named x (m ∷ ms) r h = elim (Bool-cases (list_eq m.message_id x)) [
  | inl e ↦ ap (λ (z : Message). list_eq z.message_id x) (sym (head m r (if_true _ _ _ e h))) ∙ e
  | inr e ↦ find-named x ms r (ground arith)
]

module _ (id : Text) (q : Message → Bool) (f : Message → Message)
    (ev : (m : Message) → at_id id q f m ≡ true → Evolves m (f m)) where
  update_where-ids : (ms : List Message) → ids (update_where (at_id id q f) f ms) ≡ ids ms
  unfolding update_where
  update_where-ids [] = refl
  update_where-ids (m ∷ ms) =
      rw ((row_step-Evolves (at_id id q f) f ev m).id, update_where-ids ms) refl

  at_other :
      (x : Text) (o : Option Message)
      → list_eq x id ≡ false
      → ((r : Message) → o ≡ some r → list_eq r.message_id x ≡ true)
      → map_row (row_step (at_id id q f) f) o ≡ o
  at_other x none e h = refl
  at_other x (some r) e h =
      rw (ap (λ t. list_eq t id) (list_eq_sound r.message_id x (h r refl)) ∙ e) refl

  at_self :
      (m : Message)
      → list_eq m.message_id id ≡ true
      → q m ≡ true
      → map_row (row_step (at_id id q f) f) (some m) ≡ some (f m)
  at_self m e h = rw (e, h) refl

  -- An UPDATE of the row that `id` finds.
  pub update_where-Replaces :
      (db : Db) (m : Message)
      → find id db.messages ≡ some m
      → q m ≡ true
      → Replaces m (f m) db (record db { messages = update_where (at_id id q f) f db.messages })
  update_where-Replaces db m h k =
      let same = list_eq_sound m.message_id id (find-named id db.messages m h) in
      record {
        found = λ x. at x same (list_eq x m.message_id) refl;
        rows = update_where-ids db.messages;
        others = refl;
      }
    where
      at :
          (x : Text)
          → m.message_id ≡ id
          → (b : Bool) → list_eq x m.message_id ≡ b
          → find x (update_where (at_id id q f) f db.messages)
            ≡ (if b then some (f m) else find x db.messages)
      at x same true e =
          find-update_where (at_id id q f) f ev x db.messages
          ∙ (ap (λ t. map_row (row_step (at_id id q f) f) (find t db.messages))
                (list_eq_sound x m.message_id e ∙ same)
              ∙ (ap (map_row (row_step (at_id id q f) f)) h
                  ∙ at_self m (find-named id db.messages m h) k))
      at x same false e =
          find-update_where (at_id id q f) f ev x db.messages
          ∙ at_other x (find x db.messages) (ap (list_eq x) (sym same) ∙ e)
              (λ r g. find-named x db.messages r g)
