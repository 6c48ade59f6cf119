-- ===== src/Store/Trace/Counted.antt =====
-- The count of attempts along any history (crates/msgriver-store/src/lib.rs).
use msgriver.Common.{
  ℕ, ◌+◌, ◌≤◌, ◌≡◌, refl, ◌∙◌, sym, ap, ◌⊎◌, inl, inr, Option, none, some, List, [], ◌∷◌, arith,
  length, list_eq, Bool-cases,
}
use mathlib.Core.Path.{subst}
use msgriver.Common.Int.{ℤ}
use msgriver.Store.Validation.{Text}
use msgriver.Store.Schema.{Message, Db, Engine, queued, find}
use msgriver.Store.Evolution.{
  Evolves, Effect, unchanged, added, changed, find-update_where, row_step, map_row,
  row_step-Evolves, Evolves-refl,
}
use msgriver.Store.Trace.{Call, apply, history, apply-Effect}

-- A row that is not queued has been tried.
abbrev pub IsTried : Message → Type 0
IsTried m = (m.state ≡ queued) ⊎ (1 ≤ m.attempts)

-- The attempts of a row, if there is one.
abbrev pub attempts_of : Option Message → ℕ
attempts_of none = 0
attempts_of (some m) = m.attempts

-- Where a row that is there after a call comes from.
data Origin (b : Message) : Option Message → Type 0 where
  kept : (a : Message) (o : Option Message) → o ≡ some a → Evolves a b → Origin b o
  admitted : (o : Option Message) → b.state ≡ queued → b.attempts ≡ 0 → Origin b o

mapped-Origin :
    (g : Message → Message) (b : Message)
    → ((m : Message) → Evolves m (g m))
    → (o : Option Message) → map_row g o ≡ some b
    → Origin b o
mapped-Origin g b ev none h = absurd (ground arith)
mapped-Origin g b ev (some a) h =
    kept a (some a) refl (subst (Evolves a) (injective (g a) b h) (ev a))
  where
    injective : (x y : Message) → some x ≡ some y → x ≡ y
    injective x y e = ground arith

added-Origin :
    (x : Text) (b m : Message) (ms : List Message)
    → m.state ≡ queued
    → m.attempts ≡ 0
    → find x (m ∷ ms) ≡ some b
    → Origin b (find x ms)
unfolding find
added-Origin x b m ms st att h = elim (Bool-cases (list_eq m.message_id x)) [
  | inl e ↦ admitted (find x ms) (ground arith) (ground arith)
  | inr e ↦ kept b (find x ms) (ground arith) (Evolves-refl b)
]

Effect-Origin :
    (x : Text) (b : Message) {before after : List Message}
    → Effect before after
    → find x after ≡ some b
    → Origin b (find x before)
Effect-Origin x b {before} (unchanged e) h =
    kept b (find x before) (ap (find x) (sym e) ∙ h) (Evolves-refl b)
Effect-Origin x b {before} (added m checks st att fresh key e) h =
    added-Origin x b m before st att (ap (find x) (sym e) ∙ h)
Effect-Origin x b {before} (changed p f ev checks e) h =
    mapped-Origin (row_step p f) b (row_step-Evolves p f ev) (find x before)
      (sym (find-update_where p f ev x before) ∙ (ap (find x) (sym e) ∙ h))

rise : (a b : Message) → Evolves a b → IsTried a → IsTried b × (b.attempts ≤ a.attempts + 1)
rise a b ev (inl q) = let s = ev.state in let n = ev.counted in ground arith
rise a b ev (inr k) =
    let le = ev.attempts in let n = ev.counted in (inr (omega arith), ground arith)

-- One call: a row is tried if the row before was, and has at most one attempt more.
Origin-IsTried :
    (b : Message) (o : Option Message)
    → Origin b o
    → ((a : Message) → o ≡ some a → IsTried a)
    → IsTried b × (b.attempts ≤ attempts_of o + 1)
Origin-IsTried b o (kept a _ e ev) h = let (t, n) = rise a b ev (h a e) in (t, rw e n)
Origin-IsTried b o (admitted _ st att) h = (inl st, omega arith)

module _ (digest : List ℕ → List ℕ) where
  apply-IsTried :
      (e : Engine) (now : ℤ) (c : Call) (db : Db) (x : Text) (b : Message)
      → ((y : Text) (a : Message) → find y db.messages ≡ some a → IsTried a)
      → find x (apply digest e now c db).messages ≡ some b
      → IsTried b × (b.attempts ≤ attempts_of (find x db.messages) + 1)
  apply-IsTried e now c db x b h f =
      Origin-IsTried b (find x db.messages) (Effect-Origin x b (apply-Effect digest e now c db) f)
        (h x)

  apply-attempts :
      (e : Engine) (now : ℤ) (c : Call) (db : Db) (x : Text) (o : Option Message)
      → ((y : Text) (a : Message) → find y db.messages ≡ some a → IsTried a)
      → find x (apply digest e now c db).messages ≡ o
      → attempts_of o ≤ attempts_of (find x db.messages) + 1
  apply-attempts e now c db x none h f = omega arith
  apply-attempts e now c db x (some b) h f = (apply-IsTried e now c db x b h f).1

  -- If every message of the table that is not queued has been attempted, then after any sequence of
  -- calls, with any failures of the engine, so has every message that is not queued; and a message
  -- has at most as many attempts as there were calls, beyond those it had before, or beyond none if
  -- it was not there.
  pub history-attempts :
      (cs : List (Engine × ℤ × Call)) (db : Db) (x : Text) (b : Message)
      → ((y : Text) (a : Message) → find y db.messages ≡ some a → IsTried a)
      → find x (history digest cs db).messages ≡ some b
      → IsTried b × (b.attempts ≤ attempts_of (find x db.messages) + length cs)
  unfolding history
  history-attempts [] db x b h f = (h x b f, rw f (omega arith))
  history-attempts ((e, now, c) ∷ cs) db x b h f =
      let after = apply digest e now c db in
      let (t, n) =
        history-attempts cs after x b (λ y a g. (apply-IsTried e now c db y a h g).0) f in
      let k = apply-attempts e now c db x (find x after.messages) h refl in (t, omega arith)
