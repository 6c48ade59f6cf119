-- ===== src/Store/Trace/Unique.antt =====
-- An UPDATE of the row with a given id changes just that row, and succeeds where its new form
-- passes the CHECKs (the statements of crates/msgriver-store/src/lib.rs).
use msgriver.Common.{
  ◌≤◌, suc, ℕ, ◌≡◌, refl, ◌∙◌, sym, ap, inl, inr, Bool, true, false, ◌&&◌, ◌||◌, not, Option, none,
  some, List, [], ◌∷◌, arith, if◌then◌else◌, list_eq, list_eq_sound, Bool-cases, all,
}
use msgriver.Store.Validation.{Text}
use msgriver.Store.Schema.{Message, find, count_where, update_where, row_checks, is_some}
use msgriver.Store.Trace.Sound.{is_sound}

pub head : (r m : Message) → some r ≡ some m → r ≡ m
head r m h = ground arith

pub if_true :
    (b : Bool) (x y : Option Message) {z : Option Message}
    → b ≡ true
    → (if b then x else y) ≡ z
    → x ≡ z
if_true true x y e h = h
if_true false x y e h = absurd (ground arith)

module _ (id : Text) (q : Message → Bool) (f : Message → Message) where
  abbrev pub at_id : Message → Bool
  at_id r = list_eq r.message_id id && q r

  abbrev pub checked : Message → Bool
  checked r = not (at_id r) || row_checks (f r)

  -- The UPDATE is about one row, and the schema takes its new form.
  abbrev pub IsSingle : List Message → Type 0
  IsSingle ms = (count_where at_id ms ≡ 1) × (all checked ms ≡ true)

  nowhere :
      (ms : List Message) → find id ms ≡ none → (count_where at_id ms ≡ 0) × (all checked ms ≡ true)
  unfolding find count_where
  nowhere [] h = (refl, refl)
  nowhere (m ∷ ms) h = elim (Bool-cases (list_eq m.message_id id)) [
    | inl e ↦ absurd (ground arith)
    | inr e ↦ let (a, b) = nowhere ms (ground arith) in rw (e, a, b) (refl, refl)
  ]

  absent : (o : Option Message) → is_some o ≡ false → o ≡ none
  absent none h = refl
  absent (some m) h = absurd (ground arith)

  gone :
      (r : Message) (ms : List Message)
      → list_eq r.message_id id ≡ true
      → is_some (find r.message_id ms) ≡ false
      → is_some (find id ms) ≡ false
  gone r ms e h = sym (ap (λ t. is_some (find t ms)) (list_eq_sound r.message_id id e)) ∙ h

  pub unique :
      (ms : List Message) (m : Message)
      → is_sound ms ≡ true
      → find id ms ≡ some m
      → q m ≡ true
      → row_checks (f m) ≡ true
      → IsSingle ms
  unfolding find count_where is_sound
  unique [] m s h qm c = absurd (ground arith)
  unique (r ∷ ms) m s h qm c = elim (Bool-cases (list_eq r.message_id id)) [
    | inl e ↦
        let rm = head r m (if_true _ _ _ e h) in
        let (a, b) = nowhere ms (absent (find id ms) (gone r ms e (ground arith))) in
        rw (e, ap q rm ∙ qm, ap (λ x. row_checks (f x)) rm ∙ c, a, b) (refl, refl)
    | inr e ↦
        let (a, b) = unique ms m (ground arith) (ground arith) qm c in rw (e, a, b) (refl, refl)
  ]

  pub at_most_one : (ms : List Message) → is_sound ms ≡ true → count_where at_id ms ≤ 1
  unfolding count_where is_sound
  at_most_one [] s = omega arith
  at_most_one (r ∷ ms) s = elim (Bool-cases (list_eq r.message_id id)) [
    | inl e ↦
        let (a, b) = nowhere ms (absent (find id ms) (gone r ms e (ground arith))) in
        few (at_id r) (count_where at_id ms) a
    | inr e ↦ rw e (at_most_one ms (ground arith))
  ]
    where
      few : (b : Bool) (n : ℕ) → n ≡ 0 → (if b then suc n else n) ≤ 1
      few true n h = omega arith
      few false n h = omega arith

-- An UPDATE about no row changes nothing.
pub none_changed :
    (p : Message → Bool) (f : Message → Message) (ms : List Message)
    → count_where p ms ≡ 0
    → update_where p f ms ≡ ms
unfolding count_where update_where
none_changed p f [] h = refl
none_changed p f (m ∷ ms) h = elim (Bool-cases (p m)) [
  | inl e ↦ absurd (ground arith)
  | inr e ↦ rw (e, none_changed p f ms (ground arith)) refl
]
