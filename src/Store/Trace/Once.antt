-- ===== src/Store/Trace/Once.antt =====
-- No message whose effect is known or in doubt is handed out again, and a submission that was
-- admitted is answered with its message for good (crates/msgriver-store/src/lib.rs).
use msgriver.Common.{
  ℕ, ◌≡◌, refl, ◌∙◌, sym, ap, inl, inr, ◌≢◌, Bool, true, false, Option, none, some, List, [], ◌∷◌,
  arith, if◌then◌else◌, list_eq, list_eq_refl, list_eq_sound, Bool-cases,
}
use msgriver.Common.Int.{ℤ}
use msgriver.Store.Validation.{Text}
use msgriver.Store.Schema.{ok, Message, Db, Engine, find, is_some}
use msgriver.Store.Queue.{candidate, earlier, is_due, first_of_two, M2Delivery, m2_claim_due}
use msgriver.Store.Queue.Claiming.{m2_claim_due-Claims, candidate-due, some_injective}
use msgriver.Store.Evolution.{is_final}
use msgriver.Store.Trace.{Call, history}
use msgriver.Store.Trace.Kept.{history-find}
use msgriver.Store.Trace.Sound.{is_sound, history-is_sound}

find-behind :
    (m b : Message) (ms : List Message)
    → is_sound (m ∷ ms) ≡ true
    → find b.message_id ms ≡ some b
    → find b.message_id (m ∷ ms) ≡ some b
unfolding find is_sound
find-behind m b ms s h = elim (Bool-cases (list_eq m.message_id b.message_id)) [
  | inl e ↦
      clash
        (ap (λ t. is_some (find t ms)) (list_eq_sound m.message_id b.message_id e) ∙ ap is_some h)
  | inr e ↦ rw e h
]
  where
    clash : is_some (find m.message_id ms) ≡ true → find b.message_id (m ∷ ms) ≡ some b
    clash e = absurd (ground arith)

find-head : (r : Message) (ms : List Message) → find r.message_id (r ∷ ms) ≡ some r
unfolding find
find-head r ms = rw (list_eq_refl r.message_id) refl

same :
    (ms : List Message) {m : Message} (c : Message)
    → some c ≡ some m
    → find c.message_id ms ≡ some c
    → find m.message_id ms ≡ some m
same ms c e h = sym (ap (λ (b : Message). find b.message_id ms) (some_injective e)) ∙ (h ∙ e)

-- In a table with unique ids, the candidate is the row that its id finds.
pub find-candidate :
    (now : ℤ) (ms : List Message) (m : Message)
    → is_sound ms ≡ true
    → candidate now ms ≡ some m
    → find m.message_id ms ≡ some m
unfolding candidate is_sound
find-candidate now [] m s h = absurd (ground arith)
find-candidate now (r ∷ ms) m s h =
    chosen (is_due now r) (candidate now ms) (λ b e. find-candidate now ms b (ground arith) e) h
  where
    chosen :
        (d : Bool) (o : Option Message)
        → ((b : Message) → o ≡ some b → find b.message_id ms ≡ some b)
        → (if d then some (first_of_two r o) else o) ≡ some m
        → find m.message_id (r ∷ ms) ≡ some m
    chosen false o f e = find-behind r m ms s (f m e)
    chosen true none f e = same (r ∷ ms) r e (find-head r ms)
    chosen true (some b) f e = elim (Bool-cases (earlier b r)) [
      | inl q ↦ same (r ∷ ms) (first_of_two r (some b)) e (rw q (find-behind r b ms s (f b refl)))
      | inr q ↦ same (r ∷ ms) (first_of_two r (some b)) e (rw q (find-head r ms))
    ]

-- If the table of messages satisfies the schema's constraints and a message is provider_accepted
-- or ambiguous, then no claim after any sequence of calls, with any failures of the engine, returns
-- a delivery of that message.
pub final-never_claimed :
    (digest : List ℕ → List ℕ) (cs : List (Engine × ℤ × Call)) (e : Engine) (now : ℤ) (x : Text)
    (a : Message) (db db' : Db) (d : M2Delivery)
    → is_sound db.messages ≡ true
    → find x db.messages ≡ some a
    → is_final a.state ≡ true
    → m2_claim_due e now (history digest cs db) ≡ (ok (some d), db')
    → d.message_id ≢ x
final-never_claimed digest cs e now x a db db' d s f fin k same =
    let (b, g, kept) = history-find digest cs x a db f in
    let claim = m2_claim_due-Claims e now (history digest cs db) db' d k in
    let found =
      find-candidate now (history digest cs db).messages claim.row (history-is_sound digest cs db s)
        claim.found in
    not_both b (ap (λ (m : Message). is_final m.state) (kept.final fin) ∙ fin) (
      ap (is_due now) (
        some_injective (
          sym g
          ∙ (ap (λ t. find t (history digest cs db).messages)
                (sym same ∙ ap (λ (v : M2Delivery). v.message_id) claim.delivery)
              ∙ found)))
      ∙ candidate-due now (history digest cs db).messages claim.row claim.found)
  where
    not_both : (b : Message) → is_final b.state ≡ true → is_due now b ≡ true → ⊥
    not_both b p q = ground arith
