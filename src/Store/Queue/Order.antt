-- ===== src/Store/Queue/Order.antt =====
-- The order in which messages are claimed: `ORDER BY created_at_unix_ms, message_id` of
-- `m2_claim_due` (crates/msgriver-store/src/lib.rs).
use msgriver.Common.{
  ◌≡◌, refl, ◌∙◌, ap, inl, inr, Bool, true, false, ◌&&◌, not, Option, none, some, List, [], ◌∷◌,
  arith, all, Bool-cases,
}
use msgriver.Common.Int.{ℤ}
use msgriver.Store.Validation.{Text, text_lt}
use msgriver.Store.Schema.{Message}
use msgriver.Store.Queue.{candidate, earlier, is_due, first_of_two}

-- Not later, one after the other.
pub text_lt-through :
    (a b c : Text) → text_lt a b ≡ false → text_lt b c ≡ false → text_lt a c ≡ false
text_lt-through [] [] [] h k = refl
text_lt-through [] [] (z ∷ zs) h k = k
text_lt-through [] (y ∷ ys) c h k = absurd (ground arith)
text_lt-through (x ∷ xs) b [] h k = refl
text_lt-through (x ∷ xs) [] (z ∷ zs) h k = absurd (ground arith)
text_lt-through (x ∷ xs) (y ∷ ys) (z ∷ zs) h k = let rest = text_lt-through xs ys zs in ground arith

pub text_lt-asym : (a b : Text) → text_lt a b ≡ true → text_lt b a ≡ false
text_lt-asym [] [] h = refl
text_lt-asym [] (y ∷ ys) h = refl
text_lt-asym (x ∷ xs) [] h = absurd (ground arith)
text_lt-asym (x ∷ xs) (y ∷ ys) h = let rest = text_lt-asym xs ys in ground arith

pub earlier-through :
    (a b c : Message) → earlier a b ≡ false → earlier b c ≡ false → earlier a c ≡ false
earlier-through a b c h k =
    let t = text_lt-through a.message_id b.message_id c.message_id in ground arith

pub earlier-asym : (a b : Message) → earlier a b ≡ true → earlier b a ≡ false
earlier-asym a b h = let t = text_lt-asym a.message_id b.message_id in ground arith

-- No row that is due precedes the candidate.
abbrev pub is_first : ℤ → Message → List Message → Bool
is_first now m = all (λ r. not (is_due now r && earlier r m))

keep :
    (d x y r s : Bool)
    → (y ≡ false → x ≡ false)
    → (s ≡ true → r ≡ true)
    → (not (d && y) && s) ≡ true
    → (not (d && x) && r) ≡ true
keep d x y r s f g h = ground arith

is_first-through :
    (now : ℤ) (a b : Message) (ms : List Message)
    → earlier b a ≡ false
    → is_first now b ms ≡ true
    → is_first now a ms ≡ true
is_first-through now a b [] h k = refl
is_first-through now a b (m ∷ ms) h k =
    keep (is_due now m) (earlier m a) (earlier m b) _ _ (λ e. earlier-through m b a e h)
      (is_first-through now a b ms h) k

earlier_irrefl : (a : Message) → earlier a a ≡ false
earlier_irrefl a = elim (Bool-cases (earlier a a)) [ inl e ↦ earlier-asym a a e | inr e ↦ e ]

head_first :
    (now : ℤ) (m : Message) (a : Message) (ms : List Message)
    → earlier m a ≡ false
    → is_first now a ms ≡ true
    → is_first now a (m ∷ ms) ≡ true
head_first now m a ms h k = ground arith

-- What `SELECT … ORDER BY … LIMIT 1` promises: nothing is due, or a row that is due and that no
-- row that is due precedes.
abbrev pub is_answer : ℤ → List Message → Option Message → Bool
is_answer now ms none = all (λ r. not (is_due now r)) ms
is_answer now ms (some a) = is_due now a && is_first now a ms

none_first :
    (now : ℤ) (a : Message) (ms : List Message)
    → all (λ r. not (is_due now r)) ms ≡ true
    → is_first now a ms ≡ true
none_first now a [] h = refl
none_first now a (m ∷ ms) h = let rest = none_first now a ms in ground arith

-- The row chosen from a row that is due and the answer for those behind it.
first_of_two-is_answer :
    (now : ℤ) (m : Message) (ms : List Message) (o : Option Message)
    → is_due now m ≡ true
    → is_answer now ms o ≡ true
    → is_answer now (m ∷ ms) (some (first_of_two m o)) ≡ true
first_of_two-is_answer now m ms none d h = rw (d, earlier_irrefl m) (none_first now m ms h)
first_of_two-is_answer now m ms (some b) d h = elim (Bool-cases (earlier b m)) [
  | inl e ↦ chosen b (rw e refl) (rw (earlier-asym b m e, d) h)
  | inr e ↦
      chosen m (rw e refl)
        (rw (d, earlier_irrefl m) (is_first-through now m b ms e (snd_true _ _ h)))
]
  where
    snd_true : (x y : Bool) → (x && y) ≡ true → y ≡ true
    snd_true x y h = ground arith

    chosen :
        (c : Message)
        → first_of_two m (some b) ≡ c
        → is_answer now (m ∷ ms) (some c) ≡ true
        → is_answer now (m ∷ ms) (some (first_of_two m (some b))) ≡ true
    chosen c e k = ap (λ (a : Message). is_answer now (m ∷ ms) (some a)) e ∙ k

not_due-is_answer :
    (now : ℤ) (m : Message) (ms : List Message) (o : Option Message)
    → is_due now m ≡ false
    → is_answer now ms o ≡ true
    → is_answer now (m ∷ ms) o ≡ true
not_due-is_answer now m ms none d h = rw d h
not_due-is_answer now m ms (some b) d h = rw d h

-- The row that `m2_claim_due` selects is due and no row of the table that is due precedes it by
-- creation time and then by id; where it selects none, no row of the table is due.
pub candidate-is_answer : (now : ℤ) (ms : List Message) → is_answer now ms (candidate now ms) ≡ true
unfolding candidate
candidate-is_answer now [] = refl
candidate-is_answer now (m ∷ ms) = elim (Bool-cases (is_due now m)) [
  | inl d ↦ rw d (first_of_two-is_answer now m ms (candidate now ms) d (candidate-is_answer now ms))
  | inr d ↦ rw d (not_due-is_answer now m ms (candidate now ms) d (candidate-is_answer now ms))
]
