-- ===== src/Journal/Wire.antt =====
-- What the formats share: results with an error of their own, and the reading of a wire by offsets.
use mathlib.Core.List.{append-nil, append_assoc}
use msgriver.Common.{
  ℕ, zero, suc, not, ◌+◌, ◌-◌, ◌≤◌, ◌<◌, ◌≡◌, refl, sym, ap, ◌∙◌, Bool, true, false, List, [], ◌∷◌,
  ◌++◌, ltb, leb, if◌then◌else◌, length, length-append, append_cancel_right, take, drop, All, arith,
}
use msgriver.Common.Bytes.{IsBytes}

pub data Result (E A : Type 0) : Type 0 where
  ok : A → Result E A
  err : E → Result E A

infixl 5 ◌>>=◌ ◌>>◌
abbrev pub ◌>>=◌ : {E A B : Type 0} → Result E A → (A → Result E B) → Result E B
ok x >>= next = next x
err e >>= next = err e

abbrev pub ◌>>◌ : {E B : Type 0} → Result E (Unit {0}) → Result E B → Result E B
test >> next = test >>= λ _. next

pub bind_ok :
    {E A B : Type 0} (m : Result E A) (k : A → Result E B) (b : B)
    → (m >>= k) ≡ ok b
    → (a : A) × (m ≡ ok a) × (k a ≡ ok b)
bind_ok (ok a) k b h = (a, refl, h)
bind_ok (err z) k b h = absurd (ground arith)

pub bind_of :
    {E A B : Type 0} {m : Result E A} {a : A} {r : Result E B} (k : A → Result E B)
    → m ≡ ok a
    → k a ≡ r
    → (m >>= k) ≡ r
bind_of k e h = ap (λ x. x >>= k) e ∙ h

pub not-false : (b : Bool) → not b ≡ false → b ≡ true
not-false b h = ground arith

pub guard_ok :
    {E B : Type 0} (test : Result E (Unit {0})) (r : Result E B) (b : B)
    → (test >> r) ≡ ok b
    → (test ≡ ok tt) × (r ≡ ok b)
guard_ok (ok tt) r b h = (refl, h)
guard_ok (err z) r b h = absurd (ground arith)

pub guard_of :
    {E B : Type 0} {test : Result E (Unit {0})} {s : Result E B} (r : Result E B)
    → test ≡ ok tt
    → r ≡ s
    → (test >> r) ≡ s
guard_of r e h = ap (λ t. t >> r) e ∙ h

pub else_ok :
    {E A : Type 0} (c : Bool) (z : E) (r : Result E A) (a : A)
    → (if c then err z else r) ≡ ok a
    → (c ≡ false) × (r ≡ ok a)
else_ok false z r a h = (refl, h)
else_ok true z r a h = absurd (ground arith)

pub then_ok :
    {E A : Type 0} (c : Bool) (z : E) (r : Result E A) (a : A)
    → (if c then r else err z) ≡ ok a
    → (c ≡ true) × (r ≡ ok a)
then_ok true z r a h = (refl, h)
then_ok false z r a h = absurd (ground arith)

pub else_of :
    {E A : Type 0} {c : Bool} {s : Result E A} (z : E) (r : Result E A)
    → c ≡ false
    → r ≡ s
    → (if c then err z else r) ≡ s
else_of z r e h = ap (λ b. if b then err z else r) e ∙ h

pub ok_injective : {E A : Type 0} {a b : A} → Path (Result E A) (ok a) (ok b) → a ≡ b
ok_injective {a} h = ap (λ r. elim r [ ok c ↦ c | err e ↦ a ]) h

-- The appends to a buffer, one after another.
abbrev pub join : List (List ℕ) → List ℕ
join [] = []
join (part ∷ parts) = part ++ join parts

-- `wire[lo..hi]`. The decoders test the length before they read, so that the source does not panic
-- there.
unfoldable pub slice : ℕ → ℕ → List ℕ → List ℕ
slice lo hi wire = take (hi - lo) (drop lo wire)

-- `wire[i]`, of a wire that is longer than `i`.
unfoldable pub byte : ℕ → List ℕ → ℕ
byte i wire = elim (drop i wire) [ [] ↦ 0 | x ∷ _ ↦ x ]

take-drop : (n : ℕ) (xs : List ℕ) → take n xs ++ drop n xs ≡ xs
take-drop zero xs = refl
take-drop (suc n) [] = refl
take-drop (suc n) (x ∷ xs) = ap (λ t. x ∷ t) (take-drop n xs)

drop-nil : (n : ℕ) → Path (List ℕ) (drop n []) []
drop-nil zero = refl
drop-nil (suc n) = refl

drop-drop : (m n : ℕ) (xs : List ℕ) → drop m (drop n xs) ≡ drop (n + m) xs
drop-drop m zero xs = let same : m ≡ 0 + m = omega arith in ap (λ k. drop k xs) same
drop-drop m (suc n) [] = drop-nil m ∙ sym (drop-nil (suc n + m))
drop-drop m (suc n) (x ∷ xs) =
    let same : suc (n + m) ≡ suc n + m = omega arith in
    drop-drop m n xs ∙ ap (λ k. drop k (x ∷ xs)) same

pub drop_all : (n : ℕ) (xs : List ℕ) → length xs ≤ n → drop n xs ≡ []
drop_all zero [] h = refl
drop_all zero (x ∷ xs) h = absurd (omega arith)
drop_all (suc n) [] h = refl
drop_all (suc n) (x ∷ xs) h = drop_all n xs (omega arith)

-- Between two offsets stands the slice.
pub drop-slice : (lo hi : ℕ) (w : List ℕ) → lo ≤ hi → drop lo w ≡ slice lo hi w ++ drop hi w
unfolding slice
drop-slice lo hi w h =
    let far : lo + (hi - lo) ≡ hi = omega arith in
    sym (
      ap (λ t. take (hi - lo) (drop lo w) ++ t)
        (ap (λ n. drop n w) (sym far) ∙ sym (drop-drop (hi - lo) lo w))
      ∙ take-drop (hi - lo) (drop lo w))

take-front : (s t : List ℕ) (n : ℕ) → length s ≡ n → take n (s ++ t) ≡ s
take-front [] t zero h = refl
take-front [] t (suc n) h = absurd (omega arith)
take-front (x ∷ s) t zero h = absurd (omega arith)
take-front (x ∷ s) t (suc n) h = ap (λ r. x ∷ r) (take-front s t n (omega arith))

drop-front : (s t : List ℕ) (n : ℕ) → length s ≡ n → drop n (s ++ t) ≡ t
drop-front [] t zero h = refl
drop-front [] t (suc n) h = absurd (omega arith)
drop-front (x ∷ s) t zero h = absurd (omega arith)
drop-front (x ∷ s) t (suc n) h = drop-front s t n (omega arith)

-- A part that stands at an offset is the slice there, and the next one follows it.
pub slice_step :
    (lo hi : ℕ) (w s t : List ℕ)
    → drop lo w ≡ s ++ t
    → lo + length s ≡ hi
    → (slice lo hi w ≡ s) × (drop hi w ≡ t)
unfolding slice
slice_step lo hi w s t e l =
    let width : hi - lo ≡ length s = omega arith in
    (
      ap (take (hi - lo)) e ∙ take-front s t (hi - lo) (sym width),
      ap (λ n. drop n w) (sym l)
          ∙ (sym (drop-drop (length s) lo w)
              ∙ (ap (drop (length s)) e ∙ drop-front s t (length s) refl)),
    )

pub byte_step : (i : ℕ) (w : List ℕ) (x : ℕ) (t : List ℕ) → drop i w ≡ x ∷ t → byte i w ≡ x
unfolding byte
byte_step i w x t e = ap (λ r. elim r [ [] ↦ 0 | y ∷ _ ↦ y ]) e

pub length-drop : (n : ℕ) (xs : List ℕ) → length (drop n xs) ≡ length xs - n
length-drop zero xs = omega arith
length-drop (suc n) [] = omega arith
length-drop (suc n) (x ∷ xs) = length-drop n xs ∙ omega arith

drop-cons : (xs : List ℕ) → 0 < length xs → (x : ℕ) × (t : List ℕ) × (xs ≡ x ∷ t)
drop-cons [] h = absurd (omega arith)
drop-cons (x ∷ t) h = (x, t, refl)

-- One byte stands at each index below the length.
pub drop-byte : (i : ℕ) (w : List ℕ) → i < length w → drop i w ≡ byte i w ∷ drop (suc i) w
drop-byte i w h =
    let (x, t, e) = drop-cons (drop i w) (omega (arith, length-drop i w)) in
    let (one, rest) = slice_step i (suc i) w (x ∷ []) t e (omega arith) in
    e ∙ (ap (λ y. y ∷ t) (sym (byte_step i w x t e)) ∙ ap (λ r. byte i w ∷ r) (sym rest))

All-take : (P : ℕ → Type 0) (n : ℕ) (xs : List ℕ) → All P xs → All P (take n xs)
All-take P zero xs h = tt
All-take P (suc n) [] h = tt
All-take P (suc n) (x ∷ xs) h = (h.0, All-take P n xs h.1)

All-drop : (P : ℕ → Type 0) (n : ℕ) (xs : List ℕ) → All P xs → All P (drop n xs)
All-drop P zero xs h = h
All-drop P (suc n) [] h = tt
All-drop P (suc n) (x ∷ xs) h = All-drop P n xs h.1

pub slice-IsBytes : (lo hi : ℕ) (w : List ℕ) → IsBytes w → IsBytes (slice lo hi w)
unfolding slice
slice-IsBytes lo hi w h = All-take _ (hi - lo) (drop lo w) (All-drop _ lo w h)

length-take : (n : ℕ) (xs : List ℕ) → n ≤ length xs → length (take n xs) ≡ n
length-take zero xs h = refl
length-take (suc n) [] h = absurd (omega arith)
length-take (suc n) (x ∷ xs) h = ap suc (length-take n xs (omega arith))

pub length-slice :
    (lo hi : ℕ) (w : List ℕ) → lo ≤ hi → hi ≤ length w → length (slice lo hi w) ≡ hi - lo
unfolding slice
length-slice lo hi w h k = length-take (hi - lo) (drop lo w) (omega (arith, length-drop lo w))

-- What stands at an offset, as the decoders find it ...
pub at_byte :
    (i : ℕ) (w : List ℕ) {x : ℕ} → i < length w → byte i w ≡ x → drop i w ≡ x ∷ drop (suc i) w
at_byte i w h e = drop-byte i w h ∙ ap (λ x. x ∷ drop (suc i) w) e

pub at_slice :
    (lo hi : ℕ) (w : List ℕ) {s : List ℕ} → lo ≤ hi → slice lo hi w ≡ s → drop lo w ≡ s ++ drop hi w
at_slice lo hi w h e = drop-slice lo hi w h ∙ ap (λ s. s ++ drop hi w) e

-- The comparison of two literal offsets is computed.
pub at_field :
    (lo hi : ℕ) (w : List ℕ) {s : List ℕ}
    → leb lo hi ≡ true
    → slice lo hi w ≡ s
    → drop lo w ≡ s ++ drop hi w
at_field lo hi w h e = at_slice lo hi w (ground arith) e

pub within : (i n : ℕ) (w : List ℕ) → n ≤ length w → ltb i n ≡ true → i < length w
within i n w h k = ground arith

-- ... and what stands there with all that follows it.
pub chain : {a b t : List ℕ} (s : List ℕ) → a ≡ s ++ b → b ≡ t → a ≡ s ++ t
chain s e h = e ∙ ap (λ t. s ++ t) h

pub byte_next :
    (i : ℕ) (w : List ℕ) {x : ℕ} {t : List ℕ}
    → drop i w ≡ x ∷ t
    → (byte i w ≡ x) × (drop (suc i) w ≡ t)
byte_next i w {x} {t} e =
    (byte_step i w x t e, (slice_step i (suc i) w (x ∷ []) t e (omega arith)).1)

-- The widths of the parts of a wire, and its length.
abbrev pub Widths : List (List ℕ) → List ℕ → Type 0
Widths [] [] = Unit
Widths [] (n ∷ ns) = ⊥
Widths (part ∷ parts) [] = ⊥
Widths (part ∷ parts) (n ∷ ns) = (length part ≡ n) × Widths parts ns

abbrev pub sum : List ℕ → ℕ
sum [] = 0
sum (n ∷ ns) = n + sum ns

pub length-join :
    (parts : List (List ℕ)) (ns : List ℕ) → Widths parts ns → length (join parts) ≡ sum ns
length-join [] [] h = refl
length-join [] (n ∷ ns) h = absurd h
length-join (part ∷ parts) [] h = absurd h
length-join (part ∷ parts) (n ∷ ns) h =
    omega (arith, h.0, length-append part (join parts), length-join parts ns h.1)

-- A slice is cut in two at an offset within it.
pub slice_split :
    (lo mid hi : ℕ) (w : List ℕ)
    → lo ≤ mid
    → mid ≤ hi
    → hi ≤ length w
    → slice lo hi w ≡ slice lo mid w ++ slice mid hi w
slice_split lo mid hi w h k l =
    let front = slice lo mid w in
    let back = slice mid hi w in
    let apart = drop-slice lo mid w h ∙ ap (λ t. front ++ t) (drop-slice mid hi w k) in
    let width : length (slice lo hi w) ≡ length (front ++ back) = omega (
      arith,
      length-append front back,
      length-slice lo hi w (omega arith) l,
      length-slice lo mid w h (omega arith),
      length-slice mid hi w k l,
    ) in
    (append_cancel_right (slice lo hi w) (front ++ back) (drop hi w) (drop hi w) width (
      sym (drop-slice lo hi w (omega arith))
      ∙ (apart ∙ sym (append_assoc front back (drop hi w))))).0

-- The slice up to the end is all that is left.
pub slice_end : (lo hi : ℕ) (w : List ℕ) → lo ≤ hi → length w ≡ hi → drop lo w ≡ slice lo hi w
slice_end lo hi w h e =
    drop-slice lo hi w h
    ∙ (ap (λ t. slice lo hi w ++ t) (drop_all hi w (omega arith)) ∙ append-nil (slice lo hi w))

pub slice_last : (lo hi : ℕ) (w s : List ℕ) → drop lo w ≡ s → lo + length s ≡ hi → slice lo hi w ≡ s
slice_last lo hi w s e l = (slice_step lo hi w s [] (e ∙ sym (append-nil s)) l).0

-- Parts in front of the rest of a wire.
abbrev pub weave : List (List ℕ) → List ℕ → List ℕ
weave [] rest = rest
weave (part ∷ parts) rest = part ++ weave parts rest

pub join-weave : (parts : List (List ℕ)) (rest : List ℕ) → join parts ++ rest ≡ weave parts rest
join-weave [] rest = refl
join-weave (part ∷ parts) rest =
    append_assoc part (join parts) rest ∙ ap (λ t. part ++ t) (join-weave parts rest)
