-- ===== src/Core/Mac/Framing.antt =====
-- The framing of the MAC input loses nothing and mixes nothing up.
use mathlib.Core.Path.{ap₂}
use msgriver.Common.{
  ℕ, ◌<◌, ◌^◌, ◌≡◌, ◌≢◌, refl, sym, ap, ◌∙◌, ◌⊎◌, inl, inr, list_eq, list_eq_refl, list_eq_sound,
  Bool-cases, Bool, true, false, not, List, [], ◌∷◌, ◌++◌, ltb, if◌then◌else◌, length, arith,
  append_cancel_left, append_cancel_right, length-append,
}
use msgriver.Common.Bytes.{be_bytes, length-be_bytes, be_bytes_injective}
use msgriver.Core.Mac.{
  MacPurpose, MacKeyRef, VersionedTag, MacResult, MacProviderError, ok, err, ◌>>=◌, input_too_long,
  framed_parts, behind_length, mac_input, fingerprint_domain, lookup_domain,
  authenticate_idempotency, lookup_digest, same_purpose, same_ref,
}

-- A frame that succeeded, with its last byte string in front.
record Frame (p : List ℕ) (ps : List (List ℕ)) (x : List ℕ) : Type 0 where
  rest : List ℕ
  framed : framed_parts ps ≡ ok rest
  short : length p < 2 ^ 32
  whole : x ≡ be_bytes 4 (length p) ++ (p ++ rest)

ok_injective : {a b : List ℕ} → MacResult.ok a ≡ ok b → a ≡ b
ok_injective {a} h = ap (λ r. elim r [ ok c ↦ c | err e ↦ a ]) h

framed_parts-Frame :
    (p : List ℕ) (ps : List (List ℕ)) (x : List ℕ) → framed_parts (p ∷ ps) ≡ ok x → Frame p ps x
unfolding framed_parts
framed_parts-Frame p ps x h = split (framed_parts ps) refl (ltb (length p) (2 ^ 32)) refl h
  where
    split :
        (later : MacResult (List ℕ))
        → framed_parts ps ≡ later
        → (b : Bool) → ltb (length p) (2 ^ 32) ≡ b
        → (if b then behind_length p later else err input_too_long) ≡ ok x
        → Frame p ps x
    split (ok r) e true s k = record {
      rest = r;
      framed = e;
      short = ground arith;
      whole = sym (ok_injective k);
    }
    split (err z) e true s k = absurd (ground arith)
    split later e false s k = absurd (ground arith)

framed_parts-nil : (x : List ℕ) → framed_parts [] ≡ ok x → length x ≡ 0
unfolding framed_parts
framed_parts-nil x h = ap length (sym (ok_injective h))

Frame-long :
    (p : List ℕ) (ps : List (List ℕ)) (x : List ℕ) → framed_parts (p ∷ ps) ≡ ok x → ¬ (length x ≡ 0)
Frame-long p ps x h e =
    let f = framed_parts-Frame p ps x h in
    let long = length-append (be_bytes 4 (length p)) (p ++ f.rest) in
    let four = length-be_bytes 4 (length p) in let all = ap length f.whole in omega arith

-- The parts are read back from their frame, so that no two lists of parts share one.
pub framed_parts_injective :
    (ps qs : List (List ℕ)) (x : List ℕ) → framed_parts ps ≡ ok x → framed_parts qs ≡ ok x → ps ≡ qs
framed_parts_injective [] [] x h k = refl
framed_parts_injective [] (q ∷ qs) x h k = absurd (Frame-long q qs x k (framed_parts-nil x h))
framed_parts_injective (p ∷ ps) [] x h k = absurd (Frame-long p ps x h (framed_parts-nil x k))
framed_parts_injective (p ∷ ps) (q ∷ qs) x h k =
    let f = framed_parts-Frame p ps x h in
    let g = framed_parts-Frame q qs x k in
    let (word, tail) =
      append_cancel_right (be_bytes 4 (length p)) (be_bytes 4 (length q)) (p ++ f.rest)
        (q ++ g.rest) (length-be_bytes 4 (length p) ∙ sym (length-be_bytes 4 (length q)))
        (sym f.whole ∙ g.whole) in
    let same = be_bytes_injective 4 (length p) (length q) f.short g.short word in
    let (part, rest) = append_cancel_right p q f.rest g.rest same tail in
    ap₂ ◌∷◌ part (framed_parts_injective ps qs f.rest f.framed (g.framed ∙ ap ok (sym rest)))

mac_input-frame :
    (d : List ℕ) (k : MacKeyRef) (ps : List (List ℕ)) (x : List ℕ)
    → mac_input d k ps ≡ ok x
    → (framed : List ℕ) × (framed_parts ps ≡ ok framed) × (x ≡ d ++ (k.key_id.bytes ++ framed))
unfolding mac_input
mac_input-frame d k ps x h = split (framed_parts ps) refl h
  where
    split :
        (r : MacResult (List ℕ))
        → framed_parts ps ≡ r
        → (r >>= λ framed. ok (d ++ (k.key_id.bytes ++ framed))) ≡ ok x
        → (framed : List ℕ) × (framed_parts ps ≡ ok framed) × (x ≡ d ++ (k.key_id.bytes ++ framed))
    split (ok f) e s = (f, e, sym (ok_injective s))
    split (err z) e s = absurd (ground arith)

-- The two domains in use.
pub data Domain : Type 0 where
  fingerprint lookup : Domain

abbrev pub domain_bytes : Domain → List ℕ
domain_bytes fingerprint = fingerprint_domain
domain_bytes lookup = lookup_domain

-- The byte in which the two domains differ first.
abbrev byte_21 : List ℕ → ℕ
byte_21
      (_ ∷ _ ∷ _ ∷ _ ∷ _ ∷ _ ∷ _ ∷ _ ∷ _ ∷ _ ∷ _ ∷ _ ∷ _ ∷ _ ∷ _ ∷ _ ∷ _ ∷ _ ∷ _ ∷ _ ∷ _ ∷ b ∷ _) =
    b
byte_21 _ = 0

same_domain : (a b : Domain) (s t : List ℕ) → domain_bytes a ++ s ≡ domain_bytes b ++ t → a ≡ b
same_domain fingerprint fingerprint s t h = refl
same_domain lookup lookup s t h = refl
same_domain fingerprint lookup s t h = absurd (not_same (ap byte_21 h))
  where
    not_same : Path ℕ b'f' b'l' → ⊥
    not_same e = ground arith
same_domain lookup fingerprint s t h = absurd (not_same (ap byte_21 h))
  where
    not_same : Path ℕ b'l' b'f' → ⊥
    not_same e = ground arith

-- If a MAC is asked over the same bytes twice, with key ids of forty bytes and one of the two
-- domains each time, then the domain, the key id and all parts are the same.
pub mac_input_separates :
    (a b : Domain) (k l : MacKeyRef) (ps qs : List (List ℕ)) (x : List ℕ)
    → length k.key_id.bytes ≡ 40
    → length l.key_id.bytes ≡ 40
    → mac_input (domain_bytes a) k ps ≡ ok x
    → mac_input (domain_bytes b) l qs ≡ ok x
    → (a ≡ b) × (k.key_id.bytes ≡ l.key_id.bytes) × (ps ≡ qs)
mac_input_separates a b k l ps qs x hk hl h g =
    let (f, fe, fx) = mac_input-frame (domain_bytes a) k ps x h in
    let (r, re, rx) = mac_input-frame (domain_bytes b) l qs x g in
    let e = same_domain a b (k.key_id.bytes ++ f) (l.key_id.bytes ++ r) (sym fx ∙ rx) in
    let tails =
      append_cancel_left (domain_bytes a)
        (sym fx ∙ (rx ∙ ap (λ c. domain_bytes c ++ (l.key_id.bytes ++ r)) (sym e))) in
    let (ids, frames) = append_cancel_right k.key_id.bytes l.key_id.bytes f r (hk ∙ sym hl) tails in
    (e, ids, framed_parts_injective ps qs f fe (re ∙ ap ok (sym frames)))

bind_ok :
    {A B : Type 0} (m : MacResult A) (k : A → MacResult B) (b : B)
    → (m >>= k) ≡ ok b
    → (a : A) × (m ≡ ok a) × (k a ≡ ok b)
bind_ok (ok a) k b h = (a, refl, h)
bind_ok (err z) k b h = absurd (ground arith)

else_ok :
    {A : Type 0} (c : Bool) (z : MacProviderError) (r : MacResult A) (a : A)
    → (if c then err z else r) ≡ ok a
    → r ≡ ok a
else_ok false z r a h = h
else_ok true z r a h = absurd (ground arith)

module _ (provider : MacKeyRef → List ℕ → MacResult VersionedTag) where
  answered :
      (key : MacKeyRef) (p : MacPurpose) (d : List ℕ) (parts : List (List ℕ)) (t : VersionedTag)
      → authenticate_idempotency provider key p d parts ≡ ok t
      → (x : List ℕ) × (mac_input d key parts ≡ ok x) × (provider key x ≡ ok t)
  unfolding authenticate_idempotency
  answered key p d parts t h =
      let (x, m, h1) =
        bind_ok (mac_input d key parts) _ t (else_ok (not (same_purpose key.purpose p)) _ _ t h) in
      let (r, a, h2) = bind_ok (provider key x) _ t h1 in
      (x, m, a ∙ else_ok (not (same_ref r.key key)) _ (ok r) t h2)

  -- Two inputs that the provider answers with one tag under one key.
  pub record Collision (k : MacKeyRef) (x y : List ℕ) (t : VersionedTag) : Type 0 where
    pub apart : x ≢ y
    pub left : provider k x ≡ ok t
    pub right : provider k y ≡ ok t

  -- The framed input of a lookup determines what is looked up.
  lookup_input_injective :
      (k : MacKeyRef) (p q i j x : List ℕ)
      → mac_input lookup_domain k (p ∷ i ∷ []) ≡ ok x
      → mac_input lookup_domain k (q ∷ j ∷ []) ≡ ok x
      → (p ≡ q) × (i ≡ j)
  lookup_input_injective k p q i j x h g =
      let (f, fe, fx) = mac_input-frame lookup_domain k (p ∷ i ∷ []) x h in
      let (r, re, rx) = mac_input-frame lookup_domain k (q ∷ j ∷ []) x g in
      let frames =
        append_cancel_left k.key_id.bytes (append_cancel_left lookup_domain (sym fx ∙ rx)) in
      both (framed_parts_injective (p ∷ i ∷ []) (q ∷ j ∷ []) f fe (re ∙ ap ok (sym frames)))
    where
      both : p ∷ i ∷ [] ≡ q ∷ j ∷ [] → (p ≡ q) × (i ≡ j)
      both e = ground arith

  -- If two lookups under one key are answered with the same tag, then they have the same principal
  -- and the same idempotency key, or the inputs that the provider was given for the two are
  -- different and it has answered both with this tag.
  pub lookup_digest-same :
      (k : MacKeyRef) (p q i j : List ℕ) (t : VersionedTag)
      → lookup_digest provider k p i ≡ ok t
      → lookup_digest provider k q j ≡ ok t
      → ((p ≡ q) × (i ≡ j))
        ⊎ ((x : List ℕ) × (y : List ℕ) × (mac_input lookup_domain k (p ∷ i ∷ []) ≡ ok x)
            × (mac_input lookup_domain k (q ∷ j ∷ []) ≡ ok y)
            × Collision k x y t)
  unfolding lookup_digest
  lookup_digest-same k p q i j t h g =
      let (x, mx, ax) = answered k _ lookup_domain (p ∷ i ∷ []) t h in
      let (y, my, ay) = answered k _ lookup_domain (q ∷ j ∷ []) t g in
      elim (Bool-cases (list_eq x y)) [
        | inl e ↦
            inl (lookup_input_injective k p q i j x mx (my ∙ ap ok (sym (list_eq_sound x y e))))
        | inr e ↦ inr (x, y, mx, my, record { apart = differ x y e; left = ax; right = ay })
      ]
    where
      clash : (b : Bool) → b ≡ true → b ≡ false → ⊥
      clash b u v = ground arith

      differ : (x y : List ℕ) → list_eq x y ≡ false → x ≢ y
      differ x y e same = clash (list_eq x y) (ap (list_eq x) (sym same) ∙ list_eq_refl x) e
