-- ===== src/Core/Generation/Hex.antt =====
-- The incarnation wire is canonical: encoding and decoding undo one another.
use msgriver.Common.{
  ℕ, ◌-◌, ◌*◌, ◌/◌, ◌%◌, ◌^◌, ◌<◌, ◌≡◌, refl, ap, Bool, true, false, not, Option, none, some, List,
  [], ◌∷◌, ◌++◌, arith, ◌==◌, ==_iff, length, any, length-append, append_cancel_right,
}
use msgriver.Common.Bytes.{
  IsBytes, all_below, all_below_sound, join_nibbles, join_halves, join_exact, be_bytes,
  length-be_bytes, be_bytes_injective,
}
use msgriver.Core.Error.{Result, ok, err}
use msgriver.Core.Generation.{
  ResourceIncarnation, OwnerNamespace, BranchSerial, hex_digits, index, encode_hex,
  encode_incarnation_hex, hex_nibble, decode_pairs, decode_incarnation_hex, is_ascii_uppercase,
  compose_incarnation,
}

-- Facts about one digit, checked at all sixteen nibbles and at all bytes.
abbrev is_some_of : Option ℕ → ℕ → Bool
is_some_of none n = false
is_some_of (some m) n = m == n

digit_table : all_below 16 (λ n. is_some_of (hex_nibble (index hex_digits n)) n) ≡ true
unfolding all_below hex_nibble
digit_table = refl

lower_table : all_below 16 (λ n. not (is_ascii_uppercase (index hex_digits n))) ≡ true
unfolding all_below
lower_table = refl

is_some_of_sound : (o : Option ℕ) (n : ℕ) → is_some_of o n ≡ true → o ≡ some n
is_some_of_sound none n h = cc
is_some_of_sound (some m) n h = ground arith

hex_nibble-digit : (n : ℕ) → n < 16 → hex_nibble (index hex_digits n) ≡ some n
hex_nibble-digit n h = is_some_of_sound _ n (all_below_sound _ 16 n h digit_table)

digit_lower : (n : ℕ) → n < 16 → is_ascii_uppercase (index hex_digits n) ≡ false
digit_lower n h =
    not_true (is_ascii_uppercase (index hex_digits n)) (all_below_sound _ 16 n h lower_table)
  where
    not_true : (b : Bool) → not b ≡ true → b ≡ false
    not_true true e = cc
    not_true false e = refl

abbrev shows : Option ℕ → ℕ → Bool
shows none x = true
shows (some n) x = index hex_digits n == x

shows_sound : (o : Option ℕ) (n x : ℕ) → shows o x ≡ true → o ≡ some n → index hex_digits n ≡ x
shows_sound none n x h e = cc
shows_sound (some m) n x h e =
    let same : n ≡ m = ground arith in rw same ((==_iff (index hex_digits m) x).0 h)

shows_table : all_below 256 (λ x. shows (hex_nibble x) x) ≡ true
unfolding all_below hex_nibble
shows_table = refl

nibble_range : (x n : ℕ) → hex_nibble x ≡ some n → (n < 16) × (x < 256)
unfolding hex_nibble
nibble_range x n h = ground arith

digit-hex_nibble : (x n : ℕ) → hex_nibble x ≡ some n → (n < 16) × (index hex_digits n ≡ x)
digit-hex_nibble x n h =
    let (small, byte) = nibble_range x n h in
    (small, shows_sound (hex_nibble x) n x (all_below_sound _ 256 x byte shows_table) h)

length-encode_hex : (bs : List ℕ) → length (encode_hex bs) ≡ 2 * length bs
unfolding encode_hex
length-encode_hex [] = omega arith
length-encode_hex (b ∷ bs) = omega (arith, length-encode_hex bs)

encode_hex_lower : (bs : List ℕ) → IsBytes bs → any is_ascii_uppercase (encode_hex bs) ≡ false
unfolding encode_hex
encode_hex_lower [] h = refl
encode_hex_lower (b ∷ bs) h =
    rw (digit_lower (b / 16) (omega arith), digit_lower (b % 16) (omega arith))
      (encode_hex_lower bs h.1)

decode_pairs-encode_hex : (bs : List ℕ) → IsBytes bs → decode_pairs (encode_hex bs) ≡ ok bs
unfolding encode_hex decode_pairs
decode_pairs-encode_hex [] h = refl
decode_pairs-encode_hex (b ∷ bs) h = rw (
  hex_nibble-digit (b / 16) (omega arith),
  hex_nibble-digit (b % 16) (omega arith),
  decode_pairs-encode_hex bs h.1,
  join_halves b h.0,
)

-- Every incarnation of 32 bytes is read back from its wire.
pub decode_incarnation_hex-encode :
    (r : ResourceIncarnation)
    → length r.bytes ≡ 32
    → IsBytes r.bytes
    → decode_incarnation_hex (encode_incarnation_hex r) ≡ ok r
unfolding decode_incarnation_hex encode_incarnation_hex
decode_incarnation_hex-encode r l h =
    let width : (length (encode_hex r.bytes) == 64) ≡ true =
      (==_iff (length (encode_hex r.bytes)) 64).1 (omega (arith, length-encode_hex r.bytes)) in
    rw (width, encode_hex_lower r.bytes h, decode_pairs-encode_hex r.bytes h)

nibble_step :
    (x y : ℕ) (rest : List ℕ) (bs : List ℕ)
    → decode_pairs (x ∷ y ∷ rest) ≡ ok bs
    → (h : ℕ) × (l : ℕ) × (tail : List ℕ) × (hex_nibble x ≡ some h)
      × (hex_nibble y ≡ some l)
      × (decode_pairs rest ≡ ok tail)
      × (bs ≡ join_nibbles h l ∷ tail)
unfolding decode_pairs
nibble_step x y rest bs e = split (hex_nibble x) refl (hex_nibble y) refl (decode_pairs rest) refl
  where
    split :
        (p : Option ℕ)
        → hex_nibble x ≡ p
        → (q : Option ℕ) → hex_nibble y ≡ q
        → (t : Result (List ℕ)) → decode_pairs rest ≡ t
        → (h : ℕ) × (l : ℕ) × (tail : List ℕ) × (hex_nibble x ≡ some h)
          × (hex_nibble y ≡ some l)
          × (decode_pairs rest ≡ ok tail)
          × (bs ≡ join_nibbles h l ∷ tail)
    split (some h) px (some l) py (ok tail) pt = (h, l, tail, px, py, pt, ground arith)
    split (some h) px (some l) py (err x) pt = absurd (ground arith)
    split (some h) px none py t pt = absurd (ground arith)
    split none px q py t pt = absurd (ground arith)

encode_hex-decode_pairs :
    (w bs : List ℕ) (k : ℕ)
    → length w ≡ 2 * k
    → decode_pairs w ≡ ok bs
    → (encode_hex bs ≡ w) × IsBytes bs × (length bs ≡ k)
unfolding decode_pairs encode_hex
encode_hex-decode_pairs [] [] k l e = (refl, tt, omega arith)
encode_hex-decode_pairs [] (b ∷ bs) k l e = absurd (ground arith)
encode_hex-decode_pairs (x ∷ []) bs k l e = absurd (omega arith)
encode_hex-decode_pairs (x ∷ y ∷ rest) bs k l e =
    let (h, n, tail, px, py, pt, eq) = nibble_step x y rest bs e in
    let (hs, hx) = digit-hex_nibble x h px in
    let (ns, ny) = digit-hex_nibble y n py in
    let (ih, bytes, len) = encode_hex-decode_pairs rest tail (k - 1) (omega arith) pt in
    let joined = join_exact h n hs ns in
    let high : join_nibbles h n / 16 ≡ h = omega (arith, joined) in
    let low : join_nibbles h n % 16 ≡ n = omega (arith, joined) in
    rw eq (rw (high, low, hx, ny, ih) refl, (omega (arith, joined), bytes), omega arith)

decoded_pairs :
    (w : List ℕ) (r : ResourceIncarnation)
    → decode_incarnation_hex w ≡ ok r
    → (length w ≡ 64) × (decode_pairs w ≡ ok r.bytes)
unfolding decode_incarnation_hex
decoded_pairs w r e = (ground arith, ground arith)

-- Whatever decodes is 32 bytes, and its encoding is the very wire that was decoded: no second
-- spelling of an incarnation is accepted.
pub encode-decode_incarnation_hex :
    (w : List ℕ) (r : ResourceIncarnation)
    → decode_incarnation_hex w ≡ ok r
    → (encode_incarnation_hex r ≡ w) × (length r.bytes ≡ 32) × IsBytes r.bytes
unfolding encode_incarnation_hex
encode-decode_incarnation_hex w r e =
    let (wide, pairs) = decoded_pairs w r e in
    let (same, bytes, len) = encode_hex-decode_pairs w r.bytes 32 wide pairs in (same, len, bytes)

-- An incarnation names its namespace and its serial: two pairs that compose to the same bytes are
-- the same pair, and the bytes are 32.
pub compose_incarnation_injective :
    (n m : OwnerNamespace) (a b : BranchSerial)
    → length n.bytes ≡ 24
    → length m.bytes ≡ 24
    → a.value < 2 ^ 64
    → b.value < 2 ^ 64
    → compose_incarnation n a ≡ compose_incarnation m b
    → (length (compose_incarnation n a).bytes ≡ 32) × (n ≡ m) × (a ≡ b)
unfolding compose_incarnation
compose_incarnation_injective n m a b ln lm ha hb e =
    let whole : n.bytes ++ be_bytes 8 a.value ≡ m.bytes ++ be_bytes 8 b.value =
      ap (λ (r : ResourceIncarnation). r.bytes) e in
    let (same, words) =
      append_cancel_right n.bytes m.bytes (be_bytes 8 a.value) (be_bytes 8 b.value) (omega arith)
        whole in
    let serials = be_bytes_injective 8 a.value b.value ha hb words in
    (
      omega (arith, length-append n.bytes (be_bytes 8 a.value), length-be_bytes 8 a.value),
      λ i. record { bytes = same i },
      λ i. record { value = serials i },
    )
