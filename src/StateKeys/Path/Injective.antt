-- ===== src/StateKeys/Path/Injective.antt =====
-- No two keys share a path.
use msgriver.Common.{
  ℕ, ◌+◌, ◌-◌, ◌/◌, ◌%◌, ◌<◌, ◌≡◌, refl, sym, ap, ◌∙◌, true, List, [], ◌∷◌, ltb, ◌==◌,
  if◌then◌else◌, arith,
}
use mathlib.Core.Path.{ap₂}
use msgriver.Common.Bytes.{IsBytes, all_below, all_below_sound}
use msgriver.Core.Mac.{MacPurpose, MacKeyRef, code}
use msgriver.StateKeys.Path.{hex_digit, hex_bytes, state_mac_key_relative_path}

-- The value of a digit.
value_of : ℕ → ℕ
value_of c = if ltb c b'a' then c - b'0' else c - b'a' + 10

value_table : all_below 16 (λ n. value_of (hex_digit n) == n) ≡ true
unfolding all_below value_of
value_table = refl

value_of-hex_digit : (n : ℕ) → n < 16 → value_of (hex_digit n) ≡ n
value_of-hex_digit n h =
    let same = all_below_sound (λ n. value_of (hex_digit n) == n) 16 n h value_table in ground arith

hex_digit_injective : (n m : ℕ) → n < 16 → m < 16 → hex_digit n ≡ hex_digit m → n ≡ m
hex_digit_injective n m h k e =
    sym (value_of-hex_digit n h) ∙ (ap value_of e ∙ value_of-hex_digit m k)

head_same : (x y : ℕ) (xs ys : List ℕ) → x ∷ xs ≡ y ∷ ys → (x ≡ y) × (xs ≡ ys)
head_same x y xs ys e = (cc, cc)

byte_same :
    (a b : ℕ) (x y : List ℕ)
    → a < 256
    → b < 256
    → hex_digit (a / 16) ∷ hex_digit (a % 16) ∷ x ≡ hex_digit (b / 16) ∷ hex_digit (b % 16) ∷ y
    → (a ≡ b) × (x ≡ y)
byte_same a b x y ha hb e =
    let (high, rest) = head_same _ _ _ _ e in
    let (low, tails) = head_same _ _ _ _ rest in
    let top = hex_digit_injective (a / 16) (b / 16) (omega arith) (omega arith) high in
    let bottom = hex_digit_injective (a % 16) (b % 16) (omega arith) (omega arith) low in
    (omega arith, tails)

hex_bytes_injective :
    (xs ys : List ℕ) → IsBytes xs → IsBytes ys → hex_bytes xs ≡ hex_bytes ys → xs ≡ ys
unfolding hex_bytes
hex_bytes_injective [] [] small tiny e = refl
hex_bytes_injective [] (y ∷ ys) small tiny e = absurd (cc)
hex_bytes_injective (x ∷ xs) [] small tiny e = absurd (cc)
hex_bytes_injective (x ∷ xs) (y ∷ ys) small tiny e =
    let (same, rest) = byte_same x y (hex_bytes xs) (hex_bytes ys) small.0 tiny.0 e in
    ap₂ ◌∷◌ same (hex_bytes_injective xs ys small.1 tiny.1 rest)

code_small : (p : MacPurpose) → code p < 256
code_small p = ground arith

code_same : (p q : MacPurpose) → code p ≡ code q → p ≡ q
code_same p q e = ground arith

-- Two references whose key ids are bytes and that have one path are the same.
pub state_mac_key_relative_path_injective :
    (a b : MacKeyRef)
    → IsBytes a.key_id.bytes
    → IsBytes b.key_id.bytes
    → state_mac_key_relative_path a ≡ state_mac_key_relative_path b
    → a ≡ b
unfolding state_mac_key_relative_path
state_mac_key_relative_path_injective a b small tiny e =
    let after_mac =
      (head_same _ _ _ _ (head_same _ _ _ _ (head_same _ _ _ _ (head_same _ _ _ _ e).1).1).1).1 in
    let (codes, ids) =
      byte_same (code a.purpose) (code b.purpose) _ _ (code_small a.purpose) (code_small b.purpose)
        after_mac in
    let after_mk =
      (head_same _ _ _ _ (head_same _ _ _ _ (head_same _ _ _ _ (head_same _ _ _ _ ids).1).1).1).1 in
    let bytes = hex_bytes_injective a.key_id.bytes b.key_id.bytes small tiny after_mk in
    let purposes = code_same a.purpose b.purpose codes in cc
