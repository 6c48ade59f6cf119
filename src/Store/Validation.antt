-- ===== src/Store/Validation.antt =====
-- The tests that guard the store's operations (crates/msgriver-store/src/lib.rs). A text is the list
-- of its UTF-8 bytes, so `len` and `bytes` are those of the list, and a test for an ASCII character
-- is a test for its byte.
use msgriver.Common.{
  ℕ, suc, Bool, true, false, ◌&&◌, ◌||◌, not, Option, none, some, List, [], ◌∷◌, leb, ltb, ◌==◌,
  if◌then◌else◌, in_range, length, all, any, list_eq,
}

abbrev pub Text : Type 0
Text = List ℕ

abbrev pub is_ascii_digit : ℕ → Bool
is_ascii_digit b = in_range b'0' b'9' b

abbrev pub is_ascii_alphanumeric : ℕ → Bool
is_ascii_alphanumeric b = is_ascii_digit b || (in_range b'A' b'Z' b || in_range b'a' b'z' b)

abbrev pub is_empty : Text → Bool
is_empty [] = true
is_empty (b ∷ bs) = false

unfoldable pub valid_text : Text → ℕ → Bool
valid_text value maximum =
    not (is_empty value) && (leb (length value) maximum && not (any (λ b. b == 0) value))

unfoldable pub valid_idempotency_key : Text → Bool
unfolding valid_text
valid_idempotency_key value =
    valid_text value 128
    && all (λ b. is_ascii_alphanumeric b || (b == b'-' || (b == b'_' || b == b'.'))) value

unfoldable pub valid_message_id : Text → Bool
valid_message_id value =
    length value == 64 && all (λ b. is_ascii_digit b || in_range b'a' b'f' b) value

unfoldable pub valid_topic : Text → Bool
unfolding valid_text
valid_topic value =
    valid_text value 64 && all (λ b. is_ascii_alphanumeric b || (b == b'-' || b == b'_')) value

unfoldable pub valid_phone_sender : Text → Bool
valid_phone_sender value = in_range 7 20 (length value) && all is_ascii_digit value

abbrev pub is_none_or : (Text → Bool) → Option Text → Bool
is_none_or p none = true
is_none_or p (some t) = p t

-- `valid_text(title, 256)`, and neither carriage return nor line feed.
unfoldable pub valid_title : Text → Bool
unfolding valid_text
valid_title title = valid_text title 256 && not (any (λ b. b == 13 || b == 10) title)

abbrev pub unwrap_or : Option Text → Text → Text
unwrap_or none d = d
unwrap_or (some t) d = t

abbrev pub opt_eq : Option Text → Option Text → Bool
opt_eq none none = true
opt_eq none (some b) = false
opt_eq (some a) none = false
opt_eq (some a) (some b) = list_eq a b

-- SQLite's `length`: the characters of a text before its first NUL. A byte from 128 to 191
-- continues a character.
abbrev pub char_length : Text → ℕ
char_length [] = 0
char_length (b ∷ bs) =
    if b == 0 then 0 else if in_range 128 191 b then char_length bs else suc (char_length bs)

-- The order of texts by their bytes, as `ORDER BY` has it.
abbrev pub text_lt : Text → Text → Bool
text_lt [] [] = false
text_lt [] (y ∷ ys) = true
text_lt (x ∷ xs) [] = false
text_lt (x ∷ xs) (y ∷ ys) = ltb x y || (x == y && text_lt xs ys)
