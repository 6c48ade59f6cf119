-- ===== src/Common/Bytes.antt =====
-- Byte strings: lists of numbers below 256, big-endian words, and checks of small ranges by value.
use Prim.Native.Nat.{ℕ, zero, suc, ◌+◌, ◌*◌, ◌/◌, ◌%◌, ◌^◌, ◌≤◌, ◌<◌, bit_or}
use mathlib.Core.Path.{◌≡◌, refl, sym, ap, ap₂, ◌∙◌}
use mathlib.Core.Bool.{Bool, true, ◌&&◌}
use mathlib.Core.List.{List, [], ◌∷◌, ◌++◌}
use mathlib.Core.List.{append-nil, append_assoc}
use native.Mathlib.Omega.{arith}
use native.Mathlib.Nat.{pow-suc, mul-le-mul_right}
use msgriver.Common.Bools.{ltb, ◌==◌, ==_iff}
use msgriver.Common.Lists.{length, all, length-append, All, All-append}

abbrev pub IsBytes : List ℕ → Type 0
IsBytes bs = All (λ b. b < 256) bs

pub all-IsBytes : (bs : List ℕ) → all (λ b. ltb b 256) bs ≡ true → IsBytes bs
all-IsBytes [] h = tt
all-IsBytes (b ∷ bs) h = let rest = all-IsBytes bs in (ground arith, rest (ground arith))

-- `to_be_bytes` of a word of `n` bytes.
unfoldable pub be_bytes : ℕ → ℕ → List ℕ
be_bytes zero v = []
be_bytes (suc n) v = be_bytes n (v / 256) ++ (v % 256 ∷ [])

-- `from_be_bytes`, most significant byte first.
from_be_acc : ℕ → List ℕ → ℕ
from_be_acc acc [] = acc
from_be_acc acc (b ∷ bs) = from_be_acc (acc * 256 + b) bs

unfoldable pub from_be_bytes : List ℕ → ℕ
unfolding from_be_acc
from_be_bytes bs = from_be_acc 0 bs

pub length-be_bytes : (n v : ℕ) → length (be_bytes n v) ≡ n
unfolding be_bytes
length-be_bytes zero v = refl
length-be_bytes (suc n) v =
    omega (arith, length-append (be_bytes n (v / 256)) (v % 256 ∷ []), length-be_bytes n (v / 256))

pub be_bytes-IsBytes : (n v : ℕ) → IsBytes (be_bytes n v)
unfolding be_bytes
be_bytes-IsBytes zero v = tt
be_bytes-IsBytes (suc n) v =
    All-append (λ b. b < 256) (be_bytes n (v / 256)) (v % 256 ∷ []) (be_bytes-IsBytes n (v / 256))
      (omega arith, tt)

from_be_acc-append :
    (acc : ℕ) (xs : List ℕ) (b : ℕ) → from_be_acc acc (xs ++ b ∷ []) ≡ from_be_acc acc xs * 256 + b
unfolding from_be_acc
from_be_acc-append acc [] b = refl
from_be_acc-append acc (x ∷ xs) b = from_be_acc-append (acc * 256 + x) xs b

-- A word that fits its width is read back.
pub from_be_bytes-be_bytes : (n v : ℕ) → v < 256 ^ n → from_be_bytes (be_bytes n v) ≡ v
unfolding from_be_bytes be_bytes
from_be_bytes-be_bytes zero v h = omega arith
from_be_bytes-be_bytes (suc n) v h = omega (
  arith,
  pow-suc 256 n,
  from_be_acc-append 0 (be_bytes n (v / 256)) (v % 256),
  from_be_bytes-be_bytes n (v / 256) (omega (arith, pow-suc 256 n)),
)

be_bytes-from_be_acc :
    (n acc : ℕ) (bs : List ℕ)
    → IsBytes bs
    → be_bytes (length bs + n) (from_be_acc acc bs) ≡ be_bytes n acc ++ bs
unfolding be_bytes from_be_acc
be_bytes-from_be_acc n acc [] small =
    let same : 0 + n ≡ n = omega arith in
    ap (λ m. be_bytes m acc) same ∙ sym (append-nil (be_bytes n acc))
be_bytes-from_be_acc n acc (b ∷ bs) small =
    let under : b < 256 = small.0 in
    let high : (acc * 256 + b) / 256 ≡ acc = omega arith in
    let low : (acc * 256 + b) % 256 ≡ b = omega arith in
    let same : suc (length bs) + n ≡ length bs + suc n = omega arith in
    ap (λ m. be_bytes m (from_be_acc (acc * 256 + b) bs)) same
    ∙ (be_bytes-from_be_acc (suc n) (acc * 256 + b) bs small.1
        ∙ (append_assoc (be_bytes n ((acc * 256 + b) / 256)) _ bs
            ∙ ap₂ (λ v c. be_bytes n v ++ (c ∷ bs)) high low))

-- The bytes of a word that was read are the bytes that were read.
pub be_bytes-from_be_bytes :
    (n : ℕ) (bs : List ℕ) → length bs ≡ n → IsBytes bs → be_bytes n (from_be_bytes bs) ≡ bs
unfolding from_be_bytes be_bytes
be_bytes-from_be_bytes n bs h small =
    let width : n ≡ length bs + 0 = omega arith in
    ap (λ m. be_bytes m (from_be_acc 0 bs)) width ∙ be_bytes-from_be_acc 0 0 bs small

from_be_acc_bound :
    (acc : ℕ) (bs : List ℕ) → IsBytes bs → from_be_acc acc bs < suc acc * 256 ^ length bs
unfolding from_be_acc
from_be_acc_bound acc [] small = omega arith
from_be_acc_bound acc (b ∷ bs) small =
    let power : 256 ^ length (b ∷ bs) ≡ 256 ^ length bs * 256 = pow-suc 256 (length bs) in
    let room : suc acc * (256 ^ length bs * 256) ≡ suc acc * 256 * 256 ^ length bs = grind arith in
    let whole = ap (λ p. suc acc * p) power ∙ room in
    let rest : from_be_acc acc (b ∷ bs) < suc (acc * 256 + b) * 256 ^ length bs =
      from_be_acc_bound (acc * 256 + b) bs small.1 in
    let under : suc (acc * 256 + b) ≤ suc acc * 256 = omega (arith, small.0) in
    let scaled = mul-le-mul_right (256 ^ length bs) under in omega arith

pub from_be_bytes_bound :
    (n : ℕ) (bs : List ℕ) → length bs ≡ n → IsBytes bs → from_be_bytes bs < 256 ^ n
unfolding from_be_bytes
from_be_bytes_bound n bs h small =
    let bound = from_be_acc_bound 0 bs small in
    let power : 256 ^ length bs ≡ 256 ^ n = ap (λ m. 256 ^ m) h in omega arith

pub be_bytes_injective :
    (n a b : ℕ) → a < 256 ^ n → b < 256 ^ n → be_bytes n a ≡ be_bytes n b → a ≡ b
be_bytes_injective n a b ha hb e =
    sym (from_be_bytes-be_bytes n a ha) ∙ ap from_be_bytes e ∙ from_be_bytes-be_bytes n b hb

-- Over a small range, a test is checked at every value.
unfoldable pub all_below : ℕ → (ℕ → Bool) → Bool
all_below zero p = true
all_below (suc n) p = p n && all_below n p

pub all_below_sound :
    (p : ℕ → Bool) (bound i : ℕ) → i < bound → all_below bound p ≡ true → p i ≡ true
unfolding all_below
all_below_sound p zero i under every = absurd (omega arith)
all_below_sound p (suc bound) i under every = let rest = all_below_sound p bound i in ground arith

-- `(high << 4) | low` of two nibbles, as a byte.
abbrev pub join_nibbles : ℕ → ℕ → ℕ
join_nibbles high low = bit_or (high * 16 % 256) low

join_table : all_below 256 (λ x. join_nibbles (x / 16) (x % 16) == x) ≡ true
unfolding all_below
join_table = refl

pub join_halves : (x : ℕ) → x < 256 → join_nibbles (x / 16) (x % 16) ≡ x
join_halves x h =
    (==_iff (join_nibbles (x / 16) (x % 16)) x).0 (all_below_sound _ 256 x h join_table)

pub join_exact : (h l : ℕ) → h < 16 → l < 16 → join_nibbles h l ≡ h * 16 + l
join_exact h l hh hl =
    let high : (h * 16 + l) / 16 ≡ h = omega arith in
    let low : (h * 16 + l) % 16 ≡ l = omega arith in
    ap₂ join_nibbles (sym high) (sym low) ∙ join_halves (h * 16 + l) (omega arith)
