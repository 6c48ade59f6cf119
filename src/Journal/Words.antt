-- ===== src/Journal/Words.antt =====
-- The fixed-width parts of the formats: arrays, words, `i64` values, presence bytes and zero
-- digests, as the decoders read them. `e` is the error of the format.
use msgriver.Common.{
  ℕ, ◌-◌, ◌^◌, ◌<◌, ◌≡◌, refl, sym, ap, ◌∙◌, Bool, true, false, List, ltb, ◌==◌, if◌then◌else◌,
  length, arith, all,
}
use msgriver.Common.Int.{ℤ, pos, negsuc, IsI64}
use msgriver.Common.Bytes.{
  IsBytes, be_bytes, from_be_bytes, length-be_bytes, be_bytes-from_be_bytes, from_be_bytes_bound,
  from_be_bytes-be_bytes,
}
use msgriver.Journal.Wire.{Result, ok, err, ◌>>=◌, bind_ok, then_ok, ok_injective}

-- `u8::from(present)`, and how it is read back.
abbrev pub flag_byte : Bool → ℕ
flag_byte true = 1
flag_byte false = 0

abbrev pub read_flag : {E : Type 0} → E → ℕ → Result E Bool
read_flag e tag = if tag == 0 then ok false else if tag == 1 then ok true else err e

-- `try_into` of a slice into an array of `n` bytes.
abbrev pub read_array : {E : Type 0} → E → ℕ → List ℕ → Result E (List ℕ)
read_array e n bytes = if length bytes == n then ok bytes else err e

-- `from_be_bytes` of an unsigned word of `n` bytes.
abbrev pub read_word : {E : Type 0} → E → ℕ → List ℕ → Result E ℕ
read_word e n bytes = read_array e n bytes >>= λ word. ok (from_be_bytes word)

-- The bits of an `i64`, in two's complement.
abbrev pub to_bits : ℤ → ℕ
to_bits (pos n) = n
to_bits (negsuc n) = 2 ^ 64 - 1 - n

abbrev pub of_bits : ℕ → ℤ
of_bits bits = if ltb bits (2 ^ 63) then pos bits else negsuc (2 ^ 64 - 1 - bits)

abbrev pub i64_bytes : ℤ → List ℕ
i64_bytes z = be_bytes 8 (to_bits z)

abbrev pub read_i64 : {E : Type 0} → E → List ℕ → Result E ℤ
read_i64 e bytes = read_array e 8 bytes >>= λ word. ok (of_bits (from_be_bytes word))

-- `bytes.iter().all(|byte| *byte == 0)`.
abbrev pub digest_is_zero : List ℕ → Bool
digest_is_zero bytes = all (λ b. b == 0) bytes

pub read_flag_ok : {E : Type 0} (e : E) (t : ℕ) (b : Bool) → read_flag e t ≡ ok b → t ≡ flag_byte b
read_flag_ok e t true h = ground arith
read_flag_ok e t false h = ground arith

pub read_flag_of : {E : Type 0} (e : E) (b : Bool) → read_flag e (flag_byte b) ≡ ok b
read_flag_of e true = refl
read_flag_of e false = refl

pub read_array_ok :
    {E : Type 0} (e : E) (n : ℕ) (s a : List ℕ) → read_array e n s ≡ ok a → (s ≡ a) × (length a ≡ n)
read_array_ok {E} e n s a h =
    let (wide, k) = then_ok (length s == n) e (ok s) a h in
    let same = ok_injective {E = E} k in
    let width : length s ≡ n = ground arith in (same, ap length (sym same) ∙ width)

pub read_array_of :
    {E : Type 0} (e : E) (n : ℕ) {x s : List ℕ} → x ≡ s → length s ≡ n → read_array e n x ≡ ok s
read_array_of e n {x} {s} same h =
    let whole : read_array e n s ≡ ok s = ground arith in ap (read_array e n) same ∙ whole

pub read_word_ok :
    {E : Type 0} (e : E) (n : ℕ) (s : List ℕ) (v : ℕ)
    → IsBytes s
    → read_word e n s ≡ ok v
    → (s ≡ be_bytes n v) × (v < 256 ^ n)
read_word_ok {E} e n s v small h =
    let (a, array, k) = bind_ok (read_array e n s) _ v h in
    let (same, width) = read_array_ok e n s a array in
    let value : from_be_bytes s ≡ v = ap from_be_bytes same ∙ ok_injective {E = E} k in
    let wide : length s ≡ n = ap length same ∙ width in
    (
      sym (ap (be_bytes n) (sym value) ∙ be_bytes-from_be_bytes n s wide small),
      omega (arith, from_be_bytes_bound n s wide small),
    )

pub read_word_of :
    {E : Type 0} (e : E) (n : ℕ) {x : List ℕ} (v : ℕ)
    → x ≡ be_bytes n v
    → v < 256 ^ n
    → read_word e n x ≡ ok v
read_word_of e n v same h =
    ap (λ r. r >>= λ word. ok (from_be_bytes word)) (read_array_of e n same (length-be_bytes n v))
    ∙ ap ok (from_be_bytes-be_bytes n v h)

of_bits-to_bits : (z : ℤ) → IsI64 z → of_bits (to_bits z) ≡ z
of_bits-to_bits (pos n) h = ground arith
of_bits-to_bits (negsuc n) h = ground arith

to_bits_bound : (z : ℤ) → IsI64 z → to_bits z < 256 ^ 8
to_bits_bound (pos n) h = omega arith
to_bits_bound (negsuc n) h = omega arith

to_bits-of_bits : (n : ℕ) → n < 256 ^ 8 → (to_bits (of_bits n) ≡ n) × IsI64 (of_bits n)
to_bits-of_bits n h = (ground arith, ground arith)

pub read_i64_ok :
    {E : Type 0} (e : E) (s : List ℕ) (z : ℤ)
    → IsBytes s
    → read_i64 e s ≡ ok z
    → (s ≡ i64_bytes z) × IsI64 z
read_i64_ok {E} e s z small h =
    let (a, array, k) = bind_ok (read_array e 8 s) _ z h in
    let (same, width) = read_array_ok e 8 s a array in
    let value : of_bits (from_be_bytes s) ≡ z =
      ap (λ t. of_bits (from_be_bytes t)) same ∙ ok_injective {E = E} k in
    let wide : length s ≡ 8 = ap length same ∙ width in
    let (bits, fits) = to_bits-of_bits (from_be_bytes s) (from_be_bytes_bound 8 s wide small) in
    (
      sym (
          ap (λ y. be_bytes 8 (to_bits y)) (sym value)
          ∙ (ap (be_bytes 8) bits ∙ be_bytes-from_be_bytes 8 s wide small)),
      (rw (sym value) fits),
    )

pub length-i64_bytes : (z : ℤ) → length (i64_bytes z) ≡ 8
length-i64_bytes z = length-be_bytes 8 (to_bits z)

pub read_i64_of :
    {E : Type 0} (e : E) {x : List ℕ} (z : ℤ) → x ≡ i64_bytes z → IsI64 z → read_i64 e x ≡ ok z
read_i64_of e z same h =
    ap (λ r. r >>= λ word. ok (of_bits (from_be_bytes word)))
      (read_array_of e 8 same (length-be_bytes 8 (to_bits z)))
    ∙ ap ok (
        ap of_bits (from_be_bytes-be_bytes 8 (to_bits z) (to_bits_bound z h)) ∙ of_bits-to_bits z h)
