-- ===== src/Core/Retry/Delay.antt =====
-- The retry delay against a reference without clamp, break or wrap-around.
use Prim.Native.Nat.add
use msgriver.Common.{
  ℕ, zero, suc, ◌+◌, ◌-◌, ◌*◌, ◌/◌, ◌%◌, ◌^◌, ◌≤◌, ◌<◌, ◌≡◌, refl, ◌⊎◌, inl, inr, true, false,
  arith, leb, min, max, Bool-cases,
}
use msgriver.Core.Error.{ok, err, reject, retry_delay_input_invalid}
use msgriver.Core.Retry.{
  RetryDelayInput, retry_delay_input_is_valid, exponential_loop, jittered_delay, retry_delay,
  eligible, retry_admission, unwrap_or,
}

-- One round of growth, exact.
abbrev grow : ℕ → ℕ → ℕ
grow factor x = x * factor / 1000

-- Growth for a number of rounds, with no bound.
unfoldable pub grown : ℕ → ℕ → ℕ → ℕ
grown zero factor x = x
grown (suc n) factor x = grown n factor (grow factor x)

mul_mono : (x y f : ℕ) → x ≤ y → x * f ≤ y * f
mul_mono x y f h = grind arith

grow_mono : (f x y : ℕ) → x ≤ y → grow f x ≤ grow f y
grow_mono f x y h = omega (arith, mul_mono x y f h)

thousand_le : (f x : ℕ) → 1000 ≤ f → x * 1000 ≤ x * f
thousand_le f x h = grind arith

le-grow : (f x : ℕ) → 1000 ≤ f → x ≤ grow f x
le-grow f x h = omega (arith, thousand_le f x h)

grown_mono : (n f x y : ℕ) → x ≤ y → grown n f x ≤ grown n f y
unfolding grown
grown_mono zero f x y h = h
grown_mono (suc n) f x y h = grown_mono n f (grow f x) (grow f y) (grow_mono f x y h)

le-grown : (n f x : ℕ) → 1000 ≤ f → x ≤ grown n f x
unfolding grown
le-grown zero f x h = omega arith
le-grown (suc n) f x h = omega (arith, le-grow f x h, le-grown n f (grow f x) h)

-- Clamping before a round changes nothing of the clamped result.
min-grow : (f c x : ℕ) → 1000 ≤ f → min (grow f (min x c)) c ≡ min (grow f x) c
min-grow f c x h = elim (Bool-cases (leb x c)) [
  | inl e ↦ ground arith
  | inr e ↦ ground (arith, le-grow f c h, grow_mono f c x)
]

small_product : (x f : ℕ) → x ≤ 3600000 → f ≤ 16000 → x * f ≤ 57600000000
small_product x f hx hf = omega (arith, mul_mono x 3600000 f hx)

clamped_round :
    (f c x : ℕ)
    → 1000 ≤ f
    → f ≤ 16000
    → c ≤ 3600000
    → min (min x c * f % 2 ^ 64 / 1000) c ≡ min (grow f x) c
clamped_round f c x hf hg hc =
    let fits = small_product (min x c) f (omega arith) hg in
    let exact : min x c * f % 2 ^ 64 ≡ min x c * f = omega (arith, fits) in
    rw exact (min-grow f c x hf)

-- The loop with its clamp, its early exit and its machine arithmetic computes unbounded growth,
-- clamped once at the end.
exponential_loop-grown :
    (n f c x : ℕ)
    → 1000 ≤ f
    → f ≤ 16000
    → c ≤ 3600000
    → exponential_loop n f c (min x c) ≡ min (grown n f x) c
unfolding exponential_loop grown
exponential_loop-grown zero f c x hf hg hc = refl
exponential_loop-grown (suc n) f c x hf hg hc =
    let ih = exponential_loop-grown n f c (grow f x) hf hg hc in
    rw (clamped_round f c x hf hg hc) (ground (arith, ih, le-grown n f (grow f x) hf))

-- The reference delay: growth, jitter, clamp to at least one and at most the cap, provider's wish.
abbrev pub reference_delay : RetryDelayInput → ℕ
reference_delay i =
    max
      (max
        (min
          (min (grown (i.completed_attempt_ordinal - 1) i.factor_milli i.base_delay_ms)
              i.max_delay_ms
            * i.multiplier_milli
            / 1000)
          i.max_delay_ms)
        1)
      (unwrap_or i.validated_retry_after_ms 0)

jittered_exact :
    (e m c : ℕ)
    → e ≤ 3600000
    → m ≤ 1500
    → c ≤ 3600000
    → jittered_delay e m c ≡ max (min (e * m / 1000) c) 1
unfolding jittered_delay
jittered_exact e m c he hm hc = omega (arith, small_product e m he (omega arith))

-- What a valid input guarantees.
pub record Bounds (i : RetryDelayInput) : Type 0 where
  pub base_low : 1000 ≤ i.base_delay_ms
  pub base_cap : i.base_delay_ms ≤ i.max_delay_ms
  pub cap : i.max_delay_ms ≤ 3600000
  pub factor_low : 1001 ≤ i.factor_milli
  pub factor_high : i.factor_milli ≤ 16000
  pub ordinal_low : 1 ≤ i.completed_attempt_ordinal
  pub ordinal_high : i.completed_attempt_ordinal ≤ 1023
  pub multiplier_low : 500 ≤ i.multiplier_milli
  pub multiplier_high : i.multiplier_milli ≤ 1500
  pub after : unwrap_or i.validated_retry_after_ms 0 ≤ 3600000

valid-Bounds : (i : RetryDelayInput) → retry_delay_input_is_valid i ≡ true → Bounds i
unfolding retry_delay_input_is_valid
valid-Bounds i v = ground arith

valid_delay :
    (i : RetryDelayInput)
    → retry_delay_input_is_valid i ≡ true
    → retry_delay i ≡ ok (reference_delay i)
unfolding retry_delay
valid_delay i v =
    let b = valid-Bounds i v in
    rw (
      v,
      exponential_loop-grown (i.completed_attempt_ordinal - 1) i.factor_milli i.max_delay_ms
          i.base_delay_ms (omega arith) b.factor_high b.cap,
      jittered_exact
          (min (grown (i.completed_attempt_ordinal - 1) i.factor_milli i.base_delay_ms)
            i.max_delay_ms)
          i.multiplier_milli i.max_delay_ms (omega arith) b.multiplier_high b.cap,
    )

-- The loop, its clamp, its early exit and its machine arithmetic yield for every valid input the
-- reference delay, which grows unbounded and exactly and is clamped once; any other input is
-- rejected as invalid.
pub retry_delay-reference :
    (i : RetryDelayInput)
    → ((retry_delay_input_is_valid i ≡ true) × (retry_delay i ≡ ok (reference_delay i)))
      ⊎ ((retry_delay_input_is_valid i ≡ false)
          × (retry_delay i ≡ err (reject retry_delay_input_invalid)))
unfolding retry_delay
retry_delay-reference i = elim (Bool-cases (retry_delay_input_is_valid i)) [
  | inl v ↦ inl (v, valid_delay i v)
  | inr v ↦ inr (v, rw v)
]

ok_valid :
    (i : RetryDelayInput) (d : ℕ) → retry_delay i ≡ ok d → retry_delay_input_is_valid i ≡ true
unfolding retry_delay
ok_valid i d h = elim (Bool-cases (retry_delay_input_is_valid i)) [
  | inl v ↦ v
  | inr v ↦ ground arith
]

-- A delay lies between one millisecond and one hour, and is never below the provider's own wish.
pub retry_delay_bounds :
    (i : RetryDelayInput) (d : ℕ)
    → retry_delay i ≡ ok d
    → (1 ≤ d) × (d ≤ 3600000) × (unwrap_or i.validated_retry_after_ms 0 ≤ d)
retry_delay_bounds i d h =
    let v = ok_valid i d h in
    let b = valid-Bounds i v in
    let e : d ≡ reference_delay i = cc (valid_delay i v) in
    (omega (arith, e), omega (arith, e), omega (arith, e))

grown-suc : (n f x : ℕ) → 1000 ≤ f → grown n f x ≤ grown (suc n) f x
unfolding grown
grown-suc n f x h = grown_mono n f x (grow f x) (le-grow f x h)

grown_longer : (k n f x : ℕ) → 1000 ≤ f → grown n f x ≤ grown (k + n) f x
grown_longer zero n f x h = rw add.zero (omega arith)
grown_longer (suc k) n f x h =
    rw add.suc (omega (arith, grown_longer k n f x h, grown-suc (k + n) f x h))

jitter_mono :
    (a b m c w : ℕ)
    → a ≤ b
    → max (max (min (min a c * m / 1000) c) 1) w ≤ max (max (min (min b c * m / 1000) c) 1) w
jitter_mono a b m c w h = omega (arith, mul_mono (min a c) (min b c) m (omega arith))

-- With everything else the same, a later attempt never waits less.
pub retry_delay_mono :
    (i : RetryDelayInput) (later d e : ℕ)
    → i.completed_attempt_ordinal ≤ later
    → retry_delay i ≡ ok d
    → retry_delay (record i { completed_attempt_ordinal = later }) ≡ ok e
    → d ≤ e
retry_delay_mono i later d e le hd he =
    let j : RetryDelayInput = record i { completed_attempt_ordinal = later } in
    let v = ok_valid i d hd in
    let b = valid-Bounds i v in
    let n = i.completed_attempt_ordinal - 1 in
    let split : later - i.completed_attempt_ordinal + n ≡ later - 1 =
      omega (arith, b.ordinal_low) in
    let longer : grown n i.factor_milli i.base_delay_ms
        ≤ grown (later - 1) i.factor_milli i.base_delay_ms =
      rw (← split) (
        grown_longer (later - i.completed_attempt_ordinal) n i.factor_milli i.base_delay_ms
          (omega arith)) in
    let hi : d ≡ reference_delay i = cc (valid_delay i v) in
    let hj : e ≡ reference_delay j = cc (valid_delay j (ok_valid j e he)) in
    rw (hi, hj)
      (jitter_mono (grown n i.factor_milli i.base_delay_ms)
        (grown (later - 1) i.factor_milli i.base_delay_ms) i.multiplier_milli i.max_delay_ms
        (unwrap_or i.validated_retry_after_ms 0) longer)

-- An attempt that admission finds eligible has the index before its ordinal and an ordinal that the
-- delay accepts: with the other fields valid at ordinal one, a delay is computed for it.
pub retry_delay-retry_admission :
    (i : RetryDelayInput) (max_attempts index : ℕ)
    → retry_admission i.completed_attempt_ordinal max_attempts ≡ ok (eligible index)
    → retry_delay_input_is_valid (record i { completed_attempt_ordinal = 1 }) ≡ true
    → (index + 1 ≡ i.completed_attempt_ordinal)
      × (i.completed_attempt_ordinal < max_attempts)
      × (retry_delay i ≡ ok (reference_delay i))
unfolding retry_admission retry_delay_input_is_valid
retry_delay-retry_admission i max_attempts index a v =
    (ground arith, ground arith, valid_delay i (ground arith))
