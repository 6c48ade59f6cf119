-- ===== src/Journal/Pointer/RoundTrip.antt =====
-- The decoder of certificates accepts what the encoder writes, and nothing else.
use mathlib.Core.Path.{ap₂}
use msgriver.Common.{
  ℕ, ◌+◌, ◌-◌, ◌%◌, ◌^◌, ◌≤◌, ◌≡◌, refl, sym, ap, ◌∙◌, ◌↔◌, Bool, true, false, not, ◌||◌, List, [],
  ◌∷◌, ◌++◌, ltb, in_range, ◌==◌, length, length-append, drop, list_eq_sound, list_eq_refl, arith,
}
use msgriver.Common.Bytes.{IsBytes, length-be_bytes}
use msgriver.Journal.Wire.{
  not-false, ok, bind_ok, bind_of, guard_ok, guard_of, else_ok, else_of, ok_injective, join, slice,
  byte, slice-IsBytes, slice_step, slice_last, slice_end, join-weave, length-join,
}
use msgriver.Journal.Words.{digest_is_zero}
use msgriver.Journal.Labels.{active_state_pointer_domain}
use msgriver.Journal.Pointer.{
  ActiveStatePointer, invalid_active_state_pointer, read_length, expected_length, contains_nul,
  validate_pointer, pointer_parts, read_pointer, active_state_pointer_tag,
  verify_active_state_pointer_tag, encode_active_state_pointer, decode_active_state_pointer,
}
use msgriver.Journal.Pointer.Fields.{
  PointerFits, read_length_ok, read_length_of, expected_length_ok, read_pointer_ok, read_pointer_of,
}

either_false : (a b : Bool) → (a || b) ≡ false → (a ≡ false) × (b ≡ false)
either_false false b h = (refl, h)
either_false true b h = absurd (ground arith)

not_equal : (n m : ℕ) → not (n == m) ≡ false → n ≡ m
not_equal n m h = ground arith

equal_holds : (n m : ℕ) → n ≡ m → not (n == m) ≡ false
equal_holds n m h = ground arith

zero_plus : (n m : ℕ) → n ≡ m → 0 + n ≡ m
zero_plus n m h = omega arith

less : (n : ℕ) → n - 32 ≤ n
less n = omega arith

sum_sizes : (n t l a b : ℕ) → n ≡ 114 + t + l → a ≡ t → b ≡ l → 82 + a + b ≡ n - 32
sum_sizes n t l a b h e g = omega arith

total_of : (t l n : ℕ) → expected_length t l ≡ ok n → (n ≡ 114 + t + l) × (1 ≤ t)
total_of t l n h = let (size, low, high, least, most) = expected_length_ok t l n h in (size, low)

total_value : (t l : ℕ) → 1 ≤ t → t ≤ 255 → 1 ≤ l → l ≤ 255 → expected_length t l ≡ ok (114 + t + l)
total_value t l a b c d = ground arith

range_holds :
    (n t l : ℕ)
    → n ≡ 114 + t + l
    → 1 ≤ t
    → t ≤ 255
    → 1 ≤ l
    → l ≤ 255
    → (not (in_range 116 624 n) || ltb n 7) ≡ false
range_holds n t l h a b c d = ground arith

room_holds : (n t l : ℕ) → n ≡ 114 + t + l → ltb n (17 + t) ≡ false
room_holds n t l h = ground arith

-- What a valid certificate has.
validate_pointer_ok :
    (p : ActiveStatePointer)
    → validate_pointer p ≡ ok tt
    → (contains_nul p.transition_id ≡ false)
      × (contains_nul p.lineage_id ≡ false)
      × (1 ≤ length p.transition_id)
      × (length p.transition_id ≤ 255)
      × (1 ≤ length p.lineage_id)
      × (length p.lineage_id ≤ 255)
unfolding validate_pointer
validate_pointer_ok p h =
    let t = length p.transition_id in
    let l = length p.lineage_id in
    let (total, e, h1) = bind_ok (expected_length t l) _ tt h in
    let (size, t1, t2, l1, l2) = expected_length_ok t l total e in
    let tail =
      contains_nul p.lineage_id
      || (p.final_generation == 0 || digest_is_zero p.database_certificate_digest) in
    let (test, h2) =
      else_ok (contains_nul p.transition_id || tail) invalid_active_state_pointer _ tt h1 in
    let (first, rest) = either_false (contains_nul p.transition_id) tail test in
    let (second, more) = either_false (contains_nul p.lineage_id) _ rest in
    (first, second, t1, t2, l1, l2)

length-pointer_parts :
    (is_utf8 : List ℕ → Bool) (p : ActiveStatePointer)
    → PointerFits is_utf8 p
    → length (join (pointer_parts p)) ≡ 82 + length p.transition_id + length p.lineage_id
length-pointer_parts is_utf8 p (bound, utf8, word, text, wide, long) =
    length-join (pointer_parts p)
      (1 ∷ 4 ∷ 2 ∷ length p.transition_id ∷ 8 ∷ 2 ∷ length p.lineage_id ∷ 32 ∷ 1 ∷ 32 ∷ [])
      (
        refl,
        (
          length-be_bytes 4 p.protocol_version,
          (
            length-be_bytes 2 (length p.transition_id % 2 ^ 16),
            (
              refl,
              (
                length-be_bytes 8 p.final_generation,
                (
                  length-be_bytes 2 (length p.lineage_id % 2 ^ 16),
                  (refl, (wide, (refl, (long, tt)))),
                ),
              ),
            ),
          ),
        ),
      )
    ∙ omega arith

module _ (mac : List ℕ → List ℕ) (is_utf8 : List ℕ → Bool) where
  sound :
      (w : List ℕ) (p : ActiveStatePointer)
      → IsBytes w
      → decode_active_state_pointer mac is_utf8 w ≡ ok p
      → PointerFits is_utf8 p × (encode_active_state_pointer mac p ≡ ok w)
  unfolding decode_active_state_pointer encode_active_state_pointer
  sound w p small h =
      let n = length w - 32 in
      let plain = slice 0 n w in
      let tag = slice n (length w) w in
      let (range, h1) =
        else_ok (not (in_range 116 624 (length w)) || ltb (length w) 7) invalid_active_state_pointer
          _ p h in
      let (t, e1, h2) = bind_ok (read_length (slice 5 7 w)) _ p h1 in
      let (room, h3) = else_ok (ltb (length w) (17 + t)) invalid_active_state_pointer _ p h2 in
      let (l, e2, h4) = bind_ok (read_length (slice (15 + t) (15 + t + 2) w)) _ p h3 in
      let (total, e3, h5) = bind_ok (expected_length t l) _ p h4 in
      let (size, h6) = else_ok (not (length w == total)) invalid_active_state_pointer _ p h5 in
      let (auth, h7) =
        else_ok (not (verify_active_state_pointer_tag mac plain tag)) invalid_active_state_pointer _
          p h6 in
      let (version, h8) = else_ok (not (byte 0 w == 1)) invalid_active_state_pointer _ p h7 in
      let (read, e4, h9) = bind_ok (read_pointer is_utf8 t l w) _ p h8 in
      let (valid, h10) = guard_ok (validate_pointer read) (ok read) p h9 in
      let same : read ≡ p = ok_injective h10 in
      let (st, t1, t2) = read_length_ok (slice 5 7 w) t (slice-IsBytes 5 7 w small) e1 in
      let (sl, l1, l2) =
        read_length_ok (slice (15 + t) (15 + t + 2) w) l
          (slice-IsBytes (15 + t) (15 + t + 2) w small) e2 in
      let (sum, others) = total_of t l total e3 in
      let len = not_equal (length w) total size ∙ sum in
      let (fits, named_t, named_l, whole) =
        read_pointer_ok is_utf8 t l w read small len (not_equal (byte 0 w) 1 version) st sl e4 in
      let width =
        length-pointer_parts is_utf8 read fits ∙ sum_sizes (length w) t l _ _ len named_t named_l in
      let (front, back) =
        slice_step 0 n w (join (pointer_parts read)) (drop n w) whole (zero_plus _ _ width) in
      let tagged = list_eq_sound tag (active_state_pointer_tag mac plain) (not-false _ auth) in
      let rest =
        slice_end n (length w) w (less (length w)) refl
        ∙ (tagged ∙ ap (active_state_pointer_tag mac) front) in
      let code = whole ∙ ap (λ x. join (pointer_parts read) ++ x) rest in
      rw (sym same) (fits, guard_of _ valid (ap ok (sym code)))

  -- With tags of 32 bytes, the decoder answers a certificate for a wire of bytes exactly where the
  -- certificate has the widths of its types and UTF-8 identifiers, and the encoder writes that wire
  -- under the same key: what was encoded is read back, no other wire is accepted, and what is read has
  -- passed the validation.
  pub decode_active_state_pointer_iff :
      ((x : List ℕ) → length (mac x) ≡ 32)
      → (w : List ℕ) (p : ActiveStatePointer) → IsBytes w
      → (decode_active_state_pointer mac is_utf8 w ≡ ok p)
        ↔ (PointerFits is_utf8 p × (encode_active_state_pointer mac p ≡ ok w))
  unfolding decode_active_state_pointer encode_active_state_pointer
  decode_active_state_pointer_iff wide w p small = (sound w p small, complete)
    where
      complete :
          PointerFits is_utf8 p × (encode_active_state_pointer mac p ≡ ok w)
          → decode_active_state_pointer mac is_utf8 w ≡ ok p
      complete (fits, h) =
          let t = length p.transition_id in
          let l = length p.lineage_id in
          let plain = join (pointer_parts p) in
          let tag = active_state_pointer_tag mac plain in
          let tag_size = wide (active_state_pointer_domain ++ plain) in
          let (valid, h1) = guard_ok (validate_pointer p) (ok (plain ++ tag)) w h in
          let same : plain ++ tag ≡ w = ok_injective h1 in
          let (nul, other, t1, t2, l1, l2) = validate_pointer_ok p valid in
          let plain_size = length-pointer_parts is_utf8 p fits in
          let len : length w ≡ 114 + t + l =
            ap length (sym same) ∙ omega (arith, length-append plain tag, tag_size, plain_size) in
          let (b0, st, sl, reads) =
            read_pointer_of is_utf8 w tag p fits nul other len
              (sym same ∙ join-weave (pointer_parts p) tag) in
          let (front, back) =
            slice_step 0 (length w - 32) w plain tag (sym same) (omega (arith, plain_size)) in
          let end = slice_last (length w - 32) (length w) w tag back (omega (arith, tag_size)) in
          let valid_tag =
            ap₂ (λ a b. not (verify_active_state_pointer_tag mac a b)) front end
            ∙ ap not (list_eq_refl tag) in
          let total : expected_length t l ≡ ok (114 + t + l) = total_value t l t1 t2 l1 l2 in
          else_of _ _ (range_holds (length w) t l len t1 t2 l1 l2) (
            bind_of _ (read_length_of (slice 5 7 w) t st t1 t2) (
              else_of _ _ (room_holds (length w) t l len) (
                bind_of _ (read_length_of (slice (15 + t) (15 + t + 2) w) l sl l1 l2) (
                  bind_of _ total (
                    else_of _ _ (equal_holds (length w) (114 + t + l) len) (
                      else_of _ _ valid_tag (
                        else_of _ _ (equal_holds (byte 0 w) 1 b0)
                          (bind_of _ reads (guard_of _ valid refl)))))))))
