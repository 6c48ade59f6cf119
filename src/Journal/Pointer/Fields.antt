-- ===== src/Journal/Pointer/Fields.antt =====
-- The fields of a certificate, read and placed.
use msgriver.Common.{
  ℕ, suc, ◌+◌, ◌-◌, ◌%◌, ◌^◌, ◌<◌, ◌≤◌, ◌≡◌, refl, sym, ap, ◌∙◌, Bool, true, false, not, ◌||◌, List,
  [], ◌∷◌, ◌++◌, in_range, length, drop, arith,
}
use msgriver.Common.Bytes.{IsBytes, be_bytes, length-be_bytes}
use msgriver.Journal.Wire.{
  ok, bind_ok, bind_of, else_ok, else_of, ok_injective, join, slice, byte, slice-IsBytes,
  length-slice, slice_step, byte_next, at_byte, at_field, at_slice, chain, weave, join-weave,
}
use msgriver.Journal.Words.{
  read_array, read_array_ok, read_array_of, read_word, read_word_ok, read_word_of,
}
use msgriver.Journal.Pointer.{
  PointerOrigin, ActiveStatePointer, invalid_active_state_pointer, origin_code, origin_from_code,
  read_length, expected_length, contains_nul, pointer_parts, validated_identifier, read_pointer,
}

-- The words and arrays have the widths of their Rust types, and the identifiers are UTF-8.
abbrev pub PointerFits : (List ℕ → Bool) → ActiveStatePointer → Type 0
PointerFits is_utf8 p =
    (p.protocol_version < 2 ^ 32)
    × (is_utf8 p.transition_id ≡ true)
    × (p.final_generation < 2 ^ 64)
    × (is_utf8 p.lineage_id ≡ true)
    × (length p.target_history_epoch ≡ 32)
    × (length p.database_certificate_digest ≡ 32)

origin_from_code_ok : (c : ℕ) (o : PointerOrigin) → origin_from_code c ≡ ok o → c ≡ origin_code o
origin_from_code_ok c o h = ground arith

origin_from_code_of : (o : PointerOrigin) → origin_from_code (origin_code o) ≡ ok o
origin_from_code_of o = ground arith

range_iff : (n : ℕ) → not (in_range 1 255 n) ≡ false → (1 ≤ n) × (n ≤ 255)
range_iff n h = (ground arith, ground arith)

pub read_length_ok :
    (s : List ℕ) (n : ℕ)
    → IsBytes s
    → read_length s ≡ ok n
    → (s ≡ be_bytes 2 (n % 2 ^ 16)) × (1 ≤ n) × (n ≤ 255)
read_length_ok s n small h =
    let (m, e, h1) = bind_ok (read_word invalid_active_state_pointer 2 s) _ n h in
    let (range, h2) = else_ok (not (in_range 1 255 m)) invalid_active_state_pointer (ok m) n h1 in
    let same : m ≡ n = ok_injective h2 in
    let (word, bound) = read_word_ok invalid_active_state_pointer 2 s m small e in
    let (low, high) = range_iff m range in
    let kept : m ≡ n % 2 ^ 16 = omega arith in
    (word ∙ ap (be_bytes 2) kept, omega arith, omega arith)

pub read_length_of :
    (s : List ℕ) (n : ℕ) → s ≡ be_bytes 2 (n % 2 ^ 16) → 1 ≤ n → n ≤ 255 → read_length s ≡ ok n
read_length_of s n e low high =
    let kept : n % 2 ^ 16 ≡ n = omega arith in
    bind_of _
      (read_word_of invalid_active_state_pointer 2 n (e ∙ ap (be_bytes 2) kept) (omega arith))
      (else_of _ _ (ground arith) refl)

pub expected_length_ok :
    (t l n : ℕ)
    → expected_length t l ≡ ok n
    → (n ≡ 114 + t + l) × (1 ≤ t) × (t ≤ 255) × (1 ≤ l) × (l ≤ 255)
expected_length_ok t l n h =
    let (test, h1) =
      else_ok (not (in_range 1 255 t) || not (in_range 1 255 l)) invalid_active_state_pointer
        (ok (114 + t + l)) n h in
    let same : 114 + t + l ≡ n = ok_injective h1 in
    (sym same, ground arith, ground arith, ground arith, ground arith)

sizes :
    (t l : ℕ) (w : List ℕ)
    → length w ≡ 114 + t + l
    → (length (slice 7 (7 + t) w) ≡ t)
      × (length (slice (15 + t + 2) (15 + t + 2 + l) w) ≡ l)
      × (length w - 32 ≡ 82 + t + l)
sizes t l w len = (
  length-slice 7 (7 + t) w (omega arith) (omega arith) ∙ omega arith,
  length-slice (15 + t + 2) (15 + t + 2 + l) w (omega arith) (omega arith) ∙ omega arith,
  omega arith,
)

eight_more : (t : ℕ) → 7 + t + 8 ≡ 15 + t
eight_more t = omega arith

last_offsets :
    (t l n : ℕ)
    → n ≡ 114 + t + l
    → (suc (15 + t + 2 + l + 32) ≡ 15 + t + 2 + l + 32 + 1)
      × (15 + t + 2 + l + 32 + 1 + 32 ≡ n - 32)
last_offsets t l n h = (omega arith, omega arith)

-- The parts of a wire, from what stands at each offset.
stands :
    (t l n : ℕ) (w : List ℕ)
    {protocol transition generation lineage epoch digest t_word l_word : List ℕ} {o : ℕ}
    → length w ≡ 114 + t + l
    → n ≡ 82 + t + l
    → byte 0 w ≡ 1
    → slice 1 5 w ≡ protocol
    → slice 5 7 w ≡ t_word
    → slice 7 (7 + t) w ≡ transition
    → slice (7 + t) (15 + t) w ≡ generation
    → slice (15 + t) (15 + t + 2) w ≡ l_word
    → slice (15 + t + 2) (15 + t + 2 + l) w ≡ lineage
    → slice (15 + t + 2 + l) (15 + t + 2 + l + 32) w ≡ epoch
    → byte (15 + t + 2 + l + 32) w ≡ o
    → slice (15 + t + 2 + l + 32 + 1) n w ≡ digest
    → drop 0 w
      ≡ weave
          ((1 ∷ [])
            ∷ protocol
            ∷ t_word
            ∷ transition
            ∷ generation
            ∷ l_word
            ∷ lineage
            ∷ epoch
            ∷ (o ∷ [])
            ∷ digest
            ∷ [])
          (drop n w)
stands t l n w {o} len end b0 s1 s2 s3 s4 s5 s6 s7 b8 s9 =
    let next : suc (15 + t + 2 + l + 32) ≡ 15 + t + 2 + l + 32 + 1 = omega arith in
    let last =
      chain (o ∷ [])
        (at_byte (15 + t + 2 + l + 32) w (omega arith) b8 ∙ ap (λ k. o ∷ drop k w) next)
        (at_slice (15 + t + 2 + l + 32 + 1) n w (omega arith) s9) in
    let back = chain _ (at_slice (15 + t) (15 + t + 2) w (omega arith) s5) (
      chain _ (at_slice (15 + t + 2) (15 + t + 2 + l) w (omega arith) s6)
        (chain _ (at_slice (15 + t + 2 + l) (15 + t + 2 + l + 32) w (omega arith) s7) last)) in
    chain (1 ∷ []) (at_byte 0 w (omega arith) b0) (
      chain _ (at_field 1 5 w refl s1) (
        chain _ (at_field 5 7 w refl s2) (
          chain _ (at_slice 7 (7 + t) w (omega arith) s3)
            (chain _ (at_slice (7 + t) (15 + t) w (omega arith) s4) back))))

module _ (is_utf8 : List ℕ → Bool) where
  identifier_ok :
      (s a : List ℕ) → validated_identifier is_utf8 s ≡ ok a → (s ≡ a) × (is_utf8 a ≡ true)
  identifier_ok s a h =
      let (utf8, h1) = else_ok (not (is_utf8 s)) invalid_active_state_pointer _ a h in
      let (nul, h2) = else_ok (contains_nul s) invalid_active_state_pointer (ok s) a h1 in
      let same : s ≡ a = ok_injective h2 in
      let good : is_utf8 s ≡ true = ground arith in (same, ap is_utf8 (sym same) ∙ good)

  identifier_of :
      (s a : List ℕ)
      → s ≡ a
      → is_utf8 a ≡ true
      → contains_nul a ≡ false
      → validated_identifier is_utf8 s ≡ ok a
  identifier_of s a e utf8 nul =
      ap (validated_identifier is_utf8) e ∙ else_of _ _ (ap not utf8) (else_of _ _ nul refl)

  -- The fields that were read stand in the wire, in the order of the encoder.
  pub read_pointer_ok :
      (t l : ℕ) (w : List ℕ) (p : ActiveStatePointer)
      → IsBytes w
      → length w ≡ 114 + t + l
      → byte 0 w ≡ 1
      → slice 5 7 w ≡ be_bytes 2 (t % 2 ^ 16)
      → slice (15 + t) (15 + t + 2) w ≡ be_bytes 2 (l % 2 ^ 16)
      → read_pointer is_utf8 t l w ≡ ok p
      → PointerFits is_utf8 p
        × (length p.transition_id ≡ t)
        × (length p.lineage_id ≡ l)
        × (drop 0 w ≡ join (pointer_parts p) ++ drop (length w - 32) w)
  unfolding read_pointer
  read_pointer_ok t l w p small len b0 st sl h =
      let (protocol, e1, h1) =
        bind_ok (read_word invalid_active_state_pointer 4 (slice 1 5 w)) _ p h in
      let (transition, e2, h2) =
        bind_ok (validated_identifier is_utf8 (slice 7 (7 + t) w)) _ p h1 in
      let (generation, e3, h3) =
        bind_ok (read_word invalid_active_state_pointer 8 (slice (7 + t) (15 + t) w)) _ p h2 in
      let (lineage, e4, h4) =
        bind_ok (validated_identifier is_utf8 (slice (15 + t + 2) (15 + t + 2 + l) w)) _ p h3 in
      let (epoch, e5, h5) =
        bind_ok
          (read_array invalid_active_state_pointer 32
            (slice (15 + t + 2 + l) (15 + t + 2 + l + 32) w))
          _ p h4 in
      let (origin, e6, h6) = bind_ok (origin_from_code (byte (15 + t + 2 + l + 32) w)) _ p h5 in
      let (digest, e7, h7) =
        bind_ok
          (read_array invalid_active_state_pointer 32
            (slice (15 + t + 2 + l + 32 + 1) (length w - 32) w))
          _ p h6 in
      let (s1, bound) =
        read_word_ok invalid_active_state_pointer 4 (slice 1 5 w) protocol
          (slice-IsBytes 1 5 w small) e1 in
      let (s2, utf8) = identifier_ok (slice 7 (7 + t) w) transition e2 in
      let (s3, word) =
        read_word_ok invalid_active_state_pointer 8 (slice (7 + t) (15 + t) w) generation
          (slice-IsBytes (7 + t) (15 + t) w small) e3 in
      let (s4, text) = identifier_ok (slice (15 + t + 2) (15 + t + 2 + l) w) lineage e4 in
      let (s5, wide) = read_array_ok invalid_active_state_pointer 32 _ epoch e5 in
      let (s7, long) = read_array_ok invalid_active_state_pointer 32 _ digest e7 in
      let (size_t, size_l, end) = sizes t l w len in
      let named_t : length transition ≡ t = ap length (sym s2) ∙ size_t in
      let named_l : length lineage ≡ l = ap length (sym s4) ∙ size_l in
      let whole =
        stands t l (length w - 32) w len end b0 s1
          (st ∙ ap (λ n. be_bytes 2 (n % 2 ^ 16)) (sym named_t)) s2 s3
          (sl ∙ ap (λ n. be_bytes 2 (n % 2 ^ 16)) (sym named_l)) s4 s5
          (origin_from_code_ok _ origin e6) s7 in
      let read : ActiveStatePointer = record {
        protocol_version = protocol;
        transition_id = transition;
        final_generation = generation;
        lineage_id = lineage;
        target_history_epoch = epoch;
        origin = origin;
        database_certificate_digest = digest;
      } in
      let same : read ≡ p = ok_injective h7 in
      rw (sym same) (
        (bound, utf8, word, text, wide, long),
        named_t,
        named_l,
        whole ∙ sym (join-weave (pointer_parts read) (drop (length w - 32) w)),
      )

  -- Each part of an encoded certificate is read back where the decoder looks for it.
  pub read_pointer_of :
      (w tag : List ℕ) (p : ActiveStatePointer)
      → PointerFits is_utf8 p
      → contains_nul p.transition_id ≡ false
      → contains_nul p.lineage_id ≡ false
      → length w ≡ 114 + length p.transition_id + length p.lineage_id
      → w ≡ weave (pointer_parts p) tag
      → (byte 0 w ≡ 1)
        × (slice 5 7 w ≡ be_bytes 2 (length p.transition_id % 2 ^ 16))
        × (slice (15 + length p.transition_id) (15 + length p.transition_id + 2) w
            ≡ be_bytes 2 (length p.lineage_id % 2 ^ 16))
        × (read_pointer is_utf8 (length p.transition_id) (length p.lineage_id) w ≡ ok p)
  unfolding read_pointer
  read_pointer_of w tag p (bound, utf8, word, text, wide, long) nul other len e =
      let t = length p.transition_id in
      let l = length p.lineage_id in
      let (b0, e0) = byte_next 0 w e in
      let (s1, e1) =
        slice_step 1 5 w (be_bytes 4 p.protocol_version) _ e0
          (ap (λ n. 1 + n) (length-be_bytes 4 p.protocol_version)) in
      let (s2, e2) =
        slice_step 5 7 w (be_bytes 2 (t % 2 ^ 16)) _ e1
          (ap (λ n. 5 + n) (length-be_bytes 2 (t % 2 ^ 16))) in
      let (s3, e3) = slice_step 7 (7 + t) w p.transition_id _ e2 refl in
      let (s4, e4) =
        slice_step (7 + t) (15 + t) w (be_bytes 8 p.final_generation) _ e3
          (ap (λ n. 7 + t + n) (length-be_bytes 8 p.final_generation) ∙ eight_more t) in
      let (s5, e5) =
        slice_step (15 + t) (15 + t + 2) w (be_bytes 2 (l % 2 ^ 16)) _ e4
          (ap (λ n. 15 + t + n) (length-be_bytes 2 (l % 2 ^ 16))) in
      let (s6, e6) = slice_step (15 + t + 2) (15 + t + 2 + l) w p.lineage_id _ e5 refl in
      let (s7, e7) =
        slice_step (15 + t + 2 + l) (15 + t + 2 + l + 32) w p.target_history_epoch _ e6
          (ap (λ n. 15 + t + 2 + l + n) wide) in
      let (b8, e8) = byte_next (15 + t + 2 + l + 32) w e7 in
      let (next, end) = last_offsets t l (length w) len in
      let (s9, e9) =
        slice_step (15 + t + 2 + l + 32 + 1) (length w - 32) w p.database_certificate_digest tag
          (ap (λ k. drop k w) (sym next) ∙ e8) (ap (λ n. 15 + t + 2 + l + 32 + 1 + n) long ∙ end) in
      let reads =
        bind_of _ (read_word_of invalid_active_state_pointer 4 p.protocol_version s1 bound) (
          bind_of _ (identifier_of _ p.transition_id s3 utf8 nul) (
            bind_of _ (read_word_of invalid_active_state_pointer 8 p.final_generation s4 word) (
              bind_of _ (identifier_of _ p.lineage_id s6 text other) (
                bind_of _ (read_array_of invalid_active_state_pointer 32 s7 wide) (
                  bind_of _ (ap origin_from_code b8 ∙ origin_from_code_of p.origin)
                    (bind_of _ (read_array_of invalid_active_state_pointer 32 s9 long) refl)))))) in
      (b0, s2, s5, reads)
