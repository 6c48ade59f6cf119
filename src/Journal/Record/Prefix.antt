-- ===== src/Journal/Record/Prefix.antt =====
-- The prefix of a frame, built and cut out of it.
use mathlib.Core.List.{append-nil}
use mathlib.Core.Path.{ap₂}
use msgriver.Common.{
  ℕ, ◌+◌, ◌-◌, ◌^◌, ◌<◌, ◌≤◌, ◌≡◌, refl, sym, ap, ◌∙◌, Bool, true, false, not, ◌||◌, List, [], ◌∷◌,
  ◌++◌, ltb, in_range, length, arith,
}
use msgriver.Common.Bytes.{be_bytes, length-be_bytes}
use msgriver.Journal.Wire.{
  not-false, Result, ok, bind_ok, bind_of, else_ok, else_of, ok_injective, join, slice, slice_split,
  length-join,
}
use msgriver.Journal.Record.{
  ControlJournalRecordKind, clock_checkpoint, clock_acknowledge, system_shutdown, JournalHead,
  ControlJournalRecord, ControlJournalRecordError, invalid_record, kind_code, kind_from_code,
  next_sequence, prefix_parts, record_prefix,
}

-- The words of a head have the widths of their Rust types.
abbrev pub HeadFits : JournalHead → Type 0
HeadFits head = (head.sequence < 2 ^ 64) × (length head.record_digest ≡ 32)

pub kind_from_code_ok :
    (c : ℕ) (k : ControlJournalRecordKind) → kind_from_code c ≡ ok k → c ≡ kind_code k
kind_from_code_ok c clock_checkpoint h = ground arith
kind_from_code_ok c clock_acknowledge h = ground arith
kind_from_code_ok c system_shutdown h = ground arith

pub kind_from_code_of :
    (k : ControlJournalRecordKind) → (kind_from_code (kind_code k) ≡ ok k) × (kind_code k < 256 ^ 2)
kind_from_code_of clock_checkpoint = (refl, omega arith)
kind_from_code_of clock_acknowledge = (refl, omega arith)
kind_from_code_of system_shutdown = (refl, omega arith)

pub next_sequence_ok :
    (n m : ℕ) → n < 2 ^ 64 → next_sequence n ≡ ok m → (m ≡ n + 1) × (n + 1 < 2 ^ 64)
next_sequence_ok n m small h = (ground arith, ground arith)

pub not_or_not : (a b : Bool) → (not a || not b) ≡ false → (a ≡ true) × (b ≡ true)
not_or_not true b h = (refl, not-false b h)
not_or_not false b h = absurd (ground arith)

-- A prefix that was built has these parts.
pub record_prefix_ok :
    (kind : ControlJournalRecordKind) (body : List ℕ) (prior : JournalHead) (p : List ℕ)
    → prior.sequence < 2 ^ 64
    → record_prefix kind body prior ≡ ok p
    → (length body ≤ 16274)
      × (next_sequence prior.sequence ≡ ok (prior.sequence + 1))
      × (prior.sequence + 1 < 2 ^ 64)
      × (p ≡ join (prefix_parts kind body prior (prior.sequence + 1)))
unfolding record_prefix
record_prefix_ok kind body prior p small h =
    let (fits, h1) = else_ok (ltb 16274 (length body)) invalid_record _ p h in
    let (next, e, h2) = bind_ok (next_sequence prior.sequence) _ p h1 in
    let (word, h3) = else_ok (ltb (2 ^ 32 - 1) (110 + length body)) invalid_record _ p h2 in
    let (same, room) = next_sequence_ok prior.sequence next small e in
    (
      ground arith,
      e ∙ ap ok same,
      room,
      sym (ok_injective h3) ∙ ap (λ n. join (prefix_parts kind body prior n)) same,
    )

pub record_prefix_of :
    (kind : ControlJournalRecordKind) (body : List ℕ) (prior : JournalHead)
    → length body ≤ 16274
    → next_sequence prior.sequence ≡ ok (prior.sequence + 1)
    → record_prefix kind body prior ≡ ok (join (prefix_parts kind body prior (prior.sequence + 1)))
unfolding record_prefix
record_prefix_of kind body prior fits next =
    else_of _ _ (ground arith) (bind_of _ next (else_of _ _ (ground arith) refl))

pub length-prefix :
    (kind : ControlJournalRecordKind) (body : List ℕ) (prior : JournalHead) (n : ℕ)
    → length prior.record_digest ≡ 32
    → length (join (prefix_parts kind body prior n)) ≡ 46 + length body
length-prefix kind body prior n wide =
    length-join (prefix_parts kind body prior n) (4 ∷ 2 ∷ 8 ∷ 32 ∷ length body ∷ []) (
      length-be_bytes 4 (110 + length body),
      (length-be_bytes 2 (kind_code kind), (length-be_bytes 8 n, (wide, (refl, tt)))),
    )
    ∙ omega arith

-- The first slices of a frame, put together again.
pub prefix_cut :
    (f : List ℕ) (d : ℕ)
    → 46 ≤ d
    → d ≤ length f
    → slice 0 d f
      ≡ join (slice 0 4 f ∷ slice 4 6 f ∷ slice 6 14 f ∷ slice 14 46 f ∷ slice 46 d f ∷ [])
prefix_cut f d low high =
    slice_split 0 4 d f (omega arith) (omega arith) high
    ∙ ap (λ t. slice 0 4 f ++ t)
        (slice_split 4 6 d f (omega arith) (omega arith) high
          ∙ ap (λ t. slice 4 6 f ++ t)
              (slice_split 6 14 d f (omega arith) (omega arith) high
                ∙ ap (λ t. slice 6 14 f ++ t)
                    (slice_split 14 46 d f (omega arith) low high
                      ∙ ap (λ t. slice 14 46 f ++ t) (sym (append-nil (slice 46 d f))))))

pub prefix_same :
    (f : List ℕ) (d : ℕ) (kind : ControlJournalRecordKind) (body : List ℕ) (prior : JournalHead)
    → slice 0 4 f ≡ be_bytes 4 (110 + length body)
    → slice 4 6 f ≡ be_bytes 2 (kind_code kind)
    → slice 6 14 f ≡ be_bytes 8 (prior.sequence + 1)
    → slice 14 46 f ≡ prior.record_digest
    → slice 46 d f ≡ body
    → join (slice 0 4 f ∷ slice 4 6 f ∷ slice 6 14 f ∷ slice 14 46 f ∷ slice 46 d f ∷ [])
      ≡ join (prefix_parts kind body prior (prior.sequence + 1))
prefix_same f d kind body prior a b c e g =
    ap₂ ◌++◌ a (ap₂ ◌++◌ b (ap₂ ◌++◌ c (ap₂ ◌++◌ e (ap (λ t. t ++ []) g))))

pub record_same :
    (r : ControlJournalRecord) (n : ℕ) (dig body : List ℕ)
    → n ≡ r.sequence
    → dig ≡ r.record_digest
    → body ≡ r.body
    → Path
        (Result ControlJournalRecordError ControlJournalRecord)
        (ok (record { kind = r.kind; sequence = n; record_digest = dig; body = body }))
        (ok r)
record_same r n dig body e g h = cc

pub frame_size : (n : ℕ) → in_range 110 16384 n ≡ true → (110 ≤ n) × (n ≤ 16384)
frame_size n h = (ground arith, ground arith)
