-- ===== src/Journal/Record/History.antt =====
-- A journal as a chain of frames, each of them accepted at the head that the one before it left.
use mathlib.Core.List.{append-nil}
use mathlib.Core.Path.{ap₂}
use msgriver.Common.{
  ℕ, ◌+◌, ◌^◌, ◌<◌, ◌≡◌, ◌≢◌, refl, sym, ap, ◌∙◌, ◌⊎◌, inl, inr, true, false, Bool-cases, List, [],
  ◌∷◌, ◌++◌, length, drop, list_eq, list_eq_sound, list_eq_refl, append_cancel_left,
  append_cancel_right, arith,
}
use msgriver.Common.Bytes.{IsBytes, be_bytes, length-be_bytes, be_bytes_injective}
use msgriver.Journal.Wire.{Result, ok, join, bind_of, slice_step}
use msgriver.Journal.Labels.{record_label}
use msgriver.Journal.Record.{
  ControlJournalRecordKind, clock_checkpoint, JournalHead, ControlJournalRecord,
  ControlJournalRecordError, genesis, prefix_parts, record_prefix, record_digest, kind_code,
  control_journal_clock_checkpoint_head, decode_control_journal_record,
}
use msgriver.Journal.Record.Prefix.{HeadFits, record_prefix_ok}
use msgriver.Journal.Record.RoundTrip.{decode_sound}

-- The head that a record leaves.
abbrev pub head_after : ControlJournalRecord → JournalHead
head_after r = record { sequence = r.sequence; record_digest = r.record_digest }

-- Two inputs with one digest.
abbrev pub HasCollision : (List ℕ → List ℕ) → Type 0
HasCollision digest = (x : List ℕ) × (y : List ℕ) × (x ≢ y) × (digest x ≡ digest y)

module _ (mac digest : List ℕ → List ℕ) where
  -- The frames are accepted one after another, and leave the records and the last head. `IsChain`
  -- lists them from the newest to the oldest.
  pub data IsChain : List ControlJournalRecord → JournalHead → Type 0 where
    empty : IsChain [] genesis
    more :
        (frame : List ℕ) (prior : JournalHead) (r : ControlJournalRecord)
        (rs : List ControlJournalRecord)
        → IsChain rs prior
        → IsBytes frame
        → decode_control_journal_record mac digest frame prior ≡ ok r
        → IsChain (r ∷ rs) (head_after r)

kind_same : (a b : ControlJournalRecordKind) → kind_code a ≡ kind_code b → a ≡ b
kind_same a b h = ground arith

kind_small : (a : ControlJournalRecordKind) → kind_code a < 256 ^ 2
kind_small a = ground arith

differ : (a b : List ℕ) → list_eq a b ≡ false → a ≢ b
differ a b h same = absurd (clash (sym (list_eq_refl b) ∙ (ap (λ x. list_eq x b) (sym same) ∙ h)))
  where
    clash : true ≢ false
    clash e = ground arith

-- The digested part of a prefix: all but the length.
tail_parts : ControlJournalRecordKind → List ℕ → List ℕ → ℕ → List ℕ
tail_parts kind body before n =
    be_bytes 2 (kind_code kind) ++ (be_bytes 8 n ++ (before ++ (body ++ [])))

tail_parts_injective :
    (k l : ControlJournalRecordKind) (a b before after : List ℕ) (n : ℕ)
    → length before ≡ 32
    → length after ≡ 32
    → tail_parts k a before n ≡ tail_parts l b after n
    → (k ≡ l) × (a ≡ b) × (before ≡ after)
unfolding tail_parts
tail_parts_injective k l a b before after n wide long e =
    let (kinds, rest) =
      append_cancel_right (be_bytes 2 (kind_code k)) (be_bytes 2 (kind_code l)) _ _
        (length-be_bytes 2 (kind_code k) ∙ sym (length-be_bytes 2 (kind_code l))) e in
    let tails = append_cancel_left (be_bytes 8 n) rest in
    let (digests, bodies) =
      append_cancel_right before after (a ++ []) (b ++ []) (wide ∙ sym long) tails in
    let code =
      be_bytes_injective 2 (kind_code k) (kind_code l) (kind_small k) (kind_small l) kinds in
    (kind_same k l code, sym (append-nil a) ∙ (bodies ∙ append-nil b), digests)

drop-prefix :
    (kind : ControlJournalRecordKind) (body : List ℕ) (prior : JournalHead) (n : ℕ)
    → drop 4 (join (prefix_parts kind body prior n)) ≡ tail_parts kind body prior.record_digest n
unfolding tail_parts
drop-prefix kind body prior n =
    (slice_step 0 4 (join (prefix_parts kind body prior n)) (be_bytes 4 (110 + length body))
      (tail_parts kind body prior.record_digest n) refl
      (ap (λ k. 0 + k) (length-be_bytes 4 (110 + length body)))).1

same_head :
    (r : ControlJournalRecord) (n : ℕ) (dig : List ℕ)
    → r.sequence ≡ n
    → r.record_digest ≡ dig
    → Path
        (Result ControlJournalRecordError JournalHead)
        (ok (record { sequence = n; record_digest = dig }))
        (ok (head_after r))
same_head r n dig e g = cc

module _ (mac digest : List ℕ → List ℕ) where
  -- What is digested for a record of a chain.
  digested_input : JournalHead → ControlJournalRecord → List ℕ
  digested_input prior r =
      record_label ++ tail_parts r.kind r.body prior.record_digest (prior.sequence + 1)

  -- A record that was accepted at a head.
  accepted :
      (f : List ℕ) (prior : JournalHead) (r : ControlJournalRecord)
      → HeadFits prior
      → IsBytes f
      → decode_control_journal_record mac digest f prior ≡ ok r
      → (r.sequence ≡ prior.sequence + 1)
        × (prior.sequence + 1 < 2 ^ 64)
        × (r.record_digest ≡ digest (digested_input prior r))
  unfolding digested_input
  accepted f prior r fits small h =
      let (start, built, encoded, number, digested) =
        decode_sound mac digest f prior r small fits h in
      let (short, next, room, parts) = record_prefix_ok r.kind r.body prior start fits.0 built in
      (
        number,
        room,
        digested
            ∙ ap (λ p. digest (record_label ++ p))
                (ap (drop 4) parts ∙ drop-prefix r.kind r.body prior (prior.sequence + 1)),
      )

  same_record :
      (p q : JournalHead) (r s : ControlJournalRecord)
      → HeadFits p
      → HeadFits q
      → r.sequence ≡ p.sequence + 1
      → s.sequence ≡ q.sequence + 1
      → head_after r ≡ head_after s
      → digested_input p r ≡ digested_input q s
      → (r ≡ s) × (p ≡ q)
  unfolding digested_input
  same_record p q r s fits wide n1 n2 e same =
      let numbers : r.sequence ≡ s.sequence = ap (λ x. x.sequence) e in
      let digests : r.record_digest ≡ s.record_digest = ap (λ x. x.record_digest) e in
      let steps : p.sequence ≡ q.sequence = omega arith in
      let tails =
        append_cancel_left record_label same
        ∙ ap (λ n. tail_parts s.kind s.body q.record_digest (n + 1)) (sym steps) in
      let (kinds, bodies, befores) =
        tail_parts_injective r.kind s.kind r.body s.body p.record_digest q.record_digest
          (p.sequence + 1) fits.1 wide.1 tails in
      (cc, cc)

  module _ (wide_digest : (x : List ℕ) → length (digest x) ≡ 32) where
    IsChain-HeadFits :
        (rs : List ControlJournalRecord) (h : JournalHead) → IsChain mac digest rs h → HeadFits h
    IsChain-HeadFits rs h empty = (omega arith, refl)
    IsChain-HeadFits rs h (more f prior r ss chain small e) =
        let (number, room, digested) =
          accepted f prior r (IsChain-HeadFits ss prior chain) small e in
        (omega arith, ap length digested ∙ wide_digest _)

    -- With digests of 32 bytes, the sequence of the last head of a chain is the number of its records.
    pub IsChain-sequence :
        (rs : List ControlJournalRecord) (h : JournalHead)
        → IsChain mac digest rs h
        → h.sequence ≡ length rs
    IsChain-sequence rs h empty = refl
    IsChain-sequence rs h (more f prior r ss chain small e) =
        let (number, room, digested) =
          accepted f prior r (IsChain-HeadFits ss prior chain) small e in
        let before = IsChain-sequence ss prior chain in omega arith

    -- The head of a chain binds its whole history: with digests of 32 bytes, two chains with one last
    -- head have the same records, or else two inputs with one digest are at hand.
    pub IsChain-same_history :
        (rs ss : List ControlJournalRecord) (h k : JournalHead)
        → IsChain mac digest rs h
        → IsChain mac digest ss k
        → h ≡ k
        → (rs ≡ ss) ⊎ HasCollision digest
    IsChain-same_history rs ss h k empty empty e = inl refl
    IsChain-same_history rs ss h k empty (more f prior r ts chain small accept) e =
        let count =
          IsChain-sequence (r ∷ ts) (head_after r) (more f prior r ts chain small accept) in
        let none = ap (λ x. x.sequence) e in absurd (omega arith)
    IsChain-same_history rs ss h k (more f prior r ts chain small accept) empty e =
        let count =
          IsChain-sequence (r ∷ ts) (head_after r) (more f prior r ts chain small accept) in
        let none = ap (λ x. x.sequence) e in absurd (omega arith)
    IsChain-same_history rs ss h k (more f p r qs chain small accept)
          (more g q s ts other tiny took) e =
        let fits = IsChain-HeadFits qs p chain in
        let wide = IsChain-HeadFits ts q other in
        let (n1, room1, d1) = accepted f p r fits small accept in
        let (n2, room2, d2) = accepted g q s wide tiny took in
        let numbers = ap (λ x. x.sequence) e in
        let digests = sym d1 ∙ (ap (λ x. x.record_digest) e ∙ d2) in
        let input = digested_input p r in
        let other_input = digested_input q s in
        elim (Bool-cases (list_eq input other_input)) [
          | inl same ↦
              let (records, heads) =
                same_record p q r s fits wide n1 n2 e (list_eq_sound input other_input same) in
              elim (IsChain-same_history qs ts p q chain other heads) [
                | inl before ↦ inl (ap₂ ◌∷◌ records before)
                | inr collision ↦ inr collision
              ]
          | inr apart ↦ inr (input, other_input, (λ x. differ input other_input apart x), digests)
        ]

  -- For an accepted clock checkpoint, at a head of the widths of its types, the bridge of the image
  -- fold computes from the body alone the head that the record leaves.
  pub control_journal_clock_checkpoint_head-decode :
      (f : List ℕ) (prior : JournalHead) (r : ControlJournalRecord)
      → HeadFits prior
      → IsBytes f
      → decode_control_journal_record mac digest f prior ≡ ok r
      → r.kind ≡ clock_checkpoint
      → control_journal_clock_checkpoint_head digest r.body prior ≡ ok (head_after r)
  unfolding control_journal_clock_checkpoint_head
  control_journal_clock_checkpoint_head-decode f prior r fits small h kind =
      let (start, built, encoded, number, digested) =
        decode_sound mac digest f prior r small fits h in
      let (short, next, room, parts) = record_prefix_ok r.kind r.body prior start fits.0 built in
      bind_of _ (ap (λ k. record_prefix k r.body prior) (sym kind) ∙ built) (
        bind_of _ next
          (same_head r (prior.sequence + 1) (record_digest digest start) number digested))
