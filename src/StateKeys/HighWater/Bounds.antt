-- ===== src/StateKeys/HighWater/Bounds.antt =====
-- What validated high waters promise.
use msgriver.Common.{
  ℕ, zero, suc, ◌+◌, ◌-◌, ◌<◌, ◌≤◌, ◌≡◌, refl, sym, ap, ◌∙◌, Bool, true, false, not, Option, none,
  some, Bool-cases, inl, inr, List, [], ◌∷◌, ltb, ◌==◌, if◌then◌else◌, take, list_eq, list_eq_refl,
  All, arith,
}
use msgriver.Core.Mac.{code}
use msgriver.Journal.Wire.{Result, ok, err, bind_ok, guard_ok, else_ok, then_ok, ok_injective}
use msgriver.StateKeys.Rows.{StateMacKeyManifestRow, StateMacKeyHighWater}
use msgriver.StateKeys.HighWater.{
  StateMacKeyHighWaterError, duplicate_high_water_purpose, missing_high_water_purpose,
  selected_origin_serial_above_high_water, put, high_water_value, is_some, by_purpose, unwrapped,
  all_present, serial_of, serials_below, validate_state_mac_key_high_water,
}

abbrev cell_of : StateMacKeyHighWater → ℕ
cell_of h = code h.purpose - 1

-- How many high waters are those of a cell, and what they add up to.
abbrev pub occurrences : ℕ → List StateMacKeyHighWater → ℕ
occurrences i [] = 0
occurrences i (h ∷ hs) = (if i == cell_of h then 1 else 0) + occurrences i hs

abbrev pub total : ℕ → List StateMacKeyHighWater → ℕ
total i [] = 0
total i (h ∷ hs) = (if i == cell_of h then high_water_value h else 0) + total i hs

abbrev present : Option ℕ → ℕ
present none = 0
present (some v) = 1

same_cell : (i j : ℕ) → (i == j) ≡ true → i ≡ j
same_cell i j h = ground arith

above : (i at : ℕ) → at ≤ i → (i == at) ≡ false → suc at ≤ i
above i at h k = ground arith

room : (i at n : ℕ) → i < at + suc n → i < suc at + n
room i at n h = omega arith

not_below : (a b : ℕ) → ltb a b ≡ false → b ≤ a
not_below a b h = ground arith

present_one : (o : Option ℕ) → is_some o ≡ true → present o ≡ 1
present_one none h = absurd (ground arith)
present_one (some v) h = refl

clash : true ≡ false → ⊥
clash e = ground arith

All-map :
    {P Q : StateMacKeyManifestRow → Type 0} (rows : List StateMacKeyManifestRow)
    → ((row : StateMacKeyManifestRow) → P row → Q row)
    → All P rows
    → All Q rows
All-map [] f h = tt
All-map (row ∷ rows) f h = (f row h.0, All-map rows f h.1)

cell_step :
    (b : Bool) (old : Option ℕ) (v p q r t : ℕ)
    → (b ≡ true → is_some old ≡ false)
    → p ≡ present (if b then some v else old) + r
    → q ≡ unwrapped (if b then some v else old) + t
    → (p ≡ present old + ((if b then 1 else 0) + r))
      × (q ≡ unwrapped old + ((if b then v else 0) + t))
cell_step false old v p q r t fresh h k = (omega arith, omega arith)
cell_step true none v p q r t fresh h k = (omega arith, omega arith)
cell_step true (some x) v p q r t fresh h k = absurd (clash (fresh refl))

abbrev rest_of :
    List ℕ
    → (ℕ → Option ℕ)
    → List StateMacKeyManifestRow
    → Result StateMacKeyHighWaterError (Unit {0})
rest_of origin cells rows = serials_below origin cells rows

-- What the loop does for a row of the selected origin.
abbrev tested :
    List ℕ
    → (ℕ → Option ℕ)
    → StateMacKeyManifestRow
    → List StateMacKeyManifestRow
    → Result StateMacKeyHighWaterError (Unit {0})
tested origin cells row rows =
    if ltb (unwrapped (cells (code row.reference.purpose - 1))) (serial_of row)
    then err selected_origin_serial_above_high_water
    else rest_of origin cells rows

-- Cells that were filled hold the value of the one high water of their purpose.
by_purpose_ok :
    (cells filled : ℕ → Option ℕ) (hs : List StateMacKeyHighWater) (i : ℕ)
    → by_purpose cells hs ≡ ok filled
    → (present (filled i) ≡ present (cells i) + occurrences i hs)
      × (unwrapped (filled i) ≡ unwrapped (cells i) + total i hs)
unfolding by_purpose
by_purpose_ok cells filled [] i h =
    let same : cells ≡ filled = ok_injective h in rw (sym same) (omega arith, omega arith)
by_purpose_ok cells filled (x ∷ hs) i h =
    let next = put (cell_of x) (some (high_water_value x)) cells in
    let (fresh, h1) =
      else_ok (is_some (cells (cell_of x))) duplicate_high_water_purpose (by_purpose next hs) filled
        h in
    let (count, value) = by_purpose_ok next filled hs i h1 in
    cell_step (i == cell_of x) (cells i) (high_water_value x) _ _ _ _
      (λ e. ap (λ k. is_some (cells k)) (same_cell i (cell_of x) e) ∙ fresh) count value

-- Eleven cells that are present.
all_present_ok :
    (n at : ℕ) (cells : ℕ → Option ℕ)
    → all_present n at cells ≡ ok tt
    → (i : ℕ) → at ≤ i
    → i < at + n
    → present (cells i) ≡ 1
unfolding all_present
all_present_ok zero at cells h i low high = absurd (omega arith)
all_present_ok (suc n) at cells h i low high =
    let (here, h1) =
      then_ok (is_some (cells at)) missing_high_water_purpose (all_present n (suc at) cells) tt h in
    elim (Bool-cases (i == at)) [
      | inl same ↦ ap (λ k. present (cells k)) (same_cell i at same) ∙ present_one (cells at) here
      | inr apart ↦ all_present_ok n (suc at) cells h1 i (above i at low apart) (room i at n high)
    ]

serials_below_ok :
    (origin : List ℕ) (cells : ℕ → Option ℕ) (rows : List StateMacKeyManifestRow)
    → serials_below origin cells rows ≡ ok tt
    → All
        (λ row.
          take 32 row.reference.key_id.bytes ≡ origin
          → serial_of row ≤ unwrapped (cells (code row.reference.purpose - 1)))
        rows
unfolding serials_below
serials_below_ok origin cells [] h = tt
serials_below_ok origin cells (row ∷ rows) h =
    elim (Bool-cases (list_eq (take 32 row.reference.key_id.bytes) origin)) [
      | inl same ↦
          let h1 =
            sym (
              ap (λ b. if not b then rest_of origin cells rows else tested origin cells row rows)
                same)
            ∙ h in
          let (below, h2) =
            else_ok (ltb (unwrapped (cells (code row.reference.purpose - 1))) (serial_of row))
              selected_origin_serial_above_high_water (rest_of origin cells rows) tt h1 in
          (
            (λ e.
                not_below (unwrapped (cells (code row.reference.purpose - 1))) (serial_of row)
                  below),
            serials_below_ok origin cells rows h2,
          )
      | inr other ↦
          let h1 =
            sym (
              ap (λ b. if not b then rest_of origin cells rows else tested origin cells row rows)
                other)
            ∙ h in
          (
            (λ e.
                absurd (
                  clash
                    (sym (list_eq_refl origin) ∙ (ap (λ x. list_eq x origin) (sym e) ∙ other)))),
            serials_below_ok origin cells rows h1,
          )
    ]

-- If the validation passes, then each of the eleven purposes has exactly one high water, and no key of
-- the selected origin has a serial above the high water of its purpose.
pub validate_state_mac_key_high_water_ok :
    (rows : List StateMacKeyManifestRow) (origin : List ℕ) (hs : List StateMacKeyHighWater)
    → validate_state_mac_key_high_water rows origin hs ≡ ok tt
    → ((i : ℕ) → i < 11 → occurrences i hs ≡ 1)
      × (All
          (λ row.
            take 32 row.reference.key_id.bytes ≡ origin
            → serial_of row ≤ total (code row.reference.purpose - 1) hs)
          rows)
unfolding validate_state_mac_key_high_water
validate_state_mac_key_high_water_ok rows origin hs h =
    let (cells, e, h1) = bind_ok (by_purpose (λ _. none) hs) _ tt h in
    let (every, h2) = guard_ok (all_present 11 0 cells) (serials_below origin cells rows) tt h1 in
    (
      λ i under.
          let (count, value) = by_purpose_ok (λ _. none) cells hs i e in
          let here = all_present_ok 11 0 cells every i (omega arith) (omega arith) in omega arith,
      All-map rows
          (λ row below same.
            let (count, value) =
              by_purpose_ok (λ _. none) cells hs (code row.reference.purpose - 1) e in
            let bound = below same in omega arith)
          (serials_below_ok origin cells rows h2),
    )
