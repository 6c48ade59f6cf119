-- ===== src/Journal/RingManifest/Validation.antt =====
-- What the validation of a manifest means for its entries.
use msgriver.Common.{
  ℕ, ◌+◌, ◌*◌, ◌<◌, ◌≤◌, ◌≡◌, refl, ◌↔◌, false, ◌||◌, Option, none, some, List, [], ◌∷◌, ◌==◌,
  length, arith,
}
use msgriver.Journal.Wire.{ok, bind_ok, bind_of, else_ok, else_of}
use msgriver.Journal.RingManifest.{
  RecoveryRingPhase, retained, active, pending_escrow, RecoveryRingEntry, RecoveryRingManifest,
  invalid_recovery_ring_manifest, expected_length, not_above, count_active, count_pending,
  validate_entries, validate_manifest,
}

-- The generations rise strictly from above `low`.
abbrev pub RisesAbove : ℕ → List RecoveryRingEntry → Type 0
RisesAbove low [] = Unit
RisesAbove low (entry ∷ entries) = (low < entry.generation) × RisesAbove entry.generation entries

abbrev pub actives : List RecoveryRingEntry → ℕ
actives [] = 0
actives (entry ∷ entries) = count_active entry.phase (actives entries)

abbrev pub pendings : List RecoveryRingEntry → ℕ
pendings [] = 0
pendings (entry ∷ entries) = count_pending entry.phase (pendings entries)

-- At most 16 entries, of rising generations from 1 on, at most one of them active and at most one
-- pending.
abbrev pub IsRing : List RecoveryRingEntry → Type 0
IsRing entries =
    (length entries ≤ 16) × RisesAbove 0 entries × (actives entries ≤ 1) × (pendings entries ≤ 1)

abbrev floor_of : Option ℕ → ℕ
floor_of none = 0
floor_of (some n) = n

count_active-add : (p : RecoveryRingPhase) (n m : ℕ) → count_active p n + m ≡ n + count_active p m
count_active-add retained n m = refl
count_active-add active n m = omega arith
count_active-add pending_escrow n m = refl

count_pending-add :
    (p : RecoveryRingPhase) (n m : ℕ) → count_pending p n + m ≡ n + count_pending p m
count_pending-add retained n m = refl
count_pending-add active n m = refl
count_pending-add pending_escrow n m = omega arith

step_iff :
    (previous : Option ℕ) (g : ℕ)
    → ((g == 0 || not_above previous g) ≡ false) ↔ (floor_of previous < g)
step_iff none g = (λ h. ground arith, λ h. ground arith)
step_iff (some n) g = (λ h. ground arith, λ h. ground arith)

validate_entries_iff :
    (previous : Option ℕ) (a p : ℕ) (es : List RecoveryRingEntry)
    → (validate_entries previous a p es ≡ ok tt)
      ↔ (RisesAbove (floor_of previous) es × (a + actives es ≤ 1) × (p + pendings es ≤ 1))
unfolding validate_entries
validate_entries_iff previous a p [] = (λ h. (tt, ground arith, ground arith), λ h. ground arith)
validate_entries_iff previous a p (e ∷ es) =
    let (sound, complete) =
      validate_entries_iff (some e.generation) (count_active e.phase a) (count_pending e.phase p)
        es in
    let (up, down) = step_iff previous e.generation in
    (
      λ h.
          let (test, h1) =
            else_ok (e.generation == 0 || not_above previous e.generation)
              invalid_recovery_ring_manifest _ tt h in
          let (rises, one, other) = sound h1 in
          (
            (up test, rises),
            omega (arith, count_active-add e.phase a (actives es)),
            omega (arith, count_pending-add e.phase p (pendings es)),
          ),
      λ (above, one, other). else_of _ _ (down above.0) (
          complete (
            above.1,
            omega (arith, count_active-add e.phase a (actives es)),
            omega (arith, count_pending-add e.phase p (pendings es)),
          )),
    )

-- A manifest is valid exactly where it has at most 16 entries, their generations rise strictly from 1
-- on, and at most one entry is active and at most one pending.
pub validate_manifest_iff :
    (manifest : RecoveryRingManifest)
    → (validate_manifest manifest ≡ ok tt) ↔ IsRing manifest.entries
unfolding validate_manifest
validate_manifest_iff manifest = (sound, complete)
  where
    sound : validate_manifest manifest ≡ ok tt → IsRing manifest.entries
    sound h =
        let (total, room, h1) = bind_ok (expected_length (length manifest.entries)) _ tt h in
        let (rises, one, other) = (validate_entries_iff none 0 0 manifest.entries).0 h1 in
        (ground arith, rises, omega arith, omega arith)

    complete : IsRing manifest.entries → validate_manifest manifest ≡ ok tt
    complete (room, rises, one, other) =
        let fits : expected_length (length manifest.entries)
            ≡ ok (34 + 9 * length manifest.entries) =
          ground arith in
        bind_of _ fits
          ((validate_entries_iff none 0 0 manifest.entries).1 (rises, omega arith, omega arith))
