-- ===== src/Core/Incarnation/Burning.antt =====
-- Serials are burnt one by one and never reused.
use msgriver.Common.{
  ℕ, zero, suc, ◌+◌, ◌^◌, ◌≤◌, ◌<◌, ◌≡◌, refl, ◌∙◌, ◌⊎◌, inl, inr, ◌↔◌, none, some, List, [], ◌∷◌,
  arith, list_eq_refl, list_eq_sound, length,
}
use mathlib.Core.Path.{ap₂}
use mathlib.Core.List.{Memᴰ}
use msgriver.Core.Error.{ok, err, reject, RejectClass}
use msgriver.Core.Generation.{OwnerNamespace, next_branch_serial, u64_max}
use msgriver.Core.Incarnation.{
  AllocatorSnapshot, AllocatorWitness, LocalWitnessKind, local, local_witness, corrupt,
  classify_witness, burn_next_serial, AllocationIntent, replay_allocation, reuse, fresh,
  readiness_reason, ReadinessReason,
}

abbrev pub high : AllocatorSnapshot → ℕ
high s = s.header.branch_serial_high_water

-- The snapshots that burning leads to, with the serials burnt, latest first.
pub data Burns (a : AllocatorSnapshot) : List ℕ → AllocatorSnapshot → Type 0 where
  here : Burns a [] a
  next :
      {ss : List ℕ} {b : AllocatorSnapshot} (c : AllocatorSnapshot)
      → Burns a ss b
      → burn_next_serial b ≡ ok c
      → Burns a (high c ∷ ss) c

-- The numbers above a floor, greatest first.
abbrev pub descending : ℕ → ℕ → List ℕ
descending floor zero = []
descending floor (suc n) = (floor + suc n) ∷ descending floor n

burn_step :
    (b c : AllocatorSnapshot)
    → burn_next_serial b ≡ ok c
    → (high c ≡ high b + 1)
      × (high c ≤ u64_max)
      × (c.header.owner_namespace ≡ b.header.owner_namespace)
      × (c.selected_incarnation ≡ b.selected_incarnation)
      × (c.image_digest ≡ b.image_digest)
unfolding burn_next_serial next_branch_serial
burn_step b c h = (ground arith, ground arith, ground arith, ground arith, ground arith)

-- However many serials are burnt, they are the numbers that follow the first high-water, each once
-- and in order; the high-water ends at the last, at most the top of `u64`, and the namespace, the
-- selected incarnation and the image stay what they were.
pub Burns-descending :
    {a b : AllocatorSnapshot} {ss : List ℕ}
    → Burns a ss b
    → (ss ≡ descending (high a) (length ss))
      × (high b ≡ high a + length ss)
      × ((high b ≡ high a) ⊎ (high b ≤ u64_max))
      × (b.header.owner_namespace ≡ a.header.owner_namespace)
      × (b.selected_incarnation ≡ a.selected_incarnation)
      × (b.image_digest ≡ a.image_digest)
Burns-descending here = (refl, omega arith, inl refl, refl, refl, refl)
Burns-descending {a} (next {ss = ss} {b = b} c r h) =
    let (list, count, top, ns, sel, dig) = Burns-descending r in
    let (up, fits, ns', sel', dig') = burn_step b c h in
    let total : high c ≡ high a + suc (length ss) = omega (arith, count, up) in
    (ap₂ ◌∷◌ total list, total, inr fits, ns' ∙ ns, sel' ∙ sel, dig' ∙ dig)

mem-descending : (floor n s : ℕ) → Memᴰ s (descending floor n) → (floor < s) × (s ≤ floor + n)
mem-descending floor zero s m = absurd (no_mem m)
  where
    no_mem : Memᴰ s [] → ⊥
    no_mem m = elim m [ ]
mem-descending floor (suc n) s (Memᴰ.head e) = omega arith
mem-descending floor (suc n) s (Memᴰ.tail m) = omega (arith, mem-descending floor n s m)

abbrev pub witness : LocalWitnessKind → OwnerNamespace → ℕ → AllocatorWitness
witness kind namespace serial = record {
  source = local kind;
  namespace = namespace;
  serial = serial;
}

classify_local :
    (k : LocalWitnessKind) (n : OwnerNamespace) (s h : ℕ)
    → ((1 ≤ s) × (s ≤ h) → classify_witness (witness k n s) n h ≡ local_witness)
      × (h < s → classify_witness (witness k n s) n h ≡ corrupt)
unfolding classify_witness
classify_local k n s h =
    (λ e. ground (arith, list_eq_refl n.bytes), λ e. ground (arith, list_eq_refl n.bytes))

-- A local witness of the owner's namespace is believed for every serial burnt so far, and is corrupt
-- for every serial not burnt yet.
pub classify_witness-Burns :
    {a b : AllocatorSnapshot} {ss : List ℕ} (k : LocalWitnessKind) (s : ℕ)
    → Burns a ss b
    → (Memᴰ s ss
        → classify_witness (witness k a.header.owner_namespace s) b.header.owner_namespace (high b)
          ≡ local_witness)
      × (high b < s
          → classify_witness
              (witness k a.header.owner_namespace s)
              b.header.owner_namespace
              (high b)
            ≡ corrupt)
classify_witness-Burns {a} {b} {ss} k s r =
    let (list, count, top, ns, sel, dig) = Burns-descending r in
    let (old, new) = classify_local k a.header.owner_namespace s (high b) in
    (
      λ m.
          let bounds = mem-descending (high a) (length ss) s (rw list at m) in
          rw ns (old (omega (arith, bounds, count))),
      λ h. rw ns (new h),
    )

-- An allocation is replayed from a retained intent exactly when the command digest is the same;
-- with none retained a serial above the high-water is proposed, or exhaustion is reported, and then
-- readiness reports it too.
pub replay_allocation_cases :
    (i : AllocationIntent) (d : List ℕ) (h : ℕ) (gs : List ℕ)
    → h < 2 ^ 64
    → ((replay_allocation (some i) d h ≡ ok (reuse i)) ↔ (i.command_digest ≡ d))
      × ((replay_allocation none d h ≡ ok (fresh (record { value = h + 1 })))
          ⊎ ((replay_allocation none d h ≡ err (reject RejectClass.incarnation_exhausted))
              × (readiness_reason h gs ≡ some ReadinessReason.incarnation_exhausted)))
unfolding replay_allocation next_branch_serial readiness_reason
replay_allocation_cases i d h gs lt = (
  (λ e. ground (arith, list_eq_sound i.command_digest d), λ e. ground (arith, list_eq_refl d)),
  ground arith,
)
