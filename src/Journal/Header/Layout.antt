-- ===== src/Journal/Header/Layout.antt =====
-- The words and the layout of a header, read and placed.
use mathlib.Core.List.{append_assoc}
use msgriver.Common.{
  ℕ, suc, ◌+◌, ◌-◌, ◌*◌, ◌^◌, ◌<◌, ◌≤◌, ◌≡◌, refl, sym, ap, ◌∙◌, Bool, true, false, not, ◌||◌, List,
  [], ◌∷◌, ◌++◌, ◌==◌, length, length-append, drop, take, All, arith,
}
use msgriver.Common.Bytes.{
  IsBytes, be_bytes, from_be_bytes, length-be_bytes, be_bytes-from_be_bytes, from_be_bytes_bound,
  from_be_bytes-be_bytes,
}
use msgriver.Journal.Wire.{slice, slice-IsBytes, length-slice, slice_step, at_slice, chain}
use msgriver.Journal.Header.{expected_layout, layout_wire, layout_matches}

-- A word of `n` bytes that reads as `v`.
pub word_at :
    (n lo hi v : ℕ) (w : List ℕ)
    → IsBytes w
    → lo ≤ hi
    → hi ≤ length w
    → hi - lo ≡ n
    → from_be_bytes (slice lo hi w) ≡ v
    → (slice lo hi w ≡ be_bytes n v) × (v < 256 ^ n)
word_at n lo hi v w small up fits width e =
    let bytes = slice-IsBytes lo hi w small in
    let wide = length-slice lo hi w up fits ∙ width in
    (
      sym (be_bytes-from_be_bytes n (slice lo hi w) wide bytes) ∙ ap (be_bytes n) e,
      rw (sym e) (from_be_bytes_bound n (slice lo hi w) wide bytes),
    )

pub layout_matches_ok :
    (ls : List ℕ) (at : ℕ) (w : List ℕ)
    → IsBytes w
    → at + 4 * length ls ≤ length w
    → layout_matches ls at w ≡ true
    → drop at w ≡ layout_wire ls ++ drop (at + 4 * length ls) w
unfolding layout_matches
layout_matches_ok [] at w small fits h =
    let here : at ≡ at + 4 * 0 = omega arith in ap (λ k. drop k w) here
layout_matches_ok (l ∷ ls) at w small fits h =
    let first : from_be_bytes (slice at (at + 4) w) ≡ l = ground arith in
    let others : layout_matches ls (at + 4) w ≡ true = ground arith in
    let (word, bound) =
      word_at 4 at (at + 4) l w small (omega arith) (omega arith) (omega arith) first in
    let end : at + 4 + 4 * length ls ≡ at + 4 * suc (length ls) = omega arith in
    let rest = layout_matches_ok ls (at + 4) w small (omega arith) others in
    chain (be_bytes 4 l) (at_slice at (at + 4) w (omega arith) word)
      (rest ∙ ap (λ k. layout_wire ls ++ drop k w) end)
    ∙ sym (append_assoc (be_bytes 4 l) (layout_wire ls) (drop (at + 4 * suc (length ls)) w))

pub layout_matches_of :
    (ls : List ℕ) (at : ℕ) (w t : List ℕ)
    → All (λ l. l < 256 ^ 4) ls
    → drop at w ≡ layout_wire ls ++ t
    → layout_matches ls at w ≡ true
unfolding layout_matches
layout_matches_of [] at w t small e = refl
layout_matches_of (l ∷ ls) at w t small e =
    let (s, e1) =
      slice_step at (at + 4) w (be_bytes 4 l) (layout_wire ls ++ t)
        (e ∙ append_assoc (be_bytes 4 l) (layout_wire ls) t) (omega (arith, length-be_bytes 4 l)) in
    let read : from_be_bytes (slice at (at + 4) w) ≡ l =
      ap from_be_bytes s ∙ from_be_bytes-be_bytes 4 l small.0 in
    let rest = layout_matches_of ls (at + 4) w t small.1 e1 in ground arith

pub length-layout_wire : (ls : List ℕ) → length (layout_wire ls) ≡ 4 * length ls
length-layout_wire [] = refl
length-layout_wire (l ∷ ls) = omega (
  arith,
  length-layout_wire ls,
  length-be_bytes 4 l,
  length-append (be_bytes 4 l) (layout_wire ls),
)

pub layout_small : All (λ l. l < 256 ^ 4) expected_layout
layout_small = (
  omega arith,
  (
    omega arith,
    (
      omega arith,
      (omega arith, (omega arith, (omega arith, (omega arith, (omega arith, (omega arith, tt)))))),
    ),
  ),
)

pub or_false : (a b : Bool) → (not a || b) ≡ false → (a ≡ true) × (b ≡ false)
or_false true b h = (refl, h)
or_false false b h = absurd (ground arith)

pub length-take24 : (xs : List ℕ) → length xs ≡ 32 → length (take 24 xs) ≡ 24
unfolding slice
length-take24 xs wide = length-slice 0 24 xs (omega arith) (omega arith)

pub heading :
    (b : Bool) (n m : ℕ)
    → b ≡ true
    → n ≡ 1
    → m ≡ 1
    → (not b || (not (n == 1) || not (m == 1))) ≡ false
heading b n m h k l = ground arith
