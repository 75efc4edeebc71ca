-- ===== src/Common/Utf8/RoundTrip.antt =====
-- What QString::toStdString writes, QString(const char *) reads.
use Prim.Native.Nat.{ℕ, ◌+◌, ◌-◌, ◌*◌, ◌/◌, ◌%◌, ◌≤◌, ◌<◌}
use mathlib.Core.Path.{◌≡◌, refl, ap}
use mathlib.Core.Logic.{◌≢◌, ◌⊎◌, inl, inr}
use mathlib.Core.Bool.{true, false, ◌&&◌}
use mathlib.Core.List.{List, [], ◌∷◌, ◌++◌}
use native.Mathlib.Omega.{arith}
use zpserver.Common.Tests.{ltb, leb, Bool-cases}
use zpserver.Common.Map.{Text}
use zpserver.Common.Utf8.{
  is_high, is_low, unit_bytes, utf8_after, to_utf8, two_bytes, three_bytes, continues, sequence,
  utf8_from, from_utf8,
}

-- A character of 16 bits
pub record IsPlain (c : ℕ) : Type 0 where
  pub short : c < 0x10000
  pub not_high : is_high c ≡ false
  pub not_low : is_low c ≡ false

-- Characters of 16 bits, none of them zero
abbrev pub ArePlain : Text → Type 0
ArePlain [] = Unit {0}
ArePlain (c ∷ s) = IsPlain c × (c ≢ 0) × ArePlain s

abbrev pub NoNul : List ℕ → Type 0
NoNul [] = Unit {0}
NoNul (b ∷ bs) = (b ≢ 0) × NoNul bs

-- The three lengths of a character's bytes
pub unit_bytes-cases :
    (c : ℕ)
    → IsPlain c
    → ((c < 0x80) × (unit_bytes c ≡ c ∷ []))
      ⊎ ((0x80 ≤ c) × (c < 0x800) × (unit_bytes c ≡ (0xC0 + c / 64) ∷ (0x80 + c % 64) ∷ []))
      ⊎ ((0x800 ≤ c)
          × (unit_bytes c ≡ (0xE0 + c / 4096) ∷ (0x80 + c / 64 % 64) ∷ (0x80 + c % 64) ∷ []))
unfolding unit_bytes
unit_bytes-cases c p = elim (Bool-cases (ltb c 0x80)) [
  | inl one ↦ inl (ground arith, rw one refl)
  | inr more ↦ elim (Bool-cases (ltb c 0x800)) [
    | inl two ↦ inr (inl (ground arith, ground arith, rw (more, two) refl))
    | inr three ↦ inr (inr (ground arith, rw (more, three, p.not_low) refl))
  ]
]

unit_bytes-NoNul :
    (c : ℕ) (rest : List ℕ) → IsPlain c → c ≢ 0 → NoNul rest → NoNul (unit_bytes c ++ rest)
unit_bytes-NoNul c rest p nonzero n = elim (unit_bytes-cases c p) [
  | inl (small, e) ↦ rw e (nonzero, n)
  | inr (inl (big, small, e)) ↦ rw e (omega arith, (omega arith, n))
  | inr (inr (big, e)) ↦ rw e (omega arith, (omega arith, (omega arith, n)))
]

one_read : (c : ℕ) (rest : List ℕ) → c < 0x80 → utf8_from 0 (c ∷ rest) ≡ c ∷ utf8_from 0 rest
unfolding utf8_from sequence
one_read c rest small = let one : ltb c 0x80 ≡ true = ground (arith, small) in rw one refl

two_read :
    (c : ℕ) (rest : List ℕ)
    → 0x80 ≤ c
    → c < 0x800
    → sequence (0xC0 + c / 64) ((0x80 + c % 64) ∷ rest) ≡ (c ∷ [], 1)
unfolding sequence two_bytes
two_read c rest big small =
    let long : ltb (0xC0 + c / 64) 0x80 ≡ false = ground arith in
    let two : (leb 0xC2 (0xC0 + c / 64) && ltb (0xC0 + c / 64) 0xE0) ≡ true =
      ground (arith, big, small) in
    let more : continues (0x80 + c % 64) ≡ true = ground arith in
    let value : (0xC0 + c / 64 - 0xC0) * 64 + (0x80 + c % 64 - 0x80) ≡ c = omega arith in
    rw (long, two, more, value) refl

three_read :
    (c : ℕ) (rest : List ℕ)
    → IsPlain c
    → 0x800 ≤ c
    → sequence (0xE0 + c / 4096) ((0x80 + c / 64 % 64) ∷ (0x80 + c % 64) ∷ rest) ≡ (c ∷ [], 2)
unfolding sequence three_bytes
three_read c rest p big =
    let long : ltb (0xE0 + c / 4096) 0x80 ≡ false = ground arith in
    let not_two : (leb 0xC2 (0xE0 + c / 4096) && ltb (0xE0 + c / 4096) 0xE0) ≡ false =
      ground arith in
    let three : (leb 0xE0 (0xE0 + c / 4096) && ltb (0xE0 + c / 4096) 0xF0) ≡ true =
      ground (arith, p.short) in
    let value : (0xE0 + c / 4096 - 0xE0) * 4096
          + (0x80 + c / 64 % 64 - 0x80) * 64
          + (0x80 + c % 64 - 0x80)
        ≡ c =
      omega arith in
    let second : continues (0x80 + c / 64 % 64) ≡ true = ground arith in
    let third : continues (0x80 + c % 64) ≡ true = ground arith in
    let enough : leb 0x800 c ≡ true = ground (arith, big) in
    rw (long, not_two, three, value, second, third, enough, p.not_high, p.not_low) refl

unit_read :
    (c : ℕ) (rest : List ℕ) → IsPlain c → utf8_from 0 (unit_bytes c ++ rest) ≡ c ∷ utf8_from 0 rest
unfolding utf8_from
unit_read c rest p = elim (unit_bytes-cases c p) [
  | inl (small, e) ↦ rw e (one_read c rest small)
  | inr (inl (big, small, e)) ↦ rw (e, utf8_from, two_read c rest big small) refl
  | inr (inr (big, e)) ↦ rw (e, utf8_from, three_read c rest p big) refl
]

pub to_utf8-plain : (c : ℕ) (s : Text) → IsPlain c → to_utf8 (c ∷ s) ≡ unit_bytes c ++ to_utf8 s
unfolding to_utf8 utf8_after
to_utf8-plain c s p = rw p.not_high refl

pub to_utf8-NoNul : (s : Text) → ArePlain s → NoNul (to_utf8 s)
unfolding to_utf8 utf8_after
to_utf8-NoNul [] p = tt
to_utf8-NoNul (c ∷ s) (p, nonzero, ps) =
    rw (to_utf8-plain c s p) (unit_bytes-NoNul c (to_utf8 s) p nonzero (to_utf8-NoNul s ps))

pub from_utf8-to_utf8 : (s : Text) → ArePlain s → from_utf8 (to_utf8 s) ≡ s
unfolding from_utf8 to_utf8 utf8_after utf8_from
from_utf8-to_utf8 [] p = refl
from_utf8-to_utf8 (c ∷ s) (p, nonzero, ps) =
    rw (to_utf8-plain c s p, unit_read c (to_utf8 s) p) (ap (λ x. c ∷ x) (from_utf8-to_utf8 s ps))
