-- ===== src/Common/Map.antt =====
-- Finite maps by key, as the program uses QMap and std::unordered_map: a list of pairs in which a
-- key is found from the front. A new key goes before the first greater one, as in a QMap.
use Prim.Native.Nat.{ℕ}
use mathlib.Core.Path.{◌≡◌, refl}
use mathlib.Core.Logic.{◌↔◌, inl, inr}
use mathlib.Core.Bool.{Bool, true, false, ◌&&◌}
use mathlib.Core.Option.{Option, none, some}
use mathlib.Core.List.{List, [], ◌∷◌}
use native.Mathlib.Omega.{arith}
use zpserver.Common.Tests.{Bool-cases, ltb, ◌==◌, if◌then◌else◌}

-- Keys with an equality and an order.
pub record Key (K : Type 0) : Type 0 where
  pub same : K → K → Bool
  pub before : K → K → Bool
  pub same_iff : (a b : K) → (same a b ≡ true) ↔ (a ≡ b)

-- A QString: its QChars, the 16-bit units of UTF-16.
abbrev pub Text : Type 0
Text = List ℕ

unfoldable pub text_same : Text → Text → Bool
text_same [] [] = true
text_same [] (b ∷ ys) = false
text_same (a ∷ xs) [] = false
text_same (a ∷ xs) (b ∷ ys) = (a == b) && text_same xs ys

-- operator< of QString
unfoldable pub text_before : Text → Text → Bool
text_before xs [] = false
text_before [] (b ∷ ys) = true
text_before (a ∷ xs) (b ∷ ys) =
    if ltb a b then true else if a == b then text_before xs ys else false

text_same_to : (a b : Text) → text_same a b ≡ true → a ≡ b
unfolding text_same
text_same_to [] [] h = refl
text_same_to [] (b ∷ ys) h = cc
text_same_to (a ∷ xs) [] h = cc
text_same_to (a ∷ xs) (b ∷ ys) h = ground (arith, text_same_to xs ys)

text_same_refl : (a : Text) → text_same a a ≡ true
unfolding text_same
text_same_refl [] = refl
text_same_refl (a ∷ xs) = ground (arith, text_same_refl xs)

pub text_same_iff : (a b : Text) → (text_same a b ≡ true) ↔ (a ≡ b)
text_same_iff a b = (text_same_to a b, λ e. rw e (text_same_refl b))

pub nat_same_iff : (a b : ℕ) → ((a == b) ≡ true) ↔ (a ≡ b)
nat_same_iff a b = ground arith

instance abbrev pub nat_key : Key ℕ
nat_key = record { same = ◌==◌; before = ltb; same_iff = nat_same_iff }

instance abbrev pub text_key : Key Text
text_key = record { same = text_same; before = text_before; same_iff = text_same_iff }

pub same_refl : {K : Type 0} ⦃key : Key K⦄ (k : K) → key.same k k ≡ true
same_refl ⦃key⦄ k = (key.same_iff k k).1 refl

module _ {K V : Type 0} ⦃key : Key K⦄ where
  unfoldable pub lookup : K → List (K × V) → Option V
  lookup k [] = none
  lookup k ((j, v) ∷ m) = if key.same j k then some v else lookup k m

  unfoldable pub insert : K → V → List (K × V) → List (K × V)
  insert k v [] = (k, v) ∷ []
  insert k v ((j, w) ∷ m) =
      if key.same j k
      then (k, v) ∷ m
      else if key.before k j
      then (k, v) ∷ (j, w) ∷ m
      else (j, w) ∷ insert k v m

  unfoldable pub remove : K → List (K × V) → List (K × V)
  remove k [] = []
  remove k ((j, w) ∷ m) = let rest = remove k m in if key.same j k then rest else (j, w) ∷ rest

  unfoldable pub contains : K → List (K × V) → Bool
  contains k [] = false
  contains k ((j, v) ∷ m) = if key.same j k then true else contains k m

  pub lookup-insert :
      (k j : K) (v : V) (m : List (K × V))
      → lookup j (insert k v m) ≡ (if key.same k j then some v else lookup j m)
  unfolding lookup insert
  lookup-insert k j v [] = refl
  lookup-insert k j v ((i, w) ∷ m) =
      ground (arith, key.same_iff k j, key.same_iff i k, key.same_iff i j, lookup-insert k j v m)

  pub lookup-remove :
      (k j : K) (m : List (K × V))
      → lookup j (remove k m) ≡ (if key.same k j then none else lookup j m)
  unfolding lookup remove
  lookup-remove k j [] = ground arith
  lookup-remove k j ((i, w) ∷ m) =
      ground (arith, key.same_iff k j, key.same_iff i k, key.same_iff i j, lookup-remove k j m)

  pub contains-none : (k : K) (m : List (K × V)) → contains k m ≡ false → lookup k m ≡ none
  unfolding lookup contains
  contains-none k [] h = refl
  contains-none k ((j, v) ∷ m) h = ground (arith, contains-none k m)

  pub contains-some :
      (k : K) (m : List (K × V)) → contains k m ≡ true → (v : V) × (lookup k m ≡ some v)
  unfolding lookup contains
  contains-some k [] h = cc
  contains-some k ((j, v) ∷ m) h = elim (Bool-cases (key.same j k)) [
    | inl e ↦ (v, rw e)
    | inr e ↦ let (w, p) = contains-some k m (ground arith) in (w, rw e p)
  ]
