-- ===== src/Prelude/Keys.antt =====
-- Equality tests on keys, by instances: numbers, texts (their character codes) and byte strings.
use Prim.Native.Nat.{ℕ}
use mathlib.Core.Path.{◌≡◌, refl}
use mathlib.Core.Logic.{◌↔◌}
use mathlib.Core.Bool.{Bool, true, false, ◌&&◌}
use mathlib.Core.List.{List, [], ◌∷◌}
use native.Mathlib.Omega.{arith}
use diamond_dev_tools.Prelude.Tests.{nat_beq, nat_beq_iff}

-- What a comparison of keys computes, and what it means.
pub record Eq {ℓ} (Key : Type ℓ) : Type ℓ where
  pub equals : (left right : Key) → Bool
  pub equals_iff : (left right : Key) → (equals left right ≡ true) ↔ (left ≡ right)

module _ {ℓ} {Key : Type ℓ} ⦃eq : Eq Key⦄ where
  infix 50 ◌==◌
  abbrev pub ◌==◌ : (left right : Key) → Bool
  left == right = eq.equals left right

  pub ==_iff : (left right : Key) → ((left == right) ≡ true) ↔ (left ≡ right)
  ==_iff left right = eq.equals_iff left right

  pub ==-refl : (key : Key) → (key == key) ≡ true
  ==-refl key = (eq.equals_iff key key).1 refl

instance abbrev pub nat_eq : Eq ℕ
nat_eq = record { equals = nat_beq; equals_iff = nat_beq_iff }

-- A text is the list of its character codes, a buffer the list of its bytes.
abbrev pub Text : Type 0
Text = List ℕ

abbrev pub Buffer : Type 0
Buffer = List ℕ

unfoldable pub list_beq : List ℕ → List ℕ → Bool
list_beq [] [] = true
list_beq (x ∷ xs) (y ∷ ys) = nat_beq x y && list_beq xs ys
list_beq _ _ = false

pub list_beq_iff : (xs ys : List ℕ) → (list_beq xs ys ≡ true) ↔ (xs ≡ ys)
unfolding list_beq
list_beq_iff [] [] = (λ _. refl, λ _. refl)
list_beq_iff [] (y ∷ ys) = (λ e. cc, λ e. cc)
list_beq_iff (x ∷ xs) [] = (λ e. cc, λ e. cc)
list_beq_iff (x ∷ xs) (y ∷ ys) = ground (arith, list_beq_iff xs ys)

instance abbrev pub list_eq : Eq (List ℕ)
list_eq = record { equals = list_beq; equals_iff = list_beq_iff }
