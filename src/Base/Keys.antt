-- ===== src/Base/Keys.antt =====
-- Equality of keys as an interface: numbers, and names as the code points of their characters.
use Prim.Native.Nat.{ℕ}
use mathlib.Core.Path.{◌≡◌, refl}
use mathlib.Core.Logic.{◌↔◌}
use mathlib.Core.Bool.{Bool, true, false, ◌&&◌}
use mathlib.Core.List.{List, [], ◌∷◌}
use native.Mathlib.Omega.{arith}
use mavlink_router_rs.Base.Tests.{◌==◌, ==_iff}

pub record Eq {ℓ} (A : Type ℓ) : Type ℓ where
  pub beq : A → A → Bool
  pub beq_iff : (a b : A) → (beq a b ≡ true) ↔ (a ≡ b)

-- A `str` is the list of its characters, as code points.
abbrev pub Name : Type 0
Name = List ℕ

unfoldable pub name_eq : Name → Name → Bool
name_eq [] [] = true
name_eq (a ∷ as') (b ∷ bs) = (a == b) && name_eq as' bs
name_eq _ _ = false

name_eq→eq : (a b : Name) → name_eq a b ≡ true → a ≡ b
unfolding name_eq
name_eq→eq [] [] h = refl
name_eq→eq [] (b ∷ bs) h = cc
name_eq→eq (a ∷ as') [] h = cc
name_eq→eq (a ∷ as') (b ∷ bs) h = ground (arith, name_eq→eq as' bs)

name_eq_refl : (a : Name) → name_eq a a ≡ true
unfolding name_eq
name_eq_refl [] = refl
name_eq_refl (a ∷ as') = ground (arith, name_eq_refl as')

eq→name_eq : (a b : Name) → a ≡ b → name_eq a b ≡ true
eq→name_eq a b h = rw h (name_eq_refl b)

pub name_eq_iff : (a b : Name) → (name_eq a b ≡ true) ↔ (a ≡ b)
name_eq_iff a b = (name_eq→eq a b, eq→name_eq a b)

instance abbrev pub nat_eq : Eq ℕ
nat_eq = record { beq = ◌==◌; beq_iff = ==_iff }

instance abbrev pub name_key : Eq Name
name_key = record { beq = name_eq; beq_iff = name_eq_iff }
