-- ===== src/Base/Equality.antt =====
-- Python's `==` as an interface: numbers (UUIDs, times) and native strings.
use Prim.Native.Nat.{ℕ}
use Prim.Native.String.{String}
use mathlib.Core.Path.{◌≡◌, refl}
use mathlib.Core.Logic.{◌≢◌, ◌↔◌}
use mathlib.Core.Bool.{Bool, true, false}
use text.Mathlib.Text.{◌==◌ as str_eq}
use text.Mathlib.TextEquality.{eq_iff}
use native.Mathlib.Omega.{arith}
use schedora.Base.Tests.{nat_beq, nat_beq_iff}

pub record Comparable {ℓ} (A : Type ℓ) : Type ℓ where
  pub equal : A → A → Bool
  pub equal_iff : (x y : A) → (equal x y ≡ true) ↔ (x ≡ y)

instance abbrev pub nat_eq : Comparable ℕ
nat_eq = record { equal = nat_beq; equal_iff = nat_beq_iff }

instance abbrev pub string_eq : Comparable String
string_eq = record { equal = str_eq; equal_iff = eq_iff }

infix 50 ◌==◌
abbrev pub ◌==◌ {ℓ} : {T : Type ℓ} ⦃e : Comparable T⦄ → T → T → Bool
◌==◌ ⦃e⦄ x y = e.equal x y

module _ {ℓ} {A : Type ℓ} ⦃e : Comparable A⦄ where
  pub eq→≡ : (a b : A) → a == b ≡ true → a ≡ b
  eq→≡ a b h = (e.equal_iff a b).0 h

  pub ≡→eq : (a b : A) → a ≡ b → a == b ≡ true
  ≡→eq a b h = (e.equal_iff a b).1 h

  pub eq_self : (a : A) → a == a ≡ true
  eq_self a = (e.equal_iff a a).1 refl

  pub ne→eq_false : (a b : A) → a ≢ b → a == b ≡ false
  ne→eq_false a b h = ground (arith, e.equal_iff a b)
