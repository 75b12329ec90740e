-- ===== src/Common/Equality.antt =====
-- `===` of the source: one operator for every type that is compared.
use Prim.Native.Nat.{ℕ}
use Prim.Native.String.{String}
use mathlib.Core.Path.{◌≡◌, refl, ap}
use mathlib.Core.Logic.{◌↔◌}
use mathlib.Core.Bool.{Bool, true, false}
use mathlib.Core.Option.{Option, none, some}
use text.Mathlib.Text.{◌==◌ as text_eq}
use text.Mathlib.TextEquality.{eq_iff}
use amca_core.Common.Tests.{nat_eq, nat_eq_iff}

pub record Eq {ℓ} (T : Type ℓ) : Type ℓ where
  pub beq : T → T → Bool
  pub beq_iff : (x y : T) → (beq x y ≡ true) ↔ (x ≡ y)

abbrev pub str_eq : String → String → Bool
str_eq s t = text_eq s t

pub str_eq_iff : (s t : String) → (str_eq s t ≡ true) ↔ (s ≡ t)
str_eq_iff s t = eq_iff s t

infix 50 ◌==◌
abbrev pub ◌==◌ {ℓ} : {T : Type ℓ} ⦃eq : Eq T⦄ → T → T → Bool
◌==◌ ⦃eq⦄ = eq.beq

instance abbrev pub nat_has_eq : Eq ℕ
nat_has_eq = record { beq = nat_eq; beq_iff = nat_eq_iff }

instance abbrev pub string_has_eq : Eq String
string_has_eq = record { beq = str_eq; beq_iff = str_eq_iff }

-- An optional field: `undefined` equals only `undefined`.
module _ {ℓ} {A : Type ℓ} ⦃e : Eq A⦄ where
  abbrev pub option_eq : Option A → Option A → Bool
  option_eq none none = true
  option_eq (some a) (some b) = e.beq a b
  option_eq _ _ = false

  pub option_eq_iff : (a b : Option A) → (option_eq a b ≡ true) ↔ (a ≡ b)
  option_eq_iff none none = (λ _. refl, λ _. refl)
  option_eq_iff none (some b) = (λ h. cc, λ h. cc)
  option_eq_iff (some a) none = (λ h. cc, λ h. cc)
  option_eq_iff (some a) (some b) =
      (λ h. ap some ((e.beq_iff a b).0 h), λ h. (e.beq_iff a b).1 (cc))

  instance abbrev pub option_has_eq : Eq (Option A)
  option_has_eq = record { beq = option_eq; beq_iff = option_eq_iff }

-- An enumeration is compared by the number of its constructor.
pub by_tag_iff {ℓ} :
    {A : Type ℓ} (tag : A → ℕ) (injective : (a b : A) → tag a ≡ tag b → a ≡ b) (a b : A)
    → (nat_eq (tag a) (tag b) ≡ true) ↔ (a ≡ b)
by_tag_iff tag injective a b = (
  λ h. injective a b ((nat_eq_iff (tag a) (tag b)).0 h),
  λ h. (nat_eq_iff (tag a) (tag b)).1 (ap tag h),
)
