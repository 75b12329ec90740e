-- ===== src/Common/Outcome.antt =====
-- Code that throws: a value or the error that was thrown.
use mathlib.Core.Path.{◌≡◌, refl}
use mathlib.Core.Bool.{Bool, true, false}
use mathlib.Core.Logic.{◌⊎◌, inl, inr}
use mathlib.Core.List.{List, [], ◌∷◌, ◌++◌}

pub data Result {ℓ κ} (E : Type ℓ) (A : Type κ) : Type (ℓ ⊔ κ) where
  ok : A → Result E A
  err : E → Result E A

module _ {E : Type 0} where
  infixl 5 ◌>>=◌ ◌>>◌
  abbrev pub ◌>>=◌ : {A B : Type 0} → Result E A → (A → Result E B) → Result E B
  ok a >>= f = f a
  err e >>= f = err e

  abbrev pub ◌>>◌ : {B : Type 0} → Result E (Unit {0}) → Result E B → Result E B
  m >> k = m >>= λ _. k

  -- `if (test) throw new Error(code)`
  abbrev pub throw_if : Bool → E → Result E (Unit {0})
  throw_if true e = err e
  throw_if false e = ok tt

  -- Inversion of a successful bind, for proofs where the parts stay shut.
  pub bind-eq-ok :
      {A B : Type 0} (m : Result E A) (f : A → Result E B) {b : B}
      → (m >>= f) ≡ ok b
      → (a : A) × (m ≡ ok a) × (f a ≡ ok b)
  bind-eq-ok (ok a) f h = (a, refl, h)
  bind-eq-ok (err e) f h = cc

  pub throw_if-eq-ok :
      {B : Type 0} (b : Bool) (e : E) (k : Result E B) {x : B}
      → (throw_if b e >> k) ≡ ok x
      → (b ≡ false) × (k ≡ ok x)
  throw_if-eq-ok true e k h = cc
  throw_if-eq-ok false e k h = (refl, h)

  pub ok_inj : {A : Type 0} {a b : A} → ◌≡◌ {A = Result E A} (ok a) (ok b) → a ≡ b
  ok_inj h = cc

  pub then_assoc :
      {B : Type 0} (m n : Result E (Unit {0})) (k : Result E B) → (m >> (n >> k)) ≡ ((m >> n) >> k)
  then_assoc (ok a) n k = refl
  then_assoc (err e) n k = refl

  pub then_done : (m : Result E (Unit {0})) → (m >> ok tt) ≡ m
  then_done (ok a) = refl
  then_done (err e) = refl

  pub regroup :
      {A : Type 0} (m : Result E A) (ms : Result E (List A)) (last : Result E A)
      → (do a ← m; after ← (do rest ← ms; z ← last; ok (rest ++ z ∷ [])); ok (a ∷ after))
        ≡ (do all ← (do a ← m; rest ← ms; ok (a ∷ rest)); z ← last; ok (all ++ z ∷ []))
  regroup (ok a) (ok rest) (ok z) = refl
  regroup (ok a) (ok rest) (err e) = refl
  regroup (ok a) (err e) last = refl
  regroup (err e) ms last = refl

  pub Result-cases :
      {A : Type 0} (r : Result E A) → ((a : A) × (r ≡ ok a)) ⊎ ((e : E) × (r ≡ err e))
  Result-cases (ok a) = inl (a, refl)
  Result-cases (err e) = inr (e, refl)
