-- ===== src/Common/Members.antt =====
-- Members of a list that the Boolean walks find or keep.
use mathlib.Core.Path.{◌≡◌, refl, sym}
use mathlib.Core.Logic.{◌⊎◌, inl, inr}
use mathlib.Core.Bool.{Bool, true, false}
use mathlib.Core.List.{List, [], ◌∷◌, ◌++◌, Memᴰ}
use mathlib.Core.List.Memᴰ as Mem
use mathlib.Core.Option.{some}
use native.Mathlib.Omega.{arith}
use amca_core.Common.Tests.{Bool-cases, some_inj, if◌then◌else◌}
use amca_core.Common.Lists.{any, all, filter, find}

module _ {ℓ} {A : Type ℓ} where
  pub any_witness :
      (p : A → Bool) (xs : List A) → any p xs ≡ true → (x : A) × Memᴰ x xs × (p x ≡ true)
  any_witness p [] h = cc
  any_witness p (x ∷ xs) h = elim (Bool-cases (p x)) [
    | inl hit ↦ (x, Memᴰ.head refl, hit)
    | inr miss ↦ let (y, m, q) = any_witness p xs (ground arith) in (y, Memᴰ.tail m, q)
  ]

  pub filter_member :
      (p : A → Bool) (xs : List A) {x : A} → Memᴰ x (filter p xs) → Memᴰ x xs × (p x ≡ true)
  filter_member p [] m = elim m [ ]
  filter_member p (y ∷ xs) {x} m = go (λ n. filter_member p xs {x = x} n) (p y) refl m
    where
      go :
          (ih : Memᴰ x (filter p xs) → Memᴰ x xs × (p x ≡ true)) (b : Bool)
          → p y ≡ b
          → Memᴰ x (if b then y ∷ filter p xs else filter p xs)
          → Memᴰ x (y ∷ xs) × (p x ≡ true)
      go ih true e (Memᴰ.head h) = (Memᴰ.head h, rw h e)
      go ih true e (Memᴰ.tail n) = let (k, q) = ih n in (Memᴰ.tail k, q)
      go ih false e n = let (k, q) = ih n in (Memᴰ.tail k, q)

  pub all_member : (p : A → Bool) (xs : List A) {x : A} → all p xs ≡ true → Memᴰ x xs → p x ≡ true
  all_member p [] h m = elim m [ ]
  all_member p (y ∷ xs) h (Memᴰ.head e) = rw e (ground arith)
  all_member p (y ∷ xs) h (Memᴰ.tail m) = all_member p xs (ground arith) m

  pub snoc_cases : (xs : List A) {x y : A} → Memᴰ x (xs ++ y ∷ []) → Memᴰ x xs ⊎ (x ≡ y)
  snoc_cases xs m = elim (Mem.append_cases xs m) [
    | inl old ↦ inl old
    | inr (Memᴰ.head e) ↦ inr e
    | inr (Memᴰ.tail n) ↦ elim n [ ]
  ]

  pub find_witness :
      (p : A → Bool) (xs : List A) {x : A} → find p xs ≡ some x → Memᴰ x xs × (p x ≡ true)
  find_witness p [] h = cc
  find_witness p (y ∷ xs) {x} h = elim (Bool-cases (p y)) [
    | inl hit ↦ let e : y ≡ x = some_inj (rw hit at h) in (Memᴰ.head (sym e), rw (sym e) hit)
    | inr miss ↦ let (m, q) = find_witness p xs (ground (arith, h)) in (Memᴰ.tail m, q)
  ]

  pub none_member :
      (p : A → Bool) (xs : List A) {x : A} → any p xs ≡ false → Memᴰ x xs → p x ≡ false
  none_member p [] h m = elim m [ ]
  none_member p (y ∷ xs) h (Memᴰ.head e) = rw e (ground arith)
  none_member p (y ∷ xs) h (Memᴰ.tail m) = none_member p xs (ground arith) m

  pub all_from_members :
      (p : A → Bool) (xs : List A) → ((x : A) → Memᴰ x xs → p x ≡ true) → all p xs ≡ true
  all_from_members p [] h = refl
  all_from_members p (y ∷ xs) h =
      let first = h y (Memᴰ.head refl) in
      let rest = all_from_members p xs (λ x m. h x (Memᴰ.tail m)) in ground (arith, first, rest)
