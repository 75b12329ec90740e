-- ===== src/Contracts/Schemas.antt =====
-- packages/contracts/src/schemas.ts: the tests that the schemas are made of. A schema is the test of
-- a value that has its type; that it has the type, and no field besides, is left out.
pub mod Evidence
pub mod Effects
pub mod Preflight
pub mod Claims
pub mod Mutations
pub mod Approvals
pub mod Proofs
pub mod Payloads
use Prim.Native.Char.{code}
use Prim.Native.String
use text.Mathlib.Text.{starts_with}
use amca_core.Common.{
  ℕ, suc, String, Bool, true, false, not, ◌&&◌, ◌||◌, Option, none, some, List, [], ◌∷◌, all,
  length, leb, nat_eq, codes,
}
use amca_core.Common.Equality.{◌==◌, string_has_eq}
use amca_core.Protocol.Json.{Number, int}
use amca_core.Protocol.Effects.{SideEffectClass, read, compute}

-- `z.string().min(1)`
abbrev pub non_empty : String → Bool
non_empty s = not (s == "")

-- `.optional()`
abbrev pub optionally {ℓ} : {A : Type ℓ} → (A → Bool) → Option A → Bool
optionally test none = true
optionally test (some x) = test x

abbrev pub required {ℓ} : {A : Type ℓ} → (A → Bool) → Option A → Bool
required test none = false
required test (some x) = test x

abbrev pub is_nil {ℓ} : {A : Type ℓ} → List A → Bool
is_nil [] = true
is_nil (x ∷ xs) = false

abbrev is_hex_digit : ℕ → Bool
is_hex_digit c = (leb b'a' c && leb c b'f') || (leb b'0' c && leb c b'9')

-- Seven code points, then hexadecimal digits.
abbrev digits_after : ℕ → List ℕ → List ℕ
digits_after ℕ.zero cs = cs
digits_after (ℕ.suc n) [] = []
digits_after (ℕ.suc n) (c ∷ cs) = digits_after n cs

-- /^sha256:[a-f0-9]{64}$/
unfoldable pub is_sha256_hash : String → Bool
is_sha256_hash s =
    let digits = digits_after 7 (codes s) in
    starts_with s "sha256:" && (nat_eq (length digits) 64 && all is_hex_digit digits)

-- `z.number().int().nonnegative()` on a natural number: zod takes safe integers only.
abbrev pub max_safe_integer : ℕ
max_safe_integer = 9007199254740991

unfoldable pub is_safe_integer : ℕ → Bool
is_safe_integer n = leb n max_safe_integer

-- `.int().positive()`
unfoldable pub is_safe_positive : ℕ → Bool
unfolding is_safe_integer
is_safe_positive n = not (nat_eq n 0) && is_safe_integer n

-- `.int().nonnegative()` on any number
abbrev pub is_safe_number : Number → Bool
is_safe_number (int false n) = is_safe_integer n
is_safe_number _ = false

abbrev pub is_write_class : SideEffectClass → Bool
is_write_class read = false
is_write_class compute = false
is_write_class _ = true

-- `Date.parse(a) <= Date.parse(b)`
abbrev pub date_le : Option ℕ → Option ℕ → Bool
date_le (some a) (some b) = leb a b
date_le _ _ = false
