-- ===== src/Protocol/Json.antt =====
-- packages/protocol/src/shared.ts: JSON values. A value here may also be one that is no JSON
-- (`unknown` in the source): it may hold a number that is not finite, or `undefined`. Functions,
-- symbols, bigints, sparse arrays and class instances are left out.
use amca_core.Common.{
  ℕ, String, Bool, true, false, Option, none, some, if◌then◌else◌, ◌&&◌, ◌≡◌, nat_eq, leb, ◌*◌, ◌^◌,
  arith,
}
use amca_core.Common.Equality.{◌==◌, string_has_eq}

-- A number of JavaScript. `int s n` is an integer, negative if `s`; `frac s n k` is the finite
-- double ± n / 2 ^ k that is no integer (n odd, 0 < k). Each finite double but -0 has one spelling.
pub data Number : Type 0 where
  int : Bool → ℕ → Number
  frac : Bool → ℕ → ℕ → Number
  nan : Number
  infinity : Bool → Number

abbrev pub nat : ℕ → Number
nat n = int false n

abbrev pub bool_eq : Bool → Bool → Bool
bool_eq true b = b
bool_eq false true = false
bool_eq false false = true

-- `===` on numbers: NaN equals nothing.
abbrev pub number_eq : Number → Number → Bool
number_eq (int s n) (int t m) = bool_eq s t && nat_eq n m
number_eq (frac s n k) (frac t m j) = bool_eq s t && (nat_eq n m && nat_eq k j)
number_eq (infinity s) (infinity t) = bool_eq s t
number_eq _ _ = false

pub number_eq-eq : (a b : Number) → number_eq a b ≡ true → a ≡ b
number_eq-eq a b h = ground arith

-- Whether ± n / 2 ^ k is at most ± m / 2 ^ j.
abbrev binary_le : Bool → ℕ → ℕ → Bool → ℕ → ℕ → Bool
binary_le true n k true m j = leb (m * 2 ^ k) (n * 2 ^ j)
binary_le true n k false m j = true
binary_le false n k true m j = nat_eq n 0 && nat_eq m 0
binary_le false n k false m j = leb (n * 2 ^ j) (m * 2 ^ k)

-- Whether `left - right` is not positive; NaN is not positive.
abbrev pub number_le : Number → Number → Bool
number_le (int s n) (int t m) = binary_le s n 0 t m 0
number_le (int s n) (frac t m j) = binary_le s n 0 t m j
number_le (frac s n k) (int t m) = binary_le s n k t m 0
number_le (frac s n k) (frac t m j) = binary_le s n k t m j
number_le (infinity false) (infinity true) = false
number_le (infinity false) (int t m) = false
number_le (infinity false) (frac t m j) = false
number_le (int s n) (infinity true) = false
number_le (frac s n k) (infinity true) = false
number_le _ _ = true

-- Number.isFinite
abbrev pub is_finite : Number → Bool
is_finite nan = false
is_finite (infinity s) = false
is_finite _ = true

-- Number.isInteger(value) && value >= 1
abbrev pub is_positive_integer : Number → Bool
is_positive_integer (int false (ℕ.suc n)) = true
is_positive_integer _ = false

mutual
  pub data Value : Type 0 where
    null : Value
    bool : Bool → Value
    num : Number → Value
    str : String → Value
    arr : Items → Value
    obj : Fields → Value
    undefined : Value

  pub data Items : Type 0 where
    nil : Items
    cons : Value → Items → Items

  pub data Fields : Type 0 where
    end : Fields
    field : String → Value → Fields → Fields

-- `record[key]`: `none` is `undefined`.
abbrev pub get_field : Fields → String → Option Value
get_field end key = none
get_field (field k v rest) key = if k == key then some v else get_field rest key
