-- ===== src/Contracts/Json.antt =====
-- Objects as JSON values: the fields that may be absent, and arrays.
pub mod Evidence
pub mod Effects
pub mod Preflight
pub mod Claims
pub mod Mutations
pub mod Approvals
pub mod Proofs
pub mod Payloads
use amca_core.Common.{String, Option, none, some, List, [], ◌∷◌}
use amca_core.Protocol.Json.{Value, Items, Fields, arr, nil, cons, field}

-- `...(value === undefined ? {} : { key: value })`
abbrev pub optional {ℓ} : {A : Type ℓ} → (A → Value) → String → Option A → Fields → Fields
optional read key none rest = rest
optional read key (some x) rest = field key (read x) rest

abbrev items_json {ℓ} : {A : Type ℓ} → (A → Value) → List A → Items
items_json read [] = nil
items_json read (x ∷ xs) = cons (read x) (items_json read xs)

abbrev pub list_json {ℓ} : {A : Type ℓ} → (A → Value) → List A → Value
list_json read xs = arr (items_json read xs)
