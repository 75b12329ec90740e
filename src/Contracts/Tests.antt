-- ===== src/Contracts/Tests.antt =====
-- SHA-256 of a known text, and the laws of hashing and of canonical JSON at small inputs.
use amca_core.Common.{◌+◌, ◌%◌, ◌≤◌, ◌<◌, ◌≡◌, refl, true, [], ◌∷◌, ◌++◌, arith}
use amca_core.Protocol.Json.{Value, bool, num, obj, field, end, nat}
use amca_core.Protocol.Samples.{engine}
use amca_core.Contracts.Sha256.{sha256_hex}
use amca_core.Contracts.Sha256.Padding.{
  pad, padded_sha256_length, uint64_big_endian, big_endian_value, padded_sha256_length_lem,
  zero_bytes, pad_layout, uint64_round_trip,
}
use amca_core.Contracts.Canonical.{canonical_json, reparse}
use amca_core.Contracts.Canonical.Stable.{canonical_json-reparse}
use amca_core.Contracts.Canonical.Reordered.{
  LocaleIsTransitive, Reordered, objects, keep, swap, no_fields, canonical_json-Reordered,
}

sha256_hex_abc :
    sha256_hex "abc" ≡ "ba7816bf8f01cfea414140de5dae2223b00361a396177a9cb410ff61f20015ad"
unfolding sha256_hex
sha256_hex_abc = refl

-- An object with its keys out of order.
abbrev unsorted : Value
unsorted = obj (field "b" (num (nat 2)) (field "a" (bool true) end))

padded_sha256_length_lem_example :
    (padded_sha256_length 3 % 64 ≡ 0)
    × (3 + 9 ≤ padded_sha256_length 3)
    × (padded_sha256_length 3 < 3 + 9 + 64)
padded_sha256_length_lem_example = padded_sha256_length_lem 3

pad_layout_example :
    pad (97 ∷ 98 ∷ 99 ∷ []) ≡ 97 ∷ 98 ∷ 99 ∷ 0x80 ∷ (zero_bytes 3 ++ uint64_big_endian 24)
pad_layout_example = pad_layout (97 ∷ 98 ∷ 99 ∷ [])

uint64_round_trip_example : big_endian_value 0 (uint64_big_endian 4294967320) ≡ 4294967320
uint64_round_trip_example = uint64_round_trip 4294967320 (omega arith)

canonical_json-reparse_example :
    canonical_json engine (reparse engine unsorted) ≡ canonical_json engine unsorted
canonical_json-reparse_example = canonical_json-reparse engine unsorted

-- The object with its keys in order, in a field of another object.
abbrev nested : Value → Value
nested v = obj (field "c" v end)

abbrev in_order : Value
in_order = obj (field "a" (bool true) (field "b" (num (nat 2)) end))

engine-LocaleIsTransitive : LocaleIsTransitive engine
engine-LocaleIsTransitive k j i h g = ground arith

unsorted-Reordered : Reordered engine (nested unsorted) (nested in_order)
unsorted-Reordered =
    objects (keep "c" (objects (swap "b" "a" (num (nat 2)) (bool true) end refl)) no_fields)

canonical_json-Reordered_example :
    canonical_json engine (nested unsorted) ≡ canonical_json engine (nested in_order)
canonical_json-Reordered_example =
    canonical_json-Reordered engine engine-LocaleIsTransitive (nested unsorted) (nested in_order)
      unsorted-Reordered
