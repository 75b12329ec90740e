-- ===== src/Contracts/Canonical/Copies.antt =====
-- packages/contracts/src/hash.ts: the values that canonical JSON can write, and their copies.
use amca_core.Common.{String, Bool, true, false, ◌&&◌, ◌≡◌, refl, arith}
use amca_core.Protocol.Json.{
  Value, Items, Fields, null, bool, num, str, arr, obj, undefined, nil, cons, end, field, is_finite,
}
use amca_core.Protocol.Host.{Host}
use amca_core.Contracts.Canonical.{insert_field, reparse, reparse_items, reparse_fields}

-- A value that JSON can write.
unfoldable mutual
  pub is_json : Value → Bool
  is_json null = true
  is_json (bool b) = true
  is_json (num n) = is_finite n
  is_json (str s) = true
  is_json (arr xs) = is_json_items xs
  is_json (obj fs) = is_json_fields fs
  is_json undefined = false

  pub is_json_items : Items → Bool
  is_json_items nil = true
  is_json_items (cons x xs) = is_json x && is_json_items xs

  pub is_json_fields : Fields → Bool
  is_json_fields end = true
  is_json_fields (field k v fs) = is_json v && is_json_fields fs

module _ (host : Host) where
  is_json-insert_field :
      (k : String) (v : Value) (fs : Fields)
      → is_json_fields (insert_field host k v fs) ≡ (is_json v && is_json_fields fs)
  unfolding is_json insert_field
  is_json-insert_field k v end = refl
  is_json-insert_field k v (field j w fs) = ground (arith, is_json-insert_field k v fs)

  mutual
    unfolding is_json reparse

    pub is_json-reparse : (v : Value) → is_json (reparse host v) ≡ is_json v
    is_json-reparse null = refl
    is_json-reparse (bool b) = refl
    is_json-reparse (num n) = refl
    is_json-reparse (str s) = refl
    is_json-reparse undefined = refl
    is_json-reparse (arr xs) = is_json_items-reparse xs
    is_json-reparse (obj fs) = is_json_fields-reparse fs

    is_json_items-reparse : (xs : Items) → is_json_items (reparse_items host xs) ≡ is_json_items xs
    is_json_items-reparse nil = refl
    is_json_items-reparse (cons x xs) = rw (is_json-reparse x, is_json_items-reparse xs)

    is_json_fields-reparse :
        (fs : Fields) → is_json_fields (reparse_fields host fs) ≡ is_json_fields fs
    is_json_fields-reparse end = refl
    is_json_fields-reparse (field k v fs) =
        rw (is_json-insert_field, is_json-reparse v, is_json_fields-reparse fs)
