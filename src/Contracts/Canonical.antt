-- ===== src/Contracts/Canonical.antt =====
-- packages/contracts/src/hash.ts: canonicalJson and canonicalHash. The engine's own text of a
-- number or a string, and its order on texts, are fields of `Host`. Left out are the keys that the
-- engine takes for array indices, which it lists before the others, and `__proto__`.
pub mod Stable
pub mod Idempotent
pub mod Copies
pub mod Reordered
use amca_core.Common.{String, true, false, ◌≡◌, ◌⊎◌, List, [], ◌∷◌, if◌then◌else◌, ◌+s◌, join}
use amca_core.Common.Outcome.{Result, ok, err, ◌>>=◌}
use amca_core.Protocol.Json.{
  Value, Items, Fields, null, bool, num, str, arr, obj, undefined, nil, cons, end, field, is_finite,
}
use amca_core.Protocol.Host.{Host}
use amca_core.Contracts.Sha256.{sha256_hex}

pub data TypeError : Type 0 where
  not_serializable : TypeError

pub record Entry : Type 0 where
  pub key : String
  pub text : String

module _ (host : Host) where
  -- `entries.sort(([left], [right]) => left.localeCompare(right))`, which is stable.
  unfoldable pub insert_entry : Entry → List Entry → List Entry
  insert_entry x [] = x ∷ []
  insert_entry x (y ∷ ys) = if host.locale_le x.key y.key then x ∷ y ∷ ys else y ∷ insert_entry x ys

  unfoldable pub sort_entries : List Entry → List Entry
  unfolding insert_entry
  sort_entries [] = []
  sort_entries (x ∷ xs) = insert_entry x (sort_entries xs)

  -- `"key":text` of each entry
  entry_texts : List Entry → List String
  entry_texts [] = []
  entry_texts (e ∷ es) = (host.string_to_json e.key +s ":" +s e.text) ∷ entry_texts es

  unfoldable pub object_text : List Entry → String
  unfolding sort_entries entry_texts
  object_text entries = "{" +s join "," (entry_texts (sort_entries entries)) +s "}"

  -- The texts of an object's values are made before the entries are sorted: the order is by the
  -- keys alone, and the sort is stable.
  unfoldable mutual
    unfolding object_text

    pub canonical_json : Value → Result TypeError String
    canonical_json null = ok "null"
    canonical_json (str s) = ok (host.string_to_json s)
    canonical_json (num n) =
        if is_finite n then ok (host.number_to_json n) else err not_serializable
    canonical_json (bool b) = ok (if b then "true" else "false")
    canonical_json (arr xs) = do texts ← serialize_items xs; ok ("[" +s join "," texts +s "]")
    canonical_json (obj fs) = do entries ← serialize_fields fs; ok (object_text entries)
    canonical_json undefined = err not_serializable

    pub serialize_items : Items → Result TypeError (List String)
    serialize_items nil = ok []
    serialize_items (cons x xs) = do
      text ← canonical_json x
      texts ← serialize_items xs
      ok (text ∷ texts)

    pub serialize_fields : Fields → Result TypeError (List Entry)
    serialize_fields end = ok []
    serialize_fields (field k v fs) = do
      text ← canonical_json v
      entries ← serialize_fields fs
      ok (record { key = k; text = text } ∷ entries)

  unfoldable pub canonical_hash : Value → Result TypeError String
  canonical_hash v = do text ← canonical_json v; ok ("sha256:" +s sha256_hex text)

  -- JSON.parse of the canonical text of a JSON value: the value, its objects with their keys in the
  -- order of that text.
  unfoldable pub insert_field : String → Value → Fields → Fields
  insert_field k v end = field k v end
  insert_field k v (field j w fs) =
      if host.locale_le k j then field k v (field j w fs) else field j w (insert_field k v fs)

  unfoldable mutual
    unfolding insert_field

    pub reparse : Value → Value
    reparse (arr xs) = arr (reparse_items xs)
    reparse (obj fs) = obj (reparse_fields fs)
    reparse null = null
    reparse (bool b) = bool b
    reparse (num n) = num n
    reparse (str s) = str s
    reparse undefined = undefined

    pub reparse_items : Items → Items
    reparse_items nil = nil
    reparse_items (cons x xs) = cons (reparse x) (reparse_items xs)

    pub reparse_fields : Fields → Fields
    reparse_fields end = end
    reparse_fields (field k v fs) = insert_field k (reparse v) (reparse_fields fs)
