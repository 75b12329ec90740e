-- ===== src/Contracts/Canonical/Stable.antt =====
-- packages/contracts/src/hash.ts: the sort of an object's entries, and the canonical text of a value
-- that was read back.
use amca_core.Common.{String, true, ◌≡◌, refl, List, [], ◌∷◌, arith}
use amca_core.Common.Outcome.{Result, ok, err, ◌>>=◌}
use amca_core.Protocol.Json.{
  Value, Items, Fields, null, bool, num, str, arr, obj, undefined, nil, cons, end, field,
}
use amca_core.Protocol.Host.{Host}
use amca_core.Contracts.Canonical.{
  TypeError, Entry, object_text, insert_entry, sort_entries, canonical_json, serialize_items,
  serialize_fields, canonical_hash, insert_field, reparse, reparse_items, reparse_fields,
}

module _ (host : Host) where
  -- Each entry's key comes no later than the next one's.
  abbrev IsSorted : List Entry → Type 0
  IsSorted [] = Unit
  IsSorted (x ∷ []) = Unit
  IsSorted (x ∷ y ∷ ys) = (host.locale_le x.key y.key ≡ true) × IsSorted (y ∷ ys)

  insert_entry-IsSorted :
      (x : Entry) (ys : List Entry) → IsSorted ys → IsSorted (insert_entry host x ys)
  unfolding insert_entry
  insert_entry-IsSorted x [] h = tt
  insert_entry-IsSorted x (y ∷ []) h = ground (arith, host.locale_total x.key y.key)
  insert_entry-IsSorted x (y ∷ z ∷ zs) h =
      ground (arith, host.locale_total x.key y.key, insert_entry-IsSorted x (z ∷ zs))

  sort_entries-IsSorted : (es : List Entry) → IsSorted (sort_entries host es)
  unfolding sort_entries
  sort_entries-IsSorted [] = tt
  sort_entries-IsSorted (x ∷ xs) =
      insert_entry-IsSorted x (sort_entries host xs) (sort_entries-IsSorted xs)

  sort_entries-eq_of_IsSorted : (es : List Entry) → IsSorted es → sort_entries host es ≡ es
  unfolding sort_entries insert_entry
  sort_entries-eq_of_IsSorted [] h = refl
  sort_entries-eq_of_IsSorted (x ∷ []) h = refl
  sort_entries-eq_of_IsSorted (x ∷ y ∷ ys) h =
      rw (sort_entries-eq_of_IsSorted (y ∷ ys) h.1) (rw h.0 refl)

  pub sort_entries_idem :
      (es : List Entry) → sort_entries host (sort_entries host es) ≡ sort_entries host es
  sort_entries_idem es =
      sort_entries-eq_of_IsSorted (sort_entries host es) (sort_entries-IsSorted es)

  -- Sorting the fields sorts the entries made from them.
  serialize-insert_field :
      (k : String) (v : Value) (fs : Fields)
      → serialize_fields host (insert_field host k v fs) ≡ (do
        text ← canonical_json host v
        entries ← serialize_fields host fs
        ok (insert_entry host (record { key = k; text = text }) entries))
  unfolding insert_field canonical_json insert_entry
  serialize-insert_field k v end = ground arith
  serialize-insert_field k v (field j w fs) = ground (arith, serialize-insert_field k v fs)

  pub text_of_sorted :
      (r : Result TypeError (List Entry))
      → (do entries ← r >>= λ es. ok (sort_entries host es); ok (object_text host entries))
        ≡ (do entries ← r; ok (object_text host entries))
  unfolding object_text
  text_of_sorted (ok es) = rw sort_entries_idem
  text_of_sorted (err e) = refl

  pub sort_of_cons :
      (k : String) (r : Result TypeError String) (m : Result TypeError (List Entry))
      → (do
        text ← r
        entries ← m >>= λ es. ok (sort_entries host es)
        ok (insert_entry host (record { key = k; text = text }) entries))
        ≡ (do
          entries ← (do text ← r; entries ← m; ok (record { key = k; text = text } ∷ entries))
          ok (sort_entries host entries))
  unfolding sort_entries
  sort_of_cons k (ok text) (ok es) = refl
  sort_of_cons k (ok text) (err e) = refl
  sort_of_cons k (err e) m = refl

  mutual
    unfolding reparse canonical_json

    json-reparse : (v : Value) → canonical_json host (reparse host v) ≡ canonical_json host v
    json-reparse null = refl
    json-reparse (bool b) = refl
    json-reparse (num n) = refl
    json-reparse (str s) = refl
    json-reparse undefined = refl
    json-reparse (arr xs) = rw (items-reparse xs)
    json-reparse (obj fs) = rw (fields-reparse fs) (text_of_sorted (serialize_fields host fs))

    items-reparse :
        (xs : Items) → serialize_items host (reparse_items host xs) ≡ serialize_items host xs
    items-reparse nil = refl
    items-reparse (cons x xs) = rw (json-reparse x, items-reparse xs)

    fields-reparse :
        (fs : Fields)
        → serialize_fields host (reparse_fields host fs)
          ≡ (do entries ← serialize_fields host fs; ok (sort_entries host entries))
    fields-reparse end = refl
    fields-reparse (field k v fs) =
        rw (serialize-insert_field, json-reparse v, fields-reparse fs)
          (sort_of_cons k (canonical_json host v) (serialize_fields host fs))

  -- A value read back from its canonical text has the canonical result of the value: the same text,
  -- or the same error.
  pub canonical_json-reparse :
      (v : Value) → canonical_json host (reparse host v) ≡ canonical_json host v
  canonical_json-reparse v = json-reparse v

  pub canonical_hash-reparse :
      (v : Value) → canonical_hash host (reparse host v) ≡ canonical_hash host v
  unfolding canonical_hash
  canonical_hash-reparse v = rw canonical_json-reparse
