-- ===== src/Contracts/Canonical/Reordered.antt =====
-- packages/contracts/src/hash.ts: objects whose keys were written in another order.
use amca_core.Common.{String, true, false, ◌&&◌, ◌≡◌, refl, sym, ap, ◌∙◌, List, [], ◌∷◌, arith}
use amca_core.Common.Outcome.{Result, ok, err, ◌>>=◌}
use amca_core.Protocol.Json.{Value, Items, Fields, arr, obj, nil, cons, end, field}
use amca_core.Protocol.Host.{Host}
use amca_core.Contracts.Canonical.{
  TypeError, not_serializable, Entry, object_text, insert_entry, sort_entries, canonical_json,
  serialize_items, serialize_fields,
}
use amca_core.Contracts.Canonical.Stable.{text_of_sorted, sort_of_cons}

module _ (host : Host) where
  -- Texts that localeCompare tells apart.
  abbrev pub IsUntied : String → String → Type 0
  IsUntied k j = (host.locale_le k j && host.locale_le j k) ≡ false

  -- localeCompare is an order.
  abbrev pub LocaleIsTransitive : Type 0
  LocaleIsTransitive =
      (k j i : String)
      → host.locale_le k j ≡ true
      → host.locale_le j i ≡ true
      → host.locale_le k i ≡ true

  mutual
    -- Values that differ in the order of the fields of their objects, at any depth.
    pub data Reordered : Value → Value → Type 0 where
      same : (v : Value) → Reordered v v
      arrays : {xs ys : Items} → ReorderedItems xs ys → Reordered (arr xs) (arr ys)
      objects : {fs gs : Fields} → ReorderedFields fs gs → Reordered (obj fs) (obj gs)

    pub data ReorderedItems : Items → Items → Type 0 where
      no_items : ReorderedItems nil nil
      items :
          {v w : Value} {xs ys : Items}
          → Reordered v w
          → ReorderedItems xs ys
          → ReorderedItems (cons v xs) (cons w ys)

    pub data ReorderedFields : Fields → Fields → Type 0 where
      no_fields : ReorderedFields end end
      keep :
          {v w : Value} {fs gs : Fields} (k : String)
          → Reordered v w
          → ReorderedFields fs gs
          → ReorderedFields (field k v fs) (field k w gs)
      swap :
          (k j : String) (v w : Value) (fs : Fields)
          → IsUntied k j
          → ReorderedFields (field k v (field j w fs)) (field j w (field k v fs))
      steps :
          {fs gs hs : Fields}
          → ReorderedFields fs gs
          → ReorderedFields gs hs
          → ReorderedFields fs hs

  -- The result with its entries sorted.
  abbrev sorted : Result TypeError (List Entry) → Result TypeError (List Entry)
  sorted m = m >>= λ es. ok (sort_entries host es)

  module _ (le_trans : LocaleIsTransitive) where
    insert_entry_comm :
        (x y : Entry) (es : List Entry)
        → IsUntied x.key y.key
        → insert_entry host x (insert_entry host y es)
          ≡ insert_entry host y (insert_entry host x es)
    unfolding insert_entry
    insert_entry_comm x y [] h = ground (arith, host.locale_total x.key y.key)
    insert_entry_comm x y (z ∷ zs) h = ground (
      arith,
      host.locale_total x.key y.key,
      le_trans x.key y.key z.key,
      le_trans y.key x.key z.key,
      insert_entry_comm x y zs h,
    )

    sorted_swap :
        (k j : String) (r q : Result TypeError String) (m : Result TypeError (List Entry))
        → IsUntied k j
        → sorted (do
          text ← r
          es ← (do text ← q; es ← m; ok (record { key = j; text = text } ∷ es))
          ok (record { key = k; text = text } ∷ es))
          ≡ sorted (do
            text ← q
            es ← (do text ← r; es ← m; ok (record { key = k; text = text } ∷ es))
            ok (record { key = j; text = text } ∷ es))
    unfolding sort_entries
    sorted_swap k j (ok a) (ok b) (ok es) h = ap ok (insert_entry_comm _ _ (sort_entries host es) h)
    sorted_swap k j (ok a) (ok b) (err e) h = refl
    sorted_swap k j (ok a) (err e) m h = refl
    sorted_swap k j (err e) (ok b) (ok es) h = refl
    sorted_swap k j (err not_serializable) (ok b) (err not_serializable) h = refl
    sorted_swap k j (err not_serializable) (err not_serializable) m h = refl

    mutual
      unfolding canonical_json

      json_same : {v w : Value} → Reordered v w → canonical_json host v ≡ canonical_json host w
      json_same (same v) = refl
      json_same (arrays xs) = rw (items_same xs)
      json_same (objects {fs} {gs} d) =
          sym (text_of_sorted host (serialize_fields host fs))
          ∙ ap (λ m. m >>= λ es. ok (object_text host es)) (fields_same d)
          ∙ text_of_sorted host (serialize_fields host gs)

      items_same :
          {xs ys : Items} → ReorderedItems xs ys → serialize_items host xs ≡ serialize_items host ys
      items_same no_items = refl
      items_same (items v xs) = rw (json_same v, items_same xs)

      fields_same :
          {fs gs : Fields}
          → ReorderedFields fs gs
          → sorted (serialize_fields host fs) ≡ sorted (serialize_fields host gs)
      fields_same no_fields = refl
      fields_same (keep {v} {w} {fs} {gs} k e d) =
          sym (sort_of_cons host k (canonical_json host v) (serialize_fields host fs))
          ∙ rw (json_same e, fields_same d)
              (sort_of_cons host k (canonical_json host w) (serialize_fields host gs))
      fields_same (swap k j v w fs untied) =
          sorted_swap k j (canonical_json host v) (canonical_json host w) (serialize_fields host fs)
            untied
      fields_same (steps d e) = fields_same d ∙ fields_same e

    -- Where localeCompare is an order, values that differ only in the order in which the fields of
    -- their objects, at any depth, were written have the same canonical result, provided that no
    -- two keys that change places are tied in that order.
    pub canonical_json-Reordered :
        (v w : Value) → Reordered v w → canonical_json host v ≡ canonical_json host w
    canonical_json-Reordered v w d = json_same d
