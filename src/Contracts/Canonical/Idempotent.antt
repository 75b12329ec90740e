-- ===== src/Contracts/Canonical/Idempotent.antt =====
-- packages/contracts/src/hash.ts: values in canonical order.
use amca_core.Common.{true, ◌≡◌, refl, ap, inl, inr, String, arith, Bool-cases}
use amca_core.Protocol.Json.{
  Value, Items, Fields, null, bool, num, str, arr, obj, undefined, nil, cons, end, field,
}
use amca_core.Protocol.Host.{Host}
use amca_core.Contracts.Canonical.{insert_field, reparse, reparse_items, reparse_fields}

module _ (host : Host) where
  -- Each key comes no later than the next one.
  abbrev KeysSorted : Fields → Type 0
  KeysSorted end = Unit
  KeysSorted (field k v end) = Unit
  KeysSorted (field k v (field j w fs)) = (host.locale_le k j ≡ true) × KeysSorted (field j w fs)

  -- The values of the fields are as reading them back leaves them.
  abbrev ValuesFixed : Fields → Type 0
  ValuesFixed end = Unit
  ValuesFixed (field k v fs) = (reparse host v ≡ v) × ValuesFixed fs

  insert_field-KeysSorted :
      (k : String) (v : Value) (fs : Fields) → KeysSorted fs → KeysSorted (insert_field host k v fs)
  unfolding insert_field
  insert_field-KeysSorted k v end h = tt
  insert_field-KeysSorted k v (field j w end) h = ground (arith, host.locale_total k j)
  insert_field-KeysSorted k v (field j w (field i x fs)) h =
      ground (arith, host.locale_total k j, insert_field-KeysSorted k v (field i x fs))

  insert_field-ValuesFixed :
      (k : String) (v : Value) (fs : Fields)
      → reparse host v ≡ v
      → ValuesFixed fs
      → ValuesFixed (insert_field host k v fs)
  unfolding insert_field
  insert_field-ValuesFixed k v end e h = (e, tt)
  insert_field-ValuesFixed k v (field j w fs) e h = elim (Bool-cases (host.locale_le k j)) [
    | inl le ↦ rw le (e, (h.0, h.1))
    | inr gt ↦ rw gt (h.0, insert_field-ValuesFixed k v fs e h.1)
  ]

  fields_fixed : (fs : Fields) → KeysSorted fs → ValuesFixed fs → reparse_fields host fs ≡ fs
  unfolding reparse insert_field
  fields_fixed end s h = refl
  fields_fixed (field k v end) s h = rw h.0 refl
  fields_fixed (field k v (field j w fs)) s h =
      rw (fields_fixed (field j w fs) s.1 h.1, h.0) (rw s.0 refl)

  reparse_fields-KeysSorted : (fs : Fields) → KeysSorted (reparse_fields host fs)
  unfolding reparse
  reparse_fields-KeysSorted end = tt
  reparse_fields-KeysSorted (field k v fs) =
      insert_field-KeysSorted k (reparse host v) (reparse_fields host fs)
        (reparse_fields-KeysSorted fs)

  mutual
    unfolding reparse

    value_idem : (v : Value) → reparse host (reparse host v) ≡ reparse host v
    value_idem null = refl
    value_idem (bool b) = refl
    value_idem (num n) = refl
    value_idem (str s) = refl
    value_idem undefined = refl
    value_idem (arr xs) = ap arr (items_idem xs)
    value_idem (obj fs) =
        ap obj
          (fields_fixed (reparse_fields host fs) (reparse_fields-KeysSorted fs) (fields_idem fs))

    items_idem : (xs : Items) → reparse_items host (reparse_items host xs) ≡ reparse_items host xs
    items_idem nil = refl
    items_idem (cons x xs) = rw (value_idem x, items_idem xs)

    fields_idem : (fs : Fields) → ValuesFixed (reparse_fields host fs)
    fields_idem end = tt
    fields_idem (field k v fs) =
        insert_field-ValuesFixed k (reparse host v) (reparse_fields host fs) (value_idem v)
          (fields_idem fs)

  -- Reading a value back twice is reading it back once.
  pub reparse_idem : (v : Value) → reparse host (reparse host v) ≡ reparse host v
  reparse_idem v = value_idem v
