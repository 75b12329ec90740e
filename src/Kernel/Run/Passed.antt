-- ===== src/Kernel/Run/Passed.antt =====
-- packages/kernel/src/run-kernel.ts: what a check that passes says.
use mathlib.Core.List.{Memᴰ}
use amca_core.Common.{String, Bool, true, false, not, Option, none, some, List, any, ◌≡◌, refl}
use amca_core.Common.Members.{none_member}
use amca_core.Common.Equality.{Eq, ◌==◌, string_has_eq}
use amca_core.Common.Outcome.{Result, ok, err, ◌>>◌, bind-eq-ok}
use amca_core.Contracts.Canonical.{TypeError}
use amca_core.Protocol.Json.{Fields, obj}
use amca_core.Protocol.Host.{Host}
use amca_core.Protocol.Evidence.{EvidenceKind, EvidenceRef, evidence_kind_has_eq}
use amca_core.Contracts.Canonical.{canonical_hash}
use amca_core.Kernel.Run.{RunKernelErrorCode, RunKernel, Check, fail_if, parse, json_or_error}
use amca_core.Kernel.Run.Append.{assert_started, assert_input_run_id}
use amca_core.Kernel.Run.Guards.{
  found, entry, same_hash, assert_hash, assert_admitted_evidence_refs,
}

pub then-eq-ok :
    {A : Type 0} (m : Check (Unit {0})) (n : Check A) {a : A}
    → (m >> n) ≡ ok a
    → (m ≡ ok tt) × (n ≡ ok a)
then-eq-ok (ok u) n h = (refl, h)
then-eq-ok (err e) n h = cc

pub fail_if-eq-ok :
    (b : Bool) (code : RunKernelErrorCode) {u : Unit} → fail_if b code ≡ ok u → b ≡ false
fail_if-eq-ok true code h = cc
fail_if-eq-ok false code h = refl

pub fail_unless-eq-ok :
    (b : Bool) (code : RunKernelErrorCode) {u : Unit} → fail_if (not b) code ≡ ok u → b ≡ true
fail_unless-eq-ok true code h = refl
fail_unless-eq-ok false code h = cc

pub parse-eq-ok : (b : Bool) {u : Unit} → parse b ≡ ok u → b ≡ true
parse-eq-ok true h = refl
parse-eq-ok false h = cc

pub found-eq-ok :
    {A : Type 0} (o : Option A) (code : RunKernelErrorCode) {a : A}
    → found o code ≡ ok a
    → o ≡ some a
found-eq-ok none code h = cc
found-eq-ok (some b) code h = cc

pub json_or_error-eq-ok :
    {A : Type 0} (r : Result TypeError A) {a : A} → json_or_error r ≡ ok a → r ≡ ok a
json_or_error-eq-ok (ok b) h = cc
json_or_error-eq-ok (err e) h = cc

pub entry_lem :
    (schema : Bool) (run_id : String) (k : RunKernel)
    → entry schema run_id k ≡ ok tt
    → (schema ≡ true) × (run_id ≡ k.run_id)
unfolding entry assert_input_run_id
entry_lem schema run_id k h =
    let (_, h1) = then-eq-ok (assert_started k) _ h in
    let (accepted, h2) = then-eq-ok (parse schema) _ h1 in
    (parse-eq-ok schema accepted, (string_has_eq.beq_iff _ _).0 (fail_unless-eq-ok _ _ h2))

pub not-false : (b : Bool) → not b ≡ false → b ≡ true
not-false true h = refl
not-false false h = cc

pub all_equal :
    {A T : Type 0} ⦃eq : Eq T⦄ (read : A → T) (xs : List A) (expected : T) {x : A}
    → any (λ y. not (read y == expected)) xs ≡ false
    → Memᴰ x xs
    → read x ≡ expected
all_equal ⦃eq⦄ read xs expected {x} h m =
    (eq.beq_iff (read x) expected).0 (not-false _ (none_member _ xs h m))

pub evidence_refs_lem :
    (refs : List EvidenceRef) (source : String) (kind : EvidenceKind) (hash : String)
    → assert_admitted_evidence_refs refs source kind hash ≡ ok tt
    → (ref : EvidenceRef) → Memᴰ ref refs
    → (ref.source_event_id ≡ source) × (ref.kind ≡ kind) × (ref.hash ≡ hash)
unfolding assert_admitted_evidence_refs
evidence_refs_lem refs source kind hash h ref m =
    let (sources, h1) =
      then-eq-ok (fail_if (any (λ ref. not (ref.source_event_id == source)) refs) _) _ h in
    let (kinds, h2) = then-eq-ok (fail_if (any (λ ref. not (ref.kind == kind)) refs) _) _ h1 in
    (
      all_equal (λ r. r.source_event_id) refs source (fail_if-eq-ok _ _ sources) m,
      all_equal (λ r. r.kind) refs kind (fail_if-eq-ok _ _ kinds) m,
      all_equal (λ r. r.hash) refs hash (fail_if-eq-ok _ _ h2) m,
    )

module _ (host : Host) where
  pub assert_hash_lem :
      (payload : Fields) (payload_hash : String) (code : RunKernelErrorCode)
      → assert_hash host payload payload_hash code ≡ ok tt
      → canonical_hash host (obj payload) ≡ ok payload_hash
  unfolding assert_hash
  assert_hash_lem payload payload_hash code h =
      let (actual, hashed, h1) =
        bind-eq-ok (json_or_error (canonical_hash host (obj payload))) _ h in
      let same : payload_hash ≡ actual = (string_has_eq.beq_iff _ _).0 (fail_unless-eq-ok _ _ h1) in
      rw same (json_or_error-eq-ok _ hashed)

  -- The objects have the same canonical hash.
  pub same_hash_lem :
      (left right : Fields) (b : Bool)
      → same_hash host left right ≡ ok b
      → b ≡ true
      → (hash : String) × (canonical_hash host (obj left) ≡ ok hash)
        × (canonical_hash host (obj right) ≡ ok hash)
  unfolding same_hash
  same_hash_lem left right b h is_true =
      let (l, left_hashed, h1) = bind-eq-ok (json_or_error (canonical_hash host (obj left))) _ h in
      let (r, right_hashed, h2) =
        bind-eq-ok (json_or_error (canonical_hash host (obj right))) _ h1 in
      let equal : (l == r) ≡ true = cc in
      (
        l,
        json_or_error-eq-ok _ left_hashed,
        rw ((string_has_eq.beq_iff l r).0 equal) (json_or_error-eq-ok _ right_hashed),
      )
