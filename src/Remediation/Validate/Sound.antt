-- ===== src/Remediation/Validate/Sound.antt =====
-- What a request that passes `validateRequest` satisfies.
use incident_pilot.Common.{
  ◌≡◌, ◌≢◌, ◌≤◌, Bool, true, false, none, List, [], ◌∷◌, length, any, arith, All, Distinct, ◌⊎◌,
}
use incident_pilot.Text.{Bytes, lit, ◌==◌, ==_iff, ==_refl, contains, trim_space}
use incident_pilot.Text.Regex.{matches}
use incident_pilot.Remediation.Types.{Request}
use incident_pilot.Remediation.Patterns.{
  dns_label_pattern, repository_pattern, path_pattern, operation_pattern,
}
use incident_pilot.Remediation.Validate.{ids_are_valid, validate_request}

pub record Valid (uuid_ok : Bytes → Bool) (r : Request) : Type 0 where
  pub incident : uuid_ok r.incident_id ≡ true
  pub investigation : uuid_ok r.investigation_id ≡ true
  pub operation : matches operation_pattern r.operation ≡ true
  pub repository : matches repository_pattern r.target.repository ≡ true
  pub path : matches path_pattern r.target.path ≡ true
  pub inside : contains r.target.path (lit "..") ≡ false
  pub namespace : matches dns_label_pattern r.target.namespace ≡ true
  pub name : matches dns_label_pattern r.target.name ≡ true
  pub container : matches dns_label_pattern r.target.container ≡ true
  pub kind : (r.target.kind ≡ lit "Deployment") ⊎ (r.target.kind ≡ lit "Secret")
  pub field : matches operation_pattern r.change.field ≡ true
  pub before : length r.change.before ≤ 64
  pub after : length r.change.after ≤ 64
  pub reason : trim_space r.reason ≢ []
  pub short_reason : length (trim_space r.reason) ≤ 512
  pub some_evidence : 1 ≤ length r.evidence_ids
  pub few_evidence : length r.evidence_ids ≤ 8
  pub ids : All (λ id. uuid_ok id ≡ true) r.evidence_ids
  pub distinct : Distinct r.evidence_ids

module _ (uuid_ok : Bytes → Bool) where
  ids_are_valid-uuid :
      (seen ids : List Bytes)
      → ids_are_valid uuid_ok seen ids ≡ true
      → All (λ id. uuid_ok id ≡ true) ids
  unfolding ids_are_valid
  ids_are_valid-uuid seen [] h = tt
  ids_are_valid-uuid seen (x ∷ xs) h =
      (ground arith, ids_are_valid-uuid (x ∷ seen) xs (ground arith))

  ids_are_valid-unseen :
      (x : Bytes) (seen ids : List Bytes)
      → any (λ s. s == x) seen ≡ true
      → ids_are_valid uuid_ok seen ids ≡ true
      → All (λ y. x ≢ y) ids
  unfolding ids_are_valid any
  ids_are_valid-unseen x seen [] m h = tt
  ids_are_valid-unseen x seen (y ∷ ys) m h =
      ((λ e. ground (arith, e)), ids_are_valid-unseen x (y ∷ seen) ys (ground arith) (ground arith))

  ids_are_valid-Distinct :
      (seen ids : List Bytes) → ids_are_valid uuid_ok seen ids ≡ true → Distinct ids
  unfolding ids_are_valid any
  ids_are_valid-Distinct seen [] h = tt
  ids_are_valid-Distinct seen (x ∷ xs) h = (
    ids_are_valid-unseen x (x ∷ seen) xs (ground (arith, ==_refl x)) (ground arith),
    ids_are_valid-Distinct (x ∷ seen) xs (ground arith),
  )

  -- A request without a validation error satisfies every bound and pattern, and its evidence IDs are 1
  -- to 8 distinct UUIDs.
  pub validate_request-Valid : (r : Request) → validate_request uuid_ok r ≡ none → Valid uuid_ok r
  unfolding validate_request
  validate_request-Valid r h = record {
    incident = ground arith;
    investigation = ground arith;
    operation = ground arith;
    repository = ground arith;
    path = ground arith;
    inside = ground arith;
    namespace = ground arith;
    name = ground arith;
    container = ground arith;
    kind =
        ground
          (arith, ==_iff r.target.kind (lit "Deployment"), ==_iff r.target.kind (lit "Secret"));
    field = ground arith;
    before = ground arith;
    after = ground arith;
    reason = λ e. ground (arith, e, ==_refl []);
    short_reason = ground arith;
    some_evidence = ground arith;
    few_evidence = ground arith;
    ids = ids_are_valid-uuid [] r.evidence_ids (ground arith);
    distinct = ids_are_valid-Distinct [] r.evidence_ids (ground arith);
  }
