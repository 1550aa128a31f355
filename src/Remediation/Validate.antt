-- ===== src/Remediation/Validate.antt =====
-- `validateRequest` of internal/remediation/remediation.go. `none` is a nil error. `uuid_ok` stands
-- for uuid.Parse, of a library.
pub mod Sound
use incident_pilot.Common.{
  Bool, true, false, not, ◌&&◌, ◌||◌, Option, none, some, List, [], ◌∷◌, length, any, ltb,
  if◌then◌else◌,
}
use incident_pilot.Text.{Bytes, lit, ◌==◌, contains, trim_space, valid_utf8}
use incident_pilot.Text.Regex.{matches}
use incident_pilot.Remediation.Types.{Request}
use incident_pilot.Remediation.Patterns.{
  dns_label_pattern, repository_pattern, path_pattern, operation_pattern,
}

module _ (uuid_ok : Bytes → Bool) where
  -- the loop over the IDs, with those seen
  unfoldable pub ids_are_valid : List Bytes → List Bytes → Bool
  unfolding any
  ids_are_valid seen [] = true
  ids_are_valid seen (id ∷ ids) =
      if not (uuid_ok id) || any (λ s. s == id) seen then false else ids_are_valid (id ∷ seen) ids

  unfoldable pub validate_request : Request → Option Bytes
  unfolding ids_are_valid
  validate_request request =
      let reason = trim_space request.reason in
      if not (uuid_ok request.incident_id)
      then some (lit "invalid incident ID")
      else if not (uuid_ok request.investigation_id)
      then some (lit "invalid investigation ID")
      else if not (matches operation_pattern request.operation)
          || not (matches repository_pattern request.target.repository)
          || not (matches path_pattern request.target.path)
          || contains request.target.path (lit "..")
      then some (lit "invalid remediation operation or repository path")
      else if not (matches dns_label_pattern request.target.namespace)
          || not (matches dns_label_pattern request.target.name)
          || not (matches dns_label_pattern request.target.container)
          || (not (request.target.kind == lit "Deployment")
              && not (request.target.kind == lit "Secret"))
      then some (lit "invalid remediation target")
      else if not (matches operation_pattern request.change.field)
          || ltb 64 (length request.change.before)
          || ltb 64 (length request.change.after)
          || not (valid_utf8 request.change.before)
          || not (valid_utf8 request.change.after)
      then some (lit "invalid remediation change")
      else if reason == [] || ltb 512 (length reason) || not (valid_utf8 reason)
      then some (lit "remediation reason must contain 1 to 512 UTF-8 bytes")
      else if ltb (length request.evidence_ids) 1 || ltb 8 (length request.evidence_ids)
      then some (lit "remediation requires 1 to 8 evidence IDs")
      else if not (ids_are_valid [] request.evidence_ids)
      then some (lit "invalid or duplicate remediation evidence ID")
      else none
