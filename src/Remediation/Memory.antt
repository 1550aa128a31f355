-- ===== src/Remediation/Memory.antt =====
-- `memoryMiB`, `deploymentMemoryLimit` and `derivePolicyInput` of internal/remediation/remediation.go.
use incident_pilot.Common.{
  ℕ, ◌-◌, ◌*◌, Bool, true, false, not, ◌&&◌, ◌||◌, Option, none, some, List, [], ◌∷◌, length, take,
  ltb, leb, eqb, if◌then◌else◌, ◌>>=◌,
}
use incident_pilot.Common.Int.{ℤ, pos, negsuc}
use incident_pilot.Text.{Bytes, lit, ◌==◌, equal_fold, parse_int}
use incident_pilot.Text.Regex.{matches}
use incident_pilot.Json.{Json, RawMessage, string_at, list_at, map_at, map_value, unmarshal}
use incident_pilot.Evidence.{Record}
use incident_pilot.Remediation.Types.{Request, PolicyInput, Config}
use incident_pilot.Remediation.Patterns.{memory_pattern}

-- the pattern admits digits only, so the parsed number is not negative
not_negative : ℤ × Bool → ℕ × Bool
not_negative (pos n, fine) = (n, fine)
not_negative (negsuc n, fine) = (0, fine)

-- the submatch of the pattern is what stands before "Mi"
unfoldable pub memory_mib : Bytes → ℕ × Bool
unfolding not_negative memory_pattern matches parse_int
memory_mib value =
    if matches memory_pattern value
    then not_negative (parse_int (take (length value - 2) value))
    else (0, false)

record Container : Type 0 where
  pub name : Bytes
  pub limits : List (Bytes × Bytes)

read_container : Json → Option Container
unfolding string_at map_at
read_container v = do
  name ← string_at ("name" ∷ []) v
  limits ← map_at ("resources" ∷ "limits" ∷ []) v
  some (record { name = name; limits = limits })

payments_limit : List Container → Option Bytes
unfolding map_value
payments_limit [] = none
payments_limit (c ∷ cs) =
    if c.name == lit "payments-api"
    then some (map_value (lit "memory") c.limits)
    else payments_limit cs

record_limit : RawMessage → Option Bytes
unfolding read_container payments_limit unmarshal list_at
record_limit raw = do
  containers ←
      unmarshal (list_at ("spec" ∷ "template" ∷ "spec" ∷ "containers" ∷ []) read_container) raw
  payments_limit containers

-- the limit in the first Deployment record of payments-api that holds its container
unfoldable pub deployment_memory_limit : List Record → Bytes
unfolding record_limit ◌==◌ lit
deployment_memory_limit [] = []
deployment_memory_limit (r ∷ records) =
    let rest = deployment_memory_limit records in
    if not (r.tool == lit "kubernetes_get_deployment")
      || not (r.source == lit "kubernetes/deployment")
      || not (r.resource_ref == lit "incidentpilot-demo/payments-api")
    then rest
    else elim (record_limit r.payload) [ none ↦ rest | some limit ↦ limit ]

unfoldable pub derive_policy_input : Config → Request → Bytes → Bytes → PolicyInput
derive_policy_input config request root_cause observed_limit =
    let (before, before_ok) = memory_mib request.change.before in
    let (after, after_ok) = memory_mib request.change.after in
    let (observed, observed_ok) = memory_mib observed_limit in
    record {
      environment = config.environment;
      repository = config.repository;
      repository_allowed = request.target.repository == config.repository;
      path = request.target.path;
      path_allowed = request.target.path == config.allowed_path;
      operation = request.operation;
      namespace = request.target.namespace;
      target_kind = request.target.kind;
      target_name = request.target.name;
      container = request.target.container;
      field = request.change.field;
      before_mib = before;
      after_mib = after;
      observed_before_mib = observed;
      protected_namespace = not (request.target.namespace == lit "incidentpilot-demo");
      secret_target =
          equal_fold request.target.kind (lit "Secret") || request.operation == lit "modify_secret";
      direct_mutation = request.operation == lit "direct_cluster_patch";
      destructive = request.operation == lit "delete_resource";
      evidence_verified = true;
      root_cause = root_cause;
      resource_change_safe =
          before_ok
          && after_ok
          && observed_ok
          && eqb before observed
          && ltb before after
          && leb after 512
          && leb after (before * 4);
    }
