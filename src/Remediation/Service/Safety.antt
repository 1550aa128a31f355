-- ===== src/Remediation/Service/Safety.antt =====
-- The service with the policy of policies/remediation.rego: which changes can reach the executor.
use incident_pilot.Common.{Memᴰ, All-Memᴰ, ◌≡◌, ℕ, ◌*◌, ◌≤◌, ◌<◌, true, [], ◌∷◌, ok, arith}
use incident_pilot.Text.{Bytes, lit, ==_iff}
use incident_pilot.Remediation.Types.{Request, Proposal, PolicyInput, PolicyDecision, Config}
use incident_pilot.Remediation.Memory.{memory_mib, deployment_memory_limit, derive_policy_input}
use incident_pilot.Policy.Rules.{allow, decision}
use incident_pilot.Policy.Evaluator.{evaluate}
use incident_pilot.Policy.Decisions.{Permitted, allow_iff, evaluate-decision}
use incident_pilot.Remediation.Service.{Services, create_pr, request_remediation}
use incident_pilot.Remediation.Service.Gate.{Cleared, input_for, request_remediation-Cleared}
use incident_pilot.Remediation.Service.Asked.{
  Asked, Faithful, creates-Memᴰ, request_remediation-Faithful,
}

-- a change that the policy lets through, for the limit found in the evidence
pub record Bounded (config : Config) (request : Request) (cause observed : Bytes) : Type 0 where
  pub in_development : config.environment ≡ lit "development"
  pub repository : request.target.repository ≡ config.repository
  pub path : request.target.path ≡ config.allowed_path
  pub namespace : request.target.namespace ≡ lit "incidentpilot-demo"
  pub kind : request.target.kind ≡ lit "Deployment"
  pub name : request.target.name ≡ lit "payments-api"
  pub container : request.target.container ≡ lit "payments-api"
  pub operation : request.operation ≡ lit "update_resource_limit"
  pub field : request.change.field ≡ lit "memory_limit"
  pub from_oom : cause ≡ lit "memory_limit_oom"
  pub before : ℕ
  pub after : ℕ
  pub before_read : memory_mib request.change.before ≡ (before, true)
  pub after_read : memory_mib request.change.after ≡ (after, true)
  pub as_observed : memory_mib observed ≡ (before, true)
  pub grows : before < after
  pub capped : after ≤ 512
  pub at_most_fourfold : after ≤ before * 4

-- `derivePolicyInput` gives the policy the facts it judges: an input that the policy permits comes from
-- a bounded change.
pub derive_policy_input-Bounded :
    (config : Config) (request : Request) (cause observed : Bytes)
    → Permitted (derive_policy_input config request cause observed)
    → Bounded config request cause observed
unfolding derive_policy_input
derive_policy_input-Bounded config request cause observed p =
    let b = memory_mib request.change.before in
    let a = memory_mib request.change.after in
    let o = memory_mib observed in
    record {
      in_development = p.in_development;
      repository = (==_iff _ _).0 p.own_repository;
      path = (==_iff _ _).0 p.own_path;
      namespace =
          ground
            (arith, p.open_namespace, ==_iff request.target.namespace (lit "incidentpilot-demo"));
      kind = p.deployment;
      name = p.payments;
      container = p.payments_container;
      operation = p.updates_limit;
      field = p.memory;
      from_oom = p.from_oom;
      before = b.0;
      after = a.0;
      before_read = ground (arith, p.safe);
      after_read = ground (arith, p.safe);
      as_observed = ground (arith, p.safe);
      grows = ground (arith, p.safe);
      capped = ground (arith, p.safe);
      at_most_fourfold = ground (arith, p.safe);
    }

-- the policy's answer, read by the evaluator, in place of the service's Evaluator
abbrev pub UsesPolicy : Services → Type 0
UsesPolicy s = (i : PolicyInput) → s.evaluate i ≡ evaluate (λ j. ok ((decision j ∷ []) ∷ [])) i

given-allow :
    (s : Services) (i : PolicyInput) (given : PolicyDecision)
    → UsesPolicy s
    → s.evaluate i ≡ ok given
    → given.allowed ≡ true
    → allow i ≡ true
given-allow s i given u d a = ground (arith, u i, evaluate-decision i, d, a)

-- With the remediation policy as its evaluator, whatever proposal and decision the service gives to
-- the executor: the decision allows, and the proposal repeats the request, its target and the old and
-- the new value included. The request, cleared by every guard, asks for a change of the memory limit
-- of payments-api in the configured file, in development, for an out-of-memory root cause; its old
-- value is the observed one, and its new value is larger, at most 512 Mi and at most fourfold.
pub request_remediation-Bounded :
    (s : Services) (request : Request)
    → UsesPolicy s
    → (proposal : Proposal) (given : PolicyDecision)
    → Memᴰ (create_pr proposal given) (request_remediation s request).1
    → Asked request proposal given
      × (c : Cleared s request) × Bounded s.config request c.cause.cause
          (deployment_memory_limit c.records)
request_remediation-Bounded s request u proposal given m =
    let calls = (request_remediation s request).1 in
    let c = request_remediation-Cleared s request (creates-Memᴰ calls proposal given m) in
    let i = input_for s request c.cause c.records in
    (
      All-Memᴰ (Faithful s request) calls (request_remediation-Faithful s request) m,
      c,
      derive_policy_input-Bounded s.config request c.cause.cause (deployment_memory_limit c.records)
          ((allow_iff i).0 (given-allow s i c.given u c.decided c.allowed)),
    )
