-- ===== src/Policy/Decisions.antt =====
-- The policy and its evaluator together.
use incident_pilot.Common.{
  ◌≡◌, refl, ◌↔◌, Bool, true, false, some, List, [], ◌∷◌, length, All, ok, arith, ltb,
}
use incident_pilot.Text.{Bytes, lit, ◌==◌, ==_iff}
use incident_pilot.Json.{elements}
use incident_pilot.Sorting.{sort, sort-All, sort-ne-nil}
use incident_pilot.Time.{zero_time}
use incident_pilot.Remediation.Types.{PolicyInput}
use incident_pilot.Policy.Rules.{rules, reasons_of, deny, allow, strings, decision}
use incident_pilot.Policy.Evaluator.{
  evaluate, read_reasons, value_at, no_reasons, remediation_version,
}

-- what the policy asks of a change
pub record Permitted (i : PolicyInput) : Type 0 where
  pub in_development : i.environment ≡ lit "development"
  pub own_repository : i.repository_allowed ≡ true
  pub own_path : i.path_allowed ≡ true
  pub open_namespace : i.protected_namespace ≡ false
  pub no_secret : i.secret_target ≡ false
  pub no_mutation : i.direct_mutation ≡ false
  pub not_destructive : i.destructive ≡ false
  pub verified : i.evidence_verified ≡ true
  pub from_oom : i.root_cause ≡ lit "memory_limit_oom"
  pub updates_limit : i.operation ≡ lit "update_resource_limit"
  pub deployment : i.target_kind ≡ lit "Deployment"
  pub payments : i.target_name ≡ lit "payments-api"
  pub payments_container : i.container ≡ lit "payments-api"
  pub memory : i.field ≡ lit "memory_limit"
  pub safe : i.resource_change_safe ≡ true

allow-Permitted : (i : PolicyInput) → allow i ≡ true → Permitted i
unfolding allow deny
allow-Permitted i h = ground (
  arith,
  ==_iff i.environment (lit "development"),
  ==_iff i.root_cause (lit "memory_limit_oom"),
  ==_iff i.operation (lit "update_resource_limit"),
  ==_iff i.target_kind (lit "Deployment"),
  ==_iff i.target_name (lit "payments-api"),
  ==_iff i.container (lit "payments-api"),
  ==_iff i.field (lit "memory_limit"),
)

Permitted-allow : (i : PolicyInput) → Permitted i → allow i ≡ true
unfolding allow deny
Permitted-allow i p = ground (
  arith,
  (==_iff i.environment (lit "development")).1 p.in_development,
  (==_iff i.root_cause (lit "memory_limit_oom")).1 p.from_oom,
  (==_iff i.operation (lit "update_resource_limit")).1 p.updates_limit,
  (==_iff i.target_kind (lit "Deployment")).1 p.deployment,
  (==_iff i.target_name (lit "payments-api")).1 p.payments,
  (==_iff i.container (lit "payments-api")).1 p.payments_container,
  (==_iff i.field (lit "memory_limit")).1 p.memory,
)

-- The policy allows a change exactly when all of its conditions hold.
pub allow_iff : (i : PolicyInput) → (allow i ≡ true) ↔ Permitted i
allow_iff i = (allow-Permitted i, Permitted-allow i)

-- a reason that the evaluator accepts
abbrev IsReason : Bytes → Type 0
IsReason r = ((r == []) ≡ false) × (ltb 128 (length r) ≡ false)

reasons_of-All :
    (rs : List (Bool × Bytes)) → All (λ r. IsReason r.1) rs → All IsReason (reasons_of rs)
unfolding reasons_of
reasons_of-All [] h = tt
reasons_of-All ((true, r) ∷ rs) h = (h.0, reasons_of-All rs h.1)
reasons_of-All ((false, r) ∷ rs) h = reasons_of-All rs h.1

rules-All : (i : PolicyInput) → All (λ r. IsReason r.1) (rules i)
unfolding rules lit ◌==◌
rules-All i = (
  (refl, refl),
  (
    (refl, refl),
    (
      (refl, refl),
      (
        (refl, refl),
        (
          (refl, refl),
          (
            (refl, refl),
            (
              (refl, refl),
              (
                (refl, refl),
                ((refl, refl), ((refl, refl), ((refl, refl), ((refl, refl), ((refl, refl), tt))))),
              ),
            ),
          ),
        ),
      ),
    ),
  ),
)

deny-All : (i : PolicyInput) → All IsReason (deny i)
unfolding deny
deny-All i = reasons_of-All (rules i) (rules-All i)

read_reasons-strings :
    (rs : List Bytes) → All IsReason rs → read_reasons (elements (strings rs)) ≡ some rs
unfolding read_reasons strings elements
read_reasons-strings [] h = refl
read_reasons-strings (r ∷ rs) h = ground (arith, h.0, read_reasons-strings rs h.1)

no_reasons-sort : (rs : List Bytes) → no_reasons (sort rs) ≡ no_reasons rs
no_reasons-sort [] = unfold sort in refl
no_reasons-sort (r ∷ rs) = ground (arith, sort-ne-nil r rs)

-- On the policy's own answer the evaluator never fails: it returns the policy's verdict, its reasons
-- in order, and the policy's version.
pub evaluate-decision :
    (i : PolicyInput)
    → evaluate (λ i. ok ((decision i ∷ []) ∷ [])) i
      ≡ ok (record {
        id = [];
        allowed = allow i;
        reasons = sort (deny i);
        policy_version = remediation_version;
        evaluated_at = zero_time;
      })
unfolding evaluate decision elements value_at allow lit ◌==◌
evaluate-decision i = ground (
  arith,
  read_reasons-strings (sort (deny i)) (sort-All IsReason (deny i) (deny-All i)),
  no_reasons-sort (deny i),
)
