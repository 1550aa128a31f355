-- ===== src/Onboarding/Profile.antt =====
-- `Parse` and the queries of internal/onboarding/profile.go. The strict decoder of encoding/json is a
-- parameter: the one value in a text without unknown fields and trailing data.
use incident_pilot.Common.{
  ◌*◌, Bool, true, false, not, ◌&&◌, ◌||◌, Option, none, some, List, [], ◌∷◌, ◌++◌, length, any,
  map, ltb, Result, ok, err, if◌then◌else◌,
}
use incident_pilot.Text.{Bytes, lit, ◌==◌, has_prefix}
use incident_pilot.Text.Regex.{matches}
use incident_pilot.Onboarding.Patterns.{dns_label, label_key, label_value, alert_name}

pub record Workload : Type 0 where
  pub name : Bytes
  pub container : Bytes
  pub pod_label_key : Bytes
  pub pod_label_value : Bytes

pub record Alert : Type 0 where
  pub name : Bytes
  pub workload : Bytes

pub record Profile : Type 0 where
  pub mode : Bytes
  pub namespace : Bytes
  pub workloads : List Workload
  pub alerts : List Alert
  pub verifiers : List Bytes

unfoldable pub demo : Profile
unfolding lit
demo = record {
  mode = lit "demo";
  namespace = lit "incidentpilot-demo";
  workloads = [];
  alerts = [];
  verifiers = [];
}

unfoldable pub valid_dns_label : Bytes → Bool
valid_dns_label name = ltb 0 (length name) && not (ltb 63 (length name)) && matches dns_label name

-- the key is in the map whose keys are listed
unfoldable pub has_key : List Bytes → Bytes → Bool
unfolding any
has_key keys k = any (λ j. j == k) keys

unfoldable pub workload_is_valid : Workload → Bool
unfolding valid_dns_label
workload_is_valid w =
    valid_dns_label w.name
    && valid_dns_label w.container
    && not (ltb 253 (length w.pod_label_key))
    && matches label_key w.pod_label_key
    && not (ltb 63 (length w.pod_label_value))
    && matches label_value w.pod_label_value
    && not (w.pod_label_value == [])

-- the loop over the workloads, with the names seen
unfoldable pub workloads_are_valid : List Bytes → List Workload → Bool
unfolding workload_is_valid has_key
workloads_are_valid names [] = true
workloads_are_valid names (w ∷ ws) =
    let rest = workloads_are_valid (w.name ∷ names) ws in
    if not (workload_is_valid w) || has_key names w.name then false else rest

-- the loop over the alerts, with the names seen
unfoldable pub alerts_are_valid : List Bytes → List Bytes → List Alert → Bool
unfolding has_key
alerts_are_valid names seen [] = true
alerts_are_valid names seen (a ∷ rest) =
    let others = alerts_are_valid names (a.name ∷ seen) rest in
    if ltb 128 (length a.name)
      || not (matches alert_name a.name)
      || has_key seen a.name
      || not (has_key names a.workload)
    then false
    else others

-- the loop over the verifiers, with those seen
unfoldable pub verifiers_are_valid : List Bytes → List Bytes → Bool
unfolding has_key
verifiers_are_valid seen [] = true
verifiers_are_valid seen (v ∷ vs) =
    let rest = verifiers_are_valid (v ∷ seen) vs in
    if (not (v == lit "kubernetes_oom") && not (v == lit "image_pull")) || has_key seen v
    then false
    else rest

is_empty : {A : Type 0} → List A → Bool
is_empty [] = true
is_empty (x ∷ xs) = false

is_bare_demo : Profile → Bool
unfolding is_empty
is_bare_demo p =
    p.mode == lit "demo"
    && p.namespace == []
    && is_empty p.workloads
    && is_empty p.alerts
    && is_empty p.verifiers

-- after the decoder
unfoldable pub accept : Profile → Result Bytes Profile
unfolding is_bare_demo demo workloads_are_valid alerts_are_valid verifiers_are_valid valid_dns_label
accept p =
    if is_bare_demo p
    then ok demo
    else if not (p.mode == lit "external")
    then err (lit "onboarding mode must be demo or external; demo scope is fixed")
    else if not (valid_dns_label p.namespace)
        || has_prefix p.namespace (lit "kube-")
        || p.namespace == lit "default"
        || p.namespace == lit "incidentpilot-system"
        || p.namespace == lit "incidentpilot-observability"
    then err (lit "external namespace must be an unprotected Kubernetes namespace")
    else if ltb (length p.workloads) 1
        || ltb 20 (length p.workloads)
        || ltb (length p.alerts) 1
        || ltb 50 (length p.alerts)
    then err (lit "external profile requires 1-20 workloads and 1-50 alerts")
    else if not (workloads_are_valid [] p.workloads)
    then err (lit "invalid or duplicate external workload or pod selector")
    else if not (alerts_are_valid (map (λ w. w.name) p.workloads) [] p.alerts)
    then err (lit "invalid, duplicate, or unscoped external alert")
    else if ltb 2 (length p.verifiers)
    then err (lit "external profile accepts at most two verifiers")
    else if not (verifiers_are_valid [] p.verifiers)
    then err (lit "unknown or duplicate external verifier")
    else ok p

unfoldable pub parse : (Bytes → Result Bytes Profile) → Bytes → Result Bytes Profile
unfolding demo accept
parse decode raw =
    if raw == []
    then ok demo
    else if ltb (32 * 1024) (length raw)
    then err (lit "onboarding profile exceeds 32 KiB")
    else elim (decode raw) [ err text ↦ err text | ok p ↦ accept p ]

unfoldable pub effective : Profile → Profile
unfolding demo
effective p = if p.mode == [] then demo else p

is_demo_workload : Bytes → Bool
is_demo_workload name =
    name == lit "frontend" || name == lit "orders-api" || name == lit "payments-api"

unfoldable pub find_workload : Bytes → List Workload → Option Workload
find_workload name [] = none
find_workload name (w ∷ ws) = if w.name == name then some w else find_workload name ws

unfoldable pub allows_workload : Profile → Bytes → Bool
unfolding effective is_demo_workload any
allows_workload p name =
    let e = effective p in
    if e.mode == lit "demo" then is_demo_workload name else any (λ w. w.name == name) e.workloads

unfoldable pub pod_label : Profile → Bytes → Option (Bytes × Bytes)
unfolding effective allows_workload find_workload
pod_label p name =
    let e = effective p in
    if e.mode == lit "demo" && allows_workload e name
    then some (lit "app", name)
    else elim (find_workload name e.workloads) [
      | none ↦ none
      | some w ↦ some (w.pod_label_key, w.pod_label_value)
    ]

unfoldable pub pod_selector : Profile → Bytes → Option Bytes
unfolding effective allows_workload pod_label
pod_selector p name =
    let e = effective p in
    if e.mode == lit "demo" && allows_workload e name
    then some (lit "app=" ++ name)
    else elim (pod_label e name) [
      | none ↦ none
      | some label ↦ some (label.0 ++ (lit "=" ++ label.1))
    ]

-- Profile.Workload
unfoldable pub workload_of : Profile → Bytes → Option Workload
unfolding find_workload
workload_of p name = find_workload name p.workloads

unfoldable pub enables_verifier : Profile → Bytes → Bool
unfolding any
enables_verifier p name = any (λ v. v == name) p.verifiers

unfoldable pub allows_incident : Profile → Bytes → Bytes → Bytes → Bool
unfolding effective allows_workload any
allows_incident p namespace workload alert =
    let e = effective p in
    if not (namespace == e.namespace) || not (allows_workload e workload)
    then false
    else if e.mode == lit "demo"
    then true
    else any (λ a. a.name == alert && a.workload == workload) e.alerts
