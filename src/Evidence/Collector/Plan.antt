-- ===== src/Evidence/Collector/Plan.antt =====
-- The tool calls that the collector of internal/evidence/collector.go makes.
use incident_pilot.Common.{Bool, true, false, ◌&&◌, List, [], ◌∷◌, ◌++◌, if◌then◌else◌}
use incident_pilot.Text.{Bytes, lit, ◌==◌}
use incident_pilot.Time.{Time}
use incident_pilot.Json.{Json, Members, num, str, obj, end, member}
use incident_pilot.Incident.{Incident}
use incident_pilot.Onboarding.Profile.{Profile}

-- planItem; the arguments stand in the increasing order of their names, as json.Marshal writes them
pub record Item : Type 0 where
  pub tool : Bytes
  pub source : Bytes
  pub resource_ref : Bytes
  pub arguments : List (Bytes × Json)
  pub timed : Bool

unfoldable pub members_of : List (Bytes × Json) → Members
members_of [] = end
members_of (a ∷ rest) = member a.0 a.1 (members_of rest)

-- json.Marshal(item.arguments)
unfoldable pub parameters : Item → Json
unfolding members_of
parameters item = obj (members_of item.arguments)

text_argument : Bytes → List (Bytes × Json) → Bytes
text_argument key [] = []
text_argument key (a ∷ rest) =
    let later = text_argument key rest in
    if a.0 == key then elim a.1 [ str s ↦ s | v ↦ [] ] else later

-- item.arguments[key].(string), `[]` where that fails
unfoldable pub argument : Bytes → Item → Bytes
unfolding text_argument
argument key item = text_argument key item.arguments

unfoldable pub initial_metric : Incident → Bytes
initial_metric inc =
    if inc.alert_name == lit "DemoCheckoutLatency"
    then lit "success_latency_avg"
    else lit "error_rate"

unfoldable pub incident_trace_filter : Incident → Bytes
incident_trace_filter inc =
    if inc.alert_name == lit "DemoCheckoutLatency"
    then lit "slow_success"
    else if inc.alert_name == lit "DemoCheckoutErrors"
    then lit "error"
    else []

-- an item that is about the workload alone
unfoldable pub about : Bytes → Bytes → Bytes → Item
about tool source workload = record {
  tool = tool;
  source = source;
  resource_ref = [];
  arguments = (lit "workload", str workload) ∷ [];
  timed = false;
}

abbrev pub orders_config : Item
orders_config = record {
  tool = lit "kubernetes_get_orders_config";
  source = lit "kubernetes/configmap";
  resource_ref = lit "incidentpilot-demo/configmap/orders-config";
  arguments = [];
  timed = false;
}

module _ (format_time : Time → Bytes) where
  -- an item over the window; `middle` are the arguments named between "end" and "start", `last` those after
  unfoldable pub over :
      Bytes → Bytes → Bytes → List (Bytes × Json) → List (Bytes × Json) → Time → Time → Item
  over tool source ref middle last start finish = record {
    tool = tool;
    source = source;
    resource_ref = ref;
    arguments =
        (lit "end", str (format_time finish))
        ∷ (middle ++ (lit "start", str (format_time start)) ∷ last);
    timed = true;
  }

  unfoldable pub metric_range : Bytes → Bytes → Time → Time → Item
  unfolding over
  metric_range workload metric =
      over (lit "prometheus_get_demo_metric_range") (lit "prometheus/range") []
        ((lit "metric", str metric) ∷ []) ((lit "workload", str workload) ∷ [])

  unfoldable pub logs : Bytes → Time → Time → Item
  unfolding over
  logs workload =
      over (lit "loki_get_demo_logs") (lit "loki") [] ((lit "limit", num (lit "20")) ∷ [])
        ((lit "workload", str workload) ∷ [])

  unfoldable pub traces : Incident → Bytes → Time → Time → Item
  unfolding over incident_trace_filter
  traces inc workload =
      over (lit "tempo_search_demo_traces") (lit "tempo/search") []
        ((lit "filter", str (incident_trace_filter inc)) ∷ []) ((lit "workload", str workload) ∷ [])

  -- the items in the order of their calls
  unfoldable pub plan : Profile → Incident → Bytes → Bytes → Time → Time → List Item
  unfolding about metric_range logs traces
  plan profile inc workload metric start finish =
      let demo = profile.mode == lit "demo" in
      about (lit "kubernetes_get_deployment") (lit "kubernetes/deployment") workload
      ∷ ((if demo && workload == lit "orders-api" then orders_config ∷ [] else [])
          ++ (about (lit "kubernetes_get_service") (lit "kubernetes/service") workload
              ∷ about (lit "kubernetes_get_endpointslices") (lit "kubernetes/endpointslices")
                  workload
              ∷ about (lit "kubernetes_get_pods") (lit "kubernetes/pods") workload
              ∷ about (lit "kubernetes_get_events") (lit "kubernetes/events") workload
              ∷ ((if demo then metric_range workload metric start finish ∷ [] else [])
                  ++ (logs workload start finish
                      ∷ (if demo then traces inc workload start finish ∷ [] else [])))))

  unfoldable pub history : Time → Time → Item
  unfolding over
  history start finish =
      over (lit "argocd_get_revision_history") (lit "argocd/revision_history")
        (lit "argocd/incidentpilot-demo") [] [] start finish

  unfoldable pub at_revision : Bytes → Bytes → Bytes → Time → Time → Item
  unfolding over
  at_revision tool source revision start finish =
      over tool source (lit "github/configured-repository") ((lit "revision", str revision) ∷ []) []
        start finish

  unfoldable pub commit_of : Bytes → Time → Time → Item
  unfolding at_revision
  commit_of = at_revision (lit "github_get_commit") (lit "github/commit")

  unfoldable pub diff_of : Bytes → Time → Time → Item
  unfolding at_revision
  diff_of = at_revision (lit "github_get_diff") (lit "github/diff")

unfoldable pub pod_logs : Incident → Bytes → Bytes → Item
pod_logs inc workload pod = record {
  tool = lit "kubernetes_get_pod_logs";
  source = lit "kubernetes/pod_logs";
  resource_ref = inc.namespace ++ (lit "/" ++ pod);
  arguments =
      (lit "lines", num (lit "20")) ∷ (lit "pod", str pod) ∷ (lit "workload", str workload) ∷ [];
  timed = false;
}

unfoldable pub trace_of : Bytes → Item
trace_of trace_id = record {
  tool = lit "tempo_get_trace";
  source = lit "tempo";
  resource_ref = [];
  arguments = (lit "trace_id", str trace_id) ∷ [];
  timed = true;
}

unfoldable pub application : Item
application = record {
  tool = lit "argocd_get_application";
  source = lit "argocd/application";
  resource_ref = lit "argocd/incidentpilot-demo";
  arguments = [];
  timed = false;
}
