-- ===== src/Tests/Workloads.antt =====
-- Evidence of an invalid order mode, of a disconnected Service, of slow orders and of failing payments.
use Prim.Native.String.{String}
use incident_pilot.Common.{true, none, some, List, [], ◌∷◌}
use incident_pilot.Json.{Json, bool}
use incident_pilot.Evidence.{Record}
use incident_pilot.Tests.Fixtures.{text, number, list_of, object, within, record_of}

unfoldable pub order_config : Record
unfolding record_of object within text
order_config =
    record_of "c3" "kubernetes_get_orders_config" "kubernetes/configmap"
      "incidentpilot-demo/configmap/orders-config" none
      (object (
        ("metadata", within ("name" ∷ []) (text "orders-config"))
        ∷ ("data", within ("order_mode" ∷ []) (text "unsupported"))
        ∷ []))

unfoldable pub order_deployment : Record
unfolding record_of object list_of within text
order_deployment =
    record_of "d3" "kubernetes_get_deployment" "kubernetes/deployment"
      "incidentpilot-demo/orders-api" none
      (within ("diagnosticConfigReferences" ∷ []) (
        list_of (
          object (
            ("container", text "orders-api")
            ∷ ("environmentVariable", text "DEMO_ORDER_MODE")
            ∷ ("configMap", text "orders-config")
            ∷ ("key", text "order_mode")
            ∷ [])
          ∷ [])))

-- a list with one pod
unfoldable pub pods_of : String → Json → Json → Json
unfolding object list_of within text
pods_of pod labels status = within ("items" ∷ []) (
    list_of (
      object (
        ("metadata", object (("name", text pod) ∷ ("labels", labels) ∷ []))
        ∷ (
          "status",
          object (("phase", text "Running") ∷ ("containerStatuses", list_of (status ∷ [])) ∷ []),
        )
        ∷ [])
      ∷ []))

unfoldable pub order_pods : Record
unfolding record_of object within text pods_of
order_pods =
    record_of "p3" "kubernetes_get_pods" "kubernetes/pods" "incidentpilot-demo/orders-api" none (
      pods_of "orders-2" (object []) (
        object (
          ("name", text "orders-api")
          ∷ ("state", within ("waiting" ∷ "reason" ∷ []) (text "CrashLoopBackOff"))
          ∷ [])))

unfoldable pub order_log : Record
unfolding record_of within text
order_log =
    record_of "l3" "kubernetes_get_pod_logs" "kubernetes/pod_logs" "incidentpilot-demo/orders-2"
      none (within ("text" ∷ []) (text "invalid order mode \"unsupported\""))

unfoldable pub route_service : Record
unfolding record_of within text
route_service =
    record_of "s4" "kubernetes_get_service" "kubernetes/service" "incidentpilot-demo/payments-api"
      none (within ("spec" ∷ "selector" ∷ "app" ∷ []) (text "payments-api-disconnected"))

unfoldable pub route_slices : Record
unfolding record_of object list_of within text
route_slices =
    record_of "e4" "kubernetes_get_endpointslices" "kubernetes/endpointslices"
      "incidentpilot-demo/payments-api" none
      (within ("items" ∷ []) (
        list_of (
          within ("metadata" ∷ "labels" ∷ "kubernetes.io/service-name" ∷ []) (text "payments-api")
          ∷ [])))

unfoldable pub route_pods : Record
unfolding record_of object within text pods_of
route_pods =
    record_of "p4" "kubernetes_get_pods" "kubernetes/pods" "incidentpilot-demo/payments-api" none (
      pods_of "payments-1" (within ("app" ∷ []) (text "payments-api"))
        (object (("name", text "payments-api") ∷ ("ready", bool true) ∷ [])))

-- a range with one sample
unfoldable pub metric : String → String → String → String → Record
unfolding record_of object list_of within text number
metric id resource name sample =
    record_of id "prometheus_get_demo_metric_range" "prometheus/range" resource
      (some (within ("metric" ∷ []) (text name)))
      (within ("result" ∷ []) (
        list_of
          (within ("values" ∷ []) (list_of (list_of (number "1" ∷ text sample ∷ []) ∷ [])) ∷ [])))

-- the deployment of a workload with one diagnosed variable
unfoldable pub runtime : String → String → String → String → String → Record
unfolding record_of object list_of within text
runtime id resource container variable value =
    record_of id "kubernetes_get_deployment" "kubernetes/deployment" resource none (
      within ("diagnosticRuntimeConfig" ∷ []) (
        list_of (
          object (
            ("container", text container)
            ∷ ("environmentVariable", text variable)
            ∷ ("value", text value)
            ∷ [])
          ∷ [])))

-- a span of one second
unfoldable pub span : String → String → String → String → Json
unfolding object list_of within text
span service name status code = object (
    (
      "resource",
      within ("attributes" ∷ []) (
          list_of (
            object (
              ("key", text "service.name")
              ∷ ("value", within ("stringValue" ∷ []) (text service))
              ∷ [])
            ∷ [])),
    )
    ∷ (
      "scopeSpans",
      list_of (
          within ("spans" ∷ []) (
            list_of (
              object (
                ("name", text name)
                ∷ ("startTimeUnixNano", text "1000000000")
                ∷ ("endTimeUnixNano", text "2000000000")
                ∷ (
                  "attributes",
                  list_of (
                      object (
                        ("key", text "http.response.status_code")
                        ∷ ("value", within ("intValue" ∷ []) (text status))
                        ∷ [])
                      ∷ []),
                )
                ∷ ("status", within ("code" ∷ []) (text code))
                ∷ [])
              ∷ []))
          ∷ []),
    )
    ∷ [])

unfoldable pub trace : String → List Json → Record
unfolding record_of list_of within
trace id spans =
    record_of id "tempo_get_trace" "tempo" "trace" none (within ("batches" ∷ []) (list_of spans))
