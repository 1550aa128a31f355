-- ===== src/Tests/Metrics.antt =====
-- The verifiers on the records of a disconnected Service, slow orders and failing payments.
use Prim.Native.String.{String}
use incident_pilot.Common.{◌≡◌, refl, some, none, List, [], ◌∷◌, Memᴰ, ◌≢◌}
use incident_pilot.Text.{Bytes, lit, ◌==◌, equal_fold}
use incident_pilot.Evidence.{Record}
use incident_pilot.Agent.Types.{
  RootCause, cause_broken_selector, cause_excessive_cpu, cause_payment_failure,
}
use incident_pilot.Agent.Payloads.{
  payments_service_selector, payment_endpoint_slices_are_empty, payments_pod_is_ready,
  prometheus_range_has_positive_sample, prometheus_range_has_sample_at_least, metric_parameter,
  deployment_runtime_value, trace_shows_payment_failure, trace_shows_slow_successful_checkout,
  project_trace,
}
use incident_pilot.Agent.Verify.Cited.{is_cited, Cites, Named, id_of}
use incident_pilot.Agent.Verify.Selector.{
  verify_broken_service_selector, verify_broken_service_selector_sound,
  verify_broken_service_selector_complete, service_disconnected, endpoints_empty, pod_ready,
  frontend_sample,
}
use incident_pilot.Agent.Verify.Cpu.{
  verify_excessive_cpu, verify_excessive_cpu_sound, verify_excessive_cpu_complete, burns_cpu,
  frontend_slow, orders_slow, trace_slow,
}
use incident_pilot.Agent.Verify.Payment.{
  verify_payment_failure, verify_payment_failure_sound, verify_payment_failure_complete,
  fails_payments, frontend_errors, trace_failed,
}
use incident_pilot.Tests.Fixtures.{whole_numbers, Named-of}
use incident_pilot.Tests.Workloads.{
  route_service, route_slices, route_pods, metric, runtime, span, trace,
}

abbrev slow_deployment : Record
slow_deployment =
    runtime "d5" "incidentpilot-demo/orders-api" "orders-api" "DEMO_ORDER_CPU_BURN_MS" "1000"

abbrev slow_frontend : Record
slow_frontend = metric "f5" "incidentpilot-demo/frontend" "success_latency_avg" "2"

abbrev slow_orders : Record
slow_orders = metric "o5" "incidentpilot-demo/orders-api" "success_latency_avg" "2"

abbrev slow_trace : Record
slow_trace =
    trace "t5"
      (span "frontend" "frontend.http" "200" "" ∷ span "orders-api" "orders-api.http" "200" "" ∷ [])

abbrev failing_deployment : Record
failing_deployment =
    runtime "d6" "incidentpilot-demo/payments-api" "payments-api" "DEMO_PAYMENT_MODE" "fail"

abbrev error_rate : String → Record
error_rate id = metric id "incidentpilot-demo/frontend" "error_rate" "1"

abbrev failing_trace : Record
failing_trace = trace "t6" (
    span "frontend" "frontend.http" "502" "ERROR"
    ∷ span "orders-api" "orders-api.http" "502" "ERROR"
    ∷ span "payments-api" "payments-api.http" "503" "ERROR"
    ∷ [])

abbrev route_records : List Record
route_records = route_service ∷ route_slices ∷ route_pods ∷ error_rate "m4" ∷ []

abbrev route_cited : List Bytes
route_cited = lit "s4" ∷ lit "e4" ∷ lit "p4" ∷ lit "m4" ∷ []

abbrev route_cause : RootCause
route_cause = record {
  conclusion =
      lit
        "payments-api Service selector app=payments-api-disconnected matched no endpoint addresses while payments-api pods remained ready, causing frontend upstream errors";
  component = lit "payments-api";
  cause = cause_broken_selector;
  evidence_ids = lit "s4" ∷ lit "e4" ∷ lit "p4" ∷ lit "m4" ∷ [];
}

route_run :
    verify_broken_service_selector whole_numbers route_records route_cited ≡ some route_cause
unfolding verify_broken_service_selector is_cited payments_service_selector
    payment_endpoint_slices_are_empty payments_pod_is_ready prometheus_range_has_positive_sample
    whole_numbers route_service route_slices route_pods metric equal_fold lit ◌==◌
    cause_broken_selector
route_run = refl

verify_broken_service_selector_sound_example :
    (route_cause.component ≡ lit "payments-api")
    × (route_cause.cause ≡ cause_broken_selector)
    × ((service_id endpoint_id pod_id metric_id : Bytes) × (route_cause.evidence_ids
          ≡ service_id ∷ endpoint_id ∷ pod_id ∷ metric_id ∷ [])
        × Cites route_records route_cited service_disconnected id_of service_id
        × Cites route_records route_cited endpoints_empty id_of endpoint_id
        × Cites route_records route_cited pod_ready id_of pod_id
        × Cites route_records route_cited (frontend_sample whole_numbers) id_of metric_id)
verify_broken_service_selector_sound_example =
    verify_broken_service_selector_sound whole_numbers route_records route_cited route_run

route-Named : Named route_records
unfolding lit ◌==◌ service_disconnected endpoints_empty pod_ready frontend_sample
    payments_service_selector payment_endpoint_slices_are_empty payments_pod_is_ready
    prometheus_range_has_positive_sample whole_numbers route_service route_slices route_pods metric
route-Named = Named-of route_records (refl, (refl, (refl, (refl, tt))))

verify_broken_service_selector_complete_example :
    verify_broken_service_selector whole_numbers route_records route_cited ≢ none
unfolding is_cited equal_fold lit ◌==◌ service_disconnected endpoints_empty pod_ready
    frontend_sample payments_service_selector payment_endpoint_slices_are_empty
    payments_pod_is_ready prometheus_range_has_positive_sample whole_numbers route_service
    route_slices route_pods metric
verify_broken_service_selector_complete_example =
    verify_broken_service_selector_complete whole_numbers route_records route_cited route-Named
      (lit "s4") (route_service, Memᴰ.head refl, Memᴰ.head refl, refl, refl) (lit "e4")
      (route_slices, Memᴰ.tail (Memᴰ.head refl), Memᴰ.tail (Memᴰ.head refl), refl, refl) (lit "p4")
      (
        route_pods,
        Memᴰ.tail (Memᴰ.tail (Memᴰ.head refl)),
        Memᴰ.tail (Memᴰ.tail (Memᴰ.head refl)),
        refl,
        refl,
      )
      (lit "m4")
      (
        error_rate "m4",
        Memᴰ.tail (Memᴰ.tail (Memᴰ.tail (Memᴰ.head refl))),
        Memᴰ.tail (Memᴰ.tail (Memᴰ.tail (Memᴰ.head refl))),
        refl,
        refl,
      )

abbrev slow_records : List Record
slow_records = slow_deployment ∷ slow_frontend ∷ slow_orders ∷ slow_trace ∷ []

abbrev slow_cited : List Bytes
slow_cited = lit "d5" ∷ lit "f5" ∷ lit "o5" ∷ lit "t5" ∷ []

abbrev slow_cause : RootCause
slow_cause = record {
  conclusion =
      lit
        "orders-api was configured with DEMO_ORDER_CPU_BURN_MS=1000, producing at least 900 ms orders spans and elevated successful request latency while checkout still returned HTTP 200";
  component = lit "orders-api";
  cause = cause_excessive_cpu;
  evidence_ids = lit "d5" ∷ lit "f5" ∷ lit "o5" ∷ lit "t5" ∷ [];
}

slow_run : verify_excessive_cpu whole_numbers slow_records slow_cited ≡ some slow_cause
unfolding verify_excessive_cpu is_cited deployment_runtime_value metric_parameter
    prometheus_range_has_sample_at_least trace_shows_slow_successful_checkout whole_numbers runtime
    metric trace span project_trace equal_fold lit ◌==◌ cause_excessive_cpu
slow_run = refl

verify_excessive_cpu_sound_example :
    (slow_cause.component ≡ lit "orders-api")
    × (slow_cause.cause ≡ cause_excessive_cpu)
    × ((deployment_id frontend_metric_id orders_metric_id trace_id : Bytes)
        × (slow_cause.evidence_ids
            ≡ deployment_id ∷ frontend_metric_id ∷ orders_metric_id ∷ trace_id ∷ [])
        × Cites slow_records slow_cited burns_cpu id_of deployment_id
        × Cites slow_records slow_cited (frontend_slow whole_numbers) id_of frontend_metric_id
        × Cites slow_records slow_cited (orders_slow whole_numbers) id_of orders_metric_id
        × Cites slow_records slow_cited trace_slow id_of trace_id)
verify_excessive_cpu_sound_example =
    verify_excessive_cpu_sound whole_numbers slow_records slow_cited slow_run

slow-Named : Named slow_records
unfolding lit ◌==◌ burns_cpu frontend_slow orders_slow trace_slow deployment_runtime_value
    metric_parameter prometheus_range_has_sample_at_least trace_shows_slow_successful_checkout
    whole_numbers runtime metric trace span project_trace
slow-Named = Named-of slow_records (refl, (refl, (refl, (refl, tt))))

verify_excessive_cpu_complete_example :
    verify_excessive_cpu whole_numbers slow_records slow_cited ≢ none
unfolding is_cited equal_fold lit ◌==◌ burns_cpu frontend_slow orders_slow trace_slow
    deployment_runtime_value metric_parameter prometheus_range_has_sample_at_least
    trace_shows_slow_successful_checkout whole_numbers runtime metric trace span project_trace
verify_excessive_cpu_complete_example =
    verify_excessive_cpu_complete whole_numbers slow_records slow_cited slow-Named (lit "d5")
      (slow_deployment, Memᴰ.head refl, Memᴰ.head refl, refl, refl) (lit "f5")
      (slow_frontend, Memᴰ.tail (Memᴰ.head refl), Memᴰ.tail (Memᴰ.head refl), refl, refl) (lit "o5")
      (
        slow_orders,
        Memᴰ.tail (Memᴰ.tail (Memᴰ.head refl)),
        Memᴰ.tail (Memᴰ.tail (Memᴰ.head refl)),
        refl,
        refl,
      )
      (lit "t5")
      (
        slow_trace,
        Memᴰ.tail (Memᴰ.tail (Memᴰ.tail (Memᴰ.head refl))),
        Memᴰ.tail (Memᴰ.tail (Memᴰ.tail (Memᴰ.head refl))),
        refl,
        refl,
      )

abbrev failing_records : List Record
failing_records = failing_deployment ∷ error_rate "m6" ∷ failing_trace ∷ []

abbrev failing_cited : List Bytes
failing_cited = lit "d6" ∷ lit "m6" ∷ lit "t6" ∷ []

abbrev failing_cause : RootCause
failing_cause = record {
  conclusion =
      lit
        "payments-api was configured with DEMO_PAYMENT_MODE=fail; one distributed trace records the originating payment HTTP 503 error and propagated orders-api and frontend HTTP 502 errors";
  component = lit "payments-api";
  cause = cause_payment_failure;
  evidence_ids = lit "d6" ∷ lit "t6" ∷ lit "m6" ∷ [];
}

failing_run :
    verify_payment_failure whole_numbers failing_records failing_cited ≡ some failing_cause
unfolding verify_payment_failure is_cited deployment_runtime_value metric_parameter
    prometheus_range_has_positive_sample trace_shows_payment_failure whole_numbers runtime metric
    trace span project_trace equal_fold lit ◌==◌ cause_payment_failure
failing_run = refl

verify_payment_failure_sound_example :
    (failing_cause.component ≡ lit "payments-api")
    × (failing_cause.cause ≡ cause_payment_failure)
    × ((deployment_id metric_id trace_id : Bytes) × (failing_cause.evidence_ids
          ≡ deployment_id ∷ trace_id ∷ metric_id ∷ [])
        × Cites failing_records failing_cited fails_payments id_of deployment_id
        × Cites failing_records failing_cited (frontend_errors whole_numbers) id_of metric_id
        × Cites failing_records failing_cited trace_failed id_of trace_id)
verify_payment_failure_sound_example =
    verify_payment_failure_sound whole_numbers failing_records failing_cited failing_run

failing-Named : Named failing_records
unfolding lit ◌==◌ fails_payments frontend_errors trace_failed deployment_runtime_value
    metric_parameter prometheus_range_has_positive_sample trace_shows_payment_failure whole_numbers
    runtime metric trace span project_trace
failing-Named = Named-of failing_records (refl, (refl, (refl, tt)))

verify_payment_failure_complete_example :
    verify_payment_failure whole_numbers failing_records failing_cited ≢ none
unfolding is_cited equal_fold lit ◌==◌ fails_payments frontend_errors trace_failed
    deployment_runtime_value metric_parameter prometheus_range_has_positive_sample
    trace_shows_payment_failure whole_numbers runtime metric trace span project_trace
verify_payment_failure_complete_example =
    verify_payment_failure_complete whole_numbers failing_records failing_cited failing-Named
      (lit "d6") (failing_deployment, Memᴰ.head refl, Memᴰ.head refl, refl, refl) (lit "m6")
      (error_rate "m6", Memᴰ.tail (Memᴰ.head refl), Memᴰ.tail (Memᴰ.head refl), refl, refl)
      (lit "t6")
      (
        failing_trace,
        Memᴰ.tail (Memᴰ.tail (Memᴰ.head refl)),
        Memᴰ.tail (Memᴰ.tail (Memᴰ.head refl)),
        refl,
        refl,
      )
