-- ===== src/Tests/Causes.antt =====
-- The verifiers on the records of an out-of-memory kill, a bad image and an invalid order mode.
use incident_pilot.Common.{◌≡◌, refl, some, none, List, [], ◌∷◌, Memᴰ, ◌≢◌}
use incident_pilot.Json.{RawMessage}
use incident_pilot.Text.{Bytes, lit, ◌==◌, equal_fold, contains, to_lower}
use incident_pilot.Text.Regex.{matches}
use incident_pilot.Evidence.{Record}
use incident_pilot.Agent.Types.{
  RootCause, cause_memory_limit_oom, cause_unpullable_image, cause_invalid_order_mode,
}
use incident_pilot.Agent.Payloads.{
  pods_show_oom, deployment_memory_limit, pod_waiting_for_image, orders_deployment_image,
  events_show_failed_pull, orders_config_is_unsupported, deployment_references_orders_config,
  orders_crash_loop_pod, logs_show_invalid_order_mode, ImagePullPod, DeploymentImage,
}
use incident_pilot.Agent.Patterns.{memory_limit_pattern, image_reference_pattern}
use incident_pilot.Agent.Verify.Cited.{is_cited, Cites, Named, id_of}
use incident_pilot.Agent.Verify.Oom.{
  verify_oom, verify_oom_sound, verify_oom_complete, pod_shows_oom, shows_limit, limit_of,
}
use incident_pilot.Agent.Verify.ImagePull.{
  verify_image_pull, pod_waits, names_image, lists_events, pod_of, image_of, events_of,
}
use incident_pilot.Agent.Verify.ImagePull.Sound.{Agrees, verify_image_pull_sound}
use incident_pilot.Agent.Verify.OrderConfig.{
  verify_invalid_order_config, config_unsupported, consumes_config, pod_crashes, crash_of, logs_of,
}
use incident_pilot.Agent.Verify.OrderConfig.Sound.{verify_invalid_order_config_sound}
use incident_pilot.Tests.Fixtures.{
  oom_pods, oom_deployment, image_pods, image_deployment, image_events, Named-of,
}
use incident_pilot.Tests.Workloads.{order_config, order_deployment, order_pods, order_log}

abbrev pub oom_records : List Record
oom_records = oom_pods ∷ oom_deployment ∷ []

abbrev pub oom_cited : List Bytes
oom_cited = lit "p1" ∷ lit "d1" ∷ []

abbrev pub oom_cause : RootCause
oom_cause = record {
  conclusion =
      lit
        "payments-api was OOMKilled while its Deployment memory limit was 128Mi; the limit did not sustain the workload";
  component = lit "payments-api";
  cause = cause_memory_limit_oom;
  evidence_ids = lit "p1" ∷ lit "d1" ∷ [];
}

oom_run : verify_oom oom_records oom_cited ≡ some oom_cause
unfolding verify_oom is_cited pods_show_oom deployment_memory_limit matches memory_limit_pattern
    oom_pods oom_deployment equal_fold lit ◌==◌ cause_memory_limit_oom
oom_run = refl

verify_oom_sound_example :
    (oom_cause.component ≡ lit "payments-api")
    × (oom_cause.cause ≡ cause_memory_limit_oom)
    × ((pod deployment limit : Bytes) × (oom_cause.evidence_ids ≡ pod ∷ deployment ∷ [])
        × Cites oom_records oom_cited pod_shows_oom id_of pod
        × Cites oom_records oom_cited shows_limit limit_of (deployment, limit))
verify_oom_sound_example = verify_oom_sound oom_records oom_cited oom_run

oom-Named : Named oom_records
unfolding lit ◌==◌ pod_shows_oom shows_limit pods_show_oom deployment_memory_limit matches
    memory_limit_pattern oom_pods oom_deployment
oom-Named = Named-of oom_records (refl, (refl, tt))

verify_oom_complete_example : verify_oom oom_records oom_cited ≢ none
unfolding is_cited equal_fold lit ◌==◌ pod_shows_oom shows_limit pods_show_oom
    deployment_memory_limit matches memory_limit_pattern oom_pods oom_deployment
verify_oom_complete_example =
    verify_oom_complete oom_records oom_cited oom-Named (lit "p1")
      (oom_pods, Memᴰ.head refl, Memᴰ.head refl, refl, refl) (lit "d1", lit "128Mi")
      (oom_deployment, Memᴰ.tail (Memᴰ.head refl), Memᴰ.tail (Memᴰ.head refl), refl, refl)

abbrev image_records : List Record
image_records = image_pods ∷ image_deployment ∷ image_events ∷ []

abbrev image_cited : List Bytes
image_cited = lit "e2" ∷ lit "d2" ∷ lit "p2" ∷ []

abbrev image_cause : RootCause
image_cause = record {
  conclusion =
      lit
        "orders-api Deployment references image orders:bad with pull policy Always; its new pod entered ErrImagePull after Kubernetes failed to pull that image";
  component = lit "orders-api";
  cause = cause_unpullable_image;
  evidence_ids = lit "p2" ∷ lit "d2" ∷ lit "e2" ∷ [];
}

image_run : verify_image_pull image_records image_cited ≡ some image_cause
unfolding verify_image_pull is_cited pod_waiting_for_image orders_deployment_image
    events_show_failed_pull matches image_reference_pattern contains to_lower image_pods
    image_deployment image_events equal_fold lit ◌==◌ cause_unpullable_image
image_run = refl

verify_image_pull_sound_example :
    (image_cause.component ≡ lit "orders-api")
    × (image_cause.cause ≡ cause_unpullable_image)
    × ((pod : Bytes × ImagePullPod) × (deployment : Bytes × DeploymentImage) × (event : Bytes
          × RawMessage)
        × (image_cause.evidence_ids ≡ pod.0 ∷ deployment.0 ∷ event.0 ∷ [])
        × Cites image_records image_cited pod_waits pod_of pod
        × Cites image_records image_cited names_image image_of deployment
        × Cites image_records image_cited lists_events events_of event
        × Agrees pod.1 deployment.1 event.1)
verify_image_pull_sound_example = verify_image_pull_sound image_records image_cited image_run

abbrev order_records : List Record
order_records = order_log ∷ order_config ∷ order_deployment ∷ order_pods ∷ []

abbrev order_cited : List Bytes
order_cited = lit "c3" ∷ lit "d3" ∷ lit "p3" ∷ lit "l3" ∷ []

abbrev order_cause : RootCause
order_cause = record {
  conclusion =
      lit
        "orders-api consumed orders-config key order_mode=unsupported through DEMO_ORDER_MODE; pod orders-2 entered CrashLoopBackOff and logged an invalid order mode";
  component = lit "orders-api";
  cause = cause_invalid_order_mode;
  evidence_ids = lit "c3" ∷ lit "d3" ∷ lit "p3" ∷ lit "l3" ∷ [];
}

order_run : verify_invalid_order_config order_records order_cited ≡ some order_cause
unfolding verify_invalid_order_config is_cited orders_config_is_unsupported
    deployment_references_orders_config orders_crash_loop_pod logs_show_invalid_order_mode matches
    image_reference_pattern contains order_log order_config order_deployment order_pods equal_fold
    lit ◌==◌ cause_invalid_order_mode
order_run = refl

verify_invalid_order_config_sound_example :
    (order_cause.component ≡ lit "orders-api")
    × (order_cause.cause ≡ cause_invalid_order_mode)
    × ((config deployment : Bytes) × (pod : Bytes × Bytes) × (log : Bytes)
        × (order_cause.evidence_ids ≡ config ∷ deployment ∷ pod.0 ∷ log ∷ [])
        × Cites order_records order_cited config_unsupported id_of config
        × Cites order_records order_cited consumes_config id_of deployment
        × Cites order_records order_cited pod_crashes crash_of pod
        × Cites order_records order_cited (logs_of pod.1) id_of log)
verify_invalid_order_config_sound_example =
    verify_invalid_order_config_sound order_records order_cited order_run
