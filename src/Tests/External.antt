-- ===== src/Tests/External.antt =====
-- An out-of-memory kill in a namespace of an external profile.
use incident_pilot.Common.{◌≡◌, refl, ◌*◌, some, none, List, [], ◌∷◌}
use incident_pilot.Text.{lit, ◌==◌, equal_fold, has_prefix}
use incident_pilot.Text.Regex.{matches}
use incident_pilot.Time.{day}
use incident_pilot.Incident.{Incident}
use incident_pilot.Evidence.{Record}
use incident_pilot.Onboarding.Profile.{pod_label, workload_of}
use incident_pilot.Agent.Types.{RootCause, cause_memory_limit_oom}
use incident_pilot.Agent.Patterns.{memory_limit_pattern}
use incident_pilot.Agent.External.Payloads.{Clock, scoped_deployment_container, scoped_pods, recent}
use incident_pilot.Agent.External.Verify.{
  by_tool, first_cause, verifier, external_oom, external_verified_cause,
}
use incident_pilot.Agent.External.Sound.{Supported, external_verified_cause_sound}
use incident_pilot.Tests.Fixtures.{text, list_of, object, within, record_of}
use incident_pilot.Tests.Reports.{checkout}
use incident_pilot.Tests.Profiles.{shop}

abbrev clock : Clock
clock = record { parse_time = λ s. some (400 * day); now = 400 * day }

abbrev cart_down : Incident
cart_down = record checkout {
  namespace = lit "shop";
  service = lit "cart";
  alert_name = lit "CartDown";
}

unfoldable cart_deployment : Record
unfolding record_of object list_of within text
cart_deployment =
    record_of "d7" "kubernetes_get_deployment" "kubernetes/deployment" "shop/cart" none (
      object (
        ("metadata", within ("name" ∷ []) (text "cart"))
        ∷ (
          "spec",
          within ("template" ∷ "spec" ∷ "containers" ∷ []) (
              list_of (
                object (
                  ("name", text "app")
                  ∷ ("resources", within ("limits" ∷ "memory" ∷ []) (text "64Mi"))
                  ∷ [])
                ∷ [])),
        )
        ∷ []))

unfoldable cart_pods : Record
unfolding record_of object list_of within text
cart_pods = record_of "p7" "kubernetes_get_pods" "kubernetes/pods" "shop/cart" none (
    within ("items" ∷ []) (
      list_of (
        object (
          (
            "metadata",
            object (
                ("name", text "cart-1")
                ∷ ("labels", within ("app.io/name" ∷ []) (text "cart"))
                ∷ []),
          )
          ∷ (
            "spec",
            within ("containers" ∷ []) (
                list_of (
                  object (
                    ("name", text "app")
                    ∷ ("resources", within ("limits" ∷ "memory" ∷ []) (text "64Mi"))
                    ∷ [])
                  ∷ [])),
          )
          ∷ (
            "status",
            within ("containerStatuses" ∷ []) (
                list_of (
                  object (
                    ("name", text "app")
                    ∷ (
                      "lastState",
                      within ("terminated" ∷ [])
                          (object (("reason", text "OOMKilled") ∷ ("finishedAt", text "now") ∷ [])),
                    )
                    ∷ [])
                  ∷ [])),
          )
          ∷ [])
        ∷ [])))

abbrev cart_records : List Record
cart_records = cart_pods ∷ cart_deployment ∷ []

abbrev cart_cause : RootCause
cart_cause = record {
  conclusion = lit "app container in pod cart-1 was OOMKilled with a configured 64Mi memory limit";
  component = lit "cart";
  cause = cause_memory_limit_oom;
  evidence_ids = lit "p7" ∷ lit "d7" ∷ [];
}

cart_run : external_verified_cause clock shop cart_down cart_records ≡ some cart_cause
unfolding external_verified_cause workload_of by_tool first_cause verifier external_oom
    scoped_deployment_container scoped_pods recent pod_label matches memory_limit_pattern has_prefix
    equal_fold lit ◌==◌ cause_memory_limit_oom cart_deployment cart_pods
cart_run = refl

external_verified_cause_sound_example : Supported clock shop cart_down cart_records cart_cause
external_verified_cause_sound_example =
    external_verified_cause_sound clock shop cart_down cart_records cart_run
