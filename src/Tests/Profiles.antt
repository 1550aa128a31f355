-- ===== src/Tests/Profiles.antt =====
-- An external profile with one workload and one alert.
use incident_pilot.Common.{◌≡◌, refl, ◌↔◌, ◌≢◌, ap, true, [], ◌∷◌, ok}
use incident_pilot.Text.{lit, ◌==◌, ==_iff, has_prefix}
use incident_pilot.Text.Regex.{matches}
use incident_pilot.Onboarding.Patterns.{dns_label, label_key, label_value, alert_name}
use incident_pilot.Onboarding.Profile.{
  Profile, demo, accept, workloads_are_valid, alerts_are_valid, verifiers_are_valid,
  valid_dns_label, allows_incident,
}
use incident_pilot.Onboarding.Scope.{External, accept-External}
use incident_pilot.Onboarding.Queries.{InScope, allows_incident_iff}

abbrev pub shop : Profile
shop = record {
  mode = lit "external";
  namespace = lit "shop";
  workloads =
      record {
        name = lit "cart";
        container = lit "app";
        pod_label_key = lit "app.io/name";
        pod_label_value = lit "cart";
      }
      ∷ [];
  alerts = record { name = lit "CartDown"; workload = lit "cart" } ∷ [];
  verifiers = lit "kubernetes_oom" ∷ [];
}

shop_accepted : accept shop ≡ ok shop
unfolding accept workloads_are_valid alerts_are_valid verifiers_are_valid valid_dns_label matches
    dns_label label_key label_value alert_name has_prefix lit ◌==◌
shop_accepted = refl

external_differs : (lit "external" == lit "demo") ≡ true → ⊥
unfolding lit ◌==◌
external_differs h = cc

shop_not_demo : shop ≢ demo
unfolding demo
shop_not_demo e = external_differs ((==_iff (lit "external") (lit "demo")).1 (ap (λ p. p.mode) e))

accept-External_example : (shop ≡ shop) × External shop
accept-External_example = accept-External shop shop shop_accepted shop_not_demo

allows_incident_iff_example :
    (allows_incident shop (lit "shop") (lit "cart") (lit "CartDown") ≡ true)
    ↔ InScope shop (lit "shop") (lit "cart") (lit "CartDown")
allows_incident_iff_example =
    allows_incident_iff shop (lit "shop") (lit "cart") (lit "CartDown")
      (accept-External shop shop shop_accepted shop_not_demo).1
