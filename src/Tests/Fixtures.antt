-- ===== src/Tests/Fixtures.antt =====
-- Evidence records like those of an incident of the demo checkout, one set for each cause.
use Prim.Native.String.{String}
use incident_pilot.Common.{
  ◌≡◌, All, All-Memᴰ, Bool, false, Option, none, some, List, [], ◌∷◌, if◌then◌else◌, not,
}
use incident_pilot.Common.Int.{ℤ, pos, lt_int}
use incident_pilot.Text.{lit, parse_int, ◌==◌, ==_iff}
use incident_pilot.Json.{Json, Items, Members, num, str, arr, obj, nil, cons, end, member}
use incident_pilot.Evidence.{Record}
use incident_pilot.Agent.Payloads.{Floats}
use incident_pilot.Agent.Verify.Cited.{Named}

unfoldable pub text : String → Json
unfolding lit
text s = str (lit s)

unfoldable pub number : String → Json
unfolding lit
number s = num (lit s)

unfoldable pub list_of : List Json → Json
list_of vs = arr (go vs)
  where
    go : List Json → Items
    go [] = nil
    go (v ∷ vs) = cons v (go vs)

unfoldable pub object : List (String × Json) → Json
unfolding lit
object ms = obj (go ms)
  where
    go : List (String × Json) → Members
    go [] = end
    go ((k, v) ∷ ms) = member (lit k) v (go ms)

-- a chain of objects with one member each
unfoldable pub within : List String → Json → Json
unfolding lit
within [] v = v
within (k ∷ ks) v = obj (member (lit k) (within ks v) end)

unfoldable pub record_of : String → String → String → String → Option Json → Json → Record
unfolding lit
record_of id tool source resource parameters payload = record {
  id = lit id;
  collection_id = lit "c";
  incident_id = lit "i";
  tool = lit tool;
  source = lit source;
  collected_at = 0;
  window_start = none;
  window_end = none;
  parameters = parameters;
  summary = [];
  resource_ref = lit resource;
  trace_id = [];
  payload = some payload;
}

-- whole numbers in place of float64, with 1 for both thresholds
abbrev to_whole : ℤ × Bool → Option ℤ
to_whole (n, fine) = if fine then some n else none

abbrev whole_at_least : ℤ → ℤ → Bool
whole_at_least a b = not (lt_int a b)

unfoldable pub whole_numbers : Floats
unfolding parse_int lt_int
whole_numbers = record {
  Float = ℤ;
  parse_float = λ s. to_whole (parse_int s);
  at_least = whole_at_least;
  is_positive = λ a. lt_int (pos 0) a;
  three_quarters = pos 1;
  nine_tenths = pos 1;
}

unfoldable pub oom_pods : Record
unfolding record_of object list_of within text
oom_pods =
    record_of "p1" "kubernetes_get_pods" "kubernetes/pods" "incidentpilot-demo/payments-api" none (
      object (
        (
          "items",
          list_of (
              within ("status" ∷ "containerStatuses" ∷ []) (
                list_of (
                  object (
                    ("name", text "payments-api")
                    ∷ ("lastState", within ("terminated" ∷ "reason" ∷ []) (text "OOMKilled"))
                    ∷ [])
                  ∷ []))
              ∷ []),
        )
        ∷ []))

unfoldable pub oom_deployment : Record
unfolding record_of object list_of within text
oom_deployment =
    record_of "d1" "kubernetes_get_deployment" "kubernetes/deployment"
      "incidentpilot-demo/payments-api" none
      (within ("spec" ∷ "template" ∷ "spec" ∷ "containers" ∷ []) (
        list_of (
          object (
            ("name", text "payments-api")
            ∷ ("resources", within ("limits" ∷ "memory" ∷ []) (text "128Mi"))
            ∷ [])
          ∷ [])))

unfoldable pub image_pods : Record
unfolding record_of object list_of within text
image_pods =
    record_of "p2" "kubernetes_get_pods" "kubernetes/pods" "incidentpilot-demo/orders-api" none (
      object (
        (
          "items",
          list_of (
              object (
                ("metadata", within ("name" ∷ []) (text "orders-1"))
                ∷ (
                  "status",
                  within ("containerStatuses" ∷ []) (
                      list_of (
                        object (
                          ("name", text "orders-api")
                          ∷ ("image", text "orders:bad")
                          ∷ ("state", within ("waiting" ∷ "reason" ∷ []) (text "ErrImagePull"))
                          ∷ [])
                        ∷ [])),
                )
                ∷ [])
              ∷ []),
        )
        ∷ []))

unfoldable pub image_deployment : Record
unfolding record_of object list_of within text
image_deployment =
    record_of "d2" "kubernetes_get_deployment" "kubernetes/deployment"
      "incidentpilot-demo/orders-api" none
      (within ("spec" ∷ "template" ∷ "spec" ∷ "containers" ∷ []) (
        list_of (
          object (
            ("name", text "orders-api")
            ∷ ("image", text "orders:bad")
            ∷ ("imagePullPolicy", text "Always")
            ∷ [])
          ∷ [])))

unfoldable pub image_events : Record
unfolding record_of object list_of within text
image_events =
    record_of "e2" "kubernetes_get_events" "kubernetes/events" "incidentpilot-demo/orders-api" none
      (object (
        (
          "items",
          list_of (
              object (
                ("reason", text "Failed")
                ∷ ("message", text "Failed to pull image orders:bad")
                ∷ ("involvedObject", object (("kind", text "Pod") ∷ ("name", text "orders-1") ∷ []))
                ∷ [])
              ∷ []),
        )
        ∷ []))

-- records whose IDs are not empty
pub Named-of : (records : List Record) → All (λ r. (r.id == []) ≡ false) records → Named records
Named-of records h r m e =
    cc (All-Memᴰ (λ s. (s.id == []) ≡ false) records h m, (==_iff r.id []).1 e)
