-- ===== src/Agent/Payloads/Cluster.antt =====
-- The events, the orders-config map, the pod logs, the Service and the EndpointSlices of
-- internal/agent/verify.go.
use incident_pilot.Common.{
  Bool, true, false, ◌&&◌, ◌||◌, Option, none, some, List, [], ◌∷◌, any, all, ◌>>=◌,
}
use incident_pilot.Text.{Bytes, lit, ◌==◌, contains, to_lower}
use incident_pilot.Json.{
  Json, RawMessage, as_string, string_at, list_at, map_at, map_value, unmarshal,
}

record Event : Type 0 where
  pub reason : Bytes
  pub message : Bytes
  pub kind : Bytes
  pub name : Bytes

read_event : Json → Option Event
unfolding string_at
read_event v = do
  reason ← string_at ("reason" ∷ []) v
  message ← string_at ("message" ∷ []) v
  kind ← string_at ("involvedObject" ∷ "kind" ∷ []) v
  name ← string_at ("involvedObject" ∷ "name" ∷ []) v
  some (record { reason = reason; message = message; kind = kind; name = name })

failed_pull : Bytes → Bytes → Event → Bool
unfolding contains to_lower
failed_pull pod image e =
    e.kind == lit "Pod"
    && e.name == pod
    && e.reason == lit "Failed"
    && contains (to_lower e.message) (lit "pull image")
    && contains e.message image

unfoldable pub events_show_failed_pull : RawMessage → Bytes → Bytes → Bool
unfolding read_event failed_pull unmarshal list_at any ◌==◌ lit
events_show_failed_pull raw pod image = elim (unmarshal (list_at ("items" ∷ []) read_event) raw) [
  | none ↦ false
  | some events ↦ any (failed_pull pod image) events
]

record OrdersConfig : Type 0 where
  pub name : Bytes
  pub order_mode : Bytes

read_config : Json → Option OrdersConfig
unfolding string_at
read_config v = do
  name ← string_at ("metadata" ∷ "name" ∷ []) v
  mode ← string_at ("data" ∷ "order_mode" ∷ []) v
  some (record { name = name; order_mode = mode })

unfoldable pub orders_config_is_unsupported : RawMessage → Bool
unfolding read_config unmarshal ◌==◌ lit
orders_config_is_unsupported raw = elim (unmarshal read_config raw) [
  | none ↦ false
  | some config ↦ config.name == lit "orders-config" && config.order_mode == lit "unsupported"
]

unfoldable pub logs_show_invalid_order_mode : RawMessage → Bool
unfolding string_at unmarshal contains lit
logs_show_invalid_order_mode raw = elim (unmarshal (string_at ("text" ∷ [])) raw) [
  | none ↦ false
  | some text ↦
      contains text (lit "invalid order mode \"unsupported\"")
      || contains text (lit "invalid order mode \\\"unsupported\\\"")
]

unfoldable pub payments_service_selector : RawMessage → Bytes
unfolding map_at map_value unmarshal lit
payments_service_selector raw = elim (unmarshal (map_at ("spec" ∷ "selector" ∷ [])) raw) [
  | none ↦ []
  | some selector ↦ map_value (lit "app") selector
]

record Slice : Type 0 where
  pub labels : List (Bytes × Bytes)
  -- the addresses of each endpoint
  pub endpoints : List (List Bytes)

read_slice : Json → Option Slice
unfolding map_at list_at as_string
read_slice v = do
  labels ← map_at ("metadata" ∷ "labels" ∷ []) v
  endpoints ← list_at ("endpoints" ∷ []) (list_at ("addresses" ∷ []) as_string) v
  some (record { labels = labels; endpoints = endpoints })

no_address : List Bytes → Bool
no_address [] = true
no_address (a ∷ addresses) = false

empty_slice : Slice → Bool
unfolding map_value all no_address
empty_slice s =
    map_value (lit "kubernetes.io/service-name") s.labels == lit "payments-api"
    && all no_address s.endpoints

unfoldable pub payment_endpoint_slices_are_empty : RawMessage → Bool
unfolding read_slice empty_slice unmarshal list_at all ◌==◌ lit
payment_endpoint_slices_are_empty raw = elim (unmarshal (list_at ("items" ∷ []) read_slice) raw) [
  | none ↦ false
  | some [] ↦ false
  | some (s ∷ slices) ↦ all empty_slice (s ∷ slices)
]
