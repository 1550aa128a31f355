-- ===== src/Agent/Payloads/Deployments.antt =====
-- The Deployments of internal/agent/verify.go.
use incident_pilot.Common.{
  Bool, false, ◌&&◌, Option, none, some, List, [], ◌∷◌, any, if◌then◌else◌, ◌>>=◌,
}
use incident_pilot.Text.{Bytes, lit, ◌==◌}
use incident_pilot.Text.Regex.{matches}
use incident_pilot.Json.{Json, RawMessage, string_at, list_at, map_at, map_value, unmarshal}
use incident_pilot.Agent.Patterns.{image_reference_pattern}

record Limits : Type 0 where
  pub name : Bytes
  pub limits : List (Bytes × Bytes)

read_limits : Json → Option Limits
unfolding string_at map_at
read_limits v = do
  name ← string_at ("name" ∷ []) v
  limits ← map_at ("resources" ∷ "limits" ∷ []) v
  some (record { name = name; limits = limits })

-- the memory limit of the first container called payments-api
payments_limit : List Limits → Bytes
unfolding map_value
payments_limit [] = []
payments_limit (c ∷ cs) =
    if c.name == lit "payments-api" then map_value (lit "memory") c.limits else payments_limit cs

unfoldable pub deployment_memory_limit : RawMessage → Bytes
unfolding read_limits payments_limit unmarshal list_at ◌==◌ lit
deployment_memory_limit raw =
    elim (unmarshal (list_at ("spec" ∷ "template" ∷ "spec" ∷ "containers" ∷ []) read_limits) raw) [
      | none ↦ []
      | some containers ↦ payments_limit containers
    ]

pub record DeploymentImage : Type 0 where
  pub image : Bytes
  pub pull_policy : Bytes

record Container : Type 0 where
  pub name : Bytes
  pub image : Bytes
  pub pull_policy : Bytes

read_container : Json → Option Container
unfolding string_at
read_container v = do
  name ← string_at ("name" ∷ []) v
  image ← string_at ("image" ∷ []) v
  policy ← string_at ("imagePullPolicy" ∷ []) v
  some (record { name = name; image = image; pull_policy = policy })

orders_container : List Container → Option DeploymentImage
unfolding image_reference_pattern
orders_container [] = none
orders_container (c ∷ cs) =
    if c.name == lit "orders-api" && matches image_reference_pattern c.image
    then some (record { image = c.image; pull_policy = c.pull_policy })
    else orders_container cs

unfoldable pub orders_deployment_image : RawMessage → Option DeploymentImage
unfolding read_container orders_container unmarshal list_at ◌==◌ lit matches
orders_deployment_image raw = do
  containers ←
      unmarshal (list_at ("spec" ∷ "template" ∷ "spec" ∷ "containers" ∷ []) read_container) raw
  orders_container containers

record Runtime : Type 0 where
  pub container : Bytes
  pub environment : Bytes
  pub value : Bytes

read_runtime : Json → Option Runtime
unfolding string_at
read_runtime v = do
  container ← string_at ("container" ∷ []) v
  environment ← string_at ("environmentVariable" ∷ []) v
  value ← string_at ("value" ∷ []) v
  some (record { container = container; environment = environment; value = value })

runtime_value : Bytes → Bytes → List Runtime → Bytes
runtime_value container environment [] = []
runtime_value container environment (r ∷ rs) =
    if r.container == container && r.environment == environment
    then r.value
    else runtime_value container environment rs

unfoldable pub deployment_runtime_value : RawMessage → Bytes → Bytes → Bytes
unfolding read_runtime runtime_value unmarshal list_at ◌==◌
deployment_runtime_value raw container environment =
    elim (unmarshal (list_at ("diagnosticRuntimeConfig" ∷ []) read_runtime) raw) [
      | none ↦ []
      | some runtime ↦ runtime_value container environment runtime
    ]

record Reference : Type 0 where
  pub container : Bytes
  pub environment : Bytes
  pub config_map : Bytes
  pub key : Bytes

read_reference : Json → Option Reference
unfolding string_at
read_reference v = do
  container ← string_at ("container" ∷ []) v
  environment ← string_at ("environmentVariable" ∷ []) v
  config_map ← string_at ("configMap" ∷ []) v
  key ← string_at ("key" ∷ []) v
  some (record {
    container = container;
    environment = environment;
    config_map = config_map;
    key = key;
  })

consumes_order_mode : Reference → Bool
consumes_order_mode r =
    r.container == lit "orders-api"
    && r.environment == lit "DEMO_ORDER_MODE"
    && r.config_map == lit "orders-config"
    && r.key == lit "order_mode"

unfoldable pub deployment_references_orders_config : RawMessage → Bool
unfolding read_reference consumes_order_mode unmarshal list_at any ◌==◌ lit
deployment_references_orders_config raw =
    elim (unmarshal (list_at ("diagnosticConfigReferences" ∷ []) read_reference) raw) [
      | none ↦ false
      | some references ↦ any consumes_order_mode references
    ]
