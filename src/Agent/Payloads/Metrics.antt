-- ===== src/Agent/Payloads/Metrics.antt =====
-- The Prometheus ranges of internal/agent/verify.go. float64 is a parameter: the type, the parser of
-- strconv.ParseFloat and the three comparisons that the program makes.
use incident_pilot.Common.{Bool, false, Option, none, some, List, [], ◌∷◌, any, ◌>>=◌}
use incident_pilot.Text.{Bytes}
use incident_pilot.Json.{
  Json, RawMessage, as_string, as_raw, as_list, string_at, list_at, unmarshal,
}

pub record Floats : Type 1 where
  pub Float : Type 0
  -- strconv.ParseFloat(s, 64); `none` is an error
  pub parse_float : Bytes → Option Float
  -- x >= y
  pub at_least : Float → Float → Bool
  -- x > 0
  pub is_positive : Float → Bool
  -- the constants 0.75 and 0.9
  pub three_quarters : Float
  pub nine_tenths : Float

unfoldable pub metric_parameter : RawMessage → Bytes
unfolding string_at unmarshal
metric_parameter raw = elim (unmarshal (string_at ("metric" ∷ [])) raw) [
  | none ↦ []
  | some metric ↦ metric
]

-- result[].values[], each a list of raw values
read_series : Json → Option (List (List (List Json)))
unfolding list_at as_list as_raw
read_series = list_at ("result" ∷ []) (list_at ("values" ∷ []) (as_list as_raw))

module _ (floats : Floats) (passes : Floats.Float floats → Bool) where
  sample_passes : List Json → Bool
  unfolding as_string
  sample_passes (time ∷ value ∷ []) = elim (as_string value >>= Floats.parse_float floats) [
    | none ↦ false
    | some x ↦ passes x
  ]
  sample_passes sample = false

  range_has : RawMessage → Bool
  unfolding read_series sample_passes unmarshal any
  range_has raw = elim (unmarshal read_series raw) [
    | none ↦ false
    | some series ↦ any (any sample_passes) series
  ]

unfoldable pub prometheus_range_has_sample_at_least :
    (floats : Floats) → RawMessage → Floats.Float floats → Bool
unfolding range_has
prometheus_range_has_sample_at_least floats raw minimum =
    range_has floats (λ x. Floats.at_least floats x minimum) raw

unfoldable pub prometheus_range_has_positive_sample : (floats : Floats) → RawMessage → Bool
unfolding range_has
prometheus_range_has_positive_sample floats raw = range_has floats (Floats.is_positive floats) raw
