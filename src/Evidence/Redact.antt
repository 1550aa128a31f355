-- ===== src/Evidence/Redact.antt =====
-- `redactPayload` and `redactValue` of internal/evidence/collector.go. The text of a
-- float64 is a parameter, of the library.
pub mod Clean
pub mod Inline
use incident_pilot.Common.{
  ◌≡◌, refl, Bool, ◌||◌, Option, none, some, [], ◌∷◌, if◌then◌else◌, ◌>>=◌, any,
}
use incident_pilot.Text.{Bytes, lit, ◌==◌, to_lower}
use incident_pilot.Sorting.{le_bytes}
use incident_pilot.Evidence.Redact.Inline.{scrub}
use incident_pilot.Json.{
  Json, Items, Members, null, bool, num, str, arr, obj, nil, cons, end, member,
}

pub record Redactor : Type 0 where
  -- a number read as a float64 and written again; `none` when it is out of range
  pub number : Bytes → Option Bytes

-- out[key] = v, for a map whose keys are written in increasing order
put : Bytes → Json → Members → Members
unfolding le_bytes
put key v end = member key v end
put key v (member k w ms) =
    let rest = put key v ms in
    if key == k
    then member key v ms
    else if le_bytes key k
    then member key v (member k w ms)
    else member k w rest

unfoldable pub is_sensitive : Bytes → Bool
unfolding to_lower
is_sensitive key =
    let k = to_lower key in
    k == lit "password"
    || k == lit "token"
    || k == lit "authorization"
    || k == lit "secret"
    || k == lit "secretkeyref"
    || k == lit "stringdata"

unfoldable mutual
  unfolding is_sensitive scrub

  pub redact_value : Json → Json
  redact_value (obj ms) = obj (redact_members ms)
  redact_value (arr vs) = arr (redact_items vs)
  redact_value (str s) = str (scrub s)
  redact_value null = null
  redact_value (bool b) = bool b
  redact_value (num n) = num n

  pub redact_items : Items → Items
  redact_items nil = nil
  redact_items (cons v vs) = cons (redact_value v) (redact_items vs)

  pub redact_members : Members → Members
  redact_members end = end
  redact_members (member k v ms) =
      if is_sensitive k
      then member k (str (lit "<redacted>")) (redact_members ms)
      else member k (redact_value v) (redact_members ms)

module _ (r : Redactor) where
  -- json.Unmarshal into `any`; a later member of a name replaces an earlier one
  unfoldable mutual
    unfolding put

    pub decode_any : Json → Option Json
    decode_any null = some null
    decode_any (bool b) = some (bool b)
    decode_any (num n) = do m ← Redactor.number r n; some (num m)
    decode_any (str s) = some (str s)
    decode_any (arr vs) = do ws ← decode_items vs; some (arr ws)
    decode_any (obj ms) = do ws ← decode_members ms end; some (obj ws)

    decode_items : Items → Option Items
    decode_items nil = some nil
    decode_items (cons v vs) = do w ← decode_any v; ws ← decode_items vs; some (cons w ws)

    decode_members : Members → Members → Option Members
    decode_members end out = some out
    decode_members (member k v ms) out = do w ← decode_any v; decode_members ms (put k w out)

  unfoldable pub redact_payload : Json → Option Json
  unfolding decode_any redact_value
  redact_payload raw = do v ← decode_any raw; some (redact_value v)
