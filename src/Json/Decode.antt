-- ===== src/Json/Decode.antt =====
-- json.Unmarshal, one function for each kind of Go field.
use Prim.Native.String.{String}
use incident_pilot.Common.{
  ◌≡◌, refl, Bool, false, Option, none, some, List, [], ◌∷◌, if◌then◌else◌, ◌>>=◌,
}
use incident_pilot.Common.Int.{ℤ, pos}
use incident_pilot.Text.{Bytes, lit, ◌==◌, equal_fold, parse_int}
use incident_pilot.Json.Tree.{
  Json, Items, Members, null, bool, num, str, arr, obj, nil, cons, end, member, RawMessage,
}

unfoldable pub elements : Items → List Json
elements nil = []
elements (cons v vs) = v ∷ elements vs

unfoldable pub entries : Members → List (Bytes × Json)
entries end = []
entries (member k v ms) = (k, v) ∷ entries ms

-- the last member whose name is `name` up to letter case
find_member : Bytes → Json → Members → Json
find_member name v end = v
find_member name v (member k w ms) = find_member name (if equal_fold k name then w else v) ms

-- the value for a struct field; `null` where the object has none
unfoldable pub get_field : Bytes → Json → Json
unfolding find_member
get_field name (obj ms) = find_member name null ms
get_field name v = null

-- a value for a struct: an object, or `null`
unfoldable pub as_object : Json → Option Json
as_object (obj ms) = some (obj ms)
as_object null = some null
as_object v = none

unfoldable pub as_string : Json → Option Bytes
as_string (str s) = some s
as_string null = some []
as_string v = none

-- an `int` or `int64` field: fractions, exponents and values out of range are errors
unfoldable pub as_int : Json → Option ℤ
as_int (num text) = let (n, fine) = parse_int text in if fine then some n else none
as_int null = some (pos 0)
as_int v = none

unfoldable pub as_bool : Json → Option Bool
as_bool (bool b) = some b
as_bool null = some false
as_bool v = none

-- a json.RawMessage field takes any value; a missing one stays empty
unfoldable pub as_raw : Json → Option Json
as_raw v = some v

module _ {A : Type 0} (read : Json → Option A) where
  all_items : List Json → Option (List A)
  all_items [] = some []
  all_items (v ∷ vs) = do a ← read v; rest ← all_items vs; some (a ∷ rest)

  all_entries : List (Bytes × Json) → Option (List (Bytes × A))
  all_entries [] = some []
  all_entries ((k, v) ∷ ms) = do a ← read v; rest ← all_entries ms; some ((k, a) ∷ rest)

  -- a slice
  unfoldable pub as_list : Json → Option (List A)
  unfolding all_items elements
  as_list (arr vs) = all_items (elements vs)
  as_list null = some []
  as_list v = none

  -- a map with string keys
  unfoldable pub as_map : Json → Option (List (Bytes × A))
  unfolding all_entries entries
  as_map (obj ms) = all_entries (entries ms)
  as_map null = some []
  as_map v = none

-- a field of a struct, or of the structs within it, by the names on the way
unfoldable pub fields : List String → Json → Option Json
unfolding as_object get_field
fields [] v = some v
fields (name ∷ path) v = do o ← as_object v; fields path (get_field (lit name) o)

unfoldable pub string_at : List String → Json → Option Bytes
unfolding fields as_string
string_at path v = do w ← fields path v; as_string w

unfoldable pub int_at : List String → Json → Option ℤ
unfolding fields as_int
int_at path v = do w ← fields path v; as_int w

unfoldable pub bool_at : List String → Json → Option Bool
unfolding fields as_bool
bool_at path v = do w ← fields path v; as_bool w

unfoldable pub list_at : {A : Type 0} → List String → (Json → Option A) → Json → Option (List A)
unfolding fields as_list
list_at path read v = do w ← fields path v; as_list read w

unfoldable pub map_at : List String → Json → Option (List (Bytes × Bytes))
unfolding fields as_map as_string
map_at path v = do w ← fields path v; as_map as_string w

last_value : Bytes → Bytes → List (Bytes × Bytes) → Bytes
last_value key v [] = v
last_value key v ((k, w) ∷ m) = last_value key (if k == key then w else v) m

unfoldable pub map_value : Bytes → List (Bytes × Bytes) → Bytes
unfolding last_value
map_value key m = last_value key [] m

unfoldable pub unmarshal {ℓ} : {A : Type ℓ} → (Json → Option A) → RawMessage → Option A
unmarshal read none = none
unmarshal read (some v) = read v

get_field_runs :
    get_field (lit "name") (obj (member (lit "Name") (str (lit "x")) end)) ≡ str (lit "x")
unfolding get_field equal_fold lit
get_field_runs = refl
