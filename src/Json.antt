-- ===== src/Json.antt =====
-- encoding/json as the program uses it. A JSON text stands as its syntax tree, and `none` for a text
-- that is not JSON; the lexer is not modelled. `unmarshal` reads a tree into the fields of a Go
-- struct: a member is found by its name up to letter case, the last one counts, `null` or a missing
-- member leaves the zero value, and a value of the wrong kind anywhere is an error.
mod Tree
mod Decode
pub use Tree.{
  Json, Items, Members, null, bool, num, str, arr, obj, nil, cons, end, member, RawMessage,
}
unfoldable pub use Decode.{
  elements, entries, get_field, fields, as_object, as_string, as_int, as_bool, as_raw, as_list,
  as_map, string_at, int_at, bool_at, list_at, map_at, map_value, unmarshal,
}
