-- ===== src/Text/Decimal.antt =====
-- strconv.Atoi and strconv.ParseInt(s, 10, 64).
use incident_pilot.Common.{
  ℕ, zero, suc, ◌+◌, ◌-◌, ◌*◌, ◌^◌, ◌≡◌, refl, Bool, true, false, not, ◌&&◌, [], ◌∷◌, leb, ltb, eqb,
  if◌then◌else◌,
}
use incident_pilot.Common.Int.{ℤ, pos, negsuc}
use incident_pilot.Text.Strings.{Bytes, lit}

unfoldable pub is_digit : ℕ → Bool
is_digit c = leb b'0' c && leb c b'9'

-- how a parse ended: well, on a byte that is no digit, or above the largest value
pub data Outcome : Type 0 where
  parsed bad_syntax out_of_range : Outcome

-- strconv.ParseUint(s, 10, 64) after the digits of `n`
parse_uint : ℕ → Bytes → ℕ × Outcome
unfolding is_digit
parse_uint n [] = (n, parsed)
parse_uint n (c ∷ cs) =
    let next = n * 10 + (c - b'0') in
    let rest = parse_uint next cs in
    if not (is_digit c)
    then (0, bad_syntax)
    else if leb (2 ^ 64) next
    then (2 ^ 64 - 1, out_of_range)
    else rest

abbrev opposite : ℕ → ℤ
opposite zero = pos 0
opposite (suc k) = negsuc k

abbrev is_parsed : Outcome → Bool
is_parsed parsed = true
is_parsed _ = false

signed : Bool → ℕ → Outcome → ℤ × Bool
signed minus n bad_syntax = (pos 0, false)
signed true n out =
    if ltb (2 ^ 63) n then (negsuc (2 ^ 63 - 1), false) else (opposite n, is_parsed out)
signed false n out = if leb (2 ^ 63) n then (pos (2 ^ 63 - 1), false) else (pos n, is_parsed out)

digits_after : Bool → Bytes → ℤ × Bool
unfolding parse_uint signed
digits_after minus [] = (pos 0, false)
digits_after minus (c ∷ cs) = let (n, out) = parse_uint 0 (c ∷ cs) in signed minus n out

-- strconv.ParseInt(s, 10, 64): the value, which is the nearest one on an overflow, and `err == nil`
unfoldable pub parse_int : Bytes → ℤ × Bool
unfolding digits_after
parse_int [] = (pos 0, false)
parse_int (c ∷ cs) =
    if eqb c b'-'
    then digits_after true cs
    else if eqb c b'+'
    then digits_after false cs
    else digits_after false (c ∷ cs)

parse_int_runs : parse_int (lit "-12") ≡ (negsuc 11, true)
unfolding parse_int lit
parse_int_runs = refl

parse_int_clamps : parse_int (lit "9223372036854775808") ≡ (pos 9223372036854775807, false)
unfolding parse_int lit
parse_int_clamps = refl
