-- ===== src/Text/Print.antt =====
-- strconv.Itoa, and the verb %d.
use incident_pilot.Common.{
  ℕ, zero, suc, ◌+◌, ◌/◌, ◌%◌, ◌≡◌, refl, [], ◌∷◌, ◌++◌, ltb, if◌then◌else◌,
}
use incident_pilot.Common.Int.{ℤ, pos, negsuc}
use incident_pilot.Text.Strings.{Bytes, lit}

-- the decimal digits; a number has fewer digits than its successor counts
show_digits : ℕ → ℕ → Bytes
show_digits zero n = []
show_digits (suc fuel) n =
    let front = show_digits fuel (n / 10) in
    if ltb n 10 then (b'0' + n) ∷ [] else front ++ (b'0' + n % 10) ∷ []

unfoldable pub show_int : ℤ → Bytes
unfolding show_digits lit
show_int (pos n) = show_digits (suc n) n
show_int (negsuc n) = lit "-" ++ show_digits (suc (suc n)) (suc n)

show_int_runs : show_int (pos 429) ≡ lit "429"
unfolding show_int lit
show_int_runs = refl
