-- ===== src/Onboarding/Patterns.antt =====
-- The regular expressions of internal/onboarding/profile.go.
use incident_pilot.Common.{ℕ, Bool, ◌||◌}
use incident_pilot.Text.{lit}
use incident_pilot.Text.Regex.{
  Regex, class, seq, star, optional, upper, lower, digit, one_of, literal,
}

-- [a-z0-9]
small : ℕ → Bool
small c = lower c || digit c

-- [A-Za-z0-9]
letter : ℕ → Bool
letter c = upper c || lower c || digit c

-- first(rest*last)?
run : (ℕ → Bool) → (ℕ → Bool) → Regex
run ends inner = seq (class ends) (optional (seq (star (class inner)) (class ends)))

small_or_dash : ℕ → Bool
unfolding small one_of lit
small_or_dash c = one_of (lit "-") c || small c

small_dash_or_dot : ℕ → Bool
unfolding small one_of lit
small_dash_or_dot c = one_of (lit "-.") c || small c

letter_or_mark : ℕ → Bool
unfolding letter one_of lit
letter_or_mark c = one_of (lit "-_.") c || letter c

-- ^[a-z0-9]([-a-z0-9]*[a-z0-9])?$
unfoldable pub dns_label : Regex
unfolding run small_or_dash small
dns_label = run small small_or_dash

-- ^([a-z0-9]([-a-z0-9.]*[a-z0-9])?/)?[A-Za-z0-9]([-A-Za-z0-9_.]*[A-Za-z0-9])?$
unfoldable pub label_key : Regex
unfolding run small small_dash_or_dot letter letter_or_mark literal lit
label_key =
    seq (optional (seq (run small small_dash_or_dot) (literal (lit "/"))))
      (run letter letter_or_mark)

-- ^([A-Za-z0-9]([-A-Za-z0-9_.]*[A-Za-z0-9])?)?$
unfoldable pub label_value : Regex
unfolding run letter letter_or_mark
label_value = optional (run letter letter_or_mark)

alert_first : ℕ → Bool
unfolding one_of lit
alert_first c = upper c || lower c || one_of (lit "_:") c

alert_rest : ℕ → Bool
unfolding alert_first
alert_rest c = alert_first c || digit c

-- ^[A-Za-z_:][A-Za-z0-9_:]*$
unfoldable pub alert_name : Regex
unfolding alert_first alert_rest
alert_name = seq (class alert_first) (star (class alert_rest))
