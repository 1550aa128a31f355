-- ===== src/Agent/Patterns.antt =====
-- The regular expressions of internal/agent/verify.go.
use incident_pilot.Common.{ℕ, Bool, ◌||◌}
use incident_pilot.Text.{lit}
use incident_pilot.Text.Regex.{
  Regex, class, seq, alt, star, repeat, between, upper, lower, digit, one_of, literal,
}

-- ^[1-9][0-9]*(Mi|Gi)$
unfoldable pub memory_limit_pattern : Regex
unfolding literal lit
memory_limit_pattern =
    seq (class (between b'1' b'9'))
      (seq (star (class digit)) (alt (literal (lit "Mi")) (literal (lit "Gi"))))

image_char : ℕ → Bool
unfolding one_of lit
image_char c = upper c || lower c || digit c || one_of (lit "./:_@-") c

-- ^[A-Za-z0-9][A-Za-z0-9./:_@-]{0,254}$
unfoldable pub image_reference_pattern : Regex
unfolding image_char
image_reference_pattern =
    seq (class (λ c. upper c || lower c || digit c)) (repeat 0 254 (class image_char))
