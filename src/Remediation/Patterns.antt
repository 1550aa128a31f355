-- ===== src/Remediation/Patterns.antt =====
-- The regular expressions of internal/remediation/remediation.go.
use incident_pilot.Common.{ℕ, Bool, ◌||◌}
use incident_pilot.Text.{lit}
use incident_pilot.Text.Regex.{
  Regex, class, seq, star, repeat, optional, between, upper, lower, digit, one_of, literal,
}

-- [-a-z0-9]
label_char : ℕ → Bool
unfolding one_of lit
label_char c = one_of (lit "-") c || lower c || digit c

-- ^[a-z0-9]([-a-z0-9]*[a-z0-9])?$
unfoldable pub dns_label_pattern : Regex
unfolding label_char
dns_label_pattern =
    seq (class (λ c. lower c || digit c))
      (optional (seq (star (class label_char)) (class (λ c. lower c || digit c))))

repository_char : ℕ → Bool
unfolding one_of lit
repository_char c = upper c || lower c || digit c || one_of (lit "_.-") c

-- ^[A-Za-z0-9_.-]{1,100}/[A-Za-z0-9_.-]{1,100}$
unfoldable pub repository_pattern : Regex
unfolding repository_char literal lit
repository_pattern =
    seq (repeat 1 100 (class repository_char))
      (seq (literal (lit "/")) (repeat 1 100 (class repository_char)))

path_char : ℕ → Bool
unfolding one_of lit
path_char c = upper c || lower c || digit c || one_of (lit "_./-") c

-- ^[A-Za-z0-9_./-]{1,256}$
unfoldable pub path_pattern : Regex
unfolding path_char
path_pattern = repeat 1 256 (class path_char)

operation_char : ℕ → Bool
unfolding one_of lit
operation_char c = lower c || digit c || one_of (lit "_") c

-- ^[a-z][a-z0-9_]{0,63}$
unfoldable pub operation_pattern : Regex
unfolding operation_char
operation_pattern = seq (class lower) (repeat 0 63 (class operation_char))

-- ^([1-9][0-9]{0,3})Mi$
unfoldable pub memory_pattern : Regex
unfolding literal lit
memory_pattern =
    seq (seq (class (between b'1' b'9')) (repeat 0 3 (class digit))) (literal (lit "Mi"))

branch_char : ℕ → Bool
unfolding one_of lit
branch_char c = upper c || lower c || digit c || one_of (lit "._-") c

-- ^[A-Za-z0-9][A-Za-z0-9._-]{0,127}$
unfoldable pub branch_pattern : Regex
unfolding branch_char
branch_pattern = seq (class (λ c. upper c || lower c || digit c)) (repeat 0 127 (class branch_char))

-- ^[0-9a-f]{40,64}$
unfoldable pub commit_pattern : Regex
commit_pattern = repeat 40 64 (class (λ c. digit c || between b'a' b'f' c))

-- ^[a-z][a-z0-9_]{0,63}$
unfoldable pub failure_code_pattern : Regex
unfolding operation_char
failure_code_pattern = seq (class lower) (repeat 0 63 (class operation_char))
