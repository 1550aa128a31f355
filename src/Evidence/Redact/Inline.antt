-- ===== src/Evidence/Redact/Inline.antt =====
-- `sensitiveText` of internal/evidence/collector.go, and the replacement of its matches. At a byte of
-- a text at most one match starts, so backtracking needs no model: the letters of a name, the spaces,
-- the separator and the value have no byte in common with what may follow them.
pub mod Credential
pub mod Masked
use incident_pilot.Common.{
  ℕ, zero, suc, ◌+◌, ◌-◌, Bool, not, ◌&&◌, ◌||◌, Option, none, some, List, [], ◌∷◌, ◌++◌, eqb,
  if◌then◌else◌, length, ◌>>=◌,
}
use incident_pilot.Text.{Bytes, lit}
use incident_pilot.Text.Regex.{upper, lower, digit}

-- `\b` tells these from the others
abbrev pub is_word : ℕ → Bool
is_word c = upper c || lower c || digit c || eqb c b'_'

-- `\s`
abbrev pub is_gap : ℕ → Bool
is_gap c = eqb c 9 || eqb c 10 || eqb c 12 || eqb c 13 || eqb c 32

abbrev pub is_separator : ℕ → Bool
is_separator c = eqb c b':' || eqb c b'='

-- `[^\s,;"}]`
abbrev pub in_value : ℕ → Bool
in_value c = not (is_gap c || eqb c b',' || eqb c b';' || eqb c 34 || eqb c b'}')

abbrev pub small : ℕ → ℕ
small c = if upper c then c + 32 else c

-- `(?i)`: a letter in either case, ſ for an s, and the Kelvin sign for a k
take_kelvin : ℕ → ℕ → ℕ → Bytes → Option (Bytes × Bytes)
take_kelvin k c d [] = none
take_kelvin k c d (e ∷ s) =
    if eqb k b'k' && eqb c 226 && eqb d 132 && eqb e 170 then some (c ∷ d ∷ e ∷ [], s) else none

take_folded : ℕ → ℕ → Bytes → Option (Bytes × Bytes)
unfolding take_kelvin
take_folded k c [] = none
take_folded k c (d ∷ s) =
    if eqb k b's' && eqb c 197 && eqb d 191 then some (c ∷ d ∷ [], s) else take_kelvin k c d s

take_letter : ℕ → Bytes → Option (Bytes × Bytes)
unfolding take_folded
take_letter k [] = none
take_letter k (c ∷ s) = if eqb (small c) k then some (c ∷ [], s) else take_folded k c s

-- a name as it is written in the text, and what follows it
pub take_name : Bytes → Bytes → Option (Bytes × Bytes)
unfolding take_letter
take_name [] s = some ([], s)
take_name (k ∷ ks) s = do
  first ← take_letter k s
  others ← take_name ks first.1
  some (first.0 ++ others.0, others.1)

-- the bytes that pass the test, and what follows them
pub span : (ℕ → Bool) → Bytes → Bytes × Bytes
span p [] = ([], [])
span p (c ∷ s) = let rest = span p s in if p c then (c ∷ rest.0, rest.1) else ([], c ∷ s)

pub starts_with_word : Bytes → Bool
starts_with_word [] = Bool.false
starts_with_word (c ∷ s) = is_word c

same : Bool → Bool → Bool
same a b = a && b || not a && not b

-- a match: the name, what is replaced behind it, and the rest of the text
abbrev pub Match : Type 0
Match = Bytes × Bytes × Bytes

-- the second `\b` is left out: a space or a separator stands there
with_value : Bytes → Bytes → ℕ → Bytes → Option Match
unfolding span
with_value name gap c s =
    let after = span is_gap s in
    let value = span in_value after.1 in
    if is_separator c && not (eqb (length value.0) 0)
    then some (name, gap ++ (c ∷ (after.0 ++ value.0)), value.1)
    else none

after_name : Bytes → Bytes × Bytes → Option Match
unfolding with_value
after_name name (gap, []) = none
after_name name (gap, c ∷ s) = with_value name gap c s

-- `before` tells whether a word character stands before the text
match_name : Bool → Bytes → Bytes → Option Match
unfolding take_name span after_name starts_with_word same
match_name before word s =
    if same before (starts_with_word s) then none else elim (take_name word s) [
      | none ↦ none
      | some found ↦ after_name found.0 (span is_gap found.1)
    ]

abbrev pub names : List Bytes
names = lit "password" ∷ lit "token" ∷ lit "authorization" ∷ lit "secret" ∷ []

first_match : Bool → List Bytes → Bytes → Option Match
unfolding match_name
first_match before [] s = none
first_match before (word ∷ words) s =
    let others = first_match before words s in
    elim (match_name before word s) [ none ↦ others | some found ↦ some found ]

-- ReplaceAllString, with the number of bytes to leave out first
scrub_from : Bool → ℕ → Bytes → Bytes
unfolding first_match
scrub_from before skip [] = []
scrub_from before (suc skip) (c ∷ s) = scrub_from (is_word c) skip s
scrub_from before zero (c ∷ s) =
    let plain = c ∷ scrub_from (is_word c) zero s in
    elim (first_match before names (c ∷ s)) [
      | none ↦ plain
      | some found ↦
          found.0
          ++ (lit "=<redacted>" ++ scrub_from (is_word c) (length found.0 + length found.1 - 1) s)
    ]

unfoldable pub scrub : Bytes → Bytes
unfolding scrub_from
scrub s = scrub_from Bool.false zero s
