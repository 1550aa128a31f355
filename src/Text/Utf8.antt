-- ===== src/Text/Utf8.antt =====
-- utf8.ValidString and strings.ToValidUTF8(s, "").
use incident_pilot.Common.{
  ℕ, zero, suc, ◌≡◌, refl, Bool, true, false, ◌&&◌, Option, none, some, [], ◌∷◌, leb, ltb, eqb,
  if◌then◌else◌,
}
use incident_pilot.Text.Strings.{Bytes, lit}

-- after a lead byte: how many bytes follow, and the range of the first of them
lead : ℕ → Option (ℕ × ℕ × ℕ)
lead a =
    if ltb a 0x80
    then some (0, 0, 0)
    else if ltb a 0xC2
    then none
    else if ltb a 0xE0
    then some (1, 0x80, 0xBF)
    else if eqb a 0xE0
    then some (2, 0xA0, 0xBF)
    else if eqb a 0xED
    then some (2, 0x80, 0x9F)
    else if ltb a 0xF0
    then some (2, 0x80, 0xBF)
    else if eqb a 0xF0
    then some (3, 0x90, 0xBF)
    else if ltb a 0xF4
    then some (3, 0x80, 0xBF)
    else if eqb a 0xF4
    then some (3, 0x80, 0x8F)
    else none

-- the number of bytes still wanted by the character at hand, and the range of the next one
valid_from : ℕ → ℕ → ℕ → Bytes → Bool
unfolding lead
valid_from zero lo hi [] = true
valid_from (suc k) lo hi [] = false
valid_from zero lo hi (x ∷ xs) = elim (lead x) [
  | none ↦ false
  | some (k, lo', hi') ↦ valid_from k lo' hi' xs
]
valid_from (suc k) lo hi (x ∷ xs) = leb lo x && leb x hi && valid_from k 0x80 0xBF xs

unfoldable pub valid_utf8 : Bytes → Bool
unfolding valid_from
valid_utf8 s = valid_from 0 0 0 s

-- the bytes of the character at the front, if they are a valid encoding
follows : ℕ → ℕ → ℕ → Bytes → Bool
follows zero lo hi s = true
follows (suc k) lo hi [] = false
follows (suc k) lo hi (x ∷ xs) = leb lo x && leb x hi && follows k 0x80 0xBF xs

-- keeps whole characters, and drops each byte that belongs to none
keep_valid : ℕ → Bytes → Bytes
unfolding lead follows
keep_valid keep [] = []
keep_valid (suc keep) (x ∷ xs) = x ∷ keep_valid keep xs
keep_valid zero (x ∷ xs) = elim (lead x) [
  | none ↦ keep_valid 0 xs
  | some (k, lo, hi) ↦
      let whole = x ∷ keep_valid k xs in
      let rest = keep_valid 0 xs in if follows k lo hi xs then whole else rest
]

unfoldable pub to_valid_utf8 : Bytes → Bytes
unfolding keep_valid
to_valid_utf8 s = keep_valid 0 s

valid_utf8_runs : valid_utf8 (0xC3 ∷ 0xA9 ∷ lit "x") ≡ true
unfolding valid_utf8 lit
valid_utf8_runs = refl

to_valid_utf8_runs : to_valid_utf8 (0xC3 ∷ lit "x") ≡ lit "x"
unfolding to_valid_utf8 lit
to_valid_utf8_runs = refl
