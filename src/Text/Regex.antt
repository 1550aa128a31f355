-- ===== src/Text/Regex.antt =====
-- The regular expressions of package `regexp` that the program writes, anchored at both ends, and
-- their matching by derivatives. The classes are ASCII, so bytes do for characters.
use incident_pilot.Common.{
  ℕ, zero, suc, ◌-◌, Bool, true, false, ◌&&◌, ◌||◌, [], ◌∷◌, leb, eqb, if◌then◌else◌, any,
}
use incident_pilot.Text.Strings.{Bytes}

pub data Regex : Type 0 where
  fail : Regex
  empty : Regex
  class : (ℕ → Bool) → Regex
  seq alt : Regex → Regex → Regex
  star : Regex → Regex
  -- between `lo` and `hi` copies
  repeat : ℕ → ℕ → Regex → Regex

pub nullable : Regex → Bool
nullable fail = false
nullable empty = true
nullable (class p) = false
nullable (seq a b) = nullable a && nullable b
nullable (alt a b) = nullable a || nullable b
nullable (star a) = true
nullable (repeat zero hi a) = true
nullable (repeat (suc lo) hi a) = nullable a

-- what is left to match after the byte `c`
pub derive : ℕ → Regex → Regex
unfolding nullable
derive c fail = fail
derive c empty = fail
derive c (class p) = if p c then empty else fail
derive c (seq a b) =
    if nullable a then alt (seq (derive c a) b) (derive c b) else seq (derive c a) b
derive c (alt a b) = alt (derive c a) (derive c b)
derive c (star a) = seq (derive c a) (star a)
derive c (repeat lo zero a) = fail
derive c (repeat lo (suc hi) a) = seq (derive c a) (repeat (lo - 1) hi a)

-- (*Regexp).MatchString, for a pattern `^…$`
unfoldable pub matches : Regex → Bytes → Bool
unfolding derive
matches r [] = nullable r
matches r (c ∷ cs) = matches (derive c r) cs

abbrev pub between : ℕ → ℕ → ℕ → Bool
between lo hi c = leb lo c && leb c hi

abbrev pub upper : ℕ → Bool
upper = between b'A' b'Z'

abbrev pub lower : ℕ → Bool
lower = between b'a' b'z'

abbrev pub digit : ℕ → Bool
digit = between b'0' b'9'

-- a class written by its punctuation
unfoldable pub one_of : Bytes → ℕ → Bool
unfolding any
one_of s c = any (eqb c) s

unfoldable pub literal : Bytes → Regex
literal [] = empty
literal (c ∷ cs) = seq (class (eqb c)) (literal cs)

abbrev pub optional : Regex → Regex
optional = repeat 0 1
