-- ===== src/Text/Case.antt =====
-- Letter case over UTF-8 bytes. Of the letters beyond ASCII, those that fold or lower to an ASCII
-- letter are mapped (the Kelvin sign, the long s, the dotted capital I) and the others are kept: the
-- program compares the result with ASCII text only.
use incident_pilot.Common.{
  ℕ, zero, suc, ◌+◌, ◌≡◌, ◌<◌, refl, ap, All, map, arith, Bool, ◌&&◌, [], ◌∷◌, leb, if◌then◌else◌,
}
use incident_pilot.Text.Strings.{Bytes, lit, ◌==◌, has_prefix}

abbrev pub lower_byte : ℕ → ℕ
lower_byte c = if leb b'A' c && leb c b'Z' then c + 32 else c

-- the mapped byte at the front of a text, and how many more bytes it stands for
fold_front : ℕ → Bytes → ℕ × ℕ
unfolding has_prefix
fold_front x xs =
    if has_prefix (x ∷ xs) (0xC5 ∷ 0xBF ∷ [])
    then (b's', 1)
    else if has_prefix (x ∷ xs) (0xE2 ∷ 0x84 ∷ 0xAA ∷ [])
    then (b'k', 2)
    else (lower_byte x, 0)

lower_front : ℕ → Bytes → ℕ × ℕ
unfolding has_prefix
lower_front x xs =
    if has_prefix (x ∷ xs) (0xC4 ∷ 0xB0 ∷ [])
    then (b'i', 1)
    else if has_prefix (x ∷ xs) (0xE2 ∷ 0x84 ∷ 0xAA ∷ [])
    then (b'k', 2)
    else (lower_byte x, 0)

-- the first argument counts the bytes left of a letter that is already mapped
map_front : (ℕ → Bytes → ℕ × ℕ) → ℕ → Bytes → Bytes
map_front front skip [] = []
map_front front (suc skip) (x ∷ xs) = map_front front skip xs
map_front front zero (x ∷ xs) = (front x xs).0 ∷ map_front front (front x xs).1 xs

-- the smallest member of each letter's case orbit, as encoding/json and strings.EqualFold compare
unfoldable pub fold_case : Bytes → Bytes
unfolding map_front fold_front
fold_case s = map_front fold_front 0 s

unfoldable pub equal_fold : Bytes → Bytes → Bool
unfolding fold_case ◌==◌
equal_fold s t = fold_case s == fold_case t

unfoldable pub to_lower : Bytes → Bytes
unfolding map_front lower_front
to_lower s = map_front lower_front 0 s

lower_front-ascii : (x : ℕ) (xs : Bytes) → lower_byte x < 128 → lower_front x xs ≡ (lower_byte x, 0)
unfolding lower_front has_prefix
lower_front-ascii x xs h = ground (arith, h)

-- a text that lowers to ASCII byte by byte lowers the same way as a whole
pub to_lower-ascii :
    (s : Bytes) → All (λ c. c < 128) (map lower_byte s) → to_lower s ≡ map lower_byte s
unfolding to_lower map_front
to_lower-ascii [] h = refl
to_lower-ascii (x ∷ xs) h =
    rw (lower_front-ascii x xs h.0, map_front) (ap (λ t. lower_byte x ∷ t) (to_lower-ascii xs h.1))

equal_fold-secret : equal_fold (lit "sEcReT") (lit "Secret") ≡ equal_fold [] []
unfolding equal_fold lit
equal_fold-secret = refl
