-- ===== src/Text/Space.antt =====
-- strings.TrimSpace over UTF-8 bytes.
use mathlib.Core.List.{reverse}
use incident_pilot.Common.{
  ℕ, zero, suc, ◌-◌, Bool, false, ◌&&◌, ◌||◌, ◌≡◌, refl, [], ◌∷◌, leb, eqb, take, if◌then◌else◌,
}
use incident_pilot.Text.Strings.{Bytes, lit, ◌==◌}

-- the encodings of the characters that unicode.IsSpace accepts
is_space : Bytes → Bool
unfolding ◌==◌
is_space (a ∷ []) = (leb 9 a && leb a 13) || eqb a 32
is_space (a ∷ b ∷ []) = eqb a 0xC2 && (eqb b 0x85 || eqb b 0xA0)
is_space (a ∷ b ∷ c ∷ []) =
    (a ∷ b ∷ c ∷ []) == (0xE1 ∷ 0x9A ∷ 0x80 ∷ [])
    || (eqb a 0xE2
        && eqb b 0x80
        && ((leb 0x80 c && leb c 0x8A) || eqb c 0xA8 || eqb c 0xA9 || eqb c 0xAF))
    || (a ∷ b ∷ c ∷ []) == (0xE2 ∷ 0x81 ∷ 0x9F ∷ [])
    || (a ∷ b ∷ c ∷ []) == (0xE3 ∷ 0x80 ∷ 0x80 ∷ [])
is_space s = false

-- how many bytes of space stand at the front, where `spell` writes a run of bytes in text order
front_space : (Bytes → Bytes) → Bytes → ℕ
unfolding is_space
front_space spell s =
    if is_space (spell (take 1 s))
    then 1
    else if is_space (spell (take 2 s))
    then 2
    else if is_space (spell (take 3 s))
    then 3
    else 0

trim_front : (Bytes → Bytes) → ℕ → Bytes → Bytes
unfolding front_space
trim_front spell skip [] = []
trim_front spell (suc skip) (x ∷ xs) = trim_front spell skip xs
trim_front spell zero (x ∷ xs) =
    let rest = trim_front spell (front_space spell (x ∷ xs) - 1) xs in
    if eqb (front_space spell (x ∷ xs)) 0 then x ∷ xs else rest

unfoldable pub trim_space : Bytes → Bytes
unfolding trim_front
trim_space s = reverse (trim_front (λ t. reverse t) 0 (reverse (trim_front (λ t. t) 0 s)))

trim_space_runs : trim_space (lit "  a b ") ≡ lit "a b"
unfolding trim_space lit
trim_space_runs = refl
