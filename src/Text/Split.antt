-- ===== src/Text/Split.antt =====
-- `Split`, `SplitAfter`, `Join` and `ReplaceAll` of packages strings and bytes, for a separator of one byte.
use incident_pilot.Common.{
  ℕ, suc, zero, ◌≡◌, refl, ap, ◌∙◌, sym, Bool, Option, none, some, List, [], ◌∷◌, ◌++◌,
  append_assoc, eqb, if◌then◌else◌, inl, inr, Bool-cases, take, drop,
}
use incident_pilot.Text.Strings.{Bytes}

-- a byte at the front of the first piece
unfoldable pub push_front : ℕ → List Bytes → List Bytes
push_front c [] = (c ∷ []) ∷ []
push_front c (l ∷ ls) = (c ∷ l) ∷ ls

-- the pieces between the separators
unfoldable pub split : ℕ → Bytes → List Bytes
unfolding push_front
split sep [] = [] ∷ []
split sep (c ∷ s) = let rest = split sep s in if eqb c sep then [] ∷ rest else push_front c rest

-- the pieces, each with the separator that ends it
unfoldable pub split_after : ℕ → Bytes → List Bytes
unfolding push_front
split_after sep [] = [] ∷ []
split_after sep (c ∷ s) =
    let rest = split_after sep s in if eqb c sep then (c ∷ []) ∷ rest else push_front c rest

-- Join without a separator
unfoldable pub concat : List Bytes → Bytes
concat [] = []
concat (l ∷ ls) = l ++ concat ls

unfoldable pub join : Bytes → List Bytes → Bytes
join sep [] = []
join sep (l ∷ []) = l
join sep (l ∷ m ∷ ms) = let rest = join sep (m ∷ ms) in l ++ (sep ++ rest)

-- the bytes outside a set
unfoldable pub without : (ℕ → Bool) → Bytes → Bytes
without drops [] = []
without drops (c ∷ s) = let rest = without drops s in if drops c then rest else c ∷ rest

concat-push_front : (c : ℕ) (ls : List Bytes) → concat (push_front c ls) ≡ c ∷ concat ls
unfolding concat push_front
concat-push_front c [] = refl
concat-push_front c (l ∷ ls) = refl

pub concat-split_after : (sep : ℕ) (s : Bytes) → concat (split_after sep s) ≡ s
unfolding concat split_after
concat-split_after sep [] = refl
concat-split_after sep (c ∷ s) = elim (Bool-cases (eqb c sep)) [
  | inl e ↦ rw (e, split_after) (ap (λ t. c ∷ t) (concat-split_after sep s))
  | inr e ↦
      rw (e, split_after)
        (concat-push_front c (split_after sep s) ∙ ap (λ t. c ∷ t) (concat-split_after sep s))
]

-- the piece at an index
unfoldable pub nth : ℕ → List Bytes → Option Bytes
nth n [] = none
nth zero (l ∷ ls) = some l
nth (suc n) (l ∷ ls) = nth n ls

-- another piece at an index
unfoldable pub set_nth : ℕ → Bytes → List Bytes → List Bytes
set_nth n m [] = []
set_nth zero m (l ∷ ls) = m ∷ ls
set_nth (suc n) m (l ∷ ls) = l ∷ set_nth n m ls

pub concat-set_nth :
    (n : ℕ) (m : Bytes) (ls : List Bytes) {l : Bytes}
    → nth n ls ≡ some l
    → (concat ls ≡ concat (take n ls) ++ (l ++ concat (drop (suc n) ls)))
      × (concat (set_nth n m ls) ≡ concat (take n ls) ++ (m ++ concat (drop (suc n) ls)))
unfolding nth set_nth concat
concat-set_nth n m [] h = absurd (cc h)
concat-set_nth zero m (k ∷ ls) h = (cc h, refl)
concat-set_nth (suc n) m (k ∷ ls) h =
    let (a, b) = concat-set_nth n m ls h in
    (ap (λ t. k ++ t) a ∙ sym (append_assoc k _ _), ap (λ t. k ++ t) b ∙ sym (append_assoc k _ _))

pub take-drop : (n : ℕ) (s : Bytes) → take n s ++ drop n s ≡ s
take-drop zero s = refl
take-drop (suc n) [] = refl
take-drop (suc n) (c ∷ s) = ap (λ t. c ∷ t) (take-drop n s)
