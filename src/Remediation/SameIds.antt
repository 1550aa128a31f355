-- ===== src/Remediation/SameIds.antt =====
-- `sameIDs` of internal/remediation/remediation.go.
use mathlib.Core.List.{Perm}
use incident_pilot.Common.{
  ◌≡◌, refl, ap, ◌↔◌, Bool, true, false, not, List, [], ◌∷◌, arith, length, eqb, if◌then◌else◌,
}
use incident_pilot.Text.{Bytes, ◌==◌, ==_iff}
use incident_pilot.Sorting.{sort, length-sort, sort-eq_iff}

-- the loop over the indices of two sorted lists of one length
same_items : List Bytes → List Bytes → Bool
same_items [] ys = true
same_items (x ∷ xs) [] = false
same_items (x ∷ xs) (y ∷ ys) = if not (x == y) then false else same_items xs ys

unfoldable pub same_ids : List Bytes → List Bytes → Bool
unfolding same_items
same_ids left right =
    if not (eqb (length left) (length right)) then false else same_items (sort left) (sort right)

same_items_eq : (xs ys : List Bytes) → length xs ≡ length ys → same_items xs ys ≡ true → xs ≡ ys
unfolding same_items
same_items_eq [] [] e h = refl
same_items_eq [] (y ∷ ys) e h = absurd (omega arith)
same_items_eq (x ∷ xs) [] e h = cc
same_items_eq (x ∷ xs) (y ∷ ys) e h = ground (arith, ==_iff x y, same_items_eq xs ys)

same_items_refl : (xs : List Bytes) → same_items xs xs ≡ true
unfolding same_items
same_items_refl [] = refl
same_items_refl (x ∷ xs) = ground (arith, (==_iff x x).1 refl, same_items_refl xs)

same_ids-sort : (xs ys : List Bytes) → same_ids xs ys ≡ true → sort xs ≡ sort ys
unfolding same_ids
same_ids-sort xs ys h =
    ground (arith, length-sort xs, length-sort ys, same_items_eq (sort xs) (sort ys))

sort-same_ids : (xs ys : List Bytes) → sort xs ≡ sort ys → same_ids xs ys ≡ true
unfolding same_ids
sort-same_ids xs ys e =
    ground (arith, e, ap length e, length-sort xs, length-sort ys, same_items_refl (sort ys))

-- `sameIDs` holds exactly of two lists with the same IDs, each as often, in any order.
pub same_ids_iff : (xs ys : List Bytes) → (same_ids xs ys ≡ true) ↔ Perm xs ys
same_ids_iff xs ys = (
  (λ h. (sort-eq_iff xs ys).0 (same_ids-sort xs ys h)),
  (λ p. sort-same_ids xs ys ((sort-eq_iff xs ys).1 p)),
)
