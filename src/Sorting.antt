-- ===== src/Sorting.antt =====
-- sort.Strings: the increasing order of byte strings. A stable insertion sort stands for the library's
-- sort, whose result on strings is determined by the order.
use mathlib.Core.List.{Perm, Permᴰ}
use mathlib.Core.List.Perm
use mathlib.Core.Logic.{∥∥₁_elim}
use incident_pilot.Common.{
  ◌≡◌, refl, sym, ◌∙◌, ◌↔◌, ◌≢◌, subst, All, suc, length, inl, inr, Bool, true, false, ◌&&◌, ◌||◌,
  List, [], ◌∷◌, arith, ltb, eqb, if◌then◌else◌, Bool-cases,
}
use incident_pilot.Text.{Bytes}

-- s <= t
unfoldable pub le_bytes : Bytes → Bytes → Bool
le_bytes [] t = true
le_bytes (x ∷ s) [] = false
le_bytes (x ∷ s) (y ∷ t) = ltb x y || (eqb x y && le_bytes s t)

insert : Bytes → List Bytes → List Bytes
insert a [] = a ∷ []
insert a (x ∷ xs) = if le_bytes a x then a ∷ x ∷ xs else x ∷ insert a xs

unfoldable pub sort : List Bytes → List Bytes
unfolding insert le_bytes
sort [] = []
sort (x ∷ xs) = insert x (sort xs)

le_bytes_total : (s t : Bytes) → le_bytes s t ≡ false → le_bytes t s ≡ true
unfolding le_bytes
le_bytes_total [] t h = cc
le_bytes_total (x ∷ s) [] h = refl
le_bytes_total (x ∷ s) (y ∷ t) h = ground (arith, le_bytes_total s t)

le_bytes_antisymm : (s t : Bytes) → le_bytes s t ≡ true → le_bytes t s ≡ true → s ≡ t
unfolding le_bytes
le_bytes_antisymm [] [] h k = refl
le_bytes_antisymm [] (y ∷ t) h k = cc
le_bytes_antisymm (x ∷ s) [] h k = cc
le_bytes_antisymm (x ∷ s) (y ∷ t) h k = ground (arith, le_bytes_antisymm s t)

le_bytes_trans : (s t u : Bytes) → le_bytes s t ≡ true → le_bytes t u ≡ true → le_bytes s u ≡ true
unfolding le_bytes
le_bytes_trans [] t u h k = refl
le_bytes_trans (x ∷ s) [] u h k = cc
le_bytes_trans (x ∷ s) (y ∷ t) [] h k = cc
le_bytes_trans (x ∷ s) (y ∷ t) (z ∷ u) h k = ground (arith, le_bytes_trans s t u)

insert_comm : (a b : Bytes) (l : List Bytes) → insert a (insert b l) ≡ insert b (insert a l)
unfolding insert
insert_comm a b [] = ground (arith, le_bytes_total a b, le_bytes_total b a, le_bytes_antisymm a b)
insert_comm a b (x ∷ l) = ground (
  arith,
  insert_comm a b l,
  le_bytes_total a b,
  le_bytes_antisymm a b,
  le_bytes_trans a b x,
  le_bytes_trans b a x,
  le_bytes_total a x,
  le_bytes_total b x,
  le_bytes_trans a x b,
  le_bytes_trans b x a,
)

insert-perm : (a : Bytes) (l : List Bytes) → Perm (insert a l) (a ∷ l)
unfolding insert
insert-perm a [] = Perm.refl (a ∷ [])
insert-perm a (x ∷ l) = elim (Bool-cases (le_bytes a x)) [
  | inl h ↦ rw h (Perm.refl (a ∷ x ∷ l))
  | inr h ↦ rw h (Perm.trans (Perm.cons x (insert-perm a l)) (Perm.swap a x l))
]

pub sort-perm : (l : List Bytes) → Perm (sort l) l
unfolding sort
sort-perm [] = Perm.refl []
sort-perm (x ∷ l) = Perm.trans (insert-perm x (sort l)) (Perm.cons x (sort-perm l))

insert-All {κ} :
    (P : Bytes → Type κ) (a : Bytes) (l : List Bytes) → P a → All P l → All P (insert a l)
unfolding insert
insert-All P a [] p h = (p, tt)
insert-All P a (x ∷ l) p h = elim (Bool-cases (le_bytes a x)) [
  | inl e ↦ rw e (p, h)
  | inr e ↦ rw e (h.0, insert-All P a l p h.1)
]

pub sort-All {κ} : (P : Bytes → Type κ) (l : List Bytes) → All P l → All P (sort l)
unfolding sort
sort-All P [] h = tt
sort-All P (x ∷ l) h = insert-All P x (sort l) h.0 (sort-All P l h.1)

length-insert : (a : Bytes) (l : List Bytes) → length (insert a l) ≡ suc (length l)
unfolding insert
length-insert a [] = refl
length-insert a (x ∷ l) = ground (arith, length-insert a l)

pub length-sort : (l : List Bytes) → length (sort l) ≡ length l
unfolding sort
length-sort [] = refl
length-sort (x ∷ l) = omega (arith, length-insert x (sort l), length-sort l)

insert-ne-nil : (a : Bytes) (l : List Bytes) → insert a l ≢ []
unfolding insert
insert-ne-nil a [] e = cc
insert-ne-nil a (x ∷ l) e = ground (arith, e)

pub sort-ne-nil : (x : Bytes) (l : List Bytes) → sort (x ∷ l) ≢ []
unfolding sort
sort-ne-nil x l = insert-ne-nil x (sort l)

sort-eq_of_Permᴰ : {xs ys : List Bytes} → Permᴰ xs ys → sort xs ≡ sort ys
unfolding sort
sort-eq_of_Permᴰ Permᴰ.nil = refl
sort-eq_of_Permᴰ (Permᴰ.cons e p) = cc (e, sort-eq_of_Permᴰ p)
sort-eq_of_Permᴰ (Permᴰ.swap {a = a} {b = b} {l = l} e f) = cc (e, f, insert_comm a b (sort l))
sort-eq_of_Permᴰ (Permᴰ.trans p q) = sort-eq_of_Permᴰ p ∙ sort-eq_of_Permᴰ q

bytes_set : IsSet (List Bytes)
bytes_set = hlevel

-- two lists have the same sorted order exactly when they hold the same strings, as often
pub sort-eq_iff : (xs ys : List Bytes) → (sort xs ≡ sort ys) ↔ Perm xs ys
sort-eq_iff xs ys = (
  (λ e. Perm.trans (Perm.symm (sort-perm xs)) (subst (λ l. Perm l ys) (sym e) (sort-perm ys))),
  (λ p. ∥∥₁_elim p (bytes_set _ _) sort-eq_of_Permᴰ),
)
