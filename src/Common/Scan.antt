-- ===== src/Common/Scan.antt =====
-- The loops `for _, r := range records { if test(r) { slot = value(r) } }`: the slot holds the
-- value of the last record that passes, and its first value if none does.
use mathlib.Core.Path.{◌≡◌, refl, ◌∙◌, ap, subst}
use mathlib.Core.Logic.{◌⊎◌, inl, inr}
use mathlib.Core.Bool.{Bool, true, false}
use mathlib.Core.List.{List, [], ◌∷◌, Memᴰ}
use incident_pilot.Common.Tests.{if◌then◌else◌, Bool-cases}

module _ {ℓ κ} {S : Type ℓ} {R : Type κ} where
  -- the loop over the records, one step for each
  unfoldable pub scan : (S → R → S) → S → List R → S
  scan step s [] = s
  scan step s (r ∷ rs) = scan step (step s r) rs

module _ {ℓ κ} {V : Type ℓ} {R : Type κ} where
  -- the value of the last record that passes
  unfoldable pub last_of : (R → Bool) → (R → V) → V → List R → V
  last_of test value v [] = v
  last_of test value v (r ∷ rs) = last_of test value (if test r then value r else v) rs

  -- `v` is the value of a record of the list that passes
  abbrev pub Witness : (R → Bool) → (R → V) → List R → V → Type (ℓ ⊔ κ)
  Witness test value rs v = (r : R) × Memᴰ r rs × (test r ≡ true) × (v ≡ value r)

  widen :
      (test : R → Bool) (value : R → V) (r : R) (rs : List R) (v : V)
      → Witness test value rs v
      → Witness test value (r ∷ rs) v
  widen test value r rs v (w, m, t, e) = (w, Memᴰ.tail m, t, e)

  pub last_of_source :
      (test : R → Bool) (value : R → V) (v : V) (rs : List R)
      → (last_of test value v rs ≡ v) ⊎ Witness test value rs (last_of test value v rs)
  unfolding last_of
  last_of_source test value v [] = inl refl
  last_of_source test value v (r ∷ rs) =
      elim (last_of_source test value (if test r then value r else v) rs) [
        | inr w ↦ inr (widen test value r rs _ w)
        | inl e ↦ elim (Bool-cases (test r)) [
          | inl pass ↦ inr (r, Memᴰ.head refl, pass, e ∙ taken (test r) (value r) v pass)
          | inr fail ↦ inl (e ∙ kept (test r) (value r) v fail)
        ]
      ]
    where
      taken : (b : Bool) (x y : V) → b ≡ true → (if b then x else y) ≡ x
      taken true x y h = refl
      taken false x y h = cc

      kept : (b : Bool) (x y : V) → b ≡ false → (if b then x else y) ≡ y
      kept true x y h = cc
      kept false x y h = refl

module _ {ℓ κ} {V : Type ℓ} {R : Type κ} (test : R → Bool) (value : R → V) where
  taken-Witness :
      (v : V) (r : R) (rs : List R)
      → test r ≡ true
      → Witness test value (r ∷ rs) (last_of test value v (r ∷ rs))
  unfolding last_of
  taken-Witness v r rs pass = elim (last_of_source test value (if test r then value r else v) rs) [
    | inr w ↦ widen test value r rs _ w
    | inl e ↦ (r, Memᴰ.head refl, pass, e ∙ taken (test r) pass)
  ]
    where
      taken : (b : Bool) → b ≡ true → (if b then value r else v) ≡ value r
      taken true h = refl
      taken false h = cc

  -- once a record passes, the slot has the value of a record that passes
  pub last_of-Witness :
      (v : V) (r : R) (rs : List R)
      → Memᴰ r rs
      → test r ≡ true
      → Witness test value rs (last_of test value v rs)
  unfolding last_of
  last_of-Witness v r [] m pass = elim m [ ]
  last_of-Witness v r (x ∷ rs) (Memᴰ.head e) pass =
      taken-Witness v x rs (subst (λ y. test y ≡ true) e pass)
  last_of-Witness v r (x ∷ rs) (Memᴰ.tail m) pass =
      widen test value x rs _ (last_of-Witness (if test x then value x else v) r rs m pass)

module _ {ℓ κ ι} {S : Type ℓ} {R : Type κ} {V : Type ι} where
  -- a slot that each step sets by a test holds `last_of` after the loop
  pub scan-last_of :
      (step : S → R → S) (slot : S → V) (test : R → Bool) (value : R → V)
      → ((s : S) (r : R) → slot (step s r) ≡ (if test r then value r else slot s))
      → (s : S) (rs : List R) → slot (scan step s rs) ≡ last_of test value (slot s) rs
  unfolding scan last_of
  scan-last_of step slot test value sets s [] = refl
  scan-last_of step slot test value sets s (r ∷ rs) =
      scan-last_of step slot test value sets (step s r) rs
      ∙ ap (λ v. last_of test value v rs) (sets s r)
