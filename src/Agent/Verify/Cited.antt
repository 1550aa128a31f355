-- ===== src/Agent/Verify/Cited.antt =====
-- The loops of the verifiers: slots that cited records fill, and what a filled slot shows.
use incident_pilot.Common.{
  ◌≡◌, subst, ◌≢◌, sym, ap, ◌∙◌, inl, inr, Bool, true, false, List, [], ◌∷◌, Memᴰ, ◌&&◌, any, arith,
  if◌then◌else◌, Bool-cases, and_split,
}
use incident_pilot.Common.Scan.{
  scan, last_of, Witness, last_of_source, last_of-Witness, scan-last_of,
}
use incident_pilot.Text.{Bytes, ◌==◌, ==_iff, ==_refl}
use incident_pilot.Evidence.{Record}

-- allowed[id], for the set of the cited IDs
unfoldable pub is_cited : List Bytes → Bytes → Bool
unfolding any
is_cited cited id = any (λ c. c == id) cited

pub is_cited-Memᴰ : (cited : List Bytes) (id : Bytes) → is_cited cited id ≡ true → Memᴰ id cited
unfolding is_cited
is_cited-Memᴰ [] id h = cc
is_cited-Memᴰ (c ∷ cited) id h = elim (Bool-cases (c == id)) [
  | inl same ↦ Memᴰ.head (sym ((==_iff c id).0 same))
  | inr differ ↦ Memᴰ.tail (is_cited-Memᴰ cited id (ground (arith, h)))
]

pub Memᴰ-is_cited : (cited : List Bytes) (id : Bytes) → Memᴰ id cited → is_cited cited id ≡ true
unfolding is_cited
Memᴰ-is_cited [] id m = elim m [ ]
Memᴰ-is_cited (c ∷ cited) id (Memᴰ.head e) = ground (arith, (==_iff c id).1 (sym e))
Memᴰ-is_cited (c ∷ cited) id (Memᴰ.tail m) = ground (arith, Memᴰ-is_cited cited id m)

-- a cited record of the collection passes the test, and `v` is its value
abbrev pub Cites {ℓ} :
    {V : Type ℓ} → List Record → List Bytes → (Record → Bool) → (Record → V) → V → Type ℓ
Cites records cited test value v =
    (r : Record) × Memᴰ r records × Memᴰ r.id cited × (test r ≡ true) × (v ≡ value r)

-- every record has an ID: makeRecord gives each a fresh UUID
abbrev pub Named : List Record → Type 0
Named records = (r : Record) → Memᴰ r records → r.id ≢ []

abbrev pub id_of : Record → Bytes
id_of r = r.id

-- two different literals are not both the same text
pub never_both : (s a b : Bytes) → (a == b) ≡ false → (s == a && s == b) ≡ false
never_both s a b h = elim (Bool-cases (s == a)) [
  | inr n ↦ ground (arith, n)
  | inl p ↦ elim (Bool-cases (s == b)) [
    | inr n ↦ ground (arith, n)
    | inl q ↦ cc (h, (==_iff a b).1 (sym ((==_iff s a).0 p) ∙ (==_iff s b).0 q))
  ]
]

module _ {ℓ κ} {S : Type ℓ} {V : Type κ} (cited : List Bytes) (step : S → Record → S) (slot : S → V)
    (test : Record → Bool) (value : Record → V)
    (sets : (s : S) (r : Record)
      → slot (step s r) ≡ (if is_cited cited r.id && test r then value r else slot s)) where
  passes : Record → Bool
  passes r = is_cited cited r.id && test r

  runs :
      (s : S) (records : List Record)
      → slot (scan step s records) ≡ last_of passes value (slot s) records
  unfolding passes
  runs s records = scan-last_of step slot (λ r. is_cited cited r.id && test r) value sets s records

  Witness-Cites :
      (records : List Record) (v : V)
      → Witness passes value records v
      → Cites records cited test value v
  unfolding passes
  Witness-Cites records v (r, m, t, e) =
      let (c, p) = and_split (is_cited cited r.id) (test r) t in
      (r, m, is_cited-Memᴰ cited r.id c, p, e)

  -- a slot that is filled after the loop names a cited record that passes
  pub slot-Cites :
      (key : V → Bytes) (s : S) (records : List Record)
      → key (slot s) ≡ []
      → (key (slot (scan step s records)) == []) ≡ false
      → Cites records cited test value (slot (scan step s records))
  slot-Cites key s records start filled = elim (last_of_source passes value (slot s) records) [
    | inl e ↦ cc (filled, ap (λ v. key v) (runs s records ∙ e) ∙ start, ==_refl [])
    | inr w ↦
        subst (Cites records cited test value) (sym (runs s records)) (Witness-Cites records _ w)
  ]

  -- a cited record that passes fills the slot, if no record's key is empty
  pub slot_filled :
      (key : V → Bytes) (s : S) (records : List Record) (v : V)
      → ((r : Record) → Memᴰ r records → key (value r) ≢ [])
      → Cites records cited test value v
      → (key (slot (scan step s records)) == []) ≡ false
  unfolding passes
  slot_filled key s records v named (r, m, c, p, e) =
      let (w, mw, _, ew) =
        last_of-Witness passes value (slot s) r records m (both (Memᴰ-is_cited cited r.id c) p) in
      elim (Bool-cases (key (slot (scan step s records)) == [])) [
        | inr filled ↦ filled
        | inl unset ↦ absurd (
            named w mw (
              ap (λ x. key x) (sym ew)
              ∙ ap (λ x. key x) (sym (runs s records))
              ∙ (==_iff _ _).0 unset))
      ]
    where
      both : is_cited cited r.id ≡ true → test r ≡ true → (is_cited cited r.id && test r) ≡ true
      both h k = ground (arith, h, k)
