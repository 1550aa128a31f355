-- ===== src/Evidence/Redact/Inline/Credential.antt =====
-- What an inline credential is, apart from the code that finds it, and the parts of that code.
use incident_pilot.Common.{
  ℕ, ◌≡◌, ◌≢◌, refl, sym, ap, subst, ◌∙◌, Bool, true, false, ◌&&◌, Option, none, some, [], ◌∷◌,
  ◌++◌, append_assoc, eqb, All, Memᴰ, inl, inr, Bool-cases, arith,
}
use incident_pilot.Text.{Bytes}
use incident_pilot.Evidence.Redact.Inline.{
  is_gap, is_separator, in_value, small, take_kelvin, take_folded, take_letter, take_name, span,
  starts_with_word, names,
}

-- a letter of a name as a text may write it
pub data Letter (k : ℕ) : Bytes → Type 0 where
  either_case : (c : ℕ) → small c ≡ k → Letter k (c ∷ [])
  long_s : k ≡ b's' → Letter k (197 ∷ 191 ∷ [])
  kelvin : k ≡ b'k' → Letter k (226 ∷ 132 ∷ 170 ∷ [])

-- a name as a text may write it
pub data Spelled : Bytes → Bytes → Type 0 where
  finished : Spelled [] []
  letter :
      {k : ℕ} {ks first others : Bytes}
      → Letter k first
      → Spelled ks others
      → Spelled (k ∷ ks) (first ++ others)

-- a value ends at the first byte that cannot be in it, or with the text
abbrev pub Ends : Bytes → Type 0
Ends [] = Unit
Ends (c ∷ s) = in_value c ≡ false

-- a name, a separator and a value, up to the first byte that is none of the value
pub record Credential (before : Bool) (s name behind rest : Bytes) : Type 0 where
  pub word : Bytes
  pub is_name : Memᴰ word names
  pub spelled : Spelled word name
  pub gap : Bytes
  pub separator : ℕ
  pub second_gap : Bytes
  pub value : Bytes
  pub parts : s ≡ name ++ (behind ++ rest)
  pub behind_parts : behind ≡ gap ++ (separator ∷ (second_gap ++ value))
  pub at_boundary : before ≢ starts_with_word s
  pub gap_spaces : All (λ c. is_gap c ≡ true) gap
  pub is_separated : is_separator separator ≡ true
  pub second_gap_spaces : All (λ c. is_gap c ≡ true) second_gap
  pub value_bytes : All (λ c. in_value c ≡ true) value
  pub some_value : value ≢ []
  pub value_ends : Ends rest

take_kelvin_sound :
    (k c d : ℕ) (s : Bytes) {l t : Bytes}
    → take_kelvin k c d s ≡ some (l, t)
    → Letter k l × (c ∷ d ∷ s ≡ l ++ t)
unfolding take_kelvin
take_kelvin_sound k c d [] h = absurd (cc h)
take_kelvin_sound k c d (e ∷ s) {l = l} {t = t} h =
    elim (Bool-cases (eqb k b'k' && eqb c 226 && eqb d 132 && eqb e 170)) [
      | inr x ↦ absurd (cc (rw (x, take_kelvin) at h))
      | inl x ↦
          let same_letter : (226 ∷ 132 ∷ 170 ∷ []) ≡ l = ground (arith, x, h) in
          (subst (Letter k) same_letter (kelvin (ground (arith, x))), ground (arith, x, h))
    ]

take_folded_sound :
    (k c : ℕ) (s : Bytes) {l t : Bytes}
    → take_folded k c s ≡ some (l, t)
    → Letter k l × (c ∷ s ≡ l ++ t)
unfolding take_folded
take_folded_sound k c [] h = absurd (cc h)
take_folded_sound k c (d ∷ s) {l = l} {t = t} h =
    elim (Bool-cases (eqb k b's' && eqb c 197 && eqb d 191)) [
      | inr x ↦ take_kelvin_sound k c d s (rw (x, take_folded) at h)
      | inl x ↦
          let same_letter : (197 ∷ 191 ∷ []) ≡ l = ground (arith, x, h) in
          (subst (Letter k) same_letter (long_s (ground (arith, x))), ground (arith, x, h))
    ]

take_letter_sound :
    (k : ℕ) (s : Bytes) {l t : Bytes} → take_letter k s ≡ some (l, t) → Letter k l × (s ≡ l ++ t)
unfolding take_letter
take_letter_sound k [] h = absurd (cc h)
take_letter_sound k (c ∷ s) {l = l} {t = t} h = elim (Bool-cases (eqb (small c) k)) [
  | inr x ↦ take_folded_sound k c s (rw (x, take_letter) at h)
  | inl x ↦
      let g = rw (x, take_letter) at h in
      let same_letter : (c ∷ []) ≡ l = ground (arith, g) in
      (subst (Letter k) same_letter (either_case c (ground (arith, x))), ground (arith, g))
]

take_letter_complete :
    (k : ℕ) {l : Bytes} (t : Bytes) → Letter k l → take_letter k (l ++ t) ≡ some (l, t)
unfolding take_letter take_folded take_kelvin
take_letter_complete k t (either_case c e) = ground (arith, e)
take_letter_complete k t (long_s e) =
    subst (λ k. take_letter k (197 ∷ 191 ∷ t) ≡ some (197 ∷ 191 ∷ [], t)) (sym e) refl
take_letter_complete k t (kelvin e) =
    subst (λ k. take_letter k (226 ∷ 132 ∷ 170 ∷ t) ≡ some (226 ∷ 132 ∷ 170 ∷ [], t)) (sym e) refl

pub take_name_sound :
    (word s : Bytes) {name t : Bytes}
    → take_name word s ≡ some (name, t)
    → Spelled word name × (s ≡ name ++ t)
unfolding take_name
take_name_sound [] s {name = name} {t = t} h =
    let e : [] ≡ name = ground (arith, h) in (subst (Spelled []) e finished, ground (arith, h))
take_name_sound (k ∷ ks) s {name = name} {t = t} h =
    go (take_letter k s) refl (λ r others z u. take_name_sound ks r {name = others} {t = z} u)
  where
    go :
        (o : Option (Bytes × Bytes))
        → take_letter k s ≡ o
        → ((r others z : Bytes)
            → take_name ks r ≡ some (others, z)
            → Spelled ks others × (r ≡ others ++ z))
        → Spelled (k ∷ ks) name × (s ≡ name ++ t)
    go none q more = absurd (cc (rw (q, take_name) at h))
    go (some (l, r)) q more = next (take_name ks r) refl
      where
        next :
            (o : Option (Bytes × Bytes))
            → take_name ks r ≡ o
            → Spelled (k ∷ ks) name × (s ≡ name ++ t)
        next none u = absurd (cc (rw (q, u, take_name) at h))
        next (some (others, z)) u =
            let a = take_letter_sound k s q in
            let b = more r others z u in
            let g = rw (q, u, take_name) at h in
            let e : l ++ others ≡ name = ground (arith, g) in
            (
              subst (Spelled (k ∷ ks)) e (letter a.0 b.0),
              a.1
                  ∙ ap (λ x. l ++ x) (b.1 ∙ ap (λ x. others ++ x) (ground (arith, g)))
                  ∙ sym (append_assoc l others t)
                  ∙ ap (λ x. x ++ t) e,
            )

pub take_name_complete :
    (word : Bytes) {name : Bytes} (t : Bytes)
    → Spelled word name
    → take_name word (name ++ t) ≡ some (name, t)
unfolding take_name
take_name_complete [] t finished = refl
take_name_complete (k ∷ ks) t (letter {first = l} {others = others} a b) =
    rw (append_assoc l others t, take_letter_complete k (others ++ t) a, take_name_complete ks t b)
      refl

pub span_sound :
    (p : ℕ → Bool) (s : Bytes)
    → (s ≡ (span p s).0 ++ (span p s).1) × All (λ c. p c ≡ true) (span p s).0
unfolding span
span_sound p [] = (refl, tt)
span_sound p (c ∷ s) = elim (Bool-cases (p c)) [
  | inl e ↦ rw (e, span) (ap (λ x. c ∷ x) (span_sound p s).0, (e, (span_sound p s).1))
  | inr e ↦ rw (e, span) (refl, tt)
]

pub span-Ends : (s : Bytes) → Ends (span in_value s).1
unfolding span
span-Ends [] = tt
span-Ends (c ∷ s) = elim (Bool-cases (in_value c)) [
  | inl e ↦ rw (e, span) (span-Ends s)
  | inr e ↦ rw (e, span) e
]

-- the bytes that pass end where one does not
pub span_complete :
    (p : ℕ → Bool) (front : Bytes) (c : ℕ) (s : Bytes)
    → All (λ c. p c ≡ true) front
    → p c ≡ false
    → span p (front ++ (c ∷ s)) ≡ (front, c ∷ s)
unfolding span
span_complete p [] c s h e = rw (e) refl
span_complete p (b ∷ front) c s h e = rw (h.0, span_complete p front c s h.1 e) refl

pub span_value :
    (value rest : Bytes)
    → All (λ c. in_value c ≡ true) value
    → Ends rest
    → span in_value (value ++ rest) ≡ (value, rest)
unfolding span
span_value [] [] h e = refl
span_value [] (c ∷ rest) h e = rw (e) refl
span_value (b ∷ value) rest h e = rw (h.0, span_value value rest h.1 e) refl
