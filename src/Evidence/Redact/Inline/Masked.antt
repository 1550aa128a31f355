-- ===== src/Evidence/Redact/Inline/Masked.antt =====
-- The replacement of the inline credentials of a text: each is replaced, whole, and nothing else is.
use incident_pilot.Common.{
  ℕ, zero, suc, ◌+◌, ◌-◌, ◌≤◌, ◌≡◌, ◌≢◌, refl, sym, ap, subst, ◌∙◌, Bool, true, false, not, ◌&&◌,
  Option, none, some, List, [], ◌∷◌, ◌++◌, append_assoc, length, eqb, All, Memᴰ, inl, inr,
  Bool-cases, arith, length-append,
}
use incident_pilot.Text.{Bytes, lit}
use incident_pilot.Evidence.Redact.Inline.{
  is_word, is_gap, is_separator, in_value, take_name, span, starts_with_word, same, Match,
  with_value, after_name, match_name, names, first_match, scrub_from, scrub,
}
use incident_pilot.Evidence.Redact.Inline.Credential.{
  Spelled, Credential, Ends, take_name_sound, take_name_complete, span_sound, span-Ends,
  span_complete, span_value,
}

-- what stands behind a name
record Behind (gap tail behind rest : Bytes) : Type 0 where
  separator : ℕ
  second_gap : Bytes
  value : Bytes
  parts : gap ++ tail ≡ behind ++ rest
  behind_parts : behind ≡ gap ++ (separator ∷ (second_gap ++ value))
  is_separated : is_separator separator ≡ true
  second_gap_spaces : All (λ c. is_gap c ≡ true) second_gap
  value_bytes : All (λ c. in_value c ≡ true) value
  some_value : value ≢ []
  value_ends : Ends rest

after_name_sound :
    (name gap tail : Bytes) {n b r : Bytes}
    → after_name name (gap, tail) ≡ some (n, b, r)
    → (name ≡ n) × Behind gap tail b r
unfolding after_name with_value
after_name_sound name gap [] h = absurd (cc h)
after_name_sound name gap (c ∷ s) {n = n} {b = b} {r = r} h =
    let after = span is_gap s in
    let value = span in_value after.1 in
    elim (Bool-cases (is_separator c && not (eqb (length value.0) 0))) [
      | inr e ↦ absurd (cc (rw (e, after_name, with_value) at h))
      | inl e ↦
          let g = rw (e, after_name, with_value) at h in
          let b_is : gap ++ (c ∷ (after.0 ++ value.0)) ≡ b = ground (arith, g) in
          let r_is : value.1 ≡ r = ground (arith, g) in
          (
            ground (arith, g),
            record {
              separator = c;
              second_gap = after.0;
              value = value.0;
              parts =
                  ap (λ x. gap ++ (c ∷ x))
                    ((span_sound is_gap s).0
                      ∙ ap (λ x. after.0 ++ x) (span_sound in_value after.1).0
                      ∙ sym (append_assoc after.0 value.0 value.1))
                  ∙ sym (append_assoc gap (c ∷ (after.0 ++ value.0)) value.1)
                  ∙ ap (λ x. x ++ value.1) b_is
                  ∙ ap (λ x. b ++ x) r_is;
              behind_parts = sym b_is;
              is_separated = ground (arith, e);
              second_gap_spaces = (span_sound is_gap s).1;
              value_bytes = (span_sound in_value after.1).1;
              some_value = λ z. ground (arith, e, z);
              value_ends = subst Ends r_is (span-Ends after.1);
            },
          )
    ]

match_name_sound :
    (before : Bool) (word s : Bytes) {n b r : Bytes}
    → Memᴰ word names
    → match_name before word s ≡ some (n, b, r)
    → Credential before s n b r
unfolding match_name same
match_name_sound before word s {n = n} {b = b} {r = r} m h =
    elim (Bool-cases (same before (starts_with_word s))) [
      | inl e ↦ absurd (cc (rw (e, match_name) at h))
      | inr e ↦ go e (take_name word s) refl
    ]
  where
    go :
        same before (starts_with_word s) ≡ false
        → (o : Option (Bytes × Bytes)) → take_name word s ≡ o
        → Credential before s n b r
    go e none q = absurd (cc (rw (e, q, match_name) at h))
    go e (some (name, t)) q =
        let a = take_name_sound word s q in
        let g = span_sound is_gap t in
        let k =
          after_name_sound name (span is_gap t).0 (span is_gap t).1 (rw (e, q, match_name) at h) in
        record {
          word = word;
          is_name = m;
          spelled = subst (Spelled word) k.0 a.0;
          gap = (span is_gap t).0;
          separator = k.1.separator;
          second_gap = k.1.second_gap;
          value = k.1.value;
          parts = a.1 ∙ ap (λ x. x ++ t) k.0 ∙ ap (λ x. n ++ x) (g.0 ∙ k.1.parts);
          behind_parts = k.1.behind_parts;
          at_boundary = λ z. ground (arith, e, z);
          gap_spaces = g.1;
          is_separated = k.1.is_separated;
          second_gap_spaces = k.1.second_gap_spaces;
          value_bytes = k.1.value_bytes;
          some_value = k.1.some_value;
          value_ends = k.1.value_ends;
        }

separator_no_gap : (c : ℕ) → is_separator c ≡ true → is_gap c ≡ false
separator_no_gap c h = ground (arith, h)

value_no_gap : (c : ℕ) → in_value c ≡ true → is_gap c ≡ false
value_no_gap c h = ground (arith, h)

filled_length : (c : ℕ) (s : Bytes) → eqb (length (c ∷ s)) 0 ≡ false
filled_length c s = ground arith

after_name_complete :
    (name gap : Bytes) (c : ℕ) (second_gap value rest : Bytes)
    → is_separator c ≡ true
    → All (λ c. is_gap c ≡ true) second_gap
    → All (λ c. in_value c ≡ true) value
    → value ≢ []
    → Ends rest
    → after_name name (gap, c ∷ (second_gap ++ (value ++ rest)))
      ≡ some (name, gap ++ (c ∷ (second_gap ++ value)), rest)
unfolding after_name with_value
after_name_complete name gap c second_gap [] rest sep spaces bytes filled ends =
    absurd (filled refl)
after_name_complete name gap c second_gap (v ∷ value) rest sep spaces bytes filled ends =
    rw
      (
        span_complete is_gap second_gap v (value ++ rest) spaces (value_no_gap v bytes.0),
        span_value (v ∷ value) rest bytes ends,
        sep,
        filled_length v value,
      )
      refl

match_name_complete :
    (before : Bool) (s : Bytes) {n b r : Bytes} (k : Credential before s n b r)
    → match_name before k.word s ≡ some (n, b, r)
unfolding match_name same
match_name_complete before s {n = n} {b = b} {r = r} k =
    let away : same before (starts_with_word s) ≡ false = ground (arith, k.at_boundary) in
    let tail = k.separator ∷ (k.second_gap ++ (k.value ++ r)) in
    let split : b ++ r ≡ k.gap ++ tail =
      ap (λ x. x ++ r) k.behind_parts
      ∙ append_assoc k.gap (k.separator ∷ (k.second_gap ++ k.value)) r
      ∙ ap (λ x. k.gap ++ (k.separator ∷ x)) (append_assoc k.second_gap k.value r) in
    let whole : s ≡ n ++ (k.gap ++ tail) = k.parts ∙ ap (λ x. n ++ x) split in
    let named : take_name k.word s ≡ some (n, k.gap ++ tail) =
      ap (take_name k.word) whole ∙ take_name_complete k.word (k.gap ++ tail) k.spelled in
    let spaced =
      span_complete is_gap k.gap k.separator (k.second_gap ++ (k.value ++ r)) k.gap_spaces
        (separator_no_gap k.separator k.is_separated) in
    rw (away, named, spaced, match_name)
      (after_name_complete n k.gap k.separator k.second_gap k.value r k.is_separated
          k.second_gap_spaces k.value_bytes k.some_value k.value_ends
        ∙ ap (λ x. some (n, x, r)) (sym k.behind_parts))

first_match_sound :
    (before : Bool) (words : List Bytes) (s : Bytes) {m : Match}
    → first_match before words s ≡ some m
    → (word : Bytes) × Memᴰ word words × (match_name before word s ≡ some m)
unfolding first_match
first_match_sound before [] s h = absurd (cc h)
first_match_sound before (word ∷ words) s {m = m} h =
    go (match_name before word s) refl (λ g. first_match_sound before words s g)
  where
    go :
        (o : Option Match)
        → match_name before word s ≡ o
        → (first_match before words s ≡ some m
            → (w : Bytes) × Memᴰ w words × (match_name before w s ≡ some m))
        → (w : Bytes) × Memᴰ w (word ∷ words) × (match_name before w s ≡ some m)
    go none q more = let r = more (rw (q, first_match) at h) in (r.0, Memᴰ.tail r.1, r.2)
    go (some found) q more = (word, Memᴰ.head refl, q ∙ (rw (q, first_match) at h))

first_match-none :
    (before : Bool) (words : List Bytes) (s word : Bytes)
    → first_match before words s ≡ none
    → Memᴰ word words
    → match_name before word s ≡ none
unfolding first_match
first_match-none before [] s word h m = elim m [ ]
first_match-none before (w ∷ words) s word h m =
    go (match_name before w s) refl m (λ g k. first_match-none before words s word g k)
  where
    go :
        (o : Option Match)
        → match_name before w s ≡ o
        → Memᴰ word (w ∷ words)
        → (first_match before words s ≡ none → Memᴰ word words → match_name before word s ≡ none)
        → match_name before word s ≡ none
    go none q (Memᴰ.head e) more = subst (λ x. match_name before x s ≡ none) (sym e) q
    go none q (Memᴰ.tail k) more = more (rw (q, first_match) at h) k
    go (some found) q k more = absurd (cc (rw (q, first_match) at h))

-- A text and what is left of it, byte by byte: either no credential starts there and the byte stays, or
-- one does, and the marker stands in place of all behind its name. What stands before the rest does
-- not matter, as no name starts with a byte that ends a value.
pub data Masked : Bool → Bytes → Bytes → Type 0 where
  nothing : {before : Bool} → Masked before [] []
  kept :
      {before : Bool} {c : ℕ} {s out : Bytes}
      → ((name behind rest : Bytes) → ¬ Credential before (c ∷ s) name behind rest)
      → Masked (is_word c) s out
      → Masked before (c ∷ s) (c ∷ out)
  masked :
      {before last : Bool} {s name behind rest out : Bytes}
      → Credential before s name behind rest
      → Masked last rest out
      → Masked before s (name ++ (lit "=<redacted>" ++ out))

left_out :
    (before : Bool) (front rest : Bytes)
    → (last : Bool) × (scrub_from before (length front) (front ++ rest) ≡ scrub_from last zero rest)
unfolding scrub_from
left_out before [] rest = (before, refl)
left_out before (c ∷ front) rest = left_out (is_word c) front rest

cons-tail : {c e : ℕ} {s t : Bytes} → c ∷ s ≡ e ∷ t → s ≡ t
cons-tail h = ground (arith, h)

length-tail : (front rest : Bytes) → length rest ≤ length (front ++ rest)
length-tail [] rest = omega arith
length-tail (c ∷ front) rest = omega (arith, length-tail front rest)

length-drop : (e : ℕ) (front : Bytes) → length (e ∷ front) - 1 ≡ length front
length-drop e front = omega arith

-- the scan goes on behind what was replaced
goes_on :
    (c : ℕ) (s front rest : Bytes)
    → c ∷ s ≡ front ++ rest
    → front ≢ []
    → (length rest ≤ length s)
      × ((last : Bool) × (scrub_from (is_word c) (length front - 1) s ≡ scrub_from last zero rest))
goes_on c s [] rest h filled = absurd (filled refl)
goes_on c s (e ∷ front) rest h filled =
    let tail : s ≡ front ++ rest = cons-tail h in
    let next = left_out (is_word c) front rest in
    (
      subst (λ x. length rest ≤ length x) (sym tail) (length-tail front rest),
      (
        next.0,
        ap (λ x. scrub_from (is_word c) x s) (length-drop e front)
            ∙ ap (λ x. scrub_from (is_word c) (length front) x) tail
            ∙ next.1,
      ),
    )

-- a match is not empty
match_filled :
    {before : Bool} {s name behind rest : Bytes}
    → Credential before s name behind rest
    → name ++ behind ≢ []
match_filled {name = []} k e =
    filled_end k.separator (k.second_gap ++ k.value) k.gap (sym k.behind_parts ∙ e)
  where
    filled_end : (c : ℕ) (t gap : Bytes) → gap ++ (c ∷ t) ≢ []
    filled_end c t [] e = cc e
    filled_end c t (g ∷ gap) e = cc e
match_filled {name = c ∷ name} k e = cc e

scrub_from-Masked :
    (n : ℕ) (before : Bool) (s : Bytes) → length s ≤ n → Masked before s (scrub_from before zero s)
unfolding scrub_from
scrub_from-Masked n before [] h = nothing
scrub_from-Masked zero before (c ∷ s) h = absurd (omega (arith, h))
scrub_from-Masked (suc n) before (c ∷ s) h =
    go (first_match before names (c ∷ s)) refl (λ b t k. scrub_from-Masked n b t k)
  where
    go :
        (o : Option Match)
        → first_match before names (c ∷ s) ≡ o
        → ((b : Bool) (t : Bytes) → length t ≤ n → Masked b t (scrub_from b zero t))
        → Masked before (c ∷ s) (scrub_from before zero (c ∷ s))
    go none q more =
        rw (q, scrub_from)
          (kept
            (λ name behind rest k. cc (
              first_match-none before names (c ∷ s) k.word q k.is_name,
              match_name_complete before (c ∷ s) k,
            ))
            (more (is_word c) s (omega (arith, h))))
    go (some (name, behind, rest)) q more =
        let f = first_match_sound before names (c ∷ s) q in
        let k = match_name_sound before f.0 (c ∷ s) f.1 f.2 in
        let whole = k.parts ∙ sym (append_assoc name behind rest) in
        let next = goes_on c s (name ++ behind) rest whole (match_filled k) in
        let long : length name + length behind ≡ length (name ++ behind) =
          sym (length-append name behind) in
        rw (q, long, next.1.1, scrub_from)
          (masked k (more next.1.0 rest (omega (arith, next.0, h))))

pub scrub-Masked : (s : Bytes) → Masked false s (scrub s)
unfolding scrub
scrub-Masked s = scrub_from-Masked (length s) false s (omega arith)
