-- ===== src/Github/Patch/Revert.antt =====
-- A patch and the patch back.
use incident_pilot.Common.{
  ℕ, zero, suc, ◌+◌, ◌≤◌, ◌≡◌, ◌≢◌, refl, sym, ap, subst, ◌∙◌, inl, inr, Bool, true, false, not,
  ◌&&◌, some, List, [], ◌∷◌, ◌++◌, all, length, take, drop, ltb, eqb, arith, Bool-cases, bind_some,
  some_injective, append-nil, and_split, length-append,
}
use incident_pilot.Text.{Bytes, ◌==◌, ==_iff, ==_refl}
use incident_pilot.Text.Split.{
  split_after, concat, nth, set_nth, concat-split_after, take-drop, push_front,
}
use incident_pilot.Github.Patch.{patch_line, patch_at}

-- a text without a line end
unfoldable pub is_free : Bytes → Bool
unfolding all
is_free s = all (λ c. not (eqb c 10)) s

-- a text with one line end, its last byte
is_line : Bytes → Bool
is_line [] = false
is_line (c ∷ []) = eqb c 10
is_line (c ∷ d ∷ s) = not (eqb c 10) && is_line (d ∷ s)

-- the pieces of a text: lines, and a rest without a line end
are_lines : List Bytes → Bool
unfolding is_free is_line
are_lines [] = false
are_lines (l ∷ []) = is_free l
are_lines (l ∷ m ∷ ms) = is_line l && are_lines (m ∷ ms)

lines-cons :
    (l : Bytes) (ls : List Bytes)
    → is_line l ≡ true
    → are_lines ls ≡ true
    → are_lines (l ∷ ls) ≡ true
unfolding are_lines
lines-cons l [] h k = absurd (cc k)
lines-cons l (m ∷ ms) h k = rw (h) k

lines-push_front :
    (c : ℕ) (ls : List Bytes)
    → eqb c 10 ≡ false
    → are_lines ls ≡ true
    → are_lines (push_front c ls) ≡ true
unfolding are_lines push_front is_free is_line
lines-push_front c [] h k = absurd (cc k)
lines-push_front c (l ∷ []) h k = rw (h) k
lines-push_front c ([] ∷ m ∷ ms) h k = absurd (cc k)
lines-push_front c ((d ∷ l) ∷ m ∷ ms) h k = rw (h) k

split_after-lines : (s : Bytes) → are_lines (split_after 10 s) ≡ true
unfolding split_after are_lines
split_after-lines [] = refl
split_after-lines (c ∷ s) = elim (Bool-cases (eqb c 10)) [
  | inl e ↦ rw (e, split_after) (lines-cons (c ∷ []) (split_after 10 s) e (split_after-lines s))
  | inr e ↦ rw (e, split_after) (lines-push_front c (split_after 10 s) e (split_after-lines s))
]

free-append : (x y : Bytes) → is_free (x ++ y) ≡ (is_free x && is_free y)
unfolding is_free
free-append [] y = refl
free-append (c ∷ x) y = ground (arith, free-append x y)

line-append :
    (x : Bytes) (c : ℕ) (y : Bytes) → is_line (x ++ c ∷ y) ≡ (is_free x && is_line (c ∷ y))
unfolding is_line is_free
line-append [] c y = refl
line-append (d ∷ []) c y = ground (arith)
line-append (d ∷ e ∷ x) c y = ground (arith, line-append (e ∷ x) c y)

split_after-free : (l : Bytes) → is_free l ≡ true → split_after 10 l ≡ l ∷ []
unfolding split_after is_free push_front
split_after-free [] h = refl
split_after-free (c ∷ l) h = elim (Bool-cases (eqb c 10)) [
  | inl e ↦ absurd (cc (rw (e, is_free) at h))
  | inr e ↦ rw (e, split_after) (ap (push_front c) (split_after-free l (rw (e, is_free) at h)))
]

split_after-line : (l s : Bytes) → is_line l ≡ true → split_after 10 (l ++ s) ≡ l ∷ split_after 10 s
unfolding split_after is_line push_front
split_after-line [] s h = absurd (cc h)
split_after-line (c ∷ []) s h = rw (h, split_after) refl
split_after-line (c ∷ d ∷ l) s h = elim (Bool-cases (eqb c 10)) [
  | inl e ↦ absurd (cc (rw (e, is_line) at h))
  | inr e ↦
      rw (e, split_after) (ap (push_front c) (split_after-line (d ∷ l) s (rw (e, is_line) at h)))
]

-- the pieces of the text they make up
split_after-concat : (ls : List Bytes) → are_lines ls ≡ true → split_after 10 (concat ls) ≡ ls
unfolding are_lines concat
split_after-concat [] h = absurd (cc h)
split_after-concat (l ∷ []) h = ap (split_after 10) (append-nil l) ∙ split_after-free l h
split_after-concat (l ∷ m ∷ ms) h =
    let (line, rest) = and_split (is_line l) (are_lines (m ∷ ms)) h in
    split_after-line l (concat (m ∷ ms)) line ∙ ap (λ t. l ∷ t) (split_after-concat (m ∷ ms) rest)

set_nth-lines :
    (n : ℕ) (new : Bytes) (ls : List Bytes) {old : Bytes}
    → nth n ls ≡ some old
    → is_free new ≡ is_free old
    → is_line new ≡ is_line old
    → are_lines (set_nth n new ls) ≡ are_lines ls
unfolding nth set_nth are_lines
set_nth-lines n new [] h free line = absurd (cc h)
set_nth-lines zero new (l ∷ []) h free line = free ∙ ap is_free (sym (some_injective h))
set_nth-lines zero new (l ∷ m ∷ ms) h free line =
    ap (λ b. b && are_lines (m ∷ ms)) (line ∙ ap is_line (sym (some_injective h)))
set_nth-lines (suc n) new (l ∷ []) h free line = absurd (cc h)
set_nth-lines (suc zero) new (l ∷ m ∷ ms) h free line =
    ap (λ b. is_line l && b) (set_nth-lines zero new (m ∷ ms) h free line)
set_nth-lines (suc (suc n)) new (l ∷ m ∷ ms) h free line =
    ap (λ b. is_line l && b) (set_nth-lines (suc n) new (m ∷ ms) h free line)

nth-set_nth :
    (n : ℕ) (new : Bytes) (ls : List Bytes) {old : Bytes}
    → nth n ls ≡ some old
    → (nth n (set_nth n new ls) ≡ some new) × (set_nth n old (set_nth n new ls) ≡ ls)
unfolding nth set_nth
nth-set_nth n new [] h = absurd (cc h)
nth-set_nth zero new (l ∷ ls) h = (refl, ap (λ k. k ∷ ls) (sym (some_injective h)))
nth-set_nth (suc n) new (l ∷ ls) h = let (a, b) = nth-set_nth n new ls h in (a, ap (λ t. l ∷ t) b)

take-append : (a x : Bytes) → take (length a) (a ++ x) ≡ a
take-append [] x = refl
take-append (c ∷ a) x = ap (λ t. c ∷ t) (take-append a x)

drop-append : (a x : Bytes) → drop (length a) (a ++ x) ≡ x
drop-append [] x = refl
drop-append (c ∷ a) x = drop-append a x

length-take_of_le : (n : ℕ) (s : Bytes) → n ≤ length s → length (take n s) ≡ n
length-take_of_le zero s h = refl
length-take_of_le (suc n) [] h = omega (arith, h)
length-take_of_le (suc n) (c ∷ s) h = omega (arith, length-take_of_le n s (omega (arith, h)))

-- a patch at the place of a stretch
patch_line-append :
    (a before after b : Bytes)
    → patch_line (length a) before after (a ++ (before ++ b)) ≡ some (a ++ (after ++ b))
unfolding patch_line
patch_line-append a before after b =
    rw
      (
        drop-append a (before ++ b),
        take-append a (before ++ b),
        take-append before b,
        drop-append before b,
        ==_refl before,
        fits,
      )
      refl
  where
    fits : ltb (length (a ++ (before ++ b))) (length a + length before) ≡ false
    fits = ground (arith, length-append a (before ++ b), length-append before b)

-- the parts of a line that is patched
record Parts (column : ℕ) (before after line new : Bytes) : Type 0 where
  front : Bytes
  back : Bytes
  at_column : length front ≡ column
  was : line ≡ front ++ (before ++ back)
  is : new ≡ front ++ (after ++ back)

patch_line-Parts :
    (column : ℕ) (before after line : Bytes) {new : Bytes}
    → patch_line column before after line ≡ some new
    → Parts column before after line new
unfolding patch_line
patch_line-Parts column before after line {new = new} h =
    elim (Bool-cases (ltb (length line) (column + length before))) [
      | inl e ↦ absurd (cc (rw (e, patch_line) at h))
      | inr e ↦ elim (Bool-cases (take (length before) (drop column line) == before)) [
        | inr f ↦ absurd (cc (rw (e, f, patch_line) at h))
        | inl f ↦ record {
          front = take column line;
          back = drop (length before) (drop column line);
          at_column = length-take_of_le column line (ground (arith, e));
          was =
              sym (take-drop column line)
              ∙ ap (λ t. take column line ++ t)
                  (sym (take-drop (length before) (drop column line))
                    ∙ ap (λ t. t ++ drop (length before) (drop column line))
                        ((==_iff _ before).0 f));
          is = sym (some_injective (rw (e, f, patch_line) at h));
        }
      ]
    ]

patch_line-revert :
    (column : ℕ) (before after line : Bytes) {new : Bytes}
    → patch_line column before after line ≡ some new
    → patch_line column after before new ≡ some line
patch_line-revert column before after line {new = new} h =
    let p = patch_line-Parts column before after line h in
    subst (λ k. patch_line k after before new ≡ some line) p.at_column
      (subst (λ t. patch_line (length p.front) after before t ≡ some line) (sym p.is)
        (subst
          (λ t. patch_line (length p.front) after before (p.front ++ (after ++ p.back)) ≡ some t)
          (sym p.was) (patch_line-append p.front after before p.back)))

line-free : (x b : Bytes) → is_free x ≡ true → is_line (x ++ b) ≡ is_line b
unfolding is_line is_free
line-free [] b h = refl
line-free (c ∷ []) [] h = ground (arith, h)
line-free (c ∷ []) (d ∷ b) h = ground (arith, h)
line-free (c ∷ e ∷ x) b h = ground (arith, h, line-free (e ∷ x) b)

-- what the shape of a line with a free stretch in it hangs on
line-around :
    (a x b : Bytes) → is_free x ≡ true → x ≢ [] → is_line (a ++ (x ++ b)) ≡ (is_free a && is_line b)
line-around a [] b h ne = absurd (ne refl)
line-around a (c ∷ x) b h ne =
    line-append a c (x ++ b) ∙ ap (λ t. is_free a && t) (line-free (c ∷ x) b h)

free-around :
    (a x b : Bytes) → is_free x ≡ true → is_free (a ++ (x ++ b)) ≡ (is_free a && is_free b)
free-around a x b h =
    free-append a (x ++ b) ∙ ap (λ t. is_free a && t) (free-append x b ∙ ap (λ t. t && is_free b) h)

module _ (before after : Bytes) where
  -- A patch is undone by the patch back: in a file where one stretch of a line was replaced, the same
  -- place holds the new text, and putting the old one there restores the file byte for byte. Neither
  -- text is empty or has a line end.
  pub patch_at-revert :
      (line column : ℕ) (content : Bytes) {patched : Bytes}
      → is_free before ≡ true
      → is_free after ≡ true
      → before ≢ []
      → after ≢ []
      → patch_at line column before after content ≡ some patched
      → patch_at line column after before patched ≡ some content
  unfolding patch_at
  patch_at-revert line column content {patched = patched} bf af bs ns h =
      let (old, at, h1) = bind_some (nth line (split_after 10 content)) h in
      let (new, patch, h2) = bind_some (patch_line column before after old) h1 in
      subst (λ t. patch_at line column after before t ≡ some content) (some_injective h2)
        (undone old new at patch)
    where
      ls : List Bytes
      ls = split_after 10 content

      kept :
          (old new : Bytes)
          → nth line ls ≡ some old
          → patch_line column before after old ≡ some new
          → split_after 10 (concat (set_nth line new ls)) ≡ set_nth line new ls
      kept old new at patch =
          let p = patch_line-Parts column before after old patch in
          split_after-concat (set_nth line new ls) (
            set_nth-lines line new ls at
              (ap is_free p.is
                ∙ free-around p.front after p.back af
                ∙ sym (ap is_free p.was ∙ free-around p.front before p.back bf))
              (ap is_line p.is
                ∙ line-around p.front after p.back af ns
                ∙ sym (ap is_line p.was ∙ line-around p.front before p.back bf bs))
            ∙ split_after-lines content)

      undone :
          (old new : Bytes)
          → nth line ls ≡ some old
          → patch_line column before after old ≡ some new
          → patch_at line column after before (concat (set_nth line new ls)) ≡ some content
      undone old new at patch =
          let (there, back) = nth-set_nth line new ls at in
          rw (kept old new at patch, there, patch_line-revert column before after old patch, back)
            (ap some (concat-split_after 10 content))
