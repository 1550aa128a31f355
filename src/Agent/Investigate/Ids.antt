-- ===== src/Agent/Investigate/Ids.antt =====
-- `validIDs` of internal/agent/agent.go, and the loop over the hypotheses of a model's answer.
use incident_pilot.Common.{
  ◌≡◌, refl, ◌≢◌, ◌≤◌, ◌⊎◌, inl, inr, Bool, true, false, not, ◌&&◌, ◌||◌, List, [], ◌∷◌, ◌++◌, Memᴰ,
  All, Distinct, any, length, leb, ltb, arith, if◌then◌else◌, Bool-cases, All-append, length-append,
  and_split, ◌<◌,
}
use incident_pilot.Text.{Bytes, lit, ◌==◌, ==_iff, ==_refl}
use incident_pilot.Agent.Types.{Hypothesis}
use incident_pilot.Agent.Verify.Cited.{is_cited, is_cited-Memᴰ, Memᴰ-is_cited}

-- the loop over the IDs, with those seen; `valid` is the set of the collected IDs
keep_valid : List Bytes → List Bytes → List Bytes → List Bytes
unfolding is_cited
keep_valid valid seen [] = []
keep_valid valid seen (id ∷ ids) =
    let kept = id ∷ keep_valid valid (id ∷ seen) ids in
    let rest = keep_valid valid seen ids in
    if is_cited valid id && not (is_cited seen id) then kept else rest

unfoldable pub valid_ids : List Bytes → List Bytes → List Bytes
unfolding keep_valid
valid_ids ids valid = keep_valid valid [] ids

is_status : Bytes → Bool
is_status s = s == lit "supported" || s == lit "rejected" || s == lit "unresolved"

abbrev no_ids : List Bytes → Bool
no_ids [] = true
no_ids (x ∷ xs) = false

-- the hypothesis that the report keeps
unfoldable pub settle : List Bytes → Hypothesis → Hypothesis
unfolding is_status valid_ids
settle valid h =
    let ids = valid_ids h.evidence_ids valid in
    record {
      statement = h.statement;
      status = if not (is_status h.status) || no_ids ids then lit "unresolved" else h.status;
      evidence_ids = ids;
    }

-- the loop stops at five hypotheses and at a statement that is empty or longer than 512 bytes
unfoldable pub add_hypotheses : List Bytes → List Hypothesis → List Hypothesis → List Hypothesis
unfolding settle
add_hypotheses valid kept [] = kept
add_hypotheses valid kept (h ∷ hs) =
    let rest = add_hypotheses valid (kept ++ settle valid h ∷ []) hs in
    if leb 5 (length kept) || leb (length h.statement) 0 || ltb 512 (length h.statement)
    then kept
    else rest

keep_valid-All :
    (valid seen ids : List Bytes) → All (λ id. Memᴰ id valid) (keep_valid valid seen ids)
unfolding keep_valid
keep_valid-All valid seen [] = tt
keep_valid-All valid seen (x ∷ xs) = elim (Bool-cases (is_cited valid x && not (is_cited seen x))) [
  | inl e ↦
      let c = (and_split _ _ e).0 in
      rw (e, keep_valid) (is_cited-Memᴰ valid x c, keep_valid-All valid (x ∷ seen) xs)
  | inr e ↦ rw (e, keep_valid) (keep_valid-All valid seen xs)
]

keep_valid-unseen :
    (valid : List Bytes) (x : Bytes) (seen ids : List Bytes)
    → is_cited seen x ≡ true
    → All (λ y. x ≢ y) (keep_valid valid seen ids)
unfolding keep_valid is_cited any
keep_valid-unseen valid x seen [] m = tt
keep_valid-unseen valid x seen (y ∷ ys) m =
    elim (Bool-cases (is_cited valid y && not (is_cited seen y))) [
      | inl e ↦
          rw (e, keep_valid)
            (
              (λ same. ground (arith, same, e)),
              keep_valid-unseen valid x (y ∷ seen) ys (ground arith),
            )
      | inr e ↦ rw (e, keep_valid) (keep_valid-unseen valid x seen ys m)
    ]

keep_valid-Distinct : (valid seen ids : List Bytes) → Distinct (keep_valid valid seen ids)
unfolding keep_valid is_cited any
keep_valid-Distinct valid seen [] = tt
keep_valid-Distinct valid seen (x ∷ xs) =
    elim (Bool-cases (is_cited valid x && not (is_cited seen x))) [
      | inl e ↦
          rw (e, keep_valid)
            (
              keep_valid-unseen valid x (x ∷ seen) xs (ground (arith, ==_refl x)),
              keep_valid-Distinct valid (x ∷ seen) xs,
            )
      | inr e ↦ rw (e, keep_valid) (keep_valid-Distinct valid seen xs)
    ]

keep_valid_keeps :
    (valid seen ids : List Bytes) (x : Bytes)
    → is_cited ids x ≡ true
    → is_cited valid x ≡ true
    → is_cited seen x ≡ false
    → is_cited (keep_valid valid seen ids) x ≡ true
unfolding keep_valid is_cited any
keep_valid_keeps valid seen [] x m v f = cc
keep_valid_keeps valid seen (y ∷ ys) x m v f = elim (Bool-cases (y == x)) [
  | inl same ↦ ground (arith, same, (==_iff y x).0 same)
  | inr differ ↦
      ground
        (arith, differ, keep_valid_keeps valid (y ∷ seen) ys x, keep_valid_keeps valid seen ys x)
]

-- `validIDs` keeps each collected ID of the list once, and nothing else.
pub valid_ids_lem :
    (ids valid : List Bytes)
    → All (λ id. Memᴰ id valid) (valid_ids ids valid)
      × Distinct (valid_ids ids valid)
      × ((x : Bytes) → Memᴰ x ids → Memᴰ x valid → Memᴰ x (valid_ids ids valid))
unfolding valid_ids
valid_ids_lem ids valid = (
  keep_valid-All valid [] ids,
  keep_valid-Distinct valid [] ids,
  (λ x m v. is_cited-Memᴰ (keep_valid valid [] ids) x (
      keep_valid_keeps valid [] ids x (Memᴰ-is_cited ids x m) (Memᴰ-is_cited valid x v)
        (unfold is_cited any in refl))),
)

-- a hypothesis of a report
pub record Settled (valid : List Bytes) (h : Hypothesis) : Type 0 where
  pub has_statement : 1 ≤ length h.statement
  pub short_statement : length h.statement ≤ 512
  pub known_status :
      (h.status ≡ lit "supported") ⊎ (h.status ≡ lit "rejected") ⊎ (h.status ≡ lit "unresolved")
  pub backed : h.status ≢ lit "unresolved" → h.evidence_ids ≢ []
  pub collected : All (λ id. Memᴰ id valid) h.evidence_ids
  pub distinct : Distinct h.evidence_ids

settle-Settled :
    (valid : List Bytes) (h : Hypothesis)
    → 1 ≤ length h.statement
    → length h.statement ≤ 512
    → Settled valid (settle valid h)
unfolding settle is_status
settle-Settled valid h one short = record {
  has_statement = one;
  short_statement = short;
  known_status = ground (
    arith,
    ==_iff h.status (lit "supported"),
    ==_iff h.status (lit "rejected"),
    ==_iff h.status (lit "unresolved"),
  );
  backed = λ u e. ground (arith, u, e);
  collected = (valid_ids_lem h.evidence_ids valid).0;
  distinct = (valid_ids_lem h.evidence_ids valid).1;
}

-- A report keeps at most five hypotheses; each has a statement of 1 to 512 bytes, a known status and
-- distinct collected evidence, and is unresolved where it cites none.
pub add_hypotheses-Settled :
    (valid : List Bytes) (kept hs : List Hypothesis)
    → length kept ≤ 5
    → All (Settled valid) kept
    → (length (add_hypotheses valid kept hs) ≤ 5)
      × All (Settled valid) (add_hypotheses valid kept hs)
unfolding add_hypotheses
add_hypotheses-Settled valid kept [] l a = (l, a)
add_hypotheses-Settled valid kept (h ∷ hs) l a =
    elim (Bool-cases
      (leb 5 (length kept) || leb (length h.statement) 0 || ltb 512 (length h.statement))) [
        | inl stop ↦ rw (stop, add_hypotheses) ((l, a))
        | inr go ↦
            rw (go, add_hypotheses)
              (add_hypotheses-Settled valid (kept ++ settle valid h ∷ []) hs
                (omega (arith, length-append kept (settle valid h ∷ []), fewer (ground arith)))
                (All-append (Settled valid) kept (settle valid h ∷ []) a
                  (settle-Settled valid h (ground arith) (ground arith), tt)))
      ]
  where
    fewer : leb 5 (length kept) ≡ false → length kept < 5
    fewer e = ground arith
