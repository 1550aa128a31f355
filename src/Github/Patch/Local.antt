-- ===== src/Github/Patch/Local.antt =====
-- What a patch of the memory limit changes.
use incident_pilot.Common.{
  ℕ, ◌+◌, ◌*◌, ◌≤◌, ◌≡◌, ◌≢◌, sym, ap, subst, ◌∙◌, inl, inr, true, not, ◌&&◌, some, [], ◌++◌,
  append_assoc, length, take, drop, ltb, arith, Bool-cases, and_split, bind_some, guard-some,
  some_injective,
}
use incident_pilot.Text.{Bytes, lit, ◌==◌, ==_iff, contains}
use incident_pilot.Text.Split.{split_after, nth, concat-split_after, concat-set_nth, take-drop}
use incident_pilot.Remediation.Types.{Proposal}
use incident_pilot.Github.Patch.{
  Yaml, of_documents, matches_or_values, is_memory_limit_change, sole_match, patch_line, patch_at,
  generate_memory_limit_patch,
}

-- the content with one stretch replaced
pub record Replaced (before after content patched : Bytes) : Type 0 where
  pub front : Bytes
  pub back : Bytes
  pub was : content ≡ front ++ (before ++ back)
  pub is : patched ≡ front ++ (after ++ back)

patch_line-Replaced :
    (column : ℕ) (before after line : Bytes) {new : Bytes}
    → patch_line column before after line ≡ some new
    → Replaced before after line new
unfolding patch_line
patch_line-Replaced column before after line {new = new} h =
    elim (Bool-cases (ltb (length line) (column + length before))) [
      | inl e ↦ absurd (cc (rw (e, patch_line) at h))
      | inr e ↦ elim (Bool-cases (take (length before) (drop column line) == before)) [
        | inr f ↦ absurd (cc (rw (e, f, patch_line) at h))
        | inl f ↦ record {
          front = take column line;
          back = drop (length before) (drop column line);
          was =
              sym (take-drop column line)
              ∙ ap (λ t. take column line ++ t)
                  (sym (take-drop (length before) (drop column line))
                    ∙ ap (λ t. t ++ drop (length before) (drop column line))
                        ((==_iff _ before).0 f));
          is = sym (some_injective (rw (e, f, patch_line) at h));
        }
      ]
    ]

-- a replacement within a text is one of the longer text
Replaced-within :
    (pre post : Bytes) {before after line new : Bytes}
    → Replaced before after line new
    → Replaced before after (pre ++ (line ++ post)) (pre ++ (new ++ post))
Replaced-within pre post {before = before} {after = after} r = record {
  front = pre ++ r.front;
  back = r.back ++ post;
  was = ap (λ t. pre ++ (t ++ post)) r.was ∙ shifted before;
  is = ap (λ t. pre ++ (t ++ post)) r.is ∙ shifted after;
}
  where
    shifted :
        (mid : Bytes)
        → pre ++ ((r.front ++ (mid ++ r.back)) ++ post)
          ≡ (pre ++ r.front) ++ (mid ++ (r.back ++ post))
    shifted mid = simp (append_assoc)

patch_at-Replaced :
    (line column : ℕ) (before after content : Bytes) {patched : Bytes}
    → patch_at line column before after content ≡ some patched
    → Replaced before after content patched
unfolding patch_at
patch_at-Replaced line column before after content {patched = patched} h =
    let (old, at, h1) = bind_some (nth line (split_after 10 content)) h in
    let (new, patch, h2) = bind_some (patch_line column before after old) h1 in
    let (was, is) = concat-set_nth line new (split_after 10 content) at in
    subst (λ c. Replaced before after c patched) (sym was ∙ concat-split_after 10 content)
      (subst (Replaced before after _) (sym is ∙ some_injective h2)
        (Replaced-within _ _ (patch_line-Replaced column before after old patch)))

differ : (s t : Bytes) → not (s == t) ≡ true → s ≢ t
differ s t h e = ground (arith, h, (==_iff s t).1 e)

at_most : (n m : ℕ) → not (ltb n m) ≡ true → m ≤ n
at_most n m h = ground (arith, h)

-- a change of the memory limit of the demo's payments-api
pub record LimitChange (proposal : Proposal) : Type 0 where
  pub operation : proposal.operation ≡ lit "update_resource_limit"
  pub kind : proposal.target.kind ≡ lit "Deployment"
  pub namespace : proposal.target.namespace ≡ lit "incidentpilot-demo"
  pub name : proposal.target.name ≡ lit "payments-api"
  pub container : proposal.target.container ≡ lit "payments-api"
  pub field : proposal.change.field ≡ lit "memory_limit"

is_memory_limit_change-LimitChange :
    (proposal : Proposal) → is_memory_limit_change proposal ≡ true → LimitChange proposal
unfolding is_memory_limit_change
is_memory_limit_change-LimitChange proposal h = record {
  operation = (==_iff _ _).0 (ground (arith, h));
  kind = (==_iff _ _).0 (ground (arith, h));
  namespace = (==_iff _ _).0 (ground (arith, h));
  name = (==_iff _ _).0 (ground (arith, h));
  container = (==_iff _ _).0 (ground (arith, h));
  field = (==_iff _ _).0 (ground (arith, h));
}

-- A patch that is made replaces one stretch of the file, which reads as the proposal's old limit, by its
-- new limit, keeps every other byte, and changes the file. The proposal is then for the memory limit of
-- the demo's payments-api Deployment, and the file is not empty and at most 256 KiB long.
pub generate_memory_limit_patch-Replaced :
    (y : Yaml) (content : Bytes) (proposal : Proposal) {patched : Bytes}
    → generate_memory_limit_patch y content proposal ≡ some patched
    → Replaced proposal.change.before proposal.change.after content patched
      × (content ≢ patched)
      × (content ≢ [])
      × (length content ≤ 256 * 1024)
      × LimitChange proposal
unfolding generate_memory_limit_patch
generate_memory_limit_patch-Replaced y content proposal {patched = patched} h =
    let (asked, h1) =
      guard-some
        (not (content == [])
          && not (ltb (256 * 1024) (length content))
          && is_memory_limit_change proposal)
        h in
    let (docs, _, h2) = bind_some (y.documents content) h1 in
    let (place, _, h3) =
      bind_some
        (sole_match proposal.change.before
          (matches_or_values y content proposal (of_documents docs)))
        h2 in
    let (out, patch, h4) =
      bind_some (patch_at place.0 place.1 proposal.change.before proposal.change.after content)
        h3 in
    let (changed, h5) =
      guard-some (not (content == out) && contains out proposal.change.after) h4 in
    let (bounded, allowed) =
      and_split (not (content == []) && not (ltb (256 * 1024) (length content)))
        (is_memory_limit_change proposal) asked in
    let (not_empty, small) =
      and_split (not (content == [])) (not (ltb (256 * 1024) (length content))) bounded in
    let (differs, _) =
      and_split (not (content == out)) (contains out proposal.change.after) changed in
    (
      subst (Replaced _ _ content) (some_injective h5)
          (patch_at-Replaced place.0 place.1 _ _ content patch),
      (λ e.
          differ content patched
            (subst (λ o. not (content == o) ≡ true) (some_injective h5) differs) e),
      (λ e. differ content [] not_empty e),
      at_most _ _ small,
      is_memory_limit_change-LimitChange proposal allowed,
    )
