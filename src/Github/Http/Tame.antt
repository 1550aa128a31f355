-- ===== src/Github/Http/Tame.antt =====
-- Steps that send allowed requests only, with a bound on those that write.
use incident_pilot.Common.{
  ℕ, ◌+◌, ◌≤◌, ◌≡◌, refl, inl, inr, List, [], ◌∷◌, ◌++◌, All, All-append, arith, Bool-cases, Result,
  ok, err,
}
use incident_pilot.Github.Http.{
  Request, Response, get, post, put, Server, ApiError, Step, done, fail, ◌>>=◌, attempt, or_fail,
  too_long, do_json,
}

-- how many writes a request is
unfoldable pub weight : Request → ℕ
weight r = elim r.method [ get ↦ 0 | post ↦ 1 | put ↦ 1 ]

unfoldable pub writes : List Request → ℕ
unfolding weight
writes [] = 0
writes (r ∷ rs) = weight r + writes rs

writes-append : (rs : List Request) (r : Request) → writes (rs ++ r ∷ []) ≡ weight r + writes rs
unfolding writes
writes-append [] r = refl
writes-append (q ∷ rs) r = omega (arith, writes-append rs r)

module _ (Allowed : Request → Type 0) where
  unfoldable pub Tame : (E A : Type 0) → ℕ → Step E A → Type 0
  Tame E A n m =
      (sent : List Request)
      → All Allowed sent
      → All Allowed (m sent).1 × (writes (m sent).1 ≤ n + writes sent)

  pub done-Tame : {A : Type 0} (E : Type 0) (n : ℕ) (a : A) → Tame E A n (done a)
  unfolding Tame done
  done-Tame E n a sent fine = (fine, ground arith)

  pub fail-Tame : {E : Type 0} (A : Type 0) (n : ℕ) (e : E) → Tame E A n (fail e)
  unfolding Tame fail
  fail-Tame A n e sent fine = (fine, ground arith)

  pub bind-Tame :
      {E A B : Type 0} (n k : ℕ) (m : Step E A) (f : A → Step E B)
      → Tame E A n m
      → ((a : A) → Tame E B k (f a))
      → Tame E B (n + k) (m >>= f)
  unfolding Tame ◌>>=◌
  bind-Tame {E = E} {A = A} {B = B} n k m f first next sent fine = go (m sent).0 (first sent fine)
    where
      go :
          (r : Result E A)
          → All Allowed (m sent).1 × (writes (m sent).1 ≤ n + writes sent)
          → All Allowed
              (elim r as (λ x. Result E B × List Request) [
                | err e ↦ (err e, (m sent).1)
                | ok a ↦ f a (m sent).1
              ]).1
            × (writes
                  (elim r as (λ x. Result E B × List Request) [
                    | err e ↦ (err e, (m sent).1)
                    | ok a ↦ f a (m sent).1
                  ]).1
                ≤ n + k + writes sent)
      go (err e) (allowed, few) = (allowed, omega (arith, few))
      go (ok a) (allowed, few) =
          let (still, more) = next a (m sent).1 allowed in (still, omega (arith, few, more))

  pub attempt-Tame :
      {E A : Type 0} (F : Type 0) (n : ℕ) (m : Step E A)
      → Tame E A n m
      → Tame F (Result E A) n (attempt m)
  unfolding Tame attempt
  attempt-Tame F n m first = first

  pub or_fail-Tame :
      {E F A : Type 0} (n : ℕ) (name : E → F) (m : Step E A)
      → Tame E A n m
      → Tame F A n (or_fail name m)
  unfolding Tame or_fail
  or_fail-Tame {E = E} {F = F} {A = A} n name m first sent fine = go (m sent).0 (first sent fine)
    where
      go :
          (r : Result E A)
          → All Allowed (m sent).1 × (writes (m sent).1 ≤ n + writes sent)
          → All Allowed
              (elim r as (λ x. Result F A × List Request) [
                | err e ↦ (err (name e), (m sent).1)
                | ok a ↦ (ok a, (m sent).1)
              ]).1
            × (writes
                  (elim r as (λ x. Result F A × List Request) [
                    | err e ↦ (err (name e), (m sent).1)
                    | ok a ↦ (ok a, (m sent).1)
                  ]).1
                ≤ n + writes sent)
      go (err e) out = out
      go (ok a) out = out

  pub do_json-Tame :
      {A : Type 0} (read : Response → Result ApiError A) (s : Server) (request : Request)
      (statuses : List ℕ)
      → Allowed request
      → Tame ApiError A (weight request) (do_json read s request statuses)
  unfolding Tame do_json
  do_json-Tame read s request statuses allowed sent fine =
      elim (Bool-cases (too_long s.size request.body)) [
        | inl e ↦ rw (e, do_json) (fine, ground arith)
        | inr e ↦
            rw (e, do_json)
              (
                All-append Allowed sent (request ∷ []) fine (allowed, tt),
                omega (arith, writes-append sent request),
              )
      ]
