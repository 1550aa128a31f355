-- ===== src/Demo.antt =====
-- internal/demo/payment_memory.go: the growth of the payments workload's memory. A chunk is told by its
-- size, and the lock makes each growth one step.
use incident_pilot.Common.{
  ℕ, zero, suc, ◌+◌, ◌-◌, ◌*◌, ◌≤◌, ◌≡◌, refl, ap, ◌∙◌, inl, inr, Bool, true, false, List, [], ◌∷◌,
  ◌++◌, leb, ltb, All, All-append, if◌then◌else◌, arith, Bool-cases,
}

pub record PaymentMemory : Type 0 where
  pub chunks : List ℕ
  pub retained : ℕ
  pub target_bytes : ℕ

abbrev pub chunk_bytes : ℕ
chunk_bytes = 8388608

unfoldable pub fresh : ℕ → PaymentMemory
fresh target = record { chunks = []; retained = 0; target_bytes = target }

-- the memory after a growth, and what is returned
unfoldable pub grow : PaymentMemory → PaymentMemory × ℕ × Bool
grow m =
    if leb m.target_bytes m.retained
    then (m, m.retained, false)
    else let left = m.target_bytes - m.retained in
      let size = if ltb left chunk_bytes then left else chunk_bytes in
      (
        record m { chunks = m.chunks ++ size ∷ []; retained = m.retained + size },
        m.retained + size,
        true,
      )

-- the memory after a number of growths
unfoldable pub grow_times : ℕ → PaymentMemory → PaymentMemory
unfolding grow
grow_times zero m = m
grow_times (suc n) m = grow_times n (grow m).0

unfoldable pub total : List ℕ → ℕ
total [] = 0
total (c ∷ cs) = c + total cs

total-append : (cs : List ℕ) (c : ℕ) → total (cs ++ c ∷ []) ≡ total cs + c
unfolding total
total-append [] c = omega arith
total-append (d ∷ cs) c = omega (arith, total-append cs c)

-- the chunks make up what is retained, which is at most the target
abbrev Held : PaymentMemory → Type 0
Held m =
    (total m.chunks ≡ m.retained)
    × (m.retained ≤ m.target_bytes)
    × All (λ c. c ≤ chunk_bytes) m.chunks

grow-Held : (m : PaymentMemory) → Held m → Held (grow m).0
unfolding grow
grow-Held m (sum, bound, small) = elim (Bool-cases (leb m.target_bytes m.retained)) [
  | inl e ↦ rw (e, grow) (sum, bound, small)
  | inr e ↦ elim (Bool-cases (ltb (m.target_bytes - m.retained) chunk_bytes)) [
    | inl f ↦
        rw (e, f, grow)
          (
            omega (arith, sum, total-append m.chunks (m.target_bytes - m.retained)),
            ground (arith, bound, e),
            All-append _ m.chunks _ small (ground (arith, f), tt),
          )
    | inr f ↦
        rw (e, f, grow)
          (
            omega (arith, sum, total-append m.chunks chunk_bytes),
            ground (arith, bound, e, f),
            All-append _ m.chunks _ small (omega arith, tt),
          )
  ]
]

grow-advances :
    (n : ℕ) (m : PaymentMemory)
    → m.target_bytes ≤ m.retained + suc n * chunk_bytes
    → ((grow m).0.target_bytes ≡ m.target_bytes)
      × (m.target_bytes ≤ (grow m).0.retained + n * chunk_bytes)
unfolding grow
grow-advances n m enough = elim (Bool-cases (leb m.target_bytes m.retained)) [
  | inl e ↦ rw (e, grow) (refl, ground (arith, e))
  | inr e ↦ elim (Bool-cases (ltb (m.target_bytes - m.retained) chunk_bytes)) [
    | inl f ↦ rw (e, f, grow) (refl, ground (arith, e))
    | inr f ↦ rw (e, f, grow) (refl, omega (arith, enough))
  ]
]

grow_times-full :
    (n : ℕ) (m : PaymentMemory)
    → m.target_bytes ≤ m.retained + n * chunk_bytes
    → Held m
    → Held (grow_times n m)
      × ((grow_times n m).retained ≡ m.target_bytes)
      × ((grow_times n m).target_bytes ≡ m.target_bytes)
unfolding grow_times
grow_times-full zero m enough held = (held, omega (arith, enough, held.1), refl)
grow_times-full (suc n) m enough held =
    let (same, left) = grow-advances n m enough in
    let (held', full, kept) =
      grow_times-full n (grow m).0 (omega (arith, same, left)) (grow-Held m held) in
    (held', full ∙ same, kept ∙ same)

grow-full :
    (m : PaymentMemory) → leb m.target_bytes m.retained ≡ true → grow m ≡ (m, m.retained, false)
unfolding grow
grow-full m h = rw (h, grow) refl

-- Growths reach the target: after as many as chunks of 8 MiB are needed for it, exactly the target is
-- retained, in chunks of at most 8 MiB that add up to it, and a further growth changes nothing and
-- says so.
pub grow_times-reaches :
    (target n : ℕ)
    → target ≤ n * chunk_bytes
    → ((grow_times n (fresh target)).retained ≡ target)
      × (total (grow_times n (fresh target)).chunks ≡ target)
      × All (λ c. c ≤ chunk_bytes) (grow_times n (fresh target)).chunks
      × (grow (grow_times n (fresh target)) ≡ (grow_times n (fresh target), target, false))
unfolding fresh total
grow_times-reaches target n enough =
    let (held, full, kept) =
      grow_times-full n (fresh target) (omega (arith, enough)) (refl, omega arith, tt) in
    (full, held.0 ∙ full, held.2, settled (grow_times n (fresh target)) full kept)
  where
    settled :
        (m : PaymentMemory)
        → m.retained ≡ target
        → m.target_bytes ≡ target
        → grow m ≡ (m, target, false)
    settled m full kept = grow-full m (ground (arith, full, kept)) ∙ ap (λ r. (m, r, false)) full
