-- ===== src/Tests/Memory.antt =====
-- A payments workload that holds 20 MiB after three growths.
use incident_pilot.Common.{◌≤◌, ◌≡◌, refl, ◌∷◌, [], false, All, arith}
use incident_pilot.Demo.{chunk_bytes, fresh, grow, grow_times, total, grow_times-reaches}

grows_in_chunks : (grow_times 3 (fresh 20971520)).chunks ≡ 8388608 ∷ 8388608 ∷ 4194304 ∷ []
unfolding grow_times fresh
grows_in_chunks = refl

grow_times-reaches_example :
    ((grow_times 3 (fresh 20971520)).retained ≡ 20971520)
    × (total (grow_times 3 (fresh 20971520)).chunks ≡ 20971520)
    × All (λ c. c ≤ chunk_bytes) (grow_times 3 (fresh 20971520)).chunks
    × (grow (grow_times 3 (fresh 20971520)) ≡ (grow_times 3 (fresh 20971520), 20971520, false))
grow_times-reaches_example = grow_times-reaches 20971520 3 (omega arith)
