-- ===== src/Net/Pmtu/Clamp.antt =====
-- `clamp_mtu` of src/net/pmtu.c, and the answers of the two lookups against their ceiling.
use mich_core.Base.{ℕ, ◌≤◌, ◌≡◌, arith, min, max, List, Option}
use mich_core.Net.Pmtu.{PmtuCache, clamp_mtu, answer, pmtu_lookup4, pmtu_lookup6, find4, find6}

-- The smaller of the ceiling and the value, where the value is raised to the minimum first and 0
-- stands for the minimum.
pub clamp_mtu-min :
    (mtu ceiling minimum : ℕ) → clamp_mtu mtu ceiling minimum ≡ min ceiling (max minimum mtu)
unfolding clamp_mtu
clamp_mtu-min mtu ceiling minimum = ground arith

answer-le :
    (cache : PmtuCache) (found : Option ℕ) (ceiling : ℕ) → (answer cache found ceiling).1 ≤ ceiling
unfolding answer
answer-le cache found ceiling = ground arith

-- Neither lookup answers more than its ceiling.
pub pmtu_lookup-le :
    (cache : PmtuCache) (destination ceiling : ℕ) (destination6 : List ℕ)
    → ((pmtu_lookup4 cache destination ceiling).1 ≤ ceiling)
      × ((pmtu_lookup6 cache destination6 ceiling).1 ≤ ceiling)
unfolding pmtu_lookup4 pmtu_lookup6
pmtu_lookup-le cache d c d6 = (
  ground (arith, answer-le cache (find4 cache d) c),
  ground (arith, answer-le cache (find6 cache d6) c),
)
