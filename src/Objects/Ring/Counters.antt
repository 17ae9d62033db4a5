-- ===== src/Objects/Ring/Counters.antt =====
-- The counters of src/objects/ring.c as a bounded queue length: no wrap, no overrun.
use mich_core.Base.{
  ℕ, ◌+◌, ◌-◌, ◌<◌, ◌≤◌, ◌^◌, ◌≡◌, ◌≢◌, refl, ◌∙◌, Bool, true, false, ◌||◌, arith, ltb, ◌==◌,
  if◌then◌else◌, get_or, ◌↔◌, ◌⊎◌, sub64, add64, Bool-cases, inl, inr,
}
use mich_core.Objects.Ring.{
  RingResource, published, sync_header, rebase_if_empty, submit, consume, revoked_ring,
}

-- The counters are 64-bit words in order, at most a capacity apart; a capacity fits 64 bits.
pub record IsOrdered (r : RingResource) : Type 0 where
  pub fits : r.producer < 2 ^ 64
  pub order : r.consumer ≤ r.producer
  pub bounded : r.producer - r.consumer ≤ r.capacity
  pub small : r.capacity ≤ 128

-- The descriptors in flight.
abbrev pub length_of : RingResource → ℕ
length_of r = r.producer - r.consumer

occupied : {r : RingResource} → IsOrdered r → sub64 r.producer r.consumer ≡ length_of r
occupied v = omega arith

-- `sync_header` changes what is published, and nothing else of the ring.
sync_header_keeps :
    (r : RingResource)
    → ((sync_header r).producer ≡ r.producer)
      × ((sync_header r).consumer ≡ r.consumer)
      × ((sync_header r).capacity ≡ r.capacity)
      × ((sync_header r).revoked ≡ r.revoked)
unfolding sync_header
sync_header_keeps r = ground arith

sync_header-IsOrdered : {r : RingResource} → IsOrdered r → IsOrdered (sync_header r)
sync_header-IsOrdered {r} v = ground (arith, sync_header_keeps r)

length_of-sync_header : (r : RingResource) → length_of (sync_header r) ≡ length_of r
length_of-sync_header r = ground (arith, sync_header_keeps r)

-- A move of the producer that the ring has room for.
abbrev produced : RingResource → ℕ → RingResource
produced r count =
    let r' = (rebase_if_empty r count).0 in record r' { producer = add64 r'.producer count }

rebase_lem :
    {r : RingResource} (count : ℕ)
    → IsOrdered r
    → 0 < count
    → length_of r + count ≤ r.capacity
    → ((rebase_if_empty r count).1 ≡ false)
        × (r.producer ≢ r.consumer)
        × (2 ^ 64 ≤ r.producer + count)
        × ((rebase_if_empty r count).0 ≡ r)
      ⊎ ((rebase_if_empty r count).1 ≡ true)
        × ((r.producer + count < 2 ^ 64) ⊎ (r.producer ≡ r.consumer))
        × IsOrdered (produced r count)
        × (length_of (produced r count) ≡ length_of r + count)
unfolding rebase_if_empty
rebase_lem {r} count v pos room = ground arith

-- What a counter move guarantees: the ring it leaves, its length, and when it succeeds.
abbrev pub Moved : RingResource → ℕ → Type 0 → RingResource × Bool → Type 0
Moved r after condition out =
    IsOrdered out.0
    × (length_of out.0 ≡ (if out.1 then after else length_of r))
    × ((out.1 ≡ true) ↔ condition)

stays : {r : RingResource} (after : ℕ) (C : Type 0) → IsOrdered r → ¬ C → Moved r after C (r, false)
stays {r} after C v no_c = (v, refl, ((λ e. absurd (ground arith)), (λ c. absurd (no_c c))))

publishes :
    {r : RingResource} (after : ℕ) (C : Type 0)
    → IsOrdered r
    → ¬ C
    → Moved r after C (sync_header r, false)
publishes {r} after C v no_c = (
  sync_header-IsOrdered v,
  length_of-sync_header r,
  ((λ e. absurd (ground arith)), (λ c. absurd (no_c c))),
)

advances :
    (r : RingResource) (after : ℕ) (C : Type 0) (r' : RingResource)
    → IsOrdered r'
    → length_of r' ≡ after
    → C
    → Moved r after C (sync_header r', true)
advances r after C r' v e c =
    (sync_header-IsOrdered v, length_of-sync_header r' ∙ e, ((λ _. c), (λ _. refl)))

abbrev pub CanSubmit : RingResource → ℕ → Type 0
CanSubmit r count =
    (r.revoked ≡ false)
    × (0 < count)
    × (length_of r + count ≤ r.capacity)
    × ((r.producer + count < 2 ^ 64) ⊎ (r.producer ≡ r.consumer))

-- `submit` succeeds exactly when the ring is not revoked, the count is not 0, the ring has room for
-- it, and the counter does not wrap unless the ring is empty. Then the number of descriptors in
-- flight grows by the count, else it stays; the counters stay in order and within the capacity.
pub submit-Moved :
    {r : RingResource} (count : ℕ)
    → IsOrdered r
    → Moved r (length_of r + count) (CanSubmit r count) (submit r count)
unfolding submit
submit-Moved {r} count v = elim (Bool-cases (r.revoked || (count == 0 || ltb r.capacity count))) [
  | inl b ↦ rw b (stays (length_of r + count) (CanSubmit r count) v (λ c. ground arith))
  | inr b ↦
      rw (b, occupied v)
        (elim (Bool-cases (ltb r.capacity (length_of r) || ltb (r.capacity - length_of r) count)) [
          | inl d ↦ rw d (publishes (length_of r + count) (CanSubmit r count) v (λ c. ground arith))
          | inr d ↦ rw d (elim (rebase_lem count v (ground arith) (ground arith)) [
            | inl (f, ne, big, same) ↦
                rw (f, same)
                  (publishes (length_of r + count) (CanSubmit r count) v (λ c. ground arith))
            | inr (t, how, w, len) ↦ rw t (
                advances r (length_of r + count) (CanSubmit r count) (produced r count) w len
                  (ground arith, ground arith, ground arith, how))
          ])
        ])
]

abbrev pub CanConsume : RingResource → ℕ → Type 0
CanConsume r count = (r.revoked ≡ false) × (0 < count) × (count ≤ length_of r)

-- `consume` succeeds exactly when the ring is not revoked and that many descriptors, but not 0, are
-- in flight. Then their number falls by the count, else it stays, with the counters in order.
pub consume-Moved :
    {r : RingResource} (count : ℕ)
    → IsOrdered r
    → Moved r (length_of r - count) (CanConsume r count) (consume r count)
unfolding consume
consume-Moved {r} count v = elim (Bool-cases (r.revoked || count == 0)) [
  | inl b ↦ rw b (stays (length_of r - count) (CanConsume r count) v (λ c. ground arith))
  | inr b ↦
      rw (b, occupied v)
        (elim (Bool-cases (ltb r.capacity (length_of r) || ltb (length_of r) count)) [
          | inl d ↦
              rw d (publishes (length_of r - count) (CanConsume r count) v (λ c. ground arith))
          | inr d ↦
              let w : IsOrdered (record r { consumer = add64 r.consumer count }) = ground arith in
              rw d (
                advances r (length_of r - count) (CanConsume r count)
                  (record r { consumer = add64 r.consumer count }) w (ground arith)
                  (ground arith, ground arith, ground arith))
        ])
]

-- Revocation empties the ring, keeps the generation away from 0, publishes the flag where the ring
-- has a page, and no move succeeds afterwards.
pub revoked_ring_lem :
    (r : RingResource) (count : ℕ)
    → get_or r.phys 0 0 ≢ 0
    → r.capacity ≤ 128
    → let r' = revoked_ring r in
      IsOrdered r'
      × (length_of r' ≡ 0)
      × (0 < r'.generation)
      × (r'.header ≡ published r')
      × (r'.header.flags ≡ 1)
      × ((submit r' count).1 ≡ false)
      × ((consume r' count).1 ≡ false)
unfolding revoked_ring sync_header submit consume
revoked_ring_lem r count h c = (
  ground arith,
  ground arith,
  ground arith,
  ground arith,
  ground arith,
  ground arith,
  ground arith,
)
