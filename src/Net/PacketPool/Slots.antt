-- ===== src/Net/PacketPool/Slots.antt =====
-- The ids of src/net/net_buffer.c: an id names one buffer from its acquisition to its release, and
-- nothing after it.
use mich_core.Base.{
  some_inj, ℕ, zero, suc, ◌+◌, ◌-◌, ◌/◌, ◌%◌, ◌^◌, ◌<◌, ◌≤◌, ◌≡◌, ◌≢◌, ◌⊎◌, inl, inr, refl, sym, ap,
  subst, ◌∙◌, arith, Bool, true, false, not, ◌||◌, none, some, ltb, ◌==◌, if◌then◌else◌, add32, set,
  length, length-set, get_or-set_self, get_or-set_ne, Bool-cases, Option-cases, ℕ_discrete, dec_lt,
}
use native.Mathlib.Nat.{mod-lt, mod-eq_of_lt, add-mod_right}
use mich_core.Net.PacketPool.{
  PacketBuffer, PacketPool, packet_pool_buffer_max, net_buffer_free, net_buffer_driver_tx,
  no_buffer, buffer_at, packet_id, buffer_for, acquire_from, packet_pool_acquire_res,
  next_generation, freed, packet_pool_release_res,
}

-- A pool has at most 64 buffers, each with a generation of 32 bits that is not zero.
pub record IsPool (pool : PacketPool) : Type 0 where
  pub size : length pool.buffers ≡ packet_pool_buffer_max
  pub some_buffers : 1 ≤ pool.buffer_count
  pub bound : pool.buffer_count ≤ packet_pool_buffer_max
  pub next : pool.next_buffer < pool.buffer_count
  pub lived :
      (slot : ℕ)
      → slot < pool.buffer_count
      → (1 ≤ (buffer_at pool slot).generation) × ((buffer_at pool slot).generation < 2 ^ 32)

-- The id of a buffer in use finds its slot.
buffer_for-packet_id :
    (pool : PacketPool) (slot : ℕ)
    → IsPool pool
    → slot < pool.buffer_count
    → (buffer_at pool slot).state ≢ net_buffer_free
    → buffer_for pool (packet_id (buffer_at pool slot).generation slot) ≡ some slot
unfolding buffer_for
buffer_for-packet_id pool slot h k used =
    let g = (buffer_at pool slot).generation in
    let (a, b) = h.lived slot k in
    let bound = h.bound in
    let low : packet_id g slot % 2 ^ 32 ≡ slot + 1 = omega arith in
    let high : packet_id g slot / 2 ^ 32 % 2 ^ 32 ≡ g = omega arith in
    let at : slot + 1 - 1 ≡ slot = omega arith in rw (low, high, at) (ground arith)

-- What the search finds is a free slot of the pool.
acquire_from-some :
    (left : ℕ) (pool : PacketPool) (offset slot : ℕ)
    → 1 ≤ pool.buffer_count
    → acquire_from left pool offset ≡ some slot
    → (slot < pool.buffer_count) × ((buffer_at pool slot).state ≡ net_buffer_free)
unfolding acquire_from
acquire_from-some zero pool offset slot h e = absurd (ground arith)
acquire_from-some (suc left) pool offset slot h e =
    let at = add32 pool.next_buffer offset % pool.buffer_count in
    elim (Bool-cases ((buffer_at pool at).state == net_buffer_free)) [
      | inl t ↦
          let got : acquire_from (suc left) pool offset ≡ some at = rw (t, acquire_from) refl in
          let same : at ≡ slot = cc in
          (
            subst (λ s. s < pool.buffer_count) same
                (mod-lt (add32 pool.next_buffer offset) {m = pool.buffer_count} (omega arith)),
            subst (λ s. (buffer_at pool s).state ≡ net_buffer_free) same (ground arith),
          )
      | inr f ↦
          let got : acquire_from (suc left) pool offset ≡ acquire_from left pool (suc offset) =
            rw (f, acquire_from) refl in
          acquire_from-some left pool (suc offset) slot h (sym got ∙ e)
    ]

-- Where the search finds nothing, it passed used buffers only.
acquire_from-none :
    (left : ℕ) (pool : PacketPool) (offset d : ℕ)
    → acquire_from left pool offset ≡ none
    → offset ≤ d
    → d < offset + left
    → (buffer_at pool (add32 pool.next_buffer d % pool.buffer_count)).state ≢ net_buffer_free
unfolding acquire_from
acquire_from-none zero pool offset d e h k = absurd (omega arith)
acquire_from-none (suc left) pool offset d e h k =
    let at = add32 pool.next_buffer offset % pool.buffer_count in
    elim (Bool-cases ((buffer_at pool at).state == net_buffer_free)) [
      | inl t ↦
          let got : acquire_from (suc left) pool offset ≡ some at = rw (t, acquire_from) refl in cc
      | inr f ↦
          let got : acquire_from (suc left) pool offset ≡ acquire_from left pool (suc offset) =
            rw (f, acquire_from) refl in
          elim (ℕ_discrete d offset) [
            | yes q ↦ rw q (ground arith)
            | no q ↦
                acquire_from-none left pool (suc offset) d (sym got ∙ e) (omega arith) (omega arith)
          ]
    ]

-- A search over the whole pool finds nothing only where each buffer is used.
acquire_from-full :
    (pool : PacketPool)
    → IsPool pool
    → acquire_from pool.buffer_count pool 0 ≡ none
    → (slot : ℕ) → slot < pool.buffer_count
    → (buffer_at pool slot).state ≢ net_buffer_free
acquire_from-full pool h e slot k =
    let bound = h.bound in
    let next = h.next in
    let count = pool.buffer_count in
    elim (dec_lt slot pool.next_buffer) [
      | no z ↦
          let d = slot - pool.next_buffer in
          let sum : add32 pool.next_buffer d ≡ slot = omega arith in
          let at : add32 pool.next_buffer d % count ≡ slot =
            ap (λ x. x % count) sum ∙ mod-eq_of_lt k in
          subst (λ j. (buffer_at pool j).state ≢ net_buffer_free) at
            (acquire_from-none count pool 0 d e (omega arith) (omega arith))
      | yes z ↦
          let d = slot + count - pool.next_buffer in
          let sum : add32 pool.next_buffer d ≡ slot + count = omega arith in
          let at : add32 pool.next_buffer d % count ≡ slot =
            ap (λ x. x % count) sum ∙ add-mod_right slot count ∙ mod-eq_of_lt k in
          subst (λ j. (buffer_at pool j).state ≢ net_buffer_free) at
            (acquire_from-none count pool 0 d e (omega arith) (omega arith))
    ]

-- One buffer of a pool is replaced.
set-IsPool :
    (pool : PacketPool) (slot next : ℕ) (buffer : PacketBuffer)
    → IsPool pool
    → slot < pool.buffer_count
    → next < pool.buffer_count
    → (1 ≤ buffer.generation) × (buffer.generation < 2 ^ 32)
    → IsPool (record pool { buffers = set pool.buffers slot buffer; next_buffer = next })
set-IsPool pool slot next buffer h k l g =
    let size = h.size in
    let bound = h.bound in
    record {
      size = length-set pool.buffers slot buffer ∙ h.size;
      some_buffers = h.some_buffers;
      bound = h.bound;
      next = l;
      lived = λ j a. elim (ℕ_discrete j slot) [
        | yes q ↦ rw (q, get_or-set_self pool.buffers slot buffer no_buffer (omega arith)) g
        | no q ↦ rw (get_or-set_ne pool.buffers buffer no_buffer (λ z. q (sym z))) (h.lived j a)
      ];
    }

used_state :
    (revoked : Bool) (state : ℕ)
    → (revoked || (state == net_buffer_free || ltb net_buffer_driver_tx state)) ≡ false
    → state ≢ net_buffer_free
used_state true state t = cc
used_state false state t = ground arith

refused_cases :
    (revoked : Bool) (state : ℕ) (P : Type 0)
    → (revoked || (state == net_buffer_free || ltb net_buffer_driver_tx state)) ≡ true
    → (revoked ≡ true) ⊎ (state ≡ net_buffer_free) ⊎ (net_buffer_driver_tx < state) ⊎ P
refused_cases true state P t = inl refl
refused_cases false state P t = elim (ℕ_discrete state net_buffer_free) [
  | yes q ↦ inr (inl q)
  | no q ↦ inr (inr (inl (ground arith)))
]

-- What an acquisition from a well-formed pool does: it fails, and changes nothing, only where the pool is
-- revoked, the state is none to take, or each buffer is used. Otherwise the id finds a buffer that was
-- free, and the others stay. The pool stays well formed.
pub packet_pool_acquire_res-Acquired :
    (pool : PacketPool) (state : ℕ)
    → IsPool pool
    → let (pool', id) = packet_pool_acquire_res pool state in
      IsPool pool'
      × (((pool' ≡ pool)
            × (id ≡ 0)
            × ((pool.revoked ≡ true)
                ⊎ (state ≡ net_buffer_free)
                ⊎ (net_buffer_driver_tx < state)
                ⊎ ((slot : ℕ)
                    → slot < pool.buffer_count
                    → (buffer_at pool slot).state ≢ net_buffer_free)))
          ⊎ ((slot : ℕ) × (slot < pool.buffer_count)
              × ((buffer_at pool slot).state ≡ net_buffer_free)
              × (buffer_for pool' id ≡ some slot)
              × ((buffer_at pool' slot).state ≡ state)
              × ((j : ℕ) → j ≢ slot → buffer_at pool' j ≡ buffer_at pool j)))
unfolding packet_pool_acquire_res
packet_pool_acquire_res-Acquired pool state h =
    let refused = pool.revoked || (state == net_buffer_free || ltb net_buffer_driver_tx state) in
    elim (Bool-cases refused) [
      | inl t ↦
          rw (t, packet_pool_acquire_res)
            (h, inl (refl, refl, refused_cases pool.revoked state _ t))
      | inr t ↦ elim (Option-cases (acquire_from pool.buffer_count pool 0)) [
        | inl e ↦
            rw (t, e, packet_pool_acquire_res)
              (h, inl (refl, refl, inr (inr (inr (acquire_from-full pool h e)))))
        | inr (slot, e) ↦
            let (k, free) = acquire_from-some pool.buffer_count pool 0 slot h.some_buffers e in
            let old = buffer_at pool slot in
            let buffer : PacketBuffer = record old { state = state } in
            let size = h.size in
            let bound = h.bound in
            let next = (slot + 1) % pool.buffer_count in
            let after : PacketPool = record pool {
              buffers = set pool.buffers slot buffer;
              next_buffer = next;
            } in
            let low = mod-lt (slot + 1) {m = pool.buffer_count} (omega arith) in
            let sound = set-IsPool pool slot next buffer h k low (h.lived slot k) in
            let got = get_or-set_self pool.buffers slot buffer no_buffer (omega arith) in
            let state_of = ap (λ (x : PacketBuffer). x.state) got in
            let taken_state : state ≢ net_buffer_free = used_state pool.revoked state t in
            let used : (buffer_at after slot).state ≢ net_buffer_free =
              λ q. taken_state (sym state_of ∙ q) in
            let found : buffer_for after (packet_id old.generation slot) ≡ some slot =
              subst
                (λ (x : PacketBuffer). buffer_for after (packet_id x.generation slot) ≡ some slot)
                got (buffer_for-packet_id after slot sound k used) in
            rw (t, e, packet_pool_acquire_res)
              (
                sound,
                inr (
                  slot,
                  k,
                  free,
                  found,
                  state_of,
                  λ j q. get_or-set_ne pool.buffers buffer no_buffer (λ z. q (sym z)),
                ),
              )
      ]
    ]

-- An id of another generation than that of its slot finds nothing.
buffer_for-stale :
    (pool : PacketPool) (id : ℕ)
    → (buffer_at pool (id % 2 ^ 32 - 1)).generation ≢ id / 2 ^ 32 % 2 ^ 32
    → buffer_for pool id ≡ none
unfolding buffer_for
buffer_for-stale pool id h = ground arith

buffer_for_parts :
    (pool : PacketPool) (id slot : ℕ)
    → buffer_for pool id ≡ some slot
    → (slot ≡ id % 2 ^ 32 - 1)
      × (slot < pool.buffer_count)
      × ((buffer_at pool slot).generation ≡ id / 2 ^ 32 % 2 ^ 32)
      × (1 ≤ id % 2 ^ 32)
unfolding buffer_for
buffer_for_parts pool id slot e =
    let low = id % 2 ^ 32 in
    let generation = id / 2 ^ 32 % 2 ^ 32 in
    let buffer = buffer_at pool (low - 1) in
    elim (Bool-cases (low == 0 || (ltb pool.buffer_count low || generation == 0))) [
      | inl t ↦ let no : buffer_for pool id ≡ none = rw (t, buffer_for) refl in cc
      | inr t ↦
          elim (Bool-cases
            (not (buffer.generation == generation) || buffer.state == net_buffer_free)) [
              | inl u ↦ let no : buffer_for pool id ≡ none = rw (t, u, buffer_for) refl in cc
              | inr u ↦
                  let got : buffer_for pool id ≡ some (low - 1) = rw (t, u, buffer_for) refl in
                  let same : low - 1 ≡ slot = cc in
                  let fits : low - 1 < pool.buffer_count = ground arith in
                  let lived : buffer.generation ≡ generation = ground arith in
                  (
                    sym same,
                    subst (λ j. j < pool.buffer_count) same fits,
                    subst (λ j. (buffer_at pool j).generation ≡ generation) same lived,
                    ground arith,
                  )
            ]
    ]

next_generation_lived :
    (g : ℕ)
    → 1 ≤ g
    → g < 2 ^ 32
    → (1 ≤ next_generation g) × (next_generation g < 2 ^ 32) × (next_generation g ≢ g)
next_generation_lived g h k = (ground arith, ground arith, ground arith)

released_facts :
    (pool : PacketPool) (id slot : ℕ)
    → IsPool pool
    → buffer_for pool id ≡ some slot
    → let next = if ltb slot pool.next_buffer then slot else pool.next_buffer in
      let after : PacketPool = record pool {
        buffers = set pool.buffers slot (freed (buffer_at pool slot));
        next_buffer = next;
      } in
      IsPool after
      × (buffer_for after id ≡ none)
      × ((j : ℕ) → j ≢ id % 2 ^ 32 - 1 → buffer_at after j ≡ buffer_at pool j)
released_facts pool id slot h q =
    let (at, k, lived, pos) = buffer_for_parts pool id slot q in
    let buffer = freed (buffer_at pool slot) in
    let next = if ltb slot pool.next_buffer then slot else pool.next_buffer in
    let after : PacketPool = record pool {
      buffers = set pool.buffers slot buffer;
      next_buffer = next;
    } in
    let size = h.size in
    let bound = h.bound in
    let room = h.next in
    let (a, b, c) =
      next_generation_lived (buffer_at pool slot).generation (h.lived slot k).0
        (h.lived slot k).1 in
    let got = get_or-set_self pool.buffers slot buffer no_buffer (omega arith) in
    let moved : (buffer_at after slot).generation ≢ id / 2 ^ 32 % 2 ^ 32 =
      λ z. c (sym (ap (λ (x : PacketBuffer). x.generation) got) ∙ z ∙ sym lived) in
    (
      set-IsPool pool slot next buffer h k (ground arith) (a, b),
      buffer_for-stale after id
          (subst (λ j. (buffer_at after j).generation ≢ id / 2 ^ 32 % 2 ^ 32) at moved),
      λ j n. get_or-set_ne pool.buffers buffer no_buffer (λ z. n (sym z ∙ at)),
    )

-- A release from a well-formed pool makes the id find nothing, leaves the other buffers as they were, and
-- keeps the pool well formed.
pub packet_pool_release_res-Released :
    {pool' : PacketPool} (pool : PacketPool) (id expected_state : ℕ)
    → IsPool pool
    → packet_pool_release_res pool id expected_state ≡ some pool'
    → IsPool pool'
      × (buffer_for pool' id ≡ none)
      × ((j : ℕ) → j ≢ id % 2 ^ 32 - 1 → buffer_at pool' j ≡ buffer_at pool j)
unfolding packet_pool_release_res
packet_pool_release_res-Released pool id expected_state h e =
    elim (Option-cases (buffer_for pool id)) [
      | inl q ↦
          let no : packet_pool_release_res pool id expected_state ≡ none =
            rw (q, packet_pool_release_res) refl in
          cc
      | inr (slot, q) ↦ elim (Bool-cases ((buffer_at pool slot).state == expected_state)) [
        | inr t ↦
            let no : packet_pool_release_res pool id expected_state ≡ none =
              rw (q, t, packet_pool_release_res) refl in
            cc
        | inl t ↦
            let next = if ltb slot pool.next_buffer then slot else pool.next_buffer in
            let after : PacketPool = record pool {
              buffers = set pool.buffers slot (freed (buffer_at pool slot));
              next_buffer = next;
            } in
            let got : packet_pool_release_res pool id expected_state ≡ some after =
              rw (q, t, packet_pool_release_res) refl in
            subst
              (λ p.
                IsPool p
                × (buffer_for p id ≡ none)
                × ((j : ℕ) → j ≢ id % 2 ^ 32 - 1 → buffer_at p j ≡ buffer_at pool j))
              (some_inj (sym got ∙ e)) (released_facts pool id slot h q)
      ]
    ]
