-- ===== src/Net/PacketPool/Tests.antt =====
-- Runs of src/net/net_buffer.c on a pool of two buffers.
use mich_core.Base.{
  ℕ, ◌+◌, ◌^◌, ◌%◌, ◌-◌, ◌<◌, ◌≡◌, ◌≢◌, ◌⊎◌, refl, arith, true, false, none, some, [], ◌∷◌,
  replicate, ℕ_discrete,
}
use mich_core.Net.PacketPool.{
  PacketPool, net_buffer_free, net_buffer_driver_tx, buffer_at, buffer_for, acquire_from, packet_id,
  packet_pool_acquire_res, packet_pool_release_res, packet_pool_transition_res,
  packet_pool_data_res,
}
use mich_core.Net.PacketPool.Slots.{
  IsPool, packet_pool_acquire_res-Acquired, packet_pool_release_res-Released,
}

abbrev generation : ℕ
generation = 65536

-- The pool after `packet_pool_create`, with pages at 4096 and 8192.
abbrev new_pool : PacketPool
new_pool = record {
  buffers =
      record { generation = generation; state = net_buffer_free }
      ∷ record { generation = generation; state = net_buffer_free }
      ∷ replicate 62 (record { generation = 1; state = net_buffer_free });
  buffer_count = 2;
  next_buffer = 0;
  revoked = false;
  phys = 4096 ∷ 8192 ∷ [];
}

abbrev first_id : ℕ
first_id = packet_id generation 0

abbrev in_use : PacketPool
in_use = (packet_pool_acquire_res new_pool 1).0

abbrev after_release : PacketPool
after_release = record new_pool {
  buffers =
      record { generation = generation + 1; state = net_buffer_free }
      ∷ record { generation = generation; state = net_buffer_free }
      ∷ replicate 62 (record { generation = 1; state = net_buffer_free });
}

first_acquired : (packet_pool_acquire_res new_pool 1).1 ≡ first_id
unfolding packet_pool_acquire_res acquire_from
first_acquired = refl

first_page : packet_pool_data_res in_use first_id 1 ≡ some 4096
unfolding packet_pool_acquire_res acquire_from packet_pool_data_res buffer_for
first_page = refl

-- A transition needs the state that the caller expects.
wrong_state : packet_pool_transition_res in_use first_id 2 3 ≡ none
unfolding packet_pool_acquire_res acquire_from packet_pool_transition_res buffer_for
wrong_state = refl

new_pool-IsPool : IsPool new_pool
new_pool-IsPool = record {
  size = refl;
  some_buffers = omega arith;
  bound = omega arith;
  next = omega arith;
  lived = λ slot h. elim (ℕ_discrete slot 0) [
    | yes q ↦ rw q (omega arith, omega arith)
    | no q ↦ let one : slot ≡ 1 = omega arith in rw one (omega arith, omega arith)
  ];
}

packet_pool_acquire_res-Acquired_example :
    let (pool', id) = packet_pool_acquire_res new_pool 1 in
    IsPool pool'
    × (((pool' ≡ new_pool)
          × (id ≡ 0)
          × ((false ≡ true)
              ⊎ (1 ≡ net_buffer_free)
              ⊎ (net_buffer_driver_tx < 1)
              ⊎ ((slot : ℕ) → slot < 2 → (buffer_at new_pool slot).state ≢ net_buffer_free)))
        ⊎ ((slot : ℕ) × (slot < 2)
            × ((buffer_at new_pool slot).state ≡ net_buffer_free)
            × (buffer_for pool' id ≡ some slot)
            × ((buffer_at pool' slot).state ≡ 1)
            × ((j : ℕ) → j ≢ slot → buffer_at pool' j ≡ buffer_at new_pool j)))
packet_pool_acquire_res-Acquired_example =
    packet_pool_acquire_res-Acquired new_pool 1 new_pool-IsPool

packet_pool_release_res-Released_example :
    IsPool after_release
    × (buffer_for after_release first_id ≡ none)
    × ((j : ℕ) → j ≢ first_id % 2 ^ 32 - 1 → buffer_at after_release j ≡ buffer_at in_use j)
unfolding packet_pool_acquire_res acquire_from packet_pool_release_res buffer_for
packet_pool_release_res-Released_example =
    packet_pool_release_res-Released in_use first_id 1
      (packet_pool_acquire_res-Acquired new_pool 1 new_pool-IsPool).0 refl
