-- ===== src/Net/PacketPool.antt =====
-- src/net/net_buffer.c: the buffers of one packet pool. A caller holds a buffer by its id, which has the
-- generation of the buffer in the high word and the slot plus one in the low word. The pool is looked up
-- by `state_for` in the source, and is the state here.
pub mod Slots
mod Tests
use mich_core.Base.{
  ℕ, zero, suc, ◌+◌, ◌-◌, ◌*◌, ◌/◌, ◌%◌, ◌^◌, Bool, true, false, not, ◌&&◌, ◌||◌, Option, none,
  some, List, ltb, leb, ◌==◌, if◌then◌else◌, add32, get_or, set, length, count_if,
}

pub record PacketBuffer : Type 0 where
  pub generation : ℕ
  pub state : ℕ

-- The backing of the pool is known by the addresses of its pages.
pub record PacketPool : Type 0 where
  pub buffers : List PacketBuffer
  pub buffer_count : ℕ
  pub next_buffer : ℕ
  pub revoked : Bool
  pub phys : List ℕ

abbrev pub packet_pool_buffer_max : ℕ
packet_pool_buffer_max = 64

abbrev pub net_buffer_free : ℕ
net_buffer_free = 0

abbrev pub net_buffer_driver_tx : ℕ
net_buffer_driver_tx = 6

abbrev pub no_buffer : PacketBuffer
no_buffer = record { generation = 0; state = net_buffer_free }

abbrev pub buffer_at : PacketPool → ℕ → PacketBuffer
buffer_at pool slot = get_or pool.buffers slot no_buffer

abbrev pub set_buffer : PacketPool → ℕ → PacketBuffer → PacketPool
set_buffer pool slot buffer = record pool { buffers = set pool.buffers slot buffer }

abbrev pub packet_id : ℕ → ℕ → ℕ
packet_id generation slot = generation * 2 ^ 32 + (slot + 1)

-- The slot of the buffer.
pub buffer_for : PacketPool → ℕ → Option ℕ
buffer_for pool id =
    let low = id % 2 ^ 32 in
    let generation = id / 2 ^ 32 % 2 ^ 32 in
    let buffer = buffer_at pool (low - 1) in
    if low == 0 || (ltb pool.buffer_count low || generation == 0)
    then none
    else if not (buffer.generation == generation) || buffer.state == net_buffer_free
    then none
    else some (low - 1)

-- The loop of `packet_pool_acquire_res`: the first free slot from `offset` on.
pub acquire_from : ℕ → PacketPool → ℕ → Option ℕ
acquire_from zero pool offset = none
acquire_from (suc left) pool offset =
    let slot = add32 pool.next_buffer offset % pool.buffer_count in
    let rest = acquire_from left pool (suc offset) in
    if not ((buffer_at pool slot).state == net_buffer_free) then rest else some slot

-- The state of the buffer of a pool that is not full, and its id.
abbrev pub taken : PacketPool → ℕ → ℕ → PacketPool × ℕ
taken pool slot state = (
  record pool {
    buffers = set pool.buffers slot (record (buffer_at pool slot) { state = state });
    next_buffer = (slot + 1) % pool.buffer_count;
  },
  packet_id (buffer_at pool slot).generation slot,
)

-- An id of 0 is a failure.
pub packet_pool_acquire_res : PacketPool → ℕ → PacketPool × ℕ
packet_pool_acquire_res pool state =
    if pool.revoked || (state == net_buffer_free || ltb net_buffer_driver_tx state)
    then (pool, 0)
    else elim (acquire_from pool.buffer_count pool 0) [
      | none ↦ (pool, 0)
      | some slot ↦ taken pool slot state
    ]

-- `none` is the result -1.
pub packet_pool_transition_res : PacketPool → ℕ → ℕ → ℕ → Option PacketPool
packet_pool_transition_res pool id expected_state new_state = elim (buffer_for pool id) [
  | none ↦ none
  | some slot ↦
      if pool.revoked
        || (not ((buffer_at pool slot).state == expected_state)
            || (new_state == net_buffer_free || ltb net_buffer_driver_tx new_state))
      then none
      else some (set_buffer pool slot (record (buffer_at pool slot) { state = new_state }))
]

abbrev pub next_generation : ℕ → ℕ
next_generation generation = if add32 generation 1 == 0 then 1 else add32 generation 1

-- A buffer that is free again, under a new id.
abbrev pub freed : PacketBuffer → PacketBuffer
freed buffer = record { generation = next_generation buffer.generation; state = net_buffer_free }

pub packet_pool_release_res : PacketPool → ℕ → ℕ → Option PacketPool
packet_pool_release_res pool id expected_state = elim (buffer_for pool id) [
  | none ↦ none
  | some slot ↦
      if not ((buffer_at pool slot).state == expected_state)
      then none
      else some (record pool {
        buffers = set pool.buffers slot (freed (buffer_at pool slot));
        next_buffer = if ltb slot pool.next_buffer then slot else pool.next_buffer;
      })
]

-- The address of the page of the buffer, on a machine of 64 bits.
pub packet_pool_data_res : PacketPool → ℕ → ℕ → Option ℕ
packet_pool_data_res pool id required_state = elim (buffer_for pool id) [
  | none ↦ none
  | some slot ↦
      let physical = get_or pool.phys slot 0 in
      if pool.revoked || not ((buffer_at pool slot).state == required_state)
      then none
      else if physical == 0 || leb (2 ^ 30) physical
      then none
      else some physical
]
