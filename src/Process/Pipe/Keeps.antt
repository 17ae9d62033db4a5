-- ===== src/Process/Pipe/Keeps.antt =====
-- Every operation of src/process/posix_pipe.c keeps every pipe of the pool a well-formed ring.
use mich_core.Base.{
  ℕ, zero, suc, ◌+◌, ◌<◌, ◌≤◌, ◌≡◌, ◌∙◌, Bool, true, false, not, some, List, arith, ltb, ◌==◌,
  if◌then◌else◌, get_or, set, length, length-set, get_or-set_self, get_or-set_ne, ℕ_discrete,
  Bool-cases, Option-cases, inl, inr,
}
use mich_core.Process.Pipe.Ring.{
  PosixPipeState, IsValid, ring_put, ring_take, ring_put_lem, ring_take_lem, ring_free,
  ring_free-valid, posix_pipe_buf,
}
use mich_core.Process.Pipe.{
  World, UserSpace, no_pipe, pipe_at, wait_at, is_parked, finish, wake_reader, wake_readers_from,
  wake_writer, wake_writers_from, posix_pipe_max, posix_pipe_end_read, posix_pipe_end_write,
  posix_io_data_offset,
}

-- The pool has its 32 pipes, and each is a well-formed ring.
pub record IsPool (pipes : List PosixPipeState) : Type 0 where
  pub size : length pipes ≡ posix_pipe_max
  pub each : (i : ℕ) → i < posix_pipe_max → IsValid (get_or pipes i no_pipe)

pub set-IsPool :
    {pipes : List PosixPipeState} (i : ℕ) (p : PosixPipeState)
    → IsPool pipes
    → (i < posix_pipe_max → IsValid p)
    → IsPool (set pipes i p)
set-IsPool {pipes} i p v h = record {
  size = length-set pipes i p ∙ v.size;
  each = λ j k. elim (ℕ_discrete i j) [
    | yes q ↦ rw (← q, get_or-set_self pipes i p no_pipe (omega (arith, v.size))) (h (omega arith))
    | no q ↦ rw (get_or-set_ne pipes p no_pipe q) (v.each j k)
  ];
}

-- The ends and the flag of a pipe are no part of its ring.
pub same_ring :
    {p : PosixPipeState} (readers writers : ℕ) (active : Bool)
    → IsValid p
    → IsValid (record p { readers = readers; writers = writers; active = active })
same_ring readers writers active v = record {
  size = v.size;
  tail_in = v.tail_in;
  count_in = v.count_in;
}

pub emptied :
    {p : PosixPipeState}
    → IsValid p
    → IsValid (record p { tail = 0; count = 0; readers = 0; writers = 0; active = true })
emptied v = record { size = v.size; tail_in = omega arith; count_in = omega arith }

-- A pipe of the pool gets a write of the bytes that fit.
pub put-IsPool :
    {pipes : List PosixPipeState} (i : ℕ) (source : List ℕ)
    → IsPool pipes
    → i < posix_pipe_max
    → length source ≤ ring_free (get_or pipes i no_pipe)
    → IsPool (set pipes i (ring_put (get_or pipes i no_pipe) source))
put-IsPool {pipes} i source v h k =
    let p = v.each i h in
    let fits : (get_or pipes i no_pipe).count + length source ≤ posix_pipe_buf =
      omega (arith, ring_free-valid p, p.count_in) in
    set-IsPool i (ring_put (get_or pipes i no_pipe) source) v (λ z. (ring_put_lem source p fits).0)

pub take-IsPool :
    {pipes : List PosixPipeState} (i n : ℕ)
    → IsPool pipes
    → n ≤ (get_or pipes i no_pipe).count
    → IsPool (set pipes i (ring_take (get_or pipes i no_pipe) n).0)
take-IsPool {pipes} i n v h =
    set-IsPool i (ring_take (get_or pipes i no_pipe) n).0 v
      (λ k. (ring_take_lem n (v.each i k) h).0)

-- `copy_from` answers the number of bytes that it is asked for: the contract of `vm64_copy_from`.
module _ {M : Type 0} (u : UserSpace M)
    (copies : (m : M) (task addr n : ℕ) (bs : List ℕ)
      → u.copy_from m task addr n ≡ some bs
      → length bs ≡ n) where
  wake_reader-IsPool :
      (w : World M) (index slot : ℕ) → IsPool w.pipes → IsPool (wake_reader u w index slot).pipes
  unfolding wake_reader finish
  wake_reader-IsPool w index slot v =
      let n =
        if ltb (pipe_at w index).count (wait_at w slot).length
        then (pipe_at w index).count
        else (wait_at w slot).length in
      take-IsPool index n v (ground arith)

  pub wake_readers_from-IsPool :
      (left : ℕ) (w : World M) (index slot : ℕ)
      → IsPool w.pipes
      → IsPool (wake_readers_from u left w index slot).pipes
  unfolding wake_readers_from
  wake_readers_from-IsPool zero w index slot v = v
  wake_readers_from-IsPool (suc left) w index slot v =
      elim (Bool-cases (not (is_parked w index posix_pipe_end_read slot))) [
        | inl t ↦ rw t (wake_readers_from-IsPool left w index (suc slot) v)
        | inr f ↦ elim (Bool-cases ((pipe_at w index).count == 0)) [
          | inl t ↦ rw (f, t) v
          | inr g ↦
              rw (f, g)
                (wake_readers_from-IsPool left (wake_reader u w index slot) index (suc slot)
                  (wake_reader-IsPool w index slot v))
        ]
      ]

  wake_writer-IsPool :
      (w : World M) (index slot : ℕ)
      → IsPool w.pipes
      → index < posix_pipe_max
      → ltb (ring_free (pipe_at w index)) (wait_at w slot).length ≡ false
      → IsPool (wake_writer u w index slot).pipes
  unfolding wake_writer finish
  wake_writer-IsPool w index slot v h e =
      let wait = wait_at w slot in
      elim (Option-cases
        (u.copy_from w.memory slot (wait.request + posix_io_data_offset) wait.length)) [
          | inl q ↦ rw (q, wake_writer) v
          | inr (bs, q) ↦
              let n = copies w.memory slot (wait.request + posix_io_data_offset) wait.length bs q in
              let fits : length bs ≤ ring_free (pipe_at w index) = ground arith in
              rw (q, wake_writer) (put-IsPool index bs v h fits)
        ]

  pub wake_writers_from-IsPool :
      (left : ℕ) (w : World M) (index slot : ℕ)
      → IsPool w.pipes
      → index < posix_pipe_max
      → IsPool (wake_writers_from u left w index slot).pipes
  unfolding wake_writers_from
  wake_writers_from-IsPool zero w index slot v h = v
  wake_writers_from-IsPool (suc left) w index slot v h =
      elim (Bool-cases (not (is_parked w index posix_pipe_end_write slot))) [
        | inl t ↦ rw t (wake_writers_from-IsPool left w index (suc slot) v h)
        | inr f ↦ elim (Bool-cases (ltb (ring_free (pipe_at w index)) (wait_at w slot).length)) [
          | inl t ↦ rw (f, t) v
          | inr g ↦
              rw (f, g)
                (wake_writers_from-IsPool left (wake_writer u w index slot) index (suc slot)
                  (wake_writer-IsPool w index slot v h g) h)
        ]
      ]
