-- ===== src/Process/Pipe/Io.antt =====
-- `posix_pipe_io` of src/process/posix_pipe.c keeps the pool of pipes well-formed.
use mich_core.Base.{
  ℕ, ◌+◌, ◌<◌, ◌≤◌, ◌≡◌, refl, Bool, not, ◌||◌, Option, none, some, List, arith, ltb, leb, ◌==◌,
  if◌then◌else◌, length, Bool-cases, Option-cases, inl, inr,
}
use mich_core.Process.Pipe.Ring.{ring_put, ring_take, ring_free}
use mich_core.Process.Pipe.{
  World, UserSpace, pipe_at, set_pipe, park, posix_pipe_io, pipe_read, pipe_write, park_or_fail,
  wake_readers, wake_writers, deliver, posix_io_patch_result, posix_pipe_max, posix_pipe_end_read,
  posix_pipe_end_write, posix_io_max, posix_io_data_offset,
}
use mich_core.Process.Pipe.Keeps.{
  IsPool, put-IsPool, take-IsPool, wake_readers_from-IsPool, wake_writers_from-IsPool,
}

-- `copy_from` answers the number of bytes that it is asked for: the contract of `vm64_copy_from`.
module _ {M : Type 0} (u : UserSpace M)
    (copies : (m : M) (task addr n : ℕ) (bs : List ℕ)
      → u.copy_from m task addr n ≡ some bs
      → length bs ≡ n) where
  park_or_fail-pipes :
      (w : World M) (slot index end request size : ℕ)
      → (park_or_fail u w slot index end request size).0.pipes ≡ w.pipes
  unfolding park_or_fail park
  park_or_fail-pipes w slot index end request size =
      elim (Bool-cases (not (u.pick_next (park w slot index end request size).tasks slot))) [
        | inl t ↦ rw (t, park_or_fail) refl
        | inr f ↦ rw (f, park_or_fail) refl
      ]

  pipe_read-IsPool :
      (w : World M) (slot index request size : ℕ)
      → IsPool w.pipes
      → index < posix_pipe_max
      → IsPool (pipe_read u w slot index request size).0.pipes
  unfolding pipe_read wake_writers
  pipe_read-IsPool w slot index request size v h =
      let p = pipe_at w index in
      let n = if ltb p.count size then p.count else size in
      let (p', taken) = ring_take p n in
      let (m, failed) = deliver u w.memory slot request taken n in
      let w' = record (set_pipe w index p') { memory = m } in
      let took : IsPool w'.pipes = take-IsPool index n v (ground arith) in
      elim (Bool-cases (not (p.count == 0))) [
        | inl t ↦ elim (Bool-cases failed) [
          | inl s ↦ rw (t, s) took
          | inr f ↦
              rw (t, f) (wake_writers_from-IsPool u copies (length w'.tasks) w' index 0 took h)
        ]
        | inr f ↦ elim (Bool-cases (p.writers == 0)) [
          | inl t ↦ rw (f, t) v
          | inr g ↦ rw (f, g, park_or_fail-pipes w slot index posix_pipe_end_read request size) v
        ]
      ]

  pipe_write-IsPool :
      (w : World M) (slot index request size : ℕ)
      → IsPool w.pipes
      → index < posix_pipe_max
      → IsPool (pipe_write u w slot index request size).0.pipes
  unfolding pipe_write wake_readers
  pipe_write-IsPool w slot index request size v h =
      let p = pipe_at w index in
      elim (Bool-cases (p.readers == 0)) [
        | inl t ↦ rw t v
        | inr f ↦ elim (Bool-cases (ltb (ring_free p) size)) [
          | inl t ↦ rw (f, t, park_or_fail-pipes w slot index posix_pipe_end_write request size) v
          | inr g ↦
              elim (Option-cases
                (u.copy_from w.memory slot (request + posix_io_data_offset) size)) [
                  | inl e ↦ rw (f, g, e) v
                  | inr (source, e) ↦
                      let n = copies w.memory slot (request + posix_io_data_offset) size source e in
                      let m = (posix_io_patch_result u w.memory slot request size).0 in
                      let w' = record (set_pipe w index (ring_put p source)) { memory = m } in
                      let fits : length source ≤ ring_free p = ground arith in
                      rw (f, g, e)
                        (wake_readers_from-IsPool u copies (length w'.tasks) w' index 0
                          (put-IsPool index source v h fits))
                ]
        ]
      ]

  -- The check of the arguments with which `posix_pipe_io` starts.
  abbrev refuses : World M → ℕ → ℕ → Bool
  refuses w index size =
      leb posix_pipe_max index
      || (not (pipe_at w index).active || (size == 0 || ltb posix_io_max size))

  -- The pool stays well-formed through a read or a write of a pipe, the wakes that it makes
  -- included, where a copy from user space answers as many bytes as were asked for.
  pub posix_pipe_io-IsPool :
      (w : World M) (current : Option ℕ) (task index end request size : ℕ)
      → IsPool w.pipes
      → IsPool (posix_pipe_io u w current task index end request size).0.pipes
  unfolding posix_pipe_io
  posix_pipe_io-IsPool w none task index end request size v =
      elim (Bool-cases (refuses w index size)) [ inl t ↦ rw t v | inr f ↦ rw f v ]
  posix_pipe_io-IsPool w (some slot) task index end request size v =
      elim (Bool-cases (refuses w index size)) [
        | inl t ↦ rw t v
        | inr f ↦
            let inside : index < posix_pipe_max = ground arith in
            elim (Bool-cases (not (slot == task))) [
              | inl t ↦ rw (f, t) v
              | inr g ↦ elim (Bool-cases (end == posix_pipe_end_read)) [
                | inl t ↦ rw (f, g, t) (pipe_read-IsPool w slot index request size v inside)
                | inr k ↦ elim (Bool-cases (not (end == posix_pipe_end_write))) [
                  | inl t ↦ rw (f, g, k, t) v
                  | inr l ↦ rw (f, g, k, l) (pipe_write-IsPool w slot index request size v inside)
                ]
              ]
            ]
      ]
