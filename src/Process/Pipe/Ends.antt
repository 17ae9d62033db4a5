-- ===== src/Process/Pipe/Ends.antt =====
-- `posix_pipe_create`, `posix_pipe_retain` and `posix_pipe_release` of src/process/posix_pipe.c keep
-- the pool of pipes well-formed.
use mich_core.Base.{
  ℕ, zero, suc, ◌-◌, ◌≡◌, refl, ◌∙◌, true, false, not, ◌&&◌, ◌||◌, some, List, leb, ◌==◌, length,
  Bool-cases, Option-cases, inl, inr, add32, find_index,
}
use mich_core.Process.Pipe.{
  World, UserSpace, Answer, bytes, epipe, is_idle, pipe_at, set_pipe, is_parked, finish,
  posix_pipe_create, posix_pipe_retain, posix_pipe_release, wake_readers, answer_slot,
  answer_all_from, wake_writers_broken, end_readers, retire, release_read, release_write,
  posix_pipe_max, posix_pipe_end_read, posix_pipe_end_write,
}
use mich_core.Process.Pipe.Keeps.{IsPool, set-IsPool, same_ring, emptied, wake_readers_from-IsPool}

-- `copy_from` answers the number of bytes that it is asked for: the contract of `vm64_copy_from`.
module _ {M : Type 0} (u : UserSpace M)
    (copies : (m : M) (task addr n : ℕ) (bs : List ℕ)
      → u.copy_from m task addr n ≡ some bs
      → length bs ≡ n) where
  answer_slot-pipes :
      (w : World M) (slot : ℕ) (answer : Answer) → (answer_slot u w slot answer).pipes ≡ w.pipes
  unfolding answer_slot finish
  answer_slot-pipes w slot answer = refl

  answer_all_from-pipes :
      (left : ℕ) (w : World M) (index end : ℕ) (answer : Answer) (slot : ℕ)
      → (answer_all_from u left w index end answer slot).pipes ≡ w.pipes
  unfolding answer_all_from
  answer_all_from-pipes zero w index end answer slot = refl
  answer_all_from-pipes (suc left) w index end answer slot =
      elim (Bool-cases (is_parked w index end slot)) [
        | inl t ↦
            rw (t, answer_all_from)
              (answer_all_from-pipes left (answer_slot u w slot answer) index end answer (suc slot)
                ∙ answer_slot-pipes w slot answer)
        | inr f ↦ rw (f, answer_all_from) (answer_all_from-pipes left w index end answer (suc slot))
      ]

  retire-IsPool : (w : World M) (index : ℕ) → IsPool w.pipes → IsPool (retire u w index).pipes
  unfolding retire
  retire-IsPool w index v =
      let p = pipe_at w index in
      elim (Bool-cases (p.readers == 0 && p.writers == 0)) [
        | inl t ↦ rw t (
            set-IsPool index (record p { active = false }) v
              (λ k. same_ring p.readers p.writers false (v.each index k)))
        | inr f ↦ rw f v
      ]

  release_read-IsPool :
      (w : World M) (index : ℕ) → IsPool w.pipes → IsPool (release_read u w index).pipes
  unfolding release_read wake_writers_broken
  release_read-IsPool w index v =
      let p = pipe_at w index in
      let w' = set_pipe w index (record p { readers = p.readers - 1 }) in
      let fewer : IsPool w'.pipes =
        set-IsPool index (record p { readers = p.readers - 1 }) v
          (λ k. same_ring (p.readers - 1) p.writers p.active (v.each index k)) in
      let broken = wake_writers_broken u w' index in
      let kept : IsPool broken.pipes =
        rw (answer_all_from-pipes (length w'.tasks) w' index posix_pipe_end_write epipe 0) fewer in
      elim (Bool-cases (p.readers == 0)) [
        | inl t ↦ rw t v
        | inr f ↦ elim (Bool-cases (not (p.readers - 1 == 0))) [
          | inl t ↦ rw (f, t) fewer
          | inr g ↦ rw (f, g) (retire-IsPool broken index kept)
        ]
      ]

  release_write-IsPool :
      (w : World M) (index : ℕ) → IsPool w.pipes → IsPool (release_write u w index).pipes
  unfolding release_write wake_readers end_readers
  release_write-IsPool w index v =
      let p = pipe_at w index in
      let w' = set_pipe w index (record p { writers = p.writers - 1 }) in
      let fewer : IsPool w'.pipes =
        set-IsPool index (record p { writers = p.writers - 1 }) v
          (λ k. same_ring p.readers (p.writers - 1) p.active (v.each index k)) in
      let woken = wake_readers u w' index in
      let fed : IsPool woken.pipes =
        wake_readers_from-IsPool u copies (length w'.tasks) w' index 0 fewer in
      let ended = end_readers u woken index in
      let kept : IsPool ended.pipes =
        rw (answer_all_from-pipes (length woken.tasks) woken index posix_pipe_end_read (bytes 0) 0)
          fed in
      elim (Bool-cases (p.writers == 0)) [
        | inl t ↦ rw t v
        | inr f ↦ elim (Bool-cases (not (p.writers - 1 == 0))) [
          | inl t ↦ rw (f, t) fewer
          | inr g ↦ rw (f, g) (retire-IsPool ended index kept)
        ]
      ]

  -- The pool stays well-formed when a pipe is created, retained or released, where a copy from user
  -- space answers as many bytes as were asked for.
  pub posix_pipe_ends-IsPool :
      (w : World M) (index end : ℕ)
      → IsPool w.pipes
      → IsPool (posix_pipe_create w).0.pipes
        × IsPool (posix_pipe_retain w index end).pipes
        × IsPool (posix_pipe_release u w index end).pipes
  unfolding posix_pipe_create posix_pipe_retain posix_pipe_release
  posix_pipe_ends-IsPool w index end v =
      let p = pipe_at w index in
      (
        elim (Option-cases (find_index is_idle w.pipes)) [
          | inl e ↦ rw (e, posix_pipe_create) v
          | inr (i, e) ↦
              rw (e, posix_pipe_create)
                (set-IsPool i
                  (record (pipe_at w i) {
                    tail = 0;
                    count = 0;
                    readers = 0;
                    writers = 0;
                    active = true;
                  })
                  v (λ k. emptied (v.each i k)))
        ],
        elim (Bool-cases (leb posix_pipe_max index || not p.active)) [
          | inl t ↦ rw t v
          | inr f ↦ elim (Bool-cases (end == posix_pipe_end_read)) [
            | inl t ↦
                rw (f, t)
                  (set-IsPool index (record p { readers = add32 p.readers 1 }) v
                    (λ k. same_ring (add32 p.readers 1) p.writers p.active (v.each index k)))
            | inr g ↦ elim (Bool-cases (end == posix_pipe_end_write)) [
              | inl t ↦
                  rw (f, g, t)
                    (set-IsPool index (record p { writers = add32 p.writers 1 }) v
                      (λ k. same_ring p.readers (add32 p.writers 1) p.active (v.each index k)))
              | inr h ↦ rw (f, g, h) v
            ]
          ]
        ],
        elim (Bool-cases (leb posix_pipe_max index || not p.active)) [
          | inl t ↦ rw t v
          | inr f ↦ elim (Bool-cases (end == posix_pipe_end_read)) [
            | inl t ↦ rw (f, t) (release_read-IsPool w index v)
            | inr g ↦ elim (Bool-cases (end == posix_pipe_end_write)) [
              | inl t ↦ rw (f, g, t) (release_write-IsPool w index v)
              | inr h ↦ rw (f, g, h) v
            ]
          ]
        ],
      )
