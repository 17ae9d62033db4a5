-- ===== src/Process/Pipe.antt =====
-- src/process/posix_pipe.c and posix_pipe.h: the pool of pipes, the tasks parked on them and the
-- wakes. The static arrays, the task states, the results handed to woken tasks and the memory of
-- user space are one record, `World`. A task is its index in the task pool, `task_pool_count` the
-- number of task states. `posix_pipe_klock` makes each operation atomic and has no counterpart.
-- The copies to and from user space, and the scheduler's answer whether another task can run, are
-- parameters: they belong to src/arch/x86_64.
pub mod Ring
pub mod Keeps
pub mod Ends
pub mod Io
pub mod Last
mod Tests
use mich_core.Base.{
  ℕ, zero, suc, ◌+◌, ◌-◌, ◌*◌, ◌/◌, ◌%◌, ◌^◌, Bool, true, false, not, ◌&&◌, ◌||◌, Option, none,
  some, List, [], ◌∷◌, ltb, leb, ◌==◌, if◌then◌else◌, add32, get_or, set, length, find_index,
  count_if,
}
use mich_core.Process.Task.{TaskState, running, free, blocked_pipe, is_blocked_pipe}
use Ring.{PosixPipeState, ring_free, ring_put, ring_take}

pub record PipeWait : Type 0 where
  pub pipe : ℕ
  pub end : ℕ
  pub request : ℕ
  pub length : ℕ

-- What a call or a woken task answers: a byte count (0 for the end of the file), or an errno.
pub data Answer : Type 0 where
  bytes : ℕ → Answer
  eio einval epipe edeadlk enfile : Answer

abbrev pub posix_pipe_max : ℕ
posix_pipe_max = 32

abbrev pub posix_pipe_end_read : ℕ
posix_pipe_end_read = 1

abbrev pub posix_pipe_end_write : ℕ
posix_pipe_end_write = 2

abbrev pub posix_io_max : ℕ
posix_io_max = 512

abbrev pub posix_io_transferred_offset : ℕ
posix_io_transferred_offset = 8

abbrev pub posix_io_data_offset : ℕ
posix_io_data_offset = 12

pub record World (M : Type 0) : Type 0 where
  pub pipes : List PosixPipeState
  pub waits : List PipeWait
  pub tasks : List TaskState
  pub results : List (ℕ × Answer)
  pub memory : M

abbrev pub no_pipe : PosixPipeState
no_pipe = record { ring = []; tail = 0; count = 0; readers = 0; writers = 0; active = false }

abbrev pub no_wait : PipeWait
no_wait = record { pipe = 0; end = 0; request = 0; length = 0 }

abbrev pub is_idle : PosixPipeState → Bool
is_idle p = not p.active

abbrev pub is_live : PosixPipeState → Bool
is_live p = p.active

-- The four bytes of a u32, low byte first.
abbrev pub word_bytes : ℕ → List ℕ
word_bytes n = n % 256 ∷ n / 256 % 256 ∷ n / 65536 % 256 ∷ n / 16777216 % 256 ∷ []

-- A copy to user space returns the memory and whether it failed; one from user space returns the
-- bytes, or nothing where it failed. `pick_next` tells whether another task can run.
pub record UserSpace (M : Type 0) : Type 0 where
  pub copy_to : M → ℕ → ℕ → List ℕ → M × Bool
  pub copy_from : M → ℕ → ℕ → ℕ → Option (List ℕ)
  pub pick_next : List TaskState → ℕ → Bool

module _ {M : Type 0} where
  abbrev pub pipe_at : World M → ℕ → PosixPipeState
  pipe_at w i = get_or w.pipes i no_pipe

  abbrev pub set_pipe : World M → ℕ → PosixPipeState → World M
  set_pipe w i p = record w { pipes = set w.pipes i p }

  abbrev pub wait_at : World M → ℕ → PipeWait
  wait_at w slot = get_or w.waits slot no_wait

  -- The task of a slot is parked on one end of pipe `index`.
  abbrev pub is_parked : World M → ℕ → ℕ → ℕ → Bool
  is_parked w index end slot =
      is_blocked_pipe (get_or w.tasks slot free)
      && ((wait_at w slot).pipe == index + 1 && (wait_at w slot).end == end)

  -- The wait of a slot ends: its task runs, with its answer.
  pub finish : World M → ℕ → Answer → World M
  finish w slot answer = record w {
    waits = set w.waits slot (record (wait_at w slot) { pipe = 0; request = 0; length = 0 });
    tasks = set w.tasks slot running;
    results = (slot, answer) ∷ w.results;
  }

  pub park : World M → ℕ → ℕ → ℕ → ℕ → ℕ → World M
  park w slot index end request size = record w {
    waits =
        set w.waits slot (record { pipe = index + 1; end = end; request = request; length = size });
    tasks = set w.tasks slot blocked_pipe;
  }

  pub posix_pipe_create : World M → World M × Option ℕ
  posix_pipe_create w = elim (find_index is_idle w.pipes) [
    | none ↦ (w, none)
    | some i ↦ (
      set_pipe w i
          (record (pipe_at w i) { tail = 0; count = 0; readers = 0; writers = 0; active = true }),
      some i,
    )
  ]

  pub posix_pipe_retain : World M → ℕ → ℕ → World M
  posix_pipe_retain w index end =
      let p = pipe_at w index in
      if leb posix_pipe_max index || not p.active
      then w
      else if end == posix_pipe_end_read
      then set_pipe w index (record p { readers = add32 p.readers 1 })
      else if end == posix_pipe_end_write
      then set_pipe w index (record p { writers = add32 p.writers 1 })
      else w

module _ {M : Type 0} (u : UserSpace M) where
  open u use {copy_to, copy_from, pick_next}

  pub posix_io_patch_result : M → ℕ → ℕ → ℕ → M × Bool
  posix_io_patch_result m task request transferred =
      copy_to m task (request + posix_io_transferred_offset) (word_bytes transferred)

  -- Both writes of a completed read, where the second is made only if the first succeeds.
  pub deliver : M → ℕ → ℕ → List ℕ → ℕ → M × Bool
  unfolding posix_io_patch_result
  deliver m task request data_bytes n =
      let (m', failed) = copy_to m task (request + posix_io_data_offset) data_bytes in
      if failed then (m', true) else posix_io_patch_result m' task request n

  -- One round of `wake_readers` for a slot that is parked, with bytes in the ring.
  pub wake_reader : World M → ℕ → ℕ → World M
  unfolding deliver finish
  wake_reader w index slot =
      let p = pipe_at w index in
      let wait = wait_at w slot in
      let n = if ltb p.count wait.length then p.count else wait.length in
      let (p', taken) = ring_take p n in
      let (m, failed) = deliver w.memory slot wait.request taken n in
      finish (record (set_pipe w index p') { memory = m }) slot (if failed then eio else bytes n)

  -- `left` counts the slots that the loop has not visited.
  pub wake_readers_from : ℕ → World M → ℕ → ℕ → World M
  wake_readers_from zero w index slot = w
  wake_readers_from (suc left) w index slot =
      let on = wake_readers_from left w index (suc slot) in
      let woken = wake_readers_from left (wake_reader w index slot) index (suc slot) in
      if not (is_parked w index posix_pipe_end_read slot)
      then on
      else if (pipe_at w index).count == 0
      then w
      else woken

  pub wake_readers : World M → ℕ → World M
  wake_readers w index = wake_readers_from (length w.tasks) w index 0

  -- One round of `wake_writers` for a parked slot whose request fits.
  pub wake_writer : World M → ℕ → ℕ → World M
  unfolding posix_io_patch_result finish
  wake_writer w index slot =
      let wait = wait_at w slot in
      elim (copy_from w.memory slot (wait.request + posix_io_data_offset) wait.length) [
        | none ↦ finish w slot eio
        | some source ↦
            let m = (posix_io_patch_result w.memory slot wait.request wait.length).0 in
            finish (record (set_pipe w index (ring_put (pipe_at w index) source)) { memory = m })
              slot (bytes wait.length)
      ]

  pub wake_writers_from : ℕ → World M → ℕ → ℕ → World M
  wake_writers_from zero w index slot = w
  wake_writers_from (suc left) w index slot =
      let on = wake_writers_from left w index (suc slot) in
      let woken = wake_writers_from left (wake_writer w index slot) index (suc slot) in
      if not (is_parked w index posix_pipe_end_write slot)
      then on
      else if ltb (ring_free (pipe_at w index)) (wait_at w slot).length
      then w
      else woken

  pub wake_writers : World M → ℕ → World M
  wake_writers w index = wake_writers_from (length w.tasks) w index 0

  -- The loops that answer every task parked on one end: EPIPE for the writers of
  -- `wake_writers_broken`, and the end of the file for the readers that `pipe_release_locked` finds.
  pub answer_slot : World M → ℕ → Answer → World M
  unfolding posix_io_patch_result finish
  answer_slot w slot answer =
      finish
        (record w { memory = (posix_io_patch_result w.memory slot (wait_at w slot).request 0).0 })
        slot answer

  pub answer_all_from : ℕ → World M → ℕ → ℕ → Answer → ℕ → World M
  answer_all_from zero w index end answer slot = w
  answer_all_from (suc left) w index end answer slot =
      answer_all_from left (if is_parked w index end slot then answer_slot w slot answer else w)
        index end answer (suc slot)

  pub wake_writers_broken : World M → ℕ → World M
  wake_writers_broken w index =
      answer_all_from (length w.tasks) w index posix_pipe_end_write epipe 0

  pub end_readers : World M → ℕ → World M
  end_readers w index = answer_all_from (length w.tasks) w index posix_pipe_end_read (bytes 0) 0

  -- The pipe goes back to the pool with its last end.
  pub retire : World M → ℕ → World M
  retire w index =
      let p = pipe_at w index in
      if p.readers == 0 && p.writers == 0 then set_pipe w index (record p { active = false }) else w

  pub release_read : World M → ℕ → World M
  unfolding retire wake_writers_broken
  release_read w index =
      let p = pipe_at w index in
      if p.readers == 0
      then w
      else let w' = set_pipe w index (record p { readers = p.readers - 1 }) in
        if not (p.readers - 1 == 0) then w' else retire (wake_writers_broken w' index) index

  pub release_write : World M → ℕ → World M
  unfolding retire wake_readers end_readers
  release_write w index =
      let p = pipe_at w index in
      if p.writers == 0
      then w
      else let w' = set_pipe w index (record p { writers = p.writers - 1 }) in
        if not (p.writers - 1 == 0)
        then w'
        else retire (end_readers (wake_readers w' index) index) index

  pub posix_pipe_release : World M → ℕ → ℕ → World M
  posix_pipe_release w index end =
      if leb posix_pipe_max index || not (pipe_at w index).active
      then w
      else if end == posix_pipe_end_read
      then release_read w index
      else if end == posix_pipe_end_write
      then release_write w index
      else w

  -- A call parks: its task waits, unless nothing else can run.
  pub park_or_fail : World M → ℕ → ℕ → ℕ → ℕ → ℕ → World M × Answer × Bool × Bool
  unfolding park
  park_or_fail w slot index end request size =
      let w' = park w slot index end request size in
      if not (pick_next w'.tasks slot)
      then (
        record w' {
          waits = set w'.waits slot (record no_wait { end = end });
          tasks = set w'.tasks slot running;
        },
        edeadlk,
        false,
        false,
      )
      else (w', bytes 0, true, false)

  -- The results are the answer, `*parked` and `*notify`.
  pub pipe_read : World M → ℕ → ℕ → ℕ → ℕ → World M × Answer × Bool × Bool
  unfolding posix_io_patch_result deliver
  pipe_read w slot index request size =
      let p = pipe_at w index in
      if not (p.count == 0)
      then (let n = if ltb p.count size then p.count else size in
          let (p', taken) = ring_take p n in
          let (m, failed) = deliver w.memory slot request taken n in
          let w' = record (set_pipe w index p') { memory = m } in
          if failed then (w', eio, false, false) else (wake_writers w' index, bytes n, false, true))
      else if p.writers == 0
      then (
        record w { memory = (posix_io_patch_result w.memory slot request 0).0 },
        bytes 0,
        false,
        false,
      )
      else park_or_fail w slot index posix_pipe_end_read request size

  pub pipe_write : World M → ℕ → ℕ → ℕ → ℕ → World M × Answer × Bool × Bool
  unfolding posix_io_patch_result
  pipe_write w slot index request size =
      let p = pipe_at w index in
      if p.readers == 0
      then (w, epipe, false, false)
      else if ltb (ring_free p) size
      then park_or_fail w slot index posix_pipe_end_write request size
      else elim (copy_from w.memory slot (request + posix_io_data_offset) size) [
        | none ↦ (w, eio, false, false)
        | some source ↦
            let m = (posix_io_patch_result w.memory slot request size).0 in
            (
              wake_readers (record (set_pipe w index (ring_put p source)) { memory = m }) index,
              bytes size,
              false,
              true,
            )
      ]

  -- `current` is the scheduler's current slot, where it has one.
  pub posix_pipe_io : World M → Option ℕ → ℕ → ℕ → ℕ → ℕ → ℕ → World M × Answer × Bool × Bool
  posix_pipe_io w current task index end request size =
      if leb posix_pipe_max index
        || (not (pipe_at w index).active || (size == 0 || ltb posix_io_max size))
      then (w, einval, false, false)
      else elim current [
        | none ↦ (w, eio, false, false)
        | some slot ↦
            if not (slot == task)
            then (w, eio, false, false)
            else if end == posix_pipe_end_read
            then pipe_read w slot index request size
            else if not (end == posix_pipe_end_write)
            then (w, einval, false, false)
            else pipe_write w slot index request size
      ]

-- True is the answer EINTR, which the caller then publishes.
pub posix_pipe_signal : {M : Type 0} → World M → ℕ → World M × Bool
posix_pipe_signal w slot =
    if ltb slot 32 && is_blocked_pipe (get_or w.tasks slot free)
    then (
      record w {
        waits = set w.waits slot (record (wait_at w slot) { pipe = 0; request = 0; length = 0 });
      },
      true,
    )
    else (w, false)

abbrev pub posix_pollin : ℕ
posix_pollin = 1

abbrev pub posix_pollout : ℕ
posix_pollout = 4

abbrev pub posix_pollerr : ℕ
posix_pollerr = 8

abbrev pub posix_pollhup : ℕ
posix_pollhup = 16

abbrev pub posix_pollnval : ℕ
posix_pollnval = 32

-- The bits are distinct, so the `|=` of the source is a sum.
pub posix_pipe_poll : {M : Type 0} → World M → ℕ → ℕ → ℕ
posix_pipe_poll w index end =
    let p = pipe_at w index in
    if leb posix_pipe_max index || not p.active
    then posix_pollnval
    else if end == posix_pipe_end_read
    then (if p.count == 0 then 0 else posix_pollin) + (if p.writers == 0 then posix_pollhup else 0)
    else if not (end == posix_pipe_end_write)
    then posix_pollnval
    else if p.readers == 0
    then posix_pollerr
    else if ring_free p == 0
    then 0
    else posix_pollout

pub posix_pipe_active_count : {M : Type 0} → World M → ℕ
posix_pipe_active_count w = count_if is_live w.pipes
