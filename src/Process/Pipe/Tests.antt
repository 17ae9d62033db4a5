-- ===== src/Process/Pipe/Tests.antt =====
-- Runs of src/process/posix_pipe.c with one address space for all tasks, and the theorems at concrete
-- inputs.
use mich_core.Base.{
  ℕ, zero, suc, ◌+◌, ◌≡◌, refl, sym, ap, ◌∙◌, true, false, ◌==◌, if◌then◌else◌, some, List, [], ◌∷◌,
  ◌++◌, arith, length, replicate, length-replicate, get_or-replicate_lt,
}
use mich_core.Process.Task.{running, blocked_pipe}
use mich_core.Process.Pipe.Ring.{
  PosixPipeState, IsValid, ring_put, ring_take, ring_put_lem, ring_take_lem, contents, put_from,
  take_from, ring_free,
}
use mich_core.Process.Pipe.{
  World, UserSpace, bytes, no_pipe, no_wait, posix_pipe_io, pipe_write, wake_readers,
  wake_readers_from, wake_reader, deliver, posix_io_patch_result, finish,
}
use mich_core.Process.Pipe.Keeps.{IsPool}
use mich_core.Process.Pipe.Io.{posix_pipe_io-IsPool}

abbrev bytes_at : (ℕ → ℕ) → ℕ → ℕ → List ℕ
bytes_at m a zero = []
bytes_at m a (suc n) = m a ∷ bytes_at m (a + 1) n

abbrev write_at : (ℕ → ℕ) → ℕ → List ℕ → ℕ → ℕ
write_at m a [] = m
write_at m a (x ∷ xs) = write_at (λ b. if b == a then x else m b) (a + 1) xs

abbrev flat : UserSpace (ℕ → ℕ)
flat = record {
  copy_to = λ m task a bs. (write_at m a bs, false);
  copy_from = λ m task a n. some (bytes_at m a n);
  pick_next = λ tasks slot. true;
}

length-bytes_at : (m : ℕ → ℕ) (a n : ℕ) → length (bytes_at m a n) ≡ n
length-bytes_at m a zero = refl
length-bytes_at m a (suc n) = ap suc (length-bytes_at m (a + 1) n)

some-length :
    (m : ℕ → ℕ) (task a n : ℕ) (bs : List ℕ) → flat.copy_from m task a n ≡ some bs → length bs ≡ n
some-length m task a n bs e =
    let same : bytes_at m a n ≡ bs = cc in ap length (sym same) ∙ length-bytes_at m a n

abbrev empty_pipe : PosixPipeState
empty_pipe = record {
  ring = replicate 4096 0;
  tail = 4094;
  count = 0;
  readers = 1;
  writers = 1;
  active = true;
}

-- Task 1 is parked reading three bytes from pipe 0.
abbrev world : World (ℕ → ℕ)
world = record {
  pipes = replicate 32 empty_pipe;
  waits = no_wait ∷ record { pipe = 1; end = 1; request = 900; length = 3 } ∷ [];
  tasks = running ∷ blocked_pipe ∷ [];
  results = [];
  memory = λ a. if a == 112 then 65 else if a == 113 then 66 else 0;
}

-- A write of two bytes by task 0 answers 2 and wakes task 1 with the two bytes.
write_run :
    let (w, answer, parked, notify) = posix_pipe_io flat world (some 0) 0 0 2 100 2 in
    (answer ≡ bytes 2)
    × (w.results ≡ (1, bytes 2) ∷ [])
    × (w.memory 912 ≡ 65)
    × (w.memory 913 ≡ 66)
    × (w.tasks ≡ running ∷ running ∷ [])
unfolding posix_pipe_io pipe_write wake_readers wake_readers_from wake_reader deliver
    posix_io_patch_result finish ring_put ring_take put_from take_from ring_free
write_run = (refl, refl, refl, refl, refl)

empty_pipe-IsValid : IsValid empty_pipe
empty_pipe-IsValid = record {
  size = length-replicate 4096 zero;
  tail_in = omega arith;
  count_in = omega arith;
}

world-IsPool : IsPool world.pipes
world-IsPool = record {
  size = refl;
  each = λ i h. rw (get_or-replicate_lt 32 i empty_pipe no_pipe h) empty_pipe-IsValid;
}

ring_put_lem_example :
    IsValid (ring_put empty_pipe (1 ∷ 2 ∷ 3 ∷ []))
    × (contents (ring_put empty_pipe (1 ∷ 2 ∷ 3 ∷ [])) ≡ contents empty_pipe ++ (1 ∷ 2 ∷ 3 ∷ []))
    × ((ring_put empty_pipe (1 ∷ 2 ∷ 3 ∷ [])).count ≡ 0 + 3)
ring_put_lem_example = ring_put_lem (1 ∷ 2 ∷ 3 ∷ []) empty_pipe-IsValid (omega arith)

abbrev full_pipe : PosixPipeState
full_pipe = ring_put empty_pipe (1 ∷ 2 ∷ 3 ∷ [])

ring_take_lem_example :
    let (p', taken) = ring_take full_pipe 2 in
    IsValid p'
    × (contents full_pipe ≡ taken ++ contents p')
    × (length taken ≡ 2)
    × (p'.count + 2 ≡ full_pipe.count)
ring_take_lem_example =
    let (v, c, n) = ring_put_lem (1 ∷ 2 ∷ 3 ∷ []) empty_pipe-IsValid (omega arith) in
    ring_take_lem 2 v (omega (arith, n))

posix_pipe_io-IsPool_example : IsPool (posix_pipe_io flat world (some 0) 0 0 2 100 2).0.pipes
posix_pipe_io-IsPool_example =
    posix_pipe_io-IsPool flat some-length world (some 0) 0 0 2 100 2 world-IsPool
