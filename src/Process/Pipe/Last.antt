-- ===== src/Process/Pipe/Last.antt =====
-- The end of a pipe in src/process/posix_pipe.c: the last release of one end answers every task that
-- is parked on the other.
use mich_core.Base.{ℕ, ◌≡◌, refl, set}
use mich_core.Process.Task.{running}
use mich_core.Process.Pipe.{World, Answer, finish}

finish-tasks :
    {M : Type 0} (w : World M) (slot : ℕ) (answer : Answer)
    → (finish w slot answer).tasks ≡ set w.tasks slot running
unfolding finish
finish-tasks w slot answer = refl
