-- ===== src/Core/Klock/Tests.antt =====
-- A run of src/core/klock.c with two CPUs: the first holds a lock of level 3, the second waits for it.
use mich_core.Base.{ℕ, ◌<◌, ◌≤◌, ◌≡◌, ◌⊎◌, inl, refl, arith, true, none, some, min}
use mich_core.Core.Klock.{
  klock_max_cpus, klock_level_pmm, KlockSystem, begun, acquire_begin, acquire_turn,
  klock_held_level, Reachable, here, then_step, begins, turns, klock_start,
}
use mich_core.Core.Klock.Progress.{
  CanEnter, IsRunning, Reachable-exclusive, Reachable-acquire_begin, Reachable-progress,
}

-- The lock `n` has the level `n`, up to the highest.
abbrev test_level : ℕ → ℕ
test_level lock = min lock klock_level_pmm

test_low : (lock : ℕ) → test_level lock ≤ klock_level_pmm
test_low lock = omega arith

abbrev held : KlockSystem
held = acquire_turn test_level (begun test_level klock_start 0 3) 0

abbrev contended : KlockSystem
contended = begun test_level held 1 3

contended-Reachable : Reachable test_level klock_start contended
unfolding acquire_begin acquire_turn
contended-Reachable =
    then_step
      (then_step (then_step here (begins 0 3 (omega arith) refl refl)) (turns 0 (omega arith)))
      (begins 1 3 (omega arith) refl refl)

-- A lower lock is refused while a lock of level 3 is held.
lower_refused : acquire_begin test_level held 0 2 ≡ none
unfolding acquire_begin acquire_turn
lower_refused = refl

Reachable-exclusive_example : ◌≡◌ {A = ℕ} 0 0
unfolding acquire_turn
Reachable-exclusive_example =
    Reachable-exclusive test_level test_low 3 0 0 contended-Reachable (inl refl) (inl refl)

Reachable-acquire_begin_example :
    (t : KlockSystem) × (acquire_begin test_level contended 0 5 ≡ some t)
unfolding acquire_turn klock_held_level
Reachable-acquire_begin_example =
    Reachable-acquire_begin test_level test_low 0 5 contended-Reachable refl

Reachable-progress_example :
    (other : ℕ) × (other < klock_max_cpus)
    × (CanEnter test_level test_low contended other ⊎ IsRunning test_level test_low contended other)
unfolding acquire_turn
Reachable-progress_example =
    Reachable-progress test_level test_low 1 (record { lock = 3; mine = 1; flags = true })
      contended-Reachable refl
