-- ===== src/Core/Klock.antt =====
-- src/core/klock.c, klock.h and spinlock.h: ticket locks with levels, which a CPU takes in
-- ascending order. The records of all CPUs, the locks and the counters are one state. The record of a
-- CPU is a list with the newest entry first, whose length is `depth`. `klock_acquire` is two steps,
-- since other CPUs run while it spins: up to the ticket, and from the turn that sees it served.
-- A call that the source answers with `panic_str` has no result.
pub mod Order
pub mod Queue
pub mod Tickets
pub mod Steps
pub mod Progress
mod Tests
use mich_core.Base.{
  ℕ, zero, suc, ◌+◌, ◌-◌, ◌%◌, ◌<◌, ◌≤◌, ◌≡◌, Bool, true, false, not, ◌&&◌, ◌||◌, Option, none,
  some, List, [], ◌∷◌, ltb, leb, ◌==◌, if◌then◌else◌, add32, add64, length,
}

abbrev pub klock_depth_max : ℕ
klock_depth_max = 14

abbrev pub klock_level_pmm : ℕ
klock_level_pmm = 14

abbrev pub klock_max_cpus : ℕ
klock_max_cpus = 16

pub record Spinlock : Type 0 where
  pub ticket : ℕ
  pub served : ℕ

-- An entry of `klock_records`. The lock is the one that was acquired, which the source does not keep.
pub record KlockRecord : Type 0 where
  pub lock : ℕ
  pub level : ℕ
  pub flags : Bool

-- A CPU that spins in `spin_lock`: the lock, `mine`, and the flags that `klock_acquire` saved.
pub record Spin : Type 0 where
  pub lock : ℕ
  pub mine : ℕ
  pub flags : Bool

-- The interrupt flag is true while interrupts are on.
pub record KlockCpu : Type 0 where
  pub records : List KlockRecord
  pub spin : Option Spin
  pub interrupts : Bool

pub record KlockStats : Type 0 where
  pub acquires : ℕ
  pub contended : ℕ

-- The statistics are by level, without the shift by one of the source.
pub record KlockSystem : Type 0 where
  pub cpus : ℕ → KlockCpu
  pub locks : ℕ → Spinlock
  pub stats : ℕ → KlockStats

abbrev pub klock_order_ok : ℕ → ℕ → Bool
klock_order_ok held wanted = ltb held wanted

-- `scheduler_cpu_id` may answer a negative number, which is `none` here.
pub klock_cpu : Option ℕ → ℕ
klock_cpu none = 0
klock_cpu (some cpu) = if ltb 0 cpu && ltb cpu klock_max_cpus then cpu else 0

abbrev pub top_level : List KlockRecord → ℕ
top_level [] = 0
top_level (r ∷ rs) = r.level

pub klock_held_level : KlockSystem → ℕ → ℕ
klock_held_level s cpu = top_level (s.cpus cpu).records

-- One element of an array that is a function.
abbrev pub put : {A : Type 0} → (ℕ → A) → ℕ → A → ℕ → A
put f i x j = if j == i then x else f j

pub klock_stats_read : KlockSystem → ℕ → ℕ × ℕ
klock_stats_read s level =
    if not (level == 0) && leb level klock_level_pmm
    then ((s.stats level).acquires, (s.stats level).contended)
    else (0, 0)

module _ (level : ℕ → ℕ) where
  -- The counters of one acquire.
  abbrev pub counted : KlockSystem → ℕ → KlockStats
  counted s lock =
      let k = s.locks lock in
      let t = s.stats (level lock) in
      record {
        acquires = add64 t.acquires 1;
        contended = if k.ticket == k.served then t.contended else add64 t.contended 1;
      }

  -- The CPU has a ticket and waits with interrupts off.
  abbrev pub begun : KlockSystem → ℕ → ℕ → KlockSystem
  begun s cpu lock =
      let c = s.cpus cpu in
      let k = s.locks lock in
      record {
        cpus = put s.cpus cpu (record c {
          spin = some (record { lock = lock; mine = k.ticket; flags = c.interrupts });
          interrupts = false;
        });
        locks = put s.locks lock (record k { ticket = add32 k.ticket 1 });
        stats = put s.stats (level lock) (counted s lock);
      }

  -- `klock_acquire` up to the ticket of `spin_lock`.
  pub acquire_begin : KlockSystem → ℕ → ℕ → Option KlockSystem
  acquire_begin s cpu lock =
      let c = s.cpus cpu in
      if leb klock_depth_max (length c.records)
        || not (klock_order_ok (top_level c.records) (level lock))
      then none
      else some (begun s cpu lock)

  -- The end of `klock_acquire`.
  abbrev pub entered : KlockSystem → ℕ → Spin → KlockSystem
  entered s cpu w =
      let c = s.cpus cpu in
      record s {
        cpus = put s.cpus cpu (record c {
          records = record { lock = w.lock; level = level w.lock; flags = w.flags } ∷ c.records;
          spin = none;
        });
      }

  -- One turn of the loop of `spin_lock`, with the end of `klock_acquire` where the turn is its last.
  pub acquire_turn : KlockSystem → ℕ → KlockSystem
  acquire_turn s cpu = elim (s.cpus cpu).spin [
    | none ↦ s
    | some w ↦ if not ((s.locks w.lock).served == w.mine) then s else entered s cpu w
  ]

  -- The end of `klock_release`: the newest record is taken off and the flags are those of it.
  abbrev pub released : KlockSystem → ℕ → ℕ → KlockRecord → List KlockRecord → KlockSystem
  released s cpu lock r rs =
      let k = s.locks lock in
      record s {
        cpus = put s.cpus cpu (record (s.cpus cpu) { records = rs; interrupts = r.flags });
        locks = put s.locks lock (record k { served = add32 k.served 1 });
      }

  pub klock_release : KlockSystem → ℕ → ℕ → Option KlockSystem
  klock_release s cpu lock = elim (s.cpus cpu).records [
    | [] ↦ none
    | r ∷ rs ↦ if not (r.level == level lock) then none else some (released s cpu lock r rs)
  ]

  -- The steps of the CPUs, in any order. A CPU that spins does nothing else, and it releases the lock
  -- that it acquired last.
  pub data Step (s : KlockSystem) : KlockSystem → Type 0 where
    begins :
        {s' : KlockSystem} (cpu lock : ℕ)
        → cpu < klock_max_cpus
        → (s.cpus cpu).spin ≡ none
        → acquire_begin s cpu lock ≡ some s'
        → Step s s'
    turns : (cpu : ℕ) → cpu < klock_max_cpus → Step s (acquire_turn s cpu)
    releases :
        {s' : KlockSystem} (cpu lock : ℕ) (r : KlockRecord) (rs : List KlockRecord)
        → cpu < klock_max_cpus
        → (s.cpus cpu).spin ≡ none
        → (s.cpus cpu).records ≡ r ∷ rs
        → r.lock ≡ lock
        → klock_release s cpu lock ≡ some s'
        → Step s s'

  pub data Reachable (s : KlockSystem) : KlockSystem → Type 0 where
    here : Reachable s s
    then_step : {t u : KlockSystem} → Reachable s t → Step t u → Reachable s u

-- Nothing is held, and interrupts are on.
abbrev pub klock_start : KlockSystem
klock_start = record {
  cpus = λ cpu. record { records = []; spin = none; interrupts = true };
  locks = λ lock. record { ticket = 0; served = 0 };
  stats = λ l. record { acquires = 0; contended = 0 };
}
