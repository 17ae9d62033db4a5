-- ===== src/Core/Klock/Progress.antt =====
-- What the order and the queues of src/core/klock.c give: a lock has one holder, and CPUs that wait
-- for each other never wait in a circle.
use mich_core.Base.{
  ℕ, zero, suc, ◌+◌, ◌%◌, ◌^◌, ◌<◌, ◌≤◌, ◌≡◌, ◌⊎◌, inl, inr, refl, sym, ap, ◌∙◌, arith, true, false,
  not, ◌||◌, none, some, List, [], ◌∷◌, leb, ◌==◌, length, Option-cases,
}
use mich_core.Core.Klock.{
  klock_held_level, klock_depth_max, klock_level_pmm, klock_max_cpus, KlockRecord, Spin, KlockCpu,
  KlockSystem, klock_order_ok, top_level, begun, acquire_begin, entered, acquire_turn, Reachable,
  here, then_step, klock_start,
}
use mich_core.Core.Klock.Order.{depth-top_level, put_self, HasLock, HasLock-level, Step-IsCpu}
use mich_core.Core.Klock.Steps.{IsSound, Step-HasQueue}

module _ (level : ℕ → ℕ) (low : (lock : ℕ) → level lock ≤ klock_level_pmm) where
  Reachable-IsSound : {s : KlockSystem} → Reachable level klock_start s → IsSound level s
  Reachable-IsSound here = record {
    cpu_of =
        λ cpu. record { ordered = tt; masked = tt; above = λ w e. cc; spin_masked = λ w e. cc };
    queue_of = λ lock. (
      0,
      λ i. 0,
      record {
        small = omega arith;
        ticket = omega arith;
        of_cpus = λ i a. absurd (omega arith);
        apart = λ i j a b e. absurd (omega arith);
        waits = λ i a. absurd (omega arith);
        spins = λ c t (w, e, l, m). cc;
        holds = λ c h. absurd h;
      },
    );
  }
  Reachable-IsSound (then_step r e) =
      let h = Reachable-IsSound r in
      record { cpu_of = Step-IsCpu level low e h.cpu_of; queue_of = Step-HasQueue level e h }

  -- In every state that the CPUs reach, at most one of them holds a lock.
  -- No level is above that of the page allocator, as in klock.h.
  pub Reachable-exclusive :
      {s : KlockSystem} (lock a b : ℕ)
      → Reachable level klock_start s
      → HasLock lock (s.cpus a).records
      → HasLock lock (s.cpus b).records
      → a ≡ b
  Reachable-exclusive lock a b r h k =
      let (size, q, o) = (Reachable-IsSound r).queue_of lock in
      let (x, e) = o.holds a h in let (y, d) = o.holds b k in sym e ∙ d

  -- In every state that the CPUs reach, a CPU that asks for a lock above those that it holds gets its
  -- ticket: the room for the records is enough.
  -- No level is above that of the page allocator, as in klock.h.
  pub Reachable-acquire_begin :
      {s : KlockSystem} (cpu lock : ℕ)
      → Reachable level klock_start s
      → klock_order_ok (klock_held_level s cpu) (level lock) ≡ true
      → (t : KlockSystem) × (acquire_begin level s cpu lock ≡ some t)
  unfolding acquire_begin klock_held_level
  Reachable-acquire_begin {s} cpu lock r ok =
      let i = (Reachable-IsSound r).cpu_of cpu in
      let short = depth-top_level level (s.cpus cpu).records i.ordered in
      let wanted = low lock in
      let taken : (leb klock_depth_max (length (s.cpus cpu).records)
            || not (klock_order_ok (top_level (s.cpus cpu).records) (level lock)))
          ≡ false =
        ground arith in
      (begun level s cpu lock, rw taken refl)

  -- The CPU can leave the loop of `spin_lock` in its next turn.
  abbrev pub CanEnter : KlockSystem → ℕ → Type 0
  CanEnter s cpu =
      (w : Spin) × ((s.cpus cpu).spin ≡ some w)
      × (((acquire_turn level s cpu).cpus cpu).spin ≡ none)

  -- The CPU holds a lock and does not wait for one, so it runs to its release.
  abbrev pub IsRunning : KlockSystem → ℕ → Type 0
  IsRunning s cpu = ((s.cpus cpu).spin ≡ none) × (0 < length (s.cpus cpu).records)

  turn_served :
      (s : KlockSystem) (cpu : ℕ) (w : Spin)
      → (s.cpus cpu).spin ≡ some w
      → (s.locks w.lock).served ≡ w.mine
      → ((acquire_turn level s cpu).cpus cpu).spin ≡ none
  unfolding acquire_turn
  turn_served s cpu w e turn =
      let served : ((s.locks w.lock).served == w.mine) ≡ true = ground arith in
      let now : acquire_turn level s cpu ≡ entered level s cpu w =
        rw (e, served, acquire_turn) refl in
      ap (λ (t : KlockSystem). (t.cpus cpu).spin) now
      ∙ ap (λ (c : KlockCpu). c.spin)
          (put_self s.cpus cpu (record (s.cpus cpu) {
            records =
                record { lock = w.lock; level = level w.lock; flags = w.flags }
                ∷ (s.cpus cpu).records;
            spin = none;
          }))

  holding_some : (lock : ℕ) (rs : List KlockRecord) → HasLock lock rs → 0 < length rs
  holding_some lock [] h = absurd h
  holding_some lock (r ∷ rs) h = omega arith

  -- The first CPU in the queue of the lock that a CPU waits for enters, runs, or waits for a higher lock.
  front :
      (s : KlockSystem) (cpu : ℕ) (w : Spin)
      → IsSound level s
      → (s.cpus cpu).spin ≡ some w
      → (other : ℕ) × (other < klock_max_cpus)
        × ((CanEnter s other ⊎ IsRunning s other)
            ⊎ ((v : Spin) × ((s.cpus other).spin ≡ some v) × (level w.lock < level v.lock)))
  front s cpu w h e =
      let (size, q, o) = h.queue_of w.lock in
      let (i, a, b, c) = o.spins cpu w.mine (w, e, refl, refl) in
      let small = o.small in
      let head = q 0 in
      (
        head,
        o.of_cpus 0 (omega arith),
        elim (o.waits 0 (omega arith)) [
          | inl (v, x, y, z) ↦
              let served : (s.locks v.lock).served ≡ v.mine =
                ap (λ j. (s.locks j).served) y
                ∙ sym (
                    z
                    ∙ let t : ((s.locks w.lock).served + 0) % 2 ^ 32 ≡ (s.locks w.lock).served =
                        omega arith in
                      t) in
              inl (inl (v, x, turn_served s head v x served))
          | inr (x, y) ↦ elim (Option-cases (s.cpus head).spin) [
            | inl z ↦ inl (inr (z, holding_some w.lock (s.cpus head).records y))
            | inr (v, z) ↦
                let c = h.cpu_of head in
                let over = c.above v z in
                let held = HasLock-level level w.lock (s.cpus head).records c.ordered y in
                inr (v, z, omega arith)
          ]
        ],
      )

  progress_from :
      (n : ℕ) (s : KlockSystem) (cpu : ℕ) (w : Spin)
      → IsSound level s
      → klock_level_pmm ≤ level w.lock + n
      → (s.cpus cpu).spin ≡ some w
      → (other : ℕ) × (other < klock_max_cpus) × (CanEnter s other ⊎ IsRunning s other)
  progress_from zero s cpu w h enough e =
      let (other, k, d) = front s cpu w h e in
      elim d [
        | inl y ↦ (other, k, y)
        | inr (v, z, over) ↦ let top = low v.lock in absurd (omega arith)
      ]
  progress_from (suc n) s cpu w h enough e =
      let (other, k, d) = front s cpu w h e in
      elim d [
        | inl y ↦ (other, k, y)
        | inr (v, z, over) ↦ progress_from n s other v h (omega arith) z
      ]

  -- In every state that the CPUs reach where one waits for a lock, one of them can go on: it leaves its
  -- loop in its next turn, or it holds a lock and waits for none.
  -- No level is above that of the page allocator, as in klock.h.
  pub Reachable-progress :
      {s : KlockSystem} (cpu : ℕ) (w : Spin)
      → Reachable level klock_start s
      → (s.cpus cpu).spin ≡ some w
      → (other : ℕ) × (other < klock_max_cpus) × (CanEnter s other ⊎ IsRunning s other)
  Reachable-progress {s} cpu w r e =
      progress_from klock_level_pmm s cpu w (Reachable-IsSound r) (omega arith) e
