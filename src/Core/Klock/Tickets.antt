-- ===== src/Core/Klock/Tickets.antt =====
-- The tickets of a lock of src/core/klock.c stay in a queue through every step.
use mich_core.Base.{
  some_inj, ℕ, suc, ◌+◌, ◌-◌, ◌%◌, ◌^◌, ◌<◌, ◌≤◌, ◌≡◌, ◌≢◌, ◌⊎◌, inl, inr, refl, sym, ap, subst,
  ◌∙◌, arith, none, some, add32,
}
use mich_core.Core.Klock.{klock_max_cpus, Spinlock, Spin, KlockCpu, put}
use mich_core.Core.Klock.Order.{put_self, put_ne, put_cases, HasLock}
use mich_core.Core.Klock.Queue.{IsApart, pigeonhole}

-- The CPU spins for the lock with the ticket.
abbrev pub IsWaiting : ℕ → ℕ → KlockCpu → Type 0
IsWaiting lock t c = (w : Spin) × (c.spin ≡ some w) × (w.lock ≡ lock) × (w.mine ≡ t)

abbrev pub IsHolding : ℕ → KlockCpu → Type 0
IsHolding lock c = HasLock lock c.records

-- The queue of a lock: `size` CPUs with the tickets from `served` on, of which only the first can
-- hold the lock.
pub record IsQueue (lock : ℕ) (cpus : ℕ → KlockCpu) (k : Spinlock) (size : ℕ) (q : ℕ → ℕ)
    : Type 0 where
  pub small : k.served < 2 ^ 32
  pub ticket : k.ticket ≡ (k.served + size) % 2 ^ 32
  pub of_cpus : (i : ℕ) → i < size → q i < klock_max_cpus
  pub apart : IsApart q size
  pub waits :
      (i : ℕ)
      → i < size
      → IsWaiting lock ((k.served + i) % 2 ^ 32) (cpus (q i))
        ⊎ ((i ≡ 0) × IsHolding lock (cpus (q i)))
  pub spins :
      (c t : ℕ)
      → IsWaiting lock t (cpus c)
      → (i : ℕ) × (i < size) × (q i ≡ c) × (t ≡ (k.served + i) % 2 ^ 32)
  pub holds : (c : ℕ) → IsHolding lock (cpus c) → (0 < size) × (q 0 ≡ c)

module _ (lock : ℕ) (cpus : ℕ → KlockCpu) (k : Spinlock) (size : ℕ) (q : ℕ → ℕ)
    (h : IsQueue lock cpus k size q) where
  -- A CPU changes, but not in what it has to do with the lock.
  pub same-IsQueue :
      (cpu : ℕ) (x : KlockCpu)
      → ((t : ℕ) → IsWaiting lock t (cpus cpu) → IsWaiting lock t x)
      → ((t : ℕ) → IsWaiting lock t x → IsWaiting lock t (cpus cpu))
      → (IsHolding lock (cpus cpu) → IsHolding lock x)
      → (IsHolding lock x → IsHolding lock (cpus cpu))
      → IsQueue lock (put cpus cpu x) k size q
  same-IsQueue cpu x waits waited has had = record {
    small = h.small;
    ticket = h.ticket;
    of_cpus = h.of_cpus;
    apart = h.apart;
    waits = λ i a.
        put_cases
          (λ j c.
            j ≡ q i → IsWaiting lock ((k.served + i) % 2 ^ 32) c ⊎ ((i ≡ 0) × IsHolding lock c))
          cpus cpu x
          (λ e. elim (h.waits i a) [
            | inl w ↦ inl (
                waits ((k.served + i) % 2 ^ 32)
                  (subst (λ j. IsWaiting lock ((k.served + i) % 2 ^ 32) (cpus j)) (sym e) w))
            | inr (z, w) ↦ inr (z, has (subst (λ j. IsHolding lock (cpus j)) (sym e) w))
          ])
          (λ j n e.
            subst
              (λ j.
                IsWaiting lock ((k.served + i) % 2 ^ 32) (cpus j)
                ⊎ ((i ≡ 0) × IsHolding lock (cpus j)))
              (sym e) (h.waits i a))
          (q i) refl;
    spins = λ c t.
        put_cases
          (λ j y.
            IsWaiting lock t y → (i : ℕ) × (i < size) × (q i ≡ j) × (t ≡ (k.served + i) % 2 ^ 32))
          cpus cpu x (λ w. h.spins cpu t (waited t w)) (λ j n. h.spins j t) c;
    holds =
        put_cases (λ j y. IsHolding lock y → (0 < size) × (q 0 ≡ j)) cpus cpu x
          (λ w. h.holds cpu (had w)) (λ j n. h.holds j);
  }

  queue_short : size ≤ klock_max_cpus
  queue_short = pigeonhole klock_max_cpus size q h.of_cpus h.apart

  -- A CPU that has nothing to do with the lock takes the next ticket.
  pub begun-IsQueue :
      (cpu : ℕ) (x : KlockCpu) (w : Spin)
      → cpu < klock_max_cpus
      → ((i : ℕ) → i < size → q i ≢ cpu)
      → x.spin ≡ some w
      → w.lock ≡ lock
      → w.mine ≡ k.ticket
      → x.records ≡ (cpus cpu).records
      → IsQueue lock
          (put cpus cpu x)
          (record k { ticket = add32 k.ticket 1 })
          (suc size)
          (put q size cpu)
  begun-IsQueue cpu x w low new spin of_lock mine same = record {
    small = h.small;
    ticket = let t = h.ticket in omega arith;
    of_cpus =
        put_cases (λ i y. i < suc size → y < klock_max_cpus) q size cpu (λ a. low)
          (λ i n a. h.of_cpus i (omega arith));
    apart = λ i j a b.
        put_cases (λ m y. m < suc size → y ≡ put q size cpu j → m ≡ j) q size cpu
          (λ a'.
            put_cases (λ m y. m < suc size → cpu ≡ y → size ≡ m) q size cpu (λ b' e. refl)
              (λ m n b' e. absurd (new m (omega arith) (sym e))) j b)
          (λ l n a'.
            put_cases (λ m y. m < suc size → q l ≡ y → l ≡ m) q size cpu
              (λ b' e. absurd (new l (omega arith) e))
              (λ m p b' e. h.apart l m (omega arith) (omega arith) e) j b)
          i a;
    waits =
        put_cases
          (λ i y.
            i < suc size
            → IsWaiting lock ((k.served + i) % 2 ^ 32) (put cpus cpu x y)
              ⊎ ((i ≡ 0) × IsHolding lock (put cpus cpu x y)))
          q size cpu (λ a. rw (put_self cpus cpu x) (inl (w, spin, of_lock, mine ∙ h.ticket)))
          (λ i n a.
            let old : i < size = omega arith in
            rw (put_ne cpus cpu (q i) x (new i old)) (h.waits i old));
    spins = λ c t.
        put_cases
          (λ j y.
            IsWaiting lock t y
            → (i : ℕ) × (i < suc size) × (put q size cpu i ≡ j) × (t ≡ (k.served + i) % 2 ^ 32))
          cpus cpu x
          (λ (w', e', l', m').
            let same_mine : w.mine ≡ w'.mine =
              ap (λ (v : Spin). v.mine) (some_inj (sym spin ∙ e')) in
            (size, omega arith, put_self q size cpu, sym m' ∙ sym same_mine ∙ mine ∙ h.ticket))
          (λ j n v.
            let (i, a, e, z) = h.spins j t v in
            (i, omega arith, put_ne q size i cpu (omega arith) ∙ e, z))
          c;
    holds =
        put_cases (λ j y. IsHolding lock y → (0 < suc size) × (put q size cpu 0 ≡ j)) cpus cpu x
          (λ v. let (a, e) = h.holds cpu (subst (HasLock lock) same v) in absurd (new 0 a e))
          (λ j n v.
            let (a, e) = h.holds j v in (omega arith, put_ne q size 0 cpu (omega arith) ∙ e));
  }

  -- The CPU with the ticket that is served takes the lock.
  pub entered-IsQueue :
      (cpu : ℕ) (x : KlockCpu)
      → IsWaiting lock k.served (cpus cpu)
      → x.spin ≡ none
      → IsHolding lock x
      → IsQueue lock (put cpus cpu x) k size q
  entered-IsQueue cpu x w idle has =
      let (i, a, e, z) = h.spins cpu k.served w in
      let few = queue_short in
      let small = h.small in
      let first : i ≡ 0 = omega arith in
      let head : q 0 ≡ cpu = subst (λ j. q j ≡ cpu) first e in
      record {
        small = h.small;
        ticket = h.ticket;
        of_cpus = h.of_cpus;
        apart = h.apart;
        waits = λ j b.
            put_cases
              (λ m c.
                m ≡ q j → IsWaiting lock ((k.served + j) % 2 ^ 32) c ⊎ ((j ≡ 0) × IsHolding lock c))
              cpus cpu x (λ p. inr (h.apart j 0 b (omega arith) (sym p ∙ sym head), has))
              (λ m n p.
                subst
                  (λ m.
                    IsWaiting lock ((k.served + j) % 2 ^ 32) (cpus m)
                    ⊎ ((j ≡ 0) × IsHolding lock (cpus m)))
                  (sym p) (h.waits j b))
              (q j) refl;
        spins = λ c t.
            put_cases
              (λ j y.
                IsWaiting lock t y
                → (i : ℕ) × (i < size) × (q i ≡ j) × (t ≡ (k.served + i) % 2 ^ 32))
              cpus cpu x (λ (w', e', l', m'). let no = sym idle ∙ e' in cc) (λ j n. h.spins j t) c;
        holds =
            put_cases (λ j y. IsHolding lock y → (0 < size) × (q 0 ≡ j)) cpus cpu x
              (λ v. (omega arith, head)) (λ j n. h.holds j);
      }

  -- The CPU that holds the lock gives it up, and the next ticket is served.
  pub released-IsQueue :
      (cpu : ℕ) (x : KlockCpu)
      → IsHolding lock (cpus cpu)
      → x.spin ≡ none
      → ¬ IsHolding lock x
      → IsQueue lock
          (put cpus cpu x)
          (record k { served = add32 k.served 1 })
          (size - 1)
          (λ i. q (i + 1))
  released-IsQueue cpu x had idle free =
      let (some_left, head) = h.holds cpu had in
      let other : (j : ℕ) → j < size - 1 → q (j + 1) ≢ cpu = λ j a e.
        let same = h.apart (j + 1) 0 (omega arith) some_left (e ∙ sym head) in omega arith in
      record {
        small = omega arith;
        ticket = let t = h.ticket in omega arith;
        of_cpus = λ i a. h.of_cpus (i + 1) (omega arith);
        apart = λ i j a b e.
            let same = h.apart (i + 1) (j + 1) (omega arith) (omega arith) e in omega arith;
        waits = λ j a.
            let next : (k.served + (j + 1)) % 2 ^ 32 ≡ (add32 k.served 1 + j) % 2 ^ 32 =
              omega arith in
            rw (put_ne cpus cpu (q (j + 1)) x (other j a)) (elim (h.waits (j + 1) (omega arith)) [
              | inl w ↦ inl (subst (λ t. IsWaiting lock t (cpus (q (j + 1)))) next w)
              | inr (z, w) ↦ absurd (omega arith)
            ]);
        spins = λ c t.
            put_cases
              (λ j y.
                IsWaiting lock t y
                → (i : ℕ) × (i < size - 1)
                  × (q (i + 1) ≡ j)
                  × (t ≡ (add32 k.served 1 + i) % 2 ^ 32))
              cpus cpu x (λ (w', e', l', m'). let no = sym idle ∙ e' in cc)
              (λ j n v.
                let (i, a, e, z) = h.spins j t v in
                let later : i ≢ 0 = λ p. n (sym e ∙ ap q p ∙ head) in
                let at : i - 1 + 1 ≡ i = omega arith in
                (i - 1, omega arith, ap q at ∙ e, omega arith))
              c;
        holds =
            put_cases (λ j y. IsHolding lock y → (0 < size - 1) × (q (0 + 1) ≡ j)) cpus cpu x
              (λ v. absurd (free v))
              (λ j n v. let (a, e) = h.holds j v in absurd (n (sym e ∙ head)));
      }
