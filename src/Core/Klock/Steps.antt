-- ===== src/Core/Klock/Steps.antt =====
-- The steps of src/core/klock.c keep the queue of every lock.
use mich_core.Base.{
  some_inj, ℕ, suc, ◌+◌, ◌-◌, ◌<◌, ◌≡◌, ◌≢◌, inl, inr, refl, sym, ap, subst, ◌∙◌, arith, false,
  none, some, List, ◌∷◌, add32, ℕ_discrete,
}
use mich_core.Core.Klock.{
  klock_max_cpus, KlockRecord, Spin, KlockCpu, KlockSystem, top_level, put, begun, entered,
  released, Step, begins, turns, releases,
}
use mich_core.Core.Klock.Order.{
  put_self, put_ne, HasLock, IsOrdered, IsCpu, HasLock-level, begin_cases, release_cases,
  turn_cases,
}
use mich_core.Core.Klock.Tickets.{
  IsHolding, IsQueue, same-IsQueue, begun-IsQueue, entered-IsQueue, released-IsQueue,
}

module _ (level : ℕ → ℕ) where
  -- What every step keeps.
  pub record IsSound (s : KlockSystem) : Type 0 where
    pub cpu_of : (cpu : ℕ) → IsCpu level (s.cpus cpu)
    pub queue_of : (lock : ℕ) → (size : ℕ) × (q : ℕ → ℕ) × IsQueue lock s.cpus (s.locks lock) size q

  -- Some queue of the lock.
  abbrev pub HasQueue : KlockSystem → ℕ → Type 0
  HasQueue s lock = (size : ℕ) × (q : ℕ → ℕ) × IsQueue lock s.cpus (s.locks lock) size q

  -- A CPU that neither waits for the lock nor holds it is not in the queue.
  not_queued :
      (s : KlockSystem) (lock cpu size : ℕ) (q : ℕ → ℕ)
      → IsQueue lock s.cpus (s.locks lock) size q
      → (s.cpus cpu).spin ≡ none
      → ¬ IsHolding lock (s.cpus cpu)
      → (i : ℕ) → i < size
      → q i ≢ cpu
  not_queued s lock cpu size q k idle free i a z = elim (k.waits i a) [
    | inl (v, b, d, y) ↦ let no = sym b ∙ ap (λ j. (s.cpus j).spin) z ∙ idle in cc
    | inr (z', b) ↦ free (subst (λ j. IsHolding lock (s.cpus j)) z b)
  ]

  begun_own :
      (s : KlockSystem) (cpu lock : ℕ)
      → cpu < klock_max_cpus
      → (s.cpus cpu).spin ≡ none
      → top_level (s.cpus cpu).records < level lock
      → IsSound s
      → HasQueue (begun level s cpu lock) lock
  begun_own s cpu lock low idle over h =
      let (size, q, k) = h.queue_of lock in
      let c = s.cpus cpu in
      let w : Spin = record { lock = lock; mine = (s.locks lock).ticket; flags = c.interrupts } in
      let free : ¬ IsHolding lock c = λ b.
        let mine = HasLock-level level lock c.records (h.cpu_of cpu).ordered b in omega arith in
      (
        suc size,
        put q size cpu,
        rw
            (put_self s.locks lock
              (record (s.locks lock) { ticket = add32 (s.locks lock).ticket 1 }))
            (begun-IsQueue lock s.cpus (s.locks lock) size q k cpu
              (record c { spin = some w; interrupts = false }) w low
              (not_queued s lock cpu size q k idle free) refl refl refl refl),
      )

  begun_other :
      (s : KlockSystem) (cpu lock l : ℕ)
      → l ≢ lock
      → (s.cpus cpu).spin ≡ none
      → HasQueue s l
      → HasQueue (begun level s cpu lock) l
  begun_other s cpu lock l n idle (size, q, k) =
      let c = s.cpus cpu in
      let w : Spin = record { lock = lock; mine = (s.locks lock).ticket; flags = c.interrupts } in
      (
        size,
        q,
        rw
            (put_ne s.locks lock l
              (record (s.locks lock) { ticket = add32 (s.locks lock).ticket 1 }) n)
            (same-IsQueue l s.cpus (s.locks l) size q k cpu
              (record c { spin = some w; interrupts = false })
              (λ t (v, b, d, z). let no = sym b ∙ idle in cc)
              (λ t (v, b, d, z). absurd (n (sym d ∙ sym (ap (λ (y : Spin). y.lock) (some_inj b)))))
              (λ y. y) (λ y. y)),
      )

  entered_any :
      (s : KlockSystem) (cpu : ℕ) (w : Spin) (l : ℕ)
      → (s.cpus cpu).spin ≡ some w
      → (s.locks w.lock).served ≡ w.mine
      → HasQueue s l
      → HasQueue (entered level s cpu w) l
  entered_any s cpu w l e turn (size, q, k) =
      let c = s.cpus cpu in
      let x : KlockCpu = record c {
        records = record { lock = w.lock; level = level w.lock; flags = w.flags } ∷ c.records;
        spin = none;
      } in
      (
        size,
        q,
        elim (ℕ_discrete w.lock l) [
          | yes z ↦
              entered-IsQueue l s.cpus (s.locks l) size q k cpu x
                (w, e, z, sym turn ∙ ap (λ j. (s.locks j).served) z) refl (inl z)
          | no n ↦
              same-IsQueue l s.cpus (s.locks l) size q k cpu x
                (λ t (v, b, d, z).
                  absurd (n (ap (λ (y : Spin). y.lock) (some_inj (sym e ∙ b)) ∙ d)))
                (λ t (v, b, d, z). cc) (λ y. inr y)
                (λ y. elim y [ inl z ↦ absurd (n z) | inr z ↦ z ])
        ],
      )

  released_own :
      (s : KlockSystem) (cpu lock : ℕ) (r : KlockRecord) (rs : List KlockRecord)
      → (s.cpus cpu).records ≡ r ∷ rs
      → (s.cpus cpu).spin ≡ none
      → r.lock ≡ lock
      → IsSound s
      → HasQueue (released level s cpu lock r rs) lock
  released_own s cpu lock r rs e idle own h =
      let (size, q, k) = h.queue_of lock in
      let c = s.cpus cpu in
      let (a, b, low, rest) : IsOrdered level (r ∷ rs) =
        subst (IsOrdered level) e (h.cpu_of cpu).ordered in
      let free : ¬ HasLock lock rs = λ z.
        let below = HasLock-level level lock rs rest z in let same = ap level own in omega arith in
      (
        size - 1,
        λ i. q (i + 1),
        rw
            (put_self s.locks lock
              (record (s.locks lock) { served = add32 (s.locks lock).served 1 }))
            (released-IsQueue lock s.cpus (s.locks lock) size q k cpu
              (record c { records = rs; interrupts = r.flags })
              (subst (HasLock lock) (sym e) (inl own)) idle free),
      )

  released_other :
      (s : KlockSystem) (cpu lock l : ℕ) (r : KlockRecord) (rs : List KlockRecord)
      → (s.cpus cpu).records ≡ r ∷ rs
      → r.lock ≡ lock
      → l ≢ lock
      → HasQueue s l
      → HasQueue (released level s cpu lock r rs) l
  released_other s cpu lock l r rs e own n (size, q, k) = (
    size,
    q,
    rw (put_ne s.locks lock l (record (s.locks lock) { served = add32 (s.locks lock).served 1 }) n)
        (same-IsQueue l s.cpus (s.locks l) size q k cpu
          (record (s.cpus cpu) { records = rs; interrupts = r.flags }) (λ t y. y) (λ t y. y)
          (λ y. elim (subst (HasLock l) e y) [ inl z ↦ absurd (n (sym z ∙ own)) | inr z ↦ z ])
          (λ y. subst (HasLock l) (sym e) (inr y))),
  )

  pub Step-HasQueue : {s s' : KlockSystem} → Step level s s' → IsSound s → (l : ℕ) → HasQueue s' l
  Step-HasQueue {s} (begins cpu lock low idle e) h l =
      let (q, over) = begin_cases level s cpu lock e in
      subst (λ t. HasQueue t l) q
        (elim (ℕ_discrete l lock) [
          | yes z ↦
              subst (HasQueue (begun level s cpu lock)) (sym z)
                (begun_own s cpu lock low idle over h)
          | no n ↦ begun_other s cpu lock l n idle (h.queue_of l)
        ])
  Step-HasQueue {s} (turns cpu low) h l = elim (turn_cases level s cpu) [
    | inl q ↦ subst (λ t. HasQueue t l) (sym q) (h.queue_of l)
    | inr (w, e, turn, q) ↦
        subst (λ t. HasQueue t l) (sym q) (entered_any s cpu w l e turn (h.queue_of l))
  ]
  Step-HasQueue {s} (releases cpu lock r rs low idle q own e) h l =
      subst (λ t. HasQueue t l) (release_cases level s cpu lock r rs q e)
        (elim (ℕ_discrete l lock) [
          | yes z ↦
              subst (HasQueue (released level s cpu lock r rs)) (sym z)
                (released_own s cpu lock r rs q idle own h)
          | no n ↦ released_other s cpu lock l r rs q own n (h.queue_of l)
        ])
