-- ===== src/Core/Klock/Order.antt =====
-- The order of the locks of src/core/klock.c on one CPU, and what it makes of the depth.
use mich_core.Base.{
  some_inj, ℕ, ◌<◌, ◌≤◌, ◌≡◌, ◌≢◌, ◌⊎◌, inl, inr, refl, sym, ap, subst, arith, Bool, true, false,
  not, ◌||◌, none, some, List, [], ◌∷◌, leb, ◌==◌, length, Bool-cases, Option-cases, ℕ_discrete,
}
use mich_core.Core.Klock.{
  klock_depth_max, klock_level_pmm, KlockRecord, Spin, KlockCpu, KlockSystem, klock_order_ok,
  top_level, put, begun, acquire_begin, entered, acquire_turn, released, klock_release, Step,
  begins, turns, releases,
}

pub put_self : {A : Type 0} (f : ℕ → A) (i : ℕ) (x : A) → put f i x i ≡ x
put_self f i x = let e : (i == i) ≡ true = ground arith in rw e refl

pub put_ne : {A : Type 0} (f : ℕ → A) (i j : ℕ) (x : A) → j ≢ i → put f i x j ≡ f j
put_ne f i j x h = let e : (j == i) ≡ false = ground arith in rw e refl

-- A property of an array after one element is replaced.
pub put_cases :
    {A : Type 0} (P : ℕ → A → Type 0) (f : ℕ → A) (i : ℕ) (x : A)
    → P i x
    → ((j : ℕ) → j ≢ i → P j (f j))
    → (j : ℕ) → P j (put f i x j)
put_cases P f i x h there j = elim (ℕ_discrete j i) [
  | yes q ↦ rw (q, put_self f i x) h
  | no q ↦ rw (put_ne f i j x q) (there j q)
]

-- A lock is among the records.
abbrev pub HasLock : ℕ → List KlockRecord → Type 0
HasLock lock [] = ⊥
HasLock lock (r ∷ rs) = (r.lock ≡ lock) ⊎ HasLock lock rs

module _ (level : ℕ → ℕ) where
  -- The levels fall from the newest record on, down to 1, and are those of the locks.
  abbrev pub IsOrdered : List KlockRecord → Type 0
  IsOrdered [] = Unit
  IsOrdered (r ∷ rs) =
      (r.level ≡ level r.lock)
      × (top_level rs < r.level)
      × (r.level ≤ klock_level_pmm)
      × IsOrdered rs

  -- Only the oldest record has other flags than off.
  abbrev pub IsMasked : List KlockRecord → Bool → Type 0
  IsMasked [] flags = Unit
  IsMasked (r ∷ rs) flags = (flags ≡ false) × IsMasked rs r.flags

  -- A CPU takes locks in ascending order, with interrupts off from the first to the last.
  pub record IsCpu (c : KlockCpu) : Type 0 where
    pub ordered : IsOrdered c.records
    pub masked : IsMasked c.records c.interrupts
    pub above : (w : Spin) → c.spin ≡ some w → top_level c.records < level w.lock
    pub spin_masked :
        (w : Spin) → c.spin ≡ some w → (c.interrupts ≡ false) × IsMasked c.records w.flags

  quiet : (rs : List KlockRecord) (flags : Bool) → IsMasked rs flags → IsMasked rs false
  quiet [] flags h = h
  quiet (r ∷ rs) flags (a, b) = (refl, b)

  pub depth-top_level : (rs : List KlockRecord) → IsOrdered rs → length rs ≤ top_level rs
  depth-top_level [] h = omega arith
  depth-top_level (r ∷ rs) (a, b, c, d) = let below = depth-top_level rs d in omega arith

  pub HasLock-level :
      (lock : ℕ) (rs : List KlockRecord)
      → IsOrdered rs
      → HasLock lock rs
      → level lock ≤ top_level rs
  HasLock-level lock [] h k = absurd k
  HasLock-level lock (r ∷ rs) (a, b, c, d) k = elim k [
    | inl q ↦ let same = ap level q in omega arith
    | inr q ↦ let below = HasLock-level lock rs d q in omega arith
  ]

  pub begin_cases :
      {s' : KlockSystem} (s : KlockSystem) (cpu lock : ℕ)
      → acquire_begin level s cpu lock ≡ some s'
      → (begun level s cpu lock ≡ s') × (top_level (s.cpus cpu).records < level lock)
  unfolding acquire_begin
  begin_cases s cpu lock e =
      let refused =
        leb klock_depth_max (length (s.cpus cpu).records)
        || not (klock_order_ok (top_level (s.cpus cpu).records) (level lock)) in
      elim (Bool-cases refused) [
        | inl t ↦ let no : acquire_begin level s cpu lock ≡ none = rw t refl in cc
        | inr f ↦
            let got : acquire_begin level s cpu lock ≡ some (begun level s cpu lock) = rw f refl in
            (cc, ground arith)
      ]

  pub release_cases :
      {s' : KlockSystem} (s : KlockSystem) (cpu lock : ℕ) (r : KlockRecord) (rs : List KlockRecord)
      → (s.cpus cpu).records ≡ r ∷ rs
      → klock_release level s cpu lock ≡ some s'
      → released level s cpu lock r rs ≡ s'
  unfolding klock_release
  release_cases s cpu lock r rs q e = elim (Bool-cases (r.level == level lock)) [
    | inl t ↦
        let got : klock_release level s cpu lock ≡ some (released level s cpu lock r rs) =
          rw (q, t, klock_release) refl in
        cc
    | inr f ↦ let no : klock_release level s cpu lock ≡ none = rw (q, f, klock_release) refl in cc
  ]

  pub turn_cases :
      (s : KlockSystem) (cpu : ℕ)
      → (acquire_turn level s cpu ≡ s)
        ⊎ ((w : Spin) × ((s.cpus cpu).spin ≡ some w)
            × ((s.locks w.lock).served ≡ w.mine)
            × (acquire_turn level s cpu ≡ entered level s cpu w))
  unfolding acquire_turn
  turn_cases s cpu = elim (Option-cases (s.cpus cpu).spin) [
    | inl e ↦ inl (rw (e, acquire_turn) refl)
    | inr (w, e) ↦ elim (Bool-cases ((s.locks w.lock).served == w.mine)) [
      | inl t ↦ inr (w, e, ground arith, rw (e, t, acquire_turn) refl)
      | inr f ↦ inl (rw (e, f, acquire_turn) refl)
    ]
  ]

  begun-IsCpu :
      (s : KlockSystem) (cpu lock : ℕ)
      → top_level (s.cpus cpu).records < level lock
      → (s.cpus cpu).spin ≡ none
      → ((j : ℕ) → IsCpu (s.cpus j))
      → (j : ℕ) → IsCpu ((begun level s cpu lock).cpus j)
  begun-IsCpu s cpu lock over idle h =
      let c = s.cpus cpu in
      let i = h cpu in
      put_cases (λ j c. IsCpu c) s.cpus cpu
        (record c {
          spin = some (record { lock = lock; mine = (s.locks lock).ticket; flags = c.interrupts });
          interrupts = false;
        })
        (record {
          ordered = i.ordered;
          masked = quiet c.records c.interrupts i.masked;
          above = λ w e.
              let same : lock ≡ w.lock = ap (λ (x : Spin). x.lock) (some_inj e) in rw (← same) over;
          spin_masked = λ w e.
              let same : c.interrupts ≡ w.flags = ap (λ (x : Spin). x.flags) (some_inj e) in
              (refl, rw (← same) i.masked);
        })
        (λ j q. h j)

  entered-IsCpu :
      (s : KlockSystem) (cpu : ℕ) (w : Spin)
      → level w.lock ≤ klock_level_pmm
      → (s.cpus cpu).spin ≡ some w
      → ((j : ℕ) → IsCpu (s.cpus j))
      → (j : ℕ) → IsCpu ((entered level s cpu w).cpus j)
  entered-IsCpu s cpu w low e h =
      let c = s.cpus cpu in
      let i = h cpu in
      put_cases (λ j c. IsCpu c) s.cpus cpu
        (record c {
          records = record { lock = w.lock; level = level w.lock; flags = w.flags } ∷ c.records;
          spin = none;
        })
        (record {
          ordered = (refl, i.above w e, low, i.ordered);
          masked = i.spin_masked w e;
          above = λ x q. cc;
          spin_masked = λ x q. cc;
        })
        (λ j q. h j)

  released-IsCpu :
      (s : KlockSystem) (cpu lock : ℕ) (r : KlockRecord) (rs : List KlockRecord)
      → (s.cpus cpu).records ≡ r ∷ rs
      → (s.cpus cpu).spin ≡ none
      → ((j : ℕ) → IsCpu (s.cpus j))
      → (j : ℕ) → IsCpu ((released level s cpu lock r rs).cpus j)
  released-IsCpu s cpu lock r rs q idle h =
      let c = s.cpus cpu in
      let i = h cpu in
      let (a, b, low, rest) : IsOrdered (r ∷ rs) = subst IsOrdered q i.ordered in
      let (off, masked) : IsMasked (r ∷ rs) c.interrupts =
        subst (λ l. IsMasked l c.interrupts) q i.masked in
      put_cases (λ j c. IsCpu c) s.cpus cpu (record c { records = rs; interrupts = r.flags })
        (record { ordered = rest; masked = masked; above = λ x e. cc; spin_masked = λ x e. cc })
        (λ j n. h j)

  -- Every step keeps the order and the interrupt flags of every CPU. The levels are those of klock.h.
  pub Step-IsCpu :
      {s s' : KlockSystem}
      → ((lock : ℕ) → level lock ≤ klock_level_pmm)
      → Step level s s'
      → ((j : ℕ) → IsCpu (s.cpus j))
      → (j : ℕ) → IsCpu (s'.cpus j)
  Step-IsCpu {s} low (begins cpu lock k idle e) h =
      let (q, over) = begin_cases s cpu lock e in
      subst (λ (t : KlockSystem). (j : ℕ) → IsCpu (t.cpus j)) q (begun-IsCpu s cpu lock over idle h)
  Step-IsCpu {s} low (turns cpu k) h = elim (turn_cases s cpu) [
    | inl q ↦ subst (λ (t : KlockSystem). (j : ℕ) → IsCpu (t.cpus j)) (sym q) h
    | inr (w, e, turn, q) ↦
        subst (λ (t : KlockSystem). (j : ℕ) → IsCpu (t.cpus j)) (sym q)
          (entered-IsCpu s cpu w (low w.lock) e h)
  ]
  Step-IsCpu {s} low (releases cpu lock r rs k idle q own e) h =
      subst (λ (t : KlockSystem). (j : ℕ) → IsCpu (t.cpus j)) (release_cases s cpu lock r rs q e)
        (released-IsCpu s cpu lock r rs q idle h)
