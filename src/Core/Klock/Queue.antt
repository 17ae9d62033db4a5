-- ===== src/Core/Klock/Queue.antt =====
-- The tickets of a lock of src/core/klock.c: the CPUs that wait for it or hold it, in the order of
-- their tickets. Tickets wrap at 2 ^ 32, and no two in the queue are equal.
use mich_core.Base.{
  ℕ, zero, suc, ◌<◌, ◌≤◌, ◌≡◌, ◌≢◌, ◌⊎◌, inl, inr, refl, sym, ◌∙◌, arith, ℕ_discrete,
}
use mich_core.Core.Klock.{put}
use mich_core.Core.Klock.Order.{put_cases}

-- The values of `f` below `n` differ.
abbrev pub IsApart : (ℕ → ℕ) → ℕ → Type 0
IsApart f n = (i j : ℕ) → i < n → j < n → f i ≡ f j → i ≡ j

-- Whether `f` takes the value `x` below `n`.
taken_cases : (f : ℕ → ℕ) (x n : ℕ) → ((i : ℕ) × (i < n) × (f i ≡ x)) ⊎ ((i : ℕ) → i < n → f i ≢ x)
taken_cases f x zero = inr (λ i h. absurd (omega arith))
taken_cases f x (suc n) = elim (ℕ_discrete (f n) x) [
  | yes q ↦ inl (n, omega arith, q)
  | no q ↦ elim (taken_cases f x n) [
    | inl (i, h, e) ↦ inl (i, omega arith, e)
    | inr h ↦ inr (λ i k. elim (ℕ_discrete i n) [ yes z ↦ rw z q | no z ↦ h i (omega arith) ])
  ]
]

-- The last value is moved to the place `i`.
moved-IsApart : (f : ℕ → ℕ) (i n : ℕ) → i < suc n → IsApart f (suc n) → IsApart (put f i (f n)) n
moved-IsApart f i n k apart a b h h' =
    put_cases (λ x y. x < n → y ≡ put f i (f n) b → x ≡ b) f i (f n)
      (λ z.
        put_cases (λ x y. x < n → f n ≡ y → i ≡ x) f i (f n) (λ w q. refl)
          (λ x q w e. let same = apart n x (omega arith) (omega arith) e in absurd (omega arith)) b
          h')
      (λ x q z.
        put_cases (λ y v. y < n → f x ≡ v → x ≡ y) f i (f n)
          (λ w e. let same = apart x n (omega arith) (omega arith) e in absurd (omega arith))
          (λ y p w e. apart x y (omega arith) (omega arith) e) b h')
      a h

moved_low :
    (f : ℕ → ℕ) (i m n : ℕ)
    → i < suc n
    → f i ≡ m
    → ((j : ℕ) → j < suc n → f j < suc m)
    → IsApart f (suc n)
    → (j : ℕ) → j < n
    → put f i (f n) j < m
moved_low f i m n k e low apart =
    put_cases (λ j v. j < n → v < m) f i (f n)
      (λ h.
        let a = low n (omega arith) in
        let b : f n ≢ m = λ q. let same = apart n i (omega arith) k (q ∙ sym e) in omega arith in
        omega arith)
      (λ j q h.
        let a = low j (omega arith) in
        let b : f j ≢ m = λ p. q (apart j i (omega arith) k (p ∙ sym e)) in omega arith)

-- At most `m` values below `m` differ.
pub pigeonhole : (m n : ℕ) (f : ℕ → ℕ) → ((i : ℕ) → i < n → f i < m) → IsApart f n → n ≤ m
pigeonhole zero zero f low apart = omega arith
pigeonhole zero (suc n) f low apart = let none_left = low n (omega arith) in omega arith
pigeonhole (suc m) zero f low apart = omega arith
pigeonhole (suc m) (suc n) f low apart = elim (taken_cases f m (suc n)) [
  | inr h ↦
      let fewer =
        pigeonhole m (suc n) f (λ i k. let a = low i k in let b = h i k in omega arith) apart in
      omega arith
  | inl (i, k, e) ↦
      let g = put f i (f n) in
      let fewer =
        pigeonhole m n g (moved_low f i m n k e low apart) (moved-IsApart f i n k apart) in
      omega arith
]
