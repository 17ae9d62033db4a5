-- ===== src/Base/Tables.antt =====
-- Fixed tables of slots: the search loops that stop at the first fit, and the counting loops.
use Prim.Native.Nat.{ℕ, zero, suc, ◌+◌, ◌<◌}
use mathlib.Core.Path.{◌≡◌, refl}
use mathlib.Core.Bool.{Bool, true, false, not}
use mathlib.Core.List.{List, [], ◌∷◌}
use mathlib.Core.Option.{Option, none, some}
use native.Mathlib.Omega.{arith}
use mich_core.Base.Tests.{if◌then◌else◌, bit}
use mich_core.Base.Lists.{
  length, get_or, set, replicate, length-set, get_or-set_self, get_or-set_ne,
}

abbrev pub next_index : Option ℕ → Option ℕ
next_index none = none
next_index (some i) = some (suc i)

module _ {ℓ} {A : Type ℓ} where
  -- The index of the first slot that passes the test.
  unfoldable pub find_index : (A → Bool) → List A → Option ℕ
  find_index p [] = none
  find_index p (x ∷ xs) = if p x then some 0 else next_index (find_index p xs)

  -- The slots that pass the test, counted.
  unfoldable pub count_if : (A → Bool) → List A → ℕ
  count_if p [] = 0
  count_if p (x ∷ xs) = bit (p x) + count_if p xs

  pub find_index-some :
      (p : A → Bool) (xs : List A) (d : A) {i : ℕ}
      → find_index p xs ≡ some i
      → (i < length xs) × (p (get_or xs i d) ≡ true)
  unfolding find_index
  find_index-some p [] d e = absurd (ground arith)
  find_index-some p (x ∷ xs) d {i = zero} e = ground arith
  find_index-some p (x ∷ xs) d {i = suc i} e =
      let (a, b) = find_index-some p xs d {i = i} (ground arith) in (omega arith, b)

  pub find_index-first :
      (p : A → Bool) (xs : List A) (d : A) {i : ℕ} (j : ℕ)
      → find_index p xs ≡ some i
      → j < i
      → p (get_or xs j d) ≡ false
  unfolding find_index
  find_index-first p [] d j e h = absurd (ground arith)
  find_index-first p (x ∷ xs) d {i = zero} j e h = absurd (omega arith)
  find_index-first p (x ∷ xs) d {i = suc i} zero e h = ground arith
  find_index-first p (x ∷ xs) d {i = suc i} (suc j) e h =
      find_index-first p xs d {i = i} j (ground arith) (omega arith)

  pub find_index-none :
      (p : A → Bool) (xs : List A) (d : A) (j : ℕ)
      → find_index p xs ≡ none
      → j < length xs
      → p (get_or xs j d) ≡ false
  unfolding find_index
  find_index-none p [] d j e h = absurd (omega arith)
  find_index-none p (x ∷ xs) d zero e h = ground arith
  find_index-none p (x ∷ xs) d (suc j) e h = find_index-none p xs d j (ground arith) (omega arith)

  pub find_index-of_first :
      (p : A → Bool) (xs : List A) (d : A) (i : ℕ)
      → i < length xs
      → p (get_or xs i d) ≡ true
      → ((j : ℕ) → j < i → p (get_or xs j d) ≡ false)
      → find_index p xs ≡ some i
  unfolding find_index
  find_index-of_first p [] d i h t f = absurd (omega arith)
  find_index-of_first p (x ∷ xs) d zero h t f = ground arith
  find_index-of_first p (x ∷ xs) d (suc i) h t f = ground (
    arith,
    f 0 (omega arith),
    find_index-of_first p xs d i (omega arith) t (λ j g. f (suc j) (omega arith)),
  )

  -- A slot that passes the test is found where it was written.
  pub find_index-set_hit :
      (p : A → Bool) (xs : List A) (d v : A) {i : ℕ}
      → find_index p xs ≡ some i
      → p v ≡ true
      → find_index p (set xs i v) ≡ some i
  find_index-set_hit p xs d v {i} e h =
      let b = (find_index-some p xs d {i = i} e).0 in
      find_index-of_first p (set xs i v) d i (omega (arith, length-set xs i v, b))
        (rw (get_or-set_self xs i v d b) h)
        λ j lt.
          rw (get_or-set_ne xs {i = i} {j = j} v d (λ z. omega arith))
            (find_index-first p xs d {i = i} j e lt)

  pub find_index-set_new :
      (p : A → Bool) (xs : List A) (d v : A) (i : ℕ)
      → find_index p xs ≡ none
      → i < length xs
      → p v ≡ true
      → find_index p (set xs i v) ≡ some i
  find_index-set_new p xs d v i e b h =
      find_index-of_first p (set xs i v) d i (omega (arith, length-set xs i v))
        (rw (get_or-set_self xs i v d b) h)
        λ j lt.
          rw (get_or-set_ne xs {i = i} {j = j} v d (λ z. omega arith))
            (find_index-none p xs d j e (omega arith))

  -- A write between two values that fail the test changes no search.
  pub find_index-set_other :
      (p : A → Bool) (xs : List A) (d v : A) (i : ℕ)
      → p (get_or xs i d) ≡ false
      → p v ≡ false
      → find_index p (set xs i v) ≡ find_index p xs
  unfolding find_index
  find_index-set_other p [] d v i old new = refl
  find_index-set_other p (x ∷ xs) d v zero old new = rw (old, new)
  find_index-set_other p (x ∷ xs) d v (suc i) old new = rw (find_index-set_other p xs d v i old new)

  pub count_if-set :
      (p : A → Bool) (xs : List A) (d v : A) (i : ℕ)
      → i < length xs
      → count_if p (set xs i v) + bit (p (get_or xs i d)) ≡ count_if p xs + bit (p v)
  unfolding count_if
  count_if-set p [] d v i h = absurd (omega arith)
  count_if-set p (x ∷ xs) d v zero h = omega arith
  count_if-set p (x ∷ xs) d v (suc i) h = omega (arith, count_if-set p xs d v i (omega arith))

  -- A slot that starts, or stops, passing the test.
  pub count_if-set_gain :
      (p : A → Bool) (xs : List A) (d v : A) (i : ℕ)
      → i < length xs
      → p (get_or xs i d) ≡ false
      → p v ≡ true
      → count_if p (set xs i v) ≡ count_if p xs + 1
  count_if-set_gain p xs d v i h old new = ground (arith, count_if-set p xs d v i h)

  pub count_if-set_lose :
      (p : A → Bool) (xs : List A) (d v : A) (i : ℕ)
      → i < length xs
      → p (get_or xs i d) ≡ true
      → p v ≡ false
      → count_if p (set xs i v) + 1 ≡ count_if p xs
  count_if-set_lose p xs d v i h old new = ground (arith, count_if-set p xs d v i h)

  pub count_if-pos :
      (p : A → Bool) (xs : List A) (d : A) (i : ℕ)
      → i < length xs
      → p (get_or xs i d) ≡ true
      → 0 < count_if p xs
  unfolding count_if
  count_if-pos p [] d i h e = absurd (omega arith)
  count_if-pos p (x ∷ xs) d zero h e = rw e (omega arith)
  count_if-pos p (x ∷ xs) d (suc i) h e = omega (arith, count_if-pos p xs d i (omega arith) e)

  pub count_if-not :
      (p : A → Bool) (xs : List A) → count_if p xs + count_if (λ x. not (p x)) xs ≡ length xs
  unfolding count_if
  count_if-not p [] = omega arith
  count_if-not p (x ∷ xs) = ground (arith, count_if-not p xs)

  pub count_if-replicate :
      (p : A → Bool) (n : ℕ) (a : A) → p a ≡ false → count_if p (replicate n a) ≡ 0
  unfolding count_if
  count_if-replicate p zero a h = refl
  count_if-replicate p (suc n) a h = rw h (omega (arith, count_if-replicate p n a h))

  pub find_index-none_iff_count :
      (p : A → Bool) (xs : List A) → find_index p xs ≡ none → count_if p xs ≡ 0
  unfolding find_index count_if
  find_index-none_iff_count p [] e = refl
  find_index-none_iff_count p (x ∷ xs) e = ground (arith, find_index-none_iff_count p xs)

module _ {ℓ} {A : Type ℓ} where
  -- Slots that pass the test in a table of rows.
  unfoldable pub count_rows : (A → Bool) → List (List A) → ℕ
  count_rows p [] = 0
  count_rows p (r ∷ rs) = count_if p r + count_rows p rs

  pub count_rows-set :
      (p : A → Bool) (rows : List (List A)) (i : ℕ) (r : List A)
      → i < length rows
      → count_rows p (set rows i r) + count_if p (get_or rows i [])
        ≡ count_rows p rows + count_if p r
  unfolding count_rows
  count_rows-set p [] i r h = absurd (omega arith)
  count_rows-set p (x ∷ xs) zero r h = omega arith
  count_rows-set p (x ∷ xs) (suc i) r h = omega (arith, count_rows-set p xs i r (omega arith))

  -- The effect of one write on the count.
  pub count_rows-set_slot :
      (p : A → Bool) (rows : List (List A)) (i j : ℕ) (d v : A)
      → i < length rows
      → j < length (get_or rows i [])
      → count_rows p (set rows i (set (get_or rows i []) j v))
          + bit (p (get_or (get_or rows i []) j d))
        ≡ count_rows p rows + bit (p v)
  count_rows-set_slot p rows i j d v h k = omega (
    arith,
    count_rows-set p rows i (set (get_or rows i []) j v) h,
    count_if-set p (get_or rows i []) d v j k,
  )

  pub count_rows-replicate :
      (p : A → Bool) (n m : ℕ) (a : A)
      → p a ≡ false
      → count_rows p (replicate n (replicate m a)) ≡ 0
  unfolding count_rows
  count_rows-replicate p zero m a h = refl
  count_rows-replicate p (suc n) m a h =
      omega (arith, count_if-replicate p m a h, count_rows-replicate p n m a h)
