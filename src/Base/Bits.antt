-- ===== src/Base/Bits.antt =====
-- Laws of `bit_and` at variables, from the recursion on binary digits.
use Prim.Native.Nat.{
  ℕ, zero, suc, ◌+◌, ◌-◌, ◌*◌, ◌/◌, ◌%◌, ◌^◌, ◌≤◌, ◌<◌, min, bit_and, digits, bit_and-bitwise,
}
use mathlib.Core.Path.{◌≡◌, refl, sym, ap, ◌∙◌}
use mathlib.Core.Bool.{Bool, true, ◌&&◌}
use native.Mathlib.Omega.{arith}
use native.Mathlib.Nat.{pow-suc, one-le-pow, div-add-mod}
use native.Mathlib.Decide.{dec_lt}

-- A Boolean test of every number below a bound, for tables that are checked by evaluation.
unfoldable pub all_below : ℕ → (ℕ → Bool) → Bool
all_below zero test = true
all_below (suc bound) test = all_below bound test && test bound

pub all_below_sound :
    (bound x : ℕ) (test : ℕ → Bool) → x < bound → all_below bound test ≡ true → test x ≡ true
unfolding all_below
all_below_sound zero x test lt h = absurd (omega arith)
all_below_sound (suc bound) x test lt h = ground (arith, all_below_sound bound x test)

-- The recursion that `bit_and` stands for, with `steps` digits at most.
abbrev meet : ℕ → ℕ → ℕ → ℕ
meet steps = digits (λ d. zero) min steps

meet-zero : (steps y : ℕ) → meet steps 0 y ≡ 0
meet-zero zero y = refl
meet-zero (suc steps) y = refl

-- A number has no more digits than its value, so more steps change nothing.
meet_settled : (x y s t : ℕ) → x ≤ t → x ≤ s → meet s x y ≡ meet t x y
meet_settled zero y s t below_t below_s = meet-zero s y ∙ sym (meet-zero t y)
meet_settled (suc x) y zero t below_t below_s = absurd (omega arith)
meet_settled (suc x) y (suc s) zero below_t below_s = absurd (omega arith)
meet_settled (suc x) y (suc s) (suc t) below_t below_s =
    let tail = meet_settled (suc x / 2) (y / 2) s t (omega arith) (omega arith) in
    omega (arith, tail)

-- The lowest digits meet, and the rest does.
pub bit_and_step : (x y : ℕ) → bit_and x y ≡ bit_and (x / 2) (y / 2) * 2 + min (x % 2) (y % 2)
bit_and_step zero y =
    let none_set : (z : ℕ) → bit_and 0 z ≡ 0 = λ z. bit_and-bitwise 0 z in
    omega (arith, none_set (y / 2), none_set y)
bit_and_step (suc x) y =
    let settled = meet_settled (suc x / 2) (y / 2) x (suc x / 2) (omega arith) (omega arith) in
    let whole = bit_and-bitwise (suc x) y in
    omega (arith, whole, settled, bit_and-bitwise (suc x / 2) (y / 2))

self_fuel : (n a : ℕ) → a ≤ n → bit_and a a ≡ a
self_fuel n zero h = refl
self_fuel zero (suc a) h = absurd (omega arith)
self_fuel (suc n) (suc a) h =
    omega (arith, bit_and_step (suc a) (suc a), self_fuel n (suc a / 2) (omega arith))

pub bit_and_self : (a : ℕ) → bit_and a a ≡ a
bit_and_self a = self_fuel a a (omega arith)

low_run_fuel :
    (n k i : ℕ) → i ≤ n → i < 2 ^ k → bit_and i (i + 1) ≡ 0 → (j : ℕ) × (j ≤ k) × (i + 1 ≡ 2 ^ j)
low_run_fuel n k zero h b e = (0, omega arith, refl)
low_run_fuel zero k (suc i) h b e = absurd (omega arith)
low_run_fuel (suc n) zero (suc i) h b e = absurd (omega arith)
low_run_fuel (suc n) (suc k) (suc i) h b e = elim (dec_lt (suc i % 2) 1) [
  | yes even ↦ absurd (
      let same : (suc i + 1) / 2 ≡ suc i / 2 = omega arith in
      omega (
        arith,
        bit_and_step (suc i) (suc i + 1),
        ap (bit_and (suc i / 2)) same,
        bit_and_self (suc i / 2),
      ))
  | no odd ↦
      let next : (suc i + 1) / 2 ≡ suc i / 2 + 1 = omega arith in
      let (j, le, eq) =
        low_run_fuel n k (suc i / 2) (omega arith) (omega (arith, pow-suc 2 k))
          (omega (arith, bit_and_step (suc i) (suc i + 1), ap (bit_and (suc i / 2)) next)) in
      (suc j, omega arith, omega (arith, pow-suc 2 j))
]

-- A number that shares no bit with its successor is a run of ones from bit 0 up.
pub low_run : (k i : ℕ) → i < 2 ^ k → bit_and i (i + 1) ≡ 0 → (j : ℕ) × (j ≤ k) × (i + 1 ≡ 2 ^ j)
low_run k i = low_run_fuel i k i (omega arith)

no_bits : (bound x : ℕ) → x < bound → bit_and x 0 ≡ 0
no_bits zero x lt = absurd (omega arith)
no_bits (suc bound) zero lt = bit_and-bitwise 0 0
no_bits (suc bound) (suc x) lt =
    let halved = no_bits bound (suc x / 2) (omega arith) in
    omega (arith, halved, bit_and_step (suc x) 0)

pub bit_and-zero : (x : ℕ) → bit_and x 0 ≡ 0
bit_and-zero x = no_bits (suc x) x (omega arith)

low_part : (k a q r : ℕ) → a ≡ q * 2 ^ k + r → r < 2 ^ k → bit_and a (2 ^ k - 1) ≡ r
low_part zero a q r e h = omega (arith, bit_and-zero a)
low_part (suc k) a q r e h =
    let twice : q * 2 ^ suc k ≡ 2 * (q * 2 ^ k) =
      omega (arith, ap (λ (t : ℕ). q * t) (pow-suc 2 k)) in
    let half = pow-suc 2 k in
    let mask : (2 ^ suc k - 1) / 2 ≡ 2 ^ k - 1 = omega (arith, half) in
    omega (
      arith,
      half,
      bit_and_step a (2 ^ suc k - 1),
      ap (bit_and (a / 2)) mask,
      low_part k (a / 2) q (r / 2) (omega (arith, twice)) (omega (arith, half)),
    )

-- A mask of `k` low bits takes the remainder by `2 ^ k`.
pub bit_and_mask : (k a : ℕ) → bit_and a (2 ^ k - 1) ≡ a % 2 ^ k
bit_and_mask k a =
    low_part k a (a / 2 ^ k) (a % 2 ^ k) (grind (arith, div-add-mod, one-le-pow k 2))
      (grind (arith, one-le-pow k 2))

without_step :
    (k r s : ℕ)
    → s < 2 ^ suc k
    → bit_and r (2 ^ suc k - 1 - s)
      ≡ bit_and (r / 2) (2 ^ k - 1 - s / 2) * 2 + min (r % 2) (1 - s % 2)
without_step k r s h =
    let half = pow-suc 2 k in
    let rest : (2 ^ suc k - 1 - s) / 2 ≡ 2 ^ k - 1 - s / 2 = omega (arith, half) in
    omega (arith, half, bit_and_step r (2 ^ suc k - 1 - s), ap (bit_and (r / 2)) rest)

-- Bits of `r` that `s` lacks: where there are none, `r` is a subset of `s`, which is transitive.
pub without_trans :
    (k r s t : ℕ)
    → r < 2 ^ k
    → s < 2 ^ k
    → t < 2 ^ k
    → bit_and r (2 ^ k - 1 - s) ≡ 0
    → bit_and s (2 ^ k - 1 - t) ≡ 0
    → bit_and r (2 ^ k - 1 - t) ≡ 0
without_trans zero r s t hr hs ht p q =
    let none_left : 2 ^ 0 - 1 - t ≡ 0 = omega arith in ap (bit_and r) none_left ∙ bit_and-zero r
without_trans (suc k) r s t hr hs ht p q =
    let half = pow-suc 2 k in
    omega (
      arith,
      half,
      without_step k r s hs,
      without_step k s t ht,
      without_step k r t ht,
      without_trans k (r / 2) (s / 2) (t / 2) (omega (arith, half)) (omega (arith, half))
          (omega (arith, half)) (omega (arith, without_step k r s hs))
          (omega (arith, without_step k s t ht)),
    )
