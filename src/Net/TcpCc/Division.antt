-- ===== src/Net/TcpCc/Division.antt =====
-- `div64_by_32` of src/net/tcp_cc.c against division.
use mich_core.Base.{
  ℕ, zero, suc, ◌+◌, ◌-◌, ◌*◌, ◌/◌, ◌%◌, ◌^◌, ◌<◌, ◌≤◌, ◌≡◌, sym, ap, ◌∙◌, arith, leb, Bool-cases,
  inl, inr,
}
use native.Mathlib.Nat.{pow-suc, one-le-pow, mul-le-mul_left, div-eq_of_lt-le, div-div-eq-div-mul}
use mich_core.Net.TcpCc.{divide_low, div64_by_32}

halve : (m : ℕ) → m ≡ m / 2 * 2 + m % 2
halve m = omega arith

halve_power : (n bits : ℕ) → n / 2 ^ bits ≡ n / (2 ^ bits * 2) * 2 + n / 2 ^ bits % 2
halve_power n bits =
    halve (n / 2 ^ bits) ∙ ap (λ q. q * 2 + n / 2 ^ bits % 2) (div-div-eq-div-mul n (2 ^ bits) 2)

quotient : (n d q r : ℕ) → r < d → n ≡ q * d + r → q ≡ n / d
quotient n d q r lt e = sym (div-eq_of_lt-le d (omega arith) (omega arith))

at_least_once : (a p : ℕ) → 1 ≤ p → a ≤ a * p
at_least_once a p h = omega (arith, mul-le-mul_left a h)

divide_low_lem :
    (bits n d rem res : ℕ)
    → rem < d
    → d ≤ 2 ^ 31
    → n / 2 ^ bits ≡ res * d + rem
    → (res + 1) * 2 ^ bits ≤ 2 ^ 32
    → divide_low bits n d rem res ≡ n / d
unfolding divide_low
divide_low_lem zero n d rem res lt small e room = quotient n d res rem lt (omega arith)
divide_low_lem (suc bits) n d rem res lt small e room =
    let b = n / 2 ^ bits % 2 in
    let p = 2 ^ bits in
    let fits : (res * 2 + 2) * p ≤ 2 ^ 32 =
      omega (arith, ap (λ (t : ℕ). (res + 1) * t) (pow-suc 2 bits)) in
    let low : res * 2 + 2 ≤ (res * 2 + 2) * p =
      at_least_once (res * 2 + 2) p (one-le-pow bits 2 (omega arith)) in
    let double : n / p ≡ (res * d + rem) * 2 + b =
      halve_power n bits ∙ ap (λ q. q * 2 + b) (ap (λ (t : ℕ). n / t) (sym (pow-suc 2 bits)) ∙ e) in
    let over : d ≤ rem * 2 + b → divide_low bits n d (rem * 2 + b - d) (res * 2 + 1) ≡ n / d = λ h.
      divide_low_lem bits n d (rem * 2 + b - d) (res * 2 + 1) (omega arith) small
        (omega (arith, double)) (omega (arith, fits)) in
    let under : rem * 2 + b < d → divide_low bits n d (rem * 2 + b) (res * 2 + 0) ≡ n / d = λ h.
      divide_low_lem bits n d (rem * 2 + b) (res * 2 + 0) h small (omega (arith, double))
        (omega (arith, fits, one-le-pow bits 2 (omega arith))) in
    let next : rem * 2 % 2 ^ 32 + b ≡ rem * 2 + b = omega arith in
    let res' : res * 2 % 2 ^ 32 ≡ res * 2 = omega (arith, fits, low) in
    rw (next, res')
      (elim (Bool-cases (leb d (rem * 2 + b))) [
        | inl t ↦ rw t (over (ground arith))
        | inr f ↦ rw f (under (ground arith))
      ])

-- The quotient of the source is the exact one, where it fits 32 bits and the divisor is at most
-- 2 ^ 31 (so that the doubled remainder of the loop fits too).
pub div64_by_32_lem : (n d : ℕ) → n / 2 ^ 32 < d → d ≤ 2 ^ 31 → div64_by_32 n d ≡ n / d
unfolding div64_by_32
div64_by_32_lem n d fits small =
    let high : n / 2 ^ 32 % 2 ^ 32 ≡ n / 2 ^ 32 = omega arith in
    rw high
      (ground (arith, divide_low_lem 32 n d (n / 2 ^ 32) 0 fits small (omega arith) (omega arith)))
