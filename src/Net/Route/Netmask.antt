-- ===== src/Net/Route/Netmask.antt =====
-- `netmask_prefix` of src/net/route.c against the masks of each prefix length.
use mich_core.Base.{
  ℕ, ◌+◌, ◌-◌, ◌≤◌, ◌<◌, ◌^◌, Bool, true, false, Option, none, some, ◌≡◌, refl, ◌↔◌, arith, ◌==◌,
  bit_and, ap, sym, ◌∙◌, dec_lt, ◌%◌,
}
use mich_core.Base.Bits.{all_below, all_below_sound, low_run}
use mich_core.Net.Route.{leading_ones, netmask_prefix}

-- The mask of `p` leading ones.
abbrev pub mask_of : ℕ → ℕ
mask_of p = 2 ^ 32 - 2 ^ (32 - p)

abbrev is_prefix : ℕ → Option ℕ → Bool
is_prefix p none = false
is_prefix p (some q) = p == q

prefix_table : all_below 33 (λ p. is_prefix p (netmask_prefix (mask_of p))) ≡ true
unfolding all_below netmask_prefix leading_ones
prefix_table = refl

is_prefix-eq : (p : ℕ) (o : Option ℕ) → is_prefix p o ≡ true → o ≡ some p
is_prefix-eq p none h = ground arith
is_prefix-eq p (some q) h = ground arith

-- Every mask of at most 32 leading ones is read as its number of ones.
pub netmask_prefix-mask_of : (p : ℕ) → p ≤ 32 → netmask_prefix (mask_of p) ≡ some p
netmask_prefix-mask_of p h = is_prefix-eq p _ (
    all_below_sound 33 p (λ p. is_prefix p (netmask_prefix (mask_of p))) (omega arith) prefix_table)

contiguous :
    (m p : ℕ)
    → m < 2 ^ 32
    → netmask_prefix m ≡ some p
    → bit_and (2 ^ 32 - 1 - m) ((2 ^ 32 - 1 - m + 1) % 2 ^ 32) ≡ 0
unfolding netmask_prefix
contiguous m p h e = ground arith

mask_of-some :
    (m : ℕ)
    → m < 2 ^ 32
    → (p : ℕ) → netmask_prefix m ≡ some p
    → (q : ℕ) × (q ≤ 32) × (m ≡ mask_of q)
mask_of-some m h p e = elim (dec_lt 0 m) [
  | no z ↦ (0, omega arith, omega arith)
  | yes pos ↦
      let wrap : (2 ^ 32 - 1 - m + 1) % 2 ^ 32 ≡ 2 ^ 32 - 1 - m + 1 = omega arith in
      let (j, le, eq) =
        low_run 32 (2 ^ 32 - 1 - m) (omega arith)
          (ap (bit_and (2 ^ 32 - 1 - m)) (sym wrap) ∙ contiguous m p h e) in
      let back : 32 - (32 - j) ≡ j = omega arith in (32 - j, omega arith, rw back (omega arith))
]

-- `netmask_prefix` accepts a 32-bit mask exactly when it is `p` ones followed by zeros, and then
-- answers `p`.
pub netmask_prefix_iff :
    (m p : ℕ) → m < 2 ^ 32 → (netmask_prefix m ≡ some p) ↔ ((p ≤ 32) × (m ≡ mask_of p))
netmask_prefix_iff m p h = (forth, back)
  where
    forth : netmask_prefix m ≡ some p → (p ≤ 32) × (m ≡ mask_of p)
    forth e =
        let (q, le, eq) = mask_of-some m h p e in
        let same : some q ≡ some p =
          sym (netmask_prefix-mask_of q le) ∙ ap netmask_prefix (sym eq) ∙ e in
        let pq : q ≡ p = ground arith in (omega arith, eq ∙ ap mask_of pq)

    back : (p ≤ 32) × (m ≡ mask_of p) → netmask_prefix m ≡ some p
    back e = rw (e.1) (netmask_prefix-mask_of p e.0)
