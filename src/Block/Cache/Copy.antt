-- ===== src/Block/Cache/Copy.antt =====
-- The copies of src/block/cache.c between a buffer and the contents of a page.
use mich_core.Base.{
  ℕ, zero, suc, ◌+◌, ◌-◌, ◌<◌, ◌≤◌, ◌≡◌, ◌⊎◌, inl, inr, refl, ◌∙◌, arith, List, get_or, set, length,
  length-set, get_or-set_self, get_or-set_ne, ℕ_discrete,
}
use mich_core.Block.Cache.{copy_sectors}

-- The sectors of the copy are those of the source, and the rest is as before.
pub copy_sectors_lem :
    {S : Type 0} (zero_sector : S) (n : ℕ) (dst : List S) (to : ℕ) (src : List S) (at : ℕ)
    → to + n ≤ length dst
    → let out = copy_sectors zero_sector n dst to src at in
      (length out ≡ length dst)
      × ((t : ℕ) → t < n → get_or out (to + t) zero_sector ≡ get_or src (at + t) zero_sector)
      × ((t : ℕ) → (t < to) ⊎ (to + n ≤ t) → get_or out t zero_sector ≡ get_or dst t zero_sector)
unfolding copy_sectors
copy_sectors_lem zero_sector zero dst to src at h = (refl, λ t k. absurd (omega arith), λ t k. refl)
copy_sectors_lem zero_sector (suc n) dst to src at h =
    let x = get_or src at zero_sector in
    let (size, inside, outside) =
      copy_sectors_lem zero_sector n (set dst to x) (suc to) src (suc at)
        (omega (arith, length-set dst to x)) in
    (
      size ∙ length-set dst to x,
      λ t k. elim (ℕ_discrete t 0) [
        | yes z ↦
            let to_z : to + t ≡ to = omega (arith, z) in
            let at_z : at + t ≡ at = omega (arith, z) in
            rw (to_z, at_z)
              (outside to (inl (omega arith)) ∙ get_or-set_self dst to x zero_sector (omega arith))
        | no z ↦
            let to_s : suc to + (t - 1) ≡ to + t = omega arith in
            let at_s : suc at + (t - 1) ≡ at + t = omega arith in
            rw (← to_s, ← at_s) (inside (t - 1) (omega arith))
      ],
      λ t k.
          outside t (elim k [ inl z ↦ inl (omega arith) | inr z ↦ inr (omega arith) ])
          ∙ get_or-set_ne dst x zero_sector
              (λ z. elim k [ inl y ↦ absurd (omega arith) | inr y ↦ absurd (omega arith) ]),
    )
