-- ===== src/Objects/Object/Rights.antt =====
-- The words of src/objects/object.c: subsets of rights, and handle values.
use mich_core.Base.{ℕ, ◌+◌, ◌/◌, ◌%◌, ◌<◌, ◌^◌, ◌≡◌, arith, bit_and_mask, without_trans, add32}
use mich_core.Objects.Object.{HandleSlot, and_not, next_generation, handle_value}

-- Rights that one set has and another lacks: none.
abbrev pub Within : ℕ → ℕ → Type 0
Within r s = and_not r s ≡ 0

pub Within-trans :
    (r s t : ℕ) → r < 2 ^ 32 → s < 2 ^ 32 → t < 2 ^ 32 → Within r s → Within s t → Within r t
Within-trans = without_trans 32

-- A generation stays within 24 bits and is never 0, and the next one differs.
pub next_generation_bounds :
    (g : ℕ)
    → g < 2 ^ 24
    → 0 < g
    → (0 < next_generation g) × (next_generation g < 2 ^ 24) × (next_generation g ≡ g → ⊥)
unfolding next_generation
next_generation_bounds g h p = ground (arith, bit_and_mask 24 (add32 g 1))

pub handle_value-parts :
    (s : HandleSlot) (index : ℕ)
    → s.generation < 2 ^ 24
    → index < 32
    → (handle_value s index % 2 ^ 8 ≡ index + 1)
      × (handle_value s index / 2 ^ 8 ≡ s.generation)
      × (0 < handle_value s index)
      × (handle_value s index < 2 ^ 32)
unfolding handle_value
handle_value-parts s index g h = omega arith
