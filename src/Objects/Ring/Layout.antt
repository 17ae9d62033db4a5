-- ===== src/Objects/Ring/Layout.antt =====
-- Where the descriptors of src/objects/ring.c lie: inside the backing pages, never across two.
use mich_core.Base.{
  ℕ, ◌+◌, ◌-◌, ◌*◌, ◌/◌, ◌%◌, ◌<◌, ◌≤◌, ◌≡◌, ◌≢◌, ◌⊎◌, refl, ap, ◌∙◌, Bool, true, false, not, ◌||◌,
  some, arith, ltb, ◌==◌, if◌then◌else◌, get_or, bit_and, bit_and_mask, all_below, all_below_sound,
  Bool-cases, inl, inr,
}
use native.Mathlib.Nat.{mod-lt}
use mich_core.Objects.Ring.{RingResource, ring_shape, bad_shape, ring_resource_descriptor_res}

abbrev is_size : ℕ → Bool
is_size c = c == 16 || (c == 32 || (c == 64 || (c == 128 || c == 256)))

abbrev is_capacity : ℕ → Bool
is_capacity c = c == 2 || (c == 4 || (c == 8 || is_size c))

powers : all_below 257 (λ c. not (bit_and c (c - 1) == 0) || (ltb c 2 || is_capacity c)) ≡ true
unfolding all_below
powers = refl

power_of : (c : ℕ) → c ≤ 256 → 2 ≤ c → bit_and c (c - 1) ≡ 0 → is_capacity c ≡ true
power_of c h l b = ground (
  arith,
  all_below_sound 257 c (λ c. not (bit_and c (c - 1) == 0) || (ltb c 2 || is_capacity c))
      (omega arith) powers,
)

mask_lem : (c position : ℕ) → is_capacity c ≡ true → bit_and position (c - 1) ≡ position % c
mask_lem c position h = ground (
  arith,
  bit_and_mask 1 position,
  bit_and_mask 2 position,
  bit_and_mask 3 position,
  bit_and_mask 4 position,
  bit_and_mask 5 position,
  bit_and_mask 6 position,
  bit_and_mask 7 position,
  bit_and_mask 8 position,
)

-- What `ring_resource_create` has checked of a ring that it made.
pub record IsShaped (r : RingResource) : Type 0 where
  pub shape : ring_shape r.capacity r.descriptor_size ≡ some (r.data_offset, r.pages)
  pub mapped : (page : ℕ) → page < r.pages → get_or r.phys page 0 ≢ 0

shape_parts :
    (c d : ℕ) {off pages : ℕ}
    → ring_shape c d ≡ some (off, pages)
    → (is_capacity c ≡ true)
      × (is_size d ≡ true)
      × (off ≡ (if ltb 64 d then d else 64))
      × (pages ≡ (off + c * d + 4095) / 4096)
unfolding ring_shape
shape_parts c d {off} {pages} e = elim (Bool-cases (bad_shape c d)) [
  | inl b ↦ absurd (ground arith)
  | inr b ↦
      let (c2, cm, cb) = capacity_ok b in
      let (d1, dm, db) = size_ok b in
      (
        power_of c (omega arith) c2 cb,
        ground (arith, power_of d dm (omega arith) db),
        ground arith,
        ground arith,
      )
]
  where
    capacity_ok : bad_shape c d ≡ false → (2 ≤ c) × (c ≤ 128) × (bit_and c (c - 1) ≡ 0)
    capacity_ok b = ground arith

    size_ok : bad_shape c d ≡ false → (16 ≤ d) × (d ≤ 256) × (bit_and d (d - 1) ≡ 0)
    size_ok b = ground arith

-- The byte of the backing at which the descriptor of a position begins.
abbrev pub byte_of : RingResource → ℕ → ℕ
byte_of r position = r.data_offset + position % r.capacity * r.descriptor_size

abbrev Sizes : ℕ → Type 0
Sizes d = (d ≡ 16) ⊎ ((d ≡ 32) ⊎ ((d ≡ 64) ⊎ ((d ≡ 128) ⊎ (d ≡ 256))))

size_cases : (d : ℕ) → is_size d ≡ true → Sizes d
size_cases d h = ground arith

fits_at :
    (c d off pages slot k : ℕ)
    → d ≡ k
    → Sizes k
    → off ≡ (if ltb 64 k then k else 64)
    → pages ≡ (off + c * d + 4095) / 4096
    → slot < c
    → ((off + slot * d) / 4096 < pages)
      × ((off + slot * d) % 4096 + d ≤ 4096)
      × (64 ≤ off + slot * d)
fits_at c d off pages slot k e (inl q) o p s =
    let dk : d ≡ 16 = e ∙ q in
    let off_is : off ≡ 64 = ground arith in
    omega (arith, ap (λ (t : ℕ). slot * t) dk, ap (λ (t : ℕ). c * t) dk)
fits_at c d off pages slot k e (inr (inl q)) o p s =
    let dk : d ≡ 32 = e ∙ q in
    let off_is : off ≡ 64 = ground arith in
    omega (arith, ap (λ (t : ℕ). slot * t) dk, ap (λ (t : ℕ). c * t) dk)
fits_at c d off pages slot k e (inr (inr (inl q))) o p s =
    let dk : d ≡ 64 = e ∙ q in
    let off_is : off ≡ 64 = ground arith in
    omega (arith, ap (λ (t : ℕ). slot * t) dk, ap (λ (t : ℕ). c * t) dk)
fits_at c d off pages slot k e (inr (inr (inr (inl q)))) o p s =
    let dk : d ≡ 128 = e ∙ q in
    let off_is : off ≡ 128 = ground arith in
    omega (arith, ap (λ (t : ℕ). slot * t) dk, ap (λ (t : ℕ). c * t) dk)
fits_at c d off pages slot k e (inr (inr (inr (inr q)))) o p s =
    let dk : d ≡ 256 = e ∙ q in
    let off_is : off ≡ 256 = ground arith in
    omega (arith, ap (λ (t : ℕ). slot * t) dk, ap (λ (t : ℕ). c * t) dk)

fits_page :
    (c d off pages slot : ℕ)
    → is_size d ≡ true
    → off ≡ (if ltb 64 d then d else 64)
    → pages ≡ (off + c * d + 4095) / 4096
    → slot < c
    → ((off + slot * d) / 4096 < pages)
      × ((off + slot * d) % 4096 + d ≤ 4096)
      × (64 ≤ off + slot * d)
fits_page c d off pages slot h o p s = elim (size_cases d h) [
  | inl e ↦ fits_at c d off pages slot 16 e (inl refl) (ground arith) p s
  | inr (inl e) ↦ fits_at c d off pages slot 32 e (inr (inl refl)) (ground arith) p s
  | inr (inr (inl e)) ↦ fits_at c d off pages slot 64 e (inr (inr (inl refl))) (ground arith) p s
  | inr (inr (inr (inl e))) ↦
      fits_at c d off pages slot 128 e (inr (inr (inr (inl refl)))) (ground arith) p s
  | inr (inr (inr (inr e))) ↦
      fits_at c d off pages slot 256 e (inr (inr (inr (inr refl)))) (ground arith) p s
]

position-lt : (c position : ℕ) → is_capacity c ≡ true → position % c < c
position-lt c position h = mod-lt position (ground arith)

-- Every position of a shaped ring that is not revoked has a descriptor: it begins at
-- `data_offset + (position % capacity) * descriptor_size` of the backing, behind the shared header,
-- and lies whole in one mapped page.
pub ring_resource_descriptor_res_lem :
    {r : RingResource} (position : ℕ)
    → IsShaped r
    → r.revoked ≡ false
    → let byte = byte_of r position in
      (ring_resource_descriptor_res r position ≡ some (get_or r.phys (byte / 4096) 0 + byte % 4096))
      × (byte / 4096 < r.pages)
      × (byte % 4096 + r.descriptor_size ≤ 4096)
      × (64 ≤ byte)
unfolding ring_resource_descriptor_res
ring_resource_descriptor_res_lem {r} position v live =
    let (cap, size, off, pages) = shape_parts r.capacity r.descriptor_size v.shape in
    let (a, b, c) =
      fits_page r.capacity r.descriptor_size r.data_offset r.pages (position % r.capacity) size off
        pages (position-lt r.capacity position cap) in
    let byte = byte_of r position in
    let there = v.mapped (byte / 4096) a in
    (rw (live, mask_lem r.capacity position cap, bit_and_mask 12 byte) (ground arith), a, b, c)
