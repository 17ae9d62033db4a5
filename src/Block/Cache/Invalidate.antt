-- ===== src/Block/Cache/Invalidate.antt =====
-- `block_cache_invalidate` of src/block/cache.c.
use mich_core.Base.{
  ℕ, zero, suc, ◌+◌, ◌-◌, ◌*◌, ◌%◌, ◌<◌, ◌≤◌, ◌≡◌, inl, inr, refl, ap, ◌∙◌, arith, Bool, true,
  false, leb, if◌then◌else◌, none, some, Bool-cases, dec_lt, add32, sub32, ltb, ◌^◌, ◌==◌, ◌&&◌,
  ◌||◌,
}
use mich_core.Block.Cache.{
  Cache, BlockDevice, block_cache_sectors, drop_if, invalidate_from, block_cache_invalidate,
  page_lba, holds,
}
use mich_core.Block.Cache.Refines.{Refines}
use mich_core.Block.Cache.Drop.{reset, Refines-pointwise, drop_if-Refines}

-- The pages of device `id` from `first` up to `page`.
abbrev pages_of : ℕ → ℕ → ℕ → ℕ → ℕ → Bool
pages_of id first page k at = k == id && (leb first at && ltb at page)

aligned_next :
    (id first page k at : ℕ)
    → first ≤ page
    → page % 8 ≡ 0
    → at % 8 ≡ 0
    → pages_of id first (page + 8) k at ≡ (k == id && at == page) || pages_of id first page k at
aligned_next id first page k at a al al' = ground arith

reset-reset :
    {S : Type 0} (stored v : ℕ → ℕ → S) (q q' both : ℕ → ℕ → Bool) (k l : ℕ)
    → both k (page_lba l) ≡ q k (page_lba l) || q' k (page_lba l)
    → reset stored q (reset stored q' v) k l ≡ reset stored both v k l
reset-reset stored v q q' both k l h = elim (Bool-cases (q k (page_lba l))) [
  | inl t ↦ rw (h, t) refl
  | inr t ↦ rw (h, t) refl
]

page_edge :
    (at end last : ℕ)
    → at % 8 ≡ 0
    → last ≡ page_lba (end - 1)
    → 1 ≤ end
    → ltb at (last + 8) ≡ ltb at end
page_edge at end last al q h = elim (dec_lt at end) [
  | yes y ↦ let low : at < last + 8 = omega arith in ground arith
  | no n ↦ let high : last + 8 ≤ at = omega arith in ground arith
]

pages_none :
    {S : Type 0} (stored v : ℕ → ℕ → S) (id first k l : ℕ)
    → v k l ≡ reset stored (pages_of id first first) v k l
pages_none stored v id first k l =
    let out : pages_of id first first k (page_lba l) ≡ false = ground arith in rw out refl

module _ {M S : Type 0} (zero_sector : S) (b : BlockDevice M S) (disk : M → ℕ → ℕ → S)
    (count : ℕ → ℕ) where
  pages-next :
      (id first page k l : ℕ)
      → first ≤ page
      → page % 8 ≡ 0
      → pages_of id first (page + 8) k (page_lba l)
        ≡ (k == id && page_lba l == page) || pages_of id first page k (page_lba l)
  pages-next id first page k l a al =
      let al' : page_lba l % 8 ≡ 0 = omega arith in
      aligned_next id first page k (page_lba l) a al al'

  invalidate-step :
      (fuel : ℕ) (c : Cache M S) (id page last : ℕ)
      → ltb last page ≡ false
      → add32 page block_cache_sectors ≡ page + 8
      → invalidate_from (suc fuel) c id page last
        ≡ invalidate_from fuel
            (record c { entries = drop_if (holds id page) c.entries })
            id
            (page + 8)
            last
  unfolding invalidate_from
  invalidate-step fuel c id page last under next = rw under (
      ap
        (λ p.
          invalidate_from fuel (record c { entries = drop_if (holds id page) c.entries }) id p last)
        next)

  -- Each pass drops one more page. The fuel that is left reaches the last one.
  invalidate_from-Refines :
      (fuel : ℕ) {c : Cache M S} (v : ℕ → ℕ → S) (id first page last : ℕ)
      → Refines zero_sector b disk count c (reset (disk c.devices) (pages_of id first page) v)
      → first ≤ page
      → page % 8 ≡ 0
      → last % 8 ≡ 0
      → page ≤ last + 8
      → last + 8 < 2 ^ 32
      → last < page + 8 * fuel
      → (c' : Cache M S) × (invalidate_from fuel c id page last ≡ some c')
        × (c'.devices ≡ c.devices)
        × Refines zero_sector b disk count c'
            (reset (disk c.devices) (pages_of id first (last + 8)) v)
  unfolding invalidate_from
  invalidate_from-Refines zero {c} v id first page last r a al al' h w f =
      let over : ltb last page ≡ true = ground arith in
      let same : page ≡ last + 8 = omega arith in (c, rw over refl, refl, rw (← same) r)
  invalidate_from-Refines (suc fuel) {c} v id first page last r a al al' h w f =
      elim (Bool-cases (ltb last page)) [
        | inl over ↦
            let same : page ≡ last + 8 = ground arith in (c, rw over refl, refl, rw (← same) r)
        | inr under ↦
            let next : add32 page block_cache_sectors ≡ page + 8 = ground arith in
            let c1 = record c { entries = drop_if (holds id page) c.entries } in
            let r1 =
              drop_if-Refines zero_sector b disk count (holds id page)
                (λ k at. k == id && at == page) r (λ e x. rw x refl) in
            let (c', e, same, r') =
              invalidate_from-Refines fuel v id first (page + 8) last
                (Refines-pointwise zero_sector b disk count r1 (λ k l.
                  reset-reset (disk c.devices) v (λ j at. j == id && at == page)
                    (pages_of id first page) (pages_of id first (page + 8)) k l
                    (pages-next id first page k l a al)))
                (omega arith) (omega arith) al' (ground arith) w (omega arith) in
            (c', invalidate-step fuel c id page last under next ∙ e, same, r')
      ]

  -- The invalidation of sectors of a device ends, and loses what is not written back of the pages that
  -- overlap them, and no more. The fuel is enough for the number of the sectors, which are not none, and
  -- the last page of them is not the last one below 2 ^ 32.
  pub block_cache_invalidate-Refines :
      {c : Cache M S} {v : ℕ → ℕ → S} (fuel id lba sectors : ℕ)
      → Refines zero_sector b disk count c v
      → 1 ≤ sectors
      → lba + sectors + 8 ≤ 2 ^ 32
      → sectors + 16 ≤ 8 * fuel
      → (c' : Cache M S) × (block_cache_invalidate fuel c id lba sectors ≡ some c')
        × (c'.devices ≡ c.devices)
        × Refines zero_sector b disk count c' (λ k l.
          if k == id && (leb (page_lba lba) (page_lba l) && ltb (page_lba l) (lba + sectors))
          then disk c.devices k l
          else v k l)
  unfolding block_cache_invalidate
  block_cache_invalidate-Refines {c} {v} fuel id lba sectors r h w f =
      let some_left : (sectors == 0) ≡ false = ground arith in
      let last = page_lba (sub32 (add32 lba sectors) 1) in
      let at : last ≡ page_lba (lba + sectors - 1) = omega arith in
      let start =
        Refines-pointwise zero_sector b disk count r
          (λ k l. pages_none (disk c.devices) v id (page_lba lba) k l) in
      let (c', e, same, r') =
        invalidate_from-Refines fuel v id (page_lba lba) (page_lba lba) last start (omega arith)
          (omega arith) (omega arith) (omega arith) (omega arith) (omega arith) in
      (
        c',
        rw some_left e,
        same,
        Refines-pointwise zero_sector b disk count r' (λ k l.
            let edge : ltb (page_lba l) (last + 8) ≡ ltb (page_lba l) (lba + sectors) =
              page_edge (page_lba l) (lba + sectors) last (omega arith) at (omega arith) in
            ap
              (λ t.
                if k == id && (leb (page_lba lba) (page_lba l) && t)
                then disk c.devices k l
                else v k l)
              edge),
      )

module _ {M S : Type 0} where
  stuck :
      (fuel : ℕ) (c : Cache M S) (id page : ℕ)
      → page % 8 ≡ 0
      → page < 2 ^ 32
      → invalidate_from fuel c id page (2 ^ 32 - 8) ≡ none
  unfolding invalidate_from
  stuck zero c id page al h =
      let under : ltb (2 ^ 32 - 8) page ≡ false = ground arith in rw under refl
  stuck (suc fuel) c id page al h =
      let under : ltb (2 ^ 32 - 8) page ≡ false = ground arith in
      let next =
        stuck fuel (record c { entries = drop_if (holds id page) c.entries }) id
          (add32 page block_cache_sectors) (omega arith) (omega arith) in
      rw under next

  -- The invalidation of sectors of a device does not end where the last page of them is the last one
  -- below 2 ^ 32, since the page after it is the first one again.
  pub block_cache_invalidate-none :
      (fuel : ℕ) (c : Cache M S) (id lba sectors : ℕ)
      → 1 ≤ sectors
      → 2 ^ 32 - 8 < lba + sectors
      → lba + sectors ≤ 2 ^ 32
      → block_cache_invalidate fuel c id lba sectors ≡ none
  unfolding block_cache_invalidate
  block_cache_invalidate-none fuel c id lba sectors h a k =
      let some_left : (sectors == 0) ≡ false = ground arith in
      let last : page_lba (sub32 (add32 lba sectors) 1) ≡ 2 ^ 32 - 8 = omega arith in
      rw some_left (
        ap (invalidate_from fuel c id (page_lba lba)) last
        ∙ stuck fuel c id (page_lba lba) (omega arith) (omega arith))
