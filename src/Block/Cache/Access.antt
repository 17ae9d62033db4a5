-- ===== src/Block/Cache/Access.antt =====
-- `block_cache_read` of src/block/cache.c against the contents that the cache stands for.
use mich_core.Base.{
  ℕ, zero, suc, ◌+◌, ◌-◌, ◌<◌, ◌≤◌, ◌≡◌, ◌⊎◌, inl, inr, refl, sym, subst, ◌∙◌, arith, false, leb,
  List, get_or, length, Bool-cases, Option-cases, dec_lt, add32, sub32, ◌^◌, ◌==◌,
}
use mich_core.Block.Cache.{
  Cache, BlockDevice, block_cache_sectors, entry_at, fill, page_lba, copy_sectors, pass, read_loop,
  block_cache_read,
}
use mich_core.Block.Cache.Refines.{IsDevice, Covers, Refines}
use mich_core.Block.Cache.Fill.{Held, fill-Refines}
use mich_core.Block.Cache.Copy.{copy_sectors_lem}

module _ {M S : Type 0} (zero_sector : S) (b : BlockDevice M S) (disk : M → ℕ → ℕ → S)
    (count : ℕ → ℕ) (law : IsDevice b disk count) where
  -- A sector of the page that an entry holds.
  pub Held-sector :
      {c : Cache M S} {v : ℕ → ℕ → S} (i id l k : ℕ)
      → Refines zero_sector b disk count c v
      → Held zero_sector b disk count law c i id (page_lba l)
      → l ≤ k
      → k < page_lba l + block_cache_sectors
      → k < count id
      → Covers (entry_at c i) id k
        × (get_or (entry_at c i).contents (k - page_lba l) zero_sector ≡ v id k)
  Held-sector {c} i id l k r h a a' u =
      let p = r.pages i h.is_in in
      let q = h.page_of in
      let low : (entry_at c i).lba ≤ k = omega arith in
      let top = p.whole k low (omega arith) (rw h.id_of u) in
      let covers : Covers (entry_at c i) id k = (h.id_of, low, top) in
      (covers, rw (← q) (r.cached i id k h.is_in covers))

  -- The numbers of one pass over a page that starts at `page`.
  pub pass_lem :
      (lba done sectors page : ℕ)
      → lba + sectors ≤ 2 ^ 32
      → done < sectors
      → page ≡ page_lba (add32 lba done)
      → let n = pass zero_sector b (sub32 (add32 lba done) page) (sectors - done) in
        (add32 lba done ≡ lba + done)
        × (page ≤ lba + done)
        × (sub32 (add32 lba done) page ≡ lba + done - page)
        × (1 ≤ n)
        × (done + n ≤ sectors)
        × (lba + done + n ≤ page + 8)
  pass_lem lba done sectors page w left q =
      let at : add32 lba done ≡ lba + done = omega arith in
      let low : page ≤ lba + done = omega arith in
      let off : sub32 (add32 lba done) page ≡ lba + done - page = omega arith in
      let near : lba + done < page + 8 = omega arith in
      (at, low, off, rw off (ground arith), rw off (ground arith), rw off (ground arith))

  read_loop-Refines :
      (fuel : ℕ) {c : Cache M S} {v : ℕ → ℕ → S} (device lba : ℕ) (buffer : List S)
      (sectors done : ℕ)
      → Refines zero_sector b disk count c v
      → lba + sectors ≤ 2 ^ 32
      → lba + sectors ≤ count (b.value device)
      → sectors ≤ length buffer
      → sectors ≤ done + fuel
      → let (c', out, failed) = read_loop zero_sector b fuel c device lba buffer sectors done in
        Refines zero_sector b disk count c' v
        × (length out ≡ length buffer)
        × ((t : ℕ)
            → (t < done) ⊎ (sectors ≤ t)
            → get_or out t zero_sector ≡ get_or buffer t zero_sector)
        × (failed ≡ false
            → (t : ℕ) → done ≤ t
            → t < sectors
            → get_or out t zero_sector ≡ v (b.value device) (lba + t))
  unfolding read_loop
  read_loop-Refines zero device lba buffer sectors done r w n m f =
      (r, refl, λ t k. refl, λ x t a k. absurd (omega arith))
  read_loop-Refines (suc fuel) {c} {v} device lba buffer sectors done r w n2 m f =
      elim (Bool-cases (leb sectors done)) [
        | inl t ↦ rw (t, read_loop) (r, refl, λ u k. refl, λ x u a k. absurd (ground arith))
        | inr g ↦
            let left : done < sectors = ground arith in
            let (c', got) = fill zero_sector b c device (add32 lba done) in
            let (r', held) = fill-Refines zero_sector b disk count law device (add32 lba done) r in
            elim (Option-cases got) [
              | inl e ↦ rw (g, e, read_loop) (r', refl, λ u k. refl, λ x. cc)
              | inr (i, e) ↦
                  let h = held i e in
                  let page = entry_at c' i in
                  let n = pass zero_sector b (sub32 (add32 lba done) page.lba) (sectors - done) in
                  let offset = sub32 (add32 lba done) page.lba in
                  let (at, low, off, some_n, fits, near) =
                    pass_lem lba done sectors page.lba w left h.page_of in
                  let (size, inside, outside) =
                    copy_sectors_lem zero_sector n buffer done page.contents offset (omega arith) in
                  let next = copy_sectors zero_sector n buffer done page.contents offset in
                  let (r2, size2, rest, values) =
                    read_loop-Refines fuel device lba next sectors (done + n) r' w n2
                      (omega (arith, size)) (omega arith) in
                  rw (g, e, read_loop)
                    (
                      r2,
                      size2 ∙ size,
                      λ t k.
                          rest t (elim k [ inl z ↦ inl (omega arith) | inr z ↦ inr z ])
                          ∙ outside t (elim k [ inl z ↦ inl z | inr z ↦ inr (omega arith) ]),
                      λ x t a k. elim (dec_lt t (done + n)) [
                        | no z ↦ values x t (omega arith) k
                        | yes z ↦
                            let l = add32 lba done in
                            let (covers, here) =
                              Held-sector i (b.value device) l (lba + t) r' h (omega arith)
                                (omega (arith, h.page_of)) (omega arith) in
                            let there : done + (t - done) ≡ t = omega arith in
                            let spot : offset + (t - done) ≡ lba + t - page_lba l =
                              omega (arith, h.page_of) in
                            let got_it = inside (t - done) (omega arith) in
                            rest t (inl z)
                            ∙ subst
                                (λ y.
                                  get_or next y zero_sector
                                  ≡ get_or page.contents (offset + (t - done)) zero_sector)
                                there got_it
                            ∙ subst
                                (λ y.
                                  get_or page.contents y zero_sector ≡ v (b.value device) (lba + t))
                                (sym spot) here
                      ],
                    )
            ]
      ]

  -- A read keeps the contents that the cache stands for, and, where it succeeds, the buffer has them.
  -- The sectors are those of the device.
  pub block_cache_read-Refines :
      {c : Cache M S} {v : ℕ → ℕ → S} (device lba : ℕ) (buffer : List S) (sectors : ℕ)
      → Refines zero_sector b disk count c v
      → lba + sectors ≤ 2 ^ 32
      → lba + sectors ≤ count (b.value device)
      → sectors ≤ length buffer
      → let (c', out, failed) = block_cache_read zero_sector b c device lba buffer sectors in
        Refines zero_sector b disk count c' v
        × (length out ≡ length buffer)
        × ((t : ℕ) → sectors ≤ t → get_or out t zero_sector ≡ get_or buffer t zero_sector)
        × (failed ≡ false
            → (t : ℕ) → t < sectors
            → get_or out t zero_sector ≡ v (b.value device) (lba + t))
  unfolding block_cache_read
  block_cache_read-Refines device lba buffer sectors r w n m = elim (Bool-cases (sectors == 0)) [
    | inl e ↦ rw (e, block_cache_read) (r, refl, λ t k. refl, λ x. cc)
    | inr e ↦
        let (r', size, rest, values) =
          read_loop-Refines sectors device lba buffer sectors 0 r w n m (omega arith) in
        rw (e, block_cache_read)
          (r', size, λ t k. rest t (inr k), λ x t k. values x t (omega arith) k)
  ]
