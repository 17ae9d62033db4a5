-- ===== src/Block/Cache/Write.antt =====
-- `block_cache_write` of src/block/cache.c: what the cache stands for is overlaid with the buffer.
use mich_core.Base.{
  ℕ, zero, suc, ◌+◌, ◌-◌, ◌<◌, ◌≤◌, ◌≡◌, ◌≢◌, ◌⊎◌, inl, inr, refl, sym, subst, ◌∙◌, arith, true,
  false, leb, if◌then◌else◌, List, get_or, ℕ_discrete, Bool-cases, Option-cases, dec_lt, add32,
  sub32, ltb, ◌^◌, ◌==◌, ◌&&◌,
}
use mich_core.Block.Cache.{
  cache_dirty, CacheEntry, Cache, BlockDevice, entry_at, set_entry, fill, page_lba, copy_sectors,
  pass, write_loop, block_cache_write,
}
use mich_core.Block.Cache.Refines.{IsDevice, Covers, Refines}
use mich_core.Block.Cache.Writeback.{update-Refines, same_page}
use mich_core.Block.Cache.Fill.{Held, fill-Refines}
use mich_core.Block.Cache.Copy.{copy_sectors_lem}
use mich_core.Block.Cache.Access.{Held-sector, pass_lem}

-- `v` with the first `m` sectors of the buffer over those of device `id` from `lba` on.
abbrev pub written : {S : Type 0} → S → (ℕ → ℕ → S) → ℕ → ℕ → ℕ → List S → ℕ → ℕ → S
written zero_sector v id lba m buffer id' l =
    if id' == id && (leb lba l && ltb l (lba + m))
    then get_or buffer (l - lba) zero_sector
    else v id' l

module _ {S : Type 0} (zero_sector : S) (v : ℕ → ℕ → S) (id lba : ℕ) (buffer : List S) where
  written_none_at : (k l : ℕ) → v k l ≡ written zero_sector v id lba 0 buffer k l
  written_none_at k l =
      let out : (k == id && (leb lba l && ltb l (lba + 0))) ≡ false = ground arith in rw out refl

  written_none : v ≡ written zero_sector v id lba 0 buffer
  written_none = λ s k l. written_none_at k l s

  written_new :
      (m l : ℕ)
      → lba ≤ l
      → l < lba + m
      → written zero_sector v id lba m buffer id l ≡ get_or buffer (l - lba) zero_sector
  written_new m l a k =
      let hit : (id == id && (leb lba l && ltb l (lba + m))) ≡ true = ground arith in rw hit refl

  written_old :
      (m n k l : ℕ)
      → (k ≢ id) ⊎ ((l < lba + m) ⊎ (lba + m + n ≤ l))
      → written zero_sector v id lba (m + n) buffer k l ≡ written zero_sector v id lba m buffer k l
  written_old m n k l h =
      let same : (k == id && (leb lba l && ltb l (lba + (m + n))))
          ≡ (k == id && (leb lba l && ltb l (lba + m))) =
        elim h [ inl q ↦ ground arith | inr (inl q) ↦ ground arith | inr (inr q) ↦ ground arith ] in
      rw same refl

-- Whether a sector is one of `n` from `a` on.
range_cases :
    (id k a n l : ℕ) → ((k ≡ id) × (a ≤ l) × (l < a + n)) ⊎ ((k ≢ id) ⊎ ((l < a) ⊎ (a + n ≤ l)))
range_cases id k a n l = elim (ℕ_discrete k id) [
  | no q ↦ inr (inl q)
  | yes q ↦ elim (dec_lt l a) [
    | yes x ↦ inr (inr (inl x))
    | no x ↦ elim (dec_lt l (a + n)) [
      | yes y ↦ inl (q, omega arith, y)
      | no y ↦ inr (inr (inr (omega arith)))
    ]
  ]
]

module _ {M S : Type 0} (zero_sector : S) (b : BlockDevice M S) (disk : M → ℕ → ℕ → S)
    (count : ℕ → ℕ) (law : IsDevice b disk count) where
  -- The copy of one pass into the page of entry `i`, which is dirty after it.
  dirtied-Refines :
      {c : Cache M S} (v : ℕ → ℕ → S) (i device lba : ℕ) (buffer : List S) (done n offset : ℕ)
      → let e = entry_at c i in
        let id = b.value device in
        offset ≡ lba + done - e.lba
        → Refines zero_sector b disk count c (written zero_sector v id lba done buffer)
        → Held zero_sector b disk count law c i id (page_lba (lba + done))
        → e.lba ≤ lba + done
        → lba + done + n ≤ e.lba + 8
        → lba + done + n ≤ count id
        → Refines zero_sector b disk count
            (set_entry c i (record e {
              contents = copy_sectors zero_sector n e.contents offset buffer done;
              state = cache_dirty;
            }))
            (written zero_sector v id lba (done + n) buffer)
  dirtied-Refines {c} v i device lba buffer done n offset o r h low near size =
      let e = entry_at c i in
      let id = b.value device in
      let p = r.pages i h.is_in in
      let next = copy_sectors zero_sector n e.contents offset buffer done in
      let (room, inside, outside) =
        copy_sectors_lem zero_sector n e.contents offset buffer done (omega (arith, p.room)) in
      let f : CacheEntry S = record e { contents = next; state = cache_dirty } in
      let before = written zero_sector v id lba done buffer in
      let after = written zero_sector v id lba (done + n) buffer in
      let new = written_new zero_sector v id lba buffer (done + n) in
      let old = written_old zero_sector v id lba buffer done n in
      let covers : (l : ℕ) → lba + done ≤ l → l < lba + done + n → Covers e id l = λ l a k.
        (Held-sector zero_sector b disk count law i id (lba + done) l r h a
          (omega (arith, h.page_of)) (omega arith)).0 in
      update-Refines zero_sector b disk count law after i f r h.inside
        (λ x. record {
          aligned = p.aligned;
          held = p.held;
          whole = p.whole;
          room = room ∙ p.room;
          of_device = p.of_device;
        })
        (λ x k l y. elim (range_cases id k (lba + done) n l) [
          | inl (q, a, z) ↦
              let t = l - (lba + done) in
              let to : offset + t ≡ l - e.lba = omega arith in
              let from : done + t ≡ l - lba = omega arith in
              rw q (
                subst (λ j. get_or next j zero_sector ≡ after id l) to
                  (inside t (omega arith)
                    ∙ subst (λ j. get_or buffer j zero_sector ≡ after id l) (sym from)
                        (sym (new l (omega arith) (omega arith)))))
          | inr z ↦
              outside (l - e.lba) (elim z [
                | inl q ↦ absurd (q (sym y.0 ∙ h.id_of))
                | inr (inl q) ↦ inl (omega (arith, y.1))
                | inr (inr q) ↦ inr (omega (arith, y.1))
              ])
              ∙ r.cached i k l h.is_in y
              ∙ sym (old k l z)
        ])
        (λ k l y. elim (range_cases id k (lba + done) n l) [
          | inl (q, a, z) ↦ inr (refl, rw q (covers l a z))
          | inr z ↦ elim y [ inl w ↦ inl (w ∙ sym (old k l z)) | inr w ↦ inr (refl, w.1) ]
        ])
        (λ j k l q x y. elim (range_cases id k (lba + done) n l) [
          | inl (w, a, z) ↦
              let (d, g) = same_page (entry_at c j) e k l (r.pages j x) p y (rw w (covers l a z)) in
              absurd (q (r.single j i x h.is_in d g))
          | inr z ↦ old k l z
        ])
        (λ x j q y a k. r.single i j h.is_in y a k)

  -- What is written is a first part of the buffer, all of it unless the loop fails.
  write_loop-Refines :
      (fuel : ℕ) {c : Cache M S} (v : ℕ → ℕ → S) (device lba : ℕ) (buffer : List S)
      (sectors done : ℕ)
      → Refines zero_sector b disk count c (written zero_sector v (b.value device) lba done buffer)
      → lba + sectors ≤ 2 ^ 32
      → lba + sectors ≤ count (b.value device)
      → done ≤ sectors
      → sectors ≤ done + fuel
      → let (c', failed) = write_loop zero_sector b fuel c device lba buffer sectors done in
        (m : ℕ) × (m ≤ sectors)
        × Refines zero_sector b disk count c' (written zero_sector v (b.value device) lba m buffer)
        × (failed ≡ false → m ≡ sectors)
  unfolding write_loop
  write_loop-Refines zero v device lba buffer sectors done r w n2 k f =
      (done, k, r, λ x. omega arith)
  write_loop-Refines (suc fuel) {c} v device lba buffer sectors done r w n2 k f =
      elim (Bool-cases (leb sectors done)) [
        | inl t ↦ rw (t, write_loop) (done, k, r, λ x. ground arith)
        | inr g ↦
            let left : done < sectors = ground arith in
            let (c', got) = fill zero_sector b c device (add32 lba done) in
            let (r', held) = fill-Refines zero_sector b disk count law device (add32 lba done) r in
            elim (Option-cases got) [
              | inl e ↦ rw (g, e, write_loop) (done, k, r', λ x. cc)
              | inr (i, e) ↦
                  let page = entry_at c' i in
                  let n = pass zero_sector b (sub32 (add32 lba done) page.lba) (sectors - done) in
                  let h = held i e in
                  let (at, low, off, some_n, fits, near) =
                    pass_lem zero_sector b disk count law lba done sectors page.lba w left
                      h.page_of in
                  let h' =
                    subst
                      (λ l. Held zero_sector b disk count law c' i (b.value device) (page_lba l)) at
                      h in
                  let r2 =
                    dirtied-Refines v i device lba buffer done n (sub32 (add32 lba done) page.lba)
                      off r' h' low near (omega arith) in
                  rw (g, e, write_loop)
                    (write_loop-Refines fuel v device lba buffer sectors (done + n) r2 w n2 fits
                      (omega arith))
            ]
      ]

  -- A write overlays the contents that the cache stands for with the buffer, or, where it fails, with
  -- a first part of it. The sectors are those of the device.
  pub block_cache_write-Refines :
      {c : Cache M S} (v : ℕ → ℕ → S) (device lba : ℕ) (buffer : List S) (sectors : ℕ)
      → Refines zero_sector b disk count c v
      → lba + sectors ≤ 2 ^ 32
      → lba + sectors ≤ count (b.value device)
      → let (c', failed) = block_cache_write zero_sector b c device lba buffer sectors in
        (m : ℕ) × (m ≤ sectors)
        × Refines zero_sector b disk count c' (written zero_sector v (b.value device) lba m buffer)
        × (failed ≡ false → m ≡ sectors)
  unfolding block_cache_write
  block_cache_write-Refines {c} v device lba buffer sectors r w n =
      let start =
        subst (Refines zero_sector b disk count c)
          (written_none zero_sector v (b.value device) lba buffer) r in
      elim (Bool-cases (sectors == 0)) [
        | inl e ↦ rw (e, block_cache_write) (0, omega arith, start, λ x. cc)
        | inr e ↦
            let out =
              write_loop-Refines sectors v device lba buffer sectors 0 start w n (omega arith)
                (omega arith) in
            rw (e, block_cache_write) out
      ]
