-- ===== src/Block/Cache/Flush.antt =====
-- `block_cache_flush`, `block_cache_init` and `block_cache_drop_device` of src/block/cache.c.
use mich_core.Base.{
  ℕ, zero, suc, ◌+◌, ◌<◌, ◌≡◌, ◌≢◌, inl, inr, refl, sym, ap, ◌∙◌, arith, false, some,
  get_or-outside, ℕ_discrete, Bool-cases, Option-cases, dec_lt, ◌==◌,
}
use mich_core.Block.Cache.{
  cache_clean, CacheEntry, Cache, BlockDevice, block_cache_max, blank_entry, entry_at, set_entry,
  is_dirty, write_sectors, write_page, writeback, flush_from, block_cache_flush,
}
use mich_core.Block.Cache.Refines.{IsDevice, IsDirty, Refines}
use mich_core.Block.Cache.Writeback.{entry-set_cases, replace-Refines, writeback-Refines}

module _ {M S : Type 0} (zero_sector : S) (b : BlockDevice M S) (disk : M → ℕ → ℕ → S)
    (count : ℕ → ℕ) (law : IsDevice b disk count) where
  -- The device of an entry is set to one of the same value.
  claimed-Refines :
      {c : Cache M S} {v : ℕ → ℕ → S} (i device : ℕ)
      → Refines zero_sector b disk count c v
      → i < block_cache_max
      → (entry_at c i).device_id ≡ b.value device
      → Refines zero_sector b disk count
          (set_entry c i (record (entry_at c i) { device = some device }))
          v
  claimed-Refines {c} i device r h q =
      replace-Refines zero_sector b disk count law i
        (record (entry_at c i) { device = some device }) r h
        (λ x.
          let p = r.pages i x in
          record {
            aligned = p.aligned;
            held = p.held;
            whole = p.whole;
            room = p.room;
            of_device = λ d z. let same : d ≡ device = cc in ap b.value same ∙ sym q;
          })
        (λ x id l k. r.cached i id l x k) (λ id l d k. inr (d, k))
        (λ x j n y a w. r.single i j x y a w)

  -- Writing one entry back makes no entry dirty.
  writeback-IsDirty :
      {c : Cache M S} {v : ℕ → ℕ → S} (i : ℕ)
      → Refines zero_sector b disk count c v
      → i < block_cache_max
      → (j : ℕ) → IsDirty (entry_at (writeback zero_sector b c i).0 j)
      → IsDirty (entry_at c j)
  unfolding writeback write_page
  writeback-IsDirty {c} i r h = elim (Bool-cases (is_dirty (entry_at c i).state)) [
    | inr f ↦ rw f (λ j x. x)
    | inl t ↦ elim (Option-cases (entry_at c i).device) [
      | inl e ↦ rw (t, e) (λ j x. x)
      | inr (device, e) ↦
          let f = entry_at c i in
          let (m, failed) = write_sectors zero_sector b f.sectors c.devices device f 0 in
          elim (Bool-cases failed) [
            | inl z ↦ rw (t, e, z) (λ j x. x)
            | inr z ↦
                rw (t, e, z)
                  (entry-set_cases (λ j g. IsDirty g → IsDirty (entry_at c j))
                    (record c { devices = m }) i (record f { state = cache_clean })
                    (omega (arith, r.size)) (λ x. cc) (λ j n x. x))
          ]
    ]
  ]

  -- None of the entries below `i` is dirty with a page of the device.
  abbrev IsFlushed : Cache M S → ℕ → ℕ → Type 0
  IsFlushed c id i = (j : ℕ) → j < i → IsDirty (entry_at c j) → (entry_at c j).device_id ≢ id

  flush_from-Refines :
      (left : ℕ) {c : Cache M S} {v : ℕ → ℕ → S} (device i : ℕ)
      → Refines zero_sector b disk count c v
      → i + left ≡ block_cache_max
      → IsFlushed c (b.value device) i
      → let (c', failed) = flush_from zero_sector b left c device i in
        Refines zero_sector b disk count c' v
        × (failed ≡ false → IsFlushed c' (b.value device) block_cache_max)
  unfolding flush_from
  flush_from-Refines zero device i r n f = (r, λ x j h. f j (omega arith))
  flush_from-Refines (suc left) {c} {v} device i r n f =
      elim (Bool-cases ((entry_at c i).device_id == b.value device)) [
        | inr e ↦
            rw (e, flush_from)
              (flush_from-Refines left device (suc i) r (omega arith) (λ j h d.
                elim (ℕ_discrete j i) [ yes q ↦ rw q (ground arith) | no q ↦ f j (omega arith) d ]))
        | inl e ↦
            let same : (entry_at c i).device_id ≡ b.value device = ground arith in
            let g = record (entry_at c i) { device = some device } in
            let c1 = set_entry c i g in
            let r1 = claimed-Refines i device r (omega arith) same in
            let size = r.size in
            let was =
              entry-set_cases
                (λ j k.
                  (is_dirty k.state ≡ is_dirty (entry_at c j).state)
                  × (k.device_id ≡ (entry_at c j).device_id))
                c i g (omega arith) (refl, refl) (λ j q. (refl, refl)) in
            let (r2, hand, clean, kept) =
              writeback-Refines zero_sector b disk count law i r1 (omega arith) in
            let back = writeback-IsDirty i r1 (omega arith) in
            let c2 = (writeback zero_sector b c1 i).0 in
            elim (Bool-cases (writeback zero_sector b c1 i).1) [
              | inl z ↦ rw (e, z, flush_from) (r2, λ x. cc)
              | inr z ↦
                  rw (e, z, flush_from)
                    (flush_from-Refines left device (suc i) r2 (omega arith) (λ j h d.
                      elim (ℕ_discrete j i) [
                        | yes q ↦
                            let fact : is_dirty (entry_at c2 j).state ≡ false = rw q (clean z) in cc
                        | no q ↦ λ w.
                            let (a, k) = was j in
                            let (x, y, u) = kept j in
                            f j (omega arith) (sym a ∙ back j d) (sym k ∙ sym y ∙ w)
                      ]))
            ]
      ]

  -- After a flush that succeeds a device holds the contents that the cache stands for. These are
  -- kept in any case.
  pub block_cache_flush-Refines :
      {c : Cache M S} {v : ℕ → ℕ → S} (device : ℕ)
      → Refines zero_sector b disk count c v
      → let (c', failed) = block_cache_flush zero_sector b c device in
        Refines zero_sector b disk count c' v
        × (failed ≡ false → (l : ℕ) → disk c'.devices (b.value device) l ≡ v (b.value device) l)
  unfolding block_cache_flush
  block_cache_flush-Refines {c} {v} device r =
      let (r', flushed) =
        flush_from-Refines block_cache_max device 0 r (omega arith) (λ j h. absurd (omega arith)) in
      let c' = (flush_from zero_sector b block_cache_max c device 0).0 in
      (
        r',
        λ e l. elim (r'.stored (b.value device) l) [
          | inl q ↦ q
          | inr (j, d, k) ↦ elim (dec_lt j block_cache_max) [
            | yes h ↦ absurd (flushed e j h d k.0)
            | no h ↦
                let size = r'.size in
                let out =
                  ap (λ (f : CacheEntry S). is_dirty f.state)
                    (get_or-outside c'.entries j blank_entry (omega arith)) in
                cc
          ]
        ],
      )
