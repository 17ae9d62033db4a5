-- ===== src/Block/Cache/Evict.antt =====
-- `evict` of src/block/cache.c: what the cache stands for stays, and the entry that it returns is empty.
use mich_core.Base.{
  ℕ, zero, suc, ◌+◌, ◌<◌, ◌≡◌, inl, inr, refl, sym, subst, ◌∙◌, arith, true, false, leb,
  if◌then◌else◌, none, some, length, Bool-cases,
}
use mich_core.Block.Cache.{
  CacheState, cache_empty, cache_clean, cache_dirty, Cache, BlockDevice, block_cache_max, entry_at,
  is_cached, is_dirty, emptied, writeback, evict_at, evict_from,
}
use mich_core.Block.Cache.Refines.{IsDevice, IsCached, Refines}
use mich_core.Block.Cache.Writeback.{
  entry-set_self, entry-set_cases, replace-Refines, writeback-Refines,
}

-- The pages of one cache are among those of another.
abbrev IsFewer : {M S : Type 0} → Cache M S → Cache M S → Type 0
IsFewer c c' =
    (j : ℕ)
    → IsCached (entry_at c' j)
    → IsCached (entry_at c j)
      × ((entry_at c' j).device_id ≡ (entry_at c j).device_id)
      × ((entry_at c' j).lba ≡ (entry_at c j).lba)

IsFewer-trans :
    {M S : Type 0} (c c' c'' : Cache M S) → IsFewer c c' → IsFewer c' c'' → IsFewer c c''
IsFewer-trans c c' c'' f g j h = let (a, b, k) = g j h in let (x, y, z) = f j a in (x, b ∙ y, k ∙ z)

module _ {M S : Type 0} (zero_sector : S) (b : BlockDevice M S) (disk : M → ℕ → ℕ → S)
    (count : ℕ → ℕ) (law : IsDevice b disk count) where
  emptied-Refines :
      {c : Cache M S} {v : ℕ → ℕ → S} (i : ℕ)
      → Refines zero_sector b disk count c v
      → i < block_cache_max
      → is_dirty (entry_at c i).state ≡ false
      → Refines zero_sector b disk count (emptied c i) v
        × (is_cached (entry_at (emptied c i) i).state ≡ false)
        × IsFewer c (emptied c i)
  emptied-Refines {c} i r h clean =
      let e = record (entry_at c i) { state = cache_empty; device = none } in
      let size : i < length c.entries = omega (arith, r.size) in
      (
        replace-Refines zero_sector b disk count law i e r h (λ x. cc) (λ x. cc) (λ id l d k. cc)
            (λ x. cc),
        rw (entry-set_self c i e size) refl,
        entry-set_cases
            (λ j f.
              IsCached f
              → IsCached (entry_at c j)
                × (f.device_id ≡ (entry_at c j).device_id)
                × (f.lba ≡ (entry_at c j).lba))
            c i e size (λ x. cc) (λ j n x. (x, refl, refl)),
      )

  -- The hand of the clock is no part of what the cache stands for.
  moved-Refines :
      {c : Cache M S} {v : ℕ → ℕ → S} (hand : ℕ)
      → Refines zero_sector b disk count c v
      → hand < block_cache_max
      → Refines zero_sector b disk count (record c { clock = hand }) v
  moved-Refines hand r h = record {
    size = r.size;
    hand = h;
    pages = r.pages;
    cached = r.cached;
    stored = r.stored;
    single = r.single;
  }

  evict_at-Refines :
      {c : Cache M S} {v : ℕ → ℕ → S} (i : ℕ) (s : CacheState)
      → Refines zero_sector b disk count c v
      → i < block_cache_max
      → (entry_at c i).state ≡ s
      → let (c', got) = evict_at zero_sector b c i s in
        Refines zero_sector b disk count c' v
        × (got ≡ true → is_cached (entry_at c' i).state ≡ false)
        × IsFewer c c'
  unfolding evict_at
  evict_at-Refines i cache_empty r h e = (r, λ x. rw e refl, λ j x. (x, refl, refl))
  evict_at-Refines i cache_clean r h e =
      let (a, f, g) = emptied-Refines i r h (rw e refl) in (a, λ x. f, g)
  evict_at-Refines {c} i cache_dirty r h e =
      let (c', failed) = writeback zero_sector b c i in
      let (a, f, g, k) = writeback-Refines zero_sector b disk count law i r h in
      let same : IsFewer c c' = λ j x. (sym (k j).0 ∙ x, (k j).1, (k j).2) in
      elim (Bool-cases failed) [
        | inl t ↦ rw t (a, λ x. cc, same)
        | inr t ↦
            let (x, y, z) = emptied-Refines i a h (g t) in
            rw t (x, λ w. y, IsFewer-trans c c' (emptied c' i) same z)
      ]

  -- `evict` keeps what the cache stands for, drops pages at most, and returns an empty entry.
  pub evict_from-Refines :
      (left : ℕ) {c : Cache M S} {v : ℕ → ℕ → S}
      → Refines zero_sector b disk count c v
      → let (c', got) = evict_from zero_sector b left c in
        Refines zero_sector b disk count c' v
        × ((i : ℕ)
            → got ≡ some i
            → (i < block_cache_max) × (is_cached (entry_at c' i).state ≡ false))
        × IsFewer c c'
  unfolding evict_from
  evict_from-Refines zero r = (r, λ i e. cc, λ j x. (x, refl, refl))
  evict_from-Refines (suc left) {c} {v} r =
      let i = c.clock in
      let next = if leb block_cache_max (i + 1) then 0 else i + 1 in
      let c1 = record c { clock = next } in
      let r1 : Refines zero_sector b disk count c1 v =
        moved-Refines next r (ground (arith, r.hand)) in
      let (c', got) = evict_at zero_sector b c1 i (entry_at c i).state in
      let (a, f, g) = evict_at-Refines i (entry_at c i).state r1 r.hand refl in
      elim (Bool-cases got) [
        | inl t ↦ rw t (
          a,
          λ j e.
              let same : i ≡ j = cc in
              subst (λ n. (n < block_cache_max) × (is_cached (entry_at c' n).state ≡ false)) same
                (r.hand, f t),
          g,
        )
        | inr t ↦
            let (x, y, z) = evict_from-Refines left a in
            rw t (x, y, IsFewer-trans c c' (evict_from zero_sector b left c').0 g z)
      ]
