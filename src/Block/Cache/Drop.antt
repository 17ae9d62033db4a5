-- ===== src/Block/Cache/Drop.antt =====
-- Dropping pages of src/block/cache.c: `block_cache_drop_device` and `block_cache_init`.
use mich_core.Base.{
  ℕ, zero, suc, ◌-◌, ◌≡◌, inl, inr, refl, sym, ap, subst, ◌∙◌, arith, Bool, true, false,
  if◌then◌else◌, List, [], ◌∷◌, get_or, length, Bool-cases, ◌==◌,
}
use mich_core.Block.Cache.{
  CacheEntry, Cache, BlockDevice, block_cache_max, blank_entry, entry_at, is_cached,
  block_cache_init, dropped, drop_if, block_cache_drop_device, page_lba,
}
use mich_core.Block.Cache.Refines.{Covers, IsCached, IsDirty, IsPage, Refines}
use mich_core.Block.Cache.Writeback.{dirty-cached}

module _ {S : Type 0} where
  -- What a cached entry is after a drop: as before, and not dropped.
  entry-drop_if :
      (p : CacheEntry S → Bool) (es : List (CacheEntry S)) (j : ℕ)
      → let f = get_or (drop_if p es) j blank_entry in
        IsCached f → (f ≡ get_or es j blank_entry) × (p (get_or es j blank_entry) ≡ false)
  entry-drop_if p [] j h = cc
  entry-drop_if p (e ∷ es) zero h = elim (Bool-cases (p e)) [
    | inl t ↦ let gone : is_cached (if p e then dropped e else e).state ≡ false = rw t refl in cc
    | inr t ↦ (rw t refl, t)
  ]
  entry-drop_if p (e ∷ es) (suc j) h = entry-drop_if p es j h

  length-drop_if :
      (p : CacheEntry S → Bool) (es : List (CacheEntry S)) → length (drop_if p es) ≡ length es
  length-drop_if p [] = refl
  length-drop_if p (e ∷ es) = ap suc (length-drop_if p es)

  -- An entry that is not dropped stays.
  entry-drop_if_kept :
      (p : CacheEntry S → Bool) (es : List (CacheEntry S)) (j : ℕ)
      → p (get_or es j blank_entry) ≡ false
      → get_or (drop_if p es) j blank_entry ≡ get_or es j blank_entry
  entry-drop_if_kept p [] j h = refl
  entry-drop_if_kept p (e ∷ es) zero h = rw h refl
  entry-drop_if_kept p (e ∷ es) (suc j) h = entry-drop_if_kept p es j h

-- `v`, but what the devices hold where the test is true of the device and the page.
abbrev pub reset : {S : Type 0} → (ℕ → ℕ → S) → (ℕ → ℕ → Bool) → (ℕ → ℕ → S) → ℕ → ℕ → S
reset stored q v id l = if q id (page_lba l) then stored id l else v id l

module _ {M S : Type 0} (zero_sector : S) (b : BlockDevice M S) (disk : M → ℕ → ℕ → S)
    (count : ℕ → ℕ) where
  -- The contents are what they are at each sector.
  pub Refines-pointwise :
      {c : Cache M S} {v v' : ℕ → ℕ → S}
      → Refines zero_sector b disk count c v
      → ((id l : ℕ) → v id l ≡ v' id l)
      → Refines zero_sector b disk count c v'
  Refines-pointwise {c} {v} {v'} r h =
      let same : v ≡ v' = λ s k l. h k l s in subst (Refines zero_sector b disk count c) same r

  -- Dropping pages loses what is dirty in them, and no more.
  pub drop_if-Refines :
      {c : Cache M S} {v : ℕ → ℕ → S} (p : CacheEntry S → Bool) (q : ℕ → ℕ → Bool)
      → Refines zero_sector b disk count c v
      → ((e : CacheEntry S) → IsCached e → p e ≡ q e.device_id e.lba)
      → Refines zero_sector b disk count
          (record c { entries = drop_if p c.entries })
          (reset (disk c.devices) q v)
  drop_if-Refines {c} {v} p q r agree =
      let after = entry-drop_if p c.entries in
      let page : (j k l : ℕ)
          → IsCached (entry_at c j)
          → Covers (entry_at c j) k l
          → (p (entry_at c j) ≡ q k (page_lba l)) =
        λ j k l x y.
          let w = r.pages j x in
          let at : (entry_at c j).lba ≡ page_lba l = omega (arith, w.aligned, w.held, y.1) in
          agree (entry_at c j) x ∙ rw (y.0, at) refl in
      let c' = record c { entries = drop_if p c.entries } in
      let old : (j : ℕ) → IsCached (entry_at c' j) → IsCached (entry_at c j) =
        λ j x. subst IsCached (after j x).0 x in
      record {
        size = length-drop_if p c.entries ∙ r.size;
        hand = r.hand;
        pages = λ i x. subst (IsPage b.value count) (sym (after i x).0) (r.pages i (old i x));
        cached = λ i k l x y.
            let (e, gone) = after i x in
            let covers = subst (λ f. Covers f k l) e y in
            let miss : q k (page_lba l) ≡ false = sym (page i k l (old i x) covers) ∙ gone in
            rw miss (
              subst (λ f. get_or f.contents (l - f.lba) zero_sector ≡ v k l) (sym e)
                (r.cached i k l (old i x) covers));
        stored = λ k l. elim (Bool-cases (q k (page_lba l))) [
          | inl t ↦ inl (rw t refl)
          | inr t ↦ elim (r.stored k l) [
            | inl z ↦ inl (rw t z)
            | inr (i, d, y) ↦
                let gone = page i k l (dirty-cached (entry_at c i).state d) y ∙ t in
                let e = sym (entry-drop_if_kept p c.entries i gone) in
                inr (i, subst IsDirty e d, subst (λ f. Covers f k l) e y)
          ]
        ];
        single = λ i j x y a d.
            let (e, z) = after i x in
            let (e', z') = after j y in
            r.single i j (old i x) (old j y)
              (ap (λ (f : CacheEntry S). f.device_id) (sym e)
                ∙ a
                ∙ ap (λ (f : CacheEntry S). f.device_id) e')
              (ap (λ (f : CacheEntry S). f.lba) (sym e) ∙ d ∙ ap (λ (f : CacheEntry S). f.lba) e');
      }

  -- Dropping a device loses what is not written back to it, and nothing of the other devices.
  pub block_cache_drop_device-Refines :
      {c : Cache M S} {v : ℕ → ℕ → S} (id : ℕ)
      → Refines zero_sector b disk count c v
      → Refines zero_sector b disk count
          (block_cache_drop_device c id)
          (λ k l. if k == id then disk c.devices k l else v k l)
  unfolding block_cache_drop_device
  block_cache_drop_device-Refines id r =
      drop_if-Refines (λ e. e.device_id == id) (λ k page. k == id) r (λ e x. refl)

  -- After the start nothing is cached, and the cache stands for what the devices hold.
  pub block_cache_init-Refines :
      (c : Cache M S)
      → length c.entries ≡ block_cache_max
      → Refines zero_sector b disk count (block_cache_init c) (disk c.devices)
  unfolding block_cache_init
  block_cache_init-Refines c h =
      let gone : (j : ℕ) → IsCached (entry_at (block_cache_init c) j) → ⊥ =
        λ j x. let f = (entry-drop_if (λ e. true) c.entries j x).1 in cc in
      record {
        size = length-drop_if (λ e. true) c.entries ∙ h;
        hand = omega arith;
        pages = λ i x. absurd (gone i x);
        cached = λ i k l x y. absurd (gone i x);
        stored = λ k l. inl refl;
        single = λ i j x y. absurd (gone i x);
      }
