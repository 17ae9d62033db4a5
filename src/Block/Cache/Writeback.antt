-- ===== src/Block/Cache/Writeback.antt =====
-- Writing back and evicting in src/block/cache.c: neither changes what the cache stands for.
use mich_core.Base.{
  ℕ, zero, suc, ◌+◌, ◌-◌, ◌<◌, ◌≤◌, ◌≡◌, ◌≢◌, ◌⊎◌, inl, inr, refl, sym, subst, ◌∙◌, arith, true,
  false, Option, none, some, get_or, length, length-set, get_or-set_self, get_or-set_ne, ℕ_discrete,
  Bool-cases, dec_lt,
}
use mich_core.Block.Cache.{
  CacheState, cache_empty, cache_clean, cache_dirty, CacheEntry, Cache, BlockDevice,
  block_cache_max, blank_entry, entry_at, set_entry, is_cached, is_dirty, emptied, write_sectors,
  write_page, writeback,
}
use mich_core.Block.Cache.Refines.{IsDevice, Covers, IsCached, IsDirty, IsPage, Refines}

pub dirty-cached : (s : CacheState) → is_dirty s ≡ true → is_cached s ≡ true
dirty-cached cache_empty e = cc
dirty-cached cache_clean e = cc
dirty-cached cache_dirty e = refl

module _ {M S : Type 0} where
  pub entry-set_self :
      (c : Cache M S) (i : ℕ) (e : CacheEntry S)
      → i < length c.entries
      → entry_at (set_entry c i e) i ≡ e
  entry-set_self c i e h = get_or-set_self c.entries i e blank_entry h

  pub entry-set_ne :
      (c : Cache M S) (i j : ℕ) (e : CacheEntry S)
      → j ≢ i
      → entry_at (set_entry c i e) j ≡ entry_at c j
  entry-set_ne c i j e h = get_or-set_ne c.entries e blank_entry (λ q. h (sym q))

  -- A property of the entries after one is replaced.
  pub entry-set_cases :
      (P : ℕ → CacheEntry S → Type 0) (c : Cache M S) (i : ℕ) (e : CacheEntry S)
      → i < length c.entries
      → P i e
      → ((j : ℕ) → j ≢ i → P j (entry_at c j))
      → (j : ℕ) → P j (entry_at (set_entry c i e) j)
  entry-set_cases P c i e h here there j = elim (ℕ_discrete j i) [
    | yes q ↦ rw (q, entry-set_self c i e h) here
    | no q ↦ rw (entry-set_ne c i j e q) (there j q)
  ]

-- Entries that hold the same sector hold the same page.
pub same_page :
    {S : Type 0} {value count : ℕ → ℕ} (e f : CacheEntry S) (id l : ℕ)
    → IsPage value count e
    → IsPage value count f
    → Covers e id l
    → Covers f id l
    → (e.device_id ≡ f.device_id) × (e.lba ≡ f.lba)
same_page e f id l p q (a, b, c) (a', b', c') =
    (a ∙ sym a', omega (arith, p.aligned, q.aligned, p.held, q.held))

module _ {M S : Type 0} (zero_sector : S) (b : BlockDevice M S) (disk : M → ℕ → ℕ → S)
    (count : ℕ → ℕ) (law : IsDevice b disk count) where
  -- One entry is replaced, and the contents that the cache stands for change from `v` to `v'` where
  -- no other entry covers them.
  pub update-Refines :
      {c : Cache M S} {v : ℕ → ℕ → S} (v' : ℕ → ℕ → S) (i : ℕ) (e : CacheEntry S)
      → Refines zero_sector b disk count c v
      → i < block_cache_max
      → (IsCached e → IsPage b.value count e)
      → (IsCached e
          → (id l : ℕ) → Covers e id l
          → get_or e.contents (l - e.lba) zero_sector ≡ v' id l)
      → ((id l : ℕ)
          → (disk c.devices id l ≡ v id l) ⊎ (IsDirty (entry_at c i) × Covers (entry_at c i) id l)
          → (disk c.devices id l ≡ v' id l) ⊎ (IsDirty e × Covers e id l))
      → ((j id l : ℕ)
          → j ≢ i
          → IsCached (entry_at c j)
          → Covers (entry_at c j) id l
          → v' id l ≡ v id l)
      → (IsCached e
          → (j : ℕ) → j ≢ i
          → IsCached (entry_at c j)
          → e.device_id ≡ (entry_at c j).device_id
          → e.lba ≡ (entry_at c j).lba
          → i ≡ j)
      → Refines zero_sector b disk count (set_entry c i e) v'
  update-Refines {c} {v} v' i e r h page holds_v moved kept alone =
      let inside : i < length c.entries = omega (arith, r.size) in
      record {
        size = length-set c.entries i e ∙ r.size;
        hand = r.hand;
        pages =
            entry-set_cases (λ j f. IsCached f → IsPage b.value count f) c i e inside page
              (λ j q. r.pages j);
        cached = λ j id l.
            entry-set_cases
              (λ k f.
                IsCached f → Covers f id l → get_or f.contents (l - f.lba) zero_sector ≡ v' id l)
              c i e inside (λ x. holds_v x id l)
              (λ k q x y. r.cached k id l x y ∙ sym (kept k id l q x y)) j;
        stored = λ id l.
            let mine : (disk c.devices id l ≡ v' id l) ⊎ (IsDirty e × Covers e id l)
                → (disk c.devices id l ≡ v' id l)
                  ⊎ ((k : ℕ) × IsDirty (entry_at (set_entry c i e) k)
                      × Covers (entry_at (set_entry c i e) k) id l) =
              λ d. elim d [
                | inl z ↦ inl z
                | inr z ↦
                    inr (
                      i,
                      rw (entry-set_self c i e inside) z.0,
                      rw (entry-set_self c i e inside) z.1,
                    )
              ] in
            elim (r.stored id l) [
              | inl q ↦ mine (moved id l (inl q))
              | inr (j, d, k) ↦ elim (ℕ_discrete j i) [
                | yes q ↦ mine (
                    moved id l (
                      inr (
                        subst (λ n. IsDirty (entry_at c n)) q d,
                        subst (λ n. Covers (entry_at c n) id l) q k,
                      )))
                | no q ↦ inr (j, rw (entry-set_ne c i j e q) d, rw (entry-set_ne c i j e q) k)
              ]
            ];
        single =
            entry-set_cases
              (λ j f.
                (k : ℕ)
                → IsCached f
                → IsCached (entry_at (set_entry c i e) k)
                → f.device_id ≡ (entry_at (set_entry c i e) k).device_id
                → f.lba ≡ (entry_at (set_entry c i e) k).lba
                → j ≡ k)
              c i e inside
              (entry-set_cases
                (λ k g. IsCached e → IsCached g → e.device_id ≡ g.device_id → e.lba ≡ g.lba → i ≡ k)
                c i e inside (λ x y p q. refl) (λ k n x y p q. alone x k n y p q))
              (λ j n.
                entry-set_cases
                  (λ k g.
                    IsCached (entry_at c j)
                    → IsCached g
                    → (entry_at c j).device_id ≡ g.device_id
                    → (entry_at c j).lba ≡ g.lba
                    → j ≡ k)
                  c i e inside (λ x y p q. sym (alone y j n x (sym p) (sym q)))
                  (λ k z x y p q. r.single j k x y p q));
      }

  -- One entry is replaced, and the contents that the cache stands for stay.
  pub replace-Refines :
      {c : Cache M S} {v : ℕ → ℕ → S} (i : ℕ) (e : CacheEntry S)
      → Refines zero_sector b disk count c v
      → i < block_cache_max
      → (IsCached e → IsPage b.value count e)
      → (IsCached e
          → (id l : ℕ) → Covers e id l
          → get_or e.contents (l - e.lba) zero_sector ≡ v id l)
      → ((id l : ℕ)
          → IsDirty (entry_at c i)
          → Covers (entry_at c i) id l
          → (disk c.devices id l ≡ v id l) ⊎ (IsDirty e × Covers e id l))
      → (IsCached e
          → (j : ℕ) → j ≢ i
          → IsCached (entry_at c j)
          → e.device_id ≡ (entry_at c j).device_id
          → e.lba ≡ (entry_at c j).lba
          → i ≡ j)
      → Refines zero_sector b disk count (set_entry c i e) v
  replace-Refines {c} {v} i e r h page holds_v moved alone =
      update-Refines v i e r h page holds_v
        (λ id l q. elim q [ inl z ↦ inl z | inr z ↦ moved id l z.0 z.1 ]) (λ j id l n x y. refl)
        alone

  -- The devices change where the cache stands for the change already, or where it hides it.
  pub devices-Refines :
      {c : Cache M S} {v : ℕ → ℕ → S} (m : M)
      → Refines zero_sector b disk count c v
      → ((id l : ℕ)
          → (disk m id l ≡ disk c.devices id l)
            ⊎ (disk m id l ≡ v id l)
            ⊎ ((i : ℕ) × IsDirty (entry_at c i) × Covers (entry_at c i) id l))
      → Refines zero_sector b disk count (record c { devices = m }) v
  devices-Refines {c} {v} m r h = record {
    size = r.size;
    hand = r.hand;
    pages = r.pages;
    cached = r.cached;
    stored = λ id l. elim (h id l) [
      | inl e ↦ elim (r.stored id l) [ inl q ↦ inl (e ∙ q) | inr q ↦ inr q ]
      | inr (inl e) ↦ inl e
      | inr (inr d) ↦ inr d
    ];
    single = r.single;
  }

  -- What the writes of a page leave: the sectors that are not its own as they were, and, where none
  -- of the writes failed, its own as in the cache.
  write_sectors_lem :
      (left : ℕ) (m : M) (device : ℕ) (e : CacheEntry S) (s : ℕ)
      → let (m', failed) = write_sectors zero_sector b left m device e s in
        ((id l : ℕ)
          → (id ≢ b.value device) ⊎ ((l < e.lba + s) ⊎ (e.lba + (s + left) ≤ l))
          → disk m' id l ≡ disk m id l)
        × (failed ≡ false
            → (t : ℕ) → s ≤ t
            → t < s + left
            → disk m' (b.value device) (e.lba + t) ≡ get_or e.contents t zero_sector)
  unfolding write_sectors
  write_sectors_lem zero m device e s = (λ id l h. refl, λ f t h k. absurd (omega arith))
  write_sectors_lem (suc left) m device e s =
      let w = b.write_sector m device (e.lba + s) (get_or e.contents s zero_sector) in
      let (outside, inside) = write_sectors_lem left w.0 device e (suc s) in
      let one : (id l : ℕ)
          → (id ≢ b.value device) ⊎ ((l < e.lba + s) ⊎ (e.lba + (s + suc left) ≤ l))
          → disk w.0 id l ≡ disk m id l =
        λ id l h.
          law.write_other m device (e.lba + s) (get_or e.contents s zero_sector) id l (elim h [
            | inl q ↦ inl q
            | inr (inl q) ↦ inr (omega arith)
            | inr (inr q) ↦ inr (omega arith)
          ]) in
      let more : (id l : ℕ)
          → (id ≢ b.value device) ⊎ ((l < e.lba + s) ⊎ (e.lba + (s + suc left) ≤ l))
          → (id ≢ b.value device) ⊎ ((l < e.lba + suc s) ⊎ (e.lba + (suc s + left) ≤ l)) =
        λ id l h. elim h [
          | inl q ↦ inl q
          | inr (inl q) ↦ inr (inl (omega arith))
          | inr (inr q) ↦ inr (inr (omega arith))
        ] in
      elim (Bool-cases w.1) [
        | inl t ↦ rw t (one, λ f. cc)
        | inr f ↦ rw f (
          λ id l h. outside id l (more id l h) ∙ one id l h,
          λ g t h k. elim (ℕ_discrete t s) [
            | yes q ↦ rw q (
                outside (b.value device) (e.lba + s) (inr (inl (omega arith)))
                ∙ law.write_self m device (e.lba + s) (get_or e.contents s zero_sector) f)
            | no q ↦ inside g t (omega arith) (omega arith)
          ],
        )
      ]

  page_written :
      {c : Cache M S} {v : ℕ → ℕ → S} (i : ℕ) (device : Option ℕ)
      → Refines zero_sector b disk count c v
      → i < block_cache_max
      → IsDirty (entry_at c i)
      → (entry_at c i).device ≡ device
      → let (c', failed) = write_page zero_sector b c i device in
        Refines zero_sector b disk count c' v
        × (c'.clock ≡ c.clock)
        × (failed ≡ false → is_dirty (entry_at c' i).state ≡ false)
        × ((j : ℕ)
            → (is_cached (entry_at c' j).state ≡ is_cached (entry_at c j).state)
              × ((entry_at c' j).device_id ≡ (entry_at c j).device_id)
              × ((entry_at c' j).lba ≡ (entry_at c j).lba))
  unfolding write_page
  page_written {c} {v} i none r h t q = (r, refl, λ f. cc, λ j. (refl, refl, refl))
  page_written {c} {v} i (some device) r h t q =
      let e = entry_at c i in
      let full = dirty-cached e.state t in
      let id' = (r.pages i full).of_device device q in
      let (m, failed) = write_sectors zero_sector b e.sectors c.devices device e 0 in
      let (outside, inside) = write_sectors_lem e.sectors c.devices device e 0 in
      let c1 = record c { devices = m } in
      let r1 : Refines zero_sector b disk count c1 v = devices-Refines m r (λ id l.
        elim (ℕ_discrete id (b.value device)) [
          | no n ↦ inl (outside id l (inl n))
          | yes n ↦ elim (dec_lt l e.lba) [
            | yes k ↦ inl (outside id l (inr (inl (omega arith))))
            | no k ↦ elim (dec_lt l (e.lba + e.sectors)) [
              | no k' ↦ inl (outside id l (inr (inr (omega arith))))
              | yes k' ↦ inr (inr (i, t, (sym id' ∙ sym n, omega arith, k')))
            ]
          ]
        ]) in
      let clean = record e { state = cache_clean } in
      let size : i < length c.entries = omega (arith, r.size) in
      let page = r.pages i full in
      elim (Bool-cases failed) [
        | inl f ↦ rw f (r1, refl, λ x. cc, λ j. (refl, refl, refl))
        | inr f ↦ rw f (
          replace-Refines i clean r1 h
              (λ x. record {
                aligned = page.aligned;
                held = page.held;
                whole = page.whole;
                room = page.room;
                of_device = page.of_device;
              })
              (λ x id l k. r.cached i id l full k)
              (λ id l d k.
                let at : e.lba + (l - e.lba) ≡ l = omega arith in
                let own =
                  inside f (l - e.lba) (omega arith) (omega arith) ∙ r.cached i id l full k in
                inl (
                  subst (λ n. disk m n l ≡ v id l) (id' ∙ k.0)
                    (subst (λ n. disk m (b.value device) n ≡ v id l) at own)))
              (λ x j n y p z. r.single i j full y p z),
          refl,
          λ x. rw (entry-set_self c1 i clean size) refl,
          entry-set_cases
              (λ j f.
                (is_cached f.state ≡ is_cached (entry_at c j).state)
                × (f.device_id ≡ (entry_at c j).device_id)
                × (f.lba ≡ (entry_at c j).lba))
              c1 i clean size (sym full, refl, refl) (λ j n. (refl, refl, refl)),
        )
      ]

  -- A dirty entry is written back: it is clean, or it failed and stays as it was.
  pub writeback-Refines :
      {c : Cache M S} {v : ℕ → ℕ → S} (i : ℕ)
      → Refines zero_sector b disk count c v
      → i < block_cache_max
      → let (c', failed) = writeback zero_sector b c i in
        Refines zero_sector b disk count c' v
        × (c'.clock ≡ c.clock)
        × (failed ≡ false → is_dirty (entry_at c' i).state ≡ false)
        × ((j : ℕ)
            → (is_cached (entry_at c' j).state ≡ is_cached (entry_at c j).state)
              × ((entry_at c' j).device_id ≡ (entry_at c j).device_id)
              × ((entry_at c' j).lba ≡ (entry_at c j).lba))
  unfolding writeback
  writeback-Refines {c} {v} i r h = elim (Bool-cases (is_dirty (entry_at c i).state)) [
    | inr f ↦ rw f (r, refl, λ x. f, λ j. (refl, refl, refl))
    | inl t ↦ rw t (page_written i (entry_at c i).device r h t refl)
  ]

  -- An entry that is not dirty can be emptied.
  emptied-Refines :
      {c : Cache M S} {v : ℕ → ℕ → S} (i : ℕ)
      → Refines zero_sector b disk count c v
      → i < block_cache_max
      → is_dirty (entry_at c i).state ≡ false
      → Refines zero_sector b disk count (emptied c i) v
  emptied-Refines {c} i r h clean =
      replace-Refines i (record (entry_at c i) { state = cache_empty; device = none }) r h (λ x. cc)
        (λ x. cc) (λ id l d k. cc) (λ x. cc)
