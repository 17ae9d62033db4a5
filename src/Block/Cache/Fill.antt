-- ===== src/Block/Cache/Fill.antt =====
-- `fill` of src/block/cache.c: it keeps what the cache stands for, and the entry that it returns holds
-- the page of the sector that was asked for.
use mich_core.Base.{
  ℕ, zero, suc, ◌+◌, ◌-◌, ◌*◌, ◌%◌, ◌<◌, ◌≤◌, ◌≡◌, inl, inr, refl, sym, ap, subst, ◌∙◌, arith, true,
  false, leb, none, some, List, get_or, set, length, length-set, get_or-set_self, get_or-set_ne,
  get_or-outside, ℕ_discrete, Bool-cases, Option-cases, dec_lt, replicate, length-replicate,
  find_index-some, find_index-none, min,
}
use mich_core.Block.Cache.{
  cache_clean, CacheEntry, Cache, BlockDevice, block_cache_max, block_cache_sectors, blank_entry,
  entry_at, set_entry, is_cached, evict, read_sectors, load, miss, fill, lookup, holds, page_lba,
}
use mich_core.Block.Cache.Refines.{IsDevice, IsCached, Refines}
use mich_core.Block.Cache.Writeback.{entry-set_self, dirty-cached, devices-Refines, replace-Refines}
use mich_core.Block.Cache.Evict.{evict_from-Refines}

module _ {M S : Type 0} (zero_sector : S) (b : BlockDevice M S) (disk : M → ℕ → ℕ → S)
    (count : ℕ → ℕ) (law : IsDevice b disk count) where
  -- The sectors that are read land in the contents, and the devices keep theirs.
  read_sectors_lem :
      (left : ℕ) (m : M) (device page : ℕ) (contents : List S) (s : ℕ)
      → s + left ≤ length contents
      → let (m', got) = read_sectors zero_sector b left m device page contents s in
        ((id l : ℕ) → disk m' id l ≡ disk m id l)
        × ((xs : List S)
            → got ≡ some xs
            → (length xs ≡ length contents)
              × ((t : ℕ) → t < s → get_or xs t zero_sector ≡ get_or contents t zero_sector)
              × ((t : ℕ)
                  → s ≤ t
                  → t < s + left
                  → get_or xs t zero_sector ≡ disk m (b.value device) (page + t)))
  unfolding read_sectors
  read_sectors_lem zero m device page contents s h = (
    λ id l. refl,
    λ xs e.
        let same : contents ≡ xs = cc in
        subst
          (λ ys.
            (length ys ≡ length contents)
            × ((t : ℕ) → t < s → get_or ys t zero_sector ≡ get_or contents t zero_sector)
            × ((t : ℕ)
                → s ≤ t
                → t < s + 0
                → get_or ys t zero_sector ≡ disk m (b.value device) (page + t)))
          same (refl, λ t a. refl, λ t a k. absurd (omega arith)),
  )
  read_sectors_lem (suc left) m device page contents s h =
      let r = b.read_sector m device (page + s) in
      elim (Option-cases r.1) [
        | inl e ↦ rw (e, read_sectors) (law.read_keeps m device (page + s), λ xs q. cc)
        | inr (x, e) ↦
            let next = set contents s x in
            let size = length-set contents s x in
            let (keeps, got) = read_sectors_lem left r.0 device page next (suc s) (omega arith) in
            rw (e, read_sectors)
              (
                λ id l. keeps id l ∙ law.read_keeps m device (page + s) id l,
                λ xs q.
                    let (a, below, above) = got xs q in
                    (
                      a ∙ size,
                      λ t k.
                          below t (omega arith)
                          ∙ get_or-set_ne contents x zero_sector (λ z. omega arith),
                      λ t k l. elim (ℕ_discrete t s) [
                        | yes z ↦ rw z (
                            below s (omega arith)
                            ∙ get_or-set_self contents s x zero_sector (omega arith)
                            ∙ law.read_self m device (page + s) x e)
                        | no z ↦
                            above t (omega arith) (omega arith)
                            ∙ law.read_keeps m device (page + s) (b.value device) (page + t)
                      ],
                    ),
              )
      ]

  -- No entry holds the page.
  abbrev IsAbsent : Cache M S → ℕ → ℕ → Type 0
  IsAbsent c id page =
      (j : ℕ)
      → IsCached (entry_at c j)
      → (entry_at c j).device_id ≡ id
      → (entry_at c j).lba ≡ page
      → ⊥

  -- An entry that holds a page.
  pub record Held (c : Cache M S) (i id page : ℕ) : Type 0 where
    pub inside : i < block_cache_max
    pub is_in : IsCached (entry_at c i)
    pub id_of : (entry_at c i).device_id ≡ id
    pub page_of : (entry_at c i).lba ≡ page

  absent-stored :
      {c : Cache M S} {v : ℕ → ℕ → S} (id page l : ℕ)
      → Refines zero_sector b disk count c v
      → page % block_cache_sectors ≡ 0
      → IsAbsent c id page
      → page ≤ l
      → l < page + block_cache_sectors
      → disk c.devices id l ≡ v id l
  absent-stored {c} id page l r h a k k' = elim (r.stored id l) [
    | inl e ↦ e
    | inr (j, d, (x, y, z)) ↦
        let full = dirty-cached (entry_at c j).state d in
        let p = r.pages j full in absurd (a j full x (omega (arith, p.aligned, p.held)))
  ]

  load-Refines :
      {c : Cache M S} {v : ℕ → ℕ → S} (i device page n : ℕ)
      → Refines zero_sector b disk count c v
      → i < block_cache_max
      → is_cached (entry_at c i).state ≡ false
      → page % block_cache_sectors ≡ 0
      → IsAbsent c (b.value device) page
      → n ≡ count (b.value device)
      → let (c', got) = load zero_sector b c i device page n in
        Refines zero_sector b disk count c' v
        × ((j : ℕ) → got ≡ some j → Held c' j (b.value device) page)
  unfolding load
  load-Refines {c} {v} i device page n r h free al absent e = elim (Bool-cases (leb n page)) [
    | inl t ↦ rw t (r, λ j q. cc)
    | inr f ↦
        let id = b.value device in
        let sectors = min block_cache_sectors (n - page) in
        let blank = replicate block_cache_sectors zero_sector in
        let (m, got) = read_sectors zero_sector b sectors c.devices device page blank 0 in
        let room : 0 + sectors ≤ length blank =
          omega (arith, length-replicate block_cache_sectors zero_sector) in
        let (keeps, read) = read_sectors_lem sectors c.devices device page blank 0 room in
        let c1 = record c { devices = m } in
        let r1 : Refines zero_sector b disk count c1 v =
          devices-Refines zero_sector b disk count law m r (λ k l. inl (keeps k l)) in
        elim (Option-cases got) [
          | inl q ↦ rw (f, q, load) (r1, λ j x. cc)
          | inr (contents, q) ↦
              let (size, below, above) = read contents q in
              let full : CacheEntry S = record {
                device = some device;
                device_id = id;
                lba = page;
                sectors = sectors;
                state = cache_clean;
                contents = contents;
              } in
              let inside : i < length c.entries = omega (arith, r.size) in
              rw (f, q, load)
                (
                  replace-Refines zero_sector b disk count law i full r1 h
                      (λ x. record {
                        aligned = al;
                        held = omega arith;
                        whole = λ l a k u. let top : l < n = rw e u in omega arith;
                        room = size ∙ length-replicate block_cache_sectors zero_sector;
                        of_device = λ d z. ap b.value (let same : d ≡ device = cc in same);
                      })
                      (λ x id' l (a, k, u).
                        let at : page + (l - page) ≡ l = omega arith in
                        let got_it = above (l - page) (omega arith) (omega arith) in
                        let stored = absent-stored id page l r al absent k (omega arith) in
                        subst (λ k'. get_or contents (l - page) zero_sector ≡ v k' l) a
                          (subst
                              (λ l'. get_or contents (l - page) zero_sector ≡ disk c.devices id l')
                              at got_it
                            ∙ stored))
                      (λ k l d x. let full' = dirty-cached (entry_at c i).state d in cc)
                      (λ x j z y p w. absurd (absent j y (sym p) (sym w))),
                  λ j x.
                      let same : i ≡ j = cc in
                      let set = entry-set_self c1 i full inside in
                      subst (λ k. Held (set_entry c1 i full) k id page) same
                        (record {
                          inside = h;
                          is_in = ap (λ g. is_cached g.state) set;
                          id_of = ap (λ g. g.device_id) set;
                          page_of = ap (λ g. g.lba) set;
                        }),
                )
        ]
  ]

  page_twice : (lba : ℕ) → page_lba (page_lba lba) ≡ page_lba lba
  page_twice lba = omega arith

  holds_parts :
      (e : CacheEntry S) (id page : ℕ)
      → holds id page e ≡ true
      → IsCached e × (e.device_id ≡ id) × (e.lba ≡ page)
  holds_parts e id page h = (ground arith, ground arith, ground arith)

  holds_whole :
      (e : CacheEntry S) (id page : ℕ)
      → IsCached e
      → e.device_id ≡ id
      → e.lba ≡ page
      → holds id page e ≡ true
  holds_whole e id page a q p = rw (a, q, p) (ground arith)

  lookup-none : (c : Cache M S) (id lba : ℕ) → lookup c id lba ≡ none → IsAbsent c id (page_lba lba)
  unfolding lookup
  lookup-none c id lba e j full q p = elim (dec_lt j (length c.entries)) [
    | yes h ↦
        let no_hit = find_index-none (holds id (page_lba lba)) c.entries blank_entry j e h in
        let hit = holds_whole (entry_at c j) id (page_lba lba) full q p in cc
    | no h ↦
        let out =
          ap (λ (f : CacheEntry S). is_cached f.state)
            (get_or-outside c.entries j blank_entry (omega arith)) in
        cc
  ]

  lookup-Held :
      {c : Cache M S} {v : ℕ → ℕ → S} (i id lba : ℕ)
      → Refines zero_sector b disk count c v
      → lookup c id lba ≡ some i
      → Held c i id (page_lba lba)
  unfolding lookup
  lookup-Held {c} i id lba r e =
      let (h, hit) = find_index-some (holds id (page_lba lba)) c.entries blank_entry e in
      let (a, q, p) = holds_parts (entry_at c i) id (page_lba lba) hit in
      record { inside = omega (arith, r.size); is_in = a; id_of = q; page_of = p }

  -- A hit: only the device of the entry is set.
  claim-Refines :
      {c : Cache M S} {v : ℕ → ℕ → S} (i device page : ℕ)
      → Refines zero_sector b disk count c v
      → Held c i (b.value device) page
      → let c' = set_entry c i (record (entry_at c i) { device = some device }) in
        Refines zero_sector b disk count c' v × Held c' i (b.value device) page
  claim-Refines {c} i device page r h =
      let e : CacheEntry S = record (entry_at c i) { device = some device } in
      let p = r.pages i h.is_in in
      let set = entry-set_self c i e (omega (arith, r.size, h.inside)) in
      (
        replace-Refines zero_sector b disk count law i e r h.inside
            (λ x. record {
              aligned = p.aligned;
              held = p.held;
              whole = p.whole;
              room = p.room;
              of_device = λ d z. let same : d ≡ device = cc in ap b.value same ∙ sym h.id_of;
            })
            (λ x id l k. r.cached i id l h.is_in k) (λ id l d k. inr (d, k))
            (λ x j n y q w. r.single i j h.is_in y q w),
        record {
          inside = h.inside;
          is_in = ap (λ g. is_cached g.state) set ∙ h.is_in;
          id_of = ap (λ g. g.device_id) set ∙ h.id_of;
          page_of = ap (λ g. g.lba) set ∙ h.page_of;
        },
      )

  miss-Refines :
      {c : Cache M S} {v : ℕ → ℕ → S} (device page : ℕ)
      → Refines zero_sector b disk count c v
      → page % block_cache_sectors ≡ 0
      → IsAbsent c (b.value device) page
      → let (c', got) = miss zero_sector b c device page in
        Refines zero_sector b disk count c' v
        × ((i : ℕ) → got ≡ some i → Held c' i (b.value device) page)
  unfolding miss evict
  miss-Refines {c} {v} device page r al absent =
      let (c', got) = evict zero_sector b c in
      let (r', took, fewer) =
        evict_from-Refines zero_sector b disk count law (block_cache_max * 2) r in
      let absent' : IsAbsent c' (b.value device) page =
        λ j full q p. let (a, x, y) = fewer j full in absent j a (sym x ∙ q) (sym y ∙ p) in
      elim (Option-cases got) [
        | inl e ↦ rw (e, miss) (r', λ i x. cc)
        | inr (i, e) ↦
            let (h, free) = took i e in
            elim (Option-cases (b.block_info c'.devices device)) [
              | inl q ↦ rw (e, q, miss) (r', λ j x. cc)
              | inr (n, q) ↦
                  rw (e, q, miss)
                    (load-Refines i device page n r' h free al absent'
                      (law.info_self c'.devices device n q))
            ]
      ]

  -- `fill` keeps what the cache stands for. The entry that it returns holds the page.
  pub fill-Refines :
      {c : Cache M S} {v : ℕ → ℕ → S} (device lba : ℕ)
      → Refines zero_sector b disk count c v
      → let (c', got) = fill zero_sector b c device lba in
        Refines zero_sector b disk count c' v
        × ((i : ℕ) → got ≡ some i → Held c' i (b.value device) (page_lba lba))
  unfolding fill
  fill-Refines {c} {v} device lba r =
      elim (Option-cases (lookup c (b.value device) (page_lba lba))) [
        | inl e ↦
            rw (e, fill)
              (miss-Refines device (page_lba lba) r (omega arith) (
                subst (IsAbsent c (b.value device)) (page_twice lba)
                  (lookup-none c (b.value device) (page_lba lba) e)))
        | inr (i, e) ↦
            let held =
              subst (Held c i (b.value device)) (page_twice lba)
                (lookup-Held i (b.value device) (page_lba lba) r e) in
            let (r', h) = claim-Refines i device (page_lba lba) r held in
            let e' : CacheEntry S = record (entry_at c i) { device = some device } in
            rw (e, fill)
              (
                r',
                λ j q.
                    let same : i ≡ j = cc in
                    subst (λ k. Held (set_entry c i e') k (b.value device) (page_lba lba)) same h,
              )
      ]
