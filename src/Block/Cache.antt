-- ===== src/Block/Cache.antt =====
-- src/block/cache.c: the write-back cache of pages of eight sectors, with a clock that picks what to
-- evict. The static array and the clock are one record, together with the state of the devices.
-- Every copy of the source is of whole sectors, so contents and buffers are lists of sectors, and
-- what a sector is stays a parameter. A device is a pointer, known here by a number, and `value` of
-- `BlockDevice` is `(u32)device->value`, the only use that the source makes of that field.
-- `block_io` and `block_info` of src/block/block.c are the record `BlockDevice`.
pub mod Refines
pub mod Writeback
pub mod Evict
pub mod Fill
pub mod Copy
pub mod Access
pub mod Write
pub mod Flush
pub mod Drop
pub mod Invalidate
mod Tests
use mich_core.Base.{
  ℕ, zero, suc, ◌+◌, ◌-◌, ◌*◌, ◌/◌, ◌%◌, Bool, true, false, not, ◌&&◌, ◌||◌, Option, none, some,
  List, [], ◌∷◌, ltb, leb, ◌==◌, if◌then◌else◌, add32, sub32, get_or, set, length, replicate,
  find_index, count_if, min,
}

pub data CacheState : Type 0 where
  cache_empty cache_clean cache_dirty : CacheState

pub record CacheEntry (S : Type 0) : Type 0 where
  pub device : Option ℕ
  pub device_id : ℕ
  pub lba : ℕ
  pub sectors : ℕ
  pub state : CacheState
  pub contents : List S

pub record Cache (M S : Type 0) : Type 0 where
  pub entries : List (CacheEntry S)
  pub clock : ℕ
  pub devices : M

abbrev pub block_cache_max : ℕ
block_cache_max = 16

abbrev pub block_cache_sectors : ℕ
block_cache_sectors = 8

-- One sector is written or read at a time. The Boolean of a write tells that it failed.
pub record BlockDevice (M S : Type 0) : Type 0 where
  pub value : ℕ → ℕ
  pub write_sector : M → ℕ → ℕ → S → M × Bool
  pub read_sector : M → ℕ → ℕ → M × Option S
  pub block_info : M → ℕ → Option ℕ

abbrev pub page_lba : ℕ → ℕ
page_lba lba = lba - lba % block_cache_sectors

abbrev pub is_cached : CacheState → Bool
is_cached cache_empty = false
is_cached s = true

abbrev pub is_dirty : CacheState → Bool
is_dirty cache_dirty = true
is_dirty s = false

-- The test of `lookup`.
abbrev pub holds : {S : Type 0} → ℕ → ℕ → CacheEntry S → Bool
holds id page e = is_cached e.state && (e.device_id == id && e.lba == page)

abbrev pub blank_entry : {S : Type 0} → CacheEntry S
blank_entry = record {
  device = none;
  device_id = 0;
  lba = 0;
  sectors = 0;
  state = cache_empty;
  contents = [];
}

-- An entry that is dropped keeps its contents, which nothing reads.
abbrev pub dropped : {S : Type 0} → CacheEntry S → CacheEntry S
dropped e = record blank_entry { contents = e.contents }

abbrev pub drop_if :
    {S : Type 0} → (CacheEntry S → Bool) → List (CacheEntry S) → List (CacheEntry S)
drop_if p [] = []
drop_if p (e ∷ es) = (if p e then dropped e else e) ∷ drop_if p es

module _ {S : Type 0} (zero_sector : S) where
  -- `copy_bytes`, in sectors: from `from` of the source to `to` of the destination.
  pub copy_sectors : ℕ → List S → ℕ → List S → ℕ → List S
  copy_sectors zero dst to src from = dst
  copy_sectors (suc n) dst to src from =
      copy_sectors n (set dst to (get_or src from zero_sector)) (suc to) src (suc from)

module _ {M S : Type 0} where
  abbrev pub entry_at : Cache M S → ℕ → CacheEntry S
  entry_at c i = get_or c.entries i blank_entry

  abbrev pub set_entry : Cache M S → ℕ → CacheEntry S → Cache M S
  set_entry c i e = record c { entries = set c.entries i e }

  pub lookup : Cache M S → ℕ → ℕ → Option ℕ
  lookup c device_id lba = find_index (holds device_id (page_lba lba)) c.entries

  -- The entry is free, and is the one that `evict` returns.
  abbrev pub emptied : Cache M S → ℕ → Cache M S
  emptied c i = set_entry c i (record (entry_at c i) { state = cache_empty; device = none })

  pub block_cache_drop_device : Cache M S → ℕ → Cache M S
  block_cache_drop_device c id = record c { entries = drop_if (λ e. e.device_id == id) c.entries }

  -- The loop of `block_cache_invalidate` over the pages from `page` to `last`, with `none` where
  -- the fuel does not reach its end.
  pub invalidate_from : ℕ → Cache M S → ℕ → ℕ → ℕ → Option (Cache M S)
  invalidate_from zero c id page last = if ltb last page then some c else none
  invalidate_from (suc fuel) c id page last =
      let c' = record c { entries = drop_if (holds id page) c.entries } in
      let rest = invalidate_from fuel c' id (add32 page block_cache_sectors) last in
      if ltb last page then some c else rest

  -- `id` is a value of a device, as a u32.
  pub block_cache_invalidate : ℕ → Cache M S → ℕ → ℕ → ℕ → Option (Cache M S)
  block_cache_invalidate fuel c id lba sectors =
      if sectors == 0
      then some c
      else invalidate_from fuel c id (page_lba lba) (page_lba (sub32 (add32 lba sectors) 1))

  pub block_cache_init : Cache M S → Cache M S
  block_cache_init c = record c { entries = drop_if (λ e. true) c.entries; clock = 0 }

  pub block_cache_dirty_count : Cache M S → ℕ
  block_cache_dirty_count c = count_if (λ e. is_dirty e.state) c.entries

module _ {M S : Type 0} (zero_sector : S) (b : BlockDevice M S) where
  -- The writes of one page from sector `s` on. True is a failure.
  pub write_sectors : ℕ → M → ℕ → CacheEntry S → ℕ → M × Bool
  write_sectors zero m device e s = (m, false)
  write_sectors (suc left) m device e s =
      let (m', failed) = b.write_sector m device (e.lba + s) (get_or e.contents s zero_sector) in
      let rest = write_sectors left m' device e (suc s) in if failed then (m', true) else rest

  pub write_page : Cache M S → ℕ → Option ℕ → Cache M S × Bool
  write_page c i none = (c, true)
  write_page c i (some device) =
      let e = entry_at c i in
      let (m, failed) = write_sectors e.sectors c.devices device e 0 in
      let c' = record c { devices = m } in
      if failed then (c', true) else (set_entry c' i (record e { state = cache_clean }), false)

  pub writeback : Cache M S → ℕ → Cache M S × Bool
  writeback c i =
      if not (is_dirty (entry_at c i).state)
      then (c, false)
      else write_page c i (entry_at c i).device

  -- One round of the clock: the entry under its hand, if that can be had.
  pub evict_at : Cache M S → ℕ → CacheState → Cache M S × Bool
  evict_at c i cache_empty = (c, true)
  evict_at c i cache_clean = (emptied c i, true)
  evict_at c i cache_dirty =
      let (c', failed) = writeback c i in if failed then (c', false) else (emptied c' i, true)

  pub evict_from : ℕ → Cache M S → Cache M S × Option ℕ
  evict_from zero c = (c, none)
  evict_from (suc left) c =
      let i = c.clock in
      let next = if leb block_cache_max (i + 1) then 0 else i + 1 in
      let (c', got) = evict_at (record c { clock = next }) i (entry_at c i).state in
      let rest = evict_from left c' in if got then (c', some i) else rest

  pub evict : Cache M S → Cache M S × Option ℕ
  evict = evict_from (block_cache_max * 2)

  -- The reads of one page from sector `s` on, into the contents.
  pub read_sectors : ℕ → M → ℕ → ℕ → List S → ℕ → M × Option (List S)
  read_sectors zero m device page contents s = (m, some contents)
  read_sectors (suc left) m device page contents s =
      let (m', got) = b.read_sector m device (page + s) in
      elim got [
        | none ↦ (m', none)
        | some x ↦ read_sectors left m' device page (set contents s x) (suc s)
      ]

  -- The end of `fill`: entry `i` takes the page. It is empty until all of the page is read, and
  -- what a failed read leaves in an empty entry is not kept here, since nothing reads it.
  pub load : Cache M S → ℕ → ℕ → ℕ → ℕ → Cache M S × Option ℕ
  load c i device page count =
      let sectors = min block_cache_sectors (count - page) in
      if leb count page
      then (c, none)
      else let blank = replicate block_cache_sectors zero_sector in
        let (m, got) = read_sectors sectors c.devices device page blank 0 in
        let c' = record c { devices = m } in
        elim got [
          | none ↦ (c', none)
          | some contents ↦ (
            set_entry c' i (record {
              device = some device;
              device_id = b.value device;
              lba = page;
              sectors = sectors;
              state = cache_clean;
              contents = contents;
            }),
            some i,
          )
        ]

  -- A miss: an entry is evicted for the page.
  pub miss : Cache M S → ℕ → ℕ → Cache M S × Option ℕ
  miss c device page =
      let (c', got) = evict c in
      elim got [
        | none ↦ (c', none)
        | some i ↦ elim (b.block_info c'.devices device) [
          | none ↦ (c', none)
          | some count ↦ load c' i device page count
        ]
      ]

  pub fill : Cache M S → ℕ → ℕ → Cache M S × Option ℕ
  fill c device lba = elim (lookup c (b.value device) (page_lba lba)) [
    | some i ↦ (set_entry c i (record (entry_at c i) { device = some device }), some i)
    | none ↦ miss c device (page_lba lba)
  ]

  -- The number of sectors that one pass of a transfer copies: those of the page, at most.
  abbrev pub pass : ℕ → ℕ → ℕ
  pass offset left =
      if ltb left (block_cache_sectors - offset) then left else block_cache_sectors - offset

  -- The loop of `block_cache_read`, with at most `fuel` passes. The results are the cache, the
  -- buffer and whether it failed.
  pub read_loop : ℕ → Cache M S → ℕ → ℕ → List S → ℕ → ℕ → Cache M S × List S × Bool
  read_loop zero c device lba buffer sectors done = (c, buffer, false)
  read_loop (suc fuel) c device lba buffer sectors done =
      if leb sectors done
      then (c, buffer, false)
      else let (c', got) = fill c device (add32 lba done) in
        elim got [
          | none ↦ (c', buffer, true)
          | some i ↦
              let e = entry_at c' i in
              let offset = sub32 (add32 lba done) e.lba in
              let n = pass offset (sectors - done) in
              read_loop fuel c' device lba
                (copy_sectors zero_sector n buffer done e.contents offset) sectors (done + n)
        ]

  pub block_cache_read : Cache M S → ℕ → ℕ → List S → ℕ → Cache M S × List S × Bool
  block_cache_read c device lba buffer sectors =
      if sectors == 0 then (c, buffer, true) else read_loop sectors c device lba buffer sectors 0

  pub write_loop : ℕ → Cache M S → ℕ → ℕ → List S → ℕ → ℕ → Cache M S × Bool
  write_loop zero c device lba buffer sectors done = (c, false)
  write_loop (suc fuel) c device lba buffer sectors done =
      if leb sectors done
      then (c, false)
      else let (c', got) = fill c device (add32 lba done) in
        elim got [
          | none ↦ (c', true)
          | some i ↦
              let e = entry_at c' i in
              let offset = sub32 (add32 lba done) e.lba in
              let n = pass offset (sectors - done) in
              write_loop fuel
                (set_entry c' i (record e {
                  contents = copy_sectors zero_sector n e.contents offset buffer done;
                  state = cache_dirty;
                }))
                device lba buffer sectors (done + n)
        ]

  pub block_cache_write : Cache M S → ℕ → ℕ → List S → ℕ → Cache M S × Bool
  block_cache_write c device lba buffer sectors =
      if sectors == 0 then (c, true) else write_loop sectors c device lba buffer sectors 0

  -- The loop of `block_cache_flush` over `left` entries from `i` on. True is a failure.
  pub flush_from : ℕ → Cache M S → ℕ → ℕ → Cache M S × Bool
  flush_from zero c device i = (c, false)
  flush_from (suc left) c device i =
      let claimed = set_entry c i (record (entry_at c i) { device = some device }) in
      let (c', failed) = writeback claimed i in
      let skipped = flush_from left c device (suc i) in
      let rest = flush_from left c' device (suc i) in
      if not ((entry_at c i).device_id == b.value device)
      then skipped
      else if failed
      then (c', true)
      else rest

  pub block_cache_flush : Cache M S → ℕ → Cache M S × Bool
  block_cache_flush c device = flush_from block_cache_max c device 0
