-- ===== src/Block/Cache/Refines.antt =====
-- What the cache of src/block/cache.c stands for: the contents of all devices, with the writes that
-- have not reached them yet.
use mich_core.Base.{ℕ, ◌+◌, ◌-◌, ◌%◌, ◌<◌, ◌≤◌, ◌≡◌, ◌≢◌, ◌⊎◌, true, false, some, get_or, length}
use mich_core.Block.Cache.{
  CacheEntry, Cache, BlockDevice, block_cache_max, block_cache_sectors, entry_at, is_cached,
  is_dirty,
}

-- The documented behaviour of a block device. `disk` is what a device of some value holds, and
-- `count` its number of sectors. A write that fails may leave anything in its own sector.
pub record IsDevice {M S : Type 0} (b : BlockDevice M S) (disk : M → ℕ → ℕ → S) (count : ℕ → ℕ)
    : Type 0 where
  pub write_other :
      (m : M) (device lba : ℕ) (x : S) (id l : ℕ)
      → (id ≢ b.value device) ⊎ (l ≢ lba)
      → disk (b.write_sector m device lba x).0 id l ≡ disk m id l
  pub write_self :
      (m : M) (device lba : ℕ) (x : S)
      → (b.write_sector m device lba x).1 ≡ false
      → disk (b.write_sector m device lba x).0 (b.value device) lba ≡ x
  pub read_keeps :
      (m : M) (device lba id l : ℕ) → disk (b.read_sector m device lba).0 id l ≡ disk m id l
  pub read_self :
      (m : M) (device lba : ℕ) (x : S)
      → (b.read_sector m device lba).1 ≡ some x
      → x ≡ disk m (b.value device) lba
  pub info_self :
      (m : M) (device n : ℕ) → b.block_info m device ≡ some n → n ≡ count (b.value device)

-- The sector `l` of the device `id` is among those of the entry.
abbrev pub Covers : {S : Type 0} → CacheEntry S → ℕ → ℕ → Type 0
Covers e id l = (e.device_id ≡ id) × (e.lba ≤ l) × (l < e.lba + e.sectors)

abbrev pub IsCached : {S : Type 0} → CacheEntry S → Type 0
IsCached e = is_cached e.state ≡ true

abbrev pub IsDirty : {S : Type 0} → CacheEntry S → Type 0
IsDirty e = is_dirty e.state ≡ true

-- A cached entry holds a page of its device, up to the end of it.
pub record IsPage {S : Type 0} (value : ℕ → ℕ) (count : ℕ → ℕ) (e : CacheEntry S) : Type 0 where
  pub aligned : e.lba % block_cache_sectors ≡ 0
  pub held : e.sectors ≤ block_cache_sectors
  pub whole :
      (l : ℕ)
      → e.lba ≤ l
      → l < e.lba + block_cache_sectors
      → l < count e.device_id
      → l < e.lba + e.sectors
  pub room : length e.contents ≡ block_cache_sectors
  pub of_device : (d : ℕ) → e.device ≡ some d → value d ≡ e.device_id

-- The cache stands for the contents `v`: each cached sector is that of `v`, a sector of a device is
-- that of `v` unless a dirty entry covers it, and no page is cached twice.
pub record Refines {M S : Type 0} (zero_sector : S) (b : BlockDevice M S) (disk : M → ℕ → ℕ → S)
    (count : ℕ → ℕ) (c : Cache M S) (v : ℕ → ℕ → S) : Type 0 where
  pub size : length c.entries ≡ block_cache_max
  pub hand : c.clock < block_cache_max
  pub pages : (i : ℕ) → IsCached (entry_at c i) → IsPage b.value count (entry_at c i)
  pub cached :
      (i id l : ℕ)
      → IsCached (entry_at c i)
      → Covers (entry_at c i) id l
      → get_or (entry_at c i).contents (l - (entry_at c i).lba) zero_sector ≡ v id l
  pub stored :
      (id l : ℕ)
      → (disk c.devices id l ≡ v id l)
        ⊎ ((i : ℕ) × IsDirty (entry_at c i) × Covers (entry_at c i) id l)
  pub single :
      (i j : ℕ)
      → IsCached (entry_at c i)
      → IsCached (entry_at c j)
      → (entry_at c i).device_id ≡ (entry_at c j).device_id
      → (entry_at c i).lba ≡ (entry_at c j).lba
      → i ≡ j
