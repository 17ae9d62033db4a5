-- ===== src/Block/Cache/Tests.antt =====
-- Runs of src/block/cache.c over one device of twenty sectors, with value 7.
use mich_core.Base.{
  ℕ, ◌+◌, ◌-◌, ◌<◌, ◌≤◌, ◌≡◌, ◌≢◌, ◌⊎◌, inl, inr, refl, sym, subst, arith, true, false, leb,
  if◌then◌else◌, none, some, List, [], ◌∷◌, get_or, set, length, get_or-set_self, get_or-set_ne,
  Bool-cases, replicate, find_index, count_if, ltb, ◌^◌, ◌==◌, ◌&&◌,
}
use mich_core.Block.Cache.{
  Cache, BlockDevice, block_cache_max, blank_entry, block_cache_read, block_cache_write,
  block_cache_flush, block_cache_invalidate, block_cache_init, block_cache_drop_device,
  block_cache_dirty_count, page_lba, read_loop, write_loop, fill, lookup, miss, evict, evict_from,
  evict_at, load, read_sectors, copy_sectors,
}
use mich_core.Block.Cache.Refines.{IsDevice, Refines}
use mich_core.Block.Cache.Access.{block_cache_read-Refines}
use mich_core.Block.Cache.Write.{written, block_cache_write-Refines}
use mich_core.Block.Cache.Flush.{block_cache_flush-Refines}
use mich_core.Block.Cache.Drop.{block_cache_init-Refines, block_cache_drop_device-Refines}
use mich_core.Block.Cache.Invalidate.{block_cache_invalidate-Refines, block_cache_invalidate-none}

-- The sectors of the device, which are numbers here.
abbrev test_device : BlockDevice (List ℕ) ℕ
test_device = record {
  value = λ d. d;
  write_sector = λ m d l x. if d == 7 && ltb l (length m) then (set m l x, false) else (m, true);
  read_sector = λ m d l. if d == 7 && ltb l (length m) then (m, some (get_or m l 0)) else (m, none);
  block_info = λ m d. if d == 7 then some 20 else none;
}

abbrev test_disk : List ℕ → ℕ → ℕ → ℕ
test_disk m id l = if id == 7 then get_or m l 0 else 0

abbrev test_count : ℕ → ℕ
test_count id = 20

write_other_holds :
    (m : List ℕ) (d lba x id l : ℕ)
    → (id ≢ d) ⊎ (l ≢ lba)
    → test_disk (test_device.write_sector m d lba x).0 id l ≡ test_disk m id l
write_other_holds m d lba x id l h = elim (Bool-cases (d == 7 && ltb lba (length m))) [
  | inr f ↦ rw f refl
  | inl t ↦ rw t (elim (Bool-cases (id == 7)) [
    | inr g ↦ rw g refl
    | inl g ↦
        let apart : l ≢ lba = elim h [ inl q ↦ absurd (q (ground arith)) | inr q ↦ q ] in
        rw g (get_or-set_ne m x 0 (λ q. apart (sym q)))
  ])
]

write_self_holds :
    (m : List ℕ) (d lba x : ℕ)
    → (test_device.write_sector m d lba x).1 ≡ false
    → test_disk (test_device.write_sector m d lba x).0 d lba ≡ x
write_self_holds m d lba x h = elim (Bool-cases (d == 7 && ltb lba (length m))) [
  | inr f ↦ let failed : (test_device.write_sector m d lba x).1 ≡ true = rw f refl in cc
  | inl t ↦
      let of_device : (d == 7) ≡ true = ground arith in
      rw (t, of_device) (get_or-set_self m lba x 0 (ground arith))
]

read_self_holds :
    (m : List ℕ) (d lba x : ℕ)
    → (test_device.read_sector m d lba).1 ≡ some x
    → x ≡ test_disk m d lba
read_self_holds m d lba x h = elim (Bool-cases (d == 7 && ltb lba (length m))) [
  | inr f ↦ let failed : (test_device.read_sector m d lba).1 ≡ none = rw f refl in cc
  | inl t ↦
      let of_device : (d == 7) ≡ true = ground arith in
      let got : (test_device.read_sector m d lba).1 ≡ some (get_or m lba 0) = rw t refl in
      let same : x ≡ get_or m lba 0 = cc in rw of_device same
]

info_self_holds : (m : List ℕ) (d n : ℕ) → test_device.block_info m d ≡ some n → n ≡ test_count d
info_self_holds m d n h = elim (Bool-cases (d == 7)) [
  | inl t ↦ let got : test_device.block_info m d ≡ some 20 = rw t refl in cc
  | inr f ↦ let got : test_device.block_info m d ≡ none = rw f refl in cc
]

abbrev test_law : IsDevice test_device test_disk test_count
test_law = record {
  write_other = write_other_holds;
  write_self = write_self_holds;
  read_keeps = λ m d lba id l. elim (Bool-cases (d == 7 && ltb lba (length m))) [
    | inl t ↦ rw t refl
    | inr f ↦ rw f refl
  ];
  read_self = read_self_holds;
  info_self = info_self_holds;
}

abbrev test_sectors : List ℕ
test_sectors =
    10 ∷ 11 ∷ 12 ∷ 13 ∷ 14 ∷ 15 ∷ 16 ∷ 17 ∷ 18 ∷ 19 ∷ 20 ∷ 21 ∷ 22 ∷ 23 ∷ 24 ∷ 25 ∷ 26 ∷ 27 ∷ 28
    ∷ 29 ∷ []

abbrev fresh : Cache (List ℕ) ℕ
fresh =
    block_cache_init (record {
      entries = replicate block_cache_max blank_entry;
      clock = 5;
      devices = test_sectors;
    })

abbrev buffer : List ℕ
buffer = 1 ∷ 2 ∷ 3 ∷ []

-- Three sectors over two pages.
abbrev dirty : Cache (List ℕ) ℕ
dirty = (block_cache_write 0 test_device fresh 7 6 buffer 3).0

write_and_read :
    (block_cache_read 0 test_device dirty 7 5 (0 ∷ 0 ∷ 0 ∷ 0 ∷ 0 ∷ []) 5).1
    ≡ 15 ∷ 1 ∷ 2 ∷ 3 ∷ 19 ∷ []
unfolding block_cache_read block_cache_write block_cache_init read_loop write_loop fill lookup
    find_index miss evict evict_from evict_at load read_sectors copy_sectors
write_and_read = refl

-- Two dirty pages, which the device does not have yet.
two_dirty : (block_cache_dirty_count dirty ≡ 2) × (get_or dirty.devices 6 0 ≡ 16)
unfolding block_cache_dirty_count count_if block_cache_write block_cache_init write_loop fill lookup
    find_index miss evict evict_from evict_at load read_sectors copy_sectors
two_dirty = (refl, refl)

-- A sector behind the end of the device reads as zero, where its page starts before the end.
behind_the_end : (block_cache_read 0 test_device fresh 7 20 (9 ∷ []) 1).1 ≡ 0 ∷ []
unfolding block_cache_read block_cache_init read_loop fill lookup find_index miss evict evict_from
    evict_at load read_sectors copy_sectors
behind_the_end = refl

fresh-Refines : Refines 0 test_device test_disk test_count fresh (test_disk test_sectors)
fresh-Refines =
    block_cache_init-Refines 0 test_device test_disk test_count
      (record {
        entries = replicate block_cache_max blank_entry;
        clock = 5;
        devices = test_sectors;
      })
      refl

block_cache_write-Refines_example :
    (m : ℕ) × (m ≤ 3)
    × Refines 0 test_device test_disk test_count dirty
        (written 0 (test_disk test_sectors) 7 6 m buffer)
    × ((block_cache_write 0 test_device fresh 7 6 buffer 3).1 ≡ false → m ≡ 3)
block_cache_write-Refines_example =
    block_cache_write-Refines 0 test_device test_disk test_count test_law (test_disk test_sectors) 7
      6 buffer 3 fresh-Refines (omega arith) (omega arith)

abbrev contents : ℕ → ℕ → ℕ
contents = written 0 (test_disk test_sectors) 7 6 3 buffer

dirty-Refines : Refines 0 test_device test_disk test_count dirty contents
unfolding block_cache_write block_cache_init write_loop fill lookup find_index miss evict evict_from
    evict_at load read_sectors copy_sectors
dirty-Refines =
    let (m, h, r, e) = block_cache_write-Refines_example in
    subst
      (λ n.
        Refines 0 test_device test_disk test_count dirty
          (written 0 (test_disk test_sectors) 7 6 n buffer))
      (e refl) r

block_cache_read-Refines_example :
    let out = block_cache_read 0 test_device dirty 7 5 (0 ∷ 0 ∷ 0 ∷ 0 ∷ []) 4 in
    Refines 0 test_device test_disk test_count out.0 contents
    × (length out.1 ≡ 4)
    × ((t : ℕ) → 4 ≤ t → get_or out.1 t 0 ≡ get_or (0 ∷ 0 ∷ 0 ∷ 0 ∷ []) t 0)
    × (out.2 ≡ false → (t : ℕ) → t < 4 → get_or out.1 t 0 ≡ contents 7 (5 + t))
block_cache_read-Refines_example =
    block_cache_read-Refines 0 test_device test_disk test_count test_law 7 5 (0 ∷ 0 ∷ 0 ∷ 0 ∷ []) 4
      dirty-Refines (omega arith) (omega arith) (omega arith)

block_cache_flush-Refines_example :
    let out = block_cache_flush 0 test_device dirty 7 in
    Refines 0 test_device test_disk test_count out.0 contents
    × (out.1 ≡ false → (l : ℕ) → test_disk out.0.devices 7 l ≡ contents 7 l)
block_cache_flush-Refines_example =
    block_cache_flush-Refines 0 test_device test_disk test_count test_law 7 dirty-Refines

block_cache_invalidate-Refines_example :
    (c' : Cache (List ℕ) ℕ) × (block_cache_invalidate 3 dirty 7 7 1 ≡ some c')
    × (c'.devices ≡ dirty.devices)
    × Refines 0 test_device test_disk test_count c' (λ k l.
      if k == 7 && (leb (page_lba 7) (page_lba l) && ltb (page_lba l) (7 + 1))
      then test_disk dirty.devices k l
      else contents k l)
block_cache_invalidate-Refines_example =
    block_cache_invalidate-Refines 0 test_device test_disk test_count 3 7 7 1 dirty-Refines
      (omega arith) (omega arith) (omega arith)

block_cache_drop_device-Refines_example :
    Refines 0 test_device test_disk test_count
      (block_cache_drop_device dirty 7)
      (λ k l. if k == 7 then test_disk dirty.devices k l else contents k l)
block_cache_drop_device-Refines_example =
    block_cache_drop_device-Refines 0 test_device test_disk test_count 7 dirty-Refines

block_cache_invalidate-none_example : block_cache_invalidate 5 dirty 7 (2 ^ 32 - 4) 4 ≡ none
block_cache_invalidate-none_example =
    block_cache_invalidate-none 5 dirty 7 (2 ^ 32 - 4) 4 (omega arith) (omega arith) (omega arith)
