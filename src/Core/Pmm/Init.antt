-- ===== src/Core/Pmm/Init.antt =====
-- `pmm_init` of src/core/pmm.c: the allocator that it builds from the E820 map.
use mich_core.Base.{
  ℕ, zero, suc, ◌+◌, ◌-◌, ◌*◌, ◌/◌, ◌%◌, ◌^◌, ◌<◌, ◌≤◌, ◌≡◌, ◌≢◌, refl, sym, arith, Bool, true,
  false, not, ltb, leb, ◌==◌, ◌||◌, if◌then◌else◌, add32, max, min, Bool-cases, inl, inr, Option,
  none, some,
}
use mich_core.Core.Pmm.{Pmm, put, bitmap_bits, managed_end, page_size, pmm_reserve, pages_between}
use mich_core.Core.Pmm.Count.{
  IsValid, count_free, count_free-clear, count_free-none, count_free_le, pmm_reserve-IsValid,
}

-- An entry of the E820 map, in the layout that the boot loader leaves.
pub record E820Entry : Type 0 where
  pub addr : ℕ
  pub len : ℕ
  pub usable : Bool

-- One page of usable memory. Pages above the bitmap are left alone.
pub add_page : Pmm → ℕ → Pmm
add_page m page =
    let ram = record m { ram_bitmap = put m.ram_bitmap page true } in
    let cleared =
      if m.bitmap page
      then record ram { bitmap = put m.bitmap page false; free_pages = add32 m.free_pages 1 }
      else ram in
    if ltb page bitmap_bits then record cleared { max_page = max m.max_page page } else m

pub add_pages : ℕ → Pmm → ℕ → Pmm
add_pages zero m page = m
add_pages (suc left) m page = add_pages left (add_page m page) (suc page)

-- The whole pages of an entry.
pub add_region : Pmm → E820Entry → Pmm
add_region m e =
    let sum = (e.addr + e.len) % 2 ^ 64 in
    let region_end = if ltb sum e.addr then 2 ^ 64 - 1 else sum in
    let up = (e.addr + page_size - 1) % 2 ^ 64 / page_size * page_size in
    let start = if ltb up e.addr then 2 ^ 64 - 1 else up in
    if e.usable
    then add_pages (pages_between start (region_end / page_size * page_size)) m (start / page_size)
    else m

-- The first pass over the map, and the second, which takes back what is not usable.
pub add_regions : ℕ → (ℕ → E820Entry) → Pmm → ℕ → Pmm
add_regions zero entry_at m index = m
add_regions (suc left) entry_at m index =
    add_regions left entry_at (add_region m (entry_at index)) (suc index)

pub reserve_regions : ℕ → (ℕ → E820Entry) → Pmm → ℕ → Pmm
reserve_regions zero entry_at m index = m
reserve_regions (suc left) entry_at m index =
    let e = entry_at index in
    reserve_regions left entry_at
      (if e.usable || leb managed_end e.addr
        then m
        else pmm_reserve m e.addr (min e.len (managed_end - e.addr)))
      (suc index)

-- No page is memory, and every page is marked.
abbrev pub blank_pmm : Pmm → Pmm
blank_pmm m = record {
  bitmap = λ p. true;
  ram_bitmap = λ p. false;
  page_refs = λ p. 0;
  free_pages = 0;
  max_page = 0;
  alloc_page_limit = bitmap_bits;
  memory = m.memory;
}

-- `entry_at` reads the map at `mmap_addr`. `none` is the panic for an invalid map.
pub pmm_init : Pmm → (ℕ → E820Entry) → ℕ → ℕ → ℕ → Option Pmm
pmm_init m entry_at mmap_length entry_size kernel_end =
    let count = mmap_length / entry_size in
    let map = reserve_regions count entry_at (add_regions count entry_at (blank_pmm m) 0) 0 in
    if ltb entry_size 20 || (mmap_length == 0 || not (mmap_length % entry_size == 0))
    then none
    else some
        (pmm_reserve (pmm_reserve map 0 1048576) 1048576 ((kernel_end + 2 ^ 64 - 1048576) % 2 ^ 64))

-- The allocator while it is built: no page has references.
record IsFresh (m : Pmm) : Type 0 where
  valid : IsValid m
  no_refs : (p : ℕ) → m.page_refs p ≡ 0

add_page-IsFresh : {m : Pmm} (page : ℕ) → IsFresh m → IsFresh (add_page m page)
unfolding add_page
add_page-IsFresh {m} page v = elim (Bool-cases (ltb page bitmap_bits)) [
  | inr f ↦ rw f v
  | inl t ↦
      let below : page < bitmap_bits = ground arith in
      let top : max m.max_page page < bitmap_bits = omega (arith, v.valid.max_in) in
      elim (Bool-cases (m.bitmap page)) [
        | inl s ↦
            rw (t, s)
              (record {
                valid = record {
                  counted = omega (
                    arith,
                    v.valid.counted,
                    count_free-clear bitmap_bits page m.bitmap below s,
                    count_free_le bitmap_bits m.bitmap,
                  );
                  limit_in = v.valid.limit_in;
                  max_in = top;
                  marked = λ p r. let bad : 1 ≤ 0 = omega (arith, v.no_refs p) in grind arith;
                };
                no_refs = v.no_refs;
              })
        | inr f ↦
            rw (t, f)
              (record {
                valid = record {
                  counted = v.valid.counted;
                  limit_in = v.valid.limit_in;
                  max_in = top;
                  marked = v.valid.marked;
                };
                no_refs = v.no_refs;
              })
      ]
]

add_pages-IsFresh : (left : ℕ) {m : Pmm} (page : ℕ) → IsFresh m → IsFresh (add_pages left m page)
unfolding add_pages
add_pages-IsFresh zero page v = v
add_pages-IsFresh (suc left) page v = add_pages-IsFresh left (suc page) (add_page-IsFresh page v)

add_region-IsFresh : {m : Pmm} (e : E820Entry) → IsFresh m → IsFresh (add_region m e)
unfolding add_region
add_region-IsFresh {m} e v = elim (Bool-cases e.usable) [
  | inl t ↦ rw t (add_pages-IsFresh _ _ v)
  | inr f ↦ rw f v
]

add_regions-IsFresh :
    (left : ℕ) (entry_at : ℕ → E820Entry) {m : Pmm} (index : ℕ)
    → IsFresh m
    → IsFresh (add_regions left entry_at m index)
unfolding add_regions
add_regions-IsFresh zero entry_at index v = v
add_regions-IsFresh (suc left) entry_at index v =
    add_regions-IsFresh left entry_at (suc index) (add_region-IsFresh (entry_at index) v)

reserve_regions-IsValid :
    (left : ℕ) (entry_at : ℕ → E820Entry) {m : Pmm} (index : ℕ)
    → IsValid m
    → IsValid (reserve_regions left entry_at m index)
unfolding reserve_regions
reserve_regions-IsValid zero entry_at index v = v
reserve_regions-IsValid (suc left) entry_at {m} index v =
    let e = entry_at index in
    elim (Bool-cases (e.usable || leb managed_end e.addr)) [
      | inl t ↦ rw (t, reserve_regions) (reserve_regions-IsValid left entry_at (suc index) v)
      | inr f ↦
          rw (f, reserve_regions)
            (reserve_regions-IsValid left entry_at (suc index)
              (pmm_reserve-IsValid e.addr (min e.len (managed_end - e.addr)) 0 v).0)
    ]

-- For every map of whole entries of at least 20 bytes, `pmm_init` builds a valid allocator; any
-- other map is the panic.
pub pmm_init-IsValid :
    (m : Pmm) (entry_at : ℕ → E820Entry) (mmap_length entry_size kernel_end : ℕ)
    → (20 ≤ entry_size
        → 0 < mmap_length
        → mmap_length % entry_size ≡ 0
        → (m' : Pmm) × (pmm_init m entry_at mmap_length entry_size kernel_end ≡ some m')
          × IsValid m')
      × (entry_size < 20 → pmm_init m entry_at mmap_length entry_size kernel_end ≡ none)
      × (mmap_length ≡ 0 → pmm_init m entry_at mmap_length entry_size kernel_end ≡ none)
      × (mmap_length % entry_size ≢ 0
          → pmm_init m entry_at mmap_length entry_size kernel_end ≡ none)
unfolding pmm_init
pmm_init-IsValid m entry_at mmap_length entry_size kernel_end =
    let bad = ltb entry_size 20 || (mmap_length == 0 || not (mmap_length % entry_size == 0)) in
    let count = mmap_length / entry_size in
    let fresh : IsFresh (blank_pmm m) = record {
      valid = record {
        counted = blank_count m;
        limit_in = omega arith;
        max_in = omega arith;
        marked = λ p r. refl;
      };
      no_refs = λ p. refl;
    } in
    let map =
      reserve_regions-IsValid count entry_at 0 (add_regions-IsFresh count entry_at 0 fresh).valid in
    let low = (pmm_reserve-IsValid 0 1048576 0 map).0 in
    (
      λ a b c.
          let good : bad ≡ false = ground arith in
          rw good (
            _,
            refl,
            (pmm_reserve-IsValid 1048576 ((kernel_end + 2 ^ 64 - 1048576) % 2 ^ 64) 0 low).0,
          ),
      λ a. let is_bad : bad ≡ true = ground arith in rw is_bad refl,
      λ a. let is_bad : bad ≡ true = ground arith in rw is_bad refl,
      λ a. let is_bad : bad ≡ true = ground arith in rw is_bad refl,
    )
  where
    blank_count : (m : Pmm) → 0 ≡ count_free bitmap_bits (λ p. true)
    blank_count m = sym (count_free-none bitmap_bits (λ p. true) (λ p. refl))
