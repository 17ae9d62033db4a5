-- ===== src/Core/Pmm/Tests.antt =====
-- Concrete runs of src/core/pmm.c: a machine whose only clear pages are 8 to 15, of which page 9
-- is then taken.
use mich_core.Base.{
  ℕ, ◌+◌, ◌*◌, ◌^◌, ◌≡◌, ◌≢◌, none, some, refl, arith, Bool, true, false, ltb, ◌==◌, if◌then◌else◌,
  suc, zero, ◌≤◌, ◌<◌, ◌%◌,
}
use mich_core.Core.Pmm.{
  Pmm, put, bitmap_bits, page_size, pmm_alloc_page, pmm_alloc_page_low, pmm_alloc_page_range,
  pmm_alloc_contiguous, pmm_reserve, pmm_set_alloc_limit, pmm_free_page, pmm_retain_page, freed,
  double_free, pmm_range_is_ram, first_free, take_found, find_run, page_limit,
}
use mich_core.Core.Pmm.Count.{
  IsValid, count_free, count_free-clear, count_free-none, pmm_reserve-IsValid,
}
use mich_core.Core.Pmm.Alloc.{Allocated, pmm_alloc-Allocated}
use mich_core.Core.Pmm.Refs.{pmm_free_page-pmm_retain_page, pmm_free_page-IsValid}
use mich_core.Core.Pmm.Init.{E820Entry, pmm_init, pmm_init-IsValid}
use mich_core.Core.Pmm.Run.{RunAllocated, pmm_alloc_contiguous-RunAllocated}

abbrev all_used : ℕ → Bool
all_used p = true

all_used-count : count_free bitmap_bits all_used ≡ 0
all_used-count = count_free-none bitmap_bits all_used (λ p. refl)

-- Two clear pages, 8 and 9, and page 10 with one reference.
abbrev two_pages : Pmm
two_pages = record {
  bitmap = put (put all_used 8 false) 9 false;
  ram_bitmap = λ p. ltb p 16;
  page_refs = λ p. if p == 10 then 1 else 0;
  free_pages = 2;
  max_page = 15;
  alloc_page_limit = bitmap_bits;
  memory = λ a. 7;
}

two_pages-IsValid : IsValid two_pages
two_pages-IsValid = record {
  counted = omega (
    arith,
    all_used-count,
    count_free-clear bitmap_bits 8 all_used (omega arith) refl,
    count_free-clear bitmap_bits 9 (put all_used 8 false) (omega arith) refl,
  );
  limit_in = omega arith;
  max_in = omega arith;
  marked = λ p r. ground arith;
}

low_run : (pmm_alloc_page_low two_pages).1 ≡ 8 * 4096
unfolding pmm_alloc_page_low first_free take_found
low_run = refl

contiguous_run : (pmm_alloc_contiguous two_pages 2 (2 ^ 24)).1 ≡ 8 * 4096
unfolding pmm_alloc_contiguous find_run page_limit
contiguous_run = refl

ram_run : pmm_range_is_ram two_pages (15 * 4096 + 5) 1 ≡ true
unfolding pmm_range_is_ram
ram_run = refl

pmm_alloc-Allocated_example :
    Allocated two_pages (pmm_alloc_page two_pages)
    × Allocated two_pages (pmm_alloc_page_low two_pages)
    × Allocated two_pages (pmm_alloc_page_range two_pages 36864 65536)
pmm_alloc-Allocated_example = pmm_alloc-Allocated 36864 65536 two_pages-IsValid

abbrev no_pages : Pmm
no_pages = record two_pages { bitmap = all_used; free_pages = 0 }

no_pages-IsValid : IsValid no_pages
no_pages-IsValid = record {
  counted = omega (arith, all_used-count);
  limit_in = omega arith;
  max_in = omega arith;
  marked = λ p r. refl;
}

no_pages-refused : (pmm_alloc_page no_pages).1 ≡ 0
unfolding pmm_alloc_page first_free take_found
no_pages-refused = refl

pmm_free_page-pmm_retain_page_example :
    let kept = pmm_retain_page two_pages (10 * page_size) in
    (kept.1 ≡ true)
    × ((m' : Pmm) × (pmm_free_page kept.0 (10 * page_size) ≡ freed m')
        × (m'.page_refs 10 ≡ 1)
        × (m'.bitmap 10 ≡ true)
        × (m'.free_pages ≡ 2))
pmm_free_page-pmm_retain_page_example =
    pmm_free_page-pmm_retain_page two_pages 10 10 (omega arith) (omega arith) (omega arith)
      (omega arith)

pmm_free_page-IsValid_example :
    (m' : Pmm) × (pmm_free_page two_pages (10 * page_size) ≡ freed m')
    × IsValid m'
    × (two_pages.page_refs 10 ≡ 1
        → (m'.bitmap 10 ≡ false)
          × (m'.free_pages ≡ two_pages.free_pages + 1)
          × (pmm_free_page m' (10 * page_size) ≡ double_free))
pmm_free_page-IsValid_example =
    pmm_free_page-IsValid 10 two_pages-IsValid (omega arith) (omega arith) (omega arith)

pmm_alloc_contiguous-RunAllocated_example :
    RunAllocated two_pages 2 16777216 (pmm_alloc_contiguous two_pages 2 16777216)
pmm_alloc_contiguous-RunAllocated_example =
    pmm_alloc_contiguous-RunAllocated 2 16777216 two_pages-IsValid (omega arith)

pmm_reserve-IsValid_example :
    IsValid (pmm_reserve two_pages 32768 5000) × IsValid (pmm_set_alloc_limit two_pages 40960)
pmm_reserve-IsValid_example = pmm_reserve-IsValid 32768 5000 40960 two_pages-IsValid

-- One usable region of four pages from 2 MB on, and a reserved entry over its second page.
abbrev small_map : ℕ → E820Entry
small_map zero = record { addr = 2097152; len = 16384; usable = true }
small_map (suc index) = record { addr = 2101248; len = 100; usable = false }

abbrev map_bytes : ℕ
map_bytes = 48

pmm_init-IsValid_example :
    (20 ≤ 24
      → 0 < 48
      → 48 % 24 ≡ 0
      → (m' : Pmm) × (pmm_init no_pages small_map 48 24 1200000 ≡ some m') × IsValid m')
    × (24 < 20 → pmm_init no_pages small_map 48 24 1200000 ≡ none)
    × (map_bytes ≡ 0 → pmm_init no_pages small_map 48 24 1200000 ≡ none)
    × (48 % 24 ≢ 0 → pmm_init no_pages small_map 48 24 1200000 ≡ none)
pmm_init-IsValid_example = pmm_init-IsValid no_pages small_map 48 24 1200000
