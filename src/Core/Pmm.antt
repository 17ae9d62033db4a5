-- ===== src/Core/Pmm.antt =====
-- src/core/pmm.c: the physical page allocator, in its 64-bit build. A bit of `bitmap` or
-- `ram_bitmap` is the value of a function at the page's number, `page_refs` is a function as well,
-- and `memory` is physical memory by byte address. A physical address of 0 is the answer for
-- "no page", as in the source. `pmm_klock` makes each operation atomic and has no counterpart, and
-- the warnings on the serial line are left out.
pub mod Count
pub mod Alloc
pub mod Refs
pub mod Run
pub mod Init
mod Tests
use mich_core.Base.{
  ℕ, zero, suc, ◌+◌, ◌-◌, ◌*◌, ◌/◌, ◌%◌, ◌^◌, min, max, Bool, true, false, not, ◌&&◌, ◌||◌, Option,
  none, some, ltb, leb, ◌==◌, if◌then◌else◌, add32, sub32, mul32,
}

abbrev pub page_size : ℕ
page_size = 4096

abbrev pub bitmap_bits : ℕ
bitmap_bits = 1048576

abbrev pub managed_end : ℕ
managed_end = 4294967296

pub record Pmm : Type 0 where
  pub bitmap : ℕ → Bool
  pub ram_bitmap : ℕ → Bool
  pub page_refs : ℕ → ℕ
  pub free_pages : ℕ
  pub max_page : ℕ
  pub alloc_page_limit : ℕ
  pub memory : ℕ → ℕ

-- A function changed at one argument.
abbrev pub put {ℓ} : {A : Type ℓ} → (ℕ → A) → ℕ → A → ℕ → A
put f i x j = if j == i then x else f j

-- The loops of `pmm_reserve` and `pmm_set_alloc_limit`, over `left` pages from `page`.
pub reserve_pages : ℕ → Pmm → ℕ → Pmm
reserve_pages zero m page = m
reserve_pages (suc left) m page =
    reserve_pages left
      (if m.bitmap page
        then m
        else record m { bitmap = put m.bitmap page true; free_pages = sub32 m.free_pages 1 })
      (suc page)

-- The end of a reservation, rounded up to a page where that fits 64 bits, and cut to 4 GB.
abbrev pub reserve_end : ℕ → ℕ → ℕ
reserve_end addr len =
    let end = (addr + len) % 2 ^ 64 in
    let rounded =
      if ltb (2 ^ 64 - page_size) end
      then 2 ^ 64 - 1
      else (end + page_size - 1) / page_size * page_size in
    min managed_end rounded

-- An end that is not on a page boundary ends after the page that it cuts.
abbrev pub pages_between : ℕ → ℕ → ℕ
pages_between first end = (end - first + page_size - 1) / page_size

pub pmm_reserve : Pmm → ℕ → ℕ → Pmm
pmm_reserve m addr len =
    let first = addr / page_size * page_size in
    if len == 0 || leb managed_end first
    then m
    else reserve_pages (pages_between first (reserve_end addr len)) m (first / page_size)

pub pmm_set_alloc_limit : Pmm → ℕ → Pmm
pmm_set_alloc_limit m end =
    let pages = min bitmap_bits (end / page_size) in
    reserve_pages (bitmap_bits - pages) (record m { alloc_page_limit = pages }) pages

-- The page is marked, has one reference and is filled with zeros.
pub pmm_take_page : Pmm → ℕ → Pmm
pmm_take_page m page = record m {
  bitmap = put m.bitmap page true;
  page_refs = put m.page_refs page 1;
  free_pages = sub32 m.free_pages 1;
  memory = λ a. if a / page_size == page then 0 else m.memory a;
}

-- The scan of the allocators: the first page of `left` from `page` whose bit is clear.
pub first_free : ℕ → (ℕ → Bool) → ℕ → Option ℕ
first_free zero used page = none
first_free (suc left) used page =
    let rest = first_free left used (suc page) in if used page then rest else some page

pub take_found : Pmm → Option ℕ → Pmm × ℕ
take_found m none = (m, 0)
take_found m (some page) = (pmm_take_page m page, page * page_size)

pub pmm_alloc_page_range : Pmm → ℕ → ℕ → Pmm × ℕ
pmm_alloc_page_range m start end =
    let first64 = (start + page_size - 1) / page_size in
    let limit64 = min (m.max_page + 1) (min m.alloc_page_limit (end / page_size)) in
    let first = max 1 first64 in
    if leb end start || (ltb (2 ^ 64 - page_size) start || leb bitmap_bits first64)
    then (m, 0)
    else take_found m (first_free (limit64 - first) m.bitmap first)

-- 16 MB, above which `pmm_alloc_page` looks first.
abbrev pub high_start : ℕ
high_start = 4096

pub pmm_alloc_page : Pmm → Pmm × ℕ
unfolding first_free
pmm_alloc_page m =
    let limit = min m.alloc_page_limit (add32 m.max_page 1) in
    elim (first_free (limit - high_start) m.bitmap high_start) [
      | none ↦ take_found m (first_free (min high_start limit - 1) m.bitmap 1)
      | some page ↦ take_found m (some page)
    ]

pub pmm_alloc_page_low : Pmm → Pmm × ℕ
pmm_alloc_page_low m =
    let limit = min (add32 m.max_page 1) (min m.alloc_page_limit high_start) in
    take_found m (first_free (limit - 1) m.bitmap 1)

-- The scan of `pmm_alloc_contiguous`: `run` pages are clear before `page`, from `run_start` on.
pub find_run : ℕ → (ℕ → Bool) → ℕ → ℕ → ℕ → ℕ → Option ℕ
find_run zero used pages page run run_start = none
find_run (suc left) used pages page run run_start =
    let start = if run == 0 then page else run_start in
    let taken = find_run left used pages (suc page) 0 run_start in
    let longer = find_run left used pages (suc page) (suc run) start in
    if used page then taken else if suc run == pages then some start else longer

-- The run is marked and each of its pages has one reference.
pub take_run : ℕ → Pmm → ℕ → Pmm
take_run zero m page = m
take_run (suc left) m page =
    take_run left (record m { bitmap = put m.bitmap page true; page_refs = put m.page_refs page 1 })
      (suc page)

pub page_limit : Pmm → ℕ → ℕ
page_limit m max_addr =
    let address_limit = (max_addr + 1) % 2 ^ 64 in
    let limit =
      if address_limit == 0 then m.alloc_page_limit else address_limit / page_size % 2 ^ 32 in
    min (add32 m.max_page 1) (min m.alloc_page_limit limit)

pub pmm_alloc_contiguous : Pmm → ℕ → ℕ → Pmm × ℕ
unfolding find_run
pmm_alloc_contiguous m pages max_addr =
    let limit = page_limit m max_addr in
    if pages == 0 || (ltb m.free_pages pages || ltb limit pages)
    then (m, 0)
    else elim (find_run (limit - 1) m.bitmap pages 1 0 0) [
      | none ↦ (m, 0)
      | some start ↦
          let m' = take_run pages m start in
          (record m' { free_pages = sub32 m'.free_pages pages }, mul32 start page_size)
    ]

-- The answer of `pmm_free_page`: the allocator, or the panic that stops the kernel.
pub data Freed : Type 0 where
  freed : Pmm → Freed
  unaligned_free invalid_free double_free : Freed

-- A reference goes, and with the last one the page.
pub drop_ref : Pmm → ℕ → Pmm
drop_ref m page =
    let refs = m.page_refs page - 1 in
    let m' = record m { page_refs = put m.page_refs page refs } in
    if refs == 0
    then record m' { bitmap = put m'.bitmap page false; free_pages = add32 m'.free_pages 1 }
    else m'

pub pmm_free_page : Pmm → ℕ → Freed
pmm_free_page m addr =
    let page = addr / page_size in
    if not (addr % page_size == 0)
    then unaligned_free
    else if page == 0 || leb bitmap_bits page
    then invalid_free
    else if m.page_refs page == 0
    then double_free
    else freed (drop_ref m page)

-- True is the answer 0, false -1.
pub pmm_retain_page : Pmm → ℕ → Pmm × Bool
pmm_retain_page m addr =
    let page = addr / page_size in
    let refs = m.page_refs page in
    if not (addr % page_size == 0) || leb bitmap_bits page
    then (m, false)
    else if refs == 0 || refs == 65535
    then (m, false)
    else (record m { page_refs = put m.page_refs page (suc refs) }, true)

pub pmm_page_refs : Pmm → ℕ → ℕ
pmm_page_refs m addr =
    let page = addr / page_size in if leb bitmap_bits page then 0 else m.page_refs page

abbrev pub any_ram : ℕ → (ℕ → Bool) → ℕ → Bool
any_ram zero ram page = false
any_ram (suc left) ram page =
    let rest = any_ram left ram (suc page) in (ltb page bitmap_bits && ram page) || rest

pub pmm_range_is_ram : Pmm → ℕ → ℕ → Bool
pmm_range_is_ram m addr len =
    let start = addr / page_size * page_size in
    let whole = if ltb (2 ^ 64 - 1 - addr) len then 2 ^ 64 - 1 else addr + len in
    let end =
      if ltb whole managed_end
      then (whole + page_size - 1) / page_size * page_size
      else managed_end in
    not (len == 0) && any_ram (pages_between start end) m.ram_bitmap (start / page_size)
