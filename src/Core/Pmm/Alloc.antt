-- ===== src/Core/Pmm/Alloc.antt =====
-- The single-page allocators of src/core/pmm.c, and the references of a page.
use mich_core.Base.{
  ℕ, zero, suc, ◌+◌, ◌-◌, ◌*◌, ◌/◌, ◌^◌, ◌<◌, ◌≤◌, ◌≡◌, ◌≢◌, ap, ◌∙◌, arith, Bool, true, false, ltb,
  leb, ◌==◌, if◌then◌else◌, add32, ℕ_discrete, Bool-cases, inl, inr, dec_lt, Option, none, some,
  min, max, ◌||◌, subst,
}
use mich_core.Core.Pmm.{
  Pmm, bitmap_bits, page_size, high_start, pmm_take_page, first_free, take_found, pmm_alloc_page,
  pmm_alloc_page_low, pmm_alloc_page_range,
}
use mich_core.Core.Pmm.Count.{
  IsValid, count_free-mark, count_free_le, put_self, put_other, marked_put, mark-IsValid,
}

-- What the scan finds: the first clear page, or that every page it looks at is marked.
pub Scanned : ℕ → (ℕ → Bool) → ℕ → Option ℕ → Type 0
Scanned left used page none = (p : ℕ) → page ≤ p → p < page + left → used p ≡ true
Scanned left used page (some found) =
    (page ≤ found)
    × (found < page + left)
    × (used found ≡ false)
    × ((p : ℕ) → page ≤ p → p < found → used p ≡ true)

extend :
    (left : ℕ) (used : ℕ → Bool) (page : ℕ) (o : Option ℕ)
    → used page ≡ true
    → Scanned left used (suc page) o
    → Scanned (suc left) used page o
unfolding Scanned
extend left used page none t all = λ p h k. elim (ℕ_discrete p page) [
  | yes q ↦ ap used q ∙ t
  | no q ↦ all p (omega arith) (omega arith)
]
extend left used page (some found) t (a, b, c, d) = (
  omega arith,
  omega arith,
  c,
  λ p h k. elim (ℕ_discrete p page) [ yes q ↦ ap used q ∙ t | no q ↦ d p (omega arith) k ],
)

pub first_free-Scanned :
    (left : ℕ) (used : ℕ → Bool) (page : ℕ) → Scanned left used page (first_free left used page)
unfolding Scanned first_free
first_free-Scanned zero used page = λ p h k. grind arith
first_free-Scanned (suc left) used page = elim (Bool-cases (used page)) [
  | inl t ↦ rw t (
      extend left used page (first_free left used (suc page)) t
        (first_free-Scanned left used (suc page)))
  | inr f ↦ rw f (omega arith, omega arith, f, λ p h k. grind arith)
]

-- A page that an allocator hands out: it was clear, is not page 0, lies below both limits, has one
-- reference, is filled with zeros and is marked; every other page is as it was.
pub record Taken (m m' : Pmm) (page : ℕ) : Type 0 where
  pub was_clear : m.bitmap page ≡ false
  pub below : (1 ≤ page) × (page < m.alloc_page_limit) × (page ≤ m.max_page)
  pub one_ref : m'.page_refs page ≡ 1
  pub now_marked : m'.bitmap page ≡ true
  pub zeroed : (a : ℕ) → a / page_size ≡ page → m'.memory a ≡ 0
  pub others :
      (p : ℕ)
      → p ≢ page
      → (m'.bitmap p ≡ m.bitmap p)
        × (m'.page_refs p ≡ m.page_refs p)
        × ((a : ℕ) → a / page_size ≡ p → m'.memory a ≡ m.memory a)
  pub one_less : m'.free_pages + 1 ≡ m.free_pages

take_page-Taken :
    {m : Pmm} (page : ℕ)
    → IsValid m
    → m.bitmap page ≡ false
    → 1 ≤ page
    → page < m.alloc_page_limit
    → page ≤ m.max_page
    → Taken m (pmm_take_page m page) page × IsValid (pmm_take_page m page)
unfolding pmm_take_page
take_page-Taken {m} page v e h k l =
    let pos = count_free-mark bitmap_bits page m.bitmap (omega (arith, v.limit_in)) e in
    let some_left = count_free_le bitmap_bits m.bitmap in
    let memory' : ℕ → ℕ = λ a. if a / page_size == page then 0 else m.memory a in
    (
      record {
        was_clear = e;
        below = (h, k, l);
        one_ref = put_self m.page_refs page 1;
        now_marked = put_self m.bitmap page true;
        zeroed = λ a q. ground arith;
        others = λ p q. (
          put_other m.bitmap page p true q,
          put_other m.page_refs page p 1 q,
          λ a r. ground arith,
        );
        one_less = omega (arith, v.counted);
      },
      record {
        counted = (mark-IsValid page v (omega (arith, v.limit_in)) e).counted;
        limit_in = v.limit_in;
        max_in = v.max_in;
        marked = λ p r. elim (ℕ_discrete p page) [
          | yes q ↦ rw q (put_self m.bitmap page true)
          | no q ↦
              marked_put m.bitmap page p
                (v.marked p (subst (λ n. 0 < n) (put_other m.page_refs page p 1 q) r))
        ];
      },
    )

-- What an allocator answers: nothing and no change, or a page.
pub data Allocated (m : Pmm) : Pmm × ℕ → Type 0 where
  refused : Allocated m (m, 0)
  given : {m' : Pmm} (page : ℕ) → Taken m m' page → IsValid m' → Allocated m (m', page * page_size)

found-Allocated :
    {m : Pmm} (left page : ℕ) (o : Option ℕ)
    → IsValid m
    → Scanned left m.bitmap page o
    → 1 ≤ page
    → (1 ≤ left → (page + left ≤ m.alloc_page_limit) × (page + left ≤ m.max_page + 1))
    → Allocated m (take_found m o)
unfolding Scanned take_found
found-Allocated left page none v s h k = refused
found-Allocated left page (some found) v (a, b, c, d) h k =
    let (x, y) = k (omega arith) in
    let (t, v') = take_page-Taken found v c (omega arith) (omega arith) (omega arith) in
    given found t v'

scan-Allocated :
    {m : Pmm} (left page : ℕ)
    → IsValid m
    → 1 ≤ page
    → (1 ≤ left → (page + left ≤ m.alloc_page_limit) × (page + left ≤ m.max_page + 1))
    → Allocated m (take_found m (first_free left m.bitmap page))
scan-Allocated {m} left page v =
    found-Allocated left page (first_free left m.bitmap page) v
      (first_free-Scanned left m.bitmap page)

either-Allocated :
    {m : Pmm} (left page : ℕ) {other : Pmm × ℕ} (o : Option ℕ)
    → IsValid m
    → Scanned left m.bitmap page o
    → 1 ≤ page
    → (1 ≤ left → (page + left ≤ m.alloc_page_limit) × (page + left ≤ m.max_page + 1))
    → Allocated m other
    → Allocated m (elim o [ none ↦ other | some found ↦ take_found m (some found) ])
either-Allocated left page none v s h k other = other
either-Allocated left page (some found) v s h k other =
    found-Allocated left page (some found) v s h k

-- In a valid allocator, `pmm_alloc_page`, `pmm_alloc_page_low` and `pmm_alloc_page_range` each
-- either refuse and change nothing, or hand out a page as `Taken` describes and stay valid.
pub pmm_alloc-Allocated :
    {m : Pmm} (start end : ℕ)
    → IsValid m
    → Allocated m (pmm_alloc_page m)
      × Allocated m (pmm_alloc_page_low m)
      × Allocated m (pmm_alloc_page_range m start end)
unfolding pmm_alloc_page pmm_alloc_page_low pmm_alloc_page_range
pmm_alloc-Allocated {m} start end v =
    let limit = min m.alloc_page_limit (add32 m.max_page 1) in
    let low = min (add32 m.max_page 1) (min m.alloc_page_limit high_start) in
    let first = max 1 ((start + page_size - 1) / page_size) in
    let limit64 = min (m.max_page + 1) (min m.alloc_page_limit (end / page_size)) in
    let top : add32 m.max_page 1 ≡ m.max_page + 1 = omega (arith, v.max_in) in
    (
      either-Allocated (limit - high_start) high_start
          (first_free (limit - high_start) m.bitmap high_start) v
          (first_free-Scanned (limit - high_start) m.bitmap high_start) (omega arith)
          (λ h. omega (arith, top))
          (scan-Allocated (min high_start limit - 1) 1 v (omega arith) (λ h. omega (arith, top))),
      scan-Allocated (low - 1) 1 v (omega arith) (λ h. omega (arith, top)),
      elim (Bool-cases (
          leb end start
          || (ltb (2 ^ 64 - page_size) start
              || leb bitmap_bits ((start + page_size - 1) / page_size)))) [
                | inl t ↦ rw t refused
                | inr f ↦
                    rw f (scan-Allocated (limit64 - first) first v (omega arith) (λ h. omega arith))
              ],
    )

refused_scan :
    (m : Pmm) (left page : ℕ) (o : Option ℕ)
    → Scanned left m.bitmap page o
    → 1 ≤ page
    → (take_found m o).1 ≡ 0
    → (p : ℕ) → page ≤ p
    → p < page + left
    → m.bitmap p ≡ true
unfolding Scanned take_found
refused_scan m left page none s h e = s
refused_scan m left page (some found) (a, b, c, d) h e = λ p k l. grind arith

refused_both :
    (m : Pmm) (left page : ℕ) (other : Pmm × ℕ) (o : Option ℕ)
    → Scanned left m.bitmap page o
    → 1 ≤ page
    → (elim o as (λ x. Pmm × ℕ) [ none ↦ other | some found ↦ take_found m (some found) ]).1 ≡ 0
    → (other.1 ≡ 0) × ((p : ℕ) → page ≤ p → p < page + left → m.bitmap p ≡ true)
unfolding Scanned take_found
refused_both m left page other none s h e = (e, s)
refused_both m left page other (some found) (a, b, c, d) h e = (omega arith, λ p k l. grind arith)

-- `pmm_alloc_page` refuses only where every page from 1 up to both limits is marked.
pub pmm_alloc_page_complete :
    {m : Pmm} (p : ℕ)
    → IsValid m
    → (pmm_alloc_page m).1 ≡ 0
    → 1 ≤ p
    → p < m.alloc_page_limit
    → p ≤ m.max_page
    → m.bitmap p ≡ true
unfolding pmm_alloc_page
pmm_alloc_page_complete {m} p v e a b c =
    let limit = min m.alloc_page_limit (add32 m.max_page 1) in
    let top : add32 m.max_page 1 ≡ m.max_page + 1 = omega (arith, v.max_in) in
    let low = min high_start limit - 1 in
    let (e', above) =
      refused_both m (limit - high_start) high_start (take_found m (first_free low m.bitmap 1))
        (first_free (limit - high_start) m.bitmap high_start)
        (first_free-Scanned (limit - high_start) m.bitmap high_start) (omega arith) e in
    elim (dec_lt p high_start) [
      | yes h ↦
          refused_scan m low 1 (first_free low m.bitmap 1) (first_free-Scanned low m.bitmap 1)
            (omega arith) e' p a (omega (arith, top))
      | no h ↦ above p (omega arith) (omega (arith, top))
    ]
