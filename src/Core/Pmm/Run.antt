-- ===== src/Core/Pmm/Run.antt =====
-- `pmm_alloc_contiguous` of src/core/pmm.c: the run that it finds and takes.
use mich_core.Base.{
  ℕ, zero, suc, ◌+◌, ◌-◌, ◌*◌, ◌^◌, ◌<◌, ◌≤◌, ◌≡◌, ◌≢◌, refl, ap, ◌∙◌, arith, Bool, true, false,
  ltb, ◌==◌, if◌then◌else◌, sub32, mul32, ℕ_discrete, Bool-cases, inl, inr, ◌⊎◌, dec_lt, Option,
  none, some, ◌||◌, subst,
}
use mich_core.Core.Pmm.{
  Pmm, put, bitmap_bits, page_size, find_run, take_run, page_limit, pmm_alloc_contiguous,
}
use mich_core.Core.Pmm.Count.{
  IsValid, count_free, count_free-mark, count_free_le, put_self, put_other,
}

-- `pages` clear pages from `start` on.
abbrev pub IsClear : (ℕ → Bool) → ℕ → ℕ → Type 0
IsClear used start pages = (p : ℕ) → start ≤ p → p < start + pages → used p ≡ false

Found : (ℕ → Bool) → ℕ → ℕ → ℕ → Option ℕ → Type 0
Found used pages low high none = pages ≡ pages
Found used pages low high (some start) =
    (low ≤ start) × (start + pages ≤ high) × IsClear used start pages

grow :
    (used : ℕ → Bool) (page run run_start : ℕ)
    → 1 ≤ page
    → (1 ≤ run → (1 ≤ run_start) × (run_start + run ≡ page) × IsClear used run_start run)
    → used page ≡ false
    → let start = if run == 0 then page else run_start in
      (1 ≤ start) × (start + suc run ≡ suc page) × IsClear used start (suc run)
grow used page zero run_start h k e =
    (h, omega arith, λ p a b. let same : p ≡ page = omega arith in ap used same ∙ e)
grow used page (suc run) run_start h k e =
    let (a, b, c) = k (omega arith) in
    let nonzero : (suc run == 0) ≡ false = ground arith in
    rw nonzero (
      a,
      omega arith,
      λ p x y. elim (ℕ_discrete p page) [ yes q ↦ ap used q ∙ e | no q ↦ c p x (omega arith) ],
    )

-- The scan keeps `run` clear pages right before the page it looks at.
find_run-Found :
    (left : ℕ) (used : ℕ → Bool) (pages page run run_start : ℕ)
    → 1 ≤ page
    → (1 ≤ run → (1 ≤ run_start) × (run_start + run ≡ page) × IsClear used run_start run)
    → Found used pages 1 (page + left) (find_run left used pages page run run_start)
unfolding Found find_run
find_run-Found zero used pages page run run_start h k = refl
find_run-Found (suc left) used pages page run run_start h k =
    let high : suc page + left ≡ page + suc left = omega arith in
    let start = if run == 0 then page else run_start in
    let longer : used page ≡ false
        → (1 ≤ start) × (start + suc run ≡ suc page) × IsClear used start (suc run) =
      λ e. grow used page run run_start h k e in
    elim (Bool-cases (used page)) [
      | inl t ↦
          rw (t, ← high)
            (find_run-Found left used pages (suc page) 0 run_start (omega arith)
              (λ z. (omega arith, omega arith, λ p a b. grind arith)))
      | inr f ↦
          let (a, b, c) = longer f in
          elim (Bool-cases (suc run == pages)) [
            | inl t ↦
                let e : suc run ≡ pages = ground arith in
                rw (f, t) (a, omega arith, λ p x y. c p x (omega arith))
            | inr g ↦
                rw (f, g, ← high)
                  (find_run-Found left used pages (suc page) (suc run) start (omega arith)
                    (λ z. longer f))
          ]
    ]

-- A run that is handed out: it was clear and lies below the limits and the address that the caller
-- names; its pages have one reference and are marked, and no other page changes.
pub record RunTaken (m m' : Pmm) (pages start max_addr : ℕ) : Type 0 where
  pub was_clear : IsClear m.bitmap start pages
  pub below :
      (1 ≤ start)
      × (start + pages ≤ m.alloc_page_limit)
      × (start + pages ≤ m.max_page + 1)
      × ((start + pages) * page_size ≤ max_addr + 1)
  pub one_ref :
      (p : ℕ) → start ≤ p → p < start + pages → (m'.page_refs p ≡ 1) × (m'.bitmap p ≡ true)
  pub others :
      (p : ℕ)
      → (p < start) ⊎ (start + pages ≤ p)
      → (m'.page_refs p ≡ m.page_refs p) × (m'.bitmap p ≡ m.bitmap p)
  pub fewer : m'.free_pages + pages ≡ m.free_pages

take_run_kept :
    (left : ℕ) (m : Pmm) (page p : ℕ)
    → (p < page) ⊎ (page + left ≤ p)
    → let m' = take_run left m page in (m'.page_refs p ≡ m.page_refs p) × (m'.bitmap p ≡ m.bitmap p)
unfolding take_run
take_run_kept zero m page p h = (refl, refl)
take_run_kept (suc left) m page p h =
    let m1 = record m { bitmap = put m.bitmap page true; page_refs = put m.page_refs page 1 } in
    let other : p ≢ page = ground arith in
    let (a, b) = take_run_kept left m1 (suc page) p (beyond page left p h) in
    (a ∙ put_other m.page_refs page p 1 other, b ∙ put_other m.bitmap page p true other)
  where
    beyond :
        (page left p : ℕ)
        → (p < page) ⊎ (page + suc left ≤ p)
        → (p < suc page) ⊎ (suc page + left ≤ p)
    beyond page left p (inl h) = inl (omega arith)
    beyond page left p (inr h) = inr (omega arith)

take_run_taken :
    (left : ℕ) (m : Pmm) (page p : ℕ)
    → page ≤ p
    → p < page + left
    → let m' = take_run left m page in (m'.page_refs p ≡ 1) × (m'.bitmap p ≡ true)
unfolding take_run
take_run_taken zero m page p h k = (omega arith, grind arith)
take_run_taken (suc left) m page p h k =
    let m1 = record m { bitmap = put m.bitmap page true; page_refs = put m.page_refs page 1 } in
    elim (ℕ_discrete p page) [
      | yes q ↦
          let (a, b) = take_run_kept left m1 (suc page) page (inl (omega arith)) in
          rw q (a ∙ put_self m.page_refs page 1, b ∙ put_self m.bitmap page true)
      | no q ↦ take_run_taken left m1 (suc page) p (omega arith) (omega arith)
    ]

-- The scalars do not change, and each clear page of the run stops counting as free.
take_run_scalars :
    (left : ℕ) (m : Pmm) (page : ℕ)
    → let m' = take_run left m page in
      (m'.free_pages ≡ m.free_pages)
      × (m'.max_page ≡ m.max_page)
      × (m'.alloc_page_limit ≡ m.alloc_page_limit)
unfolding take_run
take_run_scalars zero m page = (refl, refl, refl)
take_run_scalars (suc left) m page =
    take_run_scalars left
      (record m { bitmap = put m.bitmap page true; page_refs = put m.page_refs page 1 }) (suc page)

take_run_count :
    (left : ℕ) (m : Pmm) (page : ℕ)
    → page + left ≤ bitmap_bits
    → IsClear m.bitmap page left
    → count_free bitmap_bits (take_run left m page).bitmap + left ≡ count_free bitmap_bits m.bitmap
unfolding take_run
take_run_count zero m page h c = omega arith
take_run_count (suc left) m page h c =
    let m1 = record m { bitmap = put m.bitmap page true; page_refs = put m.page_refs page 1 } in
    omega (
      arith,
      take_run_count left m1 (suc page) (omega arith) (λ p a b.
          put_other m.bitmap page p true (λ e. omega arith) ∙ c p (omega arith) (omega arith)),
      count_free-mark bitmap_bits page m.bitmap (omega arith) (c page (omega arith) (omega arith)),
    )

-- What `pmm_alloc_contiguous` answers: nothing and no change, or a run.
pub data RunAllocated (m : Pmm) (pages max_addr : ℕ) : Pmm × ℕ → Type 0 where
  no_run : RunAllocated m pages max_addr (m, 0)
  run_at :
      {m' : Pmm} (start : ℕ)
      → RunTaken m m' pages start max_addr
      → IsValid m'
      → RunAllocated m pages max_addr (m', start * page_size)

page_limit_bounds :
    {m : Pmm} (max_addr : ℕ)
    → IsValid m
    → max_addr < 2 ^ 64
    → let limit = page_limit m max_addr in
      (limit ≤ m.alloc_page_limit) × (limit ≤ m.max_page + 1) × (limit * page_size ≤ max_addr + 1)
unfolding page_limit
page_limit_bounds {m} max_addr v h =
    (ground arith, ground (arith, v.max_in), ground (arith, v.limit_in))

run_marked :
    {m : Pmm} (pages start : ℕ)
    → IsValid m
    → (p : ℕ) → 0 < (take_run pages m start).page_refs p
    → (take_run pages m start).bitmap p ≡ true
run_marked {m} pages start v p r = elim (dec_lt p start) [
  | yes h ↦ outside (inl h)
  | no h ↦ elim (dec_lt p (start + pages)) [
    | yes k ↦ (take_run_taken pages m start p (omega arith) k).1
    | no k ↦ outside (inr (omega arith))
  ]
]
  where
    outside : (p < start) ⊎ (start + pages ≤ p) → (take_run pages m start).bitmap p ≡ true
    outside h =
        let (a, b) = take_run_kept pages m start p h in b ∙ v.marked p (subst (λ n. 0 < n) a r)

run_given :
    {m : Pmm} (pages max_addr : ℕ) (o : Option ℕ)
    → IsValid m
    → max_addr < 2 ^ 64
    → 1 ≤ pages
    → Found m.bitmap pages 1 (page_limit m max_addr) o
    → RunAllocated m pages max_addr (elim o as (λ x. Pmm × ℕ) [
      | none ↦ (m, 0)
      | some start ↦
          let m' = take_run pages m start in
          (record m' { free_pages = sub32 m'.free_pages pages }, mul32 start page_size)
    ])
unfolding Found
run_given pages max_addr none v h k f = no_run
run_given {m} pages max_addr (some start) v h k (a, b, c) =
    let (x, y, z) = page_limit_bounds max_addr v h in
    let m' = take_run pages m start in
    let (s, t, u) = take_run_scalars pages m start in
    let inside : start + pages ≤ bitmap_bits = omega (arith, v.limit_in) in
    let n = take_run_count pages m start inside c in
    let less : sub32 m'.free_pages pages + pages ≡ m.free_pages =
      omega (arith, v.counted, count_free_le bitmap_bits m.bitmap) in
    let addr : mul32 start page_size ≡ start * page_size = omega arith in
    rw addr (
      run_at start
        (record {
          was_clear = c;
          below = (a, omega arith, omega arith, omega arith);
          one_ref = take_run_taken pages m start;
          others = take_run_kept pages m start;
          fewer = less;
        })
        (record {
          counted = omega (arith, v.counted);
          limit_in = rw u v.limit_in;
          max_in = rw t v.max_in;
          marked = run_marked pages start v;
        }))

-- In a valid allocator, `pmm_alloc_contiguous` either refuses and changes nothing, or hands out a
-- run of clear pages as `RunTaken` describes and stays valid. The address is a 64-bit number.
pub pmm_alloc_contiguous-RunAllocated :
    {m : Pmm} (pages max_addr : ℕ)
    → IsValid m
    → max_addr < 2 ^ 64
    → RunAllocated m pages max_addr (pmm_alloc_contiguous m pages max_addr)
unfolding pmm_alloc_contiguous
pmm_alloc_contiguous-RunAllocated {m} pages max_addr v h =
    let limit = page_limit m max_addr in
    elim (Bool-cases (pages == 0 || (ltb m.free_pages pages || ltb limit pages))) [
      | inl t ↦ rw t no_run
      | inr f ↦
          let some_page : (1 ≤ pages) × (1 ≤ limit) = ground arith in
          let whole : 1 + (limit - 1) ≡ limit = omega arith in
          rw f (
            run_given pages max_addr (find_run (limit - 1) m.bitmap pages 1 0 0) v h some_page.0 (
              subst (λ n. Found m.bitmap pages 1 n (find_run (limit - 1) m.bitmap pages 1 0 0))
                whole
                (find_run-Found (limit - 1) m.bitmap pages 1 0 0 (omega arith)
                  (λ z. (omega arith, omega arith, λ p a b. grind arith)))))
    ]
