-- ===== src/Core/Pmm/Refs.antt =====
-- The references of a page in src/core/pmm.c: `pmm_retain_page`, `pmm_free_page`, `pmm_page_refs`.
use mich_core.Base.{
  ℕ, suc, ◌+◌, ◌-◌, ◌*◌, ◌/◌, ◌%◌, ◌<◌, ◌≤◌, ◌≡◌, ◌≢◌, refl, ◌∙◌, arith, true, false, not, leb,
  ◌==◌, ℕ_discrete, Bool-cases, inl, inr, ◌||◌, subst,
}
use mich_core.Core.Pmm.{
  Pmm, put, bitmap_bits, page_size, freed, double_free, drop_ref, pmm_free_page, pmm_retain_page,
}
use mich_core.Core.Pmm.Count.{IsValid, count_free-clear, count_free_le, put_self, put_other}

whole : (page : ℕ) → page * page_size / page_size ≡ page
whole page = omega arith

aligned : (page : ℕ) → page * page_size % page_size ≡ 0
aligned page = omega arith

pmm_retain_page_lem :
    (m : Pmm) (page : ℕ)
    → page < bitmap_bits
    → 0 < m.page_refs page
    → m.page_refs page < 65535
    → pmm_retain_page m (page * page_size)
      ≡ (record m { page_refs = put m.page_refs page (suc (m.page_refs page)) }, true)
unfolding pmm_retain_page
pmm_retain_page_lem m page a b c =
    let d : (not (page * page_size % page_size == 0) || leb bitmap_bits page) ≡ false =
      ground arith in
    let e : (m.page_refs page == 0 || m.page_refs page == 65535) ≡ false = ground arith in
    rw (whole page, d, e) refl

-- A free of a valid page with references is `drop_ref`.
pmm_free_page_live :
    (m : Pmm) (page : ℕ)
    → 1 ≤ page
    → page < bitmap_bits
    → 0 < m.page_refs page
    → pmm_free_page m (page * page_size) ≡ freed (drop_ref m page)
unfolding pmm_free_page
pmm_free_page_live m page a b c =
    let d : not (page * page_size % page_size == 0) ≡ false = ground arith in
    let e : (page == 0 || leb bitmap_bits page) ≡ false = ground arith in
    let f : (m.page_refs page == 0) ≡ false = ground arith in rw (whole page, d, e, f) refl

pmm_free_page_shared :
    (m : Pmm) (page : ℕ)
    → 1 ≤ page
    → page < bitmap_bits
    → 2 ≤ m.page_refs page
    → pmm_free_page m (page * page_size)
      ≡ freed (record m { page_refs = put m.page_refs page (m.page_refs page - 1) })
unfolding drop_ref
pmm_free_page_shared m page a b c =
    let d : (m.page_refs page - 1 == 0) ≡ false = ground arith in
    pmm_free_page_live m page a b (omega arith) ∙ rw d refl

-- A second reference and the loss of it leave the references, the bitmap and the number of free
-- pages as they were, for a page that can take another reference.
pub pmm_free_page-pmm_retain_page :
    (m : Pmm) (page p : ℕ)
    → 1 ≤ page
    → page < bitmap_bits
    → 0 < m.page_refs page
    → m.page_refs page < 65535
    → let kept = pmm_retain_page m (page * page_size) in
      (kept.1 ≡ true)
      × ((m' : Pmm) × (pmm_free_page kept.0 (page * page_size) ≡ freed m')
          × (m'.page_refs p ≡ m.page_refs p)
          × (m'.bitmap p ≡ m.bitmap p)
          × (m'.free_pages ≡ m.free_pages))
pmm_free_page-pmm_retain_page m page p a b c d =
    let refs = m.page_refs page in
    let m1 = record m { page_refs = put m.page_refs page (suc refs) } in
    let more = put_self m.page_refs page (suc refs) in
    rw (pmm_retain_page_lem m page b c d) (
      refl,
      (
        record m1 { page_refs = put m1.page_refs page (m1.page_refs page - 1) },
        pmm_free_page_shared m1 page a b (omega (arith, more)),
        elim (ℕ_discrete p page) [
          | yes q ↦ rw (q, put_self m1.page_refs page (m1.page_refs page - 1)) (omega (arith, more))
          | no q ↦
              put_other m1.page_refs page p (m1.page_refs page - 1) q
              ∙ put_other m.page_refs page p (suc refs) q
        ],
        refl,
        refl,
      ),
    )

drop_ref-IsValid :
    {m : Pmm} (page : ℕ)
    → IsValid m
    → page < bitmap_bits
    → 0 < m.page_refs page
    → IsValid (drop_ref m page)
unfolding drop_ref
drop_ref-IsValid {m} page v b c =
    let rest : (p : ℕ)
        → p ≢ page
        → 0 < put m.page_refs page (m.page_refs page - 1) p
        → m.bitmap p ≡ true =
      λ p q r.
        v.marked p (subst (λ n. 0 < n) (put_other m.page_refs page p (m.page_refs page - 1) q) r) in
    elim (Bool-cases (m.page_refs page - 1 == 0)) [
      | inl t ↦ rw t (record {
        counted = omega (
          arith,
          v.counted,
          count_free-clear bitmap_bits page m.bitmap b (v.marked page c),
          count_free_le bitmap_bits m.bitmap,
        );
        limit_in = v.limit_in;
        max_in = v.max_in;
        marked = λ p r. elim (ℕ_discrete p page) [
          | yes q ↦
              let none_left : m.page_refs page - 1 ≡ 0 = ground arith in
              let bad : 1 ≤ 0 = omega (
                arith,
                put_self m.page_refs page (m.page_refs page - 1),
                subst (λ n. 0 < put m.page_refs page (m.page_refs page - 1) n) q r,
              ) in
              grind arith
          | no q ↦ put_other m.bitmap page p false q ∙ rest p q r
        ];
      })
      | inr f ↦ rw f (record {
        counted = v.counted;
        limit_in = v.limit_in;
        max_in = v.max_in;
        marked =
            λ p r. elim (ℕ_discrete p page) [ yes q ↦ rw q (v.marked page c) | no q ↦ rest p q r ];
      })
    ]

last_drop :
    {m : Pmm} (page : ℕ)
    → IsValid m
    → 1 ≤ page
    → page < bitmap_bits
    → m.page_refs page ≡ 1
    → let m' = drop_ref m page in
      (m'.bitmap page ≡ false)
      × (m'.free_pages ≡ m.free_pages + 1)
      × (pmm_free_page m' (page * page_size) ≡ double_free)
unfolding drop_ref pmm_free_page
last_drop {m} page v a b c =
    let d : not (page * page_size % page_size == 0) ≡ false = ground arith in
    let e : (page == 0 || leb bitmap_bits page) ≡ false = ground arith in
    rw (c, whole page, d, e, put_self m.page_refs page 0)
      (
        put_self m.bitmap page false,
        omega (arith, v.counted, count_free_le bitmap_bits m.bitmap),
        refl,
      )

-- The loss of a reference keeps the allocator valid. With the last one the page is clear and
-- counted as free, and a second free of it is the panic for a double free.
pub pmm_free_page-IsValid :
    {m : Pmm} (page : ℕ)
    → IsValid m
    → 1 ≤ page
    → page < bitmap_bits
    → 0 < m.page_refs page
    → (m' : Pmm) × (pmm_free_page m (page * page_size) ≡ freed m')
      × IsValid m'
      × (m.page_refs page ≡ 1
          → (m'.bitmap page ≡ false)
            × (m'.free_pages ≡ m.free_pages + 1)
            × (pmm_free_page m' (page * page_size) ≡ double_free))
pmm_free_page-IsValid {m} page v a b c = (
  drop_ref m page,
  pmm_free_page_live m page a b c,
  drop_ref-IsValid page v b c,
  last_drop page v a b,
)
