-- ===== src/Core/Pmm/Count.antt =====
-- The invariant of src/core/pmm.c: `free_pages` is the number of clear bits of the bitmap, and a
-- page with references is marked.
use mich_core.Base.{
  ℕ, zero, suc, ◌+◌, ◌-◌, ◌*◌, ◌/◌, ◌^◌, ◌<◌, ◌≤◌, ◌≡◌, ◌≢◌, refl, ap, ◌∙◌, arith, Bool, true,
  false, leb, ◌==◌, if◌then◌else◌, sub32, ℕ_discrete, Bool-cases, inl, inr, ==_iff, min, ◌||◌,
}
use mich_core.Core.Pmm.{
  Pmm, put, bitmap_bits, reserve_pages, pmm_reserve, pmm_set_alloc_limit, page_size, managed_end,
  pages_between, reserve_end,
}

-- The number of the first `n` pages whose bit is clear.
pub count_free : ℕ → (ℕ → Bool) → ℕ
count_free zero used = 0
count_free (suc n) used = count_free n used + (if used n then 0 else 1)

pub record IsValid (m : Pmm) : Type 0 where
  pub counted : m.free_pages ≡ count_free bitmap_bits m.bitmap
  pub limit_in : m.alloc_page_limit ≤ bitmap_bits
  pub max_in : m.max_page < bitmap_bits
  pub marked : (p : ℕ) → 0 < m.page_refs p → m.bitmap p ≡ true

pub put_self {ℓ} : {A : Type ℓ} (f : ℕ → A) (i : ℕ) (x : A) → put f i x i ≡ x
put_self f i x = let same : (i == i) ≡ true = (==_iff i i).1 refl in rw same refl

pub put_other {ℓ} : {A : Type ℓ} (f : ℕ → A) (i j : ℕ) (x : A) → j ≢ i → put f i x j ≡ f j
put_other f i j x h = let other : (j == i) ≡ false = ground arith in rw other refl

pub count_free_le : (n : ℕ) (used : ℕ → Bool) → count_free n used ≤ n
unfolding count_free
count_free_le zero used = omega arith
count_free_le (suc n) used = ground (arith, count_free_le n used)

pub count_free-none : (n : ℕ) (used : ℕ → Bool) → ((p : ℕ) → used p ≡ true) → count_free n used ≡ 0
unfolding count_free
count_free-none zero used h = refl
count_free-none (suc n) used h = rw (h n) (omega (arith, count_free-none n used h))

count_free-outside :
    (n i : ℕ) (used : ℕ → Bool) (b : Bool) → n ≤ i → count_free n (put used i b) ≡ count_free n used
unfolding count_free
count_free-outside zero i used b h = refl
count_free-outside (suc n) i used b h =
    rw (count_free-outside n i used b (omega arith), put_other used i n b (λ e. omega arith)) refl

-- The page of a clear bit stops counting when it is marked.
pub count_free-mark :
    (n i : ℕ) (used : ℕ → Bool)
    → i < n
    → used i ≡ false
    → count_free n (put used i true) + 1 ≡ count_free n used
unfolding count_free
count_free-mark zero i used h e = omega arith
count_free-mark (suc n) i used h e = elim (ℕ_discrete n i) [
  | yes q ↦
      rw (q, put_self used i true, e, count_free-outside i i used true (omega arith)) (omega arith)
  | no q ↦ rw (put_other used i n true q) (omega (arith, count_free-mark n i used (omega arith) e))
]

pub count_free-clear :
    (n i : ℕ) (used : ℕ → Bool)
    → i < n
    → used i ≡ true
    → count_free n (put used i false) ≡ count_free n used + 1
unfolding count_free
count_free-clear zero i used h e = omega arith
count_free-clear (suc n) i used h e = elim (ℕ_discrete n i) [
  | yes q ↦
      rw (q, put_self used i false, e, count_free-outside i i used false (omega arith))
        (omega arith)
  | no q ↦
      rw (put_other used i n false q) (omega (arith, count_free-clear n i used (omega arith) e))
]

pub marked_put : (used : ℕ → Bool) (i p : ℕ) → used p ≡ true → put used i true p ≡ true
marked_put used i p e = ground arith

count_free_pos : (n i : ℕ) (used : ℕ → Bool) → i < n → used i ≡ false → 0 < count_free n used
count_free_pos n i used h e = omega (arith, count_free-mark n i used h e)

-- Marking one clear page and counting it off keeps the invariant.
pub mark-IsValid :
    {m : Pmm} (page : ℕ)
    → IsValid m
    → page < bitmap_bits
    → m.bitmap page ≡ false
    → IsValid (record m { bitmap = put m.bitmap page true; free_pages = sub32 m.free_pages 1 })
mark-IsValid {m} page v h e = record {
  counted = omega (
    arith,
    v.counted,
    count_free-mark bitmap_bits page m.bitmap h e,
    count_free_le bitmap_bits m.bitmap,
  );
  limit_in = v.limit_in;
  max_in = v.max_in;
  marked = λ p r. marked_put m.bitmap page p (v.marked p r);
}

reserve_pages-IsValid :
    (left : ℕ) {m : Pmm} (page : ℕ)
    → IsValid m
    → page + left ≤ bitmap_bits
    → IsValid (reserve_pages left m page)
unfolding reserve_pages
reserve_pages-IsValid zero page v h = v
reserve_pages-IsValid (suc left) {m} page v h = elim (Bool-cases (m.bitmap page)) [
  | inl t ↦ rw t (reserve_pages-IsValid left (suc page) v (omega arith))
  | inr f ↦
      rw f
        (reserve_pages-IsValid left (suc page) (mark-IsValid page v (omega arith) f) (omega arith))
]

-- Marked pages stay marked, and the pages of the loop become marked.
reserve_pages-bitmap :
    (left : ℕ) (m : Pmm) (page p : ℕ)
    → (m.bitmap p ≡ true → (reserve_pages left m page).bitmap p ≡ true)
      × (page ≤ p → p < page + left → (reserve_pages left m page).bitmap p ≡ true)
unfolding reserve_pages
reserve_pages-bitmap zero m page p = (λ e. e, λ h k. grind arith)
reserve_pages-bitmap (suc left) m page p = elim (Bool-cases (m.bitmap page)) [
  | inl t ↦
      let (a, b) = reserve_pages-bitmap left m (suc page) p in
      rw (t, reserve_pages)
        (
          a,
          λ h k. elim (ℕ_discrete p page) [
            | yes q ↦ a (ap m.bitmap q ∙ t)
            | no q ↦ b (omega arith) (omega arith)
          ],
        )
  | inr f ↦
      let m' = record m { bitmap = put m.bitmap page true; free_pages = sub32 m.free_pages 1 } in
      let (a, b) = reserve_pages-bitmap left m' (suc page) p in
      rw (f, reserve_pages)
        (
          λ e. a (marked_put m.bitmap page p e),
          λ h k. elim (ℕ_discrete p page) [
            | yes q ↦ a (ap (put m.bitmap page true) q ∙ put_self m.bitmap page true)
            | no q ↦ b (omega arith) (omega arith)
          ],
        )
]

whole_page : (n : ℕ) → n * page_size / page_size ≡ n
whole_page n = omega arith

reserved_in :
    (first end : ℕ)
    → first * page_size < managed_end
    → end ≤ managed_end
    → first + pages_between (first * page_size) end ≤ bitmap_bits
reserved_in first end h k = omega arith

-- A reservation keeps the invariant, and setting the limit of the allocator does too.
pub pmm_reserve-IsValid :
    {m : Pmm} (addr len end : ℕ)
    → IsValid m
    → IsValid (pmm_reserve m addr len) × IsValid (pmm_set_alloc_limit m end)
unfolding pmm_reserve pmm_set_alloc_limit
pmm_reserve-IsValid {m} addr len end v =
    let pages = min bitmap_bits (end / page_size) in
    let limited : IsValid (record m { alloc_page_limit = pages }) = record {
      counted = v.counted;
      limit_in = omega arith;
      max_in = v.max_in;
      marked = v.marked;
    } in
    let first = addr / page_size in
    (
      elim (Bool-cases (len == 0 || leb managed_end (first * page_size))) [
        | inl t ↦ rw t v
        | inr f ↦
            let below : first * page_size < managed_end = ground arith in
            rw (f, whole_page first)
              (reserve_pages-IsValid (pages_between (first * page_size) (reserve_end addr len))
                first v (reserved_in first (reserve_end addr len) below (omega arith)))
      ],
      reserve_pages-IsValid (bitmap_bits - pages) pages limited (omega arith),
    )

reached :
    (addr len p : ℕ)
    → 0 < len
    → addr + len < 2 ^ 64
    → addr < p * page_size + page_size
    → p * page_size < addr + len
    → p < bitmap_bits
    → p < addr / page_size + pages_between (addr / page_size * page_size) (reserve_end addr len)
reached addr len p positive fits a b c = ground arith

-- Every page below 4 GB that a reservation touches is marked after it, where the reservation is
-- not empty and does not wrap around.
pub pmm_reserve-marks :
    (m : Pmm) (addr len p : ℕ)
    → 0 < len
    → addr + len < 2 ^ 64
    → addr < p * page_size + page_size
    → p * page_size < addr + len
    → p < bitmap_bits
    → (pmm_reserve m addr len).bitmap p ≡ true
unfolding pmm_reserve
pmm_reserve-marks m addr len p positive fits a b c =
    let first = addr / page_size in
    let go : (len == 0 || leb managed_end (first * page_size)) ≡ false = ground arith in
    let end = reserve_end addr len in
    let reach : p < first + pages_between (first * page_size) end =
      reached addr len p positive fits a b c in
    rw (go, whole_page first)
      ((reserve_pages-bitmap (pages_between (first * page_size) end) m first p).1 (omega arith)
        reach)
