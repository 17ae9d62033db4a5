-- ===== src/Net/Pmtu/Keeps.antt =====
-- Each operation of src/net/pmtu.c keeps the invariant of the cache.
use mich_core.Base.{
  ℕ, ◌<◌, ◌≡◌, refl, ◌≢◌, inl, inr, Bool, true, false, ◌||◌, Option, none, some, List, arith, ◌==◌,
  length, get_or, find_index, find_index-some, find_index-none, Option-cases, Bool-cases,
  get_or-replicate, get_or-outside, dec_lt,
}
use mich_core.Net.Pmtu.{
  PmtuEntry, PmtuCache, blank_entry, has_address4, find4, find6, allocate_entry, stored_entry,
  store, entry, update, label4, label6, answer, is_expired, clamp_mtu, pmtu_ipv4_min, pmtu_ipv6_min,
  pmtu_update4, pmtu_update6, pmtu_lookup4, pmtu_lookup6, pmtu_init, pmtu_entry_max, has_address6,
  address6_unspecified,
}
use mich_core.Net.Pmtu.Clamp.{clamp_mtu-min}
use mich_core.Net.Pmtu.Store.{entries-store}
use mich_core.Net.Pmtu.Valid.{IsValid, allocate_entry-lt, set-IsValid, stored-positive}

pub pmtu_init-IsValid : (cache : PmtuCache) (ttl : ℕ) → ttl ≢ 0 → IsValid (pmtu_init cache ttl)
unfolding pmtu_init
pmtu_init-IsValid cache ttl h = elim (Bool-cases (ttl == 0)) [
  | inl b ↦ absurd (ground arith)
  | inr b ↦ rw b (record {
    size = refl;
    positive = λ i. rw (get_or-replicate pmtu_entry_max i blank_entry) (λ z. absurd (ground arith));
    unique4 =
        λ d i j. rw (get_or-replicate pmtu_entry_max i blank_entry) (λ x y. absurd (ground arith));
  })
]

none_has :
    (p : PmtuEntry → Bool) (es : List PmtuEntry) (j : ℕ)
    → p blank_entry ≡ false
    → find_index p es ≡ none
    → p (get_or es j blank_entry) ≡ false
none_has p es j b f = elim (dec_lt j (length es)) [
  | yes h ↦ find_index-none p es blank_entry j f h
  | no h ↦ rw (get_or-outside es j blank_entry (omega arith)) b
]

-- A store in slot `i` of an entry whose IPv4 address, if any, is that slot's or nobody's.
store-IsValid :
    {cache : PmtuCache} (i mtu : ℕ) (e : PmtuEntry)
    → IsValid cache
    → i < length cache.entries
    → 0 < mtu
    → (e.active ≡ true → 0 < e.mtu)
    → ((d : ℕ)
        → has_address4 d (stored_entry cache e mtu) ≡ true
        → (j : ℕ) → has_address4 d (entry cache j) ≡ true
        → j ≡ i)
    → IsValid (store cache i e mtu).0
store-IsValid {cache} i mtu e v b m p own =
    set-IsValid i (stored_entry cache e mtu) v b (entries-store cache i e mtu).0
      (λ _. stored-positive cache e mtu p m) own

find4-lt : (cache : PmtuCache) (d : ℕ) {i : ℕ} → find4 cache d ≡ some i → i < length cache.entries
unfolding find4
find4-lt cache d {i} f = (find_index-some (has_address4 d) cache.entries blank_entry {i = i} f).0

find6-some :
    (cache : PmtuCache) (d : List ℕ) {i : ℕ}
    → find6 cache d ≡ some i
    → (i < length cache.entries) × (has_address6 d (entry cache i) ≡ true)
unfolding find6
find6-some cache d {i} f = find_index-some (has_address6 d) cache.entries blank_entry {i = i} f

own_found4 :
    {cache : PmtuCache} (d mtu i : ℕ)
    → IsValid cache
    → find4 cache d ≡ some i
    → (k : ℕ) → has_address4 k (stored_entry cache (entry cache i) mtu) ≡ true
    → (j : ℕ) → has_address4 k (entry cache j) ≡ true
    → j ≡ i
unfolding find4
own_found4 {cache} d mtu i v f k h j hj =
    let t = (find_index-some (has_address4 d) cache.entries blank_entry {i = i} f).1 in
    v.unique4 k j i hj (ground arith)

own_new4 :
    (cache : PmtuCache) (d mtu i : ℕ)
    → find4 cache d ≡ none
    → (k : ℕ) → has_address4 k (stored_entry cache (label4 d (entry cache i)) mtu) ≡ true
    → (j : ℕ) → has_address4 k (entry cache j) ≡ true
    → j ≡ i
unfolding find4
own_new4 cache d mtu i f k h j hj =
    absurd (ground (arith, none_has (has_address4 d) cache.entries j refl f))

clamp-pos : (mtu c m : ℕ) → c ≢ 0 → 0 < m → 0 < clamp_mtu mtu c m
clamp-pos mtu c m h k = omega (arith, clamp_mtu-min mtu c m)

-- `pmtu_update4` keeps the invariant, whatever it returns.
pub pmtu_update4-IsValid :
    {cache : PmtuCache} (destination mtu ceiling : ℕ)
    → IsValid cache
    → IsValid (pmtu_update4 cache destination mtu ceiling).0
unfolding pmtu_update4
pmtu_update4-IsValid {cache} d mtu c v = elim (Bool-cases (d == 0 || c == 0)) [
  | inl b ↦ rw b v
  | inr b ↦
      let m = clamp_mtu mtu c pmtu_ipv4_min in
      let pos : 0 < m = clamp-pos mtu c pmtu_ipv4_min (ground arith) (omega arith) in
      rw b (elim (Option-cases (find4 cache d)) [
        | inr (i, f) ↦
            rw (f, update)
              (store-IsValid i m (entry cache i) v (find4-lt cache d f) pos (v.positive i)
                (own_found4 d m i v f))
        | inl f ↦ elim (Option-cases (allocate_entry cache)) [
          | inl a ↦ rw (f, update, a) v
          | inr (i, a) ↦
              rw (f, update, a)
                (store-IsValid i m (label4 d (entry cache i)) v (allocate_entry-lt cache a) pos
                  (v.positive i) (own_new4 cache d m i f))
        ]
      ])
]

-- So does `pmtu_update6`.
pub pmtu_update6-IsValid :
    {cache : PmtuCache} (destination : List ℕ) (mtu ceiling : ℕ)
    → IsValid cache
    → IsValid (pmtu_update6 cache destination mtu ceiling).0
unfolding pmtu_update6
pmtu_update6-IsValid {cache} d mtu c v =
    elim (Bool-cases (address6_unspecified d || (get_or d 0 0 == 0xff || c == 0))) [
      | inl b ↦ rw b v
      | inr b ↦
          let m = clamp_mtu mtu c pmtu_ipv6_min in
          let pos : 0 < m = clamp-pos mtu c pmtu_ipv6_min (ground arith) (omega arith) in
          rw b (elim (Option-cases (find6 cache d)) [
            | inr (i, f) ↦
                let (lt, h) = find6-some cache d f in
                rw (f, update)
                  (store-IsValid i m (entry cache i) v lt pos (v.positive i)
                    (λ k t. absurd (ground arith)))
            | inl f ↦ elim (Option-cases (allocate_entry cache)) [
              | inl a ↦ rw (f, update, a) v
              | inr (i, a) ↦
                  rw (f, update, a)
                    (store-IsValid i m (label6 d (entry cache i)) v (allocate_entry-lt cache a) pos
                      (v.positive i) (λ k t. absurd (ground arith)))
            ]
          ])
    ]

answer-IsValid :
    {cache : PmtuCache} (found : Option ℕ) (ceiling : ℕ)
    → ((i : ℕ) → found ≡ some i → i < length cache.entries)
    → IsValid cache
    → IsValid (answer cache found ceiling).0
unfolding answer
answer-IsValid {cache} none c b v = v
answer-IsValid {cache} (some i) c b v = elim (Bool-cases (is_expired cache.now (entry cache i))) [
  | inl x ↦ rw x (
      set-IsValid i (record (entry cache i) { active = false }) v (b i refl) refl
        (λ z. absurd (ground arith)) (λ d z. absurd (ground arith)))
  | inr x ↦ rw x (record { size = v.size; positive = v.positive; unique4 = v.unique4 })
]

-- So do the lookups, which take out an entry that they find expired.
pub pmtu_lookup-IsValid :
    {cache : PmtuCache} (destination ceiling : ℕ) (destination6 : List ℕ)
    → IsValid cache
    → IsValid (pmtu_lookup4 cache destination ceiling).0
      × IsValid (pmtu_lookup6 cache destination6 ceiling).0
unfolding pmtu_lookup4 pmtu_lookup6
pmtu_lookup-IsValid {cache} d c d6 v = (
  elim (Bool-cases (d == 0 || c == 0)) [
    | inl b ↦ rw b v
    | inr b ↦ rw b (answer-IsValid (find4 cache d) c (λ i f. find4-lt cache d f) v)
  ],
  elim (Bool-cases (address6_unspecified d6 || c == 0)) [
    | inl b ↦ rw b v
    | inr b ↦ rw b (answer-IsValid (find6 cache d6) c (λ i f. (find6-some cache d6 f).0) v)
  ],
)
