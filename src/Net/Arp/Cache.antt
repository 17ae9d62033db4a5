-- ===== src/Net/Arp/Cache.antt =====
-- The cache of src/net/arp.c: no address has two entries, and what is learned is what is looked up.
use mich_core.Base.{
  ℕ, ◌+◌, ◌^◌, ◌<◌, ◌≡◌, ◌≢◌, inl, inr, refl, sym, ap, arith, Bool, true, false, some, List, [],
  ◌∷◌, get_or, set, length, length-set, get_or-set_self, get_or-set_ne, get_or-outside,
  find_index-some, find_index-none, find_index-of_first, Bool-cases, Option-cases, ℕ_discrete,
  dec_lt, add32, sub32, before,
}
use mich_core.Net.Arp.{
  Hardware, ArpCacheEntry, ArpContext, no_entry, is_for, find_entry, oldest_from, victim, entry_at,
  pending_entry, allocate_entry, entry_for, learned_entry, arp_lookup, protocol_valid,
}
use mich_core.Net.Arp.Handler.{learn}

-- No address has two entries.
abbrev pub IsUnique : List ArpCacheEntry → Type 0
IsUnique cache =
    (i j a : ℕ)
    → is_for a (get_or cache i no_entry) ≡ true
    → is_for a (get_or cache j no_entry) ≡ true
    → i ≡ j

-- Only entry `i` can be one for the address.
abbrev pub IsAlone : List ArpCacheEntry → ℕ → ℕ → Type 0
IsAlone cache a i = (j : ℕ) → j ≢ i → is_for a (get_or cache j no_entry) ≡ false

-- A property of the entries after one is replaced.
pub entries-set :
    (P : ℕ → ArpCacheEntry → Type 0) (cache : List ArpCacheEntry) (i : ℕ) (e : ArpCacheEntry)
    → i < length cache
    → P i e
    → ((j : ℕ) → j ≢ i → P j (get_or cache j no_entry))
    → (j : ℕ) → P j (get_or (set cache i e) j no_entry)
entries-set P cache i e h here there j = elim (ℕ_discrete j i) [
  | yes q ↦ rw (q, get_or-set_self cache i e no_entry h) here
  | no q ↦ rw (get_or-set_ne cache e no_entry (λ z. q (sym z))) (there j q)
]

pub set-IsUnique :
    (cache : List ArpCacheEntry) (a i : ℕ) (e : ArpCacheEntry)
    → i < length cache
    → IsUnique cache
    → IsAlone cache a i
    → e.protocol_address ≡ a
    → IsUnique (set cache i e)
set-IsUnique cache a i e h u alone q j k b =
    entries-set
      (λ j x. is_for b x ≡ true → is_for b (get_or (set cache i e) k no_entry) ≡ true → j ≡ k) cache
      i e h
      (λ x.
        entries-set (λ k y. is_for b y ≡ true → i ≡ k) cache i e h (λ y. refl)
          (λ k n y.
            let same : b ≡ a = ground (arith, q) in
            let out = alone k n in
            let is_out : is_for b (get_or cache k no_entry) ≡ false = rw same out in cc)
          k)
      (λ j n x.
        entries-set (λ k y. is_for b y ≡ true → j ≡ k) cache i e h
          (λ y.
            let same : b ≡ a = ground (arith, q) in
            let out = alone j n in
            let is_out : is_for b (get_or cache j no_entry) ≡ false = rw same out in cc)
          (λ k m y. u j k b x y) k)
      j

set-IsAlone :
    (cache : List ArpCacheEntry) (a i : ℕ) (e : ArpCacheEntry)
    → i < length cache
    → IsAlone cache a i
    → IsAlone (set cache i e) a i
set-IsAlone cache a i e h alone j n =
    entries-set (λ j x. j ≢ i → is_for a x ≡ false) cache i e h (λ m. absurd (m refl))
      (λ j m k. alone j m) j n

oldest_from-bound :
    (xs : List ArpCacheEntry) (i best : ℕ) (e : ArpCacheEntry)
    → best < i
    → oldest_from xs i best e < i + length xs
unfolding oldest_from
oldest_from-bound [] i best e h = omega arith
oldest_from-bound (x ∷ xs) i best e h =
    let newer = oldest_from-bound xs (i + 1) i x (omega arith) in
    let older = oldest_from-bound xs (i + 1) best e (omega arith) in ground arith

pub victim-bound : (cache : List ArpCacheEntry) → 0 < length cache → victim cache < length cache
unfolding victim
victim-bound [] h = absurd (omega arith)
victim-bound (x ∷ xs) h = let rest = oldest_from-bound xs 1 0 x (omega arith) in ground arith

-- The entry is found.
find_entry-alone :
    (cache : List ArpCacheEntry) (a i : ℕ) (e : ArpCacheEntry)
    → i < length cache
    → IsAlone cache a i
    → is_for a e ≡ true
    → find_entry (set cache i e) a ≡ some i
unfolding find_entry
find_entry-alone cache a i e h alone hit =
    find_index-of_first (is_for a) (set cache i e) no_entry i (omega (arith, length-set cache i e))
      (rw (get_or-set_self cache i e no_entry h) hit)
      (λ j k. set-IsAlone cache a i e h alone j (λ q. omega arith))

module _ {W : Type 0} where
  -- The entry that an operation works on: it is the only one for the address.
  pub entry_for-IsAlone :
      (arp : ArpContext W) (a now : ℕ)
      → 0 < length arp.cache
      → IsUnique arp.cache
      → let (arp', i) = entry_for arp a now in
        (length arp'.cache ≡ length arp.cache)
        × (i < length arp'.cache)
        × IsUnique arp'.cache
        × IsAlone arp'.cache a i
        × ((entry_at arp' i).protocol_address ≡ a)
  unfolding entry_for find_entry allocate_entry
  entry_for-IsAlone arp a now h u = elim (Option-cases (find_entry arp.cache a)) [
    | inr (i, e) ↦
        let (k, hit) = find_index-some (is_for a) arp.cache no_entry e in
        rw (e, entry_for)
          (
            refl,
            k,
            u,
            λ j n. elim (Bool-cases (is_for a (get_or arp.cache j no_entry))) [
              | inl t ↦ absurd (n (u j i a t hit))
              | inr f ↦ f
            ],
            ground arith,
          )
    | inl e ↦
        let i = victim arp.cache in
        let k = victim-bound arp.cache h in
        let x = pending_entry arp a now in
        let alone : IsAlone arp.cache a i = λ j n. elim (dec_lt j (length arp.cache)) [
          | yes z ↦ find_index-none (is_for a) arp.cache no_entry j e z
          | no z ↦ rw (get_or-outside arp.cache j no_entry (omega arith)) refl
        ] in
        let size = length-set arp.cache i x in
        rw (e, entry_for)
          (
            size,
            omega arith,
            set-IsUnique arp.cache a i x k u alone refl,
            set-IsAlone arp.cache a i x k alone,
            ap (λ (y : ArpCacheEntry). y.protocol_address)
                (get_or-set_self arp.cache i x no_entry k),
          )
  ]

  entry_for_ttl :
      (arp : ArpContext W) (a now : ℕ) → (entry_for arp a now).0.cache_ttl ≡ arp.cache_ttl
  unfolding entry_for allocate_entry
  entry_for_ttl arp a now = elim (Option-cases (find_entry arp.cache a)) [
    | inl e ↦ rw (e, entry_for) refl
    | inr (i, e) ↦ rw (e, entry_for) refl
  ]

module _ {W : Type 0} (transmit : W → Hardware → List ℕ → W × Bool)
    (update : W → ℕ → Hardware → W) where
  -- In a cache with one entry for an address at most, what was learned of a valid address is looked up
  -- until `cache_ttl` has passed, a time below 2 ^ 31.
  pub arp_lookup-learn :
      (arp : ArpContext W) (a since now : ℕ) (h : Hardware)
      → 0 < length arp.cache
      → IsUnique arp.cache
      → protocol_valid a ≡ true
      → arp.cache_ttl < 2 ^ 31
      → since < 2 ^ 32
      → now < 2 ^ 32
      → sub32 now since < arp.cache_ttl
      → (arp_lookup (learn transmit update arp a h since) a now).1 ≡ some h
  unfolding arp_lookup learn
  arp_lookup-learn arp a since now h size u valid ttl w w' young =
      let (size', k, u', alone, q) = entry_for-IsAlone arp a since size u in
      let arp' = (entry_for arp a since).0 in
      let i = (entry_for arp a since).1 in
      let e = learned_entry (entry_at arp' i) a h since arp'.cache_ttl in
      let hit : is_for a e ≡ true = ground arith in
      let found = find_entry-alone arp'.cache a i e k alone hit in
      let got = get_or-set_self arp'.cache i e no_entry k in
      let same : arp'.cache_ttl ≡ arp.cache_ttl = entry_for_ttl arp a since in
      let fresh : before now (add32 since arp'.cache_ttl) ≡ true = rw same (ground arith) in
      rw (valid, found, got, fresh, arp_lookup) refl
