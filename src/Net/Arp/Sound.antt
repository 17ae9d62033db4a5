-- ===== src/Net/Arp/Sound.antt =====
-- When the cache of src/net/arp.c is well formed, and the operations on the cache alone that keep it so.
use mich_core.Base.{
  ℕ, zero, suc, ◌<◌, ◌≤◌, ◌≡◌, ◌⊎◌, inl, inr, refl, sym, ap, subst, ◌∙◌, arith, true, false, ◌||◌,
  List, [], ◌∷◌, get_or, set, length, length-set, find_index-some, Bool-cases, Option-cases, before,
}
use mich_core.Net.Arp.{
  arp_cache_empty, ArpCacheEntry, ArpContext, arp_cache_max, no_entry, is_empty, is_reachable,
  is_for, find_entry, victim, entry_at, pending_entry, allocate_entry, entry_for, arp_lookup,
  protocol_valid, hardware_valid, emptied, expire, arp_reply_max,
}
use mich_core.Net.Arp.Cache.{
  IsUnique, IsAlone, entries-set, set-IsUnique, victim-bound, entry_for-IsAlone,
}

-- The cache: its size, one entry for an address at most, and no neighbour whose hardware address is
-- that of a group or zero.
pub record IsCache (cache : List ArpCacheEntry) : Type 0 where
  pub size : length cache ≡ arp_cache_max
  pub unique : IsUnique cache
  pub valid :
      (i : ℕ)
      → is_reachable (get_or cache i no_entry).state ≡ true
      → hardware_valid (get_or cache i no_entry).hardware_address ≡ true

abbrev pub IsArp : {W : Type 0} → ArpContext W → Type 0
IsArp arp = IsCache arp.cache × (arp.replies_in_window ≤ arp_reply_max)

-- An entry for an address is replaced, where no other is for it.
pub set-IsCache :
    (cache : List ArpCacheEntry) (a i : ℕ) (e : ArpCacheEntry)
    → IsCache cache
    → i < length cache
    → IsAlone cache a i
    → e.protocol_address ≡ a
    → (is_reachable e.state ≡ true → hardware_valid e.hardware_address ≡ true)
    → IsCache (set cache i e)
set-IsCache cache a i e h k alone q good = record {
  size = length-set cache i e ∙ h.size;
  unique = set-IsUnique cache a i e k h.unique alone q;
  valid =
      entries-set (λ j x. is_reachable x.state ≡ true → hardware_valid x.hardware_address ≡ true)
        cache i e k good (λ j n. h.valid j);
}

-- An entry is replaced by an empty one.
empty-IsCache :
    (cache : List ArpCacheEntry) (i : ℕ) (e : ArpCacheEntry)
    → IsCache cache
    → i < length cache
    → e.state ≡ arp_cache_empty
    → IsCache (set cache i e)
empty-IsCache cache i e h k q = record {
  size = length-set cache i e ∙ h.size;
  unique = λ j m a.
      entries-set
        (λ j x. is_for a x ≡ true → is_for a (get_or (set cache i e) m no_entry) ≡ true → j ≡ m)
        cache i e k (λ x. let no : is_for a e ≡ false = rw q refl in cc)
        (λ j n x.
          entries-set (λ m y. is_for a y ≡ true → j ≡ m) cache i e k
            (λ y. let no : is_for a e ≡ false = rw q refl in cc) (λ m p y. h.unique j m a x y) m)
        j;
  valid =
      entries-set (λ j x. is_reachable x.state ≡ true → hardware_valid x.hardware_address ≡ true)
        cache i e k (λ x. let no : is_reachable e.state ≡ false = rw q refl in cc)
        (λ j n. h.valid j);
}

module _ {W : Type 0} where
  pub entry_for_replies :
      (arp : ArpContext W) (a now : ℕ)
      → (entry_for arp a now).0.replies_in_window ≡ arp.replies_in_window
  unfolding entry_for allocate_entry
  entry_for_replies arp a now = elim (Option-cases (find_entry arp.cache a)) [
    | inl e ↦ rw (e, entry_for) refl
    | inr (i, e) ↦ rw (e, entry_for) refl
  ]

  pub entry_for-IsCache :
      (arp : ArpContext W) (a now : ℕ) → IsCache arp.cache → IsCache (entry_for arp a now).0.cache
  unfolding entry_for allocate_entry
  entry_for-IsCache arp a now h =
      let size = h.size in
      let (size', k, u, alone, q) = entry_for-IsAlone arp a now (omega arith) h.unique in
      record {
        size = size' ∙ h.size;
        unique = u;
        valid = elim (Option-cases (find_entry arp.cache a)) [
          | inr (i, e) ↦ rw (e, entry_for) h.valid
          | inl e ↦
              rw (e, entry_for)
                (entries-set
                  (λ j x. is_reachable x.state ≡ true → hardware_valid x.hardware_address ≡ true)
                  arp.cache (victim arp.cache) (pending_entry arp a now)
                  (victim-bound arp.cache (omega arith)) (λ z. cc) (λ j n. h.valid j))
        ];
      }

  pub arp_lookup-IsArp :
      (arp : ArpContext W) (a now : ℕ) → IsArp arp → IsArp (arp_lookup arp a now).0
  unfolding arp_lookup find_entry
  arp_lookup-IsArp arp a now (h, few) = elim (Bool-cases (protocol_valid a)) [
    | inr f ↦ rw (f, arp_lookup) (h, few)
    | inl t ↦ elim (Option-cases (find_entry arp.cache a)) [
      | inl e ↦ rw (t, e, arp_lookup) (h, few)
      | inr (i, e) ↦
          let (k, hit) = find_index-some (is_for a) arp.cache no_entry e in
          elim (Bool-cases (is_reachable (entry_at arp i).state)) [
            | inr f ↦ rw (t, e, f, arp_lookup) (h, few)
            | inl r ↦ elim (Bool-cases (before now (entry_at arp i).expires)) [
              | inl b ↦ rw (t, e, r, b, arp_lookup) (h, few)
              | inr b ↦
                  rw (t, e, r, b, arp_lookup)
                    (
                      empty-IsCache arp.cache i
                          (record (entry_at arp i) { state = arp_cache_empty }) h k refl,
                      few,
                    )
            ]
          ]
    ]
  ]

-- The entries after `arp_tick` and `arp_set_local_address` are as before or empty.
pub length-expire : (es : List ArpCacheEntry) (now : ℕ) → length (expire es now).0 ≡ length es
unfolding expire
length-expire [] now = refl
length-expire (e ∷ es) now = elim (Bool-cases (is_empty e.state || before now e.expires)) [
  | inl t ↦ rw (t, expire) (ap suc (length-expire es now))
  | inr f ↦ rw (f, expire) (ap suc (length-expire es now))
]

pub expire_cases :
    (es : List ArpCacheEntry) (now j : ℕ)
    → let e = get_or (expire es now).0 j no_entry in
      (e ≡ get_or es j no_entry) ⊎ (e.state ≡ arp_cache_empty)
unfolding expire
expire_cases [] now j = inl refl
expire_cases (e ∷ es) now zero = elim (Bool-cases (is_empty e.state || before now e.expires)) [
  | inl t ↦ rw (t, expire) (inl refl)
  | inr f ↦ rw (f, expire) (inr refl)
]
expire_cases (e ∷ es) now (suc j) = elim (Bool-cases (is_empty e.state || before now e.expires)) [
  | inl t ↦ rw (t, expire) (expire_cases es now j)
  | inr f ↦ rw (f, expire) (expire_cases es now j)
]

pub length-emptied : (es : List ArpCacheEntry) → length (emptied es) ≡ length es
length-emptied [] = refl
length-emptied (e ∷ es) = ap suc (length-emptied es)

pub emptied_cases :
    (es : List ArpCacheEntry) (j : ℕ) → (get_or (emptied es) j no_entry).state ≡ arp_cache_empty
emptied_cases [] j = refl
emptied_cases (e ∷ es) zero = refl
emptied_cases (e ∷ es) (suc j) = emptied_cases es j

pub fewer-IsCache :
    (cache cache' : List ArpCacheEntry)
    → IsCache cache
    → length cache' ≡ length cache
    → ((j : ℕ)
        → let e = get_or cache' j no_entry in
          (e ≡ get_or cache j no_entry) ⊎ (e.state ≡ arp_cache_empty))
    → IsCache cache'
fewer-IsCache cache cache' h size same =
    let old : (j a : ℕ)
        → is_for a (get_or cache' j no_entry) ≡ true
        → is_for a (get_or cache j no_entry) ≡ true =
      λ j a x. elim (same j) [
        | inl q ↦ subst (λ e. is_for a e ≡ true) q x
        | inr q ↦ let no : is_for a (get_or cache' j no_entry) ≡ false = rw q refl in cc
      ] in
    record {
      size = size ∙ h.size;
      unique = λ i j a x y. h.unique i j a (old i a x) (old j a y);
      valid = λ i x. elim (same i) [
        | inl q ↦
            subst (λ (e : ArpCacheEntry). hardware_valid e.hardware_address ≡ true) (sym q)
              (h.valid i (subst (λ (e : ArpCacheEntry). is_reachable e.state ≡ true) q x))
        | inr q ↦ let no : is_reachable (get_or cache' i no_entry).state ≡ false = rw q refl in cc
      ];
    }
