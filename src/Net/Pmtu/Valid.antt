-- ===== src/Net/Pmtu/Valid.antt =====
-- The invariant of the path MTU cache of src/net/pmtu.c: its size, a positive MTU in every active
-- entry, and one active entry at most for an address.
use mich_core.Base.{
  ℕ, suc, ◌+◌, ◌<◌, ◌≡◌, sym, ap, ◌∙◌, inl, inr, Bool, true, Option, none, some, List, [], ◌∷◌,
  arith, length, length-set, get_or, set, get_or-set_self, get_or-set_ne, Bool-cases, ℕ_discrete,
}
use mich_core.Net.Pmtu.{
  PmtuEntry, PmtuCache, blank_entry, has_address4, allocate_from, allocate_entry, older,
  stored_entry, entry, pmtu_entry_max,
}

abbrev IsUnique : (PmtuEntry → Bool) → List PmtuEntry → Type 0
IsUnique p es =
    (i j : ℕ) → p (get_or es i blank_entry) ≡ true → p (get_or es j blank_entry) ≡ true → i ≡ j

pub record IsValid (cache : PmtuCache) : Type 0 where
  pub size : length cache.entries ≡ pmtu_entry_max
  pub positive : (i : ℕ) → (entry cache i).active ≡ true → 0 < (entry cache i).mtu
  pub unique4 : (d : ℕ) → IsUnique (has_address4 d) cache.entries

-- The index that `allocate_entry` picks is one of the table's.
IndexBelow : (o : Option (ℕ × ℕ)) (n : ℕ) → Type 0
IndexBelow none n = Unit
IndexBelow (some (k, x)) n = k < n

older-lt :
    (o : Option (ℕ × ℕ)) (i : ℕ) (e : PmtuEntry) → IndexBelow o i → IndexBelow (older o i e) (suc i)
unfolding IndexBelow
older-lt none i e h = omega arith
older-lt (some (k, x)) i e h = ground arith

allocate_from-lt :
    (es : List PmtuEntry) (i r : ℕ) (o : Option (ℕ × ℕ))
    → IndexBelow o i
    → allocate_from es i o ≡ some r
    → r < i + length es
unfolding allocate_from IndexBelow
allocate_from-lt [] i r none h e = absurd (ground arith)
allocate_from-lt [] i r (some (k, x)) h e = ground arith
allocate_from-lt (x ∷ es) i r o h e = elim (Bool-cases x.active) [
  | inl a ↦ ground (arith, allocate_from-lt es (suc i) r (older o i x) (older-lt o i x h))
  | inr a ↦ ground arith
]

pub allocate_entry-lt :
    (cache : PmtuCache) {r : ℕ} → allocate_entry cache ≡ some r → r < length cache.entries
unfolding allocate_entry IndexBelow
allocate_entry-lt cache {r} e = ground (arith, allocate_from-lt cache.entries 0 r none tt e)

IsUnique-set :
    (p : PmtuEntry → Bool) (es : List PmtuEntry) (i : ℕ) (v : PmtuEntry)
    → IsUnique p es
    → i < length es
    → (p v ≡ true → (j : ℕ) → p (get_or es j blank_entry) ≡ true → j ≡ i)
    → IsUnique p (set es i v)
IsUnique-set p es i v u b own j k = elim (ℕ_discrete i j) [
  | yes q ↦ elim (ℕ_discrete i k) [
    | yes r ↦ (λ _ _. omega arith)
    | no r ↦
        rw (← q, get_or-set_self es i v blank_entry b, get_or-set_ne es v blank_entry r)
          (λ x y. sym (own x k y))
  ]
  | no q ↦ elim (ℕ_discrete i k) [
    | yes r ↦
        rw (← r, get_or-set_self es i v blank_entry b, get_or-set_ne es v blank_entry q)
          (λ x y. own y j x)
    | no r ↦ rw (get_or-set_ne es v blank_entry q, get_or-set_ne es v blank_entry r) (u j k)
  ]
]

positive-set :
    (es : List PmtuEntry) (i : ℕ) (v : PmtuEntry)
    → ((k : ℕ) → (get_or es k blank_entry).active ≡ true → 0 < (get_or es k blank_entry).mtu)
    → i < length es
    → (v.active ≡ true → 0 < v.mtu)
    → (k : ℕ) → (get_or (set es i v) k blank_entry).active ≡ true
    → 0 < (get_or (set es i v) k blank_entry).mtu
positive-set es i v h b p k = elim (ℕ_discrete i k) [
  | yes q ↦ rw (← q, get_or-set_self es i v blank_entry b) p
  | no q ↦ rw (get_or-set_ne es v blank_entry q) (h k)
]

-- Writing an entry whose IPv4 address no other active entry has.
pub set-IsValid :
    {cache c : PmtuCache} (i : ℕ) (v : PmtuEntry)
    → IsValid cache
    → i < length cache.entries
    → c.entries ≡ set cache.entries i v
    → (v.active ≡ true → 0 < v.mtu)
    → ((d : ℕ) → has_address4 d v ≡ true → (j : ℕ) → has_address4 d (entry cache j) ≡ true → j ≡ i)
    → IsValid c
set-IsValid {cache} {c} i v h b e p own = record {
  size = ap length e ∙ length-set cache.entries i v ∙ h.size;
  positive = λ k. rw e (positive-set cache.entries i v h.positive b p k);
  unique4 =
      λ d j k. rw e (IsUnique-set (has_address4 d) cache.entries i v (h.unique4 d) b (own d) j k);
}

pub stored-positive :
    (cache : PmtuCache) (e : PmtuEntry) (mtu : ℕ)
    → (e.active ≡ true → 0 < e.mtu)
    → 0 < mtu
    → 0 < (stored_entry cache e mtu).mtu
stored-positive cache e mtu h m = elim (Bool-cases e.active) [
  | inl a ↦ ground (arith, h a)
  | inr a ↦ ground arith
]
