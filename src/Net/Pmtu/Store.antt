-- ===== src/Net/Pmtu/Store.antt =====
-- What an update of src/net/pmtu.c writes, as the lookups answer it.
use mich_core.Base.{
  ℕ, zero, suc, ◌+◌, ◌<◌, ◌≤◌, ◌^◌, ◌≡◌, ap, ◌∙◌, ◌⊎◌, inl, inr, Bool, true, false, not, ◌&&◌,
  Option, none, some, List, [], ◌∷◌, arith, min, if◌then◌else◌, leb, length, set, find_index,
  before, add32, find_index-set_hit, find_index-set_new, get_or-set_self,
}
use mich_core.Net.Pmtu.{
  PmtuEntry, PmtuCache, blank_entry, allocate_from, allocate_entry, older, stored_entry, store,
  entry, update, answer, is_expired,
}

abbrev pub is_inactive : PmtuEntry → Bool
is_inactive e = not e.active

-- A free slot is taken before an old one.
allocate_from-inactive :
    (es : List PmtuEntry) (i k : ℕ) (oldest : Option (ℕ × ℕ))
    → find_index is_inactive es ≡ some k
    → allocate_from es i oldest ≡ some (i + k)
unfolding allocate_from find_index
allocate_from-inactive [] i k o e = absurd (ground arith)
allocate_from-inactive (x ∷ es) i zero o e = ground arith
allocate_from-inactive (x ∷ es) i (suc k) o e =
    ground (arith, allocate_from-inactive es (suc i) k (older o i x))

pub allocate_entry-inactive :
    (cache : PmtuCache) (k : ℕ)
    → find_index is_inactive cache.entries ≡ some k
    → allocate_entry cache ≡ some k
unfolding allocate_entry
allocate_entry-inactive cache k e = ground (arith, allocate_from-inactive cache.entries 0 k none e)

-- The clock and the lifetime for which a fresh entry is not expired at once.
pub record IsLive (cache : PmtuCache) : Type 0 where
  pub now_fits : cache.now < 2 ^ 32
  pub ttl_pos : 0 < cache.ttl
  pub ttl_fits : cache.ttl ≤ 2 ^ 31

-- The MTU that an entry holds once `store` is done with it.
abbrev pub held : PmtuEntry → ℕ → ℕ
held e mtu = if e.active && leb e.mtu mtu then e.mtu else mtu

fresh : (now ttl : ℕ) → now < 2 ^ 32 → 0 < ttl → ttl ≤ 2 ^ 31 → before now (add32 now ttl) ≡ true
fresh now ttl a b c = ground arith

pub entries-store :
    (cache : PmtuCache) (i : ℕ) (e : PmtuEntry) (mtu : ℕ)
    → ((store cache i e mtu).0.entries ≡ set cache.entries i (stored_entry cache e mtu))
      × ((store cache i e mtu).0.now ≡ cache.now)
unfolding store
entries-store cache i e mtu = ground arith

answer-live :
    (cache : PmtuCache) (i ceiling : ℕ)
    → is_expired cache.now (entry cache i) ≡ false
    → (answer cache (some i) ceiling).1 ≡ min ceiling (entry cache i).mtu
unfolding answer
answer-live cache i ceiling h = ground arith

stored_entry-held :
    (cache : PmtuCache) (e : PmtuEntry) (mtu : ℕ)
    → IsLive cache
    → ((stored_entry cache e mtu).mtu ≡ held e mtu)
      × (is_expired cache.now (stored_entry cache e mtu) ≡ false)
stored_entry-held cache e mtu v =
    ground (arith, fresh cache.now cache.ttl v.now_fits v.ttl_pos v.ttl_fits)

pub entry-store :
    (cache : PmtuCache) (i mtu : ℕ) (e : PmtuEntry)
    → i < length cache.entries
    → entry (store cache i e mtu).0 i ≡ stored_entry cache e mtu
entry-store cache i mtu e b =
    rw ((entries-store cache i e mtu).0)
      (get_or-set_self cache.entries i (stored_entry cache e mtu) blank_entry b)

pub answer-store :
    (cache : PmtuCache) (i ceiling mtu : ℕ) (e : PmtuEntry)
    → IsLive cache
    → i < length cache.entries
    → (answer (store cache i e mtu).0 (some i) ceiling).1 ≡ min ceiling (held e mtu)
answer-store cache i ceiling mtu e v b =
    let (m, x) = stored_entry-held cache e mtu v in
    let there = entry-store cache i mtu e b in
    let now = (entries-store cache i e mtu).1 in
    answer-live (store cache i e mtu).0 i ceiling (rw (there, now) x)
    ∙ ap (min ceiling) (ap (λ (f : PmtuEntry). f.mtu) there ∙ m)

-- The slot that an update writes, and the entry as `store` is given it.
abbrev pub Target : PmtuCache → Option ℕ → (PmtuEntry → PmtuEntry) → ℕ → PmtuEntry → Type 0
Target cache found label i e =
    (found ≡ some i) × (e ≡ entry cache i)
    ⊎ (found ≡ none) × (allocate_entry cache ≡ some i) × (e ≡ label (entry cache i))

pub update-Target :
    (cache : PmtuCache) (found : Option ℕ) (label : PmtuEntry → PmtuEntry) (mtu i : ℕ)
    (e : PmtuEntry)
    → Target cache found label i e
    → update cache found label mtu ≡ store cache i e mtu
unfolding update
update-Target cache found label mtu i e (inl (f, q)) = rw (f, update, q)
update-Target cache found label mtu i e (inr (f, a, q)) = rw (f, update, a, q)

-- An entry that passes the test `p` of its lookup is found again after the update.
pub found_after :
    (p : PmtuEntry → Bool) (cache : PmtuCache) (label : PmtuEntry → PmtuEntry) (mtu i : ℕ)
    (e : PmtuEntry)
    → Target cache (find_index p cache.entries) label i e
    → i < length cache.entries
    → p (stored_entry cache e mtu) ≡ true
    → find_index p (store cache i e mtu).0.entries ≡ some i
found_after p cache label mtu i e (inl (f, q)) b h =
    rw ((entries-store cache i e mtu).0)
      (find_index-set_hit p cache.entries blank_entry (stored_entry cache e mtu) f h)
found_after p cache label mtu i e (inr (f, a, q)) b h =
    rw ((entries-store cache i e mtu).0)
      (find_index-set_new p cache.entries blank_entry (stored_entry cache e mtu) i f b h)
