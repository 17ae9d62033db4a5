-- ===== src/Net/Pmtu/Frame.antt =====
-- An IPv4 update of src/net/pmtu.c leaves the answers for other IPv4 addresses alone.
use mich_core.Base.{
  ℕ, ◌≡◌, refl, ◌∙◌, ◌≢◌, inl, inr, false, ◌||◌, Option, none, some, arith, ◌==◌, set, find_index,
  find_index-some, find_index-set_other, get_or-set_ne, Bool-cases,
}
use mich_core.Net.Pmtu.{
  PmtuEntry, PmtuCache, blank_entry, has_address4, find4, stored_entry, store, entry, label4,
  answer, clamp_mtu, pmtu_ipv4_min, pmtu_update4, pmtu_lookup4,
}
use mich_core.Net.Pmtu.Store.{Target, update-Target, entries-store}
use mich_core.Net.Pmtu.Lookups.{update4_guarded}

answer-same :
    (s t : PmtuCache) (o : Option ℕ) (c : ℕ)
    → s.now ≡ t.now
    → ((k : ℕ) → o ≡ some k → entry s k ≡ entry t k)
    → (answer s o c).1 ≡ (answer t o c).1
unfolding answer
answer-same s t none c n e = refl
answer-same s t (some k) c n e = rw (n, e k refl) (ground arith)

other_key :
    (cache : PmtuCache) (d d' mtu i : ℕ) (e : PmtuEntry)
    → d ≢ d'
    → Target cache (find4 cache d) (label4 d) i e
    → has_address4 d' (stored_entry cache e mtu) ≡ false
unfolding find4
other_key cache d d' mtu i e ne (inl (f, q)) =
    let t = (find_index-some (has_address4 d) cache.entries blank_entry {i = i} f).1 in
    rw q (ground arith)
other_key cache d d' mtu i e ne (inr (f, a, q)) = rw q (ground arith)

-- `pmtu_update4` of one address changes no lookup of another, if the slot that it writes does not
-- hold the other address.
pub pmtu_lookup4-pmtu_update4_ne :
    (cache : PmtuCache) (destination other mtu ceiling ceiling' i : ℕ) (e : PmtuEntry)
    → destination ≢ other
    → destination ≢ 0
    → ceiling ≢ 0
    → Target cache (find4 cache destination) (label4 destination) i e
    → has_address4 other (entry cache i) ≡ false
    → (pmtu_lookup4 (pmtu_update4 cache destination mtu ceiling).0 other ceiling').1
      ≡ (pmtu_lookup4 cache other ceiling').1
unfolding pmtu_lookup4 find4
pmtu_lookup4-pmtu_update4_ne cache d d' mtu c c' i e ne dz cz t free =
    rw
      (update4_guarded cache d mtu c dz cz ∙ update-Target cache (find4 cache d) (label4 d) m i e t)
      (elim (Bool-cases (d' == 0 || c' == 0)) [
        | inl b ↦ rw b refl
        | inr b ↦
            rw (b, ent, same)
              (answer-same (store cache i e m).0 cache (find4 cache d') c'
                (entries-store cache i e m).1 kept)
      ])
  where
    m : ℕ
    m = clamp_mtu mtu c pmtu_ipv4_min

    ent : (store cache i e m).0.entries ≡ set cache.entries i (stored_entry cache e m)
    ent = (entries-store cache i e m).0

    same :
        find_index (has_address4 d') (set cache.entries i (stored_entry cache e m))
        ≡ find_index (has_address4 d') cache.entries
    same =
        find_index-set_other (has_address4 d') cache.entries blank_entry (stored_entry cache e m) i
          free (other_key cache d d' m i e ne t)

    kept : (k : ℕ) → find4 cache d' ≡ some k → entry (store cache i e m).0 k ≡ entry cache k
    kept k f =
        let h = (find_index-some (has_address4 d') cache.entries blank_entry {i = k} f).1 in
        rw ent (
          get_or-set_ne cache.entries (stored_entry cache e m) blank_entry
            (λ q. absurd (ground arith)))
