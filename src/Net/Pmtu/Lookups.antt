-- ===== src/Net/Pmtu/Lookups.antt =====
-- An update of src/net/pmtu.c followed by a lookup of the same address.
use mich_core.Base.{
  ℕ, ◌<◌, ◌≡◌, refl, ◌≢◌, inl, inr, true, false, List, [], ◌∷◌, arith, min, length, get_or,
  find_index-some,
}
use mich_core.Net.Pmtu.{
  PmtuEntry, PmtuCache, blank_entry, has_address6, find4, find6, stored_entry, store, update,
  label4, label6, answer, clamp_mtu, pmtu_ipv4_min, pmtu_ipv6_min, pmtu_update4, pmtu_update6,
  pmtu_lookup6, address6_equal, address6_unspecified,
}
use mich_core.Net.Pmtu.Store.{IsLive, held, Target, update-Target, found_after, answer-store}

address6_equal_refl : (xs : List ℕ) → address6_equal xs xs ≡ true
unfolding address6_equal
address6_equal_refl [] = refl
address6_equal_refl (x ∷ xs) = ground (arith, address6_equal_refl xs)

has_address6-stored :
    (cache : PmtuCache) (destination : List ℕ) (mtu i : ℕ) (e : PmtuEntry)
    → Target cache (find6 cache destination) (label6 destination) i e
    → has_address6 destination (stored_entry cache e mtu) ≡ true
unfolding find6
has_address6-stored cache d mtu i e (inl (f, q)) =
    let t = (find_index-some (has_address6 d) cache.entries blank_entry {i = i} f).1 in
    rw q (ground arith)
has_address6-stored cache d mtu i e (inr (f, a, q)) = rw q (ground (arith, address6_equal_refl d))

pub update4_guarded :
    (cache : PmtuCache) (d mtu c : ℕ)
    → d ≢ 0
    → c ≢ 0
    → pmtu_update4 cache d mtu c
      ≡ update cache (find4 cache d) (label4 d) (clamp_mtu mtu c pmtu_ipv4_min)
unfolding pmtu_update4
update4_guarded cache d mtu c dz cz = ground arith

update6_guarded :
    (cache : PmtuCache) (d : List ℕ) (mtu c : ℕ)
    → address6_unspecified d ≡ false
    → get_or d 0 0 ≢ 0xff
    → c ≢ 0
    → pmtu_update6 cache d mtu c
      ≡ update cache (find6 cache d) (label6 d) (clamp_mtu mtu c pmtu_ipv6_min)
unfolding pmtu_update6
update6_guarded cache d mtu c u f cz = ground arith

lookup6_guarded :
    (s : PmtuCache) (d : List ℕ) (c : ℕ)
    → address6_unspecified d ≡ false
    → c ≢ 0
    → pmtu_lookup6 s d c ≡ answer s (find6 s d) c
unfolding pmtu_lookup6
lookup6_guarded s d c u cz = ground arith

-- The same of `pmtu_update6` and `pmtu_lookup6`, for an address that is neither unspecified nor
-- multicast.
pub pmtu_lookup6-pmtu_update6 :
    (cache : PmtuCache) (destination : List ℕ) (mtu ceiling ceiling' i : ℕ) (e : PmtuEntry)
    → IsLive cache
    → address6_unspecified destination ≡ false
    → get_or destination 0 0 ≢ 0xff
    → ceiling ≢ 0
    → ceiling' ≢ 0
    → i < length cache.entries
    → Target cache (find6 cache destination) (label6 destination) i e
    → (pmtu_lookup6 (pmtu_update6 cache destination mtu ceiling).0 destination ceiling').1
      ≡ min ceiling' (held e (clamp_mtu mtu ceiling pmtu_ipv6_min))
unfolding find6
pmtu_lookup6-pmtu_update6 cache d mtu c c' i e v u f cz cz' b t =
    let m = clamp_mtu mtu c pmtu_ipv6_min in
    let again =
      found_after (has_address6 d) cache (label6 d) m i e t b
        (has_address6-stored cache d m i e t) in
    rw
      (
        update6_guarded cache d mtu c u f cz,
        update-Target cache (find6 cache d) (label6 d) m i e t,
        lookup6_guarded (store cache i e m).0 d c' u cz',
        again,
      )
      (answer-store cache i c' m e v b)
