-- ===== src/Net/Pmtu.antt =====
-- src/net/pmtu.c and pmtu.h: the path MTU cache. `pmtu_cache.entries` is a list of
-- `pmtu_entry_max` entries; a function that updates `*cache` returns the new cache, and a pointer
-- to an entry is its index. An IPv6 address is a list of 16 bytes. The tests for null pointers
-- have no counterpart, since caches and addresses are values here.
pub mod Clamp
pub mod Store
mod Tests
pub mod Frame
pub mod Expiry
pub mod Keeps
pub mod Valid
pub mod Lookups
use mich_core.Base.{
  ℕ, zero, suc, ◌+◌, ◌-◌, Bool, true, false, not, ◌&&◌, ◌||◌, Option, none, some, List, [], ◌∷◌,
  ltb, leb, ◌==◌, if◌then◌else◌, add32, sub32, add64, before, set, get_or, replicate, find_index,
}

pub record PmtuEntry : Type 0 where
  pub family : ℕ
  pub address4 : ℕ
  pub address6 : List ℕ
  pub mtu : ℕ
  pub expires : ℕ
  pub active : Bool

pub record PmtuCache : Type 0 where
  pub entries : List PmtuEntry
  pub now : ℕ
  pub ttl : ℕ
  pub updates : ℕ
  pub hits : ℕ
  pub expired : ℕ

abbrev pub pmtu_entry_max : ℕ
pmtu_entry_max = 16

abbrev pub pmtu_ipv4_min : ℕ
pmtu_ipv4_min = 576

abbrev pub pmtu_ipv6_min : ℕ
pmtu_ipv6_min = 1280

-- The results -1, 0 and 1 of an update.
pub data Outcome : Type 0 where
  refused stored kept : Outcome

pub address6_equal : List ℕ → List ℕ → Bool
address6_equal [] [] = true
address6_equal [] (y ∷ ys) = false
address6_equal (x ∷ xs) [] = false
address6_equal (x ∷ xs) (y ∷ ys) = x == y && address6_equal xs ys

pub address6_unspecified : List ℕ → Bool
address6_unspecified [] = true
address6_unspecified (x ∷ xs) = x == 0 && address6_unspecified xs

pub clamp_mtu : ℕ → ℕ → ℕ → ℕ
clamp_mtu mtu ceiling minimum =
    let a = if mtu == 0 then minimum else mtu in
    let b = if ltb ceiling a then ceiling else a in
    let c = if ltb b minimum then minimum else b in if ltb ceiling c then ceiling else c

abbrev pub no_address6 : List ℕ
no_address6 = replicate 16 0

abbrev pub blank_entry : PmtuEntry
blank_entry = record {
  family = 0;
  address4 = 0;
  address6 = no_address6;
  mtu = 0;
  expires = 0;
  active = false;
}

pub pmtu_init : PmtuCache → ℕ → PmtuCache
pmtu_init cache ttl = if ttl == 0 then cache else record {
  entries = replicate pmtu_entry_max blank_entry;
  now = 0;
  ttl = ttl;
  updates = 0;
  hits = 0;
  expired = 0;
}

-- `(i32)(now - expires) >= 0`
abbrev pub is_expired : ℕ → PmtuEntry → Bool
is_expired now e = not (before now e.expires)

tick_entries : ℕ → List PmtuEntry → ℕ → List PmtuEntry × ℕ
tick_entries now [] expired = ([], expired)
tick_entries now (e ∷ es) expired =
    let out = e.active && is_expired now e in
    let (rest, expired') = tick_entries now es (if out then add64 expired 1 else expired) in
    ((if out then record e { active = false } else e) ∷ rest, expired')

pub pmtu_tick : PmtuCache → ℕ → PmtuCache
unfolding tick_entries
pmtu_tick cache now =
    let (es, expired) = tick_entries now cache.entries cache.expired in
    record cache { now = now; entries = es; expired = expired }

abbrev pub has_address4 : ℕ → PmtuEntry → Bool
has_address4 destination e = e.active && (e.family == 4 && e.address4 == destination)

abbrev pub has_address6 : List ℕ → PmtuEntry → Bool
has_address6 destination e = e.active && (e.family == 6 && address6_equal e.address6 destination)

pub find4 : PmtuCache → ℕ → Option ℕ
find4 cache destination = find_index (has_address4 destination) cache.entries

pub find6 : PmtuCache → List ℕ → Option ℕ
find6 cache destination = find_index (has_address6 destination) cache.entries

-- `oldest` is the index and the expiry of the entry that the C pointer stands at.
abbrev pub older : Option (ℕ × ℕ) → ℕ → PmtuEntry → Option (ℕ × ℕ)
older none i e = some (i, e.expires)
older (some (k, expires)) i e =
    if before e.expires expires then some (i, e.expires) else some (k, expires)

abbrev pub index_of : Option (ℕ × ℕ) → Option ℕ
index_of none = none
index_of (some (k, expires)) = some k

allocate_from : List PmtuEntry → ℕ → Option (ℕ × ℕ) → Option ℕ
allocate_from [] i oldest = index_of oldest
allocate_from (e ∷ es) i oldest =
    let rest = allocate_from es (suc i) (older oldest i e) in if not e.active then some i else rest

pub allocate_entry : PmtuCache → Option ℕ
unfolding allocate_from
allocate_entry cache = allocate_from cache.entries 0 none

-- The entry after `store`: one that is active and already as small keeps its MTU.
abbrev pub stored_entry : PmtuCache → PmtuEntry → ℕ → PmtuEntry
stored_entry cache e mtu =
    if e.active && leb e.mtu mtu
    then record e { expires = add32 cache.now cache.ttl }
    else record e { mtu = mtu; expires = add32 cache.now cache.ttl; active = true }

pub store : PmtuCache → ℕ → PmtuEntry → ℕ → PmtuCache × Outcome
store cache i e mtu =
    let cache' = record cache { entries = set cache.entries i (stored_entry cache e mtu) } in
    if e.active && leb e.mtu mtu
    then (cache', kept)
    else (record cache' { updates = add64 cache.updates 1 }, stored)

abbrev pub entry : PmtuCache → ℕ → PmtuEntry
entry cache i = get_or cache.entries i blank_entry

-- What both updates do once the address is checked: `found` is the entry of the address, and
-- `label` writes the address into an entry that is taken over.
pub update : PmtuCache → Option ℕ → (PmtuEntry → PmtuEntry) → ℕ → PmtuCache × Outcome
unfolding store
update cache found label mtu = elim found [
  | some i ↦ store cache i (entry cache i) mtu
  | none ↦ elim (allocate_entry cache) [
    | none ↦ (cache, refused)
    | some i ↦ store cache i (label (entry cache i)) mtu
  ]
]

abbrev pub label4 : ℕ → PmtuEntry → PmtuEntry
label4 destination e = record e { family = 4; address4 = destination; address6 = no_address6 }

abbrev pub label6 : List ℕ → PmtuEntry → PmtuEntry
label6 destination e = record e { family = 6; address4 = 0; address6 = destination }

pub pmtu_update4 : PmtuCache → ℕ → ℕ → ℕ → PmtuCache × Outcome
unfolding update
pmtu_update4 cache destination mtu ceiling =
    if destination == 0 || ceiling == 0
    then (cache, refused)
    else update cache (find4 cache destination) (label4 destination)
        (clamp_mtu mtu ceiling pmtu_ipv4_min)

pub pmtu_update6 : PmtuCache → List ℕ → ℕ → ℕ → PmtuCache × Outcome
unfolding update
pmtu_update6 cache destination mtu ceiling =
    if address6_unspecified destination || (get_or destination 0 0 == 0xff || ceiling == 0)
    then (cache, refused)
    else update cache (find6 cache destination) (label6 destination)
        (clamp_mtu mtu ceiling pmtu_ipv6_min)

-- What both lookups do with the entry that they found.
pub answer : PmtuCache → Option ℕ → ℕ → PmtuCache × ℕ
answer cache found ceiling = elim found [
  | none ↦ (cache, ceiling)
  | some i ↦
      let e = entry cache i in
      if is_expired cache.now e
      then (
        record cache {
          entries = set cache.entries i (record e { active = false });
          expired = add64 cache.expired 1;
        },
        ceiling,
      )
      else (
        record cache { hits = add64 cache.hits 1 },
        (if ltb e.mtu ceiling then e.mtu else ceiling),
      )
]

pub pmtu_lookup4 : PmtuCache → ℕ → ℕ → PmtuCache × ℕ
unfolding answer
pmtu_lookup4 cache destination ceiling =
    if destination == 0 || ceiling == 0
    then (cache, ceiling)
    else answer cache (find4 cache destination) ceiling

pub pmtu_lookup6 : PmtuCache → List ℕ → ℕ → PmtuCache × ℕ
unfolding answer
pmtu_lookup6 cache destination ceiling =
    if address6_unspecified destination || ceiling == 0
    then (cache, ceiling)
    else answer cache (find6 cache destination) ceiling
