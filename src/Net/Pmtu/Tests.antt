-- ===== src/Net/Pmtu/Tests.antt =====
-- Runs of src/net/pmtu.c, and the theorems at concrete inputs.
use mich_core.Base.{ℕ, ◌≡◌, refl, true, none, some, List, [], ◌∷◌, arith, replicate, find_index}
use mich_core.Net.Pmtu.{
  PmtuEntry, PmtuCache, refused, blank_entry, pmtu_init, pmtu_update4, pmtu_lookup4, clamp_mtu,
  find4, allocate_entry,
}
use mich_core.Net.Pmtu.Store.{IsLive}
use mich_core.Net.Pmtu.Valid.{IsValid}
use mich_core.Net.Pmtu.Keeps.{pmtu_init-IsValid, pmtu_update4-IsValid}

abbrev dirty : PmtuCache
dirty = record { entries = []; now = 9; ttl = 9; updates = 9; hits = 9; expired = 9 }

-- The cache of `pmtu_init` with a lifetime of 600.
abbrev fresh : PmtuCache
fresh = record {
  entries = replicate 16 blank_entry;
  now = 0;
  ttl = 600;
  updates = 0;
  hits = 0;
  expired = 0;
}

abbrev victim : PmtuEntry
victim = record blank_entry {
  family = 4;
  address4 = 0x0a00_0001;
  mtu = 600;
  expires = 100;
  active = true;
}

abbrev other : PmtuEntry
other = record blank_entry {
  family = 4;
  address4 = 0x0a00_0002;
  mtu = 1400;
  expires = 500;
  active = true;
}

-- Sixteen active entries; the first expires first.
abbrev full : PmtuCache
full = record fresh { entries = victim ∷ replicate 15 other }

abbrev host6 : List ℕ
host6 = 0x20 ∷ 1 ∷ replicate 14 0

init_run : pmtu_init dirty 600 ≡ fresh
unfolding pmtu_init
init_run = refl

learned : (pmtu_lookup4 (pmtu_update4 fresh 7 1300 1500).0 7 1500).1 ≡ 1300
unfolding pmtu_lookup4 pmtu_update4 find4 find_index allocate_entry clamp_mtu
learned = refl

refuses_zero : (pmtu_update4 fresh 0 1300 1500).1 ≡ refused
unfolding pmtu_update4
refuses_zero = refl

full_picks_victim : (find4 full 7 ≡ none) × (allocate_entry full ≡ some 0)
unfolding find4 find_index allocate_entry
full_picks_victim = (refl, refl)

fresh-IsLive : IsLive fresh
fresh-IsLive = omega arith

ready-IsValid : IsValid (pmtu_init dirty 600)
ready-IsValid = pmtu_init-IsValid dirty 600 (omega arith)

learned-IsValid : IsValid (pmtu_update4 (pmtu_init dirty 600) 7 1300 1500).0
learned-IsValid = pmtu_update4-IsValid 7 1300 1500 ready-IsValid
