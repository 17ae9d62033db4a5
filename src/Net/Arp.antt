-- ===== src/Net/Arp.antt =====
-- src/net/arp.c and arp.h: the cache of neighbours, requests and replies. A context is passed on by
-- each operation. Packets are lists of bytes. `transmit` and the callback `update` are parameters that
-- act on a state `W` of the world, and `ethernet_port` is known by its address, and the handler is told
-- whether a frame came in on that port: the registration of the handler by `ethernet_register_handler` is the caller's.
pub mod Handler
pub mod Cache
pub mod Fields
pub mod Branches
pub mod Packets
pub mod Sound
pub mod Steps
mod Tests
use mich_core.Base.{
  ℕ, zero, suc, ◌+◌, ◌-◌, ◌*◌, ◌/◌, ◌%◌, ◌^◌, Bool, true, false, not, ◌&&◌, ◌||◌, Option, none,
  some, List, [], ◌∷◌, ltb, leb, ◌==◌, if◌then◌else◌, add32, sub32, add64, before, get_or, set,
  length, replicate, find_index, count_if,
}

-- An address of six bytes.
pub record Hardware : Type 0 where
  pub b0 : ℕ
  pub b1 : ℕ
  pub b2 : ℕ
  pub b3 : ℕ
  pub b4 : ℕ
  pub b5 : ℕ

pub data ArpState : Type 0 where
  arp_cache_empty arp_cache_pending arp_cache_reachable : ArpState

pub record ArpCacheEntry : Type 0 where
  pub protocol_address : ℕ
  pub hardware_address : Hardware
  pub updated : ℕ
  pub expires : ℕ
  pub last_request : ℕ
  pub state : ArpState

pub record ArpStats : Type 0 where
  pub requests_received : ℕ
  pub replies_received : ℕ
  pub requests_sent : ℕ
  pub replies_sent : ℕ
  pub cache_updates : ℕ
  pub cache_expired : ℕ
  pub malformed : ℕ
  pub conflicts : ℕ
  pub rate_limited : ℕ

-- `updates` tells whether a callback is registered.
pub record ArpContext (W : Type 0) : Type 0 where
  pub port : Hardware
  pub local_address : ℕ
  pub cache_ttl : ℕ
  pub request_interval : ℕ
  pub now : ℕ
  pub reply_window_start : ℕ
  pub replies_in_window : ℕ
  pub cache : List ArpCacheEntry
  pub stats : ArpStats
  pub updates : Bool
  pub world : W

abbrev pub arp_cache_max : ℕ
arp_cache_max = 32

abbrev pub arp_packet_size : ℕ
arp_packet_size = 28

abbrev pub arp_reply_window : ℕ
arp_reply_window = 100

abbrev pub arp_reply_max : ℕ
arp_reply_max = 32

abbrev pub no_hardware : Hardware
no_hardware = record { b0 = 0; b1 = 0; b2 = 0; b3 = 0; b4 = 0; b5 = 0 }

abbrev pub broadcast : Hardware
broadcast = record { b0 = 255; b1 = 255; b2 = 255; b3 = 255; b4 = 255; b5 = 255 }

abbrev pub no_entry : ArpCacheEntry
no_entry = record {
  protocol_address = 0;
  hardware_address = no_hardware;
  updated = 0;
  expires = 0;
  last_request = 0;
  state = arp_cache_empty;
}

abbrev pub no_stats : ArpStats
no_stats = record {
  requests_received = 0;
  replies_received = 0;
  requests_sent = 0;
  replies_sent = 0;
  cache_updates = 0;
  cache_expired = 0;
  malformed = 0;
  conflicts = 0;
  rate_limited = 0;
}

abbrev pub read_be16 : List ℕ → ℕ → ℕ
read_be16 p i = get_or p i 0 * 2 ^ 8 + get_or p (i + 1) 0

abbrev pub read_be32 : List ℕ → ℕ → ℕ
read_be32 p i =
    get_or p i 0 * 2 ^ 24
    + get_or p (i + 1) 0 * 2 ^ 16
    + get_or p (i + 2) 0 * 2 ^ 8
    + get_or p (i + 3) 0

-- The bytes of `write_be32`, with the highest first.
abbrev pub byte3 : ℕ → ℕ
byte3 v = v / 2 ^ 24 % 2 ^ 8

abbrev pub byte2 : ℕ → ℕ
byte2 v = v / 2 ^ 16 % 2 ^ 8

abbrev pub byte1 : ℕ → ℕ
byte1 v = v / 2 ^ 8 % 2 ^ 8

abbrev pub byte0 : ℕ → ℕ
byte0 v = v % 2 ^ 8

-- `(i32)a < (i32)b`.
abbrev pub less_signed : ℕ → ℕ → Bool
less_signed a b = ltb (add32 a (2 ^ 31)) (add32 b (2 ^ 31))

abbrev pub address_equal : Hardware → Hardware → Bool
address_equal a b =
    a.b0 == b.b0
    && (a.b1 == b.b1 && (a.b2 == b.b2 && (a.b3 == b.b3 && (a.b4 == b.b4 && a.b5 == b.b5))))

abbrev pub hardware_valid : Hardware → Bool
hardware_valid a =
    a.b0 % 2 == 0
    && not (a.b0 == 0 && (a.b1 == 0 && (a.b2 == 0 && (a.b3 == 0 && (a.b4 == 0 && a.b5 == 0)))))

abbrev pub protocol_valid : ℕ → Bool
protocol_valid a =
    not (a == 0)
    && (not (a == 2 ^ 32 - 1)
        && (not (byte3 a == 0) && (not (byte3 a == 127) && ltb (byte3 a) 224)))

abbrev pub is_empty : ArpState → Bool
is_empty arp_cache_empty = true
is_empty s = false

abbrev pub is_reachable : ArpState → Bool
is_reachable arp_cache_reachable = true
is_reachable s = false

-- The test of `find_entry`.
abbrev pub is_for : ℕ → ArpCacheEntry → Bool
is_for address e = not (is_empty e.state) && e.protocol_address == address

pub find_entry : List ArpCacheEntry → ℕ → Option ℕ
find_entry cache address = find_index (is_for address) cache

-- The loop of `allocate_entry` from index `i` on, with the oldest entry so far: the first empty entry,
-- or the one that was updated first.
pub oldest_from : List ArpCacheEntry → ℕ → ℕ → ArpCacheEntry → ℕ
oldest_from [] i best e = best
oldest_from (x ∷ xs) i best e =
    let newer = oldest_from xs (i + 1) i x in
    let older = oldest_from xs (i + 1) best e in
    if is_empty x.state then i else if before x.updated e.updated then newer else older

-- The index of `allocate_entry`. The cache has 32 entries, so there is one.
pub victim : List ArpCacheEntry → ℕ
victim [] = 0
victim (x ∷ xs) = let rest = oldest_from xs 1 0 x in if is_empty x.state then 0 else rest

pub build_packet : ℕ → Hardware → ℕ → Hardware → ℕ → List ℕ
build_packet operation s sender t target =
    0
    ∷ 1
    ∷ 8
    ∷ 0
    ∷ 6
    ∷ 4
    ∷ byte1 operation
    ∷ byte0 operation
    ∷ s.b0
    ∷ s.b1
    ∷ s.b2
    ∷ s.b3
    ∷ s.b4
    ∷ s.b5
    ∷ byte3 sender
    ∷ byte2 sender
    ∷ byte1 sender
    ∷ byte0 sender
    ∷ t.b0
    ∷ t.b1
    ∷ t.b2
    ∷ t.b3
    ∷ t.b4
    ∷ t.b5
    ∷ byte3 target
    ∷ byte2 target
    ∷ byte1 target
    ∷ byte0 target
    ∷ []

abbrev pub hardware_at : List ℕ → ℕ → Hardware
hardware_at p i = record {
  b0 = get_or p i 0;
  b1 = get_or p (i + 1) 0;
  b2 = get_or p (i + 2) 0;
  b3 = get_or p (i + 3) 0;
  b4 = get_or p (i + 4) 0;
  b5 = get_or p (i + 5) 0;
}

-- What of a call of the handler it reads beside its context. `source` is at byte 6 of the frame.
-- `on_port` tells whether the port that the frame came in on is the one of the context.
pub record FrameView : Type 0 where
  pub on_port : Bool
  pub source : Hardware
  pub ether_type : ℕ
  pub payload : List ℕ

abbrev pub emptied : List ArpCacheEntry → List ArpCacheEntry
emptied [] = []
emptied (e ∷ es) = record e { state = arp_cache_empty } ∷ emptied es

-- The loop of `arp_tick`: the cache and the number of entries that expire.
pub expire : List ArpCacheEntry → ℕ → List ArpCacheEntry × ℕ
expire [] now = ([], 0)
expire (e ∷ es) now =
    let (rest, n) = expire es now in
    if is_empty e.state || before now e.expires
    then (e ∷ rest, n)
    else (record e { state = arp_cache_empty; protocol_address = 0 } ∷ rest, suc n)

abbrev pub is_known : ArpCacheEntry → ℕ → Bool
is_known e now = is_reachable e.state && before now e.expires

-- The tests of the handler on a packet and the source of its frame.
abbrev pub is_malformed : List ℕ → Hardware → Bool
is_malformed p source =
    not (read_be16 p 0 == 1)
    || (not (read_be16 p 2 == 2048)
        || (not (get_or p 4 0 == 6)
            || (not (get_or p 5 0 == 4)
                || (not (read_be16 p 6 == 1 || read_be16 p 6 == 2)
                    || (not (hardware_valid (hardware_at p 8))
                        || (not (address_equal (hardware_at p 8) source)
                            || (not (protocol_valid (read_be32 p 14))
                                || not (protocol_valid (read_be32 p 24)))))))))

-- What `learn` writes into an entry.
abbrev pub learned_entry : ArpCacheEntry → ℕ → Hardware → ℕ → ℕ → ArpCacheEntry
learned_entry e address hardware now ttl = record e {
  protocol_address = address;
  hardware_address = hardware;
  updated = now;
  expires = add32 now ttl;
  state = arp_cache_reachable;
}

module _ {W : Type 0} where
  abbrev pub entry_at : ArpContext W → ℕ → ArpCacheEntry
  entry_at arp i = get_or arp.cache i no_entry

  abbrev pub set_entry : ArpContext W → ℕ → ArpCacheEntry → ArpContext W
  set_entry arp i e = record arp { cache = set arp.cache i e }

  -- The entry of `allocate_entry`.
  abbrev pub pending_entry : ArpContext W → ℕ → ℕ → ArpCacheEntry
  pending_entry arp address now = record {
    protocol_address = address;
    hardware_address = no_hardware;
    updated = now;
    expires = add32 now arp.cache_ttl;
    last_request = sub32 now arp.request_interval;
    state = arp_cache_pending;
  }

  pub allocate_entry : ArpContext W → ℕ → ℕ → ArpContext W × ℕ
  allocate_entry arp address now =
      let i = victim arp.cache in (set_entry arp i (pending_entry arp address now), i)

  -- The entry for the address, an allocated one where there is none.
  pub entry_for : ArpContext W → ℕ → ℕ → ArpContext W × ℕ
  entry_for arp address now = elim (find_entry arp.cache address) [
    | some i ↦ (arp, i)
    | none ↦ allocate_entry arp address now
  ]

  -- `arp_init`, with the callback unset. `none` is the result -1.
  pub arp_init : W → Hardware → ℕ → ℕ → ℕ → Option (ArpContext W)
  arp_init world port local_address cache_ttl request_interval =
      if not (protocol_valid local_address)
        || (cache_ttl == 0
            || (ltb (2 ^ 31 - 1) cache_ttl
                || (request_interval == 0 || ltb cache_ttl request_interval)))
      then none
      else some (record {
        port = port;
        local_address = local_address;
        cache_ttl = cache_ttl;
        request_interval = request_interval;
        now = 0;
        reply_window_start = 0;
        replies_in_window = 0;
        cache = replicate arp_cache_max no_entry;
        stats = no_stats;
        updates = false;
        world = world;
      })

  abbrev pub arp_set_update_callback : ArpContext W → ArpContext W
  arp_set_update_callback arp = record arp { updates = true }

  pub arp_set_local_address : ArpContext W → ℕ → Option (ArpContext W)
  arp_set_local_address arp address =
      if not (protocol_valid address)
      then none
      else some (record arp { local_address = address; cache = emptied arp.cache })

  -- `none` is the result -1.
  pub arp_lookup : ArpContext W → ℕ → ℕ → ArpContext W × Option Hardware
  arp_lookup arp address now =
      let later = record arp { now = now } in
      if not (protocol_valid address) then (arp, none) else elim (find_entry arp.cache address) [
        | none ↦ (later, none)
        | some i ↦
            let e = entry_at arp i in
            if not (is_reachable e.state)
            then (later, none)
            else if not (before now e.expires)
            then (
              record later {
                cache = set arp.cache i (record e { state = arp_cache_empty });
                stats = record arp.stats { cache_expired = add64 arp.stats.cache_expired 1 };
              },
              none,
            )
            else (later, some e.hardware_address)
      ]

  pub arp_tick : ArpContext W → ℕ → ArpContext W
  arp_tick arp now =
      let (cache, n) = expire arp.cache now in
      record arp {
        now = now;
        cache = cache;
        stats = record arp.stats { cache_expired = add64 arp.stats.cache_expired n };
      }

  pub arp_cache_count : ArpContext W → (ArpState → Bool) → ℕ
  arp_cache_count arp state = count_if (λ e. state e.state) arp.cache
