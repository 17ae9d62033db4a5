-- ===== src/Net/Route.antt =====
-- src/net/route.c and route.h: the IPv4 routing table. `route_table.entries` is a list of
-- `route_max` entries; a function that updates `*table` returns the new table. The int results
-- 0 and -1 are `done` and `refused`. The tests for a null table have no counterpart, since a
-- table is a value here.
pub mod Netmask
pub mod Cases
pub mod Lookup
mod Tests
pub mod Deactivate
pub mod Unique
pub mod Count
use mich_core.Base.{
  ℕ, zero, suc, ◌+◌, ◌-◌, ◌*◌, ◌%◌, ◌^◌, Bool, true, false, not, ◌&&◌, ◌||◌, Option, none, some,
  List, [], ◌∷◌, ltb, leb, ◌==◌, if◌then◌else◌, u32_mod, add32, mul32, bit_and, set, replicate,
  find_index, count_if, get_or,
}

pub record RouteEntry : Type 0 where
  pub network : ℕ
  pub netmask : ℕ
  pub gateway : ℕ
  pub interface_id : ℕ
  pub interface_generation : ℕ
  pub metric : ℕ
  pub prefix_length : ℕ
  pub active : Bool

pub record RouteTable : Type 0 where
  pub entries : List RouteEntry
  pub count : ℕ

abbrev pub route_max : ℕ
route_max = 32

pub data Status : Type 0 where
  done refused : Status

-- `while (netmask & 0x80000000u) { count++; netmask <<= 1; }`. A shift drops the top bit, so the
-- mask is 0 after 32 rounds.
leading_ones : ℕ → ℕ → ℕ → ℕ
leading_ones zero netmask n = n
leading_ones (suc fuel) netmask n = elim (bit_and netmask 0x8000_0000 == 0) [
  | true ↦ n
  | false ↦ leading_ones fuel (mul32 netmask 2) (add32 n 1)
]

-- `~netmask` on 32 bits is `2 ^ 32 - 1 - netmask`.
pub netmask_prefix : ℕ → Option ℕ
netmask_prefix netmask =
    let inverse = u32_mod - 1 - netmask in
    if not (bit_and inverse (add32 inverse 1) == 0) then none else some (leading_ones 33 netmask 0)

abbrev pub blank_entry : RouteEntry
blank_entry = record {
  network = 0;
  netmask = 0;
  gateway = 0;
  interface_id = 0;
  interface_generation = 0;
  metric = 0;
  prefix_length = 0;
  active = false;
}

pub route_init : RouteTable
route_init = record { entries = replicate route_max blank_entry; count = 0 }

abbrev pub is_active : RouteEntry → Bool
is_active e = e.active

abbrev pub is_inactive : RouteEntry → Bool
is_inactive e = not e.active

-- The test of `route_add_generation` for a duplicate, and of `route_remove` for its victim.
abbrev pub same_route : ℕ → ℕ → ℕ → RouteEntry → Bool
same_route network netmask interface_id e =
    e.active && (e.network == network && (e.netmask == netmask && e.interface_id == interface_id))

pub insert_route : RouteTable → RouteEntry → RouteTable × Status
insert_route t e = elim (find_index is_inactive t.entries) [
  | none ↦ (t, refused)
  | some i ↦ (record { entries = set t.entries i e; count = add32 t.count 1 }, done)
]

pub route_add_generation : RouteTable → ℕ → ℕ → ℕ → ℕ → ℕ → ℕ → RouteTable × Status
unfolding insert_route
route_add_generation t network netmask gateway interface_id interface_generation metric =
    elim (netmask_prefix netmask) [
      | none ↦ (t, refused)
      | some prefix ↦
          if interface_id == 0 || not (network == bit_and network netmask)
          then (t, refused)
          else elim (find_index (same_route network netmask interface_id) t.entries) [
            | some i ↦ (t, refused)
            | none ↦ insert_route t (record {
              network = network;
              netmask = netmask;
              gateway = gateway;
              interface_id = interface_id;
              interface_generation = interface_generation;
              metric = metric;
              prefix_length = prefix;
              active = true;
            })
          ]
    ]

pub route_add : RouteTable → ℕ → ℕ → ℕ → ℕ → ℕ → RouteTable × Status
route_add t network netmask gateway interface_id metric =
    route_add_generation t network netmask gateway interface_id 0 metric

-- `if (table->count) table->count--`: subtraction on ℕ stops at 0 as well.
pub route_remove : RouteTable → ℕ → ℕ → ℕ → RouteTable × Status
route_remove t network netmask interface_id =
    if interface_id == 0
    then (t, refused)
    else elim (find_index (same_route network netmask interface_id) t.entries) [
      | none ↦ (t, refused)
      | some i ↦ (record { entries = set t.entries i blank_entry; count = t.count - 1 }, done)
    ]

abbrev pub covers : ℕ → RouteEntry → Bool
covers destination e = e.active && bit_and destination e.netmask == e.network

-- The test by which an entry displaces the best one so far.
abbrev pub displaces : RouteEntry → RouteEntry → Bool
displaces e best =
    ltb best.prefix_length e.prefix_length
    || (e.prefix_length == best.prefix_length && ltb e.metric best.metric)

abbrev pub choose : Option RouteEntry → RouteEntry → RouteEntry
choose none e = e
choose (some best) e = if displaces e best then e else best

scan : ℕ → Option RouteEntry → List RouteEntry → Option RouteEntry
scan destination best [] = best
scan destination best (e ∷ es) =
    scan destination (if covers destination e then some (choose best e) else best) es

pub route_lookup : RouteTable → ℕ → Option RouteEntry
unfolding scan
route_lookup t destination = scan destination none t.entries

-- The guard of `route_deactivate_interface`: generation 0 stands for every generation.
abbrev pub on_interface : ℕ → ℕ → RouteEntry → Bool
on_interface interface_id generation e =
    e.active
    && (e.interface_id == interface_id && (generation == 0 || e.interface_generation == generation))

sweep : ℕ → ℕ → List RouteEntry → ℕ → ℕ → List RouteEntry × ℕ × ℕ
sweep interface_id generation [] count removed = ([], count, removed)
sweep interface_id generation (e ∷ es) count removed =
    let hit = on_interface interface_id generation e in
    let (rest, count', removed') =
      sweep interface_id generation es (if hit then count - 1 else count)
        (if hit then add32 removed 1 else removed) in
    ((if hit then record e { active = false } else e) ∷ rest, count', removed')

pub route_deactivate_interface : RouteTable → ℕ → ℕ → RouteTable × ℕ
unfolding sweep
route_deactivate_interface t interface_id generation =
    if interface_id == 0
    then (t, 0)
    else let (es, count, removed) = sweep interface_id generation t.entries t.count 0 in
      (record { entries = es; count = count }, removed)

pub route_count : RouteTable → ℕ
route_count t = t.count

pub route_available : RouteTable → ℕ
route_available t = count_if is_inactive t.entries
