-- ===== src/Net/Route/Tests.antt =====
-- Runs of src/net/route.c on small tables, and the theorems at concrete inputs.
use mich_core.Base.{
  ℕ, ◌≤◌, ◌≡◌, refl, ◌↔◌, true, false, none, some, [], ◌∷◌, arith, Elem, find_index, set,
}
use mich_core.Net.Route.{
  RouteEntry, RouteTable, done, refused, blank_entry, covers, route_init, route_add_generation,
  route_add, route_remove, route_lookup, netmask_prefix, leading_ones, insert_route,
}
use mich_core.Net.Route.Netmask.{mask_of, netmask_prefix_iff}
use mich_core.Net.Route.Lookup.{Optimal, route_lookup-Optimal}
use mich_core.Net.Route.Count.{IsCounted, route_init-IsCounted, route_add_generation-IsCounted}
use mich_core.Net.Route.Unique.{
  IsValid, entry, route_init-IsValid, route_add_generation-IsValid,
  route_remove-route_add_generation,
}

-- 10.0.0.0/8 by interface 1, and 10.1.0.0/16 by interface 2.
abbrev wide : RouteEntry
wide = record {
  network = 0x0a00_0000;
  netmask = 0xff00_0000;
  gateway = 7;
  interface_id = 1;
  interface_generation = 3;
  metric = 5;
  prefix_length = 8;
  active = true;
}

abbrev narrow : RouteEntry
narrow = record {
  network = 0x0a01_0000;
  netmask = 0xffff_0000;
  gateway = 0;
  interface_id = 2;
  interface_generation = 0;
  metric = 9;
  prefix_length = 16;
  active = true;
}

abbrev small : RouteTable
small = record { entries = blank_entry ∷ wide ∷ narrow ∷ []; count = 2 }

lookup_small :
    (route_lookup small 0x0a01_0203 ≡ some narrow)
    × (route_lookup small 0x0a02_0203 ≡ some wide)
    × (route_lookup small 0x0b00_0001 ≡ none)
unfolding route_lookup
lookup_small = (refl, refl, refl)

prefixes :
    (netmask_prefix 0xffff_ff00 ≡ some 24)
    × (netmask_prefix 0 ≡ some 0)
    × (netmask_prefix 0xff00_ff00 ≡ none)
unfolding netmask_prefix leading_ones
prefixes = (refl, refl, refl)

abbrev one_route : RouteTable
one_route = (route_add_generation route_init 0x0a00_0000 0xff00_0000 7 1 3 5).0

add_host_bits : (route_add route_init 0x0a00_0001 0xff00_0000 7 1 5).1 ≡ refused
unfolding route_add route_add_generation netmask_prefix leading_ones
add_host_bits = refl

added : route_add_generation small 0x0a02_0000 0xffff_0000 0 2 0 1 ≡ (
  record {
    entries = record narrow { network = 0x0a02_0000; metric = 1 } ∷ wide ∷ narrow ∷ [];
    count = 3;
  },
  done,
)
unfolding route_add_generation netmask_prefix leading_ones insert_route find_index
added = refl

netmask_prefix_iff_example :
    (netmask_prefix 0xffff_0000 ≡ some 16) ↔ ((16 ≤ 32) × (0xffff_0000 ≡ mask_of 16))
netmask_prefix_iff_example = netmask_prefix_iff 0xffff_0000 16 (omega arith)

route_lookup-Optimal_example :
    Elem narrow small.entries
    × (covers 0x0a01_0203 narrow ≡ true)
    × Optimal 0x0a01_0203 small.entries narrow
route_lookup-Optimal_example = route_lookup-Optimal small 0x0a01_0203 (lookup_small.0)

one_route-IsCounted : IsCounted one_route
one_route-IsCounted =
    route_add_generation-IsCounted 0x0a00_0000 0xff00_0000 7 1 3 5 route_init-IsCounted

one_route-IsValid : IsValid one_route
one_route-IsValid = route_add_generation-IsValid 0x0a00_0000 0xff00_0000 7 1 3 5 route_init-IsValid

abbrev after_add : RouteTable
after_add = record {
  entries = record narrow { network = 0x0a02_0000; metric = 1 } ∷ wide ∷ narrow ∷ [];
  count = 3;
}

route_remove-route_add_generation_example :
    (j : ℕ) × ((entry small.entries j).active ≡ false)
    × (route_remove after_add 0x0a02_0000 0xffff_0000 2
        ≡ (record { entries = set small.entries j blank_entry; count = 2 }, done))
route_remove-route_add_generation_example =
    route_remove-route_add_generation small after_add 0x0a02_0000 0xffff_0000 0 2 0 1 (omega arith)
      added
