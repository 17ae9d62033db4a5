-- ===== src/Net/Route/Cases.antt =====
-- The branches of `route_add_generation` and `route_remove` of src/net/route.c as one rule each.
use mich_core.Base.{
  ℕ, ◌≡◌, ◌≢◌, inl, inr, true, not, ◌||◌, none, some, arith, find_index, set, ◌-◌, bit_and,
  Bool-cases, Option-cases, ◌==◌,
}
use mich_core.Net.Route.{
  RouteEntry, RouteTable, Status, done, refused, blank_entry, same_route, insert_route,
  route_add_generation, route_remove, netmask_prefix,
}

abbrev pub new_entry : ℕ → ℕ → ℕ → ℕ → ℕ → ℕ → ℕ → RouteEntry
new_entry network netmask gateway interface_id interface_generation metric prefix = record {
  network = network;
  netmask = netmask;
  gateway = gateway;
  interface_id = interface_id;
  interface_generation = interface_generation;
  metric = metric;
  prefix_length = prefix;
  active = true;
}

pub route_add_cases {ℓ} :
    (P : RouteTable × Status → Type ℓ) (t : RouteTable) (n m g i ig me : ℕ)
    → P (t, refused)
    → ((prefix : ℕ)
        → netmask_prefix m ≡ some prefix
        → i ≢ 0
        → n ≡ bit_and n m
        → find_index (same_route n m i) t.entries ≡ none
        → P (insert_route t (new_entry n m g i ig me prefix)))
    → P (route_add_generation t n m g i ig me)
unfolding route_add_generation
route_add_cases P t n m g i ig me no_change add = elim (Option-cases (netmask_prefix m)) [
  | inl q ↦ rw (q, route_add_generation) no_change
  | inr (prefix, q) ↦
      rw (q, route_add_generation)
        (elim (Bool-cases (i == 0 || not (n == bit_and n m))) [
          | inl b ↦ rw b no_change
          | inr b ↦ rw b (elim (Option-cases (find_index (same_route n m i) t.entries)) [
            | inl e ↦ rw e (add prefix q (ground arith) (ground arith) e)
            | inr (j, e) ↦ rw e no_change
          ])
        ])
]

pub route_remove_cases {ℓ} :
    (P : RouteTable × Status → Type ℓ) (t : RouteTable) (n m i : ℕ)
    → P (t, refused)
    → ((j : ℕ)
        → i ≢ 0
        → find_index (same_route n m i) t.entries ≡ some j
        → P (record { entries = set t.entries j blank_entry; count = t.count - 1 }, done))
    → P (route_remove t n m i)
unfolding route_remove
route_remove_cases P t n m i no_change drop = elim (Bool-cases (i == 0)) [
  | inl b ↦ rw (b, route_remove) no_change
  | inr b ↦
      rw (b, route_remove)
        (elim (Option-cases (find_index (same_route n m i) t.entries)) [
          | inl e ↦ rw e no_change
          | inr (j, e) ↦ rw e (drop j (ground arith) e)
        ])
]
