-- ===== src/Net/Route/Count.antt =====
-- The counter of src/net/route.c against the table: `count` is the number of active entries.
use mich_core.Base.{
  ℕ, ◌+◌, ◌-◌, ◌<◌, ◌≤◌, ◌≡◌, refl, inl, inr, Bool, true, false, some, List, [], ◌∷◌, arith, length,
  length-set, count_if, find_index, get_or, set, find_index-some, count_if-set_gain,
  count_if-set_lose, count_if-not, Bool-cases, Option-cases, ◌∙◌, add32, ◌^◌, ◌≢◌, ◌==◌,
}
use mich_core.Net.Route.Cases.{new_entry, route_add_cases, route_remove_cases}
use mich_core.Net.Route.{
  RouteEntry, RouteTable, route_max, blank_entry, is_active, is_inactive, same_route, on_interface,
  route_init, insert_route, route_add_generation, route_remove, sweep, route_deactivate_interface,
  route_available, route_count,
}

pub record IsCounted (t : RouteTable) : Type 0 where
  pub size : length t.entries ≡ route_max
  pub exact : t.count ≡ count_if is_active t.entries

-- The empty table of `route_init` counts its entries.
pub route_init-IsCounted : IsCounted route_init
unfolding route_init count_if
route_init-IsCounted = record { size = refl; exact = refl }

count-le : {t : RouteTable} → IsCounted t → t.count ≤ 32
count-le {t} v = omega (arith, v.size, v.exact, count_if-not is_active t.entries)

-- Writing an active entry over an inactive one, and the reverse.
filled-IsCounted :
    {t : RouteTable} (e : RouteEntry) (i : ℕ)
    → IsCounted t
    → e.active ≡ true
    → find_index is_inactive t.entries ≡ some i
    → IsCounted (record { entries = set t.entries i e; count = add32 t.count 1 })
filled-IsCounted {t} e i v a f =
    let (h, b) = find_index-some is_inactive t.entries blank_entry {i = i} f in
    let idle : (get_or t.entries i blank_entry).active ≡ false = ground arith in
    let gain = count_if-set_gain is_active t.entries blank_entry e i h idle a in
    record {
      size = length-set t.entries i e ∙ v.size;
      exact = omega (arith, v.exact, gain, count-le v);
    }

emptied-IsCounted :
    {t : RouteTable} (p : RouteEntry → Bool) (i : ℕ)
    → IsCounted t
    → ((e : RouteEntry) → p e ≡ true → e.active ≡ true)
    → find_index p t.entries ≡ some i
    → IsCounted (record { entries = set t.entries i blank_entry; count = t.count - 1 })
emptied-IsCounted {t} p i v only f =
    let (h, b) = find_index-some p t.entries blank_entry {i = i} f in
    let lose = count_if-set_lose is_active t.entries blank_entry blank_entry i h (only _ b) refl in
    record {
      size = length-set t.entries i blank_entry ∙ v.size;
      exact = omega (arith, v.exact, lose);
    }

insert_route-IsCounted :
    {t : RouteTable} (e : RouteEntry)
    → e.active ≡ true
    → IsCounted t
    → IsCounted (insert_route t e).0
unfolding insert_route
insert_route-IsCounted {t} e a v = elim (Option-cases (find_index is_inactive t.entries)) [
  | inl n ↦ rw (n, insert_route) v
  | inr (i, f) ↦ rw (f, insert_route) (filled-IsCounted e i v a f)
]

-- `route_add_generation` keeps the counter equal to the number of active entries, on every branch.
pub route_add_generation-IsCounted :
    {t : RouteTable} (network netmask gateway interface_id interface_generation metric : ℕ)
    → IsCounted t
    → IsCounted
        (route_add_generation t network netmask gateway interface_id interface_generation metric).0
route_add_generation-IsCounted {t} n m g i ig me v =
    route_add_cases (λ r. IsCounted r.0) t n m g i ig me v
      λ prefix _ _ _ _. insert_route-IsCounted (new_entry n m g i ig me prefix) refl v

-- `route_remove` does so too.
pub route_remove-IsCounted :
    {t : RouteTable} (network netmask interface_id : ℕ)
    → IsCounted t
    → IsCounted (route_remove t network netmask interface_id).0
route_remove-IsCounted {t} n m i v =
    route_remove_cases (λ r. IsCounted r.0) t n m i v
      λ j _ e. emptied-IsCounted (same_route n m i) j v (λ f h. ground arith) e

sweep-counts :
    (id g : ℕ) (es : List RouteEntry) (count removed : ℕ)
    → count_if is_active es ≤ count
    → removed + length es < 2 ^ 32
    → let (es', count', removed') = sweep id g es count removed in
      (length es' ≡ length es)
      × (count' + count_if (on_interface id g) es ≡ count)
      × (count_if is_active es' + count_if (on_interface id g) es ≡ count_if is_active es)
      × (removed' ≡ removed + count_if (on_interface id g) es)
unfolding sweep count_if
sweep-counts id g [] count removed h r = omega arith
sweep-counts id g (e ∷ es) count removed h r =
    ground (
      arith,
      sweep-counts id g es (count - 1) (add32 removed 1),
      sweep-counts id g es count removed,
    )

-- `route_deactivate_interface` keeps the counter exact, and lowers it by the number it returns,
-- which is the number of active entries of that interface and generation.
pub route_deactivate-IsCounted :
    {t : RouteTable} (interface_id generation : ℕ)
    → IsCounted t
    → let (t', removed) = route_deactivate_interface t interface_id generation in
      IsCounted t'
      × (route_count t' + removed ≡ route_count t)
      × (interface_id ≢ 0 → removed ≡ count_if (on_interface interface_id generation) t.entries)
unfolding route_deactivate_interface route_count
route_deactivate-IsCounted {t} i g v = elim (Bool-cases (i == 0)) [
  | inl b ↦ rw b (v, omega arith, (λ ne. absurd (ground arith)))
  | inr b ↦
      let s =
        sweep-counts i g t.entries t.count 0 (omega (arith, v.exact)) (omega (arith, v.size)) in
      rw b (
        record { size = s.0 ∙ v.size; exact = omega (arith, v.exact, s.1, s.2) },
        omega (arith, s.1, s.3),
        (λ ne. omega (arith, s.3)),
      )
]

-- The counter and `route_available` make up the size of the table.
pub route_count-add-route_available :
    {t : RouteTable} → IsCounted t → route_count t + route_available t ≡ route_max
unfolding route_count route_available
route_count-add-route_available {t} v =
    omega (arith, v.size, v.exact, count_if-not is_active t.entries)
