-- ===== src/Net/Route/Unique.antt =====
-- Entries of src/net/route.c: what stands in an active entry, and that no route stands twice.
use mich_core.Base.{
  ℕ, ◌-◌, ◌<◌, ◌^◌, ◌≡◌, refl, sym, ◌≢◌, inl, inr, true, false, none, some, List, arith, length,
  find_index, get_or, set, find_index-some, find_index-none, find_index-set_new, get_or-set_self,
  get_or-set_ne, Option-cases, bit_and, add32, subst, set-set, get_or-replicate, get_or-outside,
  ℕ_discrete, dec_lt,
}
use mich_core.Net.Route.{
  route_init, RouteEntry, RouteTable, done, route_max, blank_entry, is_inactive, same_route,
  insert_route, route_add_generation, route_remove, netmask_prefix,
}
use mich_core.Net.Route.Cases.{new_entry, route_add_cases, route_remove_cases}

-- An active entry has an interface, a network without host bits, and the prefix of its mask.
abbrev pub IsSound : RouteEntry → Type 0
IsSound e =
    e.active ≡ true
    → (e.interface_id ≢ 0)
      × (e.network ≡ bit_and e.network e.netmask)
      × (netmask_prefix e.netmask ≡ some e.prefix_length)

abbrev pub SameRoute : RouteEntry → RouteEntry → Type 0
SameRoute e f =
    (e.active ≡ true)
    × (f.active ≡ true)
    × (e.network ≡ f.network)
    × (e.netmask ≡ f.netmask)
    × (e.interface_id ≡ f.interface_id)

abbrev pub entry : List RouteEntry → ℕ → RouteEntry
entry es i = get_or es i blank_entry

abbrev IsUnique : List RouteEntry → Type 0
IsUnique es = (i j : ℕ) → SameRoute (entry es i) (entry es j) → i ≡ j

-- Every active entry is sound, and no network, mask and interface stands in two active entries.
pub record IsValid (t : RouteTable) : Type 0 where
  pub sound : (i : ℕ) → IsSound (entry t.entries i)
  pub unique : IsUnique t.entries

pub route_init-IsValid : IsValid route_init
unfolding route_init
route_init-IsValid = record {
  sound = λ i. rw (get_or-replicate route_max i blank_entry) (λ z. absurd (ground arith));
  unique = λ i j. rw (get_or-replicate route_max i blank_entry) (λ s. absurd (ground arith));
}

IsSound-set :
    (es : List RouteEntry) (i : ℕ) (e : RouteEntry)
    → ((k : ℕ) → IsSound (entry es k))
    → IsSound e
    → i < length es
    → (k : ℕ) → IsSound (entry (set es i e) k)
IsSound-set es i e h s b k = elim (ℕ_discrete i k) [
  | yes q ↦ rw (← q, get_or-set_self es i e blank_entry b) s
  | no q ↦ rw (get_or-set_ne es e blank_entry q) (h k)
]

IsUnique-set :
    (es : List RouteEntry) (i : ℕ) (e : RouteEntry)
    → IsUnique es
    → i < length es
    → ((k : ℕ) → k ≢ i → ¬ SameRoute e (entry es k))
    → IsUnique (set es i e)
IsUnique-set es i e u b fresh j k = elim (ℕ_discrete i j) [
  | yes q ↦ elim (ℕ_discrete i k) [
    | yes r ↦ (λ _. omega arith)
    | no r ↦
        rw (← q, get_or-set_self es i e blank_entry b, get_or-set_ne es e blank_entry r)
          (λ s. absurd (fresh k (λ z. r (sym z)) s))
  ]
  | no q ↦ elim (ℕ_discrete i k) [
    | yes r ↦
        rw (← r, get_or-set_self es i e blank_entry b, get_or-set_ne es e blank_entry q)
          (λ s. absurd (fresh j (λ z. q (sym z)) (s.1, s.0, sym s.2, sym s.3, sym s.4)))
    | no r ↦ rw (get_or-set_ne es e blank_entry q, get_or-set_ne es e blank_entry r) (u j k)
  ]
]

-- An entry that the duplicate test did not find is in no active slot.
no_duplicate :
    (es : List RouteEntry) (n m i : ℕ) (e : RouteEntry)
    → e.network ≡ n
    → e.netmask ≡ m
    → e.interface_id ≡ i
    → find_index (same_route n m i) es ≡ none
    → (k : ℕ) → ¬ SameRoute e (entry es k)
no_duplicate es n m i e en em ei f k s = elim (dec_lt k (length es)) [
  | yes h ↦ absurd (ground (arith, find_index-none (same_route n m i) es blank_entry k f h))
  | no h ↦ absurd (ground (arith, get_or-outside es k blank_entry))
]

insert-IsValid :
    {t : RouteTable} (e : RouteEntry)
    → IsValid t
    → IsSound e
    → find_index (same_route e.network e.netmask e.interface_id) t.entries ≡ none
    → IsValid (insert_route t e).0
unfolding insert_route
insert-IsValid {t} e v s f = elim (Option-cases (find_index is_inactive t.entries)) [
  | inl n ↦ rw (n, insert_route) v
  | inr (i, q) ↦
      let b = (find_index-some is_inactive t.entries blank_entry {i = i} q).0 in
      rw (q, insert_route)
        (record {
          sound = IsSound-set t.entries i e v.sound s b;
          unique = IsUnique-set t.entries i e v.unique b (λ k _.
              no_duplicate t.entries e.network e.netmask e.interface_id e refl refl refl f k);
        })
]

-- `route_add_generation` keeps every active entry sound and every route unique.
pub route_add_generation-IsValid :
    {t : RouteTable} (network netmask gateway interface_id interface_generation metric : ℕ)
    → IsValid t
    → IsValid
        (route_add_generation t network netmask gateway interface_id interface_generation metric).0
route_add_generation-IsValid {t} n m g i ig me v =
    route_add_cases (λ r. IsValid r.0) t n m g i ig me v
      λ prefix p ne net f. insert-IsValid (new_entry n m g i ig me prefix) v (λ _. (ne, net, p)) f

-- `route_remove` does so too.
pub route_remove-IsValid :
    {t : RouteTable} (network netmask interface_id : ℕ)
    → IsValid t
    → IsValid (route_remove t network netmask interface_id).0
route_remove-IsValid {t} n m i v =
    route_remove_cases (λ r. IsValid r.0) t n m i v
      λ j _ f.
        let b = (find_index-some (same_route n m i) t.entries blank_entry {i = j} f).0 in
        record {
          sound = IsSound-set t.entries j blank_entry v.sound (λ z. absurd (ground arith)) b;
          unique = IsUnique-set t.entries j blank_entry v.unique b (λ k _ s. absurd (ground arith));
        }

found_again :
    (es : List RouteEntry) (e : RouteEntry) (j : ℕ)
    → e.active ≡ true
    → find_index (same_route e.network e.netmask e.interface_id) es ≡ none
    → find_index is_inactive es ≡ some j
    → find_index (same_route e.network e.netmask e.interface_id) (set es j e) ≡ some j
found_again es e j a f q =
    find_index-set_new (same_route e.network e.netmask e.interface_id) es blank_entry e j f
      (find_index-some is_inactive es blank_entry {i = j} q).0 (ground arith)

abbrev Undone : RouteTable → ℕ → ℕ → ℕ → RouteTable → Type 0
Undone t network netmask interface_id u =
    (j : ℕ) × ((entry t.entries j).active ≡ false)
    × (route_remove u network netmask interface_id
        ≡ (record { entries = set t.entries j blank_entry; count = t.count }, done))

removed :
    (u : RouteTable) (n m i j c : ℕ) {es : List RouteEntry}
    → i ≢ 0
    → find_index (same_route n m i) u.entries ≡ some j
    → u.count - 1 ≡ c
    → set u.entries j blank_entry ≡ es
    → route_remove u n m i ≡ (record { entries = es; count = c }, done)
unfolding route_remove
removed u n m i j c ne f e s = ground arith

insert-Undone :
    (t u : RouteTable) (e : RouteEntry)
    → t.count < 2 ^ 32 - 1
    → e.active ≡ true
    → e.interface_id ≢ 0
    → find_index (same_route e.network e.netmask e.interface_id) t.entries ≡ none
    → insert_route t e ≡ (u, done)
    → Undone t e.network e.netmask e.interface_id u
unfolding insert_route
insert-Undone t u e c a ne f r = elim (Option-cases (find_index is_inactive t.entries)) [
  | inl n ↦ absurd (ground arith)
  | inr (j, q) ↦
      let filled : RouteTable = record { entries = set t.entries j e; count = add32 t.count 1 } in
      let is_u : filled ≡ u = ground arith in
      let again = found_again t.entries e j a f q in
      let idle = (find_index-some is_inactive t.entries blank_entry {i = j} q).1 in
      subst (Undone t e.network e.netmask e.interface_id) is_u (
        j,
        ground arith,
        removed filled e.network e.netmask e.interface_id j t.count ne again (omega arith)
            (set-set t.entries j e blank_entry),
      )
]

-- A route just added is the one that `route_remove` takes out: the counter is as before, and so is
-- each slot but the inactive one that was filled, which is blank.
pub route_remove-route_add_generation :
    (t u : RouteTable) (network netmask gateway interface_id interface_generation metric : ℕ)
    → t.count < 2 ^ 32 - 1
    → route_add_generation t network netmask gateway interface_id interface_generation metric
      ≡ (u, done)
    → (j : ℕ) × ((entry t.entries j).active ≡ false)
      × (route_remove u network netmask interface_id
          ≡ (record { entries = set t.entries j blank_entry; count = t.count }, done))
route_remove-route_add_generation t u n m g i ig me c =
    route_add_cases (λ r. r ≡ (u, done) → Undone t n m i u) t n m g i ig me
      (λ z. absurd (ground arith))
      λ prefix p ne net f e. insert-Undone t u (new_entry n m g i ig me prefix) c refl ne f e
