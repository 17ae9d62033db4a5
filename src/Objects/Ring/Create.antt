-- ===== src/Objects/Ring/Create.antt =====
-- `ring_resource_create` and `ring_resource_submit` of src/objects/ring.c on the table of rings.
use mich_core.Base.{
  ℕ, ◌+◌, ◌≤◌, ◌≡◌, ap, ◌∙◌, true, false, some, arith, get_or, set, find_index, find_index-some,
  get_or-set_self, Option-cases, inl, inr,
}
use mich_core.Objects.Object.{object_create}
use mich_core.Objects.Ring.{
  RingResource, Rings, PageResources, blank_ring, ring_at, is_idle, ring_shape, install, fresh_ring,
  page_addresses, sync_header, ring_resource_create, kobject_ring,
}
use mich_core.Objects.Ring.Counters.{IsOrdered, length_of}

-- A ring that `ring_resource_create` has made: its slot was idle, it is live and empty with the
-- sizes that were asked for and the layout that goes with them, and its counters are in order.
abbrev pub Created : Rings → ℕ → ℕ → Rings → Type 0
Created s capacity descriptor_size s' =
    (i : ℕ) × (find_index is_idle s.rings ≡ some i)
    × ((ring_at s' i).active ≡ true)
    × ((ring_at s' i).revoked ≡ false)
    × ((ring_at s' i).capacity ≡ capacity)
    × ((ring_at s' i).descriptor_size ≡ descriptor_size)
    × (ring_shape capacity descriptor_size
        ≡ some ((ring_at s' i).data_offset, (ring_at s' i).pages))
    × IsOrdered (ring_at s' i)
    × (length_of (ring_at s' i) ≡ 0)

sync_header_same :
    (r : RingResource)
    → ((sync_header r).active ≡ r.active)
      × ((sync_header r).revoked ≡ r.revoked)
      × ((sync_header r).capacity ≡ r.capacity)
      × ((sync_header r).descriptor_size ≡ r.descriptor_size)
      × ((sync_header r).data_offset ≡ r.data_offset)
      × ((sync_header r).pages ≡ r.pages)
      × ((sync_header r).producer ≡ r.producer)
      × ((sync_header r).consumer ≡ r.consumer)
unfolding sync_header
sync_header_same r = ground arith

install-some :
    (p : PageResources) (s : Rings) (i b : ℕ) (r : RingResource) {s' : Rings} {o : ℕ}
    → install p s i b r ≡ (s', some o)
    → s'.rings ≡ set s.rings i (sync_header r)
unfolding install
install-some p s i b r e =
    elim (Option-cases
      (object_create s.kernel kobject_ring (i + 1) (some p.ring_destroy_callback)).1) [
        | inl n ↦ absurd (ground arith)
        | inr (o', n) ↦ ground arith
      ]

capacity-le : (c d : ℕ) {off pages : ℕ} → ring_shape c d ≡ some (off, pages) → c ≤ 128
unfolding ring_shape
capacity-le c d e = ground arith

-- Where `ring_resource_create` returns an object, it has made such a ring.
pub ring_resource_create-Created :
    (p : PageResources) (s : Rings) (capacity descriptor_size : ℕ) {s' : Rings} {o : ℕ}
    → ring_resource_create p s capacity descriptor_size ≡ (s', some o)
    → Created s capacity descriptor_size s'
unfolding ring_resource_create
ring_resource_create-Created p s c d {s'} {o} e = elim (Option-cases (ring_shape c d)) [
  | inl q ↦ absurd (ground arith)
  | inr ((off, pages), q) ↦ elim (Option-cases (find_index is_idle s.rings)) [
    | inl f ↦ absurd (ground arith)
    | inr (i, f) ↦ elim (Option-cases (p.shared_memory_resource_create s.kernel pages).1) [
      | inl n ↦ absurd (ground arith)
      | inr (b, n) ↦
          let k = (p.shared_memory_resource_create s.kernel pages).0 in
          let r = fresh_ring p (ring_at s i) b c d (off, pages) (page_addresses p k b pages) in
          let made : install p (record s { kernel = k }) i b r ≡ (s', some o) = ground arith in
          let lt = (find_index-some is_idle s.rings blank_ring {i = i} f).0 in
          let here : ring_at s' i ≡ sync_header r =
            ap (λ rs. get_or rs i blank_ring) (install-some p (record s { kernel = k }) i b r made)
            ∙ get_or-set_self s.rings i (sync_header r) blank_ring lt in
          let same = sync_header_same r in
          let small = capacity-le c d q in
          (
            i,
            f,
            ground arith,
            ground arith,
            ground arith,
            ground arith,
            ground arith,
            ground arith,
            ground arith,
          )
    ]
  ]
]
