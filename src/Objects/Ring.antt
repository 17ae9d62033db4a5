-- ===== src/Objects/Ring.antt =====
-- src/objects/ring.c, ring.h and ring_abi.h: descriptor rings shared with user space. A ring is a
-- record and the table of rings a list; `header` is what `sync_header` last wrote into the first
-- backing page. The page resources of src/objects/resource.c enter as the record `PageResources`.
-- The int results 0 and -1 are true and false.
pub mod Counters
mod Tests
pub mod Create
pub mod Layout
use mich_core.Base.{
  ℕ, zero, suc, ◌+◌, ◌-◌, ◌*◌, ◌/◌, ◌%◌, ◌^◌, ◌≤◌, Bool, true, false, not, ◌&&◌, ◌||◌, Option, none,
  some, List, [], ◌∷◌, ltb, leb, ◌==◌, if◌then◌else◌, add32, add64, sub64, u64_mod, bit_and, get_or,
  set, take, find_index, count_if, replicate,
}
use mich_core.Objects.Object.{Kernel, object_at, object_create}

pub record RingSharedHeader : Type 0 where
  pub producer : ℕ
  pub consumer : ℕ
  pub generation : ℕ
  pub capacity : ℕ
  pub descriptor_size : ℕ
  pub flags : ℕ
  pub data_offset : ℕ

pub record RingResource : Type 0 where
  pub backing : Option ℕ
  pub producer : ℕ
  pub consumer : ℕ
  pub generation : ℕ
  pub capacity : ℕ
  pub descriptor_size : ℕ
  pub data_offset : ℕ
  pub pages : ℕ
  pub revoked : Bool
  pub active : Bool
  pub phys : List ℕ
  pub header : RingSharedHeader

abbrev pub ring_max : ℕ
ring_max = 16

abbrev pub ring_capacity_max : ℕ
ring_capacity_max = 128

abbrev pub ring_descriptor_min : ℕ
ring_descriptor_min = 16

abbrev pub ring_descriptor_max : ℕ
ring_descriptor_max = 256

abbrev pub ring_shared_header_size : ℕ
ring_shared_header_size = 64

abbrev pub resource_page_pages_max : ℕ
resource_page_pages_max = 64

abbrev pub kobject_ring : ℕ
kobject_ring = 13

abbrev pub published : RingResource → RingSharedHeader
published r = record {
  producer = r.producer;
  consumer = r.consumer;
  generation = r.generation;
  capacity = r.capacity;
  descriptor_size = r.descriptor_size;
  flags = if r.revoked then 1 else 0;
  data_offset = r.data_offset;
}

-- Nothing is written while the first backing page has no address.
pub sync_header : RingResource → RingResource
sync_header r = if get_or r.phys 0 0 == 0 then r else record r { header = published r }

-- The counters would wrap past 2 ^ 64 - 1: they start again at 0 if the ring is empty.
pub rebase_if_empty : RingResource → ℕ → RingResource × Bool
rebase_if_empty r count =
    if leb r.producer (u64_mod - 1 - count)
    then (r, true)
    else if not (r.producer == r.consumer)
    then (r, false)
    else (record r { producer = 0; consumer = 0 }, true)

pub submit : RingResource → ℕ → RingResource × Bool
submit r count =
    if r.revoked || (count == 0 || ltb r.capacity count)
    then (r, false)
    else let occupied = sub64 r.producer r.consumer in
      if ltb r.capacity occupied || ltb (r.capacity - occupied) count
      then (sync_header r, false)
      else let (r', fits) = rebase_if_empty r count in
        if not fits
        then (sync_header r', false)
        else (sync_header (record r' { producer = add64 r'.producer count }), true)

pub consume : RingResource → ℕ → RingResource × Bool
consume r count =
    if r.revoked || count == 0
    then (r, false)
    else let available = sub64 r.producer r.consumer in
      if ltb r.capacity available || ltb available count
      then (sync_header r, false)
      else (sync_header (record r { consumer = add64 r.consumer count }), true)

-- The address of the descriptor at a position, where `none` is a null pointer.
pub ring_resource_descriptor_res : RingResource → ℕ → Option ℕ
ring_resource_descriptor_res r position =
    if r.revoked
    then none
    else let slot = bit_and position (r.capacity - 1) in
      let byte = r.data_offset + slot * r.descriptor_size in
      let page = byte / 4096 in
      let offset = bit_and byte 0xfff in
      if leb r.pages page || ltb (4096 - offset) r.descriptor_size
      then none
      else let physical = get_or r.phys page 0 in
        if physical == 0 then none else some (physical + offset)

-- The shape that `ring_resource_create` accepts, as the data offset and the number of pages.
abbrev pub bad_shape : ℕ → ℕ → Bool
bad_shape capacity descriptor_size =
    ltb capacity 2
    || (ltb ring_capacity_max capacity
        || (not (bit_and capacity (capacity - 1) == 0)
            || (ltb descriptor_size ring_descriptor_min
                || (ltb ring_descriptor_max descriptor_size
                    || not (bit_and descriptor_size (descriptor_size - 1) == 0)))))

pub ring_shape : ℕ → ℕ → Option (ℕ × ℕ)
ring_shape capacity descriptor_size =
    if bad_shape capacity descriptor_size
    then none
    else let data_offset =
        if ltb ring_shared_header_size descriptor_size
        then descriptor_size
        else ring_shared_header_size in
      let bytes = data_offset + capacity * descriptor_size in
      let pages = (bytes + 4095) / 4096 in
      if pages == 0 || ltb resource_page_pages_max pages then none else some (data_offset, pages)

abbrev pub no_header : RingSharedHeader
no_header = record {
  producer = 0;
  consumer = 0;
  generation = 0;
  capacity = 0;
  descriptor_size = 0;
  flags = 0;
  data_offset = 0;
}

abbrev pub blank_ring : RingResource
blank_ring = record {
  backing = none;
  producer = 0;
  consumer = 0;
  generation = 0;
  capacity = 0;
  descriptor_size = 0;
  data_offset = 0;
  pages = 0;
  revoked = false;
  active = false;
  phys = [];
  header = no_header;
}

pub record Rings : Type 0 where
  pub kernel : Kernel
  pub rings : List RingResource

pub ring_init : Rings → Rings
ring_init s = record s { rings = replicate ring_max blank_ring }

-- The functions of src/objects/resource.c that the rings call: the pages of a backing object with
-- their addresses and whether they are revoked, a new backing, and its revocation and release.
pub record PageResources : Type 0 where
  pub page_resource_get : Kernel → ℕ → Option (List ℕ × Bool)
  pub shared_memory_resource_create : Kernel → ℕ → Kernel × Option ℕ
  pub page_resource_revoke : Kernel → ℕ → Kernel × Bool
  pub release : Kernel → ℕ → Kernel
  pub ring_destroy_callback : ℕ

abbrev pub is_idle : RingResource → Bool
is_idle r = not r.active

-- The index of the ring that an object stands for.
pub ring_resource_get : Rings → ℕ → Option ℕ
ring_resource_get s o =
    let v = object_at s.kernel o in
    if not v.active || (not (v.type == kobject_ring) || (v.value == 0 || ltb ring_max v.value))
    then none
    else if (get_or s.rings (v.value - 1) blank_ring).active
    then some (v.value - 1)
    else none

abbrev pub ring_at : Rings → ℕ → RingResource
ring_at s i = get_or s.rings i blank_ring

abbrev pub set_ring : Rings → ℕ → RingResource → Rings
set_ring s i r = record s { rings = set s.rings i r }

-- The object of the backing pages, where `none` is a null pointer.
ring_resource_backing : Rings → ℕ → Option ℕ
ring_resource_backing s o = elim (ring_resource_get s o) [
  | none ↦ none
  | some i ↦ let r = ring_at s i in if r.revoked then none else r.backing
]

ring_resource_descriptor : Rings → ℕ → ℕ → Option ℕ
ring_resource_descriptor s o position = elim (ring_resource_get s o) [
  | none ↦ none
  | some i ↦ ring_resource_descriptor_res (ring_at s i) position
]

pub ring_resource_submit : Rings → ℕ → ℕ → Rings × Bool
ring_resource_submit s o count = elim (ring_resource_get s o) [
  | none ↦ (s, false)
  | some i ↦ let (r, done) = submit (ring_at s i) count in (set_ring s i r, done)
]

pub ring_resource_consume : Rings → ℕ → ℕ → Rings × Bool
ring_resource_consume s o count = elim (ring_resource_get s o) [
  | none ↦ (s, false)
  | some i ↦ let (r, done) = consume (ring_at s i) count in (set_ring s i r, done)
]

abbrev pub is_live : RingResource → Bool
is_live r = r.active

pub ring_active_count : Rings → ℕ
ring_active_count s = count_if is_live s.rings

-- `++generation` on 32 bits, and 1 in place of 0.
abbrev pub next_generation : ℕ → ℕ
next_generation g = if add32 g 1 == 0 then 1 else add32 g 1

pub revoked_ring : RingResource → RingResource
revoked_ring r = sync_header (record r {
  revoked = true;
  generation = next_generation r.generation;
  producer = 0;
  consumer = 0;
})

module _ (p : PageResources) where
  open p use {
    page_resource_get, shared_memory_resource_create, page_resource_revoke, release,
    ring_destroy_callback,
  }

  abbrev revoke_backing : Kernel → Option ℕ → Kernel × Bool
  revoke_backing k none = (k, false)
  revoke_backing k (some b) = elim (page_resource_get k b) [
    | none ↦ (k, false)
    | some (addresses, gone) ↦ if gone then (k, true) else page_resource_revoke k b
  ]

  pub revoke_ring : Rings → ℕ → Rings × Bool
  revoke_ring s i =
      let r = ring_at s i in
      if not r.active || r.revoked
      then (s, false)
      else let (k, done) = revoke_backing s.kernel r.backing in
        (record { kernel = k; rings = set s.rings i (revoked_ring r) }, done)

  pub ring_resource_revoke : Rings → ℕ → Rings × Bool
  ring_resource_revoke s o = elim (ring_resource_get s o) [
    | none ↦ (s, false)
    | some i ↦ revoke_ring s i
  ]

  abbrev release_backing : Kernel → Option ℕ → Kernel
  release_backing k none = k
  release_backing k (some b) = release k b

  -- The destroy callback: `value` is that of the object that goes.
  pub ring_destroy : Rings → ℕ → Rings
  ring_destroy s value =
      if value == 0 || ltb ring_max value
      then s
      else let i = value - 1 in
        if not (ring_at s i).active
        then s
        else let s' = if (ring_at s i).revoked then s else (revoke_ring s i).0 in
          let r = ring_at s' i in
          record {
            kernel = release_backing s'.kernel r.backing;
            rings = set s'.rings i (record blank_ring { phys = r.phys; header = r.header });
          }

  abbrev page_addresses : Kernel → ℕ → ℕ → List ℕ
  page_addresses k b pages = elim (page_resource_get k b) [
    | none ↦ replicate pages 0
    | some (addresses, gone) ↦ take pages addresses
  ]

  abbrev fresh_ring : RingResource → ℕ → ℕ → ℕ → ℕ × ℕ → List ℕ → RingResource
  fresh_ring old b capacity descriptor_size (data_offset, pages) phys = record {
    backing = some b;
    producer = 0;
    consumer = 0;
    generation = 1;
    capacity = capacity;
    descriptor_size = descriptor_size;
    data_offset = data_offset;
    pages = pages;
    revoked = false;
    active = true;
    phys = phys;
    header = old.header;
  }

  -- The ring of slot `i` once its backing object `b` is there.
  pub install : Rings → ℕ → ℕ → RingResource → Rings × Option ℕ
  install s i b r =
      let (k, made) = object_create s.kernel kobject_ring (i + 1) (some ring_destroy_callback) in
      elim made [
        | none ↦ (
          record {
            kernel = release k b;
            rings = set s.rings i (record r { backing = none; active = false });
          },
          none,
        )
        | some o ↦ (record { kernel = k; rings = set s.rings i (sync_header r) }, some o)
      ]

  pub ring_resource_create : Rings → ℕ → ℕ → Rings × Option ℕ
  unfolding install
  ring_resource_create s capacity descriptor_size = elim (ring_shape capacity descriptor_size) [
    | none ↦ (s, none)
    | some shape ↦ elim (find_index is_idle s.rings) [
      | none ↦ (s, none)
      | some i ↦
          let (k, backing) = shared_memory_resource_create s.kernel shape.1 in
          elim backing [
            | none ↦ (record s { kernel = k }, none)
            | some b ↦
                install (record s { kernel = k }) i b
                  (fresh_ring (ring_at s i) b capacity descriptor_size shape
                    (page_addresses k b shape.1))
          ]
    ]
  ]
