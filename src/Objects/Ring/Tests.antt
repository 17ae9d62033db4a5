-- ===== src/Objects/Ring/Tests.antt =====
-- Runs of src/objects/ring.c, and the theorems at concrete inputs.
use mich_core.Base.{
  ℕ, zero, suc, ◌+◌, ◌-◌, ◌/◌, ◌%◌, ◌<◌, ◌≤◌, ◌^◌, ◌≡◌, ◌≢◌, refl, true, false, some, none, [], ◌∷◌,
  arith, get_or, replicate, find_index,
}
use mich_core.Objects.Object.{blank_object, object_create}
use mich_core.Objects.Ring.{
  RingResource, Rings, PageResources, blank_ring, submit, ring_shape, ring_resource_descriptor_res,
  ring_resource_create, sync_header, rebase_if_empty, install,
}
use mich_core.Objects.Ring.Counters.{IsOrdered}
use mich_core.Objects.Ring.Layout.{IsShaped, ring_resource_descriptor_res_lem}

-- Four descriptors of 2048 bytes are too large; 128 of 64 bytes take three pages.
shapes : (ring_shape 4 2048 ≡ none) × (ring_shape 128 64 ≡ some (64, 3)) × (ring_shape 12 64 ≡ none)
unfolding ring_shape
shapes = (refl, refl, refl)

abbrev ring : RingResource
ring = record blank_ring {
  backing = some 9;
  producer = 5;
  consumer = 3;
  generation = 1;
  capacity = 4;
  descriptor_size = 64;
  data_offset = 64;
  pages = 1;
  active = true;
  phys = 0x5000 ∷ [];
}

at_the_end : RingResource
at_the_end = record ring { producer = 2 ^ 64 - 1; consumer = 2 ^ 64 - 1 }

rebased : (submit at_the_end 2).0.producer ≡ 2
unfolding submit at_the_end rebase_if_empty sync_header
rebased = refl

descriptor_run : ring_resource_descriptor_res ring 6 ≡ some (0x5000 + 192)
unfolding ring_resource_descriptor_res
descriptor_run = refl

ring-IsOrdered : IsOrdered ring
ring-IsOrdered = omega arith

one_page : (page : ℕ) → page < 1 → get_or ring.phys page 0 ≢ 0
one_page zero h = omega arith
one_page (suc page) h = absurd (omega arith)

ring-IsShaped : IsShaped ring
unfolding ring_shape
ring-IsShaped = record { shape = refl; mapped = one_page }

ring_resource_descriptor_res_lem_example :
    (ring_resource_descriptor_res ring 6 ≡ some (get_or ring.phys (192 / 4096) 0 + 192 % 4096))
    × (192 / 4096 < 1)
    × (192 % 4096 + 64 ≤ 4096)
    × (64 ≤ 192)
ring_resource_descriptor_res_lem_example = ring_resource_descriptor_res_lem 6 ring-IsShaped refl

-- A page allocator that always has one page, at 0x9000.
abbrev one_page_each : PageResources
one_page_each = record {
  page_resource_get = λ k o. some (0x9000 ∷ [], false);
  shared_memory_resource_create = λ k pages. (k, some 1);
  page_resource_revoke = λ k o. (k, true);
  release = λ k o. k;
  ring_destroy_callback = 7;
}

abbrev empty_tables : Rings
empty_tables = record {
  kernel = record { objects = blank_object ∷ []; handles = []; tasks = [] };
  rings = replicate 16 blank_ring;
}

abbrev after_create : Rings
after_create = (ring_resource_create one_page_each empty_tables 4 64).0

create_run : ring_resource_create one_page_each empty_tables 4 64 ≡ (after_create, some 0)
unfolding ring_resource_create ring_shape find_index install object_create
create_run = refl
