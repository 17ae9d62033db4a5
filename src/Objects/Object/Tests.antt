-- ===== src/Objects/Object/Tests.antt =====
-- Runs of src/objects/object.c, and the theorems at concrete inputs.
use mich_core.Base.{
  ℕ, true, count_if, ◌<◌, ◌^◌, ◌≡◌, refl, none, some, [], ◌∷◌, arith, replicate, get_or, find_index,
  All-get_or, All-set, All-replicate, All, set,
}
use mich_core.Process.Task.{running, free, max_tasks}
use mich_core.Objects.Object.{
  HandleSlot, Kernel, blank_slot, object_at, object_active_count, slot_at, khandle_max, object_init,
  object_create, object_retain, handle_open, handle_open_locked, handle_get, handle_close,
  handle_duplicate, handle_revoke_object, task_index, handle_value, handle_slot_for, object_release,
  granted,
}
use mich_core.Objects.Object.Rights.{Within}
use mich_core.Objects.Object.Counted.{IsCounted, held, plus_one}
use mich_core.Objects.Object.Keeps.{object_init-IsCounted, object_create-IsCounted}
use mich_core.Objects.Object.Handles.{handle_open-IsCounted, handle_duplicate-IsCounted}
use mich_core.Objects.Object.Release.{object_release-IsCounted, handle_close-IsCounted, Release}
use mich_core.Objects.Object.Destroyer.{destroys, IsReleased}
use mich_core.Objects.Object.Access.{allowed, handle_get-handle_open}
use mich_core.Objects.Object.Safety.{handle_duplicate-le, handle_get-active}
use mich_core.Objects.Object.Stale.{handle_get-handle_close}
use mich_core.Objects.Object.Revoke.{handle_revoke_object-clears}
use mich_core.Objects.Object.Callbacks.{ring_callback, RingHeld, ring_callback-IsDestroyer}

-- Two running tasks.
abbrev tables : Kernel
tables = record { objects = []; handles = []; tasks = running ∷ running ∷ replicate 30 free }

abbrev no_fds : ℕ → Kernel → Kernel
no_fds o k = k

-- An event object in slot 0, with one reference of its creator.
abbrev made : Kernel
made = (object_create (object_init tables) 1 5 none).0

-- Task 0 opens it to read and to transfer, and duplicates it to task 1 to read only.
abbrev opened : Kernel
opened = (handle_open made 0 0 0x41).0

abbrev shared : Kernel
shared = (handle_duplicate opened 0 1 257 1).0

created : object_create (object_init tables) 1 5 none ≡ (made, some 0)
unfolding object_create object_init find_index
created = refl

open_run : handle_open made 0 0 0x41 ≡ (opened, 257)
unfolding handle_open object_create object_init find_index handle_open_locked object_retain
    task_index handle_value
open_run = refl

duplicate_run : handle_duplicate opened 0 1 257 1 ≡ (shared, 257)
unfolding handle_duplicate handle_open object_create object_init find_index handle_open_locked
    object_retain task_index handle_value handle_slot_for
duplicate_run = refl

read_shared : handle_get shared 1 257 1 5 ≡ none
unfolding handle_get granted handle_duplicate handle_open object_create object_init find_index
    handle_open_locked object_retain task_index handle_value handle_slot_for
read_shared = refl

get_shared : (handle_get shared 1 257 1 1 ≡ some 0) × (handle_get shared 1 257 0x40 1 ≡ none)
unfolding handle_get granted handle_duplicate handle_open object_create object_init find_index
    handle_open_locked object_retain task_index handle_value handle_slot_for
get_shared = (refl, refl)

close_run :
    handle_close ring_callback opened 0 257 ≡ ((handle_close ring_callback opened 0 257).0, true)
unfolding handle_close handle_open object_create object_init find_index handle_open_locked
    object_retain task_index handle_value handle_slot_for
close_run = refl

opened_words : (i j : ℕ) → (slot_at opened i j).rights < 2 ^ 32
unfolding handle_open object_create object_init find_index handle_open_locked object_retain
    task_index
opened_words i j =
    All-get_or IsWord (get_or opened.handles i []) j blank_slot
      (All-get_or (All IsWord) opened.handles i [] rows tt) (omega arith)
  where
    IsWord : HandleSlot → Type 0
    IsWord s = s.rights < 2 ^ 32

    blank_row : All IsWord (replicate khandle_max blank_slot)
    blank_row = All-replicate IsWord khandle_max blank_slot (omega arith)

    rows : All (All IsWord) opened.handles
    rows =
        All-set (All IsWord) (replicate max_tasks (replicate khandle_max blank_slot)) 0
          (set (replicate khandle_max blank_slot) 0
            (record blank_slot { object = some 0; rights = 0x41 }))
          (All-replicate (All IsWord) max_tasks (replicate khandle_max blank_slot) blank_row)
          (All-set IsWord (replicate khandle_max blank_slot) 0
            (record blank_slot { object = some 0; rights = 0x41 }) blank_row (omega arith))

made-IsCounted : IsCounted (plus_one (λ o. 0) 0) made
made-IsCounted = object_create-IsCounted 1 5 none (object_init-IsCounted tables) created

opened-IsCounted : IsCounted (plus_one (λ o. 0) 0) opened
opened-IsCounted = handle_open-IsCounted 0 0 0x41 made-IsCounted

handle_duplicate-IsCounted_example :
    IsCounted (plus_one (λ o. 0) 0) (handle_duplicate opened 0 1 257 1).0
handle_duplicate-IsCounted_example = handle_duplicate-IsCounted 0 1 257 1 opened-IsCounted

-- A ring with its backing: both are released with the last reference to the ring.
abbrev two : Kernel
two = (object_create made 4 9 (some 7)).0

two_created : object_create made 4 9 (some 7) ≡ (two, some 1)
unfolding object_create object_init find_index
two_created = refl

two-IsCounted : IsCounted (plus_one (plus_one (λ o. 0) 0) 1) two
two-IsCounted = object_create-IsCounted 4 9 (some 7) made-IsCounted two_created

both_gone : object_active_count (object_release ring_callback two 1) ≡ 0
unfolding object_active_count count_if object_release object_create object_init find_index
both_gone = refl

object_release-IsCounted_example :
    Release ring_callback RingHeld ring_callback-IsDestroyer
      (plus_one (λ o. 0) 0)
      two
      1
      (object_release ring_callback two 1)
object_release-IsCounted_example =
    object_release-IsCounted ring_callback RingHeld ring_callback-IsDestroyer two 1 two-IsCounted
      (λ c e. omega arith)

ring_opened-IsCounted : IsCounted (plus_one (plus_one (λ o. 0) 0) 1) (handle_open two 0 1 0x41).0
ring_opened-IsCounted = handle_open-IsCounted 0 1 0x41 two-IsCounted

opened_held : RingHeld (plus_one (λ o. 0) 0) (destroys opened)
opened_held c e = omega arith

handle_close-IsCounted_example :
    (outside' : ℕ → ℕ) × IsReleased RingHeld
      (plus_one (plus_one (λ o. 0) 0) 1)
      outside'
      (handle_close ring_callback (handle_open two 0 1 0x41).0 0 257).0
handle_close-IsCounted_example =
    handle_close-IsCounted ring_callback RingHeld ring_callback-IsDestroyer
      (handle_open two 0 1 0x41).0 0 257 ring_opened-IsCounted (λ c e. omega arith)

handle_get-handle_open_example :
    (257 < 2 ^ 32) × (handle_get opened 0 257 1 1 ≡ allowed 0 (object_at made 0).type 0x41 1 1)
handle_get-handle_open_example =
    handle_get-handle_open 0 0 0x41 257 1 1 made-IsCounted open_run (omega arith)

handle_duplicate-le_example : Within 1 1 × (handle_get opened 0 257 1 1 ≡ some 0)
handle_duplicate-le_example =
    handle_duplicate-le 0 1 257 1 257 1 1 opened-IsCounted (omega arith) (omega arith) opened_words
      duplicate_run (omega arith) get_shared.0

shared-IsCounted : IsCounted (plus_one (λ o. 0) 0) shared
shared-IsCounted = handle_duplicate-IsCounted 0 1 257 1 opened-IsCounted

shared_active : (object_at shared 0).active ≡ true
shared_active = handle_get-active 1 257 1 1 shared-IsCounted get_shared.0

handle_get-handle_close_example :
    (handle_get (handle_close ring_callback opened 0 257).0 0 257 1 1 ≡ none)
    × (handle_get (handle_open (handle_close ring_callback opened 0 257).0 0 0 1).0 0 257 1 1
        ≡ none)
handle_get-handle_close_example =
    handle_get-handle_close ring_callback RingHeld ring_callback-IsDestroyer 0 257 0 0 1 1 1
      opened-IsCounted opened_held close_run

handle_revoke_object-clears_example :
    let (k', revoked) = handle_revoke_object ring_callback no_fds shared 0 in
    (outside' : ℕ → ℕ) × IsReleased RingHeld (plus_one (λ o. 0) 0) outside' k'
    × (held k' 0 ≡ 0)
    × (revoked ≡ held shared 0)
handle_revoke_object-clears_example =
    handle_revoke_object-clears ring_callback RingHeld ring_callback-IsDestroyer no_fds shared 0
      shared_active shared-IsCounted (λ c e. omega arith)
