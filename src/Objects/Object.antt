-- ===== src/Objects/Object.antt =====
-- src/objects/object.c and object.h: kernel objects with their reference counts, and the handle
-- tables of the tasks. The two static arrays and the task states are one record, `Kernel`, which a
-- function that changes them returns. A pointer to an object or to a task is its index in the
-- pool, and an index outside the pool stands for any other pointer. `object_klock` makes every
-- section below atomic and has no counterpart.
pub mod Rights
pub mod Counted
pub mod Handles
mod Callbacks
mod Tests
pub mod Destroyer
pub mod Revoke
pub mod Stale
pub mod Safety
pub mod Access
pub mod Release
pub mod Keeps
use mich_core.Base.{
  ℕ, zero, suc, ◌+◌, ◌-◌, ◌*◌, ◌/◌, ◌%◌, ◌^◌, Bool, true, false, not, ◌&&◌, ◌||◌, Option, none,
  some, List, [], ◌∷◌, ltb, leb, ◌==◌, if◌then◌else◌, add32, u32_mod, bit_and, set, get_or,
  replicate, find_index, count_if, count_rows,
}
use mich_core.Process.Task.{TaskState, free, max_tasks, is_gone}

pub record KernelObject : Type 0 where
  pub type : ℕ
  pub references : ℕ
  pub value : ℕ
  pub destroy : Option ℕ
  pub active : Bool

pub record HandleSlot : Type 0 where
  pub object : Option ℕ
  pub rights : ℕ
  pub generation : ℕ

pub record Kernel : Type 0 where
  pub objects : List KernelObject
  pub handles : List (List HandleSlot)
  pub tasks : List TaskState

abbrev pub kobject_max : ℕ
kobject_max = 128

abbrev pub khandle_max : ℕ
khandle_max = 32

abbrev pub kobject_none : ℕ
kobject_none = 0

abbrev pub kright_transfer : ℕ
kright_transfer = 2 ^ 6

abbrev pub kright_all : ℕ
kright_all = 0x7f

-- `a & ~b` on 32 bits.
abbrev pub and_not : ℕ → ℕ → ℕ
and_not a b = bit_and a (u32_mod - 1 - b)

abbrev pub blank_object : KernelObject
blank_object = record {
  type = kobject_none;
  references = 0;
  value = 0;
  destroy = none;
  active = false;
}

abbrev pub blank_slot : HandleSlot
blank_slot = record { object = none; rights = 0; generation = 1 }

abbrev pub object_at : Kernel → ℕ → KernelObject
object_at k o = get_or k.objects o blank_object

abbrev pub set_object : Kernel → ℕ → KernelObject → Kernel
set_object k o v = record k { objects = set k.objects o v }

abbrev pub row : Kernel → ℕ → List HandleSlot
row k owner = get_or k.handles owner []

abbrev pub slot_at : Kernel → ℕ → ℕ → HandleSlot
slot_at k owner index = get_or (row k owner) index blank_slot

abbrev pub set_slot : Kernel → ℕ → ℕ → HandleSlot → Kernel
set_slot k owner index s = record k { handles = set k.handles owner (set (row k owner) index s) }

pub task_index : Kernel → ℕ → Option ℕ
task_index k task =
    if leb max_tasks task || is_gone (get_or k.tasks task free) then none else some task

-- `(generation << 8) | (index + 1)`: the low byte of the shifted word is clear.
pub handle_value : HandleSlot → ℕ → ℕ
handle_value s index = s.generation * 2 ^ 8 % u32_mod + (index + 1)

abbrev pub is_taken : HandleSlot → Bool
is_taken s = elim s.object [ none ↦ false | some o ↦ true ]

abbrev pub is_empty : HandleSlot → Bool
is_empty s = elim s.object [ none ↦ true | some o ↦ false ]

-- The slot of a handle, as its owner and its index.
pub handle_slot_for : Kernel → ℕ → ℕ → Option (ℕ × ℕ)
handle_slot_for k task handle = elim (task_index k task) [
  | none ↦ none
  | some owner ↦
      let low = handle % 2 ^ 8 in
      if low == 0 || ltb khandle_max low
      then none
      else let s = slot_at k owner (low - 1) in
        if is_empty s || not (s.generation == handle / 2 ^ 8) then none else some (owner, low - 1)
]

pub object_init : Kernel → Kernel
object_init k = record k {
  objects = replicate kobject_max blank_object;
  handles = replicate max_tasks (replicate khandle_max blank_slot);
}

abbrev pub is_idle : KernelObject → Bool
is_idle o = not o.active

unfoldable pub object_create : Kernel → ℕ → ℕ → Option ℕ → Kernel × Option ℕ
object_create k type value destroy =
    if type == kobject_none then (k, none) else elim (find_index is_idle k.objects) [
      | none ↦ (k, none)
      | some o ↦ (
        set_object k o (record {
          type = type;
          references = 1;
          value = value;
          destroy = destroy;
          active = true;
        }),
        some o,
      )
    ]

-- `none` is the result -1.
pub object_retain : Kernel → ℕ → Option Kernel
object_retain k o =
    let v = object_at k o in
    if not v.active || (v.references == 0 || v.references == 0xffff_ffff)
    then none
    else some (set_object k o (record v { references = v.references + 1 }))

pub next_generation : ℕ → ℕ
next_generation g = let n = bit_and (add32 g 1) 0xff_ffff in if n == 0 then 1 else n

abbrev pub cleared : HandleSlot → HandleSlot
cleared s = record { object = none; rights = 0; generation = next_generation s.generation }

pub handle_open_locked : Kernel → ℕ → ℕ → ℕ → Kernel × ℕ
handle_open_locked k owner o rights = elim (find_index is_empty (row k owner)) [
  | none ↦ (k, 0)
  | some index ↦ elim (object_retain k o) [
    | none ↦ (k, 0)
    | some k' ↦
        let s = slot_at k owner index in
        (
          set_slot k' owner index (record s { object = some o; rights = rights }),
          handle_value s index,
        )
  ]
]

pub handle_open : Kernel → ℕ → ℕ → ℕ → Kernel × ℕ
handle_open k task o rights = elim (task_index k task) [
  | none ↦ (k, 0)
  | some owner ↦
      if rights == 0 || not (and_not rights kright_all == 0)
      then (k, 0)
      else if not (object_at k o).active
      then (k, 0)
      else handle_open_locked k owner o rights
]

-- The object that the slot refers to, where its rights and its type allow.
pub granted : Kernel → HandleSlot → ℕ → ℕ → Option ℕ
granted k s required_rights required_type = elim s.object [
  | none ↦ none
  | some o ↦
      if not (and_not required_rights s.rights == 0)
        || (not (required_type == kobject_none) && not ((object_at k o).type == required_type))
      then none
      else some o
]

pub handle_get : Kernel → ℕ → ℕ → ℕ → ℕ → Option ℕ
unfolding granted
handle_get k task handle required_rights required_type = elim (handle_slot_for k task handle) [
  | none ↦ none
  | some (owner, index) ↦ granted k (slot_at k owner index) required_rights required_type
]

pub handle_duplicate : Kernel → ℕ → ℕ → ℕ → ℕ → Kernel × ℕ
handle_duplicate k source target handle rights = elim (task_index k target) [
  | none ↦ (k, 0)
  | some owner ↦ elim (handle_slot_for k source handle) [
    | none ↦ (k, 0)
    | some (from, index) ↦
        let s = slot_at k from index in
        if bit_and s.rights kright_transfer == 0
          || (rights == 0 || not (and_not rights s.rights == 0))
        then (k, 0)
        else elim s.object [ none ↦ (k, 0) | some o ↦ handle_open_locked k owner o rights ]
  ]
]

abbrev pub refers_to : ℕ → HandleSlot → Bool
refers_to o s = elim s.object [ none ↦ false | some p ↦ p == o ]

-- The first slot that refers to an object, owners first.
pub find_holder : List (List HandleSlot) → ℕ → ℕ → Option (ℕ × ℕ)
find_holder [] owner o = none
find_holder (r ∷ rs) owner o = elim (find_index (refers_to o) r) [
  | some index ↦ some (owner, index)
  | none ↦ find_holder rs (suc owner) o
]

-- `run_destroy` runs a destroy callback on an object, and `fd_revoke` is
-- `posix_fd_revoke_object`: both belong to other components.
module _ (run_destroy : ℕ → ℕ → Kernel → Kernel) where
  -- What follows the callback: the slot is free again.
  abbrev pub retire : Kernel → ℕ → Kernel
  retire k o =
      set_object k o (record (object_at k o) { type = kobject_none; value = 0; active = false })

  abbrev pub run_callback : Option ℕ → ℕ → Kernel → Kernel
  run_callback none o k = k
  run_callback (some callback) o k = run_destroy callback o k

  pub object_release : Kernel → ℕ → Kernel
  object_release k o =
      let v = object_at k o in
      if not v.active || v.references == 0
      then k
      else if not (v.references - 1 == 0)
      then set_object k o (record v { references = v.references - 1 })
      else retire
          (run_callback v.destroy o (set_object k o (record v { references = 0; destroy = none })))
          o

  abbrev pub release_slot : Kernel → ℕ → ℕ → Option ℕ → Kernel
  release_slot k owner index none = k
  release_slot k owner index (some o) =
      object_release (set_slot k owner index (cleared (slot_at k owner index))) o

  -- The result is the C one: true for 0, false for -1.
  pub handle_close : Kernel → ℕ → ℕ → Kernel × Bool
  handle_close k task handle = elim (handle_slot_for k task handle) [
    | none ↦ (k, false)
    | some (owner, index) ↦ (release_slot k owner index (slot_at k owner index).object, true)
  ]

  -- Each pass clears a slot, so the slots there are bound the passes.
  pub revoke_loop : ℕ → Kernel → ℕ → ℕ → Kernel × ℕ
  revoke_loop zero k o revoked = (k, revoked)
  revoke_loop (suc fuel) k o revoked = elim (find_holder k.handles 0 o) [
    | none ↦ (k, revoked)
    | some (owner, index) ↦
        revoke_loop fuel
          (object_release (set_slot k owner index (cleared (slot_at k owner index))) o) o
          (add32 revoked 1)
  ]

  pub handle_revoke_object : (ℕ → Kernel → Kernel) → Kernel → ℕ → Kernel × ℕ
  handle_revoke_object fd_revoke k o =
      if not (object_at k o).active
      then (k, 0)
      else revoke_loop (max_tasks * khandle_max + 1) (fd_revoke o k) o 0

  -- `index` counts up; the first argument is the number of slots left.
  pub close_from : ℕ → Kernel → ℕ → ℕ → ℕ → Kernel
  close_from zero k task owner index = k
  close_from (suc left) k task owner index =
      let s = slot_at k owner index in
      close_from left (if is_empty s then k else (handle_close k task (handle_value s index)).0)
        task owner (suc index)

  pub handle_close_all : Kernel → ℕ → Kernel
  handle_close_all k task = elim (task_index k task) [
    | none ↦ k
    | some owner ↦ close_from khandle_max k task owner 0
  ]

abbrev pub is_live : KernelObject → Bool
is_live v = v.active

pub object_active_count : Kernel → ℕ
object_active_count k = count_if is_live k.objects

pub handle_active_count : Kernel → ℕ
handle_active_count k = count_rows is_taken k.handles

pub handle_task_count : Kernel → ℕ → ℕ
handle_task_count k task = elim (task_index k task) [
  | none ↦ 0
  | some owner ↦ count_if is_taken (row k owner)
]
