-- ===== src/Objects/Object/Access.antt =====
-- What a handle of src/objects/object.c grants: the object it was opened on, with the rights that
-- it was given and no others.
use mich_core.Base.{
  ℕ, ◌+◌, ◌-◌, ◌/◌, ◌%◌, ◌<◌, ◌^◌, ◌≡◌, ◌≢◌, refl, ap, ◌∙◌, sym, true, false, not, ◌&&◌, ◌||◌,
  Option, none, some, [], arith, ◌==◌, if◌then◌else◌, get_or, set, find_index, find_index-some,
  get_or-set_self, Option-cases, inl, inr,
}
use mich_core.Process.Task.{max_tasks}
use mich_core.Objects.Object.{
  KernelObject, HandleSlot, Kernel, blank_object, blank_slot, object_at, set_object, row, slot_at,
  set_slot, khandle_max, kobject_none, object_retain, handle_open_locked, handle_open, handle_get,
  granted, handle_slot_for, task_index, is_empty, handle_value, and_not,
}
use mich_core.Objects.Object.Rights.{handle_value-parts}
use mich_core.Objects.Object.Counted.{IsCounted}
use mich_core.Objects.Object.Keeps.{active-inside, object_retain-some}
use mich_core.Objects.Object.Handles.{task_index-some}

-- The tables after `handle_open_locked` has filled the slot of `index`.
abbrev pub filled : Kernel → ℕ → ℕ → ℕ → ℕ → Kernel
filled k owner index o rights =
    set_slot
      (set_object k o (record (object_at k o) { references = (object_at k o).references + 1 }))
      owner index (record (slot_at k owner index) { object = some o; rights = rights })

-- A nonzero handle from `handle_open_locked` names the slot that it filled.
pub handle_open_locked-some :
    (k : Kernel) (owner o rights : ℕ) {k' : Kernel} {h : ℕ}
    → handle_open_locked k owner o rights ≡ (k', h)
    → h ≢ 0
    → (index : ℕ) × (find_index is_empty (row k owner) ≡ some index)
      × (k' ≡ filled k owner index o rights)
      × (h ≡ handle_value (slot_at k owner index) index)
      × ((object_at k o).active ≡ true)
unfolding handle_open_locked
handle_open_locked-some k owner o rights {k'} {h} e ne =
    elim (Option-cases (find_index is_empty (row k owner))) [
      | inl f ↦ absurd (ground arith)
      | inr (index, f) ↦ elim (Option-cases (object_retain k o)) [
        | inl r ↦ absurd (ground arith)
        | inr (s, r) ↦
            let (q, a, pos) = object_retain-some k o r in
            (
              index,
              f,
              sym (ground arith)
                  ∙ ap
                      (λ (t : Kernel).
                        set_slot t owner index
                          (record (slot_at k owner index) { object = some o; rights = rights }))
                      q,
              ground arith,
              a,
            )
      ]
    ]

found :
    (k : Kernel) (task owner index handle : ℕ)
    → task_index k task ≡ some owner
    → index < khandle_max
    → handle % 2 ^ 8 ≡ index + 1
    → (slot_at k owner index).generation ≡ handle / 2 ^ 8
    → is_empty (slot_at k owner index) ≡ false
    → handle_slot_for k task handle ≡ some (owner, index)
unfolding handle_slot_for
found k task owner index handle t b low g e =
    let same : handle % 2 ^ 8 - 1 ≡ index = omega arith in
    rw (t, handle_slot_for, same) (ground arith)

same_tasks :
    (k : Kernel) (owner index o rights task : ℕ)
    → task_index (filled k owner index o rights) task ≡ task_index k task
unfolding task_index
same_tasks k owner index o rights task = refl

slot_at-filled :
    {outside : ℕ → ℕ} {k : Kernel} (owner index o rights : ℕ)
    → IsCounted outside k
    → owner < max_tasks
    → index < khandle_max
    → slot_at (filled k owner index o rights) owner index
      ≡ record (slot_at k owner index) { object = some o; rights = rights }
slot_at-filled {outside} {k} owner index o rights v ho hi =
    let s = record (slot_at k owner index) { object = some o; rights = rights } in
    ap (λ r. get_or r index blank_slot)
      (get_or-set_self k.handles owner (set (row k owner) index s) [] (omega (arith, v.rows_size)))
    ∙ get_or-set_self (row k owner) index s blank_slot (omega (arith, v.row_size owner ho))

-- What `handle_get` answers for a slot of given contents.
abbrev pub allowed : ℕ → ℕ → ℕ → ℕ → ℕ → Option ℕ
allowed o object_type rights required type =
    if not (and_not required rights == 0)
      || (not (type == kobject_none) && not (object_type == type))
    then none
    else some o

pub granted_lem :
    (k : Kernel) (s : HandleSlot) (o object_type required type : ℕ)
    → s.object ≡ some o
    → (object_at k o).type ≡ object_type
    → granted k s required type ≡ allowed o object_type s.rights required type
unfolding granted
granted_lem k s o object_type required type e t = rw (e, granted, t) refl

-- The slot just filled answers for its handle.
pub handle_get-filled :
    {outside : ℕ → ℕ} {k : Kernel} (task owner index o rights required type : ℕ)
    → IsCounted outside k
    → task_index k task ≡ some owner
    → index < khandle_max
    → (object_at k o).active ≡ true
    → handle_get
        (filled k owner index o rights)
        task
        (handle_value (slot_at k owner index) index)
        required
        type
      ≡ allowed o (object_at k o).type rights required type
unfolding handle_get
handle_get-filled {outside} {k} task owner index o rights required type v t b act =
    rw (slot, handle_get)
      (ap (λ s. granted k' s required type) here
        ∙ granted_lem k' news o (object_at k o).type required type refl same_type)
  where
    k' : Kernel
    k' = filled k owner index o rights

    news : HandleSlot
    news = record (slot_at k owner index) { object = some o; rights = rights }

    here : slot_at k' owner index ≡ news
    here = slot_at-filled owner index o rights v (task_index-some k task t).1 b

    same_type : (object_at k' o).type ≡ (object_at k o).type
    same_type =
        ap (λ (x : KernelObject). x.type)
          (get_or-set_self k.objects o
            (record (object_at k o) { references = (object_at k o).references + 1 }) blank_object
            (active-inside k o act))

    parts :
        (handle_value (slot_at k owner index) index % 2 ^ 8 ≡ index + 1)
        × (handle_value (slot_at k owner index) index / 2 ^ 8 ≡ (slot_at k owner index).generation)
        × (0 < handle_value (slot_at k owner index) index)
        × (handle_value (slot_at k owner index) index < 2 ^ 32)
    parts = handle_value-parts (slot_at k owner index) index (v.generations owner index).1 b

    slot :
        handle_slot_for k' task (handle_value (slot_at k owner index) index) ≡ some (owner, index)
    slot =
        found k' task owner index (handle_value (slot_at k owner index) index)
          (same_tasks k owner index o rights task ∙ t) b parts.0
          (ap (λ (s : HandleSlot). s.generation) here ∙ sym parts.1)
          (ap (λ (s : HandleSlot). is_empty s) here)

-- A handle from `handle_open` is a nonzero 32-bit value, and gives back the object for every set of
-- rights within its own and every type that fits, and nothing for any other.
pub handle_get-handle_open :
    {outside : ℕ → ℕ} {k k' : Kernel} (task o rights h required type : ℕ)
    → IsCounted outside k
    → handle_open k task o rights ≡ (k', h)
    → h ≢ 0
    → (h < 2 ^ 32)
      × (handle_get k' task h required type ≡ allowed o (object_at k o).type rights required type)
unfolding handle_open
handle_get-handle_open {outside} {k} {k'} task o rights h required type v e ne =
    elim (Option-cases (task_index k task)) [
      | inl q ↦ absurd (ground arith)
      | inr (owner, q) ↦
          let opened : handle_open_locked k owner o rights ≡ (k', h) = ground arith in
          let (index, f, s, hv, act) = handle_open_locked-some k owner o rights opened ne in
          let b = (find_index-some is_empty (row k owner) blank_slot {i = index} f).0 in
          let ho = (task_index-some k task q).1 in
          let hi : index < khandle_max = omega (arith, v.row_size owner ho) in
          (
            omega (
              arith,
              handle_value-parts (slot_at k owner index) index (v.generations owner index).1 hi,
            ),
            rw (s, hv) (handle_get-filled task owner index o rights required type v q hi act),
          )
    ]
