-- ===== src/Objects/Object/Handles.antt =====
-- Opening, duplicating and closing handles in src/objects/object.c keep the reference counts.
use mich_core.Base.{
  ℕ, ◌+◌, ◌/◌, ◌%◌, ◌<◌, ◌^◌, ◌≡◌, ap, true, false, not, ◌||◌, some, [], arith, ◌==◌, get_or,
  find_index, find_index-some, Bool-cases, Option-cases, inl, inr, bit_and,
}
use mich_core.Process.Task.{max_tasks}
use mich_core.Objects.Object.{
  Kernel, blank_slot, object_at, row, slot_at, set_slot, khandle_max, object_retain,
  handle_open_locked, handle_open, handle_duplicate, handle_slot_for, task_index, is_empty, and_not,
  kright_all, kright_transfer,
}
use mich_core.Objects.Object.Counted.{IsCounted, set_slot-IsCounted}
use mich_core.Objects.Object.Keeps.{object_retain-some, object_retain-IsCounted}

pub task_index-some :
    (k : Kernel) (task : ℕ) {owner : ℕ}
    → task_index k task ≡ some owner
    → (owner ≡ task) × (owner < max_tasks)
unfolding task_index
task_index-some k task e = ground arith

-- What a handle that finds a slot says of the slot.
pub handle_slot_for-some :
    (k : Kernel) (task handle : ℕ) {owner index : ℕ}
    → handle_slot_for k task handle ≡ some (owner, index)
    → (task_index k task ≡ some owner)
      × (owner < max_tasks)
      × (index < khandle_max)
      × (is_empty (slot_at k owner index) ≡ false)
      × ((slot_at k owner index).generation ≡ handle / 2 ^ 8)
      × (index + 1 ≡ handle % 2 ^ 8)
unfolding handle_slot_for
handle_slot_for-some k task handle {owner} {index} e = elim (Option-cases (task_index k task)) [
  | inl q ↦ absurd (ground arith)
  | inr (w, q) ↦ ground (arith, task_index-some k task {owner = w})
]

opened :
    {outside : ℕ → ℕ} {k k' : Kernel} (owner index o rights : ℕ)
    → IsCounted outside k
    → owner < max_tasks
    → index < khandle_max
    → is_empty (slot_at k owner index) ≡ true
    → object_retain k o ≡ some k'
    → IsCounted outside (
        set_slot k' owner index
          (record (slot_at k owner index) { object = some o; rights = rights }))
opened {outside} {k} {k'} owner index o rights v ho hi empty e =
    let (q, a, pos) = object_retain-some k o e in
    let same : k'.handles ≡ k.handles = ap (λ (s : Kernel). s.handles) q in
    let old : slot_at k' owner index ≡ slot_at k owner index =
      ap (λ hs. get_or (get_or hs owner []) index blank_slot) same in
    set_slot-IsCounted owner index _ (object_retain-IsCounted o v e) ho hi
      (v.generations owner index) λ p. rw old (ground arith)

-- `handle_open_locked` counts the slot that it fills.
pub handle_open_locked-IsCounted :
    {outside : ℕ → ℕ} {k : Kernel} (owner o rights : ℕ)
    → IsCounted outside k
    → owner < max_tasks
    → IsCounted outside (handle_open_locked k owner o rights).0
unfolding handle_open_locked
handle_open_locked-IsCounted {outside} {k} owner o rights v ho =
    elim (Option-cases (find_index is_empty (row k owner))) [
      | inl f ↦ rw (f, handle_open_locked) v
      | inr (index, f) ↦
          let (b, empty) = find_index-some is_empty (row k owner) blank_slot {i = index} f in
          elim (Option-cases (object_retain k o)) [
            | inl e ↦ rw (f, handle_open_locked, e) v
            | inr (k', e) ↦
                rw (f, handle_open_locked, e)
                  (opened owner index o rights v ho (omega (arith, v.row_size owner ho)) empty e)
          ]
    ]

-- `handle_open` keeps every reference count exact, whether it succeeds or not.
pub handle_open-IsCounted :
    {outside : ℕ → ℕ} {k : Kernel} (task o rights : ℕ)
    → IsCounted outside k
    → IsCounted outside (handle_open k task o rights).0
unfolding handle_open
handle_open-IsCounted {outside} {k} task o rights v = elim (Option-cases (task_index k task)) [
  | inl q ↦ rw (q, handle_open) v
  | inr (owner, q) ↦
      rw (q, handle_open)
        (elim (Bool-cases (rights == 0 || not (and_not rights kright_all == 0))) [
          | inl b ↦ rw b v
          | inr b ↦ rw b (elim (Bool-cases (object_at k o).active) [
            | inl a ↦
                rw a (handle_open_locked-IsCounted owner o rights v (task_index-some k task q).1)
            | inr a ↦ rw a v
          ])
        ])
]

-- `handle_duplicate` keeps every reference count exact, whether it succeeds or not.
pub handle_duplicate-IsCounted :
    {outside : ℕ → ℕ} {k : Kernel} (source target handle rights : ℕ)
    → IsCounted outside k
    → IsCounted outside (handle_duplicate k source target handle rights).0
unfolding handle_duplicate
handle_duplicate-IsCounted {outside} {k} source target handle rights v =
    elim (Option-cases (task_index k target)) [
      | inl q ↦ rw (q, handle_duplicate) v
      | inr (owner, q) ↦ elim (Option-cases (handle_slot_for k source handle)) [
        | inl f ↦ rw (q, handle_duplicate, f) v
        | inr ((from, index), f) ↦
            rw (q, handle_duplicate, f)
              (elim (Bool-cases (
                bit_and (slot_at k from index).rights kright_transfer == 0
                || (rights == 0 || not (and_not rights (slot_at k from index).rights == 0)))) [
                  | inl b ↦ rw b v
                  | inr b ↦ rw b (elim (Option-cases (slot_at k from index).object) [
                    | inl n ↦ rw n v
                    | inr (o, n) ↦ rw n (
                        handle_open_locked-IsCounted owner o rights v
                          (task_index-some k target q).1)
                  ])
                ])
      ]
    ]
