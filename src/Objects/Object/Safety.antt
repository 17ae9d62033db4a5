-- ===== src/Objects/Object/Safety.antt =====
-- Capability safety of src/objects/object.c: a duplicate never grants more than its source, a handle
-- only ever reaches an active object, and a closed handle stays dead when its slot is used again.
use mich_core.Base.{
  ℕ, ◌<◌, ◌^◌, ◌≡◌, ◌≢◌, refl, ap, ◌∙◌, sym, true, some, arith, find_index-some, Option-cases, inl,
  inr, ◌⊎◌, count_rows-set_slot,
}
use mich_core.Objects.Object.{
  Kernel, blank_slot, object_at, row, slot_at, kobject_none, handle_open_locked, handle_get,
  granted, handle_duplicate, handle_slot_for, task_index, is_empty, handle_value,
}
use mich_core.Objects.Object.Rights.{Within, Within-trans}
use mich_core.Objects.Object.Counted.{IsCounted}
use mich_core.Objects.Object.Handles.{task_index-some, handle_slot_for-some}
use mich_core.Objects.Object.Access.{
  allowed, filled, granted_lem, handle_get-filled, handle_open_locked-some,
}
use mich_core.Objects.Object.{refers_to}
use mich_core.Objects.Object.Counted.{held-active}

allowed-some :
    (o t rights required type : ℕ) {p : ℕ}
    → allowed o t rights required type ≡ some p
    → (o ≡ p) × Within required rights × ((type ≡ kobject_none) ⊎ (t ≡ type))
allowed-some o t rights required type e = ground arith

allowed-intro :
    (o t rights required type : ℕ)
    → Within required rights
    → (type ≡ kobject_none) ⊎ (t ≡ type)
    → allowed o t rights required type ≡ some o
allowed-intro o t rights required type w c = ground arith

handle_get-slot :
    (k : Kernel) (task handle required type owner index o : ℕ)
    → handle_slot_for k task handle ≡ some (owner, index)
    → (slot_at k owner index).object ≡ some o
    → handle_get k task handle required type
      ≡ allowed o (object_at k o).type (slot_at k owner index).rights required type
unfolding handle_get
handle_get-slot k task handle required type owner index o f e =
    rw (f, handle_get)
      (granted_lem k (slot_at k owner index) o (object_at k o).type required type e refl)

-- What a successful `handle_duplicate` has found and done.
abbrev Duplicated : Kernel → ℕ → ℕ → ℕ → ℕ → Kernel → ℕ → Type 0
Duplicated k source target handle rights k' h' =
    (owner : ℕ) × (from : ℕ) × (index : ℕ) × (o : ℕ) × (task_index k target ≡ some owner)
    × (handle_slot_for k source handle ≡ some (from, index))
    × ((slot_at k from index).object ≡ some o)
    × Within rights (slot_at k from index).rights
    × (handle_open_locked k owner o rights ≡ (k', h'))

handle_duplicate_some :
    (k : Kernel) (source target handle rights : ℕ) {k' : Kernel} {h' : ℕ}
    → handle_duplicate k source target handle rights ≡ (k', h')
    → h' ≢ 0
    → Duplicated k source target handle rights k' h'
unfolding handle_duplicate
handle_duplicate_some k source target handle rights e ne =
    elim (Option-cases (task_index k target)) [
      | inl q ↦ absurd (ground arith)
      | inr (owner, q) ↦ elim (Option-cases (handle_slot_for k source handle)) [
        | inl f ↦ absurd (ground arith)
        | inr ((from, index), f) ↦ elim (Option-cases (slot_at k from index).object) [
          | inl n ↦ absurd (ground arith)
          | inr (o, n) ↦ (owner, from, index, o, q, f, n, ground arith, ground arith)
        ]
      ]
    ]

-- Whatever a duplicate of a handle grants, the handle itself grants, and only rights that were
-- asked for are granted.
pub handle_duplicate-le :
    {outside : ℕ → ℕ} {k k' : Kernel} (source target handle rights h' required type : ℕ) {o : ℕ}
    → IsCounted outside k
    → rights < 2 ^ 32
    → required < 2 ^ 32
    → ((i j : ℕ) → (slot_at k i j).rights < 2 ^ 32)
    → handle_duplicate k source target handle rights ≡ (k', h')
    → h' ≢ 0
    → handle_get k' target h' required type ≡ some o
    → Within required rights × (handle_get k source handle required type ≡ some o)
handle_duplicate-le {outside} {k} {k'} source target handle rights h' required type {o} v hr hq
      words e ne g =
    let (owner, from, index, p, q, f, n, w, opened) =
      handle_duplicate_some k source target handle rights e ne in
    let (slot, free_slot, s, hv, act) = handle_open_locked-some k owner p rights opened ne in
    let b = (find_index-some is_empty (row k owner) blank_slot {i = slot} free_slot).0 in
    let ho = (task_index-some k target q).1 in
    let there =
      handle_get-filled target owner slot p rights required type v q
        (omega (arith, v.row_size owner ho)) act in
    let same : handle_get (filled k owner slot p rights) target
          (handle_value (slot_at k owner slot) slot) required type
        ≡ some o =
      ap
        (λ (x : Kernel).
          handle_get x target (handle_value (slot_at k owner slot) slot) required type)
        (sym s)
      ∙ ap (λ (x : ℕ). handle_get k' target x required type) (sym hv)
      ∙ g in
    let (po, wq, ty) =
      allowed-some p (object_at k p).type rights required type (sym there ∙ same) in
    (
      wq,
      handle_get-slot k source handle required type from index p f n
          ∙ allowed-intro p (object_at k p).type (slot_at k from index).rights required type
              (Within-trans required rights (slot_at k from index).rights hq hr (words from index)
                wq w)
              ty
          ∙ ap some po,
    )

handle_get-some :
    (k : Kernel) (task handle required type : ℕ) {o : ℕ}
    → handle_get k task handle required type ≡ some o
    → (owner : ℕ) × (index : ℕ) × (p : ℕ) × (handle_slot_for k task handle ≡ some (owner, index))
      × ((slot_at k owner index).object ≡ some p)
unfolding handle_get granted
handle_get-some k task handle required type g =
    elim (Option-cases (handle_slot_for k task handle)) [
      | inl f ↦ absurd (ground arith)
      | inr ((owner, index), f) ↦ elim (Option-cases (slot_at k owner index).object) [
        | inl n ↦ absurd (ground arith)
        | inr (p, n) ↦ (owner, index, p, f, n)
      ]
    ]

-- No dangling handle: what `handle_get` returns is an active object.
pub handle_get-active :
    {outside : ℕ → ℕ} {k : Kernel} (task handle required type : ℕ) {o : ℕ}
    → IsCounted outside k
    → handle_get k task handle required type ≡ some o
    → (object_at k o).active ≡ true
handle_get-active {outside} {k} task handle required type {o} v g =
    let (owner, index, p, f, e) = handle_get-some k task handle required type g in
    let at = handle_slot_for-some k task handle f in
    let po =
      (allowed-some p (object_at k p).type (slot_at k owner index).rights required type
        (sym (handle_get-slot k task handle required type owner index p f e) ∙ g)).0 in
    let one =
      count_rows-set_slot (refers_to o) k.handles owner index blank_slot blank_slot
        (omega (arith, v.rows_size, at.1)) (omega (arith, v.row_size owner at.1, at.2)) in
    held-active o v (ground (arith, one, e, po))
