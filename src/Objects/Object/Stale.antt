-- ===== src/Objects/Object/Stale.antt =====
-- A closed handle of src/objects/object.c stays dead when its slot is used again.
use mich_core.Base.{
  ℕ, ◌+◌, ◌/◌, ◌%◌, ◌<◌, ◌^◌, ◌≡◌, ◌≢◌, refl, ap, ◌∙◌, sym, subst, Bool, true, not, ◌||◌, none,
  some, [], arith, ◌==◌, get_or, set, Option, find_index, find_index-some, get_or-set_self,
  get_or-set_ne, ℕ_discrete, Bool-cases, Option-cases, inl, inr,
}
use mich_core.Process.Task.{max_tasks}
use mich_core.Objects.Object.{
  HandleSlot, Kernel, blank_slot, object_at, row, slot_at, set_slot, khandle_max, object_retain,
  handle_open_locked, handle_open, handle_get, handle_slot_for, task_index, is_empty, and_not,
  kright_all,
}
use mich_core.Objects.Object.Counted.{IsCounted}
use mich_core.Objects.Object.Keeps.{object_retain-some}
use mich_core.Objects.Object.Handles.{task_index-some, handle_slot_for-some}
use mich_core.Objects.Object.{cleared, next_generation, object_release, handle_close, set_slot}
use mich_core.Objects.Object.Rights.{next_generation_bounds}
use mich_core.Objects.Object.Counted.{IsCounted, plus_one, set_slot-IsCounted}
use mich_core.Objects.Object.Destroyer.{destroys, IsDestroyer}
use mich_core.Objects.Object.Release.{handle_close-IsCounted, object_release-IsCounted}

-- Writing a slot with its own generation changes no generation.
same_generation :
    {outside : ℕ → ℕ} {k : Kernel} (i j : ℕ) (s : HandleSlot)
    → IsCounted outside k
    → i < max_tasks
    → j < khandle_max
    → s.generation ≡ (slot_at k i j).generation
    → (a b : ℕ) → (slot_at (set_slot k i j s) a b).generation ≡ (slot_at k a b).generation
same_generation {outside} {k} i j s v hi hj g a b = elim (ℕ_discrete i a) [
  | no q ↦ rw (get_or-set_ne k.handles (set (row k i) j s) [] q)
  | yes q ↦ elim (ℕ_discrete j b) [
    | no r ↦ rw (
      ← q,
      get_or-set_self k.handles i (set (row k i) j s) [] (omega (arith, v.rows_size)),
      get_or-set_ne (row k i) s blank_slot r,
    )
    | yes r ↦
        rw
          (
            ← q,
            ← r,
            get_or-set_self k.handles i (set (row k i) j s) [] (omega (arith, v.rows_size)),
            get_or-set_self (row k i) j s blank_slot (omega (arith, v.row_size i hi)),
          )
          g
  ]
]

handle_open_locked-generation :
    {outside : ℕ → ℕ} {k : Kernel} (owner o rights : ℕ)
    → IsCounted outside k
    → owner < max_tasks
    → (a b : ℕ)
    → (slot_at (handle_open_locked k owner o rights).0 a b).generation ≡ (slot_at k a b).generation
unfolding handle_open_locked
handle_open_locked-generation {outside} {k} owner o rights v ho a b =
    elim (Option-cases (find_index is_empty (row k owner))) [
      | inl f ↦ rw (f, handle_open_locked) refl
      | inr (index, f) ↦
          let hi = (find_index-some is_empty (row k owner) blank_slot {i = index} f).0 in
          elim (Option-cases (object_retain k o)) [
            | inl e ↦ rw (f, handle_open_locked, e) refl
            | inr (k', e) ↦
                let q = (object_retain-some k o e).0 in
                let hs = ap (λ (s : Kernel). s.handles) q in
                rw (f, handle_open_locked, e, hs)
                  (same_generation owner index
                    (record (slot_at k owner index) { object = some o; rights = rights }) v ho
                    (omega (arith, v.row_size owner ho)) refl a b)
          ]
    ]

-- `handle_open` changes no generation.
handle_open-generation :
    {outside : ℕ → ℕ} {k : Kernel} (task o rights : ℕ)
    → IsCounted outside k
    → (a b : ℕ)
    → (slot_at (handle_open k task o rights).0 a b).generation ≡ (slot_at k a b).generation
unfolding handle_open
handle_open-generation {outside} {k} task o rights v a b = elim (Option-cases (task_index k task)) [
  | inl q ↦ rw (q, handle_open) refl
  | inr (owner, q) ↦
      rw (q, handle_open)
        (elim (Bool-cases (rights == 0 || not (and_not rights kright_all == 0))) [
          | inl c ↦ rw c refl
          | inr c ↦ rw c (elim (Bool-cases (object_at k o).active) [
            | inl d ↦
                rw d
                  (handle_open_locked-generation owner o rights v (task_index-some k task q).1 a b)
            | inr d ↦ rw d refl
          ])
        ])
]

-- A handle whose slot has another generation is dead.
dead :
    (k : Kernel) (task handle required type owner index : ℕ)
    → owner ≡ task
    → index + 1 ≡ handle % 2 ^ 8
    → (slot_at k owner index).generation ≢ handle / 2 ^ 8
    → handle_get k task handle required type ≡ none
unfolding handle_get
dead k task handle required type owner index e b g =
    elim (Option-cases (handle_slot_for k task handle)) [
      | inl f ↦ rw (f, handle_get) refl
      | inr ((w, x), f) ↦
          let at = handle_slot_for-some k task handle f in
          let wt = (task_index-some k task at.0).0 in
          let same : slot_at k w x ≡ slot_at k owner index =
            ap (slot_at k w) (omega (arith, at.5))
            ∙ ap (λ (i : ℕ). slot_at k i index) (wt ∙ sym e) in
          absurd (g (sym (ap (λ (s : HandleSlot). s.generation) same) ∙ at.4))
    ]

module _ (run_destroy : ℕ → ℕ → Kernel → Kernel) (Held : (ℕ → ℕ) → (ℕ → Option ℕ) → Type 0)
    (destroyer : IsDestroyer run_destroy Held) where
  -- The slot of a closed handle has the next generation.
  handle_close_some :
      {outside : ℕ → ℕ} {k k' : Kernel} (task handle : ℕ)
      → IsCounted outside k
      → Held outside (destroys k)
      → handle_close run_destroy k task handle ≡ (k', true)
      → (owner : ℕ) × (index : ℕ) × (owner ≡ task)
        × (index + 1 ≡ handle % 2 ^ 8)
        × ((slot_at k' owner index).generation ≡ next_generation (handle / 2 ^ 8))
        × (0 < handle / 2 ^ 8)
        × (handle / 2 ^ 8 < 2 ^ 24)
  unfolding handle_close
  handle_close_some {outside} {k} {k'} task handle v held e =
      elim (Option-cases (handle_slot_for k task handle)) [
        | inl f ↦ absurd (ground arith)
        | inr ((owner, index), f) ↦
            let at = handle_slot_for-some k task handle f in
            let g = v.generations owner index in
            elim (Option-cases (slot_at k owner index).object) [
              | inl n ↦ absurd (ground (arith, at.3))
              | inr (o, n) ↦
                  let s = cleared (slot_at k owner index) in
                  let (p, l, d) =
                    next_generation_bounds (slot_at k owner index).generation g.1 g.0 in
                  let w : IsCounted (plus_one outside o) (set_slot k owner index s) =
                    set_slot-IsCounted owner index s v at.1 at.2 (p, l) (λ r. ground arith) in
                  let released =
                    object_release-IsCounted run_destroy Held destroyer (set_slot k owner index s) o
                      w held in
                  let q : object_release run_destroy (set_slot k owner index s) o ≡ k' =
                    ground arith in
                  let hs : k'.handles ≡ (set_slot k owner index s).handles =
                    ap (λ (x : Kernel). x.handles) (sym q) ∙ released.2 in
                  let here : slot_at k' owner index ≡ s =
                    ap (λ t. get_or (get_or t owner []) index blank_slot) hs
                    ∙ ap (λ r. get_or r index blank_slot)
                        (get_or-set_self k.handles owner (set (row k owner) index s) []
                          (omega (arith, v.rows_size, at.1)))
                    ∙ get_or-set_self (row k owner) index s blank_slot
                        (omega (arith, v.row_size owner at.1, at.2)) in
                  (
                    owner,
                    index,
                    (task_index-some k task at.0).0,
                    at.5,
                    ap (λ (x : HandleSlot). x.generation) here ∙ ap next_generation at.4,
                    omega (arith, g.0, at.4),
                    omega (arith, g.1, at.4),
                  )
            ]
      ]

  -- After `handle_close` of a handle, `handle_get` finds nothing for it, even once a later
  -- `handle_open`, for any task and object, may have taken the slot. The reference counts are exact,
  -- and the destroy callbacks keep their contract.
  pub handle_get-handle_close :
      {outside : ℕ → ℕ} {k k' : Kernel} (task handle later o rights required type : ℕ)
      → IsCounted outside k
      → Held outside (destroys k)
      → handle_close run_destroy k task handle ≡ (k', true)
      → (handle_get k' task handle required type ≡ none)
        × (handle_get (handle_open k' later o rights).0 task handle required type ≡ none)
  handle_get-handle_close {outside} {k} {k'} task handle later o rights required type v held e =
      let (owner, index, t, b, g, pos, lt) = handle_close_some task handle v held e in
      let (p, l, ne) = next_generation_bounds (handle / 2 ^ 8) lt pos in
      let closed = handle_close-IsCounted run_destroy Held destroyer k task handle v held in
      let v' : IsCounted closed.0 k' =
        subst (λ (r : Kernel × Bool). IsCounted closed.0 r.0) e closed.1.counted in
      (
        dead k' task handle required type owner index t b (λ z. ne (sym g ∙ z)),
        dead (handle_open k' later o rights).0 task handle required type owner index t b
            (λ z. ne (sym g ∙ sym (handle_open-generation later o rights v' owner index) ∙ z)),
      )
