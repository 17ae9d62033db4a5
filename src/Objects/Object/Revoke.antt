-- ===== src/Objects/Object/Revoke.antt =====
-- `handle_revoke_object` of src/objects/object.c: the loop ends, and leaves no handle to the object.
use mich_core.Base.{
  ap, ◌∙◌, Option, ℕ, zero, suc, ◌+◌, ◌%◌, ◌<◌, ◌≤◌, ◌^◌, ◌≡◌, refl, Bool, true, none, some, List,
  [], ◌∷◌, arith, length, get_or, find_index, find_index-some, Option-cases, inl, inr,
}
use mich_core.Process.Task.{max_tasks}
use mich_core.Objects.Object.{
  HandleSlot, Kernel, blank_slot, object_at, slot_at, set_slot, refers_to, khandle_max,
  object_release, cleared,
}
use mich_core.Objects.Object.Rights.{next_generation_bounds}
use mich_core.Objects.Object.Counted.{IsCounted, held, plus_one, set_slot-IsCounted}
use mich_core.Base.{count_rows, count_rows-set_slot, find_index-none_iff_count, count_if-not, ◌*◌}
use mich_core.Objects.Object.{find_holder, revoke_loop, handle_revoke_object}
use mich_core.Objects.Object.Destroyer.{destroys, IsReleased, IsDestroyer}
use mich_core.Objects.Object.Release.{object_release-IsCounted}

find_holder-some :
    (rows : List (List HandleSlot)) (start o : ℕ) {owner index : ℕ}
    → find_holder rows start o ≡ some (owner, index)
    → (i : ℕ) × (owner ≡ start + i)
      × (i < length rows)
      × (index < length (get_or rows i []))
      × (refers_to o (get_or (get_or rows i []) index blank_slot) ≡ true)
unfolding find_holder
find_holder-some [] start o e = absurd (ground arith)
find_holder-some (r ∷ rs) start o {owner} {index} e =
    elim (Option-cases (find_index (refers_to o) r)) [
      | inr (j, f) ↦
          let (b, t) = find_index-some (refers_to o) r blank_slot {i = j} f in
          let same : j ≡ index = ground arith in
          (0, ground arith, omega arith, omega arith, rw (← same) t)
      | inl f ↦
          let (i, q, b, c, t) =
            find_holder-some rs (suc start) o {owner = owner} {index = index} (ground arith) in
          (suc i, omega arith, omega arith, c, t)
    ]

find_holder-none :
    (rows : List (List HandleSlot)) (start o : ℕ)
    → find_holder rows start o ≡ none
    → count_rows (refers_to o) rows ≡ 0
unfolding find_holder count_rows
find_holder-none [] start o e = refl
find_holder-none (r ∷ rs) start o e = elim (Option-cases (find_index (refers_to o) r)) [
  | inl f ↦ omega (
    arith,
    find_index-none_iff_count (refers_to o) r f,
    find_holder-none rs (suc start) o (ground arith),
  )
  | inr (j, f) ↦ absurd (ground arith)
]

count_rows-le :
    (p : HandleSlot → Bool) (rows : List (List HandleSlot)) (m : ℕ)
    → ((i : ℕ) → i < length rows → length (get_or rows i []) ≡ m)
    → count_rows p rows ≤ length rows * m
unfolding count_rows
count_rows-le p [] m h = omega arith
count_rows-le p (r ∷ rs) m h =
    let rest = count_rows-le p rs m (λ i b. h (suc i) (omega arith)) in
    grind (arith, count_if-not p r, h 0 (omega arith), rest)

module _ (run_destroy : ℕ → ℕ → Kernel → Kernel) (Held : (ℕ → ℕ) → (ℕ → Option ℕ) → Type 0)
    (destroyer : IsDestroyer run_destroy Held) where
  -- One pass of the loop: a counted state again, with one slot fewer that refers to the object.
  pass :
      {outside : ℕ → ℕ} (k : Kernel) (o owner index : ℕ)
      → IsCounted outside k
      → Held outside (destroys k)
      → find_holder k.handles 0 o ≡ some (owner, index)
      → let k' =
          object_release run_destroy (set_slot k owner index (cleared (slot_at k owner index))) o in
        (outside' : ℕ → ℕ) × IsReleased Held outside outside' k' × (held k' o + 1 ≡ held k o)
  pass {outside} k o owner index v h f =
      let (i, q, b, c, t) = find_holder-some k.handles 0 o {owner = owner} {index = index} f in
      let is : i ≡ owner = omega arith in
      let ho : owner < max_tasks = omega (arith, v.rows_size) in
      let hi : index < khandle_max = omega (arith, c, v.row_size i (omega (arith, v.rows_size))) in
      let here : refers_to o (slot_at k owner index) ≡ true = rw (← is) t in
      let g = v.generations owner index in
      let (p, l, d) = next_generation_bounds (slot_at k owner index).generation g.1 g.0 in
      let s = cleared (slot_at k owner index) in
      let k1 = set_slot k owner index s in
      let fewer : held k1 o + 1 ≡ held k o = ground (
        arith,
        here,
        count_rows-set_slot (refers_to o) k.handles owner index blank_slot s
            (omega (arith, v.rows_size)) (omega (arith, v.row_size owner ho)),
      ) in
      let w : IsCounted (plus_one outside o) k1 =
        set_slot-IsCounted owner index s v ho hi (p, l) (λ r. ground arith) in
      let (outside', r, handles, kept) =
        object_release-IsCounted run_destroy Held destroyer k1 o w h in
      let same : held (object_release run_destroy k1 o) o ≡ held k1 o =
        ap (count_rows (refers_to o)) handles in
      (outside', r, ap (λ n. n + 1) same ∙ fewer)

  revoke_loop-clears :
      (fuel : ℕ) {outside : ℕ → ℕ} (k : Kernel) (o revoked : ℕ)
      → IsCounted outside k
      → Held outside (destroys k)
      → held k o < fuel
      → revoked + held k o < 2 ^ 32
      → let (k', n) = revoke_loop run_destroy fuel k o revoked in
        (outside' : ℕ → ℕ) × IsReleased Held outside outside' k'
        × (held k' o ≡ 0)
        × (n ≡ revoked + held k o)
  unfolding revoke_loop
  revoke_loop-clears zero k o revoked v z h r = absurd (omega arith)
  revoke_loop-clears (suc fuel) {outside} k o revoked v held_by h r =
      elim (Option-cases (find_holder k.handles 0 o)) [
        | inl f ↦
            let z = find_holder-none k.handles 0 o f in
            rw (f, revoke_loop)
              (
                outside,
                record { fewer = λ p. omega arith; counted = v; held = held_by },
                z,
                omega arith,
              )
        | inr ((owner, index), f) ↦
            let k' =
              object_release run_destroy (set_slot k owner index (cleared (slot_at k owner index)))
                o in
            let (between, r', e) = pass k o owner index v held_by f in
            let n : (revoked + 1) % 2 ^ 32 ≡ revoked + 1 = omega arith in
            let (outside', w, z, c) =
              revoke_loop-clears fuel k' o (revoked + 1) r'.counted r'.held (omega arith)
                (omega arith) in
            rw (f, revoke_loop, n)
              (
                outside',
                record {
                  fewer = λ p. let x = r'.fewer p in let y = w.fewer p in omega arith;
                  counted = w.counted;
                  held = w.held;
                },
                z,
                omega arith,
              )
      ]

  -- `handle_revoke_object` of an active object ends with no handle slot that refers to it, returns
  -- the number of slots that did once the file descriptors were revoked, and keeps every reference
  -- count exact. Revoking the descriptors is assumed to keep them exact too, and the destroy callbacks
  -- to keep their contract. From outside, only references that a callback may give up become fewer.
  pub handle_revoke_object-clears :
      (fd_revoke : ℕ → Kernel → Kernel) {outside : ℕ → ℕ} (k : Kernel) (o : ℕ)
      → (object_at k o).active ≡ true
      → IsCounted outside (fd_revoke o k)
      → Held outside (destroys (fd_revoke o k))
      → let (k', revoked) = handle_revoke_object run_destroy fd_revoke k o in
        (outside' : ℕ → ℕ) × IsReleased Held outside outside' k'
        × (held k' o ≡ 0)
        × (revoked ≡ held (fd_revoke o k) o)
  unfolding handle_revoke_object
  handle_revoke_object-clears fd_revoke {outside} k o a v h =
      let most : held (fd_revoke o k) o ≤ 32 * 32 = omega (
        arith,
        v.rows_size,
        count_rows-le (refers_to o) (fd_revoke o k).handles 32
            (λ i b. v.row_size i (omega (arith, v.rows_size))),
      ) in
      let (outside', w, z, c) =
        revoke_loop-clears 1025 (fd_revoke o k) o 0 v h (omega arith) (omega arith) in
      rw a (outside', w, z, omega arith)
