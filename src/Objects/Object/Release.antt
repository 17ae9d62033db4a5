-- ===== src/Objects/Object/Release.antt =====
-- Giving up references in src/objects/object.c: `object_release`, `handle_close` and
-- `handle_close_all`.
use mich_core.Base.{
  count_rows, ◌∙◌, ◌≢◌, ◌⊎◌, sym, subst, false, ℕ_discrete, get_or-set_ne, ℕ, zero, suc, ◌+◌, ◌-◌,
  ◌<◌, ◌≡◌, refl, ap, true, not, ◌||◌, Option, none, some, arith, ◌==◌, get_or-set_self, Bool-cases,
  Option-cases, inl, inr,
}
use mich_core.Process.Task.{max_tasks}
use mich_core.Objects.Object.{
  KernelObject, Kernel, blank_object, object_at, set_object, set_slot, refers_to, slot_at,
  khandle_max, kobject_max, object_release, handle_close, handle_close_all, close_from,
  handle_slot_for, task_index, is_empty, cleared, run_callback, retire, release_slot, handle_value,
}
use mich_core.Objects.Object.Rights.{next_generation_bounds}
use mich_core.Objects.Object.Counted.{
  IsCounted, held, plus_one, set_object-IsCounted, set_slot-IsCounted,
}
use mich_core.Objects.Object.Keeps.{active-inside}
use mich_core.Objects.Object.Handles.{handle_slot_for-some}
use mich_core.Objects.Object.Destroyer.{destroys, IsReleased, IsDestroyer, destroys_set}

module _ (run_destroy : ℕ → ℕ → Kernel → Kernel) (Held : (ℕ → ℕ) → (ℕ → Option ℕ) → Type 0)
    (destroyer : IsDestroyer run_destroy Held) where
  lowered :
      {outside : ℕ → ℕ} {k : Kernel} (o : ℕ) (x : KernelObject)
      → IsCounted (plus_one outside o) k
      → o < kobject_max
      → x.references + 1 ≡ (object_at k o).references
      → (0 < x.references → x.active ≡ true)
      → IsCounted outside (set_object k o x)
  lowered {outside} {k} o x v b r a =
      set_object-IsCounted o x v b a (ground (arith, v.counted o)) (λ p ne. ground arith)

  -- The callback of an object that has just lost its last reference.
  called :
      {outside : ℕ → ℕ} (k : Kernel) (o : ℕ) (c : Option ℕ) (d : ℕ → Option ℕ)
      → IsCounted outside k
      → Held outside d
      → d o ≡ c
      → destroys k o ≡ none
      → ((p : ℕ) → p ≢ o → destroys k p ≡ d p)
      → (object_at k o).references ≡ 0
      → (outside' : ℕ → ℕ) × IsReleased Held outside outside' (run_callback run_destroy c o k)
        × ((run_callback run_destroy c o k).handles ≡ k.handles)
        × (c ≡ none → outside' ≡ outside)
  called {outside} k o none d v h e n same z =
      let all : d ≡ destroys k = λ s p. all_at p s in
      (
        outside,
        record { fewer = λ p. omega arith; counted = v; held = subst (Held outside) all h },
        refl,
        λ q. refl,
      )
    where
      all_at : (p : ℕ) → d p ≡ destroys k p
      all_at p = elim (ℕ_discrete p o) [ yes q ↦ rw q (e ∙ sym n) | no q ↦ sym (same p q) ]
  called {outside} k o (some c) d v h e n same z =
      let (outside', r, handles) = destroyer c o outside d k v h e n same z in
      (outside', r, handles, λ q. cc)

  -- The slot of the object is free again.
  retired :
      {outside outside' : ℕ → ℕ} {k : Kernel} (o : ℕ)
      → IsReleased Held outside outside' k
      → o < kobject_max
      → (object_at k o).references ≡ 0
      → IsReleased Held outside outside' (retire run_destroy k o)
  retired {outside} {outside'} {k} o r b z =
      let v = r.counted in
      let x = record (object_at k o) { type = 0; value = 0; active = false } in
      record {
        fewer = r.fewer;
        counted =
            set_object-IsCounted o x v b (λ h. absurd (omega arith)) (v.counted o) (λ p ne. refl);
        held =
            subst (Held outside') (sym (destroys_set k o x (omega (arith, v.objects_size)) refl))
              r.held;
      }

  -- A release as the record and the handle tables show it.
  abbrev pub Release : (ℕ → ℕ) → Kernel → ℕ → Kernel → Type 0
  Release outside k o k' =
      (outside' : ℕ → ℕ) × IsReleased Held outside outside' k'
      × (k'.handles ≡ k.handles)
      × (((object_at k o).references ≢ 1) ⊎ (destroys k o ≡ none) → outside' ≡ outside)

  give_up_last :
      {outside : ℕ → ℕ} (k : Kernel) (o : ℕ)
      → IsCounted (plus_one outside o) k
      → Held outside (destroys k)
      → o < kobject_max
      → (object_at k o).references ≡ 1
      → Release outside k o (
          retire run_destroy
            (run_callback run_destroy
              (object_at k o).destroy
              o
              (set_object k o (record (object_at k o) { references = 0; destroy = none })))
            o)
  give_up_last {outside} k o v h b z =
      let x = record (object_at k o) { references = 0; destroy = none } in
      let k0 = set_object k o x in
      let here : object_at k0 o ≡ x =
        get_or-set_self k.objects o x blank_object (omega (arith, v.objects_size)) in
      let w = lowered o x v b (omega arith) (λ h. absurd (omega arith)) in
      let zero_left = ap (λ (y : KernelObject). y.references) here in
      let (outside', r, handles, kept) =
        called k0 o (destroys k o) (destroys k) w h refl (ap (λ (y : KernelObject). y.destroy) here)
          (λ p q.
            ap (λ (y : KernelObject). y.destroy)
              (get_or-set_ne k.objects x blank_object (λ e. q (sym e))))
          zero_left in
      let k1 = run_callback run_destroy (destroys k o) o k0 in
      let fewer = r.fewer o in
      let same_held : held k1 o ≡ held k0 o = ap (count_rows (refers_to o)) handles in
      let gone : (object_at k1 o).references ≡ 0 =
        omega (arith, r.counted.counted o, w.counted o, zero_left) in
      (
        outside',
        retired o r b gone,
        handles,
        λ q. elim q [ inl ne ↦ absurd (ne z) | inr e ↦ kept e ],
      )

  -- `object_release` of an object with a reference from outside gives up that reference and keeps
  -- every reference count exact. Other references from outside are given up only by the destroy
  -- callback, where the object has one and this was its last reference. The callbacks keep their
  -- contract, and the references that they give up are among those from outside.
  pub object_release-IsCounted :
      {outside : ℕ → ℕ} (k : Kernel) (o : ℕ)
      → IsCounted (plus_one outside o) k
      → Held outside (destroys k)
      → Release outside k o (object_release run_destroy k o)
  unfolding object_release
  object_release-IsCounted {outside} k o v h =
      let pos : 0 < (object_at k o).references = ground (arith, v.counted o) in
      let a = v.live o pos in
      let inside = active-inside k o a in
      let b : o < kobject_max = omega (arith, v.objects_size) in
      elim (Bool-cases (not (object_at k o).active || (object_at k o).references == 0)) [
        | inl c ↦ absurd (ground arith)
        | inr c ↦ rw c (elim (Bool-cases (not ((object_at k o).references - 1 == 0))) [
          | inl d ↦
              let x = record (object_at k o) { references = (object_at k o).references - 1 } in
              rw d (
                outside,
                record {
                  fewer = λ p. omega arith;
                  counted = lowered o x v b (omega arith) (λ _. a);
                  held = subst (Held outside) (sym (destroys_set k o x inside refl)) h;
                },
                refl,
                λ q. refl,
              )
          | inr d ↦ rw d (give_up_last k o v h b (ground arith))
        ])
      ]

  release_slot-IsCounted :
      {outside : ℕ → ℕ} (k : Kernel) (owner index : ℕ) (o : Option ℕ)
      → IsCounted outside k
      → Held outside (destroys k)
      → owner < max_tasks
      → index < khandle_max
      → (slot_at k owner index).object ≡ o
      → (outside' : ℕ → ℕ) × IsReleased Held outside outside'
          (release_slot run_destroy k owner index o)
  release_slot-IsCounted {outside} k owner index none v h ho hi e =
      (outside, record { fewer = λ p. omega arith; counted = v; held = h })
  release_slot-IsCounted {outside} k owner index (some o) v h ho hi e =
      let g = v.generations owner index in
      let (p, l, d) = next_generation_bounds (slot_at k owner index).generation g.1 g.0 in
      let s = cleared (slot_at k owner index) in
      let (outside', r, handles, kept) =
        object_release-IsCounted (set_slot k owner index s) o
          (set_slot-IsCounted owner index s v ho hi (p, l) (λ q. ground arith)) h in
      (outside', r)

  -- `handle_close` keeps every reference count exact, whether it finds the handle or not, where the
  -- callbacks keep their contract. From outside, only references that a callback may give up can
  -- become fewer.
  pub handle_close-IsCounted :
      {outside : ℕ → ℕ} (k : Kernel) (task handle : ℕ)
      → IsCounted outside k
      → Held outside (destroys k)
      → (outside' : ℕ → ℕ) × IsReleased Held outside outside'
          (handle_close run_destroy k task handle).0
  unfolding handle_close
  handle_close-IsCounted {outside} k task handle v h =
      elim (Option-cases (handle_slot_for k task handle)) [
        | inl f ↦
            rw (f, handle_close)
              (outside, record { fewer = λ p. omega arith; counted = v; held = h })
        | inr ((owner, index), f) ↦
            let at = handle_slot_for-some k task handle f in
            rw (f, handle_close)
              (release_slot-IsCounted k owner index (slot_at k owner index).object v h at.1 at.2
                refl)
      ]

  close_from-IsCounted :
      (left : ℕ) {outside : ℕ → ℕ} (k : Kernel) (task owner index : ℕ)
      → IsCounted outside k
      → Held outside (destroys k)
      → (outside' : ℕ → ℕ) × IsReleased Held outside outside'
          (close_from run_destroy left k task owner index)
  unfolding close_from
  close_from-IsCounted zero {outside} k task owner index v h =
      (outside, record { fewer = λ p. omega arith; counted = v; held = h })
  close_from-IsCounted (suc left) k task owner index v h =
      elim (Bool-cases (is_empty (slot_at k owner index))) [
        | inl b ↦ rw b (close_from-IsCounted left k task owner (suc index) v h)
        | inr b ↦
            let handle = handle_value (slot_at k owner index) index in
            let (between, r) = handle_close-IsCounted k task handle v h in
            let (outside', r') =
              close_from-IsCounted left (handle_close run_destroy k task handle).0 task owner
                (suc index) r.counted r.held in
            rw b (
              outside',
              record {
                fewer = λ p. let a = r.fewer p in let b = r'.fewer p in omega arith;
                counted = r'.counted;
                held = r'.held;
              },
            )
      ]

  -- `handle_close_all` keeps every reference count exact, where the callbacks keep their contract.
  pub handle_close_all-IsCounted :
      {outside : ℕ → ℕ} (k : Kernel) (task : ℕ)
      → IsCounted outside k
      → Held outside (destroys k)
      → (outside' : ℕ → ℕ) × IsReleased Held outside outside' (handle_close_all run_destroy k task)
  unfolding handle_close_all
  handle_close_all-IsCounted {outside} k task v h = elim (Option-cases (task_index k task)) [
    | inl q ↦
        rw (q, handle_close_all)
          (outside, record { fewer = λ p. omega arith; counted = v; held = h })
    | inr (owner, q) ↦
        rw (q, handle_close_all) (close_from-IsCounted khandle_max k task owner 0 v h)
  ]
