-- ===== src/Objects/Object/Counted.antt =====
-- The invariant of src/objects/object.c: the reference count of an object is the number of handle
-- slots that refer to it and of the references held elsewhere.
use mich_core.Base.{
  ℕ, ◌+◌, ◌<◌, ◌≡◌, ◌≢◌, ◌∙◌, sym, true, [], arith, ◌==◌, length, length-set, set, get_or-set_self,
  get_or-set_ne, count_rows, count_rows-set_slot, bit, ◌⊎◌, ℕ_discrete, ◌^◌, inl, inr,
}
use mich_core.Process.Task.{max_tasks}
use mich_core.Objects.Object.{
  KernelObject, HandleSlot, Kernel, blank_object, blank_slot, object_at, set_object, row, slot_at,
  set_slot, refers_to, khandle_max, kobject_max,
}

-- The handle slots of all tasks that refer to an object.
abbrev pub held : Kernel → ℕ → ℕ
held k o = count_rows (refers_to o) k.handles

-- `outside o` is the number of references to `o` that no handle slot holds.
pub record IsCounted (outside : ℕ → ℕ) (k : Kernel) : Type 0 where
  pub objects_size : length k.objects ≡ kobject_max
  pub rows_size : length k.handles ≡ max_tasks
  pub row_size : (i : ℕ) → i < max_tasks → length (row k i) ≡ khandle_max
  pub counted : (o : ℕ) → (object_at k o).references ≡ held k o + outside o
  pub live : (o : ℕ) → 0 < (object_at k o).references → (object_at k o).active ≡ true
  pub generations :
      (i j : ℕ) → (0 < (slot_at k i j).generation) × ((slot_at k i j).generation < 2 ^ 24)

-- One more reference to `o` from outside.
abbrev pub plus_one : (ℕ → ℕ) → ℕ → ℕ → ℕ
plus_one outside o p = outside p + bit (p == o)

-- An object that a handle slot refers to is active.
pub held-active :
    {outside : ℕ → ℕ} {k : Kernel} (o : ℕ)
    → IsCounted outside k
    → 0 < held k o
    → (object_at k o).active ≡ true
held-active o v h = v.live o (omega (arith, v.counted o))

-- The object table after one object is written.
pub set_object-IsCounted :
    {outside outside' : ℕ → ℕ} {k : Kernel} (o : ℕ) (x : KernelObject)
    → IsCounted outside k
    → o < kobject_max
    → (0 < x.references → x.active ≡ true)
    → x.references ≡ held k o + outside' o
    → ((p : ℕ) → p ≢ o → outside' p ≡ outside p)
    → IsCounted outside' (set_object k o x)
set_object-IsCounted {outside} {outside'} {k} o x v b a c rest = record {
  objects_size = length-set k.objects o x ∙ v.objects_size;
  rows_size = v.rows_size;
  row_size = v.row_size;
  counted = λ p. elim (ℕ_discrete o p) [
    | yes q ↦ rw (← q, get_or-set_self k.objects o x blank_object inside) c
    | no q ↦
        rw (get_or-set_ne k.objects x blank_object q)
          (omega (arith, v.counted p, rest p (λ z. q (sym z))))
  ];
  live = λ p. elim (ℕ_discrete o p) [
    | yes q ↦ rw (← q, get_or-set_self k.objects o x blank_object inside) a
    | no q ↦ rw (get_or-set_ne k.objects x blank_object q) (v.live p)
  ];
  generations = v.generations;
}
  where
    inside : o < length k.objects
    inside = omega (arith, v.objects_size)

slot_at-set_slot :
    (k : Kernel) (i j i' j' : ℕ) (s : HandleSlot)
    → i < length k.handles
    → j < length (row k i)
    → (slot_at (set_slot k i j s) i' j' ≡ s) ⊎ (slot_at (set_slot k i j s) i' j' ≡ slot_at k i' j')
slot_at-set_slot k i j i' j' s hi hj = elim (ℕ_discrete i i') [
  | yes q ↦ elim (ℕ_discrete j j') [
    | yes r ↦ inl (
        rw (← q, ← r, get_or-set_self k.handles i (set (row k i) j s) [] hi)
          (get_or-set_self (row k i) j s blank_slot hj))
    | no r ↦ inr (
        rw (← q, get_or-set_self k.handles i (set (row k i) j s) [] hi)
          (get_or-set_ne (row k i) s blank_slot r))
  ]
  | no q ↦ inr (rw (get_or-set_ne k.handles (set (row k i) j s) [] q))
]

row_size-set :
    (k : Kernel) (i j n : ℕ) (s : HandleSlot)
    → i < length k.handles
    → ((m : ℕ) → m < max_tasks → length (row k m) ≡ n)
    → (m : ℕ) → m < max_tasks
    → length (row (set_slot k i j s) m) ≡ n
row_size-set k i j n s h r m b = elim (ℕ_discrete i m) [
  | yes q ↦
      rw (← q, get_or-set_self k.handles i (set (row k i) j s) [] h)
        (length-set (row k i) j s ∙ r i (omega arith))
  | no q ↦ rw (get_or-set_ne k.handles (set (row k i) j s) [] q) (r m b)
]

-- The handle tables after one slot is written: what the slot referred to is one reference more
-- outside, and what it refers to is one less.
pub set_slot-IsCounted :
    {outside outside' : ℕ → ℕ} {k : Kernel} (i j : ℕ) (s : HandleSlot)
    → IsCounted outside k
    → i < max_tasks
    → j < khandle_max
    → ((0 < s.generation) × (s.generation < 2 ^ 24))
    → ((p : ℕ) → outside' p + bit (refers_to p s) ≡ outside p + bit (refers_to p (slot_at k i j)))
    → IsCounted outside' (set_slot k i j s)
set_slot-IsCounted {outside} {outside'} {k} i j s v hi hj g c = record {
  objects_size = v.objects_size;
  rows_size = length-set k.handles i (set (row k i) j s) ∙ v.rows_size;
  row_size = row_size-set k i j khandle_max s in_rows v.row_size;
  counted = λ p. omega (
    arith,
    v.counted p,
    c p,
    count_rows-set_slot (refers_to p) k.handles i j blank_slot s in_rows in_row,
  );
  live = v.live;
  generations = λ i' j'. elim (slot_at-set_slot k i j i' j' s in_rows in_row) [
    | inl q ↦ rw q g
    | inr q ↦ rw q (v.generations i' j')
  ];
}
  where
    in_rows : i < length k.handles
    in_rows = omega (arith, v.rows_size)

    in_row : j < length (row k i)
    in_row = omega (arith, v.row_size i hi)
