-- ===== src/Objects/Object/Keeps.antt =====
-- The operations of src/objects/object.c keep the reference counts exact.
use mich_core.Base.{
  ℕ, ◌+◌, ◌<◌, ◌≡◌, refl, ap, ◌∙◌, subst, true, Option, some, [], arith, length, get_or, find_index,
  find_index-some, Option-cases, inl, inr, dec_lt, get_or-replicate, get_or-replicate_lt,
  get_or-outside, count_rows-replicate, replicate, length-replicate,
}
use mich_core.Process.Task.{max_tasks}
use mich_core.Objects.Object.{
  KernelObject, Kernel, blank_object, blank_slot, object_at, set_object, refers_to, khandle_max,
  kobject_max, object_init, object_create, object_retain, is_idle,
}
use mich_core.Objects.Object.Counted.{IsCounted, held, plus_one, set_object-IsCounted}

blank_slots :
    (n m i j : ℕ)
    → get_or (get_or (replicate n (replicate m blank_slot)) i []) j blank_slot ≡ blank_slot
blank_slots n m i j = elim (dec_lt i n) [
  | yes h ↦
      rw (get_or-replicate_lt n i (replicate m blank_slot) [] h) (get_or-replicate m j blank_slot)
  | no h ↦
      let away =
        get_or-outside (replicate n (replicate m blank_slot)) i []
          (omega (arith, length-replicate n (replicate m blank_slot))) in
      rw away refl
]

-- The empty tables of `object_init`, with no reference anywhere.
pub object_init-IsCounted : (k : Kernel) → IsCounted (λ o. 0) (object_init k)
unfolding object_init
object_init-IsCounted k = record {
  objects_size = length-replicate kobject_max blank_object;
  rows_size = length-replicate max_tasks (replicate khandle_max blank_slot);
  row_size = λ i h.
      ap length (get_or-replicate_lt max_tasks i (replicate khandle_max blank_slot) [] h)
      ∙ length-replicate khandle_max blank_slot;
  counted = λ o.
      rw (get_or-replicate kobject_max o blank_object)
        (omega (arith, count_rows-replicate (refers_to o) max_tasks khandle_max blank_slot refl));
  live = λ o. rw (get_or-replicate kobject_max o blank_object) (λ z. absurd (omega arith));
  generations = λ i j. rw (blank_slots max_tasks khandle_max i j) (omega arith);
}

pub active-inside : (k : Kernel) (o : ℕ) → (object_at k o).active ≡ true → o < length k.objects
active-inside k o h = elim (dec_lt o (length k.objects)) [
  | yes q ↦ q
  | no q ↦ absurd (ground (arith, get_or-outside k.objects o blank_object))
]

-- What `object_retain` does where it succeeds.
pub object_retain-some :
    (k : Kernel) (o : ℕ) {k' : Kernel}
    → object_retain k o ≡ some k'
    → (k' ≡ set_object k o (record (object_at k o) { references = (object_at k o).references + 1 }))
      × ((object_at k o).active ≡ true)
      × (0 < (object_at k o).references)
unfolding object_retain
object_retain-some k o e = ground arith

-- `object_retain` adds one reference from outside.
pub object_retain-IsCounted :
    {outside : ℕ → ℕ} {k k' : Kernel} (o : ℕ)
    → IsCounted outside k
    → object_retain k o ≡ some k'
    → IsCounted (plus_one outside o) k'
object_retain-IsCounted {outside} {k} {k'} o v e =
    let (q, a, pos) = object_retain-some k o e in
    rw q (
      set_object-IsCounted o
        (record (object_at k o) { references = (object_at k o).references + 1 }) v
        (omega (arith, active-inside k o a, v.objects_size)) (λ _. a) (ground (arith, v.counted o))
        (λ p ne. ground arith))

abbrev fresh : ℕ → ℕ → Option ℕ → KernelObject
fresh type value destroy = record {
  type = type;
  references = 1;
  value = value;
  destroy = destroy;
  active = true;
}

unreferenced :
    {outside : ℕ → ℕ} {k : Kernel}
    → IsCounted outside k
    → (o : ℕ) → is_idle (object_at k o) ≡ true
    → held k o + outside o ≡ 0
unreferenced {outside} {k} v o idle = elim (dec_lt 0 (object_at k o).references) [
  | yes h ↦ absurd (ground (arith, v.live o h))
  | no h ↦ omega (arith, v.counted o)
]

-- `object_create` makes an object with one reference, from outside, and changes no other count.
pub object_create-IsCounted :
    {outside : ℕ → ℕ} {k k' : Kernel} (type value : ℕ) (destroy : Option ℕ) {o : ℕ}
    → IsCounted outside k
    → object_create k type value destroy ≡ (k', some o)
    → IsCounted (plus_one outside o) k'
unfolding object_create
object_create-IsCounted {outside} {k} {k'} type value destroy {o} v e =
    elim (Option-cases (find_index is_idle k.objects)) [
      | inl f ↦ absurd (ground arith)
      | inr (i, f) ↦
          let (b, idle) = find_index-some is_idle k.objects blank_object {i = i} f in
          let is_o : i ≡ o = ground arith in
          let made : set_object k i (fresh type value destroy) ≡ k' = ground arith in
          subst (λ s. IsCounted (plus_one outside o) s) made
            (set_object-IsCounted i (fresh type value destroy) v (omega (arith, v.objects_size))
              (λ _. refl) (rw is_o (ground (arith, unreferenced v i idle))) (λ p ne. ground arith))
    ]
