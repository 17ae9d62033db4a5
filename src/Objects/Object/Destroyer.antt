-- ===== src/Objects/Object/Destroyer.antt =====
-- The contract of the destroy callbacks that src/objects/object.c runs. A callback may release other
-- objects, as those of the rings, the timers and the files do, and these may run their own callbacks.
use mich_core.Base.{
  length, ◌∙◌, ◌≤◌, ◌≢◌, subst, ℕ_discrete, get_or-set_ne, ℕ, ◌<◌, ◌≡◌, ap, Option, none, some,
  get_or-set_self,
}
use mich_core.Objects.Object.{KernelObject, Kernel, blank_object, object_at, set_object}
use mich_core.Objects.Object.Counted.{IsCounted}

-- The destroy callbacks of the objects.
abbrev pub destroys : Kernel → ℕ → Option ℕ
destroys k o = (object_at k o).destroy

abbrev pub IsFewer : (ℕ → ℕ) → (ℕ → ℕ) → Type 0
IsFewer outside' outside = (p : ℕ) → outside' p ≤ outside p

-- What is left after references are given up: `outside` is the number of references from outside
-- that there were at least, and `Held` says that the references that the objects with a callback have
-- are among them.
pub record IsReleased (Held : (ℕ → ℕ) → (ℕ → Option ℕ) → Type 0) (outside outside' : ℕ → ℕ)
    (k : Kernel) : Type 0 where
  pub fewer : IsFewer outside' outside
  pub counted : IsCounted outside' k
  pub held : Held outside' (destroys k)

-- The contract of the destroy callbacks. The callback `c` of an object `o` without a reference
-- gives up references from outside only, where those that it gives up are among them: `d` is the
-- callbacks of the objects with that of `o`, which is about to run. It touches no handle table.
abbrev pub IsDestroyer : (ℕ → ℕ → Kernel → Kernel) → ((ℕ → ℕ) → (ℕ → Option ℕ) → Type 0) → Type 0
IsDestroyer run_destroy Held =
    (c o : ℕ) (outside : ℕ → ℕ) (d : ℕ → Option ℕ) (k : Kernel)
    → IsCounted outside k
    → Held outside d
    → d o ≡ some c
    → destroys k o ≡ none
    → ((p : ℕ) → p ≢ o → destroys k p ≡ d p)
    → (object_at k o).references ≡ 0
    → (outside' : ℕ → ℕ) × IsReleased Held outside outside' (run_destroy c o k)
      × ((run_destroy c o k).handles ≡ k.handles)

pub destroys_set :
    (k : Kernel) (o : ℕ) (x : KernelObject)
    → o < length k.objects
    → x.destroy ≡ destroys k o
    → destroys (set_object k o x) ≡ destroys k
destroys_set k o x h e = λ s p. destroys_set_at p s
  where
    destroys_set_at : (p : ℕ) → destroys (set_object k o x) p ≡ destroys k p
    destroys_set_at p = elim (ℕ_discrete o p) [
      | yes q ↦
          subst (λ j. destroys (set_object k o x) j ≡ destroys k j) q
            (ap (λ (y : KernelObject). y.destroy) (get_or-set_self k.objects o x blank_object h)
              ∙ e)
      | no q ↦ ap (λ (y : KernelObject). y.destroy) (get_or-set_ne k.objects x blank_object q)
    ]
