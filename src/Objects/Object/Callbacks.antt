-- ===== src/Objects/Object/Callbacks.antt =====
-- Destroy callbacks as in src/objects/ring.c that keep their contract, to test with: one that does
-- nothing, and one of a ring, which releases its backing.
use mich_core.Base.{
  ℕ, ◌-◌, ◌≤◌, Option, true, false, not, ◌||◌, if◌then◌else◌, ◌==◌, bit, sym, ap, subst, ◌∙◌,
  ℕ_discrete, Bool-cases, inl, inr, get_or-set_ne, ◌≡◌, refl, none, some, arith,
}
use mich_core.Objects.Object.{
  Kernel, object_at, run_callback, set_object, KernelObject, blank_object, object_release,
}
use mich_core.Objects.Object.Counted.{IsCounted, plus_one}
use mich_core.Objects.Object.Release.{object_release-IsCounted}
use mich_core.Objects.Object.Destroyer.{destroys, IsDestroyer}

abbrev pub no_callback : ℕ → ℕ → Kernel → Kernel
no_callback callback o k = k

-- A callback that does nothing keeps its contract, whatever the objects hold.
no_callback-IsDestroyer : IsDestroyer no_callback (λ outside d. Unit)
no_callback-IsDestroyer c o outside d k v h e n same z =
    (outside, record { fewer = λ p. omega arith; counted = v; held = tt }, refl)

-- Object 1 is a ring, whose callback releases its backing, object 0.
abbrev pub ring_callback : ℕ → ℕ → Kernel → Kernel
ring_callback callback o k = if o == 1 then object_release no_callback k 0 else k

-- The reference of the ring to its backing, until its callback runs.
abbrev pub RingHeld : (ℕ → ℕ) → (ℕ → Option ℕ) → Type 0
RingHeld outside d = (c : ℕ) → d 1 ≡ some c → 1 ≤ outside 0

nothing_called : (c : Option ℕ) (k : Kernel) → run_callback no_callback c 0 k ≡ k
nothing_called none k = refl
nothing_called (some c) k = refl

backing_released : (k : Kernel) → destroys (object_release no_callback k 0) 1 ≡ destroys k 1
unfolding object_release
backing_released k =
    let v = object_at k 0 in
    let x : KernelObject = record v { references = 0; destroy = none } in
    let other : (k : Kernel) (y : KernelObject) → destroys (set_object k 0 y) 1 ≡ destroys k 1 =
      λ k y.
        ap (λ (z : KernelObject). z.destroy)
          (get_or-set_ne k.objects y blank_object (λ e. omega arith)) in
    elim (Bool-cases (not v.active || v.references == 0)) [
      | inl t ↦ rw (t, object_release) refl
      | inr t ↦ elim (Bool-cases (not (v.references - 1 == 0))) [
        | inl u ↦ rw (t, u, object_release) (other k (record v { references = v.references - 1 }))
        | inr u ↦
            let k0 = set_object k 0 x in
            let k1 = run_callback no_callback v.destroy 0 k0 in
            rw (t, u, object_release)
              (other k1 (record (object_at k1 0) { type = 0; value = 0; active = false })
                ∙ ap (λ y. destroys y 1) (nothing_called v.destroy k0)
                ∙ other k x)
      ]
    ]

split_backing :
    (outside : ℕ → ℕ)
    → 1 ≤ outside 0
    → (p : ℕ) → outside p ≡ plus_one (λ p. outside p - bit (p == 0)) 0 p
split_backing outside h p = elim (ℕ_discrete p 0) [
  | yes q ↦ rw q (omega arith)
  | no q ↦ ground arith
]

pub ring_callback-IsDestroyer : IsDestroyer ring_callback RingHeld
ring_callback-IsDestroyer c o outside d k v h e n same z = elim (ℕ_discrete o 1) [
  | no q ↦
      let other : (o == 1) ≡ false = ground arith in
      let kept : destroys k 1 ≡ d 1 = same 1 (λ p. q (sym p)) in
      rw other (
        outside,
        record { fewer = λ p. omega arith; counted = v; held = λ c' e'. h c' (sym kept ∙ e') },
        refl,
      )
  | yes q ↦
      let ring : (o == 1) ≡ true = ground arith in
      let some_left : 1 ≤ outside 0 = h c (subst (λ x. d x ≡ some c) q e) in
      let less : ℕ → ℕ = λ p. outside p - bit (p == 0) in
      let all : outside ≡ plus_one less 0 = λ s p. split_backing outside some_left p s in
      let (outside', r, handles, kept) =
        object_release-IsCounted no_callback (λ outside d. Unit) no_callback-IsDestroyer k 0
          (subst (λ f. IsCounted f k) all v) tt in
      let none_left : destroys (object_release no_callback k 0) 1 ≡ none =
        backing_released k ∙ subst (λ x. destroys k x ≡ none) q n in
      rw ring (
        outside',
        record {
          fewer = λ p. let x = r.fewer p in omega arith;
          counted = r.counted;
          held = λ c' e'. let no = sym none_left ∙ e' in cc;
        },
        handles,
      )
]
