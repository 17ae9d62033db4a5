-- ===== src/Net/Route/Deactivate.antt =====
-- `route_deactivate_interface` of src/net/route.c: which entries it takes out, and no others.
use mich_core.Base.{
  ℕ, zero, suc, ◌-◌, ◌≡◌, refl, ◌≢◌, false, List, [], ◌∷◌, arith, if◌then◌else◌, Bool-cases, ◌==◌,
  add32, inl, inr,
}
use mich_core.Net.Route.{RouteEntry, RouteTable, on_interface, sweep, route_deactivate_interface}
use mich_core.Net.Route.Unique.{entry, IsSound, SameRoute, IsValid}

abbrev cut : ℕ → ℕ → RouteEntry → RouteEntry
cut id g e = if on_interface id g e then record e { active = false } else e

sweep-entry :
    (id g : ℕ) (es : List RouteEntry) (count removed k : ℕ)
    → entry (sweep id g es count removed).0 k ≡ cut id g (entry es k)
unfolding sweep
sweep-entry id g [] count removed k = refl
sweep-entry id g (e ∷ es) count removed zero = refl
sweep-entry id g (e ∷ es) count removed (suc k) =
    sweep-entry id g es (if on_interface id g e then count - 1 else count)
      (if on_interface id g e then add32 removed 1 else removed) k

-- For an interface other than 0, each slot afterwards is the slot before, made inactive exactly
-- where it was an active entry of that interface and of that generation (of any, for 0).
pub route_deactivate_interface-entry :
    (t : RouteTable) (interface_id generation k : ℕ)
    → interface_id ≢ 0
    → let before = entry t.entries k in
      entry (route_deactivate_interface t interface_id generation).0.entries k ≡ (
        if on_interface interface_id generation before
        then record before { active = false }
        else before)
unfolding route_deactivate_interface
route_deactivate_interface-entry t i g k ne = elim (Bool-cases (i == 0)) [
  | inl b ↦ absurd (ground arith)
  | inr b ↦ rw b (sweep-entry i g t.entries t.count 0 k)
]

cut-IsSound : (id g : ℕ) (e : RouteEntry) → IsSound e → IsSound (cut id g e)
cut-IsSound id g e s = elim (Bool-cases (on_interface id g e)) [
  | inl b ↦ rw b (λ z. absurd (ground arith))
  | inr b ↦ rw b s
]

cut-SameRoute : (id g : ℕ) (e f : RouteEntry) → SameRoute (cut id g e) (cut id g f) → SameRoute e f
cut-SameRoute id g e f = elim (Bool-cases (on_interface id g e)) [
  | inl b ↦ rw b (λ s. absurd (ground arith))
  | inr b ↦ rw b (elim (Bool-cases (on_interface id g f)) [
    | inl c ↦ rw c (λ s. absurd (ground arith))
    | inr c ↦ rw c (λ s. s)
  ])
]

-- `route_deactivate_interface` keeps every active entry sound and every route unique.
pub route_deactivate_interface-IsValid :
    {t : RouteTable} (interface_id generation : ℕ)
    → IsValid t
    → IsValid (route_deactivate_interface t interface_id generation).0
unfolding route_deactivate_interface
route_deactivate_interface-IsValid {t} i g v = elim (Bool-cases (i == 0)) [
  | inl b ↦ rw b v
  | inr b ↦ rw b (record {
    sound = λ k. rw (sweep-entry i g t.entries t.count 0 k) (cut-IsSound i g _ (v.sound k));
    unique = λ j k.
        rw (sweep-entry i g t.entries t.count 0 j, sweep-entry i g t.entries t.count 0 k)
          (λ s. v.unique j k (cut-SameRoute i g _ _ s));
  })
]
