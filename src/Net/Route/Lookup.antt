-- ===== src/Net/Route/Lookup.antt =====
-- `route_lookup` of src/net/route.c: the longest prefix, and the least metric among equals.
use mich_core.Base.{
  ℕ, ◌<◌, ◌≤◌, ◌≡◌, refl, ◌⊎◌, inl, inr, true, false, Option, none, some, List, [], ◌∷◌, arith,
  Elem, All, Bool-cases, ap, sym, ◌∙◌, subst, ◌↔◌,
}
use mathlib.Core.Bool.{false≢true}
use mich_core.Net.Route.{RouteEntry, RouteTable, covers, choose, scan, route_lookup}

-- `f` is no better than `e`: a shorter prefix, or the same with a metric at least as large.
abbrev pub NoBetter : RouteEntry → RouteEntry → Type 0
NoBetter e f =
    (f.prefix_length < e.prefix_length)
    ⊎ ((f.prefix_length ≡ e.prefix_length) × (e.metric ≤ f.metric))

abbrev pub Optimal : ℕ → List RouteEntry → RouteEntry → Type 0
Optimal destination es e = All (λ f. covers destination f ≡ true → NoBetter e f) es

-- What a scan that starts with `best` may return over `es`.
abbrev Scanned : ℕ → Option RouteEntry → List RouteEntry → Option RouteEntry → Type 0
Scanned destination best es none = (best ≡ none) × All (λ f. covers destination f ≡ false) es
Scanned destination best es (some e) =
    ((best ≡ some e) ⊎ (Elem e es × (covers destination e ≡ true)))
    × ((b : RouteEntry) → best ≡ some b → NoBetter e b)
    × Optimal destination es e

NoBetter-trans : (a b c : RouteEntry) → NoBetter a b → NoBetter b c → NoBetter a c
NoBetter-trans a b c p q = ground arith

NoBetter-refl : (a : RouteEntry) → NoBetter a a
NoBetter-refl a = inr (refl, omega arith)

choose-NoBetter_best :
    (o : Option RouteEntry) (x b : RouteEntry) → o ≡ some b → NoBetter (choose o x) b
choose-NoBetter_best none x b e = ground arith
choose-NoBetter_best (some c) x b e = ground arith

choose-NoBetter_new : (o : Option RouteEntry) (x : RouteEntry) → NoBetter (choose o x) x
choose-NoBetter_new none x = NoBetter-refl x
choose-NoBetter_new (some c) x = ground arith

choose-from : (o : Option RouteEntry) (x : RouteEntry) → (choose o x ≡ x) ⊎ (o ≡ some (choose o x))
choose-from none x = inl refl
choose-from (some c) x = ground arith

Scanned-hit :
    (d : ℕ) (o : Option RouteEntry) (x : RouteEntry) (es : List RouteEntry) (r : Option RouteEntry)
    → covers d x ≡ true
    → Scanned d (some (choose o x)) es r
    → Scanned d o (x ∷ es) r
Scanned-hit d o x es none c h = absurd (ground arith)
Scanned-hit d o x es (some e) c (from, best, rest) = (
  origin from,
  λ b q. NoBetter-trans e (choose o x) b (best (choose o x) refl) (choose-NoBetter_best o x b q),
  ((λ _. NoBetter-trans e (choose o x) x (best (choose o x) refl) (choose-NoBetter_new o x)), rest),
)
  where
    origin :
        (some (choose o x) ≡ some e) ⊎ (Elem e es × (covers d e ≡ true))
        → (o ≡ some e) ⊎ (Elem e (x ∷ es) × (covers d e ≡ true))
    origin (inl q) = elim (choose-from o x) [
      | inl new ↦ let ex : e ≡ x = ground arith in inr (inl ex, ap (covers d) ex ∙ c)
      | inr old ↦ inl (old ∙ q)
    ]
    origin (inr (m, cov)) = inr (inr m, cov)

Scanned-miss :
    (d : ℕ) (o : Option RouteEntry) (x : RouteEntry) (es : List RouteEntry) (r : Option RouteEntry)
    → covers d x ≡ false
    → Scanned d o es r
    → Scanned d o (x ∷ es) r
Scanned-miss d o x es none c h = (h.0, (c, h.1))
Scanned-miss d o x es (some e) c (inl q, best, rest) =
    (inl q, best, ((λ t. absurd (false≢true (sym c ∙ t))), rest))
Scanned-miss d o x es (some e) c (inr (m, cov), best, rest) =
    (inr (inr m, cov), best, ((λ t. absurd (false≢true (sym c ∙ t))), rest))

scan-Scanned : (d : ℕ) (o : Option RouteEntry) (es : List RouteEntry) → Scanned d o es (scan d o es)
unfolding scan
scan-Scanned d none [] = (refl, tt)
scan-Scanned d (some b) [] = (inl refl, (λ c q. ground (arith, NoBetter-refl b)), tt)
scan-Scanned d o (x ∷ es) = elim (Bool-cases (covers d x)) [
  | inl c ↦ rw c (
      Scanned-hit d o x es (scan d (some (choose o x)) es) c
        (scan-Scanned d (some (choose o x)) es))
  | inr c ↦ rw c (Scanned-miss d o x es (scan d o es) c (scan-Scanned d o es))
]

found-Optimal :
    (d : ℕ) (es : List RouteEntry) (r : Option RouteEntry) {e : RouteEntry}
    → Scanned d none es r
    → r ≡ some e
    → Elem e es × (covers d e ≡ true) × Optimal d es e
found-Optimal d es none h q = absurd (ground arith)
found-Optimal d es (some c) (inl n, best, rest) q = absurd (ground arith)
found-Optimal d es (some c) (inr (m, cov), best, rest) q =
    subst (λ e. Elem e es × (covers d e ≡ true) × Optimal d es e) (ground arith) (m, cov, rest)

missed-All :
    (d : ℕ) (es : List RouteEntry) (r : Option RouteEntry)
    → Scanned d none es r
    → r ≡ none
    → All (λ f. covers d f ≡ false) es
missed-All d es none h q = h.1
missed-All d es (some c) h q = absurd (ground arith)

-- An entry that `route_lookup` returns stands in the table, is active, covers the destination,
-- and no entry that covers it has a longer prefix, or the same prefix and a smaller metric.
pub route_lookup-Optimal :
    (t : RouteTable) (destination : ℕ) {e : RouteEntry}
    → route_lookup t destination ≡ some e
    → Elem e t.entries × (covers destination e ≡ true) × Optimal destination t.entries e
unfolding route_lookup
route_lookup-Optimal t destination =
    found-Optimal destination t.entries _ (scan-Scanned destination none t.entries)

covered-found :
    (d : ℕ) (es : List RouteEntry) → All (λ f. covers d f ≡ false) es → scan d none es ≡ none
unfolding scan
covered-found d [] h = refl
covered-found d (x ∷ es) h = rw (h.0) (covered-found d es h.1)

-- `route_lookup` finds nothing exactly when no active entry covers the destination.
pub route_lookup-none_iff :
    (t : RouteTable) (destination : ℕ)
    → (route_lookup t destination ≡ none) ↔ All (λ f. covers destination f ≡ false) t.entries
unfolding route_lookup
route_lookup-none_iff t destination = (
  missed-All destination t.entries _ (scan-Scanned destination none t.entries),
  covered-found destination t.entries,
)
