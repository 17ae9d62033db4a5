-- ===== src/Net/Pmtu/Expiry.antt =====
-- `pmtu_tick` of src/net/pmtu.c: which entries it takes out, its count, and the invariant.
use mich_core.Base.{
  ℕ, zero, suc, ◌+◌, ◌<◌, ◌≡◌, refl, ap, ◌∙◌, Bool, true, false, ◌&&◌, List, [], ◌∷◌, arith,
  if◌then◌else◌, length, get_or, add64, count_if, ◌%◌, ◌^◌,
}
use mich_core.Net.Pmtu.{
  PmtuEntry, PmtuCache, blank_entry, has_address4, entry, is_expired, pmtu_tick, tick_entries,
}
use mich_core.Net.Pmtu.Valid.{IsValid}

abbrev pub runs_out : ℕ → PmtuEntry → Bool
runs_out now e = e.active && is_expired now e

abbrev cut : ℕ → PmtuEntry → PmtuEntry
cut now e = if runs_out now e then record e { active = false } else e

tick_entries-entry :
    (now : ℕ) (es : List PmtuEntry) (x k : ℕ)
    → get_or (tick_entries now es x).0 k blank_entry ≡ cut now (get_or es k blank_entry)
unfolding tick_entries
tick_entries-entry now [] x k = refl
tick_entries-entry now (e ∷ es) x zero = refl
tick_entries-entry now (e ∷ es) x (suc k) =
    tick_entries-entry now es (if runs_out now e then add64 x 1 else x) k

tick_entries-counts :
    (now : ℕ) (es : List PmtuEntry) (x : ℕ)
    → x < 2 ^ 64
    → (length (tick_entries now es x).0 ≡ length es)
      × ((tick_entries now es x).1 ≡ (x + count_if (runs_out now) es) % 2 ^ 64)
unfolding tick_entries count_if
tick_entries-counts now [] x h = omega arith
tick_entries-counts now (e ∷ es) x h =
    ground (arith, tick_entries-counts now es (add64 x 1), tick_entries-counts now es x)

-- `pmtu_tick` sets the clock, makes exactly the active entries that have run out inactive, leaves
-- every other slot as it was, and adds their number to the 64-bit counter of expiries.
pub pmtu_tick_lem :
    (cache : PmtuCache) (now : ℕ)
    → cache.expired < 2 ^ 64
    → let cache' = pmtu_tick cache now in
      (cache'.now ≡ now)
      × ((k : ℕ)
          → entry cache' k ≡ (
              if runs_out now (entry cache k)
              then record (entry cache k) { active = false }
              else entry cache k))
      × (cache'.expired ≡ (cache.expired + count_if (runs_out now) cache.entries) % 2 ^ 64)
unfolding pmtu_tick
pmtu_tick_lem cache now h = (
  refl,
  tick_entries-entry now cache.entries cache.expired,
  (tick_entries-counts now cache.entries cache.expired h).1,
)

cut-active : (now : ℕ) (e : PmtuEntry) → (cut now e).active ≡ true → (cut now e ≡ e)
cut-active now e h = ground arith

cut-address4 :
    (now d : ℕ) (e : PmtuEntry) → has_address4 d (cut now e) ≡ true → has_address4 d e ≡ true
cut-address4 now d e h = ground arith

tick_entries-length :
    (now : ℕ) (es : List PmtuEntry) (x : ℕ) → length (tick_entries now es x).0 ≡ length es
unfolding tick_entries
tick_entries-length now [] x = refl
tick_entries-length now (e ∷ es) x =
    ap suc (tick_entries-length now es (if runs_out now e then add64 x 1 else x))

-- `pmtu_tick` keeps the invariant of the cache.
pub pmtu_tick-IsValid :
    {cache : PmtuCache} (now : ℕ) → IsValid cache → IsValid (pmtu_tick cache now)
unfolding pmtu_tick
pmtu_tick-IsValid {cache} now v = record {
  size = tick_entries-length now cache.entries cache.expired ∙ v.size;
  positive = λ i.
      rw (tick_entries-entry now cache.entries cache.expired i)
        (λ a. ground (arith, cut-active now (entry cache i) a, v.positive i));
  unique4 = λ d i j.
      rw
        (
          tick_entries-entry now cache.entries cache.expired i,
          tick_entries-entry now cache.entries cache.expired j,
        )
        (λ a b.
          v.unique4 d i j (cut-address4 now d (entry cache i) a)
            (cut-address4 now d (entry cache j) b));
}
