-- ===== src/Process/Pipe/Ring.antt =====
-- The byte ring of one pipe in src/process/posix_pipe.c, as a FIFO of bytes.
use mich_core.Base.{
  ℕ, zero, suc, ◌+◌, ◌-◌, ◌%◌, ◌<◌, ◌≤◌, ◌≡◌, ◌≢◌, refl, sym, ap, ◌∙◌, Bool, List, [], ◌∷◌, ◌++◌,
  arith, get_or, set, length, length-set, get_or-set_self, get_or-set_ne, add32, sub32, ◌^◌,
}
use mathlib.Core.List.{append-nil, append_assoc}

pub record PosixPipeState : Type 0 where
  pub ring : List ℕ
  pub tail : ℕ
  pub count : ℕ
  pub readers : ℕ
  pub writers : ℕ
  pub active : Bool

abbrev pub posix_pipe_buf : ℕ
posix_pipe_buf = 4096

unfoldable pub ring_free : PosixPipeState → ℕ
ring_free p = sub32 posix_pipe_buf p.count

-- The loop of `ring_put` from the index `head`.
unfoldable pub put_from : List ℕ → ℕ → List ℕ → List ℕ
put_from ring head [] = ring
put_from ring head (x ∷ xs) = put_from (set ring head x) (add32 head 1 % posix_pipe_buf) xs

-- The `length` of the source is that of the list.
unfoldable pub ring_put : PosixPipeState → List ℕ → PosixPipeState
ring_put p source = record p {
  ring = put_from p.ring (add32 p.tail p.count % posix_pipe_buf) source;
  count = add32 p.count (length source);
}

-- The loop of `ring_take`: the bytes and the index that it ends at.
unfoldable pub take_from : List ℕ → ℕ → ℕ → List ℕ × ℕ
take_from ring tail zero = ([], tail)
take_from ring tail (suc n) =
    let (rest, end) = take_from ring (add32 tail 1 % posix_pipe_buf) n in
    (get_or ring tail 0 ∷ rest, end)

unfoldable pub ring_take : PosixPipeState → ℕ → PosixPipeState × List ℕ
ring_take p n =
    let (bytes, tail) = take_from p.ring p.tail n in
    (record p { tail = tail; count = sub32 p.count n }, bytes)

pub record IsValid (p : PosixPipeState) : Type 0 where
  pub size : length p.ring ≡ posix_pipe_buf
  pub tail_in : p.tail < posix_pipe_buf
  pub count_in : p.count ≤ posix_pipe_buf

-- The `n` bytes from index `t` on, going round at the end of the ring.
abbrev pub window : List ℕ → ℕ → ℕ → List ℕ
window ring t zero = []
window ring t (suc n) = get_or ring t 0 ∷ window ring ((t + 1) % 4096) n

abbrev pub contents : PosixPipeState → List ℕ
contents p = window p.ring p.tail p.count

pub ring_free-valid : {p : PosixPipeState} → IsValid p → ring_free p ≡ posix_pipe_buf - p.count
unfolding ring_free
ring_free-valid v = omega arith

round_ne : (h k : ℕ) → h < 4096 → suc k < 4096 → (h + suc k) % 4096 ≢ h
round_ne h k a b = omega arith

window-set :
    (ring : List ℕ) (x n h i : ℕ)
    → length ring ≡ 4096
    → h < 4096
    → n < 4096
    → i ≡ (h + n) % 4096
    → window (set ring i x) h (suc n) ≡ window ring h n ++ (x ∷ [])
window-set ring x zero h i hs hh hn e =
    let ih : i ≡ h = omega arith in rw (ih, get_or-set_self ring h x 0 (omega arith)) refl
window-set ring x (suc n) h i hs hh hn e =
    let other : i ≢ h = omega (arith, round_ne h n hh hn) in
    rw
      (
        get_or-set_ne ring x 0 other,
        window-set ring x n ((h + 1) % 4096) i hs (omega arith) (omega arith) (omega arith),
      )
      refl

put_from-window :
    (xs ring : List ℕ) (h n i : ℕ)
    → length ring ≡ 4096
    → h < 4096
    → n + length xs ≤ 4096
    → i ≡ (h + n) % 4096
    → (length (put_from ring i xs) ≡ 4096)
      × (window (put_from ring i xs) h (n + length xs) ≡ window ring h n ++ xs)
unfolding put_from
put_from-window [] ring h n i hs hh hn e =
    let same : n + 0 ≡ n = omega arith in (hs, rw (same, append-nil) refl)
put_from-window (x ∷ xs) ring h n i hs hh hn e =
    let (a, b) =
      put_from-window xs (set ring i x) h (suc n) ((i + 1) % 2 ^ 32 % 4096)
        (length-set ring i x ∙ hs) hh (omega arith) (omega arith) in
    let more : n + suc (length xs) ≡ suc n + length xs = omega arith in
    (
      a,
      rw more (
          b
          ∙ ap (λ w. w ++ xs) (window-set ring x n h i hs hh (omega arith) e)
          ∙ append_assoc (window ring h n) (x ∷ []) xs),
    )

-- `ring_put` of bytes that fit appends them, and keeps the ring valid.
pub ring_put_lem :
    {p : PosixPipeState} (source : List ℕ)
    → IsValid p
    → p.count + length source ≤ posix_pipe_buf
    → IsValid (ring_put p source)
      × (contents (ring_put p source) ≡ contents p ++ source)
      × ((ring_put p source).count ≡ p.count + length source)
unfolding ring_put
ring_put_lem {p} source v h =
    let (a, b) =
      put_from-window source p.ring p.tail p.count ((p.tail + p.count) % 2 ^ 32 % 4096) v.size
        v.tail_in h (omega arith) in
    let n : (p.count + length source) % 2 ^ 32 ≡ p.count + length source = omega arith in
    (record { size = a; tail_in = v.tail_in; count_in = omega arith }, rw n b, n)

take_from-window :
    (ring : List ℕ) (t n m : ℕ)
    → t < 4096
    → let (bytes, end) = take_from ring t n in
      (end < 4096) × (window ring t (n + m) ≡ bytes ++ window ring end m) × (length bytes ≡ n)
unfolding take_from
take_from-window ring t zero m h =
    let same : 0 + m ≡ m = omega arith in (h, ap (window ring t) same, refl)
take_from-window ring t (suc n) m h =
    let next : (t + 1) % 2 ^ 32 % 4096 ≡ (t + 1) % 4096 = omega arith in
    let more : suc n + m ≡ suc (n + m) = omega arith in
    let (a, b, c) = take_from-window ring ((t + 1) % 4096) n m (omega arith) in
    rw (next, more) (a, ap (◌∷◌ (get_or ring t 0)) b, ap suc c)

-- `ring_take` of bytes that are there takes them from the front, and keeps the ring valid.
pub ring_take_lem :
    {p : PosixPipeState} (n : ℕ)
    → IsValid p
    → n ≤ p.count
    → let (p', bytes) = ring_take p n in
      IsValid p'
      × (contents p ≡ bytes ++ contents p')
      × (length bytes ≡ n)
      × (p'.count + n ≡ p.count)
unfolding ring_take
ring_take_lem {p} n v h =
    let left : sub32 p.count n ≡ p.count - n = omega arith in
    let whole : n + (p.count - n) ≡ p.count = omega arith in
    let (a, b, c) = take_from-window p.ring p.tail n (p.count - n) v.tail_in in
    rw left (
      record { size = v.size; tail_in = a; count_in = omega arith },
      ap (window p.ring p.tail) (sym whole) ∙ b,
      c,
      omega arith,
    )
