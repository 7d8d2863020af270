-- ===== src/Diagnostic/Bounded/Runs.antt =====
-- internal/diagnostic/bounded.go: what holds in every run.
use kube_sre_mcp.Prelude.{
  ℕ, zero, suc, ◌+◌, ◌≤◌, Bool, true, false, List, [], ◌∷◌, ◌++◌, ◌≡◌, ◌≢◌, ◌⊎◌, refl, sym, inl,
  inr, ap, ◌∙◌, length, if◌then◌else◌, arith,
}
use kube_sre_mcp.Prelude.Int.{ℤ, pos, negsuc, pos_part}
use kube_sre_mcp.Diagnostic.Bounded.{
  Worker, waiting, running, finished, skipped, Pool, is_running, count, all_waiting, channel_size,
  start_pool, Step, work, begin, end, skip, cancel, Run, stop, next,
}

pub count-append :
    (p : Worker → Bool) (xs : List Worker) (w : Worker) (ys : List Worker)
    → count p (xs ++ w ∷ ys) ≡ count p xs + (if p w then suc (count p ys) else count p ys)
count-append p [] w ys = omega arith
count-append p (x ∷ xs) w ys = ground (arith, count-append p xs w ys)

length-middle :
    (xs : List Worker) (w : Worker) (ys : List Worker)
    → length (xs ++ w ∷ ys) ≡ length xs + suc (length ys)
length-middle [] w ys = omega arith
length-middle (x ∷ xs) w ys = omega (arith, length-middle xs w ys)

abbrev pub is_skipped : Worker → Bool
is_skipped skipped = true
is_skipped _ = false

-- what every step keeps: the number of workers, of those that run, and of those that are skipped
abbrev pub IsBounded : ℕ → Pool → Type 0
IsBounded n p =
    (length p.workers ≡ n)
    × (count is_running p.workers ≤ p.limit)
    × ((count is_skipped p.workers ≡ 0) ⊎ ((p.cancelled ≡ true) × (p.direct ≡ false)))

-- a step that skips no worker keeps what is known of the skipped ones
kept_skips :
    {before a b after : ℕ} {P : Type 0}
    → before ≡ a
    → a ≡ b
    → after ≡ b
    → (before ≡ 0) ⊎ P
    → (after ≡ 0) ⊎ P
kept_skips e f g (inl z) = inl (omega arith)
kept_skips e f g (inr h) = inr h

Step-IsBounded : (n : ℕ) {p q : Pool} → Step p q → IsBounded n p → IsBounded n q
Step-IsBounded n (work (begin p xs ys e c)) (l, r, s) = (
  omega (arith, ap length e, length-middle xs waiting ys, length-middle xs running ys),
  omega (
    arith,
    ap (count is_running) e,
    count-append is_running xs waiting ys,
    count-append is_running xs running ys,
  ),
  kept_skips (ap (count is_skipped) e) (count-append is_skipped xs waiting ys)
      (count-append is_skipped xs running ys) s,
)
Step-IsBounded n (work (end p xs ys e)) (l, r, s) = (
  omega (arith, ap length e, length-middle xs finished ys, length-middle xs running ys),
  omega (
    arith,
    ap (count is_running) e,
    count-append is_running xs finished ys,
    count-append is_running xs running ys,
  ),
  kept_skips (ap (count is_skipped) e) (count-append is_skipped xs running ys)
      (count-append is_skipped xs finished ys) s,
)
Step-IsBounded n (work (skip p xs ys e c d)) (l, r, s) = (
  omega (arith, ap length e, length-middle xs waiting ys, length-middle xs skipped ys),
  omega (
    arith,
    ap (count is_running) e,
    count-append is_running xs waiting ys,
    count-append is_running xs skipped ys,
  ),
  inr (c, d),
)
Step-IsBounded n (cancel p c) (l, r, inl s) = (l, r, inl s)
Step-IsBounded n (cancel p c) (l, r, inr s) = (l, r, inr (refl, s.1))

all_waiting-length : (n : ℕ) → length (all_waiting n) ≡ n
all_waiting-length zero = refl
all_waiting-length (suc n) = ap suc (all_waiting-length n)

all_waiting-count :
    (n : ℕ) → (count is_running (all_waiting n) ≡ 0) × (count is_skipped (all_waiting n) ≡ 0)
all_waiting-count zero = (refl, refl)
all_waiting-count (suc n) = all_waiting-count n

start_pool-IsBounded : (max n : ℤ) (c : Bool) → IsBounded (pos_part n) (start_pool max n c)
unfolding start_pool
start_pool-IsBounded max (pos n) c =
    (all_waiting-length n, omega (arith, (all_waiting-count n).0), inl (all_waiting-count n).1)
start_pool-IsBounded max (negsuc n) c = (refl, omega arith, inl refl)

Step-limit : {p q : Pool} → Step p q → q.limit ≡ p.limit
Step-limit (work (begin p xs ys e c)) = refl
Step-limit (work (end p xs ys e)) = refl
Step-limit (work (skip p xs ys e c d)) = refl
Step-limit (cancel p c) = refl

start_pool-limit : (max n : ℤ) (c : Bool) → (start_pool max n c).limit ≡ channel_size max
unfolding start_pool
start_pool-limit max (pos n) c = refl
start_pool-limit max (negsuc n) c = refl

Run-IsBounded :
    (n : ℕ) (p : Pool) {k : ℕ} {q : Pool}
    → IsBounded n p
    → Run p k q
    → IsBounded n q × (q.limit ≡ p.limit)
Run-IsBounded n p h stop = (h, refl)
Run-IsBounded n p h (next k q r run s) =
    let (b, l) = Run-IsBounded n p h run in (Step-IsBounded n s b, Step-limit s ∙ l)

pub runs-IsBounded :
    (max n : ℤ) (c : Bool) (k : ℕ) (q : Pool)
    → Run (start_pool max n c) k q
    → IsBounded (pos_part n) q × (q.limit ≡ channel_size max)
runs-IsBounded max n c k q run =
    let (b, l) =
      Run-IsBounded (pos_part n) (start_pool max n c) (start_pool-IsBounded max n c) run in
    (b, l ∙ start_pool-limit max n c)

-- the number of places: what is configured if that is positive, and else 8
abbrev pub IsCapacity : ℤ → ℕ → Type 0
IsCapacity max l = ((max ≡ pos l) × (1 ≤ l)) ⊎ (((k : ℕ) → max ≢ pos (suc k)) × (l ≡ 8))

channel_size-IsCapacity : (max : ℤ) → IsCapacity max (channel_size max)
unfolding channel_size
channel_size-IsCapacity (pos zero) = inr (λ k e. cc, refl)
channel_size-IsCapacity (pos (suc k)) = inl (refl, omega arith)
channel_size-IsCapacity (negsuc k) = inr (λ j e. cc, refl)

start_pool-direct : (max : ℤ) (c : Bool) → (start_pool max (pos 1) c).direct ≡ true
unfolding start_pool
start_pool-direct max c = refl

Step-direct : {p q : Pool} → Step p q → q.direct ≡ p.direct
Step-direct (work (begin p xs ys e c)) = refl
Step-direct (work (end p xs ys e)) = refl
Step-direct (work (skip p xs ys e c d)) = refl
Step-direct (cancel p c) = refl

Run-direct : {p q : Pool} {k : ℕ} → Run p k q → q.direct ≡ p.direct
Run-direct stop = refl
Run-direct (next k q r run s) = Step-direct s ∙ Run-direct run

-- a pool for one function calls it directly
not_single : (max n : ℤ) (c : Bool) → (start_pool max n c).direct ≡ false → n ≢ pos 1
not_single max n c d e = ground (arith, start_pool-direct max c)

-- However the goroutines of runBounded interleave, and whenever the context is cancelled, there is one
-- worker for each function, the calls that run at a time are at most as many as the configured
-- number, or 8 where that is not positive, and none is skipped unless the context is cancelled and
-- the number of functions is not one.
pub goroutines-IsBounded :
    (max n : ℤ) (c : Bool) (k : ℕ) (q : Pool)
    → Run (start_pool max n c) k q
    → (length q.workers ≡ pos_part n)
      × (count is_running q.workers ≤ q.limit)
      × IsCapacity max q.limit
      × ((count is_skipped q.workers ≡ 0) ⊎ ((q.cancelled ≡ true) × (n ≢ pos 1)))
goroutines-IsBounded max n c k q run =
    let ((l, r, s), places) = runs-IsBounded max n c k q run in
    (
      l,
      r,
      rw places (channel_size-IsCapacity max),
      elim s [
        | inl z ↦ inl z
        | inr (stopped, d) ↦ inr (stopped, not_single max n c (sym (Run-direct run) ∙ d))
      ],
    )
