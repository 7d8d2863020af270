-- ===== src/Diagnostic/Bounded/Ends.antt =====
-- internal/diagnostic/bounded.go: how long a run is, and where it ends.
use kube_sre_mcp.Prelude.{
  ℕ, zero, suc, ◌+◌, ◌*◌, ◌<◌, ◌≤◌, Bool, true, false, List, [], ◌∷◌, ◌++◌, ◌≡◌, ◌⊎◌, refl, inl,
  inr, ap, length, Bool-cases, if◌then◌else◌, arith,
}
use kube_sre_mcp.Prelude.Int.{ℤ, pos, negsuc, pos_part}
use kube_sre_mcp.Diagnostic.Bounded.{
  Worker, waiting, running, finished, skipped, Pool, is_running, is_waiting, count, all_waiting,
  channel_size, start_pool, WorkerStep, Step, work, begin, end, skip, cancel, Run, stop, next,
}
use kube_sre_mcp.Diagnostic.Bounded.Runs.{count-append, is_skipped, runs-IsBounded}

abbrev pub is_finished : Worker → Bool
is_finished finished = true
is_finished _ = false

-- the steps that are left at most
work_left : Pool → ℕ
work_left p =
    2 * count is_waiting p.workers + count is_running p.workers + (if p.cancelled then 0 else 1)

Step-work_left : {p q : Pool} → Step p q → suc (work_left q) ≤ work_left p
unfolding work_left
Step-work_left (work (begin p xs ys e c)) = omega (
  arith,
  ap (count is_waiting) e,
  ap (count is_running) e,
  count-append is_waiting xs waiting ys,
  count-append is_waiting xs running ys,
  count-append is_running xs waiting ys,
  count-append is_running xs running ys,
)
Step-work_left (work (end p xs ys e)) = omega (
  arith,
  ap (count is_waiting) e,
  ap (count is_running) e,
  count-append is_waiting xs finished ys,
  count-append is_waiting xs running ys,
  count-append is_running xs finished ys,
  count-append is_running xs running ys,
)
Step-work_left (work (skip p xs ys e c d)) = omega (
  arith,
  ap (count is_waiting) e,
  ap (count is_running) e,
  count-append is_waiting xs waiting ys,
  count-append is_waiting xs skipped ys,
  count-append is_running xs waiting ys,
  count-append is_running xs skipped ys,
)
Step-work_left (cancel p c) = rw c (omega arith)

Run-work_left : (p : Pool) {k : ℕ} {q : Pool} → Run p k q → k + work_left q ≤ work_left p
Run-work_left p stop = omega arith
Run-work_left p (next k q r run s) = omega (arith, Run-work_left p run, Step-work_left s)

all_waiting-work :
    (n : ℕ) → (count is_waiting (all_waiting n) ≡ n) × (count is_running (all_waiting n) ≡ 0)
all_waiting-work zero = (refl, refl)
all_waiting-work (suc n) = (ap suc (all_waiting-work n).0, (all_waiting-work n).1)

start_pool-work_left : (max n : ℤ) (c : Bool) → work_left (start_pool max n c) ≤ 2 * pos_part n + 1
unfolding start_pool work_left
start_pool-work_left max (pos n) c = ground (arith, all_waiting-work n)
start_pool-work_left max (negsuc n) c = ground arith

-- a list with some worker of a kind, taken apart at one
is_running-eq : (w : Worker) → is_running w ≡ true → w ≡ running
is_running-eq running h = refl
is_running-eq waiting h = absurd (ground arith)
is_running-eq finished h = absurd (ground arith)
is_running-eq skipped h = absurd (ground arith)

is_waiting-eq : (w : Worker) → is_waiting w ≡ true → w ≡ waiting
is_waiting-eq waiting h = refl
is_waiting-eq running h = absurd (ground arith)
is_waiting-eq finished h = absurd (ground arith)
is_waiting-eq skipped h = absurd (ground arith)

count-cut :
    (p : Worker → Bool) (w : Worker) (ws : List Worker)
    → ((v : Worker) → p v ≡ true → v ≡ w)
    → (count p ws ≡ 0) ⊎ ((xs : List Worker) × (ys : List Worker) × (ws ≡ xs ++ w ∷ ys))
count-cut p w [] f = inl refl
count-cut p w (v ∷ ws) f = elim (Bool-cases (p v)) [
  | inl e ↦ inr ([], ws, ap (λ u. u ∷ ws) (f v e))
  | inr e ↦ elim (count-cut p w ws f) [
    | inl z ↦ inl (ground arith)
    | inr (xs, ys, q) ↦ inr (v ∷ xs, ys, ap (λ us. v ∷ us) q)
  ]
]

channel_size-positive : (max : ℤ) → 0 < channel_size max
unfolding channel_size
channel_size-positive (pos zero) = omega arith
channel_size-positive (pos (suc n)) = omega arith
channel_size-positive (negsuc n) = omega arith

-- the four kinds together
count-total :
    (ws : List Worker)
    → count is_waiting ws + count is_running ws + count is_finished ws + count is_skipped ws
      ≡ length ws
count-total [] = omega arith
count-total (waiting ∷ ws) = omega (arith, count-total ws)
count-total (running ∷ ws) = omega (arith, count-total ws)
count-total (finished ∷ ws) = omega (arith, count-total ws)
count-total (skipped ∷ ws) = omega (arith, count-total ws)

-- Every run of runBounded has at most twice as many steps as there are functions, and one for the
-- cancellation; and where it has come, either every function has returned or been skipped, or some
-- worker can make a step of its own, without a cancellation.
pub goroutines_end :
    (max n : ℤ) (c : Bool) (k : ℕ) (q : Pool)
    → Run (start_pool max n c) k q
    → (k ≤ 2 * pos_part n + 1)
      × ((count is_finished q.workers + count is_skipped q.workers ≡ pos_part n)
          ⊎ ((r : Pool) × WorkerStep q r))
goroutines_end max n c k q run =
    let (bounded, limit) = runs-IsBounded max n c k q run in
    (
      omega (arith, Run-work_left (start_pool max n c) run, start_pool-work_left max n c),
      elim (count-cut is_running running q.workers is_running-eq) [
        | inr (xs, ys, e) ↦ inr (_, end q xs ys e)
        | inl none_run ↦ elim (count-cut is_waiting waiting q.workers is_waiting-eq) [
          | inr (xs, ys, e) ↦
              inr (_, begin q xs ys e (omega (arith, none_run, limit, channel_size-positive max)))
          | inl none_wait ↦
              inl (omega (arith, none_run, none_wait, count-total q.workers, bounded.0))
        ]
      ],
    )
