-- ===== src/Diagnostic/Bounded.antt =====
-- internal/diagnostic/bounded.go: runBounded. A goroutine is a worker that waits for a place in the
-- channel `sem`; the scheduler and the context choose the steps. A worker that is not yet spawned
-- counts as waiting.
use kube_sre_mcp.Prelude.{
  ℕ, zero, suc, ◌<◌, Bool, true, false, List, [], ◌∷◌, ◌++◌, ◌≡◌, eqb, if◌then◌else◌,
}
use kube_sre_mcp.Prelude.Int.{ℤ, pos}
pub mod Runs
pub mod Ends

pub data Worker : Type 0 where
  waiting running finished skipped : Worker

-- `direct` says that the caller runs the only function itself
pub record Pool : Type 0 where
  pub limit : ℕ
  pub direct : Bool
  pub cancelled : Bool
  pub workers : List Worker

abbrev pub is_running : Worker → Bool
is_running running = true
is_running _ = false

abbrev pub is_waiting : Worker → Bool
is_waiting waiting = true
is_waiting _ = false

abbrev pub count : (Worker → Bool) → List Worker → ℕ
count p [] = 0
count p (w ∷ ws) = let rest = count p ws in if p w then suc rest else rest

abbrev pub all_waiting : ℕ → List Worker
all_waiting zero = []
all_waiting (suc n) = waiting ∷ all_waiting n

-- the size of the channel
unfoldable pub channel_size : ℤ → ℕ
channel_size (pos (suc n)) = suc n
channel_size _ = 8

-- the pool with which runBounded starts, for `n` functions; nothing is to do where `n` is 0 or less
unfoldable pub start_pool : ℤ → ℤ → Bool → Pool
unfolding channel_size
start_pool max (pos n) cancelled = record {
  limit = channel_size max;
  direct = eqb n 1;
  cancelled = cancelled;
  workers = all_waiting n;
}
start_pool max _ cancelled = record {
  limit = channel_size max;
  direct = false;
  cancelled = cancelled;
  workers = [];
}

-- A worker takes a place and calls the function; the function returns and the worker gives its place
-- back; a worker of a cancelled context gives up. A worker that has a place and does not call the
-- function yet, or no longer, counts as running, so that at most as many calls are made at a time as
-- workers run.
pub data WorkerStep : Pool → Pool → Type 0 where
  begin :
      (p : Pool) (xs ys : List Worker)
      → p.workers ≡ xs ++ waiting ∷ ys
      → count is_running p.workers < p.limit
      → WorkerStep p (record p { workers = xs ++ running ∷ ys })
  end :
      (p : Pool) (xs ys : List Worker)
      → p.workers ≡ xs ++ running ∷ ys
      → WorkerStep p (record p { workers = xs ++ finished ∷ ys })
  skip :
      (p : Pool) (xs ys : List Worker)
      → p.workers ≡ xs ++ waiting ∷ ys
      → p.cancelled ≡ true
      → p.direct ≡ false
      → WorkerStep p (record p { workers = xs ++ skipped ∷ ys })

-- a worker makes a step, or the context is cancelled
pub data Step : Pool → Pool → Type 0 where
  work : {p q : Pool} → WorkerStep p q → Step p q
  cancel : (p : Pool) → p.cancelled ≡ false → Step p (record p { cancelled = true })

-- a run with its number of steps
pub data Run (p : Pool) : ℕ → Pool → Type 0 where
  stop : Run p 0 p
  next : (k : ℕ) (q r : Pool) → Run p k q → Step q r → Run p (suc k) r
