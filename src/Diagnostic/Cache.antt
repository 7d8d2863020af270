-- ===== src/Diagnostic/Cache.antt =====
-- internal/diagnostic/cache.go: the cache of one request, which goroutines call at the same time. What
-- a load gives, the object and the error, is one value. A call is two steps where it finds nothing:
-- the mutex is free while it loads, so that other calls look and store in between.
use kube_sre_mcp.Prelude.{
  String, Bool, Option, none, some, List, [], ◌∷◌, ◌++◌, ◌≡◌, if◌then◌else◌, map,
}
use kube_sre_mcp.Prelude.Map.{StringMap, lookup, insert}
use kube_sre_mcp.Prelude.Text.{join}
pub mod Answers

-- what `load` returns, and whether the context is then cancelled or the error is a timeout
pub record Load (V : Type 0) : Type 0 where
  pub value : V
  pub transient : Bool

-- cacheKey
unfoldable pub cache_key : List String → String
unfolding join
cache_key parts = join "|" parts

-- a call of get, with what its own load gives if it is made
pub record Call (V : Type 0) : Type 0 where
  pub key : String
  pub load : Load V

-- how far a call has come
pub data Progress (V : Type 0) : Type 0 where
  waiting loading : Progress V
  answered : V → Progress V

pub record Caller (V : Type 0) : Type 0 where
  pub call : Call V
  pub progress : Progress V

module _ {V : Type 0} where
  -- get on a nil cache
  unfoldable pub get_uncached : Call V → V
  get_uncached c = c.load.value

  -- get up to the first Unlock: an answer, or the call goes on to load
  unfoldable pub look : StringMap V → Call V → Progress V
  unfolding lookup
  look m c = elim (lookup c.key m) as (λ _. Progress V) [
    | some held ↦ answered held
    | none ↦ loading
  ]

  -- get behind its load: what the map then holds; the answer is what was loaded
  unfoldable pub store_loaded : StringMap V → Call V → StringMap V
  unfolding insert
  store_loaded m c = if c.load.transient then m else insert c.key c.load.value m

-- the map of a cache and the calls that are made of it
pub record Calls (V : Type 0) : Type 0 where
  pub held : StringMap V
  pub callers : List (Caller V)

-- newAPICache, before any call
abbrev pub start_calls : {V : Type 0} → List (Call V) → Calls V
start_calls calls = record {
  held = [];
  callers = map (λ c. record { call = c; progress = waiting }) calls;
}

-- a call that has not begun looks; a call that has loaded stores and answers
pub data Step {V : Type 0} : Calls V → Calls V → Type 0 where
  looks :
      (s : Calls V) (xs : List (Caller V)) (c : Call V) (ys : List (Caller V))
      → s.callers ≡ xs ++ record { call = c; progress = waiting } ∷ ys
      → Step s (record s { callers = xs ++ record { call = c; progress = look s.held c } ∷ ys })
  settles :
      (s : Calls V) (xs : List (Caller V)) (c : Call V) (ys : List (Caller V))
      → s.callers ≡ xs ++ record { call = c; progress = loading } ∷ ys
      → Step s (record {
        held = store_loaded s.held c;
        callers = xs ++ record { call = c; progress = answered c.load.value } ∷ ys;
      })

-- steps in any order
pub data Run {V : Type 0} (s : Calls V) : Calls V → Type 0 where
  stop : Run s s
  next : (q r : Calls V) → Run s q → Step q r → Run s r
