-- ===== src/Diagnostic/Cache/Answers.antt =====
-- internal/diagnostic/cache.go: what the calls of the cache answer, however they interleave.
use kube_sre_mcp.Prelude.{
  String, true, false, Option, none, some, List, [], ◌∷◌, ◌++◌, ◌==◌, ◌≡◌, ◌⊎◌, refl, inl, inr,
  is_some, All, Some, Bool-cases, eq_iff, arith,
}
use kube_sre_mcp.Prelude.Map.{StringMap, lookup, lookup-insert}
use kube_sre_mcp.Diagnostic.Cache.{
  Call, Progress, waiting, loading, answered, Caller, look, store_loaded, Calls, start_calls, Step,
  looks, settles, Run, stop, next,
}

module _ {A : Type 0} (P : A → Type 0) where
  All-middle : (xs : List A) (a : A) (ys : List A) → All P (xs ++ a ∷ ys) → P a
  All-middle [] a ys h = h.0
  All-middle (x ∷ xs) a ys h = All-middle xs a ys h.1

  All-replace :
      (xs : List A) (a b : A) (ys : List A) → P b → All P (xs ++ a ∷ ys) → All P (xs ++ b ∷ ys)
  All-replace [] a b ys p h = (p, h.1)
  All-replace (x ∷ xs) a b ys p h = (h.0, All-replace xs a b ys p h.1)

All-weaken :
    {A : Type 0} (P Q : A → Type 0) (xs : List A) → ((a : A) → P a → Q a) → All P xs → All Q xs
All-weaken P Q [] k h = tt
All-weaken P Q (x ∷ xs) k h = (k x h.0, All-weaken P Q xs k h.1)

Some-weaken :
    {A : Type 0} (P Q : A → Type 0) (xs : List A) → ((a : A) → P a → Q a) → Some P xs → Some Q xs
Some-weaken P Q [] k s = s
Some-weaken P Q (x ∷ xs) k (inl p) = inl (k x p)
Some-weaken P Q (x ∷ xs) k (inr s) = inr (Some-weaken P Q xs k s)

module _ {V : Type 0} where
  -- one of the calls is for the key, and its load gives this value and is neither timed out nor
  -- cancelled
  abbrev pub IsLoaded : List (Call V) → String → V → Type 0
  IsLoaded calls key v =
      Some (λ c. (c.key ≡ key) × (c.load.transient ≡ false) × (c.load.value ≡ v)) calls

  -- An answer is what the call itself loads, or what a call for the same key loaded. Behind an answer
  -- to a call whose own load is neither timed out nor cancelled, the cache holds its key.
  abbrev pub IsAnswer : List (Call V) → StringMap V → Call V → Progress V → Type 0
  unfolding lookup
  IsAnswer calls m c waiting = Unit
  IsAnswer calls m c loading = Unit
  IsAnswer calls m c (answered v) =
      ((v ≡ c.load.value) ⊎ IsLoaded calls c.key v)
      × (c.load.transient ≡ false → is_some (lookup c.key m) ≡ true)

  -- what is known of a caller
  abbrev IsGood : List (Call V) → StringMap V → Caller V → Type 0
  unfolding lookup
  IsGood calls m w = Some (λ d. d ≡ w.call) calls × IsAnswer calls m w.call w.progress

  Holds : List (Call V) → StringMap V → Type 0
  unfolding lookup
  Holds calls m = (key : String) (v : V) → lookup key m ≡ some v → IsLoaded calls key v

  -- the cache keeps every key
  abbrev Keeps : StringMap V → StringMap V → Type 0
  unfolding lookup
  Keeps m m' = (key : String) → is_some (lookup key m) ≡ true → is_some (lookup key m') ≡ true

  IsAnswer-later :
      (calls : List (Call V)) (m m' : StringMap V) (c : Call V) (p : Progress V)
      → Keeps m m'
      → IsAnswer calls m c p
      → IsAnswer calls m' c p
  unfolding lookup
  IsAnswer-later calls m m' c waiting k h = tt
  IsAnswer-later calls m m' c loading k h = tt
  IsAnswer-later calls m m' c (answered v) k h = (h.0, λ t. k c.key (h.1 t))

  -- what a look gives
  look-IsAnswer :
      (calls : List (Call V)) (m : StringMap V) (c : Call V)
      → Holds calls m
      → IsAnswer calls m c (look m c)
  unfolding look lookup Holds
  look-IsAnswer calls m c h = go (lookup c.key m) refl
    where
      go :
          (o : Option V)
          → lookup c.key m ≡ o
          → IsAnswer calls m c
              (elim o as (λ _. Progress V) [ some held ↦ answered held | none ↦ loading ])
      go none e = tt
      go (some v) e = (inr (h c.key v e), λ _. rw e refl)

  store_loaded-Keeps : (m : StringMap V) (c : Call V) → Keeps m (store_loaded m c)
  unfolding store_loaded lookup
  store_loaded-Keeps m c key h = ground (arith, lookup-insert c.key key c.load.value m)

  store_loaded-stable :
      (m : StringMap V) (c : Call V)
      → c.load.transient ≡ false
      → is_some (lookup c.key (store_loaded m c)) ≡ true
  unfolding store_loaded lookup
  store_loaded-stable m c t =
      ground (arith, lookup-insert c.key c.key c.load.value m, eq_iff c.key c.key)

  store_loaded-Holds :
      (calls : List (Call V)) (m : StringMap V) (c : Call V)
      → Some (λ d. d ≡ c) calls
      → Holds calls m
      → Holds calls (store_loaded m c)
  unfolding store_loaded lookup Holds
  store_loaded-Holds calls m c s h key v e = elim (Bool-cases c.load.transient) [
    | inl t ↦ h key v (ground arith)
    | inr t ↦ elim (Bool-cases (c.key == key)) [
      | inl k ↦
          Some-weaken _ _ calls
            (λ d q.
              rw q
                ((eq_iff c.key key).0 k, t, ground (arith, lookup-insert c.key key c.load.value m)))
            s
      | inr k ↦ h key v (ground (arith, lookup-insert c.key key c.load.value m))
    ]
  ]

  abbrev IsSound : List (Call V) → Calls V → Type 0
  IsSound calls s = Holds calls s.held × All (IsGood calls s.held) s.callers

  Step-IsSound :
      (calls : List (Call V)) {s t : Calls V} → Step s t → IsSound calls s → IsSound calls t
  unfolding lookup
  Step-IsSound calls (looks s xs c ys e) (h, a) =
      let b = rw e at a in
      let known = All-middle (IsGood calls s.held) xs _ ys b in
      (h, All-replace (IsGood calls s.held) xs _ _ ys (known.0, look-IsAnswer calls s.held c h) b)
  Step-IsSound calls (settles s xs c ys e) (h, a) =
      let m' = store_loaded s.held c in
      let b =
        All-weaken (IsGood calls s.held) (IsGood calls m') _
          (λ w g. (
            g.0,
            IsAnswer-later calls s.held m' w.call w.progress (store_loaded-Keeps s.held c) g.1,
          ))
          (rw e at a) in
      let known = All-middle (IsGood calls m') xs _ ys b in
      (
        store_loaded-Holds calls s.held c known.0 h,
        All-replace (IsGood calls m') xs _ _ ys (known.0, (inl refl, store_loaded-stable s.held c))
            b,
      )

  start-IsGood :
      (calls cs : List (Call V))
      → All (λ c. Some (λ d. d ≡ c) calls) cs
      → All (IsGood calls []) (start_calls cs).callers
  unfolding lookup
  start-IsGood calls [] h = tt
  start-IsGood calls (c ∷ cs) h = ((h.0, tt), start-IsGood calls cs h.1)

  listed_members : (cs : List (Call V)) → All (λ c. Some (λ d. d ≡ c) cs) cs
  listed_members [] = tt
  listed_members (c ∷ cs) = (inl refl, All-weaken _ _ cs (λ d s. inr s) (listed_members cs))

  empty-Holds : (calls : List (Call V)) → Holds calls []
  unfolding Holds lookup
  empty-Holds calls key v e = absurd (ground arith)

  Run-IsSound :
      (calls : List (Call V)) {s t : Calls V} → Run s t → IsSound calls s → IsSound calls t
  Run-IsSound calls stop h = h
  Run-IsSound calls (next q r run step) h = Step-IsSound calls step (Run-IsSound calls run h)

  -- However calls of a cache that starts empty interleave, every call that has been answered has what
  -- its own load gave, or what the load of a call for the same key gave that was neither timed out nor
  -- cancelled; and once a call is answered whose own load is neither, the cache holds its key, so that
  -- every call for the key that looks from then on is answered without a load.
  pub answers-IsLoaded :
      (calls : List (Call V)) (s : Calls V)
      → Run (start_calls calls) s
      → All (λ w. IsAnswer calls s.held w.call w.progress) s.callers
        × ((c : Call V)
            → is_some (lookup c.key s.held) ≡ true
            → (v : V) × (look s.held c ≡ answered v) × IsLoaded calls c.key v)
  unfolding look lookup Holds
  answers-IsLoaded calls s run =
      let (h, a) =
        Run-IsSound calls run
          (empty-Holds calls, start-IsGood calls calls (listed_members calls)) in
      (All-weaken _ _ s.callers (λ w g. g.1) a, λ c k. hit c (lookup c.key s.held) refl k h)
    where
      hit :
          (c : Call V) (o : Option V)
          → lookup c.key s.held ≡ o
          → is_some o ≡ true
          → Holds calls s.held
          → (v : V) × (look s.held c ≡ answered v) × IsLoaded calls c.key v
      hit c none e k h = absurd (ground arith)
      hit c (some v) e k h = (v, rw (e, look) refl, h c.key v e)
