-- ===== src/Correlation/Coverage.antt =====
-- internal/correlation/engine.go: the hypotheses of Correlate against the signals.
use kube_sre_mcp.Prelude.{
  String, ◌≡◌, refl, ap, ◌∙◌, Bool, true, false, ◌&&◌, ◌||◌, inl, inr, Option, List, [], ◌∷◌, ◌++◌,
  map, arith, Bool-cases, All, any, is_empty, ◌==◌, eq_iff, eq_refl,
}
use kube_sre_mcp.Prelude.Text.{text_lt}
use kube_sre_mcp.Prelude.Sort.{stable_sort, insert_before}
use kube_sre_mcp.Model.{Impact, RootCauseHypothesis}
use kube_sre_mcp.Signal.{DiagnosticSignal}
use kube_sre_mcp.Correlation.Classify.{classify}
use kube_sre_mcp.Correlation.Dedup.{dedup_events}
use kube_sre_mcp.Correlation.Build.{build}
use kube_sre_mcp.Correlation.Rank.{
  is_ignored, categories, bucket, ranks_before, hypotheses, correlate,
}

module _ {ℓ} {A : Type ℓ} (less : A → A → Bool) (p : A → Bool) where
  any-insert_before : (x : A) (ys : List A) → any p (insert_before less x ys) ≡ p x || any p ys
  unfolding insert_before
  any-insert_before x [] = refl
  any-insert_before x (y ∷ ys) = elim (Bool-cases (less y x)) [
    | inl e ↦ rw e (ground (arith, any-insert_before x ys))
    | inr e ↦ rw e refl
  ]

  any-stable_sort : (xs : List A) → any p (stable_sort less xs) ≡ any p xs
  unfolding stable_sort
  any-stable_sort [] = refl
  any-stable_sort (x ∷ xs) =
      any-insert_before x (stable_sort less xs) ∙ ap (λ b. p x || b) (any-stable_sort xs)

module _ {ℓ κ} {A : Type ℓ} (less : A → A → Bool) (P : A → Type κ) where
  All-insert_before : (x : A) (ys : List A) → P x → All P ys → All P (insert_before less x ys)
  unfolding insert_before
  All-insert_before x [] h k = (h, tt)
  All-insert_before x (y ∷ ys) h (q, k) = elim (Bool-cases (less y x)) [
    | inl e ↦ rw e (q, All-insert_before x ys h k)
    | inr e ↦ rw e (h, (q, k))
  ]

  All-stable_sort : (xs : List A) → All P xs → All P (stable_sort less xs)
  unfolding stable_sort
  All-stable_sort [] h = tt
  All-stable_sort (x ∷ xs) (h, k) =
      All-insert_before x (stable_sort less xs) h (All-stable_sort xs k)

module _ {ℓ} {A : Type ℓ} where
  any-weaken :
      (p q : A → Bool) (xs : List A)
      → ((x : A) → p x ≡ true → q x ≡ true)
      → any p xs ≡ true
      → any q xs ≡ true
  any-weaken p q [] f h = h
  any-weaken p q (x ∷ xs) f h = ground (arith, f x, any-weaken p q xs f)

  any-map {ℓ'} :
      {B : Type ℓ'} (f : A → B) (p : B → Bool) (xs : List A)
      → any p (map f xs) ≡ any (λ x. p (f x)) xs
  any-map f p [] = refl
  any-map f p (x ∷ xs) = ap (λ b. p (f x) || b) (any-map f p xs)

  All-map {ℓ' κ} :
      {B : Type ℓ'} (f : A → B) (P : A → Type κ) (Q : B → Type κ)
      → ((x : A) → P x → Q (f x))
      → (xs : List A) → All P xs
      → All Q (map f xs)
  All-map f P Q g [] h = tt
  All-map f P Q g (x ∷ xs) (h, k) = (g x h, All-map f P Q g xs k)

-- a hypothesis that stands for the signal
abbrev pub explains : DiagnosticSignal → RootCauseHypothesis → Bool
explains s h = h.category == classify s && any (λ i. i == s.id) h.supporting_evidence_ids

-- the category of a signal that is not ignored is among the buckets' keys
in_categories :
    (before after : List DiagnosticSignal) (s : DiagnosticSignal)
    → is_ignored (classify s) ≡ false
    → any (λ c. c == classify s) (categories (before ++ s ∷ after)) ≡ true
unfolding categories
in_categories [] after s n = ground (arith, eq_refl (classify s))
in_categories (t ∷ before) after s n = ground (arith, in_categories before after s n)

in_bucket :
    (before after : List DiagnosticSignal) (s : DiagnosticSignal)
    → any (λ t. t.id == s.id) (bucket (classify s) (before ++ s ∷ after)) ≡ true
unfolding bucket
in_bucket [] after s = ground (arith, eq_refl (classify s), eq_refl s.id)
in_bucket (t ∷ before) after s = ground (arith, in_bucket before after s)

explains-build :
    (before after : List DiagnosticSignal) (s : DiagnosticSignal) (impact : Option Impact)
    (cat : String)
    → cat == classify s ≡ true
    → let ss = before ++ s ∷ after in explains s (build cat (bucket cat ss) ss impact) ≡ true
unfolding build
explains-build before after s impact cat h = ground (
  arith,
  h,
  any-map (λ t. t.id) (λ i. i == s.id) (bucket cat (before ++ s ∷ after)),
  in_cat cat ((eq_iff cat (classify s)).0 h),
)
  where
    in_cat :
        (c : String)
        → c ≡ classify s
        → any (λ t. t.id == s.id) (bucket c (before ++ s ∷ after)) ≡ true
    in_cat c e = rw e (in_bucket before after s)

-- Every signal that is left after the deduplication and is not classified as noise has a hypothesis
-- of its category that names it as supporting evidence.
pub correlate-explains :
    (signals : List DiagnosticSignal) (impact : Option Impact)
    (before after : List DiagnosticSignal) (s : DiagnosticSignal)
    → dedup_events signals ≡ before ++ s ∷ after
    → is_ignored (classify s) ≡ false
    → any (explains s) (correlate signals impact) ≡ true
unfolding correlate hypotheses
correlate-explains signals impact before after s e n = rw e (
    any-stable_sort ranks_before (explains s) _
    ∙ any-map _ (explains s) (stable_sort text_lt (categories (before ++ s ∷ after)))
    ∙ any-stable_sort text_lt _ (categories (before ++ s ∷ after))
    ∙ any-weaken (λ c. c == classify s) _ (categories (before ++ s ∷ after))
        (explains-build before after s impact) (in_categories before after s n))

-- a key of a bucket: the bucket is not empty
abbrev IsKey : List DiagnosticSignal → String → Type 0
IsKey ss cat = (is_ignored cat ≡ false) × (is_empty (bucket cat ss) ≡ false)

IsKey-cons :
    (s : DiagnosticSignal) (ss : List DiagnosticSignal) (cats : List String)
    → All (IsKey ss) cats
    → All (IsKey (s ∷ ss)) cats
unfolding bucket
IsKey-cons s ss [] h = tt
IsKey-cons s ss (c ∷ cs) (h, k) = (ground arith, IsKey-cons s ss cs k)

own-IsKey :
    (s : DiagnosticSignal) (ss : List DiagnosticSignal)
    → is_ignored (classify s) ≡ false
    → IsKey (s ∷ ss) (classify s)
unfolding bucket
own-IsKey s ss n = ground (arith, eq_refl (classify s))

categories-IsKey : (ss : List DiagnosticSignal) → All (IsKey ss) (categories ss)
unfolding categories
categories-IsKey [] = tt
categories-IsKey (s ∷ ss) =
    elim (Bool-cases (is_ignored (classify s) || any (λ c. c == classify s) (categories ss))) [
      | inl e ↦ rw e (IsKey-cons s ss (categories ss) (categories-IsKey ss))
      | inr e ↦
          rw e
            (own-IsKey s ss (ground arith), IsKey-cons s ss (categories ss) (categories-IsKey ss))
    ]

-- what a hypothesis rests on
abbrev pub IsGrounded : List DiagnosticSignal → RootCauseHypothesis → Type 0
IsGrounded ss h =
    (is_ignored h.category ≡ false)
    × ((is_empty (bucket h.category ss) ≡ false)
        × (h.supporting_evidence_ids ≡ map (λ s. s.id) (bucket h.category ss)))

build-IsGrounded :
    (ss : List DiagnosticSignal) (impact : Option Impact) (cat : String)
    → IsKey ss cat
    → IsGrounded ss (build cat (bucket cat ss) ss impact)
unfolding build
build-IsGrounded ss impact cat (h, k) = (h, (k, refl))

-- Every hypothesis is of a category other than noise, has at least one signal of that category, and
-- its supporting evidence is exactly the signals of that category that the deduplication left, in
-- their order.
pub correlate-IsGrounded :
    (signals : List DiagnosticSignal) (impact : Option Impact)
    → All (IsGrounded (dedup_events signals)) (correlate signals impact)
unfolding correlate hypotheses
correlate-IsGrounded signals impact =
    let ss = dedup_events signals in
    All-stable_sort ranks_before (IsGrounded ss) _ (
      All-map _ (IsKey ss) (IsGrounded ss) (build-IsGrounded ss impact) _
        (All-stable_sort text_lt (IsKey ss) (categories ss) (categories-IsKey ss)))
