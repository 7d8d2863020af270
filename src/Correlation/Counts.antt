-- ===== src/Correlation/Counts.antt =====
-- internal/correlation/engine.go: what dedupEvents keeps.
use kube_sre_mcp.Prelude.{
  ℕ, zero, suc, ◌+◌, ◌^◌, ◌<◌, ◌≡◌, refl, Bool, true, false, not, ◌&&◌, List, [], ◌∷◌, ◌++◌, arith,
  ap, sym, ◌∙◌, Bool-cases, inl, inr, ltb, eqb, all, ◌||◌, if◌then◌else◌,
}
use kube_sre_mcp.Prelude.Int.{ℤ, pos, negsuc, ℤ_max, ℤ_eq, is_negative}
use kube_sre_mcp.Prelude.Int64.{add_int64, add_int64_fits}
use mathlib.Core.List.{append-nil, append_assoc}
use kube_sre_mcp.Signal.{DiagnosticSignal}
use kube_sre_mcp.Correlation.Dedup.{
  is_event, same_key, add_count, has_key, at_least_one, dedup_step, dedup_from, dedup_events,
}

-- how many occurrences a signal stands for: a count of 0 is one occurrence
abbrev pub occurrences : ℤ → ℕ
occurrences (pos n) = if eqb n 0 then 1 else n
occurrences (negsuc n) = 1

-- all occurrences of the events in a list
unfoldable pub total : List DiagnosticSignal → ℕ
total [] = 0
total (s ∷ ss) = (if is_event s then occurrences s.count else 0) + total ss

-- the signals that are no events
unfoldable pub others : List DiagnosticSignal → List DiagnosticSignal
others [] = []
others (s ∷ ss) = let rest = others ss in if is_event s then rest else s ∷ rest

abbrev pub is_positive : ℤ → Bool
is_positive (pos n) = ltb 0 n
is_positive (negsuc _) = false

-- the events that have been kept stand for one occurrence at least
abbrev counts_ok : DiagnosticSignal → Bool
counts_ok o = not (is_event o) || is_positive o.count

total-append :
    (xs : List DiagnosticSignal) (s : DiagnosticSignal)
    → total (xs ++ s ∷ []) ≡ total xs + total (s ∷ [])
unfolding total
total-append [] s = omega arith
total-append (x ∷ xs) s = unfold total in omega (arith, total-append xs s)

others-append :
    (xs : List DiagnosticSignal) (s : DiagnosticSignal)
    → others (xs ++ s ∷ []) ≡ others xs ++ others (s ∷ [])
unfolding others
others-append [] s = refl
others-append (x ∷ xs) s = elim (Bool-cases (is_event x)) [
  | inl e ↦ rw e (others-append xs s)
  | inr e ↦ rw e (ap (λ ys. x ∷ ys) (others-append xs s))
]

all-append :
    (xs : List DiagnosticSignal) (s : DiagnosticSignal)
    → all counts_ok xs ≡ true
    → counts_ok s ≡ true
    → all counts_ok (xs ++ s ∷ []) ≡ true
all-append [] s h k = ground arith
all-append (x ∷ xs) s h k = ground (arith, all-append xs s)

add-lem :
    (a b : ℤ)
    → is_positive a ≡ true
    → is_negative b ≡ false
    → occurrences a + occurrences b < 2 ^ 63
    → (is_positive (add_int64 a (ℤ_max b (pos 1))) ≡ true)
      × (occurrences (add_int64 a (ℤ_max b (pos 1))) ≡ occurrences a + occurrences b)
unfolding ℤ_max
add-lem (negsuc a) b h k f = (cc, cc)
add-lem (pos a) (negsuc b) h k f = (cc, cc)
add-lem (pos a) (pos zero) h k f =
    let e : add_int64 (pos a) (ℤ_max (pos zero) (pos 1)) ≡ pos (a + 1) =
      add_int64_fits a 1 (ground arith) in
    rw e (ground arith, ground arith)
add-lem (pos a) (pos (suc b)) h k f =
    let larger : ℤ_max (pos (suc b)) (pos 1) ≡ pos (suc b) = ground arith in
    let e : add_int64 (pos a) (ℤ_max (pos (suc b)) (pos 1)) ≡ pos (a + suc b) =
      ap (add_int64 (pos a)) larger ∙ add_int64_fits a (suc b) (ground arith) in
    rw e (ground arith, ground arith)

-- adding to the event that is there
add_count-total :
    (s : DiagnosticSignal) (os : List DiagnosticSignal)
    → is_negative s.count ≡ false
    → all counts_ok os ≡ true
    → total os + occurrences s.count < 2 ^ 63
    → has_key s os ≡ true
    → (total (add_count s os) ≡ total os + occurrences s.count)
      × (all counts_ok (add_count s os) ≡ true)
unfolding add_count has_key total
add_count-total s [] n v f h = (cc, cc)
add_count-total s (o ∷ os) n v f h = elim (Bool-cases (is_event o && same_key o s)) [
  | inl e ↦ rw e (ground (arith, add-lem o.count s.count), ground (arith, add-lem o.count s.count))
  | inr e ↦ rw e (ground (arith, add_count-total s os n), ground (arith, add_count-total s os n))
]

add_count-others :
    (s : DiagnosticSignal) (os : List DiagnosticSignal) → others (add_count s os) ≡ others os
unfolding add_count others
add_count-others s [] = refl
add_count-others s (o ∷ os) = elim (Bool-cases (is_event o && same_key o s)) [
  | inl e ↦ rw e (elim (Bool-cases (is_event o)) [ inl f ↦ rw f refl | inr f ↦ ground arith ])
  | inr e ↦ rw e (elim (Bool-cases (is_event o)) [
    | inl f ↦ rw f (add_count-others s os)
    | inr f ↦ rw f (ap (λ ys. o ∷ ys) (add_count-others s os))
  ])
]

at_least_one-total :
    (s : DiagnosticSignal)
    → is_negative s.count ≡ false
    → (total (at_least_one s ∷ []) ≡ total (s ∷ [])) × (counts_ok (at_least_one s) ≡ true)
unfolding total
at_least_one-total s n = elim (Bool-cases (ℤ_eq s.count (pos 0))) [
  | inl e ↦ rw e (ground (arith, zero_count s.count), refl_or s)
  | inr e ↦ rw e (refl, ground (arith, nonzero_count s.count))
]
  where
    zero_count : (z : ℤ) → ℤ_eq z (pos 0) ≡ true → occurrences z ≡ 1
    zero_count (pos a) h = ground arith
    zero_count (negsuc a) h = refl

    nonzero_count : (z : ℤ) → ℤ_eq z (pos 0) ≡ false → is_negative z ≡ false → is_positive z ≡ true
    nonzero_count (pos a) h k = ground arith
    nonzero_count (negsuc a) h k = cc

    refl_or : (s : DiagnosticSignal) → not (is_event s) || true ≡ true
    refl_or s = ground arith

event_total : (s : DiagnosticSignal) → is_event s ≡ true → total (s ∷ []) ≡ occurrences s.count
unfolding total
event_total s e = ground arith

others-cons :
    (s : DiagnosticSignal) (ss : List DiagnosticSignal)
    → others (s ∷ ss) ≡ others (s ∷ []) ++ others ss
unfolding others
others-cons s ss = elim (Bool-cases (is_event s)) [ inl e ↦ rw e refl | inr e ↦ rw e refl ]

total-cons :
    (s : DiagnosticSignal) (ss : List DiagnosticSignal) → total (s ∷ ss) ≡ total (s ∷ []) + total ss
unfolding total
total-cons s ss = ground arith

-- what one round of the loop does to the counts, to the other signals and to the invariant
step-total :
    (os : List DiagnosticSignal) (s : DiagnosticSignal)
    → is_negative s.count ≡ false
    → all counts_ok os ≡ true
    → total os + total (s ∷ []) < 2 ^ 63
    → (total (dedup_step os s) ≡ total os + total (s ∷ []))
      × (all counts_ok (dedup_step os s) ≡ true)
unfolding dedup_step
step-total os s n v f = elim (Bool-cases (is_event s)) [
  | inr e ↦ rw e (total-append os s, all-append os s v (ground arith))
  | inl e ↦ rw e (elim (Bool-cases (has_key s os)) [
    | inl k ↦ rw k (
      ground (arith, add_count-total s os n v (rw (event_total s e) at f) k, event_total s e),
      (add_count-total s os n v (rw (event_total s e) at f) k).1,
    )
    | inr k ↦ rw k (
      total-append os (at_least_one s) ∙ ap (λ m. total os + m) (at_least_one-total s n).0,
      all-append os (at_least_one s) v (at_least_one-total s n).1,
    )
  ])
]

at_least_one-others : (s : DiagnosticSignal) → is_event s ≡ true → others (at_least_one s ∷ []) ≡ []
unfolding others
at_least_one-others s e = elim (Bool-cases (ℤ_eq s.count (pos 0))) [
  | inl k ↦ rw k (rw e refl)
  | inr k ↦ rw k (rw e refl)
]

event-others : (s : DiagnosticSignal) → is_event s ≡ true → others (s ∷ []) ≡ []
unfolding others
event-others s e = rw e refl

step-others :
    (os : List DiagnosticSignal) (s : DiagnosticSignal)
    → others (dedup_step os s) ≡ others os ++ others (s ∷ [])
unfolding dedup_step
step-others os s = elim (Bool-cases (is_event s)) [
  | inr e ↦ rw e (others-append os s)
  | inl e ↦ rw e (elim (Bool-cases (has_key s os)) [
    | inl k ↦ rw k (
        add_count-others s os
        ∙ sym (append-nil _)
        ∙ ap (λ t. others os ++ t) (sym (event-others s e)))
    | inr k ↦ rw k (
        others-append os (at_least_one s)
        ∙ ap (λ t. others os ++ t) (at_least_one-others s e ∙ sym (event-others s e)))
  ])
]

from-total :
    (os ss : List DiagnosticSignal)
    → all (λ s. not (is_negative s.count)) ss ≡ true
    → all counts_ok os ≡ true
    → total os + total ss < 2 ^ 63
    → total (dedup_from os ss) ≡ total os + total ss
unfolding dedup_from
from-total os [] h v f = unfold total in omega arith
from-total os (s ∷ ss) h v f =
    ground (arith, step-total os s, from-total (dedup_step os s) ss, total-cons s ss)

from-others : (os ss : List DiagnosticSignal) → others (dedup_from os ss) ≡ others os ++ others ss
unfolding dedup_from
from-others os [] = unfold others in sym (append-nil _)
from-others os (s ∷ ss) =
    from-others (dedup_step os s) ss
    ∙ ap (λ t. t ++ others ss) (step-others os s)
    ∙ append_assoc (others os) (others (s ∷ [])) (others ss)
    ∙ ap (λ t. others os ++ t) (sym (others-cons s ss))

-- Where no count is negative and the occurrences are fewer than 2 ^ 63 in all, the deduplication of the events loses and invents no occurrence, and
-- leaves all other signals as they are, in their order.
pub dedup_keeps :
    (ss : List DiagnosticSignal)
    → all (λ s. not (is_negative s.count)) ss ≡ true
    → total ss < 2 ^ 63
    → (total (dedup_events ss) ≡ total ss) × (others (dedup_events ss) ≡ others ss)
unfolding dedup_events total others
dedup_keeps ss h f = (omega (arith, from-total [] ss h refl (omega arith)), from-others [] ss)
