-- ===== src/Correlation/Distinct.antt =====
-- internal/correlation/engine.go: no event is left twice by dedupEvents.
use kube_sre_mcp.Prelude.{
  ◌≡◌, false, ◌&&◌, List, [], ◌∷◌, ◌++◌, arith, Bool-cases, inl, inr, All, All-append, ◌==◌, eq_iff,
  String,
}
use kube_sre_mcp.Prelude.Int.{pos, ℤ_eq}
use kube_sre_mcp.Prelude.Sort.{IsRanked}
use kube_sre_mcp.Model.{ref_string}
use kube_sre_mcp.Signal.{DiagnosticSignal}
use kube_sre_mcp.Correlation.Dedup.{
  is_event, same_key, add_count, has_key, at_least_one, dedup_step, dedup_from, dedup_events,
}

-- not two events that dedupEvents takes for the same
abbrev pub Different : DiagnosticSignal → DiagnosticSignal → Type 0
Different a b = is_event a && is_event b && same_key a b ≡ false

eq_sym : (s t : String) → (s == t) ≡ (t == s)
eq_sym s t = ground (arith, eq_iff s t, eq_iff t s)

same_key-sym : (a b : DiagnosticSignal) → same_key a b ≡ same_key b a
unfolding same_key
same_key-sym a b = ground (
  arith,
  eq_sym a.reason b.reason,
  eq_sym a.message b.message,
  eq_sym (ref_string a.resource) (ref_string b.resource),
)

add_count-All :
    (a s : DiagnosticSignal) (os : List DiagnosticSignal)
    → All (Different a) os
    → All (Different a) (add_count s os)
unfolding add_count same_key
add_count-All a s [] h = tt
add_count-All a s (o ∷ os) (p, h) = elim (Bool-cases (is_event o && same_key o s)) [
  | inl e ↦ rw e (p, h)
  | inr e ↦ rw e (p, add_count-All a s os h)
]

add_count-IsRanked :
    (s : DiagnosticSignal) (os : List DiagnosticSignal)
    → IsRanked Different os
    → IsRanked Different (add_count s os)
unfolding add_count same_key
add_count-IsRanked s [] v = tt
add_count-IsRanked s (o ∷ os) (h, v) = elim (Bool-cases (is_event o && same_key o s)) [
  | inl e ↦ rw e (h, v)
  | inr e ↦ rw e (add_count-All o s os h, add_count-IsRanked s os v)
]

no_key-All :
    (s : DiagnosticSignal) (os : List DiagnosticSignal)
    → has_key s os ≡ false
    → All (λ o. Different o s) os
unfolding has_key
no_key-All s [] h = tt
no_key-All s (o ∷ os) h = (ground arith, no_key-All s os (ground arith))

append-IsRanked :
    (s : DiagnosticSignal) (os : List DiagnosticSignal)
    → All (λ o. Different o s) os
    → IsRanked Different os
    → IsRanked Different (os ++ s ∷ [])
append-IsRanked s [] h v = (tt, tt)
append-IsRanked s (o ∷ os) (p, h) (q, v) =
    (All-append (Different o) os (s ∷ []) q (p, tt), append-IsRanked s os h v)

not_event-All :
    (s : DiagnosticSignal) (os : List DiagnosticSignal)
    → is_event s ≡ false
    → All (λ o. Different o s) os
not_event-All s [] e = tt
not_event-All s (o ∷ os) e = (ground arith, not_event-All s os e)

at_least_one-All :
    (s : DiagnosticSignal) (os : List DiagnosticSignal)
    → All (λ o. Different o s) os
    → All (λ o. Different o (at_least_one s)) os
unfolding same_key
at_least_one-All s [] h = tt
at_least_one-All s (o ∷ os) (p, h) = (
  elim (Bool-cases (ℤ_eq s.count (pos 0))) [ inl e ↦ rw e p | inr e ↦ rw e p ],
  at_least_one-All s os h,
)

step-IsRanked :
    (os : List DiagnosticSignal) (s : DiagnosticSignal)
    → IsRanked Different os
    → IsRanked Different (dedup_step os s)
unfolding dedup_step
step-IsRanked os s v = elim (Bool-cases (is_event s)) [
  | inr e ↦ rw e (append-IsRanked s os (not_event-All s os e) v)
  | inl e ↦ rw e (elim (Bool-cases (has_key s os)) [
    | inl k ↦ rw k (add_count-IsRanked s os v)
    | inr k ↦
        rw k (append-IsRanked (at_least_one s) os (at_least_one-All s os (no_key-All s os k)) v)
  ])
]

from-IsRanked :
    (os ss : List DiagnosticSignal) → IsRanked Different os → IsRanked Different (dedup_from os ss)
unfolding dedup_from
from-IsRanked os [] v = v
from-IsRanked os (s ∷ ss) v = from-IsRanked (dedup_step os s) ss (step-IsRanked os s v)

-- After the deduplication no two events have the same reason, message and resource.
pub dedup-IsDistinct : (ss : List DiagnosticSignal) → IsRanked Different (dedup_events ss)
unfolding dedup_events
dedup-IsDistinct ss = from-IsRanked [] ss tt
