-- ===== src/Health/Verdicts.antt =====
-- internal/health/health.go: when a verdict is given.
use kube_sre_mcp.Prelude.{
  ℕ, suc, ltb, ◌≡◌, refl, Bool, true, false, not, ◌&&◌, ◌||◌, ◌↔◌, Option, none, some, List, [],
  ◌∷◌, ◌++◌, arith, any, all, is_empty, if◌then◌else◌, Bool-cases, inl, inr,
}
use kube_sre_mcp.Model.{Health, Visibility, ResourceRef}
use kube_sre_mcp.Signal.{DiagnosticSignal, is_critical, is_warning, new}
use kube_sre_mcp.Kube.Types.{Condition, Node}
use kube_sre_mcp.Health.{
  has_critical, has_warning, limited, evaluate, combine, healthy_condition, node_ref,
  condition_signals, cordon_signals, node_status_signals, from_node,
}

empty_clean :
    (signals : List DiagnosticSignal)
    → is_empty signals ≡ true
    → (has_critical signals ≡ false) × (has_warning signals ≡ false)
empty_clean [] h = (refl, refl)
empty_clean (s ∷ ss) h = (cc, cc)

-- Evaluate says critical exactly if some signal is critical; degraded exactly if none is and some is
-- a warning; unknown exactly if there is no signal and the visibility is limited; and healthy exactly
-- in the remaining case.
pub evaluate_iff :
    (signals : List DiagnosticSignal) (vis : Option Visibility)
    → ((evaluate signals vis ≡ Health.critical) ↔ (has_critical signals ≡ true))
      × (((evaluate signals vis ≡ Health.degraded)
            ↔ ((has_critical signals ≡ false) × (has_warning signals ≡ true)))
          × (((evaluate signals vis ≡ Health.unknown)
                ↔ ((is_empty signals ≡ true) × (limited vis ≡ true)))
              × ((evaluate signals vis ≡ Health.healthy) ↔ (
                  (has_critical signals ≡ false)
                  × ((has_warning signals ≡ false) × (limited vis && is_empty signals ≡ false))))))
unfolding evaluate
evaluate_iff signals none = (
  (λ h. ground (arith, empty_clean signals), λ h. ground (arith, empty_clean signals)),
  (
    (λ h. ground (arith, empty_clean signals), λ h. ground (arith, empty_clean signals)),
    (
      (λ h. ground (arith, empty_clean signals), λ h. ground (arith, empty_clean signals)),
      (λ h. ground (arith, empty_clean signals), λ h. ground (arith, empty_clean signals)),
    ),
  ),
)
evaluate_iff signals (some v) = (
  (λ h. ground (arith, empty_clean signals), λ h. ground (arith, empty_clean signals)),
  (
    (λ h. ground (arith, empty_clean signals), λ h. ground (arith, empty_clean signals)),
    (
      (λ h. ground (arith, empty_clean signals), λ h. ground (arith, empty_clean signals)),
      (λ h. ground (arith, empty_clean signals), λ h. ground (arith, empty_clean signals)),
    ),
  ),
)

-- how bad a state is, for Combine
abbrev pub badness : Health → ℕ
badness Health.healthy = 0
badness Health.unknown = 1
badness Health.degraded = 2
badness Health.critical = 3

-- the worst badness of a list
unfoldable pub worst : List Health → ℕ
worst [] = 0
worst (h ∷ hs) = let rest = worst hs in if ltb (badness h) rest then rest else badness h

combine-cons :
    (h : Health) (hs : List Health)
    → badness (combine (h ∷ hs))
      ≡ (if ltb (badness h) (badness (combine hs)) then badness (combine hs) else badness h)
unfolding combine
combine-cons Health.healthy hs = ground arith
combine-cons Health.unknown hs = ground arith
combine-cons Health.degraded hs = ground arith
combine-cons Health.critical hs = ground arith

-- Combine gives the worst of the states, in the order healthy, unknown, degraded, critical.
pub combine-worst : (hs : List Health) → badness (combine hs) ≡ worst hs
unfolding worst
combine-worst [] = unfold combine in refl
combine-worst (h ∷ hs) = ground (arith, combine-cons h hs, combine-worst hs)

conditions_clean :
    (ref : ResourceRef) (i : ℕ) (cs : List Condition)
    → (has_critical (condition_signals ref i cs) ≡ not (all healthy_condition cs))
      × (has_warning (condition_signals ref i cs) ≡ false)
unfolding condition_signals new
conditions_clean ref i [] = (refl, refl)
conditions_clean ref i (c ∷ cs) = elim (Bool-cases (healthy_condition c)) [
  | inl e ↦ rw e (conditions_clean ref (suc i) cs)
  | inr e ↦ rw e (refl, (conditions_clean ref (suc i) cs).1)
]

any-append :
    (f : DiagnosticSignal → Bool) (xs ys : List DiagnosticSignal)
    → any f (xs ++ ys) ≡ any f xs || any f ys
any-append f [] ys = refl
any-append f (x ∷ xs) ys = ground (arith, any-append f xs ys)

cordon_clean :
    (n : Node)
    → (has_critical (cordon_signals n) ≡ false) × (has_warning (cordon_signals n) ≡ n.unschedulable)
unfolding cordon_signals new
cordon_clean n = elim (Bool-cases n.unschedulable) [
  | inl e ↦ rw e (refl, refl)
  | inr e ↦ rw e (refl, refl)
]

-- A node is critical exactly if some condition is not as it is on a healthy node, degraded exactly if
-- all are and it is cordoned, and healthy exactly if all are and it is not cordoned.
pub from_node_iff :
    (n : Node)
    → ((from_node n ≡ Health.critical) ↔ (all healthy_condition n.conditions ≡ false))
      × (((from_node n ≡ Health.degraded)
            ↔ ((all healthy_condition n.conditions ≡ true) × (n.unschedulable ≡ true)))
          × ((from_node n ≡ Health.healthy)
              ↔ ((all healthy_condition n.conditions ≡ true) × (n.unschedulable ≡ false))))
unfolding from_node node_status_signals evaluate
from_node_iff n =
    let a = condition_signals (node_ref n) 0 n.conditions in
    let c = any-append (λ s. is_critical s.severity) a (cordon_signals n) in
    let w = any-append (λ s. is_warning s.severity) a (cordon_signals n) in
    let k = conditions_clean (node_ref n) 0 n.conditions in
    let q = cordon_clean n in
    (
      (λ h. ground (arith, c, w, k, q), λ h. ground (arith, c, w, k, q)),
      (
        (λ h. ground (arith, c, w, k, q), λ h. ground (arith, c, w, k, q)),
        (λ h. ground (arith, c, w, k, q), λ h. ground (arith, c, w, k, q)),
      ),
    )
