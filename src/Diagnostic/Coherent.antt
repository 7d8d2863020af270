-- ===== src/Diagnostic/Coherent.antt =====
-- internal/diagnostic/assemble.go: how the parts of an assembled response fit together.
use kube_sre_mcp.Prelude.{
  String, Bool, true, false, Option, none, some, List, [], ◌∷◌, ◌==◌, ◌≡◌, ◌≢◌, ◌↔◌, refl, sym, ap,
  ◌∙◌, inl, inr, map, any, is_empty, Bool-cases, if◌then◌else◌, All, eq_iff, eq_refl, arith,
}
use kube_sre_mcp.Prelude.Sort.{IsRanked, stable_sort-perm}
use mathlib.Core.List.{Perm}
use kube_sre_mcp.Model.{
  Health, Confidence, ResourceRef, RecommendedAction, RootCauseHypothesis, Visibility,
}
use kube_sre_mcp.Signal.{DiagnosticSignal}
use kube_sre_mcp.Health.{evaluate, limited, health_eq}
use kube_sre_mcp.Diagnostic.Assemble.{
  scope_signals, to_evidence, new_actions, all_advice, recs_from, first_cause, assemble, demote,
  demote_confirmed,
}

-- two recommendations of different actions
abbrev pub DiffersInAction : RecommendedAction → RecommendedAction → Type 0
DiffersInAction a b = a.action == b.action ≡ false

abbrev pub IsUnconfirmed : RootCauseHypothesis → Type 0
IsUnconfirmed h = h.confidence ≢ Confidence.confirmed

abbrev pub IsUnconfirmedIfAny : Option RootCauseHypothesis → Type 0
IsUnconfirmedIfAny none = Unit
IsUnconfirmedIfAny (some h) = IsUnconfirmed h

lowered-unconfirmed :
    (c : Confidence)
    → (elim c as (λ _. Confidence) [ Confidence.confirmed ↦ Confidence.high | c ↦ c ])
      ≢ Confidence.confirmed
lowered-unconfirmed Confidence.unset h = ground arith
lowered-unconfirmed Confidence.low h = ground arith
lowered-unconfirmed Confidence.medium h = ground arith
lowered-unconfirmed Confidence.high h = ground arith
lowered-unconfirmed Confidence.confirmed h = ground arith

demote-IsUnconfirmed : (h : RootCauseHypothesis) → IsUnconfirmed (demote h)
unfolding demote
demote-IsUnconfirmed h = lowered-unconfirmed h.confidence

true_ne_false : true ≡ false → ⊥
true_ne_false h = ground arith

-- no action that was seen before is returned
seen_apart :
    (a b : String) (seen : List String)
    → any (λ t. t == a) seen ≡ true
    → any (λ t. t == b) seen ≡ false
    → a == b ≡ false
seen_apart a b seen h k = elim (Bool-cases (a == b)) [
  | inr q ↦ q
  | inl q ↦ absurd (true_ne_false (sym h ∙ ap (λ c. any (λ t. t == c) seen) ((eq_iff a b).0 q) ∙ k))
]

new_actions-unseen :
    (a : String) (seen : List String) (rs : List RecommendedAction)
    → any (λ b. b == a) seen ≡ true
    → All (λ r. a == r.action ≡ false) (new_actions seen rs)
unfolding new_actions
new_actions-unseen a seen [] h = tt
new_actions-unseen a seen (r ∷ rs) h = elim (Bool-cases (any (λ b. b == r.action) seen)) [
  | inl e ↦ rw e (new_actions-unseen a seen rs h)
  | inr e ↦
      rw e
        (seen_apart a r.action seen h e, new_actions-unseen a (r.action ∷ seen) rs (ground arith))
]

new_actions-IsRanked :
    (seen : List String) (rs : List RecommendedAction)
    → IsRanked DiffersInAction (new_actions seen rs)
unfolding new_actions
new_actions-IsRanked seen [] = tt
new_actions-IsRanked seen (r ∷ rs) = elim (Bool-cases (any (λ b. b == r.action) seen)) [
  | inl e ↦ rw e (new_actions-IsRanked seen rs)
  | inr e ↦ rw e (
    new_actions-unseen r.action (r.action ∷ seen) rs (ground (arith, eq_refl r.action)),
    new_actions-IsRanked (r.action ∷ seen) rs,
  )
]

recs_from-IsRanked : (hyps : List RootCauseHypothesis) → IsRanked DiffersInAction (recs_from hyps)
unfolding recs_from
recs_from-IsRanked hyps = elim (Bool-cases (is_empty hyps)) [
  | inl e ↦ rw e tt
  | inr e ↦ elim (Bool-cases (is_empty (new_actions [] (all_advice hyps)))) [
    | inl f ↦ rw (e, f) (tt, tt)
    | inr f ↦ rw (e, f) (new_actions-IsRanked [] (all_advice hyps))
  ]
]

map-All : (hyps : List RootCauseHypothesis) → All IsUnconfirmed (map demote hyps)
map-All [] = tt
map-All (h ∷ hyps) = (demote-IsUnconfirmed h, map-All hyps)

demoted_cause :
    (o : Option RootCauseHypothesis)
    → IsUnconfirmedIfAny
        (elim o as (λ _. Option RootCauseHypothesis) [ none ↦ none | some rc ↦ some (demote rc) ])
demoted_cause none = tt
demoted_cause (some rc) = demote-IsUnconfirmed rc

partial_only :
    (b : Bool) → (if◌then◌else◌ {A = String} b "partial" "success") ≡ "partial" → b ≡ true
partial_only true h = refl
partial_only false h = absurd (true_ne_false (sym ((eq_iff "success" "partial").1 h)))

-- Of a response that assemble makes: its health is that of the signals, its status is partial exactly
-- where the visibility is limited, its root cause is the first hypothesis, and none where the object
-- is healthy, it has the evidence of every signal and no other, and no action is recommended twice.
-- After demoteConfirmed neither its root cause nor any hypothesis is confirmed.
pub assemble-IsCoherent :
    (target : ResourceRef) (sigs : List DiagnosticSignal) (vis : Option Visibility) (depth : String)
    → ((assemble target sigs vis depth).health ≡ evaluate sigs vis)
      × (((assemble target sigs vis depth).status ≡ "partial") ↔ (limited vis ≡ true))
      × ((assemble target sigs vis depth).root_cause ≡ (
          if health_eq (evaluate sigs vis) Health.healthy
          then none
          else first_cause (assemble target sigs vis depth).root_causes))
      × Perm (assemble target sigs vis depth).evidence (map to_evidence (scope_signals target sigs))
      × IsRanked DiffersInAction (assemble target sigs vis depth).recommendations
      × IsUnconfirmedIfAny (demote_confirmed (assemble target sigs vis depth)).root_cause
      × All IsUnconfirmed (demote_confirmed (assemble target sigs vis depth)).root_causes
unfolding assemble demote_confirmed
assemble-IsCoherent target sigs vis depth = (
  refl,
  (λ h. partial_only (limited vis) h, λ h. rw h refl),
  refl,
  stable_sort-perm _ _,
  recs_from-IsRanked (assemble target sigs vis depth).root_causes,
  demoted_cause (assemble target sigs vis depth).root_cause,
  map-All (assemble target sigs vis depth).root_causes,
)
