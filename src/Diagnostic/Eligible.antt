-- ===== src/Diagnostic/Eligible.antt =====
-- internal/diagnostic/pod.go: scheduleSignals against a description of the nodes that pass its tests for a pod.
use kube_sre_mcp.Prelude.{
  ◌≤◌, Bool, true, false, ◌&&◌, ◌||◌, not, Option, none, some, List, [], ◌∷◌, ◌==◌, ◌≡◌, ◌≢◌, ◌⊎◌,
  ◌↔◌, refl, inl, inr, any, all, is_empty, if◌then◌else◌, All, Some, Bool-cases, arith, eq_iff,
}
use kube_sre_mcp.Kube.Types.{value_of, Requirement}
use kube_sre_mcp.Kube.Spec.{Toleration, Taint, NodeSelectorTerm, PodSpec, NodeObject}
use kube_sre_mcp.Diagnostic.Admission.{
  any-Some, all-All, Tolerates, tolerates-Tolerates, HoldsOf, expression_holds-HoldsOf, IsNameField,
  is_name_field-IsNameField, NamesNode, field-NamesNode, demand,
}
use kube_sre_mcp.Diagnostic.Scheduler.{
  contains_str, expression_holds, is_name_field, field_loop, affinity_loop, node_affinity_matches,
  tolerates, taint_blocks, affinity_reasons,
}

-- the node satisfies a term: every expression, and every field, which names it
abbrev pub SatisfiesTerm : NodeObject → NodeSelectorTerm → Type 0
SatisfiesTerm node term =
    All (HoldsOf node) term.match_expressions × All (NamesNode node) term.match_fields

-- the node satisfies one of the terms, behind terms of which the program supports every field
pub data Satisfies (node : NodeObject) : List NodeSelectorTerm → Type 0 where
  this :
      (term : NodeSelectorTerm) (terms : List NodeSelectorTerm)
      → SatisfiesTerm node term
      → Satisfies node (term ∷ terms)
  later :
      (term : NodeSelectorTerm) (terms : List NodeSelectorTerm)
      → All IsNameField term.match_fields
      → Satisfies node terms
      → Satisfies node (term ∷ terms)

-- a taint that keeps no pod away, or a toleration of the pod for it
abbrev pub IsTolerated : List Toleration → Taint → Type 0
IsTolerated tols t =
    ((t.effect ≢ "NoSchedule") × (t.effect ≢ "NoExecute")) ⊎ Some (λ tol. Tolerates tol t) tols

abbrev pub AdmitsAffinity : NodeObject → Option (List NodeSelectorTerm) → Type 0
AdmitsAffinity node none = Unit
AdmitsAffinity node (some terms) = Satisfies node terms

-- the node fits the pod by what the program looks at
abbrev pub IsEligible : PodSpec → NodeObject → Type 0
IsEligible spec node =
    All (λ c. (c.type ≢ "Ready") ⊎ (c.status ≢ "False")) node.conditions
    × (node.unschedulable ≡ false)
    × (demand (λ c. c.request_cpu) spec ≤ node.allocatable_cpu)
    × (demand (λ c. c.request_memory) spec ≤ node.allocatable_memory)
    × All (λ kv. value_of node.labels kv.0 ≡ kv.1) spec.node_selector
    × AdmitsAffinity node spec.required_affinity
    × All (IsTolerated spec.tolerations) node.taints

-- what the loop over the fields returns
field_loop-result :
    (node : NodeObject) (ok unsupported : Bool) (fs : List Requirement)
    → field_loop node ok unsupported fs ≡ (
      ok && all (λ f. is_name_field f && contains_str f.values node.name) fs,
      unsupported || not (all is_name_field fs),
    )
unfolding field_loop
field_loop-result node ok unsupported [] = ground arith
field_loop-result node ok unsupported (f ∷ fs) = ground (
  arith,
  field_loop-result node
      (if is_name_field f then (if contains_str f.values node.name then ok else false) else false)
      (if is_name_field f then unsupported else true) fs,
)

all-weaken :
    {A : Type 0} (p q : A → Bool) (xs : List A) → all (λ x. p x && q x) xs ≡ true → all p xs ≡ true
all-weaken p q [] h = refl
all-weaken p q (x ∷ xs) h = ground (arith, all-weaken p q xs)

-- a term and a list of terms, as tests
term_test : NodeObject → NodeSelectorTerm → Bool
term_test node term =
    all (expression_holds node) term.match_expressions
    && all (λ f. is_name_field f && contains_str f.values node.name) term.match_fields

terms_test : NodeObject → List NodeSelectorTerm → Bool
unfolding term_test
terms_test node [] = false
terms_test node (term ∷ terms) =
    term_test node term || (all is_name_field term.match_fields && terms_test node terms)

affinity_loop-sticky :
    (node : NodeObject) (terms : List NodeSelectorTerm) → (affinity_loop node true terms).1 ≡ true
unfolding affinity_loop
affinity_loop-sticky node [] = refl
affinity_loop-sticky node (term ∷ terms) = ground (
  arith,
  field_loop-result node (all (expression_holds node) term.match_expressions) true
      term.match_fields,
  affinity_loop-sticky node terms,
)

affinity_loop-result :
    (node : NodeObject) (terms : List NodeSelectorTerm)
    → ((affinity_loop node false terms).0 && not (affinity_loop node false terms).1)
      ≡ terms_test node terms
unfolding affinity_loop terms_test term_test
affinity_loop-result node [] = refl
affinity_loop-result node (term ∷ terms) = ground (
  arith,
  field_loop-result node (all (expression_holds node) term.match_expressions) false
      term.match_fields,
  all-weaken is_name_field (λ f. contains_str f.values node.name) term.match_fields,
  affinity_loop-sticky node terms,
  affinity_loop-result node terms,
)

term_test-SatisfiesTerm :
    (node : NodeObject) (term : NodeSelectorTerm)
    → (term_test node term ≡ true) ↔ SatisfiesTerm node term
unfolding term_test expression_holds is_name_field contains_str
term_test-SatisfiesTerm node term =
    let e =
      all-All (expression_holds node) (expression_holds-HoldsOf node) term.match_expressions in
    let f =
      all-All (λ f. is_name_field f && contains_str f.values node.name) (field-NamesNode node)
        term.match_fields in
    (λ h. (e.0 (ground arith), f.0 (ground arith)), λ (a, b). ground (arith, e.1 a, f.1 b))

terms_test-Satisfies :
    (node : NodeObject) (terms : List NodeSelectorTerm)
    → terms_test node terms ≡ true
    → Satisfies node terms
unfolding terms_test is_name_field
terms_test-Satisfies node [] h = absurd (ground arith)
terms_test-Satisfies node (term ∷ terms) h = elim (Bool-cases (term_test node term)) [
  | inl e ↦ this term terms ((term_test-SatisfiesTerm node term).0 e)
  | inr e ↦
      later term terms
        ((all-All is_name_field is_name_field-IsNameField term.match_fields).0 (ground arith))
        (terms_test-Satisfies node terms (ground arith))
]

Satisfies-terms_test :
    (node : NodeObject) (terms : List NodeSelectorTerm)
    → Satisfies node terms
    → terms_test node terms ≡ true
unfolding terms_test is_name_field
Satisfies-terms_test node _ (this term terms s) =
    ground (arith, (term_test-SatisfiesTerm node term).1 s)
Satisfies-terms_test node _ (later term terms s r) = ground (
  arith,
  (all-All is_name_field is_name_field-IsNameField term.match_fields).1 s,
  Satisfies-terms_test node terms r,
)

pub affinity_reasons-AdmitsAffinity :
    (node : NodeObject) (o : Option (List NodeSelectorTerm))
    → (is_empty (affinity_reasons o node) ≡ true) ↔ AdmitsAffinity node o
unfolding node_affinity_matches
affinity_reasons-AdmitsAffinity node none = (λ h. tt, λ h. refl)
affinity_reasons-AdmitsAffinity node (some terms) = (
  λ h. terms_test-Satisfies node terms (ground (arith, affinity_loop-result node terms)),
  λ s. ground (arith, affinity_loop-result node terms, Satisfies-terms_test node terms s),
)

IsTolerated-cases :
    (tols : List Toleration) (t : Taint)
    → ((not (t.effect == "NoSchedule") && not (t.effect == "NoExecute")
          || any (λ tol. tolerates tol t) tols)
        ≡ true)
      ↔ IsTolerated tols t
unfolding tolerates
IsTolerated-cases tols t = (
  λ h. elim (Bool-cases (any (λ tol. tolerates tol t) tols)) [
    | inl e ↦ inr ((any-Some (λ tol. tolerates tol t) (λ tol. tolerates-Tolerates tol t) tols).0 e)
    | inr e ↦ inl (
      λ q. ground (arith, eq_iff t.effect "NoSchedule"),
      λ q. ground (arith, eq_iff t.effect "NoExecute"),
    )
  ],
  λ s. elim s [
    | inl (p, q) ↦ ground (arith, eq_iff t.effect "NoSchedule", eq_iff t.effect "NoExecute")
    | inr r ↦
        ground
          (arith, (any-Some (λ tol. tolerates tol t) (λ tol. tolerates-Tolerates tol t) tols).1 r)
  ],
)

pub taint_blocks-IsTolerated :
    (taints : List Taint) (tols : List Toleration)
    → (taint_blocks taints tols ≡ false) ↔ All (IsTolerated tols) taints
unfolding taint_blocks tolerates
taint_blocks-IsTolerated [] tols = (λ h. tt, λ h. refl)
taint_blocks-IsTolerated (t ∷ taints) tols = (
  λ h. (
    (IsTolerated-cases tols t).0 (ground arith),
    (taint_blocks-IsTolerated taints tols).0 (ground (arith)),
  ),
  λ (p, h).
      ground (arith, (IsTolerated-cases tols t).1 p, (taint_blocks-IsTolerated taints tols).1 h),
)
