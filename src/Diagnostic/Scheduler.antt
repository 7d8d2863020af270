-- ===== src/Diagnostic/Scheduler.antt =====
-- internal/diagnostic/pod.go: scheduleSignals and what it calls. The counter `id` is passed on; the map
-- of reasons is a list, and the reason that is chosen does not depend on its order.
use Prim.Native.String
use kube_sre_mcp.Prelude.{
  ℕ, suc, ◌+◌, String, Bool, true, false, ◌&&◌, ◌||◌, not, Option, none, some, List, [], ◌∷◌, ◌++◌,
  ◌==◌, any, all, is_empty, is_some, ltb, eqb, length, first_match, if◌then◌else◌,
}
use kube_sre_mcp.Prelude.Map.{StringMap, lookup, insert}
use kube_sre_mcp.Prelude.Text.{decimal, text_lt}
use kube_sre_mcp.Model.{ResourceRef, Severity, Confidence}
use kube_sre_mcp.Signal.{DiagnosticSignal, Source, new}
use kube_sre_mcp.Kube.Types.{value_of, Requirement, Condition}
use kube_sre_mcp.Kube.Spec.{Container, Toleration, Taint, NodeSelectorTerm, PodSpec, NodeObject}

-- containsStr
unfoldable pub contains_str : List String → String → Bool
contains_str ss v = any (λ s. s == v) ss

-- labelsMatch
unfoldable pub labels_match : StringMap String → StringMap String → Bool
unfolding lookup
labels_match sel labels = all (λ kv. value_of labels kv.0 == kv.1) sel

-- one expression of a term; an operator that the switch does not name holds
unfoldable pub expression_holds : NodeObject → Requirement → Bool
unfolding contains_str lookup
expression_holds node expr =
    first_match
      ((expr.operator == "In", contains_str expr.values (value_of node.labels expr.key))
        ∷ (expr.operator == "NotIn", not (contains_str expr.values (value_of node.labels expr.key)))
        ∷ (expr.operator == "Exists", is_some (lookup expr.key node.labels))
        ∷ (expr.operator == "DoesNotExist", not (is_some (lookup expr.key node.labels)))
        ∷ (expr.operator == "Gt" || expr.operator == "Lt", false)
        ∷ [])
      true

-- a field that nodeAffinityMatches reads
unfoldable pub is_name_field : Requirement → Bool
is_name_field f = f.key == "metadata.name" && f.operator == "In"

-- the loop over the fields of a term: `termOK` and `unsupported`
unfoldable pub field_loop : NodeObject → Bool → Bool → List Requirement → Bool × Bool
unfolding is_name_field contains_str
field_loop node term_ok unsupported [] = (term_ok, unsupported)
field_loop node term_ok unsupported (f ∷ fs) =
    field_loop node
      (if is_name_field f
        then (if contains_str f.values node.name then term_ok else false)
        else false)
      (if is_name_field f then unsupported else true) fs

-- nodeAffinityMatches
unfoldable pub affinity_loop : NodeObject → Bool → List NodeSelectorTerm → Bool × Bool
unfolding expression_holds field_loop
affinity_loop node unsupported [] = (false, unsupported)
affinity_loop node unsupported (term ∷ terms) =
    let fields =
      field_loop node (all (expression_holds node) term.match_expressions) unsupported
        term.match_fields in
    let rest = affinity_loop node fields.1 terms in if fields.0 then (true, fields.1) else rest

unfoldable pub node_affinity_matches : List NodeSelectorTerm → NodeObject → Bool × Bool
unfolding affinity_loop
node_affinity_matches terms node = affinity_loop node false terms

-- tolerates
unfoldable pub tolerates : Toleration → Taint → Bool
tolerates tol t =
    if not (tol.key == "") && not (tol.key == t.key)
    then false
    else if not (tol.effect == "") && not (tol.effect == t.effect)
    then false
    else if tol.operator == "Exists" || tol.operator == ""
    then tol.key == "" || tol.key == t.key
    else if tol.operator == "Equal"
    then tol.value == t.value
    else false

-- taintBlocks
unfoldable pub taint_blocks : List Taint → List Toleration → Bool
unfolding tolerates
taint_blocks [] tols = false
taint_blocks (t ∷ taints) tols =
    let rest = taint_blocks taints tols in
    if not (t.effect == "NoSchedule") && not (t.effect == "NoExecute")
    then rest
    else if any (λ tol. tolerates tol t) tols
    then rest
    else true

-- the sums of the requests
unfoldable pub requested : (Container → ℕ) → List Container → ℕ
requested of [] = 0
requested of (c ∷ cs) = of c + requested of cs

abbrev pub request_of : (Container → ℕ) → PodSpec → ℕ
unfolding requested
request_of of spec = requested of spec.containers + requested of spec.init_containers

abbrev pub is_not_ready : Condition → Bool
is_not_ready c = c.type == "Ready" && c.status == "False"

abbrev pub count_if : Bool → String → List String
count_if test reason = if test then reason ∷ [] else []

abbrev pub affinity_reasons : Option (List NodeSelectorTerm) → NodeObject → List String
unfolding node_affinity_matches
affinity_reasons none node = []
affinity_reasons (some terms) node =
    let matches = node_affinity_matches terms node in
    if matches.1
    then "UNSUPPORTED_SCHEDULER_CONSTRAINT" ∷ []
    else count_if (not matches.0) "NODE_AFFINITY_MISMATCH"

-- the reasons that the loop counts on a node, in order; a node is blocked where there is one
unfoldable pub node_reasons : PodSpec → NodeObject → List String
unfolding labels_match node_affinity_matches taint_blocks requested
node_reasons spec node =
    count_if (any is_not_ready node.conditions) "NO_ELIGIBLE_NODE"
    ++ count_if node.unschedulable "NO_ELIGIBLE_NODE"
    ++ count_if (ltb node.allocatable_cpu (request_of (λ c. c.request_cpu) spec)) "INSUFFICIENT_CPU"
    ++ count_if (ltb node.allocatable_memory (request_of (λ c. c.request_memory) spec))
        "INSUFFICIENT_MEMORY"
    ++ count_if (not (labels_match spec.node_selector node.labels)) "NODE_SELECTOR_MISMATCH"
    ++ affinity_reasons spec.required_affinity node
    ++ count_if (taint_blocks node.taints spec.tolerations) "TAINT_NOT_TOLERATED"

-- reasons[reason]++
unfoldable pub count_reasons : List String → StringMap ℕ → StringMap ℕ
unfolding lookup insert
count_reasons [] m = m
count_reasons (r ∷ rs) m =
    count_reasons rs (insert r (suc (elim (lookup r m) as (λ _. ℕ) [ none ↦ 0 | some n ↦ n ])) m)

-- the loop over the nodes: `reasons` and `eligible`
unfoldable pub node_loop : PodSpec → List (Option NodeObject) → StringMap ℕ → ℕ → StringMap ℕ × ℕ
unfolding node_reasons count_reasons
node_loop spec [] reasons eligible = (reasons, eligible)
node_loop spec (none ∷ nodes) reasons eligible = node_loop spec nodes reasons eligible
node_loop spec (some node ∷ nodes) reasons eligible =
    node_loop spec nodes (count_reasons (node_reasons spec node) reasons)
      (if is_empty (node_reasons spec node) then suc eligible else eligible)

-- `pri`, one higher than in the source, so that 0 is its -1
unfoldable pub priority : String → ℕ
priority k =
    if k == "INSUFFICIENT_CPU"
      || k == "INSUFFICIENT_MEMORY"
      || k == "TAINT_NOT_TOLERATED"
      || k == "NODE_SELECTOR_MISMATCH"
      || k == "NODE_AFFINITY_MISMATCH"
    then 3
    else if k == "UNSUPPORTED_SCHEDULER_CONSTRAINT"
    then 2
    else 1

-- the loop that chooses: `best`, `n` and `bestPri`
unfoldable pub best_reason : StringMap ℕ → String → ℕ → ℕ → String × ℕ
unfolding priority text_lt
best_reason [] best n pri = (best, n)
best_reason ((k, v) ∷ reasons) best n pri =
    let p = priority k in
    let wins =
      ltb pri p || (eqb p pri && (ltb n v || (eqb v n && (best == "" || text_lt k best)))) in
    best_reason reasons (if wins then k else best) (if wins then v else n) (if wins then p else pri)

abbrev scheduler_signal : ResourceRef → ℕ → String → String → Confidence → DiagnosticSignal
unfolding new decimal
scheduler_signal ref id reason msg conf =
    new (String.◌++◌ "E-SCHED-" (decimal id)) Source.scheduler "Scheduler" reason Severity.critical
      conf ref msg

-- the loop over the unsupported constraints
unfoldable pub unsupported_signals : ResourceRef → ℕ → List String → List DiagnosticSignal
unfolding new decimal
unsupported_signals ref id [] = []
unsupported_signals ref id (u ∷ us) =
    scheduler_signal ref id "UNSUPPORTED_SCHEDULER_CONSTRAINT" u Confidence.low
    ∷ unsupported_signals ref (suc id) us

-- what scheduleSignals adds where no node is eligible
abbrev pub blocked_signal :
    ResourceRef → ℕ → List (Option NodeObject) → StringMap ℕ → DiagnosticSignal
unfolding best_reason new decimal
blocked_signal ref id nodes reasons =
    let chosen = best_reason reasons "" 0 0 in
    let best = if chosen.0 == "" then "NO_ELIGIBLE_NODE" else chosen.0 in
    scheduler_signal ref id best
      (String.◌++◌ "approximate eligibility: 0/" (
        String.◌++◌ (decimal (length nodes)) (
          String.◌++◌ " candidate nodes eligible; dominant reason "
            (String.◌++◌ best (String.◌++◌ " (" (String.◌++◌ (decimal chosen.1) " nodes)"))))))
      Confidence.high

-- the nodes that are looked at: the candidates, or the assigned node where there are none
abbrev pub considered : Option NodeObject → List (Option NodeObject) → List (Option NodeObject)
considered none candidates = candidates
considered (some node) [] = some node ∷ []
considered (some node) (c ∷ cs) = c ∷ cs

-- scheduleSignals: the signals, the mode and the counter
unfoldable pub schedule_signals :
    String
    → PodSpec
    → Option NodeObject
    → List (Option NodeObject)
    → Bool
    → List String
    → ResourceRef
    → ℕ
    → List DiagnosticSignal × String × ℕ
unfolding unsupported_signals node_loop best_reason new decimal
schedule_signals phase spec assigned candidates listed unsupported ref id =
    if not (phase == "Pending") || not (spec.node_name == "")
    then ([], "", id)
    else (let out = unsupported_signals ref id unsupported in
        let id = id + length unsupported in
        let mode =
          if is_empty unsupported
          then "approximate_eligibility"
          else "approximate_eligibility_partial" in
        let nodes = considered assigned candidates in
        let counted = node_loop spec nodes [] 0 in
        if not (listed || (is_empty candidates && is_some assigned))
        then (
          out
              ++ scheduler_signal ref id "NO_ELIGIBLE_NODE"
                  "Pod is Pending with no assigned node; candidate node list was not available so scheduling RCA is events-only (not a computed eligibility analysis)"
                  Confidence.low
                ∷ [],
          "events_only",
          suc id,
        )
        else if eqb counted.1 0
        then (out ++ blocked_signal ref id nodes counted.0 ∷ [], mode, suc id)
        else (out, mode, id))
