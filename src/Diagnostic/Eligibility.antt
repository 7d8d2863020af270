-- ===== src/Diagnostic/Eligibility.antt =====
-- internal/diagnostic/pod.go: the answer of scheduleSignals, by the nodes that pass its tests for the pod.
use kube_sre_mcp.Prelude.{Bool, false, ◌&&◌, not, Option, none, some, any, is_empty, ltb}
use kube_sre_mcp.Kube.Spec.{PodSpec, NodeObject}
use kube_sre_mcp.Diagnostic.Scheduler.{
  labels_match, taint_blocks, node_affinity_matches, requested, node_reasons, is_not_ready,
  request_of, affinity_reasons,
}
use kube_sre_mcp.Diagnostic.Eligible.{IsEligible}

-- the node is not blocked, as one test
node_test : PodSpec → NodeObject → Bool
unfolding labels_match node_affinity_matches taint_blocks requested
node_test spec node =
    not (any is_not_ready node.conditions)
    && not node.unschedulable
    && not (ltb node.allocatable_cpu (request_of (λ c. c.request_cpu) spec))
    && not (ltb node.allocatable_memory (request_of (λ c. c.request_memory) spec))
    && not (not (labels_match spec.node_selector node.labels))
    && is_empty (affinity_reasons spec.required_affinity node)
    && not (taint_blocks node.taints spec.tolerations)

-- a node that the loop looks at, and that passes
abbrev pub IsEligibleNode : PodSpec → Option NodeObject → Type 0
IsEligibleNode spec none = ⊥
IsEligibleNode spec (some node) = IsEligible spec node

takes_pod : PodSpec → Option NodeObject → Bool
unfolding node_reasons
takes_pod spec none = false
takes_pod spec (some node) = is_empty (node_reasons spec node)
