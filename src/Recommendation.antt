-- ===== src/Recommendation.antt =====
-- internal/recommendation/engine.go
use kube_sre_mcp.Prelude.{ℕ, String, Bool, not, ◌||◌, List, [], ◌∷◌, ◌==◌, first_match}
use kube_sre_mcp.Prelude.Int.{pos}
use kube_sre_mcp.Model.{RecommendedAction}

abbrev advice : ℕ → String → String → RecommendedAction
advice priority action tool = record { priority = pos priority; action = action; tool = tool }

advice_rows : String → List (Bool × List RecommendedAction)
advice_rows category =
    (
      category == "REGISTRY_AUTHENTICATION_FAILURE" || category == "registry_authentication",
      advice 1
            "Verify imagePullSecret on the Pod/ServiceAccount (type kubernetes.io/dockerconfigjson)."
            ""
          ∷ advice 2 "Inspect Secret metadata/keys only — never the .data payload." ""
          ∷ advice 3 "Validate registry hostname and refresh expired credentials." ""
          ∷ [],
    )
    ∷ (
      category == "IMAGE_NOT_FOUND" || category == "image_not_found",
      advice 1 "Verify image name and tag exist in the registry." "" ∷ [],
    )
    ∷ (
      category == "OOM_KILLED" || category == "oom_killed",
      advice 1 "Compare current/previous memory usage with the container memory limit." ""
          ∷ advice 2 "Inspect previous logs for allocation failures." ""
          ∷ advice 3 "Raise the memory limit or fix a leak; restart alone will not fix a leak." ""
          ∷ [],
    )
    ∷ (
      category == "CRASH_LOOP" || category == "crash_loop",
      advice 1 "Inspect current and previous container logs (already collected when possible)." ""
          ∷ advice 2 "Check probes, env, ConfigMaps and Secrets." ""
          ∷ [],
    )
    ∷ (
      category == "FAILED_MOUNT"
          || category == "failed_mount"
          || category == "FAILED_ATTACH_VOLUME",
      advice 1 "Inspect PVC/Secret/ConfigMap volume dependencies and volume Events." "" ∷ [],
    )
    ∷ (
      category == "INSUFFICIENT_CPU" || category == "INSUFFICIENT_MEMORY",
      advice 1 "Lower requests or add node capacity; inspect node allocatable vs requests." "" ∷ [],
    )
    ∷ (
      category == "TAINT_NOT_TOLERATED",
      advice 1 "Add matching tolerations or remove the blocking taint." "" ∷ [],
    )
    ∷ (
      category == "NODE_AFFINITY_MISMATCH" || category == "NODE_SELECTOR_MISMATCH",
      advice 1 "Align nodeSelector/required nodeAffinity with node labels." "" ∷ [],
    )
    ∷ (
      category == "READINESS_PROBE_FAILED"
          || category == "LIVENESS_PROBE_FAILED"
          || category == "STARTUP_PROBE_FAILED",
      advice 1 "Fix the application endpoint or relax probe timing; do not restart blindly." ""
          ∷ [],
    )
    ∷ (
      category == "SERVICE_NO_MATCHING_PODS"
          || category == "SERVICE_NO_READY_PODS"
          || category == "SERVICE_NO_ENDPOINTS",
      advice 1 "Diagnose selected Pods with k8s_diagnose_pod; verify labels and readiness." ""
          ∷ advice 2 "Deep-diagnose matching pods." "k8s_diagnose_pod"
          ∷ [],
    )
    ∷ (
      category == "INGRESS_BACKEND_MISSING" || category == "INGRESS_TLS_SECRET_MISSING",
      advice 1 "Create the missing backend Service or TLS Secret." "" ∷ [],
    )
    ∷ (
      category == "PVC_PENDING"
          || category == "STORAGE_CLASS_NOT_FOUND"
          || category == "PROVISIONING_FAILED",
      advice 1 "Inspect StorageClass, provisioner Events, and PV capacity/topology." "" ∷ [],
    )
    ∷ (
      category == "PROGRESS_DEADLINE_EXCEEDED",
      advice 1 "Inspect ReplicaSet and Pod RCA; a restart will not fix image/config errors." ""
          ∷ [],
    )
    ∷ []

-- For
unfoldable pub advice_for : String → List RecommendedAction
unfolding advice_rows
advice_for category =
    first_match (advice_rows category)
      (advice 1 "Inspect supporting evidence and related graph nodes." "" ∷ [])

unfoldable pub restart_useful : String → Bool
restart_useful category = not (
    category == "REGISTRY_AUTHENTICATION_FAILURE"
    || category == "IMAGE_NOT_FOUND"
    || category == "IMAGE_PULL_FAILURE"
    || category == "MISSING_SECRET"
    || category == "MISSING_CONFIGMAP"
    || category == "CONFIG_ERROR"
    || category == "FAILED_MOUNT"
    || category == "INSUFFICIENT_CPU"
    || category == "INSUFFICIENT_MEMORY"
    || category == "TAINT_NOT_TOLERATED"
    || category == "UNSCHEDULABLE"
    || category == "NO_ELIGIBLE_NODE"
    || category == "FAILED_ATTACH_VOLUME")
