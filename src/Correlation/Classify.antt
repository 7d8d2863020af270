-- ===== src/Correlation/Classify.antt =====
-- internal/correlation/engine.go: the category of a signal.
use Prim.Native.String.{◌++◌}
use kube_sre_mcp.Prelude.{String, Bool, ◌&&◌, ◌||◌, List, [], ◌∷◌, ◌==◌, first_match, if◌then◌else◌}
use kube_sre_mcp.Prelude.Text.{to_lower, to_upper, contains}
use kube_sre_mcp.Signal.{DiagnosticSignal, log, status, event, source_eq, is_critical, is_warning}

-- the text that the tests read
abbrev pub blob : DiagnosticSignal → String
blob s = to_lower (s.reason ++ (" " ++ (s.category ++ (" " ++ s.message))))

unfoldable pub is_image_pull_context : DiagnosticSignal → Bool
is_image_pull_context s =
    let text = blob s in
    let reason = to_lower s.reason in
    contains text "imagepull"
    || contains text "errimagepull"
    || contains text "pulling image"
    || contains text "failed to pull"
    || contains text "registry"
    || contains text "imagepullbackoff"
    || ((source_eq s.source status || source_eq s.source event)
        && (reason == "imagepullbackoff"
            || reason == "errimagepull"
            || reason == "failedtopullimage"
            || reason == "inspectfailed"))

-- the tests before the first `switch`; `r` is the text
early_rows : DiagnosticSignal → String → List (Bool × String)
early_rows s r =
    (
      is_image_pull_context s
          && (contains r "unauthorized" || contains r "authentication" || contains r "denied"),
      "REGISTRY_AUTHENTICATION_FAILURE",
    )
    ∷ (
      contains r "manifest unknown" || (contains r "not found" && contains r "image"),
      "IMAGE_NOT_FOUND",
    )
    ∷ (contains r "rate limit" || contains r "toomanyrequests", "REGISTRY_RATE_LIMIT")
    ∷ (contains r "x509" || (contains r "tls" && contains r "image"), "REGISTRY_TLS_ERROR")
    ∷ (
      source_eq s.source log
          && (contains r "auth_failure"
              || contains r "401"
              || contains r "403"
              || contains r "unauthorized"
              || contains r "forbidden"),
      "APPLICATION_AUTH_FAILURE",
    )
    ∷ []

-- the `switch` on the reason in upper case, `u`
reason_rows : String → List (Bool × String)
reason_rows u =
    (u == "OOMKILLED" || u == "OOM", "OOM_KILLED")
    ∷ (u == "IMAGEPULLBACKOFF" || u == "ERRIMAGEPULL", "IMAGE_PULL_FAILURE")
    ∷ (u == "CRASHLOOPBACKOFF", "CRASH_LOOP")
    ∷ (u == "READINESS_PROBE_FAILED", "READINESS_PROBE_FAILED")
    ∷ (u == "LIVENESS_PROBE_FAILED", "LIVENESS_PROBE_FAILED")
    ∷ (u == "STARTUP_PROBE_FAILED", "STARTUP_PROBE_FAILED")
    ∷ (u == "INSUFFICIENT_CPU", "INSUFFICIENT_CPU")
    ∷ (u == "INSUFFICIENT_MEMORY", "INSUFFICIENT_MEMORY")
    ∷ (u == "NODE_SELECTOR_MISMATCH", "NODE_SELECTOR_MISMATCH")
    ∷ (u == "NODE_AFFINITY_MISMATCH", "NODE_AFFINITY_MISMATCH")
    ∷ (u == "TAINT_NOT_TOLERATED", "TAINT_NOT_TOLERATED")
    ∷ (u == "NO_ELIGIBLE_NODE", "NO_ELIGIBLE_NODE")
    ∷ (u == "UNSUPPORTED_SCHEDULER_CONSTRAINT", "UNSUPPORTED_SCHEDULER_CONSTRAINT")
    ∷ []

-- the last `switch`
text_rows : DiagnosticSignal → String → List (Bool × String)
text_rows s r =
    (
      is_image_pull_context s
          && (contains r "unauthorized" || contains r "authentication" || contains r "denied"),
      "REGISTRY_AUTHENTICATION_FAILURE",
    )
    ∷ (
      contains r "unauthorized" || contains r "authentication",
      if is_image_pull_context s
          then "REGISTRY_AUTHENTICATION_FAILURE"
          else "APPLICATION_AUTH_FAILURE",
    )
    ∷ (
      contains r "manifest unknown" || (contains r "not found" && contains r "image"),
      "IMAGE_NOT_FOUND",
    )
    ∷ (contains r "rate limit" || contains r "toomanyrequests", "REGISTRY_RATE_LIMIT")
    ∷ (contains r "x509" || (contains r "tls" && contains r "image"), "REGISTRY_TLS_ERROR")
    ∷ (contains r "imagepull" || contains r "errimagepull", "IMAGE_PULL_FAILURE")
    ∷ (contains r "oomkill" || s.reason == "oom" || s.reason == "OOMKilled", "OOM_KILLED")
    ∷ (contains r "crashloop", "CRASH_LOOP")
    ∷ (
      contains r "missing_secret" || (contains r "secret" && contains r "createcontainerconfig"),
      "MISSING_SECRET",
    )
    ∷ (contains r "createcontainerconfig" || contains r "missing_configmap", "MISSING_CONFIGMAP")
    ∷ (contains r "createcontainer", "CONFIG_ERROR")
    ∷ (contains r "containercannotrun" || contains r "runcontainererror", "CONTAINER_CANNOT_RUN")
    ∷ (contains r "insufficient_cpu" || contains r "insufficient cpu", "INSUFFICIENT_CPU")
    ∷ (contains r "insufficient_memory" || contains r "insufficient memory", "INSUFFICIENT_MEMORY")
    ∷ (contains r "taint", "TAINT_NOT_TOLERATED")
    ∷ (contains r "nodeselector", "NODE_SELECTOR_MISMATCH")
    ∷ (contains r "affinity" || contains r "didn't match", "NODE_AFFINITY_MISMATCH")
    ∷ (contains r "unsupported_scheduler", "UNSUPPORTED_SCHEDULER_CONSTRAINT")
    ∷ (contains r "pvc" && contains r "schedul", "PVC_TOPOLOGY_CONFLICT")
    ∷ (
      contains r "failedscheduling" || contains r "unschedulable" || contains r "no_eligible",
      "NO_ELIGIBLE_NODE",
    )
    ∷ (contains r "readiness", "READINESS_PROBE_FAILED")
    ∷ (contains r "liveness", "LIVENESS_PROBE_FAILED")
    ∷ (contains r "startup", "STARTUP_PROBE_FAILED")
    ∷ (contains r "failedattach", "FAILED_ATTACH_VOLUME")
    ∷ (contains r "failedmount" || s.reason == "FailedMount", "FAILED_MOUNT")
    ∷ (contains r "evict", "EVICTED")
    ∷ (contains r "progressdeadline", "PROGRESS_DEADLINE_EXCEEDED")
    ∷ (contains r "backoff_limit" || contains r "backofflimit", "BACKOFF_LIMIT_EXCEEDED")
    ∷ (
      contains r "job_pod_failed" || (s.category == "Job" && contains r "failed"),
      "JOB_POD_FAILED",
    )
    ∷ (contains r "service_no_selector", "SERVICE_NO_SELECTOR")
    ∷ (contains r "service_no_matching" || contains r "nomatchingpods", "SERVICE_NO_MATCHING_PODS")
    ∷ (contains r "service_no_ready" || contains r "noreadypods", "SERVICE_NO_READY_PODS")
    ∷ (contains r "service_no_endpoints" || contains r "emptyendpoints", "SERVICE_NO_ENDPOINTS")
    ∷ (contains r "port_mismatch" || contains r "target_port", "SERVICE_PORT_MISMATCH")
    ∷ (
      contains r "ingress_backend_missing" || contains r "backendservicemissing",
      "INGRESS_BACKEND_MISSING",
    )
    ∷ (contains r "ingress_backend_port", "INGRESS_BACKEND_PORT_INVALID")
    ∷ (contains r "ingress_no_ready", "INGRESS_NO_READY_ENDPOINTS")
    ∷ (contains r "tlssecret" || contains r "tls_secret", "INGRESS_TLS_SECRET_MISSING")
    ∷ (contains r "ingress_class", "INGRESS_CLASS_MISSING")
    ∷ (contains r "pvc_pending" || contains r "pvcpending", "PVC_PENDING")
    ∷ (contains r "storageclass" && contains r "not", "STORAGE_CLASS_NOT_FOUND")
    ∷ (contains r "provisioning", "PROVISIONING_FAILED")
    ∷ (contains r "diskpressure", "NODE_DISK_PRESSURE")
    ∷ (contains r "memorypressure", "NODE_MEMORY_PRESSURE")
    ∷ (contains r "pidpressure", "NODE_PID_PRESSURE")
    ∷ (contains r "networkunavailable", "NODE_NETWORK_UNAVAILABLE")
    ∷ (contains r "notready" && contains r "node", "NODE_NOT_READY")
    ∷ (is_critical s.severity, to_upper s.reason)
    ∷ (is_warning s.severity, to_upper s.reason)
    ∷ []

unfoldable pub classify : DiagnosticSignal → String
unfolding early_rows reason_rows text_rows
classify s =
    let r = blob s in
    first_match (early_rows s r)
      (first_match (reason_rows (to_upper s.reason)) (first_match (text_rows s r) "noise"))
