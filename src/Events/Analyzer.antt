-- ===== src/Events/Analyzer.antt =====
-- internal/events/analyzer.go: what an event is about.
use Prim.Native.String.{◌++◌}
use kube_sre_mcp.Prelude.{String, Bool, ◌||◌, List, [], ◌∷◌, ◌==◌, first_match, if◌then◌else◌}
use kube_sre_mcp.Prelude.Text.{to_lower, contains}

-- the four results of Classify
pub record EventClass : Type 0 where
  pub category : String
  pub severity : String
  pub explanation : String
  pub hint : String

abbrev class : String → String → String → String → EventClass
class category severity explanation hint = record {
  category = category;
  severity = severity;
  explanation = explanation;
  hint = hint;
}

-- the case "BackOff"
abbrev back_off : String → EventClass
back_off lm =
    if contains lm "image" || contains lm "pull"
    then class "Image" "critical" "The kubelet is backing off an image pull."
        "Verify image name, registry auth, and imagePullSecrets."
    else class "Container" "warning" "The kubelet is backing off restarting a failed container."
        "Inspect container lastState and logs."

-- the `switch` on the reason
reason_rows : String → String → List (Bool × EventClass)
reason_rows r message =
    (
      r == "FailedScheduling" || r == "Preempted" || r == "Evicted",
      class "Scheduling" "critical" "The scheduler could not place the pod."
          "Inspect node resources, taints, affinity, and PVC topology.",
    )
    ∷ (
      r == "ErrImagePull" || r == "ImagePullBackOff",
      class "Image" "critical" "The kubelet could not pull the container image."
          "Verify image name, registry auth, and imagePullSecrets.",
    )
    ∷ (r == "BackOff", back_off (to_lower (r ++ (" " ++ message))))
    ∷ (
      r == "Killing" || r == "Failed" || r == "Created" || r == "Started",
      class "Container" (if r == "Failed" || r == "Killing" then "warning" else "info")
          "Container lifecycle event." "Inspect container lastState and logs.",
    )
    ∷ (
      r == "Unhealthy",
      class "Probe" "warning" "A probe reported the container unhealthy."
          "Inspect readiness/liveness/startup probes.",
    )
    ∷ (
      r == "FailedMount"
          || r == "FailedAttachVolume"
          || r == "FailedBinding"
          || r == "ProvisioningFailed"
          || r == "VolumeResizeFailed",
      class "Storage" "critical" "Volume attach/mount/provision failed."
          "Inspect PVC/PV/StorageClass and volume events.",
    )
    ∷ (
      r == "FailedCreatePodSandBox" || r == "NetworkNotReady",
      class "Networking" "critical" "Pod network sandbox or CNI is not ready."
          "Inspect node NetworkUnavailable and CNI.",
    )
    ∷ (
      r == "FailedCreate" || r == "ReplicaFailure" || r == "ProgressDeadlineExceeded",
      class "Workload" "critical" "Workload controller could not create or progress replicas."
          "Inspect child ReplicaSets/Pods.",
    )
    ∷ (
      r == "FailedGetResourceMetric" || r == "FailedGetScale",
      class "Autoscaling" "warning" "HPA could not read metrics or scale target."
          "Inspect metrics.k8s.io and scale target.",
    )
    ∷ []

-- Classify
unfoldable pub classify_event : String → String → EventClass
unfolding reason_rows
classify_event reason message =
    let m = to_lower message in
    first_match (reason_rows reason message) (
      if contains m "unauthorized" || contains m "authentication"
      then class "Image" "critical" "Registry authentication failure."
          "Refresh imagePullSecret credentials."
      else if reason == ""
      then class "Other" "info" "" ""
      else class "Other" "info" ("Event reason " ++ reason) "")
