-- ===== src/Kube/Kind.antt =====
-- internal/kube/discovery.go: the names of kinds.
use kube_sre_mcp.Prelude.{String, Bool, ◌||◌, Option, none, some, [], ◌∷◌, ◌==◌, if◌then◌else◌}
use kube_sre_mcp.Prelude.Map.{StringMap, lookup}
use kube_sre_mcp.Prelude.Text.{to_lower}

abbrev pub aliases : StringMap String
aliases =
    ("po", "Pod")
    ∷ ("pod", "Pod")
    ∷ ("pods", "Pod")
    ∷ ("deploy", "Deployment")
    ∷ ("deployment", "Deployment")
    ∷ ("deployments", "Deployment")
    ∷ ("sts", "StatefulSet")
    ∷ ("statefulset", "StatefulSet")
    ∷ ("statefulsets", "StatefulSet")
    ∷ ("ds", "DaemonSet")
    ∷ ("daemonset", "DaemonSet")
    ∷ ("daemonsets", "DaemonSet")
    ∷ ("svc", "Service")
    ∷ ("service", "Service")
    ∷ ("services", "Service")
    ∷ ("ing", "Ingress")
    ∷ ("ingress", "Ingress")
    ∷ ("ingresses", "Ingress")
    ∷ ("cm", "ConfigMap")
    ∷ ("configmap", "ConfigMap")
    ∷ ("configmaps", "ConfigMap")
    ∷ ("secret", "Secret")
    ∷ ("secrets", "Secret")
    ∷ ("pvc", "PersistentVolumeClaim")
    ∷ ("persistentvolumeclaim", "PersistentVolumeClaim")
    ∷ ("pv", "PersistentVolume")
    ∷ ("persistentvolume", "PersistentVolume")
    ∷ ("ns", "Namespace")
    ∷ ("namespace", "Namespace")
    ∷ ("namespaces", "Namespace")
    ∷ ("sa", "ServiceAccount")
    ∷ ("serviceaccount", "ServiceAccount")
    ∷ ("job", "Job")
    ∷ ("jobs", "Job")
    ∷ ("cronjob", "CronJob")
    ∷ ("cronjobs", "CronJob")
    ∷ ("rs", "ReplicaSet")
    ∷ ("replicaset", "ReplicaSet")
    ∷ ("replicasets", "ReplicaSet")
    ∷ ("hpa", "HorizontalPodAutoscaler")
    ∷ ("pdb", "PodDisruptionBudget")
    ∷ ("node", "Node")
    ∷ ("nodes", "Node")
    ∷ ("ep", "Endpoints")
    ∷ ("endpoints", "Endpoints")
    ∷ ("eps", "EndpointSlice")
    ∷ ("endpointslice", "EndpointSlice")
    ∷ ("endpointslices", "EndpointSlice")
    ∷ ("netpol", "NetworkPolicy")
    ∷ ("networkpolicy", "NetworkPolicy")
    ∷ ("role", "Role")
    ∷ ("clusterrole", "ClusterRole")
    ∷ ("rolebinding", "RoleBinding")
    ∷ ("clusterrolebinding", "ClusterRoleBinding")
    ∷ ("quota", "ResourceQuota")
    ∷ ("resourcequota", "ResourceQuota")
    ∷ ("sc", "StorageClass")
    ∷ ("storageclass", "StorageClass")
    ∷ []

abbrev alias_or : String → Option String → String
alias_or raw none = raw
alias_or raw (some kind) = kind

unfoldable pub normalize_kind : String → String
unfolding lookup to_lower
normalize_kind raw = if raw == "" then raw else alias_or raw (lookup (to_lower raw) aliases)

unfoldable pub is_cluster_scoped_kind : String → Bool
unfolding normalize_kind
is_cluster_scoped_kind raw =
    let kind = normalize_kind raw in
    kind == "Node"
    || kind == "Namespace"
    || kind == "PersistentVolume"
    || kind == "StorageClass"
    || kind == "ClusterRole"
    || kind == "ClusterRoleBinding"
    || kind == "IngressClass"
