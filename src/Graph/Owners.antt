-- ===== src/Graph/Owners.antt =====
-- internal/graph/owners.go. A revision is an int of 64 bits, whose bits the loop keeps.
use Prim.Native.String
use Prim.Native.Char.{Char, code}
use kube_sre_mcp.Prelude.{
  ℕ, ◌+◌, ◌-◌, ◌*◌, ◌^◌, ◌%◌, String, Bool, true, false, ◌&&◌, ◌||◌, not, Option, none, some, List,
  [], ◌∷◌, any, ltb, leb, eqb, ◌==◌, if◌then◌else◌,
}
use kube_sre_mcp.Prelude.Int.{ℤ, pos, negsuc, ℤ_lt, ℤ_eq, is_negative}
use kube_sre_mcp.Model.{ResourceRef}
use kube_sre_mcp.Kube.Types.{OwnerReference, value_of}
use kube_sre_mcp.Kube.Spec.{ObjectMeta, WorkloadObject, ClaimObject}

abbrev pub ref_of : String → String → ObjectMeta → ResourceRef
ref_of api_version kind m = record {
  api_version = api_version;
  kind = kind;
  namespace = m.namespace;
  name = m.name;
  uid = m.uid;
}

-- OwnerRefs
unfoldable pub owner_refs : List OwnerReference → String → List ResourceRef
owner_refs [] ns = []
owner_refs (o ∷ os) ns =
    record {
      api_version = o.api_version;
      kind = o.kind;
      namespace = ns;
      name = o.name;
      uid = o.uid;
    }
    ∷ owner_refs os ns

-- PodRef
unfoldable pub pod_ref : ObjectMeta → ResourceRef
pod_ref p = ref_of "v1" "Pod" p

-- DeployRef
unfoldable pub deploy_ref : ObjectMeta → ResourceRef
deploy_ref d = ref_of "apps/v1" "Deployment" d

-- STSRef
unfoldable pub sts_ref : ObjectMeta → ResourceRef
sts_ref s = ref_of "apps/v1" "StatefulSet" s

-- DSRef
unfoldable pub ds_ref : ObjectMeta → ResourceRef
ds_ref d = ref_of "apps/v1" "DaemonSet" d

-- JobRef
unfoldable pub job_ref : ObjectMeta → ResourceRef
job_ref j = ref_of "batch/v1" "Job" j

-- CronRef
unfoldable pub cron_ref : ObjectMeta → ResourceRef
cron_ref c = ref_of "batch/v1" "CronJob" c

-- OwnedByUID
unfoldable pub owned_by_uid : ObjectMeta → String → Bool
owned_by_uid obj uid = any (λ o. o.uid == uid) obj.owner_references

is_digit : Char → Bool
is_digit c = leb 48 (code c) && leb (code c) 57

all_digits : String → Bool
unfolding is_digit
all_digits String.[] = true
all_digits (String.◌∷◌ c s) = is_digit c && all_digits s

-- what follows a prefix
after_prefix : String → String → Option String
after_prefix String.[] s = some s
after_prefix (String.◌∷◌ p ps) String.[] = none
after_prefix (String.◌∷◌ p ps) (String.◌∷◌ c s) =
    let rest = after_prefix ps s in if eqb (code p) (code c) then rest else none

-- the name is that of a claim of the template: the prefix, and an ordinal behind it
is_claim_of : String → String → Bool
unfolding after_prefix all_digits
is_claim_of prefix name = elim (after_prefix prefix name) [
  | none ↦ false
  | some ord ↦ not (ord == "") && all_digits ord
]

-- STSOwnsPVC
unfoldable pub sts_owns_pvc : WorkloadObject → ClaimObject → Bool
unfolding owned_by_uid is_claim_of
sts_owns_pvc s pvc =
    owned_by_uid pvc.meta s.meta.uid
    || any
        (λ vct.
          is_claim_of (String.◌++◌ vct (String.◌++◌ "-" (String.◌++◌ s.meta.name "-")))
            pvc.meta.name)
        s.claim_templates

-- the loop of ReplicaSetRevision
revision_bits : ℕ → String → ℕ
unfolding is_digit
revision_bits n String.[] = n
revision_bits n (String.◌∷◌ c v) =
    let rest = revision_bits ((n * 10 + (code c - 48)) % 2 ^ 64) v in if is_digit c then rest else n

int_of_bits : ℕ → ℤ
int_of_bits m = if ltb m (2 ^ 63) then pos m else negsuc (2 ^ 64 - 1 - m)

-- ReplicaSetRevision
unfoldable pub replica_set_revision : ObjectMeta → ℤ
unfolding revision_bits int_of_bits
replica_set_revision rs =
    int_of_bits (revision_bits 0 (value_of rs.annotations "deployment.kubernetes.io/revision"))

-- the ReplicaSets that the loop of CurrentReplicaSets keeps
unfoldable pub owned_sets : String → List WorkloadObject → List WorkloadObject
unfolding owned_by_uid
owned_sets uid [] = []
owned_sets uid (rs ∷ rss) =
    let rest = owned_sets uid rss in if owned_by_uid rs.meta uid then rs ∷ rest else rest

-- `maxRev` behind that loop
unfoldable pub max_revision : ℤ → List WorkloadObject → ℤ
max_revision best [] = best
max_revision best (rs ∷ rss) =
    max_revision
      (if ℤ_lt best (replica_set_revision rs.meta) then replica_set_revision rs.meta else best) rss

-- the second loop: the ReplicaSets with the revision, and the others
unfoldable pub split_by_revision :
    ℤ → List WorkloadObject → List WorkloadObject × List WorkloadObject
split_by_revision rev [] = ([], [])
split_by_revision rev (rs ∷ rss) =
    let rest = split_by_revision rev rss in
    if ℤ_eq (replica_set_revision rs.meta) rev then (rs ∷ rest.0, rest.1) else (rest.0, rs ∷ rest.1)

-- CurrentReplicaSets: `current` and `old`
unfoldable pub current_replica_sets :
    ObjectMeta → List WorkloadObject → List WorkloadObject × List WorkloadObject
unfolding owned_sets max_revision split_by_revision
current_replica_sets d rss =
    let owned = owned_sets d.uid rss in
    let rev = max_revision (negsuc 0) owned in
    if is_negative rev then (owned, []) else split_by_revision rev owned
