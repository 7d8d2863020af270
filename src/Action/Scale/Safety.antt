-- ===== src/Action/Scale/Safety.antt =====
-- internal/action/engine.go: what Scale changes, and when.
use kube_sre_mcp.Prelude.{
  String, ◌≡◌, refl, Bool, true, false, not, ◌&&◌, ◌⊎◌, Option, none, some, ◌==◌, arith, eq_iff,
}
use kube_sre_mcp.Message.{Message}
use kube_sre_mcp.Action.Store.{ok, Pending}
use kube_sre_mcp.Action.Store.Bind.{IsSameAction}
use kube_sre_mcp.Action.Store.Expiry.{IsValid}
use kube_sre_mcp.Action.Cluster.{Request, History, ClusterClient, Env, World, finish}
use kube_sre_mcp.Action.Engine.{Engine, disabled_result, cluster_for, recreated}
use kube_sre_mcp.Action.Engine.Reads.{
  Allowed, Allowed-earlier, require_allowed-Reads, HasUid, deployment, stateful_set, replica_set,
  current_uid-Reads, Scaled, Scaled-later, require_hpas-Reads,
}
use kube_sre_mcp.Action.Requests.{now, Sent-later, Since-trans}
use kube_sre_mcp.Action.Rules.{Reads, Reads-pure, Reads-if, Reads-send, Reads-or_return, Reads-bind}
use kube_sre_mcp.Action.Rules.Changes.{
  Refused, Executes, Executes-return_early, Executes-if, Executes-bind, Executes-mutate,
  Executes-allowed,
}
use kube_sre_mcp.Action.Rules.Tokens.{
  Confirmed, Guarded, Guarded-return_early, Guarded-if, Guarded-bind, Guarded-confirm,
}
use kube_sre_mcp.Prelude.Int.{ℤ, is_negative, ℤ_lt}
use kube_sre_mcp.Kube.Kind.{normalize_kind}
use kube_sre_mcp.Action.Scale.{
  scaled_resource, scale_patch, scale_target, scale_execute, scale_want, scale_plan, scale_resource,
  scale_known, scale,
}

-- The one change that a scaling makes, behind the requests of `last`: of the object that was
-- confirmed, which was read behind those of `taken`, and the autoscalers behind that; one that
-- targets it was known when it was confirmed.
pub record ScaleChange (cl : ClusterClient) (kind resource name ns : String) (replicas : ℤ)
    (stored : Pending) (taken last : History) (request : Request) (answer : Option Message)
    : Type 0 where
  pub middle : History
  pub same_object : HasUid cl ns kind name taken middle stored.uid
  pub has_hpa : Bool
  pub hpas : Scaled cl ns kind name middle last has_hpa
  pub known : has_hpa ≡ true → stored.hpa_present ≡ true
  pub is :
      request ≡ record { context = cl.context_name; call = scale_patch resource ns name replicas }
  pub answered : cl.api.mutate last request.call ≡ answer

scale_execute-Executes :
    (cl : ClusterClient) (kind resource name ns : String) (replicas : ℤ) (stored : Pending)
    (taken : History)
    → Executes taken
        (ScaleChange cl kind resource name ns replicas stored taken)
        (scale_execute cl ns kind resource name replicas stored)
unfolding scale_execute
scale_execute-Executes cl kind resource name ns replicas stored taken =
    Executes-bind _ _ (current_uid-Reads cl ns kind name taken) λ live_uid h1 _ has.
      Executes-if (not (live_uid == stored.uid)) _ _
        (λ b. Executes-return_early recreated (λ p. cc))
        (λ b. Executes-bind _ _ (require_hpas-Reads cl ns kind name _ h1) λ hpa_now h2 _ hpas.
          Executes-if (hpa_now && not stored.hpa_present) _ _
            (λ b. Executes-return_early _ (λ p. cc))
            (λ c. Executes-mutate cl _ _ refl refl λ g s. record {
              middle = h1;
              same_object =
                  let e : live_uid ≡ stored.uid = ground (arith, eq_iff live_uid stored.uid) in
                  rw e at has;
              has_hpa = hpa_now;
              hpas = Scaled-later cl ns kind name s hpas;
              known = λ k. ground arith;
              is = refl;
              answered = refl;
            }))

-- the target that the first look finds
scale_target-Reads :
    (cl : ClusterClient) (ns kind name resource : String) (base : History)
    → scaled_resource kind ≡ some resource
    → Reads base (λ h t. HasUid cl ns kind name base h t.uid) (scale_target cl ns kind name)
unfolding scale_target scaled_resource
scale_target-Reads cl ns kind name resource base known =
    Reads-if (kind == "Deployment") _ _
      (λ b. Reads-bind _ _ (Reads-send cl _ _ refl) λ reply h1 _ replied.
        Reads-bind _ _ (Reads-or_return _ reply (λ e. λ p. cc)) λ d h2 s2 same. Reads-pure _ λ h s.
          deployment replied.before d ((eq_iff kind "Deployment").0 b)
            (Sent-later (Since-trans s2 s) replied.sent) (ground (arith, replied.is)))
      (λ n.
        Reads-if (kind == "StatefulSet") _ _
          (λ b. Reads-bind _ _ (Reads-send cl _ _ refl) λ reply h1 _ replied.
            Reads-bind _ _ (Reads-or_return _ reply (λ e. λ p. cc)) λ d h2 s2 same.
              Reads-pure _ λ h s.
                stateful_set replied.before d ((eq_iff kind "StatefulSet").0 b)
                  (Sent-later (Since-trans s2 s) replied.sent) (ground (arith, replied.is)))
          (λ n'.
            Reads-if (kind == "ReplicaSet") _ _
              (λ b. Reads-bind _ _ (Reads-send cl _ _ refl) λ reply h1 _ replied.
                Reads-bind _ _ (Reads-or_return _ reply (λ e. λ p. cc)) λ d h2 s2 same.
                  Reads-pure _ λ h s.
                    replica_set replied.before d ((eq_iff kind "ReplicaSet").0 b)
                      (Sent-later (Since-trans s2 s) replied.sent) (ground (arith, replied.is)))
              (λ n''. Reads-pure _ (λ h s. elim (absurd n n' n'') [ ]))))
  where
    absurd :
        (kind == "Deployment") ≡ false
        → (kind == "StatefulSet") ≡ false
        → (kind == "ReplicaSet") ≡ false
        → ⊥
    absurd a b c = ground arith

-- What a scaling needs, from the requests of `start` on: the flag, a replica count in range, a kind
-- that can be scaled, the access, a first look at the object and at the autoscalers, and behind it a
-- confirmation of this count, behind whose requests the change is made.
pub record ScaleAllowed (e : Engine) (raw_kind name ns : String) (replicas : ℤ) (kube_ctx : String)
    (start : History) (stored : Pending) (last : History) (request : Request)
    (answer : Option Message) : Type 0 where
  pub enabled : e.cfg.actions_enabled ≡ true
  pub from_zero : is_negative replicas ≡ false
  pub to_max : ℤ_lt e.cfg.max_replicas replicas ≡ false
  pub resource : String
  pub scalable : scaled_resource (normalize_kind raw_kind) ≡ some resource
  pub cl : ClusterClient
  pub cluster : cluster_for e kube_ctx ≡ ok cl
  pub asked : History
  pub access : Allowed cl "patch" resource "apps" ns name start asked
  pub uid : String
  pub looked : History
  pub shown : HasUid cl ns (normalize_kind raw_kind) name asked looked uid
  pub hpa_owns : Bool
  pub taken : History
  pub hpas_shown : Scaled cl ns (normalize_kind raw_kind) name looked taken hpa_owns
  pub confirmed :
      IsSameAction stored (scale_want cl (normalize_kind raw_kind) name ns replicas uid hpa_owns)
  pub change :
      ScaleChange cl
        (normalize_kind raw_kind)
        resource
        name
        ns
        replicas
        stored
        taken
        last
        request
        answer

scale_resource-Guarded :
    (env : Env) (e : Engine) (raw_kind resource name ns : String) (replicas : ℤ)
    (confirm_id kube_ctx : String) (start : History)
    → e.cfg.actions_enabled ≡ true
    → is_negative replicas ≡ false
    → ℤ_lt e.cfg.max_replicas replicas ≡ false
    → scaled_resource (normalize_kind raw_kind) ≡ some resource
    → Guarded start env confirm_id (ScaleAllowed e raw_kind name ns replicas kube_ctx start) (
        scale_resource env e
          (normalize_kind raw_kind)
          resource
          name
          ns
          replicas
          confirm_id
          kube_ctx)
unfolding scale_resource
scale_resource-Guarded env e raw_kind resource name ns replicas confirm_id kube_ctx start on low
      high known =
    let kind = normalize_kind raw_kind in
    Guarded-bind _ _ (Reads-or_return _ (cluster_for e kube_ctx) (λ x. λ p. cc)) λ cl h1 s1 chosen.
      Guarded-bind _ _ (require_allowed-Reads cl _ _ _ _ _ h1) λ _ h2 _ access.
        Guarded-bind _ _ (scale_target-Reads cl ns kind name resource h2 known) λ target h3 _ shown.
          Guarded-bind _ _ (require_hpas-Reads cl ns kind name _ h3) λ hpa_owns h4 _ hpas.
            Guarded-confirm (scale_want cl kind name ns replicas target.uid hpa_owns)
              (scale_plan cl replicas target hpa_owns) _ (λ r. refl)
              λ taken stored s5 same.
                Executes-allowed
                  (λ last request answer change. record {
                    enabled = on;
                    from_zero = low;
                    to_max = high;
                    resource = resource;
                    scalable = known;
                    cl = cl;
                    cluster = chosen;
                    asked = h2;
                    access = Allowed-earlier s1 access;
                    uid = target.uid;
                    looked = h3;
                    shown = shown;
                    hpa_owns = hpa_owns;
                    taken = taken;
                    hpas_shown = Scaled-later cl ns kind name s5 hpas;
                    confirmed = same;
                    change = change;
                  })
                  (scale_execute-Executes cl kind resource name ns replicas stored taken)

scale-Guarded :
    (env : Env) (e : Engine) (raw_kind name ns : String) (replicas : ℤ)
    (confirm_id kube_ctx : String) (start : History)
    → Guarded start env confirm_id
        (ScaleAllowed e raw_kind name ns replicas kube_ctx start)
        (scale env e raw_kind name ns replicas confirm_id kube_ctx)
unfolding scale disabled_result
scale-Guarded env e raw_kind name ns replicas confirm_id kube_ctx start =
    Guarded-if (not e.cfg.actions_enabled) _ _ (λ _. Guarded-return_early _ (λ p. cc))
      λ on.
        Guarded-if (is_negative replicas) _ _ (λ _. Guarded-return_early _ (λ p. cc))
          λ low.
            Guarded-if (ℤ_lt e.cfg.max_replicas replicas) _ _
              (λ _. Guarded-return_early _ (λ p. cc))
              λ high.
                of_resource (scaled_resource (normalize_kind raw_kind)) refl (ground arith) low high
  where
    of_resource :
        (r : Option String)
        → scaled_resource (normalize_kind raw_kind) ≡ r
        → e.cfg.actions_enabled ≡ true
        → is_negative replicas ≡ false
        → ℤ_lt e.cfg.max_replicas replicas ≡ false
        → Guarded start env confirm_id
            (ScaleAllowed e raw_kind name ns replicas kube_ctx start)
            (scale_known env e raw_kind name ns replicas confirm_id kube_ctx r)
    of_resource none known on low high = Guarded-return_early _ (λ p. cc)
    of_resource (some resource) known on low high =
        scale_resource-Guarded env e raw_kind resource name ns replicas confirm_id kube_ctx start on
          low high known

-- Scale changes nothing and reports no success, or else it asks for one change, as its last request:
-- actions are enabled, the replica count is not negative and not above the configured maximum, the
-- kind can be scaled, the API allowed this access when asked in this call, the object and then the
-- autoscalers were looked at, the token stood in the store, unexpired, for the scaling of the object
-- looked at to this count in this context, and is used up; after that look the object was read by
-- one more request of this call and then has the UID that was confirmed, after that read the
-- autoscalers were listed again, one that targets the object then was known when it was confirmed,
-- and the change sets this count; success is reported exactly if the API answers without an error.
pub scale-Confirmed :
    (env : Env) (e : Engine) (raw_kind name ns : String) (replicas : ℤ)
    (confirm_id kube_ctx : String) (w : World)
    → IsValid w.store
    → let o = scale env e raw_kind name ns replicas confirm_id kube_ctx w in
      Refused w o.1 (finish o.0)
      ⊎ Confirmed env confirm_id
          (ScaleAllowed e raw_kind name ns replicas kube_ctx w.history)
          w
          o.1
          (finish o.0)
scale-Confirmed env e raw_kind name ns replicas confirm_id kube_ctx w =
    (scale-Guarded env e raw_kind name ns replicas confirm_id kube_ctx w.history).does w now
