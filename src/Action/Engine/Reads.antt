-- ===== src/Action/Engine/Reads.antt =====
-- internal/action/engine.go and authorization.go: the parts that the handlers share only read.
use kube_sre_mcp.Prelude.{String, ◌≡◌, refl, Bool, true, false, List, ◌==◌, any, arith, eq_iff}
use kube_sre_mcp.Action.Store.{ok, err}
use kube_sre_mcp.Kube.Types.{HorizontalPodAutoscaler, AccessReview, Deployment, Workload}
use kube_sre_mcp.Action.Cluster.{Reply, Call, review, get, list, History, ClusterClient, or_return}
use kube_sre_mcp.Action.Requests.{Since, Sent, Sent-later, Since-trans}
use kube_sre_mcp.Action.Engine.{
  refusal, preflight_failed, err_msg, require_allowed, has_hpa, require_hpas, current_uid,
  has_hpa_v1, after_hpas_v2, any_hpa,
}
use kube_sre_mcp.Message.{text, ◌<>◌}
use kube_sre_mcp.Action.Guards.{hpa_matches}
use kube_sre_mcp.Action.Rules.{
  Same-refl, Reads, Reads-pure, Reads-return_early, Reads-if, Reads-send, Reads-or_return,
  Reads-bind,
}

-- the API allowed the access when asked between `first` and `last`
pub record Allowed (cl : ClusterClient) (verb resource group namespace name : String)
    (first last : History) : Type 0 where
  pub before : History
  pub sent :
      Sent cl
        (review (record {
          verb = verb;
          resource = resource;
          group = group;
          namespace = namespace;
          name = name;
        }))
        first
        last
        before
  pub answer : AccessReview
  pub reviewed :
      cl.api.review_access before (record {
        verb = verb;
        resource = resource;
        group = group;
        namespace = namespace;
        name = name;
      })
      ≡ ok answer
  pub allowed : answer.allowed ≡ true

pub Allowed-earlier :
    {cl : ClusterClient} {verb resource group namespace name : String} {first first' last : History}
    → Since first' first
    → Allowed cl verb resource group namespace name first last
    → Allowed cl verb resource group namespace name first' last
Allowed-earlier s a = record {
  before = a.before;
  sent = record { earlier = Since-trans s a.sent.earlier; until = a.sent.until };
  answer = a.answer;
  reviewed = a.reviewed;
  allowed = a.allowed;
}

pub require_allowed-Reads :
    (cl : ClusterClient) (verb resource group namespace name : String) (base : History)
    → Reads base
        (λ h _. Allowed cl verb resource group namespace name base h)
        (require_allowed cl verb resource group namespace name)
unfolding require_allowed
require_allowed-Reads cl verb resource group namespace name base =
    Reads-bind _ _ (Reads-send cl _ _ refl) λ reply h1 _ replied.
      Reads-bind _ _ (Reads-or_return _ reply (λ e. λ p. cc)) λ out h2 s2 same.
        Reads-if out.allowed _ _
          (λ b. Reads-pure tt λ h s. record {
            before = replied.before;
            sent = Sent-later (Since-trans s2 s) replied.sent;
            answer = out;
            reviewed = ground (arith, replied.is);
            allowed = b;
          })
          (λ b. Reads-return_early _ (λ p. cc))

module _ (cl : ClusterClient) (ns kind name : String) where
  abbrev hpas_v2 : Call
  hpas_v2 = list "horizontalpodautoscalers.v2.autoscaling" ns ""

  abbrev hpas_v1 : Call
  hpas_v1 = list "horizontalpodautoscalers.v1.autoscaling" ns ""

  -- whether an autoscaler targets the object, by the lists of v2 and then v1 that the API gave when
  -- asked between `first` and `last`
  pub data Scaled (first last : History) : Bool → Type 0 where
    by_v2 :
        (h : History) (items : List HorizontalPodAutoscaler)
        → Sent cl hpas_v2 first last h
        → cl.api.list_hpas_v2 h ns ≡ ok items
        → any (hpa_matches kind name) items ≡ true
        → Scaled first last true
    by_v1 :
        (h m h' : History) (items items' : List HorizontalPodAutoscaler) (b : Bool)
        → Sent cl hpas_v2 first m h
        → cl.api.list_hpas_v2 h ns ≡ ok items
        → any (hpa_matches kind name) items ≡ false
        → Sent cl hpas_v1 m last h'
        → cl.api.list_hpas_v1 h' ns ≡ ok items'
        → any (hpa_matches kind name) items' ≡ b
        → Scaled first last b

  abbrev pub ScaledReply : History → History → Reply Bool → Type 0
  ScaledReply first last (ok b) = Scaled first last b
  ScaledReply first last (err e) = Unit

  has_hpa_v1-Reads :
      (first m h : History) (items : List HorizontalPodAutoscaler)
      → Sent cl hpas_v2 first m h
      → cl.api.list_hpas_v2 h ns ≡ ok items
      → any (hpa_matches kind name) items ≡ false
      → Reads m (ScaledReply first) (has_hpa_v1 cl ns kind name)
  unfolding has_hpa_v1
  has_hpa_v1-Reads first m h items sent p q =
      Reads-bind _ _ (Reads-send cl _ _ refl) λ v1 h1 _ replied.
        Reads-pure _ λ last s. go v1 replied.before last (Sent-later s replied.sent) replied.is
    where
      go :
          (v1 : Reply (List HorizontalPodAutoscaler)) (h' last : History)
          → Sent cl hpas_v1 m last h'
          → cl.api.list_hpas_v1 h' ns ≡ v1
          → ScaledReply first last (any_hpa kind name v1)
      go (err e) h' last s r = tt
      go (ok items') h' last s r = by_v1 h m h' items items' _ sent p q s r refl

  after_hpas_v2-Reads :
      (first m h : History) (v2 : Reply (List HorizontalPodAutoscaler))
      → Sent cl hpas_v2 first m h
      → cl.api.list_hpas_v2 h ns ≡ v2
      → Reads m (ScaledReply first) (after_hpas_v2 cl ns kind name v2)
  unfolding after_hpas_v2
  after_hpas_v2-Reads first m h (err e) sent r = Reads-pure _ λ _ _. tt
  after_hpas_v2-Reads first m h (ok items) sent r =
      Reads-if (any (hpa_matches kind name) items) _ _
        (λ b. Reads-pure _ λ last s. by_v2 h items (Sent-later s sent) r b)
        (λ b. has_hpa_v1-Reads first m h items sent r b)

  pub Scaled-later :
      {first last last' : History} {b : Bool}
      → Since last last'
      → Scaled first last b
      → Scaled first last' b
  Scaled-later s (by_v2 h items sent p q) = by_v2 h items (Sent-later s sent) p q
  Scaled-later s (by_v1 h m h' items items' b sent p q sent' p' q') =
      by_v1 h m h' items items' b sent p q (Sent-later s sent') p' q'

  after_or_return :
      (first m : History) (limited : String) (reply : Reply Bool)
      → ScaledReply first m reply
      → Reads m
          (Scaled first)
          (or_return (λ e. refusal preflight_failed (text limited <> err_msg e) true) reply)
  unfolding or_return
  after_or_return first m limited (ok b) q = record {
    same = λ w s. Same-refl w;
    yields = λ w s. Scaled-later s q;
  }
  after_or_return first m limited (err e) q = record {
    same = λ w s. Same-refl w;
    yields = λ w s p. cc;
  }

  pub require_hpas-Reads :
      (limited : String) (base : History)
      → Reads base (Scaled base) (require_hpas cl ns limited kind name)
  unfolding require_hpas has_hpa
  require_hpas-Reads limited base =
      Reads-bind {P = ScaledReply base} _ _
        (Reads-bind _ _ (Reads-send cl _ _ refl)
          λ v2 h _ replied. after_hpas_v2-Reads base h replied.before v2 replied.sent replied.is)
        λ reply m _ q. after_or_return base m limited reply q

  -- the UID that the object had, read by its kind between `first` and `last`
  pub data HasUid (first last : History) : String → Type 0 where
    deployment :
        (h : History) (d : Deployment)
        → kind ≡ "Deployment"
        → Sent cl (get "deployments" ns name) first last h
        → cl.api.get_deployment h ns name ≡ ok d
        → HasUid first last d.uid
    stateful_set :
        (h : History) (s : Workload)
        → kind ≡ "StatefulSet"
        → Sent cl (get "statefulsets" ns name) first last h
        → cl.api.get_stateful_set h ns name ≡ ok s
        → HasUid first last s.uid
    replica_set :
        (h : History) (s : Workload)
        → kind ≡ "ReplicaSet"
        → Sent cl (get "replicasets" ns name) first last h
        → cl.api.get_replica_set h ns name ≡ ok s
        → HasUid first last s.uid

  pub current_uid-Reads : (base : History) → Reads base (HasUid base) (current_uid cl ns kind name)
  unfolding current_uid
  current_uid-Reads base =
      Reads-if (kind == "Deployment") _ _
        (λ b. Reads-bind _ _ (Reads-send cl _ _ refl) λ reply h1 _ replied.
          Reads-bind _ _ (Reads-or_return _ reply (λ e. λ p. cc)) λ d h2 s2 same.
            Reads-pure _ λ h s.
              deployment replied.before d ((eq_iff kind "Deployment").0 b)
                (Sent-later (Since-trans s2 s) replied.sent) (ground (arith, replied.is)))
        (λ _.
          Reads-if (kind == "StatefulSet") _ _
            (λ b. Reads-bind _ _ (Reads-send cl _ _ refl) λ reply h1 _ replied.
              Reads-bind _ _ (Reads-or_return _ reply (λ e. λ p. cc)) λ d h2 s2 same.
                Reads-pure _ λ h s.
                  stateful_set replied.before d ((eq_iff kind "StatefulSet").0 b)
                    (Sent-later (Since-trans s2 s) replied.sent) (ground (arith, replied.is)))
            (λ _.
              Reads-if (kind == "ReplicaSet") _ _
                (λ b. Reads-bind _ _ (Reads-send cl _ _ refl) λ reply h1 _ replied.
                  Reads-bind _ _ (Reads-or_return _ reply (λ e. λ p. cc)) λ d h2 s2 same.
                    Reads-pure _ λ h s.
                      replica_set replied.before d ((eq_iff kind "ReplicaSet").0 b)
                        (Sent-later (Since-trans s2 s) replied.sent) (ground (arith, replied.is)))
                (λ _. Reads-return_early _ (λ p. cc))))
