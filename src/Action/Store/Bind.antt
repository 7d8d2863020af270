-- ===== src/Action/Store/Bind.antt =====
-- internal/action/confirmation.go: when a stored confirmation fits the action that is asked for.
use kube_sre_mcp.Prelude.{
  ◌≡◌, refl, ap, Bool, true, ◌⊎◌, ◌↔◌, Option, none, some, arith, eq_iff, bool_eq,
}
use kube_sre_mcp.Prelude.Int.{ℤ, ℤ_eq_iff}
use kube_sre_mcp.Action.Store.{Pending, int32_eq, int64_eq, bool_pointer_eq, bind_match}

-- Two actions that one confirmation covers. A UID is compared only where both are known.
pub record IsSameAction (p want : Pending) : Type 0 where
  pub action : p.action ≡ want.action
  pub api_group : p.api_group ≡ want.api_group
  pub kind : p.kind ≡ want.kind
  pub name : p.name ≡ want.name
  pub namespace : p.namespace ≡ want.namespace
  pub context : p.context ≡ want.context
  pub uid : (p.uid ≡ "") ⊎ (want.uid ≡ "") ⊎ (p.uid ≡ want.uid)
  pub replicas : p.replicas ≡ want.replicas
  pub grace : p.grace ≡ want.grace
  pub cordon : p.cordon ≡ want.cordon

int32_eq_iff : (a b : Option ℤ) → (int32_eq a b ≡ true) ↔ (a ≡ b)
unfolding int32_eq
int32_eq_iff none none = (λ _. refl, λ _. refl)
int32_eq_iff none (some b) = (λ h. cc, λ h. cc)
int32_eq_iff (some a) none = (λ h. cc, λ h. cc)
int32_eq_iff (some a) (some b) = (λ h. ap some ((ℤ_eq_iff a b).0 h), λ h. (ℤ_eq_iff a b).1 (cc))

int64_eq_iff : (a b : Option ℤ) → (int64_eq a b ≡ true) ↔ (a ≡ b)
unfolding int64_eq int32_eq
int64_eq_iff a b = int32_eq_iff a b

bool_eq_iff : (a b : Bool) → (bool_eq a b ≡ true) ↔ (a ≡ b)
bool_eq_iff a b = (λ h. ground arith, λ h. ground arith)

bool_pointer_eq_iff : (a b : Option Bool) → (bool_pointer_eq a b ≡ true) ↔ (a ≡ b)
unfolding bool_pointer_eq
bool_pointer_eq_iff none none = (λ _. refl, λ _. refl)
bool_pointer_eq_iff none (some b) = (λ h. cc, λ h. cc)
bool_pointer_eq_iff (some a) none = (λ h. cc, λ h. cc)
bool_pointer_eq_iff (some a) (some b) =
    (λ h. ap some ((bool_eq_iff a b).0 h), λ h. (bool_eq_iff a b).1 (cc))

bind_match_sound : (p want : Pending) → bind_match p want ≡ true → IsSameAction p want
unfolding bind_match
bind_match_sound p want h = ground (
  arith,
  eq_iff p.action want.action,
  eq_iff p.kind want.kind,
  eq_iff p.name want.name,
  eq_iff p.namespace want.namespace,
  eq_iff p.api_group want.api_group,
  eq_iff p.context want.context,
  eq_iff p.uid want.uid,
  eq_iff p.uid "",
  eq_iff want.uid "",
  int32_eq_iff p.replicas want.replicas,
  int64_eq_iff p.grace want.grace,
  bool_pointer_eq_iff p.cordon want.cordon,
)

bind_match_complete : (p want : Pending) → IsSameAction p want → bind_match p want ≡ true
unfolding bind_match
bind_match_complete p want h = ground (
  arith,
  eq_iff p.action want.action,
  eq_iff p.kind want.kind,
  eq_iff p.name want.name,
  eq_iff p.namespace want.namespace,
  eq_iff p.api_group want.api_group,
  eq_iff p.context want.context,
  eq_iff p.uid want.uid,
  eq_iff p.uid "",
  eq_iff want.uid "",
  int32_eq_iff p.replicas want.replicas,
  int64_eq_iff p.grace want.grace,
  bool_pointer_eq_iff p.cordon want.cordon,
)

-- The test of Take accepts exactly the pairs that agree on the action, its target, the context and
-- every parameter, where UIDs are compared only if both are known.
pub bind_match_iff : (p want : Pending) → (bind_match p want ≡ true) ↔ IsSameAction p want
bind_match_iff p want = (bind_match_sound p want, bind_match_complete p want)
