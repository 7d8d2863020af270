-- ===== src/Action/Store.antt =====
-- internal/action/confirmation.go: the confirmations that wait for a second call. A method takes the
-- readings of `s.now()` that it makes, in their order, as times in nanoseconds. The mutex makes each
-- method one step.
pub mod Bind
pub mod Expiry
pub mod Tokens
use kube_sre_mcp.Prelude.{
  ℕ, ◌*◌, ◌^◌, ◌/◌, ◌%◌, ◌+◌, String, Bool, true, false, not, ◌&&◌, ◌||◌, Option, none, some, List,
  [], ◌∷◌, ◌==◌, ◌≡◌, ◌⊎◌, refl, inl, inr, ltb, bool_eq, if◌then◌else◌,
}
use kube_sre_mcp.Prelude.Int.{ℤ, pos, ℤ_eq, add_duration}
use kube_sre_mcp.Prelude.Text.{hex_encode}
use kube_sre_mcp.Prelude.Map.{StringMap, lookup, insert, remove, keep}

-- the four sentinels, and the error of `rand.Read`
pub data ConfirmationError : Type 0 where
  confirmation_mismatch confirmation_expired confirmation_replay : ConfirmationError
  confirmation_missing : ConfirmationError
  token_entropy : String → ConfirmationError

pub data Fallible {ℓ} (E : Type 0) (A : Type ℓ) : Type ℓ where
  ok : A → Fallible E A
  err : E → Fallible E A

pub Fallible-cases :
    {E A : Type 0} (r : Fallible E A) → ((e : E) × (r ≡ err e)) ⊎ ((a : A) × (r ≡ ok a))
Fallible-cases (err e) = inl (e, refl)
Fallible-cases (ok a) = inr (a, refl)

pub record Pending : Type 0 where
  pub action : String
  pub api_group : String
  pub kind : String
  pub name : String
  pub namespace : String
  pub uid : String
  pub context : String
  pub replicas : Option ℤ
  pub grace : Option ℤ
  pub cordon : Option Bool
  pub hpa_present : Bool
  pub expires : ℕ

pub record Store : Type 0 where
  pub items : StringMap Pending
  pub ttl : ℤ

-- 2 * time.Minute
abbrev pub default_ttl : ℤ
default_ttl = pos (2 * 60 * 10 ^ 9)

unfoldable pub new_store : ℤ → Store
new_store ttl = record { items = []; ttl = if ℤ_eq ttl (pos 0) then default_ttl else ttl }

-- `now.After(v.Expires)`
abbrev pub is_expired : ℕ → Pending → Bool
is_expired now p = ltb p.expires now

-- gcLocked
unfoldable pub gc : ℕ → Store → Store
gc now s = record s { items = keep (λ p. not (is_expired now p)) s.items }

module _ {ℓ} {A : Type ℓ} where
  -- int32Eq, int64Eq and boolEq, over the comparison of what the pointers point to
  abbrev pub pointer_eq : (A → A → Bool) → Option A → Option A → Bool
  pointer_eq eq none none = true
  pointer_eq eq none (some _) = false
  pointer_eq eq (some _) none = false
  pointer_eq eq (some a) (some b) = eq a b

unfoldable pub int32_eq : Option ℤ → Option ℤ → Bool
int32_eq = pointer_eq ℤ_eq

unfoldable pub int64_eq : Option ℤ → Option ℤ → Bool
int64_eq = pointer_eq ℤ_eq

unfoldable pub bool_pointer_eq : Option Bool → Option Bool → Bool
bool_pointer_eq = pointer_eq bool_eq

-- each early `return false`, in the order of the source
unfoldable pub bind_match : Pending → Pending → Bool
unfolding int32_eq int64_eq bool_pointer_eq
bind_match p want =
    if not (p.action == want.action)
      || not (p.kind == want.kind)
      || not (p.name == want.name)
      || not (p.namespace == want.namespace)
    then false
    else if not (p.api_group == want.api_group)
    then false
    else if not (p.context == want.context)
    then false
    else if not (p.uid == "") && not (want.uid == "") && not (p.uid == want.uid)
    then false
    else if not (int32_eq p.replicas want.replicas)
    then false
    else if not (int64_eq p.grace want.grace)
    then false
    else if not (bool_pointer_eq p.cordon want.cordon)
    then false
    else true

-- what `rand.Read` gave: the 16 bytes, or the text of its error
unfoldable pub new_id : Fallible String (List ℕ) → Fallible ConfirmationError String
new_id (ok b) = ok (hex_encode b)
new_id (err e) = err (token_entropy e)

-- `gc_now` is read by gcLocked, `now` for the time of expiry
unfoldable pub put :
    ℕ → ℕ → Fallible String (List ℕ) → Pending → Store → Fallible ConfirmationError String × Store
unfolding gc new_id
put gc_now now entropy p s =
    let s' = gc gc_now s in
    elim (new_id entropy) [
      | err e ↦ (err e, s')
      | ok id ↦ (
        ok id,
        record s' { items = insert id (record p { expires = add_duration now s'.ttl }) s'.items },
      )
    ]

-- the tests of Take on what is stored
abbrev take_found :
    ℕ → String → Pending → Store → Option Pending → Fallible ConfirmationError Pending × Store
take_found now id want s none = (err confirmation_missing, s)
take_found now id want s (some p) =
    if is_expired now p
    then (err confirmation_expired, record s { items = remove id s.items })
    else if not (bind_match p want)
    then (err confirmation_mismatch, s)
    else (ok p, record s { items = remove id s.items })

unfoldable pub take : ℕ → ℕ → String → Pending → Store → Fallible ConfirmationError Pending × Store
unfolding gc
take gc_now now id want s = let s' = gc gc_now s in take_found now id want s' (lookup id s'.items)
