-- ===== src/Diagnostic/Admission.antt =====
-- internal/diagnostic/pod.go: what the tests of scheduleSignals say of one toleration, expression,
-- field, condition or sum of requests, in terms of its own.
use kube_sre_mcp.Prelude.{
  ℕ, ◌+◌, String, Bool, true, false, ◌&&◌, Option, none, some, List, [], ◌∷◌, ◌++◌, ◌==◌, ◌≡◌, ◌≢◌,
  ◌⊎◌, ◌↔◌, refl, inl, inr, any, all, is_some, All, Some, Bool-cases, arith, eq_iff,
}
use kube_sre_mcp.Prelude.Map.{lookup}
use kube_sre_mcp.Kube.Types.{value_of, Requirement, Condition}
use kube_sre_mcp.Kube.Spec.{Container, Toleration, Taint, PodSpec, NodeObject}
use kube_sre_mcp.Diagnostic.Scheduler.{
  contains_str, expression_holds, is_name_field, tolerates, is_not_ready, requested, request_of,
}

pub any-Some :
    {A : Type 0} {Q : A → Type 0} (p : A → Bool)
    → ((x : A) → (p x ≡ true) ↔ Q x)
    → (xs : List A) → (any p xs ≡ true) ↔ Some Q xs
any-Some p q [] = (λ h. ground arith, λ s. elim s [ ])
any-Some p q (x ∷ xs) = (
  λ h. elim (Bool-cases (p x)) [
    | inl e ↦ inl ((q x).0 e)
    | inr e ↦ inr ((any-Some p q xs).0 (ground arith))
  ],
  λ s. elim s [ inl e ↦ ground (arith, (q x).1 e) | inr t ↦ ground (arith, (any-Some p q xs).1 t) ],
)

pub all-All :
    {A : Type 0} {Q : A → Type 0} (p : A → Bool)
    → ((x : A) → (p x ≡ true) ↔ Q x)
    → (xs : List A) → (all p xs ≡ true) ↔ All Q xs
all-All p q [] = (λ h. tt, λ h. refl)
all-All p q (x ∷ xs) = (
  λ h. ((q x).0 (ground arith), (all-All p q xs).0 (ground arith)),
  λ (e, h). ground (arith, (q x).1 e, (all-All p q xs).1 h),
)

pub none-All :
    {A : Type 0} {Q : A → Type 0} (p : A → Bool)
    → ((x : A) → (p x ≡ false) ↔ Q x)
    → (xs : List A) → (any p xs ≡ false) ↔ All Q xs
none-All p q [] = (λ h. tt, λ h. refl)
none-All p q (x ∷ xs) = (
  λ h. ((q x).0 (ground arith), (none-All p q xs).0 (ground arith)),
  λ (e, h). ground (arith, (q x).1 e, (none-All p q xs).1 h),
)

-- the value is one of these
abbrev pub IsAmong : List String → String → Type 0
IsAmong values v = Some (λ s. s ≡ v) values

pub contains_str-IsAmong :
    (values : List String) (v : String) → (contains_str values v ≡ true) ↔ IsAmong values v
unfolding contains_str
contains_str-IsAmong values v = any-Some (λ s. s == v) (λ s. eq_iff s v) values

-- A toleration is for the taint's key and effect, or for every key or effect where it has none; with
-- the operator Exists, or none, its value does not matter.
abbrev pub Tolerates : Toleration → Taint → Type 0
Tolerates tol t =
    ((tol.key ≡ "") ⊎ (tol.key ≡ t.key))
    × ((tol.effect ≡ "") ⊎ (tol.effect ≡ t.effect))
    × ((tol.operator ≡ "Exists")
        ⊎ (tol.operator ≡ "")
        ⊎ ((tol.operator ≡ "Equal") × (tol.value ≡ t.value)))

pub tolerates-Tolerates :
    (tol : Toleration) (t : Taint) → (tolerates tol t ≡ true) ↔ Tolerates tol t
unfolding tolerates
tolerates-Tolerates tol t =
    let k = eq_iff tol.key "" in
    let k' = eq_iff tol.key t.key in
    let f = eq_iff tol.effect "" in
    let f' = eq_iff tol.effect t.effect in
    let o = eq_iff tol.operator "Exists" in
    let o' = eq_iff tol.operator "" in
    let e = eq_iff tol.operator "Equal" in
    let v = eq_iff tol.value t.value in
    (λ h. ground (arith, k, k', f, f', o, o', e, v), λ h. ground (arith, k, k', f, f', o, o', e, v))

-- an expression holds of the node's labels: by its operator; the comparisons are never taken to hold,
-- and any other operator is
pub data HoldsOf (node : NodeObject) (e : Requirement) : Type 0 where
  within : e.operator ≡ "In" → IsAmong e.values (value_of node.labels e.key) → HoldsOf node e
  outside :
      e.operator ≡ "NotIn" → (IsAmong e.values (value_of node.labels e.key) → ⊥) → HoldsOf node e
  present :
      (v : String) → e.operator ≡ "Exists" → lookup e.key node.labels ≡ some v → HoldsOf node e
  absent : e.operator ≡ "DoesNotExist" → lookup e.key node.labels ≡ none → HoldsOf node e
  other :
      e.operator ≢ "In"
      → e.operator ≢ "NotIn"
      → e.operator ≢ "Exists"
      → e.operator ≢ "DoesNotExist"
      → e.operator ≢ "Gt"
      → e.operator ≢ "Lt"
      → HoldsOf node e

held : {A : Type 0} (o : Option A) → is_some o ≡ true → (a : A) × (o ≡ some a)
held (some a) h = (a, refl)
held none h = absurd (ground arith)

-- the test of the operator and what the expression then says
module _ (node : NodeObject) (e : Requirement) where
  holds-HoldsOf : expression_holds node e ≡ true → HoldsOf node e
  unfolding expression_holds
  holds-HoldsOf h =
      let among = contains_str-IsAmong e.values (value_of node.labels e.key) in
      elim (Bool-cases (e.operator == "In")) [
        | inl a ↦ within ((eq_iff e.operator "In").0 a) (among.0 (ground arith))
        | inr a ↦ elim (Bool-cases (e.operator == "NotIn")) [
          | inl b ↦ outside ((eq_iff e.operator "NotIn").0 b) (λ m. ground (arith, among.1 m))
          | inr b ↦ elim (Bool-cases (e.operator == "Exists")) [
            | inl c ↦
                let (v, found) = held (lookup e.key node.labels) (ground arith) in
                present v ((eq_iff e.operator "Exists").0 c) found
            | inr c ↦ elim (Bool-cases (e.operator == "DoesNotExist")) [
              | inl d ↦ absent ((eq_iff e.operator "DoesNotExist").0 d) (ground arith)
              | inr d ↦
                  other (λ q. ground (arith, eq_iff e.operator "In"))
                    (λ q. ground (arith, eq_iff e.operator "NotIn"))
                    (λ q. ground (arith, eq_iff e.operator "Exists"))
                    (λ q. ground (arith, eq_iff e.operator "DoesNotExist"))
                    (λ q. ground (arith, eq_iff e.operator "Gt"))
                    (λ q. ground (arith, eq_iff e.operator "Lt"))
            ]
          ]
        ]
      ]

  HoldsOf-holds : HoldsOf node e → expression_holds node e ≡ true
  unfolding expression_holds
  HoldsOf-holds (within o m) =
      rw o (ground (arith, (contains_str-IsAmong e.values (value_of node.labels e.key)).1 m))
  HoldsOf-holds (outside o m) =
      rw o (ground (arith, (contains_str-IsAmong e.values (value_of node.labels e.key)).0))
  HoldsOf-holds (present v o l) = rw o (ground (arith, l))
  HoldsOf-holds (absent o l) = rw o (ground (arith, l))
  HoldsOf-holds (other a b c d f g) = ground (
    arith,
    eq_iff e.operator "In",
    eq_iff e.operator "NotIn",
    eq_iff e.operator "Exists",
    eq_iff e.operator "DoesNotExist",
    eq_iff e.operator "Gt",
    eq_iff e.operator "Lt",
  )

  pub expression_holds-HoldsOf : (expression_holds node e ≡ true) ↔ HoldsOf node e
  expression_holds-HoldsOf = (holds-HoldsOf, HoldsOf-holds)

-- the one field that the program supports
abbrev pub IsNameField : Requirement → Type 0
IsNameField f = (f.key ≡ "metadata.name") × (f.operator ≡ "In")

pub is_name_field-IsNameField : (f : Requirement) → (is_name_field f ≡ true) ↔ IsNameField f
unfolding is_name_field
is_name_field-IsNameField f =
    let k = eq_iff f.key "metadata.name" in
    let o = eq_iff f.operator "In" in
    (λ h. (ground (arith, k, o), ground (arith, k, o)), λ (a, b). ground (arith, k, o))

abbrev pub NamesNode : NodeObject → Requirement → Type 0
NamesNode node f = IsNameField f × IsAmong f.values node.name

pub field-NamesNode :
    (node : NodeObject) (f : Requirement)
    → ((is_name_field f && contains_str f.values node.name) ≡ true) ↔ NamesNode node f
field-NamesNode node f =
    let n = is_name_field-IsNameField f in
    let c = contains_str-IsAmong f.values node.name in
    (
      λ h. (n.0 (ground arith), c.0 (ground arith)),
      λ ((k, o), m). ground (arith, n.1 (k, o), c.1 m),
    )

pub not_ready_iff :
    (c : Condition) → (is_not_ready c ≡ false) ↔ ((c.type ≢ "Ready") ⊎ (c.status ≢ "False"))
not_ready_iff c =
    let r = eq_iff c.type "Ready" in
    let s = eq_iff c.status "False" in
    (
      λ h. elim (Bool-cases (c.type == "Ready")) [
        | inl a ↦ inr (λ q. ground (arith, r, s))
        | inr a ↦ inl (λ q. ground (arith, r))
      ],
      λ h. elim h [ inl n ↦ ground (arith, r) | inr n ↦ ground (arith, s) ],
    )

-- what all containers of the pod ask for together
abbrev sum_of : (Container → ℕ) → List Container → ℕ
sum_of of [] = 0
sum_of of (c ∷ cs) = sum_of of cs + of c

abbrev pub demand : (Container → ℕ) → PodSpec → ℕ
demand of spec = sum_of of (spec.containers ++ spec.init_containers)

sum_of-append :
    (of : Container → ℕ) (xs ys : List Container)
    → sum_of of (xs ++ ys) ≡ requested of xs + requested of ys
unfolding requested
sum_of-append of [] [] = refl
sum_of-append of [] (y ∷ ys) = omega (arith, sum_of-append of [] ys)
sum_of-append of (x ∷ xs) ys = omega (arith, sum_of-append of xs ys)

pub demand-request_of : (of : Container → ℕ) (spec : PodSpec) → demand of spec ≡ request_of of spec
unfolding requested
demand-request_of of spec = sum_of-append of spec.containers spec.init_containers
