-- ===== src/Graph/Revisions.antt =====
-- internal/graph/owners.go: how CurrentReplicaSets divides the ReplicaSets of a Deployment.
use mathlib.Core.List.{Perm, perm_middle}
use mathlib.Core.List.Perm
use kube_sre_mcp.Prelude.{
  true, false, List, [], ◌∷◌, ◌++◌, ◌≡◌, ◌⊎◌, refl, sym, ap, ◌∙◌, inl, inr, Bool-cases,
  if◌then◌else◌, arith, All, Some, is_empty,
}
use kube_sre_mcp.Prelude.Int.{ℤ, pos, negsuc, ℤ_lt, ℤ_eq, ℤ_eq_iff, is_negative}
use kube_sre_mcp.Kube.Spec.{ObjectMeta, WorkloadObject}
use kube_sre_mcp.Graph.Owners.{
  replica_set_revision, owned_sets, max_revision, split_by_revision, current_replica_sets,
}

abbrev pub revision_of : WorkloadObject → ℤ
unfolding replica_set_revision
revision_of rs = replica_set_revision rs.meta

-- a ReplicaSet of a higher revision than the other
abbrev pub Supersedes : WorkloadObject → WorkloadObject → Type 0
unfolding replica_set_revision
Supersedes a b = ℤ_lt (replica_set_revision b.meta) (replica_set_revision a.meta) ≡ true

not_lt_trans : (a b c : ℤ) → ℤ_lt a b ≡ true → ℤ_lt c b ≡ false → ℤ_lt c a ≡ false
not_lt_trans (pos a) (pos b) (pos c) h k = ground arith
not_lt_trans (pos a) (pos b) (negsuc c) h k = ground arith
not_lt_trans (pos a) (negsuc b) (pos c) h k = ground arith
not_lt_trans (pos a) (negsuc b) (negsuc c) h k = ground arith
not_lt_trans (negsuc a) (pos b) (pos c) h k = ground arith
not_lt_trans (negsuc a) (pos b) (negsuc c) h k = ground arith
not_lt_trans (negsuc a) (negsuc b) (pos c) h k = ground arith
not_lt_trans (negsuc a) (negsuc b) (negsuc c) h k = ground arith

lt-unless_eq : (a b : ℤ) → ℤ_lt b a ≡ false → ℤ_eq a b ≡ false → ℤ_lt a b ≡ true
lt-unless_eq (pos a) (pos b) h k = ground arith
lt-unless_eq (pos a) (negsuc b) h k = ground arith
lt-unless_eq (negsuc a) (pos b) h k = ground arith
lt-unless_eq (negsuc a) (negsuc b) h k = ground arith

ge_trans : (a b c : ℤ) → ℤ_lt a b ≡ false → ℤ_lt b c ≡ false → ℤ_lt a c ≡ false
ge_trans (pos a) (pos b) (pos c) h k = ground arith
ge_trans (pos a) (pos b) (negsuc c) h k = ground arith
ge_trans (pos a) (negsuc b) (pos c) h k = ground arith
ge_trans (pos a) (negsuc b) (negsuc c) h k = ground arith
ge_trans (negsuc a) (pos b) (pos c) h k = ground arith
ge_trans (negsuc a) (pos b) (negsuc c) h k = ground arith
ge_trans (negsuc a) (negsuc b) (pos c) h k = ground arith
ge_trans (negsuc a) (negsuc b) (negsuc c) h k = ground arith

lt_irrefl : (a : ℤ) → ℤ_lt a a ≡ false
lt_irrefl (pos a) = ground arith
lt_irrefl (negsuc a) = ground arith

max_revision-above :
    (best : ℤ) (rss : List WorkloadObject) → ℤ_lt (max_revision best rss) best ≡ false
unfolding max_revision
max_revision-above best [] = lt_irrefl best
max_revision-above best (rs ∷ rss) = elim (Bool-cases (ℤ_lt best (replica_set_revision rs.meta))) [
  | inl e ↦ rw e (
      not_lt_trans best (replica_set_revision rs.meta) _ e
        (max_revision-above (replica_set_revision rs.meta) rss))
  | inr e ↦ rw e (max_revision-above best rss)
]

-- the larger of two is not below the second
pick-ge : (a b : ℤ) → ℤ_lt (if ℤ_lt a b then b else a) b ≡ false
pick-ge a b = elim (Bool-cases (ℤ_lt a b)) [ inl e ↦ rw e (lt_irrefl b) | inr e ↦ rw (e, e) refl ]

-- no revision is above the maximum
max_revision-All :
    (m best : ℤ) (rss : List WorkloadObject)
    → max_revision best rss ≡ m
    → All (λ rs. ℤ_lt m (replica_set_revision rs.meta) ≡ false) rss
unfolding max_revision
max_revision-All m best [] h = tt
max_revision-All m best (rs ∷ rss) h =
    let r = replica_set_revision rs.meta in
    let next = if ℤ_lt best r then r else best in
    (
      ge_trans m next r (rw⁻¹ h (max_revision-above next rss)) (pick-ge best r),
      max_revision-All m next rss h,
    )

-- the maximum is the start or the revision of an element
max_revision-Some :
    (m best : ℤ) (rss : List WorkloadObject)
    → max_revision best rss ≡ m
    → (m ≡ best) ⊎ Some (λ rs. replica_set_revision rs.meta ≡ m) rss
unfolding max_revision
max_revision-Some m best [] h = inl (sym h)
max_revision-Some m best (rs ∷ rss) h =
    let r = replica_set_revision rs.meta in
    elim (max_revision-Some m (if ℤ_lt best r then r else best) rss h) [
      | inr s ↦ inr (inr s)
      | inl q ↦ elim (Bool-cases (ℤ_lt best r)) [
        | inl e ↦ inr (inl (sym (q ∙ ap (λ t. if t then r else best) e)))
        | inr e ↦ inl (q ∙ ap (λ t. if t then r else best) e)
      ]
    ]

split_by_revision-perm :
    (rev : ℤ) (rss : List WorkloadObject)
    → Perm ((split_by_revision rev rss).0 ++ (split_by_revision rev rss).1) rss
unfolding split_by_revision
split_by_revision-perm rev [] = Perm.refl []
split_by_revision-perm rev (rs ∷ rss) =
    elim (Bool-cases (ℤ_eq (replica_set_revision rs.meta) rev)) [
      | inl e ↦ rw e (Perm.cons rs (split_by_revision-perm rev rss))
      | inr e ↦ rw e (
          Perm.trans (perm_middle (split_by_revision rev rss).0 (split_by_revision rev rss).1)
            (Perm.cons rs (split_by_revision-perm rev rss)))
    ]

split_by_revision-All :
    (rev : ℤ) (rss : List WorkloadObject)
    → All (λ rs. replica_set_revision rs.meta ≡ rev) (split_by_revision rev rss).0
unfolding split_by_revision
split_by_revision-All rev [] = tt
split_by_revision-All rev (rs ∷ rss) = elim (Bool-cases (ℤ_eq (replica_set_revision rs.meta) rev)) [
  | inl e ↦ rw e ((ℤ_eq_iff (replica_set_revision rs.meta) rev).0 e, split_by_revision-All rev rss)
  | inr e ↦ rw e (split_by_revision-All rev rss)
]

-- where no revision is above `rev`, the others are below it
split_by_revision-below :
    (rev : ℤ) (rss : List WorkloadObject)
    → All (λ rs. ℤ_lt rev (replica_set_revision rs.meta) ≡ false) rss
    → All (λ rs. ℤ_lt (replica_set_revision rs.meta) rev ≡ true) (split_by_revision rev rss).1
unfolding split_by_revision
split_by_revision-below rev [] h = tt
split_by_revision-below rev (rs ∷ rss) (p, h) =
    elim (Bool-cases (ℤ_eq (replica_set_revision rs.meta) rev)) [
      | inl e ↦ rw e (split_by_revision-below rev rss h)
      | inr e ↦
          rw e
            (lt-unless_eq (replica_set_revision rs.meta) rev p e, split_by_revision-below rev rss h)
    ]

true_ne_false : true ≡ false → ⊥
true_ne_false h = ground arith

split_by_revision-Some :
    (rev : ℤ) (rss : List WorkloadObject)
    → Some (λ rs. replica_set_revision rs.meta ≡ rev) rss
    → is_empty (split_by_revision rev rss).0 ≡ false
unfolding split_by_revision
split_by_revision-Some rev [] s = elim s [ ]
split_by_revision-Some rev (rs ∷ rss) s =
    elim (Bool-cases (ℤ_eq (replica_set_revision rs.meta) rev)) [
      | inl e ↦ rw e refl
      | inr e ↦ elim s [
        | inl h ↦
            absurd (true_ne_false (sym ((ℤ_eq_iff (replica_set_revision rs.meta) rev).1 h) ∙ e))
        | inr h ↦ rw e (split_by_revision-Some rev rss h)
      ]
    ]

-- what has the revision supersedes what is below it
supersede_one :
    (rev : ℤ) (o : WorkloadObject) (cs : List WorkloadObject)
    → ℤ_lt (replica_set_revision o.meta) rev ≡ true
    → All (λ c. replica_set_revision c.meta ≡ rev) cs
    → All (λ c. Supersedes c o) cs
unfolding replica_set_revision
supersede_one rev o [] h k = tt
supersede_one rev o (c ∷ cs) h (p, k) = (rw p h, supersede_one rev o cs h k)

supersede_each :
    (rev : ℤ) (os cs : List WorkloadObject)
    → All (λ o. ℤ_lt (replica_set_revision o.meta) rev ≡ true) os
    → All (λ c. replica_set_revision c.meta ≡ rev) cs
    → All (λ o. All (λ c. Supersedes c o) cs) os
supersede_each rev [] cs h k = tt
supersede_each rev (o ∷ os) cs (p, h) k = (supersede_one rev o cs p k, supersede_each rev os cs h k)

max_revision-nonempty :
    (rss : List WorkloadObject)
    → is_negative (max_revision (negsuc 0) rss) ≡ false
    → Some (λ rs. replica_set_revision rs.meta ≡ max_revision (negsuc 0) rss) rss
max_revision-nonempty rss n =
    elim (max_revision-Some (max_revision (negsuc 0) rss) (negsuc 0) rss refl) [
      | inl h ↦ absurd (true_ne_false (sym (ap is_negative h) ∙ n))
      | inr h ↦ h
    ]

append_nil-Perm : (xs : List WorkloadObject) → Perm (xs ++ []) xs
append_nil-Perm [] = Perm.refl []
append_nil-Perm (x ∷ xs) = Perm.cons x (append_nil-Perm xs)

both_nonempty :
    (rev : ℤ) (rss : List WorkloadObject)
    → Some (λ rs. replica_set_revision rs.meta ≡ rev) rss
    → is_empty (split_by_revision rev rss).0 ≡ is_empty rss
both_nonempty rev [] s = elim s [ ]
both_nonempty rev (rs ∷ rss) s = split_by_revision-Some rev (rs ∷ rss) s

-- CurrentReplicaSets divides the ReplicaSets that the Deployment owns, losing none and adding none;
-- some are current unless it owns none; and every current one is of a higher revision than every old
-- one.
pub current_replica_sets-division :
    (d : ObjectMeta) (rss : List WorkloadObject)
    → Perm ((current_replica_sets d rss).0 ++ (current_replica_sets d rss).1) (owned_sets d.uid rss)
      × (is_empty (current_replica_sets d rss).0 ≡ is_empty (owned_sets d.uid rss))
      × All
          (λ o. All (λ c. Supersedes c o) (current_replica_sets d rss).0)
          (current_replica_sets d rss).1
unfolding current_replica_sets
current_replica_sets-division d rss =
    let owned = owned_sets d.uid rss in
    let rev = max_revision (negsuc 0) owned in
    elim (Bool-cases (is_negative rev)) [
      | inl e ↦ rw e (append_nil-Perm owned, refl, tt)
      | inr e ↦ rw e (
        split_by_revision-perm rev owned,
        both_nonempty rev owned (max_revision-nonempty owned e),
        supersede_each rev (split_by_revision rev owned).1 (split_by_revision rev owned).0
            (split_by_revision-below rev owned (max_revision-All rev (negsuc 0) owned refl))
            (split_by_revision-All rev owned),
      )
    ]
