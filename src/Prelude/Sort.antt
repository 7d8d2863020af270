-- ===== src/Prelude/Sort.antt =====
-- sort.SliceStable: the stable order is determined by the comparison, so an insertion sort computes it.
use mathlib.Core.Path.{◌≡◌}
use mathlib.Core.Bool.{Bool, true, false}
use mathlib.Core.Logic.{inl, inr}
use mathlib.Core.List.{List, [], ◌∷◌, Perm}
use mathlib.Core.List.Perm
use kube_sre_mcp.Prelude.Tests.{if◌then◌else◌, Bool-cases}
use kube_sre_mcp.Prelude.Lists.{All}

module _ {ℓ} {A : Type ℓ} (less : A → A → Bool) where
  -- `x` goes behind what is smaller and before what is equal
  unfoldable pub insert_before : A → List A → List A
  insert_before x [] = x ∷ []
  insert_before x (y ∷ ys) =
      let rest = insert_before x ys in if less y x then y ∷ rest else x ∷ y ∷ ys

  unfoldable pub stable_sort : List A → List A
  unfolding insert_before
  stable_sort [] = []
  stable_sort (x ∷ xs) = insert_before x (stable_sort xs)

  insert_before-perm : (x : A) (ys : List A) → Perm (insert_before x ys) (x ∷ ys)
  unfolding insert_before
  insert_before-perm x [] = Perm.refl _
  insert_before-perm x (y ∷ ys) = elim (Bool-cases (less y x)) [
    | inl e ↦ rw e (Perm.trans (Perm.cons y (insert_before-perm x ys)) (Perm.swap x y ys))
    | inr e ↦ rw e (Perm.refl _)
  ]

  -- Sorting loses nothing and adds nothing.
  pub stable_sort-perm : (xs : List A) → Perm (stable_sort xs) xs
  unfolding stable_sort
  stable_sort-perm [] = Perm.refl _
  stable_sort-perm (x ∷ xs) =
      Perm.trans (insert_before-perm x (stable_sort xs)) (Perm.cons x (stable_sort-perm xs))

module _ {ℓ κ} {A : Type ℓ} where
  -- each element stands in the relation to all that follow it
  abbrev pub IsRanked : (A → A → Type κ) → List A → Type (ℓ ⊔ κ)
  IsRanked R [] = Unit
  IsRanked R (x ∷ xs) = All (R x) xs × IsRanked R xs

module _ {ℓ κ} {A : Type ℓ} (R : A → A → Type κ)
    (R-trans : (a b c : A) → R a b → R b c → R a c) where
  All-weaken : (a b : A) (xs : List A) → R a b → All (R b) xs → All (R a) xs
  All-weaken a b [] r h = tt
  All-weaken a b (x ∷ xs) r (p, h) = (R-trans a b x r p, All-weaken a b xs r h)

  module _ (less : A → A → Bool) (if_less : (a b : A) → less a b ≡ true → R a b)
      (unless_less : (a b : A) → less a b ≡ false → R b a) where
    All-insert :
        (a x : A) (ys : List A) → R a x → All (R a) ys → All (R a) (insert_before less x ys)
    unfolding insert_before
    All-insert a x [] r h = (r, tt)
    All-insert a x (y ∷ ys) r (p, h) = elim (Bool-cases (less y x)) [
      | inl e ↦ rw e (p, All-insert a x ys r h)
      | inr e ↦ rw e (r, (p, h))
    ]

    insert_before-IsRanked :
        (x : A) (ys : List A) → IsRanked R ys → IsRanked R (insert_before less x ys)
    unfolding insert_before
    insert_before-IsRanked x [] v = (tt, tt)
    insert_before-IsRanked x (y ∷ ys) (h, v) = elim (Bool-cases (less y x)) [
      | inl e ↦ rw e (All-insert y x ys (if_less y x e) h, insert_before-IsRanked x ys v)
      | inr e ↦ rw e ((unless_less y x e, All-weaken x y ys (unless_less y x e) h), (h, v))
    ]

    -- Sorting by a test that decides a transitive relation, up to ties, ranks the elements by it.
    pub stable_sort-IsRanked : (xs : List A) → IsRanked R (stable_sort less xs)
    unfolding stable_sort
    stable_sort-IsRanked [] = tt
    stable_sort-IsRanked (x ∷ xs) =
        insert_before-IsRanked x (stable_sort less xs) (stable_sort-IsRanked xs)
