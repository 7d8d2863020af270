-- ===== src/Action/Store/Tokens.antt =====
-- internal/action/confirmation.go: any sequence of calls of Put and Take, in whatever order the
-- handlers of concurrent requests reach the mutex.
use kube_sre_mcp.Prelude.{
  ℕ, ◌+◌, ◌≤◌, String, ◌≡◌, refl, Bool, true, false, none, List, [], ◌∷◌, arith, eq_iff, ◌==◌,
  if◌then◌else◌, is_some,
}
use kube_sre_mcp.Prelude.Text.{hex_encode}
use kube_sre_mcp.Prelude.Map.{lookup}
use kube_sre_mcp.Action.Store.{Fallible, ok, err, ConfirmationError, Pending, Store, put, take}
use kube_sre_mcp.Action.Store.Expiry.{
  IsValid, lookup-gc, lookup-put, put-IsValid, take-IsValid, take_ok_iff, take_ok_removes,
  lookup-take-none,
}

-- one call, with its readings of the clock and of the random source
pub data Op : Type 0 where
  issue : ℕ → ℕ → Fallible String (List ℕ) → Pending → Op
  redeem : ℕ → ℕ → String → Pending → Op

unfoldable pub apply : Op → Store → Store
apply (issue gc_now now entropy p) s = (put gc_now now entropy p s).1
apply (redeem gc_now now id want) s = (take gc_now now id want s).1

abbrev one_if : Bool → ℕ
one_if b = if b then 1 else 0

-- whether the call returned this token, and whether it redeemed it
abbrev pub issued : String → Op → ℕ
issued id (issue _ _ (ok bytes) _) = one_if (hex_encode bytes == id)
issued id _ = 0

abbrev succeeded {ℓ} : {E : Type 0} {A : Type ℓ} → Fallible E A → Bool
succeeded (ok _) = true
succeeded (err _) = false

abbrev pub redeemed : String → Op → Store → ℕ
redeemed id (redeem gc_now now j want) s =
    if j == id then one_if (succeeded (take gc_now now j want s).0) else 0
redeemed id (issue _ _ _ _) s = 0

unfoldable pub run : List Op → Store → Store
run [] s = s
run (op ∷ ops) s = run ops (apply op s)

-- how often the calls returned the token
unfoldable pub issues : String → List Op → ℕ
issues id [] = 0
issues id (op ∷ ops) = issued id op + issues id ops

-- how often they redeemed it
unfoldable pub redemptions : String → List Op → Store → ℕ
redemptions id [] s = 0
redemptions id (op ∷ ops) s = redeemed id op s + redemptions id ops (apply op s)

abbrev pub held : String → Store → ℕ
held id s = one_if (is_some (lookup id s.items))

apply-IsValid : (op : Op) (s : Store) → IsValid s → IsValid (apply op s)
unfolding apply
apply-IsValid (issue gc_now now entropy p) s v = put-IsValid gc_now now entropy p s v
apply-IsValid (redeem gc_now now id want) s v = take-IsValid gc_now now id want s v

held-issue :
    (id : String) (gc_now now : ℕ) (e : Fallible String (List ℕ)) (p : Pending) (s : Store)
    → IsValid s
    → held id (put gc_now now e p s).1 ≤ issued id (issue gc_now now e p) + held id s
held-issue id gc_now now (ok bytes) p s v = rw (lookup-put gc_now now bytes p s v id) (ground arith)
held-issue id gc_now now (err e) p s v = unfold put in rw (lookup-gc gc_now id s v) (ground arith)

held-redeem :
    (id : String) (gc_now now : ℕ) (j : String) (want : Pending) (s : Store)
    → IsValid s
    → redeemed id (redeem gc_now now j want) s + held id (take gc_now now j want s).1 ≤ held id s
held-redeem id gc_now now j want s v = go (take gc_now now j want s).0 refl
  where
    after : lookup id s.items ≡ none → lookup id (take gc_now now j want s).1.items ≡ none
    after = lookup-take-none gc_now now j want s v id

    go :
        (r : Fallible ConfirmationError Pending)
        → (take gc_now now j want s).0 ≡ r
        → redeemed id (redeem gc_now now j want) s + held id (take gc_now now j want s).1
          ≤ held id s
    go (ok p) e = ground (
      arith,
      after,
      eq_iff j id,
      take_ok_removes gc_now now j want s v p e,
      ((take_ok_iff gc_now now j want s p v).0 e).0,
    )
    go (err x) e = ground (arith, after)

held-apply :
    (id : String) (op : Op) (s : Store)
    → IsValid s
    → redeemed id op s + held id (apply op s) ≤ issued id op + held id s
unfolding apply
held-apply id (issue gc_now now e p) s v = omega (arith, held-issue id gc_now now e p s v)
held-apply id (redeem gc_now now j want) s v = omega (arith, held-redeem id gc_now now j want s v)

-- Over any calls, a token is redeemed at most as often as it was issued, the confirmation that is
-- stored at the start, if any, counted as issued, and the one that is stored at the end as not yet
-- redeemed.
pub redemptions-le-issues :
    (id : String) (ops : List Op) (s : Store)
    → IsValid s
    → redemptions id ops s + held id (run ops s) ≤ issues id ops + held id s
unfolding redemptions issues run
redemptions-le-issues id [] s v = omega arith
redemptions-le-issues id (op ∷ ops) s v =
    omega (
      arith,
      held-apply id op s v,
      redemptions-le-issues id ops (apply op s) (apply-IsValid op s v),
    )
