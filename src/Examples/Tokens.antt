-- ===== src/Examples/Tokens.antt =====
-- internal/action/confirmation.go: the store of confirmations on concrete inputs.
use kube_sre_mcp.Prelude.{◌≡◌, ◌≤◌, ◌+◌, ◌↔◌, refl, arith, true, false, some, [], ◌∷◌, ◌==◌, List}
use kube_sre_mcp.Prelude.Int.{add_duration}
use kube_sre_mcp.Prelude.Map.{lookup, keep}
use kube_sre_mcp.Prelude.Text.{hex_encode}
use kube_sre_mcp.Action.Store.{
  ok, err, confirmation_mismatch, confirmation_missing, Pending, bind_match, put, take,
}
use kube_sre_mcp.Action.Store.Bind.{IsSameAction, bind_match_iff}
use kube_sre_mcp.Action.Store.Expiry.{take_ok_iff, take-put, take-put_late, take_mismatch_keeps}
use kube_sre_mcp.Action.Store.Tokens.{
  Op, issue, redeem, run, issues, redemptions, held, redemptions-le-issues,
}
use kube_sre_mcp.Action.Guards.{pdb_block}
use kube_sre_mcp.Action.Guards.Budgets.{IsUnblocked, pdb_block_iff}
use kube_sre_mcp.Examples.Cluster.{restart_pending, store, budget}
use kube_sre_mcp.Examples.Actions.{store-IsValid}

-- a confirmation for another namespace
abbrev other_pending : Pending
other_pending = record restart_pending { namespace = "other" }

abbrev calls : List Op
calls =
    issue 1 2 (ok (1 ∷ 2 ∷ [])) restart_pending
    ∷ redeem 3 4 "0aff" restart_pending
    ∷ redeem 5 6 "0aff" restart_pending
    ∷ []

redemptions-le-issues_example :
    redemptions "0aff" calls store + held "0aff" (run calls store)
    ≤ issues "0aff" calls + held "0aff" store
redemptions-le-issues_example = redemptions-le-issues "0aff" calls store store-IsValid

take_ok_iff_example : ((take 5 6 "0aff" restart_pending store).0 ≡ ok restart_pending) ↔ (
    (lookup "0aff" store.items ≡ some restart_pending)
    × (5 ≤ restart_pending.expires)
    × (6 ≤ restart_pending.expires)
    × IsSameAction restart_pending restart_pending)
take_ok_iff_example = take_ok_iff 5 6 "0aff" restart_pending store restart_pending store-IsValid

take-put_example :
    let (id, s') = put 1 2 (ok (1 ∷ 2 ∷ [])) restart_pending store in
    (id ≡ ok (hex_encode (1 ∷ 2 ∷ [])))
    × ((take 3 4 (hex_encode (1 ∷ 2 ∷ [])) restart_pending s').0
        ≡ ok (record restart_pending { expires = add_duration 2 store.ttl }))
take-put_example =
    take-put 1 2 3 4 (1 ∷ 2 ∷ []) restart_pending store store-IsValid (omega arith) (omega arith)

bind_match_iff_example :
    (bind_match restart_pending other_pending ≡ true) ↔ IsSameAction restart_pending other_pending
bind_match_iff_example = bind_match_iff restart_pending other_pending

mismatches : (take 5 6 "0aff" other_pending store).0 ≡ err confirmation_mismatch
unfolding take bind_match lookup keep
mismatches = refl

take_mismatch_keeps_example :
    (p : Pending) × (lookup "0aff" store.items ≡ some p)
    × (bind_match p other_pending ≡ false)
    × (lookup "0aff" (take 5 6 "0aff" other_pending store).1.items ≡ some p)
take_mismatch_keeps_example =
    take_mismatch_keeps 5 6 "0aff" other_pending store store-IsValid mismatches

pdb_block_iff_example :
    ((pdb_block (λ p. p.name == "web") false [] (budget ∷ [])).0 ≡ false)
    ↔ IsUnblocked (λ p. p.name == "web") (budget ∷ [])
pdb_block_iff_example = pdb_block_iff (λ p. p.name == "web") [] (budget ∷ [])

take-put_late_example :
    (take 903 904
      (hex_encode (1 ∷ 2 ∷ []))
      other_pending
      (put 1 2 (ok (1 ∷ 2 ∷ [])) restart_pending store).1).0
    ≡ err confirmation_missing
take-put_late_example =
    take-put_late 1 2 903 904 (1 ∷ 2 ∷ []) restart_pending other_pending store store-IsValid
      (omega arith)
