-- ===== src/Action/Store/Expiry.antt =====
-- internal/action/confirmation.go: what Put and Take do to one token, on every branch.
use kube_sre_mcp.Prelude.{
  ℕ, ◌≤◌, ◌<◌, String, ◌≡◌, ◌≢◌, ◌↔◌, refl, true, false, not, inl, inr, Option, none, some, List,
  arith, eq_iff, eq_refl, ◌==◌, Option-cases, if◌then◌else◌,
}
use kube_sre_mcp.Prelude.Int.{add_duration}
use kube_sre_mcp.Prelude.Map.{
  lookup, HasUniqueKeys, lookup-insert, lookup-remove, lookup-keep, insert-HasUniqueKeys,
  remove-HasUniqueKeys, keep-HasUniqueKeys,
}
use kube_sre_mcp.Prelude.Text.{hex_encode}
use kube_sre_mcp.Action.Store.Bind.{IsSameAction, bind_match_iff}
use kube_sre_mcp.Action.Store.{
  Fallible, ok, err, confirmation_missing, confirmation_expired, confirmation_mismatch, Pending,
  Store, is_expired, gc, bind_match, put, take,
}

-- each token is stored once
abbrev pub IsValid : Store → Type 0
IsValid s = HasUniqueKeys s.items

-- what Take finds under a token: the confirmation that is stored and has not expired at `gc_now`
abbrev pub live : ℕ → String → Store → Option Pending
live gc_now id s = elim (lookup id s.items) [
  | none ↦ none
  | some p ↦ if not (is_expired gc_now p) then some p else none
]

pub lookup-gc :
    (now : ℕ) (id : String) (s : Store) → IsValid s → lookup id (gc now s).items ≡ live now id s
unfolding gc
lookup-gc now id s v = lookup-keep (λ p. not (is_expired now p)) id s.items v

pub gc-IsValid : (now : ℕ) (s : Store) → IsValid s → IsValid (gc now s)
unfolding gc
gc-IsValid now s v = keep-HasUniqueKeys (λ p. not (is_expired now p)) s.items v

-- What is stored under `j` after a Take of `id` that found `p`.
module _ (gc_now now : ℕ) (id : String) (want : Pending) (s : Store) (v : IsValid s) where
  lookup-gc' : (j : String) → lookup j (gc gc_now s).items ≡ live gc_now j s
  lookup-gc' j = lookup-gc gc_now j s v

  take_ok :
      (p : Pending)
      → (take gc_now now id want s).0 ≡ ok p
      → (lookup id s.items ≡ some p)
        × (is_expired gc_now p ≡ false)
        × (is_expired now p ≡ false)
        × (bind_match p want ≡ true)
  unfolding take
  take_ok p h = ground (arith, lookup-gc' id)

  take_fresh :
      (p : Pending)
      → lookup id s.items ≡ some p
      → is_expired gc_now p ≡ false
      → is_expired now p ≡ false
      → bind_match p want ≡ true
      → (take gc_now now id want s).0 ≡ ok p
  unfolding take
  take_fresh p h e f b = ground (arith, lookup-gc' id)

  take_missing : live gc_now id s ≡ none → (take gc_now now id want s).0 ≡ err confirmation_missing
  unfolding take
  take_missing h = ground (arith, lookup-gc' id)

  -- Take leaves nothing under a token that was not there.
  pub lookup-take-none :
      (j : String) → lookup j s.items ≡ none → lookup j (take gc_now now id want s).1.items ≡ none
  unfolding take
  lookup-take-none j h =
      ground (arith, lookup-gc' j, lookup-gc' id, lookup-remove id j (gc gc_now s).items)

  -- A token that was redeemed is gone.
  pub take_ok_removes :
      (p : Pending)
      → (take gc_now now id want s).0 ≡ ok p
      → lookup id (take gc_now now id want s).1.items ≡ none
  unfolding take
  take_ok_removes p h =
      ground (arith, lookup-gc' id, lookup-remove id id (gc gc_now s).items, eq_refl id)

  -- What Take leaves under another token: what was live there.
  pub lookup-take_ne :
      (j : String) → id ≢ j → lookup j (take gc_now now id want s).1.items ≡ live gc_now j s
  unfolding take
  lookup-take_ne j n =
      ground (arith, lookup-gc' j, lookup-remove id j (gc gc_now s).items, eq_iff id j)

  -- A mismatch does not use the token up.
  pub take_mismatch_keeps :
      (take gc_now now id want s).0 ≡ err confirmation_mismatch
      → (p : Pending) × (lookup id s.items ≡ some p)
        × (bind_match p want ≡ false)
        × (lookup id (take gc_now now id want s).1.items ≡ some p)
  unfolding take
  take_mismatch_keeps h = elim (Option-cases (lookup id s.items)) [
    | inl e ↦ absurd (ground (arith, lookup-gc' id))
    | inr (p, e) ↦ (p, e, ground (arith, lookup-gc' id), ground (arith, lookup-gc' id))
  ]

  pub take-IsValid : IsValid (take gc_now now id want s).1
  unfolding take
  take-IsValid = ground (arith, gc-IsValid gc_now s v, remove-HasUniqueKeys id (gc gc_now s).items)

  -- `confirmation_expired` needs the clock to pass the time of expiry within the call: gcLocked has
  -- deleted what had expired before.
  pub take_expired :
      (take gc_now now id want s).0 ≡ err confirmation_expired
      → (p : Pending) × (lookup id s.items ≡ some p) × (gc_now ≤ p.expires) × (p.expires < now)
  unfolding take
  take_expired h = elim (Option-cases (lookup id s.items)) [
    | inl e ↦ absurd (ground (arith, lookup-gc' id))
    | inr (p, e) ↦ (p, e, ground (arith, lookup-gc' id), ground (arith, lookup-gc' id))
  ]

-- Take succeeds with `p` exactly if `p` is stored under the token, had not expired at either reading
-- of the clock, and is for the same action.
pub take_ok_iff :
    (gc_now now : ℕ) (id : String) (want : Pending) (s : Store) (p : Pending)
    → IsValid s
    → ((take gc_now now id want s).0 ≡ ok p) ↔ (
        (lookup id s.items ≡ some p)
        × (gc_now ≤ p.expires)
        × (now ≤ p.expires)
        × IsSameAction p want)
take_ok_iff gc_now now id want s p v = (
  λ h.
      let (found, fresh, fresh', same) = take_ok gc_now now id want s v p h in
      (found, ground arith, ground arith, (bind_match_iff p want).0 same),
  λ h.
      take_fresh gc_now now id want s v p h.0 (ground arith) (ground arith)
        ((bind_match_iff p want).1 h.3),
)

module _ (gc_now now : ℕ) (bytes : List ℕ) (p : Pending) (s : Store) (v : IsValid s) where
  abbrev pub token : String
  token = hex_encode bytes

  abbrev pub stamped : Pending
  stamped = record p { expires = add_duration now s.ttl }

  pub lookup-put :
      (j : String)
      → lookup j (put gc_now now (ok bytes) p s).1.items
        ≡ (if token == j then some stamped else live gc_now j s)
  unfolding put
  lookup-put j =
      ground (arith, lookup-gc gc_now j s v, lookup-insert token j stamped (gc gc_now s).items)

pub put-IsValid :
    (gc_now now : ℕ) (entropy : Fallible String (List ℕ)) (p : Pending) (s : Store)
    → IsValid s
    → IsValid (put gc_now now entropy p s).1
unfolding put
put-IsValid gc_now now (ok bytes) p s v =
    insert-HasUniqueKeys (hex_encode bytes) (record p { expires = add_duration now s.ttl })
      (gc gc_now s).items (gc-IsValid gc_now s v)
put-IsValid gc_now now (err e) p s v = gc-IsValid gc_now s v

-- Where the random source gives bytes, Put issues their hexadecimal text as the token, and Take, when
-- asked for the action that it was issued for and where neither of its two clock readings is behind
-- the end of the time to live, gives the confirmation back with its time of expiry.
pub take-put :
    (gc_now now gc_now' now' : ℕ) (bytes : List ℕ) (p : Pending) (s : Store)
    → IsValid s
    → gc_now' ≤ add_duration now s.ttl
    → now' ≤ add_duration now s.ttl
    → let (id, s') = put gc_now now (ok bytes) p s in
      (id ≡ ok (hex_encode bytes))
      × ((take gc_now' now' (hex_encode bytes) p s').0
          ≡ ok (record p { expires = add_duration now s.ttl }))
unfolding put
take-put gc_now now gc_now' now' bytes p s v h k = (
  refl,
  (take_ok_iff gc_now' now' _ p _ _ (put-IsValid gc_now now (ok bytes) p s v)).1 (
    rw (lookup-put gc_now now bytes p s v, eq_refl),
    h,
    k,
    record {
      action = refl;
      api_group = refl;
      kind = refl;
      name = refl;
      namespace = refl;
      context = refl;
      uid = inr (inr refl);
      replicas = refl;
      grace = refl;
      cordon = refl;
    },
  ),
)

-- After its time to live a token is not found, whatever is asked.
pub take-put_late :
    (gc_now now gc_now' now' : ℕ) (bytes : List ℕ) (p want : Pending) (s : Store)
    → IsValid s
    → add_duration now s.ttl < gc_now'
    → (take gc_now' now' (hex_encode bytes) want (put gc_now now (ok bytes) p s).1).0
      ≡ err confirmation_missing
take-put_late gc_now now gc_now' now' bytes p want s v h =
    take_missing gc_now' now' (hex_encode bytes) want _ (put-IsValid gc_now now (ok bytes) p s v) (
      ground
        (arith, lookup-put gc_now now bytes p s v (hex_encode bytes), eq_refl (hex_encode bytes)))
