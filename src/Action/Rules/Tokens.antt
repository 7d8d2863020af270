-- ===== src/Action/Rules/Tokens.antt =====
-- Rules for the handlers: a change of the cluster follows a confirmation that is taken for it.
use kube_sre_mcp.Prelude.{
  ℕ, ◌+◌, ◌≤◌, String, ◌≡◌, ◌≢◌, refl, Bool, true, false, ◌⊎◌, inl, inr, Option, none, some, ◌==◌,
  if◌then◌else◌, arith, eq_iff, Bool-cases,
}
use kube_sre_mcp.Prelude.Map.{lookup}
use kube_sre_mcp.Message.{Message}
use kube_sre_mcp.Action.Store.{Fallible, ok, err, Pending, ConfirmationError, take, put}
use kube_sre_mcp.Action.Store.Bind.{IsSameAction}
use kube_sre_mcp.Action.Store.Expiry.{
  IsValid, take_ok_iff, take_ok_removes, put-IsValid, take-IsValid,
}
use kube_sre_mcp.Action.Cluster.{
  Request, History, Env, World, Outcome, next, return, Step, return_early, continue, ◌>>=◌, finish,
}
use kube_sre_mcp.Action.Engine.{success, Result, confirm, of_put, of_take, unless_confirmed}
use kube_sre_mcp.Action.Requests.{Since, now, Since-trans}
use kube_sre_mcp.Action.Rules.{Yields, Same, Reads}
use kube_sre_mcp.Action.Rules.Changes.{Refused, Changed, Executes}

-- What a handler does that is called with the token `id`: one change, for which the token stood for
-- a confirmation that had not expired when it was taken, and which used the token up.
pub record Confirmed (env : Env) (id : String)
    (C : Pending → History → Request → Option Message → Type 0) (w w' : World) (r : Result)
    : Type 0 where
  pub token : id ≢ ""
  pub stored : Pending
  pub found : lookup id w.store.items ≡ some stored
  pub gone : lookup id w'.store.items ≡ none
  pub reading : ℕ
  pub read : w.readings ≤ reading
  pub fresh : env.now reading ≤ stored.expires
  pub change : Changed (C stored) w w' r

pub record Guarded (base : History) (env : Env) (id : String)
    (C : Pending → History → Request → Option Message → Type 0) (m : Step Result Result)
    : Type 0 where
  pub valid : (w : World) → Since base w.history → IsValid w.store → IsValid (m w).1.store
  pub does :
      (w : World)
      → Since base w.history
      → IsValid w.store
      → Refused w (m w).1 (finish (m w).0) ⊎ Confirmed env id C w (m w).1 (finish (m w).0)

after_put :
    (want : Pending) (refuse : Result → Result) (k : Pending → Step Result Result)
    → ((r : Result) → (refuse r).status ≡ r.status)
    → (r : Fallible ConfirmationError String) (w : World)
    → ((unless_confirmed refuse k (of_put want r) w).1 ≡ w)
      × ((finish (unless_confirmed refuse k (of_put want r) w).0).status ≢ success)
unfolding return_early finish
after_put want refuse k keeps (ok id) w = (refl, λ e. ground (arith, keeps (of_put want (ok id)).0))
after_put want refuse k keeps (err x) w = (refl, λ e. ground (arith, keeps (of_put want (err x)).0))

after_err :
    (refuse : Result → Result) (k : Pending → Step Result Result)
    → ((r : Result) → (refuse r).status ≡ r.status)
    → (x : ConfirmationError) (w : World)
    → ((unless_confirmed refuse k (of_take (err x)) w).1 ≡ w)
      × ((finish (unless_confirmed refuse k (of_take (err x)) w).0).status ≢ success)
unfolding return_early finish
after_err refuse k keeps x w = (ground arith, λ e. ground (arith, keeps (of_take (err x)).0))

from_Same :
    {env : Env} {id : String} {C : Pending → History → Request → Option Message → Type 0}
    {u v w : World} {r : Result}
    → Same u v
    → Refused v w r ⊎ Confirmed env id C v w r
    → Refused u w r ⊎ Confirmed env id C u w r
from_Same h (inl d) =
    inl (record { unchanged = ground (arith, h.mutations, d.unchanged); status = d.status })
from_Same h (inr d) = inr (record {
  token = d.token;
  stored = d.stored;
  found = ground (arith, h.store, d.found);
  gone = d.gone;
  reading = d.reading;
  read = omega (arith, h.readings, d.read);
  fresh = d.fresh;
  change = record {
    before = d.change.before;
    request = d.change.request;
    answer = d.change.answer;
    allowed = d.change.allowed;
    last = d.change.last;
    changed = ground (arith, h.mutations, d.change.changed);
    reported = d.change.reported;
  };
})

module _ {env : Env} {id : String} {C : Pending → History → Request → Option Message → Type 0}
    {base : History} where
  pub Guarded-return_early :
      (r : Result) → r.status ≢ success → Guarded base env id C (return_early r)
  unfolding return_early finish
  Guarded-return_early r n = record {
    valid = λ w s v. v;
    does = λ w s v. inl (record { unchanged = refl; status = n });
  }

  pub Guarded-if :
      (b : Bool) (m n : Step Result Result)
      → (b ≡ true → Guarded base env id C m)
      → (b ≡ false → Guarded base env id C n)
      → Guarded base env id C (if b then m else n)
  Guarded-if true m n h k = h refl
  Guarded-if false m n h k = k refl

  module _ {A : Type 0} {P : History → A → Type 0} where
    Guarded-continue :
        (o : Outcome Result A) (f : A → Step Result Result) (w : World)
        → Since base w.history
        → IsValid w.store
        → Yields (P w.history) o
        → ((a : A) (h : History) → Since base h → P h a → Guarded h env id C (f a))
        → IsValid (continue o f w).1.store
          × (Refused w (continue o f w).1 (finish (continue o f w).0)
              ⊎ Confirmed env id C w (continue o f w).1 (finish (continue o f w).0))
    unfolding continue finish
    Guarded-continue (next a) f w s v p k =
        let g = k a w.history s p in (g.valid w now v, g.does w now v)
    Guarded-continue (return r) f w s v p k = (v, inl (record { unchanged = refl; status = p }))

    pub Guarded-bind :
        (m : Step Result A) (f : A → Step Result Result)
        → Reads base P m
        → ((a : A) (h : History) → Since base h → P h a → Guarded h env id C (f a))
        → Guarded base env id C (m >>= f)
    unfolding ◌>>=◌
    Guarded-bind m f h k =
        let go : (w : World) (s : Since base w.history) (v : IsValid w.store) → _ = λ w s v.
          let same = h.same w s in
          Guarded-continue (m w).0 f (m w).1 (Since-trans s same.since) (rw same.store v)
            (h.yields w s) k in
        record {
          valid = λ w s v. (go w s v).0;
          does = λ w s v. from_Same (h.same w s) (go w s v).1;
        }

  -- the confirmation: without a token nothing is changed; with one, only what it stands for
  module _ (want : Pending) (refuse : Result → Result) (k : Pending → Step Result Result)
      (keeps : (r : Result) → (refuse r).status ≡ r.status)
      (executes : (taken : History) (stored : Pending)
        → Since base taken
        → IsSameAction stored want
        → Executes taken (C stored) (k stored)) where
    after_take :
        (w u : World) (n : ℕ)
        → Since base w.history
        → IsValid w.store
        → id ≢ ""
        → (t : Fallible ConfirmationError Pending)
        → (take (env.now n) (env.now (n + 1)) id want w.store).0 ≡ t
        → u.store ≡ (take (env.now n) (env.now (n + 1)) id want w.store).1
        → u.history ≡ w.history
        → w.readings ≡ n
        → IsValid (unless_confirmed refuse k (of_take t) u).1.store
          × (Refused w
                (unless_confirmed refuse k (of_take t) u).1
                (finish (unless_confirmed refuse k (of_take t) u).0)
              ⊎ Confirmed env id C w
                  (unless_confirmed refuse k (of_take t) u).1
                  (finish (unless_confirmed refuse k (of_take t) u).0))
    after_take w u n since v i (ok p) e s h r =
        let (found, _, fresh, same) =
          (take_ok_iff (env.now n) (env.now (n + 1)) id want w.store p v).0 e in
        let x = executes u.history p (rw h since) same in
        let (kept, done) = x.does u now in
        (
          rw (kept, s) (take-IsValid (env.now n) (env.now (n + 1)) id want w.store v),
          elim done [
            | inl d ↦ inl (record { unchanged = ground (arith, d.unchanged); status = d.status })
            | inr d ↦ inr (record {
              token = i;
              stored = p;
              found = found;
              gone =
                  rw (kept, s)
                    (take_ok_removes (env.now n) (env.now (n + 1)) id want w.store v p e);
              reading = n + 1;
              read = omega arith;
              fresh = fresh;
              change = record {
                before = d.before;
                request = d.request;
                answer = d.answer;
                allowed = d.allowed;
                last = d.last;
                changed = ground (arith, d.changed);
                reported = d.reported;
              };
            })
          ],
        )
    after_take w u n since v i (err x) e s h r =
        let (same, refused) = after_err refuse k keeps x u in
        (
          rw (same, s) (take-IsValid (env.now n) (env.now (n + 1)) id want w.store v),
          inl (record { unchanged = rw (same, h); status = refused }),
        )

    with_token :
        (w : World)
        → Since base w.history
        → IsValid w.store
        → IsValid ((confirm env want id >>= unless_confirmed refuse k) w).1.store
          × (Refused w
                ((confirm env want id >>= unless_confirmed refuse k) w).1
                (finish ((confirm env want id >>= unless_confirmed refuse k) w).0)
              ⊎ Confirmed env id C w
                  ((confirm env want id >>= unless_confirmed refuse k) w).1
                  (finish ((confirm env want id >>= unless_confirmed refuse k) w).0))
    unfolding ◌>>=◌ continue confirm
    with_token w since v = elim (Bool-cases (id == "")) [
      | inl e ↦ rw e (
          let done =
            put (env.now w.readings) (env.now (w.readings + 1)) (env.entropy w.readings) want
              w.store in
          let u = record w { store = done.1; readings = w.readings + 2 } in
          let (same, refused) = after_put want refuse k keeps done.0 u in
          (
            rw same (
                put-IsValid (env.now w.readings) (env.now (w.readings + 1)) (env.entropy w.readings)
                  want w.store v),
            inl (record { unchanged = rw same; status = refused }),
          ))
      | inr e ↦ rw e (
          let done = take (env.now w.readings) (env.now (w.readings + 1)) id want w.store in
          let u = record w { store = done.1; readings = w.readings + 2 } in
          after_take w u w.readings since v (λ x. ground (arith, eq_iff id "")) done.0 refl refl
            refl refl)
    ]

    pub Guarded-confirm : Guarded base env id C (confirm env want id >>= unless_confirmed refuse k)
    Guarded-confirm = record {
      valid = λ w s v. (with_token w s v).0;
      does = λ w s v. (with_token w s v).1;
    }
