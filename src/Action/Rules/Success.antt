-- ===== src/Action/Rules/Success.antt =====
-- Rules for the handlers' computations that go through to the end: one for each way to build them.
use kube_sre_mcp.Prelude.{
  ℕ, ◌+◌, String, ◌≡◌, refl, ◌∙◌, Bool, true, false, none, ◌==◌, if◌then◌else◌,
}
use kube_sre_mcp.Message.{Message}
use kube_sre_mcp.Action.Store.{ok, Pending, Store, take}
use kube_sre_mcp.Action.Cluster.{
  Reply, Call, History, ClusterClient, Env, World, next, Step, pure, send, or_return, continue,
  ◌>>=◌, finish,
}
use kube_sre_mcp.Action.Engine.{success, Result, confirm, mutate, unless_confirmed}

-- The computation goes on with a value that has the property, and leaves the store and the number of
-- readings as they are.
pub record Gives {A : Type 0} (P : A → Type 0) (m : Step Result A) : Type 0 where
  pub gives :
      (w : World)
      → (a : A) × (w' : World) × (m w ≡ (next a, w'))
        × P a
        × (w'.store ≡ w.store)
        × (w'.readings ≡ w.readings)

-- the handler ends in success wherever the condition on the store and the readings holds
abbrev pub Succeeds : (Store → ℕ → Type 0) → Step Result Result → Type 0
Succeeds C m = (w : World) → C w.store w.readings → (finish (m w).0).status ≡ success

module _ {A : Type 0} {P : A → Type 0} where
  pub Gives-pure : (a : A) → P a → Gives P (pure {R = Result} a)
  unfolding pure
  Gives-pure a p = record { gives = λ w. (a, w, refl, p, refl, refl) }

  pub Gives-send :
      (cl : ClusterClient) (c : Call) (reply : History → A)
      → ((h : History) → P (reply h))
      → Gives P (send cl c reply)
  unfolding send
  Gives-send cl c reply p = record {
    gives = λ w. (reply w.history, _, refl, p w.history, refl, refl);
  }

  pub Gives-if_true :
      (b : Bool) (m n : Step Result A) → b ≡ true → Gives P m → Gives P (if b then m else n)
  Gives-if_true b m n e g = rw e g

  pub Gives-if_false :
      (b : Bool) (m n : Step Result A) → b ≡ false → Gives P n → Gives P (if b then m else n)
  Gives-if_false b m n e g = rw e g

module _ {A : Type 0} where
  pub Gives-or_return :
      (refuse : Message → Result) (reply : Reply A) (a : A)
      → reply ≡ ok a
      → Gives (λ x. x ≡ a) (or_return refuse reply)
  unfolding or_return
  Gives-or_return refuse reply a e = rw e (record { gives = λ w. (a, w, refl, refl, refl, refl) })

module _ {A B : Type 0} {P : A → Type 0} {Q : B → Type 0} where
  pub Gives-bind :
      (m : Step Result A) (f : A → Step Result B)
      → Gives P m
      → ((a : A) → P a → Gives Q (f a))
      → Gives Q (m >>= f)
  unfolding ◌>>=◌ continue
  Gives-bind m f g k = record {
    gives = λ w.
        let (a, w', e, p, s, r) = g.gives w in
        let (b, w'', e', q, s', r') = (k a p).gives w' in (b, w'', rw e e', q, s' ∙ s, r' ∙ r);
  }

module _ {A : Type 0} {P : A → Type 0} (C : Store → ℕ → Type 0) where
  pub Succeeds-bind :
      (m : Step Result A) (f : A → Step Result Result)
      → Gives P m
      → ((a : A) → P a → Succeeds C (f a))
      → Succeeds C (m >>= f)
  unfolding ◌>>=◌ continue
  Succeeds-bind m f g k w c = let (a, w', e, p, s, r) = g.gives w in rw e (k a p w' (rw s (rw r c)))

module _ (C : Store → ℕ → Type 0) where
  pub Succeeds-if_false :
      (b : Bool) (m n : Step Result Result)
      → b ≡ false
      → Succeeds C n
      → Succeeds C (if b then m else n)
  Succeeds-if_false b m n e g = rw e g

  pub Succeeds-pure : (r : Result) → r.status ≡ success → Succeeds C (pure r)
  unfolding pure finish
  Succeeds-pure r e w c = e

pub Gives-mutate :
    (cl : ClusterClient) (call : Call)
    → ((h : History) → cl.api.mutate h call ≡ none)
    → Gives (λ _. Unit {0}) (mutate cl call)
unfolding mutate
Gives-mutate cl call done =
    Gives-bind _ _ (Gives-send {P = λ x. x ≡ none} cl call _ done)
      λ failed e. rw e (Gives-pure tt tt)

-- the token is taken with this result, at the next two readings of the clock
abbrev pub IsTaken : Env → String → Pending → Pending → Store → ℕ → Type 0
IsTaken env id want stored s n = (take (env.now n) (env.now (n + 1)) id want s).0 ≡ ok stored

pub Succeeds-confirm :
    (env : Env) (id : String) (want stored : Pending) (refuse : Result → Result)
    (k : Pending → Step Result Result)
    → id == "" ≡ false
    → Succeeds (λ _ _. Unit {0}) (k stored)
    → Succeeds (IsTaken env id want stored) (confirm env want id >>= unless_confirmed refuse k)
unfolding ◌>>=◌ continue confirm
Succeeds-confirm env id want stored refuse k n g w taken = rw n (rw taken (g _ tt))
