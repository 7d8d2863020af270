-- ===== src/Action/Rules.antt =====
-- Rules for the handlers' computations that only read, one for each way to build them.
pub mod Changes
pub mod Tokens
pub mod Success
pub mod Steady
use kube_sre_mcp.Prelude.{
  ℕ, ◌+◌, ◌≤◌, String, ◌≡◌, ◌≢◌, refl, sym, Bool, true, false, not, ◌⊎◌, inl, inr, Option, none,
  some, List, [], ◌∷◌, ◌==◌, if◌then◌else◌, arith, eq_iff, Bool-cases,
}
use kube_sre_mcp.Prelude.Map.{lookup}
use kube_sre_mcp.Message.{Message}
use kube_sre_mcp.Action.Store.{Fallible, ok, err, Pending, Store, ConfirmationError, take, put}
use kube_sre_mcp.Action.Store.Bind.{IsSameAction}
use kube_sre_mcp.Action.Store.Expiry.{IsValid, take_ok_iff, take_ok_removes}
use kube_sre_mcp.Action.Cluster.{
  Reply, Call, is_mutation, Request, History, ClusterClient, Env, World, Outcome, next, return,
  Step, pure, return_early, send, or_return, continue, ◌>>=◌, ◌>>◌, finish, mutations,
}
use kube_sre_mcp.Action.Requests.{Since, now, later, Since-trans, Sent}
use kube_sre_mcp.Action.Engine.{
  Status, success, error, Result, refusal, confirm, mutate, time_now, is_ok,
}

-- a value has the property, and a result that is returned early is no success
abbrev pub Yields : {A : Type 0} → (A → Type 0) → Outcome Result A → Type 0
Yields Q (next a) = Q a
Yields Q (return r) = r.status ≢ success

-- the store and the changes made stay as they were
pub record Same (w w' : World) : Type 0 where
  pub store : w'.store ≡ w.store
  pub mutations : mutations w'.history ≡ mutations w.history
  pub readings : w.readings ≤ w'.readings
  pub since : Since w.history w'.history

pub Same-refl : (w : World) → Same w w
Same-refl w = record { store = refl; mutations = refl; readings = omega arith; since = now }

pub Same-trans : {u v w : World} → Same u v → Same v w → Same u w
Same-trans {u} {v} {w} h k = record {
  store = ground (arith, h.store, k.store);
  mutations = ground (arith, h.mutations, k.mutations);
  readings = omega (arith, h.readings, k.readings);
  since = Since-trans h.since k.since;
}

-- What a computation does that only reads, if the requests of `base` were made before it: the value
-- has the property, which may speak of the requests that are made in the end.
pub record Reads {A : Type 0} (base : History) (Q : History → A → Type 0) (m : Step Result A)
    : Type 0 where
  pub same : (w : World) → Since base w.history → Same w (m w).1
  pub yields : (w : World) → Since base w.history → Yields (Q (m w).1.history) (m w).0

module _ {A : Type 0} {base : History} {Q : History → A → Type 0} where
  pub Reads-pure :
      (a : A) → ((h : History) → Since base h → Q h a) → Reads base Q (pure {R = Result} a)
  unfolding pure
  Reads-pure a q = record { same = λ w s. Same-refl w; yields = λ w s. q w.history s }

  pub Reads-return_early : (r : Result) → r.status ≢ success → Reads base Q (return_early r)
  unfolding return_early
  Reads-return_early r n = record { same = λ w s. Same-refl w; yields = λ w s. n }

  pub Reads-if :
      (b : Bool) (m n : Step Result A)
      → (b ≡ true → Reads base Q m)
      → (b ≡ false → Reads base Q n)
      → Reads base Q (if b then m else n)
  Reads-if true m n h k = h refl
  Reads-if false m n h k = k refl

-- a reply is what the API has behind the requests of `before`
pub record Replied {A : Type 0} (cl : ClusterClient) (c : Call) (reply : History → A)
    (first last : History) (a : A) : Type 0 where
  pub before : History
  pub sent : Sent cl c first last before
  pub is : reply before ≡ a

module _ {A : Type 0} {base : History} where
  pub Reads-send :
      (cl : ClusterClient) (c : Call) (reply : History → A)
      → is_mutation c ≡ false
      → Reads base (Replied cl c reply base) (send cl c reply)
  unfolding send mutations
  Reads-send cl c reply n = record {
    same = λ w s. record {
      store = refl;
      mutations = ground arith;
      readings = omega arith;
      since = later _ now;
    };
    yields =
        λ w s. record { before = w.history; sent = record { earlier = s; until = now }; is = refl };
  }

  pub Reads-or_return :
      (refuse : Message → Result) (reply : Reply A)
      → ((e : Message) → (refuse e).status ≢ success)
      → Reads base (λ _ a. reply ≡ ok a) (or_return refuse reply)
  unfolding or_return
  Reads-or_return refuse (ok a) n = record { same = λ w s. Same-refl w; yields = λ w s. refl }
  Reads-or_return refuse (err e) n = record { same = λ w s. Same-refl w; yields = λ w s. n e }

pub Reads-time_now : (env : Env) {base : History} → Reads base (λ _ _. Unit {0}) (time_now env)
unfolding time_now
Reads-time_now env = record {
  same = λ w s. record { store = refl; mutations = refl; readings = omega arith; since = now };
  yields = λ w s. tt;
}

module _ {A B : Type 0} {base : History} {P : History → A → Type 0} {Q : History → B → Type 0} where
  Reads-continue :
      (o : Outcome Result A) (f : A → Step Result B) (w : World)
      → Since base w.history
      → Yields (P w.history) o
      → ((a : A) (h : History) → Since base h → P h a → Reads h Q (f a))
      → Same w (continue o f w).1 × Yields (Q (continue o f w).1.history) (continue o f w).0
  unfolding continue
  Reads-continue (next a) f w s p k = let r = k a w.history s p in (r.same w now, r.yields w now)
  Reads-continue (return r) f w s p k = (Same-refl w, p)

  pub Reads-bind :
      (m : Step Result A) (f : A → Step Result B)
      → Reads base P m
      → ((a : A) (h : History) → Since base h → P h a → Reads h Q (f a))
      → Reads base Q (m >>= f)
  unfolding ◌>>=◌
  Reads-bind m f h k =
      let go : (w : World)
          → Since base w.history
          → Same (m w).1 (continue (m w).0 f (m w).1).1
            × Yields (Q (continue (m w).0 f (m w).1).1.history) (continue (m w).0 f (m w).1).0 =
        λ w s.
          Reads-continue (m w).0 f (m w).1 (Since-trans s (h.same w s).since) (h.yields w s) k in
      record { same = λ w s. Same-trans (h.same w s) (go w s).0; yields = λ w s. (go w s).1 }

pub Reads-weaken :
    {A : Type 0} {base : History} {P Q : History → A → Type 0} (m : Step Result A)
    → Reads base P m
    → ((h : History) (a : A) → P h a → Q h a)
    → Reads base Q m
Reads-weaken {A} {base} {P} {Q} m h k = record {
  same = h.same;
  yields = λ w s. go (m w).1.history (m w).0 (h.yields w s);
}
  where
    go : (l : History) (o : Outcome Result A) → Yields (P l) o → Yields (Q l) o
    go l (next a) p = k l a p
    go l (return r) n = n
