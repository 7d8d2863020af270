-- ===== src/Action/Rules/Changes.antt =====
-- Rules for the computations that end in one change of the cluster.
use kube_sre_mcp.Prelude.{
  ◌≡◌, ◌≢◌, refl, Bool, true, false, ◌⊎◌, inl, inr, Option, none, ◌∷◌, if◌then◌else◌, arith,
}
use kube_sre_mcp.Message.{Message}
use kube_sre_mcp.Action.Cluster.{
  Call, is_mutation, Request, History, ClusterClient, World, Outcome, next, return, Step, pure,
  return_early, send, continue, ◌>>=◌, ◌>>◌, finish, mutations,
}
use kube_sre_mcp.Action.Engine.{success, error, Result, mutate}
use kube_sre_mcp.Action.Requests.{Since, now, Since-trans}
use kube_sre_mcp.Action.Rules.{Yields, Same, Reads}

-- what a computation did, from `w` to `w'`: no change was asked for and no success is reported
pub record Refused (w w' : World) (r : Result) : Type 0 where
  pub unchanged : mutations w'.history ≡ mutations w.history
  pub status : r.status ≢ success

-- one change was asked for as the last request, it, the API's answer and the requests before it are
-- such as `C` allows, and success is reported exactly if the answer is no error
pub record Changed (C : History → Request → Option Message → Type 0) (w w' : World) (r : Result)
    : Type 0 where
  pub before : History
  pub request : Request
  pub answer : Option Message
  pub allowed : C before request answer
  pub last : w'.history ≡ request ∷ before
  pub changed : mutations w'.history ≡ request ∷ mutations w.history
  pub reported : ((r.status ≡ success) × (answer ≡ none)) ⊎ ((r.status ≡ error) × (answer ≢ none))

pub record Executes (base : History) (C : History → Request → Option Message → Type 0)
    (m : Step Result Result) : Type 0 where
  pub does :
      (w : World)
      → Since base w.history
      → ((m w).1.store ≡ w.store)
        × (Refused w (m w).1 (finish (m w).0) ⊎ Changed C w (m w).1 (finish (m w).0))

-- what comes after requests that only read
from_Same :
    {C : History → Request → Option Message → Type 0} {u v w : World} {r : Result}
    → Same u v
    → Refused v w r ⊎ Changed C v w r
    → Refused u w r ⊎ Changed C u w r
from_Same h (inl d) =
    inl (record { unchanged = ground (arith, h.mutations, d.unchanged); status = d.status })
from_Same h (inr d) = inr (record {
  before = d.before;
  request = d.request;
  answer = d.answer;
  allowed = d.allowed;
  last = d.last;
  changed = ground (arith, h.mutations, d.changed);
  reported = d.reported;
})

module _ {C : History → Request → Option Message → Type 0} {base : History} where
  pub Executes-return_early : (r : Result) → r.status ≢ success → Executes base C (return_early r)
  unfolding return_early finish
  Executes-return_early r n = record {
    does = λ w s. (refl, inl (record { unchanged = refl; status = n }));
  }

  pub Executes-if :
      (b : Bool) (m n : Step Result Result)
      → (b ≡ true → Executes base C m)
      → (b ≡ false → Executes base C n)
      → Executes base C (if b then m else n)
  Executes-if true m n h k = h refl
  Executes-if false m n h k = k refl

  module _ {A : Type 0} {P : History → A → Type 0} where
    Executes-continue :
        (o : Outcome Result A) (f : A → Step Result Result) (w : World)
        → Since base w.history
        → Yields (P w.history) o
        → ((a : A) (h : History) → Since base h → P h a → Executes h C (f a))
        → ((continue o f w).1.store ≡ w.store)
          × (Refused w (continue o f w).1 (finish (continue o f w).0)
              ⊎ Changed C w (continue o f w).1 (finish (continue o f w).0))
    unfolding continue finish
    Executes-continue (next a) f w s p k = (k a w.history s p).does w now
    Executes-continue (return r) f w s p k = (refl, inl (record { unchanged = refl; status = p }))

    pub Executes-bind :
        (m : Step Result A) (f : A → Step Result Result)
        → Reads base P m
        → ((a : A) (h : History) → Since base h → P h a → Executes h C (f a))
        → Executes base C (m >>= f)
    unfolding ◌>>=◌
    Executes-bind m f h k = record {
      does = λ w s.
          let same = h.same w s in
          let (kept, done) =
            Executes-continue (m w).0 f (m w).1 (Since-trans s same.since) (h.yields w s) k in
          (ground (arith, same.store, kept), from_Same same done);
    }

  -- the change itself, and the result behind it
  pub Executes-mutate :
      (cl : ClusterClient) (c : Call) (r : Result)
      → is_mutation c ≡ true
      → r.status ≡ success
      → ((h : History)
          → Since base h
          → C h (record { context = cl.context_name; call = c }) (cl.api.mutate h c))
      → Executes base C (mutate cl c >> pure r)
  unfolding mutate ◌>>=◌ send pure return_early finish mutations
  Executes-mutate cl c r m ok allowed = record {
    does = λ w s. (
      ground arith,
      inr (record {
        before = w.history;
        request = record { context = cl.context_name; call = c };
        answer = cl.api.mutate w.history c;
        allowed = allowed w.history s;
        last = ground arith;
        changed = ground arith;
        reported = ground arith;
      }),
    );
  }

pub Executes-allowed :
    {C D : History → Request → Option Message → Type 0} {base : History} {m : Step Result Result}
    → ((h : History) (request : Request) (answer : Option Message)
        → C h request answer
        → D h request answer)
    → Executes base C m
    → Executes base D m
Executes-allowed k h = record {
  does = λ w s.
      let (kept, done) = h.does w s in
      (
        kept,
        elim done [
          | inl d ↦ inl d
          | inr d ↦ inr (record {
            before = d.before;
            request = d.request;
            answer = d.answer;
            allowed = k d.before d.request d.answer d.allowed;
            last = d.last;
            changed = d.changed;
            reported = d.reported;
          })
        ],
      );
}
