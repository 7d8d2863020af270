-- ===== src/Action/Requests.antt =====
-- internal/action/engine.go: the order of the requests that a handler makes.
use kube_sre_mcp.Prelude.{◌∷◌}
use kube_sre_mcp.Action.Cluster.{Call, Request, History, ClusterClient}

-- `h` is `base` with the requests that were made since
pub data Since (base : History) : History → Type 0 where
  now : Since base base
  later : {h : History} (r : Request) → Since base h → Since base (r ∷ h)

pub Since-trans : {a b c : History} → Since a b → Since b c → Since a c
Since-trans h now = h
Since-trans h (later r k) = later r (Since-trans h k)

-- a request of the client is among those made between `first` and `last`, behind those of `before`
pub record Sent (cl : ClusterClient) (c : Call) (first last before : History) : Type 0 where
  pub earlier : Since first before
  pub until : Since (record { context = cl.context_name; call = c } ∷ before) last

pub Sent-later :
    {cl : ClusterClient} {c : Call} {first last last' before : History}
    → Since last last'
    → Sent cl c first last before
    → Sent cl c first last' before
Sent-later h s = record { earlier = s.earlier; until = Since-trans s.until h }
