-- ===== src/Graph/WellFormed.antt =====
-- internal/graph: what holds of every graph that a builder returns, also beside an error.
use kube_sre_mcp.Prelude.{
  String, Bool, true, false, ◌||◌, List, [], ◌∷◌, ◌++◌, ◌==◌, ◌≡◌, ◌⊎◌, refl, ◌∙◌, inl, inr,
  Bool-cases, if◌then◌else◌, arith, any, All, All-append, eq_iff, eq_refl,
}
use kube_sre_mcp.Prelude.Sort.{IsRanked}
use kube_sre_mcp.Model.{ResourceRef}
use kube_sre_mcp.Graph.Core.{
  RelType, Edge, Graph, new, same_identity, is_present, add_node, add_edge, truncate,
}
use kube_sre_mcp.Graph.Built.{Built, fresh, linked, deep, wide}

-- AddNode takes the second for the first
abbrev pub is_same : ResourceRef → ResourceRef → Bool
is_same e n = if n.uid == "" then same_identity e n else e.uid == n.uid

abbrev pub Differs : ResourceRef → ResourceRef → Type 0
Differs e n = is_same e n ≡ false

-- the UIDs of the nodes that have one
unfoldable pub uids : List ResourceRef → List String
uids [] = []
uids (n ∷ ns) = let rest = uids ns in if n.uid == "" then rest else n.uid ∷ rest

abbrev pub Joins : Graph → Edge → Type 0
Joins g e = (is_present g e.from ≡ true) × (is_present g e.to ≡ true)

abbrev pub HasReason : Graph → Type 0
HasReason g =
    ((g.truncated ≡ false) × (g.truncation_reason ≡ ""))
    ⊎ ((g.truncated ≡ true)
        × ((g.truncation_reason ≡ "max_depth") ⊎ (g.truncation_reason ≡ "max_nodes")))

-- a graph over its root: no node twice, the UIDs recorded, no edge that leads out of the nodes, and a
-- reason exactly where it is truncated
abbrev pub IsWellFormed : ResourceRef → Graph → Type 0
IsWellFormed root g =
    (g.root ≡ root)
    × (is_present g root ≡ true)
    × (g.visited ≡ uids g.nodes)
    × IsRanked Differs g.nodes
    × All (Joins g) g.edges
    × HasReason g

any-append_last :
    {A : Type 0} (p : A → Bool) (xs : List A) (x : A) → any p (xs ++ x ∷ []) ≡ (any p xs || p x)
any-append_last p [] x = ground arith
any-append_last p (y ∷ ys) x = ground (arith, any-append_last p ys x)

uids-append :
    (ns : List ResourceRef) (n : ResourceRef)
    → uids (ns ++ n ∷ []) ≡ (if n.uid == "" then uids ns else uids ns ++ n.uid ∷ [])
unfolding uids
uids-append [] n = ground arith
uids-append (m ∷ ns) n = ground (arith, uids-append ns n)

unvisited-All :
    (n : ResourceRef) (ns : List ResourceRef)
    → n.uid == "" ≡ false
    → any (λ u. u == n.uid) (uids ns) ≡ false
    → All (λ e. Differs e n) ns
unfolding uids
unvisited-All n [] u h = tt
unvisited-All n (m ∷ ns) u h = (
  ground (arith, eq_iff m.uid n.uid, eq_iff m.uid "", eq_iff n.uid ""),
  unvisited-All n ns u (ground arith),
)

unnamed-All :
    (n : ResourceRef) (ns : List ResourceRef)
    → n.uid == "" ≡ true
    → any (λ e. same_identity e n) ns ≡ false
    → All (λ e. Differs e n) ns
unnamed-All n [] u h = tt
unnamed-All n (m ∷ ns) u h = (ground arith, unnamed-All n ns u (ground arith))

append-IsRanked :
    (n : ResourceRef) (ns : List ResourceRef)
    → All (λ e. Differs e n) ns
    → IsRanked Differs ns
    → IsRanked Differs (ns ++ n ∷ [])
append-IsRanked n [] d r = (tt, tt)
append-IsRanked n (m ∷ ns) (p, d) (h, r) =
    (All-append (Differs m) ns (n ∷ []) h (p, tt), append-IsRanked n ns d r)

same_identity_refl : (n : ResourceRef) → same_identity n n ≡ true
same_identity_refl n = ground (arith, eq_refl n.kind, eq_refl n.name, eq_refl n.namespace)

-- A node is present behind AddNode.
add_node-is_present : (n : ResourceRef) (g : Graph) → is_present (add_node n g) n ≡ true
unfolding add_node is_present
add_node-is_present n g = ground (
  arith,
  same_identity_refl n,
  eq_refl n.uid,
  any-append_last (λ e. same_identity e n) g.nodes n,
  any-append_last (λ u. u == n.uid) g.visited n.uid,
)

-- AddNode loses no node.
add_node-keeps :
    (n m : ResourceRef) (g : Graph) → is_present g m ≡ true → is_present (add_node n g) m ≡ true
unfolding add_node is_present
add_node-keeps n m g h = ground (
  arith,
  any-append_last (λ e. same_identity e m) g.nodes n,
  any-append_last (λ u. u == m.uid) g.visited n.uid,
)

keeps-All :
    (n : ResourceRef) (g : Graph) (es : List Edge)
    → All (Joins g) es
    → All (Joins (add_node n g)) es
keeps-All n g [] h = tt
keeps-All n g (e ∷ es) ((p, q), h) =
    ((add_node-keeps n e.from g p, add_node-keeps n e.to g q), keeps-All n g es h)

add_node-root : (n : ResourceRef) (g : Graph) → (add_node n g).root ≡ g.root
unfolding add_node
add_node-root n g = ground arith

add_node-edges : (n : ResourceRef) (g : Graph) → (add_node n g).edges ≡ g.edges
unfolding add_node
add_node-edges n g = ground arith

add_node-visited :
    (n : ResourceRef) (g : Graph)
    → g.visited ≡ uids g.nodes
    → (add_node n g).visited ≡ uids (add_node n g).nodes
unfolding add_node
add_node-visited n g h = ground (arith, uids-append g.nodes n)

absent-All :
    (n : ResourceRef) (g : Graph)
    → g.visited ≡ uids g.nodes
    → is_present g n ≡ false
    → All (λ e. Differs e n) g.nodes
unfolding is_present
absent-All n g v h = elim (Bool-cases (n.uid == "")) [
  | inl e ↦ unnamed-All n g.nodes e (ground arith)
  | inr e ↦ unvisited-All n g.nodes e (ground arith)
]

add_node-IsRanked :
    (n : ResourceRef) (g : Graph)
    → g.visited ≡ uids g.nodes
    → IsRanked Differs g.nodes
    → IsRanked Differs (add_node n g).nodes
unfolding add_node
add_node-IsRanked n g v h = elim (Bool-cases (is_present g n)) [
  | inl e ↦ rw e h
  | inr e ↦ rw e (append-IsRanked n g.nodes (absent-All n g v e) h)
]

add_node-HasReason : (n : ResourceRef) (g : Graph) → HasReason g → HasReason (add_node n g)
unfolding add_node
add_node-HasReason n g h = elim (Bool-cases (is_present g n)) [ inl e ↦ rw e h | inr e ↦ rw e h ]

add_node-Joins :
    (n : ResourceRef) (g : Graph)
    → All (Joins g) g.edges
    → All (Joins (add_node n g)) (add_node n g).edges
unfolding add_node
add_node-Joins n g j = rw (add_node-edges n g) (keeps-All n g g.edges j)

add_node-IsWellFormed :
    (root n : ResourceRef) (g : Graph) → IsWellFormed root g → IsWellFormed root (add_node n g)
add_node-IsWellFormed root n g (r, p, v, d, j, t) = (
  add_node-root n g ∙ r,
  add_node-keeps n root g p,
  add_node-visited n g v,
  add_node-IsRanked n g v d,
  add_node-Joins n g j,
  add_node-HasReason n g t,
)

add_edge-IsWellFormed :
    (root : ResourceRef) (t : RelType) (a b : ResourceRef) (g : Graph)
    → IsWellFormed root g
    → IsWellFormed root (add_edge t a b g)
unfolding add_edge is_present
add_edge-IsWellFormed root t a b g w =
    let h = add_node a g in
    let (r, p, v, d, j, s) = add_node-IsWellFormed root b h (add_node-IsWellFormed root a g w) in
    (
      r,
      p,
      v,
      d,
      All-append (Joins (add_node b h)) (add_node b h).edges _ j
          ((add_node-keeps b a h (add_node-is_present a g), add_node-is_present b h), tt),
      s,
    )

-- the reason that is kept
later_reason :
    (reason : String) (g : Graph)
    → (reason ≡ "max_depth") ⊎ (reason ≡ "max_nodes")
    → HasReason g
    → ((truncate reason g).truncation_reason ≡ "max_depth")
      ⊎ ((truncate reason g).truncation_reason ≡ "max_nodes")
unfolding truncate
later_reason reason g c (inl (f, e)) = rw e c
later_reason reason g c (inr (f, inl e)) = rw e (inl refl)
later_reason reason g c (inr (f, inr e)) = rw e (inr refl)

truncate-IsWellFormed :
    (root : ResourceRef) (reason : String) (g : Graph)
    → (reason ≡ "max_depth") ⊎ (reason ≡ "max_nodes")
    → IsWellFormed root g
    → IsWellFormed root (truncate reason g)
unfolding truncate is_present
truncate-IsWellFormed root reason g c (r, p, v, d, j, t) =
    (r, p, v, d, j, inr (refl, later_reason reason g c t))

new-IsWellFormed : (root : ResourceRef) → IsWellFormed root (new root)
unfolding new add_node is_present uids
new-IsWellFormed root = elim (Bool-cases (root.uid == "")) [
  | inl e ↦
      rw e (
        refl,
        ground (arith, same_identity_refl root),
        ground arith,
        (tt, tt),
        tt,
        inl (refl, refl),
      )
  | inr e ↦
      rw e (refl, ground (arith, eq_refl root.uid), ground arith, (tt, tt), tt, inl (refl, refl))
]

pub Built-IsWellFormed : (root : ResourceRef) (g : Graph) → Built root g → IsWellFormed root g
Built-IsWellFormed root g fresh = new-IsWellFormed root
Built-IsWellFormed root g (linked t a b h k) =
    add_edge-IsWellFormed root t a b h (Built-IsWellFormed root h k)
Built-IsWellFormed root g (deep h k) =
    truncate-IsWellFormed root "max_depth" h (inl refl) (Built-IsWellFormed root h k)
Built-IsWellFormed root g (wide h k) =
    truncate-IsWellFormed root "max_nodes" h (inr refl) (Built-IsWellFormed root h k)
