-- ===== src/Health/Report/Verdict.antt =====
-- internal/health/cluster.go: when the cluster is healthy.
use kube_sre_mcp.Prelude.{
  ℕ, ◌≤◌, ◌≡◌, refl, ◌↔◌, String, Bool, true, false, ◌&&◌, Option, none, some, List, [], ◌∷◌, arith,
  eqb, sym, ap, ◌∙◌, all,
}
use kube_sre_mcp.Prelude.Int.{ℤ}
use kube_sre_mcp.Model.{Health}
use kube_sre_mcp.Health.{health_eq, combine}
use kube_sre_mcp.Health.Verdicts.{badness, worst, combine-worst}
use kube_sre_mcp.Health.Report.{
  Item, Counts, Inventory, part_health, was_listed, visit, visit_all, scan,
}
use kube_sre_mcp.Health.Report.Cluster.{Lists, cluster, problem_limit, items_of, add_counts}

abbrev pub is_healthy : Item → Bool
is_healthy i = health_eq i.health Health.healthy

-- a list that was answered, with healthy objects only
abbrev pub all_healthy : Option (List Item) → Bool
all_healthy none = false
all_healthy (some is) = all is_healthy is

-- a count says that all are healthy exactly if they are
abbrev CountsAll : Counts → Bool → Type 0
CountsAll c b = (c.healthy ≤ c.total) × ((c.healthy ≡ c.total) ↔ (b ≡ true))

module _ (limit : ℕ) (listed : Bool) (kind : String) (priority : Health → ℕ) where
  visit-CountsAll :
      (i : Item) (inv : Inventory) (b : Bool)
      → CountsAll inv.counts b
      → CountsAll (visit limit listed kind priority i inv).counts (b && is_healthy i)
  unfolding visit
  visit-CountsAll i inv b h = (ground arith, (λ e. ground arith, λ e. ground arith))

  visit_all-CountsAll :
      (is : List Item) (inv : Inventory) (b : Bool)
      → CountsAll inv.counts b
      → CountsAll (visit_all limit listed kind priority is inv).counts (b && all is_healthy is)
  unfolding visit_all
  visit_all-CountsAll [] inv b h = (h.0, (λ e. ground arith, λ e. ground arith))
  visit_all-CountsAll (i ∷ is) inv b h =
      let k =
        visit_all-CountsAll is (visit limit listed kind priority i inv) (b && is_healthy i)
          (visit-CountsAll i inv b h) in
      (k.0, (λ e. ground (arith, k.1), λ e. ground (arith, k.1)))

  scan-CountsAll :
      (is : List Item) (inv : Inventory)
      → CountsAll (scan limit listed kind priority (some is) inv).counts (all is_healthy is)
  unfolding scan
  scan-CountsAll is inv = visit_all-CountsAll is _ true (omega arith, (λ e. refl, λ e. refl))

-- `b` tells whether the list was answered and all that it counts is healthy
abbrev IsVerdict : Counts → Bool → Bool → Type 0
IsVerdict c ok b = (c.healthy ≤ c.total) × (ok && eqb c.healthy c.total ≡ b)

-- one list: its counts, and whether it was answered
scan-IsVerdict :
    (limit : ℕ) (listed : Bool) (kind : String) (priority : Health → ℕ) (is : Option (List Item))
    (inv : Inventory)
    → IsVerdict (scan limit listed kind priority is inv).counts (was_listed is) (all_healthy is)
scan-IsVerdict limit listed kind priority none inv = unfold scan in (omega arith, refl)
scan-IsVerdict limit listed kind priority (some is) inv =
    let k = scan-CountsAll limit listed kind priority is inv in (k.0, ground (arith, k))

part_health-verdict :
    (c : Counts) (ok : Bool)
    → c.healthy ≤ c.total
    → (part_health c ok ≡ Health.healthy) ↔ (ok && eqb c.healthy c.total ≡ true)
unfolding part_health
part_health-verdict c ok h = (λ e. ground arith, λ e. ground arith)

combine-healthy : (hs : List Health) → (combine hs ≡ Health.healthy) ↔ (worst hs ≡ 0)
combine-healthy hs =
    (λ e. sym (combine-worst hs) ∙ ap badness e, λ e. harmless (combine hs) (combine-worst hs ∙ e))
  where
    harmless : (h : Health) → badness h ≡ 0 → h ≡ Health.healthy
    harmless Health.healthy e = refl
    harmless Health.unknown e = ground arith
    harmless Health.degraded e = ground arith
    harmless Health.critical e = ground arith

harmless_iff : (h : Health) → (badness h ≡ 0) ↔ (h ≡ Health.healthy)
harmless_iff Health.healthy = (λ e. refl, λ e. refl)
harmless_iff Health.unknown = (λ e. ground arith, λ e. cc)
harmless_iff Health.degraded = (λ e. ground arith, λ e. cc)
harmless_iff Health.critical = (λ e. ground arith, λ e. cc)

worst_of_four :
    (a b c d : Health)
    → (combine (a ∷ b ∷ c ∷ d ∷ []) ≡ Health.healthy) ↔ (
        (a ≡ Health.healthy)
        × ((b ≡ Health.healthy) × ((c ≡ Health.healthy) × (d ≡ Health.healthy))))
worst_of_four a b c d = (
  λ e. ground (
    arith,
    zero.0 ((combine-healthy _).0 e),
    harmless_iff a,
    harmless_iff b,
    harmless_iff c,
    harmless_iff d,
  ),
  λ e.
      (combine-healthy _).1
        (zero.1 (ground (arith, harmless_iff a, harmless_iff b, harmless_iff c, harmless_iff d))),
)
  where
    zero :
        (worst (a ∷ b ∷ c ∷ d ∷ []) ≡ 0)
        ↔ ((badness a ≡ 0) × ((badness b ≡ 0) × ((badness c ≡ 0) × (badness d ≡ 0))))
    zero = unfold worst in (λ e. ground arith, λ e. ground arith)

four_parts :
    (n p w c : Counts) (ln lp lw lc bn bp bw bc : Bool)
    → IsVerdict n ln bn
    → IsVerdict p lp bp
    → IsVerdict w lw bw
    → IsVerdict c lc bc
    → (combine (part_health n ln ∷ part_health p lp ∷ part_health w lw ∷ part_health c lc ∷ [])
        ≡ Health.healthy)
      ↔ (bn && bp && bw && bc ≡ true)
four_parts n p w c ln lp lw lc bn bp bw bc hn hp hw hc =
    let four =
      worst_of_four (part_health n ln) (part_health p lp) (part_health w lw) (part_health c lc) in
    let vn = part_health-verdict n ln hn.0 in
    let vp = part_health-verdict p lp hp.0 in
    let vw = part_health-verdict w lw hw.0 in
    let vc = part_health-verdict c lc hc.0 in
    (
      λ e. ground (arith, four.0 e, vn, vp, vw, vc, hn, hp, hw, hc),
      λ e. four.1 (ground (arith, vn, vp, vw, vc, hn, hp, hw, hc)),
    )

workloads-IsVerdict :
    (d s ds j : Counts) (ld ls lds lj bd bs bds bj : Bool)
    → IsVerdict d ld bd
    → IsVerdict s ls bs
    → IsVerdict ds lds bds
    → IsVerdict j lj bj
    → IsVerdict
        (add_counts (add_counts (add_counts d s) ds) j)
        (ld && ls && lds && lj)
        (bd && bs && bds && bj)
workloads-IsVerdict d s ds j ld ls lds lj bd bs bds bj hd hs hds hj =
    (omega (arith, hd.0, hs.0, hds.0, hj.0), ground arith)

-- The cluster is healthy exactly if the API answered all seven requests and every listed object is
-- healthy.
pub cluster_healthy_iff :
    (max_problems : ℤ) (include_healthy : Bool) (lists : Lists)
    → let i = items_of lists in
      ((cluster max_problems include_healthy lists).0 ≡ Health.healthy) ↔ (
        all_healthy i.nodes
          && all_healthy i.pods
          && all_healthy i.deployments
          && all_healthy i.stateful_sets
          && all_healthy i.daemon_sets
          && all_healthy i.jobs
          && all_healthy i.claims
        ≡ true)
unfolding cluster
cluster_healthy_iff m h l =
    let k = problem_limit m in
    let i = items_of l in
    let parts =
      four_parts _ _ _ _ _ _ _ _ _ _ _ _ (scan-IsVerdict k h _ _ i.nodes _)
        (scan-IsVerdict k h _ _ i.pods _)
        (workloads-IsVerdict _ _ _ _ _ _ _ _ _ _ _ _ (scan-IsVerdict k h _ _ i.deployments _)
          (scan-IsVerdict k false _ _ i.stateful_sets _)
          (scan-IsVerdict k false _ _ i.daemon_sets _) (scan-IsVerdict k false _ _ i.jobs _))
        (scan-IsVerdict k false _ _ i.claims _) in
    (λ e. ground (arith, parts.0 e), λ e. parts.1 (ground arith))
