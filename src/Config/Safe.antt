-- ===== src/Config/Safe.antt =====
-- internal/config/config.go: what the loaded configuration lets the actions do.
use kube_sre_mcp.Prelude.{
  ℕ, ◌≤◌, ◌^◌, ◌-◌, ◌≡◌, refl, ◌↔◌, true, false, some, arith, Bool-cases, inl, inr, ◌==◌, ltb,
  if◌then◌else◌,
}
use kube_sre_mcp.Prelude.Int.{ℤ, pos, negsuc, is_negative, ℤ_lt}
use kube_sre_mcp.Config.{Environment, max_int32, env_bool, env_int, env_int32, load}

unfoldable clamp : ℤ → ℤ
clamp n = if is_negative n then pos 100 else if ℤ_lt max_int32 n then max_int32 else n

clamp-bound : (n : ℤ) → (k : ℕ) × (clamp n ≡ pos k) × (k ≤ 2 ^ 31 - 1)
unfolding clamp
clamp-bound (negsuc n) = (100, refl, omega arith)
clamp-bound (pos n) = elim (Bool-cases (ltb (2 ^ 31 - 1) n)) [
  | inl e ↦ rw e (2 ^ 31 - 1, refl, omega arith)
  | inr e ↦ rw e (n, refl, ground arith)
]

-- The maximum of replicas that is loaded is never negative and fits an int32, and actions are enabled
-- exactly if their variable is set to a text that ParseBool reads as true.
pub load_safe :
    (e : Environment)
    → ((k : ℕ) × ((load e).max_replicas ≡ pos k) × (k ≤ 2 ^ 31 - 1))
      × (((load e).actions_enabled ≡ true) ↔ (
          (e.getenv "KUBE_SRE_MCP_ACTIONS_ENABLED" == "" ≡ false)
          × (e.parse_bool (e.getenv "KUBE_SRE_MCP_ACTIONS_ENABLED") ≡ some true)))
unfolding load env_int32 env_bool clamp
load_safe e = (
  clamp-bound (env_int e "KUBE_SRE_MCP_MAX_REPLICAS" (pos 100)),
  (λ h. ground arith, λ h. ground arith),
)
