-- ===== src/Correlation/Dedup.antt =====
-- internal/correlation/engine.go: equal events become one signal, with their counts added.
use kube_sre_mcp.Prelude.{Bool, true, false, not, ◌&&◌, List, [], ◌∷◌, ◌++◌, ◌==◌, if◌then◌else◌}
use kube_sre_mcp.Prelude.Int.{pos, ℤ_eq, ℤ_max}
use kube_sre_mcp.Prelude.Int64.{add_int64}
use kube_sre_mcp.Model.{ref_string}
use kube_sre_mcp.Signal.{DiagnosticSignal, event, source_eq}

abbrev pub is_event : DiagnosticSignal → Bool
is_event s = source_eq s.source event

-- the keys of two events are equal
unfoldable pub same_key : DiagnosticSignal → DiagnosticSignal → Bool
same_key a b =
    a.reason == b.reason && a.message == b.message && ref_string a.resource == ref_string b.resource

-- `order[i].Count += max(s.Count, 1)` at the event with the same key
unfoldable pub add_count : DiagnosticSignal → List DiagnosticSignal → List DiagnosticSignal
unfolding same_key
add_count s [] = []
add_count s (o ∷ os) =
    let rest = add_count s os in
    if is_event o && same_key o s
    then record o { count = add_int64 o.count (ℤ_max s.count (pos 1)) } ∷ os
    else o ∷ rest

-- whether the key is in `index`
unfoldable pub has_key : DiagnosticSignal → List DiagnosticSignal → Bool
unfolding same_key
has_key s [] = false
has_key s (o ∷ os) = let rest = has_key s os in if is_event o && same_key o s then true else rest

abbrev pub at_least_one : DiagnosticSignal → DiagnosticSignal
at_least_one s = if ℤ_eq s.count (pos 0) then record s { count = pos 1 } else s

-- one round of the loop
unfoldable pub dedup_step : List DiagnosticSignal → DiagnosticSignal → List DiagnosticSignal
dedup_step order s =
    if not (is_event s)
    then order ++ s ∷ []
    else if has_key s order
    then add_count s order
    else order ++ at_least_one s ∷ []

unfoldable pub dedup_from : List DiagnosticSignal → List DiagnosticSignal → List DiagnosticSignal
dedup_from order [] = order
dedup_from order (s ∷ ss) = dedup_from (dedup_step order s) ss

-- dedupEvents
unfoldable pub dedup_events : List DiagnosticSignal → List DiagnosticSignal
unfolding dedup_from
dedup_events ss = dedup_from [] ss
