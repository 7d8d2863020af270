-- ===== src/Examples/Happenings.antt =====
-- internal/events: two events of one object and one of another.
use kube_sre_mcp.Prelude.{String, List, [], ◌∷◌, ◌≡◌}
use kube_sre_mcp.Prelude.Int.{ℤ, pos}
use kube_sre_mcp.Prelude.Sort.{IsRanked}
use kube_sre_mcp.Events.Service.{Record, aggregate}
use kube_sre_mcp.Events.Aggregated.{DifferentRecord, occurrences, aggregate_keeps}

abbrev seen : String → ℤ → Record
seen object count = record {
  type = "Warning";
  reason = "BackOff";
  message = "restarting failed container";
  count = count;
  first_time = 10;
  last_time = 20;
  involved_object = object;
  namespace = "shop";
  category = "Container";
  severity = "warning";
  explanation = "";
  remediation = "";
}

abbrev records : List Record
records = seen "Pod/web-1" (pos 3) ∷ seen "Pod/web-2" (pos 1) ∷ seen "Pod/web-1" (pos 4) ∷ []

aggregate_keeps_example :
    IsRanked DifferentRecord (aggregate records)
    × (occurrences (aggregate records) ≡ occurrences records)
aggregate_keeps_example = aggregate_keeps records
