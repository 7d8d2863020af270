-- ===== src/Events/Aggregated.antt =====
-- internal/events/service.go: what Aggregate keeps.
use kube_sre_mcp.Prelude.{
  ℕ, ◌+◌, ◌%◌, ◌^◌, ◌≡◌, refl, true, false, List, [], ◌∷◌, ◌++◌, arith, Bool-cases, inl, inr, All,
  All-append,
}
use kube_sre_mcp.Prelude.Int32.{residue, residue-add_int32}
use kube_sre_mcp.Prelude.Sort.{IsRanked}
use kube_sre_mcp.Events.Service.{
  Record, same_record, is_seen, merge_into, aggregate_step, aggregate_from, aggregate,
}

-- the occurrences of all records, as the bits of an int32
unfoldable pub occurrences : List Record → ℕ
occurrences [] = 0
occurrences (r ∷ rs) = (residue r.count + occurrences rs) % 2 ^ 32

-- two records of different objects, reasons or messages
abbrev pub DifferentRecord : Record → Record → Type 0
DifferentRecord a b = same_record a b ≡ false

occurrences-append :
    (xs : List Record) (r : Record)
    → occurrences (xs ++ r ∷ []) ≡ (occurrences xs + residue r.count) % 2 ^ 32
unfolding occurrences
occurrences-append [] r = omega arith
occurrences-append (x ∷ xs) r = unfold occurrences in omega (arith, occurrences-append xs r)

merge_into-occurrences :
    (r : Record) (os : List Record)
    → is_seen r os ≡ true
    → occurrences (merge_into r os) ≡ (occurrences os + residue r.count) % 2 ^ 32
unfolding is_seen merge_into occurrences
merge_into-occurrences r [] h = cc
merge_into-occurrences r (o ∷ os) h = elim (Bool-cases (same_record o r)) [
  | inl e ↦ rw e (omega (arith, residue-add_int32 o.count r.count))
  | inr e ↦ rw e (omega (arith, merge_into-occurrences r os (ground arith)))
]

merge_into-All :
    (a r : Record) (os : List Record)
    → All (DifferentRecord a) os
    → All (DifferentRecord a) (merge_into r os)
unfolding merge_into same_record
merge_into-All a r [] h = tt
merge_into-All a r (o ∷ os) (p, h) = elim (Bool-cases (same_record o r)) [
  | inl e ↦ rw e (p, h)
  | inr e ↦ rw e (p, merge_into-All a r os h)
]

merge_into-IsRanked :
    (r : Record) (os : List Record)
    → IsRanked DifferentRecord os
    → IsRanked DifferentRecord (merge_into r os)
unfolding merge_into same_record
merge_into-IsRanked r [] v = tt
merge_into-IsRanked r (o ∷ os) (h, v) = elim (Bool-cases (same_record o r)) [
  | inl e ↦ rw e (h, v)
  | inr e ↦ rw e (merge_into-All o r os h, merge_into-IsRanked r os v)
]

append-IsRanked :
    (r : Record) (os : List Record)
    → is_seen r os ≡ false
    → IsRanked DifferentRecord os
    → IsRanked DifferentRecord (os ++ r ∷ [])
unfolding is_seen
append-IsRanked r [] n v = (tt, tt)
append-IsRanked r (o ∷ os) n (h, v) = (
  All-append (DifferentRecord o) os (r ∷ []) h (ground arith, tt),
  append-IsRanked r os (ground arith) v,
)

from-kept :
    (os rs : List Record)
    → IsRanked DifferentRecord os
    → IsRanked DifferentRecord (aggregate_from os rs)
      × (occurrences (aggregate_from os rs) % 2 ^ 32 ≡ (occurrences os + occurrences rs) % 2 ^ 32)
unfolding aggregate_from aggregate_step occurrences
from-kept os [] v = (v, omega arith)
from-kept os (r ∷ rs) v = elim (Bool-cases (is_seen r os)) [
  | inl e ↦ rw e (
      let k = from-kept (merge_into r os) rs (merge_into-IsRanked r os v) in
      (k.0, omega (arith, k.1, merge_into-occurrences r os e)))
  | inr e ↦ rw e (
      let k = from-kept (os ++ r ∷ []) rs (append-IsRanked r os e v) in
      (k.0, omega (arith, k.1, occurrences-append os r)))
]

occurrences_small : (rs : List Record) → occurrences rs % 2 ^ 32 ≡ occurrences rs
unfolding occurrences
occurrences_small [] = refl
occurrences_small (r ∷ rs) = omega arith

-- Aggregate leaves no two records of the same object, reason and message, and keeps the number of
-- occurrences, as far as the 32 bits of a count hold it.
pub aggregate_keeps :
    (rs : List Record)
    → IsRanked DifferentRecord (aggregate rs) × (occurrences (aggregate rs) ≡ occurrences rs)
unfolding aggregate occurrences
aggregate_keeps rs =
    let k = from-kept [] rs tt in
    (k.0, omega (arith, k.1, occurrences_small rs, occurrences_small (aggregate_from [] rs)))
