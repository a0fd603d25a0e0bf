-- ===== src/Report/Numbers.antt =====
-- scanner.go: what Counts counts.
use fmon.Base.{ℕ, ◌+◌, ◌≡◌, Bool, true, false, List, [], ◌∷◌, arith, if◌then◌else◌, length}
use fmon.Models.{EventType, event_added, event_modified, event_deleted, Change}
use fmon.Report.{Report, counts, report_counts}

abbrev event_eq : EventType → EventType → Bool
event_eq event_added event_added = true
event_eq event_modified event_modified = true
event_eq event_deleted event_deleted = true
event_eq e x = false

-- How many changes of the list have the event.
abbrev pub number_of : EventType → List Change → ℕ
number_of e [] = 0
number_of e (c ∷ cs) = if event_eq e c.event then number_of e cs + 1 else number_of e cs

module _ (cs : List Change) where
  abbrev Numbers : ℕ × ℕ × ℕ → ℕ × ℕ × ℕ → Type 0
  Numbers n n' =
      (n'.0 ≡ n.0 + number_of event_added cs)
      × (n'.1 ≡ n.1 + number_of event_modified cs)
      × (n'.2 ≡ n.2 + number_of event_deleted cs)

counts-Numbers : (cs : List Change) (a m d : ℕ) → Numbers cs (a, m, d) (counts cs (a, m, d))
unfolding counts
counts-Numbers [] a m d = (omega arith, omega arith, omega arith)
counts-Numbers (c ∷ cs) a m d = ground (
  arith,
  counts-Numbers cs (a + 1) m d,
  counts-Numbers cs a (m + 1) d,
  counts-Numbers cs a m (d + 1),
)

sum_of_numbers :
    (cs : List Change)
    → number_of event_added cs + number_of event_modified cs + number_of event_deleted cs
      ≡ length cs
sum_of_numbers [] = omega arith
sum_of_numbers (c ∷ cs) = ground (arith, sum_of_numbers cs)

-- Counts gives the number of the changes that are additions, of those that are modifications, and of
-- those that are deletions, in this order, and the three add up to the number of all changes.
pub report_counts_lem :
    (r : Report)
    → ((report_counts r).0 ≡ number_of event_added r.changes)
      × ((report_counts r).1 ≡ number_of event_modified r.changes)
      × ((report_counts r).2 ≡ number_of event_deleted r.changes)
      × (number_of event_added r.changes
            + number_of event_modified r.changes
            + number_of event_deleted r.changes
          ≡ length r.changes)
unfolding report_counts
report_counts_lem r =
    let (added, modified, deleted) = counts-Numbers r.changes 0 0 0 in
    (
      omega (arith, added),
      omega (arith, modified),
      omega (arith, deleted),
      sum_of_numbers r.changes,
    )
