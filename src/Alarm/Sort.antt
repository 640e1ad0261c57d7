-- ===== src/Alarm/Sort.antt =====
-- `sortRules`: insertion sort by rule ID, and that it orders the rules and loses none.
use mathlib.Core.List.{Perm}
use metalwatch.Base.{List}
use metalwatch.Base.Sort.{sort_by, IsSortedBy, sort_by-perm, sort_by-IsSortedBy}
use metalwatch.Alarm.Rule.{AlarmRule}

unfoldable pub sort_rules : List AlarmRule → List AlarmRule
sort_rules rs = sort_by (λ r. r.id) rs

-- `process` sees every rule it was given, as often as it was given.
pub sort_rules-perm : (rs : List AlarmRule) → Perm (sort_rules rs) rs
unfolding sort_rules
sort_rules-perm rs = sort_by-perm (λ r. r.id) rs

-- Each rule of a list stands before those of no smaller ID.
abbrev pub IsSorted : List AlarmRule → Type 0
IsSorted = IsSortedBy (λ r. r.id)

-- The rules are handled in the order of their IDs, each as often as it was given.
pub sort_rules-IsSorted : (rs : List AlarmRule) → IsSorted (sort_rules rs) × Perm (sort_rules rs) rs
unfolding sort_rules
sort_rules-IsSorted rs = sort_by-IsSortedBy (λ r. r.id) rs
