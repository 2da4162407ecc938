-- ===== src/Annotations/Tallies.antt =====
-- src/tajweed/tajweed.service.ts (tallyByRule): the loop against a count of the rows.
use livetich_api.Prelude.{
  ℕ, ◌+◌, ◌≡◌, Bool-cases, inl, inr, ◌∙◌, if◌then◌else◌, Text, same, same_iff, Bool, true, false,
  ◌&&◌, ◌||◌, Option, none, some, List, [], ◌∷◌, any, filter, length, arith,
}
use livetich_api.Prelude.Dict
use livetich_api.Prelude.Dict.{Dict, get-set}
use livetich_api.Annotations.{
  TajweedOutcome, Counts, is_issue, is_correct, or_else, counted, no_counts, tally_row, tally_from,
  tally_by_rule,
}

abbrev Tallied : Type 0
Tallied = Option Text × Option TajweedOutcome

abbrev pub is_of : Text → Tallied → Bool
is_of r (none, outcome) = false
is_of r (some [], outcome) = false
is_of r (some (a ∷ s), outcome) = same (a ∷ s) r

-- The rows of a rule that are issues, and those that are correct.
abbrev pub issues_of : Text → List Tallied → ℕ
issues_of r rows = length (filter (λ x. is_of r x && is_issue x.1) rows)

abbrev pub correct_of : Text → List Tallied → ℕ
correct_of r rows = length (filter (λ x. is_of r x && is_correct x.1) rows)

abbrev plus : Option Counts → ℕ → ℕ → Bool → Option Counts
plus none i c found = if found then some (record { issues = i; correct = c }) else none
plus (some t) i c found = some (record { issues = t.issues + i; correct = t.correct + c })

-- One row's part in the sum, for whatever the rest gives.
counted_lem :
    (outcome : Option TajweedOutcome) (o : Option Counts) (i c : ℕ) (found : Bool)
    → plus (some (counted outcome (or_else o no_counts))) i c found
      ≡ plus o
          ((if is_issue outcome then 1 else 0) + i)
          ((if is_correct outcome then 1 else 0) + c)
          true
counted_lem outcome none i c found = ground arith
counted_lem outcome (some t) i c found = ground arith

row_lem :
    (k r : Text) (outcome : Option TajweedOutcome) (m : Dict Counts) (i c : ℕ) (found : Bool)
    → plus
        (Dict.get r (Dict.set k (counted outcome (or_else (Dict.get k m) no_counts)) m))
        i
        c
        found
      ≡ plus
          (Dict.get r m)
          ((if same k r && is_issue outcome then 1 else 0) + i)
          ((if same k r && is_correct outcome then 1 else 0) + c)
          (same k r || found)
row_lem k r outcome m i c found = elim (Bool-cases (same k r)) [
  | inl e ↦
      let same_key : k ≡ r = ground (arith, e, same_iff k r) in
      rw (get-set k r (counted outcome (or_else (Dict.get k m) no_counts)) m, e, same_key)
        (counted_lem outcome (Dict.get r m) i c found)
  | inr e ↦
      rw (get-set k r (counted outcome (or_else (Dict.get k m) no_counts)) m, e) (ground arith)
]

tally_from_lem :
    (r : Text) (rows : List Tallied) (m : Dict Counts)
    → Dict.get r (tally_from rows m)
      ≡ plus (Dict.get r m) (issues_of r rows) (correct_of r rows) (any (is_of r) rows)
unfolding tally_from tally_row
tally_from_lem r [] m = ground arith
tally_from_lem r ((none, outcome) ∷ rows) m = ground (arith, tally_from_lem r rows m)
tally_from_lem r ((some [], outcome) ∷ rows) m = ground (arith, tally_from_lem r rows m)
tally_from_lem r ((some (a ∷ s), outcome) ∷ rows) m =
    tally_from_lem r rows (tally_row (some (a ∷ s), outcome) m)
    ∙ ground (
      arith,
      row_lem (a ∷ s) r outcome m (issues_of r rows) (correct_of r rows) (any (is_of r) rows),
    )

-- The tally has a row for a rule exactly when some mark has that rule, and it then counts the marks of
-- the rule whose outcome is an issue and those whose outcome is correct.
pub tally_by_rule_lem :
    (r : Text) (rows : List (Option Text × Option TajweedOutcome))
    → Dict.get r (tally_by_rule rows) ≡ (
        if any (is_of r) rows
        then some (record { issues = issues_of r rows; correct = correct_of r rows })
        else none)
unfolding tally_by_rule Dict.get
tally_by_rule_lem r rows = tally_from_lem r rows []
