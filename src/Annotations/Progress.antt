-- ===== src/Annotations/Progress.antt =====
-- src/tajweed/tajweed.service.ts (progress): where each student of a course stands.
use livetich_api.Prelude.{
  ℕ, if◌then◌else◌, Text, Bool, true, false, Option, none, some, List, [], ◌∷◌, map, filter, length,
  same_option,
}
use livetich_api.Prelude.Dict.{Dict}
use livetich_api.Prelude.Results.{Result, ok, ◌>>=◌, ◌>>◌}
use livetich_api.Identity.{JwtPayload}
use livetich_api.Annotations.{
  TajweedOutcome, correct, repeat, tajweed_issue, pronunciation, note, AnnotationRow, Counts,
  tally_by_rule,
}
use livetich_api.Annotations.Store.{Store, CourseRows, assert_enrolled}
use livetich_api.Annotations.Reads.{can_manage, of_student, tallied, corrections_of}

abbrev pub same_outcome : TajweedOutcome → Option TajweedOutcome → Bool
same_outcome o none = false
same_outcome correct (some p) = elim p [ correct ↦ true | _ ↦ false ]
same_outcome repeat (some p) = elim p [ repeat ↦ true | _ ↦ false ]
same_outcome tajweed_issue (some p) = elim p [ tajweed_issue ↦ true | _ ↦ false ]
same_outcome pronunciation (some p) = elim p [ pronunciation ↦ true | _ ↦ false ]
same_outcome note (some p) = elim p [ note ↦ true | _ ↦ false ]

-- The counts of `byOutcome`; an outcome that is not there counts nothing.
abbrev pub by_outcome : List AnnotationRow → TajweedOutcome → ℕ
by_outcome rows o = length (filter (λ r. same_outcome o r.content.outcome) rows)

pub record Standing : Type 0 where
  pub student : Text
  pub total : ℕ
  pub last_at : Option ℕ
  pub by_rule : Dict Counts
  pub outcomes : TajweedOutcome → ℕ

abbrev last_of : List AnnotationRow → Option ℕ
last_of [] = none
last_of (r ∷ rs) = some r.created_at

abbrev pub standing : Text → List AnnotationRow → Standing
standing student theirs = record {
  student = student;
  total = length theirs;
  last_at = last_of theirs;
  by_rule = tally_by_rule (map tallied theirs);
  outcomes = by_outcome theirs;
}

abbrev only : Text → List Text → List Text
only id ids = filter (λ s. same_option (some s) (some id)) ids

-- The students stand in the order of their names. A student's rows are all of theirs, newest first.
unfoldable pub progress : JwtPayload → Text → CourseRows → Store → Result (List Standing)
progress user course_id course s = do
  staff ← can_manage user course
  if staff then ok tt else assert_enrolled course user.sub
  ok (
      map (λ id. standing id (corrections_of course_id (some (of_student id)) s))
        (if staff then course.students else only user.sub course.students))
