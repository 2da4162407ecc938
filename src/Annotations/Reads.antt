-- ===== src/Annotations/Reads.antt =====
-- src/tajweed/tajweed.service.ts: what is shown of the stored marks, and to whom.
use livetich_api.Prelude.{
  ltb, ◌==◌, if◌then◌else◌, Text, same, same_option, Bool, true, false, not, ◌&&◌, ◌||◌, Option,
  none, some, List, [], ◌∷◌, ◌++◌, map, filter, is_some,
}
use livetich_api.Prelude.Dict.{Dict, values}
use livetich_api.Prelude.Results.{
  Result, ok, err, ◌>>=◌, ◌>>◌, demand, bad_request, unauthorized, forbidden, not_found, conflict,
}
use livetich_api.Identity.{JwtPayload, is_student}
use livetich_api.Courses.{assert_can_manage_course}
use livetich_api.Annotations.{
  is_lesson, TajweedOutcome, truthy, AnnotationRow, Revision, Counts, tally_by_rule,
}
use livetich_api.Annotations.Store.{Store, CourseRows, assert_enrolled, resolve_section}

abbrev is_allowed : Result (Unit {0}) → Bool
is_allowed (ok u) = true
is_allowed (err e) = false

-- Whether a refusal is a `ForbiddenException`, which `canManage` turns into `false`.
abbrev refusal : Result (Unit {0}) → Result Bool
refusal (ok u) = ok true
refusal (err forbidden) = ok false
refusal (err bad_request) = err bad_request
refusal (err unauthorized) = err unauthorized
refusal (err not_found) = err not_found
refusal (err conflict) = err conflict

unfoldable pub can_manage : JwtPayload → CourseRows → Result Bool
can_manage user course =
    if is_student user.role then ok false else refusal (assert_can_manage_course user course.access)

-- The where-clauses of `lessonScope`: a section, or a session for rows without a section.
pub data Scope : Type 0 where
  in_section in_session : Text → Scope

abbrev pub in_scope : AnnotationRow → Scope → Bool
in_scope row (in_section id) = same_option row.section_id (some id)
in_scope row (in_session id) = same_option row.session_id (some id) && not (is_some row.section_id)

abbrev scopes : Option Text → Option Text → List Scope
scopes none none = []
scopes none (some session) = in_session session ∷ []
scopes (some section) none = in_section section ∷ []
scopes (some section) (some session) = in_section section ∷ in_session session ∷ []

-- `none` is the whole course.
unfoldable pub lesson_scope : CourseRows → Option Text → Option Text → Result (Option (List Scope))
lesson_scope course section session = do
  resolved ← resolve_section course section session
  if not (is_some (truthy resolved)) && not (is_some (truthy session))
      then ok none
      else ok (some (scopes (truthy resolved) (truthy session)))

abbrev pub any_scope : AnnotationRow → List Scope → Bool
any_scope row [] = false
any_scope row (c ∷ cs) = in_scope row c || any_scope row cs

abbrev pub is_lesson_row : Text → Option (List Scope) → AnnotationRow → Bool
is_lesson_row course_id none row = same row.course_id course_id && is_lesson row.mode
is_lesson_row course_id (some scope) row =
    same row.course_id course_id && (is_lesson row.mode && (any_scope row scope || row.kept))

-- `orderBy` surah, ayah and the time of creation.
abbrev pub comes_before : AnnotationRow → AnnotationRow → Bool
comes_before a b =
    ltb a.surah_number b.surah_number
    || (a.surah_number == b.surah_number && ltb a.ayah_number b.ayah_number)

unfoldable pub insert_row : AnnotationRow → List AnnotationRow → List AnnotationRow
insert_row r [] = r ∷ []
insert_row r (q ∷ qs) =
    let rest = insert_row r qs in if comes_before q r then q ∷ rest else r ∷ q ∷ qs

unfoldable pub by_place : List AnnotationRow → List AnnotationRow
by_place [] = []
by_place (r ∷ rs) = insert_row r (by_place rs)

-- `orderBy: { createdAt: 'desc' }`
unfoldable pub newest_first : List AnnotationRow → List AnnotationRow
newest_first [] = []
newest_first (r ∷ rs) = newest_first rs ++ r ∷ []

-- Whose corrections `list` reads.
pub data Who : Type 0 where
  of_student of_session : Text → Who

abbrev pub is_theirs : Who → AnnotationRow → Bool
is_theirs (of_student id) row = same_option row.student_id (some id)
is_theirs (of_session id) row = same_option row.session_id (some id)

abbrev pub is_correction : Text → Who → AnnotationRow → Bool
is_correction course_id who row =
    same row.course_id course_id && (not (is_lesson row.mode) && is_theirs who row)

pub record ListQuery : Type 0 where
  pub section_id : Option Text
  pub session_id : Option Text
  pub student_id : Option Text

pub record Listed : Type 0 where
  pub lesson : List AnnotationRow
  pub corrections : List AnnotationRow

-- The student that staff ask for must be enrolled.
unfoldable pub who_for : JwtPayload → CourseRows → Bool → ListQuery → Result (Option Who)
who_for user course false q = ok (some (of_student user.sub))
who_for user course true q = elim (truthy q.student_id) [
  | some student ↦ do assert_enrolled course student; ok (some (of_student student))
  | none ↦ elim (truthy q.session_id) [
    | none ↦ ok none
    | some session ↦ ok (some (of_session session))
  ]
]

abbrev pub corrections_of : Text → Option Who → Store → List AnnotationRow
corrections_of course_id none s = []
corrections_of course_id (some who) s =
    newest_first (filter (is_correction course_id who) (values s.rows))

unfoldable pub lesson_marks : Text → CourseRows → ListQuery → Store → Result (List AnnotationRow)
lesson_marks course_id course q s = do
  scope ← lesson_scope course q.section_id q.session_id
  ok (by_place (filter (is_lesson_row course_id scope) (values s.rows)))

-- `recorder` is the session that a recorder's token films, if the token is one.
unfoldable pub list :
    JwtPayload → Option Text → Text → CourseRows → ListQuery → Store → Result Listed
list user (some filmed) course_id course q s = do
  demand (same_option (some filmed) q.session_id) forbidden
  marks ← lesson_marks course_id course q s
  ok (record { lesson = marks; corrections = [] })
list user none course_id course q s = do
  staff ← can_manage user course
  if staff then ok tt else assert_enrolled course user.sub
  marks ← lesson_marks course_id course q s
  who ← who_for user course staff q
  ok (record { lesson = marks; corrections = corrections_of course_id who s })

abbrev pub tallied : AnnotationRow → Option Text × Option TajweedOutcome
tallied row = (row.content.rule, row.content.outcome)

unfoldable pub student_corrections :
    JwtPayload → Text → CourseRows → Text → Store → Result (List AnnotationRow × Dict Counts)
student_corrections user course_id course student s =
    let rows = corrections_of course_id (some (of_student student)) s in
    do
      staff ← can_manage user course
      demand (staff || same student user.sub) forbidden
      assert_enrolled course student
      ok (rows, tally_by_rule (map tallied rows))

-- Newest first in the store, oldest first in the answer.
unfoldable pub oldest_first : List Revision → List Revision
oldest_first [] = []
oldest_first (r ∷ rs) = oldest_first rs ++ r ∷ []

abbrev pub is_revision_of : Text → Text → Revision → Bool
is_revision_of course_id id r = same r.annotation_id id && same r.snapshot.course_id course_id

abbrev non_empty : List Revision → Result (List Revision)
non_empty [] = err not_found
non_empty (r ∷ rs) = ok (r ∷ rs)

-- The names of the people are left out.
unfoldable pub history : JwtPayload → Text → CourseRows → Text → Store → Result (List Revision)
history user course_id course id s = do
  assert_can_manage_course user course.access
  non_empty (oldest_first (filter (is_revision_of course_id id) s.revisions))
