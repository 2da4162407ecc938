-- ===== src/Annotations/Links.antt =====
-- src/tajweed/tajweed.service.ts: remove, and linking a session's corrections to a recitation.
use livetich_api.Prelude.{
  ℕ, suc, Text, same, same_option, Bool, not, ◌&&◌, Option, none, some, List, [], ◌∷◌, filter,
  is_some,
}
use livetich_api.Prelude.Dict.{values}
use livetich_api.Prelude.Results.{Result, ok, ◌>>=◌, ◌>>◌, or_throw, not_found}
use livetich_api.Identity.{JwtPayload}
use livetich_api.Courses.{assert_can_manage_course}
use livetich_api.Annotations.{is_lesson, truthy, AnnotationRow, announce}
use livetich_api.Annotations.Store.{
  Store, CourseRows, Saved, notify_session, find, commit_remove, commit_link,
}

-- The message of a deletion carries the id and the mode of the row, and goes where a change of it goes.
-- A row that went between the read and the transaction is a plain error of Prisma's, written `not_found`.
unfoldable pub remove : JwtPayload → Text → CourseRows → Text → Option Text → Store → Result Saved
remove user course_id course id session s = do
  assert_can_manage_course user course.access
  row ← find course_id id s
  notify ← notify_session course session row
  left ← or_throw (commit_remove row user s) not_found
  ok (record { row = row; store = left; emitted = announce row notify })

pub record Recitation : Type 0 where
  pub id : Text
  pub course_id : Text
  pub student_id : Text
  pub session_id : Option Text
  pub recorded_by_id : Text

abbrev pub is_unlinked : Recitation → AnnotationRow → Bool
is_unlinked entry row =
    same row.course_id entry.course_id
    && (same_option row.student_id (some entry.student_id)
        && (same_option row.session_id entry.session_id
            && (not (is_lesson row.mode) && not (is_some row.hifz_entry_id))))

-- The loop: the rows that were read, each in a transaction of its own, and how many were linked.
unfoldable pub link_rows : Recitation → List AnnotationRow → ℕ → Store → ℕ × Store
link_rows entry [] linked s = (linked, s)
link_rows entry (row ∷ rows) linked s =
    elim (commit_link entry.id entry.recorded_by_id row.id row.version s) [
      | none ↦ link_rows entry rows linked s
      | some next ↦ link_rows entry rows (suc linked) next
    ]

unfoldable pub link_corrections_to_recitation : Recitation → Store → ℕ × Store
link_corrections_to_recitation entry s = elim (truthy entry.session_id) [
  | none ↦ (0, s)
  | some id ↦ link_rows entry (filter (is_unlinked entry) (values s.rows)) 0 s
]
