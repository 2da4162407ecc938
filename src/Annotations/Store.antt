-- ===== src/Annotations/Store.antt =====
-- src/tajweed/tajweed.service.ts: create, update, remove, list and the rest over the stored marks. What
-- a method reads of other tables is an argument; what each transaction writes is one function, since
-- only those change the store. Rows are keyed by their id; revisions stand newest first.
use livetich_api.Prelude.{
  ℕ, suc, ◌==◌, if◌then◌else◌, Text, same, Bool, not, ◌&&◌, ◌||◌, Option, none, some, List, [], ◌∷◌,
  any, is_some,
}
use livetich_api.Prelude.Dict
use livetich_api.Prelude.Dict.{Dict}
use livetich_api.Prelude.Results.{Result, ok, err, ◌>>=◌, demand, forbidden, not_found, conflict}
use livetich_api.Identity.{JwtPayload}
use livetich_api.Courses.{CourseAccess}
use livetich_api.Marks.{NormalizedPart}
use livetich_api.Annotations.{
  TajweedChange, created, updated, deleted, Content, truthy, AnnotationRow, Revision, revision,
  Emission, announce,
}

pub record Store : Type 0 where
  pub rows : Dict AnnotationRow
  pub revisions : List Revision

-- What Prisma finds of a course in other tables: whom it belongs to, its students, its live sessions
-- with their sections, its sections, and its recitations with their students.
pub record CourseRows : Type 0 where
  pub access : Option CourseAccess
  pub students : List Text
  pub sessions : Dict (Option Text)
  pub sections : List Text
  pub hifz_entries : List (Text × Text)

abbrev pub is_in : Text → List Text → Bool
is_in id ids = any (same id) ids

unfoldable pub assert_enrolled : CourseRows → Text → Result (Unit {0})
assert_enrolled course student_id = demand (is_in student_id course.students) forbidden

unfoldable pub check_section : CourseRows → Option Text → Result (Option Text)
check_section course section = elim (truthy section) [
  | none ↦ ok section
  | some id ↦ if is_in id course.sections then ok section else err not_found
]

abbrev first_of : Option Text → Option Text → Option Text
first_of none b = b
first_of (some a) b = some a

unfoldable pub resolve_section : CourseRows → Option Text → Option Text → Result (Option Text)
resolve_section course section session = elim (truthy session) [
  | none ↦ check_section course section
  | some id ↦ elim (Dict.get id course.sessions) [
    | none ↦ err not_found
    | some own ↦ check_section course (first_of section own)
  ]
]

unfoldable pub notify_session : CourseRows → Option Text → AnnotationRow → Result (Option Text)
notify_session course session row = elim (truthy session) [
  | none ↦ ok row.session_id
  | some id ↦ if is_some (Dict.get id course.sessions) then ok (some id) else err not_found
]

-- The row of this id, if it is this course's.
unfoldable pub find : Text → Text → Store → Result AnnotationRow
find course_id id s = elim (Dict.get id s.rows) [
  | none ↦ err not_found
  | some row ↦ if same row.course_id course_id then ok row else err not_found
]

unfoldable pub replay : AnnotationRow → JwtPayload → Text → Result AnnotationRow
replay row user course_id =
    if not (same row.course_id course_id) || not (same row.created_by_id user.sub)
    then err conflict
    else ok row

abbrev pub with_revision : AnnotationRow → TajweedChange → Text → Store → Store
with_revision row change by s = record {
  rows = Dict.set row.id row s.rows;
  revisions = revision row change by ∷ s.revisions;
}

-- What a method that saves answers, and the messages that it sends.
pub record Saved : Type 0 where
  pub row : AnnotationRow
  pub store : Store
  pub emitted : List Emission

-- The transaction of `create`, which fails on an id that is taken; the loser then finds the winner.
unfoldable pub insert_or_replay : JwtPayload → Text → AnnotationRow → Store → Result Saved
insert_or_replay user course_id row s = elim (Dict.get row.id s.rows) [
  | none ↦ ok (record {
    row = row;
    store = with_revision row created user.sub s;
    emitted = announce row row.session_id;
  })
  | some raced ↦ do
    found ← replay raced user course_id
    ok (record { row = found; store = s; emitted = [] })
]

-- What an update writes; no parts are given where the stored ones stay.
pub record UpdateData : Type 0 where
  pub id : Text
  pub course_id : Text
  pub version : ℕ
  pub parts : Option (List NormalizedPart × (ℕ × ℕ))
  pub content : Content
  pub kept : Bool
  pub updated_by_id : Text

unfoldable pub written : UpdateData → AnnotationRow → AnnotationRow
written edit row = record {
  id = row.id;
  organization_id = row.organization_id;
  course_id = row.course_id;
  section_id = row.section_id;
  session_id = row.session_id;
  mode = row.mode;
  student_id = row.student_id;
  hifz_entry_id = row.hifz_entry_id;
  kept = edit.kept;
  surah_number = elim edit.parts [ none ↦ row.surah_number | some p ↦ p.1.0 ];
  ayah_number = elim edit.parts [ none ↦ row.ayah_number | some p ↦ p.1.1 ];
  parts = elim edit.parts [ none ↦ row.parts | some p ↦ p.0 ];
  content = edit.content;
  version = suc row.version;
  created_by_id = row.created_by_id;
  updated_by_id = edit.updated_by_id;
  created_at = row.created_at;
}

-- The transaction of `update`: it matches only the version that the edit was made against.
unfoldable pub commit_update : UpdateData → Store → Result (AnnotationRow × Store)
commit_update edit s = elim (Dict.get edit.id s.rows) [
  | none ↦ err conflict
  | some row ↦
      if same row.course_id edit.course_id && row.version == edit.version
      then ok (written edit row, with_revision (written edit row) updated edit.updated_by_id s)
      else err conflict
]

-- The transaction of `remove`, with the row that was read before it. Prisma throws where no row of the
-- id is left, which answers neither of the two exceptions of the service: `none`.
unfoldable pub commit_remove : AnnotationRow → JwtPayload → Store → Option Store
commit_remove row user s =
    if is_some (Dict.get row.id s.rows)
    then some (record {
      rows = Dict.delete row.id s.rows;
      revisions = revision row deleted user.sub ∷ s.revisions;
    })
    else none

unfoldable pub linked_row : Text → Text → AnnotationRow → AnnotationRow
linked_row entry_id by row = record {
  id = row.id;
  organization_id = row.organization_id;
  course_id = row.course_id;
  section_id = row.section_id;
  session_id = row.session_id;
  mode = row.mode;
  student_id = row.student_id;
  hifz_entry_id = some entry_id;
  kept = row.kept;
  surah_number = row.surah_number;
  ayah_number = row.ayah_number;
  parts = row.parts;
  content = row.content;
  version = suc row.version;
  created_by_id = row.created_by_id;
  updated_by_id = by;
  created_at = row.created_at;
}

-- One transaction of `linkCorrectionsToRecitation`: the new store, if a row matched.
unfoldable pub commit_link : Text → Text → Text → ℕ → Store → Option Store
commit_link entry_id by id version s = elim (Dict.get id s.rows) [
  | none ↦ none
  | some row ↦
      if row.version == version && not (is_some row.hifz_entry_id)
      then some (with_revision (linked_row entry_id by row) updated by s)
      else none
]
