-- ===== src/Annotations/Methods.antt =====
-- src/tajweed/tajweed.service.ts: the methods of the service. Each is run on one store; where a method
-- reads first and writes in a transaction later, the two halves are functions of their own.
use livetich_api.Prelude.{
  ℕ, ◌==◌, Text, same_option, Bool, false, not, ◌&&◌, ◌||◌, Option, none, some, List, [], is_some,
}
use livetich_api.Prelude.Dict
use livetich_api.Prelude.Dict.{Dict, values}
use livetich_api.Prelude.Results.{
  Result, ok, err, ◌>>=◌, ◌>>◌, demand, or_throw, bad_request, forbidden, not_found, conflict,
}
use livetich_api.Identity.{JwtPayload}
use livetich_api.Courses.{assert_can_manage_course}
use livetich_api.Marks.{
  PartRef, NormalizedPart, refused, accepted, max_parts, validate_parts, first_ayah_of,
}
use livetich_api.Room.Stage.{Style}
use livetich_api.Annotations.{
  Mode, lesson, student_correction, is_lesson, TajweedOutcome, ContentInput, content_of, truthy,
  or_else, AnnotationRow, announce,
}
use livetich_api.Annotations.Store.{
  Store, CourseRows, assert_enrolled, resolve_section, notify_session, find, replay, Saved,
  insert_or_replay, UpdateData, commit_update,
}

pub record CreateDto : Type 0 where
  pub id : Text
  pub mode : Mode
  pub section_id : Option Text
  pub session_id : Option Text
  pub student_id : Option Text
  pub hifz_entry_id : Option Text
  pub parts : List PartRef
  pub kept : Option Bool
  pub content : ContentInput

-- An absent field is `none`, a null is `some none`.
pub record UpdateDto : Type 0 where
  pub version : ℕ
  pub session_id : Option Text
  pub parts : Option (List PartRef)
  pub kept : Option Bool
  pub rule : Option (Option Text)
  pub custom_label : Option (Option Text)
  pub style : Option Style
  pub color : Option (Option Text)
  pub note : Option (Option Text)
  pub outcome : Option (Option TajweedOutcome)

-- `keep`
abbrev pub keep {ℓ} : {A : Type ℓ} → Option A → A → A
keep none stored = stored
keep (some next) stored = next

unfoldable pub check_student : CourseRows → CreateDto → Result (Unit {0})
check_student course dto = elim dto.mode [
  | lesson ↦
      demand (not (is_some (truthy dto.student_id) || is_some (truthy dto.hifz_entry_id)))
        bad_request
  | student_correction ↦ elim (truthy dto.student_id) [
    | none ↦ err bad_request
    | some student ↦ assert_enrolled course student
  ]
]

-- The recitation that a correction names must be its student's.
unfoldable pub check_entry : CourseRows → CreateDto → Result (Unit {0})
check_entry course dto = elim (truthy dto.hifz_entry_id) [
  | none ↦ ok tt
  | some id ↦ elim (Dict.get id course.hifz_entries) [
    | none ↦ err not_found
    | some student ↦ demand (same_option (some student) dto.student_id) not_found
  ]
]

module _ (get_surah_ayahs : ℕ → Option (List Text)) (graphemes : Text → List Text) where
  -- `checkParts`, with what `firstAyahOf` then makes of the parts; a list that was checked has one.
  unfoldable pub check_parts : List PartRef → Result (List NormalizedPart × (ℕ × ℕ))
  check_parts refs = elim (validate_parts get_surah_ayahs graphemes (some refs) max_parts) [
    | refused e ↦ err bad_request
    | accepted parts ↦ elim (first_ayah_of parts) [
      | none ↦ err bad_request
      | some at ↦ ok (parts, at)
    ]
  ]

  -- `create` from the course's workspace up to its transaction.
  unfoldable pub prepare_create :
      JwtPayload → Text → CourseRows → CreateDto → ℕ → Result AnnotationRow
  prepare_create user course_id course dto now = do
    access ← or_throw course.access forbidden
    organization_id ← or_throw (truthy access.organization_id) forbidden
    checked ← check_parts dto.parts
    content ← content_of dto.content dto.mode
    check_student course dto
    section ← resolve_section course dto.section_id dto.session_id
    check_entry course dto
    ok (record {
      id = dto.id;
      organization_id = organization_id;
      course_id = course_id;
      section_id = section;
      session_id = dto.session_id;
      mode = dto.mode;
      student_id = dto.student_id;
      hifz_entry_id = dto.hifz_entry_id;
      kept = is_lesson dto.mode && or_else dto.kept false;
      surah_number = checked.1.0;
      ayah_number = checked.1.1;
      parts = checked.0;
      content = content;
      version = 1;
      created_by_id = user.sub;
      updated_by_id = user.sub;
      created_at = now;
    })

  unfoldable pub create : JwtPayload → Text → CourseRows → CreateDto → ℕ → Store → Result Saved
  create user course_id course dto now s = elim (Dict.get dto.id s.rows) [
    | some existing ↦ do
      assert_can_manage_course user course.access
      found ← replay existing user course_id
      ok (record { row = found; store = s; emitted = [] })
    | none ↦ do
      assert_can_manage_course user course.access
      row ← prepare_create user course_id course dto now
      insert_or_replay user course_id row s
  ]

  -- `dto.parts ? checkParts(dto.parts) : null`
  unfoldable pub new_parts : Option (List PartRef) → Result (Option (List NormalizedPart × (ℕ × ℕ)))
  new_parts none = ok none
  new_parts (some refs) = do checked ← check_parts refs; ok (some checked)

  abbrev pub edited : UpdateDto → AnnotationRow → ContentInput
  edited dto row = record {
    rule = keep dto.rule row.content.rule;
    custom_label = keep dto.custom_label row.content.custom_label;
    style = some (or_else dto.style row.content.style);
    color = keep dto.color row.content.color;
    note = keep dto.note row.content.note;
    outcome = keep dto.outcome row.content.outcome;
  }

  -- `update` on the row that it read, up to its transaction; with it, whom to notify.
  unfoldable pub prepare_update :
      JwtPayload → Text → CourseRows → AnnotationRow → UpdateDto → Result (UpdateData × Option Text)
  prepare_update user course_id course row dto = do
    demand (dto.version == row.version) conflict
    notify ← notify_session course dto.session_id row
    parts ← new_parts dto.parts
    content ← content_of (edited dto row) row.mode
    ok (
      record {
        id = row.id;
        course_id = course_id;
        version = dto.version;
        parts = parts;
        content = content;
        kept = is_lesson row.mode && keep dto.kept row.kept;
        updated_by_id = user.sub;
      },
      notify,
    )

  unfoldable pub update : JwtPayload → Text → CourseRows → Text → UpdateDto → Store → Result Saved
  update user course_id course id dto s = do
    assert_can_manage_course user course.access
    row ← find course_id id s
    prepared ← prepare_update user course_id course row dto
    saved ← commit_update prepared.0 s
    ok (record { row = saved.0; store = saved.1; emitted = announce saved.0 prepared.1 })
