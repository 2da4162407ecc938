-- ===== src/Annotations/Privacy.antt =====
-- src/tajweed/tajweed.service.ts (list, studentCorrections): whose corrections are shown to whom.
use livetich_api.Prelude.{
  ◌≡◌, ◌↔◌, ◌⊎◌, inl, inr, refl, sym, Text, same_iff, same_option, Bool, true, false, Option, none,
  some, List, [], ◌∷◌, ◌++◌, All, filter, arith, Bool-cases,
}
use livetich_api.Prelude.Dict.{values}
use livetich_api.Prelude.Results.{Result-cases, ok}
use livetich_api.Identity.{JwtPayload}
use livetich_api.Annotations.{AnnotationRow, Mode, lesson, student_correction, is_lesson}
use livetich_api.Annotations.Store.{Store, CourseRows}
use livetich_api.Annotations.Reads.{
  can_manage, newest_first, is_correction, of_student, corrections_of, lesson_marks, who_for,
  ListQuery, Listed, list, insert_row, by_place, comes_before, is_lesson_row, lesson_scope, Scope,
}

-- A correction of this student in this course.
abbrev pub IsOwn : Text → Text → AnnotationRow → Type 0
IsOwn course_id student row =
    (row.student_id ≡ some student) × (row.mode ≡ student_correction) × (row.course_id ≡ course_id)

abbrev pub IsLessonOf : Text → AnnotationRow → Type 0
IsLessonOf course_id row = (row.mode ≡ lesson) × (row.course_id ≡ course_id)

All-snoc {κ} :
    (P : AnnotationRow → Type κ) (xs : List AnnotationRow) (x : AnnotationRow)
    → All P xs
    → P x
    → All P (xs ++ x ∷ [])
All-snoc P [] x a p = (p, tt)
All-snoc P (y ∷ ys) x (q, a) p = (q, All-snoc P ys x a p)

All-newest_first {κ} :
    (P : AnnotationRow → Type κ) (xs : List AnnotationRow) → All P xs → All P (newest_first xs)
unfolding newest_first
All-newest_first P [] a = tt
All-newest_first P (x ∷ xs) (p, a) = All-snoc P (newest_first xs) x (All-newest_first P xs a) p

All-insert_row {κ} :
    (P : AnnotationRow → Type κ) (x : AnnotationRow) (xs : List AnnotationRow)
    → P x
    → All P xs
    → All P (insert_row x xs)
unfolding insert_row
All-insert_row P x [] p a = (p, tt)
All-insert_row P x (y ∷ ys) p (q, a) = elim (Bool-cases (comes_before y x)) [
  | inl e ↦ rw e (q, All-insert_row P x ys p a)
  | inr e ↦ rw e (p, (q, a))
]

All-by_place {κ} :
    (P : AnnotationRow → Type κ) (xs : List AnnotationRow) → All P xs → All P (by_place xs)
unfolding by_place
All-by_place P [] a = tt
All-by_place P (x ∷ xs) (p, a) = All-insert_row P x (by_place xs) p (All-by_place P xs a)

mode_lem :
    (m : Mode)
    → ((is_lesson m ≡ true) × (m ≡ lesson)) ⊎ ((is_lesson m ≡ false) × (m ≡ student_correction))
mode_lem lesson = inl (refl, refl)
mode_lem student_correction = inr (refl, refl)

some_iff : (o : Option Text) (id : Text) → (same_option o (some id) ≡ true) ↔ (o ≡ some id)
some_iff none id = ground arith
some_iff (some a) id = ground (arith, same_iff a id)

own_lem :
    (course_id student : Text) (row : AnnotationRow)
    → is_correction course_id (of_student student) row ≡ true
    → IsOwn course_id student row
own_lem course_id student row h =
    ground
      (arith, mode_lem row.mode, some_iff row.student_id student, same_iff row.course_id course_id)

lesson_lem :
    (course_id : Text) (scope : Option (List Scope)) (row : AnnotationRow)
    → is_lesson_row course_id scope row ≡ true
    → IsLessonOf course_id row
lesson_lem course_id none row h =
    ground (arith, mode_lem row.mode, same_iff row.course_id course_id)
lesson_lem course_id (some scope) row h =
    ground (arith, mode_lem row.mode, same_iff row.course_id course_id)

All-filter {κ} :
    (P : AnnotationRow → Type κ) (test : AnnotationRow → Bool)
    → ((row : AnnotationRow) → test row ≡ true → P row)
    → (xs : List AnnotationRow) → All P (filter test xs)
All-filter P test h [] = tt
All-filter P test h (x ∷ xs) = elim (Bool-cases (test x)) [
  | inl e ↦ rw e (h x e, All-filter P test h xs)
  | inr e ↦ rw e (All-filter P test h xs)
]

corrections_lem :
    (course_id student : Text) (s : Store)
    → All (IsOwn course_id student) (corrections_of course_id (some (of_student student)) s)
corrections_lem course_id student s =
    All-newest_first (IsOwn course_id student)
      (filter (is_correction course_id (of_student student)) (values s.rows))
      (All-filter (IsOwn course_id student) (is_correction course_id (of_student student))
        (own_lem course_id student) (values s.rows))

marks_lem :
    (course_id : Text) (course : CourseRows) (q : ListQuery) (s : Store)
    (marks : List AnnotationRow)
    → lesson_marks course_id course q s ≡ ok marks
    → All (IsLessonOf course_id) marks
unfolding lesson_marks
marks_lem course_id course q s marks h =
    elim (Result-cases (lesson_scope course q.section_id q.session_id)) [
      | inl (e, a) ↦ absurd (ground (arith, a, h))
      | inr (scope, a) ↦
          let at : by_place (filter (is_lesson_row course_id scope) (values s.rows)) ≡ marks =
            ground (arith, a, h) in
          let rows = filter (is_lesson_row course_id scope) (values s.rows) in
          rw (sym at) (
            All-by_place (IsLessonOf course_id) rows (
              All-filter (IsLessonOf course_id) (is_lesson_row course_id scope)
                (lesson_lem course_id scope) (values s.rows)))
    ]

-- Who may not manage the course is shown marks of its lessons and, of the corrections, only their own
-- in this course, and none where their token is a recorder's.
pub list-IsOwn :
    (user : JwtPayload) (recorder : Option Text) (course_id : Text) (course : CourseRows)
    (q : ListQuery) (s : Store) (listed : Listed)
    → can_manage user course ≡ ok false
    → list user recorder course_id course q s ≡ ok listed
    → All (IsLessonOf course_id) listed.lesson
      × All (IsOwn course_id user.sub) listed.corrections
      × ((recorder ≡ none) ⊎ (listed.corrections ≡ []))
unfolding list who_for
list-IsOwn user (some filmed) course_id course q s listed staff h =
    elim (Result-cases (lesson_marks course_id course q s)) [
      | inl (e, a) ↦ absurd (ground (arith, a, h))
      | inr (marks, a) ↦
          let shown : listed.lesson ≡ marks = ground (arith, a, h) in
          let nothing : listed.corrections ≡ [] = ground (arith, a, h) in
          (rw shown (marks_lem course_id course q s marks a), rw nothing tt, inr nothing)
    ]
list-IsOwn user none course_id course q s listed staff h =
    elim (Result-cases (lesson_marks course_id course q s)) [
      | inl (e, a) ↦ absurd (ground (arith, a, staff, h))
      | inr (marks, a) ↦
          let shown : listed.lesson ≡ marks = ground (arith, a, staff, h) in
          let own : listed.corrections ≡ corrections_of course_id (some (of_student user.sub)) s =
            ground (arith, a, staff, h) in
          (
            rw shown (marks_lem course_id course q s marks a),
            rw own (corrections_lem course_id user.sub s),
            inl refl,
          )
    ]
