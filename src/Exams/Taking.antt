-- ===== src/Exams/Taking.antt =====
-- src/exams/exams.service.ts: one attempt for each student, and exams that do not change under them.
use livetich_api.Prelude.{
  ℕ, suc, ◌+◌, ◌<◌, ◌≡◌, ◌↔◌, refl, ltb, length, Text, same_iff, Bool, true, Option, none, some,
  List, [], ◌∷◌, All, arith,
}
use livetich_api.Prelude.Results.{ok}
use livetich_api.Identity.{JwtPayload}
use livetich_api.Courses.{CourseAccess}
use livetich_api.Exams.{
  Attempt, ExamRow, Started, Submitted, Doubles, QuestionDto, QuestionRow, NewExam, ExamUpdate,
  check_questions, question_rows, create_exam, update_exam, start_attempt, score_answers, submit,
  deadline_of,
}

-- A submission is taken exactly for an attempt that exists, is the user's own, and has not been
-- submitted before.
pub submit_iff :
    (d : Doubles) (user : JwtPayload) (found : Option (Attempt × ExamRow))
    (answers : List (Text × ℕ)) (now : ℕ) (r : Submitted)
    → (submit d user found answers now ≡ ok r) ↔ (
        (row : Attempt × ExamRow) × (found ≡ some row)
        × ((row.0).student_id ≡ user.sub)
        × ((row.0).submitted_at ≡ none)
        × (r ≡ score_answers d row.0 row.1 answers now))
unfolding submit
submit_iff d user none answers now r = ((λ h. ground arith), (λ w. ground (arith, w.1)))
submit_iff d user (some row) answers now r = (
  (λ h. (
    row,
    refl,
    ground (arith, same_iff (row.0).student_id user.sub),
    ground arith,
    ground arith,
  )),
  (λ w. ground (arith, w.1, w.2, w.3, w.4, same_iff (row.0).student_id user.sub)),
)

deadline-start_attempt :
    (user : JwtPayload) (exam : ExamRow) (course : Option CourseAccess) (enrolled : Bool)
    (open_one : Option Attempt) (sat : Bool) (fresh : Attempt) (st : Started)
    → start_attempt user (some exam) course enrolled open_one sat fresh ≡ ok st
    → st.deadline ≡ deadline_of st.attempt exam
unfolding start_attempt
deadline-start_attempt user exam course enrolled none sat fresh st e = ground arith
deadline-start_attempt user exam course enrolled (some a) sat fresh st e = ground arith

expired-score_answers :
    (d : Doubles) (attempt : Attempt) (exam : ExamRow) (answers : List (Text × ℕ)) (now : ℕ)
    → (score_answers d attempt exam answers now).expired
      ≡ ltb (deadline_of attempt exam + 60000) now
unfolding score_answers
expired-score_answers d attempt exam answers now = refl

-- The clock of an attempt runs from its first start: a submission is expired exactly when it comes
-- more than a minute after the deadline that the student was shown, resumed or not.
pub submit_deadline :
    (d : Doubles) (user : JwtPayload) (exam : ExamRow) (course : Option CourseAccess)
    (enrolled : Bool) (open_one : Option Attempt) (sat : Bool) (fresh : Attempt) (st : Started)
    (r : Submitted) (answers : List (Text × ℕ)) (now : ℕ)
    → start_attempt user (some exam) course enrolled open_one sat fresh ≡ ok st
    → submit d user (some (st.attempt, exam)) answers now ≡ ok r
    → (r.expired ≡ true) ↔ (st.deadline + 60000 < now)
submit_deadline d user exam course enrolled open_one sat fresh st r answers now e h =
    let (row, same_row, own, unsent, result) =
      (submit_iff d user (some (st.attempt, exam)) answers now r).0 h in
    ground (
      arith,
      same_row,
      result,
      deadline-start_attempt user exam course enrolled open_one sat fresh st e,
      expired-score_answers d row.0 row.1 answers now,
    )

abbrev pub HasKey : QuestionRow → Type 0
HasKey r = r.correct_index < length r.options

question_rows-HasKey :
    (i : ℕ) (qs : List QuestionDto) → check_questions qs ≡ ok tt → All HasKey (question_rows i qs)
unfolding check_questions question_rows
question_rows-HasKey i [] h = tt
question_rows-HasKey i (q ∷ qs) h = (ground arith, question_rows-HasKey (suc i) qs (ground arith))

-- An exam is created only with questions whose right index names one of their options.
pub create_exam-HasKey :
    (user : JwtPayload) (course : Option CourseAccess) (title : Text) (minutes : ℕ)
    (qs : List QuestionDto) (e : NewExam)
    → create_exam user course title minutes qs ≡ ok e
    → All HasKey e.questions
unfolding create_exam
create_exam-HasKey user course title minutes qs e h =
    let checked : check_questions qs ≡ ok tt = ground arith in
    let rows : e.questions ≡ question_rows 0 qs = ground arith in
    rw rows (question_rows-HasKey 0 qs checked)

-- An update that replaces the questions is carried out only for an exam that nobody has attempted,
-- and again only with questions whose right index names one of their options.
pub update_exam_frozen :
    (user : JwtPayload) (course : Option CourseAccess) (found : Option ℕ) (title : Option Text)
    (minutes : Option ℕ) (questions : Option (List QuestionDto)) (u : ExamUpdate)
    (rows : List QuestionRow)
    → update_exam user course found title minutes questions ≡ ok u
    → u.questions ≡ some rows
    → (found ≡ some 0) × All HasKey rows
unfolding update_exam
update_exam_frozen user course found title minutes none u rows h e = ground arith
update_exam_frozen user course found title minutes (some qs) u rows h e =
    let checked : check_questions qs ≡ ok tt = ground arith in
    let same_rows : rows ≡ question_rows 0 qs = ground arith in
    (ground arith, rw same_rows (question_rows-HasKey 0 qs checked))
