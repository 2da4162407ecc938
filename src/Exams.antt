-- ===== src/Exams.antt =====
-- src/exams/exams.service.ts: writing an exam, taking it and scoring it. What Prisma finds is an
-- argument; what a method writes is a value beside its answer. Times are milliseconds.
pub mod Tally
pub mod Scoring
pub mod Taking
mod Tests
use Prim.Native.Nat.{◌^◌}
use livetich_api.Prelude.{
  ℕ, zero, suc, ◌+◌, ◌*◌, ◌/◌, ◌≤◌, ◌<◌, ◌≡◌, ltb, leb, ◌==◌, if◌then◌else◌, Text, same, Bool, true,
  false, not, Option, none, some, List, [], ◌∷◌, length, is_some,
}
use livetich_api.Prelude.Dict
use livetich_api.Prelude.Dict.{Dict}
use livetich_api.Prelude.Results.{
  Result, ok, err, ◌>>=◌, ◌>>◌, demand, or_throw, not_found, forbidden, bad_request, conflict,
}
use livetich_api.Identity.{JwtPayload, is_student}
use livetich_api.Courses.{CourseAccess, assert_can_manage_course}

pub record QuestionDto : Type 0 where
  pub body : Text
  pub options : List Text
  pub correct_index : ℕ
  pub topic : Option Text

pub record QuestionRow : Type 0 where
  pub body : Text
  pub options : List Text
  pub correct_index : ℕ
  pub topic : Option Text
  pub order : ℕ

-- `dto.questions.forEach(…)`: the first question out of range throws.
unfoldable pub check_questions : List QuestionDto → Result (Unit {0})
check_questions [] = ok tt
check_questions (q ∷ qs) =
    if leb (length q.options) q.correct_index then err bad_request else check_questions qs

-- `dto.questions.map((q, i) => …)`
unfoldable pub question_rows : ℕ → List QuestionDto → List QuestionRow
question_rows i [] = []
question_rows i (q ∷ qs) =
    record {
      body = q.body;
      options = q.options;
      correct_index = q.correct_index;
      topic = q.topic;
      order = i;
    }
    ∷ question_rows (suc i) qs

pub record NewExam : Type 0 where
  pub title : Text
  pub duration_minutes : ℕ
  pub created_by_id : Text
  pub questions : List QuestionRow

unfoldable pub create_exam :
    JwtPayload → Option CourseAccess → Text → ℕ → List QuestionDto → Result NewExam
create_exam user course title minutes questions = do
  assert_can_manage_course user course
  check_questions questions
  ok (record {
    title = title;
    duration_minutes = minutes;
    created_by_id = user.sub;
    questions = question_rows 0 questions;
  })

-- The data of `updateExam`: a field that is absent is not written. `questions` replaces the old ones.
pub record ExamUpdate : Type 0 where
  pub title : Option Text
  pub duration_minutes : Option ℕ
  pub questions : Option (List QuestionRow)

-- `attempts` is the count of attempts on the active exam that was found, if any.
unfoldable pub update_exam :
    JwtPayload
    → Option CourseAccess
    → Option ℕ
    → Option Text
    → Option ℕ
    → Option (List QuestionDto)
    → Result ExamUpdate
update_exam user course found title minutes none = do
  assert_can_manage_course user course
  attempts ← or_throw found not_found
  ok (record { title = title; duration_minutes = minutes; questions = none })
update_exam user course found title minutes (some qs) = do
  assert_can_manage_course user course
  attempts ← or_throw found not_found
  demand (not (ltb 0 attempts)) bad_request
  check_questions qs
  ok (record { title = title; duration_minutes = minutes; questions = some (question_rows 0 qs) })

pub record ExamRow : Type 0 where
  pub active : Bool
  pub duration_minutes : ℕ
  -- `id` and `correctIndex`
  pub questions : List (Text × ℕ)

pub record Attempt : Type 0 where
  pub id : Text
  pub student_id : Text
  pub started_at : ℕ
  pub submitted_at : Option ℕ

-- Students must be enrolled; everybody else must manage the course.
unfoldable pub assert_enrolled : JwtPayload → Option CourseAccess → Bool → Result (Unit {0})
assert_enrolled user course enrolled =
    if is_student user.role then demand enrolled forbidden else assert_can_manage_course user course

unfoldable pub deadline_of : Attempt → ExamRow → ℕ
deadline_of attempt exam = attempt.started_at + exam.duration_minutes * 60000

pub record Started : Type 0 where
  pub attempt : Attempt
  pub created : Bool
  pub deadline : ℕ

-- `open` is the newest attempt that is not submitted, `sat` says whether one was, and `fresh` is the
-- row that `examAttempt.create` returns.
unfoldable pub start_attempt :
    JwtPayload
    → Option ExamRow
    → Option CourseAccess
    → Bool
    → Option Attempt
    → Bool
    → Attempt
    → Result Started
unfolding deadline_of
start_attempt user found course enrolled (some attempt) sat fresh = do
  exam ← or_throw found not_found
  demand exam.active not_found
  assert_enrolled user course enrolled
  ok (record { attempt = attempt; created = false; deadline = deadline_of attempt exam })
start_attempt user found course enrolled none sat fresh = do
  exam ← or_throw found not_found
  demand exam.active not_found
  assert_enrolled user course enrolled
  demand (not sat) conflict
  ok (record { attempt = fresh; created = true; deadline = deadline_of fresh exam })

-- `new Map(questions.map(q => [q.id, q.correctIndex]))`
unfoldable pub correct_by_id : List (Text × ℕ) → Dict ℕ → Dict ℕ
correct_by_id [] m = m
correct_by_id ((id, c) ∷ qs) m = correct_by_id qs (Dict.set id c m)

-- The loop over the answers: only real questions, the last answer wins.
unfoldable pub chosen_from : Dict ℕ → List (Text × ℕ) → Dict ℕ → Dict ℕ
chosen_from key [] chosen = chosen
chosen_from key ((id, i) ∷ answers) chosen =
    chosen_from key answers (if is_some (Dict.get id key) then Dict.set id i chosen else chosen)

abbrev pub is_index : Option ℕ → ℕ → Bool
is_index none i = false
is_index (some c) i = c == i

-- The loop that counts.
unfoldable pub count_correct : Dict ℕ → Dict ℕ → ℕ
count_correct key [] = 0
count_correct key ((id, i) ∷ chosen) =
    (if is_index (Dict.get id key) i then 1 else 0) + count_correct key chosen

pub record Submitted : Type 0 where
  pub score : ℕ
  pub correct : ℕ
  pub total : ℕ
  pub answered : ℕ
  pub expired : Bool
  -- The rows that replace the attempt's answers.
  pub stored : Dict ℕ

-- The number of the double `(a / t) * 100`, counted in units of 2 ^ -100, of which every such double is
-- a multiple. Each of the two operations is rounded to 53 bits, so that for fewer than 2 ^ 32 questions
-- the double is within 2 ^ -40 of the true quotient.
pub record Doubles : Type 0 where
  pub scaled : ℕ → ℕ → ℕ
  pub scaled_close :
      (a t : ℕ)
      → a ≤ t
      → 0 < t
      → t < 2 ^ 32
      → (t * scaled a t ≤ 100 * a * 2 ^ 100 + t * 2 ^ 60)
        × (100 * a * 2 ^ 100 ≤ t * scaled a t + t * 2 ^ 60)

-- `Math.round` of such a double: the nearest whole number, halves up.
unfoldable pub math_round : ℕ → ℕ
math_round x = (x + 2 ^ 99) / 2 ^ 100

module _ (d : Doubles) where
  open d use {scaled}

  unfoldable pub score_answers : Attempt → ExamRow → List (Text × ℕ) → ℕ → Submitted
  unfolding deadline_of
  score_answers attempt exam answers now =
      let key = correct_by_id exam.questions [] in
      let chosen = chosen_from key answers [] in
      let expired = ltb (deadline_of attempt exam + 60000) now in
      let total = length exam.questions in
      let correct = count_correct key chosen in
      record {
        score = if expired then 0 else if ltb 0 total then math_round (scaled correct total) else 0;
        correct = if expired then 0 else correct;
        total = total;
        answered = if expired then 0 else length chosen;
        expired = expired;
        stored = if expired then [] else chosen;
      }

  unfoldable pub submit :
      JwtPayload → Option (Attempt × ExamRow) → List (Text × ℕ) → ℕ → Result Submitted
  submit user found answers now = do
    row ← or_throw found not_found
    demand (same (row.0).student_id user.sub) forbidden
    demand (not (is_some (row.0).submitted_at)) bad_request
    ok (score_answers row.0 row.1 answers now)
