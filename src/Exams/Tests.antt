-- ===== src/Exams/Tests.antt =====
-- Runs of src/exams/exams.service.ts, and the theorems at concrete inputs.
use livetich_api.Prelude.{
  ℕ, ◌==◌, ◌||◌, ◌+◌, ◌*◌, ◌/◌, ◌≤◌, ◌≡◌, refl, ltb, if◌then◌else◌, Text, codes, same, true, false,
  none, some, List, [], ◌∷◌, arith, is_some,
}
use Prim.Native.Nat.{◌^◌}
use native.Mathlib.Nat.{mul-div-le, lt-mul-div-succ}
use livetich_api.Prelude.Dict
use livetich_api.Prelude.Dict.{Unique}
use livetich_api.Prelude.Results.{ok}
use livetich_api.Identity.{JwtPayload, student, instructor}
use livetich_api.Courses.{CourseAccess}
use livetich_api.Exams.{
  Attempt, ExamRow, Started, Submitted, Doubles, QuestionDto, score_answers, submit, correct_by_id,
  chosen_from, count_correct, deadline_of, math_round,
}
use livetich_api.Exams.Tally.{last_answer}
use livetich_api.Exams.Scoring.{right_answers, IsPercent, score_answers_lem}

-- The quotient itself, cut off at 2 ^ -100.
abbrev quotients : Doubles
quotients = record {
  scaled = λ a t. 100 * a * 2 ^ 100 / t;
  scaled_close = λ a t h pos small. (
    omega (arith, mul-div-le (100 * a * 2 ^ 100) t),
    omega (arith, lt-mul-div-succ (100 * a * 2 ^ 100) {b = t} pos),
  );
}

abbrev amina : JwtPayload
amina = record { sub = codes "amina"; role = student; name = codes "Amina"; organization_id = none }

abbrev zayd : JwtPayload
zayd = record { sub = codes "zayd"; role = instructor; name = codes "Zayd"; organization_id = none }

abbrev halaqa : CourseAccess
halaqa = record { instructor_id = some (codes "zayd"); organization_id = none }

abbrev quiz : ExamRow
quiz = record {
  active = true;
  duration_minutes = 10;
  questions = (codes "q1", 2) ∷ (codes "q2", 0) ∷ (codes "q3", 1) ∷ [];
}

abbrev sitting : Attempt
sitting = record {
  id = codes "a1";
  student_id = codes "amina";
  started_at = 1000;
  submitted_at = none;
}

-- A second answer to `q1`, one right answer to `q2`, and one to no question.
abbrev given : List (Text × ℕ)
given = (codes "q1", 2) ∷ (codes "q2", 0) ∷ (codes "zz", 1) ∷ (codes "q1", 3) ∷ []

one_of_three : (score_answers quotients sitting quiz given 5000).score ≡ 33
unfolding score_answers correct_by_id chosen_from count_correct math_round deadline_of Dict.get
    Dict.set same
one_of_three = refl

quiz-Unique : Unique quiz.questions
unfolding Dict.get same
quiz-Unique = (refl, (refl, (refl, tt)))

abbrev resumed : Started
resumed = record { attempt = sitting; created = false; deadline = 601000 }

handed_in : Submitted
unfolding score_answers
handed_in = score_answers quotients sitting quiz given 5000

hands_in : submit quotients amina (some (sitting, quiz)) given 5000 ≡ ok handed_in
unfolding submit handed_in same
hands_in = refl

score_answers_lem_example :
    let r = score_answers quotients sitting quiz given 5000 in
    let late = ltb (deadline_of sitting quiz + 60000) 5000 in
    (r.expired ≡ late)
    × (r.correct ≡ (if late then 0 else right_answers given quiz.questions))
    × (r.score ≡ (if late || 3 == 0 then 0 else r.score))
    × IsPercent r.correct 3 r.score
    × (r.score ≤ 100)
    × (Dict.get (codes "q1") r.stored ≡ (
        if late
        then none
        else if is_some (Dict.get (codes "q1") quiz.questions)
        then last_answer (codes "q1") given
        else none))
score_answers_lem_example =
    score_answers_lem quotients sitting quiz given 5000 (codes "q1") quiz-Unique (omega arith)

abbrev asked : QuestionDto
asked = record {
  body = codes "2 + 2";
  options = codes "3" ∷ codes "4" ∷ [];
  correct_index = 1;
  topic = none;
}
