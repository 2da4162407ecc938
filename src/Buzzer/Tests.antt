-- ===== src/Buzzer/Tests.antt =====
-- Buzzer rounds over a store that holds its two keys in memory, and the theorems at concrete inputs.
use livetich_api.Prelude.{
  ◌≤◌, ◌≡◌, refl, Text, codes, same, Bool, Option, none, some, List, [], ◌∷◌, arith, any,
}
use livetich_api.Identity.{student}
use livetich_api.Buzzer.{
  RoomStore, RoomUser, QuizQuestionPublic, Answer, Shared, QuestionRow, BuzzerState, question_open,
  run, award_for, record_answer, winner_state,
}
use livetich_api.Buzzer.Opening.{BankQuestion}
use livetich_api.Buzzer.OneAttempt.{awarded, awarded_once}
use livetich_api.Buzzer.Races.{begin, CanWin, two_winners}

abbrev Keys : Type 0
Keys = Option BuzzerState × List Text

abbrev is_in : Text → Keys → Bool
is_in u s = any (λ v. same v u) s.1

abbrev in_memory : RoomStore
in_memory = record {
  Store = Keys;
  get_buzzer_state = λ s. s.0;
  set_buzzer_state = λ b s. (some b, s.1);
  is_answered = is_in;
  add_answered = λ u s. (s.0, u ∷ s.1);
  clear_buzzer_answered = λ s. (s.0, []);
  get-set = λ b s. refl;
  get-add = λ u s. refl;
  get-clear = λ s. refl;
  answered-set = λ v b s. refl;
  answered-add = λ v u s. refl;
  answered-clear = λ v s. refl;
}

abbrev amina : RoomUser
amina = record { user_id = codes "amina"; name = codes "Amina"; role = student }

abbrev bilal : RoomUser
bilal = record { user_id = codes "bilal"; name = codes "Bilal"; role = student }

abbrev asked : QuizQuestionPublic
asked = record {
  question_id = codes "q1";
  body = codes "2 + 2";
  options = codes "3" ∷ codes "4" ∷ [];
  time_limit_sec = 20;
  points = 10;
  opened_at = 0;
}

abbrev round : BuzzerState
round = record {
  phase = question_open;
  eligible_user_ids = codes "amina" ∷ codes "bilal" ∷ [];
  question = some asked;
  winner = none;
}

abbrev stored : QuestionRow
stored = record { options = 2; correct_index = 1; points = some 10; course_id = some (codes "c1") }

abbrev answer_of : RoomUser → Answer
answer_of u = record { user = u; question_id = codes "q1"; answer_index = 1; row = some stored }

abbrev start : Shared in_memory
start = record { store = (some round, []); answers = []; ledger = [] }

amina_can : CanWin in_memory (answer_of amina) stored round start
unfolding same
amina_can = (refl, refl, refl, refl, refl)

bilal_can : CanWin in_memory (answer_of bilal) stored round start
unfolding same
bilal_can = (refl, refl, refl, refl, refl)

two_winners_example :
    (run in_memory
      (0 ∷ 0 ∷ 0 ∷ 0 ∷ 1 ∷ 1 ∷ 1 ∷ 1 ∷ 0 ∷ 0 ∷ 1 ∷ 1 ∷ [])
      (begin (answer_of amina) ∷ begin (answer_of bilal) ∷ [])
      start).1.ledger
    ≡ award_for (answer_of bilal) stored (award_for (answer_of amina) stored [])
two_winners_example =
    two_winners in_memory (answer_of amina) (answer_of bilal) stored stored round start (codes "c1")
      (codes "c1") refl refl refl (λ e. ground arith) amina_can bilal_can

awarded_once_example :
    awarded
      (codes "amina")
      (run in_memory
        (0 ∷ 1 ∷ 0 ∷ 1 ∷ 0 ∷ 1 ∷ 0 ∷ 0 ∷ 0 ∷ [])
        (begin (answer_of amina) ∷ begin (answer_of amina) ∷ [])
        start).1.ledger
    ≤ 1
awarded_once_example =
    awarded_once in_memory (codes "amina") (0 ∷ 1 ∷ 0 ∷ 1 ∷ 0 ∷ 1 ∷ 0 ∷ 0 ∷ 0 ∷ [])
      (begin (answer_of amina) ∷ begin (answer_of amina) ∷ []) start (refl, (refl, tt)) refl

abbrev closed : Shared in_memory
closed = record {
  store = (some (winner_state (answer_of amina) round), codes "amina" ∷ []);
  answers = record_answer (answer_of amina) (some stored) [];
  ledger = award_for (answer_of amina) stored [];
}

abbrev banked : BankQuestion
banked = record {
  shown = asked;
  quiz_session_id = none;
  quiz_course_id = some (codes "c1");
  section_course_id = none;
}

abbrev quiet : Keys
quiet = (none, codes "amina" ∷ [])

-- Amina had answered the round before; she may answer the new one.
