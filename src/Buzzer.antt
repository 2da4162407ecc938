-- ===== src/Buzzer.antt =====
-- The buzzer round: src/room-gateway/room.gateway.ts (`quiz:answer` and the timeout) over the keys of
-- src/room-gateway/room-state.service.ts. Redis is a parameter, with what its commands are documented
-- to do. A handler is cut where it awaits: each step below runs without interruption, and between two
-- of them any other handler may run.
pub mod OneAttempt
pub mod Opening
pub mod Races
mod Tests
use livetich_api.Prelude.{
  ℕ, ltb, ◌==◌, if◌then◌else◌, ◌≡◌, Text, same, Bool, true, false, not, ◌&&◌, ◌||◌, Option, none,
  some, List, [], ◌∷◌, length, any,
}
use livetich_api.Identity.{Role}

pub data BuzzerPhase : Type 0 where
  idle collecting question_open winner_ timeout qa : BuzzerPhase

pub record RoomUser : Type 0 where
  pub user_id : Text
  pub name : Text
  pub role : Role

pub record QuizQuestionPublic : Type 0 where
  pub question_id : Text
  pub body : Text
  pub options : List Text
  pub time_limit_sec : ℕ
  pub points : ℕ
  pub opened_at : ℕ

pub record BuzzerState : Type 0 where
  pub phase : BuzzerPhase
  pub eligible_user_ids : List Text
  pub question : Option QuizQuestionPublic
  pub winner : Option RoomUser

-- The keys `buzzer` (GET, SET) and `buzzer-answered` (SADD, DEL) of one session. `is_answered` is
-- membership in the set; SADD answers whether the member is new. No key runs out during a round.
pub record RoomStore : Type 1 where
  pub Store : Type 0
  pub get_buzzer_state : Store → Option BuzzerState
  pub set_buzzer_state : BuzzerState → Store → Store
  pub is_answered : Text → Store → Bool
  pub add_answered : Text → Store → Store
  pub clear_buzzer_answered : Store → Store
  pub get-set : (b : BuzzerState) (s : Store) → get_buzzer_state (set_buzzer_state b s) ≡ some b
  pub get-add : (u : Text) (s : Store) → get_buzzer_state (add_answered u s) ≡ get_buzzer_state s
  pub get-clear : (s : Store) → get_buzzer_state (clear_buzzer_answered s) ≡ get_buzzer_state s
  pub answered-set :
      (v : Text) (b : BuzzerState) (s : Store)
      → is_answered v (set_buzzer_state b s) ≡ is_answered v s
  pub answered-add :
      (v u : Text) (s : Store) → is_answered v (add_answered u s) ≡ (same u v || is_answered v s)
  pub answered-clear : (v : Text) (s : Store) → is_answered v (clear_buzzer_answered s) ≡ false

abbrev pub is_open : BuzzerPhase → Bool
is_open question_open = true
is_open idle = false
is_open collecting = false
is_open winner_ = false
is_open timeout = false
is_open qa = false

abbrev pub is_question : Option QuizQuestionPublic → Text → Bool
is_question none id = false
is_question (some q) id = same q.question_id id

-- `state?.phase === 'QUESTION_OPEN' && state.question?.questionId === questionId`
abbrev pub is_open_for : BuzzerState → Text → Bool
is_open_for b id = is_open b.phase && is_question b.question id

-- What the database holds of the question that is answered: the number of options, the right index,
-- the instructor's stake and the course, if it can be found.
pub record QuestionRow : Type 0 where
  pub options : ℕ
  pub correct_index : ℕ
  pub points : Option ℕ
  pub course_id : Option Text

-- One `quiz:answer` message of a student who is in the room.
pub record Answer : Type 0 where
  pub user : RoomUser
  pub question_id : Text
  pub answer_index : ℕ
  pub row : Option QuestionRow

abbrev points_buzzer_win : ℕ
points_buzzer_win = 25

abbrev pub is_correct : Answer → QuestionRow → Bool
is_correct a row = ltb a.answer_index row.options && a.answer_index == row.correct_index

pub record Award : Type 0 where
  pub student_id : Text
  pub course_id : Text
  pub delta : ℕ
  pub ref_id : Text

pub record QuizAnswer : Type 0 where
  pub question_id : Text
  pub student_id : Text
  pub answer_index : ℕ
  pub is_correct : Bool

-- `quizAnswer.create`, which the unique key of question and student lets fail for a repeat; that
-- failure is ignored.
unfoldable pub record_answer : Answer → Option QuestionRow → List QuizAnswer → List QuizAnswer
record_answer a none answers = answers
record_answer a (some row) answers =
    if any (λ q. same q.question_id a.question_id && same q.student_id a.user.user_id) answers
    then answers
    else record {
      question_id = a.question_id;
      student_id = a.user.user_id;
      answer_index = a.answer_index;
      is_correct = is_correct a row;
    }
      ∷ answers

-- How far the handler of a message, or of the timer, has come.
pub data Progress : Type 0 where
  received opened marked done : Progress
  graded : QuestionRow → Progress
  rechecked : QuestionRow → BuzzerState → Progress
  won : QuestionRow → Progress
  timer_fired : Progress
  timer_read : BuzzerState → Progress

pub record Handler : Type 0 where
  pub answer : Answer
  pub progress : Progress

abbrev pub winner_state : Answer → BuzzerState → BuzzerState
winner_state a b = record b { phase = winner_; winner = some a.user }

abbrev pub timeout_state : BuzzerState → BuzzerState
timeout_state b = record b { phase = timeout; winner = none }

abbrev pub delta_of : Option ℕ → ℕ
delta_of none = points_buzzer_win
delta_of (some n) = n

abbrev pub award_for : Answer → QuestionRow → List Award → List Award
award_for a row ledger = elim row.course_id [
  | none ↦ ledger
  | some c ↦
      record {
        student_id = a.user.user_id;
        course_id = c;
        delta = delta_of row.points;
        ref_id = a.question_id;
      }
      ∷ ledger
]

-- The state is read, and the message refused unless it is for the open question and its sender was
-- there when the round began.
unfoldable pub read_state : Answer → Option BuzzerState → Progress
read_state a none = done
read_state a (some b) =
    if not (is_open_for b a.question_id)
    then done
    else if not (any (λ u. same u a.user.user_id) b.eligible_user_ids)
    then done
    else opened

unfoldable pub grade : Answer → Option QuestionRow → Progress
grade a none = done
grade a (some row) = if is_correct a row then graded row else done

-- `latest?.phase !== 'QUESTION_OPEN'`
unfoldable pub recheck : QuestionRow → Option BuzzerState → Progress
recheck row none = done
recheck row (some b) = if is_open b.phase then rechecked row b else done

unfoldable pub read_timeout : Answer → Option BuzzerState → Progress
read_timeout a none = done
read_timeout a (some b) = if is_open_for b a.question_id then timer_read b else done

module _ (r : RoomStore) where
  open r use {
    Store, get_buzzer_state, set_buzzer_state, is_answered, add_answered, clear_buzzer_answered,
  }

  -- What the handlers share: the store, and of the database the answers and the points ledger, newest
  -- first.
  pub record Shared : Type 0 where
    pub store : Store
    pub answers : List QuizAnswer
    pub ledger : List Award

  -- `markBuzzerAnswered`: true the first time.
  abbrev pub mark_buzzer_answered : Text → Store → Bool × Store
  mark_buzzer_answered u s = (not (is_answered u s), add_answered u s)

  -- One step of one handler.
  unfoldable pub advance : Answer → Progress → Shared → Progress × Shared
  unfolding read_state grade recheck read_timeout
  advance a received w = (read_state a (get_buzzer_state w.store), w)
  advance a opened w =
      let (first, s) = mark_buzzer_answered a.user.user_id w.store in
      (if first then marked else done, record w { store = s })
  advance a marked w = (grade a a.row, record w { answers = record_answer a a.row w.answers })
  advance a (graded row) w = (recheck row (get_buzzer_state w.store), w)
  advance a (rechecked row b) w =
      (won row, record w { store = set_buzzer_state (winner_state a b) w.store })
  advance a (won row) w = (done, record w { ledger = award_for a row w.ledger })
  advance a timer_fired w = (read_timeout a (get_buzzer_state w.store), w)
  advance a (timer_read b) w =
      (done, record w { store = set_buzzer_state (timeout_state b) w.store })
  advance a done w = (done, w)

  -- The handler at place `i` takes a step; a place that is not there changes nothing.
  unfoldable pub step : ℕ → List Handler → Shared → List Handler × Shared
  unfolding advance
  step i [] w = ([], w)
  step ℕ.zero (h ∷ hs) w =
      let (p, w') = advance h.answer h.progress w in (record h { progress = p } ∷ hs, w')
  step (ℕ.suc i) (h ∷ hs) w = let (hs', w') = step i hs w in (h ∷ hs', w')

  -- An interleaving: the places of the handlers that step, in turn.
  unfoldable pub run : List ℕ → List Handler → Shared → List Handler × Shared
  run [] hs w = (hs, w)
  run (i ∷ is) hs w = let (hs', w') = step i hs w in run is hs' w'
