-- ===== src/Buzzer/Opening.antt =====
-- src/room-gateway/room.gateway.ts: `buzzer:start`, what it makes of the store, and who may then answer.
use livetich_api.Prelude.{
  ◌≡◌, ◌↔◌, refl, ◌∙◌, if◌then◌else◌, Text, same, Bool, true, false, not, ◌&&◌, ◌||◌, Option, none,
  some, List, [], ◌∷◌, arith, any,
}
use livetich_api.Identity.{is_student}
use livetich_api.Buzzer.{
  RoomStore, RoomUser, Answer, BuzzerState, QuizQuestionPublic, question_open, is_open, opened,
  read_state,
}

-- The question that a round is asked to open, with the places its quiz belongs to.
pub record BankQuestion : Type 0 where
  pub shown : QuizQuestionPublic
  pub quiz_session_id : Option Text
  pub quiz_course_id : Option Text
  pub section_course_id : Option Text

abbrev pub same_as : Option Text → Text → Bool
same_as none id = false
same_as (some t) id = same t id

-- `question?.quiz.courseId ?? question?.quiz.section?.courseId ?? null`
abbrev pub course_of : BankQuestion → Option Text
course_of q = elim q.quiz_course_id [ none ↦ q.section_course_id | some c ↦ some c ]

abbrev pub belongs : Text → Text → BankQuestion → Bool
belongs session course q = same_as q.quiz_session_id session || same_as (course_of q) course

-- `listPresence` filtered by `u.role === Role.STUDENT`, and the ids.
unfoldable pub eligible : List RoomUser → List Text
eligible [] = []
eligible (u ∷ us) = let rest = eligible us in if is_student u.role then u.user_id ∷ rest else rest

pub data StartError : Type 0 where
  buzzer_busy no_students bad_question : StartError

abbrev pub is_busy : Option BuzzerState → Bool
is_busy none = false
is_busy (some b) = is_open b.phase

abbrev pub new_round : List Text → QuizQuestionPublic → BuzzerState
new_round ids q = record {
  phase = question_open;
  eligible_user_ids = ids;
  question = some q;
  winner = none;
}

module _ (r : RoomStore) where
  open r use {Store, get_buzzer_state, set_buzzer_state, clear_buzzer_answered}

  -- `buzzer:start` of the session's owner, with those who are present.
  unfoldable pub on_buzzer_start :
      Text → Text → List RoomUser → Option BankQuestion → Store → Option StartError × Store
  on_buzzer_start session course present question s =
      if is_busy (get_buzzer_state s) then (some buzzer_busy, s) else elim (eligible present) [
        | [] ↦ (some no_students, s)
        | u ∷ us ↦ elim question [
          | none ↦ (some bad_question, s)
          | some q ↦
              if not (belongs session course q)
              then (some bad_question, s)
              else (none, set_buzzer_state (new_round (u ∷ us) q.shown) (clear_buzzer_answered s))
        ]
      ]

eligible-any :
    (u : Text) (us : List RoomUser)
    → any (λ v. same v u) (eligible us) ≡ any (λ v. is_student v.role && same v.user_id u) us
unfolding eligible
eligible-any u [] = refl
eligible-any u (v ∷ us) = ground (arith, eligible-any u us)

read_state-new_round :
    (a : Answer) (ids : List Text) (q : QuizQuestionPublic)
    → (read_state a (some (new_round ids q)) ≡ opened)
      ↔ ((same q.question_id a.question_id ≡ true) × (any (λ u. same u a.user.user_id) ids ≡ true))
unfolding read_state
read_state-new_round a ids q = (λ h. ground arith, λ h. ground arith)

module _ (r : RoomStore) where
  open r use {
    Store, get_buzzer_state, set_buzzer_state, is_answered, clear_buzzer_answered, get-set,
    answered-set, answered-clear,
  }

  opened_store :
      (session course : Text) (present : List RoomUser) (question : Option BankQuestion) (s : Store)
      → (on_buzzer_start r session course present question s).0 ≡ none
      → (q : BankQuestion) × (question ≡ some q)
        × (belongs session course q ≡ true)
        × (is_busy (get_buzzer_state s) ≡ false)
        × ((on_buzzer_start r session course present question s).1
            ≡ set_buzzer_state (new_round (eligible present) q.shown) (clear_buzzer_answered s))
  unfolding on_buzzer_start
  opened_store session course present none s h = absurd (ground arith)
  opened_store session course present (some q) s h =
      (q, refl, ground arith, ground arith, ground arith)

  -- When a round is opened, no other is open and the question belongs to the class; then nobody counts
  -- as having answered, and exactly the students who were present may answer that question.
  pub on_buzzer_start_lem :
      (session course : Text) (present : List RoomUser) (question : Option BankQuestion) (s : Store)
      (a : Answer)
      → (on_buzzer_start r session course present question s).0 ≡ none
      → (q : BankQuestion) × (question ≡ some q)
        × (belongs session course q ≡ true)
        × (is_busy (get_buzzer_state s) ≡ false)
        × (is_answered a.user.user_id (on_buzzer_start r session course present question s).1
            ≡ false)
        × ((read_state a (get_buzzer_state (on_buzzer_start r session course present question s).1)
              ≡ opened)
            ↔ ((same q.shown.question_id a.question_id ≡ true)
                × (any (λ v. is_student v.role && same v.user_id a.user.user_id) present ≡ true)))
  on_buzzer_start_lem session course present question s a h =
      let (q, e, b, free, after) = opened_store session course present question s h in
      let (to, from) = read_state-new_round a (eligible present) q.shown in
      let who = eligible-any a.user.user_id present in
      let state = get-set (new_round (eligible present) q.shown) (clear_buzzer_answered s) in
      let unanswered : is_answered a.user.user_id
            (on_buzzer_start r session course present question s).1
          ≡ false =
        rw after (
          answered-set a.user.user_id (new_round (eligible present) q.shown)
            (clear_buzzer_answered s)
          ∙ answered-clear a.user.user_id s) in
      (
        q,
        e,
        b,
        free,
        unanswered,
        rw (after, state) (λ h. ground (arith, to, who), λ h. ground (arith, from, who)),
      )
