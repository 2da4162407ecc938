-- ===== src/Buzzer/Races.antt =====
-- src/room-gateway/room.gateway.ts: what the second look at the state prevents, and what it does not.
use livetich_api.Prelude.{
  ℕ, zero, suc, ◌≡◌, ◌≢◌, ◌∙◌, refl, Text, same, same_iff, Bool, true, false, some, List, [], ◌∷◌,
  arith, All, any,
}
use livetich_api.Buzzer.{
  RoomStore, Answer, Progress, Handler, Shared, QuestionRow, BuzzerState, received, opened, marked,
  done, graded, rechecked, won, timer_fired, timer_read, read_state, grade, recheck, read_timeout,
  advance, step, run, award_for, delta_of, record_answer, is_correct, is_open_for, is_open,
  winner_state,
}

abbrev pub begin : Answer → Handler
begin a = record { answer = a; progress = received }

-- The student may answer this round, has not yet, and answers right for a course.
abbrev pub CanWin : (r : RoomStore) → Answer → QuestionRow → BuzzerState → Shared r → Type 0
CanWin r a row b w =
    (is_open_for b a.question_id ≡ true)
    × (any (λ u. same u a.user.user_id) b.eligible_user_ids ≡ true)
    × (r.is_answered a.user.user_id w.store ≡ false)
    × (a.row ≡ some row)
    × (is_correct a row ≡ true)

-- Not begun, or finished.
abbrev pub is_idle : Progress → Bool
is_idle received = true
is_idle opened = false
is_idle marked = false
is_idle done = true
is_idle (graded row) = false
is_idle (rechecked row b) = false
is_idle (won row) = false
is_idle timer_fired = true
is_idle (timer_read b) = false

abbrev pub IsIdle : Handler → Type 0
IsIdle h = is_idle h.progress ≡ true

module _ (r : RoomStore) where
  open r use {
    get_buzzer_state, set_buzzer_state, is_answered, add_answered, get-set, get-add, answered-set,
    answered-add,
  }

  -- Handled alone, a winning answer closes the round: the state names the winner and the ledger the award.
  pub win_alone :
      (a : Answer) (row : QuestionRow) (b : BuzzerState) (w : Shared r)
      → get_buzzer_state w.store ≡ some b
      → CanWin r a row b w
      → run r (0 ∷ 0 ∷ 0 ∷ 0 ∷ 0 ∷ 0 ∷ []) (begin a ∷ []) w ≡ (
        record { answer = a; progress = done } ∷ [],
        record {
          store = set_buzzer_state (winner_state a b) (add_answered a.user.user_id w.store);
          answers = record_answer a a.row w.answers;
          ledger = award_for a row w.ledger;
        },
      )
  unfolding run step advance read_state grade recheck
  win_alone a row b w e (o, el, un, at, right) = ground (arith, get-add a.user.user_id w.store)

  -- The second look at the state does not keep two students from winning one round. In this one order
  -- of steps, where each of two students' right answers to a question of a course is handled up to its
  -- second look, the first and then the second, and only then the first writes its win and award and
  -- after it the second, both students are awarded.
  pub two_winners :
      (a a' : Answer) (row row' : QuestionRow) (b : BuzzerState) (w : Shared r) (c c' : Text)
      → get_buzzer_state w.store ≡ some b
      → row.course_id ≡ some c
      → row'.course_id ≡ some c'
      → a.user.user_id ≢ a'.user.user_id
      → CanWin r a row b w
      → CanWin r a' row' b w
      → (run r
          (0 ∷ 0 ∷ 0 ∷ 0 ∷ 1 ∷ 1 ∷ 1 ∷ 1 ∷ 0 ∷ 0 ∷ 1 ∷ 1 ∷ [])
          (begin a ∷ begin a' ∷ [])
          w).1.ledger
        ≡ record {
          student_id = a'.user.user_id;
          course_id = c';
          delta = delta_of row'.points;
          ref_id = a'.question_id;
        }
          ∷ (record {
            student_id = a.user.user_id;
            course_id = c;
            delta = delta_of row.points;
            ref_id = a.question_id;
          }
              ∷ w.ledger)
  unfolding run step advance read_state grade recheck
  two_winners a a' row row' b w c c' e of_course of_course' ne (o, el, un, at, right)
        (o', el', un', at', right') =
      ground (
        arith,
        get-add a.user.user_id w.store,
        get-add a'.user.user_id (add_answered a.user.user_id w.store),
        answered-add a'.user.user_id a.user.user_id w.store,
        same_iff a.user.user_id a'.user.user_id,
      )

  idle_step :
      (a : Answer) (p : Progress) (b : BuzzerState) (w : Shared r)
      → get_buzzer_state w.store ≡ some b
      → is_open b.phase ≡ false
      → is_idle p ≡ true
      → ((advance r a p w).1 ≡ w) × (is_idle (advance r a p w).0 ≡ true)
  unfolding advance read_state read_timeout
  idle_step a received b w e shut h = (refl, rw e (ground arith))
  idle_step a timer_fired b w e shut h = (refl, rw e (ground arith))
  idle_step a p b w e shut h = ground arith

  closed_step :
      (i : ℕ) (hs : List Handler) (b : BuzzerState) (w : Shared r)
      → get_buzzer_state w.store ≡ some b
      → is_open b.phase ≡ false
      → All IsIdle hs
      → ((step r i hs w).1 ≡ w) × All IsIdle (step r i hs w).0
  unfolding step
  closed_step i [] b w e shut h = (refl, tt)
  closed_step zero (x ∷ hs) b w e shut (h, k) =
      let (kept, idle_x) = idle_step x.answer x.progress b w e shut h in (kept, (idle_x, k))
  closed_step (suc i) (x ∷ hs) b w e shut (h, k) =
      let (kept, rest) = closed_step i hs b w e shut k in (kept, (h, rest))

  -- Once the round is closed, no message that arrives and no timer that fires changes the state, the
  -- set of those who answered or the ledger, however their handlers interleave.
  pub closed_run :
      (is : List ℕ) (hs : List Handler) (b : BuzzerState) (w : Shared r)
      → get_buzzer_state w.store ≡ some b
      → is_open b.phase ≡ false
      → All IsIdle hs
      → (run r is hs w).1 ≡ w
  unfolding run
  closed_run [] hs b w e shut h = refl
  closed_run (i ∷ is) hs b w e shut h =
      let (kept, rest) = closed_step i hs b w e shut h in
      closed_run is (step r i hs w).0 b (step r i hs w).1 (rw kept e) shut rest ∙ kept
