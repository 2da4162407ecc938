-- ===== src/Buzzer/OneAttempt.antt =====
-- src/room-gateway/room.gateway.ts: however the handlers of a round interleave, the set of those who
-- have answered lets each student through once.
use livetich_api.Prelude.{
  ℕ, zero, suc, ◌+◌, ◌≤◌, ◌≡◌, refl, if◌then◌else◌, Text, same, same_iff, Bool, true, false, ◌&&◌,
  Option, List, [], ◌∷◌, arith, All,
}
use livetich_api.Buzzer.{
  RoomStore, Answer, Award, Progress, Handler, Shared, BuzzerState, received, opened, marked, done,
  graded, rechecked, won, timer_fired, timer_read, read_state, read_timeout, advance, step, run,
  winner_state, timeout_state,
}

-- The awards of a student.
abbrev pub awarded : Text → List Award → ℕ
awarded u [] = 0
awarded u (a ∷ ledger) = (if same a.student_id u then 1 else 0) + awarded u ledger

-- Past the mark, and not finished.
abbrev pub is_past : Progress → Bool
is_past received = false
is_past opened = false
is_past marked = true
is_past done = false
is_past (graded row) = true
is_past (rechecked row b) = true
is_past (won row) = true
is_past timer_fired = false
is_past (timer_read b) = false

abbrev pub weight : Text → Answer → Progress → ℕ
weight u a p = if is_past p && same a.user.user_id u then 1 else 0

unfoldable pub past : Text → List Handler → ℕ
past u [] = 0
past u (h ∷ hs) = weight u h.answer h.progress + past u hs

-- Not begun: a message that has arrived, or a timer that has fired.
abbrev pub is_new : Progress → Bool
is_new received = true
is_new opened = false
is_new marked = false
is_new done = false
is_new (graded row) = false
is_new (rechecked row b) = false
is_new (won row) = false
is_new timer_fired = true
is_new (timer_read b) = false

abbrev pub IsNew : Handler → Type 0
IsNew h = is_new h.progress ≡ true

past-IsNew : (u : Text) (hs : List Handler) → All IsNew hs → past u hs ≡ 0
unfolding past
past-IsNew u [] h = refl
past-IsNew u (x ∷ hs) (h, k) = ground (arith, past-IsNew u hs k)

read_state-not_past : (a : Answer) (o : Option BuzzerState) → is_past (read_state a o) ≡ false
unfolding read_state
read_state-not_past a o = ground arith

read_timeout-not_past : (a : Answer) (o : Option BuzzerState) → is_past (read_timeout a o) ≡ false
unfolding read_timeout
read_timeout-not_past a o = ground arith

module _ (r : RoomStore) where
  open r use {Store, is_answered, answered-set, answered-add}

  abbrev spent : Text → Shared r → ℕ
  spent u w = if is_answered u w.store then 1 else 0

  advance-spent :
      (u : Text) (k : ℕ) (a : Answer) (p : Progress) (w : Shared r)
      → awarded u w.ledger + weight u a p + k ≤ spent u w
      → awarded u (advance r a p w).1.ledger + weight u a (advance r a p w).0 + k
        ≤ spent u (advance r a p w).1
  unfolding advance
  advance-spent u k a received w h =
      ground (arith, read_state-not_past a (r.get_buzzer_state w.store))
  advance-spent u k a opened w h =
      ground (arith, answered-add u a.user.user_id w.store, same_iff a.user.user_id u)
  advance-spent u k a marked w h = ground arith
  advance-spent u k a done w h = h
  advance-spent u k a (graded row) w h = ground arith
  advance-spent u k a (rechecked row b) w h =
      ground (arith, answered-set u (winner_state a b) w.store)
  advance-spent u k a (won row) w h = ground arith
  advance-spent u k a timer_fired w h =
      ground (arith, read_timeout-not_past a (r.get_buzzer_state w.store))
  advance-spent u k a (timer_read b) w h = ground (arith, answered-set u (timeout_state b) w.store)

  step-spent :
      (u : Text) (k i : ℕ) (hs : List Handler) (w : Shared r)
      → awarded u w.ledger + past u hs + k ≤ spent u w
      → awarded u (step r i hs w).1.ledger + past u (step r i hs w).0 + k
        ≤ spent u (step r i hs w).1
  unfolding step past
  step-spent u k i [] w h = h
  step-spent u k zero (x ∷ hs) w h =
      omega (arith, advance-spent u (past u hs + k) x.answer x.progress w (omega arith))
  step-spent u k (suc i) (x ∷ hs) w h =
      omega (arith, step-spent u (weight u x.answer x.progress + k) i hs w (omega arith))

  run-spent :
      (u : Text) (is : List ℕ) (hs : List Handler) (w : Shared r)
      → awarded u w.ledger + past u hs ≤ spent u w
      → awarded u (run r is hs w).1.ledger + past u (run r is hs w).0 ≤ spent u (run r is hs w).1
  unfolding run
  run-spent u [] hs w h = h
  run-spent u (i ∷ is) hs w h =
      run-spent u is (step r i hs w).0 (step r i hs w).1
        (omega (arith, step-spent u 0 i hs w (omega arith)))

  -- However the messages of a round and its timer interleave, and however many messages a student
  -- sends, the round awards the student at most once.
  pub awarded_once :
      (u : Text) (is : List ℕ) (hs : List Handler) (w : Shared r)
      → All IsNew hs
      → w.ledger ≡ []
      → awarded u (run r is hs w).1.ledger ≤ 1
  awarded_once u is hs w new none_yet =
      let spent_le_1 : spent u (run r is hs w).1 ≤ 1 = ground arith in
      let start : awarded u w.ledger + past u hs ≤ spent u w =
        ground (arith, none_yet, past-IsNew u hs new) in
      omega (arith, run-spent u is hs w start)
