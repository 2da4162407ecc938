-- ===== src/Schedule/Meetings.antt =====
-- src/sessions/session-schedule.ts: how many meetings a course has, and when one may be joined.
use livetich_api.Prelude.{
  ℕ, zero, suc, ◌+◌, ◌*◌, ltb, leb, ◌==◌, if◌then◌else◌, ◌≡◌, refl, sym, ap, ◌∙◌, Bool, ◌&&◌, some,
  is_some, List, [], ◌∷◌, any, length, arith, ==_iff,
}
use native.Mathlib.Nat.{zero-mul, suc-mul}
use livetich_api.Schedule.{
  Time, Zone, CourseSchedule, Occurrence, day_of_week, includes, occurrences_from, general_time,
  list_occurrences, find, window_at, resolve_join_window,
}

abbrev pub is_meeting : CourseSchedule → ℕ → Bool
is_meeting s day = includes s.meeting_days (day_of_week day)

abbrev one : Bool → ℕ
one b = if b then 1 else 0

-- The weekdays from 0 to 6 on which a course meets.
abbrev pub weekdays : List ℕ → ℕ
weekdays days =
    one (includes days 0)
    + one (includes days 1)
    + one (includes days 2)
    + one (includes days 3)
    + one (includes days 4)
    + one (includes days 5)
    + one (includes days 6)

seven_later : (n : ℕ) → day_of_week (n + 7) ≡ day_of_week n
unfolding day_of_week
seven_later n = omega arith

-- Seven days, from a day on.
abbrev week_from : (ℕ → ℕ) → ℕ → ℕ
week_from f n = f n + f (n + 1) + f (n + 2) + f (n + 3) + f (n + 4) + f (n + 5) + f (n + 6)

next_week : (f : ℕ → ℕ) (n : ℕ) → f (n + 7) ≡ f n → week_from f (suc n) ≡ week_from f n
next_week f n h =
    let e0 : f (suc n) ≡ f (n + 1) = ap f (omega arith) in
    let e1 : f (suc n + 1) ≡ f (n + 2) = ap f (omega arith) in
    let e2 : f (suc n + 2) ≡ f (n + 3) = ap f (omega arith) in
    let e3 : f (suc n + 3) ≡ f (n + 4) = ap f (omega arith) in
    let e4 : f (suc n + 4) ≡ f (n + 5) = ap f (omega arith) in
    let e5 : f (suc n + 5) ≡ f (n + 6) = ap f (omega arith) in
    let e6 : f (suc n + 6) ≡ f (n + 7) = ap f (omega arith) in
    omega (arith, e0, e1, e2, e3, e4, e5, e6, h)

abbrev meets : List ℕ → ℕ → ℕ
meets days n = one (includes days (day_of_week n))

week_zero :
    (f : ℕ → ℕ) → f 4 + f 5 + f 6 + f 0 + f 1 + f 2 + f 3 ≡ f 0 + f 1 + f 2 + f 3 + f 4 + f 5 + f 6
week_zero f = omega arith

week_lem : (days : List ℕ) (n : ℕ) → week_from (meets days) n ≡ weekdays days
unfolding day_of_week
week_lem days zero = week_zero (λ d. one (includes days d))
week_lem days (suc n) =
    next_week (meets days) n (ap (λ d. one (includes days d)) (seven_later n)) ∙ week_lem days n

is_some-find : (f : Occurrence → Bool) (os : List Occurrence) → is_some (find f os) ≡ any f os
unfolding find
is_some-find f [] = refl
is_some-find f (o ∷ os) = ground (arith, is_some-find f os)

window_at-joinable :
    (os : List Occurrence) (z : Zone) (now : ℕ)
    → (window_at os z now).joinable_now ≡ any (λ p. p.day == z.day_of now) os
unfolding window_at
window_at-joinable [] z now = refl
window_at-joinable (o ∷ os) z now = is_some-find (λ p. p.day == z.day_of now) (o ∷ os)

module _ (s : CourseSchedule) (zone : Zone) (general : Time) where
  -- A day has a meeting exactly if it is one of the days that are left and a weekday of the course.
  occurrences_from_iff :
      (left day n : ℕ)
      → any (λ o. o.day == n) (occurrences_from s zone general left day)
        ≡ (leb day n && (ltb n (day + left) && is_meeting s n))
  unfolding occurrences_from
  occurrences_from_iff zero day n = ground arith
  occurrences_from_iff (suc left) day n =
      ground (arith, occurrences_from_iff left (day + 1) n, ==_iff day n)

  length-step :
      (left day : ℕ)
      → length (occurrences_from s zone general (suc left) day)
        ≡ one (is_meeting s day) + length (occurrences_from s zone general left (day + 1))
  unfolding occurrences_from
  length-step left day = ground arith

  abbrev many : ℕ → ℕ → ℕ
  many left day = length (occurrences_from s zone general left day)

  length-at :
      (left day i : ℕ)
      → many (suc left) (day + i) ≡ one (is_meeting s (day + i)) + many left (day + (i + 1))
  length-at left day i =
      let e : day + i + 1 ≡ day + (i + 1) = omega arith in
      length-step left (day + i) ∙ ap (λ d. one (is_meeting s (day + i)) + many left d) e

  length-one_week :
      (left day : ℕ) → many (left + 7) day ≡ weekdays s.meeting_days + many left (day + 7)
  length-one_week left day =
      let l : many (left + 7) day ≡ many (suc (suc (suc (suc (suc (suc (suc left))))))) (day + 0) =
        ap (λ k. many k day) (omega arith)
        ∙ ap (λ d. many (suc (suc (suc (suc (suc (suc (suc left))))))) d) (omega arith) in
      let z : one (is_meeting s (day + 0)) ≡ one (is_meeting s day) =
        ap (λ d. one (is_meeting s d)) (omega arith) in
      omega (
        arith,
        l,
        z,
        length-at (suc (suc (suc (suc (suc (suc left)))))) day 0,
        length-at (suc (suc (suc (suc (suc left))))) day 1,
        length-at (suc (suc (suc (suc left)))) day 2,
        length-at (suc (suc (suc left))) day 3,
        length-at (suc (suc left)) day 4,
        length-at (suc left) day 5,
        length-at left day 6,
        week_lem s.meeting_days day,
      )

  length-none : (day : ℕ) → many (0 * 7) day ≡ 0
  unfolding occurrences_from
  length-none day = refl

  length-weeks : (weeks day : ℕ) → many (weeks * 7) day ≡ weeks * weekdays s.meeting_days
  length-weeks zero day = length-none day ∙ sym (zero-mul (weekdays s.meeting_days))
  length-weeks (suc weeks) day =
      let l : suc weeks * 7 ≡ weeks * 7 + 7 = omega arith in
      let m : suc weeks * weekdays s.meeting_days
          ≡ weekdays s.meeting_days + weeks * weekdays s.meeting_days =
        omega (arith, suc-mul weeks (weekdays s.meeting_days)) in
      ap (λ k. many k day) l
      ∙ length-one_week (weeks * 7) day
      ∙ ap (λ k. weekdays s.meeting_days + k) (length-weeks weeks (day + 7))
      ∙ sym m

  resolved_lem :
      (start now : ℕ)
      → s.start_date ≡ some start
      → s.timezone ≡ some zone
      → general_time s.meeting_time ≡ some general
      → (list_occurrences s
          ≡ occurrences_from s zone general (s.duration_weeks * 7) (zone.day_of start))
        × ((resolve_join_window s now).joinable_now
            ≡ any (λ o. o.day == zone.day_of now) (list_occurrences s))
  unfolding list_occurrences resolve_join_window
  resolved_lem start now a z g =
      (ground (arith, a, z, g), ground (arith, z, window_at-joinable (list_occurrences s) zone now))

  -- A course with a first day, a time zone and a time that can be read has as many meetings as its weeks
  -- times its weekdays; and it may be joined exactly on a local day of its run that is one of its
  -- weekdays.
  pub meetings_lem :
      (start now : ℕ)
      → s.start_date ≡ some start
      → s.timezone ≡ some zone
      → general_time s.meeting_time ≡ some general
      → (length (list_occurrences s) ≡ s.duration_weeks * weekdays s.meeting_days)
        × ((resolve_join_window s now).joinable_now ≡ (
            leb (zone.day_of start) (zone.day_of now)
            && (ltb (zone.day_of now) (zone.day_of start + s.duration_weeks * 7)
                && is_meeting s (zone.day_of now))))
  meetings_lem start now a z g =
      let (listed, joinable) = resolved_lem start now a z g in
      (
        ap length listed ∙ length-weeks s.duration_weeks (zone.day_of start),
        joinable
            ∙ ap (λ os. any (λ o. o.day == zone.day_of now) os) listed
            ∙ occurrences_from_iff (s.duration_weeks * 7) (zone.day_of start) (zone.day_of now),
      )
