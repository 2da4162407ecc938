-- ===== src/Schedule.antt =====
-- src/sessions/session-schedule.ts: the meetings of a course. A local calendar day is its number, counted
-- in whole days from 1970-01-01. What the platform knows of a time zone is a parameter.
pub mod Meetings
mod Tests
use livetich_api.Prelude.{
  ℕ, zero, suc, ◌+◌, ◌-◌, ◌*◌, ◌%◌, ltb, leb, ◌==◌, if◌then◌else◌, Text, Bool, true, false, not,
  ◌&&◌, ◌||◌, Option, none, some, is_some, List, [], ◌∷◌, any,
}

pub record Time : Type 0 where
  pub hh : ℕ
  pub mm : ℕ

-- The IANA zone of a course: the local day of an instant, and the instant of a local day and time, in
-- milliseconds.
pub record Zone : Type 0 where
  pub day_of : ℕ → ℕ
  pub to_utc : ℕ → Time → ℕ

-- `none` where the column is null. Weekdays that are no natural number match no day and are left out,
-- and no weeks stand for a column that is null.
pub record CourseSchedule : Type 0 where
  pub start_date : Option ℕ
  pub duration_weeks : ℕ
  pub meeting_days : List ℕ
  pub meeting_time : Option Text
  pub meeting_times_by_day : List (ℕ × Text)
  pub timezone : Option Zone

pub record Occurrence : Type 0 where
  pub day : ℕ
  pub scheduled_at : ℕ

pub record JoinWindow : Type 0 where
  pub current : Option Occurrence
  pub next : Option Occurrence
  pub joinable_now : Bool

abbrev pub digit : ℕ → Option ℕ
digit c = if leb b'0' c && leb c b'9' then some (c - b'0') else none

abbrev pub pair : Option ℕ → Option ℕ → Option ℕ
pair none b = none
pair (some a) none = none
pair (some a) (some b) = some (10 * a + b)

abbrev pub time_of : Option ℕ → Option ℕ → Option Time
time_of none b = none
time_of (some hh) none = none
time_of (some hh) (some mm) =
    if leb hh 23 && leb mm 59 then some (record { hh = hh; mm = mm }) else none

-- `/^([01]\d|2[0-3]):([0-5]\d)$/`
unfoldable pub parse_hhmm : Text → Option Time
parse_hhmm (a ∷ (b ∷ (c ∷ (d ∷ (e ∷ []))))) =
    if c == b':' then time_of (pair (digit a) (digit b)) (pair (digit d) (digit e)) else none
parse_hhmm s = none

-- `parseTimesByDay`, then `perDay.get(dow)`: the last entry of the day that can be read.
unfoldable pub time_on : ℕ → List (ℕ × Text) → Option Time
time_on dow [] = none
time_on dow ((k, v) ∷ raw) =
    let rest = time_on dow raw in
    if is_some rest then rest else if k == dow && leb k 6 then parse_hhmm v else none

-- `getUTCDay`: 1970-01-01 was a Thursday.
unfoldable pub day_of_week : ℕ → ℕ
day_of_week n = (n + 4) % 7

abbrev pub or_general : Option Time → Time → Time
or_general none general = general
or_general (some t) general = t

abbrev pub includes : List ℕ → ℕ → Bool
includes days d = any (λ x. x == d) days

-- The loop of `listOccurrences`, with the days that are left.
unfoldable pub occurrences_from : CourseSchedule → Zone → Time → ℕ → ℕ → List Occurrence
occurrences_from s zone general zero day = []
occurrences_from s zone general (suc left) day =
    let rest = occurrences_from s zone general left (day + 1) in
    let dow = day_of_week day in
    if includes s.meeting_days dow
    then record {
      day = day;
      scheduled_at = zone.to_utc day (or_general (time_on dow s.meeting_times_by_day) general);
    }
      ∷ rest
    else rest

abbrev pub general_time : Option Text → Option Time
general_time none = none
general_time (some t) = parse_hhmm t

unfoldable pub list_occurrences : CourseSchedule → List Occurrence
list_occurrences s = elim s.start_date [
  | none ↦ []
  | some start ↦ elim s.timezone [
    | none ↦ []
    | some zone ↦ elim (general_time s.meeting_time) [
      | none ↦ []
      | some general ↦ occurrences_from s zone general (s.duration_weeks * 7) (zone.day_of start)
    ]
  ]
]

unfoldable pub find : (Occurrence → Bool) → List Occurrence → Option Occurrence
find f [] = none
find f (o ∷ os) = let rest = find f os in if f o then some o else rest

abbrev pub no_window : JoinWindow
no_window = record { current = none; next = none; joinable_now = false }

unfoldable pub window_at : List Occurrence → Zone → ℕ → JoinWindow
window_at [] zone now = no_window
window_at (o ∷ os) zone now =
    let current = find (λ p. p.day == zone.day_of now) (o ∷ os) in
    record {
      current = current;
      next = find (λ p. ltb now p.scheduled_at) (o ∷ os);
      joinable_now = is_some current;
    }

-- Without a time zone there is no occurrence.
unfoldable pub resolve_join_window : CourseSchedule → ℕ → JoinWindow
resolve_join_window s now = elim s.timezone [
  | none ↦ no_window
  | some zone ↦ window_at (list_occurrences s) zone now
]
