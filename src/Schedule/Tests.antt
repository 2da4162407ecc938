-- ===== src/Schedule/Tests.antt =====
-- src/sessions/session-schedule.ts: two weeks of Mondays and Wednesdays from Monday 1970-01-05, in UTC.
use livetich_api.Prelude.{
  ◌+◌, ◌*◌, ◌/◌, ◌≡◌, leb, ltb, ◌&&◌, refl, codes, none, some, [], ◌∷◌, length,
}
use livetich_api.Schedule.{
  Time, Zone, CourseSchedule, parse_hhmm, list_occurrences, resolve_join_window,
}
use livetich_api.Schedule.Meetings.{is_meeting, weekdays, meetings_lem}

abbrev utc : Zone
utc = record {
  day_of = λ t. t / 86400000;
  to_utc = λ day t. day * 86400000 + t.hh * 3600000 + t.mm * 60000;
}

abbrev course : CourseSchedule
course = record {
  start_date = some 345600000;
  duration_weeks = 2;
  meeting_days = 1 ∷ (3 ∷ []);
  meeting_time = some (codes "18:30");
  meeting_times_by_day = [];
  timezone = some utc;
}

abbrev half_past_six : Time
half_past_six = record { hh = 18; mm = 30 }

read_time : parse_hhmm (codes "18:30") ≡ some half_past_six
unfolding parse_hhmm
read_time = refl

no_time : parse_hhmm (codes "24:00") ≡ none
unfolding parse_hhmm
no_time = refl

meetings_example :
    (length (list_occurrences course) ≡ 2 * weekdays (1 ∷ (3 ∷ [])))
    × ((resolve_join_window course 520000000).joinable_now
        ≡ (leb 4 6 && (ltb 6 18 && is_meeting course 6)))
meetings_example = meetings_lem course utc half_past_six 345600000 520000000 refl refl read_time
