-- ===== src/Recordings/Tests.antt =====
-- Runs of src/recordings/recordings.service.ts and its reconciler, and the theorems at concrete inputs.
use livetich_api.Prelude.{
  ℕ, ◌≡◌, ◌≤◌, refl, if◌then◌else◌, Text, codes, same, true, false, Option, none, some, List, [],
  ◌∷◌, ◌++◌, filter, All, arith,
}
use livetich_api.Prelude.Results.{ok, err, not_found}
use livetich_api.Identity.{JwtPayload, instructor}
use livetich_api.Recordings.{
  processing, ready, RecordingRow, update_row, delete_row, find_row, assert_staff,
}
use livetich_api.Recordings.Taking.{
  size_null, StartWorld, used_bytes, start_checks, taken, start_finish, start, stop,
}
use livetich_api.Recordings.Gallery.{
  with_share, expiry, is_expired, share, unshare, by_shared_token, purge_stored_objects,
}
use livetich_api.Recordings.Reconciler.{
  World, finished, first, batch, is_stuck, stop_each, stop_recordings_for_ended_classes,
  stop_overrunning_recordings, reconcile,
}
use livetich_api.Recordings.Retention.{
  sweep_one, delete_each, sweep_organization, sweep_organizations, sweep_expired_recordings,
}
use livetich_api.Recordings.Events.{
  Event, quiet, pass, began, answered, was_stopped, was_removed, happen, happen_all,
}
use livetich_api.Recordings.States.{is_sound, happen_all-IsSound}
use livetich_api.Recordings.Single.{running, Call, starts, call, call_all}
use livetich_api.Recordings.Starting.{StartRequest, before_checks, start_both, two_starts}
use livetich_api.Recordings.Calls.{running-call_all}
use livetich_api.Recordings.Withdrawn.{unshare_for_good, share-by_shared_token}
use livetich_api.Recordings.Sweeping.{deleted-sweep_expired_recordings}
use livetich_api.Recordings.Untouched.{of_id, of_id-sweep_expired_recordings}
use livetich_api.Recordings.Ending.{is_done}
use livetich_api.Recordings.Rescue.{reconcile_rescue}

abbrev zayd : JwtPayload
zayd = record {
  sub = codes "zayd";
  role = instructor;
  name = codes "Zayd";
  organization_id = some (codes "org");
}

abbrev class_is_live : StartWorld
class_is_live = record {
  session_organization = some (some (codes "org"));
  is_live = true;
  web_base = true;
  api_base = true;
  camera_only_allowed = false;
  has_publisher = false;
  quota_bytes = some 1000;
}

-- A start, the stop that comes before LiveKit's answer, and the answer.
abbrev story : List Event
story =
    began zayd (codes "s") class_is_live (codes "r1") 10
    ∷ quiet (was_stopped zayd (codes "s") true)
    ∷ answered (codes "r1") (taken (codes "eg"))
    ∷ []

happen_all-IsSound_example : All (λ r. is_sound r ≡ true) (happen_all story [])
happen_all-IsSound_example = happen_all-IsSound story

-- The recording that was stopped while it started runs after all.
runs_on : running (codes "s") (happen_all story []) ≡ 1
unfolding happen_all happen pass start_checks assert_staff used_bytes stop find_row update_row
    start_finish running same
runs_on = refl

abbrev twice : List Call
twice =
    starts zayd (codes "s") class_is_live (codes "r1") 10 (taken (codes "eg"))
    ∷ starts zayd (codes "s") class_is_live (codes "r2") 11 (taken (codes "eg2"))
    ∷ []

running-call_all_example : running (codes "s") (call_all twice []) ≤ 1
running-call_all_example = running-call_all twice (codes "s")

one_runs : running (codes "s") (call_all twice []) ≡ 1
unfolding call_all call start start_checks assert_staff used_bytes update_row start_finish running
    same
one_runs = refl

may_start : start_checks zayd (codes "s") class_is_live [] ≡ ok (codes "org")
unfolding start_checks assert_staff used_bytes same
may_start = refl

abbrev first_start : StartRequest
first_start = record {
  user = zayd;
  session_id = codes "s";
  world = class_is_live;
  id = codes "r1";
  now = 10;
  answer = taken (codes "eg1");
}

abbrev second_start : StartRequest
second_start = record first_start { id = codes "r2"; now = 11; answer = taken (codes "eg2") }

two_starts_example :
    (running (codes "s") (
        start_both
          (true ∷ false ∷ true ∷ false ∷ [])
          first_start
          before_checks
          second_start
          before_checks
          [])
      ≡ 2)
    × (running (codes "s") (
          start_both
            (true ∷ true ∷ false ∷ false ∷ [])
            first_start
            before_checks
            second_start
            before_checks
            [])
        ≡ 1)
two_starts_example =
    two_starts first_start second_start [] (codes "org") (codes "org") refl may_start may_start

abbrev lesson : RecordingRow
lesson = record {
  id = codes "r1";
  session_id = codes "s";
  organization_id = codes "org";
  status = ready;
  egress_id = some (codes "eg");
  storage_key = some (codes "k");
  size_bytes = some 500;
  duration_sec = none;
  error = none;
  share_token = none;
  share_expires_at = none;
  created_at = 10;
  ready_at = some 20;
}

abbrev released : RecordingRow
released = with_share (some (codes "link")) (some 86400100) lesson

shares : share zayd (codes "r1") (some 1) (codes "link") 100 (lesson ∷ []) ≡ ok (released ∷ [])
unfolding share assert_staff find_row update_row same
shares = refl

share-by_shared_token_example : by_shared_token (codes "link") 200 (released ∷ []) ≡ (
    if is_expired (expiry (some 1) 100) 200
    then err not_found
    else ok (with_share (some (codes "link")) (expiry (some 1) 100) lesson, codes "k"))
unfolding same find_row
share-by_shared_token_example =
    share-by_shared_token zayd (codes "r1") (codes "link") (codes "k") (some 1) 100 200
      (lesson ∷ []) (released ∷ []) lesson refl refl refl refl shares

unshares : unshare zayd (codes "r1") (happen_all [] (released ∷ [])) ≡ ok (lesson ∷ [])
unfolding unshare happen_all assert_staff update_row same
unshares = refl

unshare_for_good_example :
    by_shared_token
      (codes "link")
      200
      (happen_all (quiet (was_removed zayd (codes "r2")) ∷ []) (lesson ∷ []))
    ≡ err not_found
unfolding same
unshare_for_good_example =
    unshare_for_good zayd zayd (codes "r1") (codes "link") (some 1) 100 200 (lesson ∷ [])
      (released ∷ []) (lesson ∷ []) [] (quiet (was_removed zayd (codes "r2")) ∷ []) refl shares refl
      unshares refl

-- A workspace that keeps recordings for a day, and one that keeps them.
abbrev windows : List (Text × Option ℕ)
windows = (codes "org", some 1) ∷ (codes "org2", none) ∷ []

deleted-sweep_expired_recordings_example :
    (sweep_expired_recordings (λ id. true) 100 90000000 windows (lesson ∷ [])).deleted ≤ 100
deleted-sweep_expired_recordings_example =
    deleted-sweep_expired_recordings (λ id. true) 100 90000000 windows (lesson ∷ []) (ground arith)

sweeps : (sweep_expired_recordings (λ id. true) 100 90000000 windows (lesson ∷ [])).deleted ≡ 1
unfolding sweep_expired_recordings sweep_organizations sweep_organization delete_each sweep_one
    delete_row first purge_stored_objects same
sweeps = refl

of_id-sweep_expired_recordings_example :
    of_id (codes "r1") (sweep_expired_recordings (λ id. true) 100 5000 windows (lesson ∷ [])).rows
    ≡ of_id (codes "r1") (lesson ∷ [])
unfolding same
of_id-sweep_expired_recordings_example =
    of_id-sweep_expired_recordings (λ id. true) 100 5000 windows (codes "r1") (lesson ∷ []) refl

-- A recording that was stopped an hour ago, of which LiveKit says that it has ended.
abbrev waiting : RecordingRow
waiting = record {
  id = codes "r1";
  session_id = codes "s";
  organization_id = codes "org";
  status = processing;
  egress_id = some (codes "eg");
  storage_key = some (codes "k");
  size_bytes = none;
  duration_sec = none;
  error = none;
  share_token = none;
  share_expires_at = none;
  created_at = 0;
  ready_at = none;
}

abbrev livekit : World
livekit = record {
  describe = λ e. finished true (some 500) none none;
  measured = λ e. size_null;
  stops = λ e. true;
  has_ended = λ s. true;
  max_recording_minutes = λ o. none;
}

nothing_to_stop :
    stop_overrunning_recordings livekit 3600000
      (stop_recordings_for_ended_classes livekit (waiting ∷ []))
    ≡ waiting ∷ []
unfolding stop_overrunning_recordings stop_recordings_for_ended_classes stop_each first
nothing_to_stop = refl

in_batch : first batch (filter (is_stuck 3600000) (waiting ∷ [])) ≡ [] ++ waiting ∷ []
unfolding first
in_batch = refl

reconcile_rescue_example :
    is_done (codes "r1") (reconcile true livekit 3600000 (waiting ∷ [])) ≡ true
unfolding same find_row
reconcile_rescue_example =
    reconcile_rescue livekit 3600000 waiting [] [] (waiting ∷ []) (waiting ∷ []) nothing_to_stop
      in_batch refl refl
