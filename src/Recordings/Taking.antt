-- ===== src/Recordings/Taking.antt =====
-- src/recordings/recordings.service.ts: starting and stopping a recording, and LiveKit's reports of it.
use livetich_api.Prelude.{
  ℕ, ◌+◌, leb, if◌then◌else◌, Text, codes, same, same_option, Bool, true, false, not, ◌&&◌, ◌||◌,
  Option, none, some, List, [], ◌∷◌, ◌++◌, any, is_some,
}
use livetich_api.Prelude.Results.{
  Result, ok, ◌>>=◌, ◌>>◌, demand, or_throw, bad_request, forbidden, not_found,
}
use livetich_api.Identity.{JwtPayload}
use livetich_api.Recordings.{
  starting, recording, ready, is_active, RecordingRow, update_row, find_row, to_processing,
  to_failed, assert_staff,
}

-- `usage`: the sum of the sizes that are known.
unfoldable pub used_bytes : Text → List RecordingRow → ℕ
used_bytes organization_id [] = 0
used_bytes organization_id (r ∷ rs) =
    (if same r.organization_id organization_id
      then elim r.size_bytes [ none ↦ 0 | some n ↦ n ]
      else 0)
    + used_bytes organization_id rs

abbrev pub is_full : Option ℕ → ℕ → Bool
is_full none used = false
is_full (some quota) used = leb quota used

-- The session's row and what else `start` asks about: whether LiveKit can reach the web app and the
-- API, whether recording cameras alone is allowed, whether anybody publishes, and the quota.
pub record StartWorld : Type 0 where
  pub session_organization : Option (Option Text)
  pub is_live : Bool
  pub web_base : Bool
  pub api_base : Bool
  pub camera_only_allowed : Bool
  pub has_publisher : Bool
  pub quota_bytes : Option ℕ

abbrev pub is_running : Text → RecordingRow → Bool
is_running session_id r = same r.session_id session_id && is_active r.status

-- `start` up to the creation of the row.
unfoldable pub start_checks : JwtPayload → Text → StartWorld → List RecordingRow → Result Text
start_checks user session_id w rows = do
  organization_id ← assert_staff user
  organization ← or_throw w.session_organization not_found
  demand (same_option organization (some organization_id)) forbidden
  demand w.is_live bad_request
  demand (not (any (is_running session_id) rows)) bad_request
  demand ((w.web_base && w.api_base) || w.camera_only_allowed) bad_request
  demand ((w.web_base && w.api_base) || w.has_publisher) bad_request
  demand (not (is_full w.quota_bytes (used_bytes organization_id rows))) bad_request
  ok organization_id

abbrev pub new_row : Text → Text → Text → ℕ → RecordingRow
new_row id session_id organization_id now = record {
  id = id;
  session_id = session_id;
  organization_id = organization_id;
  status = starting;
  egress_id = none;
  storage_key = none;
  size_bytes = none;
  duration_sec = none;
  error = none;
  share_token = none;
  share_expires_at = none;
  created_at = now;
  ready_at = none;
}

-- `RecordingEgressService.storageKey` and `legacyManifestKey`
abbrev pub storage_key : Text → Text → Text
storage_key organization_id id =
    codes "recordings/" ++ organization_id ++ codes "/" ++ id ++ codes ".mp4"

abbrev pub legacy_manifest_key : Text → Text → Text
legacy_manifest_key organization_id egress_id =
    codes "recordings/" ++ organization_id ++ codes "/" ++ egress_id ++ codes ".json"

-- What `egress.start` comes to: LiveKit's id, or the message of what it throws.
pub data EgressStart : Type 0 where
  taken thrown : Text → EgressStart

abbrev pub to_recording : Text → RecordingRow → RecordingRow
to_recording egress_id r = record {
  id = r.id;
  session_id = r.session_id;
  organization_id = r.organization_id;
  status = recording;
  egress_id = some egress_id;
  storage_key = some (storage_key r.organization_id r.id);
  size_bytes = r.size_bytes;
  duration_sec = r.duration_sec;
  error = r.error;
  share_token = r.share_token;
  share_expires_at = r.share_expires_at;
  created_at = r.created_at;
  ready_at = r.ready_at;
}

-- The rest of `start`, once LiveKit has answered.
unfoldable pub start_finish : Text → EgressStart → List RecordingRow → List RecordingRow
start_finish id (taken egress_id) rows = update_row id (to_recording egress_id) rows
start_finish id (thrown message) rows = update_row id (to_failed message) rows

abbrev pub is_taken : EgressStart → Bool
is_taken (taken egress_id) = true
is_taken (thrown message) = false

-- The whole of `start`, and whether it then returns; where LiveKit refuses, the row stays and the
-- exception is thrown on.
unfoldable pub start :
    JwtPayload
    → Text
    → StartWorld
    → Text
    → ℕ
    → EgressStart
    → List RecordingRow
    → Result (List RecordingRow × Bool)
start user session_id w id now answer rows = do
  organization_id ← start_checks user session_id w rows
  ok (
    start_finish id answer (rows ++ new_row id session_id organization_id now ∷ []),
    is_taken answer,
  )

abbrev pub is_stoppable : Text → Text → RecordingRow → Bool
is_stoppable organization_id session_id r =
    is_running session_id r && same r.organization_id organization_id

-- `stop`; `stopped` says whether LiveKit took the request, which is made for a row with an egress. Where
-- it did not, its exception is thrown on: `none`.
unfoldable pub stop :
    JwtPayload → Text → Bool → List RecordingRow → Result (Option (List RecordingRow))
stop user session_id stopped rows = do
  organization_id ← assert_staff user
  r ← or_throw (find_row (is_stoppable organization_id session_id) rows) not_found
  if is_some r.egress_id && not stopped
      then ok none
      else ok (some (update_row r.id to_processing rows))

-- What LiveKit reports of an egress that has ended.
pub record EgressResult : Type 0 where
  pub egress_id : Text
  pub complete : Bool
  pub size_bytes : Option ℕ
  pub duration_sec : Option ℕ
  pub error : Option Text

abbrev pub or_text : Option Text → Text → Text
or_text none t = t
or_text (some s) t = s

abbrev either : Option ℕ → Option ℕ → Option ℕ
either none n = n
either (some m) n = some m

abbrev pub to_ready : EgressResult → Option ℕ → ℕ → RecordingRow → RecordingRow
to_ready result measured now r = record {
  id = r.id;
  session_id = r.session_id;
  organization_id = r.organization_id;
  status = ready;
  egress_id = r.egress_id;
  storage_key = r.storage_key;
  size_bytes = either result.size_bytes (if is_some r.storage_key then measured else none);
  duration_sec = result.duration_sec;
  error = none;
  share_token = r.share_token;
  share_expires_at = r.share_expires_at;
  created_at = r.created_at;
  ready_at = some now;
}

abbrev pub livekit_failed : Text
livekit_failed = codes "LiveKit reported the recording failed"

abbrev pub has_egress : Text → RecordingRow → Bool
has_egress egress_id r = same_option r.egress_id (some egress_id)

-- What `storage.size` answers for an object, `null` if it is not there, or that it throws.
pub data Measured : Type 0 where
  size_throws size_null : Measured
  size_of : ℕ → Measured

abbrev pub bytes_or_null : Measured → Option ℕ
bytes_or_null size_throws = none
bytes_or_null size_null = none
bytes_or_null (size_of n) = some n

abbrev pub is_thrown : Measured → Bool
is_thrown size_throws = true
is_thrown size_null = false
is_thrown (size_of n) = false

-- `result.sizeBytes ?? (recording.storageKey ? await this.storage.size(…) : null)` throws.
abbrev pub size_fails : EgressResult → Measured → RecordingRow → Bool
size_fails result measured r =
    not (is_some result.size_bytes) && (is_some r.storage_key && is_thrown measured)

-- `applyEgressResult`; `measured` is what the storage answers on the object, if it is asked. Where it
-- throws, so does the method, before it has written.
unfoldable pub apply_egress_result :
    EgressResult → Measured → ℕ → List RecordingRow → List RecordingRow
apply_egress_result result measured now rows = elim (find_row (has_egress result.egress_id) rows) [
  | none ↦ rows
  | some r ↦
      if result.complete
      then (if size_fails result measured r
          then rows
          else update_row r.id (to_ready result (bytes_or_null measured) now) rows)
      else update_row r.id (to_failed (or_text result.error livekit_failed)) rows
]
