-- ===== src/Recordings/Gallery.antt =====
-- src/recordings/recordings.service.ts: playing, sharing and deleting recordings.
use livetich_api.Prelude.{
  ℕ, ◌+◌, ◌*◌, ltb, if◌then◌else◌, Text, same, same_option, Bool, false, not, ◌&&◌, Option, none,
  some, List, [], ◌∷◌, ◌++◌, any,
}
use livetich_api.Prelude.Results.{Result, ok, ◌>>=◌, ◌>>◌, demand, or_throw, bad_request, not_found}
use livetich_api.Identity.{JwtPayload}
use livetich_api.Recordings.{
  is_active, is_ready, RecordingRow, update_row, delete_row, find_row, assert_staff,
}
use livetich_api.Recordings.Taking.{legacy_manifest_key}

abbrev pub is_here : Text → Text → RecordingRow → Bool
is_here organization_id id r = same r.id id && same r.organization_id organization_id

abbrev pub key_of : Option Text → Option Text
key_of none = none
key_of (some []) = none
key_of (some (a ∷ s)) = some (a ∷ s)

abbrev or_nothing : Option RecordingRow → Option Text
or_nothing none = none
or_nothing (some r) = if is_ready r.status then key_of r.storage_key else none

-- The object that `playbackUrl` and `downloadUrl` sign.
unfoldable pub playable_key : JwtPayload → Text → List RecordingRow → Result Text
playable_key user id rows = do
  organization_id ← assert_staff user
  or_throw (or_nothing (find_row (is_here organization_id id) rows)) not_found

abbrev pub with_share : Option Text → Option ℕ → RecordingRow → RecordingRow
with_share token expires_at r = record {
  id = r.id;
  session_id = r.session_id;
  organization_id = r.organization_id;
  status = r.status;
  egress_id = r.egress_id;
  storage_key = r.storage_key;
  size_bytes = r.size_bytes;
  duration_sec = r.duration_sec;
  error = r.error;
  share_token = token;
  share_expires_at = expires_at;
  created_at = r.created_at;
  ready_at = r.ready_at;
}

abbrev pub expiry : Option ℕ → ℕ → Option ℕ
expiry none now = none
expiry (some days) now = some (now + days * 86400000)

-- `token` is what `randomBytes` gives.
unfoldable pub share :
    JwtPayload → Text → Option ℕ → Text → ℕ → List RecordingRow → Result (List RecordingRow)
share user id expires_in_days token now rows = do
  organization_id ← assert_staff user
  r ← or_throw (find_row (is_here organization_id id) rows) not_found
  demand (is_ready r.status) bad_request
  ok (update_row id (with_share (some token) (expiry expires_in_days now)) rows)

unfoldable pub unshare : JwtPayload → Text → List RecordingRow → Result (List RecordingRow)
unshare user id rows = do
  organization_id ← assert_staff user
  demand (any (is_here organization_id id) rows) not_found
  ok (update_row id (with_share none none) rows)

abbrev pub has_token : Text → RecordingRow → Bool
has_token token r = same_option r.share_token (some token)

abbrev pub is_expired : Option ℕ → ℕ → Bool
is_expired none now = false
is_expired (some at) now = ltb at now

-- Where a share link leads: the recording and its object.
unfoldable pub by_shared_token : Text → ℕ → List RecordingRow → Result (RecordingRow × Text)
by_shared_token token now rows = do
  r ← or_throw (find_row (has_token token) rows) not_found
  key ← or_throw (or_nothing (some r)) not_found
  demand (not (is_expired r.share_expires_at now)) not_found
  ok (r, key)

abbrev listed_key : Option Text → List Text
listed_key none = []
listed_key (some key) = key ∷ []

abbrev manifest_of : Text → Option Text → List Text
manifest_of organization_id none = []
manifest_of organization_id (some egress_id) = legacy_manifest_key organization_id egress_id ∷ []

-- `purgeStoredObjects`: the objects whose deletion is asked for; a failure there is swallowed.
unfoldable pub purge_stored_objects : RecordingRow → List Text
purge_stored_objects r =
    listed_key (key_of r.storage_key) ++ manifest_of r.organization_id (key_of r.egress_id)

-- `remove`, with the objects that it deletes before the row.
unfoldable pub remove :
    JwtPayload → Text → List RecordingRow → Result (List RecordingRow × List Text)
remove user id rows = do
  organization_id ← assert_staff user
  r ← or_throw (find_row (is_here organization_id id) rows) not_found
  demand (not (is_active r.status)) bad_request
  ok (delete_row id rows, purge_stored_objects r)
