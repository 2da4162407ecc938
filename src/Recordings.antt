-- ===== src/Recordings.antt =====
-- src/recordings/recordings.service.ts: the rows of recordings and what requests and LiveKit's reports
-- do to them. Rows are a list in the order of creation; an update is by id. What LiveKit, the storage
-- and the configuration answer are arguments.
pub mod Taking
pub mod Gallery
pub mod Reconciler
pub mod Retention
pub mod Events
pub mod Writes
pub mod Passes
pub mod Plainly
pub mod States
pub mod Single
pub mod Starting
pub mod Calls
pub mod Sharing
pub mod Withdrawn
pub mod Sweeping
pub mod Untouched
pub mod Ending
pub mod Rescue
mod Tests
use livetich_api.Prelude.{
  ℕ, zero, suc, ◌+◌, ◌-◌, ◌*◌, ltb, leb, ◌==◌, if◌then◌else◌, Text, codes, same, same_option, Bool,
  true, false, not, ◌&&◌, ◌||◌, Option, none, some, List, [], ◌∷◌, ◌++◌, map, any, filter, is_some,
}
use livetich_api.Prelude.Results.{
  Result, ok, err, ◌>>=◌, ◌>>◌, demand, or_throw, bad_request, forbidden, not_found,
}
use livetich_api.Identity.{JwtPayload, is_student}

pub data RecordingStatus : Type 0 where
  starting recording processing ready failed : RecordingStatus

-- `STARTING` or `RECORDING`
abbrev pub is_active : RecordingStatus → Bool
is_active starting = true
is_active recording = true
is_active processing = false
is_active ready = false
is_active failed = false

abbrev pub is_ready : RecordingStatus → Bool
is_ready ready = true
is_ready starting = false
is_ready recording = false
is_ready processing = false
is_ready failed = false

-- A `Recording`; the course and who started it are left out.
pub record RecordingRow : Type 0 where
  pub id : Text
  pub session_id : Text
  pub organization_id : Text
  pub status : RecordingStatus
  pub egress_id : Option Text
  pub storage_key : Option Text
  pub size_bytes : Option ℕ
  pub duration_sec : Option ℕ
  pub error : Option Text
  pub share_token : Option Text
  pub share_expires_at : Option ℕ
  pub created_at : ℕ
  pub ready_at : Option ℕ

-- `update({ where: { id } })` on rows of which one at most has the id.
unfoldable pub update_row :
    Text → (RecordingRow → RecordingRow) → List RecordingRow → List RecordingRow
update_row id f [] = []
update_row id f (r ∷ rs) = (if same r.id id then f r else r) ∷ update_row id f rs

-- `delete({ where: { id } })`
unfoldable pub delete_row : Text → List RecordingRow → List RecordingRow
delete_row id rows = filter (λ r. not (same r.id id)) rows

-- `findFirst`
unfoldable pub find_row : (RecordingRow → Bool) → List RecordingRow → Option RecordingRow
find_row test [] = none
find_row test (r ∷ rs) = if test r then some r else find_row test rs

abbrev pub with_status : RecordingStatus → Option Text → RecordingRow → RecordingRow
with_status status error r = record {
  id = r.id;
  session_id = r.session_id;
  organization_id = r.organization_id;
  status = status;
  egress_id = r.egress_id;
  storage_key = r.storage_key;
  size_bytes = r.size_bytes;
  duration_sec = r.duration_sec;
  error = error;
  share_token = r.share_token;
  share_expires_at = r.share_expires_at;
  created_at = r.created_at;
  ready_at = r.ready_at;
}

abbrev pub to_processing : RecordingRow → RecordingRow
to_processing r = with_status processing r.error r

abbrev pub to_failed : Text → RecordingRow → RecordingRow
to_failed message r = with_status failed (some message) r

unfoldable pub assert_staff : JwtPayload → Result Text
assert_staff user = if is_student user.role then err forbidden else elim user.organization_id [
  | none ↦ err forbidden
  | some [] ↦ err forbidden
  | some (a ∷ o) ↦ ok (a ∷ o)
]
