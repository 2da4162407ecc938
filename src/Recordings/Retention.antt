-- ===== src/Recordings/Retention.antt =====
-- src/recordings/recordings.service.ts (sweepExpiredRecordings): deleting recordings that have outlived
-- their workspace's window.
use livetich_api.Prelude.{
  ℕ, suc, ◌+◌, ◌-◌, ◌*◌, ltb, leb, max, if◌then◌else◌, Text, same, Bool, true, not, ◌&&◌, Option,
  none, some, List, [], ◌∷◌, ◌++◌, filter,
}
use livetich_api.Recordings.{is_active, RecordingRow, delete_row}
use livetich_api.Recordings.Gallery.{purge_stored_objects}
use livetich_api.Recordings.Reconciler.{first}

abbrev pub day_ms : ℕ
day_ms = 24 * 60 * 60 * 1000

-- `createdAt < now - days`, for the workspace's rows that are not being made.
abbrev pub is_expired : Text → ℕ → ℕ → RecordingRow → Bool
is_expired organization_id days now r =
    same r.organization_id organization_id
    && (ltb (r.created_at + days * day_ms) now && not (is_active r.status))

pub record Swept : Type 0 where
  pub rows : List RecordingRow
  pub deleted : ℕ
  -- The objects whose deletion was asked for, oldest first.
  pub purged : List Text

-- One turn of the inner loop; `deletes` says whether the database deletes the row of an id or throws.
unfoldable pub sweep_one : (Text → Bool) → RecordingRow → Swept → Swept
sweep_one deletes r s =
    if deletes r.id
    then record {
      rows = delete_row r.id s.rows;
      deleted = suc s.deleted;
      purged = s.purged ++ purge_stored_objects r;
    }
    else record { rows = s.rows; deleted = s.deleted; purged = s.purged ++ purge_stored_objects r }

unfoldable pub delete_each : (Text → Bool) → List RecordingRow → Swept → Swept
delete_each deletes [] s = s
delete_each deletes (r ∷ expired) s = delete_each deletes expired (sweep_one deletes r s)

-- One workspace: its window in days, where it has one.
unfoldable pub sweep_organization : (Text → Bool) → ℕ → ℕ → Text × Option ℕ → Swept → Swept
sweep_organization deletes limit now (organization_id, none) s = s
sweep_organization deletes limit now (organization_id, some days) s =
    if leb days 0
    then s
    else delete_each deletes
        (first (max 1 (limit - s.deleted)) (filter (is_expired organization_id days now) s.rows)) s

-- A workspace whose window is nothing is passed over before the test that ends the loop.
abbrev pub is_skipped : Option ℕ → Bool
is_skipped none = true
is_skipped (some days) = leb days 0

unfoldable pub sweep_organizations : (Text → Bool) → ℕ → ℕ → List (Text × Option ℕ) → Swept → Swept
sweep_organizations deletes limit now [] s = s
sweep_organizations deletes limit now (org ∷ orgs) s =
    let next = sweep_organization deletes limit now org s in
    let rest = sweep_organizations deletes limit now orgs next in
    if leb limit next.deleted && not (is_skipped org.1) then next else rest

unfoldable pub sweep_expired_recordings :
    (Text → Bool) → ℕ → ℕ → List (Text × Option ℕ) → List RecordingRow → Swept
sweep_expired_recordings deletes limit now orgs rows =
    sweep_organizations deletes limit now orgs (record { rows = rows; deleted = 0; purged = [] })
