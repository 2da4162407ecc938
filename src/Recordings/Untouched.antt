-- ===== src/Recordings/Untouched.antt =====
-- src/recordings/recordings.service.ts (sweepExpiredRecordings): the rows that a sweep never touches.
use livetich_api.Prelude.{
  ℕ, zero, suc, ◌+◌, ◌*◌, ◌-◌, ◌≡◌, ◌⊎◌, max, true, ltb, inl, inr, refl, ◌∙◌, leb, Text, same,
  same_iff, Bool, false, not, ◌&&◌, ◌||◌, Option, none, some, List, [], ◌∷◌, any, filter, arith,
  Bool-cases,
}
use livetich_api.Recordings.{
  RecordingRow, RecordingStatus, starting, recording, processing, ready, failed, is_active,
  delete_row,
}
use livetich_api.Recordings.Reconciler.{first}
use livetich_api.Recordings.Retention.{
  Swept, sweep_one, is_expired, delete_each, sweep_organization, sweep_organizations, is_skipped,
  sweep_expired_recordings,
}

-- Whether nothing is left to be recorded: the recording is neither starting nor running.
abbrev pub is_over : RecordingStatus → Bool
is_over starting = false
is_over recording = false
is_over processing = true
is_over ready = true
is_over failed = true

-- Whether a row is one of a workspace of these whose window, of at least a day, was over before now, and
-- its recording is neither starting nor running. A row that is still processed may be one.
abbrev pub has_outlived : ℕ → List (Text × Option ℕ) → RecordingRow → Bool
has_outlived now [] r = false
has_outlived now ((id, none) ∷ orgs) r = has_outlived now orgs r
has_outlived now ((id, some days) ∷ orgs) r =
    (leb 1 days
      && (same id r.organization_id
          && (ltb (days * 86400000 + r.created_at) now && is_over r.status)))
    || has_outlived now orgs r

status_lem :
    (s : RecordingStatus)
    → ((is_over s ≡ true) × (is_active s ≡ false)) ⊎ ((is_over s ≡ false) × (is_active s ≡ true))
status_lem starting = inr (refl, refl)
status_lem recording = inr (refl, refl)
status_lem processing = inl (refl, refl)
status_lem ready = inl (refl, refl)
status_lem failed = inl (refl, refl)

is_expired-has_outlived :
    (o : Text) (days now : ℕ) (r : RecordingRow)
    → leb days 0 ≡ false
    → has_outlived now ((o, some days) ∷ []) r ≡ false
    → is_expired o days now r ≡ false
is_expired-has_outlived o days now r e h = elim (status_lem r.status) [
  | inl s ↦ ground (arith, e, h, s, same_iff o r.organization_id, same_iff r.organization_id o)
  | inr s ↦ ground (arith, e, h, s, same_iff o r.organization_id, same_iff r.organization_id o)
]

-- The rows of one id.
abbrev pub of_id : Text → List RecordingRow → List RecordingRow
of_id id rows = filter (λ r. same r.id id) rows

of_id-delete_row :
    (id gone : Text) (rows : List RecordingRow)
    → same gone id ≡ false
    → of_id id (delete_row gone rows) ≡ of_id id rows
unfolding delete_row
of_id-delete_row id gone [] h = refl
of_id-delete_row id gone (r ∷ rows) h = ground (
  arith,
  h,
  same_iff r.id gone,
  same_iff r.id id,
  same_iff gone id,
  of_id-delete_row id gone rows h,
)

of_id-sweep_one :
    (deletes : Text → Bool) (id : Text) (r : RecordingRow) (s : Swept)
    → same r.id id ≡ false
    → of_id id (sweep_one deletes r s).rows ≡ of_id id s.rows
unfolding sweep_one
of_id-sweep_one deletes id r s h = elim (Bool-cases (deletes r.id)) [
  | inl e ↦ rw e (of_id-delete_row id r.id s.rows h)
  | inr e ↦ rw e refl
]

of_id-delete_each :
    (deletes : Text → Bool) (id : Text) (expired : List RecordingRow) (s : Swept)
    → any (λ r. same r.id id) expired ≡ false
    → of_id id (delete_each deletes expired s).rows ≡ of_id id s.rows
unfolding delete_each
of_id-delete_each deletes id [] s h = refl
of_id-delete_each deletes id (r ∷ expired) s h =
    of_id-delete_each deletes id expired (sweep_one deletes r s) (ground (arith, h))
    ∙ of_id-sweep_one deletes id r s (ground (arith, h))

none-first :
    (p : RecordingRow → Bool) (n : ℕ) (xs : List RecordingRow)
    → any p xs ≡ false
    → any p (first n xs) ≡ false
unfolding first
none-first p zero xs h = refl
none-first p (suc n) [] h = refl
none-first p (suc n) (x ∷ xs) h = ground (arith, h, none-first p n xs (ground (arith, h)))

-- A row of the id that passes the test is one among the rows of the id.
none-filter :
    (p : RecordingRow → Bool) (id : Text) (xs : List RecordingRow)
    → any p (of_id id xs) ≡ false
    → any (λ r. same r.id id) (filter p xs) ≡ false
none-filter p id [] h = refl
none-filter p id (x ∷ xs) h = elim (Bool-cases (same x.id id)) [
  | inl e ↦ ground (arith, e, h, none-filter p id xs (ground (arith, e, h)))
  | inr e ↦ ground (arith, e, h, none-filter p id xs (ground (arith, e, h)))
]

without :
    (o : Text) (days now : ℕ) (rows : List RecordingRow)
    → leb days 0 ≡ false
    → any (has_outlived now ((o, some days) ∷ [])) rows ≡ false
    → any (is_expired o days now) rows ≡ false
without o days now [] e h = refl
without o days now (r ∷ rows) e h = ground (
  arith,
  h,
  is_expired-has_outlived o days now r e (ground (arith, h)),
  without o days now rows e (ground (arith, h)),
)

of_id-sweep_organization :
    (deletes : Text → Bool) (limit now : ℕ) (org : Text × Option ℕ) (id : Text) (s : Swept)
    → any (has_outlived now (org ∷ [])) (of_id id s.rows) ≡ false
    → of_id id (sweep_organization deletes limit now org s).rows ≡ of_id id s.rows
unfolding sweep_organization
of_id-sweep_organization deletes limit now (o, none) id s h = refl
of_id-sweep_organization deletes limit now (o, some days) id s h = elim (Bool-cases (leb days 0)) [
  | inl e ↦ rw e refl
  | inr e ↦
      let n = max 1 (limit - s.deleted) in
      let test = is_expired o days now in
      let none_here : any test (of_id id s.rows) ≡ false =
        without o days now (of_id id s.rows) e h in
      let none_there = none-filter test id s.rows none_here in
      rw e (
        of_id-delete_each deletes id (first n (filter test s.rows)) s
          (none-first (λ r. same r.id id) n (filter test s.rows) none_there))
]

split_orgs :
    (now : ℕ) (org : Text × Option ℕ) (orgs : List (Text × Option ℕ)) (rows : List RecordingRow)
    → any (has_outlived now (org ∷ orgs)) rows ≡ false
    → (any (has_outlived now (org ∷ [])) rows ≡ false) × (any (has_outlived now orgs) rows ≡ false)
split_orgs now org orgs [] h = (refl, refl)
split_orgs now (o, none) orgs (r ∷ rows) h =
    ground (arith, h, split_orgs now (o, none) orgs rows (ground (arith, h)))
split_orgs now (o, some days) orgs (r ∷ rows) h =
    ground (arith, h, split_orgs now (o, some days) orgs rows (ground (arith, h)))

of_id-sweep_organizations :
    (deletes : Text → Bool) (limit now : ℕ) (orgs : List (Text × Option ℕ)) (id : Text) (s : Swept)
    → any (has_outlived now orgs) (of_id id s.rows) ≡ false
    → of_id id (sweep_organizations deletes limit now orgs s).rows ≡ of_id id s.rows
unfolding sweep_organizations
of_id-sweep_organizations deletes limit now [] id s h = refl
of_id-sweep_organizations deletes limit now (org ∷ orgs) id s h =
    let next = sweep_organization deletes limit now org s in
    let (first_ok, rest_ok) = split_orgs now org orgs (of_id id s.rows) h in
    let one : of_id id next.rows ≡ of_id id s.rows =
      of_id-sweep_organization deletes limit now org id s first_ok in
    elim (Bool-cases (leb limit next.deleted && not (is_skipped org.1))) [
      | inl e ↦ rw e one
      | inr e ↦
          rw e (of_id-sweep_organizations deletes limit now orgs id next (rw one rest_ok) ∙ one)
    ]

-- A sweep leaves the rows of an id as they are where none of them is of a workspace of the list whose
-- window, of at least a day, was over before now and is of a recording that is neither starting nor
-- running.
pub of_id-sweep_expired_recordings :
    (deletes : Text → Bool) (limit now : ℕ) (orgs : List (Text × Option ℕ)) (id : Text)
    (rows : List RecordingRow)
    → any (has_outlived now orgs) (of_id id rows) ≡ false
    → of_id id (sweep_expired_recordings deletes limit now orgs rows).rows ≡ of_id id rows
unfolding sweep_expired_recordings
of_id-sweep_expired_recordings deletes limit now orgs id rows h =
    of_id-sweep_organizations deletes limit now orgs id
      (record { rows = rows; deleted = 0; purged = [] }) h
