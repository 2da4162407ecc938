-- ===== src/Recordings/Sweeping.antt =====
-- src/recordings/recordings.service.ts (sweepExpiredRecordings): how much a sweep deletes, and what it
-- never touches.
use livetich_api.Prelude.{
  ℕ, zero, suc, ◌+◌, ◌-◌, ◌≤◌, ◌≡◌, max, inl, inr, refl, leb, Text, Bool, true, not, ◌&&◌, Option,
  none, some, List, [], ◌∷◌, filter, length, arith, Bool-cases,
}
use livetich_api.Recordings.{RecordingRow}
use livetich_api.Recordings.Reconciler.{first}
use livetich_api.Recordings.Retention.{
  Swept, sweep_one, is_expired, delete_each, sweep_organization, sweep_organizations, is_skipped,
  sweep_expired_recordings,
}

length-first {ℓ} : {A : Type ℓ} (n : ℕ) (xs : List A) → length (first n xs) ≤ n
unfolding first
length-first zero xs = ground arith
length-first (suc n) [] = ground arith
length-first (suc n) (x ∷ xs) = omega (arith, length-first n xs)

deleted-sweep_one :
    (deletes : Text → Bool) (r : RecordingRow) (s : Swept)
    → (sweep_one deletes r s).deleted ≤ suc s.deleted
unfolding sweep_one
deleted-sweep_one deletes r s = ground arith

deleted-delete_each :
    (deletes : Text → Bool) (expired : List RecordingRow) (s : Swept)
    → (delete_each deletes expired s).deleted ≤ s.deleted + length expired
unfolding delete_each
deleted-delete_each deletes [] s = omega arith
deleted-delete_each deletes (r ∷ expired) s = omega (
  arith,
  deleted-sweep_one deletes r s,
  deleted-delete_each deletes expired (sweep_one deletes r s),
)

deleted-sweep_organization :
    (deletes : Text → Bool) (limit now : ℕ) (org : Text × Option ℕ) (s : Swept)
    → (sweep_organization deletes limit now org s).deleted ≤ s.deleted + max 1 (limit - s.deleted)
unfolding sweep_organization
deleted-sweep_organization deletes limit now (id, none) s = omega arith
deleted-sweep_organization deletes limit now (id, some days) s =
    let n = max 1 (limit - s.deleted) in
    let expired = filter (is_expired id days now) s.rows in
    elim (Bool-cases (leb days 0)) [
      | inl e ↦ rw e (omega arith)
      | inr e ↦
          rw e
            (omega (arith, deleted-delete_each deletes (first n expired) s, length-first n expired))
    ]

skipped_lem :
    (deletes : Text → Bool) (limit now : ℕ) (org : Text × Option ℕ) (s : Swept)
    → is_skipped org.1 ≡ true
    → sweep_organization deletes limit now org s ≡ s
unfolding sweep_organization
skipped_lem deletes limit now (id, none) s h = refl
skipped_lem deletes limit now (id, some days) s h = ground (arith, h)

deleted-sweep_organizations :
    (deletes : Text → Bool) (limit now : ℕ) (orgs : List (Text × Option ℕ)) (s : Swept)
    → suc s.deleted ≤ limit
    → (sweep_organizations deletes limit now orgs s).deleted ≤ limit
unfolding sweep_organizations
deleted-sweep_organizations deletes limit now [] s h = omega (arith, h)
deleted-sweep_organizations deletes limit now (org ∷ orgs) s h =
    let next = sweep_organization deletes limit now org s in
    let one = deleted-sweep_organization deletes limit now org s in
    elim (Bool-cases (leb limit next.deleted && not (is_skipped org.1))) [
      | inl e ↦ rw e (omega (arith, one, h))
      | inr e ↦ rw e (
          deleted-sweep_organizations deletes limit now orgs next
            (elim (Bool-cases (is_skipped org.1)) [
              | inl k ↦ rw (skipped_lem deletes limit now org s k) h
              | inr k ↦ ground (arith, e, k)
            ]))
    ]

-- A sweep whose limit is at least one deletes no more recordings than its limit.
pub deleted-sweep_expired_recordings :
    (deletes : Text → Bool) (limit now : ℕ) (orgs : List (Text × Option ℕ))
    (rows : List RecordingRow)
    → 1 ≤ limit
    → (sweep_expired_recordings deletes limit now orgs rows).deleted ≤ limit
unfolding sweep_expired_recordings
deleted-sweep_expired_recordings deletes limit now orgs rows h =
    deleted-sweep_organizations deletes limit now orgs
      (record { rows = rows; deleted = 0; purged = [] }) h
