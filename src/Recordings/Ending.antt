-- ===== src/Recordings/Ending.antt =====
-- src/recordings/recordings-reconciler.service.ts (reconcile): one turn of the pass either changes nothing
-- or ends rows.
use livetich_api.Prelude.{
  is_some, ℕ, ltb, ◌-◌, ◌≡◌, ◌⊎◌, inl, inr, refl, Text, same, Bool, true, false, not, ◌||◌, Option,
  none, some, List, [], ◌∷◌, all, arith, Bool-cases, Option-cases,
}
use livetich_api.Recordings.{RecordingRow, update_row, find_row, to_failed}
use livetich_api.Recordings.Taking.{
  Measured, bytes_or_null, size_fails, is_thrown, EgressResult, to_ready, has_egress, or_text,
  livekit_failed, apply_egress_result,
}
use livetich_api.Recordings.Gallery.{key_of}
use livetich_api.Recordings.Reconciler.{
  World, Described, unreachable, no_record, unfinished, finished, is_unfinished, never_started,
  forgotten, abandon_ms, reconcile_one,
}

-- Every row of the id is ready or failed.
abbrev pub is_done : Text → List RecordingRow → Bool
is_done id rows = all (λ q. not (same q.id id) || not (is_unfinished q.status)) rows

-- What decides a stuck recording: it has no egress, LiveKit has forgotten it for six hours, or LiveKit
-- says that it has ended, and failed, or gives its size, or the storage does not throw on it.
abbrev pub is_decided : World → ℕ → RecordingRow → Bool
is_decided w now r = elim (key_of r.egress_id) [
  | none ↦ true
  | some e ↦ elim (w.describe e) [
    | unreachable ↦ false
    | no_record ↦ ltb abandon_ms (now - r.created_at)
    | unfinished ↦ false
    | finished complete size_bytes duration_sec error ↦
        not complete || (is_some size_bytes || not (is_thrown (w.measured e)))
  ]
]

-- The row that has the egress of this one has its id, as `@unique` and the primary key make it.
abbrev pub is_found : RecordingRow → List RecordingRow → Bool
is_found r rows = elim (key_of r.egress_id) [
  | none ↦ true
  | some e ↦ elim (find_row (has_egress e) rows) [ none ↦ false | some q ↦ same q.id r.id ]
]

-- Changes that end a row, and keep its id and its egress.
abbrev pub Ends : (RecordingRow → RecordingRow) → Type 0
Ends f =
    (r : RecordingRow)
    → (is_unfinished (f r).status ≡ false) × ((f r).id ≡ r.id) × ((f r).egress_id ≡ r.egress_id)

done-update_row :
    (id other : Text) (f : RecordingRow → RecordingRow) (rows : List RecordingRow)
    → Ends f
    → is_done id rows ≡ true
    → is_done id (update_row other f rows) ≡ true
unfolding update_row
done-update_row id other f [] k h = refl
done-update_row id other f (r ∷ rows) k h =
    ground (arith, h, k r, done-update_row id other f rows k (ground (arith, h)))

pub ended-update_row :
    (id : Text) (f : RecordingRow → RecordingRow) (rows : List RecordingRow)
    → Ends f
    → is_done id (update_row id f rows) ≡ true
unfolding update_row
ended-update_row id f [] k = refl
ended-update_row id f (r ∷ rows) k = ground (arith, k r, ended-update_row id f rows k)

found-update_row :
    (e id other : Text) (f : RecordingRow → RecordingRow) (rows : List RecordingRow)
    → Ends f
    → elim (find_row (has_egress e) rows) [ none ↦ false | some q ↦ same q.id id ] ≡ true
    → elim (find_row (has_egress e) (update_row other f rows)) [
      | none ↦ false
      | some q ↦ same q.id id
    ]
      ≡ true
unfolding update_row find_row
found-update_row e id other f [] k h = h
found-update_row e id other f (r ∷ rows) k h =
    ground (arith, h, k r, found-update_row e id other f rows k)

-- Rows that stay, or one update that ends rows.
abbrev pub Ended : List RecordingRow → List RecordingRow → Type 0
Ended rows next =
    (next ≡ rows)
    ⊎ ((id : Text) × ((f : RecordingRow → RecordingRow) × (Ends f × (next ≡ update_row id f rows))))

pub report-Ended :
    (result : EgressResult) (measured : Measured) (now : ℕ) (rows : List RecordingRow)
    → Ended rows (apply_egress_result result measured now rows)
unfolding apply_egress_result
report-Ended result measured now rows =
    elim (Option-cases (find_row (has_egress result.egress_id) rows)) [
      | inl a ↦ inl (ground (arith, a))
      | inr (r, a) ↦ elim (Bool-cases result.complete) [
        | inl e ↦ elim (Bool-cases (size_fails result measured r)) [
          | inl x ↦ inl (ground (arith, a, e, x))
          | inr x ↦ inr (
            r.id,
            (
              to_ready result (bytes_or_null measured) now,
              ((λ q. (refl, refl, refl)), ground (arith, a, e, x)),
            ),
          )
        ]
        | inr e ↦ inr (
          r.id,
          (
            to_failed (or_text result.error livekit_failed),
            ((λ q. (refl, refl, refl)), ground (arith, a, e)),
          ),
        )
      ]
    ]

-- What the pass reports of an egress that LiveKit says has ended.
abbrev pub result_of : Text → Bool → Option ℕ → Option ℕ → Option Text → EgressResult
result_of e complete size_bytes duration_sec error = record {
  egress_id = e;
  complete = complete;
  size_bytes = size_bytes;
  duration_sec = duration_sec;
  error = error;
}

pub one-Ended :
    (w : World) (now : ℕ) (r : RecordingRow) (rows : List RecordingRow)
    → Ended rows (reconcile_one w now r rows)
unfolding reconcile_one
one-Ended w now r rows = elim (Option-cases (key_of r.egress_id)) [
  | inl a ↦ inr (r.id, (to_failed never_started, ((λ q. (refl, refl, refl)), ground (arith, a))))
  | inr (e, a) ↦ go e (w.describe e) a refl
]
  where
    go :
        (e : Text) (d : Described)
        → key_of r.egress_id ≡ some e
        → w.describe e ≡ d
        → Ended rows (reconcile_one w now r rows)
    go e unreachable a b = inl (ground (arith, a, b))
    go e unfinished a b = inl (ground (arith, a, b))
    go e no_record a b = elim (Bool-cases (ltb abandon_ms (now - r.created_at))) [
      | inl c ↦
          inr (r.id, (to_failed forgotten, ((λ q. (refl, refl, refl)), ground (arith, a, b, c))))
      | inr c ↦ inl (ground (arith, a, b, c))
    ]
    go e (finished complete size_bytes duration_sec error) a b =
        let result = result_of e complete size_bytes duration_sec error in
        let at : reconcile_one w now r rows ≡ apply_egress_result result (w.measured e) now rows =
          ground (arith, a, b) in
        rw at (report-Ended result (w.measured e) now rows)

pub done-one :
    (id : Text) (w : World) (now : ℕ) (r : RecordingRow) (rows : List RecordingRow)
    → is_done id rows ≡ true
    → is_done id (reconcile_one w now r rows) ≡ true
done-one id w now r rows h = elim (one-Ended w now r rows) [
  | inl e ↦ rw e h
  | inr (other, (f, (k, e))) ↦ rw e (done-update_row id other f rows k h)
]

pub found-one :
    (q : RecordingRow) (w : World) (now : ℕ) (r : RecordingRow) (rows : List RecordingRow)
    → is_found q rows ≡ true
    → is_found q (reconcile_one w now r rows) ≡ true
found-one q w now r rows h = elim (Option-cases (key_of q.egress_id)) [
  | inl a ↦ ground (arith, a)
  | inr (e, a) ↦ elim (one-Ended w now r rows) [
    | inl b ↦ rw b h
    | inr (other, (f, (k, b))) ↦ rw b (go e other f a k (ground (arith, a, h)))
  ]
]
  where
    go :
        (e other : Text) (f : RecordingRow → RecordingRow)
        → key_of q.egress_id ≡ some e
        → Ends f
        → elim (find_row (has_egress e) rows) [ none ↦ false | some p ↦ same p.id q.id ] ≡ true
        → is_found q (update_row other f rows) ≡ true
    go e other f a k h = ground (arith, a, found-update_row e q.id other f rows k h)
