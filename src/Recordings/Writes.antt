-- ===== src/Recordings/Writes.antt =====
-- src/recordings/recordings.service.ts, src/recordings/recordings-reconciler.service.ts: every event
-- taken apart into writes of single rows, so that what each write keeps is kept by all of them.
use livetich_api.Prelude.{
  is_some, ℕ, ◌≡◌, inl, inr, refl, Text, Bool, true, false, not, ◌&&◌, Option, List, [], ◌∷◌, ◌++◌,
  all, is_some, arith, Bool-cases, Option-cases,
}
use livetich_api.Recordings.{
  RecordingRow, update_row, delete_row, find_row, to_processing, to_failed,
}
use livetich_api.Recordings.Taking.{
  Measured, bytes_or_null, size_fails, new_row, to_recording, EgressResult, to_ready, has_egress,
  or_text, livekit_failed, apply_egress_result,
}
use livetich_api.Recordings.Gallery.{with_share}

pub data Write : Type 0 where
  creates : Text → Text → Text → ℕ → Write
  records : Text → Text → Write
  processes : Text → Write
  fails : Text → Text → Write
  readies : Text → EgressResult → Option ℕ → ℕ → Write
  shares : Text → Option Text → Option ℕ → Write
  drops : Text → Write

unfoldable pub write : Write → List RecordingRow → List RecordingRow
write (creates id session_id organization_id now) rows =
    rows ++ new_row id session_id organization_id now ∷ []
write (records id egress_id) rows = update_row id (to_recording egress_id) rows
write (processes id) rows = update_row id to_processing rows
write (fails id message) rows = update_row id (to_failed message) rows
write (readies id result measured now) rows = update_row id (to_ready result measured now) rows
write (shares id token expires_at) rows = update_row id (with_share token expires_at) rows
write (drops id) rows = delete_row id rows

unfoldable pub write_all : List Write → List RecordingRow → List RecordingRow
write_all [] rows = rows
write_all (w ∷ ws) rows = write_all ws (write w rows)

-- Neither a creation, nor a start, nor a new link.
abbrev pub is_plain : Write → Bool
is_plain (creates id session_id organization_id now) = false
is_plain (records id egress_id) = false
is_plain (processes id) = true
is_plain (fails id message) = true
is_plain (readies id result measured now) = true
is_plain (shares id token expires_at) = not (is_some token)
is_plain (drops id) = true

-- The second list comes of the first by plain writes.
abbrev pub Plain : List RecordingRow → List RecordingRow → Type 0
Plain rows next = (ws : List Write) × ((all is_plain ws ≡ true) × (next ≡ write_all ws rows))

pub write_all-append :
    (ws vs : List Write) (rows : List RecordingRow)
    → write_all (ws ++ vs) rows ≡ write_all vs (write_all ws rows)
unfolding write_all
write_all-append [] vs rows = refl
write_all-append (w ∷ ws) vs rows = write_all-append ws vs (write w rows)

all-append : (ws vs : List Write) → all is_plain (ws ++ vs) ≡ (all is_plain ws && all is_plain vs)
all-append [] vs = refl
all-append (w ∷ ws) vs = ground (arith, all-append ws vs)

pub Plain-refl : (rows next : List RecordingRow) → next ≡ rows → Plain rows next
unfolding write_all
Plain-refl rows next e = ([], (refl, e))

pub Plain-trans : (a b c : List RecordingRow) → Plain a b → Plain b c → Plain a c
Plain-trans a b c (ws, (p, e)) (vs, (q, f)) = (
  ws ++ vs,
  (ground (arith, all-append ws vs, p, q), ground (arith, write_all-append ws vs a, e, f)),
)

pub Plain-one :
    (w : Write) (rows next : List RecordingRow)
    → is_plain w ≡ true
    → next ≡ write w rows
    → Plain rows next
unfolding write_all
Plain-one w rows next p e = (w ∷ [], (ground (arith, p), e))

pub apply_egress_result-Plain :
    (result : EgressResult) (measured : Measured) (now : ℕ) (rows : List RecordingRow)
    → Plain rows (apply_egress_result result measured now rows)
unfolding apply_egress_result write
apply_egress_result-Plain result measured now rows =
    let next = apply_egress_result result measured now rows in
    elim (Option-cases (find_row (has_egress result.egress_id) rows)) [
      | inl a ↦ Plain-refl rows next (ground (arith, a))
      | inr (r, a) ↦ elim (Bool-cases result.complete) [
        | inl e ↦ elim (Bool-cases (size_fails result measured r)) [
          | inl x ↦ Plain-refl rows next (ground (arith, a, e, x))
          | inr x ↦
              Plain-one (readies r.id result (bytes_or_null measured) now) rows next refl
                (ground (arith, a, e, x))
        ]
        | inr e ↦
            Plain-one (fails r.id (or_text result.error livekit_failed)) rows next refl
              (ground (arith, a, e))
      ]
    ]
