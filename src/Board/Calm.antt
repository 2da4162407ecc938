-- ===== src/Board/Calm.antt =====
-- src/board/board-doc.service.ts: while no two snapshots are written at once, nothing is lost.
use livetich_api.Prelude.{
  ℕ, zero, suc, ◌≤◌, ◌<◌, ◌≡◌, ◌⊎◌, refl, ◌∙◌, ap, true, Option, none, some, List, [], ◌∷◌, length,
  arith,
}
use livetich_api.Board.{
  Yjs, BoardEntry, Flight, World, Event, joins, reads, read_fails, leaves, ticks, updates, puts,
  put_fails, restore, retain, loaded, load_failed, release, apply_update, flush_dirty, put_done,
  put_failed, step, run,
}

module _ (y : Yjs) where
  open y use {Doc, Update, new_doc, apply_update_to, encode_state_as_update, apply-encode}

  -- The document that a client who joins would see: the one in memory, or else the stored snapshot.
  abbrev pub document : World y → Doc
  document w = elim w.board [ none ↦ restore y w.stored | some i ↦ (w.heap i).doc ]

  -- A flight is of the entry in memory, and either took the document that is there or finds that it
  -- has gone on.
  abbrev pub FlightFits : BoardEntry y → ℕ → Flight y → Type 0
  FlightFits e i f =
      (f.entry ≡ i)
      × (e.dirty ≡ true)
      × (((f.revision ≡ e.revision) × (f.snapshot ≡ encode_state_as_update e.doc))
          ⊎ (f.revision < e.revision))

  abbrev pub FlightsFit : BoardEntry y → ℕ → List (Flight y) → Type 0
  FlightsFit e i [] = Unit {0}
  FlightsFit e i (f ∷ fs) = FlightFits e i f × (fs ≡ [])

  -- The entry in memory is dirty or as it is stored.
  abbrev pub EntryFits : Option Update → List (Flight y) → ℕ → BoardEntry y → Type 0
  EntryFits stored flights i e =
      ((e.dirty ≡ true) ⊎ (e.doc ≡ restore y stored)) × FlightsFit e i flights

  abbrev pub BoardFits :
      (ℕ → BoardEntry y) → Option Update → Option ℕ → Option ℕ → List (Flight y) → Type 0
  BoardFits heap stored none loading flights = flights ≡ []
  BoardFits heap stored (some i) loading flights =
      (loading ≡ none) × EntryFits stored flights i (heap i)

  abbrev pub Fits : World y → Type 0
  Fits w = BoardFits w.heap w.stored w.board w.loading w.flights

  -- What an event does to the document: an update that is taken is applied, and nothing else counts.
  abbrev pub spec : Event y → Option ℕ → Doc → Doc
  spec joins b d = d
  spec reads b d = d
  spec read_fails b d = d
  spec leaves b d = d
  spec ticks b d = d
  spec (updates u) none d = d
  spec (updates u) (some i) d = apply_update_to d u
  spec (puts k) b d = d
  spec (put_fails k) b d = d

  put_failed_lem :
      (k : ℕ) (w : World y)
      → Fits w
      → Fits (put_failed y k w) × (document (put_failed y k w) ≡ document w)
  unfolding put_failed
  put_failed_lem zero w h = ground arith
  put_failed_lem (suc k) w h = ground arith

  put_done-first :
      (f : Flight y) (fs : List (Flight y)) (w : World y)
      → w.flights ≡ f ∷ fs
      → Fits w
      → Fits (put_done y 0 w) × (document (put_done y 0 w) ≡ document w)
  unfolding put_done
  put_done-first f fs w e h = ground (arith, apply-encode (w.heap f.entry).doc)

  put_done_lem :
      (k : ℕ) (fs : List (Flight y)) (w : World y)
      → w.flights ≡ fs
      → Fits w
      → Fits (put_done y k w) × (document (put_done y k w) ≡ document w)
  unfolding put_done
  put_done_lem k [] w e h = ground arith
  put_done_lem zero (f ∷ fs) w e h = put_done-first f fs w e h
  put_done_lem (suc k) (f ∷ fs) w e h = ground arith

  step_lem :
      (e : Event y) (w : World y)
      → Fits w
      → length (step y e w).flights ≤ 1
      → Fits (step y e w) × (document (step y e w) ≡ spec e w.board (document w))
  unfolding step retain loaded load_failed release apply_update flush_dirty
  step_lem joins w h n = ground arith
  step_lem reads w h n = ground arith
  step_lem read_fails w h n = ground arith
  step_lem leaves w h n = ground arith
  step_lem ticks w h n = ground arith
  step_lem (updates u) w h n = ground arith
  step_lem (puts k) w h n = put_done_lem k w.flights w refl h
  step_lem (put_fails k) w h n = put_failed_lem k w h

  -- At no time are two snapshots being written.
  abbrev pub OneFlight : List (Event y) → World y → Type 0
  OneFlight [] w = Unit {0}
  OneFlight (e ∷ es) w = (length (step y e w).flights ≤ 1) × OneFlight es (step y e w)

  -- The updates that are taken, in order, applied to a document.
  unfoldable pub edited : List (Event y) → World y → Doc → Doc
  edited [] w d = d
  edited (e ∷ es) w d = edited es (step y e w) (spec e w.board d)

  -- While no two snapshots are written at once, nothing is lost: however clients join, edit and leave,
  -- the timer ticks, and writes and reads succeed or fail, what a client who joins would see is what it
  -- was with every update that was taken since.
  pub run-edited :
      (es : List (Event y)) (w : World y)
      → Fits w
      → OneFlight es w
      → Fits (run y es w) × (document (run y es w) ≡ edited es w (document w))
  unfolding run edited
  run-edited [] w h n = (h, refl)
  run-edited (e ∷ es) w h (one, n) =
      let (fits, same) = step_lem e w h one in
      let (rest, all_same) = run-edited es (step y e w) fits n in
      (rest, all_same ∙ ap (edited es (step y e w)) same)
