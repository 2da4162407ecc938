-- ===== src/Board/Overlap.antt =====
-- src/board/board-doc.service.ts: what two snapshots that are written at once can lose.
use livetich_api.Prelude.{ℕ, ◌<◌, ◌≡◌, true, none, some, List, [], ◌∷◌, arith}
use livetich_api.Board.{
  Yjs, World, Event, joins, reads, leaves, ticks, updates, puts, retain, loaded, release,
  apply_update, flush_dirty, put_done, step, run,
}
use livetich_api.Board.Calm.{document}

module _ (y : Yjs) where
  open y use {Doc, Update, new_doc, apply_update_to, encode_state_as_update, apply-encode}

  -- The timer writes the state after `u`; then `v` is taken, and the last client leaves, which writes
  -- the state after both. If this write is answered first, the entry is clean and forgotten, and the
  -- older state is stored over it.
  abbrev pub overlapping : Update → Update → List (Event y)
  overlapping u v = updates u ∷ ticks ∷ updates v ∷ leaves ∷ puts 0 ∷ puts 0 ∷ []

  -- For every document that one client has open with nothing being written, and every two updates: the
  -- run loses the second one. What a client who joins would see is the document with the first alone.
  pub overlap_loses :
      (i : ℕ) (u v : Update) (w : World y)
      → w.board ≡ some i
      → (w.heap i).clients ≡ 1
      → w.flights ≡ []
      → ((run y (overlapping u v) w).board ≡ none)
        × ((run y (overlapping u v) w).flights ≡ [])
        × (document y (run y (overlapping u v) w) ≡ apply_update_to (document y w) u)
  unfolding run step release apply_update flush_dirty put_done
  overlap_loses i u v w b c f = ground (arith, apply-encode (apply_update_to (w.heap i).doc u))

  -- The last client leaves with edits to be written, comes back and leaves again while they are. The
  -- first answer forgets the entry; a client who then joins gets a new one, which the second answer
  -- forgets, although that client is still there and its edits are from then on refused.
  abbrev pub rejoining : List (Event y)
  rejoining = leaves ∷ joins ∷ leaves ∷ puts 1 ∷ joins ∷ reads ∷ puts 0 ∷ []

  pub rejoin_forgotten :
      (i : ℕ) (w : World y)
      → w.board ≡ some i
      → i < w.next
      → (w.heap i).clients ≡ 1
      → (w.heap i).dirty ≡ true
      → w.loading ≡ none
      → w.flights ≡ []
      → ((run y rejoining w).board ≡ none) × (((run y rejoining w).heap w.next).clients ≡ 1)
  unfolding run step retain loaded release put_done
  rejoin_forgotten i w b o c d l f = ground arith
