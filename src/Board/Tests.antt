-- ===== src/Board/Tests.antt =====
-- Boards whose document is the list of the numbers written on it, and the theorems at concrete runs.
use livetich_api.Prelude.{ℕ, ◌≡◌, refl, true, false, some, List, [], ◌∷◌, ◌++◌, arith}
use livetich_api.Board.{
  Yjs, BoardEntry, World, Event, joins, reads, leaves, ticks, updates, puts, put_fails, empty_world,
  run, step, retain, loaded, release, apply_update, flush_dirty, put_done, put_failed,
}
use livetich_api.Board.Calm.{document, Fits, edited, run-edited}

abbrev numbers : Yjs
numbers = record {
  Doc = List ℕ;
  Update = List ℕ;
  new_doc = [];
  apply_update_to = λ d u. d ++ u;
  encode_state_as_update = λ d. d;
  apply-encode = λ d. refl;
}

abbrev blank : BoardEntry numbers
blank = record { doc = []; dirty = false; clients = 0; revision = 0 }

-- A client opens the board and writes twice, the second time while the first is being stored; a write
-- fails, and the client leaves.
abbrev lesson : List (Event numbers)
lesson =
    joins
    ∷ reads
    ∷ updates (1 ∷ [])
    ∷ ticks
    ∷ updates (2 ∷ [])
    ∷ puts 0
    ∷ ticks
    ∷ put_fails 0
    ∷ leaves
    ∷ puts 0
    ∷ []

run-edited_example :
    Fits numbers (run numbers lesson (empty_world numbers blank))
    × (document numbers (run numbers lesson (empty_world numbers blank))
        ≡ edited numbers lesson (empty_world numbers blank) [])
unfolding step retain loaded release apply_update flush_dirty put_done put_failed
run-edited_example = run-edited numbers lesson (empty_world numbers blank) refl (omega arith)

lesson_is_kept : document numbers (run numbers lesson (empty_world numbers blank)) ≡ 1 ∷ 2 ∷ []
unfolding run step retain loaded release apply_update flush_dirty put_done put_failed
lesson_is_kept = refl

abbrev open_board : World numbers
open_board = record (empty_world numbers blank) {
  heap = λ i. record { doc = 7 ∷ []; dirty = true; clients = 1; revision = 1 };
  next = 1;
  board = some 0;
}
