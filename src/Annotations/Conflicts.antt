-- ===== src/Annotations/Conflicts.antt =====
-- src/tajweed/tajweed.service.ts: two edits of one version, and a creation that is sent twice.
use livetich_api.Prelude.{
  ◌<◌, ◌≤◌, ◌==◌, ◌≡◌, inl, inr, refl, same, true, ◌&&◌, Option, none, some, List, arith,
  Option-cases, Bool-cases,
}
use livetich_api.Prelude.Dict
use livetich_api.Prelude.Dict.{Dict, get-set, get-set_self}
use livetich_api.Prelude.Results.{ok, err, conflict}
use livetich_api.Annotations.{AnnotationRow}
use livetich_api.Annotations.Store.{Store, UpdateData, written, commit_update}
use livetich_api.Annotations.Versions.{Transaction, run, Keyed, set-Keyed, Evolves}
use livetich_api.Annotations.Locking.{empty, run-Keyed, empty-Keyed, run-Evolves, no_new}

-- Where no row of the id is left, or a later one, an edit of an old version is refused.
stale_lem :
    (edit : UpdateData) (s : Store) (before : Option AnnotationRow) (row : AnnotationRow)
    → before ≡ some row
    → edit.version < row.version
    → Evolves before (Dict.get edit.id s.rows)
    → commit_update edit s ≡ err conflict
unfolding Evolves commit_update
stale_lem edit s before row h v = go (Dict.get edit.id s.rows) refl
  where
    go :
        (found : Option AnnotationRow)
        → Dict.get edit.id s.rows ≡ found
        → Evolves before found
        → commit_update edit s ≡ err conflict
    go none e k = ground (arith, e)
    go (some now) e (old, (q, g)) = ground (arith, e, q, g, h, v)

kept_row :
    (edit : UpdateData) (s : Store) (saved : AnnotationRow × Store)
    → Keyed s.rows
    → commit_update edit s ≡ ok saved
    → (Dict.get edit.id saved.1.rows ≡ some saved.0)
      × (edit.version < saved.0.version)
      × Keyed saved.1.rows
unfolding commit_update written
kept_row edit s saved k h = elim (Option-cases (Dict.get edit.id s.rows)) [
  | inl a ↦ absurd (ground (arith, a, h))
  | inr (row, a) ↦
      elim (Bool-cases (same row.course_id edit.course_id && row.version == edit.version)) [
        | inl e ↦
            let own : row.id ≡ edit.id = k edit.id row a in
            let at : saved.0 ≡ written edit row = ground (arith, a, e, h) in
            let rows : saved.1.rows ≡ Dict.set row.id (written edit row) s.rows =
              ground (arith, a, e, h) in
            let there : Dict.get row.id saved.1.rows ≡ some saved.0 =
              rw (rows, at) (get-set_self row.id (written edit row) s.rows) in
            let grown : edit.version < saved.0.version = rw at (ground (arith, e)) in
            let keyed : Keyed saved.1.rows = rw rows (set-Keyed (written edit row) s.rows k) in
            (ground (arith, there, own), grown, keyed)
        | inr e ↦ absurd (ground (arith, a, e, h))
      ]
]

-- Of the edits of a mark that carry one version at most one lands: after it, whatever transactions
-- come between that do not create a mark under the same id anew, every further edit of that version
-- or an older one is refused as a conflict.
pub commit_update_once :
    (before between : List Transaction) (first second : UpdateData) (saved : AnnotationRow × Store)
    → commit_update first (run before empty) ≡ ok saved
    → second.id ≡ first.id
    → second.version ≤ first.version
    → no_new first.id between ≡ true
    → commit_update second (run between saved.1) ≡ err conflict
commit_update_once before between first second saved landed same_id old none_new =
    let (there, grown, keyed) =
      kept_row first (run before empty) saved (run-Keyed before empty empty-Keyed) landed in
    let later = run-Evolves first.id between saved.1 keyed none_new in
    stale_lem second (run between saved.1) (Dict.get first.id saved.1.rows) saved.0 there
      (omega (arith, grown, old)) (rw same_id later)
