-- ===== src/Annotations/Versions.antt =====
-- src/tajweed/tajweed.service.ts: edits of one mark by several people, whatever transactions come
-- between.
use livetich_api.Prelude.{
  ℕ, suc, ◌≤◌, ◌==◌, ◌≡◌, inl, inr, refl, Text, same, same_iff, Bool, false, not, ◌&&◌, Option,
  none, some, List, [], ◌∷◌, is_some, arith, Option-cases, Bool-cases,
}
use livetich_api.Prelude.Dict
use livetich_api.Prelude.Dict.{Dict, get-set, get-delete}
use livetich_api.Prelude.Results.{Result, ok, err}
use livetich_api.Identity.{JwtPayload}
use livetich_api.Annotations.{AnnotationRow, revision, created, updated, deleted}
use livetich_api.Annotations.Store.{
  with_revision, Store, Saved, UpdateData, written, linked_row, insert_or_replay, commit_update,
  commit_remove, commit_link,
}

-- The transactions of the service.
pub data Transaction : Type 0 where
  insert : JwtPayload → Text → AnnotationRow → Transaction
  change : UpdateData → Transaction
  take_out : AnnotationRow → JwtPayload → Transaction
  link : Text → Text → Text → ℕ → Transaction

abbrev stored_or : Store → Result Saved → Store
stored_or s (ok saved) = saved.store
stored_or s (err e) = s

abbrev written_or : Store → Result (AnnotationRow × Store) → Store
written_or s (ok saved) = saved.1
written_or s (err e) = s

abbrev left_or : Store → Option Store → Store
left_or s (some next) = next
left_or s none = s

-- A transaction that fails writes nothing.
unfoldable pub run_one : Transaction → Store → Store
run_one (insert user course_id row) s = stored_or s (insert_or_replay user course_id row s)
run_one (change edit) s = written_or s (commit_update edit s)
run_one (take_out row user) s = left_or s (commit_remove row user s)
run_one (link entry_id by id version) s = left_or s (commit_link entry_id by id version s)

unfoldable pub run : List Transaction → Store → Store
run [] s = s
run (t ∷ ts) s = run ts (run_one t s)

abbrev pub without_row : AnnotationRow → Text → Store → Store
without_row row by s = record {
  rows = Dict.delete row.id s.rows;
  revisions = revision row deleted by ∷ s.revisions;
}

-- Creating a mark under this id.
abbrev pub makes : Text → Transaction → Bool
makes id (insert user course_id row) = same row.id id
makes id (change edit) = false
makes id (take_out row user) = false
makes id (link entry_id by other version) = false

-- Rows are stored under their own ids.
abbrev pub Keyed : Dict AnnotationRow → Type 0
Keyed rows = (id : Text) (row : AnnotationRow) → Dict.get id rows ≡ some row → row.id ≡ id

pub set-Keyed :
    (row : AnnotationRow) (rows : Dict AnnotationRow)
    → Keyed rows
    → Keyed (Dict.set row.id row rows)
set-Keyed row rows k id r h = elim (Bool-cases (same row.id id)) [
  | inl e ↦ ground (arith, e, h, get-set row.id id row rows, same_iff row.id id)
  | inr e ↦ k id r (ground (arith, e, h, get-set row.id id row rows))
]

pub delete-Keyed :
    (gone : Text) (rows : Dict AnnotationRow) → Keyed rows → Keyed (Dict.delete gone rows)
delete-Keyed gone rows k id r h = k id r (ground (arith, h, get-delete gone id rows))

-- The later form of a mark: whose it is stays, and its version does not fall.
abbrev pub Grows : AnnotationRow → AnnotationRow → Type 0
Grows row next =
    (row.version ≤ next.version)
    × (next.course_id ≡ row.course_id)
    × (next.created_by_id ≡ row.created_by_id)
    × (next.mode ≡ row.mode)
    × (next.student_id ≡ row.student_id)

-- What becomes of a stored mark: it goes, or has a later form.
unfoldable pub Evolves : Option AnnotationRow → Option AnnotationRow → Type 0
Evolves before none = Unit
Evolves before (some next) = (row : AnnotationRow) × ((before ≡ some row) × Grows row next)

pub Evolves-refl : (a : Option AnnotationRow) → Evolves a a
unfolding Evolves
Evolves-refl none = tt
Evolves-refl (some row) = (row, (refl, (omega arith, refl, refl, refl, refl)))

pub Evolves-trans : (a b c : Option AnnotationRow) → Evolves a b → Evolves b c → Evolves a c
unfolding Evolves
Evolves-trans a b none h k = tt
Evolves-trans a none (some r) h (q, (e, k)) = absurd (ground (arith, e))
Evolves-trans a (some p) (some r) (o, (f, h)) (q, (e, k)) = (o, (f, ground (arith, e, h, k)))

-- A row that replaces the one under its id.
abbrev pub Replaces : AnnotationRow → AnnotationRow → Type 0
Replaces row next =
    (next.id ≡ row.id)
    × (next.version ≡ suc row.version)
    × (next.course_id ≡ row.course_id)
    × (next.created_by_id ≡ row.created_by_id)
    × (next.mode ≡ row.mode)
    × (next.student_id ≡ row.student_id)

pub set-Evolves :
    (id : Text) (row next : AnnotationRow) (rows : Dict AnnotationRow)
    → Dict.get next.id rows ≡ some row
    → Replaces row next
    → Evolves (Dict.get id rows) (Dict.get id (Dict.set next.id next rows))
unfolding Evolves
set-Evolves id row next rows h r = elim (Bool-cases (same next.id id)) [
  | inl e ↦
      let at : Dict.get id (Dict.set next.id next rows) ≡ some next =
        ground (arith, e, get-set next.id id next rows) in
      let there : Dict.get id rows ≡ some row = ground (arith, h, e, same_iff next.id id) in
      rw at (row, (there, ground (arith, r)))
  | inr e ↦
      let at : Dict.get id (Dict.set next.id next rows) ≡ Dict.get id rows =
        ground (arith, e, get-set next.id id next rows) in
      rw at (Evolves-refl (Dict.get id rows))
]

-- What one transaction does to a store.
pub data Effect (t : Transaction) (s : Store) : Type 0 where
  nothing : run_one t s ≡ s → Effect t s
  one_more :
      (row : AnnotationRow) (by : Text)
      → ((id : Text) → makes id t ≡ same row.id id)
      → run_one t s ≡ with_revision row created by s
      → Effect t s
  other_form :
      (id : Text) (row next : AnnotationRow) (by : Text)
      → Dict.get id s.rows ≡ some row
      → Replaces row next
      → run_one t s ≡ with_revision next updated by s
      → Effect t s
  one_less : (row : AnnotationRow) (by : Text) → run_one t s ≡ without_row row by s → Effect t s

change_effect : (edit : UpdateData) (s : Store) → Effect (change edit) s
unfolding run_one commit_update written
change_effect edit s = elim (Option-cases (Dict.get edit.id s.rows)) [
  | inl a ↦ nothing (ground (arith, a))
  | inr (row, a) ↦
      elim (Bool-cases (same row.course_id edit.course_id && row.version == edit.version)) [
        | inl e ↦
            other_form edit.id row (written edit row) edit.updated_by_id a
              (refl, refl, refl, refl, refl, refl) (ground (arith, a, e))
        | inr e ↦ nothing (ground (arith, a, e))
      ]
]

link_effect :
    (entry_id by id : Text) (version : ℕ) (s : Store) → Effect (link entry_id by id version) s
unfolding run_one commit_link linked_row
link_effect entry_id by id version s = elim (Option-cases (Dict.get id s.rows)) [
  | inl a ↦ nothing (ground (arith, a))
  | inr (row, a) ↦ elim (Bool-cases (row.version == version && not (is_some row.hifz_entry_id))) [
    | inl e ↦
        other_form id row (linked_row entry_id by row) by a (refl, refl, refl, refl, refl, refl)
          (ground (arith, a, e))
    | inr e ↦ nothing (ground (arith, a, e))
  ]
]

pub effect : (t : Transaction) (s : Store) → Effect t s
unfolding run_one insert_or_replay commit_remove
effect (insert user course_id row) s = elim (Option-cases (Dict.get row.id s.rows)) [
  | inl a ↦ one_more row user.sub (λ id. refl) (ground (arith, a))
  | inr (raced, a) ↦ nothing (ground (arith, a))
]
effect (change edit) s = change_effect edit s
effect (take_out row user) s = elim (Option-cases (Dict.get row.id s.rows)) [
  | inl a ↦ nothing (ground (arith, a))
  | inr (there, a) ↦ one_less row user.sub (ground (arith, a))
]
effect (link entry_id by id version) s = link_effect entry_id by id version s
