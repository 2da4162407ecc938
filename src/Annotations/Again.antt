-- ===== src/Annotations/Again.antt =====
-- src/tajweed/tajweed.service.ts (create): a creation that is sent again.
use livetich_api.Prelude.{
  ℕ, ◌≡◌, ◌⊎◌, inl, inr, Text, same, same_iff, true, false, not, ◌||◌, Option, none, some, List, [],
  arith, Option-cases,
}
use livetich_api.Prelude.Dict
use livetich_api.Prelude.Dict.{Dict, get-set_self}
use livetich_api.Prelude.Results.{Result-cases, ok}
use livetich_api.Identity.{JwtPayload}
use livetich_api.Courses.{assert_can_manage_course}
use livetich_api.Annotations.{AnnotationRow, announce, content_of}
use livetich_api.Annotations.Valid.{is_valid, content_of-is_valid}
use livetich_api.Annotations.Store.{Store, Saved, CourseRows, replay, insert_or_replay}
use livetich_api.Annotations.Methods.{CreateDto, prepare_create, create, check_parts}
use livetich_api.Annotations.Versions.{Transaction, run, Keyed, set-Keyed, Evolves}
use livetich_api.Annotations.Locking.{empty, run-Keyed, empty-Keyed, run-Evolves, no_new}

-- How a creation that is carried out changes the rows.
abbrev pub Stored : Store → Saved → Text → Type 0
Stored s saved id =
    ((saved.store ≡ s) × (saved.emitted ≡ []))
    ⊎ ((saved.store.rows ≡ Dict.set id saved.row s.rows)
        × (saved.row.id ≡ id)
        × (is_valid saved.row.mode saved.row.content ≡ true)
        × (saved.emitted ≡ announce saved.row saved.row.session_id))

pub created-Keyed :
    (s : Store) (saved : Saved) (id : Text)
    → Keyed s.rows
    → Stored s saved id
    → Keyed saved.store.rows
created-Keyed s saved id k (inl (e, quiet)) = rw e k
created-Keyed s saved id k (inr (rows, own, valid, sent)) =
    let at : saved.store.rows ≡ Dict.set saved.row.id saved.row s.rows =
      ground (arith, rows, own) in
    rw at (set-Keyed saved.row s.rows k)

module _ (get_surah_ayahs : ℕ → Option (List Text)) (graphemes : Text → List Text) where
  pub prepare_create_lem :
      (user : JwtPayload) (course_id : Text) (course : CourseRows) (dto : CreateDto) (now : ℕ)
      (row : AnnotationRow)
      → prepare_create get_surah_ayahs graphemes user course_id course dto now ≡ ok row
      → (row.id ≡ dto.id)
        × (row.course_id ≡ course_id)
        × (row.created_by_id ≡ user.sub)
        × (row.version ≡ 1)
        × (is_valid row.mode row.content ≡ true)
  unfolding prepare_create
  prepare_create_lem user course_id course dto now row h =
      elim (Result-cases (check_parts get_surah_ayahs graphemes dto.parts)) [
        | inl (e, a) ↦ absurd (ground (arith, a, h))
        | inr (checked, a) ↦ elim (Result-cases (content_of dto.content dto.mode)) [
          | inl (e, b) ↦ absurd (ground (arith, a, b, h))
          | inr (content, b) ↦
              ground (arith, a, b, h, content_of-is_valid dto.mode dto.content content b)
        ]
      ]

  -- What a creation that is carried out leaves under its id.
  pub create_lem :
      (user : JwtPayload) (course_id : Text) (course : CourseRows) (dto : CreateDto) (now : ℕ)
      (s : Store) (saved : Saved)
      → create get_surah_ayahs graphemes user course_id course dto now s ≡ ok saved
      → (Dict.get dto.id saved.store.rows ≡ some saved.row)
        × (saved.row.course_id ≡ course_id)
        × (saved.row.created_by_id ≡ user.sub)
        × Stored s saved dto.id
  unfolding create replay insert_or_replay
  create_lem user course_id course dto now s saved h =
      elim (Option-cases (Dict.get dto.id s.rows)) [
        | inr (existing, a) ↦
            let ours : not (same existing.course_id course_id)
                  || not (same existing.created_by_id user.sub)
                ≡ false =
              ground (arith, a, h) in
            let row : existing ≡ saved.row = ground (arith, a, h) in
            let store : saved.store ≡ s = ground (arith, a, h) in
            (
              ground (arith, a, row, store),
              ground (arith, ours, row, same_iff existing.course_id course_id),
              ground (arith, ours, row, same_iff existing.created_by_id user.sub),
              inl (store, ground (arith, a, h)),
            )
        | inl a ↦
            elim (Result-cases
              (prepare_create get_surah_ayahs graphemes user course_id course dto now)) [
                | inl (e, b) ↦ absurd (ground (arith, a, b, h))
                | inr (row, b) ↦
                    let (id, of_course, by, v, valid) =
                      prepare_create_lem user course_id course dto now row b in
                    let free : Dict.get row.id s.rows ≡ none = ground (arith, a, id) in
                    let same_row : saved.row ≡ row = ground (arith, a, b, h, free) in
                    let store : saved.store.rows ≡ Dict.set row.id row s.rows =
                      ground (arith, a, b, h, free) in
                    let sent : saved.emitted ≡ announce row row.session_id =
                      ground (arith, a, b, h, free) in
                    (
                      ground (arith, id, same_row, store, get-set_self row.id row s.rows),
                      ground (arith, same_row, of_course),
                      ground (arith, same_row, by),
                      inr (
                        ground (arith, id, same_row, store),
                        ground (arith, same_row, id),
                        rw same_row valid,
                        rw same_row sent,
                      ),
                    )
              ]
      ]

  evolved_lem :
      (before after : Option AnnotationRow) (row kept : AnnotationRow)
      → Evolves before after
      → before ≡ some row
      → after ≡ some kept
      → (kept.course_id ≡ row.course_id) × (kept.created_by_id ≡ row.created_by_id)
  unfolding Evolves
  evolved_lem before none row kept h a b = absurd (ground (arith, b))
  evolved_lem before (some now) row kept (old, (q, g)) a b = ground (arith, q, g, a, b)

  -- A creation that is sent again by the same user, when the mark is still stored and the user may
  -- manage the course: whatever transactions came between that did not create a mark under its id anew,
  -- it writes nothing and sends nothing, and answers the mark as it then stands, whatever else the
  -- second request holds.
  pub create_again :
      (before between : List Transaction) (user : JwtPayload) (course_id : Text)
      (course later : CourseRows) (dto again : CreateDto) (now later_on : ℕ) (saved : Saved)
      (kept : AnnotationRow)
      → create get_surah_ayahs graphemes user course_id course dto now (run before empty) ≡ ok saved
      → no_new dto.id between ≡ true
      → Dict.get dto.id (run between saved.store).rows ≡ some kept
      → again.id ≡ dto.id
      → assert_can_manage_course user later.access ≡ ok tt
      → create get_surah_ayahs graphemes user course_id later again later_on
          (run between saved.store)
        ≡ ok (record { row = kept; store = run between saved.store; emitted = [] })
  unfolding create replay
  create_again before between user course_id course later dto again now later_on saved kept h
        none_new there same_id may =
      let (stored, of_course, by, how) =
        create_lem user course_id course dto now (run before empty) saved h in
      let start : Keyed (run before empty).rows = run-Keyed before empty empty-Keyed in
      let keyed : Keyed saved.store.rows =
        created-Keyed (run before empty) saved dto.id start how in
      let same_mark =
        evolved_lem (Dict.get dto.id saved.store.rows)
          (Dict.get dto.id (run between saved.store).rows) saved.row kept
          (run-Evolves dto.id between saved.store keyed none_new) stored there in
      let found : Dict.get again.id (run between saved.store).rows ≡ some kept = rw same_id there in
      let ours : same kept.course_id course_id ≡ true =
        ground (arith, same_mark, of_course, same_iff kept.course_id course_id) in
      let mine : same kept.created_by_id user.sub ≡ true =
        ground (arith, same_mark, by, same_iff kept.created_by_id user.sub) in
      ground (arith, found, ours, mine, may)
