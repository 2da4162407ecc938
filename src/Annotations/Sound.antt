-- ===== src/Annotations/Sound.antt =====
-- src/tajweed/tajweed.service.ts: requests served one after another; what they store and whom they tell.
use livetich_api.Prelude.{
  Option-cases, ℕ, ◌≡◌, inl, inr, refl, sym, Text, same, true, Option, none, some, List, [], ◌∷◌,
  All, arith, Bool-cases,
}
use livetich_api.Prelude.Dict
use livetich_api.Prelude.Dict.{Dict, get-set, get-delete}
use livetich_api.Prelude.Results.{Result-cases, Result, ok, err}
use livetich_api.Identity.{JwtPayload}
use livetich_api.Annotations.{
  AnnotationRow, Mode, lesson, student_correction, Emission, to_session, to_session_staff, announce,
  content_of,
}
use livetich_api.Annotations.Valid.{is_valid, content_of-is_valid}
use livetich_api.Annotations.Store.{
  commit_remove, Store, Saved, CourseRows, UpdateData, notify_session, find, commit_update,
}
use livetich_api.Annotations.Methods.{
  CreateDto, UpdateDto, create, new_parts, edited, prepare_update, update,
}
use livetich_api.Annotations.Links.{remove}
use livetich_api.Annotations.Again.{Stored, create_lem}

-- A request, with the rows of its course at the time.
pub data Request : Type 0 where
  creation : JwtPayload → Text → CourseRows → CreateDto → ℕ → Request
  edition : JwtPayload → Text → CourseRows → Text → UpdateDto → Request
  removal : JwtPayload → Text → CourseRows → Text → Option Text → Request

-- A message to a whole room is about a lesson's mark.
abbrev pub IsPrivate : Emission → Type 0
IsPrivate (to_session id row) = row.mode ≡ lesson
IsPrivate (to_session_staff id row) = Unit

announce-IsPrivate :
    (row : AnnotationRow) (session : Option Text) → All IsPrivate (announce row session)
unfolding announce
announce-IsPrivate row session = go row.mode refl session
  where
    go : (m : Mode) → row.mode ≡ m → (session : Option Text) → All IsPrivate (announce row session)
    go m e none = tt
    go m e (some []) = tt
    go lesson e (some (a ∷ s)) = rw e (refl, tt)
    go student_correction e (some (a ∷ s)) = rw e (tt, tt)

-- The steps of a deletion that is carried out.
pub data RemoveRun (user : JwtPayload) (course_id id : Text) (s : Store) (saved : Saved)
    : Type 0 where
  remove_run :
      (row : AnnotationRow) (notify : Option Text)
      → find course_id id s ≡ ok row
      → commit_remove row user s ≡ some saved.store
      → saved.emitted ≡ announce row notify
      → RemoveRun user course_id id s saved

pub remove_lem :
    (user : JwtPayload) (course_id : Text) (course : CourseRows) (id : Text) (session : Option Text)
    (s : Store) (saved : Saved)
    → remove user course_id course id session s ≡ ok saved
    → RemoveRun user course_id id s saved
unfolding remove
remove_lem user course_id course id session s saved h = elim (Result-cases (find course_id id s)) [
  | inl (e, a) ↦ absurd (ground (arith, a, h))
  | inr (row, a) ↦ elim (Result-cases (notify_session course session row)) [
    | inl (e, b) ↦ absurd (ground (arith, a, b, h))
    | inr (notify, b) ↦ elim (Option-cases (commit_remove row user s)) [
      | inl c ↦ absurd (ground (arith, a, b, c, h))
      | inr (left, c) ↦
          remove_run row notify a (ground (arith, a, b, c, h)) (ground (arith, a, b, c, h))
    ]
  ]
]

module _ (get_surah_ayahs : ℕ → Option (List Text)) (graphemes : Text → List Text) where
  unfoldable pub serve : Request → Store → Result Saved
  serve (creation user course_id course dto now) s =
      create get_surah_ayahs graphemes user course_id course dto now s
  serve (edition user course_id course id dto) s =
      update get_surah_ayahs graphemes user course_id course id dto s
  serve (removal user course_id course id session) s = remove user course_id course id session s

  -- The steps of an edit that is carried out.
  pub data UpdateRun (user : JwtPayload) (course_id : Text) (course : CourseRows) (id : Text)
      (dto : UpdateDto) (s : Store) (saved : Saved) : Type 0 where
    update_run :
        (row : AnnotationRow) (prepared : UpdateData × Option Text) (next : AnnotationRow × Store)
        → find course_id id s ≡ ok row
        → prepare_update get_surah_ayahs graphemes user course_id course row dto ≡ ok prepared
        → commit_update prepared.0 s ≡ ok next
        → saved.store ≡ next.1
        → saved.emitted ≡ announce next.0 prepared.1
        → UpdateRun user course_id course id dto s saved

  pub update_lem :
      (user : JwtPayload) (course_id : Text) (course : CourseRows) (id : Text) (dto : UpdateDto)
      (s : Store) (saved : Saved)
      → update get_surah_ayahs graphemes user course_id course id dto s ≡ ok saved
      → UpdateRun user course_id course id dto s saved
  unfolding update
  update_lem user course_id course id dto s saved h = elim (Result-cases (find course_id id s)) [
    | inl (e, a) ↦ absurd (ground (arith, a, h))
    | inr (row, a) ↦
        elim (Result-cases
          (prepare_update get_surah_ayahs graphemes user course_id course row dto)) [
            | inl (e, b) ↦ absurd (ground (arith, a, b, h))
            | inr (prepared, b) ↦ elim (Result-cases (commit_update prepared.0 s)) [
              | inl (e, c) ↦ absurd (ground (arith, a, b, c, h))
              | inr (next, c) ↦
                  update_run row prepared next a b c (ground (arith, a, b, c, h))
                    (ground (arith, a, b, c, h))
            ]
          ]
  ]

  -- A correction never goes to a whole room: of the messages that a request sends, those that go to the
  -- whole room are about marks of a lesson.
  pub serve-IsPrivate :
      (r : Request) (s : Store) (saved : Saved) → serve r s ≡ ok saved → All IsPrivate saved.emitted
  unfolding serve
  serve-IsPrivate (creation user course_id course dto now) s saved h =
      elim (create_lem get_surah_ayahs graphemes user course_id course dto now s saved h).3 [
        | inl (same_store, quiet) ↦ rw quiet tt
        | inr (rows, own, valid, sent) ↦ rw sent (announce-IsPrivate saved.row saved.row.session_id)
      ]
  serve-IsPrivate (edition user course_id course id dto) s saved h =
      elim (update_lem user course_id course id dto s saved h) [
        | update_run row prepared next a b c store sent ↦
            rw sent (announce-IsPrivate next.0 prepared.1)
      ]
  serve-IsPrivate (removal user course_id course id session) s saved h =
      elim (remove_lem user course_id course id session s saved h) [
        | remove_run row notify a c sent ↦ rw sent (announce-IsPrivate row notify)
      ]

  -- Requests one after another; one that is refused changes nothing.
  unfoldable pub serve_all : List Request → Store → Store
  serve_all [] s = s
  serve_all (r ∷ rs) s = elim (serve r s) [
    | err e ↦ serve_all rs s
    | ok saved ↦ serve_all rs saved.store
  ]

  abbrev pub AllValid : Dict AnnotationRow → Type 0
  AllValid rows =
      (id : Text) (row : AnnotationRow)
      → Dict.get id rows ≡ some row
      → is_valid row.mode row.content ≡ true

  pub set-AllValid :
      (id : Text) (row : AnnotationRow) (rows : Dict AnnotationRow)
      → AllValid rows
      → is_valid row.mode row.content ≡ true
      → AllValid (Dict.set id row rows)
  set-AllValid id row rows k valid j r h = elim (Bool-cases (same id j)) [
    | inl e ↦ let at : row ≡ r = ground (arith, e, h, get-set id j row rows) in rw (sym at) valid
    | inr e ↦ k j r (ground (arith, e, h, get-set id j row rows))
  ]

  pub created-AllValid :
      (s : Store) (saved : Saved) (id : Text)
      → AllValid s.rows
      → Stored s saved id
      → AllValid saved.store.rows
  created-AllValid s saved id k (inl (e, quiet)) = rw e k
  created-AllValid s saved id k (inr (rows, own, valid, sent)) =
      rw rows (set-AllValid id saved.row s.rows k valid)

  pub prepare_update_lem :
      (user : JwtPayload) (course_id : Text) (course : CourseRows) (row : AnnotationRow)
      (dto : UpdateDto) (prepared : UpdateData × Option Text)
      → prepare_update get_surah_ayahs graphemes user course_id course row dto ≡ ok prepared
      → (prepared.0.id ≡ row.id) × (is_valid row.mode prepared.0.content ≡ true)
  unfolding prepare_update
  prepare_update_lem user course_id course row dto prepared h =
      elim (Result-cases (notify_session course dto.session_id row)) [
        | inl (e, a) ↦ absurd (ground (arith, a, h))
        | inr (notify, a) ↦ elim (Result-cases (new_parts get_surah_ayahs graphemes dto.parts)) [
          | inl (e, b) ↦ absurd (ground (arith, a, b, h))
          | inr (parts, b) ↦
              elim (Result-cases (content_of (edited get_surah_ayahs graphemes dto row) row.mode)) [
                | inl (e, c) ↦ absurd (ground (arith, a, b, c, h))
                | inr (content, c) ↦
                    let at : content ≡ prepared.0.content = ground (arith, a, b, c, h) in
                    (
                      ground (arith, a, b, c, h),
                      rw (sym at) (
                          content_of-is_valid row.mode (edited get_surah_ayahs graphemes dto row)
                            content c),
                    )
              ]
        ]
      ]
