-- ===== src/Annotations/History.antt =====
-- src/tajweed/tajweed.service.ts: what the revisions say against what is stored.
use livetich_api.Prelude.{◌≡◌, if◌then◌else◌, Text, same, Option, none, some, List, [], ◌∷◌}
use livetich_api.Prelude.Dict
use livetich_api.Prelude.Dict.{Dict}
use livetich_api.Annotations.{AnnotationRow, Revision, created, updated, deleted}
use livetich_api.Annotations.Store.{Store}

-- The newest revision of an id.
unfoldable pub latest : Text → List Revision → Option Revision
latest id [] = none
latest id (r ∷ rs) = if same r.annotation_id id then some r else latest id rs

-- The mark that a revision leaves behind.
abbrev pub shown : Option Revision → Option AnnotationRow
shown none = none
shown (some r) = elim r.change [
  | created ↦ some r.snapshot
  | updated ↦ some r.snapshot
  | deleted ↦ none
]

abbrev Agrees : Store → Type 0
Agrees s = (id : Text) → Dict.get id s.rows ≡ shown (latest id s.revisions)
