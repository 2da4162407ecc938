-- ===== src/Annotations.antt =====
-- src/tajweed/tajweed.service.ts: marks on the Qur'an's text that are kept, the rows and the pure parts
-- of the service. Rows stand in the order in which they were created; `updatedAt` is left out.
pub mod Store
pub mod Methods
pub mod Links
pub mod Reads
pub mod Progress
pub mod Valid
pub mod Again
pub mod Sound
pub mod Served
pub mod Versions
pub mod Locking
pub mod Conflicts
pub mod History
pub mod Privacy
pub mod Tallies
mod Tests
use livetich_api.Prelude.{
  ℕ, zero, suc, ◌+◌, if◌then◌else◌, Text, codes, same, Bool, true, false, not, ◌&&◌, ◌||◌, Option,
  none, some, List, [], ◌∷◌, is_some,
}
use livetich_api.Prelude.Dict
use livetich_api.Prelude.Dict.{Dict}
use livetich_api.Prelude.Results.{Result, ok, err, ◌>>=◌, ◌>>◌, demand, bad_request}
use livetich_api.Marks.{NormalizedPart}
use livetich_api.Tajweed.{is_tajweed_rule, clean_text}
use livetich_api.Room.Stage.{Style, highlight, underline}

-- `TajweedAnnotationMode`
pub data Mode : Type 0 where
  lesson student_correction : Mode

pub data TajweedOutcome : Type 0 where
  correct repeat tajweed_issue pronunciation note : TajweedOutcome

pub data TajweedChange : Type 0 where
  created updated deleted : TajweedChange

abbrev pub is_lesson : Mode → Bool
is_lesson lesson = true
is_lesson student_correction = false

abbrev pub is_issue : Option TajweedOutcome → Bool
is_issue (some tajweed_issue) = true
is_issue (some correct) = false
is_issue (some repeat) = false
is_issue (some pronunciation) = false
is_issue (some note) = false
is_issue none = false

abbrev pub is_correct : Option TajweedOutcome → Bool
is_correct (some correct) = true
is_correct (some tajweed_issue) = false
is_correct (some repeat) = false
is_correct (some pronunciation) = false
is_correct (some note) = false
is_correct none = false

-- What a request says of a mark's look; an absent field and a null are both `none`.
pub record ContentInput : Type 0 where
  pub rule : Option Text
  pub custom_label : Option Text
  pub style : Option Style
  pub color : Option Text
  pub note : Option Text
  pub outcome : Option TajweedOutcome

-- What `contentOf` returns.
pub record Content : Type 0 where
  pub rule : Option Text
  pub custom_label : Option Text
  pub style : Style
  pub color : Option Text
  pub note : Option Text
  pub outcome : Option TajweedOutcome

-- A string that is neither absent nor empty: what `if (id)` tests.
abbrev pub truthy : Option Text → Option Text
truthy none = none
truthy (some []) = none
truthy (some (a ∷ s)) = some (a ∷ s)

abbrev pub or_else {ℓ} : {A : Type ℓ} → Option A → A → A
or_else none b = b
or_else (some a) b = a

abbrev pub is_custom : Option Text → Bool
is_custom none = false
is_custom (some r) = same r (codes "custom")

-- The tests of one mode on a rule and an outcome.
abbrev pub mode_allows : Mode → Option Text → Option TajweedOutcome → Bool
mode_allows lesson rule outcome = is_some (truthy rule) && not (is_some outcome)
mode_allows student_correction rule outcome =
    is_some outcome && not (is_issue outcome && not (is_some (truthy rule)))

-- Every refusal is a `BadRequestException`.
unfoldable pub content_of : ContentInput → Mode → Result Content
content_of input mode =
    let custom_label = clean_text input.custom_label 60 in
    do
      demand (not (is_some input.rule && not (is_tajweed_rule input.rule))) bad_request
      demand (mode_allows mode input.rule input.outcome) bad_request
      demand (not (is_custom input.rule && not (is_some custom_label))) bad_request
      ok (record {
        rule = input.rule;
        custom_label = custom_label;
        style = or_else input.style highlight;
        color = input.color;
        note = clean_text input.note 1000;
        outcome = input.outcome;
      })

-- A `TajweedAnnotation` with its parts; the columns that `contentOf` gives stand together.
pub record AnnotationRow : Type 0 where
  pub id : Text
  pub organization_id : Text
  pub course_id : Text
  pub section_id : Option Text
  pub session_id : Option Text
  pub mode : Mode
  pub student_id : Option Text
  pub hifz_entry_id : Option Text
  pub kept : Bool
  pub surah_number : ℕ
  pub ayah_number : ℕ
  pub parts : List NormalizedPart
  pub content : Content
  pub version : ℕ
  pub created_by_id : Text
  pub updated_by_id : Text
  pub created_at : ℕ

-- Whom a message about a mark goes to: the whole room, or its staff.
pub data Emission : Type 0 where
  to_session to_session_staff : Text → AnnotationRow → Emission

unfoldable pub announce : AnnotationRow → Option Text → List Emission
announce row session = elim (truthy session) [
  | none ↦ []
  | some id ↦ (if is_lesson row.mode then to_session id row else to_session_staff id row) ∷ []
]

pub record Revision : Type 0 where
  pub annotation_id : Text
  pub version : ℕ
  pub change : TajweedChange
  pub snapshot : AnnotationRow
  pub changed_by_id : Text

unfoldable pub revision : AnnotationRow → TajweedChange → Text → Revision
revision row change changed_by_id = record {
  annotation_id = row.id;
  version = row.version;
  change = change;
  snapshot = row;
  changed_by_id = changed_by_id;
}

-- One row of the tally: `issues` and `correct`.
pub record Counts : Type 0 where
  pub issues : ℕ
  pub correct : ℕ

abbrev pub no_counts : Counts
no_counts = record { issues = 0; correct = 0 }

abbrev pub counted : Option TajweedOutcome → Counts → Counts
counted outcome t = record {
  issues = if is_issue outcome then suc t.issues else t.issues;
  correct = if is_correct outcome then suc t.correct else t.correct;
}

-- One turn of the loop of `tallyByRule`, for a row's rule and outcome.
unfoldable pub tally_row : Option Text × Option TajweedOutcome → Dict Counts → Dict Counts
tally_row (rule, outcome) by_rule = elim (truthy rule) [
  | none ↦ by_rule
  | some r ↦ Dict.set r (counted outcome (or_else (Dict.get r by_rule) no_counts)) by_rule
]

unfoldable pub tally_from : List (Option Text × Option TajweedOutcome) → Dict Counts → Dict Counts
tally_from [] by_rule = by_rule
tally_from (r ∷ rows) by_rule = tally_from rows (tally_row r by_rule)

unfoldable pub tally_by_rule : List (Option Text × Option TajweedOutcome) → Dict Counts
tally_by_rule rows = tally_from rows []
