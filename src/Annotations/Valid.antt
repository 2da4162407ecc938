-- ===== src/Annotations/Valid.antt =====
-- src/tajweed/tajweed.service.ts (contentOf): the checks of a mark's look against what a valid one is.
use livetich_api.Prelude.{
  ◌≡◌, if◌then◌else◌, Bool, true, not, ◌&&◌, ◌||◌, is_some, arith, sym, Bool-cases, inl, inr,
}
use livetich_api.Prelude.Results.{ok, err, bad_request}
use livetich_api.Room.Stage.{highlight}
use livetich_api.Tajweed.{is_tajweed_rule, clean_text}
use livetich_api.Tajweed.Clean.{no_empty_rule}
use livetich_api.Annotations.{
  Mode, lesson, student_correction, ContentInput, Content, content_of, or_else, is_custom, is_issue,
}

-- A mark of a lesson has a rule of the table and no outcome. A correction has an outcome; its rule, if
-- it has one, is of the table, and an issue has one. A custom rule comes with a label.
abbrev pub is_valid : Mode → Content → Bool
is_valid lesson c =
    is_tajweed_rule c.rule
    && (not (is_some c.outcome) && (not (is_custom c.rule) || is_some c.custom_label))
is_valid student_correction c =
    is_some c.outcome
    && ((is_tajweed_rule c.rule || not (is_some c.rule || is_issue c.outcome))
        && (not (is_custom c.rule) || is_some c.custom_label))

-- What is asked for, with clean text and the default style.
abbrev pub cleaned : ContentInput → Content
cleaned input = record {
  rule = input.rule;
  custom_label = clean_text input.custom_label 60;
  style = or_else input.style highlight;
  color = input.color;
  note = clean_text input.note 1000;
  outcome = input.outcome;
}

-- What is asked for is accepted exactly when, its text cleaned, it is valid for its mode; everything
-- else is a bad request.
pub content_of_lem :
    (mode : Mode) (input : ContentInput)
    → content_of input mode
      ≡ (if is_valid mode (cleaned input) then ok (cleaned input) else err bad_request)
unfolding content_of
content_of_lem lesson input = ground (arith, no_empty_rule)
content_of_lem student_correction input = ground (arith, no_empty_rule)

pub content_of-is_valid :
    (mode : Mode) (input : ContentInput) (c : Content)
    → content_of input mode ≡ ok c
    → is_valid mode c ≡ true
content_of-is_valid mode input c h = elim (Bool-cases (is_valid mode (cleaned input))) [
  | inl e ↦
      let at : cleaned input ≡ c = ground (arith, h, e, content_of_lem mode input) in rw (sym at) e
  | inr e ↦ absurd (ground (arith, h, e, content_of_lem mode input))
]
