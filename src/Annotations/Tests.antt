-- ===== src/Annotations/Tests.antt =====
-- Runs of src/tajweed/tajweed.service.ts, and the theorems at concrete inputs. The text is one ayah of
-- two words, whose letters are its code units.
use livetich_api.Prelude.{
  ℕ, ◌≡◌, ◌⊎◌, refl, if◌then◌else◌, Text, codes, same, false, Option, none, some, List, [], ◌∷◌,
  map, any, All, arith,
}
use livetich_api.Prelude.Dict
use livetich_api.Prelude.Results.{ok, err, conflict}
use livetich_api.Identity.{JwtPayload, student, instructor}
use livetich_api.Courses.{assert_can_manage_course}
use livetich_api.Marks.{
  whole, PartRef, validate_parts, split_words, split, non_empty, add, same_part, before, rank,
  insert_part, sort_parts, ayah_words, check_letter, check_word, check_part, collect, first_ayah_of,
}
use livetich_api.Room.Stage.{underline, highlight}
use livetich_api.Tajweed.{
  is_tajweed_rule, tajweed_rule_keys, tajweed_rule_groups, tajweed_legacy_rules, clean_text,
}
use livetich_api.Annotations.{
  student_correction, tajweed_issue, correct, AnnotationRow, content_of, revision, announce,
  created, updated, to_session_staff, tally_by_rule, TajweedOutcome,
}
use livetich_api.Annotations.Store.{
  Store, Saved, CourseRows, UpdateData, assert_enrolled, check_section, resolve_section, replay,
  insert_or_replay, written, commit_update,
}
use livetich_api.Annotations.Methods.{
  CreateDto, check_student, check_entry, check_parts, prepare_create, create,
}
use livetich_api.Annotations.Reads.{
  can_manage, lesson_scope, by_place, newest_first, ListQuery, Listed, who_for, lesson_marks, list,
}
use livetich_api.Annotations.Versions.{Transaction, insert, change, run_one, run}
use livetich_api.Annotations.Locking.{empty}
use livetich_api.Annotations.Conflicts.{commit_update_once}
use livetich_api.Annotations.History.{latest, shown}
use livetich_api.Annotations.Tallies.{issues_of, correct_of, is_of, tally_by_rule_lem}
use livetich_api.Annotations.Again.{create_again}
use livetich_api.Annotations.Sound.{creation, IsPrivate, serve, serve-IsPrivate}
use livetich_api.Annotations.Privacy.{IsOwn, IsLessonOf, list-IsOwn}

abbrev text : ℕ → Option (List Text)
text n = some (codes "ab cde" ∷ [])

abbrev units : Text → List Text
units t = map (λ c. c ∷ []) t

abbrev amina : JwtPayload
amina = record { sub = codes "amina"; role = student; name = codes "Amina"; organization_id = none }

abbrev zayd : JwtPayload
zayd = record { sub = codes "zayd"; role = instructor; name = codes "Zayd"; organization_id = none }

abbrev halaqa : CourseRows
halaqa = record {
  access =
      some (record { instructor_id = some (codes "zayd"); organization_id = some (codes "org") });
  students = codes "amina" ∷ [];
  sessions = (codes "live", none) ∷ [];
  sections = [];
  hifz_entries = [];
}

abbrev second_word : PartRef
second_word = record {
  surah_number = whole 1;
  ayah_number = whole 1;
  word_index = some (whole 1);
  letter_index = none;
}

abbrev heard : CreateDto
heard = record {
  id = codes "mark-one";
  mode = student_correction;
  section_id = none;
  session_id = some (codes "live");
  student_id = some (codes "amina");
  hifz_entry_id = none;
  parts = second_word ∷ [];
  kept = none;
  content = record {
    rule = some (codes "madd");
    custom_label = none;
    style = none;
    color = none;
    note = none;
    outcome = some tajweed_issue;
  };
}

-- The correction as it is first saved.
abbrev mark : AnnotationRow
mark = record {
  id = codes "mark-one";
  organization_id = codes "org";
  course_id = codes "c";
  section_id = none;
  session_id = some (codes "live");
  mode = student_correction;
  student_id = some (codes "amina");
  hifz_entry_id = none;
  kept = false;
  surah_number = 1;
  ayah_number = 1;
  parts =
      record { surah_number = 1; ayah_number = 1; word_index = some 1; letter_index = none } ∷ [];
  content = record {
    rule = some (codes "madd");
    custom_label = none;
    style = highlight;
    color = none;
    note = none;
    outcome = some tajweed_issue;
  };
  version = 1;
  created_by_id = codes "zayd";
  updated_by_id = codes "zayd";
  created_at = 7;
}

abbrev one_mark : Store
one_mark = record {
  rows = (codes "mark-one", mark) ∷ [];
  revisions =
      record {
        annotation_id = codes "mark-one";
        version = 1;
        change = created;
        snapshot = mark;
        changed_by_id = codes "zayd";
      }
      ∷ [];
}

abbrev first_saved : Saved
first_saved = record {
  row = mark;
  store = one_mark;
  emitted = to_session_staff (codes "live") mark ∷ [];
}

saves : create text units zayd (codes "c") halaqa heard 7 (run [] empty) ≡ ok first_saved
unfolding create prepare_create insert_or_replay replay check_parts validate_parts collect
    check_part check_word check_letter ayah_words sort_parts insert_part rank before same_part add
    split non_empty split_words first_ayah_of content_of clean_text is_tajweed_rule
    tajweed_rule_keys tajweed_rule_groups tajweed_legacy_rules check_student assert_enrolled
    resolve_section check_section check_entry announce revision assert_can_manage_course same
    Dict.get Dict.set run
saves = refl

-- Two edits of the first version.
abbrev edit : Text → UpdateData
edit note = record {
  id = codes "mark-one";
  course_id = codes "c";
  version = 1;
  parts = none;
  content = record {
    rule = some (codes "madd");
    custom_label = none;
    style = underline;
    color = none;
    note = some note;
    outcome = some correct;
  };
  kept = false;
  updated_by_id = codes "zayd";
}

edited_mark : AnnotationRow
unfolding written
edited_mark = written (edit (codes "better")) mark

abbrev edited_store : Store
edited_store = record {
  rows = (codes "mark-one", edited_mark) ∷ [];
  revisions = revision edited_mark updated (codes "zayd") ∷ one_mark.revisions;
}

abbrev made : List Transaction
made = insert zayd (codes "c") mark ∷ []

lands : commit_update (edit (codes "better")) (run made empty) ≡ ok (edited_mark, edited_store)
unfolding run run_one insert_or_replay commit_update edited_mark written announce revision same
    Dict.get Dict.set
lands = refl

commit_update_once_example :
    commit_update (edit (codes "worse")) (run (change (edit (codes "again")) ∷ []) edited_store)
    ≡ err conflict
commit_update_once_example =
    commit_update_once made (change (edit (codes "again")) ∷ []) (edit (codes "better"))
      (edit (codes "worse")) (edited_mark, edited_store) lands refl (ground arith) refl

shows : shown (latest (codes "mark-one") (run made empty).revisions) ≡ some mark
unfolding run run_one insert_or_replay announce revision latest same Dict.get Dict.set
shows = refl

still_there : Dict.get (codes "mark-one") (run [] one_mark).rows ≡ some mark
unfolding run same Dict.get
still_there = refl

zayd_manages : assert_can_manage_course zayd halaqa.access ≡ ok tt
unfolding assert_can_manage_course same
zayd_manages = refl

create_again_example :
    create text units zayd (codes "c") halaqa heard 9 (run [] one_mark)
    ≡ ok (record { row = mark; store = run [] one_mark; emitted = [] })
create_again_example =
    create_again text units [] [] zayd (codes "c") halaqa halaqa heard heard 7 9 first_saved mark
      saves refl still_there refl zayd_manages

serves : serve text units (creation zayd (codes "c") halaqa heard 7) (run [] empty) ≡ ok first_saved
unfolding serve
serves = saves

serve-IsPrivate_example : All IsPrivate first_saved.emitted
serve-IsPrivate_example =
    serve-IsPrivate text units (creation zayd (codes "c") halaqa heard 7) (run [] empty) first_saved
      serves

abbrev outcomes : List (Option Text × Option TajweedOutcome)
outcomes =
    (some (codes "madd"), some tajweed_issue)
    ∷ (none, some correct)
    ∷ (some (codes "madd"), some correct)
    ∷ (some (codes "madd"), some tajweed_issue)
    ∷ []

two_issues : issues_of (codes "madd") outcomes ≡ 2
unfolding same
two_issues = refl

tally_by_rule_lem_example : Dict.get (codes "madd") (tally_by_rule outcomes) ≡ (
    if any (is_of (codes "madd")) outcomes
    then some (record {
      issues = issues_of (codes "madd") outcomes;
      correct = correct_of (codes "madd") outcomes;
    })
    else none)
tally_by_rule_lem_example = tally_by_rule_lem (codes "madd") outcomes

abbrev whole_course : ListQuery
whole_course = record { section_id = none; session_id = none; student_id = none }

cannot : can_manage amina halaqa ≡ ok false
unfolding can_manage
cannot = refl

abbrev hers : Listed
hers = record { lesson = []; corrections = mark ∷ [] }

lists : list amina none (codes "c") halaqa whole_course one_mark ≡ ok hers
unfolding list can_manage assert_enrolled lesson_marks lesson_scope resolve_section check_section
    by_place newest_first who_for same
lists = refl

list-IsOwn_example :
    All (IsLessonOf (codes "c")) hers.lesson
    × All (IsOwn (codes "c") amina.sub) hers.corrections
    × ((◌≡◌ {A = Option Text} none none) ⊎ (hers.corrections ≡ []))
list-IsOwn_example =
    list-IsOwn amina none (codes "c") halaqa whole_course one_mark hers cannot lists
