-- ===== src/Marks/Tests.antt =====
-- Runs of `validateParts` on a text of one surah with one ayah of two words, whose letters are its
-- code units.
use livetich_api.Prelude.{
  ℕ, ◌≡◌, ◌≤◌, refl, Text, codes, true, Option, none, some, List, [], ◌∷◌, map, All, any,
}
use livetich_api.Marks.{
  whole, PartRef, NormalizedPart, refused, accepted, no_word, has, validate_parts, split_words,
  split, non_empty, add, same_part, before, rank, insert_part, sort_parts, ayah_words, check_letter,
  check_word, check_part, collect,
}
use livetich_api.Marks.Order.{InOrder}
use livetich_api.Marks.Parts.{is_there, names, as_ref, validate_parts_lem}
use livetich_api.Marks.Again.{validate_parts_again}

abbrev text : ℕ → Option (List Text)
text n = some (codes "ab cde" ∷ [])

abbrev units : Text → List Text
units t = map (λ c. c ∷ []) t

-- The second letter of the second word, the first word, and that letter again.
abbrev picked : List PartRef
picked =
    record {
      surah_number = whole 1;
      ayah_number = whole 1;
      word_index = some (whole 1);
      letter_index = some (whole 1);
    }
    ∷ record {
      surah_number = whole 1;
      ayah_number = whole 1;
      word_index = some (whole 0);
      letter_index = none;
    }
    ∷ record {
      surah_number = whole 1;
      ayah_number = whole 1;
      word_index = some (whole 1);
      letter_index = some (whole 1);
    }
    ∷ []

abbrev first_word : NormalizedPart
first_word = record { surah_number = 1; ayah_number = 1; word_index = some 0; letter_index = none }

abbrev letter : NormalizedPart
letter = record { surah_number = 1; ayah_number = 1; word_index = some 1; letter_index = some 1 }

stored : validate_parts text units (some picked) 64 ≡ accepted (first_word ∷ letter ∷ [])
unfolding validate_parts collect check_part check_word check_letter ayah_words sort_parts
    insert_part rank before same_part add split non_empty split_words
stored = refl

third_word_refused :
    validate_parts text units
      (some (
        record {
          surah_number = whole 1;
          ayah_number = whole 1;
          word_index = some (whole 2);
          letter_index = none;
        }
        ∷ []))
      64
    ≡ refused no_word
unfolding validate_parts collect check_part check_word check_letter ayah_words split non_empty
    split_words
third_word_refused = refl

validate_parts_lem_example :
    InOrder (first_word ∷ letter ∷ [])
    × All (λ q. is_there text units q ≡ true) (first_word ∷ letter ∷ [])
    × (has letter (first_word ∷ letter ∷ []) ≡ any (names text units letter) picked)
validate_parts_lem_example =
    validate_parts_lem text units (some picked) 64 (first_word ∷ letter ∷ []) letter stored

validate_parts_again_example :
    (2 ≤ 64)
    × (validate_parts text units (some (map (as_ref text units) (first_word ∷ letter ∷ []))) 64
        ≡ accepted (first_word ∷ letter ∷ []))
validate_parts_again_example =
    validate_parts_again text units (some picked) 64 first_word (letter ∷ []) stored
