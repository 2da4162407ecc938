-- ===== src/Marks.antt =====
-- src/quran/quran-words.ts: the pieces of the Qur'an's text that a mark holds. What a client sends for
-- a number may be anything; the text of the surahs and the segmentation of a word into letters are
-- parameters.
pub mod Again
pub mod Order
pub mod Outcomes
pub mod Parts
mod Tests
use livetich_api.Prelude.{
  ℕ, zero, suc, ◌+◌, ◌-◌, ltb, leb, ◌==◌, if◌then◌else◌, ◌≡◌, Text, Bool, true, false, not, ◌&&◌,
  ◌||◌, Option, none, some, List, [], ◌∷◌, ◌++◌, length, any, get_elem?,
}

-- A value from the wire where a number is meant: a whole number that is not negative, or any other
-- value.
pub data Wire : Type 0 where
  whole : ℕ → Wire
  other : Wire

pub record PartRef : Type 0 where
  pub surah_number : Wire
  pub ayah_number : Wire
  pub word_index : Option Wire
  pub letter_index : Option Wire

pub record NormalizedPart : Type 0 where
  pub surah_number : ℕ
  pub ayah_number : ℕ
  pub word_index : Option ℕ
  pub letter_index : Option ℕ

-- The errors that `validateParts` throws, in the order in which it can.
pub data PartError : Type 0 where
  nothing_picked too_many no_surah no_ayah letter_without_word no_word no_letter : PartError

pub data Outcome {v} (Value : Type v) : Type v where
  refused : PartError → Outcome Value
  accepted : Value → Outcome Value

abbrev pub max_parts : ℕ
max_parts = 64

-- A letter before the first word of the pieces.
abbrev pub onto_first : ℕ → List Text → List Text
onto_first c [] = (c ∷ []) ∷ []
onto_first c (w ∷ ws) = (c ∷ w) ∷ ws

-- `text.split(' ')`
unfoldable pub split : Text → List Text
split [] = [] ∷ []
split (c ∷ s) = let rest = split s in if c == b' ' then [] ∷ rest else onto_first c rest

-- `.filter(Boolean)`
unfoldable pub non_empty : List Text → List Text
non_empty [] = []
non_empty ([] ∷ ws) = non_empty ws
non_empty ((c ∷ w) ∷ ws) = (c ∷ w) ∷ non_empty ws

unfoldable pub split_words : Text → List Text
split_words s = non_empty (split s)

-- `add` compares the four numbers of a key.
abbrev pub same_index : Option ℕ → Option ℕ → Bool
same_index none none = true
same_index none (some n) = false
same_index (some m) none = false
same_index (some m) (some n) = m == n

unfoldable pub same_part : NormalizedPart → NormalizedPart → Bool
same_part a b =
    a.surah_number == b.surah_number
    && (a.ayah_number == b.ayah_number
        && (same_index a.word_index b.word_index && same_index a.letter_index b.letter_index))

abbrev pub has : NormalizedPart → List NormalizedPart → Bool
has p ps = any (same_part p) ps

unfoldable pub add : NormalizedPart → List NormalizedPart → List NormalizedPart
add p out = if has p out then out else out ++ p ∷ []

-- `rank`, one higher, so that it is a natural number.
unfoldable pub rank : Option ℕ → ℕ
rank none = 0
rank (some n) = n + 1

-- The comparison of the sort is negative.
unfoldable pub before : NormalizedPart → NormalizedPart → Bool
before a b =
    ltb a.surah_number b.surah_number
    || (a.surah_number == b.surah_number
        && (ltb a.ayah_number b.ayah_number
            || (a.ayah_number == b.ayah_number
                && (ltb (rank a.word_index) (rank b.word_index)
                    || (rank a.word_index == rank b.word_index
                        && ltb (rank a.letter_index) (rank b.letter_index))))))

unfoldable pub insert_part : NormalizedPart → List NormalizedPart → List NormalizedPart
insert_part p [] = p ∷ []
insert_part p (q ∷ qs) = let rest = insert_part p qs in if before q p then q ∷ rest else p ∷ q ∷ qs

-- The sort is stable: a part goes before those that compare equal and came later.
unfoldable pub sort_parts : List NormalizedPart → List NormalizedPart
sort_parts [] = []
sort_parts (p ∷ ps) = insert_part p (sort_parts ps)

module _ (get_surah_ayahs : ℕ → Option (List Text)) (graphemes : Text → List Text) where
  unfoldable pub ayah_words : ℕ → ℕ → Option (List Text)
  ayah_words surah ayah = elim (get_surah_ayahs surah) [
    | none ↦ none
    | some ayahs ↦ elim (get_elem? ayahs (ayah - 1)) [ none ↦ none | some s ↦ some (split_words s) ]
  ]

  -- A word that is there and, if one is named, its letter.
  unfoldable pub check_letter : ℕ → ℕ → ℕ → Text → Option Wire → Outcome NormalizedPart
  check_letter surah ayah w word none = accepted (record {
    surah_number = surah;
    ayah_number = ayah;
    word_index = some w;
    letter_index = none;
  })
  check_letter surah ayah w word (some other) = refused no_letter
  check_letter surah ayah w word (some (whole l)) =
      if ltb l (length (graphemes word))
      then accepted (record {
        surah_number = surah;
        ayah_number = ayah;
        word_index = some w;
        letter_index = some l;
      })
      else refused no_letter

  -- From `const wordIndex` on, for an ayah with these words.
  unfoldable pub check_word : ℕ → ℕ → List Text → Option Wire → Option Wire → Outcome NormalizedPart
  check_word surah ayah words none none =
      accepted (record {
        surah_number = surah;
        ayah_number = ayah;
        word_index = none;
        letter_index = none;
      })
  check_word surah ayah words none (some letter) = refused letter_without_word
  check_word surah ayah words (some other) letter = refused no_word
  check_word surah ayah words (some (whole w)) letter = elim (get_elem? words w) [
    | none ↦ refused no_word
    | some word ↦ check_letter surah ayah w word letter
  ]

  -- One turn of the loop, up to its call of `add`.
  unfoldable pub check_part : PartRef → Outcome NormalizedPart
  check_part r = elim r.surah_number [
    | other ↦ refused no_surah
    | whole surah ↦ if ltb surah 1 || ltb 114 surah then refused no_surah else elim r.ayah_number [
      | other ↦ refused no_ayah
      | whole ayah ↦ if ltb ayah 1 then refused no_ayah else elim (ayah_words surah ayah) [
        | none ↦ refused no_ayah
        | some words ↦ check_word surah ayah words r.word_index r.letter_index
      ]
    ]
  ]

  -- The loop: `out` is what was added, and the first part that is refused ends it.
  unfoldable pub collect : List PartRef → List NormalizedPart → Outcome (List NormalizedPart)
  collect [] out = accepted out
  collect (r ∷ rs) out = elim (check_part r) [
    | refused e ↦ refused e
    | accepted p ↦ collect rs (add p out)
  ]

  -- `none` is a value that is no list.
  unfoldable pub validate_parts : Option (List PartRef) → ℕ → Outcome (List NormalizedPart)
  validate_parts none max = refused nothing_picked
  validate_parts (some []) max = refused nothing_picked
  validate_parts (some (r ∷ rs)) max =
      if ltb max (length (r ∷ rs)) then refused too_many else elim (collect (r ∷ rs) []) [
        | refused e ↦ refused e
        | accepted out ↦ accepted (sort_parts out)
      ]

-- What a mark is filed under; a mark has a part.
unfoldable pub first_ayah_of : List NormalizedPart → Option (ℕ × ℕ)
first_ayah_of [] = none
first_ayah_of (p ∷ ps) = some (p.surah_number, p.ayah_number)
