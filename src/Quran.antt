-- ===== src/Quran.antt =====
-- src/quran/surahs.ts: the catalog of the surahs and the check of a memorisation reference. Numbers
-- are whole and not negative, as the request bodies are validated to be.
mod Catalog
pub mod Reference
mod Tests
use Prim.Native.String.{String}
use livetich_api.Prelude.{
  ℕ, zero, suc, ◌+◌, ◌==◌, ltb, if◌then◌else◌, Bool, true, false, ◌||◌, Option, none, some, List,
  [], ◌∷◌, get_elem?, any, Text,
}
use Catalog.{Row, raw}

pub data Revelation : Type 0 where
  meccan medinan : Revelation

pub record Surah : Type 0 where
  pub number : ℕ
  pub transliteration : String
  pub english_name : String
  pub ayah_count : ℕ
  pub revelation : Revelation

abbrev medinan_surahs : List ℕ
medinan_surahs =
    2 ∷ 3 ∷ 4 ∷ 5 ∷ 8 ∷ 9 ∷ 13 ∷ 22 ∷ 24 ∷ 33 ∷ 47 ∷ 48 ∷ 49 ∷ 55 ∷ 57 ∷ 58 ∷ 59 ∷ 60 ∷ 61 ∷ 62 ∷ 63
    ∷ 64 ∷ 65 ∷ 66 ∷ 76 ∷ 98 ∷ 99 ∷ 110 ∷ []

-- `RAW.map((row, i) => …)`, from index `i` on.
number_rows : ℕ → List Row → List Surah
number_rows i [] = []
number_rows i (r ∷ rs) = entry ∷ number_rows (suc i) rs
  where
    entry : Surah
    entry = record {
      number = suc i;
      transliteration = r.transliteration;
      english_name = r.english_name;
      ayah_count = r.ayah_count;
      revelation = if any (λ n. n == suc i) medinan_surahs then medinan else meccan;
    }

unfoldable pub surahs : List Surah
unfolding number_rows raw
surahs = number_rows 0 raw

-- `SURAHS[number - 1]`: index -1 is undefined, as every index out of range.
unfoldable pub get_surah : ℕ → Option Surah
get_surah zero = none
get_surah (suc i) = get_elem? surahs i

pub data RefError : Type 0 where
  unknown_surah not_positive start_after_end : RefError
  too_far : String → ℕ → RefError

pub record Ref : Type 0 where
  pub surah_number : ℕ
  pub ayah_start : ℕ
  pub ayah_end : ℕ

pub data Checked : Type 0 where
  ok : Ref → Checked
  err : RefError → Checked

unfoldable pub check_range : ℕ → Surah → ℕ → ℕ → Checked
check_range n s start end =
    if ltb start 1 || ltb end 1
    then err not_positive
    else if ltb s.ayah_count end
    then err (too_far s.transliteration s.ayah_count)
    else if ltb end start
    then err start_after_end
    else ok (record { surah_number = n; ayah_start = start; ayah_end = end })

unfoldable pub validate_ref : ℕ → ℕ → ℕ → Checked
validate_ref n start end = elim (get_surah n) [
  | none ↦ err unknown_surah
  | some s ↦ check_range n s start end
]

unfoldable pub total_from : List Surah → ℕ
total_from [] = 0
total_from (s ∷ ss) = s.ayah_count + total_from ss
