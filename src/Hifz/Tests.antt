-- ===== src/Hifz/Tests.antt =====
-- Runs of the summary of src/hifz/hifz.service.ts, and the theorem at a concrete input.
use livetich_api.Prelude.{ℕ, ◌≡◌, refl, List, [], ◌∷◌, any, arith}
use livetich_api.Hifz.{
  Entry, new_hifz, revision, summarize, group, push_range, memorized_from, sort_ranges,
  insert_range, merge_from,
}
use livetich_api.Hifz.Ranges.{count_below}
use livetich_api.Hifz.Distinct.{distinct_ayahs, summarize_distinct}
use livetich_api.Hifz.Grouping.{is_new_of}

abbrev recited : ℕ → ℕ → ℕ → Entry
recited n a b = record {
  kind = new_hifz;
  surah_number = n;
  ayah_start = a;
  ayah_end = b;
  recorded_at = 9;
}

abbrev entries : List Entry
entries =
    recited 2 8 12
    ∷ recited 1 1 7
    ∷ record (recited 2 1 99) { kind = revision }
    ∷ recited 2 1 5
    ∷ recited 2 6 9
    ∷ []

overlaps_count_once :
    ((summarize entries).ayahs_memorized ≡ 19) × ((summarize entries).surahs_touched ≡ 2)
unfolding summarize group push_range memorized_from sort_ranges insert_range merge_from
overlaps_count_once = (refl, refl)

summarize_distinct_example :
    ((summarize entries).ayahs_memorized ≡ distinct_ayahs 115 287 entries)
    × ((summarize entries).surahs_touched ≡ count_below 115 (λ n. any (is_new_of n) entries))
summarize_distinct_example = summarize_distinct 115 287 entries (omega arith)
