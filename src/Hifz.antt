-- ===== src/Hifz.antt =====
-- src/hifz/hifz.service.ts: the progress summary of a student's recitations. A `Map` with number keys
-- is an association list in the order of insertion, and `sort` is stable.
pub mod Ranges
pub mod Grouping
pub mod Distinct
mod Tests
use livetich_api.Prelude.{
  ℕ, ◌+◌, ◌-◌, max, leb, ◌==◌, if◌then◌else◌, Option, none, some, List, [], ◌∷◌, ◌++◌, length,
}

pub data HifzKind : Type 0 where
  new_hifz revision : HifzKind

pub record Entry : Type 0 where
  pub kind : HifzKind
  pub surah_number : ℕ
  pub ayah_start : ℕ
  pub ayah_end : ℕ
  pub recorded_at : ℕ

abbrev pub Range : Type 0
Range = ℕ × ℕ

abbrev pub BySurah : Type 0
BySurah = List (ℕ × List Range)

-- `bySurah.get(n) ?? []`, the push and the `set`.
unfoldable pub push_range : ℕ → Range → BySurah → BySurah
push_range n r [] = (n, r ∷ []) ∷ []
push_range n r ((k, rs) ∷ m) = if k == n then (k, rs ++ r ∷ []) ∷ m else (k, rs) ∷ push_range n r m

abbrev pub add_entry : Entry → BySurah → BySurah
add_entry e m = elim e.kind [
  | new_hifz ↦ push_range e.surah_number (e.ayah_start, e.ayah_end) m
  | revision ↦ m
]

-- The first loop.
unfoldable pub group : List Entry → BySurah → BySurah
group [] m = m
group (e ∷ es) m = group es (add_entry e m)

unfoldable pub insert_range : Range → List Range → List Range
insert_range r [] = r ∷ []
insert_range r (q ∷ qs) = if leb r.0 q.0 then r ∷ q ∷ qs else q ∷ insert_range r qs

-- `ranges.sort((a, b) => a[0] - b[0])`
unfoldable pub sort_ranges : List Range → List Range
sort_ranges [] = []
sort_ranges (r ∷ rs) = insert_range r (sort_ranges rs)

-- The inner loop, with the range that is open; `end + 1 - start` is `curEnd - curStart + 1`.
unfoldable pub merge_from : ℕ → ℕ → ℕ → List Range → ℕ
merge_from total cur_start cur_end [] = total + (cur_end + 1 - cur_start)
merge_from total cur_start cur_end ((s, e) ∷ rs) =
    let longer = merge_from total cur_start (max cur_end e) rs in
    let next = merge_from (total + (cur_end + 1 - cur_start)) s e rs in
    if leb s (cur_end + 1) then longer else next

abbrev pub merge_sorted : ℕ → List Range → ℕ
merge_sorted total [] = total
merge_sorted total ((s, e) ∷ rs) = merge_from total s e rs

-- The outer loop, over the values of the map.
unfoldable pub memorized_from : ℕ → BySurah → ℕ
memorized_from total [] = total
memorized_from total ((k, rs) ∷ m) = memorized_from (merge_sorted total (sort_ranges rs)) m

pub record Progress : Type 0 where
  pub ayahs_memorized : ℕ
  pub surahs_touched : ℕ
  pub last_recited_at : Option ℕ

abbrev newest : List Entry → Option ℕ
newest [] = none
newest (e ∷ es) = some e.recorded_at

unfoldable pub summarize : List Entry → Progress
summarize es = record {
  ayahs_memorized = memorized_from 0 (group es []);
  surahs_touched = length (group es []);
  last_recited_at = newest es;
}
