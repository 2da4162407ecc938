-- ===== src/Hifz/Distinct.antt =====
-- src/hifz/hifz.service.ts: the summary counts distinct ayahs.
use livetich_api.Prelude.{
  ℕ, zero, suc, ◌+◌, ◌≡◌, refl, ◌∙◌, ltb, ◌==◌, if◌then◌else◌, false, ◌||◌, List, [], ◌∷◌, any, All,
  length, arith, Bool-cases, inl, inr,
}
use livetich_api.Hifz.{
  Entry, Range, BySurah, add_entry, group, sort_ranges, merge_sorted, memorized_from, summarize,
}
use livetich_api.Hifz.Ranges.{
  count_below, count_below_ext, count_below_none, covered, merge-sort_ranges,
}
use livetich_api.Hifz.Grouping.{
  memorizes, IsReference, ranges_of, is_new_of, has_key, IsMap, covered-group, has_key-push_range,
  group-IsMap,
}

-- The number of ayahs below `ayahs`, of the surahs below `surahs`, that some entry takes in.
unfoldable pub distinct_ayahs : ℕ → ℕ → List Entry → ℕ
distinct_ayahs zero ayahs es = 0
distinct_ayahs (suc n) ayahs es = count_below ayahs (memorizes es n) + distinct_ayahs n ayahs es

-- What the map covers, surah by surah.
covered_ayahs : ℕ → ℕ → BySurah → ℕ
covered_ayahs zero ayahs m = 0
covered_ayahs (suc n) ayahs m =
    count_below ayahs (λ k. covered k (ranges_of n m)) + covered_ayahs n ayahs m

ranges_of_absent : (n : ℕ) (m : BySurah) → has_key n m ≡ false → ranges_of n m ≡ []
unfolding ranges_of
ranges_of_absent n [] h = refl
ranges_of_absent n ((k, rs) ∷ m) h = ground (arith, ranges_of_absent n m)

ranges_of-cons :
    (n k : ℕ) (rs : List Range) (m : BySurah)
    → ranges_of n ((k, rs) ∷ m) ≡ (if k == n then rs else ranges_of n m)
unfolding ranges_of
ranges_of-cons n k rs m = refl

covered_ayahs-nil : (n ayahs : ℕ) → covered_ayahs n ayahs [] ≡ 0
unfolding covered_ayahs ranges_of
covered_ayahs-nil zero ayahs = refl
covered_ayahs-nil (suc n) ayahs = omega (arith, count_below_none ayahs, covered_ayahs-nil n ayahs)

covered_at :
    (n k ayahs : ℕ) (rs : List Range) (m : BySurah)
    → has_key k m ≡ false
    → count_below ayahs (λ j. covered j (ranges_of n ((k, rs) ∷ m)))
      ≡ (if k == n then count_below ayahs (λ j. covered j rs) else 0)
        + count_below ayahs (λ j. covered j (ranges_of n m))
covered_at n k ayahs rs m absent = rw (ranges_of-cons n k rs m) (elim (Bool-cases (k == n)) [
  | inl hit ↦
      let e : n ≡ k = ground arith in
      rw (hit, e, ranges_of_absent k m absent) (omega (arith, count_below_none ayahs))
  | inr miss ↦ rw miss (omega arith)
])

covered_ayahs-cons :
    (n k ayahs : ℕ) (rs : List Range) (m : BySurah)
    → has_key k m ≡ false
    → covered_ayahs n ayahs ((k, rs) ∷ m)
      ≡ (if ltb k n then count_below ayahs (λ j. covered j rs) else 0) + covered_ayahs n ayahs m
unfolding covered_ayahs
covered_ayahs-cons zero k ayahs rs m absent = ground arith
covered_ayahs-cons (suc n) k ayahs rs m absent =
    ground (arith, covered_at n k ayahs rs m absent, covered_ayahs-cons n k ayahs rs m absent)

memorized_from_lem :
    (surahs ayahs total : ℕ) (m : BySurah)
    → IsMap surahs ayahs m
    → memorized_from total m ≡ total + covered_ayahs surahs ayahs m
unfolding memorized_from
memorized_from_lem surahs ayahs total [] im = omega (arith, covered_ayahs-nil surahs ayahs)
memorized_from_lem surahs ayahs total ((k, rs) ∷ m) (lt, hs, absent, im) = ground (
  arith,
  memorized_from_lem surahs ayahs (merge_sorted total (sort_ranges rs)) m im,
  merge-sort_ranges ayahs total rs hs,
  covered_ayahs-cons surahs k ayahs rs m absent,
)

covered_ayahs-group :
    (n ayahs : ℕ) (es : List Entry)
    → covered_ayahs n ayahs (group es []) ≡ distinct_ayahs n ayahs es
unfolding covered_ayahs distinct_ayahs
covered_ayahs-group zero ayahs es = refl
covered_ayahs-group (suc n) ayahs es =
    let here =
      count_below_ext ayahs (λ k. covered k (ranges_of n (group es []))) (memorizes es n)
        (λ k. covered-group es n k [] ∙ unfold ranges_of in ground arith) in
    omega (arith, here, covered_ayahs-group n ayahs es)

has_key-group :
    (es : List Entry) (n : ℕ) (m : BySurah)
    → has_key n (group es m) ≡ (any (is_new_of n) es || has_key n m)
unfolding group
has_key-group [] n m = refl
has_key-group (e ∷ es) n m = ground (
  arith,
  has_key-group es n (add_entry e m),
  has_key-push_range e.surah_number n (e.ayah_start, e.ayah_end) m,
)

count-has_key-cons :
    (n k : ℕ) (rs : List Range) (m : BySurah)
    → has_key k m ≡ false
    → count_below n (λ j. has_key j ((k, rs) ∷ m))
      ≡ (if ltb k n then 1 else 0) + count_below n (λ j. has_key j m)
unfolding count_below
count-has_key-cons zero k rs m absent = ground arith
count-has_key-cons (suc n) k rs m absent = elim (Bool-cases (k == n)) [
  | inl hit ↦
      let e : k ≡ n = ground arith in
      let absent_n : has_key n m ≡ false = rw e at absent in
      ground (arith, count-has_key-cons n k rs m absent)
  | inr miss ↦ ground (arith, count-has_key-cons n k rs m absent)
]

length-count_keys :
    (surahs ayahs : ℕ) (m : BySurah)
    → IsMap surahs ayahs m
    → length m ≡ count_below surahs (λ n. has_key n m)
length-count_keys surahs ayahs [] im = omega (arith, count_below_none surahs)
length-count_keys surahs ayahs ((k, rs) ∷ m) (lt, hs, absent, im) =
    ground (arith, length-count_keys surahs ayahs m im, count-has_key-cons surahs k rs m absent)

-- For entries whose references are in range, the summary's `ayahsMemorized` is the number of
-- distinct ayahs that the new recitations take in, each counted once however often and in whatever
-- overlapping ranges it was recited, and `surahsTouched` is the number of surahs among them.
pub summarize_distinct :
    (surahs ayahs : ℕ) (es : List Entry)
    → All (IsReference surahs ayahs) es
    → ((summarize es).ayahs_memorized ≡ distinct_ayahs surahs ayahs es)
      × ((summarize es).surahs_touched ≡ count_below surahs (λ n. any (is_new_of n) es))
unfolding summarize
summarize_distinct surahs ayahs es h =
    let im = group-IsMap surahs ayahs es [] h tt in
    (
      memorized_from_lem surahs ayahs 0 (group es []) im
          ∙ omega (arith, covered_ayahs-group surahs ayahs es),
      length-count_keys surahs ayahs (group es []) im
          ∙ count_below_ext surahs (λ n. has_key n (group es [])) (λ n. any (is_new_of n) es)
              (λ n. has_key-group es n [] ∙ ground arith),
    )
