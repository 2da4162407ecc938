-- ===== src/Hifz/Ranges.antt =====
-- src/hifz/hifz.service.ts: sorting and merging the ranges of one surah counts each ayah once.
use livetich_api.Prelude.{
  ℕ, zero, suc, ◌+◌, ◌-◌, ◌≤◌, ◌<◌, ◌≡◌, refl, ap, ◌∙◌, max, min, Bool-cases, inl, inr, leb,
  if◌then◌else◌, Bool, false, ◌&&◌, ◌||◌, List, [], ◌∷◌, any, All, arith,
}
use livetich_api.Hifz.{Range, insert_range, sort_ranges, merge_from, merge_sorted}

-- How many numbers below `n` pass the test.
unfoldable pub count_below : ℕ → (ℕ → Bool) → ℕ
count_below zero p = 0
count_below (suc n) p = (if p n then 1 else 0) + count_below n p

abbrev pub inside : ℕ → Range → Bool
inside n r = leb r.0 n && leb n r.1

-- The ayah lies in one of the ranges.
abbrev pub covered : ℕ → List Range → Bool
covered n rs = any (inside n) rs

pub count_below_ext :
    (n : ℕ) (p q : ℕ → Bool) → ((k : ℕ) → p k ≡ q k) → count_below n p ≡ count_below n q
unfolding count_below
count_below_ext zero p q h = refl
count_below_ext (suc n) p q h = ground (arith, h n, count_below_ext n p q h)

count_below-or :
    (n : ℕ) (p q : ℕ → Bool)
    → ((k : ℕ) → (p k && q k) ≡ false)
    → count_below n (λ k. p k || q k) ≡ count_below n p + count_below n q
unfolding count_below
count_below-or zero p q h = refl
count_below-or (suc n) p q h = ground (arith, h n, count_below-or n p q h)

pub count_below_none : (n : ℕ) → count_below n (λ k. false) ≡ 0
unfolding count_below
count_below_none zero = refl
count_below_none (suc n) = ground (arith, count_below_none n)

count_below-inside : (n s e : ℕ) → count_below n (λ k. inside k (s, e)) ≡ min n (e + 1) - s
unfolding count_below
count_below-inside zero s e = omega arith
count_below-inside (suc n) s e = ground (arith, count_below-inside n s e)

-- Ranges in ascending order of their first ayahs, none empty, all within `n`.
abbrev pub Ascending : ℕ → ℕ → List Range → Type 0
Ascending n b [] = Unit
Ascending n b (r ∷ rs) = (b ≤ r.0) × (r.0 ≤ r.1) × (r.1 < n) × Ascending n r.0 rs

Ascending-mono : (n b c : ℕ) (rs : List Range) → b ≤ c → Ascending n c rs → Ascending n b rs
Ascending-mono n b c [] h a = tt
Ascending-mono n b c (r ∷ rs) h (lo, ne, hi, a) = (omega arith, ne, hi, a)

covered_below : (n b k : ℕ) (rs : List Range) → Ascending n b rs → k < b → covered k rs ≡ false
covered_below n b k [] a h = refl
covered_below n b k ((s, e) ∷ rs) (lo, ne, hi, a) h = ground (arith, covered_below n s k rs a)

merge_from_lem :
    (n total s e : ℕ) (rs : List Range)
    → Ascending n s rs
    → s ≤ e
    → e < n
    → merge_from total s e rs ≡ total + count_below n (λ k. inside k (s, e) || covered k rs)
unfolding merge_from
merge_from_lem n total s e [] a h lt =
    let alone =
      count_below_ext n (λ k. inside k (s, e) || false) (λ k. inside k (s, e))
        (λ k. ground arith) in
    omega (arith, alone, count_below-inside n s e)
merge_from_lem n total s e ((t, u) ∷ rs) (lo, ne, hi, a) h lt = elim (Bool-cases (leb t (e + 1))) [
  | inl joins ↦
      let ih =
        merge_from_lem n total s (max e u) rs (Ascending-mono n s t rs lo a) (omega arith)
          (omega arith) in
      let widened =
        count_below_ext n (λ k. inside k (s, max e u) || covered k rs)
          (λ k. inside k (s, e) || (inside k (t, u) || covered k rs)) (λ k. ground arith) in
      rw joins (ih ∙ ap (◌+◌ total) widened)
  | inr apart ↦
      let ih = merge_from_lem n (total + (e + 1 - s)) t u rs a ne hi in
      let split =
        count_below-or n (λ k. inside k (s, e)) (λ k. inside k (t, u) || covered k rs)
          (λ k. ground (arith, covered_below n t k rs a)) in
      rw apart (omega (arith, ih, split, count_below-inside n s e))
]

covered-insert_range :
    (k : ℕ) (r : Range) (rs : List Range)
    → covered k (insert_range r rs) ≡ (inside k r || covered k rs)
unfolding insert_range
covered-insert_range k r [] = refl
covered-insert_range k r (q ∷ qs) = ground (arith, covered-insert_range k r qs)

covered-sort_ranges : (k : ℕ) (rs : List Range) → covered k (sort_ranges rs) ≡ covered k rs
unfolding sort_ranges
covered-sort_ranges k [] = refl
covered-sort_ranges k (r ∷ rs) =
    ground (arith, covered-insert_range k r (sort_ranges rs), covered-sort_ranges k rs)

abbrev pub IsRange : ℕ → Range → Type 0
IsRange n r = (r.0 ≤ r.1) × (r.1 < n)

insert_range-Ascending :
    (n b : ℕ) (r : Range) (rs : List Range)
    → IsRange n r
    → b ≤ r.0
    → Ascending n b rs
    → Ascending n b (insert_range r rs)
unfolding insert_range
insert_range-Ascending n b r [] ok lo a = (lo, ok.0, ok.1, tt)
insert_range-Ascending n b r (q ∷ qs) ok lo (lo', ne, hi, a) = elim (Bool-cases (leb r.0 q.0)) [
  | inl first ↦ rw first (lo, ok.0, ok.1, (ground arith, ne, hi, a))
  | inr later ↦ rw later (lo', ne, hi, insert_range-Ascending n q.0 r qs ok (ground arith) a)
]

sort_ranges-Ascending :
    (n : ℕ) (rs : List Range) → All (IsRange n) rs → Ascending n 0 (sort_ranges rs)
unfolding sort_ranges
sort_ranges-Ascending n [] h = tt
sort_ranges-Ascending n (r ∷ rs) (ok, h) =
    insert_range-Ascending n 0 r (sort_ranges rs) ok (omega arith) (sort_ranges-Ascending n rs h)

merge_sorted_lem :
    (n total : ℕ) (rs : List Range)
    → Ascending n 0 rs
    → merge_sorted total rs ≡ total + count_below n (λ k. covered k rs)
merge_sorted_lem n total [] a = omega (arith, count_below_none n)
merge_sorted_lem n total ((s, e) ∷ rs) (lo, ne, hi, a) = merge_from_lem n total s e rs a ne hi

-- Whatever the order of the ranges and their overlaps, the merge adds the number of ayahs covered.
pub merge-sort_ranges :
    (n total : ℕ) (rs : List Range)
    → All (IsRange n) rs
    → merge_sorted total (sort_ranges rs) ≡ total + count_below n (λ k. covered k rs)
merge-sort_ranges n total rs h =
    merge_sorted_lem n total (sort_ranges rs) (sort_ranges-Ascending n rs h)
    ∙ ap (◌+◌ total) (
        count_below_ext n (λ k. covered k (sort_ranges rs)) (λ k. covered k rs)
          (λ k. covered-sort_ranges k rs))
