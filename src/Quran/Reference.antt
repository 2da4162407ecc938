-- ===== src/Quran/Reference.antt =====
-- src/quran/surahs.ts: which references are accepted.
use livetich_api.Prelude.{
  ℕ, zero, suc, ◌≤◌, ◌<◌, ◌≡◌, ◌↔◌, refl, inl, inr, some, List, [], ◌∷◌, get_elem?, length, arith,
  Option-cases,
}
use livetich_api.Quran.{Surah, surahs, get_surah, Ref, ok, check_range, validate_ref, total_from}

-- The catalog has 114 surahs and 6236 ayahs.
surahs_count : (length surahs ≡ 114) × (total_from surahs ≡ 6236)
unfolding surahs total_from
surahs_count = (refl, refl)

-- A reference is accepted, as it was given, exactly when the surah is in the catalog and the range is
-- a non-empty one of its ayahs, which are counted from 1.
pub validate_ref_iff :
    (n start end : ℕ) (r : Ref)
    → (validate_ref n start end ≡ ok r) ↔ (
        (s : Surah) × (get_surah n ≡ some s)
        × (1 ≤ start)
        × (start ≤ end)
        × (end ≤ s.ayah_count)
        × (r ≡ record { surah_number = n; ayah_start = start; ayah_end = end }))
unfolding validate_ref check_range
validate_ref_iff n start end r = elim (Option-cases (get_surah n)) [
  | inl e ↦ ((λ h. ground arith), (λ w. ground (arith, w.1)))
  | inr (s, e) ↦ (
    (λ h. (s, e, ground arith, ground arith, ground arith, ground arith)),
    (λ w. ground (arith, w.1, w.2, w.3, w.4, w.5)),
  )
]

get_elem?-IsSome :
    (ss : List Surah) (i : ℕ) → i < length ss → (s : Surah) × (get_elem? ss i ≡ some s)
get_elem?-IsSome [] i h = elim h [ ]
get_elem?-IsSome (s ∷ ss) zero h = (s, refl)
get_elem?-IsSome (s ∷ ss) (suc i) h = get_elem?-IsSome ss i (omega arith)
