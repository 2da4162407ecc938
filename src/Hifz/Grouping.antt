-- ===== src/Hifz/Grouping.antt =====
-- src/hifz/hifz.service.ts: what the map of ranges by surah holds after the entries are grouped.
use livetich_api.Prelude.{
  ℕ, ◌≤◌, ◌<◌, ◌≡◌, refl, ◌==◌, if◌then◌else◌, Bool, false, ◌&&◌, ◌||◌, List, [], ◌∷◌, ◌++◌, any,
  All, arith,
}
use livetich_api.Hifz.{Entry, new_hifz, revision, Range, BySurah, push_range, add_entry, group}
use livetich_api.Hifz.Ranges.{inside, covered, IsRange}

-- A recitation of new memorisation that takes in ayah `k` of surah `n`.
abbrev pub recites : ℕ → ℕ → Entry → Bool
recites n k e = elim e.kind [
  | new_hifz ↦ e.surah_number == n && inside k (e.ayah_start, e.ayah_end)
  | revision ↦ false
]

abbrev pub memorizes : List Entry → ℕ → ℕ → Bool
memorizes es n k = any (recites n k) es

abbrev pub IsReference : ℕ → ℕ → Entry → Type 0
IsReference surahs ayahs e =
    (e.surah_number < surahs) × (e.ayah_start ≤ e.ayah_end) × (e.ayah_end < ayahs)

-- The ranges that the map holds for a surah.
unfoldable pub ranges_of : ℕ → BySurah → List Range
ranges_of n [] = []
ranges_of n ((k, rs) ∷ m) = if k == n then rs else ranges_of n m

covered-append :
    (k : ℕ) (xs ys : List Range) → covered k (xs ++ ys) ≡ (covered k xs || covered k ys)
covered-append k [] ys = refl
covered-append k (x ∷ xs) ys = ground (arith, covered-append k xs ys)

ranges_of-push_range :
    (n j : ℕ) (r : Range) (m : BySurah)
    → ranges_of j (push_range n r m) ≡ (if n == j then ranges_of j m ++ r ∷ [] else ranges_of j m)
unfolding ranges_of push_range
ranges_of-push_range n j r [] = ground arith
ranges_of-push_range n j r ((k, rs) ∷ m) = ground (arith, ranges_of-push_range n j r m)

covered-add_entry :
    (e : Entry) (j k : ℕ) (m : BySurah)
    → covered k (ranges_of j (add_entry e m)) ≡ (recites j k e || covered k (ranges_of j m))
covered-add_entry e j k m = ground (
  arith,
  ranges_of-push_range e.surah_number j (e.ayah_start, e.ayah_end) m,
  covered-append k (ranges_of j m) ((e.ayah_start, e.ayah_end) ∷ []),
)

pub covered-group :
    (es : List Entry) (j k : ℕ) (m : BySurah)
    → covered k (ranges_of j (group es m)) ≡ (memorizes es j k || covered k (ranges_of j m))
unfolding group
covered-group [] j k m = refl
covered-group (e ∷ es) j k m =
    ground (arith, covered-group es j k (add_entry e m), covered-add_entry e j k m)

-- A new recitation of the surah.
abbrev pub is_new_of : ℕ → Entry → Bool
is_new_of n e = elim e.kind [ new_hifz ↦ e.surah_number == n | revision ↦ false ]

abbrev pub has_key : ℕ → BySurah → Bool
has_key n m = any (λ e. e.0 == n) m

-- Keys are distinct and below `surahs`, and every range is one of ayahs below `ayahs`.
abbrev pub IsMap : ℕ → ℕ → BySurah → Type 0
IsMap surahs ayahs [] = Unit
IsMap surahs ayahs ((k, rs) ∷ m) =
    (k < surahs) × All (IsRange ayahs) rs × (has_key k m ≡ false) × IsMap surahs ayahs m

pub has_key-push_range :
    (n j : ℕ) (r : Range) (m : BySurah) → has_key j (push_range n r m) ≡ ((n == j) || has_key j m)
unfolding push_range
has_key-push_range n j r [] = ground arith
has_key-push_range n j r ((k, rs) ∷ m) = ground (arith, has_key-push_range n j r m)

All-push :
    (ayahs : ℕ) (r : Range) (rs : List Range)
    → IsRange ayahs r
    → All (IsRange ayahs) rs
    → All (IsRange ayahs) (rs ++ r ∷ [])
All-push ayahs r [] h hs = (h, tt)
All-push ayahs r (q ∷ qs) h (hq, hs) = (hq, All-push ayahs r qs h hs)

push_range-IsMap :
    (surahs ayahs n : ℕ) (r : Range) (m : BySurah)
    → n < surahs
    → IsRange ayahs r
    → IsMap surahs ayahs m
    → IsMap surahs ayahs (push_range n r m)
unfolding push_range
push_range-IsMap surahs ayahs n r [] lt h im = (lt, (h, tt), refl, tt)
push_range-IsMap surahs ayahs n r ((k, rs) ∷ m) lt h (kl, hs, absent, im) = ground (
  arith,
  All-push ayahs r rs h hs,
  has_key-push_range n k r m,
  push_range-IsMap surahs ayahs n r m lt h im,
)

add_entry-IsMap :
    (surahs ayahs : ℕ) (e : Entry) (m : BySurah)
    → IsReference surahs ayahs e
    → IsMap surahs ayahs m
    → IsMap surahs ayahs (add_entry e m)
add_entry-IsMap surahs ayahs e m (lt, ne, hi) im = ground (
  arith,
  push_range-IsMap surahs ayahs e.surah_number (e.ayah_start, e.ayah_end) m lt (ne, hi) im,
)

pub group-IsMap :
    (surahs ayahs : ℕ) (es : List Entry) (m : BySurah)
    → All (IsReference surahs ayahs) es
    → IsMap surahs ayahs m
    → IsMap surahs ayahs (group es m)
unfolding group
group-IsMap surahs ayahs [] m h im = im
group-IsMap surahs ayahs (e ∷ es) m (h, hs) im =
    group-IsMap surahs ayahs es (add_entry e m) hs (add_entry-IsMap surahs ayahs e m h im)
