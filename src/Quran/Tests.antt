-- ===== src/Quran/Tests.antt =====
-- The reference check of src/quran/surahs.ts at concrete inputs.
use livetich_api.Prelude.{◌≡◌, refl}
use livetich_api.Quran.{Ref, ok, err, get_surah, validate_ref, check_range, surahs, start_after_end}

abbrev opening : Ref
opening = record { surah_number = 1; ayah_start = 1; ayah_end = 7 }

accepts_the_opening : validate_ref 1 1 7 ≡ ok opening
unfolding validate_ref check_range get_surah surahs
accepts_the_opening = refl

refuses_a_reversed_range : validate_ref 2 9 3 ≡ err start_after_end
unfolding validate_ref check_range get_surah surahs
refuses_a_reversed_range = refl
