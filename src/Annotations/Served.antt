-- ===== src/Annotations/Served.antt =====
-- src/tajweed/tajweed.service.ts: every stored mark is valid, whatever requests were served.
use livetich_api.Prelude.{ℕ, Text, Option, List}
use livetich_api.Prelude.Dict
use livetich_api.Prelude.Dict.{Dict}
use livetich_api.Annotations.{AnnotationRow}
use livetich_api.Annotations.Store.{Store}
use livetich_api.Annotations.Versions.{Keyed}
use livetich_api.Annotations.Sound.{AllValid}

module _ (get_surah_ayahs : ℕ → Option (List Text)) (graphemes : Text → List Text) where
  abbrev Kept : Dict AnnotationRow → Type 0
  Kept rows = Keyed rows × AllValid get_surah_ayahs graphemes rows
