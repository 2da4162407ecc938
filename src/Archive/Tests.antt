-- ===== src/Archive/Tests.antt =====
-- src/coding/coding-archive.util.ts on an archive of four entries.
use Prim.Native.String.{String}
use livetich_api.Prelude.{
  ◌≡◌, ◌≤◌, refl, Text, codes, same, Bool, true, false, List, [], ◌∷◌, length, All,
}
use livetich_api.Code.{segments_of, last_of}
use livetich_api.Archive.{
  Entry, ArchiveIndex, named, inherited, indexed, max_files, max_total_uncompressed,
  is_unsafe_or_skipped, normalize, after_dot, look_up_ext, ext_of, language_of, index_entries,
  insert_file, sort_files, index_archive,
}
use livetich_api.Archive.Bounds.{IsSafe, bytes_of, index_archive_lem}

abbrev lower : Text → Text
lower s = s

abbrev always : Text → Text → Bool
always a b = true

abbrev entry : String → Entry
entry name = record { entry_name = codes name; is_directory = false; size = 10 }

-- The extension is the name of a member that every object has.
inherits : language_of lower always (codes "src/x.constructor") ≡ inherited
unfolding language_of look_up_ext ext_of after_dot segments_of last_of same
inherits = refl

abbrev entries : List Entry
entries = entry "./src\\main.ts" ∷ (entry "../up.ts" ∷ (entry "node_modules/a.js" ∷ []))

abbrev index : ArchiveIndex
index = record {
  files =
      record { path = codes "src/main.ts"; size = 10; language = named (codes "typescript") } ∷ [];
  total_uncompressed = 10;
  truncated = false;
}

made : index_archive lower always entries ≡ indexed index
unfolding index_archive index_entries is_unsafe_or_skipped normalize segments_of last_of after_dot
    language_of ext_of look_up_ext insert_file sort_files same
made = refl

index_archive_example :
    All IsSafe index.files
    × (1 ≤ length index.files)
    × (length index.files ≤ max_files)
    × (bytes_of index.files ≤ max_total_uncompressed)
index_archive_example = index_archive_lem lower always entries index made
