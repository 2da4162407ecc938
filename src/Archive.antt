-- ===== src/Archive.antt =====
-- src/coding/coding-archive.util.ts: the index of a submitted archive. The entries of the archive, as
-- the zip library lists them, are an argument; `toLowerCase` and `localeCompare` are parameters.
pub mod Bounds
mod Tests
use Prim.Native.String.{String}
use livetich_api.Prelude.{
  ℕ, ◌+◌, ltb, leb, ◌==◌, if◌then◌else◌, Text, codes, same, Bool, true, false, not, ◌&&◌, ◌||◌,
  Option, none, some, is_some, List, [], ◌∷◌, ◌++◌, length, any,
}
use livetich_api.Code.{segments_of, starts_with, is_letter, last_of}

pub record Entry : Type 0 where
  pub entry_name : Text
  pub is_directory : Bool
  pub size : ℕ

-- What `LANG_BY_EXT[…] ?? null` is: the object literal inherits from `Object.prototype`, so at the name of
-- a member of that it is the member.
pub data Language : Type 0 where
  named : Text → Language
  inherited null : Language

pub record IndexedFile : Type 0 where
  pub path : Text
  pub size : ℕ
  pub language : Language

pub record ArchiveIndex : Type 0 where
  pub files : List IndexedFile
  pub total_uncompressed : ℕ
  pub truncated : Bool

-- The errors that `indexArchive` throws of an archive that can be opened.
pub data Indexed {v} (Value : Type v) : Type v where
  too_large no_files : Indexed Value
  indexed : Value → Indexed Value

abbrev pub max_files : ℕ
max_files = 500

abbrev pub max_total_uncompressed : ℕ
max_total_uncompressed = 62914560

-- `SKIP_DIRS`
abbrev pub is_skip_dir : Text → Bool
is_skip_dir part =
    any (λ d. same (codes d) part)
      ("node_modules" ∷ ".git" ∷ "dist" ∷ "build" ∷ ".next" ∷ "out" ∷ "coverage" ∷ "vendor"
        ∷ "__pycache__" ∷ ".venv" ∷ "venv" ∷ ".idea" ∷ ".vscode" ∷ [])

-- `/^[a-zA-Z]:[\\/]/`
abbrev pub is_absolute_drive : Text → Bool
is_absolute_drive (c ∷ (d ∷ (e ∷ s))) = is_letter c && (d == b':' && (e == b'/' || e == b'\\'))
is_absolute_drive s = false

unfoldable pub is_unsafe_or_skipped : Text → Bool
is_unsafe_or_skipped path =
    (same path [] || (starts_with (codes "/") path || starts_with (b'\\' ∷ []) path))
    || (is_absolute_drive path
        || (any (λ p. same p (codes "..")) (segments_of path)
            || any is_skip_dir (segments_of path)))

abbrev pub slashes : Text → Text
slashes [] = []
slashes (c ∷ s) = (if c == b'\\' then b'/' else c) ∷ slashes s

abbrev pub without_dot : Text → Text
without_dot (c ∷ (d ∷ s)) = if c == b'.' && d == b'/' then s else c ∷ (d ∷ s)
without_dot s = s

-- `replace(/\\/g, '/').replace(/^\.\//, '')`
unfoldable pub normalize : Text → Text
normalize name = without_dot (slashes name)

-- What follows the last dot.
unfoldable pub after_dot : Text → Option Text
after_dot [] = none
after_dot (c ∷ s) =
    let rest = after_dot s in if is_some rest then rest else if c == b'.' then some s else none

abbrev pub tail : Text → Text
tail [] = []
tail (c ∷ s) = s

abbrev pub or_empty : Option Text → Text
or_empty none = []
or_empty (some s) = s

-- `LANG_BY_EXT`
lang_by_ext : List (String × String)
lang_by_ext =
    ("ts", "typescript")
    ∷ ("tsx", "typescript")
    ∷ ("js", "javascript")
    ∷ ("jsx", "javascript")
    ∷ ("mjs", "javascript")
    ∷ ("cjs", "javascript")
    ∷ ("py", "python")
    ∷ ("java", "java")
    ∷ ("kt", "kotlin")
    ∷ ("go", "go")
    ∷ ("rs", "rust")
    ∷ ("rb", "ruby")
    ∷ ("php", "php")
    ∷ ("c", "c")
    ∷ ("h", "c")
    ∷ ("cpp", "cpp")
    ∷ ("hpp", "cpp")
    ∷ ("cc", "cpp")
    ∷ ("cs", "csharp")
    ∷ ("swift", "swift")
    ∷ ("sql", "sql")
    ∷ ("html", "html")
    ∷ ("htm", "html")
    ∷ ("css", "css")
    ∷ ("scss", "scss")
    ∷ ("sass", "sass")
    ∷ ("less", "less")
    ∷ ("json", "json")
    ∷ ("md", "markdown")
    ∷ ("yml", "yaml")
    ∷ ("yaml", "yaml")
    ∷ ("vue", "vue")
    ∷ ("svelte", "svelte")
    ∷ ("prisma", "prisma")
    ∷ ("graphql", "graphql")
    ∷ ("gql", "graphql")
    ∷ []

-- The members of `Object.prototype`.
abbrev pub is_object_member : Text → Bool
is_object_member name =
    any (λ m. same (codes m) name)
      ("constructor" ∷ "__proto__" ∷ "hasOwnProperty" ∷ "isPrototypeOf" ∷ "propertyIsEnumerable"
        ∷ "toLocaleString" ∷ "toString" ∷ "valueOf" ∷ "__defineGetter__" ∷ "__defineSetter__"
        ∷ "__lookupGetter__" ∷ "__lookupSetter__" ∷ [])

unfoldable pub look_up_ext : Text → List (String × String) → Language
look_up_ext ext [] = if is_object_member ext then inherited else null
look_up_ext ext ((k, v) ∷ rows) =
    let rest = look_up_ext ext rows in if same (codes k) ext then named (codes v) else rest

module _ (to_lower_case : Text → Text) (precedes : Text → Text → Bool) where
  unfoldable pub ext_of : Text → Text
  ext_of path =
      let base = last_of (segments_of path) in
      if same (to_lower_case base) (codes "dockerfile")
      then codes "dockerfile"
      else to_lower_case (or_empty (after_dot (tail base)))

  unfoldable pub language_of : Text → Language
  unfolding lang_by_ext
  language_of path = look_up_ext (ext_of path) lang_by_ext

  abbrev pub is_skipped : Entry → Bool
  is_skipped e = e.is_directory || is_unsafe_or_skipped (normalize e.entry_name)

  abbrev pub file_of : Entry → IndexedFile
  file_of e =
      let path = normalize e.entry_name in
      record { path = path; size = e.size; language = language_of path }

  -- The loop, with the files and the bytes so far.
  unfoldable pub index_entries : List Entry → List IndexedFile → ℕ → Indexed ArchiveIndex
  index_entries [] files total =
      indexed (record { files = files; total_uncompressed = total; truncated = false })
  index_entries (e ∷ es) files total = elim (is_skipped e) [
    | true ↦ index_entries es files total
    | false ↦ elim (ltb max_total_uncompressed (total + e.size)) [
      | true ↦ too_large
      | false ↦ elim (leb max_files (length files)) [
        | true ↦
            indexed
              (record { files = files; total_uncompressed = total + e.size; truncated = true })
        | false ↦ index_entries es (files ++ file_of e ∷ []) (total + e.size)
      ]
    ]
  ]

  -- `files.sort((a, b) => a.path.localeCompare(b.path))`
  unfoldable pub insert_file : IndexedFile → List IndexedFile → List IndexedFile
  insert_file f [] = f ∷ []
  insert_file f (g ∷ gs) =
      let rest = insert_file f gs in if precedes g.path f.path then g ∷ rest else f ∷ (g ∷ gs)

  unfoldable pub sort_files : List IndexedFile → List IndexedFile
  sort_files [] = []
  sort_files (f ∷ fs) = insert_file f (sort_files fs)

  unfoldable pub index_archive : List Entry → Indexed ArchiveIndex
  index_archive entries = elim (index_entries entries [] 0) [
    | too_large ↦ too_large
    | no_files ↦ no_files
    | indexed i ↦
        if length i.files == 0 then no_files else indexed (record i { files = sort_files i.files })
  ]
