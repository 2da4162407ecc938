-- ===== src/Archive/Bounds.antt =====
-- src/coding/coding-archive.util.ts: what an index holds.
use Prim.Native.String.{String}
use livetich_api.Prelude.{
  true, not, ◌&&◌, ◌||◌, same, codes, any, all, ℕ, ◌+◌, ◌≤◌, ltb, leb, ◌==◌, ◌≡◌, refl, ◌⊎◌, Text,
  Bool, false, List, [], ◌∷◌, ◌++◌, length, All, arith, Bool-cases, inl, inr,
}
use livetich_api.Code.{segments_of}
use livetich_api.Archive.{
  Entry, IndexedFile, ArchiveIndex, Indexed, too_large, no_files, indexed, max_files,
  max_total_uncompressed, is_unsafe_or_skipped, is_skip_dir, is_absolute_drive, is_skipped, file_of,
  index_entries, insert_file, sort_files, index_archive,
}

-- The bytes of all files.
unfoldable pub bytes_of : List IndexedFile → ℕ
bytes_of [] = 0
bytes_of (f ∷ fs) = f.size + bytes_of fs

bytes_of-++ : (fs gs : List IndexedFile) → bytes_of (fs ++ gs) ≡ bytes_of fs + bytes_of gs
unfolding bytes_of
bytes_of-++ [] gs = omega arith
bytes_of-++ (f ∷ fs) gs = omega (arith, bytes_of-++ fs gs)

bytes_of-one : (f : IndexedFile) → bytes_of (f ∷ []) ≡ f.size
unfolding bytes_of
bytes_of-one f = omega arith

length-add : (fs : List IndexedFile) (g : IndexedFile) → length (fs ++ g ∷ []) ≡ length fs + 1
length-add [] g = refl
length-add (f ∷ fs) g = omega (arith, length-add fs g)

none_bytes : bytes_of [] ≤ 0
unfolding bytes_of
none_bytes = omega arith

Indexed-cases :
    (r : Indexed ArchiveIndex)
    → (r ≡ too_large) ⊎ ((r ≡ no_files) ⊎ ((i : ArchiveIndex) × (r ≡ indexed i)))
Indexed-cases too_large = inl refl
Indexed-cases no_files = inr (inl refl)
Indexed-cases (indexed i) = inr (inr (i, refl))

-- The directories of tools, none of which a path may go through.
abbrev tool_dirs : List String
tool_dirs =
    "node_modules" ∷ ".git" ∷ "dist" ∷ "build" ∷ ".next" ∷ "out" ∷ "coverage" ∷ "vendor"
    ∷ "__pycache__" ∷ ".venv" ∷ "venv" ∷ ".idea" ∷ ".vscode" ∷ []

-- Neither `..` nor such a directory.
abbrev is_inward : Text → Bool
is_inward part = not (same part (codes "..") || any (λ d. same (codes d) part) tool_dirs)

-- Not empty, and not from a root: it begins with no slash of either kind.
abbrev is_relative : Text → Bool
is_relative [] = false
is_relative (c ∷ s) = not (c == b'/' || c == b'\\')

-- A Latin letter, a colon and a slash of either kind.
abbrev names_drive : Text → Bool
names_drive (c ∷ (d ∷ (e ∷ s))) =
    d == 58 && ((e == 47 || e == 92) && ((leb 65 c && leb c 90) || (leb 97 c && leb c 122)))
names_drive s = false

-- A path that stays inside the archive, and goes through no directory of a tool.
abbrev pub IsSafe : IndexedFile → Type 0
IsSafe f =
    (is_relative f.path ≡ true)
    × (names_drive f.path ≡ false)
    × (all is_inward (segments_of f.path) ≡ true)

inward_lem :
    (parts : List Text)
    → any (λ p. same p (codes "..")) parts ≡ false
    → any is_skip_dir parts ≡ false
    → all is_inward parts ≡ true
inward_lem [] h k = refl
inward_lem (p ∷ parts) h k =
    ground (arith, h, k, inward_lem parts (ground (arith, h)) (ground (arith, k)))

relative_lem : (path : Text) → is_unsafe_or_skipped path ≡ false → is_relative path ≡ true
unfolding is_unsafe_or_skipped same
relative_lem [] h = absurd (ground (arith, h))
relative_lem (c ∷ s) h = ground (arith, h)

drive_lem : (path : Text) → is_absolute_drive path ≡ false → names_drive path ≡ false
drive_lem [] h = refl
drive_lem (c ∷ []) h = refl
drive_lem (c ∷ (d ∷ [])) h = refl
drive_lem (c ∷ (d ∷ (e ∷ s))) h = ground (arith, h)

safe_lem : (f : IndexedFile) → is_unsafe_or_skipped f.path ≡ false → IsSafe f
unfolding is_unsafe_or_skipped
safe_lem f h = (
  relative_lem f.path h,
  drive_lem f.path (ground (arith, h)),
  inward_lem (segments_of f.path) (ground (arith, h)) (ground (arith, h)),
)

module _ (to_lower_case : Text → Text) (precedes : Text → Text → Bool) where
  All-add :
      (fs : List IndexedFile) (g : IndexedFile)
      → All IsSafe fs
      → IsSafe g
      → All IsSafe (fs ++ g ∷ [])
  All-add [] g h k = (k, tt)
  All-add (f ∷ fs) g (h, hs) k = (h, All-add fs g hs k)

  -- What the loop keeps of the files and the bytes so far.
  abbrev IsWithin : List IndexedFile → ℕ → Type 0
  IsWithin files total =
      All IsSafe files
      × (length files ≤ max_files)
      × (total ≤ max_total_uncompressed)
      × (bytes_of files ≤ total)

  index_entries_lem :
      (es : List Entry) (files : List IndexedFile) (total : ℕ) (i : ArchiveIndex)
      → index_entries to_lower_case precedes es files total ≡ indexed i
      → IsWithin files total
      → IsWithin i.files i.total_uncompressed
  unfolding index_entries
  index_entries_lem [] files total i h (a, l, t, b) =
      let same_files : i.files ≡ files = ground (arith, h) in
      let same_total : i.total_uncompressed ≡ total = ground (arith, h) in
      rw (same_files, same_total) (a, l, t, b)
  index_entries_lem (e ∷ es) files total i h (a, l, t, b) =
      elim (Bool-cases (is_skipped to_lower_case precedes e)) [
        | inl s ↦ index_entries_lem es files total i (ground (arith, h, s)) (a, l, t, b)
        | inr s ↦ elim (Bool-cases (ltb max_total_uncompressed (total + e.size))) [
          | inl x ↦ absurd (ground (arith, h, s, x))
          | inr x ↦ elim (Bool-cases (leb max_files (length files))) [
            | inl y ↦
                let same_files : i.files ≡ files = ground (arith, h, s, x, y) in
                let same_total : i.total_uncompressed ≡ total + e.size =
                  ground (arith, h, s, x, y) in
                rw (same_files, same_total) (a, l, ground (arith, x), omega (arith, b))
            | inr y ↦
                let g = file_of to_lower_case precedes e in
                index_entries_lem es (files ++ g ∷ []) (total + e.size) i
                  (ground (arith, h, s, x, y))
                  (
                    All-add files g a (safe_lem g (ground (arith, s))),
                    ground (arith, y, length-add files g),
                    ground (arith, x),
                    omega (arith, b, bytes_of-++ files (g ∷ []), bytes_of-one g),
                  )
          ]
        ]
      ]

  insert_file_lem :
      (f : IndexedFile) (fs : List IndexedFile)
      → IsSafe f
      → All IsSafe fs
      → All IsSafe (insert_file to_lower_case precedes f fs)
        × (length (insert_file to_lower_case precedes f fs) ≡ length fs + 1)
        × (bytes_of (insert_file to_lower_case precedes f fs) ≡ f.size + bytes_of fs)
  unfolding insert_file bytes_of
  insert_file_lem f [] h a = ((h, tt), ground arith, ground arith)
  insert_file_lem f (g ∷ gs) h (k, a) =
      let (rest, l, b) = insert_file_lem f gs h a in
      elim (Bool-cases (precedes g.path f.path)) [
        | inl p ↦ rw p ((k, rest), ground (arith, l), ground (arith, b))
        | inr p ↦ rw p ((h, (k, a)), ground arith, refl)
      ]

  sort_files_lem :
      (fs : List IndexedFile)
      → All IsSafe fs
      → All IsSafe (sort_files to_lower_case precedes fs)
        × (length (sort_files to_lower_case precedes fs) ≡ length fs)
        × (bytes_of (sort_files to_lower_case precedes fs) ≡ bytes_of fs)
  unfolding sort_files bytes_of
  sort_files_lem [] a = (tt, refl, refl)
  sort_files_lem (f ∷ fs) (h, a) =
      let (b, l, n) = sort_files_lem fs a in
      let (c, m, k) = insert_file_lem f (sort_files to_lower_case precedes fs) h b in
      (c, omega (arith, l, m), omega (arith, n, k))

  -- An index has from 1 to 500 files, of at most 60 MiB together; the path of each is not empty, begins
  -- with neither a slash nor a drive, and has neither `..` nor the directory of a tool among its parts.
  pub index_archive_lem :
      (entries : List Entry) (i : ArchiveIndex)
      → index_archive to_lower_case precedes entries ≡ indexed i
      → All IsSafe i.files
        × (1 ≤ length i.files)
        × (length i.files ≤ max_files)
        × (bytes_of i.files ≤ max_total_uncompressed)
  unfolding index_archive
  index_archive_lem entries i h =
      elim (Indexed-cases (index_entries to_lower_case precedes entries [] 0)) [
        | inl e ↦ absurd (ground (arith, h, e))
        | inr (inl e) ↦ absurd (ground (arith, h, e))
        | inr (inr (j, e)) ↦
            let (a, l, t, b) =
              index_entries_lem entries [] 0 j e (tt, omega arith, omega arith, none_bytes) in
            let (c, m, n) = sort_files_lem j.files a in
            let some_files : (length j.files == 0) ≡ false = ground (arith, h, e) in
            let same_files : i.files ≡ sort_files to_lower_case precedes j.files =
              ground (arith, h, e, some_files) in
            rw same_files
              (c, ground (arith, m, some_files), omega (arith, m, l), omega (arith, n, b, t))
      ]
