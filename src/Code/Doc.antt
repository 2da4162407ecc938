-- ===== src/Code/Doc.antt =====
-- src/code/code-doc.service.ts: the Yjs document of one session's code editor, and who may write it.
-- Yjs is a parameter: documents, how an update is merged, and the named roots of a document.
use livetich_api.Prelude.{
  ℕ, ◌+◌, leb, ◌==◌, if◌then◌else◌, Text, codes, same, Bool, true, false, not, ◌&&◌, Option, none,
  some, List, [], ◌∷◌, length, any, all,
}
use livetich_api.Identity.{JwtPayload}
use livetich_api.Code.{starts_with, is_safe_document_path, is_protected_code_path}

pub data Value : Type 0 where
  text : Text → Value
  yes other : Value

-- What stands under a name: a map with its keys (`yes` is the value `true`), or a text with its length
-- in code units and in bytes of UTF-8.
pub data Shared : Type 0 where
  entries : List (Text × Value) → Shared
  buffer : ℕ → ℕ → Shared
  unknown : Shared

pub record Yjs : Type 1 where
  pub Doc : Type 0
  pub Update : Type 0
  pub apply_update_to : Doc → Update → Option Doc
  pub share : Doc → List (Text × Shared)
  pub byte_length : Doc → ℕ
  pub utf8_length : Text → ℕ

abbrev pub max_code_files : ℕ
max_code_files = 500

abbrev pub max_code_file_bytes : ℕ
max_code_file_bytes = 1048576

abbrev pub max_code_text_bytes : ℕ
max_code_text_bytes = 20971520

abbrev pub max_code_doc_bytes : ℕ
max_code_doc_bytes = 134217728

-- `name.slice('file:'.length)`
abbrev pub without_prefix : Text → Text → Text
without_prefix [] s = s
without_prefix (a ∷ p) [] = []
without_prefix (a ∷ p) (c ∷ s) = without_prefix p s

abbrev pub path_of : Text → Text
path_of name = without_prefix (codes "file:") name

abbrev pub is_file_root : Text → Bool
is_file_root name = starts_with (codes "file:") name

-- The files that were counted, and their bytes.
pub record Tally : Type 0 where
  pub file_count : ℕ
  pub total_file_bytes : ℕ

module _ (y : Yjs) (to_lower_case : Text → Text) where
  open y use {Doc, Update, apply_update_to, share, byte_length, utf8_length}

  abbrev pub is_language : Text × Value → Bool
  is_language (key, text v) = same key (codes "lang") && leb (length v) 32
  is_language (key, yes) = false
  is_language (key, other) = false

  abbrev pub value_bytes : Value → ℕ
  value_bytes (text v) = utf8_length v
  value_bytes yes = 0
  value_bytes other = 0

  unfoldable pub metadata_bytes : List (Text × Value) → ℕ
  metadata_bytes [] = 0
  metadata_bytes ((key, v) ∷ rest) = utf8_length key + value_bytes v + metadata_bytes rest

  unfoldable pub is_metadata : Shared → Bool
  is_metadata (entries m) = leb (length m) 8 && (all is_language m && leb (metadata_bytes m) 256)
  is_metadata (buffer n b) = false
  is_metadata unknown = false

  unfoldable pub may_hold : Text → Bool
  may_hold path =
      is_safe_document_path to_lower_case path && not (is_protected_code_path to_lower_case path)

  abbrev pub is_yes : Value → Bool
  is_yes (text v) = false
  is_yes yes = true
  is_yes other = false

  unfoldable pub is_initialized : Shared → Bool
  is_initialized (entries m) =
      leb (length m) max_code_files && all (λ e. may_hold e.0 && is_yes e.1) m
  is_initialized (buffer n b) = false
  is_initialized unknown = false

  abbrev pub is_placeholder : Text → Shared → Bool
  is_placeholder path (buffer n b) = same path [] && n == 0
  is_placeholder path (entries m) = false
  is_placeholder path unknown = false

  -- A file of so many bytes, if there is still room.
  abbrev pub count_file : ℕ → Tally → Option Tally
  count_file b t =
      if leb (t.file_count + 1) max_code_files
        && (leb b max_code_file_bytes && leb (t.total_file_bytes + b) max_code_text_bytes)
      then some
          (record { file_count = t.file_count + 1; total_file_bytes = t.total_file_bytes + b })
      else none

  abbrev pub count_shared : Shared → Tally → Option Tally
  count_shared (buffer n b) t = count_file b t
  count_shared (entries m) t = none
  count_shared unknown t = none

  -- One root, with the checks of its turn of the loop: `none` where one throws.
  unfoldable pub check_root : Text → Shared → Tally → Option Tally
  check_root name s t =
      if same name (codes "meta")
      then if is_metadata s then some t else none
      else if same name (codes "file:initialized")
      then if is_initialized s then some t else none
      else if not (is_file_root name)
      then none
      else if is_placeholder (path_of name) s
      then some t
      else if may_hold (path_of name)
      then count_shared s t
      else none

  unfoldable pub check_roots : List (Text × Shared) → Tally → Option Tally
  check_roots [] t = some t
  check_roots ((name, s) ∷ rest) t = elim (check_root name s t) [
    | none ↦ none
    | some u ↦ check_roots rest u
  ]

  abbrev pub no_files : Tally
  no_files = record { file_count = 0; total_file_bytes = 0 }

  -- `applyUpdate`: the new document, unless the update is refused.
  unfoldable pub apply_update : Doc → Update → Option Doc
  apply_update doc update = elim (apply_update_to doc update) [
    | none ↦ none
    | some candidate ↦ elim (check_roots (share candidate) no_files) [
      | none ↦ none
      | some t ↦ if leb (byte_length candidate) max_code_doc_bytes then some candidate else none
    ]
  ]

pub data Permission : Type 0 where
  instructor_only open_ : Permission
  delegated : List Text → Permission

unfoldable pub can_write : Permission → JwtPayload → Bool
can_write instructor_only user = false
can_write open_ user = true
can_write (delegated ids) user = any (same user.sub) ids
