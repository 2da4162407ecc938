-- ===== src/Code/Quota.antt =====
-- src/code/code-doc.service.ts: what an accepted document holds.
use livetich_api.Prelude.{
  ℕ, ◌+◌, ◌≤◌, leb, leb→le, if◌then◌else◌, ◌≡◌, sym, Text, codes, same, Bool, true, not, ◌&&◌, ◌||◌,
  some, List, [], ◌∷◌, All, arith, Option-cases, inl, inr,
}
use livetich_api.Code.Doc.{
  Shared, entries, buffer, unknown, Yjs, max_code_files, max_code_text_bytes, max_code_doc_bytes,
  path_of, is_file_root, Tally, is_metadata, may_hold, is_initialized, is_placeholder, check_root,
  check_roots, no_files, apply_update,
}

module _ (y : Yjs) (to_lower_case : Text → Text) where
  open y use {Doc, Update, apply_update_to, share, byte_length}

  -- What may stand under a name.
  abbrev pub is_root : Text × Shared → Bool
  is_root (name, s) =
      (same name (codes "meta") && is_metadata y to_lower_case s)
      || ((same name (codes "file:initialized") && is_initialized y to_lower_case s)
          || (is_file_root name
              && (is_placeholder y to_lower_case (path_of name) s
                  || may_hold y to_lower_case (path_of name))))

  -- The names of files: all but the two that the editor keeps for itself.
  abbrev pub is_file : Text → Bool
  is_file name = not (same name (codes "meta")) && not (same name (codes "file:initialized"))

  abbrev pub bytes_of : Shared → ℕ
  bytes_of (buffer n b) = b
  bytes_of (entries m) = 0
  bytes_of unknown = 0

  abbrev pub is_counted : Text → Shared → Bool
  is_counted name s = is_file name && not (is_placeholder y to_lower_case (path_of name) s)

  -- The number of files, and the bytes of all of them together.
  unfoldable pub files : List (Text × Shared) → ℕ
  files [] = 0
  files ((name, s) ∷ rest) = (if is_counted name s then 1 else 0) + files rest

  unfoldable pub text_bytes : List (Text × Shared) → ℕ
  text_bytes [] = 0
  text_bytes ((name, s) ∷ rest) = (if is_counted name s then bytes_of s else 0) + text_bytes rest

  abbrev Counts : Text → Shared → Tally → Tally → Type 0
  Counts name s t u =
      (is_root (name, s) ≡ true)
      × (u.file_count ≤ max_code_files)
      × (u.total_file_bytes ≤ max_code_text_bytes)
      × (u.file_count ≡ t.file_count + (if is_counted name s then 1 else 0))
      × (u.total_file_bytes ≡ t.total_file_bytes + (if is_counted name s then bytes_of s else 0))

  check_root_lem :
      (name : Text) (s : Shared) (t u : Tally)
      → check_root y to_lower_case name s t ≡ some u
      → t.file_count ≤ max_code_files
      → t.total_file_bytes ≤ max_code_text_bytes
      → Counts name s t u
  unfolding check_root
  check_root_lem name (entries m) t u h f b = ground (arith, h)
  check_root_lem name (buffer n c) t u h f b = ground (arith, h)
  check_root_lem name unknown t u h f b = ground (arith, h)

  check_roots_lem :
      (roots : List (Text × Shared)) (t u : Tally)
      → check_roots y to_lower_case roots t ≡ some u
      → t.file_count ≤ max_code_files
      → t.total_file_bytes ≤ max_code_text_bytes
      → All (λ r. is_root r ≡ true) roots
        × (t.file_count + files roots ≤ max_code_files)
        × (t.total_file_bytes + text_bytes roots ≤ max_code_text_bytes)
  unfolding check_roots files text_bytes
  check_roots_lem [] t u h f b = (tt, ground (arith, f), ground (arith, b))
  check_roots_lem ((name, s) ∷ rest) t u h f b =
      elim (Option-cases (check_root y to_lower_case name s t)) [
        | inl e ↦ absurd (ground (arith, h, e))
        | inr (v, e) ↦
            let (root, f', b', counted, sized) = check_root_lem name s t v e f b in
            let (roots, n, k) = check_roots_lem rest v u (ground (arith, h, e)) f' b' in
            ((root, roots), omega (arith, n, counted), omega (arith, k, sized))
      ]

  -- What a document may hold.
  abbrev pub IsWithin : Doc → Type 0
  IsWithin d =
      All (λ r. is_root r ≡ true) (share d)
      × (files (share d) ≤ max_code_files)
      × (text_bytes (share d) ≤ max_code_text_bytes)
      × (byte_length d ≤ max_code_doc_bytes)

  -- An update is accepted only into a document that is, with the update, within its limits: every root
  -- of it has a name and a kind that it may have, files other than empty placeholders have paths that
  -- are safe and not protected, there are at most 500 of them with at most 20 MiB of text together, and
  -- the document takes at most 128 MiB.
  pub apply_update_lem :
      (d : Doc) (update : Update) (e : Doc)
      → apply_update y to_lower_case d update ≡ some e
      → (apply_update_to d update ≡ some e) × IsWithin e
  unfolding apply_update
  apply_update_lem d update e h = elim (Option-cases (apply_update_to d update)) [
    | inl a ↦ absurd (ground (arith, h, a))
    | inr (c, a) ↦
        elim (Option-cases (check_roots y to_lower_case (share c) (no_files y to_lower_case))) [
          | inl r ↦ absurd (ground (arith, h, a, r))
          | inr (t, r) ↦
              let same_doc : c ≡ e = ground (arith, h, a, r) in
              let small : leb (byte_length c) max_code_doc_bytes ≡ true = ground (arith, h, a, r) in
              let (roots, n, b) =
                check_roots_lem (share c) (no_files y to_lower_case) t r (omega arith)
                  (omega arith) in
              rw (sym same_doc) (
                a,
                (
                  roots,
                  omega (arith, n),
                  omega (arith, b),
                  leb→le (byte_length c) max_code_doc_bytes small,
                ),
              )
        ]
  ]
