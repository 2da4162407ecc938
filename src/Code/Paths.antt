-- ===== src/Code/Paths.antt =====
-- src/code/code.gateway.ts and src/code/code-doc.service.ts: what the tests of a path let through.
use livetich_api.Prelude.{
  ℕ, leb, ◌==◌, if◌then◌else◌, ◌≡◌, refl, ap, Text, codes, same, Bool, true, false, not, ◌&&◌, ◌||◌,
  List, [], ◌∷◌, length, length-map, leb→le, ◌≤◌, ◌∙◌, any, arith,
}
use livetich_api.Code.{
  normalize, segments_of, starts_with, has_drive, is_step, is_secret_dir, last_of, is_env_template,
  is_secret_file, is_safe_seed_path, is_safe_document_path, is_protected_code_path,
}

abbrev pub parent : List Text → List Text
parent [] = []
parent (d ∷ ds) = ds

-- Where a path leads from a directory, both given from the inside out: `.` and an empty segment stay,
-- `..` goes up.
unfoldable pub walk : List Text → List Text → List Text
walk [] at = at
walk (w ∷ ws) at = walk ws (
    if same w [] || same w (codes ".")
    then at
    else if same w (codes "..")
    then parent at
    else w ∷ at)

-- The segments of a path below a directory, one inside the other.
abbrev pub inside : List Text → List Text → List Text
inside [] at = at
inside (w ∷ ws) at = inside ws (w ∷ at)

walk-inside : (ws at : List Text) → any is_step ws ≡ false → walk ws at ≡ inside ws at
unfolding walk
walk-inside [] at h = refl
walk-inside (w ∷ ws) at h =
    let here : (if same w [] || same w (codes ".")
          then at
          else if same w (codes "..")
          then parent at
          else w ∷ at)
        ≡ w ∷ at =
      ground (arith, h) in
    ap (walk ws) here ∙ walk-inside ws (w ∷ at) (ground (arith, h))

tests_agree :
    (n : ℕ) (slash drive steps dir template file : Bool)
    → (if n == 0 || (not (leb n 512) || (slash || (drive || steps)))
        then false
        else if dir
        then false
        else if template
        then true
        else not file)
      ≡ (leb 1 n
          && (leb n 512 && (not slash && (not drive && not steps)))
          && not (if dir then true else if template then false else file))
tests_agree n slash drive steps dir template file = ground arith

module _ (to_lower_case : Text → Text) where
  -- A path that the service lets through has at most 512 code units, and from any directory it leads to
  -- just the file below that its segments name.
  pub is_safe_document_path_lem :
      (s : Text) (at : List Text)
      → is_safe_document_path to_lower_case s ≡ true
      → (length s ≤ 512)
        × (walk (segments_of (normalize s)) at ≡ inside (segments_of (normalize s)) at)
  unfolding is_safe_document_path
  is_safe_document_path_lem s at h = (
    ground (
      arith,
      h,
      length-map (λ c. if c == b'\\' then b'/' else c) s,
      leb→le (length (normalize s)) 512,
    ),
    walk-inside (segments_of (normalize s)) at (ground (arith, h)),
  )

  -- The gateway lets exactly those paths through that the service finds safe and not protected.
  pub is_safe_seed_path_lem :
      (s : Text)
      → is_safe_seed_path to_lower_case s
        ≡ (is_safe_document_path to_lower_case s && not (is_protected_code_path to_lower_case s))
  unfolding is_safe_seed_path is_safe_document_path is_protected_code_path
  is_safe_seed_path_lem s =
      let segments = segments_of (to_lower_case (normalize s)) in
      tests_agree (length (normalize s)) (starts_with (codes "/") (normalize s))
        (has_drive (normalize s)) (any is_step (segments_of (normalize s)))
        (any is_secret_dir segments) (is_env_template (last_of segments))
        (is_secret_file (last_of segments))
