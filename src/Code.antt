-- ===== src/Code.antt =====
-- src/code/code.gateway.ts and src/code/code-doc.service.ts: the shared code editor of one session.
-- This file is about the paths of files. `toLowerCase` is a parameter.
pub mod Paths
pub mod Doc
pub mod Quota
pub mod Gateway
pub mod Messages
pub mod Control
pub mod Held
pub mod Numbers
pub mod Pace
mod Tests
use Prim.Native.String.{String}
use livetich_api.Prelude.{
  ℕ, leb, ◌==◌, if◌then◌else◌, Text, codes, same, Bool, true, false, not, ◌&&◌, ◌||◌, List, [], ◌∷◌,
  map, length, any,
}

-- `value.replace(/\\/g, '/')`
abbrev pub normalize : Text → Text
normalize s = map (λ c. if c == b'\\' then b'/' else c) s

-- A code unit before the first segment.
abbrev pub onto_first : ℕ → List Text → List Text
onto_first c [] = (c ∷ []) ∷ []
onto_first c (w ∷ ws) = (c ∷ w) ∷ ws

-- `split('/')`
unfoldable pub segments_of : Text → List Text
segments_of [] = [] ∷ []
segments_of (c ∷ s) = let rest = segments_of s in if c == b'/' then [] ∷ rest else onto_first c rest

abbrev pub starts_with : Text → Text → Bool
starts_with [] s = true
starts_with (a ∷ p) [] = false
starts_with (a ∷ p) (c ∷ s) = a == c && starts_with p s

-- `endsWith`: the suffix stands at some place, and nothing follows it.
unfoldable pub ends_with : Text → Text → Bool
ends_with p [] = same p []
ends_with p (c ∷ s) = let rest = ends_with p s in same p (c ∷ s) || rest

abbrev pub is_letter : ℕ → Bool
is_letter c = (leb b'a' c && leb c b'z') || (leb b'A' c && leb c b'Z')

-- `/^[a-z]:/i`
abbrev pub has_drive : Text → Bool
has_drive [] = false
has_drive (c ∷ []) = false
has_drive (c ∷ (d ∷ s)) = is_letter c && d == b':'

-- `part === '' || part === '.' || part === '..'`
abbrev pub is_step : Text → Bool
is_step part = same part [] || (same part (codes ".") || same part (codes ".."))

abbrev pub is_secret_dir : Text → Bool
is_secret_dir segment =
    any (λ d. same (codes d) segment) (".aws" ∷ ".ssh" ∷ ".secrets" ∷ ".docker" ∷ "secrets" ∷ [])

-- `segments[segments.length - 1] ?? ''`
unfoldable pub last_of : List Text → Text
last_of [] = []
last_of (w ∷ []) = w
last_of (w ∷ (v ∷ ws)) = last_of (v ∷ ws)

abbrev pub is_env_template : Text → Bool
is_env_template name =
    same name (codes ".env.example")
    || (same name (codes ".env.sample") || same name (codes ".env.template"))

abbrev pub is_secret_file : Text → Bool
is_secret_file name =
    same name (codes ".env")
    || (starts_with (codes ".env.") name
        || (same name (codes ".npmrc")
            || (same name (codes ".netrc")
                || (same name (codes "credentials")
                    || (same name (codes "credentials.json")
                        || (same name (codes "secrets.json")
                            || (ends_with (codes ".pem") name
                                || (ends_with (codes ".key") name
                                    || (ends_with (codes ".p12") name
                                        || (ends_with (codes ".pfx") name
                                            || (starts_with (codes "id_rsa") name
                                                || starts_with (codes "id_ed25519") name)))))))))))

module _ (to_lower_case : Text → Text) where
  -- The gateway's test of a path.
  unfoldable pub is_safe_seed_path : Text → Bool
  is_safe_seed_path value =
      let normalized = normalize value in
      let segments = segments_of (to_lower_case normalized) in
      if length normalized == 0
        || (not (leb (length normalized) 512)
            || (starts_with (codes "/") normalized
                || (has_drive normalized || any is_step (segments_of normalized))))
      then false
      else if any is_secret_dir segments
      then false
      else if is_env_template (last_of segments)
      then true
      else not (is_secret_file (last_of segments))

  -- The service's two.
  unfoldable pub is_safe_document_path : Text → Bool
  is_safe_document_path value =
      let normalized = normalize value in
      leb 1 (length normalized)
      && (leb (length normalized) 512
          && (not (starts_with (codes "/") normalized)
              && (not (has_drive normalized) && not (any is_step (segments_of normalized)))))

  unfoldable pub is_protected_code_path : Text → Bool
  is_protected_code_path value =
      let segments = segments_of (to_lower_case (normalize value)) in
      if any is_secret_dir segments
      then true
      else if is_env_template (last_of segments)
      then false
      else is_secret_file (last_of segments)
