-- ===== src/Tajweed.antt =====
-- src/tajweed/tajweed-input.ts and the table of rules in src/shared/index.ts: what a teacher may send
-- for a mark. Labels and Arabic names are left out of the table.
pub mod Clean
mod Tests
use Prim.Native.String.{String}
use livetich_api.Prelude.{
  ℕ, zero, suc, ltb, leb, ◌==◌, if◌then◌else◌, Text, codes, same, Bool, true, false, not, ◌&&◌,
  ◌||◌, Option, none, some, List, [], ◌∷◌, ◌++◌, map, length, any, all, filter,
}

pub record RuleGroup : Type 0 where
  pub key : String
  pub rules : List String

abbrev group : String → List String → RuleGroup
group k rs = record { key = k; rules = rs }

-- `TAJWEED_RULE_GROUPS`
unfoldable pub tajweed_rule_groups : List RuleGroup
tajweed_rule_groups =
    group "nun"
      ("izhar_halqi" ∷ "idgham_ghunnah" ∷ "idgham_no_ghunnah" ∷ "iqlab" ∷ "ikhfa_haqiqi" ∷ [])
    ∷ group "mim" ("ikhfa_shafawi" ∷ "idgham_shafawi" ∷ "izhar_shafawi" ∷ [])
    ∷ group "ghunnah" ("mushaddadah" ∷ [])
    ∷ group "qalqalah" ("sughra" ∷ "kubra" ∷ [])
    ∷ group "madd" (
        "tabii" ∷ "muttasil" ∷ "munfasil" ∷ "arid" ∷ "lin" ∷ "badal" ∷ "iwad" ∷ "silah_sughra"
        ∷ "silah_kubra" ∷ "lazim_kalimi_muthaqqal" ∷ "lazim_kalimi_mukhaffaf"
        ∷ "lazim_harfi_muthaqqal" ∷ "lazim_harfi_mukhaffaf" ∷ "tamkin" ∷ "farq" ∷ [])
    ∷ group "idgham" ("mutamathilayn" ∷ "mutajanisayn" ∷ "mutaqaribayn" ∷ [])
    ∷ group "lam" ("shamsiyyah" ∷ "qamariyyah" ∷ "jalalah_tafkhim" ∷ "jalalah_tarqiq" ∷ [])
    ∷ group "ra" ("tafkhim" ∷ "tarqiq" ∷ [])
    ∷ group "sifat" ("istila" ∷ "istifal" ∷ [])
    ∷ group "hamzah" ("wasl" ∷ "qat" ∷ [])
    ∷ group "waqf"
        ("lazim" ∷ "mamnu" ∷ "jaiz" ∷ "wasl_awla" ∷ "waqf_awla" ∷ "muanaqah" ∷ "saktah" ∷ [])
    ∷ []

unfoldable pub tajweed_legacy_rules : List String
tajweed_legacy_rules =
    "madd" ∷ "ghunnah" ∷ "ikhfa" ∷ "idgham" ∷ "iqlab" ∷ "izhar" ∷ "qalqalah" ∷ "waqf" ∷ []

abbrev keys_of : RuleGroup → List Text
keys_of g = map (λ r. codes g.key ++ codes "." ++ codes r) g.rules

abbrev concat : List (List Text) → List Text
concat [] = []
concat (ks ∷ kss) = ks ++ concat kss

-- `TAJWEED_RULE_KEYS`
unfoldable pub tajweed_rule_keys : List Text
unfolding tajweed_rule_groups tajweed_legacy_rules
tajweed_rule_keys =
    concat (map keys_of tajweed_rule_groups) ++ codes "custom" ∷ map codes tajweed_legacy_rules

-- A value that is no text is `none`.
unfoldable pub is_tajweed_rule : Option Text → Bool
unfolding tajweed_rule_keys
is_tajweed_rule none = false
is_tajweed_rule (some v) = any (same v) tajweed_rule_keys

abbrev pub is_between : ℕ → ℕ → ℕ → Bool
is_between lo hi c = leb lo c && leb c hi

abbrev pub is_word_unit : ℕ → Bool
is_word_unit c =
    is_between b'A' b'Z' c
    || (is_between b'a' b'z' c || (is_between b'0' b'9' c || (c == b'_' || c == b'-')))

-- `/^[A-Za-z0-9_-]{8,64}$/`
unfoldable pub is_annotation_id : Text → Bool
is_annotation_id s = all is_word_unit s && is_between 8 64 (length s)

abbrev pub is_hex_digit : ℕ → Bool
is_hex_digit c = is_between b'0' b'9' c || (is_between b'a' b'f' c || is_between b'A' b'F' c)

-- `/^#[0-9a-fA-F]{6}$/`
unfoldable pub is_hex_color : Text → Bool
is_hex_color [] = false
is_hex_color (c ∷ s) = c == b'#' && (all is_hex_digit s && length s == 6)

abbrev pub has_close : Text → Bool
has_close s = any (λ c. c == b'>') s

-- `replace(/<[^>]*>/g, '')`: from a `<` that a `>` follows, all up to it goes.
unfoldable pub strip_tags : Bool → Text → Text
strip_tags inside [] = []
strip_tags true (c ∷ s) = strip_tags (not (c == b'>')) s
strip_tags false (c ∷ s) =
    let kept = strip_tags false s in
    let dropped = strip_tags true s in if c == b'<' && has_close s then dropped else c ∷ kept

-- `[\u0000-\u0008\u000B\u000C\u000E-\u001F\u007F]`
abbrev pub is_control : ℕ → Bool
is_control c = leb c 8 || (c == 11 || (c == 12 || (is_between 14 31 c || c == 127)))

unfoldable pub strip_controls : Text → Text
strip_controls s = filter (λ c. not (is_control c)) s

-- The white space and line ends that `trim` takes away.
abbrev pub is_space : ℕ → Bool
is_space c =
    is_between 9 13 c
    || (c == 32
        || (c == 160
            || (c == 5760
                || (is_between 8192 8202 c
                    || (c == 8232
                        || (c == 8233
                            || (c == 8239 || (c == 8287 || (c == 12288 || c == 65279)))))))))

unfoldable pub trim_start : Text → Text
trim_start [] = []
trim_start (c ∷ s) = let rest = trim_start s in if is_space c then rest else c ∷ s

abbrev pub is_empty : Text → Bool
is_empty [] = true
is_empty (c ∷ s) = false

unfoldable pub trim_end : Text → Text
trim_end [] = []
trim_end (c ∷ s) = let rest = trim_end s in if is_space c && is_empty rest then [] else c ∷ rest

-- `slice(0, max)`
unfoldable pub take : ℕ → Text → Text
take zero s = []
take (suc n) [] = []
take (suc n) (c ∷ s) = c ∷ take n s

abbrev pub non_empty : Text → Option Text
non_empty [] = none
non_empty (c ∷ s) = some (c ∷ s)

-- A value that is no text is `none`.
unfoldable pub clean_text : Option Text → ℕ → Option Text
clean_text none limit = none
clean_text (some v) limit =
    non_empty (take limit (trim_end (trim_start (strip_controls (strip_tags false v)))))
