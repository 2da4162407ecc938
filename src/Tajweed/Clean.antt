-- ===== src/Tajweed/Clean.antt =====
-- src/tajweed/tajweed-input.ts: what is left of a text that is cleaned.
use livetich_api.Prelude.{
  ℕ, zero, suc, ◌≤◌, ltb, ◌==◌, ◌≡◌, refl, Text, same, Bool, true, false, not, ◌&&◌, ◌||◌, Option,
  none, some, [], ◌∷◌, length, any, arith,
}
use livetich_api.Tajweed.{
  has_close, strip_tags, is_control, strip_controls, trim_start, is_empty, trim_end, take,
  non_empty, clean_text, is_tajweed_rule, tajweed_rule_keys, tajweed_rule_groups,
  tajweed_legacy_rules,
}

-- A `<` that a `>` follows.
abbrev pub has_tag : Text → Bool
has_tag [] = false
has_tag (c ∷ s) = (c == b'<' && has_close s) || has_tag s

-- A control character of ASCII that is no tab, line feed or carriage return.
abbrev pub is_unwanted : ℕ → Bool
is_unwanted c = (ltb c 32 && not (c == 9 || (c == 10 || c == 13))) || c == 127

abbrev pub has_control : Text → Bool
has_control s = any is_unwanted s

is_control-is_unwanted : (c : ℕ) → is_control c ≡ is_unwanted c
is_control-is_unwanted c = ground arith

strip_tags-close : (b : Bool) (s : Text) → has_close s ≡ false → has_close (strip_tags b s) ≡ false
unfolding strip_tags
strip_tags-close b [] h = refl
strip_tags-close true (c ∷ s) h = strip_tags-close (not (c == b'>')) s (ground arith)
strip_tags-close false (c ∷ s) h = ground (arith, strip_tags-close false s, strip_tags-close true s)

strip_tags-tag : (b : Bool) (s : Text) → has_tag (strip_tags b s) ≡ false
unfolding strip_tags
strip_tags-tag b [] = refl
strip_tags-tag true (c ∷ s) = strip_tags-tag (not (c == b'>')) s
strip_tags-tag false (c ∷ s) =
    ground (arith, strip_tags-tag false s, strip_tags-tag true s, strip_tags-close false s)

-- Properties that a text keeps when parts of it are taken out.
abbrev Plain : Text → Type 0
Plain s = has_tag s ≡ false

strip_controls-close : (s : Text) → has_close s ≡ false → has_close (strip_controls s) ≡ false
unfolding strip_controls
strip_controls-close [] h = refl
strip_controls-close (c ∷ s) h = ground (arith, strip_controls-close s)

strip_controls-Plain : (s : Text) → Plain s → Plain (strip_controls s)
unfolding strip_controls
strip_controls-Plain [] h = refl
strip_controls-Plain (c ∷ s) h = ground (arith, strip_controls-Plain s, strip_controls-close s)

strip_controls-control : (s : Text) → has_control (strip_controls s) ≡ false
unfolding strip_controls
strip_controls-control [] = refl
strip_controls-control (c ∷ s) = ground (arith, is_control-is_unwanted c, strip_controls-control s)

trim_start-Plain : (s : Text) → Plain s → Plain (trim_start s)
unfolding trim_start
trim_start-Plain [] h = refl
trim_start-Plain (c ∷ s) h = ground (arith, trim_start-Plain s)

trim_start-control : (s : Text) → has_control s ≡ false → has_control (trim_start s) ≡ false
unfolding trim_start
trim_start-control [] h = refl
trim_start-control (c ∷ s) h = ground (arith, trim_start-control s)

trim_end-any : (f : ℕ → Bool) (s : Text) → any f s ≡ false → any f (trim_end s) ≡ false
unfolding trim_end
trim_end-any f [] h = refl
trim_end-any f (c ∷ s) h = ground (arith, trim_end-any f s)

trim_end-Plain : (s : Text) → Plain s → Plain (trim_end s)
unfolding trim_end
trim_end-Plain [] h = refl
trim_end-Plain (c ∷ s) h = ground (arith, trim_end-Plain s, trim_end-any (λ c. c == b'>') s)

take-any : (f : ℕ → Bool) (n : ℕ) (s : Text) → any f s ≡ false → any f (take n s) ≡ false
unfolding take
take-any f zero s h = refl
take-any f (suc n) [] h = refl
take-any f (suc n) (c ∷ s) h = ground (arith, take-any f n s)

take-Plain : (n : ℕ) (s : Text) → Plain s → Plain (take n s)
unfolding take
take-Plain zero s h = refl
take-Plain (suc n) [] h = refl
take-Plain (suc n) (c ∷ s) h = ground (arith, take-Plain n s, take-any (λ c. c == b'>') n s)

length-take-le : (n : ℕ) (s : Text) → length (take n s) ≤ n
unfolding take
length-take-le zero s = omega arith
length-take-le (suc n) [] = omega arith
length-take-le (suc n) (c ∷ s) = omega (arith, length-take-le n s)

non_empty-some : (s t : Text) → non_empty s ≡ some t → (t ≡ s) × (is_empty t ≡ false)
non_empty-some [] t h = ground arith
non_empty-some (c ∷ s) t h = ground arith

-- What is left of a text is not empty, no longer than allowed, and has no tag and no control character
-- of ASCII (below 32, or 127) but tabs, line feeds and carriage returns.
pub clean_text_lem :
    (v : Option Text) (limit : ℕ) (t : Text)
    → clean_text v limit ≡ some t
    → (is_empty t ≡ false) × (length t ≤ limit) × (has_tag t ≡ false) × (has_control t ≡ false)
unfolding clean_text
clean_text_lem none limit t h = ground arith
clean_text_lem (some v) limit t h =
    let plain = strip_tags-tag false v in
    let s = strip_controls (strip_tags false v) in
    let u = trim_end (trim_start s) in
    let (same_text, full) = non_empty-some (take limit u) t h in
    let no_tag : has_tag (take limit u) ≡ false = take-Plain limit u (
      trim_end-Plain (trim_start s)
        (trim_start-Plain s (strip_controls-Plain (strip_tags false v) plain))) in
    let no_control : has_control (take limit u) ≡ false = take-any is_unwanted limit u (
      trim_end-any is_unwanted (trim_start s)
        (trim_start-control s (strip_controls-control (strip_tags false v)))) in
    (full, rw same_text (length-take-le limit u), rw same_text no_tag, rw same_text no_control)

-- The empty string is no rule, and neither is a value that is no text.
pub no_empty_rule : (is_tajweed_rule (some []) ≡ false) × (is_tajweed_rule none ≡ false)
unfolding is_tajweed_rule tajweed_rule_keys tajweed_rule_groups tajweed_legacy_rules same
no_empty_rule = (refl, refl)
