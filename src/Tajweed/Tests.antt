-- ===== src/Tajweed/Tests.antt =====
-- src/tajweed/tajweed-input.ts on concrete texts.
use livetich_api.Prelude.{◌≡◌, ◌≤◌, refl, codes, same, true, false, some, length}
use livetich_api.Tajweed.{
  is_tajweed_rule, is_annotation_id, is_hex_color, clean_text, strip_tags, strip_controls,
  trim_start, trim_end, take, is_empty,
}
use livetich_api.Tajweed.Clean.{has_tag, has_control, clean_text_lem}

known_rule : is_tajweed_rule (some (codes "madd.muttasil")) ≡ true
unfolding is_tajweed_rule same
known_rule = refl

legacy_rule : is_tajweed_rule (some (codes "waqf")) ≡ true
unfolding is_tajweed_rule same
legacy_rule = refl

unknown_rule : is_tajweed_rule (some (codes "madd.waqf")) ≡ false
unfolding is_tajweed_rule same
unknown_rule = refl

short_id : is_annotation_id (codes "abc-123") ≡ false
unfolding is_annotation_id
short_id = refl

grey : is_hex_color (codes "#80A0c0") ≡ true
unfolding is_hex_color
grey = refl

cleaned : clean_text (some (codes "  a<b<script>c < d ")) 60 ≡ some (codes "ac < d")
unfolding clean_text strip_tags strip_controls trim_start trim_end take
cleaned = refl

clean_text_example :
    (is_empty (codes "ac < d") ≡ false)
    × (length (codes "ac < d") ≤ 60)
    × (has_tag (codes "ac < d") ≡ false)
    × (has_control (codes "ac < d") ≡ false)
clean_text_example = clean_text_lem (some (codes "  a<b<script>c < d ")) 60 (codes "ac < d") cleaned
