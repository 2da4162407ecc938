-- ===== src/Marks/Parts.antt =====
-- src/quran/quran-words.ts: what `validateParts` accepts, and what it makes of it.
use livetich_api.Prelude.{
  ℕ, ltb, leb, ◌≡◌, refl, sym, ◌∙◌, ◌↔◌, Text, Bool, true, false, ◌&&◌, ◌||◌, Option, none, some,
  List, [], ◌∷◌, length, any, all, All, arith, get_elem?, Option-cases, inl, inr,
}
use livetich_api.Marks.{
  Wire, whole, other, PartRef, NormalizedPart, refused, accepted, same_part, has, add, sort_parts,
  ayah_words, check_letter, check_word, check_part, collect, validate_parts,
}
use livetich_api.Marks.Outcomes.{Outcome-cases, is_accepted, All-add, All-sort_parts}
use livetich_api.Marks.Order.{
  InOrder, Distinct, has-sort_parts, sort_parts-InOrder, has-add, Distinct-add,
}

module _ (get_surah_ayahs : ℕ → Option (List Text)) (graphemes : Text → List Text) where
  -- A letter of a word, or the whole word.
  abbrev is_letter : Option ℕ → Text → Bool
  is_letter none word = true
  is_letter (some l) word = ltb l (length (graphemes word))

  -- A letter or a word of these words, or the whole ayah.
  abbrev is_word : Option ℕ → Option ℕ → List Text → Bool
  is_word none none words = true
  is_word none (some l) words = false
  is_word (some w) letter words = elim (get_elem? words w) [
    | none ↦ false
    | some word ↦ is_letter letter word
  ]

  -- The part is a piece of the text.
  abbrev pub is_there : NormalizedPart → Bool
  is_there p =
      leb 1 p.surah_number
      && (leb p.surah_number 114
          && (leb 1 p.ayah_number
              && elim (ayah_words get_surah_ayahs graphemes p.surah_number p.ayah_number) [
                | none ↦ false
                | some words ↦ is_word p.word_index p.letter_index words
              ]))

  -- The part as a client sends it.
  abbrev wire : Option ℕ → Option Wire
  wire none = none
  wire (some n) = some (whole n)

  abbrev pub as_ref : NormalizedPart → PartRef
  as_ref p = record {
    surah_number = whole p.surah_number;
    ayah_number = whole p.ayah_number;
    word_index = wire p.word_index;
    letter_index = wire p.letter_index;
  }

  check_letter_iff :
      (surah ayah w : ℕ) (word : Text) (l : Option Wire) (p : NormalizedPart)
      → (check_letter get_surah_ayahs graphemes surah ayah w word l ≡ accepted p) ↔ (
          (p.surah_number ≡ surah)
          × (p.ayah_number ≡ ayah)
          × (p.word_index ≡ some w)
          × (l ≡ wire p.letter_index)
          × (is_letter p.letter_index word ≡ true))
  unfolding check_letter
  check_letter_iff surah ayah w word none p = (λ h. ground arith, λ h. ground arith)
  check_letter_iff surah ayah w word (some other) p = (λ h. ground arith, λ h. ground arith)
  check_letter_iff surah ayah w word (some (whole l)) p = (λ h. ground arith, λ h. ground arith)

  check_word_iff :
      (surah ayah : ℕ) (words : List Text) (w l : Option Wire) (p : NormalizedPart)
      → (check_word get_surah_ayahs graphemes surah ayah words w l ≡ accepted p) ↔ (
          (p.surah_number ≡ surah)
          × (p.ayah_number ≡ ayah)
          × (w ≡ wire p.word_index)
          × (l ≡ wire p.letter_index)
          × (is_word p.word_index p.letter_index words ≡ true))
  unfolding check_word
  check_word_iff surah ayah words none none p = (λ h. ground arith, λ h. ground arith)
  check_word_iff surah ayah words none (some l) p = (λ h. ground arith, λ h. ground arith)
  check_word_iff surah ayah words (some other) l p = (λ h. ground arith, λ h. ground arith)
  check_word_iff surah ayah words (some (whole w)) l p = elim (Option-cases (get_elem? words w)) [
    | inl e ↦ (λ h. ground (arith, e), λ h. ground (arith, e))
    | inr (word, e) ↦
        let (to, from) = check_letter_iff surah ayah w word l p in
        (λ h. ground (arith, e, to), λ h. ground (arith, e, from))
  ]

  abbrev Names : Wire → Wire → Option Wire → Option Wire → NormalizedPart → Type 0
  Names s a w l p =
      (s ≡ whole p.surah_number)
      × (a ≡ whole p.ayah_number)
      × (w ≡ wire p.word_index)
      × (l ≡ wire p.letter_index)

  check_fields_iff :
      (s a : Wire) (w l : Option Wire) (p : NormalizedPart)
      → (check_part get_surah_ayahs graphemes
            (record { surah_number = s; ayah_number = a; word_index = w; letter_index = l })
          ≡ accepted p)
        ↔ (Names s a w l p × (is_there p ≡ true))
  unfolding check_part
  check_fields_iff other a w l p = (λ h. ground arith, λ h. ground arith)
  check_fields_iff (whole s) other w l p = (λ h. ground arith, λ h. ground arith)
  check_fields_iff (whole s) (whole a) w l p =
      elim (Option-cases (ayah_words get_surah_ayahs graphemes s a)) [
        | inl e ↦ (λ h. ground (arith, e), λ h. ground (arith, e))
        | inr (words, e) ↦
            let (to, from) = check_word_iff s a words w l p in
            (λ h. ground (arith, e, to), λ h. ground (arith, e, from))
      ]

  -- A piece is accepted exactly when the text has it, as the piece that it names.
  check_part_iff :
      (r : PartRef) (p : NormalizedPart)
      → (check_part get_surah_ayahs graphemes r ≡ accepted p)
        ↔ (Names r.surah_number r.ayah_number r.word_index r.letter_index p × (is_there p ≡ true))
  check_part_iff r p = check_fields_iff r.surah_number r.ayah_number r.word_index r.letter_index p

  -- The piece that a client names, if the text has it.
  abbrev pub names : NormalizedPart → PartRef → Bool
  names p r = elim (check_part get_surah_ayahs graphemes r) [
    | refused e ↦ false
    | accepted q ↦ same_part p q
  ]

  collect_lem :
      (p : NormalizedPart) (rs : List PartRef) (out res : List NormalizedPart)
      → collect get_surah_ayahs graphemes rs out ≡ accepted res
      → Distinct out
      → All (λ q. is_there q ≡ true) out
      → (has p res ≡ (has p out || any (names p) rs))
        × Distinct res
        × All (λ q. is_there q ≡ true) res
  unfolding collect
  collect_lem p [] out res h d a = ground arith
  collect_lem p (r ∷ rs) out res h d a =
      elim (Outcome-cases (check_part get_surah_ayahs graphemes r)) [
        | inl (e, bad) ↦ absurd (ground (arith, bad))
        | inr (q, good) ↦
            let there : is_there q ≡ true = ((check_part_iff r q).0 good).1 in
            let rest : collect get_surah_ayahs graphemes rs (add q out) ≡ accepted res =
              ground (arith, good) in
            let (members, d', a') =
              collect_lem p rs (add q out) res rest (Distinct-add q out d)
                (All-add is_there q out there a) in
            (ground (arith, good, members, has-add p q out), d', a')
      ]

  -- What is accepted is in reading order with no piece twice, every piece of it is in the text, and it
  -- holds exactly the pieces that the list names.
  pub validate_parts_lem :
      (list : Option (List PartRef)) (limit : ℕ) (res : List NormalizedPart) (p : NormalizedPart)
      → validate_parts get_surah_ayahs graphemes list limit ≡ accepted res
      → InOrder res
        × All (λ q. is_there q ≡ true) res
        × (has p res ≡ elim list [ none ↦ false | some rs ↦ any (names p) rs ])
  unfolding validate_parts
  validate_parts_lem none limit res p h = ground arith
  validate_parts_lem (some []) limit res p h = ground arith
  validate_parts_lem (some (r ∷ rs)) limit res p h =
      elim (Outcome-cases (collect get_surah_ayahs graphemes (r ∷ rs) [])) [
        | inl (e, bad) ↦ absurd (ground (arith, bad))
        | inr (out, good) ↦
            let (members, d, a) = collect_lem p (r ∷ rs) [] out good tt tt in
            let sorted : sort_parts out ≡ res = ground (arith, good) in
            rw (sym sorted) (
              sort_parts-InOrder out d,
              All-sort_parts is_there out a,
              has-sort_parts p out ∙ members,
            )
      ]

  -- Whether a piece is one of the text.
  abbrev pub is_good : PartRef → Bool
  is_good r = is_accepted (check_part get_surah_ayahs graphemes r)

  collect-is_accepted :
      (rs : List PartRef) (out : List NormalizedPart)
      → is_accepted (collect get_surah_ayahs graphemes rs out) ≡ all is_good rs
  unfolding collect
  collect-is_accepted [] out = refl
  collect-is_accepted (r ∷ rs) out = elim (Outcome-cases (check_part get_surah_ayahs graphemes r)) [
    | inl (e, bad) ↦ ground (arith, bad)
    | inr (q, good) ↦ ground (arith, good, collect-is_accepted rs (add q out))
  ]

  -- A list is accepted exactly when it is a list, not empty, not longer than allowed, and each of its
  -- parts is accepted alone.
  pub validate_parts-is_accepted :
      (list : Option (List PartRef)) (limit : ℕ)
      → is_accepted (validate_parts get_surah_ayahs graphemes list limit) ≡ elim list [
        | none ↦ false
        | some rs ↦ leb 1 (length rs) && (leb (length rs) limit && all is_good rs)
      ]
  unfolding validate_parts
  validate_parts-is_accepted none limit = refl
  validate_parts-is_accepted (some []) limit = refl
  validate_parts-is_accepted (some (r ∷ rs)) limit =
      elim (Outcome-cases (collect get_surah_ayahs graphemes (r ∷ rs) [])) [
        | inl (e, bad) ↦ ground (arith, bad, collect-is_accepted (r ∷ rs) [])
        | inr (out, good) ↦ ground (arith, good, collect-is_accepted (r ∷ rs) [])
      ]

  pub as_ref-check :
      (p : NormalizedPart)
      → is_there p ≡ true
      → check_part get_surah_ayahs graphemes (as_ref p) ≡ accepted p
  as_ref-check p h = (check_part_iff (as_ref p) p).1 ((refl, refl, refl, refl), h)
