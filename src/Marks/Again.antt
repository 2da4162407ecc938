-- ===== src/Marks/Again.antt =====
-- src/quran/quran-words.ts: a mark that is stored and sent again is accepted as it is.
use livetich_api.Prelude.{
  ℕ, ◌+◌, ◌≤◌, ◌≡◌, refl, sym, ◌∙◌, ap, ◌++◌, Text, true, false, Option, none, some, List, [], ◌∷◌,
  length, map, All, arith, inl, inr,
}
use livetich_api.Marks.{
  PartRef, NormalizedPart, accepted, has, add, before, insert_part, sort_parts, check_part, collect,
  validate_parts,
}
use livetich_api.Marks.Order.{InOrder, sort_parts-sorted, same_part-before, has-++}
use livetich_api.Marks.Outcomes.{Outcome-cases}
use livetich_api.Marks.Parts.{as_ref, is_there, as_ref-check, validate_parts_lem}

-- No part of `ps` is in `out`.
abbrev Apart : List NormalizedPart → List NormalizedPart → Type 0
Apart out ps = All (λ p. has p out ≡ false) ps

Apart-next :
    (out : List NormalizedPart) (p : NormalizedPart) (ps : List NormalizedPart)
    → All (λ q. before p q ≡ true) ps
    → Apart out ps
    → Apart (out ++ p ∷ []) ps
Apart-next out p [] b a = tt
Apart-next out p (q ∷ qs) (h, b) (k, a) =
    (ground (arith, has-++ q out (p ∷ []), same_part-before q p), Apart-next out p qs b a)

length-add : (p : NormalizedPart) (out : List NormalizedPart) → length (add p out) ≤ length out + 1
unfolding add
length-add p out = ground (arith, length-++ out)
  where
    length-++ : (ps : List NormalizedPart) → length (ps ++ p ∷ []) ≡ length ps + 1
    length-++ [] = refl
    length-++ (q ∷ qs) = ground (arith, length-++ qs)

length-insert_part :
    (p : NormalizedPart) (ps : List NormalizedPart) → length (insert_part p ps) ≡ length ps + 1
unfolding insert_part
length-insert_part p [] = refl
length-insert_part p (q ∷ qs) = ground (arith, length-insert_part p qs)

length-sort_parts : (ps : List NormalizedPart) → length (sort_parts ps) ≡ length ps
unfolding sort_parts
length-sort_parts [] = refl
length-sort_parts (p ∷ ps) =
    ground (arith, length-insert_part p (sort_parts ps), length-sort_parts ps)

++-assoc_one :
    (out : List NormalizedPart) (p : NormalizedPart) (ps : List NormalizedPart)
    → (out ++ p ∷ []) ++ ps ≡ out ++ p ∷ ps
++-assoc_one [] p ps = refl
++-assoc_one (q ∷ out) p ps = ap (λ l. q ∷ l) (++-assoc_one out p ps)

++-nil : (out : List NormalizedPart) → out ++ [] ≡ out
++-nil [] = refl
++-nil (q ∷ out) = ap (λ l. q ∷ l) (++-nil out)

add-new :
    (p : NormalizedPart) (out : List NormalizedPart) → has p out ≡ false → add p out ≡ out ++ p ∷ []
unfolding add
add-new p out h = rw h refl

module _ (get_surah_ayahs : ℕ → Option (List Text)) (graphemes : Text → List Text) where
  collect-step :
      (r : PartRef) (rs : List PartRef) (out : List NormalizedPart) (p : NormalizedPart)
      → check_part get_surah_ayahs graphemes r ≡ accepted p
      → collect get_surah_ayahs graphemes (r ∷ rs) out
        ≡ collect get_surah_ayahs graphemes rs (add p out)
  unfolding collect
  collect-step r rs out p h = ground (arith, h)

  collect-refs :
      (ps out : List NormalizedPart)
      → InOrder ps
      → All (λ q. is_there get_surah_ayahs graphemes q ≡ true) ps
      → Apart out ps
      → collect get_surah_ayahs graphemes (map (as_ref get_surah_ayahs graphemes) ps) out
        ≡ accepted (out ++ ps)
  unfolding collect
  collect-refs [] out o t a = ap accepted (sym (++-nil out))
  collect-refs (p ∷ ps) out (b, o) (h, t) (k, a) =
      collect-step (as_ref get_surah_ayahs graphemes p) (map (as_ref get_surah_ayahs graphemes) ps)
        out p (as_ref-check get_surah_ayahs graphemes p h)
      ∙ (rw (add-new p out k) (collect-refs ps (out ++ p ∷ []) o t (Apart-next out p ps b a))
          ∙ ap accepted (++-assoc_one out p ps))

  length-collect :
      (rs : List PartRef) (out res : List NormalizedPart)
      → collect get_surah_ayahs graphemes rs out ≡ accepted res
      → length res ≤ length rs + length out
  unfolding collect
  length-collect [] out res h = ground arith
  length-collect (r ∷ rs) out res h =
      elim (Outcome-cases (check_part get_surah_ayahs graphemes r)) [
        | inl (e, bad) ↦ absurd (ground (arith, bad))
        | inr (q, good) ↦
            let rest : collect get_surah_ayahs graphemes rs (add q out) ≡ accepted res =
              ground (arith, good) in
            omega (arith, length-collect rs (add q out) res rest, length-add q out)
      ]

  Apart-nil : (ps : List NormalizedPart) → Apart [] ps
  Apart-nil [] = tt
  Apart-nil (p ∷ ps) = (refl, Apart-nil ps)

  length-map :
      (ps : List NormalizedPart) → length (map (as_ref get_surah_ayahs graphemes) ps) ≡ length ps
  length-map [] = refl
  length-map (p ∷ ps) = ground (arith, length-map ps)

  -- A list of pieces of the text that stands in order, and is not too long, is accepted as it is.
  accepted_as_it_is :
      (p : NormalizedPart) (ps : List NormalizedPart) (limit : ℕ)
      → InOrder (p ∷ ps)
      → All (λ q. is_there get_surah_ayahs graphemes q ≡ true) (p ∷ ps)
      → length (p ∷ ps) ≤ limit
      → validate_parts get_surah_ayahs graphemes
          (some (map (as_ref get_surah_ayahs graphemes) (p ∷ ps)))
          limit
        ≡ accepted (p ∷ ps)
  unfolding validate_parts
  accepted_as_it_is p ps limit o t n = ground (
    arith,
    length-map ps,
    sort_parts-sorted (p ∷ ps) o,
    collect-refs (p ∷ ps) [] o t (Apart-nil (p ∷ ps)),
  )

  validate_parts-length :
      (list : Option (List PartRef)) (limit : ℕ) (res : List NormalizedPart)
      → validate_parts get_surah_ayahs graphemes list limit ≡ accepted res
      → length res ≤ limit
  unfolding validate_parts
  validate_parts-length none limit res h = ground arith
  validate_parts-length (some []) limit res h = ground arith
  validate_parts-length (some (r ∷ rs)) limit res h =
      elim (Outcome-cases (collect get_surah_ayahs graphemes (r ∷ rs) [])) [
        | inl (e, bad) ↦ absurd (ground (arith, bad))
        | inr (out, good) ↦
            ground (arith, good, length-collect (r ∷ rs) [] out good, length-sort_parts out)
      ]

  -- What is accepted holds no more than is allowed, and when it is sent again is accepted
  -- as it is.
  pub validate_parts_again :
      (list : Option (List PartRef)) (limit : ℕ) (p : NormalizedPart) (ps : List NormalizedPart)
      → validate_parts get_surah_ayahs graphemes list limit ≡ accepted (p ∷ ps)
      → (length (p ∷ ps) ≤ limit)
        × (validate_parts get_surah_ayahs graphemes
              (some (map (as_ref get_surah_ayahs graphemes) (p ∷ ps)))
              limit
            ≡ accepted (p ∷ ps))
  validate_parts_again list limit p ps h =
      let (ordered, there, members) =
        validate_parts_lem get_surah_ayahs graphemes list limit (p ∷ ps) p h in
      let n : length (p ∷ ps) ≤ limit = validate_parts-length list limit (p ∷ ps) h in
      (n, accepted_as_it_is p ps limit ordered there n)
