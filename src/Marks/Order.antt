-- ===== src/Marks/Order.antt =====
-- src/quran/quran-words.ts: reading order is a strict order, and the sort puts parts in it.
use livetich_api.Prelude.{
  ℕ, ◌==◌, ◌≡◌, refl, true, false, not, ◌&&◌, ◌||◌, Option, none, some, List, [], ◌∷◌, ◌++◌, All,
  arith, Bool-cases, inl, inr,
}
use livetich_api.Marks.{
  NormalizedPart, same_index, same_part, has, add, rank, before, insert_part, sort_parts,
}

same_index-rank : (a b : Option ℕ) → same_index a b ≡ (rank a == rank b)
unfolding rank
same_index-rank none none = refl
same_index-rank none (some n) = ground arith
same_index-rank (some m) none = ground arith
same_index-rank (some m) (some n) = ground arith

-- Two parts are the same exactly when neither comes before the other.
pub same_part-before :
    (a b : NormalizedPart) → same_part a b ≡ (not (before a b) && not (before b a))
unfolding same_part before
same_part-before a b = ground (
  arith,
  same_index-rank a.word_index b.word_index,
  same_index-rank a.letter_index b.letter_index,
)

pub same_part-sym : (a b : NormalizedPart) → same_part a b ≡ same_part b a
same_part-sym a b = ground (arith, same_part-before a b, same_part-before b a)

same_part-same : (a b c : NormalizedPart) → same_part a b ≡ true → same_part a c ≡ same_part b c
unfolding same_part
same_part-same a b c h = ground (
  arith,
  same_index-rank a.word_index b.word_index,
  same_index-rank a.letter_index b.letter_index,
  same_index-rank a.word_index c.word_index,
  same_index-rank a.letter_index c.letter_index,
  same_index-rank b.word_index c.word_index,
  same_index-rank b.letter_index c.letter_index,
)

pub before_trans :
    (a b c : NormalizedPart) → before a b ≡ true → before b c ≡ true → before a c ≡ true
unfolding before
before_trans a b c h k = ground arith

pub before_asym : (a b : NormalizedPart) → before a b ≡ true → before b a ≡ false
unfolding before
before_asym a b h = ground arith

-- Each part comes before all that follow it: reading order, and no part twice.
abbrev pub InOrder : List NormalizedPart → Type 0
InOrder [] = Unit {0}
InOrder (p ∷ ps) = All (λ q. before p q ≡ true) ps × InOrder ps

has-insert_part :
    (p q : NormalizedPart) (qs : List NormalizedPart)
    → has p (insert_part q qs) ≡ (same_part p q || has p qs)
unfolding insert_part
has-insert_part p q [] = ground arith
has-insert_part p q (r ∷ rs) = ground (arith, has-insert_part p q rs)

pub has-sort_parts :
    (p : NormalizedPart) (ps : List NormalizedPart) → has p (sort_parts ps) ≡ has p ps
unfolding sort_parts
has-sort_parts p [] = refl
has-sort_parts p (q ∷ qs) = ground (arith, has-insert_part p q (sort_parts qs), has-sort_parts p qs)

All-before_trans :
    (p q : NormalizedPart) (qs : List NormalizedPart)
    → before p q ≡ true
    → All (λ r. before q r ≡ true) qs
    → All (λ r. before p r ≡ true) qs
All-before_trans p q [] h a = tt
All-before_trans p q (r ∷ rs) h (k, a) = (before_trans p q r h k, All-before_trans p q rs h a)

All-insert_part :
    (p q : NormalizedPart) (qs : List NormalizedPart)
    → before p q ≡ true
    → All (λ r. before p r ≡ true) qs
    → All (λ r. before p r ≡ true) (insert_part q qs)
unfolding insert_part
All-insert_part p q [] h a = (h, tt)
All-insert_part p q (r ∷ rs) h (k, a) = ground (arith, All-insert_part p q rs h a)

insert_part-InOrder :
    (p : NormalizedPart) (qs : List NormalizedPart)
    → InOrder qs
    → has p qs ≡ false
    → InOrder (insert_part p qs)
unfolding insert_part
insert_part-InOrder p [] o h = (tt, tt)
insert_part-InOrder p (q ∷ qs) (a, o) h = elim (Bool-cases (before q p)) [
  | inl e ↦ rw e (All-insert_part q p qs e a, insert_part-InOrder p qs o (ground arith))
  | inr e ↦
      let first : before p q ≡ true = ground (arith, same_part-before p q) in
      rw e ((first, All-before_trans p q qs first a), (a, o))
]

-- No part stands twice.
abbrev pub Distinct : List NormalizedPart → Type 0
Distinct [] = Unit {0}
Distinct (p ∷ ps) = (has p ps ≡ false) × Distinct ps

pub sort_parts-InOrder : (ps : List NormalizedPart) → Distinct ps → InOrder (sort_parts ps)
unfolding sort_parts
sort_parts-InOrder [] d = tt
sort_parts-InOrder (p ∷ ps) (absent, d) =
    insert_part-InOrder p (sort_parts ps) (sort_parts-InOrder ps d)
      (ground (arith, has-sort_parts p ps, absent))

-- A list in order is left as it is.
pub sort_parts-sorted : (ps : List NormalizedPart) → InOrder ps → sort_parts ps ≡ ps
unfolding sort_parts insert_part
sort_parts-sorted [] o = refl
sort_parts-sorted (p ∷ []) o = refl
sort_parts-sorted (p ∷ q ∷ qs) ((h, a), o) =
    ground (arith, sort_parts-sorted (q ∷ qs) o, before_asym p q h)

pub has-same :
    (p q : NormalizedPart) (ps : List NormalizedPart) → same_part p q ≡ true → has p ps ≡ has q ps
has-same p q [] h = refl
has-same p q (r ∷ rs) h = ground (arith, has-same p q rs h, same_part-same p q r h)

pub has-++ :
    (p : NormalizedPart) (ps qs : List NormalizedPart) → has p (ps ++ qs) ≡ (has p ps || has p qs)
has-++ p [] qs = refl
has-++ p (r ∷ rs) qs = ground (arith, has-++ p rs qs)

pub has-add :
    (p q : NormalizedPart) (ps : List NormalizedPart)
    → has p (add q ps) ≡ (same_part p q || has p ps)
unfolding add
has-add p q ps = elim (Bool-cases (same_part p q)) [
  | inl e ↦ ground (arith, e, has-same p q ps e, has-++ p ps (q ∷ []))
  | inr e ↦ ground (arith, e, has-++ p ps (q ∷ []))
]

Distinct-++ :
    (p : NormalizedPart) (ps : List NormalizedPart)
    → Distinct ps
    → has p ps ≡ false
    → Distinct (ps ++ p ∷ [])
Distinct-++ p [] d h = (refl, tt)
Distinct-++ p (q ∷ qs) (absent, d) h =
    (ground (arith, has-++ q qs (p ∷ []), same_part-sym q p), Distinct-++ p qs d (ground arith))

pub Distinct-add :
    (p : NormalizedPart) (ps : List NormalizedPart) → Distinct ps → Distinct (add p ps)
unfolding add
Distinct-add p ps d = elim (Bool-cases (has p ps)) [
  | inl e ↦ rw e d
  | inr e ↦ rw e (Distinct-++ p ps d e)
]
