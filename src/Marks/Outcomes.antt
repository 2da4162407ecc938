-- ===== src/Marks/Outcomes.antt =====
-- src/quran/quran-words.ts: what a check answers, and a test that all parts of a list pass.
use livetich_api.Prelude.{
  ◌≡◌, refl, ◌++◌, Bool, true, false, List, [], ◌∷◌, All, arith, Bool-cases, ◌⊎◌, inl, inr,
}
use livetich_api.Marks.{
  NormalizedPart, Outcome, refused, accepted, PartError, has, add, insert_part, sort_parts,
}

pub Outcome-cases :
    {A : Type 0} (o : Outcome A)
    → ((e : PartError) × (o ≡ refused e)) ⊎ ((a : A) × (o ≡ accepted a))
Outcome-cases (refused e) = inl (e, refl)
Outcome-cases (accepted p) = inr (p, refl)

abbrev pub is_accepted : {A : Type 0} → Outcome A → Bool
is_accepted (refused e) = false
is_accepted (accepted a) = true

pub All-++ :
    (f : NormalizedPart → Bool) (p : NormalizedPart) (ps : List NormalizedPart)
    → f p ≡ true
    → All (λ q. f q ≡ true) ps
    → All (λ q. f q ≡ true) (ps ++ p ∷ [])
All-++ f p [] h a = (h, tt)
All-++ f p (q ∷ qs) h (k, a) = (k, All-++ f p qs h a)

pub All-add :
    (f : NormalizedPart → Bool) (p : NormalizedPart) (ps : List NormalizedPart)
    → f p ≡ true
    → All (λ q. f q ≡ true) ps
    → All (λ q. f q ≡ true) (add p ps)
unfolding add
All-add f p ps h a = elim (Bool-cases (has p ps)) [
  | inl e ↦ rw e a
  | inr e ↦ rw e (All-++ f p ps h a)
]

pub All-insert_part :
    (f : NormalizedPart → Bool) (p : NormalizedPart) (ps : List NormalizedPart)
    → f p ≡ true
    → All (λ q. f q ≡ true) ps
    → All (λ q. f q ≡ true) (insert_part p ps)
unfolding insert_part
All-insert_part f p [] h a = (h, tt)
All-insert_part f p (q ∷ qs) h (k, a) = ground (arith, All-insert_part f p qs h a)

pub All-sort_parts :
    (f : NormalizedPart → Bool) (ps : List NormalizedPart)
    → All (λ q. f q ≡ true) ps
    → All (λ q. f q ≡ true) (sort_parts ps)
unfolding sort_parts
All-sort_parts f [] a = tt
All-sort_parts f (p ∷ ps) (h, a) = All-insert_part f p (sort_parts ps) h (All-sort_parts f ps a)
