-- ===== src/Annotations/Locking.antt =====
-- src/tajweed/tajweed.service.ts: the version that an edit carries, and a creation that is sent again,
-- whatever transactions come between.
use livetich_api.Prelude.{
  if◌then◌else◌, none, Option, ◌≡◌, Text, same, Bool, true, false, not, List, [], ◌∷◌, all, arith,
}
use livetich_api.Prelude.Dict
use livetich_api.Prelude.Dict.{get-set, get-delete, Dict, get-set, get-set_self}
use livetich_api.Annotations.{AnnotationRow}
use livetich_api.Annotations.Store.{Store}
use livetich_api.Annotations.Versions.{
  Transaction, run_one, run, makes, Keyed, set-Keyed, delete-Keyed, Evolves, Evolves-refl,
  Evolves-trans, set-Evolves, nothing, one_more, other_form, one_less, effect,
}

abbrev pub empty : Store
empty = record { rows = []; revisions = [] }

pub run_one-Keyed : (t : Transaction) (s : Store) → Keyed s.rows → Keyed (run_one t s).rows
run_one-Keyed t s k = elim (effect t s) [
  | nothing e ↦ rw e k
  | one_more row by made e ↦ rw e (set-Keyed row s.rows k)
  | other_form id row next by a r e ↦ rw e (set-Keyed next s.rows k)
  | one_less row by e ↦ rw e (delete-Keyed row.id s.rows k)
]

pub run-Keyed : (ts : List Transaction) (s : Store) → Keyed s.rows → Keyed (run ts s).rows
unfolding run
run-Keyed [] s k = k
run-Keyed (t ∷ ts) s k = run-Keyed ts (run_one t s) (run_one-Keyed t s k)

pub empty-Keyed : Keyed []
unfolding Dict.get
empty-Keyed id row h = absurd (ground (arith, h))

gone_or : (b : Bool) (a : Option AnnotationRow) → Evolves a (if b then none else a)
unfolding Evolves
gone_or true a = tt
gone_or false a = Evolves-refl a

one_Evolves :
    (id : Text) (t : Transaction) (s : Store)
    → Keyed s.rows
    → makes id t ≡ false
    → Evolves (Dict.get id s.rows) (Dict.get id (run_one t s).rows)
one_Evolves id t s k h = elim (effect t s) [
  | nothing e ↦ rw e (Evolves-refl (Dict.get id s.rows))
  | one_more row by made e ↦
      let at : Dict.get id (run_one t s).rows ≡ Dict.get id s.rows =
        ground (arith, e, h, made id, get-set row.id id row s.rows) in
      rw at (Evolves-refl (Dict.get id s.rows))
  | other_form i row next by a r e ↦
      let own : row.id ≡ i = k i row a in
      rw e (set-Evolves id row next s.rows (ground (arith, a, own, r)) r)
  | one_less row by e ↦
      rw (e, get-delete row.id id s.rows) (gone_or (same row.id id) (Dict.get id s.rows))
]

-- None of these transactions creates a mark under the id.
abbrev pub no_new : Text → List Transaction → Bool
no_new id ts = all (λ t. not (makes id t)) ts

pub run-Evolves :
    (id : Text) (ts : List Transaction) (s : Store)
    → Keyed s.rows
    → no_new id ts ≡ true
    → Evolves (Dict.get id s.rows) (Dict.get id (run ts s).rows)
unfolding run
run-Evolves id [] s k h = Evolves-refl (Dict.get id s.rows)
run-Evolves id (t ∷ ts) s k h =
    Evolves-trans (Dict.get id s.rows) (Dict.get id (run_one t s).rows)
      (Dict.get id (run ts (run_one t s)).rows) (one_Evolves id t s k (ground (arith, h)))
      (run-Evolves id ts (run_one t s) (run_one-Keyed t s k) (ground (arith, h)))
