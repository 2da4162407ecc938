-- ===== src/Points/Tests.antt =====
-- src/points/points.service.ts over lists: a sorted set is a list of scores, the newest first.
use livetich_api.Prelude.{
  if◌then◌else◌, ◌≡◌, refl, Text, codes, same, same_iff, false, Option, none, some, List, [], ◌∷◌,
  arith,
}
use livetich_api.Prelude.Dict
use livetich_api.Prelude.Integers.{ℤ, pos, negsuc, ◌+ℤ◌, zero-add}
use livetich_api.Prelude.Dict.{Dict, Unique, get-set, set-Unique}
use livetich_api.Points.{or_zero, total, Store, World, run}
use livetich_api.Points.Quiet.{
  Request, award_alone, award_committed, ask_alone, Shows, serve, serve-Shows,
}
use livetich_api.Points.Races.{too_early, too_late}

-- `groupBy` with `_sum`.
unfoldable sums : List (Text × ℤ) → Dict ℤ
sums [] = []
sums ((u, d) ∷ es) = Dict.set u (d +ℤ or_zero (Dict.get u (sums es))) (sums es)

sums-Unique : (es : List (Text × ℤ)) → Unique (sums es)
unfolding sums
sums-Unique [] = tt
sums-Unique ((u, d) ∷ es) =
    set-Unique u (d +ℤ or_zero (Dict.get u (sums es))) (sums es) (sums-Unique es)

get-sums : (u : Text) (es : List (Text × ℤ)) → or_zero (Dict.get u (sums es)) ≡ total u es
unfolding sums total Dict.get
get-sums u [] = refl
get-sums u ((v, d) ∷ es) = ground (
  arith,
  get-sums u es,
  zero-add (total u es),
  get-set v u (d +ℤ or_zero (Dict.get v (sums es))) (sums es),
  same_iff u v,
  same_iff v u,
)

unfoldable score : Text → List (Text × ℤ) → Option ℤ
score u [] = none
score u ((v, p) ∷ z) = if same u v then some p else score u z

no_score : (u : Text) → score u [] ≡ none
unfolding score
no_score u = refl

score-entry :
    (u v : Text) (p : ℤ) (z : List (Text × ℤ))
    → score u ((v, p) ∷ z) ≡ (if same u v then some p else score u z)
unfolding score
score-entry u v p z = refl

score-increment :
    (u v : Text) (d : ℤ) (z : List (Text × ℤ))
    → score u ((v, or_zero (score v z) +ℤ d) ∷ z)
      ≡ (if same u v then some (or_zero (score v z) +ℤ d) else score u z)
score-increment u v d z = score-entry u v (or_zero (score v z) +ℤ d) z

abbrev in_lists : Store
in_lists = record {
  Zset = List (Text × ℤ);
  no_members = [];
  zscore = score;
  zadd = λ p u z. (u, p) ∷ z;
  zincrby = λ d u z. (u, or_zero (score u z) +ℤ d) ∷ z;
  group_by_student = sums;
  zscore-no_members = no_score;
  zscore-zadd = score-entry;
  zscore-zincrby = score-increment;
  group_by_student-Unique = sums-Unique;
  get-group_by_student = get-sums;
}

abbrev amina : Text
amina = codes "amina"

abbrev fresh : World in_lists
fresh = record { ledger = (amina, pos 5) ∷ []; zset = []; built = false; tasks = [] }

abbrev asked : List Request
asked =
    ask_alone
    ∷ (award_committed amina (negsuc 2)
        ∷ (award_alone amina (pos 10) ∷ (award_alone (codes "bilal") (pos 25) ∷ [])))

serve-Shows_example : Shows in_lists amina (serve in_lists asked fresh)
serve-Shows_example = serve-Shows in_lists amina asked fresh (refl, refl)

abbrev early : World in_lists
early = run in_lists (too_early in_lists amina (pos 10)) fresh

abbrev late : World in_lists
late = run in_lists (too_late in_lists amina (pos 10)) fresh
