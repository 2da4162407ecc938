-- ===== src/Exams/Tally.antt =====
-- src/exams/exams.service.ts: the two maps that scoring is made of.
use livetich_api.Prelude.{
  ℕ, ◌+◌, ◌≤◌, ◌≡◌, refl, sym, ◌∙◌, if◌then◌else◌, Text, same, same_iff, Option, none, some, List,
  [], ◌∷◌, arith, length, is_some,
}
use livetich_api.Prelude.Dict
use livetich_api.Prelude.Dict.{Dict, Unique}
use livetich_api.Exams.{correct_by_id, chosen_from, is_index, count_correct}

-- The answer that counts for a question: the last one given for it.
unfoldable pub last_answer : Text → List (Text × ℕ) → Option ℕ
last_answer q [] = none
last_answer q ((id, i) ∷ answers) =
    let later = last_answer q answers in
    if is_some later then later else if same id q then some i else none

abbrev pub or_else : Option ℕ → Option ℕ → Option ℕ
or_else none b = b
or_else (some a) b = some a

get-correct_by_id :
    (q : Text) (qs : List (Text × ℕ)) (m : Dict ℕ)
    → Unique qs
    → Dict.get q (correct_by_id qs m) ≡ or_else (Dict.get q qs) (Dict.get q m)
unfolding correct_by_id
get-correct_by_id q [] m u = unfold Dict.get in refl
get-correct_by_id q ((id, c) ∷ qs) m (absent, u) =
    get-correct_by_id q qs (Dict.set id c m) u
    ∙ (unfold Dict.get in ground (arith, Dict.get-set id q c m, same_iff id q))

-- `correctById` is the list of questions read as a map.
pub get-correct_by_id_nil :
    (q : Text) (qs : List (Text × ℕ)) → Unique qs → Dict.get q (correct_by_id qs []) ≡ Dict.get q qs
get-correct_by_id_nil q qs u = get-correct_by_id q qs [] u ∙ unfold Dict.get in ground arith

-- A real question's choice is its last answer, and there is no other choice.
pub get-chosen_from :
    (key : Dict ℕ) (q : Text) (answers : List (Text × ℕ)) (m : Dict ℕ)
    → Dict.get q (chosen_from key answers m) ≡ (
        if is_some (Dict.get q key)
        then or_else (last_answer q answers) (Dict.get q m)
        else Dict.get q m)
unfolding chosen_from last_answer
get-chosen_from key q [] m = ground arith
get-chosen_from key q ((id, i) ∷ answers) m = ground (
  arith,
  get-chosen_from key q answers m,
  get-chosen_from key q answers (Dict.set id i m),
  Dict.get-set id q i m,
  same_iff id q,
)

pub chosen_from-Unique :
    (key : Dict ℕ) (answers : List (Text × ℕ)) (m : Dict ℕ)
    → Unique m
    → Unique (chosen_from key answers m)
unfolding chosen_from
chosen_from-Unique key [] m u = u
chosen_from-Unique key ((id, i) ∷ answers) m u =
    chosen_from-Unique key answers _ (ground (arith, Dict.set-Unique id i m u))

-- How many entries of `key` the map `m` agrees with.
unfoldable pub agreed : Dict ℕ → Dict ℕ → ℕ
agreed m [] = 0
agreed m ((id, c) ∷ key) = (if is_index (Dict.get id m) c then 1 else 0) + agreed m key

agreed-nil : (key : Dict ℕ) → agreed [] key ≡ 0
unfolding agreed Dict.get
agreed-nil [] = refl
agreed-nil ((id, c) ∷ key) = omega (arith, agreed-nil key)

agreed_absent :
    (id : Text) (i : ℕ) (m key : Dict ℕ)
    → Dict.get id key ≡ none
    → agreed ((id, i) ∷ m) key ≡ agreed m key
unfolding agreed Dict.get
agreed_absent id i m [] e = refl
agreed_absent id i m ((k, c) ∷ key) e =
    ground (arith, agreed_absent id i m key, same_iff id k, same_iff k id)

agreed-cons :
    (id : Text) (i : ℕ) (m key : Dict ℕ)
    → Dict.get id m ≡ none
    → Unique key
    → agreed ((id, i) ∷ m) key ≡ (if is_index (Dict.get id key) i then 1 else 0) + agreed m key
unfolding agreed Dict.get
agreed-cons id i m [] e u = refl
agreed-cons id i m ((k, c) ∷ key) e (absent, u) =
    ground
      (arith, agreed-cons id i m key e u, agreed_absent id i m key, same_iff id k, same_iff k id)

-- Counting over the choices is counting over the questions.
pub count_correct-agreed :
    (key chosen : Dict ℕ)
    → Unique key
    → Unique chosen
    → count_correct key chosen ≡ agreed chosen key
unfolding count_correct
count_correct-agreed key [] u v = sym (agreed-nil key)
count_correct-agreed key ((id, i) ∷ chosen) u (absent, v) =
    omega (arith, count_correct-agreed key chosen u v, agreed-cons id i chosen key absent u)

pub agreed-le : (m key : Dict ℕ) → agreed m key ≤ length key
unfolding agreed
agreed-le m [] = omega arith
agreed-le m ((id, c) ∷ key) = ground (arith, agreed-le m key)
