-- ===== src/Exams/Scoring.antt =====
-- src/exams/exams.service.ts: what a submission scores.
use Prim.Native.Nat.{◌^◌}
use native.Mathlib.Nat.{div-mul-le_self, lt-div-mul-add, mul-le-mul_left, mul-le-mul_right}
use livetich_api.Prelude.{
  ℕ, zero, suc, ◌+◌, ◌*◌, leb, ◌==◌, ◌||◌, Bool, false, Bool-cases, inl, inr, ◌≤◌, ◌<◌, ◌≡◌, refl,
  ap, ◌∙◌, if◌then◌else◌, ltb, Text, same_refl, true, none, List, [], ◌∷◌, All, arith, length,
  is_some,
}
use livetich_api.Prelude.Dict
use livetich_api.Prelude.Dict.{Dict, Unique}
use livetich_api.Exams.{
  Attempt, ExamRow, Doubles, math_round, correct_by_id, chosen_from, is_index, count_correct,
  deadline_of, score_answers,
}
use livetich_api.Exams.Tally.{
  last_answer, agreed, count_correct-agreed, get-chosen_from, chosen_from-Unique,
  get-correct_by_id_nil,
}

-- How many of the questions have the right index as their last answer.
unfoldable pub right_answers : List (Text × ℕ) → List (Text × ℕ) → ℕ
right_answers answers [] = 0
right_answers answers ((id, c) ∷ qs) =
    (if is_index (last_answer id answers) c then 1 else 0) + right_answers answers qs

count_correct_ext :
    (key key' chosen : Dict ℕ)
    → ((q : Text) → Dict.get q key ≡ Dict.get q key')
    → count_correct key chosen ≡ count_correct key' chosen
unfolding count_correct
count_correct_ext key key' [] h = refl
count_correct_ext key key' ((id, i) ∷ chosen) h =
    ground (arith, h id, count_correct_ext key key' chosen h)

abbrev Known : Dict ℕ → List (Text × ℕ) → Type 0
Known key qs = All (λ e. is_some (Dict.get e.0 key) ≡ true) qs

Known-cons :
    (id : Text) (c : ℕ) (key qs : List (Text × ℕ)) → Known key qs → Known ((id, c) ∷ key) qs
unfolding Dict.get
Known-cons id c key [] h = tt
Known-cons id c key ((k, v) ∷ qs) (h, hs) = (ground arith, Known-cons id c key qs hs)

Known-self : (qs : List (Text × ℕ)) → Known qs qs
unfolding Dict.get
Known-self [] = tt
Known-self ((id, c) ∷ qs) = (ground (arith, same_refl id), Known-cons id c qs qs (Known-self qs))

get_nothing : (j : Text) → Dict.get {V = ℕ} j [] ≡ none
get_nothing j = unfold Dict.get in refl

agreed-right_answers :
    (key : Dict ℕ) (answers qs : List (Text × ℕ))
    → Known key qs
    → agreed (chosen_from key answers []) qs ≡ right_answers answers qs
unfolding agreed right_answers
agreed-right_answers key answers [] h = refl
agreed-right_answers key answers ((id, c) ∷ qs) (h, hs) = ground (
  arith,
  agreed-right_answers key answers qs hs,
  get-chosen_from key id answers [],
  get_nothing id,
)

Known-ext :
    (key key' : Dict ℕ) (qs : List (Text × ℕ))
    → ((q : Text) → Dict.get q key ≡ Dict.get q key')
    → Known key' qs
    → Known key qs
Known-ext key key' [] same_key h = tt
Known-ext key key' ((id, c) ∷ qs) same_key (h, hs) =
    (ground (arith, same_key id), Known-ext key key' qs same_key hs)

-- The loop over the choices counts the questions whose last answer is right.
pub count_correct-chosen_from :
    (qs answers : List (Text × ℕ))
    → Unique qs
    → count_correct (correct_by_id qs []) (chosen_from (correct_by_id qs []) answers [])
      ≡ right_answers answers qs
count_correct-chosen_from qs answers u =
    let key = correct_by_id qs [] in
    let chosen = chosen_from key answers [] in
    count_correct_ext key qs chosen (λ q. get-correct_by_id_nil q qs u)
    ∙ (count_correct-agreed qs chosen u (chosen_from-Unique key answers [] tt)
        ∙ agreed-right_answers key answers qs
            (Known-ext key qs qs (λ q. get-correct_by_id_nil q qs u) (Known-self qs)))

pub right_answers-le : (answers qs : List (Text × ℕ)) → right_answers answers qs ≤ length qs
unfolding right_answers
right_answers-le answers [] = omega arith
right_answers-le answers ((id, c) ∷ qs) = ground (arith, right_answers-le answers qs)

-- `p` is the nearest whole number to the percentage of `a` in `t`, either one where two are as near.
abbrev pub IsPercent : ℕ → ℕ → ℕ → Type 0
IsPercent a t p = (2 * (t * p) ≤ 200 * a + t) × (200 * a + t ≤ 2 * (t * (p + 1)))

math_round-nearest :
    (x : ℕ) → (math_round x * 2 ^ 100 ≤ x + 2 ^ 99) × (x + 2 ^ 99 ≤ (math_round x + 1) * 2 ^ 100)
unfolding math_round
math_round-nearest x = (
  div-mul-le_self (x + 2 ^ 99) (2 ^ 100),
  omega (arith, lt-div-mul-add {a = x + 2 ^ 99} {b = 2 ^ 100} (omega arith)),
)

math_round-IsPercent :
    (a t x : ℕ)
    → t < 2 ^ 32
    → (t * x ≤ 100 * a * 2 ^ 100 + t * 2 ^ 60) × (100 * a * 2 ^ 100 ≤ t * x + t * 2 ^ 60)
    → IsPercent a t (math_round x)
math_round-IsPercent a t x h (u, v) =
    let (k, l) = math_round-nearest x in
    (omega (arith, mul-le-mul_right t k, u), omega (arith, mul-le-mul_right t l, v))

IsPercent-bound : (a t p : ℕ) → a ≤ t → 0 < t → IsPercent a t p → p ≤ 100
IsPercent-bound a t p h pos (u, v) = elim (Bool-cases (leb 101 p)) [
  | inl e ↦
      let over : 101 ≤ p = ground (arith, e) in
      absurd (omega (arith, mul-le-mul_left t over, u, h, pos))
  | inr e ↦ ground (arith, e)
]

-- What a submission scores, in its three cases.
scored :
    (d : Doubles) (late : Bool) (a t : ℕ)
    → a ≤ t
    → t < 2 ^ 32
    → let score = if late then 0 else if ltb 0 t then math_round (d.scaled a t) else 0 in
      (score ≡ (if late || t == 0 then 0 else score))
      × IsPercent (if late then 0 else a) t score
      × (score ≤ 100)
scored d true a t h small = (refl, (omega arith, omega arith), omega arith)
scored d false a zero h small = (refl, (omega (arith, h), omega (arith, h)), omega arith)
scored d false a (suc t) h small =
    let close = d.scaled_close a (suc t) h (omega arith) small in
    let near = math_round-IsPercent a (suc t) (d.scaled a (suc t)) small close in
    let bound = IsPercent-bound a (suc t) (math_round (d.scaled a (suc t))) h (omega arith) near in
    let some_questions : ltb 0 (suc t) ≡ true = ground arith in
    let not_none : (suc t == 0) ≡ false = ground arith in
    (ground (arith, some_questions, not_none), rw some_questions near, rw some_questions bound)

module _ (d : Doubles) where
  -- A submission within a minute of the deadline, to an exam of fewer than 2 ^ 32 questions with
  -- different ids, scores the whole number nearest to the percentage of the questions whose last answer
  -- is right (either one where two are as near), at most 100, and stores for each real question its last
  -- answer and nothing else; a later one scores nothing and stores nothing.
  pub score_answers_lem :
      (attempt : Attempt) (exam : ExamRow) (answers : List (Text × ℕ)) (now : ℕ) (q : Text)
      → Unique exam.questions
      → length exam.questions < 2 ^ 32
      → let r = score_answers d attempt exam answers now in
        let late = ltb (deadline_of attempt exam + 60000) now in
        let total = length exam.questions in
        (r.expired ≡ late)
        × (r.correct ≡ (if late then 0 else right_answers answers exam.questions))
        × (r.score ≡ (if late || total == 0 then 0 else r.score))
        × IsPercent r.correct total r.score
        × (r.score ≤ 100)
        × (Dict.get q r.stored ≡ (
            if late
            then none
            else if is_some (Dict.get q exam.questions)
            then last_answer q answers
            else none))
  unfolding score_answers
  score_answers_lem attempt exam answers now q u small =
      let counted = count_correct-chosen_from exam.questions answers u in
      let late = ltb (deadline_of attempt exam + 60000) now in
      let key = correct_by_id exam.questions [] in
      let bound = right_answers-le answers exam.questions in
      let a = count_correct key (chosen_from key answers []) in
      let (zero_score, near, most) =
        scored d late a (length exam.questions) (omega (arith, counted, bound)) small in
      (
        refl,
        ap (λ c. if late then 0 else c) counted,
        zero_score,
        near,
        most,
        ground (
          arith,
          get-chosen_from key q answers [],
          get-correct_by_id_nil q exam.questions u,
          get_nothing q,
        ),
      )
