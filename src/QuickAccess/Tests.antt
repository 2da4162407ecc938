-- ===== src/QuickAccess/Tests.antt =====
-- Runs of src/auth/quick-access.service.ts on concrete codes and rows.
use livetich_api.Prelude.{
  ℕ, ◌≡◌, refl, Text, codes, same, same_refl, true, false, none, some, List, [], ◌∷◌, arith, ◌≤◌,
  ◌+◌,
}
use livetich_api.Prelude.Results.{ok, err, unauthorized, bad_request}
use livetich_api.QuickAccess.{
  QuickAccess, Bcrypt, revoke, set_passcode, redeem, current, assert_usable_code, is_blocked,
  is_sequential, is_repeated, is_years, run_of, count_failure, mint_slug,
}
use livetich_api.QuickAccess.Codes.{mint_slug_free}
use livetich_api.QuickAccess.Lockout.{checks, checks-bounded}
use livetich_api.QuickAccess.Redeem.{set-redeem-revoke}

-- A stand-in for bcrypt that stores the code itself.
abbrev plain : Bcrypt
plain = record { hash = λ c. c; verify = same; verify-hash = same_refl }

abbrev code : Text
code = codes "493817"

abbrev wrong : Text
wrong = codes "493818"

abbrev row : QuickAccess
row = record {
  user_id = codes "u";
  organization_id = codes "o";
  slug = codes "s";
  passcode_hash = code;
  failed_attempts = 0;
  locked_until = none;
  revoked_at = none;
  last_used_at = none;
}

usable : assert_usable_code code ≡ ok tt
unfolding assert_usable_code is_blocked is_sequential is_repeated is_years run_of same
usable = refl

-- Two years of the form that the last test names are refused for their length, and one year is never
-- six digits: a birthday such as 19901990 is not what it would have to stop.
years_refused : assert_usable_code (codes "19902004") ≡ err bad_request
unfolding assert_usable_code same
years_refused = refl

year_and_month_taken : assert_usable_code (codes "200419") ≡ ok tt
unfolding assert_usable_code is_blocked is_sequential is_repeated is_years run_of same
year_and_month_taken = refl

run_refused : assert_usable_code (codes "876543") ≡ err bad_request
unfolding assert_usable_code is_blocked is_sequential is_repeated is_years run_of same
run_refused = refl

mint_slug_free_example : same (codes "a") (codes "b") ≡ false
unfolding mint_slug same
mint_slug_free_example =
    mint_slug_free 5 (codes "a" ∷ codes "b" ∷ []) (same (codes "a")) (codes "b") refl

abbrev six_tries : List (ℕ × Text)
six_tries = (1, wrong) ∷ (2, wrong) ∷ (3, wrong) ∷ (4, wrong) ∷ (5, wrong) ∷ (900000, wrong) ∷ []

six_tries_checked : checks plain false six_tries (some row) ≡ 5
unfolding checks redeem count_failure same
six_tries_checked = refl

checks-bounded_example : checks plain false six_tries (some row) + 0 ≤ 5
unfolding same
checks-bounded_example = checks-bounded plain 1 false six_tries row (omega arith) (
  (omega arith, omega arith, refl),
  (
    (omega arith, omega arith, refl),
    (
      (omega arith, omega arith, refl),
      (
        (omega arith, omega arith, refl),
        ((omega arith, omega arith, refl), ((omega arith, omega arith, refl), tt)),
      ),
    ),
  ),
)

set_row : set_passcode plain (codes "u") (codes "o") code true (codes "s") none ≡ ok row
unfolding set_passcode assert_usable_code is_blocked is_sequential is_repeated is_years run_of same
set_row = refl

set-redeem-revoke_example :
    ((redeem plain 9 code false (some row)).0 ≡ ok (codes "u"))
    × (current (some row) ≡ some (codes "s", none))
    × (redeem plain 20 code false (some (revoke 9 row)) ≡ (err unauthorized, some (revoke 9 row)))
    × (current (some (revoke 9 row)) ≡ none)
set-redeem-revoke_example =
    set-redeem-revoke plain (codes "u") (codes "o") (codes "s") code true none row 9 20 code false
      refl set_row
