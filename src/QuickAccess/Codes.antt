-- ===== src/QuickAccess/Codes.antt =====
-- src/auth/quick-access.service.ts: which codes may be chosen, and which slugs are handed out.
use livetich_api.Prelude.{
  ℕ, zero, suc, ◌≡◌, ◌↔◌, refl, Text, Bool, true, false, some, List, [], ◌∷◌, length, all, arith,
}
use livetich_api.Prelude.Results.{ok}
use livetich_api.QuickAccess.{
  is_blocked, is_digit, is_sequential, is_repeated, is_years, assert_usable_code, mint_slug,
}

-- Two years are eight digits, which a code of six never is.
is_years_of_six : (code : Text) → length code ≡ 6 → is_years code ≡ false
unfolding is_years
is_years_of_six [] h = refl
is_years_of_six (a ∷ []) h = refl
is_years_of_six (a ∷ b ∷ []) h = refl
is_years_of_six (a ∷ b ∷ c ∷ []) h = refl
is_years_of_six (a ∷ b ∷ c ∷ d ∷ []) h = refl
is_years_of_six (a ∷ b ∷ c ∷ d ∷ e ∷ []) h = refl
is_years_of_six (a ∷ b ∷ c ∷ d ∷ e ∷ f ∷ []) h = refl
is_years_of_six (a ∷ b ∷ c ∷ d ∷ e ∷ f ∷ g ∷ s) h = absurd (omega arith)

-- A code may be chosen exactly when it is six digits, not on the list of common ones, no run up or
-- down and not one digit repeated. The test for years that the method makes last refuses none.
pub assert_usable_code_iff :
    (code : Text)
    → (assert_usable_code code ≡ ok tt) ↔ (
        (length code ≡ 6)
        × (all is_digit code ≡ true)
        × (is_blocked code ≡ false)
        × (is_sequential code ≡ false)
        × (is_repeated code ≡ false))
unfolding assert_usable_code
assert_usable_code_iff code =
    let six : length code ≡ 6 → is_years code ≡ false = is_years_of_six code in
    (λ h. ground arith, λ h. ground arith)

-- The slug that is handed out is free.
pub mint_slug_free :
    (n : ℕ) (candidates : List Text) (taken : Text → Bool) (s : Text)
    → mint_slug n candidates taken ≡ some s
    → taken s ≡ false
unfolding mint_slug
mint_slug_free zero candidates taken s h = ground arith
mint_slug_free (suc n) [] taken s h = ground arith
mint_slug_free (suc n) (c ∷ candidates) taken s h =
    ground (arith, mint_slug_free n candidates taken s)
