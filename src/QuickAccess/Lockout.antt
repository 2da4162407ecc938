-- ===== src/QuickAccess/Lockout.antt =====
-- src/auth/quick-access.service.ts: how many wrong codes in a row can be tried.
use livetich_api.Prelude.{
  ℕ, ◌+◌, ◌<◌, ◌≤◌, ◌≡◌, if◌then◌else◌, Text, Bool, true, false, not, ◌&&◌, Option, none, some,
  List, [], ◌∷◌, arith, All, leb, inl, inr, ◌⊎◌, refl,
}
use livetich_api.QuickAccess.{
  QuickAccess, Bcrypt, max_attempts, lock_ms, is_live, is_locked, count_failure, redeem,
}

-- Codes that are sent at given times, one after the other.
unfoldable pub redeem_all :
    Bcrypt → Bool → List (ℕ × Text) → Option QuickAccess → Option QuickAccess
redeem_all b disabled [] row = row
redeem_all b disabled ((now, code) ∷ tries) row =
    redeem_all b disabled tries (redeem b now code disabled row).1

-- Whether a code that is sent now is compared with the hash at all.
abbrev pub is_checked : ℕ → Option QuickAccess → Bool
is_checked now none = false
is_checked now (some row) = is_live row && not (is_locked row now)

unfoldable pub checks : Bcrypt → Bool → List (ℕ × Text) → Option QuickAccess → ℕ
checks b disabled [] row = 0
checks b disabled ((now, code) ∷ tries) row =
    (if is_checked now row then 1 else 0)
    + checks b disabled tries (redeem b now code disabled row).1

-- A wrong code, sent in the span of `lock_ms` that begins at `start`.
abbrev pub WrongWithin : Bcrypt → ℕ → Text → ℕ × Text → Type 0
WrongWithin b start h (now, code) =
    (start ≤ now) × (now < start + lock_ms) × (b.verify code h ≡ false)

-- The lock runs until the end of the span.
abbrev locked_to : ℕ → QuickAccess → Bool
locked_to end row = elim row.locked_until [ none ↦ false | some t ↦ leb end t ]

redeem-locked :
    (b : Bcrypt) (start now : ℕ) (code : Text) (disabled : Bool) (row : QuickAccess)
    → locked_to (start + lock_ms) row ≡ true
    → now < start + lock_ms
    → (is_checked now (some row) ≡ false) × ((redeem b now code disabled (some row)).1 ≡ some row)
unfolding redeem
redeem-locked b start now code disabled row l h = (ground arith, ground arith)

checks-locked :
    (b : Bcrypt) (start : ℕ) (disabled : Bool) (tries : List (ℕ × Text)) (row : QuickAccess)
    → locked_to (start + lock_ms) row ≡ true
    → All (WrongWithin b start row.passcode_hash) tries
    → checks b disabled tries (some row) ≡ 0
unfolding checks
checks-locked b start disabled [] row l h = refl
checks-locked b start disabled ((now, code) ∷ tries) row l ((from, to, wrong), h) =
    let (off, kept) = redeem-locked b start now code disabled row l to in
    rw (off, kept) (omega (arith, checks-locked b start disabled tries row l h))

-- What one wrong code does: nothing, or it counts, or it locks to the end of the span.
redeem-wrong :
    (b : Bcrypt) (start now : ℕ) (code : Text) (disabled : Bool) (row : QuickAccess)
    → WrongWithin b start row.passcode_hash (now, code)
    → ((is_checked now (some row) ≡ false) × ((redeem b now code disabled (some row)).1 ≡ some row))
      ⊎ ((is_checked now (some row) ≡ true)
          × ((redeem b now code disabled (some row)).1 ≡ some (count_failure now row)))
unfolding redeem
redeem-wrong b start now code disabled row (from, to, wrong) = ground arith

count_failure_lem :
    (start now : ℕ) (row : QuickAccess)
    → start ≤ now
    → ((count_failure now row).passcode_hash ≡ row.passcode_hash)
      × (((row.failed_attempts + 1 < max_attempts)
            × ((count_failure now row).failed_attempts ≡ row.failed_attempts + 1))
          ⊎ ((max_attempts ≤ row.failed_attempts + 1)
              × (locked_to (start + lock_ms) (count_failure now row) ≡ true)))
unfolding count_failure
count_failure_lem start now row h = (refl, ground arith)

-- When every code that is sent is wrong, all are sent within the length of one lock, and they are
-- handled one after the other, at most five of them, less the wrong ones counted before, are compared
-- with the hash. A right code in between sets the count to nothing, and is not covered.
pub checks-bounded :
    (b : Bcrypt) (start : ℕ) (disabled : Bool) (tries : List (ℕ × Text)) (row : QuickAccess)
    → row.failed_attempts < max_attempts
    → All (WrongWithin b start row.passcode_hash) tries
    → checks b disabled tries (some row) + row.failed_attempts ≤ max_attempts
unfolding checks count_failure
checks-bounded b start disabled [] row f h = omega arith
checks-bounded b start disabled ((now, code) ∷ tries) row f (w, h) =
    elim (redeem-wrong b start now code disabled row w) [
      | inl (off, kept) ↦
          rw (off, kept) (omega (arith, checks-bounded b start disabled tries row f h))
      | inr (on, counted) ↦
          let (same_hash, next) = count_failure_lem start now row w.0 in
          let h' : All (WrongWithin b start (count_failure now row).passcode_hash) tries = h in
          rw (on, counted)
            (elim next [
              | inl (below, counted_one) ↦ omega (
                arith,
                checks-bounded b start disabled tries (count_failure now row) (omega arith) h',
              )
              | inr (reached, locked) ↦
                  omega
                    (arith, checks-locked b start disabled tries (count_failure now row) locked h')
            ])
    ]
