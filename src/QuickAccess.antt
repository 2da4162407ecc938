-- ===== src/QuickAccess.antt =====
-- src/auth/quick-access.service.ts: the passcode shortcut. A row is an argument and what is written is
-- a value; times are milliseconds; bcrypt and the random bytes are parameters.
pub mod Codes
pub mod Lockout
pub mod Redeem
mod Tests
use Prim.Native.String.{String}
use livetich_api.Prelude.{
  ℕ, zero, suc, ◌+◌, ◌*◌, ◌<◌, ◌≡◌, ltb, leb, ◌==◌, if◌then◌else◌, Text, codes, same, Bool, true,
  false, not, ◌&&◌, ◌||◌, Option, none, some, List, [], ◌∷◌, map, length, all, any,
}
use livetich_api.Prelude.Results.{
  Result, ok, err, ◌>>=◌, ◌>>◌, demand, or_throw, not_found, forbidden, bad_request, unauthorized,
}

abbrev pub code_length : ℕ
code_length = 6

abbrev pub max_attempts : ℕ
max_attempts = 5

abbrev pub lock_ms : ℕ
lock_ms = 15 * 60000

abbrev pub blocklist : List Text
blocklist =
    codes "000000"
    ∷ codes "111111"
    ∷ codes "222222"
    ∷ codes "333333"
    ∷ codes "444444"
    ∷ codes "555555"
    ∷ codes "666666"
    ∷ codes "777777"
    ∷ codes "888888"
    ∷ codes "999999"
    ∷ codes "123456"
    ∷ codes "654321"
    ∷ codes "121212"
    ∷ codes "112233"
    ∷ codes "123123"
    ∷ codes "789456"
    ∷ codes "159753"
    ∷ codes "147258"
    ∷ codes "696969"
    ∷ codes "101010"
    ∷ codes "202020"
    ∷ codes "123321"
    ∷ codes "456456"
    ∷ codes "789789"
    ∷ codes "012345"
    ∷ codes "543210"
    ∷ codes "111222"
    ∷ codes "222111"
    ∷ []

-- `BLOCKLIST.has(code)`
unfoldable pub is_blocked : Text → Bool
is_blocked code = any (λ b. same b code) blocklist

abbrev pub is_digit : ℕ → Bool
is_digit c = leb b'0' c && leb c b'9'

-- The loop of `isSequential`, from the unit before: `up` and `down` are the flags.
unfoldable pub run_of : Bool → Bool → ℕ → Text → Bool
run_of up down c [] = up || down
run_of up down c (d ∷ s) = run_of (up && d == c + 1) (down && d + 1 == c) d s

unfoldable pub is_sequential : Text → Bool
unfolding run_of
is_sequential [] = true
is_sequential (c ∷ s) = run_of true true c s

-- `new Set(code).size === 1`
unfoldable pub is_repeated : Text → Bool
is_repeated [] = false
is_repeated (c ∷ s) = all (λ d. d == c) s

abbrev is_century : ℕ → ℕ → Bool
is_century a b = (a == b'1' && b == b'9') || (a == b'2' && b == b'0')

-- `/^(19|20)\d{2}(19|20)\d{2}$/`
unfoldable pub is_years : Text → Bool
is_years (a ∷ b ∷ c ∷ d ∷ e ∷ f ∷ g ∷ h ∷ []) =
    is_century a b && (is_digit c && (is_digit d && (is_century e f && (is_digit g && is_digit h))))
is_years _ = false

unfoldable pub assert_usable_code : Text → Result (Unit {0})
assert_usable_code code =
    if not (length code == code_length && all is_digit code)
    then err bad_request
    else if is_blocked code
    then err bad_request
    else if is_sequential code
    then err bad_request
    else if is_repeated code
    then err bad_request
    else if is_years code
    then err bad_request
    else ok tt

pub record QuickAccess : Type 0 where
  pub user_id : Text
  pub organization_id : Text
  pub slug : Text
  pub passcode_hash : Text
  pub failed_attempts : ℕ
  pub locked_until : Option ℕ
  pub revoked_at : Option ℕ
  pub last_used_at : Option ℕ

-- `mintSlug` over the candidates that `randomBytes` gives: the first of five that is free.
unfoldable pub mint_slug : ℕ → List Text → (Text → Bool) → Option Text
mint_slug zero candidates taken = none
mint_slug (suc n) [] taken = none
mint_slug (suc n) (s ∷ candidates) taken =
    let next = mint_slug n candidates taken in if taken s then next else some s

-- bcrypt, and that the hash of a code is verified by it.
pub record Bcrypt : Type 0 where
  pub hash : Text → Text
  pub verify : Text → Text → Bool
  pub verify-hash : (code : Text) → verify code (hash code) ≡ true

abbrev pub upserted : Option QuickAccess → Text → Text → Text → Text → QuickAccess
upserted none user org slug h = record {
  user_id = user;
  organization_id = org;
  slug = slug;
  passcode_hash = h;
  failed_attempts = 0;
  locked_until = none;
  revoked_at = none;
  last_used_at = none;
}
upserted (some row) user org slug h = record row {
  slug = slug;
  passcode_hash = h;
  failed_attempts = 0;
  locked_until = none;
  revoked_at = none;
}

abbrev pub is_live : QuickAccess → Bool
is_live row = elim row.revoked_at [ none ↦ true | some t ↦ false ]

unfoldable pub current : Option QuickAccess → Option (Text × Option ℕ)
current none = none
current (some row) = if is_live row then some (row.slug, row.last_used_at) else none

unfoldable pub revoke : ℕ → QuickAccess → QuickAccess
revoke now row = if is_live row then record row { revoked_at = some now } else row

-- What is read of the organisation; the result names it and nobody else.
unfoldable pub describe : Option QuickAccess → Result Text
describe none = err not_found
describe (some row) = if is_live row then ok row.organization_id else err not_found

abbrev pub is_locked : QuickAccess → ℕ → Bool
is_locked row now = elim row.locked_until [ none ↦ false | some t ↦ ltb now t ]

-- The update after a wrong code, from the row that was read.
unfoldable pub count_failure : ℕ → QuickAccess → QuickAccess
count_failure now row =
    let attempts = row.failed_attempts + 1 in
    let lock = leb max_attempts attempts in
    record row {
      failed_attempts = if lock then 0 else attempts;
      locked_until = if lock then some (now + lock_ms) else none;
    }

abbrev pub use_at : ℕ → QuickAccess → QuickAccess
use_at now row = record row { failed_attempts = 0; locked_until = none; last_used_at = some now }

module _ (b : Bcrypt) where
  -- `member` says whether the user belongs to the workspace.
  unfoldable pub set_passcode :
      Text → Text → Text → Bool → Text → Option QuickAccess → Result QuickAccess
  set_passcode user org code member slug row = do
    assert_usable_code code
    demand member forbidden
    ok (upserted row user org slug (b.hash code))

  -- The answer, and the row as it is left. `disabled` is the state of the account.
  unfoldable pub redeem : ℕ → Text → Bool → Option QuickAccess → Result Text × Option QuickAccess
  redeem now code disabled none = (err unauthorized, none)
  redeem now code disabled (some row) =
      if not (is_live row)
      then (err unauthorized, some row)
      else if is_locked row now
      then (err unauthorized, some row)
      else if not (b.verify code row.passcode_hash)
      then (err unauthorized, some (count_failure now row))
      else if disabled
      then (err forbidden, some row)
      else (ok row.user_id, some (use_at now row))
