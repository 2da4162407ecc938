-- ===== src/QuickAccess/Redeem.antt =====
-- src/auth/quick-access.service.ts: who is signed in by a shortcut.
use livetich_api.Prelude.{ℕ, ◌≡◌, ◌↔◌, Text, Bool, true, false, Option, none, some, arith}
use livetich_api.Prelude.Results.{ok, err, unauthorized}
use livetich_api.QuickAccess.{
  QuickAccess, Bcrypt, is_live, is_locked, revoke, set_passcode, redeem, current,
  assert_usable_code,
}

-- A shortcut signs its own user in exactly when it is there, not revoked and not locked, the code is
-- verified against the stored hash, and the account is not disabled.
pub redeem_iff :
    (b : Bcrypt) (now : ℕ) (code : Text) (disabled : Bool) (row : QuickAccess) (u : Text)
    → ((redeem b now code disabled (some row)).0 ≡ ok u) ↔ (
        (is_live row ≡ true)
        × (is_locked row now ≡ false)
        × (b.verify code row.passcode_hash ≡ true)
        × (disabled ≡ false)
        × (row.user_id ≡ u))
unfolding redeem
redeem_iff b now code disabled row u = (λ h. ground arith, λ h. ground arith)

-- What setting a code leaves: the row was the user's already or is new, and carries the new slug and
-- the hash of an acceptable code, with no lock, no count and no revocation.
set_passcode-fresh :
    (b : Bcrypt) (user org slug code : Text) (member : Bool) (old : Option QuickAccess)
    (row : QuickAccess)
    → set_passcode b user org code member slug old ≡ ok row
    → (row.user_id ≡ (elim old [ none ↦ user | some r ↦ r.user_id ]))
      × (row.slug ≡ slug)
      × (row.passcode_hash ≡ b.hash code)
      × (row.locked_until ≡ none)
      × (row.revoked_at ≡ none)
      × (assert_usable_code code ≡ ok tt)
      × (member ≡ true)
unfolding set_passcode
set_passcode-fresh b user org slug code member none row h = ground arith
set_passcode-fresh b user org slug code member (some r) row h = ground arith

revoked-closed : (now : ℕ) (row : QuickAccess) → is_live (revoke now row) ≡ false
unfolding revoke
revoked-closed now row = ground arith

-- On the row that setting a code leaves, which was the user's or is new, that code signs its user in
-- if the account is not disabled, at whatever time and whatever the row was before (locked, revoked or
-- not there); and on that row once it is revoked, no code signs anybody in. Wrong codes that are sent
-- in between, and may lock the row, are not covered.
pub set-redeem-revoke :
    (b : Bcrypt) (user org slug code : Text) (member : Bool) (old : Option QuickAccess)
    (row : QuickAccess) (now later : ℕ) (other : Text) (disabled : Bool)
    → (elim old [ none ↦ user | some r ↦ r.user_id ]) ≡ user
    → set_passcode b user org code member slug old ≡ ok row
    → ((redeem b now code false (some row)).0 ≡ ok user)
      × (current (some row) ≡ some (slug, row.last_used_at))
      × (redeem b later other disabled (some (revoke now row))
          ≡ (err unauthorized, some (revoke now row)))
      × (current (some (revoke now row)) ≡ none)
unfolding redeem current
set-redeem-revoke b user org slug code member old row now later other disabled own h =
    let (u, s, p, l, r, usable, belongs) =
      set_passcode-fresh b user org slug code member old row h in
    let shut : is_live (revoke now row) ≡ false = revoked-closed now row in
    let fits : b.verify code row.passcode_hash ≡ true = rw p (b.verify-hash code) in
    (ground arith, ground arith, ground arith, ground arith)
