-- ===== src/Recordings/Withdrawn.antt =====
-- src/recordings/recordings.service.ts (share, unshare, bySharedToken): where a link leads while it
-- stands, and after it is withdrawn.
use livetich_api.Prelude.{
  ℕ, ◌≡◌, inl, inr, refl, if◌then◌else◌, Text, same, same_refl, same_option, Bool, true, false, not,
  ◌&&◌, Option, none, some, List, [], ◌∷◌, any, all, arith, Bool-cases,
}
use livetich_api.Prelude.Results.{Result-cases, ok, err, not_found}
use livetich_api.Identity.{JwtPayload}
use livetich_api.Recordings.{RecordingRow, is_ready, update_row, find_row, assert_staff}
use livetich_api.Recordings.Gallery.{
  with_share, expiry, is_expired, key_of, share, unshare, has_token, by_shared_token,
}
use livetich_api.Recordings.Events.{Event, began, answered, was_shared, quiet, happen, happen_all}
use livetich_api.Recordings.Plainly.{share_lem}
use livetich_api.Recordings.Writes.{write}
use livetich_api.Recordings.Sharing.{fits, Misses, any-happen, any-shared}

-- Handing out this link.
abbrev pub hands_out : Text → Event → Bool
hands_out t (was_shared user id days token now) = same token t
hands_out t (began user session_id w id now) = false
hands_out t (answered id answer) = false
hands_out t (quiet q) = false

abbrev is_link : Text → Text → Option Text → Bool
is_link token i o = same_option o (some token)

-- The link on a row of another id.
abbrev is_astray : Text → Text → Text → Option Text → Bool
is_astray token id i o = same_option o (some token) && not (same i id)

missed_link :
    (token : Text) (e : Event) → hands_out token e ≡ false → Misses (is_link token) (λ i. refl) e
missed_link t (was_shared user id days token now) h = h
missed_link t (began user session_id w id now) h = tt
missed_link t (answered id answer) h = tt
missed_link t (quiet q) h = tt

missed_astray :
    (token id : Text) (e : Event)
    → hands_out token e ≡ false
    → Misses (is_astray token id) (λ i. refl) e
missed_astray t id (was_shared user other days token now) h = ground (arith, h)
missed_astray t id (began user session_id w other now) h = tt
missed_astray t id (answered other answer) h = tt
missed_astray t id (quiet q) h = tt

-- None of these events hands out the link.
abbrev pub never_again : Text → List Event → Bool
never_again token es = all (λ e. not (hands_out token e)) es

linkless :
    (token : Text) (es : List Event) (rows : List RecordingRow)
    → never_again token es ≡ true
    → any (has_token token) rows ≡ false
    → any (has_token token) (happen_all es rows) ≡ false
unfolding happen_all
linkless token [] rows h k = k
linkless token (e ∷ es) rows h k =
    linkless token es (happen e rows) (ground (arith, h))
      (any-happen (is_link token) (λ i. refl) e rows (missed_link token e (ground (arith, h))) k)

astray :
    (token id : Text) (es : List Event) (rows : List RecordingRow)
    → never_again token es ≡ true
    → any (fits (is_astray token id) (λ i. refl)) rows ≡ false
    → any (fits (is_astray token id) (λ i. refl)) (happen_all es rows) ≡ false
unfolding happen_all
astray token id [] rows h k = k
astray token id (e ∷ es) rows h k = astray token id es (happen e rows) (ground (arith, h)) (
    any-happen (is_astray token id) (λ i. refl) e rows
      (missed_astray token id e (ground (arith, h))) k)

not_astray :
    (token id : Text) (rows : List RecordingRow)
    → any (has_token token) rows ≡ false
    → any (fits (is_astray token id) (λ i. refl)) rows ≡ false
not_astray token id [] h = refl
not_astray token id (r ∷ rows) h = ground (arith, h, not_astray token id rows (ground (arith, h)))

cleared :
    (token id : Text) (rows : List RecordingRow)
    → any (fits (is_astray token id) (λ i. refl)) rows ≡ false
    → any (has_token token) (update_row id (with_share none none) rows) ≡ false
unfolding update_row
cleared token id [] h = refl
cleared token id (r ∷ rows) h = ground (arith, h, cleared token id rows (ground (arith, h)))

unshare_lem :
    (user : JwtPayload) (id : Text) (rows next : List RecordingRow)
    → unshare user id rows ≡ ok next
    → next ≡ update_row id (with_share none none) rows
unfolding unshare
unshare_lem user id rows next h = elim (Result-cases (assert_staff user)) [
  | inl (e, a) ↦ absurd (ground (arith, a, h))
  | inr (org, a) ↦ ground (arith, a, h)
]

find_row-none :
    (token : Text) (rows : List RecordingRow)
    → any (has_token token) rows ≡ false
    → find_row (has_token token) rows ≡ none
unfolding find_row
find_row-none token [] h = refl
find_row-none token (r ∷ rows) h = ground (arith, h, find_row-none token rows (ground (arith, h)))

dead_link :
    (token : Text) (at : ℕ) (rows : List RecordingRow)
    → any (has_token token) rows ≡ false
    → by_shared_token token at rows ≡ err not_found
unfolding by_shared_token
dead_link token at rows h = ground (arith, find_row-none token rows h)

-- A link is withdrawn for good: after its recording is unshared, whatever happened since it was handed
-- out and whatever happens later, it leads nowhere, as long as the same random link is not drawn again.
pub unshare_for_good :
    (user other : JwtPayload) (id token : Text) (days : Option ℕ) (now at : ℕ)
    (rows shared withdrawn : List RecordingRow) (between after : List Event)
    → any (has_token token) rows ≡ false
    → share user id days token now rows ≡ ok shared
    → never_again token between ≡ true
    → unshare other id (happen_all between shared) ≡ ok withdrawn
    → never_again token after ≡ true
    → by_shared_token token at (happen_all after withdrawn) ≡ err not_found
unshare_for_good user other id token days now at rows shared withdrawn between after fresh h p u q =
    let here : any (fits (is_astray token id) (λ i. refl)) shared ≡ false =
      any-shared (is_astray token id) (λ i. refl) user id days token now rows shared h
        (ground (arith, same_refl id)) (not_astray token id rows fresh) in
    let still = astray token id between shared p here in
    let gone : any (has_token token) withdrawn ≡ false =
      rw (unshare_lem other id (happen_all between shared) withdrawn u)
        (cleared token id (happen_all between shared) still) in
    dead_link token at (happen_all after withdrawn) (linkless token after withdrawn q gone)

found_link :
    (id token : Text) (expires_at : Option ℕ) (rows : List RecordingRow) (r : RecordingRow)
    → any (has_token token) rows ≡ false
    → find_row (λ q. same q.id id) rows ≡ some r
    → find_row (has_token token) (update_row id (with_share (some token) expires_at) rows)
      ≡ some (with_share (some token) expires_at r)
unfolding find_row update_row
found_link id token expires_at [] r k h = absurd (ground (arith, h))
found_link id token expires_at (q ∷ rows) r k h = elim (Bool-cases (same q.id id)) [
  | inl e ↦ ground (arith, e, h, same_refl token)
  | inr e ↦ ground (
    arith,
    e,
    h,
    k,
    found_link id token expires_at rows r (ground (arith, k)) (ground (arith, e, h)),
  )
]

-- A new link that is handed out leads to its recording until it expires, where the recording is ready
-- and has an object.
pub share-by_shared_token :
    (user : JwtPayload) (id token key : Text) (days : Option ℕ) (now at : ℕ)
    (rows next : List RecordingRow) (r : RecordingRow)
    → any (has_token token) rows ≡ false
    → find_row (λ q. same q.id id) rows ≡ some r
    → is_ready r.status ≡ true
    → key_of r.storage_key ≡ some key
    → share user id days token now rows ≡ ok next
    → by_shared_token token at next ≡ (
        if is_expired (expiry days now) at
        then err not_found
        else ok (with_share (some token) (expiry days now) r, key))
unfolding by_shared_token write
share-by_shared_token user id token key days now at rows next r fresh found is_done object h =
    rw (share_lem user id days token now rows next h)
      (ground (arith, is_done, object, found_link id token (expiry days now) rows r fresh found))
