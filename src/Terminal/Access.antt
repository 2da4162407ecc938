-- ===== src/Terminal/Access.antt =====
-- src/terminal/terminal.service.ts: who may type into a terminal.
use livetich_api.Prelude.{
  ◌≡◌, ◌↔◌, ◌⊎◌, Text, codes, same, same_iff, true, false, Option, none, some, arith, any,
  Option-cases, inl, inr, List, ◌∷◌, [],
}
use livetich_api.Identity.{JwtPayload, instructor, org_admin}
use livetich_api.Terminal.{ActiveTerminal, Sessions, includes, find, may_type, can_send_stdin}

abbrev pub Among : Text → List Text → Type 0
Among x [] = ⊥
Among x (y ∷ ys) = (y ≡ x) ⊎ Among x ys

abbrev pub Listed : Text → Option (List Text) → Type 0
Listed x none = ⊥
Listed x (some ids) = Among x ids

-- The policy: a sandboxed terminal takes input from the staff, from everybody when it is open, and
-- from the students it names when it is delegated; any other only from the socket and the user that
-- opened it.
abbrev pub MayType : ActiveTerminal → JwtPayload → Text → Type 0
MayType t user socket =
    (t.info.interactive ≡ true)
    × (((t.info.sandboxed ≡ true)
          × (((user.role ≡ instructor) ⊎ (user.role ≡ org_admin))
              ⊎ (t.info.writable_by ≡ codes "OPEN")
              ⊎ ((t.info.writable_by ≡ codes "DELEGATED")
                  × Listed user.sub t.info.delegated_user_ids)))
        ⊎ ((t.info.sandboxed ≡ false) × (t.host_user_id ≡ user.sub) × (t.host_socket_id ≡ socket)))

any-Among : (x : Text) (ids : List Text) → (any (λ i. same i x) ids ≡ true) ↔ Among x ids
any-Among x [] = ground arith
any-Among x (y ∷ ys) = ground (arith, same_iff y x, any-Among x ys)

includes_iff : (ids : Option (List Text)) (x : Text) → (includes ids x ≡ true) ↔ Listed x ids
includes_iff none x = ground arith
includes_iff (some ids) x = any-Among x ids

may_type_iff :
    (t : ActiveTerminal) (user : JwtPayload) (socket : Text)
    → (may_type t user socket ≡ true) ↔ MayType t user socket
unfolding may_type
may_type_iff t user socket = ground (
  arith,
  same_iff t.info.writable_by (codes "OPEN"),
  same_iff t.info.writable_by (codes "DELEGATED"),
  includes_iff t.info.delegated_user_ids user.sub,
  same_iff t.host_user_id user.sub,
  same_iff t.host_socket_id socket,
)

-- `canSendStdin` allows input exactly when the terminal is there and the policy allows it.
pub can_send_stdin_iff :
    (sid tid : Text) (user : JwtPayload) (socket : Text) (s : Sessions)
    → (can_send_stdin sid tid user socket s ≡ true)
      ↔ ((t : ActiveTerminal) × (find sid tid s ≡ some t) × MayType t user socket)
unfolding can_send_stdin
can_send_stdin_iff sid tid user socket s = elim (Option-cases (find sid tid s)) [
  | inl e ↦ ((λ h. ground arith), (λ w. ground (arith, w.1)))
  | inr (t, e) ↦ (
    (λ h. (t, e, (may_type_iff t user socket).0 (ground arith))),
    (λ w. ground (arith, w.1, (may_type_iff w.0 user socket).1 w.2)),
  )
]
