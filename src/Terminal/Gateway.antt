-- ===== src/Terminal/Gateway.antt =====
-- src/terminal/terminal.gateway.ts: the messages of the `/terminal` namespace, and who may act. A
-- handler takes the sessions map and returns the new one with what is emitted. The session row, the
-- plugin check and the enrolment that `term:join` looks up are its arguments.
pub mod Guards
use livetich_api.Prelude.{
  ℕ, Text, codes, same, Bool, true, false, not, ◌&&◌, ◌||◌, Option, none, some, List, [], ◌∷◌, map,
  length, any, filter, ltb, if◌then◌else◌,
}
use livetich_api.Identity.{JwtPayload, Role, instructor, org_admin, student}
use livetich_api.Terminal.{
  TerminalSessionInfo, Sessions, Chunk, is_staff, open_terminal, append_data, resize_terminal,
  update_permission, close_terminal, get_terminals_for_session, get_host_socket_id, is_sandboxed,
  is_host_socket, can_send_stdin, cleanup_socket,
}

-- `client.id`, `client.data.user` and `client.data.sessionIds`.
pub record Client : Type 0 where
  pub id : Text
  pub user : JwtPayload
  pub session_ids : List Text

pub data ErrorCode : Type 0 where
  not_joinable forbidden not_in_room invalid_input : ErrorCode

pub data Event : Type 0 where
  error : ErrorCode → Event
  state : Text → List (TerminalSessionInfo × Text) → Event
  opened : Text → TerminalSessionInfo → Event
  streamed : Text → Text → Chunk → Event
  resized : Text → Text → ℕ → ℕ → Event
  permission : Text → Text → Text → Option (List Text) → Event
  stdin : Text → Text → Text → Text → Event
  closed : Text → Text → Event

-- `client.emit` and `server.to(socket)`, `client.to(room)` (all but the sender), `server.to(room)`.
pub data Audience : Type 0 where
  socket : Text → Audience
  others : Text → Text → Audience
  room : Text → Audience

abbrev pub Emission : Type 0
Emission = Audience × Event

abbrev pub fail : Client → ErrorCode → List Emission
fail c e = (socket c.id, error e) ∷ []

unfoldable pub in_room : Client → Text → Bool
in_room c sid = any (λ i. same i sid) c.session_ids

-- What `term:join` reads of the session and its course.
pub record SessionRow : Type 0 where
  pub ended : Bool
  pub instructor_id : Option Text
  pub organization_id : Option Text

abbrev same_option : Option Text → Option Text → Bool
same_option none none = true
same_option none (some b) = false
same_option (some a) none = false
same_option (some a) (some b) = same a b

-- The role test of `term:join`: `none` lets the client in. (`SUPER_ADMIN` is no value of `Role`.)
refusal : Client → SessionRow → Bool → Bool
refusal c row enrolled = elim c.user.role [
  | org_admin ↦ not (same_option row.organization_id c.user.organization_id)
  | instructor ↦
      not (same_option row.instructor_id (some c.user.sub))
      && not (same_option row.organization_id c.user.organization_id)
  | student ↦ not enrolled
]

unfoldable pub on_join :
    Client → Text → Option SessionRow → Bool → Bool → Sessions → Client × List Emission
unfolding refusal
on_join c sid none enabled enrolled s = if in_room c sid then (c, []) else (c, fail c not_joinable)
on_join c sid (some row) enabled enrolled s =
    if in_room c sid
    then (c, [])
    else if row.ended
    then (c, fail c not_joinable)
    else if not enabled
    then (c, fail c forbidden)
    else if refusal c row enrolled
    then (c, fail c forbidden)
    else (
      record c { session_ids = sid ∷ c.session_ids },
      (socket c.id, state sid (get_terminals_for_session sid s)) ∷ [],
    )

unfoldable pub on_leave : Client → Text → Client
on_leave c sid = record c { session_ids = filter (λ i. not (same i sid)) c.session_ids }

unfoldable pub on_disconnect : Client → Sessions → Sessions × List Emission
on_disconnect c s =
    let (kept, gone) = cleanup_socket c.id s in (kept, map (λ g. (room g.0, closed g.0 g.1)) gone)

abbrev known_mode : Text → Bool
known_mode m =
    same m (codes "INSTRUCTOR_ONLY") || (same m (codes "OPEN") || same m (codes "DELEGATED"))

abbrev bad_delegation : Option (List Text) → Bool
bad_delegation none = false
bad_delegation (some ids) = ltb 100 (length ids) || any (λ i. ltb 128 (length i)) ids

pub data Message : Type 0 where
  open_ : Text → TerminalSessionInfo → Message
  sent : Text → Text → Chunk → Message
  resize : Text → Text → ℕ → ℕ → Message
  permit : Text → Text → Text → Option (List Text) → Message
  type_in : Text → Text → Text → Message
  close : Text → Text → Message

unfoldable pub on_open : Client → Text → TerminalSessionInfo → Sessions → Sessions × List Emission
on_open c sid info s =
    if not (in_room c sid)
    then (s, fail c not_in_room)
    else if not (is_staff c.user.role)
    then (s, fail c forbidden)
    else (open_terminal sid info c.id c.user.sub s, (others sid c.id, opened sid info) ∷ [])

-- The two guards that the host's messages begin with.
abbrev as_host :
    Client → Text → Text → Sessions → Sessions × List Emission → Sessions × List Emission
as_host c sid tid s k =
    if not (in_room c sid)
    then (s, fail c not_in_room)
    else if not (is_host_socket sid tid c.id s)
    then (s, fail c forbidden)
    else k

module _ (decode : List ℕ → Text) where
  unfoldable pub on_data : Client → Text → Text → Chunk → Sessions → Sessions × List Emission
  on_data c sid tid chunk s =
      as_host c sid tid s
        (append_data decode sid tid chunk s, (others sid c.id, streamed sid tid chunk) ∷ [])

unfoldable pub on_resize : Client → Text → Text → ℕ → ℕ → Sessions → Sessions × List Emission
on_resize c sid tid cols rows s =
    as_host c sid tid s
      (resize_terminal sid tid cols rows s, (others sid c.id, resized sid tid cols rows) ∷ [])

unfoldable pub on_permission :
    Client → Text → Text → Text → Option (List Text) → Sessions → Sessions × List Emission
on_permission c sid tid mode ids s = as_host c sid tid s (
    if not (known_mode mode)
    then (s, fail c invalid_input)
    else if bad_delegation ids
    then (s, fail c invalid_input)
    else if not (is_staff c.user.role)
    then (s, fail c forbidden)
    else if not (is_sandboxed sid tid s) && not (same mode (codes "INSTRUCTOR_ONLY"))
    then (s, fail c forbidden)
    else (update_permission sid tid mode ids s, (room sid, permission sid tid mode ids) ∷ []))

unfoldable pub on_stdin : Client → Text → Text → Text → Sessions → Sessions × List Emission
on_stdin c sid tid input s =
    if not (in_room c sid)
    then (s, fail c not_in_room)
    else if ltb 4096 (length input)
    then (s, fail c invalid_input)
    else if not (can_send_stdin sid tid c.user c.id s)
    then (s, fail c forbidden)
    else (
      s,
      elim (get_host_socket_id sid tid s) [
        | none ↦ []
        | some h ↦ (socket h, stdin sid tid input c.user.sub) ∷ []
      ],
    )

unfoldable pub on_close : Client → Text → Text → Sessions → Sessions × List Emission
on_close c sid tid s =
    as_host c sid tid s (close_terminal sid tid s, (room sid, closed sid tid) ∷ [])

-- One message to its handler.
unfoldable pub handle : (List ℕ → Text) → Client → Message → Sessions → Sessions × List Emission
unfolding on_open on_data on_resize on_permission on_stdin on_close
handle decode c (open_ sid info) s = on_open c sid info s
handle decode c (sent sid tid chunk) s = on_data decode c sid tid chunk s
handle decode c (resize sid tid cols rows) s = on_resize c sid tid cols rows s
handle decode c (permit sid tid mode ids) s = on_permission c sid tid mode ids s
handle decode c (type_in sid tid input) s = on_stdin c sid tid input s
handle decode c (close sid tid) s = on_close c sid tid s
