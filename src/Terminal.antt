-- ===== src/Terminal.antt =====
-- src/terminal/terminal.service.ts: the in-memory manager of the shared terminals. The state is the
-- map of maps `sessions`; each method is a function that returns the new map. A mode of writing is a
-- text, as it is on the wire, and `decode` stands for `Buffer.from(chunk).toString('utf-8')`.
pub mod Gateway
pub mod Maps
pub mod Backlog
pub mod Access
pub mod Cleanup
mod Tests
use livetich_api.Prelude.{
  ℕ, ◌-◌, ◌*◌, Text, codes, same, Bool, true, false, not, ◌&&◌, ◌||◌, Option, none, some, List, [],
  ◌∷◌, ◌++◌, map, length, drop, any, leb, ltb, if◌then◌else◌,
}
use livetich_api.Identity.{Role, JwtPayload, instructor, student, org_admin}
use livetich_api.Prelude.Dict
use livetich_api.Prelude.Dict.{Dict}

pub record TerminalSessionInfo : Type 0 where
  pub terminal_id : Text
  pub name : Text
  pub cols : ℕ
  pub rows : ℕ
  pub interactive : Bool
  pub sandboxed : Bool
  pub writable_by : Text
  pub delegated_user_ids : Option (List Text)

pub record ActiveTerminal : Type 0 where
  pub info : TerminalSessionInfo
  pub host_socket_id : Text
  pub host_user_id : Text
  pub backlog : Text

abbrev pub Sessions : Type 0
Sessions = Dict (Dict ActiveTerminal)

pub data Chunk : Type 0 where
  text : Text → Chunk
  bytes : List ℕ → Chunk

abbrev pub max_backlog_bytes : ℕ
max_backlog_bytes = 64 * 1024

abbrev pub or_empty : Option (Dict ActiveTerminal) → Dict ActiveTerminal
or_empty none = []
or_empty (some m) = m

-- `this.sessions.get(sessionId)?.get(terminalId)`
unfoldable pub find : Text → Text → Sessions → Option ActiveTerminal
find session_id terminal_id s = Dict.get terminal_id (or_empty (Dict.get session_id s))

abbrev fresh : TerminalSessionInfo → Text → Text → ActiveTerminal
fresh info socket user = record {
  info = info;
  host_socket_id = socket;
  host_user_id = user;
  backlog = [];
}

unfoldable pub open_terminal : Text → TerminalSessionInfo → Text → Text → Sessions → Sessions
open_terminal session_id info socket user s =
    Dict.set session_id
      (Dict.set info.terminal_id (fresh info socket user) (or_empty (Dict.get session_id s))) s

-- The object that `find` returns is shared with the map: a change of it is a write to the map.
unfoldable pub write : Text → Text → (ActiveTerminal → ActiveTerminal) → Sessions → Sessions
unfolding find
write session_id terminal_id f s = elim (find session_id terminal_id s) [
  | none ↦ s
  | some t ↦ Dict.set session_id (Dict.set terminal_id (f t) (or_empty (Dict.get session_id s))) s
]

-- `s.slice(-n)`
unfoldable pub last_units : ℕ → Text → Text
last_units n s = drop (length s - n) s

unfoldable pub grow : Text → Text → Text
unfolding last_units
grow backlog str =
    let longer = backlog ++ str in
    if ltb max_backlog_bytes (length longer) then last_units max_backlog_bytes longer else longer

module _ (decode : List ℕ → Text) where
  abbrev pub chunk_text : Chunk → Text
  chunk_text (text t) = t
  chunk_text (bytes bs) = decode bs

  unfoldable pub append_data : Text → Text → Chunk → Sessions → Sessions
  append_data session_id terminal_id chunk =
      write session_id terminal_id (λ t. record t { backlog = grow t.backlog (chunk_text chunk) })

unfoldable pub resize_terminal : Text → Text → ℕ → ℕ → Sessions → Sessions
resize_terminal session_id terminal_id cols rows =
    write session_id terminal_id
      (λ t. record t { info = record (t.info) { cols = cols; rows = rows } })

unfoldable pub update_permission : Text → Text → Text → Option (List Text) → Sessions → Sessions
update_permission session_id terminal_id mode ids =
    write session_id terminal_id
      (λ t. record t { info = record (t.info) { writable_by = mode; delegated_user_ids = ids } })

-- A session whose last terminal is gone leaves the map.
unfoldable pub keep : Text → Dict ActiveTerminal → Sessions → Sessions
keep session_id [] s = Dict.delete session_id s
keep session_id (e ∷ m) s = Dict.set session_id (e ∷ m) s

unfoldable pub close_terminal : Text → Text → Sessions → Sessions
unfolding keep
close_terminal session_id terminal_id s = elim (Dict.get session_id s) [
  | none ↦ s
  | some m ↦ keep session_id (Dict.delete terminal_id m) s
]

unfoldable pub get_terminals_for_session : Text → Sessions → List (TerminalSessionInfo × Text)
get_terminals_for_session session_id s =
    map (λ t. (t.info, t.backlog)) (Dict.values (or_empty (Dict.get session_id s)))

unfoldable pub get_host_socket_id : Text → Text → Sessions → Option Text
unfolding find
get_host_socket_id session_id terminal_id s = elim (find session_id terminal_id s) [
  | none ↦ none
  | some t ↦ some t.host_socket_id
]

unfoldable pub is_sandboxed : Text → Text → Sessions → Bool
unfolding find
is_sandboxed session_id terminal_id s = elim (find session_id terminal_id s) [
  | none ↦ false
  | some t ↦ t.info.sandboxed
]

unfoldable pub is_host_socket : Text → Text → Text → Sessions → Bool
unfolding get_host_socket_id
is_host_socket session_id terminal_id socket s =
    elim (get_host_socket_id session_id terminal_id s) [ none ↦ false | some h ↦ same h socket ]

abbrev pub is_staff : Role → Bool
is_staff instructor = true
is_staff org_admin = true
is_staff student = false

abbrev pub includes : Option (List Text) → Text → Bool
includes none id = false
includes (some ids) id = any (λ i. same i id) ids

unfoldable pub may_type : ActiveTerminal → JwtPayload → Text → Bool
may_type t user socket =
    if not t.info.interactive
    then false
    else if t.info.sandboxed
    then is_staff user.role
      || (same t.info.writable_by (codes "OPEN")
          || (same t.info.writable_by (codes "DELEGATED")
              && includes t.info.delegated_user_ids user.sub))
    else same t.host_user_id user.sub && same t.host_socket_id socket

unfoldable pub can_send_stdin : Text → Text → JwtPayload → Text → Sessions → Bool
unfolding find may_type
can_send_stdin session_id terminal_id user socket s = elim (find session_id terminal_id s) [
  | none ↦ false
  | some t ↦ may_type t user socket
]

-- The inner loop of `cleanupSocket`: the terminals that stay, and those that were closed.
unfoldable pub sweep : Text → Text → Dict ActiveTerminal → Dict ActiveTerminal × List (Text × Text)
sweep socket session_id [] = ([], [])
sweep socket session_id ((id, t) ∷ m) =
    let (kept, closed) = sweep socket session_id m in
    if same t.host_socket_id socket
    then (kept, (session_id, id) ∷ closed)
    else ((id, t) ∷ kept, closed)

-- A session left with no terminal is dropped.
abbrev pub retain : Text → Dict ActiveTerminal → Sessions → Sessions
retain session_id [] s = s
retain session_id (e ∷ m) s = (session_id, e ∷ m) ∷ s

unfoldable pub cleanup_socket : Text → Sessions → Sessions × List (Text × Text)
unfolding sweep
cleanup_socket socket [] = ([], [])
cleanup_socket socket ((session_id, m) ∷ s) =
    let (kept, closed) = sweep socket session_id m in
    let (rest, more) = cleanup_socket socket s in (retain session_id kept rest, closed ++ more)

unfoldable pub cleanup_session : Text → Sessions → Sessions
cleanup_session session_id s = Dict.delete session_id s
