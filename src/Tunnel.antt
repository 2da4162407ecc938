-- ===== src/Tunnel.antt =====
-- src/tunnel/tunnel.service.ts: the forwarded ports of the live sessions, and the HTTP requests that
-- wait for the host. The two maps are the state, with the calls that were made on Express responses.
-- The target and preview addresses are text made from the session and the port, and are not kept.
pub mod Ports
pub mod Finish
pub mod Responses
mod Tests
use Prim.Native.String.{String}
use livetich_api.Prelude.{
  ℕ, ltb, ◌==◌, if◌then◌else◌, ◌≡◌, Text, codes, same, Bool, true, false, not, ◌&&◌, ◌||◌, Option,
  none, some, List, [], ◌∷◌, ◌++◌, length, any, map,
}

pub record ActivePort : Type 0 where
  pub session_id : Text
  pub port : ℕ
  pub label : Option Text
  pub host_socket_id : Text
  pub host_user_id : Text
  pub registered_at : Text

-- Map: `${sessionId}:${port}` -> ActivePort. A port is written in digits, so the key tells both apart.
abbrev pub Ports : Type 0
Ports = List ActivePort

abbrev pub is_at : Text → ℕ → ActivePort → Bool
is_at session port p = same session p.session_id && port == p.port

-- `this.ports.get`
unfoldable pub find_port : Text → ℕ → Ports → Option ActivePort
find_port session port [] = none
find_port session port (p ∷ ps) =
    let rest = find_port session port ps in if is_at session port p then some p else rest

-- `this.ports.set`: a key that is there keeps its place.
unfoldable pub register_port : ActivePort → Ports → Ports
register_port info [] = info ∷ []
register_port info (p ∷ ps) =
    let rest = register_port info ps in
    if is_at info.session_id info.port p then info ∷ ps else p ∷ rest

unfoldable pub unregister_port : Text → ℕ → Ports → Bool × Ports
unregister_port session port [] = (false, [])
unregister_port session port (p ∷ ps) =
    let (found, rest) = unregister_port session port ps in
    if is_at session port p then (true, ps) else (found, p ∷ rest)

unfoldable pub get_ports_for_session : Text → Ports → List ActivePort
get_ports_for_session session [] = []
get_ports_for_session session (p ∷ ps) =
    let rest = get_ports_for_session session ps in
    if same p.session_id session then p ∷ rest else rest

unfoldable pub get_host_socket_for_port : Text → ℕ → Ports → Option Text
get_host_socket_for_port session port ps = elim (find_port session port ps) [
  | none ↦ none
  | some p ↦ some p.host_socket_id
]

-- The ports that are announced as removed, and what is left.
unfoldable pub cleanup_socket : Text → Ports → List (Text × ℕ) × Ports
cleanup_socket socket [] = ([], [])
cleanup_socket socket (p ∷ ps) =
    let (removed, kept) = cleanup_socket socket ps in
    if same p.host_socket_id socket
    then ((p.session_id, p.port) ∷ removed, kept)
    else (removed, p ∷ kept)

-- A call on the Express response of a request. Each counts the calls that set a header as one with
-- the status.
pub data Call : Type 0 where
  status_and_headers : ℕ → List (Text × Text) → Call
  write : List ℕ → Call
  end_ : Call
  status_json : ℕ → Call

pub record PendingTunnelRequest : Type 0 where
  pub req_id : Text
  pub headers_sent : Bool

-- The pending requests, and the calls that were made on responses, newest first.
pub record Requests : Type 0 where
  pub pending : List PendingTunnelRequest
  pub calls : List (Text × Call)

-- `this.pendingRequests.get`
unfoldable pub find_pending : Text → List PendingTunnelRequest → Option PendingTunnelRequest
find_pending id [] = none
find_pending id (q ∷ qs) =
    let rest = find_pending id qs in if same id q.req_id then some q else rest

-- `this.pendingRequests.delete`
unfoldable pub drop_pending : Text → List PendingTunnelRequest → List PendingTunnelRequest
drop_pending id [] = []
drop_pending id (q ∷ qs) =
    let rest = drop_pending id qs in if same id q.req_id then rest else q ∷ rest

-- `this.pendingRequests.set`
unfoldable pub put_pending :
    PendingTunnelRequest → List PendingTunnelRequest → List PendingTunnelRequest
put_pending q [] = q ∷ []
put_pending q (r ∷ rs) =
    let rest = put_pending q rs in if same q.req_id r.req_id then q ∷ rs else r ∷ rest

unfoldable pub register_pending_request : Text → Requests → Requests
register_pending_request id w = record w {
  pending = put_pending (record { req_id = id; headers_sent = false }) w.pending;
}

-- The headers that are not passed on, spelled in lower case.
abbrev pub is_dropped : Text → Bool
is_dropped k =
    same k (codes "x-frame-options")
    || (same k (codes "frame-ancestors")
        || (same k (codes "transfer-encoding")
            || (same k (codes "connection") || same k (codes "keep-alive"))))

-- `lower` is `toLowerCase`.
unfoldable pub sanitize : (Text → Text) → List (Text × Text) → List (Text × Text)
sanitize lower [] = []
sanitize lower ((k, v) ∷ hs) =
    let rest = sanitize lower hs in if is_dropped (lower k) then rest else (k, v) ∷ rest

-- The handlers of what the host sends. What a call that throws would change is the answer, which no
-- caller reads: `throws` says whether one does.
unfoldable pub handle_response_headers :
    (Text → Text) → Bool → Text → ℕ → List (Text × Text) → Requests → Bool × Requests
handle_response_headers lower throws id code headers w = elim (find_pending id w.pending) [
  | none ↦ (false, w)
  | some q ↦ if q.headers_sent then (false, w) else (
    not throws,
    record {
      pending = put_pending (record q { headers_sent = true }) w.pending;
      calls = (id, status_and_headers code (sanitize lower headers)) ∷ w.calls;
    },
  )
]

unfoldable pub handle_response_chunk : Bool → Text → List ℕ → Requests → Bool × Requests
handle_response_chunk throws id buf w = elim (find_pending id w.pending) [
  | none ↦ (false, w)
  | some q ↦ (not throws, record w { calls = (id, write buf) ∷ w.calls })
]

unfoldable pub handle_response_end : Text → Requests → Requests
handle_response_end id w = elim (find_pending id w.pending) [
  | none ↦ w
  | some q ↦ record { pending = drop_pending id w.pending; calls = (id, end_) ∷ w.calls }
]

-- What ends a request that failed with `code`.
abbrev pub failure : ℕ → PendingTunnelRequest → Call
failure code q = if not q.headers_sent then status_json code else end_

unfoldable pub handle_response_error : Text → Requests → Requests
handle_response_error id w = elim (find_pending id w.pending) [
  | none ↦ w
  | some q ↦ record { pending = drop_pending id w.pending; calls = (id, failure 502 q) ∷ w.calls }
]

unfoldable pub abort_request : Text → Requests → Requests
abort_request id w = elim (find_pending id w.pending) [
  | none ↦ w
  | some q ↦ record w { pending = drop_pending id w.pending }
]

unfoldable pub handle_timeout : Text → Requests → Requests
handle_timeout id w = elim (find_pending id w.pending) [
  | none ↦ w
  | some q ↦ record { pending = drop_pending id w.pending; calls = (id, failure 504 q) ∷ w.calls }
]

-- What may happen to the requests, in any order: a browser asks, the host answers, the browser goes
-- away, the 30 seconds run out.
pub data Step : Type 0 where
  asked answered_end aborted timed_out answered_error : Text → Step
  answered_headers : Text → ℕ → List (Text × Text) → Step
  answered_chunk : Text → List ℕ → Step

module _ (lower : Text → Text) where
  unfoldable pub advance : Step → Requests → Requests
  advance (asked id) w = register_pending_request id w
  advance (answered_end id) w = handle_response_end id w
  advance (aborted id) w = abort_request id w
  advance (timed_out id) w = handle_timeout id w
  advance (answered_error id) w = handle_response_error id w
  advance (answered_headers id code hs) w = (handle_response_headers lower false id code hs w).1
  advance (answered_chunk id buf) w = (handle_response_chunk false id buf w).1

  unfoldable pub run : List Step → Requests → Requests
  run [] w = w
  run (s ∷ ss) w = run ss (advance s w)
