-- ===== src/Tunnel/Ports.antt =====
-- src/tunnel/tunnel.service.ts: the port map as a map from session and port, and what a socket that
-- goes away takes with it.
use livetich_api.Prelude.{
  ℕ, ◌≡◌, refl, ◌==◌, if◌then◌else◌, Text, same, same_iff, Bool, false, ◌&&◌, Option, none, some,
  [], ◌∷◌, arith, ==_iff, any,
}
use livetich_api.Tunnel.{
  get_ports_for_session, ActivePort, Ports, is_at, find_port, register_port, unregister_port,
  get_host_socket_for_port, cleanup_socket,
}

-- No key is there twice.
abbrev pub Unique : Ports → Type 0
Unique [] = Unit {0}
Unique (p ∷ ps) = (find_port p.session_id p.port ps ≡ none) × Unique ps

pub find-register :
    (session : Text) (port : ℕ) (info : ActivePort) (ps : Ports)
    → find_port session port (register_port info ps)
      ≡ (if is_at session port info then some info else find_port session port ps)
unfolding find_port register_port
find-register session port info [] = ground arith
find-register session port info (p ∷ ps) = ground (
  arith,
  find-register session port info ps,
  same_iff info.session_id p.session_id,
  same_iff session p.session_id,
  same_iff session info.session_id,
  ==_iff info.port p.port,
  ==_iff port p.port,
  ==_iff port info.port,
)

cleanup-find-none :
    (socket session : Text) (port : ℕ) (ps : Ports)
    → find_port session port ps ≡ none
    → find_port session port (cleanup_socket socket ps).1 ≡ none
unfolding find_port cleanup_socket
cleanup-find-none socket session port [] h = refl
cleanup-find-none socket session port (p ∷ ps) h =
    ground (arith, cleanup-find-none socket session port ps)

-- What is left of a port when a socket goes away.
abbrev pub unless_host : Text → Option ActivePort → Option ActivePort
unless_host socket none = none
unless_host socket (some p) = if same p.host_socket_id socket then none else some p

cleanup-find :
    (socket session : Text) (port : ℕ) (ps : Ports)
    → Unique ps
    → find_port session port (cleanup_socket socket ps).1
      ≡ unless_host socket (find_port session port ps)
unfolding find_port cleanup_socket
cleanup-find socket session port [] u = refl
cleanup-find socket session port (p ∷ ps) (absent, u) = ground (
  arith,
  cleanup-find socket session port ps u,
  cleanup-find-none socket p.session_id p.port ps absent,
  same_iff session p.session_id,
  ==_iff port p.port,
)

cleanup-Unique : (socket : Text) (ps : Ports) → Unique ps → Unique (cleanup_socket socket ps).1
unfolding cleanup_socket
cleanup-Unique socket [] u = tt
cleanup-Unique socket (p ∷ ps) (absent, u) =
    ground
      (arith, cleanup-Unique socket ps u, cleanup-find-none socket p.session_id p.port ps absent)

pub register-Unique : (info : ActivePort) (ps : Ports) → Unique ps → Unique (register_port info ps)
unfolding register_port find_port
register-Unique info [] u = (refl, tt)
register-Unique info (p ∷ ps) (absent, u) = ground (
  arith,
  register-Unique info ps u,
  find-register p.session_id p.port info ps,
  same_iff info.session_id p.session_id,
  same_iff p.session_id info.session_id,
  ==_iff info.port p.port,
  ==_iff p.port info.port,
)

pub find-unregister :
    (session : Text) (port : ℕ) (s : Text) (n : ℕ) (ps : Ports)
    → Unique ps
    → find_port session port (unregister_port s n ps).1
      ≡ (if same session s && port == n then none else find_port session port ps)
unfolding find_port unregister_port
find-unregister session port s n [] u = ground arith
find-unregister session port s n (p ∷ ps) (absent, u) = ground (
  arith,
  find-unregister session port s n ps u,
  absent,
  same_iff s p.session_id,
  same_iff session p.session_id,
  same_iff session s,
  ==_iff n p.port,
  ==_iff port p.port,
  ==_iff port n,
)

abbrev pub is_hosted : Text → Option ActivePort → Bool
is_hosted socket none = false
is_hosted socket (some p) = same p.host_socket_id socket

-- The announced list names exactly the ports that were the socket's.
cleanup-announced :
    (socket session : Text) (port : ℕ) (ps : Ports)
    → Unique ps
    → any (λ k. same session k.0 && port == k.1) (cleanup_socket socket ps).0
      ≡ is_hosted socket (find_port session port ps)
unfolding find_port cleanup_socket
cleanup-announced socket session port [] u = refl
cleanup-announced socket session port (p ∷ ps) (absent, u) = ground (
  arith,
  cleanup-announced socket session port ps u,
  absent,
  same_iff session p.session_id,
  ==_iff port p.port,
)

-- When a socket goes away, exactly the ports that it hosts are forgotten and announced; every other
-- port stays as it was, and no key is there twice afterwards.
pub cleanup_socket_ports :
    (socket session : Text) (port : ℕ) (ps : Ports)
    → Unique ps
    → (find_port session port (cleanup_socket socket ps).1
        ≡ unless_host socket (find_port session port ps))
      × (any (λ k. same session k.0 && port == k.1) (cleanup_socket socket ps).0
          ≡ is_hosted socket (find_port session port ps))
      × Unique (cleanup_socket socket ps).1
cleanup_socket_ports socket session port ps u = (
  cleanup-find socket session port ps u,
  cleanup-announced socket session port ps u,
  cleanup-Unique socket ps u,
)

-- A port that is registered leads to its host until it is unregistered, and no other port's host
-- changes, whatever was registered for it before.
pub register-unregister :
    (session : Text) (port : ℕ) (info : ActivePort) (ps : Ports)
    → Unique ps
    → (get_host_socket_for_port session port (register_port info ps) ≡ (
        if is_at session port info
        then some info.host_socket_id
        else get_host_socket_for_port session port ps))
      × (get_host_socket_for_port session port
            (unregister_port info.session_id info.port (register_port info ps)).1
          ≡ (if is_at session port info then none else get_host_socket_for_port session port ps))
unfolding get_host_socket_for_port
register-unregister session port info ps u =
    let found = find-register session port info ps in
    let gone =
      find-unregister session port info.session_id info.port (register_port info ps)
        (register-Unique info ps u) in
    (ground (arith, found), ground (arith, found, gone))

-- The list of a session's ports is the map on that session: it holds what the map holds for each port
-- of it, and no port of another session.
pub get_ports_for_session_lem :
    (session other : Text) (port : ℕ) (ps : Ports)
    → find_port other port (get_ports_for_session session ps)
      ≡ (if same session other then find_port other port ps else none)
unfolding find_port get_ports_for_session
get_ports_for_session_lem session other port [] = ground arith
get_ports_for_session_lem session other port (p ∷ ps) = ground (
  arith,
  get_ports_for_session_lem session other port ps,
  same_iff p.session_id session,
  same_iff other p.session_id,
  same_iff session other,
)
