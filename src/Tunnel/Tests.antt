-- ===== src/Tunnel/Tests.antt =====
-- Runs of src/tunnel/tunnel.service.ts on concrete ports and requests.
use livetich_api.Prelude.{
  List, ◌≡◌, refl, Text, codes, same, true, false, none, [], ◌∷◌, ◌++◌, any, Bool,
}
use livetich_api.Tunnel.{
  ActivePort, Ports, find_port, Requests, asked, answered_end, timed_out, answered_chunk, run,
  sanitize,
}
use livetich_api.Tunnel.Ports.{Unique}
use livetich_api.Tunnel.Responses.{finishes}
use livetich_api.Tunnel.Finish.{finished_exactly_once}

abbrev web : ActivePort
web = record {
  session_id = codes "s";
  port = 3000;
  label = none;
  host_socket_id = codes "host";
  host_user_id = codes "teacher";
  registered_at = codes "t";
}

abbrev api : ActivePort
api = record web { port = 4000; host_socket_id = codes "other" }

abbrev both : Ports
both = web ∷ api ∷ []

both-Unique : Unique both
unfolding find_port same
both-Unique = (refl, (refl, tt))

abbrev same_case : Text → Text
same_case t = t

abbrev nothing : Requests
nothing = record { pending = []; calls = [] }

-- The host answers with an end after its error, and the timer fires too.
finished_exactly_once_example :
    finishes
      (codes "r")
      (run same_case
        (asked (codes "r")
          ∷ ((answered_chunk (codes "r") (1 ∷ []) ∷ [])
              ++ timed_out (codes "r") ∷ answered_end (codes "r") ∷ []))
        nothing).calls
    ≡ 1
finished_exactly_once_example =
    finished_exactly_once same_case (codes "r") (answered_chunk (codes "r") (1 ∷ []) ∷ [])
      (answered_end (codes "r") ∷ []) nothing refl refl refl refl

abbrev one_waits : Requests
one_waits = record {
  pending = record { req_id = codes "r"; headers_sent = false } ∷ [];
  calls = [];
}

abbrev sent_headers : List (Text × Text)
sent_headers = (codes "connection", codes "close") ∷ (codes "etag", codes "1") ∷ []

abbrev is_etag : Text × Text → Bool
is_etag h = same h.0 (codes "etag")

etag_is_kept : any is_etag (sanitize same_case sent_headers) ≡ true
unfolding sanitize same
etag_is_kept = refl
