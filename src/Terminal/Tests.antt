-- ===== src/Terminal/Tests.antt =====
-- Runs of the terminals of src/terminal/, and the theorems at concrete inputs.
use livetich_api.Prelude.{
  ℕ, ◌≡◌, ◌⊎◌, refl, Text, codes, same, true, none, some, List, [], ◌∷◌, arith,
}
use livetich_api.Prelude.Dict
use livetich_api.Identity.{JwtPayload, instructor, student}
use livetich_api.Terminal.{
  TerminalSessionInfo, ActiveTerminal, Sessions, text, bytes, find, open_terminal, append_data,
  close_terminal, cleanup_socket, can_send_stdin, last_units, max_backlog_bytes, is_staff, write,
  grow,
}
use livetich_api.Terminal.Backlog.{backlog_of_stream, append_all, stream}
use livetich_api.Terminal.Maps.{WellFormed}
use livetich_api.Terminal.Gateway.{Client, handle, sent, open_, in_room}
use livetich_api.Terminal.Gateway.Guards.{handle-WellFormed, handle_guarded, HostOnly, Opens}

abbrev shell : TerminalSessionInfo
shell = record {
  terminal_id = codes "t1";
  name = codes "bash";
  cols = 80;
  rows = 24;
  interactive = true;
  sandboxed = true;
  writable_by = codes "DELEGATED";
  delegated_user_ids = some (codes "amina" ∷ []);
}

abbrev held : ActiveTerminal
held = record {
  info = shell;
  host_socket_id = codes "k9";
  host_user_id = codes "zayd";
  backlog = codes "$ ";
}

abbrev one_session : Sessions
one_session = (codes "s1", (codes "t1", held) ∷ []) ∷ []

abbrev amina : JwtPayload
amina = record { sub = codes "amina"; role = student; name = codes "Amina"; organization_id = none }

abbrev host : Client
host = record {
  id = codes "k9";
  user = record {
    sub = codes "zayd";
    role = instructor;
    name = codes "Zayd";
    organization_id = none;
  };
  session_ids = codes "s1" ∷ [];
}

abbrev guest : Client
guest = record { id = codes "k2"; user = amina; session_ids = codes "s1" ∷ [] }

abbrev raw : List ℕ → Text
raw bs = bs

delegated_may_type : can_send_stdin (codes "s1") (codes "t1") amina (codes "k2") one_session ≡ true
unfolding can_send_stdin Dict.get same
delegated_may_type = refl

opened_and_fed :
    find (codes "s1") (codes "t1") (
      append_data raw
        (codes "s1")
        (codes "t1")
        (bytes (codes "ls"))
        (open_terminal (codes "s1") shell (codes "k9") (codes "zayd") []))
    ≡ some (record held { backlog = codes "ls" })
unfolding find append_data open_terminal write grow Dict.get Dict.set same
opened_and_fed = refl

closing_the_last_drops_the_session : close_terminal (codes "s1") (codes "t1") one_session ≡ []
unfolding close_terminal Dict.get Dict.delete same
closing_the_last_drops_the_session = refl

swept : cleanup_socket (codes "k9") one_session ≡ ([], (codes "s1", codes "t1") ∷ [])
unfolding cleanup_socket same
swept = refl

one_session-WellFormed : WellFormed one_session
unfolding Dict.get
one_session-WellFormed = ((refl, tt), (((refl, tt), (λ e. ground arith)), tt))

backlog_of_stream_example :
    find (codes "s1") (codes "t1") (
      append_all raw
        (codes "s1")
        (codes "t1")
        (text (codes "a") ∷ bytes (codes "bc") ∷ [])
        (open_terminal (codes "s1") shell (codes "k9") (codes "zayd") one_session))
    ≡ some (record held {
      backlog =
          last_units max_backlog_bytes (stream raw (text (codes "a") ∷ bytes (codes "bc") ∷ []));
    })
backlog_of_stream_example =
    backlog_of_stream raw (codes "s1") (codes "k9") (codes "zayd") shell
      (text (codes "a") ∷ bytes (codes "bc") ∷ []) one_session

handle-WellFormed_example :
    WellFormed (handle raw host (sent (codes "s1") (codes "t1") (text (codes "x"))) one_session).0
handle-WellFormed_example =
    handle-WellFormed raw host (sent (codes "s1") (codes "t1") (text (codes "x"))) one_session
      one_session-WellFormed

handle_guarded_example :
    HostOnly guest
      (codes "s1")
      (codes "t1")
      one_session
      (handle raw guest (open_ (codes "s1") shell) one_session).0
    ⊎ ((in_room guest (codes "s1") ≡ true)
        × (is_staff guest.user.role ≡ true)
        × Opens (codes "s1") (codes "t1") (open_ (codes "s1") shell))
handle_guarded_example =
    handle_guarded raw guest (open_ (codes "s1") shell) one_session (codes "s1") (codes "t1")
