-- ===== src/Terminal/Cleanup.antt =====
-- src/terminal/terminal.service.ts: what is left when a host's socket is gone.
use livetich_api.Prelude.{
  ◌≡◌, refl, Text, same, same_iff, Bool, false, Option, none, some, List, [], ◌∷◌, ◌++◌, arith, any,
  if◌then◌else◌, ◌&&◌, ◌||◌,
}
use livetich_api.Prelude.Dict
use livetich_api.Prelude.Dict.{Dict, Unique}
use livetich_api.Terminal.{ActiveTerminal, Sessions, find, sweep, retain, cleanup_socket}
use livetich_api.Terminal.Maps.{WellFormed}

abbrev pub hosted_by : Text → Option ActiveTerminal → Bool
hosted_by socket none = false
hosted_by socket (some t) = same t.host_socket_id socket

abbrev pub unless_hosted : Text → Option ActiveTerminal → Option ActiveTerminal
unless_hosted socket o = if hosted_by socket o then none else o

abbrev pub is_listed : Text → Text → List (Text × Text) → Bool
is_listed sid tid closed = any (λ p. same p.0 sid && same p.1 tid) closed

is_listed-append :
    (sid tid : Text) (xs ys : List (Text × Text))
    → is_listed sid tid (xs ++ ys) ≡ is_listed sid tid xs || is_listed sid tid ys
is_listed-append sid tid [] ys = refl
is_listed-append sid tid (x ∷ xs) ys = ground (arith, is_listed-append sid tid xs ys)

get-sweep :
    (socket sid tid : Text) (m : Dict ActiveTerminal)
    → Unique m
    → Dict.get tid (sweep socket sid m).0 ≡ unless_hosted socket (Dict.get tid m)
unfolding sweep Dict.get
get-sweep socket sid tid [] u = refl
get-sweep socket sid tid ((id, t) ∷ m) (absent, u) =
    ground (arith, get-sweep socket sid tid m u, same_iff id tid)

sweep-Unique :
    (socket sid : Text) (m : Dict ActiveTerminal) → Unique m → Unique (sweep socket sid m).0
unfolding sweep
sweep-Unique socket sid [] u = tt
sweep-Unique socket sid ((id, t) ∷ m) (absent, u) =
    ground (arith, get-sweep socket sid id m u, sweep-Unique socket sid m u)

is_listed-sweep :
    (socket sid sid' tid : Text) (m : Dict ActiveTerminal)
    → Unique m
    → is_listed sid' tid (sweep socket sid m).1 ≡ same sid sid' && hosted_by socket (Dict.get tid m)
unfolding sweep Dict.get
is_listed-sweep socket sid sid' tid [] u = ground arith
is_listed-sweep socket sid sid' tid ((id, t) ∷ m) (absent, u) =
    ground (arith, is_listed-sweep socket sid sid' tid m u, same_iff id tid)

get-retain-none :
    (k sid : Text) (kept : Dict ActiveTerminal) (rest : Sessions)
    → same k sid ≡ false
    → Dict.get sid rest ≡ none
    → Dict.get sid (retain k kept rest) ≡ none
unfolding Dict.get
get-retain-none k sid [] rest ne e = e
get-retain-none k sid (x ∷ kept) rest ne e = ground arith

get-cleanup_none :
    (socket sid : Text) (s : Sessions)
    → Dict.get sid s ≡ none
    → Dict.get sid (cleanup_socket socket s).0 ≡ none
unfolding cleanup_socket Dict.get
get-cleanup_none socket sid [] e = refl
get-cleanup_none socket sid ((k, m) ∷ s) e =
    get-retain-none k sid (sweep socket k m).0 (cleanup_socket socket s).0 (ground arith)
      (get-cleanup_none socket sid s (ground arith))

find-retain :
    (k sid tid : Text) (kept : Dict ActiveTerminal) (rest : Sessions)
    → Dict.get k rest ≡ none
    → find sid tid (retain k kept rest)
      ≡ (if same k sid then Dict.get tid kept else find sid tid rest)
unfolding find Dict.get
find-retain k sid tid [] rest e = ground (arith, same_iff k sid)
find-retain k sid tid (x ∷ kept) rest e = ground arith

find-cons :
    (k sid tid : Text) (m : Dict ActiveTerminal) (s : Sessions)
    → find sid tid ((k, m) ∷ s) ≡ (if same k sid then Dict.get tid m else find sid tid s)
unfolding find Dict.get
find-cons k sid tid m s = ground arith

pub find_absent : (sid tid : Text) (s : Sessions) → Dict.get sid s ≡ none → find sid tid s ≡ none
unfolding find
find_absent sid tid s e = rw e (unfold Dict.get in refl)

-- After `cleanupSocket` the terminals of that socket are gone and every other one is untouched, and
-- the list that is announced names exactly those that were closed.
pub cleanup_socket_lem :
    (socket : Text) (s : Sessions)
    → WellFormed s
    → (sid tid : Text)
    → (find sid tid (cleanup_socket socket s).0 ≡ unless_hosted socket (find sid tid s))
      × (is_listed sid tid (cleanup_socket socket s).1 ≡ hosted_by socket (find sid tid s))
unfolding cleanup_socket find
cleanup_socket_lem socket [] w sid tid = unfold Dict.get in (refl, refl)
cleanup_socket_lem socket ((k, m) ∷ s) ((absent, u), ((um, ne), h)) sid tid =
    let (at_rest, in_rest) = cleanup_socket_lem socket s (u, h) sid tid in
    (
      ground (
        arith,
        find-retain k sid tid (sweep socket k m).0 (cleanup_socket socket s).0
            (get-cleanup_none socket k s absent),
        find-cons k sid tid m s,
        get-sweep socket k tid m um,
        at_rest,
      ),
      ground (
        arith,
        find-cons k sid tid m s,
        is_listed-append sid tid (sweep socket k m).1 (cleanup_socket socket s).1,
        is_listed-sweep socket k sid tid m um,
        in_rest,
        same_iff k sid,
        find_absent k tid s absent,
      ),
    )

retain-WellFormed :
    (k : Text) (kept : Dict ActiveTerminal) (rest : Sessions)
    → Unique kept
    → Dict.get k rest ≡ none
    → WellFormed rest
    → WellFormed (retain k kept rest)
retain-WellFormed k [] rest uk e w = w
retain-WellFormed k (x ∷ kept) rest uk e (u, h) = ((e, u), ((uk, ground arith), h))

pub cleanup_socket-WellFormed :
    (socket : Text) (s : Sessions) → WellFormed s → WellFormed (cleanup_socket socket s).0
unfolding cleanup_socket
cleanup_socket-WellFormed socket [] w = w
cleanup_socket-WellFormed socket ((k, m) ∷ s) ((absent, u), ((um, ne), h)) =
    retain-WellFormed k (sweep socket k m).0 (cleanup_socket socket s).0
      (sweep-Unique socket k m um) (get-cleanup_none socket k s absent)
      (cleanup_socket-WellFormed socket s (u, h))
