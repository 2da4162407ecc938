-- ===== src/Terminal/Gateway/Guards.antt =====
-- src/terminal/terminal.gateway.ts: what the guards of the handlers protect.
use livetich_api.Prelude.{
  ℕ, ◌≤◌, ◌≡◌, ◌⊎◌, ◌∙◌, refl, inl, inr, Text, same, same_iff, true, false, ◌&&◌, Option, none,
  some, List, [], ◌∷◌, arith, if◌then◌else◌, Option-cases, length,
}
use livetich_api.Prelude.Dict
use livetich_api.Terminal.{
  ActiveTerminal, Sessions, TerminalSessionInfo, is_staff, find, write, keep, open_terminal,
  append_data, resize_terminal, update_permission, close_terminal, is_host_socket, can_send_stdin,
  get_host_socket_id,
}
use livetich_api.Terminal.Cleanup.{find_absent}
use livetich_api.Terminal.Access.{MayType, can_send_stdin_iff}
use livetich_api.Terminal.Maps.{
  WellFormed, write-WellFormed, set_in-WellFormed, find-write, find-set_in, All-set, All-delete,
  Unique-or_empty,
}
use livetich_api.Terminal.Gateway.{
  Client, Message, handle, in_room, as_host, on_permission, on_stdin, open_, sent, resize, permit,
  type_in, close, Emission, socket, stdin,
}

find-keep :
    (k k' id' : Text) (m : Dict.Dict ActiveTerminal) (s : Sessions)
    → find k' id' (keep k m s) ≡ (if same k k' then Dict.get id' m else find k' id' s)
unfolding keep find
find-keep k k' id' [] s = rw (Dict.get-delete k k' s) (ground (arith, same_iff k k', nothing id'))
  where
    nothing : (j : Text) → Dict.get {V = ActiveTerminal} j [] ≡ none
    nothing j = unfold Dict.get in refl
find-keep k k' id' (e ∷ m) s = rw (Dict.get-set k k' (e ∷ m) s) (ground (arith, same_iff k k'))

-- `close_terminal` removes the one terminal that it names.
find-close_terminal :
    (k id k' id' : Text) (s : Sessions)
    → find k' id' (close_terminal k id s)
      ≡ (if same k k' then (if same id id' then none else find k' id' s) else find k' id' s)
unfolding close_terminal
find-close_terminal k id k' id' s = elim (Option-cases (Dict.get k s)) [
  | inl e ↦
      rw (e, close_terminal) (ground (arith, same_iff k k', same_iff id id', find_absent k id' s e))
  | inr (m, e) ↦
      rw (e, close_terminal, find-keep k k' id' (Dict.delete id m) s, Dict.get-delete id id' m)
        (unfold find in ground (arith, same_iff k k', same_iff id id'))
]

keep-WellFormed :
    (k : Text) (m : Dict.Dict ActiveTerminal) (s : Sessions)
    → Dict.Unique m
    → WellFormed s
    → WellFormed (keep k m s)
unfolding keep
keep-WellFormed k [] s um (u, h) = (Dict.delete-Unique k s u, All-delete k s h)
keep-WellFormed k (e ∷ m) s um (u, h) =
    (Dict.set-Unique k (e ∷ m) s u, All-set k (e ∷ m) s um (ground arith) h)

close_terminal-WellFormed :
    (k id : Text) (s : Sessions) → WellFormed s → WellFormed (close_terminal k id s)
unfolding close_terminal
close_terminal-WellFormed k id s (u, h) = elim (Option-cases (Dict.get k s)) [
  | inl e ↦ rw (e, close_terminal) (u, h)
  | inr (m, e) ↦
      let um : Dict.Unique m = rw e at (Unique-or_empty k s h) in
      rw (e, close_terminal) (keep-WellFormed k _ s (Dict.delete-Unique id m um) (u, h))
]

open_terminal-WellFormed :
    (sid : Text) (info : TerminalSessionInfo) (sock user : Text) (s : Sessions)
    → WellFormed s
    → WellFormed (open_terminal sid info sock user s)
unfolding open_terminal
open_terminal-WellFormed sid info sock user s w = set_in-WellFormed sid info.terminal_id _ s w

find-open_terminal :
    (k : Text) (info : TerminalSessionInfo) (sock user k' id' : Text) (s : Sessions)
    → (same k k' && same info.terminal_id id') ≡ false
    → find k' id' (open_terminal k info sock user s) ≡ find k' id' s
unfolding open_terminal
find-open_terminal k info sock user k' id' s e =
    find-set_in k info.terminal_id k' id' _ s ∙ ground arith

find-write_other :
    (k id k' id' : Text) (f : ActiveTerminal → ActiveTerminal) (s : Sessions)
    → (same k k' && same id id') ≡ false
    → find k' id' (write k id f s) ≡ find k' id' s
find-write_other k id k' id' f s e = find-write k id k' id' f s ∙ ground arith

find-close_other :
    (k id k' id' : Text) (s : Sessions)
    → (same k k' && same id id') ≡ false
    → find k' id' (close_terminal k id s) ≡ find k' id' s
find-close_other k id k' id' s e = find-close_terminal k id k' id' s ∙ ground arith

as_host-WellFormed :
    (c : Client) (k id : Text) (s : Sessions) (act : Sessions × List Emission)
    → WellFormed s
    → WellFormed act.0
    → WellFormed (as_host c k id s act).0
as_host-WellFormed c k id s act w w' = ground arith

permission_act-WellFormed :
    (c : Client) (k id mode : Text) (ids : Option (List Text)) (s : Sessions)
    → WellFormed s
    → WellFormed (on_permission c k id mode ids s).0
unfolding on_permission update_permission
permission_act-WellFormed c k id mode ids s w = ground (
  arith,
  write-WellFormed k id
      (λ (t : ActiveTerminal). record t {
        info = record (t.info) { writable_by = mode; delegated_user_ids = ids };
      })
      s w,
)

-- Every message keeps the map well formed, whether it is carried out or refused.
pub handle-WellFormed :
    (decode : List ℕ → Text) (c : Client) (m : Message) (s : Sessions)
    → WellFormed s
    → WellFormed (handle decode c m s).0
unfolding handle append_data resize_terminal
handle-WellFormed decode c (open_ sid info) s w =
    ground (arith, open_terminal-WellFormed sid info c.id c.user.sub s w)
handle-WellFormed decode c (sent sid tid chunk) s w =
    as_host-WellFormed c sid tid s _ w (write-WellFormed sid tid _ s w)
handle-WellFormed decode c (resize sid tid cols rows) s w =
    as_host-WellFormed c sid tid s _ w (write-WellFormed sid tid _ s w)
handle-WellFormed decode c (permit sid tid mode ids) s w =
    permission_act-WellFormed c sid tid mode ids s w
handle-WellFormed decode c (type_in sid tid input) s w = ground arith
handle-WellFormed decode c (close sid tid) s w =
    as_host-WellFormed c sid tid s _ w (close_terminal-WellFormed sid tid s w)

abbrev pub Opens : Text → Text → Message → Type 0
Opens sid tid (open_ k info) = (k ≡ sid) × (info.terminal_id ≡ tid)
Opens sid tid _ = ⊥

named_or_other :
    (k id sid tid : Text) → ((k ≡ sid) × (id ≡ tid)) ⊎ ((same k sid && same id tid) ≡ false)
named_or_other k id sid tid = ground (arith, same_iff k sid, same_iff id tid)

-- Who may change what is stored of a terminal, by a message that is not an opening of it.
abbrev pub HostOnly : Client → Text → Text → Sessions → Sessions → Type 0
HostOnly c sid tid s s' =
    (find sid tid s' ≡ find sid tid s)
    ⊎ ((in_room c sid ≡ true) × (is_host_socket sid tid c.id s ≡ true))

as_host_guarded :
    (c : Client) (k id sid tid : Text) (s : Sessions) (act : Sessions × List Emission)
    → ((same k sid && same id tid) ≡ false → find sid tid act.0 ≡ find sid tid s)
    → HostOnly c sid tid s (as_host c k id s act).0
as_host_guarded c k id sid tid s act other = elim (named_or_other k id sid tid) [
  | inl (e, e') ↦ rw (← e, ← e') (ground arith)
  | inr ne ↦ inl (ground (arith, other ne))
]

permission_guarded :
    (c : Client) (k id mode : Text) (ids : Option (List Text)) (sid tid : Text) (s : Sessions)
    → HostOnly c sid tid s (on_permission c k id mode ids s).0
unfolding on_permission update_permission
permission_guarded c k id mode ids sid tid s = as_host_guarded c k id sid tid s _ λ ne.
    let kept =
      find-write_other k id sid tid
        (λ (t : ActiveTerminal). record t {
          info = record (t.info) { writable_by = mode; delegated_user_ids = ids };
        })
        s ne in
    ground arith

-- A message changes what is stored of a terminal only if its sender has joined the session and is
-- the terminal's host socket, or is staff and opens that very terminal.
pub handle_guarded :
    (decode : List ℕ → Text) (c : Client) (m : Message) (s : Sessions) (sid tid : Text)
    → HostOnly c sid tid s (handle decode c m s).0
      ⊎ ((in_room c sid ≡ true) × (is_staff c.user.role ≡ true) × Opens sid tid m)
unfolding handle append_data resize_terminal
handle_guarded decode c (open_ k info) s sid tid =
    elim (named_or_other k info.terminal_id sid tid) [
      | inl (e, e') ↦ rw (← e, ← e') (ground arith)
      | inr ne ↦ inl (inl (ground (arith, find-open_terminal k info c.id c.user.sub sid tid s ne)))
    ]
handle_guarded decode c (sent k id chunk) s sid tid =
    inl (as_host_guarded c k id sid tid s _ (find-write_other k id sid tid _ s))
handle_guarded decode c (resize k id cols rows) s sid tid =
    inl (as_host_guarded c k id sid tid s _ (find-write_other k id sid tid _ s))
handle_guarded decode c (permit k id mode ids) s sid tid =
    inl (permission_guarded c k id mode ids sid tid s)
handle_guarded decode c (type_in k id input) s sid tid = inl (inl (ground arith))
handle_guarded decode c (close k id) s sid tid =
    inl (as_host_guarded c k id sid tid s _ (find-close_other k id sid tid s))

-- What is typed is handed to a socket only where the policy of the terminal lets the sender type,
-- and that socket is the terminal's host; from a terminal that is no sandbox it goes back to the
-- sender itself, so no other socket ever writes to a host's own shell.
pub on_stdin_safe :
    (c : Client) (sid tid input h k id data_ from : Text) (s : Sessions)
    → (on_stdin c sid tid input s).1 ≡ (socket h, stdin k id data_ from) ∷ []
    → (t : ActiveTerminal) × (find sid tid s ≡ some t)
      × MayType t c.user c.id
      × (h ≡ t.host_socket_id)
      × (length input ≤ 4096)
      × (from ≡ c.user.sub)
      × ((t.info.sandboxed ≡ true) ⊎ (h ≡ c.id))
unfolding on_stdin get_host_socket_id
on_stdin_safe c sid tid input h k id data_ from s e =
    let allowed : can_send_stdin sid tid c.user c.id s ≡ true = ground arith in
    let (t, at_t, may) = (can_send_stdin_iff sid tid c.user c.id s).0 allowed in
    (
      t,
      at_t,
      may,
      ground (arith, at_t),
      ground arith,
      ground (arith, at_t),
      ground (arith, at_t, may),
    )
