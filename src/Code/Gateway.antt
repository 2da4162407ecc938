-- ===== src/Code/Gateway.antt =====
-- src/code/code.gateway.ts: the messages of one socket to one session's code editor, once it has been
-- authenticated, over the entry that src/code/code-doc.service.ts keeps while a client is there. A value
-- that is not of the type that is meant is `none`. Times are milliseconds and do not run backwards.
use livetich_api.Prelude.{
  ℕ, ◌+◌, ◌-◌, ltb, leb, ◌==◌, if◌then◌else◌, Text, same, same_option, Bool, true, false, not, ◌&&◌,
  ◌||◌, Option, none, some, List, [], ◌∷◌, length, all,
}
use livetich_api.Prelude.Dict
use livetich_api.Prelude.Dict.{Dict}
use livetich_api.Identity.{JwtPayload, instructor, student, org_admin, is_org_admin}
use livetich_api.Code.{is_safe_seed_path}
use livetich_api.Code.Doc.{Yjs, Permission, apply_update, can_write}

pub record Window : Type 0 where
  pub started_at : ℕ
  pub count : ℕ

-- `client.data`, for one session.
pub record SocketData : Type 0 where
  pub user : JwtPayload
  pub joined : Bool
  pub controls : Bool
  pub source_sequences : Dict ℕ
  pub cursor_window : Window
  pub pointer_window : Window
  pub awareness_window : Window

pub record SessionRow : Type 0 where
  pub ended : Bool
  pub code_instruction : Bool
  pub instructor_id : Option Text
  pub organization_id : Option Text

pub data CodeError : Type 0 where
  not_joinable forbidden not_in_room invalid_code_update : CodeError

-- A line and a place in it.
pub record Position : Type 0 where
  pub line : Option ℕ
  pub ch : Option ℕ

abbrev pub is_coordinate : Option ℕ → Bool
is_coordinate none = false
is_coordinate (some n) = leb n 100000

abbrev pub is_safe_code_position : Position → Bool
is_safe_code_position p = is_coordinate p.line && is_coordinate p.ch

pub record Focus : Type 0 where
  pub path : Text
  pub open_files : Option (List Text)
  pub cursor : Option Position
  pub selection : Option (Position × Position)
  pub controller_user_id : Text

-- A mark of the teacher's mouse or cursor, with the source that counts its events.
pub record Mark : Type 0 where
  pub path : Option Text
  pub source_id : Option Text
  pub sequence : Option ℕ
  pub at : Position
  pub selection : Option (Position × Position)

pub data PointerKind : Type 0 where
  move click : PointerKind

-- The tests of `join`, and whether the socket then controls the session.
unfoldable pub refusal : JwtPayload → SessionRow → Bool → Bool
refusal user row enrolled = elim user.role [
  | org_admin ↦ not (same_option row.organization_id user.organization_id)
  | instructor ↦
      not (same_option row.instructor_id (some user.sub))
      && not (same_option row.organization_id user.organization_id)
  | student ↦ not enrolled
]

unfoldable pub on_join : SocketData → Option SessionRow → Bool → Option CodeError × SocketData
on_join c none enrolled = if c.joined then (none, c) else (some not_joinable, c)
on_join c (some row) enrolled =
    if c.joined
    then (none, c)
    else if row.ended
    then (some not_joinable, c)
    else if not row.code_instruction || refusal c.user row enrolled
    then (some forbidden, c)
    else (
      none,
      record c {
        joined = true;
        controls =
            c.controls
            || (same_option row.instructor_id (some c.user.sub) || is_org_admin c.user.role);
      },
    )

unfoldable pub on_leave : SocketData → SocketData
on_leave c = if c.joined then record c { joined = false; controls = false } else c

abbrev pub or_zero : Option ℕ → ℕ
or_zero none = 0
or_zero (some n) = n

unfoldable pub accept_source_sequence : Text → ℕ → SocketData → Bool × SocketData
accept_source_sequence source sequence c =
    let previous = or_zero (Dict.get source c.source_sequences) in
    if leb sequence previous || (previous == 0 && leb 16 (length c.source_sequences))
    then (false, c)
    else (true, record c { source_sequences = Dict.set source sequence c.source_sequences })

-- The count starts again when a second has gone by.
unfoldable pub in_window : ℕ → Window → Window
in_window now w =
    if leb 1000 (now - w.started_at) then record { started_at = now; count = 0 } else w

abbrev pub count_in : Window → Window
count_in w = record w { count = w.count + 1 }

abbrev pub is_source_unit : ℕ → Bool
is_source_unit c =
    (leb b'A' c && leb c b'Z')
    || ((leb b'a' c && leb c b'z') || ((leb b'0' c && leb c b'9') || (c == b'_' || c == b'-')))

-- `/^[A-Za-z0-9_-]{8,128}$/`
unfoldable pub is_source_id : Text → Bool
is_source_id s = leb 8 (length s) && (leb (length s) 128 && all is_source_unit s)

abbrev pub is_safe_selection : Option (Position × Position) → Bool
is_safe_selection none = true
is_safe_selection (some (anchor, active)) =
    is_safe_code_position anchor && is_safe_code_position active

abbrev pub is_safe_cursor : Option Position → Bool
is_safe_cursor none = true
is_safe_cursor (some p) = is_safe_code_position p

-- What is not the repository's: Yjs, with the update that puts a file into a document that does not
-- have it, the workspace tree as clients send it, and `toLowerCase`.
pub record Outside : Type 1 where
  pub yjs : Yjs
  pub Tree : Type 0
  pub to_lower_case : Text → Text
  pub seed_update : yjs.Doc → Text → Text → Option yjs.Update
  pub update_length : yjs.Update → ℕ

module _ (o : Outside) where
  open o use {yjs, Tree, to_lower_case, seed_update, update_length}
  open yjs use {Doc, Update}

  -- `CodeEntry`
  pub record CodeEntry : Type 0 where
    pub doc : Doc
    pub dirty : Bool
    pub permission : Permission
    pub tree : Option Tree
    pub focus : Option Focus
    pub expanded_folders : Option (List Text)

  pub data Event : Type 0 where
    code_update awareness : Update → Event
    tree_sent : Tree → Event
    focus_sent : Focus → Event
    cursor_sent pointer_sent : Text → ℕ → Text → Event
    sidebar_sent : Text → Event
    folders_sent : List Text → Event
    permission_sent : Permission → Event
    tab_close_sent : Focus → Event
    passed_on : Event

  pub data Emission : Type 0 where
    others everyone : Event → Emission
    failed : CodeError → Emission

  abbrev pub Result : Type 0
  Result = SocketData × (CodeEntry × List Emission)

  abbrev pub nothing : SocketData → CodeEntry → Result
  nothing c e = (c, (e, []))

  abbrev pub fail : CodeError → SocketData → CodeEntry → Result
  fail error c e = (c, (e, failed error ∷ []))

  -- What a handler begins with: `inRoom`, then the test of control.
  abbrev pub in_room : SocketData → CodeEntry → Result → Result
  in_room c e act = if c.joined then act else fail not_in_room c e

  abbrev pub controlling : Result → SocketData → CodeEntry → Result → Result
  controlling refused c e act = in_room c e (if c.controls then act else refused)

  -- `toBytes` has given the update, `none` where the message has no bytes.
  unfoldable pub on_update : SocketData → CodeEntry → Option Update → Result
  on_update c e update = in_room c e (
      if not c.controls && not (can_write e.permission c.user)
      then fail forbidden c e
      else elim update [
        | none ↦ nothing c e
        | some u ↦
            if update_length u == 0 || ltb 2097152 (update_length u)
            then nothing c e
            else elim (apply_update yjs to_lower_case e.doc u) [
              | none ↦ fail invalid_code_update c e
              | some d ↦ (c, (record e { doc = d; dirty = true }, others (code_update u) ∷ []))
            ]
      ])

  unfoldable pub on_awareness : SocketData → CodeEntry → Option Update → ℕ → Result
  on_awareness c e none now = in_room c e (nothing c e)
  on_awareness c e (some u) now =
      let window = in_window now c.awareness_window in
      in_room c e (
        if update_length u == 0 || ltb 65536 (update_length u)
        then nothing c e
        else if leb 25 window.count
        then nothing (record c { awareness_window = window }) e
        else (record c { awareness_window = count_in window }, (e, others (awareness u) ∷ [])))

  unfoldable pub on_tree : SocketData → CodeEntry → Tree → Result
  on_tree c e tree =
      controlling (fail forbidden c e) c e
        (c, (record e { tree = some tree }, others (tree_sent tree) ∷ []))

  abbrev pub is_safe : Text → Bool
  is_safe path = is_safe_seed_path to_lower_case path

  abbrev pub are_safe : Option (List Text) → Bool
  are_safe none = true
  are_safe (some files) = leb (length files) 1000 && all is_safe files

  -- The path may be empty, when no file is open.
  unfoldable pub is_safe_focus : Focus → Bool
  is_safe_focus f =
      (same f.path [] || is_safe f.path)
      && (are_safe f.open_files && (is_safe_cursor f.cursor && is_safe_selection f.selection))

  unfoldable pub on_focus : SocketData → CodeEntry → Option Focus → Result
  on_focus c e none = controlling (fail forbidden c e) c e (nothing c e)
  on_focus c e (some p) =
      let focus = record p { controller_user_id = c.user.sub } in
      controlling (fail forbidden c e) c e (
        if not (leb (length p.path) 512) || not (is_safe_focus p)
        then nothing c e
        else (c, (record e { focus = some focus }, others (focus_sent focus) ∷ [])))
