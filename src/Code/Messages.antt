-- ===== src/Code/Messages.antt =====
-- src/code/code.gateway.ts: the teacher's mouse, cursor, tabs, folders and files, and all messages
-- together.
use livetich_api.Prelude.{
  ℕ, ltb, leb, ◌==◌, if◌then◌else◌, Text, Bool, true, false, not, ◌&&◌, ◌||◌, Option, none, some,
  List, [], ◌∷◌, length, all,
}
use livetich_api.Code.Doc.{Permission, apply_update, may_hold, max_code_file_bytes}
use livetich_api.Code.Gateway.{
  SocketData, CodeEntry, Focus, Mark, PointerKind, move, click, Outside, others, everyone,
  code_update, cursor_sent, pointer_sent, sidebar_sent, folders_sent, permission_sent,
  tab_close_sent, passed_on, Result, nothing, fail, controlling, forbidden, on_update, on_awareness,
  on_tree, on_focus, is_safe, is_safe_code_position, is_safe_selection, is_source_id,
  accept_source_sequence, in_window, count_in,
}

module _ (o : Outside) where
  open o use {yjs, Tree, to_lower_case, seed_update, update_length}
  open yjs use {Doc, Update, utf8_length}

  -- The path, the source and the number of a mark that is as it should be.
  unfoldable pub read_mark : Mark → Option (Text × (Text × ℕ))
  read_mark m = elim m.path [
    | none ↦ none
    | some path ↦ elim m.source_id [
      | none ↦ none
      | some source ↦ elim m.sequence [
        | none ↦ none
        | some n ↦
            if is_safe o path && (is_source_id source && (leb 1 n && is_safe_code_position m.at))
            then some (path, (source, n))
            else none
      ]
    ]
  ]

  -- A cursor that is read, and accepted from its source.
  unfoldable pub place_cursor : SocketData → CodeEntry o → Text → Text → ℕ → ℕ → Result o
  place_cursor c e path source n now =
      let (accepted, d) = accept_source_sequence source n c in
      let window = in_window now c.cursor_window in
      if not accepted
      then nothing o c e
      else if leb 25 window.count
      then nothing o (record d { cursor_window = window }) e
      else (
        record d { cursor_window = count_in window },
        (e, others (cursor_sent source n path) ∷ []),
      )

  unfoldable pub on_cursor : SocketData → CodeEntry o → Mark → ℕ → Result o
  on_cursor c e m now = controlling o (nothing o c e) c e (
      if not (is_safe_selection m.selection) then nothing o c e else elim (read_mark m) [
        | none ↦ nothing o c e
        | some (path, (source, n)) ↦ place_cursor c e path source n now
      ])

  abbrev pub is_move : PointerKind → Bool
  is_move move = true
  is_move click = false

  -- Clicks are counted but never held back.
  unfoldable pub place_pointer :
      SocketData → CodeEntry o → PointerKind → Text → Text → ℕ → ℕ → Result o
  place_pointer c e kind path source n now =
      let (accepted, d) = accept_source_sequence source n c in
      let window = in_window now c.pointer_window in
      if not accepted
      then nothing o c e
      else if is_move kind && leb 25 window.count
      then nothing o (record d { pointer_window = window }) e
      else (
        record d { pointer_window = count_in window },
        (e, others (pointer_sent source n path) ∷ []),
      )

  -- On the editor; `none` is a kind that is neither.
  unfoldable pub on_pointer : SocketData → CodeEntry o → Option PointerKind → Mark → ℕ → Result o
  on_pointer c e none m now = controlling o (nothing o c e) c e (nothing o c e)
  on_pointer c e (some kind) m now = controlling o (nothing o c e) c e (elim (read_mark m) [
    | none ↦ nothing o c e
    | some (path, (source, n)) ↦ place_pointer c e kind path source n now
  ])

  -- On the sidebar.
  unfoldable pub on_sidebar : SocketData → CodeEntry o → Option Text → Result o
  on_sidebar c e none = controlling o (nothing o c e) c e (nothing o c e)
  on_sidebar c e (some target) = controlling o (nothing o c e) c e (
      if leb (length target) 512 && is_safe o target
      then (c, (e, others (sidebar_sent target) ∷ []))
      else nothing o c e)

  -- `seedFileContent`: the update that was put in, and the document with it.
  unfoldable pub seed_file_content : Doc → Text → Text → Option (Update × Doc)
  seed_file_content doc path content =
      if not (may_hold yjs to_lower_case path) || ltb max_code_file_bytes (utf8_length content)
      then none
      else elim (seed_update doc path content) [
        | none ↦ none
        | some u ↦ elim (apply_update yjs to_lower_case doc u) [
          | none ↦ none
          | some d ↦ if update_length u == 0 then none else some (u, d)
        ]
      ]

  unfoldable pub on_edit : SocketData → CodeEntry o → Option Text → Option Text → Result o
  on_edit c e (some path) (some content) = controlling o (fail o forbidden c e) c e (
      if not (is_safe o path) || ltb 1048576 (utf8_length content)
      then nothing o c e
      else elim (seed_file_content e.doc path content) [
        | none ↦ nothing o c e
        | some (u, d) ↦ (c, (record e { doc = d; dirty = true }, everyone (code_update u) ∷ []))
      ])
  on_edit c e none content = controlling o (fail o forbidden c e) c e (nothing o c e)
  on_edit c e (some path) none = controlling o (fail o forbidden c e) c e (nothing o c e)

  -- Scrolling, one folder, all folders, a spotlight: passed on as they are.
  unfoldable pub on_gesture : SocketData → CodeEntry o → Result o
  on_gesture c e = controlling o (nothing o c e) c e (c, (e, others passed_on ∷ []))

  unfoldable pub on_folders_state : SocketData → CodeEntry o → List Text → Result o
  on_folders_state c e expanded =
      controlling o (nothing o c e) c e
        (c, (record e { expanded_folders = some expanded }, others (folders_sent expanded) ∷ []))

  unfoldable pub on_permission : SocketData → CodeEntry o → Permission → Result o
  on_permission c e p =
      controlling o (fail o forbidden c e) c e
        (c, (record e { permission = p }, everyone (permission_sent p) ∷ []))

  abbrev pub are_short : Option (List Text) → Bool
  are_short none = true
  are_short (some files) = leb (length files) 1000 && all (λ f. leb (length f) 512) files

  abbrev pub is_request : Option Text → Bool
  is_request none = true
  is_request (some id) = leb (length id) 128

  abbrev pub or_empty {ℓ} : {A : Type ℓ} → Option (List A) → List A
  or_empty none = []
  or_empty (some xs) = xs

  -- A tab is closed: the next one, if any, and the ones that stay open.
  unfoldable pub on_tab_close :
      SocketData → CodeEntry o → Option Text → Option (List Text) → Option Text → Result o
  on_tab_close c e next open_files request =
      let focus : Focus = record {
        path = or_empty next;
        open_files = some (or_empty open_files);
        cursor = none;
        selection = none;
        controller_user_id = c.user.sub;
      } in
      controlling o (fail o forbidden c e) c e (
        if are_short open_files && is_request request
        then (c, (record e { focus = some focus }, others (tab_close_sent focus) ∷ []))
        else nothing o c e)

  unfoldable pub on_tab_close_result : SocketData → CodeEntry o → Text → Text → List Text → Result o
  on_tab_close_result c e request active open_files = controlling o (nothing o c e) c e (
      if is_request (some request) && (leb (length active) 512 && are_short (some open_files))
      then (c, (e, others passed_on ∷ []))
      else nothing o c e)

  pub data Message : Type 0 where
    update : Option Update → Message
    aware : Option Update → Message
    tree : Tree → Message
    focus : Option Focus → Message
    cursor : Mark → Message
    pointer : Option PointerKind → Mark → Message
    sidebar : Option Text → Message
    edit : Option Text → Option Text → Message
    gesture : Message
    folders_state : List Text → Message
    permission : Permission → Message
    tab_close : Option Text → Option (List Text) → Option Text → Message
    tab_close_result : Text → Text → List Text → Message

  unfoldable pub handle : ℕ → Message → SocketData → CodeEntry o → Result o
  handle now (update u) c e = on_update o c e u
  handle now (aware u) c e = on_awareness o c e u now
  handle now (tree t) c e = on_tree o c e t
  handle now (focus f) c e = on_focus o c e f
  handle now (cursor m) c e = on_cursor c e m now
  handle now (pointer kind m) c e = on_pointer c e kind m now
  handle now (sidebar target) c e = on_sidebar c e target
  handle now (edit path content) c e = on_edit c e path content
  handle now gesture c e = on_gesture c e
  handle now (folders_state expanded) c e = on_folders_state c e expanded
  handle now (permission p) c e = on_permission c e p
  handle now (tab_close next open_files request) c e = on_tab_close c e next open_files request
  handle now (tab_close_result request active open_files) c e =
      on_tab_close_result c e request active open_files
