-- ===== src/Code/Control.antt =====
-- src/code/code.gateway.ts: whose message may change what in the code editor.
use livetich_api.Prelude.{
  ℕ, ◌≡◌, refl, Bool, true, false, ◌&&◌, ◌||◌, Option, none, some, all, arith,
}
use livetich_api.Code.Doc.{can_write}
use livetich_api.Code.Gateway.{
  SocketData, CodeEntry, Outside, Emission, others, everyone, failed, awareness, code_update,
  tree_sent, focus_sent, cursor_sent, pointer_sent, sidebar_sent, folders_sent, permission_sent,
  tab_close_sent, passed_on, Result, controlling, on_update, on_awareness, on_tree, on_focus,
}
use livetich_api.Code.Messages.{
  on_cursor, on_pointer, on_sidebar, on_edit, on_gesture, on_folders_state, on_permission,
  on_tab_close, on_tab_close_result, Message, update, aware, tree, focus, cursor, pointer, sidebar,
  edit, gesture, folders_state, permission, tab_close, tab_close_result, handle,
}

module _ (o : Outside) where
  open o use {yjs, to_lower_case}

  -- What anyone in the room may cause: to be told of an error, and to show where they are.
  abbrev pub is_harmless : Emission o → Bool
  is_harmless (failed x) = true
  is_harmless (others x) = elim x [
    | awareness u ↦ true
    | code_update u ↦ false
    | tree_sent t ↦ false
    | focus_sent f ↦ false
    | cursor_sent s n p ↦ false
    | pointer_sent s n p ↦ false
    | sidebar_sent t ↦ false
    | folders_sent fs ↦ false
    | permission_sent p ↦ false
    | tab_close_sent f ↦ false
    | passed_on ↦ false
  ]
  is_harmless (everyone x) = false

  -- The message left the editor alone.
  abbrev pub IsIdle : CodeEntry o → Result o → Type 0
  IsIdle e r = (r.1.0 ≡ e) × (all is_harmless r.1.1 ≡ true)

  controlling-IsIdle :
      (c : SocketData) (e : CodeEntry o) (refused act : Result o)
      → (c.joined && c.controls) ≡ false
      → IsIdle e refused
      → IsIdle e (controlling o refused c e act)
  controlling-IsIdle c e refused act h (same_entry, quiet) =
      (ground (arith, h, same_entry), ground (arith, h, quiet))

  on_update-IsIdle :
      (c : SocketData) (e : CodeEntry o) (u : Option yjs.Update)
      → (c.joined && (c.controls || can_write e.permission c.user)) ≡ false
      → IsIdle e (on_update o c e u)
  unfolding on_update
  on_update-IsIdle c e u h = (ground (arith, h), ground (arith, h))

  on_awareness-IsIdle :
      (c : SocketData) (e : CodeEntry o) (u : Option yjs.Update) (now : ℕ)
      → IsIdle e (on_awareness o c e u now)
  unfolding on_awareness
  on_awareness-IsIdle c e none now = (ground arith, ground arith)
  on_awareness-IsIdle c e (some u) now = (ground arith, ground arith)

  not_controlling :
      (c : SocketData) (e : CodeEntry o)
      → (c.joined && (c.controls || can_write e.permission c.user)) ≡ false
      → (c.joined && c.controls) ≡ false
  not_controlling c e h = ground (arith, h)

  -- A message of a socket that has not joined, or that neither controls the session nor may write, leaves
  -- the document, the tree, what is shown, the folders and the permission alone, and the others see
  -- nothing of it but where its sender is.
  pub handle-IsIdle :
      (now : ℕ) (m : Message o) (c : SocketData) (e : CodeEntry o)
      → (c.joined && (c.controls || can_write e.permission c.user)) ≡ false
      → IsIdle e (handle o now m c e)
  unfolding handle on_tree on_focus on_cursor on_pointer on_sidebar on_edit on_gesture
      on_folders_state on_permission on_tab_close on_tab_close_result
  handle-IsIdle now (update u) c e h = on_update-IsIdle c e u h
  handle-IsIdle now (aware u) c e h = on_awareness-IsIdle c e u now
  handle-IsIdle now (tree t) c e h = controlling-IsIdle c e _ _ (not_controlling c e h) (refl, refl)
  handle-IsIdle now (focus none) c e h =
      controlling-IsIdle c e _ _ (not_controlling c e h) (refl, refl)
  handle-IsIdle now (focus (some f)) c e h =
      controlling-IsIdle c e _ _ (not_controlling c e h) (refl, refl)
  handle-IsIdle now (cursor m) c e h =
      controlling-IsIdle c e _ _ (not_controlling c e h) (refl, refl)
  handle-IsIdle now (pointer none m) c e h =
      controlling-IsIdle c e _ _ (not_controlling c e h) (refl, refl)
  handle-IsIdle now (pointer (some k) m) c e h =
      controlling-IsIdle c e _ _ (not_controlling c e h) (refl, refl)
  handle-IsIdle now (sidebar none) c e h =
      controlling-IsIdle c e _ _ (not_controlling c e h) (refl, refl)
  handle-IsIdle now (sidebar (some t)) c e h =
      controlling-IsIdle c e _ _ (not_controlling c e h) (refl, refl)
  handle-IsIdle now (edit none content) c e h =
      controlling-IsIdle c e _ _ (not_controlling c e h) (refl, refl)
  handle-IsIdle now (edit (some p) none) c e h =
      controlling-IsIdle c e _ _ (not_controlling c e h) (refl, refl)
  handle-IsIdle now (edit (some p) (some t)) c e h =
      controlling-IsIdle c e _ _ (not_controlling c e h) (refl, refl)
  handle-IsIdle now gesture c e h = controlling-IsIdle c e _ _ (not_controlling c e h) (refl, refl)
  handle-IsIdle now (folders_state fs) c e h =
      controlling-IsIdle c e _ _ (not_controlling c e h) (refl, refl)
  handle-IsIdle now (permission p) c e h =
      controlling-IsIdle c e _ _ (not_controlling c e h) (refl, refl)
  handle-IsIdle now (tab_close n fs r) c e h =
      controlling-IsIdle c e _ _ (not_controlling c e h) (refl, refl)
  handle-IsIdle now (tab_close_result r a fs) c e h =
      controlling-IsIdle c e _ _ (not_controlling c e h) (refl, refl)
