-- ===== src/Code/Held.antt =====
-- src/code/code.gateway.ts over src/code/code-doc.service.ts: the document of an editor, whatever its
-- clients send.
use livetich_api.Prelude.{
  ℕ, ltb, ◌==◌, sym, if◌then◌else◌, ◌≡◌, refl, Text, Bool, true, false, not, ◌&&◌, ◌||◌, Option,
  none, some, List, [], ◌∷◌, arith, Option-cases, inl, inr,
}
use livetich_api.Code.Doc.{apply_update, can_write}
use livetich_api.Code.Quota.{IsWithin, apply_update_lem}
use livetich_api.Code.Gateway.{
  SocketData, CodeEntry, Mark, PointerKind, move, Outside, Result, controlling, on_update,
  on_awareness, on_tree, on_focus, is_safe,
}
use livetich_api.Code.Messages.{
  read_mark, on_cursor, on_pointer, place_cursor, place_pointer, on_sidebar, seed_file_content,
  on_edit, on_gesture, on_folders_state, on_permission, on_tab_close, on_tab_close_result, Message,
  update, aware, tree, focus, cursor, pointer, sidebar, edit, gesture, folders_state, permission,
  tab_close, tab_close_result, handle,
}

module _ (o : Outside) where
  open o use {yjs, to_lower_case, seed_update, update_length}

  one_of :
      (b : Bool) (d e : yjs.Doc)
      → IsWithin yjs to_lower_case d
      → IsWithin yjs to_lower_case e
      → IsWithin yjs to_lower_case (if b then d else e)
  one_of true d e h k = h
  one_of false d e h k = k

  accepted_lem :
      (d : yjs.Doc) (u : yjs.Update) (e : yjs.Doc)
      → apply_update yjs to_lower_case d u ≡ some e
      → IsWithin yjs to_lower_case e
  accepted_lem d u e h = (apply_update_lem yjs to_lower_case d u e h).1

  updated_lem :
      (c : SocketData) (e : CodeEntry o) (u : Option yjs.Update)
      → IsWithin yjs to_lower_case e.doc
      → IsWithin yjs to_lower_case (on_update o c e u).1.0.doc
  unfolding on_update
  updated_lem c e none h = let at : (on_update o c e none).1.0.doc ≡ e.doc = ground arith in rw at h
  updated_lem c e (some u) h = elim (Option-cases (apply_update yjs to_lower_case e.doc u)) [
    | inl a ↦ let at : (on_update o c e (some u)).1.0.doc ≡ e.doc = ground (arith, a) in rw at h
    | inr (d, a) ↦
        let taken =
          c.joined
          && ((c.controls || can_write e.permission c.user)
              && not (update_length u == 0 || ltb 2097152 (update_length u))) in
        let at : (on_update o c e (some u)).1.0.doc ≡ (if taken then d else e.doc) =
          ground (arith, a) in
        rw at (one_of taken d e.doc (accepted_lem e.doc u d a) h)
  ]

  seeded_lem :
      (doc : yjs.Doc) (path content : Text) (u : yjs.Update) (d : yjs.Doc)
      → seed_file_content o doc path content ≡ some (u, d)
      → IsWithin yjs to_lower_case d
  unfolding seed_file_content
  seeded_lem doc path content u d h = elim (Option-cases (seed_update doc path content)) [
    | inl a ↦ absurd (ground (arith, h, a))
    | inr (v, a) ↦ elim (Option-cases (apply_update yjs to_lower_case doc v)) [
      | inl b ↦ absurd (ground (arith, h, a, b))
      | inr (f, b) ↦
          let same_doc : f ≡ d = ground (arith, h, a, b) in
          rw (sym same_doc) (accepted_lem doc v f b)
    ]
  ]

  edited_lem :
      (c : SocketData) (e : CodeEntry o) (path content : Text)
      → IsWithin yjs to_lower_case e.doc
      → IsWithin yjs to_lower_case (on_edit o c e (some path) (some content)).1.0.doc
  unfolding on_edit
  edited_lem c e path content h = elim (Option-cases (seed_file_content o e.doc path content)) [
    | inl a ↦
        let at : (on_edit o c e (some path) (some content)).1.0.doc ≡ e.doc = ground (arith, a) in
        rw at h
    | inr ((u, d), a) ↦
        let taken =
          c.joined
          && (c.controls && not (not (is_safe o path) || ltb 1048576 (yjs.utf8_length content))) in
        let at : (on_edit o c e (some path) (some content)).1.0.doc ≡ (if taken then d else e.doc) =
          ground (arith, a) in
        rw at (one_of taken d e.doc (seeded_lem e.doc path content u d a) h)
  ]

  DocIsKept : CodeEntry o → Result o → Type 0
  DocIsKept e r = IsWithin yjs to_lower_case e.doc → IsWithin yjs to_lower_case r.1.0.doc

  same_doc : (e : CodeEntry o) (r : Result o) → r.1.0.doc ≡ e.doc → DocIsKept e r
  unfolding DocIsKept
  same_doc e r q h = rw q h

  controlled :
      (c : SocketData) (e : CodeEntry o) (refused act : Result o)
      → refused.1.0.doc ≡ e.doc
      → act.1.0.doc ≡ e.doc
      → DocIsKept e (controlling o refused c e act)
  controlled c e refused act p q = same_doc e (controlling o refused c e act) (ground (arith, p, q))

  marked_lem :
      (c : SocketData) (e : CodeEntry o) (m : Mark) (k : PointerKind) (now : ℕ)
      → ((on_cursor o c e m now).1.0.doc ≡ e.doc)
        × ((on_pointer o c e (some k) m now).1.0.doc ≡ e.doc)
  unfolding on_cursor on_pointer place_cursor place_pointer
  marked_lem c e m k now = elim (Option-cases (read_mark o m)) [
    | inl a ↦ (ground (arith, a), ground (arith, a))
    | inr ((path, (source, n)), a) ↦ (ground (arith, a), ground (arith, a))
  ]

  handle_lem :
      (now : ℕ) (m : Message o) (c : SocketData) (e : CodeEntry o)
      → DocIsKept e (handle o now m c e)
  unfolding DocIsKept handle on_tree on_focus on_cursor on_pointer on_sidebar on_edit on_gesture
      on_folders_state on_permission on_tab_close on_tab_close_result on_awareness
  handle_lem now (update u) c e = λ h. updated_lem c e u h
  handle_lem now (aware none) c e = same_doc e (on_awareness o c e none now) (ground arith)
  handle_lem now (aware (some u)) c e = same_doc e (on_awareness o c e (some u) now) (ground arith)
  handle_lem now (edit (some p) (some t)) c e = λ h. edited_lem c e p t h
  handle_lem now (tree t) c e = controlled c e _ _ refl (ground arith)
  handle_lem now (focus none) c e = controlled c e _ _ refl (ground arith)
  handle_lem now (focus (some f)) c e = controlled c e _ _ refl (ground arith)
  handle_lem now (cursor m) c e = same_doc e (on_cursor o c e m now) (marked_lem c e m move now).0
  handle_lem now (pointer none m) c e = controlled c e _ _ refl (ground arith)
  handle_lem now (pointer (some k) m) c e =
      same_doc e (on_pointer o c e (some k) m now) (marked_lem c e m k now).1
  handle_lem now (sidebar none) c e = controlled c e _ _ refl (ground arith)
  handle_lem now (sidebar (some t)) c e = controlled c e _ _ refl (ground arith)
  handle_lem now (edit none content) c e = controlled c e _ _ refl (ground arith)
  handle_lem now (edit (some p) none) c e = controlled c e _ _ refl (ground arith)
  handle_lem now gesture c e = controlled c e _ _ refl (ground arith)
  handle_lem now (folders_state fs) c e = controlled c e _ _ refl (ground arith)
  handle_lem now (permission p) c e = controlled c e _ _ refl (ground arith)
  handle_lem now (tab_close n fs r) c e = controlled c e _ _ refl (ground arith)
  handle_lem now (tab_close_result r a fs) c e = controlled c e _ _ refl (ground arith)

  -- What the messages of all sockets leave, each from a socket in any state.
  unfoldable pub after : List (ℕ × (Message o × SocketData)) → CodeEntry o → CodeEntry o
  after [] e = e
  after ((now, (m, c)) ∷ ms) e = after ms (handle o now m c e).1.0

  -- Whatever messages arrive from whatever sockets, a document within its limits stays within them: every
  -- root of it has a name and a kind that it may have, files other than empty placeholders have paths
  -- that are safe and not protected, there are at most 500 of them with at most 20 MiB of text together,
  -- and the document takes at most 128 MiB.
  pub after-IsWithin :
      (ms : List (ℕ × (Message o × SocketData))) (e : CodeEntry o)
      → IsWithin yjs to_lower_case e.doc
      → IsWithin yjs to_lower_case (after ms e).doc
  unfolding after DocIsKept
  after-IsWithin [] e h = h
  after-IsWithin ((now, (m, c)) ∷ ms) e h =
      after-IsWithin ms (handle o now m c e).1.0 (handle_lem now m c e h)
