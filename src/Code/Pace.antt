-- ===== src/Code/Pace.antt =====
-- src/code/code.gateway.ts: the numbers of a source's events over a run of messages.
use livetich_api.Prelude.{
  ℕ, ◌≡◌, refl, ap, sym, ◌∙◌, Text, none, some, List, [], ◌∷◌, ◌++◌, arith, Option-cases,
  Bool-cases, inl, inr,
}
use livetich_api.Code.Gateway.{
  SocketData, CodeEntry, Mark, PointerKind, Outside, Emission, failed, not_in_room,
  is_safe_selection, Result, nothing, fail, controlling, on_update, on_awareness, on_tree, on_focus,
}
use livetich_api.Code.Messages.{
  read_mark, place_cursor, place_pointer, on_cursor, on_pointer, on_sidebar, on_edit, on_gesture,
  on_folders_state, on_permission, on_tab_close, on_tab_close_result, Message, update, aware, tree,
  focus, cursor, pointer, sidebar, edit, gesture, folders_state, permission, tab_close,
  tab_close_result, handle,
}
use mathlib.Core.List.{append_assoc}
use livetich_api.Code.Numbers.{
  last_number, Ascends, Ascends-++, IsBounded, number_of, numbers_of, Numbered, idle_lem,
  numbers_of-one, numbers_of-nothing, place_cursor_lem, place_pointer_lem,
}

module _ (o : Outside) where
  open o use {yjs}

  controlled :
      (c : SocketData) (e : CodeEntry o) (s : Text) (refused act : Result o)
      → IsBounded c
      → Numbered o s c refused
      → Numbered o s c act
      → Numbered o s c (controlling o refused c e act)
  controlled c e s refused act b h k = elim (Bool-cases c.joined) [
    | inr j ↦
        let at : controlling o refused c e act ≡ fail o not_in_room c e = ground (arith, j) in
        rw at
          (idle_lem o s c (fail o not_in_room c e) b refl (numbers_of-one o s (failed not_in_room)))
    | inl j ↦ elim (Bool-cases c.controls) [
      | inl l ↦ let at : controlling o refused c e act ≡ act = ground (arith, j, l) in rw at k
      | inr l ↦ let at : controlling o refused c e act ≡ refused = ground (arith, j, l) in rw at h
    ]
  ]

  marked_lem :
      (s : Text) (now : ℕ) (m : Mark) (c : SocketData) (e : CodeEntry o)
      → IsBounded c
      → Numbered o s c (on_cursor o c e m now)
  unfolding on_cursor
  marked_lem s now m c e b =
      let none_sent = idle_lem o s c (nothing o c e) b refl (numbers_of-nothing o s) in
      elim (Bool-cases (is_safe_selection m.selection)) [
        | inr f ↦
            let at : on_cursor o c e m now ≡ controlling o (nothing o c e) c e (nothing o c e) =
              ground (arith, f) in
            rw at (controlled c e s (nothing o c e) (nothing o c e) b none_sent none_sent)
        | inl f ↦ elim (Option-cases (read_mark o m)) [
          | inl a ↦
              let at : on_cursor o c e m now ≡ controlling o (nothing o c e) c e (nothing o c e) =
                ground (arith, f, a) in
              rw at (controlled c e s (nothing o c e) (nothing o c e) b none_sent none_sent)
          | inr ((path, (source, n)), a) ↦
              let act = place_cursor o c e path source n now in
              let at : on_cursor o c e m now ≡ controlling o (nothing o c e) c e act =
                ground (arith, f, a) in
              rw at (
                controlled c e s (nothing o c e) act b none_sent
                  (place_cursor_lem o s c e path source n now b))
        ]
      ]

  pointed_lem :
      (s : Text) (now : ℕ) (k : PointerKind) (m : Mark) (c : SocketData) (e : CodeEntry o)
      → IsBounded c
      → Numbered o s c (on_pointer o c e (some k) m now)
  unfolding on_pointer
  pointed_lem s now k m c e b =
      let none_sent = idle_lem o s c (nothing o c e) b refl (numbers_of-nothing o s) in
      elim (Option-cases (read_mark o m)) [
        | inl a ↦
            let at : on_pointer o c e (some k) m now
                ≡ controlling o (nothing o c e) c e (nothing o c e) =
              ground (arith, a) in
            rw at (controlled c e s (nothing o c e) (nothing o c e) b none_sent none_sent)
        | inr ((path, (source, n)), a) ↦
            let act = place_pointer o c e k path source n now in
            let at : on_pointer o c e (some k) m now ≡ controlling o (nothing o c e) c e act =
              ground (arith, a) in
            rw at (
              controlled c e s (nothing o c e) act b none_sent
                (place_pointer_lem o s c e k path source n now b))
      ]

  handle-Numbered :
      (s : Text) (now : ℕ) (m : Message o) (c : SocketData) (e : CodeEntry o)
      → IsBounded c
      → Numbered o s c (handle o now m c e)
  unfolding handle on_update on_awareness on_tree on_focus on_pointer on_sidebar on_edit on_gesture
      on_folders_state on_permission on_tab_close on_tab_close_result numbers_of
  handle-Numbered s now (update none) c e b =
      idle_lem o s c (handle o now (update none) c e) b (ground arith) (ground arith)
  handle-Numbered s now (update (some u)) c e b =
      idle_lem o s c (handle o now (update (some u)) c e) b (ground arith) (ground arith)
  handle-Numbered s now (aware none) c e b =
      idle_lem o s c (handle o now (aware none) c e) b (ground arith) (ground arith)
  handle-Numbered s now (aware (some u)) c e b =
      idle_lem o s c (handle o now (aware (some u)) c e) b (ground arith) (ground arith)
  handle-Numbered s now (tree t) c e b =
      idle_lem o s c (handle o now (tree t) c e) b (ground arith) (ground arith)
  handle-Numbered s now (focus none) c e b =
      idle_lem o s c (handle o now (focus none) c e) b (ground arith) (ground arith)
  handle-Numbered s now (focus (some f)) c e b =
      idle_lem o s c (handle o now (focus (some f)) c e) b (ground arith) (ground arith)
  handle-Numbered s now (pointer none m) c e b =
      idle_lem o s c (handle o now (pointer none m) c e) b (ground arith) (ground arith)
  handle-Numbered s now (sidebar none) c e b =
      idle_lem o s c (handle o now (sidebar none) c e) b (ground arith) (ground arith)
  handle-Numbered s now (sidebar (some t)) c e b =
      idle_lem o s c (handle o now (sidebar (some t)) c e) b (ground arith) (ground arith)
  handle-Numbered s now (edit none content) c e b =
      idle_lem o s c (handle o now (edit none content) c e) b (ground arith) (ground arith)
  handle-Numbered s now (edit (some p) none) c e b =
      idle_lem o s c (handle o now (edit (some p) none) c e) b (ground arith) (ground arith)
  handle-Numbered s now (edit (some p) (some t)) c e b =
      idle_lem o s c (handle o now (edit (some p) (some t)) c e) b (ground arith) (ground arith)
  handle-Numbered s now gesture c e b =
      idle_lem o s c (handle o now gesture c e) b (ground arith) (ground arith)
  handle-Numbered s now (folders_state fs) c e b =
      idle_lem o s c (handle o now (folders_state fs) c e) b (ground arith) (ground arith)
  handle-Numbered s now (permission p) c e b =
      idle_lem o s c (handle o now (permission p) c e) b (ground arith) (ground arith)
  handle-Numbered s now (tab_close n fs r) c e b =
      idle_lem o s c (handle o now (tab_close n fs r) c e) b (ground arith) (ground arith)
  handle-Numbered s now (tab_close_result r a fs) c e b =
      idle_lem o s c (handle o now (tab_close_result r a fs) c e) b (ground arith) (ground arith)
  handle-Numbered s now (cursor m) c e b = marked_lem s now m c e b
  handle-Numbered s now (pointer (some k) m) c e b = pointed_lem s now k m c e b

  -- A socket's messages, one after the other: what becomes of it, and what was sent.
  unfoldable pub run :
      List (ℕ × Message o)
      → SocketData
      → CodeEntry o
      → SocketData × (CodeEntry o × List (Emission o))
  run [] c e = (c, (e, []))
  run ((now, m) ∷ ms) c e =
      let (d, (f, out)) = handle o now m c e in
      let (last, (g, rest)) = run ms d f in (last, (g, out ++ rest))

  numbers_of-++ :
      (s : Text) (xs ys : List (Emission o))
      → numbers_of o s (xs ++ ys) ≡ numbers_of o s xs ++ numbers_of o s ys
  unfolding numbers_of
  numbers_of-++ s [] ys = refl
  numbers_of-++ s (x ∷ xs) ys =
      ap (λ zs. number_of o s x ++ zs) (numbers_of-++ s xs ys)
      ∙ sym (append_assoc (number_of o s x) (numbers_of o s xs) (numbers_of o s ys))

  -- Whatever a socket with at most 16 sources sends, it still has at most 16, and the numbers of the
  -- cursor and pointer events of one source that are sent on ascend strictly, from the last number the
  -- source had before to the last it has after.
  pub run-Ascends :
      (s : Text) (ms : List (ℕ × Message o)) (c : SocketData) (e : CodeEntry o)
      → IsBounded c
      → IsBounded (run ms c e).0
        × Ascends (last_number s c) (last_number s (run ms c e).0) (numbers_of o s (run ms c e).1.1)
  unfolding run Numbered numbers_of
  run-Ascends s [] c e b = (b, ground arith)
  run-Ascends s ((now, m) ∷ ms) c e b =
      let (b', here) = handle-Numbered s now m c e b in
      let d = (handle o now m c e).0 in
      let f = (handle o now m c e).1.0 in
      let (b'', rest) = run-Ascends s ms d f b' in
      (
        b'',
        rw (numbers_of-++ s (handle o now m c e).1.1 (run ms d f).1.1) (
            Ascends-++ (last_number s c) (last_number s d) (last_number s (run ms d f).0)
              (numbers_of o s (handle o now m c e).1.1) (numbers_of o s (run ms d f).1.1) here
              rest),
      )
