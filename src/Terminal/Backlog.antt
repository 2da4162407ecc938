-- ===== src/Terminal/Backlog.antt =====
-- src/terminal/terminal.service.ts: the backlog that a late joiner is sent.
use mathlib.Core.List.{append_assoc, append-nil}
use livetich_api.Prelude.{
  ℕ, ◌+◌, ◌-◌, ◌≤◌, ◌≡◌, sym, ap, ◌∙◌, Text, same_refl, some, List, [], ◌∷◌, ◌++◌, length, drop,
  arith, length-append, length-drop, drop-drop, drop-append,
}
use livetich_api.Terminal.{
  ActiveTerminal, TerminalSessionInfo, Sessions, Chunk, chunk_text, max_backlog_bytes, find,
  open_terminal, append_data, last_units, grow,
}
use livetich_api.Terminal.Maps.{find-write, find-set_in}

pub length-last_units : (n : ℕ) (s : Text) → length (last_units n s) ≤ n
unfolding last_units
length-last_units n s = omega (arith, length-drop (length s - n) s)

last_units_short : (n : ℕ) (s : Text) → length s ≤ n → last_units n s ≡ s
unfolding last_units
last_units_short n s h = let e : length s - n ≡ 0 = omega arith in rw e

-- Cutting before the next piece is added loses nothing that the last cut would keep.
last_units_again : (n : ℕ) (s t : Text) → last_units n (last_units n s ++ t) ≡ last_units n (s ++ t)
unfolding last_units
last_units_again n s t =
    let d : ℕ = length s - n in
    let k : ℕ = length (drop d s ++ t) - n in
    let same_cut : d + k ≡ length (s ++ t) - n =
      omega (arith, length-append s t, length-append (drop d s) t, length-drop d s) in
    ap (drop k) (sym (drop-append d s t (omega arith)))
    ∙ (drop-drop k d (s ++ t) ∙ ap (λ j. drop j (s ++ t)) same_cut)

grow-eq : (b s : Text) → grow b s ≡ last_units max_backlog_bytes (b ++ s)
unfolding grow
grow-eq b s = ground (arith, last_units_short max_backlog_bytes (b ++ s))

module _ (decode : List ℕ → Text) where
  abbrev pub stream : List Chunk → Text
  stream [] = []
  stream (c ∷ cs) = chunk_text decode c ++ stream cs

  -- The calls of `appendData` for a sequence of chunks.
  abbrev pub append_all : Text → Text → List Chunk → Sessions → Sessions
  append_all sid tid [] s = s
  append_all sid tid (c ∷ cs) s = append_all sid tid cs (append_data decode sid tid c s)

  find-append_data :
      (sid tid : Text) (c : Chunk) (s : Sessions) (t : ActiveTerminal)
      → find sid tid s ≡ some t
      → find sid tid (append_data decode sid tid c s)
        ≡ some (record t { backlog = grow t.backlog (chunk_text decode c) })
  unfolding append_data
  find-append_data sid tid c s t e = rw (
    find-write sid tid sid tid (λ u. record u { backlog = grow u.backlog (chunk_text decode c) }) s,
    same_refl sid,
    same_refl tid,
    e,
  )

  append_all-find :
      (sid tid : Text) (cs : List Chunk) (s : Sessions) (t : ActiveTerminal)
      → find sid tid s ≡ some t
      → length t.backlog ≤ max_backlog_bytes
      → find sid tid (append_all sid tid cs s)
        ≡ some (record t { backlog = last_units max_backlog_bytes (t.backlog ++ stream cs) })
  append_all-find sid tid [] s t e h =
      rw (append-nil t.backlog, last_units_short max_backlog_bytes t.backlog h) e
  append_all-find sid tid (c ∷ cs) s t e h =
      let b : Text = grow t.backlog (chunk_text decode c) in
      let bounded : length b ≤ max_backlog_bytes =
        rw (grow-eq t.backlog (chunk_text decode c))
          (length-last_units max_backlog_bytes (t.backlog ++ chunk_text decode c)) in
      append_all-find sid tid cs (append_data decode sid tid c s) (record t { backlog = b })
        (find-append_data sid tid c s t e) bounded
      ∙ ap (λ x. some (record t { backlog = x }))
          (ap (λ x. last_units max_backlog_bytes (x ++ stream cs))
              (grow-eq t.backlog (chunk_text decode c))
            ∙ (last_units_again max_backlog_bytes (t.backlog ++ chunk_text decode c) (stream cs)
                ∙ ap (last_units max_backlog_bytes) (append_assoc t.backlog _ _)))

  find-open :
      (sid socket user : Text) (info : TerminalSessionInfo) (s : Sessions)
      → find sid info.terminal_id (open_terminal sid info socket user s)
        ≡ some (record { info = info; host_socket_id = socket; host_user_id = user; backlog = [] })
  unfolding open_terminal
  find-open sid socket user info s = rw (
    find-set_in sid info.terminal_id sid info.terminal_id
        (record { info = info; host_socket_id = socket; host_user_id = user; backlog = [] }) s,
    same_refl sid,
    same_refl info.terminal_id,
  )

  -- Whatever the pieces in which the output of a newly opened terminal arrives, its backlog is the
  -- last 65536 code units of all the output, and everything else about it is as it was opened.
  pub backlog_of_stream :
      (sid socket user : Text) (info : TerminalSessionInfo) (cs : List Chunk) (s : Sessions)
      → find sid info.terminal_id
          (append_all sid info.terminal_id cs (open_terminal sid info socket user s))
        ≡ some (record {
          info = info;
          host_socket_id = socket;
          host_user_id = user;
          backlog = last_units max_backlog_bytes (stream cs);
        })
  backlog_of_stream sid socket user info cs s =
      append_all-find sid info.terminal_id cs (open_terminal sid info socket user s) _
        (find-open sid socket user info s) (omega arith)
