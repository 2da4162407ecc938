-- ===== src/Tunnel/Finish.antt =====
-- src/tunnel/tunnel.service.ts: the 30 seconds finish what the host does not, and nothing is called on
-- a response that is finished.
use livetich_api.Prelude.{
  ℕ, ◌+◌, ◌≡◌, refl, ◌∙◌, sym, ap, if◌then◌else◌, Text, same_iff, same_refl, false, List, [], ◌∷◌,
  ◌++◌, arith, Option-cases, inl, inr,
}
use livetich_api.Tunnel.{
  Call, Requests, find_pending, register_pending_request, handle_response_headers,
  handle_response_chunk, handle_response_end, handle_response_error, abort_request, handle_timeout,
  Step, asked, answered_end, aborted, timed_out, answered_error, answered_headers, answered_chunk,
  advance, run,
}
use livetich_api.Tunnel.Responses.{
  finishes, is_finish, calls_of, is_pending, waiting, is_asked, is_aborted, asks, find-put,
  find-drop, is_pending-put,
}

-- The number of times the browser gives a request up.
abbrev pub aborts : Text → List Step → ℕ
aborts id [] = 0
aborts id (s ∷ ss) = (if is_aborted id s then 1 else 0) + aborts id ss

abbrev finish_count : List Call → ℕ
finish_count [] = 0
finish_count (c ∷ cs) = (if is_finish c then 1 else 0) + finish_count cs

finishes-calls_of :
    (id : Text) (cs : List (Text × Call)) → finishes id cs ≡ finish_count (calls_of id cs)
finishes-calls_of id [] = refl
finishes-calls_of id ((j, c) ∷ cs) = ground (arith, finishes-calls_of id cs)

module _ (lower : Text → Text) where
  advance_exact :
      (id : Text) (s : Step) (w : Requests)
      → is_asked id s ≡ false
      → is_aborted id s ≡ false
      → finishes id (advance lower s w).calls + waiting id (advance lower s w)
        ≡ finishes id w.calls + waiting id w
  unfolding advance register_pending_request handle_response_headers handle_response_chunk
      handle_response_end handle_response_error abort_request handle_timeout
  advance_exact id (asked j) w n m =
      ground (arith, find-put id (record { req_id = j; headers_sent = false }) w.pending)
  advance_exact id (answered_end j) w n m = ground (arith, find-drop id j w.pending, same_iff id j)
  advance_exact id (aborted j) w n m = ground (arith, find-drop id j w.pending)
  advance_exact id (timed_out j) w n m = ground (arith, find-drop id j w.pending, same_iff id j)
  advance_exact id (answered_error j) w n m =
      ground (arith, find-drop id j w.pending, same_iff id j)
  advance_exact id (answered_headers j code hs) w n m =
      elim (Option-cases (find_pending j w.pending)) [
        | inl e ↦ ground (arith, e)
        | inr (q, e) ↦ ground (arith, e, is_pending-put id j q w.pending e)
      ]
  advance_exact id (answered_chunk j buf) w n m = ground arith

  advance_silent :
      (id : Text) (s : Step) (w : Requests)
      → is_asked id s ≡ false
      → is_pending id w.pending ≡ false
      → (calls_of id (advance lower s w).calls ≡ calls_of id w.calls)
        × (is_pending id (advance lower s w).pending ≡ false)
  unfolding advance register_pending_request handle_response_headers handle_response_chunk
      handle_response_end handle_response_error abort_request handle_timeout
  advance_silent id (asked j) w n m =
      ground (arith, find-put id (record { req_id = j; headers_sent = false }) w.pending)
  advance_silent id (answered_end j) w n m = ground (arith, find-drop id j w.pending, same_iff id j)
  advance_silent id (aborted j) w n m = ground (arith, find-drop id j w.pending)
  advance_silent id (timed_out j) w n m = ground (arith, find-drop id j w.pending, same_iff id j)
  advance_silent id (answered_error j) w n m =
      ground (arith, find-drop id j w.pending, same_iff id j)
  advance_silent id (answered_headers j code hs) w n m =
      elim (Option-cases (find_pending j w.pending)) [
        | inl e ↦ ground (arith, e)
        | inr (q, e) ↦ ground (arith, e, same_iff id j, is_pending-put id j q w.pending e)
      ]
  advance_silent id (answered_chunk j buf) w n m = ground (arith, same_iff id j)

  run_exact :
      (id : Text) (ss : List Step) (w : Requests)
      → asks id ss ≡ 0
      → aborts id ss ≡ 0
      → finishes id (run lower ss w).calls + waiting id (run lower ss w)
        ≡ finishes id w.calls + waiting id w
  unfolding run
  run_exact id [] w n m = refl
  run_exact id (s ∷ ss) w n m = ground (
    arith,
    advance_exact id s w (ground arith) (ground arith),
    run_exact id ss (advance lower s w) (omega arith) (omega arith),
  )

  -- Nothing is called on the response of a request that is not waiting, or no longer, and it does not
  -- come back to waiting: whatever the host sends late, and whichever timer fires.
  pub run_silent :
      (id : Text) (ss : List Step) (w : Requests)
      → asks id ss ≡ 0
      → is_pending id w.pending ≡ false
      → (calls_of id (run lower ss w).calls ≡ calls_of id w.calls)
        × (is_pending id (run lower ss w).pending ≡ false)
  unfolding run
  run_silent id [] w n m = (refl, m)
  run_silent id (s ∷ ss) w n m =
      let (same_calls, still) = advance_silent id s w (ground arith) m in
      let (rest, off) = run_silent id ss (advance lower s w) (omega arith) still in
      (rest ∙ same_calls, off)

  run-++ :
      (ss ts : List Step) (w : Requests) → run lower (ss ++ ts) w ≡ run lower ts (run lower ss w)
  unfolding run
  run-++ [] ts w = refl
  run-++ (s ∷ ss) ts w = run-++ ss ts (advance lower s w)

  timed_out_closes :
      (id : Text) (w : Requests) → is_pending id (advance lower (timed_out id) w).pending ≡ false
  unfolding advance handle_timeout
  timed_out_closes id w = ground (arith, find-drop id id w.pending, same_refl id)

  asked_waits :
      (id : Text) (w : Requests)
      → (waiting id (advance lower (asked id) w) ≡ 1)
        × ((advance lower (asked id) w).calls ≡ w.calls)
  unfolding advance register_pending_request
  asked_waits id w = (
    ground
        (arith, find-put id (record { req_id = id; headers_sent = false }) w.pending, same_refl id),
    refl,
  )

  -- For a request that is asked for once, and that the browser does not give up before its timer fires,
  -- exactly one finishing call (an end, or a status with a body) is made on its response, whatever the
  -- host does before and whatever happens after.
  pub finished_exactly_once :
      (id : Text) (before after : List Step) (w : Requests)
      → finishes id w.calls ≡ 0
      → asks id before ≡ 0
      → aborts id before ≡ 0
      → asks id after ≡ 0
      → finishes id (run lower (asked id ∷ (before ++ timed_out id ∷ after)) w).calls ≡ 1
  unfolding run
  finished_exactly_once id before after w fresh n m k =
      let w1 = advance lower (asked id) w in
      let w2 = run lower before w1 in
      let w3 = advance lower (timed_out id) w2 in
      let (waits, same_calls) = asked_waits id w in
      let shut : is_pending id w3.pending ≡ false = timed_out_closes id w2 in
      let one_before : finishes id w2.calls + waiting id w2 ≡ 1 =
        run_exact id before w1 n m ∙ (rw (waits, same_calls, fresh) refl) in
      let one_now : finishes id w3.calls ≡ 1 =
        ground (arith, one_before, shut, advance_exact id (timed_out id) w2 refl refl) in
      rw (run-++ before (timed_out id ∷ after) w1) (
        finishes-calls_of id (run lower after w3).calls
        ∙ (ap finish_count (run_silent id after w3 k shut).0
            ∙ (sym (finishes-calls_of id w3.calls) ∙ one_now)))
