-- ===== src/Tunnel/Responses.antt =====
-- src/tunnel/tunnel.service.ts: what is called on the responses, whatever the order of events.
use livetich_api.Prelude.{
  refl, ℕ, ◌+◌, ◌≤◌, ◌≡◌, if◌then◌else◌, Text, same, same_iff, Bool, true, false, ◌&&◌, none, some,
  List, [], ◌∷◌, arith, Option-cases, inl, inr, any, not,
}
use livetich_api.Tunnel.{
  Call, status_and_headers, write, end_, status_json, PendingTunnelRequest, Requests, find_pending,
  drop_pending, put_pending, register_pending_request, handle_response_headers,
  handle_response_chunk, handle_response_end, handle_response_error, abort_request, handle_timeout,
  Step, asked, answered_end, aborted, timed_out, answered_error, answered_headers, answered_chunk,
  advance, run, sanitize, is_dropped,
}

abbrev pub is_finish : Call → Bool
is_finish (status_and_headers code hs) = false
is_finish (write buf) = false
is_finish end_ = true
is_finish (status_json code) = true

-- The calls that finish the response of a request.
abbrev pub finishes : Text → List (Text × Call) → ℕ
finishes id [] = 0
finishes id ((j, c) ∷ cs) = (if same id j && is_finish c then 1 else 0) + finishes id cs

abbrev pub calls_of : Text → List (Text × Call) → List Call
calls_of id [] = []
calls_of id ((j, c) ∷ cs) = let rest = calls_of id cs in if same id j then c ∷ rest else rest

abbrev pub is_pending : Text → List PendingTunnelRequest → Bool
is_pending id qs = elim (find_pending id qs) [ none ↦ false | some q ↦ true ]

abbrev pub waiting : Text → Requests → ℕ
waiting id w = if is_pending id w.pending then 1 else 0

abbrev pub is_asked : Text → Step → Bool
is_asked id (asked j) = same id j
is_asked id (answered_end j) = false
is_asked id (aborted j) = false
is_asked id (timed_out j) = false
is_asked id (answered_error j) = false
is_asked id (answered_headers j code hs) = false
is_asked id (answered_chunk j buf) = false

abbrev pub is_aborted : Text → Step → Bool
is_aborted id (asked j) = false
is_aborted id (answered_end j) = false
is_aborted id (aborted j) = same id j
is_aborted id (timed_out j) = false
is_aborted id (answered_error j) = false
is_aborted id (answered_headers j code hs) = false
is_aborted id (answered_chunk j buf) = false

-- The number of times a request with this id is made.
abbrev pub asks : Text → List Step → ℕ
asks id [] = 0
asks id (s ∷ ss) = (if is_asked id s then 1 else 0) + asks id ss

pub find-put :
    (id : Text) (q : PendingTunnelRequest) (qs : List PendingTunnelRequest)
    → find_pending id (put_pending q qs) ≡ (if same id q.req_id then some q else find_pending id qs)
unfolding find_pending put_pending
find-put id q [] = ground arith
find-put id q (r ∷ rs) = ground (
  arith,
  find-put id q rs,
  same_iff q.req_id r.req_id,
  same_iff id r.req_id,
  same_iff id q.req_id,
)

pub find-drop :
    (id j : Text) (qs : List PendingTunnelRequest)
    → find_pending id (drop_pending j qs) ≡ (if same id j then none else find_pending id qs)
unfolding find_pending drop_pending
find-drop id j [] = ground arith
find-drop id j (r ∷ rs) =
    ground (arith, find-drop id j rs, same_iff j r.req_id, same_iff id r.req_id, same_iff id j)

-- What is found under an id has that id.
find_pending-req_id :
    (id : Text) (qs : List PendingTunnelRequest) (q : PendingTunnelRequest)
    → find_pending id qs ≡ some q
    → q.req_id ≡ id
unfolding find_pending
find_pending-req_id id [] q h = ground arith
find_pending-req_id id (r ∷ rs) q h =
    ground (arith, find_pending-req_id id rs q, same_iff id r.req_id)

-- Marking that the headers were sent leaves who is pending as it was.
pub is_pending-put :
    (id j : Text) (q : PendingTunnelRequest) (qs : List PendingTunnelRequest)
    → find_pending j qs ≡ some q
    → is_pending id (put_pending (record q { headers_sent = true }) qs) ≡ is_pending id qs
is_pending-put id j q qs h = ground (
  arith,
  find_pending-req_id j qs q h,
  find-put id (record q { headers_sent = true }) qs,
  same_iff id q.req_id,
)

module _ (lower : Text → Text) where
  -- One step neither finishes a request that is not waiting nor makes one wait that was not asked.
  advance_bounded :
      (id : Text) (s : Step) (w : Requests)
      → finishes id (advance lower s w).calls + waiting id (advance lower s w)
        ≤ finishes id w.calls + waiting id w + (if is_asked id s then 1 else 0)
  unfolding advance register_pending_request handle_response_headers handle_response_chunk
      handle_response_end handle_response_error abort_request handle_timeout
  advance_bounded id (asked j) w =
      ground (arith, find-put id (record { req_id = j; headers_sent = false }) w.pending)
  advance_bounded id (answered_end j) w = ground (arith, find-drop id j w.pending, same_iff id j)
  advance_bounded id (aborted j) w = ground (arith, find-drop id j w.pending)
  advance_bounded id (timed_out j) w = ground (arith, find-drop id j w.pending, same_iff id j)
  advance_bounded id (answered_error j) w = ground (arith, find-drop id j w.pending, same_iff id j)
  advance_bounded id (answered_headers j code hs) w =
      elim (Option-cases (find_pending j w.pending)) [
        | inl e ↦ ground (arith, e)
        | inr (q, e) ↦ ground (arith, e, is_pending-put id j q w.pending e)
      ]
  advance_bounded id (answered_chunk j buf) w = ground arith

  run_bounded :
      (id : Text) (ss : List Step) (w : Requests)
      → finishes id (run lower ss w).calls + waiting id (run lower ss w)
        ≤ finishes id w.calls + waiting id w + asks id ss
  unfolding run
  run_bounded id [] w = omega arith
  run_bounded id (s ∷ ss) w =
      omega (arith, advance_bounded id s w, run_bounded id ss (advance lower s w))

  -- At most one finishing call (an end, or a status with a body) is made on the response of a request
  -- whose id is used once, in whatever order the host, the browser and the timers act.
  pub finished_at_most_once :
      (id : Text) (ss : List Step)
      → asks id ss ≤ 1
      → finishes id (run lower ss (record { pending = []; calls = [] })).calls ≤ 1
  unfolding find_pending
  finished_at_most_once id ss h =
      omega (arith, run_bounded id ss (record { pending = []; calls = [] }))

  any-sanitize :
      (f : Text × Text → Bool) (hs : List (Text × Text))
      → any f (sanitize lower hs) ≡ any (λ h. f h && not (is_dropped (lower h.0))) hs
  unfolding sanitize
  any-sanitize f [] = refl
  any-sanitize f ((k, v) ∷ hs) = ground (arith, any-sanitize f hs)

  -- The first headers that the host sends for a waiting request are written to its response, and with
  -- them exactly the headers that are not to be dropped; no second set is written for that request.
  pub handle_response_headers_once :
      (id : Text) (code again : ℕ) (hs hs' : List (Text × Text)) (f : Text × Text → Bool)
      (w : Requests) (q : PendingTunnelRequest)
      → find_pending id w.pending ≡ some q
      → q.headers_sent ≡ false
      → ((handle_response_headers lower false id code hs w).1.calls
          ≡ (id, status_and_headers code (sanitize lower hs)) ∷ w.calls)
        × (any f (sanitize lower hs) ≡ any (λ h. f h && not (is_dropped (lower h.0))) hs)
        × (handle_response_headers lower false id again hs'
              (handle_response_headers lower false id code hs w).1
            ≡ (false, (handle_response_headers lower false id code hs w).1))
  unfolding handle_response_headers
  handle_response_headers_once id code again hs hs' f w q found fresh =
      let sent = find-put id (record q { headers_sent = true }) w.pending in
      let own = find_pending-req_id id w.pending q found in
      (
        ground (arith, found),
        any-sanitize f hs,
        ground (arith, found, sent, own, same_iff id q.req_id),
      )
