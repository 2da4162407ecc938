-- ===== src/Board.antt =====
-- src/board/board-doc.service.ts: the Yjs document of one session's board, in memory while clients are
-- connected, and its snapshots in object storage. Sessions do not share state, so one is modelled. A
-- method is cut at its awaits: an event runs without interruption, and any order of events may happen.
pub mod Calm
pub mod Overlap
mod Tests
use livetich_api.Prelude.{
  ℕ, zero, suc, ◌+◌, ◌-◌, ltb, ◌==◌, if◌then◌else◌, ◌≡◌, Bool, true, false, not, ◌&&◌, Option, none,
  some, List, [], ◌∷◌, ◌++◌, get_elem?,
}

-- Yjs: documents, updates, and that a new document which takes the encoded state of another is it.
pub record Yjs : Type 1 where
  pub Doc : Type 0
  pub Update : Type 0
  pub new_doc : Doc
  pub apply_update_to : Doc → Update → Doc
  pub encode_state_as_update : Doc → Update
  pub apply-encode : (d : Doc) → apply_update_to new_doc (encode_state_as_update d) ≡ d

-- Who waits for a snapshot to be written: the release of the last client, or the timer.
pub data Waiter : Type 0 where
  releasing sweeping : Waiter

module _ (y : Yjs) where
  open y use {Doc, Update, new_doc, apply_update_to, encode_state_as_update}

  pub record BoardEntry : Type 0 where
    pub doc : Doc
    pub dirty : Bool
    pub clients : ℕ
    pub revision : ℕ

  -- A `flush` that waits for the storage: the entry that it was called with, the revision and the
  -- snapshot that it took.
  pub record Flight : Type 0 where
    pub entry : ℕ
    pub revision : ℕ
    pub snapshot : Update
    pub waiter : Waiter

  -- An entry is an object, so it has an address; `board` is `this.boards.get(sessionId)`, and `loading`
  -- the number of clients that wait for `this.loading.get(sessionId)`.
  pub record World : Type 0 where
    pub heap : ℕ → BoardEntry
    pub next : ℕ
    pub board : Option ℕ
    pub loading : Option ℕ
    pub stored : Option Update
    pub flights : List Flight

  abbrev pub put : ℕ → BoardEntry → (ℕ → BoardEntry) → ℕ → BoardEntry
  put i e heap j = if j == i then e else heap j

  -- What `load` makes of a snapshot.
  abbrev pub restore : Option Update → Doc
  restore none = new_doc
  restore (some s) = apply_update_to new_doc s

  abbrev pub begin_flush : Waiter → ℕ → World → World
  begin_flush waiter i w = record w {
    flights =
        record {
          entry = i;
          revision = (w.heap i).revision;
          snapshot = encode_state_as_update (w.heap i).doc;
          waiter = waiter;
        }
        ∷ w.flights;
  }

  abbrev pub count_in : BoardEntry → BoardEntry
  count_in e = record e { clients = e.clients + 1 }

  abbrev pub count_out : BoardEntry → BoardEntry
  count_out e = record e { clients = e.clients - 1 }

  unfoldable pub retain : World → World
  retain w = elim w.board [
    | some i ↦ record w { heap = put i (count_in (w.heap i)) w.heap }
    | none ↦ record w { loading = elim w.loading [ none ↦ some 1 | some n ↦ some (n + 1) ] }
  ]

  -- The snapshot has been read: the entry is made, and the clients that wait are counted in.
  unfoldable pub loaded : World → World
  loaded w = elim w.loading [
    | none ↦ w
    | some n ↦ record w {
      heap =
          put w.next (record { doc = restore w.stored; dirty = false; clients = n; revision = 0 })
            w.heap;
      next = w.next + 1;
      board = some w.next;
      loading = none;
    }
  ]

  -- The snapshot could not be read: every client that waits is refused.
  unfoldable pub load_failed : World → World
  load_failed w = record w { loading = none }

  -- `release` up to its first await, or to its end.
  unfoldable pub release : World → World
  release w = elim w.board [
    | none ↦ w
    | some i ↦
        let left = record w { heap = put i (count_out (w.heap i)) w.heap } in
        if ltb 0 (count_out (w.heap i)).clients
        then left
        else if (w.heap i).dirty
        then begin_flush releasing i left
        else record left { board = none }
  ]

  unfoldable pub apply_update : Update → World → World
  apply_update u w = elim w.board [
    | none ↦ w
    | some i ↦ record w {
      heap =
          put i
            (record (w.heap i) {
              doc = apply_update_to (w.heap i).doc u;
              dirty = true;
              revision = (w.heap i).revision + 1;
            })
            w.heap;
    }
  ]

  -- `flushDirty` for this session, up to its await.
  unfoldable pub flush_dirty : World → World
  flush_dirty w = elim w.board [
    | none ↦ w
    | some i ↦ if (w.heap i).dirty then begin_flush sweeping i w else w
  ]

  abbrev pub drop_flight : ℕ → List Flight → List Flight
  drop_flight k [] = []
  drop_flight zero (f ∷ fs) = fs
  drop_flight (suc k) (f ∷ fs) = f ∷ drop_flight k fs

  -- `if (entry.revision === revision) entry.dirty = false`
  abbrev pub settle : Flight → BoardEntry → BoardEntry
  settle f e = record e { dirty = if e.revision == f.revision then false else e.dirty }

  -- What is left of `release` when its flush has succeeded.
  abbrev pub after_release : ℕ → World → World
  after_release i w =
      if (w.heap i).dirty && not (ltb 0 (w.heap i).clients)
      then begin_flush releasing i w
      else if ltb 0 (w.heap i).clients
      then w
      else record w { board = none }

  abbrev pub is_board : Option ℕ → ℕ → Bool
  is_board none i = false
  is_board (some j) i = j == i

  -- What is left of the turn of `flushDirty`.
  abbrev pub after_sweep : ℕ → World → World
  after_sweep i w =
      if not (w.heap i).dirty && not (ltb 0 (w.heap i).clients)
      then record w { board = if is_board w.board i then none else w.board }
      else w

  abbrev pub after_flush : Waiter → ℕ → World → World
  after_flush releasing i w = after_release i w
  after_flush sweeping i w = after_sweep i w

  -- The write of the flight at place `k` is answered: the snapshot is stored.
  unfoldable pub put_done : ℕ → World → World
  put_done k w = elim (get_elem? w.flights k) [
    | none ↦ w
    | some f ↦ after_flush f.waiter f.entry (record w {
      heap = put f.entry (settle f (w.heap f.entry)) w.heap;
      stored = some f.snapshot;
      flights = drop_flight k w.flights;
    })
  ]

  -- The write fails: both callers leave the entry as it is.
  unfoldable pub put_failed : ℕ → World → World
  put_failed k w = record w { flights = drop_flight k w.flights }

  pub data Event : Type 0 where
    joins reads read_fails leaves ticks : Event
    updates : Update → Event
    puts put_fails : ℕ → Event

  unfoldable pub step : Event → World → World
  step joins w = retain w
  step reads w = loaded w
  step read_fails w = load_failed w
  step leaves w = release w
  step ticks w = flush_dirty w
  step (updates u) w = apply_update u w
  step (puts k) w = put_done k w
  step (put_fails k) w = put_failed k w

  unfoldable pub run : List Event → World → World
  run [] w = w
  run (e ∷ es) w = run es (step e w)

  abbrev pub empty_world : BoardEntry → World
  empty_world e = record {
    heap = λ i. e;
    next = 0;
    board = none;
    loading = none;
    stored = none;
    flights = [];
  }
