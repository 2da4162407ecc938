-- ===== src/Points/Quiet.antt =====
-- src/points/points.service.ts: the leaderboard when requests are handled one after the other.
use livetich_api.Prelude.{
  if◌then◌else◌, ◌≡◌, refl, ◌∙◌, Text, same, same_iff, none, some, List, [], ◌∷◌, arith,
}
use livetich_api.Prelude.Dict
use livetich_api.Prelude.Integers.{ℤ, add_comm, zero-add}
use livetich_api.Prelude.Dict.{Dict, Unique}
use livetich_api.Points.{
  or_zero, total, Store, insert_row, sort_rows, World, zadd_all, award, award_within, commit,
  leaderboard, leaderboard_unread, expire, perform, advance, fail, Event, awards, bumps, commits,
  asks, asks_unread, expires, advances, fails, step, run,
}

get-insert_row :
    (u v : Text) (p : ℤ) (rows : Dict ℤ)
    → Dict.get v rows ≡ none
    → Dict.get u (insert_row (v, p) rows) ≡ (if same v u then some p else Dict.get u rows)
unfolding insert_row Dict.get
get-insert_row u v p [] h = refl
get-insert_row u v p ((j, q) ∷ rows) h =
    ground (arith, h, get-insert_row u v p rows, same_iff v u, same_iff j u, same_iff j v)

insert_row-Unique :
    (v : Text) (p : ℤ) (rows : Dict ℤ)
    → Dict.get v rows ≡ none
    → Unique rows
    → Unique (insert_row (v, p) rows)
unfolding insert_row Dict.get
insert_row-Unique v p [] h n = (refl, tt)
insert_row-Unique v p ((j, q) ∷ rows) h (a, n) =
    ground (
      arith,
      h,
      a,
      insert_row-Unique v p rows,
      get-insert_row j v p rows,
      same_iff v j,
      same_iff j v,
    )

sort_rows_lem :
    (rows : Dict ℤ)
    → Unique rows
    → Unique (sort_rows rows) × ((u : Text) → Dict.get u (sort_rows rows) ≡ Dict.get u rows)
unfolding sort_rows Dict.get
sort_rows_lem [] n = (tt, λ u. refl)
sort_rows_lem ((v, p) ∷ rows) (a, n) =
    let (s, same_rows) = sort_rows_lem rows n in
    let absent : Dict.get v (sort_rows rows) ≡ none = same_rows v ∙ a in
    (
      insert_row-Unique v p (sort_rows rows) absent s,
      λ u. ground (arith, get-insert_row u v p (sort_rows rows) absent, same_rows u),
    )

-- One request, from its start to its end: an award by itself or in a transaction that is committed, or a
-- question for the leaderboard, where Redis may fail as it is read or as it is filled.
pub data Request : Type 0 where
  award_alone award_committed : Text → ℤ → Request
  ask_alone ask_unread ask_unfilled expire_alone : Request

module _ (r : Store) where
  open r use {
    Zset, no_members, zscore, zadd, zincrby, group_by_student, zscore-no_members, zscore-zadd,
    zscore-zincrby, group_by_student-Unique, get-group_by_student,
  }

  zadd_all_lem :
      (u : Text) (rows : Dict ℤ) (z : Zset)
      → Unique rows
      → zscore u (zadd_all r rows z)
        ≡ elim (Dict.get u rows) [ none ↦ zscore u z | some p ↦ some p ]
  unfolding zadd_all Dict.get
  zadd_all_lem u [] z n = refl
  zadd_all_lem u ((v, p) ∷ rows) z (a, n) = ground (
    arith,
    a,
    zadd_all_lem u rows (zadd p v z) n,
    zscore-zadd u v p z,
    same_iff v u,
    same_iff u v,
  )

  -- The projection that a rebuild fills has the ledger's points.
  abbrev pub rebuilt : List (Text × ℤ) → Zset
  rebuilt es = zadd_all r (sort_rows (group_by_student es)) no_members

  pub rebuilt_lem : (u : Text) (es : List (Text × ℤ)) → or_zero (zscore u (rebuilt es)) ≡ total u es
  rebuilt_lem u es =
      let (n, same_rows) = sort_rows_lem (group_by_student es) (group_by_student-Unique es) in
      ground (
        arith,
        zadd_all_lem u (sort_rows (group_by_student es)) no_members n,
        same_rows u,
        zscore-no_members u,
        get-group_by_student u es,
      )

  abbrev pub events_of : Request → List (Event r)
  events_of (award_alone u d) = awards u d ∷ (advances 0 ∷ (advances 0 ∷ []))
  events_of (award_committed u d) = bumps u d ∷ (advances 0 ∷ (advances 0 ∷ (commits u d ∷ [])))
  events_of ask_unread = asks_unread ∷ (advances 0 ∷ (advances 0 ∷ []))
  events_of ask_unfilled = asks_unread ∷ (advances 0 ∷ (fails 0 ∷ []))
  events_of ask_alone = asks ∷ (advances 0 ∷ (advances 0 ∷ []))
  events_of expire_alone = expires ∷ []

  -- While nothing else is being done, a projection that is built shows what the ledger holds.
  abbrev pub Shows : Text → World r → Type 0
  Shows u w =
      (w.tasks ≡ [])
      × ((if w.built then or_zero (zscore u w.zset) else total u w.ledger) ≡ total u w.ledger)

  serve_lem : (u : Text) (q : Request) (w : World r) → Shows u w → Shows u (run r (events_of q) w)
  unfolding run step award award_within commit leaderboard leaderboard_unread expire advance perform
      fail total
  serve_lem u (award_alone v d) w (t, e) = (
    ground (arith, t),
    ground (
      arith,
      t,
      e,
      zscore-zincrby u v d w.zset,
      same_iff u v,
      same_iff v u,
      zero-add (total u w.ledger),
      add_comm d (total u w.ledger),
    ),
  )
  serve_lem u (award_committed v d) w (t, e) = (
    ground (arith, t),
    ground (
      arith,
      t,
      e,
      zscore-zincrby u v d w.zset,
      same_iff u v,
      same_iff v u,
      zero-add (total u w.ledger),
      add_comm d (total u w.ledger),
    ),
  )
  serve_lem u ask_alone w (t, e) = (ground (arith, t), ground (arith, t, e, rebuilt_lem u w.ledger))
  serve_lem u ask_unread w (t, e) =
      (ground (arith, t), ground (arith, t, e, rebuilt_lem u w.ledger))
  serve_lem u ask_unfilled w (t, e) = (ground (arith, t), ground (arith, t, e))
  serve_lem u expire_alone w (t, e) = (ground (arith, t), ground arith)

  unfoldable pub serve : List Request → World r → World r
  serve [] w = w
  serve (q ∷ qs) w = serve qs (run r (events_of q) w)

  -- When awards, questions for the leaderboard and the running out of its keys come one after the other,
  -- each to its end before the next, where Redis does not fail at an award and each transaction that
  -- awards is committed, the leaderboard, while it is built, shows for every user the points that the
  -- ledger holds. Redis may fail when the leaderboard is read or filled.
  pub serve-Shows : (u : Text) (qs : List Request) (w : World r) → Shows u w → Shows u (serve qs w)
  unfolding serve
  serve-Shows u [] w h = h
  serve-Shows u (q ∷ qs) w h = serve-Shows u qs (run r (events_of q) w) (serve_lem u q w h)
