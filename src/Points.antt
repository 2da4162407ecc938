-- ===== src/Points.antt =====
-- src/points/points.service.ts: the points of one course, in the ledger and in the leaderboard that
-- Redis keeps of it. Handlers are cut at their awaits. Points are whole numbers, and may be taken away.
pub mod Quiet
pub mod Races
mod Tests
use livetich_api.Prelude.{
  ℕ, zero, suc, if◌then◌else◌, ◌≡◌, Text, codes, same, Bool, true, false, Option, none, some, List,
  [], ◌∷◌, ◌++◌, get_elem?,
}
use livetich_api.Prelude.Dict
use livetich_api.Prelude.Integers.{ℤ, pos, ◌+ℤ◌, is_less}
use livetich_api.Prelude.Dict.{Dict, Unique}

abbrev pub or_zero : Option ℤ → ℤ
or_zero none = pos 0
or_zero (some n) = n

-- The points of a student in rows of a ledger.
unfoldable pub total : Text → List (Text × ℤ) → ℤ
total u [] = pos 0
total u ((v, d) ∷ es) = (if same u v then d else pos 0) +ℤ total u es

-- The sorted set as the service uses it, and the sums of the ledger by student that the database gives.
pub record Store : Type 1 where
  pub Zset : Type 0
  pub no_members : Zset
  pub zscore : Text → Zset → Option ℤ
  pub zadd : ℤ → Text → Zset → Zset
  pub zincrby : ℤ → Text → Zset → Zset
  pub group_by_student : List (Text × ℤ) → Dict ℤ
  pub zscore-no_members : (u : Text) → zscore u no_members ≡ none
  pub zscore-zadd :
      (u v : Text) (p : ℤ) (z : Zset)
      → zscore u (zadd p v z) ≡ (if same u v then some p else zscore u z)
  pub zscore-zincrby :
      (u v : Text) (d : ℤ) (z : Zset)
      → zscore u (zincrby d v z)
        ≡ (if same u v then some (or_zero (zscore v z) +ℤ d) else zscore u z)
  pub group_by_student-Unique : (es : List (Text × ℤ)) → Unique (group_by_student es)
  pub get-group_by_student :
      (u : Text) (es : List (Text × ℤ)) → or_zero (Dict.get u (group_by_student es)) ≡ total u es

-- `sort((a, b) => b.points - a.points)`
unfoldable pub insert_row : Text × ℤ → Dict ℤ → Dict ℤ
insert_row r [] = r ∷ []
insert_row r (q ∷ rows) =
    let rest = insert_row r rows in if is_less r.1 q.1 then q ∷ rest else r ∷ (q ∷ rows)

unfoldable pub sort_rows : Dict ℤ → Dict ℤ
sort_rows [] = []
sort_rows (r ∷ rows) = insert_row r (sort_rows rows)

-- What a handler still has to do: ask whether the projection is built, and add to it; read the sums, and
-- fill it.
pub data Task : Type 0 where
  bump increment : Text → ℤ → Task
  sum : Task
  fill : Dict ℤ → Task

module _ (r : Store) where
  open r use {Zset, no_members, zadd, zincrby, group_by_student}

  pub record World : Type 0 where
    pub ledger : List (Text × ℤ)
    pub zset : Zset
    pub built : Bool
    pub tasks : List Task

  unfoldable pub zadd_all : Dict ℤ → Zset → Zset
  zadd_all [] z = z
  zadd_all ((u, p) ∷ rows) z = zadd_all rows (zadd p u z)

  -- `award`: the row is in the ledger before the projection is looked at.
  unfoldable pub award : Text → ℤ → World → World
  award u d w = record w { ledger = (u, d) ∷ w.ledger; tasks = bump u d ∷ w.tasks }

  -- `award` in the transaction of a caller: the look at the projection does not wait for the commit, and
  -- the row is in the ledger only if and when the transaction is committed.
  unfoldable pub award_within : Text → ℤ → World → World
  award_within u d w = record w { tasks = bump u d ∷ w.tasks }

  unfoldable pub commit : Text → ℤ → World → World
  commit u d w = record w { ledger = (u, d) ∷ w.ledger }

  -- `leaderboard`: a projection that is built is read as it is.
  unfoldable pub leaderboard : World → World
  leaderboard w = if w.built then w else record w { tasks = sum ∷ w.tasks }

  -- Where the reading throws, it is caught, and the projection is rebuilt.
  unfoldable pub leaderboard_unread : World → World
  leaderboard_unread w = record w { tasks = sum ∷ w.tasks }

  -- Both keys run out together.
  unfoldable pub expire : World → World
  expire w = record w { built = false; zset = no_members }

  abbrev pub drop_task : ℕ → List Task → List Task
  drop_task k [] = []
  drop_task zero (t ∷ ts) = ts
  drop_task (suc k) (t ∷ ts) = t ∷ drop_task k ts

  -- One task goes on to its next await, with the others.
  unfoldable pub perform : Task → List Task → World → World
  perform (bump u d) others w = record w {
    tasks = if w.built then increment u d ∷ others else others;
  }
  perform (increment u d) others w = record w { zset = zincrby d u w.zset; tasks = others }
  perform sum others w = record w { tasks = fill (sort_rows (group_by_student w.ledger)) ∷ others }
  perform (fill rows) others w = record w {
    zset = zadd_all rows no_members;
    built = true;
    tasks = others;
  }

  unfoldable pub advance : ℕ → World → World
  advance k w = elim (get_elem? w.tasks k) [ none ↦ w | some t ↦ perform t (drop_task k w.tasks) w ]

  -- The next command of a task throws, which is caught: nothing more comes of the task.
  unfoldable pub fail : ℕ → World → World
  fail k w = record w { tasks = drop_task k w.tasks }

  pub data Event : Type 0 where
    awards bumps commits : Text → ℤ → Event
    asks asks_unread expires : Event
    advances fails : ℕ → Event

  unfoldable pub step : Event → World → World
  step (awards u d) w = award u d w
  step (bumps u d) w = award_within u d w
  step (commits u d) w = commit u d w
  step asks w = leaderboard w
  step asks_unread w = leaderboard_unread w
  step expires w = expire w
  step (advances k) w = advance k w
  step (fails k) w = fail k w

  unfoldable pub run : List Event → World → World
  run [] w = w
  run (e ∷ es) w = run es (step e w)
