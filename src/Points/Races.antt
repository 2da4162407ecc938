-- ===== src/Points/Races.antt =====
-- src/points/points.service.ts: an award while the leaderboard is filled, and one that Redis or the
-- database drops.
use livetich_api.Prelude.{◌≡◌, Text, same_refl, true, false, List, [], ◌∷◌, arith}
use livetich_api.Prelude.Integers.{ℤ, ◌+ℤ◌, add_comm}
use livetich_api.Points.{
  or_zero, total, Store, World, award, award_within, leaderboard, perform, advance, fail, Event,
  awards, bumps, asks, advances, fails, step, run,
}
use livetich_api.Points.Quiet.{rebuilt, rebuilt_lem}

module _ (r : Store) where
  open r use {zscore, zincrby, zscore-zincrby}

  -- The sums are read; the award comes, and finds nothing built; then the sums are stored.
  abbrev pub too_early : Text → ℤ → List (Event r)
  too_early u d = asks ∷ (advances 0 ∷ (awards u d ∷ (advances 0 ∷ (advances 0 ∷ []))))

  -- The award is in the sums; they are stored before it looks, and it adds itself once more.
  abbrev pub too_late : Text → ℤ → List (Event r)
  too_late u d =
      asks ∷ (awards u d ∷ (advances 1 ∷ (advances 0 ∷ (advances 0 ∷ (advances 0 ∷ [])))))

  -- A leaderboard that is asked for while it is not built and nothing else is done: an award that comes
  -- while it is filled is missing from it, or counted twice, depending on the order of the awaits. Both
  -- runs end with nothing to be done and the projection built.
  pub award_races :
      (u : Text) (d : ℤ) (w : World r)
      → w.built ≡ false
      → w.tasks ≡ []
      → ((run r (too_early u d) w).built ≡ true)
        × ((run r (too_early u d) w).tasks ≡ [])
        × (or_zero (zscore u (run r (too_early u d) w).zset) +ℤ d
            ≡ total u (run r (too_early u d) w).ledger)
        × ((run r (too_late u d) w).built ≡ true)
        × ((run r (too_late u d) w).tasks ≡ [])
        × (or_zero (zscore u (run r (too_late u d) w).zset)
            ≡ total u (run r (too_late u d) w).ledger +ℤ d)
  unfolding run step award leaderboard advance perform total
  award_races u d w b t = (
    ground (arith, b, t),
    ground (arith, b, t),
    ground (arith, b, t, same_refl u, rebuilt_lem r u w.ledger, add_comm d (total u w.ledger)),
    ground (arith, b, t),
    ground (arith, b, t),
    ground (
      arith,
      b,
      t,
      same_refl u,
      rebuilt_lem r u ((u, d) ∷ w.ledger),
      zscore-zincrby u u d (rebuilt r ((u, d) ∷ w.ledger)),
    ),
  )

  -- A leaderboard that is built, while nothing else is done: where Redis fails as an award is added to it,
  -- the award is in the ledger and not in the leaderboard; where the transaction that awards is rolled
  -- back, it is the other way round.
  pub award_lost :
      (u : Text) (d : ℤ) (w : World r)
      → w.built ≡ true
      → w.tasks ≡ []
      → (run r (awards u d ∷ (advances 0 ∷ (fails 0 ∷ []))) w
          ≡ record w { ledger = (u, d) ∷ w.ledger })
        × (run r (bumps u d ∷ (advances 0 ∷ (advances 0 ∷ []))) w
            ≡ record w { zset = zincrby d u w.zset })
  unfolding run step award award_within advance perform fail
  award_lost u d w b t = (ground (arith, b, t), ground (arith, b, t))
