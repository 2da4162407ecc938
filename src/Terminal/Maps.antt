-- ===== src/Terminal/Maps.antt =====
-- src/terminal/terminal.service.ts: what every method keeps of the two maps, and how a write shows
-- in a later lookup.
use mathlib.Core.Path.{◌≡◌}
use livetich_api.Prelude.{
  Text, same, same_iff, Option, none, some, [], ◌∷◌, arith, if◌then◌else◌, Option-cases, All, ◌≢◌,
  inl, inr,
}
use livetich_api.Prelude.Dict
use livetich_api.Prelude.Dict.{Dict, Unique}
use livetich_api.Terminal.{ActiveTerminal, Sessions, find, write, or_empty}

abbrev pub Holds : Text × Dict ActiveTerminal → Type 0
Holds e = Unique e.1 × (e.1 ≢ [])

-- The invariant of `sessions`: keys are distinct in both maps, and no session is left empty.
abbrev pub WellFormed : Sessions → Type 0
WellFormed s = Unique s × All Holds s

pub Unique-or_empty : (k : Text) (s : Sessions) → All Holds s → Unique (or_empty (Dict.get k s))
unfolding Dict.get
Unique-or_empty k [] h = tt
Unique-or_empty k ((j, m) ∷ s) (a, h) = ground (arith, Unique-or_empty k s h)

set-ne-nil : (k : Text) (t : ActiveTerminal) (m : Dict ActiveTerminal) → Dict.set k t m ≢ []
unfolding Dict.set
set-ne-nil k t [] = ground arith
set-ne-nil k t ((j, w) ∷ m) = ground arith

pub All-set :
    (k : Text) (m : Dict ActiveTerminal) (s : Sessions)
    → Unique m
    → m ≢ []
    → All Holds s
    → All Holds (Dict.set k m s)
unfolding Dict.set
All-set k m [] u ne h = ((u, ne), tt)
All-set k m ((j, w) ∷ s) u ne (a, h) = ground (arith, All-set k m s u ne h)

pub All-delete : (k : Text) (s : Sessions) → All Holds s → All Holds (Dict.delete k s)
unfolding Dict.delete
All-delete k [] h = tt
All-delete k ((j, w) ∷ s) (a, h) = ground (arith, All-delete k s h)

-- Both maps are written at once, as opening a terminal and changing one do.
pub set_in-WellFormed :
    (k id : Text) (t : ActiveTerminal) (s : Sessions)
    → WellFormed s
    → WellFormed (Dict.set k (Dict.set id t (or_empty (Dict.get k s))) s)
set_in-WellFormed k id t s (u, h) = (
  Dict.set-Unique k _ s u,
  All-set k _ s (Dict.set-Unique id t _ (Unique-or_empty k s h)) (set-ne-nil id t _) h,
)

pub find-set_in :
    (k id k' id' : Text) (t : ActiveTerminal) (s : Sessions)
    → find k' id' (Dict.set k (Dict.set id t (or_empty (Dict.get k s))) s)
      ≡ (if same k k' then (if same id id' then some t else find k' id' s) else find k' id' s)
unfolding find
find-set_in k id k' id' t s =
    rw (Dict.get-set k k' (Dict.set id t (or_empty (Dict.get k s))) s)
      (ground (arith, same_iff k k', Dict.get-set id id' t (or_empty (Dict.get k s))))

pub write-WellFormed :
    (k id : Text) (f : ActiveTerminal → ActiveTerminal) (s : Sessions)
    → WellFormed s
    → WellFormed (write k id f s)
unfolding write
write-WellFormed k id f s w = elim (Option-cases (find k id s)) [
  | inl e ↦ rw (e, write) w
  | inr (t, e) ↦ rw (e, write) (set_in-WellFormed k id (f t) s w)
]

abbrev pub changed :
    (ActiveTerminal → ActiveTerminal) → Option ActiveTerminal → Option ActiveTerminal
changed f none = none
changed f (some t) = some (f t)

-- A write changes the terminal that it names, if there is one, and no other.
pub find-write :
    (k id k' id' : Text) (f : ActiveTerminal → ActiveTerminal) (s : Sessions)
    → find k' id' (write k id f s) ≡ (
        if same k k'
        then (if same id id' then changed f (find k' id' s) else find k' id' s)
        else find k' id' s)
unfolding write
find-write k id k' id' f s = elim (Option-cases (find k id s)) [
  | inl e ↦ rw (e, write) (ground (arith, same_iff k k', same_iff id id'))
  | inr (t, e) ↦
      rw (e, write, find-set_in k id k' id' (f t) s)
        (ground (arith, same_iff k k', same_iff id id'))
]
