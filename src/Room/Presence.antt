-- ===== src/Room/Presence.antt =====
-- src/room-gateway/room.gateway.ts: who is shown as present, and when that goes wrong.
use livetich_api.Prelude.{
  if◌then◌else◌, ◌≡◌, refl, Text, same, same_iff, Bool, true, false, not, ◌&&◌, ◌||◌, none, some,
  is_some, List, [], ◌∷◌, any, All, arith,
}
use livetich_api.Buzzer.{RoomUser}
use livetich_api.Redis.{RedisHash}
use livetich_api.Room.{
  Client, SessionRow, Mode, Member, mode_of, without, set_mode, room_user, Room, user_still_in_room,
  on_join, is_shadow, depart, depart_with, on_leave, handle_disconnect, handle_disconnect_with,
  Arrival, joins, leaves, drops, step, run,
}

module _ (h : RedisHash RoomUser) (who : Text → Client) (hidden : Text → Bool) where
  open h use {Hash, hget, hset, hdel, hget-hset, hget-hdel}

  abbrev user_of : Text → Text
  user_of id = (who id).user.sub

  abbrev pub in_room : Text → List Member → Bool
  in_room u ms = any (λ m. same (who m.id).user.sub u) ms

  -- A socket of the user that the room can see.
  abbrev pub is_seen : Text → List Member → Bool
  is_seen u ms = any (λ m. same (who m.id).user.sub u && not m.mode.shadow) ms

  abbrev pub Settled : List Member → Type 0
  Settled ms = All (λ m. m.mode.shadow ≡ hidden (who m.id).user.sub) ms

  is_seen-Settled :
      (u : Text) (ms : List Member) → Settled ms → is_seen u ms ≡ (not (hidden u) && in_room u ms)
  is_seen-Settled u [] s = ground arith
  is_seen-Settled u (m ∷ ms) (e, s) =
      ground (arith, is_seen-Settled u ms s, same_iff (user_of m.id) u)

  Settled-without : (id : Text) (ms : List Member) → Settled ms → Settled (without id ms)
  unfolding without
  Settled-without id [] s = tt
  Settled-without id (m ∷ ms) (e, s) = ground (arith, Settled-without id ms s)

  Settled-set_mode :
      (id : Text) (mode : Mode) (ms : List Member)
      → mode.shadow ≡ hidden (who id).user.sub
      → Settled ms
      → Settled (set_mode id mode ms)
  unfolding set_mode
  Settled-set_mode id mode [] k s = tt
  Settled-set_mode id mode (m ∷ ms) k (e, s) =
      (ground (arith, same_iff m.id id), Settled-set_mode id mode ms k s)

  in_room-set_mode :
      (u id : Text) (mode : Mode) (ms : List Member)
      → in_room u (set_mode id mode ms) ≡ in_room u ms
  unfolding set_mode
  in_room-set_mode u id mode [] = refl
  in_room-set_mode u id mode (m ∷ ms) = ground (arith, in_room-set_mode u id mode ms)

  in_room-without :
      (u id : Text) (ms : List Member)
      → in_room u (without id ms) ≡ user_still_in_room h who u id ms
  unfolding without user_still_in_room
  in_room-without u id [] = refl
  in_room-without u id (m ∷ ms) = ground (arith, in_room-without u id ms)

  in_room-without_other :
      (u id : Text) (ms : List Member)
      → same (who id).user.sub u ≡ false
      → in_room u (without id ms) ≡ in_room u ms
  unfolding without
  in_room-without_other u id [] n = refl
  in_room-without_other u id (m ∷ ms) n =
      ground (arith, in_room-without_other u id ms n, same_iff m.id id)

  in_room-without_le :
      (u id : Text) (ms : List Member) → in_room u ms ≡ false → in_room u (without id ms) ≡ false
  unfolding without
  in_room-without_le u id [] n = refl
  in_room-without_le u id (m ∷ ms) n = ground (arith, in_room-without_le u id ms)

  is_shadow-Settled :
      (id : Text) (ms : List Member)
      → Settled ms
      → is_shadow h who id ms ≡ true
      → hidden (who id).user.sub ≡ true
  is_shadow-Settled id [] s k = ground arith
  is_shadow-Settled id (m ∷ ms) (e, s) k =
      ground (arith, is_shadow-Settled id ms s, same_iff m.id id)

  -- The user is shown exactly when a socket of theirs that the room can see is in it.
  abbrev pub Shown : Text → Room h who → Type 0
  Shown u w = (is_some (hget u w.presence) ≡ is_seen u w.members) × Settled w.members

  depart-members : (id : Text) (w : Room h who) → (depart h who id w).members ≡ without id w.members
  unfolding depart depart_with
  depart-members id w = ground arith

  depart-presence :
      (id : Text) (w : Room h who)
      → (depart h who id w).presence ≡ (
          if is_shadow h who id w.members || user_still_in_room h who (who id).user.sub id w.members
          then w.presence
          else hdel (who id).user.sub w.presence)
  unfolding depart depart_with
  depart-presence id w = ground arith

  depart-Shown : (u id : Text) (w : Room h who) → Shown u w → Shown u (depart h who id w)
  depart-Shown u id w (e, s) =
      let s' : Settled (without id w.members) = Settled-without id w.members s in
      rw (depart-members id w, depart-presence id w)
        (
          ground (
            arith,
            e,
            is_seen-Settled u w.members s,
            is_seen-Settled u (without id w.members) s',
            in_room-without u id w.members,
            in_room-without_other u id w.members,
            in_room-without_le u id w.members,
            is_shadow-Settled id w.members s,
            same_iff (user_of id) u,
            same_iff u (user_of id),
            hget-hdel u (user_of id) w.presence,
          ),
          s',
        )

  -- A user's sockets are all seen or all hidden: nobody is in the room both as a participant and as an
  -- observer.
  abbrev pub IsTidy : Arrival h who → Type 0
  IsTidy (joins id sid as_teach row enrolled) =
      (mode_of (who id) sid as_teach).shadow ≡ hidden (who id).user.sub
  IsTidy (leaves id) = Unit {0}
  IsTidy (drops id) = Unit {0}

  on_join-Shown :
      (u id sid : Text) (as_teach : Bool) (row : SessionRow) (enrolled : Bool) (w : Room h who)
      → (mode_of (who id) sid as_teach).shadow ≡ hidden (who id).user.sub
      → Shown u w
      → Shown u (on_join h who id sid as_teach (some row) enrolled w).1
  unfolding on_join
  on_join-Shown u id sid as_teach row enrolled w t (e, s) =
      let mode = mode_of (who id) sid as_teach in
      let s' : Settled (without id w.members) = Settled-without id w.members s in
      let s'' : Settled (set_mode id mode w.members) = Settled-set_mode id mode w.members t s in
      let settled : Settled (on_join h who id sid as_teach (some row) enrolled w).1.members =
        ground (arith, s', s'') in
      let shown : is_some (hget u (on_join h who id sid as_teach (some row) enrolled w).1.presence)
          ≡ is_seen u (on_join h who id sid as_teach (some row) enrolled w).1.members =
        ground (
          arith,
          e,
          is_seen-Settled u w.members s,
          is_seen-Settled u (without id w.members) s',
          is_seen-Settled u (set_mode id mode w.members) s'',
          in_room-set_mode u id mode w.members,
          in_room-without u id w.members,
          in_room-without_other u id w.members,
          same_iff (user_of id) u,
          same_iff u (user_of id),
          hget-hset u (user_of id) (room_user (who id).user mode) w.presence,
        ) in
      (shown, settled)

  step-Shown :
      (u : Text) (a : Arrival h who) (w : Room h who)
      → IsTidy a
      → Shown u w
      → Shown u (step h who a w)
  unfolding step on_join on_leave handle_disconnect handle_disconnect_with depart
  step-Shown u (joins id sid as_teach none enrolled) w t i = i
  step-Shown u (joins id sid as_teach (some row) enrolled) w t i =
      on_join-Shown u id sid as_teach row enrolled w t i
  step-Shown u (leaves id) w t i = ground (arith, depart-Shown u id w i)
  step-Shown u (drops id) w t i = ground (arith, depart-Shown u id w i)

  -- When arrivals and departures are handled one after the other, each to its end before the next, and
  -- nobody is in the room both as a participant and as an observer, then however sockets join, are
  -- refused, leave and are cut off: a user is shown as present exactly while a socket of theirs
  -- that is no observer is in the room.
  pub presence_iff :
      (u : Text) (arrivals : List (Arrival h who)) (w : Room h who)
      → All IsTidy arrivals
      → Shown u w
      → Shown u (run h who arrivals w)
  unfolding run
  presence_iff u [] w t i = i
  presence_iff u (a ∷ arrivals) w (t, ts) i =
      presence_iff u arrivals (step h who a w) ts (step-Shown u a w t i)
