-- ===== src/Room.antt =====
-- src/room-gateway/room.gateway.ts over src/room-gateway/room-state.service.ts: who is in one live room.
-- The sockets that have joined are state, with the flags of `client.data`; the hashes of Redis are
-- parameters. Each message is handled to its end before the next.
pub mod Presence
pub mod Recorder
pub mod Stage
pub mod Limits
pub mod Authority
pub mod Overlap
mod Tests
use livetich_api.Prelude.{
  ℕ, if◌then◌else◌, ◌≡◌, Text, same, same_option, Bool, true, false, not, ◌&&◌, ◌||◌, Option, none,
  some, List, [], ◌∷◌, any, filter,
}
use livetich_api.Identity.{
  JwtPayload, Role, instructor, student, org_admin, is_student, is_org_admin, is_instructor,
}
use livetich_api.Buzzer.{RoomUser}
use livetich_api.Redis.{RedisHash}

-- What a socket was connected with: the claims of its token, and the session that a recorder films.
pub record Client : Type 0 where
  pub user : JwtPayload
  pub recorder : Option Text

pub record SessionRow : Type 0 where
  pub ended : Bool
  pub instructor_id : Option Text
  pub organization_id : Option Text

-- `client.data.teaching` and `client.data.shadow`.
pub record Mode : Type 0 where
  pub teaching : Bool
  pub shadow : Bool

pub record Member : Type 0 where
  pub id : Text
  pub mode : Mode

pub data JoinError : Type 0 where
  not_joinable forbidden : JoinError

abbrev pub is_recorder_of : Client → Text → Bool
is_recorder_of c sid = elim c.recorder [ none ↦ false | some s ↦ same s sid ]

abbrev pub is_recorder : Client → Bool
is_recorder c = elim c.recorder [ none ↦ false | some s ↦ true ]

unfoldable pub mode_of : Client → Text → Bool → Mode
mode_of c sid as_teach =
    let teaching = is_org_admin c.user.role && as_teach in
    record {
      teaching = teaching;
      shadow = (is_org_admin c.user.role && not teaching) || is_recorder_of c sid;
    }

-- `session.course.instructorId !== user.sub`
abbrev pub is_their_instructor : SessionRow → JwtPayload → Bool
is_their_instructor row user = same_option row.instructor_id (some user.sub)

-- The tests of `room:join` after the flags are set: whether the socket may come in.
unfoldable pub may_enter : Client → Text → SessionRow → Bool → Bool
may_enter c sid row enrolled =
    if is_recorder c && not (is_recorder_of c sid)
    then false
    else if is_recorder_of c sid
    then true
    else elim c.user.role [
      | instructor ↦ is_their_instructor row c.user
      | org_admin ↦ same_option row.organization_id c.user.organization_id
      | student ↦ enrolled
    ]

abbrev pub find_mode : Text → List Member → Option Mode
find_mode id [] = none
find_mode id (m ∷ ms) = let rest = find_mode id ms in if same m.id id then some m.mode else rest

unfoldable pub without : Text → List Member → List Member
without id [] = []
without id (m ∷ ms) = let rest = without id ms in if same m.id id then rest else m ∷ rest

-- The flags of a socket that is in the room already.
unfoldable pub set_mode : Text → Mode → List Member → List Member
set_mode id mode [] = []
set_mode id mode (m ∷ ms) =
    (if same m.id id then record m { mode = mode } else m) ∷ set_mode id mode ms

-- A teach-mode admin acts as an instructor.
abbrev pub acting_role : JwtPayload → Mode → Role
acting_role user mode = if mode.teaching then instructor else user.role

abbrev pub room_user : JwtPayload → Mode → RoomUser
room_user user mode = record { user_id = user.sub; name = user.name; role = acting_role user mode }

module _ (h : RedisHash RoomUser) (who : Text → Client) where
  open h use {Hash, hset, hdel}

  -- The sockets in the room, and the hashes `presence` and `hands`.
  pub record Room : Type 0 where
    pub members : List Member
    pub presence : Hash
    pub hands : Hash

  -- `userStillInRoom`: another socket of the same user, whatever its flags.
  unfoldable pub user_still_in_room : Text → Text → List Member → Bool
  user_still_in_room sub except [] = false
  user_still_in_room sub except (m ∷ ms) =
      (not (same m.id except) && same (who m.id).user.sub sub) || user_still_in_room sub except ms

  -- `room:join`, with the session's row, whether it asks for teach-mode, and whether it is enrolled.
  unfoldable pub on_join :
      Text → Text → Bool → Option SessionRow → Bool → Room → Option JoinError × Room
  on_join id sid as_teach none enrolled w = (some not_joinable, w)
  on_join id sid as_teach (some row) enrolled w =
      let mode = mode_of (who id) sid as_teach in
      if row.ended
      then (some not_joinable, w)
      else if not (may_enter (who id) sid row enrolled)
      then (some forbidden, record w { members = set_mode id mode w.members })
      else (
        none,
        record w {
          members = record { id = id; mode = mode } ∷ without id w.members;
          presence =
              if mode.shadow
              then w.presence
              else hset (who id).user.sub (room_user (who id).user mode) w.presence;
        },
      )

  abbrev pub is_shadow : Text → List Member → Bool
  is_shadow id ms = elim (find_mode id ms) [ none ↦ false | some m ↦ m.shadow ]

  -- What `room:leave` and a disconnection share: a socket that was seen, and that is the last of its
  -- user, takes the presence and the hand with it.
  -- Other handlers may come in while the list of the sockets is awaited: `meanwhile` is what they do.
  unfoldable pub depart_with : (Room → Room) → Text → Room → Room
  depart_with meanwhile id w =
      let sub = (who id).user.sub in
      let stays = is_shadow id w.members || user_still_in_room sub id w.members in
      let later = meanwhile (record w { members = without id w.members }) in
      if stays
      then later
      else record later { presence = hdel sub later.presence; hands = hdel sub later.hands }

  -- Nobody comes in meanwhile.
  unfoldable pub depart : Text → Room → Room
  unfolding depart_with
  depart id w = depart_with (λ v. v) id w

  -- Every packet of a recorder but `room:join` is dropped.
  unfoldable pub on_leave : Text → Room → Room
  on_leave id w = if is_recorder (who id) then w else depart id w

  -- Only a socket that has joined the room departs from it by disconnecting.
  unfoldable pub handle_disconnect_with : (Room → Room) → Text → Room → Room
  handle_disconnect_with meanwhile id w = elim (find_mode id w.members) [
    | none ↦ w
    | some m ↦ depart_with meanwhile id w
  ]

  -- Nobody comes in while the sockets are listed.
  unfoldable pub handle_disconnect : Text → Room → Room
  unfolding handle_disconnect_with
  handle_disconnect id w = handle_disconnect_with (λ v. v) id w

  pub data Arrival : Type 0 where
    joins : Text → Text → Bool → Option SessionRow → Bool → Arrival
    leaves drops : Text → Arrival

  unfoldable pub step : Arrival → Room → Room
  step (joins id sid as_teach row enrolled) w = (on_join id sid as_teach row enrolled w).1
  step (leaves id) w = on_leave id w
  step (drops id) w = handle_disconnect id w

  unfoldable pub run : List Arrival → Room → Room
  run [] w = w
  run (a ∷ as_) w = run as_ (step a w)
