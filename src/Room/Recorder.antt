-- ===== src/Room/Recorder.antt =====
-- src/room-gateway/room.gateway.ts: a recorder and the teacher whom its token names.
use livetich_api.Prelude.{
  ◌≡◌, refl, ◌∙◌, Text, same, same_refl, same_option, true, false, none, some, is_some, List, [],
  ◌∷◌, arith,
}
use livetich_api.Identity.{instructor}
use livetich_api.Buzzer.{RoomUser}
use livetich_api.Redis.{RedisHash}
use livetich_api.Room.{
  Client, SessionRow, Mode, Member, mode_of, may_enter, find_mode, without, room_user, Room,
  user_still_in_room, on_join, depart, depart_with, on_leave, handle_disconnect,
  handle_disconnect_with, Arrival, joins, leaves, drops, step, run,
}

module _ (h : RedisHash RoomUser) (who : Text → Client) where
  open h use {hget, hset, hget-hset}

  abbrev plain : Mode
  plain = record { teaching = false; shadow = false }

  abbrev filming : Mode
  filming = record { teaching = false; shadow = true }

  teacher_joins :
      (id sid : Text) (row : SessionRow) (w : Room h who)
      → row.ended ≡ false
      → (who id).recorder ≡ none
      → (who id).user.role ≡ instructor
      → same_option row.instructor_id (some (who id).user.sub) ≡ true
      → (on_join h who id sid false (some row) false w).1 ≡ record w {
        members = record { id = id; mode = plain } ∷ without id w.members;
        presence = hset (who id).user.sub (room_user (who id).user plain) w.presence;
      }
  unfolding on_join mode_of may_enter
  teacher_joins id sid row w o n r own = ground arith

  camera_joins :
      (id sid : Text) (row : SessionRow) (w : Room h who)
      → row.ended ≡ false
      → (who id).recorder ≡ some sid
      → (on_join h who id sid false (some row) false w).1
        ≡ record w { members = record { id = id; mode = filming } ∷ without id w.members }
  unfolding on_join mode_of may_enter
  camera_joins id sid row w o r = ground (arith, same_refl sid)

  -- A user with another socket in the room leaves: only the socket goes.
  teacher_leaves :
      (id : Text) (w : Room h who)
      → (who id).recorder ≡ none
      → user_still_in_room h who (who id).user.sub id w.members ≡ true
      → on_leave h who id w ≡ record w { members = without id w.members }
  unfolding on_leave depart depart_with
  teacher_leaves id w n k = ground arith

  camera_drops :
      (id : Text) (w : Room h who)
      → find_mode id w.members ≡ some filming
      → handle_disconnect h who id w ≡ record w { members = without id w.members }
  unfolding handle_disconnect handle_disconnect_with depart depart_with
  camera_drops id w k = ground (arith, k)

  abbrev pub visit : Text → Text → Text → SessionRow → List (Arrival h who)
  visit teacher camera sid row =
      joins teacher sid false (some row) false
      ∷ (joins camera sid false (some row) false ∷ (leaves teacher ∷ (drops camera ∷ [])))

  -- A recorder's token names the teacher who started it. If the teacher leaves while the recorder is
  -- in the room, and the recorder goes later, the teacher is still shown as present, with no socket
  -- left in the room.
  pub recorder_keeps_presence :
      (teacher camera sid : Text) (row : SessionRow) (w : Room h who)
      → w.members ≡ []
      → row.ended ≡ false
      → (who teacher).recorder ≡ none
      → (who teacher).user.role ≡ instructor
      → same_option row.instructor_id (some (who teacher).user.sub) ≡ true
      → (who camera).recorder ≡ some sid
      → (who camera).user.sub ≡ (who teacher).user.sub
      → same camera teacher ≡ false
      → same teacher camera ≡ false
      → ((run h who (visit teacher camera sid row) w).members ≡ [])
        × (is_some
              (hget (who teacher).user.sub (run h who (visit teacher camera sid row) w).presence)
            ≡ true)
  unfolding run step without user_still_in_room
  recorder_keeps_presence teacher camera sid row w e o t r own c n d d' =
      let sub = (who teacher).user.sub in
      let shown = hset sub (room_user (who teacher).user plain) w.presence in
      let one : List Member = record { id = teacher; mode = plain } ∷ [] in
      let two : List Member = record { id = camera; mode = filming } ∷ one in
      let w1 : Room h who = record w { members = one; presence = shown } in
      let w2 : Room h who = record w1 { members = two } in
      let w3 : Room h who = record w1 { members = record { id = camera; mode = filming } ∷ [] } in
      let s1 : (on_join h who teacher sid false (some row) false w).1 ≡ w1 =
        teacher_joins teacher sid row w o t r own ∙ rw e refl in
      let s2 : (on_join h who camera sid false (some row) false w1).1 ≡ w2 =
        camera_joins camera sid row w1 o c ∙ ground (arith, d') in
      let s3 : on_leave h who teacher w2 ≡ w3 =
        teacher_leaves teacher w2 t (ground (arith, n, d, same_refl sub))
        ∙ ground (arith, d, same_refl teacher) in
      let s4 : handle_disconnect h who camera w3 ≡ record w1 { members = [] } =
        camera_drops camera w3 (ground (arith, same_refl camera))
        ∙ ground (arith, same_refl camera) in
      rw (s1, s2, s3, s4)
        (
          refl,
          ground (
            arith,
            same_refl sub,
            hget-hset sub sub (room_user (who teacher).user plain) w.presence,
          ),
        )
