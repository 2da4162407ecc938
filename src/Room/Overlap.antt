-- ===== src/Room/Overlap.antt =====
-- src/room-gateway/room.gateway.ts and src/room-gateway/room-state.service.ts: what goes wrong when two
-- handlers overlap at an await.
use livetich_api.Prelude.{
  ℕ, ◌≡◌, Text, same, same_iff, Bool, true, false, Option, none, some, List, [], ◌∷◌, any, ◌||◌,
  arith,
}
use livetich_api.Buzzer.{RoomUser}
use livetich_api.Redis.{RedisHash}
use livetich_api.Room.{
  Client, SessionRow, Mode, find_mode, handle_disconnect_with, without, Room, user_still_in_room,
  on_join, is_shadow, may_enter, depart_with,
}
use livetich_api.Room.Stage.{Annotation, Setting, before_hexists, StageRedis, set_step}

module _ (h : RedisHash RoomUser) (who : Text → Client) where
  open h use {hget, hget-hdel}

  -- A user whose last socket is cut off and whose new socket joins while the list of the sockets is
  -- awaited is in the room and is not shown as present.
  pub rejoin_lost :
      (old new sid : Text) (row : SessionRow) (enrolled : Bool) (mode : Mode) (w : Room h who)
      → (who new).user.sub ≡ (who old).user.sub
      → find_mode old w.members ≡ some mode
      → mode.shadow ≡ false
      → user_still_in_room h who (who old).user.sub old w.members ≡ false
      → row.ended ≡ false
      → may_enter (who new) sid row enrolled ≡ true
      → let next =
          handle_disconnect_with h who
            (λ v. (on_join h who new sid false (some row) enrolled v).1)
            old
            w in
        (any (λ m. same m.id new) next.members ≡ true)
        × (hget (who old).user.sub next.presence ≡ none)
  unfolding handle_disconnect_with depart_with on_join
  rejoin_lost old new sid row enrolled mode w same_user there visible last open_class may =
      let seen : is_shadow h who old w.members ≡ false = ground (arith, there, visible) in
      let sub = (who old).user.sub in
      let left : Room h who = record w { members = without old w.members } in
      let joins : Room h who → Room h who =
        λ v. (on_join h who new sid false (some row) enrolled v).1 in
      let at : handle_disconnect_with h who joins old w ≡ depart_with h who joins old w =
        ground (arith, there) in
      let later = (on_join h who new sid false (some row) enrolled left).1 in
      let gone : (is_shadow h who old w.members || user_still_in_room h who sub old w.members)
          ≡ false =
        ground (arith, seen, last) in
      (
        ground (arith, there, seen, last, open_class, may, same_iff new new),
        rw (at, gone) (ground (arith, same_iff sub sub, hget-hdel sub sub later.presence)),
      )

module _ (r : StageRedis) (get_surah_ayahs : ℕ → Option (List Text))
    (graphemes : Text → List Text) where
  open r.marks use {
    Hash as Marks, hget as mark_at, hset as put_mark, hlen as count_marks, hget-hset, hlen-hset,
  }

  -- Two requests to show annotations, whose commands are sent in the order given: `true` for one of the
  -- first.
  unfoldable pub set_both : List Bool → Annotation → Setting → Annotation → Setting → Marks → Marks
  set_both [] a s b t m = m
  set_both (true ∷ turns) a s b t m =
      let next = set_step r get_surah_ayahs graphemes a s m in set_both turns a next.0 b t next.1
  set_both (false ∷ turns) a s b t m =
      let next = set_step r get_surah_ayahs graphemes b t m in set_both turns a s b next.0 next.1

  -- Two new annotations that are both counted for before either is written make 51 of 49.
  pub overshoot :
      (a b : Annotation) (m : Marks)
      → same b.id a.id ≡ false
      → mark_at a.id m ≡ none
      → mark_at b.id m ≡ none
      → count_marks m ≡ 49
      → count_marks (
          set_both
            (true ∷ false ∷ true ∷ false ∷ true ∷ false ∷ [])
            a
            before_hexists
            b
            before_hexists
            m)
        ≡ 51
  unfolding set_both set_step
  overshoot a b m other new_a new_b full = ground (
    arith,
    new_a,
    new_b,
    full,
    other,
    hlen-hset a.id a m,
    hlen-hset b.id b (put_mark a.id a m),
    hget-hset b.id a.id a m,
  )
