-- ===== src/Room/Authority.antt =====
-- src/room-gateway/room.gateway.ts: whose message may change what in a room.
use livetich_api.Prelude.{
  ℕ, ◌≡◌, refl, ◌∙◌, Text, same, false, ◌&&◌, Option, some, List, [], ◌∷◌, arith, Bool-cases, inl,
  inr,
}
use livetich_api.Identity.{is_student}
use livetich_api.Room.{room_user}
use livetich_api.Room.Stage.{
  OwnedRow, Sender, StageRedis, Stage, owns, Control, forbidden, on_control, on_hand_raise,
  on_hand_lower, Message, control, raise_hand, lower_hand, on_message, on_messages,
}

module _ (r : StageRedis) (get_surah_ayahs : ℕ → Option (List Text))
    (graphemes : Text → List Text) where
  open r.users use {hget, hset, hdel, hget-hset, hget-hdel}
  open r.ids use {sismember, sadd, srem, sismember-sadd, sismember-srem}

  -- None of the messages is from one who may control the room, nor from the user.
  abbrev pub AreOfOthers :
      Text → List (Sender × (Option OwnedRow × Message r get_surah_ayahs graphemes)) → Type 0
  AreOfOthers u [] = Unit {0}
  AreOfOthers u ((s, (row, m)) ∷ ms) =
      (owns s row ≡ false) × (same u s.user.sub ≡ false) × AreOfOthers u ms

  -- The room looks the same, at what the teacher controls and at the user's hand and microphone.
  abbrev pub IsAsBefore :
      Text → Stage r get_surah_ayahs graphemes → Stage r get_surah_ayahs graphemes → Type 0
  IsAsBefore u v w =
      (v.chat_locked ≡ w.chat_locked)
      × (v.view ≡ w.view)
      × (v.theme ≡ w.theme)
      × (v.quran_pos ≡ w.quran_pos)
      × (v.tajweed ≡ w.tajweed)
      × (v.pointing ≡ w.pointing)
      × (hget u v.hands ≡ hget u w.hands)
      × (sismember u v.speakers ≡ sismember u w.speakers)

  IsAsBefore-refl : (u : Text) (w : Stage r get_surah_ayahs graphemes) → IsAsBefore u w w
  IsAsBefore-refl u w = (refl, refl, refl, refl, refl, refl, refl, refl)

  same-IsAsBefore : (u : Text) (v w : Stage r get_surah_ayahs graphemes) → v ≡ w → IsAsBefore u v w
  same-IsAsBefore u v w e = rw e (IsAsBefore-refl u w)

  refused_control :
      (s : Sender) (row : Option OwnedRow) (c : Control r get_surah_ayahs graphemes)
      (w : Stage r get_surah_ayahs graphemes)
      → owns s row ≡ false
      → on_control r get_surah_ayahs graphemes s row c w ≡ (some forbidden, w)
  unfolding on_control
  refused_control s row c w o = rw o refl

  on_message-IsAsBefore :
      (u : Text) (s : Sender) (row : Option OwnedRow) (m : Message r get_surah_ayahs graphemes)
      (w : Stage r get_surah_ayahs graphemes)
      → owns s row ≡ false
      → same u s.user.sub ≡ false
      → IsAsBefore u (on_message r get_surah_ayahs graphemes s row m w) w
  unfolding on_message on_hand_raise on_hand_lower
  on_message-IsAsBefore u s row (control c) w o d =
      same-IsAsBefore u (on_control r get_surah_ayahs graphemes s row c w).1 w
        (rw (refused_control s row c w o) refl)
  on_message-IsAsBefore u s row raise_hand w o d =
      elim (Bool-cases (s.in_room && is_student s.user.role)) [
        | inl e ↦ rw e (
          refl,
          refl,
          refl,
          refl,
          refl,
          refl,
          ground (arith, d, hget-hset u s.user.sub (room_user s.user s.mode) w.hands),
          refl,
        )
        | inr e ↦ rw e (IsAsBefore-refl u w)
      ]
  on_message-IsAsBefore u s row lower_hand w o d = elim (Bool-cases s.in_room) [
    | inr e ↦ rw e (IsAsBefore-refl u w)
    | inl e ↦ rw e (
      refl,
      refl,
      refl,
      refl,
      refl,
      refl,
      ground (arith, d, hget-hdel u s.user.sub w.hands),
      ground (arith, d, sismember-srem u s.user.sub w.speakers),
    )
  ]

  -- Messages of none who may control the room, and none of the user, leave alone what the teacher controls
  -- (the chat's lock, the view, the theme, the page, the live annotations, and what is pointed at), and
  -- the user's hand and microphone.
  pub on_messages-IsAsBefore :
      (u : Text) (ms : List (Sender × (Option OwnedRow × Message r get_surah_ayahs graphemes)))
      (w : Stage r get_surah_ayahs graphemes)
      → AreOfOthers u ms
      → IsAsBefore u (on_messages r get_surah_ayahs graphemes ms w) w
  unfolding on_messages
  on_messages-IsAsBefore u [] w a = IsAsBefore-refl u w
  on_messages-IsAsBefore u ((s, (row, m)) ∷ ms) w (o, d, a) =
      let (c, v, t, q, j, p, h, x) =
        on_messages-IsAsBefore u ms (on_message r get_surah_ayahs graphemes s row m w) a in
      let (c', v', t', q', j', p', h', x') = on_message-IsAsBefore u s row m w o d in
      (c ∙ c', v ∙ v', t ∙ t', q ∙ q', j ∙ j', p ∙ p', h ∙ h', x ∙ x')
