-- ===== src/Room/Stage.antt =====
-- src/room-gateway/room.gateway.ts over src/room-gateway/room-state.service.ts: what the teacher of one
-- live room controls. Each message is handled to its end before the next; only the commands of
-- `setTajweedTemporary` also stand alone. What is emitted follows the state and is not kept. Numbers from the wire are
-- given truncated, with 0 for what is negative or no number.
use livetich_api.Prelude.{
  ℕ, ◌+◌, ◌*◌, ltb, leb, min, max, if◌then◌else◌, Text, codes, same, same_option, Bool, true, false,
  not, ◌&&◌, ◌||◌, Option, none, some, is_some, List, [], ◌∷◌, any,
}
use livetich_api.Identity.{JwtPayload, is_student, is_org_admin, is_instructor}
use livetich_api.Buzzer.{RoomUser}
use livetich_api.Marks.{
  PartRef, NormalizedPart, refused, accepted, max_parts, validate_parts, first_ayah_of,
}
use livetich_api.Tajweed.{is_tajweed_rule, is_annotation_id, is_hex_color, clean_text}
use livetich_api.Room.{Mode, room_user}
use livetich_api.Redis.{RedisHash, RedisSet}

pub data StageView : Type 0 where
  video board quran code_ : StageView

pub data Style : Type 0 where
  highlight underline : Style

pub record Annotation : Type 0 where
  pub id : Text
  pub surah_number : ℕ
  pub ayah_number : ℕ
  pub parts : List NormalizedPart
  pub rule : Text
  pub custom_label : Option Text
  pub style : Style
  pub color : Option Text
  pub note : Option Text
  pub expires_at : Option ℕ

-- What a client sends for a live annotation: `none` where a value is not a text, or not a list.
pub record AnnotationDto : Type 0 where
  pub id : Option Text
  pub rule : Option Text
  pub parts : Option (List PartRef)
  pub custom_label : Option Text
  pub style : Option Text
  pub color : Option Text
  pub note : Option Text
  pub ttl_sec : ℕ

-- `setTajweedTemporary` between its awaits: which command it has still to send, or what it returned.
pub data Setting : Type 0 where
  before_hexists before_hlen before_hset : Setting
  returned : Bool → Setting

abbrev pub has_fit : Setting → Bool
has_fit before_hexists = false
has_fit before_hlen = false
has_fit before_hset = false
has_fit (returned fits) = fits

pub data StageError : Type 0 where
  forbidden plugin_disabled bad_scheme bad_request limit no_hands mic_needs_hand : StageError

-- What `ownedSession` and the entitlement check look up: the session's course and organisation.
pub record OwnedRow : Type 0 where
  pub instructor_id : Option Text
  pub organization_id : Option Text
  pub islamic_education : Bool
  pub code_instruction : Bool
  pub mic_requires_raised_hand : Bool

-- The socket that sends the message: the claims, the flags, and whether it has joined the room.
pub record Sender : Type 0 where
  pub user : JwtPayload
  pub mode : Mode
  pub in_room : Bool

-- `ownedSession`: the session is the instructor's, or of the organisation of an admin who teaches.
unfoldable pub owns : Sender → Option OwnedRow → Bool
owns s none = false
owns s (some row) =
    if is_instructor s.user.role
    then same_option row.instructor_id (some s.user.sub)
    else is_org_admin s.user.role
      && (s.mode.teaching && same_option row.organization_id s.user.organization_id)

abbrev pub packs : Option OwnedRow → (OwnedRow → Bool) → Bool
packs none f = false
packs (some row) f = f row

abbrev pub room_schemes : List Text
room_schemes = codes "teal" ∷ codes "forest" ∷ codes "indigo" ∷ codes "plum" ∷ []

-- `p.view === 'board' || p.view === 'quran' || p.view === 'code' ? p.view : 'video'`
unfoldable pub view_of : Text → StageView
view_of v =
    if same v (codes "board")
    then board
    else if same v (codes "quran")
    then quran
    else if same v (codes "code")
    then code_
    else video

abbrev pub is_view_enabled : StageView → OwnedRow → Bool
is_view_enabled video row = true
is_view_enabled board row = true
is_view_enabled quran row = row.islamic_education
is_view_enabled code_ row = row.code_instruction

abbrev pub tajweed_live_max : ℕ
tajweed_live_max = 50

abbrev pub is_custom : Text → Bool
is_custom rule = same rule (codes "custom")

abbrev pub style_of : Option Text → Style
style_of none = highlight
style_of (some s) = if same s (codes "UNDERLINE") then underline else highlight

abbrev pub color_of : Option Text → Option Text
color_of none = none
color_of (some c) = if is_hex_color c then some c else none

-- The keys of Redis that a stage uses.
pub record StageRedis : Type 1 where
  pub users : RedisHash RoomUser
  pub marks : RedisHash Annotation
  pub ids : RedisSet

module _ (r : StageRedis) (get_surah_ayahs : ℕ → Option (List Text))
    (graphemes : Text → List Text) where
  open r.users use {
    Hash as Users, hget as user_at, hset as put_user, hdel as drop_user, empty as no_users,
  }
  open r.marks use {
    Hash as Marks, hget as mark_at, hset as put_mark, hdel as drop_mark, hlen as count_marks,
    empty as no_marks,
  }
  open r.ids use {Members as Ids, sadd, srem, sismember}

  pub record Stage : Type 0 where
    pub chat_locked : Bool
    pub view : StageView
    pub theme : Text
    pub quran_pos : Option (ℕ × ℕ)
    pub tajweed : Marks
    pub pointing : List NormalizedPart
    pub hands : Users
    pub speakers : Ids

  unfoldable pub on_chat_lock : Bool → Stage → Option StageError × Stage
  on_chat_lock locked w = (none, record w { chat_locked = locked })

  unfoldable pub on_view_change : Option OwnedRow → Text → Stage → Option StageError × Stage
  on_view_change row v w =
      if packs row (is_view_enabled (view_of v))
      then (none, record w { view = view_of v })
      else (some plugin_disabled, w)

  unfoldable pub on_theme_change : Text → Stage → Option StageError × Stage
  on_theme_change scheme w =
      if any (λ s. same s scheme) room_schemes
      then (none, record w { theme = scheme })
      else (some bad_scheme, w)

  unfoldable pub on_quran_navigate : Option OwnedRow → ℕ → ℕ → Stage → Option StageError × Stage
  on_quran_navigate row surah ayah w =
      if packs row (λ o. o.islamic_education)
      then (none, record w { quran_pos = some (min 114 (max 1 surah), max 1 ayah) })
      else (some plugin_disabled, w)

  -- One of its commands, on the hash as the command finds it.
  unfoldable pub set_step : Annotation → Setting → Marks → Setting × Marks
  set_step a before_hexists m = (if is_some (mark_at a.id m) then before_hset else before_hlen, m)
  set_step a before_hlen m =
      (if leb tajweed_live_max (count_marks m) then returned false else before_hset, m)
  set_step a before_hset m = (returned true, put_mark a.id a m)
  set_step a (returned fits) m = (returned fits, m)

  -- `setTajweedTemporary` when nothing comes between its commands: whether there was room, and the hash.
  unfoldable pub set_tajweed_temporary : Annotation → Marks → Bool × Marks
  unfolding set_step
  set_tajweed_temporary a m =
      let looked = set_step a before_hexists m in
      let counted = set_step a looked.0 looked.1 in
      let written = set_step a counted.0 counted.1 in (has_fit written.0, written.1)

  -- The annotation that is shown, once the checks have given its parts and its first ayah.
  abbrev pub shown_as : AnnotationDto → ℕ → Text → Text → List NormalizedPart → ℕ × ℕ → Annotation
  shown_as a now id rule parts (surah, ayah) = record {
    id = id;
    surah_number = surah;
    ayah_number = ayah;
    parts = parts;
    rule = rule;
    custom_label = clean_text a.custom_label 60;
    style = style_of a.style;
    color = color_of a.color;
    note = clean_text a.note 1000;
    expires_at =
        if ltb 0 (min 3600 a.ttl_sec) then some (now + min 3600 a.ttl_sec * 1000) else none;
  }

  abbrev pub lacks_label : AnnotationDto → Text → Bool
  lacks_label a rule = is_custom rule && not (is_some (clean_text a.custom_label 60))

  -- The checks in their order, `none` where one of them refuses what was sent.
  unfoldable pub annotation_of : AnnotationDto → ℕ → Option Annotation
  annotation_of a now = elim a.id [
    | none ↦ none
    | some id ↦ elim a.rule [
      | none ↦ none
      | some rule ↦
          if not (is_annotation_id id) || not (is_tajweed_rule (some rule))
          then none
          else elim (validate_parts get_surah_ayahs graphemes a.parts max_parts) [
            | refused e ↦ none
            | accepted parts ↦ elim (first_ayah_of parts) [
              | none ↦ none
              | some at ↦
                  if lacks_label a rule then none else some (shown_as a now id rule parts at)
            ]
          ]
    ]
  ]

  unfoldable pub on_tajweed_temporary_set :
      Option OwnedRow → AnnotationDto → ℕ → Stage → Option StageError × Stage
  on_tajweed_temporary_set row dto now w =
      if not (packs row (λ o. o.islamic_education))
      then (some plugin_disabled, w)
      else elim (annotation_of dto now) [
        | none ↦ (some bad_request, w)
        | some a ↦
            let (fits, m) = set_tajweed_temporary a w.tajweed in
            if fits then (none, record w { tajweed = m }) else (some limit, w)
      ]

  -- An id that is not of the form of one clears them all.
  unfoldable pub on_tajweed_temporary_clear : Option Text → Stage → Option StageError × Stage
  on_tajweed_temporary_clear none w = (none, record w { tajweed = no_marks })
  on_tajweed_temporary_clear (some id) w = (
    none,
    record w { tajweed = if is_annotation_id id then drop_mark id w.tajweed else no_marks },
  )

  abbrev pub is_nothing : Option (List PartRef) → Bool
  is_nothing none = true
  is_nothing (some []) = true
  is_nothing (some (p ∷ ps)) = false

  unfoldable pub on_tajweed_pointing_set : Option (List PartRef) → Stage → Option StageError × Stage
  on_tajweed_pointing_set parts w =
      if is_nothing parts
      then (none, record w { pointing = [] })
      else elim (validate_parts get_surah_ayahs graphemes parts max_parts) [
        | refused e ↦ (some bad_request, w)
        | accepted ps ↦ (none, record w { pointing = ps })
      ]

  -- `randomHand` picks `picked`, a user whose hand is up, if there is one.
  unfoldable pub on_pick_random : Option RoomUser → Stage → Option StageError × Stage
  on_pick_random none w = (some no_hands, w)
  on_pick_random (some u) w =
      (none, record w { hands = no_users; speakers = sadd u.user_id w.speakers })

  unfoldable pub on_mic_grant : Option OwnedRow → Text → Stage → Option StageError × Stage
  on_mic_grant row user w =
      if packs row (λ o. o.mic_requires_raised_hand) && not (is_some (user_at user w.hands))
      then (some mic_needs_hand, w)
      else (none, record w { speakers = sadd user w.speakers })

  unfoldable pub on_mic_revoke : Text → Stage → Option StageError × Stage
  on_mic_revoke user w = (none, record w { speakers = srem user w.speakers })

  pub data Control : Type 0 where
    lock_chat : Bool → Control
    change_view change_theme : Text → Control
    navigate : ℕ → ℕ → Control
    show : AnnotationDto → ℕ → Control
    clear : Option Text → Control
    point : Option (List PartRef) → Control
    stop_pointing : Control
    pick_random : Option RoomUser → Control
    grant_mic revoke_mic : Text → Control

  -- The body of each message, after `ownedSession`.
  unfoldable pub controlled : Option OwnedRow → Control → Stage → Option StageError × Stage
  controlled row (lock_chat locked) w = on_chat_lock locked w
  controlled row (change_view v) w = on_view_change row v w
  controlled row (change_theme scheme) w = on_theme_change scheme w
  controlled row (navigate surah ayah) w = on_quran_navigate row surah ayah w
  controlled row (show dto now) w = on_tajweed_temporary_set row dto now w
  controlled row (clear id) w = on_tajweed_temporary_clear id w
  controlled row (point parts) w = on_tajweed_pointing_set parts w
  controlled row stop_pointing w = (none, record w { pointing = [] })
  controlled row (pick_random picked) w = on_pick_random picked w
  controlled row (grant_mic user) w = on_mic_grant row user w
  controlled row (revoke_mic user) w = on_mic_revoke user w

  unfoldable pub on_control : Sender → Option OwnedRow → Control → Stage → Option StageError × Stage
  on_control s row c w = if owns s row then controlled row c w else (some forbidden, w)

  unfoldable pub on_hand_raise : Sender → Stage → Stage
  on_hand_raise s w =
      if s.in_room && is_student s.user.role
      then record w { hands = put_user s.user.sub (room_user s.user s.mode) w.hands }
      else w

  unfoldable pub on_hand_lower : Sender → Option OwnedRow → Stage → Stage
  on_hand_lower s row w = if not s.in_room then w else record w {
    hands = drop_user s.user.sub w.hands;
    speakers =
        if packs row (λ o. o.mic_requires_raised_hand) && sismember s.user.sub w.speakers
        then srem s.user.sub w.speakers
        else w.speakers;
  }

  pub data Message : Type 0 where
    control : Control → Message
    raise_hand lower_hand : Message

  unfoldable pub on_message : Sender → Option OwnedRow → Message → Stage → Stage
  on_message s row (control c) w = (on_control s row c w).1
  on_message s row raise_hand w = on_hand_raise s w
  on_message s row lower_hand w = on_hand_lower s row w

  unfoldable pub on_messages : List (Sender × (Option OwnedRow × Message)) → Stage → Stage
  on_messages [] w = w
  on_messages ((s, (row, m)) ∷ ms) w = on_messages ms (on_message s row m w)
