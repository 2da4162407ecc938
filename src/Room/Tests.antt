-- ===== src/Room/Tests.antt =====
-- src/room-gateway/room.gateway.ts: a class of one teacher, one student and a recorder.
use Prim.Native.String.{String}
use livetich_api.Prelude.{
  ℕ, if◌then◌else◌, ◌≡◌, refl, Text, codes, same, true, false, Option, none, some, is_some, arith,
  List, [], ◌∷◌, map,
}
use livetich_api.Identity.{JwtPayload, Role, instructor, student}
use livetich_api.Buzzer.{RoomUser}
use livetich_api.Marks.{whole}
use livetich_api.Redis.{RedisHash}
use livetich_api.Redis.Stored.{stored, members, look_up, count_keys}
use livetich_api.Room.{Client, SessionRow, Room, mode_of, run, Arrival, joins, drops}
use livetich_api.Room.Presence.{Shown, presence_iff}
use livetich_api.Room.Recorder.{visit, recorder_keeps_presence}
use livetich_api.Room.Stage.{
  AnnotationDto, OwnedRow, Sender, StageRedis, Stage, video, owns, Message, control, raise_hand,
  lower_hand, lock_chat, show, grant_mic, on_messages,
}
use livetich_api.Room.Limits.{IsWithin, on_messages-IsWithin}
use livetich_api.Room.Authority.{IsAsBefore, on_messages-IsAsBefore}

abbrev person : String → Role → JwtPayload
person id role = record { sub = codes id; role = role; name = codes id; organization_id = none }

abbrev teacher : JwtPayload
teacher = person "t1" instructor

abbrev pupil : JwtPayload
pupil = person "s1" student

-- The sockets: the recorder's, the teacher's, and any other is the student's.
abbrev who : Text → Client
who id =
    if same id (codes "camera")
    then record { user = teacher; recorder = some (codes "class") }
    else record { user = if same id (codes "desk") then teacher else pupil; recorder = none }

abbrev users : RedisHash RoomUser
users = stored

abbrev class : SessionRow
class = record { ended = false; instructor_id = some (codes "t1"); organization_id = none }

abbrev nobody : Room users who
nobody = record { members = []; presence = []; hands = [] }

abbrev coming : List (Arrival users who)
coming =
    joins (codes "phone") (codes "class") false (some class) true
    ∷ joins (codes "laptop") (codes "class") false (some class) true
    ∷ (drops (codes "phone") ∷ [])

presence_iff_example : Shown users who (λ u. false) (codes "s1") (run users who coming nobody)
unfolding mode_of same look_up
presence_iff_example =
    presence_iff users who (λ u. false) (codes "s1") coming nobody (refl, (refl, (tt, tt)))
      (refl, tt)

abbrev after_class : Room users who
after_class =
    run users who (visit users who (codes "desk") (codes "camera") (codes "class") class) nobody

recorder_keeps_presence_example :
    (after_class.members ≡ []) × (is_some (look_up (codes "t1") after_class.presence) ≡ true)
unfolding same
recorder_keeps_presence_example =
    recorder_keeps_presence users who (codes "desk") (codes "camera") (codes "class") class nobody
      refl refl refl refl refl refl refl refl refl

abbrev keys : StageRedis
keys = record { users = stored; marks = stored; ids = members }

abbrev text : ℕ → Option (List Text)
text n = some (codes "ab cde" ∷ [])

abbrev units : Text → List Text
units t = map (λ c. c ∷ []) t

abbrev quiet : Stage keys text units
quiet = record {
  chat_locked = false;
  view = video;
  theme = codes "teal";
  quran_pos = none;
  tajweed = [];
  pointing = [];
  hands = [];
  speakers = [];
}

abbrev lesson : OwnedRow
lesson = record {
  instructor_id = some (codes "t1");
  organization_id = none;
  islamic_education = true;
  code_instruction = false;
  mic_requires_raised_hand = true;
}

abbrev sent_by : JwtPayload → Sender
sent_by user = record {
  user = user;
  mode = record { teaching = false; shadow = false };
  in_room = true;
}

abbrev drawn : AnnotationDto
drawn = record {
  id = some (codes "mark-0001");
  rule = some (codes "madd.lin");
  parts = some (
      record {
        surah_number = whole 1;
        ayah_number = whole 1;
        word_index = some (whole 1);
        letter_index = none;
      }
      ∷ []);
  custom_label = none;
  style = none;
  color = none;
  note = some (codes "<b>");
  ttl_sec = 9000;
}

abbrev said : List (Sender × (Option OwnedRow × Message keys text units))
said =
    (sent_by pupil, (some lesson, raise_hand))
    ∷ ((sent_by teacher, (some lesson, control (show drawn 0)))
        ∷ ((sent_by teacher, (some lesson, control (grant_mic (codes "s1")))) ∷ []))

on_messages-IsWithin_example :
    IsWithin keys text units (codes "mark-0001") (on_messages keys text units said quiet)
unfolding same look_up count_keys
on_messages-IsWithin_example =
    on_messages-IsWithin keys text units said (codes "mark-0001") quiet
      (omega arith, tt, (tt, tt), refl, refl)

abbrev from_pupil : List (Sender × (Option OwnedRow × Message keys text units))
from_pupil =
    (sent_by pupil, (some lesson, raise_hand))
    ∷ ((sent_by pupil, (some lesson, control (lock_chat true)))
        ∷ ((sent_by pupil, (some lesson, lower_hand)) ∷ []))

on_messages-IsAsBefore_example :
    IsAsBefore keys text units (codes "s2") (on_messages keys text units from_pupil quiet) quiet
unfolding owns same
on_messages-IsAsBefore_example =
    on_messages-IsAsBefore keys text units (codes "s2") from_pupil quiet
      (refl, refl, (refl, refl, (refl, refl, tt)))
