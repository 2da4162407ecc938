-- ===== src/Room/Limits.antt =====
-- src/room-gateway/room.gateway.ts: what a room may hold, whatever its messages.
use livetich_api.Prelude.{
  ℕ, ◌≤◌, leb, if◌then◌else◌, ◌≡◌, refl, Text, same, Bool, true, false, not, ◌&&◌, ◌||◌, Option,
  none, some, is_some, List, [], ◌∷◌, any, All, length, arith, Option-cases, ◌⊎◌, inl, inr,
  Bool-cases,
}
use livetich_api.Marks.{PartRef, NormalizedPart, max_parts, validate_parts, accepted, first_ayah_of}
use livetich_api.Marks.Order.{InOrder}
use livetich_api.Marks.Outcomes.{Outcome-cases}
use livetich_api.Marks.Parts.{is_there, validate_parts_lem}
use livetich_api.Tajweed.{is_tajweed_rule, is_annotation_id, is_hex_color, clean_text, is_empty}
use livetich_api.Tajweed.Clean.{has_tag, has_control, clean_text_lem}
use livetich_api.Identity.{is_student}
use livetich_api.Room.Stage.{
  Annotation, AnnotationDto, OwnedRow, Sender, StageRedis, Stage, packs, room_schemes,
  tajweed_live_max, is_custom, color_of, view_of, is_view_enabled, on_chat_lock, on_view_change,
  on_theme_change, on_quran_navigate, set_step, set_tajweed_temporary, shown_as, lacks_label,
  annotation_of, on_tajweed_temporary_set, on_tajweed_temporary_clear, is_nothing,
  on_tajweed_pointing_set, on_pick_random, on_mic_grant, on_mic_revoke, Control, lock_chat,
  change_view, change_theme, navigate, show, clear, point, stop_pointing, pick_random, grant_mic,
  revoke_mic, controlled, on_control, owns, on_hand_raise, on_hand_lower, Message, control,
  raise_hand, lower_hand, on_message, on_messages,
}

-- A label or a note that may be shown.
abbrev pub IsShowable : ℕ → Option Text → Type 0
IsShowable n none = Unit {0}
IsShowable n (some t) =
    (is_empty t ≡ false) × (length t ≤ n) × (has_tag t ≡ false) × (has_control t ≡ false)

clean_text-IsShowable : (n : ℕ) (v : Option Text) → IsShowable n (clean_text v n)
clean_text-IsShowable n v = elim (Option-cases (clean_text v n)) [
  | inl e ↦ rw e tt
  | inr (t, e) ↦ rw e (clean_text_lem v n t e)
]

abbrev pub has_color : Option Text → Bool
has_color none = true
has_color (some c) = is_hex_color c

color_of-has_color : (v : Option Text) → has_color (color_of v) ≡ true
color_of-has_color none = refl
color_of-has_color (some c) = ground arith

abbrev pub is_on_page : Option (ℕ × ℕ) → Bool
is_on_page none = true
is_on_page (some (surah, ayah)) = leb 1 surah && (leb surah 114 && leb 1 ayah)

module _ (r : StageRedis) (get_surah_ayahs : ℕ → Option (List Text))
    (graphemes : Text → List Text) where
  open r.marks use {
    Hash as Marks, hget as mark_at, hset as put_mark, hdel as drop_mark, hlen as count_marks,
    empty as no_marks, hget-empty, hget-hset, hget-hdel, hlen-empty, hlen-hset, hlen-hdel,
  }

  abbrev pub AreInText : List NormalizedPart → Type 0
  AreInText ps = InOrder ps × All (λ p. is_there get_surah_ayahs graphemes p ≡ true) ps

  abbrev pub IsValid : Annotation → Type 0
  IsValid a =
      (is_annotation_id a.id ≡ true)
      × (is_tajweed_rule (some a.rule) ≡ true)
      × AreInText a.parts
      × (first_ayah_of a.parts ≡ some (a.surah_number, a.ayah_number))
      × IsShowable 60 a.custom_label
      × ((not (is_custom a.rule) || is_some a.custom_label) ≡ true)
      × (has_color a.color ≡ true)
      × IsShowable 1000 a.note

  -- What the hash may hold at a key.
  abbrev pub IsMark : Text → Option Annotation → Type 0
  IsMark k none = Unit {0}
  IsMark k (some a) = (same k a.id ≡ true) × IsValid a

  -- What a room may hold, with the key of the hash of annotations that is looked at.
  abbrev pub IsWithin : Text → Stage r get_surah_ayahs graphemes → Type 0
  IsWithin k w =
      (count_marks w.tajweed ≤ tajweed_live_max)
      × IsMark k (mark_at k w.tajweed)
      × AreInText w.pointing
      × (is_on_page w.quran_pos ≡ true)
      × (any (λ s. same s w.theme) room_schemes ≡ true)

  validate_parts-AreInText :
      (list : Option (List PartRef)) (res : List NormalizedPart)
      → validate_parts get_surah_ayahs graphemes list max_parts ≡ accepted res
      → AreInText res
  validate_parts-AreInText list res h =
      let any_part : NormalizedPart = record {
        surah_number = 0;
        ayah_number = 0;
        word_index = none;
        letter_index = none;
      } in
      let (o, a, m) = validate_parts_lem get_surah_ayahs graphemes list max_parts res any_part h in
      (o, a)

  shown_as-IsValid :
      (dto : AnnotationDto) (now : ℕ) (id rule : Text) (parts : List NormalizedPart) (at : ℕ × ℕ)
      → is_annotation_id id ≡ true
      → is_tajweed_rule (some rule) ≡ true
      → AreInText parts
      → first_ayah_of parts ≡ some at
      → lacks_label r get_surah_ayahs graphemes dto rule ≡ false
      → IsValid (shown_as r get_surah_ayahs graphemes dto now id rule parts at)
  shown_as-IsValid dto now id rule parts (s, y) i t p f l = (
    i,
    t,
    p,
    f,
    clean_text-IsShowable 60 dto.custom_label,
    ground arith,
    color_of-has_color dto.color,
    clean_text-IsShowable 1000 dto.note,
  )

  -- An annotation that the checks let through is one that they describe.
  annotation_of-shown_as :
      (dto : AnnotationDto) (now : ℕ)
      → (annotation_of r get_surah_ayahs graphemes dto now ≡ none)
        ⊎ ((a : Annotation) × (annotation_of r get_surah_ayahs graphemes dto now ≡ some a)
            × IsValid a)
  unfolding annotation_of
  annotation_of-shown_as dto now = elim (Option-cases dto.id) [
    | inl e ↦ inl (ground (arith, e))
    | inr (id, e) ↦ elim (Option-cases dto.rule) [
      | inl f ↦ inl (ground (arith, e, f))
      | inr (rule, f) ↦ elim (Bool-cases (is_annotation_id id && is_tajweed_rule (some rule))) [
        | inr b ↦ inl (ground (arith, e, f, b))
        | inl b ↦
            elim (Outcome-cases (validate_parts get_surah_ayahs graphemes dto.parts max_parts)) [
              | inl (x, g) ↦ inl (ground (arith, e, f, b, g))
              | inr (parts, g) ↦ elim (Option-cases (first_ayah_of parts)) [
                | inl y ↦ inl (ground (arith, e, f, b, g, y))
                | inr (at, y) ↦
                    elim (Bool-cases (lacks_label r get_surah_ayahs graphemes dto rule)) [
                      | inl z ↦ inl (ground (arith, e, f, b, g, y, z))
                      | inr z ↦ inr (
                        shown_as r get_surah_ayahs graphemes dto now id rule parts at,
                        ground (arith, e, f, b, g, y, z),
                        shown_as-IsValid dto now id rule parts at (ground arith) (ground arith)
                            (validate_parts-AreInText dto.parts parts g) y z,
                      )
                    ]
              ]
            ]
      ]
    ]
  ]

  IsMark-hset :
      (a : Annotation) (m : Marks) (k : Text)
      → IsValid a
      → IsMark k (mark_at k m)
      → IsMark k (mark_at k (put_mark a.id a m))
  IsMark-hset a m k v h = elim (Bool-cases (same k a.id)) [
    | inl e ↦
        let at : mark_at k (put_mark a.id a m) ≡ some a = ground (arith, hget-hset k a.id a m, e) in
        rw at (e, v)
    | inr e ↦
        let at : mark_at k (put_mark a.id a m) ≡ mark_at k m =
          ground (arith, hget-hset k a.id a m, e) in
        rw at h
  ]

  -- With nothing between its commands, an annotation is refused if it is new and the hash is full.
  set_tajweed_temporary_alone :
      (a : Annotation) (m : Marks)
      → set_tajweed_temporary r get_surah_ayahs graphemes a m ≡ (
          if not (is_some (mark_at a.id m)) && leb tajweed_live_max (count_marks m)
          then (false, m)
          else (true, put_mark a.id a m))
  unfolding set_tajweed_temporary set_step
  set_tajweed_temporary_alone a m = elim (Bool-cases (is_some (mark_at a.id m))) [
    | inl e ↦ rw e refl
    | inr e ↦ elim (Bool-cases (leb tajweed_live_max (count_marks m))) [
      | inl f ↦ rw (e, f) refl
      | inr f ↦ rw (e, f) refl
    ]
  ]

  set_tajweed_temporary_lem :
      (a : Annotation) (m : Marks) (k : Text)
      → IsValid a
      → count_marks m ≤ tajweed_live_max
      → IsMark k (mark_at k m)
      → (count_marks (set_tajweed_temporary r get_surah_ayahs graphemes a m).1 ≤ tajweed_live_max)
        × IsMark k (mark_at k (set_tajweed_temporary r get_surah_ayahs graphemes a m).1)
  set_tajweed_temporary_lem a m k v c h =
      rw set_tajweed_temporary_alone
        (elim (Bool-cases
          (not (is_some (mark_at a.id m)) && leb tajweed_live_max (count_marks m))) [
            | inl e ↦ rw e (c, h)
            | inr e ↦ rw e (ground (arith, c, e, hlen-hset a.id a m), IsMark-hset a m k v h)
          ])

  IsMark-hdel :
      (id : Text) (m : Marks) (k : Text)
      → IsMark k (mark_at k m)
      → IsMark k (mark_at k (drop_mark id m))
  IsMark-hdel id m k h = elim (Bool-cases (same k id)) [
    | inl e ↦
        let at : mark_at k (drop_mark id m) ≡ none = ground (arith, hget-hdel k id m, e) in rw at tt
    | inr e ↦
        let at : mark_at k (drop_mark id m) ≡ mark_at k m = ground (arith, hget-hdel k id m, e) in
        rw at h
  ]

  clear_marks_lem :
      (id : Option Text) (k : Text) (w : Stage r get_surah_ayahs graphemes)
      → IsWithin k w
      → IsWithin k (on_tajweed_temporary_clear r get_surah_ayahs graphemes id w).1
  unfolding on_tajweed_temporary_clear
  clear_marks_lem none k w (c, h, p, q, t) =
      (ground (arith, hlen-empty), rw (hget-empty k) tt, p, q, t)
  clear_marks_lem (some id) k w (c, h, p, q, t) = elim (Bool-cases (is_annotation_id id)) [
    | inl e ↦
        rw e (ground (arith, c, hlen-hdel id w.tajweed), IsMark-hdel id w.tajweed k h, p, q, t)
    | inr e ↦ rw e (ground (arith, hlen-empty), rw (hget-empty k) tt, p, q, t)
  ]

  show_mark_lem :
      (row : Option OwnedRow) (dto : AnnotationDto) (now : ℕ) (k : Text)
      (w : Stage r get_surah_ayahs graphemes)
      → IsWithin k w
      → IsWithin k (on_tajweed_temporary_set r get_surah_ayahs graphemes row dto now w).1
  unfolding on_tajweed_temporary_set
  show_mark_lem row dto now k w (c, h, p, q, t) =
      elim (Bool-cases (packs row (λ o. o.islamic_education))) [
        | inr e ↦ rw e (c, h, p, q, t)
        | inl e ↦ elim (annotation_of-shown_as dto now) [
          | inl f ↦ rw (e, f) (c, h, p, q, t)
          | inr (a, f, v) ↦
              let (c', h') = set_tajweed_temporary_lem a w.tajweed k v c h in
              elim (Bool-cases (set_tajweed_temporary r get_surah_ayahs graphemes a w.tajweed).0) [
                | inl b ↦ rw (e, f, b) (c', h', p, q, t)
                | inr b ↦ rw (e, f, b) (c, h, p, q, t)
              ]
        ]
      ]

  point_lem :
      (parts : Option (List PartRef)) (k : Text) (w : Stage r get_surah_ayahs graphemes)
      → IsWithin k w
      → IsWithin k (on_tajweed_pointing_set r get_surah_ayahs graphemes parts w).1
  unfolding on_tajweed_pointing_set
  point_lem parts k w (c, h, p, q, t) =
      elim (Bool-cases (is_nothing r get_surah_ayahs graphemes parts)) [
        | inl e ↦ rw e (c, h, (tt, tt), q, t)
        | inr e ↦ elim (Outcome-cases (validate_parts get_surah_ayahs graphemes parts max_parts)) [
          | inl (x, f) ↦ rw (e, f) (c, h, p, q, t)
          | inr (ps, f) ↦ rw (e, f) (c, h, validate_parts-AreInText parts ps f, q, t)
        ]
      ]

  controlled-IsWithin :
      (row : Option OwnedRow) (x : Control r get_surah_ayahs graphemes) (k : Text)
      (w : Stage r get_surah_ayahs graphemes)
      → IsWithin k w
      → IsWithin k (controlled r get_surah_ayahs graphemes row x w).1
  unfolding controlled on_chat_lock on_view_change on_theme_change on_quran_navigate on_pick_random
      on_mic_grant on_mic_revoke
  controlled-IsWithin row (lock_chat b) k w h = h
  controlled-IsWithin row (change_view v) k w h =
      elim (Bool-cases (packs row (is_view_enabled (view_of v)))) [
        | inl e ↦ rw e h
        | inr e ↦ rw e h
      ]
  controlled-IsWithin row (change_theme v) k w (c, h, p, q, t) =
      elim (Bool-cases (any (λ s. same s v) room_schemes)) [
        | inl e ↦ rw e (c, h, p, q, e)
        | inr e ↦ rw e (c, h, p, q, t)
      ]
  controlled-IsWithin row (navigate surah ayah) k w (c, h, p, q, t) =
      elim (Bool-cases (packs row (λ o. o.islamic_education))) [
        | inl e ↦ rw e (c, h, p, ground arith, t)
        | inr e ↦ rw e (c, h, p, q, t)
      ]
  controlled-IsWithin row (show dto now) k w h = show_mark_lem row dto now k w h
  controlled-IsWithin row (clear id) k w h = clear_marks_lem id k w h
  controlled-IsWithin row (point parts) k w h = point_lem parts k w h
  controlled-IsWithin row stop_pointing k w (c, h, p, q, t) = (c, h, (tt, tt), q, t)
  controlled-IsWithin row (pick_random none) k w h = h
  controlled-IsWithin row (pick_random (some u)) k w h = h
  controlled-IsWithin row (grant_mic u) k w h =
      elim (Bool-cases
        (packs row (λ o. o.mic_requires_raised_hand) && not (is_some (r.users.hget u w.hands)))) [
          | inl e ↦ rw e h
          | inr e ↦ rw e h
        ]
  controlled-IsWithin row (revoke_mic u) k w h = h

  on_control-IsWithin :
      (s : Sender) (row : Option OwnedRow) (c : Control r get_surah_ayahs graphemes) (k : Text)
      (w : Stage r get_surah_ayahs graphemes)
      → IsWithin k w
      → IsWithin k (on_control r get_surah_ayahs graphemes s row c w).1
  unfolding on_control
  on_control-IsWithin s row c k w h = elim (Bool-cases (owns s row)) [
    | inl e ↦ rw e (controlled-IsWithin row c k w h)
    | inr e ↦ rw e h
  ]

  on_message-IsWithin :
      (s : Sender) (row : Option OwnedRow) (m : Message r get_surah_ayahs graphemes) (k : Text)
      (w : Stage r get_surah_ayahs graphemes)
      → IsWithin k w
      → IsWithin k (on_message r get_surah_ayahs graphemes s row m w)
  unfolding on_message on_hand_raise on_hand_lower
  on_message-IsWithin s row (control c) k w h = on_control-IsWithin s row c k w h
  on_message-IsWithin s row raise_hand k w h =
      elim (Bool-cases (s.in_room && is_student s.user.role)) [ inl e ↦ rw e h | inr e ↦ rw e h ]
  on_message-IsWithin s row lower_hand k w h = elim (Bool-cases s.in_room) [
    | inl e ↦ rw e h
    | inr e ↦ rw e h
  ]

  -- When messages are handled one after the other, each to its end before the next, then whatever is
  -- sent to a room that holds what it may, and by whom, the room still does: at most 50 live
  -- annotations, each under its own id, of a known rule and with pieces that are in the text, in
  -- reading order, the first ayah of which it names, a label if the rule is the teacher's own, a colour
  -- of six digits, and a label and a note that are short and have no tag; pieces that are pointed at
  -- likewise; a surah that exists; and a theme that exists.
  pub on_messages-IsWithin :
      (ms : List (Sender × (Option OwnedRow × Message r get_surah_ayahs graphemes))) (k : Text)
      (w : Stage r get_surah_ayahs graphemes)
      → IsWithin k w
      → IsWithin k (on_messages r get_surah_ayahs graphemes ms w)
  unfolding on_messages
  on_messages-IsWithin [] k w h = h
  on_messages-IsWithin ((s, (row, m)) ∷ ms) k w h =
      on_messages-IsWithin ms k (on_message r get_surah_ayahs graphemes s row m w)
        (on_message-IsWithin s row m k w h)
