-- ===== src/Code/Numbers.antt =====
-- src/code/code.gateway.ts: the numbers that a source gives its cursor and pointer events, where one is
-- accepted.
use livetich_api.Prelude.{
  ℕ, ◌+◌, ◌≤◌, ◌<◌, leb, if◌then◌else◌, ◌≡◌, refl, Text, same, same_iff, true, ◌&&◌, is_some, List,
  [], ◌∷◌, ◌++◌, length, arith, Option-cases, Bool-cases, inl, inr,
}
use livetich_api.Prelude.Dict
use livetich_api.Prelude.Dict.{Dict, get-set}
use livetich_api.Code.Gateway.{
  SocketData, CodeEntry, PointerKind, Outside, Emission, others, everyone, failed, cursor_sent,
  pointer_sent, awareness, code_update, tree_sent, focus_sent, sidebar_sent, folders_sent,
  permission_sent, tab_close_sent, passed_on, in_window, count_in, Result, nothing, or_zero,
  accept_source_sequence,
}
use livetich_api.Code.Messages.{is_move, place_cursor, place_pointer}

-- The last number that a source has given, 0 before the first.
abbrev pub last_number : Text → SocketData → ℕ
last_number s c = or_zero (Dict.get s c.source_sequences)

-- Each number is greater than the one before; the first comes after `m`, the last is at most `n`.
abbrev pub Ascends : ℕ → ℕ → List ℕ → Type 0
Ascends m n [] = m ≤ n
Ascends m n (k ∷ ks) = (m < k) × Ascends k n ks

pub Ascends-++ :
    (l m n : ℕ) (xs ys : List ℕ) → Ascends l m xs → Ascends m n ys → Ascends l n (xs ++ ys)
Ascends-++ l m n [] [] h k = omega (arith, h, k)
Ascends-++ l m n [] (y ∷ ys) h (k, ks) = (omega (arith, h, k), ks)
Ascends-++ l m n (x ∷ xs) ys (h, hs) k = (h, Ascends-++ x m n xs ys hs k)

pub length-set :
    (s : Text) (n : ℕ) (d : Dict ℕ)
    → length (Dict.set s n d) ≡ length d + (if is_some (Dict.get s d) then 0 else 1)
unfolding Dict.set Dict.get
length-set s n [] = refl
length-set s n ((k, v) ∷ d) = ground (arith, length-set s n d)

-- A source is remembered by its number; a socket has at most 16 of them.
abbrev pub IsBounded : SocketData → Type 0
IsBounded c = length c.source_sequences ≤ 16

pub accept_lem :
    (s source : Text) (n : ℕ) (c : SocketData)
    → IsBounded c
    → IsBounded (accept_source_sequence source n c).1
      × (last_number s (accept_source_sequence source n c).1
          ≡ (if (accept_source_sequence source n c).0 && same source s then n else last_number s c))
      × ((if (accept_source_sequence source n c).0 then last_number source c + 1 else 0) ≤ n)
unfolding accept_source_sequence
accept_lem s source n c b = elim (Option-cases (Dict.get source c.source_sequences)) [
  | inl e ↦ (
    ground (arith, e, b, length-set source n c.source_sequences),
    ground (arith, e, get-set source s n c.source_sequences),
    ground (arith, e),
  )
  | inr (k, e) ↦ (
    ground (arith, e, b, length-set source n c.source_sequences),
    ground (arith, e, get-set source s n c.source_sequences),
    ground (arith, e),
  )
]

module _ (o : Outside) where
  open o use {yjs}

  -- The numbers of the source's events that were sent on.
  abbrev pub number_of : Text → Emission o → List ℕ
  number_of s (failed x) = []
  number_of s (everyone x) = []
  number_of s (others x) = elim x [
    | cursor_sent source n p ↦ if same source s then n ∷ [] else []
    | pointer_sent source n p ↦ if same source s then n ∷ [] else []
    | awareness u ↦ []
    | code_update u ↦ []
    | tree_sent t ↦ []
    | focus_sent f ↦ []
    | sidebar_sent t ↦ []
    | folders_sent fs ↦ []
    | permission_sent p ↦ []
    | tab_close_sent f ↦ []
    | passed_on ↦ []
  ]

  unfoldable pub numbers_of : Text → List (Emission o) → List ℕ
  numbers_of s [] = []
  numbers_of s (x ∷ xs) = number_of s x ++ numbers_of s xs

  -- What one message does to the source's numbers.
  unfoldable pub Numbered : Text → SocketData → Result o → Type 0
  Numbered s c r =
      IsBounded r.0 × Ascends (last_number s c) (last_number s r.0) (numbers_of s r.1.1)

  -- An event with a number that was accepted, held back or sent.
  pub placed_lem :
      (s source : Text) (n : ℕ) (c d : SocketData) (e : CodeEntry o) (out : List (Emission o))
      → IsBounded c
      → d.source_sequences ≡ (accept_source_sequence source n c).1.source_sequences
      → (accept_source_sequence source n c).0 ≡ true
      → numbers_of s out ≡ (if same source s then n ∷ [] else [])
      → Numbered s c (d, (e, out))
  unfolding Numbered
  placed_lem s source n c d e out b q a x = elim (Bool-cases (same source s)) [
    | inl h ↦
        let (b', at, above) = accept_lem s source n c b in
        let sent : numbers_of s out ≡ n ∷ [] = ground (arith, x, h) in
        let named : source ≡ s = (same_iff source s).0 h in
        (
          ground (arith, b', q),
          rw sent (ground (arith, above, a, named), ground (arith, at, q, a, h)),
        )
    | inr h ↦
        let (b', at, above) = accept_lem s source n c b in
        let sent : numbers_of s out ≡ [] = ground (arith, x, h) in
        (ground (arith, b', q), rw sent (ground (arith, at, q, a, h)))
  ]

  pub held_lem :
      (s source : Text) (n : ℕ) (c d : SocketData) (e : CodeEntry o)
      → IsBounded c
      → d.source_sequences ≡ (accept_source_sequence source n c).1.source_sequences
      → Numbered s c (d, (e, []))
  unfolding Numbered numbers_of
  held_lem s source n c d e b q =
      let (b', at, above) = accept_lem s source n c b in
      (ground (arith, b', q), ground (arith, at, above, q, same_iff source s))

  -- Nothing with a number came of it.
  pub idle_lem :
      (s : Text) (c : SocketData) (r : Result o)
      → IsBounded c
      → r.0.source_sequences ≡ c.source_sequences
      → numbers_of s r.1.1 ≡ []
      → Numbered s c r
  unfolding Numbered
  idle_lem s c r b q x = (ground (arith, b, q), rw x (ground (arith, q)))

  pub numbers_of-one : (s : Text) (x : Emission o) → numbers_of s (x ∷ []) ≡ number_of s x
  unfolding numbers_of
  numbers_of-one s x = ground arith

  pub numbers_of-nothing : (s : Text) → numbers_of s [] ≡ []
  unfolding numbers_of
  numbers_of-nothing s = refl

  pub place_cursor_lem :
      (s : Text) (c : SocketData) (e : CodeEntry o) (path source : Text) (n now : ℕ)
      → IsBounded c
      → Numbered s c (place_cursor o c e path source n now)
  unfolding place_cursor
  place_cursor_lem s c e path source n now b =
      let d = (accept_source_sequence source n c).1 in
      let window = in_window now c.cursor_window in
      elim (Bool-cases (accept_source_sequence source n c).0) [
        | inr a ↦
            let at : place_cursor o c e path source n now ≡ nothing o c e = ground (arith, a) in
            rw at (idle_lem s c (nothing o c e) b refl (numbers_of-nothing s))
        | inl a ↦ elim (Bool-cases (leb 25 window.count)) [
          | inl f ↦
              let at : place_cursor o c e path source n now
                  ≡ nothing o (record d { cursor_window = window }) e =
                ground (arith, a, f) in
              rw at (held_lem s source n c (record d { cursor_window = window }) e b refl)
          | inr f ↦
              let out = others (cursor_sent source n path) ∷ [] in
              let at : place_cursor o c e path source n now
                  ≡ (record d { cursor_window = count_in window }, (e, out)) =
                ground (arith, a, f) in
              rw at (
                placed_lem s source n c (record d { cursor_window = count_in window }) e out b refl
                  a (numbers_of-one s (others (cursor_sent source n path))))
        ]
      ]

  pub place_pointer_lem :
      (s : Text) (c : SocketData) (e : CodeEntry o) (kind : PointerKind) (path source : Text)
      (n now : ℕ)
      → IsBounded c
      → Numbered s c (place_pointer o c e kind path source n now)
  unfolding place_pointer
  place_pointer_lem s c e kind path source n now b =
      let d = (accept_source_sequence source n c).1 in
      let window = in_window now c.pointer_window in
      elim (Bool-cases (accept_source_sequence source n c).0) [
        | inr a ↦
            let at : place_pointer o c e kind path source n now ≡ nothing o c e =
              ground (arith, a) in
            rw at (idle_lem s c (nothing o c e) b refl (numbers_of-nothing s))
        | inl a ↦ elim (Bool-cases (is_move o kind && leb 25 window.count)) [
          | inl f ↦
              let at : place_pointer o c e kind path source n now
                  ≡ nothing o (record d { pointer_window = window }) e =
                ground (arith, a, f) in
              rw at (held_lem s source n c (record d { pointer_window = window }) e b refl)
          | inr f ↦
              let out = others (pointer_sent source n path) ∷ [] in
              let at : place_pointer o c e kind path source n now
                  ≡ (record d { pointer_window = count_in window }, (e, out)) =
                ground (arith, a, f) in
              rw at (
                placed_lem s source n c (record d { pointer_window = count_in window }) e out b refl
                  a (numbers_of-one s (others (pointer_sent source n path))))
        ]
      ]
