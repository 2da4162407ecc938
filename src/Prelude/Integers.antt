-- ===== src/Prelude/Integers.antt =====
-- Integers over the native numbers, for points that may be taken away.
use livetich_api.Prelude.{
  ℕ, suc, ◌+◌, ◌-◌, ltb, leb, if◌then◌else◌, ◌≡◌, refl, Bool, true, false, arith,
}

pub data ℤ : Type 0 where
  pos negsuc : ℕ → ℤ

-- The difference of two natural numbers.
abbrev difference : ℕ → ℕ → ℤ
difference a b = if leb b a then pos (a - b) else negsuc (b - a - 1)

unfoldable pub ◌+ℤ◌ : ℤ → ℤ → ℤ
pos a +ℤ pos b = pos (a + b)
pos a +ℤ negsuc b = difference a (suc b)
negsuc a +ℤ pos b = difference b (suc a)
negsuc a +ℤ negsuc b = negsuc (suc (a + b))

infixl 65 ◌+ℤ◌
pub add_comm : (x y : ℤ) → x +ℤ y ≡ y +ℤ x
unfolding ◌+ℤ◌
add_comm (pos a) (pos b) = ground arith
add_comm (pos a) (negsuc b) = refl
add_comm (negsuc a) (pos b) = refl
add_comm (negsuc a) (negsuc b) = ground arith

pub zero-add : (x : ℤ) → pos 0 +ℤ x ≡ x
unfolding ◌+ℤ◌
zero-add (pos a) = ground arith
zero-add (negsuc a) = ground arith

abbrev pub is_less : ℤ → ℤ → Bool
is_less (pos a) (pos b) = ltb a b
is_less (pos a) (negsuc b) = false
is_less (negsuc a) (pos b) = true
is_less (negsuc a) (negsuc b) = ltb b a
