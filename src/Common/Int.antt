-- ===== src/Common/Int.antt =====
-- Signed integers over the native numbers: every Coin and Token amount of the program is a number
-- that may be negative.
use ai_cinema_be.Common.{
  ℕ, suc, ◌+◌, ◌-◌, ◌≤◌, ◌≡◌, refl, ◌⊎◌, inl, inr, Bool, true, false, ◌&&◌, arith, ltb, leb,
  if◌then◌else◌, Bool-cases,
}

-- `negsuc n` is -(n + 1).
pub data ℤ : Type 0 where
  pos : ℕ → ℤ
  negsuc : ℕ → ℤ

abbrev pub pos_part : ℤ → ℕ
pos_part (pos n) = n
pos_part (negsuc n) = 0

abbrev pub neg_part : ℤ → ℕ
neg_part (pos n) = 0
neg_part (negsuc n) = suc n

-- a - b, as an integer.
abbrev pub sub_ℕ : ℕ → ℕ → ℤ
sub_ℕ a b = if leb b a then pos (a - b) else negsuc (b - a - 1)

infixl 65 ◌+ℤ◌ ◌-ℤ◌
infix 50 ◌≤ℤ◌
unfoldable pub ◌+ℤ◌ : ℤ → ℤ → ℤ
a +ℤ b = sub_ℕ (pos_part a + pos_part b) (neg_part a + neg_part b)

unfoldable pub ◌-ℤ◌ : ℤ → ℤ → ℤ
a -ℤ b = sub_ℕ (pos_part a + neg_part b) (neg_part a + pos_part b)

-- Unary minus.
unfoldable pub neg : ℤ → ℤ
neg a = sub_ℕ (neg_part a) (pos_part a)

abbrev pub ◌≤ℤ◌ : ℤ → ℤ → Type 0
a ≤ℤ b = pos_part a + neg_part b ≤ pos_part b + neg_part a

abbrev pub ltb_ℤ : ℤ → ℤ → Bool
ltb_ℤ a b = ltb (pos_part a + neg_part b) (pos_part b + neg_part a)

abbrev pub leb_ℤ : ℤ → ℤ → Bool
leb_ℤ a b = leb (pos_part a + neg_part b) (pos_part b + neg_part a)

abbrev pub eqb_ℤ : ℤ → ℤ → Bool
eqb_ℤ a b = leb_ℤ a b && leb_ℤ b a

-- `Math.min` and `Math.max`.
unfoldable pub min_ℤ : ℤ → ℤ → ℤ
min_ℤ a b = if leb_ℤ a b then a else b

unfoldable pub max_ℤ : ℤ → ℤ → ℤ
max_ℤ a b = if leb_ℤ a b then b else a

-- With these the operations can stay shut.
pub +ℤ_parts :
    (a b : ℤ)
    → pos_part (a +ℤ b) + neg_part a + neg_part b ≡ neg_part (a +ℤ b) + pos_part a + pos_part b
unfolding ◌+ℤ◌
+ℤ_parts a b = ground arith

pub -ℤ_parts :
    (a b : ℤ)
    → pos_part (a -ℤ b) + neg_part a + pos_part b ≡ neg_part (a -ℤ b) + pos_part a + neg_part b
unfolding ◌-ℤ◌
-ℤ_parts a b = ground arith

pub neg_parts : (a : ℤ) → pos_part (neg a) + pos_part a ≡ neg_part (neg a) + neg_part a
unfolding neg
neg_parts a = ground arith

-- The smaller of two numbers is above one of them, and below both.
pub min_ℤ_cases : (a b : ℤ) → (a ≤ℤ min_ℤ a b) ⊎ (b ≤ℤ min_ℤ a b)
unfolding min_ℤ
min_ℤ_cases a b = elim (Bool-cases (leb_ℤ a b)) [
  | inl h ↦ inl (rw h (omega arith))
  | inr h ↦ inr (rw h (omega arith))
]

pub min_ℤ_bounds : (a b : ℤ) → (min_ℤ a b ≤ℤ a) × (min_ℤ a b ≤ℤ b)
unfolding min_ℤ
min_ℤ_bounds a b = ground arith

pub max_ℤ_bounds : (a b : ℤ) → (a ≤ℤ max_ℤ a b) × (b ≤ℤ max_ℤ a b)
unfolding max_ℤ
max_ℤ_bounds a b = ground arith

pub eq_of_parts : (a b : ℤ) → pos_part a + neg_part b ≡ pos_part b + neg_part a → a ≡ b
eq_of_parts a b h = ground arith

-- An equation of integers, as `omega` reads it.
pub parts_eq : {a b : ℤ} → a ≡ b → pos_part a + neg_part b ≡ pos_part b + neg_part a
parts_eq e = rw e

pub ruleset int_laws = (arith, +ℤ_parts, -ℤ_parts, neg_parts, eq_of_parts)

pub ruleset min_laws = (int_laws, min_ℤ_bounds, min_ℤ_cases)

pub leb_ℤ→le : (a b : ℤ) → leb_ℤ a b ≡ true → a ≤ℤ b
leb_ℤ→le a b h = ground arith

pub leb_ℤ→gt : (a b : ℤ) → leb_ℤ a b ≡ false → b +ℤ pos 1 ≤ℤ a
leb_ℤ→gt a b h = ground (arith, +ℤ_parts b (pos 1))

pub +ℤ_comm : (a b : ℤ) → a +ℤ b ≡ b +ℤ a
+ℤ_comm a b = omega int_laws

pub +ℤ_assoc : (a b c : ℤ) → a +ℤ b +ℤ c ≡ a +ℤ (b +ℤ c)
+ℤ_assoc a b c = omega int_laws

pub neg-neg : (a : ℤ) → neg (neg a) ≡ a
neg-neg a = omega int_laws

pub gt→leb_ℤ : (a b : ℤ) → b +ℤ pos 1 ≤ℤ a → leb_ℤ a b ≡ false
gt→leb_ℤ a b h = ground (arith, +ℤ_parts b (pos 1))

pub le→leb_ℤ : (a b : ℤ) → a ≤ℤ b → leb_ℤ a b ≡ true
le→leb_ℤ a b h = ground arith

pub max_ℤ_cases : (a b : ℤ) → (max_ℤ a b ≤ℤ a) ⊎ (max_ℤ a b ≤ℤ b)
unfolding max_ℤ
max_ℤ_cases a b = elim (Bool-cases (leb_ℤ a b)) [
  | inl h ↦ inr (rw h (omega arith))
  | inr h ↦ inl (rw h (omega arith))
]

pub ruleset bound_laws = (min_laws, max_ℤ_bounds, max_ℤ_cases)
