-- ===== src/Common/Lists.antt =====
-- Lists measured by native numbers, predicates on every element, and sums of integers.
use mathlib.Core.List.{Permᴰ}
use ai_cinema_be.Common.{
  ◌<◌, ◌≤◌, arith, ap, map, some, ◌||◌, false, none, Option, ℕ, zero, suc, ◌≡◌, refl, ◌∙◌, subst,
  inl, inr, Bool, true, List, [], ◌∷◌, if◌then◌else◌, Bool-cases,
}
use ai_cinema_be.Common.Int.{ℤ, pos, ◌+ℤ◌, int_laws}

module _ {ℓ} {A : Type ℓ} where
  abbrev pub length : List A → ℕ
  length [] = 0
  length (x ∷ xs) = suc (length xs)

  abbrev pub take : ℕ → List A → List A
  take zero xs = []
  take (suc n) [] = []
  take (suc n) (x ∷ xs) = x ∷ take n xs

  -- `filter`, on a Boolean test.
  abbrev pub keep : (A → Bool) → List A → List A
  keep p [] = []
  keep p (x ∷ xs) = let rest = keep p xs in if p x then x ∷ rest else rest

  -- The sum of a number taken of each element.
  abbrev pub sum_of : (A → ℤ) → List A → ℤ
  sum_of f [] = pos 0
  sum_of f (x ∷ xs) = f x +ℤ sum_of f xs

  pub sum_of-perm : (f : A → ℤ) {xs ys : List A} → Permᴰ xs ys → sum_of f xs ≡ sum_of f ys
  sum_of-perm f Permᴰ.nil = refl
  sum_of-perm f (Permᴰ.cons e p) = rw (e, sum_of-perm f p)
  sum_of-perm f (Permᴰ.swap e d) = rw (e, d) (omega int_laws)
  sum_of-perm f (Permᴰ.trans p q) = sum_of-perm f p ∙ sum_of-perm f q

module _ {ℓ κ} {A : Type ℓ} (P : A → Type κ) where
  abbrev pub All : List A → Type κ
  All [] = Unit
  All (x ∷ xs) = P x × All xs

  pub All-perm : {xs ys : List A} → Permᴰ xs ys → All xs → All ys
  All-perm Permᴰ.nil h = tt
  All-perm (Permᴰ.cons e p) (h, hs) = (subst P e h, All-perm p hs)
  All-perm (Permᴰ.swap e d) (h, (k, hs)) = (subst P d k, (subst P e h, hs))
  All-perm (Permᴰ.trans p q) h = All-perm q (All-perm p h)

pub keep-All {ℓ κ} :
    {A : Type ℓ} (P : A → Type κ) (p : A → Bool) (xs : List A) → All P xs → All P (keep p xs)
keep-All P p [] h = tt
keep-All P p (x ∷ xs) (h, hs) = elim (Bool-cases (p x)) [
  | inl t ↦ rw t (h, keep-All P p xs hs)
  | inr t ↦ rw t (keep-All P p xs hs)
]

-- What is kept passes the test.
pub keep-All_test {ℓ} :
    {A : Type ℓ} (p : A → Bool) (xs : List A) → All (λ x. p x ≡ true) (keep p xs)
keep-All_test p [] = tt
keep-All_test p (x ∷ xs) = elim (Bool-cases (p x)) [
  | inl t ↦ rw t (t, keep-All_test p xs)
  | inr t ↦ rw t (keep-All_test p xs)
]

-- An implication on each element.
pub All-map {ℓ κ ρ} :
    {A : Type ℓ} (P : A → Type κ) (Q : A → Type ρ) (xs : List A)
    → ((x : A) → P x → Q x)
    → All P xs
    → All Q xs
All-map P Q [] f h = tt
All-map P Q (x ∷ xs) f (h, hs) = (f x h, All-map P Q xs f hs)

module _ {ℓ} {A : Type ℓ} where
  -- `find`, and whether a count of matching rows is above zero.
  abbrev pub find : (A → Bool) → List A → Option A
  find p [] = none
  find p (x ∷ xs) = if p x then some x else find p xs

  abbrev pub any : (A → Bool) → List A → Bool
  any p [] = false
  any p (x ∷ xs) = p x || any p xs

  pub any-find : (p : A → Bool) (xs : List A) → find p xs ≡ none → any p xs ≡ false
  any-find p [] h = refl
  any-find p (x ∷ xs) h = elim (Bool-cases (p x)) [
    | inl t ↦ cc (rw t at h)
    | inr t ↦ rw t (any-find p xs (rw t at h))
  ]

-- What a map makes of each element.
pub All-of_map {ℓ κ ρ} :
    {A : Type ℓ} (P : A → Type κ) (Q : A → Type ρ) (f : A → A) (xs : List A)
    → ((x : A) → P x → Q (f x))
    → All P xs
    → All Q (map f xs)
All-of_map P Q f [] h p = tt
All-of_map P Q f (x ∷ xs) h (p, ps) = (h x p, All-of_map P Q f xs h ps)

module _ {ℓ} {A : Type ℓ} where
  pub length-perm : {xs ys : List A} → Permᴰ xs ys → length xs ≡ length ys
  length-perm Permᴰ.nil = refl
  length-perm (Permᴰ.cons e p) = ap suc (length-perm p)
  length-perm (Permᴰ.swap e d) = refl
  length-perm (Permᴰ.trans p q) = length-perm p ∙ length-perm q

  pub any-perm : (p : A → Bool) {xs ys : List A} → Permᴰ xs ys → any p xs ≡ any p ys
  any-perm p Permᴰ.nil = refl
  any-perm p (Permᴰ.cons e q) = rw (e, any-perm p q) refl
  any-perm p (Permᴰ.swap e d) = rw (e, d) (ground arith)
  any-perm p (Permᴰ.trans q r) = any-perm p q ∙ any-perm p r

  -- `take` on both sides of the length.
  pub length-take : (n : ℕ) (xs : List A) → n ≤ length xs → length (take n xs) ≡ n
  length-take zero xs h = refl
  length-take (suc n) [] h = absurd (omega arith)
  length-take (suc n) (x ∷ xs) h = omega (arith, length-take n xs)

  pub take-all : (n : ℕ) (xs : List A) → length (take n xs) < n → take n xs ≡ xs
  take-all zero xs h = absurd (omega arith)
  take-all (suc n) [] h = refl
  take-all (suc n) (x ∷ xs) h = ap (λ l. x ∷ l) (take-all n xs (omega arith))
