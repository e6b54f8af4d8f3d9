-- ===== src/Common/Table.antt =====
-- A table whose rows have a unique id: reading and updating the row with a given id.
use mathlib.Core.List.{Permᴰ}
use ai_cinema_be.Common.{
  map, ℕ, ◌≡◌, refl, sym, subst, ◌≢◌, inl, inr, Bool, Option, none, some, List, [], ◌∷◌, arith,
  ◌==◌, if◌then◌else◌, Bool-cases, ==_iff, ◌∙◌,
}
use ai_cinema_be.Common.Int.{ℤ, ◌+ℤ◌, int_laws, parts_eq}
use ai_cinema_be.Common.Lists.{All, All-map, All-perm, keep, keep-All, sum_of}

pub record HasId (A : Type 0) : Type 0 where
  pub id_of : A → ℕ

pub some_eq : {A : Type 0} {a b : A} → some a ≡ some b → a ≡ b
some_eq h = cc

module _ {A : Type 0} ⦃k : HasId A⦄ where
  -- `findUnique({ where: { id } })`
  abbrev pub find_row : ℕ → List A → Option A
  find_row i [] = none
  find_row i (x ∷ xs) = if k.id_of x == i then some x else find_row i xs

  -- `update({ where: { id }, data })`, where no other row has the id.
  abbrev pub update_row : ℕ → (A → A) → List A → List A
  update_row i f [] = []
  update_row i f (x ∷ xs) = if k.id_of x == i then f x ∷ xs else x ∷ update_row i f xs

  abbrev pub IsUnique : List A → Type 0
  IsUnique [] = Unit
  IsUnique (x ∷ xs) = All (λ y. k.id_of x ≢ k.id_of y) xs × IsUnique xs

  pub find_row-id : (i : ℕ) (xs : List A) (x : A) → find_row i xs ≡ some x → k.id_of x ≡ i
  find_row-id i [] x h = cc
  find_row-id i (y ∷ xs) x h = ground (arith, find_row-id i xs x)

  pub find_row-update_self :
      (i : ℕ) (f : A → A) (xs : List A) (x : A)
      → ((y : A) → k.id_of (f y) ≡ k.id_of y)
      → find_row i xs ≡ some x
      → find_row i (update_row i f xs) ≡ some (f x)
  find_row-update_self i f [] x same h = cc
  find_row-update_self i f (y ∷ xs) x same h =
      ground (arith, same y, find_row-update_self i f xs x same)

  pub find_row-update_ne :
      (i j : ℕ) (f : A → A) (xs : List A)
      → ((y : A) → k.id_of (f y) ≡ k.id_of y)
      → i ≢ j
      → find_row j (update_row i f xs) ≡ find_row j xs
  find_row-update_ne i j f [] same h = refl
  find_row-update_ne i j f (x ∷ xs) same h =
      ground (arith, same x, find_row-update_ne i j f xs same h)

  pub find_row-All :
      (P : A → Type 0) (i : ℕ) (xs : List A) (x : A) → All P xs → find_row i xs ≡ some x → P x
  find_row-All P i [] x h e = cc
  find_row-All P i (y ∷ xs) x (p, h) e = elim (Bool-cases (k.id_of y == i)) [
    | inl t ↦ subst P (some_eq (rw t at e)) p
    | inr t ↦ find_row-All P i xs x h (rw t at e)
  ]

  pub update_row-All :
      (P : A → Type 0) (i : ℕ) (f : A → A) (xs : List A)
      → ((y : A) → P y → P (f y))
      → All P xs
      → All P (update_row i f xs)
  update_row-All P i f [] h a = tt
  update_row-All P i f (x ∷ xs) h (p, a) = elim (Bool-cases (k.id_of x == i)) [
    | inl t ↦ rw t (h x p, a)
    | inr t ↦ rw t (p, update_row-All P i f xs h a)
  ]

  pub update_row-IsUnique :
      (i : ℕ) (f : A → A) (xs : List A)
      → ((y : A) → k.id_of (f y) ≡ k.id_of y)
      → IsUnique xs
      → IsUnique (update_row i f xs)
  update_row-IsUnique i f [] same u = tt
  update_row-IsUnique i f (x ∷ xs) same (p, u) = elim (Bool-cases (k.id_of x == i)) [
    | inl t ↦ rw (t, same x) (p, u)
    | inr t ↦ rw t (
      update_row-All (λ y. k.id_of x ≢ k.id_of y) i f xs (λ y h. rw (same y) h) p,
      update_row-IsUnique i f xs same u,
    )
  ]

  -- An update changes a sum by what it changes in its row.
  pub sum_of-update :
      (g : A → ℤ) (i : ℕ) (f : A → A) (xs : List A) (x : A)
      → find_row i xs ≡ some x
      → sum_of g (update_row i f xs) +ℤ g x ≡ sum_of g xs +ℤ g (f x)
  sum_of-update g i f [] x h = cc
  sum_of-update g i f (y ∷ xs) x h = elim (Bool-cases (k.id_of y == i)) [
    | inl t ↦ let e : y ≡ x = some_eq (rw t at h) in rw (t, e) (omega int_laws)
    | inr t ↦ rw t (omega (int_laws, parts_eq (sum_of-update g i f xs x (rw t at h))))
  ]

  -- In a table with unique ids every row is found by its id.
  find_row-cons :
      (x y : A) (xs : List A)
      → k.id_of x ≢ k.id_of y
      → find_row (k.id_of y) xs ≡ some y
      → find_row (k.id_of y) (x ∷ xs) ≡ some y
  find_row-cons x y xs h e = ground arith

  pub All-zip :
      (P Q R : A → Type 0) (xs : List A)
      → ((x : A) → P x → Q x → R x)
      → All P xs
      → All Q xs
      → All R xs
  All-zip P Q R [] f p q = tt
  All-zip P Q R (x ∷ xs) f (p, ps) (q, qs) = (f x p q, All-zip P Q R xs f ps qs)

  pub found_rows : (xs : List A) → IsUnique xs → All (λ x. find_row (k.id_of x) xs ≡ some x) xs
  found_rows [] u = tt
  found_rows (x ∷ xs) (h, u) = (
    ground arith,
    All-zip (λ y. k.id_of x ≢ k.id_of y) (λ y. find_row (k.id_of y) xs ≡ some y)
        (λ y. find_row (k.id_of y) (x ∷ xs) ≡ some y) xs (λ y n e. find_row-cons x y xs n e) h
        (found_rows xs u),
  )

  pub keep-found :
      (p : A → Bool) (xs : List A)
      → IsUnique xs
      → All (λ x. find_row (k.id_of x) xs ≡ some x) (keep p xs)
  keep-found p xs u = keep-All _ p xs (found_rows xs u)

  pub keep-IsUnique : (p : A → Bool) (xs : List A) → IsUnique xs → IsUnique (keep p xs)
  keep-IsUnique p [] u = tt
  keep-IsUnique p (x ∷ xs) (h, u) = elim (Bool-cases (p x)) [
    | inl t ↦ rw t (keep-All _ p xs h, keep-IsUnique p xs u)
    | inr t ↦ rw t (keep-IsUnique p xs u)
  ]

  -- Uniqueness does not depend on the order of the rows.
  pub IsUnique-perm : {xs ys : List A} → Permᴰ xs ys → IsUnique xs → IsUnique ys
  IsUnique-perm Permᴰ.nil u = u
  IsUnique-perm (Permᴰ.cons {l₁ = xs} e p) (h, u) =
      (All-perm _ p (subst (λ z. All (λ y. k.id_of z ≢ k.id_of y) xs) e h), IsUnique-perm p u)
  IsUnique-perm (Permᴰ.swap {l = xs} e d) ((h, hs), (g, u)) = (
    (rw (← e, ← d) (λ q. h (sym q)), subst (λ z. All (λ y. k.id_of z ≢ k.id_of y) xs) d g),
    (subst (λ z. All (λ y. k.id_of z ≢ k.id_of y) xs) e hs, u),
  )
  IsUnique-perm (Permᴰ.trans p q) u = IsUnique-perm q (IsUnique-perm p u)

  other_rows :
      (P Q : A → Type 0) (i : ℕ) (f : A → A) (xs : List A)
      → ((y : A) → k.id_of y ≢ i → P y → Q y)
      → All (λ y. k.id_of y ≢ i) xs
      → All P xs
      → All Q xs
  other_rows P Q i f [] other n p = tt
  other_rows P Q i f (y ∷ xs) other (n, ns) (p, ps) =
      (other y n p, other_rows P Q i f xs other ns ps)

  -- What becomes of every row when one row is updated and the rest of the world moves with it.
  pub update_row-All_at :
      (P Q : A → Type 0) (i : ℕ) (f : A → A) (xs : List A)
      → IsUnique xs
      → ((y : A) → k.id_of y ≡ i → P y → Q (f y))
      → ((y : A) → k.id_of y ≢ i → P y → Q y)
      → All P xs
      → All Q (update_row i f xs)
  update_row-All_at P Q i f [] u at other p = tt
  update_row-All_at P Q i f (y ∷ xs) (n, u) at other (p, ps) = elim (Bool-cases (k.id_of y == i)) [
    | inl t ↦
        let e : k.id_of y ≡ i = (==_iff (k.id_of y) i).0 t in
        rw t (at y e p, other_rows P Q i f xs other (All-map _ _ xs (λ z h q. h (e ∙ sym q)) n) ps)
    | inr t ↦ rw t (other y (ground arith) p, update_row-All_at P Q i f xs u at other ps)
  ]

  -- A row that an update leaves missing was missing.
  pub find_row-update_none :
      (i j : ℕ) (f : A → A) (xs : List A)
      → ((y : A) → k.id_of (f y) ≡ k.id_of y)
      → find_row j (update_row i f xs) ≡ none
      → find_row j xs ≡ none
  find_row-update_none i j f [] same h = refl
  find_row-update_none i j f (x ∷ xs) same h =
      ground (arith, same x, find_row-update_none i j f xs same)

  pub find_row-map-none :
      (j : ℕ) (f : A → A) (xs : List A)
      → ((y : A) → k.id_of (f y) ≡ k.id_of y)
      → find_row j (map f xs) ≡ none
      → find_row j xs ≡ none
  find_row-map-none j f [] same h = refl
  find_row-map-none j f (x ∷ xs) same h = ground (arith, same x, find_row-map-none j f xs same)

  map-All_ids :
      (i : ℕ) (f : A → A) (xs : List A)
      → ((y : A) → k.id_of (f y) ≡ k.id_of y)
      → All (λ y. i ≢ k.id_of y) xs
      → All (λ y. i ≢ k.id_of y) (map f xs)
  map-All_ids i f [] same h = tt
  map-All_ids i f (x ∷ xs) same (h, hs) = (rw (same x) h, map-All_ids i f xs same hs)

  pub map-IsUnique :
      (f : A → A) (xs : List A)
      → ((y : A) → k.id_of (f y) ≡ k.id_of y)
      → IsUnique xs
      → IsUnique (map f xs)
  map-IsUnique f [] same u = tt
  map-IsUnique f (x ∷ xs) same (h, u) =
      (rw (same x) (map-All_ids (k.id_of x) f xs same h), map-IsUnique f xs same u)

  -- No row has an id that none of the ids is.
  pub find_row-fresh :
      (i : ℕ) (xs : List A) → All (λ j. i ≢ j) (map (λ x. k.id_of x) xs) → find_row i xs ≡ none
  find_row-fresh i [] h = refl
  find_row-fresh i (x ∷ xs) (h, hs) = ground (arith, find_row-fresh i xs hs)

  pub fresh-All :
      (i : ℕ) (xs : List A)
      → All (λ j. i ≢ j) (map (λ x. k.id_of x) xs)
      → All (λ y. i ≢ k.id_of y) xs
  fresh-All i [] h = tt
  fresh-All i (x ∷ xs) (h, hs) = (h, fresh-All i xs hs)
