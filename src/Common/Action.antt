-- ===== src/Common/Action.antt =====
-- A request handler outside a transaction: what it wrote before an exception stays written.
use ai_cinema_be.Common.Errors.{Error}
use ai_cinema_be.Common.{ap, refl, ◌≡◌, Option, none, some, Bool, true, false}
use ai_cinema_be.Common.Transaction.{Result, ok, err, Tx}

abbrev pub Action : Type 0 → Type 0 → Type 0
Action S A = S → Result A × S

module _ {S : Type 0} where
  abbrev pub done : {A : Type 0} → A → Action S A
  done a s = (ok a, s)

  abbrev pub fail : {A : Type 0} → Error → Action S A
  fail e s = (err e, s)

  abbrev pub reads : {A : Type 0} → (S → A) → Action S A
  reads f s = (ok (f s), s)

  -- `if (!test) throw e`, and a read that must find something.
  abbrev pub requires : Bool → Error → Action S (Unit {0})
  requires true e s = (ok tt, s)
  requires false e s = (err e, s)

  abbrev pub or_fail : {A : Type 0} → Option A → Error → Action S A
  or_fail none e s = (err e, s)
  or_fail (some a) e s = (ok a, s)

  -- `$transaction`: an exception undoes the writes of the body and is thrown on.
  abbrev pub commit : {A : Type 0} → Tx S A → Action S A
  commit m s = elim (m s) [ ok r ↦ (ok r.0, r.1) | err e ↦ (err e, s) ]

  -- `try { … } catch (error) { … }`: what was written stays, and the error is a value.
  abbrev pub attempt : {A : Type 0} → Action S A → Action S (Result A)
  attempt m s = (ok (m s).0, (m s).1)

  abbrev pub settled_with : {A : Type 0} → Result A → Action S A
  settled_with r s = (r, s)

  -- What follows a step: nothing once it threw.
  abbrev pub next : {A B : Type 0} → Result A × S → (A → S → Result B × S) → Result B × S
  next (ok a, s) f = f a s
  next (err e, s) f = (err e, s)

  infixl 5 ◌>>=◌ ◌>>◌
  abbrev pub ◌>>=◌ : {A B : Type 0} → Action S A → (A → Action S B) → Action S B
  ◌>>=◌ m f s = next (m s) f

  abbrev pub ◌>>◌ : {A B : Type 0} → Action S A → Action S B → Action S B
  m >> k = m >>= λ _. k

-- The parts of a handler that returned, and of one that threw.
pub bind-eq-ok :
    {A B S : Type 0} (r : Result A × S) (f : A → S → Result B × S) {b : B} {after : S}
    → next r f ≡ (ok b, after)
    → (a : A) × (s : S) × (r ≡ (ok a, s)) × (f a s ≡ (ok b, after))
bind-eq-ok (ok a, s) f h = (a, s, refl, h)
bind-eq-ok (err x, s) f h = cc

pub bind-requires-eq-ok :
    {B S : Type 0} (t : Bool) (e : Error) (s : S) (f : Unit {0} → S → Result B × S) {b : B}
    {after : S}
    → next (requires t e s) f ≡ (ok b, after)
    → (t ≡ true) × (f tt s ≡ (ok b, after))
bind-requires-eq-ok true e s f h = (refl, h)
bind-requires-eq-ok false e s f h = cc

pub bind-or_fail-eq-ok :
    {A B S : Type 0} (o : Option A) (e : Error) (s : S) (f : A → S → Result B × S) {b : B}
    {after : S}
    → next (or_fail o e s) f ≡ (ok b, after)
    → (a : A) × (o ≡ some a) × (f a s ≡ (ok b, after))
bind-or_fail-eq-ok (some a) e s f h = (a, refl, h)
bind-or_fail-eq-ok none e s f h = cc

-- A transaction that committed.
pub commit_ok :
    {A S : Type 0} (m : Tx S A) (s : S) {a : A} {after : S}
    → commit m s ≡ (ok a, after)
    → m s ≡ ok (a, after)
commit_ok {A = A} {S = S} m s {a = a} {after = after} h = committed (m s) h
  where
    committed :
        (r : Result (A × S))
        → elim r as (λ _. Result A × S) [ ok p ↦ (ok p.0, p.1) | err e ↦ (err e, s) ]
          ≡ (ok a, after)
        → r ≡ ok (a, after)
    committed (ok p) e = cc
    committed (err x) e = cc

-- Steps that pass.
pub next-or_fail :
    {A B S : Type 0} (o : Option A) (e : Error) (s : S) (f : A → S → Result B × S) {a : A}
    → o ≡ some a
    → next (or_fail o e s) f ≡ f a s
next-or_fail o e s f h = ap (λ x. next (or_fail x e s) f) h

pub next-requires :
    {B S : Type 0} (t : Bool) (e : Error) (s : S) (f : Unit {0} → S → Result B × S)
    → t ≡ true
    → next (requires t e s) f ≡ f tt s
next-requires t e s f h = ap (λ x. next (requires x e s) f) h

pub next-ok :
    {A B S : Type 0} (r : Result A × S) (f : A → S → Result B × S) {a : A} {s : S}
    → r ≡ (ok a, s)
    → next r f ≡ f a s
next-ok r f h = ap (λ x. next x f) h

-- A test that fails ends the handler.
pub next-requires-false :
    {B S : Type 0} (t : Bool) (e : Error) (s : S) (f : Unit {0} → S → Result B × S)
    → t ≡ false
    → next (requires t e s) f ≡ (err e, s)
next-requires-false t e s f h = ap (λ x. next (requires x e s) f) h
