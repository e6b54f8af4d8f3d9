-- ===== src/Common/Transaction.antt =====
-- A database transaction: `prisma.$transaction` commits the store when the body returns, and an
-- exception leaves nothing behind, so an error carries no store.
use ai_cinema_be.Common.{sym, Bool, true, false, Option, none, some, ◌≡◌, refl}
use ai_cinema_be.Common.Errors.{Error}

pub data Result (A : Type 0) : Type 0 where
  ok : A → Result A
  err : Error → Result A

abbrev pub Tx : Type 0 → Type 0 → Type 0
Tx S A = S → Result (A × S)

module _ {S : Type 0} where
  abbrev pub pure : {A : Type 0} → A → Tx S A
  pure a s = ok (a, s)

  abbrev pub throw : {A : Type 0} → Error → Tx S A
  throw e s = err e

  abbrev pub gets : {A : Type 0} → (S → A) → Tx S A
  gets f s = ok (f s, s)

  abbrev pub modify : (S → S) → Tx S (Unit {0})
  modify f s = ok (tt, f s)

  -- `if (!test) throw e`
  abbrev pub require : Bool → Error → Tx S (Unit {0})
  require true e s = ok (tt, s)
  require false e s = err e

  abbrev pub or_throw : {A : Type 0} → Option A → Error → Tx S A
  or_throw none e s = err e
  or_throw (some a) e s = ok (a, s)

  infixl 5 ◌>>=◌ ◌>>◌
  abbrev pub ◌>>=◌ : {A B : Type 0} → Tx S A → (A → Tx S B) → Tx S B
  ◌>>=◌ m f s = elim (m s) [ ok r ↦ f r.0 r.1 | err e ↦ err e ]

  abbrev pub ◌>>◌ : {A B : Type 0} → Tx S A → Tx S B → Tx S B
  m >> k = m >>= λ _. k

-- The parts of a chain that returned.
pub bind-eq-ok :
    {A B S : Type 0} (r : Result (A × S)) (f : A → S → Result B) {b : B}
    → elim r as (λ _. Result B) [ ok p ↦ f p.0 p.1 | err e ↦ err e ] ≡ ok b
    → (a : A) × (s : S) × (r ≡ ok (a, s)) × (f a s ≡ ok b)
bind-eq-ok (ok (a, s)) f h = (a, s, refl, h)
bind-eq-ok (err x) f h = cc

pub bind-require-eq-ok :
    {B S : Type 0} (t : Bool) (e : Error) (s : S) (f : Unit {0} → S → Result B) {b : B}
    → elim (require t e s) as (λ _. Result B) [ ok p ↦ f p.0 p.1 | err e ↦ err e ] ≡ ok b
    → (t ≡ true) × (f tt s ≡ ok b)
bind-require-eq-ok true e s f h = (refl, h)
bind-require-eq-ok false e s f h = cc

pub ok_eq : {A : Type 0} {a b : A} → ok a ≡ ok b → a ≡ b
ok_eq h = cc

pub ok_fst : {A S : Type 0} {p q : A × S} → ok p ≡ ok q → p.0 ≡ q.0
ok_fst h = cc

pub ok_snd : {A S : Type 0} {p q : A × S} → ok p ≡ ok q → p.1 ≡ q.1
ok_snd h = cc

-- Runs an action on a part of a larger store.
abbrev pub on_part : {S P A : Type 0} → (S → P) → (P → S → S) → Tx P A → Tx S A
on_part get put m s = elim (m (get s)) [ ok r ↦ ok (r.0, put r.1 s) | err e ↦ err e ]

pub bind-require-false :
    {B S : Type 0} (t : Bool) (e : Error) (s : S) (f : Unit {0} → S → Result B)
    → t ≡ false
    → elim (require t e s) as (λ _. Result B) [ ok p ↦ f p.0 p.1 | err e ↦ err e ] ≡ err e
bind-require-false t e s f h = rw h refl

-- A guard at the end of a handler.
pub require-eq-ok :
    {S : Type 0} (t : Bool) (e : Error) (s : S) {u : Unit {0}} {after : S}
    → require t e s ≡ ok (u, after)
    → (t ≡ true) × (after ≡ s)
require-eq-ok true e s h = (refl, sym (ok_snd h))
require-eq-ok false e s h = cc

pub or_throw-eq-ok :
    {A S : Type 0} (o : Option A) (e : Error) (s : S) {a : A} {after : S}
    → or_throw o e s ≡ ok (a, after)
    → (o ≡ some a) × (after ≡ s)
or_throw-eq-ok none e s h = cc
or_throw-eq-ok (some b) e s h = (rw (ok_fst h) refl, sym (ok_snd h))

pub bind-or_throw-eq-ok :
    {A B S : Type 0} (o : Option A) (e : Error) (s : S) (f : A → S → Result B) {b : B}
    → elim (or_throw o e s) as (λ _. Result B) [ ok p ↦ f p.0 p.1 | err e ↦ err e ] ≡ ok b
    → (a : A) × (o ≡ some a) × (f a s ≡ ok b)
bind-or_throw-eq-ok (some a) e s f h = (a, refl, h)
bind-or_throw-eq-ok none e s f h = cc

-- An action on a part that went through.
pub on_part_ok :
    {S P A : Type 0} (get : S → P) (put : P → S → S) (m : Tx P A) (s : S) {a : A} {after : S}
    → on_part get put m s ≡ ok (a, after)
    → (p : P) × (m (get s) ≡ ok (a, p)) × (after ≡ put p s)
on_part_ok {S = S} {P = P} {A = A} get put m s {a = a} {after = after} h = lifted (m (get s)) h
  where
    lifted :
        (r : Result (A × P))
        → elim r as (λ _. Result (A × S)) [ ok p ↦ ok (p.0, put p.1 s) | err e ↦ err e ]
          ≡ ok (a, after)
        → (p : P) × (r ≡ ok (a, p)) × (after ≡ put p s)
    lifted (ok (b, p)) e = (p, rw (← ok_fst e) refl, sym (ok_snd e))
    lifted (err x) e = cc

-- An action on a part that threw.
pub on_part_err :
    {S P A : Type 0} (get : S → P) (put : P → S → S) (m : Tx P A) (s : S) {e : Error}
    → on_part get put m s ≡ err e
    → m (get s) ≡ err e
on_part_err {S = S} {P = P} {A = A} get put m s {e = e} h = lifted (m (get s)) h
  where
    lifted :
        (r : Result (A × P))
        → elim r as (λ _. Result (A × S)) [ ok p ↦ ok (p.0, put p.1 s) | err x ↦ err x ] ≡ err e
        → r ≡ err e
    lifted (ok (b, p)) h' = cc
    lifted (err x) h' = cc
